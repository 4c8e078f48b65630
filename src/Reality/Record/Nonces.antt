-- ===== src/Reality/Record/Nonces.antt =====
-- src/reality/record.rs (`per_record_nonce`): no two records under one key share a nonce.
use native.Mathlib.Nat.{pow-suc}
use mathlib.Core.List.{append_cancel_left}
use mini_vpn.Reality.Record.{xor_digits, xor_bytes, per_record_nonce}
use mini_vpn.Base.{
  ℕ, zero, suc, ◌+◌, ◌*◌, ◌/◌, ◌%◌, ◌^◌, ◌≤◌, ◌<◌, ◌≡◌, refl, sym, ap, ◌∙◌, ◌≢◌, List, [], ◌∷◌,
  arith, length, take, drop, length-drop, All,
}
use mini_vpn.Base.Bytes.{IsByte, be_bytes, length-be_bytes, from_be, from_be-be_bytes}
use mini_vpn.Base.Keys.{nat_eq, bytes_eq, pair_eq}

same_digit :
    (a b c x y : ℕ)
    → (a % 2 + b % 2) % 2 + 2 * x ≡ (a % 2 + c % 2) % 2 + 2 * y
    → (b % 2 ≡ c % 2) × (x ≡ y)
same_digit a b c x y h = (omega arith, omega arith)

halves :
    (b c p : ℕ)
    → b < p * 2
    → c < p * 2
    → (b % 2 ≡ c % 2)
    → (b / 2 < p → c / 2 < p → b / 2 ≡ c / 2)
    → b ≡ c
halves b c p hb hc low high =
    let half : b / 2 ≡ c / 2 = high (omega arith) (omega arith) in omega arith

xor_digits_inj : (n a b c : ℕ) → b < 2 ^ n → c < 2 ^ n → xor_digits n a b ≡ xor_digits n a c → b ≡ c
unfolding xor_digits
xor_digits_inj zero a b c hb hc h = omega arith
xor_digits_inj (suc n) a b c hb hc h =
    let (low, high) = same_digit a b c _ _ h in
    halves b c (2 ^ n) (rw (← pow-suc 2 n) hb) (rw (← pow-suc 2 n) hc) low
      (λ hb' hc'. xor_digits_inj n (a / 2) (b / 2) (c / 2) hb' hc' high)

xor_bytes_inj :
    (xs bs cs : List ℕ)
    → length bs ≤ length xs
    → length cs ≡ length bs
    → All IsByte bs
    → All IsByte cs
    → xor_bytes xs bs ≡ xor_bytes xs cs
    → bs ≡ cs
unfolding xor_bytes
xor_bytes_inj xs [] [] fits same hb hc h = refl
xor_bytes_inj xs [] (c ∷ cs) fits same hb hc h = absurd (omega arith)
xor_bytes_inj xs (b ∷ bs) [] fits same hb hc h = absurd (omega arith)
xor_bytes_inj [] (b ∷ bs) (c ∷ cs) fits same hb hc h = absurd (omega arith)
xor_bytes_inj (x ∷ xs) (b ∷ bs) (c ∷ cs) fits same (hb, hbs) (hc, hcs) h =
    let head : xor_digits 8 x b ≡ xor_digits 8 x c = cc in
    let tail : xor_bytes xs bs ≡ xor_bytes xs cs = cc in
    let first : b ≡ c = xor_digits_inj 8 x b c hb hc head in
    let rest : bs ≡ cs = xor_bytes_inj xs bs cs (omega arith) (omega arith) hbs hcs tail in cc

be_bytes-IsByte : (n v : ℕ) → All IsByte (be_bytes n v)
unfolding be_bytes
be_bytes-IsByte zero v = tt
be_bytes-IsByte (suc n) v = (byte_lt (v / 256 ^ n), be_bytes-IsByte n v)
  where
    byte_lt : (w : ℕ) → w % 256 < 256
    byte_lt w = omega arith

per_record_nonce_inj :
    (iv : List ℕ) (s t : ℕ)
    → length iv ≡ 12
    → s < 2 ^ 64
    → t < 2 ^ 64
    → per_record_nonce iv s ≡ per_record_nonce iv t
    → s ≡ t
unfolding per_record_nonce
per_record_nonce_inj iv s t whole hs ht h =
    let same = append_cancel_left (take 4 iv) _ _ h in
    let fits : length (be_bytes 8 s) ≤ length (drop 4 iv) =
      rw (length-be_bytes 8 s, length-drop 4 iv, whole) (omega arith) in
    let bytes : be_bytes 8 s ≡ be_bytes 8 t =
      xor_bytes_inj (drop 4 iv) (be_bytes 8 s) (be_bytes 8 t) fits
        (length-be_bytes 8 t ∙ sym (length-be_bytes 8 s)) (be_bytes-IsByte 8 s)
        (be_bytes-IsByte 8 t) same in
    sym (from_be-be_bytes 8 s hs) ∙ ap from_be bytes ∙ from_be-be_bytes 8 t ht

-- Under one iv of 12 bytes, two sequence numbers that fit a u64 and differ have different nonces.
pub per_record_nonce_ne :
    (iv : List ℕ) (s t : ℕ)
    → length iv ≡ 12
    → s < 2 ^ 64
    → t < 2 ^ 64
    → s ≢ t
    → per_record_nonce iv s ≢ per_record_nonce iv t
per_record_nonce_ne iv s t whole hs ht ne h = ne (per_record_nonce_inj iv s t whole hs ht h)
