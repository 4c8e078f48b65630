-- ===== src/Reality/KeySchedule/Labels.antt =====
-- src/reality/key_schedule.rs (`hkdf_label`): what is derived for one purpose is derived for no other.
use mathlib.Core.List.{append_cancel_left}
use mini_vpn.Reality.KeySchedule.{hkdf_label}
use mini_vpn.Reality.KeySchedule.Label
use mini_vpn.Base.{
  ℕ, ◌/◌, ◌%◌, ◌≤◌, ◌≡◌, refl, sym, ap, ◌∙◌, List, ◌∷◌, ◌++◌, arith, length, take, drop,
  take-append, drop-append,
}
use mini_vpn.Base.Bytes.{IsU16}
use mini_vpn.Base.Keys.{nat_eq, bytes_eq, pair_eq}

-- Two fields with a length byte before each, cut apart again.
fields_inj :
    (a b c d : List ℕ)
    → length a ≤ 255
    → length b ≤ 255
    → (length a % 256 ∷ a) ++ (length c % 256 ∷ c) ≡ (length b % 256 ∷ b) ++ (length d % 256 ∷ d)
    → (a ≡ b) × (c ≡ d)
fields_inj a b c d ha hb h =
    let tail : a ++ (length c % 256 ∷ c) ≡ b ++ (length d % 256 ∷ d) = cc in
    let head : length a % 256 ≡ length b % 256 = cc in
    let same : length b ≡ length a = omega arith in
    let first : a ≡ b =
      sym (take-append (length a) a (length c % 256 ∷ c) refl)
      ∙ ap (take (length a)) tail
      ∙ take-append (length a) b (length d % 256 ∷ d) same in
    let second : (length c % 256 ∷ c) ≡ (length d % 256 ∷ d) =
      sym (drop-append (length a) a (length c % 256 ∷ c) refl)
      ∙ ap (drop (length a)) tail
      ∙ drop-append (length a) b (length d % 256 ∷ d) same in
    (first, cc)

-- Labels of at most 249 bytes and lengths below 65,536: the HKDF labels of two calls are equal only
-- where the lengths, the labels and the contexts are.
pub hkdf_label_inj :
    (m n : ℕ) (l k c d : List ℕ)
    → IsU16 m
    → IsU16 n
    → length l ≤ 249
    → length k ≤ 249
    → hkdf_label m l c ≡ hkdf_label n k d
    → (m ≡ n) × (l ≡ k) × (c ≡ d)
unfolding hkdf_label
hkdf_label_inj m n l k c d hm hn hl hk h =
    let hi : m / 256 % 256 ≡ n / 256 % 256 = cc in
    let lo : m % 256 ≡ n % 256 = cc in
    let same : m ≡ n = omega arith in
    let rest : (length (Label.tls13 ++ l) % 256 ∷ (Label.tls13 ++ l)) ++ (length c % 256 ∷ c)
        ≡ (length (Label.tls13 ++ k) % 256 ∷ (Label.tls13 ++ k)) ++ (length d % 256 ∷ d) =
      cc in
    let (label, context) =
      fields_inj (Label.tls13 ++ l) (Label.tls13 ++ k) c d (omega arith) (omega arith) rest in
    (same, append_cancel_left Label.tls13 l k label, context)
