-- ===== src/Reality/Record.antt =====
-- src/reality/record.rs: one record sealed and opened under a key, an iv and a sequence number.
pub mod RoundTrip
pub mod Nonces
use mini_vpn.Reality.{Aead, Refusal, decrypt_failed, no_content_type, seq_overflow}
use mini_vpn.Base.Results.{Result, ok, err, and_then, ok_or}
use mini_vpn.Base.{
  ℕ, zero, suc, ◌+◌, ◌-◌, ◌*◌, ◌/◌, ◌%◌, ◌^◌, ◌≤◌, ◌<◌, min, max, ◌≡◌, refl, sym, ap, ◌∙◌, ◌≢◌, ◌↔◌,
  ◌⊎◌, inl, inr, Bool, true, false, not, ◌&&◌, ◌||◌, Option, none, some, List, [], ◌∷◌, ◌++◌, map,
  arith, ltb, leb, ◌==◌, ==_iff, ltb→lt, leb→le, if◌then◌else◌, Bool-cases, Option-cases, ◌>>=◌,
  is_some, some_inj, bind_some, length, get_elem?, set, take, drop, replicate, length-append,
  length-take, take-length, length-drop, take-append-drop, length-set, length-replicate,
  take-append, drop-append, drop-append_le, drop-add, get_elem?-append, get_elem?-append_lt,
  take-append_le, All, Distinct, any, any_iff, Some, and_right, or_right, keep,
}
use mini_vpn.Base.Bytes.{
  IsByte, IsU16, IsU32, u16_be, u32_be, be_bytes, length-be_bytes, from_be16, from_be16-u16_be,
  from_be, from_be-be_bytes, from_be-u32_be,
}
use mini_vpn.Base.Keys.{Eq, ◌=?◌, nat_eq, bytes_eq, pair_eq}
use mini_vpn.Base.Map.{
  Map, get, insert, remove, contains_key, retain, update, UniqueKeys, get-insert, get-remove,
  =?_refl, =?_eq, =?_ne, get-update, insert-UniqueKeys, remove-UniqueKeys, update-UniqueKeys,
  Distinct-le, length-remove-le, length-insert-le, length-remove-lt, length-update,
}

abbrev pub max_tls_plaintext : ℕ
max_tls_plaintext = 16384

abbrev pub max_tls_record : ℕ
max_tls_record = 16640

-- `^` on the `n` low binary digits of two words.
unfoldable pub xor_digits : ℕ → ℕ → ℕ → ℕ
xor_digits zero a b = 0
xor_digits (suc n) a b = (a % 2 + b % 2) % 2 + 2 * xor_digits n (a / 2) (b / 2)

-- Bytes combined in place, as far as both lists go.
unfoldable pub xor_bytes : List ℕ → List ℕ → List ℕ
unfolding xor_digits
xor_bytes [] bs = []
xor_bytes (a ∷ xs) [] = a ∷ xs
xor_bytes (a ∷ xs) (b ∷ bs) = xor_digits 8 a b ∷ xor_bytes xs bs

unfoldable pub per_record_nonce : List ℕ → ℕ → List ℕ
unfolding xor_bytes be_bytes
per_record_nonce iv seq = take 4 iv ++ xor_bytes (drop 4 iv) (be_bytes 8 seq)

unfoldable pub record_header : ℕ → List ℕ
record_header enc_len = 0x17 ∷ 0x03 ∷ 0x03 ∷ u16_be enc_len

-- The cipher is its key.
pub record RecordKeys : Type 0 where
  pub key : List ℕ
  pub iv : List ℕ
  pub seq : ℕ

unfoldable pub new : List ℕ → List ℕ → RecordKeys
new key iv = record { key = key; iv = iv; seq = 0 }

-- `checked_add` on a u64.
unfoldable pub next_seq : ℕ → Result Refusal ℕ
next_seq seq = if ltb (seq + 1) (2 ^ 64) then ok (seq + 1) else err seq_overflow

-- The trailing zeros taken off.
unfoldable pub trim_zeros : List ℕ → List ℕ
trim_zeros [] = []
trim_zeros (b ∷ bs) = elim (trim_zeros bs) [
  | [] ↦ if b == 0 then [] else b ∷ []
  | c ∷ cs ↦ b ∷ c ∷ cs
]

-- The last byte and what stands before it.
unfoldable pub pop : List ℕ → Option (ℕ × List ℕ)
pop [] = none
pop (b ∷ bs) = elim (pop bs) [ none ↦ some (b, []) | some (last, front) ↦ some (last, b ∷ front) ]

module _ (aead : Aead) where
  unfoldable pub seal : RecordKeys → ℕ → List ℕ → Result Refusal (RecordKeys × List ℕ)
  unfolding per_record_nonce record_header next_seq
  seal self content_type content =
      let inner = content ++ content_type ∷ [] in
      let header = record_header ((length inner + 16) % 2 ^ 16) in
      let nonce = per_record_nonce self.iv self.seq in
      let ct = aead.encrypt self.key nonce header inner in
      and_then (next_seq self.seq) (λ seq. ok (record self { seq = seq }, header ++ ct))

  unfoldable pub open_record :
      RecordKeys → List ℕ → List ℕ → Result Refusal (RecordKeys × ℕ × List ℕ)
  unfolding per_record_nonce next_seq trim_zeros pop
  open_record self header encrypted_record =
      let nonce = per_record_nonce self.iv self.seq in
      and_then (ok_or (aead.decrypt self.key nonce header encrypted_record) decrypt_failed)
        (λ inner. and_then (next_seq self.seq) (λ seq.
          and_then (ok_or (pop (trim_zeros inner)) no_content_type)
            (λ (content_type, content). ok (record self { seq = seq }, content_type, content))))
