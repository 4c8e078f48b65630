-- ===== src/Reality/Record/RoundTrip.antt =====
-- src/reality/record.rs: what `seal` makes `open` gives back, with the two sequence numbers in step.
use mini_vpn.Reality.{Aead}
use mini_vpn.Reality.Record.{
  RecordKeys, seal, open_record, next_seq, trim_zeros, pop, record_header, per_record_nonce,
}
use mini_vpn.Base.Results.{ok}
use mini_vpn.Base.{
  ℕ, ◌+◌, ◌%◌, ◌^◌, ◌<◌, ◌≡◌, refl, ◌≢◌, true, some, List, [], ◌∷◌, ◌++◌, arith, ltb, length,
}
use mini_vpn.Base.Keys.{nat_eq, bytes_eq, pair_eq}

trim_zeros_cons :
    (b c : ℕ) (xs cs : List ℕ) → trim_zeros xs ≡ c ∷ cs → trim_zeros (b ∷ xs) ≡ b ∷ c ∷ cs
unfolding trim_zeros
trim_zeros_cons b c xs cs h = rw h refl

trim_zeros-append :
    (content : List ℕ) (t : ℕ) → t ≢ 0 → trim_zeros (content ++ t ∷ []) ≡ content ++ t ∷ []
trim_zeros-append [] t h = unfold trim_zeros in ground arith
trim_zeros-append (b ∷ []) t h = trim_zeros_cons b t (t ∷ []) [] (trim_zeros-append [] t h)
trim_zeros-append (b ∷ c ∷ cs) t h =
    trim_zeros_cons b c (c ∷ cs ++ t ∷ []) (cs ++ t ∷ []) (trim_zeros-append (c ∷ cs) t h)

pop-append : (content : List ℕ) (t : ℕ) → pop (content ++ t ∷ []) ≡ some (t, content)
unfolding pop
pop-append [] t = refl
pop-append (b ∷ bs) t = rw (pop-append bs t) refl

-- The record of a sealed content: its header and its ciphertext.
abbrev pub sealed_record : Aead → RecordKeys → ℕ → List ℕ → List ℕ × List ℕ
sealed_record aead self t content =
    let inner = content ++ t ∷ [] in
    let header = record_header ((length inner + 16) % 2 ^ 16) in
    (header, aead.encrypt self.key (per_record_nonce self.iv self.seq) header inner)

-- The keys after one record.
abbrev pub stepped : RecordKeys → RecordKeys
stepped self = record self { seq = self.seq + 1 }

pub seal_eq :
    (aead : Aead) (self : RecordKeys) (t : ℕ) (content : List ℕ)
    → self.seq + 1 < 2 ^ 64
    → seal aead self t content
      ≡ ok (
        stepped self,
        (sealed_record aead self t content).0 ++ (sealed_record aead self t content).1,
      )
unfolding seal next_seq
seal_eq aead self t content h =
    let room : ltb (self.seq + 1) (2 ^ 64) ≡ true = ground arith in rw room refl

pub open_record_eq :
    (aead : Aead) (self : RecordKeys) (t : ℕ) (content : List ℕ)
    → t ≢ 0
    → self.seq + 1 < 2 ^ 64
    → open_record aead self
        (sealed_record aead self t content).0
        (sealed_record aead self t content).1
      ≡ ok (stepped self, t, content)
unfolding open_record next_seq
open_record_eq aead self t content ne h =
    let room : ltb (self.seq + 1) (2 ^ 64) ≡ true = ground arith in
    rw (aead.decrypt-encrypt, room, trim_zeros-append content t ne, pop-append content t) refl
