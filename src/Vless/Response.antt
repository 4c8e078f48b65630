-- ===== src/Vless/Response.antt =====
-- src/reality/vless.rs (`VlessResponseStripper`) and src/reality_upstream.rs (`absorb_app`): the
-- bytes that reach the reader do not depend on how the records cut them.
use mathlib.Core.List.{append-nil, append_assoc}
use mini_vpn.Vless.{strip, ReadSide, staged, absorb_app}
use mini_vpn.Base.{
  ℕ, suc, ◌+◌, ◌≡◌, refl, ap, ◌∙◌, inl, inr, true, false, Option, none, some, List, [], ◌∷◌, ◌++◌,
  arith, ltb, leb, leb→le, if◌then◌else◌, Bool-cases, some_inj, length, drop, concat, length-append,
  drop-append_le, drop-add,
}
use mini_vpn.Base.Keys.{nat_eq, bytes_eq, pair_eq}

-- The response read as a whole: nothing until all of `version | n | n bytes` is there, and then what
-- follows it.
abbrev pub body : List ℕ → Option (List ℕ)
body [] = none
body (v ∷ []) = none
body (v ∷ n ∷ rest) = if leb n (length rest) then some (drop n rest) else none

-- The read side after the bytes `seen`, in one piece.
abbrev pub read_of : List ℕ → Option (List ℕ) → ReadSide
read_of seen none = record {
  resp = record { stripped = false };
  staging = seen;
  plaintext_out = [];
}
read_of seen (some rest) = record {
  resp = record { stripped = true };
  staging = [];
  plaintext_out = rest;
}

-- The contents absorbed, first one first.
abbrev pub absorb_all : ReadSide → List (List ℕ) → ReadSide
absorb_all self [] = self
absorb_all self (c ∷ cs) = absorb_all (absorb_app self c) cs

abbrev pub fresh : ReadSide
fresh = record { resp = record { stripped = false }; staging = []; plaintext_out = [] }

strip-body :
    (bs : List ℕ) → staged [] (strip (record { stripped = false }) bs) ≡ read_of bs (body bs)
unfolding strip
strip-body [] = refl
strip-body (v ∷ []) = refl
strip-body (v ∷ n ∷ rest) = elim (Bool-cases (leb n (length rest))) [
  | inl t ↦
      let whole : ltb (suc (suc (length rest))) (2 + n) ≡ false = ground arith in
      rw (t, whole, drop-add 2 n (v ∷ n ∷ rest)) refl
  | inr f ↦
      let partial : ltb (suc (suc (length rest))) (2 + n) ≡ true = ground arith in
      rw (f, partial) refl
]

body-append : (bs c out : List ℕ) → body bs ≡ some out → body (bs ++ c) ≡ some (out ++ c)
body-append [] c out h = cc
body-append (v ∷ []) c out h = cc
body-append (v ∷ n ∷ rest) c out h = elim (Bool-cases (leb n (length rest))) [
  | inl t ↦
      let more : leb n (length (rest ++ c)) ≡ true = ground (arith, length-append rest c) in
      let held : some (drop n rest) ≡ some out = rw t at h in
      rw (more, drop-append_le n rest c (leb→le n (length rest) t))
        (ap (λ (o : List ℕ). some (o ++ c)) (some_inj held))
  | inr f ↦ let short : none ≡ some out = rw f at h in cc
]

pub absorb_app-read_of :
    (seen c : List ℕ) (o : Option (List ℕ))
    → body seen ≡ o
    → absorb_app (read_of seen o) c ≡ read_of (seen ++ c) (body (seen ++ c))
unfolding absorb_app
absorb_app-read_of seen c none h = strip-body (seen ++ c)
absorb_app-read_of seen c (some out) h = rw (body-append seen c out h) refl

absorb_all-read_of :
    (cs : List (List ℕ)) (seen : List ℕ)
    → absorb_all (read_of seen (body seen)) cs
      ≡ read_of (seen ++ concat cs) (body (seen ++ concat cs))
absorb_all-read_of [] seen = rw (append-nil seen) refl
absorb_all-read_of (c ∷ cs) seen =
    ap (λ (r : ReadSide). absorb_all r cs) (absorb_app-read_of seen c (body seen) refl)
    ∙ absorb_all-read_of cs (seen ++ c)
    ∙ rw (append_assoc seen c (concat cs)) refl

-- However the records cut the bytes of the response, the reader is given what follows the whole
-- header, and nothing before all of the header is there.
pub absorb_all-body :
    (cs : List (List ℕ)) → absorb_all fresh cs ≡ read_of (concat cs) (body (concat cs))
absorb_all-body cs = absorb_all-read_of cs []
