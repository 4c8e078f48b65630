-- ===== src/Reality/Stream/Absorb.antt =====
-- src/reality_upstream.rs (`absorb_app`) and src/reality/vless.rs: contents absorbed one by one or
-- at once are the same, and bytes handed out are the first of those to come.
use mathlib.Core.List.{append_assoc}
use mini_vpn.Vless.{ReadSide, absorb_app}
use mini_vpn.Vless.Response.{read_of, body, absorb_app-read_of}
use mini_vpn.Reality.Stream.{is_nil}
use mini_vpn.Base.{
  ℕ, ◌≡◌, refl, sym, ap, ◌∙◌, true, false, Option, none, some, List, ◌++◌, take, drop,
  take-append-drop,
}
use mini_vpn.Base.Keys.{nat_eq, bytes_eq, pair_eq}

-- The read side holds what was absorbed: all of it before the header is off, and else what follows.
abbrev pub IsCanonical : ReadSide → Type 0
IsCanonical side =
    (seen : List ℕ) × (o : Option (List ℕ)) × (side ≡ read_of seen o)
    × (o ≡ none → body seen ≡ none)

pub absorb_app-some :
    (seen out c : List ℕ) → absorb_app (read_of seen (some out)) c ≡ read_of seen (some (out ++ c))
unfolding absorb_app
absorb_app-some seen out c = refl

pub absorb_app_merge :
    (side : ReadSide) (c rest : List ℕ)
    → IsCanonical side
    → (absorb_app (absorb_app side c) rest ≡ absorb_app side (c ++ rest))
      × IsCanonical (absorb_app side c)
absorb_app_merge side c rest (seen, none, e, h) =
    let first : absorb_app side c ≡ read_of (seen ++ c) (body (seen ++ c)) =
      ap (λ (r : ReadSide). absorb_app r c) e ∙ absorb_app-read_of seen c none (h refl) in
    let second = absorb_app-read_of (seen ++ c) rest (body (seen ++ c)) refl in
    let whole : absorb_app side (c ++ rest)
        ≡ read_of (seen ++ (c ++ rest)) (body (seen ++ (c ++ rest))) =
      ap (λ (r : ReadSide). absorb_app r (c ++ rest)) e
      ∙ absorb_app-read_of seen (c ++ rest) none (h refl) in
    (
      ap (λ (r : ReadSide). absorb_app r rest) first
          ∙ second
          ∙ ap (λ (bs : List ℕ). read_of bs (body bs)) (append_assoc seen c rest)
          ∙ sym whole,
      (seen ++ c, body (seen ++ c), first, λ q. q),
    )
absorb_app_merge side c rest (seen, some out, e, h) =
    let first : absorb_app side c ≡ read_of seen (some (out ++ c)) =
      ap (λ (r : ReadSide). absorb_app r c) e ∙ absorb_app-some seen out c in
    let whole : absorb_app side (c ++ rest) ≡ read_of seen (some (out ++ (c ++ rest))) =
      ap (λ (r : ReadSide). absorb_app r (c ++ rest)) e ∙ absorb_app-some seen out (c ++ rest) in
    (
      ap (λ (r : ReadSide). absorb_app r rest) first
          ∙ absorb_app-some seen (out ++ c) rest
          ∙ ap (λ (bs : List ℕ). read_of seen (some bs)) (append_assoc out c rest)
          ∙ sym whole,
      (seen, some (out ++ c), first, λ q. cc),
    )

abbrev pub given : ℕ → ReadSide → ReadSide
given n side = record side { plaintext_out = drop n side.plaintext_out }

-- Bytes given to the reader are the first of those that were to come.
pub given_expected :
    (side : ReadSide) (n : ℕ) (later : List ℕ)
    → IsCanonical side
    → is_nil side.plaintext_out ≡ false
    → ((absorb_app side later).plaintext_out
        ≡ take n side.plaintext_out ++ (absorb_app (given n side) later).plaintext_out)
      × IsCanonical (given n side)
given_expected side n later (seen, none, e, h) full =
    absurd
      (let bad : true ≡ false = ap (λ (r : ReadSide). is_nil r.plaintext_out) (sym e) ∙ full in cc)
given_expected side n later (seen, some out, e, h) full = (
  rw e (
      ap (λ (r : ReadSide). r.plaintext_out) (absorb_app-some seen out later)
      ∙ ap (λ (o : List ℕ). o ++ later) (sym (take-append-drop n out))
      ∙ append_assoc (take n out) (drop n out) later
      ∙ ap (λ (r : ReadSide). take n out ++ r.plaintext_out)
          (sym (absorb_app-some seen (drop n out) later))),
  (seen, some (drop n out), ap (given n) e, λ q. cc),
)
