-- ===== src/Reality/Framing/Records.antt =====
-- src/reality_upstream.rs (`decode_one`, the part that cuts a record off): a record in the stream is
-- cut off whole, and only once all of it was read.
use mini_vpn.Reality.Framing.{next_record}
use mini_vpn.Reality.Record.{max_tls_record}
use mini_vpn.Base.{
  ℕ, ◌+◌, ◌≤◌, ◌<◌, ◌≡◌, refl, sym, ap, ◌∙◌, ◌⊎◌, inl, inr, false, none, some, List, [], ◌∷◌, ◌++◌,
  arith, ltb, Bool-cases, length, take, drop, length-drop, take-append, drop-append, drop-append_le,
  take-append_le,
}
use mini_vpn.Base.Bytes.{from_be16}
use mini_vpn.Base.Results.{ok}
use mini_vpn.Base.Keys.{nat_eq, bytes_eq, pair_eq}

-- What `next_record` says of a buffer, where the stream has this record first: nothing while the
-- buffer has less than the record.
abbrev pub Cut : List ℕ → List ℕ → List ℕ → List ℕ → List ℕ → Type 0
Cut header payload raw later follows =
    ((next_record raw ≡ ok none) × (length raw < length header + length payload))
    ⊎ ((x : List ℕ) × (follows ≡ x ++ later) × (next_record raw ≡ ok (some (header, payload, x))))

cut_payload :
    (payload follows rest later : List ℕ) (len : ℕ)
    → length payload ≡ len
    → len ≤ length rest
    → payload ++ follows ≡ rest ++ later
    → (take len rest ≡ payload) × (follows ≡ drop len rest ++ later)
cut_payload payload follows rest later len whole fits h = (
  sym (take-append_le len rest later fits)
      ∙ ap (take len) (sym h)
      ∙ take-append len payload follows whole,
  sym (drop-append len payload follows whole)
      ∙ ap (drop len) h
      ∙ drop-append_le len rest later fits,
)

Cut-body :
    (t major minor hi lo : ℕ) (payload rest later follows : List ℕ)
    → length payload ≡ from_be16 hi lo
    → from_be16 hi lo ≤ max_tls_record
    → payload ++ follows ≡ rest ++ later
    → Cut
        (t ∷ major ∷ minor ∷ hi ∷ lo ∷ [])
        payload
        (t ∷ major ∷ minor ∷ hi ∷ lo ∷ rest)
        later
        follows
unfolding next_record
Cut-body t major minor hi lo payload rest later follows whole bound h =
    let len = from_be16 hi lo in
    let short : ltb max_tls_record len ≡ false = ground arith in
    elim (Bool-cases (ltb (length rest) len)) [
      | inl cut ↦ inl (rw (short, cut) refl, ground (arith, cut, whole))
      | inr all ↦
          let fits : len ≤ length rest = ground arith in
          let (front, back) = cut_payload payload follows rest later len whole fits h in
          inr (drop len rest, back, rw (short, all, front) refl)
    ]

pub next_record-Cut :
    (t major minor hi lo : ℕ) (payload raw later follows : List ℕ)
    → length payload ≡ from_be16 hi lo
    → from_be16 hi lo ≤ max_tls_record
    → (t ∷ major ∷ minor ∷ hi ∷ lo ∷ payload) ++ follows ≡ raw ++ later
    → Cut (t ∷ major ∷ minor ∷ hi ∷ lo ∷ []) payload raw later follows
next_record-Cut t major minor hi lo payload [] later follows whole bound h =
    inl (unfold next_record in refl, omega arith)
next_record-Cut t major minor hi lo payload (a ∷ []) later follows whole bound h =
    inl (unfold next_record in refl, omega arith)
next_record-Cut t major minor hi lo payload (a ∷ b ∷ []) later follows whole bound h =
    inl (unfold next_record in refl, omega arith)
next_record-Cut t major minor hi lo payload (a ∷ b ∷ c ∷ []) later follows whole bound h =
    inl (unfold next_record in refl, omega arith)
next_record-Cut t major minor hi lo payload (a ∷ b ∷ c ∷ d ∷ []) later follows whole bound h =
    inl (unfold next_record in refl, omega arith)
next_record-Cut t major minor hi lo payload (a ∷ b ∷ c ∷ d ∷ e ∷ rest) later follows whole bound h =
    let t' : t ≡ a = cc in
    let major' : major ≡ b = cc in
    let minor' : minor ≡ c = cc in
    let hi' : hi ≡ d = cc in
    let lo' : lo ≡ e = cc in
    let body : payload ++ follows ≡ rest ++ later = cc in
    rw (← t', ← major', ← minor', ← hi', ← lo')
      (Cut-body t major minor hi lo payload rest later follows whole bound body)

-- What follows a record is shorter than all of the bytes.
pub next_record_shorter :
    (raw header payload rest : List ℕ)
    → next_record raw ≡ ok (some (header, payload, rest))
    → length rest < length raw
unfolding next_record
next_record_shorter [] header payload rest h = absurd cc
next_record_shorter (a ∷ []) header payload rest h = absurd cc
next_record_shorter (a ∷ b ∷ []) header payload rest h = absurd cc
next_record_shorter (a ∷ b ∷ c ∷ []) header payload rest h = absurd cc
next_record_shorter (a ∷ b ∷ c ∷ d ∷ []) header payload rest h = absurd cc
next_record_shorter (a ∷ b ∷ c ∷ hi ∷ lo ∷ tail) header payload rest h =
    let len = from_be16 hi lo in ground (arith, length-drop len tail)
