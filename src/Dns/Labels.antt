-- ===== src/Dns/Labels.antt =====
-- src/dns.rs (`parse_query`): the loop over the labels, and what it depends on.
use mini_vpn.Dns.{push_label, slice, label_at, labels_at}
use mini_vpn.Base.{
  ℕ, zero, suc, ◌+◌, ◌/◌, ◌%◌, ◌≤◌, ◌<◌, ◌≡◌, refl, sym, ap, ◌∙◌, ◌⊎◌, inl, inr, true, false,
  Option, none, some, List, [], ◌∷◌, arith, ◌==◌, ==_iff, Bool-cases, Option-cases, some_inj,
  get_elem?,
}
use mini_vpn.Base.Keys.{nat_eq, bytes_eq, pair_eq}

-- What a run that reads something has seen first: the closing byte, or a label and a shorter run.
abbrev Closed : List ℕ → ℕ → List (List ℕ) → ℕ → Type 0
Closed bs p ls e = (get_elem? bs p ≡ some 0) × (ls ≡ []) × (e ≡ p + 1)

abbrev Labelled : ℕ → List ℕ → ℕ → List (List ℕ) → ℕ → Type 0
Labelled n bs p ls e =
    (len : ℕ) × (l : List ℕ) × (rest : List (List ℕ)) × (get_elem? bs p ≡ some len)
    × ((len == 0) ≡ false)
    × ((len / 64 % 4 == 0) ≡ true)
    × (label_at bs (p + 1) len ≡ some l)
    × (labels_at n bs (p + 1 + len) ≡ some (rest, e))
    × (ls ≡ l ∷ rest)

labelled :
    (n : ℕ) (bs : List ℕ) (p len : ℕ) (ls : List (List ℕ)) (e : ℕ)
    → get_elem? bs p ≡ some len
    → (len == 0) ≡ false
    → (len / 64 % 4 == 0) ≡ true
    → (o : Option (List ℕ)) → label_at bs (p + 1) len ≡ o
    → (r : Option (List (List ℕ) × ℕ)) → labels_at n bs (p + 1 + len) ≡ r
    → push_label o r ≡ some (ls, e)
    → Labelled n bs p ls e
labelled n bs p len ls e g z c none ho r hr h = absurd cc
labelled n bs p len ls e g z c (some l) ho none hr h = absurd cc
labelled n bs p len ls e g z c (some l) ho (some (rest, end)) hr h =
    let same = some_inj h in
    (
      len,
      l,
      rest,
      g,
      z,
      c,
      ho,
      rw (ap (λ (r : List (List ℕ) × ℕ). r.1) same) at hr,
      sym (ap (λ (r : List (List ℕ) × ℕ). r.0) same),
    )

round_of :
    (n : ℕ) (bs : List ℕ) (p : ℕ) (ls : List (List ℕ)) (e : ℕ)
    → labels_at (suc n) bs p ≡ some (ls, e)
    → Closed bs p ls e ⊎ Labelled n bs p ls e
unfolding labels_at
round_of n bs p ls e h = elim (Option-cases (get_elem? bs p)) [
  | inl g ↦ absurd (let x : none ≡ some (ls, e) = rw (g, labels_at) at h in cc)
  | inr (len, g) ↦ elim (Bool-cases (len == 0)) [
    | inl z ↦
        let same : some ([], p + 1) ≡ some (ls, e) = rw (g, z, labels_at) at h in
        inl (
          rw ((==_iff len 0).0 z) at g,
          ap (λ (r : List (List ℕ) × ℕ). r.0) (sym (some_inj same)),
          ap (λ (r : List (List ℕ) × ℕ). r.1) (sym (some_inj same)),
        )
    | inr z ↦ elim (Bool-cases (len / 64 % 4 == 0)) [
      | inl c ↦ inr (labelled n bs p len ls e g z c _ refl _ refl (rw (g, z, c, labels_at) at h))
      | inr c ↦ absurd (let x : none ≡ some (ls, e) = rw (g, z, c, labels_at) at h in cc)
    ]
  ]
]

-- A run goes forward.
pub labels_at-lt :
    (n : ℕ) (bs : List ℕ) (p : ℕ) (ls : List (List ℕ)) (e : ℕ)
    → labels_at n bs p ≡ some (ls, e)
    → p < e
labels_at-lt zero bs p ls e h = unfold labels_at in absurd cc
labels_at-lt (suc n) bs p ls e h = elim (round_of n bs p ls e h) [
  | inl (g, l, end) ↦ omega (arith, end)
  | inr (len, l, rest, g, z, c, at, later, eq) ↦
      omega (arith, labels_at-lt n bs (p + 1 + len) rest e later)
]

-- Two buffers that agree from 12 up to `hi`.
pub record Agree (r d : List ℕ) (hi : ℕ) : Type 0 where
  pub bytes : (i : ℕ) → 12 ≤ i → i < hi → get_elem? r i ≡ get_elem? d i
  pub slices : (a b : ℕ) → 12 ≤ a → a ≤ b → b ≤ hi → slice r a b ≡ slice d a b

-- A run reads the same labels in a buffer that agrees with the first up to the run's end, in as many
-- rounds as it has bytes to read, or more.
pub labels_at-Agree :
    (n k : ℕ) (r d : List ℕ) (hi p : ℕ) (ls : List (List ℕ)) (e : ℕ)
    → Agree r d hi
    → 12 ≤ p
    → e ≤ hi
    → e ≤ k + p
    → labels_at n d p ≡ some (ls, e)
    → labels_at k r p ≡ some (ls, e)
unfolding labels_at
labels_at-Agree zero k r d hi p ls e agree low high fuel h = absurd cc
labels_at-Agree (suc n) zero r d hi p ls e agree low high fuel h =
    absurd (omega (arith, labels_at-lt (suc n) d p ls e h))
labels_at-Agree (suc n) (suc k) r d hi p ls e agree low high fuel h =
    let forward = labels_at-lt (suc n) d p ls e h in
    let same = agree.bytes p low (omega arith) in
    elim (round_of n d p ls e h) [
      | inl (g, l, end) ↦ rw (same ∙ g, l, end, labels_at) refl
      | inr (len, l, rest, g, z, c, at, later, eq) ↦
          let inside = labels_at-lt n d (p + 1 + len) rest e later in
          let again =
            labels_at-Agree n k r d hi (p + 1 + len) rest e agree (omega arith) high
              (grind (arith, (==_iff len 0).1)) later in
          let text : label_at r (p + 1) len ≡ some l =
            unfold label_at in
            rw (agree.slices (p + 1) (p + 1 + len) (omega arith) (omega arith) (omega arith)) at in
          rw (same ∙ g, z, c, text, again, eq, labels_at) refl
    ]
