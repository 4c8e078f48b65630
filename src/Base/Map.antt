-- ===== src/Base/Map.antt =====
-- `std::collections::HashMap` as an association list. No code of the source depends on the order in
-- which a map gives its entries.
use mathlib.Core.Path.{◌≡◌, refl, ◌∙◌}
use mathlib.Core.Logic.{◌≢◌, inl, inr}
use mathlib.Core.Bool.{Bool, true, false}
use mathlib.Core.Option.{Option, none, some}
use mathlib.Core.Option
use mathlib.Core.List.{List, [], ◌∷◌}
use Prim.Native.Nat.{◌+◌, ◌≤◌, ◌<◌}
use native.Mathlib.Omega.{arith}
use mini_vpn.Base.Lists.{length, All, Distinct}
use mini_vpn.Base.Tests.{if◌then◌else◌, is_some, Bool-cases, Option-cases}
use mini_vpn.Base.Keys.{Eq, ◌=?◌}

abbrev pub Map {ℓ κ} : Type ℓ → Type κ → Type (ℓ ⊔ κ)
Map K V = List (K × V)

module _ {ℓ} {K : Type ℓ} ⦃e : Eq K⦄ where
  pub =?_refl : (k : K) → (k =? k) ≡ true
  =?_refl k = (e.beq_iff k k).1 refl

  pub =?_eq : (j k : K) → (j =? k) ≡ true → j ≡ k
  =?_eq j k h = (e.beq_iff j k).0 h

  pub =?_ne : (j k : K) → j ≢ k → (j =? k) ≡ false
  =?_ne j k h = elim (Bool-cases (j =? k)) [ inl t ↦ absurd (h (=?_eq j k t)) | inr f ↦ f ]

module _ {ℓ κ} {K : Type ℓ} {V : Type κ} ⦃e : Eq K⦄ where
  unfoldable pub get : K → Map K V → Option V
  get k [] = none
  get k ((j, v) ∷ m) = if j =? k then some v else get k m

  unfoldable pub insert : K → V → Map K V → Map K V
  insert k v [] = (k, v) ∷ []
  insert k v ((j, w) ∷ m) = if j =? k then (k, v) ∷ m else (j, w) ∷ insert k v m

  unfoldable pub remove : K → Map K V → Map K V
  remove k [] = []
  remove k ((j, w) ∷ m) = if j =? k then remove k m else (j, w) ∷ remove k m

  unfoldable pub contains_key : K → Map K V → Bool
  unfolding get
  contains_key k m = is_some (get k m)

  -- The entries whose key and value pass the test (`retain`).
  unfoldable pub retain : (K → V → Bool) → Map K V → Map K V
  retain p [] = []
  retain p ((k, v) ∷ m) = let rest = retain p m in if p k v then (k, v) ∷ rest else rest

  pub get-insert :
      (k j : K) (v : V) (m : Map K V) → get j (insert k v m) ≡ (if k =? j then some v else get j m)
  unfolding get insert
  get-insert k j v [] = refl
  get-insert k j v ((i, w) ∷ m) =
      ground (arith, e.beq_iff k j, e.beq_iff i k, e.beq_iff i j, get-insert k j v m)

  pub get-remove : (k j : K) (m : Map K V) → get j (remove k m) ≡ (if k =? j then none else get j m)
  unfolding get remove
  get-remove k j [] = ground arith
  get-remove k j ((i, w) ∷ m) =
      ground (arith, e.beq_iff k j, e.beq_iff i k, e.beq_iff i j, get-remove k j m)

  -- `if let Some(v) = m.get_mut(&k) { f(v) }`.
  unfoldable pub update : K → (V → V) → Map K V → Map K V
  unfolding get insert
  update k f m = elim (get k m) [ none ↦ m | some v ↦ insert k (f v) m ]

  pub get-update :
      (k j : K) (f : V → V) (m : Map K V)
      → get j (update k f m) ≡ (if k =? j then Option.map f (get j m) else get j m)
  unfolding update
  get-update k j f m = elim (Option-cases (get k m)) [
    | inl h ↦ ground (arith, e.beq_iff k j, h)
    | inr (v, h) ↦ ground (arith, e.beq_iff k j, h, get-insert k j (f v) m)
  ]

  -- Each key stands once.
  abbrev pub UniqueKeys : Map K V → Type κ
  UniqueKeys [] = Unit
  UniqueKeys ((k, v) ∷ m) = (get k m ≡ none) × UniqueKeys m

  pub insert-UniqueKeys : (k : K) (v : V) (m : Map K V) → UniqueKeys m → UniqueKeys (insert k v m)
  unfolding insert
  insert-UniqueKeys k v [] u = (unfold get in refl, tt)
  insert-UniqueKeys k v ((j, w) ∷ m) u = elim (Bool-cases (j =? k)) [
    | inl t ↦ rw t (rw (← =?_eq j k t) u.0, u.1)
    | inr f ↦
        let apart : (k =? j) ≡ false = =?_ne k j (λ q. cc (f, q, =?_refl j)) in
        rw f (get-insert k j v m ∙ rw apart u.0, insert-UniqueKeys k v m u.1)
  ]

  pub remove-UniqueKeys : (k : K) (m : Map K V) → UniqueKeys m → UniqueKeys (remove k m)
  unfolding remove
  remove-UniqueKeys k [] u = tt
  remove-UniqueKeys k ((j, w) ∷ m) u = elim (Bool-cases (j =? k)) [
    | inl t ↦ rw t (remove-UniqueKeys k m u.1)
    | inr f ↦
        let apart : (k =? j) ≡ false = =?_ne k j (λ q. cc (f, q, =?_refl j)) in
        rw f (get-remove k j m ∙ rw apart u.0, remove-UniqueKeys k m u.1)
  ]

  pub update-UniqueKeys :
      (k : K) (f : V → V) (m : Map K V) → UniqueKeys m → UniqueKeys (update k f m)
  unfolding update
  update-UniqueKeys k f m u = elim (Option-cases (get k m)) [
    | inl h ↦ rw (h, update) u
    | inr (v, h) ↦ rw (h, update) (insert-UniqueKeys k (f v) m u)
  ]

  pub length-remove-le : (k : K) (m : Map K V) → length (remove k m) ≤ length m
  unfolding remove
  length-remove-le k [] = omega arith
  length-remove-le k ((j, w) ∷ m) = ground (arith, length-remove-le k m)

  pub length-remove-lt :
      (k : K) (m : Map K V) → contains_key k m ≡ true → length (remove k m) < length m
  unfolding remove contains_key
  length-remove-lt k [] h = unfold get in cc
  length-remove-lt k ((j, w) ∷ m) h =
      unfold get in ground (arith, length-remove-lt k m, length-remove-le k m)

  still_held :
      (k : K) (ks : List K) (m : Map K V)
      → All (λ j. k ≢ j) ks
      → All (λ j. contains_key j m ≡ true) ks
      → All (λ j. contains_key j (remove k m) ≡ true) ks
  unfolding contains_key
  still_held k [] m apart held = tt
  still_held k (j ∷ ks) m (ne, apart) (h, held) =
      (rw (get-remove k j m, =?_ne k j ne) h, still_held k ks m apart held)

  -- Distinct keys that a map holds are at most as many as its entries.
  pub Distinct-le :
      (ks : List K) (m : Map K V)
      → Distinct ks
      → All (λ j. contains_key j m ≡ true) ks
      → length ks ≤ length m
  Distinct-le [] m d held = omega arith
  Distinct-le (k ∷ ks) m (apart, d) (h, held) =
      omega (
        arith,
        length-remove-lt k m h,
        Distinct-le ks (remove k m) d (still_held k ks m apart held),
      )

  pub length-insert-le : (k : K) (v : V) (m : Map K V) → length (insert k v m) ≤ length m + 1
  unfolding insert
  length-insert-le k v [] = omega arith
  length-insert-le k v ((j, w) ∷ m) = ground (arith, length-insert-le k v m)

  length-insert_held :
      (k : K) (v : V) (m : Map K V) → is_some (get k m) ≡ true → length (insert k v m) ≡ length m
  unfolding insert get
  length-insert_held k v [] h = absurd cc
  length-insert_held k v ((j, w) ∷ m) h = ground (arith, length-insert_held k v m)

  pub length-update : (k : K) (f : V → V) (m : Map K V) → length (update k f m) ≡ length m
  unfolding update
  length-update k f m = elim (Option-cases (get k m)) [
    | inl h ↦ rw (h, update) refl
    | inr (v, h) ↦ rw (h, update) (length-insert_held k (f v) m (rw h refl))
  ]
