-- ===== src/Base/Lists.antt =====
-- Lists measured and indexed by native numbers, under the library's names.
use Prim.Native.Nat.{ℕ, zero, suc, ◌+◌, ◌-◌, ◌≤◌, ◌<◌, min}
use mathlib.Core.Path.{◌≡◌, refl, ap, sym, ◌∙◌}
use mathlib.Core.Logic.{◌≢◌, ◌⊎◌, ◌↔◌, inl, inr}
use mathlib.Core.Bool.{Bool, true, false, ◌||◌, ◌&&◌}
use mathlib.Core.Option.{Option, none, some}
use mathlib.Core.List.{List, [], ◌∷◌, ◌++◌}
use native.Mathlib.Omega.{arith}

zero-add : (n : ℕ) → 0 + n ≡ n
zero-add n = omega arith

suc-add : (a b : ℕ) → suc a + b ≡ suc (a + b)
suc-add a b = omega arith

pub and_right : (a b : Bool) → (a && b) ≡ true → b ≡ true
and_right true b h = h
and_right false b h = cc

pub or_right : (a b : Bool) → b ≡ true → (a || b) ≡ true
or_right true b h = refl
or_right false b h = h

or_cases : (a b : Bool) → (a || b) ≡ true → (a ≡ true) ⊎ (b ≡ true)
or_cases true b h = inl refl
or_cases false b h = inr h

module _ {ℓ} {A : Type ℓ} where
  abbrev pub length : List A → ℕ
  length [] = 0
  length (x ∷ xs) = suc (length xs)

  abbrev pub get_elem? : List A → ℕ → Option A
  get_elem? [] i = none
  get_elem? (x ∷ xs) zero = some x
  get_elem? (x ∷ xs) (suc i) = get_elem? xs i

  abbrev pub set : List A → ℕ → A → List A
  set [] i v = []
  set (x ∷ xs) zero v = v ∷ xs
  set (x ∷ xs) (suc i) v = x ∷ set xs i v

  abbrev pub take : ℕ → List A → List A
  take zero xs = []
  take (suc n) [] = []
  take (suc n) (x ∷ xs) = x ∷ take n xs

  abbrev pub drop : ℕ → List A → List A
  drop zero xs = xs
  drop (suc n) [] = []
  drop (suc n) (x ∷ xs) = drop n xs

  abbrev pub replicate : ℕ → A → List A
  replicate zero a = []
  replicate (suc n) a = a ∷ replicate n a

  pub length-append : (xs ys : List A) → length (xs ++ ys) ≡ length xs + length ys
  length-append [] ys = omega arith
  length-append (x ∷ xs) ys = omega (arith, length-append xs ys)

  pub length-take : (n : ℕ) (xs : List A) → length (take n xs) ≡ min n (length xs)
  length-take zero xs = omega arith
  length-take (suc n) [] = omega arith
  length-take (suc n) (x ∷ xs) = omega (arith, length-take n xs)

  pub length-drop : (n : ℕ) (xs : List A) → length (drop n xs) ≡ length xs - n
  length-drop zero xs = omega arith
  length-drop (suc n) [] = omega arith
  length-drop (suc n) (x ∷ xs) = omega (arith, length-drop n xs)

  pub take-append-drop : (n : ℕ) (xs : List A) → take n xs ++ drop n xs ≡ xs
  take-append-drop zero xs = refl
  take-append-drop (suc n) [] = refl
  take-append-drop (suc n) (x ∷ xs) = ap (◌∷◌ x) (take-append-drop n xs)

  pub length-set : (xs : List A) (i : ℕ) (v : A) → length (set xs i v) ≡ length xs
  length-set [] i v = refl
  length-set (x ∷ xs) zero v = refl
  length-set (x ∷ xs) (suc i) v = ap suc (length-set xs i v)

  pub length-replicate : (n : ℕ) (a : A) → length (replicate n a) ≡ n
  length-replicate zero a = refl
  length-replicate (suc n) a = ap suc (length-replicate n a)

  -- A front of known length is taken off whole.
  pub take-append : (n : ℕ) (xs ys : List A) → length xs ≡ n → take n (xs ++ ys) ≡ xs
  take-append zero [] ys h = refl
  take-append zero (x ∷ xs) ys h = absurd (omega arith)
  take-append (suc n) [] ys h = absurd (omega arith)
  take-append (suc n) (x ∷ xs) ys h = ap (◌∷◌ x) (take-append n xs ys (omega arith))

  pub drop-append : (n : ℕ) (xs ys : List A) → length xs ≡ n → drop n (xs ++ ys) ≡ ys
  drop-append zero [] ys h = refl
  drop-append zero (x ∷ xs) ys h = absurd (omega arith)
  drop-append (suc n) [] ys h = absurd (omega arith)
  drop-append (suc n) (x ∷ xs) ys h = drop-append n xs ys (omega arith)

  -- A predicate that holds of every entry.
  abbrev pub All {κ} : (A → Type κ) → List A → Type κ
  All P [] = Unit
  All P (x ∷ xs) = P x × All P xs

  -- Each entry differs from all that follow it.
  abbrev pub Distinct : List A → Type ℓ
  Distinct [] = Unit
  Distinct (k ∷ ks) = All (λ j. k ≢ j) ks × Distinct ks

  abbrev pub any : (A → Bool) → List A → Bool
  any p [] = false
  any p (x ∷ xs) = p x || any p xs

  -- The entries of lists, first list first.
  abbrev pub concat : List (List A) → List A
  concat [] = []
  concat (c ∷ cs) = c ++ concat cs

  -- The entries that pass a Boolean test.
  abbrev pub keep : (A → Bool) → List A → List A
  keep p [] = []
  keep p (x ∷ xs) = let rest = keep p xs in elim (p x) [ true ↦ x ∷ rest | false ↦ rest ]

  drop-nil : (n : ℕ) → ◌≡◌ {A = List A} (drop n []) []
  drop-nil zero = refl
  drop-nil (suc n) = refl

  pub drop-add : (a b : ℕ) (xs : List A) → drop (a + b) xs ≡ drop b (drop a xs)
  drop-add zero b xs = ap (λ (n : ℕ). drop n xs) (zero-add b)
  drop-add (suc a) b [] = ap (λ (n : ℕ). drop n []) (suc-add a b) ∙ sym (drop-nil b)
  drop-add (suc a) b (x ∷ xs) = ap (λ (n : ℕ). drop n (x ∷ xs)) (suc-add a b) ∙ drop-add a b xs

  -- An entry behind a front of known length.
  pub get_elem?-append :
      (xs ys : List A) (n i : ℕ) → length xs ≡ n → get_elem? (xs ++ ys) (n + i) ≡ get_elem? ys i
  get_elem?-append [] ys n i h = ap (get_elem? ys) (omega arith)
  get_elem?-append (x ∷ xs) ys zero i h = absurd (omega arith)
  get_elem?-append (x ∷ xs) ys (suc n) i h =
      ap (get_elem? (x ∷ xs ++ ys)) (suc-add n i) ∙ get_elem?-append xs ys n i (omega arith)

  -- A front that does not reach past the first list.
  pub drop-append_le :
      (n : ℕ) (xs ys : List A) → n ≤ length xs → drop n (xs ++ ys) ≡ drop n xs ++ ys
  drop-append_le zero xs ys h = refl
  drop-append_le (suc n) [] ys h = absurd (omega arith)
  drop-append_le (suc n) (x ∷ xs) ys h = drop-append_le n xs ys (omega arith)

  pub take-append_le : (n : ℕ) (xs ys : List A) → n ≤ length xs → take n (xs ++ ys) ≡ take n xs
  take-append_le zero xs ys h = refl
  take-append_le (suc n) [] ys h = absurd (omega arith)
  take-append_le (suc n) (x ∷ xs) ys h = ap (◌∷◌ x) (take-append_le n xs ys (omega arith))

  pub get_elem?-append_lt :
      (xs ys : List A) (i : ℕ) → i < length xs → get_elem? (xs ++ ys) i ≡ get_elem? xs i
  get_elem?-append_lt [] ys i h = absurd (omega arith)
  get_elem?-append_lt (x ∷ xs) ys zero h = refl
  get_elem?-append_lt (x ∷ xs) ys (suc i) h = get_elem?-append_lt xs ys i (omega arith)

  pub take-length : (xs : List A) → take (length xs) xs ≡ xs
  take-length [] = refl
  take-length (x ∷ xs) = ap (◌∷◌ x) (take-length xs)

  -- Some entry has the property.
  abbrev pub Some : (A → Type 0) → List A → Type 0
  Some P [] = ⊥
  Some P (x ∷ xs) = P x ⊎ Some P xs

  pub any_iff :
      (p : A → Bool) (P : A → Type 0)
      → ((x : A) → (p x ≡ true) ↔ P x)
      → (xs : List A) → (any p xs ≡ true) ↔ Some P xs
  any_iff p P h [] = (λ q. cc, λ q. absurd q)
  any_iff p P h (x ∷ xs) = (
    λ q. elim (or_cases (p x) (any p xs) q) [
      | inl l ↦ inl ((h x).0 l)
      | inr r ↦ inr ((any_iff p P h xs).0 r)
    ],
    λ q. elim q [ inl l ↦ rw ((h x).1 l) refl | inr r ↦ or_right (p x) _ ((any_iff p P h xs).1 r) ],
  )
