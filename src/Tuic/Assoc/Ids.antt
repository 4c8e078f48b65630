-- ===== src/Tuic/Assoc/Ids.antt =====
-- src/tuic.rs: the search for a free association id ends.
use mini_vpn.Flow.{FlowEntry, tuple_eq}
use mini_vpn.Tuic.Assoc.{advance, find_id}
use mini_vpn.Base.{
  ℕ, zero, suc, ◌+◌, ◌-◌, ◌≤◌, ◌<◌, ◌≡◌, refl, ap, ◌≢◌, inl, inr, true, none, some, List, [], ◌∷◌,
  arith, leb, if◌then◌else◌, Bool-cases, Option-cases, length, All, Distinct,
}
use mini_vpn.Base.Keys.{nat_eq, bytes_eq, pair_eq}
use mini_vpn.Base.Map.{Map, get, contains_key, Distinct-le}

abbrev pub IsId : ℕ → Type 0
IsId id = (1 ≤ id) × (id ≤ 65535)

pub advance-IsId : (id : ℕ) → IsId id → IsId (advance id)
unfolding advance
advance-IsId id h = ground arith

tried : ℕ → ℕ → List ℕ
tried zero id = []
tried (suc n) id = id ∷ tried n (advance id)

length-tried : (n id : ℕ) → length (tried n id) ≡ n
unfolding tried
length-tried zero id = refl
length-tried (suc n) id = ap suc (length-tried n (advance id))

abbrev steps_to : ℕ → ℕ → ℕ
steps_to j id = if leb id j then j - id else j + 65535 - id

nearer : (id j : ℕ) → IsId id → IsId j → j ≢ id → steps_to j (advance id) + 1 ≡ steps_to j id
unfolding advance
nearer id j h k ne = ground arith

round : (id : ℕ) → IsId id → steps_to id (advance id) + 1 ≡ 65535
unfolding advance
round id h = ground arith

not_tried : (n id j : ℕ) → IsId id → IsId j → n ≤ steps_to j id → All (λ i. j ≢ i) (tried n id)
unfolding tried
not_tried zero id j h k far = tt
not_tried (suc n) id j h k far =
    let ne : j ≢ id = ground arith in
    (ne, not_tried n (advance id) j (advance-IsId id h) k (omega (arith, nearer id j h k ne)))

tried-Distinct : (n id : ℕ) → IsId id → n ≤ 65535 → Distinct (tried n id)
unfolding tried
tried-Distinct zero id h le = tt
tried-Distinct (suc n) id h le = (
  not_tried n (advance id) id (advance-IsId id h) h (omega (arith, round id h)),
  tried-Distinct n (advance id) (advance-IsId id h) (omega arith),
)

tried-held :
    (n : ℕ) (es : Map ℕ FlowEntry) (id : ℕ)
    → (find_id n es id).0 ≡ none
    → All (λ j. contains_key j es ≡ true) (tried n id)
unfolding tried find_id
tried-held zero es id e = tt
tried-held (suc n) es id e = elim (Bool-cases (contains_key id es)) [
  | inl held ↦ (held, tried-held n es (advance id) (rw (held, find_id) at e))
  | inr free ↦ ground arith
]

-- With fewer flows than ids, the search finds one in one round.
pub find_id-total :
    (es : Map ℕ FlowEntry) (id : ℕ)
    → IsId id
    → length es < 65535
    → (j : ℕ) × ((find_id 65535 es id).0 ≡ some j)
find_id-total es id h room = elim (Option-cases (find_id 65535 es id).0) [
  | inl e ↦ absurd (
      omega (
        arith,
        length-tried 65535 id,
        Distinct-le (tried 65535 id) es (tried-Distinct 65535 id h (omega arith))
            (tried-held 65535 es id e),
      ))
  | inr (j, e) ↦ (j, e)
]

-- The id found is free, and neither it nor the next one to try is 0.
pub find_id-free :
    (n : ℕ) (es : Map ℕ FlowEntry) (id j : ℕ)
    → IsId id
    → (find_id n es id).0 ≡ some j
    → (get j es ≡ none) × (1 ≤ j) × (j ≤ 65535)
unfolding find_id contains_key
find_id-free zero es id j h e = cc
find_id-free (suc n) es id j h e =
    ground (arith, find_id-free n es (advance id) j (advance-IsId id h))

pub find_id-next : (n : ℕ) (es : Map ℕ FlowEntry) (id : ℕ) → IsId id → IsId (find_id n es id).1
unfolding find_id
find_id-next zero es id h = h
find_id-next (suc n) es id h = elim (Bool-cases (contains_key id es)) [
  | inl held ↦ rw (held, find_id) (find_id-next n es (advance id) (advance-IsId id h))
  | inr free ↦ rw (free, find_id) (advance-IsId id h)
]
