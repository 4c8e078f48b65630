-- ===== src/Tuic/Assoc/Sweep.antt =====
-- src/tuic.rs: the flows that `sweep` ends, and the fake IPs that it gives back.
use mini_vpn.Flow.{FourTuple, FlowEntry, tuple_eq}
use mini_vpn.Tuic.Assoc.{AssocTable, expired, sweep_all, sweep}
use mini_vpn.Tuic.Assoc.Consistent.{
  IsConsistent, tuple_at, without-IsConsistent, SameFlows-IsConsistent,
}
use mini_vpn.Base.{
  ℕ, ◌-◌, ◌≡◌, refl, ◌≢◌, inl, inr, none, some, List, [], ◌∷◌, arith, ltb, ◌==◌, ==_iff, Bool-cases,
  All,
}
use mini_vpn.Base.Keys.{nat_eq, bytes_eq, pair_eq}
use mini_vpn.Base.Map.{Map, get, remove, UniqueKeys, get-remove, =?_refl}

-- The pairs stand for entries of the table, each id once.
abbrev Listed : AssocTable → List (ℕ × FourTuple) → Type 0
Listed a [] = Unit {0}
Listed a ((id, t) ∷ es) = (tuple_at a id ≡ some t) × All (λ p. id ≢ p.0) es × Listed a es

-- The entry removed with what the loop removes beside it.
abbrev ended : ℕ → FourTuple → AssocTable → AssocTable
ended id t a = record a {
  id_to_entry = remove id a.id_to_entry;
  tuple_to_id = remove t a.tuple_to_id;
  id_to_fake_ip = remove id a.id_to_fake_ip;
}

ended-IsConsistent :
    (id : ℕ) (t : FourTuple) (a : AssocTable)
    → IsConsistent a
    → tuple_at a id ≡ some t
    → IsConsistent (ended id t a)
ended-IsConsistent id t a c at =
    SameFlows-IsConsistent _ (ended id t a)
      (record { tuples = refl; entries = refl; next = refl; cap = refl })
      (without-IsConsistent a c id t at)

ended-Listed :
    (id : ℕ) (t : FourTuple) (a : AssocTable) (es : List (ℕ × FourTuple))
    → All (λ p. id ≢ p.0) es
    → Listed a es
    → Listed (ended id t a) es
unfolding tuple_at
ended-Listed id t a [] apart l = tt
ended-Listed id t a ((j, u) ∷ es) (ne, apart) (at, others, l) =
    (ground (arith, get-remove id j a.id_to_entry, at, ne), others, ended-Listed id t a es apart l)

sweep_all-IsConsistent :
    (es : List (ℕ × FourTuple)) (a : AssocTable)
    → IsConsistent a
    → Listed a es
    → IsConsistent (sweep_all es a).1
unfolding sweep_all
sweep_all-IsConsistent [] a c l = c
sweep_all-IsConsistent ((id, t) ∷ es) a c (at, apart, l) =
    sweep_all-IsConsistent es (ended id t a) (ended-IsConsistent id t a c at)
      (ended-Listed id t a es apart l)

misses-expired :
    (now idle id : ℕ) (es : Map ℕ FlowEntry)
    → get id es ≡ none
    → All (λ p. id ≢ p.0) (expired now idle es)
unfolding expired get
misses-expired now idle id [] h = tt
misses-expired now idle id ((j, e) ∷ es) h = elim (Bool-cases (j == id)) [
  | inl t ↦ let full : some e ≡ none = rw t at h in cc
  | inr f ↦
      let later = misses-expired now idle id es (rw f at h) in
      elim (Bool-cases (ltb idle (now - e.last_activity))) [
        | inl old ↦ rw old (λ q. grind (arith, q, f), later)
        | inr fresh ↦ rw fresh later
      ]
]

tail_get :
    (j : ℕ) (e : FlowEntry) (es : Map ℕ FlowEntry)
    → get j es ≡ none
    → (id : ℕ) (f : FlowEntry) → get id es ≡ some f
    → get id ((j, e) ∷ es) ≡ some f
unfolding get
tail_get j e es new id f h = elim (Bool-cases (j == id)) [
  | inl t ↦ let gone : get id es ≡ none = rw ((==_iff j id).0 t) at new in cc
  | inr n ↦ rw n h
]

-- The flows that the loop is given are entries of the table, each once.
expired-Listed :
    (now idle : ℕ) (es : Map ℕ FlowEntry) (a : AssocTable)
    → UniqueKeys es
    → ((id : ℕ) (e : FlowEntry) → get id es ≡ some e → tuple_at a id ≡ some e.tuple)
    → Listed a (expired now idle es)
unfolding expired get
expired-Listed now idle [] a u within = tt
expired-Listed now idle ((j, e) ∷ es) a (new, u) within =
    let later =
      expired-Listed now idle es a u (λ id f h. within id f (tail_get j e es new id f h)) in
    elim (Bool-cases (ltb idle (now - e.last_activity))) [
      | inl old ↦ rw old (within j e (rw (=?_refl j) refl), misses-expired now idle j es new, later)
      | inr fresh ↦ rw fresh later
    ]

-- A sweep leaves the two maps of the table each the inverse of the other.
pub sweep-IsConsistent :
    (a : AssocTable) (now idle : ℕ) → IsConsistent a → IsConsistent (sweep a now idle).1
unfolding sweep tuple_at
sweep-IsConsistent a now idle c =
    sweep_all-IsConsistent (expired now idle a.id_to_entry) a c
      (expired-Listed now idle a.id_to_entry a c.unique (λ id e h. rw h refl))
