-- ===== src/Tuic/Assoc/Intern.antt =====
-- src/tuic.rs: `intern` gives every flow an id, the same one for as long as the flow is in the table.
use mini_vpn.Flow.{FourTuple, tuple_eq}
use mini_vpn.Tuic.Assoc.{
  AssocTable, least_recent, remove_entry, evict, evict_lru, find_id, alloc_id, enter, intern,
}
use mini_vpn.Tuic.Assoc.Ids.{IsId, find_id-total, find_id-free, find_id-next}
use mini_vpn.Tuic.Assoc.Consistent.{
  IsConsistent, tuple_at, note_reclaimed-SameFlows, roomy, roomy-IsConsistent, roomy-lt,
  enter-IsConsistent,
}
use mini_vpn.Base.{
  ℕ, ◌<◌, ◌≡◌, ap, ◌∙◌, inl, inr, Option, none, some, arith, leb, Bool-cases, Option-cases, length,
}
use mini_vpn.Base.Keys.{nat_eq, bytes_eq, pair_eq}
use mini_vpn.Base.Map.{get, get-insert, get-remove}

remove_entry-misses :
    (id : ℕ) (t : FourTuple) (a : AssocTable)
    → get t a.tuple_to_id ≡ none
    → get t (remove_entry id a).tuple_to_id ≡ none
unfolding remove_entry
remove_entry-misses id t a h = elim (Option-cases (get id a.id_to_entry)) [
  | inl e ↦ rw (e, remove_entry) h
  | inr (f, e) ↦ ground (arith, e, get-remove f.tuple t a.tuple_to_id)
]

evict-misses :
    (t : FourTuple) (a : AssocTable) (o : Option (ℕ × ℕ))
    → get t a.tuple_to_id ≡ none
    → get t (evict a o).tuple_to_id ≡ none
evict-misses t a none h = h
evict-misses t a (some (s, id)) h =
    rw (note_reclaimed-SameFlows (remove_entry id a) id).tuples (remove_entry-misses id t a h)

roomy-misses :
    (t : FourTuple) (a : AssocTable)
    → get t a.tuple_to_id ≡ none
    → get t (roomy a).tuple_to_id ≡ none
unfolding roomy evict_lru
roomy-misses t a h = elim (Bool-cases (leb a.cap (length a.id_to_entry))) [
  | inl full ↦ rw (full, roomy) (evict-misses t a (least_recent a.id_to_entry) h)
  | inr some_left ↦ rw (some_left, roomy) h
]

-- The table with its next id moved on.
abbrev moved : AssocTable → AssocTable
moved a = record a { next_id = (find_id 65535 a.id_to_entry a.next_id).1 }

moved-IsConsistent : (a : AssocTable) → IsConsistent a → IsConsistent (moved a)
unfolding tuple_at
moved-IsConsistent a c = record {
  to_entry = c.to_entry;
  to_id = c.to_id;
  ids = c.ids;
  next = find_id-next 65535 a.id_to_entry a.next_id c.next;
  capped = c.capped;
  room = c.room;
  unique = c.unique;
}

-- What a call of `intern` gives.
pub record Interned (a : AssocTable) (t : FourTuple) : Type 0 where
  pub id : ℕ
  pub table : AssocTable
  pub result : intern a t ≡ (some id, table)
  pub consistent : IsConsistent table
  pub entered : tuple_at table id ≡ some t

enter-Interned :
    (a b : AssocTable) (t : FourTuple) (id : ℕ)
    → intern a t ≡ enter t (some id, b)
    → IsConsistent b
    → get t b.tuple_to_id ≡ none
    → get id b.id_to_entry ≡ none
    → IsId id
    → length b.id_to_entry < b.cap
    → Interned a t
unfolding tuple_at
enter-Interned a b t id e c new free is_id lt = record {
  id = id;
  table = (enter t (some id, b)).1;
  result = e;
  consistent = enter-IsConsistent t id b c new free is_id lt;
  entered =
      ground (arith, get-insert id id (record { tuple = t; last_activity = 0 }) b.id_to_entry);
}

intern-new :
    (a : AssocTable) (t : FourTuple)
    → get t a.tuple_to_id ≡ none
    → intern a t ≡ enter t (alloc_id (roomy a))
unfolding intern roomy
intern-new a t e =
    ap (λ (o : Option ℕ). elim o [ some id ↦ (some id, a) | none ↦ enter t (alloc_id (roomy a)) ]) e

alloc_id-found :
    (a : AssocTable) (id : ℕ)
    → (find_id 65535 a.id_to_entry a.next_id).0 ≡ some id
    → alloc_id a ≡ (some id, moved a)
unfolding alloc_id
alloc_id-found a id e = ap (λ (o : Option ℕ). (o, moved a)) e

-- `intern` always ends and gives an id, of a table that is consistent again, under which the flow
-- stands.
pub intern-Interned : (a : AssocTable) (t : FourTuple) → IsConsistent a → Interned a t
unfolding intern
intern-Interned a t c = elim (Option-cases (get t a.tuple_to_id)) [
  | inr (id, e) ↦ record {
    id = id;
    table = a;
    result = rw (e, intern);
    consistent = c;
    entered = c.to_entry t id e;
  }
  | inl e ↦
      let b = roomy a in
      let d = roomy-IsConsistent a c in
      let lt = roomy-lt a c in
      let (id, found) =
        find_id-total b.id_to_entry b.next_id d.next (omega (arith, d.capped, lt)) in
      let free = find_id-free 65535 b.id_to_entry b.next_id id d.next found in
      enter-Interned a (moved b) t id (intern-new a t e ∙ ap (enter t) (alloc_id-found b id found))
        (moved-IsConsistent b d) (roomy-misses t a e) free.0 (free.1, free.2) lt
]

-- A flow that has been given an id is given the same one again, and the table does not change.
pub intern-intern :
    (a : AssocTable) (t : FourTuple) → IsConsistent a → intern (intern a t).1 t ≡ intern a t
intern-intern a t c =
    let i = intern-Interned a t c in
    let known = i.consistent.to_id t i.id i.entered in
    rw i.result (unfold intern in rw (known, intern))
