-- ===== src/Tuic/Assoc/Consistent.antt =====
-- src/tuic.rs: the table's two maps stay inverse to each other, and within the cap.
use mathlib.Core.Option
use mini_vpn.Flow.{FourTuple, FlowEntry, tuple_eq}
use mini_vpn.Tuic.Assoc.{
  AssocTable, with_cap, note_reclaimed, least_recent, remove_entry, evict, evict_lru, enter,
}
use mini_vpn.Tuic.Assoc.Ids.{IsId}
use mini_vpn.Base.{
  ℕ, ◌≤◌, ◌<◌, ◌≡◌, refl, ap, ◌∙◌, ◌≢◌, inl, inr, true, Option, none, some, [], ◌∷◌, arith, leb,
  ◌==◌, leb→le, if◌then◌else◌, Bool-cases, Option-cases, length,
}
use mini_vpn.Base.Keys.{nat_eq, bytes_eq, pair_eq}
use mini_vpn.Base.Map.{
  Map, get, remove, contains_key, UniqueKeys, get-insert, get-remove, insert-UniqueKeys,
  remove-UniqueKeys, length-remove-le, length-insert-le, length-remove-lt,
}

unfoldable pub tuple_at : AssocTable → ℕ → Option FourTuple
unfolding get
tuple_at a id = Option.map (λ e. e.tuple) (get id a.id_to_entry)

-- A flow has an id exactly when the id's entry is of that flow, and there are at most `cap` flows.
pub record IsConsistent (a : AssocTable) : Type 0 where
  pub to_entry : (t : FourTuple) (id : ℕ) → get t a.tuple_to_id ≡ some id → tuple_at a id ≡ some t
  pub to_id : (t : FourTuple) (id : ℕ) → tuple_at a id ≡ some t → get t a.tuple_to_id ≡ some id
  pub ids : (t : FourTuple) (id : ℕ) → tuple_at a id ≡ some t → IsId id
  pub next : IsId a.next_id
  pub capped : (1 ≤ a.cap) × (a.cap ≤ 65535)
  pub room : length a.id_to_entry ≤ a.cap
  pub unique : UniqueKeys a.id_to_entry

pub with_cap-IsConsistent : (cap : ℕ) → IsConsistent (with_cap cap)
unfolding with_cap tuple_at get
with_cap-IsConsistent n = record {
  to_entry = λ t id h. cc;
  to_id = λ t id h. cc;
  ids = λ t id h. cc;
  next = omega arith;
  capped = omega arith;
  room = omega arith;
  unique = tt;
}

-- Only the two maps, the cap and the next id matter.
pub record SameFlows (a b : AssocTable) : Type 0 where
  pub tuples : b.tuple_to_id ≡ a.tuple_to_id
  pub entries : b.id_to_entry ≡ a.id_to_entry
  pub next : b.next_id ≡ a.next_id
  pub cap : b.cap ≡ a.cap

-- The entry of an id goes, and its tuple.
module _ (a : AssocTable) (c : IsConsistent a) (id : ℕ) (t : FourTuple)
    (at : tuple_at a id ≡ some t) where
  abbrev without : AssocTable
  without = record a { id_to_entry = remove id a.id_to_entry; tuple_to_id = remove t a.tuple_to_id }

  pub tuple_at-without : (j : ℕ) → tuple_at without j ≡ (if id == j then none else tuple_at a j)
  unfolding tuple_at
  tuple_at-without j = ground (arith, get-remove id j a.id_to_entry)

  pub without-IsConsistent : IsConsistent without
  without-IsConsistent = record {
    to_entry = λ u j h. ground (
      arith,
      tuple_at-without j,
      get-remove t u a.tuple_to_id,
      c.to_entry u j,
      tuple_eq.beq_iff t u,
    );
    to_id = λ u j h. ground (
      arith,
      tuple_at-without j,
      get-remove t u a.tuple_to_id,
      c.to_id u j,
      c.to_id t id,
      tuple_eq.beq_iff t u,
    );
    ids = λ u j h. ground (arith, tuple_at-without j, c.ids u j);
    next = c.next;
    capped = c.capped;
    room = omega (arith, c.room, length-remove-le id a.id_to_entry);
    unique = remove-UniqueKeys id a.id_to_entry c.unique;
  }

entry-tuple :
    (a : AssocTable) (id : ℕ) {e : FlowEntry}
    → get id a.id_to_entry ≡ some e
    → tuple_at a id ≡ some e.tuple
unfolding tuple_at
entry-tuple a id e = rw e

pub remove_entry-IsConsistent :
    (id : ℕ) (a : AssocTable) → IsConsistent a → IsConsistent (remove_entry id a)
unfolding remove_entry
remove_entry-IsConsistent id a c = elim (Option-cases (get id a.id_to_entry)) [
  | inl e ↦ rw (e, remove_entry) c
  | inr (f, e) ↦ rw (e, remove_entry) (without-IsConsistent a c id f.tuple (entry-tuple a id e))
]

pub note_reclaimed-SameFlows : (a : AssocTable) (id : ℕ) → SameFlows a (note_reclaimed a id)
unfolding note_reclaimed
note_reclaimed-SameFlows a id = elim (Option-cases (get id a.id_to_fake_ip)) [
  | inl e ↦
      rw (e, note_reclaimed) (record { tuples = refl; entries = refl; next = refl; cap = refl })
  | inr (ip, e) ↦
      rw (e, note_reclaimed) (record { tuples = refl; entries = refl; next = refl; cap = refl })
]

pub SameFlows-IsConsistent : (a b : AssocTable) → SameFlows a b → IsConsistent a → IsConsistent b
unfolding tuple_at
SameFlows-IsConsistent a b s c = record {
  to_entry = λ t id h. rw s.entries (c.to_entry t id (rw s.tuples at h));
  to_id = λ t id h. rw s.tuples (c.to_id t id (rw s.entries at h));
  ids = λ t id h. c.ids t id (rw s.entries at h);
  next = rw s.next c.next;
  capped = rw s.cap c.capped;
  room = rw (s.cap, s.entries) c.room;
  unique = rw s.entries c.unique;
}

evict-IsConsistent :
    (a : AssocTable) (o : Option (ℕ × ℕ)) → IsConsistent a → IsConsistent (evict a o)
evict-IsConsistent a none c = c
evict-IsConsistent a (some (t, id)) c =
    SameFlows-IsConsistent (remove_entry id a) _ (note_reclaimed-SameFlows (remove_entry id a) id)
      (remove_entry-IsConsistent id a c)

pub evict_lru-IsConsistent : (a : AssocTable) → IsConsistent a → IsConsistent (evict_lru a)
unfolding evict_lru
evict_lru-IsConsistent a c = evict-IsConsistent a (least_recent a.id_to_entry) c

least_recent-held :
    (es : Map ℕ FlowEntry) (t id : ℕ) → least_recent es ≡ some (t, id) → contains_key id es ≡ true
unfolding least_recent contains_key get
least_recent-held [] t id e = cc
least_recent-held ((j, f) ∷ es) t id e = elim (Option-cases (least_recent es)) [
  | inl empty ↦ ground (arith, empty, e)
  | inr ((t', i'), o) ↦ ground (arith, o, e, least_recent-held es t id)
]

least_recent-cons :
    (j : ℕ) (f : FlowEntry) (es : Map ℕ FlowEntry) → least_recent ((j, f) ∷ es) ≢ none
unfolding least_recent
least_recent-cons j f es = elim (Option-cases (least_recent es)) [
  | inl e ↦ ground (arith, e)
  | inr (o, e) ↦ ground (arith, e)
]

remove_entry-entries :
    (id : ℕ) (a : AssocTable)
    → contains_key id a.id_to_entry ≡ true
    → (remove_entry id a).id_to_entry ≡ remove id a.id_to_entry
unfolding remove_entry contains_key
remove_entry-entries id a h = ground arith

-- An eviction makes room.
evict_lru-lt :
    (a : AssocTable) (es : Map ℕ FlowEntry)
    → a.id_to_entry ≡ es
    → 1 ≤ length es
    → length (evict_lru a).id_to_entry < length es
unfolding evict_lru
evict_lru-lt a [] same h = absurd (omega arith)
evict_lru-lt a ((j, f) ∷ es) same h = elim (Option-cases (least_recent ((j, f) ∷ es))) [
  | inl e ↦ absurd (least_recent-cons j f es e)
  | inr ((t, id), e) ↦
      let held = least_recent-held ((j, f) ∷ es) t id e in
      let shorter = length-remove-lt id ((j, f) ∷ es) held in
      let chosen : least_recent a.id_to_entry ≡ some (t, id) = rw same e in
      let gone : (evict_lru a).id_to_entry ≡ remove id ((j, f) ∷ es) =
        ap (λ (o : Option (ℕ × ℕ)). (evict a o).id_to_entry) chosen
        ∙ (note_reclaimed-SameFlows (remove_entry id a) id).entries
        ∙ remove_entry-entries id a (rw same held)
        ∙ ap (remove id) same in
      omega (arith, shorter, ap length gone)
]

remove_entry-cap : (id : ℕ) (a : AssocTable) → (remove_entry id a).cap ≡ a.cap
unfolding remove_entry
remove_entry-cap id a = ground arith

evict-cap : (a : AssocTable) (o : Option (ℕ × ℕ)) → (evict a o).cap ≡ a.cap
evict-cap a none = refl
evict-cap a (some (t, id)) =
    (note_reclaimed-SameFlows (remove_entry id a) id).cap ∙ remove_entry-cap id a

evict_lru-cap : (a : AssocTable) → (evict_lru a).cap ≡ a.cap
unfolding evict_lru
evict_lru-cap a = evict-cap a (least_recent a.id_to_entry)

-- The table that an id is looked for in.
unfoldable pub roomy : AssocTable → AssocTable
unfolding evict_lru
roomy a = if leb a.cap (length a.id_to_entry) then evict_lru a else a

pub roomy-IsConsistent : (a : AssocTable) → IsConsistent a → IsConsistent (roomy a)
unfolding roomy
roomy-IsConsistent a c = elim (Bool-cases (leb a.cap (length a.id_to_entry))) [
  | inl t ↦ rw (t, roomy) (evict_lru-IsConsistent a c)
  | inr f ↦ rw (f, roomy) c
]

pub roomy-lt : (a : AssocTable) → IsConsistent a → length (roomy a).id_to_entry < (roomy a).cap
unfolding roomy
roomy-lt a c = elim (Bool-cases (leb a.cap (length a.id_to_entry))) [
  | inl t ↦
      rw (t, roomy)
        (omega (
          arith,
          c.capped,
          c.room,
          leb→le _ _ t,
          evict_lru-cap a,
          evict_lru-lt a a.id_to_entry refl (omega (arith, c.capped, leb→le _ _ t)),
        ))
  | inr f ↦ rw (f, roomy) (ground (arith, f))
]

-- The new flow under a free id.
pub enter-IsConsistent :
    (t : FourTuple) (id : ℕ) (a : AssocTable)
    → IsConsistent a
    → get t a.tuple_to_id ≡ none
    → get id a.id_to_entry ≡ none
    → IsId id
    → length a.id_to_entry < a.cap
    → IsConsistent (enter t (some id, a)).1
unfolding tuple_at
enter-IsConsistent t id a c new free is_id lt =
    let e : FlowEntry = record { tuple = t; last_activity = 0 } in
    record {
      to_entry = λ u j h. ground (
        arith,
        get-insert t u id a.tuple_to_id,
        get-insert id j e a.id_to_entry,
        c.to_entry u j,
        tuple_eq.beq_iff t u,
        free,
      );
      to_id = λ u j h. ground (
        arith,
        get-insert t u id a.tuple_to_id,
        get-insert id j e a.id_to_entry,
        c.to_id u j,
        tuple_eq.beq_iff t u,
        new,
      );
      ids = λ u j h. ground (arith, get-insert id j e a.id_to_entry, c.ids u j, is_id);
      next = c.next;
      capped = c.capped;
      room = omega (arith, length-insert-le id e a.id_to_entry, lt);
      unique = insert-UniqueKeys id e a.id_to_entry c.unique;
    }
