-- ===== src/Tuic/Frag/Bounds.antt =====
-- src/tuic.rs: what the reassembler holds: never more than its cap, and only incomplete packets.
use mathlib.Core.Path.{subst}
use mini_vpn.Tuic.Codec.{PacketMeta}
use mini_vpn.Tuic.Frag.{
  Key, FragPartial, FragReassembler, with_cap, is_before, oldest, evict_if_full, fresh_partial,
  find_partial, fill, deliver, accept_fragment, accept, sweep,
}
use mini_vpn.Base.{
  ℕ, zero, suc, ◌+◌, ◌-◌, ◌≤◌, ◌<◌, ◌≡◌, refl, ap, ◌∙◌, ◌≢◌, ◌⊎◌, inl, inr, Bool, true, Option,
  none, some, List, [], ◌∷◌, arith, ltb, leb, ◌==◌, ltb→lt, if◌then◌else◌, Bool-cases, Option-cases,
  is_some, some_inj, length, get_elem?, set, replicate, All,
}
use mini_vpn.Base.Keys.{◌=?◌, nat_eq, bytes_eq, pair_eq}
use mini_vpn.Base.Map.{
  Map, get, insert, remove, contains_key, retain, =?_refl, length-remove-le, length-insert-le,
  length-remove-lt,
}

-- The fragments that have come.
abbrev pub present : List (Option (List ℕ)) → ℕ
present [] = 0
present (none ∷ fs) = present fs
present (some bytes ∷ fs) = suc (present fs)

pub record IsPartial (p : FragPartial) : Type 0 where
  pub counted : p.received ≡ present p.frags
  pub missing : p.received < length p.frags

abbrev pub Partials : Map Key FragPartial → Type 0
Partials = All (λ e. IsPartial e.1)

pub record IsWellFormed (r : FragReassembler) : Type 0 where
  pub room : length r.partials ≤ r.cap
  pub nonzero : 1 ≤ r.cap
  pub incomplete : Partials r.partials

remove-Partials : (k : Key) (ps : Map Key FragPartial) → Partials ps → Partials (remove k ps)
unfolding remove
remove-Partials k [] h = tt
remove-Partials k ((j, p) ∷ ps) h = ground (arith, remove-Partials k ps h.1)

insert-Partials :
    (k : Key) (p : FragPartial) (ps : Map Key FragPartial)
    → IsPartial p
    → Partials ps
    → Partials (insert k p ps)
unfolding insert
insert-Partials k p [] i h = (i, tt)
insert-Partials k p ((j, q) ∷ ps) i h = elim (Bool-cases (j =? k)) [
  | inl t ↦ rw (t, insert) (i, h.1)
  | inr f ↦ rw (f, insert) (h.0, insert-Partials k p ps i h.1)
]

get-Partials :
    (k : Key) (ps : Map Key FragPartial) {p : FragPartial}
    → Partials ps
    → get k ps ≡ some p
    → IsPartial p
unfolding get
get-Partials k [] h e = cc
get-Partials k ((j, q) ∷ ps) h e = elim (Bool-cases (j =? k)) [
  | inl t ↦ subst IsPartial {x = q} (some_inj (rw (t, get) at e)) h.0
  | inr f ↦ get-Partials k ps h.1 (rw (f, get) at e)
]

-- The oldest entry is one of the table.
oldest-held :
    (ps : Map Key FragPartial) (s : ℕ) (k : Key)
    → oldest ps ≡ some (s, k)
    → contains_key k ps ≡ true
unfolding oldest contains_key get
oldest-held [] s k e = cc
oldest-held ((j, p) ∷ ps) s k e = elim (Option-cases (oldest ps)) [
  | inl none_yet ↦ ground (arith, none_yet, e, =?_refl k)
  | inr ((s', k'), o) ↦ elim (Bool-cases (is_before (s', k') (p.first_seen, j))) [
    | inl t ↦
        let same : ◌≡◌ {A = ℕ × Key} (s', k') (s, k) = some_inj (rw (o, oldest, t) at e) in
        ground (arith, oldest-held ps s k (o ∙ ap some same))
    | inr f ↦
        let same : ◌≡◌ {A = ℕ × Key} (p.first_seen, j) (s, k) = some_inj (rw (o, oldest, f) at e) in
        ground (arith, same, =?_refl k)
  ]
]

remove_key-Partials :
    (cap : ℕ) (ps : Map Key FragPartial) → Partials ps → Partials (evict_if_full cap ps)
unfolding evict_if_full
remove_key-Partials cap ps h = elim (Option-cases (oldest ps)) [
  | inl e ↦ ground (arith, e, h)
  | inr ((s, k), e) ↦ ground (arith, e, h, remove-Partials k ps h)
]

oldest-cons : (k : Key) (p : FragPartial) (ps : Map Key FragPartial) → oldest ((k, p) ∷ ps) ≢ none
unfolding oldest
oldest-cons k p ps = elim (Option-cases (oldest ps)) [
  | inl e ↦ ground (arith, e)
  | inr (o, e) ↦ ground (arith, e)
]

-- After the eviction there is room for one more.
evict_if_full-lt :
    (cap : ℕ) (ps : Map Key FragPartial)
    → 1 ≤ cap
    → length ps ≤ cap
    → length (evict_if_full cap ps) < cap
unfolding evict_if_full
evict_if_full-lt cap [] one h = ground arith
evict_if_full-lt cap (e ∷ ps) one h = elim (Option-cases (oldest (e ∷ ps))) [
  | inl o ↦ absurd (oldest-cons e.0 e.1 ps o)
  | inr ((s, k), o) ↦ ground (arith, o, length-remove-lt k (e ∷ ps) (oldest-held (e ∷ ps) s k o))
]

pub present-replicate : (n : ℕ) → present (replicate n none) ≡ 0
present-replicate zero = refl
present-replicate (suc n) = present-replicate n

pub present-set :
    (fs : List (Option (List ℕ))) (i : ℕ) (bytes : List ℕ) {o : Option (List ℕ)}
    → get_elem? fs i ≡ some o
    → present (set fs i (some bytes)) ≡ (if is_some o then present fs else present fs + 1)
present-set [] i bytes e = cc
present-set (none ∷ fs) zero bytes {o} e = rw (← some_inj e) (omega arith)
present-set (some b ∷ fs) zero bytes {o} e = rw (← some_inj e) (omega arith)
present-set (none ∷ fs) (suc i) bytes {o} e = ground (arith, present-set fs i bytes {o = o} e)
present-set (some b ∷ fs) (suc i) bytes {o} e = ground (arith, present-set fs i bytes {o = o} e)

-- A partial packet whose fragments are counted, and may be complete.
abbrev Counted : FragPartial → Type 0
Counted p = (p.received ≡ present p.frags) × (p.received ≤ length p.frags)

present-le : (fs : List (Option (List ℕ))) → present fs ≤ length fs
present-le [] = omega arith
present-le (none ∷ fs) = omega (arith, present-le fs)
present-le (some b ∷ fs) = omega (arith, present-le fs)

fill-Counted : (i : ℕ) (bytes : List ℕ) (p : FragPartial) → Counted p → Counted (fill i bytes p)
unfolding fill
fill-Counted i bytes p c = elim (Option-cases (get_elem? p.frags i)) [
  | inl e ↦ rw (e, fill) c
  | inr (none, e) ↦
      rw (e, fill)
        (
          omega (arith, present-set p.frags i bytes e, present-le (set p.frags i (some bytes))),
          omega (arith, present-set p.frags i bytes e, present-le (set p.frags i (some bytes))),
        )
  | inr (some old, e) ↦
      rw (e, fill)
        (
          omega (arith, present-set p.frags i bytes e, present-le (set p.frags i (some bytes))),
          omega (arith, present-set p.frags i bytes e, present-le (set p.frags i (some bytes))),
        )
]

fresh-Counted : (total now : ℕ) → Counted (fresh_partial total now)
fresh-Counted total now = omega (arith, present-replicate total)

find_partial-Counted :
    (cap : ℕ) (key : Key) (total now : ℕ) (ps : Map Key FragPartial)
    → 1 ≤ cap
    → length ps ≤ cap
    → Partials ps
    → Counted (find_partial cap key total now ps).0
      × Partials (find_partial cap key total now ps).1
      × ((length (find_partial cap key total now ps).1 < cap)
          ⊎ ((contains_key key (find_partial cap key total now ps).1 ≡ true)
              × (length (find_partial cap key total now ps).1 ≤ cap)))
unfolding find_partial contains_key
find_partial-Counted cap key total now ps one room h = elim (Option-cases (get key ps)) [
  | inl e ↦
      rw (e, find_partial)
        (
          fresh-Counted total now,
          remove_key-Partials cap ps h,
          inl (evict_if_full-lt cap ps one room),
        )
  | inr (p, e) ↦ elim (Bool-cases (length p.frags == total)) [
    | inl t ↦
        let i = get-Partials key ps h e in
        rw (e, find_partial, t) ((i.counted, omega (arith, i.missing)), h, inr (rw e refl, room))
    | inr f ↦
        rw (e, find_partial, f)
          (
            fresh-Counted total now,
            remove_key-Partials cap (remove key ps) (remove-Partials key ps h),
            inl (evict_if_full-lt cap (remove key ps) one (omega (arith, length-remove-le key ps))),
          )
  ]
]

length-insert_held :
    (k : Key) (p : FragPartial) (ps : Map Key FragPartial)
    → contains_key k ps ≡ true
    → length (insert k p ps) ≡ length ps
unfolding contains_key insert get
length-insert_held k p [] h = cc
length-insert_held k p ((j, q) ∷ ps) h = ground (arith, length-insert_held k p ps)

deliver-bound :
    (cap : ℕ) (key : Key) (p : FragPartial) (ps : Map Key FragPartial)
    → (length ps < cap) ⊎ ((contains_key key ps ≡ true) × (length ps ≤ cap))
    → length (deliver key p ps).1 ≤ cap
unfolding deliver
deliver-bound cap key p ps (inl lt) =
    ground (arith, length-insert-le key p ps, length-remove-le key ps)
deliver-bound cap key p ps (inr (held, le)) =
    ground (arith, length-insert_held key p ps, length-remove-le key ps)

deliver-Partials :
    (key : Key) (p : FragPartial) (ps : Map Key FragPartial)
    → Counted p
    → Partials ps
    → Partials (deliver key p ps).1
unfolding deliver
deliver-Partials key p ps c h = elim (Bool-cases (ltb p.received (length p.frags))) [
  | inl t ↦
      rw (t, deliver)
        (insert-Partials key p ps (record { counted = c.0; missing = ltb→lt _ _ t }) h)
  | inr f ↦ rw (f, deliver) (remove-Partials key ps h)
]

accept_fragment-IsWellFormed :
    (r : FragReassembler) (m : PacketMeta) (now : ℕ)
    → IsWellFormed r
    → IsWellFormed (accept_fragment r m now).1
unfolding accept_fragment
accept_fragment-IsWellFormed r m now w =
    let key : Key = (m.assoc_id, m.pkt_id) in
    let (counted, partials, room) =
      find_partial-Counted r.cap key m.frag_total now r.partials w.nonzero w.room w.incomplete in
    let found = find_partial r.cap key m.frag_total now r.partials in
    record {
      room = deliver-bound r.cap key (fill m.frag_id m.payload found.0) found.1 room;
      nonzero = w.nonzero;
      incomplete =
          deliver-Partials key (fill m.frag_id m.payload found.0) found.1
            (fill-Counted m.frag_id m.payload found.0 counted) partials;
    }

-- Whatever packet comes, the reassembler never holds more partial packets than its cap, and holds
-- only packets that still miss a fragment, with their fragments counted right.
pub accept-IsWellFormed :
    (r : FragReassembler) (m : PacketMeta) (now : ℕ)
    → IsWellFormed r
    → IsWellFormed (accept r m now).1
unfolding accept
accept-IsWellFormed r m now w = ground (arith, accept_fragment-IsWellFormed r m now w)

retain-Partials :
    (f : Key → FragPartial → Bool) (ps : Map Key FragPartial) → Partials ps → Partials (retain f ps)
unfolding retain
retain-Partials f [] h = tt
retain-Partials f ((k, p) ∷ ps) h = ground (arith, retain-Partials f ps h.1)

length-retain :
    (f : Key → FragPartial → Bool) (ps : Map Key FragPartial) → length (retain f ps) ≤ length ps
unfolding retain
length-retain f [] = omega arith
length-retain f ((k, p) ∷ ps) = ground (arith, length-retain f ps)

pub sweep-IsWellFormed :
    (r : FragReassembler) (now ttl : ℕ) → IsWellFormed r → IsWellFormed (sweep r now ttl)
unfolding sweep
sweep-IsWellFormed r now ttl w = record {
  room = omega (arith, length-retain (λ k p. leb (now - p.first_seen) ttl) r.partials, w.room);
  nonzero = w.nonzero;
  incomplete = retain-Partials _ r.partials w.incomplete;
}

pub with_cap-IsWellFormed : (cap : ℕ) → IsWellFormed (with_cap cap)
unfolding with_cap
with_cap-IsWellFormed c = record { room = omega arith; nonzero = omega arith; incomplete = tt }
