-- ===== src/Tuic/Assoc.antt =====
-- src/tuic.rs: `AssocTable`, which gives each UDP flow a u16 association id.
pub mod Ids
pub mod Consistent
pub mod Intern
pub mod Sweep
pub mod Touch
use mini_vpn.Flow.{FourTuple, FlowEntry, max_udp_flows, tuple_eq}
use mini_vpn.Base.{
  ℕ, zero, suc, ◌+◌, ◌-◌, ◌*◌, ◌/◌, ◌%◌, ◌^◌, ◌≤◌, ◌<◌, min, max, ◌≡◌, refl, sym, ap, ◌∙◌, ◌≢◌, ◌↔◌,
  ◌⊎◌, inl, inr, Bool, true, false, not, ◌&&◌, ◌||◌, Option, none, some, List, [], ◌∷◌, ◌++◌, map,
  arith, ltb, leb, ◌==◌, ==_iff, ltb→lt, leb→le, if◌then◌else◌, Bool-cases, Option-cases, ◌>>=◌,
  is_some, some_inj, length, get_elem?, set, take, drop, replicate, length-append, length-take,
  length-drop, take-append-drop, length-set, length-replicate, take-append, drop-append, drop-add,
  get_elem?-append, All, Distinct, any, keep,
}
use mini_vpn.Base.Bytes.{
  IsByte, IsU16, IsU32, u16_be, u32_be, be_bytes, length-be_bytes, from_be16, from_be16-u16_be,
}
use mini_vpn.Base.Keys.{Eq, ◌=?◌, nat_eq, bytes_eq, pair_eq}
use mini_vpn.Base.Map.{
  Map, get, insert, remove, contains_key, retain, update, UniqueKeys, get-insert, get-remove,
  =?_refl, =?_eq, =?_ne, get-update, insert-UniqueKeys, remove-UniqueKeys, update-UniqueKeys,
  Distinct-le, length-remove-le, length-remove-lt,
}

pub record AssocTable : Type 0 where
  pub tuple_to_id : Map FourTuple ℕ
  pub id_to_entry : Map ℕ FlowEntry
  pub id_to_fake_ip : Map ℕ ℕ
  pub reclaimed_fake_ips : List ℕ
  pub next_id : ℕ
  pub cap : ℕ

unfoldable pub with_cap : ℕ → AssocTable
with_cap cap = record {
  tuple_to_id = [];
  id_to_entry = [];
  id_to_fake_ip = [];
  reclaimed_fake_ips = [];
  next_id = 1;
  cap = min (max cap 1) 65535;
}

unfoldable pub new : AssocTable
unfolding with_cap
new = with_cap max_udp_flows

unfoldable pub set_fake_ip : AssocTable → ℕ → ℕ → AssocTable
unfolding insert
set_fake_ip a id ip = record a { id_to_fake_ip = insert id ip a.id_to_fake_ip }

unfoldable pub take_reclaimed_fake_ips : AssocTable → List ℕ × AssocTable
take_reclaimed_fake_ips a = (a.reclaimed_fake_ips, record a { reclaimed_fake_ips = [] })

-- `push` puts the address behind the others.
unfoldable pub note_reclaimed : AssocTable → ℕ → AssocTable
unfolding get remove
note_reclaimed a id = elim (get id a.id_to_fake_ip) [
  | none ↦ a
  | some ip ↦ record a {
    id_to_fake_ip = remove id a.id_to_fake_ip;
    reclaimed_fake_ips = a.reclaimed_fake_ips ++ (ip ∷ []);
  }
]

-- `min_by_key(|(id, e)| (e.last_activity, **id))`
abbrev pub is_older : ℕ × ℕ → ℕ × ℕ → Bool
is_older (t, i) (t', i') = ltb t t' || (t == t' && ltb i i')

unfoldable pub least_recent : Map ℕ FlowEntry → Option (ℕ × ℕ)
least_recent [] = none
least_recent ((id, e) ∷ es) = elim (least_recent es) [
  | none ↦ some (e.last_activity, id)
  | some o ↦ if is_older o (e.last_activity, id) then some o else some (e.last_activity, id)
]

-- The entry goes with its tuple; what becomes of its fake IP differs between the callers.
unfoldable pub remove_entry : ℕ → AssocTable → AssocTable
unfolding get remove
remove_entry id a = elim (get id a.id_to_entry) [
  | none ↦ a
  | some e ↦ record a {
    id_to_entry = remove id a.id_to_entry;
    tuple_to_id = remove e.tuple a.tuple_to_id;
  }
]

abbrev pub evict : AssocTable → Option (ℕ × ℕ) → AssocTable
evict a none = a
evict a (some (t, id)) = note_reclaimed (remove_entry id a) id

unfoldable pub evict_lru : AssocTable → AssocTable
unfolding least_recent remove_entry note_reclaimed
evict_lru a = evict a (least_recent a.id_to_entry)

-- `wrapping_add(1)` on the u16, past 0.
unfoldable pub advance : ℕ → ℕ
advance id = if (id + 1) % 2 ^ 16 == 0 then 1 else (id + 1) % 2 ^ 16

-- The unbounded loop of `alloc_id`, in at most `n` rounds: the id found, and the next to try.
unfoldable pub find_id : ℕ → Map ℕ FlowEntry → ℕ → Option ℕ × ℕ
unfolding advance contains_key
find_id zero es id = (none, id)
find_id (suc n) es id =
    let rest = find_id n es (advance id) in
    if contains_key id es then rest else (some id, advance id)

-- As many rounds as there are ids but 0.
unfoldable pub alloc_id : AssocTable → Option ℕ × AssocTable
unfolding find_id
alloc_id a =
    let (id, next) = find_id 65535 a.id_to_entry a.next_id in (id, record a { next_id = next })

abbrev pub enter : FourTuple → Option ℕ × AssocTable → Option ℕ × AssocTable
enter tuple (none, a) = (none, a)
enter tuple (some id, a) = (
  some id,
  record a {
    id_to_entry = insert id (record { tuple = tuple; last_activity = 0 }) a.id_to_entry;
    tuple_to_id = insert tuple id a.tuple_to_id;
  },
)

-- `none` stands for a search for an id that does not end.
unfoldable pub intern : AssocTable → FourTuple → Option ℕ × AssocTable
unfolding get insert evict_lru alloc_id
intern a tuple = elim (get tuple a.tuple_to_id) [
  | some id ↦ (some id, a)
  | none ↦ enter tuple (alloc_id (if leb a.cap (length a.id_to_entry) then evict_lru a else a))
]

unfoldable pub resolve : AssocTable → ℕ → Option FlowEntry
unfolding get
resolve a id = get id a.id_to_entry

unfoldable pub contains : AssocTable → FourTuple → Bool
unfolding contains_key
contains a tuple = contains_key tuple a.tuple_to_id

unfoldable pub touch : AssocTable → ℕ → ℕ → AssocTable
unfolding update
touch a id now = record a {
  id_to_entry = update id (λ e. record e { last_activity = now }) a.id_to_entry;
}

unfoldable pub expired : ℕ → ℕ → Map ℕ FlowEntry → List (ℕ × FourTuple)
expired now idle [] = []
expired now idle ((id, e) ∷ es) =
    let rest = expired now idle es in
    if ltb idle (now - e.last_activity) then (id, e.tuple) ∷ rest else rest

abbrev pub reclaimed_of : Option ℕ → List ℕ → List ℕ
reclaimed_of none ips = ips
reclaimed_of (some ip) ips = ip ∷ ips

-- The loop over the expired flows: their fake IPs, in order, and the table without them.
unfoldable pub sweep_all : List (ℕ × FourTuple) → AssocTable → List ℕ × AssocTable
unfolding get remove
sweep_all [] a = ([], a)
sweep_all ((id, tuple) ∷ es) a =
    let (ips, b) = sweep_all es (record a {
      id_to_entry = remove id a.id_to_entry;
      tuple_to_id = remove tuple a.tuple_to_id;
      id_to_fake_ip = remove id a.id_to_fake_ip;
    }) in
    (reclaimed_of (get id a.id_to_fake_ip) ips, b)

unfoldable pub sweep : AssocTable → ℕ → ℕ → List ℕ × AssocTable
unfolding expired sweep_all
sweep a now idle = sweep_all (expired now idle a.id_to_entry) a
