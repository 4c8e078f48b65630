-- ===== src/Tuic/Frag.antt =====
-- src/tuic.rs: `FragReassembler`, which puts fragmented downlink packets together.
pub mod Bounds
pub mod Reassembly
use mini_vpn.Tuic.Codec.{PacketMeta}
use mini_vpn.Base.{
  ℕ, zero, suc, ◌+◌, ◌-◌, ◌*◌, ◌/◌, ◌%◌, ◌^◌, ◌≤◌, ◌<◌, min, max, ◌≡◌, refl, sym, ap, ◌∙◌, ◌≢◌, ◌↔◌,
  ◌⊎◌, inl, inr, Bool, true, false, not, ◌&&◌, ◌||◌, Option, none, some, List, [], ◌∷◌, ◌++◌, map,
  arith, ltb, leb, ◌==◌, ==_iff, ltb→lt, leb→le, if◌then◌else◌, Bool-cases, Option-cases, ◌>>=◌,
  is_some, length, get_elem?, set, take, drop, replicate, length-append, length-take, length-drop,
  take-append-drop, length-set, length-replicate, take-append, drop-append, drop-add,
  get_elem?-append, All, Distinct, any, keep,
}
use mini_vpn.Base.Bytes.{
  IsByte, IsU16, IsU32, u16_be, u32_be, be_bytes, length-be_bytes, from_be16, from_be16-u16_be,
}
use mini_vpn.Base.Keys.{Eq, ◌=?◌, nat_eq, bytes_eq, pair_eq}
use mini_vpn.Base.Map.{
  Map, get, insert, remove, contains_key, retain, update, UniqueKeys, get-insert, get-remove,
  =?_refl, =?_eq, =?_ne, get-update, insert-UniqueKeys, remove-UniqueKeys, update-UniqueKeys,
  Distinct-le, length-remove-le, length-remove-lt,
}

abbrev pub frag_reassembly_cap : ℕ
frag_reassembly_cap = 256

abbrev pub frag_reassembly_ttl_secs : ℕ
frag_reassembly_ttl_secs = 10

-- The key is (assoc_id, pkt_id).
abbrev pub Key : Type 0
Key = ℕ × ℕ

pub record FragPartial : Type 0 where
  pub frags : List (Option (List ℕ))
  pub received : ℕ
  pub first_seen : ℕ

pub record FragReassembler : Type 0 where
  pub partials : Map Key FragPartial
  pub cap : ℕ

unfoldable pub with_cap : ℕ → FragReassembler
with_cap cap = record { partials = []; cap = max cap 1 }

unfoldable pub new : FragReassembler
unfolding with_cap
new = with_cap frag_reassembly_cap

-- The lexicographic order of `min_by_key(|(k, p)| (p.first_seen, **k))`.
abbrev pub is_before : ℕ × Key → ℕ × Key → Bool
is_before (s, (a, p)) (s', (a', p')) = ltb s s' || (s == s' && (ltb a a' || (a == a' && ltb p p')))

unfoldable pub oldest : Map Key FragPartial → Option (ℕ × Key)
oldest [] = none
oldest ((k, p) ∷ ps) = elim (oldest ps) [
  | none ↦ some (p.first_seen, k)
  | some o ↦ if is_before o (p.first_seen, k) then some o else some (p.first_seen, k)
]

abbrev remove_key : Option (ℕ × Key) → Map Key FragPartial → Map Key FragPartial
remove_key none ps = ps
remove_key (some (seen, k)) ps = remove k ps

unfoldable pub evict_if_full : ℕ → Map Key FragPartial → Map Key FragPartial
unfolding oldest remove
evict_if_full cap ps = if ltb (length ps) cap then ps else remove_key (oldest ps) ps

abbrev pub fresh_partial : ℕ → ℕ → FragPartial
fresh_partial total now = record { frags = replicate total none; received = 0; first_seen = now }

-- The partial packet that the fragment belongs to, and the table that it is to be written to: one
-- of another fragment count is dropped, and a new one may drive out the oldest.
unfoldable pub find_partial :
    ℕ → Key → ℕ → ℕ → Map Key FragPartial → FragPartial × Map Key FragPartial
unfolding get remove evict_if_full
find_partial cap key total now ps = elim (get key ps) [
  | none ↦ (fresh_partial total now, evict_if_full cap ps)
  | some p ↦
      if length p.frags == total
      then (p, ps)
      else (fresh_partial total now, evict_if_full cap (remove key ps))
]

-- The slot takes the newer data, and counts once.
unfoldable pub fill : ℕ → List ℕ → FragPartial → FragPartial
fill i bytes p = elim (get_elem? p.frags i) [
  | none ↦ p
  | some none ↦ record p { frags = set p.frags i (some bytes); received = p.received + 1 }
  | some (some old) ↦ record p { frags = set p.frags i (some bytes) }
]

-- The fragments present, joined in order.
unfoldable pub join : List (Option (List ℕ)) → List ℕ
join [] = []
join (none ∷ fs) = join fs
join (some bytes ∷ fs) = bytes ++ join fs

-- What follows the write: the packet leaves the table once all its fragments are there.
unfoldable pub deliver :
    Key → FragPartial → Map Key FragPartial → Option (List ℕ) × Map Key FragPartial
unfolding insert remove join
deliver key p ps =
    if ltb p.received (length p.frags)
    then (none, insert key p ps)
    else (some (join p.frags), remove key ps)

unfoldable pub accept_fragment :
    FragReassembler → PacketMeta → ℕ → Option (List ℕ) × FragReassembler
unfolding find_partial fill deliver
accept_fragment r m now =
    let key : Key = (m.assoc_id, m.pkt_id) in
    let (p, ps) = find_partial r.cap key m.frag_total now r.partials in
    let (whole, ps') = deliver key (fill m.frag_id m.payload p) ps in
    (whole, record r { partials = ps' })

unfoldable pub accept : FragReassembler → PacketMeta → ℕ → Option (List ℕ) × FragReassembler
unfolding accept_fragment
accept r m now =
    if m.frag_total == 0 || leb m.frag_total m.frag_id
    then (none, r)
    else if m.frag_total == 1
    then (some m.payload, r)
    else accept_fragment r m now

unfoldable pub sweep : FragReassembler → ℕ → ℕ → FragReassembler
unfolding retain
sweep r now ttl = record r { partials = retain (λ k p. leb (now - p.first_seen) ttl) r.partials }
