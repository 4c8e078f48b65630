-- ===== src/FakeIp.antt =====
-- src/fake_ip.rs: the fake-IP pool, which hands out placeholder addresses for domain names.
-- A domain is its list of UTF-8 bytes, an `Ipv4Addr` the u32 that `u32::from` gives for it.
pub mod Consistent
pub mod Alloc
pub mod Room
pub mod Counts
pub mod Reclaim
pub mod History
mod Tests
use mathlib.Core.Option
use mini_vpn.Base.{
  ℕ, zero, suc, ◌+◌, ◌-◌, ◌*◌, ◌/◌, ◌%◌, ◌^◌, ◌≤◌, ◌<◌, min, max, ◌≡◌, refl, sym, ap, ◌∙◌, ◌≢◌, ◌↔◌,
  ◌⊎◌, inl, inr, Bool, true, false, not, ◌&&◌, ◌||◌, Option, none, some, List, [], ◌∷◌, ◌++◌, map,
  arith, ltb, leb, ◌==◌, ==_iff, ltb→lt, leb→le, if◌then◌else◌, Bool-cases, Option-cases, ◌>>=◌,
  is_some, length, get_elem?, set, take, drop, replicate, length-append, length-take, length-drop,
  take-append-drop, length-set, length-replicate, take-append, drop-append, All, any, keep,
}
use mini_vpn.Base.Bytes.{IsByte, IsU16, IsU32, u16_be, u32_be, from_be16, from_be16-u16_be}
use mini_vpn.Base.Keys.{Eq, ◌=?◌, nat_eq, bytes_eq, pair_eq}
use mini_vpn.Base.Map.{
  Map, get, insert, remove, contains_key, retain, update, get-insert, get-remove, =?_refl, =?_eq,
  =?_ne,
}

pub record Mapping : Type 0 where
  pub domain : List ℕ
  pub refcount : ℕ
  pub last_used : ℕ

pub record FakeIpPool : Type 0 where
  pub range_start : ℕ
  pub range_end : ℕ
  pub next : ℕ
  pub domain_to_ip : Map (List ℕ) ℕ
  pub ip_to_mapping : Map ℕ Mapping

-- `Ipv4Addr::new(a, b, c, d)` as a number.
abbrev pub ipv4 : ℕ → ℕ → ℕ → ℕ → ℕ
ipv4 a b c d = a * 2 ^ 24 + b * 2 ^ 16 + c * 2 ^ 8 + d

unfoldable pub new : FakeIpPool
new = record {
  range_start = ipv4 198 18 0 0;
  range_end = ipv4 198 19 255 255;
  next = ipv4 198 18 0 0 + 2;
  domain_to_ip = [];
  ip_to_mapping = [];
}

-- The cursor goes round the range, past the network address and the resolver's. It stays below
-- 2 ^ 32 - 1 before the increment, so the u32 does not wrap.
unfoldable pub advance_next : FakeIpPool → FakeIpPool
advance_next p =
    if ltb p.range_end (p.next + 1)
    then record p { next = p.range_start + 2 }
    else record p { next = p.next + 1 }

-- The loop `for _ in 0..span`: the first address that no mapping holds, if it is met in `n` rounds.
unfoldable pub probe : ℕ → FakeIpPool → Option ℕ × FakeIpPool
unfolding advance_next contains_key
probe zero p = (none, p)
probe (suc n) p =
    let rest = probe n (advance_next p) in
    if contains_key p.next p.ip_to_mapping then rest else (some p.next, advance_next p)

-- `if let Some(victim) = self.ip_to_mapping.remove(&ip) { self.domain_to_ip.remove(&victim.domain) }`
unfoldable pub remove_mapping : ℕ → FakeIpPool → FakeIpPool
unfolding get remove
remove_mapping ip p = elim (get ip p.ip_to_mapping) [
  | none ↦ p
  | some m ↦ record p {
    domain_to_ip = remove m.domain p.domain_to_ip;
    ip_to_mapping = remove ip p.ip_to_mapping;
  }
]

-- What follows the probing loop: its find, or the address under the cursor, whose mapping goes.
unfoldable pub claim : Option ℕ × FakeIpPool → ℕ × FakeIpPool
unfolding advance_next remove_mapping
claim (some ip, p) = (ip, p)
claim (none, p) = (p.next, remove_mapping p.next (advance_next p))

unfoldable pub span : FakeIpPool → ℕ
span p = p.range_end - (p.range_start + 2) + 1

unfoldable pub next_free_ip : FakeIpPool → ℕ × FakeIpPool
unfolding probe claim span
next_free_ip p = claim (probe (span p) p)

-- The two insertions of a new mapping.
unfoldable pub register : List ℕ → ℕ → ℕ × FakeIpPool → ℕ × FakeIpPool
unfolding insert
register domain now (ip, p) = (
  ip,
  record p {
    domain_to_ip = insert domain ip p.domain_to_ip;
    ip_to_mapping =
        insert ip (record { domain = domain; refcount = 0; last_used = now }) p.ip_to_mapping;
  },
)

abbrev pub touch_at : ℕ → Mapping → Mapping
touch_at now m = record m { last_used = now }

unfoldable pub touch_mapping : ℕ → ℕ → FakeIpPool → FakeIpPool
unfolding update
touch_mapping ip now p = record p { ip_to_mapping = update ip (touch_at now) p.ip_to_mapping }

unfoldable pub alloc : FakeIpPool → List ℕ → ℕ → ℕ × FakeIpPool
unfolding get touch_mapping register next_free_ip
alloc p domain now = elim (get domain p.domain_to_ip) [
  | some ip ↦ (ip, touch_mapping ip now p)
  | none ↦ register domain now (next_free_ip p)
]

-- `m.refcount += 1` on a u32, which wraps in a release build.
abbrev pub acquired : ℕ → Mapping → Mapping
acquired now m = record m { refcount = (m.refcount + 1) % 2 ^ 32; last_used = now }

abbrev pub released : ℕ → Mapping → Mapping
released now m = record m { refcount = m.refcount - 1; last_used = now }

unfoldable pub acquire : FakeIpPool → ℕ → ℕ → FakeIpPool
unfolding update
acquire p ip now = record p { ip_to_mapping = update ip (acquired now) p.ip_to_mapping }

unfoldable pub release : FakeIpPool → ℕ → ℕ → FakeIpPool
unfolding update
release p ip now = record p { ip_to_mapping = update ip (released now) p.ip_to_mapping }

-- `m.refcount == 0 && now.saturating_sub(m.last_used) > ttl`
abbrev pub is_stale : ℕ → ℕ → Mapping → Bool
is_stale now ttl m = m.refcount == 0 && ltb ttl (now - m.last_used)

unfoldable pub stale_ips : ℕ → ℕ → Map ℕ Mapping → List ℕ
stale_ips now ttl [] = []
stale_ips now ttl ((ip, m) ∷ ms) =
    let rest = stale_ips now ttl ms in if is_stale now ttl m then ip ∷ rest else rest

unfoldable pub remove_all : List ℕ → FakeIpPool → FakeIpPool
unfolding remove_mapping
remove_all [] p = p
remove_all (ip ∷ ips) p = remove_all ips (remove_mapping ip p)

unfoldable pub sweep : FakeIpPool → ℕ → ℕ → ℕ × FakeIpPool
unfolding stale_ips remove_all
sweep p now ttl =
    let stale = stale_ips now ttl p.ip_to_mapping in (length stale, remove_all stale p)

unfoldable pub resolve : FakeIpPool → ℕ → Option (List ℕ)
unfolding get
resolve p ip = Option.map (λ m. m.domain) (get ip p.ip_to_mapping)

unfoldable pub is_fake : FakeIpPool → ℕ → Bool
is_fake p ip = leb p.range_start ip && leb ip p.range_end

unfoldable pub count_active : Map ℕ Mapping → ℕ
count_active [] = 0
count_active ((ip, m) ∷ ms) =
    let rest = count_active ms in if ltb 0 m.refcount then suc rest else rest

unfoldable pub usage : FakeIpPool → ℕ × ℕ
unfolding count_active
usage p = (length p.ip_to_mapping, count_active p.ip_to_mapping)
