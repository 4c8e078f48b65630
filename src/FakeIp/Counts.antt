-- ===== src/FakeIp/Counts.antt =====
-- src/fake_ip.rs (`alloc`): while the pool has a free address, the count of every address stays.
use mathlib.Core.Option
use mini_vpn.FakeIp.{
  FakeIpPool, Mapping, probe, span, next_free_ip, register, touch_at, touch_mapping, alloc,
}
use mini_vpn.FakeIp.Consistent.{IsConsistent}
use mini_vpn.FakeIp.Alloc.{probe-SameMaps, probe-free}
use mini_vpn.FakeIp.Room.{probe-finds, claim-found}
use mini_vpn.Base.{
  ℕ, ◌<◌, ◌≡◌, refl, ap, ◌∙◌, inl, inr, Option, none, some, List, arith, ◌==◌, Bool-cases,
  Option-cases, length,
}
use mini_vpn.Base.Keys.{nat_eq, bytes_eq, pair_eq}
use mini_vpn.Base.Map.{get, get-insert, get-update}

abbrev pub count_of : Option Mapping → ℕ
count_of none = 0
count_of (some m) = m.refcount

abbrev pub refs : FakeIpPool → ℕ → ℕ
refs pool ip = count_of (get ip pool.ip_to_mapping)

count_of-touch_at :
    (now : ℕ) (o : Option Mapping) → count_of (Option.map (touch_at now) o) ≡ count_of o
count_of-touch_at now none = refl
count_of-touch_at now (some m) = refl

refs-touch_mapping : (p : FakeIpPool) (ip j now : ℕ) → refs (touch_mapping ip now p) j ≡ refs p j
unfolding touch_mapping
refs-touch_mapping p ip j now =
    let changed = get-update ip j (touch_at now) p.ip_to_mapping in
    elim (Bool-cases (ip == j)) [
      | inl t ↦ ap count_of changed ∙ rw t (count_of-touch_at now (get j p.ip_to_mapping))
      | inr f ↦ ap count_of changed ∙ rw f refl
    ]

pub refs-alloc :
    (p : FakeIpPool) (d : List ℕ) (now j : ℕ)
    → IsConsistent p
    → length p.ip_to_mapping < span p
    → refs (alloc p d now).1 j ≡ refs p j
unfolding alloc
refs-alloc p d now j c room = elim (Option-cases (get d p.domain_to_ip)) [
  | inr (ip, e) ↦ rw (e, alloc) (refs-touch_mapping p ip j now)
  | inl e ↦
      let (ip, found) = probe-finds p c room in
      let free = (probe-free (span p) p ip c found).0 in
      let same = probe-SameMaps (span p) p in
      let mapping : Mapping = record { domain = d; refcount = 0; last_used = now } in
      rw (e, alloc)
        (unfold next_free_ip register in
          rw (claim-found (probe (span p) p) ip found)
            (rw same.mappings (ground (arith, get-insert ip j mapping p.ip_to_mapping, free))))
]
