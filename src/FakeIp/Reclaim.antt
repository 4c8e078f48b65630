-- ===== src/FakeIp/Reclaim.antt =====
-- src/fake_ip.rs: the reference counts, and what `sweep` takes back.
use mini_vpn.FakeIp.{
  FakeIpPool, Mapping, remove_mapping, acquired, released, acquire, release, is_stale, remove_all,
  stale_ips, sweep, resolve,
}
use mini_vpn.FakeIp.Consistent.{IsConsistent, updated-IsConsistent, remove_mapping-IsConsistent}
use mini_vpn.Base.{
  ℕ, ◌+◌, ◌^◌, ◌≤◌, ◌<◌, ◌≡◌, ◌↔◌, ◌⊎◌, some_inj, refl, ◌∙◌, inl, inr, Bool, true, false, Option,
  none, some, List, [], ◌∷◌, arith, ◌==◌, ==_iff, if◌then◌else◌, Bool-cases, Option-cases, any,
}
use mini_vpn.Base.Keys.{nat_eq, bytes_eq, pair_eq}
use mini_vpn.Base.Map.{Map, get, update, UniqueKeys, get-remove, get-update}

pub acquire-IsConsistent :
    (p : FakeIpPool) (ip now : ℕ) → IsConsistent p → IsConsistent (acquire p ip now)
unfolding acquire
acquire-IsConsistent p ip now = updated-IsConsistent p ip (acquired now) (λ m. refl)

pub release-IsConsistent :
    (p : FakeIpPool) (ip now : ℕ) → IsConsistent p → IsConsistent (release p ip now)
unfolding release
release-IsConsistent p ip now = updated-IsConsistent p ip (released now) (λ m. refl)

pub remove_all-IsConsistent :
    (ips : List ℕ) (p : FakeIpPool) → IsConsistent p → IsConsistent (remove_all ips p)
unfolding remove_all
remove_all-IsConsistent [] p c = c
remove_all-IsConsistent (ip ∷ ips) p c =
    remove_all-IsConsistent ips (remove_mapping ip p) (remove_mapping-IsConsistent ip p c)

pub sweep-IsConsistent :
    (p : FakeIpPool) (now ttl : ℕ) → IsConsistent p → IsConsistent (sweep p now ttl).1
unfolding sweep
sweep-IsConsistent p now ttl = remove_all-IsConsistent (stale_ips now ttl p.ip_to_mapping) p

get-remove_mapping :
    (ip j : ℕ) (p : FakeIpPool)
    → get j (remove_mapping ip p).ip_to_mapping ≡ (if ip == j then none else get j p.ip_to_mapping)
unfolding remove_mapping
get-remove_mapping ip j p = elim (Option-cases (get ip p.ip_to_mapping)) [
  | inl e ↦ ground (arith, e, ==_iff ip j)
  | inr (m, e) ↦ ground (arith, e, get-remove ip j p.ip_to_mapping)
]

get-remove_all :
    (ips : List ℕ) (j : ℕ) (p : FakeIpPool)
    → get j (remove_all ips p).ip_to_mapping
      ≡ (if any (λ i. i == j) ips then none else get j p.ip_to_mapping)
unfolding remove_all
get-remove_all [] j p = refl
get-remove_all (ip ∷ ips) j p =
    ground (arith, get-remove_all ips j (remove_mapping ip p), get-remove_mapping ip j p)

-- Whether the mapping at an address, if there is one, is stale.
abbrev pub stale_at : ℕ → ℕ → Option Mapping → Bool
stale_at now ttl none = false
stale_at now ttl (some m) = is_stale now ttl m

any-stale_ips :
    (now ttl j : ℕ) (ms : Map ℕ Mapping)
    → UniqueKeys ms
    → any (λ i. i == j) (stale_ips now ttl ms) ≡ stale_at now ttl (get j ms)
unfolding stale_ips get
any-stale_ips now ttl j [] u = refl
any-stale_ips now ttl j ((ip, m) ∷ ms) (new, u) = elim (Bool-cases (ip == j)) [
  | inl t ↦
      let gone : get j ms ≡ none = rw ((==_iff ip j).0 t) at new in
      ground (arith, t, gone, any-stale_ips now ttl j ms u)
  | inr f ↦ ground (arith, f, any-stale_ips now ttl j ms u)
]

pub get-sweep :
    (p : FakeIpPool) (now ttl j : ℕ)
    → IsConsistent p
    → get j (sweep p now ttl).1.ip_to_mapping
      ≡ (if stale_at now ttl (get j p.ip_to_mapping) then none else get j p.ip_to_mapping)
unfolding sweep
get-sweep p now ttl j c =
    get-remove_all (stale_ips now ttl p.ip_to_mapping) j p
    ∙ rw (any-stale_ips now ttl j p.ip_to_mapping c.unique)

kept-sweep :
    (now ttl : ℕ) (o : Option Mapping) (m : Mapping)
    → ((if stale_at now ttl o then none else o) ≡ some m)
      ↔ ((o ≡ some m) × ((0 < m.refcount) ⊎ (now ≤ m.last_used + ttl)))
kept-sweep now ttl none m = (λ h. absurd cc, λ h. absurd (let q : none ≡ some m = h.0 in cc))
kept-sweep now ttl (some n) m = elim (Bool-cases (is_stale now ttl n)) [
  | inl t ↦ (
    λ h. absurd (let x : none ≡ some m = rw t at h in cc),
    λ (e, q).
        let idle : is_stale now ttl m ≡ true = rw (some_inj e) at t in
        absurd (ground (arith, idle, q)),
  )
  | inr f ↦ (
    λ h.
        let e : some n ≡ some m = rw f at h in
        let live : is_stale now ttl m ≡ false = rw (some_inj e) at f in (e, ground (arith, live)),
    λ (e, q). rw f e,
  )
]

-- After a sweep an address has a mapping exactly if it had this mapping before and the mapping is
-- held, or was used within the last `ttl`.
pub get-sweep_iff :
    (p : FakeIpPool) (now ttl j : ℕ) (m : Mapping)
    → IsConsistent p
    → (get j (sweep p now ttl).1.ip_to_mapping ≡ some m)
      ↔ ((get j p.ip_to_mapping ≡ some m) × ((0 < m.refcount) ⊎ (now ≤ m.last_used + ttl)))
get-sweep_iff p now ttl j m c =
    rw (get-sweep p now ttl j c) (kept-sweep now ttl (get j p.ip_to_mapping) m)

-- A flow that has acquired its address keeps it through any sweep, however late.
pub resolve-sweep-acquire :
    (p : FakeIpPool) (ip start now ttl : ℕ) (m : Mapping)
    → IsConsistent p
    → get ip p.ip_to_mapping ≡ some m
    → m.refcount + 1 < 2 ^ 32
    → resolve (sweep (acquire p ip start) now ttl).1 ip ≡ some m.domain
unfolding resolve
resolve-sweep-acquire p ip start now ttl m c e small =
    let held : get ip (acquire p ip start).ip_to_mapping ≡ some (acquired start m) =
      unfold acquire in ground (arith, get-update ip ip (acquired start) p.ip_to_mapping, e) in
    ground
      (arith, held, get-sweep (acquire p ip start) now ttl ip (acquire-IsConsistent p ip start c))

-- An acquisition and a release leave every count as it was before.
pub release-acquire :
    (p : FakeIpPool) (ip j start now : ℕ) (m : Mapping)
    → get j p.ip_to_mapping ≡ some m
    → m.refcount + 1 < 2 ^ 32
    → (n : Mapping) × (get j (release (acquire p ip start) ip now).ip_to_mapping ≡ some n)
      × (n.domain ≡ m.domain)
      × (n.refcount ≡ m.refcount)
unfolding acquire release
release-acquire p ip j start now m e small = elim (Bool-cases (ip == j)) [
  | inl t ↦ (
    record m { last_used = now },
    ground (
      arith,
      e,
      t,
      get-update ip j (acquired start) p.ip_to_mapping,
      get-update ip j (released now) (update ip (acquired start) p.ip_to_mapping),
    ),
    refl,
    refl,
  )
  | inr f ↦ (
    m,
    ground (
      arith,
      e,
      f,
      get-update ip j (acquired start) p.ip_to_mapping,
      get-update ip j (released now) (update ip (acquired start) p.ip_to_mapping),
    ),
    refl,
    refl,
  )
]
