-- ===== src/FakeIp/Room.antt =====
-- src/fake_ip.rs: while the pool has a free address, `alloc` takes nobody's address away.
use mini_vpn.FakeIp.{
  FakeIpPool, Mapping, advance_next, probe, claim, span, next_free_ip, register, touch_at,
  touch_mapping, alloc, resolve,
}
use mini_vpn.FakeIp.Consistent.{IsConsistent, advance_next-IsConsistent, resolve-updated}
use mini_vpn.FakeIp.Alloc.{advance_next-SameMaps, probe-SameMaps, probe-free}
use mini_vpn.Base.{
  ℕ, zero, suc, ◌+◌, ◌-◌, ◌≤◌, ◌<◌, ◌≡◌, refl, ap, ◌∙◌, ◌≢◌, inl, inr, true, Option, none, some,
  List, [], ◌∷◌, arith, leb, if◌then◌else◌, Bool-cases, Option-cases, length, All, Distinct,
}
use mini_vpn.Base.Keys.{nat_eq, bytes_eq, pair_eq}
use mini_vpn.Base.Map.{get, contains_key, get-insert, Distinct-le}

-- The addresses that `n` rounds of the loop test.
tested : ℕ → FakeIpPool → List ℕ
tested zero p = []
tested (suc n) p = p.next ∷ tested n (advance_next p)

length-tested : (n : ℕ) (p : FakeIpPool) → length (tested n p) ≡ n
unfolding tested
length-tested zero p = refl
length-tested (suc n) p = ap suc (length-tested n (advance_next p))

-- The rounds until the cursor comes to `ip`.
abbrev rounds_to : ℕ → FakeIpPool → ℕ
rounds_to ip p = if leb p.next ip then ip - p.next else ip + span p - p.next

advance_next-span : (p : FakeIpPool) → span (advance_next p) ≡ span p
unfolding span
advance_next-span p = let same = advance_next-SameMaps p in rw (same.start, same.end)

closer :
    (p : FakeIpPool) (ip : ℕ)
    → IsConsistent p
    → p.range_start + 2 ≤ ip
    → ip ≤ p.range_end
    → ip ≢ p.next
    → rounds_to ip (advance_next p) + 1 ≡ rounds_to ip p
unfolding advance_next span
closer p ip c lo hi ne = ground (arith, c.cursor)

far : (p : FakeIpPool) → IsConsistent p → rounds_to p.next (advance_next p) + 1 ≡ span p
unfolding advance_next span
far p c = ground (arith, c.cursor)

-- An address that is more than `n` rounds away is not tested in `n` rounds.
not_tested :
    (n : ℕ) (p : FakeIpPool) (ip : ℕ)
    → IsConsistent p
    → p.range_start + 2 ≤ ip
    → ip ≤ p.range_end
    → n ≤ rounds_to ip p
    → All (λ j. ip ≢ j) (tested n p)
unfolding tested
not_tested zero p ip c lo hi h = tt
not_tested (suc n) p ip c lo hi h =
    let same = advance_next-SameMaps p in
    let ne : ip ≢ p.next = ground arith in
    (
      ne,
      not_tested n (advance_next p) ip (advance_next-IsConsistent p c) (rw same.start lo)
          (rw same.end hi) (omega (arith, closer p ip c lo hi ne)),
    )

tested-Distinct : (n : ℕ) (p : FakeIpPool) → IsConsistent p → n ≤ span p → Distinct (tested n p)
unfolding tested
tested-Distinct zero p c h = tt
tested-Distinct (suc n) p c h =
    let same = advance_next-SameMaps p in
    (
      not_tested n (advance_next p) p.next (advance_next-IsConsistent p c)
          (rw same.start c.cursor.0) (rw same.end c.cursor.1) (omega (arith, far p c)),
      tested-Distinct n (advance_next p) (advance_next-IsConsistent p c)
          (omega (arith, advance_next-span p)),
    )

-- If the loop finds nothing, every address that it tested is held.
tested-held :
    (n : ℕ) (p : FakeIpPool)
    → (probe n p).0 ≡ none
    → All (λ j. contains_key j p.ip_to_mapping ≡ true) (tested n p)
unfolding tested probe
tested-held zero p h = tt
tested-held (suc n) p h = elim (Bool-cases (contains_key p.next p.ip_to_mapping)) [
  | inl held ↦ (
    held,
    rw (advance_next-SameMaps p).mappings at
        (tested-held n (advance_next p) (rw (held, probe) at h)),
  )
  | inr free ↦ ground arith
]

-- With fewer mappings than addresses, a whole round of the loop finds a free one.
pub probe-finds :
    (p : FakeIpPool)
    → IsConsistent p
    → length p.ip_to_mapping < span p
    → (ip : ℕ) × ((probe (span p) p).0 ≡ some ip)
probe-finds p c room = elim (Option-cases (probe (span p) p).0) [
  | inl e ↦ absurd (
      omega (
        arith,
        length-tested (span p) p,
        Distinct-le (tested (span p) p) p.ip_to_mapping (tested-Distinct (span p) p c (omega arith))
            (tested-held (span p) p e),
      ))
  | inr (ip, e) ↦ (ip, e)
]

pub claim-found : (r : Option ℕ × FakeIpPool) (ip : ℕ) → r.0 ≡ some ip → claim r ≡ (ip, r.1)
unfolding claim
claim-found (some i, p) ip e = ground arith
claim-found (none, p) ip e = cc

-- With room in the pool, `alloc` leaves what every mapped address resolves to.
pub resolve-alloc_keeps :
    (p : FakeIpPool) (d : List ℕ) (now j : ℕ) (d' : List ℕ)
    → IsConsistent p
    → length p.ip_to_mapping < span p
    → resolve p j ≡ some d'
    → resolve (alloc p d now).1 j ≡ some d'
unfolding alloc touch_mapping
resolve-alloc_keeps p d now j d' c room h = elim (Option-cases (get d p.domain_to_ip)) [
  | inr (ip, e) ↦ rw (e, alloc) (resolve-updated p ip (touch_at now) (λ m. refl) j ∙ h)
  | inl e ↦
      let (ip, found) = probe-finds p c room in
      let free = (probe-free (span p) p ip c found).0 in
      let same = probe-SameMaps (span p) p in
      let mapping : Mapping = record { domain = d; refcount = 0; last_used = now } in
      rw (e, alloc)
        (unfold next_free_ip register resolve in
          rw (claim-found (probe (span p) p) ip found) (
            rw same.mappings
              (unfold resolve in ground (arith, get-insert ip j mapping p.ip_to_mapping, free, h))))
]
