-- ===== src/FakeIp/Alloc.antt =====
-- src/fake_ip.rs: `alloc`, from the probing loop up.
use mini_vpn.FakeIp.{
  FakeIpPool, advance_next, probe, remove_mapping, claim, span, next_free_ip, register, touch_at,
  touch_mapping, alloc, resolve, is_fake,
}
use mini_vpn.FakeIp.Consistent.{
  IsConsistent, advance_next-IsConsistent, updated-IsConsistent, resolve-updated,
  remove_mapping-IsConsistent, resolve-remove_mapping, register-IsConsistent,
}
use mini_vpn.Base.{
  ℕ, zero, suc, ◌+◌, ◌≤◌, ◌≡◌, refl, ◌∙◌, inl, inr, true, Option, none, some, List, arith, ltb,
  Bool-cases, Option-cases,
}
use mini_vpn.Base.Keys.{nat_eq, bytes_eq, pair_eq}
use mini_vpn.Base.Map.{get, contains_key, get-insert, get-remove}

-- Two pools with the same maps over the same range.
pub record SameMaps (p q : FakeIpPool) : Type 0 where
  pub ips : q.domain_to_ip ≡ p.domain_to_ip
  pub mappings : q.ip_to_mapping ≡ p.ip_to_mapping
  pub start : q.range_start ≡ p.range_start
  pub end : q.range_end ≡ p.range_end

pub advance_next-SameMaps : (p : FakeIpPool) → SameMaps p (advance_next p)
unfolding advance_next
advance_next-SameMaps p = elim (Bool-cases (ltb p.range_end (p.next + 1))) [
  | inl wrapped ↦
      rw (wrapped, advance_next) (record { ips = refl; mappings = refl; start = refl; end = refl })
  | inr stays ↦
      rw (stays, advance_next) (record { ips = refl; mappings = refl; start = refl; end = refl })
]

SameMaps-trans : (p q r : FakeIpPool) → SameMaps p q → SameMaps q r → SameMaps p r
SameMaps-trans p q r a b = record {
  ips = b.ips ∙ a.ips;
  mappings = b.mappings ∙ a.mappings;
  start = b.start ∙ a.start;
  end = b.end ∙ a.end;
}

pub probe-SameMaps : (n : ℕ) (p : FakeIpPool) → SameMaps p (probe n p).1
unfolding probe
probe-SameMaps zero p = record { ips = refl; mappings = refl; start = refl; end = refl }
probe-SameMaps (suc n) p = elim (Bool-cases (contains_key p.next p.ip_to_mapping)) [
  | inl held ↦
      rw (held, probe)
        (SameMaps-trans p (advance_next p) _ (advance_next-SameMaps p)
          (probe-SameMaps n (advance_next p)))
  | inr free ↦ rw (free, probe) (advance_next-SameMaps p)
]

pub probe-IsConsistent : (n : ℕ) (p : FakeIpPool) → IsConsistent p → IsConsistent (probe n p).1
unfolding probe
probe-IsConsistent zero p c = c
probe-IsConsistent (suc n) p c = elim (Bool-cases (contains_key p.next p.ip_to_mapping)) [
  | inl held ↦
      rw (held, probe) (probe-IsConsistent n (advance_next p) (advance_next-IsConsistent p c))
  | inr free ↦ rw (free, probe) (advance_next-IsConsistent p c)
]

-- An address that the loop finds is held by no mapping, and in the range.
pub probe-free :
    (n : ℕ) (p : FakeIpPool) (ip : ℕ)
    → IsConsistent p
    → (probe n p).0 ≡ some ip
    → (get ip p.ip_to_mapping ≡ none) × (p.range_start + 2 ≤ ip) × (ip ≤ p.range_end)
unfolding probe contains_key
probe-free zero p ip c h = cc
probe-free (suc n) p ip c h =
    let a = advance_next-SameMaps p in
    ground (
      arith,
      c.cursor,
      a.mappings,
      a.start,
      a.end,
      probe-free n (advance_next p) ip (advance_next-IsConsistent p c),
    )

pub remove_mapping-range :
    (ip : ℕ) (p : FakeIpPool)
    → ((remove_mapping ip p).range_start ≡ p.range_start)
      × ((remove_mapping ip p).range_end ≡ p.range_end)
unfolding remove_mapping
remove_mapping-range ip p = ground arith

remove_mapping-misses :
    (ip : ℕ) (d : List ℕ) (p : FakeIpPool)
    → get d p.domain_to_ip ≡ none
    → get d (remove_mapping ip p).domain_to_ip ≡ none
unfolding remove_mapping
remove_mapping-misses ip d p h = elim (Option-cases (get ip p.ip_to_mapping)) [
  | inl e ↦ rw (e, remove_mapping) h
  | inr (m, e) ↦ ground (arith, e, get-remove m.domain d p.domain_to_ip)
]

-- What registering a domain asks of the address and of the pool.
pub record IsFresh (d : List ℕ) (r : ℕ × FakeIpPool) : Type 0 where
  pub consistent : IsConsistent r.1
  pub unknown : get d r.1.domain_to_ip ≡ none
  pub free : resolve r.1 r.0 ≡ none
  pub above : r.1.range_start + 2 ≤ r.0
  pub below : r.0 ≤ r.1.range_end

claim-IsFresh :
    (d : List ℕ) (r : Option ℕ × FakeIpPool)
    → IsConsistent r.1
    → get d r.1.domain_to_ip ≡ none
    → ((ip : ℕ)
        → r.0 ≡ some ip
        → (resolve r.1 ip ≡ none) × (r.1.range_start + 2 ≤ ip) × (ip ≤ r.1.range_end))
    → IsFresh d (claim r)
unfolding claim
claim-IsFresh d (some ip, p) c h found = record {
  consistent = c;
  unknown = h;
  free = (found ip refl).0;
  above = (found ip refl).1;
  below = (found ip refl).2;
}
claim-IsFresh d (none, p) c h found =
    let q = advance_next p in
    let same = advance_next-SameMaps p in
    let (start, end) = remove_mapping-range p.next q in
    record {
      consistent = remove_mapping-IsConsistent p.next q (advance_next-IsConsistent p c);
      unknown = remove_mapping-misses p.next d q (rw same.ips h);
      free = ground (arith, resolve-remove_mapping q p.next p.next);
      above = omega (arith, c.cursor, same.start, start);
      below = omega (arith, c.cursor, same.end, end);
    }

pub next_free_ip-IsFresh :
    (d : List ℕ) (p : FakeIpPool)
    → IsConsistent p
    → get d p.domain_to_ip ≡ none
    → IsFresh d (next_free_ip p)
unfolding next_free_ip resolve
next_free_ip-IsFresh d p c h =
    let same = probe-SameMaps (span p) p in
    claim-IsFresh d (probe (span p) p) (probe-IsConsistent (span p) p c) (rw same.ips h) λ ip e.
      let (free, lo, hi) = probe-free (span p) p ip c e in
      (rw (same.mappings, free) refl, rw same.start lo, rw same.end hi)

register-fresh :
    (d : List ℕ) (now : ℕ) (r : ℕ × FakeIpPool) → IsFresh d r → IsConsistent (register d now r).1
register-fresh d now (ip, p) f =
    register-IsConsistent d now ip p f.consistent f.unknown f.free f.above f.below

-- Every call of `alloc` keeps the pool consistent.
pub alloc-IsConsistent :
    (p : FakeIpPool) (d : List ℕ) (now : ℕ) → IsConsistent p → IsConsistent (alloc p d now).1
unfolding alloc touch_mapping
alloc-IsConsistent p d now c = elim (Option-cases (get d p.domain_to_ip)) [
  | inl e ↦ rw (e, alloc) (register-fresh d now _ (next_free_ip-IsFresh d p c e))
  | inr (ip, e) ↦ rw (e, alloc) (updated-IsConsistent p ip (touch_at now) (λ m. refl) c)
]

register-resolves :
    (d : List ℕ) (now : ℕ) (r : ℕ × FakeIpPool)
    → resolve (register d now r).1 (register d now r).0 ≡ some d
unfolding register resolve
register-resolves d now (ip, p) =
    ground (
      arith,
      get-insert ip ip (record { domain = d; refcount = 0; last_used = now }) p.ip_to_mapping,
    )

-- The address that `alloc` gives for a domain resolves to that domain.
pub resolve-alloc :
    (p : FakeIpPool) (d : List ℕ) (now : ℕ)
    → IsConsistent p
    → resolve (alloc p d now).1 (alloc p d now).0 ≡ some d
unfolding alloc touch_mapping
resolve-alloc p d now c = elim (Option-cases (get d p.domain_to_ip)) [
  | inl e ↦ rw (e, alloc) (register-resolves d now (next_free_ip p))
  | inr (ip, e) ↦
      rw (e, alloc) (resolve-updated p ip (touch_at now) (λ m. refl) ip ∙ c.to_domain d ip e)
]

-- A second `alloc` of the same domain, at any time, gives the same address again.
pub alloc-alloc :
    (p : FakeIpPool) (d : List ℕ) (now later : ℕ)
    → IsConsistent p
    → (alloc (alloc p d now).1 d later).0 ≡ (alloc p d now).0
alloc-alloc p d now later c =
    let known =
      (alloc-IsConsistent p d now c).to_ip d (alloc p d now).0 (resolve-alloc p d now c) in
    unfold alloc in rw (known, alloc)

-- What `alloc` gives is recognised as a fake address, and is neither of the two reserved ones.
pub alloc_range :
    (p : FakeIpPool) (d : List ℕ) (now : ℕ)
    → IsConsistent p
    → let (ip, q) = alloc p d now in (is_fake q ip ≡ true) × (q.range_start + 2 ≤ ip)
unfolding is_fake
alloc_range p d now c =
    let within =
      (alloc-IsConsistent p d now c).in_range d (alloc p d now).0 (resolve-alloc p d now c) in
    (ground (arith, within), within.0)
