-- ===== src/FakeIp/Consistent.antt =====
-- src/fake_ip.rs: the two maps of the pool are inverse to each other, whatever is called.
use mini_vpn.FakeIp.{FakeIpPool, Mapping, new, advance_next, remove_mapping, register, resolve}
use mini_vpn.Base.{
  ℕ, ◌+◌, ◌^◌, ◌≤◌, ◌<◌, ◌≡◌, sym, ◌∙◌, inl, inr, none, some, List, arith, ltb, ◌==◌, ==_iff,
  if◌then◌else◌, Bool-cases, Option-cases,
}
use mini_vpn.Base.Keys.{nat_eq, bytes_eq, pair_eq}
use mini_vpn.Base.Map.{
  get, update, UniqueKeys, get-insert, get-remove, get-update, insert-UniqueKeys, remove-UniqueKeys,
  update-UniqueKeys,
}

-- A domain has an address exactly when the address resolves to it, and every address handed out and
-- the cursor lie in the range, past its first two addresses.
pub record IsConsistent (p : FakeIpPool) : Type 0 where
  pub to_domain : (d : List ℕ) (ip : ℕ) → get d p.domain_to_ip ≡ some ip → resolve p ip ≡ some d
  pub to_ip : (d : List ℕ) (ip : ℕ) → resolve p ip ≡ some d → get d p.domain_to_ip ≡ some ip
  pub in_range :
      (d : List ℕ) (ip : ℕ) → resolve p ip ≡ some d → (p.range_start + 2 ≤ ip) × (ip ≤ p.range_end)
  pub cursor : (p.range_start + 2 ≤ p.next) × (p.next ≤ p.range_end)
  pub bounded : p.range_end < 2 ^ 32
  pub unique : UniqueKeys p.ip_to_mapping

pub new-IsConsistent : IsConsistent new
unfolding new resolve get
new-IsConsistent = record {
  to_domain = λ d ip h. cc;
  to_ip = λ d ip h. cc;
  in_range = λ d ip h. cc;
  cursor = omega arith;
  bounded = omega arith;
  unique = tt;
}

-- The cursor moves within the range, and nothing else changes.
pub advance_next-IsConsistent : (p : FakeIpPool) → IsConsistent p → IsConsistent (advance_next p)
unfolding advance_next resolve
advance_next-IsConsistent p c = elim (Bool-cases (ltb p.range_end (p.next + 1))) [
  | inl wrapped ↦
      rw (wrapped, advance_next)
        (record {
          to_domain = c.to_domain;
          to_ip = c.to_ip;
          in_range = c.in_range;
          cursor = omega (arith, c.cursor);
          bounded = c.bounded;
          unique = c.unique;
        })
  | inr stays ↦
      rw (stays, advance_next)
        (record {
          to_domain = c.to_domain;
          to_ip = c.to_ip;
          in_range = c.in_range;
          cursor = ground (arith, c.cursor);
          bounded = c.bounded;
          unique = c.unique;
        })
]

-- A change of the counter and the time of one mapping keeps what every address resolves to.
module _ (p : FakeIpPool) (ip : ℕ) (f : Mapping → Mapping)
    (same : (m : Mapping) → (f m).domain ≡ m.domain) where
  abbrev pub updated : FakeIpPool
  updated = record p { ip_to_mapping = update ip f p.ip_to_mapping }

  pub resolve-updated : (j : ℕ) → resolve updated j ≡ resolve p j
  unfolding resolve
  resolve-updated j = elim (Option-cases (get j p.ip_to_mapping)) [
    | inl e ↦ ground (arith, get-update ip j f p.ip_to_mapping, e)
    | inr (m, e) ↦ ground (arith, get-update ip j f p.ip_to_mapping, e, same m)
  ]

  pub updated-IsConsistent : IsConsistent p → IsConsistent updated
  updated-IsConsistent c = record {
    to_domain = λ d j h. resolve-updated j ∙ c.to_domain d j (h);
    to_ip = λ d j h. c.to_ip d j (sym (resolve-updated j) ∙ h);
    in_range = λ d j h. c.in_range d j (sym (resolve-updated j) ∙ h);
    cursor = c.cursor;
    bounded = c.bounded;
    unique = update-UniqueKeys ip f p.ip_to_mapping c.unique;
  }

-- What an address resolves to once a mapping is removed.
pub resolve-remove_mapping :
    (p : FakeIpPool) (ip j : ℕ)
    → resolve (remove_mapping ip p) j ≡ (if ip == j then none else resolve p j)
unfolding resolve remove_mapping
resolve-remove_mapping p ip j = elim (Option-cases (get ip p.ip_to_mapping)) [
  | inl e ↦ ground (arith, e, ==_iff ip j)
  | inr (m, e) ↦ ground (arith, e, get-remove ip j p.ip_to_mapping)
]

pub remove_mapping-IsConsistent :
    (ip : ℕ) (p : FakeIpPool) → IsConsistent p → IsConsistent (remove_mapping ip p)
unfolding remove_mapping resolve
remove_mapping-IsConsistent ip p c = elim (Option-cases (get ip p.ip_to_mapping)) [
  | inl e ↦ rw (e, remove_mapping) c
  | inr (m, e) ↦
      rw (e, remove_mapping)
        (record {
          to_domain = λ d j h. ground (
            arith,
            e,
            get-remove m.domain d p.domain_to_ip,
            get-remove ip j p.ip_to_mapping,
            c.to_domain d j,
            bytes_eq.beq_iff m.domain d,
          );
          to_ip = λ d j h. ground (
            arith,
            e,
            get-remove m.domain d p.domain_to_ip,
            get-remove ip j p.ip_to_mapping,
            c.to_ip d j,
            c.to_ip d ip,
            bytes_eq.beq_iff m.domain d,
          );
          in_range = λ d j h. ground (arith, get-remove ip j p.ip_to_mapping, c.in_range d j);
          cursor = c.cursor;
          bounded = c.bounded;
          unique = remove-UniqueKeys ip p.ip_to_mapping c.unique;
        })
]

-- A new domain at a free address of the range.
pub register-IsConsistent :
    (d : List ℕ) (now ip : ℕ) (p : FakeIpPool)
    → IsConsistent p
    → get d p.domain_to_ip ≡ none
    → resolve p ip ≡ none
    → p.range_start + 2 ≤ ip
    → ip ≤ p.range_end
    → IsConsistent (register d now (ip, p)).1
unfolding register resolve
register-IsConsistent d now ip p c new_domain free lo hi = record {
  to_domain = λ d' j h. ground (
    arith,
    get-insert d d' ip p.domain_to_ip,
    get-insert ip j (record { domain = d; refcount = 0; last_used = now }) p.ip_to_mapping,
    c.to_domain d' j,
    bytes_eq.beq_iff d d',
    free,
  );
  to_ip = λ d' j h. ground (
    arith,
    get-insert d d' ip p.domain_to_ip,
    get-insert ip j (record { domain = d; refcount = 0; last_used = now }) p.ip_to_mapping,
    c.to_ip d' j,
    bytes_eq.beq_iff d d',
    new_domain,
  );
  in_range = λ d' j h. ground (
    arith,
    get-insert ip j (record { domain = d; refcount = 0; last_used = now }) p.ip_to_mapping,
    c.in_range d' j,
  );
  cursor = c.cursor;
  bounded = c.bounded;
  unique = insert-UniqueKeys ip _ p.ip_to_mapping c.unique;
}
