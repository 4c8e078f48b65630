-- ===== src/FakeIp/Tests.antt =====
-- src/fake_ip.rs on concrete pools.
use mini_vpn.FakeIp.{Mapping, ipv4, FakeIpPool, new, alloc, sweep, resolve}
use mini_vpn.FakeIp.Consistent.{IsConsistent}
use mini_vpn.FakeIp.Alloc.{alloc-IsConsistent, resolve-alloc}
use mini_vpn.FakeIp.Reclaim.{get-sweep_iff}
use mini_vpn.FakeIp.History.{allocs, acquires, sweeps, run, run-IsConsistent}
use mini_vpn.Base.{ℕ, ◌+◌, ◌≤◌, ◌<◌, ◌↔◌, ◌⊎◌, ◌≡◌, refl, none, some, List, [], ◌∷◌, arith}
use mini_vpn.Base.Keys.{nat_eq, bytes_eq, pair_eq}
use mini_vpn.Base.Map.{get}

-- A pool of the addresses 12 to 15.
abbrev four : FakeIpPool
four = record { range_start = 10; range_end = 15; next = 12; domain_to_ip = []; ip_to_mapping = [] }

four-IsConsistent : IsConsistent four
unfolding resolve get
four-IsConsistent = record {
  to_domain = λ d ip h. cc;
  to_ip = λ d ip h. cc;
  in_range = λ d ip h. cc;
  cursor = omega arith;
  bounded = omega arith;
  unique = tt;
}

abbrev name_a : List ℕ
name_a = 97 ∷ []

abbrev name_b : List ℕ
name_b = 98 ∷ []

-- The pool with two names.
abbrev two : FakeIpPool
two = (alloc (alloc four name_a 5).1 name_b 6).1

two-IsConsistent : IsConsistent two
two-IsConsistent =
    alloc-IsConsistent (alloc four name_a 5).1 name_b 6
      (alloc-IsConsistent four name_a 5 four-IsConsistent)

-- The first two addresses go to the first two names.
second_address : (alloc (alloc four name_a 5).1 name_b 6).0 ≡ 13
unfolding alloc
second_address = refl

idle_mapping_goes : get 12 (sweep two 400 300).1.ip_to_mapping ≡ none
unfolding alloc sweep
idle_mapping_goes = refl

resolve-alloc_example : resolve (alloc two name_a 9).1 (alloc two name_a 9).0 ≡ some name_a
resolve-alloc_example = resolve-alloc two name_a 9 two-IsConsistent

abbrev long_idle : Mapping
long_idle = record { domain = name_a; refcount = 0; last_used = 1 }

get-sweep_iff_example :
    (get 12 (sweep two 400 300).1.ip_to_mapping ≡ some long_idle)
    ↔ ((get 12 two.ip_to_mapping ≡ some long_idle) × ((0 < 0) ⊎ (400 ≤ 1 + 300)))
get-sweep_iff_example = get-sweep_iff two 400 300 12 long_idle two-IsConsistent

run-IsConsistent_example :
    IsConsistent (run new (allocs name_a 1 ∷ acquires (ipv4 198 18 0 2) 2 ∷ sweeps 900 300 ∷ []))
run-IsConsistent_example =
    run-IsConsistent (allocs name_a 1 ∷ acquires (ipv4 198 18 0 2) 2 ∷ sweeps 900 300 ∷ [])
