-- ===== src/FakeIp/History.antt =====
-- src/fake_ip.rs: the pool over any sequence of calls from the start of the process.
use mini_vpn.FakeIp.{FakeIpPool, new, alloc, acquire, release, sweep}
use mini_vpn.FakeIp.Consistent.{IsConsistent, new-IsConsistent}
use mini_vpn.FakeIp.Alloc.{alloc-IsConsistent}
use mini_vpn.FakeIp.Reclaim.{acquire-IsConsistent, release-IsConsistent, sweep-IsConsistent}
use mini_vpn.Base.{ℕ, List, [], ◌∷◌}
use mini_vpn.Base.Keys.{nat_eq, bytes_eq, pair_eq}

pub data Call : Type 0 where
  allocs : List ℕ → ℕ → Call
  acquires releases sweeps : ℕ → ℕ → Call

unfoldable pub step : FakeIpPool → Call → FakeIpPool
step p (allocs d now) = (alloc p d now).1
step p (acquires ip now) = acquire p ip now
step p (releases ip now) = release p ip now
step p (sweeps now ttl) = (sweep p now ttl).1

unfoldable pub run : FakeIpPool → List Call → FakeIpPool
unfolding step
run p [] = p
run p (c ∷ cs) = run (step p c) cs

step-IsConsistent : (p : FakeIpPool) (c : Call) → IsConsistent p → IsConsistent (step p c)
unfolding step
step-IsConsistent p (allocs d now) i = alloc-IsConsistent p d now i
step-IsConsistent p (acquires ip now) i = acquire-IsConsistent p ip now i
step-IsConsistent p (releases ip now) i = release-IsConsistent p ip now i
step-IsConsistent p (sweeps now ttl) i = sweep-IsConsistent p now ttl i

run_from-IsConsistent : (p : FakeIpPool) (cs : List Call) → IsConsistent p → IsConsistent (run p cs)
unfolding run
run_from-IsConsistent p [] i = i
run_from-IsConsistent p (c ∷ cs) i = run_from-IsConsistent (step p c) cs (step-IsConsistent p c i)

-- Whatever is called on a new pool, in whatever order, it stays consistent: a domain has an address
-- exactly when the address resolves to it, and all addresses lie in the range past its first two.
pub run-IsConsistent : (cs : List Call) → IsConsistent (run new cs)
run-IsConsistent cs = run_from-IsConsistent new cs new-IsConsistent
