-- ===== src/Failover/Interleaving.antt =====
-- src/failover.rs: many tasks in `record_tuic_failure` at once, each load, add, exchange and store
-- of the shared state one atomic step.
use mini_vpn.Failover.{
  FailoverState, is_tuic, next_count, down_slow_consec, as_u8, tuic, reality, active_leg,
}
use mini_vpn.Base.{
  ℕ, zero, suc, ◌+◌, ◌≤◌, ◌≡◌, refl, Bool, true, false, not, some, List, [], ◌∷◌, arith, leb, ◌==◌,
  if◌then◌else◌, get_elem?, set, All,
}
use mini_vpn.Base.Keys.{nat_eq, bytes_eq, pair_eq}

-- Where a task stands, with the arguments of its call: before the load, before the `fetch_add`,
-- before the exchange, before each of the three stores of the winner, and back with the answer.
pub data Task : Type 0 where
  loading : Bool → ℕ → Task
  adding exchanging storing_at storing_fail storing_ok : ℕ → Task
  back : Bool → Task

unfoldable pub run_task : Task → FailoverState → Task × FailoverState
unfolding active_leg
run_task (loading dead now) s =
    if not (is_tuic (active_leg s))
    then (back false, s)
    else if dead
    then (exchanging now, s)
    else (adding now, s)
run_task (adding now) s =
    let n = next_count s.tuic_consec_fail in
    (
      if leb down_slow_consec n then exchanging now else back false,
      record s { tuic_consec_fail = n },
    )
run_task (exchanging now) s =
    if s.active_tcp_leg == as_u8 tuic
    then (storing_at now, record s { active_tcp_leg = as_u8 reality })
    else (back false, s)
run_task (storing_at now) s = (storing_fail now, record s { reality_switch_at = now })
run_task (storing_fail now) s = (storing_ok now, record s { tuic_consec_fail = 0 })
run_task (storing_ok now) s = (back true, record s { probe_consec_ok = 0 })
run_task (back answer) s = (back answer, s)

pub record System : Type 0 where
  pub tasks : List Task
  pub shared : FailoverState

-- Any task may make its next step.
unfoldable pub schedule : System → ℕ → Task → System
unfolding run_task
schedule y i t =
    let (t', s) = run_task t y.shared in record { tasks = set y.tasks i t'; shared = s }

pub data Step (y : System) : System → Type 0 where
  runs : (i : ℕ) (t : Task) → get_elem? y.tasks i ≡ some t → Step y (schedule y i t)

pub data Reach (y : System) : System → Type 0 where
  here : Reach y y
  next : {z w : System} → Reach y z → Step z w → Reach y w

-- The task has won the exchange.
abbrev pub won : Task → ℕ
won (storing_at now) = 1
won (storing_fail now) = 1
won (storing_ok now) = 1
won (back true) = 1
won (back false) = 0
won (loading dead now) = 0
won (adding now) = 0
won (exchanging now) = 0

abbrev pub winners : List Task → ℕ
winners [] = 0
winners (t ∷ ts) = won t + winners ts

winners-set :
    (ts : List Task) (i : ℕ) (t t' : Task)
    → get_elem? ts i ≡ some t
    → winners (set ts i t') + won t ≡ winners ts + won t'
winners-set [] i t t' h = cc
winners-set (x ∷ ts) zero t t' h = let e : x ≡ t = ground arith in rw e (omega arith)
winners-set (x ∷ ts) (suc i) t t' h = omega (arith, winners-set ts i t t' h)

-- The leg's code counts the winners.
abbrev pub Balanced : System → Type 0
Balanced y = (winners y.tasks ≡ y.shared.active_tcp_leg) × (y.shared.active_tcp_leg ≤ 1)

run_task-won :
    (t : Task) (s : FailoverState)
    → s.active_tcp_leg ≤ 1
    → (won (run_task t s).0 + s.active_tcp_leg ≡ won t + (run_task t s).1.active_tcp_leg)
      × ((run_task t s).1.active_tcp_leg ≤ 1)
unfolding run_task
run_task-won (loading dead now) s h = ground arith
run_task-won (adding now) s h = ground arith
run_task-won (exchanging now) s h = ground arith
run_task-won (storing_at now) s h = ground arith
run_task-won (storing_fail now) s h = ground arith
run_task-won (storing_ok now) s h = ground arith
run_task-won (back answer) s h = ground arith

Step-Balanced : {y z : System} → Step y z → Balanced y → Balanced z
unfolding schedule
Step-Balanced {y} (runs i t at) (count, code) =
    let (same, code') = run_task-won t y.shared code in
    (omega (arith, winners-set y.tasks i t (run_task t y.shared).0 at, same, count), code')

pub Reach-Balanced : {y z : System} → Reach y z → Balanced y → Balanced z
Reach-Balanced here b = b
Reach-Balanced (next r st) b = Step-Balanced st (Reach-Balanced r b)

abbrev AllLoading : List Task → Type 0
AllLoading = All (λ t. won t ≡ 0)

winners-zero : (ts : List Task) → AllLoading ts → winners ts ≡ 0
winners-zero [] h = refl
winners-zero (t ∷ ts) (e, h) = omega (arith, winners-zero ts h)

-- However the tasks that report failures on TUIC interleave, at most one of them is told that it
-- made the switch, and one has won the exchange exactly when the relays are on REALITY.
pub one_winner :
    (ts : List Task) (s : FailoverState) (z : System)
    → All (λ t. won t ≡ 0) ts
    → s.active_tcp_leg ≡ as_u8 tuic
    → Reach (record { tasks = ts; shared = s }) z
    → (winners z.tasks ≡ z.shared.active_tcp_leg) × (winners z.tasks ≤ 1)
one_winner ts s z fresh on r =
    let b = Reach-Balanced r (omega (arith, winners-zero ts fresh, on), omega arith) in
    (b.0, omega (arith, b))
