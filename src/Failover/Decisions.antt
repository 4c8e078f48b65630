-- ===== src/Failover/Decisions.antt =====
-- src/failover.rs: when the TCP relays leave TUIC.
use mini_vpn.Failover.{
  FailoverState, TcpLeg, tuic, reality, from_u8, new_state, active_leg, switch_to_reality,
  switch_to_tuic, record_tuic_success, record_tuic_failure, record_probe, record_blackhole,
}
use mini_vpn.Base.{ℕ, ◌≤◌, ◌<◌, ◌≡◌, refl, Bool, true, false, List, [], ◌∷◌, arith, if◌then◌else◌}
use mini_vpn.Base.Keys.{nat_eq, bytes_eq, pair_eq}

-- The leg is one of the two codes, and the failures counted are fewer than would have switched.
pub record IsSound (s : FailoverState) : Type 0 where
  pub code : s.active_tcp_leg ≤ 1
  pub few : s.tuic_consec_fail < 3
  pub cleared : s.active_tcp_leg ≡ 1 → s.tuic_consec_fail ≡ 0

-- Every decision that the source records.
pub data Decision : Type 0 where
  succeeded : Decision
  failed : Bool → ℕ → Decision
  probed : Bool → ℕ → Decision
  blackholed : ℕ → Decision

unfoldable pub decide : FailoverState → Decision → FailoverState
unfolding record_tuic_success record_tuic_failure record_probe record_blackhole
decide s succeeded = record_tuic_success s
decide s (failed dead now) = (record_tuic_failure s dead now).1
decide s (probed ok now) = (record_probe s ok now).1
decide s (blackholed now) = (record_blackhole s now).1

unfoldable pub decide_all : FailoverState → List Decision → FailoverState
unfolding decide
decide_all s [] = s
decide_all s (d ∷ ds) = decide_all (decide s d) ds

pub new_state-IsSound : IsSound new_state
unfolding new_state
new_state-IsSound = record { code = omega arith; few = omega arith; cleared = λ h. refl }

pub decide-IsSound : (s : FailoverState) (d : Decision) → IsSound s → IsSound (decide s d)
unfolding decide switch_to_reality switch_to_tuic active_leg
decide-IsSound s succeeded i = ground arith
decide-IsSound s (failed dead now) i = ground arith
decide-IsSound s (probed ok now) i = ground arith
decide-IsSound s (blackholed now) i = ground arith

-- Every history of decisions from the start keeps the state sound.
pub decide_all-IsSound :
    (ds : List Decision) (s : FailoverState) → IsSound s → IsSound (decide_all s ds)
unfolding decide_all
decide_all-IsSound [] s i = i
decide_all-IsSound (d ∷ ds) s i = decide_all-IsSound ds (decide s d) (decide-IsSound s d i)

-- The outcomes of opening relays on TUIC: `broke` is a failure with a living connection, `died` one
-- with a dead connection. Oldest first, with the time of each failure.
pub data Outcome : Type 0 where
  opened : Outcome
  broke died : ℕ → Outcome

-- What ought to bring the switch: one dead connection, or three living failures in a row.
unfoldable pub must_switch : List Outcome → Bool
must_switch [] = false
must_switch (opened ∷ os) = must_switch os
must_switch (died t ∷ os) = true
must_switch (broke a ∷ broke b ∷ broke c ∷ os) = true
must_switch (broke a ∷ os) = must_switch os

abbrev to_decision : Outcome → Decision
to_decision opened = succeeded
to_decision (broke t) = failed false t
to_decision (died t) = failed true t

unfoldable pub record_outcomes : FailoverState → List Outcome → FailoverState
unfolding decide
record_outcomes s [] = s
record_outcomes s (o ∷ os) = record_outcomes (decide s (to_decision o)) os

-- No outcome of opening brings TUIC back.
stays_on_reality :
    (s : FailoverState) (os : List Outcome)
    → s.active_tcp_leg ≡ 1
    → (record_outcomes s os).active_tcp_leg ≡ 1
unfolding record_outcomes active_leg
stays_on_reality s [] h = h
stays_on_reality s (opened ∷ os) h = stays_on_reality (decide s succeeded) os (ground arith)
stays_on_reality s (broke t ∷ os) h = stays_on_reality (decide s (failed false t)) os (ground arith)
stays_on_reality s (died t ∷ os) h = stays_on_reality (decide s (failed true t)) os (ground arith)

abbrev leg_after : FailoverState → List Outcome → TcpLeg
leg_after s os = from_u8 (record_outcomes s os).active_tcp_leg

abbrev pub leg_due : List Outcome → TcpLeg
leg_due os = if must_switch os then reality else tuic

mutual
  unfolding record_outcomes must_switch active_leg switch_to_reality

  after_none :
      (os : List Outcome) (s : FailoverState)
      → s.active_tcp_leg ≡ 0
      → s.tuic_consec_fail ≡ 0
      → leg_after s os ≡ leg_due os
  after_none [] s h n = ground arith
  after_none (opened ∷ os) s h n = after_none os (decide s succeeded) (ground arith) (ground arith)
  after_none (broke t ∷ os) s h n =
      after_one os t (decide s (failed false t)) (ground arith) (ground arith)
  after_none (died t ∷ os) s h n =
      ground (arith, stays_on_reality (decide s (failed true t)) os (ground arith))

  after_one :
      (os : List Outcome) (a : ℕ) (s : FailoverState)
      → s.active_tcp_leg ≡ 0
      → s.tuic_consec_fail ≡ 1
      → leg_after s os ≡ leg_due (broke a ∷ os)
  after_one [] a s h n = ground arith
  after_one (opened ∷ os) a s h n = after_none os (decide s succeeded) (ground arith) (ground arith)
  after_one (broke t ∷ os) a s h n =
      after_two os a t (decide s (failed false t)) (ground arith) (ground arith)
  after_one (died t ∷ os) a s h n =
      ground (arith, stays_on_reality (decide s (failed true t)) os (ground arith))

  after_two :
      (os : List Outcome) (a b : ℕ) (s : FailoverState)
      → s.active_tcp_leg ≡ 0
      → s.tuic_consec_fail ≡ 2
      → leg_after s os ≡ leg_due (broke a ∷ broke b ∷ os)
  after_two [] a b s h n = ground arith
  after_two (opened ∷ os) a b s h n =
      after_none os (decide s succeeded) (ground arith) (ground arith)
  after_two (broke t ∷ os) a b s h n =
      ground (arith, stays_on_reality (decide s (failed false t)) os (ground arith))
  after_two (died t ∷ os) a b s h n =
      ground (arith, stays_on_reality (decide s (failed true t)) os (ground arith))

-- From the start, whatever relays are opened on TUIC and with whatever outcome, the leg is REALITY
-- exactly if some failure was on a dead connection or three failures came in a row.
pub active_leg-record_outcomes :
    (os : List Outcome) → active_leg (record_outcomes new_state os) ≡ leg_due os
unfolding active_leg new_state
active_leg-record_outcomes os = after_none os new_state refl refl
