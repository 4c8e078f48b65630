-- ===== src/Failover/Tests.antt =====
-- src/failover.rs on concrete histories.
use mini_vpn.Failover.{
  new_detector, FailoverState, new_state, active_leg, HealthTask, Readings, tick, ok,
  blackhole_rx_stale_secs,
}
use mini_vpn.Failover.Detector.{feed, stalled_since, feed-stalled_since}
use mini_vpn.Failover.Decisions.{
  IsSound, Decision, probed, decide_all, opened, broke, died, record_outcomes, leg_due,
  active_leg-record_outcomes,
}
use mini_vpn.Failover.Hysteresis.{is_late_probe, ok_probes, return_needs_probes}
use mini_vpn.Failover.{open_start}
use mini_vpn.Failover.Opening.{Attempt, OneRetried, one_retried}
use mini_vpn.Failover.Health.{blackhole_left}
use mini_vpn.Failover.Interleaving.{
  loading, exchanging, System, schedule, runs, Reach, here, next, winners, one_winner,
}
use mini_vpn.Base.{
  ℕ, ◌+◌, ◌-◌, ◌≤◌, ◌<◌, ◌≡◌, refl, true, false, some, List, [], ◌∷◌, arith, leb, All, any,
}
use mini_vpn.Base.Keys.{nat_eq, bytes_eq, pair_eq}

-- The relays on REALITY since the time 100.
abbrev away : FailoverState
away = record {
  active_tcp_leg = 1;
  tuic_consec_fail = 0;
  probe_consec_ok = 0;
  reality_switch_at = 100;
}

abbrev home : FailoverState
home = record {
  active_tcp_leg = 0;
  tuic_consec_fail = 0;
  probe_consec_ok = 0;
  reality_switch_at = 0;
}

abbrev recovery : List Decision
recovery = probed true 130 ∷ probed true 160 ∷ probed true 190 ∷ []

home-IsSound : IsSound home
home-IsSound = record { code = omega arith; few = omega arith; cleared = λ h. refl }

-- Three probes, the last ninety seconds after the switch, bring TUIC back.
recovery_returns : (decide_all away recovery).active_tcp_leg ≡ 0
unfolding decide_all
recovery_returns = refl

-- The same three probes too early do not.
early_recovery_stays :
    (decide_all away (probed true 110 ∷ probed true 120 ∷ probed true 130 ∷ [])).active_tcp_leg ≡ 1
unfolding decide_all
early_recovery_stays = refl

return_needs_probes_example :
    (any (is_late_probe 100) recovery ≡ true) × (3 ≤ 0 + ok_probes recovery)
unfolding decide_all
return_needs_probes_example = return_needs_probes recovery away refl refl

active_leg-record_outcomes_example :
    active_leg (record_outcomes new_state (broke 1 ∷ broke 2 ∷ opened ∷ died 3 ∷ []))
    ≡ leg_due (broke 1 ∷ broke 2 ∷ opened ∷ died 3 ∷ [])
active_leg-record_outcomes_example =
    active_leg-record_outcomes (broke 1 ∷ broke 2 ∷ opened ∷ died 3 ∷ [])

abbrev refused : ℕ → Attempt ℕ ℕ
refused now = record { error = 7; from_reality = ok 1; dead = false; now = now }

abbrev four_refused : List (Attempt ℕ ℕ)
four_refused = refused 1 ∷ refused 2 ∷ refused 3 ∷ refused 4 ∷ []

one_retried_example : OneRetried home four_refused 2
one_retried_example =
    one_retried home four_refused home-IsSound (unfold open_start in refl) (omega arith)

feed-stalled_since_example :
    (feed new_detector ((5, 30) ∷ (5, 24) ∷ (5, 18) ∷ (4, 10) ∷ [])).0
    ≡ leb blackhole_rx_stale_secs (30 - stalled_since 5 30 ((5, 24) ∷ (5, 18) ∷ (4, 10) ∷ []))
unfolding new_detector
feed-stalled_since_example =
    feed-stalled_since new_detector 5 30 ((5, 24) ∷ (5, 18) ∷ (4, 10) ∷ []) refl

abbrev watch : HealthTask
watch = record {
  shared = home;
  detector = record { last_rx = 3; last_change_secs = 10; primed = true };
  secs_since_up_probe = 0;
}

abbrev read_at : ℕ → Readings
read_at now = record { rx = some 3; probe_ok = false; observed_at = now; recorded_at = now }

blackhole_left_example :
    All (λ q. q.observed_at < 11 + blackhole_rx_stale_secs) (read_at 14 ∷ read_at 17 ∷ [])
unfolding tick active_leg
blackhole_left_example =
    blackhole_left watch 3 (read_at 11) (read_at 14 ∷ read_at 17 ∷ []) refl (omega arith)
      (refl, (refl, (refl, tt)))

abbrev racing : System
racing = record { tasks = loading true 5 ∷ loading true 6 ∷ []; shared = home }

-- Both tasks have loaded the leg, and the second has won the exchange.
abbrev raced : System
raced = schedule (schedule (schedule racing 0 (loading true 5)) 1 (loading true 6)) 1 (exchanging 6)

raced-Reach : Reach racing raced
unfolding schedule
raced-Reach =
    next (next (next here (runs 0 (loading true 5) refl)) (runs 1 (loading true 6) refl))
      (runs 1 (exchanging 6) refl)

one_winner_example : (winners raced.tasks ≡ raced.shared.active_tcp_leg) × (winners raced.tasks ≤ 1)
one_winner_example =
    one_winner (loading true 5 ∷ loading true 6 ∷ []) home raced (refl, (refl, tt)) refl raced-Reach
