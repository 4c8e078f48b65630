-- ===== src/Failover/Hysteresis.antt =====
-- src/failover.rs: what it takes to come back to TUIC.
use mini_vpn.Failover.{
  FailoverState, active_leg, switch_to_reality, switch_to_tuic, next_count, up_cooldown_secs,
}
use mini_vpn.Failover.Decisions.{
  Decision, succeeded, failed, probed, blackholed, decide, decide_all,
}
use mini_vpn.Base.{
  ℕ, suc, ◌+◌, ◌-◌, ◌≤◌, ◌≡◌, ◌⊎◌, inl, inr, Bool, true, false, ◌&&◌, List, [], ◌∷◌, arith, leb,
  Bool-cases, any,
}
use mini_vpn.Base.Keys.{nat_eq, bytes_eq, pair_eq}

-- A successful probe at least `up_cooldown_secs` after the switch at `since`.
abbrev pub is_late_probe : ℕ → Decision → Bool
is_late_probe since (probed ok now) = ok && leb up_cooldown_secs (now - since)
is_late_probe since succeeded = false
is_late_probe since (failed dead now) = false
is_late_probe since (blackholed now) = false

abbrev pub ok_probes : List Decision → ℕ
ok_probes [] = 0
ok_probes (probed true now ∷ ds) = suc (ok_probes ds)
ok_probes (probed false now ∷ ds) = ok_probes ds
ok_probes (succeeded ∷ ds) = ok_probes ds
ok_probes (failed dead now ∷ ds) = ok_probes ds
ok_probes (blackholed now ∷ ds) = ok_probes ds

-- One decision on REALITY either returns to TUIC, by a late probe on two counted ones, or keeps the
-- leg and the time of the switch and counts at most its own probe.
abbrev Kept : FailoverState → Decision → Type 0
Kept s d =
    ((decide s d).active_tcp_leg ≡ 1)
    × ((decide s d).reality_switch_at ≡ s.reality_switch_at)
    × ((decide s d).probe_consec_ok ≤ s.probe_consec_ok + ok_probes (d ∷ []))

abbrev Returned : FailoverState → Decision → Type 0
Returned s d =
    (is_late_probe s.reality_switch_at d ≡ true) × (3 ≤ s.probe_consec_ok + ok_probes (d ∷ []))

decide-on_reality :
    (s : FailoverState) (d : Decision) → s.active_tcp_leg ≡ 1 → Returned s d ⊎ Kept s d
unfolding decide active_leg switch_to_reality switch_to_tuic
decide-on_reality s succeeded h = inr (ground arith)
decide-on_reality s (failed dead now) h = inr (ground arith)
decide-on_reality s (blackholed now) h = inr (ground arith)
decide-on_reality s (probed false now) h = inr (ground arith)
decide-on_reality s (probed true now) h =
    let back =
      leb 3 (next_count s.probe_consec_ok) && leb up_cooldown_secs (now - s.reality_switch_at) in
    elim (Bool-cases back) [
      | inl t ↦ inl (ground (arith, t), ground (arith, t))
      | inr f ↦ inr (ground (arith, f), ground (arith, f), ground (arith, f))
    ]

ok_probes-cons :
    (d : Decision) (ds : List Decision) → ok_probes (d ∷ ds) ≡ ok_probes (d ∷ []) + ok_probes ds
ok_probes-cons succeeded ds = omega arith
ok_probes-cons (failed dead now) ds = omega arith
ok_probes-cons (probed true now) ds = omega arith
ok_probes-cons (probed false now) ds = omega arith
ok_probes-cons (blackholed now) ds = omega arith

-- If the relays are on REALITY and after some decisions are on TUIC, then a probe succeeded at least
-- `up_cooldown_secs` after the switch, and three probes at least succeeded, those counted before
-- included.
pub return_needs_probes :
    (ds : List Decision) (s : FailoverState)
    → s.active_tcp_leg ≡ 1
    → (decide_all s ds).active_tcp_leg ≡ 0
    → (any (is_late_probe s.reality_switch_at) ds ≡ true) × (3 ≤ s.probe_consec_ok + ok_probes ds)
unfolding decide_all
return_needs_probes [] s on back = absurd (omega arith)
return_needs_probes (d ∷ ds) s on back = elim (decide-on_reality s d on) [
  | inl (late, three) ↦ (ground (arith, late), omega (arith, ok_probes-cons d ds))
  | inr (still, since, count) ↦
      let (late, three) = return_needs_probes ds (decide s d) still back in
      (ground (arith, rw since at late), omega (arith, ok_probes-cons d ds, three))
]
