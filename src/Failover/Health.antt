-- ===== src/Failover/Health.antt =====
-- src/failover.rs: the background health task, tick by tick.
use mini_vpn.Failover.{
  is_tuic, active_leg, switch_to_reality, HealthTask, Readings, tuic_tick, reality_tick, tick,
  blackhole_rx_stale_secs,
}
use mini_vpn.Base.{
  ℕ, ◌+◌, ◌≤◌, ◌<◌, ◌≡◌, ◌⊎◌, inl, inr, Bool, true, false, Option, none, some, List, [], ◌∷◌, arith,
  Bool-cases, Option-cases, All,
}
use mini_vpn.Base.Keys.{nat_eq, bytes_eq, pair_eq}

abbrev pub on_tuic : HealthTask → Bool
on_tuic h = is_tuic (active_leg h.shared)

tuic_tick-clean :
    (h : HealthTask) (r : Readings) (o : Option ℕ)
    → on_tuic h ≡ true
    → on_tuic (tuic_tick h r o) ≡ false
    → (tuic_tick h r o).detector.primed ≡ false
unfolding tuic_tick active_leg switch_to_reality
tuic_tick-clean h r none t e = ground arith
tuic_tick-clean h r (some rx) t e = ground arith

-- The detector never carries a count over from one leg to the other: after a tick that begins or
-- ends on REALITY it starts anew.
pub tick-clean :
    (h : HealthTask) (r : Readings)
    → (on_tuic h ≡ false) ⊎ (on_tuic (tick h r) ≡ false)
    → (tick h r).detector.primed ≡ false
unfolding tick reality_tick
tick-clean h r (inl e) = ground arith
tick-clean h r (inr e) = elim (Bool-cases (on_tuic h)) [
  | inl t ↦ ground (arith, t, tuic_tick-clean h r r.rx t)
  | inr f ↦ ground (arith, f)
]

abbrev pub reading : ℕ → Readings → Readings
reading rx r = record r { rx = some rx }

-- TUIC is on duty, and the detector has seen the count `rx` since `since` at the latest.
abbrev Watching : HealthTask → ℕ → ℕ → Type 0
Watching h rx since =
    (h.shared.active_tcp_leg ≡ 0)
    × (h.detector.primed ≡ true)
    × (h.detector.last_rx ≡ rx)
    × (h.detector.last_change_secs ≤ since)

first_stays :
    (h : HealthTask) (rx : ℕ) (r : Readings)
    → h.shared.active_tcp_leg ≡ 0
    → h.detector.last_change_secs ≤ r.observed_at
    → on_tuic (tick h (reading rx r)) ≡ true
    → Watching (tick h (reading rx r)) rx r.observed_at
unfolding tick tuic_tick active_leg switch_to_reality
first_stays h rx r t p e = ground arith

next_stays :
    (h : HealthTask) (rx since : ℕ) (r : Readings)
    → Watching h rx since
    → on_tuic (tick h (reading rx r)) ≡ true
    → Watching (tick h (reading rx r)) rx since × (r.observed_at < since + blackhole_rx_stale_secs)
unfolding tick tuic_tick active_leg switch_to_reality
next_stays h rx since r w e = ground arith

-- TUIC stays on duty through ticks that all read the count `rx`.
abbrev pub StaysOn : HealthTask → ℕ → List Readings → Type 0
StaysOn h rx [] = Unit {0}
StaysOn h rx (r ∷ rs) =
    (on_tuic (tick h (reading rx r)) ≡ true) × StaysOn (tick h (reading rx r)) rx rs

later_stay :
    (rs : List Readings) (h : HealthTask) (rx since : ℕ)
    → Watching h rx since
    → StaysOn h rx rs
    → All (λ r. r.observed_at < since + blackhole_rx_stale_secs) rs
later_stay [] h rx since w st = tt
later_stay (r ∷ rs) h rx since w (e, st) =
    let (w', soon) = next_stays h rx since r w e in
    (soon, later_stay rs (tick h (reading rx r)) rx since w' st)

-- While TUIC stays on duty and every tick reads the same count, no tick that leaves it on duty is as
-- late as the stale window after the first of them.
pub blackhole_left :
    (h : HealthTask) (rx : ℕ) (r : Readings) (rs : List Readings)
    → h.shared.active_tcp_leg ≡ 0
    → h.detector.last_change_secs ≤ r.observed_at
    → StaysOn h rx (r ∷ rs)
    → All (λ q. q.observed_at < r.observed_at + blackhole_rx_stale_secs) rs
blackhole_left h rx r rs t p (e, st) =
    later_stay rs (tick h (reading rx r)) rx r.observed_at (first_stays h rx r t p e) st

-- The seconds since the last probe stay below the interval, so on REALITY a probe comes at least
-- every tenth tick.
pub tick-secs :
    (h : HealthTask) (r : Readings)
    → h.secs_since_up_probe < 30
    → (tick h r).secs_since_up_probe < 30
unfolding tick reality_tick tuic_tick
tick-secs h r b = elim (Option-cases r.rx) [
  | inl e ↦ ground (arith, e)
  | inr (rx, e) ↦ ground (arith, e)
]
