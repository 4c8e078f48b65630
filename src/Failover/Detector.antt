-- ===== src/Failover/Detector.antt =====
-- src/failover.rs: the black-hole detector over a whole series of observations.
use mini_vpn.Failover.{BlackholeDetector, observe, blackhole_rx_stale_secs}
use mini_vpn.Base.{ℕ, ◌-◌, ◌≡◌, Bool, true, false, List, [], ◌∷◌, arith, leb, ◌==◌, if◌then◌else◌}
use mini_vpn.Base.Keys.{nat_eq, bytes_eq, pair_eq}

-- Observations (count, time), newest first.
unfoldable pub feed : BlackholeDetector → List (ℕ × ℕ) → Bool × BlackholeDetector
unfolding observe
feed d [] = (false, d)
feed d ((rx, now) ∷ earlier) = observe (feed d earlier).1 rx now

-- Since when the newest count has been seen without a break.
unfoldable pub stalled_since : ℕ → ℕ → List (ℕ × ℕ) → ℕ
stalled_since rx now [] = now
stalled_since rx now ((rx', t) ∷ earlier) =
    let since = stalled_since rx' t earlier in if rx == rx' then since else now

feed-state :
    (d : BlackholeDetector) (rx now : ℕ) (earlier : List (ℕ × ℕ))
    → d.primed ≡ false
    → (feed d ((rx, now) ∷ earlier)).1
      ≡ record { last_rx = rx; last_change_secs = stalled_since rx now earlier; primed = true }
unfolding feed observe stalled_since
feed-state d rx now [] h = ground arith
feed-state d rx now ((rx', t) ∷ earlier) h = ground (arith, feed-state d rx' t earlier h)

-- On any series of observations after a start or a reset, the detector's last verdict is that the
-- newest count has not changed for the whole window.
pub feed-stalled_since :
    (d : BlackholeDetector) (rx now : ℕ) (earlier : List (ℕ × ℕ))
    → d.primed ≡ false
    → (feed d ((rx, now) ∷ earlier)).0
      ≡ leb blackhole_rx_stale_secs (now - stalled_since rx now earlier)
unfolding feed observe stalled_since
feed-stalled_since d rx now [] h = ground arith
feed-stalled_since d rx now ((rx', t) ∷ earlier) h = ground (arith, feed-state d rx' t earlier h)
