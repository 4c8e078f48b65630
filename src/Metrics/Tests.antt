-- ===== src/Metrics/Tests.antt =====
-- src/metrics.rs on concrete runs.
use mini_vpn.Metrics.{new, snapshot}
use mini_vpn.Metrics.Tasks.{
  Write, forged, relays, drop_down, pressure, run, nothing_yet, tally, shown, snapshot-run,
}
use mini_vpn.Metrics.Pressure.{sample_all, episodes, sample_all-episodes}
use mini_vpn.Base.{◌+◌, ◌%◌, ◌^◌, ◌≡◌, Bool, true, false, List, [], ◌∷◌, arith}
use mini_vpn.Base.Keys.{nat_eq, bytes_eq, pair_eq}

abbrev writes : List Write
writes = forged ∷ drop_down ∷ relays 3 ∷ pressure ∷ forged ∷ []

snapshot-run_example : snapshot (run writes new) 4 5 ≡ shown (tally writes nothing_yet) 4 5
snapshot-run_example = snapshot-run writes 4 5

abbrev samples : List Bool
samples = true ∷ true ∷ false ∷ true ∷ false ∷ false ∷ []

sample_all-episodes_example :
    (sample_all samples (false, new)).datagram_pressure_events
    ≡ (new.datagram_pressure_events + episodes samples) % 2 ^ 64
unfolding new
sample_all-episodes_example = sample_all-episodes samples new (omega arith)
