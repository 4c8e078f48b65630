-- ===== src/Metrics/Pressure.antt =====
-- src/metrics.rs (`note_pressure_edge`): the periodic samples of the datagram pressure and what is
-- counted of them.
use mini_vpn.Metrics.{Metrics, inc_datagram_pressure_events, note_pressure_edge}
use mini_vpn.Base.{
  ℕ, suc, ◌+◌, ◌-◌, ◌%◌, ◌^◌, ◌≤◌, ◌<◌, ◌≡◌, Bool, true, false, List, [], ◌∷◌, arith,
}
use mini_vpn.Base.Keys.{nat_eq, bytes_eq, pair_eq}

-- One sample: it is counted when the edge rises, and the latch is passed on.
abbrev sampled : Bool × Bool → Metrics → Bool × Metrics
sampled (true, prev) m = (prev, inc_datagram_pressure_events m)
sampled (false, prev) m = (prev, m)

abbrev pub sample_all : List Bool → Bool × Metrics → Metrics
sample_all [] (prev, m) = m
sample_all (b ∷ bs) (prev, m) = sample_all bs (sampled (note_pressure_edge b prev) m)

-- The stretches of pressure in the samples, each counted where it ends.
abbrev pub episodes : List Bool → ℕ
episodes [] = 0
episodes (false ∷ bs) = episodes bs
episodes (true ∷ []) = 1
episodes (true ∷ true ∷ bs) = episodes (true ∷ bs)
episodes (true ∷ false ∷ bs) = suc (episodes bs)

-- Under pressure already, the stretch that is going on has been counted.
abbrev new_episodes : Bool → List Bool → ℕ
new_episodes true bs = episodes (true ∷ bs) - 1
new_episodes false bs = episodes bs

episodes-pos : (bs : List Bool) → 1 ≤ episodes (true ∷ bs)
episodes-pos [] = omega arith
episodes-pos (true ∷ bs) = episodes-pos bs
episodes-pos (false ∷ bs) = omega arith

sample_all-new_episodes :
    (bs : List Bool) (prev : Bool) (m : Metrics)
    → m.datagram_pressure_events < 2 ^ 64
    → (sample_all bs (prev, m)).datagram_pressure_events
      ≡ (m.datagram_pressure_events + new_episodes prev bs) % 2 ^ 64
unfolding note_pressure_edge inc_datagram_pressure_events
sample_all-new_episodes [] true m h = omega arith
sample_all-new_episodes [] false m h = omega arith
sample_all-new_episodes (false ∷ bs) true m h = omega (arith, sample_all-new_episodes bs false m h)
sample_all-new_episodes (false ∷ bs) false m h = sample_all-new_episodes bs false m h
sample_all-new_episodes (true ∷ bs) true m h = sample_all-new_episodes bs true m h
sample_all-new_episodes (true ∷ bs) false m h = omega (
  arith,
  sample_all-new_episodes bs true (inc_datagram_pressure_events m) (omega arith),
  episodes-pos bs,
)

-- Sampled from rest, the counter goes up by one for each stretch of pressure, however many samples
-- it lasts, in the counter's 64 bits.
pub sample_all-episodes :
    (bs : List Bool) (m : Metrics)
    → m.datagram_pressure_events < 2 ^ 64
    → (sample_all bs (false, m)).datagram_pressure_events
      ≡ (m.datagram_pressure_events + episodes bs) % 2 ^ 64
sample_all-episodes bs m h = sample_all-new_episodes bs false m h
