-- ===== src/Metrics/Tasks.antt =====
-- src/metrics.rs: the writes of the two tasks of the data plane (src/client_tun.rs, `run_event_loop`,
-- and src/tuic.rs, `start_udp`), in any order.
use mini_vpn.Metrics.{
  Metrics, MetricsSnapshot, new, no_failover, fetch_add, leg_from_u8, inc_dns_forged,
  inc_dns_dropped, inc_udp_drops_down, inc_datagram_pressure_events, inc_relays_spawned,
  set_active_relays, set_fake_ip, set_failover_leg, snapshot,
}
use mini_vpn.Base.{ℕ, suc, ◌%◌, ◌^◌, ◌≡◌, refl, ap, ◌∙◌, List, [], ◌∷◌, arith}
use mini_vpn.Base.Keys.{nat_eq, bytes_eq, pair_eq}

-- A write of the event loop, or of the UDP task (the last two).
pub data Write : Type 0 where
  forged : Write
  dropped : Write
  spawned : Write
  relays : ℕ → Write
  fake_ips : ℕ → ℕ → Write
  leg : ℕ → Write
  drop_down : Write
  pressure : Write

abbrev write : Write → Metrics → Metrics
write forged m = inc_dns_forged m
write dropped m = inc_dns_dropped m
write spawned m = inc_relays_spawned m
write (relays n) m = set_active_relays m n
write (fake_ips total active) m = set_fake_ip m total active
write (leg v) m = set_failover_leg m v
write drop_down m = inc_udp_drops_down m
write pressure m = inc_datagram_pressure_events m

-- The writes in the order in which they happen, however the tasks interleave.
abbrev pub run : List Write → Metrics → Metrics
run [] m = m
run (w ∷ ws) m = run ws (write w m)

-- What happened, counted over the events, and what was set last.
pub record Tally : Type 0 where
  pub forged_answers : ℕ
  pub dropped_queries : ℕ
  pub relays_started : ℕ
  pub drops_down : ℕ
  pub pressure_edges : ℕ
  pub relays_now : ℕ
  pub total_now : ℕ
  pub active_now : ℕ
  pub leg_now : ℕ

-- One event more.
abbrev pub counted : Write → Tally → Tally
counted forged t = record t { forged_answers = suc t.forged_answers }
counted dropped t = record t { dropped_queries = suc t.dropped_queries }
counted spawned t = record t { relays_started = suc t.relays_started }
counted drop_down t = record t { drops_down = suc t.drops_down }
counted pressure t = record t { pressure_edges = suc t.pressure_edges }
counted (relays n) t = record t { relays_now = n }
counted (fake_ips total active) t = record t { total_now = total; active_now = active }
counted (leg v) t = record t { leg_now = v }

abbrev pub tally : List Write → Tally → Tally
tally [] t = t
tally (w ∷ ws) t = tally ws (counted w t)

abbrev pub nothing_yet : Tally
nothing_yet = record {
  forged_answers = 0;
  dropped_queries = 0;
  relays_started = 0;
  drops_down = 0;
  pressure_edges = 0;
  relays_now = 0;
  total_now = 0;
  active_now = 0;
  leg_now = no_failover;
}

-- What a tally is shown as: the counts modulo 2^64.
abbrev pub shown : Tally → ℕ → ℕ → MetricsSnapshot
shown t drops fallbacks = record {
  dns_forged = t.forged_answers % 2 ^ 64;
  dns_dropped = t.dropped_queries % 2 ^ 64;
  udp_drops_up = drops;
  udp_drops_down = t.drops_down % 2 ^ 64;
  udp_stream_fallbacks = fallbacks;
  datagram_pressure_events = t.pressure_edges % 2 ^ 64;
  relays_spawned = t.relays_started % 2 ^ 64;
  active_relays = t.relays_now;
  fake_ip_active = t.active_now;
  fake_ip_total = t.total_now;
  failover_leg = leg_from_u8 t.leg_now;
}

-- The counters that stand for a tally.
abbrev stored_as : Tally → Metrics
stored_as t = record {
  dns_forged = t.forged_answers % 2 ^ 64;
  dns_dropped = t.dropped_queries % 2 ^ 64;
  udp_drops_down = t.drops_down % 2 ^ 64;
  datagram_pressure_events = t.pressure_edges % 2 ^ 64;
  relays_spawned = t.relays_started % 2 ^ 64;
  active_relays = t.relays_now;
  fake_ip_active = t.active_now;
  fake_ip_total = t.total_now;
  failover_leg = t.leg_now;
}

fetch_add_mod : (n : ℕ) → fetch_add (n % 2 ^ 64) ≡ suc n % 2 ^ 64
fetch_add_mod n = omega arith

write-counted : (w : Write) (t : Tally) → write w (stored_as t) ≡ stored_as (counted w t)
unfolding inc_dns_forged inc_dns_dropped inc_relays_spawned set_active_relays set_fake_ip
    set_failover_leg inc_udp_drops_down inc_datagram_pressure_events
write-counted forged t = rw (fetch_add_mod t.forged_answers) refl
write-counted dropped t = rw (fetch_add_mod t.dropped_queries) refl
write-counted spawned t = rw (fetch_add_mod t.relays_started) refl
write-counted drop_down t = rw (fetch_add_mod t.drops_down) refl
write-counted pressure t = rw (fetch_add_mod t.pressure_edges) refl
write-counted (relays n) t = refl
write-counted (fake_ips total active) t = refl
write-counted (leg v) t = refl

run-stored_as : (ws : List Write) (t : Tally) → run ws (stored_as t) ≡ stored_as (tally ws t)
run-stored_as [] t = refl
run-stored_as (w ∷ ws) t = ap (run ws) (write-counted w t) ∙ run-stored_as ws (counted w t)

-- However the writes of the two tasks interleave, a snapshot shows, of every event, how often it
-- happened, modulo 2^64, and of every gauge the value that was set last.
pub snapshot-run :
    (ws : List Write) (drops fallbacks : ℕ)
    → snapshot (run ws new) drops fallbacks ≡ shown (tally ws nothing_yet) drops fallbacks
unfolding snapshot new
snapshot-run ws drops fallbacks =
    ap (λ (m : Metrics). snapshot m drops fallbacks) (run-stored_as ws nothing_yet)
