-- ===== src/Metrics.antt =====
-- src/metrics.rs: the counters and gauges that the two data-plane tasks share, and the snapshot.
pub mod Tasks
pub mod Pressure
mod Tests
use mini_vpn.Base.{
  ℕ, zero, suc, ◌+◌, ◌-◌, ◌*◌, ◌/◌, ◌%◌, ◌^◌, ◌≤◌, ◌<◌, min, max, ◌≡◌, refl, sym, ap, ◌∙◌, ◌≢◌, ◌↔◌,
  ◌⊎◌, inl, inr, Bool, true, false, not, ◌&&◌, ◌||◌, Option, none, some, List, [], ◌∷◌, ◌++◌, map,
  arith, ltb, leb, ◌==◌, ==_iff, ltb→lt, leb→le, if◌then◌else◌, Bool-cases, Option-cases, ◌>>=◌,
  is_some, some_inj, length, get_elem?, set, take, drop, replicate, length-append, length-take,
  take-length, length-drop, take-append-drop, length-set, length-replicate, take-append,
  drop-append, drop-append_le, drop-add, get_elem?-append, All, Distinct, any, keep,
}
use mini_vpn.Base.Bytes.{
  IsByte, IsU16, IsU32, u16_be, u32_be, be_bytes, length-be_bytes, from_be16, from_be16-u16_be,
  from_be, from_be-be_bytes, from_be-u32_be,
}
use mini_vpn.Base.Keys.{Eq, ◌=?◌, nat_eq, bytes_eq, pair_eq}
use mini_vpn.Base.Map.{
  Map, get, insert, remove, contains_key, retain, update, UniqueKeys, get-insert, get-remove,
  =?_refl, =?_eq, =?_ne, get-update, insert-UniqueKeys, remove-UniqueKeys, update-UniqueKeys,
  Distinct-le, length-remove-le, length-insert-le, length-remove-lt,
}

abbrev pub no_failover : ℕ
no_failover = 255

-- Each atomic is the value that a relaxed load gives.
pub record Metrics : Type 0 where
  pub dns_forged : ℕ
  pub dns_dropped : ℕ
  pub udp_drops_down : ℕ
  pub datagram_pressure_events : ℕ
  pub relays_spawned : ℕ
  pub active_relays : ℕ
  pub fake_ip_active : ℕ
  pub fake_ip_total : ℕ
  pub failover_leg : ℕ

unfoldable pub new : Metrics
new = record {
  dns_forged = 0;
  dns_dropped = 0;
  udp_drops_down = 0;
  datagram_pressure_events = 0;
  relays_spawned = 0;
  active_relays = 0;
  fake_ip_active = 0;
  fake_ip_total = 0;
  failover_leg = no_failover;
}

-- `fetch_add(1)` on an `AtomicU64` wraps.
abbrev pub fetch_add : ℕ → ℕ
fetch_add n = (n + 1) % 2 ^ 64

unfoldable pub inc_dns_forged : Metrics → Metrics
inc_dns_forged self = record self { dns_forged = fetch_add self.dns_forged }

unfoldable pub inc_dns_dropped : Metrics → Metrics
inc_dns_dropped self = record self { dns_dropped = fetch_add self.dns_dropped }

unfoldable pub inc_udp_drops_down : Metrics → Metrics
inc_udp_drops_down self = record self { udp_drops_down = fetch_add self.udp_drops_down }

unfoldable pub inc_datagram_pressure_events : Metrics → Metrics
inc_datagram_pressure_events self = record self {
  datagram_pressure_events = fetch_add self.datagram_pressure_events;
}

unfoldable pub inc_relays_spawned : Metrics → Metrics
inc_relays_spawned self = record self { relays_spawned = fetch_add self.relays_spawned }

unfoldable pub set_active_relays : Metrics → ℕ → Metrics
set_active_relays self n = record self { active_relays = n }

unfoldable pub set_fake_ip : Metrics → ℕ → ℕ → Metrics
set_fake_ip self total active = record self { fake_ip_total = total; fake_ip_active = active }

unfoldable pub set_failover_leg : Metrics → ℕ → Metrics
set_failover_leg self leg_u8 = record self { failover_leg = leg_u8 }

pub data FailoverLegView : Type 0 where
  tuic : FailoverLegView
  reality : FailoverLegView
  no_leg : FailoverLegView

unfoldable pub leg_from_u8 : ℕ → FailoverLegView
leg_from_u8 v = if v == 0 then tuic else if v == 1 then reality else no_leg

pub record MetricsSnapshot : Type 0 where
  pub dns_forged : ℕ
  pub dns_dropped : ℕ
  pub udp_drops_up : ℕ
  pub udp_drops_down : ℕ
  pub udp_stream_fallbacks : ℕ
  pub datagram_pressure_events : ℕ
  pub relays_spawned : ℕ
  pub active_relays : ℕ
  pub fake_ip_active : ℕ
  pub fake_ip_total : ℕ
  pub failover_leg : FailoverLegView

unfoldable pub snapshot : Metrics → ℕ → ℕ → MetricsSnapshot
unfolding leg_from_u8
snapshot self udp_drops_up udp_stream_fallbacks = record {
  dns_forged = self.dns_forged;
  dns_dropped = self.dns_dropped;
  udp_drops_up = udp_drops_up;
  udp_drops_down = self.udp_drops_down;
  udp_stream_fallbacks = udp_stream_fallbacks;
  datagram_pressure_events = self.datagram_pressure_events;
  relays_spawned = self.relays_spawned;
  active_relays = self.active_relays;
  fake_ip_active = self.fake_ip_active;
  fake_ip_total = self.fake_ip_total;
  failover_leg = leg_from_u8 self.failover_leg;
}

-- Whether the edge rises, and the latch `prev` after the call.
unfoldable pub note_pressure_edge : Bool → Bool → Bool × Bool
note_pressure_edge pressured prev = (pressured && not prev, pressured)
