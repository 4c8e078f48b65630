-- ===== src/Failover.antt =====
-- src/failover.rs: which leg, TUIC or REALITY, a new TCP relay takes. Counters are sequentially
-- read and written here; the interleaving of concurrent callers is in the child Interleaving. Times
-- are the seconds of the monotonic clock and are arguments, as in the source's decision methods.
pub mod Detector
pub mod Decisions
pub mod Hysteresis
pub mod Opening
pub mod Health
pub mod Interleaving
mod Tests
use mini_vpn.Base.{
  ℕ, zero, suc, ◌+◌, ◌-◌, ◌*◌, ◌/◌, ◌%◌, ◌^◌, ◌≤◌, ◌<◌, min, max, ◌≡◌, refl, sym, ap, ◌∙◌, ◌≢◌, ◌↔◌,
  ◌⊎◌, inl, inr, Bool, true, false, not, ◌&&◌, ◌||◌, Option, none, some, List, [], ◌∷◌, ◌++◌, map,
  arith, ltb, leb, ◌==◌, ==_iff, ltb→lt, leb→le, if◌then◌else◌, Bool-cases, Option-cases, ◌>>=◌,
  is_some, length, get_elem?, set, take, drop, replicate, length-append, length-take, length-drop,
  take-append-drop, length-set, length-replicate, take-append, drop-append, All, Distinct, any,
  keep,
}
use mini_vpn.Base.Bytes.{IsByte, IsU16, IsU32, u16_be, u32_be, from_be16, from_be16-u16_be}
use mini_vpn.Base.Keys.{Eq, ◌=?◌, nat_eq, bytes_eq, pair_eq}
use mini_vpn.Base.Map.{
  Map, get, insert, remove, contains_key, retain, update, UniqueKeys, get-insert, get-remove,
  =?_refl, =?_eq, =?_ne, get-update, insert-UniqueKeys, remove-UniqueKeys, update-UniqueKeys,
  Distinct-le, length-remove-le, length-remove-lt,
}

abbrev pub down_slow_consec : ℕ
down_slow_consec = 3

abbrev pub up_probe_consec : ℕ
up_probe_consec = 3

abbrev pub up_cooldown_secs : ℕ
up_cooldown_secs = 60

abbrev pub probe_interval_secs : ℕ
probe_interval_secs = 30

abbrev pub health_tick_secs : ℕ
health_tick_secs = 3

abbrev pub blackhole_rx_stale_secs : ℕ
blackhole_rx_stale_secs = 10

pub record BlackholeDetector : Type 0 where
  pub last_rx : ℕ
  pub last_change_secs : ℕ
  pub primed : Bool

unfoldable pub new_detector : BlackholeDetector
new_detector = record { last_rx = 0; last_change_secs = 0; primed = false }

unfoldable pub observe : BlackholeDetector → ℕ → ℕ → Bool × BlackholeDetector
observe d rx now =
    if not d.primed || not (rx == d.last_rx)
    then (false, record { last_rx = rx; last_change_secs = now; primed = true })
    else (leb blackhole_rx_stale_secs (now - d.last_change_secs), d)

unfoldable pub reset : BlackholeDetector → BlackholeDetector
reset d = record d { primed = false }

pub data TcpLeg : Type 0 where
  tuic reality : TcpLeg

abbrev pub as_u8 : TcpLeg → ℕ
as_u8 tuic = 0
as_u8 reality = 1

abbrev pub from_u8 : ℕ → TcpLeg
from_u8 v = if v == 1 then reality else tuic

abbrev pub is_tuic : TcpLeg → Bool
is_tuic tuic = true
is_tuic reality = false

pub record FailoverState : Type 0 where
  pub active_tcp_leg : ℕ
  pub tuic_consec_fail : ℕ
  pub probe_consec_ok : ℕ
  pub reality_switch_at : ℕ

unfoldable pub new_state : FailoverState
new_state = record {
  active_tcp_leg = as_u8 tuic;
  tuic_consec_fail = 0;
  probe_consec_ok = 0;
  reality_switch_at = 0;
}

unfoldable pub active_leg : FailoverState → TcpLeg
active_leg s = from_u8 s.active_tcp_leg

-- Sets the leg outright, for tests and for forcing one; normal switching goes by `record_*`.
unfoldable pub set_leg : FailoverState → TcpLeg → FailoverState
set_leg s leg = record s { active_tcp_leg = as_u8 leg }

-- The compare-and-swap and the three stores of the one that wins it.
unfoldable pub switch_to_reality : FailoverState → ℕ → Bool × FailoverState
switch_to_reality s now =
    if s.active_tcp_leg == as_u8 tuic
    then (
      true,
      record {
        active_tcp_leg = as_u8 reality;
        tuic_consec_fail = 0;
        probe_consec_ok = 0;
        reality_switch_at = now;
      },
    )
    else (false, s)

unfoldable pub switch_to_tuic : FailoverState → Bool × FailoverState
switch_to_tuic s =
    if s.active_tcp_leg == as_u8 reality
    then (true, record s { active_tcp_leg = as_u8 tuic; tuic_consec_fail = 0; probe_consec_ok = 0 })
    else (false, s)

unfoldable pub record_tuic_success : FailoverState → FailoverState
record_tuic_success s = record s { tuic_consec_fail = 0 }

-- `fetch_add(1) + 1` on a u32, which wraps.
abbrev pub next_count : ℕ → ℕ
next_count n = (n + 1) % 2 ^ 32

unfoldable pub record_tuic_failure : FailoverState → Bool → ℕ → Bool × FailoverState
unfolding active_leg switch_to_reality
record_tuic_failure s dead now =
    if not (is_tuic (active_leg s))
    then (false, s)
    else if dead
    then switch_to_reality s now
    else let s' : FailoverState = record s { tuic_consec_fail = next_count s.tuic_consec_fail } in
      if leb down_slow_consec s'.tuic_consec_fail then switch_to_reality s' now else (false, s')

unfoldable pub record_probe : FailoverState → Bool → ℕ → Bool × FailoverState
unfolding active_leg switch_to_tuic
record_probe s ok now =
    if is_tuic (active_leg s)
    then (false, s)
    else if not ok
    then (false, record s { probe_consec_ok = 0 })
    else let s' : FailoverState = record s { probe_consec_ok = next_count s.probe_consec_ok } in
      let cooled = leb up_cooldown_secs (now - s'.reality_switch_at) in
      if leb up_probe_consec s'.probe_consec_ok && cooled then switch_to_tuic s' else (false, s')

unfoldable pub record_blackhole : FailoverState → ℕ → Bool × FailoverState
unfolding active_leg switch_to_reality
record_blackhole s now =
    if not (is_tuic (active_leg s)) then (false, s) else switch_to_reality s now

-- What a leg's `open_tcp` answers: a relay stream or an error, of types that the model leaves open.
pub data Opened (S E : Type 0) : Type 0 where
  ok : S → Opened S E
  err : E → Opened S E

-- `FailoverUpstream::open_tcp`, before and after what it waits for: many openings are under way at
-- once, so the leg is read at one time (`open_start`) and the answer is recorded at a later one, in the
-- state of then (`open_end`). `from_tuic`, `from_reality` and `dead` are what the legs answer if they
-- are asked, and `now` the clock when the failure is recorded.
unfoldable pub open_start : FailoverState → TcpLeg
unfolding active_leg
open_start s = active_leg s

module _ {S E : Type 0} where
  unfoldable pub retry : Opened S E → E → Bool × FailoverState → Opened S E × FailoverState
  retry from_reality e (true, s) = (from_reality, s)
  retry from_reality e (false, s) = (err e, s)

  unfoldable pub open_on_tuic :
      Opened S E → Opened S E → Bool → ℕ → FailoverState → Opened S E × FailoverState
  unfolding record_tuic_success record_tuic_failure retry
  open_on_tuic (ok stream) from_reality dead now s = (ok stream, record_tuic_success s)
  open_on_tuic (err e) from_reality dead now s =
      retry from_reality e (record_tuic_failure s dead now)

  unfoldable pub open_end :
      TcpLeg → Opened S E → Opened S E → Bool → ℕ → FailoverState → Opened S E × FailoverState
  unfolding open_on_tuic
  open_end tuic from_tuic from_reality dead now s = open_on_tuic from_tuic from_reality dead now s
  open_end reality from_tuic from_reality dead now s = (from_reality, s)

-- The two legs and the shared state. `send_udp` goes to TUIC, by the leg's own `send`.
pub record FailoverUpstream (T R : Type 0) : Type 0 where
  pub tuic_leg : T
  pub reality_leg : R
  pub state : FailoverState

unfoldable pub send_udp :
    {T R : Type 0} → (T → List ℕ → T) → FailoverUpstream T R → List ℕ → FailoverUpstream T R
send_udp send u datagram = record u { tuic_leg = send u.tuic_leg datagram }

-- The background health task between two ticks.
pub record HealthTask : Type 0 where
  pub shared : FailoverState
  pub detector : BlackholeDetector
  pub secs_since_up_probe : ℕ

-- What the environment answers in a tick: the count of received datagrams if it can be read, the
-- probe's result if one is made, and the clock at each reading.
pub record Readings : Type 0 where
  pub rx : Option ℕ
  pub probe_ok : Bool
  pub observed_at : ℕ
  pub recorded_at : ℕ

-- The guard `observe(..) && record_blackhole(..)`, and the reset behind it.
unfoldable pub blackhole_guard : HealthTask → Readings → Bool × BlackholeDetector → HealthTask
unfolding record_blackhole reset
blackhole_guard h r (false, d) = record h { detector = d }
blackhole_guard h r (true, d) =
    let (switched, s) = record_blackhole h.shared r.recorded_at in
    record h { shared = s; detector = if switched then reset d else d }

unfoldable pub tuic_tick : HealthTask → Readings → Option ℕ → HealthTask
unfolding observe blackhole_guard
tuic_tick h r none = record h { secs_since_up_probe = 0 }
tuic_tick h r (some rx) =
    blackhole_guard (record h { secs_since_up_probe = 0 }) r (observe h.detector rx r.observed_at)

unfoldable pub reality_tick : HealthTask → Readings → HealthTask
unfolding record_probe reset
reality_tick h r =
    let secs = h.secs_since_up_probe + health_tick_secs in
    if leb probe_interval_secs secs
    then record {
      shared = (record_probe h.shared r.probe_ok r.recorded_at).1;
      detector = reset h.detector;
      secs_since_up_probe = 0;
    }
    else record h { detector = reset h.detector; secs_since_up_probe = secs }

-- One round of the loop in `spawn_health_probe`.
unfoldable pub tick : HealthTask → Readings → HealthTask
unfolding active_leg tuic_tick reality_tick
tick h r = if is_tuic (active_leg h.shared) then tuic_tick h r r.rx else reality_tick h r
