-- ===== src/Slots/EventLoop.antt =====
-- src/client_tun.rs (`run_event_loop`): the branches of the loop that work on the slots, with the
-- map of the slots and the pool they share.
pub mod References
pub mod Epochs
pub mod Late
use mini_vpn.FakeIp as FakeIp
use mini_vpn.FakeIp.{FakeIpPool}
use mini_vpn.Dns.{DnsQuery}
use mini_vpn.Uplink.{answer_query}
use mini_vpn.Registry.{SocketCtx}
use mini_vpn.Slots.{
  SendAnswer, rearm_socket, Spawned, Handled, quiet, Activity, process_listener_activity,
  handle_handshake_done, handle_remote_payload, is_dead,
}
use mini_vpn.Base.{
  ℕ, zero, suc, ◌+◌, ◌-◌, ◌*◌, ◌/◌, ◌%◌, ◌^◌, ◌≤◌, ◌<◌, min, max, ◌≡◌, refl, sym, ap, ◌∙◌, ◌≢◌, ◌↔◌,
  ◌⊎◌, inl, inr, Bool, true, false, not, ◌&&◌, ◌||◌, Option, none, some, List, [], ◌∷◌, ◌++◌, map,
  arith, ltb, leb, ◌==◌, ==_iff, ltb→lt, leb→le, if◌then◌else◌, Bool-cases, if_cases, if_intro,
  Option-cases, ◌>>=◌, is_some, some_inj, bind_some, length, get_elem?, set, take, drop, replicate,
  length-append, length-take, take-length, length-drop, take-append-drop, length-set,
  length-replicate, take-append, drop-append, drop-append_le, drop-add, get_elem?-append,
  get_elem?-append_lt, take-append_le, All, Distinct, any, any_iff, Some, and_right, or_right, keep,
  concat,
}
use mini_vpn.Base.Bytes.{
  IsByte, IsU16, IsU32, u16_be, u32_be, be_bytes, length-be_bytes, from_be16, from_be16-u16_be,
  from_be, from_be-be_bytes, from_be-u32_be,
}
use mini_vpn.Base.Results.{Result, ok, err, and_then, and_then_ok, and_then_intro, ok_or, ok_inj}
use mini_vpn.Base.Keys.{Eq, ◌=?◌, nat_eq, bytes_eq, pair_eq}
use mini_vpn.Base.Map.{
  Map, get, insert, remove, contains_key, retain, update, UniqueKeys, get-insert, get-remove,
  =?_refl, =?_eq, =?_ne, get-update, insert-UniqueKeys, remove-UniqueKeys, update-UniqueKeys,
  Distinct-le, length-remove-le, length-insert-le, length-remove-lt, length-update,
}

-- `spawned` are the tasks started so far, the last one first.
pub record EventLoop : Type 0 where
  pub socket_ctxs : Map ℕ SocketCtx
  pub fake_pool : FakeIpPool
  pub spawned : List Spawned

abbrev pub started : Option Spawned → List Spawned → List Spawned
started none tasks = tasks
started (some task) tasks = task ∷ tasks

-- A handler that was given `get_mut` of the slot and of the pool.
unfoldable pub stored : ℕ → Handled → EventLoop → EventLoop
unfolding insert
stored handle h w = record {
  socket_ctxs = insert handle h.ctx w.socket_ctxs;
  fake_pool = h.pool;
  spawned = started h.spawned w.spawned;
}

-- `let Some(ctx) = socket_ctxs.get_mut(&handle) else { return }`, with which every handler starts.
unfoldable pub on_slot : ℕ → (SocketCtx → FakeIpPool → Handled) → EventLoop → EventLoop
unfolding get stored
on_slot handle f w = elim (get handle w.socket_ctxs) [
  | none ↦ w
  | some ctx ↦ stored handle (f ctx w.fake_pool) w
]

-- The body of the loop of `reap_dead_slots`, with what smoltcp says of the socket.
unfoldable pub reap_slot : Bool × Bool → SocketCtx → FakeIpPool → ℕ → Handled
unfolding is_dead rearm_socket
reap_slot (active, close_wait) ctx pool now =
    if is_dead active close_wait ctx then quiet (rearm_socket ctx pool now) else quiet (ctx, pool)

unfoldable pub reap_dead_slots : (ℕ → Bool × Bool) → List ℕ → EventLoop → ℕ → EventLoop
unfolding on_slot reap_slot
reap_dead_slots socket [] w now = w
reap_dead_slots socket (h ∷ handles) w now =
    reap_dead_slots socket handles (on_slot h (λ ctx pool. reap_slot (socket h) ctx pool now) w) now

-- What the loop selects: a slot with something to do, a handshake that ended, bytes of a relay, a DNS
-- query that was read from the device, and the two ticks. The UDP uplink, and the sweep of the UDP
-- associations that comes with the reaping, are not among these events.
pub data Event : Type 0 where
  activity : ℕ → Activity → Event
  handshake_done : ℕ → ℕ → Bool → Bool → Event
  global_rx : ℕ → SendAnswer → Bool → List ℕ → Event
  dns_query : DnsQuery → Event
  reap_tick : (ℕ → Bool × Bool) → List ℕ → Event
  sweep_tick : ℕ → Event

unfoldable pub step : Event → ℕ → EventLoop → EventLoop
unfolding on_slot reap_dead_slots process_listener_activity handle_handshake_done
    handle_remote_payload FakeIp.sweep answer_query
step (activity handle act) now w =
    on_slot handle (λ ctx pool. process_listener_activity act handle ctx pool now) w
step (handshake_done handle epoch result takes) now w =
    on_slot handle (λ ctx pool. handle_handshake_done result takes handle epoch ctx pool now) w
step (global_rx handle answer flushed payload) now w =
    on_slot handle (λ ctx pool. handle_remote_payload answer flushed payload ctx pool now) w
step (dns_query q) now w = record w { fake_pool = (answer_query q w.fake_pool now).1 }
step (reap_tick socket handles) now w = reap_dead_slots socket handles w now
step (sweep_tick ttl) now w = record w { fake_pool = (FakeIp.sweep w.fake_pool now ttl).1 }

-- Events in the order in which they come, each at its time.
abbrev pub run : List (ℕ × Event) → EventLoop → EventLoop
run [] w = w
run ((now, e) ∷ es) w = run es (step e now w)
