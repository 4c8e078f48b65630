-- ===== src/Slots.antt =====
-- src/client_tun.rs: the life of a listener slot, from the first payload of an intercepted connection
-- to the slot's return to listening. What smoltcp, the channels and the upstream answer are inputs.
pub mod Moves
pub mod FirstPayload
pub mod Handlers
pub mod EventLoop
pub mod Bytes
mod Tests
use mini_vpn.FakeIp as FakeIp
use mini_vpn.FakeIp.{FakeIpPool, acquire, release}
use mini_vpn.Registry.{
  SocketState, listening, opening_remote, handshake_pending, relaying, closing, rearming,
  TcpDownlinkDiag, no_diag, SocketCtx, buffer_uplink,
}
use mini_vpn.Target.{SocketAddr, TargetAddr}
use mini_vpn.Uplink.{TargetResolve, direct, refuse, block, resolve_target}
use mini_vpn.Base.{
  ℕ, zero, suc, ◌+◌, ◌-◌, ◌*◌, ◌/◌, ◌%◌, ◌^◌, ◌≤◌, ◌<◌, min, max, ◌≡◌, refl, sym, ap, ◌∙◌, ◌≢◌, ◌↔◌,
  ◌⊎◌, inl, inr, Bool, true, false, not, ◌&&◌, ◌||◌, Option, none, some, List, [], ◌∷◌, ◌++◌, map,
  arith, ltb, leb, ◌==◌, ==_iff, ltb→lt, leb→le, if◌then◌else◌, Bool-cases, if_cases, if_intro,
  Option-cases, ◌>>=◌, is_some, some_inj, bind_some, length, get_elem?, set, take, drop, replicate,
  length-append, length-take, take-length, length-drop, take-append-drop, length-set,
  length-replicate, take-append, drop-append, drop-append_le, drop-add, get_elem?-append,
  get_elem?-append_lt, take-append_le, All, Distinct, any, any_iff, Some, and_right, or_right, keep,
  concat,
}
use mini_vpn.Base.Bytes.{
  IsByte, IsU16, IsU32, u16_be, u32_be, be_bytes, length-be_bytes, from_be16, from_be16-u16_be,
  from_be, from_be-be_bytes, from_be-u32_be,
}
use mini_vpn.Base.Results.{Result, ok, err, and_then, and_then_ok, and_then_intro, ok_or, ok_inj}
use mini_vpn.Base.Keys.{Eq, ◌=?◌, nat_eq, bytes_eq, pair_eq}
use mini_vpn.Base.Map.{
  Map, get, insert, remove, contains_key, retain, update, UniqueKeys, get-insert, get-remove,
  =?_refl, =?_eq, =?_ne, get-update, insert-UniqueKeys, remove-UniqueKeys, update-UniqueKeys,
  Distinct-le, length-remove-le, length-insert-le, length-remove-lt, length-update,
}

-- Counters of 64 bits that wrap in a release build.
abbrev pub add64 : ℕ → ℕ → ℕ
add64 a b = (a + b) % 2 ^ 64

unfoldable pub note_pending : TcpDownlinkDiag → ℕ → TcpDownlinkDiag
note_pending self pending_current = record self {
  downlink_pending_high_water = max self.downlink_pending_high_water pending_current;
}

unfoldable pub note_remote_payload : TcpDownlinkDiag → ℕ → ℕ → TcpDownlinkDiag
unfolding note_pending
note_remote_payload self bytes pending_current =
    note_pending
      (record self { remote_to_global_rx_bytes = add64 self.remote_to_global_rx_bytes bytes })
      pending_current

unfoldable pub note_send_slice_ok : TcpDownlinkDiag → ℕ → ℕ → TcpDownlinkDiag
unfolding note_pending
note_send_slice_ok self accepted pending_current =
    note_pending
      (record self {
        send_slice_calls = add64 self.send_slice_calls 1;
        send_slice_accepted_bytes = add64 self.send_slice_accepted_bytes accepted;
        send_slice_zero =
            if accepted == 0 then add64 self.send_slice_zero 1 else self.send_slice_zero;
      })
      pending_current

unfoldable pub note_send_slice_error : TcpDownlinkDiag → TcpDownlinkDiag
note_send_slice_error self = record self {
  send_slice_calls = add64 self.send_slice_calls 1;
  send_slice_errors = add64 self.send_slice_errors 1;
}

unfoldable pub note_tun_flush : TcpDownlinkDiag → Bool → TcpDownlinkDiag
note_tun_flush self ok_ = record self {
  tun_flush_tx_calls = add64 self.tun_flush_tx_calls 1;
  tun_flush_tx_failures =
      if not ok_ then add64 self.tun_flush_tx_failures 1 else self.tun_flush_tx_failures;
}

-- What the socket says when bytes are offered: `can_send` is false, `send_slice` takes a number of
-- them, or it fails.
pub data SendAnswer : Type 0 where
  cannot_send : SendAnswer
  accepts : ℕ → SendAnswer
  send_fails : SendAnswer

unfoldable pub flush_downlink : SendAnswer → SocketCtx → SocketCtx
unfolding note_pending note_send_slice_ok note_send_slice_error
flush_downlink answer ctx =
    let seen = note_pending ctx.downlink_diag (length ctx.downlink_pending) in
    if length ctx.downlink_pending == 0 then ctx else elim answer [
      | cannot_send ↦ record ctx { downlink_diag = seen }
      | accepts n ↦ record ctx {
        downlink_pending = drop n ctx.downlink_pending;
        downlink_diag = note_send_slice_ok seen n (length (drop n ctx.downlink_pending));
      }
      | send_fails ↦ record ctx {
        downlink_pending = [];
        downlink_diag = note_pending (note_send_slice_error seen) 0;
      }
    ]

-- The slot's context with the pool. The socket's `abort` and `listen` are smoltcp's.
unfoldable pub rearm_socket : SocketCtx → FakeIpPool → ℕ → SocketCtx × FakeIpPool
unfolding release
rearm_socket ctx pool now = (
  record ctx {
    state = listening;
    uplink_tx = none;
    downlink_pending = [];
    downlink_diag = no_diag;
    uplink_buffer = [];
    conn_epoch = add64 ctx.conn_epoch 1;
    fake_ip = none;
  },
  elim ctx.fake_ip [ none ↦ pool | some ip ↦ release pool ip now ],
)

-- What a handler leaves to a task of its own: the relay of a slot, or a handshake.
pub data Spawned : Type 0 where
  relay : ℕ → Spawned
  handshake : ℕ → ℕ → TargetAddr → Spawned

-- A slot and the pool after a handler, with the task it spawned and whether it failed.
pub record Handled : Type 0 where
  pub ctx : SocketCtx
  pub pool : FakeIpPool
  pub spawned : Option Spawned
  pub failed : Bool

abbrev pub quiet : SocketCtx × FakeIpPool → Handled
quiet (ctx, pool) = record { ctx = ctx; pool = pool; spawned = none; failed = false }

-- What the upstream is and answers: a cheap one opens at once, or fails; another takes a handshake.
-- A new channel takes the first payload, or not.
pub data Opening : Type 0 where
  opens : Bool → Opening
  open_fails : Opening
  takes_handshake : Opening

abbrev pub acquire_for : Option ℕ → SocketCtx × FakeIpPool → ℕ → SocketCtx × FakeIpPool
acquire_for none (ctx, pool) now = (ctx, pool)
acquire_for (some ip) (ctx, pool) now = (record ctx { fake_ip = some ip }, acquire pool ip now)

unfoldable pub open_inline : Bool → ℕ → List ℕ → Option ℕ → SocketCtx → FakeIpPool → ℕ → Handled
unfolding rearm_socket acquire
open_inline channel_takes handle payload fake_ip ctx pool now =
    let (next, more) =
      acquire_for fake_ip (record ctx { uplink_tx = some (payload ∷ []); state = relaying }, pool)
        now in
    if channel_takes
    then record { ctx = next; pool = more; spawned = some (relay handle); failed = false }
    else quiet (rearm_socket ctx pool now)

unfoldable pub open_spawned :
    ℕ → List ℕ → TargetAddr → Option ℕ → SocketCtx → FakeIpPool → ℕ → Handled
unfolding acquire buffer_uplink
open_spawned handle payload target fake_ip ctx pool now =
    let epoch = add64 ctx.conn_epoch 1 in
    let (next, more) =
      acquire_for fake_ip (record ctx { state = handshake_pending; conn_epoch = epoch }, pool)
        now in
    record {
      ctx = (buffer_uplink next payload).1;
      pool = more;
      spawned = some (handshake handle epoch target);
      failed = false;
    }

abbrev pub is_pending : SocketState → Bool
is_pending handshake_pending = true
is_pending listening = false
is_pending opening_remote = false
is_pending relaying = false
is_pending closing = false
is_pending rearming = false

unfoldable pub handle_local_payload :
    Opening → ℕ → List ℕ → Option TargetAddr → Option ℕ → SocketCtx → FakeIpPool → ℕ → Handled
unfolding open_inline open_spawned buffer_uplink
handle_local_payload opening handle payload target fake_ip ctx pool now =
    if is_pending ctx.state then quiet ((buffer_uplink ctx payload).1, pool) else elim target [
      | none ↦ quiet (ctx, pool)
      | some to ↦ elim opening [
        | opens channel_takes ↦
            open_inline channel_takes handle payload fake_ip (record ctx { state = opening_remote })
              pool now
        | open_fails ↦ record {
          ctx = record ctx { state = opening_remote };
          pool = pool;
          spawned = none;
          failed = true;
        }
        | takes_handshake ↦ open_spawned handle payload to fake_ip ctx pool now
      ]
    ]

-- What `try_reserve` on the channel to the relay says.
pub data Reserve : Type 0 where
  permit : Reserve
  full : Reserve
  closed : Reserve

-- What one slot meets in a turn of the loop: the answer to the downlink bytes, the channel's answer,
-- the payload that the socket holds with its local endpoint, and the upstream's answer.
pub record Activity : Type 0 where
  pub send : SendAnswer
  pub reserve : Reserve
  pub payload : Option (List ℕ)
  pub endpoint : Option SocketAddr
  pub opening : Opening

-- The uplink of a slot whose relay is open.
unfoldable pub established_uplink :
    Reserve → Option (List ℕ) → List (List ℕ) → SocketCtx → FakeIpPool → ℕ → Handled
unfolding rearm_socket
established_uplink permit (some payload) sent ctx pool now =
    quiet (record ctx { uplink_tx = some (sent ++ payload ∷ []); state = relaying }, pool)
established_uplink permit none sent ctx pool now = quiet (ctx, pool)
established_uplink full payload sent ctx pool now = quiet (ctx, pool)
established_uplink closed payload sent ctx pool now = quiet (rearm_socket ctx pool now)

-- The first payload of a connection, and where it is to go.
unfoldable pub first_payload :
    Activity → ℕ → List ℕ → TargetResolve → SocketCtx → FakeIpPool → ℕ → Handled
unfolding handle_local_payload rearm_socket
first_payload act handle payload (direct target fake_ip) ctx pool now =
    handle_local_payload act.opening handle payload (some target) fake_ip ctx pool now
first_payload act handle payload refuse ctx pool now = quiet (rearm_socket ctx pool now)
first_payload act handle payload block ctx pool now = quiet (rearm_socket ctx pool now)

-- What follows once the downlink bytes were offered.
unfoldable pub after_flush : Activity → ℕ → SocketCtx → FakeIpPool → ℕ → Handled
unfolding established_uplink first_payload resolve_target
after_flush act handle ctx pool now = elim ctx.uplink_tx [
  | some sent ↦ established_uplink act.reserve act.payload sent ctx pool now
  | none ↦ elim act.payload [
    | none ↦ quiet (ctx, pool)
    | some payload ↦ elim act.endpoint [
      | none ↦ quiet (ctx, pool)
      | some endpoint ↦ first_payload act handle payload (resolve_target endpoint pool) ctx pool now
    ]
  ]
]

unfoldable pub process_listener_activity : Activity → ℕ → SocketCtx → FakeIpPool → ℕ → Handled
unfolding flush_downlink after_flush
process_listener_activity act handle ctx pool now =
    after_flush act handle (flush_downlink act.send ctx) pool now

-- `result` says whether the handshake gave a stream, `channel_takes` whether the new channel takes
-- the buffered bytes.
unfoldable pub handle_handshake_done : Bool → Bool → ℕ → ℕ → SocketCtx → FakeIpPool → ℕ → Handled
unfolding rearm_socket
handle_handshake_done result channel_takes handle epoch ctx pool now =
    if not (ctx.conn_epoch == epoch)
    then quiet (ctx, pool)
    else if not (is_pending ctx.state)
    then quiet (ctx, pool)
    else if not result
    then quiet (rearm_socket ctx pool now)
    else if length ctx.uplink_buffer == 0
    then record {
      ctx = record ctx { uplink_tx = some []; state = relaying };
      pool = pool;
      spawned = some (relay handle);
      failed = false;
    }
    else if channel_takes
    then record {
      ctx = record ctx {
        uplink_tx = some (ctx.uplink_buffer ∷ []);
        uplink_buffer = [];
        state = relaying;
      };
      pool = pool;
      spawned = some (relay handle);
      failed = false;
    }
    else quiet (rearm_socket (record ctx { uplink_buffer = [] }) pool now)

-- `flushed` says whether the packets went out on the TUN device.
unfoldable pub handle_remote_payload :
    SendAnswer → Bool → List ℕ → SocketCtx → FakeIpPool → ℕ → Handled
unfolding rearm_socket flush_downlink note_remote_payload note_tun_flush
handle_remote_payload answer flushed payload ctx pool now =
    let pending = ctx.downlink_pending ++ payload in
    let filled = flush_downlink answer (record ctx {
      downlink_pending = pending;
      downlink_diag = note_remote_payload ctx.downlink_diag (length payload) (length pending);
    }) in
    if length payload == 0
    then quiet (rearm_socket ctx pool now)
    else if not (is_some ctx.uplink_tx)
    then quiet (ctx, pool)
    else record {
      ctx = record filled {
        state = relaying;
        downlink_diag = note_tun_flush filled.downlink_diag flushed;
      };
      pool = pool;
      spawned = none;
      failed = not flushed;
    }

abbrev pub is_listening : SocketState → Bool
is_listening listening = true
is_listening opening_remote = false
is_listening handshake_pending = false
is_listening relaying = false
is_listening closing = false
is_listening rearming = false

abbrev pub is_opening : SocketState → Bool
is_opening opening_remote = true
is_opening listening = false
is_opening handshake_pending = false
is_opening relaying = false
is_opening closing = false
is_opening rearming = false

-- What smoltcp says of a socket: whether it is active, and whether it is in `CloseWait`.
unfoldable pub is_dead : Bool → Bool → SocketCtx → Bool
is_dead active close_wait ctx =
    not (is_listening ctx.state)
    && (not active || close_wait || (is_opening ctx.state && not (is_some ctx.uplink_tx)))
