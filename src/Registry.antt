-- ===== src/Registry.antt =====
-- src/client_tun.rs: the listener slots of each intercepted port (`ListenerRegistry`), and the context
-- that each slot has.
pub mod Counted
mod Tests
use mini_vpn.Base.{
  ℕ, zero, suc, ◌+◌, ◌-◌, ◌*◌, ◌/◌, ◌%◌, ◌^◌, ◌≤◌, ◌<◌, min, max, ◌≡◌, refl, sym, ap, ◌∙◌, ◌≢◌, ◌↔◌,
  ◌⊎◌, inl, inr, Bool, true, false, not, ◌&&◌, ◌||◌, Option, none, some, List, [], ◌∷◌, ◌++◌, map,
  arith, ltb, leb, ◌==◌, ==_iff, ltb→lt, leb→le, if◌then◌else◌, Bool-cases, Option-cases, ◌>>=◌,
  is_some, some_inj, bind_some, length, get_elem?, set, take, drop, replicate, length-append,
  length-take, take-length, length-drop, take-append-drop, length-set, length-replicate,
  take-append, drop-append, drop-append_le, drop-add, get_elem?-append, get_elem?-append_lt,
  take-append_le, All, Distinct, any, any_iff, Some, and_right, or_right, keep,
}
use mini_vpn.Base.Bytes.{
  IsByte, IsU16, IsU32, u16_be, u32_be, be_bytes, length-be_bytes, from_be16, from_be16-u16_be,
  from_be, from_be-be_bytes, from_be-u32_be,
}
use mini_vpn.Base.Keys.{Eq, ◌=?◌, nat_eq, bytes_eq, pair_eq}
use mini_vpn.Base.Map.{
  Map, get, insert, remove, contains_key, retain, update, UniqueKeys, get-insert, get-remove,
  =?_refl, =?_eq, =?_ne, get-update, insert-UniqueKeys, remove-UniqueKeys, update-UniqueKeys,
  Distinct-le, length-remove-le, length-insert-le, length-remove-lt, length-update,
}

abbrev pub max_intercepted_ports : ℕ
max_intercepted_ports = 64

abbrev pub max_total_listeners : ℕ
max_total_listeners = 4096

abbrev pub max_uplink_buffer : ℕ
max_uplink_buffer = 256 * 1024

pub data SocketState : Type 0 where
  listening : SocketState
  opening_remote : SocketState
  handshake_pending : SocketState
  relaying : SocketState
  closing : SocketState
  rearming : SocketState

pub record TcpDownlinkDiag : Type 0 where
  pub remote_to_global_rx_bytes : ℕ
  pub downlink_pending_high_water : ℕ
  pub send_slice_calls : ℕ
  pub send_slice_accepted_bytes : ℕ
  pub send_slice_zero : ℕ
  pub send_slice_errors : ℕ
  pub tun_flush_tx_calls : ℕ
  pub tun_flush_tx_failures : ℕ

abbrev pub no_diag : TcpDownlinkDiag
no_diag = record {
  remote_to_global_rx_bytes = 0;
  downlink_pending_high_water = 0;
  send_slice_calls = 0;
  send_slice_accepted_bytes = 0;
  send_slice_zero = 0;
  send_slice_errors = 0;
  tun_flush_tx_calls = 0;
  tun_flush_tx_failures = 0;
}

-- The channel to the relay task is given by the payloads sent through it, first one first.
pub record SocketCtx : Type 0 where
  pub local_port : ℕ
  pub state : SocketState
  pub uplink_tx : Option (List (List ℕ))
  pub downlink_pending : List ℕ
  pub fake_ip : Option ℕ
  pub conn_epoch : ℕ
  pub uplink_buffer : List ℕ
  pub downlink_diag : TcpDownlinkDiag

unfoldable pub new_ctx : ℕ → SocketCtx
new_ctx local_port = record {
  local_port = local_port;
  state = listening;
  uplink_tx = none;
  downlink_pending = [];
  fake_ip = none;
  conn_epoch = 0;
  uplink_buffer = [];
  downlink_diag = no_diag;
}

unfoldable pub buffer_uplink : SocketCtx → List ℕ → Bool × SocketCtx
buffer_uplink self payload =
    if ltb max_uplink_buffer (length self.uplink_buffer + length payload)
    then (false, self)
    else (true, record self { uplink_buffer = self.uplink_buffer ++ payload })

pub record ListenerRegistry : Type 0 where
  pub ports : Map ℕ (List ℕ)
  pub pool_size : ℕ
  pub max_total : ℕ
  pub total : ℕ

unfoldable pub new : ℕ → ListenerRegistry
new pool_size = record {
  ports = [];
  pool_size = pool_size;
  max_total = max_total_listeners;
  total = 0;
}

unfoldable pub total_handles : ListenerRegistry → ℕ
total_handles self = self.total

unfoldable pub handles_for_port : ListenerRegistry → ℕ → List ℕ
unfolding get
handles_for_port self port = elim (get port self.ports) [ none ↦ [] | some handles ↦ handles ]

pub record World (K : Type 0) : Type 0 where
  pub registry : ListenerRegistry
  pub sockets : K
  pub socket_ctxs : Map ℕ SocketCtx

-- The listening sockets among some handles.
abbrev pub count_listening : (ℕ → Bool) → List ℕ → ℕ
count_listening p [] = 0
count_listening p (h ∷ hs) = (if p h then 1 else 0) + count_listening p hs

-- The set of sockets is smoltcp's: `add` gives a handle to a new socket that listens on the port,
-- and `is_listen` is whether a handle's socket does. `false` stands for `RegistryError::Capped`.
module _ {K : Type 0} (add : ℕ → K → ℕ × K) (is_listen : K → ℕ → Bool) where
  -- The loop over `0..pool_size`: the handles made, in order, with the sockets and contexts.
  unfoldable pub add_slots : ℕ → ℕ → K → Map ℕ SocketCtx → List ℕ × K × Map ℕ SocketCtx
  unfolding insert new_ctx
  add_slots zero port sockets ctxs = ([], sockets, ctxs)
  add_slots (suc n) port sockets ctxs =
      let (h, more) = add port sockets in
      let (handles, all, slots) = add_slots n port more (insert h (new_ctx port) ctxs) in
      (h ∷ handles, all, slots)

  unfoldable pub ensure_port : World K → ℕ → Bool × World K
  unfolding contains_key insert add_slots
  ensure_port w port =
      if contains_key port w.registry.ports
      then (true, w)
      else if leb max_intercepted_ports (length w.registry.ports)
      then (false, w)
      else let (handles, sockets, ctxs) =
          add_slots w.registry.pool_size port w.sockets w.socket_ctxs in
        (
          true,
          record {
            registry = record w.registry {
              total = w.registry.total + w.registry.pool_size;
              ports = insert port handles w.registry.ports;
            };
            sockets = sockets;
            socket_ctxs = ctxs;
          },
        )

  -- One slot more for a port that is registered.
  unfoldable pub add_spare : ℕ → World K → World K
  unfolding update insert new_ctx
  add_spare port w =
      let (h, more) = add port w.sockets in
      record {
        registry = record w.registry {
          ports = update port (λ hs. hs ++ h ∷ []) w.registry.ports;
          total = w.registry.total + 1;
        };
        sockets = more;
        socket_ctxs = insert h (new_ctx port) w.socket_ctxs;
      }

  -- The loop over `listening..min_spare`.
  unfoldable pub add_spares : ℕ → ℕ → World K → Bool × World K
  unfolding add_spare total_handles
  add_spares zero port w = (true, w)
  add_spares (suc n) port w =
      let rest = add_spares n port (add_spare port w) in
      if leb w.registry.max_total (total_handles w.registry) then (false, w) else rest

  unfoldable pub ensure_spare_listeners : World K → ℕ → ℕ → Bool × World K
  unfolding contains_key handles_for_port add_spares
  ensure_spare_listeners w port min_spare =
      let spare = count_listening (is_listen w.sockets) (handles_for_port w.registry port) in
      if not (contains_key port w.registry.ports)
      then (true, w)
      else if leb min_spare spare
      then (true, w)
      else add_spares (min_spare - spare) port w
