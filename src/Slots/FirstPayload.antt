-- ===== src/Slots/FirstPayload.antt =====
-- src/client_tun.rs (`handle_local_payload`): the first payload of a connection opens the upstream.
use mini_vpn.Slots.Moves.{IsSlot, Fine, rearm_socket-Fine}
use mini_vpn.FakeIp.{FakeIpPool}
use mini_vpn.Registry.{
  opening_remote, handshake_pending, SocketCtx, buffer_uplink, max_uplink_buffer,
}
use mini_vpn.Slots.{
  Opening, opens, open_fails, takes_handshake, open_inline, open_spawned, is_pending,
  handle_local_payload, add64,
}
use mini_vpn.Target.{TargetAddr}
use mini_vpn.Base.{
  ℕ, ◌+◌, ◌≤◌, ◌≡◌, refl, inl, inr, Bool, true, false, Option, none, some, List, [], arith, ltb,
  if_cases, length, length-append,
}
use mini_vpn.Base.Keys.{nat_eq, bytes_eq, pair_eq}
use mini_vpn.Base.Map.{contains_key}

buffer_uplink-IsSlot :
    (ctx : SocketCtx) (payload : List ℕ)
    → is_pending ctx.state ≡ true
    → IsSlot ctx
    → IsSlot (buffer_uplink ctx payload).1 × ((buffer_uplink ctx payload).1.fake_ip ≡ ctx.fake_ip)
unfolding buffer_uplink
buffer_uplink-IsSlot ctx payload pending s =
    if_cases (λ (r : Bool × SocketCtx). IsSlot r.1 × (r.1.fake_ip ≡ ctx.fake_ip))
      (ltb max_uplink_buffer (length ctx.uplink_buffer + length payload)) (λ t. (s, refl))
      (λ f. (
        record {
          idle = s.idle;
          down = s.down;
          few = omega (arith, length-append ctx.uplink_buffer payload, not_less f);
          up = λ q. absurd (cc (pending, q));
          pending_shut = s.pending_shut;
          listening_shut = s.listening_shut;
        },
        refl,
      ))
  where
    not_less : {a b : ℕ} → ltb a b ≡ false → b ≤ a
    not_less q = ground (arith, q)

-- An address to hold is one that the pool has a name for.
abbrev pub IsMapped : FakeIpPool → Option ℕ → Type 0
IsMapped pool none = Unit
IsMapped pool (some ip) = contains_key ip pool.ip_to_mapping ≡ true

-- A slot on which nothing is open.
record IsShut (ctx : SocketCtx) : Type 0 where
  no_relay : ctx.uplink_tx ≡ none
  no_address : ctx.fake_ip ≡ none
  no_down : ctx.downlink_pending ≡ []
  no_up : ctx.uplink_buffer ≡ []

IsSlot-IsShut :
    (ctx : SocketCtx)
    → IsSlot ctx
    → ctx.uplink_tx ≡ none
    → is_pending ctx.state ≡ false
    → IsShut ctx
IsSlot-IsShut ctx s e f = record {
  no_relay = e;
  no_address = s.idle e f;
  no_down = s.down e;
  no_up = s.up f;
}

open_inline-Fine :
    (takes : Bool) (handle : ℕ) (payload : List ℕ) (fake : Option ℕ) (ctx : SocketCtx)
    (pool : FakeIpPool) (now : ℕ)
    → IsShut ctx
    → IsMapped pool fake
    → Fine now ctx pool (open_inline takes handle payload fake ctx pool now)
unfolding open_inline
open_inline-Fine false handle payload fake ctx pool now s m = rearm_socket-Fine ctx pool now
open_inline-Fine true handle payload none ctx pool now s m = (
  record {
    idle = λ q. absurd cc;
    down = λ q. s.no_down;
    few = rw s.no_up (omega arith);
    up = λ q. s.no_up;
    pending_shut = λ q. absurd cc;
    listening_shut = λ q. absurd cc;
  },
  inl (refl, refl),
)
open_inline-Fine true handle payload (some ip) ctx pool now s m = (
  record {
    idle = λ q. absurd cc;
    down = λ q. s.no_down;
    few = rw s.no_up (omega arith);
    up = λ q. s.no_up;
    pending_shut = λ q. absurd cc;
    listening_shut = λ q. absurd cc;
  },
  inr (inr (ip, s.no_address, refl, m, refl)),
)

-- The slot that waits for a handshake, before the first payload is put by.
waiting-IsSlot :
    (ctx : SocketCtx) (epoch : ℕ) (fake : Option ℕ)
    → IsShut ctx
    → IsSlot (record ctx { state = handshake_pending; conn_epoch = epoch; fake_ip = fake })
waiting-IsSlot ctx epoch fake s = record {
  idle = λ q f. absurd cc;
  down = λ q. s.no_down;
  few = rw s.no_up (omega arith);
  up = λ q. absurd cc;
  pending_shut = λ q. s.no_relay;
  listening_shut = λ q. absurd cc;
}

open_spawned-Fine :
    (handle : ℕ) (payload : List ℕ) (target : TargetAddr) (fake : Option ℕ) (ctx : SocketCtx)
    (pool : FakeIpPool) (now : ℕ)
    → IsShut ctx
    → IsMapped pool fake
    → Fine now ctx pool (open_spawned handle payload target fake ctx pool now)
unfolding open_spawned
open_spawned-Fine handle payload target none ctx pool now s m =
    let (slot, same) =
      buffer_uplink-IsSlot
        (record ctx { state = handshake_pending; conn_epoch = add64 ctx.conn_epoch 1 }) payload refl
        (waiting-IsSlot ctx (add64 ctx.conn_epoch 1) ctx.fake_ip s) in
    (slot, inl (same, refl))
open_spawned-Fine handle payload target (some ip) ctx pool now s m =
    let (slot, same) =
      buffer_uplink-IsSlot
        (record ctx {
          state = handshake_pending;
          conn_epoch = add64 ctx.conn_epoch 1;
          fake_ip = some ip;
        })
        payload refl (waiting-IsSlot ctx (add64 ctx.conn_epoch 1) (some ip) s) in
    (slot, inr (inr (ip, s.no_address, same, m, refl)))

pub handle_local_payload-Fine :
    (opening : Opening) (handle : ℕ) (payload : List ℕ) (target : TargetAddr) (fake : Option ℕ)
    (ctx : SocketCtx) (pool : FakeIpPool) (now : ℕ)
    → IsSlot ctx
    → ctx.uplink_tx ≡ none
    → IsMapped pool fake
    → Fine now ctx pool
        (handle_local_payload opening handle payload (some target) fake ctx pool now)
unfolding handle_local_payload
handle_local_payload-Fine opening handle payload target fake ctx pool now s e m =
    if_cases (Fine now ctx pool) (is_pending ctx.state)
      (λ t. let (slot, same) = buffer_uplink-IsSlot ctx payload t s in (slot, inl (same, refl)))
      (λ f. opened opening (IsSlot-IsShut ctx s e f))
  where
    shut_in : IsShut ctx → IsShut (record ctx { state = opening_remote })
    shut_in h = record {
      no_relay = h.no_relay;
      no_address = h.no_address;
      no_down = h.no_down;
      no_up = h.no_up;
    }

    opened :
        (o : Opening)
        → IsShut ctx
        → Fine now ctx pool (elim o [
          | opens channel_takes ↦
              open_inline channel_takes handle payload fake
                (record ctx { state = opening_remote })
                pool
                now
          | open_fails ↦ record {
            ctx = record ctx { state = opening_remote };
            pool = pool;
            spawned = none;
            failed = true;
          }
          | takes_handshake ↦ open_spawned handle payload target fake ctx pool now
        ])
    opened (opens takes) h =
        open_inline-Fine takes handle payload fake (record ctx { state = opening_remote }) pool now
          (shut_in h) m
    opened open_fails h = (
      record {
        idle = λ q r. h.no_address;
        down = λ q. h.no_down;
        few = s.few;
        up = λ q. h.no_up;
        pending_shut = λ q. absurd cc;
        listening_shut = λ q. absurd cc;
      },
      inl (refl, refl),
    )
    opened takes_handshake h = open_spawned-Fine handle payload target fake ctx pool now h m
