-- ===== src/Slots/EventLoop/Epochs.antt =====
-- src/client_tun.rs: the epoch of a slot. The result of a handshake that was given up is not taken
-- for one of a later connection.
use mini_vpn.FakeIp.{FakeIpPool}
use mini_vpn.Registry.{SocketCtx, buffer_uplink, max_uplink_buffer, opening_remote}
use mini_vpn.Slots.{
  SendAnswer, flush_downlink, rearm_socket, Handled, quiet, Opening, opens, open_fails,
  takes_handshake, open_inline, open_spawned, is_pending, handle_local_payload, Reserve, permit,
  full, closed, Activity, established_uplink, first_payload, after_flush, process_listener_activity,
  handle_handshake_done, handle_remote_payload, note_remote_payload, add64, is_dead,
}
use mini_vpn.Slots.Moves.{flush_downlink_same}
use mini_vpn.Slots.EventLoop.{reap_slot}
use mini_vpn.Target.{TargetAddr}
use mini_vpn.Uplink.{TargetResolve, direct, refuse, block, resolve_target}
use mini_vpn.Base.{
  ℕ, ◌+◌, ◌≡◌, refl, ◌⊎◌, inl, inr, Bool, true, false, not, Option, none, some, List, [], ◌++◌, ltb,
  ◌==◌, if_intro, Option-cases, is_some, length,
}
use mini_vpn.Base.Keys.{nat_eq, bytes_eq, pair_eq}

-- An epoch that may have gone on by one.
abbrev pub Advances : ℕ → Handled → Type 0
Advances epoch h = (h.ctx.conn_epoch ≡ epoch) ⊎ (h.ctx.conn_epoch ≡ add64 epoch 1)

rearm-Advances :
    (ctx : SocketCtx) (pool : FakeIpPool) (now : ℕ)
    → Advances ctx.conn_epoch (quiet (rearm_socket ctx pool now))
unfolding rearm_socket
rearm-Advances ctx pool now = inr refl

buffer_uplink_epoch :
    (ctx : SocketCtx) (p : List ℕ) → (buffer_uplink ctx p).1.conn_epoch ≡ ctx.conn_epoch
unfolding buffer_uplink
buffer_uplink_epoch ctx p =
    if_intro (λ (r : Bool × SocketCtx). r.1.conn_epoch ≡ ctx.conn_epoch)
      (ltb max_uplink_buffer (length ctx.uplink_buffer + length p)) refl refl

open_inline-Advances :
    (takes : Bool) (k : ℕ) (p : List ℕ) (fake : Option ℕ) (ctx : SocketCtx) (pool : FakeIpPool)
    (now : ℕ)
    → Advances ctx.conn_epoch (open_inline takes k p fake ctx pool now)
unfolding open_inline
open_inline-Advances true k p none ctx pool now = inl refl
open_inline-Advances true k p (some ip) ctx pool now = inl refl
open_inline-Advances false k p fake ctx pool now = rearm-Advances ctx pool now

open_spawned-Advances :
    (k : ℕ) (p : List ℕ) (target : TargetAddr) (fake : Option ℕ) (ctx : SocketCtx)
    (pool : FakeIpPool) (now : ℕ)
    → Advances ctx.conn_epoch (open_spawned k p target fake ctx pool now)
unfolding open_spawned
open_spawned-Advances k p target none ctx pool now = inr (buffer_uplink_epoch _ p)
open_spawned-Advances k p target (some ip) ctx pool now = inr (buffer_uplink_epoch _ p)

handle_local_payload-Advances :
    (o : Opening) (k : ℕ) (p : List ℕ) (target : TargetAddr) (fake : Option ℕ) (ctx : SocketCtx)
    (pool : FakeIpPool) (now : ℕ)
    → Advances ctx.conn_epoch (handle_local_payload o k p (some target) fake ctx pool now)
unfolding handle_local_payload
handle_local_payload-Advances (opens takes) k p target fake ctx pool now =
    if_intro (Advances ctx.conn_epoch) (is_pending ctx.state) (inl (buffer_uplink_epoch ctx p))
      (open_inline-Advances takes k p fake (record ctx { state = opening_remote }) pool now)
handle_local_payload-Advances open_fails k p target fake ctx pool now =
    if_intro (Advances ctx.conn_epoch) (is_pending ctx.state) (inl (buffer_uplink_epoch ctx p))
      (inl refl)
handle_local_payload-Advances takes_handshake k p target fake ctx pool now =
    if_intro (Advances ctx.conn_epoch) (is_pending ctx.state) (inl (buffer_uplink_epoch ctx p))
      (open_spawned-Advances k p target fake ctx pool now)

first_payload-Advances :
    (act : Activity) (k : ℕ) (p : List ℕ) (r : TargetResolve) (ctx : SocketCtx) (pool : FakeIpPool)
    (now : ℕ)
    → Advances ctx.conn_epoch (first_payload act k p r ctx pool now)
unfolding first_payload
first_payload-Advances act k p (direct target fake) ctx pool now =
    handle_local_payload-Advances act.opening k p target fake ctx pool now
first_payload-Advances act k p refuse ctx pool now = rearm-Advances ctx pool now
first_payload-Advances act k p block ctx pool now = rearm-Advances ctx pool now

established_uplink-Advances :
    (r : Reserve) (p : Option (List ℕ)) (sent : List (List ℕ)) (ctx : SocketCtx) (pool : FakeIpPool)
    (now : ℕ)
    → Advances ctx.conn_epoch (established_uplink r p sent ctx pool now)
unfolding established_uplink
established_uplink-Advances permit (some p) sent ctx pool now = inl refl
established_uplink-Advances permit none sent ctx pool now = inl refl
established_uplink-Advances full p sent ctx pool now = inl refl
established_uplink-Advances closed p sent ctx pool now = rearm-Advances ctx pool now

after_flush-Advances :
    (act : Activity) (k : ℕ) (ctx : SocketCtx) (pool : FakeIpPool) (now : ℕ)
    → Advances ctx.conn_epoch (after_flush act k ctx pool now)
unfolding after_flush
after_flush-Advances act k ctx pool now = elim (Option-cases ctx.uplink_tx) [
  | inr (sent, e) ↦
      rw (e, after_flush) (established_uplink-Advances act.reserve act.payload sent ctx pool now)
  | inl e ↦ elim (Option-cases act.payload) [
    | inl p ↦ rw (e, after_flush, p) (inl refl)
    | inr (payload, p) ↦ elim (Option-cases act.endpoint) [
      | inl q ↦ rw (e, after_flush, p, q) (inl refl)
      | inr (endpoint, q) ↦
          rw (e, after_flush, p, q)
            (first_payload-Advances act k payload (resolve_target endpoint pool) ctx pool now)
    ]
  ]
]

pub process-Advances :
    (act : Activity) (k : ℕ) (ctx : SocketCtx) (pool : FakeIpPool) (now : ℕ)
    → Advances ctx.conn_epoch (process_listener_activity act k ctx pool now)
unfolding process_listener_activity
process-Advances act k ctx pool now =
    let (fake, up, state, buf, epoch, down) = flush_downlink_same act.send ctx in
    let a = after_flush-Advances act k (flush_downlink act.send ctx) pool now in rw epoch at a

pub done-Advances :
    (result takes : Bool) (k epoch : ℕ) (ctx : SocketCtx) (pool : FakeIpPool) (now : ℕ)
    → Advances ctx.conn_epoch (handle_handshake_done result takes k epoch ctx pool now)
unfolding handle_handshake_done
done-Advances result takes k epoch ctx pool now =
    let P = Advances ctx.conn_epoch in
    if_intro P (not (ctx.conn_epoch == epoch)) (inl refl) (
      if_intro P (not (is_pending ctx.state)) (inl refl) (
        if_intro P (not result) (rearm-Advances ctx pool now) (
          if_intro P (length ctx.uplink_buffer == 0) (inl refl) (
            if_intro P takes (inl refl)
              (rearm-Advances (record ctx { uplink_buffer = [] }) pool now)))))

pub remote-Advances :
    (answer : SendAnswer) (flushed : Bool) (payload : List ℕ) (ctx : SocketCtx) (pool : FakeIpPool)
    (now : ℕ)
    → Advances ctx.conn_epoch (handle_remote_payload answer flushed payload ctx pool now)
unfolding handle_remote_payload
remote-Advances answer flushed payload ctx pool now =
    let pending = ctx.downlink_pending ++ payload in
    let filled = record ctx {
      downlink_pending = pending;
      downlink_diag = note_remote_payload ctx.downlink_diag (length payload) (length pending);
    } in
    let (fake, up, state, buf, epoch, down) = flush_downlink_same answer filled in
    let P = Advances ctx.conn_epoch in
    if_intro P (length payload == 0) (rearm-Advances ctx pool now)
      (if_intro P (not (is_some ctx.uplink_tx)) (inl refl) (inl epoch))

pub reap-Advances :
    (socket : Bool × Bool) (ctx : SocketCtx) (pool : FakeIpPool) (now : ℕ)
    → Advances ctx.conn_epoch (reap_slot socket ctx pool now)
unfolding reap_slot
reap-Advances (active, close_wait) ctx pool now =
    if_intro (Advances ctx.conn_epoch) (is_dead active close_wait ctx) (rearm-Advances ctx pool now)
      (inl refl)
