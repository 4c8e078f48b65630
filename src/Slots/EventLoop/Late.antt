-- ===== src/Slots/EventLoop/Late.antt =====
-- src/client_tun.rs (`handle_handshake_done`): the result of a handshake whose slot was rearmed in
-- the meantime is dropped, whatever happened to the slot since.
use mini_vpn.FakeIp.{FakeIpPool}
use mini_vpn.Registry.{SocketCtx}
use mini_vpn.Slots.{
  Handled, quiet, rearm_socket, add64, process_listener_activity, handle_handshake_done,
  handle_remote_payload,
}
use mini_vpn.Slots.EventLoop.Epochs.{
  Advances, process-Advances, done-Advances, remote-Advances, reap-Advances,
}
use mini_vpn.Slots.EventLoop.{
  EventLoop, stored, on_slot, reap_slot, reap_dead_slots, Event, activity, handshake_done,
  global_rx, dns_query, reap_tick, sweep_tick, step, run,
}
use mini_vpn.Base.{
  ℕ, ◌+◌, ◌%◌, ◌^◌, ◌≤◌, ◌<◌, ◌≡◌, refl, sym, ap, ◌∙◌, ◌≢◌, inl, inr, Bool, true, false, some, List,
  [], ◌∷◌, arith, ◌==◌, ==_iff, Bool-cases, Option-cases, some_inj, length,
}
use mini_vpn.Base.Keys.{◌=?◌, nat_eq, bytes_eq, pair_eq}
use mini_vpn.Base.Map.{Map, get, insert, get-insert, =?_eq, =?_refl}

-- The slot is there, and its epoch has gone on from `base` by at most `n`.
abbrev pub Within : EventLoop → ℕ → ℕ → ℕ → Type 0
Within w k base n =
    (ctx : SocketCtx) × (d : ℕ) × (get k w.socket_ctxs ≡ some ctx)
    × (ctx.conn_epoch ≡ (base + d) % 2 ^ 64)
    × (d ≤ n)

-- How often an event may renew the epoch of a slot.
abbrev pub cost : Event → ℕ
cost (activity k act) = 1
cost (handshake_done k epoch result takes) = 1
cost (global_rx k answer flushed payload) = 1
cost (dns_query q) = 0
cost (reap_tick socket handles) = length handles
cost (sweep_tick ttl) = 0

abbrev pub total_cost : List (ℕ × Event) → ℕ
total_cost [] = 0
total_cost ((now, e) ∷ es) = cost e + total_cost es

renewed :
    (k base n d : ℕ) (ctx c : SocketCtx) (m : Map ℕ SocketCtx) (h : Handled)
    → ctx.conn_epoch ≡ (base + d) % 2 ^ 64
    → d ≤ n
    → get k m ≡ some h.ctx
    → c ≡ ctx
    → Advances c.conn_epoch h
    → (next : SocketCtx) × (i : ℕ) × (get k m ≡ some next)
      × (next.conn_epoch ≡ (base + i) % 2 ^ 64)
      × (i ≤ n + 1)
renewed k base n d ctx c m h epoch small q here (inl a) =
    (h.ctx, d, q, a ∙ ap (λ (x : SocketCtx). x.conn_epoch) here ∙ epoch, omega (arith, small))
renewed k base n d ctx c m h epoch small q here (inr a) =
    let was = ap (λ (x : SocketCtx). x.conn_epoch) here ∙ epoch in
    let next : add64 ((base + d) % 2 ^ 64) 1 ≡ (base + (d + 1)) % 2 ^ 64 = omega arith in
    (h.ctx, d + 1, q, a ∙ ap (λ (x : ℕ). add64 x 1) was ∙ next, omega (arith, small))

on_slot-Within :
    (j k base n : ℕ) (f : SocketCtx → FakeIpPool → Handled) (w : EventLoop)
    → ((ctx : SocketCtx) → Advances ctx.conn_epoch (f ctx w.fake_pool))
    → Within w k base n
    → Within (on_slot j f w) k base (n + 1)
unfolding on_slot stored
on_slot-Within j k base n f w adv (ctx, d, e, epoch, small) =
    elim (Option-cases (get j w.socket_ctxs)) [
      | inl gone ↦ rw (on_slot, gone) (ctx, d, e, epoch, omega (arith, small))
      | inr (c, found) ↦
          let h = f c w.fake_pool in
          let changed = get-insert j k h.ctx w.socket_ctxs in
          elim (Bool-cases (j =? k)) [
            | inr apart ↦
                rw (on_slot, found) (ctx, d, changed ∙ rw apart e, epoch, omega (arith, small))
            | inl same ↦
                let here : c ≡ ctx =
                  some_inj (sym found ∙ ap (λ (x : ℕ). get x w.socket_ctxs) (=?_eq j k same) ∙ e) in
                rw (on_slot, found)
                  (renewed k base n d ctx c (insert j h.ctx w.socket_ctxs) h epoch small
                    (changed ∙ rw same refl) here (adv c))
          ]
    ]

reap-Within :
    (k base n : ℕ) (socket : ℕ → Bool × Bool) (handles : List ℕ) (w : EventLoop) (now : ℕ)
    → Within w k base n
    → Within (reap_dead_slots socket handles w now) k base (n + length handles)
unfolding reap_dead_slots
reap-Within k base n socket [] w now (ctx, d, e, epoch, small) =
    (ctx, d, e, epoch, omega (arith, small))
reap-Within k base n socket (h ∷ handles) w now s =
    let first =
      on_slot-Within h k base n (λ ctx pool. reap_slot (socket h) ctx pool now) w
        (λ ctx. reap-Advances (socket h) ctx w.fake_pool now) s in
    let (ctx, d, e, epoch, small) = reap-Within k base (n + 1) socket handles _ now first in
    (ctx, d, e, epoch, omega (arith, small))

step-Within :
    (k base n : ℕ) (e : Event) (now : ℕ) (w : EventLoop)
    → Within w k base n
    → Within (step e now w) k base (n + cost e)
unfolding step
step-Within k base n (activity j act) now w s =
    on_slot-Within j k base n (λ ctx pool. process_listener_activity act j ctx pool now) w
      (λ ctx. process-Advances act j ctx w.fake_pool now) s
step-Within k base n (handshake_done j epoch result takes) now w s =
    on_slot-Within j k base n (λ ctx pool. handle_handshake_done result takes j epoch ctx pool now)
      w (λ ctx. done-Advances result takes j epoch ctx w.fake_pool now) s
step-Within k base n (global_rx j answer flushed payload) now w s =
    on_slot-Within j k base n
      (λ ctx pool. handle_remote_payload answer flushed payload ctx pool now) w
      (λ ctx. remote-Advances answer flushed payload ctx w.fake_pool now) s
step-Within k base n (reap_tick socket handles) now w s =
    reap-Within k base n socket handles w now s
step-Within k base n (dns_query q) now w (ctx, d, e, epoch, small) =
    (ctx, d, e, epoch, omega (arith, small))
step-Within k base n (sweep_tick ttl) now w (ctx, d, e, epoch, small) =
    (ctx, d, e, epoch, omega (arith, small))

run-Within :
    (k base n : ℕ) (es : List (ℕ × Event)) (w : EventLoop)
    → Within w k base n
    → Within (run es w) k base (n + total_cost es)
run-Within k base n [] w (ctx, d, e, epoch, small) = (ctx, d, e, epoch, omega (arith, small))
run-Within k base n ((now, e) ∷ es) w s =
    let (ctx, d, q, epoch, small) =
      run-Within k base (n + cost e) es (step e now w) (step-Within k base n e now w s) in
    (ctx, d, q, epoch, omega (arith, small))

insert_same : (k : ℕ) (c : SocketCtx) (m : Map ℕ SocketCtx) → get k m ≡ some c → insert k c m ≡ m
unfolding get insert
insert_same k c [] h = absurd cc
insert_same k c ((j, d) ∷ m) h = elim (Bool-cases (j =? k)) [
  | inl t ↦
      let same : d ≡ c = some_inj (let x : some d ≡ some c = rw t at h in x) in
      rw (t, same, =?_eq j k t) refl
  | inr f ↦ rw f (ap (◌∷◌ (j, d)) (insert_same k c m (let x : get k m ≡ some c = rw f at h in x)))
]

stale_done :
    (k epoch now : ℕ) (result takes : Bool) (ctx : SocketCtx) (w : EventLoop)
    → get k w.socket_ctxs ≡ some ctx
    → ctx.conn_epoch ≢ epoch
    → step (handshake_done k epoch result takes) now w ≡ w
unfolding step on_slot stored handle_handshake_done
stale_done k epoch now result takes ctx w e ne =
    let other : (ctx.conn_epoch == epoch) ≡ false = elim (Bool-cases (ctx.conn_epoch == epoch)) [
      | inl t ↦ absurd (ne ((==_iff ctx.conn_epoch epoch).0 t))
      | inr f ↦ f
    ] in
    rw (on_slot, e, other)
      (ap (λ (m : Map ℕ SocketCtx). record w { socket_ctxs = m })
        (insert_same k ctx w.socket_ctxs e))

-- The slot is rearmed, by whichever handler.
abbrev pub rearmed_at : ℕ → ℕ → EventLoop → EventLoop
rearmed_at k now w = on_slot k (λ ctx pool. quiet (rearm_socket ctx pool now)) w

rearmed_at-Within :
    (k now : ℕ) (w : EventLoop) (ctx : SocketCtx)
    → get k w.socket_ctxs ≡ some ctx
    → Within (rearmed_at k now w) k (ctx.conn_epoch + 1) 0
unfolding on_slot stored rearm_socket
rearmed_at-Within k now w ctx e =
    let next = (rearm_socket ctx w.fake_pool now).0 in
    let here : (k =? k) ≡ true = =?_refl k in
    rw (on_slot, e)
      (next, 0, get-insert k k next w.socket_ctxs ∙ rw here refl, omega arith, omega arith)

-- A slot is rearmed while a handshake of its epoch is under way, and then come any events that can renew
-- the epochs fewer than 2^64 - 1 times: the result of that handshake changes nothing.
pub handshake_done_late :
    (k then_ now : ℕ) (result takes : Bool) (es : List (ℕ × Event)) (w : EventLoop)
    (ctx : SocketCtx)
    → get k w.socket_ctxs ≡ some ctx
    → ctx.conn_epoch < 2 ^ 64
    → total_cost es + 1 < 2 ^ 64
    → step (handshake_done k ctx.conn_epoch result takes) now (run es (rearmed_at k then_ w))
      ≡ run es (rearmed_at k then_ w)
handshake_done_late k then_ now result takes es w ctx e small few =
    let epoch = ctx.conn_epoch in
    let (last, d, q, epochs, bound) =
      run-Within k (epoch + 1) 0 es (rearmed_at k then_ w) (rearmed_at-Within k then_ w ctx e) in
    stale_done k epoch now result takes last (run es (rearmed_at k then_ w)) q
      (λ same. absurd (omega (arith, same, epochs, bound, few, small)))
