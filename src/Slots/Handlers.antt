-- ===== src/Slots/Handlers.antt =====
-- src/client_tun.rs: every handler of a slot keeps what holds of the slot, and takes or gives up at
-- most the address that the slot holds.
use mini_vpn.Slots.Moves.{
  IsSlot, Fine, rearm_socket-Fine, flush_downlink_same, flush_downlink-IsSlot,
}
use mini_vpn.Slots.FirstPayload.{IsMapped, handle_local_payload-Fine}
use mini_vpn.Uplink.Targets.{Allowed, resolve_target-Allowed}
use mini_vpn.Target.{v4, v6}
use mini_vpn.FakeIp as FakeIp
use mini_vpn.FakeIp.{FakeIpPool, acquire, release}
use mini_vpn.Registry.{relaying, SocketCtx}
use mini_vpn.Slots.{
  SendAnswer, flush_downlink, quiet, is_pending, is_listening, Reserve, permit, full, closed,
  Activity, established_uplink, after_flush, first_payload, process_listener_activity,
  handle_handshake_done, handle_remote_payload, note_remote_payload,
}
use mini_vpn.Target.{SocketAddr, TargetAddr}
use mini_vpn.Uplink.{TargetResolve, direct, refuse, block, resolve_target}
use mini_vpn.Base.{
  ℕ, ◌≡◌, refl, ◌∙◌, inl, inr, Bool, true, false, not, Option, none, some, List, [], ◌∷◌, ◌++◌,
  arith, ◌==◌, Bool-cases, if_cases, if_intro, Option-cases, is_some, some_inj, length,
}
use mini_vpn.Base.Keys.{nat_eq, bytes_eq, pair_eq}
use mini_vpn.Base.Map.{get, contains_key}

known_held :
    (pool : FakeIpPool) (ip : ℕ) (domain : List ℕ)
    → FakeIp.resolve pool ip ≡ some domain
    → contains_key ip pool.ip_to_mapping ≡ true
unfolding FakeIp.resolve contains_key
known_held pool ip domain h = elim (Option-cases (get ip pool.ip_to_mapping)) [
  | inl e ↦ absurd (let x : none ≡ some domain = rw e at h in cc)
  | inr (m, e) ↦ rw e refl
]

-- An address that a target was resolved from has its name in the pool.
resolve_target-IsMapped :
    (endpoint : SocketAddr) (pool : FakeIpPool) (target : TargetAddr) (fake : Option ℕ)
    → resolve_target endpoint pool ≡ direct target fake
    → IsMapped pool fake
resolve_target-IsMapped endpoint pool target none h = tt
resolve_target-IsMapped endpoint pool target (some ip) h =
    allowed endpoint (resolve_target-Allowed endpoint pool target (some ip) h).1
  where
    allowed :
        (e : SocketAddr)
        → Allowed pool e target (some ip)
        → contains_key ip pool.ip_to_mapping ≡ true
    allowed (v4 at port) (inl (known, domain, named, to, held)) =
        rw (some_inj held) (known_held pool at domain named)
    allowed (v4 at port) (inr (unknown, to, held)) = absurd cc
    allowed (v6 at port) (to, held) = absurd cc

first_payload-Fine :
    (act : Activity) (handle : ℕ) (payload : List ℕ) (ctx : SocketCtx) (pool : FakeIpPool) (now : ℕ)
    (r : TargetResolve)
    → IsSlot ctx
    → ctx.uplink_tx ≡ none
    → ((target : TargetAddr) (fake : Option ℕ) → r ≡ direct target fake → IsMapped pool fake)
    → Fine now ctx pool (first_payload act handle payload r ctx pool now)
unfolding first_payload
first_payload-Fine act handle payload ctx pool now (direct target fake) s e m =
    handle_local_payload-Fine act.opening handle payload target fake ctx pool now s e
      (m target fake refl)
first_payload-Fine act handle payload ctx pool now refuse s e m = rearm_socket-Fine ctx pool now
first_payload-Fine act handle payload ctx pool now block s e m = rearm_socket-Fine ctx pool now

-- A slot with an open relay and nothing of the application's put by.
relaying-IsSlot :
    (next : SocketCtx) (sent : List (List ℕ))
    → next.state ≡ relaying
    → next.uplink_tx ≡ some sent
    → next.uplink_buffer ≡ []
    → IsSlot next
relaying-IsSlot next sent state up buf = record {
  idle = λ q. absurd (cc (up, q));
  down = λ q. absurd (cc (up, q));
  few = rw buf (omega arith);
  up = λ q. buf;
  pending_shut = λ q. absurd (let x : is_pending relaying ≡ true = rw state at q in cc);
  listening_shut = λ q. absurd (let x : is_listening relaying ≡ true = rw state at q in cc);
}

established_uplink-Fine :
    (r : Reserve) (payload : Option (List ℕ)) (sent : List (List ℕ)) (ctx : SocketCtx)
    (pool : FakeIpPool) (now : ℕ)
    → IsSlot ctx
    → ctx.uplink_tx ≡ some sent
    → Fine now ctx pool (established_uplink r payload sent ctx pool now)
unfolding established_uplink
established_uplink-Fine permit (some payload) sent ctx pool now s e = (
  relaying-IsSlot _ (sent ++ payload ∷ []) refl refl (
      s.up (elim (Bool-cases (is_pending ctx.state)) [
        | inl t ↦ absurd (cc (e, s.pending_shut t))
        | inr f ↦ f
      ])),
  inl (refl, refl),
)
established_uplink-Fine permit none sent ctx pool now s e = (s, inl (refl, refl))
established_uplink-Fine full payload sent ctx pool now s e = (s, inl (refl, refl))
established_uplink-Fine closed payload sent ctx pool now s e = rearm_socket-Fine ctx pool now

after_flush-Fine :
    (act : Activity) (handle : ℕ) (ctx : SocketCtx) (pool : FakeIpPool) (now : ℕ)
    → IsSlot ctx
    → Fine now ctx pool (after_flush act handle ctx pool now)
unfolding after_flush
after_flush-Fine act handle ctx pool now s = elim (Option-cases ctx.uplink_tx) [
  | inr (sent, e) ↦
      rw (e, after_flush) (established_uplink-Fine act.reserve act.payload sent ctx pool now s e)
  | inl e ↦ elim (Option-cases act.payload) [
    | inl p ↦ rw (e, after_flush, p) (s, inl (refl, refl))
    | inr (payload, p) ↦ elim (Option-cases act.endpoint) [
      | inl q ↦ rw (e, after_flush, p, q) (s, inl (refl, refl))
      | inr (endpoint, q) ↦
          rw (e, after_flush, p, q)
            (first_payload-Fine act handle payload ctx pool now (resolve_target endpoint pool) s e
              (resolve_target-IsMapped endpoint pool))
    ]
  ]
]

-- A turn of the loop on one slot keeps what holds of it.
pub process_listener_activity-Fine :
    (act : Activity) (handle : ℕ) (ctx : SocketCtx) (pool : FakeIpPool) (now : ℕ)
    → IsSlot ctx
    → Fine now ctx pool (process_listener_activity act handle ctx pool now)
unfolding process_listener_activity
process_listener_activity-Fine act handle ctx pool now s =
    let fake = (flush_downlink_same act.send ctx).0 in
    let (slot, moves) =
      after_flush-Fine act handle (flush_downlink act.send ctx) pool now
        (flush_downlink-IsSlot act.send ctx s) in
    (slot, rw fake at moves)

pub handle_handshake_done-Fine :
    (result takes : Bool) (handle epoch : ℕ) (ctx : SocketCtx) (pool : FakeIpPool) (now : ℕ)
    → IsSlot ctx
    → Fine now ctx pool (handle_handshake_done result takes handle epoch ctx pool now)
unfolding handle_handshake_done
handle_handshake_done-Fine result takes handle epoch ctx pool now s =
    let P = Fine now ctx pool in
    let same : Fine now ctx pool (quiet (ctx, pool)) = (s, inl (refl, refl)) in
    if_intro P (not (ctx.conn_epoch == epoch)) same (
      if_cases P (not (is_pending ctx.state)) (λ t. same)
        (λ pending. if_intro P (not result) (rearm_socket-Fine ctx pool now) (
          if_cases P (length ctx.uplink_buffer == 0)
            (λ t. (relaying-IsSlot _ [] refl refl (no_bytes ctx.uplink_buffer t), inl (refl, refl)))
            (λ f.
              if_intro P takes
                (relaying-IsSlot _ (ctx.uplink_buffer ∷ []) refl refl refl, inl (refl, refl))
                (rearm_socket-Fine (record ctx { uplink_buffer = [] }) pool now)))))
  where
    no_bytes : (bs : List ℕ) → (length bs == 0) ≡ true → bs ≡ []
    no_bytes [] t = refl
    no_bytes (b ∷ bs) t = absurd (ground arith)

pub handle_remote_payload-Fine :
    (answer : SendAnswer) (flushed : Bool) (payload : List ℕ) (ctx : SocketCtx) (pool : FakeIpPool)
    (now : ℕ)
    → IsSlot ctx
    → Fine now ctx pool (handle_remote_payload answer flushed payload ctx pool now)
unfolding handle_remote_payload
handle_remote_payload-Fine answer flushed payload ctx pool now s =
    let pending = ctx.downlink_pending ++ payload in
    let filled = record ctx {
      downlink_pending = pending;
      downlink_diag = note_remote_payload ctx.downlink_diag (length payload) (length pending);
    } in
    let (fake, up, state, buf, epoch, down) = flush_downlink_same answer filled in
    if_intro (Fine now ctx pool) (length payload == 0) (rearm_socket-Fine ctx pool now) (
      if_cases (Fine now ctx pool) (not (is_some ctx.uplink_tx)) (λ t. (s, inl (refl, refl)))
        (λ f.
          let (sent, e) = held ctx.uplink_tx f in
          (relaying-IsSlot _ sent refl (up ∙ e) (buf ∙ s.up (open_IsSlot e)), inl (fake, refl))))
  where
    held :
        (o : Option (List (List ℕ)))
        → not (is_some o) ≡ false
        → (sent : List (List ℕ)) × (o ≡ some sent)
    held none f = absurd cc
    held (some sent) f = (sent, refl)

    open_IsSlot : {sent : List (List ℕ)} → ctx.uplink_tx ≡ some sent → is_pending ctx.state ≡ false
    open_IsSlot e = elim (Bool-cases (is_pending ctx.state)) [
      | inl t ↦ absurd (cc (e, s.pending_shut t))
      | inr f ↦ f
    ]
