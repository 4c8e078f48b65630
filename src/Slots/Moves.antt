-- ===== src/Slots/Moves.antt =====
-- src/client_tun.rs: what a handler may do to a slot and to the references of the fake-IP pool.
use mini_vpn.FakeIp.{FakeIpPool, acquire, release}
use mini_vpn.Registry.{SocketCtx, max_uplink_buffer}
use mini_vpn.Slots.{
  SendAnswer, cannot_send, accepts, send_fails, flush_downlink, rearm_socket, Handled, quiet,
  is_pending, is_listening,
}
use mini_vpn.Base.{
  ℕ, zero, suc, ◌≤◌, ◌≡◌, refl, sym, ◌∙◌, ◌⊎◌, inl, inr, true, false, none, some, List, [], arith,
  ◌==◌, if_intro, Option-cases, length, drop,
}
use mini_vpn.Base.Keys.{nat_eq, bytes_eq, pair_eq}
use mini_vpn.Base.Map.{contains_key}

-- What holds of every slot between two turns of the loop.
pub record IsSlot (ctx : SocketCtx) : Type 0 where
  -- No address is held without a relay or a handshake.
  pub idle : ctx.uplink_tx ≡ none → is_pending ctx.state ≡ false → ctx.fake_ip ≡ none
  -- Bytes for the application wait only while the relay is open.
  pub down : ctx.uplink_tx ≡ none → ctx.downlink_pending ≡ []
  -- Bytes of the application wait only for a handshake, and not too many.
  pub few : length ctx.uplink_buffer ≤ max_uplink_buffer
  pub up : is_pending ctx.state ≡ false → ctx.uplink_buffer ≡ []
  -- A slot whose handshake is under way has no relay, and neither has a listening one.
  pub pending_shut : is_pending ctx.state ≡ true → ctx.uplink_tx ≡ none
  pub listening_shut : is_listening ctx.state ≡ true → ctx.uplink_tx ≡ none

-- The slot and the pool keep the address held, or give it up, or take one that is mapped.
abbrev pub Moves : ℕ → SocketCtx → FakeIpPool → SocketCtx → FakeIpPool → Type 0
Moves now ctx pool next more =
    ((next.fake_ip ≡ ctx.fake_ip) × (more ≡ pool))
    ⊎ (((ip : ℕ) × (ctx.fake_ip ≡ some ip) × (next.fake_ip ≡ none) × (more ≡ release pool ip now))
        ⊎ ((ip : ℕ) × (ctx.fake_ip ≡ none)
            × (next.fake_ip ≡ some ip)
            × (contains_key ip pool.ip_to_mapping ≡ true)
            × (more ≡ acquire pool ip now)))

abbrev pub Fine : ℕ → SocketCtx → FakeIpPool → Handled → Type 0
Fine now ctx pool h = IsSlot h.ctx × Moves now ctx pool h.ctx h.pool

pub rearm_socket-IsSlot :
    (ctx : SocketCtx) (pool : FakeIpPool) (now : ℕ) → IsSlot (rearm_socket ctx pool now).0
unfolding rearm_socket
rearm_socket-IsSlot ctx pool now = record {
  idle = λ a b. refl;
  down = λ a. refl;
  few = omega arith;
  up = λ a. refl;
  pending_shut = λ a. refl;
  listening_shut = λ a. refl;
}

pub rearm_socket-Moves :
    (ctx : SocketCtx) (pool : FakeIpPool) (now : ℕ)
    → Moves now ctx pool (rearm_socket ctx pool now).0 (rearm_socket ctx pool now).1
unfolding rearm_socket
rearm_socket-Moves ctx pool now = elim (Option-cases ctx.fake_ip) [
  | inl e ↦ inl (sym e, rw e refl)
  | inr (ip, e) ↦ inr (inl (ip, e, refl, rw e refl))
]

pub rearm_socket-Fine :
    (ctx : SocketCtx) (pool : FakeIpPool) (now : ℕ)
    → Fine now ctx pool (quiet (rearm_socket ctx pool now))
rearm_socket-Fine ctx pool now = (rearm_socket-IsSlot ctx pool now, rearm_socket-Moves ctx pool now)

-- Fields that a flush leaves.
abbrev pub SameBut : SocketCtx → SocketCtx → Type 0
SameBut ctx next =
    (next.fake_ip ≡ ctx.fake_ip)
    × (next.uplink_tx ≡ ctx.uplink_tx)
    × (next.state ≡ ctx.state)
    × (next.uplink_buffer ≡ ctx.uplink_buffer)
    × (next.conn_epoch ≡ ctx.conn_epoch)
    × (ctx.downlink_pending ≡ [] → next.downlink_pending ≡ [])

pub flush_downlink_same :
    (answer : SendAnswer) (ctx : SocketCtx) → SameBut ctx (flush_downlink answer ctx)
unfolding flush_downlink
flush_downlink_same cannot_send ctx =
    if_intro (SameBut ctx) (length ctx.downlink_pending == 0) (refl, refl, refl, refl, refl, λ q. q)
      (refl, refl, refl, refl, refl, λ q. q)
flush_downlink_same (accepts n) ctx =
    if_intro (SameBut ctx) (length ctx.downlink_pending == 0) (refl, refl, refl, refl, refl, λ q. q)
      (refl, refl, refl, refl, refl, λ q. drop_nil n q)
  where
    drop_nil : (n : ℕ) {bs : List ℕ} → bs ≡ [] → drop n bs ≡ []
    drop_nil zero q = q
    drop_nil (suc n) q = rw q refl
flush_downlink_same send_fails ctx =
    if_intro (SameBut ctx) (length ctx.downlink_pending == 0) (refl, refl, refl, refl, refl, λ q. q)
      (refl, refl, refl, refl, refl, λ q. refl)

pub flush_downlink-IsSlot :
    (answer : SendAnswer) (ctx : SocketCtx) → IsSlot ctx → IsSlot (flush_downlink answer ctx)
flush_downlink-IsSlot answer ctx s =
    let (fake, up, state, buf, epoch, down) = flush_downlink_same answer ctx in
    record {
      idle = rw (fake, up, state) s.idle;
      down = λ q. down (s.down (sym up ∙ q));
      few = rw buf s.few;
      up = rw (state, buf) s.up;
      pending_shut = rw (state, up) s.pending_shut;
      listening_shut = rw (state, up) s.listening_shut;
    }
