-- ===== src/Tuic/Plan.antt =====
-- src/tuic.rs: how a UDP packet leaves: by QUIC datagram or by a stream of its own.
use mini_vpn.Base.{
  ℕ, ◌≤◌, ◌≡◌, refl, ◌↔◌, Bool, Option, none, some, arith, ltb, leb, if◌then◌else◌, some_inj,
}
use mini_vpn.Base.Keys.{nat_eq, bytes_eq, pair_eq}

pub data UdpSend : Type 0 where
  datagram stream : UdpSend

pub data UdpRelayMode : Type 0 where
  native quic : UdpRelayMode

-- `None` is a connection on which datagrams cannot be used.
unfoldable pub udp_send_plan : UdpRelayMode → Option ℕ → ℕ → UdpSend
udp_send_plan quic max_datagram len = stream
udp_send_plan native none len = stream
udp_send_plan native (some most) len = if leb len most then datagram else stream

unfoldable pub is_datagram_pressured : ℕ → ℕ → Bool
is_datagram_pressured send_buffer_space mtu = ltb send_buffer_space mtu

-- A datagram is used exactly in native mode and where the connection takes one of that length.
pub udp_send_plan_iff :
    (mode : UdpRelayMode) (max_datagram : Option ℕ) (len : ℕ)
    → (udp_send_plan mode max_datagram len ≡ datagram)
      ↔ ((mode ≡ native) × (most : ℕ) × (max_datagram ≡ some most) × (len ≤ most))
unfolding udp_send_plan
udp_send_plan_iff quic max_datagram len = (λ h. cc, λ h. cc (h.0))
udp_send_plan_iff native none len = (λ h. cc, λ h. cc (h.2))
udp_send_plan_iff native (some most) len =
    (λ h. (refl, most, refl, ground arith), λ h. ground (arith, some_inj h.2))
