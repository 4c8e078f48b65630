-- ===== src/Flow.antt =====
-- src/udp_relay.rs: the identity of a UDP flow and its entry in the association table. The parsing
-- and building of raw packets is done by the etherparse crate, and enters as an argument.
use mini_vpn.Base.{ℕ, ◌≡◌, ◌↔◌, Bool, true, ◌&&◌, List, arith, ◌==◌}
use mini_vpn.Base.Keys.{Eq, nat_eq, bytes_eq, pair_eq}

abbrev pub max_udp_flows : ℕ
max_udp_flows = 1024

abbrev pub udp_flow_idle_secs : ℕ
udp_flow_idle_secs = 60

pub record FourTuple : Type 0 where
  pub src_ip : ℕ
  pub src_port : ℕ
  pub dst_ip : ℕ
  pub dst_port : ℕ

pub record FlowEntry : Type 0 where
  pub tuple : FourTuple
  pub last_activity : ℕ

unfoldable pub app_endpoint : FlowEntry → ℕ × ℕ
app_endpoint e = (e.tuple.src_ip, e.tuple.src_port)

unfoldable pub target_src : FlowEntry → ℕ × ℕ
target_src e = (e.tuple.dst_ip, e.tuple.dst_port)

-- `#[derive(PartialEq)]` on the four fields.
abbrev pub tuple_beq : FourTuple → FourTuple → Bool
tuple_beq s t =
    s.src_ip == t.src_ip
    && s.src_port == t.src_port
    && s.dst_ip == t.dst_ip
    && s.dst_port == t.dst_port

pub tuple_beq_iff : (s t : FourTuple) → (tuple_beq s t ≡ true) ↔ (s ≡ t)
tuple_beq_iff s t = ground arith

instance abbrev pub tuple_eq : Eq FourTuple
tuple_eq = record { beq = tuple_beq; beq_iff = tuple_beq_iff }

pub record UdpInbound : Type 0 where
  pub src_ip : ℕ
  pub src_port : ℕ
  pub dst_ip : ℕ
  pub dst_port : ℕ
  pub payload : List ℕ
