-- ===== src/Target.antt =====
-- src/shared/target.rs: where a relay goes. An IPv4 address is its u32, an IPv6 address its u128,
-- and a host name the list of its bytes.
use mini_vpn.Base.{ℕ, List}
use mini_vpn.Base.Keys.{nat_eq, bytes_eq, pair_eq}

pub data SocketAddr : Type 0 where
  v4 : ℕ → ℕ → SocketAddr
  v6 : ℕ → ℕ → SocketAddr

pub data TargetAddr : Type 0 where
  ip_port : SocketAddr → TargetAddr
  domain_port : List ℕ → ℕ → TargetAddr

pub data ClientError : Type 0 where
  invalid_target : List ℕ → ClientError
  reality : List ℕ → ClientError
  io : ClientError
  utf8 : ClientError

-- The port fits its two bytes.
abbrev pub port_of : TargetAddr → ℕ
port_of (ip_port (v4 ip port)) = port
port_of (ip_port (v6 ip port)) = port
port_of (domain_port host port) = port
