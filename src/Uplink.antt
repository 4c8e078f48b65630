-- ===== src/Uplink.antt =====
-- src/client_tun.rs: where a packet from the TUN device goes. The endpoint of a TCP flow or a
-- datagram is resolved to a target, a DNS query is answered with a fake address, and a datagram is
-- sent on as a TUIC packet.
pub mod Targets
pub mod Forged
pub mod Datagram
mod Tests
use mini_vpn.Target.{SocketAddr, v4, v6, TargetAddr, ip_port, domain_port}
use mini_vpn.FakeIp
use mini_vpn.FakeIp.{FakeIpPool}
use mini_vpn.DnsBlock.{is_dns_relay_port, is_doh_domain, is_doh_ip}
use mini_vpn.Dns.{DnsQuery, Answer, answer_a, no_data, qtype_a, parse_query, build_response}
use mini_vpn.Flow.{FourTuple, UdpInbound}
use mini_vpn.Tuic.Assoc
use mini_vpn.Tuic.Assoc.{AssocTable, intern, contains, touch, set_fake_ip, take_reclaimed_fake_ips}
use mini_vpn.Tuic.Codec.{encode_packet}
use mini_vpn.Base.{
  ℕ, zero, suc, ◌+◌, ◌-◌, ◌*◌, ◌/◌, ◌%◌, ◌^◌, ◌≤◌, ◌<◌, min, max, ◌≡◌, refl, sym, ap, ◌∙◌, ◌≢◌, ◌↔◌,
  ◌⊎◌, inl, inr, Bool, true, false, not, ◌&&◌, ◌||◌, Option, none, some, List, [], ◌∷◌, ◌++◌, map,
  arith, ltb, leb, ◌==◌, ==_iff, ltb→lt, leb→le, if◌then◌else◌, Bool-cases, Option-cases, ◌>>=◌,
  is_some, some_inj, bind_some, length, get_elem?, set, take, drop, replicate, length-append,
  length-take, take-length, length-drop, take-append-drop, length-set, length-replicate,
  take-append, drop-append, drop-append_le, drop-add, get_elem?-append, get_elem?-append_lt,
  take-append_le, All, Distinct, any, any_iff, Some, and_right, or_right, keep,
}
use mini_vpn.Base.Bytes.{
  IsByte, IsU16, IsU32, u16_be, u32_be, be_bytes, length-be_bytes, from_be16, from_be16-u16_be,
  from_be, from_be-be_bytes, from_be-u32_be,
}
use mini_vpn.Base.Keys.{Eq, ◌=?◌, nat_eq, bytes_eq, pair_eq}
use mini_vpn.Base.Map.{
  Map, get, insert, remove, contains_key, retain, update, UniqueKeys, get-insert, get-remove,
  =?_refl, =?_eq, =?_ne, get-update, insert-UniqueKeys, remove-UniqueKeys, update-UniqueKeys,
  Distinct-le, length-remove-le, length-insert-le, length-remove-lt, length-update,
}

unfoldable pub target_from_endpoint : SocketAddr → TargetAddr
target_from_endpoint endpoint = ip_port endpoint

pub data TargetResolve : Type 0 where
  direct : TargetAddr → Option ℕ → TargetResolve
  refuse : TargetResolve
  block : TargetResolve

-- The match on the name that the pool knows for a fake address.
unfoldable pub resolve_fake : ℕ → ℕ → Option (List ℕ) → TargetResolve
resolve_fake ip port none = refuse
resolve_fake ip port (some domain) =
    if port == 443 && is_doh_domain domain
    then block
    else direct (domain_port domain port) (some ip)

abbrev pub port_of_endpoint : SocketAddr → ℕ
port_of_endpoint (v4 ip port) = port
port_of_endpoint (v6 ip port) = port

-- The branches behind the test of the port.
unfoldable pub resolve_address : SocketAddr → FakeIpPool → TargetResolve
unfolding target_from_endpoint resolve_fake
resolve_address (v4 ip port) pool =
    if FakeIp.is_fake pool ip
    then resolve_fake ip port (FakeIp.resolve pool ip)
    else if port == 443 && is_doh_ip ip
    then block
    else direct (target_from_endpoint (v4 ip port)) none
resolve_address (v6 ip port) pool = direct (target_from_endpoint (v6 ip port)) none

unfoldable pub resolve_target : SocketAddr → FakeIpPool → TargetResolve
unfolding resolve_address
resolve_target endpoint pool =
    if is_dns_relay_port (port_of_endpoint endpoint) then block else resolve_address endpoint pool

pub data Inbound : Type 0 where
  dns : Inbound
  udp_relay : Inbound
  other : Inbound

-- The answer to a query, and the pool after it.
unfoldable pub answer_query : DnsQuery → FakeIpPool → ℕ → List ℕ × FakeIpPool
answer_query q pool now =
    if q.qtype == qtype_a
    then (let (ip, after) = FakeIp.alloc pool q.qname now in
        (build_response q (answer_a ip 5), after))
    else (build_response q no_data, pool)

-- What is sent upstream, if anything, and the two tables after the call.
pub record Sent : Type 0 where
  pub datagram : Option (List ℕ)
  pub assoc : AssocTable
  pub pool : FakeIpPool

-- The loop over the addresses that the table has given up.
unfoldable pub release_all : List ℕ → ℕ → FakeIpPool → FakeIpPool
release_all [] now pool = pool
release_all (ip ∷ ips) now pool = release_all ips now (FakeIp.release pool ip now)

-- A flow that is new holds its fake address.
unfoldable pub hold : Bool → Option ℕ → ℕ → ℕ → AssocTable × FakeIpPool → AssocTable × FakeIpPool
hold true (some ip) id now (assoc, pool) = (set_fake_ip assoc id ip, FakeIp.acquire pool ip now)
hold true none id now (assoc, pool) = (assoc, pool)
hold false fake_ip id now (assoc, pool) = (assoc, pool)

abbrev pub tuple_of : UdpInbound → FourTuple
tuple_of udp = record {
  src_ip = udp.src_ip;
  src_port = udp.src_port;
  dst_ip = udp.dst_ip;
  dst_port = udp.dst_port;
}

-- From the id on: the flow is touched and holds its address, what was given up is released, and the
-- packet goes out. `none` stands for an `intern` that does not end.
unfoldable pub send_on :
    Bool → UdpInbound → TargetAddr → Option ℕ → ℕ → FakeIpPool → Option ℕ × AssocTable → Sent
unfolding hold release_all
send_on is_new udp target fake_ip now pool (none, assoc) = record {
  datagram = none;
  assoc = assoc;
  pool = pool;
}
send_on is_new udp target fake_ip now pool (some id, assoc) =
    let (held, acquired) = hold is_new fake_ip id now (touch assoc id now, pool) in
    let (ips, cleared) = take_reclaimed_fake_ips held in
    record {
      datagram = some (encode_packet id target udp.payload);
      assoc = cleared;
      pool = release_all ips now acquired;
    }

unfoldable pub relay_datagram : UdpInbound → AssocTable → FakeIpPool → ℕ → TargetResolve → Sent
unfolding send_on
relay_datagram udp assoc pool now refuse = record { datagram = none; assoc = assoc; pool = pool }
relay_datagram udp assoc pool now block = record { datagram = none; assoc = assoc; pool = pool }
relay_datagram udp assoc pool now (direct target fake_ip) =
    send_on (not (contains assoc (tuple_of udp))) udp target fake_ip now pool
      (intern assoc (tuple_of udp))

-- The reading of a raw packet is the `etherparse` crate's.
module _ (parse_inbound_udp : List ℕ → Option UdpInbound) where
  unfoldable pub classify_inbound : List ℕ → Inbound
  classify_inbound pkt = elim (parse_inbound_udp pkt) [
    | none ↦ other
    | some udp ↦ if udp.dst_port == 53 then dns else udp_relay
  ]

  unfoldable pub handle_tuic_udp_uplink : List ℕ → AssocTable → FakeIpPool → ℕ → Sent
  unfolding relay_datagram
  handle_tuic_udp_uplink pkt assoc pool now = elim (parse_inbound_udp pkt) [
    | none ↦ record { datagram = none; assoc = assoc; pool = pool }
    | some udp ↦
        relay_datagram udp assoc pool now (resolve_target (v4 udp.dst_ip udp.dst_port) pool)
  ]

-- So is the building of one.
module _ (build_udp_ip_packet : ℕ × ℕ → ℕ × ℕ → List ℕ → List ℕ) where
  unfoldable pub forge_dns_reply : UdpInbound → FakeIpPool → ℕ → Option (List ℕ) × FakeIpPool
  unfolding answer_query
  forge_dns_reply udp pool now = elim (parse_query udp.payload) [
    | none ↦ (none, pool)
    | some q ↦
        let (resp, after) = answer_query q pool now in
        (some (build_udp_ip_packet (udp.dst_ip, 53) (udp.src_ip, udp.src_port) resp), after)
  ]
