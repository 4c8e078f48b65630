-- ===== src/Uplink/Tests.antt =====
-- src/client_tun.rs on concrete packets. A packet is written as its endpoints, its ports and its
-- payload, which stands for the reading and building of real IPv4 packets.
use mini_vpn.Target.{v4, ip_port, domain_port}
use mini_vpn.FakeIp
use mini_vpn.FakeIp.{FakeIpPool}
use mini_vpn.FakeIp.Consistent.{IsConsistent, new-IsConsistent}
use mini_vpn.DnsBlock.{is_dns_relay_port, is_doh_domain}
use mini_vpn.Dns.{DnsQuery, answer_a, parse_query, build_response}
use mini_vpn.Flow.{UdpInbound}
use mini_vpn.Tuic.Assoc.{AssocTable}
use mini_vpn.Tuic.Assoc.Consistent.{with_cap-IsConsistent}
use mini_vpn.Tuic.Assoc
use mini_vpn.Uplink.{direct, resolve_target, forge_dns_reply, handle_tuic_udp_uplink}
use mini_vpn.Uplink.Targets.{Allowed, resolve_target-Allowed}
use mini_vpn.Uplink.Forged.{resolve_target-forge_dns_reply}
use mini_vpn.Uplink.Datagram.{Relayed, handle_tuic_udp_uplink-Relayed}
use mini_vpn.Base.{ℕ, ◌≡◌, refl, true, false, ◌&&◌, Option, none, some, List, [], ◌∷◌, arith, ◌==◌}
use mini_vpn.Base.Keys.{nat_eq, bytes_eq, pair_eq}

abbrev read_packet : List ℕ → Option UdpInbound
read_packet (src ∷ src_port ∷ dst ∷ dst_port ∷ payload) = some (record {
  src_ip = src;
  src_port = src_port;
  dst_ip = dst;
  dst_port = dst_port;
  payload = payload;
})
read_packet _ = none

abbrev write_packet : ℕ × ℕ → ℕ × ℕ → List ℕ → List ℕ
write_packet (src, src_port) (dst, dst_port) payload = src ∷ src_port ∷ dst ∷ dst_port ∷ payload

-- A datagram to 1.2.3.4:4000.
abbrev pkt : List ℕ
pkt = 167772161 ∷ 5000 ∷ 16909060 ∷ 4000 ∷ 1 ∷ 2 ∷ []

abbrev inbound : UdpInbound
inbound = record {
  src_ip = 167772161;
  src_port = 5000;
  dst_ip = 16909060;
  dst_port = 4000;
  payload = 1 ∷ 2 ∷ [];
}

pkt_goes_out :
    resolve_target (v4 16909060 4000) FakeIp.new ≡ direct (ip_port (v4 16909060 4000)) none
unfolding resolve_target FakeIp.new FakeIp.is_fake is_dns_relay_port
pkt_goes_out = refl

handle_tuic_udp_uplink-Relayed_example :
    Relayed inbound (handle_tuic_udp_uplink read_packet pkt (Assoc.with_cap 8) FakeIp.new 7)
handle_tuic_udp_uplink-Relayed_example =
    handle_tuic_udp_uplink-Relayed read_packet pkt inbound (Assoc.with_cap 8) FakeIp.new 7
      (ip_port (v4 16909060 4000)) none (with_cap-IsConsistent 8) refl pkt_goes_out (omega arith)

resolve_target-Allowed_example :
    (is_dns_relay_port 4000 ≡ false)
    × Allowed FakeIp.new (v4 16909060 4000) (ip_port (v4 16909060 4000)) none
resolve_target-Allowed_example =
    resolve_target-Allowed (v4 16909060 4000) FakeIp.new (ip_port (v4 16909060 4000)) none
      pkt_goes_out

-- A query for the address of "a.b", sent to 8.8.8.8.
abbrev question : DnsQuery
question = record {
  id = 258;
  qname = 97 ∷ 46 ∷ 98 ∷ [];
  qtype = 1;
  rd = true;
  question = 1 ∷ 97 ∷ 1 ∷ 98 ∷ 0 ∷ 0 ∷ 1 ∷ 0 ∷ 1 ∷ [];
}

abbrev dns_packet : UdpInbound
dns_packet = record {
  src_ip = 167772161;
  src_port = 5353;
  dst_ip = 134744072;
  dst_port = 53;
  payload =
      1 ∷ 2 ∷ 1 ∷ 0 ∷ 0 ∷ 1 ∷ 0 ∷ 0 ∷ 0 ∷ 0 ∷ 0 ∷ 0 ∷ 1 ∷ 97 ∷ 1 ∷ 98 ∷ 0 ∷ 0 ∷ 1 ∷ 0 ∷ 1 ∷ [];
}

question_read : parse_query dns_packet.payload ≡ some question
unfolding parse_query
question_read = refl

resolve_target-forge_dns_reply_example :
    let r = forge_dns_reply write_packet dns_packet FakeIp.new 7 in
    (ip : ℕ) × (r.0
      ≡ some (
          write_packet (134744072, 53) (167772161, 5353) (build_response question (answer_a ip 5))))
    × IsConsistent r.1
    × ((port : ℕ)
        → is_dns_relay_port port ≡ false
        → (port == 443 && is_doh_domain question.qname) ≡ false
        → resolve_target (v4 ip port) r.1 ≡ direct (domain_port question.qname port) (some ip))
resolve_target-forge_dns_reply_example =
    resolve_target-forge_dns_reply write_packet dns_packet FakeIp.new 7 question new-IsConsistent
      question_read refl
