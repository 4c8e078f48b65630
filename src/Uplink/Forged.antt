-- ===== src/Uplink/Forged.antt =====
-- src/client_tun.rs (`forge_dns_reply`): the answer to a query and the pool that it leaves.
use mini_vpn.Target.{v4, domain_port}
use mini_vpn.FakeIp
use mini_vpn.FakeIp.{FakeIpPool}
use mini_vpn.FakeIp.Consistent.{IsConsistent}
use mini_vpn.FakeIp.Alloc.{alloc-IsConsistent, resolve-alloc, alloc_range}
use mini_vpn.DnsBlock.{is_dns_relay_port, is_doh_domain}
use mini_vpn.Dns.{DnsQuery, answer_a, no_data, qtype_a, parse_query, build_response}
use mini_vpn.Flow.{UdpInbound}
use mini_vpn.Uplink.{direct, resolve_target, answer_query, forge_dns_reply}
use mini_vpn.Uplink.Targets.{resolve_target-known}
use mini_vpn.Base.{ℕ, ◌≡◌, refl, ap, ◌∙◌, ◌≢◌, false, ◌&&◌, Option, none, some, List, arith, ◌==◌}
use mini_vpn.Base.Keys.{nat_eq, bytes_eq, pair_eq}

answer_query-a :
    (q : DnsQuery) (pool : FakeIpPool) (now : ℕ)
    → q.qtype ≡ qtype_a
    → answer_query q pool now ≡ (
      build_response q (answer_a (FakeIp.alloc pool q.qname now).0 5),
      (FakeIp.alloc pool q.qname now).1,
    )
unfolding answer_query
answer_query-a q pool now kind = rw (kind, answer_query) refl

answer_query_other :
    (q : DnsQuery) (pool : FakeIpPool) (now : ℕ)
    → q.qtype ≢ qtype_a
    → answer_query q pool now ≡ (build_response q no_data, pool)
unfolding answer_query
answer_query_other q pool now other =
    let not_a : (q.qtype == qtype_a) ≡ false = nat_ne q.qtype qtype_a other in
    rw (not_a, answer_query) refl
  where
    nat_ne : (a b : ℕ) → a ≢ b → (a == b) ≡ false
    nat_ne a b h = grind arith

module _ (build_udp_ip_packet : ℕ × ℕ → ℕ × ℕ → List ℕ → List ℕ) where
  abbrev reply : UdpInbound → List ℕ × FakeIpPool → Option (List ℕ) × FakeIpPool
  reply udp (resp, after) =
      (some (build_udp_ip_packet (udp.dst_ip, 53) (udp.src_ip, udp.src_port) resp), after)

  reply_with : (udp : UdpInbound) {r s : List ℕ × FakeIpPool} → r ≡ s → reply udp r ≡ reply udp s
  reply_with udp e = ap (reply udp) e

  forge_dns_reply_parsed :
      (udp : UdpInbound) (pool : FakeIpPool) (now : ℕ) (q : DnsQuery)
      → parse_query udp.payload ≡ some q
      → forge_dns_reply build_udp_ip_packet udp pool now ≡ reply udp (answer_query q pool now)
  unfolding forge_dns_reply
  forge_dns_reply_parsed udp pool now q parse =
      ap
        (λ (o : Option DnsQuery). elim o [
          | none ↦ (none, pool)
          | some p ↦ reply udp (answer_query p pool now)
        ])
        parse

  -- A query for an address is answered, from the server that it was sent to, with a fake address.
  -- With the pool as the answer leaves it, a flow to this address goes to the name asked for, unless
  -- the flow's port is a DNS port or 443 of an encrypted DNS server; this pool is consistent.
  pub resolve_target-forge_dns_reply :
      (udp : UdpInbound) (pool : FakeIpPool) (now : ℕ) (q : DnsQuery)
      → IsConsistent pool
      → parse_query udp.payload ≡ some q
      → q.qtype ≡ qtype_a
      → let r = forge_dns_reply build_udp_ip_packet udp pool now in
        (ip : ℕ) × (r.0
          ≡ some (
              build_udp_ip_packet
                (udp.dst_ip, 53)
                (udp.src_ip, udp.src_port)
                (build_response q (answer_a ip 5))))
        × IsConsistent r.1
        × ((port : ℕ)
            → is_dns_relay_port port ≡ false
            → (port == 443 && is_doh_domain q.qname) ≡ false
            → resolve_target (v4 ip port) r.1 ≡ direct (domain_port q.qname port) (some ip))
  resolve_target-forge_dns_reply udp pool now q c parse kind =
      rw
        (forge_dns_reply_parsed udp pool now q parse
          ∙ reply_with udp (answer_query-a q pool now kind))
        (
          (FakeIp.alloc pool q.qname now).0,
          refl,
          alloc-IsConsistent pool q.qname now c,
          λ port free plain.
              resolve_target-known _ _ port q.qname (alloc_range pool q.qname now c).0
                (resolve-alloc pool q.qname now c) free plain,
        )

  -- Any other query is answered without an address, and leaves the pool as it was.
  pub forge_dns_reply-no_data :
      (udp : UdpInbound) (pool : FakeIpPool) (now : ℕ) (q : DnsQuery)
      → parse_query udp.payload ≡ some q
      → q.qtype ≢ qtype_a
      → forge_dns_reply build_udp_ip_packet udp pool now ≡ (
        some (
            build_udp_ip_packet
              (udp.dst_ip, 53)
              (udp.src_ip, udp.src_port)
              (build_response q no_data)),
        pool,
      )
  forge_dns_reply-no_data udp pool now q parse other =
      forge_dns_reply_parsed udp pool now q parse
      ∙ reply_with udp (answer_query_other q pool now other)
