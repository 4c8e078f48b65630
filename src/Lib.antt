-- ===== src/Lib.antt =====
-- The core of mini_vpn, a TUN client that sends TCP relays and UDP datagrams through a TUIC server,
-- or, when that fails, TCP relays through a VLESS server behind REALITY. Applications get made-up
-- addresses from the client's own answers to DNS queries, and a flow to such an address is sent out
-- under the name asked for.
--
-- Parts, and the files that model them:
--   FakeIp      src/fake_ip.rs: the pool of fake addresses (alloc, acquire, release, sweep).
--   Dns         src/dns.rs: parse_query and build_response.
--   DnsBlock    src/dns_block.rs: the ports, names and addresses of encrypted DNS.
--   Uplink      src/client_tun.rs: resolve_target, classify_inbound, forge_dns_reply and
--               handle_tuic_udp_uplink, which join the pool, the queries and the flow table.
--   Registry    src/client_tun.rs: ListenerRegistry and SocketCtx.
--   Slots       src/client_tun.rs: the life of a slot (process_listener_activity,
--               handle_local_payload, handle_handshake_done, handle_remote_payload, rearm_socket,
--               flush_downlink), and in Slots.EventLoop the branches of the loop that call them, with
--               the answers to DNS queries, reap_dead_slots and the sweep of the pool.
--   Tuic.Codec  src/tuic.rs: the commands on the wire.
--   Tuic.Frag   src/tuic.rs: FragReassembler, the reassembly of fragmented packets.
--   Tuic.Assoc  src/tuic.rs: AssocTable, the ids of UDP flows.
--   Tuic.Plan   src/tuic.rs: udp_send_plan.
--   Vless       src/reality/vless.rs, and absorb_app of src/reality_upstream.rs.
--   Reality     src/reality/: the records (Record), the key schedule (KeySchedule), the cutting of
--               records and messages (Framing), parse_server_hello (ServerHello) and
--               drive with the server's flight (Handshake); Reality.Stream is RealityStream of
--               src/reality_upstream.rs.
--   Failover    src/failover.rs: the leg that TCP relays take, and the health task.
--   Metrics     src/metrics.rs: the shared counters and the snapshot.
--   Target      src/shared/target.rs and src/shared/errors.rs.
--   Flow        src/udp_relay.rs: the identity of a flow.
--   Base        the shared list, map, byte and key lemmas.
--
-- Conventions. A method that changes its object returns the changed record, with its result in front
-- of it. Bytes and machine words are numbers of the native type, and an increment that wraps keeps
-- its `% 2 ^ w`. An IPv4 address is its u32, an IPv6 address its u128, a text the list of its bytes.
-- A hash map is an association list. The clock is an argument, as it is in the source where it is
-- injected. Printing is left out.
--
-- Loops. The search of AssocTable for a free id has no bound in the source: here it has as many
-- rounds as there are ids, and the property on `intern` shows that they suffice. The search of the
-- pool has the source's own bound. The loop over the labels of a query has as many rounds as the
-- query has bytes, and each round reads one at least. poll_read runs on fuel: a turn that goes on
-- takes a record off the bytes read or an answer of the read half in, and the property on it says
-- how much fuel is enough. The messages of a record are split on fuel, the number of its bytes, of
-- which each message takes four at least. The loop over the server's flight has as many rounds as
-- the connection gives bytes, of which each record takes five, and the property on drive shows that
-- they suffice.
--
-- The atomics of FailoverState are one step each in Failover.Interleaving, where many tasks report
-- failures at once; elsewhere in Failover one decision happens after the other. An opening
-- of a relay is two steps, before and after its leg has answered, so that openings overlap in
-- Failover.Opening. The writes of the two tasks to Metrics come in any order in Metrics.Tasks.
--
-- Not modelled: the connections themselves (src/quic.rs, src/upstream.rs and the asynchronous parts
-- of src/tuic.rs), the ClientHello, the sealed session id and the certificate of the REALITY
-- handshake (src/reality); of the event loop of src/client_tun.rs the relay task, the dirty set, the
-- device branches but for the answer to a DNS query, and the UDP branches, with the sweep of the
-- associations, but for handle_tuic_udp_uplink as a function of its own; the device (src/device.rs),
-- the profiler (src/loop_profiler.rs), the harness and the entry points. The raw packets of
-- src/udp_relay.rs are read and built by the etherparse crate, a parameter of the
-- definitions that call it.
pub mod Base
pub mod FakeIp
pub mod Failover
pub mod Target
pub mod Tuic
pub mod Flow
pub mod Vless
pub mod Uplink
pub mod Reality
pub mod Registry
pub mod Slots
pub mod Dns
pub mod DnsBlock
pub mod Metrics
