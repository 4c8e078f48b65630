-- ===== src/Uplink/Datagram.antt =====
-- src/client_tun.rs (`handle_tuic_udp_uplink`): the packet that goes out names the flow that it came
-- from.
use mathlib.Core.Path.{subst}
use mini_vpn.Target.{v4, TargetAddr}
use mini_vpn.FakeIp.{FakeIpPool}
use mini_vpn.Flow.{UdpInbound, tuple_eq}
use mini_vpn.Tuic.Assoc.{AssocTable, contains, touch, set_fake_ip, take_reclaimed_fake_ips}
use mini_vpn.Tuic.Assoc.Consistent.{IsConsistent, tuple_at, SameFlows, SameFlows-IsConsistent}
use mini_vpn.Tuic.Assoc.Intern.{intern-Interned}
use mini_vpn.Tuic.Assoc.Touch.{tuple_at-touch, touch-IsConsistent}
use mini_vpn.Tuic.Codec.{encode_packet, decode_packet}
use mini_vpn.Tuic.Codec.RoundTrip.{decode-encode_packet}
use mini_vpn.Uplink.{
  direct, Sent, hold, tuple_of, send_on, relay_datagram, resolve_target, handle_tuic_udp_uplink,
}
use mini_vpn.Base.{
  ℕ, ◌^◌, ◌<◌, ◌≡◌, refl, sym, ap, ◌∙◌, Bool, true, false, not, Option, none, some, List, arith,
  length,
}
use mini_vpn.Base.Keys.{nat_eq, bytes_eq, pair_eq}

hold-SameFlows :
    (is_new : Bool) (fake : Option ℕ) (id now : ℕ) (a : AssocTable) (pool : FakeIpPool)
    → SameFlows a (hold is_new fake id now (a, pool)).0
unfolding hold set_fake_ip
hold-SameFlows true (some ip) id now a pool = record {
  tuples = refl;
  entries = refl;
  next = refl;
  cap = refl;
}
hold-SameFlows true none id now a pool = record {
  tuples = refl;
  entries = refl;
  next = refl;
  cap = refl;
}
hold-SameFlows false fake id now a pool = record {
  tuples = refl;
  entries = refl;
  next = refl;
  cap = refl;
}

-- What goes out is read by the server as the payload under an id, and the id is that of the flow in
-- the table after the call, which stays consistent.
pub record Relayed (udp : UdpInbound) (s : Sent) : Type 0 where
  pub id : ℕ
  pub bytes : List ℕ
  pub out : s.datagram ≡ some bytes
  pub read : decode_packet bytes ≡ some (id, udp.payload)
  pub flow : tuple_at s.assoc id ≡ some (tuple_of udp)
  pub consistent : IsConsistent s.assoc

tuple_at-SameFlows : (a b : AssocTable) (id : ℕ) → SameFlows a b → tuple_at b id ≡ tuple_at a id
unfolding tuple_at
tuple_at-SameFlows a b id s = rw s.entries refl

send_on-Relayed :
    (is_new : Bool) (udp : UdpInbound) (target : TargetAddr) (fake : Option ℕ) (now : ℕ)
    (pool : FakeIpPool) (id : ℕ) (a : AssocTable)
    → IsConsistent a
    → tuple_at a id ≡ some (tuple_of udp)
    → length udp.payload < 2 ^ 16
    → Relayed udp (send_on is_new udp target fake now pool (some id, a))
unfolding send_on take_reclaimed_fake_ips
send_on-Relayed is_new udp target fake now pool id a c at short =
    let s = hold-SameFlows is_new fake id now (touch a id now) pool in
    let same : SameFlows (touch a id now)
        (send_on is_new udp target fake now pool (some id, a)).assoc =
      record { tuples = s.tuples; entries = s.entries; next = s.next; cap = s.cap } in
    record {
      id = id;
      bytes = encode_packet id target udp.payload;
      out = refl;
      read =
          decode-encode_packet id target udp.payload (omega (arith, (c.ids (tuple_of udp) id at).1))
            short;
      flow = tuple_at-SameFlows _ _ id same ∙ tuple_at-touch a id now id ∙ at;
      consistent = SameFlows-IsConsistent _ _ same (touch-IsConsistent a id now c);
    }

relay_datagram-Relayed :
    (udp : UdpInbound) (a : AssocTable) (pool : FakeIpPool) (now : ℕ) (target : TargetAddr)
    (fake : Option ℕ)
    → IsConsistent a
    → length udp.payload < 2 ^ 16
    → Relayed udp (relay_datagram udp a pool now (direct target fake))
unfolding relay_datagram
relay_datagram-Relayed udp a pool now target fake c short =
    let i = intern-Interned a (tuple_of udp) c in
    rw i.result (
      send_on-Relayed (not (contains a (tuple_of udp))) udp target fake now pool i.id i.table
        i.consistent i.entered short)

module _ (parse_inbound_udp : List ℕ → Option UdpInbound) where
  -- A datagram whose endpoint may be reached goes out: the server reads its payload under an id that
  -- stands, in the table after the call, for the flow that the datagram came from, so that replies
  -- under the id find the way back. The payload has fewer than 65536 bytes.
  pub handle_tuic_udp_uplink-Relayed :
      (pkt : List ℕ) (udp : UdpInbound) (a : AssocTable) (pool : FakeIpPool) (now : ℕ)
      (target : TargetAddr) (fake : Option ℕ)
      → IsConsistent a
      → parse_inbound_udp pkt ≡ some udp
      → resolve_target (v4 udp.dst_ip udp.dst_port) pool ≡ direct target fake
      → length udp.payload < 2 ^ 16
      → Relayed udp (handle_tuic_udp_uplink parse_inbound_udp pkt a pool now)
  unfolding handle_tuic_udp_uplink
  handle_tuic_udp_uplink-Relayed pkt udp a pool now target fake c parse goes short =
      subst (λ s. Relayed udp s)
        (sym (
          ap
            (λ (o : Option UdpInbound). elim o [
              | none ↦ record { datagram = none; assoc = a; pool = pool }
              | some u ↦ relay_datagram u a pool now (resolve_target (v4 u.dst_ip u.dst_port) pool)
            ])
            parse
          ∙ ap (relay_datagram udp a pool now) goes))
        (relay_datagram-Relayed udp a pool now target fake c short)
