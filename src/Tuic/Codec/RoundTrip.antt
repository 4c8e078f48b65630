-- ===== src/Tuic/Codec/RoundTrip.antt =====
-- src/tuic.rs: a packet read back from the wire.
use mini_vpn.Target.{v4, v6, TargetAddr, ip_port, domain_port}
use mini_vpn.Tuic.Codec.{
  encode_address, encode_packet, address_len, packet_at, u16_at, PacketMeta, decode_packet_meta,
  decode_packet, atyp_none, tuic_ver, cmd_packet,
}
use mini_vpn.Base.{
  ℕ, ◌+◌, ◌/◌, ◌%◌, ◌^◌, ◌≤◌, ◌<◌, min, ◌≡◌, refl, ap, ◌∙◌, inl, inr, some, List, [], ◌∷◌, ◌++◌,
  arith, Option-cases, length, get_elem?, take, drop, length-append, length-take, length-drop,
  drop-append, drop-add,
}
use mini_vpn.Base.Bytes.{IsU16, u16_be, be_bytes, length-be_bytes}
use mini_vpn.Base.Keys.{nat_eq, bytes_eq, pair_eq}

-- The address field of a packet: an encoded target, or none, as in all fragments but the first.
pub data AddressField : Type 0 where
  target : TargetAddr → AddressField
  omitted : AddressField

unfoldable pub address_bytes : AddressField → List ℕ
unfolding encode_address
address_bytes (target t) = encode_address t
address_bytes omitted = atyp_none ∷ []

-- The ten bytes before the address.
abbrev header_bytes : ℕ → ℕ → ℕ → ℕ → ℕ → List ℕ
header_bytes assoc pkt total frag size =
    tuic_ver
    ∷ cmd_packet
    ∷ (assoc / 256 % 256)
    ∷ (assoc % 256)
    ∷ (pkt / 256 % 256)
    ∷ (pkt % 256)
    ∷ total
    ∷ frag
    ∷ (size / 256 % 256)
    ∷ (size % 256)
    ∷ []

-- A packet as a TUIC peer writes it.
unfoldable pub packet_bytes : ℕ → ℕ → ℕ → ℕ → AddressField → List ℕ → List ℕ
unfolding address_bytes
packet_bytes assoc pkt total frag addr payload =
    header_bytes assoc pkt total frag (length payload) ++ (address_bytes addr ++ payload)

address_len-address_bytes :
    (addr : AddressField) (assoc pkt total frag size : ℕ) (rest : List ℕ)
    → address_len (header_bytes assoc pkt total frag size ++ (address_bytes addr ++ rest)) 10
      ≡ some (length (address_bytes addr))
unfolding address_len address_bytes
address_len-address_bytes (target (ip_port (v4 ip port))) assoc pkt total frag size rest = refl
address_len-address_bytes (target (ip_port (v6 ip port))) assoc pkt total frag size rest =
    ap some (omega (arith, length-append (be_bytes 16 ip) (u16_be port), length-be_bytes 16 ip))
address_len-address_bytes (target (domain_port host port)) assoc pkt total frag size rest =
    let len = min (length host) 255 in
    ap some (omega (arith, length-append (take len host) (u16_be port), length-take len host))
address_len-address_bytes omitted assoc pkt total frag size rest = refl

length-packet :
    (assoc pkt total frag size : ℕ) (addr payload : List ℕ)
    → length (header_bytes assoc pkt total frag size ++ (addr ++ payload))
      ≡ 10 + length addr + length payload
length-packet assoc pkt total frag size addr payload = omega (arith, length-append addr payload)

take-all : (xs : List ℕ) → take (length xs) xs ≡ xs
take-all [] = refl
take-all (x ∷ xs) = ap (◌∷◌ x) (take-all xs)

payload-packet :
    (assoc pkt total frag size : ℕ) (addr payload : List ℕ)
    → take
        (length payload)
        (drop (10 + length addr) (header_bytes assoc pkt total frag size ++ (addr ++ payload)))
      ≡ payload
payload-packet assoc pkt total frag size addr payload =
    ap (take (length payload))
      (drop-add 10 (length addr) _ ∙ drop-append (length addr) addr payload refl)
    ∙ take-all payload

-- Whatever a TUIC peer writes, in fragments or whole and with or without an address, is decoded to
-- its fields and its payload, if each field fits its bytes and the payload 65535 bytes.
pub decode-packet_bytes :
    (assoc pkt total frag : ℕ) (addr : AddressField) (payload : List ℕ)
    → IsU16 assoc
    → IsU16 pkt
    → length payload < 2 ^ 16
    → decode_packet_meta (packet_bytes assoc pkt total frag addr payload)
      ≡ some (record {
        assoc_id = assoc;
        pkt_id = pkt;
        frag_total = total;
        frag_id = frag;
        payload = payload;
      })
unfolding decode_packet_meta packet_bytes
decode-packet_bytes assoc pkt total frag addr payload ha hp hl = ground (
  arith,
  address_len-address_bytes addr assoc pkt total frag (length payload) payload,
  length-packet assoc pkt total frag (length payload) (address_bytes addr) payload,
  payload-packet assoc pkt total frag (length payload) (address_bytes addr) payload,
)

encode_packet-packet_bytes :
    (assoc : ℕ) (t : TargetAddr) (payload : List ℕ)
    → length payload < 2 ^ 16
    → encode_packet assoc t payload ≡ packet_bytes assoc 0 1 0 (target t) payload
unfolding encode_packet packet_bytes
encode_packet-packet_bytes assoc t payload h = ground arith

-- What `encode_packet` writes for a UDP payload of up to 65535 bytes is decoded to the same
-- association and payload, as one whole packet, whatever the target.
pub decode-encode_packet :
    (assoc : ℕ) (t : TargetAddr) (payload : List ℕ)
    → IsU16 assoc
    → length payload < 2 ^ 16
    → decode_packet (encode_packet assoc t payload) ≡ some (assoc, payload)
unfolding decode_packet
decode-encode_packet assoc t payload ha hl =
    rw (encode_packet-packet_bytes assoc t payload hl)
      (rw (decode-packet_bytes assoc 0 1 0 (target t) payload ha (omega arith) hl))

packet_at-payload :
    (buf : List ℕ) (start size : ℕ) (m : PacketMeta)
    → packet_at buf start size ≡ some m
    → m.payload ≡ take size (drop start buf)
unfolding packet_at
packet_at-payload buf start size m h = ground arith

address_len-pos : (buf : List ℕ) (pos n : ℕ) → address_len buf pos ≡ some n → 1 ≤ n
unfolding address_len
address_len-pos buf pos n h = elim (Option-cases (get_elem? buf pos)) [
  | inl e ↦ ground (arith, e)
  | inr (t, e) ↦ elim (Option-cases (get_elem? buf (pos + 1))) [
    | inl e' ↦ ground (arith, e, e')
    | inr (l, e') ↦ ground (arith, e, e')
  ]
]

length-take_all : (n : ℕ) (xs : List ℕ) → n ≤ length xs → length (take n xs) ≡ n
length-take_all n xs h = omega (arith, length-take n xs)

-- Whatever the bytes received, a decoded payload has the length that the size field says, and stands
-- whole in the buffer, right behind the ten bytes of the header and the address.
pub decode-within :
    (buf : List ℕ) (m : PacketMeta)
    → decode_packet_meta buf ≡ some m
    → (n : ℕ) × (address_len buf 10 ≡ some n)
      × (u16_at buf 8 ≡ some (length m.payload))
      × (10 + n + length m.payload ≤ length buf)
      × (m.payload ≡ take (length m.payload) (drop (10 + n) buf))
unfolding decode_packet_meta
decode-within buf m h = elim (Option-cases (u16_at buf 8)) [
  | inl e ↦ absurd (ground (arith, e))
  | inr (size, e) ↦ elim (Option-cases (address_len buf 10)) [
    | inl e' ↦ absurd (ground (arith, e, e'))
    | inr (n, e') ↦
        let room : 10 + n + size ≤ length buf = ground (arith, e, e') in
        let payload : m.payload ≡ take size (drop (10 + n) buf) =
          ground (arith, e, e', packet_at-payload buf (10 + n) size m) in
        let whole : length m.payload ≡ size =
          ap length payload
          ∙ length-take_all size (drop (10 + n) buf) (omega (arith, length-drop (10 + n) buf)) in
        (n, e', rw whole e, rw whole room, rw whole payload)
  ]
]
