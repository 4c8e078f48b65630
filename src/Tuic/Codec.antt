-- ===== src/Tuic/Codec.antt =====
-- src/tuic.rs: the commands on the wire, encoded and decoded.
pub mod RoundTrip
use mini_vpn.Target.{SocketAddr, v4, v6, TargetAddr, ip_port, domain_port}
use mini_vpn.Base.{
  ℕ, zero, suc, ◌+◌, ◌-◌, ◌*◌, ◌/◌, ◌%◌, ◌^◌, ◌≤◌, ◌<◌, min, max, ◌≡◌, refl, sym, ap, ◌∙◌, ◌≢◌, ◌↔◌,
  ◌⊎◌, inl, inr, Bool, true, false, not, ◌&&◌, ◌||◌, Option, none, some, List, [], ◌∷◌, ◌++◌, map,
  arith, ltb, leb, ◌==◌, ==_iff, ltb→lt, leb→le, if◌then◌else◌, Bool-cases, Option-cases, ◌>>=◌,
  is_some, length, get_elem?, set, take, drop, replicate, length-append, length-take, length-drop,
  take-append-drop, length-set, length-replicate, take-append, drop-append, drop-add,
  get_elem?-append, All, Distinct, any, keep,
}
use mini_vpn.Base.Bytes.{
  IsByte, IsU16, IsU32, u16_be, u32_be, be_bytes, length-be_bytes, from_be16, from_be16-u16_be,
}
use mini_vpn.Base.Keys.{Eq, ◌=?◌, nat_eq, bytes_eq, pair_eq}
use mini_vpn.Base.Map.{
  Map, get, insert, remove, contains_key, retain, update, UniqueKeys, get-insert, get-remove,
  =?_refl, =?_eq, =?_ne, get-update, insert-UniqueKeys, remove-UniqueKeys, update-UniqueKeys,
  Distinct-le, length-remove-le, length-remove-lt,
}

abbrev pub tuic_ver : ℕ
tuic_ver = 5

abbrev pub cmd_authenticate : ℕ
cmd_authenticate = 0

abbrev pub cmd_connect : ℕ
cmd_connect = 1

abbrev pub cmd_packet : ℕ
cmd_packet = 2

abbrev pub cmd_heartbeat : ℕ
cmd_heartbeat = 4

abbrev pub atyp_none : ℕ
atyp_none = 0xff

abbrev pub atyp_domain : ℕ
atyp_domain = 0

abbrev pub atyp_ipv4 : ℕ
atyp_ipv4 = 1

abbrev pub atyp_ipv6 : ℕ
atyp_ipv6 = 2

unfoldable pub encode_address : TargetAddr → List ℕ
encode_address (ip_port (v4 ip port)) = atyp_ipv4 ∷ (u32_be ip ++ u16_be port)
encode_address (ip_port (v6 ip port)) = atyp_ipv6 ∷ (be_bytes 16 ip ++ u16_be port)
encode_address (domain_port host port) =
    let len = min (length host) 255 in atyp_domain ∷ len ∷ (take len host ++ u16_be port)

unfoldable pub encode_authenticate : List ℕ → List ℕ → List ℕ
encode_authenticate uuid token = tuic_ver ∷ cmd_authenticate ∷ (uuid ++ token)

unfoldable pub encode_connect : TargetAddr → List ℕ
unfolding encode_address
encode_connect target = tuic_ver ∷ cmd_connect ∷ encode_address target

-- `data.len() as u16` keeps the low 16 bits.
unfoldable pub encode_packet : ℕ → TargetAddr → List ℕ → List ℕ
encode_packet assoc_id target payload =
    tuic_ver
    ∷ cmd_packet
    ∷ (assoc_id / 256 % 256)
    ∷ (assoc_id % 256)
    ∷ 0
    ∷ 0
    ∷ 1
    ∷ 0
    ∷ (length payload % 2 ^ 16 / 256 % 256)
    ∷ (length payload % 2 ^ 16 % 256)
    ∷ (encode_address target ++ payload)

unfoldable pub encode_heartbeat : List ℕ
encode_heartbeat = tuic_ver ∷ cmd_heartbeat ∷ []

unfoldable pub address_len_of : List ℕ → ℕ → ℕ → Option ℕ
address_len_of buf pos atyp =
    if atyp == atyp_ipv4
    then some (1 + 4 + 2)
    else if atyp == atyp_ipv6
    then some (1 + 16 + 2)
    else if atyp == atyp_domain
    then (do l ← get_elem? buf (pos + 1); some (1 + 1 + l + 2))
    else if atyp == atyp_none
    then some 1
    else none

unfoldable pub address_len : List ℕ → ℕ → Option ℕ
unfolding address_len_of
address_len buf pos = do atyp ← get_elem? buf pos; address_len_of buf pos atyp

pub record PacketMeta : Type 0 where
  pub assoc_id : ℕ
  pub pkt_id : ℕ
  pub frag_total : ℕ
  pub frag_id : ℕ
  pub payload : List ℕ

-- `u16::from_be_bytes` of two bytes of the buffer; the caller has checked that they are there.
abbrev pub u16_at : List ℕ → ℕ → Option ℕ
u16_at buf i = do hi ← get_elem? buf i; lo ← get_elem? buf (i + 1); some (from_be16 hi lo)

-- What is read once the address and the payload are known to lie in the buffer. An index that the
-- length check puts in range reads `some`: the chain stands for the source's direct indexing.
unfoldable pub packet_at : List ℕ → ℕ → ℕ → Option PacketMeta
packet_at buf data_start size = do
  assoc ← u16_at buf 2
  pkt ← u16_at buf 4
  total ← get_elem? buf 6
  frag ← get_elem? buf 7
  some (record {
    assoc_id = assoc;
    pkt_id = pkt;
    frag_total = total;
    frag_id = frag;
    payload = take size (drop data_start buf);
  })

-- `data_start.checked_add(size)` does not overflow a usize.
unfoldable pub decode_packet_meta : List ℕ → Option PacketMeta
unfolding address_len packet_at
decode_packet_meta buf = if ltb (length buf) 10 then none else do
  size ← u16_at buf 8
  addr_len ← address_len buf 10
  let data_start = 10 + addr_len
  if ltb (length buf) (data_start + size) then none else packet_at buf data_start size

unfoldable pub decode_packet : List ℕ → Option (ℕ × List ℕ)
unfolding decode_packet_meta
decode_packet buf = do m ← decode_packet_meta buf; some (m.assoc_id, m.payload)
