-- ===== src/Vless/Request.antt =====
-- src/reality/vless.rs (`encode_vless_request`): what a server that reads the format gets back.
use mathlib.Core.List.{append_assoc}
use mini_vpn.Target.{v4, v6, TargetAddr, ip_port, domain_port}
use mini_vpn.Vless.{vless_address, encode_vless_request}
use mini_vpn.Base.{
  ℕ, ◌^◌, ◌≤◌, ◌<◌, min, ◌≡◌, refl, true, ◌&&◌, Option, none, some, List, [], ◌∷◌, ◌++◌, arith, leb,
  ◌==◌, if◌then◌else◌, ◌>>=◌, length, take, drop, length-append, take-length, take-append,
  drop-append,
}
use mini_vpn.Base.Bytes.{
  IsU16, IsU32, u32_be, be_bytes, length-be_bytes, from_be16, from_be16-u16_be, from_be,
  from_be-be_bytes, from_be-u32_be,
}
use mini_vpn.Base.Keys.{nat_eq, bytes_eq, pair_eq}

-- The format read by its description, independent of the encoder: `port | atyp | address`, with the
-- bytes after it.
abbrev pub read_v4 : ℕ → List ℕ → Option (TargetAddr × List ℕ)
read_v4 port bs =
    if leb 4 (length bs) then some (ip_port (v4 (from_be (take 4 bs)) port), drop 4 bs) else none

abbrev pub read_v6 : ℕ → List ℕ → Option (TargetAddr × List ℕ)
read_v6 port bs =
    if leb 16 (length bs) then some (ip_port (v6 (from_be (take 16 bs)) port), drop 16 bs) else none

abbrev pub read_domain : ℕ → List ℕ → Option (TargetAddr × List ℕ)
read_domain port [] = none
read_domain port (n ∷ bs) =
    if leb n (length bs) then some (domain_port (take n bs) port, drop n bs) else none

abbrev pub read_target : List ℕ → Option (TargetAddr × List ℕ)
read_target [] = none
read_target (hi ∷ []) = none
read_target (hi ∷ lo ∷ []) = none
read_target (hi ∷ lo ∷ atyp ∷ bs) =
    let port = from_be16 hi lo in
    if atyp == 1
    then read_v4 port bs
    else if atyp == 2
    then read_domain port bs
    else if atyp == 3
    then read_v6 port bs
    else none

-- `addon_len | addons | command` and the target.
abbrev pub read_command : List ℕ → Option (ℕ × List ℕ)
read_command [] = none
read_command (n ∷ bs) = elim (drop n bs) [ [] ↦ none | command ∷ rest ↦ some (command, rest) ]

-- `version | uuid | addon_len | addons | command | target`: the uuid, the command, the target and the
-- bytes after them.
abbrev pub read_request : List ℕ → Option (List ℕ × ℕ × TargetAddr × List ℕ)
read_request [] = none
read_request (version ∷ bs) =
    if version == 0 && leb 16 (length bs)
    then (do
      (command, rest) ← read_command (drop 16 bs)
      (target, payload) ← read_target rest
      some (take 16 bs, command, target, payload))
    else none

-- The values that the types of the source allow, and a host name that is not cut.
abbrev pub IsTarget : TargetAddr → Type 0
IsTarget (ip_port (v4 ip port)) = IsU32 ip × IsU16 port
IsTarget (ip_port (v6 ip port)) = (ip < 256 ^ 16) × IsU16 port
IsTarget (domain_port host port) = (length host ≤ 255) × IsU16 port

read_target-vless_address :
    (t : TargetAddr) (payload : List ℕ)
    → IsTarget t
    → read_target (vless_address t ++ payload) ≡ some (t, payload)
unfolding vless_address
read_target-vless_address (ip_port (v4 ip port)) payload (h, p) =
    let enough : leb 4 (length (u32_be ip ++ payload)) ≡ true = ground arith in
    rw (enough, from_be-u32_be ip h, from_be16-u16_be port p) refl
read_target-vless_address (ip_port (v6 ip port)) payload (h, p) =
    let enough : leb 16 (length (be_bytes 16 ip ++ payload)) ≡ true =
      ground (arith, length-append (be_bytes 16 ip) payload, length-be_bytes 16 ip) in
    rw
      (
        enough,
        take-append 16 (be_bytes 16 ip) payload (length-be_bytes 16 ip),
        drop-append 16 (be_bytes 16 ip) payload (length-be_bytes 16 ip),
        from_be-be_bytes 16 ip h,
        from_be16-u16_be port p,
      )
      refl
read_target-vless_address (domain_port host port) payload (h, p) =
    let whole : min (length host) 255 ≡ length host = omega arith in
    let enough : leb (length host) (length (host ++ payload)) ≡ true =
      ground (arith, length-append host payload) in
    rw
      (
        whole,
        take-length host,
        enough,
        take-append (length host) host payload refl,
        drop-append (length host) host payload refl,
        from_be16-u16_be port p,
      )
      refl

-- A server that reads the request gets the client's id, the command and the target as they were
-- given, and every byte sent after the request, for a host name of at most 255 bytes.
pub read_request-encode :
    (uuid : List ℕ) (command : ℕ) (t : TargetAddr) (payload : List ℕ)
    → length uuid ≡ 16
    → IsTarget t
    → read_request (encode_vless_request uuid command t ++ payload)
      ≡ some (uuid, command, t, payload)
unfolding encode_vless_request
read_request-encode uuid command t payload sixteen h =
    let tail = 0 ∷ command ∷ vless_address t ++ payload in
    let enough : leb 16 (length (uuid ++ tail)) ≡ true =
      ground (arith, length-append uuid tail, sixteen) in
    rw
      (
        append_assoc uuid (0 ∷ command ∷ vless_address t) payload,
        enough,
        take-append 16 uuid tail sixteen,
        drop-append 16 uuid tail sixteen,
        read_target-vless_address t payload h,
      )
      refl
