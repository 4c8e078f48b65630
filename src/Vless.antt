-- ===== src/Vless.antt =====
-- src/reality/vless.rs: the request header of an empty flow, and the response header taken off.
-- With it the read side of src/reality_upstream.rs that takes the decrypted contents in
-- (`absorb_app`).
pub mod Request
pub mod Response
mod Tests
use mini_vpn.Target.{SocketAddr, v4, v6, TargetAddr, ip_port, domain_port}
use mini_vpn.Base.{
  ℕ, zero, suc, ◌+◌, ◌-◌, ◌*◌, ◌/◌, ◌%◌, ◌^◌, ◌≤◌, ◌<◌, min, max, ◌≡◌, refl, sym, ap, ◌∙◌, ◌≢◌, ◌↔◌,
  ◌⊎◌, inl, inr, Bool, true, false, not, ◌&&◌, ◌||◌, Option, none, some, List, [], ◌∷◌, ◌++◌, map,
  arith, ltb, leb, ◌==◌, ==_iff, ltb→lt, leb→le, if◌then◌else◌, Bool-cases, Option-cases, ◌>>=◌,
  is_some, some_inj, length, get_elem?, set, take, drop, replicate, length-append, length-take,
  length-drop, take-append-drop, length-set, length-replicate, take-append, drop-append, drop-add,
  get_elem?-append, All, Distinct, any, keep,
}
use mini_vpn.Base.Bytes.{
  IsByte, IsU16, IsU32, u16_be, u32_be, be_bytes, length-be_bytes, from_be16, from_be16-u16_be,
}
use mini_vpn.Base.Keys.{Eq, ◌=?◌, nat_eq, bytes_eq, pair_eq}
use mini_vpn.Base.Map.{
  Map, get, insert, remove, contains_key, retain, update, UniqueKeys, get-insert, get-remove,
  =?_refl, =?_eq, =?_ne, get-update, insert-UniqueKeys, remove-UniqueKeys, update-UniqueKeys,
  Distinct-le, length-remove-le, length-insert-le, length-remove-lt,
}

abbrev pub vless_version : ℕ
vless_version = 0

abbrev pub vless_cmd_tcp : ℕ
vless_cmd_tcp = 1

abbrev pub vless_atyp_ipv4 : ℕ
vless_atyp_ipv4 = 1

abbrev pub vless_atyp_domain : ℕ
vless_atyp_domain = 2

abbrev pub vless_atyp_ipv6 : ℕ
vless_atyp_ipv6 = 3

-- The arms of the match on the target; `as u8` drops nothing of a length of at most 255.
unfoldable pub vless_address : TargetAddr → List ℕ
vless_address (ip_port (v4 ip port)) = u16_be port ++ vless_atyp_ipv4 ∷ u32_be ip
vless_address (ip_port (v6 ip port)) = u16_be port ++ vless_atyp_ipv6 ∷ be_bytes 16 ip
vless_address (domain_port host port) =
    let len = min (length host) 255 in u16_be port ++ vless_atyp_domain ∷ len ∷ take len host

unfoldable pub encode_vless_request : List ℕ → ℕ → TargetAddr → List ℕ
unfolding vless_address
encode_vless_request uuid command target =
    vless_version ∷ (uuid ++ 0 ∷ command ∷ vless_address target)

pub record VlessResponseStripper : Type 0 where
  pub stripped : Bool

unfoldable pub new : VlessResponseStripper
new = record { stripped = false }

unfoldable pub is_stripped : VlessResponseStripper → Bool
is_stripped self = self.stripped

-- A buffer of fewer than two bytes has no `buf[1]`. The result with the stripper and the buffer as the call leaves them.
unfoldable pub strip : VlessResponseStripper → List ℕ → Bool × VlessResponseStripper × List ℕ
strip self buf = if self.stripped then (true, self, buf) else elim (get_elem? buf 1) [
  | none ↦ (false, self, buf)
  | some addons_len ↦
      if ltb (length buf) (2 + addons_len)
      then (false, self, buf)
      else (true, record { stripped = true }, drop (2 + addons_len) buf)
]

-- The fields of `RealityStream` that `absorb_app` works on.
pub record ReadSide : Type 0 where
  pub resp : VlessResponseStripper
  pub staging : List ℕ
  pub plaintext_out : List ℕ

-- `staging` and `plaintext_out` after `strip` has said whether the header is off.
abbrev pub staged : List ℕ → Bool × VlessResponseStripper × List ℕ → ReadSide
staged out (true, resp, staging) = record {
  resp = resp;
  staging = [];
  plaintext_out = out ++ staging;
}
staged out (false, resp, staging) = record { resp = resp; staging = staging; plaintext_out = out }

unfoldable pub absorb_app : ReadSide → List ℕ → ReadSide
unfolding is_stripped strip
absorb_app self content =
    if is_stripped self.resp
    then record self { plaintext_out = self.plaintext_out ++ content }
    else staged self.plaintext_out (strip self.resp (self.staging ++ content))
