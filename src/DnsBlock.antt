-- ===== src/DnsBlock.antt =====
-- src/dns_block.rs: which endpoints are encrypted DNS, by port, host name and address.
pub mod Names
mod Tests
use mini_vpn.FakeIp.{ipv4}
use mini_vpn.Base.{
  ℕ, zero, suc, ◌+◌, ◌-◌, ◌*◌, ◌/◌, ◌%◌, ◌^◌, ◌≤◌, ◌<◌, min, max, ◌≡◌, refl, sym, ap, ◌∙◌, ◌≢◌, ◌↔◌,
  ◌⊎◌, inl, inr, Bool, true, false, not, ◌&&◌, ◌||◌, Option, none, some, List, [], ◌∷◌, ◌++◌, map,
  arith, ltb, leb, ◌==◌, ==_iff, ltb→lt, leb→le, if◌then◌else◌, Bool-cases, Option-cases, ◌>>=◌,
  is_some, some_inj, length, get_elem?, set, take, drop, replicate, length-append, length-take,
  take-length, length-drop, take-append-drop, length-set, length-replicate, take-append,
  drop-append, drop-append_le, drop-add, get_elem?-append, All, Distinct, any, keep,
}
use mini_vpn.Base.Bytes.{
  IsByte, IsU16, IsU32, u16_be, u32_be, be_bytes, length-be_bytes, from_be16, from_be16-u16_be,
  from_be, from_be-be_bytes, from_be-u32_be,
}
use mini_vpn.Base.Keys.{Eq, ◌=?◌, nat_eq, bytes_eq, pair_eq}
use mini_vpn.Base.Map.{
  Map, get, insert, remove, contains_key, retain, update, UniqueKeys, get-insert, get-remove,
  =?_refl, =?_eq, =?_ne, get-update, insert-UniqueKeys, remove-UniqueKeys, update-UniqueKeys,
  Distinct-le, length-remove-le, length-insert-le, length-remove-lt,
}

unfoldable pub is_encrypted_dns_port : ℕ → Bool
is_encrypted_dns_port port = port == 853

unfoldable pub is_dns_relay_port : ℕ → Bool
unfolding is_encrypted_dns_port
is_dns_relay_port port = port == 53 || is_encrypted_dns_port port

abbrev pub doh_domains : List (List ℕ)
doh_domains =
    -- dns.google
    (100 ∷ 110 ∷ 115 ∷ 46 ∷ 103 ∷ 111 ∷ 111 ∷ 103 ∷ 108 ∷ 101 ∷ [])
    ∷
        -- dns.google.com
        (100 ∷ 110 ∷ 115 ∷ 46 ∷ 103 ∷ 111 ∷ 111 ∷ 103 ∷ 108 ∷ 101 ∷ 46 ∷ 99 ∷ 111 ∷ 109 ∷ [])
    ∷
        -- dns64.dns.google
        (100 ∷ 110 ∷ 115 ∷ 54 ∷ 52 ∷ 46 ∷ 100 ∷ 110 ∷ 115 ∷ 46 ∷ 103 ∷ 111 ∷ 111 ∷ 103 ∷ 108 ∷ 101
        ∷ [])
    ∷
        -- cloudflare-dns.com
        (99 ∷ 108 ∷ 111 ∷ 117 ∷ 100 ∷ 102 ∷ 108 ∷ 97 ∷ 114 ∷ 101 ∷ 45 ∷ 100 ∷ 110 ∷ 115 ∷ 46 ∷ 99
        ∷ 111 ∷ 109 ∷ [])
    ∷
        -- mozilla.cloudflare-dns.com
        (109 ∷ 111 ∷ 122 ∷ 105 ∷ 108 ∷ 108 ∷ 97 ∷ 46 ∷ 99 ∷ 108 ∷ 111 ∷ 117 ∷ 100 ∷ 102 ∷ 108 ∷ 97
        ∷ 114 ∷ 101 ∷ 45 ∷ 100 ∷ 110 ∷ 115 ∷ 46 ∷ 99 ∷ 111 ∷ 109 ∷ [])
    ∷
        -- chrome.cloudflare-dns.com
        (99 ∷ 104 ∷ 114 ∷ 111 ∷ 109 ∷ 101 ∷ 46 ∷ 99 ∷ 108 ∷ 111 ∷ 117 ∷ 100 ∷ 102 ∷ 108 ∷ 97 ∷ 114
        ∷ 101 ∷ 45 ∷ 100 ∷ 110 ∷ 115 ∷ 46 ∷ 99 ∷ 111 ∷ 109 ∷ [])
    ∷
        -- one.one.one.one
        (111 ∷ 110 ∷ 101 ∷ 46 ∷ 111 ∷ 110 ∷ 101 ∷ 46 ∷ 111 ∷ 110 ∷ 101 ∷ 46 ∷ 111 ∷ 110 ∷ 101 ∷ [])
    ∷
        -- dns.quad9.net
        (100 ∷ 110 ∷ 115 ∷ 46 ∷ 113 ∷ 117 ∷ 97 ∷ 100 ∷ 57 ∷ 46 ∷ 110 ∷ 101 ∷ 116 ∷ [])
    ∷
        -- dns11.quad9.net
        (100 ∷ 110 ∷ 115 ∷ 49 ∷ 49 ∷ 46 ∷ 113 ∷ 117 ∷ 97 ∷ 100 ∷ 57 ∷ 46 ∷ 110 ∷ 101 ∷ 116 ∷ [])
    ∷
        -- dns10.quad9.net
        (100 ∷ 110 ∷ 115 ∷ 49 ∷ 48 ∷ 46 ∷ 113 ∷ 117 ∷ 97 ∷ 100 ∷ 57 ∷ 46 ∷ 110 ∷ 101 ∷ 116 ∷ [])
    ∷
        -- doh.opendns.com
        (100 ∷ 111 ∷ 104 ∷ 46 ∷ 111 ∷ 112 ∷ 101 ∷ 110 ∷ 100 ∷ 110 ∷ 115 ∷ 46 ∷ 99 ∷ 111 ∷ 109 ∷ [])
    ∷
        -- dns.adguard-dns.com
        (100 ∷ 110 ∷ 115 ∷ 46 ∷ 97 ∷ 100 ∷ 103 ∷ 117 ∷ 97 ∷ 114 ∷ 100 ∷ 45 ∷ 100 ∷ 110 ∷ 115 ∷ 46
        ∷ 99 ∷ 111 ∷ 109 ∷ [])
    ∷
        -- dns.adguard.com
        (100 ∷ 110 ∷ 115 ∷ 46 ∷ 97 ∷ 100 ∷ 103 ∷ 117 ∷ 97 ∷ 114 ∷ 100 ∷ 46 ∷ 99 ∷ 111 ∷ 109 ∷ [])
    ∷
        -- doh.cleanbrowsing.org
        (100 ∷ 111 ∷ 104 ∷ 46 ∷ 99 ∷ 108 ∷ 101 ∷ 97 ∷ 110 ∷ 98 ∷ 114 ∷ 111 ∷ 119 ∷ 115 ∷ 105 ∷ 110
        ∷ 103 ∷ 46 ∷ 111 ∷ 114 ∷ 103 ∷ [])
    ∷
        -- doh.dns.sb
        (100 ∷ 111 ∷ 104 ∷ 46 ∷ 100 ∷ 110 ∷ 115 ∷ 46 ∷ 115 ∷ 98 ∷ [])
    ∷
        -- dns.nextdns.io
        (100 ∷ 110 ∷ 115 ∷ 46 ∷ 110 ∷ 101 ∷ 120 ∷ 116 ∷ 100 ∷ 110 ∷ 115 ∷ 46 ∷ 105 ∷ 111 ∷ [])
    ∷ []

abbrev pub doh_ips : List ℕ
doh_ips =
    ipv4 1 1 1 1
    ∷ ipv4 1 0 0 1
    ∷ ipv4 8 8 8 8
    ∷ ipv4 8 8 4 4
    ∷ ipv4 9 9 9 9
    ∷ ipv4 149 112 112 112
    ∷ ipv4 208 67 222 222
    ∷ ipv4 208 67 220 220
    ∷ ipv4 94 140 14 14
    ∷ ipv4 94 140 15 15
    ∷ []

-- `to_ascii_lowercase` on one byte.
abbrev pub lower : ℕ → ℕ
lower b = if leb 65 b && leb b 90 then b + 32 else b

-- `trim_end_matches('.')`.
unfoldable pub trim_end_dots : List ℕ → List ℕ
trim_end_dots [] = []
trim_end_dots (b ∷ bs) = elim (trim_end_dots bs) [
  | [] ↦ if b == 46 then [] else b ∷ []
  | c ∷ cs ↦ b ∷ c ∷ cs
]

-- `strip_suffix`.
unfoldable pub strip_suffix : List ℕ → List ℕ → Option (List ℕ)
strip_suffix d suffix =
    let n = length d - length suffix in
    if leb (length suffix) (length d) && drop n d =? suffix then some (take n d) else none

-- `ends_with('.')`.
unfoldable pub ends_with_dot : List ℕ → Bool
ends_with_dot [] = false
ends_with_dot (b ∷ []) = b == 46
ends_with_dot (b ∷ c ∷ bs) = ends_with_dot (c ∷ bs)

abbrev pub is_some_and : Option (List ℕ) → (List ℕ → Bool) → Bool
is_some_and none p = false
is_some_and (some a) p = p a

-- The test of one name of the list.
unfoldable pub matches_doh : List ℕ → List ℕ → Bool
unfolding strip_suffix ends_with_dot
matches_doh d doh = d =? doh || is_some_and (strip_suffix d doh) ends_with_dot

unfoldable pub is_doh_domain : List ℕ → Bool
unfolding trim_end_dots matches_doh
is_doh_domain domain = any (matches_doh (map lower (trim_end_dots domain))) doh_domains

unfoldable pub is_doh_ip : ℕ → Bool
is_doh_ip ip = any (λ i. i == ip) doh_ips
