-- ===== src/DnsBlock/Tests.antt =====
-- src/dns_block.rs on concrete names.
use mini_vpn.DnsBlock.{doh_domains, lower, trim_end_dots, is_doh_domain}
use mini_vpn.DnsBlock.Names.{IsUnder, is_doh_domain_iff}
use mini_vpn.Base.{ℕ, ◌≡◌, refl, ◌↔◌, true, false, List, [], ◌∷◌, map, Some}
use mini_vpn.Base.Keys.{nat_eq, bytes_eq, pair_eq}

-- "DNS.google."
abbrev dns_google : List ℕ
dns_google = 68 ∷ 78 ∷ 83 ∷ 46 ∷ 103 ∷ 111 ∷ 111 ∷ 103 ∷ 108 ∷ 101 ∷ 46 ∷ []

-- "notdns.google"
abbrev not_dns_google : List ℕ
not_dns_google = 110 ∷ 111 ∷ 116 ∷ 100 ∷ 110 ∷ 115 ∷ 46 ∷ 103 ∷ 111 ∷ 111 ∷ 103 ∷ 108 ∷ 101 ∷ []

dns_google_blocked : is_doh_domain dns_google ≡ true
unfolding is_doh_domain
dns_google_blocked = refl

not_dns_google_open : is_doh_domain not_dns_google ≡ false
unfolding is_doh_domain
not_dns_google_open = refl

is_doh_domain_iff_example :
    (is_doh_domain dns_google ≡ true)
    ↔ Some (IsUnder (map lower (trim_end_dots dns_google))) doh_domains
is_doh_domain_iff_example = is_doh_domain_iff dns_google
