-- ===== src/Dns/Tests.antt =====
-- src/dns.rs on a concrete query.
use mini_vpn.Dns.{DnsQuery, answer_a, parse_query, build_response}
use mini_vpn.Dns.Echo.{parse_query-build_response}
use mini_vpn.Base.{ℕ, ◌≡◌, refl, true, none, some, List, [], ◌∷◌, arith}
use mini_vpn.Base.Keys.{nat_eq, bytes_eq, pair_eq}

-- An A query for "a.b" with the id 258 and the recursion bit.
abbrev query_bytes : List ℕ
query_bytes =
    1 ∷ 2 ∷ 1 ∷ 0 ∷ 0 ∷ 1 ∷ 0 ∷ 0 ∷ 0 ∷ 0 ∷ 0 ∷ 0 ∷ 1 ∷ 97 ∷ 1 ∷ 98 ∷ 0 ∷ 0 ∷ 1 ∷ 0 ∷ 1 ∷ []

abbrev query : DnsQuery
query = record {
  id = 258;
  qname = 97 ∷ 46 ∷ 98 ∷ [];
  qtype = 1;
  rd = true;
  question = 1 ∷ 97 ∷ 1 ∷ 98 ∷ 0 ∷ 0 ∷ 1 ∷ 0 ∷ 1 ∷ [];
}

query_read : parse_query query_bytes ≡ some query
unfolding parse_query
query_read = refl

-- A compression pointer in the question is refused.
pointer_refused :
    parse_query (1 ∷ 2 ∷ 1 ∷ 0 ∷ 0 ∷ 1 ∷ 0 ∷ 0 ∷ 0 ∷ 0 ∷ 0 ∷ 0 ∷ 0xc0 ∷ 12 ∷ 0 ∷ 1 ∷ 0 ∷ 1 ∷ [])
    ≡ none
unfolding parse_query
pointer_refused = refl

parse_query-build_response_example :
    parse_query (build_response query (answer_a 3323068418 5)) ≡ some query
parse_query-build_response_example =
    parse_query-build_response query_bytes query (answer_a 3323068418 5) query_read (omega arith)
