-- ===== src/Reality/ServerHello.antt =====
-- src/reality/server_hello.rs: the ServerHello, read with every way to refuse it.
use mini_vpn.Reality.{
  Refusal, ServerHelloFault, server_hello, not_server_hello, header_cut, length_mismatch,
  legacy_version, random_cut, retry_request, downgrade, session_id_cut, session_id_echo,
  cipher_suite_cut, cipher_suite, compression_cut, compression, extensions_cut, no_versions,
  versions_length, selected_version, no_key_share, key_share_cut, key_share_group, key_share_length,
}
use mini_vpn.Base.{
  ℕ, zero, suc, ◌+◌, Bool, true, false, not, ◌||◌, Option, none, some, List, [], ◌∷◌, ltb, leb,
  ◌==◌, if◌then◌else◌, length, get_elem?, take, drop,
}
use mini_vpn.Base.Bytes.{from_be16, from_be}
use mini_vpn.Base.Results.{Result, ok, err, and_then, ok_or}
use mini_vpn.Base.Keys.{◌=?◌, nat_eq, bytes_eq, pair_eq}

abbrev pub hrr_random : List ℕ
hrr_random =
    0xcf ∷ 0x21 ∷ 0xad ∷ 0x74 ∷ 0xe5 ∷ 0x9a ∷ 0x61 ∷ 0x11 ∷ 0xbe ∷ 0x1d ∷ 0x8c ∷ 0x02 ∷ 0x1e ∷ 0x65
    ∷ 0xb8 ∷ 0x91 ∷ 0xc2 ∷ 0xa2 ∷ 0x11 ∷ 0x67 ∷ 0x7a ∷ 0xbb ∷ 0x8c ∷ 0x5e ∷ 0x07 ∷ 0x9e ∷ 0x09
    ∷ 0xe2 ∷ 0xc8 ∷ 0xa8 ∷ 0x33 ∷ 0x9c ∷ []

-- "DOWNGRD" and one byte more.
abbrev pub downgrade_sentinel : ℕ → List ℕ
downgrade_sentinel b = 0x44 ∷ 0x4f ∷ 0x57 ∷ 0x4e ∷ 0x47 ∷ 0x52 ∷ 0x44 ∷ b ∷ []

pub record ParsedServerHello : Type 0 where
  pub cipher : ℕ
  pub server_key_share : List ℕ

-- `get(p..p + n)`.
abbrev pub get_range : List ℕ → ℕ → ℕ → Option (List ℕ)
get_range xs p n = if leb (p + n) (length xs) then some (take n (drop p xs)) else none

abbrev pub fault : Bool → ServerHelloFault → Result Refusal (Unit {0})
fault true f = err (server_hello f)
fault false f = ok tt

abbrev pub is_bytes : Option (List ℕ) → List ℕ → Bool
is_bytes none bs = false
is_bytes (some xs) bs = xs =? bs

abbrev pub range_or : List ℕ → ℕ → ℕ → ServerHelloFault → Result Refusal (List ℕ)
range_or xs p n f = ok_or (get_range xs p n) (server_hello f)

abbrev pub byte_or : List ℕ → ℕ → ServerHelloFault → Result Refusal ℕ
byte_or xs p f = ok_or (get_elem? xs p) (server_hello f)

-- The loop over the extensions, each of which takes four bytes at least.
unfoldable pub find_ext : ℕ → List ℕ → ℕ → Option (List ℕ)
find_ext zero exts want = none
find_ext (suc n) (t1 ∷ t2 ∷ l1 ∷ l2 ∷ rest) want =
    let l = from_be16 l1 l2 in
    let later = find_ext n (drop l rest) want in
    if ltb (length rest) l
    then none
    else if from_be16 t1 t2 == want
    then some (take l rest)
    else later
find_ext (suc n) _ want = none

unfoldable pub extract_selected_version : List ℕ → Result Refusal ℕ
unfolding find_ext
extract_selected_version exts =
    and_then (ok_or (find_ext (length exts) exts 0x002b) (server_hello no_versions))
      (λ b. and_then (fault (not (length b == 2)) versions_length) (λ checked. ok (from_be b)))

unfoldable pub extract_key_share_x25519 : List ℕ → Result Refusal (List ℕ)
unfolding find_ext
extract_key_share_x25519 exts =
    and_then (ok_or (find_ext (length exts) exts 0x0033) (server_hello no_key_share)) (λ b.
      and_then (fault (ltb (length b) 4) key_share_cut) (λ whole.
        and_then (fault (not (from_be (take 2 b) == 0x001d)) key_share_group) (λ group.
          and_then (fault (not (from_be (take 2 (drop 2 b)) == 32)) key_share_length)
            (λ size. range_or b 4 32 key_share_cut))))

-- The body behind the handshake header.
unfoldable pub parse_body : List ℕ → List ℕ → Result Refusal ParsedServerHello
unfolding extract_selected_version extract_key_share_x25519
parse_body body expected_session_id =
    and_then (fault (not (is_bytes (get_range body 0 2) (3 ∷ 3 ∷ []))) legacy_version) (λ version.
      and_then (range_or body 2 32 random_cut) (λ random.
        and_then (fault (random =? hrr_random) retry_request) (λ first.
          and_then
            (fault
              (drop 24 random =? downgrade_sentinel 1 || drop 24 random =? downgrade_sentinel 0)
              downgrade)
            (λ level. and_then (byte_or body 34 session_id_cut) (λ sid_len.
              and_then (range_or body 35 sid_len session_id_cut) (λ sid.
                and_then (fault (not (sid =? expected_session_id)) session_id_echo) (λ echo.
                  and_then (range_or body (35 + sid_len) 2 cipher_suite_cut) (λ cs.
                    and_then (fault (not (from_be cs == 0x1301)) cipher_suite) (λ suite.
                      and_then (byte_or body (37 + sid_len) compression_cut) (λ method.
                        and_then (fault (not (method == 0)) compression) (λ plain.
                          and_then (range_or body (38 + sid_len) 2 extensions_cut) (λ el.
                            and_then (range_or body (40 + sid_len) (from_be el) extensions_cut)
                              (λ exts. and_then (extract_selected_version exts) (λ selected.
                                and_then (fault (not (selected == 0x0304)) selected_version)
                                  (λ modern. and_then (extract_key_share_x25519 exts) (λ share.
                                    ok (record {
                                      cipher = from_be cs;
                                      server_key_share = share;
                                    })))))))))))))))))

unfoldable pub parse_server_hello : List ℕ → List ℕ → Result Refusal ParsedServerHello
unfolding parse_body
parse_server_hello bytes expected_session_id =
    and_then (fault (not (is_bytes (get_range bytes 0 1) (0x02 ∷ []))) not_server_hello) (λ kind.
      and_then (range_or bytes 1 3 header_cut) (λ len_field.
        and_then (fault (not (from_be len_field == length (drop 4 bytes))) length_mismatch)
          (λ sized. parse_body (drop 4 bytes) expected_session_id)))
