-- ===== src/Reality/Handshake/Ending.antt =====
-- src/reality/handshake.rs and server_hello.rs: the handshake ends.
use mini_vpn.Reality.Handshake.Fuel.{
  IsDecided, and_then-IsDecided, ok_or-IsDecided, Shrinks, Shrinks-le, next_of-Shrinks,
  flight-IsDecided,
}
use mini_vpn.Reality.Framing.{next_record, push}
use mini_vpn.Reality.Record.{RecordKeys, open_record, next_seq, trim_zeros, pop}
use mini_vpn.Reality.ServerHello.{
  is_bytes, hrr_random, downgrade_sentinel, fault, get_range, find_ext, extract_selected_version,
  extract_key_share_x25519, parse_body, parse_server_hello,
}
use mini_vpn.Reality.KeySchedule.{HsKeys, derive_handshake_keys}
use mini_vpn.Reality.Record as Record
use mini_vpn.Reality.Framing as Framing
use mini_vpn.Reality.Handshake.{
  write_record, next_of, HandshakeInput, flight_fuel, client_finished, drive, Flight, flight,
}
use mini_vpn.Reality.{
  ServerHelloFault, server_hello, not_server_hello, header_cut, length_mismatch, legacy_version,
  random_cut, retry_request, downgrade, session_id_cut, session_id_echo, cipher_suite_cut,
  cipher_suite, compression_cut, compression, extensions_cut, no_versions, versions_length,
  selected_version, no_key_share, key_share_cut, key_share_group, key_share_length, body_too_long,
  zero_ecdhe, Aead, Hashes, Refusal, not_handshake, connection_closed,
}
use mini_vpn.Base.{
  ℕ, ◌+◌, ◌<◌, Bool, true, false, not, ◌||◌, Option, none, some, List, [], ◌∷◌, ◌++◌, arith, ltb,
  ◌==◌, if◌then◌else◌, if_intro, length, get_elem?, take, drop, concat,
}
use mini_vpn.Base.Bytes.{from_be}
use mini_vpn.Base.Results.{Result, ok, err, and_then, ok_or}
use mini_vpn.Base.Keys.{◌=?◌, nat_eq, bytes_eq, pair_eq}

fault-IsDecided {ℓ} :
    {A : Type ℓ} (b : Bool) (f : ServerHelloFault) (g : Unit {0} → Result Refusal A)
    → IsDecided (g tt)
    → IsDecided (and_then (fault b f) g)
fault-IsDecided true f g h = λ q. absurd cc
fault-IsDecided false f g h = h

field-IsDecided {ℓ κ} :
    {A : Type ℓ} {B : Type κ} (o : Option A) (f : ServerHelloFault) (g : A → Result Refusal B)
    → ((a : A) → IsDecided (g a))
    → IsDecided (and_then (ok_or o (server_hello f)) g)
field-IsDecided none f g h = λ q. absurd cc
field-IsDecided (some a) f g h = h a

selected_version-IsDecided : (exts : List ℕ) → IsDecided (extract_selected_version exts)
unfolding extract_selected_version
selected_version-IsDecided exts =
    field-IsDecided (find_ext (length exts) exts 0x002b) no_versions _
      (λ b. fault-IsDecided (not (length b == 2)) versions_length _ tt)

key_share-IsDecided : (exts : List ℕ) → IsDecided (extract_key_share_x25519 exts)
unfolding extract_key_share_x25519
key_share-IsDecided exts = field-IsDecided (find_ext (length exts) exts 0x0033) no_key_share _ (λ b.
    fault-IsDecided (ltb (length b) 4) key_share_cut _ (
      fault-IsDecided (not (from_be (take 2 b) == 0x001d)) key_share_group _ (
        fault-IsDecided (not (from_be (take 2 (drop 2 b)) == 32)) key_share_length _
          (ok_or-IsDecided (get_range b 4 32) (λ q. absurd cc)))))

parse_body-IsDecided :
    (body expected_session_id : List ℕ) → IsDecided (parse_body body expected_session_id)
unfolding parse_body
parse_body-IsDecided body expected_session_id =
    fault-IsDecided (not (is_bytes (get_range body 0 2) (3 ∷ 3 ∷ []))) legacy_version _ (
      field-IsDecided (get_range body 2 32) random_cut _ (λ random.
        fault-IsDecided (random =? hrr_random) retry_request _ (
          fault-IsDecided
            (drop 24 random =? downgrade_sentinel 1 || drop 24 random =? downgrade_sentinel 0)
            downgrade _
            (field-IsDecided (get_elem? body 34) session_id_cut _ (λ sid_len.
              field-IsDecided (get_range body 35 sid_len) session_id_cut _ (λ sid.
                fault-IsDecided (not (sid =? expected_session_id)) session_id_echo _ (
                  field-IsDecided (get_range body (35 + sid_len) 2) cipher_suite_cut _ (λ cs.
                    fault-IsDecided (not (from_be cs == 0x1301)) cipher_suite _ (
                      field-IsDecided (get_elem? body (37 + sid_len)) compression_cut _ (λ method.
                        fault-IsDecided (not (method == 0)) compression _ (
                          field-IsDecided (get_range body (38 + sid_len) 2) extensions_cut _ (λ el.
                            field-IsDecided (get_range body (40 + sid_len) (from_be el))
                              extensions_cut _
                              (λ exts.
                                and_then-IsDecided (extract_selected_version exts) _
                                  (selected_version-IsDecided exts)
                                  (λ selected e.
                                    fault-IsDecided (not (selected == 0x0304)) selected_version _ (
                                      and_then-IsDecided (extract_key_share_x25519 exts) _
                                        (key_share-IsDecided exts) (λ share f. tt))))))))))))))))

parse_server_hello-IsDecided :
    (bytes expected_session_id : List ℕ) → IsDecided (parse_server_hello bytes expected_session_id)
unfolding parse_server_hello
parse_server_hello-IsDecided bytes expected_session_id =
    fault-IsDecided (not (is_bytes (get_range bytes 0 1) (0x02 ∷ []))) not_server_hello _ (
      field-IsDecided (get_range bytes 1 3) header_cut _ (λ len_field.
        fault-IsDecided (not (from_be len_field == length (drop 4 bytes))) length_mismatch _
          (parse_body-IsDecided (drop 4 bytes) expected_session_id)))

keys-IsDecided :
    (hashes : Hashes) (ecdhe hello answer : List ℕ)
    → IsDecided (derive_handshake_keys hashes ecdhe hello answer)
unfolding derive_handshake_keys
keys-IsDecided hashes ecdhe hello answer =
    if_intro IsDecided (ecdhe =? _) {x = err zero_ecdhe} (λ q. absurd cc) tt

write_record-IsDecided :
    (content_type version : ℕ) (body : List ℕ) → IsDecided (write_record content_type version body)
unfolding write_record
write_record-IsDecided content_type version body =
    if_intro IsDecided (ltb _ (length body)) {x = err body_too_long} (λ q. absurd cc) tt

client_finished-IsDecided :
    (aead : Aead) (hashes : Hashes) (hs : HsKeys) (first transcript leftover : List ℕ)
    → IsDecided (client_finished aead hashes hs first transcript leftover)
unfolding client_finished
client_finished-IsDecided aead hashes hs first transcript leftover = tt

after_hello-IsDecided {ℓ} :
    {B : Type ℓ} (reads : List (List ℕ))
    (g : List ℕ × List ℕ × List ℕ × List (List ℕ) → Result Refusal B)
    → ((header payload left : List ℕ) (more : List (List ℕ))
        → length left + length (concat more) < length (concat reads)
        → IsDecided (g (header, payload, left, more)))
    → IsDecided (and_then (next_of reads []) g)
after_hello-IsDecided reads g h =
    after (next_of reads [])
      (Shrinks-le (next_of reads []) (omega arith) (next_of-Shrinks reads []))
  where
    after :
        (r : Result Refusal (List ℕ × List ℕ × List ℕ × List (List ℕ)))
        → Shrinks (length (concat reads)) r
        → IsDecided (and_then r g)
    after (err e) s = s
    after (ok (header, payload, left, more)) s = h header payload left more s

-- A handshake ends: the fuel of its loop is enough for whatever the connection gives.
pub drive-IsDecided :
    (aead : Aead) (hashes : Hashes) (verify_cert : List ℕ → Bool) (input : HandshakeInput)
    (reads : List (List ℕ))
    → IsDecided (drive aead hashes verify_cert input reads)
unfolding drive
drive-IsDecided aead hashes verify_cert input reads =
    and_then-IsDecided (write_record 0x16 0x0301 input.client_hello) _
      (write_record-IsDecided 0x16 0x0301 input.client_hello)
      (λ first e1. after_hello-IsDecided reads _ (λ header sh_msg buf more less.
        and_then-IsDecided (ok_or (get_elem? header 0) connection_closed) _
          (ok_or-IsDecided (get_elem? header 0) (λ q. absurd cc))
          (λ ct e2.
            and_then-IsDecided (if not (ct == 0x16) then err (not_handshake ct) else ok (tt {0})) _
              (if_intro IsDecided (not (ct == 0x16)) {x = err (not_handshake ct)} (λ q. absurd cc)
                tt)
              (λ handshake_record e3.
                and_then-IsDecided (parse_server_hello sh_msg input.expected_session_id) _
                  (parse_server_hello-IsDecided sh_msg input.expected_session_id)
                  (λ sh e4.
                    let ecdhe = hashes.x25519 input.client_eph_secret sh.server_key_share in
                    and_then-IsDecided
                      (derive_handshake_keys hashes ecdhe input.client_hello sh_msg) _
                      (keys-IsDecided hashes ecdhe input.client_hello sh_msg)
                      (λ hs e5.
                        let start : Flight = record {
                          recv = Record.new hs.server_key hs.server_iv;
                          reasm = Framing.new;
                          cert_verified = false;
                          transcript = input.client_hello ++ sh_msg;
                        } in
                        and_then-IsDecided
                          (flight aead hashes verify_cert hs.s_hs_secret (flight_fuel reads) more
                            buf start)
                          _
                          (flight-IsDecided aead hashes verify_cert hs.s_hs_secret
                            (flight_fuel reads) more buf start (omega (arith, less)))
                          (λ (end, leftover, unread) e6.
                            client_finished-IsDecided aead hashes hs first end.transcript
                              leftover)))))))
