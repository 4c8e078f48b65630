-- ===== src/Reality/Handshake.antt =====
-- src/reality/handshake.rs: the handshake (`drive`), with the bytes that the connection gives as an
-- input. Writing to the connection is taken to succeed.
pub mod Guard
pub mod Authentic
pub mod Fuel
pub mod Ending
mod Tests
use mini_vpn.Reality.ServerHello.{parse_server_hello}
use mini_vpn.Reality.Framing.{next_record, HandshakeReassembler, push}
use mini_vpn.Reality.Framing as Framing
use mini_vpn.Reality.KeySchedule.{
  HsKeys, AppKeys, derive_handshake_keys, derive_application_keys, compute_finished_verify_data,
  transcript_hash,
}
use mini_vpn.Reality.Record.{RecordKeys, seal, open_record, max_tls_plaintext}
use mini_vpn.Reality.Record as Record
use mini_vpn.Reality.{
  Aead, Hashes, Refusal, connection_closed, body_too_long, not_handshake, unexpected_message,
  unexpected_record, no_certificate, finished_mac, certificate_refused, out_of_fuel,
}
use mini_vpn.Base.{
  ℕ, zero, suc, ◌+◌, ◌-◌, ◌*◌, ◌/◌, ◌%◌, ◌^◌, ◌≤◌, ◌<◌, min, max, ◌≡◌, refl, sym, ap, ◌∙◌, ◌≢◌, ◌↔◌,
  ◌⊎◌, inl, inr, Bool, true, false, not, ◌&&◌, ◌||◌, Option, none, some, List, [], ◌∷◌, ◌++◌, map,
  arith, ltb, leb, ◌==◌, ==_iff, ltb→lt, leb→le, if◌then◌else◌, Bool-cases, if_cases, if_intro,
  Option-cases, ◌>>=◌, is_some, some_inj, bind_some, length, get_elem?, set, take, drop, replicate,
  length-append, length-take, take-length, length-drop, take-append-drop, length-set,
  length-replicate, take-append, drop-append, drop-append_le, drop-add, get_elem?-append,
  get_elem?-append_lt, take-append_le, All, Distinct, any, any_iff, Some, and_right, or_right, keep,
  concat,
}
use mini_vpn.Base.Bytes.{
  IsByte, IsU16, IsU32, u16_be, u32_be, be_bytes, length-be_bytes, from_be16, from_be16-u16_be,
  from_be, from_be-be_bytes, from_be-u32_be,
}
use mini_vpn.Base.Results.{Result, ok, err, and_then, and_then_ok, and_then_intro, ok_or, ok_inj}
use mini_vpn.Base.Keys.{Eq, ◌=?◌, nat_eq, bytes_eq, pair_eq}
use mini_vpn.Base.Map.{
  Map, get, insert, remove, contains_key, retain, update, UniqueKeys, get-insert, get-remove,
  =?_refl, =?_eq, =?_ne, get-update, insert-UniqueKeys, remove-UniqueKeys, update-UniqueKeys,
  Distinct-le, length-remove-le, length-insert-le, length-remove-lt, length-update,
}

unfoldable pub write_record : ℕ → ℕ → List ℕ → Result Refusal (List ℕ)
write_record content_type version body =
    if ltb max_tls_plaintext (length body)
    then err body_too_long
    else ok (content_type ∷ (u16_be version ++ u16_be (length body) ++ body))

-- `RecordReader::next`: the bytes read are cut at records, and more are read until one is whole; the
-- end of the connection is the end of the list, or a read of no bytes.
unfoldable pub next_of :
    List (List ℕ) → List ℕ → Result Refusal (List ℕ × List ℕ × List ℕ × List (List ℕ))
unfolding next_record
next_of [] buf = and_then (next_record buf) (λ o. elim o [
  | none ↦ err connection_closed
  | some (header, payload, rest) ↦ ok (header, payload, rest, [])
])
next_of (bs ∷ more) buf =
    let later = next_of more (buf ++ bs) in
    and_then (next_record buf) (λ o. elim o [
      | none ↦ if length bs == 0 then err connection_closed else later
      | some (header, payload, rest) ↦ ok (header, payload, rest, bs ∷ more)
    ])

pub record HandshakeInput : Type 0 where
  pub client_hello : List ℕ
  pub client_eph_secret : List ℕ
  pub expected_session_id : List ℕ

-- With the bytes that the client sent.
pub record HandshakeOutput : Type 0 where
  pub recv_keys : RecordKeys
  pub send_keys : RecordKeys
  pub leftover : List ℕ
  pub s_ap_secret : List ℕ
  pub c_ap_secret : List ℕ
  pub sent : List ℕ

-- The variables of the loop over the server's flight.
pub record Flight : Type 0 where
  pub recv : RecordKeys
  pub reasm : HandshakeReassembler
  pub cert_verified : Bool
  pub transcript : List ℕ

module _ (aead : Aead) (hashes : Hashes) (verify_cert : List ℕ → Bool) (s_hs_secret : List ℕ) where
  -- The match on the type of a message; `true` for the server's Finished. A message has four bytes
  -- at least.
  unfoldable pub flight_message : Flight → List ℕ → Result Refusal (Bool × Flight)
  unfolding compute_finished_verify_data transcript_hash
  flight_message self msg =
      let folded = record self { transcript = self.transcript ++ msg } in
      let th = transcript_hash hashes (self.transcript ∷ []) in
      let expected = compute_finished_verify_data hashes s_hs_secret th in
      and_then (ok_or (get_elem? msg 0) (unexpected_message 0)) (λ t.
        if t == 0x08
        then ok (false, folded)
        else if t == 0x0b
        then (if verify_cert msg
            then ok (false, record folded { cert_verified = true })
            else err certificate_refused)
        else if t == 0x0f
        then ok (false, folded)
        else if t == 0x14
        then (if not self.cert_verified
            then err no_certificate
            else if drop 4 msg =? expected
            then ok (true, folded)
            else err finished_mac)
        else err (unexpected_message t))

  unfoldable pub flight_messages : Flight → List (List ℕ) → Result Refusal (Bool × Flight)
  unfolding flight_message
  flight_messages self [] = ok (false, self)
  flight_messages self (msg ∷ msgs) =
      and_then (flight_message self msg)
        (λ (done, next). if done then ok (true, next) else flight_messages next msgs)

  -- One record of the flight: a change of cipher is passed over without the receive keys.
  unfoldable pub flight_record : Flight → List ℕ → List ℕ → Result Refusal (Bool × Flight)
  unfolding open_record push flight_messages
  flight_record self header payload = and_then (ok_or (get_elem? header 0) connection_closed) (λ ct.
      if ct == 0x14
      then ok (false, self)
      else if ct == 0x17
      then and_then (open_record aead self.recv header payload) (λ (keys, inner_type, content).
        let (msgs, reasm) = push self.reasm content in
        if not (inner_type == 0x16)
        then err (not_handshake inner_type)
        else flight_messages (record self { recv = keys; reasm = reasm }) msgs)
      else err (unexpected_record ct))

  unfoldable pub flight :
      ℕ → List (List ℕ) → List ℕ → Flight → Result Refusal (Flight × List ℕ × List (List ℕ))
  unfolding next_of flight_record
  flight zero reads buf self = err out_of_fuel
  flight (suc n) reads buf self = and_then (next_of reads buf) (λ (header, payload, left, more).
      and_then (flight_record self header payload)
        (λ (done, next). if done then ok (next, left, more) else flight n more left next))

-- A read gives a record of five bytes at least, or is taken from the list.
abbrev pub flight_fuel : List (List ℕ) → ℕ
flight_fuel reads = suc (length (concat reads))

-- After the server's flight: the secrets of the stream, and the client's Finished.
unfoldable pub client_finished :
    Aead → Hashes → HsKeys → List ℕ → List ℕ → List ℕ → Result Refusal HandshakeOutput
unfolding seal derive_application_keys compute_finished_verify_data transcript_hash Record.new
client_finished aead hashes hs first transcript leftover =
    let th = transcript_hash hashes (transcript ∷ []) in
    let cfin = compute_finished_verify_data hashes hs.c_hs_secret th in
    let app = derive_application_keys hashes hs.handshake_secret th in
    and_then (seal aead (Record.new hs.client_key hs.client_iv) 0x16 (0x14 ∷ 0 ∷ 0 ∷ 0x20 ∷ cfin))
      (λ (keys, fin_record). ok (record {
        recv_keys = Record.new app.server_key app.server_iv;
        send_keys = Record.new app.client_key app.client_iv;
        leftover = leftover;
        s_ap_secret = app.s_ap_secret;
        c_ap_secret = app.c_ap_secret;
        sent = first ++ (0x14 ∷ 3 ∷ 3 ∷ 0 ∷ 1 ∷ 1 ∷ []) ++ fin_record;
      }))

unfoldable pub drive :
    Aead
    → Hashes
    → (List ℕ → Bool)
    → HandshakeInput
    → List (List ℕ)
    → Result Refusal HandshakeOutput
unfolding write_record next_of parse_server_hello derive_handshake_keys flight client_finished
    Record.new Framing.new
drive aead hashes verify_cert input reads =
    and_then (write_record 0x16 0x0301 input.client_hello) (λ first.
      and_then (next_of reads []) (λ (header, sh_msg, buf, more).
        and_then (ok_or (get_elem? header 0) connection_closed) (λ ct.
          and_then (if not (ct == 0x16) then err (not_handshake ct) else ok (tt {0}))
            (λ handshake_record.
              and_then (parse_server_hello sh_msg input.expected_session_id) (λ sh.
                and_then
                  (derive_handshake_keys hashes
                    (hashes.x25519 input.client_eph_secret sh.server_key_share) input.client_hello
                    sh_msg)
                  (λ hs.
                    and_then
                      (flight aead hashes verify_cert hs.s_hs_secret (flight_fuel reads) more buf
                        (record {
                          recv = Record.new hs.server_key hs.server_iv;
                          reasm = Framing.new;
                          cert_verified = false;
                          transcript = input.client_hello ++ sh_msg;
                        }))
                      (λ (end, leftover, unread).
                        client_finished aead hashes hs first end.transcript leftover)))))))
