-- ===== src/Reality/Stream.antt =====
-- src/reality_upstream.rs: the stream of application data over TLS records (`RealityStream`). What
-- the two halves of the TCP connection answer to the calls on them are inputs, in order.
pub mod Peer
pub mod Decode
pub mod Absorb
pub mod Flush
pub mod Turns
pub mod Delivery
pub mod Ending
pub mod CleanEnd
use mini_vpn.Vless.{ReadSide, absorb_app}
use mini_vpn.Vless as Vless
use mini_vpn.Reality.Framing.{next_record, split_messages}
use mini_vpn.Reality.KeySchedule.{expand_label, next_application_traffic_secret}
use mini_vpn.Reality.KeySchedule.Label
use mini_vpn.Reality.Record.{RecordKeys, seal, open_record, max_tls_plaintext}
use mini_vpn.Reality.Record as Record
use mini_vpn.Reality.{
  Aead, Hashes, Refusal, alert_received, key_update_frame, key_update_request, truncated,
  write_zero, io_failed,
}
use mini_vpn.Base.{
  ℕ, zero, suc, ◌+◌, ◌-◌, ◌*◌, ◌/◌, ◌%◌, ◌^◌, ◌≤◌, ◌<◌, min, max, ◌≡◌, refl, sym, ap, ◌∙◌, ◌≢◌, ◌↔◌,
  ◌⊎◌, inl, inr, Bool, true, false, not, ◌&&◌, ◌||◌, Option, none, some, List, [], ◌∷◌, ◌++◌, map,
  arith, ltb, leb, ◌==◌, ==_iff, ltb→lt, leb→le, if◌then◌else◌, Bool-cases, Option-cases, ◌>>=◌,
  is_some, some_inj, bind_some, length, get_elem?, set, take, drop, replicate, length-append,
  length-take, take-length, length-drop, take-append-drop, length-set, length-replicate,
  take-append, drop-append, drop-append_le, drop-add, get_elem?-append, get_elem?-append_lt,
  take-append_le, All, Distinct, any, any_iff, Some, and_right, or_right, keep, concat,
}
use mini_vpn.Base.Bytes.{
  IsByte, IsU16, IsU32, u16_be, u32_be, be_bytes, length-be_bytes, from_be16, from_be16-u16_be,
  from_be, from_be-be_bytes, from_be-u32_be,
}
use mini_vpn.Base.Results.{Result, ok, err, and_then, and_then_ok, ok_or, ok_inj}
use mini_vpn.Base.Keys.{Eq, ◌=?◌, nat_eq, bytes_eq, pair_eq}
use mini_vpn.Base.Map.{
  Map, get, insert, remove, contains_key, retain, update, UniqueKeys, get-insert, get-remove,
  =?_refl, =?_eq, =?_ne, get-update, insert-UniqueKeys, remove-UniqueKeys, update-UniqueKeys,
  Distinct-le, length-remove-le, length-insert-le, length-remove-lt, length-update,
}

-- `recv_keys` to `client_ap_secret` as in the source, with `resp`, `staging` and `plaintext_out` in `side`.
pub record RealityStream : Type 0 where
  pub recv_keys : RecordKeys
  pub send_keys : RecordKeys
  pub read_raw : List ℕ
  pub side : ReadSide
  pub write_pending : List ℕ
  pub server_ap_secret : List ℕ
  pub client_ap_secret : List ℕ

unfoldable pub new : RecordKeys → RecordKeys → List ℕ → List ℕ → List ℕ → RealityStream
unfolding Vless.new
new recv_keys send_keys leftover server_ap_secret client_ap_secret = record {
  recv_keys = recv_keys;
  send_keys = send_keys;
  read_raw = leftover;
  side = record { resp = Vless.new; staging = []; plaintext_out = [] };
  write_pending = [];
  server_ap_secret = server_ap_secret;
  client_ap_secret = client_ap_secret;
}

pub data Decoded : Type 0 where
  app_data : List ℕ → Decoded
  dropped : Decoded
  eof : Decoded

-- `Poll<io::Result<_>>`.
pub data Poll (A : Type 0) : Type 0 where
  ready : Result Refusal A → Poll A
  pending : Poll A

-- What one call of `poll_write` on the write half answers: the number of bytes taken.
pub data WriteAnswer : Type 0 where
  wrote : ℕ → WriteAnswer
  write_failed : WriteAnswer
  write_pends : WriteAnswer

-- What one call of `poll_read` on the read half answers; no bytes are the end of the stream.
pub data ReadAnswer : Type 0 where
  filled : List ℕ → ReadAnswer
  read_failed : ReadAnswer
  read_pends : ReadAnswer

abbrev pub is_nil {ℓ} : {A : Type ℓ} → List A → Bool
is_nil [] = true
is_nil (x ∷ xs) = false

-- The loop over the write half. It ends when the answers do, since what then follows is not known.
unfoldable pub poll_flush_pending :
    List WriteAnswer → RealityStream → Poll (Unit {0}) × RealityStream × List WriteAnswer
poll_flush_pending [] self =
    (if is_nil self.write_pending then ready (ok tt) else pending, self, [])
poll_flush_pending (write_failed ∷ more) self =
    if is_nil self.write_pending
    then (ready (ok tt), self, write_failed ∷ more)
    else (ready (err io_failed), self, more)
poll_flush_pending (write_pends ∷ more) self =
    if is_nil self.write_pending
    then (ready (ok tt), self, write_pends ∷ more)
    else (pending, self, more)
poll_flush_pending (wrote zero ∷ more) self =
    if is_nil self.write_pending
    then (ready (ok tt), self, wrote zero ∷ more)
    else (ready (err write_zero), self, more)
poll_flush_pending (wrote (suc k) ∷ more) self =
    let rest =
      poll_flush_pending more (record self { write_pending = drop (suc k) self.write_pending }) in
    if is_nil self.write_pending then (ready (ok tt), self, wrote (suc k) ∷ more) else rest

-- What one turn of the loop of `poll_read` does: it returns, or the loop goes on.
pub data Turn : Type 0 where
  returns : Poll (List ℕ) → Turn
  again : Turn

-- Steps 1 and 2 ended without a result: step 3 reads more.
unfoldable pub read_more : List ReadAnswer → RealityStream → Turn × RealityStream × List ReadAnswer
read_more [] self = (returns pending, self, [])
read_more (read_failed ∷ more) self = (returns (ready (err io_failed)), self, more)
read_more (read_pends ∷ more) self = (returns pending, self, more)
read_more (filled [] ∷ more) self =
    (returns (ready (if is_nil self.read_raw then ok [] else err truncated)), self, more)
read_more (filled (b ∷ bs) ∷ more) self =
    (again, record self { read_raw = self.read_raw ++ b ∷ bs }, more)

-- Steps 2 and 3: the match on what `decode_one` gave.
unfoldable pub after_decode :
    List ReadAnswer
    → RealityStream
    → Result Refusal (Option Decoded × RealityStream)
    → Turn × RealityStream × List ReadAnswer
unfolding absorb_app read_more
after_decode reads self (err e) = (returns (ready (err e)), self, reads)
after_decode reads self (ok (none, next)) = read_more reads next
after_decode reads self (ok (some (app_data content), next)) =
    (again, record next { side = absorb_app next.side content }, reads)
after_decode reads self (ok (some dropped, next)) = (again, next, reads)
after_decode reads self (ok (some eof, next)) = (returns (ready (ok [])), next, reads)

abbrev pub Halves : Type 0
Halves = RealityStream × List ReadAnswer × List WriteAnswer

-- How a turn of `poll_read` ends: with the error of the flush, with a result, or in the next turn.
abbrev pub loop_end :
    Poll (Unit {0})
    → Turn
    → Halves
    → Halves
    → Option (Poll (List ℕ) × Halves)
    → Option (Poll (List ℕ) × Halves)
loop_end (ready (err e)) turn flushed next rest = some (ready (err e), flushed)
loop_end (ready (ok done)) (returns p) flushed next rest = some (p, next)
loop_end (ready (ok done)) again flushed next rest = rest
loop_end pending (returns p) flushed next rest = some (p, next)
loop_end pending again flushed next rest = rest

module _ (hashes : Hashes) where
  unfoldable pub record_keys_from_secret : List ℕ → RecordKeys
  unfolding expand_label Record.new
  record_keys_from_secret secret =
      Record.new (expand_label hashes secret Label.key [] 16)
        (expand_label hashes secret Label.iv [] 12)

  -- Step A: the next receive key.
  unfoldable pub rotate_recv : RealityStream → RealityStream
  unfolding record_keys_from_secret next_application_traffic_secret
  rotate_recv self =
      let next = next_application_traffic_secret hashes self.server_ap_secret in
      record self { server_ap_secret = next; recv_keys = record_keys_from_secret next }

module _ (aead : Aead) (hashes : Hashes) where
  -- Step B of `on_key_update`: the reply under the old key, and then the next key.
  unfoldable pub reply_update : RealityStream → Result Refusal RealityStream
  unfolding record_keys_from_secret next_application_traffic_secret
  reply_update self =
      let next = next_application_traffic_secret hashes self.client_ap_secret in
      and_then (seal aead self.send_keys 0x16 (0x18 ∷ 0 ∷ 0 ∷ 1 ∷ 0 ∷ [])) (λ (keys, reply).
        ok (record self {
          write_pending = self.write_pending ++ reply;
          client_ap_secret = next;
          send_keys = record_keys_from_secret hashes next;
        }))

  unfoldable pub on_key_update : RealityStream → List ℕ → Result Refusal RealityStream
  unfolding rotate_recv reply_update
  on_key_update self msg =
      if not (length msg == 5) || not (take 3 (drop 1 msg) =? (0 ∷ 0 ∷ 1 ∷ []))
      then err key_update_frame
      else elim (get_elem? msg 4) [
        | none ↦ err key_update_frame
        | some request_update ↦
            if ltb 1 request_update
            then err key_update_request
            else if request_update == 1
            then reply_update (rotate_recv hashes self)
            else ok (rotate_recv hashes self)
      ]

  -- The messages of one record after the handshake: only a key update does anything.
  unfoldable pub post_handshake : RealityStream → List (List ℕ) → Result Refusal RealityStream
  unfolding on_key_update
  post_handshake self [] = ok self
  post_handshake self ([] ∷ msgs) = post_handshake self msgs
  post_handshake self ((t ∷ body) ∷ msgs) =
      and_then (if t == 0x18 then on_key_update self (t ∷ body) else ok self)
        (λ next. post_handshake next msgs)

  -- The match on the inner content type.
  unfoldable pub decoded :
      RealityStream → ℕ → List ℕ → Result Refusal (Option Decoded × RealityStream)
  unfolding post_handshake split_messages
  decoded self inner content =
      if inner == 0x17
      then ok (some (app_data content), self)
      else if inner == 0x15
      then (if take 2 content =? (1 ∷ 0 ∷ [])
          then ok (some eof, self)
          else err (alert_received (get_elem? content 0) (get_elem? content 1)))
      else if inner == 0x16
      then and_then (post_handshake self (split_messages (length content) content).0)
          (λ next. ok (some dropped, next))
      else ok (some dropped, self)

  -- The stream after an error is not given: its caller closes it.
  unfoldable pub decode_one : RealityStream → Result Refusal (Option Decoded × RealityStream)
  unfolding next_record open_record decoded
  decode_one self = and_then (next_record self.read_raw) (λ o. elim o [
    | none ↦ ok (none, self)
    | some (header, payload, rest) ↦
        and_then (open_record aead self.recv_keys header payload) (λ (keys, inner, content).
          decoded (record self { read_raw = rest; recv_keys = keys }) inner content)
  ])

  -- Steps 1 to 3 with the room that is left in the reader's buffer.
  unfoldable pub read_turn :
      List ReadAnswer → RealityStream → ℕ → Turn × RealityStream × List ReadAnswer
  unfolding decode_one after_decode
  read_turn reads self remaining =
      let out = self.side.plaintext_out in
      let n = min remaining (length out) in
      if not (is_nil out)
      then (
        returns (ready (ok (take n out))),
        record self { side = record self.side { plaintext_out = drop n out } },
        reads,
      )
      else after_decode reads self (decode_one self)

  -- The loop, on fuel: a turn that goes on takes a record off or an answer in. Step 0 is a flush
  -- whose error ends the call.
  unfoldable pub poll_read :
      ℕ → List ReadAnswer → List WriteAnswer → RealityStream → ℕ → Option (Poll (List ℕ) × Halves)
  unfolding poll_flush_pending read_turn
  poll_read zero reads writes self remaining = none
  poll_read (suc n) reads writes self remaining =
      let (flushed, self, writes) = poll_flush_pending writes self in
      let (turn, next, more) = read_turn reads self remaining in
      let rest = poll_read n more writes next remaining in
      loop_end flushed turn (self, reads, writes) (next, more, writes) rest

  unfoldable pub poll_write :
      List WriteAnswer → RealityStream → List ℕ → Poll ℕ × RealityStream × List WriteAnswer
  unfolding poll_flush_pending seal
  poll_write writes self buf =
      let (flushed, self, writes) = poll_flush_pending writes self in
      elim flushed [
        | pending ↦ (pending, self, writes)
        | ready (err e) ↦ (ready (err e), self, writes)
        | ready (ok done) ↦
            let n = min (length buf) max_tls_plaintext in
            if is_nil buf
            then (ready (ok 0), self, writes)
            else elim (seal aead self.send_keys 0x17 (take n buf)) [
              | err e ↦ (ready (err e), self, writes)
              | ok (keys, rec) ↦
                  let sealed = record self {
                    send_keys = keys;
                    write_pending = self.write_pending ++ rec;
                  } in
                  let (after, self, writes) = poll_flush_pending writes sealed in
                  elim after [
                    | ready (err e) ↦ (ready (err e), self, writes)
                    | _ ↦ (ready (ok n), self, writes)
                  ]
            ]
      ]
