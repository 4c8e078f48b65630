-- ===== src/Reality/Stream/Ending.antt =====
-- src/reality_upstream.rs (`poll_read`): the loop ends, and the end of the stream is told only where
-- it is one.
use mini_vpn.Reality.Stream.Flush.{poll_flush_pending_keeps}
use mini_vpn.Reality.Stream.Turns.{received}
use mini_vpn.Reality.Stream.{
  RealityStream, Decoded, app_data, dropped, eof, Poll, ready, pending, ReadAnswer, filled,
  read_failed, read_pends, WriteAnswer, Turn, returns, again, is_nil, on_key_update, reply_update,
  rotate_recv, post_handshake, decoded, decode_one, read_more, after_decode, read_turn,
  poll_flush_pending, poll_read, loop_end, Halves,
}
use mini_vpn.Reality.Framing.Records.{next_record_shorter}
use mini_vpn.Reality.Framing.{next_record, split_messages}
use mini_vpn.Reality.Record.{seal, open_record}
use mini_vpn.Reality.{Aead, Hashes, Refusal, alert_received, key_update_frame, key_update_request}
use mini_vpn.Base.{
  ℕ, zero, suc, ◌+◌, ◌<◌, ◌≡◌, refl, ap, not, ◌||◌, Option, none, some, List, [], ◌∷◌, arith, ltb,
  ◌==◌, if◌then◌else◌, if_intro, length, get_elem?, take, drop, length-append,
}
use mini_vpn.Base.Results.{Result, ok, err, and_then, and_then_intro}
use mini_vpn.Base.Keys.{◌=?◌, nat_eq, bytes_eq, pair_eq}

-- The bytes read and to be read, and the answers to come.
abbrev pub measure : RealityStream → List ReadAnswer → ℕ
measure self reads = length self.read_raw + length (received reads) + length reads

-- The bytes still to be decoded are these, where there is no error.
abbrev RawIs : List ℕ → Result Refusal RealityStream → Type 0
RawIs raw (ok next) = next.read_raw ≡ raw
RawIs raw (err e) = Unit

abbrev DecodedRaw : List ℕ → Result Refusal (Option Decoded × RealityStream) → Type 0
DecodedRaw raw (ok (none, next)) = ⊥
DecodedRaw raw (ok (some d, next)) = next.read_raw ≡ raw
DecodedRaw raw (err e) = Unit

module _ (aead : Aead) (hashes : Hashes) where
  reply_update_raw : (self : RealityStream) → RawIs self.read_raw (reply_update aead hashes self)
  unfolding reply_update
  reply_update_raw self =
      and_then_intro (RawIs self.read_raw) (seal aead self.send_keys 0x16 _) (λ a h. refl) (λ e. tt)

  on_key_update_raw :
      (self : RealityStream) (msg : List ℕ)
      → RawIs self.read_raw (on_key_update aead hashes self msg)
  unfolding on_key_update
  on_key_update_raw self msg =
      if_intro (RawIs self.read_raw)
        (not (length msg == 5) || not (take 3 (drop 1 msg) =? (0 ∷ 0 ∷ 1 ∷ [])))
        {x = err key_update_frame} tt (with_request (get_elem? msg 4))
    where
      with_request :
          (o : Option ℕ)
          → RawIs self.read_raw (elim o [
            | none ↦ err key_update_frame
            | some request_update ↦
                if ltb 1 request_update
                then err key_update_request
                else if request_update == 1
                then reply_update aead hashes (rotate_recv hashes self)
                else ok (rotate_recv hashes self)
          ])
      with_request none = tt
      with_request (some r) =
          let same : (rotate_recv hashes self).read_raw ≡ self.read_raw =
            unfold rotate_recv in refl in
          if_intro (RawIs self.read_raw) (ltb 1 r) tt (
            if_intro (RawIs self.read_raw) (r == 1)
              (unfold rotate_recv in reply_update_raw (rotate_recv hashes self)) same)

  post_handshake_raw :
      (msgs : List (List ℕ)) (self : RealityStream)
      → RawIs self.read_raw (post_handshake aead hashes self msgs)
  unfolding post_handshake
  post_handshake_raw [] self = refl
  post_handshake_raw ([] ∷ msgs) self = post_handshake_raw msgs self
  post_handshake_raw ((t ∷ body) ∷ msgs) self =
      and_then_intro (RawIs self.read_raw)
        (if t == 0x18 then on_key_update aead hashes self (t ∷ body) else ok self)
        (λ next h. rw (← kept next h) (post_handshake_raw msgs next)) (λ e. tt)
    where
      first :
          RawIs self.read_raw
            (if t == 0x18 then on_key_update aead hashes self (t ∷ body) else ok self)
      first = if_intro (RawIs self.read_raw) (t == 0x18) (on_key_update_raw self (t ∷ body)) refl

      kept :
          (next : RealityStream)
          → (if t == 0x18 then on_key_update aead hashes self (t ∷ body) else ok self) ≡ ok next
          → next.read_raw ≡ self.read_raw
      kept next h = let g : next.read_raw ≡ self.read_raw = rw h at first in g

  decoded_raw :
      (self : RealityStream) (inner : ℕ) (content : List ℕ)
      → DecodedRaw self.read_raw (decoded aead hashes self inner content)
  unfolding decoded
  decoded_raw self inner content =
      let msgs = (split_messages (length content) content).0 in
      let kept : DecodedRaw self.read_raw
          (and_then (post_handshake aead hashes self msgs) (λ next. ok (some dropped, next))) =
        after (post_handshake aead hashes self msgs) (post_handshake_raw msgs self) in
      let P = DecodedRaw self.read_raw in
      if_intro P (inner == 0x17) refl (
        if_intro P (inner == 0x15)
          (if_intro P (take 2 content =? (1 ∷ 0 ∷ [])) {x = ok (some eof, self)}
            {y = err (alert_received (get_elem? content 0) (get_elem? content 1))} refl tt)
          (if_intro P (inner == 0x16) kept refl))
    where
      after :
          (r : Result Refusal RealityStream)
          → RawIs self.read_raw r
          → DecodedRaw self.read_raw (and_then r (λ next. ok (some dropped, next)))
      after (ok next) h = h
      after (err e) h = tt

  -- A record that is decoded is taken off the bytes read, and otherwise the stream is as it was.
  abbrev Shrinks : RealityStream → Result Refusal (Option Decoded × RealityStream) → Type 0
  Shrinks self (ok (none, next)) = next ≡ self
  Shrinks self (ok (some d, next)) = length next.read_raw < length self.read_raw
  Shrinks self (err e) = Unit

  decode_one-Shrinks : (self : RealityStream) → Shrinks self (decode_one aead hashes self)
  unfolding decode_one
  decode_one-Shrinks self = and_then_intro (Shrinks self) (next_record self.read_raw) cut (λ e. tt)
    where
      shorter :
          (rest : List ℕ) (r : Result Refusal (Option Decoded × RealityStream))
          → length rest < length self.read_raw
          → DecodedRaw rest r
          → Shrinks self r
      shorter rest (ok (none, next)) h d = absurd d
      shorter rest (ok (some q, next)) h d = rw d h
      shorter rest (err e) h d = tt

      cut :
          (o : Option (List ℕ × List ℕ × List ℕ))
          → next_record self.read_raw ≡ ok o
          → Shrinks self (elim o [
            | none ↦ ok (none, self)
            | some (header, payload, rest) ↦
                and_then (open_record aead self.recv_keys header payload) (λ (keys, inner, content).
                  decoded aead hashes
                    (record self { read_raw = rest; recv_keys = keys })
                    inner
                    content)
          ])
      cut none e = refl
      cut (some (header, payload, rest)) e =
          and_then_intro (Shrinks self) (open_record aead self.recv_keys header payload)
            (λ (keys, inner, content) h.
              shorter rest _ (next_record_shorter self.read_raw header payload rest e)
                (decoded_raw (record self { read_raw = rest; recv_keys = keys }) inner content))
            (λ q. tt)

  -- A turn that goes on has less before it.
  abbrev TurnShrinks :
      RealityStream → List ReadAnswer → Turn × RealityStream × List ReadAnswer → Type 0
  TurnShrinks self reads (again, next, more) = measure next more < measure self reads
  TurnShrinks self reads (returns p, next, more) = Unit

  read_more_shrinks :
      (reads : List ReadAnswer) (self : RealityStream)
      → TurnShrinks self reads (read_more reads self)
  unfolding read_more
  read_more_shrinks [] self = tt
  read_more_shrinks (read_failed ∷ more) self = tt
  read_more_shrinks (read_pends ∷ more) self = tt
  read_more_shrinks (filled [] ∷ more) self = tt
  read_more_shrinks (filled (b ∷ bs) ∷ more) self =
      omega (arith, length-append self.read_raw (b ∷ bs), length-append (b ∷ bs) (received more))

  after_decode-Shrinks :
      (reads : List ReadAnswer) (self : RealityStream)
      (r : Result Refusal (Option Decoded × RealityStream))
      → Shrinks self r
      → TurnShrinks self reads (after_decode reads self r)
  unfolding after_decode
  after_decode-Shrinks reads self (err e) h = tt
  after_decode-Shrinks reads self (ok (none, next)) h = rw h (read_more_shrinks reads self)
  after_decode-Shrinks reads self (ok (some (app_data c), next)) h = omega (arith, h)
  after_decode-Shrinks reads self (ok (some dropped, next)) h = omega (arith, h)
  after_decode-Shrinks reads self (ok (some eof, next)) h = tt

  read_turn_shrinks :
      (reads : List ReadAnswer) (self : RealityStream) (remaining : ℕ)
      → TurnShrinks self reads (read_turn aead hashes reads self remaining)
  unfolding read_turn
  read_turn_shrinks reads self remaining =
      if_intro (TurnShrinks self reads) (not (is_nil self.side.plaintext_out)) tt
        (after_decode-Shrinks reads self (decode_one aead hashes self) (decode_one-Shrinks self))

  loop_end_returns :
      (f : Poll (Unit {0})) (turn : Turn × RealityStream × List ReadAnswer) (self : RealityStream)
      (reads : List ReadAnswer) (flushed next : Halves) (rest : Option (Poll (List ℕ) × Halves))
      → TurnShrinks self reads turn
      → (measure turn.1 turn.2 < measure self reads
          → (r : Poll (List ℕ) × Halves) × (rest ≡ some r))
      → (r : Poll (List ℕ) × Halves) × (loop_end f turn.0 flushed next rest ≡ some r)
  loop_end_returns (ready (err e)) turn self reads flushed next rest h more =
      ((ready (err e), flushed), refl)
  loop_end_returns (ready (ok done)) (returns p, s, m) self reads flushed next rest h more =
      ((p, next), refl)
  loop_end_returns (ready (ok done)) (again, s, m) self reads flushed next rest h more = more h
  loop_end_returns pending (returns p, s, m) self reads flushed next rest h more = ((p, next), refl)
  loop_end_returns pending (again, s, m) self reads flushed next rest h more = more h

  -- On fuel above the measure of what is read and to be read, `poll_read` returns.
  pub poll_read_returns :
      (n : ℕ) (reads : List ReadAnswer) (writes : List WriteAnswer) (self : RealityStream)
      (remaining : ℕ)
      → measure self reads < n
      → (r : Poll (List ℕ) × Halves) × (poll_read aead hashes n reads writes self remaining
          ≡ some r)
  unfolding poll_read
  poll_read_returns zero reads writes self remaining h = absurd (omega (arith, h))
  poll_read_returns (suc n) reads writes self remaining h =
      let flush = poll_flush_pending writes self in
      let ((w, e), ends) = poll_flush_pending_keeps writes self in
      let same : measure flush.1 reads ≡ measure self reads =
        ap (λ (s : RealityStream). measure s reads) e in
      let turn = read_turn aead hashes reads flush.1 remaining in
      loop_end_returns flush.0 turn flush.1 reads (flush.1, reads, flush.2)
        (turn.1, turn.2, flush.2) (poll_read aead hashes n turn.2 flush.2 turn.1 remaining)
        (read_turn_shrinks reads flush.1 remaining)
        (λ lt. poll_read_returns n turn.2 flush.2 turn.1 remaining (omega (arith, lt, same, h)))
