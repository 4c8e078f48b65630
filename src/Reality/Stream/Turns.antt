-- ===== src/Reality/Stream/Turns.antt =====
-- src/reality_upstream.rs (`poll_read`): one turn of its loop keeps the stream in step with the peer.
use mini_vpn.Reality.Stream.Absorb.{IsCanonical, absorb_app_merge, given_expected}
use mini_vpn.Reality.Stream.Flush.{IsTransport}
use mathlib.Core.List.{append_assoc}
use mini_vpn.Vless.{ReadSide, absorb_app}
use mini_vpn.Reality.Stream.Peer.{Sent, app, post, app_bytes, Fits, next_keys, wire, decoded_as}
use mini_vpn.Reality.Stream.Decode.{after_record, decode_one_cut}
use mini_vpn.Reality.Stream.{
  RealityStream, Poll, ready, pending, ReadAnswer, filled, read_failed, read_pends, Turn, returns,
  again, is_nil, rotate_recv, record_keys_from_secret, decode_one, read_more, after_decode,
  read_turn,
}
use mini_vpn.Reality.Framing.{next_record}
use mini_vpn.Reality.Record.{RecordKeys}
use mini_vpn.Reality.Record as Record
use mini_vpn.Reality.{Aead, Hashes}
use mini_vpn.Base.{
  ℕ, suc, ◌+◌, ◌^◌, ◌<◌, min, ◌≡◌, refl, sym, ap, ◌∙◌, inl, inr, true, false, none, some, List, [],
  ◌∷◌, ◌++◌, arith, Bool-cases, length, All,
}
use mini_vpn.Base.Results.{ok, err}
use mini_vpn.Base.Keys.{nat_eq, bytes_eq, pair_eq}

-- The bytes that the read half is going to give.
abbrev pub received : List ReadAnswer → List ℕ
received [] = []
received (filled bs ∷ more) = bs ++ received more
received (read_failed ∷ more) = received more
received (read_pends ∷ more) = received more

-- The stream is in step with a peer that is still to send `later`: read and unread bytes are the
-- records of `todo` under the stream's keys.
pub record Follows (aead : Aead) (hashes : Hashes) (self : RealityStream) (later : List ℕ)
    (todo : List Sent) : Type 0 where
  pub on_wire : wire aead hashes self.recv_keys self.server_ap_secret todo ≡ self.read_raw ++ later
  pub fits : All Fits todo
  pub recv_room : self.recv_keys.seq + length todo < 2 ^ 64
  pub send_room : self.send_keys.seq + 1 < 2 ^ 64
  pub canonical : IsCanonical self.side

-- All that the reader is still to be given.
abbrev pub expected : RealityStream → List Sent → List ℕ
expected self todo = (absorb_app self.side (app_bytes todo)).plaintext_out

module _ (aead : Aead) (hashes : Hashes) where
  -- The stream has given `bs` of what was to come, and is still in step.
  abbrev pub Kept : RealityStream → List Sent → List ℕ → RealityStream → List ℕ → Type 0
  Kept self todo bs next later =
      (rest : List Sent) × Follows aead hashes next later rest
      × (expected self todo ≡ bs ++ expected next rest)

  abbrev pub AfterPoll : RealityStream → List Sent → Poll (List ℕ) → RealityStream → List ℕ → Type 0
  AfterPoll self todo (ready (ok bs)) next later = Kept self todo bs next later
  AfterPoll self todo (ready (err e)) next later = IsTransport e
  AfterPoll self todo pending next later = Kept self todo [] next later

  abbrev pub AfterTurn : RealityStream → List Sent → Turn → RealityStream → List ℕ → Type 0
  AfterTurn self todo (returns p) next later = AfterPoll self todo p next later
  AfterTurn self todo again next later = Kept self todo [] next later

  nil_front : (xs ys : List ℕ) → ◌≡◌ {A = List ℕ} [] (xs ++ ys) → xs ≡ []
  nil_front [] ys h = refl
  nil_front (x ∷ xs) ys h = absurd cc

  decode_one_nil :
      (self : RealityStream) → self.read_raw ≡ [] → decode_one aead hashes self ≡ ok (none, self)
  unfolding decode_one
  decode_one_nil self e =
      let waits : next_record self.read_raw ≡ ok none = unfold next_record in rw e refl in
      rw waits refl

  -- What a record leaves of the stream: the keys of the peer and the read side as it was.
  record InStep (self : RealityStream) (rest : List ℕ) (x : Sent) (n : ℕ) (next : RealityStream)
      : Type 0 where
    keys : next.recv_keys ≡ (next_keys hashes self.recv_keys self.server_ap_secret x).0
    secret : next.server_ap_secret ≡ (next_keys hashes self.recv_keys self.server_ap_secret x).1
    raw : next.read_raw ≡ rest
    side_same : next.side ≡ self.side
    recv : next.recv_keys.seq + n < 2 ^ 64
    send : next.send_keys.seq + 1 < 2 ^ 64

  after_record-InStep :
      (self : RealityStream) (rest : List ℕ) (x : Sent) (n : ℕ)
      → self.recv_keys.seq + suc n < 2 ^ 64
      → self.send_keys.seq + 1 < 2 ^ 64
      → InStep self rest x n (after_record aead hashes self rest x)
  unfolding rotate_recv record_keys_from_secret Record.new
  after_record-InStep self rest (app c) n recv send = record {
    keys = refl;
    secret = refl;
    raw = refl;
    side_same = refl;
    recv = omega arith;
    send = send;
  }
  after_record-InStep self rest (post ts none) n recv send = record {
    keys = refl;
    secret = refl;
    raw = refl;
    side_same = refl;
    recv = omega arith;
    send = send;
  }
  after_record-InStep self rest (post ts (some true)) n recv send = record {
    keys = refl;
    secret = refl;
    raw = refl;
    side_same = refl;
    recv = omega arith;
    send = omega arith;
  }
  after_record-InStep self rest (post ts (some false)) n recv send = record {
    keys = refl;
    secret = refl;
    raw = refl;
    side_same = refl;
    recv = omega arith;
    send = send;
  }

  abbrev pub TurnKeeps :
      RealityStream → List Sent → List ℕ → Turn × RealityStream × List ReadAnswer → Type 0
  TurnKeeps self todo beyond (t, next, more) = AfterTurn self todo t next (received more ++ beyond)

  -- A record of application data goes to the reader's side; another leaves it.
  data_keeps :
      (self : RealityStream) (reads : List ReadAnswer) (beyond rest : List ℕ) (x : Sent)
      (xs : List Sent)
      → Follows aead hashes self (received reads ++ beyond) (x ∷ xs)
      → (wire aead hashes
            (next_keys hashes self.recv_keys self.server_ap_secret x).0
            (next_keys hashes self.recv_keys self.server_ap_secret x).1
            xs
          ≡ rest ++ (received reads ++ beyond))
      → TurnKeeps self
          (x ∷ xs)
          beyond
          (after_decode reads self (ok (some (decoded_as x), after_record aead hashes self rest x)))
  unfolding after_decode
  data_keeps self reads beyond rest (app c) xs f w =
      let next = after_record-InStep self rest (app c) (length xs) f.recv_room f.send_room in
      let (merged, canonical) = absorb_app_merge self.side c (app_bytes xs) f.canonical in
      (
        xs,
        record {
          on_wire = w;
          fits = f.fits.1;
          recv_room = next.recv;
          send_room = next.send;
          canonical = canonical;
        },
        ap (λ (r : ReadSide). r.plaintext_out) (sym merged),
      )
  data_keeps self reads beyond rest (post ts up) xs f w =
      let next = after_record-InStep self rest (post ts up) (length xs) f.recv_room f.send_room in
      (
        xs,
        record {
          on_wire = rw (next.keys, next.secret, next.raw) w;
          fits = f.fits.1;
          recv_room = next.recv;
          send_room = next.send;
          canonical = rw next.side_same f.canonical;
        },
        ap (λ (r : ReadSide). (absorb_app r (app_bytes xs)).plaintext_out) (sym next.side_same),
      )

  -- With nothing whole to decode, more is read.
  read_more_keeps :
      (self : RealityStream) (todo : List Sent) (reads : List ReadAnswer) (beyond : List ℕ)
      → Follows aead hashes self (received reads ++ beyond) todo
      → TurnKeeps self todo beyond (read_more reads self)
  unfolding read_more
  read_more_keeps self todo [] beyond f = (todo, f, refl)
  read_more_keeps self todo (read_failed ∷ more) beyond f = inl refl
  read_more_keeps self todo (read_pends ∷ more) beyond f = (todo, f, refl)
  read_more_keeps self todo (filled [] ∷ more) beyond f = elim (Bool-cases (is_nil self.read_raw)) [
    | inl t ↦ rw t (todo, f, refl)
    | inr t ↦ rw t (inr (inr refl))
  ]
  read_more_keeps self todo (filled (b ∷ bs) ∷ more) beyond f = (
    todo,
    record {
      on_wire =
          f.on_wire
          ∙ ap (λ (x : List ℕ). self.read_raw ++ x) (append_assoc (b ∷ bs) (received more) beyond)
          ∙ sym (append_assoc self.read_raw (b ∷ bs) (received more ++ beyond));
      fits = f.fits;
      recv_room = f.recv_room;
      send_room = f.send_room;
      canonical = f.canonical;
    },
    refl,
  )

  decode_keeps :
      (self : RealityStream) (todo : List Sent) (reads : List ReadAnswer) (beyond : List ℕ)
      → Follows aead hashes self (received reads ++ beyond) todo
      → TurnKeeps self todo beyond (after_decode reads self (decode_one aead hashes self))
  decode_keeps self [] reads beyond f =
      rw (decode_one_nil self (nil_front self.read_raw (received reads ++ beyond) f.on_wire))
        (unfold after_decode in read_more_keeps self [] reads beyond f)
  decode_keeps self (x ∷ xs) reads beyond f =
      let (keys, secret) = next_keys hashes self.recv_keys self.server_ap_secret x in
      elim (decode_one_cut aead hashes self x (received reads ++ beyond)
        (wire aead hashes keys secret xs) f.fits.0 (omega (arith, f.recv_room)) f.send_room
        f.on_wire) [
          | inl (e, short) ↦
              rw e (unfold after_decode in read_more_keeps self (x ∷ xs) reads beyond f)
          | inr (rest, w, e) ↦ rw e (data_keeps self reads beyond rest x xs f w)
        ]

  pub read_turn_keeps :
      (self : RealityStream) (todo : List Sent) (reads : List ReadAnswer) (beyond : List ℕ)
      (remaining : ℕ)
      → Follows aead hashes self (received reads ++ beyond) todo
      → TurnKeeps self todo beyond (read_turn aead hashes reads self remaining)
  unfolding read_turn
  read_turn_keeps self todo reads beyond remaining f =
      elim (Bool-cases (is_nil self.side.plaintext_out)) [
        | inl t ↦ rw t (decode_keeps self todo reads beyond f)
        | inr t ↦
            let n = min remaining (length self.side.plaintext_out) in
            let (all, canonical) = given_expected self.side n (app_bytes todo) f.canonical t in
            rw t (
              todo,
              record {
                on_wire = f.on_wire;
                fits = f.fits;
                recv_room = f.recv_room;
                send_room = f.send_room;
                canonical = canonical;
              },
              all,
            )
      ]
