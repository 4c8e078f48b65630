-- ===== src/Reality/Stream/Decode.antt =====
-- src/reality_upstream.rs (`decode_one`, `on_key_update`): the next record of a peer is taken off
-- whole, with the keys that both sides then have.
use mini_vpn.Reality.Stream.Peer.{
  Sent, app, post, message, requests, parts, framed, content_type, content_of, Fits, record_bytes,
  replied, taken_in, decoded_as,
}
use mini_vpn.Reality.Stream.{
  RealityStream, on_key_update, reply_update, rotate_recv, post_handshake, decoded, decode_one,
}
use mini_vpn.Reality.Framing.{next_message, split_messages}
use mini_vpn.Reality.Framing.Pieces.{split_messages-some}
use mini_vpn.Reality.Framing.Records.{Cut, next_record-Cut}
use mini_vpn.Reality.Record.{RecordKeys, record_header}
use mini_vpn.Reality.Record.RoundTrip.{sealed_record, stepped, seal_eq, open_record_eq}
use mini_vpn.Reality.{Aead, Hashes}
use mini_vpn.Base.{
  ℕ, zero, suc, ◌+◌, ◌*◌, ◌/◌, ◌%◌, ◌^◌, ◌≤◌, ◌<◌, ◌≡◌, refl, ap, ◌≢◌, ◌⊎◌, inl, inr, Bool, true,
  false, Option, none, some, List, [], ◌∷◌, ◌++◌, arith, ltb, length, length-append, take-append,
  drop-append, concat,
}
use mini_vpn.Base.Bytes.{from_be16}
use mini_vpn.Base.Results.{ok}
use mini_vpn.Base.Keys.{nat_eq, bytes_eq, pair_eq}

next_message-message :
    (t : ℕ) (bs rest : List ℕ)
    → length bs < 2 ^ 24
    → next_message (message t bs ++ rest) ≡ some (message t bs, rest)
unfolding next_message
next_message-message t bs rest h =
    let len = length bs / 2 ^ 16 % 256 * 2 ^ 16 + length bs / 2 ^ 8 % 256 * 256 + length bs % 256 in
    let whole : len ≡ length bs = omega arith in
    let all : ltb (length (bs ++ rest)) (length bs) ≡ false =
      ground (arith, length-append bs rest) in
    rw (whole, all, take-append (length bs) bs rest refl, drop-append (length bs) bs rest refl) refl

-- Messages come out as they went in.
split_messages-framed :
    (n : ℕ) (ms : List (ℕ × List ℕ))
    → length (concat (framed ms)) ≤ n
    → n < 2 ^ 24
    → (split_messages n (concat (framed ms))).0 ≡ framed ms
split_messages-framed zero [] h bound = unfold split_messages in refl
split_messages-framed zero ((t, bs) ∷ ms) h bound = absurd (omega arith)
split_messages-framed (suc n) [] h bound = unfold split_messages in unfold next_message in refl
split_messages-framed (suc n) ((t, bs) ∷ ms) h bound =
    let sizes = length-append (message t bs) (concat (framed ms)) in
    let cut = next_message-message t bs (concat (framed ms)) (omega arith) in
    rw
      (split_messages-some n (concat (framed ((t, bs) ∷ ms))) (message t bs) (concat (framed ms))
        cut)
      (ap (◌∷◌ (message t bs)) (split_messages-framed n ms (omega arith) (omega arith)))

-- A reply is made while the sequence number has room.
reply_update_eq :
    (aead : Aead) (hashes : Hashes) (self : RealityStream)
    → self.send_keys.seq + 1 < 2 ^ 64
    → reply_update aead hashes self ≡ ok (replied aead hashes self)
unfolding reply_update
reply_update_eq aead hashes self room =
    rw (seal_eq aead self.send_keys 0x16 (0x18 ∷ 0 ∷ 0 ∷ 1 ∷ 0 ∷ []) room) refl

on_key_update_eq :
    (aead : Aead) (hashes : Hashes) (self : RealityStream) (ru : Bool)
    → self.send_keys.seq + 1 < 2 ^ 64
    → on_key_update aead hashes self (message 0x18 (requests ru ∷ []))
      ≡ ok (taken_in aead hashes self (post [] (some ru)))
unfolding on_key_update
on_key_update_eq aead hashes self true room =
    unfold rotate_recv in reply_update_eq aead hashes (rotate_recv hashes self) room
on_key_update_eq aead hashes self false room = refl

post_handshake_eq :
    (aead : Aead) (hashes : Hashes) (self : RealityStream) (ts : List (List ℕ)) (up : Option Bool)
    → self.send_keys.seq + 1 < 2 ^ 64
    → post_handshake aead hashes self (framed (parts ts up))
      ≡ ok (taken_in aead hashes self (post ts up))
unfolding post_handshake
post_handshake_eq aead hashes self [] none room = refl
post_handshake_eq aead hashes self [] (some ru) room =
    rw (on_key_update_eq aead hashes self ru room) refl
post_handshake_eq aead hashes self (t ∷ ts) up room = post_handshake_eq aead hashes self ts up room

decoded_eq :
    (aead : Aead) (hashes : Hashes) (self : RealityStream) (x : Sent)
    → Fits x
    → self.send_keys.seq + 1 < 2 ^ 64
    → decoded aead hashes self (content_type x) (content_of x)
      ≡ ok (some (decoded_as x), taken_in aead hashes self x)
unfolding decoded
decoded_eq aead hashes self (app c) fits room = refl
decoded_eq aead hashes self (post ts up) fits room =
    let all = concat (framed (parts ts up)) in
    rw
      (
        split_messages-framed (length all) (parts ts up) (omega arith) (omega arith),
        post_handshake_eq aead hashes self ts up room,
      )
      refl

content_type_ne : (x : Sent) → content_type x ≢ 0
content_type_ne (app c) = ground arith
content_type_ne (post ts up) = ground arith

-- The header of a record that fits says how long its ciphertext is.
header_length :
    (aead : Aead) (keys : RecordKeys) (x : Sent)
    → Fits x
    → let n = (length (content_of x ++ content_type x ∷ []) + 16) % 2 ^ 16 in
      (length (sealed_record aead keys (content_type x) (content_of x)).1
        ≡ from_be16 (n / 256 % 256) (n % 256))
      × (from_be16 (n / 256 % 256) (n % 256) ≤ 16640)
header_length aead keys x fits =
    let size = length-append (content_of x) (content_type x ∷ []) in
    rw (aead.length-encrypt) (omega arith, omega arith)

-- The stream after the next record, with the bytes that follow it.
abbrev pub after_record : Aead → Hashes → RealityStream → List ℕ → Sent → RealityStream
after_record aead hashes self rest x =
    taken_in aead hashes (record self { read_raw = rest; recv_keys = stepped self.recv_keys }) x

-- Where the stream has the record of `x` next, `decode_one` waits while it has less than this record,
-- and otherwise takes it.
pub decode_one_cut :
    (aead : Aead) (hashes : Hashes) (self : RealityStream) (x : Sent) (later follows : List ℕ)
    → Fits x
    → self.recv_keys.seq + 1 < 2 ^ 64
    → self.send_keys.seq + 1 < 2 ^ 64
    → record_bytes aead self.recv_keys x ++ follows ≡ self.read_raw ++ later
    → ((decode_one aead hashes self ≡ ok (none, self))
        × (length self.read_raw < length (record_bytes aead self.recv_keys x)))
      ⊎ ((rest : List ℕ) × (follows ≡ rest ++ later)
          × (decode_one aead hashes self
              ≡ ok (some (decoded_as x), after_record aead hashes self rest x)))
unfolding decode_one
decode_one_cut aead hashes self x later follows fits recv_room send_room h =
    let n = (length (content_of x ++ content_type x ∷ []) + 16) % 2 ^ 16 in
    let ct = (sealed_record aead self.recv_keys (content_type x) (content_of x)).1 in
    let (whole, bound) = header_length aead self.recv_keys x fits in
    let cut : Cut (record_header n) ct self.read_raw later follows =
      unfold record_header in
      next_record-Cut 0x17 3 3 (n / 256 % 256) (n % 256) ct self.read_raw later follows whole bound
        h in
    elim cut [
      | inl (waits, short) ↦
          inl (rw waits refl, omega (arith, short, length-append (record_header n) ct))
      | inr (rest, follows_eq, taken) ↦
          let opened =
            open_record_eq aead self.recv_keys (content_type x) (content_of x) (content_type_ne x)
              recv_room in
          let next = record self { read_raw = rest; recv_keys = stepped self.recv_keys } in
          inr (
            rest,
            follows_eq,
            rw (taken, opened, decoded_eq aead hashes next x fits send_room) refl,
          )
    ]
