-- ===== src/Reality/Stream/Peer.antt =====
-- The other side of src/reality_upstream.rs, as RFC 8446 has it: the records a TLS 1.3 server sends
-- once the handshake is done, application data, session tickets and key updates.
use mini_vpn.Reality.Stream.{
  RealityStream, Decoded, app_data, dropped, rotate_recv, record_keys_from_secret,
}
use mini_vpn.Reality.KeySchedule.{next_application_traffic_secret}
use mini_vpn.Reality.Record.{RecordKeys, max_tls_plaintext}
use mini_vpn.Reality.Record.RoundTrip.{sealed_record, stepped}
use mini_vpn.Reality.{Aead, Hashes}
use mini_vpn.Base.{
  ℕ, ◌/◌, ◌%◌, ◌^◌, ◌≤◌, Bool, true, false, Option, none, some, List, [], ◌∷◌, ◌++◌, length, concat,
}
use mini_vpn.Base.Keys.{nat_eq, bytes_eq, pair_eq}

-- `post` is a record of handshake messages: session tickets, and then a key update or none, which
-- may ask for one in return.
pub data Sent : Type 0 where
  app : List ℕ → Sent
  post : List (List ℕ) → Option Bool → Sent

-- A handshake message: its type, its length in three bytes, and its body.
abbrev pub message : ℕ → List ℕ → List ℕ
message t bs =
    let len = length bs in t ∷ (len / 2 ^ 16 % 256) ∷ (len / 2 ^ 8 % 256) ∷ (len % 256) ∷ bs

abbrev pub requests : Bool → ℕ
requests true = 1
requests false = 0

-- The types and bodies of the messages of a record.
abbrev pub parts : List (List ℕ) → Option Bool → List (ℕ × List ℕ)
parts [] none = []
parts [] (some ru) = (0x18, requests ru ∷ []) ∷ []
parts (t ∷ ts) up = (4, t) ∷ parts ts up

abbrev pub framed : List (ℕ × List ℕ) → List (List ℕ)
framed [] = []
framed ((t, bs) ∷ ms) = message t bs ∷ framed ms

abbrev pub content_type : Sent → ℕ
content_type (app c) = 0x17
content_type (post ts up) = 0x16

abbrev pub content_of : Sent → List ℕ
content_of (app c) = c
content_of (post ts up) = concat (framed (parts ts up))

-- What the reader is to be given.
abbrev pub app_bytes : List Sent → List ℕ
app_bytes [] = []
app_bytes (app c ∷ xs) = c ++ app_bytes xs
app_bytes (post ts up ∷ xs) = app_bytes xs

-- A record has at most 2^14 bytes of content.
abbrev pub Fits : Sent → Type 0
Fits x = length (content_of x) ≤ max_tls_plaintext

module _ (hashes : Hashes) where
  -- The sender's keys after a record, and the secret they come from.
  abbrev pub updated_keys : RecordKeys → List ℕ → Option Bool → RecordKeys × List ℕ
  updated_keys keys secret none = (stepped keys, secret)
  updated_keys keys secret (some ru) =
      let next = next_application_traffic_secret hashes secret in
      (record_keys_from_secret hashes next, next)

  abbrev pub next_keys : RecordKeys → List ℕ → Sent → RecordKeys × List ℕ
  next_keys keys secret (app c) = (stepped keys, secret)
  next_keys keys secret (post ts up) = updated_keys keys secret up

abbrev pub record_bytes : Aead → RecordKeys → Sent → List ℕ
record_bytes aead keys x =
    let (header, ct) = sealed_record aead keys (content_type x) (content_of x) in header ++ ct

module _ (aead : Aead) (hashes : Hashes) where
  -- All that the sender puts on the wire.
  abbrev pub wire : RecordKeys → List ℕ → List Sent → List ℕ
  wire keys secret [] = []
  wire keys secret (x ∷ xs) =
      let (next, later) = next_keys hashes keys secret x in
      record_bytes aead keys x ++ wire next later xs

  -- The stream after the reply to a key update that asked for one.
  abbrev pub replied : RealityStream → RealityStream
  replied self =
      let next = next_application_traffic_secret hashes self.client_ap_secret in
      record self {
        write_pending =
            self.write_pending ++ record_bytes aead self.send_keys (post [] (some false));
        client_ap_secret = next;
        send_keys = record_keys_from_secret hashes next;
      }

  -- The stream after a record, but for the bytes read and the step of the sequence number.
  abbrev pub updated : RealityStream → Option Bool → RealityStream
  updated self none = self
  updated self (some false) = rotate_recv hashes self
  updated self (some true) = replied (rotate_recv hashes self)

  abbrev pub taken_in : RealityStream → Sent → RealityStream
  taken_in self (app c) = self
  taken_in self (post ts up) = updated self up

abbrev pub decoded_as : Sent → Decoded
decoded_as (app c) = app_data c
decoded_as (post ts up) = dropped
