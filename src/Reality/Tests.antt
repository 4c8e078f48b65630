-- ===== src/Reality/Tests.antt =====
-- src/reality/ and src/reality_upstream.rs on concrete inputs, with an AEAD whose tag is made of the
-- key and the nonce.
use mathlib.Core.List.{append-nil}
use mini_vpn.Vless.Response.{read_of}
use mini_vpn.Reality.Record.{RecordKeys, per_record_nonce, record_header}
use mini_vpn.Reality.Record.Nonces.{per_record_nonce_ne}
use mini_vpn.Reality.KeySchedule.Labels.{hkdf_label_inj}
use mini_vpn.Reality.KeySchedule.Label
use mini_vpn.Reality.Framing.{new}
use mini_vpn.Reality.Framing.Pieces.{push_all, held, split_whole, push_all-split_whole}
use mini_vpn.Reality.Stream.{
  RealityStream, Poll, ready, ReadAnswer, filled, read_pends, wrote, poll_read, decode_one, Halves,
}
use mini_vpn.Reality.Stream.Peer.{Sent, app, post, record_bytes, wire, decoded_as}
use mini_vpn.Reality.Stream.Decode.{after_record, decode_one_cut}
use mini_vpn.Reality.Stream.Turns.{received, Follows}
use mini_vpn.Reality.Stream.Ending.{measure}
use mini_vpn.Reality.Stream.Delivery.{PollKeeps, poll_read_delivers}
use mini_vpn.Reality.Toy.{toy, toy_hashes}
use mini_vpn.Base.{
  length, ◌<◌, ℕ, suc, ◌≡◌, refl, sym, ◌∙◌, ◌≢◌, ◌⊎◌, true, Option, none, some, List, [], ◌∷◌, ◌++◌,
  arith, take, drop, replicate, take-append-drop, concat,
}
use mini_vpn.Base.Results.{ok}
use mini_vpn.Base.Keys.{nat_eq, bytes_eq, pair_eq}

abbrev start_keys : RecordKeys
start_keys = record { key = replicate 16 7; iv = replicate 12 9; seq = 0 }

abbrev start : RealityStream
start = record {
  recv_keys = start_keys;
  send_keys = start_keys;
  read_raw = [];
  side = read_of [] none;
  write_pending = [];
  server_ap_secret = replicate 32 1;
  client_ap_secret = replicate 32 2;
}

-- The response header with two bytes, a ticket with a key update that asks for one, and one byte more.
abbrev todo : List Sent
todo = app (0 ∷ 0 ∷ 65 ∷ 66 ∷ []) ∷ post ((1 ∷ 2 ∷ []) ∷ []) (some true) ∷ app (67 ∷ []) ∷ []

abbrev all_bytes : List ℕ
all_bytes = wire toy toy_hashes start_keys start.server_ap_secret todo

abbrev reads : List ReadAnswer
reads = filled (take 30 all_bytes) ∷ read_pends ∷ filled (drop 30 all_bytes) ∷ []

start_Follows : Follows toy toy_hashes start (received reads ++ []) todo
start_Follows = record {
  on_wire = sym (
      append-nil (received reads)
      ∙ rw (append-nil (drop 30 all_bytes)) (take-append-drop 30 all_bytes));
  fits = (omega arith, (omega arith, (omega arith, tt)));
  recv_room = omega arith;
  send_room = omega arith;
  canonical = ([], none, refl, λ q. refl);
}

poll_read_delivers_example :
    (result : Poll (List ℕ) × Halves) × (poll_read toy toy_hashes
        (suc (measure start reads))
        reads
        (wrote 5 ∷ [])
        start
        10
      ≡ some result)
    × PollKeeps toy toy_hashes start todo [] result
poll_read_delivers_example =
    poll_read_delivers toy toy_hashes (suc (measure start reads)) reads (wrote 5 ∷ []) start 10 todo
      [] start_Follows (omega arith)

-- The first call gives the two bytes behind the header.
first_read : Option (Poll (List ℕ))
unfolding poll_read
first_read = elim (poll_read toy toy_hashes 9 reads [] start 10) [
  | none ↦ none
  | some (p, h) ↦ some p
]

first_read_two : first_read ≡ some (ready (ok (65 ∷ 66 ∷ [])))
unfolding first_read record_header
first_read_two = refl

-- The ticket and the key update, whole in the bytes read.
abbrev with_update : Sent
with_update = post ((1 ∷ 2 ∷ []) ∷ []) (some true)

abbrev received_update : RealityStream
received_update = record start { read_raw = record_bytes toy start_keys with_update ++ 9 ∷ [] }

decode_one_cut_example :
    ((decode_one toy toy_hashes received_update ≡ ok (none, received_update))
      × (length received_update.read_raw < length (record_bytes toy start_keys with_update)))
    ⊎ ((rest : List ℕ) × (9 ∷ [] ≡ rest ++ [])
        × (decode_one toy toy_hashes received_update
            ≡ ok (
              some (decoded_as with_update),
              after_record toy toy_hashes received_update rest with_update,
            )))
decode_one_cut_example =
    decode_one_cut toy toy_hashes received_update with_update [] (9 ∷ []) (omega arith)
      (omega arith) (omega arith)
      (sym (append-nil (record_bytes toy start_keys with_update ++ 9 ∷ [])))

per_record_nonce_ne_example :
    per_record_nonce start_keys.iv 255 ≢ per_record_nonce start_keys.iv 256
per_record_nonce_ne_example =
    per_record_nonce_ne start_keys.iv 255 256 refl (omega arith) (omega arith)
      (λ q. absurd (omega (arith, q)))

abbrev key_size : ℕ
key_size = 16

hkdf_label_inj_example : (key_size ≡ key_size) × (Label.key ≡ Label.key) × (◌≡◌ {A = List ℕ} [] [])
hkdf_label_inj_example =
    hkdf_label_inj key_size key_size Label.key Label.key [] [] (omega arith) (omega arith)
      (omega arith) (omega arith) refl

abbrev pieces : List (List ℕ)
pieces = (4 ∷ 0 ∷ []) ∷ (0 ∷ 1 ∷ 5 ∷ 8 ∷ []) ∷ (0 ∷ 0 ∷ 0 ∷ 11 ∷ []) ∷ []

push_all-split_whole_example : push_all new pieces ≡ held (split_whole (concat pieces))
push_all-split_whole_example = push_all-split_whole pieces
