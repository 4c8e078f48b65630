-- ===== src/Reality/Handshake/Tests.antt =====
-- src/reality/handshake.rs: a handshake with a server that runs the same toy cryptography.
use mini_vpn.Reality.KeySchedule.{
  HsKeys, derive_handshake_keys, compute_finished_verify_data, transcript_hash,
}
use mini_vpn.Reality.Record.{RecordKeys, seal}
use mini_vpn.Reality.Record as Record
use mini_vpn.Reality.Handshake.{HandshakeInput, HandshakeOutput, drive}
use mini_vpn.Reality.Handshake.Fuel.{IsDecided}
use mini_vpn.Reality.Handshake.Ending.{drive-IsDecided}
use mini_vpn.Reality.Toy.{toy, toy_hashes}
use mini_vpn.Base.{ℕ, Bool, List, [], ◌∷◌, ◌++◌, replicate}
use mini_vpn.Base.Results.{ok, err}
use mini_vpn.Base.Keys.{◌=?◌, nat_eq, bytes_eq, pair_eq}

abbrev client_hello : List ℕ
client_hello = 1 ∷ 0 ∷ 0 ∷ 1 ∷ 9 ∷ []

abbrev server_hello : List ℕ
server_hello =
    (2 ∷ 0 ∷ 0 ∷ 86 ∷ 3 ∷ 3 ∷ [])
    ++ replicate 32 17
    ++ (0 ∷ 0x13 ∷ 1 ∷ 0 ∷ 0 ∷ 46 ∷ [])
    ++ (0 ∷ 0x2b ∷ 0 ∷ 2 ∷ 3 ∷ 4 ∷ [])
    ++ (0 ∷ 0x33 ∷ 0 ∷ 36 ∷ 0 ∷ 0x1d ∷ 0 ∷ 32 ∷ [])
    ++ replicate 32 6

abbrev input : HandshakeInput
input = record {
  client_hello = client_hello;
  client_eph_secret = replicate 32 5;
  expected_session_id = [];
}

abbrev no_keys : HsKeys
no_keys = record {
  handshake_secret = [];
  c_hs_secret = [];
  s_hs_secret = [];
  client_key = [];
  server_key = [];
  client_iv = [];
  server_iv = [];
}

abbrev keys : HsKeys
keys = elim (derive_handshake_keys toy_hashes (replicate 32 5) client_hello server_hello) [
  | ok hs ↦ hs
  | err e ↦ no_keys
]

abbrev certificate : List ℕ
certificate = 0x0b ∷ 0 ∷ 0 ∷ 1 ∷ 42 ∷ []

abbrev finished : List ℕ
finished =
    0x14
    ∷ 0
    ∷ 0
    ∷ 32
    ∷ compute_finished_verify_data toy_hashes keys.s_hs_secret
        (transcript_hash toy_hashes ((client_hello ++ server_hello ++ certificate) ∷ []))

abbrev sealed : List ℕ
sealed =
    elim (seal toy (Record.new keys.server_key keys.server_iv) 0x16 (certificate ++ finished)) [
      | ok (k, bs) ↦ bs
      | err e ↦ []
    ]

-- The ServerHello, a change of cipher, and the flight in one record, with a cut inside.
abbrev from_server : List (List ℕ)
from_server =
    (0x16 ∷ 3 ∷ 3 ∷ 0 ∷ 90 ∷ server_hello ++ 0x14 ∷ 3 ∷ 3 ∷ []) ∷ (0 ∷ 1 ∷ 1 ∷ sealed) ∷ []

abbrev accepts : List ℕ → Bool
accepts msg = msg =? certificate

abbrev no_output : HandshakeOutput
no_output = record {
  recv_keys = Record.new [] [];
  send_keys = Record.new [] [];
  leftover = [];
  s_ap_secret = [];
  c_ap_secret = [];
  sent = [];
}

abbrev done : HandshakeOutput
done = elim (drive toy toy_hashes accepts input from_server) [ ok out ↦ out | err e ↦ no_output ]

drive-IsDecided_example : IsDecided (drive toy toy_hashes accepts input from_server)
drive-IsDecided_example = drive-IsDecided toy toy_hashes accepts input from_server
