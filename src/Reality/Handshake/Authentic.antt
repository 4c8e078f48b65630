-- ===== src/Reality/Handshake/Authentic.antt =====
-- src/reality/handshake.rs (`drive`): no handshake is completed without a certificate that
-- `verify_cert` accepted and a Finished with the right MAC.
use mini_vpn.Reality.Handshake.Guard.{IsAuthentic}
use mini_vpn.Reality.ServerHello.{ParsedServerHello, parse_server_hello}
use mini_vpn.Reality.Framing as Framing
use mini_vpn.Reality.KeySchedule.{
  AppKeys, HsKeys, derive_handshake_keys, derive_application_keys, transcript_hash,
}
use mini_vpn.Reality.Record as Record
use mini_vpn.Reality.Handshake.{next_of, HandshakeInput, HandshakeOutput}
use mini_vpn.Reality.{Aead, Hashes, Refusal}
use mini_vpn.Base.{ℕ, ◌≡◌, Bool, List, [], ◌∷◌, ◌++◌}
use mini_vpn.Base.Results.{Result, ok, err}
use mini_vpn.Base.Keys.{nat_eq, bytes_eq, pair_eq}

-- The output has the secrets and the keys of both directions.
abbrev pub HasKeys : AppKeys → HandshakeOutput → Type 0
HasKeys app out =
    (out.s_ap_secret ≡ app.s_ap_secret)
    × (out.c_ap_secret ≡ app.c_ap_secret)
    × (out.recv_keys ≡ Record.new app.server_key app.server_iv)
    × (out.send_keys ≡ Record.new app.client_key app.client_iv)

-- What a handshake that was completed rests on: the ServerHello in the first record read, the keys of
-- the key exchange with its sender, and the messages of the flight, authentic under these keys. The
-- transcript of the hellos and these messages gives the secrets and the keys of the stream.
pub record Completed (aead : Aead) (hashes : Hashes) (verify_cert : List ℕ → Bool)
    (input : HandshakeInput) (reads : List (List ℕ)) (out : HandshakeOutput) : Type 0 where
  pub header : List ℕ
  pub sh_msg : List ℕ
  pub buf : List ℕ
  pub more : List (List ℕ)
  pub sh : ParsedServerHello
  pub hs : HsKeys
  pub messages : List ℕ
  pub first : next_of reads [] ≡ ok (header, sh_msg, buf, more)
  pub parsed : parse_server_hello sh_msg input.expected_session_id ≡ ok sh
  pub derived :
      derive_handshake_keys hashes
        (hashes.x25519 input.client_eph_secret sh.server_key_share)
        input.client_hello
        sh_msg
      ≡ ok hs
  pub authentic :
      IsAuthentic hashes verify_cert hs.s_hs_secret (input.client_hello ++ sh_msg) messages
  pub keys :
      HasKeys
        (derive_application_keys hashes hs.handshake_secret
          (transcript_hash hashes (((input.client_hello ++ sh_msg) ++ messages) ∷ [])))
        out

abbrev OkHasKeys : AppKeys → Result Refusal HandshakeOutput → Type 0
OkHasKeys app (ok out) = HasKeys app out
OkHasKeys app (err e) = Unit
