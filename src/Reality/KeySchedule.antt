-- ===== src/Reality/KeySchedule.antt =====
-- src/reality/key_schedule.rs: the TLS 1.3 key schedule, with SHA-256, HMAC and HKDF as parameters.
pub mod Labels
pub mod Label
use mini_vpn.Reality.KeySchedule.Label
use mini_vpn.Reality.{Hashes, Refusal, zero_ecdhe}
use mini_vpn.Base.{
  ℕ, zero, suc, ◌+◌, ◌-◌, ◌*◌, ◌/◌, ◌%◌, ◌^◌, ◌≤◌, ◌<◌, min, max, ◌≡◌, refl, sym, ap, ◌∙◌, ◌≢◌, ◌↔◌,
  ◌⊎◌, inl, inr, Bool, true, false, not, ◌&&◌, ◌||◌, Option, none, some, List, [], ◌∷◌, ◌++◌, map,
  arith, ltb, leb, ◌==◌, ==_iff, ltb→lt, leb→le, if◌then◌else◌, Bool-cases, Option-cases, ◌>>=◌,
  is_some, some_inj, bind_some, length, get_elem?, set, take, drop, replicate, length-append,
  length-take, take-length, length-drop, take-append-drop, length-set, length-replicate,
  take-append, drop-append, drop-append_le, drop-add, get_elem?-append, get_elem?-append_lt,
  take-append_le, All, Distinct, any, any_iff, Some, and_right, or_right, keep, concat,
}
use mini_vpn.Base.Bytes.{
  IsByte, IsU16, IsU32, u16_be, u32_be, be_bytes, length-be_bytes, from_be16, from_be16-u16_be,
  from_be, from_be-be_bytes, from_be-u32_be,
}
use mini_vpn.Base.Results.{Result, ok, err, and_then, and_then_ok, ok_or, ok_inj}
use mini_vpn.Base.Keys.{Eq, ◌=?◌, nat_eq, bytes_eq, pair_eq}
use mini_vpn.Base.Map.{
  Map, get, insert, remove, contains_key, retain, update, UniqueKeys, get-insert, get-remove,
  =?_refl, =?_eq, =?_ne, get-update, insert-UniqueKeys, remove-UniqueKeys, update-UniqueKeys,
  Distinct-le, length-remove-le, length-insert-le, length-remove-lt, length-update,
}

unfoldable pub hkdf_label : ℕ → List ℕ → List ℕ → List ℕ
hkdf_label length_ label context =
    let full_label = Label.tls13 ++ label in
    u16_be length_ ++ (length full_label % 256 ∷ full_label) ++ (length context % 256 ∷ context)

abbrev zeros : List ℕ
zeros = replicate 32 0

pub record HsKeys : Type 0 where
  pub handshake_secret : List ℕ
  pub c_hs_secret : List ℕ
  pub s_hs_secret : List ℕ
  pub client_key : List ℕ
  pub server_key : List ℕ
  pub client_iv : List ℕ
  pub server_iv : List ℕ

pub record AppKeys : Type 0 where
  pub c_ap_secret : List ℕ
  pub s_ap_secret : List ℕ
  pub client_key : List ℕ
  pub server_key : List ℕ
  pub client_iv : List ℕ
  pub server_iv : List ℕ

-- The conversions to arrays are left out: `expand` fills a buffer of the length asked for.
module _ (hashes : Hashes) where
  unfoldable pub expand_label : List ℕ → List ℕ → List ℕ → ℕ → List ℕ
  unfolding hkdf_label
  expand_label secret label context length_ =
      hashes.hkdf_expand secret (hkdf_label (length_ % 2 ^ 16) label context) length_

  unfoldable pub derive_secret : List ℕ → List ℕ → List ℕ → List ℕ
  unfolding expand_label
  derive_secret secret label transcript_hash = expand_label secret label transcript_hash 32

  unfoldable pub extract : List ℕ → List ℕ → List ℕ
  extract salt ikm = hashes.hkdf_extract salt ikm

  unfoldable pub transcript_hash : List (List ℕ) → List ℕ
  transcript_hash msgs = hashes.sha256 (concat msgs)

  unfoldable pub compute_finished_verify_data : List ℕ → List ℕ → List ℕ
  unfolding expand_label
  compute_finished_verify_data base_secret transcript_hash =
      let finished_key = expand_label base_secret Label.finished [] 32 in
      hashes.hmac_sha256 finished_key transcript_hash

  unfoldable pub derive_handshake_keys : List ℕ → List ℕ → List ℕ → Result Refusal HsKeys
  unfolding expand_label derive_secret extract transcript_hash
  derive_handshake_keys ecdhe client_hello server_hello =
      let early = extract zeros zeros in
      let derived1 = derive_secret early Label.derived (transcript_hash []) in
      let handshake = extract derived1 ecdhe in
      let th = transcript_hash (client_hello ∷ server_hello ∷ []) in
      let c_hs = derive_secret handshake Label.c_hs_traffic th in
      let s_hs = derive_secret handshake Label.s_hs_traffic th in
      if ecdhe =? zeros
      then err zero_ecdhe
      else ok (record {
        handshake_secret = handshake;
        c_hs_secret = c_hs;
        s_hs_secret = s_hs;
        client_key = expand_label c_hs Label.key [] 16;
        server_key = expand_label s_hs Label.key [] 16;
        client_iv = expand_label c_hs Label.iv [] 12;
        server_iv = expand_label s_hs Label.iv [] 12;
      })

  unfoldable pub derive_application_keys : List ℕ → List ℕ → AppKeys
  unfolding expand_label derive_secret extract transcript_hash
  derive_application_keys handshake_secret transcript_ch_sfin =
      let derived2 = derive_secret handshake_secret Label.derived (transcript_hash []) in
      let master = extract derived2 zeros in
      let c_ap = derive_secret master Label.c_ap_traffic transcript_ch_sfin in
      let s_ap = derive_secret master Label.s_ap_traffic transcript_ch_sfin in
      record {
        c_ap_secret = c_ap;
        s_ap_secret = s_ap;
        client_key = expand_label c_ap Label.key [] 16;
        server_key = expand_label s_ap Label.key [] 16;
        client_iv = expand_label c_ap Label.iv [] 12;
        server_iv = expand_label s_ap Label.iv [] 12;
      }

  unfoldable pub next_application_traffic_secret : List ℕ → List ℕ
  unfolding expand_label
  next_application_traffic_secret secret = expand_label secret Label.traffic_upd [] 32
