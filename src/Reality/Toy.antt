-- ===== src/Reality/Toy.antt =====
-- A toy cryptography to run the code of src/reality/ in tests: its tag shows the key and the nonce.
use mini_vpn.Reality.{Aead, Hashes}
use mini_vpn.Base.{
  ℕ, ◌+◌, ◌-◌, ◌≡◌, refl, ap, ◌∙◌, Option, none, some, List, ◌++◌, arith, if◌then◌else◌, length,
  take, drop, replicate, length-append, length-take, length-replicate, take-append, drop-append,
}
use mini_vpn.Base.Keys.{◌=?◌, nat_eq, bytes_eq, pair_eq}
use mini_vpn.Base.Map.{=?_refl}

abbrev pub tag : List ℕ → List ℕ → List ℕ
tag key nonce = take 16 (take 2 key ++ nonce ++ replicate 16 0)

abbrev pub toy_decrypt : List ℕ → List ℕ → List ℕ → List ℕ → Option (List ℕ)
toy_decrypt key nonce aad ct =
    let len = length ct - 16 in if drop len ct =? tag key nonce then some (take len ct) else none

pub length-tag : (key nonce : List ℕ) → length (tag key nonce) ≡ 16
length-tag key nonce =
    let all = length-append (take 2 key ++ nonce) (replicate 16 0) in
    let pad = length-replicate {A = ℕ} 16 0 in
    length-take 16 (take 2 key ++ nonce ++ replicate 16 0) ∙ omega (arith, all, pad)

pub toy_opens :
    (key nonce aad msg : List ℕ) → toy_decrypt key nonce aad (msg ++ tag key nonce) ≡ some msg
toy_opens key nonce aad msg =
    let size : length (msg ++ tag key nonce) - 16 ≡ length msg =
      omega (arith, length-append msg (tag key nonce), length-tag key nonce) in
    rw
      (
        size,
        drop-append (length msg) msg (tag key nonce) refl,
        take-append (length msg) msg (tag key nonce) refl,
        =?_refl (tag key nonce),
      )
      refl

abbrev pub toy : Aead
toy = record {
  encrypt = λ key nonce aad msg. msg ++ tag key nonce;
  decrypt = toy_decrypt;
  decrypt-encrypt = toy_opens;
  length-encrypt = λ key nonce aad msg.
      length-append msg (tag key nonce) ∙ ap (λ n. length msg + n) (length-tag key nonce);
}

abbrev pub toy_hashes : Hashes
toy_hashes = record {
  hkdf_extract = λ salt ikm. take 32 (ikm ++ salt);
  hkdf_expand = λ prk info n. take n (drop 9 info ++ prk ++ replicate n 0);
  hmac_sha256 = λ key msg. take 32 (key ++ msg);
  sha256 = λ msg. take 32 (msg ++ replicate 32 0);
  x25519 = λ secret point. take 32 (secret ++ point);
}
