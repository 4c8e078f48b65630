-- ===== src/Reality/Framing.antt =====
-- How the byte stream is cut: TLS records (src/reality_upstream.rs, `decode_one`) and the handshake
-- messages in them (src/reality/handshake.rs, `HandshakeReassembler`).
pub mod Pieces
pub mod Records
use mini_vpn.Reality.Record.{max_tls_record}
use mini_vpn.Reality.{Refusal, record_too_long}
use mini_vpn.Base.{
  ℕ, zero, suc, ◌+◌, ◌-◌, ◌*◌, ◌/◌, ◌%◌, ◌^◌, ◌≤◌, ◌<◌, min, max, ◌≡◌, refl, sym, ap, ◌∙◌, ◌≢◌, ◌↔◌,
  ◌⊎◌, inl, inr, Bool, true, false, not, ◌&&◌, ◌||◌, Option, none, some, List, [], ◌∷◌, ◌++◌, map,
  arith, ltb, leb, ◌==◌, ==_iff, ltb→lt, leb→le, if◌then◌else◌, Bool-cases, Option-cases, ◌>>=◌,
  is_some, some_inj, bind_some, length, get_elem?, set, take, drop, replicate, length-append,
  length-take, take-length, length-drop, take-append-drop, length-set, length-replicate,
  take-append, drop-append, drop-append_le, drop-add, get_elem?-append, get_elem?-append_lt,
  take-append_le, All, Distinct, any, any_iff, Some, and_right, or_right, keep, concat,
}
use mini_vpn.Base.Bytes.{
  IsByte, IsU16, IsU32, u16_be, u32_be, be_bytes, length-be_bytes, from_be16, from_be16-u16_be,
  from_be, from_be-be_bytes, from_be-u32_be,
}
use mini_vpn.Base.Results.{Result, ok, err, and_then, and_then_ok, ok_or, ok_inj}
use mini_vpn.Base.Keys.{Eq, ◌=?◌, nat_eq, bytes_eq, pair_eq}
use mini_vpn.Base.Map.{
  Map, get, insert, remove, contains_key, retain, update, UniqueKeys, get-insert, get-remove,
  =?_refl, =?_eq, =?_ne, get-update, insert-UniqueKeys, remove-UniqueKeys, update-UniqueKeys,
  Distinct-le, length-remove-le, length-insert-le, length-remove-lt, length-update,
}

-- The first record of the bytes read, as its header and payload, with the bytes that follow it.
unfoldable pub next_record : List ℕ → Result Refusal (Option (List ℕ × List ℕ × List ℕ))
next_record (t ∷ major ∷ minor ∷ hi ∷ lo ∷ rest) =
    let len = from_be16 hi lo in
    if ltb max_tls_record len
    then err record_too_long
    else if ltb (length rest) len
    then ok none
    else ok (some (t ∷ major ∷ minor ∷ hi ∷ lo ∷ [], take len rest, drop len rest))
next_record _ = ok none

-- The first handshake message, with its header, and the bytes that follow it.
unfoldable pub next_message : List ℕ → Option (List ℕ × List ℕ)
next_message (t ∷ a ∷ b ∷ c ∷ rest) =
    let len = a * 2 ^ 16 + b * 256 + c in
    if ltb (length rest) len then none else some (t ∷ a ∷ b ∷ c ∷ take len rest, drop len rest)
next_message _ = none

-- All the whole messages and the part of a message that is left. A message takes at least four bytes.
unfoldable pub split_messages : ℕ → List ℕ → List (List ℕ) × List ℕ
unfolding next_message
split_messages zero buf = ([], buf)
split_messages (suc n) buf = elim (next_message buf) [
  | none ↦ ([], buf)
  | some (msg, rest) ↦ let (msgs, left) = split_messages n rest in (msg ∷ msgs, left)
]

pub record HandshakeReassembler : Type 0 where
  pub buf : List ℕ

unfoldable pub new : HandshakeReassembler
new = record { buf = [] }

unfoldable pub is_empty : HandshakeReassembler → Bool
is_empty self = elim self.buf [ [] ↦ true | b ∷ bs ↦ false ]

unfoldable pub push : HandshakeReassembler → List ℕ → List (List ℕ) × HandshakeReassembler
unfolding split_messages
push self data_ =
    let all = self.buf ++ data_ in
    let (out, left) = split_messages (length all) all in (out, record { buf = left })
