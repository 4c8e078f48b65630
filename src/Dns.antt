-- ===== src/Dns.antt =====
-- src/dns.rs: a DNS query read from its bytes, and the reply to it.
pub mod Echo
pub mod Labels
pub mod Utf8
mod Tests
use mini_vpn.Dns.Utf8.{is_utf8}
use mini_vpn.Base.{
  ℕ, zero, suc, ◌+◌, ◌-◌, ◌*◌, ◌/◌, ◌%◌, ◌^◌, ◌≤◌, ◌<◌, min, max, ◌≡◌, refl, sym, ap, ◌∙◌, ◌≢◌, ◌↔◌,
  ◌⊎◌, inl, inr, Bool, true, false, not, ◌&&◌, ◌||◌, Option, none, some, List, [], ◌∷◌, ◌++◌, map,
  arith, ltb, leb, ◌==◌, ==_iff, ltb→lt, leb→le, if◌then◌else◌, Bool-cases, Option-cases, ◌>>=◌,
  is_some, some_inj, length, get_elem?, set, take, drop, replicate, length-append, length-take,
  take-length, length-drop, take-append-drop, length-set, length-replicate, take-append,
  drop-append, drop-append_le, drop-add, get_elem?-append, All, Distinct, any, any_iff, Some,
  and_right, or_right, keep,
}
use mini_vpn.Base.Bytes.{
  IsByte, IsU16, IsU32, u16_be, u32_be, be_bytes, length-be_bytes, from_be16, from_be16-u16_be,
  from_be, from_be-be_bytes, from_be-u32_be,
}
use mini_vpn.Base.Keys.{Eq, ◌=?◌, nat_eq, bytes_eq, pair_eq}
use mini_vpn.Base.Map.{
  Map, get, insert, remove, contains_key, retain, update, UniqueKeys, get-insert, get-remove,
  =?_refl, =?_eq, =?_ne, get-update, insert-UniqueKeys, remove-UniqueKeys, update-UniqueKeys,
  Distinct-le, length-remove-le, length-insert-le, length-remove-lt,
}

abbrev pub qtype_a : ℕ
qtype_a = 1

abbrev pub qtype_aaaa : ℕ
qtype_aaaa = 28

pub record DnsQuery : Type 0 where
  pub id : ℕ
  pub qname : List ℕ
  pub qtype : ℕ
  pub rd : Bool
  pub question : List ℕ

-- `answer_a` is `Answer::A`, with the address and the ttl.
pub data Answer : Type 0 where
  answer_a : ℕ → ℕ → Answer
  no_data : Answer

abbrev pub u16_at : List ℕ → ℕ → Option ℕ
u16_at bytes i = do hi ← get_elem? bytes i; lo ← get_elem? bytes (i + 1); some (from_be16 hi lo)

-- `data.get(from..to)`.
abbrev pub slice : List ℕ → ℕ → ℕ → Option (List ℕ)
slice bytes from to =
    if leb from to && leb to (length bytes) then some (take (to - from) (drop from bytes)) else none

-- The label of `len` bytes at `pos`, as text.
unfoldable pub label_at : List ℕ → ℕ → ℕ → Option (List ℕ)
unfolding is_utf8
label_at bytes pos len = do
  label ← slice bytes pos (pos + len)
  if is_utf8 label then some label else none

-- The label, if it is text, in front of those of the rounds that follow.
abbrev pub push_label : Option (List ℕ) → Option (List (List ℕ) × ℕ) → Option (List (List ℕ) × ℕ)
push_label none rest = none
push_label (some label) none = none
push_label (some label) (some (labels, end)) = some (label ∷ labels, end)

-- The loop over the labels from `pos`, in at most `n` rounds: the labels and the place after them.
-- `len & 0xC0 != 0` tests the two high bits of the byte.
unfoldable pub labels_at : ℕ → List ℕ → ℕ → Option (List (List ℕ) × ℕ)
unfolding label_at
labels_at zero bytes pos = none
labels_at (suc n) bytes pos = elim (get_elem? bytes pos) [
  | none ↦ none
  | some len ↦
      let rest = labels_at n bytes (pos + 1 + len) in
      if len == 0
      then some ([], pos + 1)
      else if len / 64 % 4 == 0
      then push_label (label_at bytes (pos + 1) len) rest
      else none
]

-- `labels.join(".")`.
unfoldable pub join : List (List ℕ) → List ℕ
join [] = []
join (l ∷ []) = l
join (l ∷ m ∷ ls) = l ++ 46 ∷ join (m ∷ ls)

-- What is read behind the name, whose labels end in front of `pos`.
unfoldable pub question_at : List ℕ → ℕ → ℕ → List (List ℕ) × ℕ → Option DnsQuery
unfolding join
question_at bytes id flags (labels, pos) = do
  qtype ← u16_at bytes pos
  question ← slice bytes 12 (pos + 4)
  some (record {
    id = id;
    qname = join labels;
    qtype = qtype;
    rd = not (flags / 256 % 2 == 0);
    question = question;
  })

-- A round of the loop over the labels reads at least one byte, so that the rounds never run out.
unfoldable pub body_at : List ℕ → ℕ → ℕ → ℕ → Option DnsQuery
unfolding labels_at question_at
body_at bytes id flags qdcount =
    if qdcount == 1 then labels_at (length bytes) bytes 12 >>= question_at bytes id flags else none

-- `flags & 0x0100 != 0` tests the ninth bit.
unfoldable pub parse_query : List ℕ → Option DnsQuery
unfolding body_at
parse_query bytes = if ltb (length bytes) 12 then none else do
  id ← u16_at bytes 0
  flags ← u16_at bytes 2
  qdcount ← u16_at bytes 4
  body_at bytes id flags qdcount

abbrev pub ancount : Answer → ℕ
ancount (answer_a ip ttl) = 1
ancount no_data = 0

-- A pointer to the name at offset 12, type A, class IN, the ttl, the length and the address.
abbrev pub answer_record : Answer → List ℕ
answer_record (answer_a ip ttl) =
    0xc0 ∷ 0x0c ∷ (u16_be qtype_a ++ u16_be 1 ++ u32_be ttl ++ u16_be 4 ++ u32_be ip)
answer_record no_data = []

-- `0x8000 | rd_bit`.
abbrev pub reply_flags : Bool → ℕ
reply_flags true = 0x8100
reply_flags false = 0x8000

unfoldable pub build_response : DnsQuery → Answer → List ℕ
build_response q answer =
    u16_be q.id
    ++ u16_be (reply_flags q.rd)
    ++ u16_be 1
    ++ u16_be (ancount answer)
    ++ u16_be 0
    ++ u16_be 0
    ++ q.question
    ++ answer_record answer
