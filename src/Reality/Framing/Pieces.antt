-- ===== src/Reality/Framing/Pieces.antt =====
-- src/reality/handshake.rs (`HandshakeReassembler`): the messages do not depend on how the records cut
-- the bytes, and the fuel of the splitting is enough.
use mathlib.Core.List.{append-nil, append_assoc}
use mini_vpn.Reality.Framing.{next_message, split_messages, HandshakeReassembler, push, new}
use mini_vpn.Base.{
  ℕ, zero, suc, ◌+◌, ◌*◌, ◌^◌, ◌≤◌, ◌≡◌, refl, sym, ap, ◌∙◌, inl, inr, false, Option, none, some,
  List, [], ◌∷◌, ◌++◌, arith, ltb, Bool-cases, Option-cases, length, take, drop, length-append,
  length-drop, drop-append_le, take-append_le, concat,
}
use mini_vpn.Base.Keys.{nat_eq, bytes_eq, pair_eq}

-- What is left after a message is at least four bytes shorter.
next_message_shorter :
    (buf msg rest : List ℕ) → next_message buf ≡ some (msg, rest) → length rest + 4 ≤ length buf
unfolding next_message
next_message_shorter [] msg rest h = absurd cc
next_message_shorter (a ∷ []) msg rest h = absurd cc
next_message_shorter (a ∷ b ∷ []) msg rest h = absurd cc
next_message_shorter (a ∷ b ∷ c ∷ []) msg rest h = absurd cc
next_message_shorter (t ∷ a ∷ b ∷ c ∷ tail) msg rest h =
    elim (Bool-cases (ltb (length tail) (a * 2 ^ 16 + b * 256 + c))) [
      | inl f ↦ absurd (let bad : none ≡ some (msg, rest) = rw f at h in cc)
      | inr f ↦
          let fits : a * 2 ^ 16 + b * 256 + c ≤ length tail = ground arith in
          let after : drop (a * 2 ^ 16 + b * 256 + c) tail ≡ rest =
            ap (λ (o : Option (List ℕ × List ℕ)). elim o [ none ↦ [] | some (m, r) ↦ r ])
              (let whole : some (
                t ∷ a ∷ b ∷ c ∷ take (a * 2 ^ 16 + b * 256 + c) tail,
                drop (a * 2 ^ 16 + b * 256 + c) tail,
              )
                    ≡ some (msg, rest) =
                  rw f at h in
                whole) in
          omega (arith, ap length after, length-drop (a * 2 ^ 16 + b * 256 + c) tail)
    ]

-- A whole message is cut off the same way whatever follows.
next_message-append :
    (buf msg rest more : List ℕ)
    → next_message buf ≡ some (msg, rest)
    → next_message (buf ++ more) ≡ some (msg, rest ++ more)
unfolding next_message
next_message-append [] msg rest more h = absurd cc
next_message-append (a ∷ []) msg rest more h = absurd cc
next_message-append (a ∷ b ∷ []) msg rest more h = absurd cc
next_message-append (a ∷ b ∷ c ∷ []) msg rest more h = absurd cc
next_message-append (t ∷ a ∷ b ∷ c ∷ tail) msg rest more h =
    let len = a * 2 ^ 16 + b * 256 + c in
    elim (Bool-cases (ltb (length tail) len)) [
      | inl f ↦ absurd (let bad : none ≡ some (msg, rest) = rw f at h in cc)
      | inr f ↦
          let fits : len ≤ length tail = ground arith in
          let f' : ltb (length (tail ++ more)) len ≡ false =
            ground (arith, length-append tail more) in
          let held : some (t ∷ a ∷ b ∷ c ∷ take len tail, drop len tail) ≡ some (msg, rest) =
            rw f at h in
          rw (f', take-append_le len tail more fits, drop-append_le len tail more fits)
            (ap (λ o. elim o [ none ↦ none | some (m, r) ↦ some (m, r ++ more) ]) held)
    ]

abbrev prepend : List (List ℕ) → List (List ℕ) × List ℕ → List (List ℕ) × List ℕ
prepend msgs (out, left) = (msgs ++ out, left)

pub split_messages-none :
    (n : ℕ) (buf : List ℕ) → next_message buf ≡ none → split_messages n buf ≡ ([], buf)
unfolding split_messages
split_messages-none zero buf e = refl
split_messages-none (suc n) buf e = rw (split_messages, e) refl

pub split_messages-some :
    (n : ℕ) (buf msg rest : List ℕ)
    → next_message buf ≡ some (msg, rest)
    → split_messages (suc n) buf ≡ prepend (msg ∷ []) (split_messages n rest)
unfolding split_messages
split_messages-some n buf msg rest e = rw (split_messages, e) refl

next_message_nil : next_message [] ≡ none
unfolding next_message
next_message_nil = refl

-- Two amounts of fuel that are enough give the same.
pub split_messages_fuel :
    (m n : ℕ) (buf : List ℕ)
    → length buf ≤ m
    → length buf ≤ n
    → split_messages m buf ≡ split_messages n buf
split_messages_fuel zero n [] hm hn =
    split_messages-none zero [] next_message_nil ∙ sym (split_messages-none n [] next_message_nil)
split_messages_fuel zero n (b ∷ bs) hm hn = absurd (omega arith)
split_messages_fuel (suc m) zero [] hm hn =
    split_messages-none (suc m) [] next_message_nil
    ∙ sym (split_messages-none zero [] next_message_nil)
split_messages_fuel (suc m) zero (b ∷ bs) hm hn = absurd (omega arith)
split_messages_fuel (suc m) (suc n) buf hm hn = elim (Option-cases (next_message buf)) [
  | inl e ↦ split_messages-none (suc m) buf e ∙ sym (split_messages-none (suc n) buf e)
  | inr ((msg, rest), e) ↦
      let short = next_message_shorter buf msg rest e in
      split_messages-some m buf msg rest e
      ∙ ap (prepend (msg ∷ [])) (split_messages_fuel m n rest (omega arith) (omega arith))
      ∙ sym (split_messages-some n buf msg rest e)
]

split_messages_left : (n : ℕ) (buf : List ℕ) → length (split_messages n buf).1 ≤ length buf
split_messages_left zero buf = unfold split_messages in omega arith
split_messages_left (suc n) buf = elim (Option-cases (next_message buf)) [
  | inl e ↦ rw (split_messages-none (suc n) buf e) (omega arith)
  | inr ((msg, rest), e) ↦
      rw (split_messages-some n buf msg rest e)
        (omega (arith, next_message_shorter buf msg rest e, split_messages_left n rest))
]

-- With enough fuel no whole message is left.
split_messages_settled :
    (n : ℕ) (buf : List ℕ) → length buf ≤ n → next_message (split_messages n buf).1 ≡ none
split_messages_settled zero [] h = unfold split_messages in next_message_nil
split_messages_settled zero (b ∷ bs) h = absurd (omega arith)
split_messages_settled (suc n) buf h = elim (Option-cases (next_message buf)) [
  | inl e ↦ rw (split_messages-none (suc n) buf e) e
  | inr ((msg, rest), e) ↦
      let short = next_message_shorter buf msg rest e in
      rw (split_messages-some n buf msg rest e) (split_messages_settled n rest (omega arith))
]

-- Bytes that follow are split with what the bytes before them left.
split_messages-append :
    (n m : ℕ) (buf more : List ℕ)
    → length buf ≤ n
    → length (buf ++ more) ≤ m
    → split_messages m (buf ++ more)
      ≡ prepend (split_messages n buf).0 (split_messages m ((split_messages n buf).1 ++ more))
split_messages-append zero m buf more hn hm = unfold split_messages in refl
split_messages-append (suc n) zero [] more hn hm =
    rw (split_messages-none (suc n) [] next_message_nil) refl
split_messages-append (suc n) zero (b ∷ bs) more hn hm = absurd (omega arith)
split_messages-append (suc n) (suc m) buf more hn hm = elim (Option-cases (next_message buf)) [
  | inl e ↦ rw (split_messages-none (suc n) buf e) refl
  | inr ((msg, rest), e) ↦
      let short = next_message_shorter buf msg rest e in
      let left = (split_messages n rest).1 in
      let low : length rest ≤ n = omega arith in
      let high : length (rest ++ more) ≤ m =
        omega (arith, length-append rest more, length-append buf more) in
      let room : length (left ++ more) ≤ m =
        omega
          (arith, split_messages_left n rest, length-append left more, length-append rest more) in
      let fuel : split_messages m (left ++ more) ≡ split_messages (suc m) (left ++ more) =
        split_messages_fuel m (suc m) (left ++ more) room (omega arith) in
      split_messages-some m (buf ++ more) msg (rest ++ more)
        (next_message-append buf msg rest more e)
      ∙ ap (prepend (msg ∷ [])) (split_messages-append n m rest more low high)
      ∙ ap (λ p. prepend (msg ∷ (split_messages n rest).0) p) fuel
      ∙ rw (split_messages-some n buf msg rest e) refl
]

-- The messages of the chunks pushed one after the other.
abbrev pub push_all : HandshakeReassembler → List (List ℕ) → List (List ℕ) × HandshakeReassembler
push_all self [] = ([], self)
push_all self (c ∷ cs) =
    let (out, more) = push self c in let (outs, last) = push_all more cs in (out ++ outs, last)

abbrev pub held : List (List ℕ) × List ℕ → List (List ℕ) × HandshakeReassembler
held (out, left) = (out, record { buf = left })

-- All of some bytes split.
abbrev pub split_whole : List ℕ → List (List ℕ) × List ℕ
split_whole buf = split_messages (length buf) buf

push-split_whole : (buf c : List ℕ) → push (record { buf = buf }) c ≡ held (split_whole (buf ++ c))
unfolding push
push-split_whole buf c = refl

push_all-split :
    (cs : List (List ℕ)) (buf : List ℕ)
    → next_message buf ≡ none
    → push_all (record { buf = buf }) cs ≡ held (split_whole (buf ++ concat cs))
push_all-split [] buf e =
    rw (append-nil buf) (ap held (sym (split_messages-none (length buf) buf e)))
push_all-split (c ∷ cs) buf e =
    let all = buf ++ c in
    let (out, left) = split_whole all in
    let rest = push_all-split cs left (split_messages_settled (length all) all (omega arith)) in
    let short : length (left ++ concat cs) ≤ length (all ++ concat cs) = omega (
      arith,
      split_messages_left (length all) all,
      length-append left (concat cs),
      length-append all (concat cs),
    ) in
    let cut : split_whole (all ++ concat cs) ≡ prepend out (split_whole (left ++ concat cs)) =
      split_messages-append (length all) (length (all ++ concat cs)) all (concat cs) (omega arith)
        (omega arith)
      ∙ ap (prepend out) (split_messages_fuel _ _ (left ++ concat cs) short (omega arith)) in
    rw (push-split_whole buf c, rest, ← append_assoc buf c (concat cs), cut) refl

-- However records cut the handshake bytes, the messages that come out, and the part of one that
-- stays, are those of the bytes in one piece.
pub push_all-split_whole : (cs : List (List ℕ)) → push_all new cs ≡ held (split_whole (concat cs))
unfolding new
push_all-split_whole cs = push_all-split cs [] next_message_nil
