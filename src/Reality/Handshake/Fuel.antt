-- ===== src/Reality/Handshake/Fuel.antt =====
-- src/reality/handshake.rs (`drive`): the loop over the server's flight ends.
use mini_vpn.Reality.Framing.{next_record, push}
use mini_vpn.Reality.Framing.Records.{next_record_shorter}
use mini_vpn.Reality.Record.{RecordKeys, open_record, next_seq, trim_zeros, pop}
use mini_vpn.Reality.Handshake.{
  next_of, Flight, flight_message, flight_messages, flight_record, flight,
}
use mini_vpn.Reality.{
  Aead, Hashes, Refusal, record_too_long, not_handshake, connection_closed, unexpected_message,
  unexpected_record, no_certificate, finished_mac, certificate_refused, out_of_fuel,
}
use mini_vpn.Base.{
  ℕ, zero, suc, ◌+◌, ◌^◌, ◌≤◌, ◌<◌, ◌≡◌, refl, ◌≢◌, Bool, not, Option, none, some, List, [], ◌∷◌,
  ◌++◌, arith, ltb, ◌==◌, if◌then◌else◌, if_intro, length, get_elem?, drop, length-append, concat,
}
use mini_vpn.Base.Bytes.{from_be16}
use mini_vpn.Base.Results.{Result, ok, err, and_then, ok_or}
use mini_vpn.Base.Keys.{◌=?◌, nat_eq, bytes_eq, pair_eq}

-- A result that fuel did not decide.
abbrev pub IsDecided {ℓ} : {A : Type ℓ} → Result Refusal A → Type 0
IsDecided (ok a) = Unit
IsDecided (err e) = e ≢ out_of_fuel

next_seq-IsDecided : (seq : ℕ) → IsDecided (next_seq seq)
unfolding next_seq
next_seq-IsDecided seq = if_intro IsDecided (ltb (seq + 1) (2 ^ 64)) tt (λ q. absurd cc)

pub and_then-IsDecided {ℓ κ} :
    {A : Type ℓ} {B : Type κ} (r : Result Refusal A) (f : A → Result Refusal B)
    → IsDecided r
    → ((a : A) → r ≡ ok a → IsDecided (f a))
    → IsDecided (and_then r f)
and_then-IsDecided (ok a) f d h = h a refl
and_then-IsDecided (err e) f d h = d

pub ok_or-IsDecided {ℓ} :
    {A : Type ℓ} (o : Option A) {e : Refusal} → e ≢ out_of_fuel → IsDecided (ok_or o e)
ok_or-IsDecided none h = h
ok_or-IsDecided (some a) h = tt

open_record-IsDecided :
    (aead : Aead) (keys : RecordKeys) (header payload : List ℕ)
    → IsDecided (open_record aead keys header payload)
unfolding open_record
open_record-IsDecided aead keys header payload =
    and_then-IsDecided _ _
      (ok_or-IsDecided (aead.decrypt keys.key _ header payload) (λ q. absurd cc))
      (λ inner e. and_then-IsDecided (next_seq keys.seq) _ (next_seq-IsDecided keys.seq) (λ seq f.
        and_then-IsDecided _ _ (ok_or-IsDecided (pop (trim_zeros inner)) (λ q. absurd cc))
          (λ popped g. tt)))

next_record-IsDecided : (raw : List ℕ) → IsDecided (next_record raw)
unfolding next_record
next_record-IsDecided [] = tt
next_record-IsDecided (a ∷ []) = tt
next_record-IsDecided (a ∷ b ∷ []) = tt
next_record-IsDecided (a ∷ b ∷ c ∷ []) = tt
next_record-IsDecided (a ∷ b ∷ c ∷ d ∷ []) = tt
next_record-IsDecided (a ∷ b ∷ c ∷ hi ∷ lo ∷ tail) =
    if_intro IsDecided _ {x = err record_too_long} (λ q. absurd cc)
      (if_intro IsDecided (ltb (length tail) (from_be16 hi lo)) tt tt)

-- What is left to read: none, or a byte less at least.
abbrev pub Shrinks : ℕ → Result Refusal (List ℕ × List ℕ × List ℕ × List (List ℕ)) → Type 0
Shrinks n (ok (header, payload, left, more)) = length left + length (concat more) < n
Shrinks n (err e) = e ≢ out_of_fuel

pub Shrinks-le :
    {n m : ℕ} (r : Result Refusal (List ℕ × List ℕ × List ℕ × List (List ℕ)))
    → n ≤ m
    → Shrinks n r
    → Shrinks m r
Shrinks-le (ok x) le h = omega (arith, le, h)
Shrinks-le (err e) le h = h

and_then-Shrinks :
    (n : ℕ) (r : Result Refusal (Option (List ℕ × List ℕ × List ℕ)))
    (f : Option (List ℕ × List ℕ × List ℕ)
      → Result Refusal (List ℕ × List ℕ × List ℕ × List (List ℕ)))
    → IsDecided r
    → (r ≡ ok none → Shrinks n (f none))
    → ((header payload rest : List ℕ)
        → r ≡ ok (some (header, payload, rest))
        → Shrinks n (f (some (header, payload, rest))))
    → Shrinks n (and_then r f)
and_then-Shrinks n (ok none) f d h g = h refl
and_then-Shrinks n (ok (some (header, payload, rest))) f d h g = g header payload rest refl
and_then-Shrinks n (err e) f d h g = d

pub next_of-Shrinks :
    (reads : List (List ℕ)) (buf : List ℕ)
    → Shrinks (length buf + length (concat reads)) (next_of reads buf)
unfolding next_of
next_of-Shrinks [] buf =
    and_then-Shrinks (length buf + 0) (next_record buf) _ (next_record-IsDecided buf)
      (λ e q. absurd cc)
      (λ header payload rest e. omega (arith, next_record_shorter buf header payload rest e))
next_of-Shrinks (bs ∷ reads) buf =
    let n = length buf + length (bs ++ concat reads) in
    let whole = length-append bs (concat reads) in
    let joined = length-append buf bs in
    and_then-Shrinks n (next_record buf) _ (next_record-IsDecided buf)
      (λ e.
        if_intro (Shrinks n) (length bs == 0) {x = err connection_closed} (λ q. absurd cc)
          (Shrinks-le (next_of reads (buf ++ bs)) (omega (arith, whole, joined))
            (next_of-Shrinks reads (buf ++ bs))))
      (λ header payload rest e. omega (arith, next_record_shorter buf header payload rest e))

module _ (aead : Aead) (hashes : Hashes) (verify_cert : List ℕ → Bool) (s_hs_secret : List ℕ) where
  flight_message-IsDecided :
      (self : Flight) (msg : List ℕ)
      → IsDecided (flight_message aead hashes verify_cert s_hs_secret self msg)
  unfolding flight_message
  flight_message-IsDecided self msg =
      and_then-IsDecided (ok_or (get_elem? msg 0) (unexpected_message 0)) _
        (ok_or-IsDecided (get_elem? msg 0) (λ q. absurd cc))
        (λ t e. if_intro IsDecided (t == 0x08) tt (
          if_intro IsDecided (t == 0x0b)
            (if_intro IsDecided (verify_cert msg) {y = err certificate_refused} tt (λ q. absurd cc))
            (if_intro IsDecided (t == 0x0f) tt (
              if_intro IsDecided (t == 0x14) {y = err (unexpected_message t)}
                (if_intro IsDecided (not self.cert_verified) {x = err no_certificate}
                  (λ q. absurd cc)
                  (if_intro IsDecided (drop 4 msg =? _) {y = err finished_mac} tt (λ q. absurd cc)))
                (λ q. absurd cc)))))

  flight_messages-IsDecided :
      (self : Flight) (msgs : List (List ℕ))
      → IsDecided (flight_messages aead hashes verify_cert s_hs_secret self msgs)
  unfolding flight_messages
  flight_messages-IsDecided self [] = tt
  flight_messages-IsDecided self (msg ∷ msgs) =
      and_then-IsDecided (flight_message aead hashes verify_cert s_hs_secret self msg) _
        (flight_message-IsDecided self msg)
        (λ (done, next) e. if_intro IsDecided done tt (flight_messages-IsDecided next msgs))

  flight_record-IsDecided :
      (self : Flight) (header payload : List ℕ)
      → IsDecided (flight_record aead hashes verify_cert s_hs_secret self header payload)
  unfolding flight_record
  flight_record-IsDecided self header payload =
      and_then-IsDecided (ok_or (get_elem? header 0) connection_closed) _
        (ok_or-IsDecided (get_elem? header 0) (λ q. absurd cc))
        (λ ct e. if_intro IsDecided (ct == 0x14) tt (
          if_intro IsDecided (ct == 0x17) {y = err (unexpected_record ct)}
            (and_then-IsDecided (open_record aead self.recv header payload) _
              (open_record-IsDecided aead self.recv header payload)
              (λ (keys, inner_type, content) f.
                if_intro IsDecided (not (inner_type == 0x16)) {x = err (not_handshake inner_type)}
                  (λ q. absurd cc)
                  (flight_messages-IsDecided
                    (record self { recv = keys; reasm = (push self.reasm content).1 })
                    (push self.reasm content).0)))
            (λ q. absurd cc)))

  pub flight-IsDecided :
      (n : ℕ) (reads : List (List ℕ)) (buf : List ℕ) (self : Flight)
      → length buf + length (concat reads) < n
      → IsDecided (flight aead hashes verify_cert s_hs_secret n reads buf self)
  unfolding flight
  flight-IsDecided zero reads buf self lt = omega (arith, lt)
  flight-IsDecided (suc n) reads buf self lt =
      after (next_of reads buf) (next_of-Shrinks reads buf)
        (λ more left next less. flight-IsDecided n more left next (omega (arith, less, lt)))
    where
      after :
          (r : Result Refusal (List ℕ × List ℕ × List ℕ × List (List ℕ)))
          → Shrinks (length buf + length (concat reads)) r
          → ((more : List (List ℕ)) (left : List ℕ) (next : Flight)
              → length left + length (concat more) < length buf + length (concat reads)
              → IsDecided (flight aead hashes verify_cert s_hs_secret n more left next))
          → IsDecided (
              and_then r (λ (header, payload, left, more).
                and_then
                  (flight_record aead hashes verify_cert s_hs_secret self header payload)
                  (λ (done, next).
                    if done
                    then ok (next, left, more)
                    else flight aead hashes verify_cert s_hs_secret n more left next)))
      after (err e) s rest = s
      after (ok (header, payload, left, more)) s rest =
          and_then-IsDecided (flight_record aead hashes verify_cert s_hs_secret self header payload)
            _ (flight_record-IsDecided self header payload)
            (λ (done, next) e. if_intro IsDecided done tt (rest more left next s))
