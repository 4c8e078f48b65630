-- ===== src/Reality/Handshake/Guard.antt =====
-- src/reality/handshake.rs (`drive`): what the loop over the server's flight keeps of the certificate.
use mathlib.Core.List.{append_assoc, append-nil}
use mini_vpn.Reality.Framing.{push}
use mini_vpn.Reality.KeySchedule.{compute_finished_verify_data, transcript_hash}
use mini_vpn.Reality.Record.{open_record}
use mini_vpn.Reality.Handshake.{
  next_of, Flight, flight_message, flight_messages, flight_record, flight,
}
use mini_vpn.Reality.{
  Aead, Hashes, Refusal, not_handshake, connection_closed, unexpected_message, unexpected_record,
}
use mini_vpn.Base.{
  ℕ, zero, suc, ◌≡◌, refl, sym, ap, ◌∙◌, Bool, true, false, not, some, List, [], ◌∷◌, ◌++◌, arith,
  ◌==◌, ==_iff, if◌then◌else◌, if_cases, if_intro, get_elem?, drop,
}
use mini_vpn.Base.Results.{Result, ok, err, and_then, and_then_intro, ok_or, ok_inj}
use mini_vpn.Base.Keys.{◌=?◌, nat_eq, bytes_eq, pair_eq}
use mini_vpn.Base.Map.{=?_eq}

-- A certificate message that was accepted is part of the transcript.
abbrev pub HasCertificate : (List ℕ → Bool) → List ℕ → Type 0
HasCertificate verify_cert transcript =
    (before : List ℕ) × (cert : List ℕ) × (after : List ℕ) × (transcript ≡ before ++ cert ++ after)
    × (get_elem? cert 0 ≡ some 0x0b)
    × (verify_cert cert ≡ true)

-- The messages of the flight end in a Finished whose MAC is right for all that stands before it, from
-- the hellos on, and hold an accepted certificate.
abbrev pub IsAuthentic : Hashes → (List ℕ → Bool) → List ℕ → List ℕ → List ℕ → Type 0
IsAuthentic hashes verify_cert s_hs_secret hello messages =
    (before : List ℕ) × (fin : List ℕ) × (messages ≡ before ++ fin)
    × (get_elem? fin 0 ≡ some 0x14)
    × (drop 4 fin
        ≡ compute_finished_verify_data hashes s_hs_secret
            (transcript_hash hashes ((hello ++ before) ∷ [])))
    × HasCertificate verify_cert before

HasCertificate-more :
    (verify_cert : List ℕ → Bool) (transcript msg : List ℕ)
    → HasCertificate verify_cert transcript
    → HasCertificate verify_cert (transcript ++ msg)
HasCertificate-more verify_cert transcript msg (before, cert, after, e, kind, good) = (
  before,
  cert,
  after ++ msg,
  ap (λ (t : List ℕ). t ++ msg) e ∙ append_assoc (before ++ cert) after msg,
  kind,
  good,
)

module _ (aead : Aead) (hashes : Hashes) (verify_cert : List ℕ → Bool)
    (s_hs_secret hello : List ℕ) where
  -- The transcript goes on from the hellos, and the flag is set only where a certificate was
  -- accepted since.
  abbrev IsGuarded : Flight → Type 0
  IsGuarded self =
      (sofar : List ℕ) × (self.transcript ≡ hello ++ sofar)
      × (self.cert_verified ≡ true → HasCertificate verify_cert sofar)

  abbrev Authentic : Flight → Type 0
  Authentic end =
      (messages : List ℕ) × (end.transcript ≡ hello ++ messages)
      × IsAuthentic hashes verify_cert s_hs_secret hello messages

  abbrev Goes : Result Refusal (Bool × Flight) → Type 0
  Goes (ok (true, end)) = Authentic end
  Goes (ok (false, next)) = IsGuarded next
  Goes (err e) = Unit

  flight_message-Goes :
      (self : Flight) (msg : List ℕ)
      → IsGuarded self
      → Goes (flight_message aead hashes verify_cert s_hs_secret self msg)
  unfolding flight_message
  flight_message-Goes self msg (sofar, e_sofar, has_cert) =
      let folded = record self { transcript = self.transcript ++ msg } in
      let longer : self.transcript ++ msg ≡ hello ++ (sofar ++ msg) =
        ap (λ (t : List ℕ). t ++ msg) e_sofar ∙ append_assoc hello sofar msg in
      let more : IsGuarded folded =
        (sofar ++ msg, longer, λ q. HasCertificate-more verify_cert sofar msg (has_cert q)) in
      let mac : List ℕ → List ℕ =
        λ t. compute_finished_verify_data hashes s_hs_secret (transcript_hash hashes (t ∷ [])) in
      let expected = mac self.transcript in
      and_then_intro Goes (ok_or (get_elem? msg 0) (unexpected_message 0))
        (λ t e.
          if_cases Goes (t == 0x08) (λ a. more)
            (λ a.
              if_cases Goes (t == 0x0b)
                (λ b.
                  if_cases Goes (verify_cert msg)
                    (λ good. (
                      sofar ++ msg,
                      longer,
                      λ q. (
                        sofar,
                        msg,
                        [],
                        sym (append-nil (sofar ++ msg)),
                        first msg e ∙ ap some ((==_iff t 0x0b).0 b),
                        good,
                      ),
                    ))
                    (λ bad. tt))
                (λ b.
                  if_cases Goes (t == 0x0f) (λ c. more)
                    (λ c.
                      if_cases Goes (t == 0x14)
                        (λ d.
                          if_cases Goes (not self.cert_verified) (λ no_cert. tt)
                            (λ has.
                              if_cases Goes (drop 4 msg =? expected)
                                (λ same. (
                                  sofar ++ msg,
                                  longer,
                                  (
                                    sofar,
                                    msg,
                                    refl,
                                    first msg e ∙ ap some ((==_iff t 0x14).0 d),
                                    =?_eq (drop 4 msg) expected same ∙ ap mac e_sofar,
                                    has_cert (ground (arith, has)),
                                  ),
                                ))
                                (λ other. tt)))
                        (λ d. tt)))))
        (λ e. tt)
    where
      first :
          (bs : List ℕ) {t : ℕ}
          → ok_or (get_elem? bs 0) (unexpected_message 0) ≡ ok t
          → get_elem? bs 0 ≡ some t
      first [] q = absurd cc
      first (b ∷ bs) q = ap some (ok_inj q)

  flight_messages-Goes :
      (msgs : List (List ℕ)) (self : Flight)
      → IsGuarded self
      → Goes (flight_messages aead hashes verify_cert s_hs_secret self msgs)
  unfolding flight_messages
  flight_messages-Goes [] self g = g
  flight_messages-Goes (msg ∷ msgs) self g =
      after (flight_message aead hashes verify_cert s_hs_secret self msg)
        (flight_message-Goes self msg g) (λ next h. flight_messages-Goes msgs next h)
    where
      after :
          (r : Result Refusal (Bool × Flight))
          → Goes r
          → ((next : Flight)
              → IsGuarded next
              → Goes (flight_messages aead hashes verify_cert s_hs_secret next msgs))
          → Goes (
              and_then r (λ (done, next).
                if done
                then ok (true, next)
                else flight_messages aead hashes verify_cert s_hs_secret next msgs))
      after (ok (true, next)) h more = h
      after (ok (false, next)) h more = more next h
      after (err e) h more = tt

  flight_record-Goes :
      (self : Flight) (header payload : List ℕ)
      → IsGuarded self
      → Goes (flight_record aead hashes verify_cert s_hs_secret self header payload)
  unfolding flight_record
  flight_record-Goes self header payload g =
      and_then_intro Goes (ok_or (get_elem? header 0) connection_closed)
        (λ ct e. if_intro Goes (ct == 0x14) g (
          if_intro Goes (ct == 0x17) {y = err (unexpected_record ct)}
            (and_then_intro Goes (open_record aead self.recv header payload)
              (λ (keys, inner_type, content) h.
                if_intro Goes (not (inner_type == 0x16)) {x = err (not_handshake inner_type)} tt (
                  flight_messages-Goes (push self.reasm content).0
                    (record self { recv = keys; reasm = (push self.reasm content).1 }) g))
              (λ e. tt))
            tt))
        (λ e. tt)

  abbrev Ends : Result Refusal (Flight × List ℕ × List (List ℕ)) → Type 0
  Ends (ok (end, left, more)) = Authentic end
  Ends (err e) = Unit

  pub flight-Ends :
      (n : ℕ) (reads : List (List ℕ)) (buf : List ℕ) (self : Flight)
      → IsGuarded self
      → Ends (flight aead hashes verify_cert s_hs_secret n reads buf self)
  unfolding flight
  flight-Ends zero reads buf self g = tt
  flight-Ends (suc n) reads buf self g =
      and_then_intro Ends (next_of reads buf)
        (λ (header, payload, left, more) e.
          after left more (flight_record aead hashes verify_cert s_hs_secret self header payload)
            (flight_record-Goes self header payload g) (λ next h. flight-Ends n more left next h))
        (λ e. tt)
    where
      after :
          (left : List ℕ) (more : List (List ℕ)) (r : Result Refusal (Bool × Flight))
          → Goes r
          → ((next : Flight)
              → IsGuarded next
              → Ends (flight aead hashes verify_cert s_hs_secret n more left next))
          → Ends (
              and_then r (λ (done, next).
                if done
                then ok (next, left, more)
                else flight aead hashes verify_cert s_hs_secret n more left next))
      after left more (ok (true, next)) h rest = h
      after left more (ok (false, next)) h rest = rest next h
      after left more (err e) h rest = tt
