-- ===== src/Failover/Opening.antt =====
-- src/failover.rs: `open_tcp`, which retries on REALITY the relay whose failure brings the switch,
-- where many openings are under way at once.
use mini_vpn.Failover.{
  FailoverState, tuic, reality, active_leg, switch_to_reality, Opened, err, open_start, open_end,
  next_count,
}
use mini_vpn.Failover.Decisions.{IsSound}
use mini_vpn.Base.{
  ℕ, ◌+◌, ◌-◌, ◌≤◌, ◌<◌, ◌≡◌, refl, ap, ◌⊎◌, inl, inr, Bool, ◌||◌, List, [], ◌∷◌, ◌++◌, map, arith,
  leb, ◌==◌, Bool-cases, length,
}
use mini_vpn.Base.Keys.{nat_eq, bytes_eq, pair_eq}

-- An opening that began on TUIC and failed there, with REALITY's answer and the state of the
-- connection.
pub record Attempt (S E : Type 0) : Type 0 where
  pub error : E
  pub from_reality : Opened S E
  pub dead : Bool
  pub now : ℕ

started : (s : FailoverState) → s.active_tcp_leg ≡ 1 → open_start s ≡ reality
unfolding open_start
started s h = rw h refl

module _ {S E : Type 0} where
  unfoldable pub attempt : FailoverState → Attempt S E → Opened S E × FailoverState
  unfolding open_end
  attempt s a = open_end tuic (err a.error) a.from_reality a.dead a.now s

  -- The answers in the order in which the openings end, and the state after them. Openings that
  -- begin, or that end on REALITY, leave the state as it is.
  abbrev pub answers : FailoverState → List (Attempt S E) → List (Opened S E)
  answers s [] = []
  answers s (a ∷ xs) = (attempt s a).0 ∷ answers (attempt s a).1 xs

  abbrev pub after : FailoverState → List (Attempt S E) → FailoverState
  after s [] = s
  after s (a ∷ xs) = after (attempt s a).1 xs

  abbrev pub errors : List (Attempt S E) → List (Opened S E)
  errors xs = map (λ a. err a.error) xs

  -- One opening is answered by REALITY, after at most two that were given TUIC's error; all that
  -- end later are given TUIC's error, and the next to begin goes to REALITY.
  abbrev pub OneRetried : FailoverState → List (Attempt S E) → ℕ → Type 0
  OneRetried s xs n =
      (before : List (Attempt S E)) × (x : Attempt S E) × (later : List (Attempt S E)) × (xs
        ≡ before ++ x ∷ later)
      × (length before ≤ n)
      × (answers s xs ≡ errors before ++ x.from_reality ∷ errors later)
      × (open_start (after s xs) ≡ reality)

  -- Either the relay is handed to REALITY, or one more failure is counted.
  abbrev Outcome : FailoverState → Attempt S E → Type 0
  Outcome s a =
      (((attempt s a).0 ≡ a.from_reality) × ((attempt s a).1.active_tcp_leg ≡ 1))
      ⊎ (((attempt s a).0 ≡ err a.error)
          × ((attempt s a).1.active_tcp_leg ≡ 0)
          × ((attempt s a).1.tuic_consec_fail ≡ s.tuic_consec_fail + 1)
          × (s.tuic_consec_fail < 2))

  attempt_cases :
      (s : FailoverState) (a : Attempt S E) → IsSound s → s.active_tcp_leg ≡ 0 → Outcome s a
  unfolding attempt active_leg switch_to_reality
  attempt_cases s a i on = elim (Bool-cases (a.dead || leb 3 (next_count s.tuic_consec_fail))) [
    | inl t ↦ inl (ground (arith, t), ground (arith, t))
    | inr f ↦ inr (ground (arith, f), ground (arith, f), ground (arith, f), ground (arith, f))
  ]

  attempt-IsSound : (s : FailoverState) (a : Attempt S E) → IsSound s → IsSound (attempt s a).1
  unfolding attempt active_leg switch_to_reality
  attempt-IsSound s a i = ground arith

  attempt_late :
      (s : FailoverState) (a : Attempt S E)
      → s.active_tcp_leg ≡ 1
      → ((attempt s a).0 ≡ err a.error) × ((attempt s a).1 ≡ s)
  unfolding attempt active_leg
  attempt_late s a h = (ground arith, ground arith)

  all_late :
      (xs : List (Attempt S E)) (s : FailoverState)
      → s.active_tcp_leg ≡ 1
      → (answers s xs ≡ errors xs) × (after s xs ≡ s)
  all_late [] s h = (refl, refl)
  all_late (a ∷ xs) s h =
      let (e, same) = attempt_late s a h in
      let (es, same') = all_late xs s h in (rw (e, same, es) refl, rw same same')

  switching :
      (xs : List (Attempt S E)) (s : FailoverState) (n : ℕ)
      → IsSound s
      → s.active_tcp_leg ≡ 0
      → s.tuic_consec_fail + n ≡ 2
      → n < length xs
      → OneRetried s xs n
  switching [] s n i on left many = absurd (omega (arith, many))
  switching (a ∷ xs) s n i on left many = elim (attempt_cases s a i on) [
    | inl (r, gone) ↦
        let (es, same) = all_late xs (attempt s a).1 gone in
        ([], a, xs, refl, omega arith, rw (r, es) refl, rw same (started (attempt s a).1 gone))
    | inr (r, stays, one, few) ↦
        let (before, x, later, split, small, given, leg) =
          switching xs (attempt s a).1 (1 - s.tuic_consec_fail) (attempt-IsSound s a i) stays
            (omega (arith, one, few, left)) (omega (arith, one, few, left, many)) in
        (
          a ∷ before,
          x,
          later,
          ap (◌∷◌ a) split,
          omega (arith, small, left, few),
          rw (r, given) refl,
          leg,
        )
  ]

  -- Of openings that began on TUIC and fail there, however many are under way at once, at least three
  -- and with nothing else recorded in between, each failure in one step: in the order in which they end,
  -- at most the first two and all those after the switch are given TUIC's error, the one that brings
  -- the switch is answered by REALITY, and openings that begin then go to REALITY.
  pub one_retried :
      (s : FailoverState) (xs : List (Attempt S E))
      → IsSound s
      → open_start s ≡ tuic
      → 3 ≤ length xs
      → OneRetried s xs 2
  unfolding open_start active_leg
  one_retried s xs i on many =
      let home : s.active_tcp_leg ≡ 0 = elim (Bool-cases (s.active_tcp_leg == 1)) [
        | inl t ↦ absurd (let q : reality ≡ tuic = rw t at on in cc)
        | inr f ↦ ground (arith, f, i.code)
      ] in
      let (before, x, later, split, small, given, leg) =
        switching xs s (2 - s.tuic_consec_fail) i home (omega (arith, i.few))
          (omega (arith, many)) in
      (before, x, later, split, omega (arith, small), given, leg)
