-- ===== src/Base/Keys.antt =====
-- Equality of keys as an instance argument, for the maps.
use Prim.Native.Nat.{ℕ}
use mathlib.Core.Path.{◌≡◌}
use mathlib.Core.Logic.{◌↔◌}
use mathlib.Core.Bool.{Bool, true, false, ◌&&◌}
use mathlib.Core.List.{List, [], ◌∷◌}
use native.Mathlib.Omega.{arith}
use mini_vpn.Base.Tests.{◌==◌, ==_iff}

pub record Eq {ℓ} (A : Type ℓ) : Type ℓ where
  pub beq : A → A → Bool
  pub beq_iff : (a b : A) → (beq a b ≡ true) ↔ (a ≡ b)

infix 50 ◌=?◌
abbrev pub ◌=?◌ {ℓ} : {A : Type ℓ} ⦃e : Eq A⦄ → A → A → Bool
◌=?◌ ⦃e⦄ = e.beq

abbrev pub nat_beq : ℕ → ℕ → Bool
nat_beq a b = a == b

instance abbrev pub nat_eq : Eq ℕ
nat_eq = record { beq = nat_beq; beq_iff = ==_iff }

abbrev pub bytes_beq : List ℕ → List ℕ → Bool
bytes_beq [] [] = true
bytes_beq [] (y ∷ ys) = false
bytes_beq (x ∷ xs) [] = false
bytes_beq (x ∷ xs) (y ∷ ys) = x == y && bytes_beq xs ys

pub bytes_beq_iff : (xs ys : List ℕ) → (bytes_beq xs ys ≡ true) ↔ (xs ≡ ys)
bytes_beq_iff [] [] = ground arith
bytes_beq_iff [] (y ∷ ys) = ground arith
bytes_beq_iff (x ∷ xs) [] = ground arith
bytes_beq_iff (x ∷ xs) (y ∷ ys) = ground (arith, bytes_beq_iff xs ys)

instance abbrev pub bytes_eq : Eq (List ℕ)
bytes_eq = record { beq = bytes_beq; beq_iff = bytes_beq_iff }

abbrev pub pair_beq : ℕ × ℕ → ℕ × ℕ → Bool
pair_beq (a, b) (c, d) = a == c && b == d

pub pair_beq_iff : (p q : ℕ × ℕ) → (pair_beq p q ≡ true) ↔ (p ≡ q)
pair_beq_iff (a, b) (c, d) = ground arith

instance abbrev pub pair_eq : Eq (ℕ × ℕ)
pair_eq = record { beq = pair_beq; beq_iff = pair_beq_iff }
