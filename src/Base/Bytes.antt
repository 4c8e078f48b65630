-- ===== src/Base/Bytes.antt =====
-- Machine words as bytes, most significant byte first (`to_be_bytes`, `from_be_bytes`). A byte is a
-- number below 256, and a byte slice a list of them.
use Prim.Native.Nat.{ℕ, zero, suc, ◌+◌, ◌*◌, ◌/◌, ◌%◌, ◌^◌, ◌<◌}
use native.Mathlib.Nat.{mod-eq_of_lt, mod-one, div-add-mod, div-div-eq-div-mul, pow-suc}
use mathlib.Core.Path.{◌≡◌, refl, sym, ap, ◌∙◌}
use mini_vpn.Base.Lists.{length}
use mathlib.Core.List.{List, [], ◌∷◌}
use native.Mathlib.Omega.{arith}

abbrev pub IsByte : ℕ → Type 0
IsByte b = b < 256

abbrev pub IsU16 : ℕ → Type 0
IsU16 v = v < 2 ^ 16

abbrev pub IsU32 : ℕ → Type 0
IsU32 v = v < 2 ^ 32

abbrev pub u16_be : ℕ → List ℕ
u16_be v = (v / 256 % 256) ∷ (v % 256) ∷ []

abbrev pub u32_be : ℕ → List ℕ
u32_be v = (v / 2 ^ 24 % 256) ∷ (v / 2 ^ 16 % 256) ∷ (v / 256 % 256) ∷ (v % 256) ∷ []

abbrev pub from_be16 : ℕ → ℕ → ℕ
from_be16 hi lo = hi * 256 + lo

pub from_be16-u16_be : (v : ℕ) → IsU16 v → from_be16 (v / 256 % 256) (v % 256) ≡ v
from_be16-u16_be v h = omega arith

-- The `n` low bytes of a number, most significant first.
unfoldable pub be_bytes : ℕ → ℕ → List ℕ
be_bytes zero v = []
be_bytes (suc n) v = (v / 256 ^ n % 256) ∷ be_bytes n v

pub length-be_bytes : (n v : ℕ) → length (be_bytes n v) ≡ n
unfolding be_bytes
length-be_bytes zero v = refl
length-be_bytes (suc n) v = ap suc (length-be_bytes n v)

-- The number that bytes spell, most significant first.
abbrev pub from_be : List ℕ → ℕ
from_be [] = 0
from_be (b ∷ bs) = b * 256 ^ length bs + from_be bs

mod_split : (p v : ℕ) → v / p % 256 * p + v % p ≡ v % (p * 256)
mod_split p v =
    let whole = div-add-mod v (p * 256) in
    let low = div-add-mod v p in
    let high : p * (256 * (v / (p * 256)) + v / p % 256) ≡ p * (v / p) =
      ap (λ x. p * x)
        (ap (λ x. 256 * x + v / p % 256) (sym (div-div-eq-div-mul v p 256))
          ∙ div-add-mod (v / p) 256) in
    grind (arith, whole, low, high)

pub from_be-be_bytes_mod : (n v : ℕ) → from_be (be_bytes n v) ≡ v % 256 ^ n
unfolding be_bytes
from_be-be_bytes_mod zero v = sym (mod-one v)
from_be-be_bytes_mod (suc n) v =
    rw (length-be_bytes n v, from_be-be_bytes_mod n v, pow-suc 256 n) (mod_split (256 ^ n) v)

pub from_be-be_bytes : (n v : ℕ) → v < 256 ^ n → from_be (be_bytes n v) ≡ v
from_be-be_bytes n v h = from_be-be_bytes_mod n v ∙ mod-eq_of_lt h

pub from_be-u32_be : (v : ℕ) → IsU32 v → from_be (u32_be v) ≡ v
from_be-u32_be v h = omega arith
