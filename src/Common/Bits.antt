-- ===== src/Common/Bits.antt =====
-- Masks on one byte, each a table of at most 256 entries that is checked by evaluation.
use Prim.Native.Nat.{ℕ, zero, suc, ◌*◌, ◌/◌, ◌%◌, ◌<◌, bit_and}
use mathlib.Core.Path.{◌≡◌, refl}
use mathlib.Core.Bool.{Bool, true, false}
use mathlib.Core.Logic.{ite}
use native.Mathlib.Decide.{ℕ_discrete}
use native.Mathlib.Omega.{arith}

module _ (f g : ℕ → ℕ) where
  agree_below : ℕ → Bool
  unfolding ℕ_discrete
  agree_below zero = true
  agree_below (suc n) = ite (ℕ_discrete (f n) (g n)) (agree_below n) false

  agree_below→eq : (n : ℕ) → agree_below n ≡ true → (i : ℕ) → i < n → f i ≡ g i
  unfolding agree_below
  agree_below→eq zero e i h = absurd (omega arith)
  agree_below→eq (suc n) e i h = ground (arith, agree_below→eq n (ground arith) i)

-- `b & 0x80`, `b & 0x40`, `b & 0x20`, `b & 0x10`
pub bit_and-80 : (b : ℕ) → b < 256 → bit_and b 0x80 ≡ b / 128 % 2 * 128
unfolding agree_below
bit_and-80 = agree_below→eq _ _ 256 refl

pub bit_and-40 : (b : ℕ) → b < 256 → bit_and b 0x40 ≡ b / 64 % 2 * 64
unfolding agree_below
bit_and-40 = agree_below→eq _ _ 256 refl

pub bit_and-20 : (b : ℕ) → b < 256 → bit_and b 0x20 ≡ b / 32 % 2 * 32
unfolding agree_below
bit_and-20 = agree_below→eq _ _ 256 refl

pub bit_and-10 : (b : ℕ) → b < 256 → bit_and b 0x10 ≡ b / 16 % 2 * 16
unfolding agree_below
bit_and-10 = agree_below→eq _ _ 256 refl

-- `b & 0xf0`, and `b &^ 0x80`, which Go computes as `b & 0x7f` on a byte
pub bit_and-f0 : (b : ℕ) → b < 256 → bit_and b 0xf0 ≡ b / 16 * 16
unfolding agree_below
bit_and-f0 = agree_below→eq _ _ 256 refl

pub bit_and-7f : (b : ℕ) → b < 256 → bit_and b 0x7f ≡ b % 128
unfolding agree_below
bit_and-7f = agree_below→eq _ _ 256 refl
