-- ===== src/Base/Masks.antt =====
-- Masks on one byte as arithmetic: each is a table of at most 256 entries, checked by evaluation.
use Prim.Native.Nat.{ℕ, zero, suc, ◌+◌, ◌*◌, ◌/◌, ◌%◌, ◌<◌, bit_and, bit_or}
use mathlib.Core.Path.{◌≡◌, refl}
use mathlib.Core.Bool.{Bool, true, false}
use mathlib.Core.Logic.{ite}
use native.Mathlib.Decide.{ℕ_discrete}
use native.Mathlib.Omega.{arith}

module _ (f g : ℕ → ℕ) where
  agree_below : ℕ → Bool
  unfolding ℕ_discrete
  agree_below zero = true
  agree_below (suc n) = ite (ℕ_discrete (f n) (g n)) (agree_below n) false

  agree_below→eq : (n : ℕ) → agree_below n ≡ true → (i : ℕ) → i < n → f i ≡ g i
  unfolding agree_below
  agree_below→eq zero e i h = absurd (omega arith)
  agree_below→eq (suc n) e i h = ground (arith, agree_below→eq n (ground arith) i)

-- `b & 0x7f`
pub low_bits : (b : ℕ) → b < 256 → bit_and b 0x7f ≡ b % 128
unfolding agree_below
low_bits = agree_below→eq _ _ 256 refl

-- `b & 0x80`
pub top_bit : (b : ℕ) → b < 256 → bit_and b 0x80 ≡ b / 128 * 128
unfolding agree_below
top_bit = agree_below→eq _ _ 256 refl

-- `b | 0x80`
pub set_top_bit : (b : ℕ) → b < 128 → bit_or b 0x80 ≡ b + 128
unfolding agree_below
set_top_bit = agree_below→eq _ _ 128 refl

join_table : (n : ℕ) → n < 65536 → bit_or (n / 256 * 256) (n % 256) ≡ n
unfolding agree_below
join_table = agree_below→eq (λ n. bit_or (n / 256 * 256) (n % 256)) (λ n. n) 65536 refl

-- `(high << 8) | low` on the two bytes of a u16
pub join_bytes : (n : ℕ) → n < 65536 → bit_or (n / 256 % 256 * 256 % 65536) (n % 256) ≡ n
join_bytes n h =
    let e : n / 256 % 256 * 256 % 65536 ≡ n / 256 * 256 = omega arith in rw e (join_table n h)
