-- ===== src/Base/Bytes.antt =====
-- Fixed-width integers as bytes, as in Rust's core library; a byte string is a list of numbers.
use Prim.Native.Nat.{ℕ, ◌+◌, ◌*◌, ◌/◌, ◌%◌, ◌^◌, ◌<◌}
use mathlib.Core.Path.{◌≡◌, refl}
use mathlib.Core.Option.{Option, none, some}
use mathlib.Core.List.{List, [], ◌∷◌}
use native.Mathlib.Omega.{arith}
use mathlib.Core.Bool.{Bool, true, false, ◌&&◌}
use kpasskey.Base.Tests.{ltb, ◌==◌, if◌then◌else◌}
use kpasskey.Base.Lists.{All}
use kpasskey.Base.Errors.{Result, ok, err}

abbrev pub Bytes : Type 0
Bytes = List ℕ

abbrev pub IsByte : ℕ → Type 0
IsByte b = b < 256

-- u16::to_be_bytes, u32::to_be_bytes
abbrev pub u16_to_be_bytes : ℕ → Bytes
u16_to_be_bytes n = n / 256 % 256 ∷ n % 256 ∷ []

abbrev pub u32_to_be_bytes : ℕ → Bytes
u32_to_be_bytes n = n / 16777216 % 256 ∷ n / 65536 % 256 ∷ n / 256 % 256 ∷ n % 256 ∷ []

-- The byte order of the machine, which `to_ne_bytes` and `from_ne_bytes` follow.
pub data Endian : Type 0 where
  little big : Endian

abbrev pub u16_to_ne_bytes : Endian → ℕ → Bytes
u16_to_ne_bytes little n = n % 256 ∷ n / 256 % 256 ∷ []
u16_to_ne_bytes big n = u16_to_be_bytes n

abbrev pub u32_to_ne_bytes : Endian → ℕ → Bytes
u32_to_ne_bytes little n = n % 256 ∷ n / 256 % 256 ∷ n / 65536 % 256 ∷ n / 16777216 % 256 ∷ []
u32_to_ne_bytes big n = u32_to_be_bytes n

-- `slice.try_into()?` to an array of four or two bytes, and `from_be_bytes` of it.
abbrev pub bad_array {ℓ} : {A : Type ℓ} → Result A
bad_array = err ("could not convert slice to array" ∷ [])

abbrev pub u32_from_be_bytes : Bytes → Result ℕ
u32_from_be_bytes (a ∷ b ∷ c ∷ d ∷ []) = ok (a * 16777216 + b * 65536 + c * 256 + d)
u32_from_be_bytes _ = bad_array

abbrev pub u32_from_ne_bytes : Endian → Bytes → Result ℕ
u32_from_ne_bytes big bytes = u32_from_be_bytes bytes
u32_from_ne_bytes little (a ∷ b ∷ c ∷ d ∷ []) = ok (d * 16777216 + c * 65536 + b * 256 + a)
u32_from_ne_bytes little _ = bad_array

abbrev pub u16_from_ne_bytes : Endian → Bytes → Result ℕ
u16_from_ne_bytes big (a ∷ b ∷ []) = ok (a * 256 + b)
u16_from_ne_bytes little (a ∷ b ∷ []) = ok (b * 256 + a)
u16_from_ne_bytes _ _ = bad_array

-- u16::try_from(usize).ok()
abbrev pub u16_try_from : ℕ → Option ℕ
u16_try_from n = if ltb n 65536 then some n else none

-- usize::checked_add, on a 64-bit machine
abbrev pub checked_add : ℕ → ℕ → Option ℕ
checked_add a b = if ltb (a + b) (2 ^ 64) then some (a + b) else none

-- The four bytes of a u32 make it up again.
pub u32_join :
    (n : ℕ)
    → n < 2 ^ 32
    → n / 16777216 % 256 * 16777216 + n / 65536 % 256 * 65536 + n / 256 % 256 * 256 + n % 256 ≡ n
u32_join n h = omega arith

pub u32_to_be_bytes-IsByte : (n : ℕ) → All IsByte (u32_to_be_bytes n)
u32_to_be_bytes-IsByte n = omega arith

-- `==` on byte slices
unfoldable pub bytes_eq : Bytes → Bytes → Bool
bytes_eq [] [] = true
bytes_eq [] (y ∷ ys) = false
bytes_eq (x ∷ xs) [] = false
bytes_eq (x ∷ xs) (y ∷ ys) = x == y && bytes_eq xs ys

pub bytes_eq→eq : (xs ys : Bytes) → bytes_eq xs ys ≡ true → xs ≡ ys
unfolding bytes_eq
bytes_eq→eq [] [] h = refl
bytes_eq→eq [] (y ∷ ys) h = cc
bytes_eq→eq (x ∷ xs) [] h = cc
bytes_eq→eq (x ∷ xs) (y ∷ ys) h = ground (arith, bytes_eq→eq xs ys)

pub bytes_eq_refl : (xs : Bytes) → bytes_eq xs xs ≡ true
unfolding bytes_eq
bytes_eq_refl [] = refl
bytes_eq_refl (x ∷ xs) = ground (arith, bytes_eq_refl xs)

pub eq→bytes_eq : (xs ys : Bytes) → xs ≡ ys → bytes_eq xs ys ≡ true
eq→bytes_eq xs ys h = rw (← h) (bytes_eq_refl xs)
