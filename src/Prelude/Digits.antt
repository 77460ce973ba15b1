-- ===== src/Prelude/Digits.antt =====
-- The binary digits of `|`, `&`, a single bit and its complement.
use Prim.Native.Nat.{min, max}
use native.Mathlib.Nat.{pow-suc}
use linuxwacom.Prelude.{
  ℕ, zero, suc, ◌-◌, ◌/◌, ◌%◌, ◌^◌, ◌≤◌, ◌<◌, ◌==◌, bit_and, bit_or, ◌≡◌, refl, ap, ◌∙◌, flag,
  arith,
}
use linuxwacom.Prelude.Bits.{bit_and_step, bit_or_step}

-- The digit `i` of a number.
unfoldable pub digit : ℕ → ℕ → ℕ
digit zero n = n % 2
digit (suc i) n = digit i (n / 2)

pub digit-le : (i n : ℕ) → digit i n ≤ 1
unfolding digit
digit-le zero n = omega arith
digit-le (suc i) n = digit-le i (n / 2)

pub digit-bit_or : (i a b : ℕ) → digit i (bit_or a b) ≡ max (digit i a) (digit i b)
unfolding digit
digit-bit_or zero a b = omega (arith, bit_or_step a b)
digit-bit_or (suc i) a b =
    let half : bit_or a b / 2 ≡ bit_or (a / 2) (b / 2) = omega (arith, bit_or_step a b) in
    ap (digit i) half ∙ digit-bit_or i (a / 2) (b / 2)

pub digit-bit_and : (i a b : ℕ) → digit i (bit_and a b) ≡ min (digit i a) (digit i b)
unfolding digit
digit-bit_and zero a b = omega (arith, bit_and_step a b)
digit-bit_and (suc i) a b =
    let half : bit_and a b / 2 ≡ bit_and (a / 2) (b / 2) = omega (arith, bit_and_step a b) in
    ap (digit i) half ∙ digit-bit_and i (a / 2) (b / 2)

digit-zero : (i : ℕ) → digit i 0 ≡ 0
unfolding digit
digit-zero zero = refl
digit-zero (suc i) = digit-zero i

pub digit-pow : (i j : ℕ) → digit i (2 ^ j) ≡ flag (j == i)
unfolding digit
digit-pow zero zero = refl
digit-pow zero (suc j) = ground (arith, pow-suc 2 j)
digit-pow (suc i) zero = digit-zero i ∙ ground arith
digit-pow (suc i) (suc j) =
    let half : 2 ^ suc j / 2 ≡ 2 ^ j = omega (arith, pow-suc 2 j) in
    ap (digit i) half ∙ digit-pow i j ∙ ground arith

pub digit-complement : (w i n : ℕ) → i < w → n < 2 ^ w → digit i (2 ^ w - 1 - n) ≡ 1 - digit i n
unfolding digit
digit-complement zero i n lt h = absurd (omega arith)
digit-complement (suc w) zero n lt h = omega (arith, pow-suc 2 w)
digit-complement (suc w) (suc i) n lt h =
    let half : (2 ^ suc w - 1 - n) / 2 ≡ 2 ^ w - 1 - n / 2 = omega (arith, pow-suc 2 w) in
    ap (digit i) half ∙ digit-complement w i (n / 2) (omega arith) (omega (arith, pow-suc 2 w))

one-le_pow : (n : ℕ) → 1 ≤ 2 ^ n
one-le_pow zero = omega arith
one-le_pow (suc n) = omega (arith, pow-suc 2 n, one-le_pow n)

pub pow-lt : (i n : ℕ) → i < n → 2 ^ i < 2 ^ n
pow-lt i zero h = absurd (omega arith)
pow-lt zero (suc n) h = omega (arith, pow-suc 2 n, one-le_pow n)
pow-lt (suc i) (suc n) h = omega (arith, pow-suc 2 i, pow-suc 2 n, pow-lt i n (omega arith))
