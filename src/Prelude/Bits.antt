-- ===== src/Prelude/Bits.antt =====
-- Laws of `&` and `|` at the masks and shifts that the drivers use.
use Prim.Native.Nat.{min, max, digits, bitwise, bit_and-bitwise, bit_or-bitwise}
use native.Mathlib.Nat.{le_refl, pow-suc}
use linuxwacom.Prelude.{
  ℕ, zero, suc, ◌+◌, ◌*◌, ◌/◌, ◌%◌, ◌^◌, ◌≤◌, ◌<◌, bit_and, bit_or, ◌-◌, sym, ◌≡◌, refl, ap, ◌∙◌,
  arith,
}

-- The library's `&` and `|` recurse on the halves with the first number as fuel. Fuel to spare
-- changes nothing.
module _ (last : ℕ → ℕ) (join : ℕ → ℕ → ℕ) where
  digits-zero : (fuel v : ℕ) → digits last join fuel 0 v ≡ last v
  digits-zero zero v = refl
  digits-zero (suc fuel) v = refl

  spare_fuel :
      (u v fuel spare : ℕ)
      → u ≤ fuel
      → digits last join (fuel + spare) u v ≡ digits last join fuel u v
  spare_fuel zero v fuel spare h = digits-zero (fuel + spare) v ∙ sym (digits-zero fuel v)
  spare_fuel (suc u) v zero spare h = absurd (omega arith)
  spare_fuel (suc u) v (suc fuel) spare h =
      let carry : suc fuel + spare ≡ suc (fuel + spare) = omega arith in
      rw (carry) (
        ap (λ t. t * 2 + join (suc u % 2) (v % 2))
          (spare_fuel (suc u / 2) (v / 2) fuel spare (omega arith)))

  halves :
      (u v : ℕ)
      → bitwise last join (suc u) v
        ≡ join (suc u % 2) (v % 2) + 2 * bitwise last join (suc u / 2) (v / 2)
  halves u v =
      let half = suc u / 2 in
      let split : half + (u - half) ≡ u = omega arith in
      let same : digits last join u half (v / 2) ≡ digits last join half half (v / 2) =
        sym (ap (λ n. digits last join n half (v / 2)) split)
        ∙ spare_fuel half (v / 2) half (u - half) (omega arith) in
      omega (arith, same)

pub bit_and_step : (a b : ℕ) → bit_and a b ≡ min (a % 2) (b % 2) + 2 * bit_and (a / 2) (b / 2)
bit_and_step zero b = simp bit_and-bitwise (omega arith)
bit_and_step (suc a) b = simp bit_and-bitwise (halves (λ y. 0) min a b)

pub bit_or_step : (a b : ℕ) → bit_or a b ≡ max (a % 2) (b % 2) + 2 * bit_or (a / 2) (b / 2)
bit_or_step zero b = simp bit_or-bitwise (omega arith)
bit_or_step (suc a) b = simp bit_or-bitwise (halves (λ y. y) max a b)

-- A masked value is at most the mask; the first argument is a bound for the recursion.
bit_and-le_fuel : (n a m : ℕ) → a ≤ n → bit_and a m ≤ m
bit_and-le_fuel n zero m h = omega (arith, bit_and-bitwise 0 m)
bit_and-le_fuel zero (suc a) m h = absurd (omega arith)
bit_and-le_fuel (suc n) (suc a) m h =
    omega (arith, bit_and_step (suc a) m, bit_and-le_fuel n (suc a / 2) (m / 2) (omega arith))

pub bit_and-le : (a m : ℕ) → bit_and a m ≤ m
bit_and-le a m = bit_and-le_fuel a a m (le_refl a)

pub bit_and-zero : (a : ℕ) → bit_and a 0 ≡ 0
bit_and-zero a = omega (arith, bit_and-le a 0)

pub bit_and-one : (a : ℕ) → bit_and a 1 ≡ a % 2
bit_and-one a = omega (arith, bit_and_step a 1, bit_and-zero (a / 2))

pub bit_and_two : (a : ℕ) → bit_and a 2 ≡ a / 2 % 2 * 2
bit_and_two a = omega (arith, bit_and_step a 2, bit_and-one (a / 2))

pub bit_and_three : (a : ℕ) → bit_and a 3 ≡ a % 4
bit_and_three a = omega (arith, bit_and_step a 3, bit_and-one (a / 2))

pub bit_and_seven : (a : ℕ) → bit_and a 7 ≡ a % 8
bit_and_seven a = omega (arith, bit_and_step a 7, bit_and_three (a / 2))

pub zero-bit_or : (b : ℕ) → bit_or 0 b ≡ b
zero-bit_or b = simp bit_or-bitwise

-- Two numbers of `k` bits have an `|` of `k` bits.
pub bit_or-lt : (k a b : ℕ) → a < 2 ^ k → b < 2 ^ k → bit_or a b < 2 ^ k
bit_or-lt zero a b p q =
    let e : a ≡ 0 = omega arith in let f : b ≡ 0 = omega arith in rw (e, f) (omega arith)
bit_or-lt (suc k) a b p q = omega (
  arith,
  pow-suc 2 k,
  bit_or_step a b,
  bit_or-lt k (a / 2) (b / 2) (omega (arith, pow-suc 2 k)) (omega (arith, pow-suc 2 k)),
)

bit_or-zero_fuel : (n a : ℕ) → a ≤ n → bit_or a 0 ≡ a
bit_or-zero_fuel n zero h = refl
bit_or-zero_fuel zero (suc a) h = absurd (omega arith)
bit_or-zero_fuel (suc n) (suc a) h =
    omega (arith, bit_or_step (suc a) 0, bit_or-zero_fuel n (suc a / 2) (omega arith))

pub bit_or-zero : (a : ℕ) → bit_or a 0 ≡ a
bit_or-zero a = bit_or-zero_fuel a a (le_refl a)

-- `(q << k) | r` is a sum where `r` has `k` bits.
pub bit_or_shift : (k q r : ℕ) → r < 2 ^ k → bit_or (q * 2 ^ k) r ≡ q * 2 ^ k + r
bit_or_shift zero q r h =
    let e : r ≡ 0 = omega arith in
    let f : q * 2 ^ 0 ≡ q = omega arith in rw (e, f) (omega (arith, bit_or-zero q))
bit_or_shift (suc k) q r h =
    let half = bit_or_shift k q (r / 2) (omega (arith, pow-suc 2 k)) in
    let double : q * 2 ^ suc k ≡ q * 2 ^ k * 2 =
      omega (arith, ap (λ (t : ℕ). q * t) (pow-suc 2 k)) in
    rw double (ground (arith, bit_or_step (q * 2 ^ k * 2) r, half))

-- A mask with one more zero at its end.
pub bit_and-double : (a m : ℕ) → bit_and a (2 * m) ≡ 2 * bit_and (a / 2) m
bit_and-double a m =
    let e : 2 * m / 2 ≡ m = omega arith in
    let f : 2 * m % 2 ≡ 0 = omega arith in bit_and_step a (2 * m) ∙ rw (e, f) (omega arith)

pub bit_and_4 : (a : ℕ) → bit_and a 4 ≡ a / 4 % 2 * 4
bit_and_4 a = omega (arith, bit_and-double a 2, bit_and_two (a / 2))

pub bit_and_8 : (a : ℕ) → bit_and a 8 ≡ a / 8 % 2 * 8
bit_and_8 a = omega (arith, bit_and-double a 4, bit_and_4 (a / 2))

pub bit_and_16 : (a : ℕ) → bit_and a 16 ≡ a / 16 % 2 * 16
bit_and_16 a = omega (arith, bit_and-double a 8, bit_and_8 (a / 2))

pub bit_and_32 : (a : ℕ) → bit_and a 32 ≡ a / 32 % 2 * 32
bit_and_32 a = omega (arith, bit_and-double a 16, bit_and_16 (a / 2))

pub bit_and_64 : (a : ℕ) → bit_and a 64 ≡ a / 64 % 2 * 64
bit_and_64 a = omega (arith, bit_and-double a 32, bit_and_32 (a / 2))

pub bit_and_128 : (a : ℕ) → bit_and a 128 ≡ a / 128 % 2 * 128
bit_and_128 a = omega (arith, bit_and-double a 64, bit_and_64 (a / 2))

-- Two single bits joined.
pub bit_or_one_two : (p q : ℕ) → p < 2 → q < 2 → bit_or p (q * 2) ≡ p + q * 2
bit_or_one_two zero q hp hq = omega (arith, zero-bit_or (q * 2))
bit_or_one_two (suc zero) zero hp hq = refl
bit_or_one_two (suc zero) (suc zero) hp hq = refl
bit_or_one_two (suc zero) (suc (suc q)) hp hq = absurd (omega arith)
bit_or_one_two (suc (suc p)) q hp hq = absurd (omega arith)

le-bit_or_fuel : (n a b : ℕ) → a ≤ n → (a ≤ bit_or a b) × (b ≤ bit_or a b)
le-bit_or_fuel n zero b h = rw (zero-bit_or b) (omega arith)
le-bit_or_fuel zero (suc a) b h = absurd (omega arith)
le-bit_or_fuel (suc n) (suc a) b h =
    omega (arith, bit_or_step (suc a) b, le-bit_or_fuel n (suc a / 2) (b / 2) (omega arith))

-- Each part of an `|` is at most the whole.
pub le-bit_or : (a b : ℕ) → (a ≤ bit_or a b) × (b ≤ bit_or a b)
le-bit_or a b = le-bit_or_fuel a a b (le_refl a)

pub zero-bit_and : (m : ℕ) → bit_and 0 m ≡ 0
zero-bit_and m = simp bit_and-bitwise

bit_and-le_left_fuel : (n a m : ℕ) → a ≤ n → bit_and a m ≤ a
bit_and-le_left_fuel n zero m h = omega (arith, zero-bit_and m)
bit_and-le_left_fuel zero (suc a) m h = absurd (omega arith)
bit_and-le_left_fuel (suc n) (suc a) m h =
    omega (arith, bit_and_step (suc a) m, bit_and-le_left_fuel n (suc a / 2) (m / 2) (omega arith))

pub bit_and-le_left : (a m : ℕ) → bit_and a m ≤ a
bit_and-le_left a m = bit_and-le_left_fuel a a m (le_refl a)

bit_or_comm_fuel : (n a b : ℕ) → a ≤ n → b ≤ n → bit_or a b ≡ bit_or b a
bit_or_comm_fuel zero a b p q =
    let e : a ≡ 0 = omega arith in let f : b ≡ 0 = omega arith in rw (e, f)
bit_or_comm_fuel (suc n) a b p q = omega (
  arith,
  bit_or_step a b,
  bit_or_step b a,
  bit_or_comm_fuel n (a / 2) (b / 2) (omega arith) (omega arith),
)

pub bit_or_comm : (a b : ℕ) → bit_or a b ≡ bit_or b a
bit_or_comm a b = bit_or_comm_fuel (a + b) a b (omega arith) (omega arith)
