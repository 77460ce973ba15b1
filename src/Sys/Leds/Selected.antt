-- ===== src/Sys/Leds/Selected.antt =====
-- The LED that is selected by a number that is written, and the one that is lit by a report.
use linuxwacom.Prelude.{
  ℕ, zero, suc, ◌+◌, ◌*◌, ◌/◌, ◌%◌, ◌^◌, ◌<◌, ◌≡◌, refl, bit_or, ◌||◌, true, List, [], ◌∷◌, ◌++◌,
  map, arith,
}
use linuxwacom.Prelude.Bits.{bit_and_three}
use linuxwacom.Wacom.{Kind}
use linuxwacom.Sys.Probe.{same_kind}
use linuxwacom.Sys.Leds.{Led, led_byte, read_id, select_store}
use linuxwacom.Wacom

-- The number that digits are, after the number that was read before them.
abbrev pub number : ℕ → List ℕ → ℕ
number n [] = n
number n (d ∷ ds) = number (n * 10 + d) ds

-- The characters of digits.
abbrev pub text : List ℕ → List ℕ
text ds = map (λ d. 48 + d) ds

read_id-more : (id : ℕ) (xs ys : List ℕ) → read_id id (xs ++ ys) ≡ read_id (read_id id xs) ys
unfolding read_id
read_id-more id [] ys = refl
read_id-more id (x ∷ xs) ys = read_id-more ((id * 10 + x + 208) % 256) xs ys

-- The number as far as it counts.
read_id-number :
    (ds : List ℕ) (id n : ℕ) → id % 4 ≡ n % 4 → read_id id (text ds) % 4 ≡ number n ds % 4
unfolding read_id
read_id-number [] id n h = h
read_id-number (d ∷ ds) id n h =
    read_id-number ds ((id * 10 + (48 + d) + 208) % 256) (n * 10 + d) (omega arith)

-- What is stored is the number modulo 4, if nothing but its digits is written, and twice the number and two, modulo
-- 4, if a newline is written behind them.
pub select_store_digits :
    (ds : List ℕ) (set : ℕ) (led : Led)
    → ((select_store set (text ds) led).select set ≡ number 0 ds % 4)
      × ((select_store set (text ds ++ 10 ∷ []) led).select set ≡ (2 * number 0 ds + 2) % 4)
unfolding select_store read_id
select_store_digits ds set led =
    let same = read_id-number ds 0 0 refl in
    let stored = bit_and_three (read_id 0 (text ds)) in
    let newline = bit_and_three (read_id 0 (text ds ++ 10 ∷ [])) in
    let more = read_id-more 0 (text ds) (10 ∷ []) in
    (ground (arith, stored, same), ground (arith, newline, more, same))

-- The two selections in one byte.
both :
    (a b : ℕ) → a < 4 → b < 4 → bit_or (bit_or a 4) (bit_or (b * 2 ^ 4) 0x40) ≡ a + 4 + 16 * b + 64
both zero zero _ _ = refl
both zero (suc zero) _ _ = refl
both zero (suc (suc zero)) _ _ = refl
both zero (suc (suc (suc zero))) _ _ = refl
both (suc zero) zero _ _ = refl
both (suc zero) (suc zero) _ _ = refl
both (suc zero) (suc (suc zero)) _ _ = refl
both (suc zero) (suc (suc (suc zero))) _ _ = refl
both (suc (suc zero)) zero _ _ = refl
both (suc (suc zero)) (suc zero) _ _ = refl
both (suc (suc zero)) (suc (suc zero)) _ _ = refl
both (suc (suc zero)) (suc (suc (suc zero))) _ _ = refl
both (suc (suc (suc zero))) zero _ _ = refl
both (suc (suc (suc zero))) (suc zero) _ _ = refl
both (suc (suc (suc zero))) (suc (suc zero)) _ _ = refl
both (suc (suc (suc zero))) (suc (suc (suc zero))) _ _ = refl
both (suc (suc (suc (suc a)))) b h k = absurd (omega arith)
both a (suc (suc (suc (suc b)))) h k = absurd (omega arith)

-- On the tablets with two sets of LEDs the report has both selections.
pub led_byte-selects :
    (k : Kind) (led : Led)
    → (same_kind k Wacom.Kind.wacom_21ux2 || same_kind k Wacom.Kind.wacom_24hd) ≡ true
    → led.select 0 < 4
    → led.select 1 < 4
    → (led_byte k led % 256 % 4 ≡ led.select 0) × (led_byte k led % 256 / 16 % 4 ≡ led.select 1)
unfolding led_byte
led_byte-selects k led two h0 h1 =
    let e = both (led.select 0) (led.select 1) h0 h1 in
    rw (two, e) (omega (arith, h0, h1), omega (arith, h0, h1))
