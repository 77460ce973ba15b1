-- ===== src/Intuos/Rotation.antt =====
-- The rotation that a marker pen and a 4D mouse report.
use linuxwacom.Prelude.{
  ℕ, ◌+◌, ◌-◌, ◌%◌, ◌/◌, ◌*◌, ◌≤◌, ◌<◌, ◌≡◌, ◌∙◌, true, false, bit_and, bit_or, arith, ltb, ◌==◌,
  has, if◌then◌else◌,
}
use linuxwacom.Prelude.Int.{ℤ, pos, negsuc, ◌≤ℤ◌}
use linuxwacom.Prelude.Bits.{bit_and_seven, bit_and_32, bit_or_shift}
use linuxwacom.Wacom.{Packet}
use linuxwacom.Intuos.Motion.{rotation_raw, marker_rotation, mouse_rotation}

-- The raw count of a packet has 11 bits, and its lowest one is the bit 0x20 of `data[7]`.
pub rotation_raw_lem :
    (d : Packet)
    → d 6 < 256
    → (rotation_raw d ≡ d 6 * 8 + d 7 / 32 % 8) × (has (d 7) 0x20 ≡ (rotation_raw d % 2 == 1))
unfolding rotation_raw
rotation_raw_lem d h =
    let e : bit_or (d 6 * 8) (bit_and (d 7 / 32) 7) ≡ d 6 * 8 + d 7 / 32 % 8 =
      bit_or_shift 3 (d 6) (bit_and (d 7 / 32) 7) (omega (arith, bit_and_seven (d 7 / 32)))
      ∙ omega (arith, bit_and_seven (d 7 / 32)) in
    (e, ground (arith, e, bit_and_32 (d 7)))

-- The marker pen's rotation as a function of the count alone.
unfoldable pub marker : ℕ → ℤ
marker t = marker_rotation (t % 2 == 1) t

-- The count that gives a rotation.
unfoldable pub count_of : ℤ → ℕ
count_of (pos n) = if ltb n 450 then 900 - 2 * n else 2 * (n - 450) + 1
count_of (negsuc n) = if ltb n 450 then 900 + 2 * (n + 1) else 2 * (1349 - n) + 1

-- Every count of a marker pen from 1 to 1800, the half degrees of a turn, gives a rotation in the range
-- from -900 to 899 that is declared for ABS_Z, and the count is recovered from the rotation.
pub marker-count_of :
    (t : ℕ)
    → 0 < t
    → t ≤ 1800
    → (negsuc 899 ≤ℤ marker t) × (marker t ≤ℤ pos 899) × (count_of (marker t) ≡ t)
unfolding marker marker_rotation count_of
marker-count_of t h0 h = ground arith

-- Every rotation from -900 to 899 is that of a count from 1 to 1800.
pub count_of-marker :
    (r : ℤ)
    → negsuc 899 ≤ℤ r
    → r ≤ℤ pos 899
    → (0 < count_of r) × (count_of r ≤ 1800) × (marker (count_of r) ≡ r)
unfolding marker marker_rotation count_of
count_of-marker (pos n) lo hi = ground arith
count_of-marker (negsuc n) lo hi = ground arith

-- On the tablets before Intuos3, a 4D mouse with an even count `t` from 1 to 2047 is reported with the
-- rotation 2147483648 - t / 2, which is 2147482624 or more. (The code computes `-t / 2` with an
-- unsigned `t`.)
pub mouse_rotation_even :
    (t : ℕ)
    → 0 < t
    → t < 2048
    → t % 2 ≡ 0
    → (mouse_rotation false t ≡ pos (2147483648 - t / 2))
      × (pos 2147482624 ≤ℤ mouse_rotation false t)
unfolding mouse_rotation
mouse_rotation_even t h0 h even = ground arith

-- With an odd count below 2048 it is the half of the count, rounded down.
pub mouse_rotation_odd : (t : ℕ) → t < 2048 → t % 2 ≡ 1 → mouse_rotation true t ≡ pos (t / 2)
unfolding mouse_rotation
mouse_rotation_odd t h odd = ground arith
