-- ===== src/Pen/Decode.antt =====
-- What the bytes of a packet decode to.
use linuxwacom.Prelude.{ℕ, ◌+◌, ◌%◌, ◌/◌, ◌*◌, ◌<◌, ◌≡◌, ◌∙◌, bit_or, arith}
use linuxwacom.Prelude.Bits.{bit_and_three, bit_and-le, bit_or-lt, bit_or_shift, bit_or_comm}
use linuxwacom.Wacom.{Packet}
use linuxwacom.Pen.{pl_coordinate, pl_pressure}

-- The bytes of a packet.
abbrev pub IsBytes : Packet → Type 0
IsBytes d = (i : ℕ) → d i < 256

-- Where the low and the middle byte of a PL coordinate have 7 bits, it is the 16-bit number that they
-- spell with the two bits of the third byte: nothing overlaps.
pub pl_coordinate_lem :
    (lo mid hi : ℕ)
    → lo < 128
    → mid < 128
    → pl_coordinate lo mid hi ≡ lo + mid * 128 + hi % 4 * 16384
unfolding pl_coordinate
pl_coordinate_lem lo mid hi hl hm =
    let e : bit_or lo (mid * 128) ≡ mid * 128 + lo =
      bit_or_comm lo (mid * 128) ∙ bit_or_shift 7 mid lo hl in
    rw (e, bit_and_three hi, bit_or_comm)
      (omega (arith, bit_or_shift 14 (hi % 4) (mid * 128 + lo) (omega arith)))

-- Of any bytes, a PL coordinate has 16 bits and a PL pressure 9 bits.
pub pl_bounds :
    (d : Packet)
    → IsBytes d
    → (pl_coordinate (d 3) (d 2) (d 1) < 65536)
      × (pl_coordinate (d 6) (d 5) (d 4) < 65536)
      × (pl_pressure d < 512)
unfolding pl_coordinate pl_pressure
pl_bounds d h = (
  bit_or-lt 16 _ _ (bit_or-lt 16 _ _ (omega (arith, h 3)) (omega (arith, h 2)))
      (omega (arith, bit_and-le (d 1) 3)),
  bit_or-lt 16 _ _ (bit_or-lt 16 _ _ (omega (arith, h 6)) (omega (arith, h 5)))
      (omega (arith, bit_and-le (d 4) 3)),
  bit_or-lt 9 _ _ (omega (arith, h 7)) (omega (arith, bit_and-le (d 4 / 4) 1)),
)
