-- ===== src/Xdrv/Serial/Decode.antt =====
-- The numbers in the packets of src/xdrv/wcmSerial.c.
use linuxwacom.Prelude.{ℕ, ◌+◌, ◌*◌, ◌%◌, ◌^◌, ◌≤◌, ◌<◌, ◌≡◌, List, arith}
use linuxwacom.Prelude.Bits.{bit_and_three, bit_and-le, bit_and_4}
use linuxwacom.Xdrv.Serial.Read.{byte}
use linuxwacom.Xdrv.Serial.Protocol4.{coordinate, pressure9, value_bits}

-- The pressure of nine bits has lost its lowest one: it is even, and at most 510.
pub pressure9_even : (d : List ℕ) → (pressure9 d % 2 ≡ 0) × (pressure9 d ≤ 510)
unfolding pressure9
pressure9_even d =
    ground (arith, bit_and-le (byte d 6) value_bits, bit_and_4 (byte d 3), bit_and_4 (byte d 0))

-- Of bytes of 7 bits behind the header, a coordinate has 16 bits, and is what the bytes spell.
pub coordinate_lem :
    (a b c : ℕ)
    → b < 128
    → c < 128
    → (coordinate a b c ≡ a % 4 * 16384 + b * 128 + c) × (coordinate a b c < 2 ^ 16)
unfolding coordinate
coordinate_lem a b c hb hc = ground (arith, bit_and_three a)
