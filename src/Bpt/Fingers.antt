-- ===== src/Bpt/Fingers.antt =====
-- What the Bamboo pen and touch handler tells the input core of fingers and pen.
use linuxwacom.Prelude.{
  ℕ, ◌+◌, ◌%◌, ◌/◌, ◌*◌, ◌≡◌, ◌⊎◌, true, false, bit_and, ◌&&◌, arith, has, List, [], ◌∷◌,
}
use linuxwacom.Prelude.Bits.{
  bit_and-one, bit_and_two, bit_and_three, bit_and-zero, bit_and_128, bit_or_one_two,
}
use linuxwacom.Input.{held, same_key, tool_pen, tool_rubber, tool_doubletap, tool_tripletap}
use linuxwacom.Wacom.{Wac, Packet, InputCore}
use linuxwacom.Bpt.{
  finger_in, touch_out, lift, touch_in, pad, touch_prox, finger_bits, touch, pen, irq,
}

-- A finger key that is down has its bit in `id[2]`, and `tool[1]` and `tool[2]` name it.
pub record IsCovered (w : Wac) : Type 0 where
  pub first : held tool_doubletap w.posted ≡ true → has (w.id 2) 1 ≡ true
  pub second : held tool_tripletap w.posted ≡ true → has (w.id 2) 2 ≡ true
  pub first_tool : held tool_doubletap w.posted ≡ true → w.tool 1 ≡ tool_doubletap
  pub second_tool : held tool_tripletap w.posted ≡ true → w.tool 2 ≡ tool_tripletap

-- The pen keys are down exactly while `stylus_in_proximity`, and only that of `tool[0]`.
pub record IsPenTracking (w : Wac) : Type 0 where
  pub pen_key : held tool_pen w.posted ≡ (w.stylus_in_proximity && same_key (w.tool 0) tool_pen)
  pub rubber_key :
      held tool_rubber w.posted ≡ (w.stylus_in_proximity && same_key (w.tool 0) tool_rubber)
  pub pen_or_rubber :
      w.stylus_in_proximity ≡ true → (w.tool 0 ≡ tool_pen) ⊎ (w.tool 0 ≡ tool_rubber)
  pub first_tool : same_key (w.tool 1) tool_pen ≡ false
  pub first_tool' : same_key (w.tool 1) tool_rubber ≡ false
  pub second_tool : same_key (w.tool 2) tool_pen ≡ false
  pub second_tool' : same_key (w.tool 2) tool_rubber ≡ false

pen-IsPenTracking : (d : Packet) (w : Wac) → IsPenTracking w → IsPenTracking (pen d w)
unfolding pen
pen-IsPenTracking d w h = ground arith

pen-IsCovered : (d : Packet) (w : Wac) → IsPenTracking w → IsCovered w → IsCovered (pen d w)
unfolding pen
pen-IsCovered d w p h = ground arith

pad-IsPenTracking : (d : Packet) (w : Wac) → IsPenTracking w → IsPenTracking (pad d w)
unfolding pad
pad-IsPenTracking d w h = ground arith

pad-IsCovered : (d : Packet) (w : Wac) → IsCovered w → IsCovered (pad d w)
unfolding pad
pad-IsCovered d w h = ground arith

-- The two finger bits of a packet, as a number.
pub finger_bits_lem : (d : Packet) → finger_bits d ≡ d 3 / 128 % 2 + d 12 / 128 % 2 * 2
unfolding finger_bits
finger_bits_lem d =
    let e : bit_and (bit_and (d 3) 0x80 / 128) 0x1 ≡ d 3 / 128 % 2 =
      omega (arith, bit_and_128 (d 3), bit_and-one (bit_and (d 3) 0x80 / 128)) in
    let f : bit_and (bit_and (d 12) 0x80 / 64) 0x2 ≡ d 12 / 128 % 2 * 2 =
      omega (arith, bit_and_128 (d 12), bit_and_two (bit_and (d 12) 0x80 / 64)) in
    rw (e, f) (bit_or_one_two _ _ (omega arith) (omega arith))

pub finger_bits_tests :
    (d : Packet)
    → (has (finger_bits d) 1 ≡ has (d 3) 0x80) × (has (finger_bits d) 2 ≡ has (d 12) 0x80)
finger_bits_tests d = ground (
  arith,
  finger_bits_lem d,
  bit_and-one (finger_bits d),
  bit_and_two (finger_bits d),
  bit_and_128 (d 3),
  bit_and_128 (d 12),
)

touch-IsPenTracking :
    (core : InputCore) (d : Packet) (w : Wac) → IsPenTracking w → IsPenTracking (touch core d w)
unfolding touch lift touch_in finger_in touch_out
touch-IsPenTracking core d w h = ground arith

touch-IsCovered :
    (core : InputCore) (d : Packet) (w : Wac) → IsCovered w → IsCovered (touch core d w)
unfolding touch lift touch_in finger_in touch_out
touch-IsCovered core d w h = ground (arith, finger_bits_tests d, bit_and-zero 1, bit_and-zero 2)

pub record IsConsistent (w : Wac) : Type 0 where
  pub covered : IsCovered w
  pub pens : IsPenTracking w

irq-IsConsistent :
    (core : InputCore) (d : Packet) (len : ℕ) (w : Wac)
    → IsConsistent w
    → IsConsistent (irq core d len w).0
unfolding irq
irq-IsConsistent core d len w h = ground (
  arith,
  pad-IsCovered d w,
  pad-IsPenTracking d w,
  touch-IsCovered core d (pad d w),
  touch-IsPenTracking core d (pad d w),
  pen-IsCovered d w,
  pen-IsPenTracking d w,
)

unfoldable pub run : InputCore → List (Packet × ℕ) → Wac → Wac
run core [] w = w
run core ((d, len) ∷ ps) w = run core ps (irq core d len w).0

-- For any packets, and from a consistent state on, the state stays consistent: every finger key
-- that is down has its bit in `id[2]` and its tool in `tool[1]` or `tool[2]` (so that a later
-- packet can lift it), and the pen keys are down exactly while `stylus_in_proximity`, only that of
-- `tool[0]`.
pub bpt_run-IsConsistent :
    (core : InputCore) (ps : List (Packet × ℕ)) (w : Wac)
    → IsConsistent w
    → IsConsistent (run core ps w)
unfolding run
bpt_run-IsConsistent core [] w h = h
bpt_run-IsConsistent core ((d, len) ∷ ps) w h =
    bpt_run-IsConsistent core ps (irq core d len w).0 (irq-IsConsistent core d len w h)

-- A Bamboo touch packet that arrives while the pen is near leaves no finger key down and clears
-- `id[2]`, if every finger key that was down was covered by `id[2]`.
pub bpt_touch-pen_near :
    (core : InputCore) (d : Packet) (w : Wac)
    → IsCovered w
    → w.stylus_in_proximity ≡ true
    → let w' = touch core d w in
      (held tool_doubletap w'.posted ≡ false)
      × (held tool_tripletap w'.posted ≡ false)
      × (w'.id 2 ≡ 0)
unfolding touch lift touch_out
bpt_touch-pen_near core d w h near = ground arith

-- While no pen is near and no uncovered finger key is down, a packet whose `data[17]` has its two low
-- bits clear lifts every finger, whatever it reports of fingers and whatever the bits of 0x30 are, and
-- stores the finger bits of the packet in `id[2]`.
pub touch-low_bits_clear :
    (core : InputCore) (d : Packet) (w : Wac)
    → IsCovered w
    → w.stylus_in_proximity ≡ false
    → d 17 % 4 ≡ 0
    → let w' = touch core d w in
      (held tool_doubletap w'.posted ≡ false)
      × (held tool_tripletap w'.posted ≡ false)
      × (w'.id 2 ≡ d 3 / 128 % 2 + d 12 / 128 % 2 * 2)
unfolding touch touch_prox lift touch_out
touch-low_bits_clear core d w h away low = ground (arith, finger_bits_lem d, bit_and_three (d 17))
