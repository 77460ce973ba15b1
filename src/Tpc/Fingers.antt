-- ===== src/Tpc/Fingers.antt =====
-- What the tablet PC handler tells the input core of fingers and pen, packet by packet.
use linuxwacom.Prelude.{
  ℕ, ◌≡◌, ◌≢◌, ◌⊎◌, true, false, bit_and, ◌&&◌, arith, has, List, [], ◌∷◌, All,
}
use linuxwacom.Prelude.Bits.{bit_and-one, bit_and_two, bit_and_three}
use linuxwacom.Input.{held, same_key, tool_pen, tool_rubber, tool_doubletap, tool_tripletap}
use linuxwacom.Wacom.{Wac, Packet, InputCore}
use linuxwacom.Tpc.{
  finger_in, touch_out, lift, touch_in, touch_prox, touch_away, touch_near, touch, pen, irq,
}

-- The finger keys are down exactly as the bits of `id[1]` say, and then `tool[1]` and `tool[2]`
-- name them.
pub record IsTracking (w : Wac) : Type 0 where
  pub first : held tool_doubletap w.posted ≡ has (w.id 1) 1
  pub second : held tool_tripletap w.posted ≡ has (w.id 1) 2
  pub first_tool : has (w.id 1) 1 ≡ true → w.tool 1 ≡ tool_doubletap
  pub second_tool : has (w.id 1) 2 ≡ true → w.tool 2 ≡ tool_tripletap

-- The pen keys are down exactly while `stylus_in_proximity`, and only that of `tool[0]`.
pub record IsPenTracking (w : Wac) : Type 0 where
  pub pen_key : held tool_pen w.posted ≡ (w.stylus_in_proximity && same_key (w.tool 0) tool_pen)
  pub rubber_key :
      held tool_rubber w.posted ≡ (w.stylus_in_proximity && same_key (w.tool 0) tool_rubber)
  pub pen_or_rubber :
      w.stylus_in_proximity ≡ true → (w.tool 0 ≡ tool_pen) ⊎ (w.tool 0 ≡ tool_rubber)

pub pen-IsPenTracking : (d : Packet) (w : Wac) → IsPenTracking w → IsPenTracking (pen d w)
unfolding pen
pen-IsPenTracking d w h = ground arith

-- The pen packet leaves the fingers alone.
pub pen-IsTracking : (d : Packet) (w : Wac) → IsPenTracking w → IsTracking w → IsTracking (pen d w)
unfolding pen
pen-IsTracking d w p h = ground arith

-- A packet of a tablet with two-finger touch: it is no single-touch report.
abbrev pub IsTwoFinger : Packet → ℕ → Type 0
IsTwoFinger d len = (len ≢ 5) × (d 0 ≢ 6)

pub touch-IsTracking :
    (core : InputCore) (d : Packet) (len : ℕ) (w : Wac)
    → IsTwoFinger d len
    → d 0 ≡ 13
    → IsTracking w
    → IsTracking (touch core d len w)
unfolding touch touch_near touch_away touch_in touch_prox lift finger_in touch_out
touch-IsTracking core d len w two r h = ground (
  arith,
  bit_and-one (w.id 1),
  bit_and_two (w.id 1),
  bit_and-one (d 1),
  bit_and_two (d 1),
  bit_and_three (d 1),
  bit_and-one (bit_and (d 1) 3),
  bit_and_two (bit_and (d 1) 3),
)

pub touch-IsPenTracking :
    (core : InputCore) (d : Packet) (len : ℕ) (w : Wac)
    → IsTwoFinger d len
    → IsTracking w
    → IsPenTracking w
    → IsPenTracking (touch core d len w)
unfolding touch touch_near touch_away touch_in touch_prox lift finger_in touch_out
touch-IsPenTracking core d len w two h p = ground (arith)

-- Both at once, for every packet of such a tablet.
pub record IsConsistent (w : Wac) : Type 0 where
  pub fingers : IsTracking w
  pub pens : IsPenTracking w

pub irq-IsConsistent :
    (core : InputCore) (d : Packet) (len : ℕ) (w : Wac)
    → IsTwoFinger d len
    → IsConsistent w
    → IsConsistent (irq core d len w).0
unfolding irq
irq-IsConsistent core d len w two h = ground (
  arith,
  touch-IsTracking core d len w,
  touch-IsPenTracking core d len w,
  pen-IsTracking d w,
  pen-IsPenTracking d w,
)

-- A run: the packets that arrive, in order, with their lengths.
unfoldable pub run : InputCore → List (Packet × ℕ) → Wac → Wac
run core [] w = w
run core ((d, len) ∷ ps) w = run core ps (irq core d len w).0

-- For any packets that are no single-touch reports, and from a consistent state on, the state stays
-- consistent: the two finger keys are down exactly as the bits of `id[1]` say, under the tools
-- `tool[1]` and `tool[2]`, and the pen keys are down exactly while `stylus_in_proximity`, only that
-- of `tool[0]`.
pub tpc_run-IsConsistent :
    (core : InputCore) (ps : List (Packet × ℕ)) (w : Wac)
    → All (λ p. IsTwoFinger p.0 p.1) ps
    → IsConsistent w
    → IsConsistent (run core ps w)
unfolding run
tpc_run-IsConsistent core [] w two h = h
tpc_run-IsConsistent core ((d, len) ∷ ps) w two h =
    tpc_run-IsConsistent core ps (irq core d len w).0 two.1 (irq-IsConsistent core d len w two.0 h)

-- A touch packet that arrives while the pen is near, in a state whose finger keys are those of
-- `id[1]`, leaves no finger key down, clears the finger bits and leaves the pen near, whatever it
-- says of fingers.
pub tpc_touch-pen_near :
    (core : InputCore) (d : Packet) (len : ℕ) (w : Wac)
    → IsTracking w
    → w.stylus_in_proximity ≡ true
    → let w' = touch core d len w in
      (held tool_doubletap w'.posted ≡ false)
      × (held tool_tripletap w'.posted ≡ false)
      × (w'.id 1 ≡ 0)
      × (w'.stylus_in_proximity ≡ true)
unfolding touch lift touch_out
tpc_touch-pen_near core d len w h near = ground (arith, bit_and-one (w.id 1), bit_and_two (w.id 1))
