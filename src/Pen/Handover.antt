-- ===== src/Pen/Handover.antt =====
-- Which tool the handler of the PL tablets reports: at most one of pen and eraser is down.
use linuxwacom.Prelude.{
  ℕ, ◌≡◌, ◌⊎◌, Bool, true, false, bit_and, not, ◌&&◌, arith, nonzero, has, List, [], ◌∷◌,
  if◌then◌else◌,
}
use linuxwacom.Input.{held, tool_pen, tool_rubber}
use linuxwacom.Wacom.{Wac, Packet, set_id, set_tool, eraser_device_id}
use linuxwacom.Pen.{pl_in, pl_out, pl_near, pl_away, was_out, pl_irq}

-- A tool key that is down is that of `tool[1]`, while `tool[0]` remembers proximity.
pub record IsTracking (w : Wac) : Type 0 where
  pub pen_key : held tool_pen w.posted ≡ true → (w.tool 1 ≡ tool_pen) × (was_out w ≡ false)
  pub rubber_key : held tool_rubber w.posted ≡ true → (w.tool 1 ≡ tool_rubber) × (was_out w ≡ false)

pl_irq-IsTracking : (d : Packet) (w : Wac) → IsTracking w → IsTracking (pl_irq d w).0
unfolding pl_irq pl_near pl_away pl_in pl_out
pl_irq-IsTracking d w h = ground arith

unfoldable pub run : List Packet → Wac → Wac
run [] w = w
run (d ∷ ds) w = run ds (pl_irq d w).0

run-IsTracking : (ds : List Packet) (w : Wac) → IsTracking w → IsTracking (run ds w)
unfolding run
run-IsTracking [] w h = h
run-IsTracking (d ∷ ds) w h = run-IsTracking ds (pl_irq d w).0 (pl_irq-IsTracking d w h)

-- For any packets of a PL tablet, the pen and the eraser are never down together, from a state on
-- in which a tool key that is down is that of `tool[1]` and proximity is remembered.
pub pl_run-one_tool :
    (ds : List Packet) (w : Wac)
    → IsTracking w
    → (held tool_pen (run ds w).posted && held tool_rubber (run ds w).posted) ≡ false
pl_run-one_tool ds w h = ground (arith, run-IsTracking ds w h)

-- What `pl_near` and `pl_away` leave in `tool[1]` and `tool[0]`, and what they say of it.
abbrev pub Says : Bool → Wac → Type 0
Says b w =
    (held (w.tool 1) w.posted ≡ b)
    × (was_out w ≡ not b)
    × ((w.tool 1 ≡ tool_pen) ⊎ (w.tool 1 ≡ tool_rubber))

pl_near-Says :
    (d : Packet) (prox : ℕ) (w : Wac) → nonzero prox ≡ true → Says true (pl_near d prox w)
unfolding pl_near pl_in
pl_near-Says d prox w h = ground arith

pl_away-Says : (prox : ℕ) (w : Wac) → nonzero prox ≡ false → Says false (pl_away prox w)
unfolding pl_away pl_out
pl_away-Says prox w h = ground arith

-- An accepted packet reports the tool of `tool[1]`, pen or eraser, as near exactly if it carries the
-- proximity bit, and remembers that bit.
pub pl_irq-near : (d : Packet) (w : Wac) → (pl_irq d w).1 ≡ 1 → Says (has (d 1) 0x40) (pl_irq d w).0
unfolding pl_irq
pl_irq-near d w accepted =
    let w1 = set_id 0 eraser_device_id w in
    let chosen =
      if has (d 1) 0x10 then tool_rubber else if has (d 4) 0x20 then tool_rubber else tool_pen in
    let near = bit_and (d 1) 0x40 in
    ground (
      arith,
      pl_near-Says d near w1,
      pl_near-Says d near (set_tool 1 chosen w1),
      pl_away-Says near w,
    )

-- A packet that is refused (return value 0) leaves the remembered proximity as it was.
pub pl_irq-refused :
    (d : Packet) (w : Wac) → (pl_irq d w).1 ≡ 0 → was_out (pl_irq d w).0 ≡ was_out w
unfolding pl_irq
pl_irq-refused d w refused = ground arith
