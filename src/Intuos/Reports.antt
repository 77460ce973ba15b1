-- ===== src/Intuos/Reports.antt =====
-- What the enter, exit and motion reports of a tool come to in `wacom_intuos_irq`.
use linuxwacom.Prelude.{
  ℕ, ◌+◌, ◌%◌, ◌/◌, ◌*◌, ◌^◌, ◌<◌, ◌≡◌, ◌≢◌, ◌∙◌, refl, Bool, true, false, bit_and, bit_or, not,
  ◌&&◌, ◌||◌, arith, ◌==◌, List, ◌∷◌, Bool-cases, inl, inr,
}
use linuxwacom.Prelude.Int.{pos}
use linuxwacom.Prelude.Bits.{
  bit_and-one, bit_and-le, bit_or-lt, bit_or_shift, bit_and_step, bit_and_seven, bit_and-double,
}
use linuxwacom.Input.{
  Key, Event, key, abs, held, btn_left, btn_right, btn_middle, btn_side, btn_extra, btn_touch,
  btn_stylus, btn_stylus2, abs_x, abs_y, abs_distance, abs_misc, msc_serial,
}
use linuxwacom.Wacom.{
  Wac, Packet, is_type, at_least, intuos3s, wacom_21ux2, report_intuospad, report_intuos5pad,
}
use linuxwacom.Pen.Decode.{IsBytes}
use linuxwacom.Intuos.Tools.{
  tool_of_id, at_least_mouse, tool_index, serial_of, id_of, enter, reset_mouse, reset_pen, reset,
  reset_axes, leave, inout,
}
use linuxwacom.Intuos.Motion.{position, tool_packet, irq, is_known_report}
use linuxwacom.Intuos.Held.{is_tool, tool-reset}
use linuxwacom.Intuos.Lifecycle.{is_enter}

-- A report of a tool: a known report that is no pad packet.
abbrev pub is_tool_report : Packet → Bool
is_tool_report d =
    is_known_report (d 0) && not (d 0 == report_intuospad || d 0 == report_intuos5pad)

bit_and_15 : (a : ℕ) → bit_and a 15 ≡ a % 16
bit_and_15 a = omega (arith, bit_and_step a 15, bit_and_seven (a / 2))

bit_and_63 : (a : ℕ) → bit_and a 63 ≡ a % 64
bit_and_63 a = omega (arith, bit_and_step a 63, bit_and_step (a / 2) 31, bit_and_15 (a / 2 / 2))

-- A coordinate from its two bytes and its lowest bit.
seventeen :
    (hi lo bit : ℕ)
    → lo < 256
    → bit_or (bit_or (hi * 512) (lo * 2)) (bit_and bit 1) ≡ hi * 512 + lo * 2 + bit % 2
seventeen hi lo bit h =
    let e : bit_or (hi * 512) (lo * 2) ≡ (hi * 256 + lo) * 2 =
      bit_or_shift 9 hi (lo * 2) (omega arith) ∙ omega arith in
    rw (e, bit_and-one bit) (bit_or_shift 1 (hi * 256 + lo) (bit % 2) (omega arith) ∙ omega arith)

-- Every identifier stands for a tool.
pub tool_of_id-is_tool : (n : ℕ) → is_tool (tool_of_id n) ≡ true
unfolding tool_of_id
tool_of_id-is_tool n = ground arith

-- The serial number of an enter report is spelled out by its bytes, with no carry and no wrap, and
-- the identifier has 24 bits.
pub serial_of-bytes :
    (d : Packet)
    → IsBytes d
    → (serial_of d ≡ d 3 % 16 * 2 ^ 28 + d 4 * 2 ^ 20 + d 5 * 2 ^ 12 + d 6 * 2 ^ 4 + d 7 / 2 ^ 4)
      × (serial_of d < 2 ^ 32)
      × (id_of d < 2 ^ 24)
unfolding serial_of id_of
serial_of-bytes d h =
    let low : bit_and (d 3) 15 ≡ d 3 % 16 = bit_and_15 (d 3) in
    (
      rw low (omega (arith, h 4, h 5, h 6, h 7)),
      omega arith,
      bit_or-lt 24 _ _
          (bit_or-lt 24 _ _ (bit_or-lt 24 _ _ (omega (arith, h 2)) (omega (arith, h 3)))
            (omega (arith, bit_and-le (d 7) 15)))
          (omega (arith, bit_and-le (d 8) 240)),
    )

-- An enter report posts nothing: it stores the serial number, the identifier and the tool that the
-- identifier stands for, under the tool number, and returns 0.
pub irq-enter :
    (d : Packet) (w : Wac) → is_enter d ≡ true → irq d w ≡ (enter d (tool_index d w) w, 0)
unfolding irq inout
irq-enter d w e = ground arith

-- The exit test rules out the enter test.
exit-not_enter : (a : ℕ) → bit_and a 0xfe ≡ 0x80 → bit_and a 0xfc ≡ 0x80
exit-not_enter a h = omega (
  arith,
  bit_and-double a 0x7f,
  bit_and-double a 0x7e,
  bit_and-double (a / 2) 0x3f,
  bit_and_step (a / 2) 0x7f,
)

-- What is up after the exit report of a pen, or of a mouse or lens cursor.
abbrev pub Released : Bool → List Event → Type 0
Released false es =
    (held btn_touch es ≡ false) × (held btn_stylus es ≡ false) × (held btn_stylus2 es ≡ false)
Released true es =
    (held btn_left es ≡ false)
    × (held btn_middle es ≡ false)
    × (held btn_right es ≡ false)
    × (held btn_side es ≡ false)
    × (held btn_extra es ≡ false)

reset_pen-Released : (w : Wac) → Released false (reset_pen w).posted
unfolding reset_pen
reset_pen-Released w = ground arith

reset_mouse-Released : (w : Wac) → Released true (reset_mouse w).posted
unfolding reset_mouse
reset_mouse-Released w = ground arith

reset-Released : (idx : ℕ) (w : Wac) → Released (at_least_mouse (w.tool idx)) (reset idx w).posted
unfolding reset
reset-Released idx w = elim (Bool-cases (at_least_mouse (w.tool idx))) [
  | inl e ↦ rw e (reset_mouse-Released w)
  | inr e ↦ rw e (reset_pen-Released w)
]

-- The end of the exit report keeps what is up, up.
Released-end :
    (b : Bool) (k : Key) (n : ℕ) (es : List Event)
    → Released b es
    → Released b (msc_serial n ∷ abs abs_misc (pos 0) ∷ key k 0 ∷ es)
Released-end false k n es h = ground arith
Released-end true k n es h = ground arith

leave-Released :
    (idx : ℕ) (w : Wac)
    → let w' = leave idx w in
      Released (at_least_mouse (w.tool idx)) w'.posted
      × (held (w.tool idx) w'.posted ≡ false)
      × (w'.id idx ≡ 0)
unfolding leave reset_axes
leave-Released idx w = (
  Released-end (at_least_mouse (w.tool idx)) _ _ (reset idx (reset_axes w)).posted
      (reset-Released idx (reset_axes w)),
  ground (arith, tool-reset idx (reset_axes w)),
  ground arith,
)

irq-leave :
    (d : Packet) (w : Wac)
    → is_tool_report d ≡ true
    → bit_and (d 1) 0xfe ≡ 0x80
    → is_type w.features.kind wacom_21ux2 ≡ false
    → irq d w ≡ (leave (tool_index d w) w, 1)
unfolding irq inout
irq-leave d w r bits model = ground (arith, exit-not_enter (d 1) bits)

-- On every model but the 21UX2, an exit report of a tool (0x80 or 0x81 in `data[1]`) lifts it: its
-- key is up, its identifier is 0 and the handler returns 1, so that a synchronisation follows. Of a
-- pen the tip and both side switches are up too, of a mouse or a lens cursor the five buttons.
pub irq-exit :
    (d : Packet) (w : Wac)
    → is_tool_report d ≡ true
    → bit_and (d 1) 0xfe ≡ 0x80
    → is_type w.features.kind wacom_21ux2 ≡ false
    → let (w', accepted) = irq d w in
      let idx = tool_index d w in
      (accepted ≡ 1)
      × Released (at_least_mouse (w.tool idx)) w'.posted
      × (held (w.tool idx) w'.posted ≡ false)
      × (w'.id idx ≡ 0)
irq-exit d w r bits model =
    rw (irq-leave d w r bits model)
      (let up = leave-Released (tool_index d w) w in (refl, up.0, up.1, up.2))

-- A packet of a tool whose identifier is 0, since its enter report was missed, changes nothing,
-- posts nothing and is not accepted, unless it is itself an enter, range or exit report.
pub irq-unknown_tool :
    (d : Packet) (w : Wac)
    → is_tool_report d ≡ true
    → bit_and (d 1) 0xfc ≢ 0xc0
    → bit_and (d 1) 0xfe ≢ 0x20
    → bit_and (d 1) 0xfe ≢ 0x80
    → w.id (tool_index d w) ≡ 0
    → irq d w ≡ (w, 0)
unfolding irq inout tool_packet
irq-unknown_tool d w r enter' range' exit' unknown = ground arith

-- From Intuos3 on, a position packet carries 17-bit coordinates: those reported are the numbers that the
-- bytes spell, with nothing lost, and the distance has 6 bits.
pub position-coordinates :
    (d : Packet) (w : Wac)
    → IsBytes d
    → at_least w.features.kind intuos3s ≡ true
    → (position d w).posted
      ≡ abs abs_distance (pos (d 9 / 4 % 64))
        ∷ abs abs_y (pos (d 4 * 512 + d 5 * 2 + d 9 % 2))
        ∷ abs abs_x (pos (d 2 * 512 + d 3 * 2 + d 9 / 2 % 2))
        ∷ w.posted
unfolding position
position-coordinates d w h model = ground (
  arith,
  seventeen (d 2) (d 3) (d 9 / 2) (h 3),
  seventeen (d 4) (d 5) (d 9) (h 5),
  bit_and_63 (d 9 / 4),
)
