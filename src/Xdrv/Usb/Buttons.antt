-- ===== src/Xdrv/Usb/Buttons.antt =====
-- The buttons that `usbParseChannel` (src/xdrv/wcmUSB.c) makes of the key events of a record.
use linuxwacom.Prelude.{
  ℕ, ◌+◌, ◌-◌, ◌^◌, ◌<◌, ◌==◌, ◌≡◌, refl, ap, ◌∙◌, Bool, true, false, not, ◌&&◌, leb, List, [], ◌∷◌,
  if◌then◌else◌, nonzero, flag, when, ◌|>◌, Bool-cases, inl, inr, ◌≤◌, arith,
}
use linuxwacom.Prelude.Int.{ℤ, pos, ◌-ℤ◌}
use linuxwacom.Prelude.Digits.{
  digit, digit-bit_or, digit-bit_and, digit-pow, digit-complement, digit-le, pow-lt,
}
use linuxwacom.Input.{
  Key, Axis, Event, key, abs, rel_wheel, msc_serial, sync, raw, tool_doubletap, btn_left,
  btn_stylus, btn_middle, btn_stylus2, btn_right, btn_side, btn_extra, btn_0, btn_1, btn_2, btn_3,
  btn_4, btn_5, btn_6, btn_7, btn_8, btn_9, btn_a, btn_b, btn_c, btn_x, btn_y, btn_z, btn_base,
  btn_base2, btn_base3, key_prog1, key_prog2, key_prog3,
}
use linuxwacom.Xdrv.Events.{DeviceState}
use linuxwacom.Xdrv.Usb.State.{Setup}
use linuxwacom.Xdrv.Usb.Keys.{mod_buttons, pad_button, tool_key, touch_key, key_event}
use linuxwacom.Xdrv.Usb.Axes.{tool_id, abs_event}
use linuxwacom.Xdrv.Usb.Channel.{parse_events}

-- The button of a key that has none.
abbrev pub no_button : ℕ
no_button = 32

-- The button of a code that the kernel driver has not.
abbrev pub other_button : ℕ → ℕ
other_button n =
    if leb 0x129 n && leb n 0x12b
    then n - 0x129 + 19
    else if leb 0x136 n && leb n 0x13a
    then n - 0x136 + 22
    else no_button

-- The button of a key. On a Bamboo the touch of a finger is not the left button.
abbrev pub button_of : Bool → Key → ℕ
button_of bamboo tool_doubletap = if bamboo then no_button else 0
button_of bamboo (raw n) = other_button n
button_of bamboo btn_left = 0
button_of bamboo btn_stylus = 1
button_of bamboo btn_middle = 1
button_of bamboo btn_stylus2 = 2
button_of bamboo btn_right = 2
button_of bamboo btn_side = 3
button_of bamboo btn_extra = 4
button_of bamboo btn_0 = 0
button_of bamboo btn_1 = 1
button_of bamboo btn_2 = 2
button_of bamboo btn_3 = 3
button_of bamboo btn_4 = 4
button_of bamboo btn_5 = 5
button_of bamboo btn_6 = 6
button_of bamboo btn_7 = 7
button_of bamboo btn_8 = 8
button_of bamboo btn_9 = 9
button_of bamboo btn_a = 10
button_of bamboo btn_b = 11
button_of bamboo btn_c = 12
button_of bamboo btn_x = 13
button_of bamboo btn_y = 14
button_of bamboo btn_z = 15
button_of bamboo btn_base = 16
button_of bamboo btn_base2 = 17
button_of bamboo btn_base3 = 18
button_of bamboo key_prog1 = 27
button_of bamboo key_prog2 = 28
button_of bamboo key_prog3 = 29
button_of bamboo _ = no_button

abbrev pub is_bamboo : Setup → Bool
is_bamboo c = leb 0xd0 c.tablet_id && leb c.tablet_id 0xd3

-- The buttons after a key event of the button `b`.
abbrev pub pressed : ℕ → ℕ → DeviceState → ℕ
pressed b v ds = if b == no_button then ds.buttons else (mod_buttons b v ds).buttons

doubletap-pressed :
    (bamboo : Bool) (v : ℕ) (ds touched : DeviceState)
    → touched.buttons ≡ ds.buttons
    → (touched |> when (not bamboo) (mod_buttons 0 v)).buttons
      ≡ pressed (if bamboo then no_button else 0) v ds
unfolding mod_buttons
doubletap-pressed true v ds touched h = h
doubletap-pressed false v ds touched h = rw h refl

key_event-pressed :
    (c : Setup) (time last_prox : ℕ) (k : Key) (v : ℕ) (ds : DeviceState)
    → (key_event c time last_prox k v ds).buttons ≡ pressed (button_of (is_bamboo c) k) v ds
unfolding key_event tool_key touch_key pad_button
key_event-pressed c time last_prox tool_doubletap v ds =
    doubletap-pressed (is_bamboo c) v ds (touch_key time last_prox v ds) refl
key_event-pressed c time last_prox k v ds = ground arith

mod_buttons-digit :
    (i b v : ℕ) (ds : DeviceState)
    → i < no_button
    → b < no_button
    → digit i (mod_buttons b v ds).buttons
      ≡ (if b == i then flag (nonzero v) else digit i ds.buttons)
unfolding mod_buttons
mod_buttons-digit i b v ds hi hb = ground (
  arith,
  digit-bit_or i ds.buttons (2 ^ b),
  digit-bit_and i ds.buttons (2 ^ 32 - 1 - 2 ^ b),
  digit-complement 32 i (2 ^ b) hi (pow-lt b 32 hb),
  digit-pow i b,
  digit-le i ds.buttons,
)

pressed-digit :
    (i b v : ℕ) (ds : DeviceState)
    → i < no_button
    → b ≤ no_button
    → digit i (pressed b v ds) ≡ (if b == i then flag (nonzero v) else digit i ds.buttons)
pressed-digit i b v ds hi hb = elim (Bool-cases (b == no_button)) [
  | inl e ↦ (let other : (b == i) ≡ false = ground (arith, e, hi) in rw (e, other) refl)
  | inr e ↦ rw e (mod_buttons-digit i b v ds hi (ground (arith, e, hb)))
]

button_of-le : (bamboo : Bool) (k : Key) → button_of bamboo k ≤ no_button
button_of-le bamboo k = ground arith

key_event-digit :
    (c : Setup) (time last_prox i : ℕ) (k : Key) (v : ℕ) (ds : DeviceState)
    → i < no_button
    → digit i (key_event c time last_prox k v ds).buttons
      ≡ (if button_of (is_bamboo c) k == i then flag (nonzero v) else digit i ds.buttons)
key_event-digit c time last_prox i k v ds hi =
    let b = button_of (is_bamboo c) k in
    rw (key_event-pressed c time last_prox k v ds)
      (pressed-digit i b v ds hi (button_of-le (is_bamboo c) k))

abs_event-buttons :
    (c : Setup) (a : Axis) (v : ℤ) (ds : DeviceState) → (abs_event c a v ds).buttons ≡ ds.buttons
unfolding abs_event tool_id
abs_event-buttons c a v ds = ground arith

-- Whether a button is down after a record: as the last key event of the button says, or as before.
abbrev pub button_after : Bool → ℕ → List Event → ℕ → ℕ
button_after bamboo i [] d = d
button_after bamboo i (key k v ∷ es) d =
    button_after bamboo i es (if button_of bamboo k == i then flag (nonzero v) else d)
button_after bamboo i (abs _ _ ∷ es) d = button_after bamboo i es d
button_after bamboo i (rel_wheel _ ∷ es) d = button_after bamboo i es d
button_after bamboo i (msc_serial _ ∷ es) d = button_after bamboo i es d
button_after bamboo i (sync ∷ es) d = button_after bamboo i es d

-- After a record, each of the 32 bits of the buttons is what the last event of a key of that button
-- says, and as before if there is none.
pub parse_events-buttons :
    (c : Setup) (time last_prox i : ℕ) (es : List Event) (ds : DeviceState)
    → i < no_button
    → digit i (parse_events c time last_prox es ds).buttons
      ≡ button_after (is_bamboo c) i es (digit i ds.buttons)
unfolding parse_events
parse_events-buttons c time last_prox i [] ds hi = refl
parse_events-buttons c time last_prox i (key k v ∷ es) ds hi =
    parse_events-buttons c time last_prox i es (key_event c time last_prox k v ds) hi
    ∙ ap (button_after (is_bamboo c) i es) (key_event-digit c time last_prox i k v ds hi)
parse_events-buttons c time last_prox i (abs a v ∷ es) ds hi =
    parse_events-buttons c time last_prox i es (abs_event c a v ds) hi
    ∙ ap (λ b. button_after (is_bamboo c) i es (digit i b)) (abs_event-buttons c a v ds)
parse_events-buttons c time last_prox i (rel_wheel v ∷ es) ds hi =
    parse_events-buttons c time last_prox i es (record ds { relwheel = pos 0 -ℤ v }) hi
parse_events-buttons c time last_prox i (msc_serial n ∷ es) ds hi =
    parse_events-buttons c time last_prox i es ds hi
parse_events-buttons c time last_prox i (sync ∷ es) ds hi =
    parse_events-buttons c time last_prox i es ds hi
