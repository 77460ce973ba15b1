-- ===== src/Caps/Declared.antt =====
-- What a device declares to the input core, the calls that declare it (`__set_bit`,
-- `input_set_capability`, `input_set_abs_params`), and which events the core then passes on.
use linuxwacom.Prelude.{ℕ, Bool, true, false, ◌==◌, ◌||◌, List, [], ◌∷◌, ◌++◌}
use linuxwacom.Prelude.Int.{ℤ}
use linuxwacom.Input.{
  Key, Axis, Event, key, abs, rel_wheel, msc_serial, sync, same_key, abs_x, abs_y, abs_z, abs_rx,
  abs_ry, abs_rz, abs_throttle, abs_wheel, abs_pressure, abs_distance, abs_tilt_x, abs_tilt_y,
  abs_misc, btn_0, btn_1, btn_2, btn_3, btn_4, btn_5, btn_6, btn_7, btn_8,
}

-- What is declared: the keys, the axes with their least and greatest values, the wheel (EV_REL,
-- REL_WHEEL) and the serial number (EV_MSC, MSC_SERIAL). EV_KEY and EV_ABS are always declared.
pub record Caps : Type 0 where
  pub keys : List Key
  pub axes : List (Axis × ℤ × ℤ)
  pub wheel : Bool
  pub serial : Bool

abbrev pub set_bit : Key → Caps → Caps
set_bit k c = record c { keys = k ∷ c.keys }

abbrev pub set_bits : List Key → Caps → Caps
set_bits ks c = record c { keys = ks ++ c.keys }

-- `input_set_abs_params` (without the fuzz of 4 on X and Y)
abbrev pub set_params : Axis → ℤ → ℤ → Caps → Caps
set_params a lo hi c = record c { axes = (a, lo, hi) ∷ c.axes }

abbrev pub set_wheel : Caps → Caps
set_wheel c = record c { wheel = true }

abbrev pub set_serial : Caps → Caps
set_serial c = record c { serial = true }

-- `for (i = 0; i < n; i++) __set_bit(BTN_0 + i, ...)`
abbrev pub buttons_4 : List Key
buttons_4 = btn_0 ∷ btn_1 ∷ btn_2 ∷ btn_3 ∷ []

abbrev pub buttons_6 : List Key
buttons_6 = btn_0 ∷ btn_1 ∷ btn_2 ∷ btn_3 ∷ btn_4 ∷ btn_5 ∷ []

abbrev pub buttons_7 : List Key
buttons_7 = btn_0 ∷ btn_1 ∷ btn_2 ∷ btn_3 ∷ btn_4 ∷ btn_5 ∷ btn_6 ∷ []

abbrev pub buttons_8 : List Key
buttons_8 = btn_0 ∷ btn_1 ∷ btn_2 ∷ btn_3 ∷ btn_4 ∷ btn_5 ∷ btn_6 ∷ btn_7 ∷ []

abbrev pub buttons_9 : List Key
buttons_9 = btn_0 ∷ btn_1 ∷ btn_2 ∷ btn_3 ∷ btn_4 ∷ btn_5 ∷ btn_6 ∷ btn_7 ∷ btn_8 ∷ []

-- Whether the core passes an event on.
abbrev pub has_key : Key → List Key → Bool
has_key k [] = false
has_key k (j ∷ js) = same_key k j || has_key k js

abbrev pub axis_index : Axis → ℕ
axis_index abs_x = 0
axis_index abs_y = 1
axis_index abs_z = 2
axis_index abs_rx = 3
axis_index abs_ry = 4
axis_index abs_rz = 5
axis_index abs_throttle = 6
axis_index abs_wheel = 7
axis_index abs_pressure = 8
axis_index abs_distance = 9
axis_index abs_tilt_x = 10
axis_index abs_tilt_y = 11
axis_index abs_misc = 12

abbrev pub has_axis : Axis → List (Axis × ℤ × ℤ) → Bool
has_axis a [] = false
has_axis a ((b, lo, hi) ∷ bs) = axis_index a == axis_index b || has_axis a bs

abbrev pub declares : Caps → Event → Bool
declares c (key k v) = has_key k c.keys
declares c (abs a v) = has_axis a c.axes
declares c (rel_wheel v) = c.wheel
declares c (msc_serial n) = c.serial
declares c sync = true
