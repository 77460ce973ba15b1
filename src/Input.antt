-- ===== src/Input.antt =====
-- The kernel's input events, as the drivers of src/2.6.30 post them (`input_report_key`,
-- `input_report_abs`, `input_report_rel`, `input_event`, `input_sync`). The codes are those of the
-- kernel's linux/input.h, which is not part of the repository: here they are symbols.
use linuxwacom.Prelude.{ℕ, ◌+◌, Bool, false, List, [], ◌∷◌, if◌then◌else◌, ◌==◌, nonzero}
use linuxwacom.Prelude.Int.{ℤ}

-- The key codes that the kernel driver posts. `raw n` is any other integer: the 0 of fresh memory, the
-- proximity bit that wacom_pl_irq keeps in `tool[0]`, or the code of a key that the driver has not.
pub data Key : Type 0 where
  raw : ℕ → Key
  btn_0 btn_1 btn_2 btn_3 btn_4 btn_5 btn_6 btn_7 btn_8 btn_9 : Key
  btn_a btn_b btn_c btn_x btn_y btn_z btn_base btn_base2 btn_base3 : Key
  key_prog1 key_prog2 key_prog3 : Key
  btn_left btn_right btn_middle btn_side btn_extra : Key
  btn_touch btn_stylus btn_stylus2 : Key
  tool_pen tool_rubber tool_brush tool_pencil tool_airbrush tool_finger tool_mouse tool_lens : Key
  tool_doubletap tool_tripletap : Key

-- A number for each key, to compare keys by. The numbers are the model's own.
abbrev pub key_index : Key → ℕ
key_index btn_0 = 0
key_index btn_1 = 1
key_index btn_2 = 2
key_index btn_3 = 3
key_index btn_4 = 4
key_index btn_5 = 5
key_index btn_6 = 6
key_index btn_7 = 7
key_index btn_8 = 8
key_index btn_9 = 9
key_index btn_a = 10
key_index btn_b = 11
key_index btn_c = 12
key_index btn_x = 13
key_index btn_y = 14
key_index btn_z = 15
key_index btn_base = 16
key_index btn_base2 = 17
key_index btn_base3 = 18
key_index key_prog1 = 19
key_index key_prog2 = 20
key_index key_prog3 = 21
key_index btn_left = 22
key_index btn_right = 23
key_index btn_middle = 24
key_index btn_side = 25
key_index btn_extra = 26
key_index btn_touch = 27
key_index btn_stylus = 28
key_index btn_stylus2 = 29
key_index tool_pen = 30
key_index tool_rubber = 31
key_index tool_brush = 32
key_index tool_pencil = 33
key_index tool_airbrush = 34
key_index tool_finger = 35
key_index tool_mouse = 36
key_index tool_lens = 37
key_index tool_doubletap = 38
key_index tool_tripletap = 39
key_index (raw n) = 40 + n

abbrev pub same_key : Key → Key → Bool
same_key a b = key_index a == key_index b

pub data Axis : Type 0 where
  abs_x abs_y abs_z abs_rx abs_ry abs_rz abs_throttle abs_wheel abs_pressure : Axis
  abs_distance abs_tilt_x abs_tilt_y abs_misc : Axis

pub data Event : Type 0 where
  key : Key → ℕ → Event
  abs : Axis → ℤ → Event
  rel_wheel : ℤ → Event
  msc_serial : ℕ → Event
  sync : Event

-- Whether a key is down after a history of events, the newest first: what was last said of it.
abbrev pub held : Key → List Event → Bool
held k [] = false
held k (key j v ∷ es) = if same_key j k then nonzero v else held k es
held k (abs _ _ ∷ es) = held k es
held k (rel_wheel _ ∷ es) = held k es
held k (msc_serial _ ∷ es) = held k es
held k (sync ∷ es) = held k es
