-- ===== src/Intuos/Tools.antt =====
-- `wacom_intuos_inout`: the enter, range and exit reports of a tool.
use linuxwacom.Prelude.{
  ℕ, ◌+◌, ◌*◌, ◌/◌, ◌%◌, ◌^◌, Bool, true, false, bit_and, bit_or, ◌==◌, ◌&&◌, ◌||◌, List, [], ◌∷◌,
  if◌then◌else◌, when, ◌|>◌, update,
}
use linuxwacom.Input.{
  Key, abs_x, abs_y, abs_z, abs_rz, abs_pressure, abs_distance, abs_wheel, abs_throttle, abs_tilt_x,
  abs_tilt_y, abs_misc, btn_left, btn_right, btn_middle, btn_side, btn_extra, btn_touch, btn_stylus,
  btn_stylus2, tool_pen, tool_rubber, tool_brush, tool_pencil, tool_airbrush, tool_mouse, tool_lens,
  tool_doubletap, tool_tripletap,
}
use linuxwacom.Wacom.{
  Wac, Packet, intuos, intuos3s, wacom_21ux2, is_type, at_least, report_key, report_abs,
  report_tool, report_serial, set_id, set_stylus_in_proximity,
}

unfoldable pub one_of : ℕ → List ℕ → Bool
one_of n [] = false
one_of n (m ∷ ms) = n == m || one_of n ms

-- The case labels of `switch (wacom->id[idx])`.
abbrev pub pencil_ids : List ℕ
pencil_ids = 0x812 ∷ 0x801 ∷ 0x120802 ∷ 0x012 ∷ []

abbrev pub pen_ids : List ℕ
pen_ids =
    0x822 ∷ 0x842 ∷ 0x852 ∷ 0x823 ∷ 0x813 ∷ 0x885 ∷ 0x802 ∷ 0x804 ∷ 0x022 ∷ 0x100804 ∷ 0x140802
    ∷ 0x160802 ∷ 0x180802 ∷ 0x100802 ∷ []

abbrev pub brush_ids : List ℕ
brush_ids = 0x832 ∷ 0x032 ∷ []

abbrev pub mouse_ids : List ℕ
mouse_ids = 0x007 ∷ 0x09c ∷ 0x094 ∷ 0x017 ∷ 0x806 ∷ []

abbrev pub lens_ids : List ℕ
lens_ids = 0x096 ∷ 0x097 ∷ 0x006 ∷ []

abbrev pub rubber_ids : List ℕ
rubber_ids =
    0x82a ∷ 0x85a ∷ 0x91a ∷ 0xd1a ∷ 0x0fa ∷ 0x82b ∷ 0x81b ∷ 0x91b ∷ 0x80c ∷ 0x80a ∷ 0x90a ∷ 0x14080a
    ∷ 0x10090a ∷ 0x10080c ∷ 0x16080a ∷ 0x18080a ∷ 0x10080a ∷ []

abbrev pub airbrush_ids : List ℕ
airbrush_ids = 0xd12 ∷ 0x912 ∷ 0x112 ∷ 0x913 ∷ 0x902 ∷ 0x100902 ∷ []

unfoldable pub tool_of_id : ℕ → Key
unfolding one_of
tool_of_id n =
    if one_of n pencil_ids
    then tool_pencil
    else if one_of n pen_ids
    then tool_pen
    else if one_of n brush_ids
    then tool_brush
    else if one_of n mouse_ids
    then tool_mouse
    else if one_of n lens_ids
    then tool_lens
    else if one_of n rubber_ids
    then tool_rubber
    else if one_of n airbrush_ids
    then tool_airbrush
    else tool_pen

-- `k >= BTN_TOOL_MOUSE`: of the codes used here linux/input.h puts these after BTN_TOOL_MOUSE.
abbrev pub at_least_mouse : Key → Bool
at_least_mouse tool_mouse = true
at_least_mouse tool_lens = true
at_least_mouse tool_doubletap = true
at_least_mouse tool_tripletap = true
at_least_mouse _ = false

-- `((data[3] & 0x0f) << 28) + (data[4] << 20) + (data[5] << 12) + (data[6] << 4) + (data[7] >> 4)`
unfoldable pub serial_of : Packet → ℕ
serial_of d =
    (bit_and (d 3) 0x0f * 2 ^ 28 + d 4 * 2 ^ 20 + d 5 * 2 ^ 12 + d 6 * 2 ^ 4 + d 7 / 2 ^ 4) % 2 ^ 32

-- `(data[2] << 4) | (data[3] >> 4) | ((data[7] & 0x0f) << 20) | ((data[8] & 0xf0) << 12)`
unfoldable pub id_of : Packet → ℕ
id_of d =
    bit_or (bit_or (bit_or (d 2 * 2 ^ 4) (d 3 / 2 ^ 4)) (bit_and (d 7) 0x0f * 2 ^ 20))
      (bit_and (d 8) 0xf0 * 2 ^ 12)

-- The tool number.
unfoldable pub tool_index : Packet → Wac → ℕ
tool_index d w = if is_type w.features.kind intuos then bit_and (d 1) 0x01 else 0

unfoldable pub enter : Packet → ℕ → Wac → Wac
enter d idx w = record w {
  serial = update w.serial idx (serial_of d);
  id = update w.id idx (id_of d);
  tool = update w.tool idx (tool_of_id (id_of d));
}

-- The range report.
unfoldable pub range : Wac → Wac
range w =
    w
    |> report_key btn_touch 0
    |> report_abs abs_pressure 0
    |> report_abs abs_distance w.features.distance_max
    |> set_stylus_in_proximity true

-- The resets of the exit report: of a mouse or lens cursor, and of a pen.
unfoldable pub reset_mouse : Wac → Wac
reset_mouse w =
    w
    |> report_key btn_left 0
    |> report_key btn_middle 0
    |> report_key btn_right 0
    |> report_key btn_side 0
    |> report_key btn_extra 0
    |> report_abs abs_throttle 0
    |> report_abs abs_rz 0

unfoldable pub reset_pen : Wac → Wac
reset_pen w =
    w
    |> report_abs abs_pressure 0
    |> report_key btn_stylus 0
    |> report_key btn_stylus2 0
    |> report_key btn_touch 0
    |> report_abs abs_wheel 0
    |> when (at_least w.features.kind intuos3s) (report_abs abs_z 0)

-- `wacom->tool[idx] >= BTN_TOOL_MOUSE`
unfoldable pub reset : ℕ → Wac → Wac
reset idx w = if at_least_mouse (w.tool idx) then reset_mouse w else reset_pen w

-- What the exit report posts before the buttons.
unfoldable pub reset_axes : Wac → Wac
reset_axes w =
    w
    |> report_abs abs_distance 0
    |> report_abs abs_x 0
    |> report_abs abs_y 0
    |> report_abs abs_tilt_x 0
    |> report_abs abs_tilt_y 0

-- The exit report.
unfoldable pub leave : ℕ → Wac → Wac
leave idx w =
    w
    |> reset_axes
    |> reset idx
    |> report_tool idx 0
    |> report_abs abs_misc 0
    |> report_serial (w.serial idx)
    |> set_id idx 0

-- `wacom_intuos_inout`, with its return value.
unfoldable pub inout : Packet → Wac → Wac × ℕ
inout d w =
    let idx = tool_index d w in
    if bit_and (d 1) 0xfc == 0xc0
    then (enter d idx w, 1)
    else if bit_and (w.id idx / 2 ^ 20) 0x01 == 0 && is_type w.features.kind wacom_21ux2
    then (w, 1)
    else (let w1 = when (bit_and (d 1) 0xfe == 0x20) range w in
        if bit_and (d 1) 0xfe == 0x80 then (leave idx w1, 2) else (w1, 0))
