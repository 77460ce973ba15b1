-- ===== src/Graphire.antt =====
-- Graphire, Graphire4 and Bamboo (MO): `wacom_graphire_irq` (src/2.6.30/wacom_wac.c).
pub mod Tools
use linuxwacom.Prelude.{
  ℕ, ◌+◌, ◌*◌, ◌/◌, Bool, true, false, bit_and, bit_or, ◌==◌, not, ◌&&◌, ◌||◌, if◌then◌else◌, when,
  nonzero, has, ◌|>◌,
}
use linuxwacom.Prelude.Int.{ℤ, pos, ◌-ℤ◌, signed8}
use linuxwacom.Input.{
  Key, same_key, abs_x, abs_y, abs_pressure, abs_distance, abs_wheel, abs_misc, btn_0, btn_1, btn_4,
  btn_5, btn_left, btn_right, btn_middle, btn_touch, btn_stylus, btn_stylus2, tool_pen, tool_rubber,
  tool_mouse, tool_finger,
}
use linuxwacom.Wacom.{
  Wac, Packet, wacom_g4, wacom_mo, is_type, le16, report_key, report_abs, report_rel, report_tool,
  report_id, report_serial, input_sync, set_tool, set_id, report_penabled, stylus_device_id,
  cursor_device_id, eraser_device_id, pad_device_id,
}

-- `switch ((data[1] >> 5) & 3)`, run while a tool is near
unfoldable pub select : Packet → Wac → Wac
select d w =
    let tool_type = bit_and (d 1 / 32) 3 in
    if tool_type == 0
    then w |> set_tool 0 tool_pen |> set_id 0 stylus_device_id
    else if tool_type == 1
    then w |> set_tool 0 tool_rubber |> set_id 0 eraser_device_id
    else w
      |> when (tool_type == 2) (report_key btn_middle (bit_and (d 1) 0x04))
      |> set_tool 0 tool_mouse
      |> set_id 0 cursor_device_id

-- The buttons, pressure and wheel of the tool in `tool[0]`.
unfoldable pub tool_state : Packet → Wac → Wac
tool_state d w =
    if not (same_key (w.tool 0) tool_mouse)
    then w
      |> report_abs abs_pressure (bit_or (d 6) (bit_and (d 7) 0x01 * 256))
      |> report_key btn_touch (bit_and (d 1) 0x01)
      |> report_key btn_stylus (bit_and (d 1) 0x02)
      |> report_key btn_stylus2 (bit_and (d 1) 0x04)
    else (let w1 =
          w
          |> report_key btn_left (bit_and (d 1) 0x01)
          |> report_key btn_right (bit_and (d 1) 0x02) in
        if is_type w.features.kind wacom_g4 || is_type w.features.kind wacom_mo
        then w1
          |> report_abs abs_distance (bit_and (d 6) 0x3f)
          |> report_rel (pos (bit_and (d 7) 0x04) -ℤ pos (bit_and (d 7) 0x03))
        else w1
          |> report_abs abs_distance (bit_and (d 7) 0x3f)
          |> report_rel (pos 0 -ℤ signed8 (d 6)))

-- The tool part of the packet: nothing is posted if no tool is near or was near.
unfoldable pub tool_packet : Packet → Wac → Wac
tool_packet d w =
    let prox = bit_and (d 1) 0x80 in
    if nonzero prox || nonzero (w.id 0)
    then (let w1 = w |> when (nonzero prox) (select d) |> tool_state d in
        (if nonzero prox
          then w1 |> report_abs abs_x (le16 d 2) |> report_abs abs_y (le16 d 4)
          else w1 |> set_id 0 0 |> report_abs abs_x 0 |> report_abs abs_y 0)
        |> report_id 0
        |> report_tool 0 prox
        |> report_serial 1
        |> input_sync)
    else w

-- The pad part of a WACOM_G4 packet, with the return value.
unfoldable pub pad_g4 : Packet → Wac → Wac × ℕ
pad_g4 d w =
    let prox = bit_and (d 7) 0xf8 in
    if nonzero prox || nonzero (w.id 1)
    then (
      w
          |> set_id 1 pad_device_id
          |> report_key btn_0 (bit_and (d 7) 0x40)
          |> report_key btn_4 (bit_and (d 7) 0x80)
          |> report_rel (pos (bit_and (d 7) 0x18 / 8) -ℤ pos (bit_and (d 7) 0x20 / 8))
          |> report_key tool_finger 0xf0
          |> when (prox == 0) (set_id 1 0)
          |> report_id 1
          |> report_serial 0xf0,
      1,
    )
    else (w, 0)

-- The pad part of a WACOM_MO packet, with the return value.
unfoldable pub pad_mo : Packet → Wac → Wac × ℕ
pad_mo d w =
    let prox = has (d 7) 0x78 || has (d 8) 0x7f in
    (
      if prox || nonzero (w.id 1)
          then w
            |> set_id 1 pad_device_id
            |> report_key btn_0 (bit_and (d 7) 0x08)
            |> report_key btn_1 (bit_and (d 7) 0x20)
            |> report_key btn_4 (bit_and (d 7) 0x10)
            |> report_key btn_5 (bit_and (d 7) 0x40)
            |> report_abs abs_wheel (bit_and (d 8) 0x7f)
            |> report_key tool_finger 0xf0
            |> when (not prox) (set_id 1 0)
            |> report_id 1
            |> report_serial 0xf0
          else w,
      1,
    )

unfoldable pub irq : Packet → Wac → Wac × ℕ
irq d w =
    if not (d 0 == report_penabled)
    then (w, 0)
    else (let w1 = tool_packet d w in
        if is_type w.features.kind wacom_g4
        then pad_g4 d w1
        else if is_type w.features.kind wacom_mo
        then pad_mo d w1
        else (w1, 0))
