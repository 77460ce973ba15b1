-- ===== src/Pen.antt =====
-- The handlers of pen tablets without touch: `wacom_penpartner_irq`, `wacom_dtu_irq`,
-- `wacom_pl_irq`, `wacom_ptu_irq` and `wacom_dtus_irq` (src/2.6.30/wacom_wac.c). Each gives the new
-- state and the return value.
pub mod Handover
pub mod Decode
use linuxwacom.Prelude.{
  ℕ, ◌+◌, ◌-◌, ◌*◌, ◌/◌, Bool, true, false, bit_and, bit_or, ◌==◌, ltb, leb, not, ◌&&◌, ◌||◌,
  if◌then◌else◌, when, nonzero, has, flag, ◌|>◌,
}
use linuxwacom.Prelude.Int.{ℤ, pos, negsuc, ◌+ℤ◌, signed8, ltb_ℤ}
use linuxwacom.Input.{
  Key, raw, key_index, same_key, abs_x, abs_y, abs_pressure, abs_misc, btn_0, btn_1, btn_2, btn_3,
  btn_touch, btn_stylus, btn_stylus2, tool_pen, tool_rubber,
}
use linuxwacom.Wacom.{
  Wac, Packet, le16, be16, report_key, report_abs, report_int, report_tool, report_id,
  report_serial, input_sync, set_tool, set_id, report_penabled, report_dtus, report_dtuspad,
  pad_device_id, stylus_device_id, eraser_device_id,
}

unfoldable pub penpartner_irq : Packet → Wac → Wac × ℕ
penpartner_irq d w =
    if d 0 == 1
    then (
      if has (d 5) 0x80
          then w
            |> set_tool 0 (if has (d 5) 0x20 then tool_rubber else tool_pen)
            |> set_id 0 (if has (d 5) 0x20 then eraser_device_id else stylus_device_id)
            |> report_tool 0 1
            |> report_id 0
            |> report_abs abs_x (le16 d 1)
            |> report_abs abs_y (le16 d 3)
            |> report_int abs_pressure (signed8 (d 6) +ℤ pos 127)
            |> report_key btn_touch (flag (ltb_ℤ (negsuc 126) (signed8 (d 6))))
            |> report_key btn_stylus (bit_and (d 5) 0x40)
          else (w
              |> report_tool 0 0
              |> report_abs abs_misc 0
              |> report_int abs_pressure (negsuc 0)
              |> report_key btn_touch 0),
      1,
    )
    else if d 0 == 2
    then (
      w
          |> report_key tool_pen 1
          |> report_abs abs_misc stylus_device_id
          |> report_abs abs_x (le16 d 1)
          |> report_abs abs_y (le16 d 3)
          |> report_int abs_pressure (signed8 (d 6) +ℤ pos 127)
          |> report_key btn_touch (flag (ltb_ℤ (negsuc 79) (signed8 (d 6)) && not (has (d 5) 0x20)))
          |> report_key btn_stylus (bit_and (d 5) 0x40),
      1,
    )
    else (w, 0)

unfoldable pub dtu_irq : Packet → Wac → Wac × ℕ
dtu_irq d w0 =
    let prox = bit_and (d 1) 0x20 in
    let w1 =
      (if nonzero prox
        then (if has (d 1) 0x0c
            then w0 |> set_tool 0 tool_rubber |> set_id 0 eraser_device_id
            else w0 |> set_tool 0 tool_pen |> set_id 0 stylus_device_id)
        else w0)
      |> report_key btn_stylus (bit_and (d 1) 0x02)
      |> report_key btn_stylus2 (bit_and (d 1) 0x10)
      |> report_abs abs_pressure (bit_or (bit_and (d 7) 0x01 * 256) (d 6))
      |> report_key btn_touch (bit_and (d 1) 0x05) in
    (
      (if nonzero prox
            then w1 |> report_abs abs_x (le16 d 2) |> report_abs abs_y (le16 d 4)
            else w1 |> set_id 0 0 |> report_abs abs_x 0 |> report_abs abs_y 0)
          |> report_tool 0 prox
          |> report_id 0,
      1,
    )

-- `data[3] | (data[2] << 7) | ((data[1] & 0x03) << 14)`, of bytes `lo`, `mid` and `hi`
unfoldable pub pl_coordinate : ℕ → ℕ → ℕ → ℕ
pl_coordinate lo mid hi = bit_or (bit_or lo (mid * 128)) (bit_and hi 0x03 * 16384)

unfoldable pub pl_pressure : Packet → ℕ
pl_pressure d = bit_or (d 7 * 2) (bit_and (d 4 / 4) 1)

-- The packet of a tool in proximity, once `tool[1]` is chosen.
unfoldable pub pl_in : Packet → ℕ → Wac → Wac
pl_in d prox w0 =
    let w =
      if not (same_key (w0.tool 1) tool_rubber)
      then w0 |> set_tool 1 tool_pen |> set_id 0 stylus_device_id
      else w0 in
    w
    |> report_tool 1 prox
    |> report_id 0
    |> report_abs abs_x (pl_coordinate (d 3) (d 2) (d 1))
    |> report_abs abs_y (pl_coordinate (d 6) (d 5) (d 4))
    |> report_abs abs_pressure (pl_pressure d)
    |> report_key btn_touch (bit_and (d 4) 0x08)
    |> report_key btn_stylus (bit_and (d 4) 0x10)
    |> report_key btn_stylus2 (flag (same_key (w.tool 1) tool_pen && has (d 4) 0x20))

unfoldable pub pl_out : ℕ → Wac → Wac
pl_out prox w =
    (if not (same_key (w.tool 1) tool_rubber) then set_tool 1 tool_pen w else w)
    |> report_abs abs_x 0
    |> report_abs abs_y 0
    |> report_tool 1 prox

-- The same with `wacom->tool[0] = prox` at the end of `wacom_pl_irq`.
unfoldable pub pl_near : Packet → ℕ → Wac → Wac
pl_near d prox w = w |> pl_in d prox |> set_tool 0 (raw prox)

unfoldable pub pl_away : ℕ → Wac → Wac
pl_away prox w = w |> pl_out prox |> set_tool 0 (raw prox)

-- Whether `tool[0]`, which holds the last proximity bit, is 0.
abbrev pub was_out : Wac → Bool
was_out w = same_key (w.tool 0) (raw 0)

unfoldable pub pl_irq : Packet → Wac → Wac × ℕ
pl_irq d w0 =
    let prox = bit_and (d 1) 0x40 in
    let w = set_id 0 eraser_device_id w0 in
    if not (d 0 == report_penabled)
    then (w0, 0)
    else if nonzero prox
    then (if was_out w
        then (
          w
              |> set_tool 1 (
                  if has (d 1) 0x10
                  then tool_rubber
                  else if has (d 4) 0x20
                  then tool_rubber
                  else tool_pen)
              |> pl_near d prox,
          1,
        )
        else if same_key (w.tool 1) tool_rubber && not (has (d 4) 0x20)
        then (w |> report_tool 1 0 |> input_sync |> set_tool 1 tool_pen, 0)
        else (pl_near d prox w, 1))
    else (pl_away prox w0, 1)

unfoldable pub ptu_irq : Packet → Wac → Wac × ℕ
ptu_irq d w = if not (d 0 == report_penabled) then (w, 0) else (
  (if has (d 1) 0x04
        then w
          |> report_key tool_rubber (bit_and (d 1) 0x20)
          |> report_key btn_touch (bit_and (d 1) 0x08)
          |> set_id 0 eraser_device_id
        else w
          |> report_key tool_pen (bit_and (d 1) 0x20)
          |> report_key btn_touch (bit_and (d 1) 0x01)
          |> set_id 0 stylus_device_id)
      |> report_id 0
      |> report_abs abs_x (le16 d 2)
      |> report_abs abs_y (le16 d 4)
      |> report_abs abs_pressure (le16 d 6)
      |> report_key btn_stylus (bit_and (d 1) 0x02)
      |> report_key btn_stylus2 (bit_and (d 1) 0x10),
  1,
)

-- The pad packet of `wacom_dtus_irq`.
unfoldable pub dtus_pad : Packet → Wac → Wac
dtus_pad d w =
    w
    |> report_key btn_0 (bit_and (d 1) 0x01)
    |> report_key btn_1 (bit_and (d 1) 0x02)
    |> report_key btn_2 (bit_and (d 1) 0x04)
    |> report_key btn_3 (bit_and (d 1) 0x08)
    |> report_abs abs_misc (if has (d 1) 0x0f then pad_device_id else 0)
    |> report_serial 0xf0

-- `unsigned short pressure`
unfoldable pub dtus_pressure : Packet → ℕ
dtus_pressure d = bit_or (bit_and (d 1) 0x03 * 256) (bit_and (d 2) 0xff)

-- `switch ((data[1] >> 3) & 3)`, run while the pen is near
unfoldable pub dtus_select : Packet → Wac → Wac
dtus_select d w =
    if bit_and (d 1 / 8) 3 == 1
    then w |> set_tool 0 tool_rubber |> set_id 0 eraser_device_id
    else if bit_and (d 1 / 8) 3 == 2
    then w |> set_tool 0 tool_pen |> set_id 0 stylus_device_id
    else w

-- The pen packet of `wacom_dtus_irq`.
unfoldable pub dtus_pen : Packet → Wac → Wac
dtus_pen d w =
    let prox = bit_and (d 1) 0x80 in
    w
    |> when (nonzero prox) (dtus_select d)
    |> report_key btn_stylus (bit_and (d 1) 0x20)
    |> report_key btn_stylus2 (bit_and (d 1) 0x40)
    |> report_abs abs_x (be16 d 3)
    |> report_abs abs_y (be16 d 5)
    |> report_abs abs_pressure (dtus_pressure d)
    |> report_key btn_touch (flag (ltb 10 (dtus_pressure d)))
    |> when (not (nonzero prox)) (set_id 0 0)
    |> report_tool 0 prox
    |> report_id 0
    |> report_serial 1

unfoldable pub dtus_irq : Packet → Wac → Wac × ℕ
dtus_irq d w =
    if not (d 0 == report_dtus) && not (d 0 == report_dtuspad)
    then (w, 0)
    else if d 0 == report_dtuspad
    then (dtus_pad d w, 1)
    else (dtus_pen d w, 1)
