-- ===== src/Bpt.antt =====
-- Bamboo pen and touch: `wacom_bpt_irq` and its helpers (src/2.6.30/wacom_wac.c).
pub mod Fingers
use linuxwacom.Prelude.{
  ℕ, ◌+◌, ◌*◌, ◌/◌, Bool, true, false, bit_and, bit_or, ◌==◌, not, ◌&&◌, ◌||◌, if◌then◌else◌, when,
  nonzero, has, flag, ◌|>◌,
}
use linuxwacom.Prelude.Int.{pos}
use linuxwacom.Input.{
  Key, abs_x, abs_y, abs_pressure, abs_distance, abs_misc, btn_0, btn_1, btn_2, btn_3, btn_touch,
  btn_stylus, btn_stylus2, tool_pen, tool_rubber, tool_finger, tool_doubletap, tool_tripletap,
}
use linuxwacom.Wacom.{
  Wac, Packet, InputCore, nudge, same_int, le16, be16, report_key, report_abs, report_tool,
  report_id, report_serial, input_sync, set_tool, set_id, set_stylus_in_proximity, pkglen_bbtouch,
  pkglen_bbfun, report_penabled, touch_device_id, stylus_device_id, eraser_device_id, pad_device_id,
}

unfoldable pub finger_in : InputCore → Packet → ℕ → Wac → Wac
finger_in core d idx w =
    let finger = idx + 1 in
    let x = bit_and (be16 d (3 + idx * 9)) 0x7ff in
    let y = bit_and (be16 d (5 + idx * 9)) 0x7ff in
    let switched = not (w.last_finger == finger) in
    let w' =
      w
      |> report_abs abs_x (nudge switched x (same_int (pos x) (core w.posted abs_x)))
      |> report_abs abs_y (nudge switched y (same_int (pos y) (core w.posted abs_y)))
      |> report_id 0
      |> report_tool finger 1
      |> when (idx == 0) (report_key btn_touch 1)
      |> report_serial finger
      |> input_sync in
    record w' { last_finger = finger }

unfoldable pub touch_out : ℕ → Wac → Wac
touch_out idx w =
    let finger = idx + 1 in
    w
    |> report_abs abs_pressure 0
    |> report_abs abs_misc 0
    |> report_tool finger 0
    |> when (idx == 0) (report_key btn_touch 0)
    |> report_serial finger
    |> input_sync

-- `if (wacom->id[2] & mask) wacom_bpt_touch_out(wacom, idx)`
unfoldable pub lift : ℕ → ℕ → Wac → Wac
lift mask idx w = when (has (w.id 2) mask) (touch_out idx) w

unfoldable pub touch_in : InputCore → Packet → Wac → Wac
touch_in core d w =
    let w1 =
      if has (d 3) 0x80
      then w |> set_tool 1 tool_doubletap |> set_id 0 touch_device_id |> finger_in core d 0
      else lift 0x01 0 w in
    if has (d 12) 0x80
    then w1 |> set_tool 2 tool_tripletap |> finger_in core d 1
    else lift 0x02 1 w1

-- The pad part of a touch packet.
unfoldable pub pad : Packet → Wac → Wac
pad d w0 =
    let prox = bit_and (d 1) 0x0f in
    if nonzero prox || nonzero (w0.id 1)
    then w0
      |> when (w0.id 1 == 0) (set_id 1 pad_device_id)
      |> when (prox == 0) (set_id 1 0)
      |> report_key btn_0 (bit_and (d 1) 0x1)
      |> report_key btn_1 (bit_and (d 1) 0x2)
      |> report_key btn_2 (bit_and (d 1) 0x4)
      |> report_key btn_3 (bit_and (d 1) 0x8)
      |> report_key tool_finger prox
      |> report_id 1
      |> report_serial (if nonzero prox then 0xf0 else 1)
      |> input_sync
    else w0

-- `data[17] & 0x30 >> 4`: in C the shift binds tighter, so the mask is `0x30 >> 4`.
unfoldable pub touch_prox : Packet → ℕ
touch_prox d = bit_and (d 17) (0x30 / 16)

-- `(((data[3] & 0x80) >> 7) & 0x1) | (((data[12] & 0x80) >> 6) & 0x2)`
unfoldable pub finger_bits : Packet → ℕ
finger_bits d =
    bit_or (bit_and (bit_and (d 3) 0x80 / 128) 0x1) (bit_and (bit_and (d 12) 0x80 / 64) 0x2)

-- The finger part of a touch packet.
unfoldable pub touch : InputCore → Packet → Wac → Wac
touch core d w =
    if w.stylus_in_proximity
    then w |> lift 0x01 0 |> lift 0x02 1 |> set_id 2 0
    else (if nonzero (touch_prox d)
        then touch_in core d (if w.id 1 == 0 then record w { last_finger = 1 } else w)
        else w |> lift 0x01 0 |> lift 0x02 1 |> set_id 0 0)
      |> set_id 2 (finger_bits d)

unfoldable pub pen : Packet → Wac → Wac
pen d w0 =
    let prox = has (d 1) 0x10 && has (d 1) 0x20 in
    let w =
      (if w0.stylus_in_proximity
        then w0
        else if has (d 1) 0x08
        then w0
          |> set_tool 0 tool_rubber
          |> set_id 0 eraser_device_id
          |> set_stylus_in_proximity true
        else w0 |> set_tool 0 tool_pen |> set_id 0 stylus_device_id |> set_stylus_in_proximity true)
      |> report_abs abs_pressure (le16 d 6)
      |> report_abs abs_distance (d 8)
      |> report_key btn_touch (bit_and (d 1) 0x01)
      |> report_key btn_stylus (bit_and (d 1) 0x02)
      |> report_key btn_stylus2 (bit_and (d 1) 0x04) in
    (if prox
      then w |> report_abs abs_x (le16 d 2) |> report_abs abs_y (le16 d 4)
      else w
        |> set_id 0 0
        |> set_stylus_in_proximity false
        |> report_abs abs_x 0
        |> report_abs abs_y 0)
    |> report_tool 0 (flag prox)
    |> report_id 0

unfoldable pub irq : InputCore → Packet → ℕ → Wac → Wac × ℕ
irq core d len w =
    if not (d 0 == report_penabled)
    then (w, 0)
    else if len == pkglen_bbtouch
    then (w |> pad d |> touch core d, 0)
    else if len == pkglen_bbfun
    then (pen d w, 1)
    else (w, 0)
