-- ===== src/Tpc.antt =====
-- Tablet PCs, pen and touch: `wacom_tpc_irq` and its helpers (src/2.6.30/wacom_wac.c).
pub mod Fingers
use linuxwacom.Prelude.{
  ℕ, ◌+◌, ◌*◌, Bool, true, false, bit_and, bit_or, ◌==◌, not, ◌&&◌, ◌||◌, if◌then◌else◌, when,
  nonzero, has, ◌|>◌,
}
use linuxwacom.Prelude.Int.{pos}
use linuxwacom.Input.{
  Key, abs_x, abs_y, abs_pressure, abs_misc, btn_touch, btn_stylus, btn_stylus2, tool_pen,
  tool_rubber, tool_doubletap, tool_tripletap,
}
use linuxwacom.Wacom.{
  Wac, Packet, InputCore, nudge, same_int, le16, report_key, report_abs, report_tool, report_id,
  report_serial, input_sync, set_tool, set_id, set_stylus_in_proximity, pkglen_tpc1fg,
  report_tpc1fg, report_tpc2fg, report_penabled, touch_device_id, stylus_device_id,
  eraser_device_id,
}

unfoldable pub finger_in : InputCore → Packet → ℕ → Wac → Wac
finger_in core d idx w =
    let finger = idx + 1 in
    let x = bit_and (le16 d (finger * 2)) 0x7fff in
    let y = bit_and (le16 d (4 + finger * 2)) 0x7fff in
    let switched = not (w.last_finger == finger) in
    let w' =
      w
      |> report_abs abs_x (nudge switched x (same_int (pos x) (core w.posted abs_x)))
      |> report_abs abs_y (nudge switched y (same_int (pos y) (core w.posted abs_y)))
      |> report_id 0
      |> report_tool finger 1
      |> when (idx == 0) (report_key btn_touch 1)
      |> report_serial finger
      |> input_sync in
    record w' { last_finger = finger }

unfoldable pub touch_out : ℕ → Wac → Wac
touch_out idx w =
    let finger = idx + 1 in
    w
    |> report_abs abs_misc 0
    |> report_tool finger 0
    |> when (idx == 0) (report_key btn_touch 0)
    |> report_serial finger
    |> input_sync

-- `else if (wacom->id[1] & mask) wacom_tpc_touch_out(wacom, idx)`: a finger that was down is lifted.
unfoldable pub lift : ℕ → ℕ → Wac → Wac
lift mask idx w = when (has (w.id 1) mask) (touch_out idx) w

-- `wacom_tpc_touch_in`
unfoldable pub touch_in : InputCore → Packet → ℕ → Wac → Wac
touch_in core d len w0 =
    let w =
      w0 |> set_tool 1 tool_doubletap |> set_id 0 touch_device_id |> set_tool 2 tool_tripletap in
    if not (len == pkglen_tpc1fg)
    then if d 0 == report_tpc1fg
      then w
        |> report_abs abs_x (le16 d 2)
        |> report_abs abs_y (le16 d 4)
        |> report_abs abs_pressure (le16 d 6)
        |> report_key btn_touch (le16 d 6)
        |> report_id 0
        |> report_tool 1 1
        |> input_sync
      else if d 0 == report_tpc2fg
      then (let w1 = if has (d 1) 0x01 then finger_in core d 0 w else lift 0x01 0 w in
          if has (d 1) 0x02 then finger_in core d 1 w1 else lift 0x02 1 w1)
      else w
    else w
      |> report_abs abs_x (le16 d 1)
      |> report_abs abs_y (le16 d 3)
      |> report_key btn_touch 1
      |> report_id 0
      |> report_tool 1 1
      |> input_sync

-- The proximity bits of a touch packet.
unfoldable pub touch_prox : Packet → ℕ → ℕ
touch_prox d len =
    if len == pkglen_tpc1fg
    then bit_and (d 0) 0x01
    else if d 0 == report_tpc1fg
    then bit_and (d 1) 0x01
    else bit_and (d 1) 0x03

-- No finger is near: `wacom_tpc_irq` lifts those that were.
unfoldable pub touch_away : Packet → Wac → Wac
touch_away d w =
    (if d 0 == report_tpc2fg then w |> lift 0x01 0 |> lift 0x02 1 else touch_out 0 w) |> set_id 0 0

-- Some finger is near; the last touched finger is set first.
unfoldable pub touch_near : InputCore → Packet → ℕ → Wac → Wac
touch_near core d len w =
    touch_in core d len (if w.id 1 == 0 then record w { last_finger = 1 } else w)

-- The touch branch of `wacom_tpc_irq`; it returns 0.
unfoldable pub touch : InputCore → Packet → ℕ → Wac → Wac
touch core d len w =
    if w.stylus_in_proximity
    then w |> lift 0x01 0 |> lift 0x02 1 |> set_id 1 0
    else set_id 1 (touch_prox d len)
        (if nonzero (touch_prox d len) then touch_near core d len w else touch_away d w)

-- The pen branch of `wacom_tpc_irq`; it returns 1.
unfoldable pub pen : Packet → Wac → Wac
pen d w0 =
    let prox = bit_and (d 1) 0x20 in
    let w =
      (if w0.stylus_in_proximity
        then w0
        else if has (d 1) 0x0c
        then w0
          |> set_tool 0 tool_rubber
          |> set_id 0 eraser_device_id
          |> set_stylus_in_proximity true
        else w0 |> set_tool 0 tool_pen |> set_id 0 stylus_device_id |> set_stylus_in_proximity true)
      |> report_key btn_stylus (bit_and (d 1) 0x02)
      |> report_key btn_stylus2 (bit_and (d 1) 0x10)
      |> report_abs abs_pressure (bit_or (bit_and (d 7) 0x01 * 256) (d 6))
      |> report_key btn_touch (bit_and (d 1) 0x05) in
    (if nonzero prox
      then w |> report_abs abs_x (le16 d 2) |> report_abs abs_y (le16 d 4)
      else w
        |> set_id 0 0
        |> set_stylus_in_proximity false
        |> report_abs abs_x 0
        |> report_abs abs_y 0)
    |> report_tool 0 prox
    |> report_id 0

-- `wacom_tpc_irq`, with its return value
unfoldable pub irq : InputCore → Packet → ℕ → Wac → Wac × ℕ
irq core d len w =
    if len == pkglen_tpc1fg || d 0 == report_tpc1fg || d 0 == report_tpc2fg
    then (touch core d len w, 0)
    else if d 0 == report_penabled
    then (pen d w, 1)
    else (w, 0)
