-- ===== src/Intuos/Motion.antt =====
-- The packets of a tool that is near (`wacom_intuos_general` and the end of `wacom_intuos_irq`), and
-- `wacom_intuos_irq` itself.
use linuxwacom.Prelude.{
  ℕ, ◌+◌, ◌-◌, ◌*◌, ◌/◌, ◌%◌, ◌^◌, Bool, bit_and, bit_or, ◌==◌, ltb, not, ◌&&◌, ◌||◌, if◌then◌else◌,
  when, nonzero, has, flag, ◌|>◌,
}
use linuxwacom.Prelude.Int.{ℤ, pos, ◌-ℤ◌, signed32}
use linuxwacom.Input.{
  same_key, abs_x, abs_y, abs_z, abs_rz, abs_pressure, abs_distance, abs_wheel, abs_throttle,
  abs_tilt_x, abs_tilt_y, btn_left, btn_right, btn_middle, btn_side, btn_extra, btn_touch,
  btn_stylus, btn_stylus2, tool_mouse, tool_lens,
}
use linuxwacom.Wacom.{
  Kind, Wac, Packet, is_type, at_least, at_most, be16, report_key, report_abs, report_int,
  report_rel, report_tool, report_id, report_serial, intuos3s, intuos3, intuos3l, intuos4s, intuos4,
  intuos4l, intuos5s, intuos5, intuos5l, intuosps, intuospm, intuospl, wacom_24hd, cintiq,
  report_penabled, report_intuosread, report_intuoswrite, report_intuospad, report_intuos5pad,
}
use linuxwacom.Intuos.Tools.{tool_index, inout}
use linuxwacom.Intuos.Pads.{pad}

-- `((data[7] << 1) & 0x7e) | (data[8] >> 7)`
abbrev pub tilt_x : Packet → ℕ
tilt_x d = bit_or (bit_and (d 7 * 2) 0x7e) (d 8 / 128)

abbrev pub tilt_y : Packet → ℕ
tilt_y d = bit_and (d 8) 0x7f

-- `(data[6] << 2) | ((data[7] >> 6) & 3)`
abbrev pub ten_bits : Packet → ℕ
ten_bits d = bit_or (d 6 * 4) (bit_and (d 7 / 64) 3)

-- The pressure of a pen packet, with one more bit on the models from Intuos4 to the 24HD.
unfoldable pub pressure : Packet → Kind → ℕ
pressure d kind =
    if at_least kind intuos4s && at_most kind wacom_24hd
    then bit_or (ten_bits d * 2) (bit_and (d 1) 1)
    else ten_bits d

-- `wacom_intuos_general`
unfoldable pub general : Packet → Wac → Wac
general d w =
    w
    |> when (bit_and (d 1) 0xb8 == 0xa0) (λ v.
      let t = pressure d v.features.kind in
      v
      |> report_abs abs_pressure t
      |> report_abs abs_tilt_x (tilt_x d)
      |> report_abs abs_tilt_y (tilt_y d)
      |> report_key btn_stylus (bit_and (d 1) 2)
      |> report_key btn_stylus2 (bit_and (d 1) 4)
      |> report_key btn_touch (flag (ltb 10 t)))
    |> when (bit_and (d 1) 0xbc == 0xb4) (λ v.
      v
      |> report_abs abs_wheel (ten_bits d)
      |> report_abs abs_tilt_x (tilt_x d)
      |> report_abs abs_tilt_y (tilt_y d))

-- `a - b` of `unsigned int`
abbrev pub sub_u32 : ℕ → ℕ → ℕ
sub_u32 a b = (a + 2 ^ 32 - b) % 2 ^ 32

-- `(data[6] << 3) | ((data[7] >> 5) & 7)`
unfoldable pub rotation_raw : Packet → ℕ
rotation_raw d = bit_or (d 6 * 8) (bit_and (d 7 / 32) 7)

-- The rotation of a marker pen from the raw count `t`, an `unsigned int`; `odd` is the test of
-- `data[7] & 0x20`. The result goes to an `int`.
unfoldable pub marker_rotation : Bool → ℕ → ℤ
marker_rotation odd t = signed32 (
    if odd
    then (if ltb 900 t then sub_u32 (sub_u32 t 1 / 2) 1350 else (sub_u32 t 1 / 2 + 450) % 2 ^ 32)
    else sub_u32 450 (t / 2))

-- The rotation of a 4D mouse: `(data[7] & 0x20) ? ((t - 1) / 2) : -t / 2`, where `t` is unsigned.
unfoldable pub mouse_rotation : Bool → ℕ → ℤ
mouse_rotation odd t = signed32 (if odd then sub_u32 t 1 / 2 else sub_u32 0 t / 2)

-- The position and the distance.
unfoldable pub position : Packet → Wac → Wac
position d w =
    if at_least w.features.kind intuos3s
    then w
      |> report_abs abs_x (bit_or (bit_or (d 2 * 512) (d 3 * 2)) (bit_and (d 9 / 2) 1))
      |> report_abs abs_y (bit_or (bit_or (d 4 * 512) (d 5 * 2)) (bit_and (d 9) 1))
      |> report_abs abs_distance (bit_and (d 9 / 4) 0x3f)
    else w
      |> report_abs abs_x (be16 d 2)
      |> report_abs abs_y (be16 d 4)
      |> report_abs abs_distance (bit_and (d 9 / 8) 0x1f)

unfoldable pub rotation : Packet → Wac → Wac
rotation d w =
    if at_least w.features.kind intuos3s
    then report_int abs_z (marker_rotation (has (d 7) 0x20) (rotation_raw d)) w
    else report_int abs_rz (mouse_rotation (has (d 7) 0x20) (rotation_raw d)) w

unfoldable pub mouse_4d : Packet → Wac → Wac
mouse_4d d w =
    w
    |> report_key btn_left (bit_and (d 8) 0x01)
    |> report_key btn_middle (bit_and (d 8) 0x02)
    |> report_key btn_right (bit_and (d 8) 0x04)
    |> report_key btn_side (bit_and (d 8) 0x20)
    |> report_key btn_extra (bit_and (d 8) 0x10)
    |> report_int abs_throttle
        (signed32 (if has (d 8) 0x08 then sub_u32 0 (ten_bits d) else ten_bits d))

unfoldable pub mouse_i4 : Packet → Wac → Wac
mouse_i4 d w =
    w
    |> report_key btn_left (bit_and (d 6) 0x01)
    |> report_key btn_middle (bit_and (d 6) 0x02)
    |> report_key btn_right (bit_and (d 6) 0x04)
    |> report_rel (pos (bit_and (d 7) 0x80 / 128) -ℤ pos (bit_and (d 7) 0x40 / 64))
    |> report_key btn_side (bit_and (d 6) 0x08)
    |> report_key btn_extra (bit_and (d 6) 0x10)
    |> report_abs abs_tilt_x (tilt_x d)
    |> report_abs abs_tilt_y (tilt_y d)

unfoldable pub mouse_2d : Packet → Wac → Wac
mouse_2d d w =
    w
    |> report_key btn_left (bit_and (d 8) 0x04)
    |> report_key btn_middle (bit_and (d 8) 0x08)
    |> report_key btn_right (bit_and (d 8) 0x10)
    |> report_rel (pos (bit_and (d 8) 0x01) -ℤ pos (bit_and (d 8) 0x02 / 2))
    |> when (at_least w.features.kind intuos3s && at_most w.features.kind intuos3l) (λ v.
      v |> report_key btn_side (bit_and (d 8) 0x40) |> report_key btn_extra (bit_and (d 8) 0x20))

unfoldable pub lens_cursor : Packet → Wac → Wac
lens_cursor d w =
    w
    |> report_key btn_left (bit_and (d 8) 0x01)
    |> report_key btn_middle (bit_and (d 8) 0x02)
    |> report_key btn_right (bit_and (d 8) 0x04)
    |> report_key btn_side (bit_and (d 8) 0x10)
    |> report_key btn_extra (bit_and (d 8) 0x08)

abbrev pub takes_lens_cursor : Kind → Bool
takes_lens_cursor kind =
    not (at_least kind intuos3s)
    || is_type kind intuos3l
    || is_type kind intuos4l
    || is_type kind intuos5l
    || is_type kind intuospl

-- Mouse, marker rotation and lens cursor packets, by the bits of `data[1]`.
unfoldable pub special : Packet → ℕ → Wac → Wac
special d idx w =
    if has (d 1) 0x02
    then rotation d w
    else if not (has (d 1) 0x10) && not (at_least w.features.kind intuos3s)
    then mouse_4d d w
    else if same_key (w.tool idx) tool_mouse
    then (if at_least w.features.kind intuos4s && at_most w.features.kind intuospl
        then mouse_i4 d w
        else mouse_2d d w)
    else if takes_lens_cursor w.features.kind && same_key (w.tool idx) tool_lens
    then lens_cursor d w
    else w

abbrev pub is_special : Packet → Bool
is_special d =
    bit_and (d 1) 0xbc == 0xa8 || bit_and (d 1) 0xbe == 0xb0 || bit_and (d 1) 0xbc == 0xac

-- The models on which a lens cursor is ignored.
abbrev pub refuses_lens : Kind → Bool
refuses_lens kind =
    is_type kind intuos3
    || is_type kind intuos3s
    || is_type kind intuos4
    || is_type kind intuos4s
    || is_type kind intuos5
    || is_type kind intuos5s
    || is_type kind intuospm
    || is_type kind intuosps

-- The packet of a known tool.
unfoldable pub motion : Packet → ℕ → Wac → Wac
motion d idx w =
    w
    |> position d
    |> general d
    |> when (is_special d) (special d idx)
    |> report_id idx
    |> report_tool idx 1
    |> report_serial (w.serial idx)

-- What follows the enter, range and exit reports, with the return value.
unfoldable pub tool_packet : Packet → ℕ → Wac → Wac × ℕ
tool_packet d idx w =
    if w.id idx == 0
    then (w, 0)
    else if same_key (w.tool idx) tool_lens && refuses_lens w.features.kind
    then (w, 0)
    else if is_type w.features.kind cintiq && not (has (d 1) 0x40)
    then (w, 0)
    else (motion d idx w, 1)

-- `if (result) return result - 1;`
abbrev pub after_inout : Packet → ℕ → Wac × ℕ → Wac × ℕ
after_inout d idx (w, result) = if nonzero result then (w, result - 1) else tool_packet d idx w

abbrev pub is_known_report : ℕ → Bool
is_known_report n =
    n == report_penabled
    || n == report_intuosread
    || n == report_intuoswrite
    || n == report_intuospad
    || n == report_intuos5pad

unfoldable pub irq : Packet → Wac → Wac × ℕ
irq d w =
    if not (is_known_report (d 0))
    then (w, 0)
    else if d 0 == report_intuospad || d 0 == report_intuos5pad
    then (pad d w, 1)
    else after_inout d (tool_index d w) (inout d w)
