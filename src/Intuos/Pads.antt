-- ===== src/Intuos/Pads.antt =====
-- The pad packets of `wacom_intuos_irq`, model by model. The pad is the tool in `tool[1]`.
use linuxwacom.Prelude.{
  ℕ, ◌+◌, ◌*◌, ◌^◌, bit_and, bit_or, not, ◌&&◌, ◌||◌, List, [], ◌∷◌, if◌then◌else◌, when, nonzero,
  has, ◌|>◌,
}
use linuxwacom.Input.{
  Key, Event, key, same_key, abs_rx, abs_ry, abs_wheel, abs_throttle, abs_misc, btn_0, btn_1, btn_2,
  btn_3, btn_4, btn_5, btn_6, btn_7, btn_8, btn_9, btn_a, btn_b, btn_c, btn_x, btn_y, btn_z,
  btn_base, btn_base2, btn_base3, key_prog1, key_prog2, key_prog3, tool_finger,
}
use linuxwacom.Wacom.{
  Kind, Wac, Packet, intuos4s, intuos4l, intuos5s, intuospl, dtk, wacom_13hd, wacom_24hd,
  wacom_21ux2, wacom_22hd, is_type, at_least, at_most, report_abs, report_tool, report_serial,
  set_tool, pad_device_id,
}

-- Calls of `input_report_key`, one after the other.
unfoldable pub post_keys : List (Key × ℕ) → List Event → List Event
post_keys [] es = es
post_keys ((k, v) ∷ rest) es = post_keys rest (key k v ∷ es)

abbrev pub report_keys : List (Key × ℕ) → Wac → Wac
report_keys ps w = record w { posted = post_keys ps w.posted }

-- Whether the pad is in use: `tool[1]` is reported near or away, with or without its identifier.
unfoldable pub presence : ℕ → Wac → Wac
presence n w =
    if nonzero n
    then w |> report_tool 1 1 |> report_abs abs_misc pad_device_id
    else w |> report_tool 1 0 |> report_abs abs_misc 0

-- A touch ring: its position while it is touched, 0 otherwise.
abbrev pub ring : ℕ → ℕ
ring byte = if has byte 0x80 then bit_and byte 0x7f else 0

abbrev pub keys_intuos4 : Packet → List (Key × ℕ)
keys_intuos4 d =
    (btn_0, bit_and (d 2) 0x01)
    ∷ (btn_1, bit_and (d 3) 0x01)
    ∷ (btn_2, bit_and (d 3) 0x02)
    ∷ (btn_3, bit_and (d 3) 0x04)
    ∷ (btn_4, bit_and (d 3) 0x08)
    ∷ (btn_5, bit_and (d 3) 0x10)
    ∷ (btn_6, bit_and (d 3) 0x20)
    ∷ []

abbrev pub more_intuos4 : Packet → List (Key × ℕ)
more_intuos4 d = (btn_7, bit_and (d 3) 0x40) ∷ (btn_8, bit_and (d 3) 0x80) ∷ []

unfoldable pub pad_intuos4 : Packet → Wac → Wac
pad_intuos4 d w =
    w
    |> report_keys (keys_intuos4 d)
    |> report_abs abs_wheel (ring (d 1))
    |> when (not (is_type w.features.kind intuos4s)) (report_keys (more_intuos4 d))
    |> presence (bit_or (bit_or (d 1) (bit_and (d 2) 0x01)) (d 3))

abbrev pub keys_dtk : Packet → List (Key × ℕ)
keys_dtk d =
    (btn_0, bit_and (d 6) 0x01)
    ∷ (btn_1, bit_and (d 6) 0x02)
    ∷ (btn_2, bit_and (d 6) 0x04)
    ∷ (btn_3, bit_and (d 6) 0x08)
    ∷ (btn_4, bit_and (d 6) 0x10)
    ∷ (btn_5, bit_and (d 6) 0x20)
    ∷ []

unfoldable pub pad_dtk : Packet → Wac → Wac
pad_dtk d w = w |> report_keys (keys_dtk d) |> presence (bit_and (d 6) 0x3f)

abbrev pub keys_13hd : Packet → List (Key × ℕ)
keys_13hd d =
    (btn_0, bit_and (d 3) 0x01)
    ∷ (btn_1, bit_and (d 4) 0x01)
    ∷ (btn_2, bit_and (d 4) 0x02)
    ∷ (btn_3, bit_and (d 4) 0x04)
    ∷ (btn_4, bit_and (d 4) 0x08)
    ∷ (btn_5, bit_and (d 4) 0x10)
    ∷ (btn_6, bit_and (d 4) 0x20)
    ∷ (btn_7, bit_and (d 4) 0x40)
    ∷ (btn_8, bit_and (d 4) 0x80)
    ∷ []

unfoldable pub pad_13hd : Packet → Wac → Wac
pad_13hd d w = w |> report_keys (keys_13hd d) |> presence (bit_or (bit_and (d 3) 0x01) (d 4))

abbrev pub keys_24hd : Packet → List (Key × ℕ)
keys_24hd d =
    (btn_0, bit_and (d 6) 0x01)
    ∷ (btn_1, bit_and (d 6) 0x02)
    ∷ (btn_2, bit_and (d 6) 0x04)
    ∷ (btn_3, bit_and (d 6) 0x08)
    ∷ (btn_4, bit_and (d 6) 0x10)
    ∷ (btn_5, bit_and (d 6) 0x20)
    ∷ (btn_6, bit_and (d 6) 0x40)
    ∷ (btn_7, bit_and (d 6) 0x80)
    ∷ (btn_8, bit_and (d 8) 0x01)
    ∷ (btn_9, bit_and (d 8) 0x02)
    ∷ (btn_a, bit_and (d 8) 0x04)
    ∷ (btn_b, bit_and (d 8) 0x08)
    ∷ (btn_c, bit_and (d 8) 0x10)
    ∷ (btn_x, bit_and (d 8) 0x20)
    ∷ (btn_y, bit_and (d 8) 0x40)
    ∷ (btn_z, bit_and (d 8) 0x80)
    ∷ (btn_base, bit_and (d 4) 0x07)
    ∷ (btn_base2, bit_and (d 4) 0xe0)
    ∷ (btn_base3, bit_and (d 3) 0x1c)
    ∷ []

-- `data[1] | data[2] | (data[3] & 0x1f) | data[4] | data[6] | data[8]`
unfoldable pub in_use_24hd : Packet → ℕ
in_use_24hd d =
    bit_or (bit_or (bit_or (bit_or (bit_or (d 1) (d 2)) (bit_and (d 3) 0x1f)) (d 4)) (d 6)) (d 8)

unfoldable pub pad_24hd : Packet → Wac → Wac
pad_24hd d w =
    w
    |> report_keys (keys_24hd d)
    |> report_abs abs_wheel (ring (d 1))
    |> report_abs abs_throttle (ring (d 2))
    |> presence (in_use_24hd d)

-- `for (i = 0; i < 8; i++) input_report_key(input, BTN_1 + i, data[4] & (1 << i))`: the keys from
-- BTN_1 on, with the index of the first.
abbrev pub bits_from : List Key → ℕ → ℕ → List (Key × ℕ)
bits_from [] i byte = []
bits_from (k ∷ ks) i byte = (k, bit_and byte (2 ^ i)) ∷ bits_from ks (i + 1) byte

abbrev pub keys_intuos5 : Packet → List (Key × ℕ)
keys_intuos5 d =
    bits_from (btn_1 ∷ btn_2 ∷ btn_3 ∷ btn_4 ∷ btn_5 ∷ btn_6 ∷ btn_7 ∷ btn_8 ∷ []) 0 (d 4)

-- `data[2] | (data[3] & 0x01) | data[4] | data[5]`
unfoldable pub in_use_intuos5 : Packet → ℕ
in_use_intuos5 d = bit_or (bit_or (bit_or (d 2) (bit_and (d 3) 0x01)) (d 4)) (d 5)

unfoldable pub pad_intuos5 : Packet → Wac → Wac
pad_intuos5 d w =
    w
    |> report_keys ((btn_0, bit_and (d 3) 0x01) ∷ [])
    |> report_keys (keys_intuos5 d)
    |> report_abs abs_wheel (ring (d 2))
    |> presence (in_use_intuos5 d)

abbrev pub progs_22hd : Packet → List (Key × ℕ)
progs_22hd d =
    (key_prog1, bit_and (d 9) 0x01)
    ∷ (key_prog2, bit_and (d 9) 0x02)
    ∷ (key_prog3, bit_and (d 9) 0x04)
    ∷ []

abbrev pub list_21ux2 : Packet → List (Key × ℕ)
list_21ux2 d =
    (btn_0, bit_and (d 5) 0x01)
    ∷ (btn_1, bit_and (d 6) 0x01)
    ∷ (btn_2, bit_and (d 6) 0x02)
    ∷ (btn_3, bit_and (d 6) 0x04)
    ∷ (btn_4, bit_and (d 6) 0x08)
    ∷ (btn_5, bit_and (d 6) 0x10)
    ∷ (btn_6, bit_and (d 6) 0x20)
    ∷ (btn_7, bit_and (d 6) 0x40)
    ∷ (btn_8, bit_and (d 6) 0x80)
    ∷ (btn_9, bit_and (d 7) 0x01)
    ∷ (btn_a, bit_and (d 8) 0x01)
    ∷ (btn_b, bit_and (d 8) 0x02)
    ∷ (btn_c, bit_and (d 8) 0x04)
    ∷ (btn_x, bit_and (d 8) 0x08)
    ∷ (btn_y, bit_and (d 8) 0x10)
    ∷ (btn_z, bit_and (d 8) 0x20)
    ∷ (btn_base, bit_and (d 8) 0x40)
    ∷ (btn_base2, bit_and (d 8) 0x80)
    ∷ []

-- The keys of the 21UX2 and the 22HD.
unfoldable pub keys_21ux2 : Packet → Wac → Wac
keys_21ux2 d w =
    w
    |> report_keys (list_21ux2 d)
    |> when (is_type w.features.kind wacom_22hd) (report_keys (progs_22hd d))

abbrev pub list_strips : Packet → List (Key × ℕ)
list_strips d =
    (btn_0, bit_and (d 5) 0x01)
    ∷ (btn_1, bit_and (d 5) 0x02)
    ∷ (btn_2, bit_and (d 5) 0x04)
    ∷ (btn_3, bit_and (d 5) 0x08)
    ∷ (btn_4, bit_and (d 6) 0x01)
    ∷ (btn_5, bit_and (d 6) 0x02)
    ∷ (btn_6, bit_and (d 6) 0x04)
    ∷ (btn_7, bit_and (d 6) 0x08)
    ∷ (btn_8, bit_and (d 5) 0x10)
    ∷ (btn_9, bit_and (d 6) 0x10)
    ∷ []

-- The keys of the other models with strips.
unfoldable pub keys_strips : Packet → Wac → Wac
keys_strips d w = w |> report_keys (list_strips d)

-- `((hi & 0x1f) << 8) | lo`
abbrev pub strip : ℕ → ℕ → ℕ
strip hi lo = bit_or (bit_and hi 0x1f * 256) lo

-- `(data[5] & 0x1f) | data[6] | (data[1] & 0x1f) | data[2] | (data[3] & 0x1f) | data[4] | data[8]
-- | (data[7] & 0x01)`
unfoldable pub strips_in_use : Packet → ℕ
strips_in_use d =
    bit_or
      (bit_or
        (bit_or
          (bit_or (bit_or (bit_or (bit_or (bit_and (d 5) 0x1f) (d 6)) (bit_and (d 1) 0x1f)) (d 2))
            (bit_and (d 3) 0x1f))
          (d 4))
        (d 8))
      (bit_and (d 7) 0x01)

unfoldable pub pad_strips : Packet → Wac → Wac
pad_strips d w =
    (if is_type w.features.kind wacom_21ux2 || is_type w.features.kind wacom_22hd
      then keys_21ux2 d w
      else keys_strips d w)
    |> report_abs abs_rx (strip (d 1) (d 2))
    |> report_abs abs_ry (strip (d 3) (d 4))
    |> presence (strips_in_use d)

-- The packet of each model.
unfoldable pub pad_of : Kind → Packet → Wac → Wac
pad_of kind d w =
    if at_least kind intuos4s && at_most kind intuos4l
    then pad_intuos4 d w
    else if is_type kind dtk
    then pad_dtk d w
    else if is_type kind wacom_13hd
    then pad_13hd d w
    else if is_type kind wacom_24hd
    then pad_24hd d w
    else if at_least kind intuos5s && at_most kind intuospl
    then pad_intuos5 d w
    else pad_strips d w

-- The pad branch of `wacom_intuos_irq`; it returns 1.
unfoldable pub pad : Packet → Wac → Wac
pad d w =
    w
    |> when (not (same_key (w.tool 1) tool_finger)) (set_tool 1 tool_finger)
    |> pad_of w.features.kind d
    |> report_serial 0xffffffff
