-- ===== src/Intuos/PadQuiet.antt =====
-- A pad packet that reports the pad as away presses no pad key.
use linuxwacom.Prelude.{
  ℕ, ◌%◌, ◌/◌, ◌<◌, ◌≡◌, true, false, bit_and, bit_or, not, arith, has, [], ◌∷◌, when, ◌|>◌,
}
use linuxwacom.Prelude.Bits.{
  le-bit_or, bit_and-le_left, bit_and_step, bit_and-double, bit_and_seven, bit_and-one, bit_and_two,
  bit_and_4, bit_and_8, bit_and_16,
}
use linuxwacom.Input.{
  Key, held, key_index, same_key, tool_finger, btn_0, key_prog3, abs_wheel, abs_throttle, abs_rx,
  abs_ry,
}
use linuxwacom.Wacom.{Wac, Packet, is_type, report_abs, set_tool, wacom_22hd, intuos4s}
use linuxwacom.Intuos.Pads.{
  report_keys, post_keys, keys_intuos4, more_intuos4, keys_dtk, keys_13hd, keys_24hd, keys_intuos5,
  list_21ux2, list_strips, ring, presence, pad, pad_intuos4, pad_dtk, pad_13hd, pad_24hd,
  pad_intuos5, pad_strips, keys_21ux2, keys_strips, strips_in_use, strip, pad_of, in_use_24hd,
  in_use_intuos5,
}
use linuxwacom.Intuos.PadKeys.{quiet-report_keys, held-presence, in_use, pad-held}

-- A key `k` that is up stays up.
abbrev Quiet : Key → Wac → Wac → Type 0
Quiet k w w' = held k w.posted ≡ false → held k w'.posted ≡ false

-- The bits below a mask of ones are clear if the masked value is 0.
low_five :
    (a : ℕ)
    → bit_and a 0x1f ≡ 0
    → (bit_and a 1 ≡ 0)
      × (bit_and a 2 ≡ 0)
      × (bit_and a 4 ≡ 0)
      × (bit_and a 8 ≡ 0)
      × (bit_and a 16 ≡ 0)
      × (bit_and a 0x1c ≡ 0)
low_five a z =
    let zero_end : a % 32 ≡ 0 =
      omega (arith, bit_and_step a 0x1f, bit_and_step (a / 2) 0x0f, bit_and_seven (a / 2 / 2)) in
    omega (
      arith,
      bit_and-one a,
      bit_and_two a,
      bit_and_4 a,
      bit_and_8 a,
      bit_and_16 a,
      bit_and-double a 0x0e,
      bit_and-double (a / 2) 0x07,
      bit_and_seven (a / 2 / 2),
    )

low_six :
    (a : ℕ)
    → bit_and a 0x3f ≡ 0
    → (bit_and a 1 ≡ 0)
      × (bit_and a 2 ≡ 0)
      × (bit_and a 4 ≡ 0)
      × (bit_and a 8 ≡ 0)
      × (bit_and a 16 ≡ 0)
      × (bit_and a 32 ≡ 0)
low_six a z =
    let step = bit_and_step a 0x3f in
    omega (
      arith,
      step,
      low_five (a / 2) (omega (arith, step)),
      bit_and-one a,
      bit_and-double a 1,
      bit_and-double a 2,
      bit_and-double a 4,
      bit_and-double a 8,
      bit_and-double a 16,
    )

ruleset zero_parts = (arith, bit_and-le_left, le-bit_or)

module _ (k : Key) (d : Packet) (w : Wac) (other : same_key (w.tool 1) k ≡ false) where
  pad_intuos4-Quiet :
      bit_or (bit_or (d 1) (bit_and (d 2) 0x01)) (d 3) ≡ 0 → Quiet k w (pad_intuos4 d w)
  unfolding pad_intuos4
  pad_intuos4-Quiet z up =
      let n = bit_or (bit_or (d 1) (bit_and (d 2) 0x01)) (d 3) in
      let w1 = report_keys (keys_intuos4 d) w in
      let w2 = report_abs abs_wheel (ring (d 1)) w1 in
      let w3 = when (not (is_type w2.features.kind intuos4s)) (report_keys (more_intuos4 d)) w2 in
      ground (
        arith,
        held-presence k n w3,
        quiet-report_keys k (keys_intuos4 d) w (omega zero_parts) up,
        quiet-report_keys k (more_intuos4 d) w2 (omega zero_parts),
      )

  pad_dtk-Quiet : bit_and (d 6) 0x3f ≡ 0 → Quiet k w (pad_dtk d w)
  unfolding pad_dtk
  pad_dtk-Quiet z up = ground (
    arith,
    held-presence k (bit_and (d 6) 0x3f) (report_keys (keys_dtk d) w),
    quiet-report_keys k (keys_dtk d) w (omega (arith, low_six (d 6) z)) up,
  )

  pad_13hd-Quiet : bit_or (bit_and (d 3) 0x01) (d 4) ≡ 0 → Quiet k w (pad_13hd d w)
  unfolding pad_13hd
  pad_13hd-Quiet z up = ground (
    arith,
    held-presence k (bit_or (bit_and (d 3) 0x01) (d 4)) (report_keys (keys_13hd d) w),
    quiet-report_keys k (keys_13hd d) w (omega zero_parts) up,
  )

  pad_24hd-Quiet : in_use_24hd d ≡ 0 → Quiet k w (pad_24hd d w)
  unfolding pad_24hd in_use_24hd
  pad_24hd-Quiet z up =
      let w1 = report_keys (keys_24hd d) w in
      ground (
        arith,
        held-presence k (in_use_24hd d)
            (w1 |> report_abs abs_wheel (ring (d 1)) |> report_abs abs_throttle (ring (d 2))),
        quiet-report_keys k (keys_24hd d) w (omega (zero_parts, low_five (d 3))) up,
      )

  pad_intuos5-Quiet : in_use_intuos5 d ≡ 0 → Quiet k w (pad_intuos5 d w)
  unfolding pad_intuos5 in_use_intuos5
  pad_intuos5-Quiet z up =
      let first = (btn_0, bit_and (d 3) 0x01) ∷ [] in
      let w1 = report_keys first w in
      let w2 = report_keys (keys_intuos5 d) w1 in
      ground (
        arith,
        held-presence k (in_use_intuos5 d) (report_abs abs_wheel (ring (d 2)) w2),
        quiet-report_keys k first w (omega zero_parts) up,
        quiet-report_keys k (keys_intuos5 d) w1 (omega zero_parts),
      )

  pad_strips-Quiet :
      strips_in_use d ≡ 0 → is_type w.features.kind wacom_22hd ≡ false → Quiet k w (pad_strips d w)
  unfolding pad_strips keys_21ux2 keys_strips strips_in_use
  pad_strips-Quiet z model up =
      let sides = λ (v : Wac).
        v |> report_abs abs_rx (strip (d 1) (d 2)) |> report_abs abs_ry (strip (d 3) (d 4)) in
      ground (
        arith,
        held-presence k (strips_in_use d) (sides (report_keys (list_21ux2 d) w)),
        held-presence k (strips_in_use d) (sides (report_keys (list_strips d) w)),
        quiet-report_keys k (list_21ux2 d) w (omega (zero_parts, low_five (d 5))) up,
        quiet-report_keys k (list_strips d) w (omega (zero_parts, low_five (d 5))) up,
      )

pad_of-Quiet :
    (k : Key) (d : Packet) (w : Wac)
    → same_key (w.tool 1) k ≡ false
    → is_type w.features.kind wacom_22hd ≡ false
    → in_use w.features.kind d ≡ 0
    → Quiet k w (pad_of w.features.kind d w)
unfolding pad_of in_use
pad_of-Quiet k d w other model away up = ground (
  arith,
  pad_intuos4-Quiet k d w other,
  pad_dtk-Quiet k d w other,
  pad_13hd-Quiet k d w other,
  pad_24hd-Quiet k d w other,
  pad_intuos5-Quiet k d w other,
  pad_strips-Quiet k d w other,
)

-- On every model but the 22HD, a pad packet that reports the pad as away leaves every pad key that
-- was up, up.
pub pad-quiet :
    (k : Key) (d : Packet) (w : Wac)
    → key_index k < 30
    → is_type w.features.kind wacom_22hd ≡ false
    → held tool_finger (pad d w).posted ≡ false
    → held k w.posted ≡ false
    → held k (pad d w).posted ≡ false
unfolding pad
pad-quiet k d w button model away up = ground (
  arith,
  pad-held tool_finger d w (omega arith),
  pad_of-Quiet k d w,
  pad_of-Quiet k d (set_tool 1 tool_finger w),
)

-- On the 22HD, a packet with the third program key pressed and nothing else that counts as the pad
-- in use reports that key down and the pad away.
pub pad-22hd :
    (d : Packet) (w : Wac)
    → is_type w.features.kind wacom_22hd ≡ true
    → in_use wacom_22hd d ≡ 0
    → has (d 9) 0x04 ≡ true
    → (held key_prog3 (pad d w).posted ≡ true) × (held tool_finger (pad d w).posted ≡ false)
unfolding pad pad_of in_use pad_strips keys_21ux2 post_keys presence
pad-22hd d w model away pressed = ground arith
