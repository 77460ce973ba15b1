-- ===== src/Intuos/PadKeys.antt =====
-- What the pad packets say of keys.
use linuxwacom.Prelude.{
  ℕ, ◌≤◌, ◌<◌, ◌≡◌, ◌∙◌, refl, false, bit_and, bit_or, not, ◌&&◌, arith, nonzero, List, [], ◌∷◌,
  All, if◌then◌else◌, when, ◌|>◌,
}
use linuxwacom.Input.{
  Key, held, key_index, same_key, tool_finger, btn_0, abs_wheel, abs_throttle, abs_rx, abs_ry,
}
use linuxwacom.Wacom.{
  Kind, Wac, Packet, is_type, report_key, report_abs, set_tool, intuos4s, intuos4l, intuos5s,
  intuospl, dtk, wacom_13hd, wacom_24hd, at_least, at_most,
}
use linuxwacom.Intuos.Pads.{
  report_keys, post_keys, keys_intuos4, more_intuos4, keys_dtk, keys_13hd, keys_24hd, keys_intuos5,
  list_21ux2, progs_22hd, list_strips, ring, presence, pad, pad_intuos4, pad_dtk, pad_13hd,
  pad_24hd, pad_intuos5, pad_strips, keys_21ux2, keys_strips, strips_in_use, strip, pad_of,
  in_use_24hd, in_use_intuos5,
}

-- The keys that are no tools.
abbrev pub IsButtons : List (Key × ℕ) → Type 0
IsButtons ps = All (λ p. key_index p.0 < 30) ps

pub held-report_keys :
    (k : Key) (ps : List (Key × ℕ)) (w : Wac)
    → 30 ≤ key_index k
    → IsButtons ps
    → held k (report_keys ps w).posted ≡ held k w.posted
unfolding post_keys
held-report_keys k [] w h b = refl
held-report_keys k ((j, v) ∷ ps) w h b =
    held-report_keys k ps (report_key j v w) h b.1 ∙ ground (arith, b.0)

pub quiet-report_keys :
    (k : Key) (ps : List (Key × ℕ)) (w : Wac)
    → All (λ p. p.1 ≡ 0) ps
    → held k w.posted ≡ false
    → held k (report_keys ps w).posted ≡ false
unfolding post_keys
quiet-report_keys k [] w z h = h
quiet-report_keys k ((j, v) ∷ ps) w z h =
    quiet-report_keys k ps (report_key j v w) z.1 (ground (arith, z.0))

pub held-presence :
    (k : Key) (n : ℕ) (w : Wac)
    → held k (presence n w).posted ≡ (if same_key (w.tool 1) k then nonzero n else held k w.posted)
unfolding presence
held-presence k n w = ground arith

-- What a pad packet does to a key `k` of a tool or the pad (`n` is the pad's presence).
abbrev Only : Key → ℕ → Wac → Wac → Type 0
Only k n w w' = held k w'.posted ≡ (if same_key (w.tool 1) k then nonzero n else held k w.posted)

module _ (k : Key) (d : Packet) (w : Wac) (tool : 30 ≤ key_index k) where
  pad_intuos4-Only : Only k (bit_or (bit_or (d 1) (bit_and (d 2) 0x01)) (d 3)) w (pad_intuos4 d w)
  unfolding pad_intuos4
  pad_intuos4-Only =
      let w1 = report_keys (keys_intuos4 d) w in
      let w2 = report_abs abs_wheel (ring (d 1)) w1 in
      let w3 = when (not (is_type w2.features.kind intuos4s)) (report_keys (more_intuos4 d)) w2 in
      ground (
        arith,
        held-presence k (bit_or (bit_or (d 1) (bit_and (d 2) 0x01)) (d 3)) w3,
        held-report_keys k (keys_intuos4 d) w tool (omega arith),
        held-report_keys k (more_intuos4 d) w2 tool (omega arith),
      )

  pad_dtk-Only : Only k (bit_and (d 6) 0x3f) w (pad_dtk d w)
  unfolding pad_dtk
  pad_dtk-Only = ground (
    arith,
    held-presence k (bit_and (d 6) 0x3f) (report_keys (keys_dtk d) w),
    held-report_keys k (keys_dtk d) w tool (omega arith),
  )

  pad_13hd-Only : Only k (bit_or (bit_and (d 3) 0x01) (d 4)) w (pad_13hd d w)
  unfolding pad_13hd
  pad_13hd-Only = ground (
    arith,
    held-presence k (bit_or (bit_and (d 3) 0x01) (d 4)) (report_keys (keys_13hd d) w),
    held-report_keys k (keys_13hd d) w tool (omega arith),
  )

  pad_24hd-Only : Only k (in_use_24hd d) w (pad_24hd d w)
  unfolding pad_24hd
  pad_24hd-Only =
      let w1 = report_keys (keys_24hd d) w in
      ground (
        arith,
        held-presence k (in_use_24hd d)
            (w1 |> report_abs abs_wheel (ring (d 1)) |> report_abs abs_throttle (ring (d 2))),
        held-report_keys k (keys_24hd d) w tool (omega arith),
      )

  pad_intuos5-Only : Only k (in_use_intuos5 d) w (pad_intuos5 d w)
  unfolding pad_intuos5
  pad_intuos5-Only =
      let first = (btn_0, bit_and (d 3) 0x01) ∷ [] in
      let w1 = report_keys first w in
      let w2 = report_keys (keys_intuos5 d) w1 in
      ground (
        arith,
        held-presence k (in_use_intuos5 d) (report_abs abs_wheel (ring (d 2)) w2),
        held-report_keys k first w tool (omega arith),
        held-report_keys k (keys_intuos5 d) w1 tool (omega arith),
      )

  frame-keys_21ux2 :
      ((keys_21ux2 d w).tool ≡ w.tool) × (held k (keys_21ux2 d w).posted ≡ held k w.posted)
  unfolding keys_21ux2
  frame-keys_21ux2 =
      let w1 = report_keys (list_21ux2 d) w in
      (
        ground arith,
        ground (
          arith,
          held-report_keys k (list_21ux2 d) w tool (omega arith),
          held-report_keys k (progs_22hd d) w1 tool (omega arith),
        ),
      )

  frame-keys_strips :
      ((keys_strips d w).tool ≡ w.tool) × (held k (keys_strips d w).posted ≡ held k w.posted)
  unfolding keys_strips
  frame-keys_strips = (refl, held-report_keys k (list_strips d) w tool (omega arith))

  pad_strips-Only : Only k (strips_in_use d) w (pad_strips d w)
  unfolding pad_strips
  pad_strips-Only =
      let sides = λ (v : Wac).
        v |> report_abs abs_rx (strip (d 1) (d 2)) |> report_abs abs_ry (strip (d 3) (d 4)) in
      ground (
        arith,
        held-presence k (strips_in_use d) (sides (keys_21ux2 d w)),
        held-presence k (strips_in_use d) (sides (keys_strips d w)),
        frame-keys_21ux2,
        frame-keys_strips,
      )

-- The presence that a pad packet reports, by the model.
unfoldable pub in_use : Kind → Packet → ℕ
in_use kind d =
    if at_least kind intuos4s && at_most kind intuos4l
    then bit_or (bit_or (d 1) (bit_and (d 2) 0x01)) (d 3)
    else if is_type kind dtk
    then bit_and (d 6) 0x3f
    else if is_type kind wacom_13hd
    then bit_or (bit_and (d 3) 0x01) (d 4)
    else if is_type kind wacom_24hd
    then in_use_24hd d
    else if at_least kind intuos5s && at_most kind intuospl
    then in_use_intuos5 d
    else strips_in_use d

pad_of-Only :
    (kind : Kind) (k : Key) (d : Packet) (w : Wac)
    → 30 ≤ key_index k
    → Only k (in_use kind d) w (pad_of kind d w)
unfolding pad_of in_use
pad_of-Only kind k d w tool = ground (
  arith,
  pad_intuos4-Only k d w tool,
  pad_dtk-Only k d w tool,
  pad_13hd-Only k d w tool,
  pad_24hd-Only k d w tool,
  pad_intuos5-Only k d w tool,
  pad_strips-Only k d w tool,
)

-- A pad packet touches no key of a tool, and reports the pad itself near exactly if its presence is
-- not 0, on every model.
pub pad-held :
    (k : Key) (d : Packet) (w : Wac)
    → 30 ≤ key_index k
    → held k (pad d w).posted
      ≡ (if same_key tool_finger k then nonzero (in_use w.features.kind d) else held k w.posted)
unfolding pad
pad-held k d w tool = ground (
  arith,
  pad_of-Only w.features.kind k d w tool,
  pad_of-Only w.features.kind k d (set_tool 1 tool_finger w) tool,
)

-- The pad keeps to `tool[1]`.
pub tool-pad : (d : Packet) (w : Wac) → (pad d w).tool 0 ≡ w.tool 0
unfolding pad pad_of pad_intuos4 pad_dtk pad_13hd pad_24hd pad_intuos5 pad_strips keys_21ux2
    keys_strips presence
tool-pad d w = ground arith

pub features-pad : (d : Packet) (w : Wac) → (pad d w).features ≡ w.features
unfolding pad pad_of pad_intuos4 pad_dtk pad_13hd pad_24hd pad_intuos5 pad_strips keys_21ux2
    keys_strips presence
features-pad d w = ground arith
