-- ===== src/Intuos/Held.antt =====
-- What the parts of `wacom_intuos_irq` do to the keys of the tools, and to `tool` and `id`.
use linuxwacom.Prelude.{
  ℕ, ◌≡◌, refl, Bool, true, false, not, ◌&&◌, arith, leb, ◌==◌, List, [], ◌∷◌, if◌then◌else◌,
}
use linuxwacom.Input.{Key, Event, key, abs, rel_wheel, msc_serial, sync, held, key_index, same_key}
use linuxwacom.Wacom.{Wac, Packet}
use linuxwacom.Intuos.Tools.{range, reset_mouse, reset_pen, reset, reset_axes, leave}
use linuxwacom.Intuos.Pads.{
  pad, pad_of, pad_intuos4, pad_dtk, pad_13hd, pad_24hd, pad_intuos5, pad_strips, keys_21ux2,
  keys_strips, presence,
}
use linuxwacom.Intuos.Motion.{
  general, position, rotation, mouse_4d, mouse_i4, mouse_2d, lens_cursor, special, motion,
}

-- The keys of tools: BTN_TOOL_PEN to BTN_TOOL_LENS, less BTN_TOOL_FINGER, which is the pad.
abbrev pub is_tool : Key → Bool
is_tool k = leb 30 (key_index k) && leb (key_index k) 37 && not (key_index k == 35)

-- Keys of one number are reported alike.
pub held-same_key : (j k : Key) (es : List Event) → same_key j k ≡ true → held j es ≡ held k es
held-same_key j k [] h = refl
held-same_key j k (key i v ∷ es) h = ground (arith, held-same_key j k es h)
held-same_key j k (abs a v ∷ es) h = held-same_key j k es h
held-same_key j k (rel_wheel v ∷ es) h = held-same_key j k es h
held-same_key j k (msc_serial n ∷ es) h = held-same_key j k es h
held-same_key j k (sync ∷ es) h = held-same_key j k es h

module _ (d : Packet) (k : Key) (w : Wac) (tool : is_tool k ≡ true) where
  -- These report no tool key.
  position-held : held k (position d w).posted ≡ held k w.posted
  unfolding position
  position-held = ground arith

  general-held : held k (general d w).posted ≡ held k w.posted
  unfolding general
  general-held = ground arith

  special-held : (idx : ℕ) → held k (special d idx w).posted ≡ held k w.posted
  unfolding special rotation mouse_4d mouse_i4 mouse_2d lens_cursor
  special-held idx = ground arith

  pub range-held : held k (range w).posted ≡ held k w.posted
  unfolding range
  range-held = ground arith

module _ (k : Key) (w : Wac) (tool : is_tool k ≡ true) where
  resets-held :
      (held k (reset_mouse w).posted ≡ held k w.posted)
      × (held k (reset_pen w).posted ≡ held k w.posted)
      × ((reset_mouse w).tool ≡ w.tool)
      × ((reset_pen w).tool ≡ w.tool)
  unfolding reset_mouse reset_pen
  resets-held = (ground arith, ground arith, ground arith, ground arith)

module _ (k : Key) (w : Wac) (tool : is_tool k ≡ true) where
  reset-held : (idx : ℕ) → held k (reset idx w).posted ≡ held k w.posted
  unfolding reset
  reset-held idx = ground (arith, resets-held k w tool)

pub tool-reset : (idx : ℕ) (w : Wac) → (reset idx w).tool ≡ w.tool
unfolding reset reset_mouse reset_pen
tool-reset idx w = ground arith

module _ (k : Key) (w : Wac) (tool : is_tool k ≡ true) where
  pub leave-held :
      (idx : ℕ)
      → held k (leave idx w).posted ≡ (if same_key (w.tool idx) k then false else held k w.posted)
  unfolding leave reset_axes
  leave-held idx =
      ground (arith, reset-held k (reset_axes w) tool idx, tool-reset idx (reset_axes w))

module _ (d : Packet) (w : Wac) where
  tool-position : (position d w).tool ≡ w.tool
  unfolding position
  tool-position = ground arith

  tool-general : (general d w).tool ≡ w.tool
  unfolding general
  tool-general = ground arith

  tool-special : (idx : ℕ) → (special d idx w).tool ≡ w.tool
  unfolding special rotation mouse_4d mouse_i4 mouse_2d lens_cursor
  tool-special idx = ground arith

module _ (d : Packet) (k : Key) (w : Wac) (tool : is_tool k ≡ true) where
  pub motion-held :
      (idx : ℕ)
      → held k (motion d idx w).posted ≡ (if same_key (w.tool idx) k then true else held k w.posted)
  unfolding motion
  motion-held idx =
      let w1 = position d w in
      let w2 = general d w1 in
      ground (
        arith,
        position-held d k w tool,
        general-held d k w1 tool,
        special-held d k w2 tool idx,
        tool-position d w,
        tool-general d w1,
        tool-special d w2 idx,
      )

module _ (d : Packet) (w : Wac) where
  id-position : (position d w).id ≡ w.id
  unfolding position
  id-position = ground arith

  id-general : (general d w).id ≡ w.id
  unfolding general
  id-general = ground arith

  id-special : (idx : ℕ) → (special d idx w).id ≡ w.id
  unfolding special rotation mouse_4d mouse_i4 mouse_2d lens_cursor
  id-special idx = ground arith

pub id-motion : (d : Packet) (idx : ℕ) (w : Wac) → (motion d idx w).id ≡ w.id
unfolding motion
id-motion d idx w = ground (
  arith,
  id-position d w,
  id-general d (position d w),
  id-special d (general d (position d w)) idx,
)

-- The pad keeps to `id[1]`.
pub id-pad : (d : Packet) (w : Wac) → (pad d w).id 0 ≡ w.id 0
unfolding pad pad_of pad_intuos4 pad_dtk pad_13hd pad_24hd pad_intuos5 pad_strips keys_21ux2
    keys_strips presence
id-pad d w = ground arith

pub tool-motion : (d : Packet) (idx : ℕ) (w : Wac) → (motion d idx w).tool ≡ w.tool
unfolding motion
tool-motion d idx w = ground (
  arith,
  tool-position d w,
  tool-general d (position d w),
  tool-special d (general d (position d w)) idx,
)
