-- ===== src/Intuos/Features.antt =====
-- `wacom_intuos_irq` keeps the features of the device.
use linuxwacom.Prelude.{ℕ, ◌≡◌, refl, when, Bool, true, false, bit_and, arith, ◌==◌}
use linuxwacom.Wacom.{Wac, Packet}
use linuxwacom.Intuos.Tools.{
  tool_index, enter, range, reset_mouse, reset_pen, reset, reset_axes, leave, inout,
}
use linuxwacom.Intuos.PadKeys.{features-pad}
use linuxwacom.Intuos.Motion.{
  general, position, rotation, mouse_4d, mouse_i4, mouse_2d, lens_cursor, special, motion,
  tool_packet, irq,
}

module _ (d : Packet) (w : Wac) where
  features-position : (position d w).features ≡ w.features
  unfolding position
  features-position = ground arith

  features-general : (general d w).features ≡ w.features
  unfolding general
  features-general = ground arith

  features-special : (idx : ℕ) → (special d idx w).features ≡ w.features
  unfolding special rotation mouse_4d mouse_i4 mouse_2d lens_cursor
  features-special idx = ground arith

pub features-motion : (d : Packet) (idx : ℕ) (w : Wac) → (motion d idx w).features ≡ w.features
unfolding motion
features-motion d idx w = ground (
  arith,
  features-position d w,
  features-general d (position d w),
  features-special d (general d (position d w)) idx,
)

features-reset_pen : (w : Wac) → (reset_pen w).features ≡ w.features
unfolding reset_pen
features-reset_pen w = ground arith

pub features-leave : (idx : ℕ) (w : Wac) → (leave idx w).features ≡ w.features
unfolding leave reset reset_axes reset_mouse
features-leave idx w = ground (arith, features-reset_pen (reset_axes w))

features-range : (b : Bool) (w : Wac) → (when b range w).features ≡ w.features
unfolding range
features-range true w = refl
features-range false w = refl

features-inout : (d : Packet) (w : Wac) → (inout d w).0.features ≡ w.features
unfolding inout enter
features-inout d w = ground (
  arith,
  features-range (bit_and (d 1) 0xfe == 0x20) w,
  features-leave (tool_index d w) (when (bit_and (d 1) 0xfe == 0x20) range w),
)

pub features-irq : (d : Packet) (w : Wac) → (irq d w).0.features ≡ w.features
unfolding irq tool_packet
features-irq d w =
    ground (
      arith,
      features-inout d w,
      features-motion d (tool_index d w) (inout d w).0,
      features-pad d w,
    )
