-- ===== src/Xdrv/Wheels/Direction.antt =====
-- The direction in which a ring has turned, from its position in the kernel to the action that is sent.
use linuxwacom.Prelude.{ℕ, ◌+◌, ◌*◌, ◌≤◌, ◌≡◌, true, ◌&&◌, ◌||◌, leb, ltb, arith}
use linuxwacom.Prelude.Int.{ℤ, pos, ◌-ℤ◌, ◌+ℤ◌, ◌*ℤ◌, ltb_ℤ}
use linuxwacom.Xdrv.Events.{apart}
use linuxwacom.Xdrv.Filter.{quotient}
use linuxwacom.Xdrv.Usb.Axes.{scaled, max_abs_wheel}
use linuxwacom.Xdrv.Wheels.{wheel_value}

-- A position of the ring, as `usbParseChannel` scales it.
abbrev pub on_ring : ℕ → ℤ
on_ring p = scaled (pos p) max_abs_wheel

on_ring_lem : (p : ℕ) → p ≤ 71 → on_ring p ≡ pos (2 * p)
unfolding scaled quotient ◌*ℤ◌
on_ring_lem p h = ground (arith, h)

-- A ring of 72 positions that turns from the position `p` to `q` counts as turned up exactly if it went
-- down by 1 to 17 or by 36 and more, or went up by 18 to 35.
pub wheel_value_sign :
    (p q : ℕ)
    → p ≤ 71
    → q ≤ 71
    → ltb_ℤ (pos 0) (wheel_value true (on_ring p) (on_ring q))
      ≡ (ltb q p && (leb p (q + 17) || leb (q + 36) p) || leb (p + 18) q && leb q (p + 35))
unfolding wheel_value apart ◌-ℤ◌ ◌+ℤ◌
wheel_value_sign p q hp hq = rw (on_ring_lem p hp, on_ring_lem q hq) (ground (arith, hp, hq))
