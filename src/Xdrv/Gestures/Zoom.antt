-- ===== src/Xdrv/Gestures/Zoom.antt =====
-- `xf86WcmFingerZoom` (src/xdrv/wcmTouchFilter.c).
use linuxwacom.Prelude.{◌-◌, ◌*◌, ◌==◌, not, ◌&&◌, ltb, if◌then◌else◌, flag, when, ◌|>◌}
use linuxwacom.Prelude.Int.{pos, ltb_ℤ}
use linuxwacom.Xdrv.Gestures.State.{
  control_l, plus, minus, keysym, Fingers, Gesture, post, send_click, repeat, zoom_mode,
  inline_distance,
}
use linuxwacom.Xdrv.Gestures.Scroll.{steps, restart}

-- "two fingers moved apart from each other": the zoom mode is entered.
unfoldable pub enter_zoom : Fingers → Gesture → Gesture
enter_zoom f g =
    when
      (not (g.mode == zoom_mode)
        && ltb (3 * inline_distance) (f.apart (f.ds0, f.ds1) (g.initial0, g.initial1)))
      (λ s. s |> send_click 1 0 |> (λ t. record t { mode = zoom_mode })) g

-- The strokes of the key while Control is down.
unfoldable pub zoom : Fingers → Gesture → Gesture
zoom f g =
    let dist = f.zoomed (f.ds0, f.ds1) (g.initial0, g.initial1) in
    let count = steps dist f.zoom_distance in
    let k = if ltb_ℤ (pos 0) dist then plus else minus in
    let s =
      g
      |> post (keysym control_l 1)
      |> repeat (λ pressed. post (keysym k (flag pressed))) (count - g.used)
      |> post (keysym control_l 0) in
    if ltb count g.used then restart f g else record s { used = count }

unfoldable pub finger_zoom : Fingers → Gesture → Gesture
finger_zoom f g = let s = enter_zoom f g in if s.mode == zoom_mode then zoom f s else s
