-- ===== src/Xdrv/Gestures.antt =====
-- src/xdrv/wcmTouchFilter.c: the gestures of two fingers, built with WCM_KEY_SENDING_SUPPORT.
pub mod Scroll
pub mod Zoom
pub mod Clicks
pub mod Modes
pub mod State
use linuxwacom.Prelude.{
  ℕ, ◌+◌, ◌-◌, ◌*◌, ◌%◌, ◌^◌, ◌==◌, Bool, true, false, not, ◌&&◌, ◌||◌, ltb, leb, bit_and, bit_or,
  if◌then◌else◌, has, nonzero, when, ◌|>◌,
}
use linuxwacom.Prelude.Int.{signed32, ◌-ℤ◌, abs_ℕ, ltb_ℤ}
use linuxwacom.Xdrv.Events.{DeviceState}
use linuxwacom.Xdrv.Gestures.State.{
  Fingers, Gesture, near, soft_out, send_click, tap_mode, scroll_mode, zoom_mode, lag_mode, since,
}
use linuxwacom.Xdrv.Gestures.Scroll.{finger_scroll}
use linuxwacom.Xdrv.Gestures.Zoom.{finger_zoom}

-- `xf86WcmFingerTapToClick`
unfoldable pub finger_tap_to_click : Fingers → Gesture → Gesture
finger_tap_to_click f g =
    when
      (ltb_ℤ (signed32 f.ds0.sample) (signed32 f.ds1.sample)
        && leb (since f.time f.last1.sample) f.tap_time
        && not (near f.ds1)
        && near f.last1)
      (λ s.
        s
        |> send_click 1 0
        |> (λ t. record t { mode = tap_mode })
        |> send_click 3 1
        |> send_click 3 0)
      g

-- `xf86WcmFirstFingerClick`: it changes the buttons of the state of the first finger, and keeps the time
-- when the finger left in its static `tmpStamp`.
unfoldable pub first_finger_click : Fingers → Gesture → Gesture
first_finger_click f g =
    if near f.ds0
    then (if g.touchpad
        then record g { buttons = bit_or g.buttons 1 }
        else if not (near f.last0)
            && leb (abs_ℕ (signed32 g.stamp -ℤ signed32 f.ds0.sample)) f.tap_time
        then record g { buttons = bit_or g.buttons 1; touchpad = true }
        else g)
    else record g {
      stamp = f.time;
      buttons = if g.touchpad then bit_and g.buttons (2 ^ 32 - 2) else g.buttons;
      touchpad = false;
    }

-- The mode by the time that the fingers have been there.
unfoldable pub lag : Fingers → Gesture → Gesture
lag f g =
    if near f.ds1 && g.mode == 0 && near f.last0
    then record g { touchpad = false; mode = lag_mode }
    else if near f.last0 && ltb (since f.time f.ds0.sample) 10
    then (if g.mode == 0 then record g { mode = lag_mode } else g)
    else if g.mode == lag_mode
    then record g { mode = 0 }
    else g

-- "keep the initial states for gesture mode"
unfoldable pub second_finger_in : Fingers → Gesture → Gesture
second_finger_in f g =
    when (near f.ds1 && not (near f.last1)) (λ s. record s { initial1 = f.ds1; used = 0 }) g

unfoldable pub first_finger_in : Fingers → Gesture → Gesture
first_finger_in f g =
    when (near f.ds0 && not (near f.last0)) (λ s. record s { initial0 = f.ds0; used = 0 }) g

-- Both fingers are out.
unfoldable pub leave : Fingers → Gesture → Gesture
leave f g =
    let s = when (not (near f.last0) && nonzero g.mode) soft_out g in
    record s { mode = 0; direction = 0; touchpad = false }

-- "was in zoom mode", "was in scroll mode", or "complex two finger gestures".
unfoldable pub two_fingers : Fingers → Gesture → Gesture
two_fingers f g =
    if has g.mode zoom_mode && near f.ds0 && near f.ds1
    then finger_zoom f g
    else if has g.mode scroll_mode
    then finger_scroll f g
    else if ltb (2 * f.tap_time) (since f.time f.ds0.sample)
        && ltb (2 * f.tap_time) (since f.time f.ds1.sample)
        && near f.ds0
        && near f.ds1
    then (let s = finger_scroll f g in if has s.mode scroll_mode then s else finger_zoom f s)
    else g

-- A finger is there: a tap, or a gesture of two fingers.
unfoldable pub active : Fingers → Gesture → Gesture
active f g =
    let s = when (not (has g.mode (scroll_mode + zoom_mode))) (finger_tap_to_click f) g in
    if has s.mode tap_mode || not (near f.last0) || not (near f.last1) then s else two_fingers f s

-- What stands before the label `ret`, while gestures are enabled.
unfoldable pub gesture : Fingers → ℕ → Gesture → Gesture
gesture f channel g =
    let s = g |> lag f |> second_finger_in f |> first_finger_in f in
    if near f.ds0 && not (near f.last0) && s.mode == 0 && channel == 0
    then s
    else if not (near f.ds0) && not (near f.ds1)
    then leave f s
    else active f s

-- `xf86WcmGestureFilter`, of a touch device.
unfoldable pub gesture_filter : Fingers → ℕ → Gesture → Gesture
gesture_filter f channel g =
    let s = if f.enabled then gesture f channel g else g in
    when (s.mode == 0 && channel == 0 && not f.absolute) (first_finger_click f) s
