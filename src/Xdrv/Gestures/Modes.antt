-- ===== src/Xdrv/Gestures/Modes.antt =====
-- The modes of the gestures of src/xdrv/wcmTouchFilter.c, and how many clicks a scroll sends.
use linuxwacom.Prelude.{
  ℕ, zero, suc, ◌+◌, ◌-◌, ◌≤◌, ◌==◌, ◌≡◌, refl, ◌∙◌, Bool, true, false, ◌&&◌, ◌||◌, List, [], ◌∷◌,
  if◌then◌else◌, nonzero, flag, ltb, leb, arith, Bool-cases, inl, inr,
}
use linuxwacom.Prelude.Int.{ℤ, pos, ltb_ℤ}
use linuxwacom.Xdrv.Gestures.{
  finger_tap_to_click, first_finger_click, lag, second_finger_in, first_finger_in, leave,
  two_fingers, active, gesture, gesture_filter,
}
use linuxwacom.Xdrv.Gestures.State.{
  Keysym, control_l, plus, minus, Post, button, keysym, prox_out, Fingers, Gesture, post,
  send_click, repeat, near, tap_mode, scroll_mode, zoom_mode, lag_mode, scroll_up, scroll_down,
  scroll_left, scroll_right,
}
use linuxwacom.Xdrv.Gestures.Scroll.{
  moved_x, moved_y, steps, send_scroll_event, enter_scroll, scroll, finger_scroll,
}
use linuxwacom.Xdrv.Gestures.Zoom.{enter_zoom, zoom, finger_zoom}

-- How often a button has gone down.
abbrev pub presses : ℕ → List Post → ℕ
presses n [] = 0
presses n (button m state ∷ ps) =
    let rest = presses n ps in if m == n && nonzero state then rest + 1 else rest
presses n (keysym _ _ ∷ ps) = presses n ps
presses n (prox_out ∷ ps) = presses n ps

clicks-presses :
    (m count : ℕ) (g : Gesture)
    → presses m (repeat (λ pressed. send_click m (flag pressed)) count g).posted
      ≡ presses m g.posted + count
unfolding repeat send_click post
clicks-presses m zero g = omega arith
clicks-presses m (suc count) g =
    let next = send_click m 0 (send_click m 1 g) in
    let later = clicks-presses m count next in
    let here : presses m next.posted ≡ presses m g.posted + 1 = ground arith in
    omega (arith, later, here)

ge : (a b : ℕ) → leb a b ≡ true → a ≤ b
ge a b h = ground (arith, h)

-- The button of a scroll.
abbrev pub scroll_button : ℤ → ℕ → ℕ → ℕ
scroll_button dist up down = if ltb_ℤ (pos 0) dist then up else down

-- A scroll that has gone on since the last time sends as many clicks as steps are missing, and then has
-- sent all the steps of the distance. One that has gone back sends none and starts anew from here.
pub send_scroll_event_lem :
    (f : Fingers) (dist : ℤ) (up down : ℕ) (g : Gesture)
    → let g' = send_scroll_event f dist up down g in
      let count = steps dist f.scroll_distance in
      let n = scroll_button dist up down in
      if leb g.used count
      then (presses n g'.posted + g.used ≡ presses n g.posted + count) × (g'.used ≡ count)
      else (g'.posted ≡ g.posted) × (g'.used ≡ 0) × (g'.initial0 ≡ f.ds0) × (g'.initial1 ≡ f.ds1)
unfolding send_scroll_event
send_scroll_event_lem f dist up down g =
    let count = steps dist f.scroll_distance in
    let n = scroll_button dist up down in
    elim (Bool-cases (leb g.used count)) [
      | inl e ↦
          (let on : ltb count g.used ≡ false = ground (arith, e) in
            rw (e, on)
              (omega (arith, clicks-presses n (count - g.used) g, ge g.used count e), refl))
      | inr e ↦
          (let back : ltb count g.used ≡ true = ground (arith, e) in
            rw (e, back) (refl, refl, refl, refl))
    ]

-- The modes of the code: none, a tap, a scroll, a zoom, or the lag before the second finger.
abbrev pub is_mode : ℕ → Bool
is_mode m = m == 0 || m == tap_mode || m == scroll_mode || m == zoom_mode || m == lag_mode

clicks-mode :
    (m count : ℕ) (g : Gesture)
    → (repeat (λ pressed. send_click m (flag pressed)) count g).mode ≡ g.mode
unfolding repeat send_click post
clicks-mode m zero g = refl
clicks-mode m (suc count) g =
    let next = send_click m 0 (send_click m 1 g) in
    let here : next.mode ≡ g.mode = ground arith in clicks-mode m count next ∙ here

strokes-mode :
    (k : Keysym) (count : ℕ) (g : Gesture)
    → (repeat (λ pressed. post (keysym k (flag pressed))) count g).mode ≡ g.mode
unfolding repeat post
strokes-mode k zero g = refl
strokes-mode k (suc count) g = strokes-mode k count (post (keysym k 0) (post (keysym k 1) g))

send_scroll_event-mode :
    (f : Fingers) (dist : ℤ) (up down : ℕ) (g : Gesture)
    → (send_scroll_event f dist up down g).mode ≡ g.mode
unfolding send_scroll_event
send_scroll_event-mode f dist up down g = ground (
  arith,
  clicks-mode (if ltb_ℤ (pos 0) dist then up else down) (steps dist f.scroll_distance - g.used) g,
)

finger_scroll-mode :
    (f : Fingers) (g : Gesture) → is_mode g.mode ≡ true → is_mode (finger_scroll f g).mode ≡ true
unfolding finger_scroll enter_scroll scroll send_click post
finger_scroll-mode f g h =
    let s = enter_scroll f g in
    ground (
      arith,
      h,
      send_scroll_event-mode f (moved_y f s) scroll_up scroll_down s,
      send_scroll_event-mode f (moved_x f s) scroll_right scroll_left s,
    )

zoom-mode : (f : Fingers) (g : Gesture) → (zoom f g).mode ≡ g.mode
unfolding zoom post
zoom-mode f g =
    let dist = f.zoomed (f.ds0, f.ds1) (g.initial0, g.initial1) in
    let k = if ltb_ℤ (pos 0) dist then plus else minus in
    ground
      (arith, strokes-mode k (steps dist f.zoom_distance - g.used) (post (keysym control_l 1) g))

enter_zoom-mode :
    (f : Fingers) (g : Gesture) → is_mode g.mode ≡ true → is_mode (enter_zoom f g).mode ≡ true
unfolding enter_zoom
enter_zoom-mode f g h = ground (arith, h)

finger_zoom-mode :
    (f : Fingers) (g : Gesture) → is_mode g.mode ≡ true → is_mode (finger_zoom f g).mode ≡ true
unfolding finger_zoom
finger_zoom-mode f g h = ground (arith, enter_zoom-mode f g h, zoom-mode f (enter_zoom f g))

two_fingers-mode :
    (f : Fingers) (g : Gesture) → is_mode g.mode ≡ true → is_mode (two_fingers f g).mode ≡ true
unfolding two_fingers
two_fingers-mode f g h =
    let scrolled = finger_scroll-mode f g h in
    ground
      (arith, h, scrolled, finger_zoom-mode f g h, finger_zoom-mode f (finger_scroll f g) scrolled)

finger_tap_to_click-mode :
    (f : Fingers) (g : Gesture)
    → is_mode g.mode ≡ true
    → is_mode (finger_tap_to_click f g).mode ≡ true
unfolding finger_tap_to_click send_click post
finger_tap_to_click-mode f g h = ground (arith, h)

active-mode : (f : Fingers) (g : Gesture) → is_mode g.mode ≡ true → is_mode (active f g).mode ≡ true
unfolding active
active-mode f g h =
    let tapped = finger_tap_to_click f g in
    let kept = finger_tap_to_click-mode f g h in
    ground (arith, h, kept, two_fingers-mode f g h, two_fingers-mode f tapped kept)

lag-mode : (f : Fingers) (g : Gesture) → is_mode g.mode ≡ true → is_mode (lag f g).mode ≡ true
unfolding lag
lag-mode f g h = ground (arith, h)

fingers_in-mode :
    (f : Fingers) (g : Gesture)
    → is_mode g.mode ≡ true
    → is_mode (first_finger_in f (second_finger_in f g)).mode ≡ true
unfolding first_finger_in second_finger_in
fingers_in-mode f g h = ground (arith, h)

first_finger_click-mode : (f : Fingers) (g : Gesture) → (first_finger_click f g).mode ≡ g.mode
unfolding first_finger_click
first_finger_click-mode f g = ground arith

gesture-mode :
    (f : Fingers) (channel : ℕ) (g : Gesture)
    → is_mode g.mode ≡ true
    → is_mode (gesture f channel g).mode ≡ true
unfolding gesture leave
gesture-mode f channel g h =
    let s = first_finger_in f (second_finger_in f (lag f g)) in
    let kept = fingers_in-mode f (lag f g) (lag-mode f g h) in
    ground (arith, kept, active-mode f s kept)

-- The gesture filter keeps the mode one of the five.
filter-mode :
    (f : Fingers) (channel : ℕ) (g : Gesture)
    → is_mode g.mode ≡ true
    → is_mode (gesture_filter f channel g).mode ≡ true
unfolding gesture_filter
filter-mode f channel g h =
    let s = if f.enabled then gesture f channel g else g in
    ground (arith, h, gesture-mode f channel g h, first_finger_click-mode f s)

both_out :
    (f : Fingers) (channel : ℕ) (g : Gesture)
    → f.enabled ≡ true
    → near f.ds0 ≡ false
    → near f.ds1 ≡ false
    → let g' = gesture_filter f channel g in
      (g'.mode ≡ 0) × (g'.direction ≡ 0) × (g'.touchpad ≡ false)
unfolding gesture_filter gesture leave first_finger_click
both_out f channel g on out0 out1 = ground (arith, on, out0, out1)

-- After a call of the gesture filter with gestures enabled, the mode is one of the five, if it was
-- before; and with both fingers out there is no mode, no direction and no touchpad drag left.
pub gesture_filter-modes :
    (f : Fingers) (channel : ℕ) (g : Gesture)
    → f.enabled ≡ true
    → is_mode g.mode ≡ true
    → let g' = gesture_filter f channel g in
      if near f.ds0 || near f.ds1
      then is_mode g'.mode ≡ true
      else (g'.mode ≡ 0) × (g'.direction ≡ 0) × (g'.touchpad ≡ false)
gesture_filter-modes f channel g on h = elim (Bool-cases (near f.ds0 || near f.ds1)) [
  | inl some_in ↦ rw some_in (filter-mode f channel g h)
  | inr none_in ↦
      rw none_in (both_out f channel g on (ground (arith, none_in)) (ground (arith, none_in)))
]
