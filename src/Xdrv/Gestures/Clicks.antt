-- ===== src/Xdrv/Gestures/Clicks.antt =====
-- The gestures of src/xdrv/wcmTouchFilter.c leave no button and no key down.
use linuxwacom.Prelude.{
  ℕ, zero, suc, ◌-◌, ◌==◌, ◌≡◌, refl, Bool, true, false, not, ◌&&◌, List, [], ◌∷◌, if◌then◌else◌,
  nonzero, flag, arith,
}
use linuxwacom.Prelude.Int.{ℤ, pos, ltb_ℤ}
use linuxwacom.Xdrv.Gestures.{
  finger_tap_to_click, first_finger_click, lag, second_finger_in, first_finger_in, leave,
  two_fingers, active, gesture, gesture_filter,
}
use linuxwacom.Xdrv.Gestures.State.{
  Keysym, control_l, plus, minus, Post, button, keysym, prox_out, Fingers, Gesture, post,
  send_click, repeat, tap_mode, scroll_up, scroll_down, scroll_left, scroll_right,
}
use linuxwacom.Xdrv.Gestures.Scroll.{
  points_in_line, moved_x, moved_y, steps, send_scroll_event, enter_scroll, scroll, finger_scroll,
}
use linuxwacom.Xdrv.Gestures.Zoom.{enter_zoom, zoom, finger_zoom}

abbrev pub same_keysym : Keysym → Keysym → Bool
same_keysym control_l control_l = true
same_keysym plus plus = true
same_keysym minus minus = true
same_keysym _ _ = false

-- Whether what was last posted of a button, of a key, says that it is down.
abbrev pub button_down : ℕ → List Post → Bool
button_down n [] = false
button_down n (button m state ∷ ps) = if m == n then nonzero state else button_down n ps
button_down n (keysym _ _ ∷ ps) = button_down n ps
button_down n (prox_out ∷ ps) = button_down n ps

abbrev pub key_down : Keysym → List Post → Bool
key_down k [] = false
key_down k (button _ _ ∷ ps) = key_down k ps
key_down k (keysym j state ∷ ps) = if same_keysym j k then nonzero state else key_down k ps
key_down k (prox_out ∷ ps) = key_down k ps

-- Neither the button nor the key is down.
unfoldable pub released : ℕ → Keysym → List Post → Bool
released n k ps = not (button_down n ps) && not (key_down k ps)

module _ (n : ℕ) (k : Keysym) where
  abbrev Keeps : Gesture → Gesture → Type 0
  Keeps g g' = released n k g.posted ≡ true → released n k g'.posted ≡ true

  lift-released : (m : ℕ) (g : Gesture) → Keeps g (send_click m 0 g)
  unfolding released send_click post
  lift-released m g h = ground (arith, h)

  click-released : (m : ℕ) (g : Gesture) → Keeps g (send_click m 0 (send_click m 1 g))
  unfolding released send_click post
  click-released m g h = ground (arith, h)

  clicks-released :
      (m count : ℕ) (g : Gesture)
      → Keeps g (repeat (λ pressed. send_click m (flag pressed)) count g)
  unfolding repeat
  clicks-released m zero g h = h
  clicks-released m (suc count) g h =
      clicks-released m count (send_click m 0 (send_click m 1 g)) (click-released m g h)

  send_scroll_event-released :
      (f : Fingers) (dist : ℤ) (up down : ℕ) (g : Gesture)
      → Keeps g (send_scroll_event f dist up down g)
  unfolding send_scroll_event
  send_scroll_event-released f dist up down g h =
      let m = if ltb_ℤ (pos 0) dist then up else down in
      ground (arith, h, clicks-released m (steps dist f.scroll_distance - g.used) g h)

  enter_scroll-released : (f : Fingers) (g : Gesture) → Keeps g (enter_scroll f g)
  unfolding enter_scroll
  enter_scroll-released f g h =
      let (first, direction0) = points_in_line g.direction f.ds0 g.initial0 in
      let (second, direction1) = points_in_line direction0 f.ds1 g.initial1 in
      let s = record g { direction = if first then direction1 else direction0 } in
      ground (arith, h, lift-released 1 s h)

  scroll-released : (f : Fingers) (g : Gesture) → Keeps g (scroll f g)
  unfolding scroll
  scroll-released f g h = ground (
    arith,
    h,
    send_scroll_event-released f (moved_y f g) scroll_up scroll_down g h,
    send_scroll_event-released f (moved_x f g) scroll_right scroll_left g h,
  )

  finger_scroll-released : (f : Fingers) (g : Gesture) → Keeps g (finger_scroll f g)
  unfolding finger_scroll
  finger_scroll-released f g h =
      let entered = enter_scroll-released f g h in
      ground (arith, entered, scroll-released f (enter_scroll f g) entered)

  finger_tap_to_click-released : (f : Fingers) (g : Gesture) → Keeps g (finger_tap_to_click f g)
  unfolding finger_tap_to_click
  finger_tap_to_click-released f g h =
      let s = record (send_click 1 0 g) { mode = tap_mode } in
      ground (arith, h, click-released 3 s (lift-released 1 g h))

  lag-released : (f : Fingers) (g : Gesture) → Keeps g (lag f g)
  unfolding lag
  lag-released f g h = ground (arith, h)

  second_finger_in-released : (f : Fingers) (g : Gesture) → Keeps g (second_finger_in f g)
  unfolding second_finger_in
  second_finger_in-released f g h = ground (arith, h)

  first_finger_in-released : (f : Fingers) (g : Gesture) → Keeps g (first_finger_in f g)
  unfolding first_finger_in
  first_finger_in-released f g h = ground (arith, h)

  leave-released : (f : Fingers) (g : Gesture) → Keeps g (leave f g)
  unfolding leave post released
  leave-released f g h = ground (arith, h)

  enter_zoom-released : (f : Fingers) (g : Gesture) → Keeps g (enter_zoom f g)
  unfolding enter_zoom
  enter_zoom-released f g h = ground (arith, h, lift-released 1 g h)

  -- The strokes of a key with Control.

  strokes-buttons :
      (j : Keysym) (count : ℕ) (g : Gesture)
      → button_down n (repeat (λ pressed. post (keysym j (flag pressed))) count g).posted
        ≡ button_down n g.posted
  unfolding repeat post
  strokes-buttons j zero g = refl
  strokes-buttons j (suc count) g =
      strokes-buttons j count (post (keysym j 0) (post (keysym j 1) g))

  strokes-keys :
      (j : Keysym) (count : ℕ) (g : Gesture)
      → key_down k g.posted ≡ false
      → key_down k (repeat (λ pressed. post (keysym j (flag pressed))) count g).posted ≡ false
  unfolding repeat post
  strokes-keys j zero g h = h
  strokes-keys j (suc count) g h =
      strokes-keys j count (post (keysym j 0) (post (keysym j 1) g)) (ground (arith, h))

  zoom-released : (f : Fingers) (g : Gesture) → Keeps g (zoom f g)
  unfolding zoom post released
  zoom-released f g h =
      let dist = f.zoomed (f.ds0, f.ds1) (g.initial0, g.initial1) in
      let j = if ltb_ℤ (pos 0) dist then plus else minus in
      let count = steps dist f.zoom_distance - g.used in
      let held = post (keysym control_l 1) g in
      ground (arith, h, strokes-buttons j count held, strokes-keys j count held)

  finger_zoom-released : (f : Fingers) (g : Gesture) → Keeps g (finger_zoom f g)
  unfolding finger_zoom
  finger_zoom-released f g h =
      let entered = enter_zoom-released f g h in
      ground (arith, entered, zoom-released f (enter_zoom f g) entered)

  two_fingers-released : (f : Fingers) (g : Gesture) → Keeps g (two_fingers f g)
  unfolding two_fingers
  two_fingers-released f g h =
      let scrolled = finger_scroll-released f g h in
      ground (
        arith,
        h,
        scrolled,
        finger_zoom-released f g h,
        finger_zoom-released f (finger_scroll f g) scrolled,
      )

  active-released : (f : Fingers) (g : Gesture) → Keeps g (active f g)
  unfolding active
  active-released f g h =
      let tapped = finger_tap_to_click f g in
      let up = finger_tap_to_click-released f g h in
      ground (arith, h, up, two_fingers-released f g h, two_fingers-released f tapped up)

  gesture-released : (f : Fingers) (channel : ℕ) (g : Gesture) → Keeps g (gesture f channel g)
  unfolding gesture
  gesture-released f channel g h =
      let lagged = lag f g in
      let second = second_finger_in f lagged in
      let first = first_finger_in f second in
      let up =
        first_finger_in-released f second
          (second_finger_in-released f lagged (lag-released f g h)) in
      ground (arith, up, leave-released f first up, active-released f first up)

  first_finger_click-released : (f : Fingers) (g : Gesture) → Keeps g (first_finger_click f g)
  unfolding first_finger_click
  first_finger_click-released f g h = ground (arith, h)

  filter-released : (f : Fingers) (channel : ℕ) (g : Gesture) → Keeps g (gesture_filter f channel g)
  unfolding gesture_filter
  filter-released f channel g h =
      let s = if f.enabled then gesture f channel g else g in
      let up : released n k s.posted ≡ true = ground (arith, h, gesture-released f channel g h) in
      ground (arith, up, first_finger_click-released f s up)

-- The calls of the gesture filter, in order, with what each one reads and its channel.
abbrev pub calls : List (Fingers × ℕ) → Gesture → Gesture
calls [] g = g
calls ((f, channel) ∷ cs) g = calls cs (gesture_filter f channel g)

-- However the fingers move and whatever the settings are, after any calls of the gesture filter no
-- button and no key is down of what it posted, if none was before.
pub calls-released :
    (n : ℕ) (k : Keysym) (cs : List (Fingers × ℕ)) (g : Gesture)
    → released n k g.posted ≡ true
    → released n k (calls cs g).posted ≡ true
calls-released n k [] g h = h
calls-released n k ((f, channel) ∷ cs) g h =
    calls-released n k cs (gesture_filter f channel g) (filter-released n k f channel g h)
