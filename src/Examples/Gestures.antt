-- ===== src/Examples/Gestures.antt =====
-- The gesture filter at concrete inputs.
use linuxwacom.Prelude.{ℕ, ◌≡◌, refl, true, false, [], ◌∷◌}
use linuxwacom.Prelude.Int.{pos}
use linuxwacom.Xdrv.Events.{DeviceState, none}
use linuxwacom.Xdrv.Usb.State.{blank}
use linuxwacom.Xdrv.Gestures.State.{control_l, Fingers, Gesture}
use linuxwacom.Xdrv.Gestures.Clicks.{released, calls, calls-released}

abbrev finger : ℕ → ℕ → ℕ → DeviceState
finger prox a b = record blank { proximity = prox; x = pos a; y = pos b; sample = 100 }

-- Two fingers that have come from the row 100 to the row `y`. The distances of the fingers are the same.
abbrev moved_to : ℕ → Fingers
moved_to y = record {
  ds0 = finger 1 100 y;
  ds1 = finger 1 200 y;
  last0 = finger 1 100 y;
  last1 = finger 1 200 y;
  time = 5000;
  tap_time = 250;
  scroll_distance = 20;
  zoom_distance = 50;
  enabled = true;
  absolute = false;
  rotation = none;
  max_x = pos 1000;
  max_y = pos 1000;
  apart = λ now initial. 0;
  zoomed = λ now initial. pos 0;
}

abbrev resting : Gesture
resting = record {
  mode = 0;
  touchpad = false;
  direction = 0;
  used = 0;
  initial0 = finger 1 100 100;
  initial1 = finger 1 200 100;
  stamp = 0;
  buttons = 0;
  old_buttons = 0;
  posted = [];
}

-- A scroll of five steps, and then of one more.
calls-released_example :
    released 4 control_l (calls ((moved_to 200, 0) ∷ (moved_to 220, 1) ∷ []) resting).posted ≡ true
unfolding released
calls-released_example =
    calls-released 4 control_l ((moved_to 200, 0) ∷ (moved_to 220, 1) ∷ []) resting refl
