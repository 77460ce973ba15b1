-- ===== src/Examples/Wheels.antt =====
-- The wheels and strips of a pad at concrete inputs.
use linuxwacom.Prelude.{
  ℕ, ◌==◌, ◌+◌, ltb, leb, ◌&&◌, ◌||◌, ◌≡◌, refl, Bool, true, false, [], ◌∷◌, arith,
}
use linuxwacom.Prelude.Int.{pos, ltb_ℤ, ◌-ℤ◌}
use linuxwacom.Xdrv.Events.{DeviceState, apart}
use linuxwacom.Xdrv.Wheels.{
  Action, Pad, button, keysym, wheel_value, choose, wheel, relative, strip, strip_loop, stroke,
  strokes, send_keystroke, send_wheel_strip_events,
}
use linuxwacom.Xdrv.Wheels.Direction.{on_ring, wheel_value_sign}
use linuxwacom.Xdrv.Wheels.Balance.{button_down, key_down, wheel_run, wheel_run-up}

-- XK_Control_L
abbrev control : ℕ
control = 0xffe3

abbrev is_control : ℕ → Bool
is_control k = k == control

-- Control and the plus sign, and button 5.
abbrev zoom_in : Action
zoom_in = record { code = 0x10210000; keys = control ∷ 0x2b ∷ [] }

abbrev button5 : Action
button5 = record { code = 5; keys = [] }

abbrev pad : Pad
pad = record {
  relup = button5;
  reldn = button5;
  wheelup = zoom_in;
  wheeldn = button5;
  wheel2up = button5;
  wheel2dn = button5;
  striplup = button5;
  stripldn = button5;
  striprup = button5;
  striprdn = button5;
  old_wheel = pos 20;
  old_wheel2 = pos 0;
  old_stripx = pos 0;
  old_stripy = pos 0;
  is_ring = true;
  is_ring2 = false;
}

-- The ring goes to the position of `v`.
abbrev turned_to : ℕ → DeviceState
turned_to v = record {
  device_id = 8;
  device_type = 8;
  serial_num = 0xf0;
  buttons = 0;
  proximity = 1;
  stripx = pos 0;
  stripy = pos 0;
  x = pos 0;
  y = pos 0;
  tiltx = pos 0;
  tilty = pos 0;
  pressure = pos 0;
  throttle = pos 0;
  rotation = pos 0;
  abswheel = pos v;
  abswheel2 = pos 0;
  relwheel = pos 0;
  distance = pos 0;
  sample = 0;
}

-- Down by two positions: control and plus are pressed and let go. Up by two: button 5.
turned_down :
    send_wheel_strip_events is_control pad (turned_to 16) []
    ≡ keysym control 0 ∷ keysym 0x2b 0 ∷ keysym 0x2b 1 ∷ keysym control 1 ∷ []
unfolding send_wheel_strip_events send_keystroke strokes stroke choose wheel relative strip
    strip_loop wheel_value apart ◌-ℤ◌
turned_down = refl

turned_up : send_wheel_strip_events is_control pad (turned_to 24) [] ≡ button 5 0 ∷ button 5 1 ∷ []
unfolding send_wheel_strip_events send_keystroke strokes stroke choose wheel relative strip
    strip_loop wheel_value apart ◌-ℤ◌
turned_up = refl

-- Control is up after the ring has gone down and up.
wheel_run-up_example :
    (button_down control (wheel_run is_control ((pad, turned_to 16) ∷ (pad, turned_to 24) ∷ []) [])
      ≡ false)
    × (key_down control (wheel_run is_control ((pad, turned_to 16) ∷ (pad, turned_to 24) ∷ []) [])
        ≡ false)
wheel_run-up_example =
    wheel_run-up is_control control ((pad, turned_to 16) ∷ (pad, turned_to 24) ∷ []) [] refl refl

-- From the last position up to the third one: it counts as turned the other way.
wheel_value_sign_example :
    ltb_ℤ (pos 0) (wheel_value true (on_ring 71) (on_ring 3))
    ≡ (ltb 3 71 && (leb 71 (3 + 17) || leb (3 + 36) 71) || leb (71 + 18) 3 && leb 3 (71 + 35))
wheel_value_sign_example = wheel_value_sign 71 3 (ground arith) (ground arith)
