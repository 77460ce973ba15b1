-- ===== src/Examples/Buttons.antt =====
-- The buttons of a tool at concrete inputs.
use linuxwacom.Prelude.{ℕ, ◌+◌, ◌%◌, ◌==◌, ◌≡◌, refl, Bool, true, false, [], ◌∷◌, arith}
use linuxwacom.Prelude.Int.{pos}
use linuxwacom.Xdrv.Wheels.{Action}
use linuxwacom.Xdrv.Wheels.Balance.{button_down, key_down}
use linuxwacom.Xdrv.SendButton.{Tablet}
use linuxwacom.Xdrv.SendButton.Release.{click, click-up}
use linuxwacom.Xdrv.SendButton.Screens.{clicks, IsOn, clicks-IsOn}

-- XK_Control_L
abbrev control : ℕ
control = 0xffe3

abbrev is_control : ℕ → Bool
is_control k = k == control

-- AC_KEY with AC_CORE and two keys, and AC_SCREENTOGGLE.
abbrev copy : Action
copy = record { code = 0x10210000; keys = control ∷ 0x63 ∷ [] }

abbrev toggle : Action
toggle = record { code = 0x00050000; keys = [] }

-- A stylus on the second of three screens.
abbrev tablet : Tablet
tablet = record {
  tool = record {
    is_pad = false;
    is_absolute = true;
    is_core = true;
    screen_no = pos 1;
    current_screen = pos 1;
    num_screen = pos 3;
  };
  others = [];
  posts = [];
}

tablet-IsOn : IsOn 3 1 tablet
tablet-IsOn = record {
  no_pad = refl;
  several = omega arith;
  screens = refl;
  within = omega arith;
  screen = refl;
}

click-up_example :
    (button_down control (click is_control copy tablet).posts ≡ false)
    × (key_down control (click is_control copy tablet).posts ≡ false)
click-up_example = click-up is_control control copy tablet refl refl

-- Two clicks lead over the last screen to the first one.
clicks-IsOn_example : IsOn 3 ((1 + 2) % 3) (clicks is_control toggle 2 tablet)
clicks-IsOn_example = clicks-IsOn is_control toggle refl 3 2 1 tablet tablet-IsOn
