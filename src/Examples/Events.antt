-- ===== src/Examples/Events.antt =====
-- The pressure curve, the areas, the pressure and the events of tools at concrete inputs.
use linuxwacom.Prelude.{
  ℕ, ◌≤◌, ◌≡◌, refl, ◌&&◌, ◌||◌, not, true, false, Option, none, some, List, [], ◌∷◌, arith,
  nonzero,
}
use linuxwacom.Prelude.Int.{ℤ, pos}
use linuxwacom.Xdrv.Events.{DeviceState}
use linuxwacom.Xdrv.Events
use linuxwacom.Xdrv.Filter.Line.{Curve, filter_line}
use linuxwacom.Xdrv.Filter.Line.Rounded.{line, filter_line-line}
use linuxwacom.Xdrv.Filter.Line.Ends.{is_between, filter_line-ends}
use linuxwacom.Xdrv.Send
use linuxwacom.Xdrv.Send.{origin}
use linuxwacom.Xdrv.Send.Frames.{InOrder, bit-empty, send_run, send_run-InOrder}
use linuxwacom.Xdrv.Select
use linuxwacom.Xdrv.Select.{Place, is_empty, choose_area}
use linuxwacom.Xdrv.Select.Chosen.{has_position, any_in, is_some, choose_area_lem}
use linuxwacom.Xdrv.Pressure
use linuxwacom.Xdrv.Pressure.{normalize}
use linuxwacom.Xdrv.Pressure.Least.{IsLeast, least_of, normalize_bounds, least_of-IsLeast}
use linuxwacom.Xdrv.Usb.Axes.{filter_pressure_res}
use linuxwacom.Xdrv.Common.{Local, World, Setup, dispatches}
use linuxwacom.Xdrv.Common.Good.{IsGood, AllGood, dispatches-AllGood}

abbrev straight : Curve
straight i = i

filter_line-line_example :
    filter_line straight 2048 (pos 10) (pos 500) (pos 1000) (pos 20)
    ≡ some (line straight 10 500 1000 20)
filter_line-line_example =
    filter_line-line straight 2048 10 500 1000 20 (omega arith) (omega arith) (omega arith)
      (omega arith)

filter_line-ends_example :
    (c : Curve) × (filter_line straight 2048 (pos 10) (pos 500) (pos 40) (pos 20) ≡ some c)
    × (c (pos 40) ≡ pos 20)
    × ((k : ℤ) → is_between 10 40 k ≡ false → c k ≡ straight k)
filter_line-ends_example =
    filter_line-ends straight 2048 10 500 40 20 (omega arith) (omega arith) (omega arith)
      (omega arith)

-- A report of a stylus.
abbrev report : ℕ → ℕ → ℕ → ℕ → DeviceState
report near buttons x pressure = record {
  device_id = 0x822;
  device_type = 1;
  serial_num = 0;
  buttons = buttons;
  proximity = near;
  stripx = pos 0;
  stripy = pos 0;
  x = pos x;
  y = pos 70;
  tiltx = pos 0;
  tilty = pos 0;
  pressure = pos pressure;
  throttle = pos 0;
  rotation = pos 0;
  abswheel = pos 0;
  abswheel2 = pos 0;
  relwheel = pos 0;
  distance = pos 0;
  sample = 0;
}

abbrev stylus : Send.Tool
stylus = record {
  id = 1;
  absolute = true;
  buttons_only = false;
  serial = 0;
  has_proximity = true;
  rotation = Events.Rotate.cw;
  max_x = pos 1000;
  max_y = pos 800;
  device = record {
    tpc_button = false;
    is_stylus = true;
    tpc_buttons_flag = false;
    tpc_button_one_flag = false;
    old_buttons = 0;
  };
  old_proximity = 0;
  old = origin;
  current_x = pos 0;
  current_y = pos 0;
  old_device_id = 0;
  old_serial = 0;
}

-- A relative step as it is, and a relative position as it is.
abbrev as_is : Send.Tool → ℤ → ℤ
as_is t v = v

abbrev kept : Send.Tool → ℤ × ℤ → Option (ℤ × ℤ)
kept t p = some p

-- The stylus comes, presses its side switch, and goes.
abbrev reports : List DeviceState
reports = report 1 0 100 0 ∷ report 1 2 120 300 ∷ report 0 0 0 0 ∷ []

send_run-InOrder_example :
    let (ps, t') = send_run as_is as_is reports stylus in
    InOrder (nonzero stylus.old_proximity) ps (nonzero t'.old_proximity)
send_run-InOrder_example = send_run-InOrder as_is as_is reports stylus refl

-- A tool with two areas, in the first of them.
abbrev left : Place
left = record {
  area = record { top_x = pos 0; top_y = pos 0; bottom_x = pos 99; bottom_y = pos 99 };
  device = 0;
}

abbrev right : Place
right = record {
  area = record { top_x = pos 100; top_y = pos 0; bottom_x = pos 199; bottom_y = pos 99 };
  device = 1;
}

abbrev tool : Select.Tool
tool = record { typeid = 1; serial = 0; current = some left; first = left; others = right ∷ [] }

choose_area_lem_example :
    let (out, t') = choose_area (pos 150) (pos 70) tool in
    (has_position (pos 150) (pos 70) t'.current ≡ (
      has_position (pos 150) (pos 70) (some left) || any_in (pos 150) (pos 70) (left ∷ right ∷ [])))
    × (is_some out ≡ (
        is_some (some left)
        && not (has_position (pos 150) (pos 70) (some left))
        && any_in (pos 150) (pos 70) (left ∷ right ∷ [])))
choose_area_lem_example = choose_area_lem (pos 150) (pos 70) tool refl

abbrev pressure_setup : Pressure.Setup
pressure_setup = record { max_z = 1023; threshold = pos 27; no_recal = false; curve = none }

normalize_bounds_example :
    (r : ℕ) × (normalize pressure_setup (pos 23) (pos 523) ≡ pos r)
    × (r ≤ filter_pressure_res)
    × (◌≡◌ {A = ℕ} 523 1023 → r ≡ filter_pressure_res)
    × (523 ≤ 23 → r ≡ 0)
normalize_bounds_example = normalize_bounds pressure_setup 23 523 (omega arith) (omega arith)

least_of-IsLeast_example :
    IsLeast
      (least_of pressure_setup (pos 0) (pos 40) (pos 50 ∷ pos 30 ∷ []))
      (pos 40)
      (pos 50 ∷ pos 30 ∷ [])
least_of-IsLeast_example =
    least_of-IsLeast pressure_setup (pos 0) (pos 40) (pos 50 ∷ pos 30 ∷ []) refl

abbrev local : Local
local = record {
  send = stylus;
  least = pos 0;
  hard_prox = 0;
  more_flags = false;
  usable = true;
  posts = [];
}

abbrev world : World
world = record {
  tools = tool ∷ [];
  devices = λ i. local;
  counter = 0;
  max_cursor_dist = pos 0;
  touchpad = false;
}

abbrev setup : Setup
setup = record {
  pressure = pressure_setup;
  protocol_level = 5;
  proxout_dist = 42;
  touch = false;
  is_intuos = true;
  locals = 0 ∷ 1 ∷ [];
}

local-IsGood : IsGood local
local-IsGood = record {
  held = record {
    step = record { buttons = λ j lt. ground (arith, bit-empty j); one = λ up. refl };
    away = λ gone. refl;
    up = λ gone j lt. refl;
  };
  order = λ has. refl;
}

dispatches-AllGood_example :
    AllGood
      (dispatches as_is as_is kept setup ((1, report 1 2 150 300) ∷ (1, report 0 0 0 0) ∷ []) world)
dispatches-AllGood_example =
    dispatches-AllGood as_is as_is kept setup ((1, report 1 2 150 300) ∷ (1, report 0 0 0 0) ∷ [])
      world (λ i. local-IsGood)
