-- ===== src/Examples/Usb.antt =====
-- The USB events of the X driver at concrete inputs.
use linuxwacom.Prelude.{ℕ, ◌≡◌, refl, arith, true, false, List, [], ◌∷◌, none, some}
use linuxwacom.Prelude.Int.{pos}
use linuxwacom.Prelude.Digits.{digit}
use linuxwacom.Input.{
  Event, key, abs, msc_serial, tool_pen, tool_rubber, btn_stylus, btn_0, abs_x, abs_y, abs_misc,
  abs_pressure,
}
use linuxwacom.Wacom.{graphire}
use linuxwacom.Irq
use linuxwacom.Examples.{fresh, bytes, core}
use linuxwacom.Xdrv.Usb.State.{Channel, Setup, Outside, Common, blank}
use linuxwacom.Xdrv.Usb.Channel.{parse_events}
use linuxwacom.Xdrv.Usb.Queue.{run}
use linuxwacom.Xdrv.Usb.Records.{Record, events_of, take_records, run-records}
use linuxwacom.Xdrv.Usb.Serials.{all_have_channels, run-channels}
use linuxwacom.Xdrv.Usb.Distinct.{distinct, run-distinct}
use linuxwacom.Xdrv.Usb.Buttons.{is_bamboo, button_after, parse_events-buttons}

abbrev setup : ℕ → Setup
setup level = record {
  protocol = level;
  dual = true;
  tablet_id = 0x41;
  touch = true;
  max_tilt_x = 128;
  max_tilt_y = 128;
  tools = [];
}

-- Axes that are all 0, keys that are all up, and an `xf86WcmEvent` that keeps every report.
abbrev outside : Outside
outside = record {
  key_down = λ k. false;
  axis = λ a. some (pos 0);
  time = 5;
  accept = λ c old new. new;
}

abbrev no_tools : ℕ → Channel
no_tools i = record { work = blank; valid = blank }

abbrev start : Common
start = record {
  channels = no_tools;
  events = [];
  last_serial = 0;
  syn_reports = true;
  syslast = none;
  dispatched = [];
}

-- Two tools come into proximity, and the first one leaves.
abbrev records : List Record
records =
    (key tool_pen 1 ∷ abs abs_misc (pos 0x822) ∷ abs abs_x (pos 100) ∷ msc_serial 7 ∷ [], outside)
    ∷ (
      key tool_rubber 1 ∷ abs abs_misc (pos 0x82a) ∷ abs abs_y (pos 50) ∷ msc_serial 9 ∷ [],
      outside,
    )
    ∷ (key tool_pen 0 ∷ abs abs_misc (pos 0) ∷ abs abs_x (pos 0) ∷ msc_serial 7 ∷ [], outside)
    ∷ []

run-records_example : run (setup 5) (events_of records) start ≡ take_records (setup 5) records start
run-records_example = run-records (setup 5) records start (ground arith) (refl, refl)

run-distinct_example : distinct (run (setup 5) (events_of records) start).channels ≡ true
run-distinct_example = run-distinct (setup 5) (events_of records) start refl refl refl

-- Two packets of a Graphire pen, the second with the pen away.
run-channels_example :
    all_have_channels
      (setup 4)
      no_tools
      (Irq.run core
        ((bytes (2 ∷ 0x80 ∷ 10 ∷ []), 8) ∷ (bytes (2 ∷ 0 ∷ []), 8) ∷ [])
        (fresh graphire)).posted
    ≡ true
run-channels_example =
    run-channels (setup 4) no_tools core
      ((bytes (2 ∷ 0x80 ∷ 10 ∷ []), 8) ∷ (bytes (2 ∷ 0 ∷ []), 8) ∷ []) (fresh graphire) refl refl
      refl

-- The side switch goes down and up and down, a pad key goes down.
abbrev presses : List Event
presses =
    key btn_stylus 1
    ∷ key btn_0 1
    ∷ key btn_stylus 0
    ∷ abs abs_pressure (pos 9)
    ∷ key btn_stylus 2
    ∷ []

parse_events-buttons_example :
    digit 1 (parse_events (setup 5) 5 1 presses blank).buttons
    ≡ button_after (is_bamboo (setup 5)) 1 presses (digit 1 blank.buttons)
parse_events-buttons_example = parse_events-buttons (setup 5) 5 1 1 presses blank (omega arith)
