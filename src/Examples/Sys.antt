-- ===== src/Examples/Sys.antt =====
-- Interfaces, descriptors and LEDs.
use linuxwacom.Prelude.{◌≡◌, ◌%◌, ◌+◌, ◌*◌, ◌++◌, refl, true, false, [], ◌∷◌, arith}
use linuxwacom.Input.{tool_pen}
use linuxwacom.Wacom.{Kind, Packet}
use linuxwacom.Sys.Probe.{World, Answers, probe}
use linuxwacom.Sys.Probe.Clean.{Restores, probe-Restores}
use linuxwacom.Sys.Life.{
  Device, Reach, start, later, opens, completes, closes, resumes, Status, open_device, close,
  resume, sys_irq, bound,
}
use linuxwacom.Sys.Life.Sleeps.{closed-quiet}
use linuxwacom.Sys.Hid.{Layout, parse, reading}
use linuxwacom.Sys.Hid.Within.{is_some, Fits, parse-is_some}
use linuxwacom.Sys.Hid.Items.{encode}
use linuxwacom.Sys.Hid.Sizes.{Panel, touch_items}
use linuxwacom.Sys.Leds.{Led, select_store}
use linuxwacom.Sys.Leds.Selected.{text, number, select_store_digits}
use linuxwacom.Examples.{fresh, bytes, core}
use linuxwacom.Wacom

-- The pen of a Bamboo is bound, and the registration of its touch interface fails.
abbrev world : World
world = record { wacoms = 1; inputs = 1; buffers = 1; urbs = 1; groups = 0; shared = (7, 1) ∷ [] }

abbrev answers : Answers
answers = record {
  has_info = true;
  wacom_there = true;
  input_there = true;
  short = true;
  buffer_there = true;
  urb_there = true;
  descriptor_read = true;
  packet_size = 20;
  shared_there = true;
  group_there = true;
  registered = false;
}

probe-Restores_example :
    Restores Wacom.Kind.bamboo_pt 7 world (probe answers Wacom.Kind.bamboo_pt 7 world)
probe-Restores_example =
    probe-Restores answers Wacom.Kind.bamboo_pt 7 world refl refl refl (ground arith, refl)

-- A device that was opened, has got a packet and was closed.
abbrev packet : Packet
packet = bytes (2 ∷ 0x80 ∷ [])

abbrev used : Device
used = close (
    sys_irq core packet 10 Status.success true
      (open_device true true (bound (fresh Wacom.Kind.graphire))).0)

used-Reach : Reach core (fresh Wacom.Kind.graphire) used
unfolding open_device sys_irq
used-Reach =
    later
      (later (later start (opens true true refl refl))
        (completes packet 10 Status.success true refl refl))
      (closes refl refl)

closed-quiet_example : (resume true used).wac ≡ used.wac
unfolding close
closed-quiet_example =
    closed-quiet core (fresh Wacom.Kind.graphire) used (resume true used) used-Reach refl
      (resumes true refl)

abbrev layout : Layout
layout = record {
  device_type = tool_pen;
  pktlen = 9;
  x_max = 15360;
  y_max = 10240;
  x_phy = 12300;
  y_phy = 8200;
  pressure_max = 1023;
  unit = 0;
  unit_expo = 0;
}

descriptor-Fits : Fits (encode (touch_items Panel.bamboo layout))
descriptor-Fits = ground arith

parse-is_some_example :
    is_some
      (parse Wacom.Kind.bamboo_pt (encode (touch_items Panel.bamboo layout)) 0 (reading layout))
    ≡ true
parse-is_some_example =
    parse-is_some Wacom.Kind.bamboo_pt (encode (touch_items Panel.bamboo layout)) 0 (reading layout)
      descriptor-Fits

abbrev led : Led
led = record { select = λ i. 0; llv = 10; hlv = 20 }

select_store_digits_example :
    ((select_store 1 (text (1 ∷ 3 ∷ [])) led).select 1 ≡ number 0 (1 ∷ 3 ∷ []) % 4)
    × ((select_store 1 (text (1 ∷ 3 ∷ []) ++ 10 ∷ []) led).select 1
        ≡ (2 * number 0 (1 ∷ 3 ∷ []) + 2) % 4)
select_store_digits_example = select_store_digits (1 ∷ 3 ∷ []) 1 led
