-- ===== src/Examples.antt =====
-- Concrete devices and packets, for the examples: the theorems at inputs where their conditions hold.
pub mod Touch
pub mod Pens
pub mod Tools
pub mod Pads
pub mod Server
pub mod Usb
pub mod Wheels
pub mod Events
pub mod Sys
pub mod Buttons
pub mod Serial
pub mod Areas
pub mod Gestures
use linuxwacom.Prelude.{ℕ, zero, suc, ◌<◌, List, [], ◌∷◌, All, arith, true, false}
use linuxwacom.Prelude.Int.{pos}
use linuxwacom.Input.{Key, raw, Event, tool_pen, tool_finger}
use linuxwacom.Wacom.{Kind, Features, Wac, Packet, InputCore}
use linuxwacom.Pen.Decode.{IsBytes}

abbrev pub features_of : Kind → Features
features_of model = record {
  kind = model;
  x_max = 20000;
  y_max = 15000;
  pressure_max = 1023;
  distance_max = 63;
  x_min = 0;
  y_min = 0;
  device_type = tool_pen;
  x_phy = 0;
  y_phy = 0;
}

-- A device of a model as it is allocated: every field 0, nothing posted.
abbrev pub fresh : Kind → Wac
fresh model = record {
  tool = λ i. raw 0;
  id = λ i. 0;
  serial = λ i. 0;
  last_finger = 0;
  features = features_of model;
  stylus_in_proximity = false;
  posted = [];
}

-- A packet by its bytes, 0 behind the last.
abbrev pub bytes : List ℕ → Packet
bytes [] i = 0
bytes (b ∷ bs) zero = b
bytes (b ∷ bs) (suc i) = bytes bs i

pub bytes-IsBytes : (bs : List ℕ) → All (λ b. b < 256) bs → IsBytes (bytes bs)
bytes-IsBytes [] h i = omega arith
bytes-IsBytes (b ∷ bs) h zero = h.0
bytes-IsBytes (b ∷ bs) h (suc i) = bytes-IsBytes bs h.1 i

-- An input core whose axes are all 0.
abbrev pub core : InputCore
core es a = pos 0
