-- ===== src/Xdrv/Serial/Port.antt =====
-- What the parsers of src/xdrv/wcmSerial.c and src/xdrv/wcmISDV4.c read and write of `WacomCommonRec`.
use linuxwacom.Prelude.{ℕ, ◌∷◌, Bool, List, update}
use linuxwacom.Prelude.Int.{pos}
use linuxwacom.Xdrv.Events.{DeviceState}
use linuxwacom.Xdrv.Usb.State.{Channel, blank}

-- What is set up once: TILT_ENABLED_FLAG, `wcmMaxtiltX`, `wcmMaxtiltY`, `wcmMaxZ`, `tablet_id` and
-- `wcmTouch`.
pub record Tablet : Type 0 where
  pub tilt : Bool
  pub max_tilt_x : ℕ
  pub max_tilt_y : ℕ
  pub max_z : ℕ
  pub tablet_id : ℕ
  pub touch : Bool

-- `GetTimeInMillis`, and what `xf86WcmEvent` leaves in `valid.state` of a channel, of its number, the
-- state before and the report.
pub record Server : Type 0 where
  pub time : ℕ
  pub accept : ℕ → DeviceState → DeviceState → DeviceState

-- The state: `wcmPktLength`, `wcmChannel`, `work.discard_first` of each channel, and the reports that
-- `xf86WcmEvent` got, with their channels, the newest first.
pub record Port : Type 0 where
  pub pkt_length : ℕ
  pub channels : ℕ → Channel
  pub discard_first : ℕ → Bool
  pub dispatched : List (ℕ × DeviceState)

-- `xf86WcmEvent(common, c, &ds)`, of a report that is in no channel.
unfoldable pub event : Server → ℕ → DeviceState → Port → Port
event v c ds p =
    let ch = p.channels c in
    record p {
      channels = update p.channels c (record ch { valid = v.accept c ch.valid ds });
      dispatched = (c, ds) ∷ p.dispatched;
    }

-- The working state of a channel, as the parser leaves it.
abbrev pub put : ℕ → DeviceState → Port → Port
put c ds p = record p { channels = update p.channels c (record (p.channels c) { work = ds }) }

-- The report is left in the channel and handed on: `xf86WcmEvent(common, c, ds)`.
abbrev pub send : Server → ℕ → DeviceState → Port → Port
send v c ds p = event v c ds (put c ds p)

-- `xf86WcmSoftOut`
unfoldable pub soft_out : Server → ℕ → Port → Port
soft_out v c p = event v c (record blank { device_type = (p.channels c).valid.device_type }) p

-- The working state, "minus relative values": RESET_RELATIVE.
abbrev pub resumed : ℕ → Port → DeviceState
resumed c p = record (p.channels c).work { relwheel = pos 0 }
