-- ===== src/Xdrv/Usb/State.antt =====
-- What src/xdrv/wcmUSB.c reads and writes of `WacomCommonRec` (src/xdrv/xf86WacomDefs.h), and what it
-- has from outside: the kernel's answers to ioctl, the clock and `xf86WcmEvent`.
use linuxwacom.Prelude.{ℕ, ◌∷◌, Bool, List, Option, update}
use linuxwacom.Prelude.Int.{ℤ, pos}
use linuxwacom.Input.{Key, Axis, Event}
use linuxwacom.Xdrv.Events.{DeviceState}

abbrev pub max_channels : ℕ
max_channels = 3

abbrev pub max_usb_events : ℕ
max_usb_events = 32

-- The serial number -1 of a pad, as its pattern of 32 bits.
abbrev pub no_serial : ℕ
no_serial = 0xffffffff

-- `WacomChannel`, without what only the filters use of it: `valid` is `valid.state`.
pub record Channel : Type 0 where
  pub work : DeviceState
  pub valid : DeviceState

-- What is set up once: `wcmProtocolLevel`, whether `wcmModel->name` has "Intuos1" or "Intuos2" in it,
-- `tablet_id`, `wcmTouch`, `wcmMaxtiltX`, `wcmMaxtiltY`, and `wcmTool` as pairs of a serial number and a
-- type.
pub record Setup : Type 0 where
  pub protocol : ℕ
  pub dual : Bool
  pub tablet_id : ℕ
  pub touch : Bool
  pub max_tilt_x : ℕ
  pub max_tilt_y : ℕ
  pub tools : List (ℕ × ℕ)

-- What is not under src/xdrv/wcmUSB.c: EVIOCGKEY and EVIOCGABS (`none` where the call fails),
-- `GetTimeInMillis`, and what `xf86WcmEvent` leaves in `valid.state` of a channel, of its number, the
-- state before and the report.
pub record Outside : Type 0 where
  pub key_down : Key → Bool
  pub axis : Axis → Option ℤ
  pub time : ℕ
  pub accept : ℕ → DeviceState → DeviceState → DeviceState

-- The state: `wcmChannel`, the first `wcmEventCnt` of `wcmEvents` in order, `wcmLastToolSerial` as a
-- pattern of 32 bits, USE_SYN_REPORTS, the static `syslast` (a pointer to the working state of a
-- channel) as the number of its channel, and the calls of `xf86WcmEvent`, the newest first.
pub record Common : Type 0 where
  pub channels : ℕ → Channel
  pub events : List Event
  pub last_serial : ℕ
  pub syn_reports : Bool
  pub syslast : Option ℕ
  pub dispatched : List (ℕ × DeviceState)

-- The state that a `memset` to 0 leaves.
abbrev pub blank : DeviceState
blank = record {
  device_id = 0;
  device_type = 0;
  serial_num = 0;
  buttons = 0;
  proximity = 0;
  stripx = pos 0;
  stripy = pos 0;
  x = pos 0;
  y = pos 0;
  tiltx = pos 0;
  tilty = pos 0;
  pressure = pos 0;
  throttle = pos 0;
  rotation = pos 0;
  abswheel = pos 0;
  abswheel2 = pos 0;
  relwheel = pos 0;
  distance = pos 0;
  sample = 0;
}

-- `*ds = ...`, where `ds` points to the working state of a channel.
abbrev pub put : ℕ → DeviceState → Common → Common
put c ds s = record s { channels = update s.channels c (record (s.channels c) { work = ds }) }

-- `xf86WcmEvent(common, c, &common->wcmChannel[c].work)`
unfoldable pub xf86_wcm_event : Outside → ℕ → Common → Common
xf86_wcm_event o c s =
    let ch = s.channels c in
    record s {
      channels = update s.channels c (record ch { valid = o.accept c ch.valid ch.work });
      dispatched = (c, ch.work) ∷ s.dispatched;
    }
