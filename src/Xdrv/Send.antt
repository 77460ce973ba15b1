-- ===== src/Xdrv/Send.antt =====
-- `xf86WcmSendEvents` and `sendCommonEvents` (src/xdrv/wcmCommon.c): the posts for the state of a tool,
-- in a build without WCM_XORG_TABLET_SCALING.
pub mod Frames
pub mod Released
use linuxwacom.Prelude.{
  ℕ, ◌==◌, Bool, true, false, not, ◌&&◌, ◌||◌, List, [], ◌∷◌, ◌++◌, map, if◌then◌else◌, nonzero,
}
use linuxwacom.Prelude.Int.{ℤ, pos, ◌-ℤ◌}
use linuxwacom.Wacom.{same_int}
use linuxwacom.Xdrv.Buttons.{Device, Call, send_buttons}
use linuxwacom.Xdrv.Events.{DeviceState, Rotate, rotate}
use linuxwacom.Xdrv.ToolIds.{cursor_id, pad_id}

-- What is posted with an event.
pub record Axes : Type 0 where
  pub x : ℤ
  pub y : ℤ
  pub z : ℤ
  pub v3 : ℤ
  pub v4 : ℤ
  pub v5 : ℤ

-- What the server gets: proximity and motion events, the calls of `sendAButton` by index and state, and
-- those of `xf86WcmSetScreen` and `sendWheelStripEvents`.
pub data Post : Type 0 where
  proximity : Bool → Axes → Post
  motion : Axes → Post
  a_button : Call → Post
  set_screen : ℤ → ℤ → Post
  wheels : DeviceState → Post

-- The state of the tool at the last report.
pub record Old : Type 0 where
  pub x : ℤ
  pub y : ℤ
  pub z : ℤ
  pub tiltx : ℤ
  pub tilty : ℤ
  pub wheel : ℤ
  pub wheel2 : ℤ
  pub rot : ℤ
  pub stripx : ℤ
  pub stripy : ℤ
  pub throttle : ℤ

-- `DEVICE_ID(priv->flags)`, ABSOLUTE_FLAG and BUTTONS_ONLY_FLAG, the configured serial number, whether
-- the device posts proximity, the rotation with its limits, what `xf86WcmSendButtons` uses, with
-- `oldButtons`, and the rest of the state.
pub record Tool : Type 0 where
  pub id : ℕ
  pub absolute : Bool
  pub buttons_only : Bool
  pub serial : ℕ
  pub has_proximity : Bool
  pub rotation : Rotate
  pub max_x : ℤ
  pub max_y : ℤ
  pub device : Device
  pub old_proximity : ℕ
  pub old : Old
  pub current_x : ℤ
  pub current_y : ℤ
  pub old_device_id : ℕ
  pub old_serial : ℕ

abbrev pub origin : Old
origin = record {
  x = pos 0;
  y = pos 0;
  z = pos 0;
  tiltx = pos 0;
  tilty = pos 0;
  wheel = pos 0;
  wheel2 = pos 0;
  rot = pos 0;
  stripx = pos 0;
  stripy = pos 0;
  throttle = pos 0;
}

-- `tx` and `ty` of a report.
abbrev pub tilt_of : DeviceState → ℤ × ℤ
tilt_of ds = if ds.device_type == pad_id then (ds.stripx, ds.stripy) else (ds.tiltx, ds.tilty)

-- The old records of a report at a position.
unfoldable pub old_of : ℤ × ℤ → DeviceState → Old
old_of (x, y) ds = record {
  x = x;
  y = y;
  z = ds.pressure;
  tiltx = (tilt_of ds).0;
  tilty = (tilt_of ds).1;
  wheel = ds.abswheel;
  wheel2 = ds.abswheel2;
  rot = ds.rotation;
  stripx = ds.stripx;
  stripy = ds.stripy;
  throttle = ds.throttle;
}

-- The position: a tool that goes stays where it was.
unfoldable pub position : Tool → DeviceState → ℤ × ℤ
position t ds =
    if nonzero ds.proximity
    then rotate t.rotation t.max_x t.max_y (ds.x, ds.y)
    else (t.old.x, t.old.y)

abbrev pub set_buttons : ℕ → Tool → Tool
set_buttons b t = record t { device = record t.device { old_buttons = b } }

-- The current position is set, and a tool that was away gets its old records from the report.
unfoldable pub enter : ℤ × ℤ → DeviceState → Tool → Tool
enter (x, y) ds t =
    let s = record t { current_x = x; current_y = y } in
    if nonzero t.old_proximity then s else record (set_buttons 0 s) { old = old_of (x, y) ds }

-- `xf86WcmSendButtons`, with its calls of `sendAButton`.
unfoldable pub post_buttons : ℕ → Tool → List Post × Tool
post_buttons b t =
    let (calls, d) = send_buttons t.device b in (map a_button calls, record t { device = d })

abbrev pub moved : ℤ → ℤ → Bool
moved new old = not (same_int new old) && not (same_int new (pos 0)) && not (same_int old (pos 0))

-- The button events, when the state has changed, or for the first report with all buttons up.
unfoldable pub button_events : ℕ → Tool → List Post × Tool
button_events b t =
    if not (t.device.old_buttons == b) || (t.old_proximity == 0 && b == 0)
    then post_buttons b t
    else ([], t)

-- Whether a wheel or strip has something to send.
unfoldable pub has_turned : DeviceState → Old → Bool
has_turned ds old =
    not (same_int ds.relwheel (pos 0))
    || not (same_int ds.abswheel (pos 0))
    || not (same_int ds.abswheel2 (pos 0))
    || moved ds.stripx old.stripx
    || moved ds.stripy old.stripy

-- `sendCommonEvents`
unfoldable pub common_events : DeviceState → Tool → List Post × Tool
common_events ds t =
    let (events, t') = button_events ds.buttons t in
    (if has_turned ds t.old then events ++ wheels ds ∷ [] else events, t')

-- A proximity event, of a device that has them.
abbrev pub proximity_in : Axes → Tool → List Post
proximity_in a t = if t.has_proximity && t.old_proximity == 0 then proximity true a ∷ [] else []

abbrev pub proximity_out : Axes → Tool → List Post
proximity_out a t =
    if nonzero t.old_proximity && t.has_proximity then proximity false a ∷ [] else []

-- The tool is not there: its buttons go up, then it leaves.
unfoldable pub post_away : Axes → Tool → List Post × Tool
post_away a t = let (buttons, t') = post_buttons 0 t in (buttons ++ proximity_out a t, t')

-- The tool is there; `screen` and `motions` are the calls that may be left out.
unfoldable pub post_near : List Post → List Post → Axes → DeviceState → Tool → List Post × Tool
post_near screen motions a ds t =
    let (events, t') = common_events ds t in
    (screen ++ (proximity_in a t ++ (motions ++ events)), t')

abbrev pub only_if : Bool → Post → List Post
only_if true p = p ∷ []
only_if false p = []

-- The last part: what is remembered of the report.
unfoldable pub finish : ℕ → DeviceState → Tool → Tool
finish near ds t =
    let s = record t {
      old_proximity = near;
      old_device_id = ds.device_id;
      old_serial = ds.serial_num;
    } in
    if nonzero near
    then record (set_buttons ds.buttons s) { old = old_of (t.current_x, t.current_y) ds }
    else record (set_buttons 0 s) { old = origin }

abbrev pub touched : Axes → Bool
touched a =
    not (same_int a.v3 (pos 0)) || not (same_int a.v4 (pos 0)) || not (same_int a.v5 (pos 0))

-- Whether the pad is in use.
unfoldable pub in_use : Axes → DeviceState → Bool
in_use a ds =
    touched a
    || nonzero ds.buttons
    || not (same_int ds.relwheel (pos 0))
    || not (same_int ds.abswheel2 (pos 0))

-- The acceleration of a relative step and the unification of its axes are floating-point arithmetic.
module _ (accelerate : Tool → ℤ → ℤ) (unify : Tool → ℤ → ℤ) where
  -- The position as it is posted.
  unfoldable pub step_of : ℤ × ℤ → Tool → ℤ × ℤ
  step_of (x, y) t =
      if t.absolute then (x, y) else (accelerate t (x -ℤ t.old.x), accelerate t (y -ℤ t.old.y))

  -- The events of a tool that is no pad.
  unfoldable pub send_tool : ℤ × ℤ → Axes → DeviceState → Tool → List Post × Tool
  send_tool (x, y) a ds t =
      if nonzero ds.proximity
      then (let b : Axes = record a { x = if t.absolute then x else unify t x } in
          post_near (only_if (not t.buttons_only) (set_screen x y))
            (only_if (not t.buttons_only) (motion b)) b ds t)
      else post_away a t

  -- The events of a pad, which reports no position.
  unfoldable pub send_pad : Axes → DeviceState → Tool → List Post × Tool
  send_pad a ds t =
      if in_use a ds
      then (let b : Axes = record a { x = pos 0; y = pos 0 } in
          post_near (only_if (touched a) (set_screen (pos 0) (pos 0)))
            (only_if (touched a) (motion b)) b ds t)
      else post_away a t

  -- What is posted with the events at a position.
  unfoldable pub axes_of : ℤ × ℤ → DeviceState → Tool → Axes
  axes_of (x, y) ds t = record {
    x = x;
    y = y;
    z = ds.pressure;
    v3 = if t.id == cursor_id then ds.rotation else (tilt_of ds).0;
    v4 = if t.id == cursor_id then ds.throttle else (tilt_of ds).1;
    v5 = ds.abswheel;
  }

  -- The events, and whether the tool is there: `is_proximity`.
  unfoldable pub events_of : DeviceState → Tool → (List Post × Tool) × ℕ
  events_of ds t =
      let at = step_of (t.current_x, t.current_y) t in
      let a = axes_of at ds t in
      if ds.device_type == pad_id
      then (send_pad a ds t, if in_use a ds then 1 else 0)
      else (send_tool at a ds t, ds.proximity)

  -- What stands behind the test of the serial number.
  unfoldable pub send_known : DeviceState → Tool → List Post × Tool
  send_known ds t =
      let ((posts, t'), near) = events_of ds (enter (position t ds) ds t) in
      (posts, finish near ds t')

  -- `xf86WcmSendEvents`
  unfoldable pub send_events : DeviceState → Tool → List Post × Tool
  send_events ds t =
      if nonzero t.serial && not (ds.serial_num == t.serial) then ([], t) else send_known ds t
