-- ===== src/Xdrv/Common.antt =====
-- `commonDispatchDevice` and `xf86WcmSoftOutEvent` (src/xdrv/wcmCommon.c), in a build for version 1 of the
-- XInput ABI or later: from the state of a channel to the events of a device.
pub mod Good
use linuxwacom.Prelude.{
  ℕ, zero, suc, ◌==◌, Bool, true, false, not, ◌&&◌, ◌||◌, Option, none, some, List, [], ◌∷◌, ◌++◌,
  map, update, if◌then◌else◌, nonzero, ltb, when, ◌|>◌,
}
use linuxwacom.Prelude.Int.{ℤ, pos, ltb_ℤ}
use linuxwacom.Wacom.{
  stylus_device_id, touch_device_id, cursor_device_id, eraser_device_id, pad_device_id,
}
use linuxwacom.Xdrv.Events.{DeviceState, apart}
use linuxwacom.Xdrv.ToolIds.{stylus_id, touch_id, cursor_id, eraser_id, pad_id, settle_type}
use linuxwacom.Xdrv.Send
use linuxwacom.Xdrv.Send.{send_events}
use linuxwacom.Xdrv.Select
use linuxwacom.Xdrv.Select.{Place, find_tool, choose_area}
use linuxwacom.Xdrv.Pressure
use linuxwacom.Xdrv.Pressure.{detect_pressure_issue, least_pressure, transform}

-- An input device: what `xf86WcmSendEvents` uses of it, `minPressure`, `hardProx`, whether it has flags
-- besides those of `Send.Tool`, whether it is enabled and has a screen, and what it has posted.
pub record Local : Type 0 where
  pub send : Send.Tool
  pub least : ℤ
  pub hard_prox : ℕ
  pub more_flags : Bool
  pub usable : Bool
  pub posts : List Send.Post

-- The tools and the devices of the tablet, by number, `highProxInPressureCounter`, `wcmMaxCursorDist` and
-- `wcmTouchpadMode`.
pub record World : Type 0 where
  pub tools : List Select.Tool
  pub devices : ℕ → Local
  pub counter : ℕ
  pub max_cursor_dist : ℤ
  pub touchpad : Bool

-- The settings: those of the pressure, `wcmProtocolLevel`, `wcmCursorProxoutDist`, `wcmTouch`, whether the model
-- is an Intuos by its name, and the devices of the server that belong to this driver.
pub record Setup : Type 0 where
  pub pressure : Pressure.Setup
  pub protocol_level : ℕ
  pub proxout_dist : ℕ
  pub touch : Bool
  pub is_intuos : Bool
  pub locals : List ℕ

abbrev pub is_pen : Local → Bool
is_pen d = d.send.id == stylus_id || d.send.id == eraser_id

abbrev pub is_touch : Local → Bool
is_touch d = d.send.id == touch_id

abbrev pub is_cursor : Local → Bool
is_cursor d = d.send.id == cursor_id

abbrev pub set_device : ℕ → Local → World → World
set_device i d w = record w { devices = update w.devices i d }

-- `xf86WcmSoftOutEvent`: the report.
unfoldable pub out_report : Local → DeviceState
out_report d = record {
  device_id =
      if d.send.id == stylus_id
      then stylus_device_id
      else if d.send.id == eraser_id
      then eraser_device_id
      else if d.send.id == cursor_id
      then cursor_device_id
      else if d.send.id == touch_id
      then touch_device_id
      else pad_device_id;
  device_type = d.send.id;
  serial_num = 0;
  buttons = 0;
  proximity = 0;
  stripx = pos 0;
  stripy = pos 0;
  x = pos 0;
  y = pos 0;
  tiltx = pos 0;
  tilty = pos 0;
  pressure = pos 0;
  throttle = pos 0;
  rotation = pos 0;
  abswheel = pos 0;
  abswheel2 = pos 0;
  relwheel = pos 0;
  distance = pos 0;
  sample = 0;
}

-- `priv->flags == TOUCH_ID`
abbrev pub is_bare_touch : Local → Bool
is_bare_touch d =
    is_touch d
    && not d.send.absolute
    && not d.send.buttons_only
    && not d.send.device.tpc_buttons_flag
    && not d.send.device.tpc_button_one_flag
    && not d.more_flags

-- The pressure of a pen, with its least one and the counter of high pressures.
unfoldable pub pen_pressure : Setup → ℕ → World → DeviceState → World × DeviceState
pen_pressure c i w ds =
    let d = w.devices i in
    let near = d.send.old_proximity in
    let least = least_pressure c.pressure near d.least ds.pressure in
    (
      record (set_device i (record d { least = least }) w) {
        counter = detect_pressure_issue c.pressure near ds.pressure w.counter;
      },
      transform c.pressure least ds,
    )

-- The transformation of a pen; a cursor that comes in starts its distances anew.
unfoldable pub transformed : Setup → ℕ → World → DeviceState → World × DeviceState
transformed c i w ds =
    let d = w.devices i in
    if is_pen d then pen_pressure c i w ds else (
      when (is_cursor d && d.hard_prox == 0)
          (λ v. record v { max_cursor_dist = if c.is_intuos then pos 256 else pos 0 }) w,
      ds,
    )

-- `hardProx`
unfoldable pub note_hard_prox : ℕ → ℕ → World → World
note_hard_prox i proximity w =
    let d = w.devices i in
    when (not (is_touch d)) (set_device i (record d { hard_prox = proximity })) w

-- `wcmMaxCursorDist` with the distance of a report: the least one for protocol 5, and else the largest.
unfoldable pub extreme : Setup → ℤ → ℤ → ℤ
extreme c old new =
    if c.protocol_level == 5
    then (if ltb_ℤ new old then new else old)
    else (if ltb_ℤ old new then new else old)

-- The proximity of a cursor by its distance; `none` is the return without an event.
unfoldable pub cursor_near : Setup → Local → ℤ → DeviceState → Option DeviceState
cursor_near c d far ds =
    let beyond = ltb c.proxout_dist (apart ds.distance far) in
    if nonzero d.send.old_proximity
    then some (if beyond then record ds { proximity = 0 } else ds)
    else if beyond && nonzero ds.proximity || ds.proximity == 0
    then none
    else some ds

unfoldable pub cursor : Setup → ℕ → World → DeviceState → World × Option DeviceState
cursor c i w ds =
    let d = w.devices i in
    let far = extreme c w.max_cursor_dist ds.distance in
    if is_cursor d
    then (record w { max_cursor_dist = far }, cursor_near c d far ds)
    else (w, some ds)

-- The area that a tool with the number `n` has in use is set.
unfoldable pub set_current : ℕ → Select.Tool → List Select.Tool → List Select.Tool
set_current n t [] = []
set_current zero t (old ∷ tools) = t ∷ tools
set_current (suc n) t (old ∷ tools) = old ∷ set_current n t tools

abbrev pub nth : ℕ → List Select.Tool → Option Select.Tool
nth n [] = none
nth zero (t ∷ tools) = some t
nth (suc n) (t ∷ tools) = nth n tools

abbrev pub serials : List Select.Tool → List (ℕ × ℕ)
serials = map (λ (t : Select.Tool). (t.serial, t.typeid))

-- The state of the channel with its device type.
unfoldable pub settled : DeviceState → World → DeviceState
settled ds w = record ds {
  device_type =
      settle_type (serials w.tools) ds.device_type ds.proximity ds.device_id ds.serial_num;
}

-- The acceleration of the events is floating-point arithmetic, and so is `relative`, the position of a
-- relative report: `none` if it has moved by less than one on both axes.
module _ (accelerate : Send.Tool → ℤ → ℤ) (unify : Send.Tool → ℤ → ℤ)
    (relative : Send.Tool → ℤ × ℤ → Option (ℤ × ℤ)) where
  unfoldable pub deliver : DeviceState → Local → Local
  deliver ds d =
      let (ps, t) = send_events accelerate unify ds d.send in
      record d { send = t; posts = d.posts ++ ps }

  unfoldable pub send_to : ℕ → DeviceState → World → World
  send_to i ds w = set_device i (deliver ds (w.devices i)) w

  -- `xf86WcmSoftOutEvent`
  unfoldable pub soft_out : ℕ → World → World
  soft_out i w =
      let d = w.devices i in
      let w' = send_to i (out_report d) w in
      when (is_bare_touch (w'.devices i)) (λ v. record v { touchpad = false }) w'

  -- The touch devices that are there get a way out, when a pen comes.
  unfoldable pub touch_out : List ℕ → World → World
  touch_out [] w = w
  touch_out (i ∷ locals) w =
      let d = w.devices i in
      touch_out locals (when (is_touch d && nonzero d.send.old_proximity) (soft_out i) w)

  unfoldable pub settle_touch : Setup → ℕ → World → World
  settle_touch c i w =
      let d = w.devices i in
      when (not (is_touch d) && c.touch && d.send.old_proximity == 0) (touch_out c.locals) w

  -- The position of a relative device; `none` is the return without an event.
  unfoldable pub relative_move : ℕ → Local → DeviceState → Option DeviceState
  relative_move suppress d ds =
      if d.send.absolute || d.send.id == pad_id
      then some ds
      else elim (relative d.send (ds.x, ds.y)) [
        | none ↦
            if suppress == 1 then some (record ds { x = d.send.old.x; y = d.send.old.y }) else none
        | some (x, y) ↦ some (record ds { x = x; y = y })
      ]

  -- The events are sent, if there was no return, and the result is also whether the tool has left: then
  -- its area is given up.
  unfoldable pub send_last : ℕ → World × Option DeviceState → World × Bool
  send_last i (w, none) = (w, false)
  send_last i (w, some out) = (send_to i out w, out.proximity == 0)

  unfoldable pub send_moved : Setup → ℕ → World → Option DeviceState → World × Bool
  send_moved c i w none = (w, false)
  send_moved c i w (some ds) = send_last i (cursor c i w ds)

  -- What stands behind the choice of the device.
  unfoldable pub dispatch_to : Setup → ℕ → ℕ → DeviceState → World → World × Bool
  dispatch_to c suppress i ds w =
      let (w1, filtered) = transformed c i (settle_touch c i w) ds in
      let w2 = note_hard_prox i ds.proximity w1 in
      send_moved c i w2 (relative_move suppress (w2.devices i) filtered)

  abbrev pub maybe_out : Option ℕ → World → World
  maybe_out none w = w
  maybe_out (some i) w = soft_out i w

  -- The tool with the number `n` gives up its area.
  unfoldable pub release : ℕ → Select.Tool → World × Bool → World
  release n t (w, gone) =
      when gone (λ v. record v { tools = set_current n (record t { current = none }) v.tools }) w

  -- The events of the device of the area that the tool has, if it is usable.
  unfoldable pub dispatch_place :
      Setup → ℕ → DeviceState → ℕ → Select.Tool → Option Place → World → World
  dispatch_place c suppress ds n t none w = w
  dispatch_place c suppress ds n t (some place) w =
      if (w.devices place.device).usable
      then release n t (dispatch_to c suppress place.device ds w)
      else w

  -- The tool with the number `n`: its area, and the events of the device of the area.
  unfoldable pub dispatch_tool : Setup → ℕ → DeviceState → ℕ → Select.Tool → World → World
  dispatch_tool c suppress ds n t w =
      let (left, t') = choose_area ds.x ds.y t in
      dispatch_place c suppress ds n t' t'.current
        (maybe_out left (record w { tools = set_current n t' w.tools }))

  unfoldable pub dispatch_nth : Setup → ℕ → DeviceState → Option ℕ → World → World
  dispatch_nth c suppress ds none w = w
  dispatch_nth c suppress ds (some n) w = elim (nth n w.tools) [
    | none ↦ w
    | some t ↦ dispatch_tool c suppress ds n t w
  ]

  -- `commonDispatchDevice`, of the state of the channel.
  unfoldable pub dispatch : Setup → ℕ → DeviceState → World → World
  dispatch c suppress ds w =
      let s = settled ds w in
      dispatch_nth c suppress s (find_tool 0 none w.tools s.device_type s.serial_num) w

  -- Reports in turn, each with what `xf86WcmSuppress` gave for it.
  unfoldable pub dispatches : Setup → List (ℕ × DeviceState) → World → World
  dispatches c [] w = w
  dispatches c ((suppress, ds) ∷ reports) w = dispatches c reports (dispatch c suppress ds w)
