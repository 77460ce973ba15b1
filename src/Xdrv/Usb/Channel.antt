-- ===== src/Xdrv/Usb/Channel.antt =====
-- `usbParseChannel` (src/xdrv/wcmUSB.c): the record that has been collected, applied to the working state
-- of a channel and handed on.
use linuxwacom.Prelude.{
  ℕ, ◌==◌, Bool, true, false, not, ◌&&◌, ◌||◌, List, [], ◌∷◌, none, some, if◌then◌else◌, nonzero,
}
use linuxwacom.Prelude.Int.{pos, ◌-ℤ◌}
use linuxwacom.Input.{
  Key, Event, key, abs, rel_wheel, msc_serial, sync, tool_pen, tool_pencil, tool_brush,
  tool_airbrush, tool_rubber, tool_mouse, tool_lens, tool_doubletap, tool_tripletap, tool_finger,
  abs_x, abs_y, abs_misc,
}
use linuxwacom.Wacom.{same_int}
use linuxwacom.Xdrv.Events.{DeviceState}
use linuxwacom.Xdrv.ToolIds.{stylus_id, touch_id, cursor_id, eraser_id, pad_id}
use linuxwacom.Xdrv.Usb.State.{Channel, Setup, Outside, Common, put, xf86_wcm_event}
use linuxwacom.Xdrv.Usb.Keys.{key_event}
use linuxwacom.Xdrv.Usb.Axes.{pattern32, abs_event}

-- The loop over the events of the record.
unfoldable pub parse_events : Setup → ℕ → ℕ → List Event → DeviceState → DeviceState
parse_events c time last_prox [] ds = ds
parse_events c time last_prox (key k v ∷ es) ds =
    parse_events c time last_prox es (key_event c time last_prox k v ds)
parse_events c time last_prox (abs a v ∷ es) ds =
    parse_events c time last_prox es (abs_event c a v ds)
parse_events c time last_prox (rel_wheel v ∷ es) ds =
    parse_events c time last_prox es (record ds { relwheel = pos 0 -ℤ v })
parse_events c time last_prox (msc_serial _ ∷ es) ds = parse_events c time last_prox es ds
parse_events c time last_prox (sync ∷ es) ds = parse_events c time last_prox es ds

abbrev pub type_to_key : List (ℕ × Key)
type_to_key =
    (stylus_id, tool_pen)
    ∷ (stylus_id, tool_pencil)
    ∷ (stylus_id, tool_brush)
    ∷ (stylus_id, tool_airbrush)
    ∷ (eraser_id, tool_rubber)
    ∷ (cursor_id, tool_mouse)
    ∷ (cursor_id, tool_lens)
    ∷ (touch_id, tool_doubletap)
    ∷ (touch_id, tool_tripletap)
    ∷ (pad_id, tool_finger)
    ∷ []

-- The loop over `wcmTypeToKey`: the type of the first key that is down.
unfoldable pub type_of_keys : List (ℕ × Key) → (Key → Bool) → ℕ → ℕ
type_of_keys [] down type = type
type_of_keys ((t, k) ∷ ks) down type =
    let rest = type_of_keys ks down type in if down k then t else rest

-- "device type unknown? Retrive it from the kernel again". The second result is false where the
-- function returns.
unfoldable pub retrieve_type : Outside → DeviceState → DeviceState × Bool
retrieve_type o ds =
    if nonzero ds.device_type
    then (ds, true)
    else (let typed = record ds {
      device_type = type_of_keys type_to_key o.key_down ds.device_type;
    } in
        elim (o.axis abs_misc) [
          | none ↦ (typed, false)
          | some v ↦
              if same_int v (pos 0)
              then (typed, true)
              else (record typed { device_id = pattern32 v; proximity = 1 }, true)
        ])

-- "retrieve (x,y) at the first time in-prox if it is not a pad".
unfoldable pub retrieve_position : Outside → ℕ → DeviceState → DeviceState × Bool
retrieve_position o last_prox ds =
    if nonzero last_prox || ds.device_type == pad_id then (ds, true) else elim (o.axis abs_x) [
      | none ↦ (ds, false)
      | some x ↦ elim (o.axis abs_y) [
        | none ↦ (record ds { x = x }, false)
        | some y ↦ (record ds { x = x; y = y }, true)
      ]
    ]

-- The state that the record makes of `work`, and whether it is complete.
unfoldable pub next_state : Setup → Outside → Common → Channel → DeviceState × Bool
next_state c o s ch =
    let ds = record ch.work { relwheel = pos 0; serial_num = s.last_serial } in
    let (typed, known) = retrieve_type o (parse_events c o.time ch.valid.proximity s.events ds) in
    if known then retrieve_position o ch.valid.proximity typed else (typed, false)

-- Whether `syslast` is a pen or an eraser in proximity.
unfoldable pub pen_near : Common → Bool
pen_near s = elim s.syslast [
  | none ↦ false
  | some k ↦
      let last = (s.channels k).work in
      (last.device_type == stylus_id || last.device_type == eraser_id) && nonzero last.proximity
]

-- A complete state in the channel `n`: the touch is not sent while it is disabled or the pen is near,
-- nor is the eraser of a DTF 720.
unfoldable pub hand_on : Setup → Outside → ℕ → Common → Common
hand_on c o n s =
    let ds = (s.channels n).work in
    if ds.device_type == touch_id && not c.touch
    then s
    else if ds.device_type == touch_id && pen_near s
    then s
    else (let s' = record s { syslast = some n } in
        if (c.tablet_id == 0xc0 || c.tablet_id == 0xc2) && ds.device_type == eraser_id
        then s'
        else xf86_wcm_event o n
            (if nonzero ds.proximity then s' else record s' { last_serial = 0 }))

-- "no real events received": a record of one synchronisation.
abbrev pub is_bare : List Event → Bool
is_bare (sync ∷ []) = true
is_bare _ = false

unfoldable pub parse_channel : Setup → Outside → ℕ → Common → Common
parse_channel c o n s =
    if is_bare s.events
    then s
    else (let (ds, complete) = next_state c o s (s.channels n) in
        let s' = put n ds s in if complete then hand_on c o n s' else s')
