-- ===== src/Xdrv/Wheels.antt =====
-- `sendWheelStripEvents` and `sendKeystroke` (src/xdrv/wcmCommon.c, built with WCM_KEY_SENDING_SUPPORT):
-- the buttons and keys that the wheels and strips of a pad stand for.
pub mod Direction
pub mod Balance
use linuxwacom.Prelude.{
  ℕ, zero, suc, ◌+◌, ◌-◌, ◌/◌, ◌^◌, ◌==◌, Bool, true, false, not, ◌&&◌, ◌||◌, ltb, List, [], ◌∷◌,
  bit_and, if◌then◌else◌, has, nonzero, when, ◌|>◌,
}
use linuxwacom.Prelude.Int.{ℤ, pos, ◌+ℤ◌, ◌-ℤ◌, ltb_ℤ}
use linuxwacom.Wacom.{same_int}
use linuxwacom.Xdrv.Events.{DeviceState, apart}
use linuxwacom.Xdrv.Usb.Axes.{pattern32}

abbrev pub max_finger_wheel : ℕ
max_finger_wheel = 71

-- AC_CODE, AC_TYPE, AC_KEY, AC_NUM_KEYS and AC_CORE; AC_BUTTON is 0.
abbrev pub ac_code : ℕ
ac_code = 0x0000ffff

abbrev pub ac_type : ℕ
ac_type = 0x000f0000

abbrev pub ac_key : ℕ
ac_key = 0x00010000

abbrev pub ac_num_keys : ℕ
ac_num_keys = 0x0ff00000

abbrev pub ac_core : ℕ
ac_core = 0x10000000

-- What a wheel or strip does: a code, and the keys that belong to it.
pub record Action : Type 0 where
  pub code : ℕ
  pub keys : List ℕ

-- The actions of the device, the positions that it had, and whether its wheels are rings, by the name of
-- the model and IsPad.
pub record Pad : Type 0 where
  pub relup : Action
  pub reldn : Action
  pub wheelup : Action
  pub wheeldn : Action
  pub wheel2up : Action
  pub wheel2dn : Action
  pub striplup : Action
  pub stripldn : Action
  pub striprup : Action
  pub striprdn : Action
  pub old_wheel : ℤ
  pub old_wheel2 : ℤ
  pub old_stripx : ℤ
  pub old_stripy : ℤ
  pub is_ring : Bool
  pub is_ring2 : Bool

-- `fakeButton` with its keys, and `value`.
abbrev pub Choice : Type 0
Choice = Action × ℤ

abbrev pub nothing : Choice
nothing = (record { code = 0; keys = [] }, pos 0)

-- The way that a wheel has gone; on a ring the way over its end is taken for the shorter one.
unfoldable pub wheel_value : Bool → ℤ → ℤ → ℤ
wheel_value is_ring old new =
    let value = old -ℤ new in
    if is_ring && ltb (max_finger_wheel / 2) (apart old new)
    then (if ltb_ℤ new old then value -ℤ pos max_finger_wheel else value +ℤ pos max_finger_wheel)
    else value

unfoldable pub wheel : Bool → ℤ → ℤ → Action → Action → Choice → Choice
wheel is_ring old new up down c =
    let value = wheel_value is_ring old new in
    if same_int new old then c else (if ltb_ℤ (pos 0) value then up else down, value)

unfoldable pub relative : ℤ → Action → Action → Choice → Choice
relative steps up down c =
    if same_int steps (pos 0) then c else (if ltb_ℤ (pos 0) steps then up else down, steps)

-- The loop over the bits of a strip, `n` of them from the one of `i` on: `temp` and `value`.
unfoldable pub strip_loop : ℕ → ℕ → ℕ → ℕ → ℕ → ℤ → ℕ × ℤ
strip_loop zero i new old temp value = (temp, value)
strip_loop (suc n) i new old temp value =
    let temp' = if has new (2 ^ (i - 1)) then i else temp in
    let value' = if has old (2 ^ (i - 1)) then pos i else value in
    let rest = strip_loop n (i + 1) new old temp' value' in
    if has temp' (pattern32 value') then (temp', value') else rest

unfoldable pub strip : ℤ → ℤ → Action → Action → Choice → Choice
strip old new up down (action, value) =
    let (temp, last) = strip_loop 13 1 (pattern32 new) (pattern32 old) 0 value in
    let moved = last -ℤ pos temp in
    if same_int new old
    then (action, value)
    else (if ltb_ℤ (pos 0) moved then up else if ltb_ℤ moved (pos 0) then down else action, moved)

-- The action of a report.
unfoldable pub choose : Pad → DeviceState → Choice
choose p ds =
    nothing
    |> relative ds.relwheel p.relup p.reldn
    |> wheel p.is_ring p.old_wheel ds.abswheel p.wheelup p.wheeldn
    |> wheel p.is_ring2 p.old_wheel2 ds.abswheel2 p.wheel2up p.wheel2dn
    |> strip p.old_stripx ds.stripx p.striplup p.stripldn
    |> strip p.old_stripy ds.stripy p.striprup p.striprdn

-- A button or a key, with its state.
pub data Post : Type 0 where
  button : ℕ → ℕ → Post
  keysym : ℕ → ℕ → Post

-- `WcmIsModifier`: XK_Shift_L, XK_Control_L, XK_Meta_L, XK_Alt_L, XK_Super_L and XK_Hyper_L are codes of
-- the X server.
module _ (is_modifier : ℕ → Bool) where
  -- What one key gets when the keys are pressed and when they are let go; the posts have the newest first.
  unfoldable pub stroke : ℕ → Bool → List Post → List Post
  stroke k press ps =
      if press
      then (if is_modifier k then keysym k 1 ∷ ps else keysym k 0 ∷ keysym k 1 ∷ ps)
      else if is_modifier k
      then keysym k 0 ∷ ps
      else ps

  -- The loop over the first `n` keys.
  unfoldable pub strokes : ℕ → List ℕ → Bool → List Post → List Post
  strokes zero keys press ps = ps
  strokes (suc n) [] press ps = ps
  strokes (suc n) (k ∷ keys) press ps = strokes n keys press (stroke k press ps)

  unfoldable pub send_keystroke : Action → Bool → List Post → List Post
  send_keystroke a press ps =
      if has a.code ac_core
      then strokes (bit_and a.code ac_num_keys / 2 ^ 20) a.keys press ps
      else ps

  -- `sendWheelStripEvents`
  unfoldable pub send_wheel_strip_events : Pad → DeviceState → List Post → List Post
  send_wheel_strip_events p ds ps =
      let a = (choose p ds).0 in
      let n = bit_and a.code ac_code in
      if a.code == 0
      then ps
      else if bit_and a.code ac_type == 0
      then button n 0 ∷ button n 1 ∷ ps
      else if bit_and a.code ac_type == ac_key
      then send_keystroke a false (send_keystroke a true ps)
      else ps
