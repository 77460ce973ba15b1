-- ===== src/Xdrv/Events.antt =====
-- src/xdrv/wcmCommon.c: what stands in front of the events of the X driver. `xf86WcmSuppress`
-- drops reports that changed too little, and `xf86WcmRotateCoordinates` turns the position.
use linuxwacom.Prelude.{
  ℕ, ◌+◌, ◌≤◌, ◌<◌, Bool, true, false, ◌==◌, not, ◌&&◌, ◌||◌, if◌then◌else◌, ltb, nonzero, ◌≡◌, ◌⊎◌,
  arith, refl,
}
use linuxwacom.Prelude.Int.{ℤ, pos, negsuc, ◌-ℤ◌, abs_ℕ}
use linuxwacom.Wacom.{same_int}

-- `WacomDeviceState` without its pointer to the device and `discard_first`, which only the serial
-- protocols use. The identifier, the serial number and the buttons are 32-bit patterns.
pub record DeviceState : Type 0 where
  pub device_id : ℕ
  pub device_type : ℕ
  pub serial_num : ℕ
  pub buttons : ℕ
  pub proximity : ℕ
  pub stripx : ℤ
  pub stripy : ℤ
  pub x : ℤ
  pub y : ℤ
  pub tiltx : ℤ
  pub tilty : ℤ
  pub pressure : ℤ
  pub throttle : ℤ
  pub rotation : ℤ
  pub abswheel : ℤ
  pub abswheel2 : ℤ
  pub relwheel : ℤ
  pub distance : ℤ
  pub sample : ℕ

-- `ABS(a - b)`
unfoldable pub apart : ℤ → ℤ → ℕ
apart a b = abs_ℕ (a -ℤ b)

-- Whether `returnV` is 1 after the tests of everything but the position.
unfoldable pub has_changed : ℕ → DeviceState → DeviceState → Bool
has_changed level old new =
    not (old.buttons == new.buttons)
    || not (old.proximity == new.proximity)
    || not (same_int old.stripx new.stripx)
    || not (same_int old.stripy new.stripy)
    || ltb level (apart old.tiltx new.tiltx)
    || ltb level (apart old.tilty new.tilty)
    || ltb level (apart old.pressure new.pressure)
    || ltb level (apart old.throttle new.throttle)
    || (ltb level (apart old.rotation new.rotation)
        && ltb (level + apart old.rotation new.rotation) 1800)
    || ltb level (apart old.abswheel new.abswheel)
    || ltb level (apart old.abswheel2 new.abswheel2)
    || not (same_int new.relwheel (pos 0))

-- `xf86WcmSuppress`: the value returned and the new state. `level` is `wcmSuppress`, at least 0.
unfoldable pub suppress : ℕ → DeviceState → DeviceState → ℕ × DeviceState
suppress level old new =
    let changed = if has_changed level old new then 1 else 0 in
    if ltb level (apart old.x new.x) || ltb level (apart old.y new.y)
    then (if changed == 0 then 2 else changed, new)
    else (changed, record new { x = old.x; y = old.y })

-- What `xf86WcmEvent` has in `valid.state` after a report to a channel whose raw filter is filled: the
-- report as filtered, or the state before if both are in proximity and the report is dropped.
unfoldable pub keep : ℕ → DeviceState → DeviceState → DeviceState
keep level old new =
    if nonzero old.proximity && nonzero new.proximity
    then (let (returned, new') = suppress level old new in if returned == 0 then old else new')
    else new

-- `wcmRotate`
pub data Rotate : Type 0 where
  none cw ccw half : Rotate

-- `xf86WcmRotateCoordinates`
unfoldable pub rotate : Rotate → ℤ → ℤ → ℤ × ℤ → ℤ × ℤ
rotate none max_x max_y p = p
rotate cw max_x max_y (x, y) = (y, max_y -ℤ x)
rotate ccw max_x max_y (x, y) = (max_x -ℤ y, x)
rotate half max_x max_y (x, y) = (max_x -ℤ x, max_y -ℤ y)

apart_self : (a : ℤ) → apart a a ≡ 0
unfolding apart ◌-ℤ◌
apart_self (pos n) = ground arith
apart_self (negsuc n) = ground arith

-- Two rotations, in half degrees of a turn of 1800, that are at most `level` apart, either way round.
abbrev pub IsNear : ℕ → ℤ → ℤ → Type 0
IsNear level a b = (apart a b ≤ level) ⊎ (1800 ≤ level + apart a b)

-- Whatever was kept before, the state that is kept agrees with the report: buttons, proximity and strips
-- exactly, and position, tilt, pressure, throttle and absolute wheels to within the level, and so does the
-- rotation, either way round the circle.
pub keep-close :
    (level : ℕ) (old new : DeviceState)
    → let k = keep level old new in
      (k.buttons ≡ new.buttons)
      × (k.proximity ≡ new.proximity)
      × (k.stripx ≡ new.stripx)
      × (k.stripy ≡ new.stripy)
      × (apart k.x new.x ≤ level)
      × (apart k.y new.y ≤ level)
      × (apart k.tiltx new.tiltx ≤ level)
      × (apart k.tilty new.tilty ≤ level)
      × (apart k.pressure new.pressure ≤ level)
      × (apart k.throttle new.throttle ≤ level)
      × (apart k.abswheel new.abswheel ≤ level)
      × (apart k.abswheel2 new.abswheel2 ≤ level)
      × IsNear level k.rotation new.rotation
unfolding keep suppress has_changed
keep-close level old new = ground (
  arith,
  apart_self new.x,
  apart_self new.y,
  apart_self new.tiltx,
  apart_self new.tilty,
  apart_self new.pressure,
  apart_self new.throttle,
  apart_self new.abswheel,
  apart_self new.abswheel2,
  apart_self new.rotation,
)

-- While the tool stays near, the position that is kept moves only by a step of more than the level on
-- one axis, and then to the position of the report.
pub keep-still :
    (level : ℕ) (old new : DeviceState)
    → nonzero old.proximity ≡ true
    → nonzero new.proximity ≡ true
    → let k = keep level old new in
      ((k.x ≡ old.x) × (k.y ≡ old.y))
      ⊎ ((k.x ≡ new.x)
          × (k.y ≡ new.y)
          × ((level < apart old.x new.x) ⊎ (level < apart old.y new.y)))
unfolding keep suppress
keep-still level old new near near' = ground arith

pub sub_sub : (m x : ℤ) → m -ℤ (m -ℤ x) ≡ x
unfolding ◌-ℤ◌
sub_sub (pos m) (pos x) = ground arith
sub_sub (pos m) (negsuc x) = ground arith
sub_sub (negsuc m) (pos x) = ground arith
sub_sub (negsuc m) (negsuc x) = ground arith

-- The rotation that undoes one.
abbrev pub opposite : Rotate → Rotate
opposite none = none
opposite cw = ccw
opposite ccw = cw
opposite half = half

-- Whether a turn exchanges the two axes, and with them the limits.
abbrev pub exchanges : Rotate → Bool
exchanges none = false
exchanges cw = true
exchanges ccw = true
exchanges half = false

-- Turning back, with the limits exchanged if the turn exchanges the axes, gives the position again.
pub rotate-opposite :
    (r : Rotate) (max_x max_y : ℤ) (p : ℤ × ℤ)
    → (if exchanges r
        then rotate (opposite r) max_y max_x (rotate r max_x max_y p)
        else rotate (opposite r) max_x max_y (rotate r max_x max_y p))
      ≡ p
unfolding rotate
rotate-opposite none max_x max_y (x, y) = refl
rotate-opposite cw max_x max_y (x, y) = rw (sub_sub max_y x) refl
rotate-opposite ccw max_x max_y (x, y) = rw (sub_sub max_x y) refl
rotate-opposite half max_x max_y (x, y) = rw (sub_sub max_x x, sub_sub max_y y) refl
