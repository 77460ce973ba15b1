-- ===== src/Xdrv/Gestures/State.antt =====
-- What the gesture filter of src/xdrv/wcmTouchFilter.c reads and writes of `WacomCommonRec`, and what it
-- posts.
use linuxwacom.Prelude.{
  ℕ, zero, suc, ◌+◌, ◌-◌, ◌%◌, ◌^◌, ◌==◌, Bool, true, false, List, ◌∷◌, when, nonzero,
}
use linuxwacom.Prelude.Int.{ℤ}
use linuxwacom.Xdrv.Events.{DeviceState, Rotate}

abbrev pub tap_mode : ℕ
tap_mode = 1

abbrev pub scroll_mode : ℕ
scroll_mode = 2

abbrev pub zoom_mode : ℕ
zoom_mode = 4

abbrev pub lag_mode : ℕ
lag_mode = 8

-- The buttons of the scroll events.
abbrev pub scroll_up : ℕ
scroll_up = 5

abbrev pub scroll_down : ℕ
scroll_down = 4

abbrev pub scroll_left : ℕ
scroll_left = 7

abbrev pub scroll_right : ℕ
scroll_right = 6

-- WACOM_HORIZ_ALLOWED and WACOM_VERT_ALLOWED
abbrev pub horiz_allowed : ℕ
horiz_allowed = 1

abbrev pub vert_allowed : ℕ
vert_allowed = 2

-- WACOM_INLINE_DISTANCE
abbrev pub inline_distance : ℕ
inline_distance = 40

-- XK_Control_L, XK_plus and XK_minus
pub data Keysym : Type 0 where
  control_l plus minus : Keysym

-- What is posted: a button with its state, a key with its state, or `xf86WcmSoftOutEvent`.
pub data Post : Type 0 where
  button : ℕ → ℕ → Post
  keysym : Keysym → ℕ → Post
  prox_out : Post

-- What a call reads: the last two states of the channels of both fingers, `GetTimeInMillis`, the
-- settings `wcmTapTime`, `wcmScrollDistance`, `wcmZoomDistance` and `wcmGesture`, whether the device is
-- absolute, and what `xf86WcmRotateCoordinates` reads. Times are patterns of 32 bits. `apart` and
-- `zoomed` are the floating-point arithmetic on `touchDistance`: `abs` of the difference of the
-- distances of two pairs of states, and the distance of the second pair, cut to an `int`, taken from
-- that of the first.
pub record Fingers : Type 0 where
  pub ds0 : DeviceState
  pub ds1 : DeviceState
  pub last0 : DeviceState
  pub last1 : DeviceState
  pub time : ℕ
  pub tap_time : ℕ
  pub scroll_distance : ℕ
  pub zoom_distance : ℕ
  pub enabled : Bool
  pub absolute : Bool
  pub rotation : Rotate
  pub max_x : ℤ
  pub max_y : ℤ
  pub apart : DeviceState × DeviceState → DeviceState × DeviceState → ℕ
  pub zoomed : DeviceState × DeviceState → DeviceState × DeviceState → ℤ

-- What a call changes: `wcmGestureMode`, `wcmTouchpadMode`, `wcmScrollDirection`, `wcmGestureUsed`,
-- `wcmGestureState`, the static `tmpStamp`, the buttons in the state of the first finger, `oldButtons`,
-- and what has been posted, the newest first.
pub record Gesture : Type 0 where
  pub mode : ℕ
  pub touchpad : Bool
  pub direction : ℕ
  pub used : ℕ
  pub initial0 : DeviceState
  pub initial1 : DeviceState
  pub stamp : ℕ
  pub buttons : ℕ
  pub old_buttons : ℕ
  pub posted : List Post

abbrev pub near : DeviceState → Bool
near ds = nonzero ds.proximity

-- `GetTimeInMillis() - sample`, unsigned.
abbrev pub since : ℕ → ℕ → ℕ
since time sample = (time + 2 ^ 32 - sample) % 2 ^ 32

unfoldable pub post : Post → Gesture → Gesture
post p g = record g { posted = p ∷ g.posted }

abbrev pub soft_out : Gesture → Gesture
soft_out g = post prox_out g

-- `xf86WcmSendButtonClick`
unfoldable pub send_click : ℕ → ℕ → Gesture → Gesture
send_click n state g = when (n == 1) (λ s. record s { old_buttons = 0 }) (post (button n state) g)

-- The loop that sends `n` clicks of a button, or strokes of a key.
unfoldable pub repeat : (Bool → Gesture → Gesture) → ℕ → Gesture → Gesture
repeat send zero g = g
repeat send (suc n) g = repeat send n (send false (send true g))
