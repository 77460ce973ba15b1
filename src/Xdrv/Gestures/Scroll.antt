-- ===== src/Xdrv/Gestures/Scroll.antt =====
-- `xf86WcmFingerScroll`, `xf86WcmSendScrollEvent` and `pointsInLine` (src/xdrv/wcmTouchFilter.c).
use linuxwacom.Prelude.{
  ℕ, ◌+◌, ◌-◌, ◌*◌, ◌/◌, ◌==◌, Bool, true, false, not, ◌&&◌, ◌||◌, ltb, if◌then◌else◌, nonzero,
  flag, ◌|>◌,
}
use linuxwacom.Prelude.Int.{ℤ, pos, ◌+ℤ◌, ◌-ℤ◌, abs_ℕ, ltb_ℤ}
use linuxwacom.Xdrv.Events.{DeviceState, apart, rotate}
use linuxwacom.Xdrv.Filter.{quotient}
use linuxwacom.Xdrv.Gestures.State.{
  Fingers, Gesture, near, send_click, repeat, scroll_mode, scroll_up, scroll_down, scroll_left,
  scroll_right, horiz_allowed, vert_allowed, inline_distance,
}

-- `pointsInLine`: the answer and the direction.
unfoldable pub points_in_line : ℕ → DeviceState → DeviceState → Bool × ℕ
points_in_line direction a b =
    let dx = apart a.x b.x in
    let dy = apart a.y b.y in
    if direction == 0
    then (if ltb dy inline_distance && ltb inline_distance dx
        then (true, horiz_allowed)
        else if ltb dx inline_distance && ltb inline_distance dy
        then (true, vert_allowed)
        else (false, direction))
    else if direction == horiz_allowed
    then (ltb dy inline_distance, direction)
    else if direction == vert_allowed
    then (ltb dx inline_distance, direction)
    else (false, direction)

-- `(int)((double)abs(dist) / (double)distance + 0.5)`
unfoldable pub steps : ℤ → ℕ → ℕ
steps dist distance = (2 * abs_ℕ dist + distance) / (2 * distance)

-- "reset the initial states for the new getsure"
abbrev pub restart : Fingers → Gesture → Gesture
restart f g = record g { initial0 = f.ds0; initial1 = f.ds1; used = 0 }

-- `xf86WcmSendScrollEvent`
unfoldable pub send_scroll_event : Fingers → ℤ → ℕ → ℕ → Gesture → Gesture
send_scroll_event f dist up down g =
    let n = if ltb_ℤ (pos 0) dist then up else down in
    let count = steps dist f.scroll_distance in
    let s = repeat (λ pressed. send_click n (flag pressed)) (count - g.used) g in
    if ltb count g.used then restart f g else record s { used = count }

-- Whether the fingers move together in a line: the scroll mode is entered.
unfoldable pub enter_scroll : Fingers → Gesture → Gesture
enter_scroll f g =
    let (first, direction0) = points_in_line g.direction f.ds0 g.initial0 in
    let (second, direction1) = points_in_line direction0 f.ds1 g.initial1 in
    let s = record g { direction = if first then direction1 else direction0 } in
    if g.mode == scroll_mode
      || not (ltb (f.apart (f.ds0, f.ds1) (g.initial0, g.initial1)) inline_distance)
    then g
    else if first && second && nonzero s.direction
    then s |> send_click 1 0 |> (λ t. record t { mode = scroll_mode })
    else s

-- The distance of the middle of two points, or of the one whose finger is there, from its old one.
unfoldable pub middle_moved : Bool → Bool → ℤ → ℤ → ℤ → ℤ → ℤ
middle_moved in0 in1 new0 new1 old0 old1 =
    if not in1
    then old0 -ℤ new0
    else if not in0
    then old1 -ℤ new1
    else quotient (old0 +ℤ old1) 2 -ℤ quotient (new0 +ℤ new1) 2

-- The position of a finger, rotated.
abbrev pub turned : Fingers → DeviceState → ℤ × ℤ
turned f ds = rotate f.rotation f.max_x f.max_y (ds.x, ds.y)

unfoldable pub moved_x : Fingers → Gesture → ℤ
moved_x f g =
    middle_moved (near f.ds0) (near f.ds1) (turned f f.ds0).0 (turned f f.ds1).0
      (turned f g.initial0).0 (turned f g.initial1).0

unfoldable pub moved_y : Fingers → Gesture → ℤ
moved_y f g =
    middle_moved (near f.ds0) (near f.ds1) (turned f f.ds0).1 (turned f f.ds1).1
      (turned f g.initial0).1 (turned f g.initial1).1

-- The scroll event of the direction.
unfoldable pub scroll : Fingers → Gesture → Gesture
scroll f g =
    if g.direction == vert_allowed
    then send_scroll_event f (moved_y f g) scroll_up scroll_down g
    else if g.direction == horiz_allowed
    then send_scroll_event f (moved_x f g) scroll_right scroll_left g
    else g

-- `xf86WcmFingerScroll`
unfoldable pub finger_scroll : Fingers → Gesture → Gesture
finger_scroll f g = let s = enter_scroll f g in if s.mode == scroll_mode then scroll f s else s
