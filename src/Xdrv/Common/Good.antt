-- ===== src/Xdrv/Common/Good.antt =====
-- The events of all devices, whatever the channel reports.
use linuxwacom.Prelude.{
  ℕ, ◌≡◌, sym, ◌∙◌, ◌==◌, Bool, true, false, not, ◌&&◌, Option, none, some, List, [], ◌∷◌,
  if◌then◌else◌, nonzero, when, Bool-cases, inl, inr,
}
use linuxwacom.Prelude.Int.{ℤ, pos}
use linuxwacom.Xdrv.Events.{DeviceState}
use linuxwacom.Xdrv.Send
use linuxwacom.Xdrv.Send.{send_events}
use linuxwacom.Xdrv.Send.Frames.{
  InOrder, InOrder-append, send_events-InOrder, send_events-has_proximity,
}
use linuxwacom.Xdrv.Send.Released.{served, served-append, IsHeld, send_events-IsHeld}
use linuxwacom.Xdrv.Select
use linuxwacom.Xdrv.Select.{Place, find_tool, choose_area}
use linuxwacom.Xdrv.Common.{
  Local, World, Setup, is_pen, is_touch, is_cursor, is_bare_touch, set_device, out_report,
  pen_pressure, transformed, note_hard_prox, cursor, deliver, send_to, soft_out, touch_out,
  settle_touch, relative_move, send_last, send_moved, dispatch_to, release, dispatch_place,
  dispatch_nth, dispatches, set_current, nth, maybe_out, dispatch_tool, settled, dispatch,
}
use linuxwacom.Xdrv.Pressure.{least_pressure}

abbrev pub none_down : ℕ → Bool
none_down j = false

-- The posts of a device up to now: the buttons are as it expects them, and a device that posts
-- proximity has posted in order.
pub record IsGood (d : Local) : Type 0 where
  pub held : IsHeld d.send (served d.posts none_down)
  pub order : d.send.has_proximity ≡ true → InOrder false d.posts (nonzero d.send.old_proximity)

abbrev pub AllGood : World → Type 0
AllGood w = (i : ℕ) → IsGood (w.devices i)

set_device-AllGood :
    (i : ℕ) (d : Local) (w : World) → IsGood d → AllGood w → AllGood (set_device i d w)
set_device-AllGood i d w good all j = elim (Bool-cases (j == i)) [
  | inl here ↦ rw here good
  | inr other ↦ rw other (all j)
]

when-AllGood :
    (b : Bool) (f : World → World) (w : World) → AllGood w → AllGood (f w) → AllGood (when b f w)
when-AllGood true f w h g = g
when-AllGood false f w h g = h

module _ (accelerate : Send.Tool → ℤ → ℤ) (unify : Send.Tool → ℤ → ℤ)
    (relative : Send.Tool → ℤ × ℤ → Option (ℤ × ℤ)) where
  deliver-IsGood :
      (ds : DeviceState) (d : Local) → IsGood d → IsGood (deliver accelerate unify relative ds d)
  unfolding deliver
  deliver-IsGood ds d h =
      let (ps, t) = send_events accelerate unify ds d.send in
      record {
        held =
            rw (served-append d.posts ps none_down)
              (send_events-IsHeld accelerate unify ds d.send (served d.posts none_down) h.held);
        order = λ has.
            let before : d.send.has_proximity ≡ true =
              sym (send_events-has_proximity accelerate unify ds d.send) ∙ has in
            InOrder-append d.posts ps false (nonzero d.send.old_proximity) (nonzero t.old_proximity)
              (h.order before) (send_events-InOrder accelerate unify ds d.send before);
      }

  send_to-AllGood :
      (i : ℕ) (ds : DeviceState) (w : World)
      → AllGood w
      → AllGood (send_to accelerate unify relative i ds w)
  unfolding send_to
  send_to-AllGood i ds w h =
      set_device-AllGood i (deliver accelerate unify relative ds (w.devices i)) w
        (deliver-IsGood ds (w.devices i) (h i)) h

  soft_out-AllGood :
      (i : ℕ) (w : World) → AllGood w → AllGood (soft_out accelerate unify relative i w)
  unfolding soft_out
  soft_out-AllGood i w h =
      let w' = send_to accelerate unify relative i (out_report (w.devices i)) w in
      let sent = send_to-AllGood i (out_report (w.devices i)) w h in
      when-AllGood (is_bare_touch (w'.devices i)) (λ v. record v { touchpad = false }) w' sent sent

  touch_out-AllGood :
      (is : List ℕ) (w : World) → AllGood w → AllGood (touch_out accelerate unify relative is w)
  unfolding touch_out
  touch_out-AllGood [] w h = h
  touch_out-AllGood (i ∷ is) w h =
      let d = w.devices i in
      let out = is_touch d && nonzero d.send.old_proximity in
      touch_out-AllGood is (when out (soft_out accelerate unify relative i) w)
        (when-AllGood out (soft_out accelerate unify relative i) w h (soft_out-AllGood i w h))

  settle_touch-AllGood :
      (c : Setup) (i : ℕ) (w : World)
      → AllGood w
      → AllGood (settle_touch accelerate unify relative c i w)
  unfolding settle_touch
  settle_touch-AllGood c i w h =
      let d = w.devices i in
      when-AllGood (not (is_touch d) && c.touch && d.send.old_proximity == 0)
        (touch_out accelerate unify relative c.locals) w h (touch_out-AllGood c.locals w h)

  note_hard_prox-AllGood : (i p : ℕ) (w : World) → AllGood w → AllGood (note_hard_prox i p w)
  unfolding note_hard_prox
  note_hard_prox-AllGood i p w h =
      let d : Local = record (w.devices i) { hard_prox = p } in
      let good : IsGood d = record { held = (h i).held; order = (h i).order } in
      when-AllGood (not (is_touch (w.devices i))) (set_device i d) w h
        (set_device-AllGood i d w good h)

  transformed-AllGood :
      (c : Setup) (i : ℕ) (w : World) (ds : DeviceState)
      → AllGood w
      → AllGood (transformed c i w ds).0
  unfolding transformed pen_pressure
  transformed-AllGood c i w ds h = elim (Bool-cases (is_pen (w.devices i))) [
    | inl pen ↦
        let least =
          least_pressure c.pressure (w.devices i).send.old_proximity (w.devices i).least
            ds.pressure in
        let d : Local = record (w.devices i) { least = least } in
        let good : IsGood d = record { held = (h i).held; order = (h i).order } in
        rw pen (set_device-AllGood i d w good h)
    | inr other ↦ rw other (
        when-AllGood (is_cursor (w.devices i) && (w.devices i).hard_prox == 0)
          (λ v. record v { max_cursor_dist = if c.is_intuos then pos 256 else pos 0 }) w h h)
  ]

  cursor-AllGood :
      (c : Setup) (i : ℕ) (w : World) (ds : DeviceState) → AllGood w → AllGood (cursor c i w ds).0
  unfolding cursor
  cursor-AllGood c i w ds h = elim (Bool-cases (is_cursor (w.devices i))) [
    | inl b ↦ rw b h
    | inr b ↦ rw b h
  ]

  send_last-AllGood :
      (i : ℕ) (w : World) (last : Option DeviceState)
      → AllGood w
      → AllGood (send_last accelerate unify relative i (w, last)).0
  unfolding send_last
  send_last-AllGood i w none h = h
  send_last-AllGood i w (some out) h = send_to-AllGood i out w h

  send_moved-AllGood :
      (c : Setup) (i : ℕ) (w : World) (moved : Option DeviceState)
      → AllGood w
      → AllGood (send_moved accelerate unify relative c i w moved).0
  unfolding send_moved
  send_moved-AllGood c i w none h = h
  send_moved-AllGood c i w (some ds) h =
      let (w', last) = cursor c i w ds in send_last-AllGood i w' last (cursor-AllGood c i w ds h)

  dispatch_to-AllGood :
      (c : Setup) (suppress i : ℕ) (ds : DeviceState) (w : World)
      → AllGood w
      → AllGood (dispatch_to accelerate unify relative c suppress i ds w).0
  unfolding dispatch_to
  dispatch_to-AllGood c suppress i ds w h =
      let w0 = settle_touch accelerate unify relative c i w in
      let (w1, filtered) = transformed c i w0 ds in
      let w2 = note_hard_prox i ds.proximity w1 in
      send_moved-AllGood c i w2
        (relative_move accelerate unify relative suppress (w2.devices i) filtered)
        (note_hard_prox-AllGood i ds.proximity w1
          (transformed-AllGood c i w0 ds (settle_touch-AllGood c i w h)))

  release-AllGood :
      (n : ℕ) (t : Select.Tool) (w : World) (gone : Bool)
      → AllGood w
      → AllGood (release accelerate unify relative n t (w, gone))
  unfolding release
  release-AllGood n t w true h = h
  release-AllGood n t w false h = h

  dispatch_place-AllGood :
      (c : Setup) (suppress : ℕ) (ds : DeviceState) (n : ℕ) (t : Select.Tool) (place : Option Place)
      (w : World)
      → AllGood w
      → AllGood (dispatch_place accelerate unify relative c suppress ds n t place w)
  unfolding dispatch_place
  dispatch_place-AllGood c suppress ds n t none w h = h
  dispatch_place-AllGood c suppress ds n t (some place) w h =
      let (w', gone) = dispatch_to accelerate unify relative c suppress place.device ds w in
      elim (Bool-cases (w.devices place.device).usable) [
        | inl usable ↦
            rw usable
              (release-AllGood n t w' gone (dispatch_to-AllGood c suppress place.device ds w h))
        | inr not_usable ↦ rw not_usable h
      ]

  maybe_out-AllGood :
      (left : Option ℕ) (w : World)
      → AllGood w
      → AllGood (maybe_out accelerate unify relative left w)
  maybe_out-AllGood none w h = h
  maybe_out-AllGood (some i) w h = soft_out-AllGood i w h

  dispatch_nth-AllGood :
      (c : Setup) (suppress : ℕ) (ds : DeviceState) (found : Option ℕ) (w : World)
      → AllGood w
      → AllGood (dispatch_nth accelerate unify relative c suppress ds found w)
  unfolding dispatch_nth dispatch_tool
  dispatch_nth-AllGood c suppress ds none w h = h
  dispatch_nth-AllGood c suppress ds (some n) w h = found-AllGood (nth n w.tools)
    where
      found-AllGood :
          (found : Option Select.Tool)
          → AllGood (elim found as (λ _. World) [
            | none ↦ w
            | some t ↦ dispatch_tool accelerate unify relative c suppress ds n t w
          ])
      found-AllGood none = h
      found-AllGood (some t) =
          let (left, t') = choose_area ds.x ds.y t in
          let w' : World = record w { tools = set_current n t' w.tools } in
          dispatch_place-AllGood c suppress ds n t' t'.current
            (maybe_out accelerate unify relative left w') (maybe_out-AllGood left w' h)

  -- Whatever the channels report, and whatever the tools, areas and settings are, for every device the calls
  -- of sendAButton keep the buttons of the server as the device expects them, with none of the 32 down
  -- while its tool is away; and a device that posts proximity posts in order.
  pub dispatches-AllGood :
      (c : Setup) (reports : List (ℕ × DeviceState)) (w : World)
      → AllGood w
      → AllGood (dispatches accelerate unify relative c reports w)
  unfolding dispatches dispatch
  dispatches-AllGood c [] w h = h
  dispatches-AllGood c ((suppress, ds) ∷ reports) w h =
      let s = settled ds w in
      dispatches-AllGood c reports (dispatch accelerate unify relative c suppress ds w) (
        dispatch_nth-AllGood c suppress s (find_tool 0 none w.tools s.device_type s.serial_num) w h)
