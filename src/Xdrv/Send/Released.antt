-- ===== src/Xdrv/Send/Released.antt =====
-- The buttons of the server after the posts of a tool.
use mathlib.Core.Path.{subst}
use linuxwacom.Prelude.{
  ℕ, ◌<◌, ◌≡◌, refl, ◌==◌, Bool, true, false, not, ◌&&◌, ◌||◌, List, [], ◌∷◌, ◌++◌, map,
  if◌then◌else◌, nonzero, arith, Bool-cases, inl, inr, update, ◌∙◌,
}
use linuxwacom.Prelude.Int.{ℤ, pos}
use linuxwacom.Xdrv.Buttons.{Call, Device, send_buttons, tip_up}
use linuxwacom.Xdrv.Buttons.View.{view}
use linuxwacom.Xdrv.Buttons.Refine.{InStep, expected, report, report-InStep}
use linuxwacom.Xdrv.Events.{DeviceState}
use linuxwacom.Xdrv.ToolIds.{pad_id}
use linuxwacom.Xdrv.Send.{
  Post, proximity, motion, a_button, set_screen, wheels, Axes, Tool, enter, post_buttons,
  button_events, has_turned, proximity_in, proximity_out, common_events, post_away, post_near,
  only_if, touched, in_use, position, finish, step_of, axes_of, events_of, send_known, send_tool,
  send_pad, send_events,
}
use linuxwacom.Xdrv.Send.Frames.{bit-empty, send_run}

-- The buttons of the server after posts, of those before.
abbrev pub served : List Post → (ℕ → Bool) → ℕ → Bool
served [] s = s
served (a_button c ∷ ps) s = served ps (view (c ∷ []) s)
served (proximity n a ∷ ps) s = served ps s
served (motion a ∷ ps) s = served ps s
served (set_screen x y ∷ ps) s = served ps s
served (wheels ds ∷ ps) s = served ps s

pub served-append :
    (ps qs : List Post) (s : ℕ → Bool) → served (ps ++ qs) s ≡ served qs (served ps s)
served-append [] qs s = refl
served-append (a_button c ∷ ps) qs s = served-append ps qs (view (c ∷ []) s)
served-append (proximity n a ∷ ps) qs s = served-append ps qs s
served-append (motion a ∷ ps) qs s = served-append ps qs s
served-append (set_screen x y ∷ ps) qs s = served-append ps qs s
served-append (wheels ds ∷ ps) qs s = served-append ps qs s

served-map : (calls : List Call) (s : ℕ → Bool) → served (map a_button calls) s ≡ view calls s
unfolding view
served-map [] s = refl
served-map ((i, v) ∷ calls) s = served-map calls (update s i (nonzero v))

-- The device that has got a mask of buttons.
abbrev told : ℕ → Device → Device
told b d = record d { old_buttons = b }

post_buttons-InStep :
    (b : ℕ) (t : Tool) (s : ℕ → Bool)
    → InStep t.device s
    → InStep (told b (post_buttons b t).1.device) (served (post_buttons b t).0 s)
unfolding post_buttons report
post_buttons-InStep b t s h =
    rw (served-map (send_buttons t.device b).0 s) (report-InStep t.device b s h)

button_events-InStep :
    (b : ℕ) (t : Tool) (s : ℕ → Bool)
    → InStep t.device s
    → InStep (told b (button_events b t).1.device) (served (button_events b t).0 s)
unfolding button_events
button_events-InStep b t s h =
    elim (Bool-cases (not (t.device.old_buttons == b) || (t.old_proximity == 0 && b == 0))) [
      | inl sent ↦ rw sent (post_buttons-InStep b t s h)
      | inr same ↦ rw same (
          let e : t.device.old_buttons ≡ b = ground (arith, same) in
          subst (λ (m : ℕ). InStep (told m t.device) s) e h)
    ]

common_events-InStep :
    (ds : DeviceState) (t : Tool) (s : ℕ → Bool)
    → InStep t.device s
    → InStep (told ds.buttons (common_events ds t).1.device) (served (common_events ds t).0 s)
unfolding common_events
common_events-InStep ds t s h =
    let events = (button_events ds.buttons t).0 in
    let sent = button_events-InStep ds.buttons t s h in
    elim (Bool-cases (has_turned ds t.old)) [
      | inl turned ↦ rw (turned, served-append events (wheels ds ∷ []) s) sent
      | inr still ↦ rw still sent
    ]

-- Posts that leave the buttons alone.
abbrev IsQuiet : List Post → Type 0
IsQuiet ps = (s : ℕ → Bool) → served ps s ≡ s

proximity_in-IsQuiet : (a : Axes) (t : Tool) → IsQuiet (proximity_in a t)
proximity_in-IsQuiet a t s = ground arith

proximity_out-IsQuiet : (a : Axes) (t : Tool) → IsQuiet (proximity_out a t)
proximity_out-IsQuiet a t s = ground arith

post_near-InStep :
    (screen motions : List Post) (a : Axes) (ds : DeviceState) (t : Tool) (s : ℕ → Bool)
    → IsQuiet screen
    → IsQuiet motions
    → InStep t.device s
    → let (ps, t') = post_near screen motions a ds t in
      InStep (told ds.buttons t'.device) (served ps s)
unfolding post_near
post_near-InStep screen motions a ds t s still moving h =
    let events = (common_events ds t).0 in
    let approach = proximity_in a t in
    let all : served (screen ++ (approach ++ (motions ++ events))) s ≡ served events s =
      rw
        (
          served-append screen (approach ++ (motions ++ events)) s,
          still s,
          served-append approach (motions ++ events) s,
          proximity_in-IsQuiet a t s,
          served-append motions events s,
          moving s,
        )
        refl in
    rw all (common_events-InStep ds t s h)

post_away-InStep :
    (a : Axes) (t : Tool) (s : ℕ → Bool)
    → InStep t.device s
    → let (ps, t') = post_away a t in InStep (told 0 t'.device) (served ps s)
unfolding post_away
post_away-InStep a t s h =
    let calls = (post_buttons 0 t).0 in
    rw (served-append calls (proximity_out a t) s, proximity_out-IsQuiet a t (served calls s))
      (post_buttons-InStep 0 t s h)

-- A device that has got an empty mask expects no button.
post_away-expected :
    (a : Axes) (t : Tool) (j : ℕ) → expected (told 0 (post_away a t).1.device) j ≡ false
unfolding post_away post_buttons send_buttons tip_up
post_away-expected a t j = ground (arith, bit-empty j)

-- The buttons of the server are as the device expects them; while the tool is away, the last mask is
-- empty and no button is down.
pub record IsHeld (t : Tool) (s : ℕ → Bool) : Type 0 where
  pub step : InStep t.device s
  pub away : (t.old_proximity == 0) ≡ true → t.device.old_buttons ≡ 0
  pub up : (t.old_proximity == 0) ≡ true → (j : ℕ) → j < 32 → s j ≡ false

enter-InStep :
    (at : ℤ × ℤ) (ds : DeviceState) (t : Tool) (s : ℕ → Bool)
    → IsHeld t s
    → InStep (enter at ds t).device s
unfolding enter
enter-InStep (x, y) ds t s h = elim (Bool-cases (t.old_proximity == 0)) [
  | inl away ↦ rw away (subst (λ (m : ℕ). InStep (told m t.device) s) (h.away away) h.step)
  | inr near ↦ rw near h.step
]

finish-near :
    (near : ℕ) (ds : DeviceState) (t : Tool) (s : ℕ → Bool)
    → nonzero near ≡ true
    → InStep (told ds.buttons t.device) s
    → IsHeld (finish near ds t) s
unfolding finish
finish-near near ds t s there h = rw there (record {
  step = h;
  away = ground (arith, there);
  up = λ gone. absurd (ground (arith, there, gone));
})

finish-away :
    (near : ℕ) (ds : DeviceState) (a : Axes) (t : Tool) (s : ℕ → Bool)
    → nonzero near ≡ false
    → InStep t.device s
    → let (ps, t') = post_away a t in IsHeld (finish near ds t') (served ps s)
unfolding finish
finish-away near ds a t s gone h =
    let sent = post_away-InStep a t s h in
    rw gone (record {
      step = sent;
      away = λ _. refl;
      up = λ _ j lt. sent.buttons j lt ∙ post_away-expected a t j;
    })

only_if-IsQuiet :
    (b : Bool) (x y : ℤ) (a : Axes)
    → IsQuiet (only_if b (set_screen x y)) × IsQuiet (only_if b (motion a))
only_if-IsQuiet true x y a = (λ s. refl, λ s. refl)
only_if-IsQuiet false x y a = (λ s. refl, λ s. refl)

module _ (accelerate : Tool → ℤ → ℤ) (unify : Tool → ℤ → ℤ) where
  send_tool-IsHeld :
      (at : ℤ × ℤ) (a : Axes) (ds : DeviceState) (t : Tool) (s : ℕ → Bool)
      → InStep t.device s
      → let (ps, t') = send_tool accelerate unify at a ds t in
        IsHeld (finish ds.proximity ds t') (served ps s)
  unfolding send_tool
  send_tool-IsHeld (x, y) a ds t s h = elim (Bool-cases (nonzero ds.proximity)) [
    | inl near ↦
        let b : Axes = record a { x = if t.absolute then x else unify t x } in
        let (still, moving) = only_if-IsQuiet (not t.buttons_only) x y b in
        let screen = only_if (not t.buttons_only) (set_screen x y) in
        let motions = only_if (not t.buttons_only) (motion b) in
        rw near (
          finish-near ds.proximity ds (post_near screen motions b ds t).1
            (served (post_near screen motions b ds t).0 s) near
            (post_near-InStep screen motions b ds t s still moving h))
    | inr gone ↦ rw gone (finish-away ds.proximity ds a t s gone h)
  ]

  abbrev near_of : Axes → DeviceState → ℕ
  near_of a ds = if in_use a ds then 1 else 0

  send_pad-IsHeld :
      (a : Axes) (ds : DeviceState) (t : Tool) (s : ℕ → Bool)
      → InStep t.device s
      → let (ps, t') = send_pad accelerate unify a ds t in
        IsHeld (finish (near_of a ds) ds t') (served ps s)
  unfolding send_pad
  send_pad-IsHeld a ds t s h = elim (Bool-cases (in_use a ds)) [
    | inl near ↦
        let b : Axes = record a { x = pos 0; y = pos 0 } in
        let (still, moving) = only_if-IsQuiet (touched a) (pos 0) (pos 0) b in
        let screen = only_if (touched a) (set_screen (pos 0) (pos 0)) in
        let motions = only_if (touched a) (motion b) in
        rw near (
          finish-near 1 ds (post_near screen motions b ds t).1
            (served (post_near screen motions b ds t).0 s) refl
            (post_near-InStep screen motions b ds t s still moving h))
    | inr gone ↦ rw gone (finish-away 0 ds a t s refl h)
  ]

  events_of-IsHeld :
      (ds : DeviceState) (t : Tool) (s : ℕ → Bool)
      → InStep t.device s
      → let ((ps, t'), near) = events_of accelerate unify ds t in
        IsHeld (finish near ds t') (served ps s)
  unfolding events_of
  events_of-IsHeld ds t s h =
      let at = step_of accelerate unify (t.current_x, t.current_y) t in
      let a = axes_of accelerate unify at ds t in
      elim (Bool-cases (ds.device_type == pad_id)) [
        | inl pad ↦ rw pad (send_pad-IsHeld a ds t s h)
        | inr tool ↦ rw tool (send_tool-IsHeld at a ds t s h)
      ]

  pub send_events-IsHeld :
      (ds : DeviceState) (t : Tool) (s : ℕ → Bool)
      → IsHeld t s
      → let (ps, t') = send_events accelerate unify ds t in IsHeld t' (served ps s)
  unfolding send_events send_known
  send_events-IsHeld ds t s h =
      let at = position t ds in
      elim (Bool-cases (nonzero t.serial && not (ds.serial_num == t.serial))) [
        | inl other ↦ rw other h
        | inr known ↦ rw known (events_of-IsHeld ds (enter at ds t) s (enter-InStep at ds t s h))
      ]

  -- Whatever a tool reports, the calls of sendAButton that xf86WcmSendEvents makes for it keep the
  -- buttons of the server as the device expects them, and while the tool is away none of the 32 is down.
  pub send_run-IsHeld :
      (reports : List DeviceState) (t : Tool) (s : ℕ → Bool)
      → IsHeld t s
      → let (ps, t') = send_run accelerate unify reports t in IsHeld t' (served ps s)
  unfolding send_run
  send_run-IsHeld [] t s h = h
  send_run-IsHeld (ds ∷ reports) t s h =
      let (ps, t') = send_events accelerate unify ds t in
      let (qs, t'') = send_run accelerate unify reports t' in
      rw (served-append ps qs s)
        (send_run-IsHeld reports t' (served ps s) (send_events-IsHeld ds t s h))
