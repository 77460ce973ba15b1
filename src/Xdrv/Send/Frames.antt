-- ===== src/Xdrv/Send/Frames.antt =====
-- The order of what a tool posts.
use linuxwacom.Prelude.{
  ℕ, zero, suc, ◌+◌, ◌^◌, ◌≡◌, refl, ◌==◌, Bool, true, false, not, ◌&&◌, ◌||◌, List, [], ◌∷◌, ◌++◌,
  map, if◌then◌else◌, nonzero, arith, Bool-cases, inl, inr, All,
}
use linuxwacom.Prelude.Bits.{bit_and-zero}
use linuxwacom.Prelude.Int.{ℤ, pos}
use linuxwacom.Xdrv.Buttons.{Call, Device, bit, changes, lifts, tip_up, send_buttons}
use linuxwacom.Xdrv.Events.{DeviceState}
use linuxwacom.Xdrv.ToolIds.{pad_id}
use linuxwacom.Xdrv.Send.{
  Post, proximity, motion, a_button, set_screen, wheels, Axes, Tool, enter, post_buttons,
  button_events, has_turned, proximity_in, proximity_out, common_events, post_away, post_near,
  only_if, touched, in_use, position, finish, step_of, axes_of, events_of, send_known, send_tool,
  send_pad, send_events,
}

-- Whether posts come in order, with the tool there or not before them: proximity events alternate, and
-- while the tool is away there is no other event but the release of buttons. The result is also
-- whether the tool is there after them.
abbrev pub InOrder : Bool → List Post → Bool → Type 0
InOrder near [] end = near ≡ end
InOrder near (proximity b a ∷ ps) end = (near ≡ not b) × InOrder b ps end
InOrder near (motion a ∷ ps) end = (near ≡ true) × InOrder near ps end
InOrder near (a_button (i, v) ∷ ps) end = ((near || v == 0) ≡ true) × InOrder near ps end
InOrder near (set_screen x y ∷ ps) end = InOrder near ps end
InOrder near (wheels ds ∷ ps) end = (near ≡ true) × InOrder near ps end

pub InOrder-append :
    (ps qs : List Post) (a b c : Bool) → InOrder a ps b → InOrder b qs c → InOrder a (ps ++ qs) c
InOrder-append [] qs a b c p q = rw p q
InOrder-append (proximity n x ∷ ps) qs a b c p q = (p.0, InOrder-append ps qs n b c p.1 q)
InOrder-append (motion x ∷ ps) qs a b c p q = (p.0, InOrder-append ps qs a b c p.1 q)
InOrder-append (a_button (i, v) ∷ ps) qs a b c p q = (p.0, InOrder-append ps qs a b c p.1 q)
InOrder-append (set_screen x y ∷ ps) qs a b c p q = InOrder-append ps qs a b c p q
InOrder-append (wheels ds ∷ ps) qs a b c p q = (p.0, InOrder-append ps qs a b c p.1 q)

buttons-near : (calls : List Call) → InOrder true (map a_button calls) true
buttons-near [] = refl
buttons-near ((i, v) ∷ calls) = (refl, buttons-near calls)

-- Calls that only release buttons.
abbrev Releases : List Call → Type 0
Releases = All (λ (c : Call). c.1 ≡ 0)

buttons-released :
    (near : Bool) (calls : List Call) → Releases calls → InOrder near (map a_button calls) near
buttons-released near [] h = refl
buttons-released near ((i, v) ∷ calls) h = (ground (arith, h.0), buttons-released near calls h.1)

pub bit-empty : (i : ℕ) → bit i 0 ≡ 0
bit-empty i = bit_and-zero (2 ^ i)

changes-released : (n i old : ℕ) → Releases (changes n i old 0)
unfolding changes
changes-released zero i old = tt
changes-released (suc n) i old = ground (arith, changes-released n (i + 1) old, bit-empty i)

lifts-released : (n i old new : ℕ) → Releases (lifts n i old new)
unfolding lifts
lifts-released zero i old new = tt
lifts-released (suc n) i old new = ground (arith, lifts-released n (i + 1) old new)

Releases-append : (cs ds : List Call) → Releases cs → Releases ds → Releases (cs ++ ds)
Releases-append [] ds p q = q
Releases-append ((i, v) ∷ cs) ds p q = (p.0, Releases-append cs ds p.1 q)

send_buttons-released : (d : Device) → Releases (send_buttons d 0).0
unfolding send_buttons tip_up
send_buttons-released d = ground (
  arith,
  changes-released 32 0 d.old_buttons,
  lifts-released 31 1 d.old_buttons 0,
  Releases-append (lifts 31 1 d.old_buttons 0) ((0, 0) ∷ []),
)

button_events-near : (b : ℕ) (t : Tool) → InOrder true (button_events b t).0 true
unfolding button_events post_buttons
button_events-near b t = ground (arith, buttons-near (send_buttons t.device b).0)

common_events-InOrder : (ds : DeviceState) (t : Tool) → InOrder true (common_events ds t).0 true
unfolding common_events
common_events-InOrder ds t =
    let events = (button_events ds.buttons t).0 in
    let near = button_events-near ds.buttons t in
    elim (Bool-cases (has_turned ds t.old)) [
      | inl turned ↦
          rw turned (InOrder-append events (wheels ds ∷ []) true true true near (refl, refl))
      | inr still ↦ rw still near
    ]

proximity_in-InOrder :
    (a : Axes) (t : Tool)
    → t.has_proximity ≡ true
    → InOrder (nonzero t.old_proximity) (proximity_in a t) true
proximity_in-InOrder a t h = rw h (elim (Bool-cases (t.old_proximity == 0)) [
  | inl away ↦ rw away (refl, refl)
  | inr near ↦ rw near refl
])

proximity_out-InOrder :
    (a : Axes) (t : Tool)
    → t.has_proximity ≡ true
    → InOrder (nonzero t.old_proximity) (proximity_out a t) false
proximity_out-InOrder a t h = rw h (elim (Bool-cases (t.old_proximity == 0)) [
  | inl away ↦ rw away refl
  | inr near ↦ rw near (refl, refl)
])

post_near-InOrder :
    (screen motions : List Post) (a : Axes) (ds : DeviceState) (t : Tool)
    → t.has_proximity ≡ true
    → ((near : Bool) → InOrder near screen near)
    → InOrder true motions true
    → InOrder (nonzero t.old_proximity) (post_near screen motions a ds t).0 true
unfolding post_near
post_near-InOrder screen motions a ds t h still moving =
    let near = nonzero t.old_proximity in
    let events = (common_events ds t).0 in
    InOrder-append screen (proximity_in a t ++ (motions ++ events)) near near true (still near) (
      InOrder-append (proximity_in a t) (motions ++ events) near true true
        (proximity_in-InOrder a t h)
        (InOrder-append motions events true true true moving (common_events-InOrder ds t)))

post_away-InOrder :
    (a : Axes) (t : Tool)
    → t.has_proximity ≡ true
    → InOrder (nonzero t.old_proximity) (post_away a t).0 false
unfolding post_away post_buttons
post_away-InOrder a t h =
    let calls = (send_buttons t.device 0).0 in
    let near = nonzero t.old_proximity in
    InOrder-append (map a_button calls) (proximity_out a t) near near false
      (buttons-released near calls (send_buttons-released t.device)) (proximity_out-InOrder a t h)

only_if-screen : (b : Bool) (x y : ℤ) (near : Bool) → InOrder near (only_if b (set_screen x y)) near
only_if-screen true x y near = refl
only_if-screen false x y near = refl

only_if-motion : (b : Bool) (a : Axes) → InOrder true (only_if b (motion a)) true
only_if-motion true a = (refl, refl)
only_if-motion false a = refl

pub enter_lem :
    (at : ℤ × ℤ) (ds : DeviceState) (t : Tool)
    → ((enter at ds t).old_proximity ≡ t.old_proximity)
      × ((enter at ds t).has_proximity ≡ t.has_proximity)
unfolding enter
enter_lem (x, y) ds t = ground arith

finish-old_proximity :
    (near : ℕ) (ds : DeviceState) (t : Tool) → (finish near ds t).old_proximity ≡ near
unfolding finish
finish-old_proximity near ds t = ground arith

near_flag : (b : Bool) → nonzero (if b then 1 else 0) ≡ b
near_flag true = refl
near_flag false = refl

module _ (accelerate : Tool → ℤ → ℤ) (unify : Tool → ℤ → ℤ) where
  send_tool-InOrder :
      (at : ℤ × ℤ) (a : Axes) (ds : DeviceState) (t : Tool)
      → t.has_proximity ≡ true
      → InOrder
          (nonzero t.old_proximity)
          (send_tool accelerate unify at a ds t).0
          (nonzero ds.proximity)
  unfolding send_tool
  send_tool-InOrder (x, y) a ds t h = elim (Bool-cases (nonzero ds.proximity)) [
    | inl near ↦ rw near (
        post_near-InOrder (only_if (not t.buttons_only) (set_screen x y))
          (only_if (not t.buttons_only)
            (motion (record a { x = if t.absolute then x else unify t x })))
          (record a { x = if t.absolute then x else unify t x }) ds t h
          (only_if-screen (not t.buttons_only) x y) (only_if-motion (not t.buttons_only) _))
    | inr away ↦ rw away (post_away-InOrder a t h)
  ]

  send_pad-InOrder :
      (a : Axes) (ds : DeviceState) (t : Tool)
      → t.has_proximity ≡ true
      → InOrder (nonzero t.old_proximity) (send_pad accelerate unify a ds t).0 (in_use a ds)
  unfolding send_pad
  send_pad-InOrder a ds t h = elim (Bool-cases (in_use a ds)) [
    | inl near ↦ rw near (
        post_near-InOrder (only_if (touched a) (set_screen (pos 0) (pos 0)))
          (only_if (touched a) (motion (record a { x = pos 0; y = pos 0 })))
          (record a { x = pos 0; y = pos 0 }) ds t h (only_if-screen (touched a) (pos 0) (pos 0))
          (only_if-motion (touched a) _))
    | inr away ↦ rw away (post_away-InOrder a t h)
  ]

  events_of-InOrder :
      (ds : DeviceState) (t : Tool)
      → t.has_proximity ≡ true
      → let ((ps, t'), near) = events_of accelerate unify ds t in
        InOrder (nonzero t.old_proximity) ps (nonzero near)
  unfolding events_of
  events_of-InOrder ds t h =
      let at = step_of accelerate unify (t.current_x, t.current_y) t in
      let a = axes_of accelerate unify at ds t in
      elim (Bool-cases (ds.device_type == pad_id)) [
        | inl pad ↦ rw pad (rw (near_flag (in_use a ds)) (send_pad-InOrder a ds t h))
        | inr tool ↦ rw tool (send_tool-InOrder at a ds t h)
      ]

  pub send_events-InOrder :
      (ds : DeviceState) (t : Tool)
      → t.has_proximity ≡ true
      → let (ps, t') = send_events accelerate unify ds t in
        InOrder (nonzero t.old_proximity) ps (nonzero t'.old_proximity)
  unfolding send_events send_known enter
  send_events-InOrder ds t h =
      elim (Bool-cases (nonzero t.serial && not (ds.serial_num == t.serial))) [
        | inl other ↦ rw other refl
        | inr known ↦
            let s = enter (position t ds) ds t in
            let (old, has) = enter_lem (position t ds) ds t in
            let ((ps, s'), near) = events_of accelerate unify ds s in
            rw (known, finish-old_proximity near ds s')
              (rw old at (events_of-InOrder ds s (rw has h)))
      ]

  common_events-has_proximity :
      (ds : DeviceState) (t : Tool) → (common_events ds t).1.has_proximity ≡ t.has_proximity
  unfolding common_events button_events post_buttons
  common_events-has_proximity ds t = ground arith

  pub send_events-has_proximity :
      (ds : DeviceState) (t : Tool)
      → (send_events accelerate unify ds t).1.has_proximity ≡ t.has_proximity
  unfolding send_events send_known events_of send_pad send_tool post_near post_away post_buttons
      finish
  send_events-has_proximity ds t =
      let s = enter (position t ds) ds t in
      ground (arith, common_events-has_proximity ds s, enter_lem (position t ds) ds t)

  -- The posts for reports in turn.
  unfoldable pub send_run : List DeviceState → Tool → List Post × Tool
  send_run [] t = ([], t)
  send_run (ds ∷ reports) t =
      let (ps, t') = send_events accelerate unify ds t in
      let (qs, t'') = send_run reports t' in (ps ++ qs, t'')

  -- Whatever a tool that posts proximity reports, xf86WcmSendEvents posts in order: the proximity
  -- events alternate, and while the tool is away there is no motion, no wheel event and no press
  -- of a button; after the reports the tool is there for the server exactly if `oldProximity` is set.
  pub send_run-InOrder :
      (reports : List DeviceState) (t : Tool)
      → t.has_proximity ≡ true
      → let (ps, t') = send_run reports t in
        InOrder (nonzero t.old_proximity) ps (nonzero t'.old_proximity)
  unfolding send_run
  send_run-InOrder [] t h = refl
  send_run-InOrder (ds ∷ reports) t h =
      let (ps, t') = send_events accelerate unify ds t in
      let (qs, t'') = send_run reports t' in
      InOrder-append ps qs (nonzero t.old_proximity) (nonzero t'.old_proximity)
        (nonzero t''.old_proximity) (send_events-InOrder ds t h)
        (send_run-InOrder reports t' (rw (send_events-has_proximity ds t) h))
