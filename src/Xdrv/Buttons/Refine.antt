-- ===== src/Xdrv/Buttons/Refine.antt =====
-- The calls of `xf86WcmSendButtons` keep the buttons of the server in step with those of the tool.
use linuxwacom.Prelude.{
  ℕ, ◌<◌, Bool, true, false, ◌==◌, ◌&&◌, List, [], ◌∷◌, if◌then◌else◌, ◌≡◌, arith,
}
use linuxwacom.Xdrv.Buttons.{Device, changes, lifts, tip_down, tip_stays, tip_up, send_buttons}
use linuxwacom.Xdrv.Buttons.View.{
  view, pressed, view-changes, view-append, view-presses, presses-empty, view-lifts,
  view-tip_changes,
}

abbrev pub is_tablet_pc : Device → Bool
is_tablet_pc p = p.tpc_button && p.is_stylus

-- Which buttons should be down. Normal buttons: those of the last mask. Tablet PC buttons: none while
-- the tip is up; while it is down, the side buttons of the last mask, and button one (index 0) by
-- its own flag.
abbrev pub expected : Device → ℕ → Bool
expected p j =
    if is_tablet_pc p
    then p.tpc_buttons_flag && (if j == 0 then p.tpc_button_one_flag else pressed p.old_buttons j)
    else pressed p.old_buttons j

-- The server shows what is expected; with the tip up, button one is not pending.
pub record InStep (p : Device) (server : ℕ → Bool) : Type 0 where
  pub buttons : (j : ℕ) → j < 32 → server j ≡ expected p j
  pub one : p.tpc_buttons_flag ≡ false → p.tpc_button_one_flag ≡ false

-- A report: the calls reach the server, and the caller stores the mask in `oldButtons`.
unfoldable pub report : ℕ → Device × (ℕ → Bool) → Device × (ℕ → Bool)
report buttons (p, server) =
    let (cs, p') = send_buttons p buttons in (record p' { old_buttons = buttons }, view cs server)

module _ (p : Device) (b : ℕ) (s : ℕ → Bool) (h : InStep p s) where
  normal-InStep :
      (j : ℕ)
      → j < 32
      → is_tablet_pc p ≡ false
      → view (changes 32 0 p.old_buttons b) s j ≡ pressed b j
  normal-InStep j lt mode = ground (arith, view-changes 32 0 p.old_buttons b j s, h.buttons j lt)

  tip_down-InStep :
      (j : ℕ)
      → j < 32
      → is_tablet_pc p ≡ true
      → p.tpc_buttons_flag ≡ false
      → let (cs, p') = tip_down p b in view cs s j ≡ expected (record p' { old_buttons = b }) j
  unfolding tip_down view
  tip_down-InStep j lt mode up =
      ground (arith, view-presses 31 1 b j s, presses-empty 31 1 b j, h.buttons j lt, h.one up)

  tip_stays-InStep :
      (j : ℕ)
      → j < 32
      → is_tablet_pc p ≡ true
      → p.tpc_buttons_flag ≡ true
      → let (cs, p') = tip_stays p b in view cs s j ≡ expected (record p' { old_buttons = b }) j
  unfolding tip_stays
  tip_stays-InStep j lt mode down = ground (
    arith,
    view-tip_changes 31 1 p.old_buttons b p.tpc_button_one_flag false j s,
    h.buttons j lt,
    h.buttons 0,
  )

  tip_up-InStep :
      (j : ℕ)
      → j < 32
      → is_tablet_pc p ≡ true
      → p.tpc_buttons_flag ≡ true
      → let (cs, p') = tip_up p b in view cs s j ≡ expected (record p' { old_buttons = b }) j
  unfolding tip_up view
  tip_up-InStep j lt mode down = ground (
    arith,
    view-lifts 31 1 p.old_buttons b j s,
    view-append (lifts 31 1 p.old_buttons b) ((0, 0) ∷ []) s,
    h.buttons j lt,
  )

one-send_buttons :
    (p : Device) (b : ℕ)
    → (p.tpc_buttons_flag ≡ false → p.tpc_button_one_flag ≡ false)
    → let p' = (send_buttons p b).1 in p'.tpc_buttons_flag ≡ false → p'.tpc_button_one_flag ≡ false
unfolding send_buttons tip_down tip_stays tip_up
one-send_buttons p b h = ground arith

pub report-InStep :
    (p : Device) (b : ℕ) (s : ℕ → Bool)
    → InStep p s
    → InStep (report b (p, s)).0 (report b (p, s)).1
unfolding report send_buttons view
report-InStep p b s h = record {
  buttons = λ j lt. ground (
    arith,
    normal-InStep p b s h j lt,
    tip_down-InStep p b s h j lt,
    tip_stays-InStep p b s h j lt,
    tip_up-InStep p b s h j lt,
    h.buttons j lt,
  );
  one = one-send_buttons p b h.one;
}

unfoldable pub reports : List ℕ → Device × (ℕ → Bool) → Device × (ℕ → Bool)
reports [] t = t
reports (b ∷ bs) t = reports bs (report b t)

-- For any sequence of button masks, from a device and a server in step on, the calls keep the 32
-- buttons of the server as expected: in normal mode those of the last mask; in Tablet PC mode none
-- while the tip is up, and while it is down the side buttons of the last mask and button one by its
-- flag, which is only set while the tip is down.
pub reports-InStep :
    (bs : List ℕ) (p : Device) (s : ℕ → Bool)
    → InStep p s
    → let (p', s') = reports bs (p, s) in InStep p' s'
unfolding reports
reports-InStep [] p s h = h
reports-InStep (b ∷ bs) p s h =
    reports-InStep bs (report b (p, s)).0 (report b (p, s)).1 (report-InStep p b s h)
