-- ===== src/Xdrv/SendButton/Screens.antt =====
-- The screens that a button toggles through.
use mathlib.Core.Path.{subst, sym}
use native.Mathlib.Nat.{mod-add-mod, mod-eq_of_lt, mod_self, mod-lt}
use linuxwacom.Prelude.{
  ℕ, zero, suc, ◌+◌, ◌%◌, ◌<◌, ◌==◌, ◌≡◌, refl, Bool, true, false, bit_and, arith, leb, Bool-cases,
  inl, inr,
}
use linuxwacom.Prelude.Int.{pos, ◌+ℤ◌}
use linuxwacom.Xdrv.Wheels.{Action, ac_type}
use linuxwacom.Xdrv.SendButton.{
  Tool, Tablet, ac_screentoggle, change_screen, next_screen, toggle_screens, send_a_button,
}
use linuxwacom.Xdrv.SendButton.Release.{click}

abbrev pub clicks : (ℕ → Bool) → Action → ℕ → Tablet → Tablet
clicks is_modifier a zero w = w
clicks is_modifier a (suc k) w = clicks is_modifier a k (click is_modifier a w)

-- A tool with `n` screens, more than one, that is no pad and on the screen `s`.
pub record IsOn (n s : ℕ) (w : Tablet) : Type 0 where
  pub no_pad : w.tool.is_pad ≡ false
  pub several : 1 < n
  pub screens : w.tool.num_screen ≡ pos n
  pub within : s < n
  pub screen : w.tool.screen_no ≡ pos s

module _ (is_modifier : ℕ → Bool) (a : Action) (toggles : bit_and a.code ac_type ≡ ac_screentoggle)
    (n : ℕ) where
  code-set : (a.code == 0) ≡ false
  code-set = elim (Bool-cases (a.code == 0)) [
    | inl none ↦ grind (arith, toggles, none)
    | inr some ↦ some
  ]

  send_a_button-toggle :
      (press : Bool) (w : Tablet)
      → send_a_button is_modifier a press w ≡ toggle_screens (pos 0) press w
  unfolding send_a_button
  send_a_button-toggle press w = rw (code-set, toggles) refl

  toggle_screens-tool :
      (s : ℕ) (w : Tablet)
      → IsOn n s w
      → (toggle_screens (pos 0) true w).tool ≡ next_screen (pos 0) w.tool
  unfolding toggle_screens
  toggle_screens-tool s w h = rw (h.no_pad, h.screens) (ground (arith, h.several))

  last-wraps : (s : ℕ) → s < n → leb n (s + 1) ≡ true → (s + 1) % n ≡ 0
  last-wraps s within over =
      let last : s + 1 ≡ n = ground (arith, within, over) in rw last (mod_self n)

  next_screen-wraps :
      (s : ℕ) (t : Tool)
      → s < n
      → t.num_screen ≡ pos n
      → t.screen_no ≡ pos s
      → (next_screen (pos 0) t).screen_no ≡ pos ((s + 1) % n)
  unfolding next_screen change_screen ◌+ℤ◌
  next_screen-wraps s t within screens screen = elim (Bool-cases (leb n (s + 1))) [
    | inl over ↦ rw (screens, screen, last-wraps s within over) (ground (arith, over))
    | inr inside ↦
        rw (screens, screen, mod-eq_of_lt {n = s + 1} {m = n} (ground (arith, inside)))
          (ground (arith, inside))
  ]

  click-tool :
      (s : ℕ) (w : Tablet) → IsOn n s w → (click is_modifier a w).tool ≡ next_screen (pos 0) w.tool
  unfolding toggle_screens
  click-tool s w h =
      rw
        (
          send_a_button-toggle false (send_a_button is_modifier a true w),
          send_a_button-toggle true w,
        )
        (toggle_screens-tool s w h)

  click-IsOn : (s : ℕ) (w : Tablet) → IsOn n s w → IsOn n ((s + 1) % n) (click is_modifier a w)
  unfolding next_screen change_screen
  click-IsOn s w h = record {
    no_pad = rw (click-tool s w h) h.no_pad;
    several = h.several;
    screens = rw (click-tool s w h) h.screens;
    within = mod-lt (s + 1) (omega (arith, h.several));
    screen = rw (click-tool s w h) (next_screen-wraps s w.tool h.within h.screens h.screen);
  }

  -- A button that toggles the screens, clicked `k` times with a tool that is no pad, moves the tool from
  -- the screen `s` of several on by `k` screens, after the last one to the first.
  pub clicks-IsOn :
      (k s : ℕ) (w : Tablet) → IsOn n s w → IsOn n ((s + k) % n) (clicks is_modifier a k w)
  clicks-IsOn zero s w h =
      let still : s + 0 ≡ s = omega arith in
      let here : (s + 0) % n ≡ s = rw (still, mod-eq_of_lt {n = s} {m = n} h.within) refl in
      subst (λ i. IsOn n i w) (sym here) h
  clicks-IsOn (suc k) s w h =
      let later : s + suc k ≡ s + 1 + k = omega arith in
      let next : (s + suc k) % n ≡ ((s + 1) % n + k) % n =
        rw (later, mod-add-mod (s + 1) n k) refl in
      subst (λ i. IsOn n i (clicks is_modifier a (suc k) w)) (sym next)
        (clicks-IsOn k ((s + 1) % n) (click is_modifier a w) (click-IsOn s w h))
