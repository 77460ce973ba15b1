-- ===== src/Xdrv/Wheels/Balance.antt =====
-- The keys and buttons that a wheel or strip presses and lets go.
use linuxwacom.Prelude.{
  ℕ, zero, suc, ◌/◌, ◌^◌, ◌==◌, ◌≡◌, refl, Bool, true, false, ◌||◌, List, [], ◌∷◌, bit_and,
  if◌then◌else◌, has, nonzero, arith, Bool-cases, inl, inr,
}
use linuxwacom.Xdrv.Events.{DeviceState}
use linuxwacom.Xdrv.Wheels.{
  Action, Pad, Post, button, keysym, choose, stroke, strokes, send_keystroke,
  send_wheel_strip_events, ac_core, ac_num_keys,
}

abbrev pub button_down : ℕ → List Post → Bool
button_down n [] = false
button_down n (button m state ∷ ps) = if m == n then nonzero state else button_down n ps
button_down n (keysym _ _ ∷ ps) = button_down n ps

abbrev pub key_down : ℕ → List Post → Bool
key_down k [] = false
key_down k (button _ _ ∷ ps) = key_down k ps
key_down k (keysym j state ∷ ps) = if j == k then nonzero state else key_down k ps

-- Whether a key is among the first `n` keys.
abbrev among : ℕ → ℕ → List ℕ → Bool
among k zero keys = false
among k (suc n) [] = false
among k (suc n) (j ∷ keys) = j == k || among k n keys

module _ (is_modifier : ℕ → Bool) (k : ℕ) where
  stroke-plain :
      (j : ℕ) (press : Bool) (ps : List Post)
      → is_modifier k ≡ false
      → key_down k ps ≡ false
      → key_down k (stroke is_modifier j press ps) ≡ false
  unfolding stroke
  stroke-plain j press ps plain up = grind (arith, plain, up)

  stroke-away :
      (j : ℕ) (press : Bool) (ps : List Post)
      → (j == k) ≡ false
      → key_down k (stroke is_modifier j press ps) ≡ key_down k ps
  unfolding stroke
  stroke-away j press ps away = ground (arith, away)

  stroke-up :
      (j : ℕ) (ps : List Post)
      → key_down k ps ≡ false
      → key_down k (stroke is_modifier j false ps) ≡ false
  unfolding stroke
  stroke-up j ps up = ground (arith, up)

  stroke-lifts :
      (j : ℕ) (ps : List Post)
      → is_modifier k ≡ true
      → (j == k) ≡ true
      → key_down k (stroke is_modifier j false ps) ≡ false
  unfolding stroke
  stroke-lifts j ps modifier here = grind (arith, modifier, here)

  strokes-plain :
      (n : ℕ) (keys : List ℕ) (press : Bool) (ps : List Post)
      → is_modifier k ≡ false
      → key_down k ps ≡ false
      → key_down k (strokes is_modifier n keys press ps) ≡ false
  unfolding strokes
  strokes-plain zero keys press ps plain up = up
  strokes-plain (suc n) [] press ps plain up = up
  strokes-plain (suc n) (j ∷ keys) press ps plain up =
      strokes-plain n keys press (stroke is_modifier j press ps) plain
        (stroke-plain j press ps plain up)

  strokes-up :
      (n : ℕ) (keys : List ℕ) (ps : List Post)
      → key_down k ps ≡ false
      → key_down k (strokes is_modifier n keys false ps) ≡ false
  unfolding strokes
  strokes-up zero keys ps up = up
  strokes-up (suc n) [] ps up = up
  strokes-up (suc n) (j ∷ keys) ps up =
      strokes-up n keys (stroke is_modifier j false ps) (stroke-up j ps up)

  strokes-away :
      (n : ℕ) (keys : List ℕ) (press : Bool) (ps : List Post)
      → among k n keys ≡ false
      → key_down k (strokes is_modifier n keys press ps) ≡ key_down k ps
  unfolding strokes
  strokes-away zero keys press ps away = refl
  strokes-away (suc n) [] press ps away = refl
  strokes-away (suc n) (j ∷ keys) press ps away =
      rw
        (
          strokes-away n keys press (stroke is_modifier j press ps) (ground (arith, away)),
          stroke-away j press ps (ground (arith, away)),
        )
        refl

  strokes-lift :
      (n : ℕ) (keys : List ℕ) (ps : List Post)
      → is_modifier k ≡ true
      → among k n keys ≡ true
      → key_down k (strokes is_modifier n keys false ps) ≡ false
  unfolding strokes
  strokes-lift zero keys ps modifier here = ground (arith, here)
  strokes-lift (suc n) [] ps modifier here = ground (arith, here)
  strokes-lift (suc n) (j ∷ keys) ps modifier here = elim (Bool-cases (j == k)) [
    | inl at ↦ strokes-up n keys (stroke is_modifier j false ps) (stroke-lifts j ps modifier at)
    | inr off ↦
        strokes-lift n keys (stroke is_modifier j false ps) modifier (ground (arith, here, off))
  ]

  strokes-twice :
      (n : ℕ) (keys : List ℕ) (ps : List Post)
      → key_down k ps ≡ false
      → key_down k (strokes is_modifier n keys false (strokes is_modifier n keys true ps)) ≡ false
  strokes-twice n keys ps up =
      let pressed = strokes is_modifier n keys true ps in
      elim (Bool-cases (is_modifier k)) [
        | inl modifier ↦ elim (Bool-cases (among k n keys)) [
          | inl here ↦ strokes-lift n keys pressed modifier here
          | inr away ↦ strokes-up n keys pressed (rw (strokes-away n keys true ps away) up)
        ]
        | inr plain ↦
            strokes-plain n keys false pressed plain (strokes-plain n keys true ps plain up)
      ]

  pub keystroke-up :
      (a : Action) (ps : List Post)
      → key_down k ps ≡ false
      → key_down k (send_keystroke is_modifier a false (send_keystroke is_modifier a true ps))
        ≡ false
  unfolding send_keystroke
  keystroke-up a ps up = elim (Bool-cases (has a.code ac_core)) [
    | inl core ↦ rw core (strokes-twice (bit_and a.code ac_num_keys / 2 ^ 20) a.keys ps up)
    | inr none ↦ rw none up
  ]

  send_wheel_strip_events-key :
      (p : Pad) (ds : DeviceState) (ps : List Post)
      → key_down k ps ≡ false
      → key_down k (send_wheel_strip_events is_modifier p ds ps) ≡ false
  unfolding send_wheel_strip_events
  send_wheel_strip_events-key p ds ps up = ground (arith, keystroke-up (choose p ds).0 ps up, up)

  strokes-button :
      (n : ℕ) (keys : List ℕ) (press : Bool) (ps : List Post)
      → button_down k (strokes is_modifier n keys press ps) ≡ button_down k ps
  unfolding strokes stroke
  strokes-button zero keys press ps = refl
  strokes-button (suc n) [] press ps = refl
  strokes-button (suc n) (j ∷ keys) press ps =
      rw (strokes-button n keys press (stroke is_modifier j press ps)) (ground arith)

  pub keystroke-button :
      (a : Action) (press : Bool) (ps : List Post)
      → button_down k (send_keystroke is_modifier a press ps) ≡ button_down k ps
  unfolding send_keystroke
  keystroke-button a press ps = elim (Bool-cases (has a.code ac_core)) [
    | inl core ↦ rw core (strokes-button (bit_and a.code ac_num_keys / 2 ^ 20) a.keys press ps)
    | inr none ↦ rw none refl
  ]

  send_wheel_strip_events-button :
      (p : Pad) (ds : DeviceState) (ps : List Post)
      → button_down k ps ≡ false
      → button_down k (send_wheel_strip_events is_modifier p ds ps) ≡ false
  unfolding send_wheel_strip_events
  send_wheel_strip_events-button p ds ps up =
      let a = (choose p ds).0 in
      let pressed = send_keystroke is_modifier a true ps in
      ground (arith, up, keystroke-button a false pressed, keystroke-button a true ps)

-- The posts of the calls for the reports, each with the pad as it was at that time.
abbrev pub wheel_run : (ℕ → Bool) → List (Pad × DeviceState) → List Post → List Post
wheel_run is_modifier [] ps = ps
wheel_run is_modifier ((p, ds) ∷ rest) ps =
    wheel_run is_modifier rest (send_wheel_strip_events is_modifier p ds ps)

-- Whatever the wheels and strips report, and whatever is set for them, each button and key that was up
-- before the reports is up after them.
pub wheel_run-up :
    (is_modifier : ℕ → Bool) (n : ℕ) (reports : List (Pad × DeviceState)) (ps : List Post)
    → button_down n ps ≡ false
    → key_down n ps ≡ false
    → (button_down n (wheel_run is_modifier reports ps) ≡ false)
      × (key_down n (wheel_run is_modifier reports ps) ≡ false)
wheel_run-up is_modifier n [] ps no_button no_key = (no_button, no_key)
wheel_run-up is_modifier n ((p, ds) ∷ rest) ps no_button no_key =
    wheel_run-up is_modifier n rest (send_wheel_strip_events is_modifier p ds ps)
      (send_wheel_strip_events-button is_modifier n p ds ps no_button)
      (send_wheel_strip_events-key is_modifier n p ds ps no_key)
