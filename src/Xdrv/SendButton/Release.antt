-- ===== src/Xdrv/SendButton/Release.antt =====
-- A button that is pressed and let go.
use linuxwacom.Prelude.{ℕ, ◌≡◌, Bool, true, false, arith}
use linuxwacom.Prelude.Int.{ℤ}
use linuxwacom.Xdrv.Wheels.{Action, send_keystroke}
use linuxwacom.Xdrv.Wheels.Balance.{button_down, key_down, keystroke-up, keystroke-button}
use linuxwacom.Xdrv.SendButton.{Tablet, send_a_button, toggle_screens, double_click}

-- The button is pressed and let go.
abbrev pub click : (ℕ → Bool) → Action → Tablet → Tablet
click is_modifier a w = send_a_button is_modifier a false (send_a_button is_modifier a true w)

toggle_screens-posts :
    (first : ℤ) (press : Bool) (w : Tablet) → (toggle_screens first press w).posts ≡ w.posts
unfolding toggle_screens
toggle_screens-posts first press w = ground arith

-- Whatever a button stands for, after it is pressed and let go each button and key is up that was up
-- before.
pub click-up :
    (is_modifier : ℕ → Bool) (n : ℕ) (a : Action) (w : Tablet)
    → button_down n w.posts ≡ false
    → key_down n w.posts ≡ false
    → (button_down n (click is_modifier a w).posts ≡ false)
      × (key_down n (click is_modifier a w).posts ≡ false)
unfolding send_a_button double_click toggle_screens
click-up is_modifier n a w no_button no_key =
    let pressed = send_keystroke is_modifier a true w.posts in
    ground (
      arith,
      no_button,
      no_key,
      keystroke-up is_modifier n a w.posts no_key,
      keystroke-button is_modifier n a true w.posts,
      keystroke-button is_modifier n a false pressed,
    )
