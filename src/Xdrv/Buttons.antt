-- ===== src/Xdrv/Buttons.antt =====
-- `xf86WcmSendButtons` (src/xdrv/wcmCommon.c, built with XF86_BUTTON1_BUG): which button
-- changes it hands to `sendAButton`, as the calls' pairs of a button index and a state.
pub mod View
pub mod Refine
use linuxwacom.Prelude.{
  ℕ, zero, suc, ◌+◌, ◌-◌, ◌*◌, ◌^◌, Bool, true, false, bit_and, ◌==◌, not, ◌&&◌, ◌||◌, List, [],
  ◌∷◌, ◌++◌, if◌then◌else◌, nonzero, has, ◌≡◌, refl,
}

-- What the function reads and writes of the device: `wcmTPCButton`, `IsStylus`, the flags
-- TPCBUTTONS_FLAG and TPCBUTTONONE_FLAG, and `oldButtons`.
pub record Device : Type 0 where
  pub tpc_button : Bool
  pub is_stylus : Bool
  pub tpc_buttons_flag : Bool
  pub tpc_button_one_flag : Bool
  pub old_buttons : ℕ

-- A call of `sendAButton`: the index and the state (0 is up).
abbrev pub Call : Type 0
Call = ℕ × ℕ

abbrev pub max_buttons : ℕ
max_buttons = 32

abbrev pub bit : ℕ → ℕ → ℕ
bit i buttons = bit_and (2 ^ i) buttons

abbrev pub differs : ℕ → ℕ → ℕ → Bool
differs i a b = not (bit i a == bit i b)

-- The loops run over the indices from `i` on, `n` of them.

-- Normal buttons: every button that changed.
unfoldable pub changes : ℕ → ℕ → ℕ → ℕ → List Call
changes zero i old new = []
changes (suc n) i old new =
    let rest = changes n (i + 1) old new in
    if differs i old new then (i, bit i new) ∷ rest else rest

-- The tip comes down: every other button that is pressed. (`bsent` is whether there is one.)
unfoldable pub presses : ℕ → ℕ → ℕ → List Call
presses zero i new = []
presses (suc n) i new =
    let rest = presses n (i + 1) new in if nonzero (bit i new) then (i, 1) ∷ rest else rest

abbrev pub is_empty : List Call → Bool
is_empty [] = true
is_empty (c ∷ cs) = false

-- The tip stays down: every other button that changed, after button one is lifted before the first of
-- them. The result has TPCBUTTONONE_FLAG as it is left.
unfoldable pub tip_changes : ℕ → ℕ → ℕ → ℕ → Bool → Bool → List Call × Bool
tip_changes zero i old new one bsent = ([], one)
tip_changes (suc n) i old new one bsent =
    let lift = differs i old new && one && not bsent in
    let (rest, one') = tip_changes n (i + 1) old new (one && not lift) (bsent || lift) in
    let here = if differs i old new then (i, bit i new) ∷ rest else rest in
    (if lift then (0, 0) ∷ here else here, one')

-- The tip goes up: every other button that changed or is pressed is lifted.
unfoldable pub lifts : ℕ → ℕ → ℕ → ℕ → List Call
lifts zero i old new = []
lifts (suc n) i old new =
    let rest = lifts n (i + 1) old new in
    if differs i old new || nonzero (bit i new) then (i, 0) ∷ rest else rest

-- The three branches of the Tablet PC buttons.
unfoldable pub tip_down : Device → ℕ → List Call × Device
tip_down p buttons =
    let sent = presses (max_buttons - 1) 1 buttons in
    (
      if is_empty sent then (0, 1) ∷ [] else sent,
      record p {
        tpc_buttons_flag = true;
        tpc_button_one_flag = p.tpc_button_one_flag || is_empty sent;
      },
    )

unfoldable pub tip_stays : Device → ℕ → List Call × Device
tip_stays p buttons =
    let (sent, one) =
      tip_changes (max_buttons - 1) 1 p.old_buttons buttons p.tpc_button_one_flag false in
    (sent, record p { tpc_button_one_flag = one })

unfoldable pub tip_up : Device → ℕ → List Call × Device
tip_up p buttons =
    let sent = lifts (max_buttons - 1) 1 p.old_buttons buttons in
    (
      if p.tpc_button_one_flag then sent ++ ((0, 0) ∷ []) else sent,
      record p { tpc_buttons_flag = false; tpc_button_one_flag = false },
    )

-- `xf86WcmSendButtons`
unfoldable pub send_buttons : Device → ℕ → List Call × Device
send_buttons p buttons =
    if p.tpc_button && p.is_stylus
    then (if has buttons 1
        then (if not p.tpc_buttons_flag then tip_down p buttons else tip_stays p buttons)
        else if p.tpc_buttons_flag
        then tip_up p buttons
        else ([], p))
    else (changes max_buttons 0 p.old_buttons buttons, p)
