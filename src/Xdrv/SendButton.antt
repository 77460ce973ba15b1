-- ===== src/Xdrv/SendButton.antt =====
-- `sendAButton` (src/xdrv/wcmCommon.c), with `xf86WcmDevSwitchModeCall` (src/xdrv/wcmXCommand.c) and the
-- choice of the screen in `xf86WcmChangeScreen` (src/xdrv/wcmMapping.c).
pub mod Screens
pub mod Release
use linuxwacom.Prelude.{
  ℕ, zero, suc, ◌+◌, ◌==◌, Bool, true, false, not, ◌&&◌, ◌||◌, List, [], ◌∷◌, bit_and,
  if◌then◌else◌, when, nonzero, map,
}
use linuxwacom.Prelude.Int.{ℤ, pos, negsuc, ◌+ℤ◌, ltb_ℤ, leb_ℤ}
use linuxwacom.Wacom.{same_int}
use linuxwacom.Xdrv.Wheels.{Action, Post, button, keysym, send_keystroke, ac_code, ac_type, ac_key}

abbrev pub ac_modetoggle : ℕ
ac_modetoggle = 0x00020000

abbrev pub ac_dblclick : ℕ
ac_dblclick = 0x00030000

abbrev pub ac_displaytoggle : ℕ
ac_displaytoggle = 0x00040000

abbrev pub ac_screentoggle : ℕ
ac_screentoggle = 0x00050000

-- A tool of the tablet: IsPad, ABSOLUTE_FLAG, whether it is a core device, and its screens.
pub record Tool : Type 0 where
  pub is_pad : Bool
  pub is_absolute : Bool
  pub is_core : Bool
  pub screen_no : ℤ
  pub current_screen : ℤ
  pub num_screen : ℤ

-- The tool that has the button, the other tools of the tablet, and what was posted, the newest first.
pub record Tablet : Type 0 where
  pub tool : Tool
  pub others : List Tool
  pub posts : List Post

unfoldable pub switch_mode : Bool → Tool → Tool
switch_mode absolute t = record t { is_absolute = if t.is_pad then not t.is_core else absolute }

unfoldable pub change_screen : ℤ → Tool → Tool
change_screen n t = record t {
  screen_no = n;
  current_screen = if same_int n (negsuc 0) then t.current_screen else n;
}

-- `if (++screen >= numScreen) screen = first;` with the call that changes the screen.
unfoldable pub next_screen : ℤ → Tool → Tool
next_screen first t =
    let screen = t.screen_no +ℤ pos 1 in
    change_screen (if leb_ℤ t.num_screen screen then first else screen) t

unfoldable pub next_unless_pad : ℤ → Tool → Tool
next_unless_pad first t = if t.is_pad then t else next_screen first t

-- A pad changes the screens of all other tools, another tool its own.
unfoldable pub toggle_screens : ℤ → Bool → Tablet → Tablet
toggle_screens first press w =
    if not (press && ltb_ℤ (pos 1) w.tool.num_screen)
    then w
    else if w.tool.is_pad
    then record w { others = map (next_unless_pad first) w.others }
    else record w { tool = next_screen first w.tool }

unfoldable pub double_click : Bool → List Post → List Post
double_click press ps = if press then button 1 1 ∷ button 1 0 ∷ button 1 1 ∷ ps else button 1 0 ∷ ps

module _ (is_modifier : ℕ → Bool) where
  -- `a` is the action of the button, with its keys.
  unfoldable pub send_a_button : Action → Bool → Tablet → Tablet
  send_a_button a press w =
      let n = bit_and a.code ac_code in
      let kind = bit_and a.code ac_type in
      if a.code == 0
      then w
      else if kind == 0
      then record w { posts = button n (if press then 1 else 0) ∷ w.posts }
      else if kind == ac_key
      then record w { posts = send_keystroke is_modifier a press w.posts }
      else if kind == ac_modetoggle
      then (if press then record w { tool = switch_mode (not w.tool.is_absolute) w.tool } else w)
      else if kind == ac_displaytoggle
      then toggle_screens (negsuc 0) press w
      else if kind == ac_screentoggle
      then toggle_screens (pos 0) press w
      else if kind == ac_dblclick
      then record w { posts = double_click press w.posts }
      else w
