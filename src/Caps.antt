-- ===== src/Caps.antt =====
-- `wacom_setup_input_capabilities` and its helpers (src/2.6.30/wacom_wac.c): what the driver declares to
-- the input core. The core drops an event of a key or an axis that is not declared.
mod Declared
pub mod Pads
pub mod Missing
use linuxwacom.Prelude.{
  ℕ, ◌+◌, ◌-◌, Bool, true, false, ◌==◌, not, ◌&&◌, ◌||◌, List, [], ◌∷◌, ◌++◌, if◌then◌else◌, when,
  ◌|>◌,
}
use linuxwacom.Prelude.Int.{ℤ, pos, negsuc}
use linuxwacom.Input.{
  Key, Axis, Event, key, abs, rel_wheel, msc_serial, sync, key_index, same_key, abs_x, abs_y, abs_z,
  abs_rx, abs_ry, abs_rz, abs_throttle, abs_wheel, abs_pressure, abs_distance, abs_tilt_x,
  abs_tilt_y, abs_misc, btn_0, btn_1, btn_2, btn_3, btn_4, btn_5, btn_6, btn_7, btn_8, btn_9, btn_a,
  btn_b, btn_c, btn_x, btn_y, btn_z, btn_base, btn_base2, btn_base3, key_prog1, key_prog2,
  key_prog3, btn_left, btn_right, btn_middle, btn_side, btn_extra, btn_touch, btn_stylus,
  btn_stylus2, tool_pen, tool_rubber, tool_brush, tool_pencil, tool_airbrush, tool_finger,
  tool_mouse, tool_lens, tool_doubletap, tool_tripletap,
}
use linuxwacom.Wacom.{
  Kind, Features, is_type, penpartner, graphire, wacom_g4, ptu, pl, dtu, dtus, bamboo_pt, intuos,
  intuos3s, intuos3, intuos3l, intuos4s, intuos4, intuos4l, intuos5s, intuos5, intuos5l, intuosps,
  intuospm, intuospl, wacom_21ux2, wacom_22hd, dtk, wacom_24hd, cintiq, wacom_bee, wacom_13hd,
  wacom_mo, tabletpc, tabletpc2fg,
}
pub use Declared.*

unfoldable pub setup_cintiq : Features → Caps → Caps
setup_cintiq f c =
    c
    |> set_serial
    |> set_bit tool_rubber
    |> set_bit tool_pen
    |> set_bit tool_brush
    |> set_bit tool_pencil
    |> set_bit tool_airbrush
    |> set_bit btn_stylus
    |> set_bit btn_stylus2
    |> set_params abs_distance (pos 0) (pos f.distance_max)
    |> set_params abs_wheel (pos 0) (pos 1023)
    |> set_params abs_tilt_x (pos 0) (pos 127)
    |> set_params abs_tilt_y (pos 0) (pos 127)

unfoldable pub setup_intuos : Features → Caps → Caps
setup_intuos f c =
    c
    |> set_wheel
    |> set_bit btn_left
    |> set_bit btn_right
    |> set_bit btn_middle
    |> set_bit btn_side
    |> set_bit btn_extra
    |> setup_cintiq f
    |> set_bit tool_mouse
    |> set_bit tool_lens
    |> set_params abs_rz (negsuc 899) (pos 899)
    |> set_params abs_throttle (negsuc 1022) (pos 1023)

-- The cases of the `switch`, each with what it falls through to.
unfoldable pub setup_bpt : Features → Caps → Caps
setup_bpt f c =
    c
    |> when (same_key f.device_type tool_tripletap) (λ v.
      v
      |> set_bit tool_doubletap
      |> set_bit tool_tripletap
      |> set_bits buttons_4
      |> set_bit tool_finger
      |> set_serial
      |> set_params abs_rx (pos 0) (pos f.x_phy)
      |> set_params abs_ry (pos 0) (pos f.y_phy))
    |> when (same_key f.device_type tool_pen) (λ v.
      v |> set_bit tool_rubber |> set_bit tool_pen |> set_bit btn_stylus |> set_bit btn_stylus2)

unfoldable pub setup_graphire : Caps → Caps
setup_graphire c =
    c
    |> set_wheel
    |> set_bit btn_left
    |> set_bit btn_right
    |> set_bit btn_middle
    |> set_bit tool_rubber
    |> set_bit tool_pen
    |> set_bit tool_mouse
    |> set_bit btn_stylus
    |> set_bit btn_stylus2

unfoldable pub setup_g4 : Caps → Caps
setup_g4 c =
    c |> set_serial |> set_bit tool_finger |> set_bit btn_0 |> set_bit btn_4 |> setup_graphire

unfoldable pub setup_mo : Caps → Caps
setup_mo c =
    c |> set_bit btn_1 |> set_bit btn_5 |> set_params abs_wheel (pos 0) (pos 71) |> setup_g4

unfoldable pub setup_dtk : Features → Caps → Caps
setup_dtk f c = c |> set_bits buttons_6 |> set_bit tool_finger |> setup_cintiq f

unfoldable pub setup_24hd : Features → Caps → Caps
setup_24hd f c =
    c
    |> set_bits (btn_a ∷ btn_b ∷ btn_c ∷ btn_x ∷ btn_y ∷ btn_z ∷ [])
    |> set_bits (btn_6 ∷ btn_7 ∷ btn_8 ∷ btn_9 ∷ [])
    |> set_bits (btn_base ∷ btn_base2 ∷ btn_base3 ∷ [])
    |> set_params abs_throttle (pos 0) (pos 71)
    |> set_params abs_z (negsuc 899) (pos 899)
    |> setup_dtk f

unfoldable pub setup_cintiq_pads : Features → Caps → Caps
setup_cintiq_pads f c =
    c
    |> set_bits buttons_8
    |> set_bit tool_finger
    |> set_params abs_rx (pos 0) (pos 4096)
    |> set_params abs_ry (pos 0) (pos 4096)
    |> set_params abs_z (negsuc 899) (pos 899)
    |> setup_cintiq f

unfoldable pub setup_bee : Features → Caps → Caps
setup_bee f c = c |> set_bit btn_8 |> set_bit btn_9 |> setup_cintiq_pads f

unfoldable pub setup_21ux2 : Features → Caps → Caps
setup_21ux2 f c =
    c
    |> set_bits (btn_a ∷ btn_b ∷ btn_c ∷ btn_x ∷ btn_y ∷ btn_z ∷ btn_base ∷ btn_base2 ∷ [])
    |> setup_bee f

unfoldable pub setup_22hd : Features → Caps → Caps
setup_22hd f c = c |> set_bits (key_prog1 ∷ key_prog2 ∷ key_prog3 ∷ []) |> setup_21ux2 f

unfoldable pub setup_13hd : Features → Caps → Caps
setup_13hd f c = c |> set_bits buttons_9 |> set_bit tool_finger |> setup_cintiq f

unfoldable pub setup_intuos3s : Features → Caps → Caps
setup_intuos3s f c =
    c
    |> set_bits buttons_4
    |> set_bit tool_finger
    |> set_params abs_rx (pos 0) (pos 4096)
    |> set_params abs_z (negsuc 899) (pos 899)
    |> setup_intuos f

unfoldable pub setup_intuos3 : Features → Caps → Caps
setup_intuos3 f c =
    c
    |> set_bits (btn_4 ∷ btn_5 ∷ btn_6 ∷ btn_7 ∷ [])
    |> set_params abs_ry (pos 0) (pos 4096)
    |> setup_intuos3s f

unfoldable pub setup_intuos4s : Features → Caps → Caps
setup_intuos4s f c =
    c
    |> set_bits buttons_7
    |> set_bit tool_finger
    |> set_params abs_z (negsuc 899) (pos 899)
    |> setup_intuos f

unfoldable pub setup_intuos4 : Features → Caps → Caps
setup_intuos4 f c = c |> set_bit btn_7 |> set_bit btn_8 |> setup_intuos4s f

unfoldable pub setup_penpartner : Caps → Caps
setup_penpartner c = set_bit tool_rubber c

unfoldable pub setup_pl : Features → Caps → Caps
setup_pl f c =
    c
    |> when (is_type f.kind dtus) (λ v. v |> set_serial |> set_bits buttons_4)
    |> set_bit tool_pen
    |> set_bit btn_stylus
    |> set_bit btn_stylus2
    |> setup_penpartner

unfoldable pub setup_tabletpc : Features → Caps → Caps
setup_tabletpc f c =
    let c1 =
      when (same_key f.device_type tool_doubletap || same_key f.device_type tool_tripletap)
        (λ v.
          v
          |> set_params abs_rx (pos 0) (pos f.x_phy)
          |> set_params abs_ry (pos 0) (pos f.y_phy)
          |> set_bit tool_doubletap)
        c in
    if not (same_key f.device_type tool_pen) then c1 else setup_pl f c1

unfoldable pub setup_tabletpc2fg : Features → Caps → Caps
setup_tabletpc2fg f c =
    c
    |> when (same_key f.device_type tool_tripletap) (λ v. v |> set_bit tool_tripletap |> set_serial)
    |> setup_tabletpc f

-- What stands before the `switch`.
unfoldable pub setup_shared : Features → Caps
setup_shared f = record {
  keys = btn_touch ∷ [];
  axes =
      (abs_misc, pos 0, pos 0)
      ∷ (abs_pressure, pos 0, pos f.pressure_max)
      ∷ (abs_y, pos f.y_min, pos f.y_max)
      ∷ (abs_x, pos f.x_min, pos f.x_max)
      ∷ [];
  wheel = false;
  serial = false;
}

-- `switch (wacom_wac->features.type)`
unfoldable pub setup_kind : Kind → Features → Caps → Caps
setup_kind bamboo_pt f c = setup_bpt f c
setup_kind wacom_mo f c = setup_mo c
setup_kind wacom_g4 f c = setup_g4 c
setup_kind graphire f c = setup_graphire c
setup_kind wacom_24hd f c = setup_24hd f c
setup_kind dtk f c = setup_dtk f c
setup_kind wacom_22hd f c = setup_22hd f c
setup_kind wacom_21ux2 f c = setup_21ux2 f c
setup_kind wacom_bee f c = setup_bee f c
setup_kind cintiq f c = setup_cintiq_pads f c
setup_kind wacom_13hd f c = setup_13hd f c
setup_kind intuos3 f c = setup_intuos3 f c
setup_kind intuos3l f c = setup_intuos3 f c
setup_kind intuos3s f c = setup_intuos3s f c
setup_kind intuos f c = setup_intuos f c
setup_kind intuospm f c = setup_intuos4 f c
setup_kind intuospl f c = setup_intuos4 f c
setup_kind intuos5 f c = setup_intuos4 f c
setup_kind intuos5l f c = setup_intuos4 f c
setup_kind intuos4 f c = setup_intuos4 f c
setup_kind intuos4l f c = setup_intuos4 f c
setup_kind intuosps f c = setup_intuos4s f c
setup_kind intuos5s f c = setup_intuos4s f c
setup_kind intuos4s f c = setup_intuos4s f c
setup_kind tabletpc2fg f c = setup_tabletpc2fg f c
setup_kind tabletpc f c = setup_tabletpc f c
setup_kind dtus f c = setup_pl f c
setup_kind pl f c = setup_pl f c
setup_kind ptu f c = setup_pl f c
setup_kind dtu f c = setup_pl f c
setup_kind penpartner f c = setup_penpartner c

unfoldable pub setup : Features → Caps
setup f = setup_kind f.kind f (setup_shared f)
