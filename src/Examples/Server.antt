-- ===== src/Examples/Server.antt =====
-- The button calls, the suppression and the rotation of the X driver at concrete inputs.
use linuxwacom.Prelude.{arith, ◌==◌, not, ℕ, ◌≤◌, ◌≡◌, refl, true, false, [], ◌∷◌}
use linuxwacom.Prelude.Int.{pos, negsuc}
use linuxwacom.Xdrv.Buttons.{Device}
use linuxwacom.Xdrv.Filter.{FilterState, Sample}
use linuxwacom.Intuos.Tools.{one_of, tool_of_id}
use linuxwacom.Xdrv.ToolIds.{settle_type, type_of_tool, misfits, settle_type-known}
use linuxwacom.Xdrv.Buttons.Refine.{InStep, reports, reports-InStep}
use linuxwacom.Xdrv.Events.{DeviceState, apart, keep, IsNear, keep-close}

-- A stylus in Tablet PC mode, in the air.
abbrev stylus : Device
stylus = record {
  tpc_button = true;
  is_stylus = true;
  tpc_buttons_flag = false;
  tpc_button_one_flag = false;
  old_buttons = 0;
}

stylus-InStep : InStep stylus (λ j. false)
stylus-InStep = record { buttons = λ j lt. refl; one = λ up. refl }

-- The tip comes down, the side switch is pressed, both go.
reports-InStep_example :
    let (p', s') = reports (1 ∷ 3 ∷ 0 ∷ []) (stylus, λ j. false) in InStep p' s'
reports-InStep_example = reports-InStep (1 ∷ 3 ∷ 0 ∷ []) stylus (λ j. false) stylus-InStep

abbrev at : ℕ → ℕ → DeviceState
at a b = record {
  device_id = 0x802;
  device_type = 1;
  serial_num = 0x4001;
  buttons = 1;
  proximity = 1;
  stripx = pos 0;
  stripy = pos 0;
  x = pos a;
  y = pos b;
  tiltx = negsuc 4;
  tilty = pos 7;
  pressure = pos 300;
  throttle = pos 0;
  rotation = pos 899;
  abswheel = pos 0;
  abswheel2 = pos 0;
  relwheel = pos 0;
  distance = pos 0;
  sample = 0;
}

keep-close_example :
    let k = keep 2 (at 100 200) (at 101 199) in
    (k.buttons ≡ 1)
    × (k.proximity ≡ 1)
    × (k.stripx ≡ pos 0)
    × (k.stripy ≡ pos 0)
    × (apart k.x (pos 101) ≤ 2)
    × (apart k.y (pos 199) ≤ 2)
    × (apart k.tiltx (negsuc 4) ≤ 2)
    × (apart k.tilty (pos 7) ≤ 2)
    × (apart k.pressure (pos 300) ≤ 2)
    × (apart k.throttle (pos 0) ≤ 2)
    × (apart k.abswheel (pos 0) ≤ 2)
    × (apart k.abswheel2 (pos 0) ≤ 2)
    × IsNear 2 k.rotation (pos 899)
keep-close_example = keep-close 2 (at 100 200) (at 101 199)

-- An Intuos4 pen, while another serial number is configured.
settle_type-known_example :
    (settle_type ((7, 4) ∷ []) 0 1 0x802 5 == type_of_tool (tool_of_id 0x802))
    ≡ not (one_of 0x802 misfits)
unfolding one_of
settle_type-known_example = settle_type-known ((7, 4) ∷ []) 1 0x802 5 refl refl (ground arith)

-- Four samples of a pen on a tablet with tilts from -64 to 63.
abbrev samples : FilterState
samples = record {
  x = pos 100 ∷ pos 101 ∷ pos 103 ∷ pos 102 ∷ [];
  y = pos 50 ∷ pos 50 ∷ negsuc 1 ∷ pos 52 ∷ [];
  tiltx = pos 90 ∷ pos 80 ∷ pos 70 ∷ pos 60 ∷ [];
  tilty = negsuc 90 ∷ negsuc 80 ∷ negsuc 70 ∷ negsuc 60 ∷ [];
}

abbrev pen : Sample
pen = record { device_type = 1; x = pos 100; y = pos 50; tiltx = pos 90; tilty = negsuc 90 }
