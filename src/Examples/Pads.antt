-- ===== src/Examples/Pads.antt =====
-- The pads, the dispatch and the set-up at concrete packets.
use linuxwacom.Prelude.{ℕ, ◌≡◌, refl, true, false, arith, List, [], ◌∷◌}
use linuxwacom.Input.{held, btn_0, tool_finger}
use linuxwacom.Wacom.{Packet, intuos4, intuos4l, intuos5}
use linuxwacom.Intuos.Pads.{pad}
use linuxwacom.Intuos.PadKeys.{in_use, pad-held}
use linuxwacom.Intuos.PadQuiet.{pad-quiet}
use linuxwacom.Irq.{run}
use linuxwacom.Irq.Frames.{flushed, run-flushed}
use linuxwacom.Caps.{setup}
use linuxwacom.Caps.Pads.{all_declared, pad-declared}
use linuxwacom.Examples.{fresh, features_of, bytes, core}

-- A key of the pad and the ring, and a pad at rest.
abbrev pressed : Packet
pressed = bytes (12 ∷ 0x85 ∷ 0 ∷ 0x41 ∷ [])

abbrev rest : Packet
rest = bytes (12 ∷ [])

pad-declared_example :
    all_declared (setup (features_of intuos4l)) (pad pressed (fresh intuos4l)).posted ≡ true
pad-declared_example = pad-declared pressed (fresh intuos4l) refl refl

rest-away : held tool_finger (pad rest (fresh intuos4)).posted ≡ false
unfolding in_use
rest-away = pad-held tool_finger rest (fresh intuos4) (omega arith)

pad-quiet_example : held btn_0 (pad rest (fresh intuos4)).posted ≡ false
pad-quiet_example = pad-quiet btn_0 rest (fresh intuos4) (omega arith) refl rest-away refl

-- The third program key alone.
abbrev prog3 : Packet
prog3 = bytes (12 ∷ 0 ∷ 0 ∷ 0 ∷ 0 ∷ 0 ∷ 0 ∷ 0 ∷ 0 ∷ 4 ∷ [])

abbrev frames : List (Packet × ℕ)
frames =
    (bytes (2 ∷ 0xc2 ∷ 0x80 ∷ 0x21 ∷ []), 10)
    ∷ (bytes (2 ∷ 0xe1 ∷ 10 ∷ 20 ∷ 30 ∷ 40 ∷ []), 10)
    ∷ (pressed, 10)
    ∷ (bytes (2 ∷ 0x80 ∷ []), 10)
    ∷ []

run-flushed_example : flushed (run core frames (fresh intuos5)).posted ≡ true
run-flushed_example = run-flushed core frames (fresh intuos5) (ground arith) refl
