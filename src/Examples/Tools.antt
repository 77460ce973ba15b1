-- ===== src/Examples/Tools.antt =====
-- The Intuos handler at concrete packets.
use linuxwacom.Prelude.{ℕ, ◌&&◌, ◌≡◌, refl, false, arith, List, [], ◌∷◌}
use linuxwacom.Prelude.Int.{pos, negsuc, ◌≤ℤ◌}
use linuxwacom.Input.{held, tool_pen, tool_rubber}
use linuxwacom.Wacom.{Wac, Packet, intuos4, set_tool, set_id}
use linuxwacom.Intuos.Tools.{tool_index}
use linuxwacom.Intuos.Motion.{irq}
use linuxwacom.Intuos.Lifecycle.{intuos_run-one_tool, run}
use linuxwacom.Intuos.Reports.{Released, irq-exit}
use linuxwacom.Intuos.Rotation.{marker, count_of, marker-count_of}
use linuxwacom.Examples.{fresh, bytes}

-- A pen enters, is moved and leaves, and its other end enters.
abbrev enter_pen : List ℕ
enter_pen = 2 ∷ 0xc2 ∷ 0x80 ∷ 0x21 ∷ 0x22 ∷ 0x33 ∷ 0x44 ∷ 0x50 ∷ 0 ∷ 0 ∷ []

abbrev move : List ℕ
move = 2 ∷ 0xe1 ∷ 10 ∷ 20 ∷ 30 ∷ 40 ∷ 50 ∷ 0x60 ∷ 0x70 ∷ 0x17 ∷ []

abbrev exit : Packet
exit = bytes (2 ∷ 0x80 ∷ [])

abbrev packets : List Packet
packets = bytes enter_pen ∷ bytes move ∷ exit ∷ bytes (2 ∷ 0xc2 ∷ 0x80 ∷ 0xa1 ∷ []) ∷ []

intuos_run-one_tool_example :
    (held tool_pen (run packets (fresh intuos4)).posted
      && held tool_rubber (run packets (fresh intuos4)).posted)
    ≡ false
intuos_run-one_tool_example =
    intuos_run-one_tool packets tool_pen tool_rubber (fresh intuos4) refl refl refl refl refl refl
      refl refl

-- A pen that is near, after an enter report.
abbrev near : Wac
near = set_id 0 0x802 (set_tool 0 tool_pen (fresh intuos4))

irq-exit_example :
    let (w', accepted) = irq exit near in
    (accepted ≡ 1) × Released false w'.posted × (held tool_pen w'.posted ≡ false) × (w'.id 0 ≡ 0)
unfolding tool_index
irq-exit_example = irq-exit exit near refl refl refl

marker-count_of_example :
    (negsuc 899 ≤ℤ marker 1201) × (marker 1201 ≤ℤ pos 899) × (count_of (marker 1201) ≡ 1201)
marker-count_of_example = marker-count_of 1201 (omega arith) (omega arith)
