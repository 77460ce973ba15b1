-- ===== src/Examples/Touch.antt =====
-- The touch handlers at concrete packets.
use linuxwacom.Prelude.{ℕ, true, arith, List, [], ◌∷◌}
use linuxwacom.Input.{tool_doubletap, tool_tripletap}
use linuxwacom.Wacom.{
  Wac, Packet, tabletpc2fg, bamboo_pt, set_stylus_in_proximity, set_id, set_tool, report_key,
}
use linuxwacom.Tpc.Fingers as TpcFingers
use linuxwacom.Bpt.Fingers as BptFingers
use linuxwacom.Examples.{fresh, bytes, core}

-- Two fingers, then the pen, then the fingers again, then the pen goes.
abbrev tpc_packets : List (Packet × ℕ)
tpc_packets =
    (bytes (13 ∷ 3 ∷ 10 ∷ 1 ∷ 20 ∷ 1 ∷ 30 ∷ 1 ∷ 40 ∷ 1 ∷ []), 14)
    ∷ (bytes (2 ∷ 0x21 ∷ 10 ∷ 1 ∷ 20 ∷ 1 ∷ 100 ∷ 0 ∷ []), 8)
    ∷ (bytes (13 ∷ 3 ∷ 11 ∷ 1 ∷ 21 ∷ 1 ∷ []), 14)
    ∷ (bytes (2 ∷ 0 ∷ []), 8)
    ∷ []

tpc_run-IsConsistent_example :
    TpcFingers.IsConsistent (TpcFingers.run core tpc_packets (fresh tabletpc2fg))
tpc_run-IsConsistent_example =
    TpcFingers.tpc_run-IsConsistent core tpc_packets (fresh tabletpc2fg) (ground arith)
      (ground arith)

-- Both fingers down, and the pen has come near.
abbrev tpc_fingers : Wac
tpc_fingers = set_stylus_in_proximity true (
    report_key tool_tripletap 1 (
      report_key tool_doubletap 1
        (set_tool 2 tool_tripletap (set_tool 1 tool_doubletap (set_id 1 3 (fresh tabletpc2fg))))))

abbrev two_fingers : Packet
two_fingers = bytes (13 ∷ 3 ∷ 10 ∷ 1 ∷ 20 ∷ 1 ∷ [])

-- One finger, then both, then the pen, then a touch packet.
abbrev bpt_packets : List (Packet × ℕ)
bpt_packets =
    (bytes (2 ∷ 0 ∷ 0 ∷ 0x80 ∷ 5 ∷ 6 ∷ 7 ∷ 0 ∷ 0 ∷ 0 ∷ 0 ∷ 0 ∷ 0 ∷ 0 ∷ 0 ∷ 0 ∷ 0 ∷ 1 ∷ []), 20)
    ∷ (bytes (2 ∷ 0x32 ∷ 1 ∷ 1 ∷ 2 ∷ 2 ∷ 50 ∷ 0 ∷ 3 ∷ []), 9)
    ∷ (bytes (2 ∷ 1 ∷ []), 20)
    ∷ []

bpt_run-IsConsistent_example :
    BptFingers.IsConsistent (BptFingers.run core bpt_packets (fresh bamboo_pt))
bpt_run-IsConsistent_example =
    BptFingers.bpt_run-IsConsistent core bpt_packets (fresh bamboo_pt) (ground arith)

abbrev bpt_fingers : Wac
bpt_fingers = report_key tool_tripletap 1 (
    report_key tool_doubletap 1
      (set_tool 2 tool_tripletap (set_tool 1 tool_doubletap (set_id 2 3 (fresh bamboo_pt)))))

abbrev bpt_two_fingers : Packet
bpt_two_fingers =
    bytes (2 ∷ 0 ∷ 0 ∷ 0x80 ∷ 5 ∷ 6 ∷ 7 ∷ 0 ∷ 0 ∷ 0 ∷ 0 ∷ 0 ∷ 0x80 ∷ 0 ∷ 0 ∷ 0 ∷ 0 ∷ 0x20 ∷ [])
