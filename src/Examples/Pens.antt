-- ===== src/Examples/Pens.antt =====
-- The pen, Graphire and PenPartner handlers at concrete packets.
use linuxwacom.Prelude.{◌≡◌, false, ◌&&◌, arith, List, [], ◌∷◌}
use linuxwacom.Input.{held, tool_pen, tool_rubber}
use linuxwacom.Wacom.{Packet, pl, wacom_mo}
use linuxwacom.Pen.Handover as Handover
use linuxwacom.Pen.Handover.{Says, pl_run-one_tool, pl_irq-near, pl_irq-refused}
use linuxwacom.Graphire.Tools as GraphireTools
use linuxwacom.Graphire.Tools.{graphire_run-IsTracking, graphire_irq-near, tool_packet-away_twice}
use linuxwacom.Examples.{fresh, bytes}

-- The eraser bit first, then a pen without it, then nothing near.
abbrev pl_eraser : Packet
pl_eraser = bytes (2 ∷ 0x50 ∷ 3 ∷ 4 ∷ 0x20 ∷ 5 ∷ 6 ∷ 7 ∷ [])

abbrev pl_packets : List Packet
pl_packets =
    pl_eraser
    ∷ bytes (2 ∷ 0x40 ∷ 3 ∷ 4 ∷ 0 ∷ 5 ∷ 6 ∷ 7 ∷ [])
    ∷ bytes (2 ∷ 0 ∷ 3 ∷ 4 ∷ 0 ∷ 5 ∷ 6 ∷ 7 ∷ [])
    ∷ []

pl_run-one_tool_example :
    (held tool_pen (Handover.run pl_packets (fresh pl)).posted
      && held tool_rubber (Handover.run pl_packets (fresh pl)).posted)
    ≡ false
pl_run-one_tool_example = pl_run-one_tool pl_packets (fresh pl) (ground arith)

abbrev other_report : Packet
other_report = bytes (5 ∷ 0x40 ∷ [])

-- A mouse, a pen, and the pen leaves.
abbrev graphire_packets : List Packet
graphire_packets =
    bytes (2 ∷ 0xc1 ∷ 10 ∷ 0 ∷ 20 ∷ 0 ∷ 1 ∷ 5 ∷ [])
    ∷ bytes (2 ∷ 0x81 ∷ 10 ∷ 0 ∷ 20 ∷ 0 ∷ 200 ∷ 1 ∷ [])
    ∷ bytes (2 ∷ 0 ∷ [])
    ∷ []

graphire_run-IsTracking_example :
    GraphireTools.IsTracking (GraphireTools.run graphire_packets (fresh wacom_mo))
graphire_run-IsTracking_example =
    graphire_run-IsTracking graphire_packets (fresh wacom_mo) (ground arith)

abbrev graphire_pen : Packet
graphire_pen = bytes (2 ∷ 0x81 ∷ 10 ∷ 0 ∷ 20 ∷ 0 ∷ 200 ∷ 1 ∷ [])

abbrev gone : Packet
gone = bytes (2 ∷ 0x01 ∷ 10 ∷ [])

abbrev penpartner_pen : Packet
penpartner_pen = bytes (2 ∷ 10 ∷ 0 ∷ 20 ∷ 0 ∷ 0x40 ∷ 60 ∷ [])
