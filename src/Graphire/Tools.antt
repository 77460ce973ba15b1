-- ===== src/Graphire/Tools.antt =====
-- Which tool the Graphire handler reports, and when it reports nothing.
use linuxwacom.Prelude.{
  ℕ, Bool, true, if◌then◌else◌, ◌≡◌, ◌⊎◌, false, arith, nonzero, has, List, [], ◌∷◌,
}
use linuxwacom.Input.{raw, held, tool_pen, tool_rubber, tool_mouse}
use linuxwacom.Wacom.{Wac, Packet}
use linuxwacom.Graphire.{select, tool_state, tool_packet, pad_g4, pad_mo, irq}

-- A tool is near exactly while `id[0]` is set, and the key of `tool[0]` says so.
pub record IsTracking (w : Wac) : Type 0 where
  pub tool_key : held (w.tool 0) w.posted ≡ nonzero (w.id 0)
  pub known :
      (w.tool 0 ≡ raw 0)
      ⊎ (w.tool 0 ≡ tool_pen)
      ⊎ (w.tool 0 ≡ tool_rubber)
      ⊎ (w.tool 0 ≡ tool_mouse)

tool_packet-IsTracking : (d : Packet) (w : Wac) → IsTracking w → IsTracking (tool_packet d w)
unfolding tool_packet select tool_state
tool_packet-IsTracking d w h = ground arith

pads-IsTracking :
    (d : Packet) (w : Wac) → IsTracking w → IsTracking (pad_g4 d w).0 × IsTracking (pad_mo d w).0
unfolding pad_g4 pad_mo
pads-IsTracking d w h = ground arith

if-IsTracking :
    (b : Bool) (r s : Wac × ℕ) → IsTracking r.0 → IsTracking s.0 → IsTracking (if b then r else s).0
if-IsTracking true r s hr hs = hr
if-IsTracking false r s hr hs = hs

irq-IsTracking : (d : Packet) (w : Wac) → IsTracking w → IsTracking (irq d w).0
unfolding irq
irq-IsTracking d w h =
    let w1 = tool_packet d w in
    let h1 = tool_packet-IsTracking d w h in
    let pads = pads-IsTracking d w1 h1 in
    if-IsTracking _ (w, 0) _ h
      (if-IsTracking _ (pad_g4 d w1) _ pads.0 (if-IsTracking _ (pad_mo d w1) (w1, 0) pads.1 h1))

unfoldable pub run : List Packet → Wac → Wac
run [] w = w
run (d ∷ ds) w = run ds (irq d w).0

-- For any packets of a Graphire, Graphire4 or Bamboo (MO), if it holds at first, the key of
-- `tool[0]` is down exactly while `id[0]` is not 0, and `tool[0]` is the pen, the eraser, the
-- mouse, or no key (0) yet.
pub graphire_run-IsTracking : (ds : List Packet) (w : Wac) → IsTracking w → IsTracking (run ds w)
unfolding run
graphire_run-IsTracking [] w h = h
graphire_run-IsTracking (d ∷ ds) w h = graphire_run-IsTracking ds (irq d w).0 (irq-IsTracking d w h)

-- After a packet of report 2, `id[0]` is set exactly if the packet has the proximity bit.
pub graphire_irq-near :
    (d : Packet) (w : Wac) → d 0 ≡ 2 → nonzero ((irq d w).0.id 0) ≡ has (d 1) 0x80
unfolding irq tool_packet select tool_state pad_g4 pad_mo
graphire_irq-near d w r = ground arith

-- Packets of an absent tool are reported once: after one of them, another posts nothing and changes
-- nothing, whatever its other bytes say.
pub tool_packet-away_twice :
    (d e : Packet) (w : Wac)
    → has (d 1) 0x80 ≡ false
    → has (e 1) 0x80 ≡ false
    → tool_packet e (tool_packet d w) ≡ tool_packet d w
unfolding tool_packet select tool_state
tool_packet-away_twice d e w hd he = ground arith
