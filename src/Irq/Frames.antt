-- ===== src/Irq/Frames.antt =====
-- `wacom_wac_irq` hands whole frames to the input core, and ignores reports that it does not know.
use linuxwacom.Prelude.{
  ℕ, ◌≡◌, ◌⊎◌, not, ◌&&◌, Bool, true, false, bit_and, arith, ◌==◌, List, [], ◌∷◌, All,
}
use linuxwacom.Input.{Event, key, abs, rel_wheel, msc_serial, sync}
use linuxwacom.Wacom.{
  pkglen_bbtouch3, at_least, at_most, intuos5s, intuospl, Kind, Wac, Packet, InputCore,
}
use linuxwacom.Pen.{penpartner_irq, dtu_irq, pl_irq, ptu_irq, dtus_irq}
use linuxwacom.Bpt
use linuxwacom.Graphire
use linuxwacom.Tpc
use linuxwacom.Intuos.Tools.{inout, tool_index, enter}
use linuxwacom.Intuos.Motion
use linuxwacom.Intuos.Lifecycle.{is_tool_report}
use linuxwacom.Irq.Kept.{features-wac_irq}
use linuxwacom.Irq.{is_intuos_type, intuos5_irq, dispatch, wac_irq, run}

-- The input core has the whole of what was posted: the last event is a synchronisation.
abbrev pub flushed : List Event → Bool
flushed [] = true
flushed (key _ _ ∷ es) = false
flushed (abs _ _ ∷ es) = false
flushed (rel_wheel _ ∷ es) = false
flushed (msc_serial _ ∷ es) = false
flushed (sync ∷ es) = true

-- A handler that asks for no synchronisation has posted whole frames only.
abbrev Keeps : Wac → Wac × ℕ → Type 0
Keeps w r = r.1 ≡ 0 → flushed w.posted ≡ true → flushed r.0.posted ≡ true

penpartner-Keeps : (d : Packet) (w : Wac) → Keeps w (penpartner_irq d w)
unfolding penpartner_irq
penpartner-Keeps d w = ground arith

dtu-Keeps : (d : Packet) (w : Wac) → Keeps w (dtu_irq d w)
unfolding dtu_irq
dtu-Keeps d w = ground arith

pl-Keeps : (d : Packet) (w : Wac) → Keeps w (pl_irq d w)
unfolding pl_irq
pl-Keeps d w = ground arith

ptu-Keeps : (d : Packet) (w : Wac) → Keeps w (ptu_irq d w)
unfolding ptu_irq
ptu-Keeps d w = ground arith

dtus-Keeps : (d : Packet) (w : Wac) → Keeps w (dtus_irq d w)
unfolding dtus_irq
dtus-Keeps d w = ground arith

graphire-Keeps : (d : Packet) (w : Wac) → Keeps w (Graphire.irq d w)
unfolding Graphire.irq Graphire.tool_packet Graphire.pad_g4 Graphire.pad_mo
graphire-Keeps d w = ground arith

bpt_touch-Keeps :
    (core : InputCore) (d : Packet) (w : Wac)
    → flushed w.posted ≡ true
    → flushed (Bpt.touch core d w).posted ≡ true
unfolding Bpt.touch Bpt.touch_in Bpt.lift Bpt.touch_out Bpt.finger_in
bpt_touch-Keeps core d w h = ground arith

bpt_pad-Keeps :
    (d : Packet) (w : Wac) → flushed w.posted ≡ true → flushed (Bpt.pad d w).posted ≡ true
unfolding Bpt.pad
bpt_pad-Keeps d w h = ground arith

bpt-Keeps : (core : InputCore) (d : Packet) (len : ℕ) (w : Wac) → Keeps w (Bpt.irq core d len w)
unfolding Bpt.irq
bpt-Keeps core d len w z h =
    ground (arith, bpt_touch-Keeps core d (Bpt.pad d w), bpt_pad-Keeps d w h)

tpc_touch-Keeps :
    (core : InputCore) (d : Packet) (len : ℕ) (w : Wac)
    → flushed w.posted ≡ true
    → flushed (Tpc.touch core d len w).posted ≡ true
unfolding Tpc.touch Tpc.touch_near Tpc.touch_away Tpc.touch_in Tpc.lift Tpc.touch_out Tpc.finger_in
tpc_touch-Keeps core d len w h = ground arith

tpc-Keeps : (core : InputCore) (d : Packet) (len : ℕ) (w : Wac) → Keeps w (Tpc.irq core d len w)
unfolding Tpc.irq
tpc-Keeps core d len w z h = ground (arith, tpc_touch-Keeps core d len w h)

-- A range report, on a model whose packets go to `wacom_intuos_irq` and are not dropped: it posts events and
-- leaves the synchronisation to the packets that follow.
abbrev pub is_range : Kind → Packet × ℕ → Bool
is_range kind (d, len) =
    is_intuos_type kind
    && not (at_least kind intuos5s && at_most kind intuospl && len == pkglen_bbtouch3)
    && is_tool_report d
    && bit_and (d 1) 0xfe == 0x20

inout-quiet :
    (d : Packet) (w : Wac)
    → (bit_and (d 1) 0xfe == 0x20) ≡ false
    → let (w', result) = inout d w in (w'.posted ≡ w.posted) ⊎ (result ≡ 2)
unfolding inout enter
inout-quiet d w r = ground arith

tool_packet-quiet :
    (d : Packet) (idx : ℕ) (w : Wac)
    → let (w', accepted) = Motion.tool_packet d idx w in accepted ≡ 0 → w'.posted ≡ w.posted
unfolding Motion.tool_packet
tool_packet-quiet d idx w = ground arith

intuos-Keeps :
    (d : Packet) (w : Wac)
    → (is_tool_report d && bit_and (d 1) 0xfe == 0x20) ≡ false
    → Keeps w (Motion.irq d w)
unfolding Motion.irq
intuos-Keeps d w r z h =
    ground (arith, r, inout-quiet d w, tool_packet-quiet d (tool_index d w) (inout d w).0)

dispatch-Keeps :
    (kind : Kind) (core : InputCore) (d : Packet) (len : ℕ) (w : Wac)
    → is_range kind (d, len) ≡ false
    → Keeps w (dispatch kind core d len w)
unfolding dispatch intuos5_irq
dispatch-Keeps kind core d len w r z h = ground (
  arith,
  r,
  penpartner-Keeps d w,
  dtu-Keeps d w,
  pl-Keeps d w,
  ptu-Keeps d w,
  dtus-Keeps d w,
  graphire-Keeps d w,
  bpt-Keeps core d len w,
  tpc-Keeps core d len w,
  intuos-Keeps d w,
)

wac_irq-flushed :
    (core : InputCore) (d : Packet) (len : ℕ) (w : Wac)
    → is_range w.features.kind (d, len) ≡ false
    → flushed w.posted ≡ true
    → flushed (wac_irq core d len w).posted ≡ true
unfolding wac_irq
wac_irq-flushed core d len w r h = ground (arith, dispatch-Keeps w.features.kind core d len w r)

-- On every model, for any packets but, on the models of wacom_intuos_irq, range reports (a tool report
-- with 0x20 or 0x21 in its second byte), from a history of whole frames on, the history of posted events
-- stays one of whole frames: no event waits for a synchronisation.
pub run-flushed :
    (core : InputCore) (ps : List (Packet × ℕ)) (w : Wac)
    → All (λ p. is_range w.features.kind p ≡ false) ps
    → flushed w.posted ≡ true
    → flushed (run core ps w).posted ≡ true
unfolding run
run-flushed core [] w r h = h
run-flushed core ((d, len) ∷ ps) w r h =
    run-flushed core ps (wac_irq core d len w) (rw (features-wac_irq core d len w) r.1)
      (wac_irq-flushed core d len w r.0 h)
