-- ===== src/Irq.antt =====
-- `wacom_wac_irq` (src/2.6.30/wacom_wac.c): the handler of each model type, and the
-- synchronisation event after a packet that the handler accepted.
pub mod Frames
pub mod Kept
use linuxwacom.Prelude.{ℕ, Bool, true, false, ◌==◌, List, [], ◌∷◌, if◌then◌else◌, when, nonzero}
use linuxwacom.Wacom.{
  Kind, Wac, Packet, InputCore, input_sync, pkglen_bbtouch3, penpartner, graphire, wacom_g4, ptu,
  pl, dtu, dtus, bamboo_pt, intuos, intuos3s, intuos3, intuos3l, intuos4s, intuos4, intuos4l,
  intuos5s, intuos5, intuos5l, intuosps, intuospm, intuospl, wacom_21ux2, wacom_22hd, dtk,
  wacom_24hd, cintiq, wacom_bee, wacom_13hd, wacom_mo, tabletpc, tabletpc2fg,
}
use linuxwacom.Pen.{penpartner_irq, dtu_irq, pl_irq, ptu_irq, dtus_irq}
use linuxwacom.Bpt
use linuxwacom.Graphire
use linuxwacom.Tpc
use linuxwacom.Intuos.Motion

-- The model types whose packets go to `wacom_intuos_irq`.
abbrev pub is_intuos_type : Kind → Bool
is_intuos_type penpartner = false
is_intuos_type graphire = false
is_intuos_type wacom_g4 = false
is_intuos_type ptu = false
is_intuos_type pl = false
is_intuos_type dtu = false
is_intuos_type dtus = false
is_intuos_type bamboo_pt = false
is_intuos_type wacom_mo = false
is_intuos_type tabletpc = false
is_intuos_type tabletpc2fg = false
is_intuos_type _ = true

-- A model of the Intuos5 kind: its touch packets are dropped.
unfoldable pub intuos5_irq : Packet → ℕ → Wac → Wac × ℕ
intuos5_irq d len w = if len == pkglen_bbtouch3 then (w, 0) else Motion.irq d w

-- `switch (wacom_wac->features.type)`
unfoldable pub dispatch : Kind → InputCore → Packet → ℕ → Wac → Wac × ℕ
dispatch penpartner core d len w = penpartner_irq d w
dispatch dtu core d len w = dtu_irq d w
dispatch pl core d len w = pl_irq d w
dispatch bamboo_pt core d len w = Bpt.irq core d len w
dispatch wacom_g4 core d len w = Graphire.irq d w
dispatch graphire core d len w = Graphire.irq d w
dispatch wacom_mo core d len w = Graphire.irq d w
dispatch ptu core d len w = ptu_irq d w
dispatch dtus core d len w = dtus_irq d w
dispatch intuos core d len w = Motion.irq d w
dispatch intuos3s core d len w = Motion.irq d w
dispatch intuos3 core d len w = Motion.irq d w
dispatch intuos3l core d len w = Motion.irq d w
dispatch intuos4s core d len w = Motion.irq d w
dispatch intuos4 core d len w = Motion.irq d w
dispatch intuos4l core d len w = Motion.irq d w
dispatch cintiq core d len w = Motion.irq d w
dispatch wacom_bee core d len w = Motion.irq d w
dispatch wacom_13hd core d len w = Motion.irq d w
dispatch wacom_21ux2 core d len w = Motion.irq d w
dispatch wacom_22hd core d len w = Motion.irq d w
dispatch wacom_24hd core d len w = Motion.irq d w
dispatch dtk core d len w = Motion.irq d w
dispatch intuos5s core d len w = intuos5_irq d len w
dispatch intuos5 core d len w = intuos5_irq d len w
dispatch intuos5l core d len w = intuos5_irq d len w
dispatch intuosps core d len w = intuos5_irq d len w
dispatch intuospm core d len w = intuos5_irq d len w
dispatch intuospl core d len w = intuos5_irq d len w
dispatch tabletpc core d len w = Tpc.irq core d len w
dispatch tabletpc2fg core d len w = Tpc.irq core d len w

-- `if (sync) input_sync(wacom_wac->input);`
abbrev pub finish : Wac × ℕ → Wac
finish (w, sync) = when (nonzero sync) input_sync w

unfoldable pub wac_irq : InputCore → Packet → ℕ → Wac → Wac
wac_irq core d len w = finish (dispatch w.features.kind core d len w)

-- The packets that arrive, in order, with their lengths.
unfoldable pub run : InputCore → List (Packet × ℕ) → Wac → Wac
run core [] w = w
run core ((d, len) ∷ ps) w = run core ps (wac_irq core d len w)
