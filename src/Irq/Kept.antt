-- ===== src/Irq/Kept.antt =====
-- The handlers of `wacom_wac_irq` keep the features of the device.
use linuxwacom.Prelude.{ℕ, ◌≡◌, ◌∙◌, arith}
use linuxwacom.Wacom.{Kind, Wac, Packet, InputCore}
use linuxwacom.Pen.{
  penpartner_irq, dtu_irq, pl_irq, ptu_irq, dtus_irq, pl_near, pl_away, pl_in, pl_out, dtus_pad,
  dtus_pen, dtus_select,
}
use linuxwacom.Bpt
use linuxwacom.Graphire
use linuxwacom.Tpc
use linuxwacom.Intuos.Features.{features-irq}
use linuxwacom.Irq.{finish, dispatch, intuos5_irq, wac_irq}

module _ (d : Packet) (w : Wac) where
  features-penpartner : (penpartner_irq d w).0.features ≡ w.features
  unfolding penpartner_irq
  features-penpartner = ground arith

  features-dtu : (dtu_irq d w).0.features ≡ w.features
  unfolding dtu_irq
  features-dtu = ground arith

  features-pl : (pl_irq d w).0.features ≡ w.features
  unfolding pl_irq pl_near pl_away pl_in pl_out
  features-pl = ground arith

  features-ptu : (ptu_irq d w).0.features ≡ w.features
  unfolding ptu_irq
  features-ptu = ground arith

  features-dtus : (dtus_irq d w).0.features ≡ w.features
  unfolding dtus_irq dtus_pad dtus_pen dtus_select
  features-dtus = ground arith

  features-tool_packet : (Graphire.tool_packet d w).features ≡ w.features
  unfolding Graphire.tool_packet Graphire.select Graphire.tool_state
  features-tool_packet = ground arith

  features-pads :
      ((Graphire.pad_g4 d w).0.features ≡ w.features)
      × ((Graphire.pad_mo d w).0.features ≡ w.features)
  unfolding Graphire.pad_g4 Graphire.pad_mo
  features-pads = (ground arith, ground arith)

  features-bpt_pad : (Bpt.pad d w).features ≡ w.features
  unfolding Bpt.pad
  features-bpt_pad = ground arith

  features-bpt_pen : (Bpt.pen d w).features ≡ w.features
  unfolding Bpt.pen
  features-bpt_pen = ground arith

  features-tpc_pen : (Tpc.pen d w).features ≡ w.features
  unfolding Tpc.pen
  features-tpc_pen = ground arith

module _ (core : InputCore) (d : Packet) (len : ℕ) (w : Wac) where
  features-bpt_touch : (Bpt.touch core d w).features ≡ w.features
  unfolding Bpt.touch Bpt.touch_in Bpt.lift Bpt.touch_out Bpt.finger_in
  features-bpt_touch = ground arith

  features-tpc_touch : (Tpc.touch core d len w).features ≡ w.features
  unfolding Tpc.touch Tpc.touch_near Tpc.touch_away Tpc.touch_in Tpc.lift Tpc.touch_out
      Tpc.finger_in
  features-tpc_touch = ground arith

module _ (core : InputCore) (d : Packet) (len : ℕ) (w : Wac) where
  features-graphire : (Graphire.irq d w).0.features ≡ w.features
  unfolding Graphire.irq
  features-graphire =
      ground (arith, features-tool_packet d w, features-pads d (Graphire.tool_packet d w))

  features-bpt : (Bpt.irq core d len w).0.features ≡ w.features
  unfolding Bpt.irq
  features-bpt = ground (
    arith,
    features-bpt_pad d w,
    features-bpt_touch core d len (Bpt.pad d w),
    features-bpt_pen d w,
  )

  features-tpc : (Tpc.irq core d len w).0.features ≡ w.features
  unfolding Tpc.irq
  features-tpc = ground (arith, features-tpc_touch core d len w, features-tpc_pen d w)

features-dispatch :
    (kind : Kind) (core : InputCore) (d : Packet) (len : ℕ) (w : Wac)
    → (dispatch kind core d len w).0.features ≡ w.features
unfolding dispatch intuos5_irq
features-dispatch kind core d len w = ground (
  arith,
  features-penpartner d w,
  features-dtu d w,
  features-pl d w,
  features-ptu d w,
  features-dtus d w,
  features-graphire core d len w,
  features-bpt core d len w,
  features-tpc core d len w,
  features-irq d w,
)

features-finish : (r : Wac × ℕ) → (finish r).features ≡ r.0.features
features-finish (w, sync) = ground arith

pub features-wac_irq :
    (core : InputCore) (d : Packet) (len : ℕ) (w : Wac)
    → (wac_irq core d len w).features ≡ w.features
unfolding wac_irq
features-wac_irq core d len w =
    features-finish (dispatch w.features.kind core d len w)
    ∙ features-dispatch w.features.kind core d len w
