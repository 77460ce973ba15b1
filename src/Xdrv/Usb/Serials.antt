-- ===== src/Xdrv/Usb/Serials.antt =====
-- The serial numbers that the kernel driver posts for the tablets of protocol 4 (src/2.6.30/wacom_wac.c)
-- next to `usbChooseChannel` (src/xdrv/wcmUSB.c), which reads its channel off them.
use linuxwacom.Prelude.{
  not, ℕ, ◌==◌, ◌≡◌, refl, Bool, true, false, ◌&&◌, ◌||◌, List, [], ◌∷◌, arith, ltb,
}
use linuxwacom.Prelude.Int.{ℤ, pos, negsuc, ◌-ℤ◌}
use linuxwacom.Input.{Event, key, abs, rel_wheel, msc_serial, sync}
use linuxwacom.Wacom.{Kind, Wac, Packet, InputCore}
use linuxwacom.Pen.{
  penpartner_irq, dtu_irq, pl_irq, ptu_irq, dtus_irq, pl_near, pl_away, pl_in, pl_out, dtus_pad,
  dtus_pen, dtus_select,
}
use linuxwacom.Bpt
use linuxwacom.Graphire
use linuxwacom.Tpc
use linuxwacom.Irq.{is_intuos_type, finish, dispatch, wac_irq, run}
use linuxwacom.Xdrv.Usb.State.{Channel, Setup, max_channels}
use linuxwacom.Xdrv.Usb.Queue.{channel_of}

-- The first finger or the pen, the second finger, and the pad.
abbrev pub is_finger_serial : ℕ → Bool
is_finger_serial n = n == 1 || n == 2 || n == 0xf0

-- Every serial number of a history is one of those.
abbrev pub tracked : List Event → Bool
tracked [] = true
tracked (key _ _ ∷ es) = tracked es
tracked (abs _ _ ∷ es) = tracked es
tracked (rel_wheel _ ∷ es) = tracked es
tracked (msc_serial n ∷ es) = is_finger_serial n && tracked es
tracked (sync ∷ es) = tracked es

-- The model types whose handler is not that of the Intuos and Cintiq.
abbrev pub has_protocol4 : Kind → Bool
has_protocol4 kind = not (is_intuos_type kind)

unfoldable sound : Wac → Bool
sound w = has_protocol4 w.features.kind && tracked w.posted

-- The handlers keep the model type, and a history of such serial numbers.
abbrev KeepsTracked : Wac → Wac → Type 0
KeepsTracked w w' = sound w ≡ true → sound w' ≡ true

penpartner-tracked : (d : Packet) (w : Wac) → KeepsTracked w (penpartner_irq d w).0
unfolding sound penpartner_irq
penpartner-tracked d w = ground arith

dtu-tracked : (d : Packet) (w : Wac) → KeepsTracked w (dtu_irq d w).0
unfolding sound dtu_irq
dtu-tracked d w = ground arith

pl-tracked : (d : Packet) (w : Wac) → KeepsTracked w (pl_irq d w).0
unfolding sound pl_irq pl_near pl_away pl_in pl_out
pl-tracked d w = ground arith

ptu-tracked : (d : Packet) (w : Wac) → KeepsTracked w (ptu_irq d w).0
unfolding sound ptu_irq
ptu-tracked d w = ground arith

dtus-tracked : (d : Packet) (w : Wac) → KeepsTracked w (dtus_irq d w).0
unfolding sound dtus_irq dtus_pad dtus_pen dtus_select
dtus-tracked d w = ground arith

graphire_tool-tracked : (d : Packet) (w : Wac) → KeepsTracked w (Graphire.tool_packet d w)
unfolding sound Graphire.tool_packet Graphire.select Graphire.tool_state
graphire_tool-tracked d w h = ground arith

graphire_g4-tracked : (d : Packet) (w : Wac) → KeepsTracked w (Graphire.pad_g4 d w).0
unfolding sound Graphire.pad_g4
graphire_g4-tracked d w h = ground arith

graphire_mo-tracked : (d : Packet) (w : Wac) → KeepsTracked w (Graphire.pad_mo d w).0
unfolding sound Graphire.pad_mo
graphire_mo-tracked d w h = ground arith

graphire-tracked : (d : Packet) (w : Wac) → KeepsTracked w (Graphire.irq d w).0
unfolding Graphire.irq
graphire-tracked d w h = ground (
  arith,
  graphire_tool-tracked d w h,
  graphire_g4-tracked d (Graphire.tool_packet d w),
  graphire_mo-tracked d (Graphire.tool_packet d w),
)

bpt_touch-tracked : (core : InputCore) (d : Packet) (w : Wac) → KeepsTracked w (Bpt.touch core d w)
unfolding sound Bpt.touch Bpt.touch_in Bpt.lift Bpt.touch_out Bpt.finger_in
bpt_touch-tracked core d w h = ground arith

bpt_pad-tracked : (d : Packet) (w : Wac) → KeepsTracked w (Bpt.pad d w)
unfolding sound Bpt.pad
bpt_pad-tracked d w h = ground arith

tpc_touch-tracked :
    (core : InputCore) (d : Packet) (len : ℕ) (w : Wac) → KeepsTracked w (Tpc.touch core d len w)
unfolding sound Tpc.touch Tpc.touch_near Tpc.touch_away Tpc.touch_in Tpc.lift Tpc.touch_out
    Tpc.finger_in
tpc_touch-tracked core d len w h = ground arith

bpt_pen-tracked : (d : Packet) (w : Wac) → KeepsTracked w (Bpt.pen d w)
unfolding sound Bpt.pen
bpt_pen-tracked d w h = ground arith

bpt-tracked :
    (core : InputCore) (d : Packet) (len : ℕ) (w : Wac) → KeepsTracked w (Bpt.irq core d len w).0
unfolding Bpt.irq
bpt-tracked core d len w h =
    ground
      (arith, bpt_pad-tracked d w h, bpt_touch-tracked core d (Bpt.pad d w), bpt_pen-tracked d w h)

tpc_pen-tracked : (d : Packet) (w : Wac) → KeepsTracked w (Tpc.pen d w)
unfolding sound Tpc.pen
tpc_pen-tracked d w h = ground arith

tpc-tracked :
    (core : InputCore) (d : Packet) (len : ℕ) (w : Wac) → KeepsTracked w (Tpc.irq core d len w).0
unfolding Tpc.irq
tpc-tracked core d len w h = ground (arith, tpc_touch-tracked core d len w h, tpc_pen-tracked d w h)

dispatch-tracked :
    (kind : Kind) (core : InputCore) (d : Packet) (len : ℕ) (w : Wac)
    → has_protocol4 kind ≡ true
    → KeepsTracked w (dispatch kind core d len w).0
unfolding dispatch
dispatch-tracked kind core d len w old h = ground (
  arith,
  penpartner-tracked d w h,
  dtu-tracked d w h,
  pl-tracked d w h,
  ptu-tracked d w h,
  dtus-tracked d w h,
  graphire-tracked d w h,
  bpt-tracked core d len w h,
  tpc-tracked core d len w h,
)

finish-tracked : (r : Wac × ℕ) → KeepsTracked r.0 (finish r)
unfolding sound
finish-tracked r h = ground arith

wac_irq-tracked :
    (core : InputCore) (d : Packet) (len : ℕ) (w : Wac) → KeepsTracked w (wac_irq core d len w)
unfolding wac_irq sound
wac_irq-tracked core d len w h =
    finish-tracked (dispatch w.features.kind core d len w)
      (dispatch-tracked w.features.kind core d len w (ground (arith, h)) h)

run-tracked : (core : InputCore) (ps : List (Packet × ℕ)) (w : Wac) → KeepsTracked w (run core ps w)
unfolding run
run-tracked core [] w h = h
run-tracked core ((d, len) ∷ ps) w h =
    run-tracked core ps (wac_irq core d len w) (wac_irq-tracked core d len w h)

-- An index of the array of channels.
abbrev pub is_channel : ℤ → Bool
is_channel (pos n) = ltb n max_channels
is_channel (negsuc n) = false

-- Every serial number of a history has a channel within the array.
abbrev pub all_have_channels : Setup → (ℕ → Channel) → List Event → Bool
all_have_channels c channels [] = true
all_have_channels c channels (key _ _ ∷ es) = all_have_channels c channels es
all_have_channels c channels (abs _ _ ∷ es) = all_have_channels c channels es
all_have_channels c channels (rel_wheel _ ∷ es) = all_have_channels c channels es
all_have_channels c channels (msc_serial n ∷ es) =
    is_channel (channel_of c n channels) && all_have_channels c channels es
all_have_channels c channels (sync ∷ es) = all_have_channels c channels es

finger_channel :
    (c : Setup) (n : ℕ) (channels : ℕ → Channel)
    → c.protocol ≡ 4
    → is_finger_serial n ≡ true
    → is_channel (channel_of c n channels) ≡ true
unfolding channel_of ◌-ℤ◌
finger_channel c n channels old h = ground arith

tracked-channels :
    (c : Setup) (channels : ℕ → Channel) (es : List Event)
    → c.protocol ≡ 4
    → tracked es ≡ true
    → all_have_channels c channels es ≡ true
tracked-channels c channels [] old h = refl
tracked-channels c channels (key _ _ ∷ es) old h = tracked-channels c channels es old h
tracked-channels c channels (abs _ _ ∷ es) old h = tracked-channels c channels es old h
tracked-channels c channels (rel_wheel _ ∷ es) old h = tracked-channels c channels es old h
tracked-channels c channels (msc_serial n ∷ es) old h =
    ground (arith, finger_channel c n channels old, tracked-channels c channels es old)
tracked-channels c channels (sync ∷ es) old h = tracked-channels c channels es old h

-- Whatever packets the kernel driver gets on a model type whose handler is not that of the Intuos and
-- Cintiq, every serial number that it posts has, in the X driver at protocol level 4, a channel within
-- the array of three, if the history had only the serial numbers 1, 2 and 0xf0 before.
pub run-channels :
    (c : Setup) (channels : ℕ → Channel) (core : InputCore) (ps : List (Packet × ℕ)) (w : Wac)
    → c.protocol ≡ 4
    → has_protocol4 w.features.kind ≡ true
    → tracked w.posted ≡ true
    → all_have_channels c channels (run core ps w).posted ≡ true
unfolding sound
run-channels c channels core ps w old kind h =
    let kept = run-tracked core ps w (ground (arith, kind, h)) in
    tracked-channels c channels (run core ps w).posted old (ground (arith, kept))
