-- ===== src/Caps/Missing.antt =====
-- What `wacom_setup_input_capabilities` leaves undeclared for a PenPartner.
use linuxwacom.Prelude.{◌≡◌, Bool, true, false, arith, has}
use linuxwacom.Input.{Key, held, tool_pen, tool_rubber, btn_stylus}
use linuxwacom.Wacom.{Wac, Packet, Features, is_type, penpartner}
use linuxwacom.Pen.{penpartner_irq}
use linuxwacom.Caps.{has_key, setup, setup_kind, setup_shared, setup_penpartner}

abbrev pub declares_key : Key → Features → Bool
declares_key k f = has_key k (setup f).keys

-- A PenPartner packet of report 2 reports BTN_TOOL_PEN as down and BTN_STYLUS by bit 0x40 of
-- `data[5]`. The set-up of the model declares BTN_TOOL_RUBBER and neither of the two.
pub penpartner-missing :
    (d : Packet) (w : Wac)
    → is_type w.features.kind penpartner ≡ true
    → d 0 ≡ 2
    → (held tool_pen (penpartner_irq d w).0.posted ≡ true)
      × (held btn_stylus (penpartner_irq d w).0.posted ≡ has (d 5) 0x40)
      × (declares_key tool_rubber w.features ≡ true)
      × (declares_key tool_pen w.features ≡ false)
      × (declares_key btn_stylus w.features ≡ false)
unfolding penpartner_irq setup setup_kind setup_shared setup_penpartner
penpartner-missing d w model r = ground arith
