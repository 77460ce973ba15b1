-- ===== src/Caps/Pads.antt =====
-- The pad events that the Intuos handler posts are among those that the set-up declares.
use linuxwacom.Prelude.{◌≡◌, refl, Bool, true, false, ◌&&◌, arith, List, [], ◌∷◌}
use linuxwacom.Input.{same_key, Event, tool_finger}
use linuxwacom.Wacom.{
  Kind, Features, Wac, Packet, set_tool, intuos4s, intuos4, intuos4l, intuos5, intuos5l, intuospm,
  intuospl, wacom_21ux2, wacom_22hd, dtk, wacom_24hd, wacom_bee, wacom_13hd,
}
use linuxwacom.Intuos.Pads.{
  post_keys, presence, pad_intuos4, pad_dtk, pad_13hd, pad_24hd, pad_intuos5, pad_strips,
  keys_21ux2, keys_strips, pad_of, pad,
}
use linuxwacom.Caps.{
  Caps, declares, setup, setup_kind, setup_shared, setup_intuos4, setup_intuos4s, setup_intuos,
  setup_cintiq, setup_13hd, setup_24hd, setup_dtk, setup_21ux2, setup_22hd, setup_bee,
  setup_cintiq_pads,
}

abbrev pub all_declared : Caps → List Event → Bool
all_declared c [] = true
all_declared c (e ∷ es) = declares c e && all_declared c es

-- The models whose set-up declares every pad event. (The others have fewer keys than their packet
-- has bits for.)
abbrev pub is_complete : Kind → Bool
is_complete intuos4s = true
is_complete intuos4 = true
is_complete intuos4l = true
is_complete intuos5 = true
is_complete intuos5l = true
is_complete intuospm = true
is_complete intuospl = true
is_complete wacom_21ux2 = true
is_complete wacom_22hd = true
is_complete dtk = true
is_complete wacom_24hd = true
is_complete wacom_bee = true
is_complete wacom_13hd = true
is_complete _ = false

caps_of : Kind → Features → Caps
caps_of kind f = setup_kind kind f (setup_shared f)

pad_of-declared :
    (kind : Kind) (d : Packet) (f : Features) (w : Wac)
    → is_complete kind ≡ true
    → w.features.kind ≡ kind
    → same_key (w.tool 1) tool_finger ≡ true
    → all_declared (caps_of kind f) w.posted ≡ true
    → all_declared (caps_of kind f) (pad_of kind d w).posted ≡ true
unfolding pad_of pad_intuos4 pad_intuos5 pad_dtk pad_13hd pad_24hd pad_strips keys_21ux2 keys_strips
    post_keys presence caps_of setup_kind setup_shared setup_intuos4 setup_intuos4s setup_intuos
    setup_cintiq setup_13hd setup_24hd setup_dtk setup_21ux2 setup_22hd setup_bee setup_cintiq_pads
pad_of-declared intuos4s d f w m e t h = ground arith
pad_of-declared _ d f w m e t h = ground arith

serial-declared :
    (kind : Kind) (f : Features) → is_complete kind ≡ true → (caps_of kind f).serial ≡ true
unfolding caps_of setup_kind setup_shared setup_intuos4 setup_intuos4s setup_intuos setup_cintiq
    setup_13hd setup_24hd setup_dtk setup_21ux2 setup_22hd setup_bee setup_cintiq_pads
serial-declared intuos4s f m = refl
serial-declared _ f m = ground arith

-- On the Intuos4 and the Intuos5 but for the small one, the Intuos Pro medium and large, the BEE, the
-- 21UX2, the 22HD, the 24HD, the 13HD and the DTK, every event of a pad packet is declared to the
-- input core by `wacom_setup_input_capabilities`, so that none is dropped.
pub pad-declared :
    (d : Packet) (w : Wac)
    → is_complete w.features.kind ≡ true
    → all_declared (setup w.features) w.posted ≡ true
    → all_declared (setup w.features) (pad d w).posted ≡ true
unfolding pad setup caps_of
pad-declared d w m h =
    let w1 = set_tool 1 tool_finger w in
    let kind = w.features.kind in
    ground (
      arith,
      serial-declared kind w.features m,
      pad_of-declared kind d w.features w m refl,
      pad_of-declared kind d w.features w1 m refl,
    )
