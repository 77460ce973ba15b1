-- ===== src/Intuos/Lifecycle.antt =====
-- The life of a tool on an Intuos or Cintiq: enter report, packets, exit report.
use linuxwacom.Prelude.{
  ℕ, ◌/◌, ◌^◌, ◌≡◌, refl, Bool, true, false, bit_and, not, ◌&&◌, ◌||◌, arith, ◌==◌, List, [], ◌∷◌,
  when, if-holds, ◌∙◌, if◌then◌else◌,
}
use linuxwacom.Input.{Key, held, same_key}
use linuxwacom.Wacom.{
  Wac, Packet, is_type, intuos, wacom_21ux2, report_intuospad, report_intuos5pad,
}
use linuxwacom.Intuos.Tools.{tool_index, enter, range, leave, inout}
use linuxwacom.Intuos.Pads.{pad}
use linuxwacom.Intuos.PadKeys.{pad-held, tool-pad, features-pad}
use linuxwacom.Intuos.Motion.{motion, tool_packet, irq, after_inout, is_known_report}
use linuxwacom.Intuos.Held.{
  is_tool, range-held, leave-held, motion-held, tool-motion, id-motion, id-pad,
}
use linuxwacom.Intuos.Features.{features-irq, features-motion}

-- A report of a tool, outside the pad packets: an enter report and an exit report.
abbrev pub is_tool_report : Packet → Bool
is_tool_report d =
    is_known_report (d 0) && not (d 0 == report_intuospad || d 0 == report_intuos5pad)

abbrev pub is_enter : Packet → Bool
is_enter d = is_tool_report d && bit_and (d 1) 0xfc == 0xc0

abbrev pub is_exit : Packet → Bool
is_exit d = is_tool_report d && bit_and (d 1) 0xfe == 0x80

-- Whether a tool is near after a packet, as the packets say.
abbrev near_after : Bool → Packet → Bool
near_after near d = if is_enter d then true else if is_exit d then false else near

-- The packets of tools that come in turn: an enter report comes only while no tool is near.
abbrev pub in_turn : Bool → List Packet → Bool
in_turn near [] = true
in_turn near (d ∷ ds) = not (near && is_enter d) && in_turn (near_after near d) ds

-- The driver passes over the packets of the tool: it has no identifier, or on the 21UX2 one without the
-- bit 20.
abbrev mute : Wac → Bool
mute w =
    if is_type w.features.kind wacom_21ux2 then bit_and (w.id 0 / 2 ^ 20) 0x01 == 0 else w.id 0 == 0

-- A tool key that is down is that of `tool[0]`, none is down of a tool that is passed over, and that is
-- so while no tool is near.
abbrev Tracks : Key → Bool → Wac → Type 0
Tracks k near w =
    (near ≡ false → mute w ≡ true)
    × (mute w ≡ true → held k w.posted ≡ false)
    × (held k w.posted ≡ true → same_key (w.tool 0) k ≡ true)

Tracks-same :
    (k : Key) (near : Bool) (v w : Wac)
    → v.features ≡ w.features
    → v.id 0 ≡ w.id 0
    → v.tool 0 ≡ w.tool 0
    → held k v.posted ≡ held k w.posted
    → Tracks k near w
    → Tracks k near v
Tracks-same k near v w features id tool posted h = rw (features, id, tool, posted) h

id-leave : (w : Wac) → (leave 0 w).id 0 ≡ 0
unfolding leave
id-leave w = refl

module _ (d : Packet) (k : Key) (near : Bool) (w : Wac) (tool : is_tool k ≡ true)
    (h : Tracks k near w) where
  pad-Tracks : Tracks k near (pad d w)
  pad-Tracks =
      Tracks-same k near (pad d w) w (features-pad d w) (id-pad d w) (tool-pad d w)
        (ground (arith, pad-held k d w, tool)) h

  motion-Tracks : mute w ≡ false → Tracks k near (motion d 0 w)
  motion-Tracks loud = ground (
    arith,
    motion-held d k w tool 0,
    tool-motion d 0 w,
    id-motion d 0 w,
    features-motion d 0 w,
    h,
    loud,
  )

  range-Tracks : Tracks k near (range w)
  unfolding range
  range-Tracks = Tracks-same k near (range w) w refl refl refl (range-held d k w tool) h

  leave-Tracks : (n : Bool) → Tracks k n (leave 0 w)
  leave-Tracks n = ground (arith, leave-held k w tool 0, id-leave w, h)

  enter-Tracks : near ≡ false → Tracks k true (enter d 0 w)
  unfolding enter
  enter-Tracks away = ground (arith, h, away)

started : (k : Key) (w : Wac) → w.id 0 ≡ 0 → held k w.posted ≡ false → Tracks k false w
started k w fresh up = ground (arith, fresh, up)

-- The packets that the 21UX2 passes over.
abbrev passes : Wac → Bool
passes w = bit_and (w.id 0 / 2 ^ 20) 0x01 == 0 && is_type w.features.kind wacom_21ux2

module _ (d : Packet) (k : Key) (near : Bool) (w : Wac) (tool : is_tool k ≡ true) where
  tool_packet-Tracks : passes w ≡ false → Tracks k near w → Tracks k near (tool_packet d 0 w).0
  unfolding tool_packet
  tool_packet-Tracks heard h = ground (arith, motion-Tracks d k near w tool h, h, heard)

  when-Tracks : (b : Bool) → Tracks k near w → Tracks k near (when b range w)
  when-Tracks true h = range-Tracks d k near w tool h
  when-Tracks false h = h

passes-range : (b : Bool) (w : Wac) → passes (when b range w) ≡ passes w
unfolding range
passes-range true w = refl
passes-range false w = refl

Tracks-near : (k : Key) (m n : Bool) (w : Wac) → n ≡ m → Tracks k m w → Tracks k n w
Tracks-near k m n w e h = rw e h

tool_index-zero :
    (d : Packet) (w : Wac) → is_type w.features.kind intuos ≡ false → tool_index d w ≡ 0
unfolding tool_index
tool_index-zero d w model = ground (arith, model)

tool_report-Tracks :
    (d : Packet) (k : Key) (near : Bool) (w : Wac)
    → is_tool k ≡ true
    → is_type w.features.kind intuos ≡ false
    → is_tool_report d ≡ true
    → not (near && is_enter d) ≡ true
    → Tracks k near w
    → Tracks k (near_after near d) (after_inout d 0 (inout d w)).0
unfolding inout
tool_report-Tracks d k near w tool model report order h =
    let n = near_after near d in
    let P : Wac × ℕ → Type 0 = λ r. Tracks k n (after_inout d 0 r).0 in
    let v = when (bit_and (d 1) 0xfe == 0x20) range w in
    let hv = when-Tracks d k near w tool (bit_and (d 1) 0xfe == 0x20) h in
    rw (tool_index-zero d w model) (
      if-holds P (bit_and (d 1) 0xfc == 0xc0)
        (λ a.
          Tracks-near k true n (enter d 0 w) (ground (arith, a, report))
            (enter-Tracks d k near w tool h (ground (arith, a, report, order))))
        (λ a.
          if-holds P (passes w) (λ b. ground (arith, h, b))
            (λ b.
              if-holds P (bit_and (d 1) 0xfe == 0x80) (λ c. leave-Tracks d k near v tool hv n)
                (λ c. Tracks-near k near n (tool_packet d 0 v).0 (ground (arith, a, c)) (
                  tool_packet-Tracks d k near v tool
                    (passes-range (bit_and (d 1) 0xfe == 0x20) w ∙ b) hv)))))

irq-Tracks :
    (d : Packet) (k : Key) (near : Bool) (w : Wac)
    → is_tool k ≡ true
    → is_type w.features.kind intuos ≡ false
    → not (near && is_enter d) ≡ true
    → Tracks k near w
    → Tracks k (near_after near d) (irq d w).0
unfolding irq
irq-Tracks d k near w tool model order h =
    let n = near_after near d in
    let P : Wac × ℕ → Type 0 = λ r. Tracks k n r.0 in
    if-holds P (not (is_known_report (d 0))) (λ a. Tracks-near k near n w (ground (arith, a)) h)
      (λ a.
        if-holds P (d 0 == report_intuospad || d 0 == report_intuos5pad)
          (λ b. Tracks-near k near n (pad d w) (ground (arith, b)) (pad-Tracks d k near w tool h))
          (λ b.
            rw (tool_index-zero d w model)
              (tool_report-Tracks d k near w tool model (ground (arith, a, b)) order h)))

unfoldable pub run : List Packet → Wac → Wac
run [] w = w
run (d ∷ ds) w = run ds (irq d w).0

run-Tracks :
    (ds : List Packet) (k : Key) (near : Bool) (w : Wac)
    → is_tool k ≡ true
    → is_type w.features.kind intuos ≡ false
    → in_turn near ds ≡ true
    → Tracks k near w
    → (held k (run ds w).posted ≡ true → same_key ((run ds w).tool 0) k ≡ true)
unfolding run
run-Tracks [] k near w tool model order h = h.2
run-Tracks (d ∷ ds) k near w tool model order h =
    run-Tracks ds k (near_after near d) (irq d w).0 tool (rw (features-irq d w) model)
      (ground (arith, order)) (irq-Tracks d k near w tool model (ground (arith, order)) h)

-- On every Intuos or Cintiq but the first Intuos (which tracks two tools), for any packets in which an exit
-- report stands between each two enter reports, from a state on in which no tool is known (`id[0]` is 0) and two
-- different tool keys are up: after the packets the two keys are not down together.
pub intuos_run-one_tool :
    (ds : List Packet) (j k : Key) (w : Wac)
    → is_tool j ≡ true
    → is_tool k ≡ true
    → same_key j k ≡ false
    → is_type w.features.kind intuos ≡ false
    → in_turn false ds ≡ true
    → w.id 0 ≡ 0
    → held j w.posted ≡ false
    → held k w.posted ≡ false
    → (held j (run ds w).posted && held k (run ds w).posted) ≡ false
intuos_run-one_tool ds j k w tj tk different model order fresh hj hk =
    let one = run-Tracks ds j false w tj model order (started j w fresh hj) in
    let two = run-Tracks ds k false w tk model order (started k w fresh hk) in
    ground (arith, one, two)
