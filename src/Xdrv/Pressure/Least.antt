-- ===== src/Xdrv/Pressure/Least.antt =====
-- The least pressure of a tool, and the bounds of the normalised one.
use mathlib.Core.Path.{subst, sym}
use native.Mathlib.Nat.{div-le_of_le-mul, mul-div_cancel_left, zero-div}
use linuxwacom.Prelude.{
  ℕ, ◌-◌, ◌*◌, ◌/◌, ◌≤◌, ◌<◌, ◌≡◌, refl, false, ltb, All, ◌⊎◌, List, [], ◌∷◌, if◌then◌else◌, arith,
  Bool-cases, inl, inr,
}
use linuxwacom.Prelude.Int.{ℤ, pos, ◌-ℤ◌, ◌*ℤ◌, ltb_ℤ, ◌≤ℤ◌}
use linuxwacom.Xdrv.Filter.{quotient}
use linuxwacom.Xdrv.Pressure.{Setup, least_pressure, rebase_pressure, normalize}
use linuxwacom.Xdrv.Usb.Axes.{filter_pressure_res}

minus_pos : (a b : ℕ) → b ≤ a → pos a -ℤ pos b ≡ pos (a - b)
unfolding ◌-ℤ◌
minus_pos a b le = ground (arith, le)

times_pos : (a b : ℕ) → pos a *ℤ pos b ≡ pos (a * b)
unfolding ◌*ℤ◌
times_pos a b = ground arith

normalize-eq :
    (c : Setup) (least pressure : ℕ)
    → least < c.max_z
    → normalize c (pos least) (pos pressure)
      ≡ pos ((pressure - least) * filter_pressure_res / (c.max_z - least))
unfolding normalize quotient
normalize-eq c least pressure some_range = elim (Bool-cases (ltb least pressure)) [
  | inl above ↦
      rw
        (
          minus_pos pressure least (ground (arith, above)),
          minus_pos c.max_z least (omega (arith, some_range)),
          times_pos (pressure - least) filter_pressure_res,
        )
        (ground (arith, above))
  | inr below ↦
      let none_left : pressure - least ≡ 0 = ground (arith, below) in
      let empty : 0 * filter_pressure_res / (c.max_z - least) ≡ 0 = zero-div (c.max_z - least) in
      rw (none_left, empty) (ground (arith, below))
]

-- With a least pressure below the maximum of the tablet, a pressure that is at most the maximum is normalised
-- to at most FILTER_PRESSURE_RES; the maximum becomes FILTER_PRESSURE_RES, and the least one 0.
pub normalize_bounds :
    (c : Setup) (least pressure : ℕ)
    → pressure ≤ c.max_z
    → least < c.max_z
    → (r : ℕ) × (normalize c (pos least) (pos pressure) ≡ pos r)
      × (r ≤ filter_pressure_res)
      × (pressure ≡ c.max_z → r ≡ filter_pressure_res)
      × (pressure ≤ least → r ≡ 0)
normalize_bounds c least pressure le some_range =
    let range = c.max_z - least in
    let some : 0 < range = omega (arith, some_range) in
    (
      (pressure - least) * filter_pressure_res / range,
      normalize-eq c least pressure some_range,
      div-le_of_le-mul range (omega (arith, le)),
      λ top. rw top (mul-div_cancel_left filter_pressure_res some),
      λ low.
          (let none_left : pressure - least ≡ 0 = omega (arith, low) in
            rw none_left (zero-div range)),
    )

-- `minPressure` after the reports of a tool since it came in with the pressure `p`; the newest of the
-- other pressures is the first of the list.
unfoldable pub least_of : Setup → ℤ → ℤ → List ℤ → ℤ
least_of c before p [] = least_pressure c 0 before p
least_of c before p (q ∷ qs) = least_pressure c 1 (least_of c before p qs) q

abbrev pub Among : ℤ → ℤ → List ℤ → Type 0
Among r p [] = r ≡ p
Among r p (q ∷ qs) = (r ≡ q) ⊎ Among r p qs

All-below : (low q : ℤ) (qs : List ℤ) → All (λ r. low ≤ℤ r) qs → q ≤ℤ low → All (λ r. q ≤ℤ r) qs
All-below low q [] h le = tt
All-below low q (r ∷ qs) h le = (omega (arith, h.0, le), All-below low q qs h.1 le)

least_of-cons :
    (c : Setup) (before p q : ℤ) (qs : List ℤ)
    → c.no_recal ≡ false
    → least_of c before p (q ∷ qs)
      ≡ (if ltb_ℤ (least_of c before p qs) q then least_of c before p qs else q)
unfolding least_of least_pressure rebase_pressure
least_of-cons c before p q qs h = ground (arith, h)

least_of-nil : (c : Setup) (before p : ℤ) → c.no_recal ≡ false → least_of c before p [] ≡ p
unfolding least_of least_pressure rebase_pressure
least_of-nil c before p h = ground (arith, h)

-- A pressure that is one of those of the tool, none of which is less.
abbrev pub IsLeast : ℤ → ℤ → List ℤ → Type 0
IsLeast r p qs = Among r p qs × (r ≤ℤ p) × All (λ q. r ≤ℤ q) qs

IsLeast-cons :
    (low p q : ℤ) (qs : List ℤ)
    → IsLeast low p qs
    → IsLeast (if ltb_ℤ low q then low else q) p (q ∷ qs)
IsLeast-cons low p q qs (among, first, rest) = elim (Bool-cases (ltb_ℤ low q)) [
  | inl less ↦
      let same : (if ltb_ℤ low q then low else q) ≡ low = rw less refl in
      subst (λ r. IsLeast r p (q ∷ qs)) (sym same) (inr among, first, (ground (arith, less), rest))
  | inr more ↦
      let same : (if ltb_ℤ low q then low else q) ≡ q = rw more refl in
      subst (λ r. IsLeast r p (q ∷ qs)) (sym same)
        (
          inl refl,
          ground (arith, more, first),
          (omega arith, All-below low q qs rest (ground (arith, more))),
        )
]

-- Unless the recalibration is off, the least pressure of a tool is one of those that it reported since it came
-- in, whatever was before, and none of them is less.
pub least_of-IsLeast :
    (c : Setup) (before p : ℤ) (qs : List ℤ)
    → c.no_recal ≡ false
    → IsLeast (least_of c before p qs) p qs
least_of-IsLeast c before p [] h = rw (least_of-nil c before p h) (refl, omega arith, tt)
least_of-IsLeast c before p (q ∷ qs) h =
    subst (λ r. IsLeast r p (q ∷ qs)) (sym (least_of-cons c before p q qs h))
      (IsLeast-cons (least_of c before p qs) p q qs (least_of-IsLeast c before p qs h))
