-- ===== src/Xdrv/Filter/Line.antt =====
-- `filterLine` of src/xdrv/wcmFilter.c, which draws a straight part of the pressure curve.
pub mod Rounded
pub mod Ends
use linuxwacom.Prelude.{
  ℕ, zero, suc, ◌+◌, ◌*◌, ◌/◌, Bool, true, false, not, ◌&&◌, ◌||◌, ltb, Option, none, some,
  if◌then◌else◌,
}
use linuxwacom.Prelude.Int.{ℤ, pos, negsuc, ◌+ℤ◌, ◌-ℤ◌, ltb_ℤ, leb_ℤ, abs_ℕ}
use linuxwacom.Wacom.{same_int}

-- The array `pCurve`.
abbrev pub Curve : Type 0
Curve = ℤ → ℤ

-- `pCurve[x] = y`
unfoldable pub put : ℤ → ℤ → Curve → Curve
put x y curve i = if same_int i x then y else curve i

-- What stays the same in a loop: the last value of the coordinate that grows in each round, twice the
-- distances, that of this coordinate first, and the two directions.
pub record Way : Type 0 where
  pub last : ℤ
  pub long : ℕ
  pub short : ℕ
  pub step : ℤ
  pub side : ℤ

-- Both loops: `m` is the coordinate that grows in each round, `n` the other one, and `write` the
-- assignment to the array. `none` means that the fuel has run out.
unfoldable pub walk : (ℤ → ℤ → Curve → Curve) → ℕ → Way → ℤ → ℤ → ℤ → Curve → Option Curve
walk write zero w m n d curve = none
walk write (suc fuel) w m n d curve =
    let curve' = write m n curve in
    let over = leb_ℤ (pos 0) d in
    let rest =
      walk write fuel w (m +ℤ w.step) (if over then n +ℤ w.side else n)
        ((if over then d -ℤ pos w.long else d) +ℤ pos w.short) curve' in
    if same_int m w.last then some curve' else rest

-- `sx` and `sy`
unfoldable pub direction : ℤ → ℤ
direction d = if ltb_ℤ (pos 0) d then pos 1 else negsuc 0

abbrev pub put_turned : ℤ → ℤ → Curve → Curve
put_turned y x = put x y

-- `filterLine`, with fuel for `max` + 1 rounds.
unfoldable pub filter_line : Curve → ℕ → ℤ → ℤ → ℤ → ℤ → Option Curve
filter_line curve max x0 y0 x1 y1 =
    let dx = x1 -ℤ x0 in
    let dy = y1 -ℤ y0 in
    let ax = abs_ℕ dx * 2 in
    let ay = abs_ℕ dy * 2 in
    let outside =
      ltb_ℤ x0 (pos 0)
      || ltb_ℤ y0 (pos 0)
      || ltb_ℤ x1 (pos 0)
      || ltb_ℤ y1 (pos 0)
      || ltb_ℤ (pos max) x0
      || ltb_ℤ (pos max) y0
      || ltb_ℤ (pos max) x1
      || ltb_ℤ (pos max) y1 in
    if outside
    then some curve
    else if ltb ay ax
    then (walk put (max + 1)
        (record { last = x1; long = ax; short = ay; step = direction dx; side = direction dy }) x0
        y0 (pos ay -ℤ pos (ax / 2)) curve)
    else (walk put_turned (max + 1)
        (record { last = y1; long = ay; short = ax; step = direction dy; side = direction dx }) y0
        x0 (pos ax -ℤ pos (ay / 2)) curve)
