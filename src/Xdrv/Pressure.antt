-- ===== src/Xdrv/Pressure.antt =====
-- The pressure in `commonDispatchDevice` (src/xdrv/wcmCommon.c): `rebasePressure`, `detectPressureIssue`, the
-- normalisation, the threshold of button 1, and `transPressureCurve`.
pub mod Least
use linuxwacom.Prelude.{
  ℕ, suc, ◌+◌, ◌-◌, ◌*◌, ◌/◌, ◌%◌, ◌==◌, Bool, true, false, not, ◌&&◌, ◌||◌, ltb, Option, none,
  some, if◌then◌else◌, has,
}
use linuxwacom.Prelude.Int.{ℤ, pos, negsuc, ◌+ℤ◌, ◌-ℤ◌, ◌*ℤ◌, ltb_ℤ, pos_part}
use linuxwacom.Wacom.{same_int}
use linuxwacom.Xdrv.Events.{DeviceState}
use linuxwacom.Xdrv.Filter.{quotient}
use linuxwacom.Xdrv.Usb.Axes.{filter_pressure_res}

-- `wcmMaxZ`, `wcmThreshold`, `wcmNoPressureRecal` and `pPressCurve`, if it is there.
pub record Setup : Type 0 where
  pub max_z : ℕ
  pub threshold : ℤ
  pub no_recal : Bool
  pub curve : Option (ℤ → ℤ)

-- LIMIT_LOW_PRESSURE, in percent.
abbrev pub limit_low : ℕ
limit_low = 40

abbrev pub min_ℤ : ℤ → ℤ → ℤ
min_ℤ a b = if ltb_ℤ a b then a else b

-- `rebasePressure`, of `oldProximity` and `minPressure`.
unfoldable pub rebase_pressure : ℕ → ℤ → ℤ → ℤ
rebase_pressure old_proximity least pressure =
    if old_proximity == 0 then pressure else min_ℤ least pressure

-- `detectPressureIssue`: `highProxInPressureCounter`.
unfoldable pub detect_pressure_issue : Setup → ℕ → ℤ → ℕ → ℕ
detect_pressure_issue c old_proximity pressure counter =
    let limit : ℤ = pos (c.max_z * limit_low / 100) in
    let counter' = if old_proximity == 0 && ltb_ℤ limit pressure then counter + 1 else counter in
    if ltb_ℤ pressure limit && not (same_int pressure (pos 0)) then 0 else counter'

-- The pressure above the least one, in parts of FILTER_PRESSURE_RES. The code divides as floating-point
-- numbers and cuts the quotient to an `int`.
unfoldable pub normalize : Setup → ℤ → ℤ → ℤ
normalize c least pressure =
    if ltb_ℤ least pressure
    then quotient ((pressure -ℤ least) *ℤ pos filter_pressure_res) (pos_part (pos c.max_z -ℤ least))
    else pos 0

abbrev pub tol : ℕ
tol = filter_pressure_res / 75

unfoldable pub tol_more : ℤ → ℕ
tol_more least = if same_int least (pos 0) then 0 else 2 * tol

-- `filtered.buttons &= ~1` and `filtered.buttons |= 1`.
abbrev pub clear_one : ℕ → ℕ
clear_one b = b - b % 2

abbrev pub set_one : ℕ → ℕ
set_one b = b - b % 2 + 1

-- Button 1 by the threshold: within the tolerance it stays.
unfoldable pub press : Setup → ℤ → ℤ → ℕ → ℕ
press c least pressure buttons =
    if ltb_ℤ pressure (c.threshold +ℤ pos (tol_more least))
    then clear_one buttons
    else if ltb_ℤ (c.threshold +ℤ pos (tol + tol_more least)) pressure
    then set_one buttons
    else buttons

-- `transPressureCurve`
unfoldable pub trans_pressure_curve : Setup → ℤ → ℤ
trans_pressure_curve c pressure = elim c.curve [
  | none ↦ pressure
  | some curve ↦ curve (
      if ltb_ℤ pressure (pos 0)
      then pos 0
      else if ltb_ℤ (pos filter_pressure_res) pressure
      then pos filter_pressure_res
      else pressure)
]

-- `minPressure` of the tool for a report.
unfoldable pub least_pressure : Setup → ℕ → ℤ → ℤ → ℤ
least_pressure c old_proximity least pressure =
    if c.no_recal then pos 0 else rebase_pressure old_proximity least pressure

-- The pressure and the buttons of a stylus or an eraser whose least pressure is `least`.
unfoldable pub transform : Setup → ℤ → DeviceState → DeviceState
transform c least ds =
    let p = normalize c least ds.pressure in
    record ds { buttons = press c least p ds.buttons; pressure = trans_pressure_curve c p }
