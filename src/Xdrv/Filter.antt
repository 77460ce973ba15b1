-- ===== src/Xdrv/Filter.antt =====
-- src/xdrv/wcmFilter.c: the averages over the last samples, `filterIntuosStylus`,
-- `xf86WcmFilterCoord` and `xf86WcmFilterIntuos`.
pub mod Bounds
pub mod Line
use linuxwacom.Prelude.{ℕ, ◌+◌, ◌/◌, ◌==◌, not, if◌then◌else◌, List, [], ◌∷◌}
use linuxwacom.Prelude.Int.{ℤ, pos, negsuc, sub_ℕ, ◌+ℤ◌, ltb_ℤ}
use linuxwacom.Xdrv.ToolIds.{cursor_id}

-- The samples of `WacomFilterState`: the first `wcmRawSample` entries of each of its arrays.
pub record FilterState : Type 0 where
  pub x : List ℤ
  pub y : List ℤ
  pub tiltx : List ℤ
  pub tilty : List ℤ

-- The fields of `WacomDeviceState` that the filters write, and the type that they read.
pub record Sample : Type 0 where
  pub device_type : ℕ
  pub x : ℤ
  pub y : ℤ
  pub tiltx : ℤ
  pub tilty : ℤ

-- `x += state->x[i]` over the samples.
unfoldable pub sum : List ℤ → ℤ
sum [] = pos 0
sum (x ∷ xs) = x +ℤ sum xs

-- C's division of an `int` by a positive one: towards 0.
unfoldable pub quotient : ℤ → ℕ → ℤ
quotient (pos a) n = pos (a / n)
quotient (negsuc a) n = sub_ℕ 0 ((a + 1) / n)

-- The average of `n` samples.
unfoldable pub average : List ℤ → ℕ → ℤ
average xs n = quotient (sum xs) n

-- A tilt within the range of the tablet, `max` being `wcmMaxtiltX` or `wcmMaxtiltY`.
unfoldable pub limit_tilt : ℕ → ℤ → ℤ
limit_tilt max tilt =
    if ltb_ℤ (sub_ℕ (max / 2) 1) tilt
    then sub_ℕ (max / 2) 1
    else if ltb_ℤ tilt (sub_ℕ 0 (max / 2))
    then sub_ℕ 0 (max / 2)
    else tilt

-- `xf86WcmFilterCoord`; it returns 0.
unfoldable pub filter_coord : ℕ → FilterState → Sample → Sample
filter_coord raw_sample state ds = record ds {
  x = average state.x raw_sample;
  y = average state.y raw_sample;
}

-- `filterIntuosStylus`
unfoldable pub filter_stylus : ℕ → ℕ → ℕ → FilterState → Sample → Sample
filter_stylus raw_sample max_x max_y state ds = record ds {
  x = average state.x raw_sample;
  y = average state.y raw_sample;
  tiltx = limit_tilt max_x (average state.tiltx raw_sample);
  tilty = limit_tilt max_y (average state.tilty raw_sample);
}

-- `xf86WcmFilterIntuos`; it returns 0.
unfoldable pub filter_intuos : ℕ → ℕ → ℕ → FilterState → Sample → Sample
filter_intuos raw_sample max_x max_y state ds =
    if not (ds.device_type == cursor_id)
    then filter_stylus raw_sample max_x max_y state ds
    else filter_coord raw_sample state ds
