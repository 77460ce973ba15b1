-- ===== src/Examples/Areas.antt =====
-- The areas and the rotation of tools at concrete inputs.
use linuxwacom.Prelude.{ℕ, ◌≡◌, refl, arith, [], ◌∷◌, not, ◌&&◌, ◌||◌}
use linuxwacom.Prelude.Int.{pos}
use linuxwacom.Xdrv.Events.{none, cw, ccw, half, rotate}
use linuxwacom.Xdrv.Areas.{Area, areas_overlap, point_in_area}
use linuxwacom.Xdrv.Areas.Overlap.{share_point, cross, areas_overlap_lem}
use linuxwacom.Xdrv.Turns.{Extent, Tablet, area_of, turned}
use linuxwacom.Xdrv.Turns.Sequence.{Turned, set_rotations, set_rotations-Turned}
use linuxwacom.Xdrv.Turns.Points.{point_in_area-rotate}

abbrev area : ℕ → ℕ → ℕ → ℕ → Area
area a b c d = record { top_x = pos a; top_y = pos b; bottom_x = pos c; bottom_y = pos d }

-- A broad area and a tall one that lie across each other.
areas_overlap_lem_example : areas_overlap (area 0 40 100 60) (area 40 0 60 100) ≡ (
    share_point (area 0 40 100 60) (area 40 0 60 100)
    && not (
        cross (area 0 40 100 60) (area 40 0 60 100) || cross (area 40 0 60 100) (area 0 40 100 60)))
areas_overlap_lem_example = areas_overlap_lem (area 0 40 100 60) (area 40 0 60 100) refl refl

-- The lower half of a tablet.
abbrev lower : Extent
lower = record {
  max_x = pos 200;
  max_y = pos 100;
  top_x = pos 0;
  top_y = pos 50;
  bottom_x = pos 200;
  bottom_y = pos 100;
}

abbrev tablet : Tablet
tablet = record { rotation = none; tools = (lower, area_of lower) ∷ [] }

set_rotations-Turned_example :
    Turned
      (set_rotations (cw ∷ half ∷ ccw ∷ []) tablet).rotation
      (lower ∷ [])
      (set_rotations (cw ∷ half ∷ ccw ∷ []) tablet).tools
unfolding turned
set_rotations-Turned_example =
    set_rotations-Turned (cw ∷ half ∷ ccw ∷ []) (lower ∷ []) tablet (refl, λ n. refl, ground arith)

point_in_area-rotate_example :
    let (x', y') = rotate ccw (turned ccw lower).max_x (turned ccw lower).max_y (pos 10, pos 70) in
    point_in_area (area_of (turned ccw lower)) x' y'
    ≡ point_in_area (area_of lower) (pos 10) (pos 70)
point_in_area-rotate_example = point_in_area-rotate ccw lower (pos 10) (pos 70)
