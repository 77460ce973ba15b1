-- ===== src/Xdrv/Areas.antt =====
-- The areas of tools: `xf86WcmPointInArea`, `xf86WcmAreasOverlap` and `xf86WcmAreaListOverlap`
-- (src/xdrv/wcmConfig.c).
pub mod Overlap
use linuxwacom.Prelude.{Bool, false, ◌&&◌, ◌||◌, List, [], ◌∷◌, if◌then◌else◌}
use linuxwacom.Prelude.Int.{ℤ, leb_ℤ}

-- `struct _WacomToolArea`
pub record Area : Type 0 where
  pub top_x : ℤ
  pub top_y : ℤ
  pub bottom_x : ℤ
  pub bottom_y : ℤ

unfoldable pub point_in_area : Area → ℤ → ℤ → Bool
point_in_area area x y =
    leb_ℤ area.top_x x && leb_ℤ x area.bottom_x && leb_ℤ area.top_y y && leb_ℤ y area.bottom_y

-- Whether a corner of the second area is in the first.
unfoldable pub has_corner : Area → Area → Bool
has_corner area1 area2 =
    point_in_area area1 area2.top_x area2.top_y
    || point_in_area area1 area2.top_x area2.bottom_y
    || point_in_area area1 area2.bottom_x area2.top_y
    || point_in_area area1 area2.bottom_x area2.bottom_y

unfoldable pub areas_overlap : Area → Area → Bool
areas_overlap area1 area2 = has_corner area1 area2 || has_corner area2 area1

-- The areas of the list are those at other addresses than `area`.
unfoldable pub area_list_overlap : Area → List Area → Bool
area_list_overlap area [] = false
area_list_overlap area (a ∷ rest) = areas_overlap a area || area_list_overlap area rest
