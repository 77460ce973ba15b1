-- ===== src/Xdrv/Turns/Points.antt =====
-- The rotation of the rectangles fits the rotation of the coordinates.
use linuxwacom.Prelude.{◌≡◌, refl, arith}
use linuxwacom.Prelude.Int.{ℤ, ◌-ℤ◌, leb_ℤ}
use linuxwacom.Xdrv.Events.{Rotate, none, cw, ccw, half, rotate}
use linuxwacom.Xdrv.Areas.{point_in_area}
use linuxwacom.Xdrv.Turns.{Extent, area_of, turned}

leb-sub : (m a b : ℤ) → leb_ℤ (m -ℤ a) (m -ℤ b) ≡ leb_ℤ b a
unfolding ◌-ℤ◌
leb-sub m a b = ground arith

-- A point is in the rectangle of a tool exactly if the point that `xf86WcmRotateCoordinates` makes of it
-- with the rotated limits is in the rotated rectangle.
pub point_in_area-rotate :
    (r : Rotate) (e : Extent) (x y : ℤ)
    → let e' = turned r e in
      let (x', y') = rotate r e'.max_x e'.max_y (x, y) in
      point_in_area (area_of e') x' y' ≡ point_in_area (area_of e) x y
unfolding turned rotate point_in_area
point_in_area-rotate none e x y = refl
point_in_area-rotate cw e x y =
    rw (leb-sub e.max_x e.bottom_x x, leb-sub e.max_x x e.top_x) (ground arith)
point_in_area-rotate ccw e x y =
    rw (leb-sub e.max_y e.bottom_y y, leb-sub e.max_y y e.top_y) (ground arith)
point_in_area-rotate half e x y =
    rw
      (
        leb-sub e.max_x e.bottom_x x,
        leb-sub e.max_x x e.top_x,
        leb-sub e.max_y e.bottom_y y,
        leb-sub e.max_y y e.top_y,
      )
      (ground arith)
