-- ===== src/Xdrv/Areas/Overlap.antt =====
-- When two areas share a point, and when the corner test says that they overlap.
use linuxwacom.Prelude.{◌≡◌, ◌∙◌, refl, Bool, true, false, ◌&&◌, ◌||◌, not, arith, if◌then◌else◌}
use linuxwacom.Prelude.Int.{ℤ, leb_ℤ, ltb_ℤ}
use linuxwacom.Xdrv.Areas.{Area, point_in_area, has_corner, areas_overlap}

-- Whether two intervals meet, and whether the first is inside the second, away from its ends.
unfoldable pub meet : ℤ → ℤ → ℤ → ℤ → Bool
meet a0 a1 b0 b1 = leb_ℤ a0 b1 && leb_ℤ b0 a1

unfoldable pub inside : ℤ → ℤ → ℤ → ℤ → Bool
inside a0 a1 b0 b1 = ltb_ℤ b0 a0 && ltb_ℤ a1 b1

-- An area whose sides do not lie the wrong way round.
abbrev pub is_proper : Area → Bool
is_proper a = leb_ℤ a.top_x a.bottom_x && leb_ℤ a.top_y a.bottom_y

-- Whether two areas share a point: their intervals meet on both axes.
abbrev pub share_point : Area → Area → Bool
share_point a b =
    meet a.top_x a.bottom_x b.top_x b.bottom_x && meet a.top_y a.bottom_y b.top_y b.bottom_y

-- Whether `a` is inside `b` on the x axis and `b` inside `a` on the y axis: they lie like a cross.
abbrev pub cross : Area → Area → Bool
cross a b =
    inside a.top_x a.bottom_x b.top_x b.bottom_x && inside b.top_y b.bottom_y a.top_y a.bottom_y

-- An end of `b` is in `a` exactly if they meet and `a` is not inside `b`.
end_in :
    (a0 a1 b0 b1 : ℤ)
    → leb_ℤ a0 a1 ≡ true
    → leb_ℤ b0 b1 ≡ true
    → (leb_ℤ a0 b0 && leb_ℤ b0 a1 || leb_ℤ a0 b1 && leb_ℤ b1 a1)
      ≡ (meet a0 a1 b0 b1 && not (inside a0 a1 b0 b1))
unfolding meet inside
end_in a0 a1 b0 b1 ha hb = ground arith

meet_comm : (a0 a1 b0 b1 : ℤ) → meet b0 b1 a0 a1 ≡ meet a0 a1 b0 b1
unfolding meet
meet_comm a0 a1 b0 b1 = ground arith

-- Neither of two intervals is inside the other and holds it inside.
inside_once : (a0 a1 b0 b1 : ℤ) → (inside a0 a1 b0 b1 && inside b0 b1 a0 a1) ≡ false
unfolding inside
inside_once a0 a1 b0 b1 = ground arith

-- Four corners are two ends on each axis.
corners :
    (p p' q q' r r' s s' : Bool)
    → ((p && p' && r && r') || (p && p' && s && s') || (q && q' && r && r') || (q && q' && s && s'))
      ≡ ((p && p' || q && q') && (r && r' || s && s'))
corners p p' q q' r r' s s' = ground arith

has_corner_lem :
    (a b : Area)
    → is_proper a ≡ true
    → is_proper b ≡ true
    → has_corner a b ≡ (
        (meet a.top_x a.bottom_x b.top_x b.bottom_x
          && not (inside a.top_x a.bottom_x b.top_x b.bottom_x))
        && (meet a.top_y a.bottom_y b.top_y b.bottom_y
            && not (inside a.top_y a.bottom_y b.top_y b.bottom_y)))
unfolding has_corner point_in_area
has_corner_lem a b pa pb =
    corners (leb_ℤ a.top_x b.top_x) (leb_ℤ b.top_x a.bottom_x) (leb_ℤ a.top_x b.bottom_x)
      (leb_ℤ b.bottom_x a.bottom_x) (leb_ℤ a.top_y b.top_y) (leb_ℤ b.top_y a.bottom_y)
      (leb_ℤ a.top_y b.bottom_y) (leb_ℤ b.bottom_y a.bottom_y)
    ∙ rw
        (
          end_in a.top_x a.bottom_x b.top_x b.bottom_x (ground arith) (ground arith),
          end_in a.top_y a.bottom_y b.top_y b.bottom_y (ground arith) (ground arith),
        )
        refl

either_corner :
    (mx my ax bx ay by : Bool)
    → (ax && bx) ≡ false
    → (ay && by) ≡ false
    → ((mx && not ax) && (my && not ay) || (mx && not bx) && (my && not by))
      ≡ (mx && my && not (ax && by || bx && ay))
either_corner mx my ax bx ay by hx hy = ground arith

-- Of two areas whose sides lie the right way round the code says that they overlap exactly if they
-- share a point and do not lie across each other like the bars of a cross.
pub areas_overlap_lem :
    (a b : Area)
    → is_proper a ≡ true
    → is_proper b ≡ true
    → areas_overlap a b ≡ (share_point a b && not (cross a b || cross b a))
unfolding areas_overlap
areas_overlap_lem a b pa pb = ground (
  arith,
  has_corner_lem a b pa pb,
  has_corner_lem b a pb pa,
  meet_comm a.top_x a.bottom_x b.top_x b.bottom_x,
  meet_comm a.top_y a.bottom_y b.top_y b.bottom_y,
  inside_once a.top_x a.bottom_x b.top_x b.bottom_x,
  inside_once a.top_y a.bottom_y b.top_y b.bottom_y,
)

unfoldable pub larger : ℤ → ℤ → ℤ
larger a b = if leb_ℤ a b then b else a

-- The two axes of `point_in_area`, taken apart and put together.
on_axes :
    (a : Area) (x y : ℤ)
    → point_in_area a x y ≡ true
    → ((leb_ℤ a.top_x x && leb_ℤ x a.bottom_x) ≡ true)
      × ((leb_ℤ a.top_y y && leb_ℤ y a.bottom_y) ≡ true)
unfolding point_in_area
on_axes a x y h =
    apart (leb_ℤ a.top_x x) (leb_ℤ x a.bottom_x) (leb_ℤ a.top_y y) (leb_ℤ y a.bottom_y) h
  where
    apart : (p q r s : Bool) → (p && q && r && s) ≡ true → ((p && q) ≡ true) × ((r && s) ≡ true)
    apart p q r s h = ground (arith, h)

both_axes :
    (a : Area) (x y : ℤ)
    → (leb_ℤ a.top_x x && leb_ℤ x a.bottom_x) ≡ true
    → (leb_ℤ a.top_y y && leb_ℤ y a.bottom_y) ≡ true
    → point_in_area a x y ≡ true
unfolding point_in_area
both_axes a x y h k =
    all_four (leb_ℤ a.top_x x) (leb_ℤ x a.bottom_x) (leb_ℤ a.top_y y) (leb_ℤ y a.bottom_y) h k
  where
    all_four : (p q r s : Bool) → (p && q) ≡ true → (r && s) ≡ true → (p && q && r && s) ≡ true
    all_four p q r s h k = ground (arith, h, k)

meet_in :
    (a0 a1 b0 b1 x : ℤ)
    → (leb_ℤ a0 x && leb_ℤ x a1) ≡ true
    → (leb_ℤ b0 x && leb_ℤ x b1) ≡ true
    → meet a0 a1 b0 b1 ≡ true
unfolding meet
meet_in a0 a1 b0 b1 x ha hb = ground arith

larger_in :
    (a0 a1 b0 b1 : ℤ)
    → leb_ℤ a0 a1 ≡ true
    → leb_ℤ b0 b1 ≡ true
    → meet a0 a1 b0 b1 ≡ true
    → ((leb_ℤ a0 (larger a0 b0) && leb_ℤ (larger a0 b0) a1) ≡ true)
      × ((leb_ℤ b0 (larger a0 b0) && leb_ℤ (larger a0 b0) b1) ≡ true)
unfolding meet larger
larger_in a0 a1 b0 b1 ha hb h = ground arith

-- Two areas share a point in the sense of `share_point` if a point is in both,
pub share_point-point :
    (a b : Area) (x y : ℤ)
    → point_in_area a x y ≡ true
    → point_in_area b x y ≡ true
    → share_point a b ≡ true
unfolding point_in_area
share_point-point a b x y ha hb =
    let at_a = on_axes a x y ha in
    let at_b = on_axes b x y hb in
    let on_x : meet a.top_x a.bottom_x b.top_x b.bottom_x ≡ true =
      meet_in a.top_x a.bottom_x b.top_x b.bottom_x x at_a.0 at_b.0 in
    let on_y : meet a.top_y a.bottom_y b.top_y b.bottom_y ≡ true =
      meet_in a.top_y a.bottom_y b.top_y b.bottom_y y at_a.1 at_b.1 in
    rw (on_x, on_y) refl

-- and then the corner of the two greater tops is in both.
pub point-share_point :
    (a b : Area)
    → is_proper a ≡ true
    → is_proper b ≡ true
    → share_point a b ≡ true
    → let x = larger a.top_x b.top_x in
      let y = larger a.top_y b.top_y in (point_in_area a x y ≡ true) × (point_in_area b x y ≡ true)
unfolding point_in_area
point-share_point a b pa pb h =
    let pick : (p q : Bool) → (p && q) ≡ true → (p ≡ true) × (q ≡ true) =
      λ p q k. ground (arith, k) in
    let pa' = pick _ _ pa in
    let pb' = pick _ _ pb in
    let h' = pick _ _ h in
    let on_x = larger_in a.top_x a.bottom_x b.top_x b.bottom_x pa'.0 pb'.0 h'.0 in
    let on_y = larger_in a.top_y a.bottom_y b.top_y b.bottom_y pa'.1 pb'.1 h'.1 in
    (both_axes a _ _ on_x.0 on_y.0, both_axes b _ _ on_x.1 on_y.1)
