-- ===== src/Xdrv/Turns/Sequence.antt =====
-- Rotations one after the other do not add up.
use linuxwacom.Prelude.{◌≡◌, refl, ap, false, List, [], ◌∷◌, arith, Bool-cases, inl, inr}
use linuxwacom.Xdrv.Events.{Rotate, none, cw, ccw, half, sub_sub}
use linuxwacom.Xdrv.Areas.{Area}
use linuxwacom.Xdrv.Turns.{
  Extent, Tool, area_of, turned, is_none, rotate_one_tool, recover, rotate_tools, Tablet,
  same_rotate, set_rotation,
}

pub recover-turned : (r : Rotate) (e : Extent) → recover r (turned r e) ≡ e
unfolding recover turned
recover-turned none e = refl
recover-turned cw e = rw (sub_sub e.max_x e.top_x, sub_sub e.max_x e.bottom_x) refl
recover-turned ccw e = rw (sub_sub e.max_y e.top_y, sub_sub e.max_y e.bottom_y) refl
recover-turned half e =
    rw
      (
        sub_sub e.max_x e.top_x,
        sub_sub e.max_x e.bottom_x,
        sub_sub e.max_y e.top_y,
        sub_sub e.max_y e.bottom_y,
      )
      refl

-- Tools as the rotation `r` makes them of the extents that they have without rotation. The area is
-- that of the rotated rectangle, except that it may be anything without rotation.
abbrev pub Turned : Rotate → List Extent → List Tool → Type 0
Turned r [] [] = Unit
Turned r [] (t ∷ ts) = ⊥
Turned r (e ∷ es) [] = ⊥
Turned r (e ∷ es) ((e', area) ∷ ts) =
    (e' ≡ turned r e) × (is_none r ≡ false → area ≡ area_of (turned r e)) × Turned r es ts

rotate_tools-Turned :
    (old new : Rotate) (es : List Extent) (ts : List Tool)
    → Turned old es ts
    → Turned new es (rotate_tools old new ts)
unfolding rotate_tools rotate_one_tool
rotate_tools-Turned old new [] [] h = h
rotate_tools-Turned old new [] (t ∷ ts) h = elim h [ ]
rotate_tools-Turned old new (e ∷ es) [] h = elim h [ ]
rotate_tools-Turned old new (e ∷ es) ((e', area) ∷ ts) h =
    let back : recover old e' ≡ e = rw h.0 (recover-turned old e) in
    (ap (turned new) back, λ n. rw (n, back) refl, rotate_tools-Turned old new es ts h.2)

unfoldable pub set_rotations : List Rotate → Tablet → Tablet
set_rotations [] t = t
set_rotations (r ∷ rs) t = set_rotations rs (set_rotation r t)

set_rotation-Turned :
    (r : Rotate) (es : List Extent) (t : Tablet)
    → Turned t.rotation es t.tools
    → Turned (set_rotation r t).rotation es (set_rotation r t).tools
unfolding set_rotation
set_rotation-Turned r es t h = elim (Bool-cases (same_rotate t.rotation r)) [
  | inl e ↦ rw e h
  | inr e ↦ rw e (rotate_tools-Turned t.rotation r es t.tools h)
]

-- However often the rotation of the tablet is set, and to whatever values, each tool has the limits and
-- the rectangle that the present rotation gives to its rectangle without rotation, and unless that is
-- no rotation the tool's area is that rectangle.
pub set_rotations-Turned :
    (rs : List Rotate) (es : List Extent) (t : Tablet)
    → Turned t.rotation es t.tools
    → Turned (set_rotations rs t).rotation es (set_rotations rs t).tools
unfolding set_rotations
set_rotations-Turned [] es t h = h
set_rotations-Turned (r ∷ rs) es t h =
    set_rotations-Turned rs es (set_rotation r t) (set_rotation-Turned r es t h)

-- A tool that is rotated from no rotation to some rotation and back keeps the area of the rotated
-- rectangle, although its rectangle is that without rotation again.
pub set_rotation-stale :
    (r : Rotate) (e : Extent) (area : Area)
    → is_none r ≡ false
    → (set_rotation none
        (set_rotation r (record { rotation = none; tools = (e, area) ∷ [] }))).tools
      ≡ (e, area_of (turned r e)) ∷ []
unfolding set_rotation rotate_tools rotate_one_tool turned recover
set_rotation-stale none e area h = ground (arith, h)
set_rotation-stale cw e area h = rw (recover-turned cw e) refl
set_rotation-stale ccw e area h = rw (recover-turned ccw e) refl
set_rotation-stale half e area h = rw (recover-turned half e) refl
