-- ===== src/Xdrv/Select/Chosen.antt =====
-- What the choice of the tool and its area promises.
use linuxwacom.Prelude.{
  ◌≡◌, refl, Bool, true, false, not, ◌&&◌, ◌||◌, Option, none, some, List, [], ◌∷◌, arith,
}
use linuxwacom.Prelude.Int.{ℤ}
use linuxwacom.Xdrv.Select.{
  Place, Tool, is_empty, is_in, find_area, outprox, search_area, choose_area,
}

-- Whether one of the areas has the position.
abbrev pub any_in : ℤ → ℤ → List Place → Bool
any_in x y [] = false
any_in x y (p ∷ places) = is_in x y p || any_in x y places

abbrev pub has_position : ℤ → ℤ → Option Place → Bool
has_position x y none = false
has_position x y (some p) = is_in x y p

find_area-has_position :
    (x y : ℤ) (places : List Place) → has_position x y (find_area x y places) ≡ any_in x y places
unfolding find_area
find_area-has_position x y [] = refl
find_area-has_position x y (p ∷ places) = ground (arith, find_area-has_position x y places)

abbrev pub is_some {ℓ} : {A : Type ℓ} → Option A → Bool
is_some none = false
is_some (some a) = true

find_area-some :
    (x y : ℤ) (places : List Place) → is_some (find_area x y places) ≡ any_in x y places
unfolding find_area
find_area-some x y [] = refl
find_area-some x y (p ∷ places) = ground (arith, find_area-some x y places)

-- Of a tool with several areas, the area that is chosen has the position exactly if the area in use or
-- one of its areas has it; and a device gets a soft way out exactly if there is an area in use that
-- does not have the position, while one of the areas has it.
pub choose_area_lem :
    (x y : ℤ) (t : Tool)
    → is_empty t.others ≡ false
    → let (left, t') = choose_area x y t in
      (has_position x y t'.current
        ≡ (has_position x y t.current || any_in x y (t.first ∷ t.others)))
      × (is_some left ≡ (
          is_some t.current && not (has_position x y t.current) && any_in x y (t.first ∷ t.others)))
unfolding choose_area outprox search_area
choose_area_lem x y t several =
    let places = t.first ∷ t.others in
    ground (arith, several, find_area-has_position x y places, find_area-some x y places)
