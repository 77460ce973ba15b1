-- ===== src/Xdrv/Select.antt =====
-- The choice of the tool and of its area for a report, in `commonDispatchDevice` (src/xdrv/wcmCommon.c).
pub mod Chosen
use linuxwacom.Prelude.{
  ℕ, suc, ◌+◌, ◌==◌, Bool, true, false, not, ◌&&◌, ◌||◌, Option, none, some, List, [], ◌∷◌,
  if◌then◌else◌,
}
use linuxwacom.Prelude.Int.{ℤ}
use linuxwacom.Xdrv.Areas.{Area, point_in_area}

-- An area with its device, by its number.
pub record Place : Type 0 where
  pub area : Area
  pub device : ℕ

-- `struct _WacomTool`; a tool has at least one area. The pointer to the area in use is only read.
pub record Tool : Type 0 where
  pub typeid : ℕ
  pub serial : ℕ
  pub current : Option Place
  pub first : Place
  pub others : List Place

abbrev pub is_empty : List Place → Bool
is_empty [] = true
is_empty (p ∷ ps) = false

abbrev pub is_in : ℤ → ℤ → Place → Bool
is_in x y p = point_in_area p.area x y

-- The loop over the tools, from the one with the number `i` on: the number of the tool of the type and
-- the serial number, and else of the last one of the type without a serial number.
unfoldable pub find_tool : ℕ → Option ℕ → List Tool → ℕ → ℕ → Option ℕ
find_tool i tooldef [] type serial = tooldef
find_tool i tooldef (t ∷ tools) type serial =
    let rest =
      find_tool (i + 1) (if t.typeid == type && t.serial == 0 then some i else tooldef) tools type
        serial in
    if t.typeid == type && t.serial == serial then some i else rest

-- The loop over the areas.
unfoldable pub find_area : ℤ → ℤ → List Place → Option Place
find_area x y [] = none
find_area x y (p ∷ places) = let rest = find_area x y places in if is_in x y p then some p else rest

-- The area in use that the tool has left, if it has others.
unfoldable pub outprox : ℤ → ℤ → Tool → Option Place
outprox x y t = elim t.current [
  | none ↦ none
  | some p ↦ if not (is_empty t.others) && not (is_in x y p) then some p else none
]

-- The area in use, the only one, or the first one that has the position.
unfoldable pub search_area : ℤ → ℤ → Option Place → Tool → Option Place
search_area x y (some p) t = some p
search_area x y none t =
    if is_empty t.others then some t.first else find_area x y (t.first ∷ t.others)

-- The area of the tool for a position, and the device that gets a soft way out of proximity.
unfoldable pub choose_area : ℤ → ℤ → Tool → Option ℕ × Tool
choose_area x y t = elim (outprox x y t) [
  | none ↦ (none, record t { current = search_area x y t.current t })
  | some left ↦ elim (search_area x y none t) [
    | none ↦ (none, record t { current = some left })
    | some p ↦ (some left.device, record t { current = some p })
  ]
]
