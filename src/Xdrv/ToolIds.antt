-- ===== src/Xdrv/ToolIds.antt =====
-- How the X driver classes a tool by its identifier: `idtotype` and the choice of the device type in
-- `commonDispatchDevice` (src/xdrv/wcmCommon.c), next to the kernel's classes of the same identifiers.
use linuxwacom.Prelude.{
  ℕ, Bool, true, false, ◌==◌, not, ◌&&◌, ◌||◌, if◌then◌else◌, nonzero, has, ◌≡◌, ◌≢◌, ◌++◌, List,
  [], ◌∷◌, refl, arith, All,
}
use linuxwacom.Input.{Key, tool_rubber, tool_mouse, tool_lens}
use linuxwacom.Wacom.{
  stylus_device_id, touch_device_id, cursor_device_id, eraser_device_id, pad_device_id,
}
use linuxwacom.Intuos.Tools.{
  one_of, pencil_ids, pen_ids, brush_ids, mouse_ids, lens_ids, rubber_ids, airbrush_ids, tool_of_id,
}

-- The device types.
abbrev pub stylus_id : ℕ
stylus_id = 1

abbrev pub touch_id : ℕ
touch_id = 2

abbrev pub cursor_id : ℕ
cursor_id = 4

abbrev pub eraser_id : ℕ
eraser_id = 8

abbrev pub pad_id : ℕ
pad_id = 16

abbrev eraser_bit : ℕ
eraser_bit = 0x008

abbrev puck_bits : ℕ
puck_bits = 0xf00

abbrev puck_exception : ℕ
puck_exception = 0x806

unfoldable pub idtotype : ℕ → ℕ
idtotype id =
    if has id eraser_bit
    then eraser_id
    else if not (has id puck_bits) || id == puck_exception
    then cursor_id
    else stylus_id

-- The `switch` over the identifier.
unfoldable pub type_by_id : ℕ → ℕ
type_by_id id =
    if id == stylus_device_id
    then stylus_id
    else if id == eraser_device_id
    then eraser_id
    else if id == cursor_device_id
    then cursor_id
    else if id == touch_device_id
    then touch_id
    else if id == pad_device_id
    then pad_id
    else idtotype id

-- The loop over the configured tools, as pairs of a serial number and a type: the first tool with the
-- serial number gives its type.
unfoldable pub type_by_serial : List (ℕ × ℕ) → ℕ → ℕ → ℕ
type_by_serial [] serial type = type
type_by_serial ((s, typeid) ∷ tools) serial type =
    let rest = type_by_serial tools serial type in if serial == s then typeid else rest

-- The device type that `commonDispatchDevice` goes on with, of the one that the report had.
unfoldable pub settle_type : List (ℕ × ℕ) → ℕ → ℕ → ℕ → ℕ → ℕ
settle_type tools type proximity id serial =
    if type == 0 && nonzero proximity
    then (if nonzero serial then type_by_serial tools serial (type_by_id id) else type_by_id id)
    else type

-- The type that a tool key of the kernel stands for.
abbrev pub type_of_tool : Key → ℕ
type_of_tool tool_mouse = cursor_id
type_of_tool tool_lens = cursor_id
type_of_tool tool_rubber = eraser_id
type_of_tool _ = stylus_id

-- The identifiers that the kernel driver names.
abbrev pub known_ids : List ℕ
known_ids =
    pencil_ids ++ pen_ids ++ brush_ids ++ mouse_ids ++ lens_ids ++ rubber_ids ++ airbrush_ids

-- Three pens whose third digit is zero, and a mouse whose fourth bit is set.
abbrev pub misfits : List ℕ
misfits = 0x012 ∷ 0x022 ∷ 0x032 ∷ 0x09c ∷ []

every : (ℕ → Bool) → List ℕ → Bool
every f [] = true
every f (n ∷ ns) = f n && every f ns

every-one_of :
    (f : ℕ → Bool) (n : ℕ) (ns : List ℕ) → every f ns ≡ true → one_of n ns ≡ true → f n ≡ true
unfolding one_of every
every-one_of f n [] h m = absurd (ground (arith, m))
every-one_of f n (k ∷ ks) h m = ground (arith, every-one_of f n ks, h, m)

-- The X driver's class of an identifier is the kernel's, or the identifier is a misfit, but not both.
settles : ℕ → Bool
unfolding type_by_id idtotype one_of tool_of_id
settles n =
    if one_of n misfits
    then not (type_by_id n == type_of_tool (tool_of_id n))
    else type_by_id n == type_of_tool (tool_of_id n)

all_settle : every settles known_ids ≡ true
unfolding every settles one_of type_by_id idtotype tool_of_id
all_settle = refl

other_serials :
    (tools : List (ℕ × ℕ)) (serial type : ℕ)
    → All (λ t. t.0 ≢ serial) tools
    → type_by_serial tools serial type ≡ type
unfolding type_by_serial
other_serials [] serial type h = refl
other_serials ((s, typeid) ∷ tools) serial type h =
    ground (arith, other_serials tools serial type h.1, h.0)

unnamed-settle_type :
    (tools : List (ℕ × ℕ)) (proximity id serial : ℕ)
    → nonzero proximity ≡ true
    → All (λ t. t.0 ≢ serial) tools
    → settle_type tools 0 proximity id serial ≡ type_by_id id
unfolding settle_type
unnamed-settle_type tools proximity id serial near new =
    ground (arith, other_serials tools serial (type_by_id id) new)

-- What `settles` says, as an equation: `m` is whether it is a misfit, `e` whether the classes agree.
either : (m e : Bool) → (if m then not e else e) ≡ true → e ≡ not m
either true true h = ground (arith, h)
either true false h = refl
either false e h = h

-- A tool in proximity that the kernel driver names, of no type yet and whose serial number is not
-- configured, gets the type that its tool key of the kernel stands for, exactly if its identifier is
-- none of 0x012, 0x022, 0x032 and 0x09c.
pub settle_type-known :
    (tools : List (ℕ × ℕ)) (proximity id serial : ℕ)
    → nonzero proximity ≡ true
    → one_of id known_ids ≡ true
    → All (λ t. t.0 ≢ serial) tools
    → (settle_type tools 0 proximity id serial == type_of_tool (tool_of_id id))
      ≡ not (one_of id misfits)
unfolding settles
settle_type-known tools proximity id serial near known new =
    rw (unnamed-settle_type tools proximity id serial near new) (
      either (one_of id misfits) (type_by_id id == type_of_tool (tool_of_id id))
        (every-one_of settles id known_ids all_settle known))
