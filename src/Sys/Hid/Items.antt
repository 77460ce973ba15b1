-- ===== src/Sys/Hid/Items.antt =====
-- The short items of a HID report descriptor, and what they say of the axes of a touch panel, after the Device
-- Class Definition for Human Interface Devices, section 6.2.2: the tags of the items, and the global items, which hold
-- until they are stated again.
use linuxwacom.Prelude.{ℕ, ◌/◌, ◌%◌, ◌==◌, List, [], ◌∷◌, if◌then◌else◌}
use linuxwacom.Sys.Hid.{Layout}

pub data Item : Type 0 where
  usage_page usage logical_min logical_max physical_max unit_exponent unit report_size report_count
        input :
      ℕ → Item
  end_collection : Item

-- The bytes: the prefix with tag, type and size, then the data, of two bytes for the maxima, the low one first.
abbrev pub encode : List Item → List ℕ
encode [] = []
encode (Item.usage_page n ∷ is) = 0x05 ∷ n ∷ encode is
encode (Item.usage n ∷ is) = 0x09 ∷ n ∷ encode is
encode (Item.logical_min n ∷ is) = 0x15 ∷ n ∷ encode is
encode (Item.logical_max n ∷ is) = 0x26 ∷ n % 256 ∷ n / 256 ∷ encode is
encode (Item.physical_max n ∷ is) = 0x46 ∷ n % 256 ∷ n / 256 ∷ encode is
encode (Item.unit_exponent n ∷ is) = 0x55 ∷ n ∷ encode is
encode (Item.unit n ∷ is) = 0x65 ∷ n ∷ encode is
encode (Item.report_size n ∷ is) = 0x75 ∷ n ∷ encode is
encode (Item.report_count n ∷ is) = 0x95 ∷ n ∷ encode is
encode (Item.input n ∷ is) = 0x81 ∷ n ∷ encode is
encode (Item.end_collection ∷ is) = 0xc0 ∷ encode is

-- The usage and the global items in force.
pub record Globals : Type 0 where
  pub axis : ℕ
  pub logical : ℕ
  pub physical : ℕ
  pub expo : ℕ
  pub unit_code : ℕ

-- An input of the axis X or Y has the sizes in force.
abbrev pub measured : Globals → Layout → Layout
measured g l =
    if g.axis == 0x30
    then record l { x_max = g.logical; x_phy = g.physical; unit = g.unit_code; unit_expo = g.expo }
    else if g.axis == 0x31
    then record l { y_max = g.logical; y_phy = g.physical }
    else l

abbrev pub meaning : List Item → Globals → Layout → Layout
meaning [] g l = l
meaning (Item.usage_page n ∷ is) g l = meaning is g l
meaning (Item.usage n ∷ is) g l = meaning is (record g { axis = n }) l
meaning (Item.logical_min n ∷ is) g l = meaning is g l
meaning (Item.logical_max n ∷ is) g l = meaning is (record g { logical = n }) l
meaning (Item.physical_max n ∷ is) g l = meaning is (record g { physical = n }) l
meaning (Item.unit_exponent n ∷ is) g l = meaning is (record g { expo = n }) l
meaning (Item.unit n ∷ is) g l = meaning is (record g { unit_code = n }) l
meaning (Item.report_size n ∷ is) g l = meaning is g l
meaning (Item.report_count n ∷ is) g l = meaning is g l
meaning (Item.input n ∷ is) g l = meaning is g (measured g l)
meaning (Item.end_collection ∷ is) g l = meaning is g l
