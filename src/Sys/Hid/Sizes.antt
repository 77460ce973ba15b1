-- ===== src/Sys/Hid/Sizes.antt =====
-- The sizes that the descriptor of a touch panel states, and those that `wacom_parse_hid` finds.
use linuxwacom.Prelude.{List, [], ◌∷◌, ◌++◌}
use linuxwacom.Wacom.{Kind}
use linuxwacom.Sys.Hid.{Layout, usage_page, usage}
use linuxwacom.Sys.Hid.Items.{Item, Globals}
use linuxwacom.Wacom

-- The models that wacom_parse_hid has a case of its own for.
pub data Panel : Type 0 where
  one_finger two_finger bamboo : Panel

abbrev pub model : Panel → Kind
model Panel.one_finger = Wacom.Kind.tabletpc
model Panel.two_finger = Wacom.Kind.tabletpc2fg
model Panel.bamboo = Wacom.Kind.bamboo_pt

-- The report of an axis, of 16 bits.
abbrev field : List Item
field = Item.report_size 16 ∷ Item.report_count 1 ∷ Item.input 2 ∷ []

-- The items of both axes, in the order in which the panels of each model state them; the panel for one finger
-- states the logical maximum of the axis X only, which holds on for the axis Y.
abbrev pub axes : Panel → Layout → List Item
axes Panel.one_finger l =
    Item.usage 0x30
      ∷ Item.logical_max l.x_max
      ∷ Item.physical_max l.x_phy
      ∷ Item.unit l.unit
      ∷ Item.unit_exponent l.unit_expo
      ∷ field
    ++ Item.usage 0x31 ∷ Item.physical_max l.y_phy ∷ field
axes Panel.two_finger l =
    Item.usage 0x30
      ∷ Item.logical_max l.x_max
      ∷ Item.physical_max l.x_phy
      ∷ Item.unit l.unit
      ∷ Item.unit_exponent l.unit_expo
      ∷ field
    ++ Item.usage 0x31 ∷ Item.logical_max l.y_max ∷ Item.physical_max l.y_phy ∷ field
axes Panel.bamboo l =
    Item.usage 0x30
      ∷ Item.logical_min 0
      ∷ Item.physical_max l.x_phy
      ∷ Item.logical_max l.x_max
      ∷ field
    ++ Item.usage 0x31 ∷ Item.physical_max l.y_phy ∷ Item.logical_max l.y_max ∷ field

-- The axes of a finger of a digitizer.
abbrev pub touch_items : Panel → Layout → List Item
touch_items p l =
    Item.usage_page 0x0d ∷ Item.usage 0x22 ∷ Item.usage_page 0x01 ∷ axes p l
    ++ Item.end_collection ∷ []

abbrev pub globals : Layout → Globals
globals l = record { axis = 0; logical = 0; physical = 0; expo = l.unit_expo; unit_code = l.unit }
