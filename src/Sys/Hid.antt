-- ===== src/Sys/Hid.antt =====
-- The report descriptor of a device (src/2.6.30/wacom_sys.c): the loop of wacom_parse_hid, and
-- wacom_retrieve_hid_descriptor.
pub mod Within
pub mod Items
pub mod Sizes
use linuxwacom.Prelude.{
  ℕ, zero, suc, ◌+◌, ◌*◌, ◌==◌, Bool, true, false, ◌&&◌, ◌||◌, not, List, [], ◌∷◌, Option, none,
  some, if◌then◌else◌, ◌≡◌,
}
use linuxwacom.Input.{Key, key_index, tool_pen, tool_doubletap, tool_tripletap}
use linuxwacom.Wacom.{Kind, pkglen_bbfun, pkglen_bbtouch}
use linuxwacom.Sys.Probe.{same_kind}
use linuxwacom.Wacom

-- A read behind the buffer is `none`.
infixl 1 ◌>>=◌
abbrev pub ◌>>=◌ {ℓ κ} : {A : Type ℓ} {B : Type κ} → Option A → (A → Option B) → Option B
none >>= f = none
some a >>= f = f a

abbrev pub pkglen_graphire : ℕ
pkglen_graphire = 8

abbrev pub pkglen_tpc2fg : ℕ
pkglen_tpc2fg = 14

-- The fields of `struct wacom_features` that the parser writes.
pub record Layout : Type 0 where
  pub device_type : Key
  pub pktlen : ℕ
  pub x_max : ℕ
  pub y_max : ℕ
  pub x_phy : ℕ
  pub y_phy : ℕ
  pub pressure_max : ℕ
  pub unit : ℕ
  pub unit_expo : ℕ

-- `usage`
pub data Page : Type 0 where
  undefined desktop digitizer : Page

-- The variables of the loop.
pub record Reading : Type 0 where
  pub layout : Layout
  pub page : Page
  pub finger : Bool
  pub pen : Bool

-- A report as it is left at an item: what is read there, and by how much `i` has grown.
abbrev pub Taken : Type 0
Taken = Option (Reading × ℕ)

-- `report[i + d]`, of the bytes from `i` on.
unfoldable pub byte_at : List ℕ → ℕ → Option ℕ
byte_at [] d = none
byte_at (b ∷ bs) zero = some b
byte_at (b ∷ bs) (suc d) = byte_at bs d

-- `get_unaligned_le16(&report[i + d])`
unfoldable pub le16_at : List ℕ → ℕ → Option ℕ
le16_at bs d = do low ← byte_at bs d; high ← byte_at bs (d + 1); some (low + 256 * high)

abbrev pub with_layout : Reading → Layout → Reading
with_layout r l = record r { layout = l }

-- A touch device of the model, and a pen device.
unfoldable pub as_touch : Kind → Layout → Layout
as_touch k l =
    if same_kind k Wacom.Kind.tabletpc2fg
    then record l { device_type = tool_tripletap; pktlen = pkglen_tpc2fg }
    else if same_kind k Wacom.Kind.bamboo_pt
    then record l { device_type = tool_tripletap; pktlen = pkglen_bbtouch }
    else record l { device_type = tool_doubletap }

unfoldable pub as_pen : Kind → Layout → Layout
as_pen k l = record l {
  device_type = tool_pen;
  pktlen =
      if same_kind k Wacom.Kind.tabletpc2fg
      then pkglen_graphire
      else if same_kind k Wacom.Kind.bamboo_pt
      then pkglen_bbfun
      else l.pktlen;
}

-- `HID_USAGE_X`
unfoldable pub touch_x : Kind → List ℕ → Reading → Taken
touch_x k bs r =
    let l = as_touch k r.layout in
    if same_kind k Wacom.Kind.bamboo_pt
    then (do
      phy ← le16_at bs 5
      size ← le16_at bs 8
      some (with_layout r (record l { x_phy = phy; x_max = size }), 15))
    else do
      size ← le16_at bs 3
      phy ← le16_at bs 6
      unit_byte ← byte_at bs 9
      expo ← byte_at bs 11
      some (
        with_layout r (record l { x_max = size; x_phy = phy; unit = unit_byte; unit_expo = expo }),
        12,
      )

unfoldable pub pen_x : Kind → List ℕ → Reading → Taken
pen_x k bs r = do
  size ← le16_at bs 3
  some (with_layout r (record (as_pen k r.layout) { x_max = size }), 4)

unfoldable pub usage_x : Kind → List ℕ → Reading → Taken
usage_x k bs r = elim r.page [
  | undefined ↦ some (r, 0)
  | desktop ↦ if r.finger then touch_x k bs r else if r.pen then pen_x k bs r else some (r, 0)
  | digitizer ↦ some (with_layout r (record r.layout { pressure_max = 255 }), 4)
]

-- `HID_USAGE_Y`
unfoldable pub touch_y : Kind → List ℕ → Reading → Taken
touch_y k bs r =
    let l = as_touch k r.layout in
    if same_kind k Wacom.Kind.tabletpc2fg
    then (do
      size ← le16_at bs 3
      phy ← le16_at bs 6
      some (with_layout r (record l { y_max = size; y_phy = phy }), 7))
    else if same_kind k Wacom.Kind.bamboo_pt
    then (do
      phy ← le16_at bs 3
      size ← le16_at bs 6
      some (with_layout r (record l { y_phy = phy; y_max = size }), 12))
    else do phy ← le16_at bs 3; some (with_layout r (record l { y_max = l.x_max; y_phy = phy }), 4)

unfoldable pub pen_y : Kind → List ℕ → Reading → Taken
pen_y k bs r = do
  size ← le16_at bs 3
  some (with_layout r (record (as_pen k r.layout) { y_max = size }), 4)

unfoldable pub usage_y : Kind → List ℕ → Reading → Taken
usage_y k bs r = elim r.page [
  | undefined ↦ some (r, 0)
  | desktop ↦ if r.finger then touch_y k bs r else if r.pen then pen_y k bs r else some (r, 0)
  | digitizer ↦ some (r, 0)
]

-- `HID_USAGE_UNDEFINED`: the capacity of a touch device.
unfoldable pub usage_undefined : List ℕ → Reading → Taken
usage_undefined bs r = elim r.page [
  | undefined ↦ some (r, 4)
  | desktop ↦
      if r.finger
      then (do
        capacity ← le16_at bs 3
        some (with_layout r (record r.layout { pressure_max = capacity }), 4))
      else some (r, 4)
  | digitizer ↦ some (r, 4)
]

-- `HID_USAGE_PAGE`, with the byte behind it.
unfoldable pub usage_page : ℕ → Reading → Reading × ℕ
usage_page b r =
    if b == 0x0d
    then (record r { page = Page.digitizer }, 1)
    else if b == 0x01
    then (record r { page = Page.desktop }, 1)
    else (r, 0)

-- `HID_USAGE`, with the byte behind it.
unfoldable pub usage : Kind → List ℕ → ℕ → Reading → Taken
usage k bs b r =
    if b == 0x30
    then usage_x k bs r
    else if b == 0x31
    then usage_y k bs r
    else if b == 0x22
    then some (record r { finger = true }, 1)
    else if b == 0x20
    then some (record r { pen = true }, 1)
    else if b == 0x00
    then usage_undefined bs r
    else some (r, 0)

-- The body of the loop, at the bytes from `i` on, of which `b` is the first.
unfoldable pub item_of : Kind → List ℕ → Reading → ℕ → Taken
item_of k bs r b =
    if b == 0x05
    then (do next ← byte_at bs 1; some (usage_page next r))
    else if b == 0x09
    then (do next ← byte_at bs 1; usage k bs next r)
    else if b == 0xc0
    then some (record r { finger = false; page = Page.undefined }, 0)
    else some (r, 0)

-- The loop, from a byte on that is `skip` bytes in front of the next item.
unfoldable pub parse : Kind → List ℕ → ℕ → Reading → Option Reading
parse k [] skip r = some r
parse k (b ∷ bs) (suc skip) r = parse k bs skip r
parse k (b ∷ bs) zero r = do next ← item_of k (b ∷ bs) r b; parse k bs next.1 next.0

-- What the kernel answers to wacom_parse_hid: no buffer, no descriptor in six tries, or the buffer.
pub data Report : Type 0 where
  no_buffer no_answer : Report
  filled : List ℕ → Report

abbrev pub reading : Layout → Reading
reading l = record { layout = l; page = Page.undefined; finger = false; pen = false }

-- `wacom_parse_hid`, and whether it succeeds.
unfoldable pub parse_hid : Kind → Report → Layout → Option (Layout × Bool)
parse_hid k no_buffer l = some (l, false)
parse_hid k no_answer l = some (l, true)
parse_hid k (filled bs) l = do r ← parse k bs 0 (reading l); some (r.layout, true)

-- A touch device of no size gets the default.
unfoldable pub sized : Layout → Layout
sized l =
    if key_index l.device_type == key_index tool_doubletap && l.x_max == 0
    then record l { x_max = 1023; y_max = 1023 }
    else l

-- `wacom_retrieve_hid_descriptor`; `there` says whether one of the two extra descriptors is.
unfoldable pub retrieve : Kind → Bool → Report → Layout → Option (Layout × Bool)
retrieve k there report l =
    let l' : Layout = record l { device_type = tool_pen } in
    if not (
      same_kind k Wacom.Kind.tabletpc
      || same_kind k Wacom.Kind.tabletpc2fg
      || same_kind k Wacom.Kind.bamboo_pt)
    then some (l', true)
    else if not there
    then some (l', false)
    else do
      parsed ← parse_hid k report l'
      some (if parsed.1 then sized parsed.0 else parsed.0, parsed.1)
