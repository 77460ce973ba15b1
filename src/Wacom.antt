-- ===== src/Wacom.antt =====
-- src/2.6.30/wacom_wac.h: the model types, the device's state (`struct wacom_wac`) and the constants
-- that the packet handlers of src/2.6.30/wacom_wac.c share.
use linuxwacom.Prelude.{ℕ, ◌+◌, ◌*◌, Bool, List, ◌∷◌, ◌==◌, leb, update, ◌&&◌, if◌then◌else◌}
use linuxwacom.Prelude.Int.{ℤ, pos, pos_part, neg_part}
use linuxwacom.Input.{Key, Axis, Event, key, abs, rel_wheel, msc_serial, sync, abs_misc}

-- The enumeration of the model types, in its order.
pub data Kind : Type 0 where
  penpartner graphire wacom_g4 ptu pl dtu dtus bamboo_pt : Kind
  intuos intuos3s intuos3 intuos3l intuos4s intuos4 intuos4l : Kind
  intuos5s intuos5 intuos5l intuosps intuospm intuospl : Kind
  wacom_21ux2 wacom_22hd dtk wacom_24hd cintiq wacom_bee wacom_13hd wacom_mo : Kind
  tabletpc tabletpc2fg : Kind

-- The value of a model type, for the comparisons of the code.
abbrev pub rank : Kind → ℕ
rank penpartner = 0
rank graphire = 1
rank wacom_g4 = 2
rank ptu = 3
rank pl = 4
rank dtu = 5
rank dtus = 6
rank bamboo_pt = 7
rank intuos = 8
rank intuos3s = 9
rank intuos3 = 10
rank intuos3l = 11
rank intuos4s = 12
rank intuos4 = 13
rank intuos4l = 14
rank intuos5s = 15
rank intuos5 = 16
rank intuos5l = 17
rank intuosps = 18
rank intuospm = 19
rank intuospl = 20
rank wacom_21ux2 = 21
rank wacom_22hd = 22
rank dtk = 23
rank wacom_24hd = 24
rank cintiq = 25
rank wacom_bee = 26
rank wacom_13hd = 27
rank wacom_mo = 28
rank tabletpc = 29
rank tabletpc2fg = 30

-- `type == b`, `type >= b` and `type <= b`
abbrev pub is_type : Kind → Kind → Bool
is_type a b = rank a == rank b

abbrev pub at_least : Kind → Kind → Bool
at_least a b = leb (rank b) (rank a)

abbrev pub at_most : Kind → Kind → Bool
at_most a b = leb (rank a) (rank b)

-- The fields of `struct wacom_features` that the handlers and the set-up read; `kind` is `type`.
pub record Features : Type 0 where
  pub kind : Kind
  pub x_max : ℕ
  pub y_max : ℕ
  pub pressure_max : ℕ
  pub distance_max : ℕ
  pub x_min : ℕ
  pub y_min : ℕ
  pub device_type : Key
  pub x_phy : ℕ
  pub y_phy : ℕ

-- `struct wacom_wac`, with what `shared` points at. `posted` is the history of the input events that
-- the driver has posted, the newest first. Arrays are functions of the index; the code's indices are
-- 0, 1 and 2.
pub record Wac : Type 0 where
  pub tool : ℕ → Key
  pub id : ℕ → ℕ
  pub serial : ℕ → ℕ
  pub last_finger : ℕ
  pub features : Features
  pub stylus_in_proximity : Bool
  pub posted : List Event

-- The packet buffer: the byte at each index.
abbrev pub Packet : Type 0
Packet = ℕ → ℕ

-- WACOM_PKGLEN_...
abbrev pub pkglen_bbfun : ℕ
pkglen_bbfun = 9

abbrev pub pkglen_tpc1fg : ℕ
pkglen_tpc1fg = 5

abbrev pub pkglen_bbtouch : ℕ
pkglen_bbtouch = 20

abbrev pub pkglen_bbtouch3 : ℕ
pkglen_bbtouch3 = 64

-- ..._DEVICE_ID
abbrev pub stylus_device_id : ℕ
stylus_device_id = 0x02

abbrev pub touch_device_id : ℕ
touch_device_id = 0x03

abbrev pub cursor_device_id : ℕ
cursor_device_id = 0x06

abbrev pub eraser_device_id : ℕ
eraser_device_id = 0x0a

abbrev pub pad_device_id : ℕ
pad_device_id = 0x0f

-- WACOM_REPORT_...
abbrev pub report_penabled : ℕ
report_penabled = 2

abbrev pub report_intuosread : ℕ
report_intuosread = 5

abbrev pub report_intuoswrite : ℕ
report_intuoswrite = 6

abbrev pub report_intuospad : ℕ
report_intuospad = 12

abbrev pub report_intuos5pad : ℕ
report_intuos5pad = 3

abbrev pub report_dtuspad : ℕ
report_dtuspad = 21

abbrev pub report_tpc1fg : ℕ
report_tpc1fg = 6

abbrev pub report_tpc2fg : ℕ
report_tpc2fg = 13

abbrev pub report_dtus : ℕ
report_dtus = 17

-- `get_unaligned_le16(&data[i])`, and the same of `le16_to_cpup`
abbrev pub le16 : Packet → ℕ → ℕ
le16 d i = d i + 256 * d (i + 1)

-- `get_unaligned_be16(&data[i])`, and the same of `be16_to_cpup`
abbrev pub be16 : Packet → ℕ → ℕ
be16 d i = 256 * d i + d (i + 1)

-- The calls of the input core. Each adds one event to the history.
abbrev pub post : Event → Wac → Wac
post e w = record w { posted = e ∷ w.posted }

abbrev pub report_key : Key → ℕ → Wac → Wac
report_key k v = post (key k v)

abbrev pub report_abs : Axis → ℕ → Wac → Wac
report_abs a n = post (abs a (pos n))

abbrev pub report_int : Axis → ℤ → Wac → Wac
report_int a z = post (abs a z)

abbrev pub report_rel : ℤ → Wac → Wac
report_rel z = post (rel_wheel z)

abbrev pub report_serial : ℕ → Wac → Wac
report_serial n = post (msc_serial n)

abbrev pub input_sync : Wac → Wac
input_sync = post sync

-- `input_report_key(input, wacom->tool[i], v)`
abbrev pub report_tool : ℕ → ℕ → Wac → Wac
report_tool i v w = report_key (w.tool i) v w

-- `input_report_abs(input, ABS_MISC, wacom->id[i])`
abbrev pub report_id : ℕ → Wac → Wac
report_id i w = report_abs abs_misc (w.id i) w

-- `wacom->tool[i] = k`
abbrev pub set_tool : ℕ → Key → Wac → Wac
set_tool i k w = record w { tool = update w.tool i k }

-- `wacom->id[i] = n`
abbrev pub set_id : ℕ → ℕ → Wac → Wac
set_id i n w = record w { id = update w.id i n }

-- `wacom->shared->stylus_in_proximity = b`
abbrev pub set_stylus_in_proximity : Bool → Wac → Wac
set_stylus_in_proximity b w = record w { stylus_in_proximity = b }

-- The input core's current value of each axis (`input->abs[]`), as a function of the history. The
-- core filters and stores what is posted to it; the handlers only read it.
abbrev pub InputCore : Type 0
InputCore = List Event → Axis → ℤ

abbrev pub same_int : ℤ → ℤ → Bool
same_int a b = pos_part a == pos_part b && neg_part a == neg_part b

-- A coordinate that a new finger repeats is moved by one, or the core would drop the event.
abbrev pub nudge : Bool → ℕ → Bool → ℕ
nudge switched x repeated = if switched && repeated then x + 1 else x
