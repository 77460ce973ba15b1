-- ===== src/Xdrv/Serial/Protocol4.antt =====
-- The packets of protocol IV (src/xdrv/wcmSerial.c): `serialParseP4Common`, `serialParseGraphire`,
-- `serialParseCintiq` and `serialParseProtocol4`.
use linuxwacom.Prelude.{
  ℕ, ◌+◌, ◌*◌, ◌/◌, ◌==◌, Bool, true, false, not, ◌&&◌, List, bit_and, bit_or, if◌then◌else◌, has,
  nonzero,
}
use linuxwacom.Prelude.Int.{ℤ, pos, ◌-ℤ◌}
use linuxwacom.Wacom.{stylus_device_id, cursor_device_id, eraser_device_id}
use linuxwacom.Xdrv.Events.{DeviceState}
use linuxwacom.Xdrv.ToolIds.{stylus_id, cursor_id, eraser_id}
use linuxwacom.Xdrv.Serial.Read.{byte, checked}
use linuxwacom.Xdrv.Serial.Port.{Tablet, Server, Port, soft_out, send, resumed}

-- ZAXIS_SIGN_BIT and TILT_SIGN_BIT; PROXIMITY_BIT is 0x40, POINTER_BIT 0x20.
abbrev pub sign_bit : ℕ
sign_bit = 0x40

-- ZAXIS_BITS and TILT_BITS
abbrev pub value_bits : ℕ
value_bits = 0x3f

-- ZAXIS_BIT
abbrev pub zaxis_bit : ℕ
zaxis_bit = 0x04

-- `((a & 0x3) << 14) + (b << 7) + c`
unfoldable pub coordinate : ℕ → ℕ → ℕ → ℕ
coordinate a b c = bit_and a 0x3 * 16384 + b * 128 + c

-- The tilt of a byte: with the sign bit half of the range is subtracted.
unfoldable pub tilt_of : ℕ → ℕ → ℤ
tilt_of max b =
    if has b sign_bit
    then pos (bit_and b value_bits) -ℤ pos (max / 2)
    else pos (bit_and b value_bits)

-- "for Graphire eraser" included.
unfoldable pub type_of : Bool → ℕ → ℕ
type_of is_stylus buttons =
    if has buttons 8
    then eraser_id
    else if is_stylus
    then (if has buttons 4 then eraser_id else stylus_id)
    else cursor_id

-- The position, the proximity and the tilt of the packet.
unfoldable pub locate : Tablet → List ℕ → DeviceState → DeviceState
locate t d ds =
    let tilted = t.tilt && has (byte d 0) 0x20 in
    record ds {
      proximity = bit_and (byte d 0) 0x40;
      x = pos (coordinate (byte d 0) (byte d 1) (byte d 2));
      y = pos (coordinate (byte d 3) (byte d 4) (byte d 5));
      tiltx = if tilted then tilt_of t.max_tilt_x (byte d 7) else ds.tiltx;
      tilty = if tilted then tilt_of t.max_tilt_y (byte d 8) else ds.tilty;
    }

-- The identifier by the type; an eraser has no buttons.
unfoldable pub identify : DeviceState → DeviceState
identify ds =
    if ds.device_type == eraser_id
    then record ds { device_id = eraser_device_id; buttons = 0 }
    else record ds {
      device_id = if ds.device_type == cursor_id then cursor_device_id else stylus_device_id;
    }

-- The type, and whether an eraser that has become another tool has to be sent out of proximity.
-- `near` is `last->proximity`.
unfoldable pub settle : ℕ → ℕ → DeviceState → DeviceState × Bool
settle near type ds =
    if not (nonzero near) && nonzero ds.proximity
    then (record ds { device_type = type }, false)
    else if nonzero ds.buttons
        && nonzero ds.proximity
        && not (ds.device_type == type)
        && ds.device_type == eraser_id
    then (record ds { device_type = type }, true)
    else (ds, false)

-- `serialParseP4Common`: the state with buttons and pressure is completed.
unfoldable pub p4_common : Tablet → Server → List ℕ → DeviceState → Port → DeviceState × Port
p4_common t v d ds p =
    let type = type_of (has (byte d 0) 0x20) ds.buttons in
    let (settled, out) = settle (p.channels 0).valid.proximity type (locate t d ds) in
    (identify settled, if out then soft_out v 0 p else p)

-- `((data[6]&ZAXIS_BITS) << 2 ) + ((data[3]&ZAXIS_BIT) >> 1) + ((data[0]&ZAXIS_BIT) >> 6) + ...`
unfoldable pub pressure9 : List ℕ → ℕ
pressure9 d =
    bit_and (byte d 6) value_bits * 4
    + bit_and (byte d 3) zaxis_bit / 2
    + bit_and (byte d 0) zaxis_bit / 64
    + (if has (byte d 6) sign_bit then 0 else 0x100)

unfoldable pub pressure8 : List ℕ → ℕ
pressure8 d =
    bit_or (bit_or (bit_and (byte d 6) value_bits * 2) (bit_and (byte d 3) zaxis_bit / 4))
      (if has (byte d 6) sign_bit then 0 else 0x80)

unfoldable pub pressure7 : List ℕ → ℕ
pressure7 d = bit_or (bit_and (byte d 6) value_bits) (if has (byte d 6) sign_bit then 0 else 0x40)

-- `(data[3] & BUTTONS_BITS) >> 3`
unfoldable pub p4_buttons : List ℕ → ℕ
p4_buttons d = bit_and (byte d 3) 0x78 / 8

-- What the three parsers share: the state of a valid packet is completed, `finish` is what the parser
-- still does to it.
unfoldable pub p4_packet :
    Tablet → Server → ℕ → (DeviceState → DeviceState) → List ℕ → Port → Port × ℕ
p4_packet t v pressure finish d p =
    let ds = record (resumed 0 p) { pressure = pos pressure; buttons = p4_buttons d } in
    let (done, p') = p4_common t v d ds p in (send v 0 (finish done) p', p.pkt_length)

-- "handle relative wheel for non-stylus device"
unfoldable pub wheel : List ℕ → DeviceState → DeviceState
wheel d ds =
    let steps = pos (bit_and (byte d 6) 0x30 / 16) in
    if ds.device_type == cursor_id
    then record ds { relwheel = if has (byte d 6) 0x40 then pos 0 -ℤ steps else steps }
    else ds

unfoldable pub parse_graphire : Tablet → Server → List ℕ → Port → Port × ℕ
parse_graphire t v = checked (λ p. p.pkt_length) (λ d. p4_packet t v (pressure9 d) (wheel d) d)

unfoldable pub parse_cintiq : Tablet → Server → List ℕ → Port → Port × ℕ
parse_cintiq t v =
    checked (λ p. p.pkt_length)
      (λ d. p4_packet t v (if t.max_z == 255 then pressure8 d else pressure9 d) (λ ds. ds) d)

unfoldable pub parse_protocol4 : Tablet → Server → List ℕ → Port → Port × ℕ
parse_protocol4 t v =
    checked (λ p. p.pkt_length)
      (λ d. p4_packet t v (if t.max_z == 255 then pressure8 d else pressure7 d) (λ ds. ds) d)
