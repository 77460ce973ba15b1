-- ===== src/Xdrv/Serial/Protocol5.antt =====
-- The packets of protocol V (src/xdrv/wcmSerial.c): `serialParseProtocol5`.
use linuxwacom.Prelude.{
  ℕ, ◌+◌, ◌*◌, ◌/◌, ◌==◌, ◌^◌, Bool, true, false, not, ◌||◌, ltb, List, bit_and, bit_or,
  if◌then◌else◌, has, update,
}
use linuxwacom.Prelude.Int.{ℤ, pos, ◌-ℤ◌}
use linuxwacom.Xdrv.Events.{DeviceState}
use linuxwacom.Xdrv.ToolIds.{stylus_id, cursor_id, eraser_id}
use linuxwacom.Xdrv.Usb.State.{blank}
use linuxwacom.Xdrv.Serial.Read.{byte, checked}
use linuxwacom.Xdrv.Serial.Port.{Server, Port, put, send, resumed}
use linuxwacom.Xdrv.Serial.Protocol4.{sign_bit, value_bits}

-- The macros of src/xdrv/xf86WacomDefs.h that tell a tool by its identifier.
unfoldable pub is_model : ℕ → ℕ → Bool
is_model n id = bit_and id 0x07ff == n

abbrev pub stylus_tool : ℕ → Bool
stylus_tool id =
    is_model 0x0022 id
    || is_model 0x0042 id
    || is_model 0x0052 id
    || is_model 0x0032 id
    || is_model 0x0012 id
    || is_model 0x0112 id

abbrev pub mouse_4d : ℕ → Bool
mouse_4d id = is_model 0x0094 id

abbrev pub mouse_2d : ℕ → Bool
mouse_2d id = is_model 0x0007 id

abbrev pub lens_cursor : ℕ → Bool
lens_cursor id = is_model 0x0096 id

abbrev pub cursor_tool : ℕ → Bool
cursor_tool id = mouse_4d id || lens_cursor id || mouse_2d id

-- `x << k`, of a value that fits.
abbrev pub shl : ℕ → ℕ → ℕ
shl x k = x * 2 ^ k

unfoldable pub id_of : List ℕ → ℕ
id_of d = bit_or (shl (bit_and (byte d 1) 0x7f) 5) (bit_and (byte d 2) 0x7c / 4)

unfoldable pub serial_of : List ℕ → ℕ
serial_of d =
    bit_or
      (bit_or
        (bit_or
          (bit_or (bit_or (shl (bit_and (byte d 2) 0x03) 30) (shl (bit_and (byte d 3) 0x7f) 23))
            (shl (bit_and (byte d 4) 0x7f) 16))
          (shl (bit_and (byte d 5) 0x7f) 9))
        (shl (bit_and (byte d 6) 0x7f) 2))
      (bit_and (byte d 7) 0x60 / 32)

unfoldable pub x_of : List ℕ → ℕ
x_of d =
    bit_or (bit_or (shl (bit_and (byte d 1) 0x7f) 9) (shl (bit_and (byte d 2) 0x7f) 2))
      (bit_and (byte d 3) 0x60 / 32)

unfoldable pub y_of : List ℕ → ℕ
y_of d =
    bit_or (bit_or (shl (bit_and (byte d 3) 0x1f) 11) (shl (bit_and (byte d 4) 0x7f) 4))
      (bit_and (byte d 5) 0x78 / 8)

-- The ten bits of the pressure, the wheel or the throttle.
unfoldable pub value10 : List ℕ → ℕ
value10 d = bit_or (shl (bit_and (byte d 5) 0x07) 7) (bit_and (byte d 6) 0x7f)

unfoldable pub tilt_of : ℕ → ℤ
tilt_of b =
    if has b sign_bit
    then pos (bit_and b value_bits) -ℤ pos (value_bits + 1)
    else pos (bit_and b value_bits)

-- "Device ID packet": the channel starts from scratch.
unfoldable pub new_tool : List ℕ → DeviceState
new_tool d =
    let id = id_of d in
    record blank {
      proximity = 1;
      device_id = id;
      serial_num = serial_of d;
      device_type =
          if stylus_tool id then stylus_id else if cursor_tool id then cursor_id else eraser_id;
    }

-- `(device_id & 0xf06) != 0x802`
unfoldable pub discards : ℕ → Bool
discards id = not (bit_and id 0xf06 == 0x802)

-- "General pen packet or eraser packet or airbrush first packet, airbrush second packet".
unfoldable pub pen_packet : List ℕ → DeviceState → DeviceState
pen_packet d ds =
    let general = bit_and (byte d 0) 0xb8 == 0xa0 in
    record ds {
      x = pos (x_of d);
      y = pos (y_of d);
      pressure = if general then pos (value10 d) else ds.pressure;
      buttons = if general then bit_and (byte d 0) 0x06 else ds.buttons;
      abswheel = if general then ds.abswheel else pos (value10 d);
      tiltx = tilt_of (byte d 7);
      tilty = tilt_of (byte d 8);
      proximity = bit_and (byte d 0) 0x40;
    }

-- "4D mouse 1st packet or Lens cursor packet or 2D mouse packet", and whether there is data. `first` is
-- `discard_first`.
unfoldable pub mouse_packet : Bool → List ℕ → DeviceState → DeviceState × Bool
mouse_packet first d ds0 =
    let b = byte d 8 in
    let ds = record ds0 {
      x = pos (x_of d);
      y = pos (y_of d);
      tilty = pos 0;
      proximity = bit_and (byte d 0) 0x40;
    } in
    if mouse_4d ds.device_id
    then (
      record ds {
        throttle = if has b 0x08 then pos 0 -ℤ pos (value10 d) else pos (value10 d);
        buttons = bit_or (bit_and b 0x70 / 2) (bit_and b 0x07);
      },
      not first,
    )
    else if lens_cursor ds.device_id
    then (record ds { buttons = b }, true)
    else if mouse_2d ds.device_id
    then (
      record ds {
        buttons = bit_and b 0x1c / 4;
        relwheel = pos (bit_and b 2 / 2) -ℤ pos (bit_and b 1);
      },
      true,
    )
    else (ds, false)

-- "4D mouse 2nd packet".
unfoldable pub turn_packet : List ℕ → DeviceState → DeviceState
turn_packet d ds =
    let count = bit_or (shl (bit_and (byte d 6) 0x0f) 7) (bit_and (byte d 7) 0x7f) in
    record ds {
      x = pos (x_of d);
      y = pos (y_of d);
      rotation = if ltb count 900 then pos 0 -ℤ pos count else pos 1799 -ℤ pos count;
      proximity = bit_and (byte d 0) 0x40;
    }

abbrev pub set_discard : ℕ → Bool → Port → Port
set_discard c first p = record p { discard_first = update p.discard_first c first }

-- A packet that is valid, on the channel `c`.
unfoldable pub packet : Server → ℕ → List ℕ → Port → Port
packet v c d p =
    let head = byte d 0 in
    let ds = resumed c p in
    let (mouse, have_data) = mouse_packet (p.discard_first c) d ds in
    if bit_and head 0xfc == 0xc0
    then put c (new_tool d) (set_discard c (discards (id_of d)) p)
    else if bit_and head 0xfe == 0x80
    then send v c (record ds { proximity = 0 }) p
    else if bit_and head 0xb8 == 0xa0 || bit_and head 0xbe == 0xb4
    then send v c (pen_packet d ds) p
    else if bit_and head 0xbe == 0xa8 || bit_and head 0xbe == 0xb0
    then (if have_data then send v c mouse p else put c mouse p)
    else if bit_and head 0xbe == 0xaa
    then send v c (turn_packet d ds) (set_discard c false p)
    else put c ds p

-- `serialParseProtocol5`: the channel is the low bit of the header.
unfoldable pub parse : Server → List ℕ → Port → Port × ℕ
parse v =
    checked (λ p. p.pkt_length) (λ d p. (packet v (bit_and (byte d 0) 0x01) d p, p.pkt_length))
