-- ===== src/Xdrv/Serial/Isdv4.antt =====
-- `isdv4Parse` (src/xdrv/wcmISDV4.c): the packets of serial Tablet PCs, with pen and touch.
use linuxwacom.Prelude.{
  ℕ, ◌+◌, ◌*◌, ◌/◌, ◌==◌, Bool, not, ◌&&◌, ◌||◌, ltb, List, length, bit_and, bit_or, if◌then◌else◌,
  has, nonzero, when,
}
use linuxwacom.Prelude.Int.{ℤ, pos}
use linuxwacom.Wacom.{stylus_device_id, touch_device_id, eraser_device_id}
use linuxwacom.Xdrv.Events.{DeviceState}
use linuxwacom.Xdrv.ToolIds.{stylus_id, touch_id, eraser_id}
use linuxwacom.Xdrv.Serial.Read.{byte, validate}
use linuxwacom.Xdrv.Serial.Port.{Tablet, Server, Port, soft_out, put, send, resumed}
use linuxwacom.Xdrv.Serial.Protocol4.{settle}

abbrev pub pkglen_touch0 : ℕ
pkglen_touch0 = 5

abbrev pub pkglen_touch : ℕ
pkglen_touch = 7

abbrev pub pkglen_tpc : ℕ
pkglen_tpc = 9

abbrev pub pkglen_touch2fg : ℕ
pkglen_touch2fg = 13

-- The length of a touch packet.
unfoldable pub touch_length : ℕ → ℕ
touch_length id =
    if id == 0xe2 || id == 0xe3
    then pkglen_touch2fg
    else if id == 0x9a || id == 0x9f
    then pkglen_touch
    else pkglen_touch0

-- "ignore touch event"
unfoldable pub ignores_touch : Tablet → Port → Bool
ignores_touch t p =
    let last = (p.channels 0).valid in
    (not (last.device_id == touch_device_id) && nonzero last.device_id && nonzero last.proximity)
    || not t.touch

-- "touch was in control": it is let go when a pen packet comes.
unfoldable pub let_go : Server → Port → Port
let_go v p =
    let last = (p.channels 0).valid in
    when (nonzero last.proximity && last.device_id == touch_device_id) (soft_out v 0) p

-- `(data[i] << 7) | data[i + 1]`
unfoldable pub touch_coordinate : List ℕ → ℕ → ℤ
touch_coordinate d i = pos (bit_or (byte d i * 128) (byte d (i + 1)))

abbrev pub stamp : Server → ℕ → DeviceState → DeviceState
stamp v near ds =
    if (nonzero ds.proximity && not (nonzero near)) || (not (nonzero ds.proximity) && nonzero near)
    then record ds { sample = v.time }
    else ds

-- One finger, with its bit of the header and its position from the byte `i` on.
unfoldable pub finger : List ℕ → ℕ → ℕ → DeviceState → DeviceState
finger d bit i ds = record ds {
  x = touch_coordinate d i;
  y = touch_coordinate d (i + 2);
  proximity = bit_and (byte d 0) bit;
  device_type = touch_id;
  device_id = touch_device_id;
}

unfoldable pub touch_packet : Server → List ℕ → Port → Port
touch_packet v d p =
    let near = (p.channels 0).valid.proximity in
    let near1 = (p.channels 1).valid.proximity in
    let first = record (finger d 1 1 (resumed 0 p)) { buttons = bit_and (byte d 0) 1 } in
    if p.pkt_length == pkglen_touch2fg && (has (byte d 0) 2 || nonzero near1)
    then (let p' =
          if nonzero first.proximity || nonzero near
          then send v 0 (stamp v near first) p
          else put 0 first p in
        send v 1 (stamp v (p'.channels 1).valid.proximity (finger d 2 7 (resumed 1 p'))) p')
    else send v 0 first p

-- The state of a pen packet, before the type is settled.
unfoldable pub pen_state : List ℕ → DeviceState → DeviceState
pen_state d ds = record ds {
  proximity = bit_and (byte d 0) 0x20;
  x = pos (bit_or (bit_or (bit_and (byte d 6) 0x60 / 32) (byte d 2 * 4)) (byte d 1 * 512));
  y = pos (bit_or (bit_or (bit_and (byte d 6) 0x18 / 8) (byte d 4 * 4)) (byte d 3 * 512));
  pressure = pos (bit_or (bit_and (byte d 6) 0x07 * 128) (byte d 5));
  buttons = bit_and (byte d 0) 0x07;
}

unfoldable pub pen_identify : DeviceState → DeviceState
pen_identify ds =
    if ds.device_type == eraser_id
    then record ds {
      device_id = eraser_device_id;
      buttons = if has ds.buttons 4 then 0 else ds.buttons;
    }
    else record ds { device_id = stylus_device_id }

unfoldable pub pen_packet : Server → List ℕ → Port → Port
pen_packet v d p =
    let ds = pen_state d (resumed 0 p) in
    let type = if has ds.buttons 4 then eraser_id else stylus_id in
    let (settled, out) = settle (p.channels 0).valid.proximity type ds in
    send v 0 (pen_identify settled) (when out (soft_out v 0) p)

-- The packet of a known length, of the bytes that are there.
unfoldable pub complete : Server → List ℕ → Port → Port × ℕ
complete v d p =
    let skip = validate p.pkt_length d in
    if ltb (length d) p.pkt_length
    then (p, 0)
    else if has (byte d 0) 0x40
    then (p, p.pkt_length)
    else if nonzero skip
    then (p, skip)
    else if p.pkt_length == pkglen_tpc
    then (pen_packet v d p, p.pkt_length)
    else (touch_packet v d p, p.pkt_length)

-- `isdv4Parse`. A packet whose first byte is 0 has the length of the one before.
unfoldable pub parse : Tablet → Server → List ℕ → Port → Port × ℕ
parse t v d p =
    if byte d 0 == 0
    then complete v d p
    else if has (byte d 0) 0x10
    then (let p' = record p { pkt_length = touch_length t.tablet_id } in
        if ignores_touch t p' then (p', p'.pkt_length) else complete v d p')
    else complete v d (let_go v (record p { pkt_length = pkglen_tpc }))
