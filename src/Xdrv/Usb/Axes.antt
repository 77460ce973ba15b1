-- ===== src/Xdrv/Usb/Axes.antt =====
-- `usbFindDeviceType` and `usbParseChannel` (src/xdrv/wcmUSB.c): the absolute events of a record.
use linuxwacom.Prelude.{ℕ, ◌-◌, ◌*◌, ◌/◌, ◌^◌, ◌==◌, ◌&&◌, ◌||◌, List, if◌then◌else◌, nonzero}
use linuxwacom.Prelude.Int.{ℤ, pos, negsuc, ◌+ℤ◌, ◌-ℤ◌, ◌*ℤ◌}
use linuxwacom.Input.{
  Axis, abs_x, abs_y, abs_z, abs_rx, abs_ry, abs_rz, abs_throttle, abs_wheel, abs_pressure,
  abs_distance, abs_tilt_x, abs_tilt_y, abs_misc,
}
use linuxwacom.Wacom.{same_int}
use linuxwacom.Xdrv.Events.{DeviceState}
use linuxwacom.Xdrv.Filter.{quotient}
use linuxwacom.Xdrv.ToolIds.{type_by_id, type_by_serial}
use linuxwacom.Xdrv.Usb.State.{Setup}

abbrev pub filter_pressure_res : ℕ
filter_pressure_res = 2048

abbrev pub max_abs_wheel : ℕ
max_abs_wheel = 1023

abbrev pub min_rotation : ℤ
min_rotation = negsuc 899

-- MAX_ROTATION - MIN_ROTATION
abbrev pub rotation_range : ℕ
rotation_range = 1799

-- The pattern of 32 bits that stands for an `int`.
abbrev pub pattern32 : ℤ → ℕ
pattern32 (pos n) = n
pattern32 (negsuc n) = 2 ^ 32 - 1 - n

-- `usbFindDeviceType`. The `switch` over the identifier and `usbIdToType` are those of `type_by_id`.
unfoldable pub find_device_type : List (ℕ × ℕ) → ℕ → ℕ → ℕ
find_device_type tools id serial =
    let type = if id == 0 && nonzero serial then type_by_serial tools serial 0 else 0 in
    if nonzero type || id == 0 then type else type_by_id id

-- `value` of `range` steps, scaled to FILTER_PRESSURE_RES.
unfoldable pub scaled : ℤ → ℕ → ℤ
scaled value range = quotient (value *ℤ pos filter_pressure_res) range

-- ABS_MISC: the identifier of the tool, or 0 when it leaves.
unfoldable pub tool_id : Setup → ℤ → DeviceState → DeviceState
tool_id c value ds = if same_int value (pos 0) then record ds { proximity = 0 } else record ds {
  proximity = 1;
  device_id = pattern32 value;
  device_type = find_device_type c.tools (pattern32 value) ds.serial_num;
}

-- An event of type EV_ABS.
unfoldable pub abs_event : Setup → Axis → ℤ → DeviceState → DeviceState
abs_event c abs_x v ds = record ds { x = v }
abs_event c abs_y v ds = record ds { y = v }
abs_event c abs_rx v ds = record ds { stripx = v }
abs_event c abs_ry v ds = record ds { stripy = v }
abs_event c abs_rz v ds = record ds { rotation = scaled (v -ℤ min_rotation) rotation_range }
abs_event c abs_tilt_x v ds = record ds { tiltx = v -ℤ pos (c.max_tilt_x / 2) }
abs_event c abs_tilt_y v ds = record ds { tilty = v -ℤ pos (c.max_tilt_y / 2) }
abs_event c abs_pressure v ds = record ds { pressure = v }
abs_event c abs_distance v ds = record ds { distance = v }
abs_event c abs_wheel v ds = record ds { abswheel = scaled v max_abs_wheel }
abs_event c abs_z v ds = record ds { abswheel = scaled (v -ℤ min_rotation) rotation_range }
abs_event c abs_throttle v ds =
    if c.tablet_id == 0xf4
    then record ds { abswheel2 = scaled v max_abs_wheel }
    else record ds { throttle = scaled (v +ℤ pos max_abs_wheel) (2 * max_abs_wheel) }
abs_event c abs_misc v ds = tool_id c v ds
