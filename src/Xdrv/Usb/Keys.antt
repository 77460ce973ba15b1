-- ===== src/Xdrv/Usb/Keys.antt =====
-- `usbParseChannel` (src/xdrv/wcmUSB.c): the key events of a record.
use linuxwacom.Prelude.{
  ℕ, ◌+◌, ◌-◌, ◌^◌, ◌==◌, not, ◌&&◌, ◌||◌, leb, List, [], ◌∷◌, bit_and, bit_or, if◌then◌else◌,
  nonzero, flag, when, ◌|>◌,
}
use linuxwacom.Input.{
  Key, raw, btn_0, btn_1, btn_2, btn_3, btn_4, btn_5, btn_6, btn_7, btn_8, btn_9, btn_a, btn_b,
  btn_c, btn_x, btn_y, btn_z, btn_base, btn_base2, btn_base3, key_prog1, key_prog2, key_prog3,
  btn_left, btn_right, btn_middle, btn_side, btn_extra, btn_stylus, btn_stylus2, tool_pen,
  tool_rubber, tool_brush, tool_pencil, tool_airbrush, tool_finger, tool_mouse, tool_lens,
  tool_doubletap, tool_tripletap, same_key,
}
use linuxwacom.Wacom.{
  stylus_device_id, touch_device_id, cursor_device_id, eraser_device_id, pad_device_id,
}
use linuxwacom.Xdrv.Events.{DeviceState}
use linuxwacom.Xdrv.ToolIds.{stylus_id, touch_id, cursor_id, eraser_id, pad_id}
use linuxwacom.Xdrv.Usb.State.{Setup}

abbrev pub eraser_prox : ℕ
eraser_prox = 4

-- BTN_BASE4 to BTN_BASE6, BTN_TL, BTN_TR, BTN_TL2, BTN_TR2 and BTN_SELECT are codes that the kernel
-- driver does not post.
abbrev pub padkey_codes : List Key
padkey_codes =
    btn_0
    ∷ btn_1
    ∷ btn_2
    ∷ btn_3
    ∷ btn_4
    ∷ btn_5
    ∷ btn_6
    ∷ btn_7
    ∷ btn_8
    ∷ btn_9
    ∷ btn_a
    ∷ btn_b
    ∷ btn_c
    ∷ btn_x
    ∷ btn_y
    ∷ btn_z
    ∷ btn_base
    ∷ btn_base2
    ∷ btn_base3
    ∷ raw 0x129
    ∷ raw 0x12a
    ∷ raw 0x12b
    ∷ raw 0x136
    ∷ raw 0x137
    ∷ raw 0x138
    ∷ raw 0x139
    ∷ raw 0x13a
    ∷ key_prog1
    ∷ key_prog2
    ∷ key_prog3
    ∷ []

-- `MOD_BUTTONS(bit, value)`, on a pattern of 32 bits.
unfoldable pub mod_buttons : ℕ → ℕ → DeviceState → DeviceState
mod_buttons bit value ds =
    let shift = 2 ^ bit in
    record ds {
      buttons =
          if nonzero value
          then bit_or ds.buttons shift
          else bit_and ds.buttons (2 ^ 32 - 1 - shift);
    }

-- The loop over `padkey_codes`, from the index `n` on.
unfoldable pub pad_button : List Key → ℕ → Key → ℕ → DeviceState → DeviceState
pad_button [] n code value ds = ds
pad_button (k ∷ ks) n code value ds =
    let rest = pad_button ks (n + 1) code value ds in
    if same_key code k then mod_buttons n value ds else rest

-- A tool whose identifier comes with ABS_MISC from protocol 5 on.
unfoldable pub tool_key : Setup → ℕ → ℕ → ℕ → DeviceState → DeviceState
tool_key c type id prox ds = record ds {
  device_type = type;
  device_id = if c.protocol == 4 then id else ds.device_id;
  proximity = prox;
}

-- A finger: the change of proximity since the report before has a time stamp.
unfoldable pub touch_key : ℕ → ℕ → ℕ → DeviceState → DeviceState
touch_key time last_prox value ds = record ds {
  device_type = touch_id;
  device_id = touch_device_id;
  proximity = value;
  sample =
      if (nonzero value && not (nonzero last_prox)) || (not (nonzero value) && nonzero last_prox)
      then time
      else ds.sample;
}

-- An event of type EV_KEY. `last_prox` is `dslast.proximity`.
unfoldable pub key_event : Setup → ℕ → ℕ → Key → ℕ → DeviceState → DeviceState
key_event c time last_prox tool_pen v ds =
    tool_key c stylus_id stylus_device_id (flag (nonzero v)) ds
key_event c time last_prox tool_pencil v ds =
    tool_key c stylus_id stylus_device_id (flag (nonzero v)) ds
key_event c time last_prox tool_brush v ds =
    tool_key c stylus_id stylus_device_id (flag (nonzero v)) ds
key_event c time last_prox tool_airbrush v ds =
    tool_key c stylus_id stylus_device_id (flag (nonzero v)) ds
key_event c time last_prox tool_rubber v ds =
    tool_key c eraser_id eraser_device_id (if nonzero v then eraser_prox else 0) ds
key_event c time last_prox tool_mouse v ds =
    tool_key c cursor_id cursor_device_id (flag (nonzero v)) ds
key_event c time last_prox tool_lens v ds =
    tool_key c cursor_id cursor_device_id (flag (nonzero v)) ds
key_event c time last_prox tool_finger v ds = record ds {
  device_type = pad_id;
  device_id = pad_device_id;
  proximity = flag (nonzero v);
}
key_event c time last_prox tool_doubletap v ds =
    touch_key time last_prox v ds
    |> when (not (leb 0xd0 c.tablet_id && leb c.tablet_id 0xd3)) (mod_buttons 0 v)
key_event c time last_prox tool_tripletap v ds = touch_key time last_prox v ds
key_event c time last_prox btn_stylus v ds = mod_buttons 1 v ds
key_event c time last_prox btn_middle v ds = mod_buttons 1 v ds
key_event c time last_prox btn_stylus2 v ds = mod_buttons 2 v ds
key_event c time last_prox btn_right v ds = mod_buttons 2 v ds
key_event c time last_prox btn_left v ds = mod_buttons 0 v ds
key_event c time last_prox btn_side v ds = mod_buttons 3 v ds
key_event c time last_prox btn_extra v ds = mod_buttons 4 v ds
key_event c time last_prox code v ds = pad_button padkey_codes 0 code v ds
