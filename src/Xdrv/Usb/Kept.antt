-- ===== src/Xdrv/Usb/Kept.antt =====
-- What `usbParseChannel` (src/xdrv/wcmUSB.c) leaves as it was: the serial number of the report, and the
-- working states of all channels when a report is handed on.
use linuxwacom.Prelude.{ℕ, ◌+◌, ◌≡◌, refl, ◌∙◌, List, [], ◌∷◌, arith}
use linuxwacom.Prelude.Int.{ℤ, pos, ◌-ℤ◌}
use linuxwacom.Input.{Key, Axis, Event, key, abs, rel_wheel, msc_serial, sync}
use linuxwacom.Xdrv.Events.{DeviceState}
use linuxwacom.Xdrv.Usb.State.{Channel, Setup, Outside, Common, xf86_wcm_event}
use linuxwacom.Xdrv.Usb.Keys.{padkey_codes, mod_buttons, pad_button, tool_key, touch_key, key_event}
use linuxwacom.Xdrv.Usb.Axes.{tool_id, abs_event}
use linuxwacom.Xdrv.Usb.Channel.{
  parse_events, retrieve_type, retrieve_position, next_state, hand_on,
}

pad_button-serial :
    (ks : List Key) (n : ℕ) (k : Key) (v : ℕ) (ds : DeviceState)
    → (pad_button ks n k v ds).serial_num ≡ ds.serial_num
unfolding pad_button mod_buttons
pad_button-serial [] n k v ds = refl
pad_button-serial (j ∷ ks) n k v ds = ground (arith, pad_button-serial ks (n + 1) k v ds)

key_event-serial :
    (c : Setup) (time last_prox : ℕ) (k : Key) (v : ℕ) (ds : DeviceState)
    → (key_event c time last_prox k v ds).serial_num ≡ ds.serial_num
unfolding key_event tool_key touch_key mod_buttons
key_event-serial c time last_prox k v ds = ground (arith, pad_button-serial padkey_codes 0 k v ds)

abs_event-serial :
    (c : Setup) (a : Axis) (v : ℤ) (ds : DeviceState)
    → (abs_event c a v ds).serial_num ≡ ds.serial_num
unfolding abs_event tool_id
abs_event-serial c a v ds = ground arith

parse_events-serial :
    (c : Setup) (time last_prox : ℕ) (es : List Event) (ds : DeviceState)
    → (parse_events c time last_prox es ds).serial_num ≡ ds.serial_num
unfolding parse_events
parse_events-serial c time last_prox [] ds = refl
parse_events-serial c time last_prox (key k v ∷ es) ds =
    parse_events-serial c time last_prox es (key_event c time last_prox k v ds)
    ∙ key_event-serial c time last_prox k v ds
parse_events-serial c time last_prox (abs a v ∷ es) ds =
    parse_events-serial c time last_prox es (abs_event c a v ds) ∙ abs_event-serial c a v ds
parse_events-serial c time last_prox (rel_wheel v ∷ es) ds =
    parse_events-serial c time last_prox es (record ds { relwheel = pos 0 -ℤ v })
parse_events-serial c time last_prox (msc_serial n ∷ es) ds =
    parse_events-serial c time last_prox es ds
parse_events-serial c time last_prox (sync ∷ es) ds = parse_events-serial c time last_prox es ds

retrieve_type-serial :
    (o : Outside) (ds : DeviceState) → (retrieve_type o ds).0.serial_num ≡ ds.serial_num
unfolding retrieve_type
retrieve_type-serial o ds = ground arith

retrieve_position-serial :
    (o : Outside) (last_prox : ℕ) (ds : DeviceState)
    → (retrieve_position o last_prox ds).0.serial_num ≡ ds.serial_num
unfolding retrieve_position
retrieve_position-serial o last_prox ds = ground arith

-- The next state has the last serial number.
pub next_state-serial :
    (c : Setup) (o : Outside) (s : Common) (ch : Channel)
    → (next_state c o s ch).0.serial_num ≡ s.last_serial
unfolding next_state
next_state-serial c o s ch =
    let ds = record ch.work { relwheel = pos 0; serial_num = s.last_serial } in
    let parsed = parse_events c o.time ch.valid.proximity s.events ds in
    let typed = (retrieve_type o parsed).0 in
    ground (
      arith,
      parse_events-serial c o.time ch.valid.proximity s.events ds,
      retrieve_type-serial o parsed,
      retrieve_position-serial o ch.valid.proximity typed,
    )

-- Handing on a report changes no working state.
pub hand_on-work :
    (c : Setup) (o : Outside) (n : ℕ) (s : Common) (i : ℕ)
    → ((hand_on c o n s).channels i).work ≡ (s.channels i).work
unfolding hand_on xf86_wcm_event
hand_on-work c o n s i = ground arith
