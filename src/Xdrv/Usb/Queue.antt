-- ===== src/Xdrv/Usb/Queue.antt =====
-- `usbChooseChannel` and `usbParseEvent` (src/xdrv/wcmUSB.c): events are collected to records, and each
-- record goes to the channel of its serial number.
use linuxwacom.Prelude.{
  ℕ, zero, suc, ◌+◌, ◌-◌, ◌==◌, Bool, true, not, ◌&&◌, ◌||◌, leb, List, [], ◌∷◌, ◌++◌, length,
  if◌then◌else◌, nonzero, when, ◌|>◌,
}
use linuxwacom.Prelude.Int.{ℤ, pos, negsuc, signed32, ◌-ℤ◌, ltb_ℤ}
use linuxwacom.Input.{Event, key, abs, rel_wheel, msc_serial, sync}
use linuxwacom.Xdrv.Usb.State.{
  Channel, Setup, Outside, Common, max_channels, max_usb_events, no_serial, blank, put,
  xf86_wcm_event,
}
use linuxwacom.Xdrv.Usb.Channel.{parse_channel}

-- The loops over the channels: the first one of `n` from the index `i` on that has the property, or -1.
unfoldable pub find_channel : (Channel → Bool) → (ℕ → Channel) → ℕ → ℕ → ℤ
find_channel p channels zero i = negsuc 0
find_channel p channels (suc n) i =
    let rest = find_channel p channels n (i + 1) in if p (channels i) then pos i else rest

abbrev pub near_with : ℕ → Channel → Bool
near_with serial ch = nonzero ch.work.proximity && ch.work.serial_num == serial

abbrev pub is_free : Channel → Bool
is_free ch = not (nonzero ch.work.proximity)

-- "dual input is supported": the channel of the serial number, or else the first one that is free.
unfoldable pub dual_channel : ℕ → (ℕ → Channel) → ℤ
dual_channel serial channels =
    let existing = find_channel (near_with serial) channels max_channels 0 in
    if ltb_ℤ existing (pos 0) then find_channel is_free channels max_channels 0 else existing

-- "one transducer plus expresskey (pad) is supported"
unfoldable pub single_channel : ℕ → (ℕ → Channel) → ℤ
single_channel serial channels =
    if serial == no_serial
    then pos 1
    else if near_with serial (channels 0) || is_free (channels 0)
    then pos 0
    else negsuc 0

-- `usbChooseChannel`: the channel, before what is done where there is none.
unfoldable pub channel_of : Setup → ℕ → (ℕ → Channel) → ℤ
channel_of c serial channels =
    if c.protocol == 4
    then (if serial == 0xf0
        then pos (max_channels - 1)
        else if nonzero serial
        then signed32 serial -ℤ pos 1
        else pos 0)
    else if nonzero serial
    then (if c.dual then dual_channel serial channels else single_channel serial channels)
    else negsuc 0

-- "Force prox-out for all channels" but those of a pad: `n` of them, from the index `i` on.
unfoldable pub force_out : Outside → ℕ → ℕ → Common → Common
force_out o zero i s = s
force_out o (suc n) i s =
    let ds = (s.channels i).work in
    s
    |> when (nonzero ds.proximity && not (ds.serial_num == no_serial))
        (λ t. xf86_wcm_event o i (put i (record ds { proximity = 0 }) t))
    |> force_out o n (i + 1)

unfoldable pub choose_channel : Setup → Outside → Common → Common × ℤ
choose_channel c o s =
    let channel = channel_of c s.last_serial s.channels in
    (when (ltb_ℤ channel (pos 0)) (force_out o max_channels 0) s, channel)

-- What is out of proximity starts from nothing: the `memset` of the channel.
unfoldable pub enter_channel : ℕ → Common → Common
enter_channel n s =
    when (is_free (s.channels n))
      (λ t. record t {
        channels = λ i.
            if i == n
            then record { work = record blank { proximity = 1 }; valid = blank }
            else t.channels i;
      })
      s

-- The record goes to its channel. There is none for the channel -1; one below that or above
-- `max_channels` would be an access outside of the array.
unfoldable pub route : Setup → Outside → ℤ → Common → Common
route c o (negsuc k) s = s
route c o (pos n) s = parse_channel c o n (enter_channel n s)

unfoldable pub deliver : Setup → Outside → Common → Common
deliver c o s = let (t, channel) = choose_channel c o s in route c o channel t

abbrev pub skip_event : Common → Common
skip_event s = record s { events = [] }

-- The record has ended.
unfoldable pub end_record : Setup → Outside → Common → Common
end_record c o s =
    if leb (length s.events) 2 && nonzero s.last_serial
    then skip_event s
    else skip_event (deliver c o s)

-- `usbParseEvent`, with space left: the event is saved. The serial number ends a record until the first
-- synchronisation has come.
unfoldable pub collect : Setup → Outside → Event → Common → Common
collect c o e s =
    let saved = record s { events = s.events ++ (e ∷ []) } in
    elim e [
      | msc_serial serial ↦
          let t = record saved { last_serial = serial } in
          if t.syn_reports then t else end_record c o t
      | sync ↦ end_record c o (record saved { syn_reports = true })
      | key _ _ ↦ saved
      | abs _ _ ↦ saved
      | rel_wheel _ ↦ saved
    ]

unfoldable pub parse_event : Setup → Outside → Event → Common → Common
parse_event c o e s = if leb max_usb_events (length s.events) then skip_event s else collect c o e s

-- The events that arrive, in order, each with what is outside at its time.
unfoldable pub run : Setup → List (Outside × Event) → Common → Common
run c [] s = s
run c ((o, e) ∷ es) s = run c es (parse_event c o e s)
