-- ===== src/Xdrv/Usb/Distinct.antt =====
-- Tablets with two tools at a time (src/xdrv/wcmUSB.c): `usbChooseChannel` keeps the tools apart.
use linuxwacom.Prelude.{
  ℕ, zero, suc, ◌+◌, ◌==◌, ◌≡◌, refl, Bool, true, false, List, [], ◌∷◌, ◌++◌, length, arith,
  Bool-cases, inl, inr, not, nonzero, ◌&&◌, ◌||◌, ltb, leb, when, if◌then◌else◌,
}
use linuxwacom.Prelude.Int.{ℤ, pos, negsuc, ltb_ℤ}
use linuxwacom.Input.{Event, key, abs, rel_wheel, msc_serial, sync}
use linuxwacom.Xdrv.Events.{DeviceState}
use linuxwacom.Xdrv.Usb.State.{
  Channel, Setup, Outside, Common, max_channels, max_usb_events, no_serial, put, xf86_wcm_event,
}
use linuxwacom.Xdrv.Usb.Channel.{next_state, hand_on, is_bare, parse_channel}
use linuxwacom.Xdrv.Usb.Queue.{
  collect, near_with, is_free, find_channel, dual_channel, channel_of, force_out, choose_channel,
  enter_channel, route, deliver, end_record, parse_event, run,
}
use linuxwacom.Xdrv.Usb.Kept.{next_state-serial, hand_on-work}

-- The channel is that of a tool in proximity with the serial number, or it is free and no tool in
-- proximity has the number; there is none only if three other tools are in proximity.
abbrev pub fits : ℕ → (ℕ → Channel) → ℤ → Bool
fits serial channels (pos n) =
    ltb n max_channels
    && (near_with serial (channels n)
        || (is_free (channels n)
            && not (near_with serial (channels 0))
            && not (near_with serial (channels 1))
            && not (near_with serial (channels 2))))
fits serial channels (negsuc k) =
    not (is_free (channels 0))
    && not (is_free (channels 1))
    && not (is_free (channels 2))
    && not (near_with serial (channels 0))
    && not (near_with serial (channels 1))
    && not (near_with serial (channels 2))

-- On a tablet with dual input a record goes to the channel of its tool, or to a free one for a tool
-- that has none; it has no channel only while three other tools are in proximity.
pub dual_channel-fits :
    (serial : ℕ) (channels : ℕ → Channel)
    → fits serial channels (dual_channel serial channels) ≡ true
unfolding dual_channel find_channel
dual_channel-fits serial channels = ground arith

-- Two channels in proximity with different serial numbers, or one that is free.
abbrev pub are_apart : DeviceState → DeviceState → Bool
are_apart a b = not (nonzero a.proximity && nonzero b.proximity && a.serial_num == b.serial_num)

abbrev pub distinct : (ℕ → Channel) → Bool
distinct channels =
    are_apart (channels 0).work (channels 1).work
    && are_apart (channels 0).work (channels 2).work
    && are_apart (channels 1).work (channels 2).work

force_out-distinct :
    (o : Outside) (k i : ℕ) (s : Common)
    → distinct s.channels ≡ true
    → distinct (force_out o k i s).channels ≡ true
unfolding force_out xf86_wcm_event
force_out-distinct o zero i s h = h
force_out-distinct o (suc k) i s h =
    let ds = (s.channels i).work in
    let gone = nonzero ds.proximity && not (ds.serial_num == no_serial) in
    let t = xf86_wcm_event o i (put i (record ds { proximity = 0 }) s) in
    elim (Bool-cases gone) [
      | inl e ↦ rw e (force_out-distinct o k (i + 1) t (ground (arith, h)))
      | inr e ↦ rw e (force_out-distinct o k (i + 1) s h)
    ]

-- The channels but `n` are apart, and none of them has a tool in proximity with the serial number.
abbrev room : ℕ → ℕ → (ℕ → Channel) → Bool
room serial n channels =
    (n == 0 || not (near_with serial (channels 0)))
    && (n == 1 || not (near_with serial (channels 1)))
    && (n == 2 || not (near_with serial (channels 2)))
    && (n == 0 || n == 1 || are_apart (channels 0).work (channels 1).work)
    && (n == 0 || n == 2 || are_apart (channels 0).work (channels 2).work)
    && (n == 1 || n == 2 || are_apart (channels 1).work (channels 2).work)

fits-room :
    (serial n : ℕ) (channels : ℕ → Channel)
    → fits serial channels (pos n) ≡ true
    → distinct channels ≡ true
    → room serial n channels ≡ true
fits-room serial n channels f h = ground (arith, f, h)

enter_channel-room :
    (serial n : ℕ) (s : Common)
    → room serial n s.channels ≡ true
    → room serial n (enter_channel n s).channels ≡ true
unfolding enter_channel
enter_channel-room serial n s h = ground (arith, h)

put-distinct :
    (n : ℕ) (ds : DeviceState) (s : Common)
    → room ds.serial_num n s.channels ≡ true
    → distinct (put n ds s).channels ≡ true
put-distinct n ds s h = ground (arith, h)

hand_on-distinct :
    (c : Setup) (o : Outside) (n : ℕ) (s : Common)
    → distinct s.channels ≡ true
    → distinct (hand_on c o n s).channels ≡ true
hand_on-distinct c o n s h =
    rw (hand_on-work c o n s 0, hand_on-work c o n s 1, hand_on-work c o n s 2) h

parse_channel-distinct :
    (c : Setup) (o : Outside) (n : ℕ) (s : Common)
    → is_bare s.events ≡ false
    → room s.last_serial n s.channels ≡ true
    → distinct (parse_channel c o n s).channels ≡ true
unfolding parse_channel
parse_channel-distinct c o n s real h =
    let made = next_state c o s (s.channels n) in
    let named : room made.0.serial_num n s.channels ≡ true =
      rw (next_state-serial c o s (s.channels n)) h in
    let stored = put-distinct n made.0 s named in
    rw real (ground (arith, stored, hand_on-distinct c o n (put n made.0 s) stored))

enter_channel-events : (n : ℕ) (s : Common) → (enter_channel n s).events ≡ s.events
unfolding enter_channel
enter_channel-events n s = ground arith

enter_channel-serial : (n : ℕ) (s : Common) → (enter_channel n s).last_serial ≡ s.last_serial
unfolding enter_channel
enter_channel-serial n s = ground arith

route-distinct :
    (c : Setup) (o : Outside) (channel : ℤ) (s : Common)
    → is_bare s.events ≡ false
    → fits s.last_serial s.channels channel ≡ true
    → distinct s.channels ≡ true
    → distinct
        (route c o channel (when (ltb_ℤ channel (pos 0)) (force_out o max_channels 0) s)).channels
      ≡ true
unfolding route
route-distinct c o (negsuc k) s real f h =
    let down : ltb_ℤ (negsuc k) (pos 0) ≡ true = ground arith in
    rw down (force_out-distinct o max_channels 0 s h)
route-distinct c o (pos n) s real f h =
    let up : ltb_ℤ (pos n) (pos 0) ≡ false = ground arith in
    let clear = fits-room s.last_serial n s.channels f h in
    let t = enter_channel n s in
    rw up (
      parse_channel-distinct c o n t (rw (enter_channel-events n s) real)
        (rw (enter_channel-serial n s) (enter_channel-room s.last_serial n s clear)))

dual-channel_of :
    (c : Setup) (serial : ℕ) (channels : ℕ → Channel)
    → (c.protocol == 4) ≡ false
    → c.dual ≡ true
    → channel_of c serial channels
      ≡ (if nonzero serial then dual_channel serial channels else negsuc 0)
unfolding channel_of
dual-channel_of c serial channels new dual = rw (new, dual) refl

deliver-distinct :
    (c : Setup) (o : Outside) (s : Common)
    → (c.protocol == 4) ≡ false
    → c.dual ≡ true
    → (nonzero s.last_serial ≡ true → is_bare s.events ≡ false)
    → distinct s.channels ≡ true
    → distinct (deliver c o s).channels ≡ true
unfolding deliver choose_channel route
deliver-distinct c o s new dual real h =
    let f = dual_channel-fits s.last_serial s.channels in
    elim (Bool-cases (nonzero s.last_serial)) [
      | inl e ↦
          rw (dual-channel_of c s.last_serial s.channels new dual, e)
            (route-distinct c o (dual_channel s.last_serial s.channels) s (real e) f h)
      | inr e ↦
          rw (dual-channel_of c s.last_serial s.channels new dual, e)
            (force_out-distinct o max_channels 0 s h)
    ]

long-real : (es : List Event) → leb (length es) 2 ≡ false → is_bare es ≡ false
long-real es h = ground (arith, h)

end_record-distinct :
    (c : Setup) (o : Outside) (s : Common)
    → (c.protocol == 4) ≡ false
    → c.dual ≡ true
    → distinct s.channels ≡ true
    → distinct (end_record c o s).channels ≡ true
unfolding end_record
end_record-distinct c o s new dual h =
    elim (Bool-cases (leb (length s.events) 2 && nonzero s.last_serial)) [
      | inl e ↦ rw e h
      | inr e ↦
          rw e (deliver-distinct c o s new dual (λ n. long-real s.events (ground (arith, e, n))) h)
    ]

if-distinct :
    (b : Bool) (s t : Common)
    → distinct s.channels ≡ true
    → distinct t.channels ≡ true
    → distinct (if b then s else t).channels ≡ true
if-distinct true s t h k = h
if-distinct false s t h k = k

-- The part of `usbParseEvent` after the test for space.
saved-distinct :
    (c : Setup) (o : Outside) (e : Event) (s : Common)
    → (c.protocol == 4) ≡ false
    → c.dual ≡ true
    → distinct s.channels ≡ true
    → distinct (collect c o e s).channels ≡ true
unfolding collect
saved-distinct c o (key k v) s new dual h = h
saved-distinct c o (abs a v) s new dual h = h
saved-distinct c o (rel_wheel v) s new dual h = h
saved-distinct c o (msc_serial n) s new dual h =
    let t = record s { events = s.events ++ (msc_serial n ∷ []); last_serial = n } in
    if-distinct s.syn_reports t (end_record c o t) h (end_record-distinct c o t new dual h)
saved-distinct c o sync s new dual h =
    let t = record s { events = s.events ++ (sync ∷ []); syn_reports = true } in
    end_record-distinct c o t new dual h

parse_event-distinct :
    (c : Setup) (o : Outside) (e : Event) (s : Common)
    → (c.protocol == 4) ≡ false
    → c.dual ≡ true
    → distinct s.channels ≡ true
    → distinct (parse_event c o e s).channels ≡ true
unfolding parse_event
parse_event-distinct c o e s new dual h = elim (Bool-cases (leb max_usb_events (length s.events))) [
  | inl full ↦ rw full h
  | inr free ↦ rw free (saved-distinct c o e s new dual h)
]

-- On a tablet with dual input of protocol 5, whatever events arrive and whatever the kernel answers, no
-- two channels ever have tools in proximity with the same serial number, if at first none have.
pub run-distinct :
    (c : Setup) (es : List (Outside × Event)) (s : Common)
    → (c.protocol == 4) ≡ false
    → c.dual ≡ true
    → distinct s.channels ≡ true
    → distinct (run c es s).channels ≡ true
unfolding run
run-distinct c [] s new dual h = h
run-distinct c ((o, e) ∷ es) s new dual h =
    run-distinct c es (parse_event c o e s) new dual (parse_event-distinct c o e s new dual h)
