-- ===== src/Xdrv/Usb/Records.antt =====
-- `usbParseEvent` (src/xdrv/wcmUSB.c) works record by record, and its queue stays within its array.
use linuxwacom.Prelude.{
  ℕ, zero, suc, ◌+◌, ◌≤◌, ◌<◌, leb, ◌==◌, ◌≡◌, refl, ap, ◌∙◌, Bool, true, false, List, [], ◌∷◌,
  ◌++◌, length, length-++, arith, All, Bool-cases, inl, inr, not, nonzero, ◌&&◌,
}
use linuxwacom.Prelude.Int.{ℤ, pos, negsuc}
use linuxwacom.Input.{Event, key, abs, rel_wheel, msc_serial, sync}
use linuxwacom.Xdrv.Usb.State.{
  Setup, Outside, Common, max_channels, max_usb_events, xf86_wcm_event, put, no_serial,
}
use linuxwacom.Xdrv.Usb.Channel.{next_state, hand_on, parse_channel}
use linuxwacom.Xdrv.Usb.Queue.{
  route, enter_channel, force_out, deliver, choose_channel, end_record, collect, parse_event, run,
}

length-snoc : (es : List Event) (e : Event) → length (es ++ (e ∷ [])) ≡ length es + 1
length-snoc es e = length-++ es (e ∷ [])

snoc-++ : (q : List Event) (e : Event) (es : List Event) → (q ++ (e ∷ [])) ++ es ≡ q ++ (e ∷ es)
snoc-++ [] e es = refl
snoc-++ (x ∷ q) e es = ap (λ t. x ∷ t) (snoc-++ q e es)

++-nil : (q : List Event) → q ++ [] ≡ q
++-nil [] = refl
++-nil (x ∷ q) = ap (λ t. x ∷ t) (++-nil q)

end_record-empty : (c : Setup) (o : Outside) (s : Common) → (end_record c o s).events ≡ []
unfolding end_record
end_record-empty c o s = ground arith

end_record-length : (c : Setup) (o : Outside) (s : Common) → length (end_record c o s).events ≡ 0
end_record-length c o s = ap length (end_record-empty c o s)

parse_event-length :
    (c : Setup) (o : Outside) (e : Event) (s : Common)
    → length s.events ≤ max_usb_events
    → length (parse_event c o e s).events ≤ max_usb_events
unfolding parse_event collect
parse_event-length c o (key k v) s h = ground (arith, length-snoc s.events (key k v))
parse_event-length c o (abs a v) s h = ground (arith, length-snoc s.events (abs a v))
parse_event-length c o (rel_wheel v) s h = ground (arith, length-snoc s.events (rel_wheel v))
parse_event-length c o (msc_serial n) s h = ground (
  arith,
  length-snoc s.events (msc_serial n),
  end_record-length c o (record s { events = s.events ++ (msc_serial n ∷ []); last_serial = n }),
)
parse_event-length c o sync s h = ground (
  arith,
  end_record-length c o (record s { events = s.events ++ (sync ∷ []); syn_reports = true }),
)

-- The queue never outgrows its array of 32 events, whatever events arrive.
pub run-length :
    (c : Setup) (es : List (Outside × Event)) (s : Common)
    → length s.events ≤ max_usb_events
    → length (run c es s).events ≤ max_usb_events
unfolding run
run-length c [] s h = h
run-length c ((o, e) ∷ es) s h =
    run-length c es (parse_event c o e s) (parse_event-length c o e s h)

abbrev pub is_sync : Event → Bool
is_sync sync = true
is_sync _ = false

-- The serial number that is last after the events.
abbrev pub serial_after : List Event → ℕ → ℕ
serial_after [] n = n
serial_after (msc_serial m ∷ es) n = serial_after es m
serial_after (key _ _ ∷ es) n = serial_after es n
serial_after (abs _ _ ∷ es) n = serial_after es n
serial_after (rel_wheel _ ∷ es) n = serial_after es n
serial_after (sync ∷ es) n = serial_after es n

serial_after-step :
    (e : Event) (es : List Event) (n : ℕ)
    → serial_after es (serial_after (e ∷ []) n) ≡ serial_after (e ∷ es) n
serial_after-step e es n = ground arith

-- A record: the events before its synchronisation, and what is outside at its time.
abbrev pub Record : Type 0
Record = List Event × Outside

-- A record that fits into the queue.
abbrev pub IsRecord : Record → Type 0
IsRecord (es, o) = All (λ e. is_sync e ≡ false) es × (length es < max_usb_events)

abbrev pub tag : Outside → List Event → List (Outside × Event)
tag o [] = (o, sync) ∷ []
tag o (e ∷ es) = (o, e) ∷ tag o es

abbrev pub events_of : List Record → List (Outside × Event)
events_of [] = []
events_of ((es, o) ∷ rs) = tag o es ++ events_of rs

-- All the events of a record at once.
abbrev pub take_record : Setup → Record → Common → Common
take_record c (es, o) s =
    end_record c o
      (record s { events = es ++ (sync ∷ []); last_serial = serial_after es s.last_serial })

abbrev pub take_records : Setup → List Record → Common → Common
take_records c [] s = s
take_records c (r ∷ rs) s = take_records c rs (take_record c r s)

full-false : (n : ℕ) → n < max_usb_events → leb max_usb_events n ≡ false
full-false n h = ground arith

collected :
    (c : Setup) (o : Outside) (e : Event) (s : Common)
    → s.syn_reports ≡ true
    → is_sync e ≡ false
    → length s.events < max_usb_events
    → parse_event c o e s ≡ record s {
      events = s.events ++ (e ∷ []);
      last_serial = serial_after (e ∷ []) s.last_serial;
    }
unfolding parse_event collect
collected c o (key k v) s on quiet h = rw (full-false (length s.events) h) refl
collected c o (abs a v) s on quiet h = rw (full-false (length s.events) h) refl
collected c o (rel_wheel v) s on quiet h = rw (full-false (length s.events) h) refl
collected c o (msc_serial n) s on quiet h = rw (full-false (length s.events) h, on) refl
collected c o sync s on quiet h = absurd (ground (arith, quiet))

ended :
    (c : Setup) (o : Outside) (s : Common)
    → s.syn_reports ≡ true
    → length s.events < max_usb_events
    → parse_event c o sync s ≡ end_record c o (record s { events = s.events ++ (sync ∷ []) })
unfolding parse_event collect
ended c o s on h = rw (full-false (length s.events) h, on) refl

run-tag :
    (c : Setup) (o : Outside) (es : List Event) (rest : List (Outside × Event)) (s : Common)
    → s.syn_reports ≡ true
    → All (λ e. is_sync e ≡ false) es
    → length s.events + length es < max_usb_events
    → run c (tag o es ++ rest) s
      ≡ run c rest (
          end_record c o (record s {
            events = s.events ++ (es ++ (sync ∷ []));
            last_serial = serial_after es s.last_serial;
          }))
unfolding run
run-tag c o [] rest s on quiet h = ap (run c rest) (ended c o s on (omega arith))
run-tag c o (e ∷ es) rest s on quiet h =
    let t = record s {
      events = s.events ++ (e ∷ []);
      last_serial = serial_after (e ∷ []) s.last_serial;
    } in
    let room : length s.events < max_usb_events = omega arith in
    let later = run-tag c o es rest t on quiet.1 (omega (arith, length-snoc s.events e)) in
    ap (run c (tag o es ++ rest)) (collected c o e s on quiet.0 room)
    ∙ later
    ∙ rw (snoc-++ s.events e (es ++ (sync ∷ [])), serial_after-step e es s.last_serial) refl

-- The mode that ends records by synchronisations stays.

hand_on-ready :
    (c : Setup) (o : Outside) (n : ℕ) (s : Common) → (hand_on c o n s).syn_reports ≡ s.syn_reports
unfolding hand_on xf86_wcm_event
hand_on-ready c o n s = ground arith

parse_channel-ready :
    (c : Setup) (o : Outside) (n : ℕ) (s : Common)
    → (parse_channel c o n s).syn_reports ≡ s.syn_reports
unfolding parse_channel
parse_channel-ready c o n s =
    let made = next_state c o s (s.channels n) in
    ground (arith, hand_on-ready c o n (put n made.0 s))

force_out-ready :
    (o : Outside) (k i : ℕ) (s : Common) → (force_out o k i s).syn_reports ≡ s.syn_reports
unfolding force_out xf86_wcm_event
force_out-ready o zero i s = refl
force_out-ready o (suc k) i s =
    let ds = (s.channels i).work in
    let gone = nonzero ds.proximity && not (ds.serial_num == no_serial) in
    elim (Bool-cases gone) [
      | inl e ↦
          rw e (
            force_out-ready o k (i + 1)
              (xf86_wcm_event o i (put i (record ds { proximity = 0 }) s)))
      | inr e ↦ rw e (force_out-ready o k (i + 1) s)
    ]

choose_channel-ready :
    (c : Setup) (o : Outside) (s : Common) → (choose_channel c o s).0.syn_reports ≡ s.syn_reports
unfolding choose_channel
choose_channel-ready c o s = ground (arith, force_out-ready o max_channels 0 s)

enter_channel-ready : (n : ℕ) (s : Common) → (enter_channel n s).syn_reports ≡ s.syn_reports
unfolding enter_channel
enter_channel-ready n s = ground arith

route-ready :
    (c : Setup) (o : Outside) (channel : ℤ) (s : Common)
    → (route c o channel s).syn_reports ≡ s.syn_reports
unfolding route
route-ready c o (negsuc k) s = refl
route-ready c o (pos n) s = parse_channel-ready c o n (enter_channel n s) ∙ enter_channel-ready n s

deliver-ready : (c : Setup) (o : Outside) (s : Common) → (deliver c o s).syn_reports ≡ s.syn_reports
unfolding deliver
deliver-ready c o s =
    let (t, channel) = choose_channel c o s in
    route-ready c o channel t ∙ choose_channel-ready c o s

end_record-ready :
    (c : Setup) (o : Outside) (s : Common) → (end_record c o s).syn_reports ≡ s.syn_reports
unfolding end_record
end_record-ready c o s = ground (arith, deliver-ready c o s)

-- A queue that is ready for a record: empty, and the synchronisation ends a record.
abbrev pub IsReady : Common → Type 0
IsReady s = (s.events ≡ []) × (s.syn_reports ≡ true)

-- Once the synchronisations end the records, the events of any records that each fit into the queue
-- have the effect of the records, each taken as a whole with its last serial number.
pub run-records :
    (c : Setup) (rs : List Record) (s : Common)
    → All IsRecord rs
    → IsReady s
    → run c (events_of rs) s ≡ take_records c rs s
unfolding run
run-records c [] s fits ready = refl
run-records c ((es, o) ∷ rs) s fits ready =
    let (quiet, room) = fits.0 in
    let none_yet : length s.events ≡ 0 = ap length ready.0 in
    let t = record s { events = es ++ (sync ∷ []); last_serial = serial_after es s.last_serial } in
    run-tag c o es (events_of rs) s ready.1 quiet (omega (arith, none_yet))
    ∙ rw (ready.0) (
        run-records c rs (end_record c o t) fits.1
          (end_record-empty c o t, end_record-ready c o t ∙ ready.1))
