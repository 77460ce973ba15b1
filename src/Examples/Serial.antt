-- ===== src/Examples/Serial.antt =====
-- The serial protocols at concrete inputs.
use linuxwacom.Prelude.{
  ℕ, ◌≡◌, refl, arith, true, false, List, [], ◌∷◌, ◌++◌, length, not, ◌&&◌, leb, ltb,
}
use linuxwacom.Xdrv.Usb.State.{blank}
use linuxwacom.Xdrv.Serial.Read.{byte, read_packet}
use linuxwacom.Xdrv.Serial.Port.{Tablet, Server, Port}
use linuxwacom.Xdrv.Serial.Protocol4.{parse_graphire, parse_cintiq, parse_protocol4}
use linuxwacom.Xdrv.Serial.Protocol5
use linuxwacom.Xdrv.Serial.Isdv4
use linuxwacom.Xdrv.Serial.Reads.{leaves, read_packet-leaves}
use linuxwacom.Xdrv.Serial.Parsers.{reads, parsers-resync}
use linuxwacom.Xdrv.Serial.Within.{is_ignored, parse-within}

abbrev tablet : Tablet
tablet = record {
  tilt = true;
  max_tilt_x = 128;
  max_tilt_y = 128;
  max_z = 511;
  tablet_id = 0xe2;
  touch = true;
}

abbrev server : Server
server = record { time = 5; accept = λ c old new. new }

-- A pen with the identifier 2 in proximity on the first channel.
abbrev port : Port
port = record {
  pkt_length = 7;
  channels = λ i. record {
    work = record blank { proximity = 32; device_id = 2; device_type = 1 };
    valid = record blank { proximity = 32; device_id = 2; device_type = 1 };
  };
  discard_first = λ i. false;
  dispatched = [];
}

-- A pen packet of protocol IV.
abbrev pen : List ℕ
pen = 0xe0 ∷ 10 ∷ 20 ∷ 0x08 ∷ 30 ∷ 40 ∷ 50 ∷ []

-- The second half of a packet whose first half is lost.
abbrev half_packet : List ℕ
half_packet = 0x08 ∷ 30 ∷ 40 ∷ 50 ∷ []

-- A parser that takes one byte at a time.
read_packet-leaves_example :
    leaves {S = ℕ}
      (λ s. 2)
      (λ d s. (s, 1))
      (length {A = ℕ} (1 ∷ 2 ∷ 3 ∷ []))
      (read_packet (λ s. 2) (λ d s. (s, 1)) (2 ∷ 3 ∷ []) (1 ∷ []) 0)
    ≡ true
read_packet-leaves_example =
    read_packet-leaves (λ s. 2) (λ d s. (s, 1)) (2 ∷ 3 ∷ []) (1 ∷ []) 0 (λ d s h. h) (omega arith)

parsers-resync_example :
    (reads (parse_graphire tablet server) (half_packet ++ pen) port
      ≡ reads (parse_graphire tablet server) pen port)
    × (reads (parse_cintiq tablet server) (half_packet ++ pen) port
        ≡ reads (parse_cintiq tablet server) pen port)
    × (reads (parse_protocol4 tablet server) (half_packet ++ pen) port
        ≡ reads (parse_protocol4 tablet server) pen port)
    × (reads (Protocol5.parse server) (half_packet ++ pen) port
        ≡ reads (Protocol5.parse server) pen port)
unfolding byte
parsers-resync_example =
    parsers-resync tablet server half_packet pen port (omega arith) (omega arith) (ground arith)
      refl

-- Two bytes of a touch packet of thirteen, while the pen is near.
parse-within_example :
    leb (Isdv4.parse tablet server (0x11 ∷ 5 ∷ []) port).1 2
    ≡ not (is_ignored tablet (0x11 ∷ 5 ∷ []) port && ltb 2 (Isdv4.touch_length 0xe2))
parse-within_example = parse-within tablet server (0x11 ∷ 5 ∷ []) port
