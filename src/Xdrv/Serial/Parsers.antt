-- ===== src/Xdrv/Serial/Parsers.antt =====
-- The parsers of src/xdrv/wcmSerial.c in the loop of `xf86WcmReadPacket` (src/xdrv/xf86Wacom.c).
use linuxwacom.Prelude.{
  ℕ, suc, ◌≤◌, ◌==◌, ◌≡◌, true, List, ◌++◌, length, Option, if◌then◌else◌, arith, bit_and,
}
use linuxwacom.Xdrv.Events.{DeviceState}
use linuxwacom.Xdrv.Serial.Read.{byte, is_header, checked, read_loop}
use linuxwacom.Xdrv.Serial.Port.{Tablet, Server, Port, event, soft_out}
use linuxwacom.Xdrv.Serial.Protocol4.{
  p4_common, p4_packet, pressure7, pressure8, pressure9, wheel, parse_graphire, parse_cintiq,
  parse_protocol4,
}
use linuxwacom.Xdrv.Serial.Protocol5
use linuxwacom.Xdrv.Serial.Reads.{KeepsLength}
use linuxwacom.Xdrv.Serial.Resync.{Quiet, resync_fuel}

p4_packet-length :
    (t : Tablet) (v : Server) (n : ℕ) (f : DeviceState → DeviceState) (d : List ℕ) (p : Port)
    → (p4_packet t v n f d p).0.pkt_length ≡ p.pkt_length
unfolding p4_packet p4_common soft_out event
p4_packet-length t v n f d p = ground arith

packet-length :
    (v : Server) (c : ℕ) (d : List ℕ) (p : Port)
    → (Protocol5.packet v c d p).pkt_length ≡ p.pkt_length
unfolding Protocol5.packet event
packet-length v c d p = ground arith

-- The loop of a read with a parser, on the bytes of the buffer.
abbrev pub reads : (List ℕ → Port → Port × ℕ) → List ℕ → Port → Option (Port × List ℕ)
reads parse bs p = read_loop (λ q. q.pkt_length) parse (suc (length bs)) bs p

-- The bytes before the next header are skipped, and leave no trace.
abbrev Resyncs : (List ℕ → Port → Port × ℕ) → List ℕ → List ℕ → Port → Type 0
Resyncs parse junk rest p = reads parse (junk ++ rest) p ≡ reads parse rest p

checked-KeepsLength :
    (packet : List ℕ → Port → Port × ℕ)
    → ((d : List ℕ) (p : Port) → (packet d p).0.pkt_length ≡ p.pkt_length)
    → KeepsLength (λ q. q.pkt_length) (checked (λ q. q.pkt_length) packet)
checked-KeepsLength packet same d p one = ground (arith, same d p, one)

resync_checked :
    (packet : List ℕ → Port → Port × ℕ) (junk rest : List ℕ) (p : Port)
    → ((d : List ℕ) (q : Port) → (packet d q).0.pkt_length ≡ q.pkt_length)
    → 1 ≤ p.pkt_length
    → p.pkt_length ≤ length rest
    → Quiet junk
    → is_header (byte rest 0) ≡ true
    → Resyncs (checked (λ q. q.pkt_length) packet) junk rest p
resync_checked packet junk rest p same one room q head =
    resync_fuel (λ q. q.pkt_length) packet (length junk) junk rest p
      (checked-KeepsLength packet same) one room (omega arith) q head

-- Any bytes without the header bit before the header of a packet, at least as many bytes as a packet
-- has: the read has the effect of one without those bytes. This holds of the parsers of the Graphire,
-- the Cintiq, protocol IV and protocol V.
pub parsers-resync :
    (t : Tablet) (v : Server) (junk rest : List ℕ) (p : Port)
    → 1 ≤ p.pkt_length
    → p.pkt_length ≤ length rest
    → Quiet junk
    → is_header (byte rest 0) ≡ true
    → Resyncs (parse_graphire t v) junk rest p
      × Resyncs (parse_cintiq t v) junk rest p
      × Resyncs (parse_protocol4 t v) junk rest p
      × Resyncs (Protocol5.parse v) junk rest p
unfolding parse_graphire parse_cintiq parse_protocol4 Protocol5.parse
parsers-resync t v junk rest p one room q head =
    let same = p4_packet-length t v in
    (
      resync_checked _ junk rest p (λ d. same (pressure9 d) (wheel d) d) one room q head,
      resync_checked _ junk rest p
          (λ d. same (if t.max_z == 255 then pressure8 d else pressure9 d) (λ ds. ds) d) one room q
          head,
      resync_checked _ junk rest p
          (λ d. same (if t.max_z == 255 then pressure8 d else pressure7 d) (λ ds. ds) d) one room q
          head,
      resync_checked _ junk rest p (λ d q. packet-length v (bit_and (byte d 0) 1) d q) one room q
          head,
    )
