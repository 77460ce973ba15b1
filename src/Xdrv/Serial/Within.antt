-- ===== src/Xdrv/Serial/Within.antt =====
-- How many bytes `isdv4Parse` (src/xdrv/wcmISDV4.c) says that it is done with.
use linuxwacom.Prelude.{
  ℕ, zero, suc, ◌+◌, ◌≤◌, ◌==◌, ◌≡◌, Bool, false, not, ◌&&◌, ◌||◌, leb, ltb, List, length, has,
  nonzero, arith,
}
use linuxwacom.Xdrv.Serial.Read.{byte, is_header, validate_from, validate}
use linuxwacom.Xdrv.Serial.Port.{Tablet, Server, Port}
use linuxwacom.Xdrv.Serial.Isdv4.{pkglen_tpc, touch_length, ignores_touch, let_go, complete, parse}

validate_from-le :
    (n i : ℕ) (bad : Bool) (len : ℕ) (d : List ℕ) → n + i ≤ len → validate_from n i bad len d ≤ len
unfolding validate_from
validate_from-le zero i bad len d h = ground arith
validate_from-le (suc n) i bad len d h = ground (
  arith,
  h,
  validate_from-le n (i + 1) (bad || (i == 0 && not (is_header (byte d i)))) len d (omega arith),
)

complete-within : (v : Server) (d : List ℕ) (p : Port) → (complete v d p).1 ≤ length d
unfolding complete validate
complete-within v d p =
    ground (arith, validate_from-le p.pkt_length 0 false p.pkt_length d (omega arith))

-- A touch packet that is ignored.
abbrev pub is_ignored : Tablet → List ℕ → Port → Bool
is_ignored t d p = nonzero (byte d 0) && has (byte d 0) 0x10 && ignores_touch t p

-- The parser never is done with more bytes than there are, but for one case: a touch packet that is
-- ignored and of which some bytes are still to come.
pub parse-within :
    (t : Tablet) (v : Server) (d : List ℕ) (p : Port)
    → leb (parse t v d p).1 (length d)
      ≡ not (is_ignored t d p && ltb (length d) (touch_length t.tablet_id))
unfolding parse ignores_touch
parse-within t v d p = ground (
  arith,
  complete-within v d p,
  complete-within v d (record p { pkt_length = touch_length t.tablet_id }),
  complete-within v d (let_go v (record p { pkt_length = pkglen_tpc })),
)
