-- ===== src/Xdrv/Serial/Read.antt =====
-- `xf86WcmReadPacket` (src/xdrv/xf86Wacom.c): the bytes from the device are cut to packets.
-- `xf86WcmSerialValidate` (src/xdrv/wcmSerial.c): where a packet may start.
use linuxwacom.Prelude.{
  ℕ, zero, suc, ◌+◌, ◌==◌, Bool, false, not, ◌&&◌, ◌||◌, leb, List, [], ◌∷◌, ◌++◌, length, Option,
  none, some, if◌then◌else◌, has, nonzero,
}

-- `buffer + n`
unfoldable pub drop : ℕ → List ℕ → List ℕ
drop zero bs = bs
drop (suc n) [] = []
drop (suc n) (b ∷ bs) = drop n bs

-- `data[i]`, 0 behind the bytes.
unfoldable pub byte : List ℕ → ℕ → ℕ
byte [] i = 0
byte (b ∷ bs) zero = b
byte (b ∷ bs) (suc i) = byte bs i

-- HEADER_BIT
abbrev pub is_header : ℕ → Bool
is_header b = has b 0x80

-- The loop of `xf86WcmSerialValidate` over `n` bytes from the index `i` on, in a packet of `len`.
unfoldable pub validate_from : ℕ → ℕ → Bool → ℕ → List ℕ → ℕ
validate_from zero i bad len d = if bad then len else 0
validate_from (suc n) i bad len d =
    let header = is_header (byte d i) in
    let rest = validate_from n (i + 1) (bad || (i == 0 && not header)) len d in
    if not (i == 0) && header then i else rest

unfoldable pub validate : ℕ → List ℕ → ℕ
validate len d = validate_from len 0 false len d

-- `if ((n = xf86WcmSerialValidate(common,data)) > 0) return n;` in front of what is done to a packet.
abbrev pub checked {ℓ} : {S : Type ℓ} → (S → ℕ) → (List ℕ → S → S × ℕ) → List ℕ → S → S × ℕ
checked length_of packet d s =
    let skip = validate (length_of s) d in if nonzero skip then (s, skip) else packet d s

-- `Parse` of a model: the number of bytes that it is done with (0 or less of C is 0 here), of the bytes
-- from the position on. `length_of` is `wcmPktLength`, which a parser may change.
module _ {ℓ} {S : Type ℓ} (length_of : S → ℕ) (parse : List ℕ → S → S × ℕ) where
  -- The loop over the packets; `none` is out of fuel.
  unfoldable pub read_loop : ℕ → List ℕ → S → Option (S × List ℕ)
  read_loop zero bs s = none
  read_loop (suc fuel) bs s =
      let (s', count) = parse bs s in
      let rest = read_loop fuel (drop count bs) s' in
      if leb (length_of s) (length bs)
      then (if count == 0 then some (s', bs) else rest)
      else some (s, bs)

  -- `xf86WcmReadPacket`, where the read gives the bytes `new` (none, if it fails), and `buffer` is what
  -- was left over.
  unfoldable pub read_packet : List ℕ → List ℕ → S → Option (S × List ℕ)
  read_packet [] buffer s = some (s, buffer)
  read_packet (b ∷ bs) buffer s =
      let bytes = buffer ++ (b ∷ bs) in read_loop (suc (length bytes)) bytes s
