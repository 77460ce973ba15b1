-- ===== src/Xdrv/Serial/Reads.antt =====
-- The loop of `xf86WcmReadPacket` (src/xdrv/xf86Wacom.c) ends, whatever the parser does.
use linuxwacom.Prelude.{
  ℕ, zero, suc, ◌-◌, ◌≤◌, ◌<◌, ◌==◌, ◌≡◌, refl, Bool, true, false, leb, List, [], ◌∷◌, ◌++◌, length,
  length-++, Option, none, some, arith, Bool-cases, inl, inr,
}
use linuxwacom.Xdrv.Serial.Read.{drop, read_loop, read_packet}

pub length-drop : (n : ℕ) (bs : List ℕ) → length (drop n bs) ≡ length bs - n
unfolding drop
length-drop zero bs = omega arith
length-drop (suc n) [] = omega arith
length-drop (suc n) (b ∷ bs) = omega (arith, length-drop n bs)

module _ {ℓ} {S : Type ℓ} (length_of : S → ℕ) (parse : List ℕ → S → S × ℕ) where
  -- A result that leaves over at most `n` bytes.
  abbrev pub leaves : ℕ → Option (S × List ℕ) → Bool
  leaves n none = false
  leaves n (some (s, bs)) = leb (length bs) n

  leaves-le : (m n : ℕ) (r : Option (S × List ℕ)) → m ≤ n → leaves m r ≡ true → leaves n r ≡ true
  leaves-le m n none h l = l
  leaves-le m n (some (s, bs)) h l = ground (arith, l)

  -- The parser keeps the length of a packet above 0.
  abbrev pub KeepsLength : Type ℓ
  KeepsLength = (bs : List ℕ) (s : S) → 1 ≤ length_of s → 1 ≤ length_of (parse bs s).0

  leb_refl : (n : ℕ) → leb n n ≡ true
  leb_refl n = ground arith

  -- A step of the loop, on what is left of a packet that the parser is done with.
  shorter :
      (bs : List ℕ) (s : S) (count fuel : ℕ)
      → 1 ≤ length_of s
      → leb (length_of s) (length bs) ≡ true
      → (count == 0) ≡ false
      → length bs < suc fuel
      → length (drop count bs) < fuel
  shorter bs s count fuel one room more h = ground (arith, length-drop count bs, one, room, more, h)

  read_loop-leaves :
      (fuel : ℕ) (bs : List ℕ) (s : S)
      → KeepsLength
      → 1 ≤ length_of s
      → length bs < fuel
      → leaves (length bs) (read_loop length_of parse fuel bs s) ≡ true
  unfolding read_loop
  read_loop-leaves zero bs s keeps one h = absurd (omega arith)
  read_loop-leaves (suc fuel) bs s keeps one h =
      let (s', count) = parse bs s in
      let left = drop count bs in
      elim (Bool-cases (leb (length_of s) (length bs))) [
        | inr short ↦ rw short (leb_refl (length bs))
        | inl room ↦ elim (Bool-cases (count == 0)) [
          | inl done ↦ rw (room, done) (leb_refl (length bs))
          | inr more ↦
              rw (room, more)
                (leaves-le (length left) (length bs) (read_loop length_of parse fuel left s')
                  (omega (arith, length-drop count bs))
                  (read_loop-leaves fuel left s' keeps (keeps bs s one)
                    (shorter bs s count fuel one room more h)))
        ]
      ]

  -- More fuel than there are bytes changes nothing.
  pub read_loop-fuel :
      (fuel spare : ℕ) (bs : List ℕ) (s : S)
      → KeepsLength
      → 1 ≤ length_of s
      → length bs < fuel
      → length bs < spare
      → read_loop length_of parse fuel bs s ≡ read_loop length_of parse spare bs s
  unfolding read_loop
  read_loop-fuel zero spare bs s keeps one h k = absurd (omega arith)
  read_loop-fuel (suc fuel) zero bs s keeps one h k = absurd (omega arith)
  read_loop-fuel (suc fuel) (suc spare) bs s keeps one h k =
      let (s', count) = parse bs s in
      let left = drop count bs in
      elim (Bool-cases (leb (length_of s) (length bs))) [
        | inr short ↦ rw short refl
        | inl room ↦ elim (Bool-cases (count == 0)) [
          | inl done ↦ rw (room, done) refl
          | inr more ↦
              rw (room, more)
                (read_loop-fuel fuel spare left s' keeps (keeps bs s one)
                  (shorter bs s count fuel one room more h)
                  (shorter bs s count spare one room more k))
        ]
      ]

  -- With any parser that keeps the length of a packet above 0, a read ends with a result, and leaves
  -- over no more bytes than were there.
  pub read_packet-leaves :
      (new buffer : List ℕ) (s : S)
      → KeepsLength
      → 1 ≤ length_of s
      → leaves (length (buffer ++ new)) (read_packet length_of parse new buffer s) ≡ true
  unfolding read_packet
  read_packet-leaves [] buffer s keeps one =
      leaves-le (length buffer) (length (buffer ++ [])) (some (s, buffer))
        (omega (arith, length-++ buffer [])) (leb_refl (length buffer))
  read_packet-leaves (b ∷ bs) buffer s keeps one =
      read_loop-leaves (suc (length (buffer ++ (b ∷ bs)))) (buffer ++ (b ∷ bs)) s keeps one
        (omega arith)
