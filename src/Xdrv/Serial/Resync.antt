-- ===== src/Xdrv/Serial/Resync.antt =====
-- `xf86WcmSerialValidate` (src/xdrv/wcmSerial.c) in the loop of `xf86WcmReadPacket`: after bytes that
-- belong to no packet the parsers find the next header.
use linuxwacom.Prelude.{
  ℕ, zero, suc, ◌+◌, ◌≤◌, ◌<◌, ◌==◌, ◌≡◌, refl, ◌∙◌, Bool, true, false, ◌||◌, leb, ltb, List, [],
  ◌∷◌, ◌++◌, length, length-++, Option, if◌then◌else◌, nonzero, arith, Bool-cases, inl, inr, All,
}
use linuxwacom.Xdrv.Serial.Read.{drop, byte, is_header, validate_from, validate, checked, read_loop}
use linuxwacom.Xdrv.Serial.Reads.{KeepsLength, length-drop, read_loop-fuel}

-- Behind the first byte, no header among the next bytes: the packet is as good as its first byte.
validate_from-clean :
    (n i : ℕ) (bad : Bool) (len : ℕ) (d : List ℕ)
    → 1 ≤ i
    → ((j : ℕ) → i ≤ j → j < i + n → is_header (byte d j) ≡ false)
    → validate_from n i bad len d ≡ (if bad then len else 0)
unfolding validate_from
validate_from-clean zero i bad len d one clean = refl
validate_from-clean (suc n) i bad len d one clean =
    let here = clean i (omega arith) (omega arith) in
    let inside : (i == 0) ≡ false = ground arith in
    let same : (bad || false) ≡ bad = ground arith in
    rw (inside, here, same)
      (validate_from-clean n (i + 1) bad len d (omega arith)
        (λ j lo hi. clean j (omega arith) (omega arith)))

-- Behind the first byte, the first header.
validate_from-header :
    (n i m : ℕ) (bad : Bool) (len : ℕ) (d : List ℕ)
    → 1 ≤ i
    → i ≤ m
    → m < i + n
    → ((j : ℕ) → i ≤ j → j < m → is_header (byte d j) ≡ false)
    → is_header (byte d m) ≡ true
    → validate_from n i bad len d ≡ m
unfolding validate_from
validate_from-header zero i m bad len d one le lt clean head = absurd (omega arith)
validate_from-header (suc n) i m bad len d one le lt clean head =
    let inside : (i == 0) ≡ false = ground arith in
    elim (Bool-cases (i == m)) [
      | inl e ↦
          (let same : i ≡ m = ground (arith, e) in
            let here : is_header (byte d i) ≡ true = rw same head in rw (inside, here) same)
      | inr e ↦
          (let before : i < m = ground (arith, e, le) in
            rw (inside, clean i (omega arith) before)
              (validate_from-header n (i + 1) m (bad || false) len d (omega arith) (omega arith)
                (omega arith) (λ j lo hi. clean j (omega arith) hi) head))
    ]

abbrev pub Quiet : List ℕ → Type 0
Quiet bs = All (λ b. is_header b ≡ false) bs

byte-junk :
    (junk rest : List ℕ) (j : ℕ)
    → Quiet junk
    → j < length junk
    → is_header (byte (junk ++ rest) j) ≡ false
unfolding byte
byte-junk [] rest j q h = absurd (omega arith)
byte-junk (b ∷ junk) rest zero q h = q.0
byte-junk (b ∷ junk) rest (suc j) q h = byte-junk junk rest j q.1 (omega arith)

byte-rest : (junk rest : List ℕ) → byte (junk ++ rest) (length junk) ≡ byte rest 0
unfolding byte
byte-rest [] rest = refl
byte-rest (b ∷ junk) rest = byte-rest junk rest

drop-junk :
    (n : ℕ) (junk rest : List ℕ) → n ≤ length junk → drop n (junk ++ rest) ≡ drop n junk ++ rest
unfolding drop
drop-junk zero junk rest h = refl
drop-junk (suc n) [] rest h = absurd (omega arith)
drop-junk (suc n) (b ∷ junk) rest h = drop-junk n junk rest (omega arith)

drop-Quiet : (n : ℕ) (junk : List ℕ) → Quiet junk → Quiet (drop n junk)
unfolding drop
drop-Quiet zero junk q = q
drop-Quiet (suc n) [] q = q
drop-Quiet (suc n) (b ∷ junk) q = drop-Quiet n junk q.1

-- Of bytes before a header the packet is skipped as far as they go.
pub validate-junk :
    (len : ℕ) (junk rest : List ℕ)
    → 1 ≤ len
    → 1 ≤ length junk
    → Quiet junk
    → is_header (byte rest 0) ≡ true
    → validate len (junk ++ rest) ≡ (if ltb (length junk) len then length junk else len)
unfolding validate validate_from
validate-junk zero junk rest one some_junk q head = absurd (omega arith)
validate-junk (suc n) junk rest one some_junk q head =
    let first = byte-junk junk rest 0 q (omega arith) in
    let clean : (j : ℕ) → 1 ≤ j → j < length junk → is_header (byte (junk ++ rest) j) ≡ false =
      λ j lo hi. byte-junk junk rest j q hi in
    let last : is_header (byte (junk ++ rest) (length junk)) ≡ true =
      rw (byte-rest junk rest) head in
    elim (Bool-cases (ltb (length junk) (suc n))) [
      | inl short ↦
          rw (first, short)
            (validate_from-header n 1 (length junk) true (suc n) (junk ++ rest) (omega arith)
              (omega arith) (ground (arith, short)) clean last)
      | inr long ↦
          rw (first, long)
            (validate_from-clean n 1 true (suc n) (junk ++ rest) (omega arith)
              (λ j lo hi. clean j lo (ground (arith, hi, long))))
    ]

module _ {ℓ} {S : Type ℓ} (length_of : S → ℕ) (packet : List ℕ → S → S × ℕ) where
  abbrev reads : List ℕ → S → Option (S × List ℕ)
  reads bs s = read_loop length_of (checked length_of packet) (suc (length bs)) bs s

  -- A skip of `c` bytes of junk.
  skip_junk :
      (c : ℕ) (junk rest : List ℕ) (s : S)
      → KeepsLength length_of (checked length_of packet)
      → 1 ≤ length_of s
      → length_of s ≤ length rest
      → validate (length_of s) (junk ++ rest) ≡ c
      → 1 ≤ c
      → c ≤ length junk
      → reads (junk ++ rest) s ≡ reads (drop c junk ++ rest) s
  unfolding read_loop
  skip_junk c junk rest s keeps one room skips some_skip le =
      let fits : leb (length_of s) (length (junk ++ rest)) ≡ true =
        ground (arith, length-++ junk rest, room) in
      let more : nonzero c ≡ true = ground (arith, some_skip) in
      let going : (c == 0) ≡ false = ground (arith, some_skip) in
      let left = drop c junk ++ rest in
      let fewer : length left < length (junk ++ rest) =
        omega (arith, length-++ (drop c junk) rest, length-++ junk rest, length-drop c junk) in
      rw (fits, skips, more, going, drop-junk c junk rest le)
        (read_loop-fuel length_of (checked length_of packet) (length (junk ++ rest))
          (suc (length left)) left s keeps one fewer (omega arith))

  pub resync_fuel :
      (n : ℕ) (junk rest : List ℕ) (s : S)
      → KeepsLength length_of (checked length_of packet)
      → 1 ≤ length_of s
      → length_of s ≤ length rest
      → length junk ≤ n
      → Quiet junk
      → is_header (byte rest 0) ≡ true
      → reads (junk ++ rest) s ≡ reads rest s
  resync_fuel n [] rest s keeps one room le q head = refl
  resync_fuel zero (b ∷ junk) rest s keeps one room le q head = absurd (omega arith)
  resync_fuel (suc n) (b ∷ junk) rest s keeps one room le q head =
      let size = suc (length junk) in
      let len = length_of s in
      let c = if ltb size len then size else len in
      let skips = validate-junk len (b ∷ junk) rest one (omega arith) q head in
      let some_skip : 1 ≤ c = ground (arith, one) in
      let within : c ≤ size = ground arith in
      let left = drop c (b ∷ junk) in
      skip_junk c (b ∷ junk) rest s keeps one room skips some_skip within
      ∙ resync_fuel n left rest s keeps one room
          (omega (arith, length-drop c (b ∷ junk), some_skip, within, le))
          (drop-Quiet c (b ∷ junk) q) head
