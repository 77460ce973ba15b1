-- ===== src/Sys/Hid/Within.antt =====
-- The parser does not read behind a descriptor.
use linuxwacom.Prelude.{
  ℕ, zero, suc, ◌+◌, ◌*◌, ◌<◌, ◌≤◌, ◌≡◌, refl, ◌==◌, Bool, true, false, ◌||◌, List, [], ◌∷◌, length,
  Option, none, some, arith, Bool-cases, inl, inr,
}
use linuxwacom.Wacom.{Kind}
use linuxwacom.Sys.Hid.{
  ◌>>=◌, Reading, byte_at, le16_at, touch_x, touch_y, pen_x, pen_y, usage_x, usage_y,
  usage_undefined, usage, item_of, parse,
}

abbrev pub is_some {ℓ} : {A : Type ℓ} → Option A → Bool
is_some none = false
is_some (some _) = true

-- Behind each byte that is the mark of a page or of a usage there are at least 11 bytes.
abbrev pub Fits : List ℕ → Type 0
Fits [] = ◌≡◌ {A = ℕ} 0 0
Fits (b ∷ bs) = ((b == 0x05 || b == 0x09) ≡ true → 11 ≤ length bs) × Fits bs

abbrev nth : List ℕ → ℕ → ℕ
nth [] d = 0
nth (b ∷ bs) zero = b
nth (b ∷ bs) (suc d) = nth bs d

byte_at-nth : (bs : List ℕ) (d : ℕ) → d < length bs → byte_at bs d ≡ some (nth bs d)
unfolding byte_at
byte_at-nth [] d h = absurd (omega arith)
byte_at-nth (b ∷ bs) zero h = refl
byte_at-nth (b ∷ bs) (suc d) h = byte_at-nth bs d (omega arith)

le16_at-nth :
    (bs : List ℕ) (d : ℕ)
    → d + 1 < length bs
    → le16_at bs d ≡ some (nth bs d + 256 * nth bs (d + 1))
unfolding le16_at
le16_at-nth bs d h = rw (byte_at-nth bs d (omega arith), byte_at-nth bs (d + 1) h) refl

module _ (k : Kind) (bs : List ℕ) (long : 12 ≤ length bs) where
  at_3 : le16_at bs 3 ≡ some (nth bs 3 + 256 * nth bs 4)
  at_3 = le16_at-nth bs 3 (omega arith)

  at_6 : le16_at bs 6 ≡ some (nth bs 6 + 256 * nth bs 7)
  at_6 = le16_at-nth bs 6 (omega arith)

  touch_x-is_some : (r : Reading) → is_some (touch_x k bs r) ≡ true
  unfolding touch_x
  touch_x-is_some r =
      rw
        (
          le16_at-nth bs 5 (omega arith),
          le16_at-nth bs 8 (omega arith),
          at_3,
          at_6,
          byte_at-nth bs 9 (omega arith),
          byte_at-nth bs 11 (omega arith),
        )
        (ground arith)

  touch_y-is_some : (r : Reading) → is_some (touch_y k bs r) ≡ true
  unfolding touch_y
  touch_y-is_some r = rw (at_3, at_6) (ground arith)

  usage-is_some : (b : ℕ) (r : Reading) → is_some (usage k bs b r) ≡ true
  unfolding usage usage_x usage_y usage_undefined pen_x pen_y
  usage-is_some b r = ground (arith, at_3, touch_x-is_some r, touch_y-is_some r)

  item_of-long : (r : Reading) (b : ℕ) → is_some (item_of k bs r b) ≡ true
  unfolding item_of
  item_of-long r b =
      rw (byte_at-nth bs 1 (omega arith)) (ground (arith, usage-is_some (nth bs 1) r))

-- An item of another kind reads nothing.
item_of-other :
    (k : Kind) (bs : List ℕ) (r : Reading) (b : ℕ)
    → (b == 0x05 || b == 0x09) ≡ false
    → is_some (item_of k bs r b) ≡ true
unfolding item_of
item_of-other k bs r b h = ground (arith, h)

item_of-is_some :
    (k : Kind) (b : ℕ) (bs : List ℕ) (r : Reading)
    → Fits (b ∷ bs)
    → is_some (item_of k (b ∷ bs) r b) ≡ true
item_of-is_some k b bs r h = elim (Bool-cases (b == 0x05 || b == 0x09)) [
  | inl mark ↦ let long = h.0 mark in item_of-long k (b ∷ bs) (omega arith) r b
  | inr other ↦ item_of-other k (b ∷ bs) r b other
]

bind-is_some {ℓ κ} :
    {A : Type ℓ} {B : Type κ} (m : Option A) (f : A → Option B)
    → is_some m ≡ true
    → ((a : A) → is_some (f a) ≡ true)
    → is_some (m >>= f) ≡ true
bind-is_some none f h g = absurd (ground (arith, h))
bind-is_some (some a) f h g = g a

-- The loop ends without a read behind the descriptor, if enough bytes follow each mark.
pub parse-is_some :
    (k : Kind) (bs : List ℕ) (skip : ℕ) (r : Reading) → Fits bs → is_some (parse k bs skip r) ≡ true
unfolding parse
parse-is_some k [] skip r h = refl
parse-is_some k (b ∷ bs) (suc skip) r h = parse-is_some k bs skip r h.1
parse-is_some k (b ∷ bs) zero r h =
    bind-is_some (item_of k (b ∷ bs) r b) (λ next. parse k bs next.1 next.0)
      (item_of-is_some k b bs r h) (λ next. parse-is_some k bs next.1 next.0 h.1)
