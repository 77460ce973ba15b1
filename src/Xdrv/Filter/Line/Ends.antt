-- ===== src/Xdrv/Filter/Line/Ends.antt =====
-- What `filterLine` does to the entries of the curve.
use linuxwacom.Prelude.{
  ℕ, zero, suc, ◌+◌, ◌<◌, ◌≤◌, ◌≡◌, refl, Bool, true, false, ◌&&◌, ◌||◌, ltb, leb, some, Bool-cases,
  inl, inr, arith, ◌∙◌,
}
use linuxwacom.Prelude.Int.{ℤ, pos, negsuc}
use linuxwacom.Wacom.{same_int}
use linuxwacom.Xdrv.Filter.Line.{Curve, put, put_turned, filter_line}
use linuxwacom.Xdrv.Filter.Line.Rounded.{
  toward, distance, aside, aside-le, aside-eq, aside-start, dot, draw, line, filter_line-line,
}

-- An entry of the array is one of a column between `a` and `b`.
abbrev pub is_between : ℕ → ℕ → ℤ → Bool
is_between a b (negsuc n) = false
is_between a b (pos k) = leb a k && leb k b || leb b k && leb k a

aside_within : (D E i : ℕ) → E ≤ D → i ≤ D → aside D E i ≤ E
aside_within zero E i le h =
    let start : i ≡ 0 = omega arith in rw (start, aside-start 0 E) (omega arith)
aside_within (suc D) E i le h = aside-le (suc D) E i (omega arith) h

aside-last : (D E : ℕ) → E ≤ D → aside D E D ≡ E
aside-last zero E le = omega (arith, aside-start 0 E, le)
aside-last (suc D) E le = aside-eq (suc D) E (suc D) E (omega arith) (omega arith)

toward-last : (a b : ℕ) → toward a b (distance a b) ≡ b
unfolding toward distance
toward-last a b = ground arith

toward-between : (a b i : ℕ) → i ≤ distance a b → is_between a b (pos (toward a b i)) ≡ true
unfolding toward distance
toward-between a b i h = ground (arith, h)

toward-other :
    (a b i j : ℕ)
    → i < j
    → j ≤ distance a b
    → same_int (pos (toward a b i)) (pos (toward a b j)) ≡ false
unfolding toward distance
toward-other a b i j lt h = ground (arith, lt, h)

put-other :
    (a b n : ℕ) (y k : ℤ) (c : Curve)
    → is_between a b (pos n) ≡ true
    → is_between a b k ≡ false
    → put (pos n) y c k ≡ c k
unfolding put
put-other a b n y (pos k) c at off = ground (arith, at, off)
put-other a b n y (negsuc k) c at off = ground arith

put_self : (x y : ℤ) (c : Curve) → put x y c x ≡ y
unfolding put
put_self x y c = ground arith

module _ (write : ℤ → ℤ → Curve → Curve) (m0 m1 n0 n1 : ℕ) where
  -- An entry that no point of the line changes stays.
  draw-other :
      (k : ℤ)
      → ((j : ℕ) (c : Curve) → j ≤ distance m0 m1 → dot write m0 m1 n0 n1 j c k ≡ c k)
      → (r i : ℕ) (c : Curve) → i + r ≡ distance m0 m1
      → draw write m0 m1 n0 n1 r i c k ≡ c k
  unfolding draw
  draw-other k other zero i c e = other i c (omega arith)
  draw-other k other (suc r) i c e =
      draw-other k other r (i + 1) (dot write m0 m1 n0 n1 i c) (omega arith)
      ∙ other i c (omega arith)

  -- The last point is drawn last.
  draw-last :
      (r i : ℕ) (c : Curve)
      → i + r ≡ distance m0 m1
      → (c' : Curve) × (draw write m0 m1 n0 n1 r i c ≡ dot write m0 m1 n0 n1 (distance m0 m1) c')
  unfolding draw
  draw-last zero i c e = let here : i ≡ distance m0 m1 = omega arith in (c, rw here refl)
  draw-last (suc r) i c e = draw-last r (i + 1) (dot write m0 m1 n0 n1 i c) (omega arith)

dot-last :
    (write : ℤ → ℤ → Curve → Curve) (m0 m1 n0 n1 : ℕ) (c : Curve)
    → distance n0 n1 ≤ distance m0 m1
    → dot write m0 m1 n0 n1 (distance m0 m1) c ≡ write (pos m1) (pos n1) c
unfolding dot
dot-last write m0 m1 n0 n1 c le =
    rw (toward-last m0 m1, aside-last (distance m0 m1) (distance n0 n1) le, toward-last n0 n1) refl

drawn-last :
    (write : ℤ → ℤ → Curve → Curve) (m0 m1 n0 n1 : ℕ) (curve : Curve) (k v : ℤ)
    → distance n0 n1 ≤ distance m0 m1
    → ((c : Curve) → write (pos m1) (pos n1) c k ≡ v)
    → draw write m0 m1 n0 n1 (distance m0 m1) 0 curve k ≡ v
drawn-last write m0 m1 n0 n1 curve k v le written =
    let (c, e) = draw-last write m0 m1 n0 n1 (distance m0 m1) 0 curve (omega arith) in
    rw (e, dot-last write m0 m1 n0 n1 c le) (written c)

line-last : (curve : Curve) (x0 y0 x1 y1 : ℕ) → line curve x0 y0 x1 y1 (pos x1) ≡ pos y1
unfolding line
line-last curve x0 y0 x1 y1 = elim (Bool-cases (ltb (distance y0 y1) (distance x0 x1))) [
  | inl flat ↦ rw flat (
      drawn-last put x0 x1 y0 y1 curve (pos x1) (pos y1) (ground (arith, flat))
        (λ c. put_self (pos x1) (pos y1) c))
  | inr steep ↦ rw steep (
      drawn-last put_turned y0 y1 x0 x1 curve (pos x1) (pos y1) (ground (arith, steep))
        (λ c. put_self (pos x1) (pos y1) c))
]

line-other :
    (curve : Curve) (x0 y0 x1 y1 : ℕ) (k : ℤ)
    → is_between x0 x1 k ≡ false
    → line curve x0 y0 x1 y1 k ≡ curve k
unfolding line dot
line-other curve x0 y0 x1 y1 k off = elim (Bool-cases (ltb (distance y0 y1) (distance x0 x1))) [
  | inl flat ↦ rw flat (
      draw-other put x0 x1 y0 y1 k
        (λ j c le.
          put-other x0 x1 (toward x0 x1 j)
            (pos (toward y0 y1 (aside (distance x0 x1) (distance y0 y1) j))) k c
            (toward-between x0 x1 j le) off)
        (distance x0 x1) 0 curve (omega arith))
  | inr steep ↦ rw steep (
      draw-other put_turned y0 y1 x0 x1 k
        (λ j c le.
          put-other x0 x1 (toward x0 x1 (aside (distance y0 y1) (distance x0 x1) j))
            (pos (toward y0 y1 j)) k c
            (toward-between x0 x1 (aside (distance y0 y1) (distance x0 x1) j)
              (aside_within (distance y0 y1) (distance x0 x1) j (ground (arith, steep)) le))
            off)
        (distance y0 y1) 0 curve (omega arith))
]

-- Between points within the range `filterLine` ends; it has set the column of the last point to its
-- row, and has changed no entry but of the columns between both points.
pub filter_line-ends :
    (curve : Curve) (max x0 y0 x1 y1 : ℕ)
    → x0 ≤ max
    → y0 ≤ max
    → x1 ≤ max
    → y1 ≤ max
    → (c : Curve) × (filter_line curve max (pos x0) (pos y0) (pos x1) (pos y1) ≡ some c)
      × (c (pos x1) ≡ pos y1)
      × ((k : ℤ) → is_between x0 x1 k ≡ false → c k ≡ curve k)
filter_line-ends curve max x0 y0 x1 y1 hx0 hy0 hx1 hy1 = (
  line curve x0 y0 x1 y1,
  filter_line-line curve max x0 y0 x1 y1 hx0 hy0 hx1 hy1,
  line-last curve x0 y0 x1 y1,
  line-other curve x0 y0 x1 y1,
)
