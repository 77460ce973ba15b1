-- ===== src/Xdrv/Filter/Line/Rounded.antt =====
-- The points of a line, and that both loops of `filterLine` draw them.
use mathlib.Core.Path.{subst}
use native.Mathlib.Nat.{
  mul-div-le, lt-mul-div-succ, mul-le-mul_left, lt_of_mul-lt-mul_left, div-eq_of_lt-le, div-zero,
}
use linuxwacom.Prelude.{
  ℕ, zero, suc, ◌+◌, ◌-◌, ◌*◌, ◌/◌, ◌<◌, ◌≤◌, ◌≡◌, refl, ap, true, false, ltb, some, Bool-cases,
  inl, inr, if◌then◌else◌, arith,
}
use linuxwacom.Prelude.Int.{
  ℤ, pos, pos_part, neg_part, ◌+ℤ◌, ◌-ℤ◌, leb_ℤ, abs_ℕ, +ℤ_parts, -ℤ_parts,
}
use linuxwacom.Wacom.{same_int}
use linuxwacom.Xdrv.Filter.Line.{Curve, put, put_turned, Way, walk, direction, filter_line}

-- The number that is `i` further on the way from `a` to `b`.
unfoldable pub toward : ℕ → ℕ → ℕ → ℕ
toward a b i = if ltb a b then a + i else a - i

unfoldable pub distance : ℕ → ℕ → ℕ
distance a b = a - b + (b - a)

-- `long` * i rounded to a multiple of `short`: the steps to the side after `i` of `D`, `E` of them after all.
unfoldable pub aside : ℕ → ℕ → ℕ → ℕ
aside D E i = (2 * E * i + D) / (2 * D)

toward-step :
    (a b i : ℕ)
    → i < distance a b
    → pos (toward a b i) +ℤ direction (pos b -ℤ pos a) ≡ pos (toward a b (i + 1))
unfolding toward distance direction ◌+ℤ◌ ◌-ℤ◌
toward-step a b i h = ground (arith, h)

-- The bounds on the quotient, with the products written out.
aside_bounds :
    (D E i : ℕ)
    → 0 < D
    → (2 * D * aside D E i ≤ 2 * E * i + D) × (2 * E * i + D < 2 * D * aside D E i + 2 * D)
unfolding aside
aside_bounds D E i some_way =
    let n = 2 * E * i + D in
    (mul-div-le n (2 * D), omega (arith, lt-mul-div-succ n {b = 2 * D} (omega arith)))

pub aside-eq :
    (D E i q : ℕ) → 2 * D * q ≤ 2 * E * i + D → 2 * E * i + D < 2 * D * q + 2 * D → aside D E i ≡ q
unfolding aside
aside-eq D E i q low high = div-eq_of_lt-le {k = q} (2 * D) (omega arith) (omega arith)

aside-over :
    (D E i : ℕ)
    → E ≤ D
    → 0 < D
    → D + 2 * D * aside D E i ≤ 2 * E * (i + 1)
    → aside D E (i + 1) ≡ aside D E i + 1
aside-over D E i le some_way h =
    let (low, high) = aside_bounds D E i some_way in
    aside-eq D E (i + 1) (aside D E i + 1) (omega (arith, h)) (omega (arith, high))

aside-under :
    (D E i : ℕ)
    → 0 < D
    → 2 * E * (i + 1) < D + 2 * D * aside D E i
    → aside D E (i + 1) ≡ aside D E i
aside-under D E i some_way h =
    let (low, high) = aside_bounds D E i some_way in
    aside-eq D E (i + 1) (aside D E i) (omega (arith, low)) (omega (arith, h))

pub aside-le : (D E i : ℕ) → 0 < D → i ≤ D → aside D E i ≤ E
aside-le D E i some_way le =
    let (low, _) = aside_bounds D E i some_way in
    let scaled : 2 * D * aside D E i < 2 * D * (E + 1) =
      omega (arith, low, some_way, mul-le-mul_left (2 * E) le) in
    omega (arith, lt_of_mul-lt-mul_left (2 * D) scaled)

last-same : (a b i : ℕ) → i ≡ distance a b → same_int (pos (toward a b i)) (pos b) ≡ true
unfolding toward distance
last-same a b i h = ground (arith, h)

last-other : (a b i : ℕ) → i < distance a b → same_int (pos (toward a b i)) (pos b) ≡ false
unfolding toward distance
last-other a b i h = ground (arith, h)

module _ (write : ℤ → ℤ → Curve → Curve) (m0 m1 n0 n1 : ℕ) where
  -- The point that is `i` further is written.
  unfoldable pub dot : ℕ → Curve → Curve
  dot i =
      write (pos (toward m0 m1 i)) (pos (toward n0 n1 (aside (distance m0 m1) (distance n0 n1) i)))

  -- The points from the one that is `i` further on are drawn, `r` of them before the last.
  unfoldable pub draw : ℕ → ℕ → Curve → Curve
  draw zero i curve = dot i curve
  draw (suc r) i curve = draw r (i + 1) (dot i curve)

  abbrev pub way : Way
  way = record {
    last = pos m1;
    long = distance m0 m1 * 2;
    short = distance n0 n1 * 2;
    step = direction (pos m1 -ℤ pos m0);
    side = direction (pos n1 -ℤ pos n0);
  }

  walk-draw :
      (r i fuel : ℕ) (d : ℤ) (curve : Curve)
      → i + r ≡ distance m0 m1
      → r < fuel
      → distance n0 n1 ≤ distance m0 m1
      → pos_part d + distance m0 m1 + 2 * distance m0 m1 * aside (distance m0 m1) (distance n0 n1) i
        ≡ neg_part d + 2 * distance n0 n1 * (i + 1)
      → walk write fuel way
          (pos (toward m0 m1 i))
          (pos (toward n0 n1 (aside (distance m0 m1) (distance n0 n1) i)))
          d
          curve
        ≡ some (draw r i curve)
  unfolding walk draw dot
  walk-draw r i zero d curve at enough le e = elim enough [ ]
  walk-draw zero i (suc fuel) d curve at enough le e =
      rw (last-same m0 m1 i (omega (arith, at))) refl
  walk-draw (suc r) i (suc fuel) d curve at enough le e =
      let D = distance m0 m1 in
      let E = distance n0 n1 in
      let before : i < D = omega (arith, at) in
      rw (last-other m0 m1 i before, toward-step m0 m1 i before)
        (elim (Bool-cases (leb_ℤ (pos 0) d)) [
          | inl over ↦
              let next : aside D E (i + 1) ≡ aside D E i + 1 =
                aside-over D E i le (omega (arith, before)) (ground (arith, over, e)) in
              let inside : aside D E i < E = omega (
                arith,
                next,
                aside-le D E (i + 1) (omega (arith, before)) (omega (arith, before)),
              ) in
              rw (over, toward-step n0 n1 (aside D E i) inside, ← next)
                (walk-draw r (i + 1) fuel (d -ℤ pos (D * 2) +ℤ pos (E * 2)) (dot i curve)
                  (omega (arith, at)) (omega (arith, enough)) le
                  (omega (
                    arith,
                    ap (λ (q : ℕ). 2 * D * q) next,
                    e,
                    +ℤ_parts (d -ℤ pos (D * 2)) (pos (E * 2)),
                    -ℤ_parts d (pos (D * 2)),
                  )))
          | inr under ↦
              let next : aside D E (i + 1) ≡ aside D E i =
                aside-under D E i (omega (arith, before)) (ground (arith, under, e)) in
              let d' = d +ℤ pos (E * 2) in
              rw under (
                subst
                  (λ (q : ℕ).
                    walk write fuel way (pos (toward m0 m1 (i + 1))) (pos (toward n0 n1 q)) d'
                      (dot i curve)
                    ≡ some (draw r (i + 1) (dot i curve)))
                  next
                  (walk-draw r (i + 1) fuel d' (dot i curve) (omega (arith, at))
                    (omega (arith, enough)) le
                    (omega (arith, ap (λ (q : ℕ). 2 * D * q) next, e, +ℤ_parts d (pos (E * 2))))))
        ])

pub aside-start : (D E : ℕ) → aside D E 0 ≡ 0
unfolding aside
aside-start zero E = div-zero (2 * E * 0 + 0)
aside-start (suc D) E = aside-eq (suc D) E 0 0 (omega arith) (omega arith)

toward-start : (a b : ℕ) → toward a b 0 ≡ a
unfolding toward
toward-start a b = ground arith

distance-abs : (a b : ℕ) → abs_ℕ (pos b -ℤ pos a) ≡ distance a b
unfolding distance ◌-ℤ◌
distance-abs a b = ground arith

distance-le : (a b max : ℕ) → a ≤ max → b ≤ max → distance a b ≤ max
unfolding distance
distance-le a b max ha hb = omega arith

-- The first difference of both loops.
first :
    (D E : ℕ)
    → pos_part (pos (E * 2) -ℤ pos (D * 2 / 2)) + D
      ≡ neg_part (pos (E * 2) -ℤ pos (D * 2 / 2)) + 2 * E
first D E = omega (arith, -ℤ_parts (pos (E * 2)) (pos (D * 2 / 2)))

walk-all :
    (write : ℤ → ℤ → Curve → Curve) (m0 m1 n0 n1 fuel : ℕ) (curve : Curve)
    → distance m0 m1 < fuel
    → distance n0 n1 ≤ distance m0 m1
    → walk write fuel
        (way write m0 m1 n0 n1)
        (pos m0)
        (pos n0)
        (pos (distance n0 n1 * 2) -ℤ pos (distance m0 m1 * 2 / 2))
        curve
      ≡ some (draw write m0 m1 n0 n1 (distance m0 m1) 0 curve)
walk-all write m0 m1 n0 n1 fuel curve enough le =
    let D = distance m0 m1 in
    let E = distance n0 n1 in
    let start =
      walk-draw write m0 m1 n0 n1 D 0 fuel (pos (E * 2) -ℤ pos (D * 2 / 2)) curve (omega arith)
        enough le (rw (aside-start D E) (omega (arith, first D E))) in
    rw (aside-start D E, toward-start m0 m1, toward-start n0 n1) at start

-- What `filterLine` draws: the points of the line, by columns if it is flatter than the diagonal, and by rows if not.
unfoldable pub line : Curve → ℕ → ℕ → ℕ → ℕ → Curve
line curve x0 y0 x1 y1 =
    if ltb (distance y0 y1) (distance x0 x1)
    then draw put x0 x1 y0 y1 (distance x0 x1) 0 curve
    else draw put_turned y0 y1 x0 x1 (distance y0 y1) 0 curve

-- Between points within the range `filterLine` ends, and has drawn the points of the line: in the
-- round `i` the coordinate with the larger distance is `i` further, and the other one is where the
-- line is, rounded.
pub filter_line-line :
    (curve : Curve) (max x0 y0 x1 y1 : ℕ)
    → x0 ≤ max
    → y0 ≤ max
    → x1 ≤ max
    → y1 ≤ max
    → filter_line curve max (pos x0) (pos y0) (pos x1) (pos y1) ≡ some (line curve x0 y0 x1 y1)
unfolding filter_line line
filter_line-line curve max x0 y0 x1 y1 hx0 hy0 hx1 hy1 =
    let wide = distance-le x0 x1 max hx0 hx1 in
    let high = distance-le y0 y1 max hy0 hy1 in
    rw (distance-abs x0 x1, distance-abs y0 y1)
      (elim (Bool-cases (ltb (distance y0 y1) (distance x0 x1))) [
        | inl flat ↦ rw flat (
            ground (
              arith,
              flat,
              walk-all put x0 x1 y0 y1 (max + 1) curve (omega (arith, wide)) (ground (arith, flat)),
            ))
        | inr steep ↦ rw steep (
            ground (
              arith,
              steep,
              walk-all put_turned y0 y1 x0 x1 (max + 1) curve (omega (arith, high))
                  (ground (arith, steep)),
            ))
      ])
