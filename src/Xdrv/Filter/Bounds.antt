-- ===== src/Xdrv/Filter/Bounds.antt =====
-- The filtered position and tilt are within bounds.
use linuxwacom.Prelude.{
  ℕ, ◌+◌, ◌*◌, ◌/◌, ◌≤◌, ◌<◌, List, [], ◌∷◌, length, All, ◌≡◌, ◌≢◌, sym, arith,
}
use linuxwacom.Prelude.Int.{ℤ, pos, negsuc, pos_part, neg_part, sub_ℕ, ◌+ℤ◌, ◌≤ℤ◌}
use linuxwacom.Xdrv.ToolIds.{cursor_id}
use native.Mathlib.Nat.{le-div_iff_mul-le, div-le_of_le-mul}
use linuxwacom.Xdrv.Filter.{
  FilterState, Sample, sum, quotient, average, limit_tilt, filter_coord, filter_stylus,
  filter_intuos,
}

abbrev pub IsBetween : ℤ → ℤ → ℤ → Type 0
IsBetween lo hi x = (lo ≤ℤ x) × (x ≤ℤ hi)

-- The sum of samples between two bounds, against the bounds times their number.
sum-lower :
    (p q : ℕ) (xs : List ℤ)
    → All (λ x. p + neg_part x ≤ pos_part x + q) xs
    → p * length xs + neg_part (sum xs) ≤ pos_part (sum xs) + q * length xs
unfolding sum ◌+ℤ◌
sum-lower p q [] h = omega arith
sum-lower p q (x ∷ xs) h = ground (arith, sum-lower p q xs h.1, h.0)

sum-upper :
    (p q : ℕ) (xs : List ℤ)
    → All (λ x. pos_part x + q ≤ p + neg_part x) xs
    → pos_part (sum xs) + q * length xs ≤ p * length xs + neg_part (sum xs)
unfolding sum ◌+ℤ◌
sum-upper p q [] h = omega arith
sum-upper p q (x ∷ xs) h = ground (arith, sum-upper p q xs h.1, h.0)

le_div : (k x y : ℕ) → 0 < k → x * k ≤ y → x ≤ y / k
le_div k x y h e = (le-div_iff_mul-le {k = k} {x = x} {y = y} h).1 e

div_le : (k m n : ℕ) → m ≤ n * k → m / k ≤ n
div_le k m n e = div-le_of_le-mul k {m = m} {n = n} (omega (arith, e))

-- What bounds a number when it is taken `n` times bounds the quotient by `n`.
quotient-lower :
    (lo s : ℤ) (n : ℕ)
    → 0 < n
    → pos_part lo * n + neg_part s ≤ pos_part s + neg_part lo * n
    → lo ≤ℤ quotient s n
unfolding quotient
quotient-lower (pos l) (pos a) n h e = omega (arith, le_div n l a h (omega (arith, e)))
quotient-lower (negsuc l) (pos a) n h e = omega arith
quotient-lower (pos l) (negsuc a) n h e = absurd (omega (arith, e))
quotient-lower (negsuc l) (negsuc a) n h e =
    ground (arith, div_le n (a + 1) (l + 1) (omega (arith, e)))

quotient-upper :
    (hi s : ℤ) (n : ℕ)
    → 0 < n
    → pos_part s + neg_part hi * n ≤ pos_part hi * n + neg_part s
    → quotient s n ≤ℤ hi
unfolding quotient
quotient-upper (pos l) (pos a) n h e = omega (arith, div_le n a l (omega (arith, e)))
quotient-upper (negsuc l) (pos a) n h e =
    absurd (omega (arith, e, le_div n (l + 1) 0 h (omega (arith, e))))
quotient-upper (pos l) (negsuc a) n h e = ground arith
quotient-upper (negsuc l) (negsuc a) n h e =
    ground (arith, le_div n (l + 1) (a + 1) h (omega (arith, e)))

both :
    (lo hi : ℤ) (xs : List ℤ)
    → All (IsBetween lo hi) xs
    → All (λ x. lo ≤ℤ x) xs × All (λ x. x ≤ℤ hi) xs
both lo hi [] b = (b, b)
both lo hi (x ∷ xs) b = let rest = both lo hi xs b.1 in ((b.0.0, rest.0), (b.0.1, rest.1))

-- The average of samples between two bounds is between them, whatever their signs.
average-IsBetween :
    (lo hi : ℤ) (xs : List ℤ)
    → 0 < length xs
    → All (IsBetween lo hi) xs
    → IsBetween lo hi (average xs (length xs))
unfolding average
average-IsBetween lo hi xs h b =
    let bounds = both lo hi xs b in
    (
      quotient-lower lo (sum xs) (length xs) h (sum-lower (pos_part lo) (neg_part lo) xs bounds.0),
      quotient-upper hi (sum xs) (length xs) h (sum-upper (pos_part hi) (neg_part hi) xs bounds.1),
    )

averaged :
    (lo hi : ℤ) (xs : List ℤ) (n : ℕ)
    → length xs ≡ n
    → 0 < n
    → All (IsBetween lo hi) xs
    → IsBetween lo hi (average xs n)
averaged lo hi xs n e h b = rw (sym e) (average-IsBetween lo hi xs (omega (arith, e, h)) b)

-- `xf86WcmFilterIntuos` stays in the box of the last samples: for any bounds on the `raw_sample` samples
-- of each coordinate, of which there is at least one, the filtered position is within them, for every
-- type of tool.
pub filter_intuos-IsBetween :
    (left right top bottom : ℤ) (raw_sample max_x max_y : ℕ) (state : FilterState) (ds : Sample)
    → 0 < raw_sample
    → length state.x ≡ raw_sample
    → length state.y ≡ raw_sample
    → All (IsBetween left right) state.x
    → All (IsBetween top bottom) state.y
    → let ds' = filter_intuos raw_sample max_x max_y state ds in
      IsBetween left right ds'.x × IsBetween top bottom ds'.y
unfolding filter_intuos filter_stylus filter_coord
filter_intuos-IsBetween left right top bottom raw_sample max_x max_y state ds h ex ey bx by =
    ground (
      arith,
      averaged left right state.x raw_sample ex h bx,
      averaged top bottom state.y raw_sample ey h by,
    )

limit_tilt-IsBetween :
    (max : ℕ) (tilt : ℤ)
    → 2 ≤ max
    → IsBetween (sub_ℕ 0 (max / 2)) (sub_ℕ (max / 2) 1) (limit_tilt max tilt)
unfolding limit_tilt
limit_tilt-IsBetween max (pos t) h = ground arith
limit_tilt-IsBetween max (negsuc t) h = ground arith

-- Of a tool that is no cursor, on a tablet with a tilt range of at least 2 on both axes, the filtered
-- tilts are from minus half of the range to one below half of it, whatever the samples.
pub filter_intuos-tilt :
    (raw_sample max_x max_y : ℕ) (state : FilterState) (ds : Sample)
    → ds.device_type ≢ cursor_id
    → 2 ≤ max_x
    → 2 ≤ max_y
    → let ds' = filter_intuos raw_sample max_x max_y state ds in
      IsBetween (sub_ℕ 0 (max_x / 2)) (sub_ℕ (max_x / 2) 1) ds'.tiltx
      × IsBetween (sub_ℕ 0 (max_y / 2)) (sub_ℕ (max_y / 2) 1) ds'.tilty
unfolding filter_intuos filter_stylus
filter_intuos-tilt raw_sample max_x max_y state ds other hx hy = ground (
  arith,
  limit_tilt-IsBetween max_x (average state.tiltx raw_sample) hx,
  limit_tilt-IsBetween max_y (average state.tilty raw_sample) hy,
)
