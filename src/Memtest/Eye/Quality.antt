-- ===== src/Memtest/Eye/Quality.antt =====
-- The qualities that find_best_eye computes.
use mechatronics_embedded.Base.{
  ℕ, zero, suc, ◌+◌, ◌*◌, ◌^◌, ◌%◌, ◌<◌, ◌≤◌, ◌≡◌, refl, ap, ◌∙◌, Bool, ◌&&◌, some, List, [], ◌∷◌,
  inl, inr, length, get_elem?, set, length-set, get_elem?-set_self, get_elem?-set_before, lt→ltb,
  int_lt, ◌==◌, ==→eq, Bool-cases, if◌then◌else◌, arith,
}
use mechatronics_embedded.Machine.{Machine}
use mechatronics_embedded.Machine.Outcome.{Returns, returns, Returns-then}
use mechatronics_embedded.Memtest.Eye.{
  Quals, int_sub, int_mul, int_abs, int_quarter, width, add_widths, add_spread, rate,
}

-- An element of the results of the measurements.
unfoldable pub result : List ℕ → ℕ → ℕ
result [] i = 0
result (v ∷ x) zero = v
result (v ∷ x) (suc i) = result x i

-- The width of the eye of lane `j` in experiment `i`.
unfoldable pub eye : List ℕ → ℕ → ℕ → ℕ
eye x i j = int_sub (result x (8 * i + 2 * j + 1)) (result x (8 * i + 2 * j))

-- The sum of the widths, if there are four eyes.
unfoldable pub total : ℕ → ℕ → ℕ → ℕ → ℕ
total a b c d =
    if int_lt 0 a && (int_lt 0 b && (int_lt 0 c && int_lt 0 d)) then (a + b + c + d) % 2 ^ 32 else 0

-- The square of the distance between the sum and a width.
unfoldable pub distance : ℕ → ℕ → ℕ
distance sum w = let a = int_abs (int_sub sum (if int_lt 0 w then w else 0)) in int_mul a a

-- The three numbers of an experiment: the sum, a quarter of the sum of the squared distances from it, and
-- the square of the sum less this.
unfoldable pub fit : List ℕ → ℕ → ℕ
fit x i = total (eye x i 0) (eye x i 1) (eye x i 2) (eye x i 3)

unfoldable pub mean_square : List ℕ → ℕ → ℕ
mean_square x i =
    let d = λ (j : ℕ). distance (fit x i) (eye x i j) in
    int_quarter ((d 0 + d 1 + d 2 + d 3) % 2 ^ 32)

unfoldable pub quality : List ℕ → ℕ → ℕ
quality x i = int_sub (int_mul (fit x i) (fit x i)) (mean_square x i)

get_elem?-result : (x : List ℕ) (i : ℕ) → i < length x → get_elem? x i ≡ some (result x i)
unfolding result
get_elem?-result [] i h = absurd (omega arith)
get_elem?-result (v ∷ x) zero h = refl
get_elem?-result (v ∷ x) (suc i) h = get_elem?-result x i (omega arith)

-- The count of the widths that are no eyes, as the code keeps it.
unfoldable missing : Bool → Bool → Bool → Bool → ℕ
missing a b c d =
    let n = if a then 0 else 0 + 1 in
    let n' = if b then n else n + 1 in
    let n'' = if c then n' else n' + 1 in if d then n'' else n'' + 1

missing_none :
    (a b c d : Bool) (v : ℕ)
    → (if missing a b c d == 0 then v else 0) ≡ (if a && (b && (c && d)) then v else 0)
unfolding missing
missing_none a b c d v = ground arith

sum_of_four :
    (a b c d : ℕ)
    → ((((0 + a) % 2 ^ 32 + b) % 2 ^ 32 + c) % 2 ^ 32 + d) % 2 ^ 32 ≡ (a + b + c + d) % 2 ^ 32
sum_of_four a b c d = omega arith

module _ {S : Type 0} where
  width_is :
      (x : List ℕ) (i j : ℕ) (m : Machine S)
      → 8 * i + 2 * j + 1 < length x
      → Returns (λ w m'. (w ≡ eye x i j) × (m' ≡ m)) (width x i j m)
  unfolding width eye
  width_is x i j m room =
      rw
        (
          get_elem?-result x (8 * i + 2 * j) (omega arith),
          get_elem?-result x (8 * i + 2 * j + 1) room,
        )
        (returns (refl, refl))

  add_widths_is :
      (x : List ℕ) (i : ℕ) (m : Machine S)
      → 8 * i + 8 ≤ length x
      → Returns
          (λ r m'.
            (if r.0 == 0 then r.1 else 0) ≡ total (eye x i 0) (eye x i 1) (eye x i 2) (eye x i 3))
          (add_widths x i 4 0 0 0 m)
  unfolding add_widths total missing
  add_widths_is x i m room = Returns-then (width_is x i 0 m (omega arith)) (λ a m0 (ea, s0).
      rw (ea, s0)
        (Returns-then (width_is x i 1 m (omega arith)) (λ b m1 (eb, s1).
          rw (eb, s1)
            (Returns-then (width_is x i 2 m (omega arith)) (λ c m2 (ec, s2).
              rw (ec, s2)
                (Returns-then (width_is x i 3 m (omega arith)) (λ d m3 (ed, s3).
                  rw (ed, s3)
                    (returns (
                      missing_none (int_lt 0 (eye x i 0)) (int_lt 0 (eye x i 1))
                        (int_lt 0 (eye x i 2)) (int_lt 0 (eye x i 3)) _
                      ∙ ap
                          (λ (t : ℕ).
                            if◌then◌else◌ {A = ℕ}
                              (int_lt 0 (eye x i 0)
                                && (int_lt 0 (eye x i 1)
                                    && (int_lt 0 (eye x i 2) && int_lt 0 (eye x i 3))))
                              t 0)
                          (sum_of_four (eye x i 0) (eye x i 1) (eye x i 2) (eye x i 3)))))))))))

  add_spread_is :
      (x : List ℕ) (i avg : ℕ) (m : Machine S)
      → 8 * i + 8 ≤ length x
      → Returns
          (λ s m'.
            s
            ≡ (distance avg (eye x i 0)
                + distance avg (eye x i 1)
                + distance avg (eye x i 2)
                + distance avg (eye x i 3))
              % 2 ^ 32)
          (add_spread x i avg 4 0 0 m)
  unfolding add_spread distance
  add_spread_is x i avg m room = Returns-then (width_is x i 0 m (omega arith)) (λ a m0 (ea, s0).
      rw (ea, s0)
        (Returns-then (width_is x i 1 m (omega arith)) (λ b m1 (eb, s1).
          rw (eb, s1)
            (Returns-then (width_is x i 2 m (omega arith)) (λ c m2 (ec, s2).
              rw (ec, s2)
                (Returns-then (width_is x i 3 m (omega arith)) (λ d m3 (ed, s3).
                  rw (ed, s3)
                    (returns (
                      sum_of_four (distance avg (eye x i 0)) (distance avg (eye x i 1))
                        (distance avg (eye x i 2)) (distance avg (eye x i 3)))))))))))

-- The array begins with the values of `f`.
abbrev pub Filled : (ℕ → ℕ) → ℕ → List ℕ → Type 0
Filled f n ys = (i : ℕ) → i < n → get_elem? ys i ≡ some (f i)

pub Filled-set :
    (f : ℕ → ℕ) (n : ℕ) (ys : List ℕ)
    → n < length ys
    → Filled f n ys
    → Filled f (n + 1) (set ys n (f n))
Filled-set f n ys room filled i small = elim (Bool-cases (i == n)) [
  | inl e ↦ rw (==→eq i n e) (get_elem?-set_self ys n (f n) room)
  | inr e ↦ get_elem?-set_before ys n i (f n) (ground arith) ∙ filled i (ground arith)
]

-- The arrays have room for `cnt` qualities, and the third for one more.
pub record Room (cnt bound : ℕ) (q : Quals) : Type 0 where
  pub room1 : cnt ≤ length q.qual1
  pub room2 : cnt ≤ length q.qual2
  pub room3 : cnt < length q.qual3
  pub room4 : cnt ≤ length q.qual4
  pub bound3 : length q.qual3 ≤ bound

module _ {S : Type 0} (x : List ℕ) (cnt bound : ℕ) (measured : 8 * cnt ≤ length x) where
  pub rate_fills :
      (n : ℕ) (q : Quals) (m : Machine S)
      → n < cnt
      → Room cnt bound q
      → Filled (fit x) n q.qual1
      → Filled (mean_square x) n q.qual2
      → Returns
          (λ q' m'.
            Room cnt bound q'
            × Filled (fit x) (n + 1) q'.qual1
            × Filled (mean_square x) (n + 1) q'.qual2)
          (rate x n q m)
  unfolding rate fit mean_square
  rate_fills n q m small room f1 f2 = Returns-then (add_widths_is x n m (omega arith)) (λ r m1 e1.
      rw
        (
          e1,
          lt→ltb n (length q.qual1) (omega (arith, room.room1)),
          get_elem?-set_self q.qual1 n (fit x n) (omega (arith, room.room1)),
        )
        (Returns-then (add_spread_is x n (fit x n) m1 (omega arith)) (λ s m2 e2.
          rw (e2, lt→ltb n (length q.qual2) (omega (arith, room.room2)))
            (returns (
              record {
                room1 = omega (arith, room.room1, length-set q.qual1 n (fit x n));
                room2 = omega (arith, room.room2, length-set q.qual2 n (mean_square x n));
                room3 = room.room3;
                room4 = room.room4;
                bound3 = room.bound3;
              },
              Filled-set (fit x) n q.qual1 (omega (arith, room.room1)) f1,
              Filled-set (mean_square x) n q.qual2 (omega (arith, room.room2)) f2,
            )))))
