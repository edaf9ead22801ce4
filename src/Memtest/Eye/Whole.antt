-- ===== src/Memtest/Eye/Whole.antt =====
-- find_best_eye as a whole: the loops over the experiments, and the choice by the qualities.
use mechatronics_embedded.Base.{
  ℕ, zero, suc, ◌+◌, ◌*◌, ◌^◌, ◌<◌, ◌≤◌, ◌≡◌, subst, true, false, List, inl, inr, length, set,
  length-set, get_elem?-some, same_value, int_lt, lt→ltb, Bool-cases, arith,
}
use mechatronics_embedded.Machine.{Machine}
use mechatronics_embedded.Machine.Outcome.{Returns, returns, Returns-then}
use mechatronics_embedded.Emio.{any_set}
use mechatronics_embedded.Memtest.Eye.{
  Quals, lowest, rate_all, subtract_all, copy_all, print_values, print_qual, find_best_eye,
}
use mechatronics_embedded.Memtest.Eye.Best.{Best, Improves, choose_eye-Best}
use mechatronics_embedded.Memtest.Eye.Quality.{
  fit, mean_square, quality, Filled, Filled-set, Room, rate_fills,
}

module _ {S : Type 0} (x : List ℕ) (cnt bound : ℕ) (measured : 8 * cnt ≤ length x) where
  rate_all_fills :
      (left n : ℕ) (q : Quals) (m : Machine S)
      → n + left ≡ cnt
      → Room cnt bound q
      → Filled (fit x) n q.qual1
      → Filled (mean_square x) n q.qual2
      → Returns
          (λ q' m'.
            Room cnt bound q' × Filled (fit x) cnt q'.qual1 × Filled (mean_square x) cnt q'.qual2)
          (rate_all x left n q m)
  unfolding rate_all
  rate_all_fills zero n q m e room f1 f2 =
      returns (room, λ i h. f1 i (omega arith), λ i h. f2 i (omega arith))
  rate_all_fills (suc left) n q m e room f1 f2 =
      Returns-then (rate_fills x cnt bound measured n q m (omega arith) room f1 f2)
        (λ q' m' (room', f1', f2'). rate_all_fills left (n + 1) q' m' (omega arith) room' f1' f2')

  subtract_all_fills :
      (left n : ℕ) (q : Quals) (m : Machine S)
      → n + left ≡ cnt
      → Room cnt bound q
      → Filled (fit x) cnt q.qual1
      → Filled (mean_square x) cnt q.qual2
      → Filled (quality x) n q.qual3
      → Returns
          (λ q' m'. Room cnt bound q' × Filled (quality x) cnt q'.qual3)
          (subtract_all left n q m)
  unfolding subtract_all quality
  subtract_all_fills zero n q m e room f1 f2 f3 = returns (room, λ i h. f3 i (omega arith))
  subtract_all_fills (suc left) n q m e room f1 f2 f3 =
      rw
        (
          f1 n (omega arith),
          f2 n (omega arith),
          lt→ltb n (length q.qual3) (omega (arith, room.room3)),
        )
        (subtract_all_fills left (n + 1) (record q { qual3 = set q.qual3 n (quality x n) }) m
          (omega arith)
          (record {
            room1 = room.room1;
            room2 = room.room2;
            room3 = omega (arith, room.room3, length-set q.qual3 n (quality x n));
            room4 = room.room4;
            bound3 = omega (arith, room.bound3, length-set q.qual3 n (quality x n));
          })
          f1 f2 (Filled-set (quality x) n q.qual3 (omega (arith, room.room3)) f3))

  copy_all_keeps :
      (left n : ℕ) (q : Quals) (m : Machine S)
      → n + left ≡ cnt
      → Room cnt bound q
      → Filled (quality x) cnt q.qual3
      → Returns (λ q' m'. Room cnt bound q' × Filled (quality x) cnt q'.qual3) (copy_all left n q m)
  unfolding copy_all
  copy_all_keeps zero n q m e room f3 = returns (room, f3)
  copy_all_keeps (suc left) n q m e room f3 =
      rw (f3 n (omega arith), lt→ltb n (length q.qual4) (omega (arith, room.room4)))
        (copy_all_keeps left (n + 1) (record q { qual4 = set q.qual4 n (quality x n) }) m
          (omega arith)
          (record {
            room1 = room.room1;
            room2 = room.room2;
            room3 = room.room3;
            room4 = omega (arith, room.room4, length-set q.qual4 n (quality x n));
            bound3 = room.bound3;
          })
          f3)

print_values-Returns :
    {S : Type 0} (qual : List ℕ) (left i : ℕ) (m : Machine S)
    → i + left ≤ length qual
    → Returns (λ u m'. Unit {0}) (print_values qual left i m)
unfolding print_values
print_values-Returns qual zero i m room = returns tt
print_values-Returns qual (suc left) i m room =
    let (a, got) = get_elem?-some qual i (omega arith) in
    rw got (print_values-Returns qual left (i + 1) _ (omega arith))

print_qual-Returns :
    {S : Type 0} (verbose : ℕ) (qual : List ℕ) (cnt step : ℕ) (m : Machine S)
    → cnt ≤ length qual
    → Returns (λ u m'. Unit {0}) (print_qual verbose qual cnt step m)
unfolding print_qual
print_qual-Returns verbose qual cnt step m room = elim (Bool-cases (any_set verbose 0x10)) [
  | inl e ↦ rw e (print_values-Returns qual cnt 0 _ (omega arith))
  | inr e ↦ rw e (returns tt)
]

-- The experiment `p` is one of `cnt`, and none has a higher quality.
pub record BestEye (x : List ℕ) (cnt p : ℕ) : Type 0 where
  pub small : p < cnt
  pub top : (i : ℕ) → i < cnt → int_lt (quality x p) (quality x i) ≡ false

Best-BestEye :
    (x : List ℕ) (cnt p : ℕ) (qual : List ℕ)
    → Filled (quality x) cnt qual
    → Best qual cnt p
    → BestEye x cnt p
Best-BestEye x cnt p qual filled best =
    let same = same_value best.holds (filled p best.small) in
    record {
      small = best.small;
      top = λ i h.
          subst (λ (t : ℕ). int_lt t (quality x i) ≡ false) same
            (best.top i (quality x i) h (filled i h));
    }

improves :
    (x : List ℕ) (cnt k : ℕ) (qual : List ℕ)
    → k < cnt
    → int_lt (quality x 0) (quality x k) ≡ true
    → int_lt lowest (quality x k) ≡ true
    → Filled (quality x) cnt qual
    → Improves qual cnt
improves x cnt k qual small first low filled = record {
  first = quality x 0;
  first_holds = filled 0 (omega arith);
  at = k;
  small = small;
  value = quality x k;
  holds = filled k small;
  beats_first = first;
  beats_lowest = low;
}

-- For measurements of `cnt` experiments, arrays with room (for one more in the third), and an
-- experiment that is better than the first and than -9999: find_best_eye leaves no array and returns
-- the number of an experiment such that none has a higher quality, which is the square of the sum of
-- the four widths, taken as 0 if a lane has no eye, less a quarter of the sum of the squared distances
-- of the widths from that sum, all as int.
pub find_best_eye-BestEye :
    {S : Type 0} (verbose : ℕ) (x : List ℕ) (cnt k : ℕ) (q : Quals) (m : Machine S)
    → 8 * cnt ≤ length x
    → Room cnt (2 ^ 31) q
    → k < cnt
    → int_lt (quality x 0) (quality x k) ≡ true
    → int_lt lowest (quality x k) ≡ true
    → Returns (λ (choice, q') m'. BestEye x cnt choice) (find_best_eye verbose x cnt q m)
unfolding find_best_eye
find_best_eye-BestEye {S = S} verbose x cnt k q m measured room small first low =
    Returns-then
      (rate_all_fills x cnt (2 ^ 31) measured cnt 0 q m (omega arith) room
        (λ i h. absurd (omega arith)) (λ i h. absurd (omega arith)))
      (λ qa ma (ra, f1, f2).
        Returns-then
          (subtract_all_fills x cnt (2 ^ 31) measured cnt 0 qa ma (omega arith) ra f1 f2
            (λ i h. absurd (omega arith)))
          (λ qb mb (rb, f3).
            Returns-then (copy_all_keeps x cnt (2 ^ 31) measured cnt 0 qb mb (omega arith) rb f3)
              (λ qc mc (rc, f).
                Returns-then (print_qual-Returns verbose qc.qual1 cnt 1 mc rc.room1) (λ u1 m1 o1.
                  Returns-then (print_qual-Returns verbose qc.qual2 cnt 2 m1 rc.room2) (λ u2 m2 o2.
                    Returns-then
                      (print_qual-Returns verbose qc.qual3 cnt 3 m2 (omega (arith, rc.room3)))
                      (λ u3 m3 o3.
                        Returns-then
                          (choose_eye-Best (improves x cnt k qc.qual3 small first low f) rc.room3
                            rc.bound3 m3)
                          (λ p m4 best. returns (Best-BestEye x cnt p qc.qual3 f best))))))))
