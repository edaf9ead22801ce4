-- ===== src/Memtest/Eye.antt =====
-- platform_standalone/mfg_test_src/memtest.c: the choice among measured eyes (find_best_eye). An `int`
-- is a bit pattern of 32 bits, also an index; the counters of the loops are numbers.
pub mod Scan
pub mod Best
pub mod Quality
pub mod Whole
mod Examples
use mechatronics_embedded.Base.{
  ℕ, zero, suc, ◌+◌, ◌-◌, ◌*◌, ◌/◌, ◌%◌, ◌^◌, Bool, true, not, ◌&&◌, List, [], ◌∷◌, int_lt, ◌==◌,
  if◌then◌else◌,
}
use mechatronics_embedded.Machine.{Cmd, num, text, pure, ◌>>=◌, ◌>>◌, printf, load, store}
use mechatronics_embedded.Emio.{any_set}

-- Subtraction, multiplication, `abs` and the division by 4 of `int`, and its tests `>=` and `> 0`.
abbrev pub int_sub : ℕ → ℕ → ℕ
int_sub a b = (a + 2 ^ 32 - b) % 2 ^ 32

abbrev pub int_mul : ℕ → ℕ → ℕ
int_mul a b = a * b % 2 ^ 32

abbrev pub int_abs : ℕ → ℕ
int_abs a = if int_lt a 0 then int_sub 0 a else a

abbrev pub int_quarter : ℕ → ℕ
int_quarter a = if int_lt a 0 then int_sub 0 (int_sub 0 a / 4) else a / 4

abbrev pub int_ge : ℕ → ℕ → Bool
int_ge a b = not (int_lt a b)

-- -1, and the value -9999 below which no quality is looked at.
abbrev pub minus_one : ℕ
minus_one = 0xffffffff

abbrev pub lowest : ℕ
lowest = 0xffffd8f1

-- The four arrays of qualities.
pub record Quals : Type 0 where
  pub qual1 : List ℕ
  pub qual2 : List ℕ
  pub qual3 : List ℕ
  pub qual4 : List ℕ

-- maxval and maxpos of one search.
pub record Peak : Type 0 where
  pub value : ℕ
  pub at : ℕ

abbrev pub no_peak : Peak
no_peak = record { value = lowest; at = minus_one }

-- A position that no earlier search has found.
unfoldable pub is_free : ℕ → List ℕ → Bool
is_free i [] = true
is_free i (p ∷ ps) = not (i == p) && is_free i ps

-- The step of a search.
unfoldable pub higher : List ℕ → ℕ → ℕ → Peak → Peak
higher found i a best =
    if int_lt best.value a && is_free i found then record { value = a; at = i } else best

-- The choice among three by their neighbours.
unfoldable pub choose_three : ℕ × ℕ → ℕ × ℕ → ℕ × ℕ → ℕ
choose_three (n0, p0) (n1, p1) (n2, p2) =
    if int_ge n0 n1 && int_ge n0 n2
    then p0
    else if int_ge n1 n0 && int_ge n1 n2
    then p1
    else if int_ge n2 n0 && int_ge n2 n1
    then p2
    else p0

unfoldable pub choose_two : ℕ × ℕ → ℕ × ℕ → ℕ
choose_two (n0, p0) (n1, p1) = if int_ge n0 n1 then p0 else if int_ge n1 n0 then p1 else p0

module _ {S : Type 0} where
  -- The width of an eye.
  pub width : List ℕ → ℕ → ℕ → Cmd S ℕ
  width x i j = do
    lo ← load x (8 * i + 2 * j)
    hi ← load x (8 * i + 2 * j + 1)
    pure (int_sub hi lo)

  -- The loops over the four lanes: `bad` and `sum` of the first, and `sum` of the second.
  pub add_widths : List ℕ → ℕ → ℕ → ℕ → ℕ → ℕ → Cmd S (ℕ × ℕ)
  add_widths x i zero j bad sum = pure (bad, sum)
  add_widths x i (suc lanes) j bad sum = do
    w ← width x i j
    add_widths x i lanes (j + 1) (if int_lt 0 w then bad else bad + 1) ((sum + w) % 2 ^ 32)

  pub add_spread : List ℕ → ℕ → ℕ → ℕ → ℕ → ℕ → Cmd S ℕ
  add_spread x i avg zero j sum = pure sum
  add_spread x i avg (suc lanes) j sum = do
    w ← width x i j
    let a = int_abs (int_sub avg (if int_lt 0 w then w else 0))
    add_spread x i avg lanes (j + 1) ((sum + int_mul a a) % 2 ^ 32)

  -- A round of the first loop.
  pub rate : List ℕ → ℕ → Quals → Cmd S Quals
  rate x i q = do
    (bad, sum) ← add_widths x i 4 0 0 0
    q1 ← store q.qual1 i (if bad == 0 then sum else 0)
    avg ← load q1 i
    spread ← add_spread x i avg 4 0 0
    q2 ← store q.qual2 i (int_quarter spread)
    pure (record q { qual1 = q1; qual2 = q2 })

  pub rate_all : List ℕ → ℕ → ℕ → Quals → Cmd S Quals
  rate_all x zero i q = pure q
  rate_all x (suc left) i q = do q' ← rate x i q; rate_all x left (i + 1) q'

  pub subtract_all : ℕ → ℕ → Quals → Cmd S Quals
  subtract_all zero i q = pure q
  subtract_all (suc left) i q = do
    a ← load q.qual1 i
    b ← load q.qual2 i
    q3 ← store q.qual3 i (int_sub (int_mul a a) b)
    subtract_all left (i + 1) (record q { qual3 = q3 })

  pub copy_all : ℕ → ℕ → Quals → Cmd S Quals
  copy_all zero i q = pure q
  copy_all (suc left) i q = do
    a ← load q.qual3 i
    q4 ← store q.qual4 i a
    copy_all left (i + 1) (record q { qual4 = q4 })

  pub print_values : List ℕ → ℕ → ℕ → Cmd S (Unit {0})
  print_values qual zero i = printf "%s" (text "\r\n" ∷ [])
  print_values qual (suc left) i = do
    a ← load qual i
    printf " %5d" (num a ∷ [])
    print_values qual left (i + 1)

  pub print_qual : ℕ → List ℕ → ℕ → ℕ → Cmd S (Unit {0})
  print_qual verbose qual cnt step =
      if any_set verbose 0x10
      then (do printf "**** Qual %d:" (num step ∷ []); print_values qual cnt 0)
      else pure tt

  -- A search for the highest quality at a position that is not in `found`.
  pub search_from : List ℕ → List ℕ → ℕ → ℕ → Peak → Cmd S Peak
  search_from qual found zero i best = pure best
  search_from qual found (suc left) i best = do
    a ← load qual i
    search_from qual found left (i + 1) (higher found i a best)

  pub neighbours : List ℕ → ℕ → Cmd S ℕ
  neighbours qual p = do
    a ← load qual (int_sub p 1)
    b ← load qual ((p + 1) % 2 ^ 32)
    pure ((a + b) % 2 ^ 32)

  pub pick : List ℕ → Peak → Peak → Peak → Cmd S ℕ
  pick qual b0 b1 b2 =
      if b0.value == b1.value && b1.value == b2.value
      then (if b1.at == (b0.at + 1) % 2 ^ 32 && b2.at == (b1.at + 1) % 2 ^ 32
          then pure b1.at
          else (do
            n0 ← neighbours qual b0.at
            n1 ← neighbours qual b1.at
            n2 ← neighbours qual b2.at
            pure (choose_three (n0, b0.at) (n1, b1.at) (n2, b2.at))))
      else if b0.value == b1.value
      then (do
        n0 ← neighbours qual b0.at
        n1 ← neighbours qual b1.at
        pure (choose_two (n0, b0.at) (n1, b1.at)))
      else pure b0.at

  -- The part of find_best_eye behind the qualities.
  pub choose_eye : List ℕ → ℕ → Cmd S ℕ
  choose_eye qual cnt = do
    b0 ← search_from qual [] cnt 0 no_peak
    b1 ← search_from qual (b0.at ∷ []) cnt 0 no_peak
    b2 ← search_from qual (b0.at ∷ b1.at ∷ []) cnt 0 no_peak
    b3 ← search_from qual (b0.at ∷ b1.at ∷ b2.at ∷ []) cnt 0 no_peak
    choice ← pick qual b0 b1 b2
    printf
        "\n  * Four best results (test no.: quality value) \n\t(%d: %d), (%d: %d), (%d: %d), (%d: %d)\n\tBest Choice = %d %s"
        (num b0.at
          ∷ num b0.value
          ∷ num b1.at
          ∷ num b1.value
          ∷ num b2.at
          ∷ num b2.value
          ∷ num b3.at
          ∷ num b3.value
          ∷ num choice
          ∷ text "\r\n"
          ∷ [])
    pure choice

  pub find_best_eye : ℕ → List ℕ → ℕ → Quals → Cmd S (ℕ × Quals)
  find_best_eye verbose x cnt q = do
    rated ← rate_all x cnt 0 q
    subtracted ← subtract_all cnt 0 rated
    done ← copy_all cnt 0 subtracted
    print_qual verbose done.qual1 cnt 1
    print_qual verbose done.qual2 cnt 2
    print_qual verbose done.qual3 cnt 3
    choice ← choose_eye done.qual3 cnt
    pure (choice, done)
