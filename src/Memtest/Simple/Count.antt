-- ===== src/Memtest/Simple/Count.antt =====
-- memtest_simple counts the words whose cells do not keep them, and counts them exactly.
use mechatronics_embedded.Base.{
  ℕ, zero, suc, ◌+◌, ◌*◌, ◌/◌, ◌%◌, ◌≤◌, ◌<◌, ◌^◌, ◌≡◌, refl, sym, ap, ◌∙◌, false, arith, length,
  ◌==◌, if◌then◌else◌, bit_and, String,
}
use mechatronics_embedded.Machine.{Device, Machine, Arg}
use mechatronics_embedded.Machine.Outcome.{Returns, returns, Returns-then, Returns-weaken}
use mechatronics_embedded.Memtest.{Globals, Tally, Lanes, err_info}
use mechatronics_embedded.Memtest.Cells.{Ram, Written, Written-same}
use mechatronics_embedded.Memtest.Compare.{
  compared_lanes, Kept, compare_word-Compared, lane0_low, few_errors,
}
use mechatronics_embedded.Memtest.Count.{
  faults, lane_faults, Result, finish_test-Result, begin_test-Returns,
}
use mechatronics_embedded.Memtest.Simple.Rows.{
  words_of, words_of_lem, row_next, row_progress_keeps, write_rows-Written,
}
use mechatronics_embedded.Memtest.Simple.{rows_in, dat, read_row, read_rows, memtest_simple}

module _ {S : Type 0} {dev : Device S} {clean : S → S} {low high : ℕ} (ram : Ram dev clean low high)
    (top : high ≤ err_info) (word : ℕ → ℕ) (start size : ℕ) (from : low ≤ start) where
  -- The counts after `n` words from index `i` on, and what they leave.
  abbrev Counted : ℕ → ℕ → Tally → S → Tally → Machine S → Type 0
  Counted n i t s t' m' =
      (t'.werr ≡ t.werr + faults ram (row_next word) start n i tt)
      × (t'.merr ≡ t.merr + faults ram (row_next word) start n i tt)
      × (t'.lanes ≡ lane_faults ram (row_next word) start n i tt t.lanes)
      × (length t'.err_buf ≡ 256)
      × (t'.lanes.lane0 ≤ t'.merr)
      × Kept ram top s m'.hw

  read_row-Counted :
      (label : String) (verbose i n j k : ℕ) (t : Tally) (m : Machine S)
      → i % 16 ≡ 0
      → k ≡ i + 4 * j
      → j + n ≡ 4
      → start + i + 16 ≤ high
      → Written ram (row_next word) start size n k tt (ram.cells m.hw)
      → length t.err_buf ≡ 256
      → t.lanes.lane0 ≤ t.merr
      → Returns (Counted n k t m.hw) (read_row dev word start size label verbose i n j t m)
  unfolding read_row faults lane_faults Written
  read_row-Counted label verbose i zero j k t m e p sum h w full low' =
      returns (omega arith, omega arith, refl, full, low', λ a below. refl)
  read_row-Counted label verbose i (suc n) j k t m e p sum h (w, ws) full low' =
      Returns-then (row_progress_keeps ram word start size i m) (λ u m1 hw.
        let place : (start + i + 4 * j) % 2 ^ 32 ≡ start + k = omega arith in
        let col : k / 4 % 4 ≡ j = omega arith in
        let want = word (k / 4 % 4) in
        let value = ram.kept (start + k) want in
        let shown =
          ram.read_shows (start + k) m1.hw (omega arith) (omega arith)
          ∙ ap (λ (s : S). ram.cells s (start + k)) hw
          ∙ w in
        rw (place, shown, ← col)
          (Returns-then
            (compare_word-Compared ram top label verbose (start + k) _ want value t _ full)
            (λ t' m2 (werr, merr, lanes, sized, kept).
              let kept2 = λ (a : ℕ) (below : a < high).
                kept a below
                ∙ ap (λ (f : ℕ → ℕ). f a) (ram.read_leaves (start + k) m1.hw)
                ∙ ap (λ (s : S). ram.cells s a) hw in
              let low2 : t'.lanes.lane0 ≤ t'.merr =
                rw (lanes, merr) (lane0_low value want t.merr t.lanes low') in
              let still =
                Written-same ram (row_next word) start size n (k + 4) tt (ram.cells m.hw)
                  (ram.cells m2.hw) from (omega arith) (λ a over below. kept2 a below) ws in
              Returns-weaken
                (read_row-Counted label verbose i n (k / 4 % 4 + 1) (k + 4) t' m2 e (omega arith)
                  (omega arith) h still sized low2)
                (λ t2 m3 (werr2, merr2, lanes2, sized2, low3, kept3). (
                  omega (arith, werr2, werr),
                  omega (arith, merr2, merr),
                  lanes2
                      ∙ ap (lane_faults ram (row_next word) start n (k + 4) tt)
                          (lanes ∙ compared_lanes value want t.lanes),
                  sized2,
                  low3,
                  λ a below. kept3 a below ∙ kept2 a below,
                )))))

  no_faults : (i : ℕ) → faults ram (row_next word) start 0 i tt ≡ 0
  unfolding faults
  no_faults i = refl

  no_lane_faults : (i : ℕ) (l : Lanes) → l ≡ lane_faults ram (row_next word) start 0 i tt l
  unfolding lane_faults
  no_lane_faults i l = refl

  -- A row and the rows behind it.
  more_faults :
      (w i : ℕ)
      → faults ram (row_next word) start (suc (suc (suc (suc w)))) i tt
        ≡ faults ram (row_next word) start 4 i tt
          + faults ram (row_next word) start w (i + 4 + 4 + 4 + 4) tt
  unfolding faults
  more_faults w i = omega arith

  more_lanes :
      (w i : ℕ) (l : Lanes)
      → lane_faults ram (row_next word) start (suc (suc (suc (suc w)))) i tt l
        ≡ lane_faults ram
            (row_next word)
            start
            w
            (i + 4 + 4 + 4 + 4)
            tt
            (lane_faults ram (row_next word) start 4 i tt l)
  unfolding lane_faults
  more_lanes w i l = refl

  more-Written :
      (w i : ℕ) (f : ℕ → ℕ)
      → Written ram (row_next word) start size (suc (suc (suc (suc w)))) i tt f
      → Written ram (row_next word) start size 4 i tt f
        × Written ram (row_next word) start size w (i + 4 + 4 + 4 + 4) tt f
  unfolding Written
  more-Written w i f (a, (b, (c, (d, rest)))) = ((a, (b, (c, (d, tt)))), rest)

  read_rows-Counted :
      (label : String) (verbose n i : ℕ) (t : Tally) (m : Machine S)
      → i % 16 ≡ 0
      → start + i + n * 16 ≤ high
      → Written ram (row_next word) start size (words_of n) i tt (ram.cells m.hw)
      → length t.err_buf ≡ 256
      → t.lanes.lane0 ≤ t.merr
      → t.merr + faults ram (row_next word) start (words_of n) i tt ≤ 1000
      → Returns
          (Counted (words_of n) i t m.hw)
          (read_rows dev word start size label verbose n i t m)
  unfolding read_rows
  read_rows-Counted label verbose zero i t m e h ws full low' few = returns (
    omega (arith, no_faults i),
    omega (arith, no_faults i),
    no_lane_faults i t.lanes,
    full,
    low',
    λ a below. refl,
  )
  read_rows-Counted label verbose (suc n) i t m e h ws full low' few =
      let (row, behind) = more-Written (words_of n) i (ram.cells m.hw) ws in
      let sum = more_faults (words_of n) i in
      let next : i + 4 + 4 + 4 + 4 ≡ i + 16 = omega arith in
      let same = ap (λ (k : ℕ). faults ram (row_next word) start (words_of n) k tt) next in
      Returns-then
        (read_row-Counted label verbose i 4 0 i t m e (omega arith) refl (omega arith) row full
          low')
        (λ t' m2 (werr, merr, lanes, sized, low2, kept). rw (few_errors t' low2 (omega arith)) (
          let still =
            Written-same ram (row_next word) start size (words_of n) (i + 4 + 4 + 4 + 4) tt
              (ram.cells m.hw) (ram.cells m2.hw) from (omega (arith, words_of_lem n))
              (λ a over below. kept a below) behind in
          Returns-weaken
            (read_rows-Counted label verbose n (i + 16) t' m2 (omega arith) (omega arith)
              (rw next at still) sized low2 (omega (arith, sum, same, merr, few)))
            (λ t2 m3 (werr2, merr2, lanes2, sized2, low3, kept3). (
              omega (arith, werr2, werr, sum, same),
              omega (arith, merr2, merr, sum, same),
              lanes2
                  ∙ ap (λ (k : ℕ). lane_faults ram (row_next word) start (words_of n) k tt t'.lanes)
                      (sym next)
                  ∙ ap (lane_faults ram (row_next word) start (words_of n) (i + 4 + 4 + 4 + 4) tt)
                      lanes
                  ∙ sym (more_lanes (words_of n) i t.lanes),
              sized2,
              low3,
              λ a below. kept3 a below ∙ kept a below,
            ))))

-- The word of each column of a row.
abbrev pub column : ℕ → ℕ → ℕ → ℕ → ℕ → ℕ → ℕ
column qmask d0 d1 d2 d3 j =
    if j == 0
    then bit_and d0 qmask
    else if j == 1
    then bit_and d1 qmask
    else if j == 2
    then bit_and d2 qmask
    else bit_and d3 qmask

-- On memory from `low` to `high`, which holds the rows under test and lies below the mailbox of
-- the errors, with at most 1000 words that their cells do not keep, and for a loop that is not
-- -1: memtest_simple returns, adds exactly the number of these words to werr and to each errcnt
-- the number of those whose byte in its lane is not kept, and marks the mode in epp if there is
-- one; err_buf, of 256 words, is not left.
pub memtest_simple_counts :
    {S : Type 0} {dev : Device S} {clean : S → S} {low high : ℕ} (ram : Ram dev clean low high)
    → high ≤ err_info
    → (seconds : ℕ → Arg) (start size : ℕ) → low ≤ start
    → start + rows_in size * 16 ≤ high
    → (mode loop d0 d1 d2 d3 : ℕ) (g : Globals) (m : Machine S) → (loop == 0xffffffff) ≡ false
    → length g.err_buf ≡ 256
    → faults ram (row_next (column g.qmask d0 d1 d2 d3)) start (words_of (rows_in size)) 0 tt ≤ 1000
    → Returns
        (Result ram
          (row_next (column g.qmask d0 d1 d2 d3))
          start
          (words_of (rows_in size))
          tt
          mode
          g)
        (memtest_simple dev clean seconds start size mode loop d0 d1 d2 d3 g m)
unfolding memtest_simple
memtest_simple_counts ram top seconds start size from fits mode loop d0 d1 d2 d3 g m reads sized
      few =
    let word = dat g.qmask d0 d1 d2 d3 in
    rw reads (
      Returns-then (begin_test-Returns ram top seconds g.memtest_stat mode m) (λ u0 m0 begun.
        Returns-then
          (write_rows-Written ram word start size (rows_in size) 0 m0 from (omega arith)
            (omega arith) refl)
          (λ u m1 (ws, before).
            Returns-then
              (read_rows-Counted ram top word start size from _ g.verbose (rows_in size) 0 _ _ refl
                (omega arith) (rw (ram.flush_leaves m1.hw) ws) sized (omega arith) (omega arith))
              (λ t m2 (werr, merr, lanes, kept, low3, still).
                finish_test-Result ram top seconds (row_next word) _ start (words_of (rows_in size))
                  mode loop tt g t m2 werr (omega arith) lanes kept))))
