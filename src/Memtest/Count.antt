-- ===== src/Memtest/Count.antt =====
-- The tests count the words whose cells do not keep them, and count them exactly.
use mechatronics_embedded.Base.{
  ℕ, zero, suc, ◌+◌, ◌*◌, ◌/◌, ◌%◌, bit_and, ◌≤◌, ◌^◌, ◌≡◌, refl, ap, ◌∙◌, Bool, true, false, arith,
  ◌==◌, if◌then◌else◌, ltb, Bool-cases, inl, inr, length, String,
}
use mechatronics_embedded.Machine.{Device, Machine, Arg}
use mechatronics_embedded.Machine.Outcome.{Returns, returns, Returns-then, Returns-weaken}
use mechatronics_embedded.Emio.{any_set}
use mechatronics_embedded.Memtest.{
  Lanes, no_lanes, Globals, Tally, add_lanes, words_in, lfsr_next, lfsr_seed, pat128_next,
  begin_test, timer_init, timer_read, err_info, too_many, read_words, finish_test, run_test,
  memtest_lfsr, memtest_pat128,
}
use mechatronics_embedded.Memtest.Cells.{
  Ram, Written, Written-same, write_words-Written, progress_keeps,
}
use mechatronics_embedded.Memtest.Compare.{
  count_bytes, compared_lanes, compare_word-Compared, lane0_low, few_errors,
}

module _ {S : Type 0} {dev : Device S} {clean : S → S} {low high : ℕ} (ram : Ram dev clean low high)
    {R : Type 0} (next : ℕ → R → ℕ × R) (start : ℕ) where
  -- How many of `n` words, from index `i` on, are not kept.
  unfoldable pub faults : ℕ → ℕ → R → ℕ
  faults zero i r = 0
  faults (suc n) i r =
      (if ram.kept (start + i) (next i r).0 == (next i r).0 then 0 else 1)
      + faults n (i + 4) (next i r).1

  -- The counts of the byte lanes after them, each of which is the number of words of which the byte is
  -- not kept.
  unfoldable pub lane_faults : ℕ → ℕ → R → Lanes → Lanes
  lane_faults zero i r l = l
  lane_faults (suc n) i r l =
      lane_faults n (i + 4) (next i r).1
        (count_bytes (ram.kept (start + i) (next i r).0) (next i r).0 l)

  -- The globals after a test of `n` words in mode `mode`.
  abbrev pub Result : ℕ → R → ℕ → Globals → Globals → Machine S → Type 0
  Result n r mode g g' m' =
      (g'.werr ≡ g.werr + faults n 0 r)
      × (g'.errcnt ≡ add_lanes g.errcnt (lane_faults n 0 r no_lanes))
      × (g'.epp ≡ (if faults n 0 r == 0 then g.epp else (g.epp + 2 ^ mode) % 2 ^ 32))
      × (length g'.err_buf ≡ 256)

module _ {S : Type 0} {dev : Device S} {clean : S → S} {low high : ℕ} (ram : Ram dev clean low high)
    (top : high ≤ err_info) {R : Type 0} (next : ℕ → R → ℕ × R) (start size : ℕ)
    (from : low ≤ start) where
  -- The counts after `n` words, from index `i` on.
  abbrev pub Counted : ℕ → ℕ → R → Tally → Tally → Machine S → Type 0
  Counted n i r t t' m' =
      (t'.werr ≡ t.werr + faults ram next start n i r)
      × (t'.merr ≡ t.merr + faults ram next start n i r)
      × (t'.lanes ≡ lane_faults ram next start n i r t.lanes)
      × (length t'.err_buf ≡ 256)

  pub read_words-Counted :
      (stop : Tally → Bool)
      → ((t : Tally) → t.lanes.lane0 ≤ t.merr → t.merr ≤ 1000 → stop t ≡ false)
      → (label : String) (verbose n i : ℕ) (r : R) (t : Tally) (m : Machine S)
      → start + i + n * 4 ≤ high
      → Written ram next start size n i r (ram.cells m.hw)
      → length t.err_buf ≡ 256
      → t.lanes.lane0 ≤ t.merr
      → t.merr + faults ram next start n i r ≤ 1000
      → Returns (Counted n i r t) (read_words dev next start size stop label verbose n i r t m)
  unfolding read_words faults lane_faults Written
  read_words-Counted stop go label verbose zero i r t m h w full low' few =
      returns (omega arith, omega arith, refl, full)
  read_words-Counted stop go label verbose (suc n) i r t m h (w, ws) full low' few =
      Returns-then (progress_keeps ram next start size i m) (λ u m1 hw.
        let e : (start + i) % 2 ^ 32 ≡ start + i = omega arith in
        let shown =
          ram.read_shows (start + i) m1.hw (omega arith) (omega arith)
          ∙ ap (λ (s : S). ram.cells s (start + i)) hw
          ∙ w in
        rw (e, shown)
          (Returns-then
            (compare_word-Compared ram top label verbose (start + i) (start + i) (next i r).0
              (ram.kept (start + i) (next i r).0) t _ full)
            (λ t' m2 (werr, merr, lanes, sized, kept).
              let value = ram.kept (start + i) (next i r).0 in
              let low2 : t'.lanes.lane0 ≤ t'.merr =
                rw (lanes, merr) (lane0_low value (next i r).0 t.merr t.lanes low') in
              let few2 : t'.merr + faults ram next start n (i + 4) (next i r).1 ≤ 1000 =
                omega arith in
              rw (go t' low2 (omega arith)) (
                Returns-weaken
                  (read_words-Counted stop go label verbose n (i + 4) (next i r).1 t' m2
                    (omega arith)
                    (Written-same ram next start size n (i + 4) (next i r).1 (ram.cells m.hw)
                      (ram.cells m2.hw) from (omega arith)
                      (λ a over below.
                        kept a below
                        ∙ ap (λ (f : ℕ → ℕ). f a) (ram.read_leaves (start + i) m1.hw)
                        ∙ ap (λ (s : S). ram.cells s a) hw)
                      ws)
                    sized low2 few2)
                  (λ t2 m3 (werr2, merr2, lanes2, sized2). (
                    omega (arith, werr2, werr),
                    omega (arith, merr2, merr),
                    lanes2
                        ∙ ap (lane_faults ram next start n (i + 4) (next i r).1)
                            (lanes ∙ compared_lanes value (next i r).0 t.lanes),
                    sized2,
                  ))))))

-- A pattern of 128 words over and over, as the word at a byte offset.
abbrev pub repeated : ℕ → (ℕ → ℕ) → ℕ → Unit {0} → ℕ × Unit {0}
repeated qmask pat i u = (bit_and (pat (i / 4 % 128)) qmask, u)

module _ {S : Type 0} {dev : Device S} {clean : S → S} {low high : ℕ} (ram : Ram dev clean low high)
    (top : high ≤ err_info) (seconds : ℕ → Arg) where
  pub finish_test-Result :
      {R : Type 0} (next : ℕ → R → ℕ × R) (report : String) (start n mode loop : ℕ) (r : R)
      (g : Globals) (t : Tally) (m : Machine S)
      → t.werr ≡ g.werr + faults ram next start n 0 r
      → t.merr ≡ faults ram next start n 0 r
      → t.lanes ≡ lane_faults ram next start n 0 r no_lanes
      → length t.err_buf ≡ 256
      → Returns
          (Result ram next start n r mode g)
          (finish_test dev clean seconds report mode loop g t m)
  unfolding finish_test timer_read
  finish_test-Result next report start n mode loop r g t m werr merr lanes sized =
      let epp : (if ltb 0 t.merr then (g.epp + 2 ^ mode) % 2 ^ 32 else g.epp)
          ≡ (if faults ram next start n 0 r == 0 then g.epp else (g.epp + 2 ^ mode) % 2 ^ 32) =
        rw (← merr) (ground arith) in
      elim (Bool-cases (any_set g.verbose 1)) [
        | inl loud ↦ rw loud (returns (werr, ap (add_lanes g.errcnt) lanes, epp, sized))
        | inr quiet ↦ rw quiet (returns (werr, ap (add_lanes g.errcnt) lanes, epp, sized))
      ]

  pub begin_test-Returns :
      (stat : Bool) (mode : ℕ) (m : Machine S)
      → Returns (λ u m'. Unit {0}) (begin_test dev stat mode m)
  unfolding begin_test timer_init
  begin_test-Returns true mode m = returns tt
  begin_test-Returns false mode m = returns tt

  module _ (start size : ℕ) (from : low ≤ start) (fits : start + words_in size * 4 ≤ high) where
    run_test-Result :
        {R : Type 0} (next : ℕ → R → ℕ × R) (r : R) (label report : String) (mode loop : ℕ)
        (g : Globals) (m : Machine S)
        → length g.err_buf ≡ 256
        → faults ram next start (words_in size) 0 r ≤ 1000
        → Returns
            (Result ram next start (words_in size) r mode g)
            (run_test dev clean seconds next r label report start size mode loop g m)
    unfolding run_test
    run_test-Result next r label report mode loop g m sized few =
        Returns-then (begin_test-Returns g.memtest_stat mode m) (λ u0 m0 begun.
          Returns-then
            (write_words-Written ram next start size (words_in size) 0 r m0 from (omega arith)
              (omega arith))
            (λ u m1 (ws, before).
              Returns-then
                (read_words-Counted ram top next start size from too_many few_errors label g.verbose
                  (words_in size) 0 r _ _ (omega arith) (rw (ram.flush_leaves m1.hw) ws) sized
                  (omega arith) (omega arith))
                (λ t m2 (werr, merr, lanes, kept).
                  finish_test-Result next report start (words_in size) mode loop r g t m2 werr
                    (omega arith) lanes kept)))

    -- On memory from `low` to `high`, which holds the words under test and lies below the
    -- mailbox of the errors, with at most 1000 words that their cells do not keep: memtest_lfsr
    -- returns, adds exactly the number of these words to werr and to each errcnt the number of
    -- those whose byte in its lane is not kept, and marks the mode in epp if there is one;
    -- err_buf, of 256 words, is not left.
    pub memtest_lfsr_counts :
        (mode loop : ℕ) (g : Globals) (m : Machine S)
        → length g.err_buf ≡ 256
        → faults ram
            (lfsr_next g.qmask)
            start
            (words_in size)
            0
            (lfsr_seed mode loop ((g.rseed + 0x017c1e23) % 2 ^ 32))
          ≤ 1000
        → Returns
            (Result ram
              (lfsr_next g.qmask)
              start
              (words_in size)
              (lfsr_seed mode loop ((g.rseed + 0x017c1e23) % 2 ^ 32))
              mode
              g)
            (memtest_lfsr dev clean seconds start size mode loop g m)
    unfolding memtest_lfsr
    memtest_lfsr_counts mode loop g m sized few =
        run_test-Result (lfsr_next g.qmask) _ _ _ mode loop
          (record g { rseed = (g.rseed + 0x017c1e23) % 2 ^ 32 }) m sized few

    -- On memory from `low` to `high`, which holds the words under test and lies below the
    -- mailbox of the errors, with at most 1000 words that their cells do not keep:
    -- memtest_pat128 with a pattern of 128 words that repeats returns, adds exactly the number
    -- of these words to werr and to each errcnt the number of those whose byte in its lane is
    -- not kept, and marks the mode in epp if there is one; err_buf, of 256 words, is not left.
    pub memtest_pat128_counts :
        (mode loop : ℕ) (pat : ℕ → ℕ) (g : Globals) (m : Machine S)
        → length g.err_buf ≡ 256
        → faults ram (repeated g.qmask pat) start (words_in size) 0 tt ≤ 1000
        → Returns
            (Result ram (repeated g.qmask pat) start (words_in size) tt mode g)
            (memtest_pat128 dev clean seconds start size mode loop pat g m)
    unfolding memtest_pat128
    memtest_pat128_counts mode loop pat g m sized few =
        run_test-Result (pat128_next g.qmask pat) tt _ _ mode loop g m sized few
