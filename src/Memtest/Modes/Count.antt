-- ===== src/Memtest/Modes/Count.antt =====
-- memtest counts the words whose cells do not keep them, and counts them exactly.
use mechatronics_embedded.Base.{
  zero, suc, ◌/◌, ◌==◌, ◌∙◌, refl, sym, ap, true, not, ltb, if◌then◌else◌, bit_and, bit_xor,
  bit_and_high, bit_and-one, subst, ℕ, ◌+◌, ◌*◌, ◌%◌, ◌≤◌, ◌^◌, ◌≡◌, arith, length,
}
use mechatronics_embedded.Machine.{Device, Machine, Arg}
use mechatronics_embedded.Machine.Outcome.{Returns, Returns-then}
use mechatronics_embedded.Memtest.{Globals, lanes_full, words_in, err_info}
use mechatronics_embedded.Memtest.Cells.{Ram, write_words-Written}
use mechatronics_embedded.Memtest.Compare.{few_lanes}
use mechatronics_embedded.Memtest.Count.{
  faults, Result, read_words-Counted, finish_test-Result, begin_test-Returns,
}
use mathlib.Core.Path.{fun_ext}
use mechatronics_embedded.Memtest.Registers.Fields.{bit_and-mask}
use mechatronics_embedded.Memtest.Patterns.{calc_value, pattern1, invertmask, entry}
use mechatronics_embedded.Memtest.Modes.{mode_word, mode_next, memtest}

-- One word at the even places, and another at the odd ones.
abbrev pub by_parity : ℕ → ℕ → ℕ → ℕ
by_parity even odd i = if i / 4 % 2 == 1 then odd else even

-- The sequences of the modes: the address, four constants, four alternations, the pattern of sixteen
-- words, the same inverted by turns, and the shift register.
unfoldable pub mode_sequence : ℕ → ℕ → ℕ → ℕ → ℕ → ℕ × ℕ
mode_sequence qmask start zero i r = (bit_and ((start + i) % 2 ^ 32) qmask, r)
mode_sequence qmask start (suc zero) i r = (0, r)
mode_sequence qmask start (suc (suc zero)) i r = (0xffffffff, r)
mode_sequence qmask start (suc (suc (suc zero))) i r = (0xaaaaaaaa, r)
mode_sequence qmask start (suc (suc (suc (suc zero)))) i r = (0x55555555, r)
mode_sequence qmask start (suc (suc (suc (suc (suc zero))))) i r = (by_parity 0 0xffffffff i, r)
mode_sequence qmask start (suc (suc (suc (suc (suc (suc zero)))))) i r =
    (by_parity 0xffffffff 0 i, r)
mode_sequence qmask start (suc (suc (suc (suc (suc (suc (suc zero))))))) i r =
    (by_parity 0x55555555 0xaaaaaaaa i, r)
mode_sequence qmask start (suc (suc (suc (suc (suc (suc (suc (suc zero)))))))) i r =
    (by_parity 0xaaaaaaaa 0x55555555 i, r)
mode_sequence qmask start (suc (suc (suc (suc (suc (suc (suc (suc (suc zero))))))))) i r =
    (entry pattern1 (i / 4 % 16), r)
mode_sequence qmask start (suc (suc (suc (suc (suc (suc (suc (suc (suc (suc zero)))))))))) i r =
    (bit_xor (entry pattern1 (i / 4 % 16)) (entry invertmask (i / 64 % 8)), r)
mode_sequence qmask start (suc (suc (suc (suc (suc (suc (suc (suc (suc (suc (suc k))))))))))) i r =
    (calc_value r, calc_value r)

odd_place : (i : ℕ) → not (bit_and i 4 == 0) ≡ (i / 4 % 2 == 1)
odd_place i =
    let whole : i % 4 + i / 4 * 4 ≡ i = omega arith in
    let masked : bit_and i 4 ≡ i / 4 % 2 * 4 =
      ap (λ (t : ℕ). bit_and t 4) (sym whole)
      ∙ bit_and_high 2 (i % 4) (i / 4) 1 (omega arith)
      ∙ ap (λ (t : ℕ). t * 4) (bit_and-one (i / 4)) in
    rw masked (ground arith)

mode_next-mode_sequence :
    (qmask start mode i r : ℕ) → mode_next qmask start mode i r ≡ mode_sequence qmask start mode i r
unfolding mode_next mode_word mode_sequence
mode_next-mode_sequence qmask start zero i r = refl
mode_next-mode_sequence qmask start (suc zero) i r = refl
mode_next-mode_sequence qmask start (suc (suc zero)) i r = refl
mode_next-mode_sequence qmask start (suc (suc (suc zero))) i r = refl
mode_next-mode_sequence qmask start (suc (suc (suc (suc zero)))) i r = refl
mode_next-mode_sequence qmask start (suc (suc (suc (suc (suc zero))))) i r = rw (odd_place i) refl
mode_next-mode_sequence qmask start (suc (suc (suc (suc (suc (suc zero)))))) i r =
    rw (odd_place i) refl
mode_next-mode_sequence qmask start (suc (suc (suc (suc (suc (suc (suc zero))))))) i r =
    rw (odd_place i) refl
mode_next-mode_sequence qmask start (suc (suc (suc (suc (suc (suc (suc (suc zero)))))))) i r =
    rw (odd_place i) refl
mode_next-mode_sequence qmask start (suc (suc (suc (suc (suc (suc (suc (suc (suc zero))))))))) i r =
    rw (bit_and-mask 4 (i / 4)) refl
mode_next-mode_sequence qmask start (suc (suc (suc (suc (suc (suc (suc (suc (suc (suc zero))))))))))
      i r =
    rw (bit_and-mask 4 (i / 4), bit_and-mask 3 (i / 64)) refl
mode_next-mode_sequence qmask start
      (suc (suc (suc (suc (suc (suc (suc (suc (suc (suc (suc k))))))))))) i r =
    let above : ltb 10 (suc (suc (suc (suc (suc (suc (suc (suc (suc (suc (suc k))))))))))) ≡ true =
      ground arith in
    rw above refl

-- The theorem below with the sequence as memtest computes it.
memtest_counts_as_run :
    {S : Type 0} {dev : Device S} {clean : S → S} {low high : ℕ} (ram : Ram dev clean low high)
    → high ≤ err_info
    → (seconds : ℕ → Arg) (start size : ℕ) → low ≤ start
    → start + words_in size * 4 ≤ high
    → (mode loop : ℕ) (g : Globals) (m : Machine S) → length g.err_buf ≡ 256
    → faults ram
        (mode_next g.qmask start mode)
        start
        (words_in size)
        0
        ((0x12345678 + loop + 19 * mode) % 2 ^ 32)
      ≤ 1000
    → Returns
        (Result ram
          (mode_next g.qmask start mode)
          start
          (words_in size)
          ((0x12345678 + loop + 19 * mode) % 2 ^ 32)
          mode
          g)
        (memtest dev clean seconds start size mode loop g m)
unfolding memtest
memtest_counts_as_run ram top seconds start size from fits mode loop g m sized few =
    let next = mode_next g.qmask start mode in
    let randval = (0x12345678 + loop + 19 * mode) % 2 ^ 32 in
    Returns-then (begin_test-Returns ram top seconds g.memtest_stat mode m) (λ u0 m0 begun.
      Returns-then
        (write_words-Written ram next start size (words_in size) 0 randval m0 from (omega arith)
          (omega arith))
        (λ u m1 (ws, before).
          Returns-then
            (read_words-Counted ram top next start size from lanes_full few_lanes _ g.verbose
              (words_in size) 0 randval _ _ (omega arith) (rw (ram.flush_leaves m1.hw) ws) sized
              (omega arith) (omega arith))
            (λ t m2 (werr, merr, lanes, kept).
              finish_test-Result ram top seconds next _ start (words_in size) mode loop randval g t
                _ werr (omega arith) lanes kept)))

-- On memory from `low` to `high`, which holds the words under test and lies below the mailbox of
-- the errors, with at most 1000 words that their cells do not keep: memtest returns, adds
-- exactly the number of these words to werr and to each errcnt the number of those whose byte in
-- its lane is not kept, and marks the mode in epp if there is one; err_buf, of 256 words, is not
-- left.
pub memtest_counts :
    {S : Type 0} {dev : Device S} {clean : S → S} {low high : ℕ} (ram : Ram dev clean low high)
    → high ≤ err_info
    → (seconds : ℕ → Arg) (start size : ℕ) → low ≤ start
    → start + words_in size * 4 ≤ high
    → (mode loop : ℕ) (g : Globals) (m : Machine S) → length g.err_buf ≡ 256
    → faults ram
        (mode_sequence g.qmask start mode)
        start
        (words_in size)
        0
        ((0x12345678 + loop + 19 * mode) % 2 ^ 32)
      ≤ 1000
    → Returns
        (Result ram
          (mode_sequence g.qmask start mode)
          start
          (words_in size)
          ((0x12345678 + loop + 19 * mode) % 2 ^ 32)
          mode
          g)
        (memtest dev clean seconds start size mode loop g m)
memtest_counts {dev = dev} {clean = clean} ram top seconds start size from fits mode loop g m sized
      few =
    let randval = (0x12345678 + loop + 19 * mode) % 2 ^ 32 in
    let same : mode_next g.qmask start mode ≡ mode_sequence g.qmask start mode =
      fun_ext (λ i. fun_ext (λ r. mode_next-mode_sequence g.qmask start mode i r)) in
    subst
      (λ (next : ℕ → ℕ → ℕ × ℕ).
        Returns (Result ram next start (words_in size) randval mode g)
          (memtest dev clean seconds start size mode loop g m))
      same
      (memtest_counts_as_run ram top seconds start size from fits mode loop g m sized (
        subst (λ (next : ℕ → ℕ → ℕ × ℕ). faults ram next start (words_in size) 0 randval ≤ 1000)
          (sym same) few))
