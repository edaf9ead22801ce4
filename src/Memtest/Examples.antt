-- ===== src/Memtest/Examples.antt =====
-- The theorems on the memory tests at concrete inputs: four words, one of which has a stuck bit.
use mechatronics_embedded.Base.{
  ℕ, ◌*◌, ◌/◌, refl, true, arith, ◌==◌, if◌then◌else◌, ==_refl, replicate, List, [], ◌∷◌, ◌+◌, ◌≡◌,
}
use mechatronics_embedded.Machine.{Device, Machine, num}
use mechatronics_embedded.Machine.Outcome.{Returns}
use mechatronics_embedded.Machine.Traffic.{writes_to}
use mechatronics_embedded.Memtest.{
  err_info, no_lanes, Globals, lfsr_next, lfsr_seed, words_in, ylfsr, memtest_lfsr, memtest_pat128,
}
use mechatronics_embedded.Memtest.Cells.{Ram}
use mechatronics_embedded.Memtest.Count.{
  faults, Result, memtest_lfsr_counts, repeated, memtest_pat128_counts,
}
use mechatronics_embedded.Memtest.Patterns.{update_patterns}
use mechatronics_embedded.Memtest.Modes.{memtest}
use mechatronics_embedded.Memtest.Modes.Count.{mode_sequence, memtest_counts}
use mechatronics_embedded.Memtest.Simple.{rows_in, memtest_simple}
use mechatronics_embedded.Memtest.Simple.Rows.{row_next}
use mechatronics_embedded.Memtest.Simple.Count.{column, memtest_simple_counts}
use mechatronics_embedded.Memtest.All.{run_selected}
use mechatronics_embedded.Memtest.All.Sound.{Clean, run_selected-Clean}

-- The lowest bit of the second word is stuck at 0.
abbrev holds : ℕ → ℕ → ℕ
holds a v = if a == 0x100004 then v / 2 * 2 else v

abbrev memory : Device (ℕ → ℕ)
memory = record {
  gpio_base = 0xe000a000;
  in32 = λ a s. (s a, s);
  out32 = λ a v s b. if b == a then holds a v else s b;
}

ram : Ram memory (λ s. s) 0x100000 0x200000
ram = record {
  cells = λ s. s;
  kept = holds;
  write_stores = λ a v s l h. rw (==_refl a);
  write_leaves = λ a v b s ne. rw ne;
  read_shows = λ a s l h. refl;
  read_leaves = λ a s. refl;
  flush_leaves = λ s. refl;
}

abbrev globals : Globals
globals = record {
  werr = 0;
  epp = 0;
  errcnt = no_lanes;
  err_buf = replicate 256 0;
  qmask = 0xffffffff;
  verbose = 9;
  rseed = 0;
  memtest_stat = true;
}

abbrev blank : Machine (ℕ → ℕ)
blank = record { hw = λ a. 0; input = []; trace = [] }

abbrev ones : ℕ → ℕ
ones i = 0xffffffff

memtest_lfsr_counts_example :
    Returns
      (Result ram (lfsr_next 0xffffffff) 0x100000 4 (lfsr_seed 11 1 0x017c1e23) 11 globals)
      (memtest_lfsr memory (λ s. s) num 0x100000 16 11 1 globals blank)
unfolding words_in faults ylfsr ram
memtest_lfsr_counts_example =
    memtest_lfsr_counts ram (omega arith) num 0x100000 16 (omega arith) (omega arith) 11 1 globals
      blank refl (omega arith)

memtest_pat128_counts_example :
    Returns
      (Result ram (repeated 0xffffffff ones) 0x100000 4 tt 9 globals)
      (memtest_pat128 memory (λ s. s) num 0x100000 16 9 1 ones globals blank)
unfolding words_in faults ram
memtest_pat128_counts_example =
    memtest_pat128_counts ram (omega arith) num 0x100000 16 (omega arith) (omega arith) 9 1 ones
      globals blank refl (omega arith)

memtest_counts_example :
    Returns
      (Result ram (mode_sequence 0xffffffff 0x100000 0) 0x100000 4 0x12345679 0 globals)
      (memtest memory (λ s. s) num 0x100000 16 0 1 globals blank)
unfolding words_in faults mode_sequence ram
memtest_counts_example =
    memtest_counts ram (omega arith) num 0x100000 16 (omega arith) (omega arith) 0 1 globals blank
      refl (omega arith)

memtest_simple_counts_example :
    Returns
      (Result ram (row_next (column 0xffffffff 0 0xffffffff 0 0xffffffff)) 0x100000 4 tt 5 globals)
      (memtest_simple memory (λ s. s) num 0x100000 16 5 1 0 0xffffffff 0 0xffffffff globals blank)
unfolding rows_in faults ram
memtest_simple_counts_example =
    memtest_simple_counts ram (omega arith) num 0x100000 16 (omega arith) (omega arith) 5 1 0
      0xffffffff 0 0xffffffff globals blank refl refl (omega arith)

abbrev good_memory : Device (ℕ → ℕ)
good_memory = record {
  gpio_base = 0xe000a000;
  in32 = λ a s. (s a, s);
  out32 = λ a v s b. if b == a then v else s b;
}

good_ram : Ram good_memory (λ s. s) 0x100000 0x200000
good_ram = record {
  cells = λ s. s;
  kept = λ a v. v;
  write_stores = λ a v s l h. rw (==_refl a);
  write_leaves = λ a v b s ne. rw ne;
  read_shows = λ a s l h. refl;
  read_leaves = λ a s. refl;
  flush_leaves = λ s. refl;
}

run_selected-Clean_example :
    Returns
      (λ g' m'. Clean g' × ((rest : List ℕ) × (writes_to (err_info + 24) m'.trace ≡ 0 ∷ rest)))
      (run_selected good_memory
        (λ s. s)
        num
        (update_patterns 32)
        0x100000
        64
        0x7fff
        0
        globals
        blank)
unfolding rows_in good_ram
run_selected-Clean_example =
    run_selected-Clean good_ram (λ a v. refl) (omega arith) num 0x100000 64 0 (omega arith)
      (omega arith) refl (update_patterns 32) 0x7fff globals blank
      (record { no_werr = refl; no_errcnt = refl; no_epp = refl; sized = refl })
