-- ===== src/Memtest/Simple.antt =====
-- platform_standalone/mfg_test_src/memtest.c: memtest_simple, which repeats four words.
pub mod Rows
pub mod Count
use mechatronics_embedded.Base.{
  ℕ, zero, suc, ◌+◌, ◌*◌, ◌/◌, ◌%◌, ◌^◌, bit_and, ◌&&◌, String, [], ltb, ◌==◌, if◌then◌else◌,
}
use mechatronics_embedded.Machine.{Device, Arg, Cmd, pure, ◌>>=◌, ◌>>◌, printf, xil_in32, xil_out32}
use mechatronics_embedded.Memtest.{
  no_lanes, Globals, Tally, too_many, begin_test, compare_word, flush, finish_test,
}

-- How often `for (i=0; i<size; i+=16)` runs, where a size from 2 ^ 31 on is a
-- negative int.
unfoldable pub rows_in : ℕ → ℕ
rows_in size = if ltb size (2 ^ 31) then (size + 15) / 16 else 0

-- The array `dat`.
abbrev pub dat : ℕ → ℕ → ℕ → ℕ → ℕ → ℕ → ℕ
dat qmask d0 d1 d2 d3 j =
    if j == 0
    then bit_and d0 qmask
    else if j == 1
    then bit_and d1 qmask
    else if j == 2
    then bit_and d2 qmask
    else bit_and d3 qmask

module _ {S : Type 0} (dev : Device S) where
  -- The progress bar of this test.
  pub row_progress : ℕ → ℕ → Cmd S (Unit {0})
  row_progress i size = if i % 0x4000000 == 0 && ltb 0x4000000 size then printf "." [] else pure tt

  module _ (word : ℕ → ℕ) (start size : ℕ) where
    -- The loops over `n` rows of four words, from index `i` on, and over `n` words of a row, from
    -- number `j` on.
    pub write_rows : ℕ → ℕ → Cmd S (Unit {0})
    write_rows zero i = pure tt
    write_rows (suc n) i = do
      xil_out32 dev ((start + i) % 2 ^ 32) (word 0)
      xil_out32 dev ((start + i + 4) % 2 ^ 32) (word 1)
      xil_out32 dev ((start + i + 8) % 2 ^ 32) (word 2)
      xil_out32 dev ((start + i + 12) % 2 ^ 32) (word 3)
      row_progress i size
      write_rows n (i + 16)

    pub read_row : String → ℕ → ℕ → ℕ → ℕ → Tally → Cmd S Tally
    read_row label verbose i zero j t = pure t
    read_row label verbose i (suc n) j t = do
      row_progress i size
      rddat ← xil_in32 dev ((start + i + 4 * j) % 2 ^ 32)
      t' ←
          compare_word dev label verbose ((start + i + 4 * j) % 2 ^ 32)
            ((start + i + 4 + j) % 2 ^ 32) (word j) rddat t
      read_row label verbose i n (j + 1) t'

    pub read_rows : String → ℕ → ℕ → ℕ → Tally → Cmd S Tally
    read_rows label verbose zero i t = pure t
    read_rows label verbose (suc n) i t = do
      t' ← read_row label verbose i 4 0 t
      if too_many t' then pure t' else read_rows label verbose n (i + 16) t'

  module _ (d_cache_invalidate : S → S) (seconds : ℕ → Arg) where
    -- The loop -1 only writes.
    pub memtest_simple : ℕ → ℕ → ℕ → ℕ → ℕ → ℕ → ℕ → ℕ → Globals → Cmd S Globals
    memtest_simple start size mode loop d0 d1 d2 d3 g =
        let word = dat g.qmask d0 d1 d2 d3 in
        do
          begin_test dev g.memtest_stat mode
          write_rows word start size (rows_in size) 0
          flush dev d_cache_invalidate seconds
          if loop == 0xffffffff then pure g else (do
            t ←
                read_rows word start size
                  "\rMemtest_s ERROR: addr=0x%X rd/ref/xor = 0x%08X 0x%08X 0x%08X \r\n" g.verbose
                  (rows_in size) 0
                  (record { werr = g.werr; merr = 0; lanes = no_lanes; err_buf = g.err_buf })
            finish_test dev d_cache_invalidate seconds
                "\rMemtest_s (%3d:%2d)      %d         [%8d] [%8d] [%8d] [%8d]    %g\n" mode loop g
                t)
