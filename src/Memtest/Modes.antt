-- ===== src/Memtest/Modes.antt =====
-- platform_standalone/mfg_test_src/memtest.c: memtest, the test whose mode chooses the words.
pub mod Count
use mechatronics_embedded.Base.{
  ℕ, zero, suc, ◌+◌, ◌*◌, ◌/◌, ◌%◌, ◌^◌, bit_and, bit_xor, not, ltb, ◌==◌, if◌then◌else◌,
}
use mechatronics_embedded.Machine.{Device, Arg, Cmd, pure, ◌>>=◌, ◌>>◌, xil_in32}
use mechatronics_embedded.Memtest.{
  no_lanes, Globals, lanes_full, words_in, begin_test, write_words, read_words, flush, finish_test,
}
use mechatronics_embedded.Memtest.Patterns.{calc_value, pattern1, invertmask, entry}

-- The words of the modes 0 to 10 at the index `i`.
unfoldable pub mode_word : ℕ → ℕ → ℕ → ℕ → ℕ
mode_word qmask start mode i =
    let odd = not (bit_and i 4 == 0) in
    if mode == 0
    then bit_and ((start + i) % 2 ^ 32) qmask
    else if mode == 1
    then 0
    else if mode == 2
    then 0xffffffff
    else if mode == 3
    then 0xaaaaaaaa
    else if mode == 4
    then 0x55555555
    else if mode == 5
    then (if odd then 0xffffffff else 0)
    else if mode == 6
    then (if odd then 0 else 0xffffffff)
    else if mode == 7
    then (if odd then 0xaaaaaaaa else 0x55555555)
    else if mode == 8
    then (if odd then 0x55555555 else 0xaaaaaaaa)
    else if mode == 9
    then entry pattern1 (bit_and (i / 4) 15)
    else bit_xor (entry pattern1 (bit_and (i / 4) 15)) (entry invertmask (bit_and (i / 64) 7))

-- The word for the index `i`, and the next state of the sequence, which only the modes from 11 on
-- step.
unfoldable pub mode_next : ℕ → ℕ → ℕ → ℕ → ℕ → ℕ × ℕ
mode_next qmask start mode i randval =
    if ltb 10 mode
    then (calc_value randval, calc_value randval)
    else (mode_word qmask start mode i, randval)

module _ {S : Type 0} (dev : Device S) (d_cache_invalidate : S → S) (seconds : ℕ → Arg) where
  pub memtest : ℕ → ℕ → ℕ → ℕ → Globals → Cmd S Globals
  memtest start size mode loop g =
      let randval = (0x12345678 + loop + 19 * mode) % 2 ^ 32 in
      let next = mode_next g.qmask start mode in
      do
        begin_test dev g.memtest_stat mode
        write_words dev next start size (words_in size) 0 randval
        flush dev d_cache_invalidate seconds
        t ←
            read_words dev next start size lanes_full
              "\rMemtest_0 ERROR: addr=0x%X rd/ref/xor = 0x%08X 0x%08X 0x%08X \r\n" g.verbose
              (words_in size) 0 randval
              (record { werr = g.werr; merr = 0; lanes = no_lanes; err_buf = g.err_buf })
        flush dev d_cache_invalidate seconds
        finish_test dev d_cache_invalidate seconds
            "\rMemtest_0 (%3d:%2d)      %d         [%8d] [%8d] [%8d] [%8d]    %g\n" mode loop g t

  -- The read without a comparison, over `n` words from index `i` on.
  pub touch_words : ℕ → ℕ → ℕ → Cmd S (Unit {0})
  touch_words start zero i = pure tt
  touch_words start (suc n) i = do
    seen ← xil_in32 dev ((start + i) % 2 ^ 32)
    touch_words start n (i + 4)

  pub memtest_readonly : ℕ → ℕ → Cmd S (Unit {0})
  memtest_readonly start size = touch_words start (words_in size) 0
