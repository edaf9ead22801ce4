-- ===== src/Memtest.antt =====
-- platform_standalone/mfg_test_src/memtest.c: the memory tests with a pseudo-random sequence and
-- with a pattern of 128 words. An `int` is a bit pattern of 32 bits, an `int` that counts is a number.
pub mod Cells
pub mod Compare
pub mod Count
pub mod Eye
pub mod Sweep
pub mod Registers
pub mod Pll
pub mod Patterns
pub mod Modes
pub mod Simple
pub mod All
mod Examples
use mechatronics_embedded.Base.{
  ℕ, zero, suc, ◌+◌, ◌-◌, ◌*◌, ◌/◌, ◌%◌, ◌^◌, bit_and, bit_xor, Bool, true, false, not, ◌&&◌, List,
  [], ◌∷◌, String, ltb, leb, ◌==◌, if◌then◌else◌,
}
use mechatronics_embedded.Machine.{
  Device, Machine, Arg, Cmd, num, ok, fault, pure, ◌>>=◌, ◌>>◌, printf, load, store, xil_in32,
  xil_out32,
}
use mechatronics_embedded.Emio.{any_set}

abbrev pub mailbox_stat : ℕ
mailbox_stat = 0xf800102c

abbrev pub err_info : ℕ
err_info = 0xe000b080

-- YLFSR and calc_value: one step of the shift register with taps at bits 30 and 27.
unfoldable pub ylfsr : ℕ → ℕ
ylfsr a = (a * 2 + bit_xor (bit_xor (a / 2 ^ 30 % 2) (a / 2 ^ 27 % 2)) 1) % 2 ^ 32

-- A count for each byte lane.
pub record Lanes : Type 0 where
  pub lane0 : ℕ
  pub lane1 : ℕ
  pub lane2 : ℕ
  pub lane3 : ℕ

abbrev pub no_lanes : Lanes
no_lanes = record { lane0 = 0; lane1 = 0; lane2 = 0; lane3 = 0 }

-- The globals of the tests.
pub record Globals : Type 0 where
  pub werr : ℕ
  pub epp : ℕ
  pub errcnt : Lanes
  pub err_buf : List ℕ
  pub qmask : ℕ
  pub verbose : ℕ
  pub rseed : ℕ
  pub memtest_stat : Bool

-- The counts while a test reads: `werr` and `err_buf` are the globals, `merr` and `lanes` are local.
pub record Tally : Type 0 where
  pub werr : ℕ
  pub merr : ℕ
  pub lanes : Lanes
  pub err_buf : List ℕ

-- The count of a lane after a word: `(data & mask) != (ref & mask)`.
pub lane_count : ℕ → ℕ → ℕ → ℕ → ℕ
lane_count mask rddat want n = if bit_and rddat mask == bit_and want mask then n else n + 1

unfoldable pub bump : ℕ → ℕ → Lanes → Lanes
unfolding lane_count
bump rddat want l = record {
  lane0 = lane_count 0x000000ff rddat want l.lane0;
  lane1 = lane_count 0x0000ff00 rddat want l.lane1;
  lane2 = lane_count 0x00ff0000 rddat want l.lane2;
  lane3 = lane_count 0xff000000 rddat want l.lane3;
}

abbrev pub add_lanes : Lanes → Lanes → Lanes
add_lanes a b = record {
  lane0 = a.lane0 + b.lane0;
  lane1 = a.lane1 + b.lane1;
  lane2 = a.lane2 + b.lane2;
  lane3 = a.lane3 + b.lane3;
}

-- Every lane has more than 1000 errors.
unfoldable pub lanes_full : Tally → Bool
lanes_full t =
    ltb 1000 t.lanes.lane0
    && (ltb 1000 t.lanes.lane1 && (ltb 1000 t.lanes.lane2 && ltb 1000 t.lanes.lane3))

-- The test for too many errors, which ends most tests early.
unfoldable pub too_many : Tally → Bool
too_many t = not (t.merr == 0) && lanes_full t

-- The word for the index `i`, and the next state of the sequence.
abbrev pub lfsr_next : ℕ → ℕ → ℕ → ℕ × ℕ
lfsr_next qmask i randval = (bit_and (ylfsr randval) qmask, ylfsr randval)

-- The word for the index `i` of a pattern of 128 words.
abbrev pub pat128_next : ℕ → (ℕ → ℕ) → ℕ → Unit {0} → ℕ × Unit {0}
pat128_next qmask pat i u = (bit_and (pat (i / 4 % 128)) qmask, u)

-- The start of the sequence.
abbrev pub lfsr_seed : ℕ → ℕ → ℕ → ℕ
lfsr_seed mode loop rseed = (0x12345678 + loop + 19 * mode + rseed) % 2 ^ 32

-- How often `for (i=0; i<size; i+=4)` runs, where a size from 2 ^ 31 on is a negative
-- int.
unfoldable pub words_in : ℕ → ℕ
words_in size = if ltb size (2 ^ 31) then (size + 3) / 4 else 0

module _ {S : Type 0} (dev : Device S) where
  -- The progress bar.
  pub progress : ℕ → ℕ → Cmd S (Unit {0})
  progress i size = if i % 0x2000000 == 0 && ltb 0x2000000 size then printf "." [] else pure tt

  pub timer_init : Cmd S (Unit {0})
  timer_init = do xil_out32 dev 0xf8002000 0x1f; xil_out32 dev 0xf800200c 0x30

  -- How a test begins.
  pub begin_test : Bool → ℕ → Cmd S (Unit {0})
  begin_test memtest_stat mode = do
    if memtest_stat then xil_out32 dev mailbox_stat (100 + mode) else pure tt
    timer_init

  pub timer_read : Cmd S ℕ
  timer_read = xil_in32 dev 0xf8002018

  -- The entry `n` of err_buf.
  pub put_error : List ℕ → ℕ → ℕ → ℕ → ℕ → Cmd S (List ℕ)
  put_error err_buf n addr wrdat rddat = do
    b0 ← store err_buf (3 * n) addr
    b1 ← store b0 (3 * n + 1) wrdat
    store b1 (3 * n + 2) rddat

  -- With `werr` 0 the entry would be the one with the index -1, before the array.
  pub keep_error : ℕ → List ℕ → ℕ → ℕ → ℕ → Cmd S (List ℕ)
  keep_error werr err_buf addr wrdat rddat =
      if werr == 0
      then (λ _. fault)
      else if leb werr 80
      then put_error err_buf (werr - 1) addr wrdat rddat
      else pure err_buf

  pub error_info : ℕ → List ℕ → ℕ → ℕ → ℕ → Cmd S (List ℕ)
  error_info werr err_buf addr wrdat rddat = do
    if leb werr 1
        then (do
          xil_out32 dev err_info addr
          xil_out32 dev (err_info + 4) wrdat
          xil_out32 dev (err_info + 8) rddat)
        else pure tt
    keep_error werr err_buf addr wrdat rddat

  -- The comparison of one word; `label` is the message of the test, and `noted` the address that goes
  -- to error_info.
  pub compare_word : String → ℕ → ℕ → ℕ → ℕ → ℕ → Tally → Cmd S Tally
  compare_word label verbose addr noted want rddat t = if rddat == want then pure t else (do
    if any_set verbose 8 && leb (t.merr + 1) 10
        then printf label (num addr ∷ num rddat ∷ num want ∷ num (bit_xor rddat want) ∷ [])
        else pure tt
    err_buf' ← error_info (t.werr + 1) t.err_buf noted want rddat
    pure (record {
      werr = t.werr + 1;
      merr = t.merr + 1;
      lanes = bump rddat want t.lanes;
      err_buf = err_buf';
    }))

  -- The two loops of a test over `n` words that are left, from index `i` on. The word for an index
  -- comes from `next`, which also steps the state `r` of the sequence; `stop` ends the reads early.
  module _ {R : Type 0} (next : ℕ → R → ℕ × R) (start size : ℕ) where
    pub write_words : ℕ → ℕ → R → Cmd S (Unit {0})
    write_words zero i r = pure tt
    write_words (suc n) i r = do
      let (want, r') = next i r
      xil_out32 dev ((start + i) % 2 ^ 32) want
      progress i size
      write_words n (i + 4) r'

    pub read_words : (Tally → Bool) → String → ℕ → ℕ → ℕ → R → Tally → Cmd S Tally
    read_words stop label verbose zero i r t = pure t
    read_words stop label verbose (suc n) i r t = do
      progress i size
      let (want, r') = next i r
      rddat ← xil_in32 dev ((start + i) % 2 ^ 32)
      t' ← compare_word label verbose ((start + i) % 2 ^ 32) ((start + i) % 2 ^ 32) want rddat t
      if stop t' then pure t' else read_words stop label verbose n (i + 4) r' t'

  -- The cache maintenance is by coprocessor instructions; `seconds` is the time of a timer reading
  -- as it is printed.
  module _ (d_cache_invalidate : S → S) (seconds : ℕ → Arg) where
    abbrev pub flush : Cmd S (Unit {0})
    flush m = ok tt (record m { hw = d_cache_invalidate m.hw })

    -- The rest of a test: the time, the report and the sums.
    pub finish_test : String → ℕ → ℕ → Globals → Tally → Cmd S Globals
    finish_test report mode loop g t = do
      time ← timer_read
      if any_set g.verbose 1
          then printf report (
              num loop
              ∷ num mode
              ∷ num t.merr
              ∷ num t.lanes.lane0
              ∷ num t.lanes.lane1
              ∷ num t.lanes.lane2
              ∷ num t.lanes.lane3
              ∷ seconds time
              ∷ [])
          else pure tt
      pure (record g {
        werr = t.werr;
        err_buf = t.err_buf;
        errcnt = add_lanes g.errcnt t.lanes;
        epp = if ltb 0 t.merr then (g.epp + 2 ^ mode) % 2 ^ 32 else g.epp;
      })

    -- What memtest_lfsr and memtest_pat128 have in common.
    pub run_test :
        {R : Type 0}
        → (ℕ → R → ℕ × R)
        → R
        → String
        → String
        → ℕ
        → ℕ
        → ℕ
        → ℕ
        → Globals
        → Cmd S Globals
    run_test next r label report start size mode loop g = do
      begin_test g.memtest_stat mode
      write_words next start size (words_in size) 0 r
      flush
      t ←
          read_words next start size too_many label g.verbose (words_in size) 0 r
            (record { werr = g.werr; merr = 0; lanes = no_lanes; err_buf = g.err_buf })
      finish_test report mode loop g t

    pub memtest_lfsr : ℕ → ℕ → ℕ → ℕ → Globals → Cmd S Globals
    memtest_lfsr start size mode loop g =
        let rseed' = (g.rseed + 0x017c1e23) % 2 ^ 32 in
        run_test (lfsr_next g.qmask) (lfsr_seed mode loop rseed')
          "\rMemtest_l ERROR: addr=0x%X rd/ref/xor = 0x%08X 0x%08X 0x%08X \r\n"
          "\rMemtest_l (%3d:%2d)      %d         [%8d] [%8d] [%8d] [%8d]    %g\n" start size mode
          loop (record g { rseed = rseed' })

    -- `pat` is the array of 128 words as a function of its index.
    pub memtest_pat128 : ℕ → ℕ → ℕ → ℕ → (ℕ → ℕ) → Globals → Cmd S Globals
    memtest_pat128 start size mode loop pat g =
        run_test (pat128_next g.qmask pat) tt
          "\rMemtest_p ERROR: addr=0x%X rd/ref/xor = 0x%08X 0x%08X 0x%08X \r\n"
          "\rMemtest_p (%3d:%2d)      %d         [%8d] [%8d] [%8d] [%8d]    %g\n" start size mode
          loop g
