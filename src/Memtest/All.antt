-- ===== src/Memtest/All.antt =====
-- platform_standalone/mfg_test_src/memtest.c: memtest_all, which runs the selected tests, the upload
-- of the results, and the width of the bus.
pub mod Sound
use mechatronics_embedded.Base.{
  ℕ, zero, suc, ◌+◌, ◌*◌, Bool, true, false, List, [], ◌∷◌, ltb, ◌==◌, if◌then◌else◌,
}
use mechatronics_embedded.Machine.{Device, Arg, Cmd, pure, ◌>>=◌, ◌>>◌, store, xil_in32, xil_out32}
use mechatronics_embedded.Emio.{any_set}
use mechatronics_embedded.Memtest.{
  mailbox_stat, err_info, no_lanes, Globals, error_info, memtest_lfsr, memtest_pat128,
}
use mechatronics_embedded.Memtest.Registers.{get_bit_field}
use mechatronics_embedded.Memtest.Patterns.{Bus, update_patterns}
use mechatronics_embedded.Memtest.Modes.{memtest}
use mechatronics_embedded.Memtest.Simple.{memtest_simple}

abbrev pub mailbox_result : ℕ
mailbox_result = 0xf8001038

-- A count, limited to 16 bits.
unfoldable pub saturate : ℕ → ℕ
saturate a = if ltb 0x0ffff a then 0x0ffff else a

module _ {S : Type 0} (dev : Device S) where
  pub upload_memtest_results : Globals → Cmd S (Unit {0})
  upload_memtest_results g = do
    xil_out32 dev mailbox_result (saturate g.errcnt.lane0)
    xil_out32 dev (mailbox_result + 4) (saturate g.errcnt.lane1)
    xil_out32 dev (mailbox_result + 8) (saturate g.errcnt.lane2)
    xil_out32 dev (mailbox_result + 12) (saturate g.errcnt.lane3)
    xil_out32 dev (mailbox_result + 16) (saturate g.werr)

  pub check_bus_width : Cmd S Bus
  check_bus_width = do
    a ← xil_in32 dev 0xf8006000
    pure (update_patterns (if get_bit_field a 2 2 == 1 then 16 else 32))

  -- The loop that clears the first `n` words of err_buf from index `i` on.
  pub clear_words : ℕ → ℕ → List ℕ → Cmd S (List ℕ)
  clear_words zero i err_buf = pure err_buf
  clear_words (suc n) i err_buf = do b ← store err_buf i 0; clear_words n (i + 1) b

  module _ (d_cache_invalidate : S → S) (seconds : ℕ → Arg) where
    -- A test, if its bit is set in `sel`.
    pub selected : ℕ → ℕ → (Globals → Cmd S Globals) → Globals → Cmd S Globals
    selected sel bit test g = if any_set sel bit then test g else pure g

    -- The tests 5 to 8 for the width of the bus.
    pub wide_tests : ℕ → ℕ → ℕ → ℕ → Globals → Cmd S Globals
    wide_tests start size sel lp g0 = do
      let simple = memtest_simple dev d_cache_invalidate seconds start size
      g1 ← selected sel 0x0020 (simple 5 lp 0 0xffffffff 0 0xffffffff) g0
      g2 ← selected sel 0x0040 (simple 6 lp 0xffffffff 0 0xffffffff 0) g1
      g3 ← selected sel 0x0080 (simple 7 lp 0x55555555 0xaaaaaaaa 0x55555555 0xaaaaaaaa) g2
      selected sel 0x0100 (simple 8 lp 0xaaaaaaaa 0x55555555 0xaaaaaaaa 0x55555555) g3

    pub narrow_tests : ℕ → ℕ → ℕ → ℕ → Globals → Cmd S Globals
    narrow_tests start size sel lp g0 = do
      let simple = memtest_simple dev d_cache_invalidate seconds start size
      g1 ← selected sel 0x0020 (simple 5 lp 0xffff0000 0xffff0000 0xffff0000 0xffff0000) g0
      g2 ← selected sel 0x0040 (simple 6 lp 0x0000ffff 0x0000ffff 0x0000ffff 0x0000ffff) g1
      g3 ← selected sel 0x0080 (simple 7 lp 0xaaaa5555 0xaaaa5555 0xaaaa5555 0xaaaa5555) g2
      selected sel 0x0100 (simple 8 lp 0x5555aaaa 0x5555aaaa 0x5555aaaa 0x5555aaaa) g3

    -- All the tests that `sel` has a bit for.
    pub run_selected : Bus → ℕ → ℕ → ℕ → ℕ → Globals → Cmd S Globals
    run_selected bus start size sel lp g = do
      let simple = memtest_simple dev d_cache_invalidate seconds start size
      let lfsr = λ (mode : ℕ). memtest_lfsr dev d_cache_invalidate seconds start size mode lp
      let pat = memtest_pat128 dev d_cache_invalidate seconds start size
      g0 ← selected sel 0x0001 (memtest dev d_cache_invalidate seconds start size 0 lp) g
      g1 ← selected sel 0x0002 (simple 1 lp 0 0 0 0) g0
      g2 ← selected sel 0x0004 (simple 2 lp 0xffffffff 0xffffffff 0xffffffff 0xffffffff) g1
      g3 ← selected sel 0x0008 (simple 3 lp 0xaaaaaaaa 0xaaaaaaaa 0xaaaaaaaa 0xaaaaaaaa) g2
      g4 ← selected sel 0x0010 (simple 4 lp 0x55555555 0x55555555 0x55555555 0x55555555) g3
      g8 ←
          if bus.bus_width == 32
          then wide_tests start size sel lp g4
          else narrow_tests start size sel lp g4
      g9 ← selected sel 0x0200 (pat 9 lp bus.pat1) g8
      g10 ← selected sel 0x0400 (pat 10 lp bus.pat2) g9
      g11 ← selected sel 0x0800 (lfsr 11) g10
      g12 ← selected sel 0x1000 (lfsr 12) g11
      g13 ← selected sel 0x2000 (lfsr 13) g12
      g14 ← selected sel 0x4000 (lfsr 14) g13
      xil_out32 dev (err_info + 24) g14.epp
      pure g14

    -- `buf` is the address of err_buf.
    pub memtest_all : Bus → ℕ → ℕ → ℕ → ℕ → ℕ → Globals → Cmd S Globals
    memtest_all bus buf start size sel lp g = do
      b ← error_info dev 0 g.err_buf 0 0 0
      xil_out32 dev (err_info + 16) buf
      b' ← clear_words 250 0 b
      run_selected bus start size sel lp
          (record g { werr = 0; epp = 0; err_buf = b'; errcnt = no_lanes })
