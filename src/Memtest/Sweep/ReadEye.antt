-- ===== src/Memtest/Sweep/ReadEye.antt =====
-- measure_read_eye of memtest.c. The delays by noop and the result code of the tests are left out.
use mechatronics_embedded.Base.{
  ℕ, zero, suc, ◌+◌, ◌*◌, ◌^◌, ◌%◌, bit_and, Bool, true, false, ◌||◌, List, [], ◌∷◌, int_lt,
  if◌then◌else◌,
}
use mechatronics_embedded.Machine.{
  Device, Arg, Cmd, num, pure, ◌>>=◌, ◌>>◌, printf, store, xil_in32, xil_out32,
}
use mechatronics_embedded.Emio.{any_set, bit_not}
use mechatronics_embedded.Memtest.{mailbox_stat, Globals}
use mechatronics_embedded.Memtest.Registers.{shift_right}
use mechatronics_embedded.Memtest.Patterns.{Bus}
use mechatronics_embedded.Memtest.All.{mailbox_result, memtest_all}
use mechatronics_embedded.Memtest.Eye.{int_sub}
use mechatronics_embedded.Memtest.Pll.{int_min}
use mechatronics_embedded.Memtest.Sweep.{Eye, Eyes, sweep}

abbrev pub r00 : ℕ
r00 = 0xf8006000

abbrev pub r2c : ℕ
r2c = 0xf80060b0

abbrev pub r50 : ℕ
r50 = 0xf8006140

abbrev pub r5a : ℕ
r5a = 0xf8006168

abbrev pub r65 : ℕ
r65 = 0xf8006194

-- The tests of a measurement.
unfoldable pub selection : Bool → Bool → ℕ
selection fast_is_bc fast =
    if fast_is_bc then (if fast then 0x0180 else 0x0e00) else if fast then 0x0e00 else 0x1e60

-- The eye of a lane as it stands in the mailbox.
unfoldable pub eye_code : Eye → ℕ
eye_code e =
    let ww = int_min e.hi 255 in
    if int_lt 255 e.lo || int_lt ww 0 then 0 else (e.lo + ww * 2 ^ 8) % 2 ^ 32

abbrev pub center : Eye → ℕ
center e = shift_right ((e.lo + e.hi) % 2 ^ 32) 1

module _ {S : Type 0} where
  pub print_eye_test_header : Cmd S (Unit {0})
  print_eye_test_header = do
    printf "\n[128 units = 1 bit time (ideal eye width)] \r\n" []
    printf "--------------------------------------------------------\n" []
    printf "Description        LANE-0    LANE-1    LANE-2    LANE-3    \n" []
    printf "--------------------------------------------------------\n" []

  -- The edges of a lane, to the results from index `at` on.
  pub put_eye : ℕ → Eye → List ℕ → Cmd S (List ℕ)
  put_eye at e result = do
    r ← store result at e.lo
    r' ← store r (at + 1) e.hi
    printf "[%d,%3d]  " (num e.lo ∷ num e.hi ∷ [])
    pure r'

  pub put_eyes : ℕ → Eyes → List ℕ → Cmd S (List ℕ)
  put_eyes at e result = do
    r0 ← put_eye at e.eye0 result
    r1 ← put_eye (at + 2) e.eye1 r0
    r2 ← put_eye (at + 4) e.eye2 r1
    put_eye (at + 6) e.eye3 r2

  -- `percent` is the width in percent, which is computed in doubles.
  pub print_eyes : (ℕ → Arg) → Eyes → Cmd S (Unit {0})
  print_eyes percent e = do
    printf "\nEYE CENTER     :   " []
    printf "%d/128    " (num (center e.eye0) ∷ [])
    printf "%d/128    " (num (center e.eye1) ∷ [])
    printf "%d/128    " (num (center e.eye2) ∷ [])
    printf "%d/128    " (num (center e.eye3) ∷ [])
    printf "\nEYE WIDTH      :   " []
    printf "%3.2f%%    " (percent (int_sub e.eye0.hi e.eye0.lo) ∷ [])
    printf "%3.2f%%    " (percent (int_sub e.eye1.hi e.eye1.lo) ∷ [])
    printf "%3.2f%%    " (percent (int_sub e.eye2.hi e.eye2.lo) ∷ [])
    printf "%3.2f%%    " (percent (int_sub e.eye3.hi e.eye3.lo) ∷ [])

module _ {S : Type 0} (dev : Device S) where
  -- The content of the ratio registers of the lanes, from lane `j` on: rd_dqs and fifo_we.
  pub save_ratios : ℕ → ℕ → Cmd S (List (ℕ × ℕ))
  save_ratios zero j = pure []
  save_ratios (suc left) j = do
    reg_50 ← xil_in32 dev (r50 + 4 * j)
    reg_5a ← xil_in32 dev (r5a + 4 * j)
    rest ← save_ratios left (j + 1)
    pure ((reg_50, reg_5a) ∷ rest)

  pub restore_ratios : List (ℕ × ℕ) → ℕ → Cmd S (Unit {0})
  restore_ratios [] j = pure tt
  restore_ratios ((reg_50, reg_5a) ∷ saved) j = do
    xil_out32 dev (r50 + 4 * j) reg_50
    xil_out32 dev (r5a + 4 * j) reg_5a
    restore_ratios saved (j + 1)

  -- An offset for the lanes; `fwsr` is the difference of the saved ratios.
  pub set_ratios : ℕ → List (ℕ × ℕ) → ℕ → Cmd S (Unit {0})
  set_ratios dqs_ratio [] j = pure tt
  set_ratios dqs_ratio ((reg_50, reg_5a) ∷ saved) j = do
    xil_out32 dev (r50 + 4 * j) dqs_ratio
    xil_out32 dev (r5a + 4 * j) ((dqs_ratio + int_sub reg_5a reg_50) % 2 ^ 32)
    set_ratios dqs_ratio saved (j + 1)

  pub send_eyes : Eyes → ℕ → Cmd S (Unit {0})
  send_eyes e kind = do
    xil_out32 dev mailbox_result (eye_code e.eye0)
    xil_out32 dev (mailbox_result + 4) (eye_code e.eye1)
    xil_out32 dev (mailbox_result + 8) (eye_code e.eye2)
    xil_out32 dev (mailbox_result + 12) (eye_code e.eye3)
    xil_out32 dev (mailbox_result + 16) kind

  -- `total_time` is total_test_time, and `scale` the 1.0 of the line for a table, both doubles.
  module _ (d_cache_invalidate : S → S) (seconds : ℕ → Arg) (total_time : S → Arg) (scale : Arg)
      (percent : ℕ → Arg) (bus : Bus) (buf : ℕ) (fast_is_bc csv_mode : Bool) where
    pub print_offset : ℕ → Globals → Cmd S (Unit {0})
    print_offset i g m =
        printf "\rTest offset %3d   %8d        [%8d] [%8d] [%8d] [%8d]    %g\n"
          (num i
            ∷ num g.werr
            ∷ num g.errcnt.lane0
            ∷ num g.errcnt.lane1
            ∷ num g.errcnt.lane2
            ∷ num g.errcnt.lane3
            ∷ total_time m.hw
            ∷ [])
          m

    -- A round of the sweep up to the results of the tests.
    pub read_attempt : ℕ → ℕ → Bool → ℕ → List (ℕ × ℕ) → ℕ → Globals → Cmd S Globals
    read_attempt start size fast ctrl_reg saved i g = do
      xil_out32 dev mailbox_stat i
      xil_out32 dev r00 (bit_and ctrl_reg 0xfffffffe)
      set_ratios i saved 0
      xil_out32 dev r00 ctrl_reg
      g' ←
          memtest_all dev d_cache_invalidate seconds bus buf start size (selection fast_is_bc fast)
            0 g
      if any_set g.verbose 2 then print_offset i g' else pure tt
      pure g'

    pub csv_line : Eyes → Cmd S (Unit {0})
    csv_line e = printf "\n\nfor_csv , %g , %d , %d , %d , %d , %d , %d , %d , %d  \r\n" (
        scale
        ∷ num e.eye0.lo
        ∷ num e.eye0.hi
        ∷ num e.eye1.lo
        ∷ num e.eye1.hi
        ∷ num e.eye2.lo
        ∷ num e.eye2.hi
        ∷ num e.eye3.lo
        ∷ num e.eye3.hi
        ∷ [])

    -- The sweep with the controller's registers changed for it, and put back behind it.
    pub sweep_read : ℕ → ℕ → Bool → ℕ → Globals → Cmd S (Eyes × Globals)
    sweep_read start size fast istep g = do
      ctrl_reg ← xil_in32 dev r00
      reg_2c ← xil_in32 dev r2c
      reg_65 ← xil_in32 dev r65
      saved ← save_ratios 4 0
      xil_out32 dev r00 (bit_and ctrl_reg 0xfffffffe)
      xil_out32 dev r2c (bit_and reg_2c (bit_not (2 ^ 28)))
      xil_out32 dev r65 (bit_and reg_65 (bit_not (2 ^ 16)))
      found ←
          sweep (λ (s : Globals). s.errcnt) (read_attempt start size fast ctrl_reg saved) istep g
      xil_out32 dev r00 (bit_and ctrl_reg 0xfffffffe)
      xil_out32 dev r2c reg_2c
      xil_out32 dev r65 reg_65
      restore_ratios saved 0
      xil_out32 dev r00 ctrl_reg
      pure found

    pub measure_read_eye : List ℕ → ℕ → ℕ → Bool → ℕ → Globals → Cmd S (List ℕ × Globals)
    measure_read_eye result start size fast istep g = do
      (eyes, g') ← sweep_read start size fast istep (record g { memtest_stat = false })
      printf "\nRead Eye Result:" []
      print_eye_test_header
      printf "EYE [MIN-MAX]  :  " []
      result' ← put_eyes 0 eyes result
      send_eyes eyes 1
      if any_set g'.verbose 0x20 then print_eyes percent eyes else pure tt
      if csv_mode then csv_line eyes else pure tt
      pure (result', record g' { memtest_stat = true })
