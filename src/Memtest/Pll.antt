-- ===== src/Memtest/Pll.antt =====
-- platform_standalone/mfg_test_src/memtest.c: my_set_pll, which sets up one of the three PLLs.
pub mod Config
pub mod Dci
pub mod Lock
pub mod Divisors
mod Examples
use mechatronics_embedded.Base.{
  ℕ, zero, suc, ◌+◌, ◌-◌, ◌*◌, ◌^◌, bit_and, bit_or, bit_xor, Bool, false, List, String, Option,
  none, some, [], ◌∷◌, ltb, ◌==◌, int_lt, if◌then◌else◌,
}
use mechatronics_embedded.Machine.{
  Device, Arg, text, num, Cmd, waiting, pure, ◌>>=◌, ◌>>◌, printf, load, xil_in32, xil_out32,
}
use mechatronics_embedded.Emio.{bit_not}
use mechatronics_embedded.Memtest.Registers.{shift_right, put_field, noop, unlock_slcr}
use mechatronics_embedded.Memtest.Pll.Config.{pll_config_table}
use mechatronics_embedded.Memtest.Pll.Dci.{dci_ctrl_table}

abbrev pub pll_status : ℕ
pll_status = 0xf800010c

abbrev pub pll_ctrl : ℕ → ℕ
pll_ctrl pll = if pll == 0 then 0xf8000100 else if pll == 1 then 0xf8000104 else 0xf8000108

abbrev pub pll_cfg : ℕ → ℕ
pll_cfg pll = if pll == 0 then 0xf8000110 else if pll == 1 then 0xf8000114 else 0xf8000118

abbrev pub pll_id : List String
pll_id = "CPU" ∷ "DDR" ∷ "IOU" ∷ []

-- The macros min, max and lim on ints.
abbrev pub int_min : ℕ → ℕ → ℕ
int_min a b = if int_lt a b then a else b

abbrev pub int_max : ℕ → ℕ → ℕ
int_max a b = if int_lt b a then a else b

abbrev pub lim : ℕ → ℕ → ℕ → ℕ
lim a lo hi = int_max (int_min a hi) lo

module _ {S : Type 0} (dev : Device S) where
  -- Steps 0 to 5: the control word after them.
  pub start_pll : ℕ → ℕ → Cmd S ℕ
  start_pll pll fbdiv = do
    unlock_slcr dev
    first ← xil_in32 dev (pll_ctrl pll)
    let bypass = bit_or first (2 ^ 4)
    xil_out32 dev (pll_ctrl pll) bypass
    let reset = bit_or bypass 1
    xil_out32 dev (pll_ctrl pll) reset
    let divided = put_field 0x7f reset 12 fbdiv
    xil_out32 dev (pll_ctrl pll) divided
    cval ← load pll_config_table (int_min 99 fbdiv)
    xil_out32 dev (pll_cfg pll) cval
    xil_out32 dev (pll_ctrl pll) (bit_xor divided 1)
    pure (bit_xor divided 1)

  -- Step 6, whose loop gives up after 2001 polls: the polls until the lock, if there is one. The
  -- first number is the rounds that are allowed.
  pub poll_lock : ℕ → ℕ → ℕ → Cmd S (Option ℕ)
  poll_lock zero pll k = λ _. waiting
  poll_lock (suc rounds) pll k = do
    stat ← xil_in32 dev pll_status
    if bit_and (shift_right stat pll) 1 == 0
        then (if ltb 2000 (k + 1) then pure none else poll_lock rounds pll (k + 1))
        else pure (some (k + 1))

  -- A divisor of six bits in a clock register.
  pub set_divisor : ℕ → ℕ → ℕ → Cmd S (Unit {0})
  set_divisor addr at outdiv = do
    cval ← xil_in32 dev addr
    xil_out32 dev addr
        (bit_or (bit_and cval (bit_not (0x3f * 2 ^ at))) (bit_and outdiv 0x3f * 2 ^ at))

  -- Step 7.
  pub set_outdiv : ℕ → ℕ → Cmd S (Unit {0})
  set_outdiv pll outdiv =
      if pll == 1
      then set_divisor 0xf8000124 20 outdiv
      else if pll == 0
      then set_divisor 0xf8000120 8 outdiv
      else pure tt

  -- The clock of the digitally controlled impedance; `ratio` is the int of the frequency over 10.0.
  pub set_dci : ℕ → ℕ → Cmd S (Unit {0})
  set_dci pll ratio =
      if pll == 1
      then (do
        cval ← load dci_ctrl_table (lim ratio 70 250 - 70)
        xil_out32 dev 0xf8000128 cval
        printf "**** OK - changed DCI divisor\r\n" [])
      else pure tt

  -- The rest after the poll.
  pub finish_pll : ℕ → ℕ → Arg → ℕ → ℕ → Option ℕ → Cmd S Bool
  finish_pll pll outdiv fout ratio val none = do
    printf "ERROR: PLL lock timeout - leaving PLL in bypass\r\n" []
    pure false
  finish_pll pll outdiv fout ratio val (some polls) = do
    set_outdiv pll outdiv
    xil_out32 dev (pll_ctrl pll) (bit_xor val (2 ^ 4))
    waited ← pure (noop 1000000)
    printf "**** Run my_set_pll.\r\n" []
    id ← load pll_id pll
    printf "**** OK, %s PLL is set to %g MHz \r\n" (text id ∷ fout ∷ [])
    printf "**** PLL locked after %d polls \r\n" (num polls ∷ [])
    set_dci pll ratio
    pure (pll == 0)

  -- The value of fref * fbdiv / outdiv for the print (`fout`) and the int of fref * fbdiv / 10.0
  -- (`ratio`) are parameters. The result says whether the clock of the timer, `pclk`, is set anew.
  pub my_set_pll : ℕ → ℕ → ℕ → Arg → ℕ → Cmd S Bool
  my_set_pll pll fbdiv outdiv fout ratio = do
    val ← start_pll pll fbdiv
    locked ← poll_lock 2001 pll 0
    finish_pll pll outdiv fout ratio val locked
