-- ===== src/Fsbl.antt =====
-- platform_standalone/fsbl_src/fsbl_hooks.c: the hooks of the boot loader, which set up the flash or
-- the FPGA before the application starts.
pub mod Flash
pub mod QuadEnable
pub mod Serial
mod Examples
use mechatronics_embedded.Base.{
  ℕ, zero, suc, ◌+◌, ◌-◌, ◌*◌, ◌/◌, ◌%◌, ◌^◌, bit_and, bit_or, Bool, true, false, not, Option, none,
  some, List, [], ◌∷◌, ◌++◌, String, ◌==◌, if◌then◌else◌, set, length, drop,
}
use mechatronics_embedded.Machine.{
  Device, Machine, Cmd, text, num, chars, ok, waiting, pure, ◌>>=◌, ◌>>◌, printf, load, store,
  xil_in32,
}
use mechatronics_embedded.Machine.Text.{c_string, has_prefix, strchr}
use mechatronics_embedded.Emio.{any_set, init, read_quadlet, write_prom_data}

-- The board support package: the QSPI driver (XQspiPs_LookupConfig, XQspiPs_CfgInitialize,
-- XQspiPs_SetOptions, XQspiPs_SetClkPrescaler, XQspiPs_SetSlaveSelect, XQspiPs_PolledTransfer),
-- QspiAccess, and constants. A transfer sends bytes and returns a status and the bytes that came
-- back; QspiAccess returns a status and the bytes of the flash.
pub record Bsp (S : Type 0) : Type 0 where
  pub lookup_config : Option ℕ
  pub cfg_initialize : ℕ → S → ℕ × S
  pub set_options : ℕ → S → S
  pub set_clk_prescaler : ℕ → S → S
  pub set_slave_select : S → S
  pub polled_transfer : List ℕ → S → (ℕ × List ℕ) × S
  pub qspi_access : ℕ → ℕ → S → (ℕ × List ℕ) × S
  pub options : ℕ
  pub prescale_8 : ℕ
  pub winbond_id : ℕ
  pub boot_mode_reg : ℕ
  pub boot_modes_mask : ℕ
  pub sd_mode : ℕ
  pub qspi_mode : ℕ
  -- Whether fsbl_printf prints at DEBUG_INFO.
  pub debug_info : Bool

abbrev pub xst_success : ℕ
xst_success = 0

abbrev pub read_id_cmd : ℕ
read_id_cmd = 0x9f

abbrev pub read_status_reg2 : ℕ
read_status_reg2 = 0x35

abbrev pub write_status_reg2 : ℕ
write_status_reg2 = 0x31

abbrev pub qe_bit_mask : ℕ
qe_bit_mask = 0x02

abbrev pub write_enable_cmd : ℕ
write_enable_cmd = 0x06

-- "FPGA ", with which the serial number begins.
abbrev pub serial_start : List ℕ
serial_start = b'F' ∷ b'P' ∷ b'G' ∷ b'A' ∷ b' ' ∷ []

module _ {S : Type 0} (bsp : Bsp S) where
  pub fsbl_printf : String → Cmd S (Unit {0})
  fsbl_printf message = if bsp.debug_info then printf message [] else pure tt

  pub before_bitstream_dload : Cmd S ℕ
  unfolding fsbl_printf
  before_bitstream_dload = do
    fsbl_printf "In FsblHookBeforeBitstreamDload function \r\n"
    pure xst_success

  pub after_bitstream_dload : Cmd S ℕ
  unfolding fsbl_printf
  after_bitstream_dload = do
    fsbl_printf "In FsblHookAfterBitstreamDload function \r\n"
    pure xst_success

  -- It does not return.
  pub fallback : Cmd S (Unit {0})
  unfolding fsbl_printf
  fallback = do fsbl_printf "In FsblHookFallback function \r\n"; λ _. waiting

  -- A call of the driver that changes the hardware.
  abbrev call : (S → S) → Cmd S (Unit {0})
  call f m = ok tt (record m { hw = f m.hw })

  abbrev initialize : ℕ → Cmd S ℕ
  initialize base m =
      let (status, hw') = bsp.cfg_initialize base m.hw in ok status (record m { hw = hw' })

  -- A transfer and the read buffer after it.
  abbrev transfer : List ℕ → List ℕ → Cmd S (ℕ × List ℕ)
  transfer bytes buffer m =
      let ((status, back), hw') = bsp.polled_transfer bytes m.hw in
      ok (status, back ++ drop (length back) buffer) (record m { hw = hw' })

  -- The checks of the flash's identification.
  pub check_id : List ℕ → Cmd S Bool
  check_id buffer = do
    maker ← load buffer 1
    if not (maker == bsp.winbond_id)
        then (do printf "Unexpected QSPI Flash ID (%x)\r\n" (num maker ∷ []); pure false)
        else (do
          printf "QSPI: WINBOND " []
          size ← load buffer 3
          kind ← load buffer 2
          if not (size == 0x18)
              then (do printf "Unexpected size (%x)\r\n" (num size ∷ []); pure false)
              else if kind == 0x40
              then (do printf "W25Q128JV\r\n" []; pure true)
              else if kind == 0x70
              then (do printf "W25Q128JV-M\r\n" []; pure true)
              else (do printf "Unexpected device id (%x)\r\n" (num kind ∷ []); pure false))

  -- The branch that programs the quad enable bit; `buffer` is the read buffer.
  pub program_qe : List ℕ → Cmd S Bool
  program_qe buffer = do
    printf "Programming QE bit\r\n" []
    (enabled, buffer') ← transfer (write_enable_cmd ∷ []) buffer
    if not (enabled == xst_success)
        then (do printf "Failed to Write Enable QSPI\r\n" []; pure false)
        else (do
          status ← load buffer' 1
          (written, _) ← transfer (write_status_reg2 ∷ bit_or status qe_bit_mask ∷ []) buffer'
          if written == xst_success
              then pure true
              else (do printf "Failed to write QSPI Status Register 2\r\n" []; pure false))

  -- The check of the quad enable bit.
  pub ensure_qe : List ℕ → Cmd S Bool
  ensure_qe buffer = do
    (got, buffer') ← transfer (read_status_reg2 ∷ 0 ∷ []) buffer
    if not (got == xst_success)
        then (do printf "Failed to read QSPI Status Register 2\r\n" []; pure false)
        else (do
          status ← load buffer' 1
          if any_set status qe_bit_mask
              then (do printf "QE bit set\r\n" []; pure true)
              else program_qe buffer')

  -- The part after the driver is set up. The read buffer has no content at first.
  pub check_flash : Cmd S Bool
  check_flash = do
    (got, buffer) ← transfer (read_id_cmd ∷ 0 ∷ 0 ∷ 0 ∷ []) (0 ∷ 0 ∷ 0 ∷ 0 ∷ [])
    if not (got == xst_success)
        then (do printf "Failed to read QSPI Flash ID\r\n" []; pure false)
        else (do known ← check_id buffer; if known then ensure_qe buffer else pure false)

  -- FpgaV3_Init_SD once the configuration was looked up.
  pub with_config : Option ℕ → Cmd S Bool
  with_config none = do printf "Failed to look up QSPI config\r\n" []; pure false
  with_config (some base) = do
    ready ← initialize base
    if not (ready == xst_success)
        then (do printf "Failed to initialize QSPI interface\r\n" []; pure false)
        else (do
          call (bsp.set_options bsp.options)
          call (bsp.set_clk_prescaler bsp.prescale_8)
          call bsp.set_slave_select
          check_flash)

  pub init_sd : Cmd S Bool
  init_sd = with_config bsp.lookup_config

  module _ (dev : Device S) (endian_swap32 : ℕ → ℕ) (fuel : ℕ) where
    -- EMIO_ReadQuadlet into a variable with the content `old`.
    pub read_into : ℕ → ℕ → Cmd S ℕ
    read_into addr old = do
      got ← read_quadlet dev fuel addr
      elim got [ none ↦ pure old | some v ↦ pure v ]

    pub print_if : ℕ → ℕ → String → Cmd S (Unit {0})
    print_if word mask name = if any_set word mask then printf name [] else pure tt

    -- The check of the connected board.
    pub show_board : ℕ → ℕ → Cmd S (Unit {0})
    show_board version0 status0 = do
      version ← read_into 4 version0
      if not (version == 0x42434647)
          then printf "Did not find BCFG firmware: %x\r\n" (num version ∷ [])
          else (do
            status ← read_into 0 status0
            printf "Board ID: %d\r\n" (num (bit_and status 0x0f000000 / 2 ^ 24) ∷ [])
            printf "Board status: %x" (num status ∷ [])
            print_if status 0x00800000 ", No board"
            print_if status 0x00400000 ", QLA"
            print_if status 0x00200000 ", DQLA"
            print_if status 0x00100000 ", DRAC"
            printf "\r\n" [])

    pub show_serial : List ℕ → Cmd S (Unit {0})
    show_serial buffer = do
      found ← strchr 0xff 0 buffer
      buffer' ← elim found [ some p ↦ store buffer p 0 | none ↦ store buffer 13 0 ]
      printf "FPGA S/N: %s\r\n" (chars (c_string (drop 5 buffer')) ∷ [])

    abbrev access : ℕ → ℕ → Cmd S (ℕ × List ℕ)
    access addr n m = let (r, hw') = bsp.qspi_access addr n m.hw in ok r (record m { hw = hw' })

    -- The copy of the serial number from the flash to the FPGA.
    pub copy_serial : Cmd S (Unit {0})
    copy_serial = do
      (status, buffer) ← access 0xff0000 16
      if not (status == xst_success)
          then printf "Failed to read from QSPI\r\n" []
          else if has_prefix serial_start buffer
          then (do _ ← write_prom_data dev endian_swap32 fuel buffer 16; show_serial buffer)
          else pure tt

    -- FpgaV3_Init_QSPI behind the version message. `version0` and `status0` are what the local
    -- variables hold before they are assigned.
    pub set_up_fpga : ℕ → ℕ → Cmd S Bool
    set_up_fpga version0 status0 = do init dev; show_board version0 status0; copy_serial; pure true

    -- The version strings and their comparison come from the generated fpgav3_version.h.
    module _ (version git_version : String) (same_version : Bool) (version0 status0 : ℕ) where
      pub init_qspi : Cmd S Bool
      init_qspi = do
        printf "\r\n*** FPGA V3 ***\r\n\n" []
        printf "Software Version %s" (text version ∷ [])
        if same_version then pure tt else printf " (git %s)" (text git_version ∷ [])
        printf "\r\n\n" []
        set_up_fpga version0 status0

      pub before_handoff : Cmd S ℕ
      unfolding fsbl_printf
      before_handoff = do
        fsbl_printf "In FsblHookBeforeHandoff function \r\n"
        register ← xil_in32 dev bsp.boot_mode_reg
        let mode = bit_and register bsp.boot_modes_mask
        if mode == bsp.sd_mode
            then (do printf "\r\nBooting from SD\r\n" []; _ ← init_sd; pure xst_success)
            else if mode == bsp.qspi_mode
            then (do printf "\r\nBooting from QSPI\r\n" []; _ ← init_qspi; pure xst_success)
            else pure xst_success
