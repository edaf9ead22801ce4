-- ===== src/Linux/Mmap.antt =====
-- petalinux/libfpgav3/files/fpgav3_emio_mmap.cpp: the bus driver that maps the GPIO registers. A
-- mapped region is named by its physical address; `fuel` bounds the rounds of a wait.
pub mod Wait
pub mod Quadlet
pub mod Board
pub mod Block
pub mod Start
mod Examples
use mechatronics_embedded.Base.{
  ℕ, zero, suc, ◌+◌, ◌-◌, ◌/◌, ◌%◌, ◌^◌, bit_and, bit_or, bit_xor, Bool, true, false, not, Option,
  none, some, List, [], ◌∷◌, String, ltb, ◌==◌, if◌then◌else◌,
}
use mechatronics_embedded.Machine.{
  Device, Arg, Cmd, num, text, waiting, pure, ◌>>=◌, ◌>>◌, load, store, xil_in32, xil_out32,
}
use mechatronics_embedded.Emio.{
  reg_output_lower, reg_output_upper, reg_input_lower, reg_input_upper, reg_dir_lower,
  reg_out_en_lower, reg_dir_upper, reg_out_en_upper, bits_request_bus, bits_op_done, bits_reg_wen,
  bits_blk_start, bits_version, bit_not, any_set, upper_outputs, quads, block_word,
}
use mechatronics_embedded.Linux.{
  Settings, default_settings, Driver, bswap_32, cout_line, get_cur_time, time_if, report_times,
}

abbrev pub slcr_base_addr : ℕ
slcr_base_addr = 0xf8000000

abbrev pub aper_clk_ctrl : ℕ
aper_clk_ctrl = 0x12c

abbrev pub gpio_clk_bit : ℕ
gpio_clk_bit = 0x400000

abbrev pub gpio_base_addr : ℕ
gpio_base_addr = 0xe000a000

abbrev pub gpio_size : ℕ
gpio_size = 0x2e8

-- The members of EMIO_Interface_Mmap: `opened` is `fd >= 0`, and `region` is 0 if nothing is mapped.
pub record Mmap : Type 0 where
  pub settings : Settings
  pub opened : Bool
  pub region : ℕ

abbrev pub with_settings : Settings → Mmap → Mmap
with_settings s itf = record itf { settings = s }

abbrev pub set_is_input : Bool → Mmap → Mmap
set_is_input b itf = record itf { settings = record itf.settings { is_input = b } }

abbrev pub is_ok : Mmap → Bool
is_ok itf = not (itf.region == 0)

-- `(upper & Bits_OpDone)^(!state)` as a condition.
unfoldable pub op_done_is : Bool → ℕ → Bool
op_done_is state upper = not (bit_xor (bit_and upper bits_op_done) (if state then 0 else 1) == 0)

pub set_event_mode : {S : Type 0} → Bool → Mmap → Cmd S Mmap
set_event_mode new_state itf = do
  if new_state
      then cout_line (text "EMIO_Interface_Mmap: events not implemented (using polling)" ∷ [])
      else pure tt
  pure (record itf { settings = record itf.settings { use_events = false } })

module _ {S : Type 0} (dev : Device S) (now : S → ℕ) (us : ℕ → ℕ → Arg) where
  abbrev pub register_read : ℕ → Mmap → Cmd S ℕ
  register_read r itf = xil_in32 dev (itf.region + r)

  abbrev pub register_write : ℕ → ℕ → Mmap → Cmd S (Unit {0})
  register_write r v itf = xil_out32 dev (itf.region + r) v

  -- The loop of WaitOpDone: whether op_done was seen, and the time since `start`.
  pub wait_loop : ℕ → Bool → ℕ → ℕ → Mmap → Cmd S (Bool × ℕ)
  wait_loop zero state start dt itf = λ _. waiting
  wait_loop (suc rounds) state start dt itf =
      if ltb dt itf.settings.timeout
      then (do
        upper ← register_read reg_input_upper itf
        if op_done_is state upper
            then pure (true, dt)
            else (do cur ← get_cur_time now us; wait_loop rounds state start (cur - start) itf))
      else pure (false, dt)

  pub report_wait : String → ℕ → Bool → Bool → ℕ → Cmd S (Unit {0})
  report_wait op_type n state opdone dt = cout_line (
      (if opdone then text "Waited " else text "EMIO polling timeout waiting for ")
      ∷ (if opdone then us dt 0 else text "")
      ∷ (if opdone then text " us for " else text "")
      ∷ text op_type
      ∷ text " quadlet "
      ∷ num n
      ∷ text (if state then " set" else " clear")
      ∷ [])

  -- The direction of the data lines.
  unfoldable pub lines_in : Mmap → Cmd S Mmap
  lines_in itf =
      if itf.settings.is_input
      then pure itf
      else (do register_write reg_dir_lower 0 itf; pure (set_is_input true itf))

  unfoldable pub lines_out : Mmap → Cmd S Mmap
  lines_out itf =
      if itf.settings.is_input
      then (do
        register_write reg_dir_lower 0xffffffff itf
        register_write reg_out_en_lower 0xffffffff itf
        pure (set_is_input false itf))
      else pure itf

  module _ (fuel : ℕ) where
    pub wait_op_done : String → ℕ → Bool → Mmap → Cmd S Bool
    wait_op_done op_type n state itf = do
      upper ← register_read reg_input_upper itf
      if op_done_is state upper then pure true else (do
        start ← get_cur_time now us
        (opdone, dt) ← wait_loop fuel state start 0 itf
        if itf.settings.is_verbose then report_wait op_type n state opdone dt else pure tt
        pure true)

    pub read_quadlet : ℕ → Mmap → Cmd S (Option ℕ × Mmap)
    read_quadlet addr itf = do
      start ← time_if now us (ltb 0 itf.settings.do_timing)
      itf' ← lines_in itf
      register_write reg_output_upper (bit_or addr bits_request_bus) itf'
      before ← time_if now us (ltb 1 itf.settings.do_timing)
      done ← wait_op_done "read" 0 true itf'
      if not done
          then (do
            register_write reg_output_upper (bit_and addr (bit_not bits_request_bus)) itf'
            pure (none, itf'))
          else (do
            after ← time_if now us (ltb 1 itf.settings.do_timing)
            v ← register_read reg_input_lower itf'
            register_write reg_output_upper 0 itf'
            _ ← wait_op_done "read" 0 false itf'
            report_times now us "ReadQuadlet" "Start-wait-end" itf.settings start before after
            pure (some v, itf'))

    pub write_quadlet : ℕ → ℕ → Mmap → Cmd S (Bool × Mmap)
    write_quadlet addr v itf = do
      start ← time_if now us (ltb 0 itf.settings.do_timing)
      itf' ← lines_out itf
      register_write reg_output_lower v itf'
      register_write reg_output_upper (bit_or (bit_or addr bits_reg_wen) bits_request_bus) itf'
      before ← time_if now us (ltb 1 itf.settings.do_timing)
      ret ← wait_op_done "write" 0 true itf'
      after ← time_if now us (if ret then ltb 1 itf.settings.do_timing else false)
      register_write reg_output_upper 0 itf'
      _ ← wait_op_done "write" 0 false itf'
      if ret
          then report_times now us "WriteQuadlet" "Start-wait-end" itf.settings start before after
          else pure tt
      pure (true, itf')

    -- The rounds of ReadBlock that are left, from index `q`; `false` is the early return.
    pub read_rounds : ℕ → ℕ → ℕ → ℕ → ℕ → List ℕ → Mmap → Cmd S (Bool × List ℕ)
    read_rounds n_quads zero q addr outreg buffer itf = pure (true, buffer)
    read_rounds n_quads (suc left) q addr outreg buffer itf = do
      let outreg' = block_word (q == n_quads - 1) addr outreg
      register_write reg_output_upper outreg' itf
      done ← wait_op_done "read" q true itf
      if not done then (do register_write reg_output_upper 0 itf; pure (false, buffer)) else (do
        v ← register_read reg_input_lower itf
        buffer' ← store buffer q (bswap_32 v)
        read_rounds n_quads left (q + 1) ((addr + 1) % 2 ^ 16) outreg' buffer' itf)

    pub read_block : ℕ → List ℕ → ℕ → Mmap → Cmd S ((Bool × List ℕ) × Mmap)
    read_block addr buffer n_bytes itf =
        if ltb itf.settings.version 1
        then (do
          cout_line
              (text "ReadBlock (mmap): not supported for version " ∷ num itf.settings.version ∷ [])
          pure ((false, buffer), itf))
        else (do
          start ← time_if now us (ltb 0 itf.settings.do_timing)
          itf' ← lines_in itf
          let outreg = bit_or (bit_or addr bits_blk_start) bits_request_bus
          first_read ← time_if now us (ltb 1 itf.settings.do_timing)
          (done, buffer') ← read_rounds (quads n_bytes) (quads n_bytes) 0 addr outreg buffer itf'
          if not done then pure ((false, buffer'), itf') else (do
            last_read ← time_if now us (ltb 1 itf.settings.do_timing)
            register_write reg_output_upper 0 itf'
            _ ← wait_op_done "read" (quads n_bytes) false itf'
            report_times now us "ReadBlock" "Start-loop-end" itf.settings start first_read last_read
            pure ((true, buffer'), itf')))

    pub write_rounds : ℕ → ℕ → ℕ → ℕ → ℕ → List ℕ → Mmap → Cmd S Bool
    write_rounds n_quads zero q addr outreg buffer itf = pure true
    write_rounds n_quads (suc left) q addr outreg buffer itf = do
      v ← load buffer q
      register_write reg_output_lower (bswap_32 v) itf
      let outreg' = block_word (q == n_quads - 1) addr outreg
      register_write reg_output_upper outreg' itf
      done ← wait_op_done "write" q true itf
      if not done
          then (do register_write reg_output_upper 0 itf; pure false)
          else write_rounds n_quads left (q + 1) ((addr + 1) % 2 ^ 16) outreg' buffer itf

    pub write_block : ℕ → List ℕ → ℕ → Mmap → Cmd S (Bool × Mmap)
    write_block addr buffer n_bytes itf =
        if ltb itf.settings.version 1
        then (do
          cout_line
              (text "WriteBlock (mmap): not supported for version " ∷ num itf.settings.version ∷ [])
          pure (false, itf))
        else (do
          start ← time_if now us (ltb 0 itf.settings.do_timing)
          itf' ← lines_out itf
          let outreg = bit_or (bit_or addr bits_blk_start) bits_request_bus
          first_write ← time_if now us (ltb 1 itf.settings.do_timing)
          done ← write_rounds (quads n_bytes) (quads n_bytes) 0 addr outreg buffer itf'
          if not done then pure (false, itf') else (do
            last_write ← time_if now us (ltb 1 itf.settings.do_timing)
            _ ← wait_op_done "write" (quads n_bytes) false itf'
            register_write reg_output_upper 0 itf'
            report_times now us "WriteBlock" "Start-loop-end" itf.settings start first_write
                last_write
            pure (true, itf')))

    abbrev pub mmap_driver : Driver S Mmap
    mmap_driver = record {
      settings = λ (itf : Mmap). itf.settings;
      set_settings = with_settings;
      is_ok = is_ok;
      set_event_mode = set_event_mode;
      read_quadlet = read_quadlet;
      write_quadlet = write_quadlet;
      read_block = read_block;
      write_block = write_block;
    }

    -- `opens` is whether /dev/mem can be opened, and `maps` whether a region can be mapped.
    module _ (opens : S → Bool) (maps : ℕ → ℕ → S → Bool) where
      pub mmap_init : ℕ → ℕ → Cmd S ℕ
      mmap_init base_addr size m =
          if maps base_addr size m.hw
          then pure base_addr m
          else ((do
            cout_line (text "fpgav3_emio_mmap: failed to mmap addr " ∷ num base_addr ∷ [])
            pure 0)
              m)

      -- The part of Init that sees to the GPIO clock.
      pub enable_clock : Mmap → Cmd S (Unit {0})
      enable_clock itf = do
        aper_clk_reg ← register_read aper_clk_ctrl itf
        if any_set aper_clk_reg gpio_clk_bit then pure tt else (do
          if itf.settings.is_verbose then cout_line (text "Setting clock bit" ∷ []) else pure tt
          register_write aper_clk_ctrl (bit_or aper_clk_reg gpio_clk_bit) itf)

      -- The part of Init that sets up the lines.
      pub init_lines : Mmap → Cmd S (Bool × Mmap)
      init_lines itf = do
        register_write reg_dir_upper 0 itf
        upper ← register_read reg_input_upper itf
        let version = bit_and upper bits_version / 2 ^ 28
        let itf' = record itf { settings = record itf.settings { version = version } }
        if ltb 1 version
            then (do
              cout_line
                  (text "EMIO bus interface version " ∷ num version ∷ text " not supported" ∷ [])
              pure (false, itf'))
            else (do
              register_write reg_dir_lower 0 itf'
              register_write reg_dir_upper upper_outputs itf'
              register_write reg_output_upper 0 itf'
              register_write reg_out_en_upper upper_outputs itf'
              pure (true, set_is_input true itf'))

      pub init : Mmap → Cmd S (Bool × Mmap)
      init itf m =
          if not (opens m.hw)
          then ((do
            cout_line (text "fpgav3_emio_mmap: failed to open /dev/mem" ∷ [])
            pure (false, record itf { opened = false }))
              m)
          else ((do
            slcr ← mmap_init slcr_base_addr (aper_clk_ctrl + 4)
            let itf1 = record itf { opened = true; region = slcr }
            if slcr == 0 then pure (false, itf1) else (do
              enable_clock itf1
              gpio ← mmap_init gpio_base_addr gpio_size
              let itf2 = record itf1 { region = gpio }
              if gpio == 0 then pure (false, itf2) else init_lines itf2))
              m)

      -- The constructor.
      pub construct : Cmd S Mmap
      construct = do
        (done, itf) ← init (record { settings = default_settings; opened = false; region = 0 })
        if done then pure itf else pure (record itf { opened = false; region = 0 })
