-- ===== src/Emio.antt =====
-- platform_standalone/fpgav3_lib_src/fpgav3_emio.c: the bus between the processor and the FPGA,
-- by way of the 64 EMIO lines. A loop that the source leaves unbounded takes `fuel` rounds.
pub mod Wait
pub mod Word
pub mod Quadlet
pub mod Block
pub mod RegisterFile
pub mod Prom
pub mod Toy
mod Examples
use mechatronics_embedded.Base.{
  ℕ, zero, suc, ◌+◌, ◌-◌, ◌*◌, ◌/◌, ◌%◌, ◌^◌, bit_and, bit_or, Bool, true, false, not, Option, none,
  some, List, [], ◌∷◌, String, ◌==◌, if◌then◌else◌,
}
use mechatronics_embedded.Machine.{
  Device, Cmd, text, num, waiting, pure, ◌>>=◌, ◌>>◌, printf, load, store, xil_in32, xil_out32,
}

-- enum EMIO_Reg
abbrev pub reg_output_lower : ℕ
reg_output_lower = 0x48

abbrev pub reg_output_upper : ℕ
reg_output_upper = 0x4c

abbrev pub reg_input_lower : ℕ
reg_input_lower = 0x68

abbrev pub reg_input_upper : ℕ
reg_input_upper = 0x6c

abbrev pub reg_dir_lower : ℕ
reg_dir_lower = 0x284

abbrev pub reg_out_en_lower : ℕ
reg_out_en_lower = 0x288

abbrev pub reg_dir_upper : ℕ
reg_dir_upper = 0x2c4

abbrev pub reg_out_en_upper : ℕ
reg_out_en_upper = 0x2c8

-- enum EMIO_Bits
abbrev pub bits_reg_addr : ℕ
bits_reg_addr = 0xffff

abbrev pub bits_request_bus : ℕ
bits_request_bus = 0x10000

abbrev pub bits_op_done : ℕ
bits_op_done = 0x20000

abbrev pub bits_reg_wen : ℕ
bits_reg_wen = 0x40000

abbrev pub bits_blk_start : ℕ
bits_blk_start = 0x80000

abbrev pub bits_blk_end : ℕ
bits_blk_end = 0x100000

abbrev pub bits_write : ℕ
bits_write = 0x200000

abbrev pub bits_lsb : ℕ
bits_lsb = 0x800000

abbrev pub bits_version : ℕ
bits_version = 0xf0000000

-- `~x` on 32 bits, and `x & mask` as a condition.
abbrev pub bit_not : ℕ → ℕ
bit_not x = 0xffffffff - x

abbrev pub any_set : ℕ → ℕ → Bool
any_set x mask = not (bit_and x mask == 0)

-- The lines that the processor drives.
abbrev pub upper_outputs : ℕ
upper_outputs = bit_or bits_reg_addr (
    bit_or bits_request_bus
      (bit_or bits_reg_wen (bit_or bits_blk_start (bit_or bits_blk_end bits_lsb))))

-- `nQuads = (nBytes+3)/4` in `unsigned int`.
unfoldable pub quads : ℕ → ℕ
quads n_bytes = (n_bytes + 3) % 2 ^ 32 / 4

-- `outreg` of one round of a block transfer, from that of the round before.
pub block_word : Bool → ℕ → ℕ → ℕ
block_word last addr outreg =
    let marked =
      if last then bit_or (bit_and outreg (bit_not bits_blk_start)) bits_blk_end else outreg in
    if any_set addr 1 then bit_or marked bits_lsb else bit_and marked (bit_not bits_lsb)

-- `*(u32 *)(data + at)` on this little-endian processor.
pub load_u32 : {S : Type 0} → List ℕ → ℕ → Cmd S ℕ
load_u32 bytes at = do
  b0 ← load bytes at
  b1 ← load bytes (at + 1)
  b2 ← load bytes (at + 2)
  b3 ← load bytes (at + 3)
  pure (b0 + 256 * b1 + 65536 * b2 + 16777216 * b3)

module _ {S : Type 0} (dev : Device S) where
  abbrev pub read_reg : ℕ → Cmd S ℕ
  read_reg r = xil_in32 dev (dev.gpio_base + r)

  abbrev pub write_reg : ℕ → ℕ → Cmd S (Unit {0})
  write_reg r v = xil_out32 dev (dev.gpio_base + r) v

  pub init : Cmd S (Unit {0})
  init = do
    write_reg reg_dir_lower 0
    write_reg reg_dir_upper upper_outputs
    write_reg reg_output_upper 0
    write_reg reg_out_en_upper upper_outputs

  unfoldable pub get_version : Cmd S ℕ
  get_version = do upper ← read_reg reg_input_upper; pure (bit_and upper bits_version / 2 ^ 28)

  -- The `for` loop of WaitOpDone, with the rounds left, `i` and `upper`.
  unfoldable pub poll : ℕ → ℕ → ℕ → Cmd S (ℕ × ℕ)
  poll zero i upper = pure (i, upper)
  poll (suc left) i upper =
      if any_set upper bits_op_done
      then pure (i, upper)
      else do upper' ← read_reg reg_input_upper; poll left (i + 1) upper'

  -- Its `while` loop, which has no bound in the source.
  pub spin : ℕ → ℕ → ℕ → Cmd S ℕ
  spin zero i upper = λ _. waiting
  spin (suc fuel) i upper =
      if any_set upper bits_op_done
      then pure i
      else do upper' ← read_reg reg_input_upper; printf "." []; spin fuel (i + 1) upper'

  -- The rest of WaitOpDone, once the `for` loop has left `i` and `upper`.
  unfoldable pub wait_late : ℕ → String → ℕ → ℕ → ℕ × ℕ → Cmd S Bool
  wait_late fuel op addr n (i, upper) =
      if i == n
      then (do
        printf "Waiting to %s addr %x" (text op ∷ num addr ∷ [])
        i' ← spin fuel i upper
        printf "\r\nWaited %d iterations\r\n" (num i' ∷ [])
        pure true)
      else pure true

  unfoldable pub wait_op_done : ℕ → String → ℕ → ℕ → Cmd S Bool
  wait_op_done fuel op addr n = poll n 0 0 >>= wait_late fuel op addr n

  unfoldable pub set_data_input : String → Cmd S Bool
  set_data_input name = do
    write_reg reg_dir_lower 0
    upper ← read_reg reg_input_upper
    if any_set upper (bit_or bits_request_bus bits_write)
        then (do printf "%s: invalid state %x\r\n" (text name ∷ num upper ∷ []); pure false)
        else pure true

  pub set_data_output : String → Cmd S Bool
  set_data_output name = do
    write_reg reg_dir_lower 0xffffffff
    write_reg reg_out_en_lower 0xffffffff
    upper ← read_reg reg_input_upper
    if bit_and upper (bit_or bits_request_bus bits_write) == bits_write
        then pure true
        else (do printf "%s: invalid state %x\r\n" (text name ∷ num upper ∷ []); pure false)

  -- The part of EMIO_ReadQuadlet that runs if the check of the lines passes.
  unfoldable pub request_read : ℕ → ℕ → Cmd S ℕ
  request_read fuel addr = do
    write_reg reg_output_upper (bit_or addr bits_request_bus)
    _ ← wait_op_done fuel "read" addr 5
    v ← read_reg reg_input_lower
    write_reg reg_output_upper 0
    pure v

  -- `none` is the result `false`, which leaves `*data` alone.
  unfoldable pub read_quadlet : ℕ → ℕ → Cmd S (Option ℕ)
  read_quadlet fuel addr = do
    valid ← set_data_input "EMIO_ReadQuadlet"
    if not valid then pure none else (do v ← request_read fuel addr; pure (some v))

  -- The part of EMIO_WriteQuadlet that runs if the check of the lines passes.
  pub request_write : ℕ → ℕ → ℕ → Cmd S (Unit {0})
  request_write fuel addr v = do
    write_reg reg_output_lower v
    write_reg reg_output_upper (bit_or (bit_or addr bits_reg_wen) bits_request_bus)
    _ ← wait_op_done fuel "write" addr 5
    write_reg reg_output_upper 0

  pub write_quadlet : ℕ → ℕ → ℕ → Cmd S Bool
  write_quadlet fuel addr v = do
    valid ← set_data_output "EMIO_WriteQuadlet"
    if not valid then pure false else (do request_write fuel addr v; pure true)

  -- The rounds of EMIO_ReadBlock that are left, from index `q`; the result is the filled buffer.
  pub read_rounds : ℕ → ℕ → ℕ → ℕ → ℕ → ℕ → List ℕ → Cmd S (List ℕ)
  read_rounds fuel n_quads zero q addr outreg buffer = pure buffer
  read_rounds fuel n_quads (suc left) q addr outreg buffer = do
    let outreg' = block_word (q == n_quads - 1) addr outreg
    let addr' = (addr + 1) % 2 ^ 16
    write_reg reg_output_upper outreg'
    _ ← wait_op_done fuel "read" addr' 5
    v ← read_reg reg_input_lower
    buffer' ← store buffer q v
    read_rounds fuel n_quads left (q + 1) addr' outreg' buffer'

  pub read_block : ℕ → ℕ → List ℕ → ℕ → Cmd S (Bool × List ℕ)
  read_block fuel addr buffer n_bytes = do
    ver ← get_version
    if not (ver == 1)
        then (do
          printf "EMIO_ReadBlock: unsupported interface version %d\r\n" (num ver ∷ [])
          pure (false, buffer))
        else (do
          valid ← set_data_input "EMIO_ReadBlock"
          if not valid then pure (false, buffer) else (do
            let outreg = bit_or (bit_or addr bits_blk_start) bits_request_bus
            buffer' ← read_rounds fuel (quads n_bytes) (quads n_bytes) 0 addr outreg buffer
            write_reg reg_output_upper 0
            pure (true, buffer')))

  -- The rounds of EMIO_WriteBlock that are left, from index `q`.
  pub write_rounds : ℕ → ℕ → ℕ → ℕ → ℕ → ℕ → List ℕ → Cmd S (Unit {0})
  write_rounds fuel n_quads zero q addr outreg buffer = pure tt
  write_rounds fuel n_quads (suc left) q addr outreg buffer = do
    let outreg' = block_word (q == n_quads - 1) addr outreg
    let addr' = (addr + 1) % 2 ^ 16
    v ← load buffer q
    write_reg reg_output_lower v
    write_reg reg_output_upper outreg'
    _ ← wait_op_done fuel "write" addr' 5
    write_rounds fuel n_quads left (q + 1) addr' outreg' buffer

  pub write_block : ℕ → ℕ → List ℕ → ℕ → Cmd S Bool
  write_block fuel addr buffer n_bytes = do
    ver ← get_version
    if not (ver == 1)
        then (do
          printf "EMIO_WriteBlock: unsupported interface version %d\r\n" (num ver ∷ [])
          pure false)
        else (do
          valid ← set_data_output "EMIO_WriteBlock"
          if not valid then pure false else (do
            let outreg = bit_or (bit_or addr bits_blk_start) bits_request_bus
            write_rounds fuel (quads n_bytes) (quads n_bytes) 0 addr outreg buffer
            write_reg reg_output_upper 0
            pure true))

  -- `endian_swap32` is Xil_EndianSwap32 of the board support package.
  module _ (endian_swap32 : ℕ → ℕ) where
    pub prom_rounds : ℕ → ℕ → ℕ → List ℕ → Cmd S Bool
    prom_rounds fuel zero i bytes = pure true
    prom_rounds fuel (suc left) i bytes = do
      word ← load_u32 bytes (i * 4)
      done ← write_quadlet fuel ((0x2000 + i) % 2 ^ 16) (endian_swap32 word)
      if done
          then prom_rounds fuel left (i + 1) bytes
          else (do printf "EMIO_WritePromData failed\r\n" []; pure false)

    pub write_prom_data : ℕ → List ℕ → ℕ → Cmd S Bool
    write_prom_data fuel bytes n_bytes = prom_rounds fuel (quads n_bytes % 2 ^ 16) 0 bytes
