-- ===== src/Emio/RegisterFile.antt =====
-- The contract of the FPGA firmware for single quadlets (fpgav3_emio.c): a register file behind the
-- bus.
pub mod Request
pub mod Access
use mechatronics_embedded.Base.{
  ℕ, ◌+◌, ◌-◌, ◌<◌, ◌^◌, ◌≡◌, refl, ap, ◌∙◌, Bool, true, false, Option, some, bit_and, ◌==◌,
  if◌then◌else◌,
}
use mechatronics_embedded.Machine.{Device, Machine, Cmd, ◌>>=◌}
use mechatronics_embedded.Machine.Outcome.{Returns, returns, Returns-then, Returns-weaken}
use mechatronics_embedded.Emio.{
  reg_input_upper, reg_input_lower, reg_output_upper, reg_output_lower, reg_dir_lower,
  reg_dir_upper, reg_out_en_upper, upper_outputs, init, reg_out_en_lower, set_data_input,
  set_data_output, request_read, request_write, read_quadlet, write_quadlet,
}
use mechatronics_embedded.Emio.Word.{word, read_word, write_word}
use mechatronics_embedded.Emio.Wait.{answers, settled}
use mechatronics_embedded.Emio.Wait.Total.{wait_total}

-- What the firmware's side of the bus amounts to: the direction of the data lines, the request line,
-- the value offered on the data lines, and the registers.
pub record Bus : Type 0 where
  pub driving : Bool
  pub requested : Bool
  pub offered : ℕ
  pub regs : ℕ → ℕ

abbrev pub update : (ℕ → ℕ) → ℕ → ℕ → ℕ → ℕ
update regs a v b = if b == a then v else regs b

-- The behaviour that the comments of fpgav3_emio.c rely on.
pub record Firmware {S : Type 0} (dev : Device S) : Type 0 where
  pub view : S → Bus
  -- The most polls that an operation takes.
  pub latency : ℕ
  pub dir_input :
      (s : S)
      → view (dev.out32 (dev.gpio_base + reg_dir_lower) 0 s) ≡ record (view s) { driving = false }
  pub dir_output :
      (s : S)
      → view (dev.out32 (dev.gpio_base + reg_dir_lower) 0xffffffff s)
        ≡ record (view s) { driving = true }
  pub out_enable :
      (s : S) (v : ℕ) → view (dev.out32 (dev.gpio_base + reg_out_en_lower) v s) ≡ view s
  -- The control lines' direction and output enable do not matter to the registers.
  pub dir_upper : (s : S) (v : ℕ) → view (dev.out32 (dev.gpio_base + reg_dir_upper) v s) ≡ view s
  pub out_enable_upper :
      (s : S) (v : ℕ) → view (dev.out32 (dev.gpio_base + reg_out_en_upper) v s) ≡ view s
  pub offer :
      (s : S) (v : ℕ)
      → view (dev.out32 (dev.gpio_base + reg_output_lower) v s) ≡ record (view s) { offered = v }
  pub release :
      (s : S)
      → view (dev.out32 (dev.gpio_base + reg_output_upper) 0 s)
        ≡ record (view s) { requested = false }
  -- The request line reads back, and the write line follows the direction.
  pub status :
      (s : S)
      → (view s).requested ≡ false
      → bit_and (dev.in32 (dev.gpio_base + reg_input_upper) s).0 0x210000
        ≡ (if (view s).driving then 0x200000 else 0)
  pub status_pure : (s : S) → view (dev.in32 (dev.gpio_base + reg_input_upper) s).1 ≡ view s
  pub data_pure : (s : S) → view (dev.in32 (dev.gpio_base + reg_input_lower) s).1 ≡ view s
  -- A raised request is answered in time; a read then shows the register on the data lines.
  pub read_answer :
      (s : S) (a : ℕ)
      → a < 2 ^ 16
      → (view s).driving ≡ false
      → (view s).requested ≡ false
      → let s' = dev.out32 (dev.gpio_base + reg_output_upper) (word a 1) s in
        (answers dev latency s' ≡ true)
        × (view (settled dev latency s') ≡ record (view s) { requested = true })
        × ((dev.in32 (dev.gpio_base + reg_input_lower) (settled dev latency s')).0
            ≡ (view s).regs a)
  -- A write has then stored the value that was offered.
  pub write_answer :
      (s : S) (a : ℕ)
      → a < 2 ^ 16
      → (view s).driving ≡ true
      → (view s).requested ≡ false
      → let s' = dev.out32 (dev.gpio_base + reg_output_upper) (word a 5) s in
        (answers dev latency s' ≡ true)
        × (view (settled dev latency s')
            ≡ record (view s) { requested = true; regs = update (view s).regs a (view s).offered })
