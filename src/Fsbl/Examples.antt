-- ===== src/Fsbl/Examples.antt =====
-- The theorems on the boot loader's hooks at concrete inputs.
use mechatronics_embedded.Base.{
  ℕ, bit_or, ◌≡◌, refl, inr, true, false, some, List, [], ◌∷◌, arith, ◌==◌, if◌then◌else◌,
}
use mechatronics_embedded.Machine.{Machine}
use mechatronics_embedded.Machine.Outcome.{Returns}
use mechatronics_embedded.Machine.Text.{has_prefix}
use mechatronics_embedded.Emio.Prom.{burn}
use mechatronics_embedded.Emio.Prom.{be_words}
use mechatronics_embedded.Emio.Toy.{Toy, toy, start, toy_firmware, swap32, swap32_reverses}
use mechatronics_embedded.Fsbl.{Bsp, init_sd, init_qspi}
use mechatronics_embedded.Fsbl.QuadEnable.{init_sd-QuadEnabled}
use mechatronics_embedded.Fsbl.Flash.{Chip, Flash, DriverFailed, QuadEnabled}
use mechatronics_embedded.Fsbl.Serial.{ends, init_qspi_copies}

-- A flash chip that answers every transfer.
written : List ℕ → Chip → Chip
written [] c = c
written (v ∷ rest) c = if c.writable then record c { status2 = v; writable = false } else c

chip_transfer : List ℕ → Chip → (ℕ × List ℕ) × Chip
unfolding written
chip_transfer [] c = ((0, []), c)
chip_transfer (command ∷ rest) c =
    if command == 0x9f
    then ((0, 0 ∷ c.maker ∷ c.kind ∷ c.size ∷ []), c)
    else if command == 0x35
    then ((0, 0 ∷ c.status2 ∷ []), c)
    else if command == 0x06
    then ((0, 0 ∷ []), record c { writable = true })
    else ((0, 0 ∷ 0 ∷ []), written rest c)

abbrev serial : List ℕ
serial = 70 ∷ 80 ∷ 71 ∷ 65 ∷ 32 ∷ 49 ∷ 50 ∷ 51 ∷ 52 ∷ 45 ∷ 53 ∷ 54 ∷ 255 ∷ 255 ∷ 255 ∷ 255 ∷ []

abbrev board : {S : Type 0} → (List ℕ → S → (ℕ × List ℕ) × S) → Bsp S
board transfer = record {
  lookup_config = some 0xe000d000;
  cfg_initialize = λ b s. (0, s);
  set_options = λ o s. s;
  set_clk_prescaler = λ p s. s;
  set_slave_select = λ s. s;
  polled_transfer = transfer;
  qspi_access = λ a n s. ((0, serial), s);
  options = 0x14;
  prescale_8 = 2;
  winbond_id = 0xef;
  boot_mode_reg = 0xf800025c;
  boot_modes_mask = 7;
  sd_mode = 5;
  qspi_mode = 1;
  debug_info = false;
}

chip_flash : Flash (board chip_transfer)
unfolding chip_transfer written
chip_flash = record {
  view = λ c. c;
  initialize_keeps = λ b s. refl;
  options_keep = λ o s. refl;
  prescaler_keeps = λ p s. refl;
  select_keeps = λ s. refl;
  id_keeps = λ s. refl;
  id_gives = λ s. inr (_, refl, (0, refl));
  status_keeps = λ s. refl;
  status_gives = λ s. inr (_, refl, (0, refl));
  enable_gives = λ s. inr (_, refl, (0, refl));
  enable_sets = λ s. refl;
  write_gives = λ s v. inr (_, refl, (0, 0, refl));
  write_sets = λ s v w. rw w refl;
}

-- A W25Q128JV-M whose quad enable bit is clear.
abbrev factory : Machine Chip
factory = record {
  hw = record { maker = 0xef; kind = 0x70; size = 0x18; status2 = 0x40; writable = false };
  input = [];
  trace = [];
}

init_sd-QuadEnabled_example :
    Returns
      (QuadEnabled
        (board chip_transfer)
        (DriverFailed (board chip_transfer) (bit_or factory.hw.status2 2) factory.hw)
        (λ c. c)
        factory.hw)
      (init_sd (board chip_transfer) factory)
unfolding chip_flash
init_sd-QuadEnabled_example = init_sd-QuadEnabled chip_flash factory

abbrev idle : List ℕ → Toy → (ℕ × List ℕ) × Toy
idle bytes t = ((0, bytes), t)

init_qspi_copies_example :
    Returns
      (λ r m'.
        (r ≡ true)
        × (m'.hw.bus.regs
            ≡ burn (0x46504741 ∷ 0x20313233 ∷ 0x342d3536 ∷ 0xffffffff ∷ []) 0 start.hw.bus.regs)
        × (m'.hw.bus.requested ≡ false))
      (init_qspi (board idle) toy swap32 1 "1.0" "1.0-2" false 0 0 start)
unfolding toy_firmware be_words has_prefix ends
init_qspi_copies_example =
    init_qspi_copies toy_firmware (board idle) swap32 swap32_reverses 1 (omega arith) "1.0" "1.0-2"
      false 0 0 serial start refl (ground arith) refl refl (λ s. refl) (λ s. refl)
