-- ===== src/Linux/Flash/Examples.antt =====
-- The theorems on the flash at concrete inputs, with a flash memory in a record.
use mechatronics_embedded.Base.{
  ℕ, zero, suc, ◌+◌, ◌-◌, ◌≡◌, refl, true, false, ◌⊎◌, ◌==◌, if◌then◌else◌, some, List, [], ◌∷◌,
  arith, length,
}
use mechatronics_embedded.Machine.{Machine, fault}
use mechatronics_embedded.Machine.Outcome.{Returns}
use mechatronics_embedded.Machine.Text.{c_string}
use mechatronics_embedded.Fsbl.{serial_start}
use mechatronics_embedded.Linux.Flash.{
  Mtd, get_fpga_serial_number, program_fpga_serial_number, program_flash,
}
use mechatronics_embedded.Linux.Flash.Memory.{
  Memory, Works, Bytes, Holds, slice, programmed, erased,
}
use mechatronics_embedded.Linux.Flash.Program.{Installed, program_flash-Installed}
use mechatronics_embedded.Linux.Flash.Serial.{IsText, get-program_fpga_serial_number}
use mechatronics_embedded.Linux.Flash.Overrun.{get_fpga_serial_number_overruns}

-- A partition with sectors of 64 bytes.
abbrev flash : Mtd Memory
flash = record {
  opens = λ s. true;
  open_start = λ (s : Memory). record s { at = 0 };
  read_bytes = λ n (s : Memory). (slice s.cells s.at n, record s { at = s.at + n });
  write_bytes = λ bytes (s : Memory).
      (length bytes, record { cells = programmed s.cells s.at bytes; at = s.at + length bytes });
  seek_back = λ n (s : Memory). record s { at = s.at - n };
  erasesize = λ s. 64;
  erase = λ start size (s : Memory). record s { cells = erased s.cells start size };
}

abbrev flash-Works : Works flash
flash-Works = record {
  view = λ s. s;
  healthy = λ s. true;
  opening = λ s. (refl, refl);
  reading = λ n s ok. (refl, refl, refl);
  writing = λ bytes s ok. (refl, refl, refl);
  seeking = λ n s ok. (refl, refl);
  erasing = λ start size s ok. (refl, refl);
}

abbrev start : Machine Memory
start = record { hw = record { cells = λ i. i; at = 3 }; input = []; trace = [] }

abbrev image : List ℕ
image = 1 ∷ 2 ∷ 250 ∷ []

image-Bytes : Bytes image
image-Bytes zero v g = ground arith
image-Bytes (suc zero) v g = ground arith
image-Bytes (suc (suc zero)) v g = ground arith
image-Bytes (suc (suc (suc k))) v g = absurd (ground arith)

program_flash-Installed_example :
    Returns
      (λ done m'. (done ≡ true) × ((true ≡ false) ⊎ Installed 0 64 image (λ i. i) m'.hw.cells))
      (program_flash flash 5 (λ size. true) "image.bin" (some image) "/dev/mtd4" start)
program_flash-Installed_example =
    program_flash-Installed flash-Works 5 (λ size. true) "image.bin" "/dev/mtd4" image start refl
      (omega arith) refl (omega arith) image-Bytes

-- "1234".
abbrev number : List ℕ
number = 49 ∷ 50 ∷ 51 ∷ 52 ∷ []

number-IsText : IsText number
unfolding IsText
number-IsText = (
  omega arith,
  omega arith,
  (omega arith, omega arith, (omega arith, omega arith, (omega arith, omega arith, tt))),
)

abbrev array : List ℕ
array = 7 ∷ 7 ∷ 7 ∷ 7 ∷ 7 ∷ 7 ∷ 7 ∷ 7 ∷ 7 ∷ []

get-program_fpga_serial_number_example :
    Returns
      (λ done m'.
        (done ≡ true)
        × Returns (λ sn' m''. c_string sn' ≡ number) (get_fpga_serial_number flash array m'))
      (program_fpga_serial_number flash number start)
get-program_fpga_serial_number_example =
    get-program_fpga_serial_number flash-Works (λ s. refl) (λ s. refl) number array start
      number-IsText (omega arith) (omega arith) (omega arith)

-- "11111111".
abbrev ones : List ℕ
ones = 49 ∷ 49 ∷ 49 ∷ 49 ∷ 49 ∷ 49 ∷ 49 ∷ 49 ∷ []

ones-IsText : IsText ones
unfolding IsText
ones-IsText = (
  omega arith,
  omega arith,
  (
    omega arith,
    omega arith,
    (
      omega arith,
      omega arith,
      (
        omega arith,
        omega arith,
        (
          omega arith,
          omega arith,
          (omega arith, omega arith, (omega arith, omega arith, (omega arith, omega arith, tt))),
        ),
      ),
    ),
  ),
)

abbrev numbered : ℕ → ℕ
numbered i =
    if i == 0
    then 70
    else if i == 1
    then 80
    else if i == 2
    then 71
    else if i == 3
    then 65
    else if i == 4
    then 32
    else 49

abbrev full : Machine Memory
full = record { hw = record { cells = numbered; at = 3 }; input = []; trace = [] }

starts : Holds numbered 0 serial_start
starts zero v g = ground arith
starts (suc zero) v g = ground arith
starts (suc (suc zero)) v g = ground arith
starts (suc (suc (suc zero))) v g = ground arith
starts (suc (suc (suc (suc zero)))) v g = ground arith
starts (suc (suc (suc (suc (suc k))))) v g = absurd (ground arith)

holds : Holds numbered 5 ones
holds zero v g = ground arith
holds (suc zero) v g = ground arith
holds (suc (suc zero)) v g = ground arith
holds (suc (suc (suc zero))) v g = ground arith
holds (suc (suc (suc (suc zero)))) v g = ground arith
holds (suc (suc (suc (suc (suc zero))))) v g = ground arith
holds (suc (suc (suc (suc (suc (suc zero)))))) v g = ground arith
holds (suc (suc (suc (suc (suc (suc (suc zero))))))) v g = ground arith
holds (suc (suc (suc (suc (suc (suc (suc (suc k)))))))) v g = absurd (ground arith)

get_fpga_serial_number_overruns_example : get_fpga_serial_number flash array full ≡ fault
unfolding IsText
get_fpga_serial_number_overruns_example =
    get_fpga_serial_number_overruns flash-Works ones array full refl refl starts holds ones-IsText
      refl (omega arith) (omega arith, omega arith, tt)
