-- ===== src/Linux/Flash.antt =====
-- petalinux/libfpgav3/files/fpgav3_qspi.cpp: the flash partitions, and the serial number in one.
pub mod Memory
pub mod Sector
pub mod Program
pub mod Serial
pub mod Overrun
mod Examples
use mechatronics_embedded.Base.{
  ℕ, zero, suc, ◌+◌, ◌-◌, ◌≤◌, Bool, true, false, not, ◌&&◌, Option, none, some, List, [], ◌∷◌,
  ◌++◌, String, ltb, ◌==◌, length, take, drop, if◌then◌else◌,
}
use mechatronics_embedded.Machine.{
  Cmd, ok, waiting, num, text, chars, pure, ◌>>=◌, ◌>>◌, printf, store,
}
use mechatronics_embedded.Machine.Text.{has_prefix, strchr}
use mechatronics_embedded.Fsbl.{serial_start}

-- The system calls on a flash partition: open (at the start of the partition), read, write, lseek
-- backwards from the current position, and ioctl with MEMGETINFO and with MEMUNLOCK and MEMERASE.
pub record Mtd (S : Type 0) : Type 0 where
  pub opens : S → Bool
  pub open_start : S → S
  pub read_bytes : ℕ → S → List ℕ × S
  pub write_bytes : List ℕ → S → ℕ × S
  pub seek_back : ℕ → S → S
  pub erasesize : S → ℕ
  pub erase : ℕ → ℕ → S → S

abbrev pub fpga_sn_size : ℕ
fpga_sn_size = 9

-- `memcmp(a, b, n) == 0` for arrays of `n` bytes.
unfoldable pub same_bytes : List ℕ → List ℕ → Bool
same_bytes [] b = true
same_bytes (x ∷ a) [] = false
same_bytes (x ∷ a) (y ∷ b) = x == y && same_bytes a b

module _ {S : Type 0} (mtd : Mtd S) where
  abbrev pub run : (S → S) → Cmd S (Unit {0})
  run f m = ok tt (record m { hw = f m.hw })

  abbrev pub read_call : ℕ → Cmd S (List ℕ)
  read_call n m = let (bytes, s) = mtd.read_bytes n m.hw in ok bytes (record m { hw = s })

  abbrev pub write_call : List ℕ → Cmd S ℕ
  write_call bytes m = let (n, s) = mtd.write_bytes bytes m.hw in ok n (record m { hw = s })

  abbrev pub can_open : Cmd S Bool
  can_open m = ok (mtd.opens m.hw) m

  abbrev pub get_erasesize : Cmd S ℕ
  get_erasesize m = ok (mtd.erasesize m.hw) m

  -- The part of GetFpgaSerialNumber behind the test of the first five bytes. A read fills the front of
  -- the array.
  pub read_serial : List ℕ → Cmd S (List ℕ)
  read_serial sn = do
    bytes ← read_call (fpga_sn_size - 1)
    let sn' = bytes ++ drop (length bytes) sn
    found ← strchr 0xff 0 sn'
    elim found [ some p ↦ store sn' p 0 | none ↦ store sn' (fpga_sn_size - 1) 0 ]

  -- `sn0` is the caller's array.
  pub get_fpga_serial_number : List ℕ → Cmd S (List ℕ)
  get_fpga_serial_number sn0 = do
    sn ← store sn0 0 0
    opened ← can_open
    if not opened
        then (do printf "GetFpgaSerialNumber: cannot open QSPI flash device\n" []; pure sn)
        else (do
          run mtd.open_start
          start ← read_call 5
          if length start == 5 && has_prefix serial_start start then read_serial sn else pure sn)

  -- The part of ProgramFpgaSerialNumber behind the opening of the device.
  pub write_serial : List ℕ → Cmd S Bool
  write_serial sn = do
    run mtd.open_start
    size ← get_erasesize
    run (mtd.erase 0 size)
    n ← write_call serial_start
    if not (n == 5)
        then (do
          printf "ProgramFpgaSerialNumber: error writing FPGA to QSPI flash device\n" []
          pure false)
        else (do
          n' ← write_call sn
          if n' == length sn then pure true else (do
            printf "ProgramFpgaSerialNumber: error writing S/N %s to QSPI flash device\n"
                (chars sn ∷ [])
            pure false))

  pub program_fpga_serial_number : List ℕ → Cmd S Bool
  program_fpga_serial_number sn =
      if not (ltb (length sn) fpga_sn_size)
      then (do
        printf "ProgramFpgaSerialNumber: S/N too long (limit = %d characters)\n"
            (num (fpga_sn_size - 1) ∷ [])
        pure false)
      else (do
        opened ← can_open
        if not opened
            then (do
              printf "ProgramFpgaSerialNumber: cannot open QSPI flash device\n" []
              pure false)
            else write_serial sn)

  -- A sector of ProgramFlash at `n_bytes`, whose new content is `file_buf`; whether it was the same.
  pub program_sector : ℕ → ℕ → List ℕ → Cmd S Bool
  program_sector size n_bytes file_buf = do
    let nb = length file_buf
    dev_buf ← read_call nb
    if same_bytes file_buf dev_buf then pure true else (do
      run (mtd.seek_back nb)
      run (mtd.erase n_bytes size)
      _ ← write_call file_buf
      pure false)

  -- The loop, with the rest of the file, numSame and numDiff; `rounds` bounds the sectors.
  pub program_sectors : ℕ → ℕ → ℕ → ℕ → List ℕ → ℕ → ℕ → Cmd S (ℕ × ℕ)
  program_sectors zero size file_size n_bytes rest num_same num_diff = λ _. waiting
  program_sectors (suc rounds) size file_size n_bytes rest num_same num_diff =
      if ltb n_bytes file_size
      then (do
        let bytes_left = file_size - n_bytes
        let nb = if ltb bytes_left size then bytes_left else size
        same ← program_sector size n_bytes (take nb rest)
        program_sectors rounds size file_size (n_bytes + size) (drop nb rest)
            (if same then num_same + 1 else num_same) (if same then num_diff else num_diff + 1))
      else pure (num_same, num_diff)

  -- `file` is the content of the file, if it can be opened, and `allocates` whether malloc succeeds.
  pub program_flash : ℕ → (ℕ → Bool) → String → Option (List ℕ) → String → Cmd S Bool
  program_flash rounds allocates file_name none dev_name = do
    printf "ProgramFlash: cannot open file %s\n" (text file_name ∷ [])
    pure false
  program_flash rounds allocates file_name (some file) dev_name = do
    opened ← can_open
    if not opened
        then (do
          printf "ProgramFlash: cannot open QSPI flash device %s\n" (text dev_name ∷ [])
          pure false)
        else (do
          run mtd.open_start
          size ← get_erasesize
          if not (allocates size)
              then (do
                printf "ProgramFlash: failed to allocate buffer of size %d\n" (num size ∷ [])
                pure false)
              else (do
                (num_same, num_diff) ← program_sectors rounds size (length file) 0 file 0 0
                if num_diff == 0
                    then printf "ProgramFlash:  %s already present in %s\n"
                        (text file_name ∷ text dev_name ∷ [])
                    else printf "ProgramFlash:  updated %s in %s (%d of %d sectors)\n" (
                        text file_name
                        ∷ text dev_name
                        ∷ num num_diff
                        ∷ num (num_same + num_diff)
                        ∷ [])
                pure true))
