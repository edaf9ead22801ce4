-- ===== src/Fsbl/Serial.antt =====
-- FpgaV3_Init_QSPI: the serial number goes from the flash to the FPGA.
use mechatronics_embedded.Base.{
  ℕ, suc, ◌+◌, ◌-◌, ◌<◌, ◌^◌, ◌≡◌, refl, ap, ◌∙◌, ◌⊎◌, inl, inr, Bool, true, false, ◌||◌, Option,
  none, some, String, List, [], ◌∷◌, arith, length, lt→ltb, ◌==◌, Bool-cases,
}
use mechatronics_embedded.Machine.{Device, Machine}
use mechatronics_embedded.Machine.Outcome.{Returns, returns, Returns-then, Returns-weaken}
use mechatronics_embedded.Machine.Text.{has_prefix, strchr}
use mechatronics_embedded.Emio.{any_set, quads}
use mechatronics_embedded.Emio.RegisterFile.{Bus, Firmware}
use mechatronics_embedded.Emio.RegisterFile.Access.{read_quadlet_reads}
use mechatronics_embedded.Emio.RegisterFile.Request.{init_frees}
use mechatronics_embedded.Emio.Prom.{ReversesBytes, AreBytes, be_words, burn, write_prom_data_burns}
use mechatronics_embedded.Fsbl.{
  Bsp, read_into, print_if, show_board, serial_start, show_serial, copy_serial, set_up_fpga,
  init_qspi,
}

-- The text has the byte 0xff, or a zero.
unfoldable pub ends : List ℕ → Bool
ends [] = false
ends (b ∷ bytes) = b == 0xff || (b == 0 || ends bytes)

module _ {S : Type 0} where
  -- The search stays in such a text, and changes nothing.
  strchr_in :
      (bytes : List ℕ) (i : ℕ) (m : Machine S)
      → ends bytes ≡ true
      → Returns
          (λ found m'.
            ((found ≡ none) ⊎ ((p : ℕ) × (found ≡ some p) × (p < i + length bytes)))
            × (m'.hw ≡ m.hw))
          (strchr 0xff i bytes m)
  unfolding strchr ends
  strchr_in [] i m h = absurd (ground arith)
  strchr_in (b ∷ bytes) i m h = elim (Bool-cases (b == 0xff)) [
    | inl here ↦ rw here (returns (inr (i, refl, omega arith), refl))
    | inr more ↦ rw more (elim (Bool-cases (b == 0)) [
      | inl end ↦ rw end (returns (inl refl, refl))
      | inr on ↦ rw on (
          Returns-weaken (strchr_in bytes (i + 1) m (rw (more, on) at h))
            (λ found m' (place, hw). (further place, hw)))
    ])
  ]
    where
      further :
          {found : Option ℕ}
          → (found ≡ none) ⊎ ((p : ℕ) × (found ≡ some p) × (p < i + 1 + length bytes))
          → (found ≡ none) ⊎ ((p : ℕ) × (found ≡ some p) × (p < i + suc (length bytes)))
      further (inl e) = inl e
      further (inr (p, e, within)) = inr (p, e, omega arith)

module _ {S : Type 0} {dev : Device S} (fw : Firmware dev) (bsp : Bsp S) (swap : ℕ → ℕ)
    (reverses : ReversesBytes swap) (fuel : ℕ) (enough : fw.latency - 5 < fuel) where
  -- The registers are `regs`, and the bus is free.
  abbrev Free : (ℕ → ℕ) → Machine S → Type 0
  Free regs m = ((fw.view m.hw).regs ≡ regs) × ((fw.view m.hw).requested ≡ false)

  read_into-Free :
      (regs : ℕ → ℕ) (addr old : ℕ) (m : Machine S)
      → addr < 2 ^ 16
      → Free regs m
      → Returns (λ v m'. Free regs m') (read_into bsp dev swap fuel addr old m)
  unfolding read_into
  read_into-Free regs addr old m h (same, free) =
      Returns-then (read_quadlet_reads fw fuel addr m h enough free)
        (λ v m' (e, kept, freed). rw e (returns (kept ∙ same, freed)))

  print_if-Free :
      (regs : ℕ → ℕ) (word mask : ℕ) (name : String) (m : Machine S)
      → Free regs m
      → Returns (λ r m'. Free regs m') (print_if bsp dev swap fuel word mask name m)
  unfolding print_if
  print_if-Free regs word mask name m f = elim (Bool-cases (any_set word mask)) [
    | inl is ↦ rw is (returns f)
    | inr not' ↦ rw not' (returns f)
  ]

  show_board-Free :
      (regs : ℕ → ℕ) (version0 status0 : ℕ) (m : Machine S)
      → Free regs m
      → Returns (λ r m'. Free regs m') (show_board bsp dev swap fuel version0 status0 m)
  unfolding show_board
  show_board-Free regs version0 status0 m f =
      Returns-then (read_into-Free regs 4 version0 m (omega arith) f) (λ version m1 f1.
        elim (Bool-cases (version == 0x42434647)) [
          | inr other ↦ rw other (returns f1)
          | inl is ↦ rw is (
              Returns-then (read_into-Free regs 0 status0 m1 (omega arith) f1) (λ status m2 f2.
                Returns-then (print_if-Free regs status 0x00800000 ", No board" _ f2) (λ _ m3 f3.
                  Returns-then (print_if-Free regs status 0x00400000 ", QLA" _ f3) (λ _ m4 f4.
                    Returns-then (print_if-Free regs status 0x00200000 ", DQLA" _ f4) (λ _ m5 f5.
                      Returns-then (print_if-Free regs status 0x00100000 ", DRAC" _ f5)
                        (λ _ m6 f6. returns f6))))))
        ])

  show_serial-Free :
      (regs : ℕ → ℕ) (buffer : List ℕ) (m : Machine S)
      → length buffer ≡ 16
      → ends buffer ≡ true
      → Free regs m
      → Returns (λ r m'. Free regs m') (show_serial bsp dev swap fuel buffer m)
  unfolding show_serial
  show_serial-Free regs buffer m sixteen ended f =
      Returns-then (strchr_in buffer 0 m ended) (λ found m' (place, hw). elim place [
        | inl none' ↦ rw (none', lt→ltb 13 (length buffer) (omega arith)) (returns (rw hw f))
        | inr (p, some', within) ↦
            rw (some', lt→ltb p (length buffer) (omega arith)) (returns (rw hw f))
      ])

  copy_serial-Free :
      (serial : List ℕ) (m : Machine S)
      → length serial ≡ 16
      → AreBytes serial
      → has_prefix serial_start serial ≡ true
      → ends serial ≡ true
      → ((s : S) → (bsp.qspi_access 0xff0000 16 s).0 ≡ (0, serial))
      → ((s : S) → fw.view (bsp.qspi_access 0xff0000 16 s).1 ≡ fw.view s)
      → (fw.view m.hw).requested ≡ false
      → Returns
          (λ r m'. Free (burn (be_words 4 serial) 0 (fw.view m.hw).regs) m')
          (copy_serial bsp dev swap fuel m)
  unfolding copy_serial quads
  copy_serial-Free serial m sixteen bytes prefix ended gives keeps free =
      rw (gives m.hw, prefix)
        (Returns-then
          (write_prom_data_burns fw swap reverses fuel 16 serial _ (omega arith) bytes enough
            (rw (keeps m.hw) free))
          (λ done m1 (e, regs, freed).
            show_serial-Free _ serial m1 sixteen ended
              (regs ∙ ap (λ (b : Bus). burn (be_words 4 serial) 0 b.regs) (keeps m.hw), freed)))

  abbrev Copied : List ℕ → (ℕ → ℕ) → Bool → Machine S → Type 0
  Copied serial regs r m' =
      (r ≡ true)
      × ((fw.view m'.hw).regs ≡ burn (be_words 4 serial) 0 regs)
      × ((fw.view m'.hw).requested ≡ false)

  set_up_fpga-Copied :
      (version0 status0 : ℕ) (serial : List ℕ) (m : Machine S)
      → length serial ≡ 16
      → AreBytes serial
      → has_prefix serial_start serial ≡ true
      → ends serial ≡ true
      → ((s : S) → (bsp.qspi_access 0xff0000 16 s).0 ≡ (0, serial))
      → ((s : S) → fw.view (bsp.qspi_access 0xff0000 16 s).1 ≡ fw.view s)
      → Returns
          (Copied serial (fw.view m.hw).regs)
          (set_up_fpga bsp dev swap fuel version0 status0 m)
  unfolding set_up_fpga
  set_up_fpga-Copied version0 status0 serial m sixteen bytes prefix ended gives keeps =
      Returns-then (init_frees fw m) (λ r m1 f1.
        Returns-then (show_board-Free (fw.view m.hw).regs version0 status0 m1 f1)
          (λ r2 m2 (same, free).
            Returns-then (copy_serial-Free serial m2 sixteen bytes prefix ended gives keeps free)
              (λ r3 m3 (burnt, freed).
                returns (refl, burnt ∙ ap (burn (be_words 4 serial) 0) same, freed))))

  -- For hardware that meets the firmware contract, with an Xil_EndianSwap32 that reverses bytes and
  -- fuel for the latency: if QspiAccess gives sixteen bytes that begin with "FPGA " and contain 0xff
  -- or a zero, and leaves the FPGA alone, then FpgaV3_Init_QSPI returns `true`, the FPGA's registers
  -- are those of before with the bytes, as four big-endian words, stored from PROM register 0 on,
  -- and the bus is free. Neither the state of the bus before nor the contents of the local
  -- variables matter.
  pub init_qspi_copies :
      (version git_version : String) (same_version : Bool) (version0 status0 : ℕ) (serial : List ℕ)
      (m : Machine S)
      → length serial ≡ 16
      → AreBytes serial
      → has_prefix serial_start serial ≡ true
      → ends serial ≡ true
      → ((s : S) → (bsp.qspi_access 0xff0000 16 s).0 ≡ (0, serial))
      → ((s : S) → fw.view (bsp.qspi_access 0xff0000 16 s).1 ≡ fw.view s)
      → Returns
          (λ r m'.
            (r ≡ true)
            × ((fw.view m'.hw).regs ≡ burn (be_words 4 serial) 0 (fw.view m.hw).regs)
            × ((fw.view m'.hw).requested ≡ false))
          (init_qspi bsp dev swap fuel version git_version same_version version0 status0 m)
  unfolding init_qspi
  init_qspi_copies version git_version same_version version0 status0 serial m sixteen bytes prefix
        ended gives keeps =
      elim (Bool-cases same_version) [
        | inl same ↦
            rw same
              (set_up_fpga-Copied version0 status0 serial _ sixteen bytes prefix ended gives keeps)
        | inr other ↦
            rw other
              (set_up_fpga-Copied version0 status0 serial _ sixteen bytes prefix ended gives keeps)
      ]
