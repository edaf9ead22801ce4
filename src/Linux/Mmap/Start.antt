-- ===== src/Linux/Mmap/Start.antt =====
-- The constructor of the driver, which the calls start from.
use mechatronics_embedded.Base.{
  ℕ, ◌+◌, ◌/◌, ◌^◌, ◌≡◌, refl, sym, ap, subst, ◌∙◌, Bool, true, false, not, Bool-cases, inl, inr,
  bit_and, ltb, ◌==◌,
}
use mechatronics_embedded.Machine.{Device, Machine, Arg}
use mechatronics_embedded.Machine.Outcome.{Returns, returns, Returns-then}
use mechatronics_embedded.Emio.{reg_input_upper, reg_dir_upper, bits_version, any_set}
use mechatronics_embedded.Emio.RegisterFile.{Bus, Firmware}
use mechatronics_embedded.Linux.{Settings}
use mechatronics_embedded.Linux.Mmap.{
  Mmap, slcr_base_addr, aper_clk_ctrl, gpio_clk_bit, gpio_base_addr, gpio_size, is_ok, mmap_init,
  enable_clock, init_lines, init, construct,
}
use mechatronics_embedded.Linux.Mmap.Wait.{on_board}
use mechatronics_embedded.Linux.Mmap.Quadlet.{Ready}

module _ {S : Type 0} {dev : Device S} (fw : Firmware dev) (now : S → ℕ) (us : ℕ → ℕ → Arg) where
  -- The register of the clocks has nothing to do with the bus.
  pub record Clocked : Type 0 where
    pub reading : (s : S) → fw.view (dev.in32 (slcr_base_addr + aper_clk_ctrl) s).1 ≡ fw.view s
    pub writing :
        (v : ℕ) (s : S) → fw.view (dev.out32 (slcr_base_addr + aper_clk_ctrl) v s) ≡ fw.view s

  -- The firmware's version is one that the driver knows.
  abbrev pub Supported : Type 0
  Supported =
      (s : S)
      → ltb 1 (bit_and (dev.in32 (dev.gpio_base + reg_input_upper) s).0 bits_version / 2 ^ 28)
        ≡ false

  module _ (fuel : ℕ) (opens : S → Bool) (maps : ℕ → ℕ → S → Bool) where
    enable_clock_quiet :
        (itf : Mmap) (m : Machine S)
        → itf.region ≡ slcr_base_addr
        → Clocked
        → Returns
            (λ u m'. fw.view m'.hw ≡ fw.view m.hw)
            (enable_clock dev now us fuel opens maps itf m)
    unfolding enable_clock
    enable_clock_quiet itf m slcr clocked =
        let v = (dev.in32 (slcr_base_addr + aper_clk_ctrl) m.hw).0 in
        rw slcr (elim (Bool-cases (any_set v gpio_clk_bit)) [
          | inl e ↦ rw e (returns (clocked.reading m.hw))
          | inr e ↦ rw e (elim (Bool-cases itf.settings.is_verbose) [
            | inl verbose ↦ rw verbose (returns (clocked.writing _ _ ∙ clocked.reading m.hw))
            | inr silent ↦ rw silent (returns (clocked.writing _ _ ∙ clocked.reading m.hw))
          ])
        ])

    init_lines-Ready :
        (st : Settings) (m : Machine S)
        → Supported
        → Returns
            (λ (done, itf') m'.
              (done ≡ true) × (itf'.region ≡ dev.gpio_base) × Ready fw now us itf' m'.hw)
            (init_lines dev now us fuel opens maps (on_board dev now us st) m)
    unfolding init_lines
    init_lines-Ready st m supported =
        rw (supported (dev.out32 (dev.gpio_base + reg_dir_upper) 0 m.hw)) (
          returns (
            refl,
            refl,
            record {
              mapped = refl;
              direction =
                  ap (λ (b : Bus). b.driving) (fw.out_enable_upper _ _ ∙ fw.release _)
                  ∙ ap (λ (b : Bus). b.driving) (fw.dir_upper _ _ ∙ fw.dir_input _);
              free = ap (λ (b : Bus). b.requested) (fw.out_enable_upper _ _ ∙ fw.release _);
            },
          ))

    init-Ready :
        (itf : Mmap) (m : Machine S)
        → gpio_base_addr ≡ dev.gpio_base
        → Clocked
        → Supported
        → ((s : S) → opens s ≡ true)
        → ((base_addr size : ℕ) (s : S) → maps base_addr size s ≡ true)
        → Returns
            (λ (done, itf') m'.
              (done ≡ true) × (itf'.region ≡ dev.gpio_base) × Ready fw now us itf' m'.hw)
            (init dev now us fuel opens maps itf m)
    unfolding init mmap_init
    init-Ready itf m there clocked supported opened mapped =
        rw (opened m.hw, mapped slcr_base_addr (aper_clk_ctrl + 4) m.hw)
          (Returns-then
            (enable_clock_quiet
              (record { settings = itf.settings; opened = true; region = slcr_base_addr }) m refl
              clocked)
            (λ u m1 quiet. rw (mapped gpio_base_addr gpio_size m1.hw) (
              subst
                (λ (base : ℕ).
                  Returns
                    (λ (done, itf') m'.
                      (done ≡ true) × (itf'.region ≡ dev.gpio_base) × Ready fw now us itf' m'.hw)
                    (init_lines dev now us fuel opens maps
                      (record { settings = itf.settings; opened = true; region = base }) m1))
                (sym there) (init_lines-Ready itf.settings m1 supported))))

    -- On hardware that meets the firmware contract at the address that the driver maps, with a version
    -- of at most 1, and a clock register that does not matter to the bus: if /dev/mem can be opened and
    -- mapped, the constructor makes an object that is OK and ready.
    pub construct-Ready :
        (m : Machine S)
        → gpio_base_addr ≡ dev.gpio_base
        → Clocked
        → Supported
        → ((s : S) → opens s ≡ true)
        → ((base_addr size : ℕ) (s : S) → maps base_addr size s ≡ true)
        → Returns
            (λ itf m'. (is_ok itf ≡ true) × Ready fw now us itf m'.hw)
            (construct dev now us fuel opens maps m)
    unfolding construct
    construct-Ready m there clocked supported opened mapped =
        Returns-then (init-Ready _ m there clocked supported opened mapped)
          (λ (done, itf) m1 (e, region, ready).
            rw e (returns (ap (λ (base : ℕ). not (base == 0)) (region ∙ sym there), ready)))
