-- ===== src/Emio/RegisterFile/Request.antt =====
-- A single request on hardware that meets the firmware contract.
use mechatronics_embedded.Base.{
  ℕ, ◌+◌, ◌-◌, ◌<◌, ◌^◌, ◌≡◌, refl, ap, ◌∙◌, true, false, bit_and, if◌then◌else◌,
}
use mechatronics_embedded.Machine.{Device, Machine}
use mechatronics_embedded.Machine.Outcome.{Returns, returns, Returns-then}
use mechatronics_embedded.Emio.{
  reg_input_upper, reg_input_lower, reg_output_lower, reg_dir_lower, upper_outputs, init,
  reg_out_en_lower, set_data_input, set_data_output, request_read, request_write,
}
use mechatronics_embedded.Emio.Word.{read_word, write_word}
use mechatronics_embedded.Emio.Wait.Total.{wait_total}
use mechatronics_embedded.Emio.RegisterFile.{Bus, Firmware, update}

module _ {S : Type 0} {dev : Device S} (fw : Firmware dev) where
  status_at :
      (s : S) (b : Bus)
      → fw.view s ≡ b
      → b.requested ≡ false
      → bit_and (dev.in32 (dev.gpio_base + reg_input_upper) s).0 0x210000
        ≡ (if b.driving then 0x200000 else 0)
  status_at s b e idle = rw e at (fw.status s (ap (λ (c : Bus). c.requested) e ∙ idle))

  -- EMIO_Init keeps the registers and frees the bus.
  pub init_frees :
      (m : Machine S)
      → Returns
          (λ r m'.
            ((fw.view m'.hw).regs ≡ (fw.view m.hw).regs) × ((fw.view m'.hw).requested ≡ false))
          (init dev m)
  unfolding init
  init_frees m =
      let freed =
        fw.out_enable_upper _ upper_outputs
        ∙ fw.release _
        ∙ ap (λ (b : Bus). record b { requested = false })
            (fw.dir_upper _ upper_outputs ∙ fw.dir_input m.hw) in
      returns (ap (λ (b : Bus). b.regs) freed, ap (λ (b : Bus). b.requested) freed)

  pub input_passes :
      (m : Machine S)
      → (fw.view m.hw).requested ≡ false
      → Returns
          (λ valid m'. (valid ≡ true) × (fw.view m'.hw ≡ record (fw.view m.hw) { driving = false }))
          (set_data_input dev "EMIO_ReadQuadlet" m)
  unfolding set_data_input
  input_passes m idle =
      let s = dev.out32 (dev.gpio_base + reg_dir_lower) 0 m.hw in
      rw (status_at s _ (fw.dir_input m.hw) idle)
        (returns (refl, fw.status_pure s ∙ fw.dir_input m.hw))

  pub output_passes :
      (m : Machine S)
      → (fw.view m.hw).requested ≡ false
      → Returns
          (λ valid m'. (valid ≡ true) × (fw.view m'.hw ≡ record (fw.view m.hw) { driving = true }))
          (set_data_output dev "EMIO_WriteQuadlet" m)
  unfolding set_data_output
  output_passes m idle =
      let s1 = dev.out32 (dev.gpio_base + reg_dir_lower) 0xffffffff m.hw in
      let s2 = dev.out32 (dev.gpio_base + reg_out_en_lower) 0xffffffff s1 in
      let e = fw.out_enable s1 0xffffffff ∙ fw.dir_output m.hw in
      rw (status_at s2 _ e idle) (returns (refl, fw.status_pure s2 ∙ e))

  pub request_read_answered :
      (fuel addr : ℕ) (m : Machine S)
      → addr < 2 ^ 16
      → fw.latency - 5 < fuel
      → (fw.view m.hw).driving ≡ false
      → (fw.view m.hw).requested ≡ false
      → Returns
          (λ v m'.
            (v ≡ (fw.view m.hw).regs addr)
            × (fw.view m'.hw ≡ record (fw.view m.hw) { requested = false }))
          (request_read dev fuel addr m)
  unfolding request_read
  request_read_answered fuel addr m h enough away idle =
      let (soon, settles, shows) = fw.read_answer m.hw addr h away idle in
      rw (read_word addr h) (
        Returns-then (wait_total dev fuel 5 addr fw.latency "read" _ enough soon) (λ r m' (e, u).
          returns (
            ap (λ (s : S). (dev.in32 (dev.gpio_base + reg_input_lower) s).0) e ∙ shows,
            fw.release _
                ∙ ap (λ (b : Bus). record b { requested = false })
                    (fw.data_pure _ ∙ ap fw.view e ∙ settles),
          )))

  pub request_write_answered :
      (fuel addr v : ℕ) (m : Machine S)
      → addr < 2 ^ 16
      → fw.latency - 5 < fuel
      → (fw.view m.hw).driving ≡ true
      → (fw.view m.hw).requested ≡ false
      → Returns
          (λ r m'. fw.view m'.hw ≡ record (fw.view m.hw) {
            requested = false;
            offered = v;
            regs = update (fw.view m.hw).regs addr v;
          })
          (request_write dev fuel addr v m)
  unfolding request_write
  request_write_answered fuel addr v m h enough away idle =
      let s = dev.out32 (dev.gpio_base + reg_output_lower) v m.hw in
      let offered = fw.offer m.hw v in
      let (soon, settles) =
        fw.write_answer s addr h (ap (λ (b : Bus). b.driving) offered ∙ away)
          (ap (λ (b : Bus). b.requested) offered ∙ idle) in
      rw (write_word addr h) (
        Returns-then (wait_total dev fuel 5 addr fw.latency "write" _ enough soon) (λ r m' (e, u).
          returns (
            fw.release _
            ∙ ap (λ (b : Bus). record b { requested = false })
                (ap fw.view e
                  ∙ settles
                  ∙ ap
                      (λ (b : Bus). record b {
                        requested = true;
                        regs = update b.regs addr b.offered;
                      })
                      offered))))
