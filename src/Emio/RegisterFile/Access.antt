-- ===== src/Emio/RegisterFile/Access.antt =====
-- EMIO_ReadQuadlet and EMIO_WriteQuadlet as the operations of a register file.
use mechatronics_embedded.Base.{
  ℕ, ◌-◌, ◌<◌, ◌^◌, ◌≡◌, refl, ap, ◌∙◌, true, false, Option, some, ◌==◌, if◌then◌else◌,
}
use mechatronics_embedded.Machine.{Device, Machine, Cmd, ◌>>=◌}
use mechatronics_embedded.Machine.Outcome.{Returns, returns, Returns-then, Returns-weaken}
use mechatronics_embedded.Emio.{read_quadlet, write_quadlet}
use mechatronics_embedded.Emio.RegisterFile.{Bus, Firmware, update}
use mechatronics_embedded.Emio.RegisterFile.Request.{
  input_passes, output_passes, request_read_answered, request_write_answered,
}

module _ {S : Type 0} (dev : Device S) where
  -- A write and then a read, as one command.
  pub write_then_read : ℕ → ℕ → ℕ → ℕ → Cmd S (Option ℕ)
  write_then_read fuel addr v other = do
    _ ← write_quadlet dev fuel addr v
    read_quadlet dev fuel other

module _ {S : Type 0} {dev : Device S} (fw : Firmware dev) where
  -- For a 16-bit address, from a free bus and with fuel for the firmware's latency, EMIO_ReadQuadlet
  -- returns the register's content; the registers are as before and the bus is free again.
  pub read_quadlet_reads :
      (fuel addr : ℕ) (m : Machine S)
      → addr < 2 ^ 16
      → fw.latency - 5 < fuel
      → (fw.view m.hw).requested ≡ false
      → Returns
          (λ v m'.
            (v ≡ some ((fw.view m.hw).regs addr))
            × ((fw.view m'.hw).regs ≡ (fw.view m.hw).regs)
            × ((fw.view m'.hw).requested ≡ false))
          (read_quadlet dev fuel addr m)
  unfolding read_quadlet
  read_quadlet_reads fuel addr m h enough idle =
      Returns-then (input_passes fw m idle) (λ valid m1 (e, v1). rw e (
        Returns-then
          (request_read_answered fw fuel addr m1 h enough (ap (λ (b : Bus). b.driving) v1)
            (ap (λ (b : Bus). b.requested) v1 ∙ idle))
          (λ v m2 (ev, v2). returns (
            ap some (ev ∙ ap (λ (b : Bus). b.regs addr) v1),
            ap (λ (b : Bus). b.regs) v2 ∙ ap (λ (b : Bus). b.regs) v1,
            ap (λ (b : Bus). b.requested) v2,
          ))))

  -- For a 16-bit address, from a free bus and with fuel for the firmware's latency, EMIO_WriteQuadlet
  -- returns `true`, after which the register holds the value, every other register is as before, and
  -- the bus is free again.
  pub write_quadlet_writes :
      (fuel addr v : ℕ) (m : Machine S)
      → addr < 2 ^ 16
      → fw.latency - 5 < fuel
      → (fw.view m.hw).requested ≡ false
      → Returns
          (λ done m'.
            (done ≡ true)
            × ((fw.view m'.hw).regs ≡ update (fw.view m.hw).regs addr v)
            × ((fw.view m'.hw).requested ≡ false))
          (write_quadlet dev fuel addr v m)
  unfolding write_quadlet
  write_quadlet_writes fuel addr v m h enough idle =
      Returns-then (output_passes fw m idle) (λ valid m1 (e, v1). rw e (
        Returns-then
          (request_write_answered fw fuel addr v m1 h enough (ap (λ (b : Bus). b.driving) v1)
            (ap (λ (b : Bus). b.requested) v1 ∙ idle))
          (λ r m2 v2. returns (
            refl,
            ap (λ (b : Bus). b.regs) v2 ∙ ap (λ (b : Bus). update b.regs addr v) v1,
            ap (λ (b : Bus). b.requested) v2,
          ))))

  -- For 16-bit addresses, from a free bus and with fuel for the firmware's latency, a read after a
  -- write returns the value written if the addresses agree, and otherwise what the register held
  -- before.
  pub read-write_quadlet :
      (fuel addr v other : ℕ) (m : Machine S)
      → addr < 2 ^ 16
      → other < 2 ^ 16
      → fw.latency - 5 < fuel
      → (fw.view m.hw).requested ≡ false
      → Returns
          (λ r m'. r ≡ some (if other == addr then v else (fw.view m.hw).regs other))
          (write_then_read dev fuel addr v other m)
  unfolding write_then_read
  read-write_quadlet fuel addr v other m h k enough idle =
      Returns-then (write_quadlet_writes fuel addr v m h enough idle) (λ done m1 (e, regs, free).
        Returns-weaken (read_quadlet_reads fuel other m1 k enough free)
          (λ r m2 (er, _, _). er ∙ ap (λ (f : ℕ → ℕ). some (f other)) regs))
