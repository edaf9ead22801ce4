-- ===== src/Linux/Mmap/Board.antt =====
-- The driver that maps the GPIO registers, between calls, and beside the standalone library.
use mechatronics_embedded.Base.{
  ℕ, ◌≤◌, ◌<◌, ◌^◌, ◌≡◌, refl, sym, ap, ◌∙◌, Bool, true, false, not, Bool-cases, inl, inr, some,
  arith,
}
use mechatronics_embedded.Machine.{Device, Machine, Arg}
use mechatronics_embedded.Machine.Outcome.{Returns, returns, Returns-then, Returns-weaken}
use mechatronics_embedded.Emio
use mechatronics_embedded.Emio.RegisterFile.{Bus, Firmware, update}
use mechatronics_embedded.Emio.RegisterFile.Access.{read_quadlet_reads}
use mechatronics_embedded.Linux.{Settings}
use mechatronics_embedded.Linux.Mmap.{Mmap, lines_in, read_quadlet, write_quadlet}
use mechatronics_embedded.Linux.Mmap.Wait.{on_board, Timely, Advances, wait_ends}
use mechatronics_embedded.Linux.Mmap.Quadlet.{
  After, with_input, report_times-Quiet, Ready, read_on_board, write_on_board,
}

module _ {S : Type 0} {dev : Device S} (fw : Firmware dev) (now : S → ℕ) (us : ℕ → ℕ → Arg) where
  After-Ready :
      (input : Bool) (st : Settings) (bus : Bus) (itf' : Mmap) (m' : Machine S)
      → After fw now us input st bus itf' m'
      → bus.driving ≡ not input
      → bus.requested ≡ false
      → Ready fw now us itf' m'.hw
  After-Ready input st bus itf' m' (o, view) direction free = record {
    mapped = o ∙ ap (λ (t : Mmap). on_board dev now us t.settings) (sym o);
    direction =
        ap (λ (b : Bus). b.driving) view
        ∙ direction
        ∙ ap (λ (t : Mmap). not t.settings.is_input) (sym o);
    free = ap (λ (b : Bus). b.requested) view ∙ free;
  }

  -- On hardware that meets the firmware contract, with polls that take less than the timeout: from a
  -- ready driver ReadQuadlet succeeds with the content of the register, leaves the registers as they
  -- are, and leaves the driver ready.
  pub read_quadlet-Ready :
      (fuel addr : ℕ) (itf : Mmap) (m : Machine S)
      → addr < 2 ^ 16
      → fw.latency ≤ fuel
      → Timely dev now us itf.settings.timeout fw.latency
      → Ready fw now us itf m.hw
      → Returns
          (λ (v, itf') m'.
            (v ≡ some ((fw.view m.hw).regs addr))
            × ((fw.view m'.hw).regs ≡ (fw.view m.hw).regs)
            × Ready fw now us itf' m'.hw)
          (read_quadlet dev now us fuel addr itf m)
  read_quadlet-Ready fuel addr itf m h enough timely ready = rw ready.mapped (
      Returns-weaken
        (read_on_board fw now us fuel addr itf.settings m h enough timely ready.direction
          ready.free)
        (λ (v, itf') m' (e, after). (
          e,
          ap (λ (b : Bus). b.regs) after.1,
          After-Ready true itf.settings _ itf' m' after refl refl,
        )))

  -- On hardware that meets the firmware contract, with polls that take less than the timeout: from a
  -- ready driver WriteQuadlet succeeds, the register then holds the value and every other register is
  -- as before, and the driver is ready.
  pub write_quadlet-Ready :
      (fuel addr v : ℕ) (itf : Mmap) (m : Machine S)
      → addr < 2 ^ 16
      → fw.latency ≤ fuel
      → Timely dev now us itf.settings.timeout fw.latency
      → Ready fw now us itf m.hw
      → Returns
          (λ (done, itf') m'.
            (done ≡ true)
            × ((fw.view m'.hw).regs ≡ update (fw.view m.hw).regs addr v)
            × Ready fw now us itf' m'.hw)
          (write_quadlet dev now us fuel addr v itf m)
  write_quadlet-Ready fuel addr v itf m h enough timely ready = rw ready.mapped (
      Returns-weaken
        (write_on_board fw now us fuel addr v itf.settings m h enough timely ready.direction
          ready.free)
        (λ (done, itf') m' (e, after). (
          e,
          ap (λ (b : Bus). b.regs) after.1,
          After-Ready false itf.settings _ itf' m' after refl refl,
        )))

  -- On hardware that meets the firmware contract, with polls that take less than the timeout: from a
  -- ready driver, ReadQuadlet and EMIO_ReadQuadlet of the standalone library return the same, and leave
  -- the registers alike.
  pub read_quadlet_agrees :
      (fuel addr : ℕ) (itf : Mmap) (m : Machine S)
      → addr < 2 ^ 16
      → fw.latency < fuel
      → Timely dev now us itf.settings.timeout fw.latency
      → Ready fw now us itf m.hw
      → Returns
          (λ (v, itf') m'.
            Returns
              (λ v' m''. (v' ≡ v) × ((fw.view m''.hw).regs ≡ (fw.view m'.hw).regs))
              (Emio.read_quadlet dev fuel addr m))
          (read_quadlet dev now us fuel addr itf m)
  read_quadlet_agrees fuel addr itf m h enough timely ready =
      Returns-weaken (read_quadlet-Ready fuel addr itf m h (omega arith) timely ready)
        (λ (v, itf') m' (e, regs, next).
          Returns-weaken (read_quadlet_reads fw fuel addr m h (omega arith) ready.free)
            (λ v' m'' (e', regs', free). (e' ∙ sym e, regs' ∙ sym regs)))

module _ {S : Type 0} (dev : Device S) (now : S → ℕ) (us : ℕ → ℕ → Arg) where
  lines_in_mapped :
      (st : Settings) (m : Machine S)
      → Returns
          (λ itf' m'. itf' ≡ on_board dev now us (with_input true st))
          (lines_in dev now us (on_board dev now us st) m)
  unfolding lines_in
  lines_in_mapped st m = elim (Bool-cases st.is_input) [
    | inl e ↦ rw e (returns refl)
    | inr e ↦ rw e (returns refl)
  ]

  -- On any device whose clock advances with every poll, and with rounds for the timeout, ReadQuadlet
  -- ends and reports success, also if op_done never shows.
  pub read_quadlet_succeeds :
      (fuel addr : ℕ) (st : Settings) (m : Machine S)
      → Advances dev now us
      → st.timeout < fuel
      → Returns
          (λ (r, itf') m'. (v : ℕ) × (r ≡ some v))
          (read_quadlet dev now us fuel addr (on_board dev now us st) m)
  unfolding read_quadlet
  read_quadlet_succeeds fuel addr st m moves enough =
      Returns-then (lines_in_mapped st m) (λ itf1 m1 e1. rw e1 (
        Returns-then (wait_ends dev now us fuel 0 "read" true (with_input true st) _ moves enough)
          (λ done m2 e2. rw e2 (
            Returns-then
              (wait_ends dev now us fuel 0 "read" false (with_input true st) _ moves enough)
              (λ done' m3 e3.
                Returns-then
                  (report_times-Quiet dev now us "ReadQuadlet" "Start-wait-end" st _ _ _ m3)
                  (λ u m4 still. returns (_, refl)))))))
