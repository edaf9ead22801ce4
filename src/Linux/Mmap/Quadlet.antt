-- ===== src/Linux/Mmap/Quadlet.antt =====
-- ReadQuadlet and WriteQuadlet of fpgav3_emio_mmap.cpp on hardware that meets the firmware contract.
use mechatronics_embedded.Base.{
  ℕ, ◌+◌, ◌≤◌, ◌<◌, ◌^◌, ◌≡◌, refl, ap, ◌∙◌, Bool, true, false, not, some, String, ltb, Bool-cases,
  inl, inr,
}
use mechatronics_embedded.Machine.{Device, Machine, Arg}
use mechatronics_embedded.Machine.Outcome.{Returns, returns, Returns-then}
use mechatronics_embedded.Emio.{reg_input_upper, reg_input_lower, reg_output_lower}
use mechatronics_embedded.Emio.Word.{read_word, write_word}
use mechatronics_embedded.Emio.RegisterFile.{Bus, Firmware, update}
use mechatronics_embedded.Emio.Wait.{Quiet, Untouched-refl, before_print}
use mechatronics_embedded.Linux.{Settings, report_times}
use mechatronics_embedded.Linux.Mmap.{Mmap, lines_in, lines_out, read_quadlet, write_quadlet}
use mechatronics_embedded.Linux.Mmap.Wait.{on_board, Timely, wait_sees, wait_clear_polls}

-- The settings after an operation.
abbrev pub with_input : Bool → Settings → Settings
with_input b st = record st { is_input = b }

module _ {S : Type 0} (dev : Device S) (now : S → ℕ) (us : ℕ → ℕ → Arg) where
  -- The report of the times touches nothing.
  pub report_times-Quiet :
      (name points : String) (st : Settings) (start first second : ℕ) (m : Machine S)
      → Returns
          (λ u m'. (m'.hw ≡ m.hw) × Quiet dev m m')
          (report_times now us name points st start first second m)
  unfolding report_times
  report_times-Quiet name points st start first second m =
      let quiet = Untouched-refl (dev.gpio_base + reg_input_upper) m in
      elim (Bool-cases (ltb 0 st.do_timing)) [
        | inr off ↦ rw off (returns (refl, quiet))
        | inl on ↦ rw on (elim (Bool-cases (ltb 1 st.do_timing)) [
          | inl all ↦ rw all (
              returns (
                refl,
                before_print (dev.gpio_base + reg_input_upper) _ _
                    (before_print (dev.gpio_base + reg_input_upper) _ _ quiet),
              ))
          | inr one ↦
              rw one (returns (refl, before_print (dev.gpio_base + reg_input_upper) _ _ quiet))
        ])
      ]

module _ {S : Type 0} {dev : Device S} (fw : Firmware dev) (now : S → ℕ) (us : ℕ → ℕ → Arg) where
  -- What holds between calls: the object is mapped, knows the direction of the data lines, and has
  -- taken back its requests.
  pub record Ready (itf : Mmap) (s : S) : Type 0 where
    pub mapped : itf ≡ on_board dev now us itf.settings
    pub direction : (fw.view s).driving ≡ not itf.settings.is_input
    pub free : (fw.view s).requested ≡ false

  lines_in_drops :
      (st : Settings) (m : Machine S)
      → (fw.view m.hw).driving ≡ not st.is_input
      → Returns
          (λ itf' m'.
            (itf' ≡ on_board dev now us (with_input true st))
            × (fw.view m'.hw ≡ record (fw.view m.hw) { driving = false }))
          (lines_in dev now us (on_board dev now us st) m)
  unfolding lines_in
  lines_in_drops st m known = elim (Bool-cases st.is_input) [
    | inl e ↦ rw e (
        returns (refl, ap (λ (b : Bool). record (fw.view m.hw) { driving = b }) (known ∙ ap not e)))
    | inr e ↦ rw e (returns (refl, fw.dir_input m.hw))
  ]

  lines_out_drives :
      (st : Settings) (m : Machine S)
      → (fw.view m.hw).driving ≡ not st.is_input
      → Returns
          (λ itf' m'.
            (itf' ≡ on_board dev now us (with_input false st))
            × (fw.view m'.hw ≡ record (fw.view m.hw) { driving = true }))
          (lines_out dev now us (on_board dev now us st) m)
  unfolding lines_out
  lines_out_drives st m known = elim (Bool-cases st.is_input) [
    | inl e ↦ rw e (returns (refl, fw.out_enable _ 0xffffffff ∙ fw.dir_output m.hw))
    | inr e ↦ rw e (
        returns (refl, ap (λ (b : Bool). record (fw.view m.hw) { driving = b }) (known ∙ ap not e)))
  ]

  -- What a call keeps and leaves behind.
  abbrev pub After : Bool → Settings → Bus → Mmap → Machine S → Type 0
  After input st bus itf' m' =
      (itf' ≡ on_board dev now us (with_input input st)) × (fw.view m'.hw ≡ bus)

  pub read_on_board :
      (fuel addr : ℕ) (st : Settings) (m : Machine S)
      → addr < 2 ^ 16
      → fw.latency ≤ fuel
      → Timely dev now us st.timeout fw.latency
      → (fw.view m.hw).driving ≡ not st.is_input
      → (fw.view m.hw).requested ≡ false
      → Returns
          (λ (v, itf') m'.
            (v ≡ some ((fw.view m.hw).regs addr))
            × After true st (record (fw.view m.hw) { driving = false; requested = false }) itf' m')
          (read_quadlet dev now us fuel addr (on_board dev now us st) m)
  unfolding read_quadlet
  read_on_board fuel addr st m h enough timely known idle =
      Returns-then (lines_in_drops st m known) (λ itf1 m1 (e1, v1).
        let (soon, settles, shows) =
          fw.read_answer m1.hw addr h (ap (λ (b : Bus). b.driving) v1)
            (ap (λ (b : Bus). b.requested) v1 ∙ idle) in
        rw (e1, read_word addr h)
          (Returns-then
            (wait_sees dev now us fuel fw.latency 0 "read" (with_input true st) _ enough timely
              soon)
            (λ done m2 (e2, hw2, q2). rw e2 (
              Returns-then (wait_clear_polls dev now us fuel 0 "read" (with_input true st) _)
                (λ done' m3 (e3, hw3, q3).
                  Returns-then
                    (report_times-Quiet dev now us "ReadQuadlet" "Start-wait-end" st _ _ _ m3)
                    (λ u m4 (hw4, q4). returns (
                      ap some (
                          ap (λ (s : S). (dev.in32 (dev.gpio_base + reg_input_lower) s).0) hw2
                          ∙ shows
                          ∙ ap (λ (b : Bus). b.regs addr) v1),
                      (
                        refl,
                        ap fw.view (hw4 ∙ hw3)
                            ∙ fw.status_pure _
                            ∙ fw.release _
                            ∙ ap (λ (b : Bus). record b { requested = false })
                                (fw.data_pure _
                                  ∙ ap fw.view hw2
                                  ∙ settles
                                  ∙ ap (λ (b : Bus). record b { requested = true }) v1),
                      ),
                    )))))))

  pub write_on_board :
      (fuel addr v : ℕ) (st : Settings) (m : Machine S)
      → addr < 2 ^ 16
      → fw.latency ≤ fuel
      → Timely dev now us st.timeout fw.latency
      → (fw.view m.hw).driving ≡ not st.is_input
      → (fw.view m.hw).requested ≡ false
      → Returns
          (λ (done, itf') m'.
            (done ≡ true)
            × After false st
                (record (fw.view m.hw) {
                  driving = true;
                  requested = false;
                  offered = v;
                  regs = update (fw.view m.hw).regs addr v;
                })
                itf'
                m')
          (write_quadlet dev now us fuel addr v (on_board dev now us st) m)
  unfolding write_quadlet
  write_on_board fuel addr v st m h enough timely known idle =
      Returns-then (lines_out_drives st m known) (λ itf1 m1 (e1, v1).
        let offered = fw.offer m1.hw v ∙ ap (λ (b : Bus). record b { offered = v }) v1 in
        let (soon, settles) =
          fw.write_answer (dev.out32 (dev.gpio_base + reg_output_lower) v m1.hw) addr h
            (ap (λ (b : Bus). b.driving) offered) (ap (λ (b : Bus). b.requested) offered ∙ idle) in
        rw (e1, write_word addr h)
          (Returns-then
            (wait_sees dev now us fuel fw.latency 0 "write" (with_input false st) _ enough timely
              soon)
            (λ done m2 (e2, hw2, q2). rw e2 (
              Returns-then (wait_clear_polls dev now us fuel 0 "write" (with_input false st) _)
                (λ done' m3 (e3, hw3, q3).
                  Returns-then
                    (report_times-Quiet dev now us "WriteQuadlet" "Start-wait-end" st _ _ _ m3)
                    (λ u m4 (hw4, q4). returns (
                      refl,
                      (
                        refl,
                        ap fw.view (hw4 ∙ hw3)
                            ∙ fw.status_pure _
                            ∙ fw.release _
                            ∙ ap (λ (b : Bus). record b { requested = false })
                                (ap fw.view hw2
                                  ∙ settles
                                  ∙ ap
                                      (λ (b : Bus). record b {
                                        requested = true;
                                        regs = update b.regs addr b.offered;
                                      })
                                      offered),
                      ),
                    )))))))
