-- ===== src/Demo/Commands/Quad.antt =====
-- `quad <addr>` and `quad <addr> <data>` on a register file.
use mechatronics_embedded.Base.{
  ℕ, suc, ◌-◌, ◌%◌, ◌<◌, ◌^◌, ◌≡◌, refl, false, Option, none, some, List, [], ◌∷◌, arith, length,
  lt→ltb,
}
use mechatronics_embedded.Machine.{Device, Machine, Event, printed, num}
use mechatronics_embedded.Machine.Outcome.{Returns, returns, Returns-then}
use mechatronics_embedded.Machine.Text.{c_string}
use mechatronics_embedded.Emio.RegisterFile.{Firmware, update}
use mechatronics_embedded.Emio.RegisterFile.Access.{read_quadlet_reads, write_quadlet_writes}
use mechatronics_embedded.Demo.Numbers.{get_hex}
use mechatronics_embedded.Demo.Commands.{arg, quad_command}

-- The newest event of a trace.
abbrev pub newest : List Event → Option Event
newest [] = none
newest (e ∷ t) = some e

-- The register that an argument names.
abbrev pub register : List ℕ → ℕ
register word = get_hex (c_string word) % 2 ^ 16

module _ {S : Type 0} {dev : Device S} (fw : Firmware dev) (fuel : ℕ)
    (enough : fw.latency - 5 < fuel) (r0 r1 : List ℕ) (b : ℕ) (buffer : List ℕ) (m : Machine S)
    (free : (fw.view m.hw).requested ≡ false) where
  -- For hardware that meets the firmware contract, from a free bus and with fuel for the latency,
  -- `quad <addr>` puts the content of the register into the first place of its array and prints it;
  -- the registers are as before and the bus is free.
  pub quad_command_reads :
      (rest : List (List ℕ))
      → Returns
          (λ buffer' m'.
            (buffer' ≡ (fw.view m.hw).regs (register r1) ∷ buffer)
            × (newest m'.trace
                ≡ some (printed "  %08x\r\n" (num ((fw.view m.hw).regs (register r1)) ∷ [])))
            × ((fw.view m'.hw).regs ≡ (fw.view m.hw).regs)
            × ((fw.view m'.hw).requested ≡ false))
          (quad_command dev fuel 2 (r0 ∷ r1 ∷ rest) (b ∷ buffer) m)
  unfolding quad_command arg
  quad_command_reads rest =
      Returns-then (read_quadlet_reads fw fuel (register r1) m (omega arith) enough free)
        (λ v m' (e, regs, freed).
          rw (e, lt→ltb 0 (suc (length buffer)) (omega arith)) (returns (refl, refl, regs, freed)))

  -- For hardware that meets the firmware contract, from a free bus and with fuel for the latency,
  -- `quad <addr> <data>` stores the data in the register and in the first place of its array; every
  -- other register is as before and the bus is free.
  pub quad_command_writes :
      (r2 : List ℕ) (rest : List (List ℕ)) (argc : ℕ)
      → 2 < argc
      → Returns
          (λ buffer' m'.
            (buffer' ≡ get_hex (c_string r2) ∷ buffer)
            × ((fw.view m'.hw).regs
                ≡ update (fw.view m.hw).regs (register r1) (get_hex (c_string r2)))
            × ((fw.view m'.hw).requested ≡ false))
          (quad_command dev fuel argc (r0 ∷ r1 ∷ r2 ∷ rest) (b ∷ buffer) m)
  unfolding quad_command arg
  quad_command_writes r2 rest argc more =
      rw (lt→ltb 2 argc more, lt→ltb 0 (suc (length buffer)) (omega arith))
        (Returns-then
          (write_quadlet_writes fw fuel (register r1) (get_hex (c_string r2)) m (omega arith) enough
            free)
          (λ done m' (e, regs, freed). rw e (returns (refl, regs, freed))))
