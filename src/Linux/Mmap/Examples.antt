-- ===== src/Linux/Mmap/Examples.antt =====
-- The theorems on the driver at concrete inputs, with the small FPGA of Emio/Toy.
use mechatronics_embedded.Base.{
  ℕ, ◌+◌, ◌≡◌, refl, true, Bool-cases, inl, inr, ◌==◌, some, [], ◌∷◌, arith, ltb,
}
use mechatronics_embedded.Machine.{Device, Arg, num}
use mechatronics_embedded.Machine.Outcome.{Returns}
use mechatronics_embedded.Emio
use mechatronics_embedded.Emio.{quads}
use mechatronics_embedded.Emio.RegisterFile.{update}
use mechatronics_embedded.Emio.Toy.{Toy, status, toy, toy-Prompt, toy_firmware, start}
use mechatronics_embedded.Linux.{Settings, default_settings}
use mechatronics_embedded.Linux.Mmap.{
  Mmap, is_ok, construct, read_quadlet, write_quadlet, read_block,
}
use mechatronics_embedded.Linux.Mmap.Wait.{on_board, Timely}
use mechatronics_embedded.Linux.Mmap.Quadlet.{Ready}
use mechatronics_embedded.Linux.Mmap.Board.{
  read_quadlet-Ready, write_quadlet-Ready, read_quadlet_agrees, read_quadlet_succeeds,
}
use mechatronics_embedded.Linux.Mmap.Start.{Clocked, Supported, construct-Ready}
use mechatronics_embedded.Linux.Mmap.Block.{BlockRead, read_block_swaps}

-- The clock stands at 3.
abbrev now : Toy → ℕ
now t = 3

abbrev us : ℕ → ℕ → Arg
us a b = num a

abbrev driver : Mmap
driver = on_board toy now us default_settings

in_time : Timely toy now us 250000 2
in_time = (omega arith, λ s. (omega arith, (omega arith, tt)))

start-Ready : Ready toy_firmware now us (on_board toy now us default_settings) start.hw
unfolding toy_firmware
start-Ready = record { mapped = refl; direction = refl; free = refl }

read_quadlet-Ready_example :
    Returns
      (λ (v, itf') m'.
        (v ≡ some ((toy_firmware.view start.hw).regs 7))
        × ((toy_firmware.view m'.hw).regs ≡ (toy_firmware.view start.hw).regs)
        × Ready toy_firmware now us itf' m'.hw)
      (read_quadlet toy now us 2 7 driver start)
unfolding toy_firmware
read_quadlet-Ready_example =
    read_quadlet-Ready toy_firmware now us 2 7 driver start (omega arith) (omega arith) in_time
      start-Ready

write_quadlet-Ready_example :
    Returns
      (λ (done, itf') m'.
        (done ≡ true)
        × ((toy_firmware.view m'.hw).regs ≡ update (toy_firmware.view start.hw).regs 12 9)
        × Ready toy_firmware now us itf' m'.hw)
      (write_quadlet toy now us 2 12 9 driver start)
unfolding toy_firmware
write_quadlet-Ready_example =
    write_quadlet-Ready toy_firmware now us 2 12 9 driver start (omega arith) (omega arith) in_time
      start-Ready

read_quadlet_agrees_example :
    Returns
      (λ (v, itf') m'.
        Returns
          (λ v' m''. (v' ≡ v) × ((toy_firmware.view m''.hw).regs ≡ (toy_firmware.view m'.hw).regs))
          (Emio.read_quadlet toy 3 7 start))
      (read_quadlet toy now us 3 7 driver start)
unfolding toy_firmware
read_quadlet_agrees_example =
    read_quadlet_agrees toy_firmware now us 3 7 driver start (omega arith) (omega arith) in_time
      start-Ready

abbrev new_settings : Settings
new_settings = record default_settings { version = 1 }

read_block_swaps_example :
    Returns
      (BlockRead toy now us 7 (0 ∷ 0 ∷ 0 ∷ []) 8 start (ltb new_settings.version 1))
      (read_block toy now us 2 7 (0 ∷ 0 ∷ 0 ∷ []) 8 (on_board toy now us new_settings) start)
unfolding quads
read_block_swaps_example =
    read_block_swaps toy now us 2 2 7 (0 ∷ 0 ∷ 0 ∷ []) 8 new_settings start toy-Prompt (omega arith)
      in_time (omega arith) (omega arith)

toy-Clocked : Clocked toy_firmware now us
unfolding toy_firmware
toy-Clocked = record { reading = λ s. refl; writing = λ v s. refl }

toy-Supported : Supported toy_firmware now us
unfolding toy_firmware status
toy-Supported s = elim (Bool-cases s.bus.driving) [
  | inl d ↦ elim (Bool-cases s.bus.requested) [
    | inl r ↦ elim (Bool-cases (s.pending == 0)) [
      | inl p ↦ rw (d, r, p) refl
      | inr p ↦ rw (d, r, p) refl
    ]
    | inr r ↦ rw (d, r) refl
  ]
  | inr d ↦ elim (Bool-cases s.bus.requested) [
    | inl r ↦ elim (Bool-cases (s.pending == 0)) [
      | inl p ↦ rw (d, r, p) refl
      | inr p ↦ rw (d, r, p) refl
    ]
    | inr r ↦ rw (d, r) refl
  ]
]

construct-Ready_example :
    Returns
      (λ itf m'. (is_ok itf ≡ true) × Ready toy_firmware now us itf m'.hw)
      (construct toy now us 2 (λ s. true) (λ base size s. true) start)
unfolding toy_firmware
construct-Ready_example =
    construct-Ready toy_firmware now us 2 (λ s. true) (λ base size s. true) start refl toy-Clocked
      toy-Supported (λ s. refl) (λ base size s. refl)

-- Nothing answers; the state is the time, which a read takes one of.
abbrev silent : Device ℕ
silent = record { gpio_base = 0; in32 = λ a t. (0, t + 1); out32 = λ a v t. t }

abbrev short : Settings
short = record default_settings { timeout = 4 }

read_quadlet_succeeds_example :
    Returns
      (λ (r, itf') m'. (v : ℕ) × (r ≡ some v))
      (read_quadlet silent
        (λ t. t)
        us
        5
        7
        (on_board silent (λ t. t) us short)
        (record { hw = 0; input = []; trace = [] }))
read_quadlet_succeeds_example =
    read_quadlet_succeeds silent (λ t. t) us 5 7 short (record { hw = 0; input = []; trace = [] })
      (λ s. omega arith) (omega arith)
