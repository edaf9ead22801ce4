-- ===== src/Emio/Examples.antt =====
-- The theorems on the bus at concrete inputs, with the small FPGA of Emio/Toy.
use mechatronics_embedded.Base.{ℕ, ◌≡◌, refl, true, false, some, List, [], ◌∷◌, arith}
use mechatronics_embedded.Machine.Outcome.{Returns}
use mechatronics_embedded.Emio.{
  quads, wait_op_done, write_quadlet, read_block, write_block, write_prom_data,
}
use mechatronics_embedded.Emio.Wait.{answers, settled, Quiet, DoneSeen}
use mechatronics_embedded.Emio.Wait.Total.{wait_total}
use mechatronics_embedded.Emio.Block.Read.{ReadBlockTraffic, read_block_traffic}
use mechatronics_embedded.Emio.Block.Write.{WriteBlockTraffic, write_block_traffic}
use mechatronics_embedded.Emio.Prom.{burn, be_words, write_prom_data_burns}
use mechatronics_embedded.Emio.RegisterFile.{update}
use mechatronics_embedded.Emio.RegisterFile.Access.{
  write_quadlet_writes, write_then_read, read-write_quadlet,
}
use mechatronics_embedded.Emio.Toy.{
  toy, toy_in, status, request, start, toy-Prompt, toy_firmware, swap32, swap32_reverses,
}

wait_total_example :
    Returns
      (λ r m'.
        (m'.hw ≡ settled toy 2 (request 7 start.hw))
        × ((r ≡ true) × Quiet toy (record start { hw = request 7 start.hw }) m' × DoneSeen toy m'))
      (wait_op_done toy 1 "read" 7 5 (record start { hw = request 7 start.hw }))
unfolding toy toy_in status answers
wait_total_example =
    wait_total toy 1 5 7 2 "read" (record start { hw = request 7 start.hw }) (omega arith) refl

read_block_traffic_example :
    Returns
      (ReadBlockTraffic toy 7 (0 ∷ 0 ∷ 0 ∷ []) 8 start)
      (read_block toy 1 7 (0 ∷ 0 ∷ 0 ∷ []) 8 start)
unfolding quads
read_block_traffic_example =
    read_block_traffic toy 2 1 7 (0 ∷ 0 ∷ 0 ∷ []) 8 start toy-Prompt (omega arith) (omega arith)
      (omega arith)

write_block_traffic_example :
    Returns
      (WriteBlockTraffic toy 7 (1 ∷ 2 ∷ 3 ∷ []) 9 start)
      (write_block toy 1 7 (1 ∷ 2 ∷ 3 ∷ []) 9 start)
unfolding quads
write_block_traffic_example =
    write_block_traffic toy 2 1 7 (1 ∷ 2 ∷ 3 ∷ []) 9 start toy-Prompt (omega arith) (omega arith)
      (omega arith)

write_quadlet_writes_example :
    Returns
      (λ done m'.
        (done ≡ true)
        × (m'.hw.bus.regs ≡ update start.hw.bus.regs 12 9)
        × (m'.hw.bus.requested ≡ false))
      (write_quadlet toy 1 12 9 start)
unfolding toy_firmware
write_quadlet_writes_example =
    write_quadlet_writes toy_firmware 1 12 9 start (omega arith) (omega arith) refl

read-write_quadlet_example : Returns (λ r m'. r ≡ some 9) (write_then_read toy 1 12 9 12 start)
unfolding toy_firmware
read-write_quadlet_example =
    read-write_quadlet toy_firmware 1 12 9 12 start (omega arith) (omega arith) (omega arith) refl

-- "FPGA 123".
abbrev serial : List ℕ
serial = 70 ∷ 80 ∷ 71 ∷ 65 ∷ 32 ∷ 49 ∷ 50 ∷ 51 ∷ []

write_prom_data_burns_example :
    Returns
      (λ done m'.
        (done ≡ true)
        × (m'.hw.bus.regs ≡ burn (0x46504741 ∷ 0x20313233 ∷ []) 0 start.hw.bus.regs)
        × (m'.hw.bus.requested ≡ false))
      (write_prom_data toy swap32 1 serial 8 start)
unfolding toy_firmware quads be_words
write_prom_data_burns_example =
    write_prom_data_burns toy_firmware swap32 swap32_reverses 1 8 serial start (omega arith)
      (omega arith) (omega arith) refl
