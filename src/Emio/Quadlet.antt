-- ===== src/Emio/Quadlet.antt =====
-- EMIO_ReadQuadlet and EMIO_WriteQuadlet: what they put on the bus, on every branch.
use mechatronics_embedded.Base.{
  ℕ, ◌+◌, ◌-◌, refl, ◌<◌, ◌^◌, ◌≡◌, Bool, true, false, not, Option, none, some, List, ◌∷◌, String,
  bit_and, bit_or, arith, ◌==◌, if◌then◌else◌, Bool-cases, inl, inr,
}
use mechatronics_embedded.Machine.{Device, Machine}
use mechatronics_embedded.Machine.Outcome.{Returns, returns, Returns-then}
use mechatronics_embedded.Machine.Traffic.{writes_to, reads_of, last_read}
use mechatronics_embedded.Emio.{
  reg_input_upper, reg_input_lower, reg_output_upper, reg_output_lower, bits_request_bus,
  bits_write, any_set, set_data_input, set_data_output, request_read, request_write, read_quadlet,
  write_quadlet,
}
use mechatronics_embedded.Emio.Word.{word, read_word, write_word}
use mechatronics_embedded.Emio.Wait.{DoneSeen}
use mechatronics_embedded.Emio.Wait.Total.{Prompt, wait_total}

module _ {S : Type 0} (dev : Device S) where
  -- The words that were put on the upper output lines, the newest first.
  abbrev pub driven : Machine S → List ℕ
  driven m = writes_to (dev.gpio_base + reg_output_upper) m.trace

  -- The values that were put on the lower output lines, the newest first.
  abbrev pub sent : Machine S → List ℕ
  sent m = writes_to (dev.gpio_base + reg_output_lower) m.trace

  -- The values that were read from the data lines, the newest first.
  abbrev pub received : Machine S → List ℕ
  received m = reads_of (dev.gpio_base + reg_input_lower) m.trace

  -- What the direction check of `set_data_input` and `set_data_output` saw.
  abbrev pub Saw : (ℕ → Bool) → Machine S → Type 0
  Saw test m =
      (u : ℕ) × (last_read (dev.gpio_base + reg_input_upper) m.trace ≡ some u) × (test u ≡ true)

  abbrev pub idle_for_read : ℕ → Bool
  idle_for_read u = not (any_set u (bit_or bits_request_bus bits_write))

  abbrev pub idle_for_write : ℕ → Bool
  idle_for_write u = bit_and u (bit_or bits_request_bus bits_write) == bits_write

  pub input_traffic :
      (name : String) (m : Machine S)
      → Returns
          (λ valid m'.
            (driven m' ≡ driven m)
            × (received m' ≡ received m)
            × Saw (λ u. if valid then idle_for_read u else not (idle_for_read u)) m')
          (set_data_input dev name m)
  unfolding set_data_input
  input_traffic name m =
      let (u, s) =
        dev.in32 (dev.gpio_base + reg_input_upper) (dev.out32 (dev.gpio_base + 0x284) 0 m.hw) in
      elim (Bool-cases (any_set u (bit_or bits_request_bus bits_write))) [
        | inl busy ↦ rw busy (returns (ground arith, ground arith, (u, ground arith, ground arith)))
        | inr idle ↦ rw idle (returns (ground arith, ground arith, (u, ground arith, ground arith)))
      ]

  -- The write side also drives the lower lines, and leaves their data register alone.
  pub output_traffic :
      (name : String) (m : Machine S)
      → Returns
          (λ valid m'.
            (driven m' ≡ driven m)
            × (sent m' ≡ sent m)
            × Saw (λ u. if valid then idle_for_write u else not (idle_for_write u)) m')
          (set_data_output dev name m)
  unfolding set_data_output
  output_traffic name m =
      let (u, s) = dev.in32 (dev.gpio_base + reg_input_upper) (
        dev.out32 (dev.gpio_base + 0x288) 0xffffffff
          (dev.out32 (dev.gpio_base + 0x284) 0xffffffff m.hw)) in
      elim (Bool-cases (bit_and u (bit_or bits_request_bus bits_write) == bits_write)) [
        | inl idle ↦ rw idle (returns (ground arith, ground arith, (u, ground arith, ground arith)))
        | inr busy ↦ rw busy (returns (ground arith, ground arith, (u, ground arith, ground arith)))
      ]

  -- A refused read, and one that returned a value: the words driven and the data read.
  abbrev pub ReadTraffic : ℕ → Machine S → Option ℕ → Machine S → Type 0
  ReadTraffic addr m none m' = (driven m' ≡ driven m) × Saw (λ u. not (idle_for_read u)) m'
  ReadTraffic addr m (some v) m' =
      (driven m' ≡ 0 ∷ word addr 1 ∷ driven m)
      × (last_read (dev.gpio_base + reg_input_lower) m'.trace ≡ some v)
      × DoneSeen dev m'

  request_read_traffic :
      (k fuel addr : ℕ) (m : Machine S)
      → Prompt dev k
      → k - 5 < fuel
      → addr < 2 ^ 16
      → Returns (λ v m'. ReadTraffic addr m (some v) m') (request_read dev fuel addr m)
  unfolding request_read
  request_read_traffic k fuel addr m prompt enough h = rw (read_word addr h) (
      Returns-then (wait_total dev fuel 5 addr k "read" _ enough (prompt addr 1 _ h refl))
        (λ r m' (hw, (e, u, seen)). returns (
          ground (arith, u.same_writes (dev.gpio_base + reg_output_upper)),
          ground arith,
          (seen.0, ground (arith, seen.1), seen.2),
        )))

  -- For a 16-bit address, and hardware that answers every request within `k` polls, which the fuel
  -- covers, EMIO_ReadQuadlet returns. Without a value nothing was driven on the upper lines, whose
  -- state was that of a request or a write. With a value, the request for the address and then zero
  -- were driven, op_done was set when the upper lines were last read, and the value is the last that
  -- was read from the data lines.
  pub read_quadlet_traffic :
      (k fuel addr : ℕ) (m : Machine S)
      → Prompt dev k
      → k - 5 < fuel
      → addr < 2 ^ 16
      → Returns (ReadTraffic addr m) (read_quadlet dev fuel addr m)
  unfolding read_quadlet
  read_quadlet_traffic k fuel addr m prompt enough h =
      Returns-then (input_traffic "EMIO_ReadQuadlet" m) (λ valid m' p. elim (Bool-cases valid) [
        | inl e ↦ rw e (
            Returns-then (request_read_traffic k fuel addr m' prompt enough h)
              (λ v m'' q. returns (ground (arith, q.0, p.0), q.1, q.2)))
        | inr e ↦ rw e (returns (p.0, rw e at p.2))
      ])

  -- A refused write, and one that was done: the words driven and the data sent.
  abbrev pub WriteTraffic : ℕ → ℕ → Machine S → Bool → Machine S → Type 0
  WriteTraffic addr v m false m' =
      (driven m' ≡ driven m) × (sent m' ≡ sent m) × Saw (λ u. not (idle_for_write u)) m'
  WriteTraffic addr v m true m' =
      (driven m' ≡ 0 ∷ word addr 5 ∷ driven m) × (sent m' ≡ v ∷ sent m) × DoneSeen dev m'

  request_write_traffic :
      (k fuel addr v : ℕ) (m : Machine S)
      → Prompt dev k
      → k - 5 < fuel
      → addr < 2 ^ 16
      → Returns (λ r m'. WriteTraffic addr v m true m') (request_write dev fuel addr v m)
  unfolding request_write
  request_write_traffic k fuel addr v m prompt enough h = rw (write_word addr h) (
      Returns-then (wait_total dev fuel 5 addr k "write" _ enough (prompt addr 5 _ h refl))
        (λ r m' (hw, (e, u, seen)). returns (
          ground (arith, u.same_writes (dev.gpio_base + reg_output_upper)),
          ground (arith, u.same_writes (dev.gpio_base + reg_output_lower)),
          (seen.0, ground (arith, seen.1), seen.2),
        )))

  -- For a 16-bit address, and hardware that answers every request within `k` polls, which the fuel
  -- covers, EMIO_WriteQuadlet returns. With the result `false` no data and no word was driven, and
  -- the upper lines were not in the state of an idle write. With `true` the value was put on the data
  -- lines, the write request for the address and then zero were driven on the upper lines, and
  -- op_done was set when these were last read.
  pub write_quadlet_traffic :
      (k fuel addr v : ℕ) (m : Machine S)
      → Prompt dev k
      → k - 5 < fuel
      → addr < 2 ^ 16
      → Returns (WriteTraffic addr v m) (write_quadlet dev fuel addr v m)
  unfolding write_quadlet
  write_quadlet_traffic k fuel addr v m prompt enough h =
      Returns-then (output_traffic "EMIO_WriteQuadlet" m) (λ valid m' p. elim (Bool-cases valid) [
        | inl e ↦ rw e (
            Returns-then (request_write_traffic k fuel addr v m' prompt enough h)
              (λ r m'' q. returns (ground (arith, q.0, p.0), ground (arith, q.1, p.1), q.2)))
        | inr e ↦ rw e (returns (p.0, p.1, rw e at p.2))
      ])
