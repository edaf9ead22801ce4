-- ===== src/Emio/Block/Overrun.antt =====
-- EMIO_ReadBlock with a buffer that is too short.
use mathlib.Core.List.{append-nil}
use mechatronics_embedded.Base.{
  ltb, ℕ, zero, suc, ◌+◌, ◌-◌, ◌<◌, ◌%◌, ◌^◌, ◌≡◌, refl, Bool, true, false, List, [], ◌∷◌, ◌++◌,
  arith, ◌==◌, length, length-append,
}
use mechatronics_embedded.Machine.{Device, Machine, ok, fault, read, wrote}
use mechatronics_embedded.Machine.Outcome.{Returns-inv}
use mechatronics_embedded.Emio.{
  reg_input_lower, reg_output_upper, wait_op_done, set_data_input, quads, get_version, read_rounds,
  read_block,
}
use mechatronics_embedded.Emio.Word.{
  word, block_control, block_start_word, block_word_lem, block_control_odd,
}
use mechatronics_embedded.Emio.Wait.Total.{Prompt, wait_total}
use mechatronics_embedded.Emio.Block.{store_next, Continues, next_round, first_round, last_test}

no_room : (filled : List ℕ) (q : ℕ) → length filled ≡ q → ltb q (length filled) ≡ false
no_room filled q e = ground (arith, e)

module _ {S : Type 0} (dev : Device S) where
  -- The machine once the word of a round is on the lines.
  abbrev raised : ℕ → Machine S → Machine S
  raised w m = record m {
    hw = dev.out32 (dev.gpio_base + reg_output_upper) w m.hw;
    trace = wrote (dev.gpio_base + reg_output_upper) w ∷ m.trace;
  }

  round_waits :
      (k fuel base addr : ℕ) (last : Bool) (m : Machine S)
      → Prompt dev k
      → k - 5 < fuel
      → base < 2 ^ 16
      → (r : Bool) × (m' : Machine S) × (wait_op_done dev fuel "read"
            ((addr + 1) % 2 ^ 16)
            5
            (raised (word base (block_control last addr)) m)
          ≡ ok r m')
  round_waits k fuel base addr last m prompt enough small =
      let (r, m', back, _) = Returns-inv (
        wait_total dev fuel 5 ((addr + 1) % 2 ^ 16) k "read"
          (raised (word base (block_control last addr)) m) enough
          (prompt base (block_control last addr) m.hw small (block_control_odd last addr))) in
      (r, m', back)

  read_rounds_faults :
      (k fuel n_quads left q base addr control : ℕ) (filled rest : List ℕ) (m : Machine S)
      → Prompt dev k
      → k - 5 < fuel
      → q + left ≡ n_quads
      → length filled ≡ q
      → length rest < left
      → base < 2 ^ 16
      → Continues dev left control
      → read_rounds dev fuel n_quads left q addr (word base control) (filled ++ rest) m ≡ fault
  unfolding read_rounds
  read_rounds_faults k fuel n_quads zero q base addr control filled rest m prompt enough en eq many
        small o =
      absurd (omega arith)
  read_rounds_faults k fuel n_quads (suc left) q base addr control filled [] m prompt enough en eq
        many small o =
      let (r, m', back) = round_waits k fuel base addr (left == 0) m prompt enough small in
      rw (
        last_test dev q left n_quads en,
        block_word_lem base addr control (left == 0) small o,
        back,
        append-nil filled,
        no_room filled q eq,
      )
  read_rounds_faults k fuel n_quads (suc left) q base addr control filled (x ∷ rest) m prompt enough
        en eq many small o =
      let (r, m', back) = round_waits k fuel base addr (left == 0) m prompt enough small in
      let (v, s) = dev.in32 (dev.gpio_base + reg_input_lower) m'.hw in
      let m'' : Machine S = record m' {
        hw = s;
        trace = read (dev.gpio_base + reg_input_lower) v ∷ m'.trace;
      } in
      rw
        (
          last_test dev q left n_quads en,
          block_word_lem base addr control (left == 0) small o,
          back,
          store_next filled rest x v q m'' eq,
        )
        (read_rounds_faults k fuel n_quads left (q + 1) base _ _ (filled ++ v ∷ []) rest m'' prompt
          enough (omega arith) (omega (arith, length-append filled (v ∷ []))) (omega arith) small
          (next_round dev left addr))

  -- If the version and the state of the lines pass their checks, a read of more quadlets than the
  -- buffer has leaves the buffer.
  pub read_block_faults :
      (k fuel addr n_bytes : ℕ) (buffer : List ℕ) (m m1 m2 : Machine S)
      → Prompt dev k
      → k - 5 < fuel
      → addr < 2 ^ 16
      → length buffer < quads n_bytes
      → get_version dev m ≡ ok 1 m1
      → set_data_input dev "EMIO_ReadBlock" m1 ≡ ok true m2
      → read_block dev fuel addr buffer n_bytes m ≡ fault
  unfolding read_block
  read_block_faults k fuel addr n_bytes buffer m m1 m2 prompt enough h many right idle = rw (
    right,
    idle,
    block_start_word addr h,
    read_rounds_faults k fuel (quads n_bytes) (quads n_bytes) 0 addr addr 9 [] buffer m2 prompt
        enough (omega arith) refl many h (first_round dev (quads n_bytes)),
  )
