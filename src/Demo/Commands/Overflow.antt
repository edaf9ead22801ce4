-- ===== src/Demo/Commands/Overflow.antt =====
-- `block <addr> <num>` with a `num` that is negative as an `int`.
use mechatronics_embedded.Base.{
  int_lt, ℕ, ◌-◌, ◌*◌, ◌%◌, ◌≤◌, ◌<◌, ◌^◌, ◌≡◌, true, false, List, ◌∷◌, arith, length,
}
use mechatronics_embedded.Machine.{Device, Machine, ok, fault}
use mechatronics_embedded.Emio.{quads, get_version, set_data_input}
use mechatronics_embedded.Emio.Wait.Total.{Prompt}
use mechatronics_embedded.Emio.Block.Overrun.{read_block_faults}
use mechatronics_embedded.Machine.Text.{c_string}
use mechatronics_embedded.Demo.Numbers.{get_dec, get_hex}
use mechatronics_embedded.Demo.Commands.{arg, limit_quads, block_read, block_command}

-- A count with the sign bit set is not above the limit.
int_negative : (n : ℕ) → 2 ^ 31 ≤ n → n < 2 ^ 32 → int_lt 32 n ≡ false
int_negative n high small = ground arith

module _ {S : Type 0} (dev : Device S) where
  -- For a `num` of 2 ^ 31 or more whose four-byte units come to more than 32 quadlets in 32 bits,
  -- with a version and a state of the lines that pass their checks and hardware that answers within
  -- `k` polls, which the fuel covers, `block <addr> <num>` writes outside its array of 32 quadlets.
  pub block_command_overflows :
      (k fuel : ℕ) (r0 r1 r2 : List ℕ) (rest : List (List ℕ)) (buffer : List ℕ)
      (m m1 m2 : Machine S)
      → Prompt dev k
      → k - 5 < fuel
      → length buffer ≡ 32
      → 2 ^ 31 ≤ get_dec (c_string r2)
      → get_dec (c_string r2) < 2 ^ 32
      → 32 < quads (get_dec (c_string r2) * 4 % 2 ^ 32)
      → get_version dev m ≡ ok 1 m1
      → set_data_input dev "EMIO_ReadBlock" m1 ≡ ok true m2
      → block_command dev fuel 3 (r0 ∷ r1 ∷ r2 ∷ rest) buffer m ≡ fault
  unfolding block_command limit_quads block_read arg
  block_command_overflows k fuel r0 r1 r2 rest buffer m m1 m2 prompt enough full high small many
        right idle =
      rw (
        int_negative (get_dec (c_string r2)) high small,
        read_block_faults dev k fuel (get_hex (c_string r1) % 2 ^ 16)
            (get_dec (c_string r2) * 4 % 2 ^ 32) buffer m m1 m2 prompt enough (omega arith)
            (omega arith) right idle,
      )
