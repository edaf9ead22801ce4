-- ===== src/Emio/Block.antt =====
-- EMIO_ReadBlock and EMIO_WriteBlock: the words of a block, in order, and the data that moves.
pub mod Read
pub mod Write
pub mod Overrun
use mechatronics_embedded.Base.{
  ℕ, zero, suc, ◌+◌, ◌-◌, ◌≤◌, ◌<◌, ◌%◌, ◌^◌, ◌≡◌, refl, Bool, true, false, not, List, [], ◌∷◌,
  ◌++◌, arith, ◌==◌, Bool-cases, inl, inr, length, take, drop, bit_and, ◌/◌, ==_refl, ◌⊎◌,
  set-append, get_elem?-append, append-snoc, length-append, lt→ltb, ap, ◌∙◌, reverse_aux,
}
use mechatronics_embedded.Machine.{Device, Machine, ok, read, load, store}
use mechatronics_embedded.Machine.Outcome.{Returns, returns, Returns-then, Returns-weaken}
use mechatronics_embedded.Emio.{
  reg_input_lower, reg_input_upper, reg_output_upper, reg_output_lower, bits_version, quads,
  get_version, read_rounds, read_block, write_rounds, write_block,
}
use mechatronics_embedded.Emio.Word.{
  word, block_control, IsOpen, block_start_word, block_word_lem, block_control-IsOpen,
  block_control_odd,
}
use mechatronics_embedded.Emio.Wait.Total.{Prompt, wait_total}
use mechatronics_embedded.Emio.Quadlet.{
  driven, sent, received, Saw, idle_for_read, idle_for_write, input_traffic, output_traffic,
}

-- The upper words of `n` rounds from address `addr` on, for the block at `base`: the address of the
-- block with the request; the start mark on all but the last word, which has the end mark; the
-- lowest bit of the running address beside it.
unfoldable pub block_words : ℕ → ℕ → ℕ → List ℕ
block_words zero base addr = []
block_words (suc left) base addr =
    word base (block_control (left == 0) addr) ∷ block_words left base ((addr + 1) % 2 ^ 16)

pub store_next :
    {S : Type 0} (filled rest : List ℕ) (x v q : ℕ) (m : Machine S)
    → length filled ≡ q
    → store (filled ++ x ∷ rest) q v m ≡ ok ((filled ++ v ∷ []) ++ rest) m
store_next filled rest x v q m e = rw (
  ← e,
  append-snoc filled rest v,
  set-append filled rest x v,
  lt→ltb (length filled) (length (filled ++ x ∷ rest))
      (omega (arith, length-append filled (x ∷ rest))),
)

pub load_next :
    {S : Type 0} (gone rest : List ℕ) (x q : ℕ) (m : Machine S)
    → length gone ≡ q
    → load (gone ++ x ∷ rest) q m ≡ ok x m
load_next gone rest x q m e = rw (← e, get_elem?-append gone rest x)

module _ {S : Type 0} (dev : Device S) where
  -- Between rounds the control bits are open.
  abbrev pub Continues : ℕ → ℕ → Type 0
  Continues zero control = Unit
  Continues (suc left) control = IsOpen control

  pub next_round : (left addr : ℕ) → Continues left (block_control (left == 0) addr)
  next_round zero addr = tt
  next_round (suc left) addr = ground (arith, block_control-IsOpen addr)

  pub first_round : (n : ℕ) → Continues n 9
  first_round zero = tt
  first_round (suc n) = inl refl

  pub last_test : (q left n_quads : ℕ) → q + suc left ≡ n_quads → (q == n_quads - 1) ≡ (left == 0)
  last_test q left n_quads e = ground arith

  -- The version field that was read is not 1.
  abbrev pub wrong_version : ℕ → Bool
  wrong_version u = not (bit_and u bits_version / 2 ^ 28 == 1)

  version_traffic :
      (m : Machine S)
      → Returns
          (λ ver m'.
            (driven dev m' ≡ driven dev m)
            × (sent dev m' ≡ sent dev m)
            × (received dev m' ≡ received dev m)
            × Saw dev (λ u. bit_and u bits_version / 2 ^ 28 == ver) m')
          (get_version dev m)
  unfolding get_version
  version_traffic m =
      let (u, s) = dev.in32 (dev.gpio_base + reg_input_upper) m.hw in
      returns (refl, refl, ground arith, (u, ground arith, ==_refl _))
