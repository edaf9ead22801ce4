-- ===== src/Demo/Commands/Read.antt =====
-- `block <addr> <num>`: it reads as many quadlets as were asked for, at most 32.
use mechatronics_embedded.Base.{
  int_lt, ℕ, zero, suc, ◌+◌, ◌-◌, ◌*◌, ◌%◌, ◌≤◌, ◌<◌, ◌^◌, ◌≡◌, refl, ap, ◌∙◌, ◌⊎◌, inl, inr, Bool,
  true, false, not, some, List, [], ◌∷◌, ◌++◌, arith, length, drop, reverse_aux, Bool-cases,
  get_elem?,
}
use Prim.Native.Nat.{min}
use mechatronics_embedded.Machine.{Device, Machine}
use mechatronics_embedded.Machine.Outcome.{Returns, returns, Returns-then, Returns-weaken}
use mechatronics_embedded.Emio.{quads}
use mechatronics_embedded.Emio.Wait.Total.{Prompt}
use mechatronics_embedded.Emio.Quadlet.{received, sent, driven, Saw, idle_for_read}
use mechatronics_embedded.Emio.Block.{block_words, wrong_version}
use mechatronics_embedded.Emio.Block.Read.{ReadBlockTraffic, read_block_traffic}
use mechatronics_embedded.Machine.Text.{c_string}
use mechatronics_embedded.Demo.Numbers.{get_dec, get_hex}
use mechatronics_embedded.Demo.Commands.{
  arg, show, rounds_of, limit_quads, report_read, block_read, block_command,
}

get_elem?-within : (xs : List ℕ) (i : ℕ) → i < length xs → (x : ℕ) × (get_elem? xs i ≡ some x)
get_elem?-within [] i h = absurd (omega arith)
get_elem?-within (x ∷ xs) zero h = (x, refl)
get_elem?-within (x ∷ xs) (suc i) h = get_elem?-within xs i (omega arith)

pub quads-four : (n : ℕ) → n < 2 ^ 30 → quads (n * 4 % 2 ^ 32) ≡ n
unfolding quads
quads-four n h = omega arith

rounds-le : (n : ℕ) → rounds_of n ≤ n
rounds-le n = ground arith

-- The signed test for too many, on a count that is not negative.
int_above : (n : ℕ) → n < 2 ^ 31 → int_lt 32 n ≡ true → 32 ≡ min n 32
int_above n small more = ground arith

int_within : (n : ℕ) → n < 2 ^ 31 → int_lt 32 n ≡ false → n ≡ min n 32
int_within n small less = ground arith

module _ {S : Type 0} (dev : Device S) where
  show_quiet :
      (left i : ℕ) (buffer : List ℕ) (m : Machine S)
      → i + left ≤ length buffer
      → Returns
          (λ r m'. (received dev m' ≡ received dev m) × (driven dev m' ≡ driven dev m))
          (show left i buffer m)
  unfolding show
  show_quiet zero i buffer m h = returns (refl, refl)
  show_quiet (suc left) i buffer m h =
      let (x, e) = get_elem?-within buffer i (omega arith) in
      rw e (show_quiet left (i + 1) buffer _ (omega arith))

  -- The array after a read of `n` quadlets from `addr` on: refused for the version or the lines that
  -- were seen, with nothing driven, and as before; or with the values that came over the bus at its
  -- front, after the words of the block were driven.
  abbrev pub BlockRead : ℕ → ℕ → List ℕ → Machine S → List ℕ → Machine S → Type 0
  BlockRead addr n buffer m buffer' m' =
      ((buffer' ≡ buffer)
        × (driven dev m' ≡ driven dev m)
        × (Saw dev (wrong_version dev) m' ⊎ Saw dev (λ u. not (idle_for_read dev u)) m'))
      ⊎ ((vals : List ℕ) × (length vals ≡ n)
          × (buffer' ≡ vals ++ drop n buffer)
          × (received dev m' ≡ reverse_aux vals (received dev m))
          × (driven dev m' ≡ 0 ∷ reverse_aux (block_words n addr addr) (driven dev m)))

  pub length-filled :
      (n : ℕ) (vals buffer : List ℕ)
      → length vals ≡ n
      → n ≤ length buffer
      → length (vals ++ drop n buffer) ≡ length buffer
  length-filled n [] buffer e h = rw (← e)
  length-filled zero (v ∷ vals) buffer e h = absurd (omega arith)
  length-filled (suc n) (v ∷ vals) [] e h = absurd (omega arith)
  length-filled (suc n) (v ∷ vals) (b ∷ buffer) e h =
      omega (arith, length-filled n vals buffer (omega arith) (omega arith))

  report_reads :
      (fuel addr n : ℕ) (buffer : List ℕ) (m m1 : Machine S) (r : Bool × List ℕ)
      → n ≤ 32
      → length buffer ≡ 32
      → ReadBlockTraffic dev addr buffer (n * 4 % 2 ^ 32) m r m1
      → Returns (BlockRead addr n buffer m) (report_read dev fuel n r m1)
  unfolding report_read
  report_reads fuel addr n buffer m m1 (false, buffer') few full same = returns (inl same)
  report_reads fuel addr n buffer m m1 (true, buffer') few full (vals, len, fill, recd, drv) =
      let n_vals : length vals ≡ n = len ∙ quads-four n (omega arith) in
      let fill' : buffer' ≡ vals ++ drop n buffer =
        fill ∙ ap (λ (q : ℕ). vals ++ drop q buffer) (quads-four n (omega arith)) in
      Returns-then
        (show_quiet (rounds_of n) 0 buffer' m1
          (rw fill' (omega (arith, length-filled n vals buffer n_vals (omega arith), rounds-le n))))
        (λ r m2 (e, d). returns (
          inr (
            vals,
            n_vals,
            fill',
            e ∙ recd,
            d
                ∙ drv
                ∙ ap (λ (q : ℕ). 0 ∷ reverse_aux (block_words q addr addr) (driven dev m))
                    (quads-four n (omega arith)),
          )))

  block_read_reads :
      (k fuel addr n : ℕ) (buffer : List ℕ) (m : Machine S)
      → Prompt dev k
      → k - 5 < fuel
      → addr < 2 ^ 16
      → n ≤ 32
      → length buffer ≡ 32
      → Returns (BlockRead addr n buffer m) (block_read dev fuel addr n buffer m)
  unfolding block_read
  block_read_reads k fuel addr n buffer m prompt enough h few full =
      Returns-then
        (read_block_traffic dev k fuel addr buffer (n * 4 % 2 ^ 32) m prompt enough h
          (omega (arith, quads-four n (omega arith))))
        (λ r m1 p. report_reads fuel addr n buffer m m1 r few full p)

  pub limit_quads_lem :
      (fuel : ℕ) (n : ℕ) (m : Machine S)
      → n < 2 ^ 31
      → Returns
          (λ n' m'.
            (n' ≡ min n 32)
            × (received dev m' ≡ received dev m)
            × (sent dev m' ≡ sent dev m)
            × (driven dev m' ≡ driven dev m))
          (limit_quads dev fuel n m)
  unfolding limit_quads
  limit_quads_lem fuel n m small = elim (Bool-cases (int_lt 32 n)) [
    | inl more ↦ rw more (returns (int_above n small more, refl, refl, refl))
    | inr less ↦ rw less (returns (int_within n small less, refl, refl, refl))
  ]

  -- Without data words, `block <addr> <num>` with `num` below 2 ^ 31, on the array of 32 quadlets
  -- and hardware that answers every request within `k` polls (the fuel covers them): the command
  -- returns. Either the version or the state of the lines that it saw last was wrong, it drove nothing
  -- on the upper lines and the array is as before; or it drove the words of a block of `num` quadlets,
  -- at most 32, from the address on, and the array begins with as many values, which are, in their
  -- order, what was read from the data lines.
  pub block_command_reads :
      (k fuel : ℕ) (r0 r1 r2 : List ℕ) (rest : List (List ℕ)) (buffer : List ℕ) (m : Machine S)
      → Prompt dev k
      → k - 5 < fuel
      → length buffer ≡ 32
      → get_dec (c_string r2) < 2 ^ 31
      → Returns
          (BlockRead (get_hex (c_string r1) % 2 ^ 16) (min (get_dec (c_string r2)) 32) buffer m)
          (block_command dev fuel 3 (r0 ∷ r1 ∷ r2 ∷ rest) buffer m)
  unfolding block_command arg
  block_command_reads k fuel r0 r1 r2 rest buffer m prompt enough full small =
      let addr = get_hex (c_string r1) % 2 ^ 16 in
      Returns-then (limit_quads_lem fuel (get_dec (c_string r2)) m small) (λ n m1 (e, same, _, drv).
        rw (← e) (
          Returns-weaken
            (block_read_reads k fuel addr n buffer m1 prompt enough (omega arith) (omega arith)
              full)
            (λ b m2 p. elim p [
              | inl (kept, d, why) ↦ inl (kept, d ∙ drv, why)
              | inr (vals, len, filled, recd, d) ↦ inr (
                vals,
                len,
                filled,
                recd ∙ ap (reverse_aux vals) same,
                d ∙ ap (λ (t : List ℕ). 0 ∷ reverse_aux (block_words n addr addr) t) drv,
              )
            ])))
