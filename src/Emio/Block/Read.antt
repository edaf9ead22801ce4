-- ===== src/Emio/Block/Read.antt =====
-- EMIO_ReadBlock: the words of a block read, and where the values go.
use mechatronics_embedded.Base.{
  ℕ, zero, suc, ◌+◌, ◌-◌, ◌≤◌, ◌<◌, ◌%◌, ◌^◌, ◌≡◌, refl, Bool, true, false, not, List, [], ◌∷◌,
  ◌++◌, arith, ◌==◌, Bool-cases, inl, inr, length, drop, ◌⊎◌, append-snoc, length-append, ap, ◌∙◌,
  reverse_aux,
}
use mechatronics_embedded.Machine.{Device, Machine, read}
use mechatronics_embedded.Machine.Outcome.{Returns, returns, Returns-then, Returns-weaken}
use mechatronics_embedded.Emio.{reg_input_lower, reg_output_upper, quads, read_rounds, read_block}
use mechatronics_embedded.Emio.Word.{
  word, block_control, block_start_word, block_word_lem, block_control_odd,
}
use mechatronics_embedded.Emio.Wait.Total.{Prompt, wait_total}
use mechatronics_embedded.Emio.Quadlet.{driven, received, Saw, idle_for_read, input_traffic}
use mechatronics_embedded.Emio.Block.{
  block_words, store_next, Continues, next_round, first_round, last_test, wrong_version,
  version_traffic,
}

module _ {S : Type 0} (dev : Device S) where
  -- `n` rounds that fill the buffer behind `filled`.
  abbrev Filled : ℕ → ℕ → ℕ → List ℕ → List ℕ → Machine S → List ℕ → Machine S → Type 0
  Filled n base addr filled rest m buffer' m' =
      (vals : List ℕ) × (length vals ≡ n)
      × (buffer' ≡ filled ++ (vals ++ drop n rest))
      × (received dev m' ≡ reverse_aux vals (received dev m))
      × (driven dev m' ≡ reverse_aux (block_words n base addr) (driven dev m))

  read_rounds_traffic :
      (k fuel n_quads left q base addr control : ℕ) (filled rest : List ℕ) (m : Machine S)
      → Prompt dev k
      → k - 5 < fuel
      → q + left ≡ n_quads
      → length filled ≡ q
      → left ≤ length rest
      → base < 2 ^ 16
      → Continues dev left control
      → Returns
          (Filled left base addr filled rest m)
          (read_rounds dev fuel n_quads left q addr (word base control) (filled ++ rest) m)
  unfolding read_rounds block_words
  read_rounds_traffic k fuel n_quads zero q base addr control filled rest m prompt enough en eq fits
        small o =
      returns ([], refl, refl, refl, refl)
  read_rounds_traffic k fuel n_quads (suc left) q base addr control filled [] m prompt enough en eq
        fits small o =
      absurd (omega arith)
  read_rounds_traffic k fuel n_quads (suc left) q base addr control filled (x ∷ rest) m prompt
        enough en eq fits small o =
      rw (last_test dev q left n_quads en, block_word_lem base addr control (left == 0) small o)
        (Returns-then
          (wait_total dev fuel 5 _ k "read" _ enough
            (prompt base _ _ small (block_control_odd (left == 0) addr)))
          (λ r m' (hw, (e, u, seen)).
            let (v, s) = dev.in32 (dev.gpio_base + reg_input_lower) m'.hw in
            let m'' : Machine S = record m' {
              hw = s;
              trace = read (dev.gpio_base + reg_input_lower) v ∷ m'.trace;
            } in
            let got : received dev m'' ≡ v ∷ received dev m =
              ground (arith, u.same_reads (dev.gpio_base + reg_input_lower)) in
            let put : driven dev m'' ≡ word base (block_control (left == 0) addr) ∷ driven dev m =
              ground (arith, u.same_writes (dev.gpio_base + reg_output_upper)) in
            rw (store_next filled rest x v q m'' eq) (
              Returns-weaken
                (read_rounds_traffic k fuel n_quads left (q + 1) base _ _ (filled ++ v ∷ []) rest
                  m'' prompt enough (omega arith) (omega (arith, length-append filled (v ∷ [])))
                  (omega arith) small (next_round dev left addr))
                (λ buffer' m3 (vals, len, fill, recd, drv). (
                  v ∷ vals,
                  ap suc len,
                  fill ∙ append-snoc filled (vals ++ drop left rest) v,
                  recd ∙ ap (reverse_aux vals) got,
                  drv ∙ ap (reverse_aux (block_words left base ((addr + 1) % 2 ^ 16))) put,
                )))))

  -- A refused block drives nothing and leaves the buffer alone.
  abbrev pub ReadBlockTraffic : ℕ → List ℕ → ℕ → Machine S → Bool × List ℕ → Machine S → Type 0
  ReadBlockTraffic addr buffer n_bytes m (false, buffer') m' =
      (buffer' ≡ buffer)
      × (driven dev m' ≡ driven dev m)
      × (Saw dev (wrong_version dev) m' ⊎ Saw dev (λ u. not (idle_for_read dev u)) m')
  ReadBlockTraffic addr buffer n_bytes m (true, buffer') m' =
      (vals : List ℕ) × (length vals ≡ quads n_bytes)
      × (buffer' ≡ vals ++ drop (quads n_bytes) buffer)
      × (received dev m' ≡ reverse_aux vals (received dev m))
      × (driven dev m' ≡ 0 ∷ reverse_aux (block_words (quads n_bytes) addr addr) (driven dev m))

  -- For a 16-bit address, a buffer with room for the quadlets of `n_bytes`, and hardware that answers
  -- every request within `k` polls, which the fuel covers, EMIO_ReadBlock returns. A result `false`
  -- means that the version or the state of the lines was wrong: nothing was driven on the upper
  -- lines and the buffer is as before. A result `true` means that the words of the block and then
  -- zero were driven, in that order, and that the buffer begins with the values read meanwhile.
  pub read_block_traffic :
      (k fuel addr : ℕ) (buffer : List ℕ) (n_bytes : ℕ) (m : Machine S)
      → Prompt dev k
      → k - 5 < fuel
      → addr < 2 ^ 16
      → quads n_bytes ≤ length buffer
      → Returns (ReadBlockTraffic addr buffer n_bytes m) (read_block dev fuel addr buffer n_bytes m)
  unfolding read_block
  read_block_traffic k fuel addr buffer n_bytes m prompt enough h fits =
      Returns-then (version_traffic dev m) (λ ver m1 (d1, s1, r1, (u, last, is)).
        elim (Bool-cases (ver == 1)) [
          | inr wrong ↦ rw wrong (returns (refl, d1, inl (u, last, ground (arith, is, wrong))))
          | inl right ↦ rw right (
              Returns-then (input_traffic dev "EMIO_ReadBlock" m1) (λ valid m2 p.
                elim (Bool-cases valid) [
                  | inr e ↦ rw e (returns (refl, p.0 ∙ d1, inr (rw e at p.2)))
                  | inl e ↦
                      rw (e, block_start_word addr h)
                        (Returns-then
                          (read_rounds_traffic k fuel (quads n_bytes) (quads n_bytes) 0 addr addr 9
                            [] buffer m2 prompt enough (omega arith) refl fits h
                            (first_round dev (quads n_bytes)))
                          (λ buffer' m3 (vals, len, fill, recd, drv). returns (
                            vals,
                            len,
                            fill,
                            recd ∙ ap (reverse_aux vals) (p.1 ∙ r1),
                            ground (
                              arith,
                              drv
                                  ∙ ap (reverse_aux (block_words (quads n_bytes) addr addr))
                                      (p.0 ∙ d1),
                            ),
                          )))
                ]))
        ])
