-- ===== src/Emio/Block/Write.antt =====
-- EMIO_WriteBlock: the words of a block write, and the data that is sent.
use mechatronics_embedded.Base.{
  ℕ, zero, suc, ◌+◌, ◌-◌, ◌≤◌, ◌<◌, ◌%◌, ◌^◌, ◌≡◌, refl, Bool, true, false, not, List, [], ◌∷◌,
  ◌++◌, arith, ◌==◌, Bool-cases, inl, inr, length, take, ◌⊎◌, append-snoc, length-append, ap, ◌∙◌,
  reverse_aux,
}
use mechatronics_embedded.Machine.{Device, Machine}
use mechatronics_embedded.Machine.Outcome.{Returns, returns, Returns-then, Returns-weaken}
use mechatronics_embedded.Emio.{
  reg_output_upper, reg_output_lower, quads, write_rounds, write_block,
}
use mechatronics_embedded.Emio.Word.{
  word, block_control, block_start_word, block_word_lem, block_control_odd,
}
use mechatronics_embedded.Emio.Wait.Total.{Prompt, wait_total}
use mechatronics_embedded.Emio.Quadlet.{driven, sent, Saw, idle_for_write, output_traffic}
use mechatronics_embedded.Emio.Block.{
  block_words, load_next, Continues, next_round, first_round, last_test, wrong_version,
  version_traffic,
}

module _ {S : Type 0} (dev : Device S) where
  -- `n` rounds that send the buffer from index `q` on.
  write_rounds_traffic :
      (k fuel n_quads left q base addr control : ℕ) (gone rest : List ℕ) (m : Machine S)
      → Prompt dev k
      → k - 5 < fuel
      → q + left ≡ n_quads
      → length gone ≡ q
      → left ≤ length rest
      → base < 2 ^ 16
      → Continues dev left control
      → Returns
          (λ r m'.
            (sent dev m' ≡ reverse_aux (take left rest) (sent dev m))
            × (driven dev m' ≡ reverse_aux (block_words left base addr) (driven dev m)))
          (write_rounds dev fuel n_quads left q addr (word base control) (gone ++ rest) m)
  unfolding write_rounds block_words
  write_rounds_traffic k fuel n_quads zero q base addr control gone rest m prompt enough en eq fits
        small o =
      returns (refl, refl)
  write_rounds_traffic k fuel n_quads (suc left) q base addr control gone [] m prompt enough en eq
        fits small o =
      absurd (omega arith)
  write_rounds_traffic k fuel n_quads (suc left) q base addr control gone (x ∷ rest) m prompt enough
        en eq fits small o =
      rw
        (
          last_test dev q left n_quads en,
          block_word_lem base addr control (left == 0) small o,
          load_next gone rest x q m eq,
        )
        (Returns-then
          (wait_total dev fuel 5 _ k "write" _ enough
            (prompt base _ _ small (block_control_odd (left == 0) addr)))
          (λ r m' (hw, (e, u, seen)).
            let given : sent dev m' ≡ x ∷ sent dev m =
              ground (arith, u.same_writes (dev.gpio_base + reg_output_lower)) in
            let put : driven dev m' ≡ word base (block_control (left == 0) addr) ∷ driven dev m =
              ground (arith, u.same_writes (dev.gpio_base + reg_output_upper)) in
            rw (← append-snoc gone rest x) (
              Returns-weaken
                (write_rounds_traffic k fuel n_quads left (q + 1) base _ _ (gone ++ x ∷ []) rest m'
                  prompt enough (omega arith) (omega (arith, length-append gone (x ∷ [])))
                  (omega arith) small (next_round dev left addr))
                (λ r m'' (snt, drv). (
                  snt ∙ ap (reverse_aux (take left rest)) given,
                  drv ∙ ap (reverse_aux (block_words left base ((addr + 1) % 2 ^ 16))) put,
                )))))

  abbrev pub WriteBlockTraffic : ℕ → List ℕ → ℕ → Machine S → Bool → Machine S → Type 0
  WriteBlockTraffic addr buffer n_bytes m false m' =
      (driven dev m' ≡ driven dev m)
      × (sent dev m' ≡ sent dev m)
      × (Saw dev (wrong_version dev) m' ⊎ Saw dev (λ u. not (idle_for_write dev u)) m')
  WriteBlockTraffic addr buffer n_bytes m true m' =
      (sent dev m' ≡ reverse_aux (take (quads n_bytes) buffer) (sent dev m))
      × (driven dev m' ≡ 0 ∷ reverse_aux (block_words (quads n_bytes) addr addr) (driven dev m))

  -- For a 16-bit address, a buffer that holds the quadlets of `n_bytes`, and hardware that answers
  -- every request within `k` polls, which the fuel covers, EMIO_WriteBlock returns. A result `false`
  -- means that the version or the state of the lines was wrong: no data and no word was put on the
  -- lines. A result `true` means that the buffer's quadlets were put on the data lines in their order,
  -- and the words of the block and then zero on the upper lines.
  pub write_block_traffic :
      (k fuel addr : ℕ) (buffer : List ℕ) (n_bytes : ℕ) (m : Machine S)
      → Prompt dev k
      → k - 5 < fuel
      → addr < 2 ^ 16
      → quads n_bytes ≤ length buffer
      → Returns
          (WriteBlockTraffic addr buffer n_bytes m)
          (write_block dev fuel addr buffer n_bytes m)
  unfolding write_block
  write_block_traffic k fuel addr buffer n_bytes m prompt enough h fits =
      Returns-then (version_traffic dev m) (λ ver m1 (d1, s1, r1, (u, last, is)).
        elim (Bool-cases (ver == 1)) [
          | inr wrong ↦ rw wrong (returns (d1, s1, inl (u, last, ground (arith, is, wrong))))
          | inl right ↦ rw right (
              Returns-then (output_traffic dev "EMIO_WriteBlock" m1) (λ valid m2 p.
                elim (Bool-cases valid) [
                  | inr e ↦ rw e (returns (p.0 ∙ d1, p.1 ∙ s1, inr (rw e at p.2)))
                  | inl e ↦
                      rw (e, block_start_word addr h)
                        (Returns-then
                          (write_rounds_traffic k fuel (quads n_bytes) (quads n_bytes) 0 addr addr 9
                            [] buffer m2 prompt enough (omega arith) refl fits h
                            (first_round dev (quads n_bytes)))
                          (λ r m3 (snt, drv). returns (
                            ground (
                              arith,
                              snt ∙ ap (reverse_aux (take (quads n_bytes) buffer)) (p.1 ∙ s1),
                            ),
                            ground (
                              arith,
                              drv
                                  ∙ ap (reverse_aux (block_words (quads n_bytes) addr addr))
                                      (p.0 ∙ d1),
                            ),
                          )))
                ]))
        ])
