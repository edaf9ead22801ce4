-- ===== src/Linux/Mmap/Block.antt =====
-- ReadBlock of fpgav3_emio_mmap.cpp: the words of the block, and where the values go.
use mechatronics_embedded.Base.{
  ℕ, zero, suc, ◌+◌, ◌≤◌, ◌<◌, ◌%◌, ◌^◌, ◌≡◌, refl, Bool, true, false, List, [], ◌∷◌, ◌++◌, map,
  arith, ltb, ◌==◌, Bool-cases, inl, inr, length, drop, append-snoc, length-append, ap, ◌∙◌,
  reverse_aux,
}
use mechatronics_embedded.Machine.{Device, Machine, Arg, read}
use mechatronics_embedded.Machine.Outcome.{Returns, returns, Returns-then, Returns-weaken}
use mechatronics_embedded.Emio.{reg_input_lower, reg_output_upper, quads}
use mechatronics_embedded.Emio.Word.{
  word, block_control, block_start_word, block_word_lem, block_control_odd,
}
use mechatronics_embedded.Emio.Wait.Total.{Prompt}
use mechatronics_embedded.Emio.Quadlet.{driven, received}
use mechatronics_embedded.Emio.Block.{
  block_words, store_next, Continues, next_round, first_round, last_test,
}
use mechatronics_embedded.Linux.{Settings, bswap_32}
use mechatronics_embedded.Linux.Mmap.{Mmap, lines_in, read_rounds, read_block}
use mechatronics_embedded.Linux.Mmap.Wait.{on_board, Timely, wait_sees, wait_clear_polls}
use mechatronics_embedded.Linux.Mmap.Quadlet.{with_input, report_times-Quiet}

module _ {S : Type 0} (dev : Device S) (now : S → ℕ) (us : ℕ → ℕ → Arg) where
  -- `n` rounds that fill the buffer behind `filled` with the values, their bytes reversed.
  abbrev Swapped : ℕ → ℕ → ℕ → List ℕ → List ℕ → Machine S → Bool × List ℕ → Machine S → Type 0
  Swapped n base addr filled rest m (done, buffer') m' =
      (vals : List ℕ) × (done ≡ true)
      × (length vals ≡ n)
      × (buffer' ≡ filled ++ (map bswap_32 vals ++ drop n rest))
      × (received dev m' ≡ reverse_aux vals (received dev m))
      × (driven dev m' ≡ reverse_aux (block_words n base addr) (driven dev m))

  read_rounds_swap :
      (k fuel n_quads left q base addr control : ℕ) (filled rest : List ℕ) (st : Settings)
      (m : Machine S)
      → Prompt dev k
      → k ≤ fuel
      → Timely dev now us st.timeout k
      → q + left ≡ n_quads
      → length filled ≡ q
      → left ≤ length rest
      → base < 2 ^ 16
      → Continues dev left control
      → Returns (Swapped left base addr filled rest m) (
          read_rounds dev now us fuel n_quads left q addr
            (word base control)
            (filled ++ rest)
            (on_board dev now us st)
            m)
  unfolding read_rounds block_words
  read_rounds_swap k fuel n_quads zero q base addr control filled rest st m prompt enough timely en
        eq fits small o =
      returns ([], refl, refl, refl, refl, refl)
  read_rounds_swap k fuel n_quads (suc left) q base addr control filled [] st m prompt enough timely
        en eq fits small o =
      absurd (omega arith)
  read_rounds_swap k fuel n_quads (suc left) q base addr control filled (x ∷ rest) st m prompt
        enough timely en eq fits small o =
      rw (last_test dev q left n_quads en, block_word_lem base addr control (left == 0) small o)
        (Returns-then
          (wait_sees dev now us fuel k q "read" st _ enough timely
            (prompt base _ _ small (block_control_odd (left == 0) addr)))
          (λ r m' (e, hw, u). rw e (
            let (v, s) = dev.in32 (dev.gpio_base + reg_input_lower) m'.hw in
            let m'' : Machine S = record m' {
              hw = s;
              trace = read (dev.gpio_base + reg_input_lower) v ∷ m'.trace;
            } in
            let got : received dev m'' ≡ v ∷ received dev m =
              ground (arith, u.same_reads (dev.gpio_base + reg_input_lower)) in
            let put : driven dev m'' ≡ word base (block_control (left == 0) addr) ∷ driven dev m =
              ground (arith, u.same_writes (dev.gpio_base + reg_output_upper)) in
            rw (store_next filled rest x (bswap_32 v) q m'' eq) (
              Returns-weaken
                (read_rounds_swap k fuel n_quads left (q + 1) base _ _ (filled ++ bswap_32 v ∷ [])
                  rest st m'' prompt enough timely (omega arith)
                  (omega (arith, length-append filled (bswap_32 v ∷ []))) (omega arith) small
                  (next_round dev left addr))
                (λ (done, buffer') m3 (vals, ok', len, fill, recd, drv). (
                  v ∷ vals,
                  ok',
                  ap suc len,
                  fill ∙ append-snoc filled (map bswap_32 vals ++ drop left rest) (bswap_32 v),
                  recd ∙ ap (reverse_aux vals) got,
                  drv ∙ ap (reverse_aux (block_words left base ((addr + 1) % 2 ^ 16))) put,
                ))))))

  lines_in_traffic :
      (st : Settings) (m : Machine S)
      → Returns
          (λ itf' m'.
            (itf' ≡ on_board dev now us (with_input true st))
            × (driven dev m' ≡ driven dev m)
            × (received dev m' ≡ received dev m))
          (lines_in dev now us (on_board dev now us st) m)
  unfolding lines_in
  lines_in_traffic st m = elim (Bool-cases st.is_input) [
    | inl e ↦ rw e (returns (refl, refl, refl))
    | inr e ↦ rw e (returns (refl, ground arith, refl))
  ]

  -- A version that is too old refuses the block, and touches neither the lines nor the buffer.
  abbrev pub BlockRead :
      ℕ → List ℕ → ℕ → Machine S → Bool → (Bool × List ℕ) × Mmap → Machine S → Type 0
  BlockRead addr buffer n_bytes m true ((done, buffer'), itf') m' =
      (done ≡ false) × (buffer' ≡ buffer) × (driven dev m' ≡ driven dev m)
  BlockRead addr buffer n_bytes m false ((done, buffer'), itf') m' =
      (vals : List ℕ) × (done ≡ true)
      × (length vals ≡ quads n_bytes)
      × (buffer' ≡ map bswap_32 vals ++ drop (quads n_bytes) buffer)
      × (received dev m' ≡ reverse_aux vals (received dev m))
      × (driven dev m' ≡ 0 ∷ reverse_aux (block_words (quads n_bytes) addr addr) (driven dev m))

  -- For a 16-bit address, a buffer with room, and hardware that answers every request within `k` polls,
  -- which take less than the timeout: ReadBlock refuses a version below 1, and otherwise succeeds; the
  -- words driven are those of EMIO_ReadBlock, and the buffer begins with the values that were read,
  -- the bytes of each reversed.
  pub read_block_swaps :
      (k fuel addr : ℕ) (buffer : List ℕ) (n_bytes : ℕ) (st : Settings) (m : Machine S)
      → Prompt dev k
      → k ≤ fuel
      → Timely dev now us st.timeout k
      → addr < 2 ^ 16
      → quads n_bytes ≤ length buffer
      → Returns
          (BlockRead addr buffer n_bytes m (ltb st.version 1))
          (read_block dev now us fuel addr buffer n_bytes (on_board dev now us st) m)
  unfolding read_block
  read_block_swaps k fuel addr buffer n_bytes st m prompt enough timely h fits =
      elim (Bool-cases (ltb st.version 1)) [
        | inl old ↦ rw old (returns (refl, refl, refl))
        | inr new ↦ rw new (
            Returns-then (lines_in_traffic st m) (λ itf1 m1 (e1, d1, r1).
              rw (e1, block_start_word addr h)
                (Returns-then
                  (read_rounds_swap k fuel (quads n_bytes) (quads n_bytes) 0 addr addr 9 [] buffer
                    (with_input true st) m1 prompt enough timely (omega arith) refl fits h
                    (first_round dev (quads n_bytes)))
                  (λ (done, buffer') m2 (vals, e2, len, fill, recd, drv). rw e2 (
                    Returns-then
                      (wait_clear_polls dev now us fuel (quads n_bytes) "read" (with_input true st)
                        _)
                      (λ done' m3 (e3, hw3, q3).
                        Returns-then
                          (report_times-Quiet dev now us "ReadBlock" "Start-loop-end" st _ _ _ m3)
                          (λ u m4 (hw4, q4).
                            let low = dev.gpio_base + reg_input_lower in
                            let high = dev.gpio_base + reg_output_upper in
                            let got : received dev m4 ≡ received dev m2 =
                              ground (arith, q4.same_reads low, q3.same_reads low) in
                            let put : driven dev m4 ≡ 0 ∷ driven dev m2 =
                              ground (arith, q4.same_writes high, q3.same_writes high) in
                            returns (
                              vals,
                              refl,
                              len,
                              fill,
                              got ∙ recd ∙ ap (reverse_aux vals) r1,
                              put
                                  ∙ ap (λ (t : List ℕ). 0 ∷ t)
                                      (drv
                                        ∙ ap (reverse_aux (block_words (quads n_bytes) addr addr))
                                            d1),
                            ))))))))
      ]
