-- ===== src/Demo/Commands/Write.antt =====
-- `block <addr> <num> <d0> ... <dN>`: what it writes.
use mechatronics_embedded.Base.{
  int_lt, ℕ, zero, suc, ◌+◌, ◌-◌, ◌*◌, ◌%◌, ◌≤◌, ◌<◌, ◌^◌, ◌≡◌, refl, sym, ap, ◌∙◌, ◌⊎◌, Bool, true,
  false, not, inl, inr, List, [], ◌∷◌, ◌++◌, some, arith, length, take, drop, reverse_aux, lt→ltb,
  Bool-cases, get_elem?, get_elem?-append_at, append-snoc, length-append,
}
use mathlib.Core.List.{append_assoc}
use Prim.Native.Nat.{min}
use mechatronics_embedded.Machine.{Device, Machine, ok}
use mechatronics_embedded.Machine.Outcome.{Returns, returns, Returns-then, Returns-weaken}
use mechatronics_embedded.Machine.Text.{c_string}
use mechatronics_embedded.Emio.{quads}
use mechatronics_embedded.Emio.Wait.Total.{Prompt}
use mechatronics_embedded.Emio.Quadlet.{sent, driven, Saw, idle_for_write}
use mechatronics_embedded.Emio.Block.{store_next, block_words, wrong_version}
use mechatronics_embedded.Emio.Block.Write.{WriteBlockTraffic, write_block_traffic}
use mechatronics_embedded.Demo.Numbers.{get_hex, get_dec}
use mechatronics_embedded.Demo.Commands.{
  arg, fill, rounds_of, limit_words, send_block, block_write, block_command,
}
use mechatronics_embedded.Demo.Commands.Read.{length-filled, quads-four, limit_quads_lem}

-- The values of the data words.
abbrev pub values : List (List ℕ) → List ℕ
values [] = []
values (w ∷ words) = get_hex (c_string w) ∷ values words

word_at :
    (gone tail : List (List ℕ)) (r0 r1 r2 w : List ℕ) (k : ℕ)
    → length gone ≡ k
    → get_elem? (r0 ∷ r1 ∷ r2 ∷ (gone ++ w ∷ tail)) (3 + k) ≡ some w
word_at gone tail r0 r1 r2 w k e =
    let at : 3 + k ≡ length (r0 ∷ r1 ∷ r2 ∷ gone) + 0 = omega arith in
    rw at (get_elem?-append_at (r0 ∷ r1 ∷ r2 ∷ gone) (w ∷ tail) 0)

split_at : (n : ℕ) (words : List (List ℕ)) → take n words ++ drop n words ≡ words
split_at zero [] = refl
split_at (suc n) [] = refl
split_at zero (w ∷ words) = refl
split_at (suc n) (w ∷ words) = ap (λ (ws : List (List ℕ)). w ∷ ws) (split_at n words)

length-take : (n : ℕ) (words : List (List ℕ)) → n ≤ length words → length (take n words) ≡ n
length-take zero [] h = refl
length-take zero (w ∷ words) h = refl
length-take (suc n) [] h = absurd (omega arith)
length-take (suc n) (w ∷ words) h = ap suc (length-take n words (omega arith))

length-values : (words : List (List ℕ)) → length (values words) ≡ length words
length-values [] = refl
length-values (w ∷ words) = ap suc (length-values words)

take-values :
    (n : ℕ) (words : List (List ℕ)) (rest : List ℕ)
    → length words ≡ n
    → take n (values words ++ rest) ≡ values words
take-values zero [] [] e = refl
take-values zero [] (x ∷ rest) e = refl
take-values zero (w ∷ words) rest e = absurd (omega arith)
take-values (suc n) [] rest e = absurd (omega arith)
take-values (suc n) (w ∷ words) rest e =
    ap (λ (vs : List ℕ). get_hex (c_string w) ∷ vs) (take-values n words rest (omega arith))

module _ {S : Type 0} where
  -- The first words are stored behind those that are there.
  fill-values :
      (words more : List (List ℕ)) (r0 r1 r2 : List ℕ) (gone : List (List ℕ)) (filled rest : List ℕ)
      (m : Machine S)
      → length gone ≡ length filled
      → length words ≤ length rest
      → fill
          (length words)
          (length filled)
          (r0 ∷ r1 ∷ r2 ∷ (gone ++ (words ++ more)))
          (filled ++ rest)
          m
        ≡ ok (filled ++ (values words ++ drop (length words) rest)) m
  unfolding fill arg
  fill-values [] more r0 r1 r2 gone filled rest m e fits = refl
  fill-values (w ∷ words) more r0 r1 r2 gone filled [] m e fits = absurd (omega arith)
  fill-values (w ∷ words) more r0 r1 r2 gone filled (x ∷ rest) m e fits =
      let v = get_hex (c_string w) in
      rw
        (
          word_at gone (words ++ more) r0 r1 r2 w (length filled) e,
          store_next filled rest x v (length filled) m refl,
        )
        (rw
          (
            append-snoc gone (words ++ more) w,
            append-snoc filled (values words ++ drop (length words) rest) v,
            length-append filled (v ∷ []),
          )
          at
          (fill-values words more r0 r1 r2 (gone ++ w ∷ []) (filled ++ v ∷ []) rest m
            (omega (arith, length-append gone (w ∷ []), length-append filled (v ∷ []), e))
            (omega arith)))

module _ {S : Type 0} (dev : Device S) where
  limit_words_lem :
      (fuel w n : ℕ) (m : Machine S)
      → w < 2 ^ 31
      → n < 2 ^ 31
      → Returns
          (λ n' m'. (n' ≡ min n w) × (sent dev m' ≡ sent dev m) × (driven dev m' ≡ driven dev m))
          (limit_words dev fuel (3 + w) n m)
  unfolding limit_words
  limit_words_lem fuel w n m hw hn =
      let less : 3 + w - 3 ≡ w = omega arith in
      rw less (elim (Bool-cases (int_lt w n)) [
        | inl short ↦ rw short (returns (ground arith, refl, refl))
        | inr enough ↦ rw enough (elim (Bool-cases (int_lt n w)) [
          | inl extra ↦ rw extra (returns (ground arith, refl, refl))
          | inr exact ↦ rw exact (returns (ground arith, refl, refl))
        ])
      ])

  -- What was put on the lines for a block of values: nothing, if the version or the lines that were
  -- seen last refuse it, or the values in their order and the words of the block.
  abbrev pub Delivered : ℕ → List ℕ → Machine S → Machine S → Type 0
  Delivered addr vals m m' =
      ((sent dev m' ≡ sent dev m)
        × (driven dev m' ≡ driven dev m)
        × (Saw dev (wrong_version dev) m' ⊎ Saw dev (λ u. not (idle_for_write dev u)) m'))
      ⊎ ((sent dev m' ≡ reverse_aux vals (sent dev m))
          × (driven dev m' ≡ 0 ∷ reverse_aux (block_words (length vals) addr addr) (driven dev m)))

  -- The array after a write of the first words from `addr` on, and what was put on the lines.
  abbrev pub BlockWritten : ℕ → List (List ℕ) → List ℕ → Machine S → List ℕ → Machine S → Type 0
  BlockWritten addr words buffer m buffer' m' =
      (buffer' ≡ values words ++ drop (length words) buffer) × Delivered addr (values words) m m'

  traffic-Delivered :
      (addr n_bytes : ℕ) (words : List (List ℕ)) (rest : List ℕ) (m m' : Machine S) (done : Bool)
      → WriteBlockTraffic dev addr (values words ++ rest) n_bytes m done m'
      → quads n_bytes ≡ length words
      → Delivered addr (values words) m m'
  traffic-Delivered addr n_bytes words rest m m' false (drv, snt, why) e = inl (snt, drv, why)
  traffic-Delivered addr n_bytes words rest m m' true (snt, drv) e = inr (
    snt
        ∙ ap (λ (q : ℕ). reverse_aux (take q (values words ++ rest)) (sent dev m)) e
        ∙ ap (λ (vs : List ℕ). reverse_aux vs (sent dev m))
            (take-values (length words) words rest refl),
    drv
        ∙ ap (λ (q : ℕ). 0 ∷ reverse_aux (block_words q addr addr) (driven dev m))
            (e ∙ sym (length-values words)),
  )

  send_block-BlockWritten :
      (k fuel addr : ℕ) (r0 r1 r2 : List ℕ) (words more : List (List ℕ)) (buffer : List ℕ)
      (m : Machine S)
      → Prompt dev k
      → k - 5 < fuel
      → addr < 2 ^ 16
      → length words ≤ 32
      → length buffer ≡ 32
      → Returns
          (BlockWritten addr words buffer m)
          (send_block dev fuel addr (r0 ∷ r1 ∷ r2 ∷ (words ++ more)) buffer (length words) m)
  unfolding send_block
  send_block-BlockWritten k fuel addr r0 r1 r2 words more buffer m prompt enough h few full =
      let rounds : rounds_of (length words) ≡ length words = ground arith in
      let four : quads (length words * 4 % 2 ^ 32) ≡ length words =
        quads-four (length words) (omega arith) in
      rw (rounds, fill-values words more r0 r1 r2 [] [] buffer m refl (omega arith))
        (Returns-then
          (write_block_traffic dev k fuel addr (values words ++ drop (length words) buffer) _ m
            prompt enough h
            (omega (
              arith,
              four,
              length-filled dev (length words) (values words) buffer (length-values words)
                  (omega arith),
            )))
          (λ done m' p. elim (Bool-cases done) [
            | inl sent' ↦
                rw sent' (returns (refl, traffic-Delivered addr _ words _ m m' done p four))
            | inr refused ↦
                rw refused (returns (refl, traffic-Delivered addr _ words _ m m' done p four))
          ]))

  -- `block <addr> <num> <d0> ...` with at most 17 data words and `num` below 2 ^ 31, on the array of
  -- 32 quadlets and hardware that answers every request within `k` polls, which the fuel covers: the
  -- command returns, and the array begins with the values of the first data words, as many as `num`
  -- and the words allow. Either the version or the state of the lines that it saw last was wrong, and
  -- it put nothing on the lines; or it put just these values on the data lines, in their order, and the
  -- words of a block of as many quadlets from the address on on the upper lines.
  pub block_command_writes :
      (k fuel : ℕ) (r0 r1 r2 : List ℕ) (words more : List (List ℕ)) (buffer : List ℕ)
      (m : Machine S)
      → Prompt dev k
      → k - 5 < fuel
      → 0 < length words
      → length words ≤ 17
      → length buffer ≡ 32
      → get_dec (c_string r2) < 2 ^ 31
      → Returns
          (BlockWritten
            (get_hex (c_string r1) % 2 ^ 16)
            (take (min (get_dec (c_string r2)) (length words)) words)
            buffer
            m)
          (block_command dev fuel (3 + length words) (r0 ∷ r1 ∷ r2 ∷ (words ++ more)) buffer m)
  unfolding block_command block_write arg
  block_command_writes k fuel r0 r1 r2 words more buffer m prompt enough some' few full small =
      let num = get_dec (c_string r2) in
      let addr = get_hex (c_string r1) % 2 ^ 16 in
      let n = min num (length words) in
      let whole : take n words ++ (drop n words ++ more) ≡ words ++ more =
        sym (append_assoc (take n words) (drop n words) more)
        ∙ ap (λ (ws : List (List ℕ)). ws ++ more) (split_at n words) in
      let front : length (take n words) ≡ n = length-take n words (omega arith) in
      rw (lt→ltb 3 (3 + length words) (omega arith)) (
        Returns-then (limit_quads_lem dev fuel num m small) (λ n1 m1 (e1, _, s1, d1).
          Returns-then (limit_words_lem fuel (length words) n1 m1 (omega arith) (omega arith))
            (λ n2 m2 (e2, s2, d2).
              let e : n2 ≡ length (take n words) = omega (arith, front, e1, e2) in
              rw (e, ← whole)
                (Returns-weaken
                  (send_block-BlockWritten k fuel (get_hex (c_string r1) % 2 ^ 16) r0 r1 r2
                    (take n words) (drop n words ++ more) buffer m2 prompt enough (omega arith)
                    (omega arith) full)
                  (λ buffer' m3 (b, s). (
                    b,
                    elim s [
                      | inl (kept, drv, why) ↦ inl (kept ∙ s2 ∙ s1, drv ∙ d2 ∙ d1, why)
                      | inr (given, drv) ↦ inr (
                        given ∙ ap (reverse_aux (values (take n words))) (s2 ∙ s1),
                        drv
                            ∙ ap
                                (λ (t : List ℕ).
                                  0
                                  ∷ reverse_aux
                                      (block_words (length (values (take n words))) addr addr) t)
                                (d2 ∙ d1),
                      )
                    ],
                  ))))))
