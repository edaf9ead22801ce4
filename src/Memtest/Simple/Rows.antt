-- ===== src/Memtest/Simple/Rows.antt =====
-- The rows of four words that memtest_simple writes.
use mechatronics_embedded.Base.{
  ℕ, zero, suc, ◌+◌, ◌*◌, ◌/◌, ◌%◌, ◌≤◌, ◌<◌, ◌^◌, ◌≡◌, refl, ap, subst, ◌∙◌, arith, ◌==◌, ◌&&◌,
  ltb, Bool-cases, inl, inr,
}
use mechatronics_embedded.Machine.{Device, Machine}
use mechatronics_embedded.Machine.Outcome.{Returns, returns, Returns-then, Returns-weaken}
use mechatronics_embedded.Memtest.Cells.{Ram, Written}
use mechatronics_embedded.Memtest.Simple.{row_progress, write_rows}

-- The words of `n` rows.
abbrev pub words_of : ℕ → ℕ
words_of zero = 0
words_of (suc n) = suc (suc (suc (suc (words_of n))))

pub words_of_lem : (n : ℕ) → words_of n ≡ 4 * n
words_of_lem zero = refl
words_of_lem (suc n) = omega (arith, words_of_lem n)

-- The word for the index `i`.
abbrev pub row_next : (ℕ → ℕ) → ℕ → Unit {0} → ℕ × Unit {0}
row_next word i u = (word (i / 4 % 4), u)

module _ {S : Type 0} {dev : Device S} {clean : S → S} {low high : ℕ} (ram : Ram dev clean low high)
    (word : ℕ → ℕ) (start size : ℕ) where
  pub row_progress_keeps :
      (i : ℕ) (m : Machine S) → Returns (λ u m'. m'.hw ≡ m.hw) (row_progress dev i size m)
  unfolding row_progress
  row_progress_keeps i m = elim (Bool-cases (i % 0x4000000 == 0 && ltb 0x4000000 size)) [
    | inl dot ↦ rw dot (returns refl)
    | inr none' ↦ rw none' (returns refl)
  ]

  -- The state after the writes of a row.
  abbrev row_state : ℕ → S → S
  row_state i s =
      let s1 = dev.out32 (start + i) (word 0) s in
      let s2 = dev.out32 (start + (i + 4)) (word 1) s1 in
      dev.out32 (start + (i + 4 + 4 + 4)) (word 3) (dev.out32 (start + (i + 4 + 4)) (word 2) s2)

  stored :
      (a b : ℕ) (v w : ℕ) (s : S) → a < b → ram.cells s a ≡ v → ram.cells (dev.out32 b w s) a ≡ v
  stored a b v w s h e = ram.write_leaves b w a s (ground arith) ∙ e

  row_stored :
      (i : ℕ) (s : S)
      → low ≤ start
      → start + i + 16 ≤ high
      → i % 16 ≡ 0
      → Written ram (row_next word) start size 4 i tt (ram.cells (row_state i s))
  unfolding Written
  row_stored i s l h e =
      let q0 : i / 4 % 4 ≡ 0 = omega arith in
      let q1 : (i + 4) / 4 % 4 ≡ 1 = omega arith in
      let q2 : (i + 4 + 4) / 4 % 4 ≡ 2 = omega arith in
      let q3 : (i + 4 + 4 + 4) / 4 % 4 ≡ 3 = omega arith in
      let a0 = start + i in
      let a1 = start + (i + 4) in
      let a2 = start + (i + 4 + 4) in
      let a3 = start + (i + 4 + 4 + 4) in
      rw (q0, q1, q2, q3)
        (
          stored a0 a3 _ (word 3) _ (omega arith) (
              stored a0 a2 _ (word 2) _ (omega arith) (
                stored a0 a1 _ (word 1) _ (omega arith)
                  (ram.write_stores a0 (word 0) s (omega arith) (omega arith)))),
          (
            stored a1 a3 _ (word 3) _ (omega arith) (
                stored a1 a2 _ (word 2) _ (omega arith)
                  (ram.write_stores a1 (word 1) _ (omega arith) (omega arith))),
            (
              stored a2 a3 _ (word 3) _ (omega arith)
                  (ram.write_stores a2 (word 2) _ (omega arith) (omega arith)),
              (ram.write_stores a3 (word 3) _ (omega arith) (omega arith), tt),
            ),
          ),
        )

  row_before : (i : ℕ) (s : S) (a : ℕ) → a < start + i → ram.cells (row_state i s) a ≡ ram.cells s a
  row_before i s a h = stored a (start + (i + 4 + 4 + 4)) _ (word 3) _ (omega arith) (
      stored a (start + (i + 4 + 4)) _ (word 2) _ (omega arith) (
        stored a (start + (i + 4)) _ (word 1) _ (omega arith)
          (stored a (start + i) _ (word 0) _ (omega arith) refl)))

  pub write_rows-Written :
      (n i : ℕ) (m : Machine S)
      → low ≤ start
      → start + i + n * 16 ≤ high
      → high ≤ 2 ^ 32
      → i % 16 ≡ 0
      → Returns
          (λ u m'.
            Written ram (row_next word) start size (words_of n) i tt (ram.cells m'.hw)
            × ((a : ℕ) → a < start + i → ram.cells m'.hw a ≡ ram.cells m.hw a))
          (write_rows dev word start size n i m)
  unfolding write_rows Written
  write_rows-Written zero i m l h top e = returns (tt, λ a less. refl)
  write_rows-Written (suc n) i m l h top e =
      let e0 : (start + i) % 2 ^ 32 ≡ start + i = omega arith in
      let e1 : (start + i + 4) % 2 ^ 32 ≡ start + (i + 4) = omega arith in
      let e2 : (start + i + 8) % 2 ^ 32 ≡ start + (i + 4 + 4) = omega arith in
      let e3 : (start + i + 12) % 2 ^ 32 ≡ start + (i + 4 + 4 + 4) = omega arith in
      let next : i + 16 ≡ i + 4 + 4 + 4 + 4 = omega arith in
      rw (e0, e1, e2, e3)
        (Returns-then (row_progress_keeps i _) (λ u m1 hw.
          Returns-weaken (write_rows-Written n (i + 16) m1 l (omega arith) top (omega arith))
            (λ v m2 (ws, before).
              let same = λ (a : ℕ) (less : a < start + i + 16).
                before a (omega arith) ∙ ap (λ (s : S). ram.cells s a) hw in
              let (c0, (c1, (c2, (c3, end)))) = row_stored i m.hw l (omega arith) e in
              let further =
                subst
                  (λ (j : ℕ).
                    Written ram (row_next word) start size (words_of n) j tt (ram.cells m2.hw))
                  next ws in
              (
                (
                  same (start + i) (omega arith) ∙ c0,
                  (
                    same (start + (i + 4)) (omega arith) ∙ c1,
                    (
                      same (start + (i + 4 + 4)) (omega arith) ∙ c2,
                      (same (start + (i + 4 + 4 + 4)) (omega arith) ∙ c3, further),
                    ),
                  ),
                ),
                λ a less. same a (omega arith) ∙ row_before i m.hw a less,
              ))))
