-- ===== src/Memtest/Cells.antt =====
-- Memory under test: a cell keeps what it can of the value that is written to it.
use mechatronics_embedded.Base.{
  ℕ, zero, suc, ◌+◌, ◌*◌, ◌%◌, ◌≤◌, ◌<◌, ◌^◌, ◌≡◌, refl, ap, ◌∙◌, false, arith, ◌==◌, ◌&&◌, ltb,
  Bool-cases, inl, inr,
}
use mechatronics_embedded.Machine.{Device, Machine}
use mechatronics_embedded.Machine.Outcome.{Returns, returns, Returns-then, Returns-weaken}
use mechatronics_embedded.Memtest.{write_words, progress}

-- The memory from `low` up to `high`. A sound cell has `kept a v ≡ v`; one with stuck bits has not.
pub record Ram {S : Type 0} (dev : Device S) (d_cache_invalidate : S → S) (low high : ℕ)
    : Type 0 where
  pub cells : S → ℕ → ℕ
  pub kept : ℕ → ℕ → ℕ
  pub write_stores : (a v : ℕ) (s : S) → low ≤ a → a < high → cells (dev.out32 a v s) a ≡ kept a v
  pub write_leaves : (a v b : ℕ) (s : S) → (b == a) ≡ false → cells (dev.out32 a v s) b ≡ cells s b
  pub read_shows : (a : ℕ) (s : S) → low ≤ a → a < high → (dev.in32 a s).0 ≡ cells s a
  pub read_leaves : (a : ℕ) (s : S) → cells (dev.in32 a s).1 ≡ cells s
  pub flush_leaves : (s : S) → cells (d_cache_invalidate s) ≡ cells s

module _ {S : Type 0} {dev : Device S} {clean : S → S} {low high : ℕ} (ram : Ram dev clean low high)
    {R : Type 0} (next : ℕ → R → ℕ × R) (start size : ℕ) where
  -- The cells of `n` words from index `i` on have what they keep of the sequence.
  unfoldable pub Written : ℕ → ℕ → R → (ℕ → ℕ) → Type 0
  Written zero i r cells = Unit
  Written (suc n) i r cells =
      (cells (start + i) ≡ ram.kept (start + i) (next i r).0) × Written n (i + 4) (next i r).1 cells

  -- It is about the cells below `high` and at or above `low` alone.
  pub Written-same :
      (n i : ℕ) (r : R) (f g : ℕ → ℕ)
      → low ≤ start
      → start + i + n * 4 ≤ high
      → ((a : ℕ) → low ≤ a → a < high → g a ≡ f a)
      → Written n i r f
      → Written n i r g
  unfolding Written
  Written-same zero i r f g l h same w = tt
  Written-same (suc n) i r f g l h same (w, ws) = (
    same (start + i) (omega arith) (omega arith) ∙ w,
    Written-same n (i + 4) (next i r).1 f g l (omega arith) same ws,
  )

  pub progress_keeps :
      (i : ℕ) (m : Machine S) → Returns (λ u m'. m'.hw ≡ m.hw) (progress dev i size m)
  unfolding progress
  progress_keeps i m = elim (Bool-cases (i % 0x2000000 == 0 && ltb 0x2000000 size)) [
    | inl dot ↦ rw dot (returns refl)
    | inr none' ↦ rw none' (returns refl)
  ]

  -- After the writes the cells of the words are written, and those before them are as they were.
  pub write_words-Written :
      (n i : ℕ) (r : R) (m : Machine S)
      → low ≤ start
      → start + i + n * 4 ≤ high
      → high ≤ 2 ^ 32
      → Returns
          (λ u m'.
            Written n i r (ram.cells m'.hw)
            × ((a : ℕ) → a < start + i → ram.cells m'.hw a ≡ ram.cells m.hw a))
          (write_words dev next start size n i r m)
  unfolding write_words Written
  write_words-Written zero i r m l h top = returns (tt, λ a less. refl)
  write_words-Written (suc n) i r m l h top =
      let e : (start + i) % 2 ^ 32 ≡ start + i = omega arith in
      let s = dev.out32 (start + i) (next i r).0 m.hw in
      rw e (
        Returns-then (progress_keeps i _) (λ u m1 hw.
          Returns-weaken (write_words-Written n (i + 4) (next i r).1 m1 l (omega arith) top)
            (λ v m2 (ws, before). (
              (
                before (start + i) (omega arith)
                    ∙ ap (λ (t : S). ram.cells t (start + i)) hw
                    ∙ ram.write_stores (start + i) (next i r).0 m.hw (omega arith) (omega arith),
                ws,
              ),
              λ a less.
                  before a (omega arith)
                  ∙ ap (λ (t : S). ram.cells t a) hw
                  ∙ ram.write_leaves (start + i) (next i r).0 a m.hw (ground arith),
            ))))
