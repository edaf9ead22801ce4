-- ===== src/Memtest/Patterns/Same.antt =====
-- The two ways of memtest.c to make the same words: calc_value and the macro YLFSR, and the modes 9
-- and 10 of memtest and the patterns of memtest_pat128.
use mechatronics_embedded.Base.{
  ℕ, zero, suc, ◌-◌, ◌*◌, ◌/◌, ◌%◌, ◌^◌, ◌<◌, ◌≡◌, refl, ap, ap₂, sym, ◌∙◌, Bool, true, ◌&&◌,
  bit_and, bit_xor, and_left, and_right, bit_and-one, ◌==◌, ==→eq, ltb, Bool-cases, inl, inr, arith,
}
use native.Mathlib.Nat.{pow-suc}
use mechatronics_embedded.Memtest.{ylfsr, pat128_next}
use mechatronics_embedded.Memtest.Registers.{shift_right}
use mechatronics_embedded.Memtest.Registers.Fields.{bit_and-mask}
use mechatronics_embedded.Memtest.Patterns.{
  calc_value, pattern1, invertmask, entry, update_patterns,
}
use mechatronics_embedded.Memtest.Modes.{mode_next, mode_word}

-- A bit of a word that the sign does not reach.
shifted_bit : (x k : ℕ) → k < 31 → x < 2 ^ 32 → bit_and (shift_right x k) 1 ≡ x / 2 ^ k % 2
unfolding shift_right
shifted_bit x k h l =
    let signs : 2 ^ (32 - k) ≡ 2 ^ (31 - k) * 2 =
      ap (λ (t : ℕ). 2 ^ t) (omega arith) ∙ pow-suc 2 (31 - k) in
    bit_and-one (shift_right x k) ∙ (elim (Bool-cases (ltb x (2 ^ 31))) [
      | inl pos ↦ rw pos (omega arith)
      | inr neg ↦ rw neg (omega (arith, signs))
    ])

-- For a word of 32 bits, calc_value and the macro YLFSR give the same next word.
pub calc_value-ylfsr : (x : ℕ) → x < 2 ^ 32 → calc_value x ≡ ylfsr x
unfolding calc_value ylfsr
calc_value-ylfsr x h =
    rw (shifted_bit x 30 (omega arith) h) (rw (shifted_bit x 27 (omega arith) h) (omega arith))

-- A test of all numbers below `n`.
all_below : ℕ → (ℕ → Bool) → Bool
all_below zero p = true
all_below (suc n) p = p n && all_below n p

below : (n : ℕ) (p : ℕ → Bool) (k : ℕ) → k < n → all_below n p ≡ true → p k ≡ true
unfolding all_below
below zero p k h all = absurd (omega arith)
below (suc n) p k h all = elim (Bool-cases (k == n)) [
  | inl e ↦ rw (==→eq k n e) (ground arith)
  | inr e ↦ below n p k (ground arith) (ground arith)
]

-- The entries of the patterns have 32 bits.
kept_by_mask : ℕ → ℕ → Bool
kept_by_mask k m =
    (bit_and (entry pattern1 k) 0xffffffff == entry pattern1 k)
    && (bit_and (bit_xor (entry pattern1 k) (entry invertmask m)) 0xffffffff
        == bit_xor (entry pattern1 k) (entry invertmask m))

all_kept : all_below 16 (λ k. all_below 8 (λ m. kept_by_mask k m)) ≡ true
unfolding all_below kept_by_mask
all_kept = refl

kept : (k m : ℕ) → k < 16 → m < 8 → kept_by_mask k m ≡ true
kept k m hk hm =
    below 8 (λ m. kept_by_mask k m) m hm
      (below 16 (λ k. all_below 8 (λ m. kept_by_mask k m)) k hk all_kept)

kept_words :
    (k m : ℕ)
    → kept_by_mask k m ≡ true
    → (bit_and (entry pattern1 k) 0xffffffff ≡ entry pattern1 k)
      × (bit_and (bit_xor (entry pattern1 k) (entry invertmask m)) 0xffffffff
          ≡ bit_xor (entry pattern1 k) (entry invertmask m))
unfolding kept_by_mask
kept_words k m h = (==→eq _ _ (and_left _ _ h), ==→eq _ _ (and_right _ _ h))

-- The indices of a word in the two programs.
row_index : (i : ℕ) → bit_and (i / 4) 15 ≡ bit_and (i / 4 % 128) 15
row_index i = bit_and-mask 4 (i / 4) ∙ omega arith ∙ sym (bit_and-mask 4 (i / 4 % 128))

invert_index : (i : ℕ) → bit_and (i / 64) 7 ≡ bit_and (i / 4 % 128 / 16) 7
invert_index i = bit_and-mask 3 (i / 64) ∙ omega arith ∙ sym (bit_and-mask 3 (i / 4 % 128 / 16))

-- With the full mask, memtest in mode 9 and memtest_pat128 with the first pattern for 32 bits have
-- the same word at each index, and so have mode 10 and the second pattern.
pub mode_next-pat128_next :
    (start i randval : ℕ)
    → ((mode_next 0xffffffff start 9 i randval).0
        ≡ (pat128_next 0xffffffff (update_patterns 32).pat1 i tt).0)
      × ((mode_next 0xffffffff start 10 i randval).0
          ≡ (pat128_next 0xffffffff (update_patterns 32).pat2 i tt).0)
unfolding mode_next mode_word update_patterns
mode_next-pat128_next start i randval =
    let k = bit_and (i / 4 % 128) 15 in
    let m = bit_and (i / 4 % 128 / 16) 7 in
    let hk : k < 16 = omega (arith, bit_and-mask 4 (i / 4 % 128)) in
    let hm : m < 8 = omega (arith, bit_and-mask 3 (i / 4 % 128 / 16)) in
    let (plain, inverted) = kept_words k m (kept k m hk hm) in
    (
      ap (entry pattern1) (row_index i) ∙ sym plain,
      ap₂ (λ (a b : ℕ). bit_xor (entry pattern1 a) (entry invertmask b)) (row_index i)
            (invert_index i)
          ∙ sym inverted,
    )
