-- ===== src/Memtest/Registers/Drive.antt =====
-- The drive strength and the disable modes of the DDR pins in memtest.c, on hardware that reads back
-- what is written.
use mechatronics_embedded.Base.{
  ℕ, zero, suc, ◌+◌, ◌*◌, ◌/◌, ◌%◌, ◌^◌, ◌<◌, ◌≡◌, refl, sym, ap, ◌∙◌, Bool, true, false, bit_and,
  bit_xor, ◌==◌, if◌then◌else◌, Bool-cases, inl, inr, ==_refl, ==→eq, arith,
}
use native.Mathlib.Nat.{mod-eq_of_lt}
use mechatronics_embedded.Machine.{Device, Machine}
use mechatronics_embedded.Machine.Outcome.{Returns, returns, Returns-weaken}
use mechatronics_embedded.Memtest.Registers.{
  set_bit_field, set_drive_strength, clear_modes, clear_tdm_idm,
}
use mechatronics_embedded.Memtest.Registers.Fields.{
  fields_of, kept_parts, high_lt, set_bit_field_parts, set_bit_field_lt,
}
use mechatronics_embedded.Memtest.Registers.Bank.{Bank}

-- The two steps of set_drive_strength on a word, part by part.
drive_parts :
    (x n p : ℕ)
    → x < 2 ^ 32
    → set_bit_field (set_bit_field x 7 7 n) 0 7 p
      ≡ p % 2 ^ 7 + n % 2 ^ 7 * 2 ^ 7 + x / 2 ^ 14 * 2 ^ 14
drive_parts x n p h =
    let once = set_bit_field_parts 7 7 18 x refl h n in
    let twice =
      set_bit_field_parts 0 7 25 (set_bit_field x 7 7 n) refl (set_bit_field_lt 7 7 18 x refl h n)
        p in
    omega (arith, once, twice)

-- The mask of clear_tdm_idm takes away bits 7 and 8.
cleared : (x : ℕ) → x < 2 ^ 32 → bit_and x 0xfffffe7f ≡ x % 2 ^ 7 + x / 2 ^ 9 * 2 ^ 9
cleared x h =
    ap (λ (t : ℕ). bit_and t 0xfffffe7f) (fields_of 7 2 x)
    ∙ kept_parts 7 2 23 (x % 2 ^ 7) (x / 2 ^ 7 % 2 ^ 2) (x / 2 ^ 7 / 2 ^ 2) refl (omega arith)
        (omega arith) (high_lt 7 2 23 x refl h)
    ∙ omega arith

cleared_lt : (x : ℕ) → x < 2 ^ 32 → bit_and x 0xfffffe7f < 2 ^ 32
cleared_lt x h = rw (cleared x h) (omega arith)

module _ {S : Type 0} {dev : Device S} (bank : Bank dev) where
  write_back : (a v : ℕ) (s : S) → v < 2 ^ 32 → bank.cells (dev.out32 a v (dev.in32 a s).1) a ≡ v
  write_back a v s h = bank.write_stores a v (dev.in32 a s).1 ∙ mod-eq_of_lt h

  write_others :
      (a v b : ℕ) (s : S)
      → (a == b) ≡ false
      → bank.cells (dev.out32 a v (dev.in32 a s).1) b ≡ bank.cells s b
  write_others a v b s e =
      bank.write_leaves a v b (dev.in32 a s).1 e ∙ ap (λ (g : ℕ → ℕ). g b) (bank.read_leaves a s)

  -- On hardware whose registers hold what is written, set_drive_strength returns, puts the two
  -- strengths, with some of their seven bits inverted, into bits 7 to 13 and 0 to 6 of the register,
  -- and leaves its other bits and the other registers.
  pub set_drive_strength_sets :
      (addr driven drivep : ℕ) (m : Machine S)
      → Returns
          (λ u m'.
            (bank.cells m'.hw addr
              ≡ bit_xor drivep 0x2c % 2 ^ 7
                + bit_xor driven 0x28 % 2 ^ 7 * 2 ^ 7
                + bank.cells m.hw addr / 2 ^ 14 * 2 ^ 14)
            × ((b : ℕ) → (addr == b) ≡ false → bank.cells m'.hw b ≡ bank.cells m.hw b))
          (set_drive_strength dev addr driven drivep m)
  unfolding set_drive_strength
  set_drive_strength_sets addr driven drivep m = rw (bank.read_shows addr m.hw) (
      let x = bank.cells m.hw addr in
      let n = bit_xor driven 0x28 in
      let p = bit_xor drivep 0x2c in
      let small =
        set_bit_field_lt 0 7 25 (set_bit_field x 7 7 n) refl
          (set_bit_field_lt 7 7 18 x refl (bank.word m.hw addr) n) p in
      returns (
        write_back addr (set_bit_field (set_bit_field x 7 7 n) 0 7 p) m.hw small
            ∙ drive_parts x n p (bank.word m.hw addr),
        λ b e. write_others addr (set_bit_field (set_bit_field x 7 7 n) 0 7 p) b m.hw e,
      ))

  -- One of the `n` registers from number `i` on.
  abbrev pub is_mode : ℕ → ℕ → ℕ → Bool
  is_mode zero i a = false
  is_mode (suc n) i a = if 0xf8000b48 + 4 * i == a then true else is_mode n (i + 1) a

  is_mode_before : (n i j : ℕ) → i < j → is_mode n j (0xf8000b48 + 4 * i) ≡ false
  is_mode_before zero i j h = refl
  is_mode_before (suc n) i j h = grind (arith, is_mode_before n i (j + 1))

  clear_modes_clears :
      (n i : ℕ) (m : Machine S)
      → Returns
          (λ u m'.
            (a : ℕ)
            → bank.cells m'.hw a ≡ (
                if is_mode n i a
                then bit_and (bank.cells m.hw a) 0xfffffe7f
                else bank.cells m.hw a))
          (clear_modes dev n i m)
  unfolding clear_modes
  clear_modes_clears zero i m = returns (λ a. refl)
  clear_modes_clears (suc n) i m = rw (bank.read_shows (0xf8000b48 + 4 * i) m.hw) (
      let r = 0xf8000b48 + 4 * i in
      let v = bit_and (bank.cells m.hw r) 0xfffffe7f in
      Returns-weaken (clear_modes_clears n (i + 1) _) (λ u m' after a. elim (Bool-cases (r == a)) [
        | inl e ↦ rw (sym (==→eq r a e)) (
            rw (==_refl r) (
              after r
              ∙ rw (is_mode_before n i (i + 1) (omega arith))
                  (write_back r v m.hw (cleared_lt (bank.cells m.hw r) (bank.word m.hw r)))))
        | inr e ↦ rw e (after a ∙ rw (write_others r v a m.hw e) refl)
      ]))

  -- On hardware whose registers hold what is written, clear_tdm_idm returns, clears bits 7 and 8 of
  -- the four registers from 0xf8000b48 on, and leaves their other bits and the other registers.
  pub clear_tdm_idm_clears :
      (m : Machine S)
      → Returns
          (λ u m'.
            (a : ℕ)
            → bank.cells m'.hw a ≡ (
                if is_mode 4 0 a
                then bank.cells m.hw a % 2 ^ 7 + bank.cells m.hw a / 2 ^ 9 * 2 ^ 9
                else bank.cells m.hw a))
          (clear_tdm_idm dev m)
  unfolding clear_tdm_idm
  clear_tdm_idm_clears m = Returns-weaken (clear_modes_clears 4 0 m) (λ u m' after a.
      after a
      ∙ ap (λ (t : ℕ). if is_mode 4 0 a then t else bank.cells m.hw a)
          (cleared (bank.cells m.hw a) (bank.word m.hw a)))
