-- ===== src/Memtest/Registers/Bank.antt =====
-- The registers of memtest.c on hardware that reads back what is written.
use mechatronics_embedded.Base.{
  ℕ, suc, ◌*◌, ◌/◌, ◌%◌, ◌^◌, ◌<◌, ◌≡◌, refl, sym, ap, ap₂, ◌∙◌, Bool, true, false, some, List, [],
  ◌∷◌, length, drop, reverse_aux, ◌==◌, if◌then◌else◌, Bool-cases, inl, inr, ◌⊎◌, ==→eq, arith,
}
use native.Mathlib.Nat.{mod-eq_of_lt}
use mechatronics_embedded.Machine.{Device, Machine, and_then}
use mechatronics_embedded.Machine.Outcome.{
  Returns, returns, Returns-then, Returns-weaken, Returns-both, Returns-Ensures,
}
use mechatronics_embedded.Machine.Traffic.{writes_to}
use mechatronics_embedded.Memtest.Registers.{
  set_bit_field, update_reglist, write_regs, read_regs, ddrc_init, ddrc_get,
}
use mechatronics_embedded.Memtest.Registers.Values.{ddrc_reg_values}
use mechatronics_embedded.Memtest.Registers.Fields.{set_bit_field_parts}

-- Every register holds the word that was written last.
pub record Bank {S : Type 0} (dev : Device S) : Type 0 where
  pub cells : S → ℕ → ℕ
  pub word : (s : S) (a : ℕ) → cells s a < 2 ^ 32
  pub write_stores : (a v : ℕ) (s : S) → cells (dev.out32 a v s) a ≡ v % 2 ^ 32
  pub write_leaves : (a v b : ℕ) (s : S) → (a == b) ≡ false → cells (dev.out32 a v s) b ≡ cells s b
  pub read_shows : (a : ℕ) (s : S) → (dev.in32 a s).0 ≡ cells s a
  pub read_leaves : (a : ℕ) (s : S) → cells (dev.in32 a s).1 ≡ cells s

abbrev pub addresses : List (ℕ × ℕ) → List ℕ
addresses [] = []
addresses ((a, c) ∷ list) = a ∷ addresses list

-- The pairs of addresses and contents.
abbrev pub snapshot : (ℕ → ℕ) → List ℕ → List (ℕ × ℕ)
snapshot f [] = []
snapshot f (a ∷ xs) = (a, f a) ∷ snapshot f xs

abbrev pub listed : ℕ → List ℕ → Bool
listed b [] = false
listed b (a ∷ xs) = if a == b then true else listed b xs

-- The contents that a list has for a register, in order.
abbrev pub contents_for : ℕ → List (ℕ × ℕ) → List ℕ
contents_for r [] = []
contents_for r ((a, c) ∷ list) = if a == r then c ∷ contents_for r list else contents_for r list

-- The addresses behind the first of ddrc_reg_values.
abbrev others : List ℕ
others = drop 1 (addresses ddrc_reg_values)

-- What ddrc_get makes of the contents `f`: the first pair has the enable bit cleared.
abbrev disabled : (ℕ → ℕ) → List (ℕ × ℕ)
disabled f = (0xf8006000, set_bit_field (f 0xf8006000) 0 1 0) ∷ snapshot f others

update_reglist-disabled :
    (f : ℕ → ℕ)
    → update_reglist (snapshot f (addresses ddrc_reg_values)) 80 0xf8006000 0 1 0
      ≡ some (disabled f)
unfolding update_reglist
update_reglist-disabled f = refl

length-addresses : (list : List (ℕ × ℕ)) → length (addresses list) ≡ length list
length-addresses [] = refl
length-addresses ((a, c) ∷ list) = ap suc (length-addresses list)

-- The enable bit is the lowest one.
set_bit_field-disabled : (v : ℕ) → v < 2 ^ 32 → set_bit_field v 0 1 0 ≡ v / 2 * 2
set_bit_field-disabled v h = set_bit_field_parts 0 1 31 v refl h 0 ∙ omega arith

module _ {S : Type 0} {dev : Device S} (bank : Bank dev) where
  read_regs-snapshot :
      (list : List (ℕ × ℕ)) (m : Machine S) (f : ℕ → ℕ)
      → bank.cells m.hw ≡ f
      → Returns
          (λ list' m'.
            (list' ≡ snapshot f (addresses list))
            × (bank.cells m'.hw ≡ f)
            × ((r : ℕ) → writes_to r m'.trace ≡ writes_to r m.trace))
          (read_regs dev (length list) list m)
  unfolding read_regs
  read_regs-snapshot [] m f h = returns (refl, h, λ r. refl)
  read_regs-snapshot ((a, c) ∷ list) m f h =
      Returns-then (read_regs-snapshot list _ f (bank.read_leaves a m.hw ∙ h))
        (λ list' m' (e, same, quiet). returns (
          ap₂ (λ (v : ℕ) (l : List (ℕ × ℕ)). (a, v) ∷ l)
              (bank.read_shows a m.hw ∙ ap (λ (g : ℕ → ℕ). g a) h) e,
          same,
          quiet,
        ))

  write_regs_lem :
      (list : List (ℕ × ℕ)) (m : Machine S)
      → Returns
          (λ u m'.
            (r : ℕ)
            → writes_to r m'.trace ≡ reverse_aux (contents_for r list) (writes_to r m.trace))
          (write_regs dev (length list) list m)
  unfolding write_regs
  write_regs_lem [] m = returns (λ r. refl)
  write_regs_lem ((a, c) ∷ list) m =
      Returns-weaken (write_regs_lem list _)
        (λ u m' e r. e r ∙ (elim (Bool-cases (a == r)) [ inl t ↦ rw t refl | inr t ↦ rw t refl ]))

  stored :
      (a : ℕ) (xs : List ℕ) (s : S) (f : ℕ → ℕ)
      → f a < 2 ^ 32
      → (b : ℕ) → (bank.cells s b ≡ f b) ⊎ (listed b (a ∷ xs) ≡ true)
      → (bank.cells (dev.out32 a (f a) s) b ≡ f b) ⊎ (listed b xs ≡ true)
  stored a xs s f small b now = elim (Bool-cases (a == b)) [
    | inl e ↦ inl (rw (sym (==→eq a b e)) (bank.write_stores a (f a) s ∙ mod-eq_of_lt small))
    | inr e ↦ other e now
  ]
    where
      other :
          (a == b) ≡ false
          → (bank.cells s b ≡ f b) ⊎ (listed b (a ∷ xs) ≡ true)
          → (bank.cells (dev.out32 a (f a) s) b ≡ f b) ⊎ (listed b xs ≡ true)
      other e (inl same) = inl (bank.write_leaves a (f a) b s e ∙ same)
      other e (inr later) = inr (grind arith)

  write_regs-snapshot :
      (xs : List ℕ) (m : Machine S) (f : ℕ → ℕ)
      → ((a : ℕ) → f a < 2 ^ 32)
      → Returns
          (λ u m'.
            (b : ℕ) → (bank.cells m.hw b ≡ f b) ⊎ (listed b xs ≡ true) → bank.cells m'.hw b ≡ f b)
          (write_regs dev (length (snapshot f xs)) (snapshot f xs) m)
  unfolding write_regs
  write_regs-snapshot [] m f small =
      returns (λ b now. elim now [ inl e ↦ e | inr never ↦ absurd (ground arith) ])
  write_regs-snapshot (a ∷ xs) m f small =
      Returns-weaken (write_regs-snapshot xs _ f small)
        (λ u m' keep b now. keep b (stored a xs m.hw f (small a) b now))

  ddrc_get-disabled :
      (list : List (ℕ × ℕ)) (m : Machine S)
      → addresses list ≡ addresses ddrc_reg_values
      → Returns
          (λ list' m'.
            (list' ≡ disabled (bank.cells m.hw))
            × (bank.cells m'.hw ≡ bank.cells m.hw)
            × ((r : ℕ) → writes_to r m'.trace ≡ writes_to r m.trace))
          (ddrc_get dev list m)
  unfolding ddrc_get
  ddrc_get-disabled list m h =
      let f = bank.cells m.hw in
      let count : length list ≡ 80 = sym (length-addresses list) ∙ ap length h in
      let read = read_regs-snapshot list m f refl in
      Returns-then (rw count at read) (λ list' m' (e, same, quiet).
        rw e (rw h (rw (update_reglist-disabled f) (returns (refl, same, quiet)))))

  -- After the first write the control register is still to be written, and the others are right.
  restored :
      (s : S) (f : ℕ → ℕ)
      → bank.cells s ≡ f
      → (b : ℕ)
      → (bank.cells (dev.out32 0xf8006000 (set_bit_field (f 0xf8006000) 0 1 0) s) b ≡ f b)
        ⊎ (listed b others ≡ true)
  restored s f same b = elim (Bool-cases (0xf8006000 == b)) [
    | inl e ↦ inr (rw (sym (==→eq 0xf8006000 b e)) refl)
    | inr e ↦ inl (
        bank.write_leaves 0xf8006000 (set_bit_field (f 0xf8006000) 0 1 0) b s e
        ∙ ap (λ (g : ℕ → ℕ). g b) same)
  ]

  -- On hardware whose registers hold what is written, for a list with the addresses of
  -- ddrc_reg_values: ddrc_get and then ddrc_init with its list return and leave every register as it
  -- was; the control register is written twice, first without its enable bit and then as it was.
  pub ddrc_get-ddrc_init :
      (list : List (ℕ × ℕ)) (m : Machine S)
      → addresses list ≡ addresses ddrc_reg_values
      → Returns
          (λ u m'.
            ((a : ℕ) → bank.cells m'.hw a ≡ bank.cells m.hw a)
            × (writes_to 0xf8006000 m'.trace
                ≡ bank.cells m.hw 0xf8006000
                  ∷ bank.cells m.hw 0xf8006000 / 2 * 2
                  ∷ writes_to 0xf8006000 m.trace))
          (and_then (ddrc_get dev list m) (ddrc_init dev))
  unfolding ddrc_init write_regs
  ddrc_get-ddrc_init list m h =
      let f = bank.cells m.hw in
      Returns-then (ddrc_get-disabled list m h) (λ list' m1 (e, same, quiet). rw e (
        Returns-weaken
          (Returns-both (write_regs-snapshot others _ f (bank.word m.hw))
            (Returns-Ensures (write_regs_lem (disabled f) m1)))
          (λ u m2 (kept, writes). (
            λ a. kept a (restored m1.hw f same a),
            writes 0xf8006000
                ∙ ap₂ (λ (v : ℕ) (t : List ℕ). f 0xf8006000 ∷ v ∷ t)
                    (set_bit_field-disabled (f 0xf8006000) (bank.word m.hw 0xf8006000))
                    (quiet 0xf8006000),
          ))))
