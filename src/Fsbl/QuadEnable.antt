-- ===== src/Fsbl/QuadEnable.antt =====
-- FpgaV3_Init_SD: it sets the quad enable bit of the flash.
use mechatronics_embedded.Base.{
  ℕ, zero, suc, ◌/◌, ◌≤◌, ◌≡◌, refl, sym, ap, subst, ◌∙◌, inl, inr, true, Option, none, some, [],
  ◌∷◌, arith, ◌==◌, bit_or, Bool-cases, bit_or_step, bit_and_step, bit_and-one,
}
use mechatronics_embedded.Machine.{Machine}
use mechatronics_embedded.Machine.Outcome.{Returns, returns, Returns-then}
use mechatronics_embedded.Emio.{any_set}
use mechatronics_embedded.Fsbl.{
  Bsp, init_sd, with_config, check_flash, check_id, ensure_qe, program_qe,
}
use mechatronics_embedded.Fsbl.Flash.{
  Chip, after, Flash, known, EnableFails, StatusFails, IdFails, DriverFailed, no_config, not_ready,
  no_transfer, QuadEnabled,
}

bit_or-zero : (a : ℕ) → bit_or a 0 ≡ a
bit_or-zero a = below a a (omega arith)
  where
    below : (n a : ℕ) → a ≤ n → bit_or a 0 ≡ a
    below n zero h = refl
    below zero (suc a) h = absurd (omega arith)
    below (suc n) (suc a) h =
        omega (arith, bit_or_step (suc a) 0, below n (suc a / 2) (omega arith))

-- A bit that is set already.
bit_or-set : (a : ℕ) → any_set a 2 ≡ true → bit_or a 2 ≡ a
bit_or-set a h = ground (
  arith,
  bit_or_step a 2,
  bit_or_step (a / 2) 1,
  bit_or-zero (a / 2 / 2),
  bit_and_step a 2,
  bit_and-one (a / 2),
)

module _ {S : Type 0} {bsp : Bsp S} (flash : Flash bsp) where
  program_qe-QuadEnabled :
      {Failed : Type 0} (x kind size : ℕ) (c : Chip) (m : Machine S)
      → known bsp c ≡ true
      → flash.view m.hw ≡ c
      → (EnableFails bsp (bit_or c.status2 2) m.hw → Failed)
      → Returns
          (QuadEnabled bsp Failed flash.view c)
          (program_qe bsp (x ∷ c.status2 ∷ kind ∷ size ∷ []) m)
  unfolding program_qe
  program_qe-QuadEnabled x kind size c m k e because = elim (flash.enable_gives m.hw) [
    | inl bad ↦ rw bad (
        returns (
          inr (
            refl,
            ap (λ (d : Chip). d.status2) ((rw bad at (flash.enable_sets m.hw)) ∙ e),
            inr (because (inl bad)),
          )))
    | inr (back, e1, (y, eb)) ↦
        let s = after bsp (0x06 ∷ []) m.hw in
        let enabled : flash.view s ≡ record c { writable = true } =
          flash.enable_sets m.hw ∙ rw (e1, e) in
        let writable = ap (λ (d : Chip). d.writable) enabled in
        let v = bit_or c.status2 2 in
        rw (e1, eb)
          (elim (flash.write_gives s v) [
            | inl bad ↦ rw bad (
                returns (
                  inr (
                    refl,
                    ap (λ (d : Chip). d.status2)
                        ((rw bad at (flash.write_sets s v writable)) ∙ enabled),
                    inr (because (inr bad)),
                  )))
            | inr (back2, e2, rest) ↦ rw e2 (
                returns (
                  inl (
                    refl,
                    k,
                    ap (λ (d : Chip). d.status2) (flash.write_sets s v writable) ∙ rw e2,
                  )))
          ])
  ]

  ensure_qe-QuadEnabled :
      {Failed : Type 0} (x y kind size : ℕ) (c : Chip) (m : Machine S)
      → known bsp c ≡ true
      → flash.view m.hw ≡ c
      → (StatusFails bsp (bit_or c.status2 2) m.hw → Failed)
      → Returns (QuadEnabled bsp Failed flash.view c) (ensure_qe bsp (x ∷ y ∷ kind ∷ size ∷ []) m)
  unfolding ensure_qe
  ensure_qe-QuadEnabled x y kind size c m k e because = elim (flash.status_gives m.hw) [
    | inl bad ↦ rw bad (
        returns (
          inr (
            refl,
            ap (λ (d : Chip). d.status2) (flash.status_keeps m.hw ∙ e),
            inr (because (inl bad)),
          )))
    | inr (back, e1, (z, eb)) ↦
        let same = flash.status_keeps m.hw ∙ e in
        rw (e1, eb, e)
          (elim (Bool-cases (any_set c.status2 2)) [
            | inl is ↦ rw is (
                returns (
                  inl (refl, k, ap (λ (d : Chip). d.status2) same ∙ sym (bit_or-set c.status2 is))))
            | inr off ↦
                rw off (program_qe-QuadEnabled z kind size c _ k same (λ bad. because (inr bad)))
          ])
  ]

  -- The identification that a transfer has read is checked as the chip's.
  check_id-known :
      (x : ℕ) (c : Chip) (m : Machine S)
      → Returns
          (λ r m'. (r ≡ known bsp c) × (m'.hw ≡ m.hw))
          (check_id bsp (x ∷ c.maker ∷ c.kind ∷ c.size ∷ []) m)
  unfolding check_id
  check_id-known x c m = elim (Bool-cases (c.maker == bsp.winbond_id)) [
    | inr other ↦ rw other (returns (refl, refl))
    | inl winbond ↦ rw winbond (elim (Bool-cases (c.size == 0x18)) [
      | inr other ↦ rw other (returns (refl, refl))
      | inl size ↦ rw size (elim (Bool-cases (c.kind == 0x40)) [
        | inl standard ↦ rw standard (returns (refl, refl))
        | inr more ↦ rw more (elim (Bool-cases (c.kind == 0x70)) [
          | inl mobile ↦ rw mobile (returns (refl, refl))
          | inr neither ↦ rw neither (returns (refl, refl))
        ])
      ])
    ])
  ]

  check_flash-QuadEnabled :
      {Failed : Type 0} (c : Chip) (m : Machine S)
      → flash.view m.hw ≡ c
      → (IdFails bsp (bit_or c.status2 2) m.hw → Failed)
      → Returns (QuadEnabled bsp Failed flash.view c) (check_flash bsp m)
  unfolding check_flash
  check_flash-QuadEnabled c m e because = elim (flash.id_gives m.hw) [
    | inl bad ↦ rw bad (
        returns (
          inr (
            refl,
            ap (λ (c : Chip). c.status2) (flash.id_keeps m.hw ∙ e),
            inr (because (inl bad)),
          )))
    | inr (back, e1, (x, eb)) ↦
        rw (e1, eb)
          (rw e (
            Returns-then (check_id-known x c _) (λ r m1 (is, hw).
              let same = ap flash.view hw ∙ flash.id_keeps m.hw ∙ e in
              elim (Bool-cases r) [
                | inr unknown ↦ rw unknown (
                    returns (inr (refl, ap (λ (d : Chip). d.status2) same, inl (sym is ∙ unknown))))
                | inl found ↦ rw found (
                    ensure_qe-QuadEnabled x c.maker c.kind c.size c m1 (sym is ∙ found) same
                      (λ bad. because (inr (subst (StatusFails bsp (bit_or c.status2 2)) hw bad))))
              ])))
  ]

  -- The chip in a state, and how a run from it fails.
  abbrev FailedFrom : S → Type 0
  FailedFrom s = DriverFailed bsp (bit_or (flash.view s).status2 2) s

  with_config-QuadEnabled :
      (config : Option ℕ) (m : Machine S)
      → bsp.lookup_config ≡ config
      → Returns
          (QuadEnabled bsp (FailedFrom m.hw) flash.view (flash.view m.hw))
          (with_config bsp config m)
  unfolding with_config
  with_config-QuadEnabled none m e = returns (inr (refl, refl, inr (no_config e)))
  with_config-QuadEnabled (some base) m e =
      elim (Bool-cases ((bsp.cfg_initialize base m.hw).0 == 0)) [
        | inr bad ↦ rw bad (
            returns (
              inr (
                refl,
                ap (λ (d : Chip). d.status2) (flash.initialize_keeps base m.hw),
                inr (not_ready base e bad),
              )))
        | inl ready ↦ rw ready (
            check_flash-QuadEnabled (flash.view m.hw) _
              (flash.select_keeps _
                ∙ flash.prescaler_keeps bsp.prescale_8 _
                ∙ flash.options_keep bsp.options _
                ∙ flash.initialize_keeps base m.hw)
              (no_transfer base e))
      ]

  -- FpgaV3_Init_SD returns. With `true` the flash is a known Winbond chip, and its status register 2
  -- is that of before with the quad enable bit set; with `false` this register is as before, and
  -- the chip is not a known one, or there is no configuration, or the initialisation of the driver
  -- failed, or a transfer in the state in which the run makes it.
  pub init_sd-QuadEnabled :
      (m : Machine S)
      → Returns
          (QuadEnabled bsp
            (DriverFailed bsp (bit_or (flash.view m.hw).status2 2) m.hw)
            flash.view
            (flash.view m.hw))
          (init_sd bsp m)
  unfolding init_sd
  init_sd-QuadEnabled m = with_config-QuadEnabled bsp.lookup_config m refl
