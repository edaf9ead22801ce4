-- ===== src/Fsbl/Flash.antt =====
-- The flash chip as its data sheet describes it, and the ways in which its driver fails.
use mechatronics_embedded.Base.{
  ℕ, ◌≡◌, ◌⊎◌, Bool, true, false, ◌&&◌, ◌||◌, none, some, List, [], ◌∷◌, ◌==◌, if◌then◌else◌,
  bit_or,
}
use mechatronics_embedded.Machine.{Machine}
use mechatronics_embedded.Fsbl.{Bsp}

-- The registers of the flash chip.
pub record Chip : Type 0 where
  pub maker : ℕ
  pub kind : ℕ
  pub size : ℕ
  pub status2 : ℕ
  pub writable : Bool

module _ {S : Type 0} (bsp : Bsp S) where
  -- A transfer fails with a status, or succeeds and returns the bytes.
  abbrev pub Gives : List ℕ → S → (List ℕ → Type 0) → Type 0
  Gives bytes s Back =
      (((bsp.polled_transfer bytes s).0.0 == 0) ≡ false)
      ⊎ ((back : List ℕ) × ((bsp.polled_transfer bytes s).0 ≡ (0, back)) × Back back)

  abbrev pub after : List ℕ → S → S
  after bytes s = (bsp.polled_transfer bytes s).1

  abbrev pub worked : List ℕ → S → Bool
  worked bytes s = (bsp.polled_transfer bytes s).0.0 == 0

  -- The commands of the chip, as the data sheet has them; a transfer that fails changes nothing.
  pub record Flash : Type 0 where
    pub view : S → Chip
    pub initialize_keeps : (b : ℕ) (s : S) → view (bsp.cfg_initialize b s).1 ≡ view s
    pub options_keep : (o : ℕ) (s : S) → view (bsp.set_options o s) ≡ view s
    pub prescaler_keeps : (p : ℕ) (s : S) → view (bsp.set_clk_prescaler p s) ≡ view s
    pub select_keeps : (s : S) → view (bsp.set_slave_select s) ≡ view s
    pub id_keeps : (s : S) → view (after (0x9f ∷ 0 ∷ 0 ∷ 0 ∷ []) s) ≡ view s
    pub id_gives :
        (s : S)
        → Gives
            (0x9f ∷ 0 ∷ 0 ∷ 0 ∷ [])
            s
            (λ back. (x : ℕ) × (back ≡ x ∷ (view s).maker ∷ (view s).kind ∷ (view s).size ∷ []))
    pub status_keeps : (s : S) → view (after (0x35 ∷ 0 ∷ []) s) ≡ view s
    pub status_gives :
        (s : S) → Gives (0x35 ∷ 0 ∷ []) s (λ back. (x : ℕ) × (back ≡ x ∷ (view s).status2 ∷ []))
    pub enable_gives : (s : S) → Gives (0x06 ∷ []) s (λ back. (x : ℕ) × (back ≡ x ∷ []))
    pub enable_sets :
        (s : S)
        → view (after (0x06 ∷ []) s)
          ≡ (if worked (0x06 ∷ []) s then record (view s) { writable = true } else view s)
    pub write_gives :
        (s : S) (v : ℕ) → Gives (0x31 ∷ v ∷ []) s (λ back. (x : ℕ) × (y : ℕ) × (back ≡ x ∷ y ∷ []))
    pub write_sets :
        (s : S) (v : ℕ)
        → (view s).writable ≡ true
        → view (after (0x31 ∷ v ∷ []) s) ≡ (
            if worked (0x31 ∷ v ∷ []) s
            then record (view s) { status2 = v; writable = false }
            else view s)

  -- The chips that the code knows.
  abbrev pub known : Chip → Bool
  known c = c.maker == bsp.winbond_id && (c.size == 0x18 && (c.kind == 0x40 || c.kind == 0x70))

  -- The first call on the way that fails, where `v` is what is to be written to status register 2: the
  -- transfers of the write enable and of the write, in the states in which they are made; before them
  -- that of the status; and before this that of the identification.
  abbrev pub EnableFails : ℕ → S → Type 0
  EnableFails v s =
      (worked (0x06 ∷ []) s ≡ false) ⊎ (worked (0x31 ∷ v ∷ []) (after (0x06 ∷ []) s) ≡ false)

  abbrev pub StatusFails : ℕ → S → Type 0
  StatusFails v s = (worked (0x35 ∷ 0 ∷ []) s ≡ false) ⊎ EnableFails v (after (0x35 ∷ 0 ∷ []) s)

  abbrev pub IdFails : ℕ → S → Type 0
  IdFails v s =
      (worked (0x9f ∷ 0 ∷ 0 ∷ 0 ∷ []) s ≡ false) ⊎ StatusFails v (after (0x9f ∷ 0 ∷ 0 ∷ 0 ∷ []) s)

  -- The state in which the transfers begin.
  abbrev pub begun : ℕ → S → S
  begun base s = bsp.set_slave_select (
      bsp.set_clk_prescaler bsp.prescale_8
        (bsp.set_options bsp.options (bsp.cfg_initialize base s).1))

  -- How a run from `s` fails in the driver.
  pub data DriverFailed (v : ℕ) (s : S) : Type 0 where
    no_config : bsp.lookup_config ≡ none → DriverFailed v s
    not_ready :
        (base : ℕ)
        → bsp.lookup_config ≡ some base
        → ((bsp.cfg_initialize base s).0 == 0) ≡ false
        → DriverFailed v s
    no_transfer :
        (base : ℕ) → bsp.lookup_config ≡ some base → IdFails v (begun base s) → DriverFailed v s

  -- What a run makes of the chip `c`: with `true` a known chip with its quad enable bit set, with
  -- `false` the status register of before, and a reason.
  abbrev pub QuadEnabled : Type 0 → (S → Chip) → Chip → Bool → Machine S → Type 0
  QuadEnabled Failed view c r m' =
      ((r ≡ true) × (known c ≡ true) × ((view m'.hw).status2 ≡ bit_or c.status2 2))
      ⊎ ((r ≡ false) × ((view m'.hw).status2 ≡ c.status2) × ((known c ≡ false) ⊎ Failed))
