-- ===== src/Memtest/Pll/Lock.antt =====
-- my_set_pll of memtest.c ends, and leaves the PLL in bypass unless it has locked.
use mechatronics_embedded.Base.{
  ℕ, zero, suc, ◌+◌, ◌-◌, ◌*◌, ◌/◌, ◌%◌, ◌^◌, ◌<◌, ◌≤◌, ◌≡◌, refl, sym, ap, ◌∙◌, false, bit_and,
  bit_or, bit_xor, bit_or-bit, bit_xor-bit, Option, none, some, List, ◌∷◌, get_elem?,
  get_elem?-some, ◌≢◌, lt→ltb, ltb, ◌==◌, Bool-cases, inl, inr, ==→eq, ==_refl, arith,
}
use native.Mathlib.Nat.{mod-add-div', mod-lt, one-le-pow}
use mechatronics_embedded.Machine.{Device, Arg, Machine, Event, read, wrote}
use mechatronics_embedded.Machine.Outcome.{Returns, returns, Returns-then, Returns-weaken}
use mechatronics_embedded.Machine.Traffic.{writes_to, reads_of, last_read, newest_write}
use mechatronics_embedded.Memtest.Registers.{shift_right, put_field, unlock_slcr}
use mechatronics_embedded.Memtest.Registers.Fields.{fields_of, put_field_lem, high_lt}
use mechatronics_embedded.Memtest.Pll.{
  pll_status, pll_ctrl, pll_cfg, int_min, lim, start_pll, poll_lock, set_divisor, pll_id,
  set_outdiv, set_dci, finish_pll, my_set_pll,
}
use mechatronics_embedded.Memtest.Pll.Config.{pll_config_table}
use mechatronics_embedded.Memtest.Pll.Dci.{dci_ctrl_table}

-- The control word `x` with the bypass bit `b`, the reset bit 0 and the feedback divider.
abbrev pub pll_word : ℕ → ℕ → ℕ → ℕ
pll_word b x fbdiv =
    x % 16 / 2 * 2 + b * 16 + x / 32 % 128 * 32 + fbdiv % 128 * 4096 + x / 2 ^ 19 * 2 ^ 19

set_bit : (k x : ℕ) → bit_or x (2 ^ k) ≡ x % 2 ^ k + (x / 2 ^ k / 2 * 2 + 1) * 2 ^ k
set_bit k x =
    ap (λ (t : ℕ). bit_or t (2 ^ k)) (sym (mod-add-div' x (2 ^ k)))
    ∙ bit_or-bit k (x % 2 ^ k) (x / 2 ^ k) (mod-lt x (one-le-pow k 2 (omega arith)))

flip_bit :
    (k x : ℕ) → bit_xor x (2 ^ k) ≡ x % 2 ^ k + (x / 2 ^ k / 2 * 2 + (1 - x / 2 ^ k % 2)) * 2 ^ k
flip_bit k x =
    ap (λ (t : ℕ). bit_xor t (2 ^ k)) (sym (mod-add-div' x (2 ^ k)))
    ∙ bit_xor-bit k (x % 2 ^ k) (x / 2 ^ k) (mod-lt x (one-le-pow k 2 (omega arith)))

-- A feedback divider in a word.
divide :
    (x fbdiv : ℕ)
    → x < 2 ^ 32
    → put_field 0x7f x 12 fbdiv ≡ x % 4096 + fbdiv % 128 * 4096 + x / 2 ^ 19 * 2 ^ 19
divide x fbdiv h =
    ap (λ (t : ℕ). put_field 0x7f t 12 fbdiv) (fields_of 12 7 x)
    ∙ put_field_lem 12 7 13 (x % 2 ^ 12) (x / 2 ^ 12 % 2 ^ 7) (x / 2 ^ 12 / 2 ^ 7) refl
        (omega arith) (omega arith) (high_lt 12 7 13 x refl h) fbdiv
    ∙ omega arith

-- The control words of the first steps.
reset_word :
    (x fbdiv : ℕ)
    → x < 2 ^ 32
    → bit_xor (put_field 0x7f (bit_or (bit_or x (2 ^ 4)) 1) 12 fbdiv) 1 ≡ pll_word 1 x fbdiv
reset_word x fbdiv h =
    let bypass = set_bit 4 x in
    let reset = set_bit 0 (bit_or x (2 ^ 4)) in
    let small : bit_or (bit_or x (2 ^ 4)) 1 < 2 ^ 32 = omega arith in
    let divided = divide (bit_or (bit_or x (2 ^ 4)) 1) fbdiv small in
    let flipped = flip_bit 0 (put_field 0x7f (bit_or (bit_or x (2 ^ 4)) 1) 12 fbdiv) in omega arith

run_word : (x fbdiv : ℕ) → bit_xor (pll_word 1 x fbdiv) (2 ^ 4) ≡ pll_word 0 x fbdiv
run_word x fbdiv = omega (arith, flip_bit 4 (pll_word 1 x fbdiv))

differ_lt : (a b : ℕ) → a < b → (a == b) ≡ false
differ_lt a b h = ground arith

differ_gt : (a b : ℕ) → b < a → (a == b) ≡ false
differ_gt a b h = ground arith

-- The control registers lie below those of the status, the configuration and the clocks.
ctrl_bounds : (pll : ℕ) → (0xf8000100 ≤ pll_ctrl pll) × (pll_ctrl pll ≤ 0xf8000108)
ctrl_bounds pll = (ground arith, ground arith)

cfg_above : (pll : ℕ) → 0xf8000110 ≤ pll_cfg pll
cfg_above pll = ground arith

config_listed :
    (fbdiv : ℕ)
    → fbdiv < 2 ^ 31
    → (c : ℕ) × (get_elem? pll_config_table (int_min 99 fbdiv) ≡ some c)
config_listed fbdiv h = get_elem?-some pll_config_table (int_min 99 fbdiv) (ground arith)

-- The lock bit of a PLL in the status.
abbrev pub lock_bit : ℕ → ℕ → ℕ
lock_bit pll stat = bit_and (shift_right stat pll) 1

module _ {S : Type 0} (dev : Device S) (pll : ℕ) where
  start_pll_lem :
      (fbdiv : ℕ) (m : Machine S)
      → fbdiv < 2 ^ 31
      → ((a : ℕ) (s : S) → (dev.in32 a s).0 < 2 ^ 32)
      → Returns
          (λ val m'.
            (x : ℕ) × (val ≡ pll_word 1 x fbdiv)
            × (reads_of (pll_ctrl pll) m'.trace ≡ x ∷ reads_of (pll_ctrl pll) m.trace)
            × ((rest : List ℕ) × (writes_to (pll_ctrl pll) m'.trace ≡ val ∷ rest)))
          (start_pll dev pll fbdiv m)
  unfolding start_pll unlock_slcr
  start_pll_lem fbdiv m small words =
      let (c, e) = config_listed fbdiv small in
      let (low, high) = ctrl_bounds pll in
      let other : (0xf8000008 == pll_ctrl pll) ≡ false =
        differ_lt 0xf8000008 (pll_ctrl pll) (omega arith) in
      let x = (dev.in32 (pll_ctrl pll) (dev.out32 0xf8000008 0xdf0d m.hw)).0 in
      let v1 = bit_or x (2 ^ 4) in
      let v2 = bit_or v1 1 in
      let v3 = put_field 0x7f v2 12 fbdiv in
      rw e (
        returns (
          x,
          reset_word x fbdiv (words (pll_ctrl pll) (dev.out32 0xf8000008 0xdf0d m.hw)),
          rw (==_refl (pll_ctrl pll)) refl,
          newest_write (pll_ctrl pll) (bit_xor v3 1) (
              wrote (pll_cfg pll) c
              ∷ wrote (pll_ctrl pll) v3
              ∷ wrote (pll_ctrl pll) v2
              ∷ wrote (pll_ctrl pll) v1
              ∷ read (pll_ctrl pll) x
              ∷ wrote 0xf8000008 0xdf0d
              ∷ m.trace),
        ))

  -- A read of the status is none of the control register.
  unread :
      (v : ℕ) (t : List Event)
      → reads_of (pll_ctrl pll) (read pll_status v ∷ t) ≡ reads_of (pll_ctrl pll) t
  unread v t =
      let (low, high) = ctrl_bounds pll in
      rw (differ_gt pll_status (pll_ctrl pll) (omega arith)) refl

  -- What the poll finds in the status that it reads last.
  abbrev Polled : Option ℕ → ℕ → Type 0
  Polled none stat = lock_bit pll stat ≡ 0
  Polled (some k) stat = (lock_bit pll stat ≢ 0) × (k ≤ 2001)

  lock_found : (k v : ℕ) → k < 2001 → (lock_bit pll v == 0) ≡ false → Polled (some (k + 1)) v
  lock_found k v h e = (λ z. absurd (ground arith), omega arith)

  poll_lock_lem :
      (rounds k : ℕ) (m : Machine S)
      → k + suc rounds ≡ 2001
      → Returns
          (λ locked m'.
            ((stat : ℕ) × (last_read pll_status m'.trace ≡ some stat) × Polled locked stat)
            × (reads_of (pll_ctrl pll) m'.trace ≡ reads_of (pll_ctrl pll) m.trace)
            × (writes_to (pll_ctrl pll) m'.trace ≡ writes_to (pll_ctrl pll) m.trace))
          (poll_lock dev (suc rounds) pll k m)
  unfolding poll_lock
  poll_lock_lem zero k m h = elim (Bool-cases (lock_bit pll (dev.in32 pll_status m.hw).0 == 0)) [
    | inl unlocked ↦ rw unlocked (
        rw (lt→ltb 2000 (k + 1) (omega arith)) (
          returns (
            (
              (dev.in32 pll_status m.hw).0,
              refl,
              ==→eq (lock_bit pll (dev.in32 pll_status m.hw).0) 0 unlocked,
            ),
            unread (dev.in32 pll_status m.hw).0 m.trace,
            refl,
          )))
    | inr locked ↦ rw locked (
        returns (
          (
            (dev.in32 pll_status m.hw).0,
            refl,
            lock_found k (dev.in32 pll_status m.hw).0 (omega arith) locked,
          ),
          unread (dev.in32 pll_status m.hw).0 m.trace,
          refl,
        ))
  ]
  poll_lock_lem (suc rounds) k m h =
      let more : ltb 2000 (k + 1) ≡ false = ground arith in
      elim (Bool-cases (lock_bit pll (dev.in32 pll_status m.hw).0 == 0)) [
        | inl unlocked ↦ rw unlocked (
            rw more (
              Returns-weaken (poll_lock_lem rounds (k + 1) _ (omega arith)) (λ l m' (found, r, w).
                (found, r ∙ unread (dev.in32 pll_status m.hw).0 m.trace, w))))
        | inr locked ↦ rw locked (
            returns (
              (
                (dev.in32 pll_status m.hw).0,
                refl,
                lock_found k (dev.in32 pll_status m.hw).0 (omega arith) locked,
              ),
              unread (dev.in32 pll_status m.hw).0 m.trace,
              refl,
            ))
      ]

  -- Steps 7 and 8 on any register `r` up to the last control register.
  set_outdiv_lem :
      (outdiv r : ℕ) (m : Machine S)
      → r ≤ 0xf8000108
      → Returns
          (λ u m'.
            (last_read pll_status m'.trace ≡ last_read pll_status m.trace)
            × (reads_of r m'.trace ≡ reads_of r m.trace))
          (set_outdiv dev pll outdiv m)
  unfolding set_outdiv set_divisor
  set_outdiv_lem outdiv r m h = elim (Bool-cases (pll == 1)) [
    | inl ddr ↦ rw ddr (returns (refl, rw (differ_gt 0xf8000124 r (omega arith)) refl))
    | inr other ↦ rw other (elim (Bool-cases (pll == 0)) [
      | inl cpu ↦ rw cpu (returns (refl, rw (differ_gt 0xf8000120 r (omega arith)) refl))
      | inr io ↦ rw io (returns (refl, refl))
    ])
  ]

  dci_listed :
      (ratio : ℕ)
      → ratio < 2 ^ 32
      → (c : ℕ) × (get_elem? dci_ctrl_table (lim ratio 70 250 - 70) ≡ some c)
  dci_listed ratio h = get_elem?-some dci_ctrl_table (lim ratio 70 250 - 70) (ground arith)

  set_dci_lem :
      (ratio r : ℕ) (m : Machine S)
      → ratio < 2 ^ 32
      → r ≤ 0xf8000108
      → Returns
          (λ u m'.
            (last_read pll_status m'.trace ≡ last_read pll_status m.trace)
            × (reads_of r m'.trace ≡ reads_of r m.trace)
            × (writes_to r m'.trace ≡ writes_to r m.trace))
          (set_dci dev pll ratio m)
  unfolding set_dci
  set_dci_lem ratio r m small h = elim (Bool-cases (pll == 1)) [
    | inl ddr ↦
        let (c, e) = dci_listed ratio small in
        rw ddr (rw e (returns (refl, refl, rw (differ_gt 0xf8000128 r (omega arith)) refl)))
    | inr other ↦ rw other (returns (refl, refl, refl))
  ]

  -- How my_set_pll leaves the PLL whose control register held `x`, by the status that it read last.
  pub data Left (x fbdiv stat : ℕ) : List ℕ → Type 0 where
    bypassed :
        {rest : List ℕ} → lock_bit pll stat ≡ 0 → Left x fbdiv stat (pll_word 1 x fbdiv ∷ rest)
    running :
        {rest : List ℕ} → lock_bit pll stat ≢ 0 → Left x fbdiv stat (pll_word 0 x fbdiv ∷ rest)

  finish_pll_lem :
      (fbdiv outdiv ratio x stat : ℕ) (fout : Arg) (locked : Option ℕ) (m : Machine S)
      → pll ≤ 2
      → ratio < 2 ^ 32
      → Polled locked stat
      → last_read pll_status m.trace ≡ some stat
      → ((rest : List ℕ) × (writes_to (pll_ctrl pll) m.trace ≡ pll_word 1 x fbdiv ∷ rest))
      → Returns
          (λ p m'.
            (last_read pll_status m'.trace ≡ some stat)
            × (reads_of (pll_ctrl pll) m'.trace ≡ reads_of (pll_ctrl pll) m.trace)
            × Left x fbdiv stat (writes_to (pll_ctrl pll) m'.trace))
          (finish_pll dev pll outdiv fout ratio (pll_word 1 x fbdiv) locked m)
  unfolding finish_pll
  finish_pll_lem fbdiv outdiv ratio x stat fout none m three small polled last (rest, w) =
      returns (last, refl, rw w (bypassed polled))
  finish_pll_lem fbdiv outdiv ratio x stat fout (some k) m three small (locked, le) last (rest, w) =
      let (low, high) = ctrl_bounds pll in
      let (id, e) = get_elem?-some pll_id pll (omega arith) in
      rw e (
        Returns-then (set_outdiv_lem outdiv (pll_ctrl pll) m high) (λ u m1 (last1, reads1).
          Returns-then (set_dci_lem ratio (pll_ctrl pll) _ small high)
            (λ u m2 (last2, reads2, writes2).
              let w2 : writes_to (pll_ctrl pll) m2.trace
                  ≡ pll_word 0 x fbdiv ∷ writes_to (pll_ctrl pll) m1.trace =
                writes2
                ∙ rw (==_refl (pll_ctrl pll))
                    (ap (λ (v : ℕ). v ∷ writes_to (pll_ctrl pll) m1.trace) (run_word x fbdiv)) in
              returns (last2 ∙ last1 ∙ last, reads2 ∙ reads1, rw w2 (running locked)))))

  -- For one of the three PLLs, a feedback divider that is no negative int, and any hardware that
  -- answers with words: my_set_pll returns; it has read the control register once, and its last
  -- write there keeps the other bits, has the new divider and no reset, and has the bypass bit
  -- exactly if the status that it read last has no lock bit for the PLL.
  pub my_set_pll_ends :
      (fbdiv outdiv ratio : ℕ) (fout : Arg) (m : Machine S)
      → pll ≤ 2
      → fbdiv < 2 ^ 31
      → ratio < 2 ^ 32
      → ((a : ℕ) (s : S) → (dev.in32 a s).0 < 2 ^ 32)
      → Returns
          (λ p m'.
            (x : ℕ) × (stat : ℕ) × (reads_of (pll_ctrl pll) m'.trace
              ≡ x ∷ reads_of (pll_ctrl pll) m.trace)
            × (last_read pll_status m'.trace ≡ some stat)
            × Left x fbdiv stat (writes_to (pll_ctrl pll) m'.trace))
          (my_set_pll dev pll fbdiv outdiv fout ratio m)
  unfolding my_set_pll
  my_set_pll_ends fbdiv outdiv ratio fout m three fb small words =
      Returns-then (start_pll_lem fbdiv m fb words) (λ val m1 (x, v, reads1, (rest, writes1)).
        rw v (
          Returns-then (poll_lock_lem 2000 0 m1 refl)
            (λ locked m2 ((stat, last, polled), reads2, writes2).
              Returns-weaken
                (finish_pll_lem fbdiv outdiv ratio x stat fout locked m2 three small polled last
                  (rest, writes2 ∙ writes1 ∙ ap (λ (t : ℕ). t ∷ rest) v))
                (λ p m3 (last3, reads3, left). (x, stat, reads3 ∙ reads2 ∙ reads1, last3, left)))))
