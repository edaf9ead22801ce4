-- ===== src/Memtest/Pll/Divisors.antt =====
-- The divisors that my_set_pll of memtest.c takes for the DCI clock.
use mechatronics_embedded.Base.{
  ℕ, zero, suc, ◌+◌, ◌-◌, ◌*◌, ◌/◌, ◌%◌, ◌^◌, ◌≤◌, ◌<◌, ◌≡◌, refl, subst, Bool, true, ◌&&◌, some,
  List, [], ◌∷◌, and_left, and_right, get_elem?, length, leb, ◌==◌, arith,
}
use native.Mathlib.Nat.{add-zero}
use mechatronics_embedded.Memtest.Pll.{lim}
use mechatronics_embedded.Memtest.Pll.Dci.{dci_ctrl_table}

-- A control word whose two divisors of six bits divide by `k` up to `k + 2`, with the clock on.
pub record Divides (c k : ℕ) : Type 0 where
  pub above : k ≤ c / 2 ^ 20 % 64 * (c / 2 ^ 8 % 64)
  pub below : c / 2 ^ 20 % 64 * (c / 2 ^ 8 % 64) ≤ k + 2
  pub only : c ≡ c / 2 ^ 20 % 64 * 2 ^ 20 + c / 2 ^ 8 % 64 * 2 ^ 8 + 1

divides : ℕ → ℕ → Bool
divides c k =
    leb k (c / 2 ^ 20 % 64 * (c / 2 ^ 8 % 64))
    && (leb (c / 2 ^ 20 % 64 * (c / 2 ^ 8 % 64)) (k + 2)
        && (c == c / 2 ^ 20 % 64 * 2 ^ 20 + c / 2 ^ 8 % 64 * 2 ^ 8 + 1))

all_divide : List ℕ → ℕ → Bool
all_divide [] k = true
all_divide (c ∷ cs) k = divides c k && all_divide cs (k + 1)

dci_ctrl_table-all_divide : all_divide dci_ctrl_table 70 ≡ true
unfolding all_divide divides
dci_ctrl_table-all_divide = refl

divides-Divides : (c k : ℕ) → divides c k ≡ true → Divides c k
unfolding divides
divides-Divides c k h = record { above = ground arith; below = ground arith; only = ground arith }

table_entry :
    (cs : List ℕ) (k i : ℕ)
    → all_divide cs k ≡ true
    → i < length cs
    → (c : ℕ) × (get_elem? cs i ≡ some c) × Divides c (k + i)
unfolding all_divide
table_entry [] k i h l = absurd (omega arith)
table_entry (c ∷ cs) k zero h l =
    (c, refl, rw add-zero (divides-Divides c k (and_left (divides c k) (all_divide cs (k + 1)) h)))
table_entry (c ∷ cs) k (suc i) h l =
    let (d, e, good) =
      table_entry cs (k + 1) i (and_right (divides c k) (all_divide cs (k + 1)) h) (omega arith) in
    let sum : k + 1 + i ≡ k + suc i = omega arith in (d, e, rw sum at good)

place :
    (i ratio : ℕ)
    → i < 181
    → 70 + i ≡ ratio
    → (c : ℕ) × (get_elem? dci_ctrl_table i ≡ some c) × Divides c ratio
place i ratio h e =
    let (c, found, good) = table_entry dci_ctrl_table 70 i dci_ctrl_table-all_divide h in
    (c, found, subst (Divides c) e good)

-- For every ratio from 70 to 250 dci_ctrl_table has, where my_set_pll looks, a word with the clock on
-- and nothing else but two divisors of six bits, whose product is the ratio or up to two more.
pub dci_ctrl_table-Divides :
    (ratio : ℕ)
    → 70 ≤ ratio
    → ratio ≤ 250
    → (c : ℕ) × (get_elem? dci_ctrl_table (lim ratio 70 250 - 70) ≡ some c) × Divides c ratio
dci_ctrl_table-Divides ratio low high =
    let inside : lim ratio 70 250 ≡ ratio = ground arith in
    place (lim ratio 70 250 - 70) ratio (omega arith) (omega arith)
