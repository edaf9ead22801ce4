-- ===== src/Menu/Examples.antt =====
-- The theorems on TestBoardID at concrete inputs: a switch that is turned through its settings.
use mechatronics_embedded.Base.{
  ℕ, zero, suc, ◌*◌, ◌/◌, ◌^◌, ◌<◌, ◌≤◌, ◌≡◌, refl, Bool, true, ◌&&◌, bit_and, some, List, [], ◌∷◌,
  reverse_aux, ◌==◌, ==→eq, if◌then◌else◌, Bool-cases, and_left, and_right, sym, subst, inl, inr,
  arith,
}
use mechatronics_embedded.Machine.{Device, Machine, Event}
use mechatronics_embedded.Machine.Outcome.{Returns, returns}
use mechatronics_embedded.Emio.{
  read_quadlet, set_data_input, request_read, wait_op_done, poll, wait_late,
}
use mechatronics_embedded.Menu.{test_board_id}
use mechatronics_embedded.Menu.Bits.{bit}
use mechatronics_embedded.Menu.Switch.{AreIds, streak, held, after, after-marks}
use mechatronics_embedded.Menu.Rotation.{Rotary, AllHeld, test_board_id-AllHeld}

-- A test that succeeds on every number below a bound.
unfoldable all_below : ℕ → (ℕ → Bool) → Bool
all_below zero p = true
all_below (suc n) p = p n && all_below n p

below-all_below : (n : ℕ) (p : ℕ → Bool) → all_below n p ≡ true → (y : ℕ) → y < n → p y ≡ true
unfolding all_below
below-all_below zero p all y small = absurd (omega arith)
below-all_below (suc n) p all y small = elim (Bool-cases (y == n)) [
  | inl e ↦ subst (λ (t : ℕ). p t ≡ true) (sym (==→eq y n e)) (and_left (p n) (all_below n p) all)
  | inr e ↦ below-all_below n p (and_right (p n) (all_below n p) all) y (ground arith)
]

-- The answer of a switch whose next id stands first.
abbrev switch_in : ℕ → List ℕ → ℕ × List ℕ
switch_in a [] = (if a == 0x6c then 0x20000 else 0, [])
switch_in a (x ∷ xs) = if a == 0x68 then (x * 2 ^ 24, xs) else (0x20000, x ∷ xs)

abbrev switch_board : Device (List ℕ)
switch_board = record { gpio_base = 0; in32 = switch_in; out32 = λ a v s. s }

id_field : (x : ℕ) → x < 16 → bit_and (x * 2 ^ 24) 0x0f000000 / 2 ^ 24 ≡ x
unfolding all_below
id_field x small =
    ==→eq (bit_and (x * 2 ^ 24) 0x0f000000 / 2 ^ 24) x
      (below-all_below 16 (λ y. bit_and (y * 2 ^ 24) 0x0f000000 / 2 ^ 24 == y) refl x small)

reads_id :
    (x : ℕ) (xs hw input : List ℕ) (trace : List Event)
    → hw ≡ x ∷ xs
    → x < 16
    → Returns
        (λ got m'. (v : ℕ) × (got ≡ some v) × (bit_and v 0x0f000000 / 2 ^ 24 ≡ x) × (m'.hw ≡ xs))
        (read_quadlet switch_board 1 0 (record { hw = hw; input = input; trace = trace }))
unfolding read_quadlet set_data_input request_read wait_op_done poll wait_late
reads_id x xs hw input trace e small = rw e (returns (x * 2 ^ 24, refl, id_field x small, refl))

rotary_board : Rotary switch_board 1
rotary_board = record {
  ids = λ s. s;
  reads = λ m x xs e small. reads_id x xs m.hw m.input m.trace e small;
}

-- `n` times the id `x`, before `rest`.
unfoldable repeated : ℕ → ℕ → List ℕ → List ℕ
repeated zero x rest = rest
repeated (suc n) x rest = x ∷ repeated n x rest

-- Each id below `k` eleven times.
unfoldable turned : ℕ → List ℕ
turned zero = []
turned (suc k) = repeated 11 k (turned k)

repeated-AreIds : (n x : ℕ) (rest : List ℕ) → x < 16 → AreIds rest → AreIds (repeated n x rest)
unfolding AreIds repeated
repeated-AreIds zero x rest small ids = ids
repeated-AreIds (suc n) x rest small ids = (small, repeated-AreIds n x rest small ids)

turned-AreIds : (k : ℕ) → k ≤ 16 → AreIds (turned k)
unfolding AreIds turned
turned-AreIds zero small = tt
turned-AreIds (suc k) small =
    repeated-AreIds 11 k (turned k) (omega arith) (turned-AreIds k (omega arith))

abbrev script : List ℕ
script = turned 16

abbrev turning : Machine (List ℕ)
turning = record { hw = script; input = []; trace = [] }

script-AllHeld : AllHeld (reverse_aux script [])
unfolding all_below held streak turned repeated
script-AllHeld = below-all_below 16 (λ y. held y (reverse_aux script [])) refl

test_board_id-AllHeld_example :
    Returns
      (λ r m'.
        (r ≡ true)
        × ((seen : List ℕ) × (reverse_aux m'.hw seen ≡ reverse_aux script []) × AllHeld seen))
      (test_board_id switch_board 1 200 0 turning)
unfolding turned repeated rotary_board
test_board_id-AllHeld_example =
    test_board_id-AllHeld rotary_board 200 0 turning (turned-AreIds 16 (omega arith)) script-AllHeld
      (omega arith)

after-marks_example : bit 3 (after (repeated 11 3 (5 ∷ []))).switch_ok ≡ 1
unfolding repeated held streak AreIds
after-marks_example =
    after-marks (repeated 11 3 (5 ∷ []))
      (repeated-AreIds 11 3 (5 ∷ []) (omega arith) (omega arith, tt)) 3
