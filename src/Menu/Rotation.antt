-- ===== src/Menu/Rotation.antt =====
-- TestBoardID of menu.c ends when all sixteen settings have been held, and not before.
use mechatronics_embedded.Base.{
  ℕ, zero, suc, ◌+◌, ◌/◌, ◌^◌, ◌<◌, ◌≤◌, ◌≡◌, refl, sym, ap, ◌∙◌, true, false, ◌&&◌, not, bit_and,
  some, List, [], ◌∷◌, reverse_aux, length, ltb, ltb→lt, ◌==◌, ==→eq, if◌then◌else◌, Bool-cases,
  inl, inr, arith,
}
use mechatronics_embedded.Machine.{Device, Machine}
use mechatronics_embedded.Machine.Outcome.{Returns, returns, Returns-then}
use mechatronics_embedded.Emio.{any_set, read_quadlet}
use mechatronics_embedded.Menu.{
  Ids, count_id, debounced, read_or, show_id, id_round, find_ids, test_board_id,
}
use mechatronics_embedded.Menu.Bits.{bit, bit-ones, bit_extensional}
use mechatronics_embedded.Menu.Switch.{AreIds, streak, held, after, after-marks}

-- A board whose switch shows the ids `ids`, one for each read of the status register.
pub record Rotary {S : Type 0} (dev : Device S) (fuel : ℕ) : Type 0 where
  pub ids : S → List ℕ
  pub reads :
      (m : Machine S) (x : ℕ) (xs : List ℕ)
      → ids m.hw ≡ x ∷ xs
      → x < 16
      → Returns
          (λ got m'.
            (v : ℕ) × (got ≡ some v) × (bit_and v 0x0f000000 / 2 ^ 24 ≡ x) × (ids m'.hw ≡ xs))
          (read_quadlet dev fuel 0 m)

-- All sixteen ids were read eleven times in a row.
abbrev pub AllHeld : List ℕ → Type 0
AllHeld h = (y : ℕ) → y < 16 → held y h ≡ true

no_streak : (y : ℕ) (h : List ℕ) → AreIds h → 16 ≤ y → streak y h ≡ 0
unfolding AreIds streak
no_streak y [] ids far = refl
no_streak y (x ∷ h) (small, ids) far = let ne : (x == y) ≡ false = ground arith in rw ne refl

not_held : (y : ℕ) (h : List ℕ) → AreIds h → 16 ≤ y → held y h ≡ false
unfolding AreIds held
not_held y [] ids far = refl
not_held y (x ∷ h) (small, ids) far =
    let ne : (x == y) ≡ false = ground arith in rw ne (not_held y h ids far)

all_marked : (h : List ℕ) → AreIds h → AllHeld h → (after h).switch_ok ≡ 0xffff
all_marked h ids all =
    let ok = (after h).switch_ok in
    bit_extensional (ok + 0xffff) ok 0xffff (omega arith) (omega arith) (λ k.
      after-marks h ids k
      ∙ (elim (Bool-cases (ltb k 16)) [
        | inl low ↦ rw (all k (ltb→lt k 16 low)) (rw low refl)
        | inr high ↦ rw (not_held k h ids (ground arith)) (rw high refl)
      ])
      ∙ sym (bit-ones k 16))

marked_all : (h : List ℕ) → AreIds h → (after h).switch_ok ≡ 0xffff → AllHeld h
marked_all h ids full y small =
    let low : ltb y 16 ≡ true = ground arith in
    let one : if◌then◌else◌ {A = ℕ} (held y h) 1 0 ≡ 1 =
      sym (after-marks h ids y) ∙ ap (bit y) full ∙ bit-ones y 16 ∙ rw low refl in
    ground arith

show_id-quiet :
    {S : Type 0} (dev : Device S) (fuel x : ℕ) (s : Ids) (m : Machine S)
    → Returns (λ u m'. m'.hw ≡ m.hw) (show_id dev fuel x s m)
unfolding show_id
show_id-quiet dev fuel x s m =
    elim (Bool-cases (debounced x s && not (any_set s.switch_ok (2 ^ x)))) [
      | inl new ↦ rw new (returns refl)
      | inr old ↦ rw old (returns refl)
    ]

module _ {S : Type 0} {dev : Device S} {fuel : ℕ} (board : Rotary dev fuel) where
  id_round-after :
      (status0 x : ℕ) (xs h : List ℕ) (m : Machine S)
      → board.ids m.hw ≡ x ∷ xs
      → x < 16
      → Returns
          (λ s m'. (s ≡ after (x ∷ h)) × (board.ids m'.hw ≡ xs))
          (id_round dev fuel status0 (after h) m)
  unfolding id_round read_or after
  id_round-after status0 x xs h m e small =
      Returns-then (board.reads m x xs e small) (λ got m1 (v, some', id, rest).
        rw (some', id)
          (Returns-then (show_id-quiet dev fuel x (count_id x (after h)) _)
            (λ u m2 hw. returns (refl, ap board.ids hw ∙ rest))))

  find_ids-AllHeld :
      (rounds status0 : ℕ) (xs h : List ℕ) (m : Machine S)
      → AreIds h
      → AreIds xs
      → board.ids m.hw ≡ xs
      → AllHeld (reverse_aux xs h)
      → length xs < rounds
      → Returns
          (λ u m'.
            (seen : List ℕ) × (reverse_aux (board.ids m'.hw) seen ≡ reverse_aux xs h)
            × AllHeld seen)
          (find_ids dev fuel rounds status0 (after h) m)
  unfolding find_ids AreIds
  find_ids-AllHeld zero status0 xs h m ih ix e all less = absurd (omega arith)
  find_ids-AllHeld (suc rounds) status0 [] h m ih ix e all less =
      elim (Bool-cases ((after h).switch_ok == 0xffff)) [
        | inl done ↦ rw done (
            returns (
              h,
              ap (λ (l : List ℕ). reverse_aux l h) e,
              marked_all h ih (==→eq (after h).switch_ok 0xffff done),
            ))
        | inr more ↦ absurd (ground (arith, all_marked h ih all))
      ]
  find_ids-AllHeld (suc rounds) status0 (x ∷ xs) h m ih (small, ix) e all less =
      elim (Bool-cases ((after h).switch_ok == 0xffff)) [
        | inl done ↦ rw done (
            returns (
              h,
              ap (λ (l : List ℕ). reverse_aux l h) e,
              marked_all h ih (==→eq (after h).switch_ok 0xffff done),
            ))
        | inr more ↦ rw more (
            Returns-then (id_round-after status0 x xs h m e small) (λ s m1 (now, rest). rw now (
              find_ids-AllHeld rounds status0 xs (x ∷ h) m1 (small, ih) ix rest all (omega arith))))
      ]

  -- On a board whose switch shows ids such that each of the sixteen is read eleven times in a row, with
  -- more rounds than there are ids: TestBoardID returns true, after readings among which each id was
  -- read eleven times in a row.
  pub test_board_id-AllHeld :
      (rounds status0 : ℕ) (m : Machine S)
      → AreIds (board.ids m.hw)
      → AllHeld (reverse_aux (board.ids m.hw) [])
      → length (board.ids m.hw) < rounds
      → Returns
          (λ r m'.
            (r ≡ true)
            × ((seen : List ℕ) × (reverse_aux (board.ids m'.hw) seen
                  ≡ reverse_aux (board.ids m.hw) [])
                × AllHeld seen))
          (test_board_id dev fuel rounds status0 m)
  unfolding test_board_id after AreIds
  test_board_id-AllHeld rounds status0 m ids all less =
      Returns-then (find_ids-AllHeld rounds status0 (board.ids m.hw) [] _ tt ids refl all less)
        (λ u m1 found. returns (refl, found))
