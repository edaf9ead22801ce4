-- ===== src/Emio/Wait/Total.antt =====
-- WaitOpDone returns, given as many rounds as the hardware needs polls.
use mechatronics_embedded.Base.{
  ℕ, zero, suc, ◌+◌, ◌-◌, ◌<◌, ◌%◌, ◌^◌, ◌≡◌, refl, ◌∙◌, Bool, true, ◌||◌, String, arith, ◌==◌,
  if◌then◌else◌, Bool-cases, inl, inr,
}
use mechatronics_embedded.Machine.{Device, Machine}
use mechatronics_embedded.Machine.Outcome.{Returns, returns, Returns-both, Returns-then}
use mechatronics_embedded.Emio.Word.{word}
use mechatronics_embedded.Emio.{
  reg_output_upper, bits_op_done, any_set, poll, spin, wait_late, wait_op_done,
}
use mechatronics_embedded.Emio.Wait.{
  answers, settled, Quiet, DoneSeen, Polled, poll_partial, stopped_early, wait_partial,
}

module _ {S : Type 0} (dev : Device S) where
  -- The firmware answers a request within `k` polls: a word whose request bit is set was put on the
  -- upper lines.
  abbrev pub Prompt : ℕ → Type 0
  Prompt k =
      (addr control : ℕ) (s : S)
      → addr < 2 ^ 16
      → control % 2 ≡ 1
      → answers dev k (dev.out32 (dev.gpio_base + reg_output_upper) (word addr control) s) ≡ true

  -- `answers` and `settled` where the last value read is known.
  abbrev answers_from : ℕ → ℕ → S → Bool
  answers_from upper k s = any_set upper bits_op_done || answers dev k s

  abbrev settled_from : ℕ → ℕ → S → S
  settled_from upper k s = if any_set upper bits_op_done then s else settled dev k s

  -- After `k` polls, of which `rest` are left, the hardware is where it is bound to settle.
  abbrev OnCourse : ℕ → S → ℕ × ℕ → Machine S → Type 0
  OnCourse rest end (i, upper) m =
      (answers_from upper rest m.hw ≡ true) × (settled_from upper rest m.hw ≡ end)

  poll_total :
      (left i upper k rest : ℕ) (m : Machine S)
      → k - left ≡ rest
      → answers_from upper k m.hw ≡ true
      → Returns (OnCourse rest (settled_from upper k m.hw)) (poll dev left i upper m)
  unfolding poll answers settled
  poll_total zero i upper k rest m e h =
      let e' : rest ≡ k = omega arith in rw e' (returns (h, refl))
  poll_total (suc left) i upper zero rest m e h =
      let done : any_set upper bits_op_done ≡ true = ground arith in
      rw done (returns (rw done, rw done))
  poll_total (suc left) i upper (suc k) rest m e h =
      elim (Bool-cases (any_set upper bits_op_done)) [
        | inl done ↦ rw done (returns (rw done, rw done))
        | inr more ↦ rw more (poll_total left (i + 1) _ k rest _ (omega arith) (rw more at h))
      ]

  spin_total :
      (fuel i upper k : ℕ) (m : Machine S)
      → k < fuel
      → answers_from upper k m.hw ≡ true
      → Returns (λ i' m'. m'.hw ≡ settled_from upper k m.hw) (spin dev fuel i upper m)
  unfolding spin answers settled
  spin_total zero i upper k m e h = elim e [ ]
  spin_total (suc fuel) i upper zero m e h =
      let done : any_set upper bits_op_done ≡ true = ground arith in rw done (returns refl)
  spin_total (suc fuel) i upper (suc k) m e h = elim (Bool-cases (any_set upper bits_op_done)) [
    | inl done ↦ rw done (returns refl)
    | inr more ↦ rw more (spin_total fuel (i + 1) _ k _ (omega arith) (rw more at h))
  ]

  late_total :
      (fuel n addr rest : ℕ) (op : String) (end : S) (a : ℕ × ℕ) (m m' : Machine S)
      → rest < fuel
      → OnCourse rest end a m'
      → Polled dev n m a m'
      → Returns (λ r m''. m''.hw ≡ end) (wait_late dev fuel op addr n a m')
  unfolding wait_late
  late_total fuel n addr rest op end (i, upper) m m' e (h, s) (u, last, stop) =
      elim (Bool-cases (i == n)) [
        | inl late ↦
            rw late
              (Returns-then (spin_total fuel i upper rest _ e h) (λ i' m'' p. returns (p ∙ s)))
        | inr early ↦
            rw early (let done = stopped_early dev n i upper stop early in returns (rw done at s))
      ]

  -- If op_done shows within `k` polls, and `fuel` exceeds those that are left after the first `n`,
  -- then the wait returns `true`, with the hardware as after that poll; nothing was written.
  pub wait_total :
      (fuel n addr k : ℕ) (op : String) (m : Machine S)
      → k - n < fuel
      → answers dev k m.hw ≡ true
      → Returns
          (λ r m'. (m'.hw ≡ settled dev k m.hw) × ((r ≡ true) × Quiet dev m m' × DoneSeen dev m'))
          (wait_op_done dev fuel op addr n m)
  unfolding wait_op_done
  wait_total fuel n addr k op m e h =
      Returns-both
        (Returns-then
          (Returns-both (poll_total n 0 0 k (k - n) m refl h)
            (poll_partial dev n n 0 0 m (λ e. cc) (omega arith)))
          (λ a m' p. late_total fuel n addr (k - n) op _ a m m' e p.0 p.1))
        (wait_partial dev fuel n addr op m)
