-- ===== src/Linux/Mmap/Wait.antt =====
-- WaitOpDone of fpgav3_emio_mmap.cpp: it ends by the clock, sees an answer that comes in time, and
-- does not wait for op_done to be cleared.
use mechatronics_embedded.Base.{
  ℕ, zero, suc, ◌+◌, ◌-◌, ◌*◌, ◌/◌, ◌%◌, ◌^◌, ◌≤◌, ◌<◌, ◌≡◌, refl, sym, ap, ◌∙◌, Bool, true, false,
  bit_and, bit_xor, bit_xor-zero, bit_xor-bit, bit_and_high, String, ltb, Bool-cases, inl, inr,
  if◌then◌else◌, arith,
}
use mechatronics_embedded.Machine.{Device, Machine, Arg, pure}
use mechatronics_embedded.Machine.Outcome.{Returns, returns, Returns-then, Returns-weaken}
use mechatronics_embedded.Emio.{reg_input_upper, bits_op_done, any_set}
use mechatronics_embedded.Emio.Wait.{
  answers, settled, Quiet, Untouched-refl, Untouched-trans, after_poll, before_print,
}
use mechatronics_embedded.Linux.{Settings}
use mechatronics_embedded.Linux.Mmap.{Mmap, op_done_is, wait_loop, report_wait, wait_op_done}

pub op_done_is_set : (u : ℕ) → op_done_is true u ≡ any_set u bits_op_done
unfolding op_done_is
op_done_is_set u = rw (bit_xor-zero (bit_and u bits_op_done)) refl

xor_one : (y : ℕ) → bit_xor (y * 2) 1 ≡ y * 2 + 1
xor_one y =
    let whole : 0 + y * 2 * 2 ^ 0 ≡ y * 2 = omega arith in
    ap (λ (t : ℕ). bit_xor t 1) (sym whole) ∙ bit_xor-bit 0 0 (y * 2) (omega arith) ∙ omega arith

-- The test for a cleared op_done is true whatever was read.
pub op_done_is_clear : (u : ℕ) → op_done_is false u ≡ true
unfolding op_done_is
op_done_is_clear u =
    let whole : u % 2 ^ 17 + u / 2 ^ 17 * 2 ^ 17 ≡ u = omega arith in
    let y = bit_and (u / 2 ^ 17) 1 * 2 ^ 16 in
    let masked : bit_and u bits_op_done ≡ y * 2 =
      ap (λ (t : ℕ). bit_and t bits_op_done) (sym whole)
      ∙ bit_and_high 17 (u % 2 ^ 17) (u / 2 ^ 17) 1 (omega arith)
      ∙ omega arith in
    rw (masked, xor_one y) (ground arith)

module _ {S : Type 0} (dev : Device S) (now : S → ℕ) (us : ℕ → ℕ → Arg) where
  -- An object whose region is that of the GPIO registers.
  abbrev pub on_board : Settings → Mmap
  on_board st = record { settings = st; opened = true; region = dev.gpio_base }

  -- Each of the next `k` polls is over less than `timeout` after `start`.
  abbrev pub InTime : ℕ → ℕ → ℕ → S → Type 0
  InTime timeout zero start s = Unit
  InTime timeout (suc k) start s =
      let s' = (dev.in32 (dev.gpio_base + reg_input_upper) s).1 in
      (now s' - start < timeout) × InTime timeout k start s'

  -- `k` polls take less than `timeout`, whenever they begin.
  abbrev pub Timely : ℕ → ℕ → Type 0
  Timely timeout k = (0 < timeout) × ((s : S) → InTime timeout k (now s) s)

  -- The clock advances with every poll.
  abbrev pub Advances : Type 0
  Advances = (s : S) → now s < now (dev.in32 (dev.gpio_base + reg_input_upper) s).1

  InTime-fewer :
      (timeout k start : ℕ) (s : S) → InTime timeout (suc k) start s → InTime timeout k start s
  InTime-fewer timeout zero start s in_time = tt
  InTime-fewer timeout (suc k) start s (now_too, later) =
      (now_too, InTime-fewer timeout k start _ later)

  wait_loop_sees :
      (rounds k start dt : ℕ) (st : Settings) (m : Machine S)
      → k < rounds
      → dt < st.timeout
      → InTime st.timeout k start m.hw
      → answers dev k m.hw ≡ true
      → Returns
          (λ r m'. (m'.hw ≡ settled dev k m.hw) × Quiet dev m m')
          (wait_loop dev now us rounds true start dt (on_board st) m)
  unfolding wait_loop answers settled
  wait_loop_sees zero k start dt st m enough early timely soon = absurd (omega arith)
  wait_loop_sees (suc rounds) zero start dt st m enough early timely soon = absurd (ground arith)
  wait_loop_sees (suc rounds) (suc k) start dt st m enough early (in_time, later) soon =
      let (u, s) = dev.in32 (dev.gpio_base + reg_input_upper) m.hw in
      let more_time : ltb dt st.timeout ≡ true = ground arith in
      rw (more_time, op_done_is_set u)
        (elim (Bool-cases (any_set u bits_op_done)) [
          | inl done ↦ rw done (
              returns (refl, after_poll _ s u (Untouched-refl (dev.gpio_base + reg_input_upper) _)))
          | inr wait ↦ rw wait (
              Returns-weaken
                (wait_loop_sees rounds k start (now s - start) st _ (omega arith) in_time later
                  (rw wait at soon))
                (λ r m' (hw, quiet). (hw, after_poll (dev.gpio_base + reg_input_upper) s u quiet)))
        ])

  report-Quiet :
      (verbose : Bool) (op : String) (n dt : ℕ) (state done : Bool) (m : Machine S)
      → Returns
          (λ u m'. (m'.hw ≡ m.hw) × Quiet dev m m')
          ((if verbose then report_wait dev now us op n state done dt else pure tt) m)
  unfolding report_wait
  report-Quiet true op n dt state done m = returns (
    refl,
    before_print (dev.gpio_base + reg_input_upper) _ _
        (Untouched-refl (dev.gpio_base + reg_input_upper) m),
  )
  report-Quiet false op n dt state done m =
      returns (refl, Untouched-refl (dev.gpio_base + reg_input_upper) m)

  -- If op_done shows within `k` polls, which are over in time, the wait ends when it is seen.
  pub wait_sees :
      (fuel k n : ℕ) (op : String) (st : Settings) (m : Machine S)
      → k ≤ fuel
      → Timely st.timeout k
      → answers dev k m.hw ≡ true
      → Returns
          (λ r m'. (r ≡ true) × (m'.hw ≡ settled dev k m.hw) × Quiet dev m m')
          (wait_op_done dev now us fuel op n true (on_board st) m)
  unfolding wait_op_done answers settled
  wait_sees fuel zero n op st m enough timely soon = absurd (ground arith)
  wait_sees fuel (suc k) n op st m enough (some_time, timely) soon =
      let (u, s) = dev.in32 (dev.gpio_base + reg_input_upper) m.hw in
      rw (op_done_is_set u) (elim (Bool-cases (any_set u bits_op_done)) [
        | inl done ↦ rw done (
            returns
              (refl, refl, after_poll _ s u (Untouched-refl (dev.gpio_base + reg_input_upper) _)))
        | inr wait ↦ rw wait (
            Returns-then
              (wait_loop_sees fuel k (now s) 0 st _ (omega arith) some_time
                (InTime-fewer st.timeout k (now s) s (timely s)) (rw wait at soon))
              (λ (done, dt) m' (hw, quiet).
                Returns-then (report-Quiet st.is_verbose op n dt true done m')
                  (λ u' m'' (hw', quiet'). returns (
                    refl,
                    hw' ∙ hw,
                    after_poll (dev.gpio_base + reg_input_upper) s u
                        (Untouched-trans (dev.gpio_base + reg_input_upper) quiet quiet'),
                  ))))
      ])

  -- The wait for a cleared op_done is one poll, whatever that shows.
  pub wait_clear_polls :
      (fuel n : ℕ) (op : String) (st : Settings) (m : Machine S)
      → Returns
          (λ r m'.
            (r ≡ true)
            × (m'.hw ≡ (dev.in32 (dev.gpio_base + reg_input_upper) m.hw).1)
            × Quiet dev m m')
          (wait_op_done dev now us fuel op n false (on_board st) m)
  unfolding wait_op_done
  wait_clear_polls fuel n op st m =
      let (u, s) = dev.in32 (dev.gpio_base + reg_input_upper) m.hw in
      rw (op_done_is_clear u) (
        returns (refl, refl, after_poll _ s u (Untouched-refl (dev.gpio_base + reg_input_upper) _)))

  wait_loop_ends :
      (rounds start dt : ℕ) (state : Bool) (st : Settings) (m : Machine S)
      → Advances
      → start + dt ≤ now m.hw
      → st.timeout - dt < rounds
      → Returns (λ r m'. Unit {0}) (wait_loop dev now us rounds state start dt (on_board st) m)
  unfolding wait_loop
  wait_loop_ends zero start dt state st m moves began enough = absurd (omega arith)
  wait_loop_ends (suc rounds) start dt state st m moves began enough =
      let (u, s) = dev.in32 (dev.gpio_base + reg_input_upper) m.hw in
      elim (Bool-cases (ltb dt st.timeout)) [
        | inr over ↦ rw over (returns tt)
        | inl more ↦ rw more (elim (Bool-cases (op_done_is state u)) [
          | inl done ↦ rw done (returns tt)
          | inr wait ↦ rw wait (
              wait_loop_ends rounds start (now s - start) state st _ moves
                (omega (arith, moves m.hw)) (ground (arith, moves m.hw)))
        ])
      ]

  -- On any device whose clock advances with every poll, the wait ends, with `true`, by the time of the
  -- timeout.
  pub wait_ends :
      (fuel n : ℕ) (op : String) (state : Bool) (st : Settings) (m : Machine S)
      → Advances
      → st.timeout < fuel
      → Returns (λ r m'. r ≡ true) (wait_op_done dev now us fuel op n state (on_board st) m)
  unfolding wait_op_done
  wait_ends fuel n op state st m moves enough =
      let (u, s) = dev.in32 (dev.gpio_base + reg_input_upper) m.hw in
      elim (Bool-cases (op_done_is state u)) [
        | inl done ↦ rw done (returns refl)
        | inr wait ↦ rw wait (
            Returns-then
              (wait_loop_ends fuel (now s) 0 state st _ moves (omega arith) (omega arith))
              (λ (done, dt) m' over.
                Returns-then (report-Quiet st.is_verbose op n dt state done m')
                  (λ u' m'' quiet. returns refl)))
      ]
