-- ===== src/Emio/Wait.antt =====
-- WaitOpDone: it returns once op_done was seen, writes nothing meanwhile, and needs no more
-- rounds than the hardware needs polls.
pub mod Total
use mechatronics_embedded.Base.{
  ℕ, zero, suc, ◌+◌, ◌-◌, ◌≤◌, ◌<◌, ◌≡◌, refl, ◌∙◌, Bool, true, false, ◌||◌, String, List, [], ◌∷◌,
  some, arith, ◌==◌, if◌then◌else◌, ==_refl, Bool-cases, ◌⊎◌, inl, inr,
}
use mechatronics_embedded.Machine.{
  Device, Machine, Event, Arg, read, printed, text, num, pure, ◌>>=◌, ◌>>◌, printf,
}
use mechatronics_embedded.Machine.Outcome.{
  Returns, returns, Ensures, ensures, not_yet, Returns-both, Returns-then, Ensures-then,
  Ensures-weaken,
}
use mechatronics_embedded.Machine.Traffic.{writes_to, reads_of, last_read}
use mechatronics_embedded.Emio.{
  reg_input_upper, bits_op_done, any_set, poll, spin, wait_late, wait_op_done,
}

module _ {S : Type 0} (upper : ℕ) where
  -- Between the machines `m` and `m'` nothing was written or typed, and no register but `upper` was
  -- read.
  pub record Untouched (m m' : Machine S) : Type 0 where
    pub same_writes : (r : ℕ) → writes_to r m'.trace ≡ writes_to r m.trace
    pub same_reads : (r : ℕ) → (upper == r) ≡ false → reads_of r m'.trace ≡ reads_of r m.trace
    pub same_input : m'.input ≡ m.input

  pub Untouched-refl : (m : Machine S) → Untouched m m
  Untouched-refl m = record {
    same_writes = λ r. refl;
    same_reads = λ r ne. refl;
    same_input = refl;
  }

  pub Untouched-trans : {m m' m'' : Machine S} → Untouched m m' → Untouched m' m'' → Untouched m m''
  Untouched-trans u v = record {
    same_writes = λ r. v.same_writes r ∙ u.same_writes r;
    same_reads = λ r ne. v.same_reads r ne ∙ u.same_reads r ne;
    same_input = v.same_input ∙ u.same_input;
  }

  -- A poll and a message keep it so.
  pub after_poll :
      {m m' : Machine S} (hw' : S) (v : ℕ)
      → Untouched (record m { hw = hw'; trace = read upper v ∷ m.trace }) m'
      → Untouched m m'
  after_poll {m} hw' v u = record {
    same_writes = u.same_writes;
    same_reads = λ r ne. u.same_reads r ne ∙ rw ne;
    same_input = u.same_input;
  }

  pub after_print :
      {m m' : Machine S} (format : String) (args : List Arg)
      → Untouched (record m { trace = printed format args ∷ m.trace }) m'
      → Untouched m m'
  after_print format args u = record {
    same_writes = u.same_writes;
    same_reads = u.same_reads;
    same_input = u.same_input;
  }

  pub before_print :
      {m m' : Machine S} (format : String) (args : List Arg)
      → Untouched m m'
      → Untouched m (record m' { trace = printed format args ∷ m'.trace })
  before_print format args u = record {
    same_writes = u.same_writes;
    same_reads = u.same_reads;
    same_input = u.same_input;
  }

module _ {S : Type 0} (dev : Device S) where
  -- Whether one of the next `n` reads of the upper input lines shows op_done.
  unfoldable pub answers : ℕ → S → Bool
  answers zero s = false
  answers (suc n) s =
      let (v, s') = dev.in32 (dev.gpio_base + reg_input_upper) s in
      any_set v bits_op_done || answers n s'

  -- The hardware after the read that shows it, at most `n` reads later.
  unfoldable pub settled : ℕ → S → S
  settled zero s = s
  settled (suc n) s =
      let (v, s') = dev.in32 (dev.gpio_base + reg_input_upper) s in
      if any_set v bits_op_done then s' else settled n s'

  -- The wait itself leaves no other mark.
  abbrev pub Quiet : Machine S → Machine S → Type 0
  Quiet m m' = Untouched (dev.gpio_base + reg_input_upper) m m'

  -- op_done was set when the upper input lines were last read.
  abbrev pub DoneSeen : Machine S → Type 0
  DoneSeen m =
      (v : ℕ) × (last_read (dev.gpio_base + reg_input_upper) m.trace ≡ some v)
      × (any_set v bits_op_done ≡ true)

  -- `upper` is what the last read returned, unless there was none yet.
  abbrev Last : ℕ → Machine S → Type 0
  Last upper m =
      any_set upper bits_op_done ≡ true
      → last_read (dev.gpio_base + reg_input_upper) m.trace ≡ some upper

  Last-read :
      (m : Machine S) (hw' : S) (v : ℕ)
      → Last v (record m { hw = hw'; trace = read (dev.gpio_base + reg_input_upper) v ∷ m.trace })
  Last-read m hw' v h = rw (==_refl (dev.gpio_base + reg_input_upper))

  -- How the `for` loop ends: by op_done, or with `i` at its limit.
  abbrev Polled : ℕ → Machine S → ℕ × ℕ → Machine S → Type 0
  Polled limit m (i, upper) m' =
      Quiet m m' × Last upper m' × ((any_set upper bits_op_done ≡ true) ⊎ (i ≡ limit))

  poll_partial :
      (limit left i upper : ℕ) (m : Machine S)
      → Last upper m
      → i + left ≡ limit
      → Ensures (Polled limit m) (poll dev left i upper m)
  unfolding poll
  poll_partial limit zero i upper m h e =
      ensures (Untouched-refl (dev.gpio_base + reg_input_upper) m, h, inr (omega arith))
  poll_partial limit (suc left) i upper m h e = elim (Bool-cases (any_set upper bits_op_done)) [
    | inl done ↦ rw done (ensures (Untouched-refl (dev.gpio_base + reg_input_upper) m, h, inl done))
    | inr more ↦ rw more (
        let (v, s) = dev.in32 (dev.gpio_base + reg_input_upper) m.hw in
        Ensures-weaken (poll_partial limit left (i + 1) v _ (Last-read m s v) (omega arith))
          (λ a m' p. (after_poll (dev.gpio_base + reg_input_upper) s v p.0, p.1, p.2)))
  ]

  spin_partial :
      (fuel i upper : ℕ) (m : Machine S)
      → Last upper m
      → Ensures (λ i' m'. Quiet m m' × DoneSeen m') (spin dev fuel i upper m)
  unfolding spin
  spin_partial zero i upper m h = not_yet
  spin_partial (suc fuel) i upper m h = elim (Bool-cases (any_set upper bits_op_done)) [
    | inl done ↦
        rw done
          (ensures (Untouched-refl (dev.gpio_base + reg_input_upper) m, (upper, h done, done)))
    | inr more ↦ rw more (
        let (v, s) = dev.in32 (dev.gpio_base + reg_input_upper) m.hw in
        Ensures-weaken (spin_partial fuel (i + 1) v _ (Last-read m s v)) (λ a m' p. (
          after_poll (dev.gpio_base + reg_input_upper) s v
              (after_print (dev.gpio_base + reg_input_upper) "." [] p.0),
          p.1,
        )))
  ]

  stopped_early :
      (limit i upper : ℕ)
      → (any_set upper bits_op_done ≡ true) ⊎ (i ≡ limit)
      → (i == limit) ≡ false
      → any_set upper bits_op_done ≡ true
  stopped_early limit i upper (inl done) early = done
  stopped_early limit i upper (inr e) early = ground arith

  late_partial :
      (fuel n addr : ℕ) (op : String) (a : ℕ × ℕ) (m m' : Machine S)
      → Polled n m a m'
      → Ensures
          (λ r m''. (r ≡ true) × Quiet m m'' × DoneSeen m'')
          (wait_late dev fuel op addr n a m')
  unfolding wait_late
  late_partial fuel n addr op (i, upper) m m' (u, last, stop) = elim (Bool-cases (i == n)) [
    | inl late ↦ rw late (
        Ensures-then (spin_partial fuel i upper _ last) (λ i' m'' p. ensures (
          refl,
          Untouched-trans (dev.gpio_base + reg_input_upper) u (
              after_print (dev.gpio_base + reg_input_upper) _ _
                (before_print (dev.gpio_base + reg_input_upper) _ _ p.0)),
          p.1,
        )))
    | inr early ↦ rw early (
        let done = stopped_early n i upper stop early in
        ensures (refl, u, (upper, last done, done)))
  ]

  -- The wait writes no register, and returns only once op_done was seen.
  pub wait_partial :
      (fuel n addr : ℕ) (op : String) (m : Machine S)
      → Ensures (λ r m'. (r ≡ true) × Quiet m m' × DoneSeen m') (wait_op_done dev fuel op addr n m)
  unfolding wait_op_done
  wait_partial fuel n addr op m =
      Ensures-then (poll_partial n n 0 0 m (λ e. cc) (omega arith))
        (λ a m' p. late_partial fuel n addr op a m m' p)
