-- ===== src/Memtest/All/Sound.antt =====
-- On memory that keeps every word, no selection of the tests of memtest_all finds an error.
use mechatronics_embedded.Base.{
  ℕ, zero, suc, ◌+◌, ◌*◌, ◌%◌, ◌≤◌, ◌^◌, ◌≡◌, refl, ap, ap₂, ◌∙◌, false, List, ◌∷◌, arith, length,
  ◌==◌, if◌then◌else◌, Bool-cases, inl, inr, ==_refl,
}
use mechatronics_embedded.Machine.{Device, Machine, Arg, Cmd, Event, wrote}
use mechatronics_embedded.Machine.Outcome.{Returns, returns, Returns-then, Returns-weaken}
use mechatronics_embedded.Machine.Traffic.{writes_to, newest_write}
use mechatronics_embedded.Emio.{any_set}
use mechatronics_embedded.Memtest.{
  Lanes, no_lanes, add_lanes, Globals, words_in, err_info, lfsr_next, lfsr_seed, pat128_next,
  memtest_lfsr, memtest_pat128,
}
use mechatronics_embedded.Memtest.Compare.{count_bytes-same}
use mechatronics_embedded.Memtest.Cells.{Ram}
use mechatronics_embedded.Memtest.Count.{
  faults, lane_faults, Result, memtest_lfsr_counts, memtest_pat128_counts,
}
use mechatronics_embedded.Memtest.Patterns.{Bus}
use mechatronics_embedded.Memtest.Modes.{memtest}
use mechatronics_embedded.Memtest.Modes.Count.{mode_sequence, memtest_counts}
use mechatronics_embedded.Memtest.Simple.{rows_in, dat, memtest_simple}
use mechatronics_embedded.Memtest.Simple.Rows.{words_of, row_next}
use mechatronics_embedded.Memtest.Simple.Count.{memtest_simple_counts}
use mechatronics_embedded.Memtest.All.{selected, wide_tests, narrow_tests, run_selected}

newest_write_of :
    (r : ℕ) (t : List Event) {v w : ℕ}
    → v ≡ w
    → (rest : List ℕ) × (writes_to r (wrote r v ∷ t) ≡ w ∷ rest)
newest_write_of r t {v = v} e =
    let (rest, h) = newest_write r v t in (rest, h ∙ ap (λ (x : ℕ). x ∷ rest) e)

-- No error is counted, and err_buf has its size.
pub record Clean (g : Globals) : Type 0 where
  pub no_werr : g.werr ≡ 0
  pub no_errcnt : g.errcnt ≡ no_lanes
  pub no_epp : g.epp ≡ 0
  pub sized : length g.err_buf ≡ 256

module _ {S : Type 0} {dev : Device S} {clean : S → S} {low high : ℕ} (ram : Ram dev clean low high)
    (sound : (a v : ℕ) → ram.kept a v ≡ v) where
  no_fault : (a v : ℕ) → (if◌then◌else◌ {A = ℕ} (ram.kept a v == v) 0 1) ≡ 0
  no_fault a v = rw (sound a v) (rw (==_refl v) refl)

  no_faults :
      {R : Type 0} (next : ℕ → R → ℕ × R) (start n i : ℕ) (r : R) → faults ram next start n i r ≡ 0
  unfolding faults
  no_faults next start zero i r = refl
  no_faults next start (suc n) i r =
      omega (arith, no_fault (start + i) (next i r).0, no_faults next start n (i + 4) (next i r).1)

  no_lane_faults :
      {R : Type 0} (next : ℕ → R → ℕ × R) (start n i : ℕ) (r : R) (l : Lanes)
      → lane_faults ram next start n i r l ≡ l
  unfolding lane_faults
  no_lane_faults next start zero i r l = refl
  no_lane_faults next start (suc n) i r l =
      rw (sound (start + i) (next i r).0)
        (rw (count_bytes-same (next i r).0 l) (no_lane_faults next start n (i + 4) (next i r).1 l))

  Result-Clean :
      {R : Type 0} (next : ℕ → R → ℕ × R) (start n mode : ℕ) (r : R) (g g' : Globals)
      (m' : Machine S)
      → Clean g
      → Result ram next start n r mode g g' m'
      → Clean g'
  Result-Clean next start n mode r g g' m' c (werr, errcnt, epp, sized) = record {
    no_werr = omega (arith, werr, c.no_werr, no_faults next start n 0 r);
    no_errcnt = errcnt ∙ ap₂ add_lanes c.no_errcnt (no_lane_faults next start n 0 r no_lanes);
    no_epp = epp ∙ rw (no_faults next start n 0 r) c.no_epp;
    sized = sized;
  }

  module _ (top : high ≤ err_info) (seconds : ℕ → Arg) (start size lp : ℕ) (from : low ≤ start)
      (fits : start + rows_in size * 16 ≤ high) (reads : (lp == 0xffffffff) ≡ false) where
    words_fit : start + words_in size * 4 ≤ high
    unfolding words_in rows_in
    words_fit = ground arith

    few : {R : Type 0} (next : ℕ → R → ℕ × R) (n : ℕ) (r : R) → faults ram next start n 0 r ≤ 1000
    few next n r = omega (arith, no_faults next start n 0 r)

    simple-Clean :
        (mode d0 d1 d2 d3 : ℕ) (g : Globals) (m : Machine S)
        → Clean g
        → Returns
            (λ g' m'. Clean g')
            (memtest_simple dev clean seconds start size mode lp d0 d1 d2 d3 g m)
    simple-Clean mode d0 d1 d2 d3 g m c =
        let next = row_next (dat g.qmask d0 d1 d2 d3) in
        Returns-weaken
          (memtest_simple_counts ram top seconds start size from fits mode lp d0 d1 d2 d3 g m reads
            c.sized (few next (words_of (rows_in size)) tt))
          (λ g' m'. Result-Clean next start (words_of (rows_in size)) mode tt g g' m' c)

    selected-Clean :
        (sel bit : ℕ) (test : Globals → Cmd S Globals)
        → ((g : Globals) (m : Machine S) → Clean g → Returns (λ g' m'. Clean g') (test g m))
        → (g : Globals) (m : Machine S) → Clean g
        → Returns (λ g' m'. Clean g') (selected dev clean seconds sel bit test g m)
    unfolding selected
    selected-Clean sel bit test passes g m c = elim (Bool-cases (any_set sel bit)) [
      | inl yes' ↦ rw yes' (passes g m c)
      | inr no' ↦ rw no' (returns c)
    ]

    memtest-Clean :
        (mode : ℕ) (g : Globals) (m : Machine S)
        → Clean g
        → Returns (λ g' m'. Clean g') (memtest dev clean seconds start size mode lp g m)
    memtest-Clean mode g m c =
        let next = mode_sequence g.qmask start mode in
        let r = (0x12345678 + lp + 19 * mode) % 2 ^ 32 in
        Returns-weaken
          (memtest_counts ram top seconds start size from words_fit mode lp g m c.sized
            (few next (words_in size) r))
          (λ g' m'. Result-Clean next start (words_in size) mode r g g' m' c)

    lfsr-Clean :
        (mode : ℕ) (g : Globals) (m : Machine S)
        → Clean g
        → Returns (λ g' m'. Clean g') (memtest_lfsr dev clean seconds start size mode lp g m)
    lfsr-Clean mode g m c =
        let next = lfsr_next g.qmask in
        let r = lfsr_seed mode lp ((g.rseed + 0x017c1e23) % 2 ^ 32) in
        Returns-weaken
          (memtest_lfsr_counts ram top seconds start size from words_fit mode lp g m c.sized
            (few next (words_in size) r))
          (λ g' m'. Result-Clean next start (words_in size) mode r g g' m' c)

    pat128-Clean :
        (mode : ℕ) (pat : ℕ → ℕ) (g : Globals) (m : Machine S)
        → Clean g
        → Returns (λ g' m'. Clean g') (memtest_pat128 dev clean seconds start size mode lp pat g m)
    pat128-Clean mode pat g m c =
        let next = pat128_next g.qmask pat in
        Returns-weaken
          (memtest_pat128_counts ram top seconds start size from words_fit mode lp pat g m c.sized
            (few next (words_in size) tt))
          (λ g' m'. Result-Clean next start (words_in size) mode tt g g' m' c)

    -- Four tests of memtest_simple in a row.
    wide-Clean :
        (sel : ℕ) (g : Globals) (m : Machine S)
        → Clean g
        → Returns (λ g' m'. Clean g') (wide_tests dev clean seconds start size sel lp g m)
    unfolding wide_tests
    wide-Clean sel g m c =
        Returns-then (selected-Clean sel 0x0020 _ (simple-Clean 5 0 0xffffffff 0 0xffffffff) g m c)
          (λ g1 m1 c1.
            Returns-then
              (selected-Clean sel 0x0040 _ (simple-Clean 6 0xffffffff 0 0xffffffff 0) g1 m1 c1)
              (λ g2 m2 c2.
                Returns-then
                  (selected-Clean sel 0x0080 _
                    (simple-Clean 7 0x55555555 0xaaaaaaaa 0x55555555 0xaaaaaaaa) g2 m2 c2)
                  (selected-Clean sel 0x0100 _
                    (simple-Clean 8 0xaaaaaaaa 0x55555555 0xaaaaaaaa 0x55555555))))

    narrow-Clean :
        (sel : ℕ) (g : Globals) (m : Machine S)
        → Clean g
        → Returns (λ g' m'. Clean g') (narrow_tests dev clean seconds start size sel lp g m)
    unfolding narrow_tests
    narrow-Clean sel g m c =
        Returns-then
          (selected-Clean sel 0x0020 _ (simple-Clean 5 0xffff0000 0xffff0000 0xffff0000 0xffff0000)
            g m c)
          (λ g1 m1 c1.
            Returns-then
              (selected-Clean sel 0x0040 _
                (simple-Clean 6 0x0000ffff 0x0000ffff 0x0000ffff 0x0000ffff) g1 m1 c1)
              (λ g2 m2 c2.
                Returns-then
                  (selected-Clean sel 0x0080 _
                    (simple-Clean 7 0xaaaa5555 0xaaaa5555 0xaaaa5555 0xaaaa5555) g2 m2 c2)
                  (selected-Clean sel 0x0100 _
                    (simple-Clean 8 0x5555aaaa 0x5555aaaa 0x5555aaaa 0x5555aaaa))))

    by_width-Clean :
        (bus : Bus) (sel : ℕ) (g : Globals) (m : Machine S)
        → Clean g
        → Returns
            (λ g' m'. Clean g')
            ((if bus.bus_width == 32
                then wide_tests dev clean seconds start size sel lp g
                else narrow_tests dev clean seconds start size sel lp g)
              m)
    by_width-Clean bus sel g m c = elim (Bool-cases (bus.bus_width == 32)) [
      | inl wide ↦ rw wide (wide-Clean sel g m c)
      | inr narrow ↦ rw narrow (narrow-Clean sel g m c)
    ]

    -- On memory from `low` to `high` that keeps every word, holds the rows under test and lies below
    -- the mailbox of the errors, for a loop that is not -1 and globals without errors, whatever tests
    -- `sel` selects and whatever the width of the bus: the tests return, count no error, mark no mode,
    -- keep the size of err_buf, and 0 is what is written last to the mailbox for epp.
    pub run_selected-Clean :
        (bus : Bus) (sel : ℕ) (g : Globals) (m : Machine S)
        → Clean g
        → Returns
            (λ g' m'.
              Clean g' × ((rest : List ℕ) × (writes_to (err_info + 24) m'.trace ≡ 0 ∷ rest)))
            (run_selected dev clean seconds bus start size sel lp g m)
    unfolding run_selected
    run_selected-Clean bus sel g m c =
        Returns-then (selected-Clean sel 0x0001 _ (memtest-Clean 0) g m c) (λ g0 m0 c0.
          Returns-then (selected-Clean sel 0x0002 _ (simple-Clean 1 0 0 0 0) g0 m0 c0) (λ g1 m1 c1.
            Returns-then
              (selected-Clean sel 0x0004 _
                (simple-Clean 2 0xffffffff 0xffffffff 0xffffffff 0xffffffff) g1 m1 c1)
              (λ g2 m2 c2.
                Returns-then
                  (selected-Clean sel 0x0008 _
                    (simple-Clean 3 0xaaaaaaaa 0xaaaaaaaa 0xaaaaaaaa 0xaaaaaaaa) g2 m2 c2)
                  (λ g3 m3 c3.
                    Returns-then
                      (selected-Clean sel 0x0010 _
                        (simple-Clean 4 0x55555555 0x55555555 0x55555555 0x55555555) g3 m3 c3)
                      (λ g4 m4 c4. Returns-then (by_width-Clean bus sel g4 m4 c4) (λ g8 m8 c8.
                        Returns-then
                          (selected-Clean sel 0x0200 _ (pat128-Clean 9 bus.pat1) g8 m8 c8)
                          (λ g9 m9 c9.
                            Returns-then
                              (selected-Clean sel 0x0400 _ (pat128-Clean 10 bus.pat2) g9 m9 c9)
                              (λ g10 m10 c10.
                                Returns-then
                                  (selected-Clean sel 0x0800 _ (lfsr-Clean 11) g10 m10 c10)
                                  (λ g11 m11 c11.
                                    Returns-then
                                      (selected-Clean sel 0x1000 _ (lfsr-Clean 12) g11 m11 c11)
                                      (λ g12 m12 c12.
                                        Returns-then
                                          (selected-Clean sel 0x2000 _ (lfsr-Clean 13) g12 m12 c12)
                                          (λ g13 m13 c13.
                                            Returns-then
                                              (selected-Clean sel 0x4000 _ (lfsr-Clean 14) g13 m13
                                                c13)
                                              (λ g14 m14 c14. returns (
                                                c14,
                                                newest_write_of (err_info + 24) m14.trace
                                                    c14.no_epp,
                                              )))))))))))))
