-- ===== src/Linux/Flash/Program.antt =====
-- ProgramFlash: what the flash holds after the loop over the sectors.
use mechatronics_embedded.Base.{
  ℕ, zero, suc, ◌+◌, ◌-◌, ◌≤◌, ◌<◌, ◌≡◌, refl, sym, ap, subst, ◌∙◌, Bool, true, false, ◌⊎◌, inl,
  inr, String, some, List, arith, ltb, ◌==◌, length, get_elem?, get_elem?-take, get_elem?-drop,
  get_elem?-bound, length-take, length-take_le, length-drop, take, drop, Bool-cases, if◌then◌else◌,
}
use mechatronics_embedded.Machine.{Machine}
use mechatronics_embedded.Machine.Outcome.{Returns, returns, Returns-then, Returns-weaken}
use mechatronics_embedded.Linux.Flash.{Mtd, program_sectors, program_flash}
use mechatronics_embedded.Linux.Flash.Sector.{Written, cells_of, Healthy, program_sector-Written}
use mechatronics_embedded.Linux.Flash.Memory.{Memory, Works, Bytes, Holds}

same_count : (same : Bool) (d d' : ℕ) → d' ≡ (if same then d else d + 1) → same ≡ true → d' ≡ d
same_count same d d' e same_true = rw same_true at e

further : (p n k : ℕ) → p + n + k ≡ p + (n + k)
further p n k = omega arith

-- Between `c` and `c'`, the file was written from `p` on, in sectors of `size` bytes.
pub record Installed (p size : ℕ) (file : List ℕ) (c c' : ℕ → ℕ) : Type 0 where
  pub holds : Holds c' p file
  pub outside : (i : ℕ) → (i < p) ⊎ (p + length file + size ≤ i) → c' i ≡ c i
  pub kept : Holds c p file → c' ≡ c

nothing-Installed :
    (p size : ℕ) (file : List ℕ) (c : ℕ → ℕ) → length file ≡ 0 → Installed p size file c c
nothing-Installed p size file c none_left = record {
  holds = λ k v g. absurd (omega (arith, get_elem?-bound file k v g));
  outside = λ i out. refl;
  kept = λ h. refl;
}

Holds-take : (c : ℕ → ℕ) (p n : ℕ) (file : List ℕ) → Holds c p file → Holds c p (take n file)
Holds-take c p n file h k v g = elim (Bool-cases (ltb k n)) [
  | inl low ↦ h k v (sym (get_elem?-take n file k (ground arith)) ∙ g)
  | inr high ↦ absurd (ground (arith, get_elem?-bound (take n file) k v g, length-take_le n file))
]

Holds-drop : (c : ℕ → ℕ) (p n : ℕ) (file : List ℕ) → Holds c p file → Holds c (p + n) (drop n file)
Holds-drop c p n file h k v g =
    ap c (further p n k) ∙ h (n + k) v (sym (get_elem?-drop n file k) ∙ g)

Bytes-take : (n : ℕ) (file : List ℕ) → Bytes file → Bytes (take n file)
Bytes-take n file small k v g = elim (Bool-cases (ltb k n)) [
  | inl low ↦ small k v (sym (get_elem?-take n file k (ground arith)) ∙ g)
  | inr high ↦ absurd (ground (arith, get_elem?-bound (take n file) k v g, length-take_le n file))
]

Bytes-drop : (n : ℕ) (file : List ℕ) → Bytes file → Bytes (drop n file)
Bytes-drop n file small k v g = small (n + k) v (sym (get_elem?-drop n file k) ∙ g)

-- A full sector and what follows it.
full-Installed :
    (p size : ℕ) (file : List ℕ) (c c1 c2 : ℕ → ℕ)
    → size ≤ length file
    → Written p size (take size file) c c1
    → Installed (p + size) size (drop size file) c1 c2
    → Installed p size file c c2
full-Installed p size file c c1 c2 long w rest = record {
  holds = λ k v g. elim (Bool-cases (ltb k size)) [
    | inl low ↦
        rest.outside (p + k) (inl (ground arith))
        ∙ w.holds k v (get_elem?-take size file k (ground arith) ∙ g)
    | inr high ↦
        let split : size + (k - size) ≡ k = ground arith in
        ap c2 (ap (λ (t : ℕ). p + t) (sym split) ∙ sym (further p size (k - size)))
        ∙ rest.holds (k - size) v
            (get_elem?-drop size file (k - size) ∙ ap (λ (t : ℕ). get_elem? file t) split ∙ g)
  ];
  outside = λ i out.
      rest.outside i (later i out)
      ∙ w.outside i (elim out [ inl low ↦ ground arith | inr high ↦ ground arith ]);
  kept = λ h.
      let first = w.kept (Holds-take c p size file h) in
      rest.kept (
        subst (λ (t : ℕ → ℕ). Holds t (p + size) (drop size file)) (sym first)
          (Holds-drop c p size file h))
      ∙ first;
}
  where
    later :
        (i : ℕ)
        → (i < p) ⊎ (p + length file + size ≤ i)
        → (i < p + size) ⊎ (p + size + length (drop size file) + size ≤ i)
    later i (inl low) = inl (omega arith)
    later i (inr high) = inr (omega (arith, length-drop size file))

-- The last sector, which the rest of the file does not fill.
last-Installed :
    (p size n : ℕ) (file : List ℕ) (c c1 c2 : ℕ → ℕ)
    → length file ≡ n
    → n ≤ size
    → Written p size (take n file) c c1
    → Installed (p + size) size (drop n file) c1 c2
    → Installed p size file c c2
last-Installed p size n file c c1 c2 len short w rest =
    let same : c2 ≡ c1 =
      rest.kept (λ k v g.
        absurd (omega (arith, get_elem?-bound (drop n file) k v g, length-drop n file))) in
    subst (Installed p size file c) (sym same) (record {
      holds = λ k v g.
          w.holds k v (get_elem?-take n file k (omega (arith, get_elem?-bound file k v g)) ∙ g);
      outside =
          λ i out. w.outside i (elim out [ inl low ↦ ground arith | inr high ↦ ground arith ]);
      kept = λ h. w.kept (Holds-take c p n file h);
    })

module _ {S : Type 0} {mtd : Mtd S} (works : Works mtd) where
  program_sectors-Installed :
      (rounds size file_size p : ℕ) (rest : List ℕ) (num_same num_diff : ℕ) (m : Machine S)
      → (Healthy works m → (works.view m.hw).at ≡ p) × (p + length rest ≡ file_size)
        ⊎ (length rest ≡ 0) × (file_size ≤ p)
      → 1 ≤ size
      → length rest < rounds
      → Bytes rest
      → Returns
          (λ (num_same', num_diff') m'.
            Healthy works m'
            → Healthy works m
              × Installed p size rest (cells_of works m) (cells_of works m')
              × (Holds (cells_of works m) p rest → num_diff' ≡ num_diff))
          (program_sectors mtd rounds size file_size p rest num_same num_diff m)
  unfolding program_sectors
  program_sectors-Installed zero size file_size p rest num_same num_diff m at some_size enough
        small =
      absurd (omega arith)
  program_sectors-Installed (suc rounds) size file_size p rest num_same num_diff m
        (inr (none_left, over)) some_size enough small =
      let stop : ltb p file_size ≡ false = ground arith in
      rw stop (
        returns (λ ok. (ok, nothing-Installed p size rest (cells_of works m) none_left, λ h. refl)))
  program_sectors-Installed (suc rounds) size file_size p rest num_same num_diff m (inl (at, sum))
        some_size enough small =
      elim (Bool-cases (ltb p file_size)) [
        | inr over ↦ rw over (
            returns (λ ok.
              (ok, nothing-Installed p size rest (cells_of works m) (ground arith), λ h. refl)))
        | inl more ↦ rw more (elim (Bool-cases (ltb (file_size - p) size)) [
          | inl last ↦ rw last (
              Returns-then
                (program_sector-Written works size p (take (file_size - p) rest) m at
                  (ground (arith, length-take_le (file_size - p) rest))
                  (Bytes-take (file_size - p) rest small))
                (λ same m1 written.
                  Returns-weaken
                    (program_sectors-Installed rounds size file_size (p + size)
                      (drop (file_size - p) rest) (if same then num_same + 1 else num_same)
                      (if same then num_diff else num_diff + 1) m1
                      (inr (omega (arith, length-drop (file_size - p) rest), ground arith))
                      some_size (ground (arith, length-drop (file_size - p) rest))
                      (Bytes-drop (file_size - p) rest small))
                    (λ (s', d') m2 rested ok.
                      let (ok1, inst, unchanged) = rested ok in
                      let (ok0, w, at1, known) = written ok1 in
                      (
                        ok0,
                        last-Installed p size (file_size - p) rest (cells_of works m)
                            (cells_of works m1) (cells_of works m2) (omega arith) (ground arith) w
                            inst,
                        λ h.
                            same_count same num_diff d'
                              (unchanged (λ k v g. absurd (
                                omega (
                                  arith,
                                  get_elem?-bound (drop (file_size - p) rest) k v g,
                                  length-drop (file_size - p) rest,
                                ))))
                              (known (Holds-take (cells_of works m) p (file_size - p) rest h)),
                      ))))
          | inr full ↦
              let long : size ≤ length rest = ground arith in
              rw full (
                Returns-then
                  (program_sector-Written works size p (take size rest) m at
                    (length-take_le size rest) (Bytes-take size rest small))
                  (λ same m1 written.
                    Returns-weaken
                      (program_sectors-Installed rounds size file_size (p + size) (drop size rest)
                        (if same then num_same + 1 else num_same)
                        (if same then num_diff else num_diff + 1) m1
                        (inl (
                          λ ok1.
                              (written ok1).2 ∙ ap (λ (t : ℕ). p + t) (length-take size rest long),
                          omega (arith, length-drop size rest),
                        ))
                        some_size (omega (arith, length-drop size rest))
                        (Bytes-drop size rest small))
                      (λ (s', d') m2 rested ok.
                        let (ok1, inst, unchanged) = rested ok in
                        let (ok0, w, at1, known) = written ok1 in
                        (
                          ok0,
                          full-Installed p size rest (cells_of works m) (cells_of works m1)
                              (cells_of works m2) long w inst,
                          λ h.
                              let still = w.kept (Holds-take (cells_of works m) p size rest h) in
                              same_count same num_diff d'
                                (unchanged (
                                  subst (λ (t : ℕ → ℕ). Holds t (p + size) (drop size rest))
                                    (sym still) (Holds-drop (cells_of works m) p size rest h)))
                                (known (Holds-take (cells_of works m) p size rest h)),
                        ))))
        ])
      ]

  -- For a flash partition that can be opened, with sectors of at least one byte, memory for the
  -- buffers, and rounds for the bytes of the file: ProgramFlash returns true. Either a call on the
  -- partition has failed or done less than it was asked to; or the flash then holds the file from its
  -- start on, no byte a sector or more behind the file is touched, and none at all if the flash held
  -- the file before.
  pub program_flash-Installed :
      (rounds : ℕ) (allocates : ℕ → Bool) (file_name dev_name : String) (file : List ℕ)
      (m : Machine S)
      → mtd.opens m.hw ≡ true
      → 1 ≤ mtd.erasesize (mtd.open_start m.hw)
      → allocates (mtd.erasesize (mtd.open_start m.hw)) ≡ true
      → length file < rounds
      → Bytes file
      → Returns
          (λ done m'.
            (done ≡ true)
            × ((works.healthy m'.hw ≡ false)
                ⊎ Installed 0
                    (mtd.erasesize (mtd.open_start m.hw))
                    file
                    (cells_of works m)
                    (cells_of works m')))
          (program_flash mtd rounds allocates file_name (some file) dev_name m)
  unfolding program_flash
  program_flash-Installed rounds allocates file_name dev_name file m opened some_size room enough
        small =
      let size = mtd.erasesize (mtd.open_start m.hw) in
      let (start, same) = works.opening m.hw in
      rw (opened, room)
        (Returns-then
          (program_sectors-Installed rounds size (length file) 0 file 0 0
            (record m { hw = mtd.open_start m.hw })
            (inl (λ ok. ap (λ (t : Memory). t.at) start, omega arith)) some_size enough small)
          (λ (num_same, num_diff) m1 written.
            let result : (works.healthy m1.hw ≡ false)
                ⊎ Installed 0 size file (cells_of works m) (cells_of works m1) =
              elim (Bool-cases (works.healthy m1.hw)) [
                | inl ok ↦ inr (
                    subst (λ (t : ℕ → ℕ). Installed 0 size file t (cells_of works m1))
                      (ap (λ (t : Memory). t.cells) start) (written ok).1)
                | inr failed ↦ inl failed
              ] in
            elim (Bool-cases (num_diff == 0)) [
              | inl present ↦ rw present (returns (refl, result))
              | inr updated ↦ rw updated (returns (refl, result))
            ]))
