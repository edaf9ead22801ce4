-- ===== src/Linux/Flash/Sector.antt =====
-- A sector of ProgramFlash.
use mechatronics_embedded.Base.{
  ℕ, ◌+◌, ◌-◌, ◌≤◌, ◌<◌, ◌≡◌, refl, sym, ap, subst, ◌∙◌, true, false, ◌&&◌, ◌≢◌, inl, inr, List,
  arith, leb, ltb, length, Bool-cases,
}
use mechatronics_embedded.Machine.{Machine}
use mechatronics_embedded.Machine.Outcome.{Returns, returns}
use mechatronics_embedded.Linux.Flash.{Mtd, same_bytes, program_sector}
use mechatronics_embedded.Linux.Flash.Memory.{
  Memory, Works, Bytes, Holds, slice, erased, programmed, same_bytes-Holds, Holds-same_bytes,
  programmed_outside, programmed-Holds,
}

-- Between `c` and `c'`, a sector of `size` bytes was given the content `bytes`, or had it.
pub record Written (p size : ℕ) (bytes : List ℕ) (c c' : ℕ → ℕ) : Type 0 where
  pub holds : Holds c' p bytes
  pub outside : (i : ℕ) → (leb p i && ltb i (p + size)) ≡ false → c' i ≡ c i
  pub kept : Holds c p bytes → c' ≡ c

abbrev memory : (ℕ → ℕ) → ℕ → Memory
memory cells at = record { cells = cells; at = at }

back : (p n : ℕ) → p + n - n ≡ p
back p n = omega arith

true≢false : true ≢ false
true≢false e = absurd (ground arith)

erased_inside : (c : ℕ → ℕ) (p size k : ℕ) → k < size → erased c p size (p + k) ≡ 0xff
erased_inside c p size k h =
    let inside : (leb p (p + k) && ltb (p + k) (p + size)) ≡ true = ground arith in rw inside refl

erased_outside :
    (c : ℕ → ℕ) (p size i : ℕ) → (leb p i && ltb i (p + size)) ≡ false → erased c p size i ≡ c i
erased_outside c p size i out = rw out refl

-- Erasing a sector and programming the bytes.
rewritten-Written :
    (p size : ℕ) (bytes : List ℕ) (c : ℕ → ℕ)
    → length bytes ≤ size
    → Bytes bytes
    → same_bytes bytes (slice c p (length bytes)) ≡ false
    → Written p size bytes c (programmed (erased c p size) p bytes)
rewritten-Written p size bytes c fits small differs = record {
  holds =
      programmed-Holds (erased c p size) bytes p (λ k h. erased_inside c p size k (omega arith))
        small;
  outside = λ i out.
      programmed_outside (erased c p size) bytes p i (ground arith) ∙ erased_outside c p size i out;
  kept = λ h. absurd (true≢false (sym (Holds-same_bytes c bytes p h) ∙ differs));
}

module _ {S : Type 0} {mtd : Mtd S} (works : Works mtd) where
  abbrev pub cells_of : Machine S → ℕ → ℕ
  cells_of m = (works.view m.hw).cells

  -- No call up to here has failed.
  abbrev pub Healthy : Machine S → Type 0
  Healthy m = works.healthy m.hw ≡ true

  -- If no call fails, the sector is written, the position behind it, and the count right.
  pub program_sector-Written :
      (size p : ℕ) (bytes : List ℕ) (m : Machine S)
      → (Healthy m → (works.view m.hw).at ≡ p)
      → length bytes ≤ size
      → Bytes bytes
      → Returns
          (λ same m'.
            Healthy m'
            → Healthy m
              × Written p size bytes (cells_of m) (cells_of m')
              × ((works.view m'.hw).at ≡ p + length bytes)
              × (Holds (cells_of m) p bytes → same ≡ true))
          (program_sector mtd size p bytes m)
  unfolding program_sector
  program_sector-Written size p bytes m at fits small =
      let n = length bytes in
      let c = cells_of m in
      let s1 = (mtd.read_bytes n m.hw).1 in
      elim (Bool-cases (same_bytes bytes (mtd.read_bytes n m.hw).0)) [
        | inl same ↦ rw same (
            returns (λ ok.
              let (ok0, got, view) = works.reading n m.hw ok in
              let there : same_bytes bytes (slice c p n) ≡ true =
                ap (same_bytes bytes) (sym (got ∙ ap (λ (t : ℕ). slice c t n) (at ok0))) ∙ same in
              (
                ok0,
                record {
                  holds = λ k v g.
                      ap (λ (t : Memory). t.cells (p + k)) view
                      ∙ same_bytes-Holds c bytes p there k v g;
                  outside = λ i o. ap (λ (t : Memory). t.cells i) view;
                  kept = λ h. ap (λ (t : Memory). t.cells) view;
                },
                ap (λ (t : Memory). t.at) view ∙ ap (λ (t : ℕ). t + n) (at ok0),
                λ h. refl,
              )))
        | inr differs ↦
            let s2 = mtd.seek_back n s1 in
            rw differs (
              returns (λ ok.
                let (ok3, wrote, wview) = works.writing bytes (mtd.erase p size s2) ok in
                let (ok2, eview) = works.erasing p size s2 ok3 in
                let (ok1, sview) = works.seeking n s1 ok2 in
                let (ok0, got, view) = works.reading n m.hw ok1 in
                let changed : same_bytes bytes (slice c p n) ≡ false =
                  ap (same_bytes bytes) (sym (got ∙ ap (λ (t : ℕ). slice c t n) (at ok0)))
                  ∙ differs in
                let v1 : works.view s1 ≡ memory c (p + n) =
                  view ∙ ap (λ (t : ℕ). memory c (t + n)) (at ok0) in
                let v2 : works.view s2 ≡ memory c p =
                  sview
                  ∙ ap (λ (t : Memory). memory t.cells (t.at - n)) v1
                  ∙ ap (memory c) (back p n) in
                let v3 : works.view (mtd.erase p size s2) ≡ memory (erased c p size) p =
                  eview ∙ ap (λ (t : Memory). memory (erased t.cells p size) t.at) v2 in
                let v4 =
                  wview
                  ∙ ap (λ (t : Memory). memory (programmed t.cells t.at bytes) (t.at + n)) v3 in
                (
                  ok0,
                  subst (Written p size bytes c) (sym (ap (λ (t : Memory). t.cells) v4))
                      (rewritten-Written p size bytes c fits small changed),
                  ap (λ (t : Memory). t.at) v4,
                  λ h. absurd (true≢false (sym (Holds-same_bytes c bytes p h) ∙ changed)),
                )))
      ]
