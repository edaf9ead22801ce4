-- ===== src/Linux/Flash/Serial.antt =====
-- The serial number that ProgramFpgaSerialNumber writes is the one that GetFpgaSerialNumber reads.
use mechatronics_embedded.Base.{
  ℕ, zero, suc, ◌+◌, ◌-◌, ◌≤◌, ◌<◌, ◌≡◌, refl, sym, ap, subst, ◌∙◌, true, false, ◌&&◌, some, List,
  [], ◌∷◌, ◌++◌, arith, leb, ltb, drop, ◌==◌, ==_refl, length, length-append, set-append, get_elem?,
  get_elem?-bound, same_value,
}
use mechatronics_embedded.Machine.{Machine}
use mechatronics_embedded.Machine.Outcome.{Returns, returns, Returns-then, Returns-weaken}
use mechatronics_embedded.Machine.Text.{c_string, has_prefix, strchr}
use mechatronics_embedded.Fsbl.{serial_start}
use mechatronics_embedded.Linux.Flash.{
  Mtd, read_serial, get_fpga_serial_number, write_serial, program_fpga_serial_number,
}
use mechatronics_embedded.Linux.Flash.Memory.{
  Memory, Works, Bytes, Holds, slice, erased, programmed, programmed_outside, programmed-Holds,
}

-- The characters of a serial number: neither 0, which ends it, nor 0xff, which is erased flash.
unfoldable pub IsText : List ℕ → Type 0
IsText [] = Unit
IsText (c ∷ s) = (0 < c) × (c < 255) × IsText s

strchr_text :
    {S : Type 0} (s rest : List ℕ) (i : ℕ) (m : Machine S)
    → IsText s
    → Returns
        (λ found m'. (found ≡ some (i + length s)) × (m' ≡ m))
        (strchr 0xff i (s ++ 0xff ∷ rest) m)
unfolding strchr IsText
strchr_text [] rest i m is = returns (ap some (omega arith), refl)
strchr_text (c ∷ s) rest i m (pos, low, is) =
    let other : (c == 0xff) ≡ false = ground arith in
    let more : (c == 0) ≡ false = ground arith in
    rw (other, more)
      (Returns-weaken (strchr_text s rest (i + 1) m is)
        (λ found m' (e, same). (e ∙ ap some (omega arith), same)))

c_string_text : (s rest : List ℕ) → IsText s → c_string (s ++ 0 ∷ rest) ≡ s
unfolding c_string IsText
c_string_text [] rest is = refl
c_string_text (c ∷ s) rest (pos, low, is) =
    let more : (c == 0) ≡ false = ground arith in
    rw more (ap (λ (t : List ℕ). c ∷ t) (c_string_text s rest is))

Holds-here : (c : ℕ → ℕ) (p b : ℕ) (s : List ℕ) → Holds c p (b ∷ s) → c p ≡ b
Holds-here c p b s h = sym (ap c (omega arith)) ∙ h 0 b refl

Holds-next : (c : ℕ → ℕ) (p b : ℕ) (s : List ℕ) → Holds c p (b ∷ s) → Holds c (p + 1) s
Holds-next c p b s h k v g = ap c (omega arith) ∙ h (suc k) v g

pub slice-Holds :
    (c : ℕ → ℕ) (bytes : List ℕ) (p : ℕ) → Holds c p bytes → slice c p (length bytes) ≡ bytes
unfolding slice
slice-Holds c [] p h = refl
slice-Holds c (b ∷ bytes) p h =
    rw (Holds-here c p b bytes h)
      (ap (λ (t : List ℕ). b ∷ t) (slice-Holds c bytes (p + 1) (Holds-next c p b bytes h)))

count_text : (b : ℕ) (s : List ℕ) (k : ℕ) → length (b ∷ s) + suc k ≡ suc (length s + suc k)
count_text b s k = omega arith

slice_text :
    (c : ℕ → ℕ) (s : List ℕ) (p k : ℕ)
    → Holds c p s
    → c (p + length s) ≡ 0xff
    → slice c p (length s + suc k) ≡ s ++ 0xff ∷ slice c (p + length s + 1) k
unfolding slice
slice_text c [] p k h end =
    let at_end : p + 0 ≡ p = omega arith in
    let count : 0 + suc k ≡ suc k = omega arith in
    ap (slice c p) count
    ∙ ap (λ (t : ℕ). t ∷ slice c (p + 1) k) (ap c (sym at_end) ∙ end)
    ∙ ap (λ (t : ℕ). 0xff ∷ slice c (t + 1) k) (sym at_end)
slice_text c (b ∷ s) p k h end =
    let later : p + length (b ∷ s) ≡ p + 1 + length s = omega arith in
    ap (slice c p) (count_text b s k)
    ∙ ap (λ (t : ℕ). t ∷ slice c (p + 1) (length s + suc k)) (Holds-here c p b s h)
    ∙ ap (λ (t : List ℕ). b ∷ t)
        (slice_text c s (p + 1) k (Holds-next c p b s h) (ap c (sym later) ∙ end))
    ∙ ap (λ (t : ℕ). b ∷ s ++ 0xff ∷ slice c (t + 1) k) (sym later)

text-Bytes : (s : List ℕ) → IsText s → Bytes s
unfolding IsText
text-Bytes [] is k v g = absurd (ground arith)
text-Bytes (c ∷ s) (pos, low, is) zero v g = omega (arith, same_value refl g)
text-Bytes (c ∷ s) (pos, low, is) (suc k) v g = text-Bytes s is k v g

start-Bytes : Bytes serial_start
start-Bytes zero v g = ground arith
start-Bytes (suc zero) v g = ground arith
start-Bytes (suc (suc zero)) v g = ground arith
start-Bytes (suc (suc (suc zero))) v g = ground arith
start-Bytes (suc (suc (suc (suc zero)))) v g = ground arith
start-Bytes (suc (suc (suc (suc (suc k))))) v g = absurd (ground arith)

-- A flash that holds the serial number `s`, followed by an erased byte.
record Numbered (s : List ℕ) (c : ℕ → ℕ) : Type 0 where
  starts : Holds c 0 serial_start
  holds : Holds c 5 s
  ends : c (5 + length s) ≡ 0xff

inside : (c : ℕ → ℕ) (size k : ℕ) → k < size → erased c 0 size k ≡ 0xff
inside c size k h = let low : (leb 0 k && ltb k (0 + size)) ≡ true = ground arith in rw low refl

start_bound : (k v : ℕ) → get_elem? serial_start k ≡ some v → k < 5
start_bound k v g = get_elem?-bound serial_start k v g

programmed-Numbered :
    (c : ℕ → ℕ) (size : ℕ) (s : List ℕ)
    → IsText s
    → length s < 8
    → 13 ≤ size
    → Numbered s (programmed (programmed (erased c 0 size) 0 serial_start) 5 s)
programmed-Numbered c size s is short room =
    let blank = erased c 0 size in
    let first = programmed blank 0 serial_start in
    let behind : (k : ℕ) → 5 + k < size → first (5 + k) ≡ 0xff = λ k h.
      programmed_outside blank serial_start 0 (5 + k) (ground arith) ∙ inside c size (5 + k) h in
    record {
      starts = λ k v g.
          programmed_outside first s 5 (0 + k) (ground (arith, start_bound k v g))
          ∙ programmed-Holds blank serial_start 0 (λ i h. inside c size (0 + i) (omega arith))
              start-Bytes k v g;
      holds = programmed-Holds first s 5 (λ k h. behind k (omega arith)) (text-Bytes s is);
      ends =
          programmed_outside first s 5 (5 + length s) (ground arith)
          ∙ behind (length s) (omega arith);
    }

append_text : (s rest tail : List ℕ) → (s ++ 0xff ∷ rest) ++ tail ≡ s ++ 0xff ∷ (rest ++ tail)
append_text [] rest tail = refl
append_text (c ∷ s) rest tail = ap (λ (t : List ℕ). c ∷ t) (append_text s rest tail)

module _ {S : Type 0} {mtd : Mtd S} (works : Works mtd) (sound : (s : S) → works.healthy s ≡ true)
    (opens : (s : S) → mtd.opens s ≡ true) where
  abbrev cells_in : Machine S → ℕ → ℕ
  cells_in m = (works.view m.hw).cells

  program_fpga_serial_number-Numbered :
      (s : List ℕ) (m : Machine S)
      → IsText s
      → length s < 8
      → 13 ≤ mtd.erasesize (mtd.open_start m.hw)
      → Returns
          (λ done m'. (done ≡ true) × Numbered s (cells_in m'))
          (program_fpga_serial_number mtd s m)
  unfolding program_fpga_serial_number write_serial
  program_fpga_serial_number-Numbered s m is short room =
      let s0 = mtd.open_start m.hw in
      let size = mtd.erasesize s0 in
      let s1 = mtd.erase 0 size s0 in
      let s2 = (mtd.write_bytes serial_start s1).1 in
      let fits : ltb (length s) 9 ≡ true = ground arith in
      let (_, n1, w1) = works.writing serial_start s1 (sound _) in
      let (_, n2, w2) = works.writing s s2 (sound _) in
      let v1 : works.view s1 ≡ record { cells = erased (works.view m.hw).cells 0 size; at = 0 } =
        (works.erasing 0 size s0 (sound _)).1
        ∙ ap (λ (t : Memory). record t { cells = erased t.cells 0 size }) (works.opening m.hw).0 in
      let v2 =
        w1
        ∙ ap
            (λ (t : Memory). record { cells = programmed t.cells t.at serial_start; at = t.at + 5 })
            v1 in
      let v3 =
        w2
        ∙ ap (λ (t : Memory). record { cells = programmed t.cells t.at s; at = t.at + length s })
            v2 in
      rw (fits, opens m.hw, n1, n2, ==_refl (length s))
        (returns (
          refl,
          subst (Numbered s) (sym (ap (λ (t : Memory). t.cells) v3))
              (programmed-Numbered (works.view m.hw).cells size s is short room),
        ))

  read_serial-Numbered :
      (s sn : List ℕ) (m : Machine S)
      → Numbered s (cells_in m)
      → (works.view m.hw).at ≡ 5
      → IsText s
      → length s < 8
      → Returns (λ sn' m'. c_string sn' ≡ s) (read_serial mtd sn m)
  unfolding read_serial
  read_serial-Numbered s sn m num at is short =
      let c = cells_in m in
      let k = 8 - length s - 1 in
      let rest = slice c (5 + length s + 1) k in
      let tail = drop (length (mtd.read_bytes 8 m.hw).0) sn in
      let (_, got, view) = works.reading 8 m.hw (sound _) in
      let eight : 8 ≡ length s + suc k = omega arith in
      let read =
        got
        ∙ ap (λ (t : ℕ). slice c t 8) at
        ∙ ap (slice c 5) eight
        ∙ slice_text c s 5 k num.holds num.ends in
      let whole = ap (λ (t : List ℕ). t ++ tail) read ∙ append_text s rest tail in
      let at_front : 0 + length s ≡ length s = omega arith in
      let fits : ltb (length s) (length (s ++ 0xff ∷ (rest ++ tail))) ≡ true =
        ground (arith, length-append s (0xff ∷ (rest ++ tail))) in
      rw whole (
        Returns-then (strchr_text s (rest ++ tail) 0 _ is) (λ found m1 (e, same).
          rw (e, at_front, whole, fits)
            (returns (
              ap c_string (set-append s (rest ++ tail) 0xff 0)
              ∙ c_string_text s (rest ++ tail) is))))

  -- For a flash partition that can be opened and on which no call fails, with a sector of at least 13 bytes, and a serial number of
  -- fewer than eight characters, none of them 0 or 0xff: ProgramFpgaSerialNumber returns true, and
  -- GetFpgaSerialNumber then reads the serial number that was written, whatever its array held.
  pub get-program_fpga_serial_number :
      (s sn0 : List ℕ) (m : Machine S)
      → IsText s
      → length s < 8
      → 0 < length sn0
      → 13 ≤ mtd.erasesize (mtd.open_start m.hw)
      → Returns
          (λ done m'.
            (done ≡ true)
            × Returns (λ sn' m''. c_string sn' ≡ s) (get_fpga_serial_number mtd sn0 m'))
          (program_fpga_serial_number mtd s m)
  unfolding get_fpga_serial_number has_prefix
  get-program_fpga_serial_number s sn0 m is short array room =
      Returns-weaken (program_fpga_serial_number-Numbered s m is short room)
        (λ done m' (e, num). (e, reads m' num))
    where
      reads :
          (m' : Machine S)
          → Numbered s (cells_in m')
          → Returns (λ sn' m''. c_string sn' ≡ s) (get_fpga_serial_number mtd sn0 m')
      reads m' num =
          let fits : ltb 0 (length sn0) ≡ true = ground arith in
          let s1 = mtd.open_start m'.hw in
          let (_, got, view) = works.reading 5 s1 (sound _) in
          let v1 = (works.opening m'.hw).0 in
          let start =
            got
            ∙ ap (λ (t : Memory). slice t.cells t.at 5) v1
            ∙ slice-Holds (cells_in m') serial_start 0 num.starts in
          let v2 = view ∙ ap (λ (t : Memory). record t { at = t.at + 5 }) v1 in
          rw (fits, opens m'.hw, start)
            (read_serial-Numbered s _ _
              (subst (Numbered s) (sym (ap (λ (t : Memory). t.cells) v2)) num)
              (ap (λ (t : Memory). t.at) v2) is short)
