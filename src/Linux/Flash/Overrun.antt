-- ===== src/Linux/Flash/Overrun.antt =====
-- A serial number of the greatest length in GetFpgaSerialNumber.
use mechatronics_embedded.Base.{
  ℕ, suc, ◌+◌, ◌<◌, ◌≡◌, refl, sym, ap, ◌∙◌, true, false, List, [], ◌∷◌, ◌++◌, arith, ltb, set,
  drop, ◌==◌, length,
}
use mechatronics_embedded.Machine.{Machine, fault}
use mechatronics_embedded.Machine.Text.{has_prefix, strchr}
use mechatronics_embedded.Fsbl.{serial_start}
use mechatronics_embedded.Linux.Flash.{Mtd, read_serial, get_fpga_serial_number}
use mechatronics_embedded.Linux.Flash.Memory.{Memory, Works, Holds, slice}
use mechatronics_embedded.Linux.Flash.Serial.{IsText, slice-Holds}

strchr_overruns :
    {S : Type 0} (s : List ℕ) (i : ℕ) (m : Machine S) → IsText s → strchr 0xff i s m ≡ fault
unfolding strchr IsText
strchr_overruns [] i m is = refl
strchr_overruns (c ∷ s) i m (pos, low, is) =
    let other : (c == 0xff) ≡ false = ground arith in
    let more : (c == 0) ≡ false = ground arith in rw (other, more) (strchr_overruns s (i + 1) m is)

IsText-append : (s t : List ℕ) → IsText s → IsText t → IsText (s ++ t)
unfolding IsText
IsText-append [] t is it = it
IsText-append (c ∷ s) t (pos, low, is) it = (pos, low, IsText-append s t is it)

drop-set : (sn : List ℕ) (k v : ℕ) → drop (suc k) (set sn 0 v) ≡ drop (suc k) sn
drop-set [] k v = refl
drop-set (b ∷ sn) k v = refl

module _ {S : Type 0} {mtd : Mtd S} (works : Works mtd) where
  -- If the partition can be opened, the two reads do not fail, and it holds a serial number of eight characters, none of them 0 or
  -- 0xff, and the ninth byte of the array of the caller is neither 0 nor 0xff, then
  -- GetFpgaSerialNumber reads past the end of the array.
  pub get_fpga_serial_number_overruns :
      (s sn0 : List ℕ) (m : Machine S)
      → mtd.opens m.hw ≡ true
      → works.healthy (mtd.read_bytes 8 (mtd.read_bytes 5 (mtd.open_start m.hw)).1).1 ≡ true
      → Holds (works.view m.hw).cells 0 serial_start
      → Holds (works.view m.hw).cells 5 s
      → IsText s
      → length s ≡ 8
      → 0 < length sn0
      → IsText (drop 8 sn0)
      → get_fpga_serial_number mtd sn0 m ≡ fault
  unfolding get_fpga_serial_number read_serial has_prefix
  get_fpga_serial_number_overruns s sn0 m opened ok starts holds is eight array last =
      let c = (works.view m.hw).cells in
      let fits : ltb 0 (length sn0) ≡ true = ground arith in
      let s1 = mtd.open_start m.hw in
      let v1 = (works.opening m.hw).0 in
      let (ok5, got', view') = works.reading 8 (mtd.read_bytes 5 s1).1 ok in
      let (_, got, view) = works.reading 5 s1 ok5 in
      let start =
        got ∙ ap (λ (t : Memory). slice t.cells t.at 5) v1 ∙ slice-Holds c serial_start 0 starts in
      let v2 = view ∙ ap (λ (t : Memory). record t { at = t.at + 5 }) v1 in
      let read =
        got'
        ∙ ap (λ (t : Memory). slice t.cells t.at 8) v2
        ∙ ap (slice c 5) (sym eight)
        ∙ slice-Holds c s 5 holds in
      rw
        (
          fits,
          opened,
          start,
          read,
          eight,
          drop-set sn0 7 0,
          strchr_overruns (s ++ drop 8 sn0) 0
              (record m { hw = (mtd.read_bytes 8 (mtd.read_bytes 5 s1).1).1 })
              (IsText-append s (drop 8 sn0) is last),
        )
        refl
