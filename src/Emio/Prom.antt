-- ===== src/Emio/Prom.antt =====
-- EMIO_WritePromData: the bytes arrive in the FPGA's PROM registers as big-endian words.
use mechatronics_embedded.Base.{
  ℕ, zero, suc, ◌+◌, ◌-◌, ◌*◌, ◌<◌, ◌≤◌, ◌%◌, ◌^◌, ◌≡◌, refl, ap, ◌∙◌, true, false, List, [], ◌∷◌,
  ◌++◌, arith, length, get_elem?, get_elem?-append_at, length-append,
}
use mathlib.Core.List.{append_assoc}
use mechatronics_embedded.Machine.{Device, Machine, ok}
use mechatronics_embedded.Machine.Outcome.{Returns, returns, Returns-then, Returns-weaken}
use mechatronics_embedded.Emio.{quads, load_u32, prom_rounds, write_prom_data}
use mechatronics_embedded.Emio.RegisterFile.{Firmware, update}
use mechatronics_embedded.Emio.RegisterFile.Access.{write_quadlet_writes}

-- What is known of Xil_EndianSwap32: it reverses four bytes.
abbrev pub ReversesBytes : (ℕ → ℕ) → Type 0
ReversesBytes swap =
    (b0 b1 b2 b3 : ℕ)
    → b0 < 256
    → b1 < 256
    → b2 < 256
    → b3 < 256
    → swap (b0 + 256 * b1 + 65536 * b2 + 16777216 * b3) ≡ 16777216 * b0 + 65536 * b1 + 256 * b2 + b3

abbrev pub AreBytes : List ℕ → Type 0
AreBytes [] = Unit
AreBytes (b ∷ bs) = (b < 256) × AreBytes bs

-- The first `n` big-endian words of a text.
unfoldable pub be_words : ℕ → List ℕ → List ℕ
be_words zero bytes = []
be_words (suc n) (b0 ∷ b1 ∷ b2 ∷ b3 ∷ bytes) =
    (16777216 * b0 + 65536 * b1 + 256 * b2 + b3) ∷ be_words n bytes
be_words (suc n) bytes = []

-- The register file with `words` stored from PROM register `i` on.
pub burn : List ℕ → ℕ → (ℕ → ℕ) → ℕ → ℕ
burn [] i regs = regs
burn (w ∷ words) i regs = burn words (i + 1) (update regs ((0x2000 + i) % 2 ^ 16) w)

elem_at :
    (gone rest : List ℕ) (at k : ℕ)
    → length gone + k ≡ at
    → get_elem? (gone ++ rest) at ≡ get_elem? rest k
elem_at gone rest at k e = rw (← e) (get_elem?-append_at gone rest k)

load_u32_next :
    {S : Type 0} (gone rest : List ℕ) (b0 b1 b2 b3 at : ℕ) (m : Machine S)
    → length gone ≡ at
    → load_u32 (gone ++ (b0 ∷ b1 ∷ b2 ∷ b3 ∷ rest)) at m
      ≡ ok (b0 + 256 * b1 + 65536 * b2 + 16777216 * b3) m
unfolding load_u32
load_u32_next gone rest b0 b1 b2 b3 at m e =
    let tail = b0 ∷ b1 ∷ b2 ∷ b3 ∷ rest in
    rw (
      elem_at gone tail at 0 (omega arith),
      elem_at gone tail (at + 1) 1 (omega arith),
      elem_at gone tail (at + 2) 2 (omega arith),
      elem_at gone tail (at + 3) 3 (omega arith),
    )

append-four :
    (gone rest : List ℕ) (b0 b1 b2 b3 : ℕ)
    → (gone ++ (b0 ∷ b1 ∷ b2 ∷ b3 ∷ [])) ++ rest ≡ gone ++ (b0 ∷ b1 ∷ b2 ∷ b3 ∷ rest)
append-four gone rest b0 b1 b2 b3 = append_assoc gone (b0 ∷ b1 ∷ b2 ∷ b3 ∷ []) rest

module _ {S : Type 0} {dev : Device S} (fw : Firmware dev) (swap : ℕ → ℕ)
    (reverses : ReversesBytes swap) where
  prom_rounds-burn :
      (fuel left i : ℕ) (gone rest : List ℕ) (m : Machine S)
      → length gone ≡ i * 4
      → left * 4 ≤ length rest
      → AreBytes rest
      → fw.latency - 5 < fuel
      → (fw.view m.hw).requested ≡ false
      → Returns
          (λ done m'.
            (done ≡ true)
            × ((fw.view m'.hw).regs ≡ burn (be_words left rest) i (fw.view m.hw).regs)
            × ((fw.view m'.hw).requested ≡ false))
          (prom_rounds dev swap fuel left i (gone ++ rest) m)
  unfolding prom_rounds be_words burn
  prom_rounds-burn fuel zero i gone rest m e fits bytes enough idle = returns (refl, refl, idle)
  prom_rounds-burn fuel (suc left) i gone (b0 ∷ b1 ∷ b2 ∷ b3 ∷ rest) m e fits
        (h0, (h1, (h2, (h3, hs)))) enough idle =
      rw (load_u32_next gone rest b0 b1 b2 b3 (i * 4) m e, reverses b0 b1 b2 b3 h0 h1 h2 h3)
        (Returns-then
          (write_quadlet_writes fw fuel ((0x2000 + i) % 2 ^ 16) _ m (omega arith) enough idle)
          (λ done m1 (sent, regs, free).
            rw (sent, ← append-four gone rest b0 b1 b2 b3)
              (Returns-weaken
                (prom_rounds-burn fuel left (i + 1) (gone ++ (b0 ∷ b1 ∷ b2 ∷ b3 ∷ [])) rest m1
                  (omega (arith, length-append gone (b0 ∷ b1 ∷ b2 ∷ b3 ∷ []))) (omega arith) hs
                  enough free)
                (λ done m2 (e2, regs2, free2).
                  (e2, regs2 ∙ ap (burn (be_words left rest) (i + 1)) regs, free2)))))
  prom_rounds-burn fuel (suc left) i gone _ m e fits bytes enough idle = absurd (omega arith)

  -- With an Xil_EndianSwap32 that reverses bytes, from a free bus and with fuel for the firmware's
  -- latency, let the buffer hold the quadlets of `n_bytes`, whose number is taken modulo 2 ^ 16. Then
  -- EMIO_WritePromData returns `true`, the register file is that of before with these bytes, as
  -- big-endian words, stored from PROM register 0 on, and the bus is free.
  pub write_prom_data_burns :
      (fuel n_bytes : ℕ) (bytes : List ℕ) (m : Machine S)
      → quads n_bytes % 2 ^ 16 * 4 ≤ length bytes
      → AreBytes bytes
      → fw.latency - 5 < fuel
      → (fw.view m.hw).requested ≡ false
      → Returns
          (λ done m'.
            (done ≡ true)
            × ((fw.view m'.hw).regs
                ≡ burn (be_words (quads n_bytes % 2 ^ 16) bytes) 0 (fw.view m.hw).regs)
            × ((fw.view m'.hw).requested ≡ false))
          (write_prom_data dev swap fuel bytes n_bytes m)
  unfolding write_prom_data
  write_prom_data_burns fuel n_bytes bytes m fits are enough idle =
      prom_rounds-burn fuel (quads n_bytes % 2 ^ 16) 0 [] bytes m refl fits are enough idle
