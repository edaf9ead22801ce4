-- ===== src/Linux/Flash/Memory.antt =====
-- The flash memory that the system calls give access to, as the kernel's interface describes it.
use mechatronics_embedded.Base.{
  Bool, ℕ, zero, suc, ◌+◌, ◌-◌, ◌<◌, ◌≡◌, refl, sym, ap, ◌∙◌, true, false, ◌&&◌, some, bit_and,
  List, [], ◌∷◌, arith, leb, ltb, ◌==◌, ==→eq, ==_refl, length, get_elem?, same_value, and_left,
  and_right, if◌then◌else◌, bit_and_keep,
}
use mechatronics_embedded.Linux.Flash.{Mtd, same_bytes}

-- The bytes of a partition, and the position in it.
pub record Memory : Type 0 where
  pub cells : ℕ → ℕ
  pub at : ℕ

abbrev pub put_byte : (ℕ → ℕ) → ℕ → ℕ → ℕ → ℕ
put_byte cells p v i = if i == p then v else cells i

-- `n` bytes from `p` on.
unfoldable pub slice : (ℕ → ℕ) → ℕ → ℕ → List ℕ
slice cells p zero = []
slice cells p (suc n) = cells p ∷ slice cells (p + 1) n

-- Programming can only clear bits.
unfoldable pub programmed : (ℕ → ℕ) → ℕ → List ℕ → ℕ → ℕ
programmed cells p [] = cells
programmed cells p (b ∷ bytes) = programmed (put_byte cells p (bit_and b (cells p))) (p + 1) bytes

-- Erased bytes are 0xff.
abbrev pub erased : (ℕ → ℕ) → ℕ → ℕ → ℕ → ℕ
erased cells start size i = if leb start i && ltb i (start + size) then 0xff else cells i

-- What the interface says of the calls. A call can fail, or do less than it was asked to, as at the
-- end of the partition; then `healthy` does not hold of the state, and nothing is known of the call.
pub record Works {S : Type 0} (mtd : Mtd S) : Type 0 where
  pub view : S → Memory
  pub healthy : S → Bool
  pub opening :
      (s : S)
      → (view (mtd.open_start s) ≡ record (view s) { at = 0 })
        × (healthy (mtd.open_start s) ≡ healthy s)
  pub reading :
      (n : ℕ) (s : S)
      → healthy (mtd.read_bytes n s).1 ≡ true
      → (healthy s ≡ true)
        × ((mtd.read_bytes n s).0 ≡ slice (view s).cells (view s).at n)
        × (view (mtd.read_bytes n s).1 ≡ record (view s) { at = (view s).at + n })
  pub writing :
      (bytes : List ℕ) (s : S)
      → healthy (mtd.write_bytes bytes s).1 ≡ true
      → (healthy s ≡ true)
        × ((mtd.write_bytes bytes s).0 ≡ length bytes)
        × (view (mtd.write_bytes bytes s).1 ≡ record {
          cells = programmed (view s).cells (view s).at bytes;
          at = (view s).at + length bytes;
        })
  pub seeking :
      (n : ℕ) (s : S)
      → healthy (mtd.seek_back n s) ≡ true
      → (healthy s ≡ true) × (view (mtd.seek_back n s) ≡ record (view s) { at = (view s).at - n })
  pub erasing :
      (start size : ℕ) (s : S)
      → healthy (mtd.erase start size s) ≡ true
      → (healthy s ≡ true)
        × (view (mtd.erase start size s)
            ≡ record (view s) { cells = erased (view s).cells start size })

abbrev pub Bytes : List ℕ → Type 0
Bytes bytes = (k v : ℕ) → get_elem? bytes k ≡ some v → v < 256

-- The memory holds the bytes from `p` on.
abbrev pub Holds : (ℕ → ℕ) → ℕ → List ℕ → Type 0
Holds cells p bytes = (k v : ℕ) → get_elem? bytes k ≡ some v → cells (p + k) ≡ v

length-slice : (cells : ℕ → ℕ) (p n : ℕ) → length (slice cells p n) ≡ n
unfolding slice
length-slice cells p zero = refl
length-slice cells p (suc n) = ap suc (length-slice cells (p + 1) n)

here : (p : ℕ) → p + 0 ≡ p
here p = omega arith

there : (p k : ℕ) → p + suc k ≡ p + 1 + k
there p k = omega arith

pub same_bytes-Holds :
    (cells : ℕ → ℕ) (bytes : List ℕ) (p : ℕ)
    → same_bytes bytes (slice cells p (length bytes)) ≡ true
    → Holds cells p bytes
unfolding slice same_bytes
same_bytes-Holds cells [] p same k v got = absurd (ground arith)
same_bytes-Holds cells (b ∷ bytes) p same zero v got =
    let first =
      and_left (b == cells p) (same_bytes bytes (slice cells (p + 1) (length bytes))) same in
    omega (arith, ==→eq b (cells p) first, same_value refl got, ap cells (here p))
same_bytes-Holds cells (b ∷ bytes) p same (suc k) v got =
    let rest =
      and_right (b == cells p) (same_bytes bytes (slice cells (p + 1) (length bytes))) same in
    ap cells (there p k) ∙ same_bytes-Holds cells bytes (p + 1) rest k v got

put_byte_other : (cells : ℕ → ℕ) (p v i : ℕ) → (i == p) ≡ false → put_byte cells p v i ≡ cells i
put_byte_other cells p v i ne = rw ne refl

put_byte_same : (cells : ℕ → ℕ) (p v : ℕ) → put_byte cells p v p ≡ v
put_byte_same cells p v = rw (==_refl p) refl

pub programmed_outside :
    (cells : ℕ → ℕ) (bytes : List ℕ) (p i : ℕ)
    → (leb p i && ltb i (p + length bytes)) ≡ false
    → programmed cells p bytes i ≡ cells i
unfolding programmed
programmed_outside cells [] p i out = refl
programmed_outside cells (b ∷ bytes) p i out =
    programmed_outside (put_byte cells p (bit_and b (cells p))) bytes (p + 1) i (ground arith)
    ∙ put_byte_other cells p (bit_and b (cells p)) i (ground arith)

all_set : (b : ℕ) → b < 256 → bit_and b 0xff ≡ b
all_set b small = ground (arith, bit_and_keep 8 b 0 0 small)

-- Bytes that are programmed over erased cells are there afterwards.
pub programmed-Holds :
    (cells : ℕ → ℕ) (bytes : List ℕ) (p : ℕ)
    → ((k : ℕ) → k < length bytes → cells (p + k) ≡ 0xff)
    → Bytes bytes
    → Holds (programmed cells p bytes) p bytes
unfolding programmed
programmed-Holds cells [] p blank small k v got = absurd (ground arith)
programmed-Holds cells (b ∷ bytes) p blank small zero v got =
    let next = put_byte cells p (bit_and b (cells p)) in
    ap (programmed next (p + 1) bytes) (here p)
    ∙ programmed_outside next bytes (p + 1) p (ground arith)
    ∙ put_byte_same cells p (bit_and b (cells p))
    ∙ ap (bit_and b) (sym (ap cells (here p)) ∙ blank 0 (omega arith))
    ∙ all_set b (small 0 b refl)
    ∙ same_value refl got
programmed-Holds cells (b ∷ bytes) p blank small (suc k) v got =
    let next = put_byte cells p (bit_and b (cells p)) in
    ap (programmed next (p + 1) bytes) (there p k)
    ∙ programmed-Holds next bytes (p + 1)
        (λ i h.
          put_byte_other cells p (bit_and b (cells p)) (p + 1 + i) (ground arith)
          ∙ ap cells (sym (there p i))
          ∙ blank (suc i) (omega arith))
        (λ i w g. small (suc i) w g) k v got

pub Holds-same_bytes :
    (cells : ℕ → ℕ) (bytes : List ℕ) (p : ℕ)
    → Holds cells p bytes
    → same_bytes bytes (slice cells p (length bytes)) ≡ true
unfolding slice same_bytes
Holds-same_bytes cells [] p holds = refl
Holds-same_bytes cells (b ∷ bytes) p holds =
    let first : b ≡ cells p = sym (sym (ap cells (here p)) ∙ holds 0 b refl) in
    let rest =
      Holds-same_bytes cells bytes (p + 1)
        (λ k v g. ap cells (sym (there p k)) ∙ holds (suc k) v g) in
    let same : (b == cells p) ≡ true = ground arith in rw (same, rest) refl
