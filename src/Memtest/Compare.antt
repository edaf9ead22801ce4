-- ===== src/Memtest/Compare.antt =====
-- The comparison of one word, and what error_info keeps.
use mechatronics_embedded.Base.{
  ℕ, ◌+◌, ◌-◌, ◌*◌, ◌/◌, ◌%◌, ◌^◌, ◌≤◌, ◌<◌, ◌≡◌, refl, sym, ap, ==_refl, ==→eq, bit_and_high,
  bit_and_keep, bit_and-zero, ◌∙◌, false, ◌&&◌, arith, ◌==◌, if◌then◌else◌, bit_and, ltb, leb,
  lt→ltb, Bool-cases, inl, inr, List, length, length-set, String,
}
use mechatronics_embedded.Machine.{Device, Machine, store}
use mechatronics_embedded.Machine.Outcome.{Returns, returns, Returns-then, Returns-weaken}
use mechatronics_embedded.Emio.{any_set}
use mechatronics_embedded.Memtest.{
  Lanes, Tally, bump, lane_count, lanes_full, too_many, put_error, keep_error, error_info, err_info,
  compare_word,
}
use mechatronics_embedded.Memtest.Cells.{Ram}

store_sized :
    {S : Type 0} (xs : List ℕ) (i v : ℕ) (m : Machine S)
    → i < length xs
    → Returns (λ ys m'. (length ys ≡ length xs) × (m' ≡ m)) (store xs i v m)
store_sized xs i v m h = rw (lt→ltb i (length xs) h) (returns (length-set xs i v, refl))

-- A lane counts a word if its byte is another; the place is that of the byte.
abbrev pub count_byte : ℕ → ℕ → ℕ → ℕ → ℕ
count_byte place rddat want n = if rddat / place % 256 == want / place % 256 then n else n + 1

abbrev pub count_bytes : ℕ → ℕ → Lanes → Lanes
count_bytes rddat want l = record {
  lane0 = count_byte 1 rddat want l.lane0;
  lane1 = count_byte 256 rddat want l.lane1;
  lane2 = count_byte 65536 rddat want l.lane2;
  lane3 = count_byte 16777216 rddat want l.lane3;
}

low_byte : (w : ℕ) → bit_and w 255 ≡ w % 256
low_byte w =
    let whole : w % 256 + w / 256 * 256 ≡ w = omega arith in
    ap (λ (t : ℕ). bit_and t 255) (sym whole)
    ∙ bit_and_keep 8 (w % 256) (w / 256) 0 (omega arith)
    ∙ ap (λ (t : ℕ). w % 256 + t * 256) (bit_and-zero (w / 256))
    ∙ omega arith

-- A mask of eight bits in another place.
mask_byte :
    (k w : ℕ)
    → w % 2 ^ k + w / 2 ^ k * 2 ^ k ≡ w
    → w % 2 ^ k < 2 ^ k
    → bit_and w (255 * 2 ^ k) ≡ w / 2 ^ k % 256 * 2 ^ k
mask_byte k w whole below =
    ap (λ (t : ℕ). bit_and t (255 * 2 ^ k)) (sym whole)
    ∙ bit_and_high k (w % 2 ^ k) (w / 2 ^ k) 255 below
    ∙ ap (λ (t : ℕ). t * 2 ^ k) (low_byte (w / 2 ^ k))

lane0_byte : (a b n : ℕ) → lane_count 0x000000ff a b n ≡ count_byte 1 a b n
unfolding lane_count
lane0_byte a b n = rw (low_byte a, low_byte b) (ground arith)

lane1_byte : (a b n : ℕ) → lane_count 0x0000ff00 a b n ≡ count_byte 256 a b n
unfolding lane_count
lane1_byte a b n =
    rw (mask_byte 8 a (omega arith) (omega arith), mask_byte 8 b (omega arith) (omega arith))
      (ground arith)

lane2_byte : (a b n : ℕ) → lane_count 0x00ff0000 a b n ≡ count_byte 65536 a b n
unfolding lane_count
lane2_byte a b n =
    rw (mask_byte 16 a (omega arith) (omega arith), mask_byte 16 b (omega arith) (omega arith))
      (ground arith)

lane3_byte : (a b n : ℕ) → lane_count 0xff000000 a b n ≡ count_byte 16777216 a b n
unfolding lane_count
lane3_byte a b n =
    rw (mask_byte 24 a (omega arith) (omega arith), mask_byte 24 b (omega arith) (omega arith))
      (ground arith)

bump-count_bytes : (rddat want : ℕ) (l : Lanes) → bump rddat want l ≡ count_bytes rddat want l
unfolding bump
bump-count_bytes a b l =
    rw
      (
        lane0_byte a b l.lane0,
        lane1_byte a b l.lane1,
        lane2_byte a b l.lane2,
        lane3_byte a b l.lane3,
      )
      refl

-- Equal words count in no lane.
pub count_bytes-same : (w : ℕ) (l : Lanes) → count_bytes w w l ≡ l
count_bytes-same w l =
    rw
      (
        ==_refl (w / 1 % 256),
        ==_refl (w / 256 % 256),
        ==_refl (w / 65536 % 256),
        ==_refl (w / 16777216 % 256),
      )
      refl

-- A comparison counts the bytes that differ.
pub compared_lanes :
    (rddat want : ℕ) (l : Lanes)
    → (if rddat == want then l else bump rddat want l) ≡ count_bytes rddat want l
compared_lanes a b l = elim (Bool-cases (a == b)) [
  | inl same ↦ rw (same, ==→eq a b same) (sym (count_bytes-same b l))
  | inr differ ↦ rw differ (bump-count_bytes a b l)
]

module _ {S : Type 0} {dev : Device S} {clean : S → S} {low high : ℕ} (ram : Ram dev clean low high)
    (top : high ≤ err_info) where
  -- The cells are as in another state.
  abbrev pub Kept : S → S → Type 0
  Kept s s' = (a : ℕ) → a < high → ram.cells s' a ≡ ram.cells s a

  put_error_sized :
      (buf : List ℕ) (n addr want rddat : ℕ) (m : Machine S)
      → length buf ≡ 256
      → n < 80
      → Returns (λ b m'. (length b ≡ 256) × (m' ≡ m)) (put_error dev buf n addr want rddat m)
  unfolding put_error
  put_error_sized buf n addr want rddat m full few =
      Returns-then (store_sized buf (3 * n) addr m (omega arith)) (λ b0 m0 (l0, e0).
        Returns-then (store_sized b0 (3 * n + 1) want m0 (omega arith)) (λ b1 m1 (l1, e1).
          Returns-weaken (store_sized b1 (3 * n + 2) rddat m1 (omega arith))
            (λ b2 m2 (l2, e2). (l2 ∙ l1 ∙ l0 ∙ full, e2 ∙ e1 ∙ e0))))

  keep_error_sized :
      (werr : ℕ) (buf : List ℕ) (addr want rddat : ℕ) (m : Machine S)
      → length buf ≡ 256
      → Returns
          (λ b m'. (length b ≡ 256) × (m' ≡ m))
          (keep_error dev (werr + 1) buf addr want rddat m)
  unfolding keep_error
  keep_error_sized werr buf addr want rddat m full =
      let counted : (werr + 1 == 0) ≡ false = ground arith in
      rw counted (elim (Bool-cases (leb (werr + 1) 80)) [
        | inl few ↦
            rw few (put_error_sized buf (werr + 1 - 1) addr want rddat m full (ground arith))
        | inr many ↦ rw many (returns (full, refl))
      ])

  -- The mailbox of the first error lies above the memory.
  error_info_keeps :
      (werr : ℕ) (buf : List ℕ) (addr want rddat : ℕ) (m : Machine S)
      → length buf ≡ 256
      → Returns
          (λ b m'. (length b ≡ 256) × Kept m.hw m'.hw)
          (error_info dev (werr + 1) buf addr want rddat m)
  unfolding error_info
  error_info_keeps werr buf addr want rddat m full = elim (Bool-cases (leb (werr + 1) 1)) [
    | inl first ↦ rw first (
        Returns-weaken (keep_error_sized werr buf addr want rddat _ full) (λ b m' (sized, e). (
          sized,
          λ a below.
              ap (λ (x : Machine S). ram.cells x.hw a) e
              ∙ ram.write_leaves _ _ a _ (ground arith)
              ∙ ram.write_leaves _ _ a _ (ground arith)
              ∙ ram.write_leaves _ _ a _ (ground arith),
        )))
    | inr later ↦ rw later (
        Returns-weaken (keep_error_sized werr buf addr want rddat _ full)
          (λ b m' (sized, e). (sized, λ a below. ap (λ (x : Machine S). ram.cells x.hw a) e)))
  ]

  -- The counts after one word.
  abbrev pub Compared : ℕ → ℕ → Tally → S → Tally → Machine S → Type 0
  Compared want rddat t s t' m' =
      (t'.werr ≡ t.werr + (if rddat == want then 0 else 1))
      × (t'.merr ≡ t.merr + (if rddat == want then 0 else 1))
      × (t'.lanes ≡ (if rddat == want then t.lanes else bump rddat want t.lanes))
      × (length t'.err_buf ≡ 256)
      × Kept s m'.hw

  pub compare_word-Compared :
      (label : String) (verbose addr noted want rddat : ℕ) (t : Tally) (m : Machine S)
      → length t.err_buf ≡ 256
      → Returns
          (Compared want rddat t m.hw)
          (compare_word dev label verbose addr noted want rddat t m)
  unfolding compare_word
  compare_word-Compared label verbose addr noted want rddat t m full =
      elim (Bool-cases (rddat == want)) [
        | inl same ↦ rw same (
            returns {a = t} {m = m}
              (rw same (omega arith), rw same (omega arith), rw same, full, λ a below. refl))
        | inr differ ↦ rw differ (elim (Bool-cases (any_set verbose 8 && leb (t.merr + 1) 10)) [
          | inl loud ↦ rw loud (
              Returns-then (error_info_keeps t.werr t.err_buf noted want rddat _ full)
                (λ b m' (sized, kept). returns (rw differ, rw differ, rw differ, sized, kept)))
          | inr quiet ↦ rw quiet (
              Returns-then (error_info_keeps t.werr t.err_buf noted want rddat _ full)
                (λ b m' (sized, kept). returns (rw differ, rw differ, rw differ, sized, kept)))
        ])
      ]

bump_lane0 : (rddat want : ℕ) (l : Lanes) → (bump rddat want l).lane0 ≤ l.lane0 + 1
unfolding bump lane_count
bump_lane0 rddat want l = elim (Bool-cases (bit_and rddat 0xff == bit_and want 0xff)) [
  | inl same ↦ rw same (omega arith)
  | inr differ ↦ rw differ (omega arith)
]

-- The first lane has no more errors than there are words with one.
pub lane0_low :
    (rddat want n : ℕ) (l : Lanes)
    → l.lane0 ≤ n
    → (if rddat == want then l else bump rddat want l).lane0 ≤ n + (if rddat == want then 0 else 1)
lane0_low rddat want n l h = elim (Bool-cases (rddat == want)) [
  | inl same ↦ rw same (omega arith)
  | inr differ ↦ rw differ (omega (arith, bump_lane0 rddat want l))
]

pub few_lanes : (t : Tally) → t.lanes.lane0 ≤ t.merr → t.merr ≤ 1000 → lanes_full t ≡ false
unfolding lanes_full
few_lanes t low few = let within : ltb 1000 t.lanes.lane0 ≡ false = ground arith in rw within refl

pub few_errors : (t : Tally) → t.lanes.lane0 ≤ t.merr → t.merr ≤ 1000 → too_many t ≡ false
unfolding too_many
few_errors t low few = elim (Bool-cases (t.merr == 0)) [
  | inl none' ↦ rw none' refl
  | inr some' ↦ rw some' (few_lanes t low few)
]
