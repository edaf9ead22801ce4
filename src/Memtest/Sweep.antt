-- ===== src/Memtest/Sweep.antt =====
-- platform_standalone/mfg_test_src/memtest.c: the measurement of the read and write eyes
-- (measure_read_eye, measure_write_eye). An `int` is a bit pattern of 32 bits.
pub mod ReadEye
use mechatronics_embedded.Base.{
  ℕ, zero, suc, ◌+◌, ◌-◌, ◌*◌, ◌^◌, ◌%◌, Bool, true, false, ◌&&◌, ◌||◌, List, [], ◌∷◌, int_lt, ltb,
  ◌==◌, if◌then◌else◌,
}
use mechatronics_embedded.Machine.{Cmd, pure, ◌>>=◌}
use mechatronics_embedded.Memtest.{Lanes}
use mechatronics_embedded.Memtest.Pll.{int_min, int_max}
use mechatronics_embedded.Memtest.Eye.{int_sub}

-- mineye and maxeye of a lane, and of all.
pub record Eye : Type 0 where
  pub lo : ℕ
  pub hi : ℕ

pub record Eyes : Type 0 where
  pub eye0 : Eye
  pub eye1 : Eye
  pub eye2 : Eye
  pub eye3 : Eye

abbrev pub no_eye : Eye
no_eye = record { lo = 9999; hi = 0xffffd8f1 }

abbrev pub no_eyes : Eyes
no_eyes = record { eye0 = no_eye; eye1 = no_eye; eye2 = no_eye; eye3 = no_eye }

unfoldable pub note_lane : ℕ → ℕ → Eye → Eye
note_lane i errs e = if errs == 0 then record { lo = int_min e.lo i; hi = int_max e.hi i } else e

unfoldable pub note_lanes : ℕ → Lanes → Eyes → Eyes
note_lanes i l e = record {
  eye0 = note_lane i l.lane0 e.eye0;
  eye1 = note_lane i l.lane1 e.eye1;
  eye2 = note_lane i l.lane2 e.eye2;
  eye3 = note_lane i l.lane3 e.eye3;
}

unfoldable pub all_bad : Lanes → Bool
all_bad l = ltb 0 l.lane0 && (ltb 0 l.lane1 && (ltb 0 l.lane2 && ltb 0 l.lane3))

-- mmax and mstep.
unfoldable pub steps : ℕ → ℕ × ℕ
steps step = if step == 2 then (32, 2) else if step == 1 then (64, 1) else (16, 4)

unfoldable pub offset : ℕ → ℕ → ℕ → ℕ
offset k mstep m = if k == 0 then 64 + mstep * m else int_sub 60 (mstep * m)

-- `attempt` sets an offset and runs the memory tests, and `lanes` reads errcnt.
module _ {S A : Type 0} (lanes : A → Lanes) (attempt : ℕ → A → Cmd S A) where
  -- The loop over `m`, of which `left` rounds are left.
  pub sweep_from : ℕ → ℕ → ℕ → ℕ → Eyes → A → Cmd S (Eyes × A)
  sweep_from k mstep zero m eyes a = pure (eyes, a)
  sweep_from k mstep (suc left) m eyes a =
      let i = offset k mstep m in
      if int_lt i 0 || int_lt 128 i then pure (eyes, a) else (do
        a' ← attempt i a
        if all_bad (lanes a')
            then pure (note_lanes i (lanes a') eyes, a')
            else sweep_from k mstep left (m + 1) (note_lanes i (lanes a') eyes) a')

  -- The loop over `k`.
  pub sweep : ℕ → A → Cmd S (Eyes × A)
  sweep step a = do
    let (mmax, mstep) = steps step
    (up, a') ← sweep_from 0 mstep (mmax + 1) 0 no_eyes a
    sweep_from 1 mstep (mmax + 1) 0 up a'
