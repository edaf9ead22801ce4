-- ===== src/Linux.antt =====
-- petalinux/libfpgav3: the base class of the bus drivers (fpgav3_emio.h, fpgav3_emio.cpp) and the
-- versions (fpgav3_lib.cpp). Times are in nanoseconds.
pub mod Mmap
pub mod Flash
use package.text.Mathlib.Text.{◌==◌ as str_eq}
use mechatronics_embedded.Base.{
  ℕ, zero, suc, ◌+◌, ◌-◌, ◌*◌, ◌/◌, ◌%◌, ◌^◌, Bool, true, false, not, Option, none, some, List, [],
  ◌∷◌, String, ltb, if◌then◌else◌,
}
use mechatronics_embedded.Machine.{Arg, Cmd, ok, text, pure, ◌>>=◌, ◌>>◌, printf}
use mechatronics_embedded.Emio.{quads, load_u32}

-- The members of EMIO_Interface that outlive a call.
pub record Settings : Type 0 where
  pub is_input : Bool
  pub is_verbose : Bool
  pub use_events : Bool
  pub do_timing : ℕ
  pub version : ℕ
  pub timing_overhead : ℕ
  pub timeout : ℕ

-- Its constructor.
abbrev pub default_settings : Settings
default_settings = record {
  is_input = true;
  is_verbose = false;
  use_events = false;
  do_timing = 0;
  version = 0;
  timing_overhead = 0;
  timeout = 250000;
}

-- The virtual functions, of a class with the members `I` and those of EMIO_Interface among them. A
-- result `none` of read_quadlet is `false`, which leaves `data` alone.
pub record Driver (S I : Type 0) : Type 0 where
  pub settings : I → Settings
  pub set_settings : Settings → I → I
  pub is_ok : I → Bool
  pub set_event_mode : Bool → I → Cmd S I
  pub read_quadlet : ℕ → I → Cmd S (Option ℕ × I)
  pub write_quadlet : ℕ → ℕ → I → Cmd S (Bool × I)
  pub read_block : ℕ → List ℕ → ℕ → I → Cmd S ((Bool × List ℕ) × I)
  pub write_block : ℕ → List ℕ → ℕ → I → Cmd S (Bool × I)

-- `bswap_32`, on 32 bits.
unfoldable pub bswap_32 : ℕ → ℕ
bswap_32 w =
    w % 256 * 2 ^ 24 + w / 2 ^ 8 % 256 * 2 ^ 16 + w / 2 ^ 16 % 256 * 2 ^ 8 + w / 2 ^ 24 % 256

module _ {S : Type 0} where
  -- `std::cout` with a line break behind the arguments, and without.
  abbrev pub cout_line : List Arg → Cmd S (Unit {0})
  cout_line args = printf "\n" args

  abbrev pub cout : List Arg → Cmd S (Unit {0})
  cout args = printf "" args

  module _ {I : Type 0} (drv : Driver S I) where
    pub prom_words : ℕ → ℕ → List ℕ → I → Cmd S (Bool × I)
    prom_words zero i bytes itf = pure (true, itf)
    prom_words (suc left) i bytes itf = do
      word ← load_u32 bytes (i * 4)
      (done, itf') ← drv.write_quadlet ((0x2000 + i) % 2 ^ 16) (bswap_32 word) itf
      if done then prom_words left (i + 1) bytes itf' else pure (false, itf')

    pub write_prom_data : List ℕ → ℕ → I → Cmd S (Bool × I)
    write_prom_data bytes n_bytes itf = prom_words (quads n_bytes % 2 ^ 16) 0 bytes itf

  -- The clock that GetCurTime reads, and a time of `a` less `b` as it is printed in microseconds.
  module _ (now : S → ℕ) (us : ℕ → ℕ → Arg) where
    abbrev pub get_cur_time : Cmd S ℕ
    get_cur_time m = ok (now m.hw) m

    -- A local variable that is set to the time if `wanted`.
    abbrev pub time_if : Bool → Cmd S ℕ
    time_if wanted m = ok (if wanted then now m.hw else 0) m

    -- The sum of `left` measurements of the clock itself.
    pub calibrate : ℕ → ℕ → Cmd S ℕ
    calibrate zero sum = pure sum
    calibrate (suc left) sum = do
      start ← get_cur_time
      finish ← get_cur_time
      calibrate left (sum + (finish - start))

    pub set_timing_mode : ℕ → Settings → Cmd S Settings
    set_timing_mode new_mode s =
        if ltb 0 new_mode
        then (do
          sum ← calibrate 10 0
          if s.is_verbose
              then cout_line
                  (text "Calibrated timing overhead of " ∷ us (sum / 10) 0 ∷ text " us" ∷ [])
              else pure tt
          pure (record s { do_timing = new_mode; timing_overhead = sum / 10 }))
        else pure (record s { do_timing = new_mode; timing_overhead = 0 })

    -- What an operation prints of its times.
    pub report_times : String → String → Settings → ℕ → ℕ → ℕ → Cmd S (Unit {0})
    report_times name points s start first second =
        if ltb 0 s.do_timing
        then (do
          finish ← get_cur_time
          let all = if ltb 1 s.do_timing then 3 * s.timing_overhead else s.timing_overhead
          cout_line (text name ∷ text " total time = " ∷ us (finish - start) all ∷ text " us" ∷ [])
          if ltb 1 s.do_timing
              then cout_line (
                  text points
                  ∷ text " times = "
                  ∷ us (first - start) s.timing_overhead
                  ∷ text ", "
                  ∷ us (second - first) s.timing_overhead
                  ∷ text ", "
                  ∷ us (finish - second) s.timing_overhead
                  ∷ text " us"
                  ∷ [])
              else pure tt)
        else pure tt

  -- `lib_version` and `lib_git` are the strings of fpgav3_version.h that the library was built with,
  -- and the others those of the caller.
  pub print_fpgav3_versions : String → String → String → String → Cmd S (Unit {0})
  print_fpgav3_versions lib_version lib_git version git_version = do
    cout (text "Software Version " ∷ text version ∷ [])
    if str_eq git_version version
        then pure tt
        else cout (text " (git " ∷ text git_version ∷ text ")" ∷ [])
    cout_line []
    if str_eq git_version lib_git then pure tt else (do
      cout (text "Library Version " ∷ text lib_version ∷ [])
      if str_eq lib_git lib_version
          then pure tt
          else cout (text " (git " ∷ text lib_git ∷ text ")" ∷ [])
      cout_line [])
