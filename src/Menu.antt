-- ===== src/Menu.antt =====
-- platform_standalone/mfg_test_src/menu.c and fsbl_hooks.c: the menu of the manufacturing test, the
-- test of the board's rotary switch, and the hook that starts the menu.
pub mod Bits
pub mod Switch
pub mod Rotation
mod Examples
use mechatronics_embedded.Base.{
  ℕ, zero, suc, ◌+◌, ◌/◌, ◌^◌, bit_and, bit_or, Bool, true, false, not, ◌&&◌, Option, none, some,
  List, [], ◌∷◌, String, leb, ◌==◌, if◌then◌else◌,
}
use mechatronics_embedded.Machine.{
  Device, Cmd, num, ok, waiting, pure, ◌>>=◌, ◌>>◌, printf, inbyte, outbyte, usleep,
}
use mechatronics_embedded.Machine.Text.{has_prefix}
use mechatronics_embedded.Emio.{any_set, init, read_quadlet, write_prom_data}
use mechatronics_embedded.Fsbl.{Bsp, xst_success, copy_serial, fsbl_printf}

-- The local variables of TestBoardID. `debounce` counts rounds of 10 ms.
pub record Ids : Type 0 where
  pub switch_ok : ℕ
  pub last_id : ℕ
  pub prev_id : ℕ
  pub debounce : ℕ

abbrev pub no_ids : Ids
no_ids = record { switch_ok = 0; last_id = 16; prev_id = 16; debounce = 0 }

-- The part of a round before the pause.
unfoldable pub count_id : ℕ → Ids → Ids
count_id board_id s =
    if board_id == s.prev_id
    then record s { debounce = s.debounce + 1 }
    else record s { prev_id = board_id; debounce = 0 }

-- An id that counts now.
unfoldable pub debounced : ℕ → Ids → Bool
debounced board_id s = not (board_id == s.last_id) && leb 10 s.debounce

-- The marks with that of an id.
unfoldable pub mark : ℕ → ℕ → ℕ
mark board_id marks = if any_set marks (2 ^ board_id) then marks else bit_or marks (2 ^ board_id)

-- The part of a round behind the pause.
unfoldable pub note_id : ℕ → Ids → Ids
note_id board_id s =
    if debounced board_id s
    then record {
      switch_ok = mark board_id s.switch_ok;
      last_id = board_id;
      prev_id = s.prev_id;
      debounce = 0;
    }
    else s

-- A variable with the content `old` after a read.
unfoldable pub read_or : ℕ → Option ℕ → ℕ
read_or old none = old
read_or old (some v) = v

module _ {S : Type 0} (dev : Device S) (fuel : ℕ) where
  -- The message for an id that is new.
  pub show_id : ℕ → Ids → Cmd S (Unit {0})
  show_id board_id s =
      if debounced board_id s && not (any_set s.switch_ok (2 ^ board_id))
      then printf "  Found %d\r\n" (num board_id ∷ [])
      else pure tt

  -- A round; `status0` is what the local variable holds before it is assigned.
  pub id_round : ℕ → Ids → Cmd S Ids
  id_round status0 s = do
    got ← read_quadlet dev fuel 0
    let board_id = bit_and (read_or status0 got) 0x0f000000 / 2 ^ 24
    let counted = count_id board_id s
    usleep 10000
    show_id board_id counted
    pure (note_id board_id counted)

  -- The loop, which has no bound in the source, in at most the given rounds.
  pub find_ids : ℕ → ℕ → Ids → Cmd S (Unit {0})
  find_ids zero status0 s = λ _. waiting
  find_ids (suc rounds) status0 s =
      if s.switch_ok == 0xffff
      then pure tt
      else do s' ← id_round status0 s; find_ids rounds status0 s'

  pub test_board_id : ℕ → ℕ → Cmd S Bool
  test_board_id rounds status0 = do
    printf "Rotate switch to all 16 settings\r\n" []
    find_ids rounds status0 no_ids
    printf "\r\n" []
    pure true

  -- `self_test` is QspiPsSelfTestExample, and `memtest_run` the console of the memory test.
  module _ (bsp : Bsp S) (endian_swap32 : ℕ → ℕ) (init_flash self_test : Cmd S ℕ)
      (memtest_run : Cmd S (Unit {0})) where
    pub test_qspi : Cmd S Bool
    test_qspi = do
      status ← self_test
      if status == 0
          then (do printf "QSPI Test PASS\r\n\r\n" []; pure true)
          else (do printf "QSPI Test FAIL\r\n\r\n" []; pure false)

    pub test_memory : Cmd S Bool
    test_memory = do memtest_run; printf "... Finished\r\n\r\n" []; pure true

    -- The serial number, from the flash to the FPGA.
    pub menu_serial : Cmd S (Unit {0})
    menu_serial = do
      ready ← init_flash
      if not (ready == xst_success)
          then printf "Failed to initialize QSPI\r\n" []
          else copy_serial bsp dev endian_swap32 fuel

    -- The test for an option.
    pub run_option : ℕ → ℕ → ℕ → Cmd S (Unit {0})
    run_option rounds status0 option =
        if option == b'1'
        then (do _ ← test_board_id rounds status0; pure tt)
        else if option == b'2'
        then (do _ ← test_qspi; pure tt)
        else if option == b'3'
        then (do _ ← test_memory; pure tt)
        else pure tt

    -- The menu's loop, in at most the given number of choices.
    pub choose : ℕ → ℕ → ℕ → ℕ → Cmd S (Unit {0})
    choose zero rounds status0 option = λ _. waiting
    choose (suc choices) rounds status0 option = if option == b'0' then pure tt else (do
      printf "0) Exit\r\n" []
      printf "1) Test board id\r\n" []
      printf "2) Test QSPI\r\n" []
      printf "3) Test memory\r\n" []
      printf "Enter selection:\r\n" []
      option' ← inbyte
      if option' == b'\r' then outbyte b'\n' else pure tt
      printf "\n\rOption Selected : %c" (num option' ∷ [])
      outbyte option'
      printf "\n\n" []
      run_option rounds status0 option'
      choose choices rounds status0 option')

    pub menu : ℕ → ℕ → ℕ → Cmd S (Unit {0})
    menu choices rounds status0 = do
      init dev
      menu_serial
      printf "\r\n" []
      choose choices rounds status0 1
      printf "Exiting\r\n" []

    -- The hook of fsbl_hooks.c.
    pub before_handoff_menu : ℕ → ℕ → ℕ → Cmd S ℕ
    before_handoff_menu choices rounds status0 = do
      fsbl_printf bsp "In FsblHookBeforeHandoff function \r\n"
      menu choices rounds status0
      pure xst_success
