-- ===== src/Memtest/Registers.antt =====
-- platform_standalone/mfg_test_src/memtest.c: bit fields, the lists of register values, and the
-- registers of the DDR controller, of its pins and of the XADC. An `int` is its bit pattern.
pub mod Values
pub mod Fields
pub mod Lists
pub mod Bank
pub mod Drive
mod Examples
use mechatronics_embedded.Base.{
  ℕ, zero, suc, ◌+◌, ◌-◌, ◌*◌, ◌/◌, ◌%◌, ◌^◌, bit_and, bit_or, bit_xor, Option, none, some, List,
  [], ◌∷◌, ltb, ◌==◌, if◌then◌else◌,
}
use mechatronics_embedded.Machine.{
  Device, Cmd, fault, pure, ◌>>=◌, ◌>>◌, printf, in_bounds, load, xil_in32, xil_out32,
}
use mechatronics_embedded.Emio.{bit_not}

-- `x >> k` of a signed int keeps the sign.
unfoldable pub shift_right : ℕ → ℕ → ℕ
shift_right x k = x / 2 ^ k + (if ltb x (2 ^ 31) then 0 else 2 ^ 32 - 2 ^ (32 - k))

-- The loop that builds a mask of `width` ones.
unfoldable pub grow_mask : ℕ → ℕ → ℕ
grow_mask zero mask = mask
grow_mask (suc width) mask = grow_mask width (bit_or (mask * 2 % 2 ^ 32) 1)

unfoldable pub get_bit_field : ℕ → ℕ → ℕ → ℕ
get_bit_field x bstart bwidth = bit_and (shift_right x bstart) (grow_mask bwidth 0)

-- The sum that both steps of set_bit_field make, for a mask.
unfoldable pub put_field : ℕ → ℕ → ℕ → ℕ → ℕ
put_field mask dat lsb val =
    (bit_and dat (bit_not (mask * 2 ^ lsb % 2 ^ 32)) + bit_and val mask * 2 ^ lsb % 2 ^ 32) % 2 ^ 32

unfoldable pub set_bit_field : ℕ → ℕ → ℕ → ℕ → ℕ
set_bit_field dat lsb width val = put_field (grow_mask width 0) dat lsb val

-- A list holds pairs of an address and a content; `none` is a list with fewer than `listsize`
-- pairs.
unfoldable pub update_reglist : List (ℕ × ℕ) → ℕ → ℕ → ℕ → ℕ → ℕ → Option (List (ℕ × ℕ))
update_reglist list zero addr lsb width value = some list
update_reglist [] (suc listsize) addr lsb width value = none
update_reglist ((laddr, ldata) ∷ list) (suc listsize) addr lsb width value =
    let rest = update_reglist list listsize addr lsb width value in
    if laddr == addr
    then some ((laddr, set_bit_field ldata lsb width value) ∷ list)
    else elim rest [ none ↦ none | some list' ↦ some ((laddr, ldata) ∷ list') ]

-- The loop of get_reglist_value, with the content that was read last.
unfoldable pub find_value : List (ℕ × ℕ) → ℕ → ℕ → ℕ → ℕ → ℕ → Option ℕ
find_value list zero addr lsb width ldata = some ldata
find_value [] (suc listsize) addr lsb width ldata = none
find_value ((laddr, ldata') ∷ list) (suc listsize) addr lsb width ldata =
    let rest = find_value list listsize addr lsb width ldata' in
    if laddr == addr then some (get_bit_field ldata' lsb width) else rest

unfoldable pub get_reglist_value : List (ℕ × ℕ) → ℕ → ℕ → ℕ → ℕ → Option ℕ
get_reglist_value list listsize addr lsb width = find_value list listsize addr lsb width 0xffffffff

-- The delay loop.
noop_rounds : ℕ → ℕ → ℕ → ℕ
noop_rounds zero a b = b
noop_rounds (suc n) a b =
    let a' = bit_xor (shift_right b 5) (b * 2 ^ 6 % 2 ^ 32) in
    noop_rounds n a' (bit_xor (shift_right a' 3) (a' * 2 ^ 5 % 2 ^ 32))

pub noop : ℕ → ℕ
noop n = noop_rounds n 0x12345678 0x9f3d1046

module _ {S : Type 0} (dev : Device S) where
  unfoldable pub unlock_slcr : Cmd S (Unit {0})
  unlock_slcr = xil_out32 dev 0xf8000008 0xdf0d

  pub ddr_nonsecure : Cmd S (Unit {0})
  ddr_nonsecure = xil_out32 dev 0xf8000430 0xffffffff

  -- The loop of ddrc_init.
  pub write_regs : ℕ → List (ℕ × ℕ) → Cmd S (Unit {0})
  write_regs zero list = pure tt
  write_regs (suc n) [] = λ _. fault
  write_regs (suc n) ((addr, dat) ∷ list) = do xil_out32 dev addr dat; write_regs n list

  pub ddrc_init : List (ℕ × ℕ) → Cmd S (Unit {0})
  ddrc_init ddrc_reg_values = write_regs 80 ddrc_reg_values

  -- The loop of ddriob_get.
  pub refresh_regs : ℕ → List (ℕ × ℕ) → Cmd S (List (ℕ × ℕ))
  refresh_regs zero list = pure list
  refresh_regs (suc n) [] = λ _. fault
  refresh_regs (suc n) ((addr, old) ∷ list) = do
    dat ← xil_in32 dev addr
    xil_out32 dev addr dat
    list' ← refresh_regs n list
    pure ((addr, dat) ∷ list')

  pub ddriob_get : List (ℕ × ℕ) → Cmd S (List (ℕ × ℕ))
  ddriob_get ddriob_reg_values = do
    list ← refresh_regs 15 ddriob_reg_values
    printf "    ** read all ddriob regs \r\n" []
    pure list

  -- The loop of ddrc_get.
  pub read_regs : ℕ → List (ℕ × ℕ) → Cmd S (List (ℕ × ℕ))
  read_regs zero list = pure list
  read_regs (suc n) [] = λ _. fault
  read_regs (suc n) ((addr, old) ∷ list) = do
    dat ← xil_in32 dev addr
    list' ← read_regs n list
    pure ((addr, dat) ∷ list')

  pub ddrc_get : List (ℕ × ℕ) → Cmd S (List (ℕ × ℕ))
  ddrc_get ddrc_reg_values = do
    list ← read_regs 80 ddrc_reg_values
    first ← load list 0
    list' ← in_bounds (update_reglist list 80 first.0 0 1 0)
    printf "    ** read all ddrc regs \r\n" []
    pure list'

  pub set_drive_strength : ℕ → ℕ → ℕ → Cmd S (Unit {0})
  set_drive_strength addr driven drivep = do
    dat ← xil_in32 dev addr
    xil_out32 dev addr
        (set_bit_field (set_bit_field dat 7 7 (bit_xor driven 0x028)) 0 7 (bit_xor drivep 0x02c))

  pub set_slew_rate : ℕ → ℕ → ℕ → Cmd S (Unit {0})
  set_slew_rate addr n p = do
    dat ← xil_in32 dev addr
    xil_out32 dev addr (set_bit_field (set_bit_field dat 19 5 n) 14 5 p)

  -- The loop of clear_tdm_idm over `n` registers from number `i` on.
  pub clear_modes : ℕ → ℕ → Cmd S (Unit {0})
  clear_modes zero i = pure tt
  clear_modes (suc n) i = do
    dat ← xil_in32 dev (0xf8000b48 + 4 * i)
    xil_out32 dev (0xf8000b48 + 4 * i) (bit_and dat 0xfffffe7f)
    clear_modes n (i + 1)

  pub clear_tdm_idm : Cmd S (Unit {0})
  clear_tdm_idm = clear_modes 4 0
