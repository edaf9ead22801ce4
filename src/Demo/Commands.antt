-- ===== src/Demo/Commands.antt =====
-- main of the demo application: the prompt, and the commands help, quad and block.

pub mod Quad
pub mod Read
pub mod Write
pub mod Overflow
use mechatronics_embedded.Base.{
  int_lt, ℕ, zero, suc, ◌+◌, ◌-◌, ◌*◌, ◌%◌, ◌^◌, Bool, true, false, not, ◌&&◌, Option, none, some,
  String, List, [], ◌∷◌, ltb, ◌==◌, if◌then◌else◌, replicate,
}
use mechatronics_embedded.Machine.{
  Device, Cmd, num, text, chars, pure, ◌>>=◌, ◌>>◌, printf, load, store,
}
use mechatronics_embedded.Machine.Text.{c_string}
use mechatronics_embedded.Emio.{
  init, get_version, read_quadlet, write_quadlet, read_block, write_block,
}
use mechatronics_embedded.Demo.Numbers.{get_hex, get_dec}
use mechatronics_embedded.Demo.Input.{get_input}

abbrev pub max_quads : ℕ
max_quads = 32

-- How often `for (int i = 0; i < num; i++)` runs.
abbrev pub rounds_of : ℕ → ℕ
rounds_of n = if int_lt 0 n then n else 0

-- `strcmp(a, b) == 0`
unfoldable pub same_text : List ℕ → List ℕ → Bool
same_text [] [] = true
same_text [] (b ∷ bs) = false
same_text (a ∷ as') [] = false
same_text (a ∷ as') (b ∷ bs) = a == b && same_text as' bs

abbrev help_name : List ℕ
help_name = b'h' ∷ b'e' ∷ b'l' ∷ b'p' ∷ []

abbrev quad_name : List ℕ
quad_name = b'q' ∷ b'u' ∷ b'a' ∷ b'd' ∷ []

abbrev block_name : List ℕ
block_name = b'b' ∷ b'l' ∷ b'o' ∷ b'c' ∷ b'k' ∷ []

module _ {S : Type 0} where
  unfoldable pub arg : List (List ℕ) → ℕ → Cmd S (List ℕ)
  arg argv i = do row ← load argv i; pure (c_string row)

  print_help : Cmd S (Unit {0})
  print_help = do
    printf "Available commands (hex:/dec: indicate hexadecimal or decimal):\r\n" []
    printf "  quad <addr>                       - quadlet read from <hex:addr>\r\n" []
    printf "  quad <addr> <data>                - quadlet write <hex:data> to <hex:addr>\r\n" []
    printf "  block <addr> <num>                - block read <dec:num> quadlets from <hex:addr>\r\n"
        []
    printf
        "  block <addr> <num> <d0> ... <dN>  - block write <dec:num> quadlets to <hex:addr>, where\r\n"
        []
    printf
        "                                         <hex:d0> .. <hex:dN> are the quadlet data (N=num-1)\r\n"
        []
    printf "  help                              - print this message\r\n" []
    printf "\r\n" []

  -- `for (i < num) data[i] = get_hex(argv[3+i])`, with the rounds left.
  pub fill : ℕ → ℕ → List (List ℕ) → List ℕ → Cmd S (List ℕ)
  fill zero i argv quads = pure quads
  fill (suc left) i argv quads = do
    word ← arg argv (3 + i)
    quads' ← store quads i (get_hex word)
    fill left (i + 1) argv quads'

  -- `for (i < num) xil_printf("  %08x\r\n", data[i])`
  pub show : ℕ → ℕ → List ℕ → Cmd S (Unit {0})
  show zero i quads = pure tt
  show (suc left) i quads = do
    v ← load quads i
    printf "  %08x\r\n" (num v ∷ [])
    show left (i + 1) quads

module _ {S : Type 0} (dev : Device S) (fuel : ℕ) where
  pub quad_command : ℕ → List (List ℕ) → List ℕ → Cmd S (List ℕ)
  quad_command argc argv quads = do
    word ← arg argv 1
    let addr = get_hex word % 2 ^ 16
    if ltb 2 argc
        then (do
          value ← arg argv 2
          quads' ← store quads 0 (get_hex value)
          v ← load quads' 0
          done ← write_quadlet dev fuel addr v
          if done then pure quads' else (do printf "Error writing quadlet\r\n" []; pure quads'))
        else (do
          got ← read_quadlet dev fuel addr
          elim got [
            | some v ↦ do quads' ← store quads 0 v; printf "  %08x\r\n" (num v ∷ []); pure quads'
            | none ↦ do printf "Error reading quadlet\r\n" []; pure quads
          ])

  -- `num` limited to the number of data words, with the messages.
  pub limit_words : ℕ → ℕ → Cmd S ℕ
  limit_words argc n =
      if int_lt (argc - 3) n
      then (do
        printf "Not enough quadlets specified (writing %d of %d)\r\n" (num (argc - 3) ∷ num n ∷ [])
        pure (argc - 3))
      else if int_lt n (argc - 3)
      then (do
        printf "Ignoring %d extra quadlets\r\n" (num ((argc - 3 + 2 ^ 32 - n) % 2 ^ 32) ∷ [])
        pure n)
      else pure n

  pub send_block : ℕ → List (List ℕ) → List ℕ → ℕ → Cmd S (List ℕ)
  send_block addr argv quads n = do
    quads' ← fill (rounds_of n) 0 argv quads
    done ← write_block dev fuel addr quads' (n * 4 % 2 ^ 32)
    if done then pure quads' else (do printf "Error writing block\r\n" []; pure quads')

  -- The branch of `block` with data: `n` is `num` after the limit to MAX_QUADS.
  pub block_write : ℕ → ℕ → ℕ → List (List ℕ) → List ℕ → Cmd S (List ℕ)
  block_write addr n argc argv quads = limit_words argc n >>= send_block addr argv quads

  -- The branch without data, and what it prints.
  pub report_read : ℕ → Bool × List ℕ → Cmd S (List ℕ)
  report_read n (true, quads) = do show (rounds_of n) 0 quads; pure quads
  report_read n (false, quads) = do printf "Error reading block\r\n" []; pure quads

  pub block_read : ℕ → ℕ → List ℕ → Cmd S (List ℕ)
  block_read addr n quads = read_block dev fuel addr quads (n * 4 % 2 ^ 32) >>= report_read n

  -- `num` limited to MAX_QUADS.
  pub limit_quads : ℕ → Cmd S ℕ
  limit_quads n =
      if int_lt max_quads n
      then (do printf "Too many quadlets (max %d)\r\n" (num max_quads ∷ []); pure max_quads)
      else pure n

  pub block_command : ℕ → List (List ℕ) → List ℕ → Cmd S (List ℕ)
  block_command argc argv quads = do
    word ← arg argv 1
    count ← arg argv 2
    n ← limit_quads (get_dec count)
    if ltb 3 argc
        then block_write (get_hex word % 2 ^ 16) n argc argv quads
        else block_read (get_hex word % 2 ^ 16) n quads

  -- One command line, which has at least one word.
  pub command : ℕ → List (List ℕ) → List ℕ → Cmd S (List ℕ)
  command argc argv quads = do
    name ← arg argv 0
    if same_text name help_name
        then (do print_help; pure quads)
        else if same_text name quad_name && ltb 1 argc
        then quad_command argc argv quads
        else if same_text name block_name && ltb 2 argc
        then block_command argc argv quads
        else (do
          printf "Unknown command (or too few arguments): %s\r\n" (chars name ∷ [])
          pure quads)

  -- `n` turns of the endless loop of main.
  pub session : ℕ → ℕ → List (List ℕ) → List ℕ → Cmd S (List (List ℕ) × List ℕ)
  session rounds zero argv quads = pure (argv, quads)
  session rounds (suc n) argv quads = do
    printf "fpgav3: " []
    (argc, argv') ← get_input rounds argv
    if argc == 0
        then session rounds n argv' quads
        else (do quads' ← command argc argv' quads; session rounds n argv' quads')

  -- main up to `n` commands. The version strings and their comparison come from the generated
  -- fpgav3_version.h; init_platform is the board support package's.
  pub main :
      (version git_version : String) (same_version : Bool)
      → Cmd S (Unit {0})
      → ℕ
      → ℕ
      → Cmd S (List (List ℕ) × List ℕ)
  main version git_version same_version init_platform rounds n = do
    init_platform
    printf "\r\nSoftware Version %s" (text version ∷ [])
    if same_version then pure tt else printf " (git %s)" (text git_version ∷ [])
    printf "\r\n\n" []
    init dev
    ver ← get_version dev
    printf "EMIO interface version: %d\r\n" (num ver ∷ [])
    printf "Type \"help\" for more information\r\n" []
    session rounds n (replicate 20 (replicate 121 0)) (replicate 32 0)
