-- ===== src/Demo/Examples.antt =====
-- The theorems on the demo application at concrete inputs.
use mechatronics_embedded.Base.{
  false, ℕ, zero, suc, ◌+◌, ◌-◌, ◌≡◌, refl, List, [], ◌∷◌, ◌++◌, arith, ltb, if◌then◌else◌,
  replicate, Bool-cases, inl, inr,
}
use mechatronics_embedded.Machine.{fault}
use mechatronics_embedded.Machine.Outcome.{Returns}
use mechatronics_embedded.Emio.{quads, get_version, set_data_input}
use mechatronics_embedded.Emio.Toy.{toy, toy_in, toy_out, status, start, toy-Prompt, toy_firmware}
use mechatronics_embedded.Machine.Text.{c_string}
use mechatronics_embedded.Demo.Numbers.{get_hex, get_dec, digits_of, Hexadecimal, get_hex-digits_of}
use mechatronics_embedded.Demo.Input.{get_input}
use mechatronics_embedded.Demo.Input.Split.{Holds, AllShort, NoReturn, machine, closed_of}
use mechatronics_embedded.Demo.Input.Words.{
  words, first_letter, pieces, nonempty, get_input-words, get_input_faults,
}
use mechatronics_embedded.Demo.Input.Rows.{AllRows}
use mechatronics_embedded.Demo.Commands.{quad_command, block_command}
use mechatronics_embedded.Demo.Commands.Quad.{quad_command_writes}
use mechatronics_embedded.Demo.Commands.Write.{BlockWritten, block_command_writes}
use mechatronics_embedded.Emio.RegisterFile.{update}
use mechatronics_embedded.Demo.Commands.Read.{BlockRead, block_command_reads}
use mechatronics_embedded.Demo.Commands.Overflow.{block_command_overflows}

abbrev symbol : ℕ → ℕ
symbol d = if ltb d 10 then b'0' + d else b'a' + (d - 10)

symbol-Hexadecimal : Hexadecimal symbol
symbol-Hexadecimal d h = elim (Bool-cases (ltb d 10)) [
  | inl few ↦ rw few (inl (ground arith, refl))
  | inr many ↦ rw many (inr (inl (ground arith, refl)))
]

-- "0beef", followed by a space.
get_hex-digits_of_example : get_hex (digits_of 16 symbol 5 0xbeef ++ b' ' ∷ []) ≡ 0xbeef
get_hex-digits_of_example =
    get_hex-digits_of symbol 5 0xbeef (b' ' ∷ []) symbol-Hexadecimal (omega arith) (omega arith)
      (inl (omega arith), inl (omega arith), inl (omega arith))

abbrev rows : List (List ℕ)
rows = replicate 20 (replicate 121 0)

rows-AllRows : (n : ℕ) → AllRows (replicate n (replicate 121 0))
rows-AllRows zero = tt
rows-AllRows (suc n) = (refl, rows-AllRows n)

-- "quad 0 "
abbrev quad_line : List ℕ
quad_line = b'q' ∷ b'u' ∷ b'a' ∷ b'd' ∷ b' ' ∷ b'0' ∷ b' ' ∷ []

abbrev quad_words : List (List ℕ)
quad_words = (b'q' ∷ b'u' ∷ b'a' ∷ b'd' ∷ []) ∷ (b'0' ∷ []) ∷ []

get_input-words_example :
    Returns
      (λ (argc, argv) m. (argc ≡ 2) × Holds argv quad_words × (m.input ≡ []))
      (get_input 100 rows (machine start.hw [] quad_line []))
unfolding words first_letter pieces nonempty closed_of
get_input-words_example =
    get_input-words 100 start.hw [] quad_line [] rows (refl, rows-AllRows 20) (omega arith)
      (refl, (refl, (refl, (refl, (refl, (refl, (refl, tt))))))) (omega arith, (omega arith, tt))
      (omega arith)

-- Twenty words, each with a space behind it.
abbrev long_line : ℕ → List ℕ
long_line zero = []
long_line (suc n) = b'x' ∷ b' ' ∷ long_line n

long_line-NoReturn : (n : ℕ) → NoReturn (long_line n)
long_line-NoReturn zero = tt
long_line-NoReturn (suc n) = (refl, (refl, long_line-NoReturn n))

long_line-AllShort : (n : ℕ) → AllShort (words (long_line n))
unfolding words first_letter pieces nonempty
long_line-AllShort zero = tt
long_line-AllShort (suc n) = (omega arith, long_line-AllShort n)

get_input_faults_example : get_input 100 rows (machine start.hw [] (long_line 20) []) ≡ fault
unfolding closed_of
get_input_faults_example =
    get_input_faults 100 start.hw [] (long_line 20) [] rows (refl, rows-AllRows 20) (omega arith)
      (long_line-NoReturn 20) (long_line-AllShort 20) (omega arith)

abbrev block_words : List ℕ → List (List ℕ)
block_words count = (b'b' ∷ 0 ∷ []) ∷ (b'7' ∷ 0 ∷ []) ∷ count ∷ []

-- "99"
block_command_reads_example :
    Returns
      (BlockRead toy 7 32 (replicate 32 0) start)
      (block_command toy 1 3 (block_words (b'9' ∷ b'9' ∷ 0 ∷ [])) (replicate 32 0) start)
unfolding get_dec get_hex c_string
block_command_reads_example =
    block_command_reads toy 2 1 (b'b' ∷ 0 ∷ []) (b'7' ∷ 0 ∷ []) (b'9' ∷ b'9' ∷ 0 ∷ []) []
      (replicate 32 0) start toy-Prompt (omega arith) refl (omega arith)

-- "2147483681" is 2 ^ 31 + 33.
abbrev huge : List ℕ
huge = b'2' ∷ b'1' ∷ b'4' ∷ b'7' ∷ b'4' ∷ b'8' ∷ b'3' ∷ b'6' ∷ b'8' ∷ b'1' ∷ 0 ∷ []

block_command_overflows_example :
    block_command toy 1 3 (block_words huge) (replicate 32 0) start ≡ fault
unfolding get_dec c_string quads get_version set_data_input toy toy_in toy_out status
block_command_overflows_example =
    block_command_overflows toy 2 1 (b'b' ∷ 0 ∷ []) (b'7' ∷ 0 ∷ []) huge [] (replicate 32 0) start _
      _ toy-Prompt (omega arith) refl (omega arith) (omega arith) (omega arith) refl refl

-- "block", "7", "9", "1", "ff": two data words for a count of nine.
block_command_writes_example :
    Returns
      (BlockWritten toy 7 ((b'1' ∷ 0 ∷ []) ∷ (b'f' ∷ b'f' ∷ 0 ∷ []) ∷ []) (replicate 32 0) start)
      (block_command toy 1 5
        ((b'b' ∷ 0 ∷ [])
          ∷ (b'7' ∷ 0 ∷ [])
          ∷ (b'9' ∷ 0 ∷ [])
          ∷ (b'1' ∷ 0 ∷ [])
          ∷ (b'f' ∷ b'f' ∷ 0 ∷ [])
          ∷ [])
        (replicate 32 0)
        start)
unfolding get_dec get_hex c_string
block_command_writes_example =
    block_command_writes toy 2 1 (b'b' ∷ 0 ∷ []) (b'7' ∷ 0 ∷ []) (b'9' ∷ 0 ∷ [])
      ((b'1' ∷ 0 ∷ []) ∷ (b'f' ∷ b'f' ∷ 0 ∷ []) ∷ []) [] (replicate 32 0) start toy-Prompt
      (omega arith) (omega arith) (omega arith) refl (omega arith)

quad_command_writes_example :
    Returns
      (λ buffer m.
        (buffer ≡ 0xbeef ∷ replicate 31 0)
        × (m.hw.bus.regs ≡ update start.hw.bus.regs 12 0xbeef)
        × (m.hw.bus.requested ≡ false))
      (quad_command toy 1 3
        ((b'q' ∷ 0 ∷ []) ∷ (b'c' ∷ 0 ∷ []) ∷ (b'b' ∷ b'e' ∷ b'e' ∷ b'f' ∷ 0 ∷ []) ∷ [])
        (replicate 32 0)
        start)
unfolding toy_firmware get_hex c_string
quad_command_writes_example =
    quad_command_writes toy_firmware 1 (omega arith) (b'q' ∷ 0 ∷ []) (b'c' ∷ 0 ∷ []) 0
      (replicate 31 0) start refl (b'b' ∷ b'e' ∷ b'e' ∷ b'f' ∷ 0 ∷ []) [] 3 (omega arith)
