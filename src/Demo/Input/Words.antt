-- ===== src/Demo/Input/Words.antt =====
-- get_input, against the words of the line: the pieces between spaces that are not empty.
use mechatronics_embedded.Base.{
  ℕ, ◌≤◌, ◌<◌, ◌≡◌, refl, sym, true, false, List, [], ◌∷◌, ◌++◌, arith, length, append-snoc, ◌==◌,
  if◌then◌else◌, Bool-cases, inl, inr,
}
use mathlib.Core.List.{append-nil}
use mechatronics_embedded.Machine.{Event, fault}
use mechatronics_embedded.Machine.Outcome.{Returns}
use mechatronics_embedded.Demo.Input.{get_input}
use mechatronics_embedded.Demo.Input.Rows.{AllRows, Filling}
use mechatronics_embedded.Demo.Input.Split.{
  words_of, closed_of, AllShort, NoReturn, Holds, machine, read_chars_words,
}
use mechatronics_embedded.Demo.Input.Overflow.{read_chars_faults}

-- The words of a text, from scratch: its pieces between spaces, without the empty ones.
unfoldable pub first_letter : ℕ → List (List ℕ) → List (List ℕ)
first_letter c [] = (c ∷ []) ∷ []
first_letter c (w ∷ ws) = (c ∷ w) ∷ ws

unfoldable pub pieces : List ℕ → List (List ℕ)
pieces [] = [] ∷ []
pieces (c ∷ text) = if c == b' ' then [] ∷ pieces text else first_letter c (pieces text)

unfoldable pub nonempty : List (List ℕ) → List (List ℕ)
nonempty [] = []
nonempty ([] ∷ ws) = nonempty ws
nonempty ((c ∷ w) ∷ ws) = (c ∷ w) ∷ nonempty ws

unfoldable pub words : List ℕ → List (List ℕ)
unfolding first_letter pieces nonempty
words text = nonempty (pieces text)

prepend : List ℕ → List (List ℕ) → List (List ℕ)
prepend v [] = v ∷ []
prepend v (w ∷ ws) = (v ++ w) ∷ ws

prepend_letter :
    (v : List ℕ) (c : ℕ) (ws : List (List ℕ))
    → prepend v (first_letter c ws) ≡ prepend (v ++ c ∷ []) ws
unfolding prepend first_letter
prepend_letter v c [] = refl
prepend_letter v c (w ∷ ws) = rw (append-snoc v w c)

nonempty-prepend :
    (c : ℕ) (cur : List ℕ) (ws : List (List ℕ))
    → nonempty (prepend (c ∷ cur) ([] ∷ ws)) ≡ (c ∷ cur) ∷ nonempty ws
unfolding prepend nonempty
nonempty-prepend c cur ws = rw append-nil

first_letter_lem : (c : ℕ) (ws : List (List ℕ)) → prepend (c ∷ []) ws ≡ first_letter c ws
unfolding prepend first_letter
first_letter_lem c [] = refl
first_letter_lem c (w ∷ ws) = refl

-- The scan with a current word finds the same words.
words_of_lem :
    (text : List ℕ)
    → (words_of true [] text ≡ nonempty (pieces text))
      × ((c : ℕ) (cur : List ℕ)
          → words_of false (c ∷ cur) text ≡ nonempty (prepend (c ∷ cur) (pieces text)))
unfolding words_of pieces nonempty
words_of_lem [] = (refl, λ c cur. sym (nonempty-prepend c cur []))
words_of_lem (d ∷ text) = elim (Bool-cases (d == b' ')) [
  | inl e ↦ (
    rw e (words_of_lem text).0,
    λ c cur. rw (e, nonempty-prepend c cur (pieces text), (words_of_lem text).0),
  )
  | inr e ↦ (
    rw (e, ← first_letter_lem d (pieces text)) ((words_of_lem text).1 d []),
    λ c cur.
        rw (e, prepend_letter (c ∷ cur) d (pieces text)) ((words_of_lem text).1 c (cur ++ d ∷ [])),
  )
]

words_lem : (text : List ℕ) → words_of true [] text ≡ words text
unfolding words
words_lem text = (words_of_lem text).0

fresh :
    (r : List ℕ) (rest : List (List ℕ))
    → length (r ∷ rest) ≡ 20
    → AllRows (r ∷ rest)
    → Filling 0 0 [] rest [] [] r
fresh r rest twenty wide = record {
  rows_length = refl;
  words_length = refl;
  cur_length = refl;
  strings = tt;
  row_full = omega arith;
  wide = wide.1;
  room = omega arith;
}

-- `argv` before a line: twenty rows.
abbrev pub IsArgv : List (List ℕ) → Type 0
IsArgv argv = (length argv ≡ 20) × AllRows argv

module _ {S : Type 0} (rounds : ℕ) (hw : S) (after text : List ℕ) (trace : List Event) where
  -- For an `argv` of twenty rows of 121 characters and a round for each character of the line, which
  -- has no return before its end: if no word is longer than 120 characters and fewer than twenty are followed by a space, then
  -- get_input returns the number of words, `argv` begins with the words, each with its terminating
  -- zero, and the console input behind the line is untouched.
  pub get_input-words :
      (argv : List (List ℕ))
      → IsArgv argv
      → length text < rounds
      → NoReturn text
      → AllShort (words text)
      → closed_of true text < 20
      → Returns
          (λ (argc, argv') m.
            (argc ≡ length (words text)) × Holds argv' (words text) × (m.input ≡ after))
          (get_input rounds argv (machine hw after text trace))
  unfolding get_input
  get_input-words [] (twenty, wide) enough nr short few = absurd (omega arith)
  get_input-words (r ∷ rest) (twenty, wide) enough nr short few = rw (← words_lem text) (
      read_chars_words hw after rounds 0 0 true text [] rest [] [] r trace enough nr
        (fresh r rest twenty wide) (rw words_lem short) (omega arith) (omega arith))

  -- For an `argv` of twenty rows of 121 characters and a round for each character of the line, which
  -- has no return before its end: if twenty or more words are followed by a space, and none is longer
  -- than 120 characters, then
  -- get_input writes outside `argv`.
  pub get_input_faults :
      (argv : List (List ℕ))
      → IsArgv argv
      → length text < rounds
      → NoReturn text
      → AllShort (words text)
      → 20 ≤ closed_of true text
      → get_input rounds argv (machine hw after text trace) ≡ fault
  unfolding get_input
  get_input_faults [] (twenty, wide) enough nr short many = absurd (omega arith)
  get_input_faults (r ∷ rest) (twenty, wide) enough nr short many =
      read_chars_faults hw after rounds 0 0 true text [] rest [] [] r trace enough nr
        (fresh r rest twenty wide) (rw words_lem short) (omega arith) (omega arith)
