-- ===== src/Demo/Input/Split.antt =====
-- get_input returns the words of the line.
use mechatronics_embedded.Base.{
  ℕ, zero, suc, ◌+◌, ◌≤◌, ◌<◌, ◌≡◌, refl, sym, Bool, true, false, List, [], ◌∷◌, ◌++◌, arith,
  length, length-append, append-snoc, ◌==◌, if◌then◌else◌, Bool-cases, inl, inr,
}
use mathlib.Core.List.{append-nil}
use mechatronics_embedded.Machine.{Machine, Event, echoed}
use mechatronics_embedded.Machine.Outcome.{Returns, returns}
use mechatronics_embedded.Demo.Input.{take_char, finish, read_chars}
use mechatronics_embedded.Demo.Input.Rows.{
  Strings, Strings-snoc, put_lem, Filling, Filling-add, Filling-end, line, add_char_lem,
  end_arg_lem,
}

-- The words of the rest `text` of a line, whose current word has the letters `cur` so far; with
-- `space` the character before was a space.
unfoldable pub words_of : Bool → List ℕ → List ℕ → List (List ℕ)
words_of true cur [] = []
words_of false cur [] = cur ∷ []
words_of true cur (c ∷ text) =
    if c == b' ' then words_of true cur text else words_of false (cur ++ c ∷ []) text
words_of false cur (c ∷ text) =
    if c == b' ' then cur ∷ words_of true [] text else words_of false (cur ++ c ∷ []) text

-- How many words of the rest are followed by a space.
unfoldable pub closed_of : Bool → List ℕ → ℕ
closed_of space [] = 0
closed_of true (c ∷ text) = if c == b' ' then closed_of true text else closed_of false text
closed_of false (c ∷ text) = if c == b' ' then suc (closed_of true text) else closed_of false text

abbrev pub AllShort : List (List ℕ) → Type 0
AllShort [] = Unit
AllShort (w ∷ words) = (length w ≤ 120) × AllShort words

abbrev pub NoReturn : List ℕ → Type 0
NoReturn [] = Unit
NoReturn (c ∷ text) = ((c == b'\r') ≡ false) × NoReturn text

-- `argv` begins with the given strings.
abbrev pub Holds : List (List ℕ) → List (List ℕ) → Type 0
Holds argv words =
    (rows : List (List ℕ)) × (rest : List (List ℕ)) × (argv ≡ rows ++ rest) × Strings rows words

cur_short : (cur text : List ℕ) → AllShort (words_of false cur text) → length cur ≤ 120
unfolding words_of
cur_short cur [] h = h.0
cur_short cur (c ∷ text) h = elim (Bool-cases (c == b' ')) [
  | inl e ↦ (rw e at h).0
  | inr e ↦ omega (arith, length-append cur (c ∷ []), cur_short (cur ++ c ∷ []) text (rw e at h))
]

module _ {S : Type 0} (hw : S) (after : List ℕ) where
  abbrev pub machine : List ℕ → List Event → Machine S
  machine text trace = record { hw = hw; input = text ++ b'\r' ∷ after; trace = trace }

  abbrev Done : List (List ℕ) → ℕ × List (List ℕ) → Machine S → Type 0
  Done words (argc, argv) m = (argc ≡ length words) × Holds argv words × (m.input ≡ after)

  finish_words :
      (space : Bool) (argc at : ℕ) (rows rest words : List (List ℕ)) (cur : List ℕ) (x : ℕ)
      (junk : List ℕ) (m : Machine S)
      → m.input ≡ after
      → length rows ≡ argc
      → length words ≡ argc
      → length cur ≡ at
      → Strings rows words
      → Returns
          (Done (words ++ words_of space cur []))
          (finish (line argc at space (rows ++ (cur ++ x ∷ junk) ∷ rest)) m)
  unfolding finish words_of
  finish_words true argc at rows rest words cur x junk m i er ew ec st =
      rw (put_lem rows rest cur junk x 0 argc at _ er ec) (
        returns (
          omega (arith, length-append words []),
          (rows, (cur ++ 0 ∷ junk) ∷ rest, refl, rw append-nil st),
          i,
        ))
  finish_words false argc at rows rest words cur x junk m i er ew ec st =
      rw (put_lem rows rest cur junk x 0 argc at _ er ec) (
        returns (
          omega (arith, length-append words (cur ∷ [])),
          (
            rows ++ (cur ++ 0 ∷ junk) ∷ [],
            rest,
            sym (append-snoc rows rest (cur ++ 0 ∷ junk)),
            Strings-snoc rows words cur junk st,
          ),
          i,
        ))

  finish_line :
      (n argc at : ℕ) (space : Bool) (rows rest words : List (List ℕ)) (cur : List ℕ) (x : ℕ)
      (junk : List ℕ) (trace : List Event)
      → Filling argc at rows rest words cur (x ∷ junk)
      → Returns (Done (words ++ words_of space cur [])) (
          read_chars
            (suc n)
            (line argc at space (rows ++ (cur ++ x ∷ junk) ∷ rest))
            (machine [] trace))
  unfolding read_chars
  finish_line n argc at space rows rest words cur x junk trace f =
      finish_words space argc at rows rest words cur x junk _ refl f.rows_length f.words_length
        f.cur_length f.strings

  pub read_skip :
      (n argc at c : ℕ) (text : List ℕ) (argv : List (List ℕ)) (trace : List Event)
      → (c == b'\r') ≡ false
      → (c == b' ') ≡ true
      → read_chars (suc n) (line argc at true argv) (machine (c ∷ text) trace)
        ≡ read_chars n (line argc at true argv) (machine text (echoed c ∷ trace))
  unfolding read_chars take_char
  read_skip n argc at c text argv trace nr e = rw (nr, e)

  -- A letter and a space that ends a word, as steps of the loop.
  pub read_add :
      (n argc at : ℕ) (space : Bool) (c : ℕ) (text : List ℕ) {rows rest words : List (List ℕ)}
      {cur : List ℕ} {x : ℕ} {junk : List ℕ} (trace : List Event)
      → (c == b'\r') ≡ false
      → (c == b' ') ≡ false
      → Filling argc at rows rest words cur (x ∷ junk)
      → at < 120
      → read_chars
          (suc n)
          (line argc at space (rows ++ (cur ++ x ∷ junk) ∷ rest))
          (machine (c ∷ text) trace)
        ≡ read_chars n
            (line argc (at + 1) false (rows ++ ((cur ++ c ∷ []) ++ junk) ∷ rest))
            (machine text (echoed c ∷ trace))
  unfolding read_chars take_char
  read_add n argc at true c text trace nr e f less =
      rw (nr, e, add_char_lem c (machine text (echoed c ∷ trace)) f less)
  read_add n argc at false c text trace nr e f less =
      rw (nr, e, add_char_lem c (machine text (echoed c ∷ trace)) f less)

  pub read_end :
      (n argc at c : ℕ) (text : List ℕ) {rows rest words : List (List ℕ)} {cur r : List ℕ} {x : ℕ}
      {junk : List ℕ} (trace : List Event)
      → (c == b'\r') ≡ false
      → (c == b' ') ≡ true
      → Filling argc at rows (r ∷ rest) words cur (x ∷ junk)
      → read_chars
          (suc n)
          (line argc at false (rows ++ (cur ++ x ∷ junk) ∷ r ∷ rest))
          (machine (c ∷ text) trace)
        ≡ read_chars n
            (line (argc + 1) 0 true ((rows ++ (cur ++ 0 ∷ junk) ∷ []) ++ r ∷ rest))
            (machine text (echoed c ∷ trace))
  unfolding read_chars take_char
  read_end n argc at c text trace nr e f =
      rw (nr, e, end_arg_lem (machine text (echoed c ∷ trace)) f)

  pub letter_fits :
      {argc at : ℕ} {rows rest words : List (List ℕ)} {cur junk : List ℕ} (c : ℕ) (text : List ℕ)
      → Filling argc at rows rest words cur junk
      → AllShort (words_of false (cur ++ c ∷ []) text)
      → at < 120
  letter_fits {cur = cur} c text f short =
      omega (arith, length-append cur (c ∷ []), cur_short (cur ++ c ∷ []) text short, f.cur_length)

  pub read_chars_words :
      (n argc at : ℕ) (space : Bool) (text : List ℕ) (rows rest words : List (List ℕ))
      (cur junk : List ℕ) (trace : List Event)
      → length text < n
      → NoReturn text
      → Filling argc at rows rest words cur junk
      → AllShort (words_of space cur text)
      → argc + closed_of space text < 20
      → at ≤ 120
      → Returns
          (Done (words ++ words_of space cur text))
          (read_chars n (line argc at space (rows ++ (cur ++ junk) ∷ rest)) (machine text trace))
  unfolding words_of closed_of
  read_chars_words zero argc at space text rows rest words cur junk tr enough nr f short few fit =
      elim enough [ ]
  read_chars_words (suc n) argc at space text rows rest words cur [] tr enough nr f short few fit =
      absurd (omega (arith, f.row_full))
  read_chars_words (suc n) argc at space [] rows rest words cur (x ∷ junk) tr enough nr f short few
        fit =
      finish_line n argc at space rows rest words cur x junk tr f
  read_chars_words (suc n) argc at true (c ∷ text) rows rest words cur (x ∷ junk) tr enough nr f
        short few fit =
      elim (Bool-cases (c == b' ')) [
        | inl e ↦
            rw (read_skip n argc at c text (rows ++ (cur ++ x ∷ junk) ∷ rest) tr nr.0 e, e)
              (read_chars_words n argc at true text rows rest words cur (x ∷ junk) _ (omega arith)
                nr.1 f (rw e at short) (rw e at few) fit)
        | inr e ↦
            rw
              (read_add n argc at true c text tr nr.0 e f (letter_fits c text f (rw e at short)), e)
              (read_chars_words n argc (at + 1) false text rows rest words (cur ++ c ∷ []) junk _
                (omega arith) nr.1 (Filling-add c f) (rw e at short) (rw e at few)
                (omega (arith, letter_fits c text f (rw e at short))))
      ]
  read_chars_words (suc n) argc at false (c ∷ text) rows [] words cur (x ∷ junk) tr enough nr f
        short few fit =
      elim (Bool-cases (c == b' ')) [
        | inl e ↦ absurd (omega (arith, f.room, rw e at few))
        | inr e ↦
            rw
              (
                read_add n argc at false c text tr nr.0 e f (letter_fits c text f (rw e at short)),
                e,
              )
              (read_chars_words n argc (at + 1) false text rows [] words (cur ++ c ∷ []) junk _
                (omega arith) nr.1 (Filling-add c f) (rw e at short) (rw e at few)
                (omega (arith, letter_fits c text f (rw e at short))))
      ]
  read_chars_words (suc n) argc at false (c ∷ text) rows (r ∷ rest) words cur (x ∷ junk) tr enough
        nr f short few fit =
      elim (Bool-cases (c == b' ')) [
        | inl e ↦
            rw
              (
                read_end n argc at c text tr nr.0 e f,
                e,
                ← append-snoc words (words_of true [] text) cur,
              )
              (read_chars_words n (argc + 1) 0 true text (rows ++ (cur ++ 0 ∷ junk) ∷ []) rest
                (words ++ cur ∷ []) [] r _ (omega arith) nr.1 (Filling-end f) (rw e at short).1
                (omega (arith, rw e at few)) (omega arith))
        | inr e ↦
            rw
              (
                read_add n argc at false c text tr nr.0 e f (letter_fits c text f (rw e at short)),
                e,
              )
              (read_chars_words n argc (at + 1) false text rows (r ∷ rest) words (cur ++ c ∷ [])
                junk _ (omega arith) nr.1 (Filling-add c f) (rw e at short) (rw e at few)
                (omega (arith, letter_fits c text f (rw e at short))))
      ]
