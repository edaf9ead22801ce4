-- ===== src/Demo/Input/Overflow.antt =====
-- get_input leaves `argv` once twenty words were followed by a space.
use mechatronics_embedded.Base.{
  ℕ, zero, suc, ◌+◌, ◌≤◌, ◌<◌, ◌≡◌, Bool, true, false, List, [], ◌∷◌, ◌++◌, arith, length,
  length-append, ◌==◌, Bool-cases, inl, inr,
}
use mechatronics_embedded.Machine.{Event, echoed, fault}
use mechatronics_embedded.Demo.Input.{take_char, add_char, finish, read_chars}
use mechatronics_embedded.Demo.Input.Rows.{
  Filling, Filling-add, Filling-end, line, put_outside, end_arg_full,
}
use mechatronics_embedded.Demo.Input.Split.{
  words_of, closed_of, AllShort, NoReturn, machine, read_skip, read_add, read_end, letter_fits,
}

module _ {S : Type 0} (hw : S) (after : List ℕ) where
  full_faults :
      (n : ℕ) (text : List ℕ) (argv : List (List ℕ)) (trace : List Event)
      → length text < n
      → NoReturn text
      → length argv ≤ 20
      → read_chars n (line 20 0 true argv) (machine hw after text trace) ≡ fault
  unfolding read_chars take_char add_char finish
  full_faults zero text argv trace enough nr h = elim enough [ ]
  full_faults (suc n) [] argv trace enough nr h = rw (put_outside argv 20 0 0 _ h)
  full_faults (suc n) (c ∷ text) argv trace enough nr h = elim (Bool-cases (c == b' ')) [
    | inl e ↦ rw (nr.0, e) (full_faults n text argv _ (omega arith) nr.1 h)
    | inr e ↦ rw (nr.0, e, put_outside argv 20 0 c _ h)
  ]

  read_full :
      (n argc at c : ℕ) (text : List ℕ) {rows words : List (List ℕ)} {cur : List ℕ} {x : ℕ}
      {junk : List ℕ} (trace : List Event)
      → (c == b'\r') ≡ false
      → (c == b' ') ≡ true
      → Filling argc at rows [] words cur (x ∷ junk)
      → read_chars
          (suc n)
          (line argc at false (rows ++ (cur ++ x ∷ junk) ∷ []))
          (machine hw after (c ∷ text) trace)
        ≡ read_chars n
            (line 20 0 true (rows ++ (cur ++ 0 ∷ junk) ∷ []))
            (machine hw after text (echoed c ∷ trace))
  unfolding read_chars take_char
  read_full n argc at c text trace nr e f =
      rw (nr, e, end_arg_full (machine hw after text (echoed c ∷ trace)) f)

  pub read_chars_faults :
      (n argc at : ℕ) (space : Bool) (text : List ℕ) (rows rest words : List (List ℕ))
      (cur junk : List ℕ) (trace : List Event)
      → length text < n
      → NoReturn text
      → Filling argc at rows rest words cur junk
      → AllShort (words_of space cur text)
      → 20 ≤ argc + closed_of space text
      → at ≤ 120
      → read_chars n
          (line argc at space (rows ++ (cur ++ junk) ∷ rest))
          (machine hw after text trace)
        ≡ fault
  unfolding words_of closed_of
  read_chars_faults zero argc at space text rows rest words cur junk tr enough nr f short many fit =
      elim enough [ ]
  read_chars_faults (suc n) argc at space text rows rest words cur [] tr enough nr f short many
        fit =
      absurd (omega (arith, f.row_full))
  read_chars_faults (suc n) argc at space [] rows rest words cur (x ∷ junk) tr enough nr f short
        many fit =
      absurd (omega (arith, f.room))
  read_chars_faults (suc n) argc at true (c ∷ text) rows rest words cur (x ∷ junk) tr enough nr f
        short many fit =
      elim (Bool-cases (c == b' ')) [
        | inl e ↦
            rw (read_skip hw after n argc at c text (rows ++ (cur ++ x ∷ junk) ∷ rest) tr nr.0 e) (
              read_chars_faults n argc at true text rows rest words cur (x ∷ junk) _ (omega arith)
                nr.1 f (rw e at short) (rw e at many) fit)
        | inr e ↦
            let less = letter_fits hw after c text f (rw e at short) in
            rw (read_add hw after n argc at true c text tr nr.0 e f less) (
              read_chars_faults n argc (at + 1) false text rows rest words (cur ++ c ∷ []) junk _
                (omega arith) nr.1 (Filling-add c f) (rw e at short) (rw e at many) (omega arith))
      ]
  read_chars_faults (suc n) argc at false (c ∷ text) rows [] words cur (x ∷ junk) tr enough nr f
        short many fit =
      elim (Bool-cases (c == b' ')) [
        | inl e ↦ rw (read_full n argc at c text tr nr.0 e f) (
            full_faults n text (rows ++ (cur ++ 0 ∷ junk) ∷ []) _ (omega arith) nr.1
              (omega (arith, length-append rows ((cur ++ 0 ∷ junk) ∷ []), f.rows_length, f.room)))
        | inr e ↦
            let less = letter_fits hw after c text f (rw e at short) in
            rw (read_add hw after n argc at false c text tr nr.0 e f less) (
              read_chars_faults n argc (at + 1) false text rows [] words (cur ++ c ∷ []) junk _
                (omega arith) nr.1 (Filling-add c f) (rw e at short) (rw e at many) (omega arith))
      ]
  read_chars_faults (suc n) argc at false (c ∷ text) rows (r ∷ rest) words cur (x ∷ junk) tr enough
        nr f short many fit =
      elim (Bool-cases (c == b' ')) [
        | inl e ↦ rw (read_end hw after n argc at c text tr nr.0 e f) (
            read_chars_faults n (argc + 1) 0 true text (rows ++ (cur ++ 0 ∷ junk) ∷ []) rest
              (words ++ cur ∷ []) [] r _ (omega arith) nr.1 (Filling-end f) (rw e at short).1
              (omega (arith, rw e at many)) (omega arith))
        | inr e ↦
            let less = letter_fits hw after c text f (rw e at short) in
            rw (read_add hw after n argc at false c text tr nr.0 e f less) (
              read_chars_faults n argc (at + 1) false text rows (r ∷ rest) words (cur ++ c ∷ [])
                junk _ (omega arith) nr.1 (Filling-add c f) (rw e at short) (rw e at many)
                (omega arith))
      ]
