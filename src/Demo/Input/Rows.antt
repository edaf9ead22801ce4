-- ===== src/Demo/Input/Rows.antt =====
-- The rows of `argv` while a line is read: those that hold finished arguments, the one that is being
-- filled, and the rest.
use mechatronics_embedded.Base.{
  ℕ, ◌+◌, ◌≤◌, ◌<◌, ◌≡◌, refl, Bool, true, false, List, [], ◌∷◌, ◌++◌, arith, length, length-append,
  get_elem?-append, set-append, append-snoc, get_elem?-none, lt→ltb,
}
use mechatronics_embedded.Machine.{Machine, ok, fault}
use mechatronics_embedded.Demo.Input.{Line, put, end_arg, add_char}

-- `rows` hold `words`, each with a terminating zero.
abbrev pub Strings : List (List ℕ) → List (List ℕ) → Type 0
Strings [] [] = Unit
Strings [] (w ∷ words) = ⊥
Strings (r ∷ rows) [] = ⊥
Strings (r ∷ rows) (w ∷ words) = ((junk : List ℕ) × (r ≡ w ++ (0 ∷ junk))) × Strings rows words

pub Strings-snoc :
    (rows words : List (List ℕ)) (w junk : List ℕ)
    → Strings rows words
    → Strings (rows ++ (w ++ (0 ∷ junk)) ∷ []) (words ++ w ∷ [])
Strings-snoc [] [] w junk h = ((junk, refl), tt)
Strings-snoc [] (x ∷ words) w junk h = absurd h
Strings-snoc (r ∷ rows) [] w junk h = absurd h
Strings-snoc (r ∷ rows) (x ∷ words) w junk h = (h.0, Strings-snoc rows words w junk h.1)

pub put_lem :
    {S : Type 0} (rows rest : List (List ℕ)) (cur junk : List ℕ) (x c argc at : ℕ) (m : Machine S)
    → length rows ≡ argc
    → length cur ≡ at
    → put (rows ++ (cur ++ x ∷ junk) ∷ rest) argc at c m ≡ ok (rows ++ (cur ++ c ∷ junk) ∷ rest) m
unfolding put
put_lem rows rest cur junk x c argc at m e f = rw (
  ← e,
  ← f,
  get_elem?-append rows rest (cur ++ x ∷ junk),
  lt→ltb (length cur) (length (cur ++ x ∷ junk)) (omega (arith, length-append cur (x ∷ junk))),
  set-append cur junk x c,
  lt→ltb (length rows) (length (rows ++ (cur ++ x ∷ junk) ∷ rest))
      (omega (arith, length-append rows ((cur ++ x ∷ junk) ∷ rest))),
  set-append rows rest (cur ++ x ∷ junk) (cur ++ c ∷ junk),
)

abbrev pub AllRows : List (List ℕ) → Type 0
AllRows [] = Unit
AllRows (r ∷ rows) = (length r ≡ 121) × AllRows rows

-- `argc` finished arguments, `words`, stand in `rows`; the current row starts with the `at` letters
-- `cur`; `rest` are the rows behind it.
pub record Filling (argc at : ℕ) (rows rest words : List (List ℕ)) (cur junk : List ℕ)
    : Type 0 where
  pub rows_length : length rows ≡ argc
  pub words_length : length words ≡ argc
  pub cur_length : length cur ≡ at
  pub strings : Strings rows words
  pub row_full : length cur + length junk ≡ 121
  pub wide : AllRows rest
  pub room : argc + length rest ≡ 19

abbrev pub line : ℕ → ℕ → Bool → List (List ℕ) → Line
line argc at space argv = record {
  argc = argc;
  num_char = at;
  ignore = false;
  is_space = space;
  argv = argv;
}

module _ {argc at : ℕ} {rows rest words : List (List ℕ)} {cur : List ℕ} {x : ℕ}
    {junk : List ℕ} where
  pub Filling-add :
      (c : ℕ)
      → Filling argc at rows rest words cur (x ∷ junk)
      → Filling argc (at + 1) rows rest words (cur ++ c ∷ []) junk
  Filling-add c f = record {
    rows_length = f.rows_length;
    words_length = f.words_length;
    cur_length = omega (arith, length-append cur (c ∷ []));
    strings = f.strings;
    row_full = omega (arith, length-append cur (c ∷ []));
    wide = f.wide;
    room = f.room;
  }

  pub add_char_lem :
      {S : Type 0} (c : ℕ) (m : Machine S)
      → Filling argc at rows rest words cur (x ∷ junk)
      → at < 120
      → add_char c (line argc at false (rows ++ (cur ++ x ∷ junk) ∷ rest)) m
        ≡ ok (true, line argc (at + 1) false (rows ++ ((cur ++ c ∷ []) ++ junk) ∷ rest)) m
  unfolding add_char
  add_char_lem c m f fits = rw (
    lt→ltb at 120 fits,
    put_lem rows rest cur junk x c argc at m f.rows_length f.cur_length,
    append-snoc cur junk c,
  )

module _ {argc at : ℕ} {rows rest words : List (List ℕ)} {cur r : List ℕ} {x : ℕ}
    {junk : List ℕ} where
  pub Filling-end :
      Filling argc at rows (r ∷ rest) words cur (x ∷ junk)
      → Filling (argc + 1) 0 (rows ++ (cur ++ 0 ∷ junk) ∷ []) rest (words ++ cur ∷ []) [] r
  Filling-end f = record {
    rows_length = omega (arith, length-append rows ((cur ++ 0 ∷ junk) ∷ []));
    words_length = omega (arith, length-append words (cur ∷ []));
    cur_length = refl;
    strings = Strings-snoc rows words cur junk f.strings;
    row_full = omega (arith, f.wide.0);
    wide = f.wide.1;
    room = omega arith;
  }

  pub end_arg_lem :
      {S : Type 0} (m : Machine S)
      → Filling argc at rows (r ∷ rest) words cur (x ∷ junk)
      → end_arg (line argc at false (rows ++ (cur ++ x ∷ junk) ∷ r ∷ rest)) m
        ≡ ok (true, line (argc + 1) 0 false ((rows ++ (cur ++ 0 ∷ junk) ∷ []) ++ r ∷ rest)) m
  unfolding end_arg
  end_arg_lem m f = rw (
    put_lem rows (r ∷ rest) cur junk x 0 argc at m f.rows_length f.cur_length,
    lt→ltb argc 20 (omega arith),
    append-snoc rows (r ∷ rest) (cur ++ 0 ∷ junk),
  )

-- A row behind the last one: every write to it leaves the array.
pub put_outside :
    {S : Type 0} (argv : List (List ℕ)) (argc at c : ℕ) (m : Machine S)
    → length argv ≤ argc
    → put argv argc at c m ≡ fault
unfolding put
put_outside argv argc at c m h = rw (get_elem?-none argv argc h)

-- The space behind the last argument that has a row is taken without complaint.
pub end_arg_full :
    {S : Type 0} {rows words : List (List ℕ)} {cur junk : List ℕ} {argc at x : ℕ} (m : Machine S)
    → Filling argc at rows [] words cur (x ∷ junk)
    → end_arg (line argc at false (rows ++ (cur ++ x ∷ junk) ∷ [])) m
      ≡ ok (true, line 20 0 false (rows ++ (cur ++ 0 ∷ junk) ∷ [])) m
unfolding end_arg
end_arg_full {rows = rows} {cur = cur} {junk = junk} {argc = argc} {at = at} {x = x} m f =
    let next : argc + 1 ≡ 20 = omega (arith, f.room) in
    rw (
      put_lem rows [] cur junk x 0 argc at m f.rows_length f.cur_length,
      lt→ltb argc 20 (omega arith),
      next,
    )
