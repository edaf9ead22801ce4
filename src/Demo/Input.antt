-- ===== src/Demo/Input.antt =====
-- get_input: it splits a console line into `argv`, an array of 20 rows of 121 characters.
pub mod Rows
pub mod Split
pub mod Overflow
pub mod Words
use mechatronics_embedded.Base.{
  ℕ, zero, suc, ◌+◌, ◌≡◌, Bool, true, false, not, ◌&&◌, List, [], ◌∷◌, ltb, ◌==◌, if◌then◌else◌,
}
use mechatronics_embedded.Machine.{
  Cmd, num, waiting, pure, ◌>>=◌, ◌>>◌, printf, inbyte, outbyte, load, store,
}

abbrev pub max_arg : ℕ
max_arg = 20

abbrev pub max_line : ℕ
max_line = 120

-- The locals of get_input, and the static `argv`.
pub record Line : Type 0 where
  pub argc : ℕ
  pub num_char : ℕ
  pub ignore : Bool
  pub is_space : Bool
  pub argv : List (List ℕ)

module _ {S : Type 0} where
  -- `argv[argc][at] = c`
  unfoldable pub put : List (List ℕ) → ℕ → ℕ → ℕ → Cmd S (List (List ℕ))
  put argv argc at c = do row ← load argv argc; row' ← store row at c; store argv argc row'

  -- A space behind an argument ends it. The flag is false where the source leaves the loop.
  pub end_arg : Line → Cmd S (Bool × Line)
  end_arg l = do
    argv' ← put l.argv l.argc l.num_char 0
    if ltb l.argc max_arg
        then pure (true, record l { argv = argv'; argc = l.argc + 1; num_char = 0 })
        else (do
          printf "\r\nToo many arguments (max %d) - ignored" (num max_arg ∷ [])
          pure (false, record l { argv = argv'; ignore = true }))

  -- Any other character is stored.
  pub add_char : ℕ → Line → Cmd S (Bool × Line)
  add_char c l =
      if ltb l.num_char max_line
      then (do
        argv' ← put l.argv l.argc l.num_char c
        pure (true, record l { argv = argv'; num_char = l.num_char + 1 }))
      else (do
        printf "\r\nArgument too long (max %d chars) - ignored" (num max_line ∷ [])
        pure (false, record l { ignore = true }))

  -- The body of the loop for the character `c`.
  pub take_char : ℕ → Line → Cmd S (Bool × Line)
  take_char c l = do
    (on, l1) ← if not l.is_space && c == b' ' then end_arg l else pure (true, l)
    if not on
        then pure (false, l1)
        else if c == b' '
        then pure (true, record l1 { is_space = true })
        else add_char c (record l1 { is_space = false })

  -- After the loop: the last argument is ended, and the count returned.
  pub finish : Line → Cmd S (ℕ × List (List ℕ))
  finish l = do
    printf "\r\n" []
    if l.ignore then pure (0, l.argv) else (do
      argv' ← put l.argv l.argc l.num_char 0
      pure ((if l.is_space then l.argc else l.argc + 1), argv'))

  -- The loop, one character a round; `waiting` stands for a line that has not ended.
  pub read_chars : ℕ → Line → Cmd S (ℕ × List (List ℕ))
  read_chars zero l = λ _. waiting
  read_chars (suc rounds) l = do
    c ← inbyte
    if c == b'\r' then finish l else (do
      outbyte c
      (on, l') ← take_char c l
      if on then read_chars rounds l' else finish l')

  pub get_input : ℕ → List (List ℕ) → Cmd S (ℕ × List (List ℕ))
  get_input rounds argv =
      read_chars rounds
        (record { argc = 0; num_char = 0; ignore = false; is_space = true; argv = argv })
