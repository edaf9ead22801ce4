-- ===== src/Machine/Text.antt =====
-- C strings in arrays of bytes.
use mechatronics_embedded.Base.{
  ℕ, ◌+◌, Bool, true, false, ◌&&◌, Option, none, some, List, [], ◌∷◌, ◌==◌, if◌then◌else◌,
}
use mechatronics_embedded.Machine.{Cmd, fault, pure}

-- The bytes before the terminating zero.
unfoldable pub c_string : List ℕ → List ℕ
c_string [] = []
c_string (c ∷ cs) = if c == 0 then [] else c ∷ c_string cs

-- `strncmp(bytes, text, n) == 0` for a text of `n` characters.
unfoldable pub has_prefix : List ℕ → List ℕ → Bool
has_prefix [] bytes = true
has_prefix (t ∷ text) [] = false
has_prefix (t ∷ text) (b ∷ bytes) = t == b && has_prefix text bytes

-- `strchr(bytes, c)` as an index from `i` on; an array without a zero is left.
module _ {S : Type 0} where
  unfoldable pub strchr : ℕ → ℕ → List ℕ → Cmd S (Option ℕ)
  strchr c i [] = λ _. fault
  strchr c i (b ∷ bytes) =
      if b == c then pure (some i) else if b == 0 then pure none else strchr c (i + 1) bytes
