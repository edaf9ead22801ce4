-- ===== src/Demo/Numbers.antt =====
-- get_hex and get_dec: the value of the leading digits, in `uint32_t`.
use mechatronics_embedded.Base.{
  ℕ, zero, suc, ◌+◌, ◌-◌, ◌*◌, ◌/◌, ◌%◌, ◌≤◌, ◌<◌, ◌^◌, ◌≡◌, refl, ap, ◌∙◌, ◌&&◌, ◌⊎◌, inl, inr,
  Option, none, some, List, [], ◌∷◌, ◌++◌, arith, leb, if◌then◌else◌, append-snoc,
}
use Prim.Native.Nat.pow
use native.Mathlib.Nat.{pow-suc}

-- The `if` ladders; `none` is the `break`.
unfoldable pub hex_digit : ℕ → Option ℕ
hex_digit c =
    if leb b'0' c && leb c b'9'
    then some (c - b'0')
    else if leb b'a' c && leb c b'f'
    then some (10 + (c - b'a'))
    else if leb b'A' c && leb c b'F'
    then some (10 + (c - b'A'))
    else none

unfoldable pub dec_digit : ℕ → Option ℕ
dec_digit c = if leb b'0' c && leb c b'9' then some (c - b'0') else none

-- A loop over the text, which is the bytes before the terminating zero.
module _ (digit : ℕ → Option ℕ) (base : ℕ) where
  pub scan : ℕ → List ℕ → ℕ
  scan val [] = val
  scan val (c ∷ cs) = elim (digit c) [ none ↦ val | some d ↦ scan ((base * val + d) % 2 ^ 32) cs ]

unfoldable pub get_hex : List ℕ → ℕ
unfolding hex_digit scan
get_hex str = scan hex_digit 16 0 str

unfoldable pub get_dec : List ℕ → ℕ
unfolding dec_digit scan
get_dec str = scan dec_digit 10 0 str

-- The `n` lowest digits of `w`, the highest first, in the spelling `symbol`.
unfoldable pub digits_of : ℕ → (ℕ → ℕ) → ℕ → ℕ → List ℕ
digits_of base symbol zero w = []
digits_of base symbol (suc n) w = digits_of base symbol n (w / base) ++ symbol (w % base) ∷ []

-- The text ends, or goes on with a character that is no digit.
abbrev pub Stops : (ℕ → Option ℕ) → List ℕ → Type 0
Stops digit [] = Unit
Stops digit (c ∷ cs) = digit c ≡ none

module _ (digit : ℕ → Option ℕ) (base : ℕ) (symbol : ℕ → ℕ)
    (reads : (d : ℕ) → d < base → digit (symbol d) ≡ some d)
    (splits : (w : ℕ) → (w % base < base) × (base * (w / base) + w % base ≡ w) × (w / base ≤ w))
    (shrinks : (w t : ℕ) → w < base * t → w / base < t) where
  scan-Stops : (val : ℕ) (tail : List ℕ) → Stops digit tail → scan digit base val tail ≡ val
  unfolding scan
  scan-Stops val [] stop = refl
  scan-Stops val (c ∷ cs) stop = rw (stop, scan)

  scan_digit :
      (val d w : ℕ) (tail : List ℕ)
      → d < base
      → base * val + d ≡ w
      → w < 2 ^ 32
      → scan digit base val (symbol d ∷ tail) ≡ scan digit base w tail
  unfolding scan
  scan_digit val d w tail low whole small =
      rw (reads d low, scan) (ap (λ (v : ℕ). scan digit base v tail) (omega (arith, whole)))

  scan-digits_of :
      (n w : ℕ) (tail : List ℕ)
      → w < base ^ n
      → w < 2 ^ 32
      → scan digit base 0 (digits_of base symbol n w ++ tail) ≡ scan digit base w tail
  unfolding digits_of
  scan-digits_of zero w tail short small = let e : w ≡ 0 = omega (arith, pow.zero base) in rw e
  scan-digits_of (suc n) w tail short small =
      let (low, whole, le) = splits w in
      append_assoc_at (digits_of base symbol n (w / base)) (symbol (w % base)) tail
      ∙ scan-digits_of n (w / base) (symbol (w % base) ∷ tail)
          (shrinks w (base ^ n) (omega (arith, pow-suc base n))) (omega arith)
      ∙ scan_digit (w / base) (w % base) w tail low whole small
    where
      append_assoc_at :
          (xs : List ℕ) (x : ℕ) (ys : List ℕ)
          → scan digit base 0 ((xs ++ x ∷ []) ++ ys) ≡ scan digit base 0 (xs ++ x ∷ ys)
      append_assoc_at xs x ys = ap (scan digit base 0) (append-snoc xs ys x)

-- A spelling of the hexadecimal digits: 0 to 9, and a letter from a to f or from A to F for the others.
abbrev pub Hexadecimal : (ℕ → ℕ) → Type 0
Hexadecimal symbol =
    (d : ℕ)
    → d < 16
    → ((d < 10) × (symbol d ≡ 48 + d))
      ⊎ (((10 ≤ d) × (symbol d ≡ 97 + (d - 10))) ⊎ ((10 ≤ d) × (symbol d ≡ 65 + (d - 10))))

-- The text ends, or goes on with a character that is not one of 0 to 9, A to F and a to f.
abbrev pub NoDigit : List ℕ → Type 0
NoDigit [] = Unit
NoDigit (c ∷ cs) = ((c < 48) ⊎ (57 < c)) × ((c < 65) ⊎ (70 < c)) × ((c < 97) ⊎ (102 < c))

hex_digit_reads :
    (d c : ℕ)
    → d < 16
    → ((d < 10) × (c ≡ 48 + d))
      ⊎ (((10 ≤ d) × (c ≡ 97 + (d - 10))) ⊎ ((10 ≤ d) × (c ≡ 65 + (d - 10))))
    → hex_digit c ≡ some d
unfolding hex_digit
hex_digit_reads d c low (inl (few, e)) = rw e (ground arith)
hex_digit_reads d c low (inr (inl (many, e))) = rw e (ground arith)
hex_digit_reads d c low (inr (inr (many, e))) = rw e (ground arith)

NoDigit-Stops : (tail : List ℕ) → NoDigit tail → Stops hex_digit tail
unfolding hex_digit
NoDigit-Stops [] stop = tt
NoDigit-Stops (c ∷ cs) (digit, upper, lower) = ground arith

-- A number below 2 ^ 32, written in `n` hexadecimal digits 0 to 9, a to f or A to F, is read back
-- whatever follows its digits.
pub get_hex-digits_of :
    (symbol : ℕ → ℕ) (n w : ℕ) (tail : List ℕ)
    → Hexadecimal symbol
    → w < 16 ^ n
    → w < 2 ^ 32
    → NoDigit tail
    → get_hex (digits_of 16 symbol n w ++ tail) ≡ w
unfolding get_hex
get_hex-digits_of symbol n w tail spells short small stop =
    let reads = λ (d : ℕ) (h : d < 16). hex_digit_reads d (symbol d) h (spells d h) in
    scan-digits_of hex_digit 16 symbol reads (λ w. (omega arith, omega arith, omega arith))
      (λ w t h. omega arith) n w tail short small
    ∙ scan-Stops hex_digit 16 symbol reads (λ w. (omega arith, omega arith, omega arith))
        (λ w t h. omega arith) w tail (NoDigit-Stops tail stop)

-- A number below 2 ^ 32, written in `n` decimal digits in a spelling that get_dec reads, is read back
-- whatever follows its digits.
pub get_dec-digits_of :
    (symbol : ℕ → ℕ) (n w : ℕ) (tail : List ℕ)
    → ((d : ℕ) → d < 10 → dec_digit (symbol d) ≡ some d)
    → w < 10 ^ n
    → w < 2 ^ 32
    → Stops dec_digit tail
    → get_dec (digits_of 10 symbol n w ++ tail) ≡ w
unfolding get_dec
get_dec-digits_of symbol n w tail reads short small stop =
    scan-digits_of dec_digit 10 symbol reads (λ w. (omega arith, omega arith, omega arith))
      (λ w t h. omega arith) n w tail short small
    ∙ scan-Stops dec_digit 10 symbol reads (λ w. (omega arith, omega arith, omega arith))
        (λ w t h. omega arith) w tail stop
