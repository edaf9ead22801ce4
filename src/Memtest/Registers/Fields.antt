-- ===== src/Memtest/Registers/Fields.antt =====
-- What the bit fields of memtest.c are on a word that is cut into three parts.
use mechatronics_embedded.Base.{
  ℕ, zero, suc, ◌+◌, ◌-◌, ◌*◌, ◌/◌, ◌%◌, ◌^◌, ◌≤◌, ◌<◌, bit_and, bit_or, ◌≡◌, arith, ap, ap₂, sym,
  bit_and_keep, bit_and_high, bit_and-zero, bit_or_step, bit_or-zero, pow_add, split_div, split_mod,
  Bool-cases, inl, inr, ltb, ◌∙◌, refl,
}
use native.Mathlib.Nat.{pow-suc, one-le-pow, mod-lt, mod-add-div', mod-eq_of_lt, div-lt_iff_lt-mul}
use mechatronics_embedded.Emio.{bit_not}
use mechatronics_embedded.Memtest.Registers.{
  shift_right, grow_mask, put_field, get_bit_field, set_bit_field,
}

pow_pos : (w : ℕ) → 0 < 2 ^ w
pow_pos w = one-le-pow w 2 (omega arith)

odd_mask : (m : ℕ) → m * 2 < 2 ^ 32 → bit_or (m * 2 % 2 ^ 32) 1 ≡ m * 2 + 1
odd_mask m h =
    let half : m * 2 / 2 ≡ m = omega arith in
    let even : m * 2 % 2 ≡ 0 = omega arith in
    rw (mod-eq_of_lt h) (rw (bit_or_step (m * 2) 1) (rw half (rw even (rw (bit_or-zero m) refl))))

-- A mask has `w` ones.
grow_mask_lem : (w m : ℕ) → (m + 1) * 2 ^ w ≤ 2 ^ 32 → grow_mask w m ≡ m * 2 ^ w + (2 ^ w - 1)
unfolding grow_mask
grow_mask_lem zero m h = omega arith
grow_mask_lem (suc w) m h =
    let less : m * 2 < 2 ^ 32 = grind (arith, pow-suc 2 w, one-le-pow w 2) in
    let more : (m * 2 + 1 + 1) * 2 ^ w ≤ 2 ^ 32 = grind (arith, pow-suc 2 w) in
    let sum : (m * 2 + 1) * 2 ^ w + (2 ^ w - 1) ≡ m * 2 ^ suc w + (2 ^ suc w - 1) =
      omega (arith, pow-suc 2 w, pow_pos w, ap (λ (t : ℕ). m * t) (pow-suc 2 w)) in
    ap (grow_mask w) (odd_mask m less) ∙ grow_mask_lem w (m * 2 + 1) more ∙ sum

-- The low bits of a word by a mask.
pub bit_and-mask : (w x : ℕ) → bit_and x (2 ^ w - 1) ≡ x % 2 ^ w
bit_and-mask w x =
    let keep = bit_and_keep w (x % 2 ^ w) (x / 2 ^ w) 0 (mod-lt x {m = 2 ^ w} (pow_pos w)) in
    let low : 2 ^ w - 1 ≡ 2 ^ w - 1 + 0 * 2 ^ w = omega arith in
    ap₂ bit_and (sym (mod-add-div' x (2 ^ w))) low
    ∙ keep
    ∙ omega (arith, ap (λ (t : ℕ). t * 2 ^ w) (bit_and-zero (x / 2 ^ w)))

-- A word of three parts: `a` of `l` bits, `b` of `w` bits above it, and `c`.
abbrev pub fields : ℕ → ℕ → ℕ → ℕ → ℕ → ℕ
fields l w a b c = a + (b + c * 2 ^ w) * 2 ^ l

-- The size of a word whose three parts have `l`, `w` and `u` bits.
pow_parts : (l w u : ℕ) → l + (w + u) ≡ 32 → 2 ^ l * (2 ^ w * 2 ^ u) ≡ 2 ^ 32
pow_parts l w u h =
    ap (λ (t : ℕ). 2 ^ l * t) (sym (pow_add w u))
    ∙ sym (pow_add l (w + u))
    ∙ ap (λ (t : ℕ). 2 ^ t) h

mul_mono : (x y c : ℕ) → x ≤ y → x * c ≤ y * c
mul_mono x y c h = grind arith

pub fields_lt :
    (l w u a b c : ℕ)
    → l + (w + u) ≡ 32
    → a < 2 ^ l
    → b < 2 ^ w
    → c < 2 ^ u
    → fields l w a b c < 2 ^ 32
fields_lt l w u a b c size la lb lc =
    let upper : b + c * 2 ^ w + 1 ≤ 2 ^ w * 2 ^ u = grind arith in
    let whole = mul_mono (b + c * 2 ^ w + 1) (2 ^ w * 2 ^ u) (2 ^ l) upper in
    omega (arith, whole, pow_parts l w u size)

module _ (l w u a b c : ℕ) (size : l + (w + u) ≡ 32) (la : a < 2 ^ l) (lb : b < 2 ^ w)
    (lc : c < 2 ^ u) where
  mask_small : (2 ^ w - 1) * 2 ^ l < 2 ^ 32
  mask_small =
      let ones : 2 ^ w - 1 + 1 ≡ 2 ^ w = omega (arith, pow_pos w) in
      let up = mul_mono 1 (2 ^ u) (2 ^ w) (pow_pos u) in
      let whole = mul_mono (1 * 2 ^ w) (2 ^ u * 2 ^ w) (2 ^ l) up in
      omega (arith, pow_pos l, whole, pow_parts l w u size, ap (λ (t : ℕ). t * 2 ^ l) ones)

  -- The complement of a field's mask keeps the parts around the field.
  mask_parts : bit_not ((2 ^ w - 1) * 2 ^ l) ≡ 2 ^ l - 1 + ((2 ^ u - 1) * 2 ^ w) * 2 ^ l
  mask_parts =
      let ones : 2 ^ w - 1 + 1 ≡ 2 ^ w = omega (arith, pow_pos w) in
      let tops : 2 ^ u - 1 + 1 ≡ 2 ^ u = omega (arith, pow_pos u) in
      omega (
        arith,
        pow_pos l,
        mask_small,
        pow_parts l w u size,
        ap (λ (t : ℕ). t * 2 ^ l) ones,
        ap (λ (t : ℕ). t * 2 ^ w * 2 ^ l) tops,
      )

  pub kept_parts : bit_and (fields l w a b c) (bit_not ((2 ^ w - 1) * 2 ^ l)) ≡ fields l w a 0 c
  kept_parts = rw mask_parts (
      bit_and_keep l a (b + c * 2 ^ w) ((2 ^ u - 1) * 2 ^ w) la
      ∙ ap (λ (t : ℕ). a + t * 2 ^ l)
          (bit_and_high w b c (2 ^ u - 1) lb
            ∙ ap (λ (t : ℕ). t * 2 ^ w) (bit_and-mask u c ∙ mod-eq_of_lt lc)
            ∙ omega arith))

  pub put_field_lem :
      (val : ℕ) → put_field (2 ^ w - 1) (fields l w a b c) l val ≡ fields l w a (val % 2 ^ w) c
  unfolding put_field
  put_field_lem val =
      let v = val % 2 ^ w in
      let low = mod-lt val {m = 2 ^ w} (pow_pos w) in
      let product = mul_mono v (2 ^ w - 1) (2 ^ l) (omega arith) in
      let one : v * 2 ^ l < 2 ^ 32 = omega (arith, mask_small) in
      let sum : fields l w a 0 c + v * 2 ^ l ≡ fields l w a v c = omega arith in
      rw (mod-eq_of_lt mask_small) (
        rw kept_parts (
          rw (bit_and-mask w val)
            (rw (mod-eq_of_lt one) (rw sum (mod-eq_of_lt (fields_lt l w u a v c size la low lc))))))

  mask_lem : grow_mask w 0 ≡ 2 ^ w - 1
  mask_lem =
      let le : (0 + 1) * 2 ^ w ≤ 2 ^ 32 =
        let up = mul_mono 1 (2 ^ l) (2 ^ w * 2 ^ u) (pow_pos l) in
        let down = mul_mono 1 (2 ^ u) (2 ^ w) (pow_pos u) in omega (arith, pow_parts l w u size) in
      grow_mask_lem w 0 le ∙ omega arith

  -- The word with the new field.
  pub set_bit_field_lem :
      (val : ℕ) → set_bit_field (fields l w a b c) l w val ≡ fields l w a (val % 2 ^ w) c
  unfolding set_bit_field
  set_bit_field_lem val =
      ap (λ (t : ℕ). put_field t (fields l w a b c) l val) mask_lem ∙ put_field_lem val

  -- The sign bits that the shift brings in stand above the field.
  shift_right_lem : (s : ℕ) × (shift_right (fields l w a b c) l ≡ b + (c + s) * 2 ^ w)
  unfolding shift_right
  shift_right_lem =
      let shifted = split_div a (b + c * 2 ^ w) (2 ^ l) la in
      let high : 2 ^ (32 - l) ≡ 2 ^ w * 2 ^ u = ap (λ (t : ℕ). 2 ^ t) (omega arith) ∙ pow_add w u in
      let ones : 2 ^ l - 1 + 1 ≡ 2 ^ l = omega (arith, pow_pos l) in
      let signs : 2 ^ 32 - 2 ^ w * 2 ^ u ≡ (2 ^ l - 1) * 2 ^ u * 2 ^ w =
        omega (arith, pow_parts l w u size, ap (λ (t : ℕ). t * 2 ^ u * 2 ^ w) ones) in
      elim (Bool-cases (ltb (fields l w a b c) (2 ^ 31))) [
        | inl pos ↦ (0, rw pos (rw shifted (omega arith)))
        | inr neg ↦ ((2 ^ l - 1) * 2 ^ u, rw neg (rw shifted (rw high (omega (arith, signs)))))
      ]

  -- The field of a word.
  pub get_bit_field_lem : get_bit_field (fields l w a b c) l w ≡ b
  unfolding get_bit_field
  get_bit_field_lem =
      let (s, e) = shift_right_lem in
      ap₂ bit_and e mask_lem ∙ bit_and-mask w (b + (c + s) * 2 ^ w) ∙ split_mod b (c + s) (2 ^ w) lb

-- Every word has three such parts.
pub fields_of : (l w x : ℕ) → x ≡ fields l w (x % 2 ^ l) (x / 2 ^ l % 2 ^ w) (x / 2 ^ l / 2 ^ w)
fields_of l w x =
    omega
      (arith, mod-add-div' x (2 ^ l), ap (λ (t : ℕ). t * 2 ^ l) (mod-add-div' (x / 2 ^ l) (2 ^ w)))

pub high_lt : (l w u x : ℕ) → l + (w + u) ≡ 32 → x < 2 ^ 32 → x / 2 ^ l / 2 ^ w < 2 ^ u
high_lt l w u x size h =
    let whole : x < 2 ^ u * 2 ^ w * 2 ^ l = omega (arith, pow_parts l w u size) in
    (div-lt_iff_lt-mul (pow_pos w)).1 ((div-lt_iff_lt-mul (pow_pos l)).1 whole)

module _ (l w u x : ℕ) (size : l + (w + u) ≡ 32) (lx : x < 2 ^ 32) where
  -- The parts of a word outside of the field stay, and the field gets the value.
  pub set_bit_field_parts :
      (val : ℕ) → set_bit_field x l w val ≡ fields l w (x % 2 ^ l) (val % 2 ^ w) (x / 2 ^ l / 2 ^ w)
  set_bit_field_parts val =
      ap (λ (t : ℕ). set_bit_field t l w val) (fields_of l w x)
      ∙ set_bit_field_lem l w u (x % 2 ^ l) (x / 2 ^ l % 2 ^ w) (x / 2 ^ l / 2 ^ w) size
          (mod-lt x (pow_pos l)) (mod-lt (x / 2 ^ l) (pow_pos w)) (high_lt l w u x size lx) val

  pub get_bit_field-set_bit_field :
      (val : ℕ) → get_bit_field (set_bit_field x l w val) l w ≡ val % 2 ^ w
  get_bit_field-set_bit_field val =
      ap (λ (t : ℕ). get_bit_field t l w) (set_bit_field_parts val)
      ∙ get_bit_field_lem l w u (x % 2 ^ l) (val % 2 ^ w) (x / 2 ^ l / 2 ^ w) size
          (mod-lt x (pow_pos l)) (mod-lt val (pow_pos w)) (high_lt l w u x size lx)

  pub set_bit_field_lt : (val : ℕ) → set_bit_field x l w val < 2 ^ 32
  set_bit_field_lt val = rw (set_bit_field_parts val) (
      fields_lt l w u (x % 2 ^ l) (val % 2 ^ w) (x / 2 ^ l / 2 ^ w) size (mod-lt x (pow_pos l))
        (mod-lt val (pow_pos w)) (high_lt l w u x size lx))
