-- ===== src/Menu/Bits.antt =====
-- Single bits of a word of marks.
use mechatronics_embedded.Base.{
  ℕ, zero, suc, ◌*◌, ◌/◌, ◌%◌, ◌^◌, ◌<◌, ◌≤◌, ◌≡◌, refl, ap, ◌∙◌, true, false, bit_and, bit_or,
  bit_or_step, bit_or-zero, Bool-cases, inl, inr, ==→eq, ◌-◌, bit_and_step, bit_and-one, ◌==◌,
  if◌then◌else◌, arith, ltb,
}
use native.Mathlib.Nat.{pow-suc, one-le-pow}
use mechatronics_embedded.Emio.{any_set}

-- The bit number `k`.
unfoldable pub bit : ℕ → ℕ → ℕ
bit zero x = x % 2
bit (suc k) x = bit k (x / 2)

or_half : (x y : ℕ) → bit_or x y / 2 ≡ bit_or (x / 2) (y / 2)
or_half x y = omega (arith, bit_or_step x y)

pow_half : (k : ℕ) → 2 ^ suc k / 2 ≡ 2 ^ k
pow_half k = omega (arith, pow-suc 2 k)

pub bit-bit_or : (k b x : ℕ) → bit k (bit_or x (2 ^ b)) ≡ (if k == b then 1 else bit k x)
unfolding bit
bit-bit_or zero zero x = omega (arith, bit_or_step x 1)
bit-bit_or zero (suc b) x =
    let no : (0 == suc b) ≡ false = ground arith in
    rw no (omega (arith, bit_or_step x (2 ^ suc b), pow-suc 2 b))
bit-bit_or (suc k) zero x =
    let no : (suc k == 0) ≡ false = ground arith in
    rw no (ap (bit k) (or_half x 1 ∙ bit_or-zero (x / 2)))
bit-bit_or (suc k) (suc b) x =
    let same : (suc k == suc b) ≡ (k == b) = ground arith in
    rw same (
      ap (bit k) (or_half x (2 ^ suc b) ∙ ap (bit_or (x / 2)) (pow_half b))
      ∙ bit-bit_or k b (x / 2))

bit_and-bit : (b x : ℕ) → bit_and x (2 ^ b) ≡ bit b x * 2 ^ b
unfolding bit
bit_and-bit zero x = omega (arith, bit_and-one x)
bit_and-bit (suc b) x =
    let half = ap (bit_and (x / 2)) (pow_half b) in
    omega (
      arith,
      bit_and_step x (2 ^ suc b),
      half,
      bit_and-bit b (x / 2),
      pow-suc 2 b,
      ap (λ (t : ℕ). bit b (x / 2) * t) (pow-suc 2 b),
    )

bit_lt : (k x : ℕ) → bit k x < 2
unfolding bit
bit_lt zero x = omega arith
bit_lt (suc k) x = bit_lt k (x / 2)

pub any_set-bit : (b x : ℕ) → any_set x (2 ^ b) ≡ (bit b x == 1)
any_set-bit b x = elim (Bool-cases (bit b x == 1)) [
  | inl on ↦
      let one : bit b x ≡ 1 = ==→eq (bit b x) 1 on in
      let mask : bit b x * 2 ^ b ≡ 2 ^ b = rw one (omega arith) in
      rw (on, bit_and-bit b x, mask) (ground (arith, one-le-pow b 2 (omega arith)))
  | inr off ↦
      let none' : bit b x ≡ 0 = ground (arith, bit_lt b x) in
      let mask : bit b x * 2 ^ b ≡ 0 = rw none' (omega arith) in
      rw (off, bit_and-bit b x, mask) refl
]

pub bit-none : (k : ℕ) → bit k 0 ≡ 0
unfolding bit
bit-none zero = refl
bit-none (suc k) = bit-none k

-- A word of `n` ones.
pub bit-ones : (k n : ℕ) → bit k (2 ^ n - 1) ≡ (if ltb k n then 1 else 0)
unfolding bit
bit-ones k zero = let no : ltb k 0 ≡ false = ground arith in rw no (bit-none k)
bit-ones zero (suc n) =
    let yes' : ltb 0 (suc n) ≡ true = ground arith in
    rw yes' (omega (arith, pow-suc 2 n, one-le-pow n 2 (omega arith)))
bit-ones (suc k) (suc n) =
    let same : ltb (suc k) (suc n) ≡ ltb k n = ground arith in
    let half : (2 ^ suc n - 1) / 2 ≡ 2 ^ n - 1 =
      omega (arith, pow-suc 2 n, one-le-pow n 2 (omega arith)) in
    rw same (ap (bit k) half ∙ bit-ones k n)

-- Words with the same bits are equal.
pub bit_extensional : (n x y : ℕ) → x ≤ n → y ≤ n → ((k : ℕ) → bit k x ≡ bit k y) → x ≡ y
unfolding bit
bit_extensional zero x y hx hy same = omega arith
bit_extensional (suc n) x y hx hy same =
    let low = same 0 in
    let high = bit_extensional n (x / 2) (y / 2) (omega arith) (omega arith) (λ k. same (suc k)) in
    omega arith
