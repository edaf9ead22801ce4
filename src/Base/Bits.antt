-- ===== src/Base/Bits.antt =====
-- `|` and `&` of machine words at variables: disjoint fields add up, and one bit is a remainder.
use Prim.Native.Nat.{
  ℕ, zero, suc, ◌+◌, ◌-◌, ◌*◌, ◌/◌, ◌%◌, ◌^◌, ◌≤◌, ◌<◌, min, max, digits, bit_and, bit_or, bit_xor,
  bit_and-bitwise, bit_or-bitwise, bit_xor-bitwise, differ,
}
use mathlib.Core.Path.{◌≡◌, refl, ap, ◌∙◌}
use native.Mathlib.Nat.{
  pow-suc, one-le-pow, zero-add, suc-add, add-mul-div_right, div-eq_of_lt, add-mul-mod_self_right,
  mod-eq_of_lt,
}
use native.Mathlib.Omega.{arith}

-- The native operations recurse on digits with fuel, and more fuel than digits changes nothing.
digits_slack :
    (zero_case : ℕ → ℕ) (op : ℕ → ℕ → ℕ) (need fuel x y : ℕ)
    → x ≤ need
    → need ≤ fuel
    → digits zero_case op fuel x y ≡ digits zero_case op need x y
digits_slack zero_case op zero zero zero y h more = refl
digits_slack zero_case op zero (suc fuel) zero y h more = refl
digits_slack zero_case op (suc need) (suc fuel) zero y h more = refl
digits_slack zero_case op (suc need) (suc fuel) (suc x) y h more =
    let less =
      digits_slack zero_case op need fuel (suc x / 2) (y / 2) (omega arith) (omega arith) in
    ap (λ (t : ℕ). t * 2 + op (suc x % 2) (y % 2)) less
digits_slack zero_case op zero fuel (suc x) y h more = absurd (omega arith)
digits_slack zero_case op (suc need) zero x y h more = absurd (omega arith)

pub bit_or_step : (x y : ℕ) → bit_or x y ≡ bit_or (x / 2) (y / 2) * 2 + max (x % 2) (y % 2)
bit_or_step zero y =
    let whole = bit_or-bitwise 0 y in omega (arith, whole, bit_or-bitwise 0 (y / 2))
bit_or_step (suc x) y =
    let half = suc x / 2 in
    omega (
      arith,
      bit_or-bitwise half (y / 2),
      bit_or-bitwise (suc x) y,
      digits_slack (λ t. t) max half x half (y / 2) (omega arith) (omega arith),
    )

pub bit_and_step : (x y : ℕ) → bit_and x y ≡ bit_and (x / 2) (y / 2) * 2 + min (x % 2) (y % 2)
bit_and_step zero y =
    let whole = bit_and-bitwise 0 y in omega (arith, whole, bit_and-bitwise 0 (y / 2))
bit_and_step (suc x) y =
    let half = suc x / 2 in
    omega (
      arith,
      bit_and-bitwise half (y / 2),
      bit_and-bitwise (suc x) y,
      digits_slack (λ t. 0) min half x half (y / 2) (omega arith) (omega arith),
    )

pow_suc : (q k : ℕ) → q * 2 ^ suc k ≡ 2 * (q * 2 ^ k)
pow_suc q k = omega (arith, ap (λ (t : ℕ). q * t) (pow-suc 2 k))

-- `|` and `&` with a mask that starts at bit `k` act on the part from bit `k` up.
pub bit_or_high :
    (k a p q : ℕ) → a < 2 ^ k → bit_or (a + p * 2 ^ k) (q * 2 ^ k) ≡ a + bit_or p q * 2 ^ k
bit_or_high zero a p q h = let e : a ≡ 0 = omega arith in ground arith
bit_or_high (suc k) a p q h = ground (
  arith,
  bit_or_step (a + p * 2 ^ suc k) (q * 2 ^ suc k),
  pow_suc p k,
  pow_suc q k,
  pow_suc (bit_or p q) k,
  pow-suc 2 k,
  bit_or_high k (a / 2) p q (omega (arith, pow-suc 2 k)),
)

pub bit_and_high :
    (k a p q : ℕ) → a < 2 ^ k → bit_and (a + p * 2 ^ k) (q * 2 ^ k) ≡ bit_and p q * 2 ^ k
bit_and_high zero a p q h = let e : a ≡ 0 = omega arith in ground arith
bit_and_high (suc k) a p q h = ground (
  arith,
  bit_and_step (a + p * 2 ^ suc k) (q * 2 ^ suc k),
  pow_suc p k,
  pow_suc q k,
  pow_suc (bit_and p q) k,
  pow-suc 2 k,
  bit_and_high k (a / 2) p q (omega (arith, pow-suc 2 k)),
)

-- A mask that keeps all `k` low bits.
pub bit_and_keep :
    (k a p q : ℕ)
    → a < 2 ^ k
    → bit_and (a + p * 2 ^ k) (2 ^ k - 1 + q * 2 ^ k) ≡ a + bit_and p q * 2 ^ k
bit_and_keep zero a p q h = let e : a ≡ 0 = omega arith in ground arith
bit_and_keep (suc k) a p q h = ground (
  arith,
  bit_and_step (a + p * 2 ^ suc k) (2 ^ suc k - 1 + q * 2 ^ suc k),
  pow_suc p k,
  pow_suc q k,
  pow_suc (bit_and p q) k,
  pow-suc 2 k,
  one-le-pow k 2,
  bit_and_keep k (a / 2) p q (omega (arith, pow-suc 2 k)),
)

pub bit_and-zero : (a : ℕ) → bit_and a 0 ≡ 0
bit_and-zero a = zero_mask a a (omega arith)
  where
    zero_mask : (n a : ℕ) → a ≤ n → bit_and a 0 ≡ 0
    zero_mask n zero h = refl
    zero_mask zero (suc a) h = absurd (omega arith)
    zero_mask (suc n) (suc a) h =
        omega (arith, bit_and_step (suc a) 0, zero_mask n (suc a / 2) (omega arith))

-- The lowest bit is the parity.
pub bit_and-one : (a : ℕ) → bit_and a 1 ≡ a % 2
bit_and-one a = omega (arith, bit_and_step a 1, bit_and-zero (a / 2))

pub bit_or-zero : (a : ℕ) → bit_or a 0 ≡ a
bit_or-zero a = zero_mask a a (omega arith)
  where
    zero_mask : (n a : ℕ) → a ≤ n → bit_or a 0 ≡ a
    zero_mask n zero h = refl
    zero_mask zero (suc a) h = absurd (omega arith)
    zero_mask (suc n) (suc a) h =
        omega (arith, bit_or_step (suc a) 0, zero_mask n (suc a / 2) (omega arith))

pub pow_add : (a b : ℕ) → 2 ^ (a + b) ≡ 2 ^ a * 2 ^ b
pow_add zero b = rw zero-add (omega arith)
pow_add (suc a) b = rw suc-add (
    omega
      (arith, pow-suc 2 a, pow-suc 2 (a + b), pow_add a b, ap (λ (t : ℕ). t * 2 ^ b) (pow-suc 2 a)))

-- A number that is cut at a multiple of `c`.
pub split_div : (a p c : ℕ) → a < c → (a + p * c) / c ≡ p
split_div a p c h =
    omega (arith, add-mul-div_right a p {z = c} (omega arith), div-eq_of_lt {n = a} {m = c} h)

pub split_mod : (a p c : ℕ) → a < c → (a + p * c) % c ≡ a
split_mod a p c h = add-mul-mod_self_right a p c ∙ mod-eq_of_lt h

bit_xor_step : (x y : ℕ) → bit_xor x y ≡ bit_xor (x / 2) (y / 2) * 2 + differ (x % 2) (y % 2)
bit_xor_step zero y =
    let whole = bit_xor-bitwise 0 y in omega (arith, whole, bit_xor-bitwise 0 (y / 2))
bit_xor_step (suc x) y =
    let half = suc x / 2 in
    omega (
      arith,
      bit_xor-bitwise half (y / 2),
      bit_xor-bitwise (suc x) y,
      digits_slack (λ t. t) differ half x half (y / 2) (omega arith) (omega arith),
    )

differ-zero : (x : ℕ) → differ x 0 ≡ x
differ-zero zero = refl
differ-zero (suc x) = refl

differ-one : (x : ℕ) → x < 2 → differ x 1 ≡ 1 - x
differ-one zero h = refl
differ-one (suc zero) h = refl
differ-one (suc (suc x)) h = absurd (omega arith)

pub bit_xor-zero : (a : ℕ) → bit_xor a 0 ≡ a
bit_xor-zero a = zero_mask a a (omega arith)
  where
    zero_mask : (n a : ℕ) → a ≤ n → bit_xor a 0 ≡ a
    zero_mask n zero h = refl
    zero_mask zero (suc a) h = absurd (omega arith)
    zero_mask (suc n) (suc a) h = ground (
      arith,
      bit_xor_step (suc a) 0,
      differ-zero (suc a % 2),
      zero_mask n (suc a / 2) (omega arith),
    )

bit_xor_high :
    (k a p q : ℕ) → a < 2 ^ k → bit_xor (a + p * 2 ^ k) (q * 2 ^ k) ≡ a + bit_xor p q * 2 ^ k
bit_xor_high zero a p q h = let e : a ≡ 0 = omega arith in ground arith
bit_xor_high (suc k) a p q h = ground (
  arith,
  bit_xor_step (a + p * 2 ^ suc k) (q * 2 ^ suc k),
  differ-zero ((a + p * 2 ^ suc k) % 2),
  pow_suc p k,
  pow_suc q k,
  pow_suc (bit_xor p q) k,
  pow-suc 2 k,
  bit_xor_high k (a / 2) p q (omega (arith, pow-suc 2 k)),
)

-- One bit set, and one bit inverted.
pub bit_or-bit :
    (k a p : ℕ) → a < 2 ^ k → bit_or (a + p * 2 ^ k) (2 ^ k) ≡ a + (p / 2 * 2 + 1) * 2 ^ k
bit_or-bit k a p h =
    let one : bit_or p 1 ≡ p / 2 * 2 + 1 = ground (arith, bit_or_step p 1, bit_or-zero (p / 2)) in
    let mask : 2 ^ k ≡ 1 * 2 ^ k = omega arith in
    ap (bit_or (a + p * 2 ^ k)) mask ∙ bit_or_high k a p 1 h ∙ ap (λ (t : ℕ). a + t * 2 ^ k) one

pub bit_xor-bit :
    (k a p : ℕ)
    → a < 2 ^ k
    → bit_xor (a + p * 2 ^ k) (2 ^ k) ≡ a + (p / 2 * 2 + (1 - p % 2)) * 2 ^ k
bit_xor-bit k a p h =
    let one : bit_xor p 1 ≡ p / 2 * 2 + (1 - p % 2) =
      ground (arith, bit_xor_step p 1, bit_xor-zero (p / 2), differ-one (p % 2) (omega arith)) in
    let mask : 2 ^ k ≡ 1 * 2 ^ k = omega arith in
    ap (bit_xor (a + p * 2 ^ k)) mask ∙ bit_xor_high k a p 1 h ∙ ap (λ (t : ℕ). a + t * 2 ^ k) one
