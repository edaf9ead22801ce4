-- ===== src/Machine/Outcome.antt =====
-- What is known of a run: total correctness (`Returns`) and partial correctness (`Ensures`).
use mechatronics_embedded.Base.{◌≡◌, refl}
use mechatronics_embedded.Machine.{Machine, Run, ok, waiting, Cmd, and_then}

-- The run returns, and what it returns satisfies `P`.
pub data Returns {S A : Type 0} (P : A → Machine S → Type 0) : Run S A → Type 0 where
  returns : {a : A} {m : Machine S} → P a m → Returns P (ok a m)

-- The run leaves no array, and if it returns then `P` holds.
pub data Ensures {S A : Type 0} (P : A → Machine S → Type 0) : Run S A → Type 0 where
  ensures : {a : A} {m : Machine S} → P a m → Ensures P (ok a m)
  not_yet : Ensures P waiting

module _ {S A B : Type 0} {P : A → Machine S → Type 0} {Q : B → Machine S → Type 0} where
  pub Returns-then :
      {r : Run S A} {k : A → Cmd S B}
      → Returns P r
      → ((a : A) (m : Machine S) → P a m → Returns Q (k a m))
      → Returns Q (and_then r k)
  Returns-then (returns p) next = next _ _ p

  pub Ensures-then :
      {r : Run S A} {k : A → Cmd S B}
      → Ensures P r
      → ((a : A) (m : Machine S) → P a m → Ensures Q (k a m))
      → Ensures Q (and_then r k)
  Ensures-then (ensures p) next = next _ _ p
  Ensures-then not_yet next = not_yet

module _ {S A : Type 0} {P Q : A → Machine S → Type 0} where
  pub Returns-weaken :
      {r : Run S A} → Returns P r → ((a : A) (m : Machine S) → P a m → Q a m) → Returns Q r
  Returns-weaken (returns p) weaker = returns (weaker _ _ p)

  pub Ensures-weaken :
      {r : Run S A} → Ensures P r → ((a : A) (m : Machine S) → P a m → Q a m) → Ensures Q r
  Ensures-weaken (ensures p) weaker = ensures (weaker _ _ p)
  Ensures-weaken not_yet weaker = not_yet

  -- A run that returns also ensures what is ensured.
  pub Returns-both : {r : Run S A} → Returns P r → Ensures Q r → Returns (λ a m. P a m × Q a m) r
  Returns-both (returns p) (ensures q) = returns (p, q)

module _ {S A : Type 0} {P : A → Machine S → Type 0} where
  pub Returns-Ensures : {r : Run S A} → Returns P r → Ensures P r
  Returns-Ensures (returns p) = ensures p

  -- A run that returns, as an equation.
  pub Returns-inv : {r : Run S A} → Returns P r → (a : A) × (m : Machine S) × (r ≡ ok a m) × P a m
  Returns-inv (returns {a = a} {m = m} p) = (a, m, refl, p)
