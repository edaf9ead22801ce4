-- ===== src/Machine.antt =====
-- The processor's view of its surroundings: memory-mapped registers (`Xil_In32`, `Xil_Out32`),
-- the console (`inbyte`, `outbyte`, `xil_printf`) and the trace of what was done.
pub mod Outcome
pub mod Traffic
pub mod Text
use mechatronics_embedded.Base.{
  ℕ, String, Option, none, some, List, [], ◌∷◌, get_elem?, set, length, ltb, if◌then◌else◌,
}

-- The hardware behind the registers is a parameter: it answers a read and takes a write.
-- `gpio_base` is XPS_GPIO_BASEADDR of the board support package.
pub record Device (S : Type 0) : Type 0 where
  pub gpio_base : ℕ
  pub in32 : ℕ → S → ℕ × S
  pub out32 : ℕ → ℕ → S → S

-- An argument of `xil_printf`.
pub data Arg : Type 0 where
  num : ℕ → Arg
  text : String → Arg
  chars : List ℕ → Arg

-- One action at the boundary. `read a v` is a read of the register `a` that returned `v`.
pub data Event : Type 0 where
  wrote : ℕ → ℕ → Event
  read : ℕ → ℕ → Event
  printed : String → List Arg → Event
  echoed : ℕ → Event
  slept : ℕ → Event

-- `input` is what the console will deliver; the newest event stands first in `trace`.
pub record Machine (S : Type 0) : Type 0 where
  pub hw : S
  pub input : List ℕ
  pub trace : List Event

-- How a run ends: it returns, it is still waiting when the rounds or the console input that it
-- was given are used up, or it leaves the bounds of an array.
pub data Run (S A : Type 0) : Type 0 where
  ok : A → Machine S → Run S A
  waiting : Run S A
  fault : Run S A

abbrev pub Cmd : Type 0 → Type 0 → Type 0
Cmd S A = Machine S → Run S A

module _ {S A B : Type 0} where
  abbrev pub and_then : Run S A → (A → Cmd S B) → Run S B
  and_then (ok a m) k = k a m
  and_then waiting k = waiting
  and_then fault k = fault

  infixl 5 ◌>>=◌
  abbrev pub ◌>>=◌ : Cmd S A → (A → Cmd S B) → Cmd S B
  ◌>>=◌ c k m = and_then (c m) k

infixl 5 ◌>>◌
abbrev pub ◌>>◌ : {S B : Type 0} → Cmd S (Unit {0}) → Cmd S B → Cmd S B
◌>>◌ c k m = and_then (c m) (λ _. k)

module _ {S : Type 0} where
  abbrev pub pure : {A : Type 0} → A → Cmd S A
  pure a m = ok a m

  abbrev pub printf : String → List Arg → Cmd S (Unit {0})
  printf format args m = ok tt (record m { trace = printed format args ∷ m.trace })

  abbrev pub next_byte : List ℕ → Cmd S ℕ
  next_byte [] m = waiting
  next_byte (c ∷ cs) m = ok c (record m { input = cs })

  abbrev pub inbyte : Cmd S ℕ
  inbyte m = next_byte m.input m

  abbrev pub outbyte : ℕ → Cmd S (Unit {0})
  outbyte c m = ok tt (record m { trace = echoed c ∷ m.trace })

  abbrev pub usleep : ℕ → Cmd S (Unit {0})
  usleep us m = ok tt (record m { trace = slept us ∷ m.trace })

-- An array access: out of bounds it is a fault.
module _ {S A : Type 0} where
  abbrev pub in_bounds : Option A → Cmd S A
  in_bounds none m = fault
  in_bounds (some x) m = ok x m

  abbrev pub load : List A → ℕ → Cmd S A
  load xs i = in_bounds (get_elem? xs i)

  abbrev pub store : List A → ℕ → A → Cmd S (List A)
  store xs i v m = if ltb i (length xs) then ok (set xs i v) m else fault

module _ {S : Type 0} (dev : Device S) where
  abbrev pub xil_in32 : ℕ → Cmd S ℕ
  xil_in32 a m =
      let (v, hw') = dev.in32 a m.hw in ok v (record m { hw = hw'; trace = read a v ∷ m.trace })

  abbrev pub xil_out32 : ℕ → ℕ → Cmd S (Unit {0})
  xil_out32 a v m = ok tt (record m { hw = dev.out32 a v m.hw; trace = wrote a v ∷ m.trace })
