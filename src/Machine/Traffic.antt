-- ===== src/Machine/Traffic.antt =====
-- What a trace says of one register.
use mechatronics_embedded.Base.{
  ◌≡◌, refl, false, ==_refl, ℕ, Option, none, some, List, [], ◌∷◌, ◌==◌, if◌then◌else◌,
}
use mechatronics_embedded.Machine.{Event, wrote, read, printed, echoed, slept}

-- The values written to register `r`, the newest first.
abbrev pub writes_to : ℕ → List Event → List ℕ
writes_to r [] = []
writes_to r (wrote a v ∷ t) = if a == r then v ∷ writes_to r t else writes_to r t
writes_to r (read a v ∷ t) = writes_to r t
writes_to r (printed f args ∷ t) = writes_to r t
writes_to r (echoed c ∷ t) = writes_to r t
writes_to r (slept us ∷ t) = writes_to r t

-- The value that the last read of register `r` returned.
abbrev pub last_read : ℕ → List Event → Option ℕ
last_read r [] = none
last_read r (wrote a v ∷ t) = last_read r t
last_read r (read a v ∷ t) = if a == r then some v else last_read r t
last_read r (printed f args ∷ t) = last_read r t
last_read r (echoed c ∷ t) = last_read r t
last_read r (slept us ∷ t) = last_read r t

-- The values that reads of register `r` returned, the newest first.
abbrev pub reads_of : ℕ → List Event → List ℕ
reads_of r [] = []
reads_of r (wrote a v ∷ t) = reads_of r t
reads_of r (read a v ∷ t) = if a == r then v ∷ reads_of r t else reads_of r t
reads_of r (printed f args ∷ t) = reads_of r t
reads_of r (echoed c ∷ t) = reads_of r t
reads_of r (slept us ∷ t) = reads_of r t

-- A write of a register is the newest of its writes.
pub newest_write :
    (r v : ℕ) (t : List Event) → (rest : List ℕ) × (writes_to r (wrote r v ∷ t) ≡ v ∷ rest)
newest_write r v t = (writes_to r t, rw (==_refl r) refl)

-- An access of another register.
pub read_other :
    (r a v : ℕ) (t : List Event) → (a == r) ≡ false → reads_of r (read a v ∷ t) ≡ reads_of r t
read_other r a v t e = rw e refl

pub last_read_other :
    (r a v : ℕ) (t : List Event) → (a == r) ≡ false → last_read r (read a v ∷ t) ≡ last_read r t
last_read_other r a v t e = rw e refl
