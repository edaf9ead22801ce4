-- ===== src/Memtest/Registers/Lists.antt =====
-- What update_reglist and get_reglist_value do to the register contents of a list.
use mechatronics_embedded.Base.{
  ℕ, suc, ◌+◌, ◌/◌, ◌%◌, ◌^◌, ◌<◌, ◌≡◌, refl, ap, ◌∙◌, false, Option, none, some, List, [], ◌∷◌,
  ◌++◌, length, ◌==◌, if◌then◌else◌, Bool-cases, inl, inr, arith,
}
use mechatronics_embedded.Memtest.Registers.{
  get_bit_field, set_bit_field, update_reglist, find_value, get_reglist_value,
}
use mechatronics_embedded.Memtest.Registers.Fields.{
  fields, set_bit_field_parts, get_bit_field-set_bit_field,
}

-- The content of a register by a list: the first pair with its address counts.
unfoldable pub value_at : List (ℕ × ℕ) → ℕ → Option ℕ
value_at [] a = none
value_at ((laddr, ldata) ∷ list) a = if laddr == a then some ldata else value_at list a

-- The content in the last pair.
unfoldable pub last_content : List (ℕ × ℕ) → ℕ → ℕ
last_content [] ldata = ldata
last_content ((laddr, ldata') ∷ list) ldata = last_content list ldata'

find_value_listed :
    (list : List (ℕ × ℕ)) (addr l w ldata d : ℕ)
    → value_at list addr ≡ some d
    → find_value list (length list) addr l w ldata ≡ some (get_bit_field d l w)
unfolding value_at find_value
find_value_listed [] addr l w ldata d h = ground arith
find_value_listed ((a, c) ∷ list) addr l w ldata d h =
    grind (arith, find_value_listed list addr l w c d)

find_value_absent :
    (list : List (ℕ × ℕ)) (addr l w ldata : ℕ)
    → value_at list addr ≡ none
    → find_value list (length list) addr l w ldata ≡ some (last_content list ldata)
unfolding value_at find_value last_content
find_value_absent [] addr l w ldata h = refl
find_value_absent ((a, c) ∷ list) addr l w ldata h =
    grind (arith, find_value_absent list addr l w c)

-- What an update leaves of a list.
pub record Updated (list list' : List (ℕ × ℕ)) (addr d : ℕ) : Type 0 where
  pub same_length : length list' ≡ length list
  pub new : value_at list' addr ≡ some d
  pub others : (b : ℕ) → (addr == b) ≡ false → value_at list' b ≡ value_at list b

update_listed :
    (list : List (ℕ × ℕ)) (addr l w v d : ℕ)
    → value_at list addr ≡ some d
    → (list' : List (ℕ × ℕ)) × (update_reglist list (length list) addr l w v ≡ some list')
      × Updated list list' addr (set_bit_field d l w v)
unfolding value_at update_reglist
update_listed [] addr l w v d h = ground arith
update_listed ((a, c) ∷ list) addr l w v d h = elim (Bool-cases (a == addr)) [
  | inl e ↦ (
    (a, set_bit_field c l w v) ∷ list,
    rw e refl,
    record { same_length = refl; new = grind arith; others = λ b ne. grind arith },
  )
  | inr e ↦
      let rest : value_at list addr ≡ some d = grind arith in
      let (list', up, same) = update_listed list addr l w v d rest in
      (
        (a, c) ∷ list',
        rw e (rw up refl),
        record {
          same_length = ap suc same.same_length;
          new = rw e same.new;
          others = λ b ne. ap (λ (t : Option ℕ). if a == b then some c else t) (same.others b ne);
        },
      )
]

-- On a list with a word of 32 bits for the register `addr`, an update of the field of `w` bits from
-- bit `l` on gives a list of the same length from which get_reglist_value reads the low `w` bits of
-- the value; the other bits of the register and the other registers are as before.
pub get_reglist_value-update_reglist :
    (list : List (ℕ × ℕ)) (addr l w u v d : ℕ)
    → l + (w + u) ≡ 32
    → d < 2 ^ 32
    → value_at list addr ≡ some d
    → (list' : List (ℕ × ℕ)) × (update_reglist list (length list) addr l w v ≡ some list')
      × (length list' ≡ length list)
      × (get_reglist_value list' (length list') addr l w ≡ some (v % 2 ^ w))
      × (value_at list' addr ≡ some (fields l w (d % 2 ^ l) (v % 2 ^ w) (d / 2 ^ l / 2 ^ w)))
      × ((b : ℕ) → (addr == b) ≡ false → value_at list' b ≡ value_at list b)
unfolding get_reglist_value
get_reglist_value-update_reglist list addr l w u v d size ld h =
    let (list', up, same) = update_listed list addr l w v d h in
    (
      list',
      up,
      same.same_length,
      find_value_listed list' addr l w 0xffffffff (set_bit_field d l w v) same.new
          ∙ ap some (get_bit_field-set_bit_field l w u d size ld v),
      same.new ∙ ap some (set_bit_field_parts l w u d size ld v),
      same.others,
    )

last_content_lem : (list : List (ℕ × ℕ)) (b c x : ℕ) → last_content (list ++ (b, c) ∷ []) x ≡ c
unfolding last_content
last_content_lem [] b c x = refl
last_content_lem ((a, y) ∷ list) b c x = last_content_lem list b c y

-- For a register that a list with a last pair (b, c) does not have, get_reglist_value returns the
-- whole content c.
pub get_reglist_value_absent :
    (list : List (ℕ × ℕ)) (addr l w b c : ℕ)
    → value_at (list ++ (b, c) ∷ []) addr ≡ none
    → get_reglist_value (list ++ (b, c) ∷ []) (length (list ++ (b, c) ∷ [])) addr l w ≡ some c
unfolding get_reglist_value
get_reglist_value_absent list addr l w b c h =
    find_value_absent (list ++ (b, c) ∷ []) addr l w 0xffffffff h
    ∙ ap some (last_content_lem list b c 0xffffffff)
