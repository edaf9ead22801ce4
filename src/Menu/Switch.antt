-- ===== src/Menu/Switch.antt =====
-- TestBoardID of menu.c marks the settings of the rotary switch that were read eleven times in a row.
use mechatronics_embedded.Base.{
  ℕ, suc, ◌+◌, ◌^◌, ◌<◌, ◌≤◌, ◌≡◌, refl, sym, ap, subst, ◌∙◌, Bool, true, false, not, ◌&&◌, ◌||◌,
  List, [], ◌∷◌, leb, ◌==◌, ==→eq, ==_refl, if◌then◌else◌, Bool-cases, inl, inr, arith,
}
use mechatronics_embedded.Menu.{Ids, no_ids, count_id, debounced, mark, note_id}
use mechatronics_embedded.Menu.Bits.{bit, bit-bit_or, any_set-bit, bit-none}
use mechatronics_embedded.Emio.{any_set}

-- How often the newest readings are `y`; the newest stands first.
unfoldable pub streak : ℕ → List ℕ → ℕ
streak y [] = 0
streak y (x ∷ h) = if x == y then suc (streak y h) else 0

-- `y` was read eleven times in a row.
unfoldable pub held : ℕ → List ℕ → Bool
held y [] = false
held y (x ∷ h) = leb 11 (if x == y then suc (streak y h) else 0) || held y h

-- The variables after the readings `h`.
unfoldable pub after : List ℕ → Ids
after [] = no_ids
after (x ∷ h) = note_id x (count_id x (after h))

-- The readings are ids.
unfoldable pub AreIds : List ℕ → Type 0
AreIds [] = Unit
AreIds (x ∷ h) = (x < 16) × AreIds h

bit-mark : (k x marks : ℕ) → bit k (mark x marks) ≡ (if k == x then 1 else bit k marks)
unfolding mark
bit-mark k x marks = elim (Bool-cases (any_set marks (2 ^ x))) [
  | inl on ↦ rw on (elim (Bool-cases (k == x)) [
    | inl e ↦ rw e (rw (==→eq k x e) (==→eq (bit x marks) 1 (sym (any_set-bit x marks) ∙ on)))
    | inr e ↦ rw e refl
  ])
  | inr off ↦ rw off (bit-bit_or k x marks)
]

-- What the variables say of the readings so far.
pub record Knows (h : List ℕ) (s : Ids) : Type 0 where
  pub others : (y : ℕ) → (y == s.prev_id) ≡ false → streak y h ≡ 0
  pub current : (s.prev_id == s.last_id) ≡ false → streak s.prev_id h ≡ s.debounce + 1
  pub past : (s.last_id == 16) ≡ false → held s.last_id h ≡ true
  pub marks : (y : ℕ) → bit y s.switch_ok ≡ (if held y h then 1 else 0)

start-Knows : Knows [] no_ids
unfolding streak held
start-Knows = record {
  others = λ y e. refl;
  current = λ e. absurd (ground arith);
  past = λ e. absurd (ground arith);
  marks = λ y. bit-none y;
}

held_other : (x y : ℕ) (h : List ℕ) → (x == y) ≡ false → held y (x ∷ h) ≡ held y h
unfolding held
held_other x y h e = rw e refl

held_more : (x y : ℕ) (h : List ℕ) → held y h ≡ true → held y (x ∷ h) ≡ true
unfolding held
held_more x y h e = ground arith

held_now : (x : ℕ) (h : List ℕ) → 11 ≤ streak x (x ∷ h) → held x (x ∷ h) ≡ true
unfolding held streak
held_now x h e = ground arith

held_short : (x : ℕ) (h : List ℕ) → streak x (x ∷ h) ≤ 10 → held x (x ∷ h) ≡ held x h
unfolding held streak
held_short x h e = ground arith

-- What holds between the two halves of a round with the reading `x`.
record Counted (x : ℕ) (h : List ℕ) (s : Ids) : Type 0 where
  same : s.prev_id ≡ x
  others : (y : ℕ) → (y == x) ≡ false → streak y (x ∷ h) ≡ 0
  current : (x == s.last_id) ≡ false → streak x (x ∷ h) ≡ s.debounce + 1
  past : (s.last_id == 16) ≡ false → held s.last_id h ≡ true
  marks : (y : ℕ) → bit y s.switch_ok ≡ (if held y h then 1 else 0)

streak_other : (x y : ℕ) (h : List ℕ) → (y == x) ≡ false → streak y (x ∷ h) ≡ 0
unfolding streak
streak_other x y h e = ground arith

streak_more : (x : ℕ) (h : List ℕ) → streak x (x ∷ h) ≡ suc (streak x h)
unfolding streak
streak_more x h = rw (==_refl x) refl

count_id-Counted : (x : ℕ) (h : List ℕ) (s : Ids) → Knows h s → Counted x h (count_id x s)
unfolding count_id
count_id-Counted x h s k = elim (Bool-cases (x == s.prev_id)) [
  | inl e ↦ rw e (record {
    same = sym (==→eq x s.prev_id e);
    others = λ y. streak_other x y h;
    current = λ ne.
        let p = ==→eq x s.prev_id e in
        let more = k.current (subst (λ (t : ℕ). (t == s.last_id) ≡ false) p ne) in
        omega (arith, streak_more x h, ap (λ (t : ℕ). streak t h) p, more);
    past = k.past;
    marks = k.marks;
  })
  | inr e ↦ rw e (record {
    same = refl;
    others = λ y. streak_other x y h;
    current = λ ne. omega (arith, streak_more x h, k.others x e);
    past = k.past;
    marks = k.marks;
  })
]

eleven :
    (x : ℕ) (h : List ℕ) (s : Ids)
    → Counted x h s
    → (not (x == s.last_id) && leb 10 s.debounce) ≡ true
    → 11 ≤ streak x (x ∷ h)
eleven x h s c now =
    let fresh : (x == s.last_id) ≡ false = ground arith in
    let ten : 10 ≤ s.debounce = ground arith in omega (arith, c.current fresh)

marked_now :
    (x : ℕ) (h : List ℕ) (s : Ids)
    → Counted x h s
    → (y : ℕ) → 11 ≤ streak x (x ∷ h)
    → (if y == x then 1 else bit y s.switch_ok) ≡ (if held y (x ∷ h) then 1 else 0)
marked_now x h s c y long = elim (Bool-cases (y == x)) [
  | inl e ↦ rw e (rw (==→eq y x e) (rw (held_now x h long) refl))
  | inr e ↦
      let other : (x == y) ≡ false = ground arith in rw e (rw (held_other x y h other) (c.marks y))
]

-- Without a debounced id nothing new is held.
held_same :
    (x : ℕ) (h : List ℕ) (s : Ids)
    → x < 16
    → Counted x h s
    → (not (x == s.last_id) && leb 10 s.debounce) ≡ false
    → (y : ℕ) → held y h ≡ held y (x ∷ h)
held_same x h s small c not_now y = elim (Bool-cases (y == x)) [
  | inl e ↦ rw (==→eq y x e) (elim (Bool-cases (x == s.last_id)) [
    | inl last ↦
        let p = ==→eq x s.last_id last in
        let known : held x h ≡ true = ap (λ (t : ℕ). held t h) p ∙ c.past (ground (arith, p)) in
        known ∙ sym (held_more x x h known)
    | inr fresh ↦
        let few : s.debounce < 10 = ground arith in
        sym (held_short x h (omega (arith, c.current fresh)))
  ])
  | inr e ↦ let other : (x == y) ≡ false = ground arith in sym (held_other x y h other)
]

note_id-Knows :
    (x : ℕ) (h : List ℕ) (s : Ids) → x < 16 → Counted x h s → Knows (x ∷ h) (note_id x s)
unfolding note_id debounced
note_id-Knows x h s small c = elim (Bool-cases (not (x == s.last_id) && leb 10 s.debounce)) [
  | inl now ↦ rw now (record {
    others = λ y e. c.others y (rw c.same at e);
    current = λ e. absurd (ground (arith, c.same));
    past = λ e. held_now x h (eleven x h s c now);
    marks = λ y. bit-mark y x s.switch_ok ∙ marked_now x h s c y (eleven x h s c now);
  })
  | inr not_now ↦ rw not_now (record {
    others = λ y e. c.others y (rw c.same at e);
    current = λ e.
        ap (λ (t : ℕ). streak t (x ∷ h)) c.same
        ∙ c.current (subst (λ (t : ℕ). (t == s.last_id) ≡ false) c.same e);
    past = λ e. held_more x s.last_id h (c.past e);
    marks = λ y.
        c.marks y
        ∙ ap (λ (b : Bool). if◌then◌else◌ {A = ℕ} b 1 0) (held_same x h s small c not_now y);
  })
]

after-Knows : (h : List ℕ) → AreIds h → Knows h (after h)
unfolding after AreIds
after-Knows [] ids = start-Knows
after-Knows (x ∷ h) (small, ids) =
    note_id-Knows x h (count_id x (after h)) small
      (count_id-Counted x h (after h) (after-Knows h ids))

-- After any readings of ids, TestBoardID has marked exactly the ids that were read eleven times in a
-- row.
pub after-marks :
    (h : List ℕ) → AreIds h → (y : ℕ) → bit y (after h).switch_ok ≡ (if held y h then 1 else 0)
after-marks h ids y = (after-Knows h ids).marks y
