-- ===== src/Memtest/Eye/Best.antt =====
-- The choice of find_best_eye among the qualities.
use mechatronics_embedded.Base.{
  ℕ, zero, suc, ◌+◌, ◌-◌, ◌^◌, ◌%◌, ◌<◌, ◌≤◌, ◌≡◌, refl, subst, ◌∙◌, Bool, true, false, ◌&&◌, some,
  List, [], inl, inr, if◌then◌else◌, length, get_elem?, get_elem?-some, same_value, int_lt, ltb,
  ◌==◌, ==→eq, Bool-cases, arith,
}
use mechatronics_embedded.Machine.{Machine}
use mechatronics_embedded.Machine.Outcome.{Returns, returns, Returns-then}
use mechatronics_embedded.Memtest.Eye.{
  Peak, lowest, int_sub, int_ge, is_free, choose_two, choose_three, neighbours, pick, choose_eye,
}
use mechatronics_embedded.Memtest.Eye.Scan.{Top, search-Top}

-- No experiment has a higher quality than the one at `p`.
pub record Best (qual : List ℕ) (cnt p : ℕ) : Type 0 where
  pub small : p < cnt
  pub value : ℕ
  pub holds : get_elem? qual p ≡ some value
  pub top : (i v : ℕ) → i < cnt → get_elem? qual i ≡ some v → int_lt value v ≡ false

ltb_through : (a b c : ℕ) → ltb a c ≡ true → ltb b c ≡ false → ltb a b ≡ true
ltb_through a b c up other = ground arith

if_either : (P : ℕ → Type 0) (c : Bool) (x y : ℕ) → P x → P y → P (if c then x else y)
if_either P true x y px py = px
if_either P false x y px py = py

choose_two_either :
    (P : ℕ → Type 0) (n0 p0 n1 p1 : ℕ) → P p0 → P p1 → P (choose_two (n0, p0) (n1, p1))
unfolding choose_two
choose_two_either P n0 p0 n1 p1 h0 h1 =
    if_either P (int_ge n0 n1) _ _ h0 (if_either P (int_ge n1 n0) _ _ h1 h0)

choose_three_either :
    (P : ℕ → Type 0) (n0 p0 n1 p1 n2 p2 : ℕ)
    → P p0
    → P p1
    → P p2
    → P (choose_three (n0, p0) (n1, p1) (n2, p2))
unfolding choose_three
choose_three_either P n0 p0 n1 p1 n2 p2 h0 h1 h2 =
    if_either P (int_ge n0 n1 && int_ge n0 n2) _ _ h0 (
      if_either P (int_ge n1 n0 && int_ge n1 n2) _ _ h1
        (if_either P (int_ge n2 n0 && int_ge n2 n1) _ _ h2 h0))

-- Some experiment is better than the first, and than the value that the searches start from.
pub record Improves (qual : List ℕ) (cnt : ℕ) : Type 0 where
  pub first : ℕ
  pub first_holds : get_elem? qual 0 ≡ some first
  pub at : ℕ
  pub small : at < cnt
  pub value : ℕ
  pub holds : get_elem? qual at ≡ some value
  pub beats_first : int_lt first value ≡ true
  pub beats_lowest : int_lt lowest value ≡ true

module _ {qual : List ℕ} {cnt : ℕ} (better : Improves qual cnt) where
  Best-later : (p : ℕ) → Best qual cnt p → 1 ≤ p
  Best-later zero b =
      let same = same_value better.first_holds b.holds in
      let other = b.top better.at better.value better.small better.holds in
      absurd
        (ground (arith, subst (λ (t : ℕ). int_lt t better.value ≡ true) same better.beats_first))
  Best-later (suc p) b = omega arith

  Top-Best : (b : Peak) → Top qual [] cnt b → Best qual cnt b.at
  unfolding is_free
  Top-Best b top =
      let up =
        ltb_through _ _ _ better.beats_lowest
          (top.above better.at better.value better.small better.holds refl) in
      let (small, holds) = top.held up in
      record {
        small = small;
        value = b.value;
        holds = holds;
        top = λ i v s g. top.above i v s g refl;
      }

  -- A later search that finds the same value.
  Top-Best_same :
      (found : List ℕ) (b b' : Peak)
      → Top qual [] cnt b
      → Top qual found cnt b'
      → b.value ≡ b'.value
      → Best qual cnt b'.at
  unfolding is_free
  Top-Best_same found b b' top top' same =
      let up =
        ltb_through _ _ _ better.beats_lowest
          (top.above better.at better.value better.small better.holds refl) in
      let (small, holds) = top'.held (subst (λ (t : ℕ). int_lt lowest t ≡ true) same up) in
      record {
        small = small;
        value = b'.value;
        holds = holds;
        top = λ i v s g. subst (λ (t : ℕ). int_lt t v ≡ false) same (top.above i v s g refl);
      }

  module _ {S : Type 0} (room : cnt < length qual) (bound : length qual ≤ 2 ^ 31) where
    neighbours_return :
        (p : ℕ) (m : Machine S) → Best qual cnt p → Returns (λ n m'. Unit {0}) (neighbours qual p m)
    unfolding neighbours
    neighbours_return p m b =
        let later = Best-later p b in
        let before : int_sub p 1 ≡ p - 1 = omega (arith, b.small) in
        let behind : (p + 1) % 2 ^ 32 ≡ p + 1 = omega (arith, b.small) in
        let (x, gx) = get_elem?-some qual (p - 1) (omega (arith, b.small)) in
        let (y, gy) = get_elem?-some qual (p + 1) (omega (arith, b.small)) in
        rw (before, behind, gx, gy) (returns tt)

    pick-Best :
        (b0 b1 b2 : Peak) (m : Machine S)
        → Best qual cnt b0.at
        → (b0.value ≡ b1.value → Best qual cnt b1.at)
        → (b0.value ≡ b2.value → Best qual cnt b2.at)
        → Returns (λ p m'. Best qual cnt p) (pick qual b0 b1 b2 m)
    unfolding pick
    pick-Best b0 b1 b2 m best0 best1 best2 = elim (Bool-cases (b0.value == b1.value)) [
      | inl e ↦
          let e1 = ==→eq b0.value b1.value e in
          elim (Bool-cases (b1.value == b2.value)) [
            | inl f ↦
                let e2 = e1 ∙ ==→eq b1.value b2.value f in
                rw (e, f)
                  (elim (Bool-cases
                    (b1.at == (b0.at + 1) % 2 ^ 32 && b2.at == (b1.at + 1) % 2 ^ 32)) [
                      | inl g ↦ rw g (returns (best1 e1))
                      | inr g ↦ rw g (
                          Returns-then (neighbours_return b0.at m best0) (λ n0 m0 u0.
                            Returns-then (neighbours_return b1.at m0 (best1 e1)) (λ n1 m1 u1.
                              Returns-then (neighbours_return b2.at m1 (best2 e2)) (λ n2 m2 u2.
                                returns (
                                  choose_three_either (Best qual cnt) n0 b0.at n1 b1.at n2 b2.at
                                    best0 (best1 e1) (best2 e2))))))
                    ])
            | inr f ↦
                rw (e, f)
                  (Returns-then (neighbours_return b0.at m best0) (λ n0 m0 u0.
                    Returns-then (neighbours_return b1.at m0 (best1 e1)) (λ n1 m1 u1.
                      returns
                        (choose_two_either (Best qual cnt) n0 b0.at n1 b1.at best0 (best1 e1)))))
          ]
      | inr e ↦ rw e (returns best0)
    ]

    pub choose_eye-Best :
        (m : Machine S) → Returns (λ p m'. Best qual cnt p) (choose_eye qual cnt m)
    unfolding choose_eye
    choose_eye-Best m =
        let scan =
          λ (found : List ℕ) (m' : Machine S). search-Top qual found cnt m' (omega arith) in
        Returns-then (scan [] m) (λ b0 m0 (t0, e0). Returns-then (scan _ m0) (λ b1 m1 (t1, e1).
          Returns-then (scan _ m1) (λ b2 m2 (t2, e2). Returns-then (scan _ m2) (λ b3 m3 (t3, e3).
            Returns-then
              (pick-Best b0 b1 b2 m3 (Top-Best b0 t0) (Top-Best_same _ b0 b1 t0 t1)
                (Top-Best_same _ b0 b2 t0 t2))
              (λ choice m4 best. returns best)))))
