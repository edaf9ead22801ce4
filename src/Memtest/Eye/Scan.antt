-- ===== src/Memtest/Eye/Scan.antt =====
-- The searches of find_best_eye: what one pass over the qualities finds.
use mechatronics_embedded.Base.{
  ℕ, zero, suc, ◌+◌, ◌<◌, ◌≤◌, ◌≡◌, refl, sym, ap, subst, ◌∙◌, Bool, true, false, ◌&&◌, some, List,
  inl, inr, length, get_elem?, get_elem?-some, same_value, int_lt, ltb, ◌==◌, ==→eq, Bool-cases,
  and_left, arith,
}
use mechatronics_embedded.Machine.{Machine}
use mechatronics_embedded.Machine.Outcome.{Returns, returns}
use mechatronics_embedded.Memtest.Eye.{Peak, no_peak, lowest, is_free, higher, search_from}

ltb_irreflexive : (a : ℕ) → ltb a a ≡ false
ltb_irreflexive a = ground arith

ltb_below : (a b c : ℕ) → ltb a b ≡ true → ltb a c ≡ false → ltb b c ≡ false
ltb_below a b c up other = ground arith

-- What a search has found among the first `n` qualities.
pub record Top (qual found : List ℕ) (n : ℕ) (best : Peak) : Type 0 where
  pub above :
      (i v : ℕ)
      → i < n
      → get_elem? qual i ≡ some v
      → is_free i found ≡ true
      → int_lt best.value v ≡ false
  pub held :
      int_lt lowest best.value ≡ true → (best.at < n) × (get_elem? qual best.at ≡ some best.value)
  pub floor : int_lt best.value lowest ≡ false

no_peak-Top : (qual found : List ℕ) → Top qual found 0 no_peak
no_peak-Top qual found = record {
  above = λ i v small got free. absurd (omega arith);
  held = λ up. absurd (ground arith);
  floor = refl;
}

and_no : (a b : Bool) → (a && b) ≡ false → b ≡ true → a ≡ false
and_no a b h e = ground arith

higher-Top :
    (qual found : List ℕ) (n a : ℕ) (best : Peak)
    → get_elem? qual n ≡ some a
    → Top qual found n best
    → Top qual found (n + 1) (higher found n a best)
unfolding higher
higher-Top qual found n a best got top =
    elim (Bool-cases (int_lt best.value a && is_free n found)) [
      | inl new ↦
          let up = and_left (int_lt best.value a) (is_free n found) new in
          rw new (record {
            above = λ i v small got' free. elim (Bool-cases (i == n)) [
              | inl e ↦
                  let p = ==→eq i n e in
                  let same : a ≡ v =
                    same_value got (ap (λ (t : ℕ). get_elem? qual t) (sym p) ∙ got') in
                  subst (λ (t : ℕ). int_lt a t ≡ false) same (ltb_irreflexive _)
              | inr e ↦ ltb_below _ _ _ up (top.above i v (ground arith) got' free)
            ];
            held = λ e. (omega arith, got);
            floor = ltb_below _ _ _ up top.floor;
          })
      | inr old ↦ rw old (record {
        above = λ i v small got' free. elim (Bool-cases (i == n)) [
          | inl e ↦
              let p = ==→eq i n e in
              let same : a ≡ v = same_value got (ap (λ (t : ℕ). get_elem? qual t) (sym p) ∙ got') in
              let free' : is_free n found ≡ true = ap (λ (t : ℕ). is_free t found) (sym p) ∙ free in
              subst (λ (t : ℕ). int_lt best.value t ≡ false) same
                (and_no (int_lt best.value a) (is_free n found) old free')
          | inr e ↦ top.above i v (ground arith) got' free
        ];
        held = λ e. let (small, rest) = top.held e in (omega (arith, small), rest);
        floor = top.floor;
      })
    ]

module _ {S : Type 0} where
  search_from-Top :
      (qual found : List ℕ) (left n : ℕ) (best : Peak) (m : Machine S)
      → n + left ≤ length qual
      → Top qual found n best
      → Returns
          (λ b m'. Top qual found (n + left) b × (m' ≡ m))
          (search_from qual found left n best m)
  unfolding search_from
  search_from-Top qual found zero n best m room top =
      returns (subst (λ (t : ℕ). Top qual found t best) (omega arith) top, refl)
  search_from-Top qual found (suc left) n best m room top =
      let (a, got) = get_elem?-some qual n (omega arith) in
      rw got (
        subst
          (λ (t : ℕ).
            Returns (λ b m'. Top qual found t b × (m' ≡ m))
              (search_from qual found left (n + 1) (higher found n a best) m))
          (omega arith)
          (search_from-Top qual found left (n + 1) (higher found n a best) m (omega arith)
            (higher-Top qual found n a best got top)))

  pub search-Top :
      (qual found : List ℕ) (cnt : ℕ) (m : Machine S)
      → cnt ≤ length qual
      → Returns (λ b m'. Top qual found cnt b × (m' ≡ m)) (search_from qual found cnt 0 no_peak m)
  search-Top qual found cnt m room =
      let zero_add : 0 + cnt ≡ cnt = omega arith in
      subst
        (λ (t : ℕ).
          Returns (λ b m'. Top qual found t b × (m' ≡ m)) (search_from qual found cnt 0 no_peak m))
        zero_add (search_from-Top qual found cnt 0 no_peak m (omega arith) (no_peak-Top qual found))
