-- ===== src/Memtest/Eye/Examples.antt =====
-- find_best_eye on three experiments.
use mechatronics_embedded.Base.{ℕ, refl, List, [], ◌∷◌, arith}
use mechatronics_embedded.Machine.{Machine}
use mechatronics_embedded.Machine.Outcome.{Returns}
use mechatronics_embedded.Memtest.Eye.{Quals, find_best_eye}
use mechatronics_embedded.Memtest.Eye.Quality.{
  result, eye, total, distance, fit, mean_square, quality,
}
use mechatronics_embedded.Memtest.Eye.Whole.{BestEye, find_best_eye-BestEye}

-- Eyes of 10, of 20, and of 15 in all lanes.
abbrev measured : List ℕ
measured =
    50 ∷ 60 ∷ 50 ∷ 60 ∷ 50 ∷ 60 ∷ 50 ∷ 60 ∷ 40 ∷ 60 ∷ 40 ∷ 60 ∷ 40 ∷ 60 ∷ 40 ∷ 60 ∷ 45 ∷ 60 ∷ 45
    ∷ 60 ∷ 45 ∷ 60 ∷ 45 ∷ 60 ∷ []

abbrev quals : Quals
quals = record {
  qual1 = 0 ∷ 0 ∷ 0 ∷ [];
  qual2 = 0 ∷ 0 ∷ 0 ∷ [];
  qual3 = 0 ∷ 0 ∷ 0 ∷ 0 ∷ [];
  qual4 = 0 ∷ 0 ∷ 0 ∷ [];
}

abbrev idle : Machine (Unit {0})
idle = record { hw = tt; input = []; trace = [] }

find_best_eye-BestEye_example :
    Returns
      (λ (choice, q') m'. BestEye measured 3 choice)
      (find_best_eye 0x10 measured 3 quals idle)
unfolding quality fit mean_square total distance eye result
find_best_eye-BestEye_example =
    find_best_eye-BestEye 0x10 measured 3 1 quals idle (omega arith)
      (record {
        room1 = omega arith;
        room2 = omega arith;
        room3 = omega arith;
        room4 = omega arith;
        bound3 = omega arith;
      })
      (omega arith) refl refl
