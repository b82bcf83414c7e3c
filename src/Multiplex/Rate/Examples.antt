-- ===== src/Multiplex/Rate/Examples.antt =====
-- Items at the edge of two windows, and the theorem at them.
use nexigon.Base.{ℕ, ◌≤◌, ◌≡◌, refl, List, [], ◌∷◌, ◌*◌, arith}
use nexigon.Multiplex.Rate.{new_rate, record_item, admitted, admitted_in_second, refresh}

-- Two items at the end of a window and three in the next: four are admitted with a limit of two.
abbrev arrivals : List ℕ
arrivals = 900 ∷ 950 ∷ 1000 ∷ 1010 ∷ 1020 ∷ []

four_admitted : admitted (new_rate 0) 2 arrivals ≡ 4
unfolding admitted record_item refresh
four_admitted = refl

admitted_in_second_example : admitted (new_rate 0) 2 arrivals ≤ 2 * 2
admitted_in_second_example = admitted_in_second (new_rate 0) 2 900 arrivals (omega arith) (
  (omega arith, omega arith),
  (
    (omega arith, omega arith),
    ((omega arith, omega arith), ((omega arith, omega arith), ((omega arith, omega arith), tt))),
  ),
)
