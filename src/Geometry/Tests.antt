-- ===== src/Geometry/Tests.antt =====
-- Points and rings with whole numbers for coordinates; subtraction stops at nought here.
use msa_core.Prelude.{
  arith, ℕ, ◌+◌, ◌-◌, ◌*◌, ◌/◌, ◌≡◌, refl, true, false, List, [], ◌∷◌, ◌++◌, ltb, nat_beq,
}
use msa_core.Geometry.{
  Float, edge_loop, crosses, toggle, is_point_in_ring, is_point_in_polygon, validate_polygon,
}
use msa_core.Geometry.Crossing.{is_point_in_ring_written}

abbrev whole : Float ℕ
whole = record {
  nought = 0;
  half = 1;
  meters = 111320;
  pi = 3;
  straight = 180;
  plus = λ a b. a + b;
  minus = λ a b. a - b;
  times = λ a b. a * b;
  over = λ a b. a / b;
  abs = λ a. a;
  cos = λ a. 1;
  less = ltb;
  same = nat_beq;
  of_int = λ n. n;
}

abbrev point : ℕ → ℕ → List ℕ
point x y = x ∷ y ∷ []

abbrev square : List (List ℕ)
square = point 0 0 ∷ point 10 0 ∷ point 10 10 ∷ point 0 10 ∷ []

abbrev hole : List (List ℕ)
hole = point 4 4 ∷ point 6 4 ∷ point 6 6 ∷ point 4 6 ∷ []

inside :
    (is_point_in_ring whole 3 3 square ≡ true)
    × (is_point_in_ring whole 13 3 square ≡ false)
    × (is_point_in_polygon whole 5 5 (square ∷ hole ∷ []) ≡ false)
    × (is_point_in_polygon whole 2 2 (square ∷ hole ∷ []) ≡ true)
    × (validate_polygon (square ∷ ((1 ∷ []) ∷ []) ∷ []) ≡ false)
unfolding is_point_in_ring is_point_in_polygon edge_loop toggle crosses validate_polygon
inside = (refl, refl, refl, refl, refl)

is_point_in_ring_written_example :
    (is_point_in_ring whole 3 3 (square ++ hole) ≡ is_point_in_ring whole 3 3 (hole ++ square))
    × (is_point_in_ring whole 3 3 (point 0 0 ∷ (hole ++ point 0 0 ∷ []))
        ≡ is_point_in_ring whole 3 3 (point 0 0 ∷ hole))
is_point_in_ring_written_example =
    is_point_in_ring_written whole 3 3 square hole (point 0 0) hole (omega arith)
