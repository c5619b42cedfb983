-- ===== src/Geometry.antt =====
-- The polygons of pkg/helpers/geometry_helper.go. float64 with its operations is a parameter, and no
-- law of arithmetic is assumed of it. A point is a slice of coordinates, a ring a slice of points, and
-- a polygon a slice of rings, the exterior one first.
pub mod Edges
pub mod Crossing
mod Tests
use msa_core.Prelude.{
  ℕ, zero, suc, ◌+◌, ◌%◌, Bool, true, false, not, ◌&&◌, Option, none, some, List, [], ◌∷◌, ltb,
  nat_beq, length, get_elem?, if◌then◌else◌,
}

-- `less x y` is x < y, and `same x y` is x == y
pub record Float (F : Type 0) : Type 0 where
  pub nought : F
  pub half : F
  pub meters : F
  pub pi : F
  pub straight : F
  pub plus : F → F → F
  pub minus : F → F → F
  pub times : F → F → F
  pub over : F → F → F
  pub abs : F → F
  pub cos : F → F
  pub less : F → F → Bool
  pub same : F → F → Bool
  pub of_int : ℕ → F

-- `p[0]` and `p[1]`, if `len(p) >= 2`
abbrev pub coordinates : {F : Type 0} → List F → Option (F × F)
coordinates [] = none
coordinates (x ∷ []) = none
coordinates (x ∷ y ∷ rest) = some (x, y)

abbrev pub on_edge :
    {F S : Type 0} → (F × F → F × F → S → S) → Option (F × F) → Option (F × F) → S → S
on_edge step none q s = s
on_edge step (some p) none s = s
on_edge step (some p) (some q) s = step p q s

abbrev pub at_points :
    {F S : Type 0} → (F × F → F × F → S → S) → Option (List F) → Option (List F) → S → S
at_points step none q s = s
at_points step (some p) none s = s
at_points step (some p) (some q) s = on_edge step (coordinates p) (coordinates q) s

-- `for i := 0; i < n; i++ { j := (i + 1) % n; ... }` over a ring, where an edge is passed over if one
-- of its points has less than two coordinates: the rounds that are left, and `i`
unfoldable pub edge_loop : {F S : Type 0} → (F × F → F × F → S → S) → List (List F) → ℕ → ℕ → S → S
edge_loop step ring zero i s = s
edge_loop step ring (suc k) i s =
    edge_loop step ring k (i + 1)
      (at_points step (get_elem? ring i) (get_elem? ring ((i + 1) % length ring)) s)

-- `a != b`
abbrev pub differ : Bool → Bool → Bool
differ true b = not b
differ false b = b

module _ {F : Type 0} (float : Float F) where
  open float use {
    nought, half, meters, pi, straight, plus, minus, times, over, abs, cos, less, same, of_int,
  }

  abbrev pub shoelace : F × F → F × F → F → F
  shoelace (xi, yi) (xj, yj) area = plus area (minus (times xi yj) (times xj yi))

  unfoldable pub calculate_ring_signed_area : List (List F) → F
  calculate_ring_signed_area ring =
      if ltb (length ring) 3
      then nought
      else times half (edge_loop shoelace ring (length ring) 0 nought)

  abbrev pub without_holes : F → List (List (List F)) → F
  without_holes area [] = area
  without_holes area (ring ∷ rings) =
      without_holes (minus area (abs (calculate_ring_signed_area ring))) rings

  unfoldable pub calculate_polygon_area : List (List (List F)) → F
  calculate_polygon_area [] = nought
  calculate_polygon_area (ring ∷ rings) =
      let area = without_holes (abs (calculate_ring_signed_area ring)) rings in
      if less area nought then nought else area

  -- the sum of the latitudes, and their number
  abbrev pub add_latitude : Option (F × F) → F × ℕ → F × ℕ
  add_latitude none s = s
  add_latitude (some (x, y)) (sum, count) = (plus sum y, count + 1)

  abbrev pub latitudes : List (List F) → F × ℕ → F × ℕ
  latitudes [] s = s
  latitudes (p ∷ ps) s = latitudes ps (add_latitude (coordinates p) s)

  abbrev pub all_latitudes : List (List (List F)) → F × ℕ → F × ℕ
  all_latitudes [] s = s
  all_latitudes (ring ∷ rings) s = all_latitudes rings (latitudes ring s)

  abbrev mean : F × ℕ → F
  mean (sum, count) = if nat_beq count 0 then nought else over sum (of_int count)

  unfoldable pub get_average_latitude : List (List (List F)) → F
  get_average_latitude [] = nought
  get_average_latitude ([] ∷ rings) = nought
  get_average_latitude ((p ∷ ps) ∷ rings) = mean (all_latitudes ((p ∷ ps) ∷ rings) (nought, 0))

  unfoldable pub calculate_polygon_area_in_square_meters : List (List (List F)) → F
  calculate_polygon_area_in_square_meters polygon =
      times (times (calculate_polygon_area polygon) meters)
        (times meters (cos (over (times (get_average_latitude polygon) pi) straight)))

  -- the edge crosses the ray that goes from the point to the right
  unfoldable pub crosses : F → F → F × F → F × F → Bool
  crosses px py (xi, yi) (xj, yj) =
      if differ (less py yi) (less py yj) && not (same yj yi)
      then less px (plus xi (over (times (minus py yi) (minus xj xi)) (minus yj yi)))
      else false

  unfoldable pub toggle : F → F → F × F → F × F → Bool → Bool
  toggle px py p q inside = if crosses px py p q then not inside else inside

  unfoldable pub is_point_in_ring : F → F → List (List F) → Bool
  is_point_in_ring px py ring =
      if ltb (length ring) 3 then false else edge_loop (toggle px py) ring (length ring) 0 false

  abbrev pub in_no_hole : F → F → List (List (List F)) → Bool
  in_no_hole px py [] = true
  in_no_hole px py (ring ∷ rings) =
      if is_point_in_ring px py ring then false else in_no_hole px py rings

  unfoldable pub is_point_in_polygon : F → F → List (List (List F)) → Bool
  is_point_in_polygon lat lon [] = false
  is_point_in_polygon lat lon (ring ∷ rings) =
      if is_point_in_ring lon lat ring then in_no_hole lon lat rings else false

abbrev has_point : {F : Type 0} → Option (F × F) → Bool
has_point none = false
has_point (some p) = true

abbrev pub points_valid : {F : Type 0} → List (List F) → Bool
points_valid [] = true
points_valid (p ∷ ps) = has_point (coordinates p) && points_valid ps

abbrev pub rings_valid : {F : Type 0} → List (List (List F)) → Bool
rings_valid [] = true
rings_valid (r ∷ rs) = points_valid r && rings_valid rs

unfoldable pub validate_polygon : {F : Type 0} → List (List (List F)) → Bool
validate_polygon [] = false
validate_polygon (ring ∷ rings) = if ltb (length ring) 3 then false else rings_valid (ring ∷ rings)
