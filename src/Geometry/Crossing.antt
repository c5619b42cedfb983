-- ===== src/Geometry/Crossing.antt =====
-- Whether a point is in a ring does not depend on how the ring is written down.
use mathlib.Core.List.{append-nil}
use msa_core.Prelude.{
  ℕ, suc, ◌≤◌, ◌≡◌, refl, ap, sym, ◌∙◌, Bool, false, Option, none, some, List, [], ◌∷◌, ◌++◌,
  length, length-append, ltb, arith, if◌then◌else◌,
}
use msa_core.Geometry.{Float, coordinates, on_edge, differ, crosses, toggle, is_point_in_ring}
use msa_core.Geometry.Edges.{walk, edge, edge_loop-walk}

differ_comm : (a b : Bool) → differ a b ≡ differ b a
differ_comm a b = ground arith

differ_assoc : (a b c : Bool) → differ a (differ b c) ≡ differ (differ a b) c
differ_assoc a b c = ground arith

big_enough : (n : ℕ) (b : Bool) → ltb n 3 ≡ false → (if ltb n 3 then false else b) ≡ b
big_enough n b h = rw h refl

differ_self : (a : Bool) → differ a a ≡ false
differ_self a = ground arith

walk-append :
    {A S : Type 0} (step : A → A → S → S) (p q start : A) (xs ys : List A) (s : S)
    → walk step p (xs ++ (q ∷ ys)) start s ≡ walk step q ys start (walk step p xs q s)
walk-append step p q start [] ys s = refl
walk-append step p q start (x ∷ xs) ys s = walk-append step x q start xs ys (step p x s)

module _ {F : Type 0} (float : Float F) (px py : F) where
  toggle_of :
      (p q : F × F) (b : Bool) → toggle float px py p q b ≡ differ (toggle float px py p q false) b
  unfolding toggle
  toggle_of p q b = ground arith

  on_edge_of :
      (p q : Option (F × F)) (b : Bool)
      → on_edge (toggle float px py) p q b ≡ differ (on_edge (toggle float px py) p q false) b
  on_edge_of none q b = refl
  on_edge_of (some p) none b = refl
  on_edge_of (some p) (some q) b = toggle_of p q b

  on_edge_self : (p : Option (F × F)) (b : Bool) → on_edge (toggle float px py) p p b ≡ b
  unfolding toggle crosses
  on_edge_self none b = refl
  on_edge_self (some (x, y)) b = rw (differ_self (float.less py y)) refl

  walk_of :
      (p : List F) (ps : List (List F)) (start : List F) (b : Bool)
      → walk (edge (toggle float px py)) p ps start b
        ≡ differ (walk (edge (toggle float px py)) p ps start false) b
  walk_of p [] start b = on_edge_of (coordinates p) (coordinates start) b
  walk_of p (q ∷ ps) start b =
      let here = on_edge_of (coordinates p) (coordinates q) b in
      let first = edge (toggle float px py) p q false in
      let rest = walk (edge (toggle float px py)) q ps start false in
      walk_of q ps start (edge (toggle float px py) p q b)
      ∙ ap (λ (c : Bool). differ rest c) here
      ∙ differ_assoc rest first b
      ∙ ap (λ (c : Bool). differ c b) (sym (walk_of q ps start first))

  ring_walk :
      (p : List F) (ps : List (List F))
      → is_point_in_ring float px py (p ∷ ps)
        ≡ (if ltb (suc (length ps)) 3 then false else walk (edge (toggle float px py)) p ps p false)
  unfolding is_point_in_ring
  ring_walk p ps =
      ap (λ (b : Bool). if ltb (suc (length ps)) 3 then false else b)
        (edge_loop-walk (toggle float px py) p ps false)

  turned :
      (p q : List F) (xs ys : List (List F))
      → walk (edge (toggle float px py)) p (xs ++ (q ∷ ys)) p false
        ≡ walk (edge (toggle float px py)) q (ys ++ (p ∷ xs)) q false
  turned p q xs ys =
      let there = walk (edge (toggle float px py)) p xs q false in
      let back = walk (edge (toggle float px py)) q ys p false in
      walk-append (edge (toggle float px py)) p q p xs ys false
      ∙ walk_of q ys p there
      ∙ differ_comm back there
      ∙ sym (walk_of p xs q back)
      ∙ sym (walk-append (edge (toggle float px py)) q p q ys xs false)

  ring_turned :
      (xs ys : List (List F))
      → is_point_in_ring float px py (xs ++ ys) ≡ is_point_in_ring float px py (ys ++ xs)
  ring_turned [] ys = ap (is_point_in_ring float px py) (sym (append-nil ys))
  ring_turned (p ∷ xs) [] = ap (is_point_in_ring float px py) (append-nil (p ∷ xs))
  ring_turned (p ∷ xs) (q ∷ ys) =
      let size : suc (length (xs ++ q ∷ ys)) ≡ suc (length (ys ++ p ∷ xs)) =
        omega (arith, length-append xs (q ∷ ys), length-append ys (p ∷ xs)) in
      ring_walk p (xs ++ q ∷ ys)
      ∙ ap
          (λ (n : ℕ).
            if ltb n 3 then false else walk (edge (toggle float px py)) p (xs ++ q ∷ ys) p false)
          size
      ∙ ap (λ (b : Bool). if ltb (suc (length (ys ++ p ∷ xs))) 3 then false else b)
          (turned p q xs ys)
      ∙ sym (ring_walk q (ys ++ p ∷ xs))

  ring_closed :
      (p : List F) (ps : List (List F))
      → 3 ≤ length (p ∷ ps)
      → is_point_in_ring float px py (p ∷ (ps ++ p ∷ [])) ≡ is_point_in_ring float px py (p ∷ ps)
  ring_closed p ps big =
      let open_test : ltb (suc (length ps)) 3 ≡ false = ground arith in
      let closed_test : ltb (suc (length (ps ++ p ∷ []))) 3 ≡ false =
        ground (arith, length-append ps (p ∷ [])) in
      ring_walk p (ps ++ p ∷ [])
      ∙ big_enough _ _ closed_test
      ∙ walk-append (edge (toggle float px py)) p p p ps [] false
      ∙ on_edge_self (coordinates p) _
      ∙ sym (big_enough _ _ open_test)
      ∙ sym (ring_walk p ps)

-- Whether a point is in a ring does not depend on the vertex that the ring is written down from (`xs`
-- first or `ys` first), and for a ring of three points or more not on whether its first point is
-- given again at its end. This holds for every point, for points with too few coordinates among the
-- ring's, and whatever the rounding of float64 does.
pub is_point_in_ring_written :
    {F : Type 0} (float : Float F) (px py : F) (xs ys : List (List F)) (p : List F)
    → (ps : List (List F)) → 3 ≤ length (p ∷ ps)
    → (is_point_in_ring float px py (xs ++ ys) ≡ is_point_in_ring float px py (ys ++ xs))
      × (is_point_in_ring float px py (p ∷ (ps ++ p ∷ [])) ≡ is_point_in_ring float px py (p ∷ ps))
is_point_in_ring_written float px py xs ys p ps big =
    (ring_turned float px py xs ys, ring_closed float px py p ps big)
