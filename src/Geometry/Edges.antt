-- ===== src/Geometry/Edges.antt =====
-- The loop over the edges of a ring by its indices, against the walk round the ring.
use native.Mathlib.Nat.{mod_self, mod-eq_of_lt}
use mathlib.Core.List.{append_assoc}
use msa_core.Prelude.{
  ℕ, suc, ◌+◌, ◌%◌, ◌≡◌, refl, ap, sym, ◌∙◌, some, List, [], ◌∷◌, ◌++◌, length, get_elem?,
  length-append, arith,
}
use msa_core.Geometry.{at_points, edge_loop}

module _ {A : Type 0} where
  get_elem?-append : (xs ys : List A) (y : A) → get_elem? (xs ++ (y ∷ ys)) (length xs) ≡ some y
  get_elem?-append [] ys y = refl
  get_elem?-append (x ∷ xs) ys y = get_elem?-append xs ys y

  -- the points after the first, and the first again
  abbrev pub walk : {S : Type 0} → (A → A → S → S) → A → List A → A → S → S
  walk step p [] start s = step p start s
  walk step p (q ∷ ps) start s = walk step q ps start (step p q s)

module _ {F S : Type 0} (step : F × F → F × F → S → S) where
  abbrev pub edge : List F → List F → S → S
  edge p q s = at_points step (some p) (some q) s

  edge_loop-suc :
      (ring : List (List F)) (k i : ℕ) (s : S)
      → edge_loop step ring (suc k) i s
        ≡ edge_loop step ring k
            (i + 1)
            (at_points step (get_elem? ring i) (get_elem? ring ((i + 1) % length ring)) s)
  unfolding edge_loop
  edge_loop-suc ring k i s = refl

  edge_loop-zero : (ring : List (List F)) (i : ℕ) (s : S) → edge_loop step ring 0 i s ≡ s
  unfolding edge_loop
  edge_loop-zero ring i s = refl

  -- the rest of the loop, when the points before `p` are done
  edge_loop-walk_from :
      (first p : List F) (before ps ring : List (List F)) (s : S)
      → ring ≡ before ++ (p ∷ ps)
      → get_elem? ring 0 ≡ some first
      → edge_loop step ring (suc (length ps)) (length before) s ≡ walk edge p ps first s
  edge_loop-walk_from first p before [] ring s e f =
      let here : get_elem? ring (length before) ≡ some p =
        ap (λ (r : List (List F)). get_elem? r (length before)) e ∙ get_elem?-append before [] p in
      let size : length ring ≡ length before + 1 =
        ap (λ (r : List (List F)). length r) e ∙ length-append before (p ∷ []) in
      let wraps : (length before + 1) % length ring ≡ 0 =
        ap (λ (n : ℕ). (length before + 1) % n) size ∙ mod_self _ in
      edge_loop-suc ring 0 (length before) s
      ∙ edge_loop-zero ring (length before + 1) _
      ∙ rw (here, wraps, f) refl
  edge_loop-walk_from first p before (q ∷ ps) ring s e f =
      let here : get_elem? ring (length before) ≡ some p =
        ap (λ (r : List (List F)). get_elem? r (length before)) e
        ∙ get_elem?-append before (q ∷ ps) p in
      let split : ring ≡ (before ++ p ∷ []) ++ (q ∷ ps) =
        e ∙ sym (append_assoc before (p ∷ []) (q ∷ ps)) in
      let past : length (before ++ p ∷ []) ≡ length before + 1 = length-append before (p ∷ []) in
      let next : get_elem? ring (length before + 1) ≡ some q =
        ap (λ (r : List (List F)). get_elem? r (length before + 1)) split
        ∙ ap (λ (n : ℕ). get_elem? ((before ++ p ∷ []) ++ (q ∷ ps)) n) (sym past)
        ∙ get_elem?-append (before ++ p ∷ []) ps q in
      let size : length ring ≡ length before + (length ps + 2) =
        ap (λ (r : List (List F)). length r) e ∙ length-append before (p ∷ q ∷ ps) ∙ omega arith in
      let inside : (length before + 1) % length ring ≡ length before + 1 =
        mod-eq_of_lt (omega (arith, size)) in
      edge_loop-suc ring (suc (length ps)) (length before) s
      ∙ rw (here, inside, next) refl
      ∙ ap (λ (n : ℕ). edge_loop step ring (suc (length ps)) n (edge p q s)) (sym past)
      ∙ edge_loop-walk_from first q (before ++ p ∷ []) ps ring (edge p q s) split f

  -- the loop over all indices goes once round the ring
  pub edge_loop-walk :
      (p : List F) (ps : List (List F)) (s : S)
      → edge_loop step (p ∷ ps) (length (p ∷ ps)) 0 s ≡ walk edge p ps p s
  edge_loop-walk p ps s = edge_loop-walk_from p p [] ps (p ∷ ps) s refl refl
