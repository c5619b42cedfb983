-- ===== src/Prelude/Text/Trim.antt =====
-- Trimming a text that goes on after a semicolon.
use Prim.Native.Char.{Char, code}
use Prim.Native.String.{String, [], ◌∷◌}
use Prim.Native.Nat.{ℕ}
use mathlib.Core.Path.{◌≡◌, refl, sym}
use mathlib.Core.Logic.{inl, inr}
use mathlib.Core.Bool.{false}
use text.Mathlib.TextLemmas.{nil-append, cons-append}
use msa_core.Prelude.Tests.{Bool-cases}
use msa_core.Prelude.Text.{◌+++◌, is_space, is_nil, trim_left, trim_right}
use msa_core.Prelude.Text.Split.{Lacks}

abbrev pub semicolon : Char
semicolon = ";"

pub trim_left-semicolon :
    (lang q : String) → trim_left (lang +++ (semicolon ∷ q)) ≡ trim_left lang +++ (semicolon ∷ q)
unfolding trim_left
trim_left-semicolon [] q = rw nil-append refl
trim_left-semicolon (c ∷ s) q = rw cons-append (elim (Bool-cases (is_space (code c))) [
  | inl e ↦ rw e (trim_left-semicolon s q)
  | inr e ↦ rw e (sym (cons-append c s (semicolon ∷ q)))
])

ends_nonempty : (s t : String) → is_nil (s +++ (semicolon ∷ t)) ≡ false
ends_nonempty [] t = rw nil-append refl
ends_nonempty (c ∷ s) t = rw cons-append refl

pub trim_right-semicolon :
    (lang q : String) → trim_right (lang +++ (semicolon ∷ q)) ≡ lang +++ (semicolon ∷ trim_right q)
unfolding trim_right
trim_right-semicolon [] q =
    rw (nil-append, nil-append)
      (elim (Bool-cases (is_nil (trim_right q))) [ inl e ↦ rw e refl | inr e ↦ rw e refl ])
trim_right-semicolon (c ∷ s) q =
    rw (cons-append, trim_right-semicolon s q, ends_nonempty s (trim_right q))
      (sym (cons-append c s (semicolon ∷ trim_right q)))

pub trim_left-trim_left : (s : String) → trim_left (trim_left s) ≡ trim_left s
unfolding trim_left
trim_left-trim_left [] = refl
trim_left-trim_left (c ∷ s) = elim (Bool-cases (is_space (code c))) [
  | inl e ↦ rw e (trim_left-trim_left s)
  | inr e ↦ rw (e, trim_left, e) refl
]

pub trim_left-Lacks : (sep : ℕ) (s : String) → Lacks sep s → Lacks sep (trim_left s)
unfolding trim_left
trim_left-Lacks sep [] h = tt
trim_left-Lacks sep (c ∷ s) (ne, h) = elim (Bool-cases (is_space (code c))) [
  | inl e ↦ rw e (trim_left-Lacks sep s h)
  | inr e ↦ rw e (ne, h)
]

pub Lacks-append : (sep : ℕ) (s t : String) → Lacks sep s → Lacks sep t → Lacks sep (s +++ t)
Lacks-append sep [] t h k = rw nil-append k
Lacks-append sep (c ∷ s) t (ne, h) k = rw cons-append (ne, Lacks-append sep s t h k)
