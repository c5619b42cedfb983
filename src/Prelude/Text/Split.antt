-- ===== src/Prelude/Text/Split.antt =====
-- Splitting a text at the first separator.
use Prim.Native.Char.{Char, code}
use Prim.Native.String.{String, [], ◌∷◌}
use Prim.Native.Nat.{ℕ}
use mathlib.Core.Path.{◌≡◌, refl}
use mathlib.Core.Logic.{◌≢◌}
use mathlib.Core.List.{[], ◌∷◌}
use native.Mathlib.Omega.{arith}
use text.Mathlib.TextLemmas.{nil-append, cons-append}
use msa_core.Prelude.Text.{◌+++◌, split}

-- the text does not hold the character
abbrev pub Lacks : ℕ → String → Type 0
Lacks sep [] = Unit
Lacks sep (c ∷ s) = (code c ≢ sep) × Lacks sep s

pub split-append :
    (sep : Char) (a b : String)
    → Lacks (code sep) a
    → split (code sep) (a +++ (sep ∷ b)) ≡ a ∷ split (code sep) b
unfolding split
split-append sep [] b h = rw nil-append (ground arith)
split-append sep (c ∷ a) b (ne, h) = rw cons-append (ground (arith, split-append sep a b h))

pub split-Lacks : (sep : Char) (a : String) → Lacks (code sep) a → split (code sep) a ≡ a ∷ []
unfolding split
split-Lacks sep [] h = refl
split-Lacks sep (c ∷ a) (ne, h) = ground (arith, split-Lacks sep a h)
