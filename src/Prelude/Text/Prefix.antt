-- ===== src/Prelude/Text/Prefix.antt =====
-- strip_prefix against the joining of texts.
use Prim.Native.Char.{code}
use Prim.Native.String.{String, [], ◌∷◌}
use mathlib.Core.Path.{◌≡◌, refl, sym, ap}
use mathlib.Core.Logic.{◌↔◌}
use mathlib.Core.Option.{some}
use native.Mathlib.Omega.{arith}
use text.Mathlib.TextLemmas.{nil-append, cons-append}
use text.Mathlib.TextEquality.{Char-path}
use msa_core.Prelude.Text.{◌+++◌, strip_prefix}

pub strip_prefix_sound : (p s t : String) → strip_prefix p s ≡ some t → s ≡ p +++ t
unfolding strip_prefix
strip_prefix_sound [] s t h = rw nil-append (ground arith)
strip_prefix_sound (c ∷ p) [] t h = ground arith
strip_prefix_sound (c ∷ p) (d ∷ s) t h =
    let (same, rest) : (code c ≡ code d) × (strip_prefix p s ≡ some t) = ground arith in
    let e : d ≡ c = Char-path d c (sym same) in
    rw (e, cons-append) (ap (λ r. c ∷ r) (strip_prefix_sound p s t rest))

strip_prefix_complete : (p t : String) → strip_prefix p (p +++ t) ≡ some t
unfolding strip_prefix
strip_prefix_complete [] t = rw nil-append refl
strip_prefix_complete (c ∷ p) t = rw cons-append (ground (arith, strip_prefix_complete p t))

-- a prefix can be stripped exactly off the texts that it begins
pub strip_prefix_iff : (p s t : String) → (strip_prefix p s ≡ some t) ↔ (s ≡ p +++ t)
strip_prefix_iff p s t = (strip_prefix_sound p s t, λ h. rw h (strip_prefix_complete p t))
