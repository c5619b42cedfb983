-- ===== src/Validation/Uuid.antt =====
-- IsValidUUID of pkg/helpers/validation_helper.go.
use Prim.Native.Char.{Char, code}
use Prim.Native.String.{String, [], ◌∷◌}
use msa_core.Prelude.{
  ℕ, ◌+◌, ◌≡◌, refl, Bool, true, false, not, ◌||◌, List, [], ◌∷◌, nat_beq, arith, if◌then◌else◌,
  Bool-cases, inl, inr,
}
use msa_core.Prelude.Text.{split, cons_head}
use msa_core.Validation.{byte_length}

-- the two tests of the parts
unfoldable pub well_shaped : List String → Bool
well_shaped (a ∷ b ∷ c ∷ d ∷ e ∷ []) = not (
    not (nat_beq (byte_length a) 8)
    || not (nat_beq (byte_length b) 4)
    || not (nat_beq (byte_length c) 4)
    || not (nat_beq (byte_length d) 4)
    || not (nat_beq (byte_length e) 12))
well_shaped parts = false

unfoldable pub is_valid_uuid : String → Bool
is_valid_uuid uuid =
    if not (nat_beq (byte_length uuid) 36) then false else well_shaped (split 45 uuid)

-- the bytes of the parts, and one for each part
unfoldable total_length : List String → ℕ
total_length [] = 0
total_length (w ∷ ws) = byte_length w + 1 + total_length ws

cons_head-parts :
    (c : Char) (ws : List String) → (v : String) × (vs : List String) × (cons_head c ws ≡ v ∷ vs)
cons_head-parts c [] = (c ∷ "", [], refl)
cons_head-parts c (w ∷ ws) = (c ∷ w, ws, refl)

split-parts : (s : String) → (w : String) × (ws : List String) × (split 45 s ≡ w ∷ ws)
unfolding split
split-parts [] = ("", [], refl)
split-parts (c ∷ s) = elim (Bool-cases (nat_beq (code c) 45)) [
  | inl h ↦ ("", split 45 s, rw h refl)
  | inr h ↦ rw h (cons_head-parts c (split 45 s))
]

total_length-cons_head :
    (c : Char) (s : String)
    → total_length (cons_head c (split 45 s)) ≡ byte_length (c ∷ "") + total_length (split 45 s)
unfolding total_length byte_length
total_length-cons_head c s = let (w, ws, e) = split-parts s in rw e (ground arith)

total_length-split : (s : String) → total_length (split 45 s) ≡ byte_length s + 1
unfolding total_length split byte_length
total_length-split [] = refl
total_length-split (c ∷ s) = elim (Bool-cases (nat_beq (code c) 45)) [
  | inl h ↦ rw h (let rest = total_length-split s in ground arith)
  | inr h ↦ rw h (grind (arith, total_length-cons_head c s, total_length-split s))
]

shape_length : (ws : List String) → well_shaped ws ≡ true → total_length ws ≡ 37
unfolding well_shaped total_length
shape_length (a ∷ b ∷ c ∷ d ∷ e ∷ []) h = ground arith
shape_length ws h = cc

-- The test of the length is implied by the tests of the parts.
is_valid_uuid-well_shaped : (uuid : String) → is_valid_uuid uuid ≡ well_shaped (split 45 uuid)
unfolding is_valid_uuid
is_valid_uuid-well_shaped uuid =
    ground (arith, total_length-split uuid, shape_length (split 45 uuid))
