-- ===== src/Prelude/Text.antt =====
-- The parts of package strings and strconv that the program uses, over texts that are valid UTF-8:
-- a text is its list of characters, and the separators are ASCII.
pub mod Split
pub mod Trim
pub mod Prefix
use Prim.Native.Nat.{ℕ, zero, suc, ◌+◌, ◌-◌, ◌*◌}
use Prim.Native.Char.{Char, code}
use Prim.Native.String
use Prim.Native.String.{String, [], ◌∷◌}
use mathlib.Core.Bool.{Bool, true, false, ◌&&◌, ◌||◌}
use mathlib.Core.Option.{Option, none, some}
use mathlib.Core.List.{List, [], ◌∷◌}
use msa_core.Prelude.Tests.{ltb, leb, nat_beq, if◌then◌else◌}
use msa_core.Prelude.Int.{ℤ, pos, negsuc, int64_half}

-- `s + t`
infixl 65 ◌+++◌
abbrev pub ◌+++◌ : String → String → String
s +++ t = String.◌++◌ s t

abbrev pub cons_head : Char → List String → List String
cons_head c [] = (c ∷ "") ∷ []
cons_head c (w ∷ ws) = (c ∷ w) ∷ ws

-- `strings.Split(s, sep)` for a separator of one character, whose code is `sep`
unfoldable pub split : ℕ → String → List String
split sep [] = "" ∷ []
split sep (c ∷ s) =
    let rest = split sep s in if nat_beq (code c) sep then "" ∷ rest else cons_head c rest

-- `strings.HasPrefix(s, p)`, and what follows the prefix
unfoldable pub strip_prefix : String → String → Option String
strip_prefix [] s = some s
strip_prefix (p ∷ ps) [] = none
strip_prefix (p ∷ ps) (c ∷ s) = if nat_beq (code p) (code c) then strip_prefix ps s else none

-- `unicode.IsSpace`
abbrev pub is_space : ℕ → Bool
is_space c =
    (leb 9 c && leb c 13)
    || (nat_beq c 32
        || (nat_beq c 0x85
            || (nat_beq c 0xA0
                || (nat_beq c 0x1680
                    || ((leb 0x2000 c && leb c 0x200A)
                        || (nat_beq c 0x2028
                            || (nat_beq c 0x2029
                                || (nat_beq c 0x202F
                                    || (nat_beq c 0x205F || nat_beq c 0x3000)))))))))

unfoldable pub trim_left : String → String
trim_left [] = []
trim_left (c ∷ s) = let rest = trim_left s in if is_space (code c) then rest else c ∷ s

abbrev pub is_nil : String → Bool
is_nil [] = true
is_nil (c ∷ s) = false

unfoldable pub trim_right : String → String
trim_right [] = []
trim_right (c ∷ s) =
    let rest = trim_right s in if is_nil rest && is_space (code c) then [] else c ∷ rest

-- `strings.TrimSpace`
unfoldable pub trim_space : String → String
unfolding trim_left trim_right
trim_space s = trim_right (trim_left s)

-- `strings.Contains(s, p)` for a pattern of one character
unfoldable pub contains_char : ℕ → String → Bool
contains_char p [] = false
contains_char p (c ∷ s) = nat_beq (code c) p || contains_char p s

abbrev is_digit : ℕ → Bool
is_digit c = leb b'0' c && leb c b'9'

-- the value of a text of decimal digits, read on from `n`
unfoldable pub digits_value : ℕ → String → Option ℕ
digits_value n [] = some n
digits_value n (c ∷ s) =
    let rest = digits_value (n * 10 + (code c - b'0')) s in if is_digit (code c) then rest else none

-- at least one digit
unfoldable pub decimal : String → Option ℕ
unfolding digits_value
decimal [] = none
decimal (c ∷ s) = digits_value 0 (c ∷ s)

abbrev pub below : ℕ → Option ℕ → Option ℕ
below m none = none
below m (some n) = if ltb n m then some n else none

abbrev pub positive : Option ℕ → Option ℤ
positive none = none
positive (some n) = some (pos n)

abbrev pub negative : Option ℕ → Option ℤ
negative none = none
negative (some zero) = some (pos 0)
negative (some (suc n)) = some (negsuc n)

-- `strconv.Atoi`, where `int` has 64 bits: an optional sign, decimal digits, and a value in range
unfoldable pub atoi : String → Option ℤ
unfolding decimal
atoi [] = none
atoi (c ∷ s) =
    if nat_beq (code c) b'-'
    then negative (below (suc int64_half) (decimal s))
    else if nat_beq (code c) b'+'
    then positive (below int64_half (decimal s))
    else positive (below int64_half (decimal (c ∷ s)))
