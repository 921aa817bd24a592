-- ===== src/Prelude/Text.antt =====
-- Go strings, as the list of their runes, and what the code uses of package strings.
use ferry_web.Prelude.Tests.{leb, ◌==◌, if◌then◌else◌}
use Prim.Native.Nat.{ℕ, ◌+◌}
use mathlib.Core.Path.{◌≡◌, refl, sym, ◌∙◌}
use mathlib.Core.Logic.{◌↔◌}
use mathlib.Core.Bool.{Bool, true, false, ◌&&◌, ◌||◌}
use mathlib.Core.List.{List, [], ◌∷◌, map}
use Prim.Native.Char.{code}
use Prim.Native.String.{String}
use native.Mathlib.Omega.{arith}

abbrev pub Text : Type 0
Text = List ℕ

-- The runes of a literal.
abbrev pub runes : String → Text
runes String.[] = []
runes (String.◌∷◌ c s) = code c ∷ runes s

unfoldable pub text_eq : Text → Text → Bool
text_eq [] [] = true
text_eq (x ∷ xs) (y ∷ ys) = x == y && text_eq xs ys
text_eq _ _ = false

pub text_eq_iff : (a b : Text) → (text_eq a b ≡ true) ↔ (a ≡ b)
unfolding text_eq
text_eq_iff (x ∷ a) (y ∷ b) = ground (arith, text_eq_iff a b)
text_eq_iff _ _ = ground arith

-- unicode.IsSpace: the White_Space property.
unfoldable pub is_space : ℕ → Bool
is_space c =
    (leb 9 c && leb c 13)
    || c == 32
    || c == 0x85
    || c == 0xa0
    || c == 0x1680
    || (leb 0x2000 c && leb c 0x200a)
    || c == 0x2028
    || c == 0x2029
    || c == 0x202f
    || c == 0x205f
    || c == 0x3000

-- strings.TrimLeft by a set of runes.
unfoldable pub trim_left : (ℕ → Bool) → Text → Text
trim_left p [] = []
trim_left p (c ∷ s) = let rest = trim_left p s in if p c then rest else c ∷ s

-- strings.TrimRight by a set of runes.
unfoldable pub trim_right : (ℕ → Bool) → Text → Text
trim_right p [] = []
trim_right p (c ∷ s) = elim (trim_right p s) [ [] ↦ if p c then [] else c ∷ [] | d ∷ t ↦ c ∷ d ∷ t ]

unfoldable pub trim_space : Text → Text
unfolding trim_left trim_right is_space
trim_space s = trim_right is_space (trim_left is_space s)

-- The simple case folding of a rune: A to Z, and the two runes beyond ASCII that fold to a letter of
-- ASCII. (That other pairs of letters fold to one another is left out: what the program compares
-- this way are hexadecimal numbers, addresses and network names.)
unfoldable pub fold : ℕ → ℕ
fold c =
    if leb 65 c && leb c 90
    then c + 32
    else if c == 0x212a
    then 107
    else if c == 0x17f
    then 115
    else c

-- strings.EqualFold.
unfoldable pub equal_fold : Text → Text → Bool
equal_fold [] [] = true
equal_fold (x ∷ xs) (y ∷ ys) = fold x == fold y && equal_fold xs ys
equal_fold _ _ = false

-- Two texts are equal up to case if they fold to the same runes.
pub equal_fold_iff : (s t : Text) → (equal_fold s t ≡ true) ↔ (map fold s ≡ map fold t)
unfolding equal_fold
equal_fold_iff (x ∷ s) (y ∷ t) = ground (arith, equal_fold_iff s t)
equal_fold_iff _ _ = ground arith

pub equal_fold_refl : (s : Text) → equal_fold s s ≡ true
equal_fold_refl s = (equal_fold_iff s s).1 refl

pub equal_fold_comm : (s t : Text) → equal_fold s t ≡ true → equal_fold t s ≡ true
equal_fold_comm s t h = (equal_fold_iff t s).1 (sym ((equal_fold_iff s t).0 h))

pub equal_fold_trans :
    (s t u : Text) → equal_fold s t ≡ true → equal_fold t u ≡ true → equal_fold s u ≡ true
equal_fold_trans s t u h k =
    (equal_fold_iff s u).1 ((equal_fold_iff s t).0 h ∙ (equal_fold_iff t u).0 k)
