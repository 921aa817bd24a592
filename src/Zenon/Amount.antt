-- ===== src/Zenon/Amount.antt =====
-- wasm/manager.go: decimalToBaseUnits; wasm/swap.go: canonicalZenonAmount.
use ferry_web.Prelude.{
  ℕ, ◌+◌, ◌-◌, Bool, true, false, not, ◌&&◌, ◌||◌, Option, none, some, [], ◌∷◌, ◌++◌, ltb, leb,
  ◌==◌, if◌then◌else◌, replicate, is_empty,
}
use ferry_web.Prelude.Int.{ℤ, pos, pos_part, ltb_ℤ}
use ferry_web.Prelude.Text.{Text, trim_space}
use ferry_web.Zenon.Entry.{set_string}
use ferry_web.Swap.Offer.{before_point, after_point}

-- The bytes of a text in UTF-8.
abbrev utf8_size : ℕ → ℕ
utf8_size c = if ltb c 128 then 1 else if ltb c 2048 then 2 else if ltb c 65536 then 3 else 4

unfoldable pub byte_length : Text → ℕ
byte_length [] = 0
byte_length (c ∷ s) = utf8_size c + byte_length s

abbrev pub is_minus : Text → Bool
is_minus [] = false
is_minus (c ∷ _) = c == 45

abbrev pub or_none : Option Text → Text
or_none none = []
or_none (some s) = s

-- On a text without white space around it; `none` is an error.
unfoldable pub base_units : Text → ℤ → Option ℤ
unfolding before_point after_point byte_length set_string
base_units s decimals =
    let frac = or_none (after_point s) in
    let places = pos_part decimals in
    let combined = before_point s ++ (frac ++ replicate (places - byte_length frac) 48) in
    if is_empty s
    then none
    else if is_minus s
    then none
    else if ltb_ℤ decimals (pos 0) || ltb_ℤ (pos 30) decimals
    then none
    else if ltb places (byte_length frac)
    then none
    else if is_empty combined
    then none
    else set_string combined

unfoldable pub decimal_to_base_units : Text → ℤ → Option ℤ
unfolding trim_space base_units
decimal_to_base_units typed decimals = base_units (trim_space typed) decimals

abbrev is_digit : ℕ → Bool
is_digit c = leb 48 c && leb c 57

unfoldable pub all_digits : Text → Bool
all_digits [] = true
all_digits (c ∷ s) = is_digit c && all_digits s

-- ^[0-9]+(\.[0-9]+)?$
unfoldable pub is_plain_decimal : Text → Bool
unfolding before_point after_point all_digits
is_plain_decimal s =
    not (is_empty (before_point s))
    && all_digits (before_point s)
    && elim (after_point s) [ none ↦ true | some frac ↦ not (is_empty frac) && all_digits frac ]

unfoldable pub canonical_zenon_amount : Text → Bool
unfolding is_plain_decimal
canonical_zenon_amount s = is_empty s || is_plain_decimal s
