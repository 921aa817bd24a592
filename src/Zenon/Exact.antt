-- ===== src/Zenon/Exact.antt =====
-- wasm/manager.go: what decimalToBaseUnits makes of a plain decimal.
use ferry_web.Prelude.{
  ℕ, zero, suc, ◌+◌, ◌-◌, ◌*◌, ◌^◌, ◌≤◌, ◌<◌, ◌≡◌, refl, sym, ap, ◌∙◌, ◌⊎◌, inl, inr, true, false,
  none, some, [], ◌∷◌, ◌++◌, arith, ltb, ◌==◌, Bool-cases, Option-cases, length, replicate,
  is_empty,
}
use ferry_web.Prelude.Int.{pos}
use ferry_web.Prelude.Text.{Text, trim_space}
use native.Mathlib.Nat.{pow-suc}
use ferry_web.Zenon.Entry.{set_string, digits_value}
use ferry_web.Swap.Offer.{before_point, after_point}
use ferry_web.Zenon.Amount.{
  byte_length, or_none, base_units, decimal_to_base_units, all_digits, is_plain_decimal, is_minus,
}

-- The number that a text of digits stands for, after `acc`.
abbrev pub dec_from : ℕ → Text → ℕ
dec_from acc [] = acc
dec_from acc (c ∷ s) = dec_from (10 * acc + (c - 48)) s

pub dec_from-append : (acc : ℕ) (s t : Text) → dec_from acc (s ++ t) ≡ dec_from (dec_from acc s) t
dec_from-append acc [] t = refl
dec_from-append acc (c ∷ s) t = dec_from-append (10 * acc + (c - 48)) s t

regroup : (a p : ℕ) → (10 * a + 0) * p ≡ a * (p * 10)
regroup a p = grind arith

pub dec_from-zeros : (k acc : ℕ) → dec_from acc (replicate k 48) ≡ acc * 10 ^ k
dec_from-zeros zero acc = omega arith
dec_from-zeros (suc k) acc =
    dec_from-zeros k (10 * acc + 0) ∙ rw (pow-suc 10 k) (regroup acc (10 ^ k))

digits_value-some :
    (acc : ℕ) (s : Text) → all_digits s ≡ true → digits_value acc s ≡ some (dec_from acc s)
unfolding digits_value all_digits
digits_value-some acc [] h = refl
digits_value-some acc (c ∷ s) h = ground (arith, digits_value-some (10 * acc + (c - 48)) s)

all_digits-append :
    (s t : Text) → all_digits s ≡ true → all_digits t ≡ true → all_digits (s ++ t) ≡ true
unfolding all_digits
all_digits-append [] t h k = k
all_digits-append (c ∷ s) t h k = ground (arith, all_digits-append s t)

all_digits-zeros : (k : ℕ) → all_digits (replicate k 48) ≡ true
unfolding all_digits
all_digits-zeros zero = refl
all_digits-zeros (suc k) = all_digits-zeros k

byte_length-digits : (s : Text) → all_digits s ≡ true → byte_length s ≡ length s
unfolding all_digits byte_length
byte_length-digits [] h = refl
byte_length-digits (c ∷ s) h = ground (arith, byte_length-digits s)

set_string-digits :
    (c : ℕ) (s : Text)
    → all_digits (c ∷ s) ≡ true
    → set_string (c ∷ s) ≡ some (pos (dec_from 0 (c ∷ s)))
unfolding set_string all_digits
set_string-digits c s h = ground (arith, digits_value-some 0 (c ∷ s))

-- The amount before its point, and after it.
abbrev pub whole : Text → Text
whole s = before_point s

abbrev pub places : Text → Text
places s = or_none (after_point s)

record IsPlain (s : Text) : Type 0 where
  given : is_empty (whole s) ≡ false
  whole_digits : all_digits (whole s) ≡ true
  place_digits : all_digits (places s) ≡ true

is_plain_decimal-IsPlain : (s : Text) → is_plain_decimal s ≡ true → IsPlain s
unfolding is_plain_decimal
is_plain_decimal-IsPlain s h = elim (Option-cases (after_point s)) [
  | inl none_after ↦ record {
    given = ground arith;
    whole_digits = ground arith;
    place_digits = rw none_after refl;
  }
  | inr (f, e) ↦ record {
    given = ground arith;
    whole_digits = ground arith;
    place_digits = rw e (ground (arith, h));
  }
]

plain-nonempty : (s : Text) → IsPlain s → is_empty s ≡ false
unfolding before_point
plain-nonempty [] p = p.given
plain-nonempty (c ∷ s) p = refl

plain-unsigned : (s : Text) → IsPlain s → is_minus s ≡ false
unfolding before_point all_digits
plain-unsigned [] p = refl
plain-unsigned (c ∷ s) p = elim (Bool-cases (c == 46)) [
  | inl point ↦ ground (arith, point)
  | inr other ↦ ground (arith, other, rw (other, before_point) at p.whole_digits)
]

set_string-some :
    (s : Text) → is_empty s ≡ false → all_digits s ≡ true → set_string s ≡ some (pos (dec_from 0 s))
set_string-some [] h k = cc h
set_string-some (c ∷ s) h k = set_string-digits c s k

append-nonempty : (s t : Text) → is_empty s ≡ false → is_empty (s ++ t) ≡ false
append-nonempty [] t h = cc h
append-nonempty (c ∷ s) t h = refl

padded_value :
    (s : Text) (k : ℕ)
    → IsPlain s
    → set_string (whole s ++ (places s ++ replicate k 48))
      ≡ some (pos (dec_from 0 (whole s ++ places s) * 10 ^ k))
padded_value s k p =
    let zeros = all_digits-zeros k in
    let tail = all_digits-append (places s) (replicate k 48) p.place_digits zeros in
    set_string-some (whole s ++ (places s ++ replicate k 48)) (append-nonempty (whole s) _ p.given)
      (all_digits-append (whole s) _ p.whole_digits tail)
    ∙ ap (λ (v : ℕ). some (pos v))
        (dec_from-append 0 (whole s) (places s ++ replicate k 48)
          ∙ dec_from-append (dec_from 0 (whole s)) (places s) (replicate k 48)
          ∙ dec_from-zeros k (dec_from (dec_from 0 (whole s)) (places s))
          ∙ ap (λ (v : ℕ). v * 10 ^ k) (sym (dec_from-append 0 (whole s) (places s))))

base_units-value :
    (s : Text) (d : ℕ)
    → IsPlain s
    → d ≤ 30
    → ltb d (byte_length (places s)) ≡ false
    → base_units s (pos d)
      ≡ some (pos (dec_from 0 (whole s ++ places s) * 10 ^ (d - byte_length (places s))))
unfolding base_units
base_units-value s d p small fits =
    let k = d - byte_length (places s) in
    ground (
      arith,
      fits,
      plain-nonempty s p,
      plain-unsigned s p,
      append-nonempty (whole s) (places s ++ replicate k 48) p.given,
      padded_value s k p,
    )

base_units-none :
    (s : Text) (d : ℕ) → ltb d (byte_length (places s)) ≡ true → base_units s (pos d) ≡ none
unfolding base_units
base_units-none s d long = ground (arith, long)

-- A plain decimal becomes exactly its digits, moved by as many places as the token has; where it has more
-- places than the token, it is refused. The token has at most 30 places.
pub decimal_to_base_units-exact :
    (typed s : Text) (d : ℕ)
    → trim_space typed ≡ s
    → is_plain_decimal s ≡ true
    → d ≤ 30
    → ((length (places s) ≤ d)
        × (decimal_to_base_units typed (pos d)
            ≡ some (pos (dec_from 0 (whole s ++ places s) * 10 ^ (d - length (places s))))))
      ⊎ ((d < length (places s)) × (decimal_to_base_units typed (pos d) ≡ none))
unfolding decimal_to_base_units
decimal_to_base_units-exact typed s d trimmed plain small =
    let p = is_plain_decimal-IsPlain s plain in
    let size = byte_length-digits (places s) p.place_digits in
    let on_s = ap (λ (t : Text). base_units t (pos d)) trimmed in
    elim (Bool-cases (ltb d (byte_length (places s)))) [
      | inl long ↦ inr (ground (arith, size, long), on_s ∙ base_units-none s d long)
      | inr short ↦ inl (
        ground (arith, size, short),
        on_s
            ∙ base_units-value s d p small short
            ∙ ap (λ (n : ℕ). some (pos (dec_from 0 (whole s ++ places s) * 10 ^ (d - n)))) size,
      )
    ]
