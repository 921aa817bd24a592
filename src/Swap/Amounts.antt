-- ===== src/Swap/Amounts.antt =====
-- wasm/offerterms.go: normalDecimal keeps the value of a plain decimal.
use ferry_web.Prelude.{
  ℕ, zero, suc, ◌+◌, ◌-◌, ◌*◌, ◌^◌, ◌≡◌, refl, sym, ap, ap₂, subst, ◌∙◌, ◌⊎◌, inl, inr, Bool, true,
  false, none, some, [], ◌∷◌, ◌++◌, arith, ◌==◌, if◌then◌else◌, Bool-cases, length, replicate,
  is_empty, All, length-append, length-replicate,
}
use ferry_web.Prelude.Text.{Text, trim_left, trim_right, trim_space}
use native.Mathlib.Nat.{pow-zero, pow-suc}
use ferry_web.Prelude.Text.{is_space}
use ferry_web.Swap.Offer.{
  before_point, after_point, points, has_sign_or_exponent, trim_plus, or_zero, normal_decimal,
}
use ferry_web.Swap.Wellformed.{IsDigit, IsDecimal}
use ferry_web.Zenon.Exact.{dec_from, dec_from-append, dec_from-zeros}

-- The digits of a decimal, before its point and behind it.
pub record Digits (t : Text) : Type 0 where
  pub whole : Text
  pub places : Text
  pub some_whole : is_empty whole ≡ false
  pub whole_digits : All IsDigit whole
  pub places_digits : All IsDigit places
  pub written : (t ≡ whole) × (places ≡ []) ⊎ (t ≡ whole ++ (46 ∷ places))

is_zero : ℕ → Bool
is_zero c = c == 48

before_point-digits : (w f : Text) → All IsDigit w → before_point (w ++ (46 ∷ f)) ≡ w
unfolding before_point
before_point-digits [] f h = refl
before_point-digits (c ∷ w) f h = ground (arith, before_point-digits w f)

after_point-digits : (w f : Text) → All IsDigit w → after_point (w ++ (46 ∷ f)) ≡ some f
unfolding after_point
after_point-digits [] f h = refl
after_point-digits (c ∷ w) f h = ground (arith, after_point-digits w f)

before_point-whole : (w : Text) → All IsDigit w → before_point w ≡ w
unfolding before_point
before_point-whole [] h = refl
before_point-whole (c ∷ w) h = ground (arith, before_point-whole w)

after_point-whole : (w : Text) → All IsDigit w → after_point w ≡ none
unfolding after_point
after_point-whole [] h = refl
after_point-whole (c ∷ w) h = ground (arith, after_point-whole w)

-- Zeros in front do not count.
trim_left-value : (w : Text) → dec_from 0 (or_zero (trim_left is_zero w)) ≡ dec_from 0 w
unfolding trim_left is_zero or_zero
trim_left-value [] = refl
trim_left-value (c ∷ w) = elim (Bool-cases (c == 48)) [
  | inr other ↦ rw (trim_left, other) refl
  | inl zero_ ↦
      let same : c ≡ 48 = ground arith in
      rw (trim_left, zero_) (trim_left-value w ∙ ap (λ x. dec_from (0 + (x - 48)) w) (sym same))
]

trim_left-digits : (w : Text) → All IsDigit w → All IsDigit (or_zero (trim_left is_zero w))
unfolding trim_left is_zero or_zero
trim_left-digits [] h = ((omega arith, omega arith), tt)
trim_left-digits (c ∷ w) h = elim (Bool-cases (c == 48)) [
  | inr other ↦ rw (trim_left, other) h
  | inl zero_ ↦ rw (trim_left, zero_) (trim_left-digits w h.1)
]

List-cases : (s : Text) → (s ≡ []) ⊎ ((d : ℕ) × (t : Text) × (s ≡ d ∷ t))
List-cases [] = inl refl
List-cases (d ∷ t) = inr (d, t, refl)

-- The zeros at the end are split off.
trim_right-zeros : (f : Text) → (k : ℕ) × (f ≡ trim_right is_zero f ++ replicate k 48)
unfolding trim_right is_zero
trim_right-zeros [] = (0, refl)
trim_right-zeros (c ∷ f) =
    let (k, split) = trim_right-zeros f in
    elim (List-cases (trim_right is_zero f)) [
      | inl blank ↦ elim (Bool-cases (c == 48)) [
        | inl zero_ ↦
            let same : c ≡ 48 = ground arith in
            let rest : f ≡ replicate k 48 = rw blank at split in
            (suc k, rw (trim_right, blank, zero_) (ap₂ (λ x (y : Text). x ∷ y) same rest))
        | inr other ↦
            let rest : f ≡ replicate k 48 = rw blank at split in
            (k, rw (trim_right, blank, other) (ap (◌∷◌ c) rest))
      ]
      | inr (d, t, kept) ↦
          let rest : f ≡ (d ∷ t) ++ replicate k 48 = rw kept at split in
          (k, rw (trim_right, kept) (ap (◌∷◌ c) rest))
    ]

no_space : (p : ℕ → Bool) (t : Text) → All (λ c. p c ≡ false) t → trim_left p t ≡ t
unfolding trim_left
no_space p [] h = refl
no_space p (c ∷ t) h = rw (h.0, trim_left) refl

no_space_behind : (p : ℕ → Bool) (t : Text) → All (λ c. p c ≡ false) t → trim_right p t ≡ t
unfolding trim_right
no_space_behind p [] h = refl
no_space_behind p (c ∷ []) h = rw (h.0, trim_right) refl
no_space_behind p (c ∷ d ∷ t) h = rw (trim_right, no_space_behind p (d ∷ t) h.1) refl

-- The characters of a decimal.
abbrev Mark : ℕ → Type 0
Mark c = IsDigit c ⊎ (c ≡ 46)

Mark-digits : (w : Text) → All IsDigit w → All Mark w
Mark-digits [] h = tt
Mark-digits (c ∷ w) h = (inl h.0, Mark-digits w h.1)

Mark-point : (w f : Text) → All IsDigit w → All IsDigit f → All Mark (w ++ (46 ∷ f))
Mark-point [] f h k = (inr refl, Mark-digits f k)
Mark-point (c ∷ w) f h k = (inl h.0, Mark-point w f h.1 k)

Mark-space : (c : ℕ) → Mark c → is_space c ≡ false
unfolding is_space
Mark-space c m = elim m [ inl d ↦ ground arith | inr e ↦ ground arith ]

Marks-space : (t : Text) → All Mark t → All (λ c. is_space c ≡ false) t
Marks-space [] h = tt
Marks-space (c ∷ t) h = (Mark-space c h.0, Marks-space t h.1)

Marks-trim : (t : Text) → All Mark t → trim_space t ≡ t
unfolding trim_space
Marks-trim t h =
    let s = Marks-space t h in
    ap (trim_right is_space) (no_space is_space t s) ∙ no_space_behind is_space t s

Marks-plus : (t : Text) → All Mark t → trim_plus t ≡ t
unfolding trim_plus
Marks-plus [] h = refl
Marks-plus (c ∷ t) h =
    let other : (c == 43) ≡ false = elim h.0 [ inl d ↦ ground arith | inr e ↦ ground arith ] in
    rw (trim_plus, other) refl

Marks-sign : (t : Text) → All Mark t → has_sign_or_exponent t ≡ false
unfolding has_sign_or_exponent
Marks-sign [] h = refl
Marks-sign (c ∷ t) h =
    let r = Marks-sign t h.1 in elim h.0 [ inl d ↦ ground (arith, r) | inr e ↦ ground (arith, r) ]

points-digits : (w : Text) → All IsDigit w → points w ≡ 0
unfolding points
points-digits [] h = refl
points-digits (c ∷ w) h = ground (arith, points-digits w h.1)

points-point : (w f : Text) → All IsDigit w → All IsDigit f → points (w ++ (46 ∷ f)) ≡ 1
unfolding points
points-point [] f h k = ground (arith, points-digits f k)
points-point (c ∷ w) f h k = ground (arith, points-point w f h.1 k)

-- A decimal without the zeros that do not count.
norm : Text → Text → Text
norm w f =
    let whole = or_zero (trim_left is_zero w) in
    let frac = trim_right is_zero f in if is_empty frac then whole else whole ++ (46 ∷ frac)

given_digits : (w f : Text) → is_empty w ≡ false → is_empty (w ++ f) ≡ false
given_digits [] f h = cc h
given_digits (c ∷ w) f h = refl

normal-norm : (t : Text) (d : Digits t) → normal_decimal t ≡ norm d.whole d.places
unfolding normal_decimal norm is_zero
normal-norm t d = elim d.written [
  | inl (is_whole, no_places) ↦
      let marks : All Mark t =
        subst (All Mark) (sym is_whole) (Mark-digits d.whole d.whole_digits) in
      let s = Marks-trim t marks in
      let p = Marks-plus t marks in
      let core : trim_space (trim_plus (trim_space t)) ≡ t =
        ap (λ x. trim_space (trim_plus x)) s ∙ ap trim_space p ∙ s in
      let n = Marks-sign t marks in
      let one : points t ≡ 0 = ap points is_whole ∙ points-digits d.whole d.whole_digits in
      let before = ap before_point is_whole ∙ before_point-whole d.whole d.whole_digits in
      let after = ap after_point is_whole ∙ after_point-whole d.whole d.whole_digits in
      let given : is_empty t ≡ false = ap is_empty is_whole ∙ d.some_whole in
      rw (normal_decimal, core, given, n, one, after, core, before, norm, no_places) refl
  | inr is_point ↦
      let marks : All Mark t =
        subst (All Mark) (sym is_point)
          (Mark-point d.whole d.places d.whole_digits d.places_digits) in
      let s = Marks-trim t marks in
      let p = Marks-plus t marks in
      let core : trim_space (trim_plus (trim_space t)) ≡ t =
        ap (λ x. trim_space (trim_plus x)) s ∙ ap trim_space p ∙ s in
      let n = Marks-sign t marks in
      let one : points t ≡ 1 =
        ap points is_point ∙ points-point d.whole d.places d.whole_digits d.places_digits in
      let before = ap before_point is_point ∙ before_point-digits d.whole d.places d.whole_digits in
      let after = ap after_point is_point ∙ after_point-digits d.whole d.places d.whole_digits in
      let given : is_empty t ≡ false =
        ap is_empty is_point ∙ given_digits d.whole (46 ∷ d.places) d.some_whole in
      rw (normal_decimal, core, given, n, one, after, core, before, norm) refl
]

norm-before : (w f : Text) → All IsDigit w → before_point (norm w f) ≡ or_zero (trim_left is_zero w)
unfolding norm
norm-before w f h =
    let digits = trim_left-digits w h in
    elim (Bool-cases (is_empty (trim_right is_zero f))) [
      | inl none_ ↦ rw (norm, none_) (before_point-whole _ digits)
      | inr some_ ↦ rw (norm, some_) (before_point-digits _ (trim_right is_zero f) digits)
    ]

-- What stands behind the point, if anything.
behind : Text → Text
behind t = elim (after_point t) [ none ↦ [] | some f ↦ f ]

empty-nil : (s : Text) → is_empty s ≡ true → s ≡ []
empty-nil [] h = refl
empty-nil (c ∷ s) h = cc h

norm-behind : (w f : Text) → All IsDigit w → behind (norm w f) ≡ trim_right is_zero f
unfolding norm behind
norm-behind w f h =
    let digits = trim_left-digits w h in
    elim (Bool-cases (is_empty (trim_right is_zero f))) [
      | inl none_ ↦
          rw (norm, none_, behind, after_point-whole (or_zero (trim_left is_zero w)) digits)
            (sym (empty-nil (trim_right is_zero f) none_))
      | inr some_ ↦
          rw
            (
              norm,
              some_,
              behind,
              after_point-digits (or_zero (trim_left is_zero w)) (trim_right is_zero f) digits,
            )
            refl
    ]

times_ten : (x y : ℕ) → x * y * 10 ≡ x * 10 * y
times_ten x y = grind arith

pow_split : (k n : ℕ) → 10 ^ (k + n) ≡ 10 ^ k * 10 ^ n
pow_split zero n =
    let e : 0 + n ≡ n = omega arith in
    let one : (x : ℕ) → x ≡ 1 * x = λ x. omega arith in
    ap (λ x. 10 ^ x) e ∙ one (10 ^ n) ∙ ap (λ x. x * 10 ^ n) (sym (pow-zero 10))
pow_split (suc k) n =
    let e : suc k + n ≡ suc (k + n) = omega arith in
    ap (λ x. 10 ^ x) e
    ∙ pow-suc 10 (k + n)
    ∙ ap (λ x. x * 10) (pow_split k n)
    ∙ times_ten (10 ^ k) (10 ^ n)
    ∙ ap (λ x. x * 10 ^ n) (sym (pow-suc 10 k))

-- The value of a decimal: its digits as one number, and how many of them are behind the point.
unnormed :
    (w f : Text)
    → (k : ℕ) × (length f ≡ length (trim_right is_zero f) + k)
      × (dec_from 0 (w ++ f)
          ≡ dec_from (dec_from 0 (or_zero (trim_left is_zero w))) (trim_right is_zero f) * 10 ^ k)
unnormed w f =
    let (k, split) = trim_right-zeros f in
    let front = trim_left-value w in
    (
      k,
      ap length split
          ∙ length-append (trim_right is_zero f) (replicate k 48)
          ∙ ap (λ n. length (trim_right is_zero f) + n) (length-replicate k 48),
      dec_from-append 0 w f
          ∙ ap (dec_from (dec_from 0 w)) split
          ∙ dec_from-append (dec_from 0 w) (trim_right is_zero f) (replicate k 48)
          ∙ dec_from-zeros k (dec_from (dec_from 0 w) (trim_right is_zero f))
          ∙ ap (λ x. dec_from x (trim_right is_zero f) * 10 ^ k) (sym front),
    )

rearrange : (v p q r : ℕ) → v * p * (r * q) ≡ v * q * (r * p)
rearrange v p q r = grind arith

cross : (v a b l : ℕ) → v * 10 ^ a * 10 ^ (l + b) ≡ v * 10 ^ b * 10 ^ (l + a)
cross v a b l = rw (pow_split l b, pow_split l a) (rearrange v (10 ^ a) (10 ^ b) (10 ^ l))

-- Two decimals of one normal form have one value.
abbrev pub SameValue : (s t : Text) → Digits s → Digits t → Type 0
SameValue s t d e =
    dec_from 0 (d.whole ++ d.places) * 10 ^ length e.places
    ≡ dec_from 0 (e.whole ++ e.places) * 10 ^ length d.places

pub normal_decimal-SameValue :
    (s t : Text) (d : Digits s) (e : Digits t)
    → normal_decimal s ≡ normal_decimal t
    → SameValue s t d e
normal_decimal-SameValue s t d e h =
    let same = sym (normal-norm s d) ∙ h ∙ normal-norm t e in
    let front : or_zero (trim_left is_zero d.whole) ≡ or_zero (trim_left is_zero e.whole) =
      sym (norm-before d.whole d.places d.whole_digits)
      ∙ ap before_point same
      ∙ norm-before e.whole e.places e.whole_digits in
    let back : trim_right is_zero d.places ≡ trim_right is_zero e.places =
      sym (norm-behind d.whole d.places d.whole_digits)
      ∙ ap behind same
      ∙ norm-behind e.whole e.places e.whole_digits in
    let (a, la, va) = unnormed d.whole d.places in
    let (b, lb, vb) = unnormed e.whole e.places in
    let v =
      dec_from (dec_from 0 (or_zero (trim_left is_zero d.whole))) (trim_right is_zero d.places) in
    let l = length (trim_right is_zero d.places) in
    let same_v : dec_from (dec_from 0 (or_zero (trim_left is_zero e.whole)))
          (trim_right is_zero e.places)
        ≡ v =
      ap₂ (λ x y. dec_from (dec_from 0 x) y) (sym front) (sym back) in
    let vb' : dec_from 0 (e.whole ++ e.places) ≡ v * 10 ^ b = vb ∙ ap (λ x. x * 10 ^ b) same_v in
    let lb' : length e.places ≡ l + b = lb ∙ ap (λ (x : Text). length x + b) (sym back) in
    ap₂ (λ x y. x * 10 ^ y) va lb' ∙ cross v a b l ∙ ap₂ (λ x y. x * 10 ^ y) (sym vb') (sym la)

pub IsDecimal-Digits : (t : Text) → IsDecimal t → Digits t
IsDecimal-Digits t h = elim h.rest [
  | inl same ↦ record {
    whole = h.whole;
    places = [];
    some_whole = h.some_whole;
    whole_digits = h.digits;
    places_digits = tt;
    written = inl (same, refl);
  }
  | inr (f, _, digits, same) ↦ record {
    whole = h.whole;
    places = f;
    some_whole = h.some_whole;
    whole_digits = h.digits;
    places_digits = digits;
    written = inr same;
  }
]
