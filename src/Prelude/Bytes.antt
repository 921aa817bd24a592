-- ===== src/Prelude/Bytes.antt =====
-- Byte strings, and the big-endian numbers that they stand for.
use ferry_web.Prelude.Tests.{◌==◌, Bool-cases}
use ferry_web.Prelude.Lists.{length, replicate}
use Prim.Native.Nat.{ℕ, zero, suc, ◌+◌, ◌*◌, ◌/◌, ◌%◌, ◌^◌, ◌≤◌, ◌<◌}
use mathlib.Core.Path.{◌≡◌, refl}
use mathlib.Core.Logic.{inl, inr}
use mathlib.Core.Bool.{true, false}
use mathlib.Core.List.{List, [], ◌∷◌, ◌++◌}
use native.Mathlib.Nat.{pow-suc}
use native.Mathlib.Omega.{arith}

abbrev pub Bytes : Type 0
Bytes = List ℕ

abbrev pub IsByte : ℕ → Type 0
IsByte b = b < 256

abbrev pub be_from : ℕ → Bytes → ℕ
be_from acc [] = acc
be_from acc (b ∷ bs) = be_from (acc * 256 + b) bs

abbrev pub be_value : Bytes → ℕ
be_value = be_from 0

-- Go's big.Int.Bytes: the big-endian bytes of a number with no leading zero, put before `acc`. The
-- first argument bounds the rounds, and the number itself is bound enough.
pub be_onto : ℕ → ℕ → Bytes → Bytes
be_onto zero n acc = acc
be_onto (suc f) n acc = elim (n == 0) [ true ↦ acc | false ↦ be_onto f (n / 256) ((n % 256) ∷ acc) ]

unfoldable pub int_bytes : ℕ → Bytes
unfolding be_onto
int_bytes n = be_onto n n []

be_from-be_onto : (f n : ℕ) (acc : Bytes) → n ≤ f → be_from 0 (be_onto f n acc) ≡ be_from n acc
unfolding be_onto
be_from-be_onto zero n acc h = ground arith
be_from-be_onto (suc f) n acc h = elim (Bool-cases (n == 0)) [
  | inl e ↦ rw (e, be_onto) (ground arith)
  | inr e ↦ rw (e, be_onto) (ground (arith, be_from-be_onto f (n / 256) ((n % 256) ∷ acc)))
]

-- The bytes of a number stand for it.
pub be_value-int_bytes : (n : ℕ) → be_value (int_bytes n) ≡ n
unfolding int_bytes
be_value-int_bytes n = be_from-be_onto n n [] (omega arith)

length-be_onto : (k f n : ℕ) (acc : Bytes) → n < 256 ^ k → length (be_onto f n acc) ≤ k + length acc
unfolding be_onto
length-be_onto zero zero n acc h = omega arith
length-be_onto zero (suc f) n acc h = ground arith
length-be_onto (suc k) zero n acc h = omega arith
length-be_onto (suc k) (suc f) n acc h = elim (Bool-cases (n == 0)) [
  | inl e ↦ rw (e, be_onto) (omega arith)
  | inr e ↦
      rw (e, be_onto)
        (omega
          (arith, length-be_onto k f (n / 256) ((n % 256) ∷ acc) (omega (arith, pow-suc 256 k))))
]

pub length-int_bytes : (k n : ℕ) → n < 256 ^ k → length (int_bytes n) ≤ k
unfolding int_bytes
length-int_bytes k n h = omega (arith, length-be_onto k n n [] h)

pub be_from-append :
    (acc : ℕ) (xs ys : Bytes) → be_from acc (xs ++ ys) ≡ be_from (be_from acc xs) ys
be_from-append acc [] ys = refl
be_from-append acc (x ∷ xs) ys = be_from-append (acc * 256 + x) xs ys

pub be_value-zeros : (k : ℕ) → be_value (replicate k 0) ≡ 0
be_value-zeros zero = refl
be_value-zeros (suc k) = be_value-zeros k
