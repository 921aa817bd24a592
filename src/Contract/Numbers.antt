-- ===== src/Contract/Numbers.antt =====
-- Script numbers: the reader against the encoding that the builder emits.
use ferry_web.Prelude.Bytes.{Bytes, IsByte}
use ferry_web.Contract.Script.{ScriptToken, le_value, byte_at, IsNumber}
use native.Mathlib.Nat.{pow-suc}
use ferry_web.Contract.Num.{ok, panic, script_num, max_lock_time}
use ferry_web.Prelude.{
  ℕ, zero, suc, ◌-◌, ◌^◌, ◌≤◌, ◌<◌, ◌≡◌, refl, ◌≢◌, ◌↔◌, ◌⊎◌, Option, none, some, [], ◌∷◌, arith,
  length, All,
}
use ferry_web.Prelude.Int.{pos}

abbrev EndsWell : Bytes → Type 0
EndsWell e = (0 < byte_at e (length e - 1)) ⊎ ((1 < length e) × (128 ≤ byte_at e (length e - 2)))

last-cons :
    (a b : ℕ) (r : Bytes)
    → byte_at (a ∷ b ∷ r) (length (a ∷ b ∷ r) - 1) ≡ byte_at (b ∷ r) (length (b ∷ r) - 1)
last-cons a b r = ground arith

EndsWell-cons : (a b c : ℕ) (r : Bytes) → EndsWell (a ∷ b ∷ c ∷ r) → EndsWell (b ∷ c ∷ r)
EndsWell-cons a b c r h = ground arith

-- Two or more bytes with no padding make at least 128.
EndsWell-le : (e : Bytes) → 1 < length e → EndsWell e → 128 ≤ le_value e
EndsWell-le [] h w = absurd (omega arith)
EndsWell-le (a ∷ []) h w = absurd (omega arith)
EndsWell-le (a ∷ b ∷ []) h w = ground arith
EndsWell-le (a ∷ b ∷ c ∷ r) h w =
    omega (arith, EndsWell-le (b ∷ c ∷ r) (omega arith) (EndsWell-cons a b c r w))

-- A timestamp of 32 bits takes five bytes at most.
pub length-number-le : (n : ℕ) (e : Bytes) → IsNumber n e → n ≤ max_lock_time → length e ≤ 5
length-number-le n (a ∷ b ∷ c ∷ d ∷ f ∷ g ∷ r) w h = ground (arith, EndsWell-le (f ∷ g ∷ r))
length-number-le n _ w h = omega arith

pub byte_at-lt : (e : Bytes) (i : ℕ) → All IsByte e → byte_at e i < 256
byte_at-lt [] i h = omega arith
byte_at-lt (b ∷ e) zero h = h.0
byte_at-lt (b ∷ e) (suc i) h = byte_at-lt e i h.1

-- A number below 2 ^ 31 takes four bytes at most.
pub length-small-le : (n : ℕ) (e : Bytes) → IsNumber n e → n < 2147483648 → length e ≤ 4
length-small-le n (a ∷ b ∷ c ∷ d ∷ f ∷ r) w h = ground (arith, EndsWell-le (d ∷ f ∷ r))
length-small-le n _ w h = omega arith

-- The reader gives back the number that the builder wrote, within the width that it accepts.
pub script_num-number :
    (n : ℕ) (e : Bytes) (max_len : ℕ)
    → IsNumber n e
    → length e ≤ max_len
    → script_num (record { op = length e; bytes = some e }) max_len ≡ ok (pos n)
unfolding script_num
script_num-number n [] max_len w h = ground arith
script_num-number n (b ∷ bs) max_len w h =
    ground (arith, byte_at-lt (b ∷ bs) (length (b ∷ bs) - 2) w.bytes)

-- A byte string that the reader takes as a number, in at most five bytes, is below 2 ^ 39.
pub le_value-lt : (e : Bytes) → All IsByte e → le_value e < 256 ^ length e
le_value-lt [] h = omega arith
le_value-lt (b ∷ e) h = simp pow-suc (omega (arith, le_value-lt e h.1))

-- The tokens at which the reader goes out of range: a push of no bytes, by an opcode that is not
-- itself a number.
abbrev pub IsEmptyPush : ScriptToken → Type 0
IsEmptyPush t = (t.op ≢ 0) × ((t.op < 81) ⊎ (96 < t.op)) × (t.bytes ≡ some [])

IsEmptyPush-of :
    (t : ScriptToken) (max_len : ℕ) (o : Option Bytes)
    → t.bytes ≡ o
    → script_num t max_len ≡ panic
    → IsEmptyPush t
unfolding script_num
IsEmptyPush-of t max_len none e h = ground arith
IsEmptyPush-of t max_len (some []) e h = (ground arith, ground arith, e)
IsEmptyPush-of t max_len (some (b ∷ bs)) e h = ground arith

-- A push of no bytes at all is not refused: reading its sign bit goes out of range, and nothing else does.
pub script_num-panics :
    (t : ScriptToken) (max_len : ℕ) → (script_num t max_len ≡ panic) ↔ IsEmptyPush t
unfolding script_num
script_num-panics t max_len = (IsEmptyPush-of t max_len t.bytes refl, λ h. ground arith)
