-- ===== src/Abi/Words.antt =====
-- wasm/znn/htlcabi.go: leftPad, packInt and packBytes.
use ferry_web.Prelude.Bytes.{
  Bytes, int_bytes, be_value, be_from, be_from-append, be_value-zeros, be_value-int_bytes,
  length-int_bytes,
}
use native.Mathlib.Nat.{add-zero}
use ferry_web.Prelude.{
  ℕ, ◌+◌, ◌-◌, ◌*◌, ◌/◌, ◌^◌, ◌≤◌, ◌<◌, ◌≡◌, refl, sym, ap, ◌∙◌, inl, inr, ◌++◌, arith, leb,
  if◌then◌else◌, Bool-cases, length, take, drop, replicate, length-append, length-replicate,
  length-drop, length-take, take-append, drop-append, take-take, take-append-drop,
}
use ferry_web.Prelude.Int.{ℤ, pos, pos_part, neg_part}

abbrev pub word_size : ℕ
word_size = 32

-- The low-order 32 bytes of a value that is longer, zeros before one that is shorter.
unfoldable pub left_pad : Bytes → Bytes
left_pad v =
    if leb word_size (length v)
    then drop (length v - word_size) v
    else replicate (word_size - length v) 0 ++ v

-- The absolute value of a big.Int is what Bytes writes.
abbrev pub magnitude : ℤ → ℕ
magnitude z = pos_part z + neg_part z

unfoldable pub pack_int : ℤ → Bytes
unfolding left_pad
pack_int v = left_pad (int_bytes (magnitude v))

-- A value at the front of a zeroed body of this size.
abbrev right_pad : ℕ → Bytes → Bytes
right_pad size v = take size (v ++ replicate (size - length v) 0)

unfoldable pub pack_bytes : Bytes → Bytes
pack_bytes v =
    let padded = (length v + word_size - 1) / word_size * word_size in
    pack_int (pos (length v)) ++ right_pad padded v

pub length-left_pad : (v : Bytes) → length (left_pad v) ≡ 32
unfolding left_pad
length-left_pad v = ground (
  arith,
  length-drop (length v - 32) v,
  length-replicate {A = ℕ} (32 - length v) 0,
  length-append (replicate {A = ℕ} (32 - length v) 0) v,
)

none_over : (n : ℕ) → n ≤ 32 → n - 32 ≡ 0
none_over n h = omega arith

pub be_value-left_pad : (v : Bytes) → length v ≤ 32 → be_value (left_pad v) ≡ be_value v
unfolding left_pad
be_value-left_pad v h = elim (Bool-cases (leb 32 (length v))) [
  | inl e ↦ rw (e, left_pad) (rw (none_over (length v) h))
  | inr e ↦
      rw (e, left_pad)
        (be_from-append 0 (replicate (32 - length v) 0) v
          ∙ ap (λ a. be_from a v) (be_value-zeros (32 - length v)))
]

pub be_value-pack_int : (n : ℕ) → n < 2 ^ 64 → be_value (pack_int (pos n)) ≡ n
unfolding pack_int
be_value-pack_int n h =
    rw add-zero (
      be_value-left_pad (int_bytes n) (omega (arith, length-int_bytes 8 n h))
      ∙ be_value-int_bytes n)

pub length-pack_int : (z : ℤ) → length (pack_int z) ≡ 32
unfolding pack_int
length-pack_int z = length-left_pad (int_bytes (magnitude z))

pub length-pack_bytes : (v : Bytes) → length (pack_bytes v) ≡ 32 + (length v + 31) / 32 * 32
unfolding pack_bytes
length-pack_bytes v =
    let m = (length v + word_size - 1) / word_size * word_size in
    length-append (pack_int (pos (length v))) _
    ∙ omega (
      arith,
      length-pack_int (pos (length v)),
      length-take m (v ++ replicate (m - length v) 0),
      length-append v (replicate (m - length v) 0),
      length-replicate {A = ℕ} (m - length v) 0,
    )

-- A value of at most 32 bytes ends its word.
pub left_pad_ends : (v : Bytes) (k : ℕ) → length v + k ≡ 32 → drop k (left_pad v) ≡ v
unfolding left_pad
left_pad_ends v k h = elim (Bool-cases (leb 32 (length v))) [
  | inl e ↦
      let is_zero : k ≡ 0 = ground arith in
      rw (e, left_pad) (rw is_zero (rw (none_over (length v) (omega arith))))
  | inr e ↦
      let is_rest : 32 - length v ≡ k = omega arith in
      rw (e, left_pad) (rw is_rest (drop-append k (replicate k 0) v (length-replicate {A = ℕ} k 0)))
]

-- The tail of a dynamic value is its length, and then the value.
pub pack_bytes_starts :
    (v : Bytes)
    → (take (length v) (drop 32 (pack_bytes v)) ≡ v)
      × (take 32 (pack_bytes v) ≡ pack_int (pos (length v)))
unfolding pack_bytes
pack_bytes_starts v =
    let m = (length v + word_size - 1) / word_size * word_size in
    let size = length-pack_int (pos (length v)) in
    let body = right_pad m v in
    (
      ap (take (length v)) (drop-append 32 (pack_int (pos (length v))) body size)
          ∙ take-take (length v) m (v ++ replicate (m - length v) 0) (omega arith)
          ∙ take-append (length v) v (replicate (m - length v) 0) refl,
      take-append 32 (pack_int (pos (length v))) body size,
    )

pub pack_bytes_split : (v : Bytes) → (w : Bytes) × (ys : Bytes) × (pack_bytes v ≡ w ++ (v ++ ys))
pack_bytes_split v =
    let tail = drop 32 (pack_bytes v) in
    let inner : v ++ drop (length v) tail ≡ tail =
      ap (λ x. x ++ drop (length v) tail) (sym (pack_bytes_starts v).0)
      ∙ take-append-drop (length v) tail in
    (
      take 32 (pack_bytes v),
      drop (length v) tail,
      sym (take-append-drop 32 (pack_bytes v)) ∙ ap (λ x. take 32 (pack_bytes v) ++ x) (sym inner),
    )
