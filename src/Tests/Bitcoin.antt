-- ===== src/Tests/Bitcoin.antt =====
-- A small script builder and tokenizer that meets `IsTxscript`.
use native.Mathlib.Nat.{pow-suc}
use ferry_web.Prelude.Bytes.{Bytes, IsByte}
use ferry_web.Contract.Script.{
  Piece, ScriptToken, Tokens, op, int64, push, IsPlain, token_of, le_value, byte_at, IsNumber,
  Txscript, IsTxscript,
}
use ferry_web.Prelude.{
  ℕ, zero, suc, ◌+◌, ◌-◌, ◌*◌, ◌/◌, ◌%◌, ◌^◌, ◌≤◌, ◌<◌, ◌≡◌, refl, ap, subst, ◌∙◌, ◌≢◌, ◌⊎◌, inl,
  inr, true, false, ◌&&◌, none, some, List, [], ◌∷◌, ◌++◌, map, arith, ltb, leb, ◌==◌,
  if◌then◌else◌, Bool-cases, length, take, drop, All, length-append, take-append, drop-append,
}
use ferry_web.Prelude.Int.{pos, negsuc}
use ferry_web.Prelude.Int64.{half_range}

unfoldable pub le_bytes : ℕ → ℕ → Bytes
le_bytes zero n = []
le_bytes (suc f) n = elim (n == 0) [ true ↦ [] | false ↦ (n % 256) ∷ le_bytes f (n / 256) ]

pad : Bytes → Bytes
pad [] = []
pad (b ∷ []) = if leb 128 b then b ∷ 0 ∷ [] else b ∷ []
pad (b ∷ c ∷ r) = b ∷ pad (c ∷ r)

unfoldable pub number : ℕ → Bytes
unfolding le_bytes pad
number n = pad (le_bytes 8 n)

-- The last byte of a number's digits is not zero.
record IsDigits (f n : ℕ) (e : Bytes) : Type 0 where
  bytes : All IsByte e
  value : le_value e ≡ n
  size : length e ≤ f
  nil : n ≡ 0 → length e ≡ 0
  last : 0 < n → (0 < length e) × (0 < byte_at e (length e - 1))

IsDigits-cons :
    (f n : ℕ) (e : Bytes) → n ≢ 0 → IsDigits f (n / 256) e → IsDigits (suc f) n ((n % 256) ∷ e)
IsDigits-cons f n [] h d = ground arith
IsDigits-cons f n (x ∷ []) h d = ground arith
IsDigits-cons f n (x ∷ y ∷ r) h d = ground arith

le_bytes-IsDigits : (f n : ℕ) → n < 256 ^ f → IsDigits f n (le_bytes f n)
unfolding le_bytes
le_bytes-IsDigits zero n h = ground arith
le_bytes-IsDigits (suc f) n h = elim (Bool-cases (n == 0)) [
  | inl e ↦ rw (e, le_bytes) (ground arith)
  | inr e ↦
      rw (e, le_bytes)
        (IsDigits-cons f n (le_bytes f (n / 256)) (ground arith)
          (le_bytes-IsDigits f (n / 256) (omega (arith, pow-suc 256 f))))
]

record IsPadded (f n : ℕ) (e : Bytes) : Type 0 where
  bytes : All IsByte e
  value : le_value e ≡ n
  size : (0 < length e) × (length e ≤ suc f)
  sign_clear : byte_at e (length e - 1) < 128
  minimal : (0 < byte_at e (length e - 1)) ⊎ ((1 < length e) × (128 ≤ byte_at e (length e - 2)))

IsPadded-cons :
    (f n b : ℕ) (e : Bytes) → b < 256 → IsPadded f n e → IsPadded (suc f) (b + 256 * n) (b ∷ e)
IsPadded-cons f n b [] h d = absurd (omega arith)
IsPadded-cons f n b (x ∷ []) h d = ground arith
IsPadded-cons f n b (x ∷ y ∷ r) h d = ground arith

pad-IsPadded :
    (e : Bytes)
    → All IsByte e
    → 0 < length e
    → 0 < byte_at e (length e - 1)
    → IsPadded (length e) (le_value e) (pad e)
unfolding pad
pad-IsPadded [] a h k = absurd (omega arith)
pad-IsPadded (b ∷ []) a h k = ground arith
pad-IsPadded (b ∷ c ∷ r) a h k =
    IsPadded-cons _ _ b (pad (c ∷ r)) a.0 (pad-IsPadded (c ∷ r) a.1 (omega arith) (ground arith))

number-IsNumber : (n : ℕ) → 16 < n → n < half_range → IsNumber n (number n)
unfolding number
number-IsNumber n h k =
    let d = le_bytes-IsDigits 8 n (omega arith) in
    let (some_byte, not_zero) = d.last (omega arith) in
    let p = pad-IsPadded (le_bytes 8 n) d.bytes some_byte not_zero in
    record {
      bytes = p.bytes;
      value = p.value ∙ d.value;
      size = omega (arith, p, d);
      sign_clear = p.sign_clear;
      minimal = p.minimal;
    }

encode : Piece → Bytes
encode (op o) = o ∷ []
encode (int64 (pos n)) = length (number n) ∷ number n
encode (int64 (negsuc n)) = []
encode (push d) = length d ∷ d

unfoldable pub encode_all : List Piece → Bytes
unfolding encode
encode_all [] = []
encode_all (p ∷ ps) = encode p ++ encode_all ps

abbrev then_read : ScriptToken → Tokens → Tokens
then_read t rest = record { read = t ∷ rest.read; malformed = rest.malformed }

-- A push by its length, by OP_PUSHDATA1, or any other opcode.
unfoldable pub read_all : ℕ → Bytes → Tokens
read_all zero s = record { read = []; malformed = false }
read_all (suc f) [] = record { read = []; malformed = false }
read_all (suc f) (b ∷ []) =
    if leb 1 b && leb b 76
    then record { read = []; malformed = true }
    else record { read = record { op = b; bytes = none } ∷ []; malformed = false }
read_all (suc f) (b ∷ c ∷ s) =
    let long = then_read (record { op = b; bytes = some (take c s) }) (read_all f (drop c s)) in
    let short =
      then_read (record { op = b; bytes = some (take b (c ∷ s)) }) (read_all f (drop b (c ∷ s))) in
    let plain = then_read (record { op = b; bytes = none }) (read_all f (c ∷ s)) in
    let cut : Tokens = record { read = []; malformed = true } in
    if b == 76
    then (if ltb (length s) c then cut else long)
    else if leb 1 b && leb b 75
    then (if ltb (length (c ∷ s)) b then cut else short)
    else plain

read_op :
    (f o : ℕ) (s : Bytes)
    → 96 < o
    → read_all (suc f) (o ∷ s) ≡ then_read (record { op = o; bytes = none }) (read_all f s)
unfolding read_all
read_op zero o [] h = ground arith
read_op (suc f) o [] h = ground arith
read_op f o (c ∷ s) h = ground arith

read_push :
    (f : ℕ) (d s : Bytes)
    → 0 < length d
    → length d ≤ 75
    → read_all (suc f) (length d ∷ (d ++ s))
      ≡ then_read (record { op = length d; bytes = some d }) (read_all f s)
unfolding read_all
read_push f [] s h k = absurd (omega arith)
read_push f (x ∷ d) s h k = ground (
  arith,
  take-append (suc (length d)) (x ∷ d) s refl,
  drop-append (suc (length d)) (x ∷ d) s refl,
  length-append (x ∷ d) s,
)

unfoldable pub btcd : Txscript
unfolding encode_all read_all number
btcd = record {
  script = λ ps. some (encode_all ps);
  tokens = λ s. read_all (length s) s;
  number = number;
}

read_all-encode :
    (ps : List Piece) (f : ℕ)
    → All IsPlain ps
    → length (encode_all ps) ≤ f
    → read_all f (encode_all ps) ≡ record { read = map (token_of btcd) ps; malformed = false }
unfolding encode_all btcd
read_all-encode [] zero a h = refl
read_all-encode [] (suc f) a h = refl
read_all-encode (op o ∷ ps) zero a h = absurd (omega arith)
read_all-encode (op o ∷ ps) (suc f) a h =
    read_op f o (encode_all ps) a.0.0 ∙ ap (then_read _) (read_all-encode ps f a.1 (omega arith))
read_all-encode (int64 (pos n) ∷ ps) zero a h = absurd (omega arith)
read_all-encode (int64 (pos n) ∷ ps) (suc f) a h =
    let size = (number-IsNumber n a.0.0 a.0.1).size in
    read_push f (number n) (encode_all ps) size.0 (omega arith)
    ∙ ap (then_read _)
        (read_all-encode ps f a.1 (omega (arith, length-append (number n) (encode_all ps))))
read_all-encode (int64 (negsuc n) ∷ ps) f a h = absurd a.0
read_all-encode (push d ∷ ps) zero a h = absurd (omega arith)
read_all-encode (push d ∷ ps) (suc f) a h =
    read_push f d (encode_all ps) (omega arith) a.0.1
    ∙ ap (then_read _) (read_all-encode ps f a.1 (omega (arith, length-append d (encode_all ps))))

some_inj : {x y : Bytes} → some x ≡ some y → x ≡ y
some_inj e = cc

pub btcd-IsTxscript : IsTxscript btcd
unfolding btcd
btcd-IsTxscript = record {
  builds = λ ps a h. refl;
  reads = λ ps s a e.
      subst
        (λ x. read_all (length x) x ≡ record { read = map (token_of btcd) ps; malformed = false })
        (some_inj e) (read_all-encode ps (length (encode_all ps)) a (omega arith));
  numbers = number-IsNumber;
}
