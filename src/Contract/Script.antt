-- ===== src/Contract/Script.antt =====
-- What htlc.go takes from btcd's package txscript: a builder and a tokenizer, as the parameter
-- `Txscript`, with what the code relies on in `IsTxscript`.
use ferry_web.Prelude.Bytes.{Bytes, IsByte}
use ferry_web.Prelude.{
  ℕ, zero, suc, ◌+◌, ◌-◌, ◌*◌, ◌≤◌, ◌<◌, ◌≡◌, ◌⊎◌, Bool, true, false, Option, none, some, List, [],
  ◌∷◌, map, length, is_some, All,
}
use ferry_web.Prelude.Int.{ℤ, pos, negsuc}
use ferry_web.Prelude.Int64.{half_range}

-- One call of the builder: AddOp, AddInt64 or AddData.
pub data Piece : Type 0 where
  op : ℕ → Piece
  int64 : ℤ → Piece
  push : Bytes → Piece

-- scriptToken: an opcode, and the data that it carries, where `none` is nil.
pub record ScriptToken : Type 0 where
  pub op : ℕ
  pub bytes : Option Bytes

-- The tokens that the tokenizer gives before it stops, and whether it stopped at an error.
pub record Tokens : Type 0 where
  pub read : List ScriptToken
  pub malformed : Bool

pub record Txscript : Type 0 where
  -- ScriptBuilder.Script after these calls; `none` is an error.
  pub script : List Piece → Option Bytes
  -- ScriptTokenizer over a script.
  pub tokens : Bytes → Tokens
  -- The number encoding of AddInt64.
  pub number : ℕ → Bytes

-- A little-endian number.
abbrev pub le_value : Bytes → ℕ
le_value [] = 0
le_value (b ∷ bs) = b + 256 * le_value bs

abbrev pub byte_at : Bytes → ℕ → ℕ
byte_at [] i = 0
byte_at (b ∷ bs) zero = b
byte_at (b ∷ bs) (suc i) = byte_at bs i

-- An opcode that carries no data, a push that needs no shorter form, a number above OP_16.
abbrev pub IsPlain : Piece → Type 0
IsPlain (op o) = (96 < o) × (o < 256)
IsPlain (int64 (pos n)) = (16 < n) × (n < half_range)
IsPlain (int64 (negsuc n)) = ⊥
IsPlain (push d) = (1 < length d) × (length d ≤ 75)

abbrev pub token_of : Txscript → Piece → ScriptToken
token_of t (op o) = record { op = o; bytes = none }
token_of t (int64 (pos n)) = record { op = length (t.number n); bytes = some (t.number n) }
token_of t (int64 (negsuc n)) = record { op = 0; bytes = none }
token_of t (push d) = record { op = length d; bytes = some d }

-- How a number above OP_16 is written: little-endian bytes, the last of them neither 0 padding nor
-- with the sign bit, unless the byte below needs it.
pub record IsNumber (n : ℕ) (e : Bytes) : Type 0 where
  pub bytes : All IsByte e
  pub value : le_value e ≡ n
  pub size : (0 < length e) × (length e ≤ 9)
  pub sign_clear : byte_at e (length e - 1) < 128
  pub minimal : (0 < byte_at e (length e - 1)) ⊎ ((1 < length e) × (128 ≤ byte_at e (length e - 2)))

-- The documented behaviour of the package, on the scripts that htlc.go builds.
pub record IsTxscript (t : Txscript) : Type 0 where
  pub builds : (ps : List Piece) → All IsPlain ps → length ps ≤ 32 → is_some (t.script ps) ≡ true
  pub reads :
      (ps : List Piece) (s : Bytes)
      → All IsPlain ps
      → t.script ps ≡ some s
      → t.tokens s ≡ record { read = map (token_of t) ps; malformed = false }
  pub numbers : (n : ℕ) → 16 < n → n < half_range → IsNumber n (t.number n)
