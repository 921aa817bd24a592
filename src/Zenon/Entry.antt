-- ===== src/Zenon/Entry.antt =====
-- wasm/znn/client.go: HtlcInfo and the two spellings of its hash lock. Base64 is the parameter `base64`.
use ferry_web.Prelude.Bytes.{Bytes}
use ferry_web.Prelude.Hex.{hex_encode, hex_decode}
use ferry_web.Prelude.{
  ℕ, ◌+◌, ◌-◌, ◌*◌, Bool, false, ◌&&◌, ◌||◌, Option, none, some, [], ◌∷◌, leb, ◌==◌, if◌then◌else◌,
  length, is_empty,
}
use ferry_web.Prelude.Int.{ℤ, pos, sub_ℕ}
use ferry_web.Prelude.Text.{Text}

pub record HtlcInfo : Type 0 where
  pub id : Text
  pub time_locked : Text
  pub hash_locked : Text
  pub token_standard : Text
  pub amount : Text
  pub expiration_time : ℤ
  pub hash_type : ℤ
  pub key_max_size : ℤ
  pub hash_lock : Text

abbrev digest_of : Option Bytes → Option Bytes
digest_of none = none
digest_of (some b) = if length b == 32 then some b else none

module _ (base64 : Text → Option Bytes) where
  unfoldable pub hash_lock_bytes : HtlcInfo → Option Bytes
  unfolding hex_decode
  hash_lock_bytes h = elim (digest_of (base64 h.hash_lock)) [
    | some b ↦ some b
    | none ↦ elim (digest_of (hex_decode h.hash_lock)) [
      | some hb ↦ some hb
      | none ↦ base64 h.hash_lock
    ]
  ]

  unfoldable pub hash_lock_hex : HtlcInfo → Text
  unfolding hash_lock_bytes hex_encode
  hash_lock_hex h = elim (hash_lock_bytes h) [ none ↦ [] | some b ↦ hex_encode b ]

-- big.Int's SetString in base 10: a sign or none, and then digits.
unfoldable pub digits_value : ℕ → Text → Option ℕ
digits_value acc [] = some acc
digits_value acc (c ∷ s) =
    let rest = digits_value (10 * acc + (c - 48)) s in if leb 48 c && leb c 57 then rest else none

abbrev signed : Bool → Option ℕ → Option ℤ
signed negative none = none
signed negative (some n) = if negative then some (sub_ℕ 0 n) else some (pos n)

unfoldable pub set_string : Text → Option ℤ
unfolding digits_value
set_string [] = none
set_string (c ∷ s) =
    if c == 45 || c == 43
    then if is_empty s then none else signed (c == 45) (digits_value 0 s)
    else signed false (digits_value 0 (c ∷ s))
