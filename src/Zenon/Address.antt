-- ===== src/Zenon/Address.antt =====
-- wasm/znn/htlcabi.go: parseZenonBech32, ParseAddress and ParseTokenStandard; wasm/znn/address.go. The
-- package bech32 and SHA3-256 are parameters.
use ferry_web.Prelude.{ℕ, ◌≡◌, Option, some, ◌∷◌, ◌==◌, length, take}
use ferry_web.Prelude.Text.{Text, runes, text_eq}
use ferry_web.Prelude.Bytes.{Bytes}
use ferry_web.Prelude.Result.{Result, ok, ◌>>=◌, ◌>>◌, guard, or_err}

pub data AddressError : Type 0 where
  not_bech32 other_prefix bad_bits bad_size bad_key_size not_owned : AddressError

-- Of the package bech32: Decode, Encode, and ConvertBits between 5 and 8 bits with padding.
pub record Bech32 : Type 0 where
  pub decode : Text → Option (Text × Bytes)
  pub encode : Text → Bytes → Option Text
  pub to_bytes : Bytes → Option Bytes
  pub to_digits : Bytes → Option Bytes

abbrev pub address_prefix : Text
address_prefix = runes "z"

abbrev pub token_prefix : Text
token_prefix = runes "zts"

abbrev pub address_size : ℕ
address_size = 20

module _ (b : Bech32) where
  unfoldable pub parse_zenon_bech32 : Text → Text → ℕ → Result AddressError Bytes
  unfolding text_eq
  parse_zenon_bech32 s want_hrp want_len = do
    (hrp, digits) ← or_err (b.decode s) not_bech32
    guard (text_eq hrp want_hrp) other_prefix
    raw ← or_err (b.to_bytes digits) bad_bits
    guard (length raw == want_len) bad_size
    ok raw

  unfoldable pub parse_address : Text → Result AddressError Bytes
  unfolding parse_zenon_bech32
  parse_address s = parse_zenon_bech32 s address_prefix address_size

  unfoldable pub parse_token_standard : Text → Result AddressError Bytes
  unfolding parse_zenon_bech32
  parse_token_standard s = parse_zenon_bech32 s token_prefix 10

  unfoldable pub encode_address : Bytes → Result AddressError Text
  encode_address raw = do
    guard (length raw == address_size) bad_size
    digits ← or_err (b.to_digits raw) bad_bits
    or_err (b.encode address_prefix digits) not_bech32

  module _ (sha3 : Bytes → Bytes) where
    -- The kind byte of a user, and 19 bytes of the key's digest.
    unfoldable pub derive_address : Bytes → Result AddressError Text
    unfolding encode_address
    derive_address pub_key = do
      guard (length pub_key == 32) bad_key_size
      encode_address (0 ∷ take 19 (sha3 pub_key))

    unfoldable pub address_owned_by : Text → Bytes → Result AddressError (Unit {0})
    unfolding parse_address derive_address text_eq
    address_owned_by addr pub_key = do
      _ ← parse_address addr
      derived ← derive_address pub_key
      guard (text_eq derived addr) not_owned
      ok tt

-- What is relied on of the package: what it writes it reads back.
pub record IsBech32 (b : Bech32) : Type 0 where
  pub decode-encode :
      (hrp : Text) (digits : Bytes) (s : Text)
      → b.encode hrp digits ≡ some s
      → b.decode s ≡ some (hrp, digits)
  pub bytes-digits :
      (raw digits : Bytes) → b.to_digits raw ≡ some digits → b.to_bytes digits ≡ some raw
