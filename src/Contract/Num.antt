-- ===== src/Contract/Num.antt =====
-- wasm/htlc.go: scriptNum, minimallyEncoded and validLockTime.
use ferry_web.Prelude.Bytes.{Bytes}
use ferry_web.Contract.Script.{ScriptToken, le_value, byte_at}
use ferry_web.Prelude.{
  ℕ, ◌-◌, ◌*◌, ◌/◌, ◌%◌, ◌^◌, ◌≡◌, refl, ◌⊎◌, inl, inr, Bool, true, false, not, ◌&&◌, none, some,
  [], ◌∷◌, ltb, leb, ◌==◌, if◌then◌else◌, length,
}
use ferry_web.Prelude.Int.{ℤ, pos, sub_ℕ, ltb_ℤ}

pub data ContractError : Type 0 where
  refund_pkh_size redeem_pkh_size secret_hash_size : ContractError
  lock_time_is_height lock_time_too_big : ContractError
  script_too_long malformed_script wrong_token_count template_mismatch : ContractError
  not_a_number number_too_wide number_not_minimal : ContractError
  wrong_secret_size not_canonical build_failed no_preimage : ContractError

-- The result of a Go call: a value, an error, or a run-time panic.
pub data Outcome (A : Type 0) : Type 0 where
  ok : A → Outcome A
  err : ContractError → Outcome A
  panic : Outcome A

infixl 5 ◌>>=◌ ◌>>◌
abbrev pub ◌>>=◌ : {A B : Type 0} → Outcome A → (A → Outcome B) → Outcome B
panic >>= next = panic
err why >>= next = err why
ok a >>= next = next a

-- `if !c { return err }`, before what follows it.
abbrev pub guard : Bool → ContractError → Outcome (Unit {0})
guard c why = if c then ok tt else err why

abbrev pub ◌>>◌ : {B : Type 0} → Outcome (Unit {0}) → Outcome B → Outcome B
checked >> next = checked >>= (λ _. next)

abbrev pub lock_time_threshold : ℕ
lock_time_threshold = 500000000

abbrev pub max_lock_time : ℕ
max_lock_time = 0xFFFFFFFF

unfoldable pub valid_lock_time : ℤ → Outcome (Unit {0})
valid_lock_time locktime =
    if ltb_ℤ locktime (pos lock_time_threshold)
    then err lock_time_is_height
    else if ltb_ℤ (pos max_lock_time) locktime
    then err lock_time_too_big
    else ok tt

unfoldable pub minimally_encoded : Bytes → Outcome (Unit {0})
minimally_encoded d =
    if length d == 0
    then ok tt
    else if not (byte_at d (length d - 1) % 128 == 0)
    then ok tt
    else if ltb 1 (length d) && byte_at d (length d - 2) / 128 % 2 == 1
    then ok tt
    else err number_not_minimal

-- The sign bit of the last byte; reading it is an index out of range where there is no byte.
sign_bit : Bytes → Outcome Bool
sign_bit [] = panic
sign_bit (b ∷ bs) = ok (byte_at (b ∷ bs) (length bs) / 128 % 2 == 1)

-- `-v` with the sign bit taken off.
negated : ℕ → ℤ
negated v = sub_ℕ 0 v

script_num_data : Bytes → ℕ → Outcome ℤ
unfolding minimally_encoded sign_bit negated
script_num_data d max_len = do
  guard (leb (length d) max_len) number_too_wide
  minimally_encoded d
  negative ← sign_bit d
  let v = le_value d
  ok (if negative then negated (v - 128 * 256 ^ (length d - 1)) else pos v)

-- `max_len` is at most 5 where the code calls this, so the loop's shifts stay within 64 bits.
unfoldable pub script_num : ScriptToken → ℕ → Outcome ℤ
unfolding script_num_data
script_num t max_len =
    if t.op == 0
    then ok (pos 0)
    else if leb 81 t.op && leb t.op 96
    then ok (pos (t.op - 80))
    else elim t.bytes [ none ↦ err not_a_number | some d ↦ script_num_data d max_len ]

module _ {A B : Type 0} where
  -- A bind that succeeds, taken apart.
  pub >>=-eq-ok :
      (m : Outcome A) (next : A → Outcome B) {b : B}
      → (m >>= next) ≡ ok b
      → (a : A) × (m ≡ ok a) × (next a ≡ ok b)
  >>=-eq-ok panic next h = cc
  >>=-eq-ok (err why) next h = cc
  >>=-eq-ok (ok a) next h = (a, refl, h)

  -- A bind that panics does so in the first part or in the second.
  pub >>=-eq-panic :
      (m : Outcome A) (next : A → Outcome B)
      → (m >>= next) ≡ panic
      → (m ≡ panic) ⊎ ((a : A) × (m ≡ ok a) × (next a ≡ panic))
  >>=-eq-panic panic next h = inl refl
  >>=-eq-panic (err why) next h = cc
  >>=-eq-panic (ok a) next h = inr (a, refl, h)

module _ {B : Type 0} where
  pub guard-eq-ok :
      (c : Bool) (why : ContractError) (k : Outcome B) {b : B}
      → (guard c why >> k) ≡ ok b
      → (c ≡ true) × (k ≡ ok b)
  guard-eq-ok false why k h = cc
  guard-eq-ok true why k h = (refl, h)

  pub guard-eq-panic :
      (c : Bool) (why : ContractError) (k : Outcome B)
      → (guard c why >> k) ≡ panic
      → (c ≡ true) × (k ≡ panic)
  guard-eq-panic false why k h = cc
  guard-eq-panic true why k h = (refl, h)
