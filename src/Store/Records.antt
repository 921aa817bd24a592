-- ===== src/Store/Records.antt =====
-- wasm/store.go: Store, over a key/value storage whose quota is the parameter `full`, and over the JSON
-- of a record.
use ferry_web.Prelude.Bytes.{Bytes}
use ferry_web.Prelude.Result.{Result, ok, err, ◌>>=◌, ◌>>◌, guard, or_err}
use ferry_web.Contract.Script.{Txscript}
use ferry_web.Contract.Num
use ferry_web.Contract.Parse.{parse_contract}
use ferry_web.Swap.Record.{Swap, network_params}
use ferry_web.Swap.Terms.{withdraw_stale_verdict}
use ferry_web.Prelude.{
  ℕ, ◌≡◌, Bool, true, false, not, ◌&&◌, ◌||◌, Option, none, some, [], ◌∷◌, ◌++◌, ltb, leb, ◌==◌,
  if◌then◌else◌, length, is_empty, is_some,
}
use ferry_web.Prelude.Int.{ℤ, pos, eqb_ℤ}
use ferry_web.Prelude.Int64.{add64}
use ferry_web.Prelude.Text.{Text, text_eq}

pub data StoreError : Type 0 where
  bad_id stale_write no_swap corrupt quota not_allowed panicked : StoreError

-- encoding/json, on records.
pub record Json : Type 0 where
  pub encode : Swap → Text
  pub decode : Text → Option Swap
  pub version_of : Text → Option ℤ

-- What is written carries its version.
pub record IsJson (j : Json) : Type 0 where
  pub version_of-encode : (s : Swap) → j.version_of (j.encode s) ≡ some s.version

abbrev pub Backing : Type 0
Backing = Text → Option Text

unfoldable pub put : Backing → Text → Option Text → Backing
unfolding text_eq
put b k v k' = if text_eq k' k then v else b k'

-- strings.ContainsRune("0123456789abcdef", r).
is_hex : ℕ → Bool
is_hex r = (leb 48 r && leb r 57) || (leb 97 r && leb r 102)

all_hex : Text → Bool
unfolding is_hex
all_hex [] = true
all_hex (c ∷ s) = is_hex c && all_hex s

-- Store.key, with the prefix of the build.
unfoldable pub key : Text → Text → Result StoreError Text
unfolding all_hex
key prefix id = do
  guard (not (is_empty id || ltb 64 (length id))) bad_id
  guard (all_hex id) bad_id
  ok (prefix ++ id)

pub data ValidateError : Type 0 where
  no_id id_not_hex unknown_network no_key priv_size pub_size pkh_size : ValidateError
  pub_not_of_priv pkh_not_of_pub hash_size secret_size secret_not_of_hash bad_contract :
      ValidateError

pub data Validity : Type 0 where
  valid : Validity
  invalid : ValidateError → Validity
  panics : Validity

infixl 5 ◌and_then◌
abbrev ◌and_then◌ : Result ValidateError (Unit {0}) → Validity → Validity
ok _ and_then v = v
err e and_then v = invalid e

abbrev is_ok : {A : Type 0} → Result StoreError A → Bool
is_ok (ok _) = true
is_ok (err _) = false

-- The public key of a private key, Hash160 and SHA-256 are the packages'.
module _ (t : Txscript) (pub_of : Bytes → Bytes) (hash160 : Bytes → Bytes)
    (sha256 : Bytes → Bytes) where
  unfoldable pub validate : Swap → Validity
  unfolding key network_params text_eq parse_contract
  validate s =
      guard (not (is_empty s.id)) no_id
      and_then (guard (is_ok (key [] s.id)) id_not_hex
          and_then (guard (is_some (network_params s.network)) unknown_network and_then elim s.key [
            | none ↦ invalid no_key
            | some k ↦
                guard (length k.priv == 32) priv_size
                and_then (guard (length k.pub_key == 33) pub_size
                    and_then (guard (length k.pkh == 20) pkh_size
                        and_then (guard (text_eq (pub_of k.priv) k.pub_key) pub_not_of_priv
                            and_then (guard (text_eq (hash160 k.pub_key) k.pkh) pkh_not_of_pub
                                and_then (guard
                                      (is_empty s.secret_hash || length s.secret_hash == 32)
                                      hash_size
                                    and_then (guard (is_empty s.secret || length s.secret == 32)
                                          secret_size
                                        and_then (guard
                                              (is_empty s.secret
                                                || is_empty s.secret_hash
                                                || text_eq (sha256 s.secret) s.secret_hash)
                                              secret_not_of_hash
                                            and_then (if is_empty s.contract
                                                then valid
                                                else elim (parse_contract t s.contract) [
                                                  | Num.ok _ ↦ valid
                                                  | Num.err _ ↦ invalid bad_contract
                                                  | Num.panic ↦ panics
                                                ]))))))))
          ]))

module _ (j : Json) (full : Backing → Text → Text → Bool) (prefix : Text) where
  -- Storage.Set: a write that does not fit changes nothing.
  unfoldable pub set : Backing → Text → Text → Result StoreError Backing
  unfolding put
  set b k v = if full b k v then err quota else ok (put b k (some v))

  -- The record that is written is the one that was loaded.
  unfoldable pub fresh : Option Text → Swap → Bool
  fresh none s = eqb_ℤ s.version (pos 0)
  fresh (some existing) s = elim (j.version_of existing) [
    | none ↦ true
    | some v ↦ eqb_ℤ v s.version
  ]

  unfoldable pub advanced : Swap → Swap
  unfolding add64
  advanced s = record s { version = add64 s.version (pos 1) }

  unfoldable pub save : Backing → Swap → Result StoreError (Backing × Swap)
  unfolding key fresh set advanced
  save b s = do
    k ← key prefix s.id
    guard (fresh (b k) s) stale_write
    b' ← set b k (j.encode (advanced s))
    ok (b', advanced s)

  -- SaveIfAbsent, with the verdict of `validate` on what is there.
  unfoldable pub save_if_absent :
      (Swap → Validity) → Backing → Swap → Result StoreError (Backing × Swap × Bool)
  unfolding key set advanced
  save_if_absent check b s = do
    k ← key prefix s.id
    let write = set b k (j.encode (advanced s)) >>= λ b'. ok (b', advanced s, true) in
        elim (b k) [
          | none ↦ write
          | some existing ↦ elim (j.decode existing) [
            | none ↦ write
            | some probe ↦ elim (check probe) [
              | valid ↦ ok (b, s, false)
              | invalid _ ↦ write
              | panics ↦ err panicked
            ]
          ]
        ]

  -- load, at the time `now`.
  unfoldable pub load : ℤ → Backing → Text → Result StoreError Swap
  unfolding key withdraw_stale_verdict
  load now b id = do
    k ← key prefix id
    existing ← or_err (b k) no_swap
    s ← or_err (j.decode existing) corrupt
    ok (withdraw_stale_verdict now s)

  unfoldable pub delete_if : ℤ → (Swap → Bool) → Backing → Text → Result StoreError Backing
  unfolding key load put
  delete_if now allowed b id = do
    k ← key prefix id
    s ← load now b id
    guard (allowed s) not_allowed
    ok (put b k none)

  unfoldable pub delete : ℤ → Backing → Text → Result StoreError Backing
  unfolding key load put
  delete now b id = do k ← key prefix id; _ ← load now b id; ok (put b k none)
