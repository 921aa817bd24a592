-- ===== src/Zenon/Verify.antt =====
-- wasm/znn/client.go: Verify and CheckIncomplete. The problems are the ones that the code reports, in its
-- order.
use ferry_web.Prelude.Bytes.{Bytes}
use ferry_web.Prelude.Duration.{second}
use ferry_web.Zenon.Entry.{HtlcInfo, hash_lock_hex, set_string}
use ferry_web.Prelude.{
  ℕ, Bool, true, false, not, ◌&&◌, Option, none, some, List, [], ◌∷◌, ◌++◌, map, ◌==◌,
  if◌then◌else◌, length, is_empty,
}
use ferry_web.Prelude.Int.{ℤ, pos, ltb_ℤ, eqb_ℤ}
use ferry_web.Prelude.Int64.{sub64, scale64}
use ferry_web.Prelude.Text.{Text, equal_fold}

pub record VerifyParams : Type 0 where
  pub secret_hash_hex : Text
  pub expect_id : Text
  pub expect_token_standard : Text
  pub expect_recipient : Text
  pub expect_sender : Text
  pub min_amount : Option ℤ
  pub missing_terms : List Text
  pub amount_uncheckable : Text
  pub now : ℤ
  pub min_remaining : ℤ
  pub max_expiration : ℤ
  pub min_expiration : ℤ

pub data Problem : Type 0 where
  term_missing : Text → Problem
  other_entry other_token other_hash_type key_too_small other_hash other_recipient other_sender :
      Problem
  amount_unchecked amount_not_a_number amount_short : Problem
  expires_soon expires_late expires_early : Problem

pub data Verdict : Type 0 where
  verified : Verdict
  refused : (incomplete : Bool) → List Problem → Verdict

-- errors.Is(err, ErrCheckIncomplete).
unfoldable pub check_incomplete : Verdict → Bool
check_incomplete (refused incomplete _) = incomplete
check_incomplete verified = false

-- strings.TrimPrefix(s, "0x").
unfoldable pub trim_0x : Text → Text
trim_0x [] = []
trim_0x (c ∷ []) = c ∷ []
trim_0x (c ∷ d ∷ s) = if c == 48 && d == 120 then s else c ∷ d ∷ s

abbrev pub problem_if : Bool → Problem → List Problem
problem_if true p = p ∷ []
problem_if false p = []

-- A text that is expected, where one is, and is not there.
abbrev pub mismatch : Text → Text → Bool
mismatch want got = not (is_empty want) && not (equal_fold got want)

abbrev pub is_unchecked : Problem → Bool
is_unchecked amount_unchecked = true
is_unchecked _ = false

module _ (base64 : Text → Option Bytes) where
  unfoldable pub amount_problems : HtlcInfo → VerifyParams → List Problem
  unfolding set_string
  amount_problems info want =
      if not (is_empty want.amount_uncheckable)
      then amount_unchecked ∷ []
      else elim want.min_amount [
        | none ↦ []
        | some least ↦ elim (set_string info.amount) [
          | none ↦ amount_not_a_number ∷ []
          | some amt ↦ problem_if (ltb_ℤ amt least) amount_short
        ]
      ]

  -- time.Duration(info.ExpirationTime-want.Now) * time.Second, in int64.
  unfoldable pub time_left : HtlcInfo → VerifyParams → ℤ
  unfolding sub64 scale64
  time_left info want = scale64 second (sub64 info.expiration_time want.now)

  unfoldable pub entry_problems : HtlcInfo → VerifyParams → List Problem
  unfolding hash_lock_hex equal_fold trim_0x
  entry_problems info want =
      map term_missing want.missing_terms
      ++ (problem_if
            (not (is_empty want.expect_id)
              && not (equal_fold (trim_0x info.id) (trim_0x want.expect_id)))
            other_entry
          ++ (problem_if (mismatch want.expect_token_standard info.token_standard) other_token
              ++ (problem_if (not (eqb_ℤ info.hash_type (pos 1))) other_hash_type
                  ++ (problem_if (ltb_ℤ info.key_max_size (pos 32)) key_too_small
                      ++ (problem_if (mismatch want.secret_hash_hex (hash_lock_hex base64 info))
                            other_hash
                          ++ (problem_if (mismatch want.expect_recipient info.hash_locked)
                                other_recipient
                              ++ problem_if (mismatch want.expect_sender info.time_locked)
                                  other_sender))))))

  unfoldable pub expiry_problems : HtlcInfo → VerifyParams → List Problem
  unfolding time_left
  expiry_problems info want =
      problem_if
        (ltb_ℤ (pos 0) want.now
          && ltb_ℤ (pos 0) want.min_remaining
          && ltb_ℤ (time_left info want) want.min_remaining)
        expires_soon
      ++ (problem_if
            (ltb_ℤ (pos 0) want.max_expiration && ltb_ℤ want.max_expiration info.expiration_time)
            expires_late
          ++ problem_if
              (ltb_ℤ (pos 0) want.min_expiration && ltb_ℤ info.expiration_time want.min_expiration)
              expires_early)

  unfoldable pub problems : HtlcInfo → VerifyParams → List Problem
  unfolding entry_problems amount_problems expiry_problems
  problems info want =
      entry_problems info want ++ (amount_problems info want ++ expiry_problems info want)

  -- How many of the problems are checks that could not be run.
  unfoldable pub incomplete_count : VerifyParams → ℕ
  incomplete_count want = if not (is_empty want.amount_uncheckable) then 1 else 0

  unfoldable pub verify : HtlcInfo → VerifyParams → Verdict
  unfolding problems incomplete_count
  verify info want =
      let ps = problems info want in
      if is_empty ps then verified else refused (length ps == incomplete_count want) ps
