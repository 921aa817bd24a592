-- ===== src/Zenon/Sound.antt =====
-- wasm/znn/client.go: what a verdict of Verify says.
use ferry_web.Zenon.Verdict.{Agrees, Matches, verified-Matches}
use ferry_web.Prelude.Bytes.{Bytes}
use ferry_web.Zenon.Entry.{HtlcInfo, hash_lock_hex}
use ferry_web.Zenon.Verify
use ferry_web.Zenon.Verify.{
  VerifyParams, Problem, amount_unchecked, amount_short, other_entry, other_token, other_hash_type,
  key_too_small, other_hash, other_recipient, other_sender, expires_soon, expires_late,
  expires_early, term_missing, Verdict, refused, check_incomplete, trim_0x, problem_if, mismatch,
  amount_problems, entry_problems, expiry_problems, time_left, problems, incomplete_count, verify,
}
use ferry_web.Prelude.{
  ◌≡◌, refl, sym, ap, ◌≢◌, ◌↔◌, ◌⊎◌, inl, inr, true, false, not, ◌&&◌, Option, List, [], ◌∷◌, ◌++◌,
  map, arith, Bool-cases, length, is_empty, Within,
}
use ferry_web.Prelude.Int.{ℤ, pos, ◌≤ℤ◌, ltb_ℤ, eqb_ℤ}
use ferry_web.Prelude.Text.{Text, equal_fold, equal_fold_iff, fold}

agrees_test : (want got : Text) → Agrees want got → mismatch want got ≡ false
agrees_test [] got h = refl
agrees_test (c ∷ want) got (inl h) = cc
agrees_test (c ∷ want) got (inr h) =
    let same = (equal_fold_iff got (c ∷ want)).1 h in ground (arith, same)

entry_test :
    (want got : Text)
    → (want ≡ []) ⊎ (map fold (trim_0x got) ≡ map fold (trim_0x want))
    → (not (is_empty want) && not (equal_fold (trim_0x got) (trim_0x want))) ≡ false
entry_test [] got h = refl
entry_test (c ∷ want) got (inl h) = cc
entry_test (c ∷ want) got (inr h) =
    let same = (equal_fold_iff (trim_0x got) (trim_0x (c ∷ want))).1 h in ground (arith, same)

type_test : (z : ℤ) → z ≡ pos 1 → not (eqb_ℤ z (pos 1)) ≡ false
type_test z h = rw h refl

ordered_tests :
    (a b c : ℤ)
    → (a ≤ℤ pos 0) ⊎ (b ≤ℤ pos 0) ⊎ (b ≤ℤ c)
    → (ltb_ℤ (pos 0) a && ltb_ℤ (pos 0) b && ltb_ℤ c b) ≡ false
ordered_tests a b c h = ground arith

most_test :
    (most z : ℤ) → (most ≤ℤ pos 0) ⊎ (z ≤ℤ most) → (ltb_ℤ (pos 0) most && ltb_ℤ most z) ≡ false
most_test most z h = ground arith

least_test :
    (least z : ℤ) → (least ≤ℤ pos 0) ⊎ (least ≤ℤ z) → (ltb_ℤ (pos 0) least && ltb_ℤ z least) ≡ false
least_test least z h = ground arith

size_test : (z : ℤ) → pos 32 ≤ℤ z → ltb_ℤ z (pos 32) ≡ false
size_test z h = ground arith

amount_test : (amt least : ℤ) → least ≤ℤ amt → ltb_ℤ amt least ≡ false
amount_test amt least h = ground arith

Within-right : (p : Problem) (xs ys : List Problem) → Within p ys → Within p (xs ++ ys)
Within-right p [] ys w = w
Within-right p (x ∷ xs) ys w = inr (Within-right p xs ys w)

Within-left : (p : Problem) (xs ys : List Problem) → xs ≡ p ∷ [] → Within p (xs ++ ys)
Within-left p xs ys h = rw h (inl refl)

only_one : (p : Problem) (ps : List Problem) → Within p ps → length ps ≡ 1 → ps ≡ p ∷ []
only_one p [] w h = absurd w
only_one p (x ∷ []) (inl same) h = ap (λ y. y ∷ []) (sym same)
only_one p (x ∷ []) (inr w) h = absurd w
only_one p (x ∷ y ∷ ps) w h = absurd (omega arith)

nonempty : (ps : List Problem) → is_empty ps ≡ false → length ps ≢ 0
nonempty [] h n = cc
nonempty (p ∷ ps) h n = omega arith

module _ (base64 : Text → Option Bytes) where
  amount-none :
      (info : HtlcInfo) (want : VerifyParams)
      → Matches base64 info want
      → amount_problems base64 info want ≡ []
  unfolding amount_problems
  amount-none info want m = rw m.amount_checked (elim m.amount [
    | inl unset ↦ rw unset refl
    | inr (least, amt, is_set, read, enough) ↦
        rw (is_set) (rw read (rw (amount_test amt least enough) refl))
  ])

  Matches-verified :
      (info : HtlcInfo) (want : VerifyParams)
      → Matches base64 info want
      → problems base64 info want ≡ []
  unfolding problems entry_problems expiry_problems
  Matches-verified info want m =
      rw
        (
          m.complete,
          entry_test want.expect_id info.id m.entry,
          agrees_test want.expect_token_standard info.token_standard m.token,
          type_test info.hash_type m.sha256,
          size_test info.key_max_size m.holds_secret,
          agrees_test want.secret_hash_hex (hash_lock_hex base64 info) m.hash,
          agrees_test want.expect_recipient info.hash_locked m.recipient,
          agrees_test want.expect_sender info.time_locked m.sender,
          amount-none info want m,
          ordered_tests want.now want.min_remaining (time_left base64 info want) m.remaining,
          most_test want.max_expiration info.expiration_time m.not_late,
          least_test want.min_expiration info.expiration_time m.not_early,
        )
        refl

  is_empty-problems : (ps : List Problem) → is_empty ps ≡ true → ps ≡ []
  is_empty-problems [] h = refl
  is_empty-problems (p ∷ ps) h = cc

  unchecked-amount :
      (info : HtlcInfo) (want : VerifyParams)
      → is_empty want.amount_uncheckable ≡ false
      → amount_problems base64 info want ≡ amount_unchecked ∷ []
  unfolding amount_problems
  unchecked-amount info want h = rw h refl

  unchecked-Within :
      (info : HtlcInfo) (want : VerifyParams)
      → is_empty want.amount_uncheckable ≡ false
      → Within amount_unchecked (problems base64 info want)
  unfolding problems
  unchecked-Within info want h =
      Within-right amount_unchecked (entry_problems base64 info want)
        (amount_problems base64 info want ++ expiry_problems base64 info want)
        (Within-left amount_unchecked (amount_problems base64 info want)
          (expiry_problems base64 info want) (unchecked-amount info want h))

  -- A refusal is worth repeating only where the one problem that was found is that the agreed amount
  -- could not be checked: every check that ran was passed.
  pub check_incomplete-only :
      (info : HtlcInfo) (want : VerifyParams)
      → check_incomplete (verify base64 info want) ≡ true
      → problems base64 info want ≡ amount_unchecked ∷ []
  unfolding verify check_incomplete incomplete_count
  check_incomplete-only info want h = elim (Bool-cases (is_empty (problems base64 info want))) [
    | inl none_left ↦ cc (rw (none_left, check_incomplete) at h)
    | inr some_left ↦ elim (Bool-cases (is_empty want.amount_uncheckable)) [
      | inl checked ↦
          absurd (nonempty (problems base64 info want) some_left (ground (arith, checked)))
      | inr unchecked ↦
          only_one amount_unchecked (problems base64 info want)
            (unchecked-Within info want unchecked) (ground (arith, unchecked))
    ]
  ]

  Matches-of :
      (info : HtlcInfo) (want : VerifyParams)
      → verify base64 info want ≡ Verify.verified
      → Matches base64 info want
  unfolding verify
  Matches-of info want h = elim (Bool-cases (is_empty (problems base64 info want))) [
    | inl none_left ↦
        verified-Matches base64 info want (is_empty-problems (problems base64 info want) none_left)
    | inr some_left ↦ cc (rw (some_left, verify) at h)
  ]

  -- An entry is verified if and only if it matches the agreed terms in every respect, none of these was
  -- missing, and the agreed amount could be checked.
  pub verify-Matches :
      (info : HtlcInfo) (want : VerifyParams)
      → (verify base64 info want ≡ Verify.verified) ↔ Matches base64 info want
  unfolding verify
  verify-Matches info want =
      (λ h. Matches-of info want h, λ m. rw (Matches-verified info want m) refl)
