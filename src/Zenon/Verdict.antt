-- ===== src/Zenon/Verdict.antt =====
-- wasm/znn/client.go: the terms that an entry has to match.
use ferry_web.Prelude.Bytes.{Bytes}
use ferry_web.Zenon.Entry.{HtlcInfo, hash_lock_hex, set_string}
use ferry_web.Zenon.Verify.{
  VerifyParams, Problem, amount_short, other_entry, other_token, other_hash_type, key_too_small,
  other_hash, other_recipient, other_sender, expires_soon, expires_late, expires_early,
  term_missing, trim_0x, problem_if, mismatch, amount_problems, entry_problems, expiry_problems,
  time_left, problems,
}
use ferry_web.Prelude.{
  ◌≡◌, refl, ◌⊎◌, inl, inr, Bool, true, false, not, ◌&&◌, Option, none, some, List, [], ◌∷◌, ◌++◌,
  map, arith, Bool-cases, Option-cases, is_empty,
}
use ferry_web.Prelude.Int.{ℤ, pos, negsuc, ◌≤ℤ◌, ltb_ℤ, eqb_ℤ}
use ferry_web.Prelude.Text.{Text, equal_fold, equal_fold_iff, fold}

-- Two texts that are the same up to case, where the first is given.
abbrev pub Agrees : Text → Text → Type 0
Agrees want got = (want ≡ []) ⊎ (map fold got ≡ map fold want)

-- Everything that an entry has to be for the terms that were agreed.
pub record Matches (base64 : Text → Option Bytes) (info : HtlcInfo) (want : VerifyParams)
    : Type 0 where
  pub complete : want.missing_terms ≡ []
  pub entry :
      (want.expect_id ≡ []) ⊎ (map fold (trim_0x info.id) ≡ map fold (trim_0x want.expect_id))
  pub token : Agrees want.expect_token_standard info.token_standard
  pub sha256 : info.hash_type ≡ pos 1
  pub holds_secret : pos 32 ≤ℤ info.key_max_size
  pub hash : Agrees want.secret_hash_hex (hash_lock_hex base64 info)
  pub recipient : Agrees want.expect_recipient info.hash_locked
  pub sender : Agrees want.expect_sender info.time_locked
  pub amount_checked : want.amount_uncheckable ≡ []
  pub amount :
      (want.min_amount ≡ none)
      ⊎ ((least : ℤ) × (amt : ℤ) × (want.min_amount ≡ some least)
          × (set_string info.amount ≡ some amt)
          × (least ≤ℤ amt))
  pub remaining :
      (want.now ≤ℤ pos 0)
      ⊎ (want.min_remaining ≤ℤ pos 0)
      ⊎ (want.min_remaining ≤ℤ time_left base64 info want)
  pub not_late : (want.max_expiration ≤ℤ pos 0) ⊎ (info.expiration_time ≤ℤ want.max_expiration)
  pub not_early : (want.min_expiration ≤ℤ pos 0) ⊎ (want.min_expiration ≤ℤ info.expiration_time)

problem_if-nil :
    (b : Bool) (p : Problem) (rest : List Problem)
    → (problem_if b p ++ rest ≡ [])
    → (b ≡ false) × (rest ≡ [])
problem_if-nil true p rest h = cc
problem_if-nil false p rest h = (refl, h)

problem_if-last : (b : Bool) (p : Problem) → problem_if b p ≡ [] → b ≡ false
problem_if-last true p h = cc
problem_if-last false p h = refl

append-nil-inv : (xs ys : List Problem) → xs ++ ys ≡ [] → (xs ≡ []) × (ys ≡ [])
append-nil-inv [] ys h = (refl, h)
append-nil-inv (x ∷ xs) ys h = cc

nil-of_empty : (s : Text) → is_empty s ≡ true → s ≡ []
nil-of_empty [] h = refl
nil-of_empty (c ∷ s) h = cc

empty-or_agrees : (want got : Text) → mismatch want got ≡ false → Agrees want got
empty-or_agrees [] got h = inl refl
empty-or_agrees (c ∷ want) got h = inr ((equal_fold_iff got (c ∷ want)).0 (ground arith))

none-missing : (ts : List Text) → map term_missing ts ≡ [] → ts ≡ []
none-missing [] h = refl
none-missing (t ∷ ts) h = cc

entry_agrees :
    (want got : Text)
    → (not (is_empty want) && not (equal_fold (trim_0x got) (trim_0x want))) ≡ false
    → (want ≡ []) ⊎ (map fold (trim_0x got) ≡ map fold (trim_0x want))
entry_agrees [] got h = inl refl
entry_agrees (c ∷ want) got h =
    inr ((equal_fold_iff (trim_0x got) (trim_0x (c ∷ want))).0 (ground arith))

type_is : (z : ℤ) → not (eqb_ℤ z (pos 1)) ≡ false → z ≡ pos 1
type_is (pos n) h = ground arith
type_is (negsuc n) h = absurd (ground arith)

size_is : (z : ℤ) → ltb_ℤ z (pos 32) ≡ false → pos 32 ≤ℤ z
size_is z h = ground arith

left_is :
    (now least left : ℤ)
    → (ltb_ℤ (pos 0) now && ltb_ℤ (pos 0) least && ltb_ℤ left least) ≡ false
    → (now ≤ℤ pos 0) ⊎ (least ≤ℤ pos 0) ⊎ (least ≤ℤ left)
left_is now least left h = ground arith

not_over :
    (most z : ℤ) → (ltb_ℤ (pos 0) most && ltb_ℤ most z) ≡ false → (most ≤ℤ pos 0) ⊎ (z ≤ℤ most)
not_over most z h = ground arith

not_under :
    (least z : ℤ) (p : Problem)
    → problem_if (ltb_ℤ (pos 0) least && ltb_ℤ z least) p ≡ []
    → (least ≤ℤ pos 0) ⊎ (least ≤ℤ z)
not_under least z p h = ground arith

short-nil : (amt least : ℤ) → problem_if (ltb_ℤ amt least) amount_short ≡ [] → least ≤ℤ amt
short-nil amt least h = ground arith

module _ (base64 : Text → Option Bytes) where
  amount-inv :
      (info : HtlcInfo) (want : VerifyParams)
      → amount_problems base64 info want ≡ []
      → (want.amount_uncheckable ≡ [])
        × ((want.min_amount ≡ none)
            ⊎ ((least : ℤ) × (amt : ℤ) × (want.min_amount ≡ some least)
                × (set_string info.amount ≡ some amt)
                × (least ≤ℤ amt)))
  unfolding amount_problems
  amount-inv info want h = elim (Bool-cases (not (is_empty want.amount_uncheckable))) [
    | inl bad ↦ cc (rw (bad, amount_problems) at h)
    | inr fine ↦ (
      nil-of_empty want.amount_uncheckable (ground arith),
      elim (Option-cases want.min_amount) [
        | inl unset ↦ inl unset
        | inr (least, is_set) ↦ elim (Option-cases (set_string info.amount)) [
          | inl nonsense ↦ cc (rw (fine, is_set, nonsense, amount_problems) at h)
          | inr (amt, read) ↦
              let enough : problem_if (ltb_ℤ amt least) amount_short ≡ [] =
                rw (fine, is_set, read, amount_problems) at h in
              inr (least, amt, is_set, read, short-nil amt least enough)
        ]
      ],
    )
  ]

  pub verified-Matches :
      (info : HtlcInfo) (want : VerifyParams)
      → problems base64 info want ≡ []
      → Matches base64 info want
  unfolding problems entry_problems expiry_problems
  verified-Matches info want h =
      let (entry, rest) = append-nil-inv (entry_problems base64 info want) _ h in
      let (h8, r8) =
        append-nil-inv (amount_problems base64 info want) (expiry_problems base64 info want) rest in
      let (h0, r0) = append-nil-inv (map term_missing want.missing_terms) _ entry in
      let (h1, r1) = problem_if-nil _ other_entry _ r0 in
      let (h2, r2) = problem_if-nil _ other_token _ r1 in
      let (h3, r3) = problem_if-nil _ other_hash_type _ r2 in
      let (h4, r4) = problem_if-nil _ key_too_small _ r3 in
      let (h5, r5) = problem_if-nil _ other_hash _ r4 in
      let (h6, r6) = problem_if-nil _ other_recipient _ r5 in
      let h7 = problem_if-last _ other_sender r6 in
      let (h9, r9) = problem_if-nil _ expires_soon _ r8 in
      let (h10, r10) = problem_if-nil _ expires_late _ r9 in
      let (checked, amount) = amount-inv info want h8 in
      record {
        complete = none-missing want.missing_terms h0;
        entry = entry_agrees want.expect_id info.id h1;
        token = empty-or_agrees want.expect_token_standard info.token_standard h2;
        sha256 = type_is info.hash_type h3;
        holds_secret = size_is info.key_max_size h4;
        hash = empty-or_agrees want.secret_hash_hex (hash_lock_hex base64 info) h5;
        recipient = empty-or_agrees want.expect_recipient info.hash_locked h6;
        sender = empty-or_agrees want.expect_sender info.time_locked h7;
        amount_checked = checked;
        amount = amount;
        remaining = left_is want.now want.min_remaining (time_left base64 info want) h9;
        not_late = not_over want.max_expiration info.expiration_time h10;
        not_early = not_under want.min_expiration info.expiration_time expires_early r10;
      }
