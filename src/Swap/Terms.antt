-- ===== src/Swap/Terms.antt =====
-- wasm/swap.go: the terms of the Zenon leg, and the verdict that is taken back where they are missing.
use ferry_web.Swap.Record.{Swap, ZenonLeg, Event, Message, verdict_withdrawn, log}
use ferry_web.Swap.Roles.{zenon_htlc_is_ours}
use ferry_web.Prelude.{
  ℕ, ◌≡◌, refl, sym, ap, ◌∙◌, inl, inr, Bool, true, false, not, ◌||◌, List, [], ◌∷◌, ◌++◌, map,
  ◌==◌, if◌then◌else◌, Bool-cases, is_empty,
}
use ferry_web.Prelude.Int.{ℤ}
use ferry_web.Prelude.Text.{Text, runes, trim_left, trim_right, trim_space}

pub data MissingTerm : Type 0 where
  no_peer_address no_self_address no_amount amount_is_zero : MissingTerm

abbrev zero_or_point : ℕ → Bool
zero_or_point c = c == 48 || c == 46

-- strings.Trim(s, "0.") == "".
unfoldable pub zero_amount : Text → Bool
unfolding trim_left trim_right
zero_amount s = is_empty (trim_right zero_or_point (trim_left zero_or_point s))

abbrev znn_token_standard : Text
znn_token_standard = runes "zts1znnxxxxxxxxxxxxx9z4ulx"

-- Blank means ZNN.
unfoldable pub token_or_znn : Text → Text
token_or_znn t = if is_empty t then znn_token_standard else t

unfoldable pub agreed_token : ZenonLeg → Text
unfolding token_or_znn
agreed_token z = token_or_znn z.token_standard

unfoldable pub missing_zenon_terms : Swap → List MissingTerm
unfolding trim_space zero_amount
missing_zenon_terms s =
    let address =
      if zenon_htlc_is_ours s
      then if is_empty (trim_space s.zenon.peer_address) then no_peer_address ∷ [] else []
      else if is_empty (trim_space s.zenon.self_address)
      then no_self_address ∷ []
      else [] in
    let amount = trim_space s.zenon.amount_display in
    if is_empty amount
    then address ++ (no_amount ∷ [])
    else if zero_amount amount
    then address ++ (amount_is_zero ∷ [])
    else address

-- What the messages of this file are compared by.
abbrev is_withdrawn : Message → Bool
is_withdrawn verdict_withdrawn = true
is_withdrawn _ = false

-- loggedOnce, for the message of withdrawStaleVerdict.
logged_withdrawn : List Event → Bool
logged_withdrawn [] = false
logged_withdrawn (e ∷ es) =
    let rest = logged_withdrawn es in if is_withdrawn e.message then true else rest

reason : MissingTerm → Text
reason no_peer_address =
    runes "this swap records no Zenon address for the counterparty, the one your HTLC must pay"
reason no_self_address =
    runes "this swap records no Zenon address of your own, the one their HTLC must pay"
reason no_amount = runes "this swap records no agreed Zenon amount"
reason amount_is_zero = runes "this swap's agreed Zenon amount is zero"

unfoldable pub missing_reasons : List MissingTerm → List Text
unfolding reason
missing_reasons ms = map reason ms

-- strings.Join(reasons, "; ").
joined : List Text → Text
joined [] = []
joined (t ∷ ts) = let rest = joined ts in if is_empty ts then t else t ++ (runes "; " ++ rest)

-- The error that the leg then carries.
unverified_text : List MissingTerm → Text
unfolding missing_reasons joined
unverified_text ms =
    runes "verified by an earlier release against incomplete terms: "
    ++ (joined (missing_reasons ms) ++ runes ". Add them to the swap and verify again")

-- The leg with its verdict taken back.
unverified : Swap → Swap
unfolding missing_zenon_terms unverified_text
unverified s =
    let z = s.zenon in
    record s {
      zenon = record z {
        verified = false;
        verify_pending = false;
        verify_error = unverified_text (missing_zenon_terms s);
      };
    }

unfoldable pub withdraw_stale_verdict : ℤ → Swap → Swap
unfolding missing_zenon_terms logged_withdrawn log unverified
withdraw_stale_verdict now s =
    if not s.zenon.verified
    then s
    else if is_empty (missing_zenon_terms s)
    then s
    else if logged_withdrawn s.events
    then unverified s
    else log now verdict_withdrawn (unverified s)

missing-unverified : (s : Swap) → missing_zenon_terms (unverified s) ≡ missing_zenon_terms s
unfolding missing_zenon_terms unverified
missing-unverified s = refl

missing-log :
    (now : ℤ) (m : Message) (s : Swap) → missing_zenon_terms (log now m s) ≡ missing_zenon_terms s
unfolding missing_zenon_terms log
missing-log now m s = refl

verified-unverified :
    (now : ℤ) (m : Message) (s : Swap)
    → ((unverified s).zenon.verified ≡ false) × ((log now m (unverified s)).zenon.verified ≡ false)
unfolding unverified log
verified-unverified now m s = (refl, refl)

nil-of_empty : (ms : List MissingTerm) → is_empty ms ≡ true → ms ≡ []
nil-of_empty [] h = refl
nil-of_empty (m ∷ ms) h = cc

withdraw-unverified :
    (now : ℤ) (s : Swap) → s.zenon.verified ≡ false → withdraw_stale_verdict now s ≡ s
unfolding withdraw_stale_verdict
withdraw-unverified now s h = rw h refl

pub withdraw_complete :
    (now : ℤ) (s : Swap) → missing_zenon_terms s ≡ [] → withdraw_stale_verdict now s ≡ s
unfolding withdraw_stale_verdict
withdraw_complete now s h = elim (Bool-cases s.zenon.verified) [
  | inl v ↦ rw (v, h) refl
  | inr v ↦ rw v refl
]

withdraw-stale :
    (now : ℤ) (s : Swap)
    → is_empty (missing_zenon_terms s) ≡ false
    → ((withdraw_stale_verdict now s).zenon.verified ≡ false)
      × (missing_zenon_terms (withdraw_stale_verdict now s) ≡ missing_zenon_terms s)
unfolding withdraw_stale_verdict
withdraw-stale now s h = elim (Bool-cases s.zenon.verified) [
  | inr v ↦
      let same = withdraw-unverified now s v in
      (ap (λ (x : Swap). x.zenon.verified) same ∙ v, ap missing_zenon_terms same)
  | inl v ↦ elim (Bool-cases (logged_withdrawn s.events)) [
    | inl l ↦ rw (v, h, l) ((verified-unverified now verdict_withdrawn s).0, missing-unverified s)
    | inr l ↦
        rw (v, h, l)
          (
            (verified-unverified now verdict_withdrawn s).1,
            missing-log now verdict_withdrawn (unverified s) ∙ missing-unverified s,
          )
  ]
]

-- A verdict that is still there after a load was reached against all the terms.
pub withdraw_stale_verdict-verified :
    (now : ℤ) (s : Swap)
    → (withdraw_stale_verdict now s).zenon.verified ≡ true
    → missing_zenon_terms (withdraw_stale_verdict now s) ≡ []
withdraw_stale_verdict-verified now s up = elim (Bool-cases (is_empty (missing_zenon_terms s))) [
  | inl e ↦
      let none_missing = nil-of_empty (missing_zenon_terms s) e in
      rw (withdraw_complete now s none_missing) none_missing
  | inr e ↦ cc (sym (withdraw-stale now s e).0 ∙ up)
]

-- Taking a verdict back leaves the terms that are missing as they are, and a second load finds nothing
-- more to take back.
pub withdraw_stale_verdict_idem :
    (now later : ℤ) (s : Swap)
    → (missing_zenon_terms (withdraw_stale_verdict now s) ≡ missing_zenon_terms s)
      × (withdraw_stale_verdict later (withdraw_stale_verdict now s) ≡ withdraw_stale_verdict now s)
withdraw_stale_verdict_idem now later s = elim (Bool-cases (is_empty (missing_zenon_terms s))) [
  | inl e ↦
      let none_missing = nil-of_empty (missing_zenon_terms s) e in
      let same = withdraw_complete now s none_missing in
      (
        ap missing_zenon_terms same,
        ap (withdraw_stale_verdict later) same ∙ withdraw_complete later s none_missing ∙ sym same,
      )
  | inr e ↦
      let (down, kept) = withdraw-stale now s e in
      (kept, withdraw-unverified later (withdraw_stale_verdict now s) down)
]
