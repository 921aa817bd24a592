-- ===== src/Swap/Build.antt =====
-- wasm/swap.go: BuildSwapContract. The package's P2SH address of a contract is the parameter `address`.
use ferry_web.Prelude.Bytes.{Bytes}
use ferry_web.Contract.Script.{Txscript}
use ferry_web.Contract.Num.{ContractError, Outcome}
use ferry_web.Contract.Num
use ferry_web.Contract.Build.{build_contract}
use ferry_web.Swap.Record.{
  Swap, Leg, send, receive, other_leg, State, draft, awaiting_funding, Network, network_params,
  contract_built, log,
}
use ferry_web.Prelude.{
  ◌≡◌, refl, Bool, true, false, not, Option, none, some, ◌==◌, if◌then◌else◌, length, is_empty,
}
use ferry_web.Prelude.Int.{ℤ, pos, eqb_ℤ}
use ferry_web.Prelude.Text.{Text}

pub data SwapError : Type 0 where
  hash_not_set pkh_not_set key_missing lock_time_not_set unknown_network unknown_leg no_address :
      SwapError
  wrong_side bad_pkh bad_hex committed_elsewhere not_our_key wrong_hash : SwapError
  too_little_left no_room_under expires_after : SwapError
  wrong_redeem_key wrong_refund_key bad_secret_size wrong_secret : SwapError
  no_value bad_rate rate_too_high bad_address bad_tx_id not_bound dust : SwapError
  cannot_sign script_failed script_rejected : SwapError
  chain_failed bad_transaction other_transaction no_output other_value other_script : SwapError
  no_funding secret_unknown short_funding no_destination_given redirected too_early : SwapError
  not_a_tx_id bad_amount not_loaded not_saved : SwapError
  unrecorded : Text → SwapError
  bad_role bad_leg offer_unreadable offer_differs no_dest_addr : SwapError
  bad_zenon_address bad_zenon_token bad_zenon_amount zero_zenon_amount imprecise_amount : SwapError
  hash_missing bad_hash bad_hours bad_pkh_hex no_randomness : SwapError
  term_is_fixed no_zenon_node unreadable_token : SwapError
  no_htlc_id entry_gone no_creator_address no_candidate none_matches chain_unreadable : SwapError
  zenon_not_ours zenon_is_ours already_created not_audited no_peer no_expiry leg_too_late :
      SwapError
  leg_too_early no_zenon_amount amount_not_positive terms_missing not_verified entry_refused :
      SwapError
  not_expired no_backend funding_gone in_mempool too_shallow call_refused : SwapError
  waits_on_funding : SwapError
  contract_error : ContractError → SwapError

-- A value, an error, or a run-time panic.
pub data Call (A : Type 0) : Type 0 where
  done : A → Call A
  fails : SwapError → Call A
  panics : Call A

infixl 5 ◌>>=◌ ◌>>◌
abbrev pub ◌>>=◌ : {A B : Type 0} → Call A → (A → Call B) → Call B
panics >>= next = panics
fails why >>= next = fails why
done a >>= next = next a

abbrev pub ◌>>◌ : {B : Type 0} → Call (Unit {0}) → Call B → Call B
checked >> next = checked >>= (λ _. next)

abbrev pub check : Bool → SwapError → Call (Unit {0})
check c why = if c then done tt else fails why

abbrev pub or_fails : {A : Type 0} → Option A → SwapError → Call A
or_fails (some a) e = done a
or_fails none e = fails e

abbrev pub of_contract : {A : Type 0} → Outcome A → Call A
of_contract (Num.ok a) = done a
of_contract (Num.err e) = fails (contract_error e)
of_contract Num.panic = panics

module _ {A B : Type 0} where
  pub >>=-eq-done :
      (m : Call A) (f : A → Call B) {b : B}
      → (m >>= f) ≡ done b
      → (a : A) × (m ≡ done a) × (f a ≡ done b)
  >>=-eq-done panics f h = cc
  >>=-eq-done (fails e) f h = cc
  >>=-eq-done (done a) f h = (a, refl, h)

  pub or_fails-eq-done :
      (o : Option A) (e : SwapError) (f : A → Call B) {b : B}
      → (or_fails o e >>= f) ≡ done b
      → (a : A) × (o ≡ some a) × (f a ≡ done b)
  or_fails-eq-done (some a) e f h = (a, refl, h)
  or_fails-eq-done none e f h = cc

  pub of_contract-eq-done :
      (o : Outcome A) (f : A → Call B) {b : B}
      → (of_contract o >>= f) ≡ done b
      → (a : A) × (o ≡ Num.ok a) × (f a ≡ done b)
  of_contract-eq-done (Num.ok a) f h = (a, refl, h)
  of_contract-eq-done (Num.err e) f h = cc
  of_contract-eq-done Num.panic f h = cc

pub done_inj : {A : Type 0} {a b : A} → done a ≡ done b → a ≡ b
done_inj h = cc h

module _ {B : Type 0} where
  pub check-eq-done :
      (c : Bool) (e : SwapError) (k : Call B) {b : B}
      → (check c e >> k) ≡ done b
      → (c ≡ true) × (k ≡ done b)
  check-eq-done true e k h = (refl, h)
  check-eq-done false e k h = cc

-- The same, handing what was found to a continuation: its variables stand for parts of the term, so a
-- long chain of steps stays small.
module _ {B : Type 0} where
  -- A check that passes drops out.
  pub check-pass : (c : Bool) (e : SwapError) (k : Call B) → c ≡ true → (check c e >> k) ≡ k
  check-pass true e k h = refl
  check-pass false e k h = cc h

module _ {P B : Type 0} {b : B} where
  pub check-then :
      (c : Bool) (e : SwapError) (k : Call B)
      → (check c e >> k) ≡ done b
      → (c ≡ true → k ≡ done b → P)
      → P
  check-then c e k h next = let (p, q) = check-eq-done c e k h in next p q

  pub or_fails-then :
      {A : Type 0} (o : Option A) (e : SwapError) (f : A → Call B)
      → (or_fails o e >>= f) ≡ done b
      → ((a : A) → o ≡ some a → f a ≡ done b → P)
      → P
  or_fails-then o e f h next = let (a, p, q) = or_fails-eq-done o e f h in next a p q

  pub call-then :
      {A : Type 0} (m : Call A) (f : A → Call B)
      → (m >>= f) ≡ done b
      → ((a : A) → m ≡ done a → f a ≡ done b → P)
      → P
  call-then m f h next = let (a, p, q) = >>=-eq-done m f h in next a p q

  pub contract-then :
      {A : Type 0} (m : Outcome A) (f : A → Call B)
      → (of_contract m >>= f) ≡ done b
      → ((a : A) → m ≡ Num.ok a → f a ≡ done b → P)
      → P
  contract-then m f h next = let (a, p, q) = of_contract-eq-done m f h in next a p q

abbrev is_draft : State → Bool
is_draft draft = true
is_draft _ = false

-- if s.State == StateDraft { s.State = StateAwaitingFunding }
abbrev pub past_draft : State → State
past_draft st = if is_draft st then awaiting_funding else st

-- The refund key and the redeem key, by the leg.
abbrev pub branch_keys : Leg → Bytes → Bytes → Call (Bytes × Bytes)
branch_keys send ours theirs = done (ours, theirs)
branch_keys receive ours theirs = done (theirs, ours)
branch_keys (other_leg _) ours theirs = fails unknown_leg

module _ (t : Txscript) (address : Bytes → Network → Option Text) where
  unfoldable pub build_swap_contract : ℤ → Swap → Call Swap
  unfolding network_params log
  build_swap_contract now s = do
    check (not (is_empty s.secret_hash)) hash_not_set
    check (length s.counterparty_pkh == 20) pkh_not_set
    key ← or_fails s.key key_missing
    check (not (eqb_ℤ s.lock_time (pos 0))) lock_time_not_set
    params ← or_fails (network_params s.network) unknown_network
    (pkh_refund, pkh_redeem) ← branch_keys s.leg key.pkh s.counterparty_pkh
    contract ← of_contract (build_contract t pkh_refund pkh_redeem s.lock_time s.secret_hash)
    addr ← or_fails (address contract params) no_address
    done (
        log now (contract_built addr s.lock_time)
          (record s { contract = contract; contract_addr = addr; state = past_draft s.state }))
