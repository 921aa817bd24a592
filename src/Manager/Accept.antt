-- ===== src/Manager/Accept.antt =====
-- wasm/manager.go: what AuditContract has checked of a contract that it accepts.
use ferry_web.Manager.Audit.{audit_contract, adopt_contract, with_contract}
use ferry_web.Prelude.Bytes.{Bytes}
use ferry_web.Prelude.Hex.{hex_decode}
use ferry_web.Prelude.Duration.{unix, sub_time}
use ferry_web.Contract.Script.{Txscript}
use ferry_web.Contract.Num.{ContractError, Outcome}
use ferry_web.Contract.Num
use ferry_web.Contract.Parse.{ContractDetails, parse_contract}
use ferry_web.Swap.Record.{Swap, SwapKey, Network, network_params, Message, log, is_receive}
use ferry_web.Swap.Commit.{contract_committed}
use ferry_web.Swap.Build.{
  done, fails, >>=-eq-done, or_fails-eq-done, of_contract-eq-done, check-eq-done, past_draft,
  wrong_side, bad_hex, key_missing, unknown_network, committed_elsewhere, not_our_key, wrong_hash,
  no_address,
}
use ferry_web.Swap.Roles.{bitcoin_leg_is_initiators}
use ferry_web.Manager.Legs.{plan_zenon_leg, audit_leg_ordering}
use ferry_web.Prelude.{
  ◌≡◌, refl, sym, ap, ◌∙◌, ◌⊎◌, inl, inr, true, false, not, ◌&&◌, ◌||◌, Option, none, some, [], ◌∷◌,
  arith, if◌then◌else◌, Bool-cases, Option-cases, is_empty, is_some,
}
use ferry_web.Prelude.Int.{eqb_ℤ, eq_of_parts, ℤ, pos, ◌≤ℤ◌}
use ferry_web.Prelude.Int64.{add64}
use ferry_web.Prelude.Text.{Text, text_eq, text_eq_iff, trim_space}

-- What a contract that was newly accepted has passed.
pub record Accepted (t : Txscript) (now : ℤ) (s s' : Swap) (contract : Bytes) : Type 0 where
  pub details : ContractDetails
  pub readable : parse_contract t contract ≡ Num.ok details
  pub key : SwapKey
  pub has_key : s.key ≡ some key
  pub pays_us : details.pkh_redeem ≡ key.pkh
  pub same_hash : (s.secret_hash ≡ []) ⊎ (details.secret_hash ≡ s.secret_hash)
  pub enough : pos 7200000000000 ≤ℤ sub_time (unix details.lock_time) now
  pub room :
      (bitcoin_leg_is_initiators s ≡ false)
      ⊎ (pos 14400000000000 ≤ℤ sub_time (unix details.lock_time) now)
  pub under :
      (bitcoin_leg_is_initiators s ≡ true)
      ⊎ (s.zenon.verified ≡ false)
      ⊎ (s.zenon.expiration_time ≡ pos 0)
      ⊎ (add64 details.lock_time (pos 7200) ≤ℤ s.zenon.expiration_time)
  pub stored :
      (s'.contract ≡ contract)
      × (s'.lock_time ≡ details.lock_time)
      × (s'.counterparty_pkh ≡ details.pkh_refund)
  pub agreed : s'.secret_hash ≡ details.secret_hash

-- The part of a record that a contract sets.
abbrev core : Swap → Bytes × ℤ × Bytes × Bytes
core s = (s.contract, s.lock_time, s.counterparty_pkh, s.secret_hash)

core-plan : (s : Swap) (now : ℤ) → core (plan_zenon_leg s now) ≡ core s
unfolding plan_zenon_leg
core-plan s now = ground arith

core-log : (now : ℤ) (m : Message) (s : Swap) → core (log now m s) ≡ core s
unfolding log
core-log now m s = refl

abbrev Ordered : Swap → ℤ → ℤ → Type 0
Ordered s lock remaining =
    (pos 7200000000000 ≤ℤ remaining)
    × ((bitcoin_leg_is_initiators s ≡ false) ⊎ (pos 14400000000000 ≤ℤ remaining))
    × ((bitcoin_leg_is_initiators s ≡ true)
        ⊎ (s.zenon.verified ≡ false)
        ⊎ (s.zenon.expiration_time ≡ pos 0)
        ⊎ (add64 lock (pos 7200) ≤ℤ s.zenon.expiration_time))

zero_is : (z : ℤ) → eqb_ℤ z (pos 0) ≡ true → z ≡ pos 0
zero_is z h = eq_of_parts z (pos 0) (ground arith)

ordered_under :
    (now : ℤ) (s : Swap) (lock remaining : ℤ) {o : Swap}
    → audit_leg_ordering now s lock remaining ≡ done o
    → (bitcoin_leg_is_initiators s ≡ true)
      ⊎ (s.zenon.verified ≡ false)
      ⊎ (s.zenon.expiration_time ≡ pos 0)
      ⊎ (add64 lock (pos 7200) ≤ℤ s.zenon.expiration_time)
unfolding audit_leg_ordering
ordered_under now s lock remaining h = ground (arith, zero_is s.zenon.expiration_time)

audit_leg_ordering-done :
    (now : ℤ) (s : Swap) (lock remaining : ℤ) {o : Swap}
    → audit_leg_ordering now s lock remaining ≡ done o
    → Ordered s lock remaining × (core o ≡ core s)
unfolding audit_leg_ordering
audit_leg_ordering-done now s lock remaining {o} h =
    ((ground arith, ground arith, ordered_under now s lock remaining h), ground arith)

leg_of-hash :
    (s : Swap) (h : Bytes)
    → bitcoin_leg_is_initiators (record s { secret_hash = h }) ≡ bitcoin_leg_is_initiators s
unfolding bitcoin_leg_is_initiators
leg_of-hash s h = refl

empty_or_same :
    (a h : Bytes)
    → (is_empty h || text_eq a h) ≡ true
    → ((h ≡ []) ⊎ (a ≡ h)) × ((if is_empty h then a else h) ≡ a)
empty_or_same a [] e = (inl refl, refl)
empty_or_same a (x ∷ h) e = let same = (text_eq_iff a (x ∷ h)).0 e in (inr same, sym same)

core-with_contract :
    (now : ℤ) (s : Swap) (contract : Bytes) (addr : Text) (d : ContractDetails)
    → core (with_contract now s contract addr d)
      ≡ (contract, d.lock_time, d.pkh_refund, s.secret_hash)
unfolding with_contract log
core-with_contract now s contract addr d = ground (
  arith,
  core-plan
      (record s {
        contract = contract;
        contract_addr = addr;
        lock_time = d.lock_time;
        counterparty_pkh = d.pkh_refund;
        state = past_draft s.state;
      })
      now,
)

module _ (t : Txscript) (address : Bytes → Network → Option Text) where
  adopt_contract-done :
      (now : ℤ) (s : Swap) (key : SwapKey) (params : Network) (contract : Bytes)
      (d : ContractDetails) {s' : Swap}
      → parse_contract t contract ≡ Num.ok d
      → s.key ≡ some key
      → adopt_contract t address now s key params contract d ≡ done s'
      → Accepted t now s s' contract
  unfolding adopt_contract
  adopt_contract-done now s key params contract d {s'} parsed has_key h =
      let (ours, h1) = check-eq-done (text_eq d.pkh_redeem key.pkh) not_our_key _ h in
      let (hashed, h2) =
        check-eq-done (is_empty s.secret_hash || text_eq d.secret_hash s.secret_hash) wrong_hash _
          h1 in
      let (fits_hash, agreed) = empty_or_same d.secret_hash s.secret_hash hashed in
      let hash = if is_empty s.secret_hash then d.secret_hash else s.secret_hash in
      let (o, ordered, h3) = >>=-eq-done _ _ h2 in
      let (addr, has_address, h4) = or_fails-eq-done (address contract params) no_address _ h3 in
      let ((enough, room, under), kept) =
        audit_leg_ordering-done now (record s { secret_hash = hash }) d.lock_time
          (sub_time (unix d.lock_time) now) ordered in
      let is_s' : with_contract now o contract addr d ≡ s' = cc h4 in
      let set = ap core (sym is_s') ∙ core-with_contract now o contract addr d in
      record {
        details = d;
        readable = parsed;
        key = key;
        has_key = has_key;
        pays_us = (text_eq_iff d.pkh_redeem key.pkh).0 ours;
        same_hash = fits_hash;
        enough = enough;
        room = rw⁻¹ (leg_of-hash s hash) room;
        under = rw⁻¹ (leg_of-hash s hash) under;
        stored = (ap (λ c. c.0) set, ap (λ c. c.1) set, ap (λ c. c.2) set);
        agreed = ap (λ c. c.3) set ∙ ap (λ c. c.3) kept ∙ agreed;
      }

  empty-or : (h : Bytes) → (not (is_empty h) ≡ false) → h ≡ []
  empty-or [] e = refl
  empty-or (x ∷ h) e = cc

  decide :
      (now : ℤ) (s : Swap) (key : SwapKey) (params : Network) (contract : Bytes)
      (d : ContractDetails) {s' : Swap}
      → parse_contract t contract ≡ Num.ok d
      → s.key ≡ some key
      → (if not (is_empty s.contract) && text_eq contract s.contract
          then done s
          else if not (is_empty s.contract) && is_some (contract_committed s)
          then fails committed_elsewhere
          else adopt_contract t address now s key params contract d)
        ≡ done s'
      → ((s' ≡ s) × (s.contract ≡ contract))
        ⊎ (((s.contract ≡ []) ⊎ (contract_committed s ≡ none)) × Accepted t now s s' contract)
  decide now s key params contract d parsed has_key h =
      elim (Bool-cases (not (is_empty s.contract) && text_eq contract s.contract)) [
        | inl same ↦
            let equal : text_eq contract s.contract ≡ true = ground arith in
            let is_s : s ≡ _ = cc (rw same at h) in
            inl (sym is_s, sym ((text_eq_iff contract s.contract).0 equal))
        | inr new ↦
            elim (Bool-cases (not (is_empty s.contract) && is_some (contract_committed s))) [
              | inl refused ↦ cc (rw (new, refused) at h)
              | inr free ↦
                  let accepted =
                    adopt_contract-done now s key params contract d parsed has_key
                      (rw (new, free) at h) in
                  elim (Bool-cases (not (is_empty s.contract))) [
                    | inr none_yet ↦ inr (inl (empty-or s.contract none_yet), accepted)
                    | inl present ↦ elim (Option-cases (contract_committed s)) [
                      | inl unstaked ↦ inr (inr unstaked, accepted)
                      | inr (why, staked) ↦ cc (rw (present, staked) at free)
                    ]
                  ]
            ]
      ]

  -- An audit that succeeds either leaves the record as it was, the contract being the one already in it,
  -- or takes a new one that it may take: there was none yet or nothing was staked on it, it pays this
  -- side's key, commits to the swap's hash, and leaves the time that the order of the legs needs.
  pub audit_contract-done :
      (now : ℤ) (s : Swap) (hex : Text) {s' : Swap}
      → audit_contract t address now s hex ≡ done s'
      → (contract : Bytes) × (hex_decode (trim_space hex) ≡ some contract)
        × (((s' ≡ s) × (s.contract ≡ contract))
            ⊎ (((s.contract ≡ []) ⊎ (contract_committed s ≡ none)) × Accepted t now s s' contract))
  unfolding audit_contract
  audit_contract-done now s hex {s'} h =
      let (side, h1) = check-eq-done (is_receive s.leg) wrong_side _ h in
      let (contract, decoded, h2) = or_fails-eq-done (hex_decode (trim_space hex)) bad_hex _ h1 in
      let (key, has_key, h3) = or_fails-eq-done s.key key_missing _ h2 in
      let (d, parsed, h4) = of_contract-eq-done (parse_contract t contract) _ h3 in
      let (params, known, h5) = or_fails-eq-done (network_params s.network) unknown_network _ h4 in
      (contract, decoded, decide now s key params contract d parsed has_key h5)
