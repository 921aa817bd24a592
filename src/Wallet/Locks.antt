-- ===== src/Wallet/Locks.antt =====
-- wasm/walletblock.go: when planCreate proposes a call, and which.
use ferry_web.Prelude.{
  ◌^◌, ◌<◌, ◌≡◌, refl, sym, ap, ◌∙◌, subst, ◌⊎◌, inl, inr, Bool, true, false, not, ◌||◌, Option,
  none, some, Bool-cases, Option-cases, arith, length, is_empty, is_some,
}
use ferry_web.Prelude.Int.{
  ℤ, pos, pos_part, ◌+ℤ◌, ◌-ℤ◌, ◌≤ℤ◌, ◌<ℤ◌, ltb_ℤ, ltb_ℤ_iff, leb_ℤ, int_laws,
}
use ferry_web.Prelude.Int64.{Fits, i64, i64_exact, i64-Fits, add64, sub64}
use ferry_web.Prelude.Text.{Text, runes, trim_space, equal_fold}
use ferry_web.Prelude.Hex.{hex_encode}
use ferry_web.Prelude.Bytes.{Bytes}
use ferry_web.Prelude.Result.{ok}
use ferry_web.Abi.Calls.{IsDigest, pack_create}
use ferry_web.Abi.Decode.{decode_create}
use ferry_web.Abi.Method.{Calls, pack_create-Calls}
use ferry_web.Abi.RoundTrip.{pack_create-decode}
use ferry_web.Swap.Record.{Swap, FundingOutput, Network, network_params}
use ferry_web.Swap.Roles.{zenon_htlc_is_ours, zenon_leg_is_initiators, bitcoin_leg_is_initiators}
use ferry_web.Swap.Terms.{agreed_token}
use ferry_web.Swap.Commit.{
  funding_commit_blocker, binds_to, funding_bound, IsCommitted, funding_committed_iff,
  zenon_create_waits_on_btc,
}
use ferry_web.Swap.Build.{
  done, done_inj, check-then, or_fails-then, call-then, unreadable_token, no_zenon_amount,
  imprecise_amount, amount_not_positive, zenon_not_ours, already_created, not_audited, not_bound,
  no_peer, bad_zenon_address, no_expiry, leg_too_late, leg_too_early, call_refused,
}
use ferry_web.Bitcoin.Tx.{contract_pk_script}
use ferry_web.Watch.Backend.{Backend}
use ferry_web.Zenon.Address.{parse_address}
use ferry_web.Zenon.Rpc.{ZenonRpc, Momentum, Token, get_token, proxy_unlock_allowed}
use ferry_web.Zenon.Amount.{decimal_to_base_units}
use ferry_web.Manager.Hours.{Ordinary, one_sided}
use ferry_web.Manager.Expect.{known-true, zenon_verify_params}
use ferry_web.Wallet.Block.{Plan, Warning, proxy_unlock_denied}
use ferry_web.Wallet.Plan.{
  is_denied, locked_plan, warn_if, Encodings, check_order, amount_to_lock, plan_create,
}
use ferry_web.Wallet.Funding.{require_counter_leg_funding}
use ferry_web.Wallet.Unlocks.{of_result-then}
use ferry_web.Wallet.There.{
  IsThere, MayLock, require_counter_leg_funding-MayLock, leb_ℤ-≤ℤ, check-done,
}

-- The recorded funding's script is the one that pays the contract on the swap's network.
pub record IsPaid (e : Encodings) (s : Swap) : Type 0 where
  pub funding : FundingOutput
  pub recorded : s.funding ≡ some funding
  pub known : is_empty funding.pk_script_hex ≡ false
  pub params : Network
  pub network : network_params s.network ≡ some params
  pub want : Bytes
  pub pays_contract : contract_pk_script e.btcd s.contract params ≡ some want
  pub same_script : equal_fold funding.pk_script_hex (hex_encode want) ≡ true

-- The initiator's leg expires last, by two hours.
abbrev pub InOrder : Swap → ℤ → Type 0
InOrder s x =
    ((zenon_leg_is_initiators s ≡ true) × ((s.lock_time +ℤ pos 7200) ≤ℤ x))
    ⊎ ((zenon_leg_is_initiators s ≡ false) × (x ≤ℤ (s.lock_time -ℤ pos 7200)))

-- A create that may be signed.
pub record IsLock (e : Encodings) (z : ZenonRpc) (b : Option Backend) (now : ℤ) (s : Swap)
    (mom : Momentum) (plan : Plan) : Type 0 where
  pub ours : zenon_htlc_is_ours s ≡ true
  pub first : is_empty s.zenon.htlc_id ≡ true
  pub audited : is_empty s.contract ≡ false
  pub bound : (s.funding ≡ none) ⊎ IsPaid e s
  pub may_lock :
      (bitcoin_leg_is_initiators s ≡ false)
      ⊎ ((f : FundingOutput) × IsCommitted now s f × IsThere b s (pos 1))
  pub expiry : plan.expiration_time ≡ add64 mom.timestamp s.zenon.expiration_seconds
  pub in_order : InOrder s plan.expiration_time
  pub tok : Token
  pub is_token : get_token z (agreed_token s.zenon) ≡ ok tok
  pub units : ℤ
  pub are_units : decimal_to_base_units s.zenon.amount_display tok.decimals ≡ some units
  pub something : pos 0 <ℤ units
  pub amount : plan.block.amount ≡ e.decimal units
  pub token : plan.block.token_standard ≡ agreed_token s.zenon
  pub payee : Bytes
  pub is_payee : parse_address e.bech32 (trim_space s.zenon.peer_address) ≡ ok payee
  pub call : Bytes
  pub is_call : plan.block.data_text ≡ e.base64_encode call
  pub method : Calls e.sha3 (runes "Create(address,int64,uint8,uint8,bytes)") call
  pub decoded : decode_create call ≡ record {
    hash_locked = payee;
    expiration_time = pos_part plan.expiration_time;
    hash_type = 1;
    key_max_size = 32;
    hash_lock = s.secret_hash;
  }

either : (a b : ℤ) (c : Bool) → (leb_ℤ a b || c) ≡ true → (a ≤ℤ b) ⊎ (c ≡ true)
either a b c h = ground arith

check_order-done :
    (e : Encodings) (z : ZenonRpc) (s : Swap) (x : ℤ) (u : Unit {0})
    → check_order e z s x ≡ done u
    → (((zenon_verify_params s).max_expiration ≤ℤ pos 0)
        ⊎ (x ≤ℤ (zenon_verify_params s).max_expiration))
      × (((zenon_verify_params s).min_expiration ≤ℤ pos 0)
          ⊎ ((zenon_verify_params s).min_expiration ≤ℤ x))
unfolding check_order
check_order-done e z s x u h =
    let want = zenon_verify_params s in
    check-then (leb_ℤ want.max_expiration (pos 0) || leb_ℤ x want.max_expiration) leg_too_late _ h
      λ late h₁.
        let early = check-done _ leg_too_early u h₁ in
        (
          elim (either want.max_expiration (pos 0) _ late) [
            | inl unset ↦ inl unset
            | inr below ↦ inr (leb_ℤ-≤ℤ x want.max_expiration below)
          ],
          elim (either want.min_expiration (pos 0) _ early) [
            | inl unset ↦ inl unset
            | inr above ↦ inr (leb_ℤ-≤ℤ want.min_expiration x above)
          ],
        )

check_order-InOrder :
    (e : Encodings) (z : ZenonRpc) (s : Swap) (x : ℤ) (u : Unit {0})
    → is_empty s.contract ≡ false
    → pos 7200 <ℤ s.lock_time
    → Ordinary s.lock_time
    → check_order e z s x ≡ done u
    → InOrder s x
unfolding zenon_verify_params add64 sub64
check_order-InOrder e z s x u built late small h =
    let order = check_order-done e z s x u h in
    let known = known-true s built late in
    let sum =
      i64_exact (s.lock_time +ℤ pos 7200) (omega (int_laws, one_sided (s.lock_time +ℤ pos 7200))) in
    let diff =
      i64_exact (s.lock_time -ℤ pos 7200) (omega (int_laws, one_sided (s.lock_time -ℤ pos 7200))) in
    elim (Bool-cases (zenon_leg_is_initiators s)) [
      | inl i ↦
          let least : (i64 (s.lock_time +ℤ pos 7200) ≤ℤ pos 0)
              ⊎ (i64 (s.lock_time +ℤ pos 7200) ≤ℤ x) =
            rw (known, i) at order.1 in
          inl (i, omega (int_laws, rw sum at least))
      | inr i ↦
          let most : (i64 (s.lock_time -ℤ pos 7200) ≤ℤ pos 0)
              ⊎ (x ≤ℤ i64 (s.lock_time -ℤ pos 7200)) =
            rw (known, i) at order.0 in
          inr (i, omega (int_laws, rw diff at most))
    ]

funding_bound-IsPaid :
    (e : Encodings) (s : Swap) → funding_bound (contract_pk_script e.btcd) s ≡ true → IsPaid e s
unfolding funding_bound binds_to
funding_bound-IsPaid e s h = elim (Option-cases s.funding) [
  | inl bare ↦ cc (rw (bare, funding_bound) at h)
  | inr (f, seen) ↦ elim (Bool-cases (is_empty f.pk_script_hex || is_empty s.contract)) [
    | inl blank ↦ cc (rw (seen, blank, funding_bound) at h)
    | inr given ↦ elim (Option-cases (network_params s.network)) [
      | inl unknown ↦ cc (rw (seen, given, unknown, funding_bound) at h)
      | inr (params, named) ↦
          let known : is_empty f.pk_script_hex ≡ false = ground arith in
          elim (Option-cases (contract_pk_script e.btcd s.contract params)) [
            | inl no_script ↦
                cc (rw (seen, given, named, known, no_script, funding_bound, binds_to) at h)
            | inr (want, is_want) ↦ record {
              funding = f;
              recorded = seen;
              known = known;
              params = params;
              network = named;
              want = want;
              pays_contract = is_want;
              same_script = rw (seen, given, named, known, is_want, funding_bound, binds_to) at h;
            }
          ]
    ]
  ]
]

unfunded-none : (o : Option FundingOutput) → is_some o ≡ false → o ≡ none
unfunded-none none h = refl
unfunded-none (some f) h = cc h

-- What the amount to lock is.
abbrev IsAmount : Encodings → ZenonRpc → Swap → ℤ → Type 0
IsAmount e z s units =
    (tok : Token) × (get_token z (agreed_token s.zenon) ≡ ok tok)
    × (decimal_to_base_units s.zenon.amount_display tok.decimals ≡ some units)
    × (pos 0 <ℤ units)

amount_to_lock-IsAmount :
    (e : Encodings) (z : ZenonRpc) (s : Swap) (r : ℤ × Text)
    → amount_to_lock e z s ≡ done r
    → IsAmount e z s r.0
unfolding amount_to_lock
amount_to_lock-IsAmount e z s r h =
    of_result-then (get_token z (agreed_token s.zenon)) unreadable_token _ h λ tok read h₁.
      check-then (not (is_empty (trim_space s.zenon.amount_display))) no_zenon_amount _ h₁ λ _ h₂.
        or_fails-then (decimal_to_base_units s.zenon.amount_display tok.decimals) imprecise_amount _
          h₂
          λ units are h₃. check-then (ltb_ℤ (pos 0) units) amount_not_positive _ h₃ λ some_ h₄.
            subst (λ (q : ℤ × Text). IsAmount e z s q.0) (done_inj h₄)
              (tok, read, are, (ltb_ℤ_iff (pos 0) units).0 some_)

when-MayLock :
    (b : Option Backend) (now : ℤ) (s : Swap)
    → Fits (s.lock_time -ℤ now)
    → zenon_htlc_is_ours s ≡ true
    → MayLock b now s
    → (bitcoin_leg_is_initiators s ≡ false)
      ⊎ ((f : FundingOutput) × IsCommitted now s f × IsThere b s (pos 1))
unfolding zenon_create_waits_on_btc funding_commit_blocker
when-MayLock b now s fits ours m = elim (Bool-cases (bitcoin_leg_is_initiators s)) [
  | inr free ↦ inl free
  | inl first ↦
      let waits : zenon_create_waits_on_btc s ≡ true = ground (arith, ours, first) in
      elim m [
        | inl free ↦ cc (sym waits ∙ free)
        | inr (open_, there) ↦ elim ((funding_committed_iff now s fits).0 (ap not open_)) [
          | inl free ↦ cc (sym waits ∙ free)
          | inr (f, committed) ↦ inr (f, committed, there)
        ]
      ]
]

or-not : (a c : Bool) → (not a || c) ≡ true → (a ≡ false) ⊎ (c ≡ true)
or-not false c h = inl refl
or-not true c h = inr h

warn_if-IsLock :
    (e : Encodings) (z : ZenonRpc) (b : Option Backend) (now : ℤ) (s : Swap) (mom : Momentum)
    (c : Bool) (w : Warning) (p : Plan)
    → IsLock e z b now s mom p
    → IsLock e z b now s mom (warn_if c w p)
warn_if-IsLock e z b now s mom false w p l = l
warn_if-IsLock e z b now s mom true w p l = record {
  ours = l.ours;
  first = l.first;
  audited = l.audited;
  bound = l.bound;
  may_lock = l.may_lock;
  expiry = l.expiry;
  in_order = l.in_order;
  tok = l.tok;
  is_token = l.is_token;
  units = l.units;
  are_units = l.are_units;
  something = l.something;
  amount = l.amount;
  token = l.token;
  payee = l.payee;
  is_payee = l.is_payee;
  call = l.call;
  is_call = l.is_call;
  method = l.method;
  decoded = l.decoded;
}

add64-Fits : (x y : ℤ) → Fits (add64 x y)
unfolding add64
add64-Fits x y = i64-Fits (x +ℤ y)

not-true : (c : Bool) → not c ≡ true → c ≡ false
not-true false h = refl
not-true true h = cc h

module _ (e : Encodings) (z : ZenonRpc) where
  -- A create is proposed only for the side that locks the ZNN, once, against a contract that was
  -- audited, and that the funding pays, where one is recorded. Where the Bitcoin leg is the initiator's,
  -- the funding is recorded as full, mined and unspent, with four hours left, and is unspent, full and
  -- deep enough at the contract's address, as the node says now. The expiry keeps two hours between the
  -- legs: the initiator's expires last. What is sent is the agreed amount, which is positive, in base
  -- units of the agreed token. The call that is to be signed starts with the method id of Create, and
  -- its arguments, as the contract reads them, are the counterparty's address, that expiry, SHA-256, 32
  -- bytes of secret and the swap's hash. A digest of SHA3-256 has 32 bytes; the locktime is past two
  -- hours after 1970 and less than 2 ^ 62, and the time that is left to it fits int64.
  pub plan_create-IsLock :
      IsDigest e.sha3
      → (b : Option Backend) (now : ℤ) (s : Swap) (mom : Momentum) (plan plan' : Plan)
      → length s.secret_hash < 2 ^ 64
      → pos 7200 <ℤ s.lock_time
      → Ordinary s.lock_time
      → Fits (s.lock_time -ℤ now)
      → plan_create e z b now s mom plan ≡ done plan'
      → IsLock e z b now s mom plan'
  unfolding plan_create
  plan_create-IsLock digest b now s mom plan plan' short late small fits h =
      check-then (zenon_htlc_is_ours s) zenon_not_ours _ h λ ours h₁.
        check-then (is_empty s.zenon.htlc_id) already_created _ h₁ λ first h₂.
          check-then (not (is_empty s.contract)) not_audited _ h₂ λ audited h₃.
            check-then (not (is_some s.funding) || funding_bound (contract_pk_script e.btcd) s)
              not_bound _ h₃
              λ bound h₄. call-then (require_counter_leg_funding b now s) _ h₄ λ u allowed h₅.
                check-then (not (is_empty (trim_space s.zenon.peer_address))) no_peer _ h₅ λ _ h₆.
                  of_result-then (parse_address e.bech32 (trim_space s.zenon.peer_address))
                    bad_zenon_address _ h₆
                    λ payee is_payee h₇.
                      check-then (ltb_ℤ (pos 0) s.zenon.expiration_seconds) no_expiry _ h₇ λ _ h₈.
                        call-then
                          (check_order e z s (add64 mom.timestamp s.zenon.expiration_seconds)) _ h₈
                          λ v ordered h₉. call-then (amount_to_lock e z s) _ h₉ λ locked amount h'.
                            of_result-then
                              (pack_create e.sha3 payee
                                (add64 mom.timestamp s.zenon.expiration_seconds) 1 32 s.secret_hash)
                              call_refused _ h'
                              λ call packed h''.
                                let is_plan = done_inj h'' in
                                let (tok, is_token, are_units, something) =
                                  amount_to_lock-IsAmount e z s locked amount in
                                subst (IsLock e z b now s mom) is_plan (
                                  warn_if-IsLock e z b now s mom
                                    (is_denied
                                      (proxy_unlock_allowed z (trim_space s.zenon.peer_address)))
                                    proxy_unlock_denied
                                    (locked_plan e s
                                      (add64 mom.timestamp s.zenon.expiration_seconds) locked.0
                                      locked.1 call plan)
                                    (record {
                                      ours = ours;
                                      first = first;
                                      audited = not-true (is_empty s.contract) audited;
                                      bound = elim (or-not (is_some s.funding) _ bound) [
                                        | inl bare ↦ inl (unfunded-none s.funding bare)
                                        | inr pays ↦ inr (funding_bound-IsPaid e s pays)
                                      ];
                                      may_lock =
                                          when-MayLock b now s fits ours
                                            (require_counter_leg_funding-MayLock b now s u allowed);
                                      expiry = refl;
                                      in_order =
                                          check_order-InOrder e z s
                                            (add64 mom.timestamp s.zenon.expiration_seconds) v
                                            (not-true (is_empty s.contract) audited) late small
                                            ordered;
                                      tok = tok;
                                      is_token = is_token;
                                      units = locked.0;
                                      are_units = are_units;
                                      something = something;
                                      amount = refl;
                                      token = refl;
                                      payee = payee;
                                      is_payee = is_payee;
                                      call = call;
                                      is_call = refl;
                                      method =
                                          pack_create-Calls e.sha3 digest payee
                                            (add64 mom.timestamp s.zenon.expiration_seconds) 1 32
                                            s.secret_hash packed;
                                      decoded =
                                          (pack_create-decode e.sha3 digest payee
                                            (add64 mom.timestamp s.zenon.expiration_seconds) 1 32
                                            s.secret_hash
                                            (add64-Fits mom.timestamp s.zenon.expiration_seconds)
                                            (omega arith) (omega arith) short packed).0;
                                    }))
