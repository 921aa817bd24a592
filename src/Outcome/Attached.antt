-- ===== src/Outcome/Attached.antt =====
-- wasm/manager.go: which record an outcome is written on.
use ferry_web.Prelude.{
  ℕ, zero, suc, refl, ◌+◌, ◌≤◌, ◌≡◌, ap, ◌∙◌, inl, inr, Bool, true, ◌&&◌, some, arith, ◌==◌,
  Bool-cases, Option-cases,
}
use ferry_web.Prelude.Int.{ℤ}
use ferry_web.Prelude.Text.{Text, text_eq, text_eq_iff}
use ferry_web.Prelude.Bytes.{Bytes}
use ferry_web.Prelude.Result.{ok, err, Result-cases}
use ferry_web.Swap.Record.{Swap, FundingOutput}
use ferry_web.Swap.Build.{done, done_inj}
use ferry_web.Store.Records.{
  StoreError, bad_id, stale_write, no_swap, corrupt, quota, not_allowed, panicked, Backing, Json,
  load, save,
}
use ferry_web.Store.Saved.{IsSaved, save-IsSaved}
use ferry_web.Outcome.Retry.{Others, is_stale, names, save_attempt, save_outcome}

-- The record has this output as its funding, and this contract.
pub record Names (contract : Bytes) (funding : FundingOutput) (s : Swap) : Type 0 where
  pub own : FundingOutput
  pub funded : s.funding ≡ some own
  pub tx_id : own.tx_id ≡ funding.tx_id
  pub vout : own.vout ≡ funding.vout
  pub same_contract : s.contract ≡ contract

names-Names :
    (contract : Bytes) (funding : FundingOutput) (s : Swap)
    → names contract funding s ≡ true
    → Names contract funding s
unfolding names
names-Names contract funding s h = elim (Option-cases s.funding) [
  | inl bare ↦ cc (rw (bare, names) at h)
  | inr (f, seen) ↦
      let h' : (text_eq f.tx_id funding.tx_id
            && f.vout == funding.vout
            && text_eq s.contract contract)
          ≡ true =
        ground arith in
      record {
        own = f;
        funded = seen;
        tx_id = (text_eq_iff _ _).0 (ground arith);
        vout = ground arith;
        same_contract = (text_eq_iff _ _).0 (ground arith);
      }
]

module _ (j : Json) (full : Backing → Text → Text → Bool) (prefix : Text) (o : Others) (now : ℤ)
    (apply : Swap → Swap) (contract : Bytes) (funding : FundingOutput) where
  -- The records that are tried, each with the number of its attempt and the store that it starts from: the
  -- outcome on the record of the spend, and after a save that was refused as stale, the
  -- outcome on the record that a load gives then, if that has the same output and contract.
  pub data Tried (store : Backing) (s : Swap) : ℕ → Backing → Swap → Type 0 where
    first : Tried store s 0 store (apply s)
    again :
        (n : ℕ) (b : Backing) (t fresh : Swap)
        → Tried store s n b t
        → save j full prefix (o.before_save n b) t ≡ err stale_write
        → load j full prefix now (o.before_load n (o.before_save n b)) t.id ≡ ok fresh
        → Names contract funding fresh
        → Tried store s (suc n) (o.before_load n (o.before_save n b)) (apply fresh)

  -- The record that one of at most four attempts has saved.
  pub record Written (store : Backing) (s : Swap) (store' : Backing) (s' : Swap) : Type 0 where
    pub attempt : ℕ
    pub few : attempt ≤ 3
    pub from : Backing
    pub record_ : Swap
    pub tried : Tried store s attempt from record_
    pub saved : IsSaved j prefix (o.before_save attempt from) record_ store' s'

  stale_is : (why : StoreError) → is_stale why ≡ true → why ≡ stale_write
  stale_is stale_write h = refl
  stale_is bad_id h = cc h
  stale_is no_swap h = cc h
  stale_is corrupt h = cc h
  stale_is quota h = cc h
  stale_is not_allowed h = cc h
  stale_is panicked h = cc h

  module _ (txid : Text) (store : Backing) (s : Swap) where
    Written-saved :
        (n : ℕ) (b : Backing) (t : Swap) (store' : Backing) (s' : Swap) (r : Backing × Swap)
        → n ≤ 3
        → Tried store s n b t
        → save j full prefix (o.before_save n b) t ≡ ok r
        → r ≡ (store', s')
        → Written store s store' s'
    Written-saved n b t store' s' r few tried e is_r = record {
      attempt = n;
      few = few;
      from = b;
      record_ = t;
      tried = tried;
      saved = save-IsSaved j full prefix (o.before_save n b) t store' s' (e ∙ ap ok is_r);
    }

    attempt-Written :
        (left n : ℕ) (b : Backing) (t : Swap) (store' : Backing) (s' : Swap)
        → left + n ≡ 3
        → Tried store s n b t
        → save_attempt j full prefix o now txid apply contract funding left n b t
          ≡ done (store', s')
        → Written store s store' s'
    unfolding save_attempt
    attempt-Written zero n b t store' s' count tried e =
        elim (Result-cases (save j full prefix (o.before_save n b) t)) [
          | inr (why, refused) ↦ cc (rw (refused, save_attempt) at e)
          | inl (r, saved) ↦
              Written-saved n b t store' s' r (omega arith) tried saved
                (done_inj (rw (saved, save_attempt) at e))
        ]
    attempt-Written (suc left) n b t store' s' count tried e =
        let b1 = o.before_save n b in
        elim (Result-cases (save j full prefix b1 t)) [
          | inl (r, saved) ↦
              Written-saved n b t store' s' r (omega arith) tried saved
                (done_inj (rw (saved, save_attempt) at e))
          | inr (why, refused) ↦ elim (Bool-cases (is_stale why)) [
            | inr hard ↦ cc (rw (refused, hard, save_attempt) at e)
            | inl stale ↦
                let b2 = o.before_load n b1 in
                elim (Result-cases (load j full prefix now b2 t.id)) [
                  | inr (x, gone) ↦ cc (rw (refused, stale, gone, save_attempt) at e)
                  | inl (fresh, loaded) ↦ elim (Bool-cases (names contract funding fresh)) [
                    | inr other ↦ cc (rw (refused, stale, loaded, other, save_attempt) at e)
                    | inl same ↦
                        attempt-Written left (suc n) b2 (apply fresh) store' s'
                          (omega (arith, count))
                          (Tried.again n b t fresh tried
                            (refused ∙ ap (λ x. err x) (stale_is why stale)) loaded
                            (names-Names contract funding fresh same))
                          (rw (refused, stale, loaded, same, save_attempt) at e)
                  ]
                ]
          ]
        ]

    -- An outcome that is recorded is saved by one of at most four attempts. The first is the outcome
    -- on the record that the spend was built from; each further one follows a save that was refused
    -- as stale, and is the outcome on the record that a load gives then, with all that other calls
    -- wrote to it, which still names the same output and the same contract. What is returned is that
    -- record under its next version, saved over the version that it was loaded at, and it is what
    -- the store holds.
    pub save_outcome-Written :
        (store' : Backing) (s' : Swap)
        → save_outcome j full prefix o now txid apply contract funding store s ≡ done (store', s')
        → Written store s store' s'
    unfolding save_outcome
    save_outcome-Written store' s' e =
        attempt-Written 3 0 store (apply s) store' s' (omega arith) Tried.first e
