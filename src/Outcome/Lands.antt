-- ===== src/Outcome/Lands.antt =====
-- wasm/manager.go: when saveOutcome records an outcome that another call's save came before.
use ferry_web.Prelude.{
  ◌≡◌, refl, sym, ap, ◌∙◌, ◌⊎◌, inl, inr, Bool, true, false, Option, some, arith, if◌then◌else◌,
  Bool-cases,
}
use ferry_web.Prelude.Int.{ℤ}
use ferry_web.Prelude.Text.{Text}
use ferry_web.Prelude.Bytes.{Bytes}
use ferry_web.Prelude.Result.{Result, ok, err, ok_inj, Result-cases, >>=-eq-ok, or_err-eq-ok}
use ferry_web.Swap.Record.{Swap, FundingOutput}
use ferry_web.Swap.Terms.{withdraw_stale_verdict}
use ferry_web.Swap.Build.{done}
use ferry_web.Store.Records.{
  StoreError, stale_write, no_swap, corrupt, Backing, Json, put, key, set, load, fresh, save,
  advanced,
}
use ferry_web.Store.Saved.{IsSaved, save-IsSaved}
use ferry_web.Outcome.Retry.{Others, is_stale, names, save_attempt, save_outcome}

-- Both ways of reading a record's JSON agree on its version.
pub record IsReadable (j : Json) : Type 0 where
  pub version_of-decode :
      (x : Text) (s : Swap) → j.decode x ≡ some s → j.version_of x ≡ some s.version

-- An outcome changes neither the id nor the version of a record.
pub record IsOutcome (apply : Swap → Swap) : Type 0 where
  pub same_id : (s : Swap) → (apply s).id ≡ s.id
  pub same_version : (s : Swap) → (apply s).version ≡ s.version

withdraw-version : (now : ℤ) (s : Swap) → (withdraw_stale_verdict now s).version ≡ s.version
unfolding withdraw_stale_verdict
withdraw-version now s = ground arith

module _ (j : Json) (full : Backing → Text → Text → Bool) (prefix : Text)
    (room : (b : Backing) (k v : Text) → full b k v ≡ false) where
  -- With room in the store, a save is refused only as stale.
  save_room :
      (store : Backing) (s : Swap) (k : Text)
      → key prefix s.id ≡ ok k
      → save j full prefix store s ≡ (
          if fresh j full prefix (store k) s
          then ok
              (put store k (some (j.encode (advanced j full prefix s))), advanced j full prefix s)
          else err stale_write)
  unfolding save set
  save_room store s k named =
      let fits = room store k (j.encode (advanced j full prefix s)) in
      rw (named, save) (ground (arith, fits))

  fresh_at :
      (o : Option Text) (x : Text) (s : Swap)
      → o ≡ some x
      → j.version_of x ≡ some s.version
      → fresh j full prefix o s ≡ true
  unfolding fresh
  fresh_at o x s at v = rw at (ground (arith, v))

  -- A record that was just loaded may be saved.
  loaded-fresh :
      (now : ℤ) (store : Backing) (id k : Text) (s s' : Swap)
      → IsReadable j
      → key prefix id ≡ ok k
      → load j full prefix now store id ≡ ok s
      → s'.version ≡ s.version
      → fresh j full prefix (store k) s' ≡ true
  unfolding load
  loaded-fresh now store id k s s' r named e same =
      let (k', named', e) = >>=-eq-ok (key prefix id) _ e in
      let (x, held, e) = or_err-eq-ok (store k') no_swap _ e in
      let (s0, read, e) = or_err-eq-ok (j.decode x) corrupt _ e in
      let at : store k ≡ some x = ap store (ok_inj (sym named ∙ named')) ∙ held in
      let version : s0.version ≡ s'.version =
        sym (withdraw-version now s0) ∙ ap (λ (t : Swap). t.version) (ok_inj e) ∙ sym same in
      fresh_at (store k) x s' at (r.version_of-decode x s0 read ∙ ap some version)

  err_inj :
      {x y : StoreError} → ◌≡◌ {A = Result StoreError (Backing × Swap)} (err x) (err y) → x ≡ y
  err_inj h = cc h

  save-fresh :
      (store : Backing) (s : Swap) (k : Text)
      → key prefix s.id ≡ ok k
      → fresh j full prefix (store k) s ≡ true
      → (r : Backing × Swap) × (save j full prefix store s ≡ ok r)
  save-fresh store s k named f =
      let saved = rw f at (save_room store s k named) in
      ((put store k (some (j.encode (advanced j full prefix s))), advanced j full prefix s), saved)

  save_refused :
      (store : Backing) (s : Swap) (k : Text) (why : StoreError)
      → key prefix s.id ≡ ok k
      → save j full prefix store s ≡ err why
      → is_stale why ≡ true
  save_refused store s k why named e = elim (Bool-cases (fresh j full prefix (store k) s)) [
    | inl f ↦ let (r, saved) = save-fresh store s k named f in cc (sym e ∙ saved)
    | inr n ↦ ap is_stale (err_inj (sym e ∙ (rw n at (save_room store s k named))))
  ]

  module _ (o : Others) (now : ℤ) (txid : Text) (apply : Swap → Swap) (contract : Bytes)
      (funding : FundingOutput) where
    -- The outcome of a broadcast is recorded, although another call has saved the record meanwhile:
    -- where the store has room, the record that is loaded then has the id that it is stored under and names the
    -- same output and contract, and no other call writes between that load and the second save. What is then saved is
    -- the outcome on the record of the spend, or the outcome on the record that was loaded.
    pub save_outcome-lands :
        (store : Backing) (s later : Swap) (k : Text)
        → IsReadable j
        → IsOutcome apply
        → ((b : Backing) → o.before_save 1 b ≡ b)
        → key prefix s.id ≡ ok k
        → load j full prefix now (o.before_load 0 (o.before_save 0 store)) s.id ≡ ok later
        → later.id ≡ s.id
        → names contract funding later ≡ true
        → (store' : Backing) × (s' : Swap) × (save_outcome j full prefix o now txid apply contract
              funding store s
            ≡ done (store', s'))
          × (IsSaved j prefix (o.before_save 0 store) (apply s) store' s'
              ⊎ IsSaved j prefix (o.before_load 0 (o.before_save 0 store)) (apply later) store' s')
    unfolding save_outcome
    save_outcome-lands store s later k readable outcome quiet named loaded own same =
        let store1 = o.before_save 0 store in
        let store2 = o.before_load 0 store1 in
        let named1 = ap (key prefix) (outcome.same_id s) ∙ named in
        elim (Result-cases (save j full prefix store1 (apply s))) [
          | inl (r, saved) ↦ (
            r.0,
            r.1,
            rw (saved, save_attempt) refl,
            inl (save-IsSaved j full prefix store1 (apply s) r.0 r.1 saved),
          )
          | inr (why, refused) ↦
              let stale = save_refused store1 (apply s) k why named1 refused in
              let loaded1 : load j full prefix now store2 (apply s).id ≡ ok later =
                ap (load j full prefix now store2) (outcome.same_id s) ∙ loaded in
              let named2 = ap (key prefix) (outcome.same_id later ∙ own) ∙ named in
              let is_fresh =
                loaded-fresh now store2 s.id k later (apply later) readable named loaded
                  (outcome.same_version later) in
              let (r, saved) = save-fresh store2 (apply later) k named2 is_fresh in
              let saved2 : save j full prefix (o.before_save 1 store2) (apply later) ≡ ok r =
                ap (λ (b : Backing). save j full prefix b (apply later)) (quiet store2) ∙ saved in
              (
                r.0,
                r.1,
                rw (refused, stale, loaded1, same, saved2, save_attempt) refl,
                inr (save-IsSaved j full prefix store2 (apply later) r.0 r.1 saved),
              )
        ]
