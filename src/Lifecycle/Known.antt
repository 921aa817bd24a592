-- ===== src/Lifecycle/Known.antt =====
-- wasm/manager.go: the secret on a record, over all these operations.
use ferry_web.Prelude.{
  ◌≡◌, refl, sym, ap, subst, ◌∙◌, ◌⊎◌, inl, inr, Bool, some, [], ◌==◌, Bool-cases, length,
}
use ferry_web.Prelude.Int.{ℤ}
use ferry_web.Prelude.Text.{Text, text_eq, text_eq_iff, trim_space}
use ferry_web.Prelude.Bytes.{Bytes}
use ferry_web.Prelude.Hex.{hex_decode}
use ferry_web.Prelude.Result.{ok, ok_inj}
use ferry_web.Contract.Build.{secret_size}
use ferry_web.Swap.Record.{Swap, is_send, log, secret_supplied, filed_away, sent_funding}
use ferry_web.Swap.Offer.{CreateParams}
use ferry_web.Swap.Build.{
  done, done_inj, check-then, or_fails-then, bad_hex, bad_secret_size, wrong_secret, wrong_side,
  not_a_tx_id, not_loaded, not_saved,
}
use ferry_web.Store.Records.{Backing, Json, load, save, advanced}
use ferry_web.Store.Stale.{save-ok}
use ferry_web.Watch.Backend.{Packages, valid_tx_id}
use ferry_web.Watch.Keeps.{Keeps}
use ferry_web.Watch.Poll.{of_store-then, of_store-done}
use ferry_web.Watch.Invariant.{refresh-Keeps}
use ferry_web.Outcome.Fields.{set_secret, archive, record_funding_broadcast, reported, same_bool}
use ferry_web.Manager.Checked.{verify_zenon-IsChecked}
use ferry_web.Manager.Recovered.{verify_zenon-recovered, find_zenon_htlc-checks}
use ferry_web.Manager.Entries.{Verification, checked, recovered, verify_zenon}
use ferry_web.Zenon.Verify.{Verdict}
use ferry_web.Zenon.Rpc.{ZenonRpc}
use ferry_web.Manager.Create.{Libraries}
use ferry_web.Manager.Allowed.{Knows}
use ferry_web.Manager.Created.{create-IsCreated}
use ferry_web.Lifecycle.Reach
use ferry_web.Lifecycle.Reach.{Reached, record_of}

-- There is no secret, or it is the swap's.
abbrev pub Known : (Bytes → Bytes) → Bytes → Bytes → Type 0
Known sha256 secret hash = (secret ≡ []) ⊎ (sha256 secret ≡ hash)

abbrev pub IsKnown : (Bytes → Bytes) → Swap → Type 0
IsKnown sha256 s = Known sha256 s.secret s.secret_hash

-- The secret of `s'` and its hash are those of `s`.
abbrev SameSecret : Swap → Swap → Type 0
SameSecret s s' = (s'.secret ≡ s.secret) × (s'.secret_hash ≡ s.secret_hash)

IsKnown-same :
    (sha256 : Bytes → Bytes) (s s' : Swap) → SameSecret s s' → IsKnown sha256 s → IsKnown sha256 s'
IsKnown-same sha256 s s' (a, b) k =
    subst (λ x. Known sha256 x s'.secret_hash) (sym a)
      (subst (λ y. Known sha256 s.secret y) (sym b) k)

IsKnown-Keeps :
    (sha256 : Bytes → Bytes) (s s' : Swap)
    → Keeps sha256 s s'
    → IsKnown sha256 s
    → IsKnown sha256 s'
IsKnown-Keeps sha256 s s' keeps k =
    let hash = ap (λ t. t.secret_hash) keeps.same_terms in
    elim keeps.same_secret [
      | inl same ↦ IsKnown-same sha256 s s' (same, hash) k
      | inr (blank, found) ↦ inr (found ∙ sym hash)
    ]

IsKnown-Knows :
    (l : Libraries) (p : CreateParams) (secret hash : Bytes)
    → Knows l p secret hash
    → Known l.sha256 secret hash
IsKnown-Knows l p secret hash (inl (first, is_hash)) = inr (sym is_hash)
IsKnown-Knows l p secret hash (inr (second, blank, read, size)) = inl blank

module _ (p : Packages) (j : Json) (full : Backing → Text → Text → Bool) (prefix : Text) where
  saved-same :
      (store store' : Backing) (t s' : Swap)
      → save j full prefix store t ≡ ok (store', s')
      → SameSecret t s'
  unfolding advanced
  saved-same store store' t s' e =
      let saved = (save-ok j full prefix store t e).3 in
      subst (SameSecret t) (sym saved) (refl, refl)

  told-IsKnown :
      (now : ℤ) (store store' : Backing) (id hex : Text) (s s' : Swap)
      → set_secret j full prefix p.sha256 now store id hex ≡ done (store', s')
      → IsKnown p.sha256 s'
  unfolding set_secret log
  told-IsKnown now store store' id hex s s' e =
      of_store-then (load j full prefix now store id) not_loaded _ e λ t _ e₁.
        or_fails-then (hex_decode (trim_space hex)) bad_hex _ e₁ λ secret _ e₂.
          check-then (length secret == secret_size) bad_secret_size _ e₂ λ _ e₃.
            check-then (text_eq (p.sha256 secret) t.secret_hash) wrong_secret _ e₃ λ hashes e₄.
              IsKnown-same p.sha256 (log now secret_supplied (record t { secret = secret })) s'
                (saved-same store store' (log now secret_supplied (record t { secret = secret })) s'
                  (of_store-done _ not_saved e₄))
                (inr ((text_eq_iff (p.sha256 secret) t.secret_hash).0 hashes))

  filed-same :
      (now : ℤ) (store store' : Backing) (id : Text) (archived : Bool) (s s' : Swap)
      → load j full prefix now store id ≡ ok s
      → archive j full prefix now store id archived ≡ done (store', s')
      → SameSecret s s'
  unfolding archive log
  filed-same now store store' id archived s s' loaded e =
      of_store-then (load j full prefix now store id) not_loaded _ e λ t reads e₁.
        subst (λ u. SameSecret u s') (ok_inj (sym reads ∙ loaded))
          (elim (Bool-cases (same_bool t.archived archived)) [
            | inl same ↦
                subst (SameSecret t) (ap (λ (r : Backing × Swap). r.1) (done_inj (rw same at e₁)))
                  (refl, refl)
            | inr differs ↦
                saved-same store store'
                  (log now (filed_away archived) (record t { archived = archived })) s'
                  (of_store-done _ not_saved (rw differs at e₁))
          ])

  paid-same :
      (now : ℤ) (store store' : Backing) (id tx_id : Text) (s s' : Swap)
      → load j full prefix now store id ≡ ok s
      → record_funding_broadcast j full prefix now store id tx_id ≡ done (store', s')
      → SameSecret s s'
  unfolding record_funding_broadcast log
  paid-same now store store' id tx_id s s' loaded e =
      of_store-then (load j full prefix now store id) not_loaded _ e λ t reads e₁.
        check-then (valid_tx_id (trim_space tx_id)) not_a_tx_id _ e₁ λ _ e₂.
          check-then (is_send t.leg) wrong_side _ e₂ λ _ e₃.
            subst (λ u. SameSecret u s') (ok_inj (sym reads ∙ loaded))
              (elim (Bool-cases (reported (trim_space tx_id) t)) [
                | inl before ↦
                    subst (SameSecret t)
                      (ap (λ (r : Backing × Swap). r.1) (done_inj (rw before at e₃))) (refl, refl)
                | inr first ↦
                    saved-same store store'
                      (log now (sent_funding (trim_space tx_id)) (record t {
                        funding_broadcast = some (record { tx_id = trim_space tx_id; at = now });
                      }))
                      s' (of_store-done _ not_saved (rw first at e₃))
              ])

  looked_at-IsKnown :
      (z : ZenonRpc) (wording : Verdict → Text) (now : ℤ) (store store' : Backing)
      (id htlc_id : Text) (v : Verification) (s : Swap)
      → load j full prefix now store id ≡ ok s
      → verify_zenon p.base64 p.sha256 wording j full prefix (some z) now store id htlc_id
        ≡ done (store', v)
      → IsKnown p.sha256 s
      → IsKnown p.sha256 (record_of v)
  looked_at-IsKnown z wording now store store' id htlc_id (checked s' info v) s loaded e k =
      let is_checked =
        verify_zenon-IsChecked p.base64 p.sha256 wording j full prefix z now store store' id htlc_id
          info v s s' loaded e in
      IsKnown-same p.sha256 s s'
        (
          ap (λ (t : Text × Text × Text × Text × Bytes × Bytes). t.5) is_checked.same_terms,
          ap (λ (t : Text × Text × Text × Text × Bytes × Bytes). t.4) is_checked.same_terms,
        )
        k
  looked_at-IsKnown z wording now store store' id htlc_id (recovered s') s loaded e k = inr (
      verify_zenon-recovered p.base64 p.sha256 wording j full prefix z now store store' id htlc_id
        s' e)

  -- However a swap came about by Create, Refresh, SetSecret, VerifyZenon, with a verdict or with a secret
  -- that it recovers, FindZenonHtlc, Archive and RecordFundingBroadcast, the secret on its record,
  -- where there is one, hashes to the hash of the swap. SHA-256 is the same function everywhere.
  pub reached-IsKnown : (s : Swap) → Reached p j full prefix s → IsKnown p.sha256 s
  reached-IsKnown _ (Reach.created l now net drawn store params r same e) =
      subst (λ sha256. IsKnown sha256 r.1) same
        (IsKnown-Knows l params r.1.secret r.1.secret_hash
          (create-IsCreated l j full prefix now net drawn store params r e).secret)
  reached-IsKnown _ (Reach.refreshed b z now store store' id s s' from loaded e) =
      let (t, reads, keeps, _) = refresh-Keeps p b j full prefix z now store store' id s' e in
      IsKnown-Keeps p.sha256 s s'
        (subst (λ u. Keeps p.sha256 u s') (ok_inj (sym reads ∙ loaded)) keeps)
        (reached-IsKnown s from)
  reached-IsKnown _ (Reach.told now store store' id hex s s' from loaded e) =
      told-IsKnown now store store' id hex s s' e
  reached-IsKnown _ (Reach.looked_at z wording now store store' id htlc_id v s from loaded e) =
      looked_at-IsKnown z wording now store store' id htlc_id v s loaded e (reached-IsKnown s from)
  reached-IsKnown _ (Reach.searched z wording now store store' id v s from loaded e) =
      let (c, checks) =
        find_zenon_htlc-checks p.base64 p.sha256 wording j full prefix z now store id (store', v)
          e in
      looked_at-IsKnown z wording now store store' id c v s loaded checks (reached-IsKnown s from)
  reached-IsKnown _ (Reach.filed now store store' id archived s s' from loaded e) =
      IsKnown-same p.sha256 s s' (filed-same now store store' id archived s s' loaded e)
        (reached-IsKnown s from)
  reached-IsKnown _ (Reach.paid now store store' id tx_id s s' from loaded e) =
      IsKnown-same p.sha256 s s' (paid-same now store store' id tx_id s s' loaded e)
        (reached-IsKnown s from)
