-- ===== src/Manager/Checked.antt =====
-- wasm/manager.go: what VerifyZenon records.
use ferry_web.Prelude.{
  ◌≡◌, refl, sym, ap, ap₂, subst, ◌∙◌, inl, inr, Bool, not, Option, some, arith, Bool-cases,
  is_empty,
}
use ferry_web.Prelude.Int.{ℤ}
use ferry_web.Prelude.Text.{Text, trim_space}
use ferry_web.Prelude.Bytes.{Bytes}
use ferry_web.Prelude.Result.{Result, ok, err, Result-cases, ok_inj}
use ferry_web.Swap.Record.{Swap, log}
use ferry_web.Swap.Build.{done, done_inj, check-then, no_htlc_id, not_loaded, not_saved}
use ferry_web.Store.Records.{Backing, Json, load, save, advanced}
use ferry_web.Store.Stale.{save-ok}
use ferry_web.Store.Saved.{IsStored, save-IsStored}
use ferry_web.Zenon.Entry.{HtlcInfo}
use ferry_web.Zenon.Verify.{VerifyParams, Verdict, verify}
use ferry_web.Ledger.Preimage.{NodeError}
use ferry_web.Zenon.Rpc.{ZenonRpc, get_htlc_by_id, frontier_momentum}
use ferry_web.Manager.Entries.{
  checked, recovered, is_verified, zenon_expectations, record_verdict, wants_unlock, find_unlock,
  unlocked, entry_missing, entry_read, verify_zenon,
}
use ferry_web.Watch.Poll.{of_store-then}

-- The terms of a leg that were agreed, and the swap's own.
abbrev pub agreed : Swap → Text × Text × Text × Text × Bytes × Bytes
agreed s = (
  s.zenon.token_standard, s.zenon.self_address, s.zenon.peer_address, s.zenon.amount_display,
  s.secret_hash, s.secret,
)

module _ (base64 : Text → Option Bytes) (sha256 : Bytes → Bytes) (wording : Verdict → Text) where
  record_verdict-agreed :
      (now : ℤ) (id : Text) (info : HtlcInfo) (v : Verdict) (s : Swap)
      → agreed (record_verdict base64 sha256 wording now id info v s) ≡ agreed s
  unfolding record_verdict log
  record_verdict-agreed now id info v s = ground arith

  record_verdict-verified :
      (now : ℤ) (id : Text) (info : HtlcInfo) (v : Verdict) (s : Swap)
      → let s' = record_verdict base64 sha256 wording now id info v s in
        (s'.zenon.verified ≡ is_verified v) × (s'.zenon.htlc_id ≡ id)
  unfolding record_verdict log
  record_verdict-verified now id info v s = (ground arith, ground arith)

  expectations-agreed :
      (z : ZenonRpc) (now : ℤ) (s : Swap)
      → agreed (zenon_expectations base64 sha256 wording z now s).1 ≡ agreed s
  unfolding zenon_expectations log
  expectations-agreed z now s = elim (Result-cases (frontier_momentum z)) [
    | inl (mom, told) ↦ rw (told, zenon_expectations) refl
    | inr (e, silent) ↦ rw (silent, zenon_expectations) refl
  ]

  module _ (j : Json) (full : Backing → Text → Text → Bool) (prefix : Text) where
    -- What a check of an entry has led to.
    pub record IsChecked (z : ZenonRpc) (now : ℤ) (id : Text) (info : HtlcInfo) (v : Verdict)
        (s : Swap) (store' : Backing) (s' : Swap) : Type 0 where
      pub asked : get_htlc_by_id z id ≡ ok info
      pub judged :
          v
          ≡ verify base64 info
              (record (zenon_expectations base64 sha256 wording z now s).0 { expect_id = id })
      pub kept : s'.zenon.verified ≡ is_verified v
      pub named : s'.zenon.htlc_id ≡ id
      pub same_terms : agreed s' ≡ agreed s
      pub stored : IsStored j prefix store' s'

    -- What is saved is the record with its version moved on.
    saved-agreed :
        (store store' : Backing) (t s' : Swap)
        → save j full prefix store t ≡ ok (store', s')
        → (agreed s' ≡ agreed t)
          × ((s'.zenon.verified ≡ t.zenon.verified) × (s'.zenon.htlc_id ≡ t.zenon.htlc_id))
    unfolding advanced
    saved-agreed store store' t s' e =
        let saved = (save-ok j full prefix store t e).3 in
        subst
          (λ u.
            (agreed u ≡ agreed t)
            × ((u.zenon.verified ≡ t.zenon.verified) × (u.zenon.htlc_id ≡ t.zenon.htlc_id)))
          (sym saved) (refl, (refl, refl))

    entry_read-IsChecked :
        (z : ZenonRpc) (now : ℤ) (store store' : Backing) (id : Text) (info info' : HtlcInfo)
        (v : Verdict) (s s' : Swap)
        → get_htlc_by_id z id ≡ ok info
        → entry_read base64 sha256 wording j full prefix z now store id info s
          ≡ done (store', checked s' info' v)
        → IsChecked z now id info' v s store' s'
    unfolding entry_read
    entry_read-IsChecked z now store store' id info info' v s s' asked e =
        let want : VerifyParams × Swap = zenon_expectations base64 sha256 wording z now s in
        let verdict : Verdict = verify base64 info (record want.0 { expect_id = id }) in
        let t : Swap = record_verdict base64 sha256 wording now id info verdict want.1 in
        of_store-then (save j full prefix store t) not_saved _ e λ r saves d.
          let p = done_inj d in
          let same : r.1 ≡ s' = cc p in
          let at_store : r.0 ≡ store' = cc p in
          let read : info ≡ info' = cc p in
          let judged : verdict ≡ v = cc p in
          let (terms, end) = saved-agreed store r.0 t r.1 saves in
          let (as_verdict, as_id) = record_verdict-verified now id info verdict want.1 in
          let with_terms = record_verdict-agreed now id info verdict want.1 in
          let from = expectations-agreed z now s in
          record {
            asked = subst (λ i. get_htlc_by_id z id ≡ ok i) read asked;
            judged = sym judged ∙ ap (λ i. verify base64 i (record want.0 { expect_id = id })) read;
            kept =
                ap (λ u. u.zenon.verified) (sym same)
                ∙ (end.0 ∙ (as_verdict ∙ ap is_verified judged));
            named = ap (λ u. u.zenon.htlc_id) (sym same) ∙ (end.1 ∙ as_id);
            same_terms = ap agreed (sym same) ∙ (terms ∙ (with_terms ∙ from));
            stored =
                subst (λ (u : Backing × Swap). IsStored j prefix u.0 u.1)
                  (ap₂ (λ x (y : Swap). (x, y)) at_store same)
                  (save-IsStored j full prefix store t r.0 r.1 saves);
          }

    entry_missing-IsChecked :
        {P : Type 0} (z : ZenonRpc) (now : ℤ) (store store' : Backing) (id : Text) (info : HtlcInfo)
        (v : Verdict) (s s' : Swap)
        → entry_missing base64 sha256 wording j full prefix z now store id s
          ≡ done (store', checked s' info v)
        → P
    unfolding entry_missing
    entry_missing-IsChecked z now store store' id info v s s' e =
        elim (Bool-cases (wants_unlock base64 sha256 wording z id s)) [
          | inr unwanted ↦ cc (rw (unwanted, entry_missing) at e)
          | inl wanted ↦
              elim (Result-cases (find_unlock base64 sha256 wording z s.zenon.peer_address s)) [
                | inr (why, lost) ↦ cc (rw (wanted, lost, entry_missing) at e)
                | inl (secret, found) ↦
                    of_store-then
                      (save j full prefix store (unlocked base64 sha256 wording now id secret s))
                      not_saved (λ r. done (r.0, recovered r.1))
                      (rw (wanted, found, entry_missing) at e) λ r _ d. let p = done_inj d in cc p
              ]
        ]

    answered-IsChecked :
        (z : ZenonRpc) (now : ℤ) (store store' : Backing) (id : Text) (info : HtlcInfo)
        (v : Verdict) (s s' : Swap) (answer : Result NodeError HtlcInfo)
        → get_htlc_by_id z id ≡ answer
        → (elim answer [
          | err _ ↦ entry_missing base64 sha256 wording j full prefix z now store id s
          | ok i ↦ entry_read base64 sha256 wording j full prefix z now store id i s
        ])
          ≡ done (store', checked s' info v)
        → IsChecked z now id info v s store' s'
    answered-IsChecked z now store store' id info v s s' (err why) asked e =
        entry_missing-IsChecked z now store store' id info v s s' e
    answered-IsChecked z now store store' id info v s s' (ok i) asked e =
        entry_read-IsChecked z now store store' id i info v s s' asked e

    -- A check of an entry of a record that loads as `s`, which is reported as a check, is what a
    -- fresh answer of the node leads to: the verdict is the one that the rules give on the entry
    -- that the node returned for the id that was asked, against the record's expectations; the
    -- record that is returned, which is what the store then holds under its id, is verified exactly
    -- on that verdict, names that entry, and keeps the terms that were agreed, the hash and the
    -- secret.
    pub verify_zenon-IsChecked :
        (z : ZenonRpc) (now : ℤ) (store store' : Backing) (id htlc_id : Text) (info : HtlcInfo)
        (v : Verdict) (s s' : Swap)
        → load j full prefix now store id ≡ ok s
        → verify_zenon base64 sha256 wording j full prefix (some z) now store id htlc_id
          ≡ done (store', checked s' info v)
        → IsChecked z now (trim_space htlc_id) info v s store' s'
    unfolding verify_zenon
    verify_zenon-IsChecked z now store store' id htlc_id info v s s' loaded e =
        of_store-then (load j full prefix now store id) not_loaded _ e λ t reads e₁.
          check-then (not (is_empty (trim_space htlc_id))) no_htlc_id _ e₁ λ given e₂.
            subst (λ u. IsChecked z now (trim_space htlc_id) info v u store' s')
              (ok_inj (sym reads ∙ loaded))
              (answered-IsChecked z now store store' (trim_space htlc_id) info v t s'
                (get_htlc_by_id z (trim_space htlc_id)) refl e₂)
