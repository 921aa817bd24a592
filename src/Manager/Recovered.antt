-- ===== src/Manager/Recovered.antt =====
-- wasm/manager.go: the secret that VerifyZenon records of an entry that is gone, and what FindZenonHtlc
-- ends in.
use ferry_web.Prelude.{
  ◌≡◌, sym, subst, inl, inr, Bool, not, Option, some, List, [], ◌∷◌, Bool-cases, is_empty,
}
use ferry_web.Prelude.Int.{ℤ}
use ferry_web.Prelude.Text.{Text, trim_space}
use ferry_web.Prelude.Bytes.{Bytes}
use ferry_web.Prelude.Result.{Result, ok, err, Result-cases}
use ferry_web.Swap.Record.{Swap, log}
use ferry_web.Swap.Build.{
  done, done_inj, check-then, no_htlc_id, not_loaded, not_saved, no_creator_address, no_candidate,
}
use ferry_web.Store.Records.{Backing, Json, load, save}
use ferry_web.Store.Saved.{save-IsSaved}
use ferry_web.Zenon.Entry.{HtlcInfo}
use ferry_web.Zenon.Verify.{VerifyParams, Verdict, verify}
use ferry_web.Ledger.Preimage.{NodeError}
use ferry_web.Ledger.Found.{find_preimage_sound}
use ferry_web.Ledger.Creates.{HtlcCandidate, find_htlc_creates}
use ferry_web.Zenon.Rpc.{
  ZenonRpc, get_htlc_by_id, account_blocks_by_page, get_account_block_by_hash,
}
use ferry_web.Manager.Entries.{
  Verification, recovered, is_verified, zenon_expectations, wants_unlock, record_verdict,
  find_unlock, unlocked, entry_missing, entry_read, verify_zenon, try_candidates, creator_of,
  find_zenon_htlc,
}
use ferry_web.Watch.Poll.{of_store-then}

module _ (base64 : Text → Option Bytes) (sha256 : Bytes → Bytes) (wording : Verdict → Text)
    (j : Json) (full : Backing → Text → Text → Bool) (prefix : Text) where
  -- The secret is the swap's.
  abbrev Opens : Swap → Type 0
  Opens s = sha256 s.secret ≡ s.secret_hash

  saved-Opens :
      (store store' : Backing) (t s' : Swap)
      → save j full prefix store t ≡ ok (store', s')
      → Opens t
      → Opens s'
  saved-Opens store store' t s' e opens =
      subst Opens (sym (save-IsSaved j full prefix store t store' s' e).moved_on) opens

  unlocked-Opens :
      (z : ZenonRpc) (now : ℤ) (id : Text) (secret : Bytes) (s : Swap)
      → find_unlock base64 sha256 wording z s.zenon.peer_address s ≡ ok secret
      → Opens (unlocked base64 sha256 wording now id secret s)
  unfolding find_unlock unlocked log
  unlocked-Opens z now id secret s found =
      (find_preimage_sound sha256 base64 (account_blocks_by_page z) (get_account_block_by_hash z)
        s.zenon.peer_address s.secret_hash 50 10 secret found).0

  entry_missing-Opens :
      (z : ZenonRpc) (now : ℤ) (store store' : Backing) (id : Text) (s s' : Swap)
      → entry_missing base64 sha256 wording j full prefix z now store id s
        ≡ done (store', recovered s')
      → Opens s'
  unfolding entry_missing
  entry_missing-Opens z now store store' id s s' e =
      elim (Bool-cases (wants_unlock base64 sha256 wording z id s)) [
        | inr unwanted ↦ cc (rw (unwanted, entry_missing) at e)
        | inl wanted ↦
            elim (Result-cases (find_unlock base64 sha256 wording z s.zenon.peer_address s)) [
              | inr (why, lost) ↦ cc (rw (wanted, lost, entry_missing) at e)
              | inl (secret, found) ↦
                  let t = unlocked base64 sha256 wording now id secret s in
                  of_store-then (save j full prefix store t) not_saved
                    (λ r. done (r.0, recovered r.1)) (rw (wanted, found, entry_missing) at e)
                    λ r saves d.
                      let p = done_inj d in
                      let same : r.1 ≡ s' = cc p in
                      subst Opens same
                        (saved-Opens store r.0 t r.1 saves (unlocked-Opens z now id secret s found))
            ]
      ]

  entry_read-Opens :
      (z : ZenonRpc) (now : ℤ) (store store' : Backing) (id : Text) (info : HtlcInfo) (s s' : Swap)
      → entry_read base64 sha256 wording j full prefix z now store id info s
        ≡ done (store', recovered s')
      → Opens s'
  unfolding entry_read
  entry_read-Opens z now store store' id info s s' e =
      let want : VerifyParams × Swap = zenon_expectations base64 sha256 wording z now s in
      let verdict : Verdict = verify base64 info (record want.0 { expect_id = id }) in
      let t : Swap = record_verdict base64 sha256 wording now id info verdict want.1 in
      of_store-then (save j full prefix store t) not_saved _ e
        λ r saves d. let p = done_inj d in cc p

  answered-Opens :
      (z : ZenonRpc) (now : ℤ) (store store' : Backing) (id : Text) (s s' : Swap)
      (answer : Result NodeError HtlcInfo)
      → (elim answer [
        | err _ ↦ entry_missing base64 sha256 wording j full prefix z now store id s
        | ok i ↦ entry_read base64 sha256 wording j full prefix z now store id i s
      ])
        ≡ done (store', recovered s')
      → Opens s'
  answered-Opens z now store store' id s s' (err why) e =
      entry_missing-Opens z now store store' id s s' e
  answered-Opens z now store store' id s s' (ok i) e =
      entry_read-Opens z now store store' id i s s' e

  -- A secret that is recovered from an entry that is gone hashes to the swap's hash.
  pub verify_zenon-recovered :
      (z : ZenonRpc) (now : ℤ) (store store' : Backing) (id htlc_id : Text) (s' : Swap)
      → verify_zenon base64 sha256 wording j full prefix (some z) now store id htlc_id
        ≡ done (store', recovered s')
      → sha256 s'.secret ≡ s'.secret_hash
  unfolding verify_zenon
  verify_zenon-recovered z now store store' id htlc_id s' e =
      of_store-then (load j full prefix now store id) not_loaded _ e λ t reads e₁.
        check-then (not (is_empty (trim_space htlc_id))) no_htlc_id _ e₁ λ given e₂.
          answered-Opens z now store store' (trim_space htlc_id) t s'
            (get_htlc_by_id z (trim_space htlc_id)) e₂

  try_candidates-checks :
      (z : ZenonRpc) (now : ℤ) (store : Backing) (id : Text) (want : VerifyParams)
      (cs : List HtlcCandidate) (r : Backing × Verification)
      → try_candidates base64 sha256 wording j full prefix z now store id want cs ≡ done r
      → (c : Text) × (verify_zenon base64 sha256 wording j full prefix (some z) now store id c
          ≡ done r)
  unfolding try_candidates
  try_candidates-checks z now store id want [] r e = cc e
  try_candidates-checks z now store id want (c ∷ cs) r e =
      let rest = try_candidates-checks z now store id want cs r in
      elim (Result-cases (get_htlc_by_id z c.id)) [
        | inr (x, gone) ↦ rest (rw (gone, try_candidates) at e)
        | inl (info, read) ↦
            elim (Bool-cases
              (is_verified (verify base64 info (record want { expect_id = c.id })))) [
                | inr other ↦ rest (rw (read, other, try_candidates) at e)
                | inl fits ↦ (c.id, rw (read, fits, try_candidates) at e)
              ]
      ]

  -- A search of an entry that ends without an error ends in the check of an entry.
  pub find_zenon_htlc-checks :
      (z : ZenonRpc) (now : ℤ) (store : Backing) (id : Text) (r : Backing × Verification)
      → find_zenon_htlc base64 sha256 wording j full prefix (some z) now store id ≡ done r
      → (c : Text) × (verify_zenon base64 sha256 wording j full prefix (some z) now store id c
          ≡ done r)
  unfolding find_zenon_htlc
  find_zenon_htlc-checks z now store id r e =
      of_store-then (load j full prefix now store id) not_loaded _ e λ s _ e₁.
        check-then (not (is_empty (trim_space (creator_of base64 sha256 wording j full prefix s))))
          no_creator_address _ e₁
          λ _ e₂.
            elim (Result-cases (
              find_htlc_creates base64 (account_blocks_by_page z)
                (creator_of base64 sha256 wording j full prefix s) s.secret_hash 50 10)) [
                  | inr (x, unread) ↦ cc (rw unread at e₂)
                  | inl (cs, read) ↦
                      check-then (not (is_empty cs)) no_candidate _ (rw read at e₂) λ _ e₃.
                        try_candidates-checks z now store id
                          (zenon_expectations base64 sha256 wording z now s).0 cs r e₃
                ]
