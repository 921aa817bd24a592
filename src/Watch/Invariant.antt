-- ===== src/Watch/Invariant.antt =====
-- wasm/manager.go: what Refresh keeps of a swap, from the record it loads to the one it saves.
use ferry_web.Prelude.{
  ◌≡◌, refl, sym, ap, subst, ◌↔◌, ◌⊎◌, inl, inr, Bool, true, false, not, ◌&&◌, Option, none, some,
  [], ◌∷◌, map, arith, Bool-cases, Option-cases, is_empty,
}
use ferry_web.Prelude.Int.{ℤ}
use ferry_web.Prelude.Text.{Text}
use ferry_web.Prelude.Bytes.{Bytes}
use ferry_web.Prelude.Result.{ok, err, Result-cases}
use ferry_web.Contract.Secret.{extract_secret, extract_secret_sound}
use ferry_web.Swap.Record.{Swap, FundingOutput, Network, network_params, log, no_preimage_yet}
use ferry_web.Swap.Commit.{is_spent}
use ferry_web.Swap.Roles.{secret_arrives_on_zenon, unlock_payee}
use ferry_web.Swap.Build.{done, call-then, or_fails-then, unknown_network, not_loaded, done_inj}
use ferry_web.Ledger.Preimage.{SearchError, find_preimage}
use ferry_web.Ledger.Found.{find_preimage_sound}
use ferry_web.Store.Stale.{save-ok}
use ferry_web.Store.Saved.{IsStored, save-IsStored}
use ferry_web.Store.Records.{Backing, Json, load, save, advanced}
use ferry_web.Bitcoin.Tx.{decode_raw_tx}
use ferry_web.Watch.Backend.{Outspend, Backend, ZenonNode, Packages}
use ferry_web.Watch.Pick.{track_funding_depth}
use ferry_web.Watch.Settle.{sig_script, spends, learn, settle, absorb_spend}
use ferry_web.Watch.Keeps.{
  Keeps, Keeps-refl, Keeps-trans, Keeps-same, Keeps-log, Keeps-note_once, Keeps-depth, Keeps-warn,
  Keeps-expired,
}
use ferry_web.Watch.Poll.{
  of_store-then, of_store-done, mark_expired, warn_no_destination, scan_funding, watch_binding,
  presign_refund, read_spend, watch_output, watch_spend, keep_preimage, watch_zenon, refreshed,
  refresh,
}
use ferry_web.Watch.Refreshed.{Stays, Stays-scan, Stays-binding, Stays-presign}

some_inj : {A : Type 0} {a c : A} → some a ≡ some c → a ≡ c
some_inj h = cc h

empty_iff : (s : Bytes) → (is_empty s ≡ true) ↔ (s ≡ [])
empty_iff [] = ground arith
empty_iff (c ∷ s) = ground arith

-- What is saved is the record with its version moved on.
module _ {sha256 : Bytes → Bytes} where
  Keeps-saved :
      (j : Json) (full : Backing → Text → Text → Bool) (prefix : Text) (store : Backing) (t : Swap)
      (store' : Backing) (s' : Swap)
      → save j full prefix store t ≡ ok (store', s')
      → Keeps sha256 t s'
  unfolding advanced
  Keeps-saved j full prefix store t store' s' e =
      let saved = (save-ok j full prefix store t e).3 in
      subst (Keeps sha256 t) (sym saved) (Keeps-same sha256 t _ refl refl refl)

module _ (p : Packages) (b : Backend) where
  Stays-settle-none :
      (now : ℤ) (txid : Text) (s : Swap)
      → is_spent s.state ≡ false
      → Stays p b s (settle now txid none s)
  unfolding settle log
  Stays-settle-none now txid s live = record {
    same_terms = refl;
    same_end = inl live;
    same_secret = inl refl;
  }

  Stays-settle-some :
      (now : ℤ) (txid : Text) (secret : Bytes) (s : Swap)
      → is_spent s.state ≡ false
      → p.sha256 secret ≡ s.secret_hash
      → Stays p b s (settle now txid (some secret) s)
  unfolding settle log learn
  Stays-settle-some now txid secret s live hashes = record {
    same_terms = ground arith;
    same_end = inl live;
    same_secret = ground (arith, empty_iff s.secret);
  }

  Stays-absorb :
      (now : ℤ) (f : FundingOutput) (txid : Text) (s s' : Swap)
      → is_spent s.state ≡ false
      → absorb_spend p b now f txid s ≡ some s'
      → Stays p b s s'
  unfolding absorb_spend
  Stays-absorb now f txid s s' live e = elim (Option-cases (b.raw_tx txid)) [
    | inl missing ↦ cc (rw (missing, absorb_spend) at e)
    | inr (raw, served) ↦ elim (Option-cases (decode_raw_tx p.btcd raw)) [
      | inl bad ↦ cc (rw (served, bad, absorb_spend) at e)
      | inr (tx, read) ↦ elim (Bool-cases (spends p.btcd f tx.tx_in)) [
        | inr other ↦ cc (rw (served, read, other, absorb_spend) at e)
        | inl ours ↦
            let scripts = map sig_script tx.tx_in in
            elim (Option-cases (extract_secret p.sha256 p.pushed_data scripts s.secret_hash)) [
              | inl hidden ↦
                  subst (Stays p b s)
                    (some_inj (rw (served, read, ours, hidden, absorb_spend) at e))
                    (Stays-settle-none now txid s live)
              | inr (secret, found) ↦
                  subst (Stays p b s) (some_inj (rw (served, read, ours, found, absorb_spend) at e))
                    (Stays-settle-some now txid secret s live
                      (extract_secret_sound p.sha256 p.pushed_data scripts s.secret_hash found).0)
            ]
      ]
    ]
  ]

  Stays-read_spend :
      (now : ℤ) (f : FundingOutput) (o : Outspend) (s : Swap)
      → is_spent s.state ≡ false
      → Stays p b s (read_spend p b now f o s)
  unfolding read_spend
  Stays-read_spend now f o s live = elim (Bool-cases (o.spent && not (is_empty o.tx_id))) [
    | inr unspent ↦ rw (unspent, read_spend) (Keeps-refl p.sha256 s)
    | inl spent ↦ elim (Option-cases (absorb_spend p b now f o.tx_id s)) [
      | inl unread ↦ rw (spent, unread, read_spend) (Keeps-log p.sha256 now _ s)
      | inr (s', absorbed) ↦
          rw (spent, absorbed, read_spend) (Stays-absorb now f o.tx_id s s' live absorbed)
    ]
  ]

  Stays-watch_output :
      (now : ℤ) (o : Option FundingOutput) (s : Swap) → Stays p b s (watch_output p b now o s)
  unfolding watch_output
  Stays-watch_output now none s = Keeps-refl p.sha256 s
  Stays-watch_output now (some f) s = elim (Bool-cases (is_spent s.state)) [
    | inl over ↦ rw (over, watch_output) (Keeps-refl p.sha256 s)
    | inr live ↦ elim (Option-cases (b.outspend_of f.tx_id f.vout)) [
      | inl silent ↦ rw (live, silent, watch_output) (Keeps-refl p.sha256 s)
      | inr (o, said) ↦ rw (live, said, watch_output) (Stays-read_spend now f o s live)
    ]
  ]

  Stays-keep_preimage :
      (now : ℤ) (secret : Bytes) (s : Swap)
      → s.secret ≡ []
      → p.sha256 secret ≡ s.secret_hash
      → Stays p b s (keep_preimage p b now (ok secret) s)
  unfolding keep_preimage log
  Stays-keep_preimage now secret s unknown hashes = record {
    same_terms = refl;
    same_end = inr refl;
    same_secret = inr (unknown, hashes);
  }

  Stays-no_preimage :
      (now : ℤ) (e : SearchError) (s : Swap) → Stays p b s (keep_preimage p b now (err e) s)
  unfolding keep_preimage
  Stays-no_preimage now e s = Keeps-note_once p.sha256 now no_preimage_yet s

  Stays-zenon : (z : Option ZenonNode) (now : ℤ) (s : Swap) → Stays p b s (watch_zenon p b z now s)
  unfolding watch_zenon
  Stays-zenon none now s = Keeps-refl p.sha256 s
  Stays-zenon (some z) now s = elim (Bool-cases (secret_arrives_on_zenon s && is_empty s.secret)) [
    | inr quiet ↦ rw (quiet, watch_zenon) (Keeps-refl p.sha256 s)
    | inl due ↦
        elim (Result-cases (
          find_preimage p.sha256 p.base64 z.page_of z.block_of (unlock_payee s) s.secret_hash 50
            10)) [
              | inr (x, missed) ↦ rw (due, missed, watch_zenon) (Stays-no_preimage now x s)
              | inl (secret, found) ↦
                  rw (due, found, watch_zenon)
                    (Stays-keep_preimage now secret s ((empty_iff s.secret).0 (ground arith))
                      (find_preimage_sound p.sha256 p.base64 z.page_of z.block_of (unlock_payee s)
                        s.secret_hash 50 10 secret found).0)
            ]
  ]

  pub refreshed-Stays :
      (z : Option ZenonNode) (now : ℤ) (params : Network) (s s' : Swap)
      → refreshed p b z now params s ≡ done s'
      → Stays p b s s'
  unfolding refreshed
  refreshed-Stays z now params s s' e =
      call-then (scan_funding p b now params s) _ e λ scanned seen e.
        let deep = track_funding_depth b scanned in
        let bound = watch_binding p b now params deep in
        let warned = warn_no_destination now bound in
        call-then (presign_refund p b now params warned) _ e λ signed made e.
          let watched = watch_spend p b now signed in
          let known = watch_zenon p b z now watched in
          let up_to_bound =
            Keeps-trans p.sha256 s scanned bound (Stays-scan p b now params s scanned seen) (
              Keeps-trans p.sha256 scanned deep bound (Keeps-depth p.sha256 b scanned)
                (Stays-binding p b now params deep)) in
          let up_to_signed =
            Keeps-trans p.sha256 bound warned signed (Keeps-warn p.sha256 now bound)
              (Stays-presign p b now params warned signed made) in
          let up_to_end =
            Keeps-trans p.sha256 watched known (mark_expired now known) (Stays-zenon z now watched)
              (Keeps-expired p.sha256 now known) in
          subst (Stays p b s) (done_inj e) (
            Keeps-trans p.sha256 s bound _ up_to_bound (
              Keeps-trans p.sha256 bound signed _ up_to_signed (
                Keeps-trans p.sha256 signed watched _ (Stays-watch_output now signed.funding signed)
                  up_to_end)))

  -- A refresh that returns a record has loaded it, and has changed nothing that was agreed: the terms, the
  -- contract, the key, the redeem and the Zenon leg, but for its mark that an unlock was seen, are the
  -- loaded ones. A swap that was redeemed or refunded is still that. Its secret is the loaded one,
  -- unless there was none and the new one hashes to the swap's hash, whatever the nodes answered. The
  -- store holds the record that is returned, or, where the swap has no contract yet, neither has changed.
  pub refresh-Keeps :
      (j : Json) (full : Backing → Text → Text → Bool) (prefix : Text) (z : Option ZenonNode)
      (now : ℤ) (store store' : Backing) (id : Text) (s' : Swap)
      → refresh p b j full prefix z now store id ≡ done (store', s')
      → (s : Swap) × (load j full prefix now store id ≡ ok s)
        × Keeps p.sha256 s s'
        × (((s.contract ≡ []) × (s' ≡ s) × (store' ≡ store)) ⊎ IsStored j prefix store' s')
  unfolding refresh
  refresh-Keeps j full prefix z now store store' id s' e =
      of_store-then (load j full prefix now store id) not_loaded _ e λ s loaded e.
        elim (Bool-cases (is_empty s.contract)) [
          | inl early ↦ (
            s,
            loaded,
            subst (Stays p b s) (ap (λ (r : Backing × Swap). r.1) (done_inj (rw early at e)))
                (Keeps-refl p.sha256 s),
            inl (
              (empty_iff s.contract).0 early,
              sym (ap (λ (r : Backing × Swap). r.1) (done_inj (rw early at e))),
              sym (ap (λ (r : Backing × Swap). r.0) (done_inj (rw early at e))),
            ),
          )
          | inr built ↦
              or_fails-then (network_params s.network) unknown_network _ (rw built at e)
                λ params known e. call-then (refreshed p b z now params s) _ e λ t went e. (
                  s,
                  loaded,
                  Keeps-trans p.sha256 s t s' (refreshed-Stays z now params s t went)
                      (Keeps-saved j full prefix store t store' s' (of_store-done _ _ e)),
                  inr (save-IsStored j full prefix store t store' s' (of_store-done _ _ e)),
                )
        ]
