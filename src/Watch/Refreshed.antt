-- ===== src/Watch/Refreshed.antt =====
-- wasm/manager.go: what Refresh keeps of a swap.
use ferry_web.Prelude.{
  ℕ, ◌≡◌, subst, inl, inr, true, false, ◌&&◌, Option, none, some, arith, Bool-cases, Option-cases,
  length, is_some,
}
use ferry_web.Prelude.Int.{ℤ}
use ferry_web.Swap.Record.{Swap, FundingOutput, Network, no_binding}
use ferry_web.Swap.Commit.{is_spent}
use ferry_web.Swap.Build.{done, done_inj}
use ferry_web.Watch.Backend.{Utxo, Backend, Packages}
use ferry_web.Watch.Pick.{funding_is_open, pick_funding}
use ferry_web.Watch.Bind.{BindError, bind_funding}
use ferry_web.Watch.Keeps.{
  Keeps, Keeps-refl, Keeps-trans, Keeps-note_once, Keeps-bind, Keeps-note_unread, Keeps-note_shape,
  Keeps-announce, Keeps-keep_refund,
}
use ferry_web.Watch.Poll.{
  improves, funding_of, announce, note_unread, note_unbound, needs_binding, wants_refund,
  adopt_funding, scan_funding, watch_binding, sign_bound, sign_refund, presign_refund,
}

module _ (p : Packages) (b : Backend) where
  abbrev pub Stays : Swap → Swap → Type 0
  Stays = Keeps p.sha256

  Stays-adopt :
      (now : ℤ) (params : Network) (n : ℕ) (u : Utxo) (s : Swap)
      → is_spent s.state ≡ false
      → Stays s (adopt_funding p b now params n u s)
  unfolding adopt_funding
  Stays-adopt now params n u s live =
      let s1 : Swap = record (announce now u s) { funding = some (funding_of u) } in
      let r = bind_funding p.btcd b now params s1 in
      Keeps-trans p.sha256 s s1 _ (Keeps-announce p.sha256 now u s (some (funding_of u)) live) (
        Keeps-trans p.sha256 s1 r.1 _ (Keeps-bind p.sha256 p.btcd b now params s1) (
          Keeps-trans p.sha256 r.1 (note_unread now r.0 r.1) _
            (Keeps-note_unread p.sha256 now r.0 r.1) (Keeps-note_shape p.sha256 now n _)))

  open_live : (s : Swap) → funding_is_open s ≡ true → is_spent s.state ≡ false
  unfolding funding_is_open
  open_live s h = ground arith

  pub Stays-scan :
      (now : ℤ) (params : Network) (s s' : Swap)
      → scan_funding p b now params s ≡ done s'
      → Stays s s'
  unfolding scan_funding
  Stays-scan now params s s' e = elim (Bool-cases (funding_is_open s)) [
    | inr shut ↦ subst (Stays s) (done_inj (rw (shut, scan_funding) at e)) (Keeps-refl p.sha256 s)
    | inl is_open ↦ elim (Option-cases (b.address_utxos s.contract_addr)) [
      | inl silent ↦ cc (rw (is_open, silent, scan_funding) at e)
      | inr (utxos, listed) ↦ elim (Option-cases (pick_funding utxos s.amount_sats)) [
        | inl nothing ↦
            subst (Stays s) (done_inj (rw (is_open, listed, nothing, scan_funding) at e))
              (Keeps-refl p.sha256 s)
        | inr (u, picked) ↦ elim (Bool-cases (improves s.funding u)) [
          | inr worse ↦
              subst (Stays s) (done_inj (rw (is_open, listed, picked, worse, scan_funding) at e))
                (Keeps-refl p.sha256 s)
          | inl good ↦
              subst (Stays s) (done_inj (rw (is_open, listed, picked, good, scan_funding) at e))
                (Stays-adopt now params (length utxos) u s (open_live s is_open))
        ]
      ]
    ]
  ]

  Stays-note_unbound :
      (now : ℤ) (e : Option BindError) (s : Swap) → Stays s (note_unbound now (e, s))
  unfolding note_unbound
  Stays-note_unbound now none s = Keeps-refl p.sha256 s
  Stays-note_unbound now (some e) s = Keeps-note_once p.sha256 now no_binding s

  pub Stays-binding :
      (now : ℤ) (params : Network) (s : Swap) → Stays s (watch_binding p b now params s)
  unfolding watch_binding
  Stays-binding now params s = elim (Bool-cases (needs_binding s.funding)) [
    | inr bound ↦ rw (bound, watch_binding) (Keeps-refl p.sha256 s)
    | inl free ↦
        let r = bind_funding p.btcd b now params s in
        rw (free, watch_binding)
          (Keeps-trans p.sha256 s r.1 _ (Keeps-bind p.sha256 p.btcd b now params s)
            (Stays-note_unbound now r.0 r.1))
  ]

  Stays-sign_bound :
      (now : ℤ) (params : Network) (o : Option FundingOutput) (x : Option BindError) (s s' : Swap)
      → sign_bound p b now params o x s ≡ done s'
      → Stays s s'
  unfolding sign_bound
  Stays-sign_bound now params none x s s' e = subst (Stays s) (done_inj e) (Keeps-refl p.sha256 s)
  Stays-sign_bound now params (some f) (some x) s s' e =
      subst (Stays s) (done_inj e) (Keeps-refl p.sha256 s)
  Stays-sign_bound now params (some f) none s s' e = Keeps-keep_refund p.sha256 now s s' _ e

  pub Stays-presign :
      (now : ℤ) (params : Network) (s s' : Swap)
      → presign_refund p b now params s ≡ done s'
      → Stays s s'
  unfolding presign_refund sign_refund
  Stays-presign now params s s' e = elim (Bool-cases (is_some s.funding && wants_refund s)) [
    | inr no_refund ↦
        subst (Stays s) (done_inj (rw (no_refund, presign_refund) at e)) (Keeps-refl p.sha256 s)
    | inl wanted ↦
        let r = bind_funding p.btcd b now params s in
        Keeps-trans p.sha256 s r.1 s' (Keeps-bind p.sha256 p.btcd b now params s)
          (Stays-sign_bound now params r.1.funding r.0 r.1 s' (rw (wanted, presign_refund) at e))
  ]
