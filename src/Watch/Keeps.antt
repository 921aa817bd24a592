-- ===== src/Watch/Keeps.antt =====
-- wasm/manager.go: what no part of Refresh changes.
use ferry_web.Prelude.{
  ℕ, ◌≡◌, refl, ap, ◌∙◌, ◌⊎◌, inl, inr, Bool, false, Option, none, some, [], arith, Bool-cases,
  is_empty,
}
use ferry_web.Prelude.Int.{ℤ}
use ferry_web.Prelude.Text.{Text}
use ferry_web.Prelude.Bytes.{Bytes}
use ferry_web.Prelude.Hex.{hex_encode}
use ferry_web.Prelude.Result.{Result, ok, err}
use ferry_web.Swap.Record.{
  Swap, SwapKey, FundingOutput, FundingBroadcast, SpendResult, ZenonLeg, Network, Role, Leg,
  Message, Note, log,
}
use ferry_web.Swap.Commit.{is_spent}
use ferry_web.Swap.Build.{Call, done, fails, panics}
use ferry_web.Bitcoin.Tx.{Btcd}
use ferry_web.Watch.Backend.{Utxo, Backend}
use ferry_web.Watch.Pick.{track_funding_depth}
use ferry_web.Watch.Bind.{
  BindError, note_once, funding_script, record_script, bind_read, bind_output, bind_funding,
}
use ferry_web.Watch.Poll.{
  announce, note_unread, note_shape, mark_expired, warn_no_destination, keep_refund,
}

-- The part of a record that was agreed on, or that holds its keys and its redeem, with the whole of its
-- Zenon leg but for the mark that an unlock was seen.
pub record Terms : Type 0 where
  pub id : Text
  pub network : Text
  pub role : Role
  pub leg : Leg
  pub secret_hash : Bytes
  pub key : Option SwapKey
  pub counterparty_pkh : Bytes
  pub lock_time : ℤ
  pub contract : Bytes
  pub contract_addr : Text
  pub amount_sats : ℤ
  pub dest_addr : Text
  pub redeem_tx : Option SpendResult
  pub archived : Bool
  pub created_at : ℤ
  pub zenon : ZenonLeg
  pub funding_broadcast : Option FundingBroadcast

abbrev pub terms : Swap → Terms
terms s = record {
  id = s.id;
  network = s.network;
  role = s.role;
  leg = s.leg;
  secret_hash = s.secret_hash;
  key = s.key;
  counterparty_pkh = s.counterparty_pkh;
  lock_time = s.lock_time;
  contract = s.contract;
  contract_addr = s.contract_addr;
  amount_sats = s.amount_sats;
  dest_addr = s.dest_addr;
  redeem_tx = s.redeem_tx;
  archived = s.archived;
  created_at = s.created_at;
  zenon = record s.zenon { unlock_seen = false };
  funding_broadcast = s.funding_broadcast;
}

module _ (sha256 : Bytes → Bytes) where
  -- What was agreed stays, a settled swap stays as it was settled, and a secret stays, unless there was
  -- none and the new one is the swap's.
  pub record Keeps (s s' : Swap) : Type 0 where
    pub same_terms : terms s' ≡ terms s
    pub same_end : (is_spent s.state ≡ false) ⊎ (s'.state ≡ s.state)
    pub same_secret :
        (s'.secret ≡ s.secret) ⊎ ((s.secret ≡ []) × (sha256 s'.secret ≡ s.secret_hash))

  pub Keeps-refl : (s : Swap) → Keeps s s
  Keeps-refl s = record { same_terms = refl; same_end = inr refl; same_secret = inl refl }

  pub Keeps-trans : (s t u : Swap) → Keeps s t → Keeps t u → Keeps s u
  Keeps-trans s t u h k = record {
    same_terms = k.same_terms ∙ h.same_terms;
    same_end = ground (arith, h.same_end, k.same_end);
    same_secret =
        ground
          (arith, h.same_secret, k.same_secret, ap (λ (x : Terms). x.secret_hash) h.same_terms);
  }

  -- A change of other fields.
  pub Keeps-same :
      (s s' : Swap) → terms s' ≡ terms s → s'.state ≡ s.state → s'.secret ≡ s.secret → Keeps s s'
  Keeps-same s s' t st se = record { same_terms = t; same_end = inr st; same_secret = inl se }

  pub Keeps-log : (now : ℤ) (m : Message) (s : Swap) → Keeps s (log now m s)
  unfolding log
  Keeps-log now m s = Keeps-same s _ refl refl refl

  pub Keeps-note_once : (now : ℤ) (n : Note) (s : Swap) → Keeps s (note_once now n s)
  unfolding note_once log
  Keeps-note_once now n s = Keeps-same s _ (ground arith) (ground arith) (ground arith)

  pub Keeps-depth : (b : Backend) (s : Swap) → Keeps s (track_funding_depth b s)
  unfolding track_funding_depth
  Keeps-depth b s = Keeps-same s _ (ground arith) (ground arith) (ground arith)

  Keeps-record_script :
      (d : Btcd) (b : Backend) (now : ℤ) (params : Network) (f : FundingOutput) (got : Text)
      (s : Swap)
      → Keeps s (record_script d b now params f got s).1
  unfolding record_script note_once log
  Keeps-record_script d b now params f got s =
      Keeps-same s _ (ground arith) (ground arith) (ground arith)

  Keeps-bind_read :
      (d : Btcd) (b : Backend) (now : ℤ) (params : Network) (f : FundingOutput)
      (r : Result BindError Bytes) (s : Swap)
      → Keeps s (bind_read d b now params f r s).1
  unfolding bind_read
  Keeps-bind_read d b now params f (err e) s = Keeps-refl s
  Keeps-bind_read d b now params f (ok script) s =
      Keeps-record_script d b now params f (hex_encode script) s

  Keeps-bind_output :
      (d : Btcd) (b : Backend) (now : ℤ) (params : Network) (o : Option FundingOutput) (s : Swap)
      → Keeps s (bind_output d b now params o s).1
  unfolding bind_output
  Keeps-bind_output d b now params none s = Keeps-refl s
  Keeps-bind_output d b now params (some f) s = elim (Bool-cases (is_empty f.pk_script_hex)) [
    | inr known ↦ rw (known, bind_output) (Keeps-refl s)
    | inl unknown ↦
        rw (unknown, bind_output) (Keeps-bind_read d b now params f (funding_script d b f) s)
  ]

  pub Keeps-bind :
      (d : Btcd) (b : Backend) (now : ℤ) (params : Network) (s : Swap)
      → Keeps s (bind_funding d b now params s).1
  unfolding bind_funding
  Keeps-bind d b now params s = Keeps-bind_output d b now params s.funding s

  pub Keeps-note_unread :
      (now : ℤ) (e : Option BindError) (s : Swap) → Keeps s (note_unread now e s)
  unfolding note_unread log
  Keeps-note_unread now none s = Keeps-refl s
  Keeps-note_unread now (some e) s = Keeps-same s _ (ground arith) (ground arith) (ground arith)

  pub Keeps-note_shape : (now : ℤ) (n : ℕ) (s : Swap) → Keeps s (note_shape now n s)
  unfolding note_shape log
  Keeps-note_shape now n s = Keeps-same s _ (ground arith) (ground arith) (ground arith)

  pub Keeps-warn : (now : ℤ) (s : Swap) → Keeps s (warn_no_destination now s)
  unfolding warn_no_destination note_once log
  Keeps-warn now s = Keeps-same s _ (ground arith) (ground arith) (ground arith)

  pub Keeps-expired : (now : ℤ) (s : Swap) → Keeps s (mark_expired now s)
  unfolding mark_expired log
  Keeps-expired now s = record {
    same_terms = ground arith;
    same_end = ground arith;
    same_secret = ground arith;
  }

  -- The output that is adopted is announced on a swap that is not settled.
  pub Keeps-announce :
      (now : ℤ) (u : Utxo) (s : Swap) (f : Option FundingOutput)
      → is_spent s.state ≡ false
      → Keeps s (record (announce now u s) { funding = f })
  unfolding announce log
  Keeps-announce now u s f live = record {
    same_terms = ground arith;
    same_end = inl live;
    same_secret = ground arith;
  }

  pub Keeps-keep_refund :
      (now : ℤ) (s s' : Swap) (r : Call SpendResult) → keep_refund now s r ≡ done s' → Keeps s s'
  unfolding keep_refund log
  Keeps-keep_refund now s s' (done r) e =
      Keeps-same s s' (ground arith) (ground arith) (ground arith)
  Keeps-keep_refund now s s' (fails w) e =
      Keeps-same s s' (ground arith) (ground arith) (ground arith)
  Keeps-keep_refund now s s' panics e = cc
