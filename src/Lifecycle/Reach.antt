-- ===== src/Lifecycle/Reach.antt =====
-- wasm/manager.go: Create, and then Refresh, SetSecret, VerifyZenon, FindZenonHtlc, Archive and RecordFundingBroadcast in
-- any order, each with its own store, nodes and time.
use ferry_web.Prelude.{◌≡◌, Bool, Option, some}
use ferry_web.Prelude.Int.{ℤ}
use ferry_web.Prelude.Text.{Text}
use ferry_web.Prelude.Result.{ok}
use ferry_web.Swap.Record.{Swap}
use ferry_web.Swap.Offer.{CreateParams}
use ferry_web.Swap.Build.{done}
use ferry_web.Store.Records.{Backing, Json, load}
use ferry_web.Zenon.Verify.{Verdict}
use ferry_web.Zenon.Rpc.{ZenonRpc}
use ferry_web.Watch.Backend.{Backend, ZenonNode, Packages}
use ferry_web.Watch.Poll.{refresh}
use ferry_web.Outcome.Fields.{set_secret, archive, record_funding_broadcast}
use ferry_web.Manager.Entries.{Verification, checked, recovered, verify_zenon, find_zenon_htlc}
use ferry_web.Manager.Create.{Drawn, Libraries, create}

-- The record that a check of an entry returns, with a verdict or with a secret.
abbrev pub record_of : Verification → Swap
record_of (checked s info v) = s
record_of (recovered s) = s

module _ (p : Packages) (j : Json) (full : Backing → Text → Text → Bool) (prefix : Text) where
  pub data Reached : Swap → Type 0 where
    created :
        (l : Libraries) (now : ℤ) (net : Text) (drawn : Drawn) (store : Backing)
        (params : CreateParams) (r : Backing × Swap)
        → l.sha256 ≡ p.sha256
        → create l j full prefix now net drawn store params ≡ done r
        → Reached r.1
    refreshed :
        (b : Backend) (z : Option ZenonNode) (now : ℤ) (store store' : Backing) (id : Text)
        (s s' : Swap)
        → Reached s
        → load j full prefix now store id ≡ ok s
        → refresh p b j full prefix z now store id ≡ done (store', s')
        → Reached s'
    told :
        (now : ℤ) (store store' : Backing) (id secret_hex : Text) (s s' : Swap)
        → Reached s
        → load j full prefix now store id ≡ ok s
        → set_secret j full prefix p.sha256 now store id secret_hex ≡ done (store', s')
        → Reached s'
    looked_at :
        (z : ZenonRpc) (wording : Verdict → Text) (now : ℤ) (store store' : Backing)
        (id htlc_id : Text) (v : Verification) (s : Swap)
        → Reached s
        → load j full prefix now store id ≡ ok s
        → verify_zenon p.base64 p.sha256 wording j full prefix (some z) now store id htlc_id
          ≡ done (store', v)
        → Reached (record_of v)
    searched :
        (z : ZenonRpc) (wording : Verdict → Text) (now : ℤ) (store store' : Backing) (id : Text)
        (v : Verification) (s : Swap)
        → Reached s
        → load j full prefix now store id ≡ ok s
        → find_zenon_htlc p.base64 p.sha256 wording j full prefix (some z) now store id
          ≡ done (store', v)
        → Reached (record_of v)
    filed :
        (now : ℤ) (store store' : Backing) (id : Text) (archived : Bool) (s s' : Swap)
        → Reached s
        → load j full prefix now store id ≡ ok s
        → archive j full prefix now store id archived ≡ done (store', s')
        → Reached s'
    paid :
        (now : ℤ) (store store' : Backing) (id tx_id : Text) (s s' : Swap)
        → Reached s
        → load j full prefix now store id ≡ ok s
        → record_funding_broadcast j full prefix now store id tx_id ≡ done (store', s')
        → Reached s'
