-- ===== src/Outcome/Retry.antt =====
-- wasm/manager.go: payoutAddress and saveOutcome. What other calls write to the store meanwhile is the
-- parameter `Others`.
use ferry_web.Prelude.{
  ℕ, zero, suc, Bool, true, false, not, ◌&&◌, none, some, ◌==◌, if◌then◌else◌, is_empty,
}
use ferry_web.Prelude.Int.{ℤ}
use ferry_web.Prelude.Text.{Text, text_eq, trim_space}
use ferry_web.Prelude.Bytes.{Bytes}
use ferry_web.Prelude.Result.{ok, err}
use ferry_web.Swap.Record.{Swap, FundingOutput}
use ferry_web.Swap.Build.{Call, done, fails, no_destination_given, redirected, unrecorded}
use ferry_web.Store.Records.{StoreError, stale_write, Backing, Json, load, save}

unfoldable pub payout_address : Swap → Text → Call Text
unfolding trim_space text_eq
payout_address s asked =
    let asked' = trim_space asked in
    if is_empty s.dest_addr
    then (if is_empty asked' then fails no_destination_given else done asked')
    else if not (is_empty asked') && not (text_eq asked' s.dest_addr)
    then fails redirected
    else done s.dest_addr

-- The store as it stands before the save of an attempt, and before the load that follows it.
pub record Others : Type 0 where
  pub before_save : ℕ → Backing → Backing
  pub before_load : ℕ → Backing → Backing

abbrev pub is_stale : StoreError → Bool
is_stale stale_write = true
is_stale _ = false

-- The record names this output and this contract.
unfoldable pub names : Bytes → FundingOutput → Swap → Bool
unfolding text_eq
names contract funding s = elim s.funding [
  | none ↦ false
  | some f ↦ text_eq f.tx_id funding.tx_id && f.vout == funding.vout && text_eq s.contract contract
]

abbrev pub retries : ℕ
retries = 3

module _ (j : Json) (full : Backing → Text → Text → Bool) (prefix : Text) (o : Others) (now : ℤ)
    (txid : Text) (apply : Swap → Swap) (contract : Bytes) (funding : FundingOutput) where
  -- `attempt` is the number of the attempt, and `left` attempts may follow it.
  unfoldable pub save_attempt : (left attempt : ℕ) → Backing → Swap → Call (Backing × Swap)
  save_attempt zero attempt store s = elim (save j full prefix (o.before_save attempt store) s) [
    | ok saved ↦ done saved
    | err _ ↦ fails (unrecorded txid)
  ]
  save_attempt (suc left) attempt store s =
      let store1 = o.before_save attempt store in
      elim (save j full prefix store1 s) [
        | ok saved ↦ done saved
        | err why ↦
            if not (is_stale why)
            then fails (unrecorded txid)
            else elim (load j full prefix now (o.before_load attempt store1) s.id) [
              | err _ ↦ fails (unrecorded txid)
              | ok fresh ↦ elim (names contract funding fresh) [
                | false ↦ fails (unrecorded txid)
                | true ↦
                    save_attempt left (suc attempt) (o.before_load attempt store1) (apply fresh)
              ]
            ]
      ]

  unfoldable pub save_outcome : Backing → Swap → Call (Backing × Swap)
  unfolding save_attempt
  save_outcome store s = save_attempt retries 0 store (apply s)
