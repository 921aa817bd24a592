-- ===== src/Watch/Pick.antt =====
-- wasm/manager.go: fundingIsOpen, pickFunding and trackFundingDepth.
use ferry_web.Prelude.{
  Bool, true, false, not, ◌&&◌, ◌||◌, Option, none, some, List, [], ◌∷◌, if◌then◌else◌, is_some,
}
use ferry_web.Prelude.Int.{ℤ, pos, ltb_ℤ, leb_ℤ}
use ferry_web.Prelude.Int64.{add64, sub64}
use ferry_web.Prelude.Int64.{add64, sub64}
use ferry_web.Swap.Record.{Swap, FundingOutput}
use ferry_web.Swap.Commit.{is_spent}
use ferry_web.Watch.Backend.{Status, Utxo, Backend}

unfoldable pub funding_is_open : Swap → Bool
funding_is_open s =
    if is_spent s.state
    then false
    else if is_some s.redeem_tx
    then false
    else elim s.funding [ none ↦ true | some f ↦ ltb_ℤ f.value s.amount_sats ]

-- The better of the best output so far and the next one.
unfoldable pub better : ℤ → Option Utxo → Utxo → Option Utxo
better want best u = if leb_ℤ u.value (pos 0) then best else elim best [
  | none ↦ some u
  | some b ↦
      if leb_ℤ want u.value && not (leb_ℤ want b.value)
      then some u
      else if leb_ℤ want b.value && not (leb_ℤ want u.value)
      then some b
      else if ltb_ℤ b.value u.value
      then some u
      else some b
]

unfoldable pub pick_from : ℤ → Option Utxo → List Utxo → Option Utxo
unfolding better
pick_from want best [] = best
pick_from want best (u ∷ us) = pick_from want (better want best u) us

unfoldable pub pick_funding : List Utxo → ℤ → Option Utxo
unfolding pick_from
pick_funding utxos want = pick_from want none utxos

abbrev pub confirmations_tracked : ℤ
confirmations_tracked = pos 6

abbrev pub min_ℤ : ℤ → ℤ → ℤ
min_ℤ a b = if ltb_ℤ a b then a else b

-- The depth of a transaction in a block, where the tip is known.
unfoldable pub depth_under : Option ℤ → Status → FundingOutput → FundingOutput
unfolding add64 sub64
depth_under none st f = f
depth_under (some tip) st f = if ltb_ℤ tip st.block_height then f else record f {
  confirmations = min_ℤ (add64 (sub64 tip st.block_height) (pos 1)) confirmations_tracked;
}

unfoldable pub track_funding_depth : Backend → Swap → Swap
unfolding depth_under
track_funding_depth b s = elim s.funding [
  | none ↦ s
  | some f ↦ if leb_ℤ confirmations_tracked f.confirmations then s else elim (b.tx_status f.tx_id) [
    | none ↦ s
    | some st ↦
        let f' = record f { confirmed = st.confirmed; block_height = st.block_height } in
        record s {
          funding = some (
              if not st.confirmed || leb_ℤ st.block_height (pos 0)
              then record f' { confirmations = pos 0 }
              else depth_under b.tip_height st f');
        }
  ]
]
