-- ===== src/Tests/Spends.antt =====
-- The theorems on the funding, Redeem and Refund at one swap.
use ferry_web.Prelude.{◌≡◌, refl, ◌⊎◌, none, some, [], ◌∷◌, All, Within}
use ferry_web.Prelude.Int.{pos, ◌-ℤ◌, ◌<ℤ◌}
use ferry_web.Prelude.Text.{runes}
use ferry_web.Prelude.Hex.{hex_encode, hex_decode}
use ferry_web.Contract.Num.{script_num, valid_lock_time}
use ferry_web.Contract.Build.{build_contract}
use ferry_web.Contract.Parse.{read_tokens, fits_template, read_terms}
use ferry_web.Swap.Record.{Swap, FundingOutput, SpendResult, mainnet, network_params}
use ferry_web.Swap.Roles.{redeem_held_for_short_funding, funding_short, redeem_reveals_secret}
use ferry_web.Swap.Build.{done}
use ferry_web.Bitcoin.Spend.{build_redeem, build_refund}
use ferry_web.Watch.Backend.{Utxo}
use ferry_web.Watch.Pick.{pick_funding}
use ferry_web.Watch.Best.{AtMost, taken, pick_funding-best}
use ferry_web.Watch.Bind.{
  bind_funding, bind_output, bind_read, record_script, funding_script, compare_binding,
}
use ferry_web.Watch.Bound.{IsBound, bind_funding-IsBound}
use ferry_web.Outcome.Retry.{payout_address}
use ferry_web.Outcome.Spend.{
  Ready, warn_late, bound_funding, redeem_ready, refund_ready, refund_for,
}
use ferry_web.Outcome.Redeemed.{IsRedeem, redeem_ready-IsRedeem}
use ferry_web.Outcome.Refunded.{IsRefund, refund_ready-IsRefund}
use ferry_web.Tests.Bitcoin.{btcd}
use ferry_web.Tests.Contracts.{contract}
use ferry_web.Prelude.Text.{fold}
use ferry_web.Tests.World.{packages, world, utxo, node, deposit, taker, giver}

pick_funding-best_example :
    All
      (AtMost (taken (pick_funding (utxo (pos 5) ∷ utxo (pos 9) ∷ []) (pos 7))))
      (utxo (pos 5) ∷ utxo (pos 9) ∷ [])
    × ((pick_funding (utxo (pos 5) ∷ utxo (pos 9) ∷ []) (pos 7) ≡ none)
        ⊎ ((u : Utxo) × (pick_funding (utxo (pos 5) ∷ utxo (pos 9) ∷ []) (pos 7) ≡ some u)
            × Within u (utxo (pos 5) ∷ utxo (pos 9) ∷ [])
            × (pos 0 <ℤ u.value)))
pick_funding-best_example = pick_funding-best (utxo (pos 5) ∷ utxo (pos 9) ∷ []) (pos 7)

abbrev bound_taker : Swap
bound_taker = record taker {
  funding = some (record deposit { pk_script_hex = hex_encode (0xa9 ∷ contract) });
}

taker_binds : bind_funding packages node (pos 5) mainnet taker ≡ (none, bound_taker)
unfolding bind_funding bind_output bind_read record_script funding_script compare_binding hex_encode
    hex_decode fold
taker_binds = refl

bind_funding-IsBound_example : IsBound packages node mainnet taker bound_taker deposit
bind_funding-IsBound_example =
    bind_funding-IsBound packages node (pos 5) mainnet deposit taker bound_taker refl taker_binds

-- 660 sat of fee: twice the size, in the stand-in's arithmetic.
abbrev pub spend : SpendResult
spend = record {
  raw_hex = runes "0102";
  tx_id = runes "ab";
  fee = pos 660;
  vsize = pos 330;
  value = pos 99340;
}

abbrev taken_funding : FundingOutput
taken_funding = record deposit { pk_script_hex = hex_encode (0xa9 ∷ contract) }

abbrev redeem_at : Ready
redeem_at = record { swap = bound_taker; funding = taken_funding; dest = runes "d"; spend = spend }

redeem_is_ready : redeem_ready world node (pos 5) [] taker ≡ done redeem_at
unfolding redeem_ready redeem_held_for_short_funding funding_short redeem_reveals_secret
    payout_address warn_late network_params bound_funding bind_funding bind_output bind_read
    record_script funding_script compare_binding hex_encode hex_decode fold build_redeem read_tokens
    btcd fits_template read_terms script_num valid_lock_time build_contract ◌-ℤ◌
redeem_is_ready = refl

redeem_ready-IsRedeem_example : IsRedeem world node [] taker redeem_at
redeem_ready-IsRedeem_example =
    redeem_ready-IsRedeem world node (pos 5) [] taker redeem_at redeem_is_ready

abbrev refund_at : Ready
refund_at = record {
  swap = record giver { funding = some taken_funding };
  funding = taken_funding;
  dest = runes "d";
  spend = spend;
}

refund_is_ready : refund_ready world node (pos 1800000001) [] giver ≡ done refund_at
unfolding refund_ready payout_address network_params bound_funding bind_funding bind_output
    bind_read record_script funding_script compare_binding hex_encode hex_decode fold build_refund
    refund_for read_tokens btcd fits_template read_terms script_num valid_lock_time build_contract
    ◌-ℤ◌
refund_is_ready = refl

refund_ready-IsRefund_example : IsRefund world node (pos 1800000001) [] giver refund_at
refund_ready-IsRefund_example =
    refund_ready-IsRefund world node (pos 1800000001) [] giver refund_at refund_is_ready
