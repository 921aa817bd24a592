-- ===== src/Tests/Wallets.antt =====
-- The theorems on the calls that a wallet is asked to sign, at one swap of each side.
use ferry_web.Prelude.{◌≡◌, refl, Bool, true, false, some, [], ◌∷◌, arith, replicate}
use ferry_web.Prelude.Int64.{Fits}
use ferry_web.Prelude.Int.{int_laws, pos, ◌+ℤ◌, ◌-ℤ◌}
use ferry_web.Prelude.Text.{Text, runes, fold}
use ferry_web.Prelude.Bytes.{Bytes}
use ferry_web.Prelude.Hex.{hex_encode}
use ferry_web.Abi.Calls.{IsDigest}
use ferry_web.Swap.Record.{Swap}
use ferry_web.Swap.Build.{Call, done, fails, panics}
use ferry_web.Zenon.Rpc.{ZenonRpc, Token}
use ferry_web.Bitcoin.Tx.{contract_pk_script}
use ferry_web.Watch.Backend.{Backend}
use ferry_web.Wallet.Block.{Plan, new_plan}
use ferry_web.Wallet.Plan.{Encodings, plan_create, plan_unlock}
use ferry_web.Wallet.Unlocks.{IsUnlock, plan_unlock-IsUnlock}
use ferry_web.Wallet.Locks.{IsLock, plan_create-IsLock}
use ferry_web.Tests.Contracts.{hash, contract}
use ferry_web.Tests.Swaps.{complete}
use ferry_web.Tests.World.{packages, taker, node, utxo, deposit}
use ferry_web.Tests.Records.{entry}
use ferry_web.Tests.Parties.{rpc, momentum, plain_bech32}

abbrev sha3 : Bytes → Bytes
sha3 m = replicate 32 7

sha3-IsDigest : IsDigest sha3
sha3-IsDigest m = refl

abbrev encodings : Encodings
encodings = record {
  sha3 = sha3;
  sha256 = λ m. m;
  base64_decode = λ t. some t;
  base64_encode = λ b. b;
  decimal = λ z. [];
  bech32 = plain_bech32;
  btcd = packages;
  wording = λ v. [];
}

abbrev id_text : Text
id_text = replicate 64 97

abbrev token : Token
token = record {
  name = runes "Zenon";
  symbol = runes "ZNN";
  token_standard = runes "zts1znnxxxxxxxxxxxxx9z4ulx";
  decimals = pos 8;
}

abbrev ledger : ZenonRpc
ledger = record rpc {
  htlc_of = λ t. some (record entry { id = id_text });
  token_of = λ t. some token;
  flag_of = λ t. some true;
}

abbrev unlocker : Swap
unlocker = record complete {
  contract = contract;
  secret = hash;
  zenon = record complete.zenon { htlc_id = id_text };
}

abbrev blank : Plan
blank = new_plan 1 (runes "z1a")

abbrev is_done : Call Plan → Bool
is_done (done r) = true
is_done _ = false

abbrev result : Call Plan → Plan
result (done r) = r
result _ = blank

done_result : (c : Call Plan) → is_done c ≡ true → c ≡ done (result c)
done_result (done r) h = refl
done_result (fails e) h = cc h
done_result panics h = cc h

unlocks : is_done (plan_unlock encodings ledger (pos 1799900000) unlocker blank) ≡ true
unfolding plan_unlock fold ◌-ℤ◌
unlocks = refl

plan_unlock-IsUnlock_example :
    IsUnlock encodings ledger
      (pos 1799900000)
      unlocker
      (result (plan_unlock encodings ledger (pos 1799900000) unlocker blank)).block.data_text
plan_unlock-IsUnlock_example =
    plan_unlock-IsUnlock encodings ledger sha3-IsDigest (pos 1799900000) unlocker blank
      (result (plan_unlock encodings ledger (pos 1799900000) unlocker blank)) (omega arith)
      (done_result _ unlocks)

-- The counterparty's contract is funded; this side locks the ZNN.
abbrev locker : Swap
locker = record taker {
  funding = some (record deposit { pk_script_hex = hex_encode (0xa9 ∷ contract) });
  zenon = record taker.zenon {
    peer_address = 1 ∷ 122 ∷ replicate 20 7;
    amount_display = runes "10";
    expiration_seconds = pos 90000;
  };
}

abbrev funded_node : Backend
funded_node = record node { address_utxos = λ a. some (utxo (pos 100000) ∷ []) }

locks :
    is_done (plan_create encodings ledger (some funded_node) (pos 5) locker momentum blank) ≡ true
unfolding plan_create contract_pk_script fold ◌-ℤ◌ ◌+ℤ◌
locks = refl

left-Fits : Fits (locker.lock_time -ℤ pos 5)
unfolding ◌-ℤ◌
left-Fits = (omega arith, omega arith)

plan_create-IsLock_example :
    IsLock encodings ledger
      (some funded_node)
      (pos 5)
      locker
      momentum
      (result (plan_create encodings ledger (some funded_node) (pos 5) locker momentum blank))
plan_create-IsLock_example =
    plan_create-IsLock encodings ledger sha3-IsDigest (some funded_node) (pos 5) locker momentum
      blank (result (plan_create encodings ledger (some funded_node) (pos 5) locker momentum blank))
      (omega arith) (omega int_laws) (omega arith, omega arith) left-Fits (done_result _ locks)
