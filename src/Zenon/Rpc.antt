-- ===== src/Zenon/Rpc.antt =====
-- wasm/znn/client.go: call and the questions that go through it. The transport and the decoding of JSON
-- are the parameter `ZenonRpc`.
use ferry_web.Prelude.{
  ℕ, Bool, true, false, not, ◌&&◌, ◌||◌, Option, List, [], ◌∷◌, ◌==◌, if◌then◌else◌, get_elem?,
  is_empty,
}
use ferry_web.Prelude.Int.{ℤ, pos, leb_ℤ}
use ferry_web.Prelude.Text.{Text, runes, text_eq, equal_fold}
use ferry_web.Prelude.Result.{Result, ok, err, ◌>>=◌, ◌>>◌, guard, or_err}
use ferry_web.Prelude.Bytes.{Bytes}
use ferry_web.Ledger.Blocks.{AccountBlock, head, AccountBlockList, to_htlc_contract}
use ferry_web.Ledger.Preimage.{NodeError, no_result, call_failed}
use ferry_web.Zenon.Entry.{HtlcInfo}

pub data Param : Type 0 where
  text : Text → Param
  number : ℕ → Param

pub record RpcResponse : Type 0 where
  pub result : Text
  pub is_error : Bool

pub record Momentum : Type 0 where
  pub height : ℕ
  pub timestamp : ℤ
  pub hash : Text
  pub chain_identifier : ℕ

pub record Token : Type 0 where
  pub name : Text
  pub symbol : Text
  pub token_standard : Text
  pub decimals : ℤ

pub record ZenonRpc : Type 0 where
  -- The frame that answers a method and its parameters.
  pub rpc : Text → List Param → Option Bytes
  pub response : Bytes → Option RpcResponse
  -- json.Unmarshal of a result.
  pub htlc_of : Text → Option HtlcInfo
  pub momentum_of : Text → Option Momentum
  pub momentums_of : Text → Option (List Momentum)
  pub token_of : Text → Option Token
  pub flag_of : Text → Option Bool
  pub block_of : Text → Option AccountBlock
  pub blocks_of : Text → Option AccountBlockList

module _ (z : ZenonRpc) where
  unfoldable pub call : {A : Type 0} → Text → List Param → (Text → Option A) → Result NodeError A
  unfolding text_eq
  call method params decode = do
    frame ← or_err (z.rpc method params) call_failed
    guard (not (is_empty frame)) call_failed
    rr ← or_err (z.response frame) call_failed
    guard (not rr.is_error) call_failed
    guard (not (is_empty rr.result || text_eq rr.result (runes "null"))) no_result
    or_err (decode rr.result) call_failed

  unfoldable pub get_htlc_by_id : Text → Result NodeError HtlcInfo
  unfolding call
  get_htlc_by_id id = call (runes "embedded.htlc.getById") (text id ∷ []) z.htlc_of

  unfoldable pub frontier_momentum : Result NodeError Momentum
  unfolding call
  frontier_momentum = call (runes "ledger.getFrontierMomentum") [] z.momentum_of

  unfoldable pub momentum_at : ℕ → Result NodeError Momentum
  unfolding call
  momentum_at height = do
    page ← call (runes "ledger.getMomentumsByHeight") (number height ∷ number 1 ∷ []) z.momentums_of
    got ← or_err (get_elem? page 0) call_failed
    guard (got.height == height) call_failed
    ok got

  unfoldable pub get_token : Text → Result NodeError Token
  unfolding call equal_fold
  get_token zts = do
    t ← call (runes "embedded.token.getByZts") (text zts ∷ []) z.token_of
    guard (equal_fold t.token_standard zts) call_failed
    guard (leb_ℤ (pos 0) t.decimals && leb_ℤ t.decimals (pos 30)) call_failed
    ok t

  unfoldable pub proxy_unlock_allowed : Text → Result NodeError Bool
  unfolding call
  proxy_unlock_allowed address =
      call (runes "embedded.htlc.getProxyUnlockStatus") (text address ∷ []) z.flag_of

  unfoldable pub get_account_block_by_hash : Text → Result NodeError AccountBlock
  unfolding call
  get_account_block_by_hash hash =
      call (runes "ledger.getAccountBlockByHash") (text hash ∷ []) z.block_of

  unfoldable pub account_blocks_by_page : Text → ℕ → ℕ → Result NodeError AccountBlockList
  unfolding call
  account_blocks_by_page address page size =
      call (runes "ledger.getAccountBlocksByPage") (text address ∷ number page ∷ number size ∷ [])
        z.blocks_of

-- wasm/znn/ledger.go: WhatHappenedTo, by what its explanation says.
pub data Fate : Type 0 where
  not_looked_up not_in_ledger other_transaction : Fate
  consumed : (created_by : Text) → Fate

unfoldable pub existed : Fate → Bool
existed (consumed _) = true
existed _ = false

unfoldable pub fate_of : Result NodeError AccountBlock → Fate
unfolding to_htlc_contract
fate_of (err call_failed) = not_looked_up
fate_of (err no_result) = not_in_ledger
fate_of (ok b) =
    if is_empty (head b).hash
    then not_in_ledger
    else if to_htlc_contract (head b)
    then consumed (head b).address
    else other_transaction

unfoldable pub what_happened_to : ZenonRpc → Text → Fate
unfolding get_account_block_by_hash fate_of
what_happened_to z id = fate_of (get_account_block_by_hash z id)
