-- ===== src/Ledger/Preimage.antt =====
-- wasm/znn/ledger.go: FindPreimage, preimageFromSends and preimageFromContract. The node is two
-- parameters: `page_of` (ledger.getAccountBlocksByPage) and `block_of` (ledger.getAccountBlockByHash,
-- where a null result is `no_result`).
use ferry_web.Prelude.Bytes.{Bytes}
use ferry_web.Prelude.Result.{Result, ok, err, ◌>>◌, guard}
use ferry_web.Ledger.Scan.{hash_lock_size}
use ferry_web.Ledger.Blocks.{
  AccountBlock, head, descendants, Blocks, no_blocks, nil_block, block, none_listed,
  AccountBlockList, htlc_contract_address, pays_to, is_zero_hash,
}
use ferry_web.Ledger.Search.{search_block, search_descendants}
use ferry_web.Prelude.{
  ℕ, zero, suc, not, ◌&&◌, ◌||◌, Option, none, some, ◌==◌, if◌then◌else◌, length, is_empty,
}
use ferry_web.Prelude.Text.{Text, trim_space}

pub data NodeError : Type 0 where
  no_result call_failed : NodeError

pub data SearchError : Type 0 where
  bad_hash_size no_creator not_found : SearchError
  node_error : NodeError → SearchError

module _ (sha256 : Bytes → Bytes) (base64 : Text → Option Bytes)
    (page_of : Text → ℕ → ℕ → Result NodeError AccountBlockList)
    (block_of : Text → Result NodeError AccountBlock) where
  -- `left` pages are still to be read, `page` is the next of them.
  unfoldable pub preimage_from_sends :
      Text → Bytes → (page_size left page : ℕ) → Result SearchError Bytes
  preimage_from_sends unlocker h page_size zero page = err not_found
  preimage_from_sends unlocker h page_size (suc left) page =
      let next = preimage_from_sends unlocker h page_size left (suc page) in
      elim (page_of unlocker page page_size) [
        | err e ↦ err (node_error e)
        | ok list ↦ elim (search_descendants sha256 base64 list.blocks h) [
          | some secret ↦ ok secret
          | none ↦ if not list.more || none_listed list.blocks then err not_found else next
        ]
      ]

  -- What one block of the contract's chain leads to.
  unfoldable pub search_receive : Text → Bytes → AccountBlock → Option Bytes
  search_receive payee h b =
      if is_zero_hash (head b).from_block_hash
      then none
      else if not (is_empty payee) && not (pays_to (descendants b) payee)
      then none
      else elim (block_of (head b).from_block_hash) [
        | err _ ↦ none
        | ok caller ↦ search_block sha256 base64 caller h
      ]

  unfoldable pub search_receives : Text → Bytes → Blocks → Option Bytes
  search_receives payee h no_blocks = none
  search_receives payee h (nil_block bs) = search_receives payee h bs
  search_receives payee h (block b bs) =
      let rest = search_receives payee h bs in
      elim (search_receive payee h b) [ some secret ↦ some secret | none ↦ rest ]

  unfoldable pub contract_pages :
      Text → Bytes → (page_size left page : ℕ) → Result SearchError Bytes
  contract_pages payee h page_size zero page = err not_found
  contract_pages payee h page_size (suc left) page =
      let next = contract_pages payee h page_size left (suc page) in
      elim (page_of htlc_contract_address page page_size) [
        | err e ↦ err (node_error e)
        | ok list ↦ elim (search_receives payee h list.blocks) [
          | some secret ↦ ok secret
          | none ↦ if not list.more || none_listed list.blocks then err not_found else next
        ]
      ]

  unfoldable pub preimage_from_contract :
      Text → Bytes → (page_size max_pages : ℕ) → Result SearchError Bytes
  preimage_from_contract payee h page_size max_pages =
      contract_pages (trim_space payee) h page_size max_pages 0

  unfoldable pub find_preimage : Text → Bytes → (page_size max_pages : ℕ) → Result SearchError Bytes
  find_preimage payee h page_size max_pages = do
    guard (length h == hash_lock_size) bad_hash_size
    let payee' = trim_space payee in
        if is_empty payee'
        then preimage_from_contract payee' h page_size max_pages
        else elim (preimage_from_sends payee' h page_size max_pages 0) [
          | ok secret ↦ ok secret
          | err _ ↦ preimage_from_contract payee' h page_size max_pages
        ]
