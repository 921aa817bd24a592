-- ===== src/Lib.antt =====
-- ferry-web: atomic swaps between Bitcoin and Zenon, run in the browser by a Go program (wasm/).
--
-- A swap locks bitcoin in a hashed timelock contract (wasm/htlc.go) and ZNN in an entry of Zenon's embedded
-- HTLC contract. One side, the initiator, invents the secret; its leg has to expire last. Each browser
-- keeps its own record of the swap (wasm/swap.go, stored by wasm/store.go); the manager (wasm/manager.go)
-- moves the record along, by building or auditing the Bitcoin contract, planning the expiry of the Zenon
-- leg and verifying the counterparty's entry (wasm/znn/client.go), and finds the secret that an unlock
-- published on the ledger (wasm/znn/ledger.go). Calls of the embedded contract are packed by
-- wasm/znn/htlcabi.go. Refresh watches the funding through a node (wasm/chain), and Redeem and Refund spend
-- it by transactions that wasm/txbuild.go builds. Two parties compare their nodes by
-- wasm/chainid.go. The calls of the embedded contract are signed by a wallet, which is handed a block
-- that wasm/walletblock.go plans.
--
-- Files and code:
--   Prelude    tests on numbers, lists, results, bytes; int64 with its wrap-around (Int64), instants and
--              durations (Duration), Go strings as runes (Text), hexadecimal (Hex).
--   Contract   wasm/htlc.go. Num is scriptNum, minimallyEncoded and validLockTime; Build is BuildContract
--              and the signature scripts; Parse is ParseContract; Secret is ExtractSecret. A run-time
--              panic is a result of its own. The package txscript is the record Txscript of Script, and
--              IsTxscript is what is relied on of it.
--   Abi        wasm/znn/htlcabi.go. Words is leftPad, packInt and packBytes, Calls the three calls; Decode
--              reads the arguments of a call by the rules of the ABI, independently of the code that
--              packs it, and Method the four bytes in front of them.
--   Ledger     wasm/znn/ledger.go. Blocks is the data, Scan scanForPreimage, Search searchBlock, Preimage
--              the two searches for a preimage and FindPreimage, Creates FindHtlcCreates, and Candidates
--              follows it over the pages. The node is a pair of functions, one answer for each question.
--   Swap       wasm/swap.go. Record is the data, Roles who owns which leg, Terms the terms of the Zenon leg,
--              Commit what the funding and the contract are committed to, Build BuildSwapContract, Offer
--              CheckCreate of wasm/offerterms.go, Decode the text of an offer and DeletionRisk;
--              Wellformed says what an accepted offer is,
--              Amounts what normalDecimal keeps of an amount.
--   Bitcoin    wasm/txbuild.go. Tx is DecodeRawTx and the scripts of addresses, Rate feeFor and the rates,
--              Spend buildSpend, BuildRedeem and BuildRefund. Signed says what a spend that was built is.
--   Manager    wasm/manager.go. Legs is planZenonLeg, wholeHours and auditLegOrdering, Audit is
--              SetCounterpartyPKH and AuditContract from the loaded record to the one that is saved, Expect
--              zenonVerifyParams, Fill SetZenonTerms, Entries zenonExpectations, VerifyZenon and
--              FindZenonHtlc, Create Create, in steps. Recovered is the way of an entry that is gone.
--              A refusal that is repeated is told by its wording, which is a parameter and stands for
--              the kinds of problems in it, not for the values; only a line of the history hangs on it.
--   Watch      wasm/manager.go. Backend is the interface of a node in wasm/chain, Pick fundingIsOpen,
--              pickFunding and trackFundingDepth, Bind bindFunding, Settle absorbSpend, Poll Refresh, one
--              definition for each of its steps. Keeps and Refreshed are the invariant, step by step.
--   Outcome    wasm/manager.go. Retry is payoutAddress and saveOutcome, Spend Redeem and Refund up to the
--              broadcast (redeem_ready, refund_ready) and from there, Fields SetSecret, Archive and
--              RecordFundingBroadcast.
--   Lifecycle  the operations one after another: Reach is the relation of the swaps that a create and
--              further operations lead to, Known what holds of their secrets.
--   Chains     wasm/chainid.go. Fingerprint is BuildFingerprint, Compare VerifyFingerprint; Near has the
--              distance of the tips in plain numbers.
--   Wallet     wasm/walletblock.go. Block is newWalletBlock and diffSignedBlock, Funding the gate in front of
--              a create, Plan planCreate, planUnlock and planReclaim.
--   Zenon      wasm/znn/client.go. Entry is HtlcInfo, Verify is Verify and CheckIncomplete, Rpc the calls of
--              the node and WhatHappenedTo; Address is the parsing of wasm/znn/htlcabi.go and
--              wasm/znn/address.go, Amount decimalToBaseUnits of wasm/manager.go.
--   Store      wasm/store.go. Records is key, Save, SaveIfAbsent, load, DeleteIf, Delete and validate.
--              Saved says what a save has done to the store.
--   Tests      the theorems at concrete inputs, with a script language for Txscript.
--
-- Numbers: int64 is ℤ, and each sum, difference and product of the code is reduced to 64 bits; a time is
-- an unbounded number of nanoseconds, and a difference of two times stops at the ends of int64, as in
-- package time. Loops are structural, except those over pages, which count down the pages that are left;
-- their theorems ask for as many pages as the code is told to read, and the retries of saveOutcome, which
-- count down from the four attempts of the code.
--
-- Parameters: SHA-256, SHA3-256, base64, bech32, the JSON of a record and of an offer, the addresses and
-- scripts of btcutil, the transactions, signatures and the script engine of btcd, floating-point numbers,
-- what the nodes answer, what is drawn at random, what other calls write to the store, and the quota
-- of the storage. A string that is one of a few values has a constructor for any other text. The lines
-- of a swap's history are told apart by what they say, not word by word. The time is in nanoseconds in
-- Manager's Audit and Create, in seconds elsewhere.
--
-- Not modelled: the user interface and the entry points of the page (wasm/api.go), the transports, the
-- sessions and the order board; the comparison with a wallet's own node (wasm/walletsync.go), the recovery
-- file (wasm/recover.go), the estimate of fees (wasm/estimate.go), and Import and List of the store,
-- which stand on the parts above.
pub mod Bitcoin
pub mod Prelude
pub mod Contract
pub mod Abi
pub mod Ledger
pub mod Swap
pub mod Manager
pub mod Chains
pub mod Lifecycle
pub mod Wallet
pub mod Watch
pub mod Outcome
pub mod Zenon
pub mod Store
mod Tests
