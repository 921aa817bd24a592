-- ===== src/Chains/Near.antt =====
-- wasm/chainid.go: VerifyFingerprint, with the distance of the tips in plain numbers.
use ferry_web.Prelude.{◌+◌, ◌≤◌, ◌<◌, ◌≡◌, ◌⊎◌, none, some}
use ferry_web.Prelude.Int.{ℤ, pos, pos_part, neg_part, ◌+ℤ◌, ◌≤ℤ◌}
use ferry_web.Prelude.Result.{ok, err}
use ferry_web.Watch.Backend.{Backend}
use ferry_web.Zenon.Rpc.{ZenonRpc, Momentum, frontier_momentum}
use ferry_web.Ledger.Preimage.{NodeError}
use ferry_web.Chains.Fingerprint.{ChainFingerprint}

-- At most so far apart.
abbrev pub Within_ : ℤ → ℤ → ℤ → Type 0
Within_ far a c = (a ≤ℤ (c +ℤ far)) × (c ≤ℤ (a +ℤ far))

-- The tip is not known, no height was told, or they are at most three blocks apart.
abbrev pub NearBitcoin : ChainFingerprint → Backend → Type 0
NearBitcoin peer node =
    (node.tip_height ≡ none)
    ⊎ ((tip : ℤ) × (node.tip_height ≡ some tip)
        × ((peer.btc_height ≤ℤ pos 0) ⊎ Within_ (pos 3) tip peer.btc_height))

-- The newest momentum is not known, no height was told, or they are at most 120 momentums apart.
abbrev pub NearZenon : ChainFingerprint → ZenonRpc → Type 0
NearZenon peer node =
    ((e : NodeError) × (frontier_momentum node ≡ err e))
    ⊎ ((now : Momentum) × (frontier_momentum node ≡ ok now)
        × ((peer.znn_height ≡ 0)
            ⊎ ((now.height ≤ peer.znn_height + 120) × (peer.znn_height ≤ now.height + 120))))

-- Within the range of an int64, with its negation.
abbrev Ordinary2 : ℤ → Type 0
Ordinary2 z = (pos_part z < 9223372036854775808) × (neg_part z < 9223372036854775808)
