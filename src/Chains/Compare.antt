-- ===== src/Chains/Compare.antt =====
-- wasm/chainid.go: VerifyFingerprint. The problems and the checks that could not run are told apart;
-- their texts for the user are not built. A missing fingerprint is `none`.
use ferry_web.Prelude.{
  ℕ, Bool, true, false, ◌&&◌, Option, none, some, List, [], ◌∷◌, ◌++◌, ltb, if◌then◌else◌, is_empty,
}
use ferry_web.Prelude.Int.{ℤ, pos, ltb_ℤ}
use ferry_web.Prelude.Int64.{i64, sub64}
use ferry_web.Prelude.Text.{Text, equal_fold}
use ferry_web.Prelude.Result.{Result, ok, err}
use ferry_web.Watch.Backend.{Backend}
use ferry_web.Zenon.Rpc.{ZenonRpc, Momentum, frontier_momentum, momentum_at}
use ferry_web.Chains.Fingerprint.{ChainFingerprint, Nodes}

abbrev pub btc_height_drift : ℤ
btc_height_drift = pos 3

abbrev pub znn_height_drift : ℤ
znn_height_drift = pos 120

pub data Problem : Type 0 where
  no_information : Problem
  other_network : Text → Problem
  other_bitcoin_chain : ℤ → Text → Text → Problem
  bitcoin_apart : ℤ → ℤ → Problem
  other_zenon_chain : ℕ → Text → Text → Problem
  zenon_apart : ℕ → ℕ → Problem

pub data Unchecked : Type 0 where
  -- The other side's answer, with its error or none.
  bitcoin_gap : Text → Unchecked
  zenon_gap : Text → Unchecked
  no_bitcoin_node : Unchecked
  no_zenon_node : Unchecked
  no_bitcoin_block : ℤ → Unchecked
  no_momentum : ℕ → Unchecked

pub record ChainAgreement : Type 0 where
  pub is_ok : Bool
  pub same_chain : Bool
  pub problems : List Problem
  pub unchecked : List Unchecked

abbrev pub problem : Problem → ChainAgreement → ChainAgreement
problem p out = record out { problems = out.problems ++ p ∷ [] }

abbrev pub gap : Unchecked → ChainAgreement → ChainAgreement
gap u out = record out { unchecked = out.unchecked ++ u ∷ [] }

abbrev pub nothing_yet : ChainAgreement
nothing_yet = record { is_ok = false; same_chain = false; problems = []; unchecked = [] }

-- abs64, which leaves the least int64 as it is.
unfoldable pub abs64 : ℤ → ℤ
unfolding sub64
abs64 v = if ltb_ℤ v (pos 0) then sub64 (pos 0) v else v

-- Whether the tip is known and far from the height that the other side told.
unfoldable pub bitcoin_drifts : Option ℤ → ℤ → Bool
unfolding abs64 sub64
bitcoin_drifts none theirs = false
bitcoin_drifts (some tip) theirs =
    ltb_ℤ (pos 0) theirs && ltb_ℤ btc_height_drift (abs64 (sub64 tip theirs))

-- int64(height) of a uint64 is `i64`.
unfoldable pub zenon_drifts : ℕ → ℕ → Bool
unfolding abs64 sub64
zenon_drifts ours theirs =
    ltb 0 theirs && ltb_ℤ znn_height_drift (abs64 (sub64 (i64 (pos ours)) (i64 (pos theirs))))

abbrev value_or : ℤ → Option ℤ → ℤ
value_or d none = d
value_or d (some z) = z

-- The tips are only compared where the blocks agree.
unfoldable pub compare_tips : ChainFingerprint → Backend → ChainAgreement → ChainAgreement
unfolding bitcoin_drifts
compare_tips peer c out =
    if bitcoin_drifts c.tip_height peer.btc_height
    then problem (bitcoin_apart (value_or (pos 0) c.tip_height) peer.btc_height) out
    else out

unfoldable pub compare_block :
    ChainFingerprint → Backend → Option Text → ChainAgreement → ChainAgreement
unfolding compare_tips equal_fold
compare_block peer c none out = gap (no_bitcoin_block peer.btc_anchor_height) out
compare_block peer c (some ours) out =
    if equal_fold ours peer.btc_anchor_hash
    then compare_tips peer c (record out { same_chain = true })
    else problem (other_bitcoin_chain peer.btc_anchor_height ours peer.btc_anchor_hash) out

unfoldable pub compare_bitcoin : ChainFingerprint → Option Backend → ChainAgreement → ChainAgreement
unfolding compare_block
compare_bitcoin peer none out = gap no_bitcoin_node out
compare_bitcoin peer (some c) out =
    compare_block peer c (c.block_hash_at peer.btc_anchor_height) out

unfoldable pub verify_bitcoin_leg : Nodes → ChainFingerprint → ChainAgreement → ChainAgreement
unfolding compare_bitcoin
verify_bitcoin_leg m peer out =
    if is_empty peer.btc_anchor_hash
    then gap (bitcoin_gap peer.btc_error) out
    else compare_bitcoin peer m.chain out

unfoldable pub compare_frontier :
    {E : Type 0} → ChainFingerprint → Result E Momentum → ChainAgreement → ChainAgreement
unfolding zenon_drifts
compare_frontier peer (err _) out = out
compare_frontier peer (ok mom) out =
    if zenon_drifts mom.height peer.znn_height
    then problem (zenon_apart mom.height peer.znn_height) out
    else out

unfoldable pub compare_momentum :
    {E : Type 0} → ChainFingerprint → ZenonRpc → Result E Momentum → ChainAgreement → ChainAgreement
unfolding compare_frontier frontier_momentum equal_fold
compare_momentum peer z (err _) out = gap (no_momentum peer.znn_anchor_height) out
compare_momentum peer z (ok ours) out =
    if equal_fold ours.hash peer.znn_anchor_hash
    then compare_frontier peer (frontier_momentum z) (record out { same_chain = true })
    else problem (other_zenon_chain peer.znn_anchor_height ours.hash peer.znn_anchor_hash) out

unfoldable pub compare_zenon : ChainFingerprint → Option ZenonRpc → ChainAgreement → ChainAgreement
unfolding compare_momentum momentum_at
compare_zenon peer none out = gap no_zenon_node out
compare_zenon peer (some z) out = compare_momentum peer z (momentum_at z peer.znn_anchor_height) out

unfoldable pub verify_zenon_leg : Nodes → ChainFingerprint → ChainAgreement → ChainAgreement
unfolding compare_zenon
verify_zenon_leg m peer out =
    if is_empty peer.znn_anchor_hash
    then gap (zenon_gap peer.znn_error) out
    else compare_zenon peer m.znn out

-- Nothing disagreed, and nothing was left unchecked.
abbrev pub is_clean : ChainAgreement → Bool
is_clean out = is_empty out.problems && is_empty out.unchecked

abbrev pub with_ok : ChainAgreement → ChainAgreement
with_ok out = record out { is_ok = is_clean out }

unfoldable pub verify_fingerprint : Nodes → Option ChainFingerprint → ChainAgreement
unfolding verify_bitcoin_leg verify_zenon_leg equal_fold
verify_fingerprint m none = problem no_information nothing_yet
verify_fingerprint m (some peer) =
    if equal_fold peer.network m.network
    then with_ok (verify_zenon_leg m peer (verify_bitcoin_leg m peer nothing_yet))
    else problem (other_network peer.network) nothing_yet
