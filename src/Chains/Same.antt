-- ===== src/Chains/Same.antt =====
-- wasm/chainid.go: when VerifyFingerprint finds both parties on the same chains.
use ferry_web.Prelude.{
  ◌≡◌, refl, ap, ◌∙◌, ◌↔◌, ◌⊎◌, inl, inr, true, false, Option, none, some, List, [], ◌∷◌, ◌++◌,
  arith, Bool-cases, is_empty,
}
use ferry_web.Prelude.Text.{Text, equal_fold}
use ferry_web.Prelude.Result.{Result, ok, err}
use ferry_web.Watch.Backend.{Backend}
use ferry_web.Zenon.Rpc.{ZenonRpc, Momentum, frontier_momentum, momentum_at}
use ferry_web.Ledger.Preimage.{NodeError}
use ferry_web.Chains.Fingerprint.{ChainFingerprint, Nodes}
use ferry_web.Chains.Compare.{
  ChainAgreement, Problem, Unchecked, problem, gap, is_clean, nothing_yet, bitcoin_drifts,
  zenon_drifts, compare_tips, compare_block, compare_bitcoin, verify_bitcoin_leg, compare_frontier,
  compare_momentum, compare_zenon, verify_zenon_leg, verify_fingerprint,
}

-- One's own node has the other side's Bitcoin block at its height, and is not far from its tip.
pub record SameBitcoin (m : Nodes) (peer : ChainFingerprint) (Near : Backend → Type 0)
    : Type 0 where
  pub told : is_empty peer.btc_anchor_hash ≡ false
  pub node : Backend
  pub asked : m.chain ≡ some node
  pub block : Text
  pub had : node.block_hash_at peer.btc_anchor_height ≡ some block
  pub same : equal_fold block peer.btc_anchor_hash ≡ true
  pub near : Near node

-- The same of the Zenon momentum.
pub record SameZenon (m : Nodes) (peer : ChainFingerprint) (Near : ZenonRpc → Type 0) : Type 0 where
  pub told : is_empty peer.znn_anchor_hash ≡ false
  pub node : ZenonRpc
  pub asked : m.znn ≡ some node
  pub momentum : Momentum
  pub had : momentum_at node peer.znn_anchor_height ≡ ok momentum
  pub same : equal_fold momentum.hash peer.znn_anchor_hash ≡ true
  pub near : Near node

abbrev pub StillBitcoin : ChainFingerprint → Backend → Type 0
StillBitcoin peer node = bitcoin_drifts node.tip_height peer.btc_height ≡ false

abbrev pub StillZenon : ChainFingerprint → ZenonRpc → Type 0
StillZenon peer node =
    ((e : NodeError) × (frontier_momentum node ≡ err e))
    ⊎ ((now : Momentum) × (frontier_momentum node ≡ ok now)
        × (zenon_drifts now.height peer.znn_height ≡ false))

is_empty-snoc : {A : Type 0} (xs : List A) (x : A) → is_empty (xs ++ x ∷ []) ≡ false
is_empty-snoc [] x = refl
is_empty-snoc (y ∷ xs) x = refl

is_clean-problem : (p : Problem) (out : ChainAgreement) → is_clean (problem p out) ≡ false
is_clean-problem p out = rw (is_empty-snoc out.problems p) refl

is_clean-gap : (u : Unchecked) (out : ChainAgreement) → is_clean (gap u out) ≡ false
is_clean-gap u out = rw (is_empty-snoc out.unchecked u) (ground arith)

module _ (m : Nodes) (peer : ChainFingerprint) where
  tips-clean :
      (c : Backend) (out : ChainAgreement)
      → is_clean (compare_tips peer c out) ≡ true
      → (is_clean out ≡ true) × (bitcoin_drifts c.tip_height peer.btc_height ≡ false)
  unfolding compare_tips
  tips-clean c out h = elim (Bool-cases (bitcoin_drifts c.tip_height peer.btc_height)) [
    | inl far ↦ cc (rw (far, compare_tips, is_clean-problem) at h)
    | inr near ↦ (rw (near, compare_tips) at h, near)
  ]

  block-clean :
      (told : is_empty peer.btc_anchor_hash ≡ false) (c : Backend) (asked : m.chain ≡ some c)
      (out : ChainAgreement) (answer : Option Text)
      → c.block_hash_at peer.btc_anchor_height ≡ answer
      → is_clean (compare_block peer c answer out) ≡ true
      → (is_clean out ≡ true) × SameBitcoin m peer (StillBitcoin peer)
  unfolding compare_block
  block-clean told c asked out none had h = cc (rw (is_clean-gap) at h)
  block-clean told c asked out (some ours) had h =
      elim (Bool-cases (equal_fold ours peer.btc_anchor_hash)) [
        | inr differs ↦ cc (rw (differs, compare_block, is_clean-problem) at h)
        | inl agrees ↦
            let (p, near) = tips-clean c _ (rw (agrees, compare_block) at h) in
            (
              p,
              record {
                told = told;
                node = c;
                asked = asked;
                block = ours;
                had = had;
                same = agrees;
                near = near;
              },
            )
      ]

  bitcoin-clean :
      (told : is_empty peer.btc_anchor_hash ≡ false) (out : ChainAgreement) (chain : Option Backend)
      → m.chain ≡ chain
      → is_clean (compare_bitcoin peer chain out) ≡ true
      → (is_clean out ≡ true) × SameBitcoin m peer (StillBitcoin peer)
  unfolding compare_bitcoin
  bitcoin-clean told out none asked h = cc (rw (is_clean-gap) at h)
  bitcoin-clean told out (some c) asked h = block-clean told c asked out _ refl h

  verify_bitcoin_leg-clean :
      (out : ChainAgreement)
      → is_clean (verify_bitcoin_leg m peer out) ≡ true
      → (is_clean out ≡ true) × SameBitcoin m peer (StillBitcoin peer)
  unfolding verify_bitcoin_leg
  verify_bitcoin_leg-clean out h = elim (Bool-cases (is_empty peer.btc_anchor_hash)) [
    | inl silent ↦ cc (rw (silent, verify_bitcoin_leg, is_clean-gap) at h)
    | inr told ↦ bitcoin-clean told out m.chain refl (rw (told, verify_bitcoin_leg) at h)
  ]

  verify_bitcoin_leg-same :
      SameBitcoin m peer (StillBitcoin peer)
      → verify_bitcoin_leg m peer nothing_yet ≡ record nothing_yet { same_chain = true }
  unfolding verify_bitcoin_leg compare_bitcoin compare_block compare_tips
  verify_bitcoin_leg-same r =
      rw
        (
          verify_bitcoin_leg, r.told, r.asked, compare_bitcoin, r.had, compare_block, r.same,
          compare_tips, r.near,
        )
        refl

  frontier-clean :
      (z : ZenonRpc) (out : ChainAgreement) (answer : Result NodeError Momentum)
      → frontier_momentum z ≡ answer
      → is_clean (compare_frontier peer answer out) ≡ true
      → (is_clean out ≡ true)
        × (((e : NodeError) × (frontier_momentum z ≡ err e))
            ⊎ ((now : Momentum) × (frontier_momentum z ≡ ok now)
                × (zenon_drifts now.height peer.znn_height ≡ false)))
  unfolding compare_frontier
  frontier-clean z out (err e) had h = (h, inl (e, had))
  frontier-clean z out (ok now) had h =
      elim (Bool-cases (zenon_drifts now.height peer.znn_height)) [
        | inl far ↦ cc (rw (far, compare_frontier, is_clean-problem) at h)
        | inr near ↦ (rw (near, compare_frontier) at h, inr (now, had, near))
      ]

  momentum-clean :
      (told : is_empty peer.znn_anchor_hash ≡ false) (z : ZenonRpc) (asked : m.znn ≡ some z)
      (out : ChainAgreement) (answer : Result NodeError Momentum)
      → momentum_at z peer.znn_anchor_height ≡ answer
      → is_clean (compare_momentum peer z answer out) ≡ true
      → (is_clean out ≡ true) × SameZenon m peer (StillZenon peer)
  unfolding compare_momentum
  momentum-clean told z asked out (err e) had h = cc (rw (is_clean-gap) at h)
  momentum-clean told z asked out (ok ours) had h =
      elim (Bool-cases (equal_fold ours.hash peer.znn_anchor_hash)) [
        | inr differs ↦ cc (rw (differs, compare_momentum, is_clean-problem) at h)
        | inl agrees ↦
            let (p, near) = frontier-clean z _ _ refl (rw (agrees, compare_momentum) at h) in
            (
              p,
              record {
                told = told;
                node = z;
                asked = asked;
                momentum = ours;
                had = had;
                same = agrees;
                near = near;
              },
            )
      ]

  zenon-clean :
      (told : is_empty peer.znn_anchor_hash ≡ false) (out : ChainAgreement) (znn : Option ZenonRpc)
      → m.znn ≡ znn
      → is_clean (compare_zenon peer znn out) ≡ true
      → (is_clean out ≡ true) × SameZenon m peer (StillZenon peer)
  unfolding compare_zenon
  zenon-clean told out none asked h = cc (rw (is_clean-gap) at h)
  zenon-clean told out (some z) asked h = momentum-clean told z asked out _ refl h

  verify_zenon_leg-clean :
      (out : ChainAgreement)
      → is_clean (verify_zenon_leg m peer out) ≡ true
      → (is_clean out ≡ true) × SameZenon m peer (StillZenon peer)
  unfolding verify_zenon_leg
  verify_zenon_leg-clean out h = elim (Bool-cases (is_empty peer.znn_anchor_hash)) [
    | inl silent ↦ cc (rw (silent, verify_zenon_leg, is_clean-gap) at h)
    | inr told ↦ zenon-clean told out m.znn refl (rw (told, verify_zenon_leg) at h)
  ]

  verify_zenon_leg-same :
      (out : ChainAgreement)
      → SameZenon m peer (StillZenon peer)
      → verify_zenon_leg m peer out ≡ record out { same_chain = true }
  unfolding verify_zenon_leg compare_zenon compare_momentum compare_frontier
  verify_zenon_leg-same out r = elim r.near [
    | inl (e, silent) ↦
        rw
          (
            verify_zenon_leg, r.told, r.asked, compare_zenon, r.had, compare_momentum, r.same,
            silent, compare_frontier,
          )
          refl
    | inr (now, answered, near) ↦
        rw
          (
            verify_zenon_leg, r.told, r.asked, compare_zenon, r.had, compare_momentum, r.same,
            answered, compare_frontier, near,
          )
          refl
  ]

  -- A comparison with a fingerprint is without fault, nothing wrong and nothing left unchecked, if
  -- and only if the networks have the same name and one's own nodes have the block and the momentum
  -- that the other side named, at the heights that it named, without a drift between the tips.
  pub verify_fingerprint-is_ok_iff : ((verify_fingerprint m (some peer)).is_ok ≡ true) ↔ (
      (equal_fold peer.network m.network ≡ true)
      × SameBitcoin m peer (StillBitcoin peer)
      × SameZenon m peer (StillZenon peer))
  unfolding verify_fingerprint
  verify_fingerprint-is_ok_iff = (
    λ h. elim (Bool-cases (equal_fold peer.network m.network)) [
      | inr other ↦ cc (rw (other, verify_fingerprint) at h)
      | inl named ↦
          let (p, zenon) = verify_zenon_leg-clean _ (rw (named, verify_fingerprint) at h) in
          let (_, bitcoin) = verify_bitcoin_leg-clean nothing_yet p in (named, bitcoin, zenon)
    ],
    λ h.
        rw (verify_fingerprint, h.0)
          (ap is_clean (
            ap (verify_zenon_leg m peer) (verify_bitcoin_leg-same h.1)
            ∙ verify_zenon_leg-same (record nothing_yet { same_chain = true }) h.2)),
  )
