-- ===== src/Chains/Fingerprint.antt =====
-- wasm/chainid.go: ChainFingerprint and BuildFingerprint. The text of an error is the parameter
-- `told`, on the error of either node.
use ferry_web.Prelude.{ℕ, ◌-◌, Option, none, some, [], ltb, if◌then◌else◌}
use ferry_web.Prelude.Int.{ℤ, pos, negsuc}
use ferry_web.Prelude.Int64.{sub64}
use ferry_web.Prelude.Text.{Text, runes}
use ferry_web.Prelude.Result.{ok, err}
use ferry_web.Watch.Backend.{Backend}
use ferry_web.Zenon.Rpc.{ZenonRpc, frontier_momentum, momentum_at}

abbrev pub btc_anchor_depth : ℤ
btc_anchor_depth = pos 6

abbrev pub znn_anchor_depth : ℕ
znn_anchor_depth = 60

-- What a party's nodes say of their chains.
pub record ChainFingerprint : Type 0 where
  pub network : Text
  pub btc_height : ℤ
  pub btc_anchor_height : ℤ
  pub btc_anchor_hash : Text
  pub btc_error : Text
  pub znn_height : ℕ
  pub znn_anchor_height : ℕ
  pub znn_anchor_hash : Text
  pub znn_error : Text

-- The manager's network and nodes.
pub record Nodes : Type 0 where
  pub network : Text
  pub chain : Option Backend
  pub znn : Option ZenonRpc

abbrev blank : Text → ChainFingerprint
blank network = record {
  network = network;
  btc_height = pos 0;
  btc_anchor_height = pos 0;
  btc_anchor_hash = [];
  btc_error = [];
  znn_height = 0;
  znn_anchor_height = 0;
  znn_anchor_hash = [];
  znn_error = [];
}

abbrev max_zero : ℤ → ℤ
max_zero (pos n) = pos n
max_zero (negsuc n) = pos 0

-- The first block has height 1.
unfoldable pub znn_anchor : ℕ → ℕ
znn_anchor height = if ltb znn_anchor_depth height then height - znn_anchor_depth else 1

module _ (told : Text) where
  unfoldable pub with_bitcoin : Option Backend → ChainFingerprint → ChainFingerprint
  unfolding sub64
  with_bitcoin none fp = record fp { btc_error = runes "no Bitcoin backend configured" }
  with_bitcoin (some c) fp = elim c.tip_height [
    | none ↦ record fp { btc_error = told }
    | some tip ↦
        let anchor = max_zero (sub64 tip btc_anchor_depth) in
        elim (c.block_hash_at anchor) [
          | none ↦ record fp { btc_height = tip; btc_error = told }
          | some hash ↦ record fp {
            btc_height = tip;
            btc_anchor_height = anchor;
            btc_anchor_hash = hash;
          }
        ]
  ]

  unfoldable pub with_zenon : Option ZenonRpc → ChainFingerprint → ChainFingerprint
  unfolding frontier_momentum momentum_at znn_anchor
  with_zenon none fp = record fp { znn_error = runes "no Zenon node configured" }
  with_zenon (some z) fp = elim (frontier_momentum z) [
    | err _ ↦ record fp { znn_error = told }
    | ok mom ↦
        let anchor = znn_anchor mom.height in
        elim (momentum_at z anchor) [
          | err _ ↦ record fp { znn_height = mom.height; znn_error = told }
          | ok at ↦ record fp {
            znn_height = mom.height;
            znn_anchor_height = anchor;
            znn_anchor_hash = at.hash;
          }
        ]
  ]

  unfoldable pub build_fingerprint : Nodes → ChainFingerprint
  unfolding with_bitcoin with_zenon
  build_fingerprint m = with_zenon m.znn (with_bitcoin m.chain (blank m.network))
