-- ===== src/Tests/Parties.antt =====
-- The theorems on chains, addresses and amounts at one input each.
use ferry_web.Prelude.{
  ◌-◌, ◌*◌, ◌^◌, ◌≤◌, ◌<◌, ◌≡◌, refl, ◌⊎◌, true, false, Option, none, some, [], ◌∷◌, ◌++◌, arith,
  length, take, drop,
}
use ferry_web.Prelude.Int.{pos, ◌-ℤ◌}
use ferry_web.Prelude.Text.{Text, runes, fold, trim_left, trim_right, trim_space}
use ferry_web.Prelude.Bytes.{Bytes}
use ferry_web.Chains.Fingerprint.{ChainFingerprint, Nodes, build_fingerprint}
use ferry_web.Chains.Compare.{verify_fingerprint}
use ferry_web.Watch.Backend.{Backend}
use ferry_web.Zenon.Rpc.{ZenonRpc, Momentum}
use ferry_web.Zenon.Address.{Bech32}
use ferry_web.Zenon.Amount.{decimal_to_base_units, is_plain_decimal}
use ferry_web.Zenon.Exact.{dec_from, places, whole, decimal_to_base_units-exact}
use ferry_web.Tests.World.{node}

abbrev pub momentum : Momentum
momentum = record {
  height = 100;
  timestamp = pos 1799900000;
  hash = runes "00aa";
  chain_identifier = 1;
}

abbrev pub rpc : ZenonRpc
rpc = record {
  rpc = λ method params. some (1 ∷ []);
  response = λ frame. some (record { result = runes "{}"; is_error = false });
  htlc_of = λ t. none;
  momentum_of = λ t. some momentum;
  momentums_of = λ t. some (record momentum { height = 40 } ∷ []);
  token_of = λ t. none;
  flag_of = λ t. none;
  block_of = λ t. none;
  blocks_of = λ t. none;
}

abbrev ours : Nodes
ours = record { network = runes "mainnet"; chain = some node; znn = some rpc }

theirs : ChainFingerprint
unfolding build_fingerprint
theirs = build_fingerprint [] ours

-- Two nodes that read the same chains agree.
agrees : (verify_fingerprint ours (some theirs)).is_ok ≡ true
unfolding theirs build_fingerprint verify_fingerprint fold ◌-ℤ◌
agrees = refl

-- A stand-in for bech32 that writes the prefix behind its length.
abbrev split_at : Text → Option (Text × Bytes)
split_at [] = none
split_at (n ∷ s) = some (take n s, drop n s)

abbrev pub plain_bech32 : Bech32
plain_bech32 = record {
  decode = split_at;
  encode = λ hrp digits. some (length hrp ∷ hrp ++ digits);
  to_bytes = λ d. some d;
  to_digits = λ b. some b;
}

plain : is_plain_decimal (runes "1.5") ≡ true
unfolding is_plain_decimal
plain = refl

trimmed : trim_space (runes " 1.5") ≡ runes "1.5"
unfolding trim_space trim_left trim_right
trimmed = refl

decimal_to_base_units-exact_example :
    ((length (places (runes "1.5")) ≤ 8)
      × (decimal_to_base_units (runes " 1.5") (pos 8)
          ≡ some (
              pos (
                dec_from 0 (whole (runes "1.5") ++ places (runes "1.5"))
                * 10 ^ (8 - length (places (runes "1.5")))))))
    ⊎ ((8 < length (places (runes "1.5"))) × (decimal_to_base_units (runes " 1.5") (pos 8) ≡ none))
decimal_to_base_units-exact_example =
    decimal_to_base_units-exact (runes " 1.5") (runes "1.5") 8 trimmed plain (omega arith)
