-- ===== src/Tests/Verified.antt =====
-- The theorem on the order of the legs at one entry.
use ferry_web.Prelude.Bytes.{Bytes}
use ferry_web.Prelude.Hex.{hex_encode}
use ferry_web.Swap.Record.{Swap}
use ferry_web.Swap.Terms.{missing_zenon_terms, missing_reasons, agreed_token, token_or_znn}
use ferry_web.Swap.Roles.{zenon_leg_is_initiators}
use ferry_web.Zenon.Entry.{HtlcInfo, hash_lock_bytes, hash_lock_hex, set_string}
use ferry_web.Zenon.Verify
use ferry_web.Zenon.Verify.{verify, problems, entry_problems, amount_problems, expiry_problems}
use ferry_web.Manager.Expect.{zenon_verify_params, answered, verified_in_order}
use ferry_web.Tests.Contracts.{hash, lock, contract}
use ferry_web.Tests.Swaps.{complete}
use ferry_web.Prelude.{◌≡◌, refl, ◌⊎◌, true, false, Option, some, [], arith}
use ferry_web.Prelude.Int.{pos, ◌+ℤ◌, ◌-ℤ◌, ◌≤ℤ◌}
use ferry_web.Prelude.Int64.{add64, sub64, scale64}
use ferry_web.Prelude.Text.{Text, runes, trim_left, trim_right, trim_space, equal_fold, fold}

abbrev base64 : Text → Option Bytes
base64 t = some t

abbrev built : Swap
built = record complete { contract = contract }

abbrev entry : HtlcInfo
entry = record {
  id = runes "ab";
  time_locked = runes "z1b";
  hash_locked = runes "Z1A";
  token_standard = runes "zts1znnxxxxxxxxxxxxx9z4ulx";
  amount = runes "1000000000";
  expiration_time = pos 1799992800;
  hash_type = pos 1;
  key_max_size = pos 32;
  hash_lock = hash;
}

is_verified :
    verify base64 entry (answered built (runes "0xab") (pos 1799900000) (some (pos 1000000000)) [])
    ≡ Verify.verified
unfolding verify zenon_verify_params problems entry_problems amount_problems expiry_problems
    hash_lock_bytes hash_lock_hex hex_encode missing_zenon_terms missing_reasons agreed_token
    token_or_znn zenon_leg_is_initiators trim_space trim_left trim_right Verify.time_left
    Verify.trim_0x set_string equal_fold fold add64 sub64 scale64 ◌-ℤ◌ ◌+ℤ◌
is_verified = refl

verified_in_order_example :
    (missing_zenon_terms built ≡ [])
    × (((zenon_leg_is_initiators built ≡ true) × ((lock +ℤ pos 7200) ≤ℤ pos 1799992800))
        ⊎ ((zenon_leg_is_initiators built ≡ false) × (pos 1799992800 ≤ℤ (lock -ℤ pos 7200))))
verified_in_order_example =
    verified_in_order base64 built entry (runes "0xab") (pos 1799900000) (some (pos 1000000000)) []
      is_verified refl (omega arith) (omega arith)
