-- ===== src/Tests/Refreshes.antt =====
-- The theorem on Refresh at one swap.
use ferry_web.Prelude.{◌≡◌, refl, Bool, true, false, none, some, [], is_some}
use ferry_web.Prelude.Int.{pos, ◌-ℤ◌}
use ferry_web.Prelude.Text.{runes}
use ferry_web.Prelude.Result.{ok}
use ferry_web.Contract.Num.{script_num, valid_lock_time}
use ferry_web.Contract.Build.{build_contract}
use ferry_web.Contract.Parse.{read_tokens, fits_template, read_terms}
use ferry_web.Swap.Record.{Swap, awaiting_funding, funded}
use ferry_web.Swap.Build.{Call, done, fails, panics}
use ferry_web.Store.Records.{Json, Backing, load}
use ferry_web.Watch.Keeps.{Keeps}
use ferry_web.Watch.Poll.{refresh}
use ferry_web.Store.Saved.{IsStored}
use ferry_web.Prelude.{◌⊎◌}
use ferry_web.Watch.Invariant.{refresh-Keeps}
use ferry_web.Tests.Bitcoin.{btcd}
use ferry_web.Prelude.Text.{fold}
use ferry_web.Tests.World.{world, node, taker, giver, never_full, one_record}

-- A maker's swap whose contract has not been funded yet: the node lists a stray output and the
-- funding, and the refund is signed ahead.
abbrev waiting : Swap
waiting = record giver { state = awaiting_funding; funding = none }

abbrev waiting_json : Json
waiting_json = record {
  encode = λ s. [];
  decode = λ t. some waiting;
  version_of = λ t. some (pos 0);
}

abbrev pair : Call (Backing × Swap) → Backing × Swap
pair (done r) = r
pair _ = (one_record, taker)

abbrev is_done : Call (Backing × Swap) → Bool
is_done (done r) = true
is_done _ = false

done_pair : (c : Call (Backing × Swap)) → is_done c ≡ true → c ≡ done (pair c)
done_pair (done r) h = refl
done_pair (fails e) h = cc h
done_pair panics h = cc h

after_refresh : Backing × Swap
unfolding refresh
after_refresh =
    pair
      (refresh world node waiting_json never_full (runes "f.") none (pos 5) one_record (runes "a1"))

returns :
    is_done
      (refresh world node waiting_json never_full (runes "f.") none (pos 5) one_record (runes "a1"))
    ≡ true
unfolding refresh fold read_tokens btcd fits_template read_terms script_num valid_lock_time
    build_contract ◌-ℤ◌
returns = refl

refreshes :
    refresh world node waiting_json never_full (runes "f.") none (pos 5) one_record (runes "a1")
    ≡ done (after_refresh.0, after_refresh.1)
unfolding after_refresh
refreshes = done_pair _ returns

funded_by_refresh : (after_refresh.1.state ≡ funded) × (is_some after_refresh.1.refund_tx ≡ true)
unfolding after_refresh refresh fold read_tokens btcd fits_template read_terms script_num
    valid_lock_time build_contract ◌-ℤ◌
funded_by_refresh = (refl, refl)

refresh-Keeps_example :
    (s : Swap) × (load waiting_json never_full (runes "f.") (pos 5) one_record (runes "a1") ≡ ok s)
    × Keeps world.sha256 s after_refresh.1
    × (((s.contract ≡ []) × (after_refresh.1 ≡ s) × (after_refresh.0 ≡ one_record))
        ⊎ IsStored waiting_json (runes "f.") after_refresh.0 after_refresh.1)
refresh-Keeps_example =
    refresh-Keeps world node waiting_json never_full (runes "f.") none (pos 5) one_record
      after_refresh.0 (runes "a1") after_refresh.1 refreshes
