-- ===== src/Tests/Outcomes.antt =====
-- The theorems on what is saved of a spend, at one swap.
use ferry_web.Prelude.{◌≡◌, refl, ◌⊎◌, true, some, []}
use ferry_web.Prelude.Int.{pos, ◌+ℤ◌}
use ferry_web.Prelude.Text.{Text, runes}
use ferry_web.Prelude.Result.{ok}
use ferry_web.Swap.Record.{Swap}
use ferry_web.Swap.Terms.{withdraw_stale_verdict}
use ferry_web.Swap.Build.{done}
use ferry_web.Store.Records.{Backing, put, key, save, load}
use ferry_web.Outcome.Retry.{Others, names, save_attempt, save_outcome}
use ferry_web.Store.Saved.{IsSaved}
use ferry_web.Outcome.Attached.{Written, save_outcome-Written}
use ferry_web.Outcome.Lands.{IsOutcome, save_outcome-lands}
use ferry_web.Tests.Contracts.{contract}
use ferry_web.Tests.World.{deposit, taker, json, never_full, one_record, json-IsReadable}
use ferry_web.Tests.Spends.{spend}

abbrev nobody : Others
nobody = record { before_save = λ n b. b; before_load = λ n b. b }

abbrev settled_by : Swap → Swap
settled_by s = record s { redeem_tx = some spend }

settled_by-IsOutcome : IsOutcome settled_by
settled_by-IsOutcome = record { same_id = λ s. refl; same_version = λ s. refl }

-- The record that was loaded before another call saved it.
abbrev overtaken : Swap
overtaken = record taker { version = pos 7 }

abbrev key_a1 : Text
key_a1 = runes "f.a1"

key_is : key (runes "f.") overtaken.id ≡ ok key_a1
unfolding key
key_is = refl

loads : load json never_full (runes "f.") (pos 5) one_record overtaken.id ≡ ok taker
unfolding load key withdraw_stale_verdict
loads = refl

named : names contract deposit taker ≡ true
unfolding names
named = refl

save_outcome-lands_example :
    (store' : Backing) × (s' : Swap) × (save_outcome json never_full
        (runes "f.")
        nobody
        (pos 5)
        (runes "cd")
        settled_by
        contract
        deposit
        one_record
        overtaken
      ≡ done (store', s'))
    × (IsSaved json (runes "f.") one_record (settled_by overtaken) store' s'
        ⊎ IsSaved json (runes "f.") one_record (settled_by taker) store' s')
save_outcome-lands_example =
    save_outcome-lands json never_full (runes "f.") (λ b k v. refl) nobody (pos 5) (runes "cd")
      settled_by contract deposit one_record overtaken taker key_a1 json-IsReadable
      settled_by-IsOutcome (λ b. refl) key_is loads refl named

saved_late :
    save_outcome json never_full
      (runes "f.")
      nobody
      (pos 5)
      (runes "cd")
      settled_by
      contract
      deposit
      one_record
      overtaken
    ≡ done
        (put one_record key_a1 (some []), record taker { version = pos 1; redeem_tx = some spend })
unfolding save_outcome save_attempt save load names put ◌+ℤ◌
saved_late = refl

save_outcome-Written_example :
    Written json never_full
      (runes "f.")
      nobody
      (pos 5)
      settled_by
      contract
      deposit
      one_record
      overtaken
      (put one_record key_a1 (some []))
      (record taker { version = pos 1; redeem_tx = some spend })
save_outcome-Written_example =
    save_outcome-Written json never_full (runes "f.") nobody (pos 5) settled_by contract deposit
      (runes "cd") one_record overtaken (put one_record key_a1 (some []))
      (record taker { version = pos 1; redeem_tx = some spend }) saved_late
