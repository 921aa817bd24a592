-- ===== src/Tests/Reaches.antt =====
-- The theorem on the operations one after another, at a swap that is created and filed away.
use ferry_web.Prelude.{◌≡◌, refl, true, some, []}
use ferry_web.Prelude.Int.{pos, ◌+ℤ◌, ◌-ℤ◌}
use ferry_web.Prelude.Text.{runes}
use ferry_web.Swap.Record.{Swap}
use ferry_web.Swap.Terms.{withdraw_stale_verdict}
use ferry_web.Swap.Build.{Call, done}
use ferry_web.Store.Records.{Backing, Json, load}
use ferry_web.Prelude.Result.{ok}
use ferry_web.Outcome.Fields.{archive}
use ferry_web.Manager.Create.{create}
use ferry_web.Lifecycle.Reach
use ferry_web.Lifecycle.Known.{IsKnown, reached-IsKnown}
use ferry_web.Tests.World.{world, never_full, one_record}
use ferry_web.Tests.Records.{
  libraries, drawn, asked, no_store, now, made, result, is_done, done_result,
}

abbrev made_json : Json
made_json = record { encode = λ s. []; decode = λ t. some made.1; version_of = λ t. some (pos 1) }

filed_away : Call (Backing × Swap)
unfolding archive
filed_away = archive made_json never_full (runes "f.") (pos 5) one_record (runes "a1") true

files : is_done filed_away ≡ true
unfolding filed_away made ◌+ℤ◌ ◌-ℤ◌
files = refl

loads_made : load made_json never_full (runes "f.") (pos 5) one_record (runes "a1") ≡ ok made.1
unfolding load withdraw_stale_verdict made ◌+ℤ◌ ◌-ℤ◌
loads_made = refl

-- A create into an empty store reads nothing from it.
created_so :
    create libraries made_json never_full (runes "f.") now (runes "mainnet") drawn no_store asked
    ≡ done made
unfolding create made ◌+ℤ◌ ◌-ℤ◌
created_so = refl

after : Backing × Swap
unfolding filed_away
after = result (no_store, made.1) filed_away

reached-IsKnown_example : IsKnown world.sha256 after.1
unfolding filed_away after
reached-IsKnown_example = reached-IsKnown world made_json never_full (runes "f.") after.1 (
    Reach.filed (pos 5) one_record after.0 (runes "a1") true made.1 after.1
      (Reach.created libraries now (runes "mainnet") drawn no_store asked made refl created_so)
      loads_made (done_result (no_store, made.1) filed_away files))
