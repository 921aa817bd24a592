-- ===== src/Tests/Stores.antt =====
-- The theorems on the store at one record.
use ferry_web.Prelude.Result.{ok, err}
use ferry_web.Swap.Record.{Swap}
use ferry_web.Store.Records.{
  stale_write, Json, IsJson, Backing, put, key, set, fresh, advanced, save, load,
}
use ferry_web.Store.Saved.{IsSaved, save-load}
use ferry_web.Swap.Terms.{withdraw_stale_verdict}
use ferry_web.Store.Stale.{save-stale}
use ferry_web.Tests.Swaps.{alice}
use ferry_web.Prelude.{
  ◌≡◌, refl, ap, ◌≢◌, Bool, true, false, Option, none, some, [], ◌∷◌, ◌++◌, arith,
}
use ferry_web.Prelude.Int.{ℤ, pos, negsuc, pos_part, neg_part, sub_ℕ, ◌+ℤ◌}
use ferry_web.Prelude.Int64.{add64}
use ferry_web.Prelude.Text.{Text, runes}

abbrev version_text : Text → Option ℤ
version_text (p ∷ n ∷ []) = some (sub_ℕ p n)
version_text _ = none

-- A stand-in that writes no more than the version.
abbrev json : Json
json = record {
  encode = λ s. pos_part s.version ∷ neg_part s.version ∷ [];
  decode = λ t. none;
  version_of = version_text;
}

parts : (z : ℤ) → sub_ℕ (pos_part z) (neg_part z) ≡ z
parts (pos n) = ground arith
parts (negsuc n) = ground arith

json-IsJson : IsJson json
json-IsJson = record { version_of-encode = λ s. ap some (parts s.version) }

abbrev never_full : Backing → Text → Text → Bool
never_full b k v = false

abbrev empty : Backing
empty k = none

abbrev prefix : Text
prefix = runes "ferry.swap."

abbrev stored : Backing
stored = put empty (prefix ++ runes "a1") (some (1 ∷ 0 ∷ []))

abbrev saved : Swap
saved = record alice { version = pos 1 }

saves : save json never_full prefix empty alice ≡ ok (stored, saved)
unfolding save key fresh set advanced put add64 ◌+ℤ◌
saves = refl

-- It reads back the one record.
abbrev reading : Json
reading = record json { decode = λ t. some saved }

saves_so : save reading never_full prefix empty alice ≡ ok (stored, saved)
unfolding save key fresh set advanced put add64 ◌+ℤ◌
saves_so = refl

save-load_example :
    IsSaved reading prefix empty alice stored saved
    × (load reading never_full prefix (pos 5) stored alice.id
        ≡ ok (withdraw_stale_verdict (pos 5) saved))
save-load_example =
    save-load reading never_full prefix (pos 5) empty alice stored saved refl saves_so

other_name : key prefix alice.id ≢ ok []
unfolding key
other_name h = cc h

save-stale_example :
    save json never_full prefix stored (record alice { archived = true }) ≡ err stale_write
save-stale_example =
    save-stale json never_full prefix json-IsJson empty alice (record alice { archived = true })
      saves refl refl
