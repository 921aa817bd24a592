-- ===== src/Tests/Chains.antt =====
-- The theorems on Zenon at a small ledger. The stand-ins for the hashes and for base64 are plain
-- functions, so that everything can be computed.
use ferry_web.Prelude.Bytes.{Bytes, int_bytes}
use ferry_web.Prelude.Result.{Result, ok, err}
use ferry_web.Abi.Words.{left_pad, pack_int, pack_bytes}
use ferry_web.Abi.Calls.{IsDigest, method_id, pack_create, pack_unlock, pack_reclaim}
use ferry_web.Abi.Holds.{Holds}
use ferry_web.Abi.Decode.{decode_create, decode_unlock}
use ferry_web.Abi.RoundTrip.{pack_create-decode, pack_unlock-decode}
use ferry_web.Ledger.Scan.{scan_for_preimage}
use ferry_web.Ledger.Blocks.{
  BlockHead, AccountBlock, account_block, no_blocks, nil_block, block, AccountBlockList,
  to_htlc_contract, data_bytes, pays_to, is_zero_hash, htlc_contract_address,
}
use ferry_web.Ledger.Search.{search_block, search_descendants, calls, search_block_complete}
use ferry_web.Ledger.Preimage.{
  NodeError, no_result, find_preimage, preimage_from_contract, contract_pages, search_receive,
  search_receives,
}
use ferry_web.Ledger.Found.{Unlock, there, find_preimage_sound, find_preimage_complete}
use ferry_web.Ledger.Creates.{
  candidate, collect_creates, collect_under, subtree, subtrees, contains, create_pages,
  find_htlc_creates,
}
use ferry_web.Prelude.{zero, suc}
use ferry_web.Ledger.Candidates
use ferry_web.Ledger.Candidates.{pack_create-found}
use ferry_web.Zenon.Entry.{HtlcInfo, set_string}
use ferry_web.Zenon.Remaining.{verify-remaining}
use ferry_web.Prelude.Duration.{second, times}
use ferry_web.Prelude.Int.{negsuc, ◌≤ℤ◌}
use ferry_web.Prelude.Int64.{Fits}
use ferry_web.Zenon.Verify
use ferry_web.Zenon.Verify.{
  VerifyParams, Problem, amount_unchecked, verify, problems, entry_problems, amount_problems,
  expiry_problems, check_incomplete, incomplete_count,
}
use ferry_web.Zenon.Verdict.{Matches}
use ferry_web.Zenon.Sound.{verify-Matches}
use ferry_web.Prelude.{
  ℕ, ◌≡◌, refl, ◌≢◌, ◌↔◌, inl, true, false, Option, none, some, [], ◌∷◌, ◌++◌, arith, if◌then◌else◌,
  length, take, replicate, is_empty, Within,
}
use ferry_web.Prelude.Int.{pos, ◌-ℤ◌, ◌<ℤ◌}
use ferry_web.Prelude.Int64.{sub64, scale64}
use ferry_web.Prelude.Text.{
  Text, runes, text_eq, equal_fold, fold, trim_space, trim_left, trim_right,
}

abbrev sha3 : Bytes → Bytes
sha3 m = replicate 32 0

sha3-IsDigest : IsDigest sha3
sha3-IsDigest m = refl

abbrev sha256 : Bytes → Bytes
sha256 m = m

abbrev base64 : Text → Option Bytes
base64 t = some t

abbrev secret : Bytes
secret = replicate 32 7

abbrev entry_id : Bytes
entry_id = replicate 32 1

abbrev unlock_call : Bytes
unlock_call =
    replicate 4 0 ++ (entry_id ++ (replicate 31 0 ++ (64 ∷ (replicate 31 0 ++ (32 ∷ secret)))))

unlock_packs : pack_unlock sha3 entry_id secret ≡ ok unlock_call
unfolding pack_unlock method_id left_pad pack_int pack_bytes int_bytes
unlock_packs = refl

pack_unlock-decode_example : decode_unlock unlock_call ≡ (entry_id, secret)
pack_unlock-decode_example =
    pack_unlock-decode sha3 sha3-IsDigest entry_id secret (omega arith) unlock_packs

abbrev reclaim_call : Bytes
reclaim_call = replicate 4 0 ++ entry_id

reclaim_packs : pack_reclaim sha3 entry_id ≡ ok reclaim_call
unfolding pack_reclaim method_id left_pad
reclaim_packs = refl

abbrev payee : Bytes
payee = replicate 20 3

abbrev hash_lock : Bytes
hash_lock = replicate 32 9

abbrev create_call : Bytes
create_call =
    replicate 4 0
    ++ (replicate 12 0
        ++ (payee
            ++ (replicate 30 0
                ++ (1
                    ∷ 0
                    ∷ (replicate 31 0
                        ++ (1
                            ∷ (replicate 31 0
                                ++ (32
                                    ∷ (replicate 31 0
                                        ++ (160 ∷ (replicate 31 0 ++ (32 ∷ hash_lock))))))))))))

create_packs : pack_create sha3 payee (pos 256) 1 32 hash_lock ≡ ok create_call
unfolding pack_create method_id left_pad pack_int pack_bytes int_bytes
create_packs = refl

pack_create-decode_example :
    (decode_create create_call ≡ record {
      hash_locked = payee;
      expiration_time = 256;
      hash_type = 1;
      key_max_size = 32;
      hash_lock = hash_lock;
    })
    × (pos 0 <ℤ pos 256)
pack_create-decode_example =
    pack_create-decode sha3 sha3-IsDigest payee (pos 256) 1 32 hash_lock (omega arith) (omega arith)
      (omega arith) (omega arith) create_packs

-- The account block that publishes the unlock, and the contract's receive of it.
abbrev head_of : Text → Text → Bytes → Text → BlockHead
head_of hash to d from = record {
  hash = hash;
  address = [];
  to_address = to;
  block_type = 2;
  height = 1;
  payload = d;
  from_block_hash = from;
  confirmed_at = some (pos 9);
}

abbrev unlock_block : AccountBlock
unlock_block = account_block (head_of (runes "ab") htlc_contract_address unlock_call []) no_blocks

abbrev receive_block : AccountBlock
receive_block = account_block (head_of (runes "cd") [] [] (runes "ab")) no_blocks

abbrev page : AccountBlockList
page = record { blocks = nil_block (block receive_block no_blocks); count = 2; more = false }

abbrev page_of : Text → ℕ → ℕ → Result NodeError AccountBlockList
page_of addr n size = ok page

abbrev block_of : Text → Result NodeError AccountBlock
block_of h = if text_eq h (runes "ab") then ok unlock_block else err no_result

calls_are : calls sha256 base64 unlock_block ≡ unlock_call ∷ []
unfolding calls to_htlc_contract equal_fold fold data_bytes
calls_are = refl

holds : Holds unlock_call secret
holds = (take 100 unlock_call, [], refl)

in_calls : Within unlock_call (calls sha256 base64 unlock_block)
in_calls = rw calls_are (inl refl)

search_finds : search_block sha256 base64 unlock_block secret ≡ some secret
unfolding search_block scan_for_preimage to_htlc_contract equal_fold fold data_bytes text_eq
search_finds = refl

search_block_complete_example : search_block sha256 base64 unlock_block secret ≢ none
search_block_complete_example =
    search_block_complete sha256 base64 unlock_block secret unlock_call secret in_calls holds refl
      refl

readable : block_of (runes "ab") ≡ ok unlock_block
unfolding text_eq
readable = refl

linked : is_zero_hash (runes "ab") ≡ false
unfolding is_zero_hash trim_space trim_left trim_right
linked = refl

blank : is_empty (trim_space (trim_space [])) ≡ true
unfolding trim_space trim_left trim_right
blank = refl

unlock : Unlock sha256 base64 page_of block_of (trim_space (trim_space [])) secret receive_block
unlock = record {
  linked = linked;
  pays = inl blank;
  caller = unlock_block;
  readable = readable;
  call = unlock_call;
  is_call = in_calls;
  holds = holds;
}

find_preimage_complete_example :
    (q : Bytes) × (find_preimage sha256 base64 page_of block_of [] secret 10 3 ≡ ok q)
    × (sha256 q ≡ secret)
find_preimage_complete_example =
    find_preimage_complete sha256 base64 page_of block_of [] secret secret receive_block page 10 0 3
      there (omega arith) refl (inl refl) unlock refl refl refl

found : find_preimage sha256 base64 page_of block_of [] secret 10 3 ≡ ok secret
unfolding find_preimage preimage_from_contract contract_pages search_receives search_receive
    is_zero_hash trim_space trim_left trim_right pays_to search_block search_descendants
    scan_for_preimage to_htlc_contract equal_fold fold data_bytes text_eq
found = refl

find_preimage_sound_example : (secret ≡ secret) × (length secret ≡ 32) × (length secret ≡ 32)
find_preimage_sound_example =
    find_preimage_sound sha256 base64 page_of block_of [] secret 10 3 secret found

abbrev create_head : BlockHead
create_head = head_of (runes "ef") htlc_contract_address create_call []

sent_to_contract :
    (to_htlc_contract create_head ≡ true) × (data_bytes base64 create_head ≡ create_call)
unfolding to_htlc_contract equal_fold fold data_bytes
sent_to_contract = (refl, refl)

abbrev create_block : AccountBlock
create_block = account_block create_head no_blocks

in_subtree : Within create_head (subtree base64 create_block)
unfolding subtree
in_subtree = inl refl

collects : Within (candidate create_head) (collect_creates base64 create_block hash_lock [])
unfolding collect_creates to_htlc_contract equal_fold fold data_bytes contains text_eq
collects = inl refl

-- Two pages: an empty call, and the create.
abbrev stray_block : AccountBlock
stray_block = account_block (head_of (runes "cd") [] [] []) no_blocks

abbrev create_page : Text → ℕ → ℕ → Result NodeError AccountBlockList
create_page a zero size =
    ok (record { blocks = block stray_block no_blocks; more = true; count = 2 })
create_page a (suc n) size =
    ok (record { blocks = block create_block no_blocks; more = false; count = 2 })

create_found :
    find_htlc_creates base64 create_page (runes "z1") hash_lock 50 10
    ≡ ok (candidate create_head ∷ [])
unfolding find_htlc_creates create_pages collect_under to_htlc_contract equal_fold fold data_bytes
    contains text_eq trim_space
create_found = refl

in_page : Within create_head (subtrees base64 (block create_block no_blocks))
unfolding subtrees
in_page = inl refl

pack_create-found_example :
    Within (record { id = runes "ef"; at = pos 9 }) (candidate create_head ∷ [])
pack_create-found_example =
    pack_create-found base64 create_page sha3 payee (pos 256) 1 32 hash_lock create_head
      (runes "z1") 50 1 10
      (record { blocks = block create_block no_blocks; more = false; count = 2 })
      (candidate create_head ∷ []) create_packs sent_to_contract.0 refl sent_to_contract.1
      (Candidates.before refl refl refl Candidates.there) (omega arith) refl in_page create_found

-- An entry for ten base units whose amount could not be checked.
abbrev entry : HtlcInfo
entry = record {
  id = runes "ab";
  time_locked = runes "z1a";
  hash_locked = runes "z1b";
  token_standard = runes "zts1";
  amount = runes "10";
  expiration_time = pos 100000;
  hash_type = pos 1;
  key_max_size = pos 32;
  hash_lock = hash_lock;
}

abbrev agreed : VerifyParams
agreed = record {
  secret_hash_hex = [];
  expect_id = runes "0xAB";
  expect_token_standard = runes "ZTS1";
  expect_recipient = runes "z1b";
  expect_sender = [];
  min_amount = some (pos 10);
  missing_terms = [];
  amount_uncheckable = [];
  now = pos 1000;
  min_remaining = pos 7200000000000;
  max_expiration = pos 100000;
  min_expiration = pos 0;
}

verify-Matches_example :
    (verify base64 entry agreed ≡ Verify.verified) ↔ Matches base64 entry agreed
verify-Matches_example = verify-Matches base64 entry agreed

abbrev unreadable : VerifyParams
unreadable = record agreed { amount_uncheckable = runes "no token" }

is_incomplete : check_incomplete (verify base64 entry unreadable) ≡ true
unfolding verify check_incomplete problems entry_problems amount_problems expiry_problems
    incomplete_count Verify.time_left Verify.trim_0x equal_fold fold sub64 scale64 ◌-ℤ◌
is_incomplete = refl

is_verified : verify base64 entry agreed ≡ Verify.verified
unfolding verify problems entry_problems amount_problems expiry_problems Verify.time_left
    Verify.trim_0x set_string equal_fold fold sub64 scale64 ◌-ℤ◌
is_verified = refl

within_range : Fits (pos 100000 -ℤ pos 1000) × Fits (times second (pos 100000 -ℤ pos 1000))
unfolding times ◌-ℤ◌
within_range = ((omega arith, omega arith), (omega arith, omega arith))

verify-remaining_example : pos 7200000000000 ≤ℤ times second (pos 100000 -ℤ pos 1000)
verify-remaining_example =
    verify-remaining base64 entry agreed is_verified (omega arith) (omega arith) within_range.0
      within_range.1

-- Beyond the range of a duration the time left wraps around: an entry that expired 292 years ago passes.
abbrev long_expired : HtlcInfo
long_expired = record entry { expiration_time = negsuc 9223371036 }

long_expired_passes : verify base64 long_expired agreed ≡ Verify.verified
unfolding verify problems entry_problems amount_problems expiry_problems Verify.time_left
    Verify.trim_0x set_string equal_fold fold sub64 scale64 ◌-ℤ◌
long_expired_passes = refl
