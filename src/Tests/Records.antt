-- ===== src/Tests/Records.antt =====
-- The theorems on a create, a check of an entry and an offer at one input each.
use ferry_web.Prelude.{◌≡◌, refl, Bool, true, false, Option, none, some, [], ◌∷◌}
use ferry_web.Prelude.Int.{ℤ, pos, ◌+ℤ◌, ◌-ℤ◌}
use ferry_web.Prelude.Text.{Text, runes, trim_space}
use ferry_web.Prelude.Bytes.{Bytes}
use ferry_web.Prelude.Hex.{hex_encode}
use ferry_web.Prelude.Result.{ok}
use ferry_web.Swap.Record.{Swap, initiator, send, receive}
use ferry_web.Swap.Offer.{Offer, CreateParams}
use ferry_web.Swap.Decode.{OfferText, decode_offer}
use ferry_web.Swap.Wellformed.{IsWellformed, decode_offer-IsWellformed}
use ferry_web.Swap.Build.{Call, done, fails, panics}
use ferry_web.Store.Records.{Backing, load}
use ferry_web.Zenon.Entry.{HtlcInfo}
use ferry_web.Zenon.Verify
use ferry_web.Swap.Terms.{withdraw_stale_verdict}
use ferry_web.Zenon.Verify.{Verdict}
use ferry_web.Zenon.Rpc.{ZenonRpc}
use ferry_web.Manager.Entries.{Verification, checked, recovered, verify_zenon}
use ferry_web.Manager.Checked.{IsChecked, verify_zenon-IsChecked}
use ferry_web.Manager.Create.{Drawn, Libraries, create}
use ferry_web.Manager.Created.{IsCreated, create-IsCreated}
use ferry_web.Tests.Bitcoin.{btcd}
use ferry_web.Tests.Contracts.{pkh_b, hash}
use ferry_web.Tests.World.{packages, json, never_full, one_record, taker}
use ferry_web.Tests.Parties.{rpc, plain_bech32}

abbrev offer : Offer
offer = record {
  offer_version = pos 1;
  network = runes "mainnet";
  from_role = initiator;
  secret_hash = hex_encode hash;
  pkh = hex_encode pkh_b;
  btc_leg = send;
  amount_sats = pos 1000;
  lock_time = pos 0;
  zenon_addr = [];
  zenon_token = [];
  zenon_amt = runes "10";
  note = [];
}

abbrev offers : OfferText
offers = record {
  base64url = λ b. b;
  base64url_decode = λ t. some t;
  json = λ o. some (1 ∷ []);
  json_decode = λ b. some offer;
}

decodes : decode_offer offers plain_bech32 (runes "swapoffer1:x") ≡ done offer
unfolding decode_offer hex_encode
decodes = refl

decode_offer-IsWellformed_example : IsWellformed plain_bech32 offer
decode_offer-IsWellformed_example =
    decode_offer-IsWellformed offers plain_bech32 (runes "swapoffer1:x") offer decodes

abbrev pub libraries : Libraries
libraries = record {
  sha256 = λ m. m;
  txscript = btcd;
  btcd = packages;
  bech32 = plain_bech32;
  offers = offers;
  address = λ c n. some c;
}

abbrev pub drawn : Drawn
drawn = record {
  id = some (runes "a1");
  key = some (record { priv = []; pub_key = []; pkh = pkh_b });
  secret = some hash;
}

abbrev pub asked : CreateParams
asked = record {
  role = initiator;
  leg = receive;
  amount_sats = pos 100000;
  dest_addr = runes "d";
  lock_hours = pos 0;
  secret_hash_hex = [];
  counterparty_pkh_hex = [];
  zenon_self_address = [];
  zenon_peer_address = [];
  zenon_token = [];
  zenon_amount = [];
  offer = [];
}

abbrev pub now : ℤ
now = pos 1800000000000000000

abbrev pub result : {A : Type 0} → A → Call A → A
result d (done r) = r
result d _ = d

abbrev pub is_done : {A : Type 0} → Call A → Bool
is_done (done r) = true
is_done _ = false

pub done_result : {A : Type 0} (d : A) (c : Call A) → is_done c ≡ true → c ≡ done (result d c)
done_result d (done r) h = refl
done_result d (fails e) h = cc h
done_result d panics h = cc h

abbrev pub no_store : Backing
no_store k = none

unfoldable pub made : Backing × Swap
unfolding create
made =
    result (no_store, taker)
      (create libraries json never_full (runes "f.") now (runes "mainnet") drawn no_store asked)

creates :
    is_done
      (create libraries json never_full (runes "f.") now (runes "mainnet") drawn no_store asked)
    ≡ true
unfolding create ◌+ℤ◌ ◌-ℤ◌
creates = refl

pub creates_made :
    create libraries json never_full (runes "f.") now (runes "mainnet") drawn no_store asked
    ≡ done made
unfolding made
creates_made = done_result _ _ creates

create-IsCreated_example :
    IsCreated libraries json (runes "f.") (runes "mainnet") asked made.0 made.1
create-IsCreated_example =
    create-IsCreated libraries json never_full (runes "f.") now (runes "mainnet") drawn no_store
      asked made creates_made

abbrev pub entry : HtlcInfo
entry = record {
  id = runes "ab";
  time_locked = runes "z1b";
  hash_locked = runes "z1a";
  token_standard = runes "zts1znnxxxxxxxxxxxxx9z4ulx";
  amount = runes "1000000000";
  expiration_time = pos 1799992800;
  hash_type = pos 1;
  key_max_size = pos 32;
  hash_lock = hash;
}

abbrev entry_rpc : ZenonRpc
entry_rpc = record rpc { htlc_of = λ t. some entry }

abbrev base64 : Text → Option Bytes
base64 t = some t

abbrev wording : Verdict → Text
wording v = runes "refused"

abbrev saved_as : Verification → Swap
saved_as (checked s i v) = s
saved_as (recovered s) = s

abbrev verdict_of : Verification → Verdict
verdict_of (checked s i v) = v
verdict_of (recovered s) = Verify.verified

abbrev is_check : Call (Backing × Verification) → Bool
is_check (done (b, checked s i v)) = true
is_check _ = false

abbrev entry_of : Call (Backing × Verification) → HtlcInfo
entry_of (done (b, checked s i v)) = i
entry_of _ = entry

abbrev parts : Call (Backing × Verification) → Backing × Swap × Verdict
parts (done (b, v)) = (b, saved_as v, verdict_of v)
parts _ = (no_store, taker, Verify.verified)

done_parts :
    (c : Call (Backing × Verification))
    → is_check c ≡ true
    → c ≡ done ((parts c).0, checked (parts c).1 (entry_of c) (parts c).2)
done_parts (done (b, checked s i v)) h = refl
done_parts (done (b, recovered s)) h = cc h
done_parts (fails e) h = cc h
done_parts panics h = cc h

outcome : Call (Backing × Verification)
unfolding verify_zenon
outcome =
    verify_zenon base64 (λ m. m) wording json never_full (runes "f.") (some entry_rpc) now
      one_record (runes "a1") (runes "ab")

loads : load json never_full (runes "f.") now one_record (runes "a1") ≡ ok taker
unfolding load withdraw_stale_verdict
loads = refl

checks : is_check outcome ≡ true
unfolding outcome
checks = refl

verify_zenon-IsChecked_example :
    IsChecked base64
      (λ m. m)
      wording
      json
      never_full
      (runes "f.")
      entry_rpc
      now
      (trim_space (runes "ab"))
      (entry_of outcome)
      (parts outcome).2
      taker
      (parts outcome).0
      (parts outcome).1
unfolding outcome
verify_zenon-IsChecked_example =
    verify_zenon-IsChecked base64 (λ m. m) wording json never_full (runes "f.") entry_rpc now
      one_record (parts outcome).0 (runes "a1") (runes "ab") (entry_of outcome) (parts outcome).2
      taker (parts outcome).1 loads (done_parts outcome checks)
