-- ===== src/Wallet/Unlocks.antt =====
-- wasm/walletblock.go: when planUnlock proposes a call, and which.
use ferry_web.Prelude.{
  ◌^◌, ◌<◌, ◌≡◌, refl, sym, ap, true, false, not, some, List, [], ◌∷◌, arith, length, is_empty,
}
use ferry_web.Prelude.Int.{ℤ}
use ferry_web.Prelude.Text.{Text, runes, trim_space}
use ferry_web.Prelude.Bytes.{Bytes}
use ferry_web.Prelude.Hex.{hex_decode}
use ferry_web.Prelude.Result.{Result, ok, err}
use ferry_web.Abi.Calls.{IsDigest, pack_unlock}
use ferry_web.Abi.Decode.{decode_unlock}
use ferry_web.Abi.Method.{Calls, pack_unlock-Calls}
use ferry_web.Abi.RoundTrip.{pack_unlock-decode}
use ferry_web.Swap.Record.{Swap}
use ferry_web.Swap.Roles.{zenon_htlc_is_ours}
use ferry_web.Swap.Terms.{missing_zenon_terms}
use ferry_web.Swap.Build.{
  SwapError, Call, done, ◌>>=◌, done_inj, check-then, or_fails-then, zenon_is_ours, call_refused,
  secret_unknown, no_htlc_id, terms_missing, not_verified, entry_gone, entry_refused, bad_hex,
}
use ferry_web.Zenon.Entry.{HtlcInfo}
use ferry_web.Zenon.Rpc.{ZenonRpc, get_htlc_by_id}
use ferry_web.Zenon.Verify
use ferry_web.Zenon.Verify.{Verdict, VerifyParams, verify}
use ferry_web.Zenon.Verdict.{Matches}
use ferry_web.Zenon.Sound.{verify-Matches}
use ferry_web.Manager.Entries.{zenon_expectations, is_verified}
use ferry_web.Wallet.Block.{Plan}
use ferry_web.Wallet.Plan.{Encodings, of_result, plan_unlock}

module _ {B : Type 0} {P : Type 0} {b : B} where
  pub of_result-then :
      {E A : Type 0} (r : Result E A) (e : SwapError) (f : A → Call B)
      → (of_result r e >>= f) ≡ done b
      → ((a : A) → r ≡ ok a → f a ≡ done b → P)
      → P
  of_result-then (ok a) e f h next = next a refl h
  of_result-then (err x) e f h next = cc

is_verified-eq : (v : Verdict) → is_verified v ≡ true → v ≡ Verify.verified
is_verified-eq Verify.verified h = refl
is_verified-eq (Verify.refused a b) h = cc h

empty-nil : {A : Type 0} (xs : List A) → is_empty xs ≡ true → xs ≡ []
empty-nil [] h = refl
empty-nil (x ∷ xs) h = cc h

abbrev pub expected : Encodings → ZenonRpc → ℤ → Swap → VerifyParams
unfolding zenon_expectations
expected e z now s = record (zenon_expectations e.base64_decode e.sha256 e.wording z now s).0 {
  expect_id = trim_space s.zenon.htlc_id;
}

-- An unlock that may be signed.
pub record IsUnlock (e : Encodings) (z : ZenonRpc) (now : ℤ) (s : Swap) (data_text : Text)
    : Type 0 where
  pub theirs : zenon_htlc_is_ours s ≡ false
  pub verified : s.zenon.verified ≡ true
  pub complete : missing_zenon_terms s ≡ []
  pub entry : HtlcInfo
  pub read : get_htlc_by_id z (trim_space s.zenon.htlc_id) ≡ ok entry
  pub agreed : Matches e.base64_decode entry (expected e z now s)
  pub id : Bytes
  pub is_id : hex_decode (trim_space s.zenon.htlc_id) ≡ some id
  pub call : Bytes
  pub is_call : data_text ≡ e.base64_encode call
  pub method : Calls e.sha3 (runes "Unlock(hash,bytes)") call
  pub decoded : decode_unlock call ≡ (id, s.secret)

module _ (e : Encodings) (z : ZenonRpc) where
  -- An unlock is proposed only of the counterparty's entry, where the record has every agreed term and
  -- has it verified, and where the node, asked again for that entry, returns one that matches the
  -- expectations of the record. The call that is to be signed starts with the method id of
  -- Unlock(hash,bytes), and its arguments, as the contract reads them, are that id and the swap's secret.
  -- A digest of SHA3-256 has 32 bytes.
  pub plan_unlock-IsUnlock :
      IsDigest e.sha3
      → (now : ℤ) (s : Swap) (plan plan' : Plan) → length s.secret < 2 ^ 64
      → plan_unlock e z now s plan ≡ done plan'
      → IsUnlock e z now s plan'.block.data_text
  unfolding plan_unlock
  plan_unlock-IsUnlock digest now s plan plan' short h =
      check-then (not (zenon_htlc_is_ours s)) zenon_is_ours _ h λ theirs h₁.
        check-then (not (is_empty s.secret)) secret_unknown _ h₁ λ _ h₂.
          check-then (not (is_empty (trim_space s.zenon.htlc_id))) no_htlc_id _ h₂ λ _ h₃.
            check-then (is_empty (missing_zenon_terms s)) terms_missing _ h₃ λ complete h₄.
              check-then s.zenon.verified not_verified _ h₄ λ verified h₅.
                of_result-then (get_htlc_by_id z (trim_space s.zenon.htlc_id)) entry_gone _ h₅
                  λ info read h₆.
                    check-then (is_verified (verify e.base64_decode info (expected e z now s)))
                      entry_refused _ h₆
                      λ passes h₇.
                        or_fails-then (hex_decode (trim_space s.zenon.htlc_id)) bad_hex _ h₇
                          λ id is_id h₈.
                            of_result-then (pack_unlock e.sha3 id s.secret) call_refused _ h₈
                              λ call packed h₉. record {
                                theirs = ground (arith, theirs);
                                verified = verified;
                                complete = empty-nil (missing_zenon_terms s) complete;
                                entry = info;
                                read = read;
                                agreed =
                                    (verify-Matches e.base64_decode info (expected e z now s)).0
                                      (is_verified-eq _ passes);
                                id = id;
                                is_id = is_id;
                                call = call;
                                is_call = sym (ap (λ (q : Plan). q.block.data_text) (done_inj h₉));
                                method = pack_unlock-Calls e.sha3 digest id s.secret packed;
                                decoded = pack_unlock-decode e.sha3 digest id s.secret short packed;
                              }
