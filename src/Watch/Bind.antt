-- ===== src/Watch/Bind.antt =====
-- wasm/manager.go: bindFunding and loggedOnce.
use ferry_web.Prelude.{
  ℕ, Bool, true, false, ◌||◌, Option, none, some, List, [], ◌∷◌, ◌==◌, if◌then◌else◌, get_elem?,
  is_empty,
}
use ferry_web.Prelude.Int.{ℤ, eqb_ℤ}
use ferry_web.Prelude.Text.{Text, equal_fold}
use ferry_web.Prelude.Bytes.{Bytes}
use ferry_web.Prelude.Hex.{hex_encode}
use ferry_web.Prelude.Result.{Result, ok, err, ◌>>=◌, ◌>>◌, guard, or_err}
use ferry_web.Swap.Record.{
  Swap, FundingOutput, Network, Event, Message, Note, note, no_binding, no_destination,
  no_preimage_yet, funding_mismatch, log,
}
use ferry_web.Swap.Commit.{binds_to}
use ferry_web.Bitcoin.Tx.{Btcd, decode_raw_tx, contract_pk_script}
use ferry_web.Watch.Backend.{Backend}

abbrev note_id : Note → ℕ
note_id no_binding = 0
note_id no_destination = 1
note_id no_preimage_yet = 2
note_id funding_mismatch = 3

abbrev says : Note → Message → Bool
says n (note m) = note_id n == note_id m
says _ _ = false

logged_in : Note → List Event → Bool
logged_in n [] = false
logged_in n (e ∷ es) = says n e.message || logged_in n es

unfoldable pub logged_once : Swap → Note → Bool
unfolding logged_in
logged_once s n = logged_in n s.events

-- if !loggedOnce(sw, note) { sw.log(note) }
unfoldable pub note_once : ℤ → Note → Swap → Swap
unfolding logged_once log
note_once now n s = if logged_once s n then s else log now (note n) s

pub data BindError : Type 0 where
  fetch_failed bad_raw other_tx no_such_output other_value no_script mismatched unbound : BindError

abbrev pub is_mismatch : BindError → Bool
is_mismatch mismatched = true
is_mismatch _ = false

module _ (d : Btcd) (b : Backend) where
  -- The script of the funding output, from the transaction itself.
  unfoldable pub funding_script : FundingOutput → Result BindError Bytes
  unfolding decode_raw_tx equal_fold
  funding_script f = do
    raw ← or_err (b.raw_tx f.tx_id) fetch_failed
    tx ← or_err (decode_raw_tx d raw) bad_raw
    guard (equal_fold (d.hash_string (d.tx_hash tx)) f.tx_id) other_tx
    out ← or_err (get_elem? tx.tx_out f.vout) no_such_output
    guard (eqb_ℤ out.value f.value) other_value
    ok out.pk_script

  unfoldable pub compare_binding : FundingOutput → Bytes → Network → Option BindError
  unfolding binds_to contract_pk_script
  compare_binding f contract params = elim (binds_to (contract_pk_script d) f contract params) [
    | none ↦ some no_script
    | some bound ↦ if bound then none else some unbound
  ]

  -- A script that was read is recorded where it is the contract's.
  unfoldable pub record_script : ℤ → Network → FundingOutput → Text → Swap → Option BindError × Swap
  unfolding contract_pk_script hex_encode equal_fold note_once compare_binding
  record_script now params f got s = elim (contract_pk_script d s.contract params) [
    | none ↦ (some no_script, s)
    | some want ↦
        if equal_fold got (hex_encode want)
        then (let f' = record f { pk_script_hex = got } in
            (compare_binding f' s.contract params, record s { funding = some f' }))
        else (some mismatched, note_once now funding_mismatch s)
  ]

  unfoldable pub bind_read :
      ℤ → Network → FundingOutput → Result BindError Bytes → Swap → Option BindError × Swap
  unfolding record_script hex_encode
  bind_read now params f (err e) s = (some e, s)
  bind_read now params f (ok script) s = record_script now params f (hex_encode script) s

  -- On the funding output that the record has.
  unfoldable pub bind_output : ℤ → Network → Option FundingOutput → Swap → Option BindError × Swap
  unfolding funding_script compare_binding bind_read
  bind_output now params none s = (none, s)
  bind_output now params (some f) s =
      if is_empty f.pk_script_hex
      then bind_read now params f (funding_script f) s
      else (compare_binding f s.contract params, s)

  -- The error, `none` for nil, and the record as it is left.
  unfoldable pub bind_funding : ℤ → Network → Swap → Option BindError × Swap
  unfolding bind_output
  bind_funding now params s = bind_output now params s.funding s
