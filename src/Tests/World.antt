-- ===== src/Tests/World.antt =====
-- Small stand-ins for the packages, the node and the store, and a swap of each side.
use ferry_web.Prelude.{◌*◌, ap, Bool, true, false, Option, none, some, [], ◌∷◌, ltb}
use ferry_web.Prelude.Int.{ℤ, pos}
use ferry_web.Prelude.Text.{Text, runes}
use ferry_web.Prelude.Hex.{hex_encode, hex_decode}
use ferry_web.Swap.Record.{Swap, FundingOutput, participant, receive, funded}
use ferry_web.Store.Records.{Json, Backing}
use ferry_web.Bitcoin.Rate.{Floats}
use ferry_web.Bitcoin.Tx.{TxOut, Tx, Btcd}
use ferry_web.Watch.Backend.{Status, Utxo, Backend, Packages}
use ferry_web.Outcome.Lands.{IsReadable}
use ferry_web.Tests.Bitcoin.{btcd}
use ferry_web.Tests.Contracts.{pkh_b, hash, contract}
use ferry_web.Tests.Swaps.{alice}

abbrev pub output : TxOut
output = record { value = pos 100000; pk_script = 0xa9 ∷ contract }

abbrev pub funding_tx : Tx
funding_tx = record { version = 2; tx_in = []; tx_out = output ∷ []; lock_time = 0 }

abbrev pub packages : Btcd
packages = record {
  deserialize = λ raw. some (funding_tx, []);
  serialize = λ tx. 1 ∷ 2 ∷ [];
  stripped_size = λ tx. 330;
  full_size = λ tx. 330;
  tx_hash = λ tx. 0xab ∷ [];
  hash_string = hex_encode;
  hash_from_str = hex_decode;
  script_hash_address = λ c n. some c;
  decode_address = λ t n. some t;
  is_for_net = λ a n. true;
  pay_to_addr_script = λ a. some (0xa9 ∷ a);
  sign = λ tx c k. some (48 ∷ []);
  executes = λ s v tx. true;
}

-- A rate is taken for its bits, which order floats that are not negative.
abbrev pub floats : Floats
floats = record {
  of_int = λ n. n;
  add = λ a b. a;
  mul = λ a b. b;
  lt = ltb;
  is_inf = λ a. false;
  to_int64 = λ a. pos (a * 2);
}

abbrev pub world : Packages
world = record {
  sha256 = λ m. m;
  base64 = λ t. none;
  pushed_data = λ s. none;
  txscript = btcd;
  btcd = packages;
  floats = floats;
}

abbrev pub mined : Status
mined = record { confirmed = true; block_height = pos 100; block_hash = []; block_time = pos 0 }

abbrev pub utxo : ℤ → Utxo
utxo v = record { tx_id = runes "ab"; vout = 0; value = v; status = mined }

abbrev pub node : Backend
node = record {
  tip_height = some (pos 101);
  address_utxos = λ a. some (utxo (pos 5) ∷ utxo (pos 100000) ∷ []);
  raw_tx = λ t. some (runes "00");
  tx_status = λ t. some mined;
  outspend_of = λ t v. none;
  fee_rate = λ n. none;
  block_hash_at = λ n. some (runes "00ff");
  broadcast = λ r. some (runes "cd");
}

abbrev pub deposit : FundingOutput
deposit = record {
  tx_id = runes "ab";
  vout = 0;
  value = pos 100000;
  confirmed = true;
  block_height = pos 100;
  confirmations = pos 1;
  pk_script_hex = [];
}

abbrev pub taker : Swap
taker = record alice {
  role = participant;
  leg = receive;
  state = funded;
  secret = hash;
  key = some (record { priv = []; pub_key = []; pkh = pkh_b });
  contract = contract;
  amount_sats = pos 100000;
  dest_addr = runes "d";
  funding = some deposit;
  zenon = record alice.zenon { verified = false };
}

abbrev pub giver : Swap
giver = record alice {
  state = funded;
  contract = contract;
  amount_sats = pos 100000;
  dest_addr = runes "d";
  funding = some deposit;
  zenon = record alice.zenon { verified = false };
}

-- A stand-in for the JSON of records: every text is the record `taker`, at version 0.
abbrev pub json : Json
json = record { encode = λ s. []; decode = λ t. some taker; version_of = λ t. some (pos 0) }

abbrev pub version_in : Option Swap → Option ℤ
version_in none = none
version_in (some s) = some s.version

pub json-IsReadable : IsReadable json
json-IsReadable = record { version_of-decode = λ x s e. ap (λ (o : Option Swap). version_in o) e }

abbrev pub never_full : Backing → Text → Text → Bool
never_full b k v = false

abbrev pub one_record : Backing
one_record k = some []
