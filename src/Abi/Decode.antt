-- ===== src/Abi/Decode.antt =====
-- How the contract reads the arguments of a call, by the rules of the ABI: 32-byte words, numbers and
-- addresses in the low-order end, a dynamic value behind its length at the offset that its word gives.
use ferry_web.Prelude.Bytes.{Bytes, be_value}
use ferry_web.Prelude.{ℕ, zero, suc, take, drop}

abbrev pub word_at : ℕ → Bytes → Bytes
word_at zero args = take 32 args
word_at (suc i) args = word_at i (drop 32 args)

abbrev pub number_at : ℕ → Bytes → ℕ
number_at i args = be_value (word_at i args)

abbrev pub address_at : ℕ → Bytes → Bytes
address_at i args = drop 12 (word_at i args)

abbrev pub bytes_at : ℕ → Bytes → Bytes
bytes_at i args =
    let tail = drop (number_at i args) args in take (be_value (take 32 tail)) (drop 32 tail)

-- The arguments behind the four bytes of the method.
abbrev pub args_of : Bytes → Bytes
args_of call = drop 4 call

pub record CreateCall : Type 0 where
  pub hash_locked : Bytes
  pub expiration_time : ℕ
  pub hash_type : ℕ
  pub key_max_size : ℕ
  pub hash_lock : Bytes

abbrev pub decode_create : Bytes → CreateCall
decode_create call =
    let args = args_of call in
    record {
      hash_locked = address_at 0 args;
      expiration_time = number_at 1 args;
      hash_type = number_at 2 args;
      key_max_size = number_at 3 args;
      hash_lock = bytes_at 4 args;
    }

abbrev pub decode_unlock : Bytes → Bytes × Bytes
decode_unlock call = let args = args_of call in (word_at 0 args, bytes_at 1 args)

abbrev pub decode_reclaim : Bytes → Bytes
decode_reclaim call = word_at 0 (args_of call)
