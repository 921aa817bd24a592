-- ===== src/Ledger/Blocks.antt =====
-- wasm/znn/ledger.go: AccountBlock and what is read off one block. Base64 is the parameter `base64`.
use ferry_web.Prelude.Bytes.{Bytes}
use ferry_web.Prelude.{ℕ, Bool, true, false, Option, none, some, [], ◌==◌, if◌then◌else◌, is_empty}
use ferry_web.Prelude.Int.{ℤ}
use ferry_web.Prelude.Text.{Text, runes, trim_left, trim_right, trim_space, equal_fold}

pub record BlockHead : Type 0 where
  pub hash : Text
  pub address : Text
  pub to_address : Text
  pub block_type : ℕ
  pub height : ℕ
  pub payload : Text
  pub from_block_hash : Text
  pub confirmed_at : Option ℤ

-- A slice of pointers to blocks, where a pointer may be nil.
mutual
  pub data AccountBlock : Type 0 where
    account_block : BlockHead → Blocks → AccountBlock

  pub data Blocks : Type 0 where
    no_blocks : Blocks
    nil_block : Blocks → Blocks
    block : AccountBlock → Blocks → Blocks

abbrev pub head : AccountBlock → BlockHead
head (account_block b ds) = b

abbrev pub descendants : AccountBlock → Blocks
descendants (account_block b ds) = ds

-- len(list.List) == 0.
abbrev pub none_listed : Blocks → Bool
none_listed no_blocks = true
none_listed _ = false

pub record AccountBlockList : Type 0 where
  pub blocks : Blocks
  pub count : ℕ
  pub more : Bool

abbrev pub htlc_contract_address : Text
htlc_contract_address = runes "z1qxemdeddedxhtlcxxxxxxxxxxxxxxxxxygecvw"

unfoldable pub to_htlc_contract : BlockHead → Bool
unfolding equal_fold
to_htlc_contract b = equal_fold b.to_address htlc_contract_address

unfoldable pub data_bytes : (Text → Option Bytes) → BlockHead → Bytes
data_bytes base64 b =
    if is_empty b.payload then [] else elim (base64 b.payload) [ some raw ↦ raw | none ↦ [] ]

-- What is found of a payout hangs off the receive.
unfoldable pub pays_to : Blocks → Text → Bool
pays_to no_blocks addr = false
pays_to (nil_block ds) addr = pays_to ds addr
pays_to (block d ds) addr =
    let rest = pays_to ds addr in
    if equal_fold (trim_space (head d).to_address) (trim_space addr) then true else rest

unfoldable pub is_zero_hash : Text → Bool
is_zero_hash h =
    let trimmed = trim_space h in
    if is_empty trimmed
    then true
    else is_empty (trim_right (λ c. c == 48) (trim_left (λ c. c == 48) trimmed))
