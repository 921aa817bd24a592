-- ===== src/Ledger/Found.antt =====
-- wasm/znn/ledger.go: what FindPreimage finds, and when it finds it.
use ferry_web.Prelude.Bytes.{Bytes}
use ferry_web.Prelude.Result.{Result, ok, guard-eq-ok, Result-cases}
use ferry_web.Abi.Holds.{Holds}
use ferry_web.Ledger.Blocks.{
  AccountBlock, head, descendants, Blocks, no_blocks, nil_block, block, none_listed,
  AccountBlockList, htlc_contract_address, pays_to, is_zero_hash,
}
use ferry_web.Ledger.Search.{
  search_block, search_descendants, search_block_sound, search_block_complete, calls,
  first_scan_sound, search_descendants_first, calls_under,
}
use ferry_web.Ledger.Preimage.{
  NodeError, bad_hash_size, preimage_from_sends, search_receive, search_receives, contract_pages,
  preimage_from_contract, find_preimage,
}
use ferry_web.Prelude.{
  ℕ, zero, suc, ◌+◌, ◌≤◌, ◌<◌, ◌≡◌, refl, sym, ◌∙◌, ◌≢◌, ◌⊎◌, inl, inr, true, false, Option, none,
  some, arith, ◌==◌, ==_iff, Bool-cases, Option-cases, length, is_empty, Within,
}
use ferry_web.Prelude.Text.{Text, trim_space}

-- A block of a page, past the nil pointers.
abbrev pub Listed : AccountBlock → Blocks → Type 0
Listed b no_blocks = ⊥
Listed b (nil_block bs) = Listed b bs
Listed b (block x bs) = (b ≡ x) ⊎ Listed b bs

Listed-false : (b : AccountBlock) (bs : Blocks) → Listed b bs → none_listed bs ≡ false
Listed-false b no_blocks w = absurd w
Listed-false b (nil_block bs) w = refl
Listed-false b (block x bs) w = refl

module _ (sha256 : Bytes → Bytes) (base64 : Text → Option Bytes)
    (page_of : Text → ℕ → ℕ → Result NodeError AccountBlockList)
    (block_of : Text → Result NodeError AccountBlock) where
  abbrev IsPreimage : Bytes → Bytes → Type 0
  IsPreimage q h = (sha256 q ≡ h) × (length q ≡ 32)

  descendants_sound :
      (ds : Blocks) (h q : Bytes) → search_descendants sha256 base64 ds h ≡ some q → IsPreimage q h
  descendants_sound ds h q e =
      let (hashes, size, d, w, holds) =
        first_scan_sound sha256 base64 (calls_under sha256 base64 ds) h q
          (sym (search_descendants_first sha256 base64 ds h) ∙ e) in
      (hashes, size)

  sends_sound :
      (u : Text) (h : Bytes) (size left page : ℕ) (q : Bytes)
      → preimage_from_sends sha256 base64 page_of block_of u h size left page ≡ ok q
      → IsPreimage q h
  unfolding preimage_from_sends
  sends_sound u h size zero page q e = cc
  sends_sound u h size (suc left) page q e =
      grind (arith, sends_sound u h size left (suc page) q, descendants_sound)

  block_sound :
      (b : AccountBlock) (h q : Bytes) → search_block sha256 base64 b h ≡ some q → IsPreimage q h
  block_sound b h q e =
      let (hashes, size, d, w, holds) = search_block_sound sha256 base64 b h q e in (hashes, size)

  receive_sound :
      (p : Text) (h : Bytes) (b : AccountBlock) (q : Bytes)
      → search_receive sha256 base64 page_of block_of p h b ≡ some q
      → IsPreimage q h
  unfolding search_receive
  receive_sound p h b q e = elim (Result-cases (block_of (head b).from_block_hash)) [
    | inl (caller, read) ↦ ground (arith, read, block_sound caller h q)
    | inr (x, unread) ↦ ground (arith, unread)
  ]

  receives_sound :
      (p : Text) (h : Bytes) (bs : Blocks) (q : Bytes)
      → search_receives sha256 base64 page_of block_of p h bs ≡ some q
      → IsPreimage q h
  unfolding search_receives
  receives_sound p h no_blocks q e = cc
  receives_sound p h (nil_block bs) q e = receives_sound p h bs q e
  receives_sound p h (block b bs) q e =
      ground (arith, receive_sound p h b q, receives_sound p h bs q)

  pages_sound :
      (p : Text) (h : Bytes) (size left page : ℕ) (q : Bytes)
      → contract_pages sha256 base64 page_of block_of p h size left page ≡ ok q
      → IsPreimage q h
  unfolding contract_pages
  pages_sound p h size zero page q e = cc
  pages_sound p h size (suc left) page q e =
      grind (arith, pages_sound p h size left (suc page) q, receives_sound)

  -- Whatever the node answers, a secret that is found is 32 bytes long and hashes to the swap's hash.
  pub find_preimage_sound :
      (payee : Text) (h : Bytes) (size max_pages : ℕ) (q : Bytes)
      → find_preimage sha256 base64 page_of block_of payee h size max_pages ≡ ok q
      → (sha256 q ≡ h) × (length q ≡ 32) × (length h ≡ 32)
  unfolding find_preimage preimage_from_contract
  find_preimage_sound payee h size max q e =
      let (sized, found) = guard-eq-ok (length h == 32) bad_hash_size _ e in
      let p = trim_space payee in
      let (hashes, len) : IsPreimage q h =
        ground (arith, sends_sound p h size max 0 q, pages_sound (trim_space p) h size max 0 q) in
      (hashes, len, (==_iff (length h) 32).0 sized)

  -- A receive on the contract's chain whose caller's transaction carries the preimage `p`, and that pays
  -- the payee where one is given.
  pub record Unlock (payee : Text) (p : Bytes) (b : AccountBlock) : Type 0 where
    pub linked : is_zero_hash (head b).from_block_hash ≡ false
    pub pays : (is_empty payee ≡ true) ⊎ (pays_to (descendants b) payee ≡ true)
    pub caller : AccountBlock
    pub readable : block_of (head b).from_block_hash ≡ ok caller
    pub call : Bytes
    pub is_call : Within call (calls sha256 base64 caller)
    pub holds : Holds call p

  receive_complete :
      (payee : Text) (h p : Bytes) (b : AccountBlock)
      → Unlock payee p b
      → length p ≡ 32
      → sha256 p ≡ h
      → search_receive sha256 base64 page_of block_of payee h b ≢ none
  unfolding search_receive
  receive_complete payee h p b u size e n =
      let found =
        search_block_complete sha256 base64 u.caller h u.call p u.is_call u.holds size e in
      ground (arith, u.linked, u.pays, u.readable, found)

  receives_complete :
      (payee : Text) (h p : Bytes) (b : AccountBlock) (bs : Blocks)
      → Listed b bs
      → Unlock payee p b
      → length p ≡ 32
      → sha256 p ≡ h
      → search_receives sha256 base64 page_of block_of payee h bs ≢ none
  unfolding search_receives
  receives_complete payee h p b no_blocks w u size e n = absurd w
  receives_complete payee h p b (nil_block bs) w u size e n =
      receives_complete payee h p b bs w u size e n
  receives_complete payee h p b (block x bs) w u size e n =
      elim (Option-cases (search_receive sha256 base64 page_of block_of payee h x)) [
        | inr (q, s) ↦ cc (rw (s, search_receives) at n)
        | inl missed ↦ elim w [
          | inl same ↦ receive_complete payee h p b u size e (rw (sym same) at missed)
          | inr later ↦
              receives_complete payee h p b bs later u size e (rw (missed, search_receives) at n)
        ]
      ]

  -- The page `k` of the contract's chain can be reached from the page `page`: those before it can be
  -- read, are not empty and say that there is more.
  pub data Reached (size : ℕ) (k : ℕ) : ℕ → Type 0 where
    there : Reached size k k
    before :
        {page : ℕ} {list : AccountBlockList}
        → page_of htlc_contract_address page size ≡ ok list
        → list.more ≡ true
        → none_listed list.blocks ≡ false
        → Reached size k (suc page)
        → Reached size k page

  Reached-le : {size k page : ℕ} → Reached size k page → page ≤ k
  Reached-le there = omega arith
  Reached-le (before good more full r) = omega (arith, Reached-le r)

  pages_complete :
      (payee : Text) (h p : Bytes) (b : AccountBlock) (list : AccountBlockList)
      (size k page left : ℕ)
      → Reached size k page
      → k < page + left
      → page_of htlc_contract_address k size ≡ ok list
      → Listed b list.blocks
      → Unlock payee p b
      → length p ≡ 32
      → sha256 p ≡ h
      → (q : Bytes) × (contract_pages sha256 base64 page_of block_of payee h size left page ≡ ok q)
  unfolding contract_pages
  pages_complete payee h p b list size k _ zero there few read w u len e = absurd (omega arith)
  pages_complete payee h p b list size k _ (suc left) there few read w u len e =
      elim (Option-cases (search_receives sha256 base64 page_of block_of payee h list.blocks)) [
        | inl missed ↦ absurd (receives_complete payee h p b list.blocks w u len e missed)
        | inr (q, s) ↦ (q, rw (contract_pages, read) (rw s refl))
      ]
  pages_complete payee h p b list size k page zero (before good more full r) few read w u len e =
      absurd (omega (arith, Reached-le r))
  pages_complete payee h p b list size k page (suc left) (before {list = shown} good more full r)
        few read w u len e =
      elim (Option-cases (search_receives sha256 base64 page_of block_of payee h shown.blocks)) [
        | inl missed ↦
            let (q, next) =
              pages_complete payee h p b list size k (suc page) left r (omega arith) read w u len
                e in
            (q, rw (contract_pages, good) (rw missed (rw (more, full) next)))
        | inr (q, s) ↦ (q, rw (contract_pages, good) (rw s refl))
      ]

  find_any :
      (payee : Text) (h : Bytes) (size max_pages : ℕ) {q : Bytes}
      → length h ≡ 32
      → contract_pages sha256 base64 page_of block_of
          (trim_space (trim_space payee))
          h
          size
          max_pages
          0
        ≡ ok q
      → (q' : Bytes) × (find_preimage sha256 base64 page_of block_of payee h size max_pages ≡ ok q')
  unfolding find_preimage preimage_from_contract
  find_any payee h size max {q} sized found =
      elim (Result-cases
        (preimage_from_sends sha256 base64 page_of block_of (trim_space payee) h size max 0)) [
          | inl (q', sent) ↦ elim (Bool-cases (is_empty (trim_space payee))) [
            | inl blank ↦ (q, ground (arith, sized, found))
            | inr given ↦ (q', ground (arith, sized, sent))
          ]
          | inr (x, unsent) ↦ (q, ground (arith, sized, found, unsent))
        ]

  -- An unlock that the contract received is found from its side, whoever published it. The payee may be
  -- blank; where it is not, the receive pays it. The page of the receive is among the pages that are read,
  -- and the pages before it can be read, are not empty and say that there is more.
  pub find_preimage_complete :
      (payee : Text) (h p : Bytes) (b : AccountBlock) (list : AccountBlockList)
      (size k max_pages : ℕ)
      → Reached size k 0
      → k < max_pages
      → page_of htlc_contract_address k size ≡ ok list
      → Listed b list.blocks
      → Unlock (trim_space (trim_space payee)) p b
      → length p ≡ 32
      → sha256 p ≡ h
      → length h ≡ 32
      → (q : Bytes) × (find_preimage sha256 base64 page_of block_of payee h size max_pages ≡ ok q)
        × (sha256 q ≡ h)
  find_preimage_complete payee h p b list size k max r few read w u len e sized =
      let (q, found) =
        pages_complete (trim_space (trim_space payee)) h p b list size k 0 max r (omega arith) read
          w u len e in
      let (q', found') = find_any payee h size max sized found in
      (q', found', (find_preimage_sound payee h size max q' found').0)
