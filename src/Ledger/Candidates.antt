-- ===== src/Ledger/Candidates.antt =====
-- wasm/znn/ledger.go: a create that the program packed, in the pages that FindHtlcCreates reads.
use ferry_web.Prelude.{
  ℕ, zero, suc, ◌+◌, ◌≤◌, ◌<◌, ◌≡◌, sym, subst, inl, inr, true, false, not, ◌||◌, Option, none,
  some, List, [], arith, ◌==◌, Bool-cases, length, is_empty, Within,
}
use ferry_web.Prelude.Int.{ℤ, pos}
use ferry_web.Prelude.Text.{Text, trim_space}
use ferry_web.Prelude.Bytes.{Bytes}
use ferry_web.Prelude.Result.{Result, ok, ok_inj, guard-eq-ok, Result-cases}
use ferry_web.Abi.Calls.{pack_create}
use ferry_web.Abi.Holds.{pack_create-Holds}
use ferry_web.Ledger.Scan.{hash_lock_size}
use ferry_web.Ledger.Preimage.{NodeError, bad_hash_size, no_creator}
use ferry_web.Ledger.Blocks.{
  BlockHead, Blocks, none_listed, AccountBlockList, to_htlc_contract, data_bytes,
}
use ferry_web.Ledger.Creates.{
  HtlcCandidate, candidate, candidates, Commits, collect_under, collect_under_are,
  candidates_complete, Within-append, subtrees, create_pages, find_htlc_creates,
}

module _ (base64 : Text → Option Bytes) where
  -- A block that sends the packed data of a create to the contract, and has a hash, commits to its hash lock.
  pub pack_create-Commits :
      (sha3 : Bytes → Bytes) (hash_locked : Bytes) (expires : ℤ) (hash_type key_max_size : ℕ)
      (h : Bytes) (b : BlockHead) {call : Bytes}
      → pack_create sha3 hash_locked expires hash_type key_max_size h ≡ ok call
      → to_htlc_contract b ≡ true
      → is_empty b.hash ≡ false
      → data_bytes base64 b ≡ call
      → Commits base64 h b
  pack_create-Commits sha3 hash_locked expires hash_type key_max_size h b made to_contract hashed
        carries =
      (
        to_contract,
        hashed,
        rw carries (pack_create-Holds sha3 hash_locked expires hash_type key_max_size h made),
      )

  under_keeps :
      (ds : Blocks) (h : Bytes) (found : List HtlcCandidate) (c : HtlcCandidate)
      → Within c found
      → Within c (collect_under base64 ds h found)
  under_keeps ds h found c w =
      subst (Within c) (sym (collect_under_are base64 ds h found))
        ((Within-append base64 c found (candidates base64 h (subtrees base64 ds))).1 (inl w))

  under_finds :
      (ds : Blocks) (h : Bytes) (found : List HtlcCandidate) (d : BlockHead)
      → Within d (subtrees base64 ds)
      → Commits base64 h d
      → Within (candidate d) (collect_under base64 ds h found)
  under_finds ds h found d w k =
      subst (Within (candidate d)) (sym (collect_under_are base64 ds h found)) (
        (Within-append base64 (candidate d) found (candidates base64 h (subtrees base64 ds))).1
          (inr (candidates_complete base64 h (subtrees base64 ds) d w k)))

  module _ (page_of : Text → ℕ → ℕ → Result NodeError AccountBlockList) where
    -- The page `k` of an address can be reached from the page `page`: those before it can be read, are
    -- not empty and say that there is more.
    pub data Shown (creator : Text) (size : ℕ) (k : ℕ) : ℕ → Type 0 where
      there : Shown creator size k k
      before :
          {page : ℕ} {list : AccountBlockList}
          → page_of creator page size ≡ ok list
          → list.more ≡ true
          → none_listed list.blocks ≡ false
          → Shown creator size k (suc page)
          → Shown creator size k page

    Shown-le : {creator : Text} {size k page : ℕ} → Shown creator size k page → page ≤ k
    Shown-le there = omega arith
    Shown-le (before good more full r) = omega (arith, Shown-le r)

    pages_keep :
        (creator : Text) (h : Bytes) (size left page : ℕ) (found cs : List HtlcCandidate)
        (c : HtlcCandidate)
        → create_pages base64 page_of creator h size left page found ≡ ok cs
        → Within c found
        → Within c cs
    unfolding create_pages
    pages_keep creator h size zero page found cs c e w = subst (Within c) (ok_inj e) w
    pages_keep creator h size (suc left) page found cs c e w =
        elim (Result-cases (page_of creator page size)) [
          | inr (x, unread) ↦ cc (rw (unread, create_pages) at e)
          | inl (list, read) ↦
              let found' = collect_under base64 list.blocks h found in
              let w' = under_keeps list.blocks h found c w in
              elim (Bool-cases (not list.more || none_listed list.blocks)) [
                | inl last ↦ subst (Within c) (ok_inj (rw (read, last, create_pages) at e)) w'
                | inr more ↦
                    pages_keep creator h size left (suc page) found' cs c
                      (rw (read, more, create_pages) at e) w'
              ]
        ]

    pages_find :
        (creator : Text) (h : Bytes) (size k left page : ℕ) (found cs : List HtlcCandidate)
        (list : AccountBlockList) (d : BlockHead)
        → Shown creator size k page
        → k < page + left
        → page_of creator k size ≡ ok list
        → Within d (subtrees base64 list.blocks)
        → Commits base64 h d
        → create_pages base64 page_of creator h size left page found ≡ ok cs
        → Within (candidate d) cs
    unfolding create_pages
    pages_find creator h size k zero page found cs list d r few read w commits e =
        absurd (omega (arith, few, Shown-le r))
    pages_find creator h size k (suc left) _ found cs list d there few read w commits e =
        let found' = collect_under base64 list.blocks h found in
        let w' = under_finds list.blocks h found d w commits in
        elim (Bool-cases (not list.more || none_listed list.blocks)) [
          | inl last ↦ subst (Within (candidate d)) (ok_inj (rw (read, last, create_pages) at e)) w'
          | inr more ↦
              pages_keep creator h size left (suc k) found' cs (candidate d)
                (rw (read, more, create_pages) at e) w'
        ]
    pages_find creator h size k (suc left) page found cs list d
          (before {list = shown} good more full r) few read w commits e =
        pages_find creator h size k left (suc page) (collect_under base64 shown.blocks h found) cs
          list d r (omega (arith, few)) read w commits (rw (good, more, full, create_pages) at e)

    -- A create that the program packed is found: where a block, at any depth of a page that the search
    -- reaches, sends the packed data to the contract, and has a hash, a search for the hash lock that
    -- ends without an error has that block among its candidates. The page is among those that
    -- are read, and the pages before it can be read, are not empty and say that there is more.
    pub pack_create-found :
        (sha3 : Bytes → Bytes) (hash_locked : Bytes) (expires : ℤ) (hash_type key_max_size : ℕ)
        (h : Bytes) (b : BlockHead) {call : Bytes} (creator : Text) (size k max_pages : ℕ)
        (list : AccountBlockList) (cs : List HtlcCandidate)
        → pack_create sha3 hash_locked expires hash_type key_max_size h ≡ ok call
        → to_htlc_contract b ≡ true
        → is_empty b.hash ≡ false
        → data_bytes base64 b ≡ call
        → Shown creator size k 0
        → k < max_pages
        → page_of creator k size ≡ ok list
        → Within b (subtrees base64 list.blocks)
        → find_htlc_creates base64 page_of creator h size max_pages ≡ ok cs
        → Within (record { id = b.hash; at = elim b.confirmed_at [ none ↦ pos 0 | some t ↦ t ] }) cs
    unfolding find_htlc_creates
    pack_create-found sha3 hash_locked expires hash_type key_max_size h b creator size k max_pages
          list cs made to_contract hashed carries shown few read w e =
        let (_, e1) = guard-eq-ok (length h == hash_lock_size) bad_hash_size _ e in
        let (_, e2) = guard-eq-ok (not (is_empty (trim_space creator))) no_creator _ e1 in
        pages_find creator h size k max_pages 0 [] cs list b shown (omega (arith, few)) read w
          (pack_create-Commits sha3 hash_locked expires hash_type key_max_size h b made to_contract
            hashed carries)
          e2
