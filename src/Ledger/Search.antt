-- ===== src/Ledger/Search.antt =====
-- wasm/znn/ledger.go: searchBlock.
use ferry_web.Prelude.Bytes.{Bytes}
use ferry_web.Abi.Holds.{Holds}
use ferry_web.Ledger.Scan.{scan_for_preimage, scan_sound, scan_complete}
use ferry_web.Ledger.Blocks.{
  AccountBlock, account_block, Blocks, no_blocks, nil_block, block, to_htlc_contract, data_bytes,
}
use ferry_web.Prelude.{
  ◌≡◌, refl, sym, ap, ◌∙◌, ◌≢◌, inl, inr, Option, none, some, List, [], ◌∷◌, ◌++◌, arith,
  if◌then◌else◌, Option-cases, length, Within,
}
use ferry_web.Prelude.Text.{Text}

module _ (sha256 : Bytes → Bytes) (base64 : Text → Option Bytes) where
  unfoldable mutual
    pub search_block : AccountBlock → Bytes → Option Bytes
    search_block (account_block b ds) h =
        let under = search_descendants ds h in
        if to_htlc_contract b
        then elim (scan_for_preimage sha256 (data_bytes base64 b) h) [
          | some secret ↦ some secret
          | none ↦ under
        ]
        else under

    pub search_descendants : Blocks → Bytes → Option Bytes
    search_descendants no_blocks h = none
    search_descendants (nil_block ds) h = search_descendants ds h
    search_descendants (block d ds) h =
        let rest = search_descendants ds h in
        elim (search_block d h) [ some secret ↦ some secret | none ↦ rest ]

  -- The data of every call into the contract, in a block and in those under it.
  unfoldable mutual
    pub calls : AccountBlock → List Bytes
    calls (account_block b ds) =
        let under = calls_under ds in
        if to_htlc_contract b then data_bytes base64 b ∷ under else under

    pub calls_under : Blocks → List Bytes
    calls_under no_blocks = []
    calls_under (nil_block ds) = calls_under ds
    calls_under (block d ds) = calls d ++ calls_under ds

  -- The first call in which a preimage stands.
  pub first_scan : List Bytes → Bytes → Option Bytes
  first_scan [] h = none
  first_scan (d ∷ ds) h =
      let rest = first_scan ds h in
      elim (scan_for_preimage sha256 d h) [ some secret ↦ some secret | none ↦ rest ]

  first_scan-append :
      (xs ys : List Bytes) (h : Bytes)
      → first_scan (xs ++ ys) h
        ≡ elim (first_scan xs h) [ some s ↦ some s | none ↦ first_scan ys h ]
  unfolding first_scan
  first_scan-append [] ys h = refl
  first_scan-append (x ∷ xs) ys h = ground (arith, first_scan-append xs ys h)

  mutual
    unfolding search_block search_descendants calls calls_under first_scan

    search_block_first : (b : AccountBlock) (h : Bytes) → search_block b h ≡ first_scan (calls b) h
    search_block_first (account_block b ds) h = ground (arith, search_descendants_first ds h)

    pub search_descendants_first :
        (ds : Blocks) (h : Bytes) → search_descendants ds h ≡ first_scan (calls_under ds) h
    search_descendants_first no_blocks h = refl
    search_descendants_first (nil_block ds) h = search_descendants_first ds h
    search_descendants_first (block d ds) h = ground (
      arith,
      first_scan-append (calls d) (calls_under ds) h,
      search_block_first d h,
      search_descendants_first ds h,
    )

  pub first_scan_sound :
      (ds : List Bytes) (h q : Bytes)
      → first_scan ds h ≡ some q
      → (sha256 q ≡ h) × (length q ≡ 32) × (d : Bytes) × Within d ds × Holds d q
  unfolding first_scan
  first_scan_sound [] h q e = cc
  first_scan_sound (d ∷ ds) h q e = elim (Option-cases (scan_for_preimage sha256 d h)) [
    | inl n ↦
        let (hashes, size, d', w, holds) = first_scan_sound ds h q (rw (n, first_scan) at e) in
        (hashes, size, d', inr w, holds)
    | inr (p, s) ↦
        let same : p ≡ q = cc (rw (s, first_scan) at e) in
        let (hashes, size, xs, ys, split) = scan_sound sha256 d h q (s ∙ ap some same) in
        (hashes, size, d, inl refl, (xs, ys, split))
  ]

  first_scan_complete :
      (ds : List Bytes) (d p h : Bytes)
      → Within d ds
      → Holds d p
      → length p ≡ 32
      → sha256 p ≡ h
      → first_scan ds h ≢ none
  unfolding first_scan
  first_scan_complete [] d p h w holds size e n = absurd w
  first_scan_complete (x ∷ ds) d p h w (xs, ys, split) size e n =
      elim (Option-cases (scan_for_preimage sha256 x h)) [
        | inl missed ↦ elim w [
          | inl same ↦ scan_complete sha256 xs p ys h size e (rw (sym same ∙ split) at missed)
          | inr later ↦
              first_scan_complete ds d p h later (xs, ys, split) size e
                (rw (missed, first_scan) at n)
        ]
        | inr (q, s) ↦ cc (rw (s, first_scan) at n)
      ]

  -- What a search of a block finds is a preimage of 32 bytes that stands in the data of a call into the
  -- contract, in the block or under it at any depth.
  pub search_block_sound :
      (b : AccountBlock) (h q : Bytes)
      → search_block b h ≡ some q
      → (sha256 q ≡ h) × (length q ≡ 32) × (d : Bytes) × Within d (calls b) × Holds d q
  search_block_sound b h q e = first_scan_sound (calls b) h q (sym (search_block_first b h) ∙ e)

  -- Where a preimage of 32 bytes stands in the data of a call into the contract, in the block or under it
  -- at any depth, the search of the block does not come back with nothing.
  pub search_block_complete :
      (b : AccountBlock) (h d p : Bytes)
      → Within d (calls b)
      → Holds d p
      → length p ≡ 32
      → sha256 p ≡ h
      → search_block b h ≢ none
  search_block_complete b h d p w holds size e n =
      first_scan_complete (calls b) d p h w holds size e (sym (search_block_first b h) ∙ n)
