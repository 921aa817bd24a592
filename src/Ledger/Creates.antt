-- ===== src/Ledger/Creates.antt =====
-- wasm/znn/ledger.go: FindHtlcCreates and collectCreates.
use mathlib.Core.List.{append_assoc, append-nil}
use ferry_web.Prelude.Bytes.{Bytes}
use ferry_web.Prelude.Result.{Result, ok, err, ◌>>◌, guard}
use ferry_web.Abi.Holds.{Holds}
use ferry_web.Ledger.Scan.{hash_lock_size}
use ferry_web.Ledger.Preimage.{NodeError, SearchError, bad_hash_size, no_creator, node_error}
use ferry_web.Ledger.Blocks.{
  AccountBlock, account_block, BlockHead, Blocks, no_blocks, nil_block, block, none_listed,
  AccountBlockList, to_htlc_contract, data_bytes,
}
use ferry_web.Prelude.{
  ◌⊎◌, inl, inr, ℕ, zero, suc, ◌≡◌, refl, sym, ap, subst, ◌∙◌, ◌↔◌, Bool, true, false, not, ◌&&◌,
  ◌||◌, Option, none, some, List, [], ◌∷◌, ◌++◌, arith, ◌==◌, if◌then◌else◌, Bool-cases, length,
  take, drop, is_empty, Within, take-append, take-append-drop,
}
use ferry_web.Prelude.Int.{ℤ, pos}
use ferry_web.Prelude.Text.{Text, trim_space, text_eq, text_eq_iff}

pub record HtlcCandidate : Type 0 where
  pub id : Text
  pub at : ℤ

-- bytes.Contains: an empty slice stands in every one.
unfoldable pub contains : Bytes → Bytes → Bool
contains [] v = is_empty v
contains (b ∷ d) v = text_eq (take (length v) (b ∷ d)) v || contains d v

contains-append : (v ys : Bytes) → contains (v ++ ys) v ≡ true
unfolding contains
contains-append [] [] = refl
contains-append [] (y ∷ ys) = ground (arith, text_eq_iff [] [])
contains-append (b ∷ v) ys =
    rw (take-append (length (b ∷ v)) (b ∷ v) ys refl) (ground (arith, text_eq_iff (b ∷ v) (b ∷ v)))

contains-middle : (xs v ys : Bytes) → contains (xs ++ (v ++ ys)) v ≡ true
unfolding contains
contains-middle [] v ys = contains-append v ys
contains-middle (x ∷ xs) v ys = ground (arith, contains-middle xs v ys)

pub Holds-contains : (d v : Bytes) → Holds d v → contains d v ≡ true
Holds-contains d v (xs, ys, split) = rw split (contains-middle xs v ys)

pub contains-Holds : (d v : Bytes) → contains d v ≡ true → Holds d v
unfolding contains
contains-Holds [] [] h = ([], [], refl)
contains-Holds [] (x ∷ v) h = cc
contains-Holds (b ∷ d) v h = elim (Bool-cases (text_eq (take (length v) (b ∷ d)) v)) [
  | inl e ↦ (
    [],
    drop (length v) (b ∷ d),
    sym (take-append-drop (length v) (b ∷ d))
        ∙ ap (λ w. w ++ drop (length v) (b ∷ d)) ((text_eq_iff (take (length v) (b ∷ d)) v).0 e),
  )
  | inr e ↦
      let (xs, ys, split) = contains-Holds d v (rw (e, contains) at h) in
      (b ∷ xs, ys, ap (◌∷◌ b) split)
]

-- A block without a confirmation has the time 0.
abbrev pub candidate : BlockHead → HtlcCandidate
candidate b = record { id = b.hash; at = elim b.confirmed_at [ none ↦ pos 0 | some t ↦ t ] }

module _ (base64 : Text → Option Bytes) where
  unfoldable mutual
    pub collect_creates : AccountBlock → Bytes → List HtlcCandidate → List HtlcCandidate
    collect_creates (account_block b ds) h found =
        let found' =
          if to_htlc_contract b && not (is_empty b.hash) && contains (data_bytes base64 b) h
          then found ++ (candidate b ∷ [])
          else found in
        collect_under ds h found'

    pub collect_under : Blocks → Bytes → List HtlcCandidate → List HtlcCandidate
    collect_under no_blocks h found = found
    collect_under (nil_block ds) h found = collect_under ds h found
    collect_under (block d ds) h found = collect_under ds h (collect_creates d h found)

  module _ (page_of : Text → ℕ → ℕ → Result NodeError AccountBlockList) where
    unfoldable pub create_pages :
        Text
        → Bytes
        → (page_size left page : ℕ) → List HtlcCandidate
        → Result SearchError (List HtlcCandidate)
    create_pages creator h page_size zero page found = ok found
    create_pages creator h page_size (suc left) page found = elim (page_of creator page page_size) [
      | err e ↦ err (node_error e)
      | ok list ↦
          let found' = collect_under list.blocks h found in
          let next = create_pages creator h page_size left (suc page) found' in
          if not list.more || none_listed list.blocks then ok found' else next
    ]

    unfoldable pub find_htlc_creates :
        Text → Bytes → (page_size max_pages : ℕ) → Result SearchError (List HtlcCandidate)
    find_htlc_creates creator h page_size max_pages = do
      guard (length h == hash_lock_size) bad_hash_size
      guard (not (is_empty (trim_space creator))) no_creator
      create_pages creator h page_size max_pages 0 []

  -- The blocks of a subtree, each before those under it.
  unfoldable mutual
    pub subtree : AccountBlock → List BlockHead
    subtree (account_block b ds) = b ∷ subtrees ds

    pub subtrees : Blocks → List BlockHead
    subtrees no_blocks = []
    subtrees (nil_block ds) = subtrees ds
    subtrees (block d ds) = subtree d ++ subtrees ds

  -- A call into the contract, with a hash of its own, whose data holds the hash lock.
  abbrev pub Commits : Bytes → BlockHead → Type 0
  Commits h b =
      (to_htlc_contract b ≡ true) × (is_empty b.hash ≡ false) × Holds (data_bytes base64 b) h

  commits : Bytes → BlockHead → Bool
  commits h b = to_htlc_contract b && not (is_empty b.hash) && contains (data_bytes base64 b) h

  pub candidates : Bytes → List BlockHead → List HtlcCandidate
  candidates h [] = []
  candidates h (b ∷ bs) =
      let rest = candidates h bs in if commits h b then candidate b ∷ rest else rest

  candidates-append :
      (h : Bytes) (xs ys : List BlockHead)
      → candidates h (xs ++ ys) ≡ candidates h xs ++ candidates h ys
  unfolding candidates
  candidates-append h [] ys = refl
  candidates-append h (x ∷ xs) ys = ground (arith, candidates-append h xs ys)

  mutual
    unfolding collect_creates collect_under candidates commits subtree subtrees

    collect_creates_are :
        (b : AccountBlock) (h : Bytes) (found : List HtlcCandidate)
        → collect_creates b h found ≡ found ++ candidates h (subtree b)
    collect_creates_are (account_block b ds) h found = ground (
      arith,
      collect_under_are ds h found,
      collect_under_are ds h (found ++ (candidate b ∷ [])),
      append_assoc found (candidate b ∷ []) (candidates h (subtrees ds)),
    )

    pub collect_under_are :
        (ds : Blocks) (h : Bytes) (found : List HtlcCandidate)
        → collect_under ds h found ≡ found ++ candidates h (subtrees ds)
    collect_under_are no_blocks h found = sym (append-nil found)
    collect_under_are (nil_block ds) h found = collect_under_are ds h found
    collect_under_are (block d ds) h found =
        ap (collect_under ds h) (collect_creates_are d h found)
        ∙ collect_under_are ds h (found ++ candidates h (subtree d))
        ∙ append_assoc found (candidates h (subtree d)) (candidates h (subtrees ds))
        ∙ ap (λ x. found ++ x) (sym (candidates-append h (subtree d) (subtrees ds)))

  commits_iff : (h : Bytes) (b : BlockHead) → (commits h b ≡ true) ↔ Commits h b
  unfolding commits
  commits_iff h b =
      let d = data_bytes base64 b in
      (
        λ e.
            let found : contains d h ≡ true = ground (arith, e) in
            (ground (arith, e), ground (arith, e), contains-Holds d h found),
        λ (a, n, m). ground (arith, a, n, Holds-contains d h m),
      )

  candidates_sound :
      (h : Bytes) (bs : List BlockHead) (c : HtlcCandidate)
      → Within c (candidates h bs)
      → (b : BlockHead) × Within b bs × Commits h b × (c ≡ candidate b)
  unfolding candidates
  candidates_sound h [] c w = absurd w
  candidates_sound h (b ∷ bs) c w = elim (Bool-cases (commits h b)) [
    | inl y ↦ elim (rw (y, candidates) at w) [
      | inl same ↦ (b, inl refl, (commits_iff h b).0 y, same)
      | inr later ↦ let (b', at, k, same) = candidates_sound h bs c later in (b', inr at, k, same)
    ]
    | inr n ↦
        let (b', at, k, same) = candidates_sound h bs c (rw (n, candidates) at w) in
        (b', inr at, k, same)
  ]

  pub candidates_complete :
      (h : Bytes) (bs : List BlockHead) (b : BlockHead)
      → Within b bs
      → Commits h b
      → Within (candidate b) (candidates h bs)
  unfolding candidates
  candidates_complete h [] b w k = absurd w
  candidates_complete h (x ∷ bs) b (inl same) k =
      rw (subst (λ z. commits h z ≡ true) same ((commits_iff h b).1 k)) (inl (ap candidate same))
  candidates_complete h (x ∷ bs) b (inr later) k = elim (Bool-cases (commits h x)) [
    | inl y ↦ rw (candidates, y) (inr (candidates_complete h bs b later k))
    | inr n ↦ rw (candidates, n) (candidates_complete h bs b later k)
  ]

  pub Within-append :
      (c : HtlcCandidate) (xs ys : List HtlcCandidate)
      → Within c (xs ++ ys) ↔ (Within c xs ⊎ Within c ys)
  Within-append c [] ys = ground arith
  Within-append c (x ∷ xs) ys = ground (arith, Within-append c xs ys)

  -- A candidate of the search of a subtree is one that was found before, or one of the blocks, at any
  -- depth, that are a call into the contract, have a hash and hold the hash lock in their data.
  pub collect_creates_sound :
      (b : AccountBlock) (h : Bytes) (found : List HtlcCandidate) (c : HtlcCandidate)
      → Within c (collect_creates b h found)
      → Within c found ⊎ ((d : BlockHead) × Within d (subtree b) × Commits h d × (c ≡ candidate d))
  collect_creates_sound b h found c w =
      elim ((Within-append c found (candidates h (subtree b))).0
        (subst (Within c) (collect_creates_are b h found) w)) [
          | inl old ↦ inl old
          | inr new ↦ inr (candidates_sound h (subtree b) c new)
        ]

  -- Every block of a subtree, at any depth, that is a call into the contract, has a hash and holds the
  -- hash lock in its data is a candidate.
  pub collect_creates_complete :
      (b : AccountBlock) (h : Bytes) (found : List HtlcCandidate) (d : BlockHead)
      → Within d (subtree b)
      → Commits h d
      → Within (candidate d) (collect_creates b h found)
  collect_creates_complete b h found d w k =
      subst (Within (candidate d)) (sym (collect_creates_are b h found)) (
        (Within-append (candidate d) found (candidates h (subtree b))).1
          (inr (candidates_complete h (subtree b) d w k)))
