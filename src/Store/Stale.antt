-- ===== src/Store/Stale.antt =====
-- wasm/store.go: what a save does to the record that is stored.
use ferry_web.Prelude.Result.{Result, ok, err, >>=-eq-ok, guard-eq-ok}
use ferry_web.Swap.Record.{Swap}
use ferry_web.Store.Records.{
  StoreError, stale_write, Json, IsJson, Backing, put, key, set, fresh, advanced, save,
}
use ferry_web.Prelude.{
  ◌≡◌, refl, sym, ap, ◌∙◌, ◌≢◌, inl, inr, Bool, true, false, Option, some, arith, Bool-cases,
}
use ferry_web.Prelude.Int.{ℤ, pos, eqb_ℤ, eq_of_parts}
use ferry_web.Prelude.Int64.{add64, add64_moves}
use ferry_web.Prelude.Text.{Text, text_eq_iff}

put-same : (b : Backing) (k : Text) (v : Option Text) → put b k v k ≡ v
unfolding put
put-same b k v = rw ((text_eq_iff k k).1 refl) refl

put-other : (b : Backing) (k k' : Text) (v : Option Text) → k' ≢ k → put b k v k' ≡ b k'
unfolding put
put-other b k k' v apart = ground (arith, text_eq_iff k' k)

ok_pair :
    {A B : Type 0} {a a' : A} {c c' : B}
    → ◌≡◌ {A = Result StoreError (A × B)} (ok (a, c)) (ok (a', c'))
    → (a ≡ a') × (c ≡ c')
ok_pair h = (cc h, cc h)

eqb_ℤ-eq : (a b : ℤ) → eqb_ℤ a b ≡ true → a ≡ b
eqb_ℤ-eq a b h = eq_of_parts a b (ground arith)

module _ (j : Json) (full : Backing → Text → Text → Bool) (prefix : Text) where
  set-ok :
      (b : Backing) (k v : Text) {b' : Backing}
      → set j full prefix b k v ≡ ok b'
      → b' ≡ put b k (some v)
  unfolding set
  set-ok b k v h = elim (Bool-cases (full b k v)) [
    | inl e ↦ cc (rw (e, set) at h)
    | inr e ↦ cc (rw (e, set) at h)
  ]

  pub save_inv :
      (b : Backing) (s : Swap) {b' : Backing} {s' : Swap}
      → save j full prefix b s ≡ ok (b', s')
      → (k : Text) × (key prefix s.id ≡ ok k)
        × (fresh j full prefix (b k) s ≡ true)
        × (s' ≡ advanced j full prefix s)
        × (b' k ≡ some (j.encode s'))
        × ((k' : Text) → k' ≢ k → b' k' ≡ b k')
  unfolding save
  save_inv b s {b'} {s'} h =
      let (k, named, h1) = >>=-eq-ok (key prefix s.id) _ h in
      let (was_fresh, h2) = guard-eq-ok (fresh j full prefix (b k) s) stale_write _ h1 in
      let (b1, stored, h3) =
        >>=-eq-ok (set j full prefix b k (j.encode (advanced j full prefix s))) _ h2 in
      let (same_b, same_s) = ok_pair h3 in
      let put_is : b' ≡ put b k (some (j.encode (advanced j full prefix s))) =
        sym same_b ∙ set-ok b k _ stored in
      (
        k,
        named,
        was_fresh,
        sym same_s,
        ap (λ (x : Backing). x k) put_is ∙ put-same b k _ ∙ ap (λ x. some (j.encode x)) same_s,
        λ k' apart. ap (λ (x : Backing). x k') put_is ∙ put-other b k k' _ apart,
      )

  -- A save that succeeds found what stands for the version that it was loaded at; it advances the
  -- version, and the store holds what it returns.
  pub save-ok :
      (b : Backing) (s : Swap) {b' : Backing} {s' : Swap}
      → save j full prefix b s ≡ ok (b', s')
      → (k : Text) × (key prefix s.id ≡ ok k)
        × (fresh j full prefix (b k) s ≡ true)
        × (s' ≡ advanced j full prefix s)
        × (b' k ≡ some (j.encode s'))
  save-ok b s h =
      let (k, named, was_fresh, is_s', stored, rest) = save_inv b s h in
      (k, named, was_fresh, is_s', stored)

  -- A save leaves every record of another id as it was.
  pub save-others :
      (b : Backing) (s : Swap) {b' : Backing} {s' : Swap} (other : Text)
      → save j full prefix b s ≡ ok (b', s')
      → key prefix s.id ≢ ok other
      → b' other ≡ b other
  save-others b s other h apart =
      let (k, named, was_fresh, is_s', stored, rest) = save_inv b s h in
      rest other (λ same. apart (named ∙ ap (λ x. ok x) (sym same)))

  version_moves : (s : Swap) → eqb_ℤ (advanced j full prefix s).version s.version ≡ false
  unfolding advanced
  version_moves s = elim (Bool-cases (eqb_ℤ (add64 s.version (pos 1)) s.version)) [
    | inl same ↦ absurd (add64_moves s.version (eqb_ℤ-eq (add64 s.version (pos 1)) s.version same))
    | inr apart ↦ apart
  ]

  fresh-moved :
      (x : Text) (v : ℤ) (other : Swap)
      → j.version_of x ≡ some v
      → eqb_ℤ v other.version ≡ false
      → fresh j full prefix (some x) other ≡ false
  unfolding fresh
  fresh-moved x v other read apart = rw (fresh, read) apart

  save-not_fresh :
      (b : Backing) (s : Swap) {k : Text}
      → key prefix s.id ≡ ok k
      → fresh j full prefix (b k) s ≡ false
      → save j full prefix b s ≡ err stale_write
  unfolding save
  save-not_fresh b s named old = rw named (rw old refl)

  -- Of two saves that loaded the same version of a record, the second is refused: whatever copy it is
  -- made from, nothing is written over the first.
  pub save-stale :
      IsJson j
      → (b : Backing) (s other : Swap) {b' : Backing} {s' : Swap}
      → save j full prefix b s ≡ ok (b', s')
      → other.id ≡ s.id
      → other.version ≡ s.version
      → save j full prefix b' other ≡ err stale_write
  save-stale law b s other {b'} {s'} h same_id same_version =
      let (k, named, was_fresh, is_s', stored, rest) = save_inv b s h in
      let moved : eqb_ℤ s'.version other.version ≡ false =
        rw same_version (ap (λ (x : Swap). eqb_ℤ x.version s.version) is_s' ∙ version_moves s) in
      save-not_fresh b' other (ap (key prefix) same_id ∙ named) (
        ap (λ x. fresh j full prefix x other) stored
        ∙ fresh-moved (j.encode s') s'.version other (law.version_of-encode s') moved)
