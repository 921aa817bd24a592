-- ===== src/Store/Saved.antt =====
-- wasm/store.go: what the store holds after Save, and what Load reads back then.
use ferry_web.Prelude.{
  ◌≡◌, refl, sym, ap, ◌∙◌, ◌⊎◌, inl, inr, Bool, true, Option, none, some, Bool-cases, Option-cases,
}
use ferry_web.Prelude.Int.{ℤ, pos, eqb_ℤ_iff}
use ferry_web.Prelude.Int64.{add64}
use ferry_web.Prelude.Text.{Text, text_eq, text_eq_iff}
use ferry_web.Prelude.Result.{ok}
use ferry_web.Swap.Record.{Swap}
use ferry_web.Swap.Terms.{withdraw_stale_verdict}
use ferry_web.Store.Records.{Json, Backing, key, fresh, advanced, save, load}
use ferry_web.Store.Stale.{save_inv}

-- The store holds this record under its id.
pub record IsStored (j : Json) (prefix : Text) (store : Backing) (s : Swap) : Type 0 where
  pub at : Text
  pub named : key prefix s.id ≡ ok at
  pub held : store at ≡ some (j.encode s)

-- A save of the record `s`: what was stored had the version of `s`, or one that cannot be read, or
-- nothing was stored and `s` is new. What is stored now is `s` with the next version, and no
-- other record has changed.
pub record IsSaved (j : Json) (prefix : Text) (store : Backing) (s : Swap) (store' : Backing)
    (s' : Swap) : Type 0 where
  pub at : Text
  pub named : key prefix s.id ≡ ok at
  pub current :
      ((store at ≡ none) × (s.version ≡ pos 0))
      ⊎ ((x : Text) × (store at ≡ some x)
          × ((j.version_of x ≡ none) ⊎ (j.version_of x ≡ some s.version)))
  pub moved_on : s' ≡ record s { version = add64 s.version (pos 1) }
  pub held : store' at ≡ some (j.encode s')
  pub others : (k : Text) → (k ≡ at) ⊎ (store' k ≡ store k)

module _ (j : Json) (full : Backing → Text → Text → Bool) (prefix : Text) where
  fresh-current :
      (o : Option Text) (s : Swap)
      → fresh j full prefix o s ≡ true
      → ((o ≡ none) × (s.version ≡ pos 0))
        ⊎ ((x : Text) × (o ≡ some x)
            × ((j.version_of x ≡ none) ⊎ (j.version_of x ≡ some s.version)))
  unfolding fresh
  fresh-current none s h = inl (refl, (eqb_ℤ_iff _ _).0 h)
  fresh-current (some x) s h = inr (
    x,
    refl,
    elim (Option-cases (j.version_of x)) [
      | inl unread ↦ inl unread
      | inr (v, read) ↦ inr (read ∙ ap some ((eqb_ℤ_iff _ _).0 (rw (read, fresh) at h)))
    ],
  )

  pub save-IsSaved :
      (store : Backing) (s : Swap) (store' : Backing) (s' : Swap)
      → save j full prefix store s ≡ ok (store', s')
      → IsSaved j prefix store s store' s'
  unfolding advanced
  save-IsSaved store s store' s' e =
      let (k, named, was_fresh, moved, held, rest) = save_inv j full prefix store s e in
      record {
        at = k;
        named = named;
        current = fresh-current (store k) s was_fresh;
        moved_on = moved;
        held = held;
        others = λ k'. elim (Bool-cases (text_eq k' k)) [
          | inl same ↦ inl ((text_eq_iff k' k).0 same)
          | inr apart ↦ inr (rest k' (λ is. cc (sym apart ∙ (text_eq_iff k' k).1 is)))
        ];
      }

  pub save-IsStored :
      (store : Backing) (s : Swap) (store' : Backing) (s' : Swap)
      → save j full prefix store s ≡ ok (store', s')
      → IsStored j prefix store' s'
  save-IsStored store s store' s' e =
      let saved = save-IsSaved store s store' s' e in
      record {
        at = saved.at;
        named = ap (λ (u : Swap). key prefix u.id) saved.moved_on ∙ saved.named;
        held = saved.held;
      }

  -- A save that succeeds found the version of the record that it was given, or one that cannot be read,
  -- or no record where the given one is new. It stores that record, nothing else of it changed, under the next
  -- version, leaves every other record as it was, and where the JSON that it wrote reads back as the
  -- record, a load gives that record, less a verdict whose terms are missing.
  pub save-load :
      (now : ℤ) (store : Backing) (s : Swap) (store' : Backing) (s' : Swap)
      → j.decode (j.encode s') ≡ some s'
      → save j full prefix store s ≡ ok (store', s')
      → IsSaved j prefix store s store' s'
        × (load j full prefix now store' s.id ≡ ok (withdraw_stale_verdict now s'))
  unfolding load
  save-load now store s store' s' reads e =
      let saved = save-IsSaved store s store' s' e in
      (saved, rw (saved.named, saved.held, reads, load) refl)
