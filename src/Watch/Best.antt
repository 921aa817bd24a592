-- ===== src/Watch/Best.antt =====
-- wasm/manager.go: which output pickFunding takes.
use ferry_web.Prelude.{
  ◌≡◌, refl, subst, ◌∙◌, ◌⊎◌, inl, inr, Option, none, some, List, [], ◌∷◌, arith, All, Within,
}
use ferry_web.Prelude.Int.{ℤ, pos, ◌≤ℤ◌, ◌<ℤ◌}
use ferry_web.Watch.Backend.{Utxo}
use ferry_web.Watch.Pick.{better, pick_from, pick_funding}

-- The output holds no more than the value.
abbrev pub AtMost : ℤ → Utxo → Type 0
AtMost v u = u.value ≤ℤ v

-- The value of what is taken, 0 where nothing is.
abbrev pub taken : Option Utxo → ℤ
taken none = pos 0
taken (some u) = u.value

-- What is taken is an output with a value.
abbrev Positive : Option Utxo → Type 0
Positive none = Unit {0}
Positive (some u) = pos 0 <ℤ u.value

better_lem :
    (want : ℤ) (best : Option Utxo) (u : Utxo)
    → Positive best
    → Positive (better want best u)
      × (taken best ≤ℤ taken (better want best u))
      × (u.value ≤ℤ taken (better want best u))
      × ((better want best u ≡ best) ⊎ (better want best u ≡ some u))
unfolding better
better_lem want none u h = ground arith
better_lem want (some b) u h = ground arith

AtMost-trans : (v w : ℤ) (us : List Utxo) → v ≤ℤ w → All (AtMost v) us → All (AtMost w) us
AtMost-trans v w [] h a = tt
AtMost-trans v w (u ∷ us) h a = (omega arith, AtMost-trans v w us h a.1)

pick_from-best :
    (want : ℤ) (best : Option Utxo) (us : List Utxo)
    → Positive best
    → Positive (pick_from want best us)
      × (taken best ≤ℤ taken (pick_from want best us))
      × All (AtMost (taken (pick_from want best us))) us
      × ((pick_from want best us ≡ best)
          ⊎ ((u : Utxo) × (pick_from want best us ≡ some u) × Within u us))
unfolding pick_from
pick_from-best want best [] h = (h, omega arith, tt, inl refl)
pick_from-best want best (u ∷ us) h =
    let (good, grows, covers, which) = better_lem want best u h in
    let (end, more, rest, from) = pick_from-best want (better want best u) us good in
    (
      end,
      omega arith,
      (omega arith, rest),
      elim from [
        | inr (v, is_v, w) ↦ inr (v, is_v, inr w)
        | inl same ↦ elim which [
          | inl kept ↦ inl (same ∙ kept)
          | inr new ↦ inr (u, same ∙ new, inl refl)
        ]
      ],
    )

-- The funding that is picked is one of the outputs, holds something, and no output holds more; the
-- amount that is wanted makes no difference to that. Where none is picked, no output holds anything.
pub pick_funding-best :
    (us : List Utxo) (want : ℤ)
    → All (AtMost (taken (pick_funding us want))) us
      × ((pick_funding us want ≡ none)
          ⊎ ((u : Utxo) × (pick_funding us want ≡ some u) × Within u us × (pos 0 <ℤ u.value)))
unfolding pick_funding
pick_funding-best us want =
    let (end, _, most, from) = pick_from-best want none us tt in
    (
      most,
      elim from [
        | inl nothing ↦ inl nothing
        | inr (u, is_u, w) ↦ inr (u, is_u, w, subst Positive is_u end)
      ],
    )
