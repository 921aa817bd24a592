-- ===== src/Manager/Created.antt =====
-- wasm/manager.go: what Create makes.
use ferry_web.Prelude.{
  ◌≡◌, refl, sym, ap, subst, ◌∙◌, Bool, true, none, is_some, is_empty, if◌then◌else◌,
}
use ferry_web.Prelude.Int.{ℤ}
use ferry_web.Prelude.Text.{Text, runes, trim_space}
use ferry_web.Swap.Record.{Swap, log, swap_created}
use ferry_web.Swap.Offer.{CreateParams}
use ferry_web.Swap.Build.{done, or_fails-then, call-then, no_randomness, not_saved}
use ferry_web.Store.Records.{Backing, Json}
use ferry_web.Store.Saved.{IsStored, save-IsStored}
use ferry_web.Swap.Terms.{token_or_znn}
use ferry_web.Watch.Poll.{of_store-done}
use ferry_web.Manager.Create.{
  Drawn, Libraries, drafted, check_params, check_amount, with_secret, with_lock, with_pkh,
  with_built, create,
}
use ferry_web.Manager.Steps.{
  Core, core, legs, Base, base, with_lock-core, with_pkh-core, with_built-core, with_secret-base,
  saved-core,
}
use ferry_web.Manager.Allowed.{
  Knows, HasSecret, with_secret-HasSecret, IsAllowed, check_params-IsAllowed,
}

module _ (l : Libraries) where
  -- What was asked for, and the secret.
  pub record IsCreated (j : Json) (prefix : Text) (net : Text) (p : CreateParams) (store : Backing)
      (s : Swap) : Type 0 where
    pub allowed : IsAllowed l net p
    pub secret : HasSecret l p s
    pub same_role : s.role ≡ p.role
    pub same_leg : s.leg ≡ p.leg
    pub same_zenon : legs s ≡ (
      trim_space p.zenon_self_address,
      trim_space p.zenon_peer_address,
      if is_empty (trim_space p.zenon_token)
          then runes "zts1znnxxxxxxxxxxxxx9z4ulx"
          else trim_space p.zenon_token,
      trim_space p.zenon_amount,
    )
    pub same_amount : s.amount_sats ≡ p.amount_sats
    pub same_dest : s.dest_addr ≡ trim_space p.dest_addr
    pub same_network : s.network ≡ net
    pub has_key : is_some s.key ≡ true
    pub unfunded : s.funding ≡ none
    pub stored : IsStored j prefix store s

  module _ (j : Json) (full : Backing → Text → Text → Bool) (prefix : Text) where
    -- A create that succeeds returns a swap of what was asked for, which the store then holds under its
    -- id: the role and the leg asked for, each one of the two, the positive amount, the known
    -- network, the address, which can be paid there, and the Zenon addresses, amount and token asked
    -- for, ZNN where no token is named. Where an offer is given, the offer reads and the check against it finds
    -- no difference. The swap has a key and no funding. An initiator has a secret, whose hash is
    -- the swap's; a participant has none, and the 32 bytes of the hash given.
    pub create-IsCreated :
        (now : ℤ) (net : Text) (drawn : Drawn) (store : Backing) (p : CreateParams)
        (r : Backing × Swap)
        → create l j full prefix now net drawn store p ≡ done r
        → IsCreated j prefix net p r.0 r.1
    unfolding create log token_or_znn
    create-IsCreated now net drawn store p r e = call-then (check_params l net p) _ e λ u passes e₁.
        or_fails-then drawn.id no_randomness _ e₁ λ id _ e₂.
          or_fails-then drawn.key no_randomness _ e₂ λ key _ e₃.
            call-then (check_amount l (trim_space p.zenon_amount)) _ e₃ λ _ _ e₄.
              call-then (with_secret l now drawn p (drafted now net id key p)) _ e₄ λ s secret e₅.
                call-then (with_lock l now p s) _ e₅ λ locked lock e₆.
                  call-then (with_pkh l p locked) _ e₆ λ known pkh e₇.
                    call-then (with_built l now known) _ e₇ λ built contract e₈.
                      let saved =
                        saved-core j full prefix store (log now swap_created built) r
                          (of_store-done _ not_saved e₈) in
                      let c : core r.1 ≡ core s =
                        saved
                        ∙ (with_built-core l now known built contract
                            ∙ (with_pkh-core l p locked known pkh
                                ∙ with_lock-core l now p s locked lock)) in
                      let b : base s ≡ base (drafted now net id key p) =
                        with_secret-base l now drawn p (drafted now net id key p) s secret in
                      let has =
                        with_secret-HasSecret l now drawn p (drafted now net id key p) s refl
                          secret in
                      record {
                        allowed = check_params-IsAllowed l net p u passes;
                        secret = subst (λ (k : Core). Knows l p k.1 k.2) (sym c) has;
                        same_role = ap (λ (k : Core). k.0) c ∙ ap (λ (k : Base). k.0) b;
                        same_leg = ap (λ (k : Core). k.8) c ∙ ap (λ (k : Base). k.6) b;
                        same_zenon = ap (λ (k : Core). k.9) c ∙ ap (λ (k : Base). k.7) b;
                        same_amount = ap (λ (k : Core). k.4) c ∙ ap (λ (k : Base). k.2) b;
                        same_dest = ap (λ (k : Core). k.5) c ∙ ap (λ (k : Base). k.3) b;
                        same_network = ap (λ (k : Core). k.6) c ∙ ap (λ (k : Base). k.4) b;
                        has_key = ap is_some (ap (λ (k : Core). k.3) c ∙ ap (λ (k : Base). k.1) b);
                        unfunded = ap (λ (k : Core). k.7) c ∙ ap (λ (k : Base). k.5) b;
                        stored =
                            save-IsStored j full prefix store (log now swap_created built) r.0 r.1
                              (of_store-done _ not_saved e₈);
                      }
