-- ===== src/Swap/Roles.antt =====
-- wasm/swap.go: which leg is whose, and where the secret comes out.
use ferry_web.Swap.Record.{
  Swap, initiator, participant, send, receive, redeemed, refunded, is_initiator, is_participant,
  is_send, is_receive, opposite,
}
use ferry_web.Prelude.{
  ◌≡◌, ◌⊎◌, Bool, true, false, not, ◌&&◌, ◌||◌, none, some, arith, if◌then◌else◌, is_empty,
}
use ferry_web.Prelude.Int.{ltb_ℤ}
use ferry_web.Prelude.Text.{Text, trim_space}

unfoldable pub zenon_leg_is_initiators : Swap → Bool
zenon_leg_is_initiators s = if is_send s.leg then not (is_initiator s.role) else is_initiator s.role

unfoldable pub bitcoin_leg_is_initiators : Swap → Bool
unfolding zenon_leg_is_initiators
bitcoin_leg_is_initiators s = not (zenon_leg_is_initiators s)

abbrev pub zenon_htlc_is_ours : Swap → Bool
zenon_htlc_is_ours s = is_receive s.leg

unfoldable pub secret_arrives_on_zenon : Swap → Bool
secret_arrives_on_zenon s = zenon_htlc_is_ours s && is_participant s.role

unfoldable pub redeem_reveals_secret : Swap → Bool
redeem_reveals_secret s = is_receive s.leg && is_initiator s.role

unfoldable pub funding_short : Swap → Bool
funding_short s = elim s.funding [ none ↦ false | some f ↦ ltb_ℤ f.value s.amount_sats ]

unfoldable pub redeem_held_for_short_funding : Swap → Bool
unfolding funding_short redeem_reveals_secret
redeem_held_for_short_funding s = funding_short s && redeem_reveals_secret s

unfoldable pub settled : Swap → Bool
settled s = elim s.state [
  | refunded ↦ true
  | redeemed ↦
      if is_send s.leg && is_participant s.role then not (is_empty s.zenon.unlock_hash) else true
  | _ ↦ false
]

unfoldable pub active : Swap → Bool
active s = not s.archived

unfoldable pub unlock_payee : Swap → Text
unfolding trim_space
unlock_payee s =
    let peer = trim_space s.zenon.peer_address in
    if is_empty peer then trim_space s.zenon.observed_hash_locked else peer

-- The two records of one swap: opposite legs, and the two roles.
pub record IsCounterparty (a b : Swap) : Type 0 where
  pub legs : b.leg ≡ opposite a.leg
  pub roles :
      ((a.role ≡ initiator) × (b.role ≡ participant))
      ⊎ ((a.role ≡ participant) × (b.role ≡ initiator))

-- Both sides agree on which of the two legs is the initiator's and which side creates the Zenon HTLC;
-- the initiator's is exactly one of the legs, and it is the one that the initiator pays into.
pub legs_agree :
    (a b : Swap)
    → (a.leg ≡ send) ⊎ (a.leg ≡ receive)
    → IsCounterparty a b
    → (zenon_leg_is_initiators a ≡ zenon_leg_is_initiators b)
      × (bitcoin_leg_is_initiators a ≡ bitcoin_leg_is_initiators b)
      × (bitcoin_leg_is_initiators a ≡ not (zenon_leg_is_initiators a))
      × (zenon_htlc_is_ours b ≡ not (zenon_htlc_is_ours a))
      × (zenon_leg_is_initiators a
          ≡ (if zenon_htlc_is_ours a then is_initiator a.role else is_initiator b.role))
unfolding zenon_leg_is_initiators bitcoin_leg_is_initiators
legs_agree a b known c = ground (arith, c.legs, c.roles)

-- Of the two sides of a swap, exactly one is the first to publish the secret by its redeem, or exactly
-- one waits for the secret to come out on Zenon: the first where the Zenon leg is the initiator's, the
-- second where the Bitcoin leg is.
pub secret_comes_out_once :
    (a b : Swap)
    → (a.leg ≡ send) ⊎ (a.leg ≡ receive)
    → IsCounterparty a b
    → ((redeem_reveals_secret a || redeem_reveals_secret b) ≡ zenon_leg_is_initiators a)
      × ((secret_arrives_on_zenon a || secret_arrives_on_zenon b) ≡ bitcoin_leg_is_initiators a)
      × ((redeem_reveals_secret a && redeem_reveals_secret b) ≡ false)
      × ((secret_arrives_on_zenon a && secret_arrives_on_zenon b) ≡ false)
unfolding zenon_leg_is_initiators bitcoin_leg_is_initiators redeem_reveals_secret
    secret_arrives_on_zenon
secret_comes_out_once a b known c = ground (arith, c.legs, c.roles)
