-- ===== src/Outcome/Ready.antt =====
-- wasm/manager.go: what stands when a redeem or a refund is ready to be broadcast.
use ferry_web.Prelude.{
  ◌≡◌, refl, sym, ap, ap₂, subst, ◌∙◌, ◌⊎◌, inl, inr, true, false, not, ◌&&◌, Option, none, some,
  [], ◌∷◌, Bool-cases, is_empty,
}
use ferry_web.Prelude.Int.{ℤ}
use ferry_web.Prelude.Text.{Text, text_eq, text_eq_iff, trim_space}
use ferry_web.Swap.Record.{Swap, FundingOutput, Network, network_params}
use ferry_web.Swap.Build.{done, done_inj}
use ferry_web.Bitcoin.Tx.{contract_pk_script}
use ferry_web.Watch.Backend.{Backend, Packages}
use ferry_web.Watch.Bind.{BindError, bind_funding}
use ferry_web.Watch.Bound.{IsBound, bind_funding-IsBound}
use ferry_web.Watch.Keeps.{Terms, terms, Keeps, Keeps-bind}
use ferry_web.Outcome.Retry.{payout_address}
use ferry_web.Outcome.Spend.{Ready, with_funding, bound_funding}

empty_nil : (s : Text) → is_empty s ≡ true → s ≡ []
empty_nil [] e = refl
empty_nil (c ∷ s) e = cc e

-- The address that is paid: the record's own, from which the given one may not differ, or the given one
-- where the record has none.
abbrev pub PaysTo : Swap → Text → Text → Type 0
PaysTo s asked dest =
    ((is_empty s.dest_addr ≡ false)
      × (dest ≡ s.dest_addr)
      × ((trim_space asked ≡ []) ⊎ (trim_space asked ≡ s.dest_addr)))
    ⊎ ((s.dest_addr ≡ []) × (dest ≡ trim_space asked) × (is_empty (trim_space asked) ≡ false))

same_or_blank : (a s : Text) → (not (is_empty a) && not (text_eq a s)) ≡ false → (a ≡ []) ⊎ (a ≡ s)
same_or_blank a s h = elim (Bool-cases (is_empty a)) [
  | inl blank ↦ inl (empty_nil a blank)
  | inr given ↦ elim (Bool-cases (text_eq a s)) [
    | inl same ↦ inr ((text_eq_iff a s).0 same)
    | inr other ↦ cc (rw (given, other) at h)
  ]
]

pub payout_address-done :
    (s : Swap) (asked dest : Text) → payout_address s asked ≡ done dest → PaysTo s asked dest
unfolding payout_address
payout_address-done s asked dest e = elim (Bool-cases (is_empty s.dest_addr)) [
  | inl blank ↦ elim (Bool-cases (is_empty (trim_space asked))) [
    | inl none_given ↦ cc (rw (blank, none_given, payout_address) at e)
    | inr given ↦ inr (
      empty_nil s.dest_addr blank,
      sym (done_inj (rw (blank, given, payout_address) at e)),
      given,
    )
  ]
  | inr given ↦
      elim (Bool-cases
        (not (is_empty (trim_space asked)) && not (text_eq (trim_space asked) s.dest_addr))) [
          | inl other ↦ cc (rw (given, other, payout_address) at e)
          | inr same ↦ inl (
            given,
            sym (done_inj (rw (given, same, payout_address) at e)),
            same_or_blank (trim_space asked) s.dest_addr same,
          )
        ]
]

pub some_inj : {A : Type 0} {a c : A} → some a ≡ some c → a ≡ c
some_inj h = cc h

with_funding-done :
    (e : Option BindError) (o : Option FundingOutput) (s s' : Swap) (f : FundingOutput)
    → with_funding e o s ≡ done (s', f)
    → (e ≡ none) × (s ≡ s') × (o ≡ some f)
with_funding-done (some x) o s s' f h = cc h
with_funding-done none none s s' f h = cc h
with_funding-done none (some g) s s' f h =
    let same = done_inj h in
    (
      refl,
      ap (λ (r : Swap × FundingOutput). r.0) same,
      ap (λ (r : Swap × FundingOutput). some r.1) same,
    )

-- What stands when a spend is ready: the record that was loaded, less what may differ from it.
pub record IsReady (p : Packages) (b : Backend) (asked : Text) (s : Swap) (r : Ready) : Type 0 where
  pub params : Network
  pub network : network_params s.network ≡ some params
  pub adopted : FundingOutput
  pub seen : s.funding ≡ some adopted
  pub bound : IsBound p.btcd b params s r.swap adopted
  pub spent : r.swap.funding ≡ some r.funding
  pub same_value : r.funding.value ≡ adopted.value
  pub same_terms : terms r.swap ≡ terms s
  pub destination : PaysTo s asked r.dest

module _ (p : Packages) (b : Backend) where
  pub bound_funding-IsBound :
      (now : ℤ) (params : Network) (s s' : Swap) (f adopted : FundingOutput)
      → s.funding ≡ some adopted
      → bound_funding p b now params s ≡ done (s', f)
      → IsBound p.btcd b params s s' adopted × (s'.funding ≡ some f) × Keeps p.sha256 s s'
  unfolding bound_funding
  bound_funding-IsBound now params s s' f adopted seen e =
      let r = bind_funding p.btcd b now params s in
      let (fine, same, has) = with_funding-done r.0 r.1.funding r.1 s' f e in
      let is_r : r ≡ (none, s') = ap₂ (λ x (y : Swap). (x, y)) fine same in
      (
        bind_funding-IsBound p.btcd b now params adopted s s' seen is_r,
        ap (λ (x : Swap). x.funding) (sym same) ∙ has,
        subst (Keeps p.sha256 s) same (Keeps-bind p.sha256 p.btcd b now params s),
      )

  pub IsBound-contract :
      (params : Network) (s1 s s' : Swap) (f : FundingOutput)
      → s1.contract ≡ s.contract
      → IsBound p.btcd b params s1 s' f
      → IsBound p.btcd b params s s' f
  IsBound-contract params s1 s s' f same h = record {
    bound = h.bound;
    same = h.same;
    recorded = h.recorded;
    known_or_read = h.known_or_read;
    want = h.want;
    pays_contract = ap (λ c. contract_pk_script p.btcd c params) (sym same) ∙ h.pays_contract;
    same_script = h.same_script;
  }

  -- From a funding that was bound on a record with the same terms.
  unfoldable pub ready :
      (asked : Text) (params : Network) (s s1 : Swap) (r : Ready) (adopted : FundingOutput)
      → network_params s.network ≡ some params
      → s.funding ≡ some adopted
      → Keeps p.sha256 s s1
      → IsBound p.btcd b params s1 r.swap adopted
      → r.swap.funding ≡ some r.funding
      → Keeps p.sha256 s1 r.swap
      → PaysTo s asked r.dest
      → IsReady p b asked s r
  ready asked params s s1 r adopted named seen k1 bound has k2 dest = record {
    params = params;
    network = named;
    adopted = adopted;
    seen = seen;
    bound =
        IsBound-contract params s1 s r.swap adopted (ap (λ (t : Terms). t.contract) k1.same_terms)
          bound;
    spent = has;
    same_value =
        ap (λ (f : FundingOutput). f.value) (some_inj (sym has ∙ bound.recorded) ∙ bound.same);
    same_terms = k2.same_terms ∙ k1.same_terms;
    destination = dest;
  }
