-- ===== src/Swap/Wellformed.antt =====
-- wasm/swap.go: what an offer is that DecodeOffer accepts, and the terms of a leg whose verdict stands.
use ferry_web.Prelude.{
  ℕ, ◌≤◌, ◌≡◌, refl, sym, ap, ◌∙◌, ◌⊎◌, inl, inr, Bool, true, false, ◌||◌, Option, none, some, List,
  [], ◌∷◌, ◌++◌, arith, ◌==◌, ==_iff, Bool-cases, length, is_empty, is_some, All, Within,
}
use ferry_web.Prelude.Int.{ℤ, pos, ◌<ℤ◌}
use ferry_web.Prelude.Text.{Text, runes, text_eq, text_eq_iff, trim_left, trim_right, trim_space}
use ferry_web.Prelude.Bytes.{Bytes}
use ferry_web.Prelude.Hex.{hex_decode}
use ferry_web.Prelude.Result.{Result, ok, err, or_err-eq-ok, guard-eq-ok}
use ferry_web.Swap.Record.{Swap, network_params, send, receive, initiator, participant}
use ferry_web.Swap.Roles.{zenon_htlc_is_ours}
use ferry_web.Swap.Terms.{
  MissingTerm, no_amount, amount_is_zero, zero_amount, missing_zenon_terms, withdraw_stale_verdict,
  withdraw_complete, withdraw_stale_verdict-verified, withdraw_stale_verdict_idem,
}
use ferry_web.Swap.Offer.{Offer, before_point, after_point}
use ferry_web.Swap.Build.{done}
use ferry_web.Swap.Decode.{OfferText, sized, is_ok, decode_offer}
use ferry_web.Swap.Decoded.{decode_offer-IsOffer}
use ferry_web.Zenon.Address.{
  Bech32, not_bech32, other_prefix, bad_bits, bad_size, parse_zenon_bech32, parse_address,
  parse_token_standard,
}
use ferry_web.Zenon.Amount.{all_digits, is_plain_decimal, canonical_zenon_amount}

-- A digit from 0 to 9.
abbrev pub IsDigit : ℕ → Type 0
IsDigit c = (48 ≤ c) × (c ≤ 57)

-- Digits, with a point and digits behind it or without.
pub record IsDecimal (t : Text) : Type 0 where
  pub whole : Text
  pub some_whole : is_empty whole ≡ false
  pub digits : All IsDigit whole
  pub rest :
      (t ≡ whole)
      ⊎ ((frac : Text) × (is_empty frac ≡ false) × All IsDigit frac × (t ≡ whole ++ (46 ∷ frac)))

-- A character that is neither 0 nor the point.
pub record HasDigit (t : Text) : Type 0 where
  pub digit : ℕ
  pub stands : Within digit t
  pub significant : (digit == 48 || digit == 46) ≡ false

zero_or_point : ℕ → Bool
zero_or_point c = c == 48 || c == 46

blank_or_digit : (s : Text) → (trim_left zero_or_point s ≡ []) ⊎ HasDigit s
unfolding trim_left zero_or_point
blank_or_digit [] = inl refl
blank_or_digit (c ∷ s) = elim (Bool-cases (c == 48 || c == 46)) [
  | inr other ↦ inr (record { digit = c; stands = inl refl; significant = other })
  | inl zero_ ↦ elim (blank_or_digit s) [
    | inl blank ↦ inl (rw (trim_left, zero_) blank)
    | inr h ↦ inr (record { digit = h.digit; stands = inr h.stands; significant = h.significant })
  ]
]

nonzero-HasDigit : (s : Text) → zero_amount s ≡ false → HasDigit s
unfolding zero_amount zero_or_point trim_right trim_left
nonzero-HasDigit s h = elim (blank_or_digit s) [
  | inr d ↦ d
  | inl blank ↦
      let zero_ : zero_amount s ≡ true = ap (λ x. is_empty (trim_right zero_or_point x)) blank in
      cc (sym zero_ ∙ h)
]

all_digits-All : (s : Text) → all_digits s ≡ true → All IsDigit s
unfolding all_digits
all_digits-All [] h = tt
all_digits-All (c ∷ s) h = ((ground arith, ground arith), all_digits-All s (ground arith))

split_at_point :
    (s : Text)
    → ((after_point s ≡ none) × (s ≡ before_point s))
      ⊎ ((f : Text) × (after_point s ≡ some f) × (s ≡ before_point s ++ (46 ∷ f)))
unfolding before_point after_point
split_at_point [] = inl (refl, refl)
split_at_point (c ∷ s) = elim (Bool-cases (c == 46)) [
  | inl point ↦
      inr
        (s, rw (after_point, point) refl, rw (before_point, point) (ap (λ x. x ∷ s) (ground arith)))
  | inr other ↦ elim (split_at_point s) [
    | inl (bare, same) ↦
        inl (rw (after_point, other) bare, rw (before_point, other) (ap (◌∷◌ c) same))
    | inr (f, is_f, same) ↦
        inr (f, rw (after_point, other) is_f, rw (before_point, other) (ap (◌∷◌ c) same))
  ]
]

pub is_plain_decimal-IsDecimal : (s : Text) → is_plain_decimal s ≡ true → IsDecimal s
unfolding is_plain_decimal
is_plain_decimal-IsDecimal s h = elim (split_at_point s) [
  | inl (bare, same) ↦
      let h' = rw (is_plain_decimal, bare) at h in
      record {
        whole = before_point s;
        some_whole = ground arith;
        digits = all_digits-All (before_point s) (ground arith);
        rest = inl same;
      }
  | inr (f, is_f, same) ↦
      let h' = rw (is_plain_decimal, is_f) at h in
      record {
        whole = before_point s;
        some_whole = ground arith;
        digits = all_digits-All (before_point s) (ground arith);
        rest = inr (f, ground arith, all_digits-All f (ground arith), same);
      }
]

-- Hexadecimal of so many bytes.
abbrev pub IsHex : ℕ → Text → Type 0
IsHex n t = (raw : Bytes) × (hex_decode t ≡ some raw) × (length raw ≡ n)

sized-some :
    (n : ℕ) (o : Option Bytes)
    → sized n o ≡ true
    → (raw : Bytes) × (o ≡ some raw) × (length raw ≡ n)
sized-some n none h = cc h
sized-some n (some raw) h = (raw, refl, (==_iff (length raw) n).0 h)

-- Bech32 with this prefix, of so many bytes.
abbrev pub IsBech32 : Bech32 → Text → ℕ → Text → Type 0
IsBech32 b hrp n t =
    (digits : Bytes) × (raw : Bytes) × (b.decode t ≡ some (hrp, digits))
    × (b.to_bytes digits ≡ some raw)
    × (length raw ≡ n)

is_ok-some : {E A : Type 0} (r : Result E A) → is_ok r ≡ true → (a : A) × (r ≡ ok a)
is_ok-some (ok a) h = (a, refl)
is_ok-some (err e) h = cc h

parse_zenon_bech32-IsBech32 :
    (b : Bech32) (s hrp : Text) (n : ℕ) (raw : Bytes)
    → parse_zenon_bech32 b s hrp n ≡ ok raw
    → IsBech32 b hrp n s
unfolding parse_zenon_bech32
parse_zenon_bech32-IsBech32 b s hrp n raw h =
    let (d, read, h1) = or_err-eq-ok (b.decode s) not_bech32 _ h in
    let (same, h2) = guard-eq-ok (text_eq d.0 hrp) other_prefix _ h1 in
    let (raw', bits, h3) = or_err-eq-ok (b.to_bytes d.1) bad_bits _ h2 in
    let (size, h4) = guard-eq-ok (length raw' == n) bad_size _ h3 in
    (
      d.1,
      raw',
      read ∙ ap (λ x. some (x, d.1)) ((text_eq_iff d.0 hrp).0 same),
      bits,
      (==_iff (length raw') n).0 size,
    )

-- An offer that may be answered.
pub record IsWellformed (b : Bech32) (offer : Offer) : Type 0 where
  pub version : offer.offer_version ≡ pos 1
  pub hash : IsHex 32 offer.secret_hash
  pub pkh : IsHex 20 offer.pkh
  pub network : is_some (network_params offer.network) ≡ true
  pub leg : (offer.btc_leg ≡ send) ⊎ (offer.btc_leg ≡ receive)
  pub role : (offer.from_role ≡ initiator) ⊎ (offer.from_role ≡ participant)
  pub amount : pos 0 <ℤ offer.amount_sats
  pub zenon_amount : (offer.zenon_amt ≡ []) ⊎ (IsDecimal offer.zenon_amt × HasDigit offer.zenon_amt)
  pub address : (offer.zenon_addr ≡ []) ⊎ IsBech32 b (runes "z") 20 offer.zenon_addr
  pub token : (offer.zenon_token ≡ []) ⊎ IsBech32 b (runes "zts") 10 offer.zenon_token

canonical_cases :
    (s : Text) → canonical_zenon_amount s ≡ true → (s ≡ []) ⊎ (is_plain_decimal s ≡ true)
unfolding canonical_zenon_amount
canonical_cases [] h = inl refl
canonical_cases (c ∷ s) h = inr h

-- An offer that was read is of version 1, names a known network, one of the two legs, one of the two
-- roles and a positive amount of bitcoin, and carries the hexadecimal of a hash of 32 bytes and of a key hash
-- of 20. Its Zenon amount is blank, or digits, with a point and digits behind it or without, that
-- are not all zero; its Zenon address is blank, or bech32 of 20 bytes with the prefix z; its token is blank,
-- or bech32 of 10 bytes with the prefix zts.
pub decode_offer-IsWellformed :
    (o : OfferText) (b : Bech32) (s : Text) (offer : Offer)
    → decode_offer o b s ≡ done offer
    → IsWellformed b offer
unfolding parse_address parse_token_standard
decode_offer-IsWellformed o b s offer h =
    let f = decode_offer-IsOffer o b s offer h in
    record {
      version = f.version;
      hash = sized-some 32 (hex_decode offer.secret_hash) f.hash;
      pkh = sized-some 20 (hex_decode offer.pkh) f.pkh;
      network = f.network;
      leg = f.leg;
      role = f.role;
      amount = f.amount;
      zenon_amount = elim (canonical_cases offer.zenon_amt f.decimal) [
        | inl blank ↦ inl blank
        | inr plain ↦ elim f.not_zero [
          | inl blank ↦ inl blank
          | inr some_ ↦ inr (
            is_plain_decimal-IsDecimal offer.zenon_amt plain,
            nonzero-HasDigit offer.zenon_amt some_,
          )
        ]
      ];
      address = elim f.address [
        | inl blank ↦ inl blank
        | inr reads ↦
            let (raw, e) = is_ok-some (parse_address b offer.zenon_addr) reads in
            inr (parse_zenon_bech32-IsBech32 b offer.zenon_addr (runes "z") 20 raw e)
      ];
      token = elim f.token [
        | inl blank ↦ inl blank
        | inr reads ↦
            let (raw, e) = is_ok-some (parse_token_standard b offer.zenon_token) reads in
            inr (parse_zenon_bech32-IsBech32 b offer.zenon_token (runes "zts") 10 raw e)
      ];
    }

-- The terms that the entry of a leg is judged by: the address that it is to pay, and an amount.
pub record HasTerms (s : Swap) : Type 0 where
  pub address :
      ((zenon_htlc_is_ours s ≡ true) × (is_empty (trim_space s.zenon.peer_address) ≡ false))
      ⊎ ((zenon_htlc_is_ours s ≡ false) × (is_empty (trim_space s.zenon.self_address) ≡ false))
  pub amount : HasDigit (trim_space s.zenon.amount_display)

snoc-absurd : {P : Type 0} (xs : List MissingTerm) (m : MissingTerm) → xs ++ (m ∷ []) ≡ [] → P
snoc-absurd [] m h = cc
snoc-absurd (x ∷ xs) m h = cc

complete-HasTerms : (s : Swap) → missing_zenon_terms s ≡ [] → HasTerms s
unfolding missing_zenon_terms
complete-HasTerms s h = elim (Bool-cases (is_empty (trim_space s.zenon.amount_display))) [
  | inl blank ↦ snoc-absurd _ no_amount (rw (missing_zenon_terms, blank) at h)
  | inr given ↦ elim (Bool-cases (zero_amount (trim_space s.zenon.amount_display))) [
    | inl zero_ ↦ snoc-absurd _ amount_is_zero (rw (missing_zenon_terms, given, zero_) at h)
    | inr some_ ↦
        let h' = rw (missing_zenon_terms, given, some_) at h in
        record {
          address = elim (Bool-cases (zenon_htlc_is_ours s)) [
            | inl ours ↦ elim (Bool-cases (is_empty (trim_space s.zenon.peer_address))) [
              | inl blank ↦ cc (rw (ours, blank) at h')
              | inr there ↦ inl (ours, there)
            ]
            | inr theirs ↦ elim (Bool-cases (is_empty (trim_space s.zenon.self_address))) [
              | inl blank ↦ cc (rw (theirs, blank) at h')
              | inr there ↦ inr (theirs, there)
            ]
          ];
          amount = nonzero-HasDigit (trim_space s.zenon.amount_display) some_;
        }
  ]
]

-- A verdict that still stands after a load stands on a record that the load has not changed, and whose leg
-- has the terms that an entry is judged by: the address that the entry is to pay, the counterparty's
-- where the entry is ours and our own where it is not, and an amount that is not zero.
pub withdraw_stale_verdict-HasTerms :
    (now : ℤ) (s : Swap)
    → (withdraw_stale_verdict now s).zenon.verified ≡ true
    → (withdraw_stale_verdict now s ≡ s) × HasTerms s
withdraw_stale_verdict-HasTerms now s stands =
    let complete =
      sym (withdraw_stale_verdict_idem now now s).0
      ∙ withdraw_stale_verdict-verified now s stands in
    (withdraw_complete now s complete, complete-HasTerms s complete)
