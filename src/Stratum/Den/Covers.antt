-- ===== src/Stratum/Den/Covers.antt =====
-- apps/stratum/src/hashden/hashden.service.ts: the payouts of a den are outputs that cover the reward.
use hashden.Common.{
  ◌≡◌, refl, sym, subst, Bool, true, false, not, List, map, Result, ok, err, >>=-eq-ok,
  if◌then◌else◌, All, Bool-cases, Option, none, some, ◌⊎◌, inl, inr, throw_if,
}
use hashden.Common.Int.{ℤ}
use hashden.Common.Text.{Text, codes, text_eq}
use hashden.Coinbase.Output.{JsNumber, CoinbaseOutput, CoinbaseError, total_sats}
use hashden.Coinbase.Solo.Payment.{build_solo-total}
use hashden.Coinbase.Pplns.{PplnsResult}
use hashden.Coinbase.Pplns.Payout.{build_pplns-total}
use hashden.Coinbase.Natural.{IsNatural, build_pplns-IsNatural, build_solo-IsNatural}
use hashden.Groups.Window.{compute_pplns_window}
use hashden.Stratum.MiningJob.{AddressObject}
use hashden.Stratum.Den.{
  DenRow, DenError, den_not_found, member_not_found, not_solo_showcase, not_pplns, built, windowed,
  window_size, Registry, found, given, is_solo_showcase, get_solo_showcase_payouts,
  get_pplns_payouts, outputs_of, payouts_of, to_address_percent, get_upstream_payout_information,
}

-- Outputs that a builder may return for the reward.
abbrev pub Covers : ℤ → List CoinbaseOutput → Type 0
Covers reward outputs = (total_sats outputs ≡ reward) × All IsNatural outputs

either_ok :
    {A E : Type 0}
    → (b : Bool) (x y : Result E A) (a : A) → (if b then x else y) ≡ ok a
    → (x ≡ ok a) ⊎ (y ≡ ok a)
either_ok true x y a h = inl h
either_ok false x y a h = inr h

built-ok : {A : Type 0} → (r : Result CoinbaseError A) (a : A) → built r ≡ ok a → r ≡ ok a
built-ok (err e) a h = cc
built-ok (ok b) a h = cc

module _ {D N : Type 0} (registry : Registry D N) where
  solo-Covers :
      (group_id miner : Text) (reward : ℤ) (platform : Text) (bps : JsNumber)
      (outputs : List CoinbaseOutput)
      → get_solo_showcase_payouts registry group_id miner reward platform bps ≡ ok outputs
      → Covers reward outputs
  unfolding get_solo_showcase_payouts
  solo-Covers group_id miner reward platform bps outputs h =
      let (den, is_den, h₁) = >>=-eq-ok (found den_not_found (registry.find_den group_id)) _ h in
      let (u, is_rule, h₂) =
        >>=-eq-ok (throw_if (not (is_solo_showcase den)) not_solo_showcase) _ h₁ in
      let (address, is_address, h₃) =
        >>=-eq-ok (found member_not_found (registry.find_address group_id miner)) _ h₂ in
      let ok_built = built-ok _ outputs h₃ in
      (build_solo-total _ outputs ok_built, build_solo-IsNatural _ outputs ok_built)

  pplns-Covers :
      (group_id : Text) (reward : ℤ) (platform : Text) (bps : JsNumber) (threshold : ℤ)
      (size : JsNumber) (result : PplnsResult)
      → get_pplns_payouts registry group_id reward platform bps threshold size ≡ ok result
      → Covers reward result.outputs
  unfolding get_pplns_payouts
  pplns-Covers group_id reward platform bps threshold size result h =
      let (den, is_den, h₁) = >>=-eq-ok (found den_not_found (registry.find_den group_id)) _ h in
      let (u, is_rule, h₂) =
        >>=-eq-ok (throw_if (not (text_eq den.payout_rule (codes "PPLNS"))) not_pplns) _ h₁ in
      let (members, is_window, h₃) =
        >>=-eq-ok
          (windowed (
            compute_pplns_window registry.scaled registry.find_shares registry.find_members group_id
              size))
          _ h₂ in
      let ok_built = built-ok _ result h₃ in
      (build_pplns-total _ result ok_built, build_pplns-IsNatural _ result ok_built)

  outputs_of-ok :
      (r : Result DenError PplnsResult) (outputs : List CoinbaseOutput)
      → outputs_of registry r ≡ ok outputs
      → (result : PplnsResult) × (r ≡ ok result) × (result.outputs ≡ outputs)
  outputs_of-ok (err e) outputs h = cc
  outputs_of-ok (ok result) outputs h = (result, refl, cc)

  payouts_of-Covers :
      (den : DenRow) (group_id : Text) (reward : ℤ) (miner platform : Text)
      (outputs : List CoinbaseOutput)
      → payouts_of registry den group_id reward miner platform ≡ ok outputs
      → Covers reward outputs
  payouts_of-Covers den group_id reward miner platform outputs h =
      elim (either_ok (is_solo_showcase den) _ _ outputs h) [
        | inl solo ↦
            solo-Covers group_id miner reward platform registry.platform_fee_bps outputs solo
        | inr shared ↦
            let (result, is, same) =
              outputs_of-ok
                (get_pplns_payouts registry group_id reward platform registry.platform_fee_bps
                  den.dust_threshold window_size)
                outputs shared in
            subst (Covers reward) same (
              pplns-Covers group_id reward platform registry.platform_fee_bps den.dust_threshold
                window_size result is)
      ]

  -- SOLO_SHOWCASE pays the member that found the block, and each other rule pays the den's window.
  abbrev pub BuiltBy : DenRow → Text → Text → ℤ → Text → List CoinbaseOutput → Type 0
  BuiltBy den platform group_id reward miner outputs =
      (is_solo_showcase den ≡ true)
        × (get_solo_showcase_payouts registry group_id miner reward platform
              registry.platform_fee_bps
            ≡ ok outputs)
      ⊎ (result : PplnsResult) × (is_solo_showcase den ≡ false)
        × (get_pplns_payouts registry group_id reward platform registry.platform_fee_bps
              den.dust_threshold window_size
            ≡ ok result)
        × (result.outputs ≡ outputs)

  -- The outputs that the builder of the rule of the group's den returns.
  abbrev pub Builds : Text → ℤ → Text → List CoinbaseOutput → Type 0
  Builds group_id reward miner outputs =
      (den : DenRow) × (platform : Text) × (registry.find_den group_id ≡ some den)
      × (given registry.platform_btc_address ≡ ok platform)
      × BuiltBy den platform group_id reward miner outputs

  payouts_of-built :
      (den : DenRow) (group_id : Text) (reward : ℤ) (miner platform : Text)
      (outputs : List CoinbaseOutput)
      → payouts_of registry den group_id reward miner platform ≡ ok outputs
      → BuiltBy den platform group_id reward miner outputs
  payouts_of-built den group_id reward miner platform outputs h =
      elim (Bool-cases (is_solo_showcase den)) [
        | inl solo ↦ inl (solo, (rw solo at h))
        | inr shared ↦
            let (result, is, same) = outputs_of-ok _ outputs (rw shared at h) in
            inr (result, shared, is, same)
      ]

  -- The payouts of a den are the outputs of its rule's builder, in order, each as the percentage that
  -- it is of the reward.
  abbrev pub IsPayout : Text → Text → ℤ → List (AddressObject N) → Type 0
  IsPayout group_id miner reward payout =
      (outputs : List CoinbaseOutput) × (payout ≡ map (to_address_percent registry reward) outputs)
      × Builds group_id reward miner outputs
      × Covers reward outputs

  pub get_upstream_payout_information-IsPayout :
      (group_id : Text) (reward : ℤ) (miner : Text) (payout : List (AddressObject N))
      → get_upstream_payout_information registry group_id reward miner ≡ ok payout
      → IsPayout group_id miner reward payout
  unfolding get_upstream_payout_information
  get_upstream_payout_information-IsPayout group_id reward miner payout h =
      let (den, is_den, h₁) = >>=-eq-ok (found den_not_found (registry.find_den group_id)) _ h in
      let (platform, is_platform, h₂) = >>=-eq-ok (given registry.platform_btc_address) _ h₁ in
      let (outputs, is_outputs, h₃) =
        >>=-eq-ok (payouts_of registry den group_id reward miner platform) _ h₂ in
      (
        outputs,
        sym (same _ payout h₃),
        (
          den,
          platform,
          found-some _ den is_den,
          is_platform,
          payouts_of-built den group_id reward miner platform outputs is_outputs,
        ),
        payouts_of-Covers den group_id reward miner platform outputs is_outputs,
      )
    where
      found-some :
          (a : Option DenRow) (den : DenRow)
          → ◌≡◌ {A = Result DenError DenRow} (found den_not_found a) (ok den)
          → a ≡ some den
      found-some none den e = cc
      found-some (some b) den e = cc

      same :
          (a b : List (AddressObject N))
          → ◌≡◌ {A = Result DenError (List (AddressObject N))} (ok a) (ok b)
          → a ≡ b
      same a b e = cc
