-- ===== src/Coinbase/Pplns/Guarantees.antt =====
-- packages/coinbase/src/pplns.ts, `buildPplnsCoinbase`: when it succeeds, that the dust bucket
-- covers what is owed from it, and that no output is empty.
use mathlib.Core.List.{append-nil, append_assoc}
use hashden.Common.{
  ℕ, ◌+◌, ◌-◌, ◌≤◌, ◌<◌, ◌≡◌, refl, ◌↔◌, inl, inr, Bool, true, false, List, [], ◌∷◌, ◌++◌, map,
  none, ok, Bool-cases, arith, All, All-append, sum_of, sym, ap, ◌∙◌, if◌then◌else◌, >>=-eq-ok,
}
use hashden.Common.Int.{ℤ, pos, ◌+ℤ◌, ◌≤ℤ◌, ltb_ℤ}
use hashden.Common.Text.{Text}
use hashden.Coinbase.Output.{
  CoinbaseOutput, CoinbaseOutputKind, operator_fee, platform_fee, dust_bucket, PplnsMember,
  DustBreakdownEntry,
}
use hashden.Coinbase.Fees.{FeeSplit, split_fees}
use hashden.Coinbase.Solo.{push_positive}
use hashden.Coinbase.Pplns.{
  PplnsInput, PplnsResult, is_nil, member_output, push_fees, validate_pplns_input, share_reward,
  build_pplns_coinbase,
}
use hashden.Coinbase.Pplns.Shares.{weight, owed, paid, dusty, with_sats, dust_entry}
use hashden.Coinbase.Pplns.Validation.{IsValidInput, validate_pplns_input_iff}
use hashden.Coinbase.Pplns.Conservation.{described, bucket_sats}
use hashden.Coinbase.Pplns.Payout.{build_pplns-IsShared}

-- `buildPplnsCoinbase` returns a result exactly for the valid inputs whose fees can be split; every
-- other input is refused with an error.
pub build_pplns_iff :
    (input : PplnsInput)
    → ((result : PplnsResult) × (build_pplns_coinbase input ≡ ok result))
      ↔ (IsValidInput input × (s : FeeSplit) × (split_fees input.fees ≡ ok s))
unfolding build_pplns_coinbase
build_pplns_iff input = (
  (λ (result, h).
      let (u, valid, rest) = >>=-eq-ok (validate_pplns_input input) _ h in
      let (s, split, same) = >>=-eq-ok (split_fees input.fees) _ rest in
      ((validate_pplns_input_iff input).0 valid, s, split)),
  (λ (v, s, split). (share_reward input s, rw ((validate_pplns_input_iff input).1 v, split) refl)),
)

abbrev pub is_dust_bucket : CoinbaseOutputKind → Bool
is_dust_bucket dust_bucket = true
is_dust_bucket _ = false

-- The sats of the dust-bucket outputs, and those that the breakdown promises.
abbrev pub bucketed : List CoinbaseOutput → ℤ
bucketed [] = pos 0
bucketed (o ∷ os) = if is_dust_bucket o.kind then o.sats +ℤ bucketed os else bucketed os

abbrev pub promised : List DustBreakdownEntry → ℤ
promised [] = pos 0
promised (e ∷ es) = e.owed_sats +ℤ promised es

bucketed-members :
    (r w : ℕ) (ms : List PplnsMember) (os : List CoinbaseOutput)
    → bucketed (map member_output (map (with_sats r w) ms) ++ os) ≡ bucketed os
bucketed-members r w [] os = refl
bucketed-members r w (m ∷ ms) os = bucketed-members r w ms os

promised-dusty :
    (r w : ℕ) (ms : List PplnsMember)
    → promised (map (dust_entry r w) ms) ≡ pos (sum_of (owed r w) ms)
promised-dusty r w [] = refl
promised-dusty r w (m ∷ ms) = ground (arith, promised-dusty r w ms)

push_positive-append :
    (os ps : List CoinbaseOutput) (address : Text) (z : ℤ) (k : CoinbaseOutputKind)
    → push_positive (os ++ ps) address z k ≡ os ++ push_positive ps address z k
push_positive-append os ps address z k = ground (
  arith,
  append_assoc os ps (record { address = address; sats = z; kind = k; member_pubkey = none } ∷ []),
)

-- What `push_fees` appends stands apart from the list that it is given.
push_fees-append :
    (input : PplnsInput) (os : List CoinbaseOutput) (b o p : ℤ)
    → push_fees input os b o p ≡ os ++ push_fees input [] b o p
unfolding push_fees
push_fees-append input os b o p =
    let bucket = push_positive [] input.operator_btc_address b dust_bucket in
    let operator = push_positive bucket input.operator_btc_address o operator_fee in
    let at_bucket : push_positive os input.operator_btc_address b dust_bucket ≡ os ++ bucket =
      ap (λ l. push_positive l input.operator_btc_address b dust_bucket) (sym (append-nil os))
      ∙ push_positive-append os [] input.operator_btc_address b dust_bucket in
    ap
      (λ l.
        push_positive (push_positive l input.operator_btc_address o operator_fee)
          input.platform_btc_address p platform_fee)
      at_bucket
    ∙ ap (λ l. push_positive l input.platform_btc_address p platform_fee)
        (push_positive-append os bucket input.operator_btc_address o operator_fee)
    ∙ push_positive-append os operator input.platform_btc_address p platform_fee

bucketed-push_fees :
    (input : PplnsInput) (b o p : ℕ) → bucketed (push_fees input [] (pos b) (pos o) (pos p)) ≡ pos b
unfolding push_fees
bucketed-push_fees input b o p = ground arith

bucketed-described :
    (input : PplnsInput) (r w t o p : ℕ) (ms : List PplnsMember)
    → bucketed (described input r w t o p ms).outputs ≡ pos (bucket_sats input r w t o p ms)
bucketed-described input r w t o p ms =
    let members = map member_output (map (with_sats r w) (paid r w t ms)) in
    ap bucketed (push_fees-append input members _ _ _)
    ∙ bucketed-members r w (paid r w t ms) _
    ∙ bucketed-push_fees input _ _ p

bucket_covers :
    (r w k : ℕ) (dust : List PplnsMember)
    → sum_of (owed r w) dust ≤ (if is_nil dust then 0 else sum_of (owed r w) dust + k)
bucket_covers r w k [] = omega arith
bucket_covers r w k (d ∷ dust) = omega arith

-- The dust bucket holds at least what the breakdown promises to its members.
pub build_pplns-dust_covered :
    (input : PplnsInput) (result : PplnsResult)
    → build_pplns_coinbase input ≡ ok result
    → promised result.dust_breakdown ≤ℤ bucketed result.outputs
build_pplns-dust_covered input result h =
    let r = build_pplns-IsShared input result h in
    let w : ℕ = sum_of weight input.members in
    let f = r.f in
    elim r.outcome [
      | inl (_, e) ↦
          rw (e, bucketed-push_fees input f.remaining f.operator f.platform) (omega arith)
      | inr (_, e) ↦
          rw
            (
              e,
              bucketed-described input f.remaining w f.threshold f.operator f.platform
                  input.members,
              promised-dusty f.remaining w (dusty f.remaining w f.threshold input.members),
            )
            (omega (
              arith,
              bucket_covers f.remaining w (f.remaining - sum_of (owed f.remaining w) input.members)
                  (dusty f.remaining w f.threshold input.members),
            ))
    ]

abbrev pub IsPositive : CoinbaseOutput → Type 0
IsPositive o = ltb_ℤ (pos 0) o.sats ≡ true

push_positive-IsPositive :
    (os : List CoinbaseOutput) (address : Text) (z : ℤ) (k : CoinbaseOutputKind)
    → All IsPositive os
    → All IsPositive (push_positive os address z k)
push_positive-IsPositive os address z k h = elim (Bool-cases (ltb_ℤ (pos 0) z)) [
  | inl positive ↦ rw positive (All-append IsPositive os _ h (positive, tt))
  | inr not_positive ↦ rw not_positive h
]

push_fees-IsPositive :
    (input : PplnsInput) (os : List CoinbaseOutput) (b o p : ℤ)
    → All IsPositive os
    → All IsPositive (push_fees input os b o p)
unfolding push_fees
push_fees-IsPositive input os b o p h =
    push_positive-IsPositive _ input.platform_btc_address p platform_fee (
      push_positive-IsPositive _ input.operator_btc_address o operator_fee
        (push_positive-IsPositive os input.operator_btc_address b dust_bucket h))

members-IsPositive :
    (r w t : ℕ)
    → 0 < t
    → (ms : List PplnsMember)
    → All IsPositive (map member_output (map (with_sats r w) (paid r w t ms)))
members-IsPositive r w t h [] = tt
members-IsPositive r w t h (m ∷ ms) = ground (arith, members-IsPositive r w t h ms)

-- With a dust threshold above zero no output is empty. (With a threshold of zero a member whose
-- share rounds to nothing gets an output of zero sats.)
pub build_pplns-IsPositive :
    (input : PplnsInput) (result : PplnsResult)
    → ltb_ℤ (pos 0) input.dust_threshold_sats ≡ true
    → build_pplns_coinbase input ≡ ok result
    → All IsPositive result.outputs
build_pplns-IsPositive input result positive h =
    let r = build_pplns-IsShared input result h in
    let w : ℕ = sum_of weight input.members in
    let f = r.f in
    elim r.outcome [
      | inl (_, e) ↦ rw e (push_fees-IsPositive input [] _ _ _ tt)
      | inr (_, e) ↦ rw e (
          push_fees-IsPositive input _ _ _ _ (
            members-IsPositive f.remaining w f.threshold (ground (arith, f.threshold_is))
              input.members))
    ]
