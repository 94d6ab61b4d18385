-- ===== src/Coinbase/Pplns/Conservation.antt =====
-- packages/coinbase/src/pplns.ts: the outputs against a description that does not mention the loop,
-- and the sats that they pay.
use hashden.Common.{
  ℕ, ◌+◌, ◌-◌, ◌≤◌, ◌≡◌, refl, List, [], ◌∷◌, ◌++◌, map, none, ok, >>=-eq-ok, arith, sum_of, sym,
  ap, ◌∙◌, if◌then◌else◌,
}
use hashden.Common.Int.{pos, ◌+ℤ◌, +ℤ-zero, +ℤ_assoc}
use hashden.Common.Text.{Text}
use hashden.Coinbase.Output.{
  CoinbaseOutput, CoinbaseOutputKind, operator_fee, platform_fee, dust_bucket, PplnsMember,
  total_sats,
}
use hashden.Coinbase.Fees.{FeeSplit, split_fees}
use hashden.Coinbase.Solo.{push_positive}
use hashden.Coinbase.Pplns.{
  PplnsInput, PplnsResult, is_nil, nothing_allocated, validate_pplns_input, member_output,
  push_fees, finalize, share_reward, build_pplns_coinbase,
}
use hashden.Coinbase.Pplns.Shares.{
  owed, paid, dusty, with_sats, dust_entry, allocated, sum-paid-dusty,
}
use hashden.Coinbase.Pplns.Validation.{IsValidInput, validate_pplns_input_iff}

total_sats-append :
    (os ps : List CoinbaseOutput) → total_sats (os ++ ps) ≡ total_sats os +ℤ total_sats ps
total_sats-append [] ps = ground arith
total_sats-append (o ∷ os) ps =
    rw (total_sats-append os ps) (sym (+ℤ_assoc o.sats (total_sats os) (total_sats ps)))

-- An amount that is not negative counts in full, also where no output is pushed for it.
total_sats-push_positive :
    (os : List CoinbaseOutput) (address : Text) (n : ℕ) (kind : CoinbaseOutputKind)
    → total_sats (push_positive os address (pos n) kind) ≡ total_sats os +ℤ pos n
total_sats-push_positive os address n kind = ground (
  arith,
  total_sats-append os
      (record { address = address; sats = pos n; kind = kind; member_pubkey = none } ∷ []),
  +ℤ-zero (total_sats os),
  +ℤ-zero (pos n),
)

pub total_sats-push_fees :
    (input : PplnsInput) (os : List CoinbaseOutput) (b o p k : ℕ)
    → total_sats os ≡ pos k
    → total_sats (push_fees input os (pos b) (pos o) (pos p)) ≡ pos (k + b + o + p)
unfolding push_fees
total_sats-push_fees input os b o p k e =
    let bucket = push_positive os input.operator_btc_address (pos b) dust_bucket in
    let operator = push_positive bucket input.operator_btc_address (pos o) operator_fee in
    total_sats-push_positive operator input.platform_btc_address p platform_fee
    ∙ ap (λ z. z +ℤ pos p)
        (total_sats-push_positive bucket input.operator_btc_address o operator_fee
          ∙ ap (λ z. z +ℤ pos o)
              (total_sats-push_positive os input.operator_btc_address b dust_bucket
                ∙ ap (λ z. z +ℤ pos b) e))

total_sats-members :
    (r w : ℕ) (ms : List PplnsMember)
    → total_sats (map member_output (map (with_sats r w) ms)) ≡ pos (sum_of (owed r w) ms)
total_sats-members r w [] = refl
total_sats-members r w (m ∷ ms) = ground (arith, total_sats-members r w ms)

-- The parts of a successful build.
pub build_pplns-parts :
    (input : PplnsInput) (result : PplnsResult)
    → build_pplns_coinbase input ≡ ok result
    → IsValidInput input
      × (s : FeeSplit) × (split_fees input.fees ≡ ok s)
      × (result ≡ share_reward input s)
unfolding build_pplns_coinbase
build_pplns-parts input result h =
    let (u, valid, rest) = >>=-eq-ok (validate_pplns_input input) _ h in
    let (s, split, same) = >>=-eq-ok (split_fees input.fees) _ rest in
    ((validate_pplns_input_iff input).0 valid, s, split, ground arith)

module _ (input : PplnsInput) (r w t o p : ℕ) where
  -- What the floors leave of the remaining sats.
  abbrev pub leftover : List PplnsMember → ℕ
  leftover ms = r - sum_of (owed r w) ms

  -- The sats of the dust bucket, and the operator's.
  abbrev pub bucket_sats : List PplnsMember → ℕ
  bucket_sats ms =
      if is_nil (dusty r w t ms) then 0 else sum_of (owed r w) (dusty r w t ms) + leftover ms

  abbrev pub operator_sats : List PplnsMember → ℕ
  operator_sats ms = if is_nil (dusty r w t ms) then o + leftover ms else o

  -- The result for fees of `o` and `p`, when `r` sats remain for members of total weight `w`.
  abbrev pub described : List PplnsMember → PplnsResult
  described ms = record {
    outputs =
        push_fees input (map member_output (map (with_sats r w) (paid r w t ms)))
          (pos (bucket_sats ms)) (pos (operator_sats ms)) (pos p);
    dust_breakdown = map (dust_entry r w) (dusty r w t ms);
  }

  finalize_from :
      (above dust : List PplnsMember) (sum : ℕ)
      → sum ≤ r
      → finalize input
          (record { operator_fee_sats = pos o; platform_fee_sats = pos p; remaining_sats = pos r })
          (record {
            above_dust = map (with_sats r w) above;
            dust_breakdown = map (dust_entry r w) dust;
            dust_bucket_sats = pos (0 + sum_of (owed r w) dust);
            allocated_sats = pos (0 + sum);
          })
        ≡ record {
          outputs =
              push_fees input
                (map member_output (map (with_sats r w) above))
                (pos (if is_nil dust then 0 else sum_of (owed r w) dust + (r - sum)))
                (pos (if is_nil dust then o + (r - sum) else o))
                (pos p);
          dust_breakdown = map (dust_entry r w) dust;
        }
  unfolding finalize
  finalize_from above [] sum h = ground arith
  finalize_from above (d ∷ dust) sum h = ground arith

  pub finalize-eq :
      (ms : List PplnsMember)
      → sum_of (owed r w) ms ≤ r
      → finalize input
          (record { operator_fee_sats = pos o; platform_fee_sats = pos p; remaining_sats = pos r })
          (allocated r w t nothing_allocated ms)
        ≡ described ms
  finalize-eq ms h = finalize_from (paid r w t ms) (dusty r w t ms) (sum_of (owed r w) ms) h

  described_total :
      (dust : List PplnsMember) (paid_sum sum : ℕ)
      → paid_sum + sum_of (owed r w) dust ≡ sum
      → sum ≤ r
      → paid_sum
          + (if is_nil dust then 0 else sum_of (owed r w) dust + (r - sum))
          + (if is_nil dust then o + (r - sum) else o)
          + p
        ≡ r + o + p
  described_total [] a s e h = ground arith
  described_total (d ∷ dust) a s e h = omega arith

  pub described-total :
      (ms : List PplnsMember)
      → sum_of (owed r w) ms ≤ r
      → total_sats (described ms).outputs ≡ pos (r + o + p)
  described-total ms h =
      total_sats-push_fees input (map member_output (map (with_sats r w) (paid r w t ms)))
        (bucket_sats ms) (operator_sats ms) p (sum_of (owed r w) (paid r w t ms))
        (total_sats-members r w (paid r w t ms))
      ∙ ap pos (
          described_total (dusty r w t ms) (sum_of (owed r w) (paid r w t ms))
            (sum_of (owed r w) ms) (sum-paid-dusty r w t ms) h)
