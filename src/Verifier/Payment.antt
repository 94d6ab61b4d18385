-- ===== src/Verifier/Payment.antt =====
-- apps/verifier/src/verify.ts, `verifyOutputs`: what the check says of a coinbase.
use hashden.Common.{
  ℕ, suc, ◌+◌, ◌≡◌, ◌≢◌, ◌↔◌, ◌⊎◌, refl, sym, ap, ◌∙◌, Bool, true, false, ◌||◌, ◌==◌, List, [], ◌∷◌,
  if◌then◌else◌, arith, Bool-cases, inl, inr,
}
use hashden.Common.Int.{ℤ, pos, ◌+ℤ◌, ltb_ℤ, leb_ℤ, eqb_ℤ, +ℤ_assoc, +ℤ-zero}
use hashden.Verifier.{
  CoinbaseOutputParsed, PayoutRule, pplns, solo_showcase, scripts_equal, Tally, nothing_counted,
  count_output, count_outputs, floor_of, VerifyConfig, rule_accepts, accepts, verify_outputs,
}

pub scripts_equal_iff : (s t : List ℕ) → (scripts_equal s t ≡ true) ↔ (s ≡ t)
unfolding scripts_equal
scripts_equal_iff [] [] = ((λ h. refl), (λ h. refl))
scripts_equal_iff [] (d ∷ t) = ground arith
scripts_equal_iff (c ∷ s) [] = ground arith
scripts_equal_iff (c ∷ s) (d ∷ t) = ground (arith, scripts_equal_iff s t)

-- What the outputs with a script pay, and how many they are.
abbrev pub paid_to : List ℕ → List CoinbaseOutputParsed → ℤ
paid_to script [] = pos 0
paid_to script (o ∷ os) =
    if scripts_equal o.script_pub_key script
    then o.value_sats +ℤ paid_to script os
    else paid_to script os

abbrev pub outputs_to : List ℕ → List CoinbaseOutputParsed → ℕ
outputs_to script [] = 0
outputs_to script (o ∷ os) =
    if scripts_equal o.script_pub_key script
    then suc (outputs_to script os)
    else outputs_to script os

-- Some output has the script.
abbrev pub IsPaid : List ℕ → List CoinbaseOutputParsed → Type 0
IsPaid script [] = ⊥
IsPaid script (o ∷ os) = (o.script_pub_key ≡ script) ⊎ IsPaid script os

outputs_to_iff :
    (script : List ℕ) (outs : List CoinbaseOutputParsed)
    → ((outputs_to script outs == 0) ≡ false) ↔ IsPaid script outs
outputs_to_iff script [] = ((λ h. absurd (ground arith)), (λ h. absurd h))
outputs_to_iff script (o ∷ os) = elim (Bool-cases (scripts_equal o.script_pub_key script)) [
  | inl mine ↦
      rw mine ((λ h. inl ((scripts_equal_iff o.script_pub_key script).0 mine)), (λ h. ground arith))
  | inr other ↦ rw other (
    (λ h. inr ((outputs_to_iff script os).0 h)),
    (λ h. elim h [
      | inl same ↦ absurd (ground (arith, (scripts_equal_iff o.script_pub_key script).1 same))
      | inr later ↦ (outputs_to_iff script os).1 later
    ]),
  )
]

eqb_ℤ_iff : (z : ℤ) → (eqb_ℤ z (pos 0) ≡ false) ↔ (z ≢ pos 0)
eqb_ℤ_iff (pos n) = (
  (λ h e. ground arith),
  (λ h. elim (Bool-cases (eqb_ℤ (pos n) (pos 0))) [
    | inl zero ↦ absurd (h (ap pos (ground arith)))
    | inr apart ↦ apart
  ]),
)
eqb_ℤ_iff (ℤ.negsuc n) = ((λ h e. ground arith), (λ h. ground arith))

accepts_parts :
    (a b r : Bool) → ((if a || b then false else r) ≡ true) ↔ ((a ≡ false) × (b ≡ false) × r ≡ true)
accepts_parts true b r = ((λ h. absurd (ground arith)), (λ h. absurd (ground arith)))
accepts_parts false true r = ((λ h. absurd (ground arith)), (λ h. absurd (ground arith)))
accepts_parts false false r = ((λ h. (refl, refl, h)), (λ h. h.2))

abbrev pub paid_in_all : List CoinbaseOutputParsed → ℤ
paid_in_all [] = pos 0
paid_in_all (o ∷ os) = o.value_sats +ℤ paid_in_all os

+ℤ-start : (z : ℤ) → pos 0 +ℤ z ≡ z
+ℤ-start (pos n) = ground arith
+ℤ-start (ℤ.negsuc n) = ground arith

tally_of :
    {a b c d : ℤ} {m n : ℕ}
    → a ≡ b
    → c ≡ d
    → m ≡ n
    → ◌≡◌ {A = Tally}
        (record { my_sats = a; total_sats = c; my_output_count = m })
        (record { my_sats = b; total_sats = d; my_output_count = n })
tally_of p q r = cc

count_outputs-eq :
    (script : List ℕ) (outs : List CoinbaseOutputParsed) (t : Tally)
    → count_outputs script outs t ≡ record {
      my_sats = t.my_sats +ℤ paid_to script outs;
      total_sats = t.total_sats +ℤ paid_in_all outs;
      my_output_count = t.my_output_count + outputs_to script outs;
    }
unfolding count_outputs count_output
count_outputs-eq script [] t =
    tally_of (sym (+ℤ-zero t.my_sats)) (sym (+ℤ-zero t.total_sats)) (omega arith)
count_outputs-eq script (o ∷ outs) t = elim (Bool-cases (scripts_equal o.script_pub_key script)) [
  | inl mine ↦
      count_outputs-eq script outs (count_output script o t)
      ∙ rw mine (
          tally_of (+ℤ_assoc t.my_sats o.value_sats (paid_to script outs))
            (+ℤ_assoc t.total_sats o.value_sats (paid_in_all outs)) (omega arith))
  | inr other ↦
      count_outputs-eq script outs (count_output script o t)
      ∙ rw other (tally_of refl (+ℤ_assoc t.total_sats o.value_sats (paid_in_all outs)) refl)
]

module _ {R : Type 0} (ratio : ℤ → ℤ → R) (no_share : R) (less : R → R → Bool) where
  -- The tally of the verifier: what all outputs pay, what those with the miner's script pay, and how many
  -- these are; the verdict is the rule's on this tally.
  pub verify_outputs-eq :
      (script : List ℕ) (outs : List CoinbaseOutputParsed) (cfg : VerifyConfig ratio no_share less)
      → let r = verify_outputs ratio no_share less script outs cfg in
        let t : Tally = record {
          my_sats = paid_to script outs;
          total_sats = paid_in_all outs;
          my_output_count = outputs_to script outs;
        } in
        (r.tally ≡ t) × (r.accepted ≡ accepts ratio no_share less cfg t)
  unfolding verify_outputs
  verify_outputs-eq script outs cfg =
      let same =
        count_outputs-eq script outs nothing_counted
        ∙ tally_of (+ℤ-start (paid_to script outs)) (+ℤ-start (paid_in_all outs)) (omega arith) in
      (same, ap (accepts ratio no_share less cfg) same)

  -- What is left for a rule to ask of a miner who is paid at all.
  abbrev pub IsEnough :
      VerifyConfig ratio no_share less → PayoutRule → List ℕ → List CoinbaseOutputParsed → Type 0
  IsEnough cfg pplns script outs = leb_ℤ (floor_of cfg.min_sats) (paid_to script outs) ≡ true
  IsEnough cfg solo_showcase script outs =
      less
        (if ltb_ℤ (pos 0) (paid_in_all outs)
          then ratio (paid_to script outs) (paid_in_all outs)
          else no_share)
        cfg.min_reward_share
      ≡ false

  rule_accepts_iff :
      (cfg : VerifyConfig ratio no_share less) (rule : PayoutRule) (script : List ℕ)
      (outs : List CoinbaseOutputParsed) (n : ℕ)
      → let t : Tally = record {
        my_sats = paid_to script outs;
        total_sats = paid_in_all outs;
        my_output_count = n;
      } in
        (rule_accepts ratio no_share less cfg rule t ≡ true) ↔ IsEnough cfg rule script outs
  rule_accepts_iff cfg pplns script outs n = ground arith
  rule_accepts_iff cfg solo_showcase script outs n = ground arith

  -- The check of a coinbase accepts exactly where some output has the miner's script, the sum of these
  -- outputs is not zero, and the rule is content: under PPLNS the sum is not below the floor, under
  -- SOLO_SHOWCASE its share of all outputs is not less than the least share.
  pub verify_outputs_iff :
      (script : List ℕ) (outs : List CoinbaseOutputParsed) (cfg : VerifyConfig ratio no_share less)
      → ((verify_outputs ratio no_share less script outs cfg).accepted ≡ true) ↔ (
          IsPaid script outs
          × (paid_to script outs ≢ pos 0)
          × IsEnough cfg cfg.payout_rule script outs)
  verify_outputs_iff script outs cfg =
      let n = outputs_to script outs in
      let t : Tally = record {
        my_sats = paid_to script outs;
        total_sats = paid_in_all outs;
        my_output_count = n;
      } in
      let judged = (verify_outputs-eq script outs cfg).1 in
      let (split, joined) =
        accepts_parts (n == 0) (eqb_ℤ (paid_to script outs) (pos 0))
          (rule_accepts ratio no_share less cfg cfg.payout_rule t) in
      let paid = outputs_to_iff script outs in
      let some_sats = eqb_ℤ_iff (paid_to script outs) in
      let rule = rule_accepts_iff cfg cfg.payout_rule script outs n in
      (
        (λ h.
            let (counted, value, content) = split (sym judged ∙ h) in
            (paid.0 counted, some_sats.0 value, rule.0 content)),
        (λ h. judged ∙ joined (paid.1 h.0, some_sats.1 h.1, rule.1 h.2)),
      )
