-- ===== src/Stratum/Jobs/Found.antt =====
-- apps/stratum/src/services/stratum-v1-jobs.service.ts: exactly which jobs and templates are found after an
-- event that delivers a template.
use hashden.Common.{
  ℕ, ◌+◌, ◌≤◌, ◌≡◌, ◌↔◌, ◌⊎◌, refl, sym, ap, ◌∙◌, Bool, true, false, Option, none, some, some-inj,
  arith, Bool-cases, inl, inr,
}
use hashden.Common.Int.{ℤ}
use hashden.Common.Text.{Text, text_eq, text_eq_iff}
use hashden.Common.Dict.{unless}
use hashden.Stratum.MiningJob.{MiningJob}
use hashden.Stratum.Jobs.{
  JobTemplate, RawTemplate, JobsService, max_age, get_job_by_id, get_job_template_by_id, is_old_job,
  is_old_template, next_template,
}
use hashden.Stratum.Jobs.Ids.{IsValid}
use hashden.Stratum.Jobs.Expiry.{left, absent_apart, next_template-lookups}

young_job_iff :
    (now : ℕ) (job : MiningJob) → (is_old_job now job ≡ false) ↔ (now ≤ job.creation + max_age)
young_job_iff now job = ((λ h. ground arith), (λ h. ground arith))

some_of_unless :
    {V : Type 0}
    → (old : V → Bool) (w v : V) → unless old (some w) ≡ some v
    → (some w ≡ some v) × (old v ≡ false)
some_of_unless old w v h = elim (Bool-cases (old w)) [
  | inl gone ↦ absurd (absent_apart (rw gone at h))
  | inr young ↦ let e : some w ≡ some v = rw young at h in (e, ap old (sym (some-inj e)) ∙ young)
]

left-some_iff :
    {V P : Type 0}
    → (clear : Bool) (old : V → Bool) (o : Option V) (v : V) → (old v ≡ false) ↔ P
    → (left clear old o ≡ some v) ↔ ((clear ≡ false) × (o ≡ some v) × P)
left-some_iff true old o v young = ((λ h. absurd (ground arith)), (λ h. absurd (ground arith)))
left-some_iff false old none v young =
    ((λ h. absurd (ground arith)), (λ h. absurd (ground (arith, h.1))))
left-some_iff false old (some w) v young = (
  (λ h. let (same, kept) = some_of_unless old w v h in (refl, same, young.0 kept)),
  (λ h. ap (unless old) h.1 ∙ rw (young.1 h.2) refl),
)

module _ {N : Type 0} where
  young_template_iff :
      (now : ℕ) (t : JobTemplate N)
      → (is_old_template now t ≡ false) ↔ (now ≤ t.block_data.created + max_age)
  young_template_iff now t = ((λ h. ground arith), (λ h. ground arith))

  -- After an event that delivers a template, exactly these are found: of the jobs, where the template
  -- does not clear them, those that were found before and are at most five minutes old; of the templates,
  -- the new one under its own id, under which none was found before, and where it does not clear them,
  -- those that were found before and are at most five minutes old.
  pub next_template-found_iff :
      (now : ℕ) (count : ℤ) (raw : RawTemplate N) (s : JobsService N) (t : JobTemplate N)
      → IsValid s
      → (next_template now count raw s).0 ≡ some t
      → (id : Text) (job : MiningJob) (u : JobTemplate N)
      → let s' = (next_template now count raw s).1 in
        let clear = t.block_data.clear_jobs in
        ((get_job_by_id id s' ≡ some job)
          ↔ ((clear ≡ false) × (get_job_by_id id s ≡ some job) × now ≤ job.creation + max_age))
        × ((get_job_template_by_id id s' ≡ some u) ↔ (
            (t.block_data.id ≡ id) × (t ≡ u)
            ⊎ (clear ≡ false)
              × (get_job_template_by_id id s ≡ some u)
              × now ≤ u.block_data.created + max_age))
        × (get_job_template_by_id t.block_data.id s ≡ none)
  next_template-found_iff now count raw s t v h id job u =
      let (jobs, blocks, fresh) = next_template-lookups now count raw s t v h id in
      let clear = t.block_data.clear_jobs in
      let job_left =
        left-some_iff clear (is_old_job now) (get_job_by_id id s) job (young_job_iff now job) in
      let template_left =
        left-some_iff clear (is_old_template now) (get_job_template_by_id id s) u
          (young_template_iff now u) in
      (
        ((λ e. job_left.0 (sym jobs ∙ e)), (λ k. jobs ∙ job_left.1 k)),
        elim (Bool-cases (text_eq t.block_data.id id)) [
          | inl same ↦ (
            (λ e. inl (
              (text_eq_iff t.block_data.id id).0 same,
              some-inj (sym (blocks ∙ rw same refl) ∙ e),
            )),
            (λ k. elim k [
              | inl new ↦ blocks ∙ rw same (ap some new.1)
              | inr old ↦ absurd (
                  absent_apart (
                    sym fresh
                    ∙ ap (λ i. get_job_template_by_id i s) ((text_eq_iff t.block_data.id id).0 same)
                    ∙ old.1))
            ]),
          )
          | inr apart ↦ (
            (λ e. inr (template_left.0 (sym (blocks ∙ rw apart refl) ∙ e))),
            (λ k. elim k [
              | inl new ↦ absurd (ground (arith, (text_eq_iff t.block_data.id id).1 new.0, apart))
              | inr old ↦ blocks ∙ rw apart (template_left.1 old)
            ]),
          )
        ],
        fresh,
      )
