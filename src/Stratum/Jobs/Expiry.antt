-- ===== src/Stratum/Jobs/Expiry.antt =====
-- apps/stratum/src/services/stratum-v1-jobs.service.ts: which jobs and templates are found after an event.
use hashden.Common.{
  ℕ, ◌≡◌, refl, sym, ap, ◌∙◌, subst, Bool, true, false, Option, none, some, some-inj, if◌then◌else◌,
  arith, Bool-cases, inl, inr,
}
use hashden.Common.Int.{ℤ}
use hashden.Common.Text.{Text, text_eq, text_eq_iff}
use hashden.Common.Dict.{lookup, unless, lookup_of_Misses, lookup-insert, lookup-delete_if}
use hashden.Stratum.MiningJob.{MiningJob}
use hashden.Stratum.Jobs.{
  JobTemplate, RawTemplate, JobsService, Tick, get_job_by_id, get_job_template_by_id,
  get_next_template_id, is_old_job, is_old_template, build_job_template, note_tick, drop_stale,
  keep_template, deliver, next_template,
}
use hashden.Stratum.Jobs.Ids.{IsValid, next-Misses, build_job_template-IsValid, note_tick-IsValid}

-- What is left of a value when the jobs are cleared, or when the old ones are deleted.
module _ {V : Type 0} where
  abbrev pub left : Bool → (V → Bool) → Option V → Option V
  left true old o = none
  left false old o = unless old o

  left-else :
      (clear : Bool) (old : V → Bool) (b : Bool) (v w : V) (o : Option V)
      → (if b then some w else left clear old (if b then some v else o))
        ≡ (if b then some w else left clear old o)
  left-else clear old true v w o = refl
  left-else clear old false v w o = refl

pub absent_apart : {V : Type 0} {v : V} → ◌≡◌ {A = Option V} none (some v) → ⊥
absent_apart e = cc

module _ {N : Type 0} where
  abbrev Finds : Text → Option MiningJob → Option (JobTemplate N) → JobsService N → Type 0
  Finds id job template s = (get_job_by_id id s ≡ job) × (get_job_template_by_id id s ≡ template)

  drop_stale-Finds :
      (now : ℕ) (clear : Bool) (id : Text) (s : JobsService N)
      → IsValid s
      → Finds id
          (left clear (is_old_job now) (get_job_by_id id s))
          (left clear (is_old_template now) (get_job_template_by_id id s))
          (drop_stale now clear s)
  unfolding lookup
  drop_stale-Finds now true id s v = (refl, refl)
  drop_stale-Finds now false id s v = (
    lookup-delete_if id (is_old_job now) s.jobs v.jobs_distinct,
    lookup-delete_if id (is_old_template now) s.blocks v.blocks_distinct,
  )

  delivered-lookups :
      (now : ℕ) (raw : RawTemplate N) (clear : Bool) (s : JobsService N) (id : Text)
      → IsValid s
      → let (t, s') = build_job_template now raw clear s in
        let kept = keep_template t (drop_stale now clear s') in
        (get_job_by_id id kept ≡ left clear (is_old_job now) (get_job_by_id id s))
        × (get_job_template_by_id id kept ≡ (
            if text_eq t.block_data.id id
            then some t
            else left clear (is_old_template now) (get_job_template_by_id id s)))
        × (get_job_template_by_id t.block_data.id s ≡ none)
  unfolding build_job_template
  delivered-lookups now raw clear s id v =
      let (t, s') = build_job_template now raw clear s in
      let dropped =
        drop_stale-Finds now clear id s' (build_job_template-IsValid now raw clear s v) in
      (
        dropped.0,
        lookup-insert t.block_data.id id t (drop_stale now clear s').blocks
            ∙ ap (λ o. if text_eq t.block_data.id id then some t else o)
                (dropped.1
                  ∙ ap (left clear (is_old_template now))
                      (lookup-insert (get_next_template_id s) id t s.blocks))
            ∙ left-else clear (is_old_template now) (text_eq t.block_data.id id) t t
                (get_job_template_by_id id s),
        lookup_of_Misses (get_next_template_id s) s.blocks
            (next-Misses s.latest_job_template_id s.blocks v.blocks_issued),
      )

  abbrev Leaves : ℕ → JobTemplate N → Text → JobsService N → JobsService N → Type 0
  Leaves now t id s s' =
      let clear = t.block_data.clear_jobs in
      (get_job_by_id id s' ≡ left clear (is_old_job now) (get_job_by_id id s))
      × (get_job_template_by_id id s' ≡ (
          if text_eq t.block_data.id id
          then some t
          else left clear (is_old_template now) (get_job_template_by_id id s)))
      × (get_job_template_by_id t.block_data.id s ≡ none)

  deliver-lookups :
      (now : ℕ) (raw : RawTemplate N) (tick : Tick) (s : JobsService N) (t : JobTemplate N)
      → IsValid s
      → (deliver now raw tick s).0 ≡ some t
      → (id : Text) → Leaves now t id s (deliver now raw tick s).1
  unfolding build_job_template
  deliver-lookups now raw tick s t v h id = elim (Bool-cases tick.passes) [
    | inl passes ↦
        let e : (build_job_template now raw tick.clears s).0 ≡ t = some-inj (rw passes at h) in
        rw passes (
          subst
            (λ u. Leaves now u id s (
              keep_template (build_job_template now raw tick.clears s).0
                (drop_stale now tick.clears (build_job_template now raw tick.clears s).1)))
            e (delivered-lookups now raw tick.clears s id v))
    | inr dropped ↦ absurd (absent_apart (rw dropped at h))
  ]

  note_tick-same :
      (count : ℤ) (s : JobsService N)
      → ((note_tick count s).1.jobs ≡ s.jobs) × ((note_tick count s).1.blocks ≡ s.blocks)
  note_tick-same count s = ground arith

  -- What is found after an event that delivers a template: that template, and what is left of the rest.
  pub next_template-lookups :
      (now : ℕ) (count : ℤ) (raw : RawTemplate N) (s : JobsService N) (t : JobTemplate N)
      → IsValid s
      → (next_template now count raw s).0 ≡ some t
      → (id : Text)
      → let s' = (next_template now count raw s).1 in
        let clear = t.block_data.clear_jobs in
        (get_job_by_id id s' ≡ left clear (is_old_job now) (get_job_by_id id s))
        × (get_job_template_by_id id s' ≡ (
            if text_eq t.block_data.id id
            then some t
            else left clear (is_old_template now) (get_job_template_by_id id s)))
        × (get_job_template_by_id t.block_data.id s ≡ none)
  unfolding next_template
  next_template-lookups now count raw s t v h id =
      let (tick, s') = note_tick count s in
      let same = note_tick-same count s in
      let found = deliver-lookups now raw tick s' t (note_tick-IsValid count s v) h id in
      let clear = t.block_data.clear_jobs in
      (
        found.0 ∙ ap (λ m. left clear (is_old_job now) (lookup id m)) same.0,
        found.1
            ∙ ap
                (λ m.
                  if text_eq t.block_data.id id
                  then some t
                  else left clear (is_old_template now) (lookup id m))
                same.1,
        ap (lookup t.block_data.id) (sym same.1) ∙ found.2,
      )

  pub other_id :
      (new id : Text) (s : JobsService N) (old : JobTemplate N)
      → get_job_template_by_id new s ≡ none
      → get_job_template_by_id id s ≡ some old
      → text_eq new id ≡ false
  other_id new id s old absent present = elim (Bool-cases (text_eq new id)) [
    | inl same ↦ absurd (
        absent_apart (
          sym absent
          ∙ ap (λ i. get_job_template_by_id i s) ((text_eq_iff new id).0 same)
          ∙ present))
    | inr apart ↦ apart
  ]
