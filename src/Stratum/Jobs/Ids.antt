-- ===== src/Stratum/Jobs/Ids.antt =====
-- apps/stratum/src/services/stratum-v1-jobs.service.ts: the ids of jobs and templates.
use hashden.Common.{
  ℕ, suc, ◌<◌, ◌≤◌, ◌≡◌, refl, sym, ◌∙◌, Bool, true, false, List, [], ◌∷◌, none, some,
  if◌then◌else◌, Bool-cases, inl, inr, arith,
}
use hashden.Common.Int.{ℤ}
use hashden.Common.Text.{Text, text_eq, text_eq_iff}
use hashden.Common.Dict.{
  insert, delete_if, Misses, lookup_of_Misses, HasDistinctKeys, HasDistinctKeys-insert,
  HasDistinctKeys-delete_if, lookup-insert,
}
use hashden.Shared.Hex.{to_string16, to_string16-inj}
use hashden.Stratum.MiningJob.{MiningJob}
use hashden.Stratum.Jobs.{
  JobTemplate, RawTemplate, JobsService, Tick, get_next_id, get_next_template_id, get_job_by_id,
  add_job, build_job_template, note_tick, drop_stale, keep_template, deliver, next_template,
  initial_service,
}

-- The key is the text of a number below `bound`.
abbrev pub IsIssued : ℕ → Text → Type 0
IsIssued bound key = (n : ℕ) × (key ≡ to_string16 n) × (n < bound)

issued_apart :
    (bound : ℕ) (key : Text) → IsIssued bound key → text_eq key (to_string16 bound) ≡ false
issued_apart bound key (n, e, lt) = elim (Bool-cases (text_eq key (to_string16 bound))) [
  | inl same ↦ absurd (
      omega (arith, to_string16-inj n bound (sym e ∙ (text_eq_iff key (to_string16 bound)).0 same)))
  | inr apart ↦ apart
]

module _ {V : Type 0} where
  abbrev pub AllIssued : ℕ → List (Text × V) → Type 0
  AllIssued bound [] = Unit
  AllIssued bound ((key, v) ∷ m) = IsIssued bound key × AllIssued bound m

  AllIssued-mono : (a b : ℕ) (m : List (Text × V)) → a ≤ b → AllIssued a m → AllIssued b m
  AllIssued-mono a b [] le h = tt
  AllIssued-mono a b ((key, v) ∷ m) le ((n, e, lt), h) =
      ((n, e, omega arith), AllIssued-mono a b m le h)

  AllIssued-insert :
      (bound : ℕ) (key : Text) (v : V) (m : List (Text × V))
      → IsIssued bound key
      → AllIssued bound m
      → AllIssued bound (insert key v m)
  unfolding insert
  AllIssued-insert bound key v [] k h = (k, tt)
  AllIssued-insert bound key v ((j, w) ∷ m) k h = elim (Bool-cases (text_eq j key)) [
    | inl same ↦ rw same h
    | inr other ↦ rw other (h.0, AllIssued-insert bound key v m k h.1)
  ]

  AllIssued-delete_if :
      (bound : ℕ) (p : V → Bool) (m : List (Text × V))
      → AllIssued bound m
      → AllIssued bound (delete_if p m)
  unfolding delete_if
  AllIssued-delete_if bound p [] h = tt
  AllIssued-delete_if bound p ((j, v) ∷ m) h = elim (Bool-cases (p v)) [
    | inl gone ↦ rw gone (AllIssued-delete_if bound p m h.1)
    | inr kept ↦ rw kept (h.0, AllIssued-delete_if bound p m h.1)
  ]

  -- A number that was not given out is no key.
  pub next-Misses :
      (bound : ℕ) (m : List (Text × V)) → AllIssued bound m → Misses (to_string16 bound) m
  next-Misses bound [] h = tt
  next-Misses bound ((j, v) ∷ m) h = (issued_apart bound j h.0, next-Misses bound m h.1)

module _ {N : Type 0} where
  -- What holds of the service between two events.
  pub record IsValid (s : JobsService N) : Type 0 where
    pub jobs_issued : AllIssued s.latest_job_id s.jobs
    pub blocks_issued : AllIssued s.latest_job_template_id s.blocks
    pub jobs_distinct : HasDistinctKeys s.jobs
    pub blocks_distinct : HasDistinctKeys s.blocks

  pub initial-IsValid : IsValid (initial_service {N = N})
  initial-IsValid = record {
    jobs_issued = tt;
    blocks_issued = tt;
    jobs_distinct = tt;
    blocks_distinct = tt;
  }

  -- A job under the next id keeps the service valid, and takes no other job's place.
  pub add_job-fresh :
      (job : MiningJob) (s : JobsService N)
      → IsValid s
      → job.job_id ≡ get_next_id s
      → IsValid (add_job job s)
        × (get_job_by_id job.job_id s ≡ none)
        × ((id : Text)
            → get_job_by_id id (add_job job s)
              ≡ (if text_eq job.job_id id then some job else get_job_by_id id s))
  unfolding add_job
  add_job-fresh job s v e = (
    record {
      jobs_issued =
          AllIssued-insert (suc s.latest_job_id) job.job_id job s.jobs
            (s.latest_job_id, e, omega arith)
            (AllIssued-mono s.latest_job_id (suc s.latest_job_id) s.jobs (omega arith)
              v.jobs_issued);
      blocks_issued = v.blocks_issued;
      jobs_distinct = HasDistinctKeys-insert job.job_id job s.jobs v.jobs_distinct;
      blocks_distinct = v.blocks_distinct;
    },
    rw e (
        lookup_of_Misses (get_next_id s) s.jobs (next-Misses s.latest_job_id s.jobs v.jobs_issued)),
    λ id. lookup-insert job.job_id id job s.jobs,
  )

  pub build_job_template-IsValid :
      (now : ℕ) (raw : RawTemplate N) (clear : Bool) (s : JobsService N)
      → IsValid s
      → IsValid (build_job_template now raw clear s).1
  unfolding build_job_template
  build_job_template-IsValid now raw clear s v = record {
    jobs_issued = v.jobs_issued;
    blocks_issued =
        AllIssued-insert (suc s.latest_job_template_id) (get_next_template_id s) _ s.blocks
          (s.latest_job_template_id, refl, omega arith)
          (AllIssued-mono s.latest_job_template_id (suc s.latest_job_template_id) s.blocks
            (omega arith) v.blocks_issued);
    jobs_distinct = v.jobs_distinct;
    blocks_distinct = HasDistinctKeys-insert (get_next_template_id s) _ s.blocks v.blocks_distinct;
  }

  drop_stale-IsValid :
      (now : ℕ) (clear : Bool) (s : JobsService N) → IsValid s → IsValid (drop_stale now clear s)
  drop_stale-IsValid now true s v = record {
    jobs_issued = tt;
    blocks_issued = tt;
    jobs_distinct = tt;
    blocks_distinct = tt;
  }
  drop_stale-IsValid now false s v = record {
    jobs_issued = AllIssued-delete_if s.latest_job_id _ s.jobs v.jobs_issued;
    blocks_issued = AllIssued-delete_if s.latest_job_template_id _ s.blocks v.blocks_issued;
    jobs_distinct = HasDistinctKeys-delete_if _ s.jobs v.jobs_distinct;
    blocks_distinct = HasDistinctKeys-delete_if _ s.blocks v.blocks_distinct;
  }

  keep_template-IsValid :
      (t : JobTemplate N) (s : JobsService N)
      → IsIssued s.latest_job_template_id t.block_data.id
      → IsValid s
      → IsValid (keep_template t s)
  keep_template-IsValid t s issued v = record {
    jobs_issued = v.jobs_issued;
    blocks_issued =
        AllIssued-insert s.latest_job_template_id t.block_data.id t s.blocks issued v.blocks_issued;
    jobs_distinct = v.jobs_distinct;
    blocks_distinct = HasDistinctKeys-insert t.block_data.id t s.blocks v.blocks_distinct;
  }

  template_id-IsIssued :
      (now : ℕ) (raw : RawTemplate N) (clear : Bool) (s : JobsService N)
      → let (t, s') = build_job_template now raw clear s in
        IsIssued (drop_stale now clear s').latest_job_template_id t.block_data.id
  unfolding build_job_template
  template_id-IsIssued now raw true s = (s.latest_job_template_id, refl, omega arith)
  template_id-IsIssued now raw false s = (s.latest_job_template_id, refl, omega arith)

  delivered-IsValid :
      (now : ℕ) (raw : RawTemplate N) (clear : Bool) (s : JobsService N)
      → IsValid s
      → let (t, s') = build_job_template now raw clear s in
        IsValid (keep_template t (drop_stale now clear s'))
  delivered-IsValid now raw clear s v =
      let (t, s') = build_job_template now raw clear s in
      keep_template-IsValid t (drop_stale now clear s') (template_id-IsIssued now raw clear s)
        (drop_stale-IsValid now clear s' (build_job_template-IsValid now raw clear s v))

  deliver-IsValid :
      (now : ℕ) (raw : RawTemplate N) (tick : Tick) (s : JobsService N)
      → IsValid s
      → IsValid (deliver now raw tick s).1
  deliver-IsValid now raw tick s v = elim (Bool-cases tick.passes) [
    | inl passes ↦ rw passes (delivered-IsValid now raw tick.clears s v)
    | inr dropped ↦ rw dropped v
  ]

  pub note_tick-IsValid :
      (count : ℤ) (s : JobsService N) → IsValid s → IsValid (note_tick count s).1
  note_tick-IsValid count s v = ground arith

  -- Each event keeps the service valid.
  pub next_template-IsValid :
      (now : ℕ) (count : ℤ) (raw : RawTemplate N) (s : JobsService N)
      → IsValid s
      → IsValid (next_template now count raw s).1
  unfolding next_template
  next_template-IsValid now count raw s v =
      let (tick, s') = note_tick count s in
      deliver-IsValid now raw tick s' (note_tick-IsValid count s v)
