-- ===== src/Stratum/Jobs/Ticks.antt =====
-- apps/stratum/src/services/stratum-v1-jobs.service.ts: which events make the jobs be cleared. A new block
-- is told from a tick of the timer by the counter of the timer, which is the last one's.
use hashden.Common.{
  ℕ, ◌≡◌, refl, ap, ◌∙◌, Bool, true, false, Option, none, some, if◌then◌else◌, arith, Bool-cases,
  inl, inr,
}
use hashden.Common.Int.{ℤ, eqb_ℤ}
use hashden.Stratum.Jobs.{
  JobTemplate, RawTemplate, JobsService, Tick, same_count, note_tick, drop_stale, deliver,
  next_template, build_job_template,
}

-- What an event with the counter `count` does, from what is noted before it.
abbrev outcome : Option ℤ × Bool → ℤ → Option Bool × (Option ℤ × Bool)
outcome (last, skip) count =
    if same_count last count
    then (some true, (some count, true))
    else if skip
    then (none, (last, false))
    else (some false, (some count, skip))

eqb_ℤ_refl : (c : ℤ) → eqb_ℤ c c ≡ true
eqb_ℤ_refl c = ground arith

missed_outcomes :
    (c d : ℤ) (skip : Bool) (m0 m1 m2 : Option ℤ × Bool)
    → eqb_ℤ c d ≡ false
    → m0 ≡ (some c, skip)
    → m1 ≡ (outcome m0 c).1
    → m2 ≡ (outcome m1 d).1
    → ((outcome m0 c).0 ≡ some true) × ((outcome m1 d).0 ≡ none) × ((outcome m2 d).0 ≡ some false)
missed_outcomes c d skip m0 m1 m2 apart e0 e1 e2 =
    let e1' : m1 ≡ (some c, true) = e1 ∙ rw (e0, outcome, eqb_ℤ_refl c) refl in
    let e2' : m2 ≡ (some c, false) = e2 ∙ rw (e1', outcome, apart) refl in
    rw (e0, e1', e2', outcome, eqb_ℤ_refl c, apart) (refl, refl, refl)

module _ {N : Type 0} where
  abbrev pub clears : Option (JobTemplate N) → Option Bool
  clears none = none
  clears (some t) = some t.block_data.clear_jobs

  abbrev noted : JobsService N → Option ℤ × Bool
  noted s = (s.last_interval_count, s.skip_next)

  -- Building and storing a template leaves what is noted of the ticks as it is.
  drop_stale-noted :
      (now : ℕ) (clear : Bool) (s : JobsService N) → noted (drop_stale now clear s) ≡ noted s
  drop_stale-noted now true s = refl
  drop_stale-noted now false s = refl

  deliver-noted :
      (now : ℕ) (raw : RawTemplate N) (tick : Tick) (s : JobsService N)
      → noted (deliver now raw tick s).1 ≡ noted s
  unfolding build_job_template
  deliver-noted now raw tick s = elim (Bool-cases tick.passes) [
    | inl passes ↦
        rw passes (drop_stale-noted now tick.clears (build_job_template now raw tick.clears s).1)
    | inr dropped ↦ rw dropped refl
  ]

  deliver-clears :
      (now : ℕ) (raw : RawTemplate N) (tick : Tick) (s : JobsService N)
      → clears (deliver now raw tick s).0 ≡ (if tick.passes then some tick.clears else none)
  unfolding build_job_template
  deliver-clears now raw tick s = elim (Bool-cases tick.passes) [
    | inl passes ↦ rw passes refl
    | inr dropped ↦ rw dropped refl
  ]

  note_tick-outcome :
      (count : ℤ) (s : JobsService N)
      → let (tick, s') = note_tick count s in
        ((if tick.passes then some tick.clears else none) ≡ (outcome (noted s) count).0)
        × (noted s' ≡ (outcome (noted s) count).1)
  note_tick-outcome count s = ground arith

  next_template-outcome :
      (now : ℕ) (count : ℤ) (raw : RawTemplate N) (s : JobsService N)
      → (clears (next_template now count raw s).0 ≡ (outcome (noted s) count).0)
        × (noted (next_template now count raw s).1 ≡ (outcome (noted s) count).1)
  unfolding next_template
  next_template-outcome now count raw s =
      let (tick, s') = note_tick count s in
      (
        deliver-clears now raw tick s' ∙ (note_tick-outcome count s).0,
        deliver-noted now raw tick s' ∙ (note_tick-outcome count s).1,
      )

  -- From a service whose last counter is `c`: a new block clears the jobs, the tick behind it is
  -- skipped, and the next new block before another tick does not clear the jobs.
  pub second_block-missed :
      (n1 n2 n3 : ℕ) (c d : ℤ) (r1 r2 r3 : RawTemplate N) (s : JobsService N)
      → s.last_interval_count ≡ some c
      → eqb_ℤ c d ≡ false
      → let s1 = (next_template n1 c r1 s).1 in
        let s2 = (next_template n2 d r2 s1).1 in
        (clears (next_template n1 c r1 s).0 ≡ some true)
        × (clears (next_template n2 d r2 s1).0 ≡ none)
        × (clears (next_template n3 d r3 s2).0 ≡ some false)
  second_block-missed n1 n2 n3 c d r1 r2 r3 s last apart =
      let s1 = (next_template n1 c r1 s).1 in
      let s2 = (next_template n2 d r2 s1).1 in
      let (first, noted1) = next_template-outcome n1 c r1 s in
      let (second, noted2) = next_template-outcome n2 d r2 s1 in
      let (third, _) = next_template-outcome n3 d r3 s2 in
      let (clear, skipped, plain) =
        missed_outcomes c d s.skip_next (noted s) (noted s1) (noted s2) apart
          (ap (λ l. (l, s.skip_next)) last) noted1 noted2 in
      (first ∙ clear, second ∙ skipped, third ∙ plain)
