-- ===== src/Stratum/Jobs/Tests.antt =====
-- apps/stratum/src/services/stratum-v1-jobs.service.ts: runs at fixed inputs, and the theorems applied to
-- them.
use hashden.Common.{ℕ, ◌+◌, ◌≤◌, ◌≡◌, ◌↔◌, ◌⊎◌, refl, true, false, [], none, some, if◌then◌else◌}
use hashden.Common.Int.{pos}
use hashden.Common.Text.{Text, codes, text_eq}
use hashden.Shared.Hex.{hex_digits}
use hashden.Stratum.MiningJob.{MiningJob}
use hashden.Stratum.Jobs.{
  RawTemplate, JobTemplate, JobsService, initial_service, add_job, next_template, template_of,
  build_job_template, get_next_id, get_job_by_id, get_job_template_by_id, max_age,
}
use hashden.Stratum.Jobs.Ids.{IsValid, initial-IsValid, add_job-fresh, next_template-IsValid}
use hashden.Stratum.Jobs.Ticks.{clears, second_block-missed}
use hashden.Stratum.Jobs.Found.{next_template-found_iff}

abbrev raw : RawTemplate ℕ
raw = record {
  raw_version = 0;
  raw_bits = 0;
  raw_prev_hash = [];
  mintime = 0;
  raw_coinbasevalue = 100;
  raw_difficulty = 1;
  raw_height = 5;
  tree_root = [];
  tree_branch = [];
  tree_commit = [];
  raw_weight = 0;
}

abbrev started : JobsService ℕ
started = (next_template 1000 (pos 0) raw initial_service).1

started-IsValid : IsValid started
started-IsValid = next_template-IsValid 1000 (pos 0) raw initial_service initial-IsValid

-- A job of the first template, made a minute after it.
abbrev job : MiningJob
job = record {
  job_id = codes "1";
  job_template_id = codes "1";
  creation = 60000;
  input_script = [];
  outs = [];
  coinbase_part1 = [];
  coinbase_part2 = [];
  extranonce_region_hex = 0;
}

started_next : job.job_id ≡ get_next_id started
unfolding next_template build_job_template hex_digits
started_next = refl

abbrev working : JobsService ℕ
working = add_job job started

working-IsValid : IsValid working
working-IsValid = (add_job-fresh job started started-IsValid started_next).0

add_job-fresh_example :
    IsValid working
    × (get_job_by_id (codes "1") started ≡ none)
    × ((id : Text)
        → get_job_by_id id working
          ≡ (if text_eq (codes "1") id then some job else get_job_by_id id started))
add_job-fresh_example = add_job-fresh job started started-IsValid started_next

started_last : started.last_interval_count ≡ some (pos 0)
unfolding next_template build_job_template
started_last = refl

-- The counters 0, 1 and 1: a new block, the tick behind it, and a new block again.
second_block-missed_example :
    let s1 = (next_template 2000 (pos 0) raw started).1 in
    let s2 = (next_template 60000 (pos 1) raw s1).1 in
    (clears (next_template 2000 (pos 0) raw started).0 ≡ some true)
    × (clears (next_template 60000 (pos 1) raw s1).0 ≡ none)
    × (clears (next_template 70000 (pos 1) raw s2).0 ≡ some false)
second_block-missed_example =
    second_block-missed 2000 60000 70000 (pos 0) (pos 1) raw raw raw started started_last refl

-- The template of the fifth minute.
abbrev fresh_template : JobTemplate ℕ
fresh_template = template_of 302000 (codes "2") raw false

abbrev old_template : JobTemplate ℕ
old_template = template_of 1000 (codes "1") raw false

delivered : (next_template 302000 (pos 5) raw working).0 ≡ some fresh_template
unfolding next_template build_job_template add_job hex_digits
delivered = refl

next_template-found_iff_example :
    let s' = (next_template 302000 (pos 5) raw working).1 in
    ((get_job_by_id (codes "1") s' ≡ some job) ↔ (
      (false ≡ false)
      × (get_job_by_id (codes "1") working ≡ some job)
      × 302000 ≤ job.creation + max_age))
    × ((get_job_template_by_id (codes "1") s' ≡ some old_template) ↔ (
        (codes "2" ≡ codes "1") × (fresh_template ≡ old_template)
        ⊎ (false ≡ false)
          × (get_job_template_by_id (codes "1") working ≡ some old_template)
          × 302000 ≤ 1000 + max_age))
    × (get_job_template_by_id (codes "2") working ≡ none)
next_template-found_iff_example =
    next_template-found_iff 302000 (pos 5) raw working fresh_template working-IsValid delivered
      (codes "1") job old_template
