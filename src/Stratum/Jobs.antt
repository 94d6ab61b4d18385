-- ===== src/Stratum/Jobs.antt =====
-- apps/stratum/src/services/stratum-v1-jobs.service.ts: the jobs and templates that shares are checked
-- against, which all connections share. The timer and the watcher of new blocks are events; what the node
-- answers, and the merkle trees and transactions that bitcoinjs-lib and merkle-lib make of it, is given
-- with them. `now` is the time at the event. Names that every JavaScript object inherits, such as
-- `constructor`, are not taken for ids.
pub mod Expiry
pub mod Found
pub mod Ids
pub mod Ticks
mod Tests
use hashden.Common.{
  ℕ, suc, ◌+◌, ◌*◌, ◌/◌, Bool, true, false, not, ◌&&◌, List, [], ◌∷◌, Option, none, some,
  if◌then◌else◌, ltb,
}
use hashden.Common.Int.{ℤ, eqb_ℤ}
use hashden.Common.Text.{Text}
use hashden.Common.Dict.{lookup, insert, delete_if}
use hashden.Shared.Hex.{to_string16}
use hashden.Stratum.MiningJob.{Block, MiningJob}

pub record BlockData (N : Type 0) : Type 0 where
  pub id : Text
  pub created : ℕ
  pub coinbasevalue : ℕ
  pub network_difficulty : N
  pub height : ℕ
  pub clear_jobs : Bool

pub record JobTemplate (N : Type 0) : Type 0 where
  pub block : Block
  pub merkle_branch : List Text
  pub block_data : BlockData N

-- What is read from the answer of `getblocktemplate`, its transactions as a tree.
pub record RawTemplate (N : Type 0) : Type 0 where
  pub raw_version : ℕ
  pub raw_bits : ℕ
  pub raw_prev_hash : Text
  pub mintime : ℕ
  pub raw_coinbasevalue : ℕ
  pub raw_difficulty : N
  pub raw_height : ℕ
  pub tree_root : Text
  pub tree_branch : List Text
  pub tree_commit : Text
  pub raw_weight : ℕ

pub record JobsService (N : Type 0) : Type 0 where
  pub last_interval_count : Option ℤ
  pub skip_next : Bool
  pub latest_job_id : ℕ
  pub latest_job_template_id : ℕ
  pub jobs : List (Text × MiningJob)
  pub blocks : List (Text × JobTemplate N)

-- `blockTemplate.mintime > currentTime ? blockTemplate.mintime : currentTime`, in seconds.
abbrev pub timestamp_of : ℕ → ℕ → ℕ
timestamp_of mintime current_time = if ltb current_time mintime then mintime else current_time

-- `1000 * 60 * 5`
abbrev pub max_age : ℕ
max_age = 1000 * 60 * 5

-- The `map` stage, for the counter of the timer: whether jobs are cleared, and whether the tick passes.
pub record Tick : Type 0 where
  pub clears : Bool
  pub passes : Bool

abbrev pub same_count : Option ℤ → ℤ → Bool
same_count none count = false
same_count (some last) count = eqb_ℤ last count

abbrev pub is_old_job : ℕ → MiningJob → Bool
is_old_job now job = ltb (job.creation + max_age) now

module _ {N : Type 0} where
  -- The state of a service that has just started.
  abbrev pub initial_service : JobsService N
  initial_service = record {
    last_interval_count = none;
    skip_next = false;
    latest_job_id = 1;
    latest_job_template_id = 1;
    jobs = [];
    blocks = [];
  }

  abbrev pub get_job_by_id : Text → JobsService N → Option MiningJob
  get_job_by_id id s = lookup id s.jobs

  abbrev pub get_job_template_by_id : Text → JobsService N → Option (JobTemplate N)
  get_job_template_by_id id s = lookup id s.blocks

  abbrev pub get_next_id : JobsService N → Text
  get_next_id s = to_string16 s.latest_job_id

  abbrev pub get_next_template_id : JobsService N → Text
  get_next_template_id s = to_string16 s.latest_job_template_id

  unfoldable pub add_job : MiningJob → JobsService N → JobsService N
  add_job job s = record s {
    jobs = insert job.job_id job s.jobs;
    latest_job_id = suc s.latest_job_id;
  }

  abbrev pub template_of : ℕ → Text → RawTemplate N → Bool → JobTemplate N
  template_of now id raw clear = record {
    block = record {
      version = raw.raw_version;
      prev_hash = raw.raw_prev_hash;
      merkle_root = raw.tree_root;
      timestamp = some (timestamp_of raw.mintime (now / 1000));
      bits = raw.raw_bits;
      nonce = none;
      witness_commit = raw.tree_commit;
      weight = raw.raw_weight;
    };
    merkle_branch = raw.tree_branch;
    block_data = record {
      id = id;
      created = now;
      coinbasevalue = raw.raw_coinbasevalue;
      network_difficulty = raw.raw_difficulty;
      height = raw.raw_height;
      clear_jobs = clear;
    };
  }

  unfoldable pub build_job_template :
      ℕ → RawTemplate N → Bool → JobsService N → JobTemplate N × JobsService N
  build_job_template now raw clear s =
      let id = get_next_template_id s in
      let template = template_of now id raw clear in
      (
        template,
        record s {
          latest_job_template_id = suc s.latest_job_template_id;
          blocks = insert id template s.blocks;
        },
      )

  abbrev pub note_tick : ℤ → JobsService N → Tick × JobsService N
  note_tick count s =
      if same_count s.last_interval_count count
      then (
        record { clears = true; passes = true },
        record s { skip_next = true; last_interval_count = some count },
      )
      else if s.skip_next
      then (record { clears = false; passes = false }, record s { skip_next = false })
      else (record { clears = false; passes = true }, record s { last_interval_count = some count })

  -- `now - creation > 1000 * 60 * 5`
  abbrev pub is_old_template : ℕ → JobTemplate N → Bool
  is_old_template now t = ltb (t.block_data.created + max_age) now

  -- The `tap` stage.
  abbrev pub drop_stale : ℕ → Bool → JobsService N → JobsService N
  drop_stale now true s = record s { blocks = []; jobs = [] }
  drop_stale now false s = record s {
    blocks = delete_if (is_old_template now) s.blocks;
    jobs = delete_if (is_old_job now) s.jobs;
  }

  abbrev pub keep_template : JobTemplate N → JobsService N → JobsService N
  keep_template t s = record s { blocks = insert t.block_data.id t s.blocks }

  abbrev pub deliver :
      ℕ → RawTemplate N → Tick → JobsService N → Option (JobTemplate N) × JobsService N
  deliver now raw tick s =
      if tick.passes
      then (let (template, s') = build_job_template now raw tick.clears s in
          (some template, keep_template template (drop_stale now tick.clears s')))
      else (none, s)

  -- One event of the pipeline: the counter of the timer, and what the node answered.
  unfoldable pub next_template :
      ℕ → ℤ → RawTemplate N → JobsService N → Option (JobTemplate N) × JobsService N
  next_template now count raw s = let (tick, s') = note_tick count s in deliver now raw tick s'
