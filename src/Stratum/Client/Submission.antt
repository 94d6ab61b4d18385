-- ===== src/Stratum/Client/Submission.antt =====
-- apps/stratum/src/models/StratumV1Client.ts: `handleMiningSubmission`, with `DifficultyUtils` of
-- apps/stratum/src/utils/difficulty.utils.ts. The effects are what the services are asked, in order; none
-- of them fails but the insertion of the client's row.
pub mod Credit
pub mod Duplicates
pub mod Outcome
use hashden.Common.{
  ℕ, zero, suc, ◌+◌, ◌*◌, Bool, true, false, not, ◌&&◌, ◌||◌, List, [], ◌∷◌, ◌++◌, Option, none,
  some, map, if◌then◌else◌, ltb, any, Result, err, ok,
}
use hashden.Common.Text.{Text, codes, text_eq}
use hashden.Common.Dict.{insert}
use hashden.Shared.Hex.{hex_value, is_hex_digit, lower_digit, hex_from}
use hashden.Stratum.Vardiff.{Ordered, acceptable_target}
use hashden.Stratum.Statistics.{Write, Session, Call, add_shares}
use hashden.Stratum.MiningJob.{Block, Bitcoin, MiningJob, copy_and_update_block}
use hashden.Stratum.Jobs.{
  BlockData, JobTemplate, JobsService, get_job_by_id, get_job_template_by_id,
}
use hashden.Stratum.Messages.{
  Json, Sent, failed, Authorization, MiningSubmit, StratumErrorCode, duplicate_share, job_not_found,
  low_difficulty_share,
}
use hashden.Stratum.Client.Effects.{
  Effect, client_inserted, settings_read, block_submitted, block_saved, block_notified, best_reset,
  statistics_written, heartbeat, share_recorded, best_updated, address_best_updated,
  share_forwarded, Chain, hex_prefix, number_of, is_x, without_0x, parse_int16, le256todouble,
}
use hashden.Stratum.Client.{HashdenContext, ClientEntity, Client, Pool, write}

-- How the handler ends.
pub data Verdict : Type 0 where
  accepted_share refused_share crashed : Verdict

pub record Handled (N : Type 0) : Type 0 where
  pub client : Client N
  pub service : JobsService N
  pub effects : List (Effect N)
  pub verdict : Verdict

module _ {N : Type 0} (pool : Pool N) (chain : Chain N) where
  abbrev pub calculate_difficulty : Text → N
  calculate_difficulty header = chain.ratio (le256todouble (chain.lib.hash256 header))

  abbrev pub submission_hash : MiningSubmit → Text
  submission_hash s =
      chain.lib.hash256
        (chain.lib.utf8 (s.version_mask ++ s.nonce ++ s.extra_nonce2 ++ s.ntime ++ s.job_id))

  -- An error is written, and nothing else happens.
  abbrev pub refuse_share :
      Option (Json N) → StratumErrorCode → Text → Client N → JobsService N → Handled N
  refuse_share id code message c s = record {
    client = (write pool (failed id code message) c).0;
    service = s;
    effects = [];
    verdict = refused_share;
  }

  abbrev pub crash : Client N → JobsService N → Handled N
  crash c s = record { client = c; service = s; effects = []; verdict = crashed }

  -- `!!! BLOCK FOUND !!!`
  abbrev pub block_effects : N → Block → JobTemplate N → Authorization → Text → List (Effect N)
  block_effects difficulty block template a session =
      if pool.order.leq template.block_data.network_difficulty difficulty
      then block_submitted block
        ∷ block_saved template.block_data.height a session
        ∷ block_notified a.address template.block_data.height
        ∷ (if chain.is_accepted block then best_reset ∷ [] else [])
      else []

  abbrev pub is_due : ℕ → Option ℕ → Bool
  is_due now none = true
  is_due now (some at) = ltb (at + 1000 * 60) now

  abbrev pub beat : ℕ → N → ClientEntity N → ClientEntity N × List (Effect N)
  beat now rate e =
      if is_due now e.updated_at
      then (
        record e { updated_at = some now },
        heartbeat e.entity_address e.client_name e.entity_session rate now ∷ [],
      )
      else (e, [])

  abbrev pub record_share : Option HashdenContext → N → List (Effect N)
  record_share none target = []
  record_share (some context) target = share_recorded context target ∷ []

  -- `submissionDifficulty > best`
  abbrev pub exceeds : N → N → Bool
  exceeds difficulty best = not (pool.order.leq difficulty best)

  abbrev pub note_best :
      N → Text → Authorization → ClientEntity N → ClientEntity N × List (Effect N)
  note_best difficulty session a e =
      if exceeds difficulty e.best_difficulty
      then (
        record e { best_difficulty = difficulty },
        best_updated session difficulty
            ∷ settings_read a.address
            ∷ (if exceeds difficulty (chain.address_best a.address)
                then address_best_updated a.address difficulty ∷ []
                else []),
      )
      else (e, [])

  abbrev pub forward : N → Text → Authorization → Option N → List (Effect N)
  forward difficulty header a none = []
  forward difficulty header a (some minimum) =
      if pool.order.leq minimum difficulty then share_forwarded a header ∷ [] else []

  abbrev pub session_of : ClientEntity N → Session
  session_of e = record {
    address = e.entity_address;
    client_name = e.client_name;
    session_id = e.entity_session;
  }

  -- The share is credited `target`. `clock` is read by `addShares` and then by the heartbeat.
  unfoldable pub credit :
      (ℕ → ℕ)
      → N
      → N
      → Text
      → Block
      → JobTemplate N
      → Authorization
      → ClientEntity N
      → Client N
      → JobsService N
      → Handled N
  credit clock target difficulty header block template a e c s =
      let (statistics, writes) =
        add_shares pool.numbers
          (record { clock = clock; session = session_of e; target_difficulty = target })
          c.statistics in
      let (beaten, beats) = beat (clock 4) c.client_hash_rate e in
      let (best, bests) = note_best difficulty c.session_id a beaten in
      record {
        client = record c { statistics = statistics; entity = some best };
        service = s;
        effects =
            block_effects difficulty block template a c.session_id
            ++ (map statistics_written writes
                ++ (beats
                    ++ (record_share c.hashden_context target
                        ++ (bests ++ forward difficulty header a chain.minimum_difficulty))));
        verdict = accepted_share;
      }

  abbrev pub judge :
      (ℕ → ℕ)
      → Option (Json N)
      → N
      → Text
      → Block
      → JobTemplate N
      → Authorization
      → ClientEntity N
      → Client N
      → JobsService N
      → Option N
      → Handled N
  judge clock id difficulty header block template a e c s none =
      refuse_share id low_difficulty_share (codes "Difficulty too low") c s
  judge clock id difficulty header block template a e c s (some target) =
      credit clock target difficulty header block template a e c s

  abbrev pub measure :
      (ℕ → ℕ)
      → Option (Json N)
      → Block
      → JobTemplate N
      → Authorization
      → ClientEntity N
      → Client N
      → JobsService N
      → Result Text Text
      → Handled N
  measure clock id block template a e c s (err thrown) = crash c s
  measure clock id block template a e c s (ok header) =
      let difficulty = calculate_difficulty header in
      judge clock id difficulty header block template a e c s
        (acceptable_target pool.order pool.vardiff_grace_ms (clock 0) difficulty c.vardiff)

  -- The job keeps the script of the share, whatever becomes of the share.
  abbrev pub hash_share :
      (ℕ → ℕ)
      → Option (Json N)
      → MiningSubmit
      → MiningJob
      → JobTemplate N
      → Authorization
      → ClientEntity N
      → Client N
      → JobsService N
      → Handled N
  hash_share clock id m job template a e c s =
      let (job', block) =
        copy_and_update_block chain.lib template.block template.merkle_branch
          (parse_int16 m.version_mask) (parse_int16 m.nonce) c.session_id m.extra_nonce2
          (parse_int16 m.ntime) job in
      measure clock id block template a e c (record s { jobs = insert job.job_id job' s.jobs })
        (chain.header block)

  -- A template that is gone makes the handler throw.
  abbrev pub with_template :
      (ℕ → ℕ)
      → Option (Json N)
      → MiningSubmit
      → MiningJob
      → Authorization
      → ClientEntity N
      → Client N
      → JobsService N
      → Option (JobTemplate N)
      → Handled N
  with_template clock id m job a e c s none = crash c s
  with_template clock id m job a e c s (some template) = hash_share clock id m job template a e c s

  abbrev pub with_job :
      (ℕ → ℕ)
      → Option (Json N)
      → MiningSubmit
      → Authorization
      → ClientEntity N
      → Client N
      → JobsService N
      → Option MiningJob
      → Handled N
  with_job clock id m a e c s none = refuse_share id job_not_found (codes "Job not found") c s
  with_job clock id m a e c s (some job) =
      with_template clock id m job a e c s (get_job_template_by_id job.job_template_id s)

  abbrev pub with_entity :
      (ℕ → ℕ)
      → Option (Json N)
      → MiningSubmit
      → Authorization
      → ClientEntity N
      → Client N
      → JobsService N
      → Handled N
  with_entity clock id m a e c s =
      if any (text_eq (submission_hash m)) c.submission_hashes
      then refuse_share id duplicate_share (codes "Duplicate share") c s
      else with_job clock id m a e
          (record c { submission_hashes = submission_hash m ∷ c.submission_hashes }) s
          (get_job_by_id m.job_id s)

  abbrev pub new_entity : Authorization → Text → ClientEntity N
  new_entity a session = record {
    entity_address = a.address;
    client_name = a.worker;
    entity_session = session;
    best_difficulty = chain.no_difficulty;
    updated_at = none;
  }

  -- What is asked before.
  abbrev pub asking : List (Effect N) → Handled N → Handled N
  asking before h = record h { effects = before ++ h.effects }

  -- The row of the client is inserted once; if that fails, each later share throws too.
  abbrev pub create_entity :
      (ℕ → ℕ)
      → Option (Json N)
      → MiningSubmit
      → Authorization
      → Client N
      → JobsService N
      → Handled N
  create_entity clock id m a c s =
      if c.entity_failed
      then crash c s
      else asking (client_inserted c.session_id a ∷ []) (
          if chain.inserts_client
          then (let e = new_entity a c.session_id in
              with_entity clock id m a e (record c { entity = some e }) s)
          else crash (record c { entity_failed = true }) s)

  abbrev pub authorized_submission :
      (ℕ → ℕ)
      → Option (Json N)
      → MiningSubmit
      → Option (ClientEntity N)
      → Client N
      → JobsService N
      → Option Authorization
      → Handled N
  authorized_submission clock id m e c s none = crash c s
  authorized_submission clock id m none c s (some a) = create_entity clock id m a c s
  authorized_submission clock id m (some e) c s (some a) = with_entity clock id m a e c s

  unfoldable pub handle_mining_submission :
      (ℕ → ℕ) → Option (Json N) → MiningSubmit → Client N → JobsService N → Handled N
  handle_mining_submission clock id m c s =
      authorized_submission clock id m c.entity c s c.client_authorization
