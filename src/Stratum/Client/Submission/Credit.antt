-- ===== src/Stratum/Client/Submission/Credit.antt =====
-- apps/stratum/src/models/StratumV1Client.ts: what a share that `handleMiningSubmission`
-- accepts is credited.
use hashden.Common.{
  true, arith, ℕ, ◌≡◌, refl, sym, ap, ◌∙◌, ◌&&◌, List, [], ◌∷◌, ◌++◌, Option, none, some, map,
  Result, err, ok, inl, inr, Bool-cases,
}
use hashden.Common.Text.{Text, codes}
use hashden.Common.Dict.{insert}
use hashden.Stratum.Vardiff.{acceptable_target}
use hashden.Stratum.Vardiff.Best.{IsBest, targets, acceptable_target-IsBest}
use hashden.Stratum.Statistics.{Write}
use hashden.Stratum.MiningJob.{Block, MiningJob, copy_and_update_block}
use hashden.Stratum.Jobs.{JobTemplate, JobsService, get_job_by_id, get_job_template_by_id}
use hashden.Stratum.Messages.{
  Json, Sent, failed, Authorization, MiningSubmit, StratumErrorCode, job_not_found,
  low_difficulty_share,
}
use hashden.Stratum.Client.{HashdenContext, ClientEntity, Client, Pool, write}
use hashden.Stratum.Client.Effects.{Effect, statistics_written, share_recorded, Chain, parse_int16}
use hashden.Stratum.Client.Submission.{
  Verdict, accepted_share, Handled, calculate_difficulty, refuse_share, block_effects, is_due, beat,
  record_share, exceeds, note_best, forward, credit, judge, measure, with_template, with_job,
}

pub append_assoc : {A : Type 0} → (xs ys zs : List A) → (xs ++ ys) ++ zs ≡ xs ++ (ys ++ zs)
append_assoc [] ys zs = refl
append_assoc (x ∷ xs) ys zs = ap (λ l. x ∷ l) (append_assoc xs ys zs)

module _ {N : Type 0} where
  -- The shares of a den among the effects, with the difficulty that each is credited.
  abbrev pub shares_of : Effect N → List (HashdenContext × N)
  shares_of (share_recorded context d) = (context, d) ∷ []
  shares_of _ = []

  unfoldable pub recorded : List (Effect N) → List (HashdenContext × N)
  recorded [] = []
  recorded (e ∷ es) = shares_of e ++ recorded es

  -- What a den is owed for a share.
  abbrev pub owed : Option HashdenContext → N → List (HashdenContext × N)
  owed none d = []
  owed (some context) d = (context, d) ∷ []

  recorded-append : (es fs : List (Effect N)) → recorded (es ++ fs) ≡ recorded es ++ recorded fs
  unfolding recorded
  recorded-append [] fs = refl
  recorded-append (e ∷ es) fs =
      rw (recorded-append es fs) (sym (append_assoc (shares_of e) (recorded es) (recorded fs)))

  recorded-writes : (ws : List (Write N)) → recorded (map statistics_written ws) ≡ []
  unfolding recorded
  recorded-writes [] = refl
  recorded-writes (w ∷ ws) = recorded-writes ws

  recorded-skip : (es fs : List (Effect N)) → recorded es ≡ [] → recorded (es ++ fs) ≡ recorded fs
  recorded-skip es fs none_of = recorded-append es fs ∙ ap (λ l. l ++ recorded fs) none_of

module _ {N : Type 0} (pool : Pool N) (chain : Chain N) where
  recorded-block :
      (d : N) (b : Block) (t : JobTemplate N) (a : Authorization) (session : Text)
      → recorded (block_effects pool chain d b t a session) ≡ []
  unfolding recorded
  recorded-block d b t a session =
      elim (Bool-cases (pool.order.leq t.block_data.network_difficulty d)) [
        | inl found ↦ elim (Bool-cases (chain.is_accepted b)) [
          | inl taken ↦ rw (found, taken) refl
          | inr left ↦ rw (found, left) refl
        ]
        | inr missed ↦ rw missed refl
      ]

  recorded-beat :
      (now : ℕ) (rate : N) (e : ClientEntity N) → recorded (beat pool chain now rate e).1 ≡ []
  unfolding recorded
  recorded-beat now rate e = elim (Bool-cases (is_due pool chain now e.updated_at)) [
    | inl due ↦ rw due refl
    | inr early ↦ rw early refl
  ]

  recorded-best :
      (d : N) (session : Text) (a : Authorization) (e : ClientEntity N)
      → recorded (note_best pool chain d session a e).1 ≡ []
  unfolding recorded
  recorded-best d session a e = elim (Bool-cases (exceeds pool chain d e.best_difficulty)) [
    | inl better ↦ elim (Bool-cases (exceeds pool chain d (chain.address_best a.address))) [
      | inl top ↦ rw (better, top) refl
      | inr low ↦ rw (better, low) refl
    ]
    | inr worse ↦ rw worse refl
  ]

  recorded-forward :
      (d : N) (header : Text) (a : Authorization) (minimum : Option N)
      → recorded (forward pool chain d header a minimum) ≡ []
  unfolding recorded
  recorded-forward d header a none = refl
  recorded-forward d header a (some minimum) = elim (Bool-cases (pool.order.leq minimum d)) [
    | inl enough ↦ rw enough refl
    | inr small ↦ rw small refl
  ]

  recorded-share :
      (context : Option HashdenContext) (d : N) (es : List (Effect N))
      → recorded es ≡ []
      → recorded (record_share pool chain context d ++ es) ≡ owed context d
  unfolding recorded
  recorded-share none d es none_of = none_of
  recorded-share (some context) d es none_of = ap (λ l. (context, d) ∷ l) none_of

  -- The share of some header is credited the target, which is the largest active one that the
  -- header's difficulty clears.
  abbrev pub CreditedFor : ℕ → Client N → Handled N → Text → N → Type 0
  CreditedFor now c h header target =
      IsBest pool.order pool.vardiff_grace_ms (calculate_difficulty pool chain header) (some target)
        (targets pool.order pool.vardiff_grace_ms now c.vardiff)
      × recorded h.effects ≡ owed c.hashden_context target

  -- The header is the one of the job that the submission names, filled in as it says.
  abbrev pub HeaderOf : MiningSubmit → JobsService N → Text → Text → Type 0
  HeaderOf m s session header =
      (job : MiningJob) × (t : JobTemplate N) × (get_job_by_id m.job_id s ≡ some job)
      × (get_job_template_by_id job.job_template_id s ≡ some t)
      × chain.header
          (copy_and_update_block chain.lib t.block t.merkle_branch (parse_int16 m.version_mask)
            (parse_int16 m.nonce) session m.extra_nonce2 (parse_int16 m.ntime) job).1
        ≡ ok header

  abbrev pub Earned : ℕ → MiningSubmit → JobsService N → Client N → Handled N → Verdict → Type 0
  Earned now m s c h accepted_share =
      (header : Text) × (target : N) × HeaderOf m s c.session_id header
      × CreditedFor now c h header target
  Earned now m s c h _ = h.effects ≡ []

  -- What the submission leaves of the handshake, and of the targets.
  abbrev pub KeepsHandshake : Client N → Client N → Type 0
  KeepsHandshake c c' =
      (c'.client_subscription ≡ c.client_subscription)
      × (c'.client_authorization ≡ c.client_authorization)
      × (c'.stratum_initialized ≡ c.stratum_initialized)
      × (c'.vardiff ≡ c.vardiff)
      × (c'.receives_jobs ≡ true → c.receives_jobs ≡ true)

  abbrev pub keeps_handshake : (c : Client N) → KeepsHandshake c c
  keeps_handshake c = (refl, refl, refl, refl, (λ watching. watching))

  abbrev pub Settled : ℕ → MiningSubmit → JobsService N → Client N → Handled N → Type 0
  Settled now m s c h =
      Earned now m s c h h.verdict
      × h.client.submission_hashes ≡ c.submission_hashes
      × KeepsHandshake c h.client

  pub write-Kept :
      (m : Sent N) (c : Client N)
      → ((write pool m c).0.submission_hashes ≡ c.submission_hashes)
        × KeepsHandshake c (write pool m c).0
  unfolding write
  write-Kept m c = elim (Bool-cases (c.is_open && pool.takes c.sent m)) [
    | inl taken ↦ rw taken (refl, keeps_handshake c)
    | inr lost ↦ rw lost (refl, (refl, refl, refl, refl, (λ watching. ground arith)))
  ]

  pub refuse_share-Settled :
      (now : ℕ) (m : MiningSubmit) (s₀ : JobsService N) (id : Option (Json N))
      (code : StratumErrorCode) (message : Text) (c : Client N) (s : JobsService N)
      → Settled now m s₀ c (refuse_share pool chain id code message c s)
  refuse_share-Settled now m s₀ id code message c s =
      let kept = write-Kept (failed id code message) c in (refl, kept.0, kept.1)

  credit-recorded :
      (clock : ℕ → ℕ) (target difficulty : N) (header : Text) (block : Block) (t : JobTemplate N)
      (a : Authorization) (e : ClientEntity N) (c : Client N) (s : JobsService N)
      → recorded (credit pool chain clock target difficulty header block t a e c s).effects
        ≡ owed c.hashden_context target
  unfolding credit
  credit-recorded clock target difficulty header block t a e c s =
      recorded-skip _ _ (recorded-block difficulty block t a c.session_id)
      ∙ recorded-skip _ _ (recorded-writes _)
      ∙ recorded-skip _ _ (recorded-beat (clock 4) c.client_hash_rate e)
      ∙ recorded-share c.hashden_context target _ (
          recorded-skip _ _ (
            recorded-best difficulty c.session_id a
              (beat pool chain (clock 4) c.client_hash_rate e).0)
          ∙ recorded-forward difficulty header a chain.minimum_difficulty)

  judge-Settled :
      (clock : ℕ → ℕ) (m : MiningSubmit) (s₀ : JobsService N) (id : Option (Json N)) (header : Text)
      (block : Block) (t : JobTemplate N) (a : Authorization) (e : ClientEntity N) (c : Client N)
      (s : JobsService N) (cleared : Option N)
      → HeaderOf m s₀ c.session_id header
      → IsBest pool.order pool.vardiff_grace_ms
          (calculate_difficulty pool chain header)
          cleared
          (targets pool.order pool.vardiff_grace_ms (clock 0) c.vardiff)
      → Settled (clock 0) m s₀ c (
          judge pool chain clock id
            (calculate_difficulty pool chain header)
            header
            block
            t
            a
            e
            c
            s
            cleared)
  unfolding credit
  judge-Settled clock m s₀ id header block t a e c s none of_job best =
      refuse_share-Settled (clock 0) m s₀ id low_difficulty_share (codes "Difficulty too low") c s
  judge-Settled clock m s₀ id header block t a e c s (some target) of_job best = (
    (
      header,
      target,
      of_job,
      (
        best,
        credit-recorded clock target (calculate_difficulty pool chain header) header block t a e c
            s,
      ),
    ),
    refl,
    keeps_handshake c,
  )

  abbrev block_of : MiningSubmit → Text → MiningJob → JobTemplate N → MiningJob × Block
  block_of m session job t =
      copy_and_update_block chain.lib t.block t.merkle_branch (parse_int16 m.version_mask)
        (parse_int16 m.nonce) session m.extra_nonce2 (parse_int16 m.ntime) job

  measure-Settled :
      (clock : ℕ → ℕ) (m : MiningSubmit) (s₀ : JobsService N) (id : Option (Json N)) (block : Block)
      (t : JobTemplate N) (a : Authorization) (e : ClientEntity N) (c : Client N)
      (s : JobsService N) (header : Result Text Text)
      → ((h : Text) → header ≡ ok h → HeaderOf m s₀ c.session_id h)
      → Settled (clock 0) m s₀ c (measure pool chain clock id block t a e c s header)
  measure-Settled clock m s₀ id block t a e c s (err thrown) of_job =
      (refl, refl, keeps_handshake c)
  measure-Settled clock m s₀ id block t a e c s (ok header) of_job =
      judge-Settled clock m s₀ id header block t a e c s
        (acceptable_target pool.order pool.vardiff_grace_ms (clock 0)
          (calculate_difficulty pool chain header) c.vardiff)
        (of_job header refl)
        (acceptable_target-IsBest pool.order pool.vardiff_grace_ms (clock 0)
          (calculate_difficulty pool chain header) c.vardiff)

  with_template-Settled :
      (clock : ℕ → ℕ) (id : Option (Json N)) (m : MiningSubmit) (job : MiningJob)
      (a : Authorization) (e : ClientEntity N) (c : Client N) (s : JobsService N)
      (t : Option (JobTemplate N))
      → get_job_by_id m.job_id s ≡ some job
      → get_job_template_by_id job.job_template_id s ≡ t
      → Settled (clock 0) m s c (with_template pool chain clock id m job a e c s t)
  with_template-Settled clock id m job a e c s none is_job is_template =
      (refl, refl, keeps_handshake c)
  with_template-Settled clock id m job a e c s (some t) is_job is_template =
      measure-Settled clock m s id (block_of m c.session_id job t).1 t a e c
        (record s { jobs = insert job.job_id (block_of m c.session_id job t).0 s.jobs })
        (chain.header (block_of m c.session_id job t).1)
        (λ h is_header. (job, t, is_job, is_template, is_header))

  pub with_job-Settled :
      (clock : ℕ → ℕ) (id : Option (Json N)) (m : MiningSubmit) (a : Authorization)
      (e : ClientEntity N) (c : Client N) (s : JobsService N) (job : Option MiningJob)
      → get_job_by_id m.job_id s ≡ job
      → Settled (clock 0) m s c (with_job pool chain clock id m a e c s job)
  with_job-Settled clock id m a e c s none is_job =
      refuse_share-Settled (clock 0) m s id job_not_found (codes "Job not found") c s
  with_job-Settled clock id m a e c s (some job) is_job =
      with_template-Settled clock id m job a e c s (get_job_template_by_id job.job_template_id s)
        is_job refl
