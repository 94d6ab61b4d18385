-- ===== src/Stratum/Client/Dispatch.antt =====
-- apps/stratum/src/models/StratumV1Client.ts: `handleMessage` as a whole, `initStratum`, `sendNewMiningJob`
-- and `checkDifficulty`. A message, a job and the timer are events. What the den's service and the
-- statistics answer is given.
use hashden.Common.{
  ℕ, Bool, true, false, ◌&&◌, List, [], ◌∷◌, ◌++◌, Option, none, some, if◌then◌else◌, Result, err,
  ok,
}
use hashden.Common.Text.{Text, codes, text_eq}
use hashden.Stratum.Vardiff.{Regime}
use hashden.Stratum.Statistics.{Statistics}
use hashden.Stratum.MiningJob.{AddressObject, MiningJob, new_mining_job}
use hashden.Stratum.Jobs.{JobTemplate, JobsService, get_next_id, add_job}
use hashden.Stratum.Messages.{
  Request, RequestMethod, subscribe, configure, authorize, suggest_difficulty, submit, unknown,
  Sent, accepted, set_difficulty, notify, Authorization, MiningSubmit, Checked, threw, invalid,
  valid, check_subscription, check_configuration, read_authorization, check_submit, param,
}
use hashden.Stratum.Client.{
  HashdenContext, ClientEntity, Client, Pool, end_socket, write, set_difficulty_to, Flow, returned,
  broke, thrown, unless_lost, refuse, on_subscribe, on_configure, on_authorize, on_suggest,
}
use hashden.Stratum.Client.Effects.{Effect, den_routed, template_asked, payouts_asked, Chain}
use hashden.Stratum.Client.Submission.{
  Verdict, accepted_share, refused_share, crashed, Handled, handle_mining_submission,
}

-- What a connection asks for a job. `full`, `dev_share` and `rest_share` are 100, 1.5 and 98.5 percent;
-- `is_small` is `hashRate != 0 && hashRate < 50000000000000`.
pub record Desk (N : Type 0) : Type 0 where
  pub effective_template : Text → JobTemplate N → JobsService N → JobTemplate N × JobsService N
  pub payout_information : Text → ℕ → Text → Result Text (List (AddressObject N))
  pub dev_fee_address : Option Text
  pub full : N
  pub dev_share : N
  pub rest_share : N
  pub is_small : N → Bool
  pub known_network : Bool
  pub identifier : Text
  pub suggested : Statistics N → N → Option N

-- What an event leaves, and whether it ended with an error that is not caught within.
pub record Moved (N : Type 0) : Type 0 where
  pub client : Client N
  pub service : JobsService N
  pub effects : List (Effect N)
  pub throws : Bool

-- A line of the socket: no JSON, the value null, or a request.
pub data Line (N : Type 0) : Type 0 where
  no_json null_line : Line N
  message : Request N → Line N

module _ {N : Type 0} (pool : Pool N) (chain : Chain N) (desk : Desk N) where
  abbrev pub moved : List (Effect N) → Client N → JobsService N → Moved N
  moved effects c s = record { client = c; service = s; effects = effects; throws = false }

  abbrev pub failing : Client N → JobsService N → Moved N
  failing c s = record { client = c; service = s; effects = []; throws = true }

  -- The hash rate of a client that has a row, which decides the fee.
  abbrev pub note_hash_rate : Option (ClientEntity N) → Client N → Client N
  note_hash_rate none c = c
  note_hash_rate (some e) c = record c { client_hash_rate = c.statistics.hash_rate }

  abbrev pub no_fee : Client N → Bool
  no_fee c = elim c.entity [ none ↦ false | some e ↦ desk.is_small c.statistics.hash_rate ]

  abbrev pub alone : Text → List (AddressObject N)
  alone address = record { address = address; percent = desk.full } ∷ []

  abbrev pub with_dev : Text → Text → List (AddressObject N)
  with_dev dev address =
      record { address = dev; percent = desk.dev_share }
      ∷ record { address = address; percent = desk.rest_share }
      ∷ []

  abbrev pub split_with_dev : Bool → Option Text → Text → List (AddressObject N)
  split_with_dev free none address = alone address
  split_with_dev free (some []) address = alone address
  split_with_dev free (some (x ∷ dev)) address =
      if free then alone address else with_dev (x ∷ dev) address

  abbrev pub miner_payout : Bool → Option Authorization → Result Text (List (AddressObject N))
  miner_payout free none = err (codes "TypeError")
  miner_payout free (some a) = ok (split_with_dev free desk.dev_fee_address a.address)

  abbrev pub send_job : JobTemplate N → Client N → JobsService N → Result Text MiningJob → Moved N
  send_job t c s (err e) = failing c s
  send_job t c s (ok job) =
      moved [] (write pool (notify job.job_id job.coinbase_part1 job.coinbase_part2 t) c).0
        (add_job job s)

  abbrev pub build_job :
      ℕ → JobTemplate N → List (AddressObject N) → Client N → JobsService N → Moved N
  build_job now t payout c s =
      if desk.known_network
      then send_job t c s (
          new_mining_job chain.lib pool.extranonce2_size desk.identifier now (get_next_id s) payout
            t.block_data.id t.block_data.coinbasevalue t.block_data.height t.block)
      else failing c s

  abbrev pub den_job :
      ℕ → JobTemplate N → Client N → JobsService N → Result Text (List (AddressObject N)) → Moved N
  den_job now t c s (err e) = moved [] (end_socket pool c) s
  den_job now t c s (ok payout) = build_job now t payout c s

  abbrev pub miner_job :
      ℕ → JobTemplate N → Client N → JobsService N → Result Text (List (AddressObject N)) → Moved N
  miner_job now t c s (err e) = failing c s
  miner_job now t c s (ok payout) = build_job now t payout c s

  abbrev pub after_asking : List (Effect N) → Moved N → Moved N
  after_asking asked m = record m { effects = asked ++ m.effects }

  abbrev pub job_for :
      ℕ → JobTemplate N → Client N → JobsService N → Option HashdenContext → Moved N
  job_for now t c s none = miner_job now t c s (miner_payout (no_fee c) c.client_authorization)
  job_for now t c s (some den) =
      let (t', s') = desk.effective_template den.group_id t s in
      let reward = t'.block_data.coinbasevalue in
      after_asking
        (template_asked den.group_id ∷ payouts_asked den.group_id reward den.member_pubkey ∷ [])
        (den_job now t' c s' (desk.payout_information den.group_id reward den.member_pubkey))

  unfoldable pub send_new_mining_job : ℕ → JobTemplate N → Client N → JobsService N → Moved N
  send_new_mining_job now t c s = job_for now t (note_hash_rate c.entity c) s c.hashden_context

  -- `initStratum`. The jobs that follow are events of their own.
  abbrev pub is_cpuminer : Option Text → Bool
  is_cpuminer none = false
  is_cpuminer (some agent) = text_eq agent (codes "cpuminer")

  abbrev pub lower_difficulty : ℕ → Client N → Client N
  lower_difficulty now c =
      if is_cpuminer c.client_subscription
      then set_difficulty_to pool now pool.cpuminer_difficulty c
      else c

  abbrev pub seed_if : List (Regime N) → ℕ → Client N → Client N
  seed_if [] now c = set_difficulty_to pool now c.vardiff.session_difficulty c
  seed_if (r ∷ rs) now c = c

  abbrev pub seed : ℕ → Client N → Client N
  seed now c = seed_if c.vardiff.recent_difficulties now c

  abbrev pub watch_jobs : Client N × Bool → Client N
  watch_jobs (c, true) = record c { receives_jobs = true }
  watch_jobs (c, false) = c

  abbrev pub announce : Client N → Client N
  announce c = watch_jobs (
      if c.suggested_difficulty
      then (c, true)
      else write pool (set_difficulty c.vardiff.session_difficulty) c)

  unfoldable pub init_stratum : ℕ → Client N → Client N
  init_stratum now c =
      announce (seed now (lower_difficulty now (record c { stratum_initialized = true })))

  abbrev pub is_ready : Option Text → Option Authorization → Bool → Bool
  is_ready (some agent) (some a) false = true
  is_ready _ _ _ = false

  abbrev pub maybe_init : ℕ → Client N → Client N
  maybe_init now c =
      if is_ready c.client_subscription c.client_authorization c.stratum_initialized
      then init_stratum now c
      else c

  -- The case of the switch ends, and the message with it.
  abbrev pub settle : ℕ → List (Effect N) → JobsService N → Flow pool → Moved N
  settle now effects s (returned c) = moved effects c s
  settle now effects s (broke c) = moved effects (maybe_init now c) s
  settle now effects s (thrown c) = moved effects (end_socket pool c) s

  abbrev pub answer : Request N → Client N → Verdict → Flow pool
  answer r c accepted_share = unless_lost pool (write pool (accepted r.id) c)
  answer r c refused_share = broke c
  answer r c crashed = thrown c

  abbrev pub submitted : (ℕ → ℕ) → Request N → Handled N → Moved N
  submitted clock r h = settle (clock 1) h.effects h.service (answer r h.client h.verdict)

  abbrev pub on_submission :
      (ℕ → ℕ) → Request N → Checked MiningSubmit → Client N → JobsService N → Moved N
  on_submission clock r threw c s = settle (clock 1) [] s (thrown c)
  on_submission clock r invalid c s =
      settle (clock 1) [] s (refuse pool r.id (codes "Mining Submit validation error") c)
  on_submission clock r (valid m) c s =
      submitted clock r (handle_mining_submission pool chain clock r.id m c s)

  -- A submission before the handshake ends the socket.
  abbrev pub on_submit : (ℕ → ℕ) → Request N → Client N → JobsService N → Moved N
  on_submit clock r c s =
      if c.stratum_initialized
      then on_submission clock r (check_submit r) c s
      else moved [] (end_socket pool c) s

  -- `hashdenService.route`, of a name that can be read.
  abbrev pub routing : Checked (Text × Authorization) → List (Effect N)
  routing (valid (name, a)) = den_routed name ∷ []
  routing _ = []

  abbrev pub on_request : RequestMethod → (ℕ → ℕ) → Request N → Client N → JobsService N → Moved N
  on_request subscribe clock r c s =
      settle (clock 1) [] s (on_subscribe pool (clock 0) r (check_subscription r) c)
  on_request configure clock r c s =
      settle (clock 1) [] s (on_configure pool r (check_configuration r) c)
  on_request authorize clock r c s =
      settle (clock 1) (routing (read_authorization (param r 0))) s
        (on_authorize pool r (read_authorization (param r 0)) c)
  on_request suggest_difficulty clock r c s = settle (clock 1) [] s (on_suggest pool (clock 0) r c)
  on_request submit clock r c s = on_submit clock r c s
  on_request unknown clock r c s = settle (clock 1) [] s (broke c)

  unfoldable pub handle_message : (ℕ → ℕ) → Line N → Client N → JobsService N → Moved N
  handle_message clock no_json c s = moved [] (end_socket pool c) s
  handle_message clock null_line c s = moved [] (end_socket pool c) s
  handle_message clock (message r) c s = on_request r.method clock r c s

  -- A new job for a connection that watches them; an error ends the socket.
  abbrev pub end_if_thrown : Moved N → Moved N
  end_if_thrown m = if m.throws then moved m.effects (end_socket pool m.client) m.service else m

  abbrev pub clear_hashes : Bool → Client N → Client N
  clear_hashes true c = record c { submission_hashes = [] }
  clear_hashes false c = c

  unfoldable pub on_job : ℕ → JobTemplate N → Client N → JobsService N → Moved N
  on_job now t c s =
      if c.receives_jobs
      then end_if_thrown (send_new_mining_job now t (clear_hashes t.block_data.clear_jobs c) s)
      else moved [] c s

  -- `await this.socket.write(data)`
  abbrev pub write_raw : Sent N → Client N → Client N
  write_raw m c = if c.is_open && pool.takes c.sent m then record c { sent = m ∷ c.sent } else c

  abbrev pub clearing : JobTemplate N → JobTemplate N
  clearing t = record {
    block = t.block;
    merkle_branch = t.merkle_branch;
    block_data = record t.block_data { clear_jobs = true };
  }

  abbrev pub same : N → N → Bool
  same a b = pool.order.leq a b && pool.order.leq b a

  abbrev pub adjust : ℕ → JobTemplate N → Client N → JobsService N → Option N → Moved N
  adjust now latest c s none = moved [] c s
  adjust now latest c s (some d) =
      if same d c.vardiff.session_difficulty
      then moved [] c s
      else send_new_mining_job now (clearing latest)
          (write_raw (set_difficulty d) (set_difficulty_to pool now d c)) s

  -- The timer, which runs while the connection watches jobs. `latest` is the job that is replayed.
  unfoldable pub check_difficulty : ℕ → JobTemplate N → Client N → JobsService N → Moved N
  check_difficulty now latest c s =
      if c.receives_jobs
      then adjust now latest c s (desk.suggested c.statistics c.vardiff.session_difficulty)
      else moved [] c s
