-- ===== src/Stratum/Client/Events.antt =====
-- apps/stratum/src/models/StratumV1Client.ts: each event, a message, a job or the timer, takes a
-- connection along the steps of the protocol.
use hashden.Common.{
  ℕ, Bool, true, false, ◌&&◌, List, [], ◌∷◌, Option, none, some, if◌then◌else◌, Result, err, ok,
}
use hashden.Common.Text.{Text, codes}
use hashden.Stratum.MiningJob.{AddressObject, MiningJob, new_mining_job}
use hashden.Stratum.Jobs.{JobTemplate, JobsService, get_next_id}
use hashden.Stratum.Messages.{
  Request, RequestMethod, subscribe, configure, authorize, suggest_difficulty, submit, unknown,
  Sent, failed, set_difficulty, MiningSubmit, other_unknown, Checked, threw, invalid, valid,
  check_subscription, check_configuration, read_authorization, check_submit, param,
}
use hashden.Stratum.Client.{
  HashdenContext, ClientEntity, Client, Pool, end_socket, write, set_difficulty_to, Flow, returned,
  broke, thrown, unless_lost, on_subscribe, on_configure, on_authorize, on_suggest,
}
use hashden.Stratum.Client.Protocol.{done, then-Moves}
use hashden.Stratum.Client.Effects.{Effect, Chain}
use hashden.Stratum.Client.Submission.{
  Verdict, accepted_share, refused_share, crashed, handle_mining_submission,
}
use hashden.Stratum.Client.Submission.Outcome.{handle_mining_submission-Settlement}
use hashden.Stratum.Client.Dispatch.{
  Desk, Moved, Line, failing, no_json, null_line, message, moved, note_hash_rate, send_job,
  build_job, den_job, miner_job, job_for, send_new_mining_job, settle, answer, on_submission,
  routing, on_submit, on_request, handle_message, end_if_thrown, clear_hashes, on_job, write_raw,
  clearing, same, adjust, check_difficulty,
}
use hashden.Stratum.Client.Handshake.{
  Follows, client_of, KeepsHandshake-Follows, write-Follows, sent-Follows,
  set_difficulty_to-Follows, on_subscribe-Follows, on_configure-Follows, on_authorize-Follows,
  on_suggest-Follows, pick-Follows, maybe_init-Follows,
}

module _ {N : Type 0} (pool : Pool N) (chain : Chain N) (desk : Desk N) where
  choose-Follows :
      (b : Bool) (c : Client N) (m n : Moved N)
      → Follows pool chain desk c m.client
      → Follows pool chain desk c n.client
      → Follows pool chain desk c (if b then m else n).client
  choose-Follows true c m n left right = left
  choose-Follows false c m n left right = right

  settle-Follows :
      (now : ℕ) (effects : List (Effect N)) (s : JobsService N) (c : Client N) (f : Flow pool)
      → Follows pool chain desk c (client_of pool chain desk f)
      → Follows pool chain desk c (settle pool chain desk now effects s f).client
  settle-Follows now effects s c (returned c') follows = follows
  settle-Follows now effects s c (broke c') follows =
      then-Moves follows (maybe_init-Follows pool chain desk now c')
  settle-Follows now effects s c (thrown c') follows = follows

  answer-Follows :
      (r : Request N) (c : Client N) (v : Verdict)
      → Follows pool chain desk c (client_of pool chain desk (answer pool chain desk r c v))
  answer-Follows r c accepted_share = sent-Follows pool chain desk _ c
  answer-Follows r c refused_share = done
  answer-Follows r c crashed = done

  on_submission-Follows :
      (clock : ℕ → ℕ) (r : Request N) (x : Checked MiningSubmit) (c : Client N) (s : JobsService N)
      → Follows pool chain desk c (on_submission pool chain desk clock r x c s).client
  on_submission-Follows clock r threw c s = done
  on_submission-Follows clock r invalid c s =
      settle-Follows (clock 1) [] s c
        (unless_lost pool
          (write pool (failed r.id other_unknown (codes "Mining Submit validation error")) c))
        (sent-Follows pool chain desk _ c)
  on_submission-Follows clock r (valid m) c s =
      let h = handle_mining_submission pool chain clock r.id m c s in
      settle-Follows (clock 1) h.effects h.service c (answer pool chain desk r h.client h.verdict) (
        then-Moves
          (KeepsHandshake-Follows pool chain desk c h.client
            (handle_mining_submission-Settlement pool chain clock r.id m c s).2.2)
          (answer-Follows r h.client h.verdict))

  end_socket-Follows : (c : Client N) → Follows pool chain desk c (end_socket pool c)
  end_socket-Follows c = done

  on_submit-Follows :
      (clock : ℕ → ℕ) (r : Request N) (c : Client N) (s : JobsService N)
      → Follows pool chain desk c (on_submit pool chain desk clock r c s).client
  on_submit-Follows clock r c s =
      choose-Follows c.stratum_initialized c
        (on_submission pool chain desk clock r (check_submit r) c s)
        (moved pool chain desk [] (end_socket pool c) s)
        (on_submission-Follows clock r (check_submit r) c s) (end_socket-Follows c)

  on_request-Follows :
      (method : RequestMethod) (clock : ℕ → ℕ) (r : Request N) (c : Client N) (s : JobsService N)
      → Follows pool chain desk c (on_request pool chain desk method clock r c s).client
  on_request-Follows subscribe clock r c s =
      settle-Follows (clock 1) [] s c (on_subscribe pool (clock 0) r (check_subscription r) c)
        (on_subscribe-Follows pool chain desk (clock 0) r (check_subscription r) c)
  on_request-Follows configure clock r c s =
      settle-Follows (clock 1) [] s c (on_configure pool r (check_configuration r) c)
        (on_configure-Follows pool chain desk r (check_configuration r) c)
  on_request-Follows authorize clock r c s =
      settle-Follows (clock 1) (routing pool chain desk (read_authorization (param r 0))) s c
        (on_authorize pool r (read_authorization (param r 0)) c)
        (on_authorize-Follows pool chain desk r (read_authorization (param r 0)) c)
  on_request-Follows suggest_difficulty clock r c s =
      settle-Follows (clock 1) [] s c (on_suggest pool (clock 0) r c)
        (on_suggest-Follows pool chain desk (clock 0) r c)
  on_request-Follows submit clock r c s = on_submit-Follows clock r c s
  on_request-Follows unknown clock r c s = settle-Follows (clock 1) [] s c (broke c) done

  pub handle_message-Follows :
      (clock : ℕ → ℕ) (l : Line N) (c : Client N) (s : JobsService N)
      → Follows pool chain desk c (handle_message pool chain desk clock l c s).client
  unfolding handle_message
  handle_message-Follows clock no_json c s = done
  handle_message-Follows clock null_line c s = done
  handle_message-Follows clock (message r) c s = on_request-Follows r.method clock r c s

  note_hash_rate-Follows :
      (e : Option (ClientEntity N)) (c : Client N)
      → Follows pool chain desk c (note_hash_rate pool chain desk e c)
  note_hash_rate-Follows none c = done
  note_hash_rate-Follows (some e) c = done

  send_job-Follows :
      (t : JobTemplate N) (c : Client N) (s : JobsService N) (job : Result Text MiningJob)
      → Follows pool chain desk c (send_job pool chain desk t c s job).client
  send_job-Follows t c s (err e) = done
  send_job-Follows t c s (ok job) = write-Follows pool chain desk _ c

  build_job-Follows :
      (now : ℕ) (t : JobTemplate N) (payout : List (AddressObject N)) (c : Client N)
      (s : JobsService N)
      → Follows pool chain desk c (build_job pool chain desk now t payout c s).client
  build_job-Follows now t payout c s =
      choose-Follows desk.known_network c _ (failing pool chain desk c s)
        (send_job-Follows t c s (
          new_mining_job chain.lib pool.extranonce2_size desk.identifier now (get_next_id s) payout
            t.block_data.id t.block_data.coinbasevalue t.block_data.height t.block))
        done

  den_job-Follows :
      (now : ℕ) (t : JobTemplate N) (c : Client N) (s : JobsService N)
      (payout : Result Text (List (AddressObject N)))
      → Follows pool chain desk c (den_job pool chain desk now t c s payout).client
  den_job-Follows now t c s (err e) = done
  den_job-Follows now t c s (ok payout) = build_job-Follows now t payout c s

  miner_job-Follows :
      (now : ℕ) (t : JobTemplate N) (c : Client N) (s : JobsService N)
      (payout : Result Text (List (AddressObject N)))
      → Follows pool chain desk c (miner_job pool chain desk now t c s payout).client
  miner_job-Follows now t c s (err e) = done
  miner_job-Follows now t c s (ok payout) = build_job-Follows now t payout c s

  job_for-Follows :
      (now : ℕ) (t : JobTemplate N) (c : Client N) (s : JobsService N) (den : Option HashdenContext)
      → Follows pool chain desk c (job_for pool chain desk now t c s den).client
  job_for-Follows now t c s none = miner_job-Follows now t c s _
  job_for-Follows now t c s (some den) = den_job-Follows now _ c _ _

  send_new_mining_job-Follows :
      (now : ℕ) (t : JobTemplate N) (c : Client N) (s : JobsService N)
      → Follows pool chain desk c (send_new_mining_job pool chain desk now t c s).client
  unfolding send_new_mining_job
  send_new_mining_job-Follows now t c s =
      then-Moves (note_hash_rate-Follows c.entity c)
        (job_for-Follows now t (note_hash_rate pool chain desk c.entity c) s c.hashden_context)

  end_if_thrown-Follows :
      (c : Client N) (m : Moved N)
      → Follows pool chain desk c m.client
      → Follows pool chain desk c (end_if_thrown pool chain desk m).client
  end_if_thrown-Follows c m follows =
      choose-Follows m.throws c
        (moved pool chain desk m.effects (end_socket pool m.client) m.service) m follows follows

  clear_hashes-Follows :
      (b : Bool) (c : Client N) → Follows pool chain desk c (clear_hashes pool chain desk b c)
  clear_hashes-Follows true c = done
  clear_hashes-Follows false c = done

  pub on_job-Follows :
      (now : ℕ) (t : JobTemplate N) (c : Client N) (s : JobsService N)
      → Follows pool chain desk c (on_job pool chain desk now t c s).client
  unfolding on_job
  on_job-Follows now t c s =
      let c' = clear_hashes pool chain desk t.block_data.clear_jobs c in
      choose-Follows c.receives_jobs c
        (end_if_thrown pool chain desk (send_new_mining_job pool chain desk now t c' s))
        (moved pool chain desk [] c s)
        (end_if_thrown-Follows c (send_new_mining_job pool chain desk now t c' s) (
          then-Moves (clear_hashes-Follows t.block_data.clear_jobs c)
            (send_new_mining_job-Follows now t c' s)))
        done

  write_raw-Follows :
      (m : Sent N) (c : Client N) → Follows pool chain desk c (write_raw pool chain desk m c)
  write_raw-Follows m c =
      pick-Follows pool chain desk (c.is_open && pool.takes c.sent m) c
        (record c { sent = m ∷ c.sent }) (λ taken. done)

  adjust-Follows :
      (now : ℕ) (latest : JobTemplate N) (c : Client N) (s : JobsService N) (d : Option N)
      → Follows pool chain desk c (adjust pool chain desk now latest c s d).client
  adjust-Follows now latest c s none = done
  adjust-Follows now latest c s (some d) =
      let c₁ = set_difficulty_to pool now d c in
      let c₂ = write_raw pool chain desk (set_difficulty d) c₁ in
      choose-Follows (same pool chain desk d c.vardiff.session_difficulty) c
        (moved pool chain desk [] c s)
        (send_new_mining_job pool chain desk now (clearing pool chain desk latest) c₂ s) done
        (then-Moves (set_difficulty_to-Follows pool chain desk now d c) (
          then-Moves (write_raw-Follows (set_difficulty d) c₁)
            (send_new_mining_job-Follows now (clearing pool chain desk latest) c₂ s)))

  pub check_difficulty-Follows :
      (now : ℕ) (latest : JobTemplate N) (c : Client N) (s : JobsService N)
      → Follows pool chain desk c (check_difficulty pool chain desk now latest c s).client
  unfolding check_difficulty
  check_difficulty-Follows now latest c s =
      choose-Follows c.receives_jobs c
        (adjust pool chain desk now latest c s
          (desk.suggested c.statistics c.vardiff.session_difficulty))
        (moved pool chain desk [] c s)
        (adjust-Follows now latest c s (desk.suggested c.statistics c.vardiff.session_difficulty))
        done
