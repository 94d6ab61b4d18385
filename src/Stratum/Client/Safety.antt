-- ===== src/Stratum/Client/Safety.antt =====
-- apps/stratum/src/models/StratumV1Client.ts: a connection over its whole life, as a sequence of events
-- from the connection of the socket on.
use hashden.Common.{ℕ, Bool, true, false, filterb, List, [], ◌∷◌, arith}
use hashden.Common.Text.{Text}
use hashden.Stratum.Jobs.{JobTemplate, JobsService}
use hashden.Stratum.Client.{Client, Pool, new_client}
use hashden.Stratum.Client.Protocol.{phase, Moves, done, then-Moves, IsSafe, Moves-IsSafe}
use hashden.Stratum.Client.Effects.{Effect, den_routed, Chain}
use hashden.Stratum.Client.Dispatch.{Desk, Moved, Line, handle_message, on_job, check_difficulty}
use hashden.Stratum.Client.Events.{handle_message-Follows, on_job-Follows, check_difficulty-Follows}

-- What happens to a connection, with the jobs that there are then.
pub data Event (N : Type 0) : Type 0 where
  line : (ℕ → ℕ) → Line N → JobsService N → Event N
  job : ℕ → JobTemplate N → JobsService N → Event N
  timer : ℕ → JobTemplate N → JobsService N → Event N

module _ {N : Type 0} where
  -- Whether a service is asked for more than the route of a name.
  abbrev pub is_other : Effect N → Bool
  is_other (den_routed name) = false
  is_other _ = true

  unfoldable pub others : List (Effect N) → List (Effect N)
  others = filterb is_other

module _ {N : Type 0} (pool : Pool N) (chain : Chain N) (desk : Desk N) where
  abbrev pub react : Event N → Client N → Moved N
  react (line clock l s) c = handle_message pool chain desk clock l c s
  react (job now t s) c = on_job pool chain desk now t c s
  react (timer now t s) c = check_difficulty pool chain desk now t c s

  unfoldable pub live : List (Event N) → Client N → Client N
  live [] c = c
  live (e ∷ es) c = live es (react e c).client

  react-Moves : (e : Event N) (c : Client N) → Moves (phase c) (phase (react e c).client)
  react-Moves (line clock l s) c = handle_message-Follows pool chain desk clock l c s
  react-Moves (job now t s) c = on_job-Follows pool chain desk now t c s
  react-Moves (timer now t s) c = check_difficulty-Follows pool chain desk now t c s

  -- Whatever happens to a connection, its phases follow one another by the steps of the protocol.
  pub live-Moves : (es : List (Event N)) (c : Client N) → Moves (phase c) (phase (live es c))
  unfolding live
  live-Moves [] c = done
  live-Moves (e ∷ es) c = then-Moves (react-Moves e c) (live-Moves es (react e c).client)

  new_client-IsSafe : IsSafe (phase (new_client pool))
  new_client-IsSafe = ((λ h. absurd (ground arith)), (λ h. absurd (ground arith)))

  -- A connection that has started has a target of its own, and it has subscribed and authorized;
  -- whatever happened, only such a connection watches the jobs.
  pub live-IsSafe : (es : List (Event N)) → IsSafe (phase (live es (new_client pool)))
  live-IsSafe es = Moves-IsSafe (live-Moves es (new_client pool)) new_client-IsSafe
