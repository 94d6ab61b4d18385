-- ===== src/Stratum/Client.antt =====
-- apps/stratum/src/models/StratumV1Client.ts: the connection of a miner. Messages are handled one after the
-- other, each to its end; the database, the notifications and the watchers of jobs answer at once. What
-- the connection is given from outside is the record Pool. A thrown error ends the socket.
pub mod Context
pub mod Dispatch
pub mod Effects
pub mod Events
pub mod Handshake
pub mod Protocol
pub mod Safety
pub mod Submission
mod Tests
use hashden.Common.{
  ℕ, suc, ◌+◌, Bool, true, false, not, ◌&&◌, List, [], ◌∷◌, ◌++◌, Option, none, some, if◌then◌else◌,
  Result, err, ok, is_some,
}
use hashden.Common.Text.{Text, codes, text_eq}
use hashden.Groups.Router.{
  Route, RouteDecision, routed, refused, Refusal, invalid_name, group_not_found, group_deleted,
  not_member,
}
use hashden.Stratum.Vardiff.{Ordered, Regime, Vardiff, set_session_difficulty}
use hashden.Stratum.Statistics.{Numbers, Statistics, initial_statistics}
use hashden.Stratum.MiningJob.{Bitcoin, AddressObject, MiningJob}
use hashden.Stratum.Jobs.{JobTemplate, JobsService}
use hashden.Stratum.Messages.{
  Json, Request, Sent, subscribed, configured, authorized, failed, set_difficulty, Authorization,
  Checked, threw, invalid, valid, other_unknown, check_subscription, check_configuration,
  read_authorization, authorization_ok, check_suggestion,
}

pub record HashdenContext : Type 0 where
  pub group_id : Text
  pub member_pubkey : Text
  pub worker_id : Option Text

pub record ClientEntity (N : Type 0) : Type 0 where
  pub entity_address : Text
  pub client_name : Text
  pub entity_session : Text
  pub best_difficulty : N
  pub updated_at : Option ℕ

-- The connection. `sent` has the latest message first; `entity_failed` says that `creatingEntity` was
-- rejected.
pub record Client (N : Type 0) : Type 0 where
  pub client_subscription : Option Text
  pub client_authorization : Option Authorization
  pub suggested_difficulty : Bool
  pub stratum_initialized : Bool
  pub used_suggested_difficulty : Bool
  pub vardiff : Vardiff N
  pub session_id : Text
  pub session_started : Bool
  pub hashden_context : Option HashdenContext
  pub submission_hashes : List Text
  pub entity : Option (ClientEntity N)
  pub entity_failed : Bool
  pub statistics : Statistics N
  pub client_hash_rate : N
  pub receives_jobs : Bool
  pub is_open : Bool
  pub sent : List (Sent N)

-- What the connection is given: settings, the services that it asks, and whether the socket takes a
-- message after those that it has taken.
pub record Pool (N : Type 0) : Type 0 where
  pub order : Ordered N
  pub numbers : Numbers N
  pub vardiff_grace_ms : ℕ
  pub extranonce2_size : ℕ
  pub start_difficulty : N
  pub cpuminer_difficulty : N
  pub is_bitcoin_address : Text → Bool
  pub route : Text → Result Text RouteDecision
  pub random_session : ℕ → Text
  pub takes : List (Sent N) → Sent N → Bool

module _ {N : Type 0} (pool : Pool N) where
  abbrev pub new_client : Client N
  new_client = record {
    client_subscription = none;
    client_authorization = none;
    suggested_difficulty = false;
    stratum_initialized = false;
    used_suggested_difficulty = false;
    vardiff = record { recent_difficulties = []; session_difficulty = pool.start_difficulty };
    session_id = [];
    session_started = false;
    hashden_context = none;
    submission_hashes = [];
    entity = none;
    entity_failed = false;
    statistics = initial_statistics pool.numbers;
    client_hash_rate = pool.numbers.nothing;
    receives_jobs = false;
    is_open = true;
    sent = [];
  }

  abbrev pub end_socket : Client N → Client N
  end_socket c = record c { is_open = false }

  -- A write that fails destroys the connection, which receives no jobs from then on.
  unfoldable pub write : Sent N → Client N → Client N × Bool
  write m c =
      if c.is_open && pool.takes c.sent m
      then (record c { sent = m ∷ c.sent }, true)
      else (record c { is_open = false; receives_jobs = false }, false)

  abbrev pub set_difficulty_to : ℕ → N → Client N → Client N
  set_difficulty_to now d c = record c {
    vardiff = set_session_difficulty pool.order pool.vardiff_grace_ms now d c.vardiff;
  }

  -- How a case of the switch ends: by `return`, by `break`, or by an error.
  pub data Flow : Type 0 where
    returned broke thrown : Client N → Flow

  -- `const success = await this.write(...); if (!success) { return; }`
  abbrev pub unless_lost : Client N × Bool → Flow
  unless_lost (c, true) = broke c
  unless_lost (c, false) = returned c

  abbrev pub refuse : Option (Json N) → Text → Client N → Flow
  refuse id message c = unless_lost (write (failed id other_unknown message) c)

  abbrev pub start_session : ℕ → Client N → Client N
  start_session now c = if c.session_started then c else record c {
    session_started = true;
    statistics = initial_statistics pool.numbers;
    session_id = pool.random_session now;
  }

  abbrev pub on_subscribe : ℕ → Request N → Checked Text → Client N → Flow
  on_subscribe now r threw c = thrown c
  on_subscribe now r invalid c = refuse r.id (codes "Subscription validation error") c
  on_subscribe now r (valid agent) c =
      let c' = record (start_session now c) { client_subscription = some agent } in
      unless_lost (write (subscribed r.id c'.session_id pool.extranonce2_size) c')

  abbrev pub on_configure : Request N → Checked (Unit {0}) → Client N → Flow
  on_configure r threw c = thrown c
  on_configure r invalid c = refuse r.id (codes "Configuration validation error") c
  on_configure r (valid _) c = unless_lost (write (configured r.id) c)

  abbrev pub authorize : Request N → Authorization → Client N → Flow
  authorize r a c =
      if authorization_ok pool.is_bitcoin_address r a
      then unless_lost (write (authorized r.id) (record c { client_authorization = some a }))
      else refuse r.id (codes "Authorization validation error") c

  -- `decision.reason`
  abbrev pub reason_of : Refusal → Text
  reason_of (invalid_name e) = codes "INVALID_NAME"
  reason_of group_not_found = codes "GROUP_NOT_FOUND"
  reason_of group_deleted = codes "GROUP_DELETED"
  reason_of not_member = codes "NOT_MEMBER"

  abbrev pub worker_or_default : Option Text → Text
  worker_or_default none = codes "worker"
  worker_or_default (some w) = w

  abbrev pub context_of : Route → HashdenContext
  context_of route = record {
    group_id = route.group_id;
    member_pubkey = route.member_pubkey;
    worker_id = route.worker_id;
  }

  -- What the den's route is makes of the request. A name that is none of a den is authorized as it is.
  abbrev pub on_route : Request N → Authorization → Result Text RouteDecision → Client N → Flow
  on_route r a (err e) c = thrown c
  on_route r a (ok (routed route)) c =
      authorize r
        (record { address = route.btc_address; worker = worker_or_default route.worker_id })
        (record c { hashden_context = some (context_of route) })
  on_route r a (ok (refused (invalid_name e))) c = authorize r a c
  on_route r a (ok (refused why)) c =
      returned
        (write (failed r.id other_unknown (codes "Hashden auth failed: " ++ reason_of why)) c).0

  abbrev pub on_authorize : Request N → Checked (Text × Authorization) → Client N → Flow
  on_authorize r threw c = thrown c
  on_authorize r invalid c = thrown c
  on_authorize r (valid (name, a)) c = on_route r a (pool.route name) c

  abbrev pub note_suggestion : Client N × Bool → Flow
  note_suggestion (c, true) = broke (record c { used_suggested_difficulty = true })
  note_suggestion (c, false) = returned c

  abbrev pub on_suggestion : ℕ → Request N → Checked N → Client N → Flow
  on_suggestion now r threw c = thrown c
  on_suggestion now r invalid c = refuse r.id (codes "Suggest difficulty validation error") c
  on_suggestion now r (valid d) c = note_suggestion (
      write (set_difficulty d) (set_difficulty_to now d (record c { suggested_difficulty = true })))

  abbrev pub on_suggest : ℕ → Request N → Client N → Flow
  on_suggest now r c =
      if c.used_suggested_difficulty then returned c else on_suggestion now r (check_suggestion r) c
