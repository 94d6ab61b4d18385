-- ===== src/Stratum/Client/Tests.antt =====
-- apps/stratum/src/models/StratumV1Client.ts: a connection that shakes hands and submits a share, and the
-- theorems applied to it. Difficulties are whole numbers, and every hash is that of difficulty 5.
use hashden.Common.{
  ℕ, ◌+◌, ◌*◌, ◌/◌, ◌≡◌, refl, true, false, ◌||◌, List, [], ◌∷◌, none, some, leb, ltb, arith, ok,
}
use hashden.Common.Int.{pos}
use hashden.Common.Text.{Text, codes}
use hashden.Shared.WorkerName.{missing_pubkey}
use hashden.Groups.Router.{refused, invalid_name}
use hashden.Stratum.Statistics.{Numbers}
use hashden.Stratum.MiningJob.{Block, p2wpkh, Bitcoin, MiningJob}
use hashden.Stratum.Jobs.{JobTemplate, JobsService, initial_service}
use hashden.Stratum.Messages.{
  authorization_ok, valid, Json, text, number, Request, RequestMethod, subscribe, authorize, submit,
  Authorization, MiningSubmit,
}
use hashden.Stratum.Client.{HashdenContext, Client, Pool, new_client, on_authorize}
use hashden.Stratum.Client.Protocol.{phase, Moves}
use hashden.Stratum.Client.Context.{client_after, reauthorized-context}
use hashden.Stratum.Client.Effects.{Chain}
use hashden.Stratum.Client.Submission.Duplicates.{Submitted, Once, credited, credited-Once}
use hashden.Stratum.Client.Dispatch.{Desk, message}
use hashden.Stratum.Client.Safety.{Event, line, live, live-Moves}

leb_total : (a b : ℕ) → (leb a b || leb b a) ≡ true
leb_total a b = ground arith

leb_trans : (a b c : ℕ) → leb a b ≡ true → leb b c ≡ true → leb a c ≡ true
leb_trans a b c h k = ground arith

abbrev numbers : Numbers ℕ
numbers = record {
  nothing = 0;
  plus = λ a b. a + b;
  positive = λ n. ltb 0 n;
  rate = λ previous shares time. 0;
}

abbrev lib : Bitcoin ℕ
lib = record {
  address_type = λ a. ok p2wpkh;
  payment = λ t a. ok (codes "0014");
  number_encode = λ n. codes "63";
  utf8 = λ s. s;
  op_return = λ s. codes "6a";
  transaction_weight = λ s outs. 400;
  serialize = λ s outs. s;
  hash256 = λ s. codes "05";
  floor_share = λ percent reward. pos (percent * reward / 100);
}

abbrev pool : Pool ℕ
pool = record {
  order = record { leq = leb; leq_total = leb_total; leq_trans = leb_trans };
  numbers = numbers;
  vardiff_grace_ms = 30000;
  extranonce2_size = 8;
  start_difficulty = 3;
  cpuminer_difficulty = 1;
  is_bitcoin_address = λ a. true;
  route = λ name. ok (refused (invalid_name missing_pubkey));
  random_session = λ now. codes "01020304";
  takes = λ sent m. true;
}

abbrev chain : Chain ℕ
chain = record {
  lib = lib;
  header = λ block. ok (codes "aa");
  ratio = λ n. n;
  is_accepted = λ block. false;
  inserts_client = true;
  no_difficulty = 0;
  address_best = λ a. 0;
  minimum_difficulty = none;
}

abbrev desk : Desk ℕ
desk = record {
  effective_template = λ group t s. (t, s);
  payout_information = λ group reward member. ok [];
  dev_fee_address = none;
  full = 100;
  dev_share = 1;
  rest_share = 99;
  is_small = λ rate. false;
  known_network = true;
  identifier = [];
  suggested = λ statistics d. none;
}

abbrev block : Block
block = record {
  version = 0;
  prev_hash = [];
  merkle_root = [];
  timestamp = none;
  bits = 0;
  nonce = none;
  witness_commit = [];
  weight = 1000;
}

abbrev template : JobTemplate ℕ
template = record {
  block = block;
  merkle_branch = [];
  block_data = record {
    id = codes "1";
    created = 0;
    coinbasevalue = 100;
    network_difficulty = 1000;
    height = 5;
    clear_jobs = false;
  };
}

abbrev mining_job : MiningJob
mining_job = record {
  job_id = codes "1";
  job_template_id = codes "1";
  creation = 0;
  input_script = codes "0163000000000000000000000000";
  outs = [];
  coinbase_part1 = codes "0163";
  coinbase_part2 = [];
  extranonce_region_hex = 24;
}

abbrev service : JobsService ℕ
service = record initial_service {
  jobs = (codes "1", mining_job) ∷ [];
  blocks = (codes "1", template) ∷ [];
}

abbrev request : RequestMethod → List Text → Request ℕ
request method params = record {
  id = some (number 1);
  method = method;
  params = some (record { is_array = true; items = texts params });
}
  where
    texts : List Text → List (Json ℕ)
    texts [] = []
    texts (s ∷ ss) = text s ∷ texts ss

abbrev clock : ℕ → ℕ
clock i = 1000

abbrev handshake : List (Event ℕ)
handshake =
    line clock (message (request subscribe (codes "miner" ∷ []))) service
    ∷ line clock (message (request authorize (codes "addr.rig" ∷ codes "x" ∷ []))) service
    ∷ []

abbrev share : Request ℕ
share =
    request submit
      (codes "addr" ∷ codes "1" ∷ codes "0102030405060708" ∷ codes "5f" ∷ codes "07" ∷ [])

live-Moves_example :
    Moves (phase (new_client pool)) (phase (live pool chain desk handshake (new_client pool)))
live-Moves_example = live-Moves pool chain desk handshake (new_client pool)

abbrev submission : MiningSubmit
submission = record {
  job_id = codes "1";
  extra_nonce2 = codes "0102030405060708";
  ntime = codes "5f";
  nonce = codes "07";
  version_mask = codes "0";
}

abbrev ready : Client ℕ
ready = live pool chain desk handshake (new_client pool)

abbrev attempt : Submitted ℕ
attempt = record { at = clock; request_id = none; submission = submission; service = service }

credited-Once_example : Once (credited pool chain (attempt ∷ attempt ∷ []) ready)
credited-Once_example = credited-Once pool chain (attempt ∷ attempt ∷ []) ready

abbrev den : HashdenContext
den = record { group_id = codes "g"; member_pubkey = codes "p"; worker_id = none }

abbrev in_den : Client ℕ
in_den = record (new_client pool) { hashden_context = some den }

abbrev other : Authorization
other = record { address = codes "addr"; worker = codes "rig" }

authorizes_alone :
    authorization_ok pool.is_bitcoin_address
      (request authorize (codes "addr.rig" ∷ codes "x" ∷ []))
      other
    ≡ true
unfolding authorization_ok
authorizes_alone = refl

reauthorized-context_example :
    let c' = client_after pool (
      on_authorize pool
        (request authorize (codes "addr.rig" ∷ codes "x" ∷ []))
        (valid (codes "addr.rig", other))
        in_den) in
    (c'.client_authorization ≡ some other) × c'.hashden_context ≡ some den
reauthorized-context_example =
    reauthorized-context pool (request authorize (codes "addr.rig" ∷ codes "x" ∷ []))
      (codes "addr.rig") other missing_pubkey den in_den refl refl authorizes_alone
