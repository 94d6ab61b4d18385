-- ===== src/Stratum/Den/Tests.antt =====
-- apps/stratum/src/hashden/hashden.service.ts: a den at fixed inputs, and the theorem applied to it. A
-- percentage is the number of sats that it stands for.
use hashden.Common.{ℕ, arith, ◌≡◌, refl, true, false, List, [], ◌∷◌, none, some, ok}
use hashden.Common.Int.{pos, pos_part}
use hashden.Common.Text.{Text, codes, text_eq}
use hashden.Coinbase.Output.{int}
use hashden.Stratum.MiningJob.{AddressObject, TxOut, p2wpkh, Bitcoin}
use hashden.Stratum.Den.{DenRow, Registry}
use hashden.Common.Dict.{lookup, insert, delete_if}
use hashden.Shared.Hex.{hex_digits}
use hashden.Templates.Health.{HealthState, inspect, should_fallback}
use hashden.Templates.Source.{Endpoint, operator_rpc}
use hashden.Stratum.Jobs.{
  RawTemplate, JobTemplate, JobsService, initial_service, template_of, build_job_template,
  next_template, get_job_template_by_id,
}
use hashden.Stratum.Jobs.Ids.{
  IsValid, initial-IsValid, next_template-IsValid, build_job_template-IsValid,
}
use hashden.Stratum.Den.Template.{
  DenService, Sources, source_key, fetch_from, get_effective_job_template,
}
use hashden.Stratum.Den.Template.Stale.{cached_template-orphaned, fetch_from-closes}

abbrev lib : Bitcoin ℕ
lib = record {
  address_type = λ a. ok p2wpkh;
  payment = λ t a. ok (codes "0014");
  number_encode = λ n. codes "63";
  utf8 = λ s. s;
  op_return = λ s. codes "6a";
  transaction_weight = λ s outs. 400;
  serialize = λ s outs. s;
  hash256 = λ s. codes "05";
  floor_share = λ percent reward. pos percent;
}

abbrev den : DenRow
den = record {
  payout_rule = codes "SOLO_SHOWCASE";
  fee_bps = int (pos 200);
  operator_btc_address = codes "op";
  dust_threshold = pos 10000;
}

abbrev registry : Registry ℕ ℕ
registry = record {
  find_den = λ id. some den;
  find_address = λ id key. some (codes "miner");
  find_shares = λ id n. [];
  find_members = λ id keys. [];
  scaled = λ d. some (pos d);
  platform_btc_address = some (codes "platform");
  platform_fee_bps = int (pos 50);
  percent_of = λ sats reward. pos_part sats;
}

abbrev payout : List (AddressObject ℕ)
payout =
    record { address = codes "miner"; percent = 9750 }
    ∷ record { address = codes "op"; percent = 200 }
    ∷ record { address = codes "platform"; percent = 50 }
    ∷ []

abbrev paid : List TxOut
paid =
    record { script = codes "0014"; value = pos 9750 }
    ∷ record { script = codes "0014"; value = pos 200 }
    ∷ record { script = codes "0014"; value = pos 50 }
    ∷ []

-- A node that answers at every address, and a den with a template of its own in the cache.
abbrev raw : RawTemplate ℕ
raw = record {
  raw_version = 0;
  raw_bits = 0;
  raw_prev_hash = [];
  mintime = 0;
  raw_coinbasevalue = 100;
  raw_difficulty = 1;
  raw_height = 5;
  tree_root = [];
  tree_branch = [];
  tree_commit = [];
  raw_weight = 0;
}

abbrev platform : Endpoint
platform = record { url = codes "knots"; auth = codes "u:p" }

abbrev sources : Sources ℕ
sources = record {
  find_config = λ id. some (record {
    template_source = codes "OPERATOR_RPC";
    operator_rpc_url = some (codes "own");
    operator_rpc_auth = some (codes "u:p");
  });
  decrypt_auth = λ auth. some auth;
  platform_node = some platform;
  get_block_template = λ e. some raw;
  health_opts = record { failure_threshold = none; retry_after_ms = none };
}

abbrev waiting : JobsService ℕ
waiting = (next_template 1000 (pos 0) raw initial_service).1

waiting-IsValid : IsValid waiting
waiting-IsValid = next_template-IsValid 1000 (pos 0) raw initial_service initial-IsValid

-- The den's template, built three seconds before a new block.
abbrev own : JobTemplate ℕ
own = template_of 2000 (codes "2") raw false

abbrev den_service : DenService ℕ
den_service = record {
  job_template_cache = (codes "g1", record { template = own; expires_at = 6000 }) ∷ [];
  template_health = [];
}

abbrev working : JobsService ℕ
working = (build_job_template 2000 raw false waiting).1

working-IsValid : IsValid working
working-IsValid = build_job_template-IsValid 2000 raw false waiting waiting-IsValid

abbrev block_template : JobTemplate ℕ
block_template = template_of 5000 (codes "3") raw true

own_stored : get_job_template_by_id (codes "2") working ≡ some own
unfolding next_template build_job_template hex_digits lookup insert text_eq delete_if
own_stored = refl

new_block : (next_template 5000 (pos 0) raw working).0 ≡ some block_template
unfolding next_template build_job_template hex_digits
new_block = refl

cached :
    lookup (codes "g1") den_service.job_template_cache
    ≡ some (record { template = own; expires_at = 6000 })
unfolding lookup text_eq
cached = refl

cached_template-orphaned_example :
    let s' = (next_template 5000 (pos 0) raw working).1 in
    ((get_effective_job_template sources 5001 (codes "g1") block_template den_service s').served
      ≡ own)
    × (get_job_template_by_id (codes "2") s' ≡ none)
cached_template-orphaned_example =
    cached_template-orphaned sources 5000 5001 (pos 0) raw working block_template (codes "g1")
      (record { template = own; expires_at = 6000 }) den_service working-IsValid own_stored
      new_block refl cached (omega arith)

abbrev tripped : List (Text × HealthState)
tripped =
    (
      codes "op:own",
      record {
        consecutive_failures = 3;
        last_failure_at = some (pos 1000);
        last_success_at = none;
        fallback = true;
      },
    )
    ∷ []

is_open :
    should_fallback sources.health_opts
      (pos 2000)
      (source_key (operator_rpc (codes "own") (codes "u:p")))
      tripped
    ≡ true
unfolding should_fallback inspect text_eq
is_open = refl

fetch_from-closes_example :
    let f = fetch_from sources 2000 (operator_rpc (codes "own") (codes "u:p")) platform tripped in
    (f.answer ≡ some (raw, true))
    × (should_fallback sources.health_opts
          (pos 2001)
          (source_key (operator_rpc (codes "own") (codes "u:p")))
          f.health
        ≡ false)
fetch_from-closes_example =
    fetch_from-closes sources 2000 2001 (codes "own") (codes "u:p") platform raw tripped is_open
      refl
