-- ===== src/Stratum/MiningJob/Tests.antt =====
-- apps/stratum/src/models/MiningJob.ts: a job at fixed inputs, and the theorems applied to it. Percentages
-- are whole numbers here, a number is written in one byte, and the transaction is the script between two
-- bytes.
use hashden.Common.{ℕ, ◌+◌, ◌*◌, ◌/◌, ◌≡◌, ◌≢◌, refl, List, [], ◌∷◌, ◌++◌, none, some, ok, arith}
use hashden.Common.Int.{pos}
use hashden.Common.Text.{Text, codes}
use hashden.Shared.Pattern.{is_hex, is_digit}
use hashden.Shared.Hex.{IsBytes, byte_of, zero_bytes}
use hashden.Stratum.Extranonce.{get_extranonce2_size_bytes, extranonce1_size_bytes}
use hashden.Stratum.MiningJob.{
  AddressObject, Block, p2wpkh, Bitcoin, MiningJob, choose_script, index_of, starts_with,
  create_coinbase_transaction, add_outputs, get_payment_script, new_mining_job, swap_endian_words,
}
use hashden.Stratum.MiningJob.Coinbase.{total_value, new_mining_job-total}
use hashden.Stratum.MiningJob.Script.{
  WritesBytes, IsSound, new_mining_job-IsSound, digit_hex, low_digit_hex,
}
use hashden.Stratum.MiningJob.Splice.{Share, after}
use hashden.Stratum.MiningJob.Splice.Agreement.{Layout}
use hashden.Stratum.MiningJob.Splice.Spoiled.{spoiled-ne}

abbrev lib : Bitcoin ℕ
lib = record {
  address_type = λ a. ok p2wpkh;
  payment = λ t a. ok (codes "0014");
  number_encode = byte_of;
  utf8 = λ s. codes "abcd";
  op_return = λ s. codes "6a";
  transaction_weight = λ s outs. 400;
  serialize = λ s outs. codes "02" ++ s ++ codes "ff";
  hash256 = λ s. codes "cc";
  floor_share = λ percent reward. pos (percent * reward / 100);
}

byte_of-IsBytes : (n : ℕ) → IsBytes (byte_of n)
byte_of-IsBytes n = (digit_hex n, low_digit_hex n, tt)

identifier-IsBytes : IsBytes (codes "abcd")
unfolding is_hex is_digit
identifier-IsBytes = (refl, refl, (refl, refl, tt))

writes : WritesBytes lib
writes = record { number_bytes = byte_of-IsBytes; utf8_bytes = λ s. identifier-IsBytes }

abbrev layout : Layout lib
layout = record {
  before = λ n. codes "02";
  behind = λ outs. codes "ff";
  serialize_eq = λ s outs. refl;
}

abbrev payout : List (AddressObject ℕ)
payout =
    record { address = codes "a"; percent = 33 } ∷ record { address = codes "b"; percent = 66 } ∷ []

abbrev block : Block
block = record {
  version = 0;
  prev_hash = [];
  merkle_root = [];
  timestamp = none;
  bits = 0;
  nonce = none;
  witness_commit = [];
  weight = 1000;
}

-- The setting 1 makes an extranonce of five bytes.
abbrev job : MiningJob
job = record {
  job_id = codes "1";
  job_template_id = codes "1";
  creation = 0;
  input_script = codes "0163abcd00000000000000";
  outs =
      record { script = codes "0014"; value = pos 34 }
      ∷ record { script = codes "0014"; value = pos 66 }
      ∷ record { script = codes "6a"; value = pos 0 }
      ∷ [];
  coinbase_part1 = codes "020163abcd0000";
  coinbase_part2 = codes "ff";
  extranonce_region_hex = 10;
}

built :
    new_mining_job lib
      (get_extranonce2_size_bytes (some (pos 1)))
      []
      0
      (codes "1")
      payout
      (codes "1")
      100
      99
      block
    ≡ ok job
unfolding new_mining_job create_coinbase_transaction add_outputs get_payment_script choose_script
    index_of starts_with zero_bytes get_extranonce2_size_bytes
built = refl

new_mining_job-total_example : total_value job.outs ≡ pos 100
new_mining_job-total_example =
    new_mining_job-total lib (get_extranonce2_size_bytes (some (pos 1))) [] 0 (codes "1") payout
      (codes "1") 100 99 block job built

new_mining_job-IsSound_example :
    IsSound (extranonce1_size_bytes + get_extranonce2_size_bytes (some (pos 1))) job.input_script
new_mining_job-IsSound_example =
    new_mining_job-IsSound lib writes (some (pos 1)) [] 0 (codes "1") payout (codes "1") 100 99
      block job built

abbrev share : Text → Text → Share
share e1 e2 = record {
  template = block;
  branch = [];
  version_mask = some 0;
  nonce = some 7;
  extra_nonce = e1;
  extra_nonce2 = e2;
  timestamp = some 9;
}

abbrev good : Share
good = share (codes "01020304") (codes "05")

abbrev long : Share
long = share (codes "01020304") (codes "0506")

good-IsBytes : IsBytes (codes "01020304") × IsBytes (codes "05")
unfolding is_hex is_digit
good-IsBytes = ((refl, refl, (refl, refl, (refl, refl, (refl, refl, tt)))), (refl, refl, tt))

long-IsBytes : IsBytes (codes "0506")
unfolding is_hex is_digit
long-IsBytes = (refl, refl, (refl, refl, tt))

front-IsBytes : IsBytes (codes "0163abcd0000")
unfolding is_hex is_digit
front-IsBytes =
    (refl, refl, (refl, refl, (refl, refl, (refl, refl, (refl, refl, (refl, refl, tt))))))

spoiled-ne_example :
    (after lib (good ∷ []) (after lib (long ∷ []) job)).input_script
    ≢ codes "0163abcd0000" ++ codes "01020304" ++ codes "05"
spoiled-ne_example =
    spoiled-ne lib 5 job (codes "0163abcd0000") long good [] [] refl front-IsBytes (omega arith)
      (codes "0000000000", refl, refl) tt good-IsBytes.0 long-IsBytes (omega arith) tt
      (good-IsBytes.0, good-IsBytes.1, refl)

swapped : swap_endian_words (codes "0011223344556677") ≡ codes "3322110077665544"
unfolding swap_endian_words
swapped = refl
