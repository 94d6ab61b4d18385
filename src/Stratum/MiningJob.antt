-- ===== src/Stratum/MiningJob.antt =====
-- apps/stratum/src/models/MiningJob.ts: the job that a miner works on. Scripts, hashes and transactions are
-- the hex texts of their bytes. What bitcoinjs-lib does (addresses, scripts of numbers, serialization,
-- hashes, weights) and the float arithmetic of percentages are parameters. The coinbase transaction is a
-- shared object: each submission overwrites its input script.
pub mod Built
pub mod Coinbase
pub mod Script
pub mod Splice
mod Tests
use hashden.Common.{
  ℕ, zero, suc, ◌+◌, ◌-◌, ◌*◌, ◌%◌, ◌^◌, Bool, true, false, ◌&&◌, List, [], ◌∷◌, ◌++◌, Option, none,
  some, if◌then◌else◌, ltb, ◌==◌, length, take, drop, Result, err, ok, ◌>>=◌,
}
use Prim.Native.Nat.{bit_xor}
use hashden.Common.Int.{ℤ, pos, ◌+ℤ◌, ◌-ℤ◌}
use hashden.Common.Text.{Text, codes, text_eq}
use hashden.Shared.Hex.{through_buffer, zero_bytes, byte_length, byte_of}
use hashden.Stratum.Extranonce.{extranonce1_size_bytes, extranonce_region_hex_len}

-- MAX_BLOCK_WEIGHT
abbrev pub max_block_weight : ℕ
max_block_weight = 4000000

-- MAX_SCRIPT_SIZE
abbrev pub max_script_size : ℕ
max_script_size = 100

pub record AddressObject (N : Type 0) : Type 0 where
  pub address : Text
  pub percent : N

pub record TxOut : Type 0 where
  pub script : Text
  pub value : ℤ

-- The part of a bitcoinjs Block that is read or written. `version` and `bits` are 32-bit patterns.
pub record Block : Type 0 where
  pub version : ℕ
  pub prev_hash : Text
  pub merkle_root : Text
  pub timestamp : Option ℕ
  pub bits : ℕ
  pub nonce : Option ℕ
  pub witness_commit : Text
  pub weight : ℕ

pub data AddressType : Type 0 where
  p2wpkh p2pkh p2sh p2tr p2wsh unknown : AddressType

-- What bitcoinjs-lib and bitcoin-address-validation do, and `Math.floor((percent / 100) * reward)`.
pub record Bitcoin (N : Type 0) : Type 0 where
  pub address_type : Text → Result Text AddressType
  pub payment : AddressType → Text → Result Text Text
  pub number_encode : ℕ → Text
  pub utf8 : Text → Text
  pub op_return : Text → Text
  pub transaction_weight : Text → List TxOut → ℕ
  pub serialize : Text → List TxOut → Text
  pub hash256 : Text → Text
  pub floor_share : N → ℕ → ℤ

pub record MiningJob : Type 0 where
  pub job_id : Text
  pub job_template_id : Text
  pub creation : ℕ
  pub input_script : Text
  pub outs : List TxOut
  pub coinbase_part1 : Text
  pub coinbase_part2 : Text
  pub extranonce_region_hex : ℕ

-- `indexOf`
unfoldable pub starts_with : Text → Text → Bool
starts_with [] s = true
starts_with (c ∷ p) [] = false
starts_with (c ∷ p) (d ∷ s) = (c == d) && starts_with p s

abbrev pub further : Option ℕ → Option ℕ
further none = none
further (some n) = some (suc n)

unfoldable pub index_of : Text → Text → Option ℕ
unfolding starts_with
index_of p [] = if starts_with p [] then some 0 else none
index_of p (c ∷ s) =
    let rest = further (index_of p s) in if starts_with p (c ∷ s) then some 0 else rest

-- `indexOf(script) + script.length`, where an absent text has index -1.
abbrev pub end_of : Text → Option ℕ → ℕ
end_of script none = length script - 1
end_of script (some i) = i + length script

-- `Buffer.alloc(extranonceRegionBytes + (3 - blockHeightEncoded.length), 0)`
abbrev pub padding : ℕ → ℕ → Result Text Text
padding region height_bytes =
    if ltb (region + 3) height_bytes
    then err (codes "ERR_OUT_OF_RANGE")
    else ok (zero_bytes (region + 3 - height_bytes))

abbrev pub height_push : Text → Text
height_push height = byte_of (byte_length height) ++ height

-- The script, without the pool identifier if it would be too long.
unfoldable pub choose_script : Text → Text → Text → Text
choose_script height extra pad =
    let script = height_push height ++ extra ++ pad in
    if ltb max_script_size (byte_length script) then height_push height ++ pad else script

-- The four bytes of a word, in hex digits, in the other order.
unfoldable pub swap_endian_words : Text → Text
swap_endian_words (a ∷ b ∷ c ∷ d ∷ e ∷ f ∷ g ∷ h ∷ s) =
    g ∷ h ∷ e ∷ f ∷ c ∷ d ∷ a ∷ b ∷ swap_endian_words s
swap_endian_words _ = []

-- `versionMask !== undefined && versionMask != 0`: NaN passes, and is 0 for `^`.
abbrev pub masked_version : Option ℕ → ℕ → ℕ
masked_version none version = version % 2 ^ 32
masked_version (some mask) version =
    if mask == 0 then version else bit_xor (version % 2 ^ 32) (mask % 2 ^ 32)

-- `Buffer.from(nonceScript.substring(0, ...) + extraNonce + extraNonce2, 'hex')`
unfoldable pub spliced : ℕ → Text → Text → Text → Text
spliced region_hex nonce_script extra_nonce extra_nonce2 =
    through_buffer
      (take (length nonce_script - region_hex) nonce_script ++ extra_nonce ++ extra_nonce2)

abbrev pub with_script : Text → MiningJob → MiningJob
with_script script job = record {
  job_id = job.job_id;
  job_template_id = job.job_template_id;
  creation = job.creation;
  input_script = script;
  outs = job.outs;
  coinbase_part1 = job.coinbase_part1;
  coinbase_part2 = job.coinbase_part2;
  extranonce_region_hex = job.extranonce_region_hex;
}

module _ {N : Type 0} (lib : Bitcoin N) where
  -- `getPaymentScript`
  abbrev pub script_of_type : Text → AddressType → Result Text Text
  script_of_type address unknown = ok []
  script_of_type address p2wpkh = lib.payment p2wpkh address
  script_of_type address p2pkh = lib.payment p2pkh address
  script_of_type address p2sh = lib.payment p2sh address
  script_of_type address p2tr = lib.payment p2tr address
  script_of_type address p2wsh = lib.payment p2wsh address

  unfoldable pub get_payment_script : Text → Result Text Text
  get_payment_script address = lib.address_type address >>= script_of_type address

  -- The loop over the recipients: what is left of the reward, and the outputs. What `addOutput` checks of
  -- a value is left out.
  unfoldable pub add_outputs :
      List (AddressObject N) → ℕ → ℤ → List TxOut → Result Text (ℤ × List TxOut)
  add_outputs [] reward balance outs = ok (balance, outs)
  add_outputs (r ∷ rs) reward balance outs =
      let amount = lib.floor_share r.percent reward in
      get_payment_script r.address >>= λ script.
      add_outputs rs reward (balance -ℤ amount)
        (outs ++ record { script = script; value = amount } ∷ [])

  -- `coinbaseTransaction.outs[0].value += rewardBalance`
  abbrev pub add_remainder : ℤ × List TxOut → Result Text (List TxOut)
  add_remainder (balance, []) = err (codes "TypeError")
  add_remainder (balance, o ∷ outs) =
      ok (record { script = o.script; value = o.value +ℤ balance } ∷ outs)

  unfoldable pub create_coinbase_transaction : List (AddressObject N) → ℕ → Result Text (List TxOut)
  create_coinbase_transaction addresses reward =
      add_outputs addresses reward (pos reward) [] >>= add_remainder

  abbrev pub commitment : Block → TxOut
  commitment block = record {
    script = lib.op_return (codes "aa21a9ed" ++ block.witness_commit);
    value = pos 0;
  }

  -- The script once more, after the weight of the block is known.
  abbrev pub weighed_script : Block → Text → Text → Text → List TxOut → Text
  weighed_script block height pad script outs =
      if ltb max_block_weight (lib.transaction_weight script outs + block.weight)
      then height_push height ++ pad
      else script

  abbrev pub assemble : Text → Text → ℕ → ℕ → Text → List TxOut → MiningJob
  assemble job_id template_id now region_hex script outs =
      let serialized = lib.serialize script outs in
      let part_one_index = end_of script (index_of script serialized) in
      record {
        job_id = job_id;
        job_template_id = template_id;
        creation = now;
        input_script = script;
        outs = outs;
        coinbase_part1 = take (part_one_index - region_hex) serialized;
        coinbase_part2 = drop part_one_index serialized;
        extranonce_region_hex = region_hex;
      }

  -- The constructor: `size` is `getExtranonce2SizeBytes`, `identifier` the pool's, `now` the time.
  unfoldable pub new_mining_job :
      ℕ → Text → ℕ → Text → List (AddressObject N) → Text → ℕ → ℕ → Block → Result Text MiningJob
  new_mining_job size identifier now job_id payout template_id reward block_height block =
      create_coinbase_transaction payout reward >>= λ paid.
      let height = lib.number_encode block_height in
      padding (extranonce1_size_bytes + size) (byte_length height) >>= λ pad.
      let outs = paid ++ commitment block ∷ [] in
      let script = choose_script height (lib.utf8 identifier) pad in
      ok (
        assemble job_id template_id now (extranonce_region_hex_len size)
          (weighed_script block height pad script outs) outs)

  -- The root of the branch, each of whose elements has 32 bytes.
  unfoldable pub calculate_merkle_root_hash : Text → List Text → Text
  calculate_merkle_root_hash root [] = root
  calculate_merkle_root_hash root (b ∷ branches) =
      calculate_merkle_root_hash (lib.hash256 (root ++ through_buffer b)) branches

  -- The job afterwards, and the block. A number that `parseInt` cannot read is none.
  unfoldable pub copy_and_update_block :
      Block
      → List Text
      → Option ℕ
      → Option ℕ
      → Text
      → Text
      → Option ℕ
      → MiningJob
      → MiningJob × Block
  copy_and_update_block template branch version_mask nonce extra_nonce extra_nonce2 timestamp job =
      let script = spliced job.extranonce_region_hex job.input_script extra_nonce extra_nonce2 in
      (
        with_script script job,
        record {
          version = masked_version version_mask template.version;
          prev_hash = template.prev_hash;
          merkle_root =
              calculate_merkle_root_hash (lib.hash256 (lib.serialize script job.outs)) branch;
          timestamp = timestamp;
          bits = template.bits;
          nonce = nonce;
          witness_commit = template.witness_commit;
          weight = template.weight;
        },
      )
