-- ===== src/Stratum/MiningJob/Built.antt =====
-- apps/stratum/src/models/MiningJob.ts: the parts of a job that the constructor has built.
use hashden.Common.{ℕ, ◌+◌, ◌≡◌, List, [], ◌∷◌, ◌++◌, Result, ok, >>=-eq-ok}
use hashden.Common.Text.{Text}
use hashden.Shared.Hex.{byte_length}
use hashden.Stratum.Extranonce.{extranonce1_size_bytes, extranonce_region_hex_len}
use hashden.Stratum.MiningJob.{
  AddressObject, TxOut, Block, Bitcoin, MiningJob, padding, choose_script,
  create_coinbase_transaction, commitment, weighed_script, assemble, new_mining_job,
}

module _ {N : Type 0} (lib : Bitcoin N) where
  -- The script of the job, from its outputs and its padding.
  abbrev pub script_of : Text → ℕ → Block → Text → List TxOut → Text
  script_of identifier block_height block pad outs =
      let height = lib.number_encode block_height in
      weighed_script lib block height pad (choose_script height (lib.utf8 identifier) pad) outs

  abbrev pub IsBuilt :
      ℕ → Text → ℕ → Text → List (AddressObject N) → Text → ℕ → ℕ → Block → MiningJob → Type 0
  IsBuilt size identifier now job_id payout template_id reward block_height block job =
      (paid : List TxOut) × (pad : Text) × (create_coinbase_transaction lib payout reward ≡ ok paid)
      × (padding (extranonce1_size_bytes + size) (byte_length (lib.number_encode block_height))
          ≡ ok pad)
      × (job
          ≡ assemble lib job_id template_id now (extranonce_region_hex_len size)
              (script_of identifier block_height block pad (paid ++ commitment lib block ∷ []))
              (paid ++ commitment lib block ∷ []))

  pub new_mining_job-IsBuilt :
      (size : ℕ) (identifier : Text) (now : ℕ) (job_id : Text) (payout : List (AddressObject N))
      (template_id : Text) (reward block_height : ℕ) (block : Block) (job : MiningJob)
      → new_mining_job lib size identifier now job_id payout template_id reward block_height block
        ≡ ok job
      → IsBuilt size identifier now job_id payout template_id reward block_height block job
  unfolding new_mining_job
  new_mining_job-IsBuilt size identifier now job_id payout template_id reward block_height block job
        h =
      let (paid, created, rest) = >>=-eq-ok (create_coinbase_transaction lib payout reward) _ h in
      let (pad, padded, done) =
        >>=-eq-ok
          (padding (extranonce1_size_bytes + size) (byte_length (lib.number_encode block_height))) _
          rest in
      (paid, pad, created, padded, built _ job done)
    where
      built : (a b : MiningJob) → ◌≡◌ {A = Result Text MiningJob} (ok a) (ok b) → b ≡ a
      built a b e = cc
