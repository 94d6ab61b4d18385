-- ===== src/Stratum/MiningJob/Coinbase.antt =====
-- apps/stratum/src/models/MiningJob.ts: what the outputs of the coinbase transaction pay.
use hashden.Common.{ℕ, ◌≡◌, sym, ap, ◌∙◌, List, [], ◌∷◌, ◌++◌, ok, >>=-eq-ok, arith}
use hashden.Common.Int.{ℤ, pos, ◌+ℤ◌, ◌-ℤ◌, +ℤ-zero, +ℤ_assoc, +ℤ_comm}
use hashden.Common.Text.{Text}
use hashden.Stratum.MiningJob.{
  AddressObject, TxOut, Block, Bitcoin, MiningJob, get_payment_script, add_outputs, add_remainder,
  create_coinbase_transaction, commitment, new_mining_job,
}
use hashden.Stratum.MiningJob.Built.{new_mining_job-IsBuilt}

abbrev pub total_value : List TxOut → ℤ
total_value [] = pos 0
total_value (o ∷ outs) = o.value +ℤ total_value outs

total_value-append :
    (outs more : List TxOut) → total_value (outs ++ more) ≡ total_value outs +ℤ total_value more
total_value-append [] more = ground arith
total_value-append (o ∷ outs) more =
    rw (total_value-append outs more) (sym (+ℤ_assoc o.value (total_value outs) (total_value more)))

-- An amount that moves from the balance to the end of the outputs.
amount_moved : (b a t : ℤ) → (b -ℤ a) +ℤ (t +ℤ (a +ℤ pos 0)) ≡ b +ℤ t
amount_moved b a t = ground arith

remainder_moved : (b v t : ℤ) → (v +ℤ b) +ℤ t ≡ b +ℤ (v +ℤ t)
remainder_moved b v t = rw (+ℤ_comm v b) (+ℤ_assoc b v t)

module _ {N : Type 0} (lib : Bitcoin N) where
  pub add_outputs-total :
      (rs : List (AddressObject N)) (reward : ℕ) (balance left : ℤ) (outs paid : List TxOut)
      → add_outputs lib rs reward balance outs ≡ ok (left, paid)
      → left +ℤ total_value paid ≡ balance +ℤ total_value outs
  unfolding add_outputs
  add_outputs-total [] reward balance left outs paid h = cc
  add_outputs-total (r ∷ rs) reward balance left outs paid h =
      let (script, found, rest) = >>=-eq-ok (get_payment_script lib r.address) _ h in
      let amount = lib.floor_share r.percent reward in
      let out : TxOut = record { script = script; value = amount } in
      add_outputs-total rs reward (balance -ℤ amount) left (outs ++ out ∷ []) paid rest
      ∙ ap (λ t. (balance -ℤ amount) +ℤ t) (total_value-append outs (out ∷ []))
      ∙ amount_moved balance amount (total_value outs)

  add_remainder-total :
      (balance : ℤ) (outs paid : List TxOut)
      → add_remainder lib (balance, outs) ≡ ok paid
      → total_value paid ≡ balance +ℤ total_value outs
  add_remainder-total balance [] paid h = cc
  add_remainder-total balance (o ∷ outs) paid h =
      ground (arith, remainder_moved balance o.value (total_value outs))

  -- The outputs that a recipient list is paid with sum to the reward, whatever the floats round to.
  pub create_coinbase_transaction-total :
      (addresses : List (AddressObject N)) (reward : ℕ) (paid : List TxOut)
      → create_coinbase_transaction lib addresses reward ≡ ok paid
      → total_value paid ≡ pos reward
  unfolding create_coinbase_transaction
  create_coinbase_transaction-total addresses reward paid h =
      let ((left, outs), added, rest) =
        >>=-eq-ok (add_outputs lib addresses reward (pos reward) []) (add_remainder lib) h in
      add_remainder-total left outs paid rest
      ∙ add_outputs-total addresses reward (pos reward) left [] outs added
      ∙ +ℤ-zero (pos reward)

  -- The outputs of a job that is built sum to the reward of its template exactly.
  pub new_mining_job-total :
      (size : ℕ) (identifier : Text) (now : ℕ) (job_id : Text) (payout : List (AddressObject N))
      (template_id : Text) (reward block_height : ℕ) (block : Block) (job : MiningJob)
      → new_mining_job lib size identifier now job_id payout template_id reward block_height block
        ≡ ok job
      → total_value job.outs ≡ pos reward
  new_mining_job-total size identifier now job_id payout template_id reward block_height block job
        h =
      let (paid, pad, created, padded, built) =
        new_mining_job-IsBuilt lib size identifier now job_id payout template_id reward block_height
          block job h in
      ap (λ j. total_value j.outs) built
      ∙ total_value-append paid (commitment lib block ∷ [])
      ∙ +ℤ-zero (total_value paid)
      ∙ create_coinbase_transaction-total payout reward paid created
