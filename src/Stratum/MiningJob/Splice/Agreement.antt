-- ===== src/Stratum/MiningJob/Splice/Agreement.antt =====
-- apps/stratum/src/models/MiningJob.ts: the coinbase text of the miner and that of the pool.
use hashden.Common.{
  ℕ, ◌+◌, ◌-◌, ◌*◌, ◌≤◌, ◌≡◌, sym, ap, subst, ◌∙◌, List, [], ◌∷◌, ◌++◌, Option, some, ok, arith,
  length, length-append, take, drop, take-append, drop-append, take-drop, length-take, length-drop,
}
use mathlib.Core.List.{append_assoc}
use hashden.Common.Int.{ℤ}
use hashden.Common.Text.{Text}
use hashden.Shared.Hex.{IsBytes}
use hashden.Stratum.Extranonce.{get_extranonce2_size_bytes, extranonce_region_hex_len}
use hashden.Stratum.MiningJob.{
  AddressObject, TxOut, Block, Bitcoin, MiningJob, index_of, commitment, assemble, new_mining_job,
}
use hashden.Stratum.MiningJob.Built.{script_of, new_mining_job-IsBuilt}
use hashden.Stratum.MiningJob.Script.{IsSound, WritesBytes, new_mining_job-IsSound}
use hashden.Stratum.MiningJob.Splice.{Share, HasPrefix, IsBytes-front}

-- The serialization has the script once, between parts that depend on its length and on the outputs.
pub record Layout {N : Type 0} (lib : Bitcoin N) : Type 0 where
  pub before : ℕ → Text
  pub behind : List TxOut → Text
  pub serialize_eq :
      (s : Text) (outs : List TxOut) → lib.serialize s outs ≡ before (length s) ++ s ++ behind outs

take_of_split : (n : ℕ) (l xs ys : Text) → l ≡ xs ++ ys → n ≡ length xs → take n l ≡ xs
take_of_split n l xs ys split e = rw (split, e) (take-append xs ys)

drop_of_split : (n : ℕ) (l xs ys : Text) → l ≡ xs ++ ys → n ≡ length xs → drop n l ≡ ys
drop_of_split n l xs ys split e = rw (split, e) (drop-append xs ys)

module _ {N : Type 0} (lib : Bitcoin N) (layout : Layout lib) where
  -- The part of a script that a miner does not choose.
  abbrev pub front : ℕ → Text → Text
  front region_hex s = take (length s - region_hex) s

  front_behind :
      (b s rest : Text) (k : ℕ) → b ++ s ++ rest ≡ b ++ front k s ++ (drop (length s - k) s ++ rest)
  front_behind b s rest k =
      ap (λ t. b ++ t ++ rest) (sym (take-drop (length s - k) s))
      ∙ ap (λ t. t ++ rest) (sym (append_assoc b (front k s) (drop (length s - k) s)))
      ∙ append_assoc (b ++ front k s) (drop (length s - k) s) rest

  length-front : (b s : Text) (k : ℕ) → length (b ++ front k s) ≡ length b + (length s - k)
  length-front b s k =
      omega (arith, length-append b (front k s), length-take (length s - k) s (omega arith))

  -- The two parts of the coinbase text.
  assemble-parts :
      (job_id template_id : Text) (now region_hex : ℕ) (s : Text) (outs : List TxOut)
      → region_hex ≤ length s
      → index_of s (lib.serialize s outs) ≡ some (length (layout.before (length s)))
      → let job = assemble lib job_id template_id now region_hex s outs in
        (job.coinbase_part1 ≡ layout.before (length s) ++ front region_hex s)
        × (job.coinbase_part2 ≡ layout.behind outs)
  assemble-parts job_id template_id now region_hex s outs le found =
      let b = layout.before (length s) in
      let rest = layout.behind outs in
      rw found (
        take_of_split (length b + length s - region_hex) (lib.serialize s outs)
            (b ++ front region_hex s) (drop (length s - region_hex) s ++ rest)
            (layout.serialize_eq s outs ∙ front_behind b s rest region_hex)
            (omega (arith, length-front b s region_hex)),
        drop_of_split (length b + length s) (lib.serialize s outs) (b ++ s) rest
            (layout.serialize_eq s outs) (omega (arith, length-append b s)),
      )

  -- The coinbase that the miner was told to hash, with its extranonces filled in.
  abbrev pub told : MiningJob → Share → Text
  told job x = job.coinbase_part1 ++ x.extra_nonce ++ x.extra_nonce2 ++ job.coinbase_part2

  module _ (writes : WritesBytes lib) (raw : Option ℤ) (identifier : Text) (now : ℕ) (job_id : Text)
      (payout : List (AddressObject N)) (template_id : Text) (reward block_height : ℕ)
      (block : Block) (job : MiningJob)
      (built : new_mining_job lib
          (get_extranonce2_size_bytes raw)
          identifier
          now
          job_id
          payout
          template_id
          reward
          block_height
          block
        ≡ ok job)
      (found : index_of job.input_script (lib.serialize job.input_script job.outs)
        ≡ some (length (layout.before (length job.input_script)))) where
    abbrev HasParts : MiningJob → Type 0
    HasParts j =
        j.extranonce_region_hex ≤ length j.input_script
        → index_of j.input_script (lib.serialize j.input_script j.outs)
          ≡ some (length (layout.before (length j.input_script)))
        → (j.coinbase_part1
            ≡ layout.before (length j.input_script) ++ front j.extranonce_region_hex j.input_script)
          × (j.coinbase_part2 ≡ layout.behind j.outs)

    job-parts :
        HasParts job × (job.extranonce_region_hex ≡ (4 + get_extranonce2_size_bytes raw) * 2)
    job-parts =
        let (paid, pad, created, padded, eq) =
          new_mining_job-IsBuilt lib (get_extranonce2_size_bytes raw) identifier now job_id payout
            template_id reward block_height block job built in
        let outs = paid ++ commitment lib block ∷ [] in
        (
          subst HasParts (sym eq) (λ le first.
              assemble-parts job_id template_id now
                (extranonce_region_hex_len (get_extranonce2_size_bytes raw))
                (script_of lib identifier block_height block pad outs) outs le first),
          ap (λ j. j.extranonce_region_hex) eq,
        )

    job-IsSound : IsSound (4 + get_extranonce2_size_bytes raw) job.input_script
    job-IsSound =
        new_mining_job-IsSound lib writes raw identifier now job_id payout template_id reward
          block_height block job built

    enough_room : job.extranonce_region_hex ≤ length job.input_script
    enough_room = omega (arith, job-parts.1, job-IsSound.2)

    pub job-HasPrefix :
        HasPrefix
          (front job.extranonce_region_hex job.input_script)
          job.extranonce_region_hex
          job.input_script
    job-HasPrefix = (
      drop (length job.input_script - job.extranonce_region_hex) job.input_script,
      sym (take-drop (length job.input_script - job.extranonce_region_hex) job.input_script),
      omega (
        arith,
        enough_room,
        length-drop (length job.input_script - job.extranonce_region_hex) job.input_script,
      ),
    )

    pub front-IsBytes : IsBytes (front job.extranonce_region_hex job.input_script)
    front-IsBytes =
        IsBytes-front (4 + get_extranonce2_size_bytes raw)
          (front job.extranonce_region_hex job.input_script) job-HasPrefix.0
          (subst IsBytes job-HasPrefix.1 job-IsSound.0) (job-HasPrefix.2 ∙ job-parts.1)
