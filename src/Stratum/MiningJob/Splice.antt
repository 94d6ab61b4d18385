-- ===== src/Stratum/MiningJob/Splice.antt =====
-- apps/stratum/src/models/MiningJob.ts: the coinbase that the pool hashes for a share is the one that the
-- miner was told to hash, as long as each share fills the extranonce exactly.
pub mod Agreement
pub mod Spoiled
use hashden.Common.{
  ℕ, ◌+◌, ◌-◌, ◌*◌, ◌≤◌, ◌≡◌, ◌≢◌, refl, sym, ap, subst, ◌∙◌, List, [], ◌∷◌, ◌++◌, Option, some, ok,
  arith, length, length-append, take, drop, take-append, drop-append, take-drop, length-take,
  length-drop, All,
}
use mathlib.Core.List.{append_assoc}
use hashden.Common.Int.{ℤ}
use hashden.Common.Text.{Text}
use hashden.Shared.Hex.{IsBytes, IsBytes-append, through_buffer, through_buffer-bytes}
use hashden.Stratum.Extranonce.{
  extranonce1_size_bytes, get_extranonce2_size_bytes, extranonce_region_hex_len,
}
use hashden.Stratum.MiningJob.{
  AddressObject, TxOut, Block, Bitcoin, MiningJob, end_of, index_of, spliced, with_script,
  commitment, assemble, new_mining_job, copy_and_update_block,
}
use hashden.Stratum.MiningJob.Built.{script_of, new_mining_job-IsBuilt}
use hashden.Stratum.MiningJob.Script.{length-bytes, IsSound, WritesBytes, new_mining_job-IsSound}

-- What a call of `copyAndUpdateBlock` is given.
pub record Share : Type 0 where
  pub template : Block
  pub branch : List Text
  pub version_mask : Option ℕ
  pub nonce : Option ℕ
  pub extra_nonce : Text
  pub extra_nonce2 : Text
  pub timestamp : Option ℕ

-- The share's extranonces are Buffers that fill the region.
abbrev pub Fills : ℕ → Share → Type 0
Fills region_hex s =
    IsBytes s.extra_nonce
    × IsBytes s.extra_nonce2
    × (length s.extra_nonce + length s.extra_nonce2 ≡ region_hex)

pub IsBytes-front : (m : ℕ) (p t : Text) → IsBytes (p ++ t) → length t ≡ m * 2 → IsBytes p
IsBytes-front m [] t h e = tt
IsBytes-front m (a ∷ []) t h e = absurd (omega (arith, length-bytes (a ∷ t) h))
IsBytes-front m (a ∷ b ∷ p) t h e = (h.0, h.1, IsBytes-front m p t h.2 e)

-- The script is a prefix and a region.
abbrev pub HasPrefix : Text → ℕ → Text → Type 0
HasPrefix p region_hex s = (t : Text) × (s ≡ p ++ t) × (length t ≡ region_hex)

take_prefix : (p t : Text) → take (length (p ++ t) - length t) (p ++ t) ≡ p
take_prefix p t = ap (λ n. take n (p ++ t)) (omega (arith, length-append p t)) ∙ take-append p t

spliced_prefix :
    (region_hex : ℕ) (p s : Text) (x : Share)
    → IsBytes p
    → HasPrefix p region_hex s
    → IsBytes x.extra_nonce
    → IsBytes x.extra_nonce2
    → spliced region_hex s x.extra_nonce x.extra_nonce2 ≡ p ++ x.extra_nonce ++ x.extra_nonce2
unfolding spliced
spliced_prefix region_hex p s x hp (t, split, len) h1 h2 =
    rw (split, sym len)
      (ap (λ front. through_buffer (front ++ x.extra_nonce ++ x.extra_nonce2)) (take_prefix p t)
        ∙ through_buffer-bytes (p ++ x.extra_nonce ++ x.extra_nonce2) (
            IsBytes-append (p ++ x.extra_nonce) x.extra_nonce2
              (IsBytes-append p x.extra_nonce hp h1) h2))

module _ {N : Type 0} (lib : Bitcoin N) where
  abbrev pub submit : Share → MiningJob → MiningJob
  submit x job =
      (copy_and_update_block lib x.template x.branch x.version_mask x.nonce x.extra_nonce
        x.extra_nonce2 x.timestamp job).0

  -- The job after some shares, of which the latest stands first.
  abbrev pub after : List Share → MiningJob → MiningJob
  after [] job = job
  after (x ∷ past) job = submit x (after past job)

  -- All but the script is as it was.
  pub after-rest :
      (shares : List Share) (job : MiningJob)
      → ((after shares job).extranonce_region_hex ≡ job.extranonce_region_hex)
        × ((after shares job).outs ≡ job.outs)
  unfolding copy_and_update_block
  after-rest [] job = (refl, refl)
  after-rest (x ∷ past) job = after-rest past job

  pub after-script :
      (x : Share) (past : List Share) (job : MiningJob)
      → (after (x ∷ past) job).input_script
        ≡ spliced job.extranonce_region_hex
            (after past job).input_script
            x.extra_nonce
            x.extra_nonce2
  unfolding copy_and_update_block
  after-script x past job =
      ap (λ n. spliced n (after past job).input_script x.extra_nonce x.extra_nonce2)
        (after-rest past job).0

  module _ (job : MiningJob) (p : Text) (bytes : IsBytes p)
      (room : HasPrefix p job.extranonce_region_hex job.input_script) where
    after-HasPrefix :
        (shares : List Share)
        → All (Fills job.extranonce_region_hex) shares
        → HasPrefix p job.extranonce_region_hex (after shares job).input_script
    after-HasPrefix [] h = room
    after-HasPrefix (x ∷ past) h = (
      x.extra_nonce ++ x.extra_nonce2,
      after-script x past job
          ∙ spliced_prefix job.extranonce_region_hex p (after past job).input_script x bytes
              (after-HasPrefix past h.1) h.0.0 h.0.1
          ∙ append_assoc p x.extra_nonce x.extra_nonce2,
      length-append x.extra_nonce x.extra_nonce2 ∙ h.0.2,
    )

    pub after-filled :
        (x : Share) (past : List Share)
        → All (Fills job.extranonce_region_hex) past
        → IsBytes x.extra_nonce
        → IsBytes x.extra_nonce2
        → (after (x ∷ past) job).input_script ≡ p ++ x.extra_nonce ++ x.extra_nonce2
    after-filled x past h h1 h2 =
        after-script x past job
        ∙ spliced_prefix job.extranonce_region_hex p (after past job).input_script x bytes
            (after-HasPrefix past h) h1 h2
