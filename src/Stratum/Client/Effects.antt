-- ===== src/Stratum/Client/Effects.antt =====
-- apps/stratum/src/models/StratumV1Client.ts: what a connection asks of the services, and how
-- `handleMiningSubmission` reads numbers, with `le256todouble` of apps/stratum/src/utils/difficulty.utils.ts.
use hashden.Common.{
  ℕ, ◌+◌, ◌*◌, Bool, ◌&&◌, ◌||◌, [], ◌∷◌, Option, none, some, if◌then◌else◌, Result,
}
use hashden.Common.Text.{Text, codes, text_eq}
use hashden.Shared.Hex.{hex_value, is_hex_digit, lower_digit, hex_from}
use hashden.Stratum.Statistics.{Write}
use hashden.Stratum.MiningJob.{Block, Bitcoin}
use hashden.Stratum.Messages.{Authorization}
use hashden.Stratum.Client.{HashdenContext}

-- The calls of a message, of a job and of the timer, in order. What they answer is in `Pool`, in `Chain` and
-- in `Desk`. A setting of the configuration and the store of jobs are no part of it.
pub data Effect (N : Type 0) : Type 0 where
  den_routed : Text → Effect N
  template_asked : Text → Effect N
  payouts_asked : Text → ℕ → Text → Effect N
  client_inserted : Text → Authorization → Effect N
  block_submitted : Block → Effect N
  block_saved : ℕ → Authorization → Text → Effect N
  block_notified : Text → ℕ → Effect N
  best_reset : Effect N
  statistics_written : Write N → Effect N
  heartbeat : Text → Text → Text → N → ℕ → Effect N
  share_recorded : HashdenContext → N → Effect N
  best_updated address_best_updated : Text → N → Effect N
  settings_read : Text → Effect N
  share_forwarded : Authorization → Text → Effect N

-- What the handler asks of the chain and of its services. `minimum_difficulty` is none where shares are
-- not forwarded; `ratio` is `truediffone.div(n).toNumber()`.
pub record Chain (N : Type 0) : Type 0 where
  pub lib : Bitcoin N
  pub header : Block → Result Text Text
  pub ratio : ℕ → N
  pub is_accepted : Block → Bool
  pub inserts_client : Bool
  pub no_difficulty : N
  pub address_best : Text → N
  pub minimum_difficulty : Option N

-- `parseInt(s, 16)` of a text with no blank and no sign at its front; none is NaN.
unfoldable pub hex_prefix : Text → Text
hex_prefix [] = []
hex_prefix (c ∷ s) = if is_hex_digit c then lower_digit c ∷ hex_prefix s else []

abbrev pub number_of : Text → Option ℕ
number_of [] = none
number_of (c ∷ s) = some (hex_from 0 (c ∷ s))

abbrev pub is_x : ℕ → Bool
is_x c = text_eq (c ∷ []) (codes "x") || text_eq (c ∷ []) (codes "X")

abbrev pub without_0x : Text → Text
without_0x (a ∷ b ∷ s) = if text_eq (a ∷ []) (codes "0") && is_x b then s else a ∷ b ∷ s
without_0x s = s

abbrev pub parse_int16 : Text → Option ℕ
parse_int16 s = number_of (hex_prefix (without_0x s))

-- `le256todouble`: the bytes, the least significant first.
unfoldable pub le256todouble : Text → ℕ
le256todouble (a ∷ b ∷ s) = hex_value a * 16 + hex_value b + 256 * le256todouble s
le256todouble _ = 0
