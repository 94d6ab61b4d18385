-- ===== src/Payouts/Types.antt =====
-- packages/db/prisma/schema.prisma, the rows of `Block` and `PayoutAttempt` as far as the payouts
-- worker (apps/payouts/src) reads and writes them, and apps/payouts/src/ln-client.ts, the interface of
-- a wallet. An id is the key of a row, not a part of it.
use hashden.Common.{Bool, true, false, List, [], ◌∷◌, Option, none, some, Result}
use hashden.Common.Int.{ℤ}
use hashden.Common.Text.{Text}

pub data BlockStatus : Type 0 where
  found : BlockStatus
  orphaned : BlockStatus
  matured : BlockStatus
  dust_fanned_out : BlockStatus

abbrev pub is_found : BlockStatus → Bool
is_found found = true
is_found _ = false

abbrev pub is_matured : BlockStatus → Bool
is_matured matured = true
is_matured _ = false

abbrev pub is_dust_fanned_out : BlockStatus → Bool
is_dust_fanned_out dust_fanned_out = true
is_dust_fanned_out _ = false

pub record Block : Type 0 where
  pub group_id : Text
  pub hash : Text
  pub status : BlockStatus

pub data PayoutKind : Type 0 where
  on_chain_coinbase : PayoutKind
  ln_dust : PayoutKind

abbrev pub is_ln_dust : PayoutKind → Bool
is_ln_dust ln_dust = true
is_ln_dust on_chain_coinbase = false

pub data PayoutStatus : Type 0 where
  pending : PayoutStatus
  in_flight : PayoutStatus
  paid : PayoutStatus
  failed : PayoutStatus

abbrev pub is_pending : PayoutStatus → Bool
is_pending pending = true
is_pending _ = false

abbrev pub is_in_flight : PayoutStatus → Bool
is_in_flight in_flight = true
is_in_flight _ = false

abbrev pub is_paid : PayoutStatus → Bool
is_paid paid = true
is_paid _ = false

abbrev pub is_failed : PayoutStatus → Bool
is_failed failed = true
is_failed _ = false

pub record Attempt : Type 0 where
  pub block_id : Text
  pub member_pubkey : Text
  pub amount_sats : ℤ
  pub kind : PayoutKind
  pub status : PayoutStatus
  pub ln_payment_hash : Option Text
  pub zap_event_id : Option Text

-- `data: { status }` of an update.
abbrev pub with_status : PayoutStatus → Attempt → Attempt
with_status s a = record {
  block_id = a.block_id;
  member_pubkey = a.member_pubkey;
  amount_sats = a.amount_sats;
  kind = a.kind;
  status = s;
  ln_payment_hash = a.ln_payment_hash;
  zap_event_id = a.zap_event_id;
}

-- A string field that is read as a condition: null and the empty string count as missing.
abbrev pub usable : Option Text → Option Text
usable none = none
usable (some []) = none
usable (some (c ∷ s)) = some (c ∷ s)

-- What `getPaymentStatus` answers: `paid` and `pending`.
pub record PaymentStatus : Type 0 where
  pub settled : Bool
  pub waiting : Bool

-- A call of `payLightningAddress`, made for an attempt.
pub record Payment : Type 0 where
  pub attempt : Text
  pub address : Text
  pub sats : ℤ

-- The errors that the worker tells apart: `LnbitsError`, `NwcError` and any other.
pub data PayError : Type 0 where
  lnbits : Text → Text → PayError
  nwc : Option Text → Text → PayError
  other_error : Text → PayError

-- A wallet. The answer to a payment, its hash or the error that the call throws, depends on the calls
-- before it.
pub record LnClient : Type 0 where
  pub get_payment_status : Text → Result Text PaymentStatus
  pub pay_lightning_address : List Payment → Text → ℤ → Result PayError Text
