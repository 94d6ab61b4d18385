-- ===== src/Stratum/Messages.antt =====
-- apps/stratum/src/models/stratum-messages: the requests of a miner, as class-transformer and
-- class-validator read them, and what is sent to it. A JSON value that is no text and no number is `other`.
-- A transform that is applied to a value of another shape throws a TypeError.
use hashden.Common.{
  ℕ, zero, suc, Bool, true, false, ◌&&◌, ◌||◌, List, [], ◌∷◌, Option, none, some, if◌then◌else◌,
  leb, ◌==◌, length, is_some, all,
}
use hashden.Common.Text.{Text, codes}
use hashden.Shared.Pattern.{split}
use hashden.Stratum.MiningJob.{index_of}
use hashden.Stratum.Jobs.{JobTemplate}

pub data Json (N : Type 0) : Type 0 where
  null : Json N
  text : Text → Json N
  number : N → Json N
  other : Json N

-- `params`, of which `none` stands for undefined. `items` are the values at its indices, also where it is
-- no array but a text.
pub record Params (N : Type 0) : Type 0 where
  pub is_array : Bool
  pub items : List (Json N)

-- eRequestMethod
pub data RequestMethod : Type 0 where
  subscribe configure authorize suggest_difficulty submit unknown : RequestMethod

pub record Request (N : Type 0) : Type 0 where
  pub id : Option (Json N)
  pub method : RequestMethod
  pub params : Option (Params N)

-- What plainToInstance and validate make of a request.
pub data Checked (A : Type 0) : Type 0 where
  threw invalid : Checked A
  valid : A → Checked A

abbrev pub valid_if : {A : Type 0} → Bool → A → Checked A
valid_if b a = if b then valid a else invalid

pub record Authorization : Type 0 where
  pub address : Text
  pub worker : Text

pub record MiningSubmit : Type 0 where
  pub job_id : Text
  pub extra_nonce2 : Text
  pub ntime : Text
  pub nonce : Text
  pub version_mask : Text

-- eStratumErrorCode
pub data StratumErrorCode : Type 0 where
  other_unknown job_not_found duplicate_share low_difficulty_share unauthorized_worker
        not_subscribed :
      StratumErrorCode

-- What is written to the socket; `failed` is a StratumErrorMessage without the values that failed.
pub data Sent (N : Type 0) : Type 0 where
  subscribed : Option (Json N) → Text → ℕ → Sent N
  configured authorized accepted : Option (Json N) → Sent N
  failed : Option (Json N) → StratumErrorCode → Text → Sent N
  set_difficulty : N → Sent N
  notify : Text → Text → Text → JobTemplate N → Sent N

-- `s.split(c)[0]`
unfoldable pub before : ℕ → Text → Text
before d [] = []
before d (c ∷ s) = if c == d then [] else c ∷ before d s

-- `split(d)[1]`
abbrev pub second : List Text → Option Text
second (a ∷ b ∷ parts) = some b
second _ = none

-- `s.includes(p)`
abbrev pub includes : Text → Text → Bool
includes p s = is_some (index_of p s)

unfoldable pub refine_user_agent : Text → Text
refine_user_agent s =
    let agent = before b'-' (before b'V' (before b'/' (before b' ' s))) in
    if includes (codes "bosminer") agent || includes (codes "bOS") agent
    then codes "Braiins OS"
    else if includes (codes "cpuminer") agent
    then codes "cpuminer"
    else agent

-- `@MaxLength(n)`
abbrev pub at_most : ℕ → Text → Bool
at_most n s = leb (length s) n

abbrev pub limited : Bool → Checked Text → Checked Text
limited ok threw = threw
limited ok invalid = invalid
limited ok (valid s) = valid_if (ok && at_most 128 s) s

abbrev pub worker_of : Option Text → Text
worker_of none = codes "worker"
worker_of (some w) = w

infixl 5 ◌>>=◌
abbrev ◌>>=◌ : {A B : Type 0} → Option A → (A → Option B) → Option B
none >>= f = none
some a >>= f = f a

abbrev pub submit_if : Bool → Option MiningSubmit → Checked MiningSubmit
submit_if ok none = invalid
submit_if ok (some m) = valid_if ok m

module _ {N : Type 0} where
  -- `@IsDefined()`: neither undefined nor null.
  abbrev pub is_defined : Option (Json N) → Bool
  is_defined none = false
  is_defined (some null) = false
  is_defined (some _) = true

  abbrev pub nth : List (Json N) → ℕ → Option (Json N)
  nth [] i = none
  nth (x ∷ xs) zero = some x
  nth (x ∷ xs) (suc i) = nth xs i

  abbrev pub param : Request N → ℕ → Option (Json N)
  param r i = elim r.params [ none ↦ none | some p ↦ nth p.items i ]

  -- `@IsArray()`, `@ArrayMinSize(lo)` and `@ArrayMaxSize(hi)`
  abbrev pub is_array_of : ℕ → ℕ → Option (Params N) → Bool
  is_array_of lo hi none = false
  is_array_of lo hi (some p) = p.is_array && leb lo (length p.items) && leb (length p.items) hi

  abbrev pub is_array_any : Option (Params N) → Bool
  is_array_any none = false
  is_array_any (some p) = p.is_array

  -- SubscriptionMessage: the user agent.
  abbrev pub user_agent_of : Option (Json N) → Checked Text
  user_agent_of none = valid (codes "unknown")
  user_agent_of (some null) = valid (codes "unknown")
  user_agent_of (some (text s)) = valid (refine_user_agent s)
  user_agent_of (some _) = threw

  unfoldable pub check_subscription : Request N → Checked Text
  check_subscription r =
      limited (is_defined r.id && is_array_any r.params) (user_agent_of (param r 0))

  -- ConfigurationMessage
  abbrev pub check_configuration : Request N → Checked (Unit {0})
  check_configuration r = valid_if (is_defined r.id && is_array_any r.params) tt

  -- AuthorizationMessage: `address` and `worker` as the transforms set them.
  abbrev pub read_authorization : Option (Json N) → Checked (Text × Authorization)
  read_authorization (some (text s)) =
      valid (s, record { address = before b'.' s; worker = worker_of (second (split b'.' s)) })
  read_authorization _ = threw

  -- `@IsString() @MaxLength(64) @IsOptional()`
  abbrev pub password_ok : Option (Json N) → Bool
  password_ok none = true
  password_ok (some null) = true
  password_ok (some (text s)) = at_most 64 s
  password_ok (some _) = false

  -- The validation, of an address and a worker that the den may have replaced.
  unfoldable pub authorization_ok : (Text → Bool) → Request N → Authorization → Bool
  authorization_ok is_bitcoin_address r a =
      is_defined r.id
      && is_array_of 2 2 r.params
      && is_bitcoin_address a.address
      && at_most 64 a.worker
      && password_ok (param r 1)

  -- SuggestDifficulty: `Number(params[0])`, which is none for NaN and infinity.
  abbrev pub is_number : Json N → Bool
  is_number (number n) = true
  is_number _ = false

  abbrev pub numbers_only : Option (Params N) → Bool
  numbers_only none = false
  numbers_only (some p) = all is_number p.items

  abbrev pub suggested_of : Option (Json N) → Option N
  suggested_of (some (number n)) = some n
  suggested_of _ = none

  abbrev pub suggested_if : Bool → Option N → Checked N
  suggested_if ok none = invalid
  suggested_if ok (some n) = valid_if ok n

  abbrev pub check_suggestion : Request N → Checked N
  check_suggestion r = elim r.params [
    | none ↦ threw
    | some p ↦
        suggested_if (is_defined r.id && is_array_of 1 1 r.params && numbers_only r.params)
          (suggested_of (param r 0))
  ]

  -- MiningSubmitMessage
  abbrev pub text_of : Option (Json N) → Option Text
  text_of (some (text s)) = some s
  text_of _ = none

  -- `params[5] == null ? '0' : params[5]`
  abbrev pub mask_of : Option (Json N) → Option Text
  mask_of none = some (codes "0")
  mask_of (some null) = some (codes "0")
  mask_of (some (text s)) = some s
  mask_of (some _) = none

  abbrev pub submit_of : Request N → Option MiningSubmit
  submit_of r = do
    user_id ← text_of (param r 0)
    job_id ← text_of (param r 1)
    extra_nonce2 ← text_of (param r 2)
    ntime ← text_of (param r 3)
    nonce ← text_of (param r 4)
    mask ← mask_of (param r 5)
    some (record {
      job_id = job_id;
      extra_nonce2 = extra_nonce2;
      ntime = ntime;
      nonce = nonce;
      version_mask = mask;
    })

  unfoldable pub check_submit : Request N → Checked MiningSubmit
  check_submit r = elim r.params [
    | none ↦ threw
    | some p ↦ submit_if (is_defined r.id && is_array_of 5 6 r.params) (submit_of r)
  ]
