-- ===== src/Stratum/Client/Protocol.antt =====
-- apps/stratum/src/models/StratumV1Client.ts: the handshake as a protocol. A phase says what a connection
-- has done; the steps say which phases may follow, whatever the miner, the pool and the den do.
use hashden.Common.{◌≡◌, refl, Bool, true, false, List, [], ◌∷◌, is_some, arith}
use hashden.Stratum.Client.{Client}

pub record Phase : Type 0 where
  pub subscribed : Bool
  pub authorized : Bool
  pub seeded : Bool
  pub started : Bool
  pub watching : Bool

-- Whether there is a target at all.
abbrev pub is_cons {ℓ} : {A : Type ℓ} → List A → Bool
is_cons [] = false
is_cons (x ∷ xs) = true

abbrev pub phase : {N : Type 0} → Client N → Phase
phase c = record {
  subscribed = is_some c.client_subscription;
  authorized = is_some c.client_authorization;
  seeded = is_cons c.vardiff.recent_difficulties;
  started = c.stratum_initialized;
  watching = c.receives_jobs;
}

-- Only a connection that has subscribed and authorized starts, and only one that has started and has a
-- target watches the jobs.
pub data Move : Phase → Phase → Type 0 where
  subscribes : (p : Phase) → Move p (record p { subscribed = true })
  authorizes : (p : Phase) → Move p (record p { authorized = true })
  seeds : (p : Phase) → Move p (record p { seeded = true })
  starts :
      (p : Phase) → p.subscribed ≡ true → p.authorized ≡ true → Move p (record p { started = true })
  watches : (p : Phase) → p.started ≡ true → p.seeded ≡ true → Move p (record p { watching = true })
  stops : (p : Phase) → Move p (record p { watching = false })

pub data Moves : Phase → Phase → Type 0 where
  done : {p : Phase} → Moves p p
  next : {p q r : Phase} → Move p q → Moves q r → Moves p r

pub then-Moves : {p q r : Phase} → Moves p q → Moves q r → Moves p r
then-Moves done more = more
then-Moves (next x xs) more = next x (then-Moves xs more)

pub one : {p q : Phase} → Move p q → Moves p q
one x = next x done

abbrev pub IsSafe : Phase → Type 0
IsSafe p =
    (p.started ≡ true → (p.subscribed ≡ true) × p.authorized ≡ true)
    × (p.watching ≡ true → (p.started ≡ true) × p.seeded ≡ true)

Move-IsSafe : {p q : Phase} → Move p q → IsSafe p → IsSafe q
Move-IsSafe (subscribes p) safe = ((λ h. (refl, (safe.0 h).1)), safe.1)
Move-IsSafe (authorizes p) safe = ((λ h. ((safe.0 h).0, refl)), safe.1)
Move-IsSafe (seeds p) safe = (safe.0, (λ h. ((safe.1 h).0, refl)))
Move-IsSafe (starts p sub auth) safe = ((λ h. (sub, auth)), (λ h. (refl, (safe.1 h).1)))
Move-IsSafe (watches p started seeded) safe = (safe.0, (λ h. (started, seeded)))
Move-IsSafe (stops p) safe = (safe.0, (λ h. absurd (ground arith)))

pub Moves-IsSafe : {p q : Phase} → Moves p q → IsSafe p → IsSafe q
Moves-IsSafe done safe = safe
Moves-IsSafe (next x xs) safe = Moves-IsSafe xs (Move-IsSafe x safe)
