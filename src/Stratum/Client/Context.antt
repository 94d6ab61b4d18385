-- ===== src/Stratum/Client/Context.antt =====
-- apps/stratum/src/models/StratumV1Client.ts: `hashdenContext`, the den that a connection's shares are
-- recorded for, across its authorizations.
use hashden.Common.{◌≡◌, refl, ◌∙◌, Bool, true, false, ◌&&◌, some, Result, ok, inl, inr, Bool-cases}
use hashden.Common.Text.{Text}
use hashden.Groups.Router.{RouteDecision, refused, invalid_name}
use hashden.Shared.WorkerName.{WorkerNameError}
use hashden.Stratum.Messages.{Request, Sent, Authorization, valid, authorization_ok}
use hashden.Stratum.Client.{
  HashdenContext, Client, Pool, write, Flow, returned, broke, thrown, unless_lost, authorize,
  on_route, on_authorize,
}

module _ {N : Type 0} (pool : Pool N) where
  abbrev pub client_after : Flow pool → Client N
  client_after (returned c) = c
  client_after (broke c) = c
  client_after (thrown c) = c

  write-context :
      (m : Sent N) (c : Client N) → (write pool m c).0.hashden_context ≡ c.hashden_context
  unfolding write
  write-context m c = elim (Bool-cases (c.is_open && pool.takes c.sent m)) [
    | inl taken ↦ rw taken refl
    | inr lost ↦ rw lost refl
  ]

  lost-context :
      (x : Client N × Bool)
      → (client_after (unless_lost pool x)).hashden_context ≡ x.0.hashden_context
  lost-context (c, true) = refl
  lost-context (c, false) = refl

  authorize-context :
      (r : Request N) (a : Authorization) (c : Client N)
      → (client_after (authorize pool r a c)).hashden_context ≡ c.hashden_context
  authorize-context r a c = elim (Bool-cases (authorization_ok pool.is_bitcoin_address r a)) [
    | inl good ↦ rw (good, lost-context (write pool _ _)) (write-context _ _)
    | inr bad ↦ rw (bad, lost-context (write pool _ _)) (write-context _ _)
  ]

  write-authorization :
      (m : Sent N) (c : Client N) → (write pool m c).0.client_authorization ≡ c.client_authorization
  unfolding write
  write-authorization m c = elim (Bool-cases (c.is_open && pool.takes c.sent m)) [
    | inl taken ↦ rw taken refl
    | inr lost ↦ rw lost refl
  ]

  lost-authorization :
      (x : Client N × Bool)
      → (client_after (unless_lost pool x)).client_authorization ≡ x.0.client_authorization
  lost-authorization (c, true) = refl
  lost-authorization (c, false) = refl

  authorize-authorization :
      (r : Request N) (a : Authorization) (c : Client N)
      → authorization_ok pool.is_bitcoin_address r a ≡ true
      → (client_after (authorize pool r a c)).client_authorization ≡ some a
  authorize-authorization r a c good =
      rw (good, lost-authorization (write pool _ _)) (write-authorization _ _)

  on_route-context :
      (r : Request N) (a : Authorization) (d : Result Text RouteDecision) (why : WorkerNameError)
      (c : Client N)
      → d ≡ ok (refused (invalid_name why))
      → authorization_ok pool.is_bitcoin_address r a ≡ true
      → ((client_after (on_route pool r a d c)).client_authorization ≡ some a)
        × (client_after (on_route pool r a d c)).hashden_context ≡ c.hashden_context
  on_route-context r a d why c plain good =
      rw plain (authorize-authorization r a c good, authorize-context r a c)

  -- A connection that belongs to a den and then authorizes, with success, under a name that is none of
  -- a den is authorized under the new address, but its den stays what it was.
  pub reauthorized-context :
      (r : Request N) (name : Text) (a : Authorization) (why : WorkerNameError)
      (context : HashdenContext) (c : Client N)
      → c.hashden_context ≡ some context
      → pool.route name ≡ ok (refused (invalid_name why))
      → authorization_ok pool.is_bitcoin_address r a ≡ true
      → let c' = client_after (on_authorize pool r (valid (name, a)) c) in
        (c'.client_authorization ≡ some a) × c'.hashden_context ≡ some context
  reauthorized-context r name a why context c member plain good =
      let after = on_route-context r a (pool.route name) why c plain good in
      (after.0, after.1 ∙ member)
