-- ===== src/Stratum/Client/Handshake.antt =====
-- apps/stratum/src/models/StratumV1Client.ts: each case of the switch, and `initStratum`, takes a
-- connection along the steps of the protocol.
use hashden.Common.{
  inl, inr, ℕ, ◌≡◌, refl, ap, ◌∙◌, Bool, true, false, List, [], ◌∷◌, ◌++◌, Option, none, some,
  if◌then◌else◌, Result, err, ok, Bool-cases, is_some, arith,
}
use hashden.Common.Text.{Text}
use hashden.Groups.Router.{
  RouteDecision, routed, refused, invalid_name, group_not_found, group_deleted, not_member,
}
use hashden.Stratum.Vardiff.{Regime, set_session_difficulty}
use hashden.Stratum.Messages.{
  Request, Sent, set_difficulty, Authorization, Checked, threw, invalid, valid, authorization_ok,
  check_suggestion,
}
use hashden.Stratum.Client as conn
use hashden.Stratum.Client.{
  HashdenContext, ClientEntity, Client, Pool, end_socket, write, set_difficulty_to, Flow, returned,
  broke, thrown, unless_lost, refuse, on_subscribe, on_configure, on_route, on_authorize,
  on_suggestion, on_suggest, start_session, context_of, worker_or_default, note_suggestion,
}
use hashden.Stratum.Client.Protocol.{
  is_cons, phase, subscribes, authorizes, seeds, starts, watches, stops, Moves, done, then-Moves,
  one,
}
use hashden.Stratum.Client.Effects.{Chain}
use hashden.Stratum.Client.Submission.Credit.{KeepsHandshake, write-Kept}
use hashden.Stratum.Client.Dispatch.{
  Desk, is_cpuminer, lower_difficulty, seed_if, seed, watch_jobs, init_stratum, is_ready,
  maybe_init,
}

is_cons-append : {A : Type 0} → (xs : List A) (x : A) → is_cons (xs ++ x ∷ []) ≡ true
is_cons-append [] x = refl
is_cons-append (y ∷ ys) x = refl

module _ {N : Type 0} (pool : Pool N) (chain : Chain N) (desk : Desk N) where
  abbrev pub Follows : Client N → Client N → Type 0
  Follows c c' = Moves (phase c) (phase c')

  pub KeepsHandshake-Follows : (c c' : Client N) → KeepsHandshake pool chain c c' → Follows c c'
  KeepsHandshake-Follows c c' kept = elim (Bool-cases c'.receives_jobs) [
    | inl watching ↦ rw (kept.0, kept.1, kept.2, kept.3, watching, kept.4 watching) done
    | inr idle ↦ rw (kept.0, kept.1, kept.2, kept.3, idle) (one (stops (phase c)))
  ]

  pub write-Follows : (m : Sent N) (c : Client N) → Follows c (write pool m c).0
  write-Follows m c = KeepsHandshake-Follows c (write pool m c).0 (write-Kept pool chain m c).1

  abbrev pub client_of : Flow pool → Client N
  client_of (returned c) = c
  client_of (broke c) = c
  client_of (thrown c) = c

  client_of-unless_lost : (x : Client N × Bool) → client_of (unless_lost pool x) ≡ x.0
  client_of-unless_lost (c, true) = refl
  client_of-unless_lost (c, false) = refl

  pub sent-Follows :
      (m : Sent N) (c : Client N) → Follows c (client_of (unless_lost pool (write pool m c)))
  sent-Follows m c = rw (client_of-unless_lost (write pool m c)) (write-Follows m c)

  set_difficulty_to-seeded :
      (now : ℕ) (d : N) (c : Client N)
      → is_cons (set_difficulty_to pool now d c).vardiff.recent_difficulties ≡ true
  unfolding set_session_difficulty
  set_difficulty_to-seeded now d c = is_cons-append _ _

  pub set_difficulty_to-Follows :
      (now : ℕ) (d : N) (c : Client N) → Follows c (set_difficulty_to pool now d c)
  set_difficulty_to-Follows now d c = rw (set_difficulty_to-seeded now d c) (one (seeds (phase c)))

  pub on_subscribe-Follows :
      (now : ℕ) (r : Request N) (x : Checked Text) (c : Client N)
      → Follows c (client_of (on_subscribe pool now r x c))
  on_subscribe-Follows now r threw c = done
  on_subscribe-Follows now r invalid c = sent-Follows _ c
  on_subscribe-Follows now r (valid agent) c = elim (Bool-cases c.session_started) [
    | inl known ↦ rw known (then-Moves (one (subscribes (phase c))) (sent-Follows _ _))
    | inr new ↦ rw new (then-Moves (one (subscribes (phase c))) (sent-Follows _ _))
  ]

  pub on_configure-Follows :
      (r : Request N) (x : Checked (Unit {0})) (c : Client N)
      → Follows c (client_of (on_configure pool r x c))
  on_configure-Follows r threw c = done
  on_configure-Follows r invalid c = sent-Follows _ c
  on_configure-Follows r (valid _) c = sent-Follows _ c

  authorize-Follows :
      (r : Request N) (a : Authorization) (c : Client N)
      → Follows c (client_of (conn.authorize pool r a c))
  authorize-Follows r a c = elim (Bool-cases (authorization_ok pool.is_bitcoin_address r a)) [
    | inl good ↦ rw good (then-Moves (one (authorizes (phase c))) (sent-Follows _ _))
    | inr bad ↦ rw bad (sent-Follows _ c)
  ]

  on_route-Follows :
      (r : Request N) (a : Authorization) (d : Result Text RouteDecision) (c : Client N)
      → Follows c (client_of (on_route pool r a d c))
  on_route-Follows r a (err e) c = done
  on_route-Follows r a (ok (routed route)) c = authorize-Follows r _ _
  on_route-Follows r a (ok (refused (invalid_name e))) c = authorize-Follows r a c
  on_route-Follows r a (ok (refused group_not_found)) c = write-Follows _ c
  on_route-Follows r a (ok (refused group_deleted)) c = write-Follows _ c
  on_route-Follows r a (ok (refused not_member)) c = write-Follows _ c

  pub on_authorize-Follows :
      (r : Request N) (x : Checked (Text × Authorization)) (c : Client N)
      → Follows c (client_of (on_authorize pool r x c))
  on_authorize-Follows r threw c = done
  on_authorize-Follows r invalid c = done
  on_authorize-Follows r (valid (name, a)) c = on_route-Follows r a (pool.route name) c

  note_suggestion-Follows :
      (c : Client N) (x : Client N × Bool)
      → Follows c x.0
      → Follows c (client_of (note_suggestion pool x))
  note_suggestion-Follows c (c', true) follows = follows
  note_suggestion-Follows c (c', false) follows = follows

  on_suggestion-Follows :
      (now : ℕ) (r : Request N) (x : Checked N) (c : Client N)
      → Follows c (client_of (on_suggestion pool now r x c))
  on_suggestion-Follows now r threw c = done
  on_suggestion-Follows now r invalid c = sent-Follows _ c
  on_suggestion-Follows now r (valid d) c = note_suggestion-Follows c _ (
      then-Moves (set_difficulty_to-Follows now d (record c { suggested_difficulty = true }))
        (write-Follows _ _))

  if-Follows :
      (b : Bool) (c : Client N) (f g : Flow pool)
      → Follows c (client_of f)
      → Follows c (client_of g)
      → Follows c (client_of (if b then f else g))
  if-Follows true c f g left right = left
  if-Follows false c f g left right = right

  pub on_suggest-Follows :
      (now : ℕ) (r : Request N) (c : Client N) → Follows c (client_of (on_suggest pool now r c))
  on_suggest-Follows now r c =
      if-Follows c.used_suggested_difficulty c (returned c)
        (on_suggestion pool now r (check_suggestion r) c) done
        (on_suggestion-Follows now r (check_suggestion r) c)

  lower_difficulty-Follows :
      (b : Bool) (now : ℕ) (d : N) (c : Client N)
      → Follows c (if b then set_difficulty_to pool now d c else c)
  lower_difficulty-Follows true now d c = set_difficulty_to-Follows now d c
  lower_difficulty-Follows false now d c = done

  -- What `initStratum` has set when it announces the target.
  abbrev IsSeeded : Client N → Type 0
  IsSeeded c = (c.stratum_initialized ≡ true) × is_cons c.vardiff.recent_difficulties ≡ true

  seed_if-IsSeeded :
      (rs : List (Regime N)) (now : ℕ) (c : Client N)
      → c.vardiff.recent_difficulties ≡ rs
      → is_cons (seed_if pool chain desk rs now c).vardiff.recent_difficulties ≡ true
  seed_if-IsSeeded [] now c is = set_difficulty_to-seeded now _ c
  seed_if-IsSeeded (r ∷ rs) now c is = ap is_cons is

  seed_if-Follows :
      (rs : List (Regime N)) (now : ℕ) (c : Client N) → Follows c (seed_if pool chain desk rs now c)
  seed_if-Follows [] now c = set_difficulty_to-Follows now _ c
  seed_if-Follows (r ∷ rs) now c = done

  seed_if-started :
      (rs : List (Regime N)) (now : ℕ) (c : Client N)
      → (seed_if pool chain desk rs now c).stratum_initialized ≡ c.stratum_initialized
  seed_if-started [] now c = refl
  seed_if-started (r ∷ rs) now c = refl

  lower-started :
      (b : Bool) (now : ℕ) (d : N) (c : Client N)
      → (if b then set_difficulty_to pool now d c else c).stratum_initialized
        ≡ c.stratum_initialized
  lower-started true now d c = refl
  lower-started false now d c = refl

  watch_jobs-Follows :
      (x : Client N × Bool) → IsSeeded x.0 → Follows x.0 (watch_jobs pool chain desk x)
  watch_jobs-Follows (c, true) seeded = one (watches (phase c) seeded.0 seeded.1)
  watch_jobs-Follows (c, false) seeded = done

  announce-Follows :
      (b : Bool) (m : Sent N) (c : Client N)
      → IsSeeded c
      → Follows c (watch_jobs pool chain desk (if b then (c, true) else write pool m c))
  announce-Follows true m c seeded = watch_jobs-Follows (c, true) seeded
  announce-Follows false m c seeded =
      let kept = (write-Kept pool chain m c).1 in
      then-Moves (write-Follows m c) (
        watch_jobs-Follows (write pool m c)
          (kept.2 ∙ seeded.0, ap (λ v. is_cons v.recent_difficulties) kept.3 ∙ seeded.1))

  init_stratum-Follows :
      (now : ℕ) (c : Client N)
      → is_some c.client_subscription ≡ true
      → is_some c.client_authorization ≡ true
      → Follows c (init_stratum pool chain desk now c)
  unfolding init_stratum
  init_stratum-Follows now c sub auth =
      let c₁ = record c { stratum_initialized = true } in
      let low = is_cpuminer pool chain desk c.client_subscription in
      let c₂ = lower_difficulty pool chain desk now c₁ in
      let c₃ = seed pool chain desk now c₂ in
      then-Moves (one (starts (phase c) sub auth)) (
        then-Moves (lower_difficulty-Follows low now pool.cpuminer_difficulty c₁) (
          then-Moves (seed_if-Follows c₂.vardiff.recent_difficulties now c₂) (
            announce-Follows c₃.suggested_difficulty (set_difficulty c₃.vardiff.session_difficulty)
              c₃
              (
                seed_if-started c₂.vardiff.recent_difficulties now c₂
                    ∙ lower-started low now pool.cpuminer_difficulty c₁,
                seed_if-IsSeeded c₂.vardiff.recent_difficulties now c₂ refl,
              ))))

  is_ready-parts :
      (agent : Option Text) (a : Option Authorization) (b : Bool)
      → is_ready pool chain desk agent a b ≡ true
      → (is_some agent ≡ true) × is_some a ≡ true
  is_ready-parts none a b h = absurd (ground arith)
  is_ready-parts (some agent) none b h = absurd (ground arith)
  is_ready-parts (some agent) (some a) b h = (refl, refl)

  pub pick-Follows :
      (b : Bool) (c c' : Client N) → (b ≡ true → Follows c c') → Follows c (if b then c' else c)
  pick-Follows true c c' f = f refl
  pick-Follows false c c' f = done

  pub maybe_init-Follows : (now : ℕ) (c : Client N) → Follows c (maybe_init pool chain desk now c)
  maybe_init-Follows now c =
      pick-Follows
        (is_ready pool chain desk c.client_subscription c.client_authorization
          c.stratum_initialized)
        c (init_stratum pool chain desk now c)
        (λ ready.
          let parts = is_ready-parts _ _ _ ready in init_stratum-Follows now c parts.0 parts.1)
