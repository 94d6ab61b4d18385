-- ===== src/Payouts/Fanout/Interleaving.antt =====
-- apps/payouts/src/dust-fanout.ts, `fanoutDust` and `runWithConcurrency`: the pass as a step relation.
-- Any number of workers run, of one process (`paymentConcurrency`) or of several; each step is one
-- statement on the database or one call of the wallet, and the steps of the workers come in any order.
-- A worker may stop at any point (a crash), and apps/payouts/src/reconcile-inflight.ts may settle an
-- attempt that is IN_FLIGHT at any time.
pub mod Once
pub mod Hashes
use hashden.Common.{◌≡◌, Bool, true, false, ◌||◌, List, [], ◌∷◌, ◌++◌, Option, none, some, map}
use hashden.Common.Text.{Text}
use hashden.Payouts.Types.{Attempt, PayoutStatus, is_pending, is_in_flight, failed, with_status}
use hashden.Payouts.Store.{RowStore}
use hashden.Payouts.Fanout.{with_payment_hash, with_zap_event, claim}

-- Where a worker stands with an attempt: it has the attempt in its queue, has claimed it, has the
-- wallet's answer (a hash, or none for an error), or has recorded the payment.
pub data Place : Type 0 where
  queued : Place
  holding : Place
  answered : Option Text → Place
  recorded : Place

pub record Task : Type 0 where
  pub attempt : Text
  pub place : Place

abbrev pub queue : Text → Task
queue k = record { attempt = k; place = queued }

module _ (store : RowStore Attempt) where
  -- `sent` lists the attempts for which the wallet was called.
  pub record State : Type 0 where
    pub attempts : store.Table
    pub tasks : List Task
    pub sent : List Text

  abbrev pub at : store.Table → List Task → List Text → State
  at t tasks sent = record { attempts = t; tasks = tasks; sent = sent }

  abbrev pub task : Text → Place → Task
  task k place = record { attempt = k; place = place }

  pub data Step : State → State → Type 0 where
    -- `findMany` of a new pass: it may put any attempts into a queue.
    begin :
        (t : store.Table) (tasks : List Task) (sent : List Text) (ids : List Text)
        → Step (at t tasks sent) (at t (tasks ++ map queue ids) sent)
    claimed :
        (t u : store.Table) (before after : List Task) (sent : List Text) (k : Text)
        → claim store k t ≡ (u, true)
        → Step
            (at t (before ++ (task k queued ∷ after)) sent)
            (at u (before ++ (task k holding ∷ after)) sent)
    lost :
        (t u : store.Table) (before after : List Task) (sent : List Text) (k : Text)
        → claim store k t ≡ (u, false)
        → Step (at t (before ++ (task k queued ∷ after)) sent) (at u (before ++ after) sent)
    -- `member` is null.
    unregistered :
        (t : store.Table) (before after : List Task) (sent : List Text) (k : Text)
        → Step
            (at t (before ++ (task k holding ∷ after)) sent)
            (at (store.put k (with_status failed) t) (before ++ after) sent)
    pay :
        (t : store.Table) (before after : List Task) (sent : List Text) (k : Text)
        (answer : Option Text)
        → Step
            (at t (before ++ (task k holding ∷ after)) sent)
            (at t (before ++ (task k (answered answer) ∷ after)) (k ∷ sent))
    record_paid :
        (t : store.Table) (before after : List Task) (sent : List Text) (k hash : Text)
        → Step
            (at t (before ++ (task k (answered (some hash)) ∷ after)) sent)
            (at (store.put k (with_payment_hash hash) t) (before ++ (task k recorded ∷ after)) sent)
    record_failed :
        (t : store.Table) (before after : List Task) (sent : List Text) (k : Text)
        → Step
            (at t (before ++ (task k (answered none) ∷ after)) sent)
            (at (store.put k (with_status failed) t) (before ++ after) sent)
    note_zap :
        (t : store.Table) (before after : List Task) (sent : List Text) (k event : Text)
        → Step
            (at t (before ++ (task k recorded ∷ after)) sent)
            (at (store.put k (with_zap_event event) t) (before ++ after) sent)
    -- The zap publisher throws inside the `try` block.
    zap_thrown :
        (t : store.Table) (before after : List Task) (sent : List Text) (k : Text)
        → Step
            (at t (before ++ (task k recorded ∷ after)) sent)
            (at (store.put k (with_status failed) t) (before ++ after) sent)
    -- A task ends without another statement, or its worker crashes.
    stop :
        (t : store.Table) (before after : List Task) (sent : List Text) (k : Text) (place : Place)
        → Step (at t (before ++ (task k place ∷ after)) sent) (at t (before ++ after) sent)
    -- `reconcileInFlight` settles an attempt that is IN_FLIGHT.
    reconciled :
        (t : store.Table) (tasks : List Task) (sent : List Text) (k : Text) (a : Attempt)
        (status : PayoutStatus)
        → store.get k t ≡ some a
        → is_in_flight a.status ≡ true
        → is_pending status || is_in_flight status ≡ false
        → Step (at t tasks sent) (at (store.put k (with_status status) t) tasks sent)

  pub data Steps : State → State → Type 0 where
    done : {s : State} → Steps s s
    next : {s m last : State} → Step s m → Steps m last → Steps s last
