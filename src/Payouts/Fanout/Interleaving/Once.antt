-- ===== src/Payouts/Fanout/Interleaving/Once.antt =====
-- apps/payouts/src/dust-fanout.ts, `fanoutDust`: however the workers interleave and crash, the wallet
-- is called at most once for an attempt.
use mathlib.Core.Option
use hashden.Common.{
  ℕ, ◌+◌, ◌≤◌, ◌≡◌, refl, sym, ap, subst, ◌∙◌, ◌⊎◌, inl, inr, Bool, true, false, List, [], ◌∷◌,
  ◌++◌, Option, none, some, map, if◌then◌else◌, arith, sum_of, sum_of-append, Bool-cases,
  Option-cases,
}
use hashden.Common.Text.{Text, text_eq, text_eq_iff, text_eq_refl}
use hashden.Payouts.Types.{Attempt, in_flight, is_pending, with_status}
use hashden.Payouts.Store.{RowStore}
use hashden.Payouts.Store.Sweep.{put_same}
use hashden.Payouts.Fanout.{is_claimable}
use hashden.Payouts.Fanout.Interleaving.{
  Place, queued, holding, answered, recorded, Task, queue, State, at, task, Step, begin, claimed,
  lost, unregistered, pay, record_paid, record_failed, note_zap, zap_thrown, stop, reconciled,
  Steps, done, next,
}

abbrev is_holding : Place → ℕ
is_holding holding = 1
is_holding _ = 0

-- The workers that hold an attempt, and the calls of the wallet for it.
abbrev pub holders : Text → List Task → ℕ
holders k = sum_of (λ (t : Task). if text_eq t.attempt k then is_holding t.place else 0)

abbrev pub calls : Text → List Text → ℕ
calls k = sum_of (λ j. if text_eq j k then 1 else 0)

holders-queue : (k : Text) (ids : List Text) → holders k (map queue ids) ≡ 0
holders-queue k [] = refl
holders-queue k (j ∷ ids) = ground (arith, holders-queue k ids)

false_is_not_true : false ≡ true → ⊥
false_is_not_true e = cc

module _ (store : RowStore Attempt) where
  abbrev pub is_open : Text → store.Table → Bool
  is_open k t = is_claimable store (store.get k t)

  -- An update that makes no attempt pending.
  abbrev IsQuiet : (Attempt → Attempt) → Type 0
  IsQuiet f = (a : Attempt) → is_pending a.status ≡ false → is_pending (f a).status ≡ false

  closed-put :
      (k j : Text) (f : Attempt → Attempt) (t : store.Table)
      → IsQuiet f
      → is_open j t ≡ false
      → is_open j (store.put k f t) ≡ false
  closed-put k j f t quiet h = elim (Bool-cases (text_eq k j)) [
    | inr apart ↦ rw (store.get-put k j f t, apart) h
    | inl same ↦ rw (store.get-put k j f t, same) (mapped (store.get j t) h)
  ]
    where
      mapped :
          (o : Option Attempt)
          → is_claimable store o ≡ false
          → is_claimable store (Option.map f o) ≡ false
      mapped none h = refl
      mapped (some a) h = quiet a h

  -- For each attempt: one holder or call at most, and none while the attempt is pending.
  abbrev pub IsExclusive : State store → Type 0
  IsExclusive s =
      (k : Text)
      → (calls k s.sent + holders k s.tasks ≤ 1)
        × ((is_open k s.attempts ≡ false) ⊎ (calls k s.sent + holders k s.tasks ≡ 0))

  -- A step that puts a row quietly and adds no holder and no call.
  quiet_step :
      (t : store.Table) (tasks tasks2 : List Task) (sent : List Text) (k : Text)
      (f : Attempt → Attempt)
      → IsQuiet f
      → ((j : Text) → holders j tasks2 ≤ holders j tasks)
      → IsExclusive (at store t tasks sent)
      → IsExclusive (at store (store.put k f t) tasks2 sent)
  quiet_step t tasks tasks2 sent k f quiet less h j = elim (h j).1 [
    | inl closed ↦ (omega (arith, (h j).0, less j), inl (closed-put k j f t quiet closed))
    | inr free ↦ (omega (arith, (h j).0, less j), inr (omega (arith, free, less j)))
  ]

  idle_step :
      (t : store.Table) (tasks tasks2 : List Task) (sent sent2 : List Text)
      → ((j : Text) → calls j sent2 + holders j tasks2 ≤ calls j sent + holders j tasks)
      → IsExclusive (at store t tasks sent)
      → IsExclusive (at store t tasks2 sent2)
  idle_step t tasks tasks2 sent sent2 less h j = elim (h j).1 [
    | inl closed ↦ (omega (arith, (h j).0, less j), inl closed)
    | inr free ↦ (omega (arith, (h j).0, less j), inr (omega (arith, free, less j)))
  ]

  holders-cons :
      (j : Text) (before after : List Task) (x : Task)
      → holders j (before ++ (x ∷ after))
        ≡ holders j (before ++ after) + (if text_eq x.attempt j then is_holding x.place else 0)
  holders-cons j before after x = omega (
    arith,
    sum_of-append (λ (t : Task). if text_eq t.attempt j then is_holding t.place else 0) before
        (x ∷ after),
    sum_of-append (λ (t : Task). if text_eq t.attempt j then is_holding t.place else 0) before
        after,
  )

  pub chosen :
      (b : Bool) (x t u : store.Table)
      → ◌≡◌ {A = store.Table × Bool} (if b then (x, true) else (t, false)) (u, true)
      → (b ≡ true) × (u ≡ x)
  chosen true x t u e = (refl, ap (λ (p : store.Table × Bool). p.0) (sym e))
  chosen false x t u e = absurd (false_is_not_true (ap (λ (p : store.Table × Bool). p.1) e))

  pub not_chosen :
      (b : Bool) (x t u : store.Table)
      → ◌≡◌ {A = store.Table × Bool} (if b then (x, true) else (t, false)) (u, false)
      → u ≡ t
  not_chosen true x t u e =
      absurd (false_is_not_true (ap (λ (p : store.Table × Bool). p.1) (sym e)))
  not_chosen false x t u e = ap (λ (p : store.Table × Bool). p.0) (sym e)

  claimed_row :
      (k : Text) (t : store.Table)
      → is_open k t ≡ true
      → is_open k (store.put k (with_status in_flight) t) ≡ false
  claimed_row k t free = elim (Option-cases (store.get k t)) [
    | inl missing ↦ rw (store.get-put k k (with_status in_flight) t, text_eq_refl k, missing) refl
    | inr (a, e) ↦ rw (put_same store k (with_status in_flight) t a e) refl
  ]

  claim_step :
      (t : store.Table) (before after : List Task) (sent : List Text) (k : Text)
      → is_open k t ≡ true
      → IsExclusive (at store t (before ++ (task store k queued ∷ after)) sent)
      → IsExclusive (
          at store
            (store.put k (with_status in_flight) t)
            (before ++ (task store k holding ∷ after))
            sent)
  claim_step t before after sent k free h j =
      let was = holders-cons j before after (task store k queued) in
      let now = holders-cons j before after (task store k holding) in
      elim (Bool-cases (text_eq k j)) [
        | inr apart ↦
            let same : holders j (before ++ (task store k holding ∷ after))
                ≡ holders j (before ++ (task store k queued ∷ after)) =
              now ∙ rw apart refl ∙ sym was in
            elim (h j).1 [
              | inl closed ↦ (
                omega (arith, (h j).0, same),
                inl (closed-put k j (with_status in_flight) t (λ a p. refl) closed),
              )
              | inr none_yet ↦ (omega (arith, (h j).0, same), inr (omega (arith, none_yet, same)))
            ]
        | inl same ↦
            let id : k ≡ j = (text_eq_iff k j).0 same in
            let still : is_open j t ≡ true = subst (λ i. is_open i t ≡ true) id free in
            elim (h j).1 [
              | inl closed ↦ absurd (false_is_not_true (sym closed ∙ still))
              | inr none_yet ↦
                  let one : holders j (before ++ (task store k holding ∷ after))
                      ≡ holders j (before ++ after) + 1 =
                    now ∙ rw same refl in
                  let zero : holders j (before ++ (task store k queued ∷ after))
                      ≡ holders j (before ++ after) + 0 =
                    was ∙ rw same refl in
                  (
                    omega (arith, none_yet, one, zero),
                    inl (
                        subst (λ i. is_open i (store.put k (with_status in_flight) t) ≡ false) id
                          (claimed_row k t free)),
                  )
            ]
      ]

  -- Each step keeps it.
  pub Step-IsExclusive : {s r : State store} → Step store s r → IsExclusive s → IsExclusive r
  Step-IsExclusive (begin t tasks sent ids) h =
      idle_step t tasks _ sent sent
        (λ j. omega (
          arith,
          sum_of-append (λ (t : Task). if text_eq t.attempt j then is_holding t.place else 0) tasks
              (map queue ids),
          holders-queue j ids,
        ))
        h
  Step-IsExclusive (claimed t u before after sent k e) h =
      let (free, same) = chosen (is_open k t) (store.put k (with_status in_flight) t) t u e in
      subst (λ v. IsExclusive (at store v (before ++ (task store k holding ∷ after)) sent))
        (sym same) (claim_step t before after sent k free h)
  Step-IsExclusive (lost t u before after sent k e) h =
      subst (λ v. IsExclusive (at store v (before ++ after) sent))
        (sym (not_chosen (is_open k t) (store.put k (with_status in_flight) t) t u e))
        (idle_step t _ (before ++ after) sent sent
          (λ j. omega (arith, holders-cons j before after (task store k queued))) h)
  Step-IsExclusive (unregistered t before after sent k) h =
      quiet_step t _ (before ++ after) sent k _ (λ a p. refl)
        (λ j. omega (arith, holders-cons j before after (task store k holding))) h
  Step-IsExclusive (pay t before after sent k answer) h =
      idle_step t _ (before ++ (task store k (answered answer) ∷ after)) sent (k ∷ sent)
        (λ j. ground (
          arith,
          holders-cons j before after (task store k holding),
          holders-cons j before after (task store k (answered answer)),
        ))
        h
  Step-IsExclusive (record_paid t before after sent k hash) h =
      quiet_step t _ (before ++ (task store k recorded ∷ after)) sent k _ (λ a p. refl)
        (λ j. omega (
          arith,
          holders-cons j before after (task store k (answered (some hash))),
          holders-cons j before after (task store k recorded),
        ))
        h
  Step-IsExclusive (record_failed t before after sent k) h =
      quiet_step t _ (before ++ after) sent k _ (λ a p. refl)
        (λ j. omega (arith, holders-cons j before after (task store k (answered none)))) h
  Step-IsExclusive (note_zap t before after sent k event) h =
      quiet_step t _ (before ++ after) sent k _ (λ a p. p)
        (λ j. omega (arith, holders-cons j before after (task store k recorded))) h
  Step-IsExclusive (zap_thrown t before after sent k) h =
      quiet_step t _ (before ++ after) sent k _ (λ a p. refl)
        (λ j. omega (arith, holders-cons j before after (task store k recorded))) h
  Step-IsExclusive (stop t before after sent k place) h =
      idle_step t _ (before ++ after) sent sent
        (λ j. omega (arith, holders-cons j before after (task store k place))) h
  Step-IsExclusive (reconciled t tasks sent k a status g e p) h =
      quiet_step t tasks tasks sent k _ (λ b q. ground (arith, p)) (λ j. omega arith) h

  Steps-IsExclusive : {s last : State store} → Steps store s last → IsExclusive s → IsExclusive last
  Steps-IsExclusive done h = h
  Steps-IsExclusive (next step steps) h = Steps-IsExclusive steps (Step-IsExclusive step h)

  -- From any table of attempts, with no worker and no call before, every interleaving of the steps
  -- calls the wallet at most once for an attempt; an attempt that is still
  -- PENDING was not paid.
  pub fanout-at_most_once :
      (t : store.Table) (last : State store) (k : Text)
      → Steps store (at store t [] []) last
      → (calls k last.sent ≤ 1) × ((is_open k last.attempts ≡ false) ⊎ (calls k last.sent ≡ 0))
  fanout-at_most_once t last k steps =
      let (one, closed) = Steps-IsExclusive steps (λ j. (omega arith, inr refl)) k in
      (
        omega (arith, one),
        elim closed [ inl is ↦ inl is | inr none_yet ↦ inr (omega (arith, none_yet)) ],
      )
