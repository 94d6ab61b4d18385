-- ===== src/Stratum/Statistics/Slots.antt =====
-- apps/stratum/src/models/StratumV1ClientStatistics.ts: the counters, described by the history of the
-- calls alone.
use hashden.Common.{
  ℕ, suc, ◌+◌, ◌*◌, ◌≡◌, refl, ap, ap₂, ◌∙◌, Bool, true, false, List, [], ◌∷◌, Option, none, some,
  if◌then◌else◌, ltb, ◌==◌, Bool-cases, inl, inr, arith, ==_iff,
}
use hashden.Stratum.Statistics.{
  Slot, time_slot_of, Numbers, insert_row, update_row, Statistics, Call, initial_statistics, row_of,
  add_to, add_shares,
}

module _ {N : Type 0} (num : Numbers N) where
  -- A history has the latest call first.
  abbrev pub after : List (Call N) → Statistics N
  after [] = initial_statistics num
  after (c ∷ past) = (add_shares num c (after past)).0

  abbrev pub slot_of : Call N → ℕ
  slot_of c = time_slot_of (c.clock 0)

  abbrev pub slot_after : List (Call N) → Option ℕ
  slot_after [] = none
  slot_after (c ∷ past) = some (slot_of c)

  abbrev pub is_slot : ℕ → Option ℕ → Bool
  is_slot t none = true
  is_slot t (some u) = u == t

  -- What the latest calls in a row that fall in one slot add up to, and how many they are.
  abbrev pub run_shares : List (Call N) → N
  run_shares [] = num.nothing
  run_shares (c ∷ past) =
      if is_slot (slot_of c) (slot_after past)
      then num.plus (run_shares past) c.target_difficulty
      else c.target_difficulty

  abbrev pub run_count : List (Call N) → ℕ
  run_count [] = 0
  run_count (c ∷ past) = if is_slot (slot_of c) (slot_after past) then suc (run_count past) else 1

  abbrev pub current_slot : Option Slot → Option ℕ
  current_slot none = none
  current_slot (some t) = some t.current_time_slot

  -- How a call counts.
  abbrev Counts : Call N → Option Slot → Statistics N → Statistics N → Type 0
  Counts c old s next =
      (current_slot next.slot ≡ some (slot_of c))
      × (next.shares ≡ (
          if is_slot (slot_of c) (current_slot old)
          then num.plus s.shares c.target_difficulty
          else c.target_difficulty))
      × (next.accepted_count
          ≡ (if is_slot (slot_of c) (current_slot old) then suc s.accepted_count else 1))

  add_to-Counts :
      (c : Call N) (old : Option Slot) (s : Statistics N) → Counts c old s (add_to num c old s).0
  add_to-Counts c none s = (refl, refl, refl)
  add_to-Counts c (some old) s = elim (Bool-cases (old.current_time_slot == slot_of c)) [
    | inr moved ↦ rw moved (refl, refl, refl)
    | inl same ↦ elim (Bool-cases (ltb (old.last_save + 60 * 1000) (c.clock 0))) [
      | inl due ↦
          rw (same, due) (ap some ((==_iff old.current_time_slot (slot_of c)).0 same), refl, refl)
      | inr fresh_row ↦
          rw (same, fresh_row)
            (ap some ((==_iff old.current_time_slot (slot_of c)).0 same), refl, refl)
    ]
  ]

  -- After any history, the slot, the shares and the count are those of the latest calls in a row
  -- that fall in one slot.
  pub add_shares-run :
      (calls : List (Call N))
      → (current_slot (after calls).slot ≡ slot_after calls)
        × ((after calls).shares ≡ run_shares calls)
        × ((after calls).accepted_count ≡ run_count calls)
  unfolding add_shares
  add_shares-run [] = (refl, refl, refl)
  add_shares-run (c ∷ past) =
      let before = add_shares-run past in
      let now = add_to-Counts c (after past).slot (after past) in
      (
        now.0,
        now.1
            ∙ ap₂
                (λ slot total.
                  if is_slot (slot_of c) slot
                  then num.plus total c.target_difficulty
                  else c.target_difficulty)
                before.0 before.1,
        now.2
            ∙ ap₂ (λ slot count. if is_slot (slot_of c) slot then suc count else 1) before.0
                before.2,
      )

  saved_row :
      (c : Call N) (t : ℕ) (s : Statistics N) (old : Slot)
      → old.current_time_slot ≡ t
      → (t == slot_of c) ≡ false
      → (add_to num c (some old) s).1
        ≡ update_row (row_of num c.session t s.shares s.accepted_count)
          ∷ insert_row (row_of num c.session (slot_of c) c.target_difficulty 1)
          ∷ []
  saved_row c t s old at moved = rw (at, moved) refl

  add_to-moved :
      (c : Call N) (t : ℕ) (s : Statistics N) (old : Option Slot)
      → current_slot old ≡ some t
      → (t == slot_of c) ≡ false
      → (add_to num c old s).1
        ≡ update_row (row_of num c.session t s.shares s.accepted_count)
          ∷ insert_row (row_of num c.session (slot_of c) c.target_difficulty 1)
          ∷ []
  add_to-moved c t s none at moved = ground arith
  add_to-moved c t s (some old) at moved = saved_row c t s old (ground arith) moved

  -- When a call falls in another slot than the one before it, the row of the old slot is updated with
  -- all shares of that run of the history, and a row with the call's shares alone is inserted.
  pub add_shares-closed :
      (c last : Call N) (past : List (Call N))
      → (slot_of last == slot_of c) ≡ false
      → (add_shares num c (after (last ∷ past))).1
        ≡ update_row (
            row_of num c.session
              (slot_of last)
              (run_shares (last ∷ past))
              (run_count (last ∷ past)))
          ∷ insert_row (row_of num c.session (slot_of c) c.target_difficulty 1)
          ∷ []
  unfolding add_shares
  add_shares-closed c last past moved =
      let run = add_shares-run (last ∷ past) in
      let s = after (last ∷ past) in
      add_to-moved c (slot_of last) s s.slot run.0 moved
      ∙ ap₂
          (λ total count.
            update_row (row_of num c.session (slot_of last) total count)
            ∷ insert_row (row_of num c.session (slot_of c) c.target_difficulty 1)
            ∷ [])
          run.1 run.2
