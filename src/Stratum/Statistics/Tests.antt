-- ===== src/Stratum/Statistics/Tests.antt =====
-- apps/stratum/src/models/StratumV1ClientStatistics.ts: runs at fixed inputs, and the theorems applied
-- to them. Shares are whole numbers here, and the hash rate is left out.
use hashden.Common.{ℕ, ◌+◌, ◌≡◌, refl, List, [], ◌∷◌, ltb}
use hashden.Common.Text.{codes}
use hashden.Stratum.Statistics.{Session, Numbers, update_row, Call, row_of, add_shares, cache_push}
use hashden.Stratum.Statistics.Slots.{
  after, slot_after, run_shares, run_count, current_slot, add_shares-run,
}

abbrev whole : Numbers ℕ
whole = record { nothing = 0; plus = λ a b. a + b; positive = λ a. ltb 0 a; rate = λ a b t. 0 }

abbrev who : Session
who = record { address = codes "bc1q"; client_name = codes "rig"; session_id = codes "1" }

abbrev call : ℕ → ℕ → Call ℕ
call time difficulty = record {
  clock = λ reading. time + reading;
  session = who;
  target_difficulty = difficulty;
}

-- Two calls in the first slot, and one in the second.
abbrev two : List (Call ℕ)
two = call 2000 5 ∷ call 1000 4 ∷ []

two_counted : (after whole two).shares ≡ 9
unfolding add_shares cache_push
two_counted = refl

saved_after_a_minute :
    (add_shares whole (call 70000 3) (after whole two)).1
    ≡ update_row (row_of whole who 0 12 3) ∷ []
unfolding add_shares cache_push
saved_after_a_minute = refl

add_shares-run_example :
    (current_slot whole (after whole two).slot ≡ slot_after whole two)
    × ((after whole two).shares ≡ run_shares whole two)
    × ((after whole two).accepted_count ≡ run_count whole two)
add_shares-run_example = add_shares-run whole two
