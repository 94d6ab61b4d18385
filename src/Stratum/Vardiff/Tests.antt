-- ===== src/Stratum/Vardiff/Tests.antt =====
-- apps/stratum/src/models/StratumV1Client.ts: runs of the difficulty targets at fixed inputs, and the
-- theorems applied to them. Difficulties are whole numbers here, and the grace window is 30 seconds.
use hashden.Common.{ℕ, ◌≡◌, refl, true, ◌||◌, [], ◌∷◌, none, some, leb, arith}
use hashden.Stratum.Vardiff.{Ordered, Vardiff, set_session_difficulty, scan, acceptable_target}
use hashden.Stratum.Vardiff.Best.{targets, IsBest, acceptable_target-IsBest}
use hashden.Stratum.Vardiff.Grace.{superseded-refused}

leb_total : (a b : ℕ) → (leb a b || leb b a) ≡ true
leb_total a b = ground arith

leb_trans : (a b c : ℕ) → leb a b ≡ true → leb b c ≡ true → leb a c ≡ true
leb_trans a b c h k = ground arith

abbrev whole : Ordered ℕ
whole = record { leq = leb; leq_total = leb_total; leq_trans = leb_trans }

abbrev at_thousand : Vardiff ℕ
at_thousand = record {
  recent_difficulties = record { difficulty = 1000; since = 0 } ∷ [];
  session_difficulty = 1000;
}

-- Two changes within the window: a straggler is credited the old difficulty.
straggler :
    acceptable_target whole 30000 20000 1500
      (set_session_difficulty whole 30000 10000 4000 at_thousand)
    ≡ some 1000
unfolding acceptable_target set_session_difficulty scan
straggler = refl

acceptable_target-IsBest_example :
    IsBest whole 30000 5000
      (acceptable_target whole 30000 20000 5000
        (set_session_difficulty whole 30000 10000 4000 at_thousand))
      (targets whole 30000 20000 (set_session_difficulty whole 30000 10000 4000 at_thousand))
acceptable_target-IsBest_example =
    acceptable_target-IsBest whole 30000 20000 5000
      (set_session_difficulty whole 30000 10000 4000 at_thousand)

-- The adjustment comes a minute after the difficulty was set: one millisecond later the straggler is
-- refused.
superseded-refused_example :
    acceptable_target whole 30000 60001 1500
      (set_session_difficulty whole 30000 60000 4000 at_thousand)
    ≡ none
superseded-refused_example =
    superseded-refused whole 30000 60000 60001 1500 4000 at_thousand (omega arith) (omega arith)
      refl
