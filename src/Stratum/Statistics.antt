-- ===== src/Stratum/Statistics.antt =====
-- apps/stratum/src/models/StratumV1ClientStatistics.ts: `addShares`, which counts the shares of a miner
-- by time slots of ten minutes and stores them. Calls come one after the other, and the database
-- accepts every write. The numbers of the shares (floats) and their arithmetic are parameters.
pub mod Slots
mod Tests
use hashden.Common.{
  ℕ, suc, ◌+◌, ◌*◌, ◌/◌, Bool, List, [], ◌∷◌, ◌++◌, Option, none, some, if◌then◌else◌, ltb, ◌==◌,
  length,
}
use hashden.Common.Int.{ℤ, pos, ◌-ℤ◌}
use hashden.Common.Text.{Text}

-- The columns that name the miner's session.
pub record Session : Type 0 where
  pub address : Text
  pub client_name : Text
  pub session_id : Text

-- What the first call sets: the slot, when it was saved, and when this slot and the one before began.
pub record Slot : Type 0 where
  pub current_time_slot : ℕ
  pub last_save : ℕ
  pub previous_time_slot_time : ℕ
  pub current_time_slot_time : ℕ

-- CACHE_SIZE
abbrev pub cache_size : ℕ
cache_size = 30

-- `Math.floor(date.getTime() / coeff) * coeff`, in milliseconds.
abbrev pub time_slot_of : ℕ → ℕ
time_slot_of date = date / (1000 * 60 * 10) * (1000 * 60 * 10)

pub record Numbers (N : Type 0) : Type 0 where
  pub nothing : N
  pub plus : N → N → N
  pub positive : N → Bool
  -- `((previousShares + shares) * 4294967296) / (time / 1000)`
  pub rate : N → N → ℤ → N

pub record Submission (N : Type 0) : Type 0 where
  pub time : ℕ
  pub difficulty : N

-- A row of the statistics, less the columns of the session, and how it is written.
pub record StatisticsRow (N : Type 0) : Type 0 where
  pub row_time : ℕ
  pub row_shares : N
  pub row_accepted_count : ℕ
  pub row_session : Session

pub data Write (N : Type 0) : Type 0 where
  insert_row update_row : StatisticsRow N → Write N

pub record Statistics (N : Type 0) : Type 0 where
  pub shares : N
  pub accepted_count : ℕ
  pub submission_cache : List (Submission N)
  pub slot : Option Slot
  pub hash_rate : N
  pub previous_shares : N

-- A call: the values of its successive readings of the clock, the session and the difficulty.
pub record Call (N : Type 0) : Type 0 where
  pub clock : ℕ → ℕ
  pub session : Session
  pub target_difficulty : N

module _ {N : Type 0} (num : Numbers N) where
  abbrev pub initial_statistics : Statistics N
  initial_statistics = record {
    shares = num.nothing;
    accepted_count = 0;
    submission_cache = [];
    slot = none;
    hash_rate = num.nothing;
    previous_shares = num.nothing;
  }

  -- `shift()` of a full cache, and `push`.
  abbrev drop_first : List (Submission N) → List (Submission N)
  drop_first [] = []
  drop_first (e ∷ es) = es

  unfoldable pub cache_push : Submission N → List (Submission N) → List (Submission N)
  cache_push e es = (if ltb cache_size (length es) then drop_first es else es) ++ e ∷ []

  abbrev pub row_of : Session → ℕ → N → ℕ → StatisticsRow N
  row_of who time shares count = record {
    row_time = time;
    row_shares = shares;
    row_accepted_count = count;
    row_session = who;
  }

  abbrev pub cached : Call N → Statistics N → List (Submission N)
  cached c s =
      cache_push (record { time = c.clock 0; difficulty = c.target_difficulty }) s.submission_cache

  -- The shares of the call join those of the slot.
  abbrev count_shares : Call N → Slot → N → Statistics N → Statistics N
  count_shares c slot rate s = record {
    shares = num.plus s.shares c.target_difficulty;
    accepted_count = suc s.accepted_count;
    submission_cache = cached c s;
    slot = some slot;
    hash_rate = rate;
    previous_shares = s.previous_shares;
  }

  abbrev first_record : Call N → Statistics N → Statistics N × List (Write N)
  first_record c s =
      let slot = time_slot_of (c.clock 0) in
      let next =
        count_shares c
          (record {
            current_time_slot = slot;
            last_save = c.clock 3;
            previous_time_slot_time = c.clock 1;
            current_time_slot_time = c.clock 2;
          })
          s.hash_rate s in
      (next, insert_row (row_of c.session slot next.shares next.accepted_count) ∷ [])

  abbrev new_slot : Call N → Slot → Statistics N → Statistics N × List (Write N)
  new_slot c old s =
      let slot = time_slot_of (c.clock 0) in
      (
        record {
          shares = c.target_difficulty;
          accepted_count = 1;
          submission_cache = cached c s;
          slot = some (record {
            current_time_slot = slot;
            last_save = c.clock 2;
            previous_time_slot_time = old.current_time_slot_time;
            current_time_slot_time = c.clock 1;
          });
          hash_rate = s.hash_rate;
          previous_shares = s.shares;
        },
        update_row (row_of c.session old.current_time_slot s.shares s.accepted_count)
            ∷ insert_row (row_of c.session slot c.target_difficulty 1)
            ∷ [],
      )

  -- The slot's row is updated with what is counted so far.
  abbrev minute_passed : Call N → Slot → Statistics N → Statistics N × List (Write N)
  minute_passed c old s =
      let next =
        count_shares c
          (record {
            current_time_slot = old.current_time_slot;
            last_save = c.clock 1;
            previous_time_slot_time = old.previous_time_slot_time;
            current_time_slot_time = old.current_time_slot_time;
          })
          s.hash_rate s in
      (
        next,
        update_row (row_of c.session old.current_time_slot next.shares next.accepted_count) ∷ [],
      )

  -- The shares stay in memory, and the hash rate is estimated.
  abbrev in_memory : Call N → Slot → Statistics N → Statistics N × List (Write N)
  in_memory c old s =
      let total = num.plus s.shares c.target_difficulty in
      (
        count_shares c old
            (if num.positive total
              then num.rate s.previous_shares total
                  (pos (c.clock 1) -ℤ pos old.previous_time_slot_time)
              else s.hash_rate)
            s,
        [],
      )

  abbrev pub add_to : Call N → Option Slot → Statistics N → Statistics N × List (Write N)
  add_to c none s = first_record c s
  add_to c (some old) s =
      if old.current_time_slot == time_slot_of (c.clock 0)
      then (if ltb (old.last_save + 60 * 1000) (c.clock 0)
          then minute_passed c old s
          else in_memory c old s)
      else new_slot c old s

  -- The state after the call, and the writes in their order.
  unfoldable pub add_shares : Call N → Statistics N → Statistics N × List (Write N)
  add_shares c s = add_to c s.slot s
