-- ===== src/Payouts/Fanout/Tests.antt =====
-- apps/payouts/src/dust-fanout.ts: passes at fixed inputs, and the theorems applied to them.
use mathlib.Core.Option
use hashden.Common.{◌≡◌, refl, true, List, [], ◌∷◌, ◌++◌, Option, some, Result, ok, err}
use hashden.Common.Int.{pos}
use hashden.Common.Text.{Text, codes, text_eq}
use hashden.Payouts.Types.{
  is_dust_fanned_out, Block, matured, dust_fanned_out, Attempt, pending, paid, failed, with_status,
  Payment, other_error, is_paid,
}
use hashden.Payouts.Store.Rows.{rows_store, get_row, put_row, select_rows}
use hashden.Payouts.Fanout.{
  FanoutResult, FanoutError, with_zap_event, is_payable, Fanning, fanout_dust, with_payment_hash,
  ZapPublisher,
}
use hashden.Payouts.Fanout.Pass.{fanout_dust-sent, fanout_dust-IsAfter, IsAfter, planned}
use hashden.Payouts.Fanout.Marked.{fanout_dust-paid}
use hashden.Payouts.Samples.{block, attempt, addresses, build_client, publisher, good_dust}

abbrev dust : List (Text × Attempt)
dust =
    (codes "p1", attempt (codes "aa") pending)
    ∷ (codes "p2", attempt (codes "bb") pending)
    ∷ (codes "p3", attempt (codes "cc") pending)
    ∷ (codes "p4", attempt (codes "dd") paid)
    ∷ []

abbrev nothing_done : FanoutResult
nothing_done = record {
  block_id = [];
  recorded_on_chain = 0;
  recorded_ln_pending = 0;
  paid_count = 0;
  failed_count = 0;
  errors = [];
}

abbrev before : List (Text × Attempt) → Fanning rows_store
before rows = record { attempts = rows; sent = []; result = nothing_done }

abbrev matured_chain : List (Text × Block)
matured_chain = (codes "b1", block (codes "aa") matured) ∷ []

abbrev run : List (Text × Attempt) → Result FanoutError (List (Text × Block) × Fanning rows_store)
run rows =
    fanout_dust rows_store rows_store build_client addresses publisher (codes "b1")
      (matured_chain, before rows)

abbrev payment : Text → Text → Payment
payment k address = record { attempt = k; address = address; sats = pos 600 }

abbrev zapped : Attempt
zapped =
    with_zap_event (codes "event") (with_payment_hash (codes "hash") (attempt (codes "aa") pending))

abbrev after_dust : List (Text × Block) × Fanning rows_store
after_dust = (
  matured_chain,
  record {
    attempts =
        (codes "p1", zapped)
        ∷ (codes "p2", attempt (codes "bb") failed)
        ∷ (codes "p3", attempt (codes "cc") failed)
        ∷ (codes "p4", attempt (codes "dd") paid)
        ∷ [];
    sent = payment (codes "p1") (codes "aa@ln") ∷ payment (codes "p2") (codes "bb@ln") ∷ [];
    result = record {
      block_id = codes "b1";
      recorded_on_chain = 0;
      recorded_ln_pending = 3;
      paid_count = 1;
      failed_count = 2;
      errors =
          (codes "bb", codes "no route")
          ∷ (codes "cc", codes "member no longer registered in group")
          ∷ [];
    };
  },
)

-- One attempt is paid, one payment fails, one member is gone: the block stays matured.
dust-run : run dust ≡ ok after_dust
unfolding fanout_dust text_eq get_row put_row select_rows
dust-run = refl

matured_row : get_row (codes "b1") matured_chain ≡ some (block (codes "aa") matured)
unfolding get_row text_eq
matured_row = refl

p2_row : get_row (codes "p2") dust ≡ some (attempt (codes "bb") pending)
unfolding get_row text_eq
p2_row = refl

fanout_dust-sent_example :
    after_dust.1.sent
    ≡ []
      ++ planned rows_store rows_store build_client addresses publisher
          (codes "b1")
          (block (codes "aa") matured)
          (build_client (codes "g"))
          (select_rows (is_payable (codes "b1")) dust)
fanout_dust-sent_example =
    fanout_dust-sent rows_store rows_store build_client addresses publisher (codes "b1")
      matured_chain (before dust) (block (codes "aa") matured) after_dust matured_row dust-run

fanout_dust-IsAfter_example :
    (b : Attempt) × (get_row (codes "p2") after_dust.1.attempts ≡ some b)
    × IsAfter rows_store rows_store build_client addresses publisher
        (codes "b1")
        (attempt (codes "bb") pending)
        b
fanout_dust-IsAfter_example =
    fanout_dust-IsAfter rows_store rows_store build_client addresses publisher (codes "b1")
      matured_chain (before dust) (block (codes "aa") matured) after_dust (codes "p2")
      (attempt (codes "bb") pending) matured_row dust-run p2_row

abbrev after_good : List (Text × Block) × Fanning rows_store
after_good = (
  (codes "b1", block (codes "aa") dust_fanned_out) ∷ [],
  record {
    attempts = (codes "p1", zapped) ∷ [];
    sent = payment (codes "p1") (codes "aa@ln") ∷ [];
    result = record {
      block_id = codes "b1";
      recorded_on_chain = 0;
      recorded_ln_pending = 1;
      paid_count = 1;
      failed_count = 0;
      errors = [];
    };
  },
)

good_run : run good_dust ≡ ok after_good
unfolding fanout_dust text_eq get_row put_row select_rows
good_run = refl

good_row : get_row (codes "p1") good_dust ≡ some (attempt (codes "aa") pending)
unfolding get_row text_eq
good_row = refl

good_payable : is_payable (codes "b1") (attempt (codes "aa") pending) ≡ true
unfolding text_eq
good_payable = refl

good_marked :
    Option.map (λ (b : Block). is_dust_fanned_out b.status) (get_row (codes "b1") after_good.0)
    ≡ some true
unfolding get_row text_eq
good_marked = refl

fanout_dust-paid_example :
    Option.map (λ (b : Attempt). is_paid b.status) (get_row (codes "p1") after_good.1.attempts)
    ≡ some true
fanout_dust-paid_example =
    fanout_dust-paid rows_store rows_store build_client addresses publisher (codes "b1")
      matured_chain (before good_dust) (block (codes "aa") matured) after_good (codes "p1")
      (attempt (codes "aa") pending) matured_row good_run good_marked good_row good_payable

-- A zap publisher that throws: the payment was made, and the attempt ends FAILED, counted on both sides.
abbrev throwing : Option ZapPublisher
throwing = some (record { publish_zap = λ r. err (other_error (codes "no relay")) })

thrown_run :
    fanout_dust rows_store rows_store build_client addresses throwing
      (codes "b1")
      (matured_chain, before good_dust)
    ≡ ok (
      matured_chain,
      record {
        attempts =
            (
              codes "p1",
              with_status failed (with_payment_hash (codes "hash") (attempt (codes "aa") pending)),
            )
            ∷ [];
        sent = payment (codes "p1") (codes "aa@ln") ∷ [];
        result = record {
          block_id = codes "b1";
          recorded_on_chain = 0;
          recorded_ln_pending = 1;
          paid_count = 1;
          failed_count = 1;
          errors = (codes "aa", codes "no relay") ∷ [];
        };
      },
    )
unfolding fanout_dust text_eq get_row put_row select_rows
thrown_run = refl
