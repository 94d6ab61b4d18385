-- ===== src/Stratum/Den/Paid.antt =====
-- apps/stratum/src/hashden/hashden.service.ts with apps/stratum/src/models/MiningJob.ts: what the coinbase
-- transaction of a den's job pays, from the outputs of the coinbase builders through the percentages.
use hashden.Common.{ℕ, ◌≤◌, ◌≡◌, List, [], ◌∷◌, ok, ◌⊎◌, length}
use hashden.Common.Int.{pos, ◌+ℤ◌}
use hashden.Common.Text.{Text}
use hashden.Coinbase.Output.{CoinbaseOutput}
use hashden.Stratum.MiningJob.{TxOut, Bitcoin, get_payment_script}
use hashden.Stratum.Den.{Registry}

module _ {D N : Type 0} (registry : Registry D N) where
  -- What the output of the transaction pays for an output of the builder: to its address, its sats or
  -- one less.
  module _ (lib : Bitcoin N) where
    abbrev pub PaysTo : CoinbaseOutput → TxOut → Type 0
    PaysTo o x =
        (get_payment_script lib o.address ≡ ok x.script)
        × ((x.value ≡ o.sats) ⊎ (x.value +ℤ pos 1 ≡ o.sats))

    abbrev pub PaysAll : List CoinbaseOutput → List TxOut → Type 0
    PaysAll [] [] = Unit
    PaysAll (o ∷ os) (x ∷ xs) = PaysTo o x × PaysAll os xs
    PaysAll _ _ = ⊥

    -- The first output has in addition what the others are short of.
    abbrev pub PaysOut : List CoinbaseOutput → List TxOut → Type 0
    PaysOut (o ∷ os) (x ∷ xs) =
        (get_payment_script lib o.address ≡ ok x.script)
        × ((short : ℕ) × (short ≤ length os) × x.value ≡ o.sats +ℤ pos short)
        × PaysAll os xs
    PaysOut _ _ = ⊥

    -- The float arithmetic of a percentage loses at most one sat.
    abbrev pub LosesOne : ℕ → ℕ → Type 0
    LosesOne reward s =
        (lib.floor_share (registry.percent_of (pos s) (pos reward)) reward ≡ pos s)
        ⊎ (lib.floor_share (registry.percent_of (pos s) (pos reward)) reward +ℤ pos 1 ≡ pos s)

    -- The sats are at most the reward.
    abbrev IsBounded : ℕ → CoinbaseOutput → Type 0
    IsBounded reward o = (s : ℕ) × (o.sats ≡ pos s) × (s ≤ reward)
