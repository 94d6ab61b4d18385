-- ===== src/Payouts/Store.antt =====
-- The part of the Prisma client that the payouts worker uses on a table with an `id` column, as an
-- interface: reading a row, updating a row, and selecting rows. The client is not part of this
-- repository; the laws are its documented behaviour. `Rows` is a table that has them.
pub mod Rows
pub mod Sweep
use hashden.Common.{◌≡◌, Bool, true, false, List, [], ◌∷◌, Option, some, All, any, if◌then◌else◌}
use mathlib.Core.Option
use hashden.Common.Text.{Text, text_eq}

module _ {Row : Type 0} where
  -- No id stands twice.
  abbrev pub HasDistinctIds : List (Text × Row) → Type 0
  HasDistinctIds [] = Unit {0}
  HasDistinctIds ((k, r) ∷ rows) =
      All (λ (e : Text × Row). text_eq e.0 k ≡ false) rows × HasDistinctIds rows

pub record RowStore (Row : Type 0) : Type 1 where
  pub Table : Type 0
  -- `findUnique({ where: { id } })`
  pub get : Text → Table → Option Row
  -- `update({ where: { id }, data })` of a row that is there
  pub put : Text → (Row → Row) → Table → Table
  -- `findMany({ where })`, in an order that is not specified
  pub select : (Row → Bool) → Table → List (Text × Row)
  pub get-put :
      (k j : Text) (f : Row → Row) (t : Table)
      → get j (put k f t) ≡ (if text_eq k j then Option.map f (get j t) else get j t)
  pub select-sound :
      (p : Row → Bool) (t : Table)
      → All (λ (e : Text × Row). (get e.0 t ≡ some e.1) × (p e.1 ≡ true)) (select p t)
  pub select-distinct : (p : Row → Bool) (t : Table) → HasDistinctIds (select p t)
  pub select-complete :
      (p : Row → Bool) (t : Table) (k : Text) (r : Row)
      → get k t ≡ some r
      → p r ≡ true
      → any (λ (e : Text × Row). text_eq e.0 k) (select p t) ≡ true
