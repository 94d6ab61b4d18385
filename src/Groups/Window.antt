-- ===== src/Groups/Window.antt =====
-- packages/groups/src/pplns-window.ts: the weights of the members of a den over its last shares.
-- The two Prisma queries are parameters, and so is the float arithmetic of a share's difficulty:
-- `scaled d` is `BigInt(Math.round(d * 1_000_000))`, `none` where BigInt throws.
pub mod Weights
pub mod Sorted
pub mod Members
use hashden.Common.{
  ℕ, Bool, true, false, ◌||◌, List, [], ◌∷◌, map, Option, none, some, Result, ok, err, throw_if,
  ◌>>=◌, ◌>>◌, if◌then◌else◌,
}
use hashden.Common.Int.{ℤ, pos, ◌+ℤ◌, leb_ℤ, pos_part}
use hashden.Common.Text.{Text, text_eq, text_lt}
use hashden.Coinbase.Output.{JsNumber, int, non_integer, PplnsMember, is_empty}

pub data WindowError : Type 0 where
  window_size_invalid group_id_required range_error : WindowError

pub record ShareRow (D : Type 0) : Type 0 where
  pub member_pubkey : Text
  pub difficulty : D

pub record AddressRow : Type 0 where
  pub member_pubkey : Text
  pub btc_address : Text

-- `windowSize <= 0 || !Number.isInteger(windowSize)`
abbrev pub size_invalid : JsNumber → Bool
size_invalid non_integer = true
size_invalid (int n) = leb_ℤ n (pos 0)

-- A `Map<string, bigint>` is the list of its entries in the order of insertion. This is
-- `map.set(k, (map.get(k) ?? 0n) + w)`.
unfoldable pub add_weight : Text → ℤ → List (Text × ℤ) → List (Text × ℤ)
add_weight k w [] = (k, pos 0 +ℤ w) ∷ []
add_weight k w ((j, v) ∷ m) = if text_eq j k then (j, v +ℤ w) ∷ m else (j, v) ∷ add_weight k w m

-- `map.get(k)` on a Map built from a list of rows: a later row replaces an earlier one.
unfoldable pub address_of : Text → List AddressRow → Option Text
address_of k [] = none
address_of k (row ∷ rows) = elim (address_of k rows) [
  | some address ↦ some address
  | none ↦ if text_eq row.member_pubkey k then some row.btc_address else none
]

-- A weight becomes a member if its address is known and not empty.
abbrev pub keep_addressed : Text → ℤ → Option Text → List PplnsMember → List PplnsMember
keep_addressed k w none members = members
keep_addressed k w (some address) members =
    if is_empty address
    then members
    else record { member_pubkey = k; btc_address = address; share_weight = w } ∷ members

unfoldable pub with_addresses : List AddressRow → List (Text × ℤ) → List PplnsMember
with_addresses rows [] = []
with_addresses rows ((k, w) ∷ m) = keep_addressed k w (address_of k rows) (with_addresses rows m)

-- `result.sort((a, b) => (a.memberPubkey < b.memberPubkey ? -1 : 1))`; the keys are distinct, so
-- the sorted list does not depend on the algorithm.
unfoldable pub insert_member : PplnsMember → List PplnsMember → List PplnsMember
insert_member m [] = m ∷ []
insert_member m (n ∷ ns) =
    if text_lt m.member_pubkey n.member_pubkey then m ∷ n ∷ ns else n ∷ insert_member m ns

unfoldable pub sort_members : List PplnsMember → List PplnsMember
sort_members [] = []
sort_members (m ∷ ms) = insert_member m (sort_members ms)

module _ {D : Type 0} (scaled : D → Option ℤ) where
  -- The loop over the shares; a share that rounds to nothing is skipped.
  unfoldable pub sum_weights :
      List (Text × ℤ) → List (ShareRow D) → Result WindowError (List (Text × ℤ))
  sum_weights m [] = ok m
  sum_weights m (s ∷ shares) = elim (scaled s.difficulty) [
    | none ↦ err range_error
    | some w ↦ sum_weights (if leb_ℤ w (pos 0) then m else add_weight s.member_pubkey w m) shares
  ]

  module _ (find_shares : Text → ℕ → List (ShareRow D))
      (find_members : Text → List Text → List AddressRow) where
    -- Without shares, or without a share that counts, there is no query for members.
    unfoldable pub resolve_members : Text → List (Text × ℤ) → List PplnsMember
    resolve_members group_id [] = []
    resolve_members group_id (e ∷ m) =
        let weights : List (Text × ℤ) = e ∷ m in
        sort_members
          (with_addresses (find_members group_id (map (λ (x : Text × ℤ). x.0) weights)) weights)

    unfoldable pub compute_pplns_window : Text → JsNumber → Result WindowError (List PplnsMember)
    compute_pplns_window group_id (int n) = do
      throw_if (size_invalid (int n)) window_size_invalid
      throw_if (is_empty group_id) group_id_required
      weights ← sum_weights [] (find_shares group_id (pos_part n))
      ok (resolve_members group_id weights)
    compute_pplns_window group_id non_integer = err window_size_invalid
