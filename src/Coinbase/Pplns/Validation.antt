-- ===== src/Coinbase/Pplns/Validation.antt =====
-- packages/coinbase/src/pplns.ts, `validatePplnsInput`: the inputs that the builder accepts.
use hashden.Common.{ℕ, suc, ◌≡◌, ◌↔◌, true, false, List, [], ◌∷◌, ok, arith, All}
use hashden.Common.Int.{pos, ltb_ℤ}
use hashden.Common.Text.{text_lt}
use hashden.Coinbase.Output.{PplnsMember, is_empty}
use hashden.Coinbase.Pplns.{PplnsInput, check_order, check_members, validate_pplns_input}
use hashden.Coinbase.Pplns.Shares.{IsWeighed}

-- Each public key comes before the next.
abbrev pub IsAscending : List PplnsMember → Type 0
IsAscending [] = Unit {0}
IsAscending (m ∷ []) = Unit {0}
IsAscending (m ∷ n ∷ ms) = (text_lt m.member_pubkey n.member_pubkey ≡ true) × IsAscending (n ∷ ms)

abbrev pub IsAddressed : PplnsMember → Type 0
IsAddressed m = is_empty m.btc_address ≡ false

pub record IsValidInput (input : PplnsInput) : Type 0 where
  pub operator_addressed : is_empty input.operator_btc_address ≡ false
  pub platform_addressed : is_empty input.platform_btc_address ≡ false
  pub threshold : ltb_ℤ input.dust_threshold_sats (pos 0) ≡ false
  pub ascending : IsAscending input.members
  pub weighed : All IsWeighed input.members
  pub addressed : All IsAddressed input.members

pub check_order_iff : (i : ℕ) (ms : List PplnsMember) → (check_order i ms ≡ ok tt) ↔ IsAscending ms
unfolding check_order
check_order_iff i [] = ground arith
check_order_iff i (m ∷ []) = ground arith
check_order_iff i (m ∷ n ∷ ms) = ground (arith, check_order_iff (suc i) (n ∷ ms))

pub check_members_iff :
    (ms : List PplnsMember) → (check_members ms ≡ ok tt) ↔ (All IsWeighed ms × All IsAddressed ms)
unfolding check_members
check_members_iff [] = ground arith
check_members_iff (m ∷ ms) = ground (arith, check_members_iff ms)

pub validate_pplns_input_iff :
    (input : PplnsInput) → (validate_pplns_input input ≡ ok tt) ↔ IsValidInput input
unfolding validate_pplns_input
validate_pplns_input_iff input =
    ground (arith, check_order_iff 1 input.members, check_members_iff input.members)
