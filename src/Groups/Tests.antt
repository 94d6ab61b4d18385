-- ===== src/Groups/Tests.antt =====
-- packages/groups/src: runs at fixed inputs, and the theorems applied to them.
use hashden.Common.{
  ℕ, ◌≡◌, refl, ap, Bool, true, false, List, [], ◌∷◌, ◌++◌, filterb, any, Option, none, some, ok,
  if◌then◌else◌, Bool-cases, inl, inr, sym, ◌∙◌, subst,
}
use hashden.Common.Int.{ℤ, pos}
use hashden.Common.Text.{Text, codes, text_eq, text_lt, text_eq_iff}
use hashden.Coinbase.Output.{int, PplnsMember}
use hashden.Coinbase.Pplns.{check_order, check_members}
use hashden.Shared.Pattern.{split, repeats, is_hex, is_digit, is_lower}
use hashden.Shared.WorkerName.{
  Decoded, JsValue, string, parsed, parse_worker_name, parse_parts, parse_fields, strip_payout,
  normalize_pubkey, is_pubkey_hex, is_slug, is_slug_rest, is_slug_end, is_slug_char,
}
use hashden.Groups.Router.{GroupRow, MemberRow, Route, routed, route}
use hashden.Groups.Router.Decision.{IsRoutable, route_iff}
use hashden.Groups.Window.{
  ShareRow, AddressRow, add_weight, address_of, with_addresses, insert_member, sort_members,
  sum_weights, resolve_members, compute_pplns_window,
}
use hashden.Groups.Window.Weights.{credited}
use hashden.Groups.Window.Sorted.{find_member}
use hashden.Groups.Window.Members.{
  entry, IsBook, compute_pplns_window-accepted, compute_pplns_window-entry,
}

abbrev decode : Text → Option Decoded
decode t = none

abbrev key : Text
key = codes "0123456789abcdef0123456789abcdef0123456789abcdef0123456789abcdef"

-- One den, which is open or deleted, with one member.
abbrev find_group : Text → Text → Option GroupRow
find_group visibility slug = some (record { id = codes "g1"; visibility = visibility })

abbrev find_row : Text → Text → Option MemberRow
find_row group_id pubkey =
    if text_eq pubkey key
    then some (record { group_id = group_id; btc_address = codes "bc1aa" })
    else none

abbrev name : JsValue
name = string (codes "den." ++ key)

abbrev sent_to : Route
sent_to = record {
  group_id = codes "g1";
  member_pubkey = key;
  btc_address = codes "bc1aa";
  worker_id = none;
}

name_parsed : parse_worker_name decode name ≡ parsed (codes "den") key none
unfolding parse_worker_name parse_parts parse_fields strip_payout split normalize_pubkey
    is_pubkey_hex repeats is_hex is_digit is_lower is_slug is_slug_rest is_slug_end is_slug_char
name_parsed = refl

name_routed : route decode (find_group (codes "PUBLIC")) find_row name ≡ routed sent_to
unfolding route text_eq
name_routed = rw name_parsed refl

route_iff_example : IsRoutable decode (find_group (codes "PUBLIC")) find_row name sent_to
route_iff_example =
    (route_iff decode (find_group (codes "PUBLIC")) find_row name sent_to).0 name_routed

deleted_text : text_eq (codes "DELETED") (codes "DELETED") ≡ true
unfolding text_eq
deleted_text = refl

-- Difficulties are integers here, and BigInt takes each.
abbrev scaled : ℤ → Option ℤ
scaled d = some d

abbrev share : Text → ℤ → ShareRow ℤ
share k d = record { member_pubkey = k; difficulty = d }

-- Two shares of bb, one of aa, and one of cc, who has no address any more.
abbrev find_shares : Text → ℕ → List (ShareRow ℤ)
find_shares group_id n =
    share (codes "bb") (pos 5)
    ∷ share (codes "aa") (pos 3)
    ∷ share (codes "cc") (pos 9)
    ∷ share (codes "bb") (pos 2)
    ∷ []

abbrev address_rows : List AddressRow
address_rows =
    record { member_pubkey = codes "aa"; btc_address = codes "bc1aa" }
    ∷ record { member_pubkey = codes "bb"; btc_address = codes "bc1bb" }
    ∷ []

-- The rows that are asked for.
abbrev find_members : Text → List Text → List AddressRow
find_members group_id keys =
    filterb (λ (row : AddressRow). any (text_eq row.member_pubkey) keys) address_rows

abbrev window : List PplnsMember
window =
    record { member_pubkey = codes "aa"; btc_address = codes "bc1aa"; share_weight = pos 3 }
    ∷ record { member_pubkey = codes "bb"; btc_address = codes "bc1bb"; share_weight = pos 7 }
    ∷ []

window_computed :
    compute_pplns_window scaled find_shares find_members (codes "g1") (int (pos 10)) ≡ ok window
unfolding compute_pplns_window sum_weights add_weight resolve_members with_addresses address_of
    sort_members insert_member text_eq text_lt
window_computed = refl

compute_pplns_window-accepted_example :
    (check_order 1 window ≡ ok tt) × (check_members window ≡ ok tt)
compute_pplns_window-accepted_example =
    compute_pplns_window-accepted scaled find_shares find_members (codes "g1") (int (pos 10)) window
      window_computed

abbrev book : Text → Option Text
book k = address_of k address_rows

true_is_not_false : true ≡ false → ⊥
true_is_not_false e = cc

-- A query for keys finds the row of each of them.
address_of-filterb :
    (keys : List Text) (k : Text) (rows : List AddressRow)
    → any (text_eq k) keys ≡ true
    → address_of k (filterb (λ (row : AddressRow). any (text_eq row.member_pubkey) keys) rows)
      ≡ address_of k rows
unfolding address_of
address_of-filterb keys k [] asked = refl
address_of-filterb keys k (row ∷ rows) asked =
    let rest = address_of-filterb keys k rows asked in
    elim (Bool-cases (any (text_eq row.member_pubkey) keys)) [
      | inl kept ↦ rw kept (
          ap
            (λ (o : Option Text). elim o [
              | some address ↦ some address
              | none ↦ if text_eq row.member_pubkey k then some row.btc_address else none
            ])
            rest)
      | inr left ↦ rw left (
          rest
          ∙ unchanged (text_eq row.member_pubkey k) (address_of k rows)
              (elim (Bool-cases (text_eq row.member_pubkey k)) [
                | inl same ↦ absurd (
                    true_is_not_false (
                      sym (
                        subst (λ j. any (text_eq j) keys ≡ true)
                          (sym ((text_eq_iff row.member_pubkey k).0 same)) asked)
                      ∙ left))
                | inr apart ↦ apart
              ]))
    ]
  where
    unchanged :
        (b : Bool) (o : Option Text)
        → b ≡ false
        → o
          ≡ elim o [ some address ↦ some address | none ↦ if b then some row.btc_address else none ]
    unchanged b none e = rw e refl
    unchanged b (some address) e = refl

book_agrees : IsBook scaled find_shares find_members (codes "g1") book
book_agrees keys k asked = address_of-filterb keys k address_rows asked

compute_pplns_window-entry_example :
    find_member (codes "bb") window
    ≡ entry
        (codes "bb")
        (credited scaled (codes "bb") (find_shares (codes "g1") 10))
        (book (codes "bb"))
compute_pplns_window-entry_example =
    compute_pplns_window-entry scaled find_shares find_members (codes "g1") (codes "bb") 10 window
      book book_agrees window_computed
