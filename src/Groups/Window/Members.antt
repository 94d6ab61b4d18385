-- ===== src/Groups/Window/Members.antt =====
-- packages/groups/src/pplns-window.ts, `computePplnsWindow`: the members of the window, and that the
-- coinbase builder accepts them.
use hashden.Common.{
  ℕ, zero, suc, ◌≡◌, refl, inl, inr, true, false, List, [], ◌∷◌, map, Option, none, some, ok, arith,
  All, if◌then◌else◌, Bool-cases, ◌∙◌, sym, ap, subst, Result-cases, any,
}
use hashden.Common.Int.{ℤ, pos}
use hashden.Common.Text.{Text, text_eq, text_eq_iff, text_eq_refl}
use hashden.Coinbase.Output.{JsNumber, int, non_integer, PplnsMember, is_empty}
use hashden.Coinbase.Pplns.{check_order, check_members}
use hashden.Coinbase.Pplns.Shares.{IsWeighed}
use hashden.Coinbase.Pplns.Validation.{IsAscending, IsAddressed, check_order_iff, check_members_iff}
use hashden.Groups.Window.{
  ShareRow, AddressRow, address_of, keep_addressed, with_addresses, sum_weights, resolve_members,
  compute_pplns_window,
}
use hashden.Groups.Window.Weights.{
  get_weight, weight_of, IsCounted, HasDistinctKeys, credited, sum_weights-IsCounted, weight_of-all,
}
use hashden.Groups.Window.Sorted.{
  Without, HasDistinctMembers, sort_members-All, sort_members-IsAscending, find_member,
  find_member-sort_members,
}

keep_addressed-All {κ} :
    (P : PplnsMember → Type κ) (k : Text) (w : ℤ) (address : Option Text) (ms : List PplnsMember)
    → ((a : Text)
        → is_empty a ≡ false
        → P (record { member_pubkey = k; btc_address = a; share_weight = w }))
    → All P ms
    → All P (keep_addressed k w address ms)
keep_addressed-All P k w none ms p h = h
keep_addressed-All P k w (some []) ms p h = h
keep_addressed-All P k w (some (c ∷ a)) ms p h = (p (c ∷ a) refl, h)

module _ (rows : List AddressRow) where
  with_addresses-Without :
      (k : Text) (m : List (Text × ℤ))
      → All (λ (e : Text × ℤ). text_eq e.0 k ≡ false) m
      → Without k (with_addresses rows m)
  unfolding with_addresses
  with_addresses-Without k [] h = tt
  with_addresses-Without k ((j, w) ∷ m) h =
      keep_addressed-All _ j w (address_of j rows) _ (λ a e. h.0) (with_addresses-Without k m h.1)

  with_addresses-HasDistinctMembers :
      (m : List (Text × ℤ)) → HasDistinctKeys m → HasDistinctMembers (with_addresses rows m)
  unfolding with_addresses
  with_addresses-HasDistinctMembers [] h = tt
  with_addresses-HasDistinctMembers ((k, w) ∷ m) h =
      ground (arith, with_addresses-Without k m h.0, with_addresses-HasDistinctMembers m h.1)

  with_addresses-accepted :
      (m : List (Text × ℤ))
      → All IsCounted m
      → All IsWeighed (with_addresses rows m) × All IsAddressed (with_addresses rows m)
  unfolding with_addresses
  with_addresses-accepted [] h = (tt, tt)
  with_addresses-accepted ((k, w) ∷ m) h =
      let (weighed, addressed) = with_addresses-accepted m h.1 in
      (
        keep_addressed-All IsWeighed k w (address_of k rows) _ (λ a e. ground arith) weighed,
        keep_addressed-All IsAddressed k w (address_of k rows) _ (λ a e. e) addressed,
      )

-- The entry of a public key that this weight and this address make.
abbrev pub entry : Text → ℕ → Option Text → Option PplnsMember
entry k zero address = none
entry k (suc n) none = none
entry k (suc n) (some address) =
    if is_empty address
    then none
    else some (record { member_pubkey = k; btc_address = address; share_weight = pos (suc n) })

find_member-Without : (k : Text) (ms : List PplnsMember) → Without k ms → find_member k ms ≡ none
unfolding find_member
find_member-Without k [] h = refl
find_member-Without k (m ∷ ms) h = ground (arith, find_member-Without k ms h.1)

find_member-keep_other :
    (k j : Text) (w : ℤ) (address : Option Text) (ms : List PplnsMember)
    → text_eq j k ≡ false
    → find_member k (keep_addressed j w address ms) ≡ find_member k ms
unfolding find_member
find_member-keep_other k j w none ms h = refl
find_member-keep_other k j w (some a) ms h = ground arith

find_member-keep_same :
    (k : Text) (n : ℕ) (address : Option Text) (ms : List PplnsMember)
    → Without k ms
    → find_member k (keep_addressed k (pos (suc n)) address ms) ≡ entry k (suc n) address
unfolding find_member
find_member-keep_same k n none ms h = find_member-Without k ms h
find_member-keep_same k n (some []) ms h = find_member-Without k ms h
find_member-keep_same k n (some (c ∷ a)) ms h = rw (text_eq_refl k) refl

find_member-with_addresses :
    (rows : List AddressRow) (k : Text) (m : List (Text × ℤ))
    → All IsCounted m
    → HasDistinctKeys m
    → find_member k (with_addresses rows m) ≡ entry k (weight_of k m) (address_of k rows)
unfolding with_addresses get_weight
find_member-with_addresses rows k [] c d = find_member-Without k [] tt
find_member-with_addresses rows k ((j, pos zero) ∷ m) c d = absurd (ground arith)
find_member-with_addresses rows k ((j, ℤ.negsuc n) ∷ m) c d = absurd (ground arith)
find_member-with_addresses rows k ((j, pos (suc n)) ∷ m) c d = elim (Bool-cases (text_eq j k)) [
  | inl same ↦
      let e : j ≡ k = (text_eq_iff j k).0 same in
      let apart : Without k (with_addresses rows m) =
        with_addresses-Without rows k m
          (subst (λ x. All (λ (y : Text × ℤ). text_eq y.0 x ≡ false) m) e d.0) in
      rw same (
        subst
          (λ x.
            find_member k
              (keep_addressed x (pos (suc n)) (address_of x rows) (with_addresses rows m))
            ≡ entry k (suc n) (address_of k rows))
          (sym e) (find_member-keep_same k n (address_of k rows) (with_addresses rows m) apart))
  | inr differs ↦ rw differs (
      find_member-keep_other k j (pos (suc n)) (address_of j rows) (with_addresses rows m) differs
      ∙ find_member-with_addresses rows k m c.1 d.1)
]

-- A key that the map has stands in the list of its keys.
has_key :
    (k : Text) (m : List (Text × ℤ)) (n : ℕ)
    → weight_of k m ≡ suc n
    → any (text_eq k) (map (λ (x : Text × ℤ). x.0) m) ≡ true
unfolding get_weight
has_key k [] n h = absurd (ground arith)
has_key k ((j, w) ∷ m) n h = ground (arith, has_key k m n, text_eq_iff j k, text_eq_iff k j)

module _ {D : Type 0} (scaled : D → Option ℤ) (find_shares : Text → ℕ → List (ShareRow D))
    (find_members : Text → List Text → List AddressRow) where
  compute-weights :
      (group_id : Text) (size : JsNumber) (ms : List PplnsMember)
      → compute_pplns_window scaled find_shares find_members group_id size ≡ ok ms
      → (n : ℕ) × (m : List (Text × ℤ)) × (size ≡ int (pos n))
        × (sum_weights scaled [] (find_shares group_id n) ≡ ok m)
        × (ms ≡ resolve_members scaled find_shares find_members group_id m)
  unfolding compute_pplns_window
  compute-weights group_id non_integer ms h = cc
  compute-weights group_id (int (pos n)) ms h =
      elim (Result-cases (sum_weights scaled [] (find_shares group_id n))) [
        | inl (m, summed) ↦ (n, m, refl, summed, ground arith)
        | inr (e, thrown) ↦ absurd (ground arith)
      ]
  compute-weights group_id (int (ℤ.negsuc n)) ms h = absurd (ground arith)

  resolve-accepted :
      (group_id : Text) (m : List (Text × ℤ))
      → All IsCounted m
      → HasDistinctKeys m
      → IsAscending (resolve_members scaled find_shares find_members group_id m)
        × All IsWeighed (resolve_members scaled find_shares find_members group_id m)
        × All IsAddressed (resolve_members scaled find_shares find_members group_id m)
  unfolding resolve_members
  resolve-accepted group_id [] c d = (tt, tt, tt)
  resolve-accepted group_id (e ∷ m) c d =
      let rows = find_members group_id (map (λ (x : Text × ℤ). x.0) (e ∷ m)) in
      let (weighed, addressed) = with_addresses-accepted rows (e ∷ m) c in
      (
        sort_members-IsAscending _ (with_addresses-HasDistinctMembers rows (e ∷ m) d),
        sort_members-All IsWeighed _ weighed,
        sort_members-All IsAddressed _ addressed,
      )

  -- The window is always a list that the coinbase builder accepts: strictly sorted by public key,
  -- with weights that are not negative and addresses that are not empty.
  pub compute_pplns_window-accepted :
      (group_id : Text) (size : JsNumber) (ms : List PplnsMember)
      → compute_pplns_window scaled find_shares find_members group_id size ≡ ok ms
      → (check_order 1 ms ≡ ok tt) × (check_members ms ≡ ok tt)
  compute_pplns_window-accepted group_id size ms h =
      let (n, m, sized, summed, same) = compute-weights group_id size ms h in
      let (counted, distinct) =
        sum_weights-IsCounted scaled [] m (find_shares group_id n) tt tt summed in
      let (ascending, weighed, addressed) = resolve-accepted group_id m counted distinct in
      (
        rw same ((check_order_iff 1 _).1 ascending),
        rw same ((check_members_iff _).1 (weighed, addressed)),
      )

  -- `member.findMany` answers for each key that it is asked: `book` is the member table.
  abbrev pub IsBook : Text → (Text → Option Text) → Type 0
  IsBook group_id book =
      (keys : List Text) (k : Text)
      → any (text_eq k) keys ≡ true
      → address_of k (find_members group_id keys) ≡ book k

  entry-book :
      (group_id k : Text) (book : Text → Option Text) (m : List (Text × ℤ)) (w : ℕ)
      → IsBook group_id book
      → weight_of k m ≡ w
      → entry k w (address_of k (find_members group_id (map (λ (x : Text × ℤ). x.0) m)))
        ≡ entry k w (book k)
  entry-book group_id k book m zero b h = refl
  entry-book group_id k book m (suc n) b h =
      ap (entry k (suc n)) (b (map (λ (x : Text × ℤ). x.0) m) k (has_key k m n h))

  find_member-resolve :
      (group_id k : Text) (book : Text → Option Text) (m : List (Text × ℤ))
      → IsBook group_id book
      → All IsCounted m
      → HasDistinctKeys m
      → find_member k (resolve_members scaled find_shares find_members group_id m)
        ≡ entry k (weight_of k m) (book k)
  unfolding resolve_members get_weight
  find_member-resolve group_id k book [] b c d = find_member-Without k [] tt
  find_member-resolve group_id k book (e ∷ m) b c d =
      let rows = find_members group_id (map (λ (x : Text × ℤ). x.0) (e ∷ m)) in
      find_member-sort_members k _ (with_addresses-HasDistinctMembers rows (e ∷ m) d)
      ∙ find_member-with_addresses rows k (e ∷ m) c d
      ∙ entry-book group_id k book (e ∷ m) _ b refl

  -- A public key has an entry exactly if its shares in the window count for something and the
  -- member table has an address for it, and its weight is what those shares count for.
  pub compute_pplns_window-entry :
      (group_id k : Text) (n : ℕ) (ms : List PplnsMember) (book : Text → Option Text)
      → IsBook group_id book
      → compute_pplns_window scaled find_shares find_members group_id (int (pos n)) ≡ ok ms
      → find_member k ms ≡ entry k (credited scaled k (find_shares group_id n)) (book k)
  compute_pplns_window-entry group_id k n ms book b h =
      let (n', m, sized, summed, same) = compute-weights group_id (int (pos n)) ms h in
      let same_n : n' ≡ n = ground arith in
      let (counted, distinct) =
        sum_weights-IsCounted scaled [] m (find_shares group_id n') tt tt summed in
      let weighs : weight_of k m ≡ credited scaled k (find_shares group_id n) =
        weight_of-all scaled k m (find_shares group_id n') summed
        ∙ ap (λ x. credited scaled k (find_shares group_id x)) same_n in
      rw same (
        find_member-resolve group_id k book m b counted distinct
        ∙ ap (λ x. entry k x (book k)) weighs)
