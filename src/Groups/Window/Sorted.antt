-- ===== src/Groups/Window/Sorted.antt =====
-- packages/groups/src/pplns-window.ts, `result.sort`: the order of the members.
use hashden.Common.{
  ◌≡◌, refl, true, false, List, [], ◌∷◌, Option, none, some, arith, All, if◌then◌else◌,
}
use hashden.Common.Text.{Text, text_eq, text_eq_iff, text_lt, text_lt_total}
use hashden.Coinbase.Output.{PplnsMember}
use hashden.Coinbase.Pplns.Validation.{IsAscending}
use hashden.Groups.Window.{insert_member, sort_members}

-- No member of the list has the public key.
abbrev pub Without : Text → List PplnsMember → Type 0
Without k = All (λ (m : PplnsMember). text_eq m.member_pubkey k ≡ false)

abbrev pub HasDistinctMembers : List PplnsMember → Type 0
HasDistinctMembers [] = Unit {0}
HasDistinctMembers (m ∷ ms) = Without m.member_pubkey ms × HasDistinctMembers ms

module _ {κ} (P : PplnsMember → Type κ) where
  pub insert_member-All :
      (m : PplnsMember) (ms : List PplnsMember) → P m → All P ms → All P (insert_member m ms)
  unfolding insert_member
  insert_member-All m [] p h = (p, tt)
  insert_member-All m (n ∷ ns) p h = ground (arith, insert_member-All m ns p h.1)

  pub sort_members-All : (ms : List PplnsMember) → All P ms → All P (sort_members ms)
  unfolding sort_members
  sort_members-All [] h = tt
  sort_members-All (m ∷ ms) h = insert_member-All m (sort_members ms) h.0 (sort_members-All ms h.1)

after_of_differs : (s t : Text) → text_lt s t ≡ false → text_eq t s ≡ false → text_lt t s ≡ true
after_of_differs s t h d = text_lt_total s t h (λ (e : s ≡ t). ground (arith, text_eq_iff t s))

insert_member-IsAscending :
    (m : PplnsMember) (ms : List PplnsMember)
    → IsAscending ms
    → Without m.member_pubkey ms
    → IsAscending (insert_member m ms)
unfolding insert_member
insert_member-IsAscending m [] a w = tt
insert_member-IsAscending m (n ∷ []) a w =
    ground (arith, after_of_differs m.member_pubkey n.member_pubkey)
insert_member-IsAscending m (n ∷ o ∷ ms) a w = ground (
  arith,
  after_of_differs m.member_pubkey n.member_pubkey,
  insert_member-IsAscending m (o ∷ ms) a.1 w.1,
)

-- Members of distinct keys are sorted strictly.
pub sort_members-IsAscending :
    (ms : List PplnsMember) → HasDistinctMembers ms → IsAscending (sort_members ms)
unfolding sort_members
sort_members-IsAscending [] h = tt
sort_members-IsAscending (m ∷ ms) h =
    insert_member-IsAscending m (sort_members ms) (sort_members-IsAscending ms h.1) (
      sort_members-All (λ (n : PplnsMember). text_eq n.member_pubkey m.member_pubkey ≡ false) ms
        h.0)

-- The member with a public key.
unfoldable pub find_member : Text → List PplnsMember → Option PplnsMember
find_member k [] = none
find_member k (m ∷ ms) = if text_eq m.member_pubkey k then some m else find_member k ms

find_member-insert_member :
    (k : Text) (m : PplnsMember) (ms : List PplnsMember)
    → Without m.member_pubkey ms
    → find_member k (insert_member m ms)
      ≡ (if text_eq m.member_pubkey k then some m else find_member k ms)
unfolding find_member insert_member
find_member-insert_member k m [] w = refl
find_member-insert_member k m (n ∷ ns) w = ground (
  arith,
  find_member-insert_member k m ns w.1,
  text_eq_iff m.member_pubkey k,
  text_eq_iff n.member_pubkey k,
  text_eq_iff n.member_pubkey m.member_pubkey,
)

-- Sorting loses no member and makes none up.
pub find_member-sort_members :
    (k : Text) (ms : List PplnsMember)
    → HasDistinctMembers ms
    → find_member k (sort_members ms) ≡ find_member k ms
unfolding find_member sort_members
find_member-sort_members k [] h = refl
find_member-sort_members k (m ∷ ms) h = ground (
  arith,
  find_member-insert_member k m (sort_members ms) (
      sort_members-All (λ (n : PplnsMember). text_eq n.member_pubkey m.member_pubkey ≡ false) ms
        h.0),
  find_member-sort_members k ms h.1,
)
