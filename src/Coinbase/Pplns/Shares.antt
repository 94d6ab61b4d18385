-- ===== src/Coinbase/Pplns/Shares.antt =====
-- packages/coinbase/src/pplns.ts, the loop over the members: each member's share of the remaining
-- sats as a floor over the natural numbers, and the loop as two filters of the list of members.
use native.Mathlib.Nat.{div-mul-le_self, le_of_mul-le-mul_right}
use hashden.Common.{
  ℕ, ◌+◌, ◌*◌, ◌/◌, ◌≤◌, ◌<◌, ◌≡◌, refl, Bool, false, not, ◌&&◌, List, [], ◌∷◌, ◌++◌, map, arith,
  leb, ltb, All, sum_of, filterb, ◌∙◌, sym,
}
use mathlib.Core.List.{append_assoc, append-nil}
use hashden.Common.Int.{ℤ, pos, pos_part, ◌+ℤ◌, ltb_ℤ, pos_of_nonneg, +ℤ-zero, +ℤ-pos_assoc}
use hashden.Coinbase.Output.{PplnsMember, DustBreakdownEntry}
use hashden.Coinbase.Pplns.{Allocation, total_weight_from, allocate_member, allocate}

abbrev pub IsWeighed : PplnsMember → Type 0
IsWeighed m = ltb_ℤ m.share_weight (pos 0) ≡ false

abbrev pub weight : PplnsMember → ℕ
weight m = pos_part m.share_weight

-- A member's would-be sats.
abbrev pub owed : ℕ → ℕ → PplnsMember → ℕ
owed remaining total m = remaining * weight m / total

abbrev pub is_above : ℕ → ℕ → ℕ → PplnsMember → Bool
is_above remaining total threshold m = leb threshold (owed remaining total m)

abbrev pub is_dust : ℕ → ℕ → ℕ → PplnsMember → Bool
is_dust remaining total threshold m =
    not (leb threshold (owed remaining total m)) && ltb 0 (owed remaining total m)

pub total_weight_from-eq :
    (acc : ℕ) (ms : List PplnsMember)
    → All IsWeighed ms
    → total_weight_from (pos acc) ms ≡ pos (acc + sum_of weight ms)
unfolding total_weight_from
total_weight_from-eq acc [] h = ground arith
total_weight_from-eq acc (m ∷ ms) h =
    ground (arith, pos_of_nonneg m.share_weight h.0, total_weight_from-eq (acc + weight m) ms h.1)

module _ (remaining total : ℕ) where
  abbrev pub dust_entry : PplnsMember → DustBreakdownEntry
  dust_entry m = record {
    member_pubkey = m.member_pubkey;
    owed_sats = pos (owed remaining total m);
  }

  abbrev pub with_sats : PplnsMember → PplnsMember × ℤ
  with_sats m = (m, pos (owed remaining total m))

  owed-scaled :
      (ms : List PplnsMember)
      → sum_of (owed remaining total) ms * total ≤ remaining * sum_of weight ms
  owed-scaled [] = omega arith
  owed-scaled (m ∷ ms) = omega (arith, owed-scaled ms, div-mul-le_self (remaining * weight m) total)

  -- The floors of the shares of a whole never exceed it.
  pub sum-owed-le :
      (ms : List PplnsMember)
      → total ≡ sum_of weight ms
      → 0 < total
      → sum_of (owed remaining total) ms ≤ remaining
  sum-owed-le ms e h = le_of_mul-le-mul_right {k = total} (rw (← e) at (owed-scaled ms)) h

module _ (remaining total threshold : ℕ) where
  abbrev pub paid : List PplnsMember → List PplnsMember
  paid = filterb (is_above remaining total threshold)

  abbrev pub dusty : List PplnsMember → List PplnsMember
  dusty = filterb (is_dust remaining total threshold)

  -- Every sat that is owed goes to a paid member or to one with dust.
  pub sum-paid-dusty :
      (ms : List PplnsMember)
      → sum_of (owed remaining total) (paid ms) + sum_of (owed remaining total) (dusty ms)
        ≡ sum_of (owed remaining total) ms
  sum-paid-dusty [] = refl
  sum-paid-dusty (m ∷ ms) = ground (arith, sum-paid-dusty ms)

  -- What the loop has added to its variables when it has seen the members.
  abbrev pub allocated : Allocation → List PplnsMember → Allocation
  allocated a ms = record {
    above_dust = a.above_dust ++ map (with_sats remaining total) (paid ms);
    dust_breakdown = a.dust_breakdown ++ map (dust_entry remaining total) (dusty ms);
    dust_bucket_sats = a.dust_bucket_sats +ℤ pos (sum_of (owed remaining total) (dusty ms));
    allocated_sats = a.allocated_sats +ℤ pos (sum_of (owed remaining total) ms);
  }

  allocated-nil : (a : Allocation) → allocated a [] ≡ a
  allocated-nil a = ground (
    arith,
    append-nil a.above_dust,
    append-nil a.dust_breakdown,
    +ℤ-zero a.dust_bucket_sats,
    +ℤ-zero a.allocated_sats,
  )

  -- Two stretches of the loop make one.
  allocated-append :
      (a : Allocation) (m : PplnsMember) (ms : List PplnsMember)
      → allocated (allocated a (m ∷ [])) ms ≡ allocated a (m ∷ ms)
  allocated-append a m ms =
      let o = owed remaining total m in
      ground (
        arith,
        append_assoc a.above_dust (with_sats remaining total m ∷ [])
            (map (with_sats remaining total) (paid ms)),
        append-nil a.above_dust,
        append_assoc a.dust_breakdown (dust_entry remaining total m ∷ [])
            (map (dust_entry remaining total) (dusty ms)),
        append-nil a.dust_breakdown,
        +ℤ-pos_assoc a.dust_bucket_sats (o + 0) (sum_of (owed remaining total) (dusty ms)),
        +ℤ-zero a.dust_bucket_sats,
        +ℤ-pos_assoc a.allocated_sats (o + 0) (sum_of (owed remaining total) ms),
      )

  allocate_member-eq :
      (a : Allocation) (m : PplnsMember) (w : ℕ)
      → m.share_weight ≡ pos w
      → allocate_member (pos remaining) (pos total) (pos threshold) a m ≡ allocated a (m ∷ [])
  unfolding allocate_member
  allocate_member-eq a m w e = ground (
    arith,
    append-nil a.above_dust,
    append-nil a.dust_breakdown,
    +ℤ-zero a.dust_bucket_sats,
    +ℤ-zero a.allocated_sats,
  )

  -- The loop over members of weights that are not negative.
  pub allocate-eq :
      (a : Allocation) (ms : List PplnsMember)
      → All IsWeighed ms
      → allocate (pos remaining) (pos total) (pos threshold) a ms ≡ allocated a ms
  unfolding allocate
  allocate-eq a [] h = sym (allocated-nil a)
  allocate-eq a (m ∷ ms) h =
      rw (allocate_member-eq a m (weight m) (pos_of_nonneg m.share_weight h.0))
        (allocate-eq (allocated a (m ∷ [])) ms h.1 ∙ allocated-append a m ms)
