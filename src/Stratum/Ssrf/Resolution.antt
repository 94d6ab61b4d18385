-- ===== src/Stratum/Ssrf/Resolution.antt =====
-- apps/stratum/src/hashden/api/ssrf-guard.ts: classification of an address, and the resolution of a host
-- to an address that may be connected to. `net.isIPv4`, `net.isIPv6` and `lookup` are parameters; an error
-- of the lookup carries nothing that the code reads.
use hashden.Common.{
  ℕ, ◌≡◌, ◌↔◌, ap, sym, subst, Bool, true, not, List, [], ◌∷◌, Option, none, some, Result, ok, err,
  if◌then◌else◌, all, arith,
}
use hashden.Common.Text.{Text}
use hashden.Stratum.Ssrf.Ipv4.{ipv4_to_int, is_disallowed_ipv4}
use hashden.Stratum.Ssrf.Ipv6.{ipv6_to_big_int, is_disallowed_ipv6}

pub data ResolveResult : Type 0 where
  resolved : Text → ResolveResult
  private_host unreachable : ResolveResult

abbrev pub judge_v4 : Option ℕ → Bool
judge_v4 none = true
judge_v4 (some n) = is_disallowed_ipv4 n

abbrev pub judge_v6 : Option ℕ → Bool
judge_v6 none = true
judge_v6 (some n) = is_disallowed_ipv6 n

answer-inj : {E A : Type 0} {xs ys : A} → ◌≡◌ {A = Result E A} (ok xs) (ok ys) → xs ≡ ys
answer-inj h = cc

head-inj : {A : Type 0} {x y : A} {xs ys : List A} → ◌≡◌ {A = List A} (x ∷ xs) (y ∷ ys) → x ≡ y
head-inj h = cc

module _ (is_ipv4 is_ipv6 : Text → Bool) where
  unfoldable pub is_disallowed_ip : Text → Bool
  is_disallowed_ip ip =
      if is_ipv4 ip
      then judge_v4 (ipv4_to_int ip)
      else if is_ipv6 ip
      then judge_v6 (ipv6_to_big_int ip)
      else true

  module _ {E : Type 0} (lookup : Text → Result E (List Text)) where
    -- The loop over the records, and the return behind it.
    abbrev pub check_records : Text → List Text → ResolveResult
    check_records first [] = resolved first
    check_records first (r ∷ records) =
        if is_disallowed_ip r then private_host else check_records first records

    abbrev pub check_answer : Result E (List Text) → ResolveResult
    check_answer (err e) = unreachable
    check_answer (ok []) = unreachable
    check_answer (ok (r ∷ records)) = check_records r (r ∷ records)

    unfoldable pub resolve_public_ip : Text → ResolveResult
    resolve_public_ip host = check_answer (lookup host)

    check_records_iff :
        (first ip : Text) (records : List Text)
        → (check_records first records ≡ resolved ip)
          ↔ ((all (λ r. not (is_disallowed_ip r)) records ≡ true) × (first ≡ ip))
    check_records_iff first ip [] = ground arith
    check_records_iff first ip (r ∷ records) = ground (arith, check_records_iff first ip records)

    check_answer_iff :
        (answer : Result E (List Text)) (ip : Text)
        → (check_answer answer ≡ resolved ip) ↔ (
            (rest : List Text) × (answer ≡ ok (ip ∷ rest))
            × (all (λ r. not (is_disallowed_ip r)) (ip ∷ rest) ≡ true))
    check_answer_iff (err e) ip = ((λ h. cc), (λ (rest, h, p). cc))
    check_answer_iff (ok []) ip = ((λ h. cc), (λ (rest, h, p). cc))
    check_answer_iff (ok (r ∷ records)) ip =
        let parts = check_records_iff r ip (r ∷ records) in
        (
          (λ h.
              let (p, same) = parts.0 h in
              (
                records,
                ap (λ x. ok (x ∷ records)) same,
                subst (λ x. all (λ r. not (is_disallowed_ip r)) (x ∷ records) ≡ true) same p,
              )),
          (λ (rest, h, p). parts.1 (
            subst (λ l. all (λ r. not (is_disallowed_ip r)) l ≡ true) (sym (answer-inj h)) p,
            head-inj (answer-inj h),
          )),
        )

    -- A host is resolved to an address exactly if the lookup answers with that address first and every
    -- address of the answer is public: an address is valid and in none of the refused ranges.
    pub resolve_public_ip_iff :
        (host ip : Text)
        → (resolve_public_ip host ≡ resolved ip) ↔ (
            (rest : List Text) × (lookup host ≡ ok (ip ∷ rest))
            × (all (λ r. not (is_disallowed_ip r)) (ip ∷ rest) ≡ true))
    unfolding resolve_public_ip
    resolve_public_ip_iff host ip = check_answer_iff (lookup host) ip
