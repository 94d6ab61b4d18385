-- ===== src/Stratum/Client/Submission/Duplicates.antt =====
-- apps/stratum/src/models/StratumV1Client.ts: `miningSubmissionHashes`, over the submissions that a
-- connection makes between two clearings of it.
use hashden.Common.{
  ℕ, ◌≡◌, refl, ap, ◌∙◌, Bool, true, false, ◌||◌, List, [], ◌∷◌, ◌++◌, Option, arith, any, inl, inr,
  Bool-cases,
}
use hashden.Common.Text.{Text, text_eq, text_eq_iff, text_eq_refl}
use hashden.Stratum.Jobs.{JobsService}
use hashden.Stratum.Messages.{Json, MiningSubmit}
use hashden.Stratum.Client.{Client, Pool}
use hashden.Stratum.Client.Effects.{Chain}
use hashden.Stratum.Client.Submission.{
  Verdict, accepted_share, refused_share, crashed, submission_hash, handle_mining_submission,
}
use hashden.Stratum.Client.Submission.Outcome.{Remembered, handle_mining_submission-Settlement}

-- A submission, with the jobs that there are when it comes.
pub record Submitted (N : Type 0) : Type 0 where
  pub at : ℕ → ℕ
  pub request_id : Option (Json N)
  pub submission : MiningSubmit
  pub service : JobsService N

abbrev pub credit_if : Verdict → Text → List Text
credit_if accepted_share hash = hash ∷ []
credit_if _ hash = []

abbrev pub Once : List Text → Type 0
Once [] = Unit
Once (x ∷ xs) = any (text_eq x) xs ≡ false × Once xs

any-append : (p : Text → Bool) (xs ys : List Text) → any p (xs ++ ys) ≡ (any p xs || any p ys)
any-append p [] ys = refl
any-append p (x ∷ xs) ys = ground (arith, any-append p xs ys)

-- A known hash, and one that is not, are two.
text_eq_apart :
    (x hash : Text) (hs : List Text)
    → any (text_eq x) hs ≡ true
    → any (text_eq hash) hs ≡ false
    → text_eq x hash ≡ false
text_eq_apart x hash hs known fresh = elim (Bool-cases (text_eq x hash)) [
  | inl same ↦ absurd (ground (arith, ap (λ h. any (text_eq h) hs) ((text_eq_iff x hash).0 same)))
  | inr apart ↦ apart
]

module _ {N : Type 0} (pool : Pool N) (chain : Chain N) where
  -- The hashes of the shares that are credited, in the order of the submissions.
  unfoldable pub credited : List (Submitted N) → Client N → List Text
  credited [] c = []
  credited (x ∷ xs) c =
      let h = handle_mining_submission pool chain x.at x.request_id x.submission c x.service in
      credit_if h.verdict (submission_hash pool chain x.submission) ++ credited xs h.client

  Grows : Client N → Client N → Type 0
  Grows c c' =
      (x : Text)
      → any (text_eq x) c.submission_hashes ≡ true
      → any (text_eq x) c'.submission_hashes ≡ true

  Grows-Remembered :
      (hash : Text) (c c' : Client N) (v : Verdict) → Remembered pool chain hash c c' v → Grows c c'
  unfolding Grows
  Grows-Remembered hash c c' accepted_share h x known = rw h.1 (ground (arith, known))
  Grows-Remembered hash c c' refused_share (inl same) x known = rw same known
  Grows-Remembered hash c c' refused_share (inr more) x known = rw more (ground (arith, known))
  Grows-Remembered hash c c' crashed (inl same) x known = rw same known
  Grows-Remembered hash c c' crashed (inr more) x known = rw more (ground (arith, known))

  -- A hash that was known is not the credited one.
  credit_if-apart :
      (hash x : Text) (c c' : Client N) (v : Verdict)
      → Remembered pool chain hash c c' v
      → any (text_eq x) c.submission_hashes ≡ true
      → any (text_eq x) (credit_if v hash) ≡ false
  credit_if-apart hash x c c' accepted_share h known =
      rw (text_eq_apart x hash c.submission_hashes known h.0) refl
  credit_if-apart hash x c c' refused_share h known = refl
  credit_if-apart hash x c c' crashed h known = refl

  credited-fresh :
      (xs : List (Submitted N)) (c : Client N) (x : Text)
      → any (text_eq x) c.submission_hashes ≡ true
      → any (text_eq x) (credited xs c) ≡ false
  unfolding credited Grows
  credited-fresh [] c x known = refl
  credited-fresh (a ∷ xs) c x known =
      let outcome =
        handle_mining_submission-Settlement pool chain a.at a.request_id a.submission c a.service in
      let h = handle_mining_submission pool chain a.at a.request_id a.submission c a.service in
      let hash = submission_hash pool chain a.submission in
      any-append (text_eq x) (credit_if h.verdict hash) (credited xs h.client)
      ∙ rw (credit_if-apart hash x c h.client h.verdict outcome.2.1 known) (
          credited-fresh xs h.client x
            (Grows-Remembered hash c h.client h.verdict outcome.2.1 x known))

  Once-credit_if :
      (hash : Text) (c c' : Client N) (v : Verdict) (hs : List Text)
      → Remembered pool chain hash c c' v
      → ((x : Text) → any (text_eq x) c'.submission_hashes ≡ true → any (text_eq x) hs ≡ false)
      → Once hs
      → Once (credit_if v hash ++ hs)
  Once-credit_if hash c c' accepted_share hs h fresh once =
      (fresh hash (rw (h.1, text_eq_refl hash) refl), once)
  Once-credit_if hash c c' refused_share hs h fresh once = once
  Once-credit_if hash c c' crashed hs h fresh once = once

  -- However a connection repeats its submissions, and whatever the jobs are at each, no hash of a
  -- submission is credited twice between two clearings of the set of hashes.
  pub credited-Once : (xs : List (Submitted N)) (c : Client N) → Once (credited xs c)
  unfolding credited
  credited-Once [] c = tt
  credited-Once (a ∷ xs) c =
      let outcome =
        handle_mining_submission-Settlement pool chain a.at a.request_id a.submission c a.service in
      let h = handle_mining_submission pool chain a.at a.request_id a.submission c a.service in
      Once-credit_if (submission_hash pool chain a.submission) c h.client h.verdict
        (credited xs h.client) outcome.2.1 (credited-fresh xs h.client) (credited-Once xs h.client)
