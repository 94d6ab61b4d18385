-- ===== src/Stratum/Client/Submission/Outcome.antt =====
-- apps/stratum/src/models/StratumV1Client.ts: what `handleMiningSubmission` does on each of its ends.
use hashden.Common.{
  ℕ, ◌≡◌, refl, Bool, true, false, if◌then◌else◌, List, [], ◌∷◌, ◌++◌, Option, none, some, any, ◌⊎◌,
  inl, inr, Bool-cases,
}
use hashden.Common.Text.{Text, codes, text_eq}
use hashden.Stratum.Jobs.{JobsService, get_job_by_id}
use hashden.Stratum.Messages.{Json, Authorization, MiningSubmit, duplicate_share}
use hashden.Stratum.Client.{ClientEntity, Client, Pool}
use hashden.Stratum.Client.Effects.{Effect, client_inserted, Chain}
use hashden.Stratum.Client.Submission.{
  Verdict, accepted_share, refused_share, crashed, Handled, submission_hash, crash, asking,
  with_job, with_entity, new_entity, create_entity, authorized_submission, handle_mining_submission,
}
use hashden.Stratum.Client.Submission.Credit.{
  Earned, KeepsHandshake, keeps_handshake, Settled, refuse_share-Settled, with_job-Settled,
}

module _ {N : Type 0} (pool : Pool N) (chain : Chain N) where
  -- Whether the share was known, and what the connection then remembers.
  abbrev pub Remembered : Text → Client N → Client N → Verdict → Type 0
  Remembered hash before after accepted_share =
      (any (text_eq hash) before.submission_hashes ≡ false)
      × after.submission_hashes ≡ hash ∷ before.submission_hashes
  Remembered hash before after _ =
      (after.submission_hashes ≡ before.submission_hashes)
      ⊎ (after.submission_hashes ≡ hash ∷ before.submission_hashes)

  abbrev pub Judged : ℕ → MiningSubmit → JobsService N → Client N → Handled N → Type 0
  Judged now m s c h =
      Earned pool chain now m s c h h.verdict
      × Remembered (submission_hash pool chain m) c h.client h.verdict
      × KeepsHandshake pool chain c h.client

  -- What a submission asks first: the row of a client that has none, unless it was refused before.
  abbrev pub insertion_by :
      Option (ClientEntity N) → Option Authorization → Bool → Text → List (Effect N)
  insertion_by none (some a) false session = client_inserted session a ∷ []
  insertion_by _ _ _ _ = []

  abbrev pub insertion : Client N → List (Effect N)
  insertion c = insertion_by c.entity c.client_authorization c.entity_failed c.session_id

  -- After that the services are asked what the verdict allows.
  abbrev pub SettledAfter :
      List (Effect N) → ℕ → MiningSubmit → JobsService N → Client N → Handled N → Type 0
  SettledAfter before now m s c h =
      (asked : List (Effect N)) × (h.effects ≡ before ++ asked)
      × Judged now m s c (record h { effects = asked })

  abbrev pub Settlement : ℕ → MiningSubmit → JobsService N → Client N → Handled N → Type 0
  Settlement now m s c h = SettledAfter (insertion c) now m s c h

  abbrev remember : MiningSubmit → Client N → Client N
  remember m c = record c { submission_hashes = submission_hash pool chain m ∷ c.submission_hashes }

  Remembered-Settled :
      (m : MiningSubmit) (c c' : Client N) (verdict : Verdict)
      → any (text_eq (submission_hash pool chain m)) c.submission_hashes ≡ false
      → c'.submission_hashes ≡ submission_hash pool chain m ∷ c.submission_hashes
      → Remembered (submission_hash pool chain m) c c' verdict
  Remembered-Settled m c c' accepted_share fresh hashes = (fresh, hashes)
  Remembered-Settled m c c' refused_share fresh hashes = inr hashes
  Remembered-Settled m c c' crashed fresh hashes = inr hashes

  Earned-remember :
      (now : ℕ) (m : MiningSubmit) (s : JobsService N) (c : Client N) (h : Handled N)
      (verdict : Verdict)
      → Earned pool chain now m s (remember m c) h verdict
      → Earned pool chain now m s c h verdict
  Earned-remember now m s c h accepted_share earned = earned
  Earned-remember now m s c h refused_share earned = earned
  Earned-remember now m s c h crashed earned = earned

  Judged-Settled :
      (now : ℕ) (m : MiningSubmit) (s : JobsService N) (c : Client N) (h : Handled N)
      → any (text_eq (submission_hash pool chain m)) c.submission_hashes ≡ false
      → Settled pool chain now m s (remember m c) h
      → Judged now m s c h
  Judged-Settled now m s c h fresh settled = (
    Earned-remember now m s c h h.verdict settled.0,
    Remembered-Settled m c h.client h.verdict fresh settled.1,
    settled.2,
  )

  with_entity-Judged :
      (clock : ℕ → ℕ) (id : Option (Json N)) (m : MiningSubmit) (a : Authorization)
      (e : ClientEntity N) (c : Client N) (s : JobsService N)
      → Judged (clock 0) m s c (with_entity pool chain clock id m a e c s)
  with_entity-Judged clock id m a e c s =
      elim (Bool-cases (any (text_eq (submission_hash pool chain m)) c.submission_hashes)) [
        | inl known ↦
            let settled =
              refuse_share-Settled pool chain (clock 0) m s id duplicate_share
                (codes "Duplicate share") c s in
            rw known (settled.0, inl settled.1, settled.2)
        | inr fresh ↦ rw fresh (
            Judged-Settled (clock 0) m s c
              (with_job pool chain clock id m a e (remember m c) s (get_job_by_id m.job_id s)) fresh
              (with_job-Settled pool chain clock id m a e (remember m c) s
                (get_job_by_id m.job_id s) refl))
      ]

  -- The row of the client is no part of it.
  Judged-entity :
      (now : ℕ) (m : MiningSubmit) (s : JobsService N) (c : Client N) (e : Option (ClientEntity N))
      (h : Handled N)
      → Judged now m s (record c { entity = e }) h
      → Judged now m s c h
  Judged-entity now m s c e h outcome =
      (earned h.verdict outcome.0, remembered h.verdict outcome.1, outcome.2)
    where
      earned :
          (v : Verdict)
          → Earned pool chain now m s (record c { entity = e }) h v
          → Earned pool chain now m s c h v
      earned accepted_share x = x
      earned refused_share x = x
      earned crashed x = x

      remembered :
          (v : Verdict)
          → Remembered (submission_hash pool chain m) (record c { entity = e }) h.client v
          → Remembered (submission_hash pool chain m) c h.client v
      remembered accepted_share x = x
      remembered refused_share x = x
      remembered crashed x = x

  create_entity-SettledAfter :
      (clock : ℕ → ℕ) (id : Option (Json N)) (m : MiningSubmit) (a : Authorization) (c : Client N)
      (s : JobsService N)
      → SettledAfter
          (insertion_by none (some a) c.entity_failed c.session_id)
          (clock 0)
          m
          s
          c
          (create_entity pool chain clock id m a c s)
  create_entity-SettledAfter clock id m a c s = settled c.entity_failed chain.inserts_client
    where
      settled :
          (failed inserts : Bool)
          → SettledAfter (insertion_by none (some a) failed c.session_id) (clock 0) m s c (
              if failed
              then crash pool chain c s
              else asking pool chain (client_inserted c.session_id a ∷ []) (
                  if inserts
                  then (let e = new_entity pool chain a c.session_id in
                      with_entity pool chain clock id m a e (record c { entity = some e }) s)
                  else crash pool chain (record c { entity_failed = true }) s))
      settled true inserts = ([], refl, (refl, inl refl, keeps_handshake pool chain c))
      settled false true =
          let e = new_entity pool chain a c.session_id in
          let h = with_entity pool chain clock id m a e (record c { entity = some e }) s in
          (
            h.effects,
            refl,
            Judged-entity (clock 0) m s c (some e) h
                (with_entity-Judged clock id m a e (record c { entity = some e }) s),
          )
      settled false false = ([], refl, (refl, inl refl, keeps_handshake pool chain c))

  authorized-SettledAfter :
      (clock : ℕ → ℕ) (id : Option (Json N)) (m : MiningSubmit) (e : Option (ClientEntity N))
      (c : Client N) (s : JobsService N) (a : Option Authorization)
      → SettledAfter
          (insertion_by e a c.entity_failed c.session_id)
          (clock 0)
          m
          s
          c
          (authorized_submission pool chain clock id m e c s a)
  authorized-SettledAfter clock id m none c s none =
      ([], refl, (refl, inl refl, keeps_handshake pool chain c))
  authorized-SettledAfter clock id m (some e) c s none =
      ([], refl, (refl, inl refl, keeps_handshake pool chain c))
  authorized-SettledAfter clock id m none c s (some a) = create_entity-SettledAfter clock id m a c s
  authorized-SettledAfter clock id m (some e) c s (some a) =
      let h = with_entity pool chain clock id m a e c s in
      (h.effects, refl, with_entity-Judged clock id m a e c s)

  pub handle_mining_submission-Settlement :
      (clock : ℕ → ℕ) (id : Option (Json N)) (m : MiningSubmit) (c : Client N) (s : JobsService N)
      → Settlement (clock 0) m s c (handle_mining_submission pool chain clock id m c s)
  unfolding handle_mining_submission
  handle_mining_submission-Settlement clock id m c s =
      authorized-SettledAfter clock id m c.entity c s c.client_authorization
