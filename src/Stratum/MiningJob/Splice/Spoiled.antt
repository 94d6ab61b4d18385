-- ===== src/Stratum/MiningJob/Splice/Spoiled.antt =====
-- apps/stratum/src/models/MiningJob.ts: a share whose extranonce has the wrong length. `MiningSubmitMessage`
-- only asks that it is a string.
use hashden.Common.{
  ℕ, ◌+◌, ◌-◌, ◌*◌, ◌<◌, ◌≡◌, ◌≢◌, refl, sym, ap, subst, ◌∙◌, List, [], ◌∷◌, ◌++◌, arith, length,
  length-append, ◌⊎◌, inl, take, drop, take-drop, length-take, length-drop, All,
}
use hashden.Common.Text.{Text}
use hashden.Shared.Hex.{IsBytes, IsBytes-append, through_buffer-bytes, byte_length}
use hashden.Stratum.MiningJob.{Bitcoin, MiningJob, spliced}
use hashden.Stratum.MiningJob.Script.{length-bytes}
use hashden.Stratum.MiningJob.Splice.{
  Share, Fills, HasPrefix, IsBytes-front, after, after-rest, after-script, after-filled,
}

abbrev front_length : ℕ → Text → ℕ
front_length region_hex s = length s - region_hex

-- What stands before the region is a Buffer, also if the script is too short.
front-IsBytes : (m : ℕ) (s : Text) → IsBytes s → IsBytes (take (front_length (m * 2) s) s)
front-IsBytes m s h =
    IsBytes-front (byte_length s - (byte_length s - m)) (take (front_length (m * 2) s) s)
      (drop (front_length (m * 2) s) s)
      (subst IsBytes (sym (take-drop (front_length (m * 2) s) s)) h)
      (omega (arith, length-drop (front_length (m * 2) s) s, length-bytes s h))

spliced-length :
    (m : ℕ) (s : Text) (x : Share)
    → IsBytes s
    → IsBytes x.extra_nonce
    → IsBytes x.extra_nonce2
    → IsBytes (spliced (m * 2) s x.extra_nonce x.extra_nonce2)
      × (length (spliced (m * 2) s x.extra_nonce x.extra_nonce2)
          ≡ (length s - m * 2) + (length x.extra_nonce + length x.extra_nonce2))
unfolding spliced
spliced-length m s x h h1 h2 =
    let f = take (front_length (m * 2) s) s in
    let all =
      IsBytes-append (f ++ x.extra_nonce) x.extra_nonce2
        (IsBytes-append f x.extra_nonce (front-IsBytes m s h) h1) h2 in
    rw (through_buffer-bytes (f ++ x.extra_nonce ++ x.extra_nonce2) all) (
      all,
      omega (
        arith,
        length-append (f ++ x.extra_nonce) x.extra_nonce2,
        length-append f x.extra_nonce,
        length-take (length s - m * 2) s (omega arith),
      ),
    )

-- A length is as it was, or it was below that of the region and is that of the region now.
abbrev IsKept : ℕ → ℕ → ℕ → Type 0
IsKept region was now = (now ≡ was) ⊎ ((was < region) × (now ≡ region))

IsKept-further :
    (region was now next : ℕ)
    → IsKept region was now
    → next ≡ (now - region) + region
    → IsKept region was next
IsKept-further region was now next h e = ground arith

lost :
    (region front filled was now : ℕ)
    → IsKept region was now
    → 0 < front
    → was ≡ front + filled
    → now ≡ front + region
    → filled ≡ region
lost region front filled was now kept long e1 e2 = ground arith

module _ {N : Type 0} (lib : Bitcoin N) (m : ℕ) where
  -- The length that the script has after shares that fill the region, from a script of any length.
  after-length :
      (job : MiningJob) (shares : List Share)
      → job.extranonce_region_hex ≡ m * 2
      → IsBytes job.input_script
      → All (Fills (m * 2)) shares
      → IsBytes (after lib shares job).input_script
        × IsKept (m * 2) (length job.input_script) (length (after lib shares job).input_script)
  after-length job [] e h fills = (h, inl refl)
  after-length job (x ∷ past) e h fills =
      let (bytes, grown) = after-length job past e h fills.1 in
      let s = (after lib past job).input_script in
      let (next, len) = spliced-length m s x bytes fills.0.0 fills.0.1 in
      subst (λ t. IsBytes t × IsKept (m * 2) (length job.input_script) (length t))
        (sym (after-script lib x past job ∙ ap (λ n. spliced n s x.extra_nonce x.extra_nonce2) e))
        (
          next,
          IsKept-further (m * 2) (length job.input_script) (length s) _ grown
              (omega (arith, len, fills.0.2)),
        )

  after_bad :
      (job : MiningJob) (p : Text) (bad : Share) (past : List Share)
      → job.extranonce_region_hex ≡ m * 2
      → IsBytes p
      → HasPrefix p (m * 2) job.input_script
      → All (Fills (m * 2)) past
      → IsBytes bad.extra_nonce
      → IsBytes bad.extra_nonce2
      → (after lib (bad ∷ past) job).input_script ≡ p ++ bad.extra_nonce ++ bad.extra_nonce2
  after_bad job p bad past e bytes room fills h1 h2 =
      after-filled lib job p bytes (subst (λ n. HasPrefix p n job.input_script) (sym e) room) bad
        past (subst (λ n. All (Fills n) past) (sym e) fills) h1 h2

  -- A share of whole bytes that does not fill the region is put into a job whose script has something
  -- before the region, after shares that fill it. As long as all shares behind it fill the region, the
  -- script that the job has after the last of these is not the one that its miner was told.
  pub spoiled-ne :
      (job : MiningJob) (p : Text) (bad last : Share) (between past : List Share)
      → job.extranonce_region_hex ≡ m * 2
      → IsBytes p
      → 0 < length p
      → HasPrefix p (m * 2) job.input_script
      → All (Fills (m * 2)) past
      → IsBytes bad.extra_nonce
      → IsBytes bad.extra_nonce2
      → length bad.extra_nonce + length bad.extra_nonce2 ≢ m * 2
      → All (Fills (m * 2)) between
      → Fills (m * 2) last
      → (after lib (last ∷ between) (after lib (bad ∷ past) job)).input_script
        ≢ p ++ last.extra_nonce ++ last.extra_nonce2
  spoiled-ne job p bad last between past e bytes long room fills h1 h2 wrong fills' filled same =
      let first = after_bad job p bad past e bytes room fills h1 h2 in
      let job' = after lib (bad ∷ past) job in
      let whole =
        IsBytes-append (p ++ bad.extra_nonce) bad.extra_nonce2
          (IsBytes-append p bad.extra_nonce bytes h1) h2 in
      let (_, kept) =
        after-length job' (last ∷ between) ((after-rest lib (bad ∷ past) job).0 ∙ e)
          (subst IsBytes (sym first) whole) (filled, fills') in
      wrong (
        lost (m * 2) (length p) (length bad.extra_nonce + length bad.extra_nonce2) _ _ kept long
          (ap length first
            ∙ omega (
              arith,
              length-append (p ++ bad.extra_nonce) bad.extra_nonce2,
              length-append p bad.extra_nonce,
            ))
          (ap length same
            ∙ omega (
              arith,
              filled.2,
              length-append (p ++ last.extra_nonce) last.extra_nonce2,
              length-append p last.extra_nonce,
            )))
