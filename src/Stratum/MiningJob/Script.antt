-- ===== src/Stratum/MiningJob/Script.antt =====
-- apps/stratum/src/models/MiningJob.ts: the size of the coinbase's input script. Consensus allows 100 bytes.
use hashden.Common.{
  ℕ, ◌+◌, ◌-◌, ◌*◌, ◌/◌, ◌%◌, ◌≤◌, ◌≡◌, refl, sym, ap, subst, Bool, true, false, List, [], ◌∷◌,
  ◌++◌, Option, ok, arith, Bool-cases, inl, inr, ltb, ltb→le, length, length-append, if◌then◌else◌,
}
use hashden.Common.Int.{ℤ}
use hashden.Common.Text.{Text}
use hashden.Shared.Hex.{
  IsBytes, IsBytes-append, zero_bytes, length-zero_bytes, zero_bytes-IsBytes, byte_length, byte_of,
  hex_digit,
}
use hashden.Shared.Pattern.{is_hex, is_digit}
use hashden.Stratum.Extranonce.{
  extranonce1_size_bytes, get_extranonce2_size_bytes, get_extranonce2_size_bytes_bounds,
}
use hashden.Stratum.MiningJob.{
  AddressObject, TxOut, Block, Bitcoin, MiningJob, max_script_size, padding, height_push,
  choose_script, commitment, new_mining_job,
}
use hashden.Stratum.MiningJob.Built.{script_of, new_mining_job-IsBuilt}

-- A Buffer is written as an even number of digits.
pub length-bytes : (s : Text) → IsBytes s → length s ≡ byte_length s * 2
length-bytes [] h = refl
length-bytes (a ∷ []) h = absurd h
length-bytes (a ∷ b ∷ s) h = omega (arith, length-bytes s h.2)

pub digit_hex : (n : ℕ) → is_hex (hex_digit (n / 16 % 16)) ≡ true
unfolding is_hex is_digit
digit_hex n = ground arith

pub low_digit_hex : (n : ℕ) → is_hex (hex_digit (n % 16)) ≡ true
unfolding is_hex is_digit
low_digit_hex n = ground arith

byte_of-IsBytes : (n : ℕ) → IsBytes (byte_of n)
byte_of-IsBytes n = (digit_hex n, low_digit_hex n, tt)

height_push-IsBytes : (height : Text) → IsBytes height → IsBytes (height_push height)
height_push-IsBytes height h =
    IsBytes-append (byte_of (byte_length height)) height (byte_of-IsBytes (byte_length height)) h

padding-zeros :
    (region n : ℕ) (pad : Text)
    → padding region n ≡ ok pad
    → (pad ≡ zero_bytes (region + 3 - n)) × (n ≤ region + 3)
padding-zeros region n pad h = ground arith

-- The pushed height and the padding take four bytes more than the extranonce.
bare_length :
    (region : ℕ) (height pad : Text)
    → IsBytes height
    → padding region (byte_length height) ≡ ok pad
    → length (height_push height ++ pad) ≡ (region + 4) * 2
bare_length region height pad h p = omega (
  arith,
  length-append height pad,
  length-bytes height h,
  ap length (padding-zeros region (byte_length height) pad p).0,
  (padding-zeros region (byte_length height) pad p).1,
  length-zero_bytes (region + 3 - byte_length height),
)

-- The script is a Buffer that is short enough, and it has room for the extranonce.
abbrev pub IsSound : ℕ → Text → Type 0
IsSound region s = IsBytes s × (byte_length s ≤ max_script_size) × (region * 2 ≤ length s)

either-IsSound :
    (region : ℕ) (b : Bool) (s t : Text)
    → IsSound region s
    → IsSound region t
    → IsSound region (if b then s else t)
either-IsSound region true s t hs ht = hs
either-IsSound region false s t hs ht = ht

module _ (region : ℕ) (height extra pad : Text) (small : region ≤ 20)
    (height_bytes : IsBytes height) (extra_bytes : IsBytes extra)
    (padded : padding region (byte_length height) ≡ ok pad) where
  pad-IsBytes : IsBytes pad
  pad-IsBytes =
      subst IsBytes (sym (padding-zeros region (byte_length height) pad padded).0)
        (zero_bytes-IsBytes (region + 3 - byte_length height))

  bare-IsSound : IsSound region (height_push height ++ pad)
  bare-IsSound = (
    IsBytes-append (height_push height) pad (height_push-IsBytes height height_bytes) pad-IsBytes,
    omega (arith, bare_length region height pad height_bytes padded),
    omega (arith, bare_length region height pad height_bytes padded),
  )

  full_length : region * 2 ≤ length (height_push height ++ extra ++ pad)
  full_length = omega (
    arith,
    bare_length region height pad height_bytes padded,
    length-append (height_push height) pad,
    length-append (height_push height ++ extra) pad,
    length-append (height_push height) extra,
  )

  choose_script-IsSound : IsSound region (choose_script height extra pad)
  unfolding choose_script
  choose_script-IsSound =
      elim (Bool-cases (ltb max_script_size (byte_length (height_push height ++ extra ++ pad)))) [
        | inl long ↦ rw long bare-IsSound
        | inr fits ↦ rw fits (
          IsBytes-append (height_push height ++ extra) pad
              (IsBytes-append (height_push height) extra (height_push-IsBytes height height_bytes)
                extra_bytes)
              pad-IsBytes,
          ltb→le max_script_size _ fits,
          full_length,
        )
      ]

-- What the libraries write are Buffers.
pub record WritesBytes {N : Type 0} (lib : Bitcoin N) : Type 0 where
  pub number_bytes : (n : ℕ) → IsBytes (lib.number_encode n)
  pub utf8_bytes : (s : Text) → IsBytes (lib.utf8 s)

module _ {N : Type 0} (lib : Bitcoin N) (writes : WritesBytes lib) where
  script_of-IsSound :
      (region : ℕ) (identifier : Text) (block_height : ℕ) (block : Block) (pad : Text)
      (outs : List TxOut)
      → region ≤ 20
      → padding region (byte_length (lib.number_encode block_height)) ≡ ok pad
      → IsSound region (script_of lib identifier block_height block pad outs)
  script_of-IsSound region identifier block_height block pad outs small padded =
      let height = lib.number_encode block_height in
      let extra = lib.utf8 identifier in
      either-IsSound region _ (height_push height ++ pad) (choose_script height extra pad)
        (bare-IsSound region height extra pad small (writes.number_bytes block_height)
          (writes.utf8_bytes identifier) padded)
        (choose_script-IsSound region height extra pad small (writes.number_bytes block_height)
          (writes.utf8_bytes identifier) padded)

  -- Whatever is configured, the input script of a job is a Buffer of at most 100 bytes with room for
  -- both extranonces.
  pub new_mining_job-IsSound :
      (raw : Option ℤ) (identifier : Text) (now : ℕ) (job_id : Text)
      (payout : List (AddressObject N)) (template_id : Text) (reward block_height : ℕ)
      (block : Block) (job : MiningJob)
      → let size = get_extranonce2_size_bytes raw in
        new_mining_job lib size identifier now job_id payout template_id reward block_height block
          ≡ ok job
        → IsSound (extranonce1_size_bytes + size) job.input_script
  new_mining_job-IsSound raw identifier now job_id payout template_id reward block_height block job
        h =
      let size = get_extranonce2_size_bytes raw in
      let (paid, pad, created, padded, built) =
        new_mining_job-IsBuilt lib size identifier now job_id payout template_id reward block_height
          block job h in
      subst (λ (j : MiningJob). IsSound (extranonce1_size_bytes + size) j.input_script) (sym built)
        (script_of-IsSound (extranonce1_size_bytes + size) identifier block_height block pad
          (paid ++ commitment lib block ∷ []) (omega (arith, get_extranonce2_size_bytes_bounds raw))
          padded)
