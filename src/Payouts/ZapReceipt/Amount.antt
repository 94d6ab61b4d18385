-- ===== src/Payouts/ZapReceipt/Amount.antt =====
-- apps/payouts/src/zap-receipt.ts: what an auditor reads from the tags of a receipt.
use hashden.Common.{
  ℕ, zero, suc, ◌+◌, ◌-◌, ◌*◌, ◌/◌, ◌%◌, ◌<◌, ◌≡◌, refl, ◌∙◌, List, [], ◌∷◌, ◌++◌, Option, none,
  some, if◌then◌else◌, ltb, ltb→le, Bool-cases, inl, inr, arith, ok,
}
use hashden.Common.Text.{Text, codes, text_eq}
use hashden.Stratum.Ssrf.Ipv4.{decimal_from}
use hashden.Payouts.ZapReceipt.{
  ZapReceiptInput, UnsignedEvent, digits, to_string, receipt_of, build_zap_receipt_event,
}

decimal_from-append :
    (m : ℕ) (s : Text) (c : ℕ) → decimal_from m (s ++ c ∷ []) ≡ decimal_from m s * 10 + (c - 48)
unfolding decimal_from
decimal_from-append m [] c = refl
decimal_from-append m (d ∷ s) c = decimal_from-append (m * 10 + (d - 48)) s c

one_digit : (n : ℕ) → decimal_from 0 ((48 + n) ∷ []) ≡ n
unfolding decimal_from
one_digit n = omega arith

decimal_from-digits : (fuel n : ℕ) → n < fuel → decimal_from 0 (digits fuel n) ≡ n
unfolding digits
decimal_from-digits zero n h = omega arith
decimal_from-digits (suc fuel) n h = elim (Bool-cases (ltb n 10)) [
  | inl small ↦ rw small (one_digit n)
  | inr large ↦ rw large (
      decimal_from-append 0 (digits fuel (n / 10)) (48 + n % 10)
      ∙ omega (arith, decimal_from-digits fuel (n / 10) (omega (arith, ltb→le n 10 large))))
]

-- The value of the first tag with a name.
abbrev pub tag_value : Text → List (List Text) → Option Text
tag_value name [] = none
tag_value name ((key ∷ value ∷ more) ∷ tags) =
    if text_eq key name then some value else tag_value name tags
tag_value name (_ ∷ tags) = tag_value name tags

built :
    (now : ℕ) (input : ZapReceiptInput) (e : UnsignedEvent)
    → build_zap_receipt_event now input ≡ ok e
    → e ≡ receipt_of now input
unfolding build_zap_receipt_event
built now input e h = ground arith

-- A receipt that is built names the recipient and the block's event, and its amount tag is a decimal
-- number, a thousand times the sats paid.
pub build_zap_receipt_event-tags :
    (now : ℕ) (input : ZapReceiptInput) (e : UnsignedEvent)
    → build_zap_receipt_event now input ≡ ok e
    → (tag_value (codes "p") e.tags ≡ some input.recipient_pubkey)
      × (tag_value (codes "e") e.tags ≡ some input.block_event_id)
      × ((amount : Text) × (tag_value (codes "amount") e.tags ≡ some amount)
          × (decimal_from 0 amount ≡ decimal_from 0 input.amount_sats * 1000))
unfolding text_eq
build_zap_receipt_event-tags now input e h =
    let sats = decimal_from 0 input.amount_sats * 1000 in
    rw (built now input e h)
      (refl, refl, (to_string sats, refl, decimal_from-digits (suc sats) sats (omega arith)))
