-- ===== src/Payouts/ZapReceipt/Tests.antt =====
-- apps/payouts/src/zap-receipt.ts: a run at a fixed input, and the theorem applied to it.
use hashden.Common.{ℕ, zero, suc, ◌≡◌, refl, [], ◌∷◌, none, some, ok}
use hashden.Common.Text.{Text, codes}
use hashden.Shared.Pattern.{is_digit, is_hex, repeats}
use hashden.Payouts.Types.{ln_dust}
use hashden.Payouts.ZapReceipt.{
  ZapReceiptInput, digits, to_string, receipt_of, build_zap_receipt_event,
}

abbrev copies : ℕ → Text → Text
copies zero s = []
copies (suc n) [] = []
copies (suc n) (c ∷ s) = c ∷ copies n (c ∷ s)

abbrev input : ZapReceiptInput
input = record {
  project_pubkey = copies 64 (codes "a");
  recipient_pubkey = copies 64 (codes "b");
  amount_sats = codes "0120";
  block_event_id = copies 64 (codes "c");
  kind = ln_dust;
  bolt11 = none;
  payment_hash = some [];
  block_hash = none;
  created_at = none;
}

receipt : build_zap_receipt_event 1700000000123 input ≡ ok (receipt_of 1700000000123 input)
unfolding build_zap_receipt_event repeats is_hex is_digit
receipt = refl

millisats : to_string 120000 ≡ codes "120000"
unfolding digits
millisats = refl
