-- ===== src/Coinbase/Script.antt =====
-- packages/coinbase/src/script.ts: the outputs of a coinbase as scripts and values.
-- `bitcoin.address.toOutputScript` of bitcoinjs-lib is a parameter: the bytes of the script of an address,
-- none where it throws.
use hashden.Common.{
  ℕ, ◌&&◌, List, [], ◌∷◌, Option, none, some, Result, ok, err, throw_if, ◌>>=◌, ◌>>◌, filterb,
}
use hashden.Common.Int.{ℤ, pos, ltb_ℤ}
use hashden.Common.Text.{Text}
use hashden.Coinbase.Output.{
  CoinbaseOutput, CoinbaseOutputKind, CoinbaseError, address_not_encodable, negative_output,
}

pub record EncodedOutput : Type 0 where
  pub script_pub_key : List ℕ
  pub value_sats : ℤ
  pub kind : CoinbaseOutputKind
  pub member_pubkey : Option Text

module _ (to_output_script : Text → Option (List ℕ)) where
  abbrev pub script_or_throw : Text → Option (List ℕ) → Result CoinbaseError (List ℕ)
  script_or_throw address none = err (address_not_encodable address)
  script_or_throw address (some script) = ok script

  unfoldable pub encode_output : CoinbaseOutput → Result CoinbaseError EncodedOutput
  encode_output output = do
    script ← script_or_throw output.address (to_output_script output.address)
    throw_if (ltb_ℤ output.sats (pos 0)) (negative_output output.address output.sats)
    ok (record {
      script_pub_key = script;
      value_sats = output.sats;
      kind = output.kind;
      member_pubkey = output.member_pubkey;
    })

  -- `outputs.map((o) => encodeOutput(o, opts))`
  unfoldable pub encode_outputs : List CoinbaseOutput → Result CoinbaseError (List EncodedOutput)
  encode_outputs [] = ok []
  encode_outputs (o ∷ os) = do
    encoded ← encode_output o
    rest ← encode_outputs os
    ok (encoded ∷ rest)

-- DUST_THRESHOLD_SATS
abbrev pub dust_threshold_sats : ℤ
dust_threshold_sats = pos 546

unfoldable pub find_below_protocol_dust : List EncodedOutput → List EncodedOutput
find_below_protocol_dust =
    filterb
      (λ (o : EncodedOutput). ltb_ℤ (pos 0) o.value_sats && ltb_ℤ o.value_sats dust_threshold_sats)
