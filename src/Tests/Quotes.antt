-- ===== src/Tests/Quotes.antt =====
-- A leg that Jupiter quotes, a whole prepared burn, and a signed transaction that is relayed.
use onchainburner.Base.{
  ℕ, ◌+◌, ◌≡◌, ◌≤◌, ◌⊎◌, refl, true, false, Option, none, some, Bytes, codes, List, [], ◌∷◌, ◌++◌,
  ◌==◌, le_bytes, le_value,
}
use onchainburner.Base.Int.{pos}
use onchainburner.Base.Errors.{ok, err, policy, reference_does_not_price_market}
use onchainburner.Chain.{PublicKey, token_2022_program, burner_program, compute_budget_program}
use onchainburner.Reference.Venues.{venue_reads, zeroes}
use onchainburner.Admission.Route.{routing}
use onchainburner.Admission.Tables.{looking_up}
use onchainburner.Wire.{PreparedLeg}
use onchainburner.Service.Admitted.{AdmittedLeg}
use onchainburner.Service.Quoted.{
  JupiterQuote, Quoters, reference_block, prepare_leg, jupiter_params, quoting,
}
use onchainburner.Service.Quoted.Priced.{IsKept, IsCurved, IsQuoted, prepare_leg-IsPriced}
use onchainburner.Service.Simulated.Whole.{IsWhole, prepare-IsWhole}
use onchainburner.Service.Submittable.{
  SignedTransaction, assert_submittable_signed_transaction, IsSubmittable,
  assert_submittable-IsSubmittable, submitting,
}
use onchainburner.Service.Executed.{Signature}
use onchainburner.Tests.Prices.{web3, resolved_curve}
use onchainburner.Tests.Admissions.{decode, reply, route_accounts}
use onchainburner.Tests.Admissions.{request_json}
use onchainburner.Tests.Services.{service, gateway, limits, burn_prepared}

-- A leg of 1,000 lamports bound to a pool, with a floor of 990.
abbrev pool_leg : AdmittedLeg
pool_leg = record {
  target_mint = 5;
  bps = 10_000;
  reference = record resolved_curve { direct_curve = false };
  amount_in = 1_000;
  token_program = token_2022_program;
  ata = 70;
  program_floor = 990;
}

-- 1,020 atoms, no fewer than 1,000, at 1.2% of price impact.
abbrev quote : JupiterQuote
quote = record {
  build = reply;
  out_amount = ok (pos 1_020);
  other_amount_threshold = ok (pos 1_000);
  slippage_bps = some (pos 196);
  price_impact_bps = some (record { numerator = pos 240; scale = 1 });
  tables = [];
}

abbrev jupiter : JupiterQuote → Quoters
jupiter q = record {
  jupiter = λ attempt rung p. ok q;
  direct_curve = none;
  required_minimum_output = some (λ amount mint. ok 995);
}

abbrev prepared_leg : PreparedLeg
prepared_leg = record {
  target_mint = 5;
  target_token_program = token_2022_program;
  target_ata = 70;
  bps = 10_000;
  amount_in = 1_000;
  minimum_output = 1_000;
  reference = reference_block resolved_curve;
  route_accounts = route_accounts;
  route_data = decode (codes "AA==");
  lookup_tables = [];
}

leg_prepared :
    prepare_leg web3 decode gateway (jupiter quote) limits 63 64 0 0 none false pool_leg
    ≡ ok prepared_leg
unfolding quoting routing looking_up le_bytes venue_reads le_value
leg_prepared = refl

-- A floor below half of the market.
poor_reference :
    prepare_leg web3 decode gateway
      (jupiter quote)
      limits
      63
      64
      0
      0
      none
      false
      (record pool_leg { program_floor = 509 })
    ≡ err (policy reference_does_not_price_market)
unfolding quoting routing looking_up le_bytes venue_reads le_value
poor_reference = refl

prepare_leg-IsPriced_example :
    IsKept pool_leg prepared_leg
    × (IsCurved web3 decode gateway (jupiter quote) limits 63 64 pool_leg prepared_leg
        ⊎ ((q : JupiterQuote) × ((jupiter quote).jupiter 0 0 (
                jupiter_params web3 decode gateway (jupiter quote) limits 63 64 pool_leg none false)
              ≡ ok q)
            × IsQuoted web3 decode gateway (jupiter quote) limits 63 64 pool_leg q prepared_leg))
prepare_leg-IsPriced_example =
    prepare_leg-IsPriced web3 decode gateway (jupiter quote) limits 63 64 0 0 none false pool_leg
      prepared_leg leg_prepared

prepare-IsWhole_example : IsWhole service request_json 9 burn_prepared.0
prepare-IsWhole_example = prepare-IsWhole service request_json 9 burn_prepared.0 burn_prepared.1

abbrev signed : SignedTransaction
signed = record {
  program_id_indexes = 1 ∷ 2 ∷ [];
  static_account_keys = 9 ∷ compute_budget_program ∷ burner_program ∷ [];
  num_required_signatures = 1;
  signatures = zeroes 64 ∷ [];
  serialized = 128 ∷ 1 ∷ [];
}

abbrev deserialize : Bytes → Option SignedTransaction
deserialize wire = some signed

abbrev verify : PublicKey → Bytes → Signature → onchainburner.Base.Bool
verify key message signature = key == 9

transaction_relayed :
    assert_submittable_signed_transaction deserialize verify (1 ∷ []) burner_program
    ≡ ok (record { transaction = signed; fee_payer = 9 })
unfolding submitting
transaction_relayed = refl

assert_submittable-IsSubmittable_example :
    IsSubmittable deserialize verify
      (1 ∷ [])
      burner_program
      (record { transaction = signed; fee_payer = 9 })
assert_submittable-IsSubmittable_example =
    assert_submittable-IsSubmittable deserialize verify (1 ∷ []) burner_program
      (record { transaction = signed; fee_payer = 9 }) transaction_relayed
