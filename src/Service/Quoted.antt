-- ===== src/Service/Quoted.antt =====
-- `buildAndSimulate`, the legs of one round: an admitted leg becomes a prepared one, by a quote of
-- Jupiter or by the direct buy on Pump's curve.
pub mod Amounts
pub mod Priced
use onchainburner.Base.{
  ℕ, ◌+◌, ◌-◌, ◌*◌, ◌/◌, ◌^◌, Bool, true, false, not, ◌&&◌, ◌||◌, Option, none, some, Bytes, List,
  [], ◌∷◌, length, get_elem?, contains, ltb, leb, ◌==◌, if◌then◌else◌,
}
use onchainburner.Base.Int.{ℤ, pos, negsuc}
use onchainburner.Base.Errors.{
  Result, ok, err, policy, environment, ◌>>=◌, ◌>>◌, reject_if, require, direct_curve_unavailable,
  setup_required, invalid_output_floor, reference_does_not_price_market, slippage_policy,
  price_impact_policy, independent_floor, invalid_jupiter_accounts,
}
use onchainburner.Chain.{PublicKey, Web3, AccountMeta, LookupTable}
use onchainburner.Curve.{DirectCurveLegBuild, assert_direct_curve_leg_shape}
use onchainburner.Wire.{PreparedLeg, ReferenceBlock}
use onchainburner.Reference.Resolve.{ResolvedReference}
use onchainburner.Admission.Route.{
  JupiterBuild, JupiterInstruction, assert_route, assert_auxiliary_instructions,
}
use onchainburner.Admission.Tables.{resolve_and_validate_lookup_tables}
use onchainburner.Service.{Gateway, Limits}
use onchainburner.Service.Admitted.{AdmittedLeg}

-- A number that is no `NaN` and no infinity: `numerator / 2 ^ scale`.
pub record Double : Type 0 where
  pub numerator : ℤ
  pub scale : ℕ

-- A reply of Jupiter with the fields that `JupiterBuild` leaves out. The amounts are what `BigInt`
-- makes of them, which may throw; `slippage_bps` is `Number(build.slippageBps)`, where that is an
-- integer; `price_impact_bps` is `Number(build.priceImpactPct ?? "0") * BPS_TOTAL`, where that is
-- finite; `tables` is `addressesByLookupTableAddress ?? {}`.
pub record JupiterQuote : Type 0 where
  pub build : JupiterBuild
  pub out_amount : Result ℤ
  pub other_amount_threshold : Result ℤ
  pub slippage_bps : Option ℤ
  pub price_impact_bps : Option Double
  pub tables : List (PublicKey × List PublicKey)

-- `JupiterBuildParams`; the input mint is always wrapped SOL. `exclude_pump` is whether
-- `PUMP_VENUE_EXCLUDE_DEXES` is excluded.
pub record JupiterBuildParams : Type 0 where
  pub output_mint : PublicKey
  pub amount : ℕ
  pub taker : PublicKey
  pub destination_token_account : PublicKey
  pub max_accounts : Option ℕ
  pub exclude_pump : Bool

pub record DirectCurveParams : Type 0 where
  pub vault : PublicKey
  pub target_mint : PublicKey
  pub token_program : PublicKey
  pub target_ata : PublicKey

-- The clients that quote. An answer may differ from round to round, so that each call carries its
-- attempt and, for Jupiter, its rung.
pub record Quoters : Type 0 where
  pub jupiter : (attempt rung : ℕ) → JupiterBuildParams → Result JupiterQuote
  pub direct_curve : Option ((attempt rung : ℕ) → DirectCurveParams → Result DirectCurveLegBuild)
  pub required_minimum_output : Option (ℕ → PublicKey → Result ℕ)

-- `quotedOut` and `threshold`, both positive.
abbrev pub output_floor : ℤ → ℤ → Result (ℕ × ℕ)
output_floor (pos quoted) (pos threshold) =
    if quoted == 0 || threshold == 0 || ltb quoted threshold
    then err (policy invalid_output_floor)
    else ok (quoted, threshold)
output_floor (negsuc n) z = err (policy invalid_output_floor)
output_floor (pos n) (negsuc k) = err (policy invalid_output_floor)

-- The slippage that Jupiter claims is within the policy.
abbrev pub is_slippage_in : ℕ → Option ℤ → Bool
is_slippage_in most none = false
is_slippage_in most (some (pos n)) = leb n most
is_slippage_in most (some (negsuc n)) = false

abbrev pub is_impact_in : ℕ → Option Double → Bool
is_impact_in most none = false
is_impact_in most (some d) = elim d.numerator [
  | pos n ↦ leb n (most * 2 ^ d.scale)
  | negsuc n ↦ false
]

abbrev pub reference_block : ResolvedReference → ReferenceBlock
reference_block r = record {
  pool = r.pool;
  vault_a = r.vault_a;
  vault_b = r.vault_b;
  fee_source = r.fee_source;
}

-- The checks of a quote's amounts, without the independent floor; the result is the threshold.
pub assert_amounts : Limits → (program_floor : ℕ) → JupiterQuote → Result ℕ
assert_amounts limits program_floor quote = do
  out ← quote.out_amount
  other ← quote.other_amount_threshold
  (quoted, threshold) ← output_floor out other
  reject_if (ltb program_floor (quoted / 2)) reference_does_not_price_market
  reject_if (not (is_slippage_in limits.max_slippage_bps quote.slippage_bps)) slippage_policy
  reject_if (ltb (threshold * 10_000) (quoted * (10_000 - limits.max_slippage_bps))) slippage_policy
  reject_if (not (is_impact_in limits.max_price_impact_bps quote.price_impact_bps))
      price_impact_policy
  ok threshold

-- The check of `floorPolicy`, where there is one.
abbrev pub assert_independent :
    Option (ℕ → PublicKey → Result ℕ)
    → (amount_in : ℕ) → PublicKey
    → (threshold : ℕ) → Result (Unit {0})
assert_independent none amount_in mint threshold = ok tt
assert_independent (some required) amount_in mint threshold = do
  floor ← required amount_in mint
  reject_if (ltb threshold floor) independent_floor

module _ (w : Web3) (from_base64 : List ℕ → Bytes) (chain : Gateway) (quoters : Quoters)
    (limits : Limits) (pda wsol_ata : PublicKey) where
  -- The account that a setup instruction would create is there already.
  abbrev pub assert_set_up : JupiterInstruction → Result (Unit {0})
  assert_set_up instruction = do
    accounts ← require instruction.accounts environment
    ata ← require (get_elem? accounts 1) (policy setup_required)
    found ← chain.get_raw_account ata.pubkey
    there ← require found (policy setup_required)
    ok tt

  pub set_up_loop : List JupiterInstruction → Result (Unit {0})
  set_up_loop [] = ok tt
  set_up_loop (instruction ∷ rest) = do assert_set_up instruction; set_up_loop rest

  -- The accounts of the reply's swap; `assertRoute` has read them before.
  abbrev pub swap_accounts : JupiterBuild → Result (List AccountMeta)
  swap_accounts build = do
    swap ← require build.swap_instruction (policy invalid_jupiter_accounts)
    require swap.accounts (policy invalid_jupiter_accounts)

  pub prepare_curve_leg : (attempt rung : ℕ) → AdmittedLeg → Result PreparedLeg
  prepare_curve_leg attempt rung leg = do
    client ← require quoters.direct_curve (policy direct_curve_unavailable)
    built ← client attempt rung (record {
      vault = pda;
      target_mint = leg.target_mint;
      token_program = leg.token_program;
      target_ata = leg.ata;
    })
    reject_if (not (length built.missing_setup == 0)) setup_required
    assert_direct_curve_leg_shape w built.accounts pda leg.target_mint leg.ata
    ok (record {
      target_mint = leg.target_mint;
      target_token_program = leg.token_program;
      target_ata = leg.ata;
      bps = leg.bps;
      amount_in = leg.amount_in;
      minimum_output = leg.program_floor;
      reference = reference_block leg.reference;
      route_accounts = built.accounts;
      route_data = [];
      lookup_tables = [];
    })

  pub jupiter_params : AdmittedLeg → Option ℕ → Bool → JupiterBuildParams
  jupiter_params leg cap exclude_pump = record {
    output_mint = leg.target_mint;
    amount = leg.amount_in;
    taker = pda;
    destination_token_account = leg.ata;
    max_accounts = cap;
    exclude_pump = exclude_pump;
  }

  pub prepare_jupiter_leg : AdmittedLeg → JupiterQuote → Result PreparedLeg
  prepare_jupiter_leg leg quote = do
    route_data ←
        assert_route from_base64 pda wsol_ata leg.target_mint leg.ata leg.token_program
          leg.amount_in quote.build
    setup ← assert_auxiliary_instructions quote.build
    set_up_loop setup
    threshold ← assert_amounts limits leg.program_floor quote
    assert_independent quoters.required_minimum_output leg.amount_in leg.target_mint threshold
    tables ← resolve_and_validate_lookup_tables chain.get_table quote.tables []
    accounts ← swap_accounts quote.build
    ok (record {
      target_mint = leg.target_mint;
      target_token_program = leg.token_program;
      target_ata = leg.ata;
      bps = leg.bps;
      amount_in = leg.amount_in;
      minimum_output = if ltb threshold leg.program_floor then leg.program_floor else threshold;
      reference = reference_block leg.reference;
      route_accounts = accounts;
      route_data = route_data;
      lookup_tables = tables;
    })

  pub prepare_leg :
      (attempt rung : ℕ) (cap : Option ℕ) (exclude_pump : Bool) → AdmittedLeg → Result PreparedLeg
  prepare_leg attempt rung cap exclude_pump leg = do
    let by_jupiter = do
      quote ← quoters.jupiter attempt rung (jupiter_params leg cap exclude_pump)
      prepare_jupiter_leg leg quote
    if leg.reference.direct_curve then prepare_curve_leg attempt rung leg else by_jupiter

  -- The legs in turn, from the number `index`. The source prepares them at once; where several fail
  -- it is not said which error is thrown, here it is the first leg's.
  pub prepare_legs :
      (attempt rung : ℕ) (cap : Option ℕ) (pump_excluded_legs : List ℕ) (index : ℕ)
      → List AdmittedLeg
      → Result (List PreparedLeg)
  prepare_legs attempt rung cap excluded index [] = ok []
  prepare_legs attempt rung cap excluded index (leg ∷ legs) = do
    first ← prepare_leg attempt rung cap (contains index excluded) leg
    later ← prepare_legs attempt rung cap excluded (index + 1) legs
    ok (first ∷ later)

-- What a test unfolds.
unfoldable pub quoting : Unit {0}
unfolding prepare_legs prepare_leg prepare_jupiter_leg jupiter_params prepare_curve_leg set_up_loop
    assert_amounts
quoting = tt
