-- ===== src/Tests/Admissions.antt =====
-- Mints, token accounts, routes, tables and curve legs that are admitted.
use onchainburner.Base.{
  ℕ, ◌+◌, ◌^◌, ◌-◌, ◌*◌, ◌≤◌, ◌<◌, ◌≡◌, ◌↔◌, refl, true, false, none, some, Bytes, codes, List, [],
  ◌∷◌, ◌++◌, map, ◌==◌, if◌then◌else◌, le_value, le_bytes, read_le,
}
use onchainburner.Base.Int.{pos}
use onchainburner.Base.Errors.{Result, ok, err, policy, target_freezable}
use onchainburner.Chain.{
  PublicKey, Web3, AccountMeta, LookupTable, wsol_mint, token_program, token_2022_program,
  jupiter_program, jupiter_event_authority, pump_fun_program,
}
use onchainburner.Reference.Venues.{Reader, zeroes, venue_reads}
use onchainburner.Admission.{
  MintSnapshot, TokenAccountSnapshot, require_allowed_mint, require_token_account, admitting,
}
use onchainburner.Admission.Burnable.{IsBurnable, require_allowed_mint_iff}
use onchainburner.Admission.Route.{JupiterBuild, route_v2_discriminator, assert_route, routing}
use onchainburner.Admission.Route.Pinned.{IsPinned, assert_route-IsPinned}
use onchainburner.Admission.Tables.{resolve_and_validate_lookup_tables, looking_up}
use onchainburner.Curve.{
  DirectCurveBuildParams, buy_accounts, build_direct_curve_buy_accounts, curve_steps,
}
use onchainburner.Curve.Shaped.{IsShaped, build_direct_curve-IsShaped}
use onchainburner.Request.{
  Text, Json, object, text, array, integer, field, no_field, element, no_element, BurnRequest,
  parse_burn_request, parsing,
}
use onchainburner.Request.Parsed.{IsRequest, parse_burn_request-IsRequest}
use onchainburner.Base.{Bool, All, length}
use onchainburner.Chain.{associated_token_program}
use onchainburner.Admission.Route.{assert_auxiliary_instructions}
use onchainburner.Rates.{Rate, required_minimum_output, required_minimum_output-least, rate_of}

abbrev pub coin : MintSnapshot
coin = record {
  address = 5;
  owner_program = token_2022_program;
  initialized = true;
  mint_authority = none;
  freeze_authority = none;
  close_authority = none;
  extension_types = 18 ∷ 19 ∷ [];
  transfer_hook_authority = none;
  transfer_hook_program = none;
}

freezable :
    require_allowed_mint (some (record coin { freeze_authority = some 9 })) true
    ≡ err (policy target_freezable)
unfolding admitting
freezable = refl

require_allowed_mint_iff_example :
    (require_allowed_mint (some coin) true ≡ ok coin) ↔ ((coin ≡ coin) × IsBurnable coin)
require_allowed_mint_iff_example = require_allowed_mint_iff coin coin

abbrev coin_account : TokenAccountSnapshot
coin_account = record {
  address = 70;
  owner_program = token_2022_program;
  initialized = true;
  mint = 5;
  authority = 63;
  amount = 4;
  is_native = false;
  delegate = none;
  close_authority = none;
  extension_types = 7 ∷ [];
}

coin_account_admitted :
    require_token_account (some coin_account) 70 token_2022_program 5 63 false ≡ ok coin_account
unfolding admitting
coin_account_admitted = refl

-- A decoder that knows one text.
abbrev pub decode : List ℕ → Bytes
decode base64 = route_v2_discriminator ++ (le_bytes 8 1_000 ++ zeroes 18)

abbrev pub route_accounts : List AccountMeta
route_accounts =
    map (λ k. record { pubkey = k; is_signer = k == 63; is_writable = false })
      (63 ∷ 64 ∷ 70 ∷ wsol_mint ∷ 5 ∷ token_program ∷ token_2022_program ∷ 70
        ∷ jupiter_event_authority ∷ jupiter_program ∷ 99 ∷ [])

abbrev pub reply : JupiterBuild
reply = record {
  failed = false;
  swap_mode = codes "ExactIn";
  in_amount = ok 1_000;
  input_mint = some wsol_mint;
  output_mint = some 5;
  platform_fee = none;
  swap_instruction = some (record {
    program_id = jupiter_program;
    accounts = some route_accounts;
    payload = codes "AA==";
  });
  setup_instructions = [];
  cleanup = false;
  tip = false;
  other_instructions = [];
}

reply_accepted :
    assert_route decode 63 64 5 70 token_2022_program 1_000 reply ≡ ok (decode (codes "AA=="))
unfolding routing le_bytes venue_reads le_value
reply_accepted = refl

assert_route-IsPinned_example :
    IsPinned decode 63 64 5 70 token_2022_program 1_000 reply (decode (codes "AA=="))
assert_route-IsPinned_example =
    assert_route-IsPinned decode 63 64 5 70 token_2022_program 1_000 reply (decode (codes "AA=="))
      reply_accepted

abbrev table_at : PublicKey → LookupTable
table_at key = record {
  key = key;
  deactivation_slot = 18_446_744_073_709_551_615;
  addresses = key ∷ 3 ∷ [];
}

abbrev get_table : PublicKey → Result (onchainburner.Base.Option LookupTable)
get_table key = ok (some (table_at key))

abbrev claimed : List (PublicKey × List PublicKey)
claimed = (81, 81 ∷ 3 ∷ []) ∷ []

tables_resolved :
    resolve_and_validate_lookup_tables get_table claimed (82 ∷ 81 ∷ [])
    ≡ ok (table_at 81 ∷ table_at 82 ∷ [])
unfolding looking_up
tables_resolved = refl

abbrev web3 : Web3
web3 = record {
  public_key = le_value;
  to_buffer = λ key. le_bytes 32 key;
  find_program_address = λ seeds program. program + length seeds;
  associated_token_address = λ mint owner program. mint + owner + program;
}

abbrev params : DirectCurveBuildParams
params = record {
  vault = 63;
  target_mint = 5;
  token_program = token_2022_program;
  target_ata = 70;
  fee_recipient = 71;
  buyback_fee_recipient = 72;
}

-- Every account is the live curve.
abbrev curve_everywhere : Reader
curve_everywhere key =
    ok (some (record { owner = pump_fun_program; content = zeroes 82; lamports = none }))

curve_leg :
    build_direct_curve_buy_accounts web3 curve_everywhere params
    ≡ ok (record { accounts = buy_accounts web3 params 0; missing_setup = [] })
unfolding curve_steps le_value
curve_leg = refl

build_direct_curve-IsShaped_example :
    IsShaped web3 curve_everywhere params (buy_accounts web3 params 0)
build_direct_curve-IsShaped_example =
    build_direct_curve-IsShaped web3 curve_everywhere params
      (record { accounts = buy_accounts web3 params 0; missing_setup = [] }) curve_leg

abbrev rates : List (PublicKey × Rate)
rates = (5, record { numerator = pos 2; denominator = pos 3 }) ∷ []

rate_rounds_up : required_minimum_output rates 100 5 ≡ ok 67
unfolding required_minimum_output
rate_rounds_up = refl

required_minimum_output-least_example :
    (numerator : ℕ) × (denominator : ℕ) × (rate_of 5 rates
      ≡ some (record { numerator = pos numerator; denominator = pos denominator }))
    × (0 < numerator)
    × (0 < denominator)
    × (100 * numerator ≤ 67 * denominator)
    × ((other : ℕ) → 100 * numerator ≤ other * denominator → 67 ≤ other)
required_minimum_output-least_example = required_minimum_output-least rates 100 5 67 rate_rounds_up

-- A request with one leg at Pump's venue, where every text is a key.
abbrev pub request_json : Json
request_json = object (
    field (codes "requestId") (text (codes "r-1")) (
      field (codes "launchMint") (text (codes "Launch")) (
        field (codes "amountIn") (text (codes "1000")) (
          field (codes "legs")
            (array (
              element
                (object (
                  field (codes "targetMint") (text (codes "Coin"))
                    (field (codes "bps") (integer (pos 10_000)) no_field)))
                no_element))
            no_field))))

abbrev pub request : BurnRequest
request = record {
  request_id = codes "r-1";
  launch_mint = codes "Launch";
  amount_in = codes "1000";
  legs = record { target_mint = codes "Coin"; bps = 10_000; reference = none } ∷ [];
  lookup_table_addresses = none;
}

abbrev every_text : Text → Bool
every_text t = true

request_parsed : parse_burn_request every_text request_json ≡ ok request
unfolding parsing
request_parsed = refl

parse_burn_request-IsRequest_example : IsRequest every_text request
parse_burn_request-IsRequest_example =
    parse_burn_request-IsRequest every_text request_json request request_parsed

abbrev with_setup : JupiterBuild
with_setup = record reply {
  setup_instructions =
      record { program_id = associated_token_program; accounts = none; payload = codes "AQ==" }
      ∷ [];
}

setup_accepted : assert_auxiliary_instructions with_setup ≡ ok with_setup.setup_instructions
unfolding routing
setup_accepted = refl
