-- ===== src/Tests/Services.antt =====
-- One burn on Pump's curve through the whole service: the first simulation fails with 6021, the
-- second is clean, and the burn is signed and submitted.
use onchainburner.Base.{
  ℕ, ◌+◌, ◌≡◌, ◌≤◌, ◌<◌, refl, Bool, true, false, Option, none, some, codes, List, [], ◌∷◌, list_eq,
  ◌==◌, if◌then◌else◌, le_bytes, le_value, arith,
}
use onchainburner.Base.Int.{pos}
use onchainburner.Base.Errors.{Result, ok, err, environment}
use onchainburner.Chain.{
  PublicKey, Instruction, LookupTable, wsol_mint, token_program, token_2022_program, burner_program,
  compute_budget_program, system_program,
}
use onchainburner.Reference.{pricing_steps}
use onchainburner.Reference.Venues.{venue_reads, zeroes}
use onchainburner.Reference.PumpFees.{fee_reads}
use onchainburner.Reference.Resolve.{resolving}
use onchainburner.Request.{Text, parsing}
use onchainburner.Vault.{vault_steps}
use onchainburner.Split.{split_amounts}
use onchainburner.Admission.{TokenAccountSnapshot, admitting}
use onchainburner.Admission.Tables.{looking_up}
use onchainburner.Curve.{DirectCurveLegBuild, buy_accounts, curve_steps}
use onchainburner.Wire.{building}
use onchainburner.Lease.{Store, empty, leasing}
use onchainburner.Service.{
  Policy, Limits, quote_service, Message, frame_failed, other_line, Simulation, Gateway,
}
use onchainburner.Service.Resolved.{ResolvedRequest, resolve_request, request_steps}
use onchainburner.Service.Resolved.Funded.{IsFunded, resolve_request-IsFunded}
use onchainburner.Service.Admitted.{AdmittedLeg, admit, admission_steps}
use onchainburner.Service.Admitted.Solvent.{IsSolvent, IsAdmittedLeg, admit-IsSolvent}
use onchainburner.Service.Fitted.{Candidate, caps, prepare_candidate}
use onchainburner.Service.Fitted.FirstFit.{IsFirstFit, prepare_candidate-IsFirstFit}
use onchainburner.Service.Simulated.{
  BuiltBurn, start, burner_kind, after_failure, attempts, build_and_simulate,
  classify_simulation_failure, resolve,
}
use onchainburner.Service.Simulated.Attempts.{
  Ends, Retries, after_failure-Retries, attempts-Ends, next_round,
}
use onchainburner.Service.Simulated.Blamed.{IsFirstFrame, classify_simulation_failure_iff}
use onchainburner.Service.Simulated.Clean.{IsBuilt, build_and_simulate-IsBuilt}
use onchainburner.Service.Executed.Submitted.{IsSubmitted}
use onchainburner.Service.Executed.Outcome.{
  IsFreed, IsSeen, left, execute_failed, execute_submitted, execute-IsSeen,
}
use onchainburner.Service.Executed.{request_number}
use onchainburner.Base.Errors.{Error, AllPairs}
use onchainburner.Base.{◌⊎◌, ◌↔◌, contains, drop}
use onchainburner.Lease.{holder}
use onchainburner.Service.Quoted.{Quoters, DirectCurveParams, quoting}
use onchainburner.Service.Fitted.{Dependencies, fitting}
use onchainburner.Service.Simulated.{PreparedBurn, prepare, simulating}
use onchainburner.Service.Executed.{MessageSigner, Keeper, BurnReceipt, execute, executing}
use onchainburner.Tests.Prices.{web3, chain, resolved_curve}
use onchainburner.Tests.Admissions.{coin, request_json, request}

abbrev policy_numbers : Policy
policy_numbers = record {
  max_amount_per_burn = pos 1_000_000_000;
  max_slippage_bps = pos 300;
  max_price_impact_bps = pos 500;
  compute_unit_limit = pos 1_400_000;
  min_remaining_block_heights = 40;
  lease_ttl_ms = pos 180_000;
  fitting_max_accounts = 40 ∷ 32 ∷ [];
  retry_attempts = none;
}

abbrev pub limits : Limits
limits = record {
  max_amount = 1_000_000_000;
  max_slippage_bps = 300;
  max_price_impact_bps = 500;
  compute_unit_limit = 1_400_000;
  min_remaining_block_heights = 40;
  fitting_max_accounts = 40 ∷ 32 ∷ [];
  retry_limit = 2;
}

limits_accepted : quote_service policy_numbers ≡ ok limits
unfolding quote_service
limits_accepted = refl

abbrev pub pda : PublicKey
pda = burner_program + 5

abbrev pub wsol_ata : PublicKey
wsol_ata = wsol_mint + pda + token_program

abbrev pub coin_ata : PublicKey
coin_ata = 5 + pda + token_2022_program

abbrev pub account_for : PublicKey → PublicKey → PublicKey → TokenAccountSnapshot
account_for address program mint = record {
  address = address;
  owner_program = program;
  initialized = true;
  mint = mint;
  authority = pda;
  amount = 0;
  is_native = mint == wsol_mint;
  delegate = none;
  close_authority = none;
  extension_types = [];
}

abbrev pub token_accounts : PublicKey → Result (Option TokenAccountSnapshot)
token_accounts key =
    if key == wsol_ata
    then ok (some (account_for wsol_ata token_program wsol_mint))
    else if key == coin_ata
    then ok (some (account_for coin_ata token_2022_program 5))
    else ok none

-- The first attempt fails with 6021 of the burner, the others use 300,000 units.
abbrev pub simulation : ℕ → Message → Result Simulation
simulation attempt message =
    if attempt == 0
    then ok (record {
      failed = true;
      logs = other_line ∷ frame_failed burner_program 6021 ∷ frame_failed 4 1 ∷ [];
      names_budget = false;
      units_consumed = none;
    })
    else ok
        (record { failed = false; logs = []; names_budget = false; units_consumed = some 300_000 })

abbrev pub gateway : Gateway
gateway = record {
  get_mint = λ key. ok (some (record coin { address = key }));
  get_token_account = token_accounts;
  get_raw_account =
      λ key. ok (some (record { owner = system_program; lamports = 2_000_000; data_length = 0 }));
  get_account_data = chain;
  get_table = λ key. ok none;
  rent_floor = ok 890_880;
  latest_blockhash = λ attempt rung.
      ok (record { blockhash = 77; last_valid_block_height = 1_000 + attempt; context_slot = 5 });
  simulate = simulation;
  block_height = λ signed. ok (if signed then 905 else 900);
}

abbrev pub curve_client : (attempt rung : ℕ) → DirectCurveParams → Result DirectCurveLegBuild
curve_client attempt rung p = ok (record {
  accounts =
      buy_accounts web3
        (record {
          vault = p.vault;
          target_mint = p.target_mint;
          token_program = p.token_program;
          target_ata = p.target_ata;
          fee_recipient = 71;
          buyback_fee_recipient = 72;
        })
        0;
  missing_setup = [];
})

abbrev pub quoters : Quoters
quoters = record {
  jupiter = λ attempt rung p. err environment;
  direct_curve = some curve_client;
  required_minimum_output = none;
}

abbrev pub compile : PublicKey → ℕ → List Instruction → List LookupTable → Result Message
compile payer blockhash instructions tables = ok (record {
  size = some 900;
  static_account_keys = payer ∷ burner_program ∷ compute_budget_program ∷ [];
  looked_up = [];
  required_signatures = 1;
  decompiled = ok instructions;
})

abbrev pub keys : Text → Option PublicKey
keys t =
    if list_eq t (codes "Coin") then some 5 else if list_eq t (codes "Launch") then some 8 else none

abbrev pub service : Dependencies
service = record {
  web3 = web3;
  public_key_of = keys;
  from_base64 = λ t. [];
  set_compute_unit_limit = λ units. record {
    program_id = compute_budget_program;
    keys = [];
    content = 2 ∷ le_bytes 4 units;
  };
  compile_to_v0_message = compile;
  chain = gateway;
  quoters = quoters;
  limits = limits;
  burner_program = burner_program;
}

abbrev pub keeper : Keeper
keeper = record {
  fee_payer_signer = some (record { public_key = 9; sign_message = λ message. ok (zeroes 64) });
  verify_signature = λ spki message signature. true;
  serialize = λ message signatures. ok (1 ∷ []);
  submit = λ wire. ok 4_242;
}

abbrev pub receipt : BurnReceipt
receipt = record {
  request_id = codes "r-1";
  vault = pda;
  submission_id = 4_242;
  last_valid_block_height = 1_001;
  context_slot = 5;
  transaction_bytes = 900;
  account_locks = 3;
  simulated_units = some 300_000;
  minimum_outputs = 32_933 ∷ [];
}

abbrev pub resolved : ResolvedRequest
resolved = record {
  request = request;
  launch_mint = 8;
  amount = 1_000;
  requested_legs = record { target_mint = 5; bps = 10_000; reference = resolved_curve } ∷ [];
  pda = pda;
}

request_resolved :
    resolve_request web3 keys chain burner_program 1_000_000_000 request_json ≡ ok resolved
unfolding request_steps parsing split_amounts vault_steps resolving pricing_steps venue_reads
    fee_reads le_bytes le_value
request_resolved = refl

resolve_request-IsFunded_example : IsFunded web3 keys chain burner_program 1_000_000_000 resolved
resolve_request-IsFunded_example =
    resolve_request-IsFunded web3 keys chain burner_program 1_000_000_000 request_json resolved
      request_resolved

abbrev pub admitted : AdmittedLeg
admitted = record {
  target_mint = 5;
  bps = 10_000;
  reference = resolved_curve;
  amount_in = 1_000;
  token_program = token_2022_program;
  ata = coin_ata;
  program_floor = 32_933;
}

resolved_admitted : admit web3 gateway resolved ≡ ok (wsol_ata, admitted ∷ [])
unfolding admission_steps admitting split_amounts pricing_steps
resolved_admitted = refl

admit-IsSolvent_example :
    IsSolvent web3 gateway pda 1_000 wsol_ata
    × AllPairs (IsAdmittedLeg web3 gateway pda) resolved.requested_legs (admitted ∷ [])
admit-IsSolvent_example =
    admit-IsSolvent web3 gateway resolved wsol_ata (admitted ∷ []) resolved_admitted

-- A run that gives a result, with the result that it gives.
abbrev succeeds : {A : Type 0} → Result A → Bool
succeeds (err e) = false
succeeds (ok a) = true

outcome : {A : Type 0} (r : Result A) → succeeds r ≡ true → (a : A) × (r ≡ ok a)
outcome (err e) h = cc
outcome (ok a) h = (a, refl)

first_candidate :
    (k : Candidate) × (prepare_candidate service resolved 9 wsol_ata (admitted ∷ []) [] 0 [] 0
      ≡ ok k)
unfolding fitting quoting building curve_steps le_bytes
first_candidate =
    outcome (prepare_candidate service resolved 9 wsol_ata (admitted ∷ []) [] 0 [] 0) refl

-- With the first blockhash the message is over 1232 bytes.
abbrev compile_large : PublicKey → ℕ → List Instruction → List LookupTable → Result Message
compile_large payer blockhash instructions tables = ok (record {
  size = some (if blockhash == 77 then 1_233 else 1_232);
  static_account_keys = payer ∷ burner_program ∷ compute_budget_program ∷ [];
  looked_up = [];
  required_signatures = 1;
  decompiled = ok instructions;
})

abbrev narrow_service : Dependencies
narrow_service = record service {
  compile_to_v0_message = compile_large;
  chain = record gateway {
    latest_blockhash = λ attempt rung.
        ok (record { blockhash = 77 + rung; last_valid_block_height = 1_000; context_slot = 5 });
  };
}

second_candidate :
    (k : Candidate) × (prepare_candidate narrow_service resolved 9 wsol_ata
        (admitted ∷ [])
        []
        0
        []
        0
      ≡ ok k)
unfolding fitting quoting building curve_steps le_bytes
second_candidate =
    outcome (prepare_candidate narrow_service resolved 9 wsol_ata (admitted ∷ []) [] 0 [] 0) refl

second_rung : second_candidate.0.cap_index ≡ 1
unfolding second_candidate fitting quoting building curve_steps le_bytes outcome
second_rung = refl

prepare_candidate-IsFirstFit_example :
    IsFirstFit narrow_service resolved 9 wsol_ata
      (admitted ∷ [])
      []
      0
      []
      0
      (drop 0 (caps narrow_service))
      second_candidate.0
prepare_candidate-IsFirstFit_example =
    prepare_candidate-IsFirstFit narrow_service resolved 9 wsol_ata (admitted ∷ []) [] 0 [] 0
      second_candidate.0 second_candidate.1

slipped_once :
    after_failure limits 3 start first_candidate.0 (burner_kind 6021) ≡ ok (next_round start)
unfolding simulating
slipped_once = refl

after_failure-Retries_example :
    (0 < 2) × Retries 3 start first_candidate.0 (burner_kind 6021) (next_round start)
after_failure-Retries_example =
    after_failure-Retries limits 3 start first_candidate.0 (burner_kind 6021) (next_round start)
      slipped_once

attempts-Ends_example :
    (n : ℕ) × Ends service resolved 9 wsol_ata
      (admitted ∷ [])
      []
      n
      start
      (attempts service resolved 9 wsol_ata (admitted ∷ []) [] 3 start)
    × (0 + n ≤ 3)
attempts-Ends_example =
    attempts-Ends service resolved 9 wsol_ata (admitted ∷ []) [] 3 start (omega arith) (omega arith)

burn_built : (b : BuiltBurn) × (build_and_simulate service resolved 9 ≡ ok b)
unfolding simulating fitting quoting admission_steps admitting building curve_steps looking_up
    split_amounts pricing_steps le_bytes
burn_built = outcome (build_and_simulate service resolved 9) refl

build_and_simulate-IsBuilt_example : IsBuilt service resolved 9 burn_built.0
build_and_simulate-IsBuilt_example =
    build_and_simulate-IsBuilt service resolved 9 burn_built.0 burn_built.1

pub burn_prepared : (b : PreparedBurn) × (prepare service request_json 9 ≡ ok b)
unfolding simulating fitting quoting admission_steps admitting building curve_steps looking_up
    request_steps parsing split_amounts vault_steps resolving pricing_steps venue_reads fee_reads
    le_bytes le_value prepare
burn_prepared = outcome (prepare service request_json 9) refl

abbrev store_behind : Store
store_behind = record {
  active = (pda, 0) ∷ [];
  submitted = 493_939_327_187 ∷ [];
  leases = record { vault = pda; token = 0; request = 493_939_327_187; released = true } ∷ [];
  timers = record { vault = pda; token = 0 } ∷ [];
  next_token = 1;
}

-- The store while the run of a request holds its lease.
abbrev left_behind : ResolvedRequest → Store
left_behind r = left service keeper (λ u. u) empty r

burn_executed : execute service keeper (λ u. u) empty request_json ≡ (ok receipt, store_behind)
unfolding executing simulating fitting quoting admission_steps admitting building curve_steps
    leasing looking_up request_steps parsing split_amounts vault_steps resolving pricing_steps
    venue_reads fee_reads le_bytes le_value
burn_executed = refl

execute_submitted_example :
    (signer : MessageSigner) × (r : ResolvedRequest) × (resolve service request_json ≡ ok r)
    × (holder r.pda [] ≡ none)
    × (contains (request_number 0 r.request.request_id) [] ≡ false)
    × IsSubmitted service keeper request_json signer r receipt
    × (store_behind.active ≡ (left_behind r).active)
    × (store_behind.submitted ≡ request_number 0 r.request.request_id ∷ (left_behind r).submitted)
execute_submitted_example =
    execute_submitted service keeper (λ u. u) empty (λ t. refl) request_json receipt store_behind
      burn_executed

execute-IsSeen_example :
    ((e : Error) × (ok receipt ≡ err e) × IsSeen store_behind (λ v. holder v []) [])
    ⊎ ((given : BurnReceipt) × (r : ResolvedRequest) × (ok receipt ≡ ok given)
        × (resolve service request_json ≡ ok r)
        × IsSeen store_behind
            (λ v. if r.pda == v then some 0 else holder v [])
            (request_number 0 r.request.request_id ∷ []))
execute-IsSeen_example =
    execute-IsSeen service keeper empty request_json (ok receipt) store_behind burn_executed

-- The same burn with a submitter that cannot be reached.
abbrev offline : Keeper
offline = record keeper { submit = λ wire. err environment }

abbrev store_freed : Store
store_freed = record {
  active = [];
  submitted = [];
  leases = record { vault = pda; token = 0; request = 493_939_327_187; released = true } ∷ [];
  timers = [];
  next_token = 1;
}

burn_failed : execute service offline (λ u. u) empty request_json ≡ (err environment, store_freed)
unfolding executing simulating fitting quoting admission_steps admitting building curve_steps
    leasing looking_up request_steps parsing split_amounts vault_steps resolving pricing_steps
    venue_reads fee_reads le_bytes le_value
burn_failed = refl

execute_failed_example :
    (store_freed ≡ empty)
    ⊎ ((r : ResolvedRequest) × (resolve service request_json ≡ ok r)
        × (holder r.pda [] ≡ none)
        × IsFreed service offline
            (λ u. u)
            empty
            r
            (left service offline (λ u. u) empty r)
            store_freed)
execute_failed_example =
    execute_failed service offline (λ u. u) empty (λ t. refl) request_json environment store_freed
      burn_failed

classify_simulation_failure_iff_example :
    (classify_simulation_failure burner_program false
        (other_line ∷ frame_failed burner_program 6021 ∷ frame_failed 4 1 ∷ [])
      ≡ burner_kind 6021)
    ↔ IsFirstFrame burner_program 6021
        (other_line ∷ frame_failed burner_program 6021 ∷ frame_failed 4 1 ∷ [])
classify_simulation_failure_iff_example =
    classify_simulation_failure_iff burner_program false
      (other_line ∷ frame_failed burner_program 6021 ∷ frame_failed 4 1 ∷ []) 6021
