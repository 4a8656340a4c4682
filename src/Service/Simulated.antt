-- ===== src/Service/Simulated.antt =====
-- `classifySimulationFailure` of quote-service/core.ts and the loop of attempts of
-- `buildAndSimulate`, with what the loop hands on to `prepare`.
pub mod Attempts
pub mod Blamed
pub mod Clean
pub mod Whole
use onchainburner.Base.{
  ℕ, zero, suc, ◌+◌, Bool, true, false, not, ◌&&◌, ◌||◌, Option, none, some, List, [], ◌∷◌, ◌++◌,
  map, length, any, ltb, ◌==◌, if◌then◌else◌,
}
use onchainburner.Base.Errors.{
  Result, ok, err, policy, environment, ◌>>=◌, ◌>>◌, reject_if, simulation_failed, compute_limit,
  external_simulation_failure, blockhash_too_old,
}
use onchainburner.Chain.{PublicKey, AccountMeta, LookupTable, pump_fun_program, pump_amm_program}
use onchainburner.Request.{Text, Json}
use onchainburner.Wire.{PreparedLeg}
use onchainburner.Service.{
  Limits, Validity, Message, SimulationLine, frame_failed, other_line, Simulation,
}
use onchainburner.Service.Resolved.{ResolvedRequest, resolve_request}
use onchainburner.Service.Admitted.{AdmittedLeg, admit}
use onchainburner.Service.Fitted.{
  Dependencies, Candidate, requested_tables, caps, prepare_candidate,
}

-- `SimulationFailureAttribution`: the kinds "burner", "external", "compute" and "unknown".
pub data SimulationFailureAttribution : Type 0 where
  burner_kind : (code : ℕ) → SimulationFailureAttribution
  external_kind : (program_id : PublicKey) (code : ℕ) → SimulationFailureAttribution
  compute_kind unknown_kind : SimulationFailureAttribution

-- The innermost frame that failed is the first of the log.
pub classify_simulation_failure :
    (burner_program : PublicKey) (names_budget : Bool)
    → List SimulationLine
    → SimulationFailureAttribution
classify_simulation_failure burner_program names_budget [] =
    if names_budget then compute_kind else unknown_kind
classify_simulation_failure burner_program names_budget (frame_failed program code ∷ lines) =
    if program == burner_program then burner_kind code else external_kind program code
classify_simulation_failure burner_program names_budget (other_line ∷ lines) =
    classify_simulation_failure burner_program names_budget lines

abbrev pub is_pump_account : AccountMeta → Bool
is_pump_account a = a.pubkey == pump_fun_program || a.pubkey == pump_amm_program

-- `pumpVenueLegIndexes`, from the number `index`.
pub pump_venue_leg_indexes : ℕ → List PreparedLeg → List ℕ
pump_venue_leg_indexes index [] = []
pump_venue_leg_indexes index (leg ∷ legs) =
    let rest = pump_venue_leg_indexes (index + 1) legs in
    if any is_pump_account leg.route_accounts then index ∷ rest else rest

-- `legs.map((_, legIndex) => legIndex)`
abbrev pub all_indexes : ℕ → List PreparedLeg → List ℕ
all_indexes index [] = []
all_indexes index (leg ∷ legs) = index ∷ all_indexes (index + 1) legs

-- The variables of the loop. `pump_excluded_legs` is a set, as a list of its elements.
pub record Progress : Type 0 where
  pub attempt : ℕ
  pub pump_excluded_legs : List ℕ
  pub cap_start_index : ℕ
  pub cashback_retry_used : Bool

abbrev pub start : Progress
start = record {
  attempt = 0;
  pump_excluded_legs = [];
  cap_start_index = 0;
  cashback_retry_used = false;
}

-- What an attempt leaves: the end of the loop, or its next round.
pub data AfterAttempt : Type 0 where
  done : Candidate → Simulation → AfterAttempt
  again : Progress → AfterAttempt

pub over_compute_limit : Limits → Simulation → Bool
over_compute_limit limits s =
    not s.failed
    && elim s.units_consumed [ none ↦ false | some units ↦ ltb limits.compute_unit_limit units ]

-- `const attribution`
abbrev pub attribution_of : PublicKey → Simulation → SimulationFailureAttribution
attribution_of burner_program s =
    if s.failed
    then classify_simulation_failure burner_program s.names_budget s.logs
    else compute_kind

-- The legs that the one retry after a 6018 keeps off the Pump venues.
pub offending : List PreparedLeg → List ℕ
offending legs =
    let touched = pump_venue_leg_indexes 0 legs in
    if length touched == 0 then all_indexes 0 legs else touched

-- What a failed simulation leads to: the next round, or the error that ends the burn.
pub after_failure :
    Limits → (cap_count : ℕ) → Progress → Candidate → SimulationFailureAttribution → Result Progress
after_failure limits cap_count p k (burner_kind code) =
    if code == 6018 && (not p.cashback_retry_used && ltb p.attempt limits.retry_limit)
    then ok (record p {
      attempt = p.attempt + 1;
      pump_excluded_legs = offending k.legs ++ p.pump_excluded_legs;
      cashback_retry_used = true;
    })
    else if code == 6021 && ltb p.attempt limits.retry_limit
    then ok (record p { attempt = p.attempt + 1 })
    else err (policy simulation_failed)
after_failure limits cap_count p k compute_kind =
    if ltb p.attempt limits.retry_limit && ltb (k.cap_index + 1) cap_count
    then ok (record p { attempt = p.attempt + 1; cap_start_index = k.cap_index + 1 })
    else err (policy compute_limit)
after_failure limits cap_count p k (external_kind program code) =
    if ltb p.attempt limits.retry_limit
    then ok (record p { attempt = p.attempt + 1 })
    else err (policy external_simulation_failure)
after_failure limits cap_count p k unknown_kind =
    if ltb p.attempt limits.retry_limit
    then ok (record p { attempt = p.attempt + 1 })
    else err (policy external_simulation_failure)

-- `BuiltBurn`, without its digest; the transaction is the message, which nobody has signed.
pub record BuiltBurn : Type 0 where
  pub message : Message
  pub legs : List PreparedLeg
  pub bytes : ℕ
  pub locks : ℕ
  pub validity : Validity
  pub simulated_units : Option ℕ

-- The block height after which too little of the blockhash's life remains.
abbrev pub is_too_old : Limits → Validity → ℕ → Bool
is_too_old limits v height =
    ltb v.last_valid_block_height (limits.min_remaining_block_heights + height)

module _ (d : Dependencies) (r : ResolvedRequest) (fee_payer : PublicKey) where
  module _ (wsol_ata : PublicKey) (admitted : List AdmittedLeg) (requested : List LookupTable) where
    -- One round of the loop.
    pub try_attempt : Progress → Result AfterAttempt
    try_attempt p = do
      k ←
          prepare_candidate d r fee_payer wsol_ata admitted requested p.attempt p.pump_excluded_legs
            p.cap_start_index
      s ← d.chain.simulate p.attempt k.message
      let retry = do
        q ← after_failure d.limits (length (caps d)) p k (attribution_of d.burner_program s)
        ok (again q)
      if not s.failed && not (over_compute_limit d.limits s) then ok (done k s) else retry

    -- The rest of the loop behind a round.
    abbrev pub resume :
        (Progress → Result (Candidate × Simulation))
        → Result AfterAttempt
        → Result (Candidate × Simulation)
    resume next (err e) = err e
    resume next (ok (done k s)) = ok (k, s)
    resume next (ok (again q)) = next q

    -- The loop has no bound of its own: `fuel` is one.
    pub attempts : (fuel : ℕ) → Progress → Result (Candidate × Simulation)
    attempts zero p = err environment
    attempts (suc fuel) p = resume (λ q. attempts fuel q) (try_attempt p)

  pub build_and_simulate : Result BuiltBurn
  build_and_simulate = do
    (wsol_ata, admitted) ← admit d.web3 d.chain r
    requested ← requested_tables d r
    (k, s) ← attempts wsol_ata admitted requested (suc d.limits.retry_limit) start
    height ← d.chain.block_height false
    reject_if (is_too_old d.limits k.validity height) blockhash_too_old
    ok (record {
      message = k.message;
      legs = k.legs;
      bytes = k.bytes;
      locks = k.locks;
      validity = k.validity;
      simulated_units = s.units_consumed;
    })

-- `PreparedBurn`
pub record PreparedBurn : Type 0 where
  pub request_id : Text
  pub vault : PublicKey
  pub message : Message
  pub last_valid_block_height : ℕ
  pub context_slot : ℕ
  pub transaction_bytes : ℕ
  pub account_locks : ℕ
  pub simulated_units : Option ℕ
  pub minimum_outputs : List ℕ

module _ (d : Dependencies) where
  pub resolve : Json → Result ResolvedRequest
  resolve raw =
      resolve_request d.web3 d.public_key_of d.chain.get_account_data d.burner_program
        d.limits.max_amount raw

  unfoldable pub prepare : Json → (fee_payer : PublicKey) → Result PreparedBurn
  prepare raw fee_payer = do
    r ← resolve raw
    built ← build_and_simulate d r fee_payer
    ok (record {
      request_id = r.request.request_id;
      vault = r.pda;
      message = built.message;
      last_valid_block_height = built.validity.last_valid_block_height;
      context_slot = built.validity.context_slot;
      transaction_bytes = built.bytes;
      account_locks = built.locks;
      simulated_units = built.simulated_units;
      minimum_outputs = map (λ (l : PreparedLeg). l.minimum_output) built.legs;
    })

-- What a test unfolds.
unfoldable pub simulating : Unit {0}
unfolding prepare resolve build_and_simulate attempts try_attempt after_failure offending
    over_compute_limit pump_venue_leg_indexes classify_simulation_failure
simulating = tt
