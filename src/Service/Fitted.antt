-- ===== src/Service/Fitted.antt =====
-- `buildAndSimulate`, one round and the ladder of account caps: the legs are prepared, compiled and
-- measured, and the first cap of which the transaction fits is taken.
pub mod Fitting
pub mod Passed
pub mod FirstFit
use onchainburner.Base.{
  ℕ, ◌+◌, Bool, true, false, not, ◌&&◌, ◌||◌, Option, none, some, Bytes, List, [], ◌∷◌, ◌++◌, map,
  length, take, drop, sum, all, contains, list_eq, leb, ◌==◌, if◌then◌else◌,
}
use onchainburner.Base.Errors.{
  Result, ok, err, policy, environment, ◌>>=◌, ◌>>◌, reject_if, require, map_result,
  transaction_too_large, top_level_instruction_policy, signer_layout,
}
use onchainburner.Chain.{PublicKey, Web3, Instruction, LookupTable, compute_budget_program}
use onchainburner.Request.{Text}
use onchainburner.Wire.{PreparedLeg, build_burn_instruction}
use onchainburner.Admission.Tables.{resolve_and_validate_lookup_tables}
use onchainburner.Service.{Gateway, Limits, Validity, Message}
use onchainburner.Service.Resolved.{ResolvedRequest}
use onchainburner.Service.Admitted.{AdmittedLeg}
use onchainburner.Service.Quoted.{Quoters, prepare_legs}
use mathlib.Core.List.{flat_map}

-- What the service is built with: the libraries' functions, the clients and the accepted policy.
pub record Dependencies : Type 0 where
  pub web3 : Web3
  pub public_key_of : Text → Option PublicKey
  pub from_base64 : List ℕ → Bytes
  -- `ComputeBudgetProgram.setComputeUnitLimit`
  pub set_compute_unit_limit : ℕ → Instruction
  -- `new TransactionMessage({payerKey, recentBlockhash, instructions}).compileToV0Message(tables)`
  pub compile_to_v0_message : PublicKey → ℕ → List Instruction → List LookupTable → Result Message
  pub chain : Gateway
  pub quoters : Quoters
  pub limits : Limits
  pub burner_program : PublicKey

abbrev pub max_transaction_bytes : ℕ
max_transaction_bytes = 1232

abbrev pub max_account_locks : ℕ
max_account_locks = 64

-- An entry of a `Map` from keys to tables: a key keeps its place and takes the later table.
pub put_table : LookupTable → List LookupTable → List LookupTable
put_table t [] = t ∷ []
put_table t (u ∷ us) = let rest = put_table t us in if u.key == t.key then t ∷ us else u ∷ rest

-- The values of the `Map` of the tables, in order of insertion.
pub merge_tables : List LookupTable → List LookupTable → List LookupTable
merge_tables merged [] = merged
merge_tables merged (t ∷ ts) = merge_tables (put_table t merged) ts

-- `bytes`: a transaction that cannot be serialized is one byte too long.
abbrev pub bytes_of : Option ℕ → ℕ
bytes_of none = max_transaction_bytes + 1
bytes_of (some size) = size

pub locks_of : Message → ℕ
locks_of message =
    length message.static_account_keys + sum (map (λ (l : ℕ × ℕ). l.0 + l.1) message.looked_up)

abbrev pub or_empty : Option (List Text) → List Text
or_empty none = []
or_empty (some addresses) = addresses

abbrev pub is_unbounded : Option ℕ → Bool
is_unbounded none = true
is_unbounded (some n) = false

-- The two top-level instructions, read back, are the ones that were compiled.
pub is_compute_and_burn : PublicKey → (compute burn : Instruction) → List Instruction → Bool
is_compute_and_burn program compute burn (a ∷ b ∷ []) =
    a.program_id == compute_budget_program
    && b.program_id == program
    && list_eq a.content compute.content
    && list_eq b.content burn.content
is_compute_and_burn program compute burn _ = false

pub is_sole_signer : PublicKey → List PublicKey → Bool
is_sole_signer fee_payer (key ∷ []) = key == fee_payer
is_sole_signer fee_payer _ = false

-- A round before its message is measured.
pub record Compiled : Type 0 where
  pub legs : List PreparedLeg
  pub lookup_tables : List LookupTable
  pub burn : Instruction
  pub validity : Validity
  pub message : Message

-- `final`
pub record Candidate : Type 0 where
  pub message : Message
  pub lookup_tables : List LookupTable
  pub legs : List PreparedLeg
  pub bytes : ℕ
  pub locks : ℕ
  pub cap_index : ℕ
  pub validity : Validity

module _ (d : Dependencies) where
  -- `requestedTables`
  pub requested_tables : ResolvedRequest → Result (List LookupTable)
  requested_tables r = do
    keys ←
        map_result (λ t. require (d.public_key_of t) environment)
          (or_empty r.request.lookup_table_addresses)
    resolve_and_validate_lookup_tables d.chain.get_table [] keys

  pub caps : List (Option ℕ)
  caps = none ∷ map some d.limits.fitting_max_accounts

  module _ (r : ResolvedRequest) (fee_payer wsol_ata : PublicKey) (admitted : List AdmittedLeg)
      (requested : List LookupTable) where
    -- `vaultAltCovers`
    pub vault_alt_covers : Bool
    vault_alt_covers =
        let covered = flat_map (λ (t : LookupTable). t.addresses) requested in
        all (λ key. contains key covered)
          (r.pda
            ∷ wsol_ata
            ∷ flat_map (λ (leg : AdmittedLeg). leg.ata ∷ leg.reference.pool ∷ []) admitted)

    pub compile_round :
        (attempt rung : ℕ) (cap : Option ℕ) (pump_excluded_legs : List ℕ) → Result Compiled
    compile_round attempt rung cap excluded = do
      legs ←
          prepare_legs d.web3 d.from_base64 d.chain d.quoters d.limits r.pda wsol_ata attempt rung
            cap excluded 0 admitted
      let tables =
          merge_tables [] (flat_map (λ (leg : PreparedLeg). leg.lookup_tables) legs ++ requested)
      burn ←
          build_burn_instruction d.burner_program fee_payer r.launch_mint r.pda wsol_ata r.amount
            legs
      validity ← d.chain.latest_blockhash attempt rung
      message ←
          d.compile_to_v0_message fee_payer validity.blockhash
            (d.set_compute_unit_limit d.limits.compute_unit_limit ∷ burn ∷ []) tables
      ok (record {
        legs = legs;
        lookup_tables = tables;
        burn = burn;
        validity = validity;
        message = message;
      })

    -- The message is checked once more, and the round taken.
    pub accept_round : (rung : ℕ) → Compiled → Result (Option Candidate)
    accept_round rung c = do
      decompiled ← c.message.decompiled
      let compute = d.set_compute_unit_limit d.limits.compute_unit_limit
      reject_if (not (is_compute_and_burn d.burner_program compute c.burn decompiled))
          top_level_instruction_policy
      reject_if
          (not (
            is_sole_signer fee_payer
              (take c.message.required_signatures c.message.static_account_keys)))
          signer_layout
      ok (
          some (record {
            message = c.message;
            lookup_tables = c.lookup_tables;
            legs = c.legs;
            bytes = bytes_of c.message.size;
            locks = locks_of c.message;
            cap_index = rung;
            validity = c.validity;
          }))

    -- No narrower route can help a large vault that no table covers.
    abbrev pub pass_round : Option ℕ → Result (Option Candidate)
    pass_round cap = do
      reject_if (is_unbounded cap && (leb 3 (length admitted) && not vault_alt_covers))
          transaction_too_large
      ok none

    pub fits : Compiled → Bool
    fits c =
        leb (bytes_of c.message.size) max_transaction_bytes
        && leb (locks_of c.message) max_account_locks

    -- One round of the ladder: a candidate, or nothing where it does not fit.
    pub fit_round :
        (attempt rung : ℕ) (cap : Option ℕ) (pump_excluded_legs : List ℕ)
        → Result (Option Candidate)
    fit_round attempt rung cap excluded = do
      c ← compile_round attempt rung cap excluded
      if fits c then accept_round rung c else pass_round cap

    -- The ladder, over the caps from the number `rung`.
    pub ladder :
        (attempt : ℕ) (pump_excluded_legs : List ℕ) (rung : ℕ)
        → List (Option ℕ)
        → Result (Option Candidate)
    ladder attempt excluded rung [] = ok none
    ladder attempt excluded rung (cap ∷ rest) = do
      found ← fit_round attempt rung cap excluded
      let later = ladder attempt excluded (rung + 1) rest
      elim found [ none ↦ later | some c ↦ ok (some c) ]

    -- The candidate of an attempt.
    pub prepare_candidate :
        (attempt : ℕ) (pump_excluded_legs : List ℕ) (cap_start : ℕ) → Result Candidate
    prepare_candidate attempt excluded cap_start = do
      found ← ladder attempt excluded cap_start (drop cap_start caps)
      require found (policy transaction_too_large)

-- What a test unfolds.
unfoldable pub fitting : Unit {0}
unfolding prepare_candidate ladder fit_round accept_round compile_round fits vault_alt_covers caps
    requested_tables is_sole_signer is_compute_and_burn locks_of merge_tables put_table
fitting = tt
