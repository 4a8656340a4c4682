-- ===== src/Service.antt =====
-- `QuoteService` of quote-service/core.ts: its policy, what it asks of the chain, and (in the
-- children) how a burn is resolved, admitted, quoted, fitted, simulated and executed.
pub mod Admitted
pub mod Configured
pub mod Executed
pub mod Fitted
pub mod Quoted
pub mod Resolved
pub mod Simulated
pub mod Submittable
use onchainburner.Base.{
  ℕ, ◌+◌, Bool, true, false, not, ◌&&◌, ◌||◌, Option, none, some, Bytes, List, [], ◌∷◌, ltb, leb,
  ◌==◌, if◌then◌else◌,
}
use onchainburner.Base.Int.{ℤ, pos, negsuc}
use onchainburner.Base.Errors.{
  Result, ok, err, policy, ◌>>=◌, ◌>>◌, reject_if, policy_configuration,
}
use onchainburner.Chain.{PublicKey, Instruction, LookupTable}
use onchainburner.Reference.Venues.{Reader}
use onchainburner.Admission.{MintSnapshot, TokenAccountSnapshot}

-- The numbers of the policy are integers here, as every configuration of the repository has them.
pub record Policy : Type 0 where
  pub max_amount_per_burn : ℤ
  pub max_slippage_bps : ℤ
  pub max_price_impact_bps : ℤ
  pub compute_unit_limit : ℤ
  pub min_remaining_block_heights : ℕ
  pub lease_ttl_ms : ℤ
  pub fitting_max_accounts : List ℕ
  pub retry_attempts : Option ℤ

-- What the rest of the service reads of an accepted policy.
pub record Limits : Type 0 where
  pub max_amount : ℕ
  pub max_slippage_bps : ℕ
  pub max_price_impact_bps : ℕ
  pub compute_unit_limit : ℕ
  pub min_remaining_block_heights : ℕ
  pub fitting_max_accounts : List ℕ
  pub retry_limit : ℕ

-- A number in a range, both ends included.
abbrev pub in_range : ℕ → ℕ → ℤ → Result ℕ
in_range low high (pos n) =
    if leb low n && leb n high then ok n else err (policy policy_configuration)
in_range low high (negsuc n) = err (policy policy_configuration)

abbrev pub at_least : ℕ → ℤ → Result ℕ
at_least low (pos n) = if leb low n then ok n else err (policy policy_configuration)
at_least low (negsuc n) = err (policy policy_configuration)

-- `DEFAULT_RETRY_ATTEMPTS` is 2.
abbrev pub retries : Option ℤ → Result ℕ
retries none = ok 2
retries (some n) = in_range 0 5 n

-- The constructor.
unfoldable pub quote_service : Policy → Result Limits
quote_service p = do
  units ← in_range 200_001 1_400_000 p.compute_unit_limit
  slippage ← in_range 1 9_999 p.max_slippage_bps
  amount ← at_least 1 p.max_amount_per_burn
  impact ← in_range 0 10_000 p.max_price_impact_bps
  ttl ← at_least 180_000 p.lease_ttl_ms
  limit ← retries p.retry_attempts
  ok (record {
    max_amount = amount;
    max_slippage_bps = slippage;
    max_price_impact_bps = impact;
    compute_unit_limit = units;
    min_remaining_block_heights = p.min_remaining_block_heights;
    fitting_max_accounts = p.fitting_max_accounts;
    retry_limit = limit;
  })

pub record RawAccount : Type 0 where
  pub owner : PublicKey
  pub lamports : ℕ
  pub data_length : ℕ

-- `{ blockhash, lastValidBlockHeight, contextSlot }`
pub record Validity : Type 0 where
  pub blockhash : ℕ
  pub last_valid_block_height : ℕ
  pub context_slot : ℕ

-- A compiled message with its transaction, as @solana/web3.js gives them: `size` is the length of
-- the serialized transaction, where serializing does not throw; `looked_up` are the numbers of
-- writable and readonly indexes of each table; `decompiled` are the instructions that
-- `TransactionMessage.decompile` reads back, which may throw.
pub record Message : Type 0 where
  pub size : Option ℕ
  pub static_account_keys : List PublicKey
  pub looked_up : List (ℕ × ℕ)
  pub required_signatures : ℕ
  pub decompiled : Result (List Instruction)

-- A line of a simulation's log: `Program <id> failed: custom program error: 0x<code>`, or another.
pub data SimulationLine : Type 0 where
  frame_failed : (program : PublicKey) (code : ℕ) → SimulationLine
  other_line : SimulationLine

-- `names_budget` is whether the text of the error and the logs names an exceeded compute budget.
pub record Simulation : Type 0 where
  pub failed : Bool
  pub logs : List SimulationLine
  pub names_budget : Bool
  pub units_consumed : Option ℕ

-- `ChainGateway`. The answers that change between the rounds of a burn are indexed by the round:
-- the attempt and the rung of the ladder. The height is asked for twice, before and after signing.
pub record Gateway : Type 0 where
  pub get_mint : PublicKey → Result (Option MintSnapshot)
  pub get_token_account : PublicKey → Result (Option TokenAccountSnapshot)
  pub get_raw_account : PublicKey → Result (Option RawAccount)
  pub get_account_data : Reader
  pub get_table : PublicKey → Result (Option LookupTable)
  pub rent_floor : Result ℕ
  pub latest_blockhash : (attempt rung : ℕ) → Result Validity
  pub simulate : (attempt : ℕ) → Message → Result Simulation
  pub block_height : (signed : Bool) → Result ℕ
