-- ===== src/Indexer/Burns.antt =====
-- `decodeBurnTransaction` of app/community-indexer.ts: the burn records of one transaction.
pub mod Totals
pub mod Whole
use onchainburner.Base.{
  ℕ, zero, suc, ◌+◌, ◌*◌, Bool, true, false, not, Option, none, some, List, [], ◌∷◌, ◌++◌, map,
  length, get_elem?, ltb, ◌==◌, if◌then◌else◌,
}
use onchainburner.Base.Int.{ℤ, pos, negsuc}
use onchainburner.Base.Maybe.{◌>>=◌, ◌>>◌, fail_if}
use mathlib.Core.List.{tail}
use onchainburner.Chain.{PublicKey, burner_program}
use onchainburner.Split.{indexer_split_amounts}
use onchainburner.Indexer.{SplitCall, decode_split}
use onchainburner.Indexer.Logs.{LogLine, burn_log_groups}

-- `data` is a base58 text, as its character codes.
pub record CompiledInstruction : Type 0 where
  pub program_id_index : ℕ
  pub accounts : List ℕ
  pub payload : List ℕ

pub record Meta : Type 0 where
  pub failed : Bool
  pub log_messages : List LogLine
  pub writable : List PublicKey
  pub readonly : List PublicKey

-- `meta` may be null; absent log messages and loaded addresses are empty lists, as `?? []` has it.
pub record TransactionResult : Type 0 where
  pub slot : ℕ
  pub block_time : Option ℕ
  pub outcome : Option Meta
  pub account_keys : List PublicKey
  pub instructions : List CompiledInstruction

pub record IndexedBurnLeg : Type 0 where
  pub signature : ℕ
  pub instruction_index : ℕ
  pub leg_index : ℕ
  pub slot : ℕ
  pub block_time : Option ℕ
  pub launch_mint : PublicKey
  pub vault : PublicKey
  pub target_mint : PublicKey
  pub reference_pool : PublicKey
  pub bps : ℕ
  pub sol_lamports : ℕ
  pub burned_atoms : ℕ

-- `loggedInput === amounts[legIndex]`
abbrev pub is_amount : ℤ → ℕ → Bool
is_amount (pos a) input = a == input
is_amount (negsuc a) input = false

module _ (signature : ℕ) (tx : TransactionResult) (account_keys : List PublicKey) where
  -- `accountKeys[instruction.accounts[index]]`
  pub key_at : CompiledInstruction → ℕ → Option PublicKey
  key_at call index = get_elem? call.accounts index >>= get_elem? account_keys

  module _ (call : CompiledInstruction) (index : ℕ) (split : SplitCall) (amounts : List ℤ)
      (logs : List ℕ) (launch_mint vault : PublicKey) where
    -- One round over the legs; `none` is `valid = false`.
    pub leg_row : ℕ → Option IndexedBurnLeg
    leg_row leg_index = do
      target_mint ← key_at call (8 + leg_index * 7)
      reference_pool ← key_at call (11 + leg_index * 7)
      logged_input ← get_elem? logs (leg_index * 2)
      burned_atoms ← get_elem? logs (leg_index * 2 + 1)
      amount ← get_elem? amounts leg_index
      bps ← get_elem? split.weights leg_index
      fail_if (not (is_amount amount logged_input))
      fail_if (burned_atoms == 0)
      some (record {
        signature = signature;
        instruction_index = index;
        leg_index = leg_index;
        slot = tx.slot;
        block_time = tx.block_time;
        launch_mint = launch_mint;
        vault = vault;
        target_mint = target_mint;
        reference_pool = reference_pool;
        bps = bps;
        sol_lamports = logged_input;
        burned_atoms = burned_atoms;
      })

    -- The rounds from `leg_index` on, by the number of legs left.
    pub leg_rows : ℕ → ℕ → Option (List IndexedBurnLeg)
    leg_rows zero leg_index = some []
    leg_rows (suc left) leg_index = do
      row ← leg_row leg_index
      rows ← leg_rows left (leg_index + 1)
      some (row ∷ rows)

  -- The body of the loop over the burner's calls, behind `decodeSplit`; `none` is `continue`, and
  -- also a call with an invalid leg: neither adds a row.
  pub call_rows :
      CompiledInstruction → ℕ → SplitCall → Option (List ℕ) → Option (List IndexedBurnLeg)
  call_rows call index split group = do
    logs ← group
    fail_if (not (length logs == length split.weights * 2))
    fail_if (ltb (length call.accounts) (8 + length split.weights * 7))
    launch_mint ← key_at call 4
    vault ← key_at call 2
    leg_rows call index split (indexer_split_amounts split.total split.weights) logs launch_mint
        vault (length split.weights) 0

  abbrev pub or_empty : Option (List IndexedBurnLeg) → List IndexedBurnLeg
  or_empty none = []
  or_empty (some rows) = rows

  -- `accountKeys[instruction.programIdIndex] === BURNER_PROGRAM`
  pub is_burner_call : CompiledInstruction → Bool
  is_burner_call call = elim (get_elem? account_keys call.program_id_index) [
    | none ↦ false
    | some key ↦ key == burner_program
  ]

  -- One call of the burner, from what it decodes to: a call that does not decode is skipped and
  -- takes no group of logs.
  pub call_then :
      CompiledInstruction
      → ℕ
      → List (List ℕ)
      → (skipped later : List IndexedBurnLeg) → Option SplitCall
      → List IndexedBurnLeg
  call_then call index groups skipped later none = skipped
  call_then call index groups skipped later (some split) =
      or_empty (call_rows call index split (get_elem? groups 0)) ++ later

  -- The loop over all instructions; one of another program is filtered out, and `index` is the
  -- place of an instruction in the message. `groups` are those from `burnCall` on.
  pub calls_loop : List (List ℕ) → ℕ → List CompiledInstruction → List IndexedBurnLeg
  calls_loop groups index [] = []
  calls_loop groups index (call ∷ calls) =
      let skipped = calls_loop groups (index + 1) calls in
      let later = calls_loop (tail groups) (index + 1) calls in
      if is_burner_call call
      then call_then call index groups skipped later (decode_split call.payload)
      else skipped

-- `none` is `transaction.meta === null`.
pub outcome_rows : ℕ → TransactionResult → Option Meta → List IndexedBurnLeg
outcome_rows signature tx none = []
outcome_rows signature tx (some outcome) =
    if outcome.failed
    then []
    else calls_loop signature tx (tx.account_keys ++ (outcome.writable ++ outcome.readonly))
        (burn_log_groups outcome.log_messages) 0 tx.instructions

pub decode_burn_transaction : ℕ → TransactionResult → List IndexedBurnLeg
decode_burn_transaction signature tx = outcome_rows signature tx tx.outcome

-- What a test unfolds.
unfoldable pub indexing : Unit {0}
unfolding decode_burn_transaction outcome_rows calls_loop call_then is_burner_call call_rows
    leg_rows leg_row key_at
indexing = tt
