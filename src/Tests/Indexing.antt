-- ===== src/Tests/Indexing.antt =====
-- Base58, the indexer's reading of a call, of a log and of a transaction.
use onchainburner.Base.{
  ℕ, ◌≡◌, refl, true, false, none, some, Bytes, List, [], ◌∷◌, ◌++◌, All, IsByte, codes, le_value,
  read_le,
}
use onchainburner.Chain.{PublicKey, burner_program}
use onchainburner.Base.Maybe.{◌>>=◌}
use onchainburner.Base58.{decode_base58, decoding}
use onchainburner.Base58.Laws.{decode_base58-spell, be_value, spell}
use onchainburner.Indexer.{SplitCall, decode_split, reading}
use onchainburner.Indexer.Sound.{IsConfig, decode_split-IsConfig}
use onchainburner.Indexer.Logs.{LogLine, invoke, finished, logged, other, burn_log_groups, grouping}
use onchainburner.Indexer.Logs.Nesting.{
  Call, call, done, values, text, inner, log_of_all, groups_of, burn_log_groups-log_of_all,
}
use onchainburner.Indexer.Burns.{
  CompiledInstruction, TransactionResult, IndexedBurnLeg, call_rows, decode_burn_transaction,
  indexing,
}
use onchainburner.Indexer.Burns.Whole.{FromWholeCalls, decode_burn_transaction-FromWholeCalls}
use onchainburner.Split.{indexer_split_amounts, share}

decoded : decode_base58 (codes "1Z") ≡ some (0 ∷ 32 ∷ [])
unfolding decoding
decoded = refl

-- A burn of 1000 lamports with one leg.
abbrev burn_text : List ℕ
burn_text = codes "GgdXFdBEYSUDyVkb3Jmjsoh8Pdd8hzTwACk5yvytP7QGTRHZ"

abbrev one_leg : SplitCall
one_leg = record { total = 1_000; weights = 10_000 ∷ [] }

burn_text_read : decode_split burn_text ≡ some one_leg
unfolding reading decoding le_value
burn_text_read = refl

decode_split-IsConfig_example : IsConfig one_leg
decode_split-IsConfig_example = decode_split-IsConfig burn_text burn_text_read

-- The burner under which another program logs too, and a call of that program.
abbrev calls : List Call
calls =
    call 7 (values 1 2 done)
    ∷ call burner_program (inner (call 7 (values 3 4 done)) (text (values 1_000 55 done)))
    ∷ call burner_program done
    ∷ []

calls_log :
    log_of_all calls
    ≡ invoke 7 1
      ∷ logged 1 2
      ∷ finished 7
      ∷ invoke burner_program 1
      ∷ invoke 7 2
      ∷ logged 3 4
      ∷ finished 7
      ∷ other
      ∷ logged 1_000 55
      ∷ finished burner_program
      ∷ invoke burner_program 1
      ∷ finished burner_program
      ∷ []
unfolding log_of_all onchainburner.Indexer.Logs.Nesting.log_of
calls_log = refl

burn_log_groups-log_of_all_example :
    burn_log_groups (log_of_all calls)
    ≡ onchainburner.Base.keep_if onchainburner.Indexer.Logs.is_filled (groups_of calls)
burn_log_groups-log_of_all_example = burn_log_groups-log_of_all calls

abbrev burn_call : CompiledInstruction
burn_call = record {
  program_id_index = 1;
  accounts = 0 ∷ 1 ∷ 2 ∷ 3 ∷ 4 ∷ 0 ∷ 0 ∷ 0 ∷ 5 ∷ 0 ∷ 0 ∷ 6 ∷ 0 ∷ 0 ∷ 0 ∷ [];
  payload = burn_text;
}

abbrev keys : List PublicKey
keys = 100 ∷ burner_program ∷ 102 ∷ 103 ∷ 104 ∷ 105 ∷ []

abbrev transaction : TransactionResult
transaction = record {
  slot = 9;
  block_time = none;
  outcome = some (record {
    failed = false;
    log_messages = invoke burner_program 1 ∷ logged 1_000 55 ∷ finished burner_program ∷ [];
    writable = 106 ∷ [];
    readonly = [];
  });
  account_keys = keys;
  instructions = burn_call ∷ [];
}

abbrev burn_row : IndexedBurnLeg
burn_row = record {
  signature = 77;
  instruction_index = 0;
  leg_index = 0;
  slot = 9;
  block_time = none;
  launch_mint = 104;
  vault = 102;
  target_mint = 105;
  reference_pool = 106;
  bps = 10_000;
  sol_lamports = 1_000;
  burned_atoms = 55;
}

indexed : decode_burn_transaction 77 transaction ≡ burn_row ∷ []
unfolding indexing reading decoding grouping le_value indexer_split_amounts share
indexed = refl

one_call :
    call_rows 77 transaction (keys ++ 106 ∷ []) burn_call 0 one_leg (some (1_000 ∷ 55 ∷ []))
    ≡ some (burn_row ∷ [])
unfolding indexing indexer_split_amounts share
one_call = refl

decode_base58-spell_example :
    (decode_base58 (codes "1Z") >>= λ bs. some (be_value 0 bs)) ≡ spell 0 (codes "1Z")
decode_base58-spell_example = decode_base58-spell (codes "1Z")

decode_burn_transaction-FromWholeCalls_example :
    FromWholeCalls transaction.instructions (decode_burn_transaction 77 transaction)
decode_burn_transaction-FromWholeCalls_example =
    decode_burn_transaction-FromWholeCalls 77 transaction
