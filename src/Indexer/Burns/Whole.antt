-- ===== src/Indexer/Burns/Whole.antt =====
-- The rows of a whole transaction come from whole calls.
use onchainburner.Base.{
  ℕ, suc, All-map, ◌+◌, ◌≡◌, refl, ap, Bool, true, false, Option, none, some, List, [], ◌∷◌, ◌++◌,
  get_elem?, All, Option-cases, inl, inr, if◌then◌else◌,
}
use onchainburner.Chain.{PublicKey}
use onchainburner.Indexer.{SplitCall, decode_split}
use onchainburner.Indexer.Logs.{burn_log_groups}
use onchainburner.Indexer.Burns.{
  CompiledInstruction, Meta, TransactionResult, IndexedBurnLeg, call_rows, is_burner_call,
  calls_loop, call_then, outcome_rows, or_empty, decode_burn_transaction,
}
use onchainburner.Indexer.Burns.Totals.{IsComplete, call_rows-IsComplete}
use mathlib.Core.List.{tail}

-- A call that the indexer keeps, with what it decodes and its rows.
pub record Kept : Type 0 where
  pub call : CompiledInstruction
  pub split : SplitCall
  pub rows : List IndexedBurnLeg

-- The call is one of those listed, and the rows record the whole of it.
pub record IsKept (calls : List CompiledInstruction) (k : Kept) : Type 0 where
  pub place : ℕ
  pub listed : get_elem? calls place ≡ some k.call
  pub decoded : decode_split k.call.payload ≡ some k.split
  pub complete : IsComplete k.split k.rows

-- The rows of kept calls, one behind the other.
unfoldable pub all_rows : List Kept → List IndexedBurnLeg
all_rows [] = []
all_rows (k ∷ ks) = k.rows ++ all_rows ks

abbrev pub FromWholeCalls : List CompiledInstruction → List IndexedBurnLeg → Type 0
FromWholeCalls calls rows = (kept : List Kept) × (rows ≡ all_rows kept) × All (IsKept calls) kept

-- What is kept of the calls behind the first is kept of all.
behind :
    (call : CompiledInstruction) (calls : List CompiledInstruction) {rows : List IndexedBurnLeg}
    → FromWholeCalls calls rows
    → FromWholeCalls (call ∷ calls) rows
behind call calls (kept, same, all) = (
  kept,
  same,
  All-map (IsKept calls) (IsKept (call ∷ calls))
      (λ k h. record {
        place = suc h.place;
        listed = h.listed;
        decoded = h.decoded;
        complete = h.complete;
      })
      kept all,
)

if-FromWholeCalls :
    (b : Bool) (calls : List CompiledInstruction) (x y : List IndexedBurnLeg)
    → FromWholeCalls calls x
    → FromWholeCalls calls y
    → FromWholeCalls calls (if b then x else y)
if-FromWholeCalls true calls x y h k = h
if-FromWholeCalls false calls x y h k = k

module _ (signature : ℕ) (tx : TransactionResult) (account_keys : List PublicKey) where
  one_call :
      (call : CompiledInstruction) (calls : List CompiledInstruction) (index : ℕ)
      (split : SplitCall) (group : Option (List ℕ)) (later : List IndexedBurnLeg)
      → decode_split call.payload ≡ some split
      → FromWholeCalls (call ∷ calls) later
      → FromWholeCalls (call ∷ calls) (
          or_empty signature tx account_keys
            (call_rows signature tx account_keys call index split group)
          ++ later)
  unfolding all_rows
  one_call call calls index split group later d (kept, same, all) =
      elim (Option-cases (call_rows signature tx account_keys call index split group)) [
        | inl e ↦ rw e (kept, same, all)
        | inr (rows, e) ↦ rw e (
          record { call = call; split = split; rows = rows } ∷ kept,
          ap (λ t. rows ++ t) same,
          (
            record {
              place = 0;
              listed = refl;
              decoded = d;
              complete =
                  call_rows-IsComplete signature tx account_keys call index split call.payload group
                    d e;
            },
            all,
          ),
        )
      ]

  then-FromWholeCalls :
      (call : CompiledInstruction) (calls : List CompiledInstruction) (index : ℕ)
      (groups : List (List ℕ)) (skipped later : List IndexedBurnLeg) (o : Option SplitCall)
      → decode_split call.payload ≡ o
      → FromWholeCalls (call ∷ calls) skipped
      → FromWholeCalls (call ∷ calls) later
      → FromWholeCalls
          (call ∷ calls)
          (call_then signature tx account_keys call index groups skipped later o)
  unfolding call_then
  then-FromWholeCalls call calls index groups skipped later none d s l = s
  then-FromWholeCalls call calls index groups skipped later (some split) d s l =
      one_call call calls index split (get_elem? groups 0) later d l

  calls_loop-FromWholeCalls :
      (groups : List (List ℕ)) (index : ℕ) (calls : List CompiledInstruction)
      → FromWholeCalls calls (calls_loop signature tx account_keys groups index calls)
  unfolding calls_loop all_rows
  calls_loop-FromWholeCalls groups index [] = ([], refl, tt)
  calls_loop-FromWholeCalls groups index (call ∷ calls) =
      let skipped = behind call calls (calls_loop-FromWholeCalls groups (index + 1) calls) in
      let later = behind call calls (calls_loop-FromWholeCalls (tail groups) (index + 1) calls) in
      if-FromWholeCalls (is_burner_call signature tx account_keys call) (call ∷ calls) _ _
        (then-FromWholeCalls call calls index groups _ _ (decode_split call.payload) refl skipped
          later)
        skipped

outcome-FromWholeCalls :
    (signature : ℕ) (tx : TransactionResult) (o : Option Meta)
    → FromWholeCalls tx.instructions (outcome_rows signature tx o)
unfolding outcome_rows all_rows
outcome-FromWholeCalls signature tx none = ([], refl, tt)
outcome-FromWholeCalls signature tx (some outcome) =
    if-FromWholeCalls outcome.failed tx.instructions _ _ ([], refl, tt)
      (calls_loop-FromWholeCalls signature tx
        (tx.account_keys ++ (outcome.writable ++ outcome.readonly))
        (burn_log_groups outcome.log_messages) 0 tx.instructions)

-- The rows of any transaction are, one behind the other, the complete rows of some of its instructions:
-- each one's amounts add up to the total that it decodes to, none is kept in part, and
-- every row burned something.
pub decode_burn_transaction-FromWholeCalls :
    (signature : ℕ) (tx : TransactionResult)
    → FromWholeCalls tx.instructions (decode_burn_transaction signature tx)
unfolding decode_burn_transaction
decode_burn_transaction-FromWholeCalls signature tx = outcome-FromWholeCalls signature tx tx.outcome
