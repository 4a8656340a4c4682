-- ===== src/Indexer/Burns/Totals.antt =====
-- The rows of one burner call account for its whole total.
use onchainburner.Base.{
  length-map, ℕ, zero, suc, ◌+◌, ◌*◌, ◌<◌, ◌≡◌, refl, sym, ap, ◌∙◌, true, not, Option, some, List,
  [], ◌∷◌, ◌++◌, map, length, get_elem?, sum, All, ltb, ◌==◌, arith, ==_iff, length-append,
}
use onchainburner.Base.Int.{ℤ, pos, negsuc}
use onchainburner.Base.Maybe.{fail_if, fail_if-eq-some, >>=-eq-some}
use mathlib.Core.Option.{some-injective}
use mathlib.Core.Path.{subst, ap₂}
use mathlib.Core.List.{append_assoc}
use onchainburner.Chain.{PublicKey}
use onchainburner.Split.{split_amounts, indexer_split_amounts}
use onchainburner.Indexer.Sound.{decode_split-IsConfig}
use onchainburner.Split.Laws.{Legwise-length, indexer_split_amounts-eq, split_amounts-IsFair}
use onchainburner.Indexer.{SplitCall, decode_split}
use onchainburner.Indexer.Burns.{
  CompiledInstruction, TransactionResult, IndexedBurnLeg, is_amount, key_at, leg_row, leg_rows,
  call_rows,
}

-- What holds of a row that the indexer keeps.
pub record IsRow (leg_index : ℕ) (amount : ℤ) (row : IndexedBurnLeg) : Type 0 where
  pub place : row.leg_index ≡ leg_index
  pub paid : amount ≡ pos row.sol_lamports
  pub burned : 0 < row.burned_atoms

pos-injective : (a b : ℕ) → pos a ≡ pos b → a ≡ b
pos-injective a b e = cc

is_amount_lem : (a : ℤ) (n : ℕ) → is_amount a n ≡ true → a ≡ pos n
is_amount_lem (pos a) n h = ap pos ((==_iff a n).0 h)
is_amount_lem (negsuc a) n h = cc

get_elem?-middle :
    {A : Type 0} (front : List A) (x : A) (rest : List A)
    → get_elem? (front ++ x ∷ rest) (length front) ≡ some x
get_elem?-middle [] x rest = refl
get_elem?-middle (y ∷ front) x rest = get_elem?-middle front x rest

map-pos_injective : (xs ys : List ℕ) → map pos xs ≡ map pos ys → xs ≡ ys
map-pos_injective [] [] e = refl
map-pos_injective [] (y ∷ ys) e = cc
map-pos_injective (x ∷ xs) [] e = cc
map-pos_injective (x ∷ xs) (y ∷ ys) e = cc (map-pos_injective xs ys (cc), pos-injective x y (cc))

module _ (signature : ℕ) (tx : TransactionResult) (account_keys : List PublicKey)
    (call : CompiledInstruction) (index : ℕ) (split : SplitCall) (amounts : List ℤ) (logs : List ℕ)
    (launch_mint vault : PublicKey) where
  leg_row-IsRow :
      (i : ℕ) {row : IndexedBurnLeg}
      → leg_row signature tx account_keys call index split amounts logs launch_mint vault i
        ≡ some row
      → (amount : ℤ) × (get_elem? amounts i ≡ some amount) × IsRow i amount row
  unfolding leg_row
  leg_row-IsRow i e =
      let (_, _, e1) = >>=-eq-some (key_at signature tx account_keys call (8 + i * 7)) _ e in
      let (_, _, e2) = >>=-eq-some (key_at signature tx account_keys call (11 + i * 7)) _ e1 in
      let (input, _, e3) = >>=-eq-some (get_elem? logs (i * 2)) _ e2 in
      let (atoms, _, e4) = >>=-eq-some (get_elem? logs (i * 2 + 1)) _ e3 in
      let (amount, found, e5) = >>=-eq-some (get_elem? amounts i) _ e4 in
      let (bps, _, e6) = >>=-eq-some (get_elem? split.weights i) _ e5 in
      let (_, same, e7) = >>=-eq-some (fail_if (not (is_amount amount input))) _ e6 in
      let (_, some_atoms, e8) = >>=-eq-some (fail_if (atoms == 0)) _ e7 in
      (
        amount,
        found,
        subst (IsRow i amount) (some-injective _ _ e8) (record {
          place = refl;
          paid = is_amount_lem amount input (ground (arith, fail_if-eq-some _ same));
          burned = ground (arith, fail_if-eq-some _ some_atoms);
        }),
      )

  leg_rows-paid :
      (left i : ℕ) (front rest : List ℤ) {rows : List IndexedBurnLeg}
      → amounts ≡ front ++ rest
      → length front ≡ i
      → length rest ≡ left
      → leg_rows signature tx account_keys call index split amounts logs launch_mint vault left i
        ≡ some rows
      → (rest ≡ map (λ (row : IndexedBurnLeg). pos row.sol_lamports) rows)
        × All (λ (row : IndexedBurnLeg). 0 < row.burned_atoms) rows
  unfolding leg_rows
  leg_rows-paid zero i front [] e f l h = subst Paid (some-injective _ _ h) (refl, tt)
    where
      Paid : List IndexedBurnLeg → Type 0
      Paid rows =
          ([] ≡ map (λ (row : IndexedBurnLeg). pos row.sol_lamports) rows)
          × All (λ (row : IndexedBurnLeg). 0 < row.burned_atoms) rows
  leg_rows-paid zero i front (a ∷ rest) e f l h = absurd (omega arith)
  leg_rows-paid (suc left) i front [] e f l h = absurd (omega arith)
  leg_rows-paid (suc left) i front (a ∷ rest) e f l h =
      let (row, got, h1) =
        >>=-eq-some
          (leg_row signature tx account_keys call index split amounts logs launch_mint vault i) _
          h in
      let (rows, later, h2) =
        >>=-eq-some
          (leg_rows signature tx account_keys call index split amounts logs launch_mint vault left
            (i + 1))
          _ h1 in
      let (amount, found, r) = leg_row-IsRow i got in
      let (paid, burned) =
        leg_rows-paid left (i + 1) (front ++ a ∷ []) rest
          (e ∙ sym (append_assoc front (a ∷ []) rest)) (omega (arith, length-append front (a ∷ [])))
          (omega arith) later in
      let here : some a ≡ some amount =
        sym (get_elem?-middle front a rest)
        ∙ (ap₂ (λ (t : List ℤ) (n : ℕ). get_elem? t n) (sym e) f ∙ found) in
      subst
        (λ (rs : List IndexedBurnLeg).
          (a ∷ rest ≡ map (λ (row : IndexedBurnLeg). pos row.sol_lamports) rs)
          × All (λ (row : IndexedBurnLeg). 0 < row.burned_atoms) rs)
        (some-injective _ _ h2)
        (
          ap₂ (λ (t : ℤ) (ts : List ℤ). t ∷ ts) (some-injective _ _ here ∙ r.paid) paid,
          (r.burned, burned),
        )

-- The rows of one call of the burner, when the indexer keeps them.
pub record IsComplete (split : SplitCall) (rows : List IndexedBurnLeg) : Type 0 where
  pub paid :
      split_amounts split.total split.weights
      ≡ map (λ (row : IndexedBurnLeg). pos row.sol_lamports) rows
  pub whole : sum (map (λ (row : IndexedBurnLeg). row.sol_lamports) rows) ≡ split.total
  pub burned : All (λ (row : IndexedBurnLeg). 0 < row.burned_atoms) rows

map-pos_sol :
    (rows : List IndexedBurnLeg)
    → map (λ (row : IndexedBurnLeg). pos row.sol_lamports) rows
      ≡ map pos (map (λ (row : IndexedBurnLeg). row.sol_lamports) rows)
map-pos_sol [] = refl
map-pos_sol (row ∷ rows) = ap (λ t. pos row.sol_lamports ∷ t) (map-pos_sol rows)

module _ (signature : ℕ) (tx : TransactionResult) (account_keys : List PublicKey)
    (call : CompiledInstruction) (index : ℕ) (split : SplitCall) where
  rows-IsComplete :
      (amounts : List ℕ) {rows : List IndexedBurnLeg}
      → split_amounts split.total split.weights ≡ map pos amounts
      → sum amounts ≡ split.total
      → split_amounts split.total split.weights
        ≡ map (λ (row : IndexedBurnLeg). pos row.sol_lamports) rows
      → All (λ (row : IndexedBurnLeg). 0 < row.burned_atoms) rows
      → IsComplete split rows
  rows-IsComplete amounts {rows} same whole paid burned =
      let e : map (λ (row : IndexedBurnLeg). row.sol_lamports) rows ≡ amounts =
        map-pos_injective _ _ (sym (map-pos_sol rows) ∙ (sym paid ∙ same)) in
      record { paid = paid; whole = ap sum e ∙ whole; burned = burned }

  -- If the indexer decodes a call and keeps its rows, the rows record exactly the amounts that the
  -- service assigns to the legs, these add up to the total of the call, and every row burned
  -- something. So a call that is kept is kept whole.
  pub call_rows-IsComplete :
      (text : List ℕ) (group : Option (List ℕ)) {rows : List IndexedBurnLeg}
      → decode_split text ≡ some split
      → call_rows signature tx account_keys call index split group ≡ some rows
      → IsComplete split rows
  unfolding call_rows
  call_rows-IsComplete text group d e =
      let config = decode_split-IsConfig text d in
      let (amounts, same, whole, fair) =
        split_amounts-IsFair split.total split.weights config.whole in
      let (logs, _, e1) = >>=-eq-some group _ e in
      let (_, _, e2) = >>=-eq-some (fail_if (not (length logs == length split.weights * 2))) _ e1 in
      let (_, _, e3) =
        >>=-eq-some (fail_if (ltb (length call.accounts) (8 + length split.weights * 7))) _ e2 in
      let (launch_mint, _, e4) = >>=-eq-some (key_at signature tx account_keys call 4) _ e3 in
      let (vault, _, e5) = >>=-eq-some (key_at signature tx account_keys call 2) _ e4 in
      let paid_out = indexer_split_amounts split.total split.weights in
      let equal = indexer_split_amounts-eq split.total split.weights in
      let (paid, burned) =
        leg_rows-paid signature tx account_keys call index split paid_out logs launch_mint vault
          (length split.weights) 0 [] paid_out refl refl
          (ap length (equal ∙ same)
            ∙ (length-map pos amounts ∙ sym (Legwise-length _ split.weights amounts fair)))
          e5 in
      rows-IsComplete amounts same whole (sym equal ∙ paid) burned
