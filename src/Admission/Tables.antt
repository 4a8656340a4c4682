-- ===== src/Admission/Tables.antt =====
-- `resolveAndValidateLookupTables` of quote-service/core.ts.
use onchainburner.Base.{
  ℕ, ◌^◌, ◌-◌, ◌≡◌, inl, inr, Bool, true, not, Option, none, some, List, [], ◌∷◌, ◌++◌, map,
  contains, list_eq, ◌==◌, if◌then◌else◌, arith, Bool-cases,
}
use onchainburner.Base.Errors.{
  Result, ok, policy, ◌>>=◌, ◌>>◌, reject_if, require, require-eq-ok, >>=-eq-ok, ok-injective,
  reject_if-eq-ok, missing_alt, inactive_alt, alt_mismatch,
}
use onchainburner.Chain.{PublicKey, LookupTable}
use mathlib.Core.Path.{subst}

abbrev pub active_alt_slot : ℕ
active_alt_slot = 2 ^ 64 - 1

-- `claimed[address]`
abbrev pub claim_of : PublicKey → List (PublicKey × List PublicKey) → Option (List PublicKey)
claim_of address [] = none
claim_of address ((key, addresses) ∷ rest) =
    let later = claim_of address rest in if key == address then some addresses else later

-- `[...new Set(addresses)]`: each address where it first stands.
abbrev pub distinct : List PublicKey → List PublicKey → List PublicKey
distinct seen [] = []
distinct seen (a ∷ rest) =
    let old = distinct seen rest in
    let new = distinct (a ∷ seen) rest in if contains a seen then old else a ∷ new

-- The reply's snapshot of a table, where it has one, is the live table.
abbrev pub agrees : Option (List PublicKey) → List PublicKey → Bool
agrees none live = true
agrees (some advertised) live = list_eq advertised live

module _ (get_table : PublicKey → Result (Option LookupTable))
    (claimed : List (PublicKey × List PublicKey)) where
  -- One round of the loop.
  pub resolve_table : PublicKey → Result LookupTable
  resolve_table address = do
    found ← get_table address
    table ← require found (policy missing_alt)
    reject_if (not (table.deactivation_slot == active_alt_slot)) inactive_alt
    reject_if (not (agrees (claim_of address claimed) table.addresses)) alt_mismatch
    ok table

  pub tables_loop : List PublicKey → Result (List LookupTable)
  tables_loop [] = ok []
  tables_loop (address ∷ rest) = do
    table ← resolve_table address
    tables ← tables_loop rest
    ok (table ∷ tables)

  pub resolve_and_validate_lookup_tables : List PublicKey → Result (List LookupTable)
  resolve_and_validate_lookup_tables requested =
      tables_loop (distinct [] (map (λ (c : PublicKey × List PublicKey). c.0) claimed ++ requested))

  -- The live, active table at an address, with the addresses that the reply claims.
  pub record IsLive (address : PublicKey) (table : LookupTable) : Type 0 where
    pub read : get_table address ≡ ok (some table)
    pub active : table.deactivation_slot ≡ active_alt_slot
    pub same : agrees (claim_of address claimed) table.addresses ≡ true

  -- Each table is that of its address.
  abbrev pub AllLive : List PublicKey → List LookupTable → Type 0
  AllLive [] [] = Unit
  AllLive (a ∷ keys) (t ∷ ts) = IsLive a t × AllLive keys ts
  AllLive _ _ = ⊥

  table-IsLive : (a : PublicKey) {t : LookupTable} → resolve_table a ≡ ok t → IsLive a t
  unfolding resolve_table
  table-IsLive a e =
      let (found, f, e1) = >>=-eq-ok (get_table a) _ e in
      let (t, r, e2) = >>=-eq-ok (require found (policy missing_alt)) _ e1 in
      let ended = not (t.deactivation_slot == active_alt_slot) in
      let differs = not (agrees (claim_of a claimed) t.addresses) in
      let (_, x, e3) = >>=-eq-ok (reject_if ended inactive_alt) _ e2 in
      let (_, y, e4) = >>=-eq-ok (reject_if differs alt_mismatch) _ e3 in
      let ended_not = reject_if-eq-ok ended inactive_alt x in
      let differs_not = reject_if-eq-ok differs alt_mismatch y in
      subst (IsLive a) (ok-injective e4) (record {
        read = subst (λ o. get_table a ≡ ok o) (require-eq-ok found _ r) f;
        active = ground (arith, ended_not);
        same = elim (Bool-cases (agrees (claim_of a claimed) t.addresses)) [
          | inl y ↦ y
          | inr n ↦ absurd (cc (n, differs_not))
        ];
      })

  tables_loop-AllLive :
      (keys : List PublicKey) {ts : List LookupTable} → tables_loop keys ≡ ok ts → AllLive keys ts
  unfolding tables_loop
  tables_loop-AllLive [] e = subst (AllLive []) (ok-injective e) tt
  tables_loop-AllLive (a ∷ keys) e =
      let (t, f, e1) = >>=-eq-ok (resolve_table a) _ e in
      let (ts, g, e2) = >>=-eq-ok (tables_loop keys) _ e1 in
      subst (AllLive (a ∷ keys)) (ok-injective e2) (table-IsLive a f, tables_loop-AllLive keys g)

  -- The tables that are accepted are, in order and without repetition, those of the claimed and the
  -- requested addresses: each exists, is active, and has the addresses that the reply claims for it.
  pub resolve_lookup_tables-AllLive :
      (requested : List PublicKey) (tables : List LookupTable)
      → resolve_and_validate_lookup_tables requested ≡ ok tables
      → AllLive
          (distinct [] (map (λ (c : PublicKey × List PublicKey). c.0) claimed ++ requested))
          tables
  unfolding resolve_and_validate_lookup_tables
  resolve_lookup_tables-AllLive requested tables e = tables_loop-AllLive _ e

-- What a test unfolds.
unfoldable pub looking_up : Unit {0}
unfolding resolve_and_validate_lookup_tables tables_loop resolve_table
looking_up = tt
