-- ===== src/Service/Fitted/Passed.antt =====
-- A round of the ladder that is passed over.
use onchainburner.Base.{
  ℕ, ◌+◌, ◌≤◌, ◌<◌, ◌≡◌, ◌⊎◌, Bool, false, map, sum, Bool-cases, refl, true, not, ◌&&◌, Option,
  none, some, List, length, take, leb, if-cases, arith, inl, inr,
}
use onchainburner.Base.Errors.{
  ok, reject_if, >>=-eq-ok, reject_if-eq-ok, transaction_too_large, top_level_instruction_policy,
  signer_layout,
}
use onchainburner.Chain.{PublicKey, LookupTable}
use onchainburner.Service.{Message}
use onchainburner.Service.Resolved.{ResolvedRequest}
use onchainburner.Service.Admitted.{AdmittedLeg}
use onchainburner.Service.Fitted.{
  Dependencies, Compiled, max_transaction_bytes, bytes_of, locks_of, is_unbounded,
  is_compute_and_burn, is_sole_signer, vault_alt_covers, compile_round, accept_round, fits,
  fit_round,
}
use onchainburner.Service.Fitted.Fitting.{IsCompiled, compile_round-IsCompiled}

module _ (d : Dependencies) (r : ResolvedRequest) (fee_payer wsol_ata : PublicKey)
    (admitted : List AdmittedLeg) (requested : List LookupTable) where
  -- The message cannot be serialized, or is over 1232 bytes, or locks over 64 accounts.
  abbrev pub IsOver : Message → Type 0
  IsOver m =
      (m.size ≡ none)
      ⊎ ((n : ℕ) × (m.size ≡ some n) × (1232 < n))
      ⊎ (64 < length m.static_account_keys + sum (map (λ (l : ℕ × ℕ). l.0 + l.1) m.looked_up))

  -- A round that is passed over: its legs were prepared and its message compiled, and the message is
  -- over a limit of the chain. With no cap, there are at most two legs or the tables cover the vault.
  pub record IsPassed (attempt rung : ℕ) (cap : Option ℕ) (excluded : List ℕ) : Type 0 where
    pub nothing :
        fit_round d r fee_payer wsol_ata admitted requested attempt rung cap excluded ≡ ok none
    pub round : Compiled
    pub tried :
        compile_round d r fee_payer wsol_ata admitted requested attempt rung cap excluded ≡ ok round
    pub compiled : IsCompiled d r fee_payer wsol_ata admitted requested attempt rung round
    pub over : IsOver round.message
    pub hopeful :
        cap ≡ none
        → (length admitted ≤ 2)
          ⊎ (vault_alt_covers d r fee_payer wsol_ata admitted requested ≡ true)

  size-IsOver :
      (m : Message) (size : Option ℕ)
      → m.size ≡ size
      → leb (bytes_of size) max_transaction_bytes ≡ false
      → IsOver m
  size-IsOver m none h e = inl h
  size-IsOver m (some n) h e = inr (inl (n, h, ground (arith, e)))

  fits-IsOver :
      (c : Compiled) → fits d r fee_payer wsol_ata admitted requested c ≡ false → IsOver c.message
  unfolding fits locks_of
  fits-IsOver c e = elim (Bool-cases (leb (bytes_of c.message.size) max_transaction_bytes)) [
    | inl small ↦ inr (inr (ground (arith, rw small at e)))
    | inr large ↦ size-IsOver c.message c.message.size refl large
  ]

  helped :
      (cap : Option ℕ) (covers : Bool)
      → (is_unbounded cap && (leb 3 (length admitted) && not covers)) ≡ false
      → cap ≡ none
      → (length admitted ≤ 2) ⊎ (covers ≡ true)
  helped none true h e = inr refl
  helped none false h e = inl (ground (arith, h))
  helped (some n) covers h e = cc

  accept_round-some :
      (rung : ℕ) (c : Compiled)
      → accept_round d r fee_payer wsol_ata admitted requested rung c ≡ ok none
      → ⊥
  unfolding accept_round
  accept_round-some rung c e =
      let (decompiled, _, e1) = >>=-eq-ok c.message.decompiled _ e in
      let expected =
        is_compute_and_burn d.burner_program (d.set_compute_unit_limit d.limits.compute_unit_limit)
          c.burn decompiled in
      let (_, _, e2) = >>=-eq-ok (reject_if (not expected) top_level_instruction_policy) _ e1 in
      let sole =
        is_sole_signer fee_payer
          (take c.message.required_signatures c.message.static_account_keys) in
      let (_, _, e3) = >>=-eq-ok (reject_if (not sole) signer_layout) _ e2 in cc e3

  pub fit_round-IsPassed :
      (attempt rung : ℕ) (cap : Option ℕ) (excluded : List ℕ)
      → fit_round d r fee_payer wsol_ata admitted requested attempt rung cap excluded ≡ ok none
      → IsPassed attempt rung cap excluded
  unfolding fit_round
  fit_round-IsPassed attempt rung cap excluded e =
      let (c, a, e1) =
        >>=-eq-ok
          (compile_round d r fee_payer wsol_ata admitted requested attempt rung cap excluded) _ e in
      elim (if-cases (fits d r fee_payer wsol_ata admitted requested c) _ _ e1) [
        | inl (_, f) ↦ absurd (accept_round-some rung c f)
        | inr (wide, f) ↦
            let covers = vault_alt_covers d r fee_payer wsol_ata admitted requested in
            let hopeless = is_unbounded cap && (leb 3 (length admitted) && not covers) in
            let (_, g, _) = >>=-eq-ok (reject_if hopeless transaction_too_large) _ f in
            record {
              nothing = e;
              round = c;
              tried = a;
              compiled =
                  compile_round-IsCompiled d r fee_payer wsol_ata admitted requested attempt rung
                    cap excluded a;
              over = fits-IsOver c wide;
              hopeful = helped cap covers (reject_if-eq-ok hopeless transaction_too_large g);
            }
      ]
