-- ===== src/Service/Fitted/Fitting.antt =====
-- What a candidate of one round is.
use mathlib.Core.Path.{subst}
use onchainburner.Base.{
  and-true, not-false, ℕ, ◌≤◌, ◌≡◌, refl, ap, true, not, ◌&&◌, Option, none, some, List, [], ◌∷◌,
  ◌++◌, length, take, list_eq, leb, ◌==◌, if-cases, arith, inl, inr,
}
use onchainburner.Base.Errors.{
  ok, reject_if, AllPairs, >>=-eq-ok, ok-injective, reject_if-eq-ok, transaction_too_large,
  top_level_instruction_policy, signer_layout,
}
use onchainburner.Chain.{PublicKey, Instruction, LookupTable, compute_budget_program}
use onchainburner.Wire.{PreparedLeg, build_burn_instruction}
use onchainburner.Service.Resolved.{ResolvedRequest}
use onchainburner.Service.Admitted.{AdmittedLeg}
use onchainburner.Service.Quoted.{prepare_legs}
use onchainburner.Service.Quoted.Priced.{IsProtected, legs-IsProtected}
use onchainburner.Service.Fitted.{
  Dependencies, Candidate, Compiled, max_transaction_bytes, max_account_locks, merge_tables,
  bytes_of, locks_of, is_unbounded, is_compute_and_burn, is_sole_signer, vault_alt_covers,
  compile_round, accept_round, fits, fit_round,
}
use mathlib.Core.List.{flat_map}

-- The message holds a compute limit and the burn, by programs and data.
pub record IsComputeAndBurn (program : PublicKey) (compute burn : Instruction)
    (is : List Instruction) : Type 0 where
  pub first : Instruction
  pub second : Instruction
  pub both : is ≡ first ∷ second ∷ []
  pub budget : first.program_id ≡ compute_budget_program
  pub burner : second.program_id ≡ program
  pub limit : list_eq first.content compute.content ≡ true
  pub payload : list_eq second.content burn.content ≡ true

is_compute_and_burn_lem :
    (program : PublicKey) (compute burn : Instruction) (is : List Instruction)
    → is_compute_and_burn program compute burn is ≡ true
    → IsComputeAndBurn program compute burn is
unfolding is_compute_and_burn
is_compute_and_burn_lem program compute burn [] e = cc
is_compute_and_burn_lem program compute burn (a ∷ []) e = cc
is_compute_and_burn_lem program compute burn (a ∷ b ∷ c ∷ is) e = cc
is_compute_and_burn_lem program compute burn (a ∷ b ∷ []) e =
    let one = a.program_id == compute_budget_program in
    let two = b.program_id == program in
    let three = list_eq a.content compute.content in
    let (e1, t) = and-true (one && two && three) (list_eq b.content burn.content) e in
    let (e2, s) = and-true (one && two) three e1 in
    let (p, q) = and-true one two e2 in
    record {
      first = a;
      second = b;
      both = refl;
      budget = ground (arith, p);
      burner = ground (arith, q);
      limit = s;
      payload = t;
    }

is_sole_signer_lem :
    (fee_payer : PublicKey) (keys : List PublicKey)
    → is_sole_signer fee_payer keys ≡ true
    → keys ≡ fee_payer ∷ []
unfolding is_sole_signer
is_sole_signer_lem fee_payer [] e = cc
is_sole_signer_lem fee_payer (k ∷ []) e =
    let same : k ≡ fee_payer = ground (arith, e) in ap (λ x. x ∷ []) same
is_sole_signer_lem fee_payer (k ∷ j ∷ ks) e = cc

size-lem : (size : Option ℕ) → bytes_of size ≤ max_transaction_bytes → size ≡ some (bytes_of size)
size-lem none h = absurd (omega (arith, h))
size-lem (some n) h = refl

module _ (d : Dependencies) (r : ResolvedRequest) (fee_payer wsol_ata : PublicKey)
    (admitted : List AdmittedLeg) (requested : List LookupTable) where
  -- A transaction within the limits of the chain that is the burn of protected legs and nothing
  -- else, and that nobody but the fee payer signs.
  pub record IsFitting (c : Candidate) : Type 0 where
    pub size : c.message.size ≡ some c.bytes
    pub small : c.bytes ≤ max_transaction_bytes
    pub locked : c.locks ≡ locks_of c.message
    pub few : c.locks ≤ max_account_locks
    pub protected :
        AllPairs
          (IsProtected d.web3 d.from_base64 d.chain d.quoters d.limits r.pda wsol_ata)
          admitted
          c.legs
    pub burn : Instruction
    pub built :
        build_burn_instruction d.burner_program fee_payer r.launch_mint r.pda wsol_ata r.amount
          c.legs
        ≡ ok burn
    pub tables :
        c.lookup_tables
        ≡ merge_tables [] (flat_map (λ (leg : PreparedLeg). leg.lookup_tables) c.legs ++ requested)
    pub compiled :
        d.compile_to_v0_message fee_payer c.validity.blockhash
          (d.set_compute_unit_limit d.limits.compute_unit_limit ∷ burn ∷ [])
          c.lookup_tables
        ≡ ok c.message
    pub decompiled : List Instruction
    pub reread : c.message.decompiled ≡ ok decompiled
    pub only :
        IsComputeAndBurn d.burner_program
          (d.set_compute_unit_limit d.limits.compute_unit_limit)
          burn
          decompiled
    pub signers : take c.message.required_signatures c.message.static_account_keys ≡ fee_payer ∷ []

  -- What `compileToV0Message` was given.
  pub record IsCompiled (attempt rung : ℕ) (c : Compiled) : Type 0 where
    pub protected :
        AllPairs
          (IsProtected d.web3 d.from_base64 d.chain d.quoters d.limits r.pda wsol_ata)
          admitted
          c.legs
    pub built :
        build_burn_instruction d.burner_program fee_payer r.launch_mint r.pda wsol_ata r.amount
          c.legs
        ≡ ok c.burn
    pub tables :
        c.lookup_tables
        ≡ merge_tables [] (flat_map (λ (leg : PreparedLeg). leg.lookup_tables) c.legs ++ requested)
    pub fresh : d.chain.latest_blockhash attempt rung ≡ ok c.validity
    pub compiled :
        d.compile_to_v0_message fee_payer c.validity.blockhash
          (d.set_compute_unit_limit d.limits.compute_unit_limit ∷ c.burn ∷ [])
          c.lookup_tables
        ≡ ok c.message

  pub compile_round-IsCompiled :
      (attempt rung : ℕ) (cap : Option ℕ) (excluded : List ℕ) {c : Compiled}
      → compile_round d r fee_payer wsol_ata admitted requested attempt rung cap excluded ≡ ok c
      → IsCompiled attempt rung c
  unfolding compile_round
  compile_round-IsCompiled attempt rung cap excluded e =
      let (legs, a, e1) =
        >>=-eq-ok
          (prepare_legs d.web3 d.from_base64 d.chain d.quoters d.limits r.pda wsol_ata attempt rung
            cap excluded 0 admitted)
          _ e in
      let (burn, b, e2) =
        >>=-eq-ok
          (build_burn_instruction d.burner_program fee_payer r.launch_mint r.pda wsol_ata r.amount
            legs)
          _ e1 in
      let (validity, v, e3) = >>=-eq-ok (d.chain.latest_blockhash attempt rung) _ e2 in
      let (message, m, e4) =
        >>=-eq-ok (d.compile_to_v0_message fee_payer validity.blockhash _ _) _ e3 in
      subst (IsCompiled attempt rung) (ok-injective e4) (record {
        protected =
            legs-IsProtected d.web3 d.from_base64 d.chain d.quoters d.limits r.pda wsol_ata attempt
              rung cap excluded 0 admitted a;
        built = b;
        tables = refl;
        fresh = v;
        compiled = m;
      })

  accept_round-IsFitting :
      (attempt rung : ℕ) (c : Compiled) {k : Candidate}
      → IsCompiled attempt rung c
      → fits d r fee_payer wsol_ata admitted requested c ≡ true
      → accept_round d r fee_payer wsol_ata admitted requested rung c ≡ ok (some k)
      → IsFitting k × (k.cap_index ≡ rung)
  unfolding accept_round fits
  accept_round-IsFitting attempt rung c h fit e =
      let (decompiled, a, e1) = >>=-eq-ok c.message.decompiled _ e in
      let compute = d.set_compute_unit_limit d.limits.compute_unit_limit in
      let expected = is_compute_and_burn d.burner_program compute c.burn decompiled in
      let (_, b, e2) = >>=-eq-ok (reject_if (not expected) top_level_instruction_policy) _ e1 in
      let sole =
        is_sole_signer fee_payer
          (take c.message.required_signatures c.message.static_account_keys) in
      let (_, s, e3) = >>=-eq-ok (reject_if (not sole) signer_layout) _ e2 in
      let (small, few) = and-true (leb (bytes_of c.message.size) max_transaction_bytes) _ fit in
      let small_enough : bytes_of c.message.size ≤ max_transaction_bytes = ground (arith, small) in
      subst (λ (k : Candidate). IsFitting k × (k.cap_index ≡ rung))
        (some-injective (ok-injective e3))
        (
          record {
            size = size-lem c.message.size small_enough;
            small = small_enough;
            locked = refl;
            few = ground (arith, few);
            protected = h.protected;
            burn = c.burn;
            built = h.built;
            tables = h.tables;
            compiled = h.compiled;
            decompiled = decompiled;
            reread = a;
            only = is_compute_and_burn_lem d.burner_program compute c.burn decompiled (
                not-false expected (reject_if-eq-ok (not expected) top_level_instruction_policy b));
            signers =
                is_sole_signer_lem fee_payer _
                  (not-false sole (reject_if-eq-ok (not sole) signer_layout s));
          },
          refl,
        )
    where
      some-injective : {A : Type 0} {x y : A} → some x ≡ some y → x ≡ y
      some-injective e = cc

  pub fit_round-IsFitting :
      (attempt rung : ℕ) (cap : Option ℕ) (excluded : List ℕ) {k : Candidate}
      → fit_round d r fee_payer wsol_ata admitted requested attempt rung cap excluded ≡ ok (some k)
      → IsFitting k × (k.cap_index ≡ rung)
  unfolding fit_round
  fit_round-IsFitting attempt rung cap excluded e =
      let (c, a, e1) =
        >>=-eq-ok
          (compile_round d r fee_payer wsol_ata admitted requested attempt rung cap excluded) _ e in
      elim (if-cases (fits d r fee_payer wsol_ata admitted requested c) _ _ e1) [
        | inl (fit, f) ↦
            accept_round-IsFitting attempt rung c
              (compile_round-IsCompiled attempt rung cap excluded a) fit f
        | inr (wide, f) ↦
            let hopeless =
              is_unbounded cap
              && (leb 3 (length admitted)
                  && not (vault_alt_covers d r fee_payer wsol_ata admitted requested)) in
            let (_, _, g) = >>=-eq-ok (reject_if hopeless transaction_too_large) _ f in
            absurd (cc g)
      ]
