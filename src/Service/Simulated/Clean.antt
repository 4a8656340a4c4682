-- ===== src/Service/Simulated/Clean.antt =====
-- What a burn that was built is: it fits, it simulated cleanly, and its blockhash is fresh.
use mathlib.Core.Path.{subst}
use onchainburner.Base.{
  and-true, not-true, ℕ, suc, ◌+◌, ◌≤◌, ◌≡◌, refl, false, not, ◌&&◌, some, List, length, drop,
  if-cases, arith, inl, inr,
}
use onchainburner.Base.Errors.{
  Result, ok, reject_if, AllPairs, >>=-eq-ok, ok-injective, reject_if-eq-ok, blockhash_too_old,
}
use onchainburner.Chain.{PublicKey, LookupTable}
use onchainburner.Service.{Limits, Simulation}
use onchainburner.Service.Resolved.{ResolvedRequest}
use onchainburner.Service.Admitted.{AdmittedLeg, admit}
use onchainburner.Service.Admitted.Solvent.{IsSolvent, IsAdmittedLeg, admit-IsSolvent}
use onchainburner.Service.Fitted.{
  Dependencies, Candidate, caps, requested_tables, prepare_candidate,
}
use onchainburner.Service.Fitted.Fitting.{IsFitting}
use onchainburner.Service.Fitted.FirstFit.{IsFirstFit, prepare_candidate-IsFirstFit}
use onchainburner.Service.Simulated.{
  Progress, start, done, again, over_compute_limit, attribution_of, after_failure, try_attempt,
  attempts, BuiltBurn, is_too_old, build_and_simulate,
}
use onchainburner.Service.Simulated.Attempts.{
  Ends, stops, throws, goes_on, again-Retries, attempts-Ends,
}

module _ (d : Dependencies) (r : ResolvedRequest) (fee_payer : PublicKey) where
  module _ (wsol_ata : PublicKey) (admitted : List AdmittedLeg) (requested : List LookupTable) where
    -- The candidate of an attempt, the message of which simulated without an error and within the
    -- compute limit.
    pub record IsClean (p : Progress) (k : Candidate) (s : Simulation) : Type 0 where
      pub candidate :
          IsFirstFit d r fee_payer wsol_ata admitted requested p.attempt p.pump_excluded_legs
            p.cap_start_index
            (drop p.cap_start_index (caps d))
            k
      pub simulated : d.chain.simulate p.attempt k.message ≡ ok s
      pub no_error : s.failed ≡ false
      pub units : (n : ℕ) → s.units_consumed ≡ some n → n ≤ d.limits.compute_unit_limit

    limit-lem :
        (limits : Limits) (s : Simulation) (n : ℕ)
        → s.failed ≡ false
        → over_compute_limit limits s ≡ false
        → s.units_consumed ≡ some n
        → n ≤ limits.compute_unit_limit
    unfolding over_compute_limit
    limit-lem limits s n clean under at = ground (arith, rw (clean, at) at under)

    done-IsClean :
        (p : Progress) (k : Candidate) (s : Simulation)
        → try_attempt d r fee_payer wsol_ata admitted requested p ≡ ok (done k s)
        → IsClean p k s
    unfolding try_attempt
    done-IsClean p k s e =
        let (j, a, e1) =
          >>=-eq-ok
            (prepare_candidate d r fee_payer wsol_ata admitted requested p.attempt
              p.pump_excluded_legs p.cap_start_index)
            _ e in
        let (t, b, e2) = >>=-eq-ok (d.chain.simulate p.attempt j.message) _ e1 in
        elim (if-cases (not t.failed && not (over_compute_limit d.limits t)) _ _ e2) [
          | inl (good, f) ↦
              let (x, y) = and-true (not t.failed) _ good in
              let clean = not-true t.failed x in
              let under = not-true (over_compute_limit d.limits t) y in
              subst (λ (o : Candidate × Simulation). IsClean p o.0 o.1)
                (done-injective (ok-injective f))
                (record {
                  candidate =
                      prepare_candidate-IsFirstFit d r fee_payer wsol_ata admitted requested
                        p.attempt p.pump_excluded_legs p.cap_start_index j a;
                  simulated = b;
                  no_error = clean;
                  units = λ n at. limit-lem d.limits t n clean under at;
                })
          | inr (_, f) ↦
              let (q, _, e3) =
                >>=-eq-ok
                  (after_failure d.limits (length (caps d)) p j (attribution_of d.burner_program t))
                  _ f in
              absurd (again-done (ok-injective e3))
        ]
      where
        done-injective :
            {j k : Candidate} {t s : Simulation}
            → done j t ≡ done k s
            → ◌≡◌ {A = Candidate × Simulation} (j, t) (k, s)
        done-injective h = cc

        again-done : {q : Progress} {k : Candidate} {s : Simulation} → again q ≡ done k s → ⊥
        again-done h = cc

    Ends-IsClean :
        {n : ℕ} {p : Progress} {out : Result (Candidate × Simulation)} (k : Candidate)
        (s : Simulation)
        → Ends d r fee_payer wsol_ata admitted requested n p out
        → out ≡ ok (k, s)
        → (q : Progress) × IsClean q k s × (q.attempt + 1 ≤ p.attempt + n)
    Ends-IsClean {p = p} k s (stops j t h) e = (
      p,
      subst (λ (o : Candidate × Simulation). IsClean p o.0 o.1) (ok-injective e)
          (done-IsClean p j t h),
      omega arith,
    )
    Ends-IsClean k s (throws h) e = cc
    Ends-IsClean {p = p} k s (goes_on {q = q} h later) e =
        let (x, clean, few) = Ends-IsClean k s later e in
        (
          x,
          clean,
          omega (arith, few, (again-Retries d r fee_payer wsol_ata admitted requested p q h).1),
        )

  -- A built burn: the vault and the legs were admitted, the message is one candidate's, which was
  -- simulated as it is, in an attempt within the bound, and enough of its blockhash's life is left.
  pub record IsBuilt (built : BuiltBurn) : Type 0 where
    pub wsol_ata : PublicKey
    pub admitted : List AdmittedLeg
    pub requested : List LookupTable
    pub admission : admit d.web3 d.chain r ≡ ok (wsol_ata, admitted)
    pub solvent : IsSolvent d.web3 d.chain r.pda r.amount wsol_ata
    pub legs : AllPairs (IsAdmittedLeg d.web3 d.chain r.pda) r.requested_legs admitted
    pub progress : Progress
    pub candidate : Candidate
    pub simulation : Simulation
    pub fitting : IsFitting d r fee_payer wsol_ata admitted requested candidate
    pub clean : IsClean wsol_ata admitted requested progress candidate simulation
    pub bounded : progress.attempt ≤ d.limits.retry_limit
    pub message : built.message ≡ candidate.message
    pub prepared : built.legs ≡ candidate.legs
    pub height : ℕ
    pub read : d.chain.block_height false ≡ ok height
    pub fresh :
        d.limits.min_remaining_block_heights + height ≤ built.validity.last_valid_block_height

  -- Every burn that is built was admitted, fits, asks only the fee payer to sign, carries protected
  -- legs, and simulated without an error within the compute limit and the bound of attempts.
  pub build_and_simulate-IsBuilt :
      (built : BuiltBurn) → build_and_simulate d r fee_payer ≡ ok built → IsBuilt built
  unfolding build_and_simulate
  build_and_simulate-IsBuilt built e =
      let ((ata, admitted), a, e1) = >>=-eq-ok (admit d.web3 d.chain r) _ e in
      let (solvent, legs) = admit-IsSolvent d.web3 d.chain r ata admitted a in
      let (requested, _, e2) = >>=-eq-ok (requested_tables d r) _ e1 in
      let fuel = suc d.limits.retry_limit in
      let ((k, s), b, e3) =
        >>=-eq-ok (attempts d r fee_payer ata admitted requested fuel start) _ e2 in
      let (n, ends, few) =
        attempts-Ends d r fee_payer ata admitted requested fuel start (omega arith) (omega arith) in
      let (p, clean, count) = Ends-IsClean ata admitted requested k s ends b in
      let (height, h, e4) = >>=-eq-ok (d.chain.block_height false) _ e3 in
      let old = is_too_old d.limits k.validity height in
      let (_, o, e5) = >>=-eq-ok (reject_if old blockhash_too_old) _ e4 in
      let enough = reject_if-eq-ok old blockhash_too_old o in
      subst IsBuilt (ok-injective e5) (record {
        wsol_ata = ata;
        admitted = admitted;
        requested = requested;
        admission = a;
        solvent = solvent;
        legs = legs;
        progress = p;
        candidate = k;
        simulation = s;
        fitting = clean.candidate.fitting;
        clean = clean;
        bounded = omega (arith, few, count);
        message = refl;
        prepared = refl;
        height = height;
        read = h;
        fresh = ground (arith, enough);
      })
