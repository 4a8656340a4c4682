-- ===== src/Service/Simulated/Attempts.antt =====
-- The loop of attempts ends, and what changes from one attempt to the next.
use mathlib.Core.Path.{subst}
use onchainburner.Base.{
  and-true, not-true, ℕ, zero, suc, ◌+◌, ◌≤◌, ◌<◌, ◌≡◌, refl, sym, ap, ◌∙◌, true, false, not, ◌&&◌,
  List, ◌++◌, length, ltb, ◌==◌, if-cases, arith, inl, inr,
}
use onchainburner.Base.Errors.{Result, ok, err, >>=-eq-ok, ok-injective}
use onchainburner.Chain.{PublicKey, LookupTable}
use onchainburner.Service.{Limits, Simulation}
use onchainburner.Service.Resolved.{ResolvedRequest}
use onchainburner.Service.Admitted.{AdmittedLeg}
use onchainburner.Service.Fitted.{Dependencies, Candidate, caps, prepare_candidate}
use onchainburner.Service.Simulated.{
  SimulationFailureAttribution, burner_kind, external_kind, compute_kind, unknown_kind, Progress,
  AfterAttempt, done, again, over_compute_limit, attribution_of, offending, after_failure,
  try_attempt, resume, attempts,
}

-- The next attempt, as it is, with the touched legs off the Pump venues, or from a narrower cap on.
abbrev pub next_round : Progress → Progress
next_round p = record p { attempt = p.attempt + 1 }

abbrev pub cashback_round : Progress → Candidate → Progress
cashback_round p k = record p {
  attempt = p.attempt + 1;
  pump_excluded_legs = offending k.legs ++ p.pump_excluded_legs;
  cashback_retry_used = true;
}

abbrev pub narrower_round : Progress → Candidate → Progress
narrower_round p k = record p { attempt = p.attempt + 1; cap_start_index = k.cap_index + 1 }

-- What a retry changes, by what failed: a first 6018 of the burner keeps the touched legs off the
-- Pump venues, a 6021 changes nothing, spent compute narrows the cap, and another program's failure
-- changes nothing.
pub data Retries (cap_count : ℕ) (p : Progress) (k : Candidate)
    : SimulationFailureAttribution → Progress → Type 0 where
  cashback :
      p.cashback_retry_used ≡ false → Retries cap_count p k (burner_kind 6018) (cashback_round p k)
  slipped : Retries cap_count p k (burner_kind 6021) (next_round p)
  narrower : k.cap_index + 1 < cap_count → Retries cap_count p k compute_kind (narrower_round p k)
  elsewhere :
      (program : PublicKey) (code : ℕ)
      → Retries cap_count p k (external_kind program code) (next_round p)
  unnamed : Retries cap_count p k unknown_kind (next_round p)

err-ok : {A : Type 0} {x : A} {e : _} → err e ≡ ok x → ⊥
err-ok h = cc

-- The loop goes on only below the bound of attempts, and only in these ways.
pub after_failure-Retries :
    (limits : Limits) (cap_count : ℕ) (p : Progress) (k : Candidate)
    (a : SimulationFailureAttribution) (q : Progress)
    → after_failure limits cap_count p k a ≡ ok q
    → (p.attempt < limits.retry_limit) × Retries cap_count p k a q
unfolding after_failure
after_failure-Retries limits cap_count p k (burner_kind code) q e =
    let bound = ltb p.attempt limits.retry_limit in
    elim (if-cases (code == 6018 && (not p.cashback_retry_used && bound)) _ _ e) [
      | inl (first, f) ↦
          let (at, more) = and-true (code == 6018) _ first in
          let (unused, below) = and-true (not p.cashback_retry_used) bound more in
          let same : code ≡ 6018 = ground (arith, at) in
          (
            ground (arith, below),
            subst (Retries cap_count p k (burner_kind code)) (ok-injective f) (
                subst (λ c. Retries cap_count p k (burner_kind c) (cashback_round p k)) (sym same)
                  (cashback (not-true p.cashback_retry_used unused))),
          )
      | inr (_, f) ↦ elim (if-cases (code == 6021 && bound) _ _ f) [
        | inl (second, g) ↦
            let (at, below) = and-true (code == 6021) bound second in
            let same : code ≡ 6021 = ground (arith, at) in
            (
              ground (arith, below),
              subst (Retries cap_count p k (burner_kind code)) (ok-injective g) (
                  subst (λ c. Retries cap_count p k (burner_kind c) (next_round p)) (sym same)
                    slipped),
            )
        | inr (_, g) ↦ absurd (err-ok g)
      ]
    ]
after_failure-Retries limits cap_count p k compute_kind q e =
    let bound = ltb p.attempt limits.retry_limit in
    elim (if-cases (bound && ltb (k.cap_index + 1) cap_count) _ _ e) [
      | inl (both, f) ↦
          let (below, more) = and-true bound (ltb (k.cap_index + 1) cap_count) both in
          (
            ground (arith, below),
            subst (Retries cap_count p k compute_kind) (ok-injective f)
                (narrower (ground (arith, more))),
          )
      | inr (_, f) ↦ absurd (err-ok f)
    ]
after_failure-Retries limits cap_count p k (external_kind program code) q e =
    elim (if-cases (ltb p.attempt limits.retry_limit) _ _ e) [
      | inl (below, f) ↦ (
        ground (arith, below),
        subst (Retries cap_count p k (external_kind program code)) (ok-injective f)
            (elsewhere program code),
      )
      | inr (_, f) ↦ absurd (err-ok f)
    ]
after_failure-Retries limits cap_count p k unknown_kind q e =
    elim (if-cases (ltb p.attempt limits.retry_limit) _ _ e) [
      | inl (below, f) ↦ (
        ground (arith, below),
        subst (Retries cap_count p k unknown_kind) (ok-injective f) unnamed,
      )
      | inr (_, f) ↦ absurd (err-ok f)
    ]

Retries-next :
    {cap_count : ℕ} {p : Progress} {k : Candidate} {q : Progress} {a : SimulationFailureAttribution}
    → Retries cap_count p k a q
    → q.attempt ≡ p.attempt + 1
Retries-next (cashback _) = refl
Retries-next slipped = refl
Retries-next (narrower _) = refl
Retries-next (elsewhere _ _) = refl
Retries-next unnamed = refl

module _ (d : Dependencies) (r : ResolvedRequest) (fee_payer wsol_ata : PublicKey)
    (admitted : List AdmittedLeg) (requested : List LookupTable) where
  -- The loop as it is written, with the number of rounds that it takes: it stops at a round that
  -- simulates cleanly, throws what a round throws, or goes on.
  pub data Ends : ℕ → Progress → Result (Candidate × Simulation) → Type 0 where
    stops :
        {p : Progress} (k : Candidate) (s : Simulation)
        → try_attempt d r fee_payer wsol_ata admitted requested p ≡ ok (done k s)
        → Ends 1 p (ok (k, s))
    throws :
        {p : Progress} {e : _}
        → try_attempt d r fee_payer wsol_ata admitted requested p ≡ err e
        → Ends 1 p (err e)
    goes_on :
        {n : ℕ} {p q : Progress} {out : Result (Candidate × Simulation)}
        → try_attempt d r fee_payer wsol_ata admitted requested p ≡ ok (again q)
        → Ends n q out
        → Ends (suc n) p out

  pub again-Retries :
      (p q : Progress)
      → try_attempt d r fee_payer wsol_ata admitted requested p ≡ ok (again q)
      → (p.attempt < d.limits.retry_limit) × (q.attempt ≡ p.attempt + 1)
  unfolding try_attempt
  again-Retries p q e =
      let (k, a, e1) =
        >>=-eq-ok
          (prepare_candidate d r fee_payer wsol_ata admitted requested p.attempt
            p.pump_excluded_legs p.cap_start_index)
          _ e in
      let (s, b, e2) = >>=-eq-ok (d.chain.simulate p.attempt k.message) _ e1 in
      elim (if-cases (not s.failed && not (over_compute_limit d.limits s)) _ _ e2) [
        | inl (_, f) ↦ absurd (done-again (ok-injective f))
        | inr (_, f) ↦
            let how = attribution_of d.burner_program s in
            let (t, g, e3) = >>=-eq-ok (after_failure d.limits (length (caps d)) p k how) _ f in
            let (below, kind) = after_failure-Retries d.limits (length (caps d)) p k how t g in
            (
              below,
              ap (λ (x : Progress). x.attempt) (sym (again-injective (ok-injective e3)))
                  ∙ Retries-next kind,
            )
      ]
    where
      done-again : {k : Candidate} {s : Simulation} {q : Progress} → done k s ≡ again q → ⊥
      done-again h = cc

      again-injective : {x y : Progress} → again x ≡ again y → x ≡ y
      again-injective h = cc

  -- From an attempt within the bound, fuel for one attempt more than the retries that are left is
  -- enough: the loop ends within as many rounds, and what the function gives is what the loop gives.
  pub attempts-Ends :
      (fuel : ℕ) (p : Progress)
      → d.limits.retry_limit < p.attempt + fuel
      → p.attempt ≤ d.limits.retry_limit
      → (n : ℕ) × Ends n p (attempts d r fee_payer wsol_ata admitted requested fuel p)
        × (p.attempt + n ≤ d.limits.retry_limit + 1)
  unfolding attempts
  attempts-Ends zero p more within = absurd (omega (arith, more, within))
  attempts-Ends (suc fuel) p more within =
      by_round (try_attempt d r fee_payer wsol_ata admitted requested p) refl (λ q e.
        let (below, next) = again-Retries p q e in
        attempts-Ends fuel q (omega (arith, more, next)) (omega (arith, below, next)))
    where
      by_round :
          (round : Result AfterAttempt)
          → try_attempt d r fee_payer wsol_ata admitted requested p ≡ round
          → ((q : Progress)
              → try_attempt d r fee_payer wsol_ata admitted requested p ≡ ok (again q)
              → (n : ℕ) × Ends n q (attempts d r fee_payer wsol_ata admitted requested fuel q)
                × (q.attempt + n ≤ d.limits.retry_limit + 1))
          → (n : ℕ) × Ends n p (
              resume d r fee_payer wsol_ata admitted requested
                (λ q. attempts d r fee_payer wsol_ata admitted requested fuel q)
                round)
            × (p.attempt + n ≤ d.limits.retry_limit + 1)
      by_round (err e) h later = (1, throws h, omega (arith, within))
      by_round (ok (done k s)) h later = (1, stops k s h, omega (arith, within))
      by_round (ok (again q)) h later =
          let (n, ends, few) = later q h in
          (suc n, goes_on h ends, omega (arith, few, (again-Retries p q h).1))
