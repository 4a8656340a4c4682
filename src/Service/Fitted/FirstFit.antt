-- ===== src/Service/Fitted/FirstFit.antt =====
-- The candidate that the ladder of caps takes.
use mathlib.Core.Path.{subst}
use onchainburner.Base.{
  ℕ, suc, ◌+◌, ◌<◌, ◌≡◌, refl, sym, ap, ◌∙◌, Option, none, some, List, [], ◌∷◌, length, take, drop,
  get_elem?, arith, All,
}
use onchainburner.Base.Errors.{
  ok, policy, require-eq-ok, >>=-eq-ok, ok-injective, transaction_too_large,
}
use onchainburner.Chain.{PublicKey, LookupTable}
use onchainburner.Service.Resolved.{ResolvedRequest}
use onchainburner.Service.Admitted.{AdmittedLeg}
use onchainburner.Service.Fitted.{
  Dependencies, Candidate, caps, fit_round, ladder, prepare_candidate,
}
use onchainburner.Service.Fitted.Passed.{IsPassed, fit_round-IsPassed}
use onchainburner.Service.Fitted.Fitting.{IsFitting, fit_round-IsFitting}

-- The rungs with their numbers.
abbrev pub numbered : ℕ → List (Option ℕ) → List (ℕ × Option ℕ)
numbered rung [] = []
numbered rung (cap ∷ rest) = (rung, cap) ∷ numbered (rung + 1) rest

module _ (d : Dependencies) (r : ResolvedRequest) (fee_payer wsol_ata : PublicKey)
    (admitted : List AdmittedLeg) (requested : List LookupTable) where
  -- A candidate of the ladder from a rung on, with the rungs before it that were passed over.
  pub record IsFirstFit (attempt : ℕ) (excluded : List ℕ) (rung : ℕ) (rest : List (Option ℕ))
      (k : Candidate) : Type 0 where
    pub steps : ℕ
    pub place : k.cap_index ≡ rung + steps
    pub within : steps < length rest
    pub fitting : IsFitting d r fee_payer wsol_ata admitted requested k
    pub passed :
        All
          (λ (p : ℕ × Option ℕ).
            IsPassed d r fee_payer wsol_ata admitted requested attempt p.0 p.1 excluded)
          (take steps (numbered rung rest))
    pub chosen :
        (cap : Option ℕ) × (get_elem? rest steps ≡ some cap)
        × (fit_round d r fee_payer wsol_ata admitted requested attempt k.cap_index cap excluded
            ≡ ok (some k))

  ladder-IsFirstFit :
      (attempt : ℕ) (excluded : List ℕ) (rung : ℕ) (rest : List (Option ℕ)) {k : Candidate}
      → ladder d r fee_payer wsol_ata admitted requested attempt excluded rung rest ≡ ok (some k)
      → IsFirstFit attempt excluded rung rest k
  unfolding ladder
  ladder-IsFirstFit attempt excluded rung [] e = cc
  ladder-IsFirstFit attempt excluded rung (cap ∷ rest) {k} e =
      let (found, a, e1) =
        >>=-eq-ok (fit_round d r fee_payer wsol_ata admitted requested attempt rung cap excluded) _
          e in
      by_round (λ f. ladder-IsFirstFit attempt excluded (rung + 1) rest f) found a e1
    where
      by_round :
          (ladder d r fee_payer wsol_ata admitted requested attempt excluded (rung + 1) rest
              ≡ ok (some k)
            → IsFirstFit attempt excluded (rung + 1) rest k)
          → (found : Option Candidate)
          → fit_round d r fee_payer wsol_ata admitted requested attempt rung cap excluded ≡ ok found
          → (elim found [
            | none ↦
                ladder d r fee_payer wsol_ata admitted requested attempt excluded (rung + 1) rest
            | some c ↦ ok (some c)
          ])
            ≡ ok (some k)
          → IsFirstFit attempt excluded rung (cap ∷ rest) k
      by_round narrower none a e1 =
          let later = narrower e1 in
          record {
            steps = suc later.steps;
            place = omega (arith, later.place);
            within = omega (arith, later.within);
            fitting = later.fitting;
            passed = (
              fit_round-IsPassed d r fee_payer wsol_ata admitted requested attempt rung cap excluded
                  a,
              later.passed,
            );
            chosen = later.chosen;
          }
      by_round narrower (some c) a e1 =
          let same : some c ≡ some k = ok-injective e1 in
          let taken : fit_round d r fee_payer wsol_ata admitted requested attempt rung cap excluded
              ≡ ok (some k) =
            a ∙ ap ok same in
          let (fit, at) =
            fit_round-IsFitting d r fee_payer wsol_ata admitted requested attempt rung cap excluded
              taken in
          record {
            steps = 0;
            place = omega (arith, at);
            within = omega arith;
            fitting = fit;
            passed = tt;
            chosen = (
              cap,
              refl,
              subst
                  (λ n.
                    fit_round d r fee_payer wsol_ata admitted requested attempt n cap excluded
                    ≡ ok (some k))
                  (sym at) taken,
            );
          }

  -- The candidate of an attempt fits, its cap is the first that serves in the list of none and the
  -- policy's caps, from the attempt's place in that list on: for each cap before it, in the list's
  -- order, the round's message was compiled and cannot be serialized, or is over 1232 bytes, or locks
  -- over 64 accounts, and a round without a cap was passed over only where there are at most two
  -- legs or the request's tables cover the vault's accounts.
  pub prepare_candidate-IsFirstFit :
      (attempt : ℕ) (excluded : List ℕ) (cap_start : ℕ) (k : Candidate)
      → prepare_candidate d r fee_payer wsol_ata admitted requested attempt excluded cap_start
        ≡ ok k
      → IsFirstFit attempt excluded cap_start (drop cap_start (caps d)) k
  unfolding prepare_candidate
  prepare_candidate-IsFirstFit attempt excluded cap_start k e =
      let (found, a, e1) =
        >>=-eq-ok
          (ladder d r fee_payer wsol_ata admitted requested attempt excluded cap_start
            (drop cap_start (caps d)))
          _ e in
      ladder-IsFirstFit attempt excluded cap_start (drop cap_start (caps d))
        (a ∙ ap ok (require-eq-ok found (policy transaction_too_large) e1))
