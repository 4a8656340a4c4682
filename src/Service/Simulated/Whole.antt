-- ===== src/Service/Simulated/Whole.antt =====
-- What `prepare` gives for a request: the whole amount is burned, and every leg is floored.
use mathlib.Core.Path.{subst}
use onchainburner.Base.{ℕ, ◌≤◌, ◌<◌, ◌≡◌, refl, sym, ap, ◌∙◌, List, [], ◌∷◌, map, sum}
use onchainburner.Base.Errors.{ok, AllPairs, >>=-eq-ok, ok-injective}
use onchainburner.Chain.{PublicKey}
use onchainburner.Request.{Json}
use onchainburner.Wire.{PreparedLeg}
use onchainburner.Service.Resolved.{RequestedLeg, ResolvedRequest}
use onchainburner.Service.Resolved.Funded.{resolve_request-IsFunded}
use onchainburner.Service.Admitted.{AdmittedLeg}
use onchainburner.Service.Admitted.Solvent.{admit-amounts}
use onchainburner.Service.Quoted.{reference_block}
use onchainburner.Service.Fitted.{Dependencies}
use onchainburner.Service.Simulated.{BuiltBurn, PreparedBurn, build_and_simulate, resolve, prepare}
use onchainburner.Service.Simulated.Clean.{IsBuilt, build_and_simulate-IsBuilt}

AllPairs-compose :
    {A B C : Type 0} {R : A → B → Type 0} {S : B → C → Type 0} {T : A → C → Type 0}
    → ((x : A) (y : B) (z : C) → R x y → S y z → T x z)
    → (xs : List A) (ys : List B) (zs : List C) → AllPairs R xs ys
    → AllPairs S ys zs
    → AllPairs T xs zs
AllPairs-compose f [] [] [] h k = tt
AllPairs-compose f [] [] (z ∷ zs) h k = absurd k
AllPairs-compose f [] (y ∷ ys) zs h k = absurd h
AllPairs-compose f (x ∷ xs) [] zs h k = absurd h
AllPairs-compose f (x ∷ xs) (y ∷ ys) [] h k = absurd k
AllPairs-compose f (x ∷ xs) (y ∷ ys) (z ∷ zs) (r, h) (s, k) =
    (f x y z r s, AllPairs-compose f xs ys zs h k)

AllPairs-map :
    {A B : Type 0} {R : A → B → Type 0} (f : A → ℕ) (g : B → ℕ)
    → ((x : A) (y : B) → R x y → f x ≡ g y)
    → (xs : List A) (ys : List B) → AllPairs R xs ys
    → map f xs ≡ map g ys
AllPairs-map f g h [] [] k = refl
AllPairs-map f g h [] (y ∷ ys) k = absurd k
AllPairs-map f g h (x ∷ xs) [] k = absurd k
AllPairs-map f g h (x ∷ xs) (y ∷ ys) (r, k) =
    ap (λ n. n ∷ map f xs) (h x y r) ∙ ap (λ ns. g y ∷ ns) (AllPairs-map f g h xs ys k)

-- The prepared leg is the requested one, of a positive amount, and demands no less than the floor
-- of its reference for this amount.
pub record IsFloored (leg : RequestedLeg) (p : PreparedLeg) : Type 0 where
  pub target : p.target_mint ≡ leg.target_mint
  pub bps : p.bps ≡ leg.bps
  pub reference : p.reference ≡ reference_block leg.reference
  pub positive : 0 < p.amount_in
  pub floor : ℕ
  pub floored : leg.reference.floor_for p.amount_in ≡ ok floor
  pub least : floor ≤ p.minimum_output

module _ (d : Dependencies) (raw : Json) (fee_payer : PublicKey) where
  pub record IsWhole (p : PreparedBurn) : Type 0 where
    pub r : ResolvedRequest
    pub resolved : resolve d raw ≡ ok r
    pub built : BuiltBurn
    pub sound : IsBuilt d r fee_payer built
    pub request : p.request_id ≡ r.request.request_id
    pub vault : p.vault ≡ r.pda
    pub message : p.message ≡ built.message
    pub total : sum (map (λ (l : PreparedLeg). l.amount_in) built.legs) ≡ r.amount
    pub floored : AllPairs IsFloored r.requested_legs built.legs
    pub minimums : p.minimum_outputs ≡ map (λ (l : PreparedLeg). l.minimum_output) built.legs

  built-IsFloored :
      (r : ResolvedRequest) (built : BuiltBurn) (b : IsBuilt d r fee_payer built)
      → AllPairs IsFloored r.requested_legs built.legs
  built-IsFloored r built b = subst (AllPairs IsFloored r.requested_legs) (sym b.prepared) (
      AllPairs-compose
        (λ leg a p h k. record {
          target = k.kept.target_mint ∙ h.target;
          bps = k.kept.bps ∙ h.bps;
          reference = k.kept.reference ∙ ap reference_block h.reference;
          positive = subst (λ n. 0 < n) (sym k.kept.amount_in) h.positive;
          floor = a.program_floor;
          floored = ap leg.reference.floor_for k.kept.amount_in ∙ h.floored;
          least = k.floored;
        })
        r.requested_legs b.admitted b.candidate.legs b.legs b.fitting.protected)

  built-total :
      (r : ResolvedRequest) (built : BuiltBurn) (b : IsBuilt d r fee_payer built)
      → resolve d raw ≡ ok r
      → sum (map (λ (l : PreparedLeg). l.amount_in) built.legs) ≡ r.amount
  unfolding resolve
  built-total r built b resolved =
      let funded =
        resolve_request-IsFunded d.web3 d.public_key_of d.chain.get_account_data d.burner_program
          d.limits.max_amount raw r resolved in
      let amounts =
        admit-amounts d.web3 d.chain _ r funded.amounts b.wsol_ata b.admitted funded.funded
          funded.divided b.admission in
      let kept =
        AllPairs-map (λ (a : AdmittedLeg). a.amount_in) (λ (l : PreparedLeg). l.amount_in)
          (λ a p k. sym k.kept.amount_in) b.admitted b.candidate.legs b.fitting.protected in
      ap (λ (ls : List PreparedLeg). sum (map (λ (l : PreparedLeg). l.amount_in) ls)) b.prepared
      ∙ (ap sum (sym kept ∙ amounts) ∙ funded.whole)

  -- Whatever `prepare` gives is a built burn of the resolved request: the amounts of its legs add up
  -- to the amount that was asked for, each leg has its target, its weight and its reference, and
  -- its minimum output is no less than the floor of this reference for this amount.
  pub prepare-IsWhole : (p : PreparedBurn) → prepare d raw fee_payer ≡ ok p → IsWhole p
  unfolding prepare
  prepare-IsWhole p e =
      let (r, a, e1) = >>=-eq-ok (resolve d raw) _ e in
      let (built, c, e2) = >>=-eq-ok (build_and_simulate d r fee_payer) _ e1 in
      let b = build_and_simulate-IsBuilt d r fee_payer built c in
      subst IsWhole (ok-injective e2) (record {
        r = r;
        resolved = a;
        built = built;
        sound = b;
        request = refl;
        vault = refl;
        message = refl;
        total = built-total r built b a;
        floored = built-IsFloored r built b;
        minimums = refl;
      })
