-- ===== src/Service/Quoted/Priced.antt =====
-- What a prepared leg keeps of its admission, and what its price and its accounts are.
use mathlib.Core.Path.{subst}
use onchainburner.Base.{
  ℕ, ◌+◌, ◌≤◌, ◌≡◌, ◌⊎◌, refl, Bool, true, not, Option, Bytes, List, [], ◌∷◌, ◌++◌, map, length,
  contains, ltb, ◌==◌, if◌then◌else◌, arith, if-cases, inl, inr,
}
use onchainburner.Base.Errors.{
  ok, policy, reject_if, require, AllPairs, >>=-eq-ok, ok-injective, direct_curve_unavailable,
  setup_required,
}
use onchainburner.Chain.{PublicKey, Web3}
use onchainburner.Curve.{assert_direct_curve_leg_shape}
use onchainburner.Wire.{PreparedLeg}
use onchainburner.Admission.Route.{assert_route, assert_auxiliary_instructions}
use onchainburner.Admission.Route.Pinned.{IsPinned, assert_route-IsPinned}
use onchainburner.Admission.Tables.{
  resolve_and_validate_lookup_tables, AllLive, distinct, resolve_lookup_tables-AllLive,
}
use onchainburner.Service.{Gateway, Limits}
use onchainburner.Service.Admitted.{AdmittedLeg}
use onchainburner.Service.Quoted.{
  JupiterQuote, Quoters, reference_block, assert_amounts, assert_independent, set_up_loop,
  swap_accounts, prepare_curve_leg, jupiter_params, prepare_jupiter_leg, prepare_leg, prepare_legs,
}
use onchainburner.Service.Quoted.Amounts.{
  IsPriced, assert_amounts-IsPriced, IsIndependent, assert_independent-IsIndependent,
}

-- What a leg's amount was admitted with.
pub record IsKept (leg : AdmittedLeg) (p : PreparedLeg) : Type 0 where
  pub target_mint : p.target_mint ≡ leg.target_mint
  pub target_ata : p.target_ata ≡ leg.ata
  pub target_token_program : p.target_token_program ≡ leg.token_program
  pub bps : p.bps ≡ leg.bps
  pub amount_in : p.amount_in ≡ leg.amount_in
  pub reference : p.reference ≡ reference_block leg.reference

module _ (w : Web3) (from_base64 : List ℕ → Bytes) (chain : Gateway) (quoters : Quoters)
    (limits : Limits) (pda wsol_ata : PublicKey) where
  -- A leg that buys on the curve asks for the floor itself, with no route data.
  pub record IsCurved (leg : AdmittedLeg) (p : PreparedLeg) : Type 0 where
    pub direct : leg.reference.direct_curve ≡ true
    pub minimum : p.minimum_output ≡ leg.program_floor
    pub empty : p.route_data ≡ []
    pub shaped :
        assert_direct_curve_leg_shape w p.route_accounts pda leg.target_mint leg.ata ≡ ok tt

  -- A leg that Jupiter quoted: its route is pinned, its amounts are within the policy, and its
  -- minimum is the larger of the floor and the quote's threshold.
  pub record IsQuoted (leg : AdmittedLeg) (quote : JupiterQuote) (p : PreparedLeg) : Type 0 where
    pub pinned :
        IsPinned from_base64 pda wsol_ata leg.target_mint leg.ata leg.token_program leg.amount_in
          quote.build p.route_data
    pub threshold : ℕ
    pub priced : IsPriced limits leg.program_floor quote threshold
    pub independent :
        IsIndependent quoters.required_minimum_output leg.amount_in leg.target_mint threshold
    pub floored : leg.program_floor ≤ p.minimum_output
    pub promised : threshold ≤ p.minimum_output
    pub least : (p.minimum_output ≡ leg.program_floor) ⊎ (p.minimum_output ≡ threshold)
    pub listed :
        swap_accounts w from_base64 chain quoters limits pda wsol_ata quote.build
        ≡ ok p.route_accounts
    pub tables :
        AllLive chain.get_table quote.tables
          (distinct [] (map (λ (c : PublicKey × List PublicKey). c.0) quote.tables ++ []))
          p.lookup_tables

  curve_leg-IsCurved :
      (attempt rung : ℕ) (leg : AdmittedLeg) {p : PreparedLeg}
      → leg.reference.direct_curve ≡ true
      → prepare_curve_leg w from_base64 chain quoters limits pda wsol_ata attempt rung leg ≡ ok p
      → IsKept leg p × IsCurved leg p
  unfolding prepare_curve_leg
  curve_leg-IsCurved attempt rung leg direct e =
      let (client, _, e1) =
        >>=-eq-ok (require quoters.direct_curve (policy direct_curve_unavailable)) _ e in
      let (built, _, e2) = >>=-eq-ok (client attempt rung _) _ e1 in
      let (_, _, e3) =
        >>=-eq-ok (reject_if (not (length built.missing_setup == 0)) setup_required) _ e2 in
      let (u, shape, e4) =
        >>=-eq-ok (assert_direct_curve_leg_shape w built.accounts pda leg.target_mint leg.ata) _
          e3 in
      subst (λ (q : PreparedLeg). IsKept leg q × IsCurved leg q) (ok-injective e4)
        (
          record {
            target_mint = refl;
            target_ata = refl;
            target_token_program = refl;
            bps = refl;
            amount_in = refl;
            reference = refl;
          },
          record { direct = direct; minimum = refl; empty = refl; shaped = shape },
        )

  jupiter_leg-IsQuoted :
      (leg : AdmittedLeg) (quote : JupiterQuote) {p : PreparedLeg}
      → prepare_jupiter_leg w from_base64 chain quoters limits pda wsol_ata leg quote ≡ ok p
      → IsKept leg p × IsQuoted leg quote p
  unfolding prepare_jupiter_leg
  jupiter_leg-IsQuoted leg quote e =
      let (route_data, a, e1) =
        >>=-eq-ok
          (assert_route from_base64 pda wsol_ata leg.target_mint leg.ata leg.token_program
            leg.amount_in quote.build)
          _ e in
      let (setup, _, e2) = >>=-eq-ok (assert_auxiliary_instructions quote.build) _ e1 in
      let (_, _, e3) =
        >>=-eq-ok (set_up_loop w from_base64 chain quoters limits pda wsol_ata setup) _ e2 in
      let (threshold, b, e4) = >>=-eq-ok (assert_amounts limits leg.program_floor quote) _ e3 in
      let (_, c, e5) =
        >>=-eq-ok
          (assert_independent quoters.required_minimum_output leg.amount_in leg.target_mint
            threshold)
          _ e4 in
      let (tables, d, e6) =
        >>=-eq-ok (resolve_and_validate_lookup_tables chain.get_table quote.tables []) _ e5 in
      let (accounts, f, e7) =
        >>=-eq-ok (swap_accounts w from_base64 chain quoters limits pda wsol_ata quote.build) _
          e6 in
      subst (λ (q : PreparedLeg). IsKept leg q × IsQuoted leg quote q) (ok-injective e7)
        (
          record {
            target_mint = refl;
            target_ata = refl;
            target_token_program = refl;
            bps = refl;
            amount_in = refl;
            reference = refl;
          },
          record {
            pinned =
                assert_route-IsPinned from_base64 pda wsol_ata leg.target_mint leg.ata
                  leg.token_program leg.amount_in quote.build route_data a;
            threshold = threshold;
            priced = assert_amounts-IsPriced limits leg.program_floor quote b;
            independent =
                assert_independent-IsIndependent quoters.required_minimum_output leg.amount_in
                  leg.target_mint threshold c;
            floored = larger.0 leg.program_floor threshold;
            promised = larger.1 leg.program_floor threshold;
            least = larger.2 leg.program_floor threshold;
            listed = f;
            tables = resolve_lookup_tables-AllLive chain.get_table quote.tables [] tables d;
          },
        )
    where
      larger :
          ((f t : ℕ) → f ≤ (if ltb t f then f else t))
          × ((f t : ℕ) → t ≤ (if ltb t f then f else t))
          × ((f t : ℕ) → ((if ltb t f then f else t) ≡ f) ⊎ ((if ltb t f then f else t) ≡ t))
      larger = (λ f t. ground arith, λ f t. ground arith, λ f t. ground arith)

  -- A prepared leg keeps what was admitted, and is either the direct buy of a leg that is bound to
  -- a live curve, or what Jupiter answered in this round.
  pub prepare_leg-IsPriced :
      (attempt rung : ℕ) (cap : Option ℕ) (exclude_pump : Bool) (leg : AdmittedLeg)
      (p : PreparedLeg)
      → prepare_leg w from_base64 chain quoters limits pda wsol_ata attempt rung cap exclude_pump
          leg
        ≡ ok p
      → IsKept leg p
        × (IsCurved leg p
            ⊎ ((quote : JupiterQuote) × (quoters.jupiter attempt rung (
                    jupiter_params w from_base64 chain quoters limits pda wsol_ata leg cap
                      exclude_pump)
                  ≡ ok quote)
                × IsQuoted leg quote p))
  unfolding prepare_leg
  prepare_leg-IsPriced attempt rung cap exclude_pump leg p e =
      elim (if-cases leg.reference.direct_curve _ _ e) [
        | inl (direct, f) ↦
            let (kept, curved) = curve_leg-IsCurved attempt rung leg direct f in (kept, inl curved)
        | inr (routed, f) ↦
            let (quote, a, e1) =
              >>=-eq-ok
                (quoters.jupiter attempt rung (
                  jupiter_params w from_base64 chain quoters limits pda wsol_ata leg cap
                    exclude_pump))
                _ f in
            let (kept, quoted) = jupiter_leg-IsQuoted leg quote e1 in (kept, inr (quote, a, quoted))
      ]

  -- Whatever the round, the leg keeps its admission and demands no less than its floor.
  pub record IsProtected (leg : AdmittedLeg) (p : PreparedLeg) : Type 0 where
    pub kept : IsKept leg p
    pub floored : leg.program_floor ≤ p.minimum_output
    pub priced : IsCurved leg p ⊎ ((quote : JupiterQuote) × IsQuoted leg quote p)

  protected :
      (attempt rung : ℕ) (cap : Option ℕ) (exclude_pump : Bool) (leg : AdmittedLeg)
      (p : PreparedLeg)
      → prepare_leg w from_base64 chain quoters limits pda wsol_ata attempt rung cap exclude_pump
          leg
        ≡ ok p
      → IsProtected leg p
  protected attempt rung cap exclude_pump leg p e =
      let (kept, how) = prepare_leg-IsPriced attempt rung cap exclude_pump leg p e in
      elim how [
        | inl c ↦ record { kept = kept; floored = omega (arith, c.minimum); priced = inl c }
        | inr (quote, _, q) ↦ record { kept = kept; floored = q.floored; priced = inr (quote, q) }
      ]

  pub legs-IsProtected :
      (attempt rung : ℕ) (cap : Option ℕ) (excluded : List ℕ) (index : ℕ) (legs : List AdmittedLeg)
      {ps : List PreparedLeg}
      → prepare_legs w from_base64 chain quoters limits pda wsol_ata attempt rung cap excluded index
          legs
        ≡ ok ps
      → AllPairs IsProtected legs ps
  unfolding prepare_legs
  legs-IsProtected attempt rung cap excluded index [] e =
      subst (AllPairs IsProtected []) (ok-injective e) tt
  legs-IsProtected attempt rung cap excluded index (leg ∷ legs) e =
      let (p, a, e1) =
        >>=-eq-ok
          (prepare_leg w from_base64 chain quoters limits pda wsol_ata attempt rung cap
            (contains index excluded) leg)
          _ e in
      let (ps, b, e2) =
        >>=-eq-ok
          (prepare_legs w from_base64 chain quoters limits pda wsol_ata attempt rung cap excluded
            (index + 1) legs)
          _ e1 in
      subst (AllPairs IsProtected (leg ∷ legs)) (ok-injective e2) (
        protected attempt rung cap (contains index excluded) leg p a,
        legs-IsProtected attempt rung cap excluded (index + 1) legs b,
      )
