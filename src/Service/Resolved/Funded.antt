-- ===== src/Service/Resolved/Funded.antt =====
-- What a resolved request is: its amounts, its caps and its vault.
use onchainburner.Base.{
  length-map, ℕ, ◌≤◌, ◌<◌, ◌≡◌, ◌⊎◌, refl, sym, ap, ◌∙◌, false, ◌||◌, Option, List, [], ◌∷◌, map,
  sum, length, ltb, ◌==◌, All, arith,
}
use onchainburner.Base.Int.{ℤ, pos}
use onchainburner.Base.Errors.{
  ok, reject_if, map_result, AllPairs, map_result-AllPairs, >>=-eq-ok, ok-injective,
  reject_if-eq-ok, notional_limit, target_mint_native, zero_leg_amount,
}
use onchainburner.Chain.{PublicKey, Web3, wsol_mint, native_mint_2022}
use onchainburner.Split.{split_amounts}
use onchainburner.Split.Laws.{split_amounts-IsFair, Legwise-length}
use onchainburner.Vault.{derive_vault}
use onchainburner.Request.{Text, Json, BurnLegRequest, parse_burn_request, decimal}
use onchainburner.Request.Parsed.{IsRequest, parse_burn_request-IsRequest}
use onchainburner.Reference.{min_reference_depth_lamports}
use onchainburner.Reference.Venues.{Reader, zeroes}
use onchainburner.Reference.Resolve.{resolve_reference}
use onchainburner.Reference.Resolve.Gates.{resolve_reference-gates}
use onchainburner.Service.Resolved.{
  RequestedLeg, ResolvedRequest, KeyedLeg, is_some, leg_floor, leg_floors, seeded_leg, key_of,
  optional_key, keyed_leg, requested_leg, resolve_request,
}
use mathlib.Core.Path.{subst}

-- The leg is given its amount: it is positive, within the cap of the leg's reference, and the
-- reference is deep enough and gives a floor.
pub record IsFundedLeg (leg : RequestedLeg) (amount : ℕ) : Type 0 where
  pub positive : 0 < amount
  pub floor : ℕ
  pub floored : leg.reference.floor_for amount ≡ ok floor
  pub within : amount ≤ leg.reference.cap_lamports
  pub deep :
      (leg.reference.seed ≡ zeroes 32)
      ⊎ (min_reference_depth_lamports ≤ leg.reference.depth_lamports)

module _ (w : Web3) (public_key_of : Text → Option PublicKey) (reader : Reader) where
  -- The leg's reference is resolved for its target.
  abbrev pub IsReferenced : RequestedLeg → Type 0
  IsReferenced leg =
      (reference : Option PublicKey) × (resolve_reference w reader leg.target_mint reference
        ≡ ok leg.reference)

  pub record IsFunded (burner_program max_amount : ℕ) (r : ResolvedRequest) : Type 0 where
    pub request : IsRequest (λ t. is_some (public_key_of t)) r.request
    pub amount : r.amount ≡ decimal 0 r.request.amount_in
    pub limited : r.amount ≤ max_amount
    pub amounts : List ℕ
    pub divided :
        split_amounts r.amount (map (λ (l : RequestedLeg). l.bps) r.requested_legs)
        ≡ map pos amounts
    pub whole : sum amounts ≡ r.amount
    pub funded : AllPairs IsFundedLeg r.requested_legs amounts
    pub native :
        All
          (λ (l : RequestedLeg).
            (l.target_mint == wsol_mint || l.target_mint == native_mint_2022) ≡ false)
          r.requested_legs
    pub vault :
        derive_vault w burner_program r.launch_mint (map seeded_leg r.requested_legs) ≡ ok r.pda

  -- A leg of the request with the leg that is resolved from it.
  record IsFrom (leg : BurnLegRequest) (r : RequestedLeg) : Type 0 where
    bps : r.bps ≡ leg.bps
    native : (r.target_mint == wsol_mint || r.target_mint == native_mint_2022) ≡ false
    referenced : IsReferenced r

  leg-IsFrom :
      (leg : BurnLegRequest) {k : KeyedLeg} {r : RequestedLeg}
      → keyed_leg w public_key_of reader leg ≡ ok k
      → requested_leg w public_key_of reader k ≡ ok r
      → IsFrom leg r
  unfolding keyed_leg requested_leg
  leg-IsFrom leg {k} e f =
      let (target, _, e1) = >>=-eq-ok (key_of w public_key_of reader leg.target_mint) _ e in
      let native = target == wsol_mint || target == native_mint_2022 in
      let (_, a, e2) = >>=-eq-ok (reject_if native target_mint_native) _ e1 in
      let (ref, _, e3) = >>=-eq-ok (optional_key w public_key_of reader leg.reference) _ e2 in
      let same = ok-injective e3 in
      let (reference, g, f1) =
        >>=-eq-ok (resolve_reference w reader k.target_mint k.reference) _ f in
      subst (IsFrom leg) (ok-injective f1) (record {
        bps = sym (ap (λ (k : KeyedLeg). k.bps) same);
        native =
            subst (λ (t : PublicKey). (t == wsol_mint || t == native_mint_2022) ≡ false)
              (ap (λ (k : KeyedLeg). k.target_mint) same)
              (reject_if-eq-ok native target_mint_native a);
        referenced = (k.reference, g);
      })

  legs-IsFrom :
      (legs : List BurnLegRequest) (keyed : List KeyedLeg) (rs : List RequestedLeg)
      → AllPairs (λ leg k. keyed_leg w public_key_of reader leg ≡ ok k) legs keyed
      → AllPairs (λ k r. requested_leg w public_key_of reader k ≡ ok r) keyed rs
      → AllPairs IsFrom legs rs
  legs-IsFrom [] [] [] h k = tt
  legs-IsFrom (l ∷ ls) (k ∷ ks) (r ∷ rs) (a, h) (b, j) =
      (leg-IsFrom l a b, legs-IsFrom ls ks rs h j)
  legs-IsFrom [] [] (r ∷ rs) h k = absurd k
  legs-IsFrom [] (k ∷ ks) rs h j = absurd h
  legs-IsFrom (l ∷ ls) [] rs h j = absurd h
  legs-IsFrom (l ∷ ls) (k ∷ ks) [] h j = absurd j

  same_weights :
      (legs : List BurnLegRequest) (rs : List RequestedLeg)
      → AllPairs IsFrom legs rs
      → map (λ (l : RequestedLeg). l.bps) rs ≡ map (λ (l : BurnLegRequest). l.bps) legs
  same_weights [] [] h = refl
  same_weights (l ∷ ls) (r ∷ rs) (a, h) = rw (a.bps, same_weights ls rs h) refl
  same_weights [] (r ∷ rs) h = absurd h
  same_weights (l ∷ ls) [] h = absurd h

  all_native :
      (legs : List BurnLegRequest) (rs : List RequestedLeg)
      → AllPairs IsFrom legs rs
      → All
          (λ (l : RequestedLeg).
            (l.target_mint == wsol_mint || l.target_mint == native_mint_2022) ≡ false)
          rs
        × All IsReferenced rs
  all_native [] [] h = (tt, tt)
  all_native (l ∷ ls) (r ∷ rs) (a, h) =
      let (n, t) = all_native ls rs h in ((a.native, n), (a.referenced, t))
  all_native [] (r ∷ rs) h = absurd h
  all_native (l ∷ ls) [] h = absurd h

  floor-IsFundedLeg :
      (leg : RequestedLeg) (amount : ℕ) {floor : ℕ}
      → IsReferenced leg
      → leg_floor leg.reference (pos amount) ≡ ok floor
      → IsFundedLeg leg amount
  floor-IsFundedLeg leg amount {floor} (ref, g) e =
      let (_, a, e1) = >>=-eq-ok (reject_if (amount == 0) zero_leg_amount) _ e in
      let zero_test = reject_if-eq-ok (amount == 0) zero_leg_amount a in
      let (within, deep) =
        resolve_reference-gates w reader leg.target_mint ref leg.reference g amount floor e1 in
      record {
        positive = ground (arith, zero_test);
        floor = floor;
        floored = e1;
        within = within;
        deep = deep;
      }

  floors-AllPairs :
      (legs : List RequestedLeg) (amounts : List ℕ) {floors : List ℕ}
      → All IsReferenced legs
      → length legs ≡ length amounts
      → leg_floors legs (map pos amounts) ≡ ok floors
      → AllPairs IsFundedLeg legs amounts
  unfolding leg_floors
  floors-AllPairs [] [] h n e = tt
  floors-AllPairs [] (a ∷ amounts) h n e = absurd (omega (arith, n))
  floors-AllPairs (leg ∷ legs) [] h n e = absurd (omega (arith, n))
  floors-AllPairs (leg ∷ legs) (a ∷ amounts) (g, h) n e =
      let (floor, f, e1) = >>=-eq-ok (leg_floor leg.reference (pos a)) _ e in
      let (floors, k, _) = >>=-eq-ok (leg_floors legs (map pos amounts)) _ e1 in
      (floor-IsFundedLeg leg a g f, floors-AllPairs legs amounts h (omega (arith, n)) k)

  -- A request that is resolved is accepted, within the service's limit and without a native target;
  -- its amount is divided into positive amounts that add up to it, each within the cap of its leg's
  -- reference, which is deep enough and gives a floor; and its vault is the one of these legs and
  -- references.
  pub resolve_request-IsFunded :
      (burner_program max_amount : ℕ) (raw : Json) (r : ResolvedRequest)
      → resolve_request w public_key_of reader burner_program max_amount raw ≡ ok r
      → IsFunded burner_program max_amount r
  unfolding resolve_request
  resolve_request-IsFunded burner_program max_amount raw r e =
      let is_key = λ (t : Text). is_some (public_key_of t) in
      let (request, a, e1) = >>=-eq-ok (parse_burn_request is_key raw) _ e in
      let (launch_mint, _, e2) =
        >>=-eq-ok (key_of w public_key_of reader request.launch_mint) _ e1 in
      let amount = decimal 0 request.amount_in in
      let (_, b, e3) = >>=-eq-ok (reject_if (ltb max_amount amount) notional_limit) _ e2 in
      let (keyed, c, e4) =
        >>=-eq-ok (map_result (keyed_leg w public_key_of reader) request.legs) _ e3 in
      let (legs, d, e5) =
        >>=-eq-ok (map_result (requested_leg w public_key_of reader) keyed) _ e4 in
      let weights = map (λ (l : RequestedLeg). l.bps) legs in
      let (floors, f, e6) = >>=-eq-ok (leg_floors legs (split_amounts amount weights)) _ e5 in
      let (pda, g, e7) =
        >>=-eq-ok (derive_vault w burner_program launch_mint (map seeded_leg legs)) _ e6 in
      let parsed = parse_burn_request-IsRequest is_key raw request a in
      let from =
        legs-IsFrom request.legs keyed legs
          (map_result-AllPairs (keyed_leg w public_key_of reader) request.legs c)
          (map_result-AllPairs (requested_leg w public_key_of reader) keyed d) in
      let same = same_weights request.legs legs from in
      let (amounts, divided, whole, fair) =
        split_amounts-IsFair amount weights (ap sum same ∙ parsed.whole) in
      let (native, referenced) = all_native request.legs legs from in
      let over = reject_if-eq-ok (ltb max_amount amount) notional_limit b in
      subst (IsFunded burner_program max_amount) (ok-injective e7) (record {
        request = parsed;
        amount = refl;
        limited = ground (arith, over);
        amounts = amounts;
        divided = divided;
        whole = whole;
        funded =
            floors-AllPairs legs amounts referenced
              (length_weights legs amounts (Legwise-length _ weights amounts fair))
              (subst (λ (t : List ℤ). leg_floors legs t ≡ ok floors) divided f);
        native = native;
        vault = g;
      })
    where
      length_weights :
          (legs : List RequestedLeg) (amounts : List ℕ)
          → length (map (λ (l : RequestedLeg). l.bps) legs) ≡ length amounts
          → length legs ≡ length amounts
      length_weights legs amounts h = sym (length-map (λ (l : RequestedLeg). l.bps) legs) ∙ h
