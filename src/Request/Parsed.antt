-- ===== src/Request/Parsed.antt =====
-- What a request that `parseBurnRequest` accepts is.
use onchainburner.Base.{
  ℕ, suc, ◌-◌, ◌^◌, ◌≤◌, ◌<◌, ◌≡◌, refl, ap, ◌∙◌, Bool, true, false, not, ◌||◌, Option, none, some,
  List, [], ◌∷◌, map, length, sum, ltb, ◌==◌, All, arith, codes,
}
use onchainburner.Base.Int.{pos}
use onchainburner.Base.Errors.{
  Code, ok, policy, reject_if, require, require-eq-ok, map_result, >>=-eq-ok, ok-injective,
  reject_if-eq-ok, invalid_request, forbidden_request_field, invalid_request_id,
  invalid_launch_mint, invalid_amount, invalid_legs, invalid_leg, invalid_target_mint,
  invalid_weights, invalid_reference, duplicate_target,
}
use onchainburner.Request.{
  Text, Json, fields_of, elements_of, text_of, value_of, has_unknown, is_request_id,
  is_positive_decimal, decimal, is_duplicate, weight_of, BurnLegRequest, BurnRequest, key_text,
  parse_reference, parse_leg, parse_tables, parse_amount, parse_legs, parse_burn_request, integer,
}
use mathlib.Core.Option.{some-injective}
use mathlib.Core.Path.{subst}

not-true : (b : Bool) → not b ≡ false → b ≡ true
not-true true e = refl
not-true false e = cc

weight_of-pos : (o : Option Json) {n : ℕ} → weight_of o ≡ some n → 0 < n
weight_of-pos (some (integer (pos (suc n)))) e = let f = some-injective _ _ e in omega (arith, f)
weight_of-pos _ e = cc

module _ (is_public_key : Text → Bool) where
  -- A leg with a target that is a key, a positive weight and, where it has one, a reference that is
  -- a key.
  pub record IsLeg (leg : BurnLegRequest) : Type 0 where
    pub target : is_public_key leg.target_mint ≡ true
    pub weight : 0 < leg.bps
    pub reference : (t : Text) → leg.reference ≡ some t → is_public_key t ≡ true

  pub record IsRequest (r : BurnRequest) : Type 0 where
    pub request_id : is_request_id r.request_id ≡ true
    pub launch_mint : is_public_key r.launch_mint ≡ true
    pub amount : is_positive_decimal r.amount_in ≡ true
    pub amount_fits : decimal 0 r.amount_in < 2 ^ 64
    pub some_leg : 1 ≤ length r.legs
    pub few_legs : length r.legs ≤ 4
    pub legs : All IsLeg r.legs
    pub whole : sum (map (λ (l : BurnLegRequest). l.bps) r.legs) ≡ 10_000
    pub distinct : is_duplicate (map (λ (l : BurnLegRequest). l.target_mint) r.legs) ≡ false

  key_text-lem :
      (found : Option Json) (code : Code) {t : Text}
      → key_text is_public_key found code ≡ ok t
      → is_public_key t ≡ true
  unfolding key_text
  key_text-lem found code e =
      let (t, _, e1) = >>=-eq-ok (require (text_of found) (policy code)) _ e in
      let (_, a, e2) = >>=-eq-ok (reject_if (not (is_public_key t)) code) _ e1 in
      subst (λ t. is_public_key t ≡ true) (ok-injective e2)
        (not-true (is_public_key t) (reject_if-eq-ok (not (is_public_key t)) code a))

  reference-lem :
      (found : Option Json) {o : Option Text}
      → parse_reference is_public_key found ≡ ok o
      → (t : Text) → o ≡ some t
      → is_public_key t ≡ true
  unfolding parse_reference
  reference-lem none e t f = absurd (cc (ok-injective e, f))
  reference-lem (some j) e t f =
      let (u, a, e1) = >>=-eq-ok (key_text is_public_key (some j) invalid_reference) _ e in
      subst (λ t. is_public_key t ≡ true) (some-injective _ _ (ok-injective e1 ∙ f))
        (key_text-lem (some j) invalid_reference a)

  parse_leg-IsLeg :
      (raw : Json) {leg : BurnLegRequest} → parse_leg is_public_key raw ≡ ok leg → IsLeg leg
  unfolding parse_leg
  parse_leg-IsLeg raw e =
      let (leg, _, e1) = >>=-eq-ok (require (fields_of raw) (policy invalid_leg)) _ e in
      let (_, _, e2) =
        >>=-eq-ok
          (reject_if (has_unknown (codes "targetMint" ∷ codes "bps" ∷ codes "reference" ∷ []) leg)
            forbidden_request_field)
          _ e1 in
      let (target, a, e3) =
        >>=-eq-ok (key_text is_public_key (value_of (codes "targetMint") leg) invalid_target_mint) _
          e2 in
      let (bps, b, e4) =
        >>=-eq-ok (require (weight_of (value_of (codes "bps") leg)) (policy invalid_weights)) _
          e3 in
      let (ref, c, e5) =
        >>=-eq-ok (parse_reference is_public_key (value_of (codes "reference") leg)) _ e4 in
      subst IsLeg (ok-injective e5) (record {
        target = key_text-lem (value_of (codes "targetMint") leg) invalid_target_mint a;
        weight = weight_of-pos (value_of (codes "bps") leg) (require-eq-ok _ _ b);
        reference = reference-lem (value_of (codes "reference") leg) c;
      })

  map-IsLeg :
      (raws : List Json) {legs : List BurnLegRequest}
      → map_result (parse_leg is_public_key) raws ≡ ok legs
      → All IsLeg legs × (length legs ≡ length raws)
  map-IsLeg [] e =
      subst (λ (ls : List BurnLegRequest). All IsLeg ls × (length ls ≡ 0)) (ok-injective e)
        (tt, refl)
  map-IsLeg (raw ∷ raws) e =
      let (leg, a, e1) = >>=-eq-ok (parse_leg is_public_key raw) _ e in
      let (legs, b, e2) = >>=-eq-ok (map_result (parse_leg is_public_key) raws) _ e1 in
      let (h, n) = map-IsLeg raws b in
      subst (λ (ls : List BurnLegRequest). All IsLeg ls × (length ls ≡ suc (length raws)))
        (ok-injective e2) ((parse_leg-IsLeg raw a, h), ap suc n)

  amount-lem :
      (found : Option Json) {t : Text}
      → parse_amount is_public_key found ≡ ok t
      → (is_positive_decimal t ≡ true) × (decimal 0 t < 2 ^ 64)
  unfolding parse_amount
  amount-lem found e =
      let (t, _, e1) = >>=-eq-ok (require (text_of found) (policy invalid_amount)) _ e in
      let (_, a, e2) = >>=-eq-ok (reject_if (not (is_positive_decimal t)) invalid_amount) _ e1 in
      let over = ltb (2 ^ 64 - 1) (decimal 0 t) in
      let (_, b, e3) = >>=-eq-ok (reject_if over invalid_amount) _ e2 in
      let c = reject_if-eq-ok over invalid_amount b in
      subst (λ t. (is_positive_decimal t ≡ true) × (decimal 0 t < 2 ^ 64)) (ok-injective e3)
        (
          not-true (is_positive_decimal t)
              (reject_if-eq-ok (not (is_positive_decimal t)) invalid_amount a),
          ground (arith, c),
        )

  -- The legs that are accepted.
  pub record AreLegs (legs : List BurnLegRequest) : Type 0 where
    pub some_leg : 1 ≤ length legs
    pub few_legs : length legs ≤ 4
    pub each : All IsLeg legs
    pub whole : sum (map (λ (l : BurnLegRequest). l.bps) legs) ≡ 10_000
    pub distinct : is_duplicate (map (λ (l : BurnLegRequest). l.target_mint) legs) ≡ false

  legs-lem :
      (found : Option Json) {legs : List BurnLegRequest}
      → parse_legs is_public_key found ≡ ok legs
      → AreLegs legs
  unfolding parse_legs
  legs-lem found e =
      let (raws, _, e1) = >>=-eq-ok (require (elements_of found) (policy invalid_legs)) _ e in
      let counted = length raws == 0 || ltb 4 (length raws) in
      let (_, a, e2) = >>=-eq-ok (reject_if counted invalid_legs) _ e1 in
      let (legs, b, e3) = >>=-eq-ok (map_result (parse_leg is_public_key) raws) _ e2 in
      let part = not (sum (map (λ (l : BurnLegRequest). l.bps) legs) == 10_000) in
      let (_, c, e4) = >>=-eq-ok (reject_if part invalid_weights) _ e3 in
      let twice = is_duplicate (map (λ (l : BurnLegRequest). l.target_mint) legs) in
      let (_, d, e5) = >>=-eq-ok (reject_if twice duplicate_target) _ e4 in
      let n = reject_if-eq-ok counted invalid_legs a in
      let p = reject_if-eq-ok part invalid_weights c in
      let (each, same) = map-IsLeg raws b in
      subst AreLegs (ok-injective e5) (record {
        some_leg = ground (arith, n, same);
        few_legs = ground (arith, n, same);
        each = each;
        whole = ground (arith, p);
        distinct = reject_if-eq-ok twice duplicate_target d;
      })

  -- Every request that is accepted has a safe identifier, a launch mint that is a key, a positive
  -- amount that fits 64 bits, and one to four legs with distinct targets, each with positive weight
  -- and keys for its target and its reference, whose weights sum to 100%.
  pub parse_burn_request-IsRequest :
      (value : Json) (r : BurnRequest) → parse_burn_request is_public_key value ≡ ok r → IsRequest r
  unfolding parse_burn_request
  parse_burn_request-IsRequest value r e =
      let (fields, _, e1) = >>=-eq-ok (require (fields_of value) (policy invalid_request)) _ e in
      let (_, _, e2) =
        >>=-eq-ok
          (reject_if
            (has_unknown
              (codes "requestId"
                ∷ codes "launchMint"
                ∷ codes "amountIn"
                ∷ codes "legs"
                ∷ codes "lookupTableAddresses"
                ∷ [])
              fields)
            forbidden_request_field)
          _ e1 in
      let (id, _, e3) =
        >>=-eq-ok
          (require (text_of (value_of (codes "requestId") fields)) (policy invalid_request_id)) _
          e2 in
      let (_, b, e4) = >>=-eq-ok (reject_if (not (is_request_id id)) invalid_request_id) _ e3 in
      let (mint, c, e5) =
        >>=-eq-ok
          (key_text is_public_key (value_of (codes "launchMint") fields) invalid_launch_mint) _
          e4 in
      let (amount, d, e6) =
        >>=-eq-ok (parse_amount is_public_key (value_of (codes "amountIn") fields)) _ e5 in
      let (legs, f, e7) =
        >>=-eq-ok (parse_legs is_public_key (value_of (codes "legs") fields)) _ e6 in
      let (tables, _, e8) =
        >>=-eq-ok (parse_tables is_public_key (value_of (codes "lookupTableAddresses") fields)) _
          e7 in
      let (decimals, fits) = amount-lem (value_of (codes "amountIn") fields) d in
      let l = legs-lem (value_of (codes "legs") fields) f in
      subst IsRequest (ok-injective e8) (record {
        request_id =
            not-true (is_request_id id)
              (reject_if-eq-ok (not (is_request_id id)) invalid_request_id b);
        launch_mint = key_text-lem (value_of (codes "launchMint") fields) invalid_launch_mint c;
        amount = decimals;
        amount_fits = fits;
        some_leg = l.some_leg;
        few_legs = l.few_legs;
        legs = l.each;
        whole = l.whole;
        distinct = l.distinct;
      })
