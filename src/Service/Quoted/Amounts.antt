-- ===== src/Service/Quoted/Amounts.antt =====
-- The amounts of a quote that is accepted.
use mathlib.Core.Path.{subst}
use onchainburner.Base.{
  not-false, ℕ, ◌+◌, ◌-◌, ◌*◌, ◌/◌, ◌≤◌, ◌<◌, ◌≡◌, refl, true, not, ◌||◌, Option, none, some, ltb,
  ◌==◌, arith, Bool-cases, inl, inr,
}
use onchainburner.Base.Int.{ℤ, pos, negsuc}
use onchainburner.Base.Errors.{
  Result, ok, reject_if, >>=-eq-ok, ok-injective, reject_if-eq-ok, reference_does_not_price_market,
  slippage_policy, price_impact_policy, independent_floor,
}
use onchainburner.Chain.{PublicKey}
use onchainburner.Service.{Limits}
use onchainburner.Service.Quoted.{
  JupiterQuote, output_floor, is_slippage_in, is_impact_in, assert_amounts, assert_independent,
}

output_floor-lem :
    (out other : ℤ) {quoted threshold : ℕ}
    → output_floor out other ≡ ok (quoted, threshold)
    → (out ≡ pos quoted) × (other ≡ pos threshold) × (0 < threshold) × (threshold ≤ quoted)
output_floor-lem (pos q) (pos t) e =
    let bad = q == 0 || t == 0 || ltb q t in
    elim (Bool-cases bad) [
      | inl y ↦ absurd (cc (rw y at e))
      | inr n ↦
          subst (λ (x : ℕ × ℕ). (pos q ≡ pos x.0) × (pos t ≡ pos x.1) × (0 < x.1) × (x.1 ≤ x.0))
            (ok-injective (rw n at e)) (refl, refl, ground (arith, n), ground (arith, n))
    ]
output_floor-lem (negsuc n) z e = cc
output_floor-lem (pos n) (negsuc k) e = cc

-- The amounts of an accepted quote, against the floor and the policy.
pub record IsPriced (limits : Limits) (program_floor : ℕ) (quote : JupiterQuote) (threshold : ℕ)
    : Type 0 where
  pub quoted : ℕ
  pub out : quote.out_amount ≡ ok (pos quoted)
  pub other : quote.other_amount_threshold ≡ ok (pos threshold)
  pub positive : 0 < threshold
  pub promised : threshold ≤ quoted
  pub market : quoted ≤ 2 * program_floor + 1
  pub tolerance : quoted * (10_000 - limits.max_slippage_bps) ≤ threshold * 10_000
  pub slippage : is_slippage_in limits.max_slippage_bps quote.slippage_bps ≡ true
  pub impact : is_impact_in limits.max_price_impact_bps quote.price_impact_bps ≡ true

pub assert_amounts-IsPriced :
    (limits : Limits) (program_floor : ℕ) (quote : JupiterQuote) {threshold : ℕ}
    → assert_amounts limits program_floor quote ≡ ok threshold
    → IsPriced limits program_floor quote threshold
unfolding assert_amounts
assert_amounts-IsPriced limits program_floor quote e =
    let (out, a, e1) = >>=-eq-ok quote.out_amount _ e in
    let (other, b, e2) = >>=-eq-ok quote.other_amount_threshold _ e1 in
    let ((quoted, threshold), c, e3) = >>=-eq-ok (output_floor out other) _ e2 in
    let (is_out, is_other, positive, promised) = output_floor-lem out other c in
    let poor = ltb program_floor (quoted / 2) in
    let (_, d, e4) = >>=-eq-ok (reject_if poor reference_does_not_price_market) _ e3 in
    let market = reject_if-eq-ok poor reference_does_not_price_market d in
    let steep = not (is_slippage_in limits.max_slippage_bps quote.slippage_bps) in
    let (_, f, e5) = >>=-eq-ok (reject_if steep slippage_policy) _ e4 in
    let loose = ltb (threshold * 10_000) (quoted * (10_000 - limits.max_slippage_bps)) in
    let (_, g, e6) = >>=-eq-ok (reject_if loose slippage_policy) _ e5 in
    let tolerance = reject_if-eq-ok loose slippage_policy g in
    let moved = not (is_impact_in limits.max_price_impact_bps quote.price_impact_bps) in
    let (_, h, e7) = >>=-eq-ok (reject_if moved price_impact_policy) _ e6 in
    subst (IsPriced limits program_floor quote) (ok-injective e7) (record {
      quoted = quoted;
      out = subst (λ z. quote.out_amount ≡ ok z) is_out a;
      other = subst (λ z. quote.other_amount_threshold ≡ ok z) is_other b;
      positive = positive;
      promised = promised;
      market = ground (arith, market);
      tolerance = ground (arith, tolerance);
      slippage =
          not-false (is_slippage_in limits.max_slippage_bps quote.slippage_bps)
            (reject_if-eq-ok steep slippage_policy f);
      impact =
          not-false (is_impact_in limits.max_price_impact_bps quote.price_impact_bps)
            (reject_if-eq-ok moved price_impact_policy h);
    })

-- The threshold is no less than the independent floor, where there is one.
abbrev pub IsIndependent : Option (ℕ → PublicKey → Result ℕ) → ℕ → PublicKey → ℕ → Type 0
IsIndependent none amount_in mint threshold = Unit
IsIndependent (some required) amount_in mint threshold =
    (floor : ℕ) × (required amount_in mint ≡ ok floor) × (floor ≤ threshold)

pub assert_independent-IsIndependent :
    (required : Option (ℕ → PublicKey → Result ℕ)) (amount_in : ℕ) (mint : PublicKey)
    (threshold : ℕ)
    → assert_independent required amount_in mint threshold ≡ ok tt
    → IsIndependent required amount_in mint threshold
assert_independent-IsIndependent none amount_in mint threshold e = tt
assert_independent-IsIndependent (some required) amount_in mint threshold e =
    let (floor, a, e1) = >>=-eq-ok (required amount_in mint) _ e in
    let low = reject_if-eq-ok (ltb threshold floor) independent_floor e1 in
    (floor, a, ground (arith, low))
