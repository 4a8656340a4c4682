-- ===== src/Service/Configured.antt =====
-- The policies that the constructor of `QuoteService` accepts.
use mathlib.Core.Path.{subst}
use onchainburner.Base.{
  ℕ, ◌≤◌, ◌≡◌, refl, ◌&&◌, Option, none, some, leb, if-cases, and-true, arith, inl, inr,
}
use onchainburner.Base.Int.{ℤ, pos, negsuc}
use onchainburner.Base.Errors.{ok, >>=-eq-ok, ok-injective}
use onchainburner.Service.{Policy, Limits, in_range, at_least, retries, quote_service}

in_range-lem :
    (low high : ℕ) (z : ℤ) {n : ℕ}
    → in_range low high z ≡ ok n
    → (z ≡ pos n) × (low ≤ n) × (n ≤ high)
in_range-lem low high (negsuc k) e = cc
in_range-lem low high (pos k) e = elim (if-cases (leb low k && leb k high) _ _ e) [
  | inl (both, f) ↦
      let (a, b) = and-true (leb low k) (leb k high) both in
      subst (λ x. (pos k ≡ pos x) × (low ≤ x) × (x ≤ high)) (ok-injective f)
        (refl, ground (arith, a), ground (arith, b))
  | inr (_, f) ↦ absurd (cc f)
]

at_least-lem : (low : ℕ) (z : ℤ) {n : ℕ} → at_least low z ≡ ok n → (z ≡ pos n) × (low ≤ n)
at_least-lem low (negsuc k) e = cc
at_least-lem low (pos k) e = elim (if-cases (leb low k) _ _ e) [
  | inl (a, f) ↦ subst (λ x. (pos k ≡ pos x) × (low ≤ x)) (ok-injective f) (refl, ground (arith, a))
  | inr (_, f) ↦ absurd (cc f)
]

retries-lem : (o : Option ℤ) {n : ℕ} → retries o ≡ ok n → n ≤ 5
retries-lem none e = subst (λ x. x ≤ 5) (ok-injective e) (omega arith)
retries-lem (some z) e = (in_range-lem 0 5 z e).2

-- The numbers of a policy with what they are bounded by.
pub record IsConfigured (p : Policy) (l : Limits) : Type 0 where
  pub units : p.compute_unit_limit ≡ pos l.compute_unit_limit
  pub units_low : 200_001 ≤ l.compute_unit_limit
  pub units_high : l.compute_unit_limit ≤ 1_400_000
  pub slippage : p.max_slippage_bps ≡ pos l.max_slippage_bps
  pub slippage_low : 1 ≤ l.max_slippage_bps
  pub slippage_high : l.max_slippage_bps ≤ 9_999
  pub amount : p.max_amount_per_burn ≡ pos l.max_amount
  pub amount_low : 1 ≤ l.max_amount
  pub impact : p.max_price_impact_bps ≡ pos l.max_price_impact_bps
  pub impact_high : l.max_price_impact_bps ≤ 10_000
  pub ttl : ℕ
  pub lease : p.lease_ttl_ms ≡ pos ttl
  pub ttl_low : 180_000 ≤ ttl
  pub retry : l.retry_limit ≤ 5

-- A service is built only with a positive amount, a slippage below 100%, a price impact of at most
-- 100%, a compute limit between 200,001 and 1,400,000 units, a lease of at least three minutes and
-- at most five retries.
pub quote_service-IsConfigured :
    (p : Policy) (l : Limits) → quote_service p ≡ ok l → IsConfigured p l
unfolding quote_service
quote_service-IsConfigured p l e =
    let (units, a, e1) = >>=-eq-ok (in_range 200_001 1_400_000 p.compute_unit_limit) _ e in
    let (a0, a1, a2) = in_range-lem 200_001 1_400_000 p.compute_unit_limit a in
    let (slippage, b, e2) = >>=-eq-ok (in_range 1 9_999 p.max_slippage_bps) _ e1 in
    let (b0, b1, b2) = in_range-lem 1 9_999 p.max_slippage_bps b in
    let (amount, c, e3) = >>=-eq-ok (at_least 1 p.max_amount_per_burn) _ e2 in
    let (c0, c1) = at_least-lem 1 p.max_amount_per_burn c in
    let (impact, d, e4) = >>=-eq-ok (in_range 0 10_000 p.max_price_impact_bps) _ e3 in
    let (d0, _, d2) = in_range-lem 0 10_000 p.max_price_impact_bps d in
    let (ttl, f, e5) = >>=-eq-ok (at_least 180_000 p.lease_ttl_ms) _ e4 in
    let (f0, f1) = at_least-lem 180_000 p.lease_ttl_ms f in
    let (limit, g, e6) = >>=-eq-ok (retries p.retry_attempts) _ e5 in
    subst (IsConfigured p) (ok-injective e6) (record {
      units = a0;
      units_low = a1;
      units_high = a2;
      slippage = b0;
      slippage_low = b1;
      slippage_high = b2;
      amount = c0;
      amount_low = c1;
      impact = d0;
      impact_high = d2;
      ttl = ttl;
      lease = f0;
      ttl_low = f1;
      retry = retries-lem p.retry_attempts g;
    })
