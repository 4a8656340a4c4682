-- ===== src/Rates.antt =====
-- `StaticRateFloorPolicy` of quote-service/core.ts: a minimum output from a fixed rate.
use onchainburner.Base.{
  ℕ, zero, suc, ◌+◌, ◌-◌, ◌*◌, ◌/◌, ◌≤◌, ◌<◌, ◌≡◌, ap, ◌∙◌, Option, none, some, List, [], ◌∷◌, ◌==◌,
  if◌then◌else◌, arith,
}
use onchainburner.Base.Int.{ℤ, pos, negsuc}
use onchainburner.Base.Errors.{
  Result, ok, policy, ◌>>=◌, require, require-eq-ok, >>=-eq-ok, ok-injective, no_price_floor,
}
use onchainburner.Chain.{PublicKey}
use mathlib.Core.Option.{some-injective}
use mathlib.Core.Path.{subst, ap₂}
use native.Mathlib.Nat.{lt-div-mul-add, div-lt_iff_lt-mul}

pub record Rate : Type 0 where
  pub numerator : ℤ
  pub denominator : ℤ

-- `this.rates.get(mint)`
abbrev pub rate_of : PublicKey → List (PublicKey × Rate) → Option Rate
rate_of mint [] = none
rate_of mint ((key, rate) ∷ rest) =
    let later = rate_of mint rest in if key == mint then some rate else later

-- A value that is not `<= 0n`.
abbrev pub positive : ℤ → Option ℕ
positive (pos zero) = none
positive (pos (suc n)) = some (suc n)
positive (negsuc n) = none

unfoldable pub required_minimum_output : List (PublicKey × Rate) → ℕ → PublicKey → Result ℕ
required_minimum_output rates input mint = do
  rate ← require (rate_of mint rates) (policy no_price_floor)
  numerator ← require (positive rate.numerator) (policy no_price_floor)
  denominator ← require (positive rate.denominator) (policy no_price_floor)
  ok ((input * numerator + denominator - 1) / denominator)

positive-lem : (z : ℤ) {n : ℕ} → positive z ≡ some n → (z ≡ pos n) × (0 < n)
positive-lem (pos zero) e = cc
positive-lem (pos (suc m)) e = let f = some-injective _ _ e in (ap pos f, omega (arith, f))
positive-lem (negsuc m) e = cc

ceiling_bounds :
    (n d : ℕ) → 0 < d → (n ≤ (n + d - 1) / d * d) × ((o : ℕ) → n ≤ o * d → (n + d - 1) / d ≤ o)
ceiling_bounds n d p =
    let a = n + d - 1 in
    let above : a < a / d * d + d = lt-div-mul-add p in
    (
      omega arith,
      λ o h.
          let room : a < suc o * d = omega arith in
          let below : a / d < suc o = (div-lt_iff_lt-mul p).1 room in omega arith,
    )

-- A minimum that the policy gives is the least amount whose value, at the mint's rate, is no less
-- than the input: the ratio of the input rounded up, for a rate whose two parts are positive.
pub required_minimum_output-least :
    (rates : List (PublicKey × Rate)) (input : ℕ) (mint : PublicKey) (minimum : ℕ)
    → required_minimum_output rates input mint ≡ ok minimum
    → (numerator : ℕ) × (denominator : ℕ) × (rate_of mint rates
        ≡ some (record { numerator = pos numerator; denominator = pos denominator }))
      × (0 < numerator)
      × (0 < denominator)
      × (input * numerator ≤ minimum * denominator)
      × ((other : ℕ) → input * numerator ≤ other * denominator → minimum ≤ other)
unfolding required_minimum_output
required_minimum_output-least rates input mint minimum e =
    let (rate, found, e1) = >>=-eq-ok (require (rate_of mint rates) (policy no_price_floor)) _ e in
    let (n, np, e2) = >>=-eq-ok (require (positive rate.numerator) (policy no_price_floor)) _ e1 in
    let (d, dp, e3) =
      >>=-eq-ok (require (positive rate.denominator) (policy no_price_floor)) _ e2 in
    let (same_n, n0) = positive-lem rate.numerator (require-eq-ok _ _ np) in
    let (same_d, d0) = positive-lem rate.denominator (require-eq-ok _ _ dp) in
    let (enough, least) = ceiling_bounds (input * n) d d0 in
    let at : (input * n + d - 1) / d ≡ minimum = ok-injective e3 in
    (
      n,
      d,
      require-eq-ok _ _ found
          ∙ ap₂ (λ x y. some (record { numerator = x; denominator = y })) same_n same_d,
      n0,
      d0,
      subst (λ (m : ℕ). input * n ≤ m * d) at enough,
      subst (λ (m : ℕ). (other : ℕ) → input * n ≤ other * d → m ≤ other) at least,
    )
