-- ===== src/Reference/Floors.antt =====
-- When a reference gives a floor, and how large it is.
use onchainburner.Base.{
  ℕ, zero, suc, ◌+◌, ◌-◌, ◌*◌, ◌/◌, ◌≤◌, ◌<◌, ◌≡◌, refl, ap, ◌∙◌, true, false, ◌&&◌, ◌||◌, ◌↔◌, ltb,
  ◌==◌, lt→ltb, le→ltb_false, arith,
}
use native.Mathlib.Nat.{
  le_trans, mul-le-mul_right, div-mul-le_self, div-le_of_le-mul, le-div_iff_mul-le,
}
use onchainburner.Base.Int.{ℤ, pos, negsuc}
use onchainburner.Base.Errors.{
  ok, err, policy, reject_if, >>=-eq-ok, reject_if-eq-ok, ok-injective, reference_cap_exceeded,
  reference_too_shallow,
}
use onchainburner.Reference.{
  reference_tolerance_bps, min_reference_depth_lamports, checked_div, FeeRatio, Pricing, cp, curve,
  FloorState, input_after_fee, positive_net, expected_output, floor_for,
}

-- What a floor `f` for an input stands for.
pub record IsFloor (s : FloorState) (cap amount f : ℕ) : Type 0 where
  pub net : ℕ
  pub expected : ℕ
  pub within : amount ≤ cap
  pub deep : s.depth_gated ≡ true → min_reference_depth_lamports ≤ s.reserve_sol
  pub after_fee : input_after_fee amount s.fee ≡ pos net
  pub net_pos : 0 < net
  pub priced : expected_output s.pricing s.reserve_token s.reserve_sol net ≡ ok expected
  pub tolerance : f ≡ expected * 9_900 / 10_000
  pub positive : 0 < f

positive_net-eq-ok : (z : ℤ) {n : ℕ} → positive_net z ≡ ok n → (z ≡ pos n) × (0 < n)
positive_net-eq-ok (pos zero) e = cc
positive_net-eq-ok (pos (suc n)) e = (ap pos (ok-injective e), omega (arith, ok-injective e))
positive_net-eq-ok (negsuc n) e = cc

floor_for_sound :
    (s : FloorState) (cap amount : ℕ) {f : ℕ}
    → floor_for s cap amount ≡ ok f
    → IsFloor s cap amount f
unfolding floor_for
floor_for_sound s cap amount e =
    let (_, r1, e1) = >>=-eq-ok (reject_if (ltb cap amount) reference_cap_exceeded) _ e in
    let shallow = s.depth_gated && ltb s.reserve_sol min_reference_depth_lamports in
    let (_, r2, e2) = >>=-eq-ok (reject_if shallow reference_too_shallow) _ e1 in
    let (net, n, e3) = >>=-eq-ok (positive_net (input_after_fee amount s.fee)) _ e2 in
    let (expected, x, e4) =
      >>=-eq-ok (expected_output s.pricing s.reserve_token s.reserve_sol net) _ e3 in
    let floor = expected * (10_000 - reference_tolerance_bps) / 10_000 in
    let (_, r5, e5) = >>=-eq-ok (reject_if (expected == 0 || floor == 0) _) _ e4 in
    let (after, net_pos) = positive_net-eq-ok (input_after_fee amount s.fee) n in
    record {
      net = net;
      expected = expected;
      within = ground (arith, reject_if-eq-ok _ _ r1);
      deep = ground (arith, reject_if-eq-ok _ _ r2);
      after_fee = after;
      net_pos = net_pos;
      priced = x;
      tolerance = ground (arith, ok-injective e5);
      positive = ground (arith, ok-injective e5, reject_if-eq-ok _ _ r5);
    }

floor_for_complete :
    (s : FloorState) (cap amount : ℕ) {f : ℕ}
    → IsFloor s cap amount f
    → floor_for s cap amount ≡ ok f
unfolding floor_for
floor_for_complete s cap amount v =
    rw (within, deep, v.after_fee) (ground (arith, v.priced, v.net_pos, v.tolerance, v.positive))
  where
    within : ltb cap amount ≡ false
    within = ground (arith, v.within)

    deep : (s.depth_gated && ltb s.reserve_sol min_reference_depth_lamports) ≡ false
    deep = ground (arith, v.deep)

-- A floor is given exactly for an input within the cap, on a reference that is deep enough where
-- the depth is gated, whose net is positive; it is the expected output less the tolerance of 1%,
-- rounded down, and positive.
pub floor_for_iff :
    (s : FloorState) (cap amount f : ℕ) → (floor_for s cap amount ≡ ok f) ↔ IsFloor s cap amount f
floor_for_iff s cap amount f = (floor_for_sound s cap amount, floor_for_complete s cap amount)

-- The refusals, in the program's order: above the cap it is the cap, even on a shallow reference;
-- within the cap, on a gated reference below 50 SOL, it is the depth.
pub floor_for_refusals :
    (s : FloorState) (cap amount : ℕ)
    → (cap < amount → floor_for s cap amount ≡ err (policy reference_cap_exceeded))
      × (amount ≤ cap
          → s.depth_gated ≡ true
          → s.reserve_sol < min_reference_depth_lamports
          → floor_for s cap amount ≡ err (policy reference_too_shallow))
unfolding floor_for
floor_for_refusals s cap amount = (
  λ over. rw (lt→ltb cap amount over) refl,
  λ within gated shallow.
      rw (le→ltb_false cap amount within, gated, lt→ltb _ min_reference_depth_lamports shallow)
        refl,
)

-- Pricing by reserves: the constant product.
abbrev pub ByReserves : Pricing → Type 0
ByReserves cp = Unit
ByReserves curve = Unit
ByReserves _ = ⊥

priced-ByReserves :
    (p : Pricing) (token sol net : ℕ) {e : ℕ}
    → ByReserves p
    → 0 < net
    → expected_output p token sol net ≡ ok e
    → e ≡ token * net / (sol + net)
unfolding expected_output checked_div
priced-ByReserves cp token sol net b h x = ground arith
priced-ByReserves curve token sol net b h x = ground arith
priced-ByReserves _ token sol net b h x = absurd b

output_bounds :
    (token sol net : ℕ)
    → 0 < net
    → (token * net / (sol + net) * (sol + net) ≤ token * net) × (token * net / (sol + net) ≤ token)
output_bounds token sol net h =
    (div-mul-le_self (token * net) (sol + net), div-le_of_le-mul (sol + net) (omega arith))

output_mono : (token sol n m : ℕ) → 0 < n → n ≤ m → token * n / (sol + n) ≤ token * m / (sol + m)
output_mono token sol n m h le =
    let e = token * n / (sol + n) in
    let (product, below) = output_bounds token sol n h in
    let d = token - e in
    let split : token ≡ e + d = omega arith in
    let scaled : d * n ≤ d * m = grind arith in
    let at_n : token * n ≡ e * n + d * n = ap (λ (t : ℕ). t * n) split ∙ omega arith in
    let at_m : token * m ≡ e * m + d * m = ap (λ (t : ℕ). t * m) split ∙ omega arith in
    (le-div_iff_mul-le (omega arith)).1 (omega arith)

div_mono : (k : ℕ) {x y : ℕ} → 0 < k → x ≤ y → x / k ≤ y / k
div_mono k {x} {y} h le = (le-div_iff_mul-le h).1 (le_trans (div-mul-le_self x k) le)

-- The fee leaves more of more.
input_after_fee_mono :
    (fee : FeeRatio) (a b : ℕ) {n m : ℕ}
    → 0 < fee.den
    → a ≤ b
    → 0 < n
    → input_after_fee a fee ≡ pos n
    → input_after_fee b fee ≡ pos m
    → n ≤ m
unfolding input_after_fee
input_after_fee_mono fee a b den le net x y = ground (
  arith,
  div_mono (fee.den + fee.num) (omega arith) (mul-le-mul_right fee.den le),
  div_mono fee.den den (mul-le-mul_right (fee.den - fee.num) le),
)

-- On a curve or a constant-product pool, a swap of the net input that gives out no more than the
-- floor leaves the product of the reserves at least as large; and the floor is below the reserve.
pub floor_for_swap :
    (s : FloorState) (cap amount f : ℕ)
    → ByReserves s.pricing
    → floor_for s cap amount ≡ ok f
    → (net : ℕ) × (input_after_fee amount s.fee ≡ pos net)
      × (f < s.reserve_token)
      × (s.reserve_sol * s.reserve_token ≤ (s.reserve_sol + net) * (s.reserve_token - f))
floor_for_swap s cap amount f kind e =
    let v = floor_for_sound s cap amount e in
    let same =
      priced-ByReserves s.pricing s.reserve_token s.reserve_sol v.net kind v.net_pos v.priced in
    let (product, below) = output_bounds s.reserve_token s.reserve_sol v.net v.net_pos in
    let under : f < v.expected = omega (arith, v.tolerance, v.positive) in
    let out_le : v.expected ≤ s.reserve_token = rw same below in
    let out_product : v.expected * (s.reserve_sol + v.net) ≤ s.reserve_token * v.net =
      rw same product in
    let f_product : f * (s.reserve_sol + v.net) ≤ s.reserve_token * v.net =
      le_trans (mul-le-mul_right (s.reserve_sol + v.net) (omega arith)) out_product in
    let rest = s.reserve_token - f in
    let split : s.reserve_token ≡ f + rest = omega arith in
    let scaled : (s.reserve_sol + v.net) * s.reserve_token
        ≡ (s.reserve_sol + v.net) * f + (s.reserve_sol + v.net) * rest =
      ap (λ (t : ℕ). (s.reserve_sol + v.net) * t) split ∙ omega arith in
    (v.net, v.after_fee, omega arith, omega arith)

-- There a larger input never has a smaller floor.
pub floor_for_mono :
    (s : FloorState) (cap a b f g : ℕ)
    → ByReserves s.pricing
    → 0 < s.fee.den
    → a ≤ b
    → floor_for s cap a ≡ ok f
    → floor_for s cap b ≡ ok g
    → f ≤ g
floor_for_mono s cap a b f g kind den le e e' =
    let v = floor_for_sound s cap a e in
    let w = floor_for_sound s cap b e' in
    let more = input_after_fee_mono s.fee a b den le v.net_pos v.after_fee w.after_fee in
    let up = output_mono s.reserve_token s.reserve_sol v.net w.net v.net_pos more in
    let same =
      priced-ByReserves s.pricing s.reserve_token s.reserve_sol v.net kind v.net_pos v.priced in
    let same' =
      priced-ByReserves s.pricing s.reserve_token s.reserve_sol w.net kind w.net_pos w.priced in
    omega (arith, same, same', v.tolerance, w.tolerance)
