-- ===== src/Reference.antt =====
-- quote-service/reference.ts: the price floor that the program enforces, computed off chain.
pub mod Venues
pub mod PumpFees
pub mod PoolState
pub mod Resolve
pub mod Floors
pub mod Rounds
use onchainburner.Base.{
  ℕ, zero, suc, ◌+◌, ◌-◌, ◌*◌, ◌/◌, ◌%◌, ◌^◌, Bool, true, false, ◌&&◌, ◌||◌, ltb, leb, ◌==◌,
  if◌then◌else◌,
}
use onchainburner.Base.Int.{ℤ, pos, negsuc, sub_ℕ}
use onchainburner.Base.Errors.{
  Result, ok, err, policy, range_error, ◌>>=◌, ◌>>◌, reject_if, reference_cap_exceeded,
  reference_too_shallow, reference_floor_zero,
}

abbrev pub reference_tolerance_bps : ℕ
reference_tolerance_bps = 100

-- 50 SOL.
abbrev pub min_reference_depth_lamports : ℕ
min_reference_depth_lamports = 50_000_000_000

abbrev pub one_q64 : ℕ
one_q64 = 2 ^ 64

pub record FeeRatio : Type 0 where
  pub num : ℕ
  pub den : ℕ
  pub pump : Bool

-- A `bigint` division, which throws on zero.
unfoldable pub checked_div : ℕ → ℕ → Result ℕ
checked_div a b = if b == 0 then err range_error else ok (a / b)

-- The loop of `dlmmPriceQ64`: square and multiply. The exponent halves, so that as many rounds as
-- the exponent are enough.
pub price_loop : ℕ → ℕ → ℕ → ℕ → ℕ
price_loop zero base exponent result = result
price_loop (suc fuel) base exponent result =
    let next_result = if exponent % 2 == 1 then result * base / one_q64 else result in
    let next_base = if ltb 0 (exponent / 2) then base * base / one_q64 else base in
    let rest = price_loop fuel next_base (exponent / 2) next_result in
    if exponent == 0 then result else rest

-- (1 + bin_step / 10000) ^ n in Q64.64.
pub power_q64 : ℕ → ℕ → ℕ
power_q64 bin_step n = price_loop n (one_q64 * (10_000 + bin_step) / 10_000) n one_q64

-- `dlmmPriceQ64`. The power is never zero, so that the division does not throw.
pub dlmm_price_q64 : ℕ → ℤ → ℕ
dlmm_price_q64 bin_step (pos n) = power_q64 bin_step n
dlmm_price_q64 bin_step (negsuc n) = one_q64 * one_q64 / power_q64 bin_step (suc n)

pub fee_cap : ℕ → FeeRatio → Result ℕ
fee_cap depth fee = checked_div (depth * fee.num) fee.den

-- The caller has computed the cap, so that the denominator is not zero.
pub input_after_fee : ℕ → FeeRatio → ℤ
input_after_fee amount fee =
    if fee.pump
    then sub_ℕ (amount * fee.den / (fee.den + fee.num)) 1
    else if leb fee.num fee.den
    then pos (amount * (fee.den - fee.num) / fee.den)
    else sub_ℕ 0 (amount * (fee.num - fee.den) / fee.den)

-- The `kind` of a reference with the part of `state` that its price is read from.
pub data Pricing : Type 0 where
  cp curve : Pricing
  clmm : (sq : ℕ) (sol_is_0 : Bool) → Pricing
  dlmm : (bin_step : ℕ) (active_id : ℤ) (sol_is_x : Bool) → Pricing

pub record FloorState : Type 0 where
  pub pricing : Pricing
  pub fee : FeeRatio
  pub reserve_token : ℕ
  pub reserve_sol : ℕ
  pub depth_gated : Bool

-- `if (net <= 0n) reject(…)`
abbrev pub positive_net : ℤ → Result ℕ
positive_net (pos zero) = err (policy reference_floor_zero)
positive_net (pos (suc n)) = ok (suc n)
positive_net (negsuc n) = err (policy reference_floor_zero)

pub expected_output : Pricing → (reserve_token reserve_sol net : ℕ) → Result ℕ
expected_output cp token sol net = checked_div (token * net) (sol + net)
expected_output curve token sol net = checked_div (token * net) (sol + net)
expected_output (clmm sq true) token sol net = ok (net * sq / one_q64 * sq / one_q64)
expected_output (clmm sq false) token sol net = do
  first ← checked_div (net * one_q64) sq
  checked_div (first * one_q64) sq
expected_output (dlmm bin_step active_id true) token sol net =
    ok (net * dlmm_price_q64 bin_step active_id / one_q64)
expected_output (dlmm bin_step active_id false) token sol net =
    checked_div (net * one_q64) (dlmm_price_q64 bin_step active_id)

-- The closure `floorFor` of `makeFloor`, for the cap that `makeFloor` has computed.
pub floor_for : FloorState → ℕ → ℕ → Result ℕ
floor_for s cap amount_in = do
  reject_if (ltb cap amount_in) reference_cap_exceeded
  reject_if (s.depth_gated && ltb s.reserve_sol min_reference_depth_lamports) reference_too_shallow
  net ← positive_net (input_after_fee amount_in s.fee)
  expected ← expected_output s.pricing s.reserve_token s.reserve_sol net
  let floor = expected * (10_000 - reference_tolerance_bps) / 10_000
  reject_if (expected == 0 || floor == 0) reference_floor_zero
  ok floor

-- `makeFloor`: the cap, and the floor of an input.
pub make_floor : FloorState → Result (ℕ × (ℕ → Result ℕ))
make_floor s = do cap ← fee_cap s.reserve_sol s.fee; ok (cap, floor_for s cap)

-- What a test unfolds.
unfoldable pub pricing_steps : Unit {0}
unfolding make_floor floor_for expected_output input_after_fee fee_cap dlmm_price_q64 power_q64
    price_loop checked_div
pricing_steps = tt
