-- ===== src/Tests/Prices.antt =====
-- A coin on Pump's curve, its floor, and its vault before and after it graduates.
use onchainburner.Base.{
  ℕ, ◌+◌, ◌*◌, ◌-◌, ◌≤◌, ◌<◌, ◌≡◌, ◌↔◌, ◌⊎◌, refl, sym, ap, ◌∙◌, true, false, none, some, Bytes, [],
  ◌∷◌, ◌++◌, length, ◌==◌, if◌then◌else◌, map, le_bytes, le_value, arith,
}
use onchainburner.Base.Int.{pos}
use onchainburner.Base.Errors.{ok, err, policy, reference_cap_exceeded, ok-injective}
use onchainburner.Chain.{
  PublicKey, Web3, Account, burner_program, pump_fun_program, pump_amm_program, pump_fee_program,
  token_program,
}
use onchainburner.Reference.Rounds.{price_loop_power}
use onchainburner.Base.{◌^◌}
use onchainburner.Reference.{price_loop, power_q64, one_q64}
use onchainburner.Reference.{
  FloorState, curve, floor_for, input_after_fee, min_reference_depth_lamports, pricing_steps,
}
use onchainburner.Reference.Floors.{IsFloor, floor_for_iff, floor_for_swap, floor_for_mono}
use onchainburner.Reference.Venues.{Reader, Venue, pump_swap, zeroes, venue_reads}
use onchainburner.Reference.PumpFees.{fallback_fee, fee_reads}
use onchainburner.Reference.Resolve.{
  ResolvedReference, pool_account, canonical_pump_swap_pool, resolve_reference, resolving,
}
use onchainburner.Reference.Resolve.Gates.{resolve_reference-gates, resolve_reference-sentinel}
use onchainburner.Vault.{derive_vault, derive_split_pda}
use onchainburner.Vault.Migration.{Quoted, at_pump, seeded, derive_split_pda-derive_vault}

abbrev pub web3 : Web3
web3 = record {
  public_key = le_value;
  to_buffer = λ key. le_bytes 32 key;
  find_program_address = λ seeds program. program + length seeds;
  associated_token_address = λ mint owner program. mint + owner + program;
}

abbrev account_of : PublicKey → Bytes → Account
account_of owner content = record { owner = owner; content = content; lamports = none }

-- 10^12 atoms against 30 SOL.
abbrev curve_content : Bytes
curve_content =
    zeroes 8 ++ (le_bytes 8 1_000_000_000_000 ++ (le_bytes 8 30_000_000_000 ++ zeroes 58))

-- The coin 5 on the curve, with an account at the address of its pool.
abbrev pub chain : Reader
chain key =
    if key == pump_fun_program + 2
    then ok (some (account_of pump_fun_program curve_content))
    else if key == 5
    then ok (some (account_of token_program (zeroes 82)))
    else if key == pump_amm_program + 5
    then ok (some (account_of pump_amm_program (zeroes 211)))
    else ok none

abbrev pub curve_state : FloorState
curve_state = record {
  pricing = curve;
  fee = fallback_fee;
  reserve_token = 1_000_000_000_000;
  reserve_sol = 30_000_000_000;
  depth_gated = false;
}

curve_floor : floor_for curve_state 3_000_000 1_000_000 ≡ ok 32_995_566
unfolding pricing_steps
curve_floor = refl

curve_floor_above : floor_for curve_state 3_000_000 2_000_000 ≡ ok 65_988_967
unfolding pricing_steps
curve_floor_above = refl

over_the_cap : floor_for curve_state 3_000_000 3_000_001 ≡ err (policy reference_cap_exceeded)
unfolding pricing_steps
over_the_cap = refl

floor_for_swap_example :
    (net : ℕ) × (input_after_fee 1_000_000 fallback_fee ≡ pos net)
    × (32_995_566 < 1_000_000_000_000)
    × (30_000_000_000 * 1_000_000_000_000
        ≤ (30_000_000_000 + net) * (1_000_000_000_000 - 32_995_566))
floor_for_swap_example = floor_for_swap curve_state 3_000_000 1_000_000 32_995_566 tt curve_floor

floor_for_mono_example : 32_995_566 ≤ 65_988_967
floor_for_mono_example =
    floor_for_mono curve_state 3_000_000 1_000_000 2_000_000 32_995_566 65_988_967 tt (omega arith)
      (omega arith) curve_floor curve_floor_above

abbrev pub resolved_curve : ResolvedReference
resolved_curve = record {
  pool = pump_fun_program + 2;
  vault_a = pump_fun_program + 2;
  vault_b = pump_fun_program + 2;
  fee_source = pump_fee_program + 2;
  seed = zeroes 32;
  depth_lamports = 30_000_000_000;
  direct_curve = true;
  cap_lamports = 3_000_000;
  floor_for = floor_for curve_state 3_000_000;
}

curve_resolved : resolve_reference web3 chain 5 none ≡ ok resolved_curve
unfolding resolving pricing_steps venue_reads fee_reads le_bytes le_value
curve_resolved = refl

resolve_reference-gates_example :
    (1_000_000 ≤ resolved_curve.cap_lamports)
    × ((resolved_curve.seed ≡ zeroes 32)
        ⊎ (min_reference_depth_lamports ≤ resolved_curve.depth_lamports))
resolve_reference-gates_example =
    resolve_reference-gates web3 chain 5 none resolved_curve curve_resolved 1_000_000 32_995_566
      curve_floor

pool_read :
    pool_account web3 chain (canonical_pump_swap_pool web3 chain 5)
    ≡ ok (account_of pump_amm_program (zeroes 211), pump_swap)
unfolding resolving le_bytes
pool_read = refl

pool-pump_swap :
    (account : Account) (venue : Venue)
    → pool_account web3 chain (canonical_pump_swap_pool web3 chain 5) ≡ ok (account, venue)
    → venue ≡ pump_swap
pool-pump_swap account venue e =
    ap (λ (p : Account × Venue). p.1) (ok-injective (sym e ∙ pool_read))

resolve_reference-sentinel_example : resolved_curve.seed ≡ zeroes 32
resolve_reference-sentinel_example =
    resolve_reference-sentinel web3 chain 5 resolved_curve pool-pump_swap curve_resolved

abbrev quoted : Quoted
quoted = record { leg = record { mint = 5; bps = 10_000; ref = none }; resolved = resolved_curve }

derive_split_pda-derive_vault_example :
    derive_split_pda web3 8 (map (λ (q : Quoted). q.leg) (quoted ∷ []))
    ≡ derive_vault web3 burner_program 8 (map seeded (quoted ∷ []))
derive_split_pda-derive_vault_example =
    derive_split_pda-derive_vault web3 chain 8 (quoted ∷ [])
      (record { venued = at_pump pool-pump_swap; resolves = curve_resolved }, tt)

floor_for_iff_example :
    (floor_for curve_state 3_000_000 1_000_000 ≡ ok 32_995_566)
    ↔ IsFloor curve_state 3_000_000 1_000_000 32_995_566
floor_for_iff_example = floor_for_iff curve_state 3_000_000 1_000_000 32_995_566

price_loop_power_example :
    (price_loop 9 (3 * one_q64) 5 (2 * one_q64) ≡ 2 * 3 ^ 5 * one_q64)
    × ((b r : ℕ) → price_loop 9 b 5 r * one_q64 ^ 5 ≤ r * b ^ 5)
    × ((b r : ℕ) → price_loop 9 b 5 r ≡ price_loop 5 b 5 r)
    × ((step : ℕ) → power_q64 step 5 * 10_000 ^ 5 ≤ one_q64 * (10_000 + step) ^ 5)
price_loop_power_example = price_loop_power 9 5 3 2 (omega arith)
