-- ===== src/Reference/PoolState.antt =====
-- The parts of `resolvePool` (quote-service/reference.ts) that read a venue's fee and price.
use onchainburner.Reference.PumpFees.{pump_fee_config}
use onchainburner.Reference.Venues.{
  Reader, Venue, raydium_v4, raydium_cp, pump_swap, raydium_clmm, meteora_dlmm, invalid_if, uint,
  int32, slice, zeroes, read_pk, readable_mint,
}
use onchainburner.Base.{
  ℕ, ◌+◌, ◌*◌, ◌/◌, ◌^◌, true, false, not, ◌||◌, Bytes, [], ◌∷◌, length, list_eq, ltb, ◌==◌,
}
use onchainburner.Base.Errors.{Result, ok, policy, ◌>>=◌, ◌>>◌, require, reference_invalid}
use onchainburner.Chain.{PublicKey, Web3, Account, wsol_mint, pump_amm_program}
use onchainburner.Reference.{FeeRatio, Pricing, cp, clmm, dlmm}

-- What `resolvePool` knows of the pool when it reads the fee.
pub record PoolView : Type 0 where
  pub pool : PublicKey
  pub owner : PublicKey
  pub content : Bytes
  pub target_mint : PublicKey
  pub token_amount : ℕ
  pub sol_amount : ℕ

-- The fee, its source, and the depth, which PumpSwap's virtual quote adds to.
pub record PoolFee : Type 0 where
  pub fee : FeeRatio
  pub source : PublicKey
  pub depth : ℕ

module _ (w : Web3) (reader : Reader) where
  -- An `amm_config` account of the pool's own program.
  amm_config : PublicKey → PublicKey → ℕ → Result Account
  amm_config owner source least = do
    found ← reader source
    config ← require found (policy reference_invalid)
    invalid_if (not (config.owner == owner) || ltb (length config.content) least)
    ok config

  -- The branches of `resolvePool` that read the fee.
  pub pool_fee : Venue → PoolView → Result PoolFee
  pool_fee raydium_v4 p = do
    invalid_if (ltb (length p.content) 160)
    num ← uint 8 p.content 144
    den ← uint 8 p.content 152
    ok (record {
      fee = record { num = num; den = den; pump = false };
      source = p.pool;
      depth = p.sol_amount;
    })
  pool_fee raydium_cp p = do
    let source = read_pk w reader p.content 8
    config ← amm_config p.owner source 20
    num ← uint 8 config.content 12
    ok (record {
      fee = record { num = num; den = 1_000_000; pump = false };
      source = source;
      depth = p.sol_amount;
    })
  pool_fee raydium_clmm p = do
    let source = read_pk w reader p.content 9
    config ← amm_config p.owner source 51
    invalid_if (
        not (list_eq (slice config.content 0 8) (218 ∷ 244 ∷ 33 ∷ 104 ∷ 203 ∷ 203 ∷ 43 ∷ 111 ∷ [])))
    num ← uint 4 config.content 47
    ok (record {
      fee = record { num = num; den = 1_000_000; pump = false };
      source = source;
      depth = p.sol_amount;
    })
  pool_fee meteora_dlmm p = do
    invalid_if (ltb (length p.content) 35)
    base_factor ← uint 2 p.content 8
    power ← uint 1 p.content 34
    bin_step ← uint 2 p.content 80
    ok (record {
      fee = record {
        num = base_factor * bin_step * 10 * 10 ^ power;
        den = 1_000_000_000;
        pump = false;
      };
      source = p.pool;
      depth = p.sol_amount;
    })
  pool_fee pump_swap p = do
    invalid_if (ltb (length p.content) 261)
    virtual_quote ← uint 16 p.content 245
    invalid_if (not (ltb virtual_quote (2 ^ 127)))
    let depth = p.sol_amount + virtual_quote
    mint_account ← readable_mint w reader p.target_mint
    supply ← uint 8 mint_account.content 36
    let market_cap = depth * supply / p.token_amount
    let creator_set = not (list_eq (slice p.content 211 243) (zeroes 32))
    (fee, source) ← pump_fee_config w reader pump_amm_program market_cap true creator_set
    ok (record { fee = fee; source = source; depth = depth })

  -- The branches that read the price.
  pub pool_pricing : Venue → Bytes → Result Pricing
  pool_pricing raydium_clmm content = do
    invalid_if (ltb (length content) (253 + 16))
    sq ← uint 16 content 253
    invalid_if (sq == 0)
    ok (clmm sq (read_pk w reader content 73 == wsol_mint))
  pool_pricing meteora_dlmm content = do
    active_id ← uint 4 content 76
    bin_step ← uint 2 content 80
    invalid_if (bin_step == 0)
    ok (dlmm bin_step (int32 active_id) (read_pk w reader content 88 == wsol_mint))
  pool_pricing raydium_v4 content = ok cp
  pool_pricing raydium_cp content = ok cp
  pool_pricing pump_swap content = ok cp

-- What a test unfolds.
unfoldable pub pool_reads : Unit {0}
unfolding amm_config pool_fee pool_pricing
pool_reads = tt
