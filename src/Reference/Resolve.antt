-- ===== src/Reference/Resolve.antt =====
-- `resolveReference` of quote-service/reference.ts and what it calls.
pub mod Binding
pub mod Gates
use onchainburner.Reference.PoolState.{PoolView, PoolFee, pool_fee, pool_pricing}
use onchainburner.Reference.PumpFees.{pump_fee_config}
use onchainburner.Reference.Venues.{
  Reader, Venue, raydium_v4, raydium_cp, pump_swap, raydium_clmm, meteora_dlmm, venue_of,
  vault_offset_a, vault_offset_b, is_cp, invalid, invalid_if, uint, int32, slice, byte_is, zeroes,
  read_pk, pump_curve, readable_mint,
}
use onchainburner.Base.{
  ℕ, zero, suc, ◌+◌, ◌-◌, ◌*◌, ◌/◌, ◌^◌, Bool, true, false, not, ◌&&◌, ◌||◌, Option, none, some,
  Bytes, codes, List, [], ◌∷◌, length, take, drop, get_elem?, find, list_eq, ltb, ◌==◌,
  if◌then◌else◌, read_le,
}
use onchainburner.Base.Int.{ℤ, pos, negsuc}
use onchainburner.Base.Errors.{
  Result, ok, err, policy, range_error, ◌>>=◌, ◌>>◌, reject_if, require, reference_invalid,
  reference_migrating,
}
use onchainburner.Chain.{
  PublicKey, Web3, Account, wsol_mint, token_program, token_2022_program, pump_fun_program,
  pump_amm_program, pump_fee_program, raydium_v4_program, raydium_cp_program, raydium_clmm_program,
  meteora_dlmm_program,
}
use onchainburner.Reference.{FeeRatio, Pricing, cp, curve, clmm, dlmm, FloorState, make_floor}

abbrev pub is_pump_swap : Venue → Bool
is_pump_swap pump_swap = true
is_pump_swap raydium_v4 = false
is_pump_swap raydium_cp = false
is_pump_swap raydium_clmm = false
is_pump_swap meteora_dlmm = false

-- `ResolvedReference`, without `feeBps`, which is for display. Of its `venue` it keeps whether it is
-- `DIRECT_CURVE_VENUE`.
pub record ResolvedReference : Type 0 where
  pub direct_curve : Bool
  pub pool : PublicKey
  pub vault_a : PublicKey
  pub vault_b : PublicKey
  pub fee_source : PublicKey
  pub seed : Bytes
  pub depth_lamports : ℕ
  pub cap_lamports : ℕ
  pub floor_for : ℕ → Result ℕ

-- The vaults of a pool as `resolvePool` reads them.
pub record VaultView : Type 0 where
  pub key : PublicKey
  pub owner : PublicKey
  pub mint : PublicKey
  pub authority : Bytes
  pub amount : ℕ

module _ (w : Web3) (reader : Reader) where
  pub resolve_curve : PublicKey → Result ResolvedReference
  resolve_curve mint = do
    let address = pump_curve w reader mint
    found ← reader address
    account ← require found (policy reference_invalid)
    let content = account.content
    invalid_if (not (account.owner == pump_fun_program) || ltb (length content) 82)
    invalid_if (byte_is content 48 1)
    reserve_token ← uint 8 content 8
    reserve_sol ← uint 8 content 16
    invalid_if (reserve_token == 0 || reserve_sol == 0)
    mint_account ← readable_mint w reader mint
    supply ←
        if byte_is content 81 0 then ok 1_000_000_000_000_000 else uint 8 mint_account.content 36
    let market_cap = reserve_sol * supply / reserve_token
    let creator_set = not (list_eq (slice content 49 81) (zeroes 32))
    (fee, source) ← pump_fee_config w reader pump_fun_program market_cap false creator_set
    (cap, floor) ← make_floor (record {
      pricing = curve;
      fee = fee;
      reserve_token = reserve_token;
      reserve_sol = reserve_sol;
      depth_gated = false;
    })
    ok (record {
      direct_curve = true;
      pool = address;
      vault_a = address;
      vault_b = address;
      fee_source = source;
      seed = zeroes 32;
      depth_lamports = reserve_sol;
      cap_lamports = cap;
      floor_for = floor;
    })

  vault_view : PublicKey → Account → Result VaultView
  vault_view key account = do
    amount ← uint 8 account.content 64
    ok (record {
      key = key;
      owner = account.owner;
      mint = read_pk w reader account.content 0;
      authority = slice account.content 32 64;
      amount = amount;
    })

  abbrev pub is_token_account : VaultView → Bool
  is_token_account v = v.owner == token_program || v.owner == token_2022_program

  -- The first part of `resolvePool`: the account and its venue.
  pub pool_account : PublicKey → Result (Account × Venue)
  pool_account pool = do
    found ← reader pool
    account ← require found (policy reference_invalid)
    venue ← require (venue_of account.owner) (policy reference_invalid)
    invalid_if (
        ltb (length account.content) (vault_offset_a venue + 32)
        || ltb (length account.content) (vault_offset_b venue + 32))
    ok (account, venue)

  -- The second part: the vaults of the target and of wrapped SOL.
  pub pool_vaults : PublicKey → Account → Venue → Result (VaultView × VaultView)
  pool_vaults mint account venue = do
    let key_a = read_pk w reader account.content (vault_offset_a venue)
    let key_b = read_pk w reader account.content (vault_offset_b venue)
    found_a ← reader key_a
    found_b ← reader key_b
    info_a ← require found_a (policy reference_invalid)
    info_b ← require found_b (policy reference_invalid)
    a ← vault_view key_a info_a
    b ← vault_view key_b info_b
    invalid_if (not (is_token_account a && is_token_account b))
    token ← require (find (λ v. v.mint == mint) (a ∷ b ∷ [])) (policy reference_invalid)
    sol ← require (find (λ v. v.mint == wsol_mint) (a ∷ b ∷ [])) (policy reference_invalid)
    invalid_if (token.amount == 0 || sol.amount == 0)
    invalid_if (is_cp venue && not (list_eq token.authority sol.authority))
    ok (token, sol)

  abbrev pub pool_state : Venue → FeeRatio → Pricing → ℕ → ℕ → FloorState
  pool_state venue fee pricing token depth = record {
    pricing = pricing;
    fee = fee;
    reserve_token = token;
    reserve_sol = depth;
    depth_gated = not (is_pump_swap venue);
  }

  pub resolve_pool : PublicKey → PublicKey → Result ResolvedReference
  resolve_pool mint pool = do
    (account, venue) ← pool_account pool
    (token, sol) ← pool_vaults mint account venue
    fee ← pool_fee w reader venue (record {
      pool = pool;
      owner = account.owner;
      content = account.content;
      target_mint = mint;
      token_amount = token.amount;
      sol_amount = sol.amount;
    })
    invalid_if (fee.fee.num == 0 || fee.fee.den == 0 || not (ltb fee.fee.num fee.fee.den))
    pricing ← pool_pricing w reader venue account.content
    (cap, floor) ← make_floor (pool_state venue fee.fee pricing token.amount fee.depth)
    ok (record {
      direct_curve = false;
      pool = pool;
      vault_a = token.key;
      vault_b = sol.key;
      fee_source = fee.source;
      seed = if is_pump_swap venue then zeroes 32 else w.to_buffer pool;
      depth_lamports = fee.depth;
      cap_lamports = cap;
      floor_for = floor;
    })

  pub canonical_pump_swap_pool : PublicKey → PublicKey
  canonical_pump_swap_pool mint =
      let authority =
        w.find_program_address (codes "pool-authority" ∷ w.to_buffer mint ∷ []) pump_fun_program in
      w.find_program_address
        (codes "pool"
          ∷ zeroes 2
          ∷ w.to_buffer authority
          ∷ w.to_buffer mint
          ∷ w.to_buffer wsol_mint
          ∷ [])
        pump_amm_program

  -- The curve account is there, is Pump's, and says that the coin has graduated.
  abbrev pub is_graduated : Option Account → Bool
  is_graduated none = false
  is_graduated (some account) =
      account.owner == pump_fun_program
      && not (ltb (length account.content) 82)
      && byte_is account.content 48 1

  pub resolve_pump_venue : PublicKey → Result ResolvedReference
  resolve_pump_venue mint = do
    found ← reader (pump_curve w reader mint)
    let pool = canonical_pump_swap_pool mint
    let migrated = do
      there ← reader pool
      _ ← require there (policy reference_migrating)
      resolve_pool mint pool
    if is_graduated found then migrated else resolve_curve mint

  unfoldable pub resolve_reference : PublicKey → Option PublicKey → Result ResolvedReference
  resolve_reference mint none = resolve_pump_venue mint
  resolve_reference mint (some reference) = do
    found ← reader reference
    account ← require found (policy reference_invalid)
    let from_curve = do
      resolved ← resolve_curve mint
      invalid_if (not (resolved.pool == reference))
      ok resolved
    if account.owner == pump_fun_program then from_curve else resolve_pool mint reference

-- What a test unfolds.
unfoldable pub resolving : Unit {0}
unfolding resolve_reference resolve_pump_venue canonical_pump_swap_pool resolve_pool pool_vaults
    pool_account vault_view resolve_curve
resolving = tt
