-- ===== src/Reference/PumpFees.antt =====
-- `pumpFeeConfig` of quote-service/reference.ts.
use onchainburner.Reference.Venues.{Reader, uint}
use onchainburner.Base.{
  ℕ, zero, suc, ◌+◌, ◌*◌, Bool, true, not, ◌&&◌, none, some, Bytes, codes, [], ◌∷◌, length, ltb,
  ◌==◌, if◌then◌else◌,
}
use onchainburner.Base.Errors.{Result, ok, err, ◌>>=◌}
use onchainburner.Chain.{PublicKey, Web3, pump_fee_program}
use onchainburner.Reference.{FeeRatio}

abbrev pub fallback_fee : FeeRatio
fallback_fee = record { num = 1; den = 10_000; pump = true }

pub record Tier : Type 0 where
  pub lp : ℕ
  pub protocol : ℕ
  pub creator : ℕ

-- The loop over the tiers, from `index` on: the last tier at or below the market cap.
pub tier_loop : ℕ → Bytes → ℕ → ℕ → Tier → Result Tier
tier_loop zero content index market_cap tier = ok tier
tier_loop (suc left) content index market_cap tier = do
  let offset = 69 + 40 * index
  threshold ← uint 16 content offset
  let later = do
    lp ← uint 8 content (offset + 16)
    protocol ← uint 8 content (offset + 24)
    creator ← uint 8 content (offset + 32)
    tier_loop left content (index + 1) market_cap
        (record { lp = lp; protocol = protocol; creator = creator })
  if ltb market_cap threshold then ok tier else later

-- The body of the `try` of `pumpFeeConfig`; a thrown error falls back, as in the `catch`.
pub parse_fee_config : Bytes → ℕ → Bool → Bool → Result FeeRatio
parse_fee_config content market_cap include_lp include_creator =
    if ltb (length content) 69 then ok fallback_fee else do
      count ← uint 4 content 65
      let read = do
        lp ← uint 8 content 41
        protocol ← uint 8 content 49
        creator ← uint 8 content 57
        tier ←
            tier_loop count content 0 market_cap
              (record { lp = lp; protocol = protocol; creator = creator })
        let total =
            (if include_lp then tier.lp else 0)
            + tier.protocol
            + (if include_creator then tier.creator else 0)
        ok (
            if ltb 0 total && not (ltb 1_000 total)
            then record { num = total; den = 10_000; pump = true }
            else fallback_fee)
      if ltb (length content) (69 + count * 40) then ok fallback_fee else read

abbrev pub or_fallback : Result FeeRatio → FeeRatio
or_fallback (ok fee) = fee
or_fallback (err e) = fallback_fee

module _ (w : Web3) (reader : Reader) where
  pub pump_fee_config : PublicKey → ℕ → Bool → Bool → Result (FeeRatio × PublicKey)
  unfolding parse_fee_config
  pump_fee_config venue_program market_cap include_lp include_creator = do
    let source =
        w.find_program_address (codes "fee_config" ∷ w.to_buffer venue_program ∷ [])
          pump_fee_program
    found ← reader source
    elim found [
      | none ↦ ok (fallback_fee, source)
      | some account ↦
          if account.owner == pump_fee_program
          then ok (
            or_fallback (parse_fee_config account.content market_cap include_lp include_creator),
            source,
          )
          else ok (fallback_fee, source)
    ]

-- What a test unfolds.
unfoldable pub fee_reads : Unit {0}
unfolding pump_fee_config parse_fee_config tier_loop
fee_reads = tt
