-- ===== src/Tests/Markets.antt =====
-- Three markets of a coin: the locked ones do not resolve, and a concentrated one is chosen.
use onchainburner.Base.{◌≡◌, refl, true, none, some, [], ◌∷◌, ◌==◌, if◌then◌else◌}
use onchainburner.Base.Errors.{
  Error, Result, ok, err, policy, discovery, environment, reference_invalid,
}
use onchainburner.Chain.{PublicKey}
use onchainburner.Request.{Text}
use onchainburner.Reference.Resolve.{ResolvedReference}
use onchainburner.Market.{
  MarketCandidate, amm_v4, amm_cp, clmm_pool, unranked, rank_candidates, ranking,
}
use onchainburner.Market.Best.{IsBest, rank_candidates-IsBest}
use onchainburner.Market.Selecting.{Selection, select_market, selecting}
use onchainburner.Market.Selecting.Chosen.{IsSelected, select_market-IsSelected}
use onchainburner.Tests.Prices.{resolved_curve}

abbrev locked : MarketCandidate
locked = record {
  pool = 11;
  venue = amm_v4;
  depth_lamports = 80_000_000_000;
  opened_at_unix_seconds = none;
  locked_depth_lamports = some 60_000_000_000;
  meets_depth_floor = true;
  rejected = none;
}

-- As much is locked, and more is there.
abbrev deeper : MarketCandidate
deeper = record locked { pool = 12; venue = amm_cp; depth_lamports = 90_000_000_000 }

abbrev positions : MarketCandidate
positions = record locked {
  pool = 13;
  venue = clmm_pool;
  depth_lamports = 400_000_000_000;
  opened_at_unix_seconds = some 1_700_000_000;
  locked_depth_lamports = none;
}

deeper_picked : rank_candidates (locked ∷ deeper ∷ positions ∷ []) ≡ some deeper
unfolding ranking
deeper_picked = refl

rank_candidates-IsBest_example : IsBest (locked ∷ deeper ∷ positions ∷ []) deeper
rank_candidates-IsBest_example =
    rank_candidates-IsBest (locked ∷ deeper ∷ positions ∷ []) deeper deeper_picked

-- Only the concentrated pool resolves.
abbrev resolve : PublicKey → Result ResolvedReference
resolve pool = if pool == 13 then ok resolved_curve else err (policy reference_invalid)

abbrev message_of : PublicKey → Error → Text
message_of pool e = 109 ∷ 111 ∷ 118 ∷ 101 ∷ 100 ∷ []

-- The other venue that is only detected.
abbrev detected : MarketCandidate
detected = record locked { pool = 14; venue = unranked }

abbrev refused : MarketCandidate → MarketCandidate
refused c = record c { rejected = some (109 ∷ 111 ∷ 118 ∷ 101 ∷ 100 ∷ []) }

abbrev selection : Selection
selection = record {
  chosen = some (positions, resolved_curve);
  candidates = positions ∷ refused deeper ∷ refused locked ∷ [];
}

positions_chosen :
    select_market resolve message_of
      (ok (detected ∷ []))
      (ok (locked ∷ deeper ∷ []))
      (ok (positions ∷ []))
    ≡ ok selection
unfolding selecting ranking
positions_chosen = refl

only_detected :
    select_market resolve message_of (ok (detected ∷ [])) (err discovery) (ok (positions ∷ []))
    ≡ ok (record { chosen = none; candidates = detected ∷ [] })
unfolding selecting ranking
only_detected = refl

none_resolves :
    select_market resolve message_of (ok (detected ∷ [])) (ok (locked ∷ [])) (ok [])
    ≡ ok (record { chosen = none; candidates = refused locked ∷ detected ∷ [] })
unfolding selecting ranking
none_resolves = refl

thrown_on :
    select_market resolve message_of (err environment) (ok (locked ∷ [])) (err discovery)
    ≡ err discovery
unfolding selecting ranking
thrown_on = refl

select_market-IsSelected_example :
    IsSelected resolve message_of
      (ok (detected ∷ []))
      (ok (locked ∷ deeper ∷ []))
      (ok (positions ∷ []))
      selection
select_market-IsSelected_example =
    select_market-IsSelected resolve message_of (ok (detected ∷ [])) (ok (locked ∷ deeper ∷ []))
      (ok (positions ∷ [])) selection positions_chosen
