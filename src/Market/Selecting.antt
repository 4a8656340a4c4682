-- ===== src/Market/Selecting.antt =====
-- `selectReference` of quote-service/markets.ts, from its three enumerations on: the rounds that
-- authenticate what is ranked, for the fungible pools and then with the concentrated ones, and
-- `unsupportedDammSelection`.
pub mod Settled
pub mod Chosen
use onchainburner.Base.{
  ℕ, zero, suc, ◌+◌, Bool, true, false, not, ◌&&◌, ◌||◌, Option, none, some, List, [], ◌∷◌, ◌++◌,
  length, take, keep_if, ltb, leb, ◌==◌, if◌then◌else◌,
}
use onchainburner.Base.Errors.{
  Error, Result, ok, err, policy, range_error, discovery, environment, ◌>>=◌,
}
use onchainburner.Chain.{PublicKey}
use onchainburner.Request.{Text}
use onchainburner.Reference.{min_reference_depth_lamports}
use onchainburner.Reference.Resolve.{ResolvedReference}
use onchainburner.Market.{MarketCandidate, rank_candidates, sort, compare_depth_venue_and_pool}

-- `pick.rejected = String(error.message ?? error).slice(0, 200)`, of the error's message; the pick is
-- the candidate of its pool.
pub reject_pool : PublicKey → Text → List MarketCandidate → List MarketCandidate
reject_pool pool message [] = []
reject_pool pool message (c ∷ cs) =
    (if c.pool == pool then record c { rejected = some (take 200 message) } else c)
    ∷ reject_pool pool message cs

-- What the callers act on of a `MarketSelection`.
pub record Selection : Type 0 where
  pub chosen : Option (MarketCandidate × ResolvedReference)
  pub candidates : List MarketCandidate

pub unsupported_damm_selection : List MarketCandidate → Selection
unsupported_damm_selection candidates = record { chosen = none; candidates = candidates }

-- The enumeration of the diagnostics, which may fail.
abbrev pub found_diagnostics : Result (List MarketCandidate) → List MarketCandidate
found_diagnostics (ok ds) = ds
found_diagnostics (err _) = []

-- `catch (error)` of an enumeration: a failure is thrown on where there are no diagnostics.
abbrev pub or_unsupported :
    (seen diagnostics : List MarketCandidate)
    → Result (List MarketCandidate)
    → (List MarketCandidate → Result Selection)
    → Result Selection
or_unsupported seen ds (ok cs) next = next cs
or_unsupported seen [] (err e) next = err e
or_unsupported seen (d ∷ ds) (err e) next = ok (unsupported_damm_selection (seen ++ d ∷ ds))

-- The rounds of authentication; `resolve` is `resolveReference` of the mint, and `message_of` the
-- message of what it throws for a pool, of which an `Error` has only the kind and the code.
module _ (resolve : PublicKey → Result ResolvedReference)
    (message_of : PublicKey → Error → Text) where
  -- What a round of the loop leads to: the answer about its pick.
  abbrev pub authenticated :
      (List MarketCandidate → Result Selection)
      → List MarketCandidate
      → MarketCandidate
      → Result ResolvedReference
      → Result Selection
  authenticated next cs pick (ok reference) =
      ok (record { chosen = some (pick, reference); candidates = cs })
  authenticated next cs pick (err discovery) = err discovery
  authenticated next cs pick (err (policy c)) =
      next (reject_pool pick.pool (message_of pick.pool (policy c)) cs)
  authenticated next cs pick (err range_error) =
      next (reject_pool pick.pool (message_of pick.pool range_error) cs)
  authenticated next cs pick (err environment) =
      next (reject_pool pick.pool (message_of pick.pool environment) cs)

  abbrev pub picked :
      (List MarketCandidate → Result Selection)
      → List MarketCandidate
      → Option MarketCandidate
      → Result Selection
  picked next cs none = ok (record { chosen = none; candidates = cs })
  picked next cs (some pick) = authenticated next cs pick (resolve pick.pool)

  -- The loop of either phase, at most `rounds` rounds: what it returns, or nothing chosen where it
  -- picks nothing or the rounds run out.
  pub authenticate : (rounds : ℕ) → List MarketCandidate → Result Selection
  authenticate zero cs = ok (record { chosen = none; candidates = cs })
  authenticate (suc rounds) cs = picked (λ ds. authenticate rounds ds) cs (rank_candidates cs)

  -- What the second loop returns: where it chooses nothing, the diagnostics are shown, if any.
  abbrev pub diagnosed :
      (diagnostics : List MarketCandidate)
      → Selection
      → Option (MarketCandidate × ResolvedReference)
      → Selection
  diagnosed ds s (some c) = s
  diagnosed [] s none = s
  diagnosed (d ∷ ds) s none = unsupported_damm_selection (s.candidates ++ d ∷ ds)

  -- The second phase, where the first has chosen nothing; `concentrated` is what is enumerated for it.
  abbrev pub second_phase :
      (diagnostics : List MarketCandidate)
      → Result (List MarketCandidate)
      → Selection
      → Option (MarketCandidate × ResolvedReference)
      → Result Selection
  second_phase ds concentrated amm (some c) = ok amm
  second_phase ds concentrated amm none = or_unsupported amm.candidates ds concentrated (λ found.
      authenticate (suc (length (sort compare_depth_venue_and_pool (amm.candidates ++ found))))
        (sort compare_depth_venue_and_pool (amm.candidates ++ found))
      >>= λ s. ok (diagnosed ds s s.chosen))

  -- `selectReference`, from the three enumerations on.
  pub select_market :
      (diagnostics amm concentrated : Result (List MarketCandidate)) → Result Selection
  select_market diagnostics amm concentrated =
      let ds = found_diagnostics diagnostics in
      or_unsupported [] ds amm (λ cs. authenticate (suc (length cs)) cs >>= λ first.
      second_phase ds concentrated first first.chosen)

-- What a test unfolds.
unfoldable pub selecting : Unit {0}
unfolding select_market unsupported_damm_selection authenticate reject_pool
selecting = tt
