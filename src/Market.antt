-- ===== src/Market.antt =====
-- The choice of a reference market, quote-service/markets.ts: `rankCandidates` and its comparisons;
-- Selecting has the rounds of `selectReference`.
pub mod Order
pub mod Sorted
pub mod Least
pub mod Ahead
pub mod Best
pub mod Selecting
use onchainburner.Base.{
  ℕ, zero, suc, ◌+◌, Bool, true, false, not, ◌&&◌, ◌||◌, Option, none, some, List, [], ◌∷◌, ◌++◌,
  length, take, keep_if, ltb, leb, ◌==◌, if◌then◌else◌,
}
use onchainburner.Base.Errors.{
  Error, Result, ok, err, policy, range_error, discovery, environment, ◌>>=◌,
}
use onchainburner.Chain.{PublicKey}
use onchainburner.Request.{Text}
use onchainburner.Reference.{min_reference_depth_lamports}
use onchainburner.Reference.Resolve.{ResolvedReference}

-- The venues that the ranking names, and the others.
pub data MarketVenue : Type 0 where
  amm_v4 amm_cp clmm_pool dlmm_pool unranked : MarketVenue

-- What the ranking reads and the rounds write of a `MarketCandidate`, but for what
-- `describeReference` adds for display. The decimal texts are numbers.
pub record MarketCandidate : Type 0 where
  pub pool : PublicKey
  pub venue : MarketVenue
  pub depth_lamports : ℕ
  pub opened_at_unix_seconds : Option ℕ
  pub locked_depth_lamports : Option ℕ
  pub meets_depth_floor : Bool
  pub rejected : Option Text

-- What a comparison gives: a negative number, zero, or a positive one.
pub data Comparison : Type 0 where
  before same after : Comparison

-- The second comparison decides where the first does not.
abbrev pub then_by : Comparison → Comparison → Comparison
then_by before o = before
then_by same o = o
then_by after o = after

abbrev pub smaller_first : ℕ → ℕ → Comparison
smaller_first m n = if ltb m n then before else if ltb n m then after else same

abbrev pub larger_first : ℕ → ℕ → Comparison
larger_first m n = smaller_first n m

-- The older first, and an unknown age last.
abbrev pub older_first : Option ℕ → Option ℕ → Comparison
older_first (some m) (some n) = smaller_first m n
older_first (some m) none = before
older_first none (some n) = after
older_first none none = same

-- `VENUE_TIE_BREAK.get(venue) ?? Number.MAX_SAFE_INTEGER`
abbrev pub venue_tie_break : MarketVenue → ℕ
venue_tie_break amm_v4 = 0
venue_tie_break amm_cp = 1
venue_tie_break clmm_pool = 2
venue_tie_break dlmm_pool = 3
venue_tie_break unranked = 9_007_199_254_740_991

-- The bytes of a key compare as its number does.
pub compare_pool_pubkeys : MarketCandidate → MarketCandidate → Comparison
compare_pool_pubkeys a b = smaller_first a.pool b.pool

pub compare_depth_venue_and_pool : MarketCandidate → MarketCandidate → Comparison
compare_depth_venue_and_pool a b = then_by (larger_first a.depth_lamports b.depth_lamports) (
    then_by (older_first a.opened_at_unix_seconds b.opened_at_unix_seconds) (
      then_by (smaller_first (venue_tie_break a.venue) (venue_tie_break b.venue))
        (compare_pool_pubkeys a b)))

abbrev pub locked_depth : MarketCandidate → ℕ
locked_depth c = elim c.locked_depth_lamports [ none ↦ 0 | some n ↦ n ]

pub compare_locked_depth_then_pool : MarketCandidate → MarketCandidate → Comparison
compare_locked_depth_then_pool a b =
    then_by (larger_first (locked_depth a) (locked_depth b)) (compare_depth_venue_and_pool a b)

-- The element stands before the rest, or comes later.
abbrev pub placed : Comparison → List MarketCandidate → List MarketCandidate → List MarketCandidate
placed before early late = early
placed same early late = early
placed after early late = late

-- A stable sort, as `Array.prototype.sort` is one.
pub insert :
    (MarketCandidate → MarketCandidate → Comparison)
    → MarketCandidate
    → List MarketCandidate
    → List MarketCandidate
insert compare x [] = x ∷ []
insert compare x (y ∷ ys) = placed (compare x y) (x ∷ y ∷ ys) (y ∷ insert compare x ys)

pub sort :
    (MarketCandidate → MarketCandidate → Comparison) → List MarketCandidate → List MarketCandidate
sort compare [] = []
sort compare (x ∷ xs) = insert compare x (sort compare xs)

-- `list[0]`
abbrev pub first_of : List MarketCandidate → Option MarketCandidate
first_of [] = none
first_of (c ∷ cs) = some c

-- Whether the reason is truthy: an empty text is not.
abbrev pub is_refused : Option Text → Bool
is_refused none = false
is_refused (some []) = false
is_refused (some (_ ∷ _)) = true

abbrev pub is_eligible : MarketCandidate → Bool
is_eligible c = c.meets_depth_floor && not (is_refused c.rejected)

abbrev pub is_fungible_amm : MarketVenue → Bool
is_fungible_amm amm_v4 = true
is_fungible_amm amm_cp = true
is_fungible_amm _ = false

abbrev pub is_concentrated : MarketVenue → Bool
is_concentrated clmm_pool = true
is_concentrated dlmm_pool = true
is_concentrated _ = false

-- The locked depth is known and clears the gate.
abbrev pub is_durable : MarketCandidate → Bool
is_durable c =
    is_fungible_amm c.venue
    && elim c.locked_depth_lamports [ none ↦ false | some n ↦ leb min_reference_depth_lamports n ]

-- `pick` of `rankCandidates`.
pub rank_candidates : List MarketCandidate → Option MarketCandidate
rank_candidates candidates =
    let eligible = keep_if is_eligible candidates in
    let durable = keep_if is_durable eligible in
    let concentrated = keep_if (λ c. is_concentrated c.venue) eligible in
    if not (length durable == 0)
    then first_of (sort compare_locked_depth_then_pool durable)
    else first_of (sort compare_depth_venue_and_pool concentrated)

-- What a test unfolds.
unfoldable pub ranking : Unit {0}
unfolding rank_candidates sort insert compare_locked_depth_then_pool compare_depth_venue_and_pool
    compare_pool_pubkeys
ranking = tt
