-- ===== src/Split.antt =====
-- Dividing a burn between its legs: `splitAmounts` of quote-service/core.ts, and the copies of it
-- in app/src/chain/derive.ts and app/community-indexer.ts. A `bigint` amount of the last leg may
-- be negative there, so amounts are integers.
pub mod Laws
use onchainburner.Base.{ℕ, ◌+◌, ◌*◌, ◌/◌, ◌%◌, List, [], ◌∷◌, length, ◌==◌, if◌then◌else◌}
use onchainburner.Base.Int.{ℤ, pos, sub_ℕ}

abbrev pub bps_total : ℕ
bps_total = 10_000

-- `quotient * bps + (remainder * bps) / BPS_TOTAL`
unfoldable pub share : ℕ → ℕ → ℕ
share total bps = total / bps_total * bps + total % bps_total * bps / bps_total

-- The loop of `splitAmounts`; the test `index + 1 === bpsList.length` is that the list ends here.
split_loop : ℕ → ℕ → List ℕ → List ℤ
split_loop total allocated [] = []
split_loop total allocated (bps ∷ []) = sub_ℕ total allocated ∷ []
split_loop total allocated (bps ∷ next ∷ rest) =
    pos (share total bps) ∷ split_loop total (allocated + share total bps) (next ∷ rest)

unfoldable pub split_amounts : ℕ → List ℕ → List ℤ
unfolding split_loop share
split_amounts total weights = split_loop total 0 weights

-- The copy in the indexer counts: `index + 1 === weights.length`.
indexer_loop : ℕ → ℕ → ℕ → ℕ → List ℕ → List ℤ
indexer_loop total count index assigned [] = []
indexer_loop total count index assigned (bps ∷ rest) =
    let last = index + 1 == count in
    (if last then sub_ℕ total assigned else pos (share total bps))
    ∷ indexer_loop total count (index + 1) (assigned + share total bps) rest

unfoldable pub indexer_split_amounts : ℕ → List ℕ → List ℤ
unfolding indexer_loop share
indexer_split_amounts total weights = indexer_loop total (length weights) 0 0 weights
