-- ===== src/Market/Ahead.antt =====
-- What the comparisons of candidates say, in numbers.
use onchainburner.Base.{
  ℕ, ◌≤◌, ◌<◌, ◌≡◌, ◌≢◌, ◌⊎◌, refl, sym, ap, Option, none, some, arith, inl, inr,
}
use onchainburner.Market.{
  MarketVenue, amm_v4, amm_cp, clmm_pool, dlmm_pool, unranked, MarketCandidate, Comparison, before,
  same, after, then_by, smaller_first, larger_first, older_first, venue_tie_break,
  compare_pool_pubkeys, compare_depth_venue_and_pool, locked_depth, compare_locked_depth_then_pool,
}

-- The order of the venues.
abbrev pub Precedes : MarketVenue → MarketVenue → Type 0
Precedes amm_v4 amm_cp = Unit
Precedes amm_v4 clmm_pool = Unit
Precedes amm_v4 dlmm_pool = Unit
Precedes amm_v4 unranked = Unit
Precedes amm_cp clmm_pool = Unit
Precedes amm_cp dlmm_pool = Unit
Precedes amm_cp unranked = Unit
Precedes clmm_pool dlmm_pool = Unit
Precedes clmm_pool unranked = Unit
Precedes dlmm_pool unranked = Unit
Precedes _ _ = ⊥

-- Opened before the other, at a known time.
abbrev pub IsOlder : Option ℕ → Option ℕ → Type 0
IsOlder (some m) (some n) = m < n
IsOlder (some m) none = Unit
IsOlder none n = ⊥

-- Deeper; of one depth, the older; of one age too, of the venue that precedes; and of one venue, with
-- no larger key of its pool.
abbrev pub IsAhead : MarketCandidate → MarketCandidate → Type 0
IsAhead p q =
    (q.depth_lamports < p.depth_lamports)
    ⊎ ((p.depth_lamports ≡ q.depth_lamports)
        × (IsOlder p.opened_at_unix_seconds q.opened_at_unix_seconds
            ⊎ ((p.opened_at_unix_seconds ≡ q.opened_at_unix_seconds)
                × (Precedes p.venue q.venue ⊎ ((p.venue ≡ q.venue) × (p.pool ≤ q.pool))))))

smaller-before : (m n : ℕ) → smaller_first m n ≡ before → m < n
smaller-before m n e = ground (arith, e)

smaller-same : (m n : ℕ) → smaller_first m n ≡ same → m ≡ n
smaller-same m n e = ground (arith, e)

smaller-not_after : (m n : ℕ) → smaller_first m n ≢ after → m ≤ n
smaller-not_after m n e = ground (arith, e)

older_first-IsOlder : (a b : Option ℕ) → older_first a b ≡ before → IsOlder a b
older_first-IsOlder (some m) (some n) e = smaller-before m n e
older_first-IsOlder (some m) none e = tt
older_first-IsOlder none (some n) e = cc
older_first-IsOlder none none e = cc

older-same : (a b : Option ℕ) → older_first a b ≡ same → a ≡ b
older-same (some m) (some n) e = ap some (smaller-same m n e)
older-same (some m) none e = cc
older-same none (some n) e = cc
older-same none none e = refl

venue-before :
    (a b : MarketVenue)
    → smaller_first (venue_tie_break a) (venue_tie_break b) ≡ before
    → Precedes a b
venue-before amm_v4 amm_v4 e = cc e
venue-before amm_v4 amm_cp e = tt
venue-before amm_v4 clmm_pool e = tt
venue-before amm_v4 dlmm_pool e = tt
venue-before amm_v4 unranked e = tt
venue-before amm_cp amm_v4 e = cc e
venue-before amm_cp amm_cp e = cc e
venue-before amm_cp clmm_pool e = tt
venue-before amm_cp dlmm_pool e = tt
venue-before amm_cp unranked e = tt
venue-before clmm_pool amm_v4 e = cc e
venue-before clmm_pool amm_cp e = cc e
venue-before clmm_pool clmm_pool e = cc e
venue-before clmm_pool dlmm_pool e = tt
venue-before clmm_pool unranked e = tt
venue-before dlmm_pool amm_v4 e = cc e
venue-before dlmm_pool amm_cp e = cc e
venue-before dlmm_pool clmm_pool e = cc e
venue-before dlmm_pool dlmm_pool e = cc e
venue-before dlmm_pool unranked e = tt
venue-before unranked amm_v4 e = cc e
venue-before unranked amm_cp e = cc e
venue-before unranked clmm_pool e = cc e
venue-before unranked dlmm_pool e = cc e
venue-before unranked unranked e = cc e

venue-same :
    (a b : MarketVenue) → smaller_first (venue_tie_break a) (venue_tie_break b) ≡ same → a ≡ b
venue-same amm_v4 amm_v4 e = refl
venue-same amm_v4 amm_cp e = cc e
venue-same amm_v4 clmm_pool e = cc e
venue-same amm_v4 dlmm_pool e = cc e
venue-same amm_v4 unranked e = cc e
venue-same amm_cp amm_v4 e = cc e
venue-same amm_cp amm_cp e = refl
venue-same amm_cp clmm_pool e = cc e
venue-same amm_cp dlmm_pool e = cc e
venue-same amm_cp unranked e = cc e
venue-same clmm_pool amm_v4 e = cc e
venue-same clmm_pool amm_cp e = cc e
venue-same clmm_pool clmm_pool e = refl
venue-same clmm_pool dlmm_pool e = cc e
venue-same clmm_pool unranked e = cc e
venue-same dlmm_pool amm_v4 e = cc e
venue-same dlmm_pool amm_cp e = cc e
venue-same dlmm_pool clmm_pool e = cc e
venue-same dlmm_pool dlmm_pool e = refl
venue-same dlmm_pool unranked e = cc e
venue-same unranked amm_v4 e = cc e
venue-same unranked amm_cp e = cc e
venue-same unranked clmm_pool e = cc e
venue-same unranked dlmm_pool e = cc e
venue-same unranked unranked e = refl

then_by-cases : (x y : Comparison) → then_by x y ≢ after → (x ≡ before) ⊎ ((x ≡ same) × (y ≢ after))
then_by-cases before y n = inl refl
then_by-cases same y n = inr (refl, n)
then_by-cases after y n = absurd (n refl)

pub depth-IsAhead : (p q : MarketCandidate) → compare_depth_venue_and_pool p q ≢ after → IsAhead p q
unfolding compare_depth_venue_and_pool compare_pool_pubkeys
depth-IsAhead p q n =
    let by_pool = compare_pool_pubkeys p q in
    let by_venue = smaller_first (venue_tie_break p.venue) (venue_tie_break q.venue) in
    let by_age = older_first p.opened_at_unix_seconds q.opened_at_unix_seconds in
    let by_depth = larger_first p.depth_lamports q.depth_lamports in
    elim (then_by-cases by_depth (then_by by_age (then_by by_venue by_pool)) n) [
      | inl e ↦ inl (smaller-before q.depth_lamports p.depth_lamports e)
      | inr (e, n1) ↦ inr (
        sym (smaller-same q.depth_lamports p.depth_lamports e),
        elim (then_by-cases by_age (then_by by_venue by_pool) n1) [
          | inl f ↦ inl (older_first-IsOlder p.opened_at_unix_seconds q.opened_at_unix_seconds f)
          | inr (f, n2) ↦ inr (
            older-same p.opened_at_unix_seconds q.opened_at_unix_seconds f,
            elim (then_by-cases by_venue by_pool n2) [
              | inl g ↦ inl (venue-before p.venue q.venue g)
              | inr (g, n3) ↦ inr (venue-same p.venue q.venue g, smaller-not_after p.pool q.pool n3)
            ],
          )
        ],
      )
    ]

pub locked-IsAhead :
    (p q : MarketCandidate) (m n : ℕ)
    → p.locked_depth_lamports ≡ some n
    → q.locked_depth_lamports ≡ some m
    → compare_locked_depth_then_pool p q ≢ after
    → (m < n) ⊎ ((n ≡ m) × IsAhead p q)
unfolding compare_locked_depth_then_pool
locked-IsAhead p q m n e f a =
    let locked_p : locked_depth p ≡ n = rw e refl in
    let locked_q : locked_depth q ≡ m = rw f refl in
    elim (then_by-cases (larger_first (locked_depth p) (locked_depth q))
      (compare_depth_venue_and_pool p q) a) [
        | inl g ↦
            let more = smaller-before (locked_depth q) (locked_depth p) g in
            inl (omega (arith, more, locked_p, locked_q))
        | inr (g, b) ↦
            let level = smaller-same (locked_depth q) (locked_depth p) g in
            inr (omega (arith, level, locked_p, locked_q), depth-IsAhead p q b)
      ]
