-- ===== src/Market/Best.antt =====
-- The best of the candidates, in numbers: what `rankCandidates` picks, whatever order they come in.
use onchainburner.Base.{
  ℕ, ◌≤◌, ◌<◌, ◌≡◌, ◌⊎◌, refl, true, false, not, Option, none, some, List, [], ◌∷◌, leb, All,
  All-map, All-both, IsIn, Option-cases, and-true, arith, inl, inr,
}
use onchainburner.Request.{Text}
use onchainburner.Market.{
  MarketVenue, amm_v4, amm_cp, clmm_pool, dlmm_pool, unranked, MarketCandidate, is_refused,
  is_eligible, is_fungible_amm, is_durable, is_concentrated, rank_candidates,
}
use onchainburner.Market.Least.{rank_candidates-IsLeast, rank_candidates-none}
use onchainburner.Market.Ahead.{IsAhead, depth-IsAhead, locked-IsAhead}

-- It clears the depth floor, and no reason is given against it.
pub record IsEligible (c : MarketCandidate) : Type 0 where
  pub deep : c.meets_depth_floor ≡ true
  pub open_still : (c.rejected ≡ none) ⊎ (c.rejected ≡ some [])

-- A fungible pool with at least 50 SOL of locked depth.
pub record IsDurable (c : MarketCandidate) (locked : ℕ) : Type 0 where
  pub fungible : (c.venue ≡ amm_v4) ⊎ (c.venue ≡ amm_cp)
  pub measured : c.locked_depth_lamports ≡ some locked
  pub enough : 50_000_000_000 ≤ locked

abbrev pub IsConcentrated : MarketCandidate → Type 0
IsConcentrated c = (c.venue ≡ clmm_pool) ⊎ (c.venue ≡ dlmm_pool)

-- The candidate that is chosen of a list.
pub record IsBest (cs : List MarketCandidate) (p : MarketCandidate) : Type 0 where
  pub member : IsIn p cs
  pub eligible : IsEligible p
  pub class :
      ((n : ℕ) × IsDurable p n
        × All (λ q. IsEligible q → (m : ℕ) → IsDurable q m → (m < n) ⊎ ((n ≡ m) × IsAhead p q)) cs)
      ⊎ (All (λ q. IsEligible q → (m : ℕ) → IsDurable q m → ⊥) cs
          × IsConcentrated p
          × All (λ q. IsEligible q → IsConcentrated q → IsAhead p q) cs)

refused-cases : (r : Option Text) → is_refused r ≡ false → (r ≡ none) ⊎ (r ≡ some [])
refused-cases none e = inl refl
refused-cases (some []) e = inr refl
refused-cases (some (x ∷ xs)) e = cc

is_eligible-IsEligible : (c : MarketCandidate) → is_eligible c ≡ true → IsEligible c
is_eligible-IsEligible c e =
    let (deep, f) = and-true c.meets_depth_floor (not (is_refused c.rejected)) e in
    record { deep = deep; open_still = refused-cases c.rejected (ground (arith, f)) }

IsEligible-eligible : (c : MarketCandidate) → IsEligible c → is_eligible c ≡ true
IsEligible-eligible c h = elim h.open_still [
  | inl e ↦ rw (h.deep, e) refl
  | inr e ↦ rw (h.deep, e) refl
]

fungible-cases : (v : MarketVenue) → is_fungible_amm v ≡ true → (v ≡ amm_v4) ⊎ (v ≡ amm_cp)
fungible-cases amm_v4 e = inl refl
fungible-cases amm_cp e = inr refl
fungible-cases clmm_pool e = cc
fungible-cases dlmm_pool e = cc
fungible-cases unranked e = cc

concentrated-cases :
    (v : MarketVenue) → is_concentrated v ≡ true → (v ≡ clmm_pool) ⊎ (v ≡ dlmm_pool)
concentrated-cases amm_v4 e = cc
concentrated-cases amm_cp e = cc
concentrated-cases clmm_pool e = inl refl
concentrated-cases dlmm_pool e = inr refl
concentrated-cases unranked e = cc

concentrated-back : (c : MarketCandidate) → IsConcentrated c → is_concentrated c.venue ≡ true
concentrated-back c (inl e) = rw e refl
concentrated-back c (inr e) = rw e refl

is_durable-IsDurable : (c : MarketCandidate) → is_durable c ≡ true → (n : ℕ) × IsDurable c n
is_durable-IsDurable c e = elim (Option-cases c.locked_depth_lamports) [
  | inl unknown ↦ absurd (ground (arith, rw unknown at e))
  | inr (n, known) ↦
      let (f, g) = and-true (is_fungible_amm c.venue) (leb 50_000_000_000 n) (rw known at e) in
      (
        n,
        record {
          fungible = fungible-cases c.venue f;
          measured = known;
          enough = ground (arith, g);
        },
      )
]

IsDurable-durable : (c : MarketCandidate) (n : ℕ) → IsDurable c n → is_durable c ≡ true
IsDurable-durable c n h =
    let clears : leb 50_000_000_000 n ≡ true = ground (arith, h.enough) in
    elim h.fungible [ inl e ↦ rw (e, h.measured) clears | inr e ↦ rw (e, h.measured) clears ]

-- What `rankCandidates` picks is an eligible candidate of the list: one of the fungible pools with
-- at least 50 SOL of locked depth, where an eligible one is listed, and then none of them has more
-- locked depth, and of those with as much none is ahead of it in depth, age, venue and key; or else a
-- concentrated pool, and then no eligible concentrated pool is ahead of it.
pub rank_candidates-IsBest :
    (cs : List MarketCandidate) (p : MarketCandidate) → rank_candidates cs ≡ some p → IsBest cs p
rank_candidates-IsBest cs p e =
    let least = rank_candidates-IsLeast cs p e in
    record {
      member = least.member;
      eligible = is_eligible-IsEligible p least.eligible;
      class = elim least.class [
        | inl (d, first) ↦
            let (n, durable) = is_durable-IsDurable p d in
            inl (
              n,
              durable,
              All-map _ _
                  (λ q a h m k.
                    locked-IsAhead p q m n durable.measured k.measured
                      (a (IsEligible-eligible q h) (IsDurable-durable q m k)))
                  cs first,
            )
        | inr (nothing, kind, first) ↦ inr (
          All-map _ _
              (λ q a h m k. absurd (cc (a (IsEligible-eligible q h), IsDurable-durable q m k))) cs
              nothing,
          concentrated-cases p.venue kind,
          All-map _ _
              (λ q a h k. depth-IsAhead p q (a (IsEligible-eligible q h) (concentrated-back q k)))
              cs first,
        )
      ];
    }

-- No eligible candidate is a durable fungible pool, nor a concentrated one.
abbrev pub HasNone : List MarketCandidate → Type 0
HasNone cs = All (λ q. IsEligible q → ¬ IsConcentrated q × ((n : ℕ) → ¬ IsDurable q n)) cs

pub rank_candidates-HasNone : (cs : List MarketCandidate) → rank_candidates cs ≡ none → HasNone cs
rank_candidates-HasNone cs e =
    let (no_durable, no_concentrated) = rank_candidates-none cs e in
    All-map _ _
      (λ q a h. (
        (λ k. a.1 (IsEligible-eligible q h) (concentrated-back q k)),
        (λ n k. cc (a.0 (IsEligible-eligible q h), IsDurable-durable q n k)),
      ))
      cs (All-both _ _ cs no_durable no_concentrated)
