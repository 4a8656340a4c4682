-- ===== src/Market/Least.antt =====
-- What `rankCandidates` picks, by the comparisons of the code.
use onchainburner.Base.{
  ◌≡◌, ◌≢◌, ◌⊎◌, Bool, true, false, not, none, some, List, [], ◌∷◌, length, keep_if, ◌==◌, if-cases,
  All, IsIn, All-keep_if, IsIn-keep_if, Bool-cases, arith, inl, inr,
}
use onchainburner.Market.{
  MarketCandidate, after, compare_depth_venue_and_pool, compare_locked_depth_then_pool, is_eligible,
  is_durable, is_concentrated, rank_candidates,
}
use onchainburner.Market.Order.{compare_depth-IsLawful, compare_locked-IsLawful}
use onchainburner.Market.Sorted.{first-of-sort, no-first-of-sort}

-- The candidate that is chosen of a list: an eligible one that comes after no other of its class, and
-- the class is the fungible pools with enough locked depth, where there is one, or else the
-- concentrated pools.
pub record IsLeast (cs : List MarketCandidate) (p : MarketCandidate) : Type 0 where
  pub member : IsIn p cs
  pub eligible : is_eligible p ≡ true
  pub class :
      ((is_durable p ≡ true)
        × All
            (λ q.
              is_eligible q ≡ true
              → is_durable q ≡ true
              → compare_locked_depth_then_pool p q ≢ after)
            cs)
      ⊎ (All (λ q. is_eligible q ≡ true → is_durable q ≡ false) cs
          × (is_concentrated p.venue ≡ true)
          × All
              (λ q.
                is_eligible q ≡ true
                → is_concentrated q.venue ≡ true
                → compare_depth_venue_and_pool p q ≢ after)
              cs)

none_kept :
    (f : MarketCandidate → Bool) (xs : List MarketCandidate)
    → length (keep_if f xs) ≡ 0
    → All (λ x. f x ≡ false) xs
none_kept f [] e = tt
none_kept f (x ∷ xs) e = elim (Bool-cases (f x)) [
  | inl y ↦ absurd (ground (arith, y, e))
  | inr n ↦ (n, none_kept f xs (rw n at e))
]

-- What `rankCandidates` picks comes first of its class.
pub rank_candidates-IsLeast :
    (cs : List MarketCandidate) (p : MarketCandidate) → rank_candidates cs ≡ some p → IsLeast cs p
unfolding rank_candidates
rank_candidates-IsLeast cs p e =
    let eligible = keep_if is_eligible cs in
    let durable = keep_if is_durable eligible in
    elim (if-cases (not (length durable == 0)) _ _ e) [
      | inl (_, f) ↦
          let (there, least) = first-of-sort compare_locked-IsLawful durable p f in
          let (kept, is_one) = IsIn-keep_if p is_durable eligible there in
          let (member, good) = IsIn-keep_if p is_eligible cs kept in
          record {
            member = member;
            eligible = good;
            class = inl (
              is_one,
              All-keep_if (λ q. is_durable q ≡ true → compare_locked_depth_then_pool p q ≢ after)
                  is_eligible cs
                  (All-keep_if (λ q. compare_locked_depth_then_pool p q ≢ after) is_durable eligible
                    least),
            );
          }
      | inr (empty, f) ↦
          let (there, least) =
            first-of-sort compare_depth-IsLawful (keep_if (λ c. is_concentrated c.venue) eligible) p
              f in
          let (kept, is_one) = IsIn-keep_if p (λ c. is_concentrated c.venue) eligible there in
          let (member, good) = IsIn-keep_if p is_eligible cs kept in
          let none_left : length durable ≡ 0 = ground (arith, empty) in
          record {
            member = member;
            eligible = good;
            class = inr (
              All-keep_if (λ q. is_durable q ≡ false) is_eligible cs
                  (none_kept is_durable eligible none_left),
              is_one,
              All-keep_if
                  (λ q. is_concentrated q.venue ≡ true → compare_depth_venue_and_pool p q ≢ after)
                  is_eligible cs
                  (All-keep_if (λ q. compare_depth_venue_and_pool p q ≢ after)
                    (λ c. is_concentrated c.venue) eligible least),
            );
          }
    ]

-- Where `rankCandidates` picks nothing, no eligible candidate is of either class.
pub rank_candidates-none :
    (cs : List MarketCandidate)
    → rank_candidates cs ≡ none
    → All (λ q. is_eligible q ≡ true → is_durable q ≡ false) cs
      × All (λ q. is_eligible q ≡ true → is_concentrated q.venue ≡ true → ⊥) cs
unfolding rank_candidates
rank_candidates-none cs e =
    let eligible = keep_if is_eligible cs in
    let durable = keep_if is_durable eligible in
    elim (if-cases (not (length durable == 0)) _ _ e) [
      | inl (some_durable, f) ↦
          absurd (none_of durable (no-first-of-sort compare_locked-IsLawful durable f) some_durable)
      | inr (empty, f) ↦
          let none_left : length durable ≡ 0 = ground (arith, empty) in
          let concentrated = keep_if (λ c. is_concentrated c.venue) eligible in
          let nothing = no-first-of-sort compare_depth-IsLawful concentrated f in
          (
            All-keep_if (λ q. is_durable q ≡ false) is_eligible cs
                (none_kept is_durable eligible none_left),
            All-keep_if (λ q. is_concentrated q.venue ≡ true → ⊥) is_eligible cs
                (All-keep_if (λ _. ⊥) (λ c. is_concentrated c.venue) eligible nothing),
          )
    ]
  where
    none_of : (xs : List MarketCandidate) → All (λ _. ⊥) xs → not (length xs == 0) ≡ true → ⊥
    none_of [] h e = cc e
    none_of (x ∷ xs) (h, _) e = h
