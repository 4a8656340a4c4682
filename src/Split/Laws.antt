-- ===== src/Split/Laws.antt =====
-- Nothing is lost in a split, and every leg has its share.
use onchainburner.Base.{
  ℕ, ◌+◌, ◌-◌, ◌*◌, ◌/◌, ◌≤◌, ◌<◌, ◌≡◌, suc, refl, ap, ◌∙◌, List, [], ◌∷◌, length, sum, arith, map,
}
use onchainburner.Base.Int.{pos, sub_ℕ, sum_ℤ, ◌+ℤ◌}
use onchainburner.Split.{
  bps_total, share, split_loop, split_amounts, indexer_loop, indexer_split_amounts,
}
use native.Mathlib.Nat.{div-add-mod}

-- The two-step division is the floor of the exact product.
pub share_exact : (total bps : ℕ) → share total bps ≡ total * bps / bps_total
unfolding share
share_exact total bps = omega (arith, ap (λ (t : ℕ). t * bps) (div-add-mod total bps_total))

pub share_bounds :
    (total bps : ℕ)
    → (share total bps * bps_total ≤ total * bps)
      × (total * bps < share total bps * bps_total + bps_total)
share_bounds total bps = omega (arith, share_exact total bps)

split_loop-sum :
    (total allocated bps : ℕ) (rest : List ℕ)
    → sum_ℤ (split_loop total allocated (bps ∷ rest)) ≡ sub_ℕ total allocated
unfolding split_loop ◌+ℤ◌
split_loop-sum total allocated bps [] = ground arith
split_loop-sum total allocated bps (next ∷ rest) =
    rw (split_loop-sum total (allocated + share total bps) next rest) (ground arith)

-- Whatever the weights, the amounts of one or more legs add up to the total, as integers.
pub sum-split_amounts :
    (total bps : ℕ) (rest : List ℕ) → sum_ℤ (split_amounts total (bps ∷ rest)) ≡ pos total
unfolding split_amounts
sum-split_amounts total bps rest = split_loop-sum total 0 bps rest ∙ ground arith

-- A relation between the legs of two lists of one length.
abbrev pub Legwise : (ℕ → ℕ → Type 0) → List ℕ → List ℕ → Type 0
Legwise R [] [] = Unit
Legwise R (w ∷ ws) (a ∷ amounts) = R w a × Legwise R ws amounts
Legwise R _ _ = ⊥

pub Legwise-length :
    (R : ℕ → ℕ → Type 0) (ws amounts : List ℕ) → Legwise R ws amounts → length ws ≡ length amounts
Legwise-length R [] [] h = refl
Legwise-length R [] (a ∷ amounts) h = absurd h
Legwise-length R (w ∷ ws) [] h = absurd h
Legwise-length R (w ∷ ws) (a ∷ amounts) (_, h) = ap suc (Legwise-length R ws amounts h)

-- The amount is no less than the floor of the exact share, and above it by less than one lamport
-- for each of `extra` legs.
abbrev pub IsFair : ℕ → ℕ → ℕ → ℕ → Type 0
IsFair total extra w a =
    (total * w < (a + 1) * bps_total) × (a * bps_total ≤ total * w + 9_999 * extra)

record Division (total allocated extra : ℕ) (weights : List ℕ) : Type 0 where
  amounts : List ℕ
  same : split_loop total allocated weights ≡ map pos amounts
  whole : allocated + sum amounts ≡ total
  fair : Legwise (IsFair total extra) weights amounts

divide :
    (total allocated done extra bps : ℕ) (rest : List ℕ)
    → allocated * bps_total + total * sum (bps ∷ rest) ≤ total * bps_total
    → total * bps_total ≤ allocated * bps_total + total * sum (bps ∷ rest) + 9_999 * done
    → done + length rest ≤ extra
    → Division total allocated extra (bps ∷ rest)
unfolding split_loop
divide total allocated done extra bps [] low high legs = record {
  amounts = (total - allocated) ∷ [];
  same = ground arith;
  whole = omega arith;
  fair = ((omega arith, omega arith), tt);
}
divide total allocated done extra bps (next ∷ rest) low high legs =
    let (under, over) = share_bounds total bps in
    let d =
      divide total (allocated + share total bps) (done + 1) extra next rest (omega arith)
        (omega arith) (omega arith) in
    record {
      amounts = share total bps ∷ d.amounts;
      same = ap (λ t. pos (share total bps) ∷ t) d.same;
      whole = omega (arith, d.whole);
      fair = ((omega arith, omega arith), d.fair);
    }

-- For weights that sum to 100% no amount is negative, the amounts add up to the total, no leg gets
-- less than the floor of its exact share, and the excess of a leg over its exact share is below one
-- lamport for each of the other legs.
pub split_amounts-IsFair :
    (total : ℕ) (weights : List ℕ)
    → sum weights ≡ bps_total
    → (amounts : List ℕ) × (split_amounts total weights ≡ map pos amounts)
      × (sum amounts ≡ total)
      × Legwise (IsFair total (length weights - 1)) weights amounts
unfolding split_amounts
split_amounts-IsFair total [] h = absurd (omega arith)
split_amounts-IsFair total (bps ∷ rest) h =
    let e : total * sum (bps ∷ rest) ≡ total * bps_total = ap (λ (t : ℕ). total * t) h in
    let d =
      divide total 0 0 (length (bps ∷ rest) - 1) bps rest (omega arith) (omega arith)
        (omega arith) in
    (d.amounts, d.same, omega (arith, d.whole), d.fair)

indexer_loop-eq :
    (total count index assigned : ℕ) (weights : List ℕ)
    → index + length weights ≡ count
    → indexer_loop total count index assigned weights ≡ split_loop total assigned weights
unfolding indexer_loop split_loop
indexer_loop-eq total count index assigned [] h = refl
indexer_loop-eq total count index assigned (bps ∷ []) h = ground arith
indexer_loop-eq total count index assigned (bps ∷ next ∷ rest) h = ground (
  arith,
  indexer_loop-eq total count (index + 1) (assigned + share total bps) (next ∷ rest) (omega arith),
)

-- The indexer's own division gives the amounts that the service pays out.
pub indexer_split_amounts-eq :
    (total : ℕ) (weights : List ℕ)
    → indexer_split_amounts total weights ≡ split_amounts total weights
unfolding indexer_split_amounts split_amounts
indexer_split_amounts-eq total weights =
    indexer_loop-eq total (length weights) 0 0 weights (omega arith)
