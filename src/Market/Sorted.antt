-- ===== src/Market/Sorted.antt =====
-- The head of a sorted list of candidates.
use onchainburner.Base.{
  ◌≡◌, ◌≢◌, ◌⊎◌, refl, sym, ap, ◌∙◌, none, some, List, [], ◌∷◌, All, IsIn, All-map, inl, inr,
}
use onchainburner.Market.{MarketCandidate, Comparison, before, same, after, insert, sort, first_of}
use onchainburner.Market.Order.{reverse_order, IsLawful, before-level}
use mathlib.Core.Path.{subst}

pub Comparison-cases : (o : Comparison) → (o ≡ before) ⊎ ((o ≡ same) ⊎ (o ≡ after))
Comparison-cases before = inl refl
Comparison-cases same = inr (inl refl)
Comparison-cases after = inr (inr refl)

pub before-after : {o : Comparison} → o ≡ before → o ≢ after
before-after e n = cc

pub same-after : {o : Comparison} → o ≡ same → o ≢ after
same-after e n = cc

module _ {compare : MarketCandidate → MarketCandidate → Comparison} (h : IsLawful compare) where
  not_after_trans :
      (a b c : MarketCandidate) → compare a b ≢ after → compare b c ≢ after → compare a c ≢ after
  not_after_trans a b c m n = elim (Comparison-cases (compare a b)) [
    | inr (inr e) ↦ absurd (m e)
    | inr (inl e) ↦ λ x. n (h.level a b c e ∙ x)
    | inl e ↦ elim (Comparison-cases (compare b c)) [
      | inl f ↦ before-after (h.trans a b c e f)
      | inr (inl f) ↦ before-after (before-level h a b c e f)
      | inr (inr f) ↦ absurd (n f)
    ]
  ]

  -- The head of the list comes after nothing in it.
  abbrev IsLed : List MarketCandidate → Type 0
  IsLed [] = Unit
  IsLed (y ∷ ys) = All (λ q. compare y q ≢ after) ys

  insert-cases :
      (x y : MarketCandidate) (ys : List MarketCandidate)
      → ((compare x y ≢ after) × (insert compare x (y ∷ ys) ≡ x ∷ y ∷ ys))
        ⊎ ((compare x y ≡ after) × (insert compare x (y ∷ ys) ≡ y ∷ insert compare x ys))
  unfolding insert
  insert-cases x y ys = elim (Comparison-cases (compare x y)) [
    | inl e ↦ inl (before-after e, rw e refl)
    | inr (inl e) ↦ inl (same-after e, rw e refl)
    | inr (inr e) ↦ inr (e, rw e refl)
  ]

  All-insert :
      (P : MarketCandidate → Type 0) (x : MarketCandidate) (ys : List MarketCandidate)
      → P x
      → All P ys
      → All P (insert compare x ys)
  unfolding insert
  All-insert P x [] p k = (p, tt)
  All-insert P x (y ∷ ys) p (q, k) =
      let later = All-insert P x ys p k in
      elim (insert-cases x y ys) [
        | inl (_, e) ↦ subst (All P) (sym e) (p, (q, k))
        | inr (_, e) ↦ subst (All P) (sym e) (q, later)
      ]

  All-of-insert :
      (P : MarketCandidate → Type 0) (x : MarketCandidate) (ys : List MarketCandidate)
      → All P (insert compare x ys)
      → P x × All P ys
  unfolding insert
  All-of-insert P x [] (p, _) = (p, tt)
  All-of-insert P x (y ∷ ys) k = elim (insert-cases x y ys) [
    | inl (_, e) ↦ subst (All P) e k
    | inr (_, e) ↦
        let both : P y × All P (insert compare x ys) = subst (All P) e k in
        let (p, rest) = All-of-insert P x ys both.1 in (p, (both.0, rest))
  ]

  IsIn-of-insert :
      (p x : MarketCandidate) (ys : List MarketCandidate)
      → IsIn p (insert compare x ys)
      → (p ≡ x) ⊎ IsIn p ys
  unfolding insert
  IsIn-of-insert p x [] there = there
  IsIn-of-insert p x (y ∷ ys) there = elim (insert-cases x y ys) [
    | inl (_, e) ↦ subst (IsIn p) e there
    | inr (_, e) ↦
        let moved : (p ≡ y) ⊎ IsIn p (insert compare x ys) = subst (IsIn p) e there in
        elim moved [
          | inl f ↦ inr (inl f)
          | inr later ↦ elim (IsIn-of-insert p x ys later) [ inl g ↦ inl g | inr g ↦ inr (inr g) ]
        ]
  ]

  insert-IsLed :
      (x : MarketCandidate) (ys : List MarketCandidate) → IsLed ys → IsLed (insert compare x ys)
  unfolding insert
  insert-IsLed x [] k = tt
  insert-IsLed x (y ∷ ys) k = elim (insert-cases x y ys) [
    | inl (n, e) ↦ subst IsLed (sym e) (n, All-map _ _ (λ q m. not_after_trans x y q n m) ys k)
    | inr (a, e) ↦
        let back : compare y x ≡ before = h.flip x y ∙ ap reverse_order a in
        subst IsLed (sym e) (All-insert (λ q. compare y q ≢ after) x ys (before-after back) k)
  ]

  sort-IsLed : (xs : List MarketCandidate) → IsLed (sort compare xs)
  unfolding sort
  sort-IsLed [] = tt
  sort-IsLed (x ∷ xs) = insert-IsLed x (sort compare xs) (sort-IsLed xs)

  All-of-sort :
      (P : MarketCandidate → Type 0) (xs : List MarketCandidate)
      → All P (sort compare xs)
      → All P xs
  unfolding sort
  All-of-sort P [] k = tt
  All-of-sort P (x ∷ xs) k =
      let (p, rest) = All-of-insert P x (sort compare xs) k in (p, All-of-sort P xs rest)

  IsIn-of-sort :
      (p : MarketCandidate) (xs : List MarketCandidate) → IsIn p (sort compare xs) → IsIn p xs
  unfolding sort
  IsIn-of-sort p [] there = there
  IsIn-of-sort p (x ∷ xs) there = elim (IsIn-of-insert p x (sort compare xs) there) [
    | inl e ↦ inl e
    | inr later ↦ inr (IsIn-of-sort p xs later)
  ]

  -- The head of a sorted list is in it, and comes after nothing in it.
  pub first-of-sort :
      (xs : List MarketCandidate) (p : MarketCandidate)
      → first_of (sort compare xs) ≡ some p
      → IsIn p xs × All (λ q. compare p q ≢ after) xs
  first-of-sort xs p e =
      by_list (sort compare xs) (sort-IsLed xs) e (IsIn-of-sort p xs) (All-of-sort _ xs)
    where
      by_list :
          (l : List MarketCandidate)
          → IsLed l
          → first_of l ≡ some p
          → (IsIn p l → IsIn p xs)
          → (All (λ q. compare p q ≢ after) l → All (λ q. compare p q ≢ after) xs)
          → IsIn p xs × All (λ q. compare p q ≢ after) xs
      by_list [] k e f g = cc
      by_list (y ∷ ys) k e f g =
          let same_one : y ≡ p = some-injective e in
          (
            f (inl (sym same_one)),
            g (subst (λ z. All (λ q. compare z q ≢ after) (y ∷ ys)) same_one (level_self y, k)),
          )
        where
          some-injective : some y ≡ some p → y ≡ p
          some-injective h = cc

          level_self : (z : MarketCandidate) → compare z z ≢ after
          level_self z e = before-after (h.flip z z ∙ ap reverse_order e) e

  -- A sorted list with no head sorts an empty list.
  pub no-first-of-sort :
      (xs : List MarketCandidate) → first_of (sort compare xs) ≡ none → All (λ _. ⊥) xs
  no-first-of-sort xs e = All-of-sort (λ _. ⊥) xs (by_list (sort compare xs) e)
    where
      by_list : (l : List MarketCandidate) → first_of l ≡ none → All (λ _. ⊥) l
      by_list [] h = tt
      by_list (y ∷ ys) h = cc h
