-- ===== src/Market/Order.antt =====
-- The comparisons of the ranking are total orders.
use onchainburner.Base.{ℕ, ◌≡◌, ◌≢◌, ◌⊎◌, refl, sym, ap, ◌∙◌, Option, none, some, arith, inl, inr}
use onchainburner.Market.{
  MarketCandidate, Comparison, before, same, after, then_by, smaller_first, older_first,
  venue_tie_break, compare_pool_pubkeys, compare_depth_venue_and_pool, locked_depth,
  compare_locked_depth_then_pool,
}

abbrev pub reverse_order : Comparison → Comparison
reverse_order before = after
reverse_order same = same
reverse_order after = before

-- A comparison that is the one of an order.
pub record IsLawful {A : Type 0} (compare : A → A → Comparison) : Type 0 where
  pub flip : (a b : A) → compare b a ≡ reverse_order (compare a b)
  pub level : (a b c : A) → compare a b ≡ same → compare b c ≡ compare a c
  pub trans : (a b c : A) → compare a b ≡ before → compare b c ≡ before → compare a c ≡ before

smaller_first-IsLawful : IsLawful smaller_first
smaller_first-IsLawful = record {
  flip = λ a b. ground arith;
  level = λ a b c e. ground (arith, e);
  trans = λ a b c e f. ground (arith, e, f);
}

older_first-IsLawful : IsLawful older_first
older_first-IsLawful = record { flip = flip; level = level; trans = trans }
  where
    flip : (a b : Option ℕ) → older_first b a ≡ reverse_order (older_first a b)
    flip (some m) (some n) = smaller_first-IsLawful.flip m n
    flip (some m) none = refl
    flip none (some n) = refl
    flip none none = refl

    level : (a b c : Option ℕ) → older_first a b ≡ same → older_first b c ≡ older_first a c
    level (some m) (some n) (some k) e = smaller_first-IsLawful.level m n k e
    level (some m) (some n) none e = refl
    level (some m) none c e = cc
    level none (some n) c e = cc
    level none none c e = refl

    trans :
        (a b c : Option ℕ)
        → older_first a b ≡ before
        → older_first b c ≡ before
        → older_first a c ≡ before
    trans (some m) (some n) (some k) e f = smaller_first-IsLawful.trans m n k e f
    trans (some m) (some n) none e f = refl
    trans (some m) none (some k) e f = cc
    trans (some m) none none e f = cc
    trans none (some n) c e f = cc
    trans none none c e f = cc

by_key-IsLawful :
    {A B : Type 0} (key : A → B) {compare : B → B → Comparison}
    → IsLawful compare
    → IsLawful (λ a b. compare (key a) (key b))
by_key-IsLawful key h = record {
  flip = λ a b. h.flip (key a) (key b);
  level = λ a b c e. h.level (key a) (key b) (key c) e;
  trans = λ a b c e f. h.trans (key a) (key b) (key c) e f;
}

flipped-IsLawful :
    {A : Type 0} {compare : A → A → Comparison} → IsLawful compare → IsLawful (λ a b. compare b a)
flipped-IsLawful {compare = compare} h = record {
  flip = λ a b. h.flip b a;
  level = λ a b c e. h.flip b c ∙ (ap reverse_order (sym (h.level b a c e)) ∙ sym (h.flip a c));
  trans = λ a b c e f. h.trans c b a f e;
}

-- What an order does with a step that is level.
pub before-level :
    {A : Type 0} {compare : A → A → Comparison} (h : IsLawful compare) (a b c : A)
    → compare a b ≡ before
    → compare b c ≡ same
    → compare a c ≡ before
before-level {compare = compare} h a b c e f =
    let back : compare c b ≡ same = h.flip b c ∙ ap reverse_order f in
    let ca : compare c a ≡ after = sym (h.level c b a back) ∙ (h.flip a b ∙ ap reverse_order e) in
    h.flip c a ∙ ap reverse_order ca

module _ {A : Type 0} {c d : A → A → Comparison} (h : IsLawful c) (k : IsLawful d) where
  then-cases :
      (x y : Comparison) (o : Comparison)
      → then_by x y ≡ o
      → ((x ≡ same) × (y ≡ o)) ⊎ ((x ≢ same) × (x ≡ o))
  then-cases before y o e = inr (λ n. cc, e)
  then-cases same y o e = inl (refl, e)
  then-cases after y o e = inr (λ n. cc, e)

  then-flip :
      (x y u v : Comparison)
      → x ≡ reverse_order u
      → y ≡ reverse_order v
      → then_by x y ≡ reverse_order (then_by u v)
  then-flip x y before v e f = ap (λ t. then_by t y) e
  then-flip x y same v e f = ap (λ t. then_by t y) e ∙ f
  then-flip x y after v e f = ap (λ t. then_by t y) e

  then_by-IsLawful : IsLawful (λ a b. then_by (c a b) (d a b))
  then_by-IsLawful = record {
    flip = λ a b. then-flip (c b a) (d b a) (c a b) (d a b) (h.flip a b) (k.flip a b);
    level = λ x y z e. elim (then-cases (c x y) (d x y) same e) [
      | inl (p, q) ↦
          ap (λ t. then_by t (d y z)) (h.level x y z p)
          ∙ ap (λ t. then_by (c x z) t) (k.level x y z q)
      | inr (n, p) ↦ absurd (n p)
    ];
    trans = λ x y z e f.
        by_cases x y z (then-cases (c x y) (d x y) before e) (then-cases (c y z) (d y z) before f);
  }
    where
      by_cases :
          (x y z : A)
          → ((c x y ≡ same) × (d x y ≡ before)) ⊎ ((c x y ≢ same) × (c x y ≡ before))
          → ((c y z ≡ same) × (d y z ≡ before)) ⊎ ((c y z ≢ same) × (c y z ≡ before))
          → then_by (c x z) (d x z) ≡ before
      by_cases x y z (inl (p, q)) (inl (r, s)) =
          ap (λ t. then_by t (d x z)) (sym (h.level x y z p) ∙ r) ∙ k.trans x y z q s
      by_cases x y z (inl (p, q)) (inr (n, s)) =
          ap (λ t. then_by t (d x z)) (sym (h.level x y z p) ∙ s)
      by_cases x y z (inr (n, q)) (inl (r, s)) =
          ap (λ t. then_by t (d x z)) (before-level h x y z q r)
      by_cases x y z (inr (n, q)) (inr (m, s)) = ap (λ t. then_by t (d x z)) (h.trans x y z q s)

pub compare_depth-IsLawful : IsLawful compare_depth_venue_and_pool
unfolding compare_depth_venue_and_pool compare_pool_pubkeys
compare_depth-IsLawful =
    then_by-IsLawful
      (by_key-IsLawful (λ (a : MarketCandidate). a.depth_lamports)
        (flipped-IsLawful smaller_first-IsLawful))
      (then_by-IsLawful
        (by_key-IsLawful (λ (a : MarketCandidate). a.opened_at_unix_seconds) older_first-IsLawful)
        (then_by-IsLawful
          (by_key-IsLawful (λ (a : MarketCandidate). venue_tie_break a.venue)
            smaller_first-IsLawful)
          (by_key-IsLawful (λ (a : MarketCandidate). a.pool) smaller_first-IsLawful)))

pub compare_locked-IsLawful : IsLawful compare_locked_depth_then_pool
unfolding compare_locked_depth_then_pool
compare_locked-IsLawful =
    then_by-IsLawful (by_key-IsLawful locked_depth (flipped-IsLawful smaller_first-IsLawful))
      compare_depth-IsLawful
