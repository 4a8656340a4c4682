-- ===== src/Market/Selecting/Settled.antt =====
-- What the rounds of one phase of `selectReference` leave.
use mathlib.Core.Path.{subst}
use onchainburner.Base.{
  ℕ, zero, suc, ◌≤◌, ◌<◌, ◌≡◌, ◌⊎◌, refl, sym, ap, ◌∙◌, true, false, not, Option, none, some, List,
  [], ◌∷◌, length, take, ◌==◌, if◌then◌else◌, IsIn, Bool-cases, and-true, arith, inl, inr, ==_iff,
}
use onchainburner.Base.Errors.{
  Error, Result, ok, err, policy, range_error, discovery, environment, AllPairs, ok-injective,
}
use onchainburner.Chain.{PublicKey}
use onchainburner.Request.{Text}
use onchainburner.Reference.Resolve.{ResolvedReference}
use onchainburner.Market.{MarketCandidate, is_refused, is_eligible, rank_candidates}
use onchainburner.Market.Selecting.{Selection, reject_pool, authenticated, picked, authenticate}
use onchainburner.Market.Least.{rank_candidates-IsLeast}
use onchainburner.Market.Best.{IsBest, rank_candidates-IsBest, HasNone, rank_candidates-HasNone}

-- How many candidates have no reason against them.
abbrev pub open_count : List MarketCandidate → ℕ
open_count [] = 0
open_count (c ∷ cs) = let rest = open_count cs in if is_refused c.rejected then rest else suc rest

open_count-length : (cs : List MarketCandidate) → open_count cs ≤ length cs
open_count-length [] = omega arith
open_count-length (c ∷ cs) = ground (arith, open_count-length cs)

-- A reason that is given, with a message of at least one character.
open_count-reject_pool :
    (pool : PublicKey) (x : ℕ) (message : Text) (cs : List MarketCandidate)
    → open_count (reject_pool pool (x ∷ message) cs) ≤ open_count cs
unfolding reject_pool
open_count-reject_pool pool x message [] = omega arith
open_count-reject_pool pool x message (c ∷ cs) =
    ground (arith, open_count-reject_pool pool x message cs)

eligible-unrefused : (c : MarketCandidate) → is_eligible c ≡ true → is_refused c.rejected ≡ false
eligible-unrefused c e =
    let (_, f) = and-true c.meets_depth_floor (not (is_refused c.rejected)) e in ground (arith, f)

-- Refusing an open candidate with such a message leaves fewer of them.
reject_pool-fewer :
    (p : MarketCandidate) (x : ℕ) (message : Text) (cs : List MarketCandidate)
    → is_refused p.rejected ≡ false
    → IsIn p cs
    → open_count (reject_pool p.pool (x ∷ message) cs) < open_count cs
unfolding reject_pool
reject_pool-fewer p x message [] e there = absurd there
reject_pool-fewer p x message (c ∷ cs) e (inl here) =
    let is_open : is_refused c.rejected ≡ false =
      ap (λ (y : MarketCandidate). is_refused y.rejected) (sym here) ∙ e in
    let same_pool : c.pool ≡ p.pool = ap (λ (y : MarketCandidate). y.pool) (sym here) in
    ground (arith, is_open, same_pool, open_count-reject_pool p.pool x message cs)
reject_pool-fewer p x message (c ∷ cs) e (inr later) =
    ground (arith, reject_pool-fewer p x message cs e later)

-- A candidate of the pool is still listed.
abbrev pub Lists : PublicKey → List MarketCandidate → Type 0
Lists pool [] = ⊥
Lists pool (c ∷ cs) = (c.pool ≡ pool) ⊎ Lists pool cs

IsIn-Lists : (p : MarketCandidate) (cs : List MarketCandidate) → IsIn p cs → Lists p.pool cs
IsIn-Lists p [] there = absurd there
IsIn-Lists p (c ∷ cs) (inl here) = inl (ap (λ (y : MarketCandidate). y.pool) (sym here))
IsIn-Lists p (c ∷ cs) (inr later) = inr (IsIn-Lists p cs later)

Lists-reject_pool :
    (pool other : PublicKey) (message : Text) (cs : List MarketCandidate)
    → Lists pool cs
    → Lists pool (reject_pool other message cs)
unfolding reject_pool
Lists-reject_pool pool other message [] there = there
Lists-reject_pool pool other message (c ∷ cs) (inl here) =
    inl (elim (Bool-cases (c.pool == other)) [ inl y ↦ rw y here | inr n ↦ rw n here ])
Lists-reject_pool pool other message (c ∷ cs) (inr later) =
    inr (Lists-reject_pool pool other message cs later)

module _ (resolve : PublicKey → Result ResolvedReference)
    (message_of : PublicKey → Error → Text) where
  -- A candidate as the rounds leave it: as it was, or with the message of why its reference does not
  -- resolve, cut at 200 characters.
  abbrev pub IsKept : MarketCandidate → MarketCandidate → Type 0
  IsKept c d =
      (d ≡ c)
      ⊎ ((e : Error) × (resolve c.pool ≡ err e)
          × (d ≡ record c { rejected = some (take 200 (message_of c.pool e)) }))

  IsKept-through : (a b c : MarketCandidate) → IsKept a b → IsKept b c → IsKept a c
  IsKept-through a b c (inl e) k = subst (λ x. IsKept x c) e k
  IsKept-through a b c (inr (e, x, h)) (inl f) = inr (e, x, f ∙ h)
  IsKept-through a b c (inr (e, x, h)) (inr (d, y, k)) =
      let pools : b.pool ≡ a.pool = ap (λ (m : MarketCandidate). m.pool) h in
      inr (
        d,
        ap resolve (sym pools) ∙ y,
        k
            ∙ (ap
                  (λ (m : MarketCandidate). record m {
                    rejected = some (take 200 (message_of b.pool d));
                  })
                  h
                ∙ ap (λ q. record a { rejected = some (take 200 (message_of q d)) }) pools),
      )

  all-IsKept : (cs : List MarketCandidate) → AllPairs IsKept cs cs
  all-IsKept [] = tt
  all-IsKept (c ∷ cs) = (inl refl, all-IsKept cs)

  all-IsKept_through :
      (xs ys zs : List MarketCandidate)
      → AllPairs IsKept xs ys
      → AllPairs IsKept ys zs
      → AllPairs IsKept xs zs
  all-IsKept_through [] [] [] h k = tt
  all-IsKept_through [] [] (c ∷ zs) h k = absurd k
  all-IsKept_through [] (b ∷ ys) zs h k = absurd h
  all-IsKept_through (a ∷ xs) [] zs h k = absurd h
  all-IsKept_through (a ∷ xs) (b ∷ ys) [] h k = absurd k
  all-IsKept_through (a ∷ xs) (b ∷ ys) (c ∷ zs) (p, h) (q, k) =
      (IsKept-through a b c p q, all-IsKept_through xs ys zs h k)

  reject_pool-IsKept :
      (pool : PublicKey) (e : Error) (cs : List MarketCandidate)
      → resolve pool ≡ err e
      → AllPairs IsKept cs (reject_pool pool (message_of pool e) cs)
  unfolding reject_pool
  reject_pool-IsKept pool e [] h = tt
  reject_pool-IsKept pool e (c ∷ cs) h = elim (Bool-cases (c.pool == pool)) [
    | inl y ↦
        let same_pool : c.pool ≡ pool = (==_iff c.pool pool).0 y in
        rw y (
          inr (
            e,
            ap resolve same_pool ∙ h,
            ap (λ q. record c { rejected = some (take 200 (message_of q e)) }) (sym same_pool),
          ),
          reject_pool-IsKept pool e cs h,
        )
    | inr n ↦ rw n (inl refl, reject_pool-IsKept pool e cs h)
  ]

  -- A listed pool the reference of which fails with an empty message, which counts as no reason.
  pub record IsSilent (cs : List MarketCandidate) : Type 0 where
    pub pool : PublicKey
    pub listed : Lists pool cs
    pub thrown : Error
    pub fails : resolve pool ≡ err thrown
    pub empty : message_of pool thrown ≡ []

  IsSilent-reject_pool :
      (other : PublicKey) (message : Text) (cs : List MarketCandidate)
      → IsSilent cs
      → IsSilent (reject_pool other message cs)
  IsSilent-reject_pool other message cs h = record {
    pool = h.pool;
    listed = Lists-reject_pool h.pool other message cs h.listed;
    thrown = h.thrown;
    fails = h.fails;
    empty = h.empty;
  }

  -- The end of the rounds.
  pub record IsSettled (cs : List MarketCandidate) (s : Selection) : Type 0 where
    pub kept : AllPairs IsKept cs s.candidates
    pub outcome :
        ((s.chosen ≡ none) × HasNone s.candidates)
        ⊎ ((p : MarketCandidate) × (r : ResolvedReference) × (s.chosen ≡ some (p, r))
            × (resolve p.pool ≡ ok r)
            × IsBest s.candidates p)
        ⊎ ((s.chosen ≡ none) × IsSilent s.candidates)

  IsSettled-later :
      (cs ds : List MarketCandidate) (s : Selection)
      → AllPairs IsKept cs ds
      → IsSettled ds s
      → IsSettled cs s
  IsSettled-later cs ds s h k = record {
    kept = all-IsKept_through cs ds s.candidates h k.kept;
    outcome = k.outcome;
  }

  -- The rounds are enough for the candidates that are not refused, or a silent failure is listed.
  abbrev pub Enough : ℕ → List MarketCandidate → Type 0
  Enough rounds cs = (open_count cs < rounds) ⊎ IsSilent cs

  Enough-reject_pool :
      (rounds : ℕ) (p : MarketCandidate) (e : Error) (cs : List MarketCandidate) (message : Text)
      → message_of p.pool e ≡ message
      → rank_candidates cs ≡ some p
      → resolve p.pool ≡ err e
      → Enough (suc rounds) cs
      → Enough rounds (reject_pool p.pool message cs)
  Enough-reject_pool rounds p e cs message m picks h (inr silent) =
      inr (IsSilent-reject_pool p.pool message cs silent)
  Enough-reject_pool rounds p e cs [] m picks h (inl more) =
      let best = rank_candidates-IsLeast cs p picks in
      inr (record {
        pool = p.pool;
        listed = Lists-reject_pool p.pool p.pool [] cs (IsIn-Lists p cs best.member);
        thrown = e;
        fails = h;
        empty = m;
      })
  Enough-reject_pool rounds p e cs (x ∷ message) m picks h (inl more) =
      let best = rank_candidates-IsLeast cs p picks in
      let fewer =
        reject_pool-fewer p x message cs (eligible-unrefused p best.eligible) best.member in
      inl (omega (arith, more, fewer))

  -- A pick that does not resolve is refused, and the rounds go on.
  refused :
      (cs : List MarketCandidate) (s : Selection) (rounds : ℕ) (p : MarketCandidate) (e : Error)
      → Enough (suc rounds) cs
      → rank_candidates cs ≡ some p
      → resolve p.pool ≡ err e
      → authenticate resolve message_of rounds (reject_pool p.pool (message_of p.pool e) cs) ≡ ok s
      → ((ds : List MarketCandidate)
          → Enough rounds ds
          → authenticate resolve message_of rounds ds ≡ ok s
          → IsSettled ds s)
      → IsSettled cs s
  refused cs s rounds p e more picks h f go =
      let message = message_of p.pool e in
      IsSettled-later cs (reject_pool p.pool message cs) s (reject_pool-IsKept p.pool e cs h) (
        go (reject_pool p.pool message cs)
          (Enough-reject_pool rounds p e cs message refl picks h more) f)

  -- Rounds for one more than the candidates that are not refused are enough, but for a failure with
  -- an empty message.
  pub authenticate-IsSettled :
      (rounds : ℕ) (cs : List MarketCandidate) (s : Selection)
      → Enough rounds cs
      → authenticate resolve message_of rounds cs ≡ ok s
      → IsSettled cs s
  unfolding authenticate
  authenticate-IsSettled zero cs s (inl more) e = absurd (omega (arith, more))
  authenticate-IsSettled zero cs s (inr silent) e =
      subst (IsSettled cs) (ok-injective e)
        (record { kept = all-IsKept cs; outcome = inr (inr (refl, silent)) })
  authenticate-IsSettled (suc rounds) cs s more e =
      by_pick (rank_candidates cs) refl e (λ ds k f. authenticate-IsSettled rounds ds s k f)
    where
      by_answer :
          (p : MarketCandidate) (answer : Result ResolvedReference)
          → rank_candidates cs ≡ some p
          → resolve p.pool ≡ answer
          → authenticated resolve message_of
              (λ ds. authenticate resolve message_of rounds ds)
              cs
              p
              answer
            ≡ ok s
          → ((ds : List MarketCandidate)
              → Enough rounds ds
              → authenticate resolve message_of rounds ds ≡ ok s
              → IsSettled ds s)
          → IsSettled cs s
      by_answer p (ok r) picks h f go = subst (IsSettled cs) (ok-injective f) (record {
        kept = all-IsKept cs;
        outcome = inr (inl (p, r, refl, h, rank_candidates-IsBest cs p picks));
      })
      by_answer p (err discovery) picks h f go = absurd (cc f)
      by_answer p (err (policy c)) picks h f go = refused cs s rounds p (policy c) more picks h f go
      by_answer p (err range_error) picks h f go =
          refused cs s rounds p range_error more picks h f go
      by_answer p (err environment) picks h f go =
          refused cs s rounds p environment more picks h f go

      by_pick :
          (found : Option MarketCandidate)
          → rank_candidates cs ≡ found
          → picked resolve message_of (λ ds. authenticate resolve message_of rounds ds) cs found
            ≡ ok s
          → ((ds : List MarketCandidate)
              → Enough rounds ds
              → authenticate resolve message_of rounds ds ≡ ok s
              → IsSettled ds s)
          → IsSettled cs s
      by_pick none picks f go =
          subst (IsSettled cs) (ok-injective f) (record {
            kept = all-IsKept cs;
            outcome = inl (refl, rank_candidates-HasNone cs picks);
          })
      by_pick (some p) picks f go = by_answer p (resolve p.pool) picks refl f go

  pub enough : (cs : List MarketCandidate) → Enough (suc (length cs)) cs
  enough cs = inl (omega (arith, open_count-length cs))
