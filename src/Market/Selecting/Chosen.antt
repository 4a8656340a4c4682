-- ===== src/Market/Selecting/Chosen.antt =====
-- What `selectReference` selects, from its enumerations on.
use mathlib.Core.Path.{subst}
use mathlib.Core.List.{append-nil}
use onchainburner.Base.{
  suc, ◌≡◌, ◌≢◌, ◌⊎◌, refl, sym, ap, ◌∙◌, Option, none, some, List, [], ◌∷◌, ◌++◌, length, inl, inr,
}
use onchainburner.Base.Errors.{Error, Result, ok, err, >>=-eq-ok, ok-injective}
use onchainburner.Chain.{PublicKey}
use onchainburner.Request.{Text}
use onchainburner.Reference.Resolve.{ResolvedReference}
use onchainburner.Market.{MarketCandidate, sort, compare_depth_venue_and_pool}
use onchainburner.Market.Selecting.{
  Selection, unsupported_damm_selection, found_diagnostics, or_unsupported, authenticate, diagnosed,
  second_phase, select_market,
}
use onchainburner.Market.Selecting.Settled.{IsSettled, enough, authenticate-IsSettled}

module _ (resolve : PublicKey → Result ResolvedReference)
    (message_of : PublicKey → Error → Text) where
  -- What the diagnostics make of a failure to enumerate: nothing is chosen, and they are listed
  -- after what was seen.
  pub record IsUnsupported (seen : List MarketCandidate)
      (diagnostics found : Result (List MarketCandidate)) (s : Selection) : Type 0 where
    pub shown : List MarketCandidate
    pub detected : diagnostics ≡ ok shown
    pub some_shown : shown ≢ []
    pub thrown : Error
    pub fails : found ≡ err thrown
    pub nothing : s.chosen ≡ none
    pub listed : s.candidates ≡ seen ++ shown

  -- What the second loop makes of its end: a choice is returned, and else the diagnostics, where
  -- they were enumerated, are listed after the candidates.
  pub record IsShown (diagnostics : Result (List MarketCandidate)) (end s : Selection)
      : Type 0 where
    pub chosen : s.chosen ≡ end.chosen
    pub listed :
        ((c : MarketCandidate × ResolvedReference) × (end.chosen ≡ some c) × (s ≡ end))
        ⊎ ((end.chosen ≡ none) × (e : Error) × (diagnostics ≡ err e) × (s ≡ end))
        ⊎ ((end.chosen ≡ none)
            × (ds : List MarketCandidate) × (diagnostics ≡ ok ds)
            × (s.candidates ≡ end.candidates ++ ds))

  -- How a selection comes about.
  pub data IsSelected (diagnostics amm concentrated : Result (List MarketCandidate)) (s : Selection)
      : Type 0 where
    without_fungible :
        IsUnsupported [] diagnostics amm s → IsSelected diagnostics amm concentrated s
    fungible_chosen :
        (cs : List MarketCandidate) (c : MarketCandidate × ResolvedReference)
        → amm ≡ ok cs
        → IsSettled resolve message_of cs s
        → s.chosen ≡ some c
        → IsSelected diagnostics amm concentrated s
    without_concentrated :
        (cs : List MarketCandidate) (first : Selection)
        → amm ≡ ok cs
        → IsSettled resolve message_of cs first
        → first.chosen ≡ none
        → IsUnsupported first.candidates diagnostics concentrated s
        → IsSelected diagnostics amm concentrated s
    together :
        (cs found : List MarketCandidate) (first end : Selection)
        → amm ≡ ok cs
        → IsSettled resolve message_of cs first
        → first.chosen ≡ none
        → concentrated ≡ ok found
        → IsSettled resolve message_of
            (sort compare_depth_venue_and_pool (first.candidates ++ found))
            end
        → IsShown diagnostics end s
        → IsSelected diagnostics amm concentrated s

  or_unsupported_lem :
      (seen : List MarketCandidate) (diagnostics found : Result (List MarketCandidate))
      (next : List MarketCandidate → Result Selection) (s : Selection)
      → or_unsupported seen (found_diagnostics diagnostics) found next ≡ ok s
      → ((cs : List MarketCandidate) × (found ≡ ok cs) × (next cs ≡ ok s))
        ⊎ IsUnsupported seen diagnostics found s
  unfolding unsupported_damm_selection
  or_unsupported_lem seen diagnostics (ok cs) next s e = inl (cs, refl, e)
  or_unsupported_lem seen (err t) (err u) next s e = absurd (cc e)
  or_unsupported_lem seen (ok []) (err u) next s e = absurd (cc e)
  or_unsupported_lem seen (ok (d ∷ ds)) (err u) next s e =
      let same : record { chosen = none; candidates = seen ++ d ∷ ds } ≡ s = ok-injective e in
      inr (record {
        shown = d ∷ ds;
        detected = refl;
        some_shown = λ n. cc n;
        thrown = u;
        fails = refl;
        nothing = sym (ap (λ (x : Selection). x.chosen) same);
        listed = sym (ap (λ (x : Selection). x.candidates) same);
      })

  diagnosed-IsShown :
      (diagnostics : Result (List MarketCandidate)) (end : Selection)
      (chosen : Option (MarketCandidate × ResolvedReference))
      → end.chosen ≡ chosen
      → IsShown diagnostics end
          (diagnosed resolve message_of (found_diagnostics diagnostics) end chosen)
  unfolding unsupported_damm_selection
  diagnosed-IsShown diagnostics end (some c) h = record { chosen = refl; listed = inl (c, h, refl) }
  diagnosed-IsShown (err t) end none h = record {
    chosen = refl;
    listed = inr (inl (h, t, refl, refl));
  }
  diagnosed-IsShown (ok []) end none h = record {
    chosen = refl;
    listed = inr (inr (h, [], refl, sym (append-nil end.candidates)));
  }
  diagnosed-IsShown (ok (d ∷ ds)) end none h = record {
    chosen = sym h;
    listed = inr (inr (h, d ∷ ds, refl, refl));
  }

  -- A selection comes about in one of four ways. Where the fungible pools cannot be enumerated and
  -- there are diagnostics, nothing is chosen and those are listed. Else the fungible pools are
  -- settled, and what is chosen of them is returned; where nothing is, and the concentrated pools
  -- cannot be enumerated and there are diagnostics, nothing is chosen and both are listed; and else
  -- the two kinds are settled together, and where nothing is chosen the diagnostics, if they were
  -- enumerated, are listed after them. To settle candidates leaves each as it was, or with the
  -- message of why its reference does not resolve, cut at 200 characters; and what is chosen is the
  -- best of what is left, with the reference that resolves for it. Settling chooses nothing only
  -- where no eligible candidate of what is left is a fungible pool with at least 50 SOL of locked
  -- depth or a concentrated pool, or where the reference of a listed pool fails with an empty
  -- message; the rounds do not run out otherwise.
  pub select_market-IsSelected :
      (diagnostics amm concentrated : Result (List MarketCandidate)) (s : Selection)
      → select_market resolve message_of diagnostics amm concentrated ≡ ok s
      → IsSelected diagnostics amm concentrated s
  unfolding select_market
  select_market-IsSelected diagnostics amm concentrated s e =
      elim (or_unsupported_lem [] diagnostics amm _ s e) [
        | inr u ↦ without_fungible u
        | inl (cs, a, e1) ↦
            let (first, b, e2) =
              >>=-eq-ok (authenticate resolve message_of (suc (length cs)) cs) _ e1 in
            let settled =
              authenticate-IsSettled resolve message_of (suc (length cs)) cs first
                (enough resolve message_of cs) b in
            by_first cs first a settled first.chosen refl e2
      ]
    where
      by_first :
          (cs : List MarketCandidate) (first : Selection)
          → amm ≡ ok cs
          → IsSettled resolve message_of cs first
          → (chosen : Option (MarketCandidate × ResolvedReference)) → first.chosen ≡ chosen
          → second_phase resolve message_of
              (found_diagnostics diagnostics)
              concentrated
              first
              chosen
            ≡ ok s
          → IsSelected diagnostics amm concentrated s
      by_first cs first a settled (some c) h f =
          let same : first ≡ s = ok-injective f in
          fungible_chosen cs c a (subst (IsSettled resolve message_of cs) same settled)
            (ap (λ (x : Selection). x.chosen) (sym same) ∙ h)
      by_first cs first a settled none h f =
          elim (or_unsupported_lem first.candidates diagnostics concentrated _ s f) [
            | inr u ↦ without_concentrated cs first a settled h u
            | inl (found, b, f1) ↦
                let all = sort compare_depth_venue_and_pool (first.candidates ++ found) in
                let (end, g, f2) =
                  >>=-eq-ok (authenticate resolve message_of (suc (length all)) all) _ f1 in
                together cs found first end a settled h b
                  (authenticate-IsSettled resolve message_of (suc (length all)) all end
                    (enough resolve message_of all) g)
                  (subst (IsShown diagnostics end) (ok-injective f2)
                    (diagnosed-IsShown diagnostics end end.chosen refl))
          ]
