-- ===== src/Reference/Resolve/Gates.antt =====
-- What `resolveReference` promises: the cap, the depth gate, and a vault that survives graduation.
use onchainburner.Base.{
  ℕ, ◌≤◌, ◌≡◌, ◌⊎◌, inl, inr, sym, ap, ◌∙◌, not, Option, none, some, ◌==◌, if◌then◌else◌,
  Bool-cases,
}
use onchainburner.Base.Errors.{
  Result, ok, policy, require, >>=-eq-ok, ok-injective, reference_invalid, reference_migrating,
}
use onchainburner.Chain.{PublicKey, Web3, Account, pump_fun_program}
use onchainburner.Reference.{min_reference_depth_lamports}
use onchainburner.Reference.Floors.{IsFloor, floor_for_iff}
use onchainburner.Reference.Venues.{Reader, Venue, pump_swap, invalid_if, zeroes, pump_curve}
use onchainburner.Reference.Resolve.{
  ResolvedReference, is_pump_swap, pool_account, resolve_curve, canonical_pump_swap_pool,
  is_graduated, resolve_pump_venue, resolve_reference,
}
use onchainburner.Reference.Resolve.Binding.{IsPriced, resolve_curve-lem, resolve_pool-lem}
use mathlib.Core.Path.{subst}

module _ (w : Web3) (reader : Reader) where
  pump_venue-IsPriced :
      (mint : PublicKey) {r : ResolvedReference}
      → resolve_pump_venue w reader mint ≡ ok r
      → IsPriced r
  unfolding resolve_pump_venue
  pump_venue-IsPriced mint e =
      let (found, _, e1) = >>=-eq-ok (reader (pump_curve w reader mint)) _ e in
      elim (Bool-cases (is_graduated w reader found)) [
        | inl y ↦
            let pool = canonical_pump_swap_pool w reader mint in
            let (there, _, e2) = >>=-eq-ok (reader pool) _ (rw y at e1) in
            let (_, _, e3) = >>=-eq-ok (require there (policy reference_migrating)) _ e2 in
            (resolve_pool-lem w reader mint pool e3).priced
        | inr n ↦ (resolve_curve-lem w reader mint (rw n at e1)).0
      ]

  reference-IsPriced :
      (mint : PublicKey) (reference : Option PublicKey) {r : ResolvedReference}
      → resolve_reference w reader mint reference ≡ ok r
      → IsPriced r
  unfolding resolve_reference
  reference-IsPriced mint none e = pump_venue-IsPriced mint e
  reference-IsPriced mint (some reference) e =
      let (found, _, e1) = >>=-eq-ok (reader reference) _ e in
      let (account, _, e2) = >>=-eq-ok (require found (policy reference_invalid)) _ e1 in
      elim (Bool-cases (account.owner == pump_fun_program)) [
        | inl y ↦
            let (made, at, e3) = >>=-eq-ok (resolve_curve w reader mint) _ (rw y at e2) in
            let (_, _, e4) = >>=-eq-ok (invalid_if (not (made.pool == reference))) _ e3 in
            subst IsPriced (ok-injective e4) (resolve_curve-lem w reader mint at).0
        | inr n ↦ (resolve_pool-lem w reader mint reference (rw n at e2)).priced
      ]

  -- Whatever a resolved reference gives a floor for is within the cap that it reports, and a
  -- reference whose seed is not the sentinel of Pump's venue gives floors only at a depth of 50 SOL
  -- or more.
  pub resolve_reference-gates :
      (mint : PublicKey) (reference : Option PublicKey) (r : ResolvedReference)
      → resolve_reference w reader mint reference ≡ ok r
      → (amount f : ℕ) → r.floor_for amount ≡ ok f
      → (amount ≤ r.cap_lamports)
        × ((r.seed ≡ zeroes 32) ⊎ (min_reference_depth_lamports ≤ r.depth_lamports))
  resolve_reference-gates mint reference r e amount f given =
      let p = reference-IsPriced mint reference e in
      let v : IsFloor p.state r.cap_lamports amount f =
        (floor_for_iff p.state r.cap_lamports amount f).0
          (sym (ap (λ (g : ℕ → Result ℕ). g amount) p.floor) ∙ given) in
      (
        v.within,
        elim p.bound [ inl sentinel ↦ inl sentinel | inr gated ↦ inr (rw p.depth (v.deep gated)) ],
      )

  -- While the account of the canonical pool, where there is one, belongs to PumpSwap, a burn on
  -- Pump's venue resolves to the zero sentinel before and after the coin graduates.
  pub resolve_reference-sentinel :
      (mint : PublicKey) (r : ResolvedReference)
      → ((account : Account) (venue : Venue)
          → pool_account w reader (canonical_pump_swap_pool w reader mint) ≡ ok (account, venue)
          → venue ≡ pump_swap)
      → resolve_reference w reader mint none ≡ ok r
      → r.seed ≡ zeroes 32
  unfolding resolve_reference resolve_pump_venue
  resolve_reference-sentinel mint r canonical e =
      let (found, _, e1) = >>=-eq-ok (reader (pump_curve w reader mint)) _ e in
      elim (Bool-cases (is_graduated w reader found)) [
        | inl y ↦
            let pool = canonical_pump_swap_pool w reader mint in
            let (there, _, e2) = >>=-eq-ok (reader pool) _ (rw y at e1) in
            let (_, _, e3) = >>=-eq-ok (require there (policy reference_migrating)) _ e2 in
            let q = resolve_pool-lem w reader mint pool e3 in
            q.seed
            ∙ ap (λ v. if is_pump_swap v then zeroes 32 else w.to_buffer pool)
                (canonical q.account q.venue q.read)
        | inr n ↦ (resolve_curve-lem w reader mint (rw n at e1)).1
      ]
