-- ===== src/Vault/Migration.antt =====
-- The app and the service derive the same vault.
use onchainburner.Base.{
  ◌≡◌, refl, sym, ap, ◌∙◌, Bool, false, Option, none, some, List, [], ◌∷◌, map, if◌then◌else◌, All,
  ◌==◌,
}
use onchainburner.Base.Errors.{ok, policy, require, >>=-eq-ok, require-eq-ok, reference_invalid}
use onchainburner.Chain.{PublicKey, Web3, Account, burner_program, pump_fun_program}
use onchainburner.Reference.Venues.{Reader, Venue, pump_swap, zeroes}
use onchainburner.Reference.Resolve.{
  ResolvedReference, is_pump_swap, pool_account, resolve_reference, canonical_pump_swap_pool,
}
use onchainburner.Reference.Resolve.Binding.{resolve_pool-lem}
use onchainburner.Reference.Resolve.Gates.{resolve_reference-sentinel}
use onchainburner.Vault.{SeededLeg, ClientLeg, derive_vault, client_seed, derive_split_pda}

-- A leg of the app with what the service resolves for it.
pub record Quoted : Type 0 where
  pub leg : ClientLeg
  pub resolved : ResolvedReference

abbrev pub seeded : Quoted → SeededLeg
seeded q = record { target_mint = q.leg.mint; bps = q.leg.bps; ref_seed = q.resolved.seed }

module _ (w : Web3) (reader : Reader) where
  -- The leg prices at Pump's venue, or names a pool of another venue.
  pub data Venued : PublicKey → Option PublicKey → Type 0 where
    at_pump :
        {mint : PublicKey}
        → ((account : Account) (venue : Venue)
            → pool_account w reader (canonical_pump_swap_pool w reader mint) ≡ ok (account, venue)
            → venue ≡ pump_swap)
        → Venued mint none
    at_pool :
        {mint pool : PublicKey}
        → ((account : Account)
            → reader pool ≡ ok (some account)
            → (account.owner == pump_fun_program) ≡ false)
        → ((account : Account) (venue : Venue)
            → pool_account w reader pool ≡ ok (account, venue)
            → is_pump_swap venue ≡ false)
        → Venued mint (some pool)

  pub record IsQuoted (q : Quoted) : Type 0 where
    pub venued : Venued q.leg.mint q.leg.ref
    pub resolves : resolve_reference w reader q.leg.mint q.leg.ref ≡ ok q.resolved

  seed-client_seed :
      (mint : PublicKey) (ref : Option PublicKey) (r : ResolvedReference)
      → Venued mint ref
      → resolve_reference w reader mint ref ≡ ok r
      → client_seed w ref ≡ r.seed
  unfolding resolve_reference
  seed-client_seed mint none r (at_pump canonical) e =
      sym (resolve_reference-sentinel w reader mint r canonical e)
  seed-client_seed mint (some pool) r (at_pool other venued) e =
      let (found, read, e1) = >>=-eq-ok (reader pool) _ e in
      let (account, there, e2) = >>=-eq-ok (require found (policy reference_invalid)) _ e1 in
      let n = other account (read ∙ ap ok (require-eq-ok found _ there)) in
      let q = resolve_pool-lem w reader mint pool (rw n at e2) in
      sym (
        q.seed
        ∙ ap (λ (b : Bool). if b then zeroes 32 else w.to_buffer pool)
            (venued q.account q.venue q.read))

  -- For legs that price at Pump's venue or name a pool of another venue, the address that the app
  -- derives from its own legs is the one that the service derives from what it has resolved.
  pub derive_split_pda-derive_vault :
      (launch_mint : PublicKey) (quoted : List Quoted)
      → All IsQuoted quoted
      → derive_split_pda w launch_mint (map (λ (q : Quoted). q.leg) quoted)
        ≡ derive_vault w burner_program launch_mint (map seeded quoted)
  unfolding derive_split_pda derive_vault
  derive_split_pda-derive_vault launch_mint quoted all =
      rw (mints quoted, weights quoted, seeds quoted all) refl
    where
      mints :
          (l : List Quoted)
          → map (λ (l : ClientLeg). w.to_buffer l.mint) (map (λ (q : Quoted). q.leg) l)
            ≡ map (λ (l : SeededLeg). w.to_buffer l.target_mint) (map seeded l)
      mints [] = refl
      mints (q ∷ l) = ap (λ k. w.to_buffer q.leg.mint ∷ k) (mints l)

      weights :
          (l : List Quoted)
          → map (λ (l : ClientLeg). l.bps) (map (λ (q : Quoted). q.leg) l)
            ≡ map (λ (l : SeededLeg). l.bps) (map seeded l)
      weights [] = refl
      weights (q ∷ l) = ap (λ k. q.leg.bps ∷ k) (weights l)

      seeds :
          (l : List Quoted)
          → All IsQuoted l
          → map (λ (l : ClientLeg). client_seed w l.ref) (map (λ (q : Quoted). q.leg) l)
            ≡ map (λ (l : SeededLeg). l.ref_seed) (map seeded l)
      seeds [] all = refl
      seeds (q ∷ l) (h, all) =
          rw (seed-client_seed q.leg.mint q.leg.ref q.resolved h.venued h.resolves, seeds l all)
            refl
