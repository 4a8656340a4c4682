-- ===== src/Reference/Resolve/Binding.antt =====
-- What a resolved reference binds: its seed, its depth gate and its cap.
use onchainburner.Base.{
  ℕ, ◌*◌, ◌/◌, ◌≡◌, ◌⊎◌, inl, inr, refl, true, false, not, ◌||◌, length, ltb, ◌==◌, if◌then◌else◌,
  list_eq, Bool-cases,
}
use onchainburner.Base.Errors.{
  Result, ok, policy, require, >>=-eq-ok, ok-injective, reference_invalid,
}
use onchainburner.Chain.{PublicKey, Web3, Account, pump_fun_program}
use onchainburner.Reference.{curve, FloorState, floor_for, fee_cap, make_floor}
use onchainburner.Reference.Venues.{
  Reader, Venue, invalid_if, uint, slice, byte_is, zeroes, pump_curve, readable_mint,
}
use onchainburner.Reference.PumpFees.{pump_fee_config}
use onchainburner.Reference.PoolState.{pool_fee, pool_pricing}
use onchainburner.Reference.Resolve.{
  ResolvedReference, is_pump_swap, pool_account, pool_vaults, pool_state, resolve_curve,
  resolve_pool,
}
use mathlib.Core.Path.{subst}

-- The floor of a reference is that of some state, which is gated unless the seed is the sentinel.
pub record IsPriced (r : ResolvedReference) : Type 0 where
  pub state : FloorState
  pub floor : r.floor_for ≡ floor_for state r.cap_lamports
  pub depth : r.depth_lamports ≡ state.reserve_sol
  pub bound : (r.seed ≡ zeroes 32) ⊎ (state.depth_gated ≡ true)

make_floor-eq-ok :
    (s : FloorState) {out : ℕ × (ℕ → Result ℕ)} → make_floor s ≡ ok out → out.1 ≡ floor_for s out.0
unfolding make_floor
make_floor-eq-ok s e =
    let (cap, _, e1) = >>=-eq-ok (fee_cap s.reserve_sol s.fee) _ e in
    subst (λ (o : ℕ × (ℕ → Result ℕ)). o.1 ≡ floor_for s o.0) (ok-injective e1) refl

module _ (w : Web3) (reader : Reader) where
  pub resolve_curve-lem :
      (mint : PublicKey) {r : ResolvedReference}
      → resolve_curve w reader mint ≡ ok r
      → IsPriced r × (r.seed ≡ zeroes 32)
  unfolding resolve_curve
  resolve_curve-lem mint e =
      let (found, _, e1) = >>=-eq-ok (reader (pump_curve w reader mint)) _ e in
      let (account, _, e2) = >>=-eq-ok (require found (policy reference_invalid)) _ e1 in
      let content = account.content in
      let (_, _, e3) =
        >>=-eq-ok (invalid_if (not (account.owner == pump_fun_program) || ltb (length content) 82))
          _ e2 in
      let (_, _, e4) = >>=-eq-ok (invalid_if (byte_is content 48 1)) _ e3 in
      let (token, _, e5) = >>=-eq-ok (uint 8 content 8) _ e4 in
      let (sol, _, e6) = >>=-eq-ok (uint 8 content 16) _ e5 in
      let (_, _, e7) = >>=-eq-ok (invalid_if (token == 0 || sol == 0)) _ e6 in
      let (mint_account, _, e8) = >>=-eq-ok (readable_mint w reader mint) _ e7 in
      let (supply, _, e9) =
        >>=-eq-ok
          (if byte_is content 81 0
            then ok 1_000_000_000_000_000
            else uint 8 mint_account.content 36)
          _ e8 in
      let (fee, _, e10) =
        >>=-eq-ok
          (pump_fee_config w reader pump_fun_program (sol * supply / token) false
            (not (list_eq (slice content 49 81) (zeroes 32))))
          _ e9 in
      let s : FloorState = record {
        pricing = curve;
        fee = fee.0;
        reserve_token = token;
        reserve_sol = sol;
        depth_gated = false;
      } in
      let (floor, made, e11) = >>=-eq-ok (make_floor s) _ e10 in
      subst (λ (r : ResolvedReference). IsPriced r × (r.seed ≡ zeroes 32)) (ok-injective e11)
        (
          record { state = s; floor = make_floor-eq-ok s made; depth = refl; bound = inl refl },
          refl,
        )

  -- A pool's reference, with the venue that its owner is.
  pub record IsPool (pool : PublicKey) (r : ResolvedReference) : Type 0 where
    pub account : Account
    pub venue : Venue
    pub read : pool_account w reader pool ≡ ok (account, venue)
    pub priced : IsPriced r
    pub seed : r.seed ≡ (if is_pump_swap venue then zeroes 32 else w.to_buffer pool)

  pub resolve_pool-lem :
      (mint pool : PublicKey) {r : ResolvedReference}
      → resolve_pool w reader mint pool ≡ ok r
      → IsPool pool r
  unfolding resolve_pool
  resolve_pool-lem mint pool e =
      let (read, at, e1) = >>=-eq-ok (pool_account w reader pool) _ e in
      let account = read.0 in
      let venue = read.1 in
      let (vaults, _, e2) = >>=-eq-ok (pool_vaults w reader mint account venue) _ e1 in
      let token = vaults.0 in
      let sol = vaults.1 in
      let (fee, _, e3) =
        >>=-eq-ok
          (pool_fee w reader venue (record {
            pool = pool;
            owner = account.owner;
            content = account.content;
            target_mint = mint;
            token_amount = token.amount;
            sol_amount = sol.amount;
          }))
          _ e2 in
      let (_, _, e4) =
        >>=-eq-ok
          (invalid_if (fee.fee.num == 0 || fee.fee.den == 0 || not (ltb fee.fee.num fee.fee.den))) _
          e3 in
      let (pricing, _, e5) = >>=-eq-ok (pool_pricing w reader venue account.content) _ e4 in
      let s = pool_state w reader venue fee.fee pricing token.amount fee.depth in
      let (floor, made, e6) = >>=-eq-ok (make_floor s) _ e5 in
      subst (IsPool pool) (ok-injective e6) (record {
        account = account;
        venue = venue;
        read = at;
        priced = record {
          state = s;
          floor = make_floor-eq-ok s made;
          depth = refl;
          bound = gate venue pool;
        };
        seed = refl;
      })
    where
      gate :
          (v : Venue) (p : PublicKey)
          → ((if is_pump_swap v then zeroes 32 else w.to_buffer p) ≡ zeroes 32)
            ⊎ (not (is_pump_swap v) ≡ true)
      gate v p = elim (Bool-cases (is_pump_swap v)) [
        | inl e ↦ inl (rw e refl)
        | inr e ↦ inr (rw e refl)
      ]
