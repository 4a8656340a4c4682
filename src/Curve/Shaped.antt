-- ===== src/Curve/Shaped.antt =====
-- What `buildDirectCurveBuyAccounts` builds, `assertDirectCurveLegShape` lets through.
use onchainburner.Base.{
  ℕ, ◌+◌, ◌≤◌, ◌≡◌, ◌≢◌, refl, ap, ◌∙◌, or-false, some, Bytes, codes, Bool, true, false, not, ◌&&◌,
  ◌||◌, List, [], ◌∷◌, map, length, drop, take, any, ltb, ◌==◌, All, arith, ==-refl,
}
use onchainburner.Base.Errors.{
  ok, policy, reject_if, require, require-eq-ok, reject_if-eq-ok, >>=-eq-ok, ok-injective,
  reference_invalid,
}
use onchainburner.Chain.{
  PublicKey, Web3, Account, AccountMeta, pump_fun_program, pump_fee_program, system_program,
}
use onchainburner.Reference.Venues.{Reader, slice, byte_is}
use onchainburner.Curve.{
  DirectCurveBuildParams, DirectCurveLegBuild, vault_loop, derive_pump_curve, pump_pda,
  derive_bonding_curve_v2, derive_user_volume_accumulator, derive_creator_vault,
  derive_pump_fee_config, buy_accounts, build_direct_curve_buy_accounts,
  assert_direct_curve_leg_shape,
}
use mathlib.Core.Path.{subst}

-- What the program marks writable of a buy.
abbrev pub buy_writable : List Bool
buy_writable =
    false ∷ true ∷ false ∷ true ∷ true ∷ true ∷ true ∷ false ∷ false ∷ true ∷ false ∷ false ∷ false
    ∷ true ∷ false ∷ false ∷ true ∷ true ∷ []

vault_loop-eq :
    (vault : PublicKey) (index : ℕ) (accounts : List AccountMeta)
    → 7 ≤ index
    → All (λ (a : AccountMeta). a.pubkey ≢ vault) accounts
    → vault_loop vault index accounts ≡ ok tt
unfolding vault_loop
vault_loop-eq vault index [] late h = refl
vault_loop-eq vault index (a ∷ accounts) late (n, h) =
    let off : (not (index == 6) && a.pubkey == vault) ≡ false = ground (arith, n) in
    rw off (vault_loop-eq vault (index + 1) accounts (omega (arith, late)) h)

module _ (w : Web3) where
  -- The address that the Pump program derives from the seeds.
  abbrev pub pump_address : List Bytes → PublicKey
  pump_address seeds = w.find_program_address seeds pump_fun_program

  -- The keys of the buy, in order, for the creator that the curve names.
  abbrev pub buy_keys : DirectCurveBuildParams → PublicKey → List PublicKey
  buy_keys p creator =
      let curve = pump_address (codes "bonding-curve" ∷ w.to_buffer p.target_mint ∷ []) in
      pump_address (codes "global" ∷ [])
      ∷ p.fee_recipient
      ∷ p.target_mint
      ∷ curve
      ∷ w.associated_token_address p.target_mint curve p.token_program
      ∷ p.target_ata
      ∷ p.vault
      ∷ system_program
      ∷ p.token_program
      ∷ pump_address (codes "creator-vault" ∷ w.to_buffer creator ∷ [])
      ∷ pump_address (codes "__event_authority" ∷ [])
      ∷ pump_fun_program
      ∷ pump_address (codes "global_volume_accumulator" ∷ [])
      ∷ pump_address (codes "user_volume_accumulator" ∷ w.to_buffer p.vault ∷ [])
      ∷ w.find_program_address (codes "fee_config" ∷ w.to_buffer pump_fun_program ∷ [])
          pump_fee_program
      ∷ pump_fee_program
      ∷ pump_address (codes "bonding-curve-v2" ∷ w.to_buffer p.target_mint ∷ [])
      ∷ p.buyback_fee_recipient
      ∷ []

  -- The leg that buys on the curve that is read.
  pub record IsShaped (reader : Reader) (p : DirectCurveBuildParams) (accounts : List AccountMeta)
      : Type 0 where
    pub curve : Account
    pub read :
        reader (pump_address (codes "bonding-curve" ∷ w.to_buffer p.target_mint ∷ []))
        ≡ ok (some curve)
    pub owned : curve.owner ≡ pump_fun_program
    pub whole : 82 ≤ length curve.content
    pub live : byte_is curve.content 48 1 ≡ false
    pub keys :
        map (λ (a : AccountMeta). a.pubkey) accounts
        ≡ buy_keys p (w.public_key (slice curve.content 49 81))
    pub writable : map (λ (a : AccountMeta). a.is_writable) accounts ≡ buy_writable
    pub unsigned : any (λ (a : AccountMeta). a.is_signer) accounts ≡ false
    pub passes :
        All (λ (a : AccountMeta). a.pubkey ≢ p.vault) (take 6 accounts)
        → All (λ (a : AccountMeta). a.pubkey ≢ p.vault) (drop 7 accounts)
        → assert_direct_curve_leg_shape w accounts p.vault p.target_mint p.target_ata ≡ ok tt

  buy_accounts-passes :
      (p : DirectCurveBuildParams) (creator : PublicKey)
      → All (λ (a : AccountMeta). a.pubkey ≢ p.vault) (take 6 (buy_accounts w p creator))
      → All (λ (a : AccountMeta). a.pubkey ≢ p.vault) (drop 7 (buy_accounts w p creator))
      → assert_direct_curve_leg_shape w
          (buy_accounts w p creator)
          p.vault
          p.target_mint
          p.target_ata
        ≡ ok tt
  unfolding assert_direct_curve_leg_shape buy_accounts vault_loop
  buy_accounts-passes p creator (n0, (n1, (n2, (n3, (n4, (n5, _)))))) late =
      rw
        (
          ==-refl p.target_mint,
          ==-refl (derive_pump_curve w p.target_mint),
          ==-refl p.target_ata,
          ==-refl p.vault,
          differ n0,
          differ n1,
          differ n2,
          differ n3,
          differ n4,
          differ n5,
        )
        (vault_loop-eq p.vault 7 (drop 7 (buy_accounts w p creator)) (omega arith) late)
    where
      differ : {a b : ℕ} → a ≢ b → (a == b) ≡ false
      differ n = ground (arith, n)

  -- A leg that is built is for a curve account that was read, is the Pump program's and is not
  -- complete. It has the 18 accounts of the buy, each with its key in its place, the creator's vault
  -- being that of the creator in the curve's bytes 49 to 81, with the program's writability and no
  -- signer; and where no account but the seventh is the vault it passes the check of its shape.
  pub build_direct_curve-IsShaped :
      (reader : Reader) (p : DirectCurveBuildParams) (built : DirectCurveLegBuild)
      → build_direct_curve_buy_accounts w reader p ≡ ok built
      → IsShaped reader p built.accounts
  unfolding build_direct_curve_buy_accounts buy_accounts pump_pda derive_pump_curve
      derive_bonding_curve_v2 derive_user_volume_accumulator derive_creator_vault
      derive_pump_fee_config
  build_direct_curve-IsShaped reader p built e =
      let (found, there, e1) = >>=-eq-ok (reader (derive_pump_curve w p.target_mint)) _ e in
      let (curve, some_one, e2) = >>=-eq-ok (require found (policy reference_invalid)) _ e1 in
      let foreign = not (curve.owner == pump_fun_program) in
      let short = ltb (length curve.content) 82 in
      let (_, good, e3) = >>=-eq-ok (reject_if (foreign || short) reference_invalid) _ e2 in
      let (own, long) = or-false foreign short (reject_if-eq-ok (foreign || short) _ good) in
      let done = byte_is curve.content 48 1 in
      let (_, unfinished, e4) = >>=-eq-ok (reject_if done reference_invalid) _ e3 in
      let creator = w.public_key (slice curve.content 49 81) in
      let (second, _, e5) = >>=-eq-ok (reader (derive_bonding_curve_v2 w p.target_mint)) _ e4 in
      let (third, _, e6) = >>=-eq-ok (reader (derive_user_volume_accumulator w p.vault)) _ e5 in
      subst (λ (b : DirectCurveLegBuild). IsShaped reader p b.accounts) (ok-injective e6)
        (record {
          curve = curve;
          read = there ∙ ap ok (require-eq-ok found (policy reference_invalid) some_one);
          owned = ground (arith, own);
          whole = ground (arith, long);
          live = reject_if-eq-ok done reference_invalid unfinished;
          keys = refl;
          writable = refl;
          unsigned = refl;
          passes = buy_accounts-passes p creator;
        })
