-- ===== src/Admission/Route/Pinned.antt =====
-- What a route that `assertRoute` lets through can do.
use onchainburner.Base.{
  or-false, not-false, ℕ, ◌+◌, ◌≡◌, ◌⊎◌, refl, sym, ap, ◌∙◌, Bool, true, false, not, ◌&&◌, ◌||◌,
  Option, some, Bytes, List, [], ◌∷◌, length, take, get_elem?, any, list_eq, ltb, ◌==◌, All, arith,
  Option-cases, inl, inr, codes,
}
use onchainburner.Base.Errors.{
  ok, policy, reject_if, require, require-eq-ok, >>=-eq-ok, ok-injective, reject_if-eq-ok,
  jupiter_build_failed, jupiter_input_mismatch, jupiter_mint_mismatch, jupiter_fee,
  invalid_jupiter_program, invalid_jupiter_instruction, invalid_jupiter_accounts,
  forbidden_route_signer, auxiliary_instruction, unsafe_setup,
}
use onchainburner.Chain.{
  PublicKey, AccountMeta, wsol_mint, token_program, jupiter_program, jupiter_event_authority,
  associated_token_program,
}
use onchainburner.Reference.Venues.{uint}
use onchainburner.Admission.Route.{
  JupiterInstruction, JupiterBuild, offsets, route_v2_discriminator, shared_route_v2_discriminator,
  is_other, takes_fee, key_differs, pins_loop, expected_keys, assert_build, assert_route_data,
  assert_route_accounts, assert_route, setup_loop, assert_auxiliary_instructions,
}
use mathlib.Core.Path.{subst}

-- The account at a place has the key.
abbrev pub KeyAt : List AccountMeta → ℕ × PublicKey → Type 0
KeyAt accounts (index, key) =
    (account : AccountMeta) × (get_elem? accounts index ≡ some account) × (account.pubkey ≡ key)

key_differs-KeyAt :
    (accounts : List AccountMeta) (index : ℕ) (key : PublicKey)
    → key_differs accounts index key ≡ false
    → KeyAt accounts (index, key)
key_differs-KeyAt accounts index key e = elim (Option-cases (get_elem? accounts index)) [
  | inl n ↦ absurd (cc (rw (n, key_differs) at e))
  | inr (account, f) ↦ (account, f, ground (arith, rw (f, key_differs) at e))
]

pins_loop-KeyAt :
    (accounts : List AccountMeta) (pins : List (ℕ × PublicKey))
    → pins_loop accounts pins ≡ ok tt
    → All (KeyAt accounts) pins
unfolding pins_loop
pins_loop-KeyAt accounts [] e = tt
pins_loop-KeyAt accounts ((index, key) ∷ pins) e =
    let (_, a, e1) =
      >>=-eq-ok (reject_if (key_differs accounts index key) invalid_jupiter_accounts) _ e in
    (
      key_differs-KeyAt accounts index key
          (reject_if-eq-ok (key_differs accounts index key) invalid_jupiter_accounts a),
      pins_loop-KeyAt accounts pins e1,
    )

module _ (from_base64 : List ℕ → Bytes)
    (pda wsol_ata target_mint target_ata target_token_program : PublicKey) (amount_in : ℕ) where
  only_signer :
      (accounts : List AccountMeta)
      → any (λ (a : AccountMeta). a.is_signer && not (a.pubkey == pda)) accounts ≡ false
      → All (λ (a : AccountMeta). a.is_signer ≡ true → a.pubkey ≡ pda) accounts
  only_signer [] e = tt
  only_signer (a ∷ accounts) e =
      ((λ s. ground (arith, e, s)), only_signer accounts (ground (arith, e)))

  -- The data begins with Jupiter's shared route, and its amounts, fees and accounts are in their
  -- places for it.
  pub record IsSharedRoute (content : Bytes) (accounts : List AccountMeta) : Type 0 where
    pub discriminator :
        list_eq (take 8 content) (209 ∷ 152 ∷ 83 ∷ 147 ∷ 124 ∷ 254 ∷ 216 ∷ 233 ∷ []) ≡ true
    pub input : uint 8 content 9 ≡ ok amount_in
    pub platform_fee : uint 2 content 27 ≡ ok 0
    pub slippage_fee : uint 2 content 29 ≡ ok 0
    pub keys : All (KeyAt accounts) (
        (1, pda)
        ∷ (2, wsol_ata)
        ∷ (5, target_ata)
        ∷ (6, wsol_mint)
        ∷ (7, target_mint)
        ∷ (8, token_program)
        ∷ (9, target_token_program)
        ∷ (10, jupiter_event_authority)
        ∷ (11, jupiter_program)
        ∷ [])

  -- The data begins with Jupiter's own route, and its amounts, fees and accounts are in their
  -- places for it.
  pub record IsRoute (content : Bytes) (accounts : List AccountMeta) : Type 0 where
    pub discriminator :
        list_eq (take 8 content) (187 ∷ 100 ∷ 250 ∷ 204 ∷ 49 ∷ 196 ∷ 175 ∷ 20 ∷ []) ≡ true
    pub input : uint 8 content 8 ≡ ok amount_in
    pub platform_fee : uint 2 content 26 ≡ ok 0
    pub slippage_fee : uint 2 content 28 ≡ ok 0
    pub keys : All (KeyAt accounts) (
        (0, pda)
        ∷ (1, wsol_ata)
        ∷ (2, target_ata)
        ∷ (3, wsol_mint)
        ∷ (4, target_mint)
        ∷ (5, token_program)
        ∷ (6, target_token_program)
        ∷ (8, jupiter_event_authority)
        ∷ (9, jupiter_program)
        ∷ (7, target_ata)
        ∷ [])

  -- The instruction of a reply and its accounts, when they are pinned.
  pub record IsPinned (build : JupiterBuild) (content : Bytes) : Type 0 where
    pub swap : JupiterInstruction
    pub accounts : List AccountMeta
    pub there : build.swap_instruction ≡ some swap
    pub jupiter : swap.program_id ≡ jupiter_program
    pub decoded : content ≡ from_base64 swap.payload
    pub listed : swap.accounts ≡ some accounts
    pub layout : IsSharedRoute content accounts ⊎ IsRoute content accounts
    pub signers : All (λ (a : AccountMeta). a.is_signer ≡ true → a.pubkey ≡ pda) accounts

  -- What the data holds, by its discriminator.
  abbrev IsKnown : Bytes → Bool → Type 0
  IsKnown content true = list_eq (take 8 content) shared_route_v2_discriminator ≡ true
  IsKnown content false = list_eq (take 8 content) route_v2_discriminator ≡ true

  known :
      (content : Bytes) (s : Bool)
      → list_eq (take 8 content) shared_route_v2_discriminator ≡ s
      → (not s && not (list_eq (take 8 content) route_v2_discriminator)) ≡ false
      → IsKnown content s
  known content true e h = e
  known content false e h = not-false (list_eq (take 8 content) route_v2_discriminator) h

  layout-lem :
      (content : Bytes) (accounts : List AccountMeta) (shared : Bool)
      → IsKnown content shared
      → uint 8 content (offsets shared).input ≡ ok amount_in
      → uint 2 content (offsets shared).platform_fee ≡ ok 0
      → uint 2 content (offsets shared).positive_slippage_fee ≡ ok 0
      → All (KeyAt accounts) (
          expected_keys from_base64 pda wsol_ata target_mint target_ata target_token_program
            amount_in shared)
      → IsSharedRoute content accounts ⊎ IsRoute content accounts
  layout-lem content accounts true d i f g k =
      inl (record { discriminator = d; input = i; platform_fee = f; slippage_fee = g; keys = k })
  layout-lem content accounts false d i f g k =
      inr (record { discriminator = d; input = i; platform_fee = f; slippage_fee = g; keys = k })

  build-lem :
      (build : JupiterBuild) {swap : JupiterInstruction}
      → assert_build from_base64 pda wsol_ata target_mint target_ata target_token_program amount_in
          build
        ≡ ok swap
      → (build.swap_instruction ≡ some swap) × (swap.program_id ≡ jupiter_program)
  unfolding assert_build
  build-lem build e =
      let (_, _, e1) = >>=-eq-ok (reject_if build.failed jupiter_build_failed) _ e in
      let (_, _, e2) =
        >>=-eq-ok
          (reject_if (not (list_eq build.swap_mode (codes "ExactIn"))) jupiter_input_mismatch) _
          e1 in
      let (n, _, e3) = >>=-eq-ok build.in_amount _ e2 in
      let (_, _, e4) = >>=-eq-ok (reject_if (not (n == amount_in)) jupiter_input_mismatch) _ e3 in
      let (_, _, e5) =
        >>=-eq-ok (reject_if (is_other build.input_mint wsol_mint) jupiter_mint_mismatch) _ e4 in
      let (_, _, e6) =
        >>=-eq-ok (reject_if (is_other build.output_mint target_mint) jupiter_mint_mismatch) _ e5 in
      let (_, _, e7) = >>=-eq-ok (reject_if (takes_fee build.platform_fee) jupiter_fee) _ e6 in
      let (s, at, e8) =
        >>=-eq-ok (require build.swap_instruction (policy invalid_jupiter_program)) _ e7 in
      let other = not (s.program_id == jupiter_program) in
      let (_, a, e9) = >>=-eq-ok (reject_if other invalid_jupiter_program) _ e8 in
      subst
        (λ (t : JupiterInstruction).
          (build.swap_instruction ≡ some t) × (t.program_id ≡ jupiter_program))
        (ok-injective e9)
        (
          require-eq-ok build.swap_instruction _ at,
          ground (arith, reject_if-eq-ok other invalid_jupiter_program a),
        )

  data-lem :
      (content : Bytes) {shared : Bool}
      → assert_route_data from_base64 pda wsol_ata target_mint target_ata target_token_program
          amount_in content
        ≡ ok shared
      → IsKnown content shared
        × (uint 8 content (offsets shared).input ≡ ok amount_in)
        × (uint 2 content (offsets shared).platform_fee ≡ ok 0)
        × (uint 2 content (offsets shared).positive_slippage_fee ≡ ok 0)
  unfolding assert_route_data
  data-lem content e =
      let s = list_eq (take 8 content) shared_route_v2_discriminator in
      let unknown = not s && not (list_eq (take 8 content) route_v2_discriminator) in
      let o = offsets s in
      let (_, k, e1) = >>=-eq-ok (reject_if unknown invalid_jupiter_instruction) _ e in
      let (_, _, e2) =
        >>=-eq-ok
          (reject_if (ltb (length content) (o.positive_slippage_fee + 6))
            invalid_jupiter_instruction)
          _ e1 in
      let (input, i, e3) = >>=-eq-ok (uint 8 content o.input) _ e2 in
      let (_, a, e4) =
        >>=-eq-ok (reject_if (not (input == amount_in)) jupiter_input_mismatch) _ e3 in
      let (fee, f, e5) = >>=-eq-ok (uint 2 content o.platform_fee) _ e4 in
      let (slip, g, e6) = >>=-eq-ok (uint 2 content o.positive_slippage_fee) _ e5 in
      let (_, b, e7) = >>=-eq-ok (reject_if (not (fee == 0) || not (slip == 0)) jupiter_fee) _ e6 in
      let c = reject_if-eq-ok (not (fee == 0) || not (slip == 0)) jupiter_fee b in
      let same : input ≡ amount_in =
        ground (arith, reject_if-eq-ok (not (input == amount_in)) jupiter_input_mismatch a) in
      let no_fee : fee ≡ 0 = ground (arith, c) in
      let no_slip : slip ≡ 0 = ground (arith, c) in
      subst
        (λ (t : Bool).
          IsKnown content t
          × (uint 8 content (offsets t).input ≡ ok amount_in)
          × (uint 2 content (offsets t).platform_fee ≡ ok 0)
          × (uint 2 content (offsets t).positive_slippage_fee ≡ ok 0))
        (ok-injective e7)
        (
          known content s refl (reject_if-eq-ok unknown invalid_jupiter_instruction k),
          i ∙ ap ok same,
          f ∙ ap ok no_fee,
          g ∙ ap ok no_slip,
        )

  accounts-lem :
      (shared : Bool) (found : Option (List AccountMeta))
      → assert_route_accounts from_base64 pda wsol_ata target_mint target_ata target_token_program
          amount_in shared found
        ≡ ok tt
      → (accounts : List AccountMeta) × (found ≡ some accounts)
        × All (KeyAt accounts) (
            expected_keys from_base64 pda wsol_ata target_mint target_ata target_token_program
              amount_in shared)
        × All (λ (a : AccountMeta). a.is_signer ≡ true → a.pubkey ≡ pda) accounts
  unfolding assert_route_accounts
  accounts-lem shared found e =
      let (accounts, at, e1) = >>=-eq-ok (require found (policy invalid_jupiter_accounts)) _ e in
      let short = ltb (length accounts) (offsets shared).fixed in
      let (_, _, e2) = >>=-eq-ok (reject_if short invalid_jupiter_accounts) _ e1 in
      let pins =
        expected_keys from_base64 pda wsol_ata target_mint target_ata target_token_program amount_in
          shared in
      let (u, p, e3) = >>=-eq-ok (pins_loop accounts pins) _ e2 in
      let foreign = any (λ (a : AccountMeta). a.is_signer && not (a.pubkey == pda)) accounts in
      let (_, q, _) = >>=-eq-ok (reject_if foreign forbidden_route_signer) _ e3 in
      (
        accounts,
        require-eq-ok found _ at,
        pins_loop-KeyAt accounts pins p,
        only_signer accounts (reject_if-eq-ok foreign forbidden_route_signer q),
      )

  -- Every reply that `assertRoute` accepts carries a Jupiter instruction, the decoded data of which
  -- is what is returned and begins with one of the two routes' discriminators. At the places of that
  -- route it takes the authorized amount and no fee, its authority is the vault, its source the
  -- vault's wrapped SOL account, its destination the target account, and the mints, token programs,
  -- event authority and program have their keys. None but the vault is asked to sign.
  pub assert_route-IsPinned :
      (build : JupiterBuild) (content : Bytes)
      → assert_route from_base64 pda wsol_ata target_mint target_ata target_token_program amount_in
          build
        ≡ ok content
      → IsPinned build content
  unfolding assert_route
  assert_route-IsPinned build content e =
      let (s, a, e1) =
        >>=-eq-ok
          (assert_build from_base64 pda wsol_ata target_mint target_ata target_token_program
            amount_in build)
          _ e in
      let (k, b, e2) =
        >>=-eq-ok
          (assert_route_data from_base64 pda wsol_ata target_mint target_ata target_token_program
            amount_in (from_base64 s.payload))
          _ e1 in
      let (u, c, e3) =
        >>=-eq-ok
          (assert_route_accounts from_base64 pda wsol_ata target_mint target_ata
            target_token_program amount_in k s.accounts)
          _ e2 in
      let (at, program) = build-lem build a in
      let (kind, input, fee, slip) = data-lem (from_base64 s.payload) b in
      let (accounts, listed, keys, signers) = accounts-lem k s.accounts c in
      subst (IsPinned build) (ok-injective e3) (record {
        swap = s;
        accounts = accounts;
        there = at;
        jupiter = program;
        decoded = refl;
        listed = listed;
        layout = layout-lem (from_base64 s.payload) accounts k kind input fee slip keys;
        signers = signers;
      })

-- An instruction that creates an associated token account where there is none, and nothing else.
pub record IsAtaSetup (instruction : JupiterInstruction) : Type 0 where
  pub program : instruction.program_id ≡ associated_token_program
  pub idempotent : list_eq instruction.payload (codes "AQ==") ≡ true

setup_loop-IsAtaSetup :
    (setup : List JupiterInstruction) → setup_loop setup ≡ ok tt → All IsAtaSetup setup
unfolding setup_loop
setup_loop-IsAtaSetup [] e = tt
setup_loop-IsAtaSetup (i ∷ setup) e =
    let other = not (i.program_id == associated_token_program) in
    let odd = not (list_eq i.payload (codes "AQ==")) in
    let (_, a, e1) = >>=-eq-ok (reject_if (other || odd) unsafe_setup) _ e in
    let (p, q) = or-false other odd (reject_if-eq-ok (other || odd) unsafe_setup a) in
    (
      record {
        program = ground (arith, p);
        idempotent = not-false (list_eq i.payload (codes "AQ==")) q;
      },
      setup_loop-IsAtaSetup setup e1,
    )

-- What `assertAuxiliaryInstructions` returns is the reply's setup, in which every instruction is an
-- idempotent creation of an associated token account; the reply has no cleanup, tip or other
-- instruction.
pub assert_auxiliary_instructions-IsAtaSetup :
    (build : JupiterBuild) (setup : List JupiterInstruction)
    → assert_auxiliary_instructions build ≡ ok setup
    → (setup ≡ build.setup_instructions)
      × All IsAtaSetup setup
      × (build.cleanup ≡ false)
      × (build.tip ≡ false)
      × (length build.other_instructions ≡ 0)
unfolding assert_auxiliary_instructions
assert_auxiliary_instructions-IsAtaSetup build setup e =
    let others = not (length build.other_instructions == 0) in
    let extra = build.cleanup || build.tip || others in
    let (_, a, e1) = >>=-eq-ok (reject_if extra auxiliary_instruction) _ e in
    let (u, b, e2) = >>=-eq-ok (setup_loop build.setup_instructions) _ e1 in
    let h = reject_if-eq-ok extra auxiliary_instruction a in
    let (h1, none_other) = or-false (build.cleanup || build.tip) others h in
    let (no_cleanup, no_tip) = or-false build.cleanup build.tip h1 in
    let same : build.setup_instructions ≡ setup = ok-injective e2 in
    (
      sym same,
      subst (All IsAtaSetup) same (setup_loop-IsAtaSetup build.setup_instructions b),
      no_cleanup,
      no_tip,
      ground (arith, none_other),
    )
