-- ===== src/Admission/Route.antt =====
-- `assertRoute` and `assertAuxiliaryInstructions` of quote-service/core.ts.
pub mod Pinned
use onchainburner.Base.{
  ℕ, ◌+◌, Bool, true, false, not, ◌&&◌, ◌||◌, Option, none, some, Bytes, codes, List, [], ◌∷◌, ◌++◌,
  length, take, get_elem?, any, list_eq, ltb, ◌==◌, if◌then◌else◌,
}
use onchainburner.Base.Errors.{
  Result, ok, err, policy, ◌>>=◌, ◌>>◌, reject_if, require, jupiter_build_failed,
  jupiter_input_mismatch, jupiter_mint_mismatch, jupiter_fee, invalid_jupiter_program,
  invalid_jupiter_instruction, invalid_jupiter_accounts, forbidden_route_signer,
  auxiliary_instruction, unsafe_setup,
}
use onchainburner.Chain.{
  PublicKey, AccountMeta, wsol_mint, token_program, associated_token_program, jupiter_program,
  jupiter_event_authority,
}
use onchainburner.Reference.Venues.{uint}

-- `data` is a base64 text, as its character codes; `accounts` is absent where it is no array.
pub record JupiterInstruction : Type 0 where
  pub program_id : PublicKey
  pub accounts : Option (List AccountMeta)
  pub payload : List ℕ

pub record PlatformFee : Type 0 where
  pub amount : Option (List ℕ)
  pub fee_bps : Option ℕ

-- A reply of Jupiter. `failed`, `cleanup` and `tip` are whether the field is truthy; `in_amount` is
-- what `BigInt` makes of the field, which may throw.
pub record JupiterBuild : Type 0 where
  pub failed : Bool
  pub swap_mode : List ℕ
  pub in_amount : Result ℕ
  pub input_mint : Option PublicKey
  pub output_mint : Option PublicKey
  pub platform_fee : Option PlatformFee
  pub swap_instruction : Option JupiterInstruction
  pub setup_instructions : List JupiterInstruction
  pub cleanup : Bool
  pub tip : Bool
  pub other_instructions : List JupiterInstruction

pub record Offsets : Type 0 where
  pub fixed : ℕ
  pub input : ℕ
  pub platform_fee : ℕ
  pub positive_slippage_fee : ℕ
  pub authority : ℕ
  pub source : ℕ
  pub destination : ℕ
  pub source_mint : ℕ
  pub destination_mint : ℕ
  pub source_token_program : ℕ
  pub destination_token_program : ℕ
  pub event_authority : ℕ
  pub program : ℕ

abbrev pub offsets : Bool → Offsets
offsets true = record {
  fixed = 12;
  input = 9;
  platform_fee = 27;
  positive_slippage_fee = 29;
  authority = 1;
  source = 2;
  destination = 5;
  source_mint = 6;
  destination_mint = 7;
  source_token_program = 8;
  destination_token_program = 9;
  event_authority = 10;
  program = 11;
}
offsets false = record {
  fixed = 10;
  input = 8;
  platform_fee = 26;
  positive_slippage_fee = 28;
  authority = 0;
  source = 1;
  destination = 2;
  source_mint = 3;
  destination_mint = 4;
  source_token_program = 5;
  destination_token_program = 6;
  event_authority = 8;
  program = 9;
}

abbrev pub route_v2_discriminator : Bytes
route_v2_discriminator = 187 ∷ 100 ∷ 250 ∷ 204 ∷ 49 ∷ 196 ∷ 175 ∷ 20 ∷ []

abbrev pub shared_route_v2_discriminator : Bytes
shared_route_v2_discriminator = 209 ∷ 152 ∷ 83 ∷ 147 ∷ 124 ∷ 254 ∷ 216 ∷ 233 ∷ []

-- `key && key !== expected`
abbrev pub is_other : Option PublicKey → PublicKey → Bool
is_other none expected = false
is_other (some key) expected = not (key == expected)

abbrev pub is_zero_text : Option (List ℕ) → Bool
is_zero_text none = false
is_zero_text (some text) = list_eq text (codes "0")

abbrev pub or_zero : Option ℕ → ℕ
or_zero none = 0
or_zero (some n) = n

abbrev pub takes_fee : Option PlatformFee → Bool
takes_fee none = false
takes_fee (some fee) = not (is_zero_text fee.amount) || not (or_zero fee.fee_bps == 0)

-- `accounts[index]?.pubkey !== key`
abbrev pub key_differs : List AccountMeta → ℕ → PublicKey → Bool
key_differs accounts index key = elim (get_elem? accounts index) [
  | none ↦ true
  | some account ↦ not (account.pubkey == key)
]

-- The loop over `expected`.
pub pins_loop : List AccountMeta → List (ℕ × PublicKey) → Result (Unit {0})
pins_loop accounts [] = ok tt
pins_loop accounts ((index, key) ∷ rest) = do
  reject_if (key_differs accounts index key) invalid_jupiter_accounts
  pins_loop accounts rest

-- `setup`
pub setup_loop : List JupiterInstruction → Result (Unit {0})
setup_loop [] = ok tt
setup_loop (instruction ∷ rest) = do
  reject_if
      (not (instruction.program_id == associated_token_program)
        || not (list_eq instruction.payload (codes "AQ==")))
      unsafe_setup
  setup_loop rest

pub assert_auxiliary_instructions : JupiterBuild → Result (List JupiterInstruction)
assert_auxiliary_instructions build = do
  reject_if (build.cleanup || build.tip || not (length build.other_instructions == 0))
      auxiliary_instruction
  setup_loop build.setup_instructions
  ok build.setup_instructions

-- `Buffer.from(text, "base64")` of Node is an argument.
module _ (from_base64 : List ℕ → Bytes)
    (pda wsol_ata target_mint target_ata target_token_program : PublicKey) (amount_in : ℕ) where
  -- The list `expected` of places and keys.
  abbrev pub expected_keys : Bool → List (ℕ × PublicKey)
  expected_keys shared =
      let o = offsets shared in
      (o.authority, pda)
      ∷ (o.source, wsol_ata)
      ∷ (o.destination, target_ata)
      ∷ (o.source_mint, wsol_mint)
      ∷ (o.destination_mint, target_mint)
      ∷ (o.source_token_program, token_program)
      ∷ (o.destination_token_program, target_token_program)
      ∷ (o.event_authority, jupiter_event_authority)
      ∷ (o.program, jupiter_program)
      ∷ (if shared then [] else (7, target_ata) ∷ [])

  -- The checks of the reply's own fields, up to the instruction's program.
  pub assert_build : JupiterBuild → Result JupiterInstruction
  assert_build build = do
    reject_if build.failed jupiter_build_failed
    reject_if (not (list_eq build.swap_mode (codes "ExactIn"))) jupiter_input_mismatch
    in_amount ← build.in_amount
    reject_if (not (in_amount == amount_in)) jupiter_input_mismatch
    reject_if (is_other build.input_mint wsol_mint) jupiter_mint_mismatch
    reject_if (is_other build.output_mint target_mint) jupiter_mint_mismatch
    reject_if (takes_fee build.platform_fee) jupiter_fee
    swap ← require build.swap_instruction (policy invalid_jupiter_program)
    reject_if (not (swap.program_id == jupiter_program)) invalid_jupiter_program
    ok swap

  -- The checks of the instruction's data; the result is `shared`.
  pub assert_route_data : Bytes → Result Bool
  assert_route_data content = do
    let shared = list_eq (take 8 content) shared_route_v2_discriminator
    reject_if (not shared && not (list_eq (take 8 content) route_v2_discriminator))
        invalid_jupiter_instruction
    let o = offsets shared
    reject_if (ltb (length content) (o.positive_slippage_fee + 6)) invalid_jupiter_instruction
    input ← uint 8 content o.input
    reject_if (not (input == amount_in)) jupiter_input_mismatch
    platform_fee ← uint 2 content o.platform_fee
    slippage_fee ← uint 2 content o.positive_slippage_fee
    reject_if (not (platform_fee == 0) || not (slippage_fee == 0)) jupiter_fee
    ok shared

  -- The checks of the instruction's accounts.
  pub assert_route_accounts : Bool → Option (List AccountMeta) → Result (Unit {0})
  assert_route_accounts shared found = do
    accounts ← require found (policy invalid_jupiter_accounts)
    reject_if (ltb (length accounts) (offsets shared).fixed) invalid_jupiter_accounts
    pins_loop accounts (expected_keys shared)
    reject_if (any (λ (a : AccountMeta). a.is_signer && not (a.pubkey == pda)) accounts)
        forbidden_route_signer
    ok tt

  pub assert_route : JupiterBuild → Result Bytes
  assert_route build = do
    swap ← assert_build build
    let content = from_base64 swap.payload
    shared ← assert_route_data content
    assert_route_accounts shared swap.accounts
    ok content

-- What a test unfolds.
unfoldable pub routing : Unit {0}
unfolding assert_route assert_route_accounts assert_route_data assert_build pins_loop
    assert_auxiliary_instructions setup_loop
routing = tt
