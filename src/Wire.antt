-- ===== src/Wire.antt =====
-- The burn instruction of quote-service/core.ts: `splitData` and `buildBurnInstruction`.

pub mod Layout
pub mod Shape
use onchainburner.Base.{
  ℕ, ◌+◌, Bool, true, false, Bytes, List, [], ◌∷◌, ◌++◌, map, length, ltb, write_le,
}
use onchainburner.Base.Errors.{Result, ok, err, ◌>>=◌, ◌>>◌, reject_if, too_many_route_accounts}
use onchainburner.Chain.{
  PublicKey, AccountMeta, Instruction, LookupTable, system_program, token_program, jupiter_program,
}
use mathlib.Core.List.{flat_map}

-- The four accounts of `ResolvedReference` that a burn carries.
pub record ReferenceBlock : Type 0 where
  pub pool : PublicKey
  pub vault_a : PublicKey
  pub vault_b : PublicKey
  pub fee_source : PublicKey

pub record PreparedLeg : Type 0 where
  pub target_mint : PublicKey
  pub target_token_program : PublicKey
  pub target_ata : PublicKey
  pub bps : ℕ
  pub amount_in : ℕ
  pub minimum_output : ℕ
  pub reference : ReferenceBlock
  pub route_accounts : List AccountMeta
  pub route_data : Bytes
  pub lookup_tables : List LookupTable

abbrev pub split_discriminator : Bytes
split_discriminator = 157 ∷ 45 ∷ 186 ∷ 225 ∷ 142 ∷ 17 ∷ 2 ∷ 105 ∷ []

-- The header of 15 bytes and the route data of one leg: what one round of `splitData` appends.
leg_data : PreparedLeg → Result Bytes
leg_data leg = do
  reject_if (ltb 255 (length leg.route_accounts)) too_many_route_accounts
  bps ← write_le 2 leg.bps
  minimum ← write_le 8 leg.minimum_output
  count ← write_le 1 (length leg.route_accounts)
  size ← write_le 4 (length leg.route_data)
  ok (bps ++ (minimum ++ (count ++ (size ++ leg.route_data))))

legs_data : List PreparedLeg → Result Bytes
legs_data [] = ok []
legs_data (leg ∷ legs) = do first ← leg_data leg; later ← legs_data legs; ok (first ++ later)

pub split_data : ℕ → List PreparedLeg → Result Bytes
split_data total legs = do
  amount ← write_le 8 total
  count ← write_le 4 (length legs)
  body ← legs_data legs
  ok (split_discriminator ++ (amount ++ (count ++ body)))

abbrev pub plain : PublicKey → AccountMeta
plain key = record { pubkey = key; is_signer = false; is_writable = false }

abbrev pub writable : PublicKey → AccountMeta
writable key = record { pubkey = key; is_signer = false; is_writable = true }

-- The seven accounts of one leg.
unfoldable pub leg_keys : PreparedLeg → List AccountMeta
leg_keys leg =
    writable leg.target_mint
    ∷ writable leg.target_ata
    ∷ plain leg.target_token_program
    ∷ plain leg.reference.pool
    ∷ plain leg.reference.vault_a
    ∷ plain leg.reference.vault_b
    ∷ plain leg.reference.fee_source
    ∷ []

-- A route account loses its signature, and keeps its writability.
unfoldable pub route_keys : PreparedLeg → List AccountMeta
route_keys leg =
    map (λ a. record { pubkey = a.pubkey; is_signer = false; is_writable = a.is_writable })
      leg.route_accounts

-- The eight accounts in front of the legs.
unfoldable pub fixed_keys :
    (burner_program fee_payer launch_mint pda wsol_ata : PublicKey) → List AccountMeta
fixed_keys burner_program fee_payer launch_mint pda wsol_ata =
    record { pubkey = fee_payer; is_signer = true; is_writable = false }
    ∷ plain burner_program
    ∷ writable pda
    ∷ writable wsol_ata
    ∷ plain launch_mint
    ∷ plain system_program
    ∷ plain token_program
    ∷ plain jupiter_program
    ∷ []

unfoldable pub burn_keys :
    (burner_program fee_payer launch_mint pda wsol_ata : PublicKey)
    → List PreparedLeg
    → List AccountMeta
burn_keys burner_program fee_payer launch_mint pda wsol_ata legs =
    fixed_keys burner_program fee_payer launch_mint pda wsol_ata
    ++ (flat_map leg_keys legs ++ flat_map route_keys legs)

pub build_burn_instruction :
    (burner_program fee_payer launch_mint pda wsol_ata : PublicKey) (amount : ℕ)
    → List PreparedLeg
    → Result Instruction
build_burn_instruction burner_program fee_payer launch_mint pda wsol_ata amount legs = do
  payload ← split_data amount legs
  ok (record {
    program_id = burner_program;
    keys = burn_keys burner_program fee_payer launch_mint pda wsol_ata legs;
    content = payload;
  })

-- What a test unfolds.
unfoldable pub building : Unit {0}
unfolding build_burn_instruction burn_keys split_data legs_data leg_data write_le leg_keys
    route_keys fixed_keys flat_map
building = tt
