-- ===== src/Curve.antt =====
-- quote-service/directcurve.ts: the leg that buys on Pump's bonding curve without Jupiter.
pub mod Shaped
use onchainburner.Base.{
  ℕ, ◌+◌, Bool, true, false, not, ◌&&◌, ◌||◌, Option, none, some, Bytes, codes, List, [], ◌∷◌, ◌++◌,
  length, get_elem?, any, ltb, leb, ◌==◌, if◌then◌else◌,
}
use onchainburner.Base.Errors.{
  Result, ok, err, policy, ◌>>=◌, ◌>>◌, reject_if, require, reference_invalid, direct_curve_shape,
}
use onchainburner.Chain.{
  PublicKey, Web3, Account, AccountMeta, pump_fun_program, pump_fee_program, system_program,
}
use onchainburner.Reference.Venues.{Reader, slice, byte_is}

pub record DirectCurveBuildParams : Type 0 where
  pub vault : PublicKey
  pub target_mint : PublicKey
  pub token_program : PublicKey
  pub target_ata : PublicKey
  pub fee_recipient : PublicKey
  pub buyback_fee_recipient : PublicKey

-- The two kinds of `missingSetup`, by the account that is not ready.
pub data Setup : Type 0 where
  fund_bonding_curve_v2 init_user_volume_accumulator : PublicKey → Setup

pub record DirectCurveLegBuild : Type 0 where
  pub accounts : List AccountMeta
  pub missing_setup : List Setup

abbrev pub bonding_curve_v2_rent_floor : ℕ
bonding_curve_v2_rent_floor = 890_880

abbrev pub unsigned : PublicKey → Bool → AccountMeta
unsigned key is_writable = record { pubkey = key; is_signer = false; is_writable = is_writable }

-- `lamports === undefined || lamports >= BONDING_CURVE_V2_RENT_FLOOR`
abbrev pub is_funded : Option ℕ → Bool
is_funded none = true
is_funded (some n) = leb bonding_curve_v2_rent_floor n

abbrev pub bonding_curve_v2_ready : Option Account → Bool
bonding_curve_v2_ready none = false
bonding_curve_v2_ready (some account) =
    account.owner == pump_fun_program || is_funded account.lamports

abbrev pub accumulator_ready : Option Account → Bool
accumulator_ready none = false
accumulator_ready (some account) = account.owner == pump_fun_program

-- `accounts[index].pubkey !== key`, behind the test of the length.
abbrev pub key_differs : List AccountMeta → ℕ → PublicKey → Bool
key_differs accounts index key = elim (get_elem? accounts index) [
  | none ↦ true
  | some account ↦ not (account.pubkey == key)
]

-- The loop that looks for the vault off its place.
pub vault_loop : PublicKey → ℕ → List AccountMeta → Result (Unit {0})
vault_loop vault index [] = ok tt
vault_loop vault index (account ∷ rest) = do
  reject_if (not (index == 6) && account.pubkey == vault) direct_curve_shape
  vault_loop vault (index + 1) rest

module _ (w : Web3) where
  pub pump_pda : List Bytes → PublicKey
  pump_pda seeds = w.find_program_address seeds pump_fun_program

  pub derive_pump_curve : PublicKey → PublicKey
  derive_pump_curve mint = pump_pda (codes "bonding-curve" ∷ w.to_buffer mint ∷ [])

  pub derive_bonding_curve_v2 : PublicKey → PublicKey
  derive_bonding_curve_v2 mint = pump_pda (codes "bonding-curve-v2" ∷ w.to_buffer mint ∷ [])

  pub derive_user_volume_accumulator : PublicKey → PublicKey
  derive_user_volume_accumulator user =
      pump_pda (codes "user_volume_accumulator" ∷ w.to_buffer user ∷ [])

  pub derive_creator_vault : PublicKey → PublicKey
  derive_creator_vault creator = pump_pda (codes "creator-vault" ∷ w.to_buffer creator ∷ [])

  pub derive_pump_fee_config : PublicKey
  derive_pump_fee_config =
      w.find_program_address (codes "fee_config" ∷ w.to_buffer pump_fun_program ∷ [])
        pump_fee_program

  -- The list of accounts, from the creator that the curve names.
  pub buy_accounts : DirectCurveBuildParams → PublicKey → List AccountMeta
  buy_accounts p creator =
      let curve = derive_pump_curve p.target_mint in
      unsigned (pump_pda (codes "global" ∷ [])) false
      ∷ unsigned p.fee_recipient true
      ∷ unsigned p.target_mint false
      ∷ unsigned curve true
      ∷ unsigned (w.associated_token_address p.target_mint curve p.token_program) true
      ∷ unsigned p.target_ata true
      ∷ unsigned p.vault true
      ∷ unsigned system_program false
      ∷ unsigned p.token_program false
      ∷ unsigned (derive_creator_vault creator) true
      ∷ unsigned (pump_pda (codes "__event_authority" ∷ [])) false
      ∷ unsigned pump_fun_program false
      ∷ unsigned (pump_pda (codes "global_volume_accumulator" ∷ [])) false
      ∷ unsigned (derive_user_volume_accumulator p.vault) true
      ∷ unsigned derive_pump_fee_config false
      ∷ unsigned pump_fee_program false
      ∷ unsigned (derive_bonding_curve_v2 p.target_mint) true
      ∷ unsigned p.buyback_fee_recipient true
      ∷ []

  pub build_direct_curve_buy_accounts : Reader → DirectCurveBuildParams → Result DirectCurveLegBuild
  build_direct_curve_buy_accounts reader p = do
    found ← reader (derive_pump_curve p.target_mint)
    curve ← require found (policy reference_invalid)
    reject_if (not (curve.owner == pump_fun_program) || ltb (length curve.content) 82)
        reference_invalid
    reject_if (byte_is curve.content 48 1) reference_invalid
    let creator = w.public_key (slice curve.content 49 81)
    let bonding_curve_v2 = derive_bonding_curve_v2 p.target_mint
    second ← reader bonding_curve_v2
    let accumulator = derive_user_volume_accumulator p.vault
    third ← reader accumulator
    ok (record {
      accounts = buy_accounts p creator;
      missing_setup =
          (if bonding_curve_v2_ready second
            then []
            else fund_bonding_curve_v2 bonding_curve_v2 ∷ [])
          ++ (if accumulator_ready third
              then []
              else init_user_volume_accumulator accumulator ∷ []);
    })

  pub assert_direct_curve_leg_shape :
      List AccountMeta → (vault target_mint target_ata : PublicKey) → Result (Unit {0})
  assert_direct_curve_leg_shape accounts vault target_mint target_ata = do
    reject_if (ltb (length accounts) 18 || ltb 25 (length accounts)) direct_curve_shape
    reject_if (any (λ (a : AccountMeta). a.is_signer) accounts) direct_curve_shape
    reject_if
        (key_differs accounts 2 target_mint
          || key_differs accounts 3 (derive_pump_curve target_mint)
          || key_differs accounts 5 target_ata
          || key_differs accounts 6 vault)
        direct_curve_shape
    vault_loop vault 0 accounts

-- What a test unfolds.
unfoldable pub curve_steps : Unit {0}
unfolding build_direct_curve_buy_accounts assert_direct_curve_leg_shape buy_accounts vault_loop
    derive_pump_fee_config derive_creator_vault derive_user_volume_accumulator
    derive_bonding_curve_v2 derive_pump_curve pump_pda
curve_steps = tt
