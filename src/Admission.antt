-- ===== src/Admission.antt =====
-- What quote-service/core.ts admits into a burn: mints and token accounts (here), Jupiter routes,
-- auxiliary instructions and lookup tables (the children).
pub mod Burnable
pub mod Route
pub mod Tables
use onchainburner.Base.{
  ℕ, Bool, true, false, not, ◌&&◌, ◌||◌, Option, none, some, List, [], ◌∷◌, length, ◌==◌,
  if◌then◌else◌,
}
use onchainburner.Base.Errors.{
  Result, ok, err, policy, ◌>>=◌, ◌>>◌, reject_if, require, invalid_mint, invalid_mint_owner,
  launch_mint_closable, target_mint_native, target_mintable, target_freezable,
  unsupported_token_2022_mint, invalid_token_account, encumbered_token_account,
  unsupported_token_2022_account,
}
use onchainburner.Chain.{
  PublicKey, wsol_mint, native_mint_2022, token_program, token_2022_program, pump_mint,
  pump_transfer_hook_authority,
}

-- `transfer_hook_program` may be undefined (`none`), null (`some none`) or a key. For the other
-- optional keys the code makes no difference between undefined and null.
pub record MintSnapshot : Type 0 where
  pub address : PublicKey
  pub owner_program : PublicKey
  pub initialized : Bool
  pub mint_authority : Option PublicKey
  pub freeze_authority : Option PublicKey
  pub close_authority : Option PublicKey
  pub extension_types : List ℕ
  pub transfer_hook_authority : Option PublicKey
  pub transfer_hook_program : Option (Option PublicKey)

pub record TokenAccountSnapshot : Type 0 where
  pub address : PublicKey
  pub owner_program : PublicKey
  pub initialized : Bool
  pub mint : PublicKey
  pub authority : PublicKey
  pub amount : ℕ
  pub is_native : Bool
  pub delegate : Option PublicKey
  pub close_authority : Option PublicKey
  pub extension_types : List ℕ

-- A key that is there, as the test of an `if`.
abbrev pub is_there : Option PublicKey → Bool
is_there none = false
is_there (some k) = true

abbrev pub same_key : Option PublicKey → PublicKey → Bool
same_key none key = false
same_key (some k) key = k == key

abbrev pub is_null : Option (Option PublicKey) → Bool
is_null none = false
is_null (some none) = true
is_null (some (some k)) = false

-- The extensions that the loop over a Token-2022 target passes over.
abbrev pub is_allowed_extension : MintSnapshot → ℕ → Bool
is_allowed_extension m extension =
    (extension == 18 || extension == 19)
    || (extension == 14
        && m.address == pump_mint
        && same_key m.transfer_hook_authority pump_transfer_hook_authority
        && is_null m.transfer_hook_program)

pub extensions_loop : MintSnapshot → List ℕ → Result (Unit {0})
extensions_loop m [] = ok tt
extensions_loop m (extension ∷ rest) = do
  reject_if (not (is_allowed_extension m extension)) unsupported_token_2022_mint
  extensions_loop m rest

-- The checks of a launch mint.
pub require_launch_mint : MintSnapshot → Result MintSnapshot
require_launch_mint m = do
  reject_if (m.owner_program == token_2022_program && is_there m.close_authority)
      launch_mint_closable
  ok m

-- The checks of a target mint.
pub require_target_mint : MintSnapshot → Result MintSnapshot
require_target_mint m = do
  reject_if (m.address == wsol_mint || m.address == native_mint_2022) target_mint_native
  reject_if (is_there m.mint_authority) target_mintable
  reject_if (is_there m.freeze_authority) target_freezable
  let extensions = extensions_loop m m.extension_types
  if m.owner_program == token_2022_program then extensions else ok tt
  ok m

pub require_allowed_mint : Option MintSnapshot → Bool → Result MintSnapshot
require_allowed_mint snapshot target = do
  m ← require snapshot (policy invalid_mint)
  reject_if (not m.initialized) invalid_mint
  reject_if (not (m.owner_program == token_program) && not (m.owner_program == token_2022_program))
      invalid_mint_owner
  if target then require_target_mint m else require_launch_mint m

pub account_extensions_loop : List ℕ → Result (Unit {0})
account_extensions_loop [] = ok tt
account_extensions_loop (extension ∷ rest) = do
  reject_if (not (extension == 7) && not (extension == 15)) unsupported_token_2022_account
  account_extensions_loop rest

abbrev pub same_flag : Bool → Bool → Bool
same_flag true b = b
same_flag false b = not b

pub require_token_account :
    Option TokenAccountSnapshot
    → (expected_address program mint authority : PublicKey) → Bool
    → Result TokenAccountSnapshot
require_token_account snapshot expected_address program mint authority native = do
  a ← require snapshot (policy invalid_token_account)
  reject_if (not (a.address == expected_address) || not a.initialized) invalid_token_account
  reject_if
      (not (a.owner_program == program)
        || not (a.mint == mint)
        || not (a.authority == authority)
        || not (same_flag a.is_native native))
      invalid_token_account
  reject_if (is_there a.delegate || is_there a.close_authority) encumbered_token_account
  let extensions = account_extensions_loop a.extension_types
  if program == token_2022_program
      then extensions
      else reject_if (not (length a.extension_types == 0)) invalid_token_account
  ok a

-- What a test unfolds.
unfoldable pub admitting : Unit {0}
unfolding require_allowed_mint require_target_mint require_launch_mint extensions_loop
    require_token_account account_extensions_loop
admitting = tt
