-- ===== src/Chain/Types.antt =====
-- Keys, accounts and instructions as the programs of quote-service/ see them.
-- A public key is a number that stands for its 32 bytes; its base58 text is the key itself. What
-- @solana/web3.js and @solana/spl-token compute is the record `Web3`, an argument of the model.
use onchainburner.Base.{ℕ, Bool, Bytes, List, Option}

abbrev pub PublicKey : Type 0
PublicKey = ℕ

-- The libraries' functions on keys.
pub record Web3 : Type 0 where
  -- `new PublicKey(bytes)`
  pub public_key : Bytes → PublicKey
  -- `key.toBuffer()`
  pub to_buffer : PublicKey → Bytes
  -- `PublicKey.findProgramAddressSync(seeds, program)[0]`
  pub find_program_address : List Bytes → PublicKey → PublicKey
  -- `getAssociatedTokenAddressSync(mint, owner, true, program)`
  pub associated_token_address : PublicKey → PublicKey → PublicKey → PublicKey

-- `{ owner, data, lamports? }` of an account read.
pub record Account : Type 0 where
  pub owner : PublicKey
  pub content : Bytes
  pub lamports : Option ℕ

pub record AccountMeta : Type 0 where
  pub pubkey : PublicKey
  pub is_signer : Bool
  pub is_writable : Bool

pub record Instruction : Type 0 where
  pub program_id : PublicKey
  pub keys : List AccountMeta
  pub content : Bytes

pub record LookupTable : Type 0 where
  pub key : PublicKey
  pub deactivation_slot : ℕ
  pub addresses : List PublicKey
