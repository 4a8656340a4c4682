-- ===== src/Reference/Venues.antt =====
-- The venues of quote-service/reference.ts (`VENUES`) and reads of account data. The chain is a
-- function from keys to accounts; a read may fail.
use onchainburner.Base.{
  ℕ, zero, suc, ◌+◌, ◌-◌, ◌^◌, Bool, true, false, Option, none, some, Bytes, codes, [], ◌∷◌, length,
  take, drop, get_elem?, ltb, ◌==◌, if◌then◌else◌, read_le,
}
use onchainburner.Base.Int.{ℤ, pos, negsuc}
use onchainburner.Base.Errors.{
  Result, ok, err, policy, range_error, ◌>>=◌, ◌>>◌, reject_if, require, reference_invalid,
}
use onchainburner.Chain.{
  PublicKey, Web3, Account, pump_fun_program, pump_amm_program, raydium_v4_program,
  raydium_cp_program, raydium_clmm_program, meteora_dlmm_program,
}

abbrev pub Reader : Type 0
Reader = PublicKey → Result (Option Account)

pub data Venue : Type 0 where
  raydium_v4 raydium_cp pump_swap raydium_clmm meteora_dlmm : Venue

-- The keys of `VENUES`.
abbrev pub venue_of : PublicKey → Option Venue
venue_of owner =
    if owner == raydium_v4_program
    then some raydium_v4
    else if owner == raydium_cp_program
    then some raydium_cp
    else if owner == pump_amm_program
    then some pump_swap
    else if owner == raydium_clmm_program
    then some raydium_clmm
    else if owner == meteora_dlmm_program
    then some meteora_dlmm
    else none

-- The columns `va` and `vb` of `VENUES`.
abbrev pub vault_offset_a : Venue → ℕ
vault_offset_a raydium_v4 = 336
vault_offset_a raydium_cp = 72
vault_offset_a pump_swap = 139
vault_offset_a raydium_clmm = 137
vault_offset_a meteora_dlmm = 152

abbrev pub vault_offset_b : Venue → ℕ
vault_offset_b raydium_v4 = 368
vault_offset_b raydium_cp = 104
vault_offset_b pump_swap = 171
vault_offset_b raydium_clmm = 169
vault_offset_b meteora_dlmm = 184

-- The column `kind`.
abbrev pub is_cp : Venue → Bool
is_cp raydium_v4 = true
is_cp raydium_cp = true
is_cp pump_swap = true
is_cp raydium_clmm = false
is_cp meteora_dlmm = false

abbrev pub invalid {ℓ} : {A : Type ℓ} → Result A
invalid = err (policy reference_invalid)

abbrev pub invalid_if : Bool → Result (Unit {0})
invalid_if test = reject_if test reference_invalid

-- Reads of a buffer that throw outside it.
unfoldable pub uint : ℕ → Bytes → ℕ → Result ℕ
unfolding read_le
uint width content offset = require (read_le width content offset) range_error

abbrev pub int32 : ℕ → ℤ
int32 v = if ltb v (2 ^ 31) then pos v else negsuc (2 ^ 32 - v - 1)

abbrev pub slice : Bytes → ℕ → ℕ → Bytes
slice content from to = take (to - from) (drop from content)

-- `data[index] === value`
abbrev pub byte_is : Bytes → ℕ → ℕ → Bool
byte_is content index value = elim (get_elem? content index) [ none ↦ false | some b ↦ b == value ]

abbrev pub zeroes : ℕ → Bytes
zeroes zero = []
zeroes (suc n) = 0 ∷ zeroes n

module _ (w : Web3) (reader : Reader) where
  pub read_pk : Bytes → ℕ → PublicKey
  read_pk content offset = w.public_key (slice content offset (offset + 32))

  pub pump_curve : PublicKey → PublicKey
  pump_curve mint =
      w.find_program_address (codes "bonding-curve" ∷ w.to_buffer mint ∷ []) pump_fun_program

  -- A mint account of which `resolveCurve` and `resolvePool` read the supply.
  pub readable_mint : PublicKey → Result Account
  readable_mint mint = do
    found ← reader mint
    account ← require found (policy reference_invalid)
    invalid_if (ltb (length account.content) 44)
    ok account

-- What a test unfolds.
unfoldable pub venue_reads : Unit {0}
unfolding read_pk pump_curve readable_mint uint read_le
venue_reads = tt
