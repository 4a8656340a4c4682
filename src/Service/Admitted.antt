-- ===== src/Service/Admitted.antt =====
-- `buildAndSimulate`, first part: the vault and the targets are admitted.
pub mod Solvent
use onchainburner.Base.{
  ℕ, ◌+◌, ◌-◌, Bool, true, false, not, ◌&&◌, ◌||◌, Option, none, some, List, [], ◌∷◌, map, ltb,
  ◌==◌, if◌then◌else◌,
}
use onchainburner.Base.Int.{ℤ, pos, negsuc}
use onchainburner.Base.Errors.{
  Result, ok, err, policy, range_error, ◌>>=◌, ◌>>◌, reject_if, require, invalid_vault,
  insufficient_vault_balance, dust_remainder, zero_leg_amount,
}
use onchainburner.Chain.{PublicKey, Web3, wsol_mint, token_program, system_program}
use onchainburner.Split.{split_amounts}
use onchainburner.Admission.{require_allowed_mint, require_token_account}
use onchainburner.Reference.Resolve.{ResolvedReference}
use onchainburner.Service.{Gateway, RawAccount}
use onchainburner.Service.Resolved.{RequestedLeg, ResolvedRequest}

-- One of `admitted`.
pub record AdmittedLeg : Type 0 where
  pub target_mint : PublicKey
  pub bps : ℕ
  pub reference : ResolvedReference
  pub amount_in : ℕ
  pub token_program : PublicKey
  pub ata : PublicKey
  pub program_floor : ℕ

-- `!vault`, or a vault that is no bare System account.
abbrev pub is_not_bare : Option RawAccount → Bool
is_not_bare none = true
is_not_bare (some v) = not (v.owner == system_program) || not (v.data_length == 0)

module _ (w : Web3) (chain : Gateway) where
  -- "vault-admission"; the result is `wsolAta`.
  pub admit_vault : (launch_mint pda : PublicKey) (amount : ℕ) → Result PublicKey
  admit_vault launch_mint pda amount = do
    launch ← chain.get_mint launch_mint
    checked ← require_allowed_mint launch false
    found ← chain.get_raw_account pda
    reject_if (is_not_bare found) invalid_vault
    vault ← require found (policy invalid_vault)
    reject_if (ltb vault.lamports amount) insufficient_vault_balance
    rent_floor ← chain.rent_floor
    let remainder = vault.lamports - amount
    reject_if (not (remainder == 0) && ltb remainder rent_floor) dust_remainder
    let wsol_ata = w.associated_token_address wsol_mint pda token_program
    account ← chain.get_token_account wsol_ata
    admitted ← require_token_account account wsol_ata token_program wsol_mint pda true
    ok wsol_ata

  -- "target-admission" of one leg, for its amount. A negative amount, which weights of 100% never
  -- give, is an error.
  pub admit_leg : PublicKey → RequestedLeg → ℤ → Result AdmittedLeg
  admit_leg pda leg (negsuc n) = err range_error
  admit_leg pda leg (pos amount) = do
    reject_if (amount == 0) zero_leg_amount
    found ← chain.get_mint leg.target_mint
    mint ← require_allowed_mint found true
    let ata = w.associated_token_address leg.target_mint pda mint.owner_program
    account ← chain.get_token_account ata
    admitted ← require_token_account account ata mint.owner_program leg.target_mint pda false
    floor ← leg.reference.floor_for amount
    ok (record {
      target_mint = leg.target_mint;
      bps = leg.bps;
      reference = leg.reference;
      amount_in = amount;
      token_program = mint.owner_program;
      ata = ata;
      program_floor = floor;
    })

  pub admit_legs : PublicKey → List RequestedLeg → List ℤ → Result (List AdmittedLeg)
  admit_legs pda [] amounts = ok []
  admit_legs pda (leg ∷ legs) [] = err range_error
  admit_legs pda (leg ∷ legs) (amount ∷ amounts) = do
    first ← admit_leg pda leg amount
    later ← admit_legs pda legs amounts
    ok (first ∷ later)

  -- Both admissions; the amounts are divided anew.
  pub admit : ResolvedRequest → Result (PublicKey × List AdmittedLeg)
  admit r = do
    wsol_ata ← admit_vault r.launch_mint r.pda r.amount
    legs ←
        admit_legs r.pda r.requested_legs
          (split_amounts r.amount (map (λ (l : RequestedLeg). l.bps) r.requested_legs))
    ok (wsol_ata, legs)

-- What a test unfolds.
unfoldable pub admission_steps : Unit {0}
unfolding admit admit_legs admit_leg admit_vault
admission_steps = tt
