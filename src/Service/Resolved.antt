-- ===== src/Service/Resolved.antt =====
-- `resolveRequest`: the request, the references of its legs, their floors and the vault.
pub mod Funded
use onchainburner.Base.{
  ℕ, ◌-◌, Bool, true, false, ◌||◌, Option, none, some, List, [], ◌∷◌, map, ltb, ◌==◌,
}
use onchainburner.Base.Int.{ℤ, pos, negsuc}
use onchainburner.Base.Errors.{
  Result, ok, err, policy, environment, range_error, ◌>>=◌, ◌>>◌, reject_if, require, map_result,
  notional_limit, target_mint_native, zero_leg_amount,
}
use onchainburner.Chain.{PublicKey, Web3, wsol_mint, native_mint_2022}
use onchainburner.Split.{split_amounts}
use onchainburner.Vault.{SeededLeg, derive_vault}
use onchainburner.Request.{Text, Json, BurnLegRequest, BurnRequest, parse_burn_request, decimal}
use onchainburner.Reference.Venues.{Reader}
use onchainburner.Reference.Resolve.{ResolvedReference, resolve_reference}

-- One of `requestedLegs`.
pub record RequestedLeg : Type 0 where
  pub target_mint : PublicKey
  pub bps : ℕ
  pub reference : ResolvedReference

pub record ResolvedRequest : Type 0 where
  pub request : BurnRequest
  pub launch_mint : PublicKey
  pub amount : ℕ
  pub requested_legs : List RequestedLeg
  pub pda : PublicKey

-- A leg of the request, as keys.
pub record KeyedLeg : Type 0 where
  pub target_mint : PublicKey
  pub bps : ℕ
  pub reference : Option PublicKey

abbrev pub is_some : Option PublicKey → Bool
is_some none = false
is_some (some k) = true

-- The floor of a leg's amount. Amounts of weights that sum to 100% are never negative.
abbrev pub leg_floor : ResolvedReference → ℤ → Result ℕ
leg_floor reference (pos n) = do reject_if (n == 0) zero_leg_amount; reference.floor_for n
leg_floor reference (negsuc n) = err range_error

-- The floors of the legs, each with its amount.
pub leg_floors : List RequestedLeg → List ℤ → Result (List ℕ)
leg_floors [] amounts = ok []
leg_floors (leg ∷ legs) [] = err range_error
leg_floors (leg ∷ legs) (amount ∷ amounts) = do
  floor ← leg_floor leg.reference amount
  floors ← leg_floors legs amounts
  ok (floor ∷ floors)

abbrev pub seeded_leg : RequestedLeg → SeededLeg
seeded_leg leg = record {
  target_mint = leg.target_mint;
  bps = leg.bps;
  ref_seed = leg.reference.seed;
}

-- `new PublicKey(text)` is an argument; the chain's reads are another.
module _ (w : Web3) (public_key_of : Text → Option PublicKey) (reader : Reader) where
  abbrev pub key_of : Text → Result PublicKey
  key_of t = require (public_key_of t) environment

  abbrev pub optional_key : Option Text → Result (Option PublicKey)
  optional_key none = ok none
  optional_key (some t) = do key ← key_of t; ok (some key)

  pub keyed_leg : BurnLegRequest → Result KeyedLeg
  keyed_leg leg = do
    target ← key_of leg.target_mint
    reject_if (target == wsol_mint || target == native_mint_2022) target_mint_native
    reference ← optional_key leg.reference
    ok (record { target_mint = target; bps = leg.bps; reference = reference })

  pub requested_leg : KeyedLeg → Result RequestedLeg
  requested_leg leg = do
    reference ← resolve_reference w reader leg.target_mint leg.reference
    ok (record { target_mint = leg.target_mint; bps = leg.bps; reference = reference })

  pub resolve_request : (burner_program max_amount : ℕ) → Json → Result ResolvedRequest
  resolve_request burner_program max_amount raw = do
    request ← parse_burn_request (λ t. is_some (public_key_of t)) raw
    launch_mint ← key_of request.launch_mint
    let amount = decimal 0 request.amount_in
    reject_if (ltb max_amount amount) notional_limit
    keyed ← map_result keyed_leg request.legs
    legs ← map_result requested_leg keyed
    floors ← leg_floors legs (split_amounts amount (map (λ (l : RequestedLeg). l.bps) legs))
    pda ← derive_vault w burner_program launch_mint (map seeded_leg legs)
    ok (record {
      request = request;
      launch_mint = launch_mint;
      amount = amount;
      requested_legs = legs;
      pda = pda;
    })

-- What a test unfolds.
unfoldable pub request_steps : Unit {0}
unfolding resolve_request requested_leg keyed_leg leg_floors
request_steps = tt
