-- ===== src/Base/Errors.antt =====
-- Exceptions as values: `PolicyError` with its code (quote-service/core.ts), and the errors that
-- the language itself throws. Messages are left out.
use mathlib.Core.Path.{◌≡◌, refl, ap, subst}
use mathlib.Core.Bool.{Bool, true, false}
use mathlib.Core.Option.{Option, none, some}
use mathlib.Core.List.{List, [], ◌∷◌}

-- The first argument of `reject`.
pub data Code : Type 0 where
  invalid_request forbidden_request_field invalid_request_id invalid_launch_mint : Code
  invalid_amount invalid_legs invalid_leg invalid_target_mint invalid_weights : Code
  invalid_reference duplicate_target invalid_alt missing_alt inactive_alt alt_mismatch : Code
  invalid_mint invalid_mint_owner launch_mint_closable target_mint_native : Code
  target_mintable target_freezable unsupported_token_2022_mint : Code
  invalid_token_account encumbered_token_account unsupported_token_2022_account : Code
  jupiter_build_failed jupiter_input_mismatch jupiter_mint_mismatch jupiter_fee : Code
  invalid_jupiter_program invalid_jupiter_instruction invalid_jupiter_accounts : Code
  forbidden_route_signer auxiliary_instruction unsafe_setup too_many_route_accounts : Code
  reference_invalid reference_cap_exceeded reference_too_shallow reference_floor_zero : Code
  reference_migrating direct_curve_shape duplicate_request vault_busy no_price_floor : Code
  policy_configuration notional_limit zero_leg_amount invalid_vault : Code
  insufficient_vault_balance dust_remainder direct_curve_unavailable setup_required : Code
  invalid_output_floor reference_does_not_price_market slippage_policy : Code
  price_impact_policy independent_floor transaction_too_large : Code
  top_level_instruction_policy signer_layout simulation_failed compute_limit : Code
  external_simulation_failure blockhash_too_old signer_configuration : Code
  invalid_signer_response invalid_transaction invalid_caller_signature : Code

pub data Error : Type 0 where
  policy : Code → Error
  -- `RangeError`: a read or write outside a buffer, or a `bigint` division by zero.
  range_error : Error
  -- `ReferenceDiscoveryError`
  discovery : Error
  -- Any other error of a call into the environment.
  environment : Error

-- What an operation gives: the error that it throws, or its value.
pub data Result {ℓ} (A : Type ℓ) : Type ℓ where
  err : (thrown : Error) → Result A
  ok : (value : A) → Result A

infixl 5 ◌>>=◌
abbrev pub ◌>>=◌ {ℓ μ} : {X : Type ℓ} {Y : Type μ} → Result X → (X → Result Y) → Result Y
err thrown >>= next = err thrown
ok value >>= next = next value

-- `if (test) reject(code, …)`
abbrev pub reject_if : Bool → Code → Result (Unit {0})
reject_if true c = err (policy c)
reject_if false c = ok tt

-- A check, and what comes behind it.
infixl 5 ◌>>◌
abbrev pub ◌>>◌ {ℓ} : {Y : Type ℓ} → Result (Unit {0}) → Result Y → Result Y
check >> rest = check >>= λ passed. rest

-- A value that must be there.
abbrev pub require {ℓ} : {A : Type ℓ} → Option A → Error → Result A
require none e = err e
require (some a) e = ok a

-- A loop that may throw, over the elements of an array.
abbrev pub map_result {ℓ κ} : {A : Type ℓ} {B : Type κ} → (A → Result B) → List A → Result (List B)
map_result f [] = ok []
map_result f (x ∷ xs) = f x >>= λ y. map_result f xs >>= λ ys. ok (y ∷ ys)

pub >>=-eq-ok {ℓ κ} :
    {X : Type ℓ} {Y : Type κ} (first : Result X) (next : X → Result Y) {y : Y}
    → (first >>= next) ≡ ok y
    → (x : X) × (first ≡ ok x) × (next x ≡ ok y)
>>=-eq-ok (err thrown) next h = cc
>>=-eq-ok (ok x) next h = (x, refl, h)

pub reject_if-eq-ok : (b : Bool) (c : Code) {u : Unit {0}} → reject_if b c ≡ ok u → b ≡ false
reject_if-eq-ok true c h = cc
reject_if-eq-ok false c h = refl

pub ok-injective {ℓ} : {A : Type ℓ} {a b : A} → ok a ≡ ok b → a ≡ b
ok-injective h = cc

pub require-eq-ok {ℓ} :
    {A : Type ℓ} (o : Option A) (e : Error) {a : A} → require o e ≡ ok a → o ≡ some a
require-eq-ok none e h = cc
require-eq-ok (some b) e h = ap some (ok-injective h)

-- Each element of one list is related to the element of the other at its place.
abbrev pub AllPairs {ℓ κ} : {A : Type ℓ} {B : Type κ} → (A → B → Type 0) → List A → List B → Type 0
AllPairs R [] [] = Unit
AllPairs R (x ∷ xs) (y ∷ ys) = R x y × AllPairs R xs ys
AllPairs R _ _ = ⊥

-- A loop that does not throw has a value for each element.
pub map_result-AllPairs :
    {A B : Type 0} (f : A → Result B) (xs : List A) {ys : List B}
    → map_result f xs ≡ ok ys
    → AllPairs (λ x y. f x ≡ ok y) xs ys
map_result-AllPairs f [] e = subst (AllPairs (λ x y. f x ≡ ok y) []) (ok-injective e) tt
map_result-AllPairs f (x ∷ xs) e =
    let (y, here, e1) = >>=-eq-ok (f x) _ e in
    let (ys, later, e2) = >>=-eq-ok (map_result f xs) _ e1 in
    subst (AllPairs (λ x y. f x ≡ ok y) (x ∷ xs)) (ok-injective e2)
      (here, map_result-AllPairs f xs later)
