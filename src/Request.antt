-- ===== src/Request.antt =====
-- `parseBurnRequest` of quote-service/core.ts: the whole public request.
pub mod Parsed
use onchainburner.Base.{
  ℕ, zero, suc, ◌+◌, ◌-◌, ◌*◌, ◌^◌, Bool, true, false, not, ◌&&◌, ◌||◌, Option, none, some, codes,
  List, [], ◌∷◌, map, length, any, all, sum, list_eq, ltb, leb, ◌==◌, if◌then◌else◌,
}
use onchainburner.Base.Int.{ℤ, pos, negsuc}
use onchainburner.Base.Errors.{
  Code, Result, ok, err, policy, ◌>>=◌, ◌>>◌, reject_if, require, map_result, invalid_request,
  forbidden_request_field, invalid_request_id, invalid_launch_mint, invalid_amount, invalid_legs,
  invalid_leg, invalid_target_mint, invalid_weights, invalid_reference, duplicate_target,
  invalid_alt,
}
use onchainburner.Chain.{PublicKey}

-- A text, as its character codes.
abbrev pub Text : Type 0
Text = List ℕ

-- A JSON value; `fraction` is a number that is no integer.
mutual
  pub data Json : Type 0 where
    null fraction : Json
    flag : Bool → Json
    integer : ℤ → Json
    text : Text → Json
    array : Elements → Json
    object : Fields → Json

  pub data Elements : Type 0 where
    no_element : Elements
    element : Json → Elements → Elements

  pub data Fields : Type 0 where
    no_field : Fields
    field : Text → Json → Fields → Fields

abbrev pub elements : Elements → List Json
elements no_element = []
elements (element j rest) = j ∷ elements rest

-- `Object.keys(object)`
abbrev pub keys : Fields → List Text
keys no_field = []
keys (field name j rest) = name ∷ keys rest

-- `object[name]`; undefined is `none`.
abbrev pub value_of : Text → Fields → Option Json
value_of name no_field = none
value_of name (field n j rest) =
    let later = value_of name rest in if list_eq n name then some j else later

abbrev pub fields_of : Json → Option Fields
fields_of (object fields) = some fields
fields_of _ = none

abbrev pub elements_of : Option Json → Option (List Json)
elements_of (some (array es)) = some (elements es)
elements_of _ = none

abbrev pub text_of : Option Json → Option Text
text_of (some (text t)) = some t
text_of _ = none

abbrev pub is_one_of : List Text → Text → Bool
is_one_of names name = any (λ n. list_eq n name) names

-- Some key is none of the names.
abbrev pub has_unknown : List Text → Fields → Bool
has_unknown names fields = any (λ n. not (is_one_of names n)) (keys fields)

abbrev pub within : ℕ → ℕ → ℕ → Bool
within low high c = leb low c && leb c high

-- `[A-Za-z0-9._:-]`
abbrev pub is_safe : ℕ → Bool
is_safe c =
    within 65 90 c || within 97 122 c || within 48 57 c || c == 46 || c == 95 || c == 58 || c == 45

-- `/^[A-Za-z0-9._:-]{1,128}$/`
abbrev pub is_request_id : Text → Bool
is_request_id t = not (length t == 0) && leb (length t) 128 && all is_safe t

-- `/^[1-9][0-9]*$/`
abbrev pub is_positive_decimal : Text → Bool
is_positive_decimal [] = false
is_positive_decimal (c ∷ cs) = within 49 57 c && all (within 48 57) cs

-- `BigInt(text)` of decimal digits.
abbrev pub decimal : ℕ → Text → ℕ
decimal acc [] = acc
decimal acc (c ∷ cs) = decimal (acc * 10 + (c - 48)) cs

abbrev pub is_duplicate : List Text → Bool
is_duplicate [] = false
is_duplicate (t ∷ ts) = is_one_of ts t || is_duplicate ts

-- A weight that is a positive integer.
abbrev pub weight_of : Option Json → Option ℕ
weight_of (some (integer (pos (suc n)))) = some (suc n)
weight_of _ = none

pub record BurnLegRequest : Type 0 where
  pub target_mint : Text
  pub bps : ℕ
  pub reference : Option Text

pub record BurnRequest : Type 0 where
  pub request_id : Text
  pub launch_mint : Text
  pub amount_in : Text
  pub legs : List BurnLegRequest
  pub lookup_table_addresses : Option (List Text)

-- `new PublicKey(text)`, which may throw, is an argument.
module _ (is_public_key : Text → Bool) where
  -- A text that is a public key, or the code of the rejection.
  pub key_text : Option Json → Code → Result Text
  key_text found code = do
    t ← require (text_of found) (policy code)
    reject_if (not (is_public_key t)) code
    ok t

  pub parse_reference : Option Json → Result (Option Text)
  parse_reference none = ok none
  parse_reference (some j) = do t ← key_text (some j) invalid_reference; ok (some t)

  pub parse_leg : Json → Result BurnLegRequest
  parse_leg raw = do
    leg ← require (fields_of raw) (policy invalid_leg)
    reject_if (has_unknown (codes "targetMint" ∷ codes "bps" ∷ codes "reference" ∷ []) leg)
        forbidden_request_field
    target_mint ← key_text (value_of (codes "targetMint") leg) invalid_target_mint
    bps ← require (weight_of (value_of (codes "bps") leg)) (policy invalid_weights)
    reference ← parse_reference (value_of (codes "reference") leg)
    ok (record { target_mint = target_mint; bps = bps; reference = reference })

  pub parse_tables : Option Json → Result (Option (List Text))
  parse_tables none = ok none
  parse_tables (some j) = do
    es ← require (elements_of (some j)) (policy invalid_alt)
    addresses ← map_result (λ e. require (text_of (some e)) (policy invalid_alt)) es
    reject_if (any (λ t. not (is_public_key t)) addresses) invalid_alt
    ok (some addresses)

  pub parse_amount : Option Json → Result Text
  parse_amount found = do
    t ← require (text_of found) (policy invalid_amount)
    reject_if (not (is_positive_decimal t)) invalid_amount
    reject_if (ltb (2 ^ 64 - 1) (decimal 0 t)) invalid_amount
    ok t

  pub parse_legs : Option Json → Result (List BurnLegRequest)
  parse_legs found = do
    raws ← require (elements_of found) (policy invalid_legs)
    reject_if (length raws == 0 || ltb 4 (length raws)) invalid_legs
    legs ← map_result parse_leg raws
    reject_if (not (sum (map (λ (l : BurnLegRequest). l.bps) legs) == 10_000)) invalid_weights
    reject_if (is_duplicate (map (λ (l : BurnLegRequest). l.target_mint) legs)) duplicate_target
    ok legs

  pub parse_burn_request : Json → Result BurnRequest
  parse_burn_request value = do
    fields ← require (fields_of value) (policy invalid_request)
    reject_if
        (has_unknown
          (codes "requestId"
            ∷ codes "launchMint"
            ∷ codes "amountIn"
            ∷ codes "legs"
            ∷ codes "lookupTableAddresses"
            ∷ [])
          fields)
        forbidden_request_field
    request_id ← require (text_of (value_of (codes "requestId") fields)) (policy invalid_request_id)
    reject_if (not (is_request_id request_id)) invalid_request_id
    launch_mint ← key_text (value_of (codes "launchMint") fields) invalid_launch_mint
    amount_in ← parse_amount (value_of (codes "amountIn") fields)
    legs ← parse_legs (value_of (codes "legs") fields)
    tables ← parse_tables (value_of (codes "lookupTableAddresses") fields)
    ok (record {
      request_id = request_id;
      launch_mint = launch_mint;
      amount_in = amount_in;
      legs = legs;
      lookup_table_addresses = tables;
    })

-- What a test unfolds.
unfoldable pub parsing : Unit {0}
unfolding parse_burn_request parse_legs parse_amount parse_tables parse_leg parse_reference key_text
parsing = tt
