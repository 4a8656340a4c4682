-- ===== src/Service/Executed.antt =====
-- `verifyEd25519`, `signCompleteMessage`, `execute` and `executeUnderLease` of
-- quote-service/core.ts, over the lease store in memory.
pub mod Submitted
pub mod Outcome
use onchainburner.Base.{
  ℕ, ◌+◌, ◌*◌, Bool, true, false, not, ◌&&◌, ◌||◌, Option, none, some, Bytes, List, [], ◌∷◌, ◌++◌,
  map, length, ltb, ◌==◌, if◌then◌else◌,
}
use onchainburner.Base.Errors.{
  Result, ok, err, policy, ◌>>=◌, ◌>>◌, reject_if, signer_configuration, invalid_signer_response,
  blockhash_too_old,
}
use onchainburner.Chain.{PublicKey}
use onchainburner.Request.{Text, Json}
use onchainburner.Wire.{PreparedLeg}
use onchainburner.Lease.{Store, failed, submitted, acquire, release}
use onchainburner.Service.{Message}
use onchainburner.Service.Resolved.{ResolvedRequest}
use onchainburner.Service.Fitted.{Dependencies}
use onchainburner.Service.Simulated.{BuiltBurn, is_too_old, build_and_simulate, resolve}

abbrev pub Signature : Type 0
Signature = Bytes

-- `MessageSigner`; what it signs is the serialized message.
pub record MessageSigner : Type 0 where
  pub public_key : PublicKey
  pub sign_message : Message → Result Signature

-- What `execute` needs besides the service: the signer, the cryptography, and the submitter.
pub record Keeper : Type 0 where
  pub fee_payer_signer : Option MessageSigner
  -- `verify(null, message, createPublicKey({ key: spki, … }), signature)` of node:crypto
  pub verify_signature : (spki : Bytes) → Message → Signature → Bool
  -- `transaction.serialize()`, with the signatures that were added
  pub serialize : Message → List (PublicKey × Signature) → Result Bytes
  pub submit : Bytes → Result ℕ

pub record BurnReceipt : Type 0 where
  pub request_id : Text
  pub vault : PublicKey
  pub submission_id : ℕ
  pub last_valid_block_height : ℕ
  pub context_slot : ℕ
  pub transaction_bytes : ℕ
  pub account_locks : ℕ
  pub simulated_units : Option ℕ
  pub minimum_outputs : List ℕ

-- The RFC 8410 prefix, 302a300506032b6570032100.
abbrev pub spki_prefix : Bytes
spki_prefix = 48 ∷ 42 ∷ 48 ∷ 5 ∷ 6 ∷ 3 ∷ 43 ∷ 101 ∷ 112 ∷ 3 ∷ 33 ∷ 0 ∷ []

-- The number by which the lease store knows a request: different texts of UTF-16 codes have
-- different numbers.
abbrev pub request_number : ℕ → Text → ℕ
request_number n [] = n
request_number n (c ∷ cs) = request_number (n * 65_537 + c + 1) cs

module _ (d : Dependencies) (keeper : Keeper) where
  pub verify_ed25519 : PublicKey → Message → Signature → Bool
  verify_ed25519 key message signature =
      if not (length signature == 64)
      then false
      else keeper.verify_signature (spki_prefix ++ d.web3.to_buffer key) message signature

  -- The loop over the signers; the result are the signatures that it adds.
  pub sign_complete_message : Message → List MessageSigner → Result (List (PublicKey × Signature))
  sign_complete_message message [] = ok []
  sign_complete_message message (signer ∷ signers) = do
    signature ← signer.sign_message message
    reject_if (not (verify_ed25519 signer.public_key message signature)) invalid_signer_response
    rest ← sign_complete_message message signers
    ok ((signer.public_key, signature) ∷ rest)

  pub execute_under_lease : ResolvedRequest → MessageSigner → Result BurnReceipt
  execute_under_lease r signer = do
    built ← build_and_simulate d r signer.public_key
    signatures ← sign_complete_message built.message (signer ∷ [])
    height ← d.chain.block_height true
    reject_if (is_too_old d.limits built.validity height) blockhash_too_old
    wire ← keeper.serialize built.message signatures
    submission_id ← keeper.submit wire
    ok (record {
      request_id = r.request.request_id;
      vault = r.pda;
      submission_id = submission_id;
      last_valid_block_height = built.validity.last_valid_block_height;
      context_slot = built.validity.context_slot;
      transaction_bytes = built.bytes;
      account_locks = built.locks;
      simulated_units = built.simulated_units;
      minimum_outputs = map (λ (l : PreparedLeg). l.minimum_output) built.legs;
    })

  -- The `finally` block; the store in memory never throws.
  pub finish : Store → (token : ℕ) → Result BurnReceipt → Result BurnReceipt × Store
  finish s token (ok receipt) = (ok receipt, release s token submitted)
  finish s token (err e) = (err e, release s token failed)

  -- `execute`, from a store to the store behind it. `meanwhile` is what other calls do to the store
  -- while the burn is built, signed and submitted.
  module _ (meanwhile : Store → Store) (s : Store) where
    pub execute_leased :
        MessageSigner → ResolvedRequest → Result ℕ × Store → Result BurnReceipt × Store
    execute_leased signer r (err e, t) = (err e, t)
    execute_leased signer r (ok token, t) =
        finish (meanwhile t) token (execute_under_lease r signer)

    pub execute_resolved : MessageSigner → Result ResolvedRequest → Result BurnReceipt × Store
    execute_resolved signer (err e) = (err e, s)
    execute_resolved signer (ok r) =
        execute_leased signer r (acquire s r.pda (request_number 0 r.request.request_id))

    pub execute_with : Option MessageSigner → Json → Result BurnReceipt × Store
    execute_with none raw = (err (policy signer_configuration), s)
    execute_with (some signer) raw = execute_resolved signer (resolve d raw)

    pub execute : Json → Result BurnReceipt × Store
    execute raw = execute_with keeper.fee_payer_signer raw

-- What a test unfolds.
unfoldable pub executing : Unit {0}
unfolding execute execute_with execute_resolved execute_leased finish execute_under_lease
    sign_complete_message verify_ed25519
executing = tt
