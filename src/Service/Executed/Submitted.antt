-- ===== src/Service/Executed/Submitted.antt =====
-- What a burn that is executed submits.
use mathlib.Core.Path.{subst}
use onchainburner.Base.{
  not-false, ℕ, ◌+◌, ◌≤◌, ◌≡◌, refl, sym, true, not, Bytes, List, [], ◌∷◌, map, arith,
}
use onchainburner.Base.Errors.{
  ok, reject_if, >>=-eq-ok, ok-injective, reject_if-eq-ok, invalid_signer_response,
  blockhash_too_old,
}
use onchainburner.Chain.{PublicKey}
use onchainburner.Request.{Json}
use onchainburner.Wire.{PreparedLeg}
use onchainburner.Service.{Message}
use onchainburner.Service.Resolved.{ResolvedRequest}
use onchainburner.Service.Fitted.{Dependencies}
use onchainburner.Service.Simulated.{
  BuiltBurn, is_too_old, build_and_simulate, resolve, prepare, PreparedBurn,
}
use onchainburner.Service.Simulated.Clean.{IsBuilt, build_and_simulate-IsBuilt}
use onchainburner.Service.Executed.{
  Signature, MessageSigner, Keeper, BurnReceipt, verify_ed25519, sign_complete_message,
  execute_under_lease,
}

module _ (d : Dependencies) (keeper : Keeper) where
  -- What was submitted: the message that `prepare` gives the signer as its fee payer, with the one
  -- signature of the signer, which verifies, while enough of the blockhash's life is left.
  pub record IsSubmitted (raw : Json) (signer : MessageSigner) (r : ResolvedRequest)
      (receipt : BurnReceipt) : Type 0 where
    pub built : BuiltBurn
    pub sound : IsBuilt d r signer.public_key built
    pub prepared : PreparedBurn
    pub same : prepare d raw signer.public_key ≡ ok prepared
    pub message : prepared.message ≡ built.message
    pub signature : Signature
    pub signed : signer.sign_message built.message ≡ ok signature
    pub verified : verify_ed25519 d keeper signer.public_key built.message signature ≡ true
    pub wire : Bytes
    pub serialized : keeper.serialize built.message ((signer.public_key, signature) ∷ []) ≡ ok wire
    pub sent : keeper.submit wire ≡ ok receipt.submission_id
    pub height : ℕ
    pub read : d.chain.block_height true ≡ ok height
    pub fresh :
        d.limits.min_remaining_block_heights + height ≤ built.validity.last_valid_block_height
    pub minimums : receipt.minimum_outputs ≡ prepared.minimum_outputs
    pub vault : receipt.vault ≡ r.pda

  sign-lem :
      (message : Message) (signer : MessageSigner) {out : List (PublicKey × Signature)}
      → sign_complete_message d keeper message (signer ∷ []) ≡ ok out
      → (signature : Signature) × (signer.sign_message message ≡ ok signature)
        × (verify_ed25519 d keeper signer.public_key message signature ≡ true)
        × (out ≡ (signer.public_key, signature) ∷ [])
  unfolding sign_complete_message
  sign-lem message signer e =
      let (signature, a, e1) = >>=-eq-ok (signer.sign_message message) _ e in
      let good = verify_ed25519 d keeper signer.public_key message signature in
      let (_, b, e2) = >>=-eq-ok (reject_if (not good) invalid_signer_response) _ e1 in
      (
        signature,
        a,
        not-false good (reject_if-eq-ok (not good) invalid_signer_response b),
        sym (ok-injective e2),
      )

  pub under_lease-IsSubmitted :
      (raw : Json) (signer : MessageSigner) (r : ResolvedRequest) {receipt : BurnReceipt}
      → resolve d raw ≡ ok r
      → execute_under_lease d keeper r signer ≡ ok receipt
      → IsSubmitted raw signer r receipt
  unfolding execute_under_lease prepare
  under_lease-IsSubmitted raw signer r resolved e =
      let (built, a, e1) = >>=-eq-ok (build_and_simulate d r signer.public_key) _ e in
      let (signatures, b, e2) =
        >>=-eq-ok (sign_complete_message d keeper built.message (signer ∷ [])) _ e1 in
      let (signature, signed, verified, only) = sign-lem built.message signer b in
      let (height, h, e3) = >>=-eq-ok (d.chain.block_height true) _ e2 in
      let old = is_too_old d.limits built.validity height in
      let (_, o, e4) = >>=-eq-ok (reject_if old blockhash_too_old) _ e3 in
      let enough = reject_if-eq-ok old blockhash_too_old o in
      let (wire, w, e5) = >>=-eq-ok (keeper.serialize built.message signatures) _ e4 in
      let (id, i, e6) = >>=-eq-ok (keeper.submit wire) _ e5 in
      subst (IsSubmitted raw signer r) (ok-injective e6) (record {
        built = built;
        sound = build_and_simulate-IsBuilt d r signer.public_key built a;
        prepared = record {
          request_id = r.request.request_id;
          vault = r.pda;
          message = built.message;
          last_valid_block_height = built.validity.last_valid_block_height;
          context_slot = built.validity.context_slot;
          transaction_bytes = built.bytes;
          account_locks = built.locks;
          simulated_units = built.simulated_units;
          minimum_outputs = map (λ (l : PreparedLeg). l.minimum_output) built.legs;
        };
        same = rw (resolved, a) refl;
        message = refl;
        signature = signature;
        signed = signed;
        verified = verified;
        wire = wire;
        serialized = subst (λ o. keeper.serialize built.message o ≡ ok wire) only w;
        sent = i;
        height = height;
        read = h;
        fresh = ground (arith, enough);
        minimums = refl;
        vault = refl;
      })
