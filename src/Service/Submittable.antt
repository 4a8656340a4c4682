-- ===== src/Service/Submittable.antt =====
-- `assertSubmittableSignedTransaction` of quote-service/core.ts: what the service relays.
use onchainburner.Base.{
  and-true, not-false, ℕ, ◌≤◌, ◌≡◌, refl, ap, ◌∙◌, Bool, true, false, not, ◌&&◌, ◌||◌, Option, none,
  some, Bytes, List, [], ◌∷◌, length, get_elem?, ltb, ◌==◌, arith, Option-cases, inl, inr,
}
use onchainburner.Base.Errors.{
  Result, ok, policy, environment, ◌>>=◌, ◌>>◌, reject_if, require, require-eq-ok, >>=-eq-ok,
  ok-injective, reject_if-eq-ok, transaction_too_large, invalid_transaction,
  invalid_caller_signature,
}
use onchainburner.Chain.{PublicKey, compute_budget_program}
use onchainburner.Service.Executed.{Signature}
use mathlib.Core.Path.{subst}

-- A deserialized `VersionedTransaction`: the program indexes of its compiled instructions, its keys,
-- its signatures and the bytes of its message.
pub record SignedTransaction : Type 0 where
  pub program_id_indexes : List ℕ
  pub static_account_keys : List PublicKey
  pub num_required_signatures : ℕ
  pub signatures : List Signature
  pub serialized : Bytes

pub record Submittable : Type 0 where
  pub transaction : SignedTransaction
  pub fee_payer : PublicKey

-- `keys[index]?.equals(key)`
abbrev pub is_key_at : List PublicKey → ℕ → PublicKey → Bool
is_key_at keys index key = elim (get_elem? keys index) [ none ↦ false | some k ↦ k == key ]

-- Two instructions, of the compute budget and of the burner.
pub is_budget_and_burner : PublicKey → List PublicKey → List ℕ → Bool
is_budget_and_burner burner_program keys (i ∷ j ∷ []) =
    is_key_at keys i compute_budget_program && is_key_at keys j burner_program
is_budget_and_burner burner_program keys _ = false

-- `VersionedTransaction.deserialize`, where it does not throw, and `verifyEd25519` are arguments.
module _ (deserialize : Bytes → Option SignedTransaction)
    (verify_ed25519 : PublicKey → Bytes → Signature → Bool) where
  pub assert_submittable_signed_transaction :
      (wire : Bytes) (burner_program : PublicKey) → Result Submittable
  assert_submittable_signed_transaction wire burner_program = do
    reject_if (ltb 1232 (length wire)) transaction_too_large
    t ← require (deserialize wire) (policy invalid_transaction)
    reject_if (not (is_budget_and_burner burner_program t.static_account_keys t.program_id_indexes))
        invalid_transaction
    reject_if (not (t.num_required_signatures == 1) || not (length t.signatures == 1))
        invalid_transaction
    fee_payer ← require (get_elem? t.static_account_keys 0) environment
    signature ← require (get_elem? t.signatures 0) environment
    reject_if (not (verify_ed25519 fee_payer t.serialized signature)) invalid_caller_signature
    ok (record { transaction = t; fee_payer = fee_payer })

  -- A transaction of a compute limit and a burn that its fee payer alone has signed.
  pub record IsSubmittable (wire : Bytes) (burner_program : PublicKey) (s : Submittable)
      : Type 0 where
    pub small : length wire ≤ 1232
    pub read : deserialize wire ≡ some s.transaction
    pub budget : ℕ
    pub burn : ℕ
    pub two : s.transaction.program_id_indexes ≡ budget ∷ burn ∷ []
    pub budget_program :
        get_elem? s.transaction.static_account_keys budget ≡ some compute_budget_program
    pub burner : get_elem? s.transaction.static_account_keys burn ≡ some burner_program
    pub required : s.transaction.num_required_signatures ≡ 1
    pub payer : get_elem? s.transaction.static_account_keys 0 ≡ some s.fee_payer
    pub signature : Signature
    pub only : s.transaction.signatures ≡ signature ∷ []
    pub verified : verify_ed25519 s.fee_payer s.transaction.serialized signature ≡ true

  key_at-lem :
      (keys : List PublicKey) (index : ℕ) (key : PublicKey)
      → is_key_at keys index key ≡ true
      → get_elem? keys index ≡ some key
  key_at-lem keys index key e = elim (Option-cases (get_elem? keys index)) [
    | inl n ↦ absurd (cc (rw (n, is_key_at) at e))
    | inr (k, f) ↦ let same : k ≡ key = ground (arith, rw (f, is_key_at) at e) in f ∙ ap some same
  ]

  budget_and_burner-lem :
      (program : PublicKey) (keys : List PublicKey) (indexes : List ℕ)
      → is_budget_and_burner program keys indexes ≡ true
      → (i : ℕ) × (j : ℕ) × (indexes ≡ i ∷ j ∷ [])
        × (get_elem? keys i ≡ some compute_budget_program)
        × (get_elem? keys j ≡ some program)
  unfolding is_budget_and_burner
  budget_and_burner-lem program keys [] e = cc
  budget_and_burner-lem program keys (i ∷ []) e = cc
  budget_and_burner-lem program keys (i ∷ j ∷ k ∷ more) e = cc
  budget_and_burner-lem program keys (i ∷ j ∷ []) e =
      let (p, q) = and-true (is_key_at keys i compute_budget_program) _ e in
      (i, j, refl, key_at-lem keys i compute_budget_program p, key_at-lem keys j program q)

  only-lem :
      (signatures : List Signature) (s : Signature)
      → length signatures ≡ 1
      → get_elem? signatures 0 ≡ some s
      → signatures ≡ s ∷ []
  only-lem [] s n e = cc
  only-lem (x ∷ []) s n e = cc
  only-lem (x ∷ y ∷ more) s n e = absurd (omega (arith, n))

  -- Every wire that is accepted is at most 1232 bytes and reads as one transaction of a
  -- compute-budget instruction and a burner instruction, in this order, with the fee payer's
  -- signature as its only one, required and given, and this signature verifies.
  pub assert_submittable-IsSubmittable :
      (wire : Bytes) (burner_program : PublicKey) (s : Submittable)
      → assert_submittable_signed_transaction wire burner_program ≡ ok s
      → IsSubmittable wire burner_program s
  unfolding assert_submittable_signed_transaction
  assert_submittable-IsSubmittable wire burner_program s e =
      let long = ltb 1232 (length wire) in
      let (_, a, e1) = >>=-eq-ok (reject_if long transaction_too_large) _ e in
      let short = reject_if-eq-ok long transaction_too_large a in
      let (t, b, e2) = >>=-eq-ok (require (deserialize wire) (policy invalid_transaction)) _ e1 in
      let shaped = is_budget_and_burner burner_program t.static_account_keys t.program_id_indexes in
      let (_, c, e3) = >>=-eq-ok (reject_if (not shaped) invalid_transaction) _ e2 in
      let (i, j, two, budget, burner) =
        budget_and_burner-lem burner_program t.static_account_keys t.program_id_indexes
          (not-false shaped (reject_if-eq-ok (not shaped) invalid_transaction c)) in
      let counts = not (t.num_required_signatures == 1) || not (length t.signatures == 1) in
      let (_, f, e4) = >>=-eq-ok (reject_if counts invalid_transaction) _ e3 in
      let one = reject_if-eq-ok counts invalid_transaction f in
      let one_given : length t.signatures ≡ 1 = ground (arith, one) in
      let (payer, g, e5) =
        >>=-eq-ok (require (get_elem? t.static_account_keys 0) environment) _ e4 in
      let (signature, h, e6) = >>=-eq-ok (require (get_elem? t.signatures 0) environment) _ e5 in
      let good = verify_ed25519 payer t.serialized signature in
      let (_, k, e7) = >>=-eq-ok (reject_if (not good) invalid_caller_signature) _ e6 in
      subst (IsSubmittable wire burner_program) (ok-injective e7) (record {
        small = ground (arith, short);
        read = require-eq-ok (deserialize wire) _ b;
        budget = i;
        burn = j;
        two = two;
        budget_program = budget;
        burner = burner;
        required = ground (arith, one);
        payer = require-eq-ok (get_elem? t.static_account_keys 0) _ g;
        signature = signature;
        only =
            only-lem t.signatures signature one_given
              (require-eq-ok (get_elem? t.signatures 0) _ h);
        verified = not-false good (reject_if-eq-ok (not good) invalid_caller_signature k);
      })

-- What a test unfolds.
unfoldable pub submitting : Unit {0}
unfolding assert_submittable_signed_transaction is_budget_and_burner
submitting = tt
