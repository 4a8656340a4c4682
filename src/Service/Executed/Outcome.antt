-- ===== src/Service/Executed/Outcome.antt =====
-- What `execute` does to the lease store.
use mathlib.Core.Path.{subst}
use onchainburner.Base.{
  ℕ, ◌≡◌, ◌⊎◌, refl, sym, ap, ◌∙◌, false, ◌&&◌, Option, none, some, List, ◌∷◌, contains, ◌==◌,
  if◌then◌else◌, arith, inl, inr, ==_iff, Bool-cases,
}
use onchainburner.Base.Errors.{Error, Result, ok, err, policy, signer_configuration}
use onchainburner.Chain.{PublicKey}
use onchainburner.Request.{Json}
use onchainburner.Lease.{Store, failed, submitted, holder, holds, grant, find_lease, release}
use onchainburner.Lease.Granted.{
  granted, acquire-eq, find_lease-grant, holder-grant, holds-grant, submitted-grant, release_failed,
  release_submitted,
}
use onchainburner.Lease.Steps.{holder-delete_if_ours}
use onchainburner.Service.Resolved.{ResolvedRequest}
use onchainburner.Service.Fitted.{Dependencies}
use onchainburner.Service.Simulated.{resolve}
use onchainburner.Service.Executed.{
  MessageSigner, Keeper, BurnReceipt, request_number, execute_under_lease, finish, execute_leased,
  execute_resolved, execute_with, execute,
}
use onchainburner.Service.Executed.Submitted.{IsSubmitted, under_lease-IsSubmitted}

module _ (d : Dependencies) (keeper : Keeper) where
  module _ (meanwhile : Store → Store) (s : Store) where
    -- A run that got its lease.
    record IsLeased (raw : Json) (out : Result BurnReceipt × Store) : Type 0 where
      pub signer : MessageSigner
      pub r : ResolvedRequest
      pub resolved : resolve d raw ≡ ok r
      pub free : holder r.pda s.active ≡ none
      pub unsent : contains (request_number 0 r.request.request_id) s.submitted ≡ false
      pub ran :
          out
          ≡ finish d keeper
              (meanwhile (grant s r.pda (request_number 0 r.request.request_id)))
              s.next_token
              (execute_under_lease d keeper r signer)

    IsLeased-cases :
        (raw : Json) (signer : MessageSigner) (r : ResolvedRequest)
        → resolve d raw ≡ ok r
        → ((e : Error) × (execute_resolved d keeper meanwhile s signer (ok r) ≡ (err e, s)))
          ⊎ IsLeased raw (execute_resolved d keeper meanwhile s signer (ok r))
    unfolding execute_resolved execute_leased
    IsLeased-cases raw signer r resolved =
        elim (acquire-eq s r.pda (request_number 0 r.request.request_id)) [
          | inl (got, free, new) ↦ inr (record {
            signer = signer;
            r = r;
            resolved = resolved;
            free = free;
            unsent = new;
            ran = ap (execute_leased d keeper meanwhile s signer r) got;
          })
          | inr (e, refused) ↦ inl (e, ap (execute_leased d keeper meanwhile s signer r) refused)
        ]

    resolved-cases :
        (raw : Json) (signer : MessageSigner) (o : Result ResolvedRequest)
        → resolve d raw ≡ o
        → ((e : Error) × (execute_resolved d keeper meanwhile s signer o ≡ (err e, s)))
          ⊎ IsLeased raw (execute_resolved d keeper meanwhile s signer o)
    unfolding execute_resolved
    resolved-cases raw signer (err e) h = inl (e, refl)
    resolved-cases raw signer (ok r) h = IsLeased-cases raw signer r h

    execute-cases :
        (raw : Json) (o : Option MessageSigner)
        → ((e : Error) × (execute_with d keeper meanwhile s o raw ≡ (err e, s)))
          ⊎ IsLeased raw (execute_with d keeper meanwhile s o raw)
    unfolding execute_with
    execute-cases raw none = inl (policy signer_configuration, refl)
    execute-cases raw (some signer) = resolved-cases raw signer (resolve d raw) refl

    -- The vault's entry after a failed run: this run's own hold is gone, everything else is as the
    -- others left it.
    pub record IsFreed (r : ResolvedRequest) (u t : Store) : Type 0 where
      pub submitted : t.submitted ≡ u.submitted
      pub active :
          (v : PublicKey)
          → holder v t.active
            ≡ (if v == r.pda && holds r.pda s.next_token u.active then none else holder v u.active)

    finish-IsFreed :
        (r : ResolvedRequest) (u : Store) (result : Result BurnReceipt) (e : Error) (t : Store)
        → find_lease s.next_token u.leases
          ≡ some (granted s r.pda (request_number 0 r.request.request_id))
        → (err e, t) ≡ finish d keeper u s.next_token result
        → IsFreed r u t
    unfolding finish
    finish-IsFreed r u (ok receipt) e t found h =
        absurd (cc (ap (λ (o : Result BurnReceipt × Store). o.0) h))
    finish-IsFreed r u (err x) e t found h =
        let l = granted s r.pda (request_number 0 r.request.request_id) in
        let (active, sent) = release_failed u l found refl in
        let same : t ≡ release u s.next_token failed =
          ap (λ (o : Result BurnReceipt × Store). o.1) h in
        subst (IsFreed r u) (sym same) (record {
          submitted = sent;
          active = λ v. ap (holder v) active ∙ holder-delete_if_ours v r.pda s.next_token u.active;
        })

    -- The lease is this run's own: what others do leaves it as it is.
    abbrev pub IsOwn : Type 0
    IsOwn =
        (t : Store)
        → find_lease s.next_token (meanwhile t).leases ≡ find_lease s.next_token t.leases

    -- The store while this run holds its lease, as the others leave it.
    abbrev pub left : ResolvedRequest → Store
    left r = meanwhile (grant s r.pda (request_number 0 r.request.request_id))

    found-own :
        IsOwn
        → (r : ResolvedRequest)
        → find_lease s.next_token (left r).leases
          ≡ some (granted s r.pda (request_number 0 r.request.request_id))
    found-own own r =
        let n = request_number 0 r.request.request_id in
        own (grant s r.pda n) ∙ find_lease-grant s r.pda n

    -- Where the others leave this run's lease alone, a run that fails leaves no trace: it changed
    -- nothing, or it had its lease, and then its hold on the vault is given up, every other hold is
    -- as the others left it, and its request is not recorded as submitted.
    pub execute_failed :
        IsOwn
        → (raw : Json) (e : Error) (t : Store) → execute d keeper meanwhile s raw ≡ (err e, t)
        → (t ≡ s)
          ⊎ ((r : ResolvedRequest) × (resolve d raw ≡ ok r)
              × (holder r.pda s.active ≡ none)
              × IsFreed r (left r) t)
    unfolding execute
    execute_failed own raw e t h = elim (execute-cases raw keeper.fee_payer_signer) [
      | inl (x, refused) ↦ inl (ap (λ (o : Result BurnReceipt × Store). o.1) (sym h ∙ refused))
      | inr leased ↦ inr (
        leased.r,
        leased.resolved,
        leased.free,
        finish-IsFreed leased.r (left leased.r)
            (execute_under_lease d keeper leased.r leased.signer) e t (found-own own leased.r)
            (sym h ∙ leased.ran),
      )
    ]

    finish-ok :
        (r : ResolvedRequest) (u : Store) (result : Result BurnReceipt) (receipt : BurnReceipt)
        (t : Store)
        → find_lease s.next_token u.leases
          ≡ some (granted s r.pda (request_number 0 r.request.request_id))
        → (ok receipt, t) ≡ finish d keeper u s.next_token result
        → (result ≡ ok receipt)
          × (t.active ≡ u.active)
          × (t.submitted ≡ request_number 0 r.request.request_id ∷ u.submitted)
    unfolding finish
    finish-ok r u (err x) receipt t found h =
        absurd (cc (ap (λ (o : Result BurnReceipt × Store). o.0) h))
    finish-ok r u (ok y) receipt t found h =
        let (active, sent) =
          release_submitted u (granted s r.pda (request_number 0 r.request.request_id)) found
            refl in
        let same : t ≡ release u s.next_token submitted =
          ap (λ (o : Result BurnReceipt × Store). o.1) h in
        (
          sym (ap (λ (o : Result BurnReceipt × Store). o.0) h),
          ap (λ (x : Store). x.active) same ∙ active,
          ap (λ (x : Store). x.submitted) same ∙ sent,
        )

    -- Where the others leave this run's lease alone, a run that gives a receipt held a vault that was
    -- free for a request that was not submitted, submitted what `prepare` builds for the signer,
    -- records the request, and keeps every hold.
    pub execute_submitted :
        IsOwn
        → (raw : Json) (receipt : BurnReceipt) (t : Store)
        → execute d keeper meanwhile s raw ≡ (ok receipt, t)
        → (signer : MessageSigner) × (r : ResolvedRequest) × (resolve d raw ≡ ok r)
          × (holder r.pda s.active ≡ none)
          × (contains (request_number 0 r.request.request_id) s.submitted ≡ false)
          × IsSubmitted d keeper raw signer r receipt
          × (t.active ≡ (left r).active)
          × (t.submitted ≡ request_number 0 r.request.request_id ∷ (left r).submitted)
    unfolding execute
    execute_submitted own raw receipt t h = elim (execute-cases raw keeper.fee_payer_signer) [
      | inl (x, refused) ↦
          absurd (cc (ap (λ (o : Result BurnReceipt × Store). o.0) (sym h ∙ refused)))
      | inr leased ↦
          let (done, active, sent) =
            finish-ok leased.r (left leased.r) (execute_under_lease d keeper leased.r leased.signer)
              receipt t (found-own own leased.r) (sym h ∙ leased.ran) in
          (
            leased.signer,
            leased.r,
            leased.resolved,
            leased.free,
            leased.unsent,
            under_lease-IsSubmitted d keeper raw leased.signer leased.r leased.resolved done,
            active,
            sent,
          )
    ]

-- What a client sees of the store: which vaults are held, and what was submitted.
pub record IsSeen (t : Store) (active : PublicKey → Option ℕ) (sent : List ℕ) : Type 0 where
  pub held : (v : PublicKey) → holder v t.active ≡ active v
  pub recorded : t.submitted ≡ sent

given_up :
    (s : Store) (v vault : PublicKey) (n : ℕ)
    → holder vault s.active ≡ none
    → (if v == vault && holds vault s.next_token (grant s vault n).active
        then none
        else holder v (grant s vault n).active)
      ≡ holder v s.active
given_up s v vault n free =
    rw (holds-grant s vault n, holder-grant s vault n v)
      (elim (Bool-cases (v == vault)) [
        | inl same ↦ let e : v ≡ vault = (==_iff v vault).0 same in rw (same, e) (sym free)
        | inr other ↦ ground arith
      ])

-- A run alone is a transaction on the store: it shows no change, and gives an error, or it takes the
-- one hold on its vault and records the one request, and gives a receipt.
pub execute-IsSeen :
    (d : Dependencies) (keeper : Keeper) (s : Store) (raw : Json) (result : Result BurnReceipt)
    (t : Store)
    → execute d keeper (λ u. u) s raw ≡ (result, t)
    → ((e : Error) × (result ≡ err e) × IsSeen t (λ v. holder v s.active) s.submitted)
      ⊎ ((receipt : BurnReceipt) × (r : ResolvedRequest) × (result ≡ ok receipt)
          × (resolve d raw ≡ ok r)
          × IsSeen t
              (λ v. if r.pda == v then some s.next_token else holder v s.active)
              (request_number 0 r.request.request_id ∷ s.submitted))
execute-IsSeen d keeper s raw (ok receipt) t h =
    let (signer, r, resolved, free, unsent, done, active, sent) =
      execute_submitted d keeper (λ u. u) s (λ u. refl) raw receipt t h in
    let n = request_number 0 r.request.request_id in
    inr (
      receipt,
      r,
      refl,
      resolved,
      record {
        held = λ v. ap (holder v) active ∙ holder-grant s r.pda n v;
        recorded = sent ∙ ap (λ x. n ∷ x) (submitted-grant s r.pda n);
      },
    )
execute-IsSeen d keeper s raw (err e) t h =
    elim (execute_failed d keeper (λ u. u) s (λ u. refl) raw e t h) [
      | inl same ↦ inl (
        e,
        refl,
        record {
          held = λ v. ap (λ (x : Store). holder v x.active) same;
          recorded = ap (λ (x : Store). x.submitted) same;
        },
      )
      | inr (r, resolved, free, freed) ↦
          let n = request_number 0 r.request.request_id in
          inl (
            e,
            refl,
            record {
              held = λ v. freed.active v ∙ given_up s v r.pda n free;
              recorded = freed.submitted ∙ submitted-grant s r.pda n;
            },
          )
    ]
