-- ===== src/Lease/Granted.antt =====
-- A lease from its `acquire` to its `release`, as one client sees it.
use onchainburner.Base.{
  ℕ, ◌≡◌, ◌⊎◌, refl, ◌∙◌, true, false, some, none, List, ◌∷◌, contains, ◌==◌, ==-refl,
  if◌then◌else◌, Bool-cases, Option-cases, inl, inr,
}
use onchainburner.Base.Errors.{Error, ok, err, policy, duplicate_request, vault_busy}
use onchainburner.Chain.{PublicKey}
use onchainburner.Lease.{
  Lease, Store, failed, submitted, holds, delete_if_ours, holder, is_active, grant, acquire,
  find_lease, settle_lease, release,
}

-- The lease that a grant hands out.
abbrev pub granted : Store → PublicKey → ℕ → Lease
granted s vault request = record {
  vault = vault;
  token = s.next_token;
  request = request;
  released = false;
}

-- `acquire` grants a free vault to a request that was not submitted, or leaves the store as it was.
pub acquire-eq :
    (s : Store) (v : PublicKey) (r : ℕ)
    → ((acquire s v r ≡ (ok s.next_token, grant s v r))
        × (holder v s.active ≡ none)
        × (contains r s.submitted ≡ false))
      ⊎ ((e : Error) × (acquire s v r ≡ (err e, s)))
unfolding acquire is_active
acquire-eq s v r = elim (Bool-cases (contains r s.submitted)) [
  | inl again ↦ inr (policy duplicate_request, rw again refl)
  | inr new ↦ elim (Option-cases (holder v s.active)) [
    | inl free ↦ inl (rw (new, free, is_active) refl, free, new)
    | inr (t, busy) ↦ inr (policy vault_busy, rw (new, busy, is_active) refl)
  ]
]

pub holder-grant :
    (s : Store) (v : PublicKey) (r : ℕ) (u : PublicKey)
    → holder u (grant s v r).active ≡ (if v == u then some s.next_token else holder u s.active)
unfolding grant holder
holder-grant s v r u = refl

holds-found :
    (v : PublicKey) (t : ℕ) (active : List (PublicKey × ℕ))
    → holder v active ≡ some t
    → holds v t active ≡ true
unfolding holds
holds-found v t active h = rw (h, holds) (==-refl t)

pub holds-grant :
    (s : Store) (v : PublicKey) (r : ℕ) → holds v s.next_token (grant s v r).active ≡ true
holds-grant s v r = holds-found v s.next_token (grant s v r).active (holder-grant s v r v ∙ same)
  where
    same : (if v == v then some s.next_token else holder v s.active) ≡ some s.next_token
    same = rw (==-refl v) refl

pub submitted-grant : (s : Store) (v : PublicKey) (r : ℕ) → (grant s v r).submitted ≡ s.submitted
unfolding grant
submitted-grant s v r = refl

pub find_lease-grant :
    (s : Store) (v : PublicKey) (r : ℕ)
    → find_lease s.next_token (grant s v r).leases ≡ some (granted s v r)
unfolding grant
find_lease-grant s v r = rw (==-refl s.next_token) refl

module _ (s : Store) (l : Lease) (found : find_lease l.token s.leases ≡ some l)
    (due : l.released ≡ false) where
  pub release_failed :
      ((release s l.token failed).active ≡ delete_if_ours l.vault l.token s.active)
      × ((release s l.token failed).submitted ≡ s.submitted)
  unfolding release settle_lease
  release_failed = (rw (found, due, release) refl, rw (found, due, release) refl)

  pub release_submitted :
      ((release s l.token submitted).active ≡ s.active)
      × ((release s l.token submitted).submitted ≡ l.request ∷ s.submitted)
  unfolding release settle_lease
  release_submitted = (rw (found, due, release) refl, rw (found, due, release) refl)
