-- ===== src/Lease/Guarded.antt =====
-- The invariant of the lease store, over every sequence of calls and timers.
use onchainburner.Base.{
  ℕ, suc, ◌<◌, ◌≡◌, ◌≢◌, ◌⊎◌, refl, sym, ap, true, false, ◌&&◌, none, some, contains, ◌==◌,
  if◌then◌else◌, All, All-map, All-both, arith, Option-cases, Bool-cases, inl, inr, ==_iff, ==-refl,
}
use onchainburner.Base.Errors.{ok, err, policy, duplicate_request, vault_busy}
use onchainburner.Chain.{PublicKey}
use onchainburner.Lease.{
  Lease, Timer, Store, Outcome, failed, submitted, holder, delete, holds, delete_if_ours, is_active,
  grant, acquire, find_lease, settle_lease, release, fire, settle, empty,
}
use onchainburner.Lease.Steps.{
  coherent-delete, All-delete, kept_open, kept_timed, timed_for-drop, WillBeFreed, IsGuarded,
  find_lease-open,
}

grant-holder :
    (s : Store) (v : PublicKey) (r : ℕ) (u : PublicKey)
    → holder u (grant s v r).active ≡ (if v == u then some s.next_token else holder u s.active)
unfolding grant holder
grant-holder s v r u = refl

-- Whatever the environment does next: a call of `acquire`, `release` or `settle`, or a timer.
pub data Step : Store → Store → Type 0 where
  acquires : (s : Store) (v : PublicKey) (r : ℕ) → Step s (acquire s v r).1
  releases : (s : Store) (token : ℕ) (o : Outcome) → Step s (release s token o)
  fires : (s : Store) (t : Timer) → Step s (fire s t)
  settles : (s : Store) (v : PublicKey) → Step s (settle s v)

pub data Reach (s : Store) : Store → Type 0 where
  here : Reach s s
  next : {t u : Store} → Reach s t → Step t u → Reach s u

module _ (s : Store) (g : IsGuarded s) where
  settle-IsGuarded : (v : PublicKey) → IsGuarded (settle s v)
  unfolding settle
  settle-IsGuarded v = record {
    coherent = coherent-delete v s.active g.coherent;
    pending =
        All-map _ _ (λ e p. p.0) (delete v s.active)
          (All-delete (WillBeFreed s.leases s.timers) v s.active g.pending);
    fresh =
        All-map _ _ (λ e p. p.0) (delete v s.active)
          (All-delete (λ e. e.1 < s.next_token) v s.active g.fresh);
  }

  -- After a deletion that the token guards, every entry but the token's own is still there.
  delete_if_ours-All :
      (P Q : PublicKey × ℕ → Type 0) (v : PublicKey) (token : ℕ)
      → ((e : PublicKey × ℕ) → P e → ¬ ((e.0 ≡ v) × (e.1 ≡ token)) → Q e)
      → All P s.active
      → All Q (delete_if_ours v token s.active)
  unfolding delete_if_ours holds
  delete_if_ours-All P Q v token f h = elim (Bool-cases (holds v token s.active)) [
    | inl ours ↦ rw ours (
        All-map (λ e. P e × (e.0 ≢ v)) Q (λ e p. f e p.0 (λ q. p.1 q.0)) (delete v s.active)
          (All-delete P v s.active h))
    | inr theirs ↦ rw theirs (
        All-map (λ e. P e × (holder e.0 s.active ≡ some e.1)) Q
          (λ e p. f e p.0 (λ q. stays e theirs p.1 q.0 q.1)) s.active
          (All-both P (λ e. holder e.0 s.active ≡ some e.1) s.active h g.coherent))
  ]
    where
      stays :
          (e : PublicKey × ℕ)
          → holds v token s.active ≡ false
          → holder e.0 s.active ≡ some e.1
          → e.0 ≡ v
          → e.1 ≡ token
          → ⊥
      stays e theirs at same_vault same_token =
          ground (arith, theirs, at, same_token, ap (λ u. holder u s.active) same_vault)

  delete_if_ours-coherent :
      (v : PublicKey) (token : ℕ)
      → All
          (λ e. holder e.0 (delete_if_ours v token s.active) ≡ some e.1)
          (delete_if_ours v token s.active)
  unfolding delete_if_ours
  delete_if_ours-coherent v token = elim (Bool-cases (holds v token s.active)) [
    | inl ours ↦ rw ours (coherent-delete v s.active g.coherent)
    | inr theirs ↦ rw theirs g.coherent
  ]

  fire-IsGuarded : (t : Timer) → IsGuarded (fire s t)
  unfolding fire
  fire-IsGuarded t = record {
    coherent = delete_if_ours-coherent t.vault t.token;
    pending =
        delete_if_ours-All (WillBeFreed s.leases s.timers) _ t.vault t.token
          (λ e p apart. ground (arith, p, timed_for-drop e.0 e.1 t s.timers (other e apart)))
          g.pending;
    fresh = delete_if_ours-All (λ e. e.1 < s.next_token) _ t.vault t.token (λ e p _. p) g.fresh;
  }
    where
      other :
          (e : PublicKey × ℕ)
          → ¬ ((e.0 ≡ t.vault) × (e.1 ≡ t.token))
          → (t.token == e.1 && t.vault == e.0) ≡ false
      other e apart = ground arith

  settle_lease-IsGuarded :
      (l : Lease) (o : Outcome)
      → find_lease l.token s.leases ≡ some l
      → IsGuarded (settle_lease s l o)
  unfolding settle_lease
  settle_lease-IsGuarded l failed found = record {
    coherent = delete_if_ours-coherent l.vault l.token;
    pending =
        delete_if_ours-All (WillBeFreed s.leases s.timers) _ l.vault l.token
          (λ e p apart. kept_open s.leases s.timers l l.token e found apart p) g.pending;
    fresh = delete_if_ours-All (λ e. e.1 < s.next_token) _ l.vault l.token (λ e p _. p) g.fresh;
  }
  settle_lease-IsGuarded l submitted found = record {
    coherent = g.coherent;
    pending =
        All-map _ _ (λ e p. kept_timed s.leases s.timers l l.token e found p) s.active g.pending;
    fresh = g.fresh;
  }

  release-IsGuarded : (token : ℕ) (o : Outcome) → IsGuarded (release s token o)
  unfolding release settle_lease
  release-IsGuarded token o = elim (Option-cases (find_lease token s.leases)) [
    | inl e ↦ rw (e, release) g
    | inr (l, e) ↦ elim (Bool-cases l.released) [
      | inl again ↦ rw (e, again, release) g
      | inr first ↦
          let same = (find_lease-open l.vault token s.leases l e).0 in
          rw (e, first, release) (settle_lease-IsGuarded l o (rw (sym same) at e))
    ]
  ]

  grant-IsGuarded : (v : PublicKey) (r : ℕ) → holder v s.active ≡ none → IsGuarded (grant s v r)
  unfolding grant holder
  grant-IsGuarded v r free = record {
    coherent = (
      rw (==-refl v) refl,
      All-map _ _ (λ e p. ground (arith, p, free, taken e p)) s.active g.coherent,
    );
    pending = (
      ground arith,
      All-map (λ (e : PublicKey × ℕ). WillBeFreed s.leases s.timers e × (e.1 < s.next_token)) _
          (λ e p. ground (arith, p.0, p.1)) s.active (All-both _ _ s.active g.pending g.fresh),
    );
    fresh = (omega arith, All-map _ _ (λ e p. omega arith) s.active g.fresh);
  }
    where
      taken : (e : PublicKey × ℕ) → holder e.0 s.active ≡ some e.1 → (v == e.0) ≡ false
      taken e p = elim (Bool-cases (v == e.0)) [
        | inl same ↦
            let q : v ≡ e.0 = (==_iff v e.0).0 same in
            absurd (ground (arith, p, free, ap (λ u. holder u s.active) q))
        | inr other ↦ other
      ]

  acquire-IsGuarded : (v : PublicKey) (r : ℕ) → IsGuarded (acquire s v r).1
  unfolding acquire is_active
  acquire-IsGuarded v r = elim (Bool-cases (contains r s.submitted)) [
    | inl e ↦ rw e g
    | inr e ↦ elim (Option-cases (holder v s.active)) [
      | inl free ↦ rw (e, free, is_active) (grant-IsGuarded v r free)
      | inr (t, held) ↦ rw (e, held, is_active) g
    ]
  ]

Step-IsGuarded : {s t : Store} → Step s t → IsGuarded s → IsGuarded t
Step-IsGuarded (acquires s v r) g = acquire-IsGuarded s g v r
Step-IsGuarded (releases s token o) g = release-IsGuarded s g token o
Step-IsGuarded (fires s t) g = fire-IsGuarded s g t
Step-IsGuarded (settles s v) g = settle-IsGuarded s g v

-- In every store that can be reached from the empty one, by any calls in any order and timers at
-- any time, each vault that is held has a release that is still due or a pending timer that will
-- free it: no vault stays busy for ever. Each entry is the one that its vault finds, and its token
-- is below the next one.
pub Reach-IsGuarded : {s : Store} → Reach empty s → IsGuarded s
Reach-IsGuarded here = record { coherent = tt; pending = tt; fresh = tt }
Reach-IsGuarded (next r st) = Step-IsGuarded st (Reach-IsGuarded r)

contains-submitted-Step :
    {s t : Store} (r : ℕ) → Step s t → contains r s.submitted ≡ true → contains r t.submitted ≡ true
unfolding acquire grant release settle_lease fire settle
contains-submitted-Step r (acquires s v q) h = ground arith
contains-submitted-Step r (releases s token failed) h = ground arith
contains-submitted-Step r (releases s token submitted) h = ground arith
contains-submitted-Step r (fires s t) h = h
contains-submitted-Step r (settles s v) h = h

-- A request that was once submitted is refused ever after, for every vault, whatever happens in
-- between: settling the vault does not clear it.
pub acquire_duplicate :
    {s t : Store} (r : ℕ) (v : PublicKey)
    → contains r s.submitted ≡ true
    → Reach s t
    → acquire t v r ≡ (err (policy duplicate_request), t)
unfolding acquire
acquire_duplicate {s} r v h path = rw (still path) refl
  where
    still : {u : Store} → Reach s u → contains r u.submitted ≡ true
    still here = h
    still (next p st) = contains-submitted-Step r st (still p)

-- `acquire` grants a vault that nobody holds to a request that was not submitted, under the token
-- that is next, which it counts up, and changes no other vault's token. It refuses a submitted
-- request as `duplicate_request`, and any other request for a held vault as `vault_busy`, and then
-- the store stays as it was.
pub acquire_cases :
    (s : Store) (v : PublicKey) (r : ℕ)
    → ((contains r s.submitted ≡ false)
        × (holder v s.active ≡ none)
        × ((acquire s v r).0 ≡ ok s.next_token)
        × ((acquire s v r).1.next_token ≡ suc s.next_token)
        × ((u : PublicKey)
            → holder u (acquire s v r).1.active
              ≡ (if v == u then some s.next_token else holder u s.active)))
      ⊎ ((contains r s.submitted ≡ true)
          × ((acquire s v r).1 ≡ s)
          × ((acquire s v r).0 ≡ err (policy duplicate_request)))
      ⊎ ((contains r s.submitted ≡ false)
          × ((t : ℕ) × (holder v s.active ≡ some t))
          × ((acquire s v r).1 ≡ s)
          × ((acquire s v r).0 ≡ err (policy vault_busy)))
unfolding acquire is_active grant
acquire_cases s v r = elim (Bool-cases (contains r s.submitted)) [
  | inl e ↦ inr (inl (e, rw e refl, rw e refl))
  | inr e ↦ elim (Option-cases (holder v s.active)) [
    | inl free ↦ inl (
      e,
      free,
      rw (e, free, is_active) refl,
      rw (e, free, is_active) refl,
      λ u. rw (e, free, is_active) (grant-holder s v r u),
    )
    | inr (t, held) ↦
        inr (inr (e, (t, held), rw (e, held, is_active) refl, rw (e, held, is_active) refl))
  ]
]
