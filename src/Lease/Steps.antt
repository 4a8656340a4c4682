-- ===== src/Lease/Steps.antt =====
-- What can happen to the store, and what holds of every store that can be reached.
use onchainburner.Base.{
  ℕ, ◌<◌, ◌≡◌, ◌≢◌, refl, sym, ap, Bool, true, false, not, ◌&&◌, ◌||◌, none, some, List, [], ◌∷◌,
  ◌==◌, if◌then◌else◌, All, All-map, arith, Bool-cases, inl, inr, ==_iff,
}
use onchainburner.Chain.{PublicKey}
use onchainburner.Lease.{
  Lease, Timer, Store, holder, delete, holds, delete_if_ours, find_lease, mark_released, drop_timer,
}

pub holder-delete :
    (u v : PublicKey) (active : List (PublicKey × ℕ))
    → holder u (delete v active) ≡ (if u == v then none else holder u active)
unfolding holder delete
holder-delete u v [] = ground arith
holder-delete u v ((w, t) ∷ rest) = ground (arith, holder-delete u v rest)

-- A deferred delete frees its own vault and no other, and only while its own token holds it: the
-- timer or the failed release of an earlier lease never frees the vault of a later one.
pub holder-delete_if_ours :
    (u v : PublicKey) (token : ℕ) (active : List (PublicKey × ℕ))
    → holder u (delete_if_ours v token active)
      ≡ (if u == v && holds v token active then none else holder u active)
unfolding delete_if_ours
holder-delete_if_ours u v token active = ground (arith, holder-delete u v active)

pub All-delete :
    (P : PublicKey × ℕ → Type 0) (v : PublicKey) (active : List (PublicKey × ℕ))
    → All P active
    → All (λ e. P e × (e.0 ≢ v)) (delete v active)
unfolding delete
All-delete P v [] h = tt
All-delete P v ((w, t) ∷ rest) (p, h) = elim (Bool-cases (w == v)) [
  | inl e ↦ rw e (All-delete P v rest h)
  | inr e ↦ rw e ((p, ground arith), All-delete P v rest h)
]

-- The lease of the token is still open, for this vault.
abbrev pub open_for : PublicKey → ℕ → List Lease → Bool
open_for v token [] = false
open_for v token (l ∷ ls) =
    let later = open_for v token ls in
    if l.token == token then l.vault == v && not l.released else later

abbrev pub timed_for : PublicKey → ℕ → List Timer → Bool
timed_for v token [] = false
timed_for v token (t ∷ ts) = (t.token == token && t.vault == v) || timed_for v token ts

-- Something will free the vault: a release that is still due, or a pending timer.
abbrev pub WillBeFreed : List Lease → List Timer → PublicKey × ℕ → Type 0
WillBeFreed leases timers e = (open_for e.0 e.1 leases || timed_for e.0 e.1 timers) ≡ true

pub record IsGuarded (s : Store) : Type 0 where
  pub coherent : All (λ e. holder e.0 s.active ≡ some e.1) s.active
  pub pending : All (WillBeFreed s.leases s.timers) s.active
  pub fresh : All (λ e. e.1 < s.next_token) s.active

pub open_for-mark_released :
    (v : PublicKey) (t k : ℕ) (ls : List Lease)
    → t ≢ k
    → open_for v t (mark_released k ls) ≡ open_for v t ls
open_for-mark_released v t k [] h = refl
open_for-mark_released v t k (l ∷ ls) h = ground (arith, open_for-mark_released v t k ls h)

pub find_lease-open :
    (v : PublicKey) (t : ℕ) (ls : List Lease) (l : Lease)
    → find_lease t ls ≡ some l
    → (l.token ≡ t) × (open_for v t ls ≡ true → l.vault ≡ v)
find_lease-open v t [] l e = cc
find_lease-open v t (x ∷ ls) l e = ground (arith, find_lease-open v t ls l)

pub timed_for-drop :
    (v : PublicKey) (t : ℕ) (x : Timer) (ts : List Timer)
    → ((x.token == t && x.vault == v) ≡ false)
    → timed_for v t (drop_timer x ts) ≡ timed_for v t ts
timed_for-drop v t x [] h = refl
timed_for-drop v t x (y ∷ ts) h = ground (arith, timed_for-drop v t x ts h)

-- Coherence survives a deletion.
pub coherent-delete :
    (v : PublicKey) (active : List (PublicKey × ℕ))
    → All (λ e. holder e.0 active ≡ some e.1) active
    → All (λ e. holder e.0 (delete v active) ≡ some e.1) (delete v active)
coherent-delete v active h =
    All-map _ _ (λ e p. ground (arith, p, holder-delete e.0 v active)) (delete v active)
      (All-delete _ v active h)

pub kept_open :
    (ls : List Lease) (ts : List Timer) (l : Lease) (k : ℕ) (e : PublicKey × ℕ)
    → find_lease k ls ≡ some l
    → ¬ ((e.0 ≡ l.vault) × (e.1 ≡ k))
    → WillBeFreed ls ts e
    → WillBeFreed (mark_released k ls) ts e
kept_open ls ts l k (v, t) found apart h = elim (Bool-cases (t == k)) [
  | inl same ↦
      let e : t ≡ k = (==_iff t k).0 same in
      let (_, own) = find_lease-open v k ls l found in rw e (kept_same e own (rw e at h))
  | inr other ↦ let ne : t ≢ k = ground arith in rw (open_for-mark_released v t k ls ne) h
]
  where
    kept_same :
        t ≡ k
        → (open_for v k ls ≡ true → l.vault ≡ v)
        → (open_for v k ls || timed_for v k ts) ≡ true
        → (open_for v k (mark_released k ls) || timed_for v k ts) ≡ true
    kept_same e own p = elim (Bool-cases (open_for v k ls)) [
      | inl o ↦ absurd (apart (sym (own o), e))
      | inr c ↦ ground (arith, p, c)
    ]

pub kept_timed :
    (ls : List Lease) (ts : List Timer) (l : Lease) (k : ℕ) (e : PublicKey × ℕ)
    → find_lease k ls ≡ some l
    → WillBeFreed ls ts e
    → WillBeFreed (mark_released k ls) (record { vault = l.vault; token = k } ∷ ts) e
kept_timed ls ts l k (v, t) found h = elim (Bool-cases (t == k)) [
  | inl same ↦
      let e : t ≡ k = (==_iff t k).0 same in
      let (_, own) = find_lease-open v k ls l found in
      ground (arith, own, e, ap (λ n. open_for v n ls) e)
  | inr other ↦ let ne : t ≢ k = ground arith in ground (arith, open_for-mark_released v t k ls ne)
]
