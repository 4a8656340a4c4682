-- ===== src/Lease.antt =====
-- `InMemoryVaultLeaseStore` of quote-service/core.ts: one outstanding burn for each vault.
-- The store and the closures and timers that it hands out are one state: a lease is known by its
-- token, the `Symbol` of `acquire`, which no other lease has.
pub mod Steps
pub mod Granted
pub mod Guarded
use onchainburner.Base.{
  ℕ, suc, ◌+◌, Bool, true, false, ◌&&◌, ◌||◌, Option, none, some, List, [], ◌∷◌, contains, ◌==◌,
  if◌then◌else◌,
}
use onchainburner.Base.Errors.{Result, ok, err, policy, duplicate_request, vault_busy}
use onchainburner.Chain.{PublicKey}

-- What the closure of `release` holds: `key`, `token`, `requestId` and `released`.
pub record Lease : Type 0 where
  pub vault : PublicKey
  pub token : ℕ
  pub request : ℕ
  pub released : Bool

-- A timer that `setTimeout(deleteIfStillOurs, ttlMs)` left pending.
pub record Timer : Type 0 where
  pub vault : PublicKey
  pub token : ℕ

-- `active` is the map from vaults to tokens. `next_token` is below no token in use.
pub record Store : Type 0 where
  pub active : List (PublicKey × ℕ)
  pub submitted : List ℕ
  pub leases : List Lease
  pub timers : List Timer
  pub next_token : ℕ

pub data Outcome : Type 0 where
  failed submitted : Outcome

-- `this.active.get(key)`
pub holder : PublicKey → List (PublicKey × ℕ) → Option ℕ
holder v [] = none
holder v ((u, t) ∷ rest) = let later = holder v rest in if u == v then some t else later

-- `this.active.delete(key)`
pub delete : PublicKey → List (PublicKey × ℕ) → List (PublicKey × ℕ)
delete v [] = []
delete v ((u, t) ∷ rest) = let later = delete v rest in if u == v then later else (u, t) ∷ later

pub holds : PublicKey → ℕ → List (PublicKey × ℕ) → Bool
unfolding holder
holds v token active = elim (holder v active) [ none ↦ false | some t ↦ t == token ]

-- `deleteIfStillOurs`
pub delete_if_ours : PublicKey → ℕ → List (PublicKey × ℕ) → List (PublicKey × ℕ)
unfolding holds delete
delete_if_ours v token active = if holds v token active then delete v active else active

pub is_active : PublicKey → List (PublicKey × ℕ) → Bool
unfolding holder
is_active v active = elim (holder v active) [ none ↦ false | some _ ↦ true ]

-- The granting branch of `acquire`.
pub grant : Store → PublicKey → ℕ → Store
grant s vault request = record s {
  active = (vault, s.next_token) ∷ s.active;
  leases =
      record { vault = vault; token = s.next_token; request = request; released = false }
      ∷ s.leases;
  next_token = suc s.next_token;
}

-- `acquire`. The result is the token of the lease.
pub acquire : Store → PublicKey → ℕ → Result ℕ × Store
acquire s vault request =
    if contains request s.submitted
    then (err (policy duplicate_request), s)
    else if is_active vault s.active
    then (err (policy vault_busy), s)
    else (ok s.next_token, grant s vault request)

abbrev pub find_lease : ℕ → List Lease → Option Lease
find_lease token [] = none
find_lease token (l ∷ ls) =
    let later = find_lease token ls in if l.token == token then some l else later

abbrev pub mark_released : ℕ → List Lease → List Lease
mark_released token [] = []
mark_released token (l ∷ ls) =
    (if l.token == token then record l { released = true } else l) ∷ mark_released token ls

-- The first call of `release` on a lease.
pub settle_lease : Store → Lease → Outcome → Store
settle_lease s l failed = record s {
  active = delete_if_ours l.vault l.token s.active;
  leases = mark_released l.token s.leases;
}
settle_lease s l submitted = record s {
  submitted = l.request ∷ s.submitted;
  timers = record { vault = l.vault; token = l.token } ∷ s.timers;
  leases = mark_released l.token s.leases;
}

-- `lease.release(outcome)`; only the first call does anything.
pub release : Store → ℕ → Outcome → Store
release s token outcome = elim (find_lease token s.leases) [
  | none ↦ s
  | some l ↦ if l.released then s else settle_lease s l outcome
]

-- The timer leaves the pending ones.
abbrev pub drop_timer : Timer → List Timer → List Timer
drop_timer x [] = []
drop_timer x (t ∷ ts) =
    let later = drop_timer x ts in
    if t.token == x.token && t.vault == x.vault then ts else t ∷ later

-- A pending timer fires.
pub fire : Store → Timer → Store
fire s t = record s {
  active = delete_if_ours t.vault t.token s.active;
  timers = drop_timer t s.timers;
}

-- `settle`
pub settle : Store → PublicKey → Store
settle s vault = record s { active = delete vault s.active }

abbrev pub empty : Store
empty = record { active = []; submitted = []; leases = []; timers = []; next_token = 0 }

-- What a test unfolds.
unfoldable pub leasing : Unit {0}
unfolding acquire grant is_active release settle_lease fire settle delete_if_ours holds holder
    delete
leasing = tt
