-- ===== src/Tests/Leases.antt =====
-- A vault that is taken, and freed by the timer of its own lease only.
use onchainburner.Base.{
  ℕ, suc, ◌≡◌, ◌⊎◌, refl, true, false, none, some, contains, ◌==◌, if◌then◌else◌,
}
use onchainburner.Base.Errors.{ok, err, policy, duplicate_request, vault_busy}
use onchainburner.Chain.{PublicKey}
use onchainburner.Lease.{Store, submitted, holder, acquire, release, fire, settle, empty, leasing}
use onchainburner.Lease.Steps.{IsGuarded}
use onchainburner.Lease.Guarded.{
  Reach, here, next, acquires, releases, settles, Reach-IsGuarded, acquire_duplicate, acquire_cases,
}

abbrev taken : Store
taken = (acquire empty 5 40).1

abbrev sent : Store
sent = release taken 0 submitted

abbrev retaken : Store
retaken = (acquire (settle sent 5) 5 41).1

busy : (acquire taken 5 41).0 ≡ err (policy vault_busy)
unfolding leasing
busy = refl

-- The first lease's timer leaves the vault with the second lease.
late_timer : holder 5 (fire retaken (record { vault = 5; token = 0 })).active ≡ some 1
unfolding leasing
late_timer = refl

retaken_reached : Reach empty retaken
retaken_reached =
    next
      (next (next (next here (acquires empty 5 40)) (releases taken 0 submitted)) (settles sent 5))
      (acquires (settle sent 5) 5 41)

Reach-IsGuarded_example : IsGuarded retaken
Reach-IsGuarded_example = Reach-IsGuarded retaken_reached

sent_submitted : contains 40 sent.submitted ≡ true
unfolding leasing
sent_submitted = refl

sent_later : Reach sent retaken
sent_later = next (next here (settles sent 5)) (acquires (settle sent 5) 5 41)

acquire_duplicate_example : acquire retaken 9 40 ≡ (err (policy duplicate_request), retaken)
acquire_duplicate_example = acquire_duplicate 40 9 sent_submitted sent_later

acquire_cases_example :
    ((contains 41 taken.submitted ≡ false)
      × (holder 5 taken.active ≡ none)
      × ((acquire taken 5 41).0 ≡ ok taken.next_token)
      × ((acquire taken 5 41).1.next_token ≡ suc taken.next_token)
      × ((u : PublicKey)
          → holder u (acquire taken 5 41).1.active
            ≡ (if 5 == u then some taken.next_token else holder u taken.active)))
    ⊎ ((contains 41 taken.submitted ≡ true)
        × ((acquire taken 5 41).1 ≡ taken)
        × ((acquire taken 5 41).0 ≡ err (policy duplicate_request)))
    ⊎ ((contains 41 taken.submitted ≡ false)
        × ((t : ℕ) × (holder 5 taken.active ≡ some t))
        × ((acquire taken 5 41).1 ≡ taken)
        × ((acquire taken 5 41).0 ≡ err (policy vault_busy)))
acquire_cases_example = acquire_cases taken 5 41
