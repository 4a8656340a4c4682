-- ===== src/Admission/Burnable.antt =====
-- What an admitted mint and an admitted token account are.
use mathlib.Core.Path.{subst}
use onchainburner.Base.{
  ℕ, ◌≡◌, ◌≢◌, ◌⊎◌, ◌↔◌, refl, sym, ap, ◌∙◌, Bool, true, false, not, ◌&&◌, ◌||◌, Option, none, some,
  List, [], ◌∷◌, length, ◌==◌, if◌then◌else◌, All, Bool-cases, arith, inl, inr,
}
use onchainburner.Base.Errors.{
  Error, ok, err, reject_if, >>=-eq-ok, ok-injective, reject_if-eq-ok, invalid_mint,
  invalid_mint_owner, target_mint_native, target_mintable, target_freezable, invalid_token_account,
  encumbered_token_account, unsupported_token_2022_account,
}
use onchainburner.Chain.{PublicKey, wsol_mint, native_mint_2022, token_program, token_2022_program}
use onchainburner.Admission.{
  MintSnapshot, TokenAccountSnapshot, is_there, is_allowed_extension, extensions_loop,
  require_target_mint, require_allowed_mint, same_flag, account_extensions_loop,
  require_token_account,
}

-- A mint of which burned supply stays burned and no account can be frozen.
pub record IsBurnable (m : MintSnapshot) : Type 0 where
  pub initialized : m.initialized ≡ true
  pub owner : (m.owner_program ≡ token_program) ⊎ (m.owner_program ≡ token_2022_program)
  pub not_native : m.address ≢ wsol_mint
  pub not_native_2022 : m.address ≢ native_mint_2022
  pub mint_authority : m.mint_authority ≡ none
  pub freeze_authority : m.freeze_authority ≡ none
  pub extensions :
      m.owner_program ≡ token_2022_program
      → All (λ e. is_allowed_extension m e ≡ true) m.extension_types

err-ok : {e : Error} {u : Unit {0}} → err e ≡ ok u → ⊥
err-ok h = cc

extensions_loop_iff :
    (m : MintSnapshot) (es : List ℕ)
    → (extensions_loop m es ≡ ok tt) ↔ All (λ e. is_allowed_extension m e ≡ true) es
unfolding extensions_loop
extensions_loop_iff m [] = (λ e. tt, λ h. refl)
extensions_loop_iff m (x ∷ es) = elim (Bool-cases (is_allowed_extension m x)) [
  | inl y ↦ (
    λ e. (y, (extensions_loop_iff m es).0 (rw y at e)),
    λ h. rw y ((extensions_loop_iff m es).1 h.1),
  )
  | inr n ↦ (λ e. absurd (err-ok (rw n at e)), λ h. absurd (cc (n, h.0)))
]

not_there : (o : Option PublicKey) → is_there o ≡ false → o ≡ none
not_there none e = refl
not_there (some k) e = cc

target_sound :
    (m : MintSnapshot) {r : MintSnapshot}
    → require_allowed_mint (some m) true ≡ ok r
    → (r ≡ m) × IsBurnable m
unfolding require_allowed_mint require_target_mint extensions_loop
target_sound m e =
    let (_, a1, e1) = >>=-eq-ok (reject_if (not m.initialized) invalid_mint) _ e in
    let foreign =
      not (m.owner_program == token_program) && not (m.owner_program == token_2022_program) in
    let (_, a2, e2) = >>=-eq-ok (reject_if foreign invalid_mint_owner) _ e1 in
    let native = m.address == wsol_mint || m.address == native_mint_2022 in
    let (_, a3, e3) = >>=-eq-ok (reject_if native target_mint_native) _ e2 in
    let (_, a4, e4) = >>=-eq-ok (reject_if (is_there m.mint_authority) target_mintable) _ e3 in
    let (_, a5, e5) = >>=-eq-ok (reject_if (is_there m.freeze_authority) target_freezable) _ e4 in
    let (u, a6, e6) =
      >>=-eq-ok
        (if m.owner_program == token_2022_program
          then extensions_loop m m.extension_types
          else ok tt)
        _ e5 in
    let b2 = reject_if-eq-ok foreign invalid_mint_owner a2 in
    let b3 = reject_if-eq-ok native target_mint_native a3 in
    (
      sym (ok-injective e6),
      record {
        initialized = ground (arith, reject_if-eq-ok _ _ a1);
        owner = ground (arith, b2);
        not_native = ground (arith, b3);
        not_native_2022 = ground (arith, b3);
        mint_authority = not_there m.mint_authority (reject_if-eq-ok _ _ a4);
        freeze_authority = not_there m.freeze_authority (reject_if-eq-ok _ _ a5);
        extensions = λ same. (extensions_loop_iff m m.extension_types).0 (rw same at a6);
      },
    )

target_complete : (m : MintSnapshot) → IsBurnable m → require_allowed_mint (some m) true ≡ ok m
unfolding require_allowed_mint require_target_mint extensions_loop
target_complete m v =
    rw (v.initialized, owned, native, v.mint_authority, v.freeze_authority)
      (elim (Bool-cases (m.owner_program == token_2022_program)) [
        | inl y ↦
            rw (y, (extensions_loop_iff m m.extension_types).1 (v.extensions (ground (arith, y))))
              refl
        | inr n ↦ rw n refl
      ])
  where
    owned :
        (not (m.owner_program == token_program) && not (m.owner_program == token_2022_program))
        ≡ false
    owned = elim v.owner [ inl e ↦ ground (arith, e) | inr e ↦ ground (arith, e) ]

    native : (m.address == wsol_mint || m.address == native_mint_2022) ≡ false
    native = ground (arith, v.not_native, v.not_native_2022)

-- A target mint is admitted exactly when it is initialized, belongs to one of the two token
-- programs, is neither of the native mints, has neither a mint nor a freeze authority, and, under
-- Token-2022, has no extension but those allowed; what is admitted is the snapshot itself.
pub require_allowed_mint_iff :
    (m r : MintSnapshot) → (require_allowed_mint (some m) true ≡ ok r) ↔ ((r ≡ m) × IsBurnable m)
require_allowed_mint_iff m r = (target_sound m, λ h. target_complete m h.1 ∙ ap ok (sym h.0))

-- A token account that the program holds at the expected address with no claim on it.
pub record IsUnencumbered (a : TokenAccountSnapshot)
    (expected_address expected_program expected_mint expected_authority : PublicKey)
    (expected_native : Bool) : Type 0 where
  pub address : a.address ≡ expected_address
  pub initialized : a.initialized ≡ true
  pub program : a.owner_program ≡ expected_program
  pub mint : a.mint ≡ expected_mint
  pub authority : a.authority ≡ expected_authority
  pub native : a.is_native ≡ expected_native
  pub delegate : a.delegate ≡ none
  pub close_authority : a.close_authority ≡ none
  pub extensions : All (λ e. (e ≡ 7) ⊎ (e ≡ 15)) a.extension_types
  pub legacy : expected_program ≢ token_2022_program → a.extension_types ≡ []

account_extensions-eq-ok :
    (es : List ℕ) → account_extensions_loop es ≡ ok tt → All (λ e. (e ≡ 7) ⊎ (e ≡ 15)) es
unfolding account_extensions_loop
account_extensions-eq-ok [] e = tt
account_extensions-eq-ok (x ∷ es) e =
    let (_, a, e1) =
      >>=-eq-ok (reject_if (not (x == 7) && not (x == 15)) unsupported_token_2022_account) _ e in
    let h = reject_if-eq-ok (not (x == 7) && not (x == 15)) unsupported_token_2022_account a in
    (ground (arith, h), account_extensions-eq-ok es e1)

same_flag-eq : (a b : Bool) → not (same_flag a b) ≡ false → a ≡ b
same_flag-eq true true e = refl
same_flag-eq true false e = cc
same_flag-eq false true e = cc
same_flag-eq false false e = refl

or-false : (a b : Bool) → (a || b) ≡ false → (a ≡ false) × (b ≡ false)
or-false true b e = cc
or-false false b e = (refl, e)

no_elements : (es : List ℕ) → not (length es == 0) ≡ false → es ≡ []
no_elements [] e = refl
no_elements (x ∷ es) e = ground arith

-- A token account that is admitted is the one at the expected address, initialized, with the
-- expected owner program, mint, authority and native flag, without a delegate or a close authority,
-- with no extension but the two allowed ones, and with none under the legacy program.
pub require_token_account-IsUnencumbered :
    (a : TokenAccountSnapshot) (address program mint authority : PublicKey) (native : Bool)
    {r : TokenAccountSnapshot}
    → require_token_account (some a) address program mint authority native ≡ ok r
    → (r ≡ a) × IsUnencumbered a address program mint authority native
unfolding require_token_account
require_token_account-IsUnencumbered a address program mint authority native e =
    let missing = not (a.address == address) || not a.initialized in
    let (_, a1, e1) = >>=-eq-ok (reject_if missing invalid_token_account) _ e in
    let claimed = is_there a.delegate || is_there a.close_authority in
    let wrong =
      not (a.owner_program == program)
      || not (a.mint == mint)
      || not (a.authority == authority)
      || not (same_flag a.is_native native) in
    let (_, a2, e2) = >>=-eq-ok (reject_if wrong invalid_token_account) _ e1 in
    let (_, a3, e3) = >>=-eq-ok (reject_if claimed encumbered_token_account) _ e2 in
    let (u, a4, e4) =
      >>=-eq-ok
        (if program == token_2022_program
          then account_extensions_loop a.extension_types
          else reject_if (not (length a.extension_types == 0)) invalid_token_account)
        _ e3 in
    let b1 = reject_if-eq-ok missing invalid_token_account a1 in
    let b2 = reject_if-eq-ok wrong invalid_token_account a2 in
    let (b2a, flag) = or-false _ (not (same_flag a.is_native native)) b2 in
    let (d, c) =
      or-false (is_there a.delegate) _ (reject_if-eq-ok claimed encumbered_token_account a3) in
    let (es, none_legacy) = extensions a4 in
    (
      sym (ok-injective e4),
      record {
        address = ground (arith, b1);
        initialized = ground (arith, b1);
        program = ground (arith, b2a);
        mint = ground (arith, b2a);
        authority = ground (arith, b2a);
        native = same_flag-eq a.is_native native flag;
        delegate = not_there a.delegate d;
        close_authority = not_there a.close_authority c;
        extensions = es;
        legacy = none_legacy;
      },
    )
  where
    extensions :
        (if program == token_2022_program
            then account_extensions_loop a.extension_types
            else reject_if (not (length a.extension_types == 0)) invalid_token_account)
          ≡ ok tt
        → All (λ e. (e ≡ 7) ⊎ (e ≡ 15)) a.extension_types
          × (program ≢ token_2022_program → a.extension_types ≡ [])
    extensions h = elim (Bool-cases (program == token_2022_program)) [
      | inl y ↦ (
        account_extensions-eq-ok a.extension_types (rw y at h),
        λ n. absurd (n (ground (arith, y))),
      )
      | inr n ↦
          let e = no_elements a.extension_types (
            reject_if-eq-ok (not (length a.extension_types == 0)) invalid_token_account
              (rw n at h)) in
          (rw e tt, λ _. e)
    ]

-- An admitted target and an admitted account are there.
pub admitted_target :
    (found : Option MintSnapshot) {m : MintSnapshot}
    → require_allowed_mint found true ≡ ok m
    → (found ≡ some m) × IsBurnable m
unfolding require_allowed_mint
admitted_target none e = cc
admitted_target (some x) e =
    let (same, b) = target_sound x e in (ap some (sym same), subst IsBurnable (sym same) b)

pub admitted_account :
    (found : Option TokenAccountSnapshot) (address program mint authority : PublicKey)
    (native : Bool) {r : TokenAccountSnapshot}
    → require_token_account found address program mint authority native ≡ ok r
    → (a : TokenAccountSnapshot) × (found ≡ some a)
      × IsUnencumbered a address program mint authority native
unfolding require_token_account
admitted_account none address program mint authority native e = cc
admitted_account (some a) address program mint authority native e =
    (a, refl, (require_token_account-IsUnencumbered a address program mint authority native e).1)
