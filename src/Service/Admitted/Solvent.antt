-- ===== src/Service/Admitted/Solvent.antt =====
-- What an admitted vault and an admitted leg are.
use onchainburner.Base.{
  ℕ, ◌+◌, ◌-◌, ◌≤◌, ◌<◌, ◌≡◌, ◌⊎◌, refl, sym, ap, ◌∙◌, true, false, not, ◌&&◌, some, List, [], ◌∷◌,
  map, ltb, ◌==◌, arith,
}
use onchainburner.Base.Int.{ℤ, pos, negsuc}
use onchainburner.Base.Errors.{
  ok, policy, reject_if, require, require-eq-ok, AllPairs, >>=-eq-ok, ok-injective, reject_if-eq-ok,
  invalid_vault, insufficient_vault_balance, dust_remainder, zero_leg_amount,
}
use onchainburner.Chain.{PublicKey, Web3, wsol_mint, token_program, system_program}
use onchainburner.Split.{split_amounts}
use onchainburner.Admission.{
  MintSnapshot, TokenAccountSnapshot, require_allowed_mint, require_token_account,
}
use onchainburner.Admission.Burnable.{IsBurnable, IsUnencumbered, admitted_target, admitted_account}
use onchainburner.Service.{Gateway, RawAccount}
use onchainburner.Service.Resolved.{RequestedLeg, ResolvedRequest}
use onchainburner.Service.Admitted.{
  AdmittedLeg, is_not_bare, admit_vault, admit_leg, admit_legs, admit,
}
use mathlib.Core.Path.{subst}

module _ (w : Web3) (chain : Gateway) where
  -- The vault can pay the amount and is left empty or with rent; its wrapped SOL account is there
  -- and nobody else has a claim on it.
  pub record IsSolvent (pda : PublicKey) (amount : ℕ) (wsol_ata : PublicKey) : Type 0 where
    pub vault : RawAccount
    pub read : chain.get_raw_account pda ≡ ok (some vault)
    pub owner : vault.owner ≡ system_program
    pub bare : vault.data_length ≡ 0
    pub covered : amount ≤ vault.lamports
    pub floor : ℕ
    pub rent : chain.rent_floor ≡ ok floor
    pub left : (vault.lamports ≡ amount) ⊎ (amount + floor ≤ vault.lamports)
    pub account : TokenAccountSnapshot
    pub held : chain.get_token_account wsol_ata ≡ ok (some account)
    pub unencumbered : IsUnencumbered account wsol_ata token_program wsol_mint pda true

  admit_vault-IsSolvent :
      (launch_mint pda : PublicKey) (amount : ℕ) {wsol_ata : PublicKey}
      → admit_vault w chain launch_mint pda amount ≡ ok wsol_ata
      → IsSolvent pda amount wsol_ata
  unfolding admit_vault
  admit_vault-IsSolvent launch_mint pda amount e =
      let (launch, _, e1) = >>=-eq-ok (chain.get_mint launch_mint) _ e in
      let (checked, _, e2) = >>=-eq-ok (require_allowed_mint launch false) _ e1 in
      let (found, f, e3) = >>=-eq-ok (chain.get_raw_account pda) _ e2 in
      let (_, b, e4) = >>=-eq-ok (reject_if (is_not_bare found) invalid_vault) _ e3 in
      let (vault, v, e5) = >>=-eq-ok (require found (policy invalid_vault)) _ e4 in
      let there = require-eq-ok found (policy invalid_vault) v in
      let bare : is_not_bare (some vault) ≡ false =
        subst (λ o. is_not_bare o ≡ false) there
          (reject_if-eq-ok (is_not_bare found) invalid_vault b) in
      let short = ltb vault.lamports amount in
      let (_, c, e6) = >>=-eq-ok (reject_if short insufficient_vault_balance) _ e5 in
      let covered = reject_if-eq-ok short insufficient_vault_balance c in
      let (floor, r, e7) = >>=-eq-ok chain.rent_floor _ e6 in
      let remainder = vault.lamports - amount in
      let dust = not (remainder == 0) && ltb remainder floor in
      let (_, d, e8) = >>=-eq-ok (reject_if dust dust_remainder) _ e7 in
      let no_dust = reject_if-eq-ok dust dust_remainder d in
      let ata = w.associated_token_address wsol_mint pda token_program in
      let (account, g, e9) = >>=-eq-ok (chain.get_token_account ata) _ e8 in
      let (admitted, h, e10) =
        >>=-eq-ok (require_token_account account ata token_program wsol_mint pda true) _ e9 in
      let (a, same, u) = admitted_account account ata token_program wsol_mint pda true h in
      subst (IsSolvent pda amount) (ok-injective e10) (record {
        vault = vault;
        read = f ∙ ap ok there;
        owner = ground (arith, bare);
        bare = ground (arith, bare);
        covered = ground (arith, covered);
        floor = floor;
        rent = r;
        left = ground (arith, covered, no_dust);
        account = a;
        held = g ∙ ap ok same;
        unencumbered = u;
      })

  -- The leg keeps what was requested; its amount is positive, its floor is the reference's, its
  -- target is burnable, and the vault's account of the target is free of claims.
  pub record IsAdmittedLeg (pda : PublicKey) (leg : RequestedLeg) (a : AdmittedLeg) : Type 0 where
    pub target : a.target_mint ≡ leg.target_mint
    pub bps : a.bps ≡ leg.bps
    pub reference : a.reference ≡ leg.reference
    pub positive : 0 < a.amount_in
    pub floored : leg.reference.floor_for a.amount_in ≡ ok a.program_floor
    pub mint : MintSnapshot
    pub read : chain.get_mint leg.target_mint ≡ ok (some mint)
    pub burnable : IsBurnable mint
    pub program : a.token_program ≡ mint.owner_program
    pub account : TokenAccountSnapshot
    pub held : chain.get_token_account a.ata ≡ ok (some account)
    pub unencumbered : IsUnencumbered account a.ata a.token_program leg.target_mint pda false

  admit_leg-IsAdmittedLeg :
      (pda : PublicKey) (leg : RequestedLeg) (z : ℤ) {a : AdmittedLeg}
      → admit_leg w chain pda leg z ≡ ok a
      → IsAdmittedLeg pda leg a × (z ≡ pos a.amount_in)
  unfolding admit_leg
  admit_leg-IsAdmittedLeg pda leg (negsuc n) e = cc
  admit_leg-IsAdmittedLeg pda leg (pos amount) e =
      let (_, p, e1) = >>=-eq-ok (reject_if (amount == 0) zero_leg_amount) _ e in
      let zero_test = reject_if-eq-ok (amount == 0) zero_leg_amount p in
      let (found, f, e2) = >>=-eq-ok (chain.get_mint leg.target_mint) _ e1 in
      let (mint, m, e3) = >>=-eq-ok (require_allowed_mint found true) _ e2 in
      let (there, burnable) = admitted_target found m in
      let ata = w.associated_token_address leg.target_mint pda mint.owner_program in
      let (account, g, e4) = >>=-eq-ok (chain.get_token_account ata) _ e3 in
      let (admitted, h, e5) =
        >>=-eq-ok (require_token_account account ata mint.owner_program leg.target_mint pda false) _
          e4 in
      let (a, same, u) =
        admitted_account account ata mint.owner_program leg.target_mint pda false h in
      let (floor, k, e6) = >>=-eq-ok (leg.reference.floor_for amount) _ e5 in
      subst (λ (t : AdmittedLeg). IsAdmittedLeg pda leg t × (pos amount ≡ pos t.amount_in))
        (ok-injective e6)
        (
          record {
            target = refl;
            bps = refl;
            reference = refl;
            positive = ground (arith, zero_test);
            floored = k;
            mint = mint;
            read = f ∙ ap ok there;
            burnable = burnable;
            program = refl;
            account = a;
            held = g ∙ ap ok same;
            unencumbered = u;
          },
          refl,
        )

  legs-IsAdmittedLeg :
      (pda : PublicKey) (legs : List RequestedLeg) (zs : List ℤ) {out : List AdmittedLeg}
      → admit_legs w chain pda legs zs ≡ ok out
      → AllPairs (IsAdmittedLeg pda) legs out
  unfolding admit_legs
  legs-IsAdmittedLeg pda [] zs e = subst (AllPairs (IsAdmittedLeg pda) []) (ok-injective e) tt
  legs-IsAdmittedLeg pda (leg ∷ legs) [] e = cc
  legs-IsAdmittedLeg pda (leg ∷ legs) (z ∷ zs) e =
      let (a, f, e1) = >>=-eq-ok (admit_leg w chain pda leg z) _ e in
      let (rest, g, e2) = >>=-eq-ok (admit_legs w chain pda legs zs) _ e1 in
      subst (AllPairs (IsAdmittedLeg pda) (leg ∷ legs)) (ok-injective e2)
        ((admit_leg-IsAdmittedLeg pda leg z f).0, legs-IsAdmittedLeg pda legs zs g)

  -- Whatever is admitted, the vault is a bare System account that covers the burn and keeps nothing
  -- or its rent, its wrapped SOL account is free of claims, and every leg has a positive amount, a
  -- burnable target, the floor of its reference and an account of the vault that is free of claims.
  pub admit-IsSolvent :
      (r : ResolvedRequest) (wsol_ata : PublicKey) (legs : List AdmittedLeg)
      → admit w chain r ≡ ok (wsol_ata, legs)
      → IsSolvent r.pda r.amount wsol_ata × AllPairs (IsAdmittedLeg r.pda) r.requested_legs legs
  unfolding admit
  admit-IsSolvent r wsol_ata legs e =
      let (ata, f, e1) = >>=-eq-ok (admit_vault w chain r.launch_mint r.pda r.amount) _ e in
      let amounts = split_amounts r.amount (map (λ (l : RequestedLeg). l.bps) r.requested_legs) in
      let (out, g, e2) = >>=-eq-ok (admit_legs w chain r.pda r.requested_legs amounts) _ e1 in
      subst
        (λ (t : PublicKey × List AdmittedLeg).
          IsSolvent r.pda r.amount t.0 × AllPairs (IsAdmittedLeg r.pda) r.requested_legs t.1)
        (ok-injective e2)
        (
          admit_vault-IsSolvent r.launch_mint r.pda r.amount f,
          legs-IsAdmittedLeg r.pda r.requested_legs amounts g,
        )

  legs-amounts :
      (R : RequestedLeg → ℕ → Type 0) (pda : PublicKey) (legs : List RequestedLeg)
      (amounts : List ℕ) {out : List AdmittedLeg}
      → AllPairs R legs amounts
      → admit_legs w chain pda legs (map pos amounts) ≡ ok out
      → map (λ (a : AdmittedLeg). a.amount_in) out ≡ amounts
  unfolding admit_legs
  legs-amounts R pda [] [] h e = ap (map (λ (a : AdmittedLeg). a.amount_in)) (sym (ok-injective e))
  legs-amounts R pda [] (n ∷ amounts) h e = absurd h
  legs-amounts R pda (leg ∷ legs) [] h e = absurd h
  legs-amounts R pda (leg ∷ legs) (n ∷ amounts) (_, h) e =
      let (a, f, e1) = >>=-eq-ok (admit_leg w chain pda leg (pos n)) _ e in
      let (rest, g, e2) = >>=-eq-ok (admit_legs w chain pda legs (map pos amounts)) _ e1 in
      let same : n ≡ a.amount_in = pos-injective (admit_leg-IsAdmittedLeg pda leg (pos n) f).1 in
      subst (λ (o : List AdmittedLeg). map (λ (x : AdmittedLeg). x.amount_in) o ≡ n ∷ amounts)
        (ok-injective e2)
        (ap (λ m. m ∷ map (λ (x : AdmittedLeg). x.amount_in) rest) (sym same)
          ∙ ap (λ ms. n ∷ ms) (legs-amounts R pda legs amounts h g))
    where
      pos-injective : {m k : ℕ} → pos m ≡ pos k → m ≡ k
      pos-injective h = cc

  -- The amounts of the admitted legs are the ones that the request's amount is divided into.
  pub admit-amounts :
      (R : RequestedLeg → ℕ → Type 0) (r : ResolvedRequest) (amounts : List ℕ)
      (wsol_ata : PublicKey) (legs : List AdmittedLeg)
      → AllPairs R r.requested_legs amounts
      → split_amounts r.amount (map (λ (l : RequestedLeg). l.bps) r.requested_legs)
        ≡ map pos amounts
      → admit w chain r ≡ ok (wsol_ata, legs)
      → map (λ (a : AdmittedLeg). a.amount_in) legs ≡ amounts
  unfolding admit
  admit-amounts R r amounts wsol_ata legs h divided e =
      let (ata, f, e1) = >>=-eq-ok (admit_vault w chain r.launch_mint r.pda r.amount) _ e in
      let zs = split_amounts r.amount (map (λ (l : RequestedLeg). l.bps) r.requested_legs) in
      let (out, g, e2) = >>=-eq-ok (admit_legs w chain r.pda r.requested_legs zs) _ e1 in
      let same : out ≡ legs = ap (λ (t : PublicKey × List AdmittedLeg). t.1) (ok-injective e2) in
      ap (map (λ (a : AdmittedLeg). a.amount_in)) (sym same)
      ∙ legs-amounts R r.pda r.requested_legs amounts h
          (subst (λ z. admit_legs w chain r.pda r.requested_legs z ≡ ok out) divided g)
