-- ===== src/Wire/Layout.antt =====
-- Where the accounts of a burn stand, and who signs it.
use onchainburner.Base.{
  ℕ, zero, suc, true, ◌+◌, ◌*◌, ◌≡◌, refl, ap, ◌∙◌, false, some, List, [], ◌∷◌, ◌++◌, length,
  get_elem?, drop, All, All-append, arith,
}
use onchainburner.Base.Errors.{ok, >>=-eq-ok, ok-injective}
use onchainburner.Chain.{PublicKey, AccountMeta, Instruction}
use onchainburner.Wire.{
  PreparedLeg, plain, writable, leg_keys, route_keys, fixed_keys, burn_keys, split_data,
  build_burn_instruction,
}
use mathlib.Core.List.{flat_map, map}
use mathlib.Core.Path.{subst}

get_elem?-append :
    {A : Type 0} (front rest : List A) (i : ℕ)
    → get_elem? (front ++ rest) (length front + i) ≡ get_elem? rest i
get_elem?-append [] rest i = let e : 0 + i ≡ i = omega arith in ap (get_elem? rest) e
get_elem?-append (x ∷ front) rest i =
    let e : suc (length front) + i ≡ suc (length front + i) = omega arith in
    ap (get_elem? (x ∷ (front ++ rest))) e ∙ get_elem?-append front rest i

get_elem?-front :
    {A : Type 0} (front rest : List A) (i : ℕ) {k : A}
    → get_elem? front i ≡ some k
    → get_elem? (front ++ rest) i ≡ some k
get_elem?-front [] rest i e = cc
get_elem?-front (x ∷ front) rest zero e = e
get_elem?-front (x ∷ front) rest (suc i) e = get_elem?-front front rest i e

length-leg_keys : (leg : PreparedLeg) → length (leg_keys leg) ≡ 7
unfolding leg_keys
length-leg_keys leg = refl

-- The account at place `i` of the block of the leg behind `front`.
leg_key_at :
    (front rest : List PreparedLeg) (leg : PreparedLeg) (i : ℕ) {k : AccountMeta}
    → get_elem? (leg_keys leg) i ≡ some k
    → get_elem? (flat_map leg_keys (front ++ leg ∷ rest)) (length front * 7 + i) ≡ some k
unfolding flat_map
leg_key_at [] rest leg i e =
    let same : 0 * 7 + i ≡ i = omega arith in
    rw same (get_elem?-front (leg_keys leg) (flat_map leg_keys rest) i e)
leg_key_at (l ∷ front) rest leg i e =
    let same : suc (length front) * 7 + i ≡ length (leg_keys l) + (length front * 7 + i) =
      omega (arith, length-leg_keys l) in
    rw same (
      get_elem?-append (leg_keys l) (flat_map leg_keys (front ++ leg ∷ rest)) (length front * 7 + i)
      ∙ leg_key_at front rest leg i e)

-- What the service places where the indexer looks.
pub record IsLaidOut (launch_mint pda : PublicKey) (front : List PreparedLeg) (leg : PreparedLeg)
    (keys : List AccountMeta) : Type 0 where
  pub vault : get_elem? keys 2 ≡ some (writable pda)
  pub launch : get_elem? keys 4 ≡ some (plain launch_mint)
  pub target : get_elem? keys (8 + length front * 7) ≡ some (writable leg.target_mint)
  pub reference : get_elem? keys (11 + length front * 7) ≡ some (plain leg.reference.pool)

module _ (burner_program fee_payer launch_mint pda wsol_ata : PublicKey) where
  burn_key_at :
      (front rest : List PreparedLeg) (leg : PreparedLeg) (i : ℕ) {k : AccountMeta}
      → get_elem? (leg_keys leg) i ≡ some k
      → get_elem?
          (burn_keys burner_program fee_payer launch_mint pda wsol_ata (front ++ leg ∷ rest))
          (8 + (length front * 7 + i))
        ≡ some k
  unfolding burn_keys fixed_keys
  burn_key_at front rest leg i e =
      get_elem?-append (fixed_keys burner_program fee_payer launch_mint pda wsol_ata) _
        (length front * 7 + i)
      ∙ get_elem?-front (flat_map leg_keys (front ++ leg ∷ rest)) _ (length front * 7 + i)
          (leg_key_at front rest leg i e)

  burn_keys-IsLaidOut :
      (front rest : List PreparedLeg) (leg : PreparedLeg)
      → IsLaidOut launch_mint pda front leg
          (burn_keys burner_program fee_payer launch_mint pda wsol_ata (front ++ leg ∷ rest))
  unfolding burn_keys fixed_keys leg_keys
  burn_keys-IsLaidOut front rest leg =
      let keys =
        burn_keys burner_program fee_payer launch_mint pda wsol_ata (front ++ leg ∷ rest) in
      let e : 8 + (length front * 7 + 0) ≡ 8 + length front * 7 = omega arith in
      let e' : 8 + (length front * 7 + 3) ≡ 11 + length front * 7 = omega arith in
      record {
        vault = refl;
        launch = refl;
        target = rw (e) at (burn_key_at front rest leg 0 refl);
        reference = rw (e') at (burn_key_at front rest leg 3 refl);
      }

  -- In every burn instruction that the service builds, the vault, the launch mint, and each leg's
  -- target mint and reference pool stand at the places where the indexer looks for them.
  pub build_burn_instruction-IsLaidOut :
      (amount : ℕ) (front rest : List PreparedLeg) (leg : PreparedLeg) {built : Instruction}
      → build_burn_instruction burner_program fee_payer launch_mint pda wsol_ata amount
          (front ++ leg ∷ rest)
        ≡ ok built
      → IsLaidOut launch_mint pda front leg built.keys
  unfolding build_burn_instruction
  build_burn_instruction-IsLaidOut amount front rest leg e =
      let (_, _, e1) = >>=-eq-ok (split_data amount (front ++ leg ∷ rest)) _ e in
      subst (λ (b : Instruction). IsLaidOut launch_mint pda front leg b.keys) (ok-injective e1)
        (burn_keys-IsLaidOut front rest leg)

abbrev pub Unsigned : List AccountMeta → Type 0
Unsigned keys = All (λ (k : AccountMeta). k.is_signer ≡ false) keys

Unsigned-append : (xs ys : List AccountMeta) → Unsigned xs → Unsigned ys → Unsigned (xs ++ ys)
Unsigned-append xs ys h k = All-append (λ (m : AccountMeta). m.is_signer ≡ false) xs ys h k

Unsigned-flat_map :
    (f : PreparedLeg → List AccountMeta) (legs : List PreparedLeg)
    → ((leg : PreparedLeg) → Unsigned (f leg))
    → Unsigned (flat_map f legs)
unfolding flat_map
Unsigned-flat_map f [] h = tt
Unsigned-flat_map f (leg ∷ legs) h = Unsigned-append (f leg) _ (h leg) (Unsigned-flat_map f legs h)

leg_keys-Unsigned : (leg : PreparedLeg) → Unsigned (leg_keys leg)
unfolding leg_keys
leg_keys-Unsigned leg = (refl, (refl, (refl, (refl, (refl, (refl, (refl, tt)))))))

Unsigned-route :
    (accounts : List AccountMeta)
    → Unsigned (
        map
          (λ (a : AccountMeta). record {
            pubkey = a.pubkey;
            is_signer = false;
            is_writable = a.is_writable;
          })
          accounts)
Unsigned-route [] = tt
Unsigned-route (a ∷ accounts) = (refl, Unsigned-route accounts)

route_keys-Unsigned : (leg : PreparedLeg) → Unsigned (route_keys leg)
unfolding route_keys
route_keys-Unsigned leg = Unsigned-route leg.route_accounts

-- Whatever signatures the routes ask for, the fee payer is the only signer of a burn instruction:
-- it comes first, and no account behind it signs.
pub build_burn_instruction-signer :
    (burner_program fee_payer launch_mint pda wsol_ata : PublicKey) (amount : ℕ)
    (legs : List PreparedLeg) {built : Instruction}
    → build_burn_instruction burner_program fee_payer launch_mint pda wsol_ata amount legs
      ≡ ok built
    → (get_elem? built.keys 0
        ≡ some (record { pubkey = fee_payer; is_signer = true; is_writable = false }))
      × Unsigned (drop 1 built.keys)
unfolding build_burn_instruction burn_keys fixed_keys
build_burn_instruction-signer burner_program fee_payer launch_mint pda wsol_ata amount legs e =
    let (_, _, e1) = >>=-eq-ok (split_data amount legs) _ e in
    subst
      (λ (b : Instruction).
        (get_elem? b.keys 0
          ≡ some (record { pubkey = fee_payer; is_signer = true; is_writable = false }))
        × Unsigned (drop 1 b.keys))
      (ok-injective e1) (refl, (refl, (refl, (refl, (refl, (refl, (refl, (refl, others))))))))
  where
    others : Unsigned (flat_map leg_keys legs ++ flat_map route_keys legs)
    others =
        Unsigned-append (flat_map leg_keys legs) (flat_map route_keys legs)
          (Unsigned-flat_map leg_keys legs leg_keys-Unsigned)
          (Unsigned-flat_map route_keys legs route_keys-Unsigned)
