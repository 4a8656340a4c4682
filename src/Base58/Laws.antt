-- ===== src/Base58/Laws.antt =====
-- The number that a base58 text spells is the number that its bytes spell.
use onchainburner.Base.{
  ℕ, zero, suc, ◌+◌, ◌*◌, ◌/◌, ◌≤◌, ◌≡◌, refl, ap, ◌∙◌, Option, some, List, [], ◌∷◌, ◌++◌, Bytes,
  IsByte, le_value, All, All-append, All-reverse, arith, Option-cases, inl, inr,
}
use onchainburner.Base58.{
  base58, index_of, push_carry, times58, digits_loop, leading_zeroes, decode_base58,
}
use mathlib.Core.List.{reverse, reverse-cons}
use mathlib.Core.Path.{subst}
use mathlib.Core.Option.{some-injective}
use onchainburner.Base.Maybe.{◌>>=◌, >>=-eq-some}

-- The number that a text spells in base 58, the highest digit first; none at a foreign character.
unfoldable pub spell : ℕ → List ℕ → Option ℕ
spell acc [] = some acc
spell acc (c ∷ cs) = index_of base58 c >>= λ digit. spell (acc * 58 + digit) cs

push_carry-value : (fuel carry : ℕ) → carry ≤ fuel → le_value (push_carry fuel carry) ≡ carry
unfolding push_carry le_value
push_carry-value zero carry h = omega arith
push_carry-value (suc fuel) carry h = ground (arith, push_carry-value fuel (carry / 256))

times58-value : (carry : ℕ) (bs : Bytes) → le_value (times58 carry bs) ≡ le_value bs * 58 + carry
unfolding times58 le_value
times58-value carry [] = omega (arith, push_carry-value carry carry (omega arith))
times58-value carry (b ∷ bs) = omega (arith, times58-value ((b * 58 + carry) / 256) bs)

push_carry-IsByte : (fuel carry : ℕ) → All IsByte (push_carry fuel carry)
unfolding push_carry
push_carry-IsByte zero carry = tt
push_carry-IsByte (suc fuel) carry = ground (arith, push_carry-IsByte fuel (carry / 256))

times58-IsByte : (carry : ℕ) (bs : Bytes) → All IsByte (times58 carry bs)
unfolding times58
times58-IsByte carry [] = push_carry-IsByte carry carry
times58-IsByte carry (b ∷ bs) = (omega arith, times58-IsByte ((b * 58 + carry) / 256) bs)

digits_loop-spell :
    (little : Bytes) (cs : List ℕ)
    → (digits_loop little cs >>= λ bs. some (le_value bs)) ≡ spell (le_value little) cs
unfolding digits_loop spell
digits_loop-spell little [] = refl
digits_loop-spell little (c ∷ cs) = elim (Option-cases (index_of base58 c)) [
  | inl e ↦ ground (arith, e)
  | inr (d, e) ↦
      rw (e, spell)
        (digits_loop-spell (times58 d little) cs ∙ ap (λ n. spell n cs) (times58-value d little))
]

digits_loop-IsByte :
    (little : Bytes) (cs : List ℕ) {out : Bytes}
    → All IsByte little
    → digits_loop little cs ≡ some out
    → All IsByte out
unfolding digits_loop
digits_loop-IsByte little [] h e = subst (All IsByte) (some-injective _ _ e) h
digits_loop-IsByte little (c ∷ cs) h e =
    let (d, _, later) = >>=-eq-some (index_of base58 c) _ e in
    digits_loop-IsByte (times58 d little) cs (times58-IsByte d little) later

-- The number that bytes spell, the highest first.
abbrev pub be_value : ℕ → Bytes → ℕ
be_value acc [] = acc
be_value acc (b ∷ bs) = be_value (acc * 256 + b) bs

be_value-append :
    (acc : ℕ) (xs ys : Bytes) → be_value acc (xs ++ ys) ≡ be_value (be_value acc xs) ys
be_value-append acc [] ys = refl
be_value-append acc (x ∷ xs) ys = be_value-append (acc * 256 + x) xs ys

be_value-reverse : (bs : Bytes) → be_value 0 (reverse bs) ≡ le_value bs
unfolding le_value
be_value-reverse [] = refl
be_value-reverse (b ∷ bs) =
    rw (reverse-cons, be_value-append 0 (reverse bs) (b ∷ [])) (omega (arith, be_value-reverse bs))

leading_zeroes-value : (cs : List ℕ) → be_value 0 (leading_zeroes cs) ≡ 0
unfolding leading_zeroes
leading_zeroes-value [] = refl
leading_zeroes-value (c ∷ []) = refl
leading_zeroes-value (c ∷ d ∷ cs) = ground (arith, leading_zeroes-value (d ∷ cs))

leading_zeroes-IsByte : (cs : List ℕ) → All IsByte (leading_zeroes cs)
unfolding leading_zeroes
leading_zeroes-IsByte [] = tt
leading_zeroes-IsByte (c ∷ []) = tt
leading_zeroes-IsByte (c ∷ d ∷ cs) = ground (arith, leading_zeroes-IsByte (d ∷ cs))

-- A text decodes exactly when all its characters are base58 digits, and the bytes, read from the
-- highest, spell the number that the text spells.
pub decode_base58-spell :
    (cs : List ℕ) → (decode_base58 cs >>= λ bs. some (be_value 0 bs)) ≡ spell 0 cs
unfolding decode_base58 spell le_value
decode_base58-spell [] = refl
decode_base58-spell (c ∷ cs) = elim (Option-cases (digits_loop (0 ∷ []) (c ∷ cs))) [
  | inl e ↦ rw (e) (rw e at whole)
  | inr (little, e) ↦ rw e (ap some (value little) ∙ (rw e at whole))
]
  where
    whole : (digits_loop (0 ∷ []) (c ∷ cs) >>= λ bs. some (le_value bs)) ≡ spell 0 (c ∷ cs)
    whole = digits_loop-spell (0 ∷ []) (c ∷ cs)

    value :
        (little : Bytes) → be_value 0 (leading_zeroes (c ∷ cs) ++ reverse little) ≡ le_value little
    value little =
        be_value-append 0 (leading_zeroes (c ∷ cs)) (reverse little)
        ∙ (ap (λ n. be_value n (reverse little)) (leading_zeroes-value (c ∷ cs))
            ∙ be_value-reverse little)

-- Every element that decoding gives is a byte.
pub decode_base58-IsByte :
    (cs : List ℕ) {out : Bytes} → decode_base58 cs ≡ some out → All IsByte out
unfolding decode_base58
decode_base58-IsByte [] e = subst (All IsByte) (some-injective _ _ e) tt
decode_base58-IsByte (c ∷ cs) e =
    let (little, found, same) = >>=-eq-some (digits_loop (0 ∷ []) (c ∷ cs)) _ e in
    subst (All IsByte) (some-injective _ _ same) (
      All-append IsByte (leading_zeroes (c ∷ cs)) (reverse little) (leading_zeroes-IsByte (c ∷ cs))
        (All-reverse IsByte little (digits_loop-IsByte (0 ∷ []) (c ∷ cs) (omega arith, tt) found)))
