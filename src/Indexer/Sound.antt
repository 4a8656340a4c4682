-- ===== src/Indexer/Sound.antt =====
-- Whatever bytes the indexer accepts, what it reads from them is a possible configuration.
use onchainburner.Base.{
  ℕ, zero, suc, ◌+◌, ◌-◌, ◌≤◌, ◌<◌, ◌≡◌, ◌≢◌, ap, false, not, ◌||◌, some, Bytes, List, [], ◌∷◌,
  ◌++◌, length, take, any, list_eq, sum, All, ltb, ◌==◌, arith, length-append,
}
use onchainburner.Base.Maybe.{fail_if, >>=-eq-some, fail_if-eq-some}
use onchainburner.Base58.{decode_base58}
use onchainburner.Wire.{split_discriminator}
use onchainburner.Indexer.{
  read_u16, read_u32, read_u64, legs_loop, SplitCall, decode_split_bytes, decode_split,
}
use mathlib.Core.Option.{some-injective}
use mathlib.Core.Path.{subst}

-- The program's own conditions on a configuration (6032, 6033).
pub record IsConfig (split : SplitCall) : Type 0 where
  pub funded : split.total ≢ 0
  pub some_leg : 1 ≤ length split.weights
  pub few_legs : length split.weights ≤ 4
  pub positive : All (λ w. 0 < w) split.weights
  pub whole : sum split.weights ≡ 10_000

length-legs_loop :
    (legs : ℕ) (bytes : Bytes) (cursor : ℕ) (weights : List ℕ) {out : List ℕ × ℕ}
    → legs_loop legs bytes cursor weights ≡ some out
    → length out.0 ≡ length weights + legs
unfolding legs_loop
length-legs_loop zero bytes cursor weights e =
    omega (arith, ap (λ (p : List ℕ × ℕ). length p.0) (some-injective _ _ e))
length-legs_loop (suc legs) bytes cursor weights e =
    let (bps, _, e1) = >>=-eq-some (read_u16 bytes cursor) _ e in
    let (size, _, e2) = >>=-eq-some (read_u32 bytes (cursor + 11)) _ e1 in
    let (_, _, e3) = >>=-eq-some (fail_if (ltb (length bytes - (cursor + 15)) size)) _ e2 in
    omega (
      arith,
      length-legs_loop legs bytes (cursor + 15 + size) (weights ++ bps ∷ []) e3,
      length-append weights (bps ∷ []),
    )

any-zero_positive : (ws : List ℕ) → any (λ w. w == 0) ws ≡ false → All (λ w. 0 < w) ws
any-zero_positive [] h = tt
any-zero_positive (w ∷ ws) h = (ground arith, any-zero_positive ws (ground arith))

decode_split_bytes-IsConfig :
    (bytes : Bytes) {split : SplitCall} → decode_split_bytes bytes ≡ some split → IsConfig split
unfolding decode_split_bytes
decode_split_bytes-IsConfig bytes e =
    let (_, _, e1) =
      >>=-eq-some
        (fail_if (ltb (length bytes) 20 || not (list_eq (take 8 bytes) split_discriminator))) _ e in
    let (total, _, e2) = >>=-eq-some (read_u64 bytes 8) _ e1 in
    let (count, _, e3) = >>=-eq-some (read_u32 bytes 16) _ e2 in
    let (_, counted, e4) = >>=-eq-some (fail_if (ltb count 1 || ltb 4 count || total == 0)) _ e3 in
    let (out, read, e5) = >>=-eq-some (legs_loop count bytes 20 []) _ e4 in
    let (_, _, e6) = >>=-eq-some (fail_if (not (out.1 == length bytes))) _ e5 in
    let (_, weighed, e7) =
      >>=-eq-some (fail_if (any (λ w. w == 0) out.0 || not (sum out.0 == 10_000))) _ e6 in
    let c = fail_if-eq-some (ltb count 1 || ltb 4 count || total == 0) counted in
    let w = fail_if-eq-some (any (λ w. w == 0) out.0 || not (sum out.0 == 10_000)) weighed in
    let l = length-legs_loop count bytes 20 [] read in
    subst IsConfig (some-injective _ _ e7) (record {
      funded = ground (arith, c);
      some_leg = ground (arith, c, l);
      few_legs = ground (arith, c, l);
      positive = any-zero_positive out.0 (ground (arith, w));
      whole = ground (arith, w);
    })

-- Every instruction text that the indexer decodes gives a positive total and one to four positive
-- weights that sum to 100%.
pub decode_split-IsConfig :
    (text : List ℕ) {split : SplitCall} → decode_split text ≡ some split → IsConfig split
unfolding decode_split
decode_split-IsConfig text e =
    let (bytes, _, e1) = >>=-eq-some (decode_base58 text) _ e in
    decode_split_bytes-IsConfig bytes e1
