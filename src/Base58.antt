-- ===== src/Base58.antt =====
-- `decodeBase58` of app/community-indexer.ts. A text is the list of its character codes.
pub mod Laws
use onchainburner.Base.{
  ℕ, zero, suc, ◌+◌, ◌-◌, ◌*◌, ◌/◌, ◌%◌, ◌<◌, Bool, true, false, ◌&&◌, Option, none, some, List, [],
  ◌∷◌, ◌++◌, Bytes, codes, length, ltb, ◌==◌, if◌then◌else◌,
}
use onchainburner.Base.Maybe.{◌>>=◌}
use mathlib.Core.Option
use mathlib.Core.List.{reverse}

abbrev pub base58 : List ℕ
base58 = codes "123456789ABCDEFGHJKLMNPQRSTUVWXYZabcdefghijkmnopqrstuvwxyz"

-- `BASE58.indexOf(character)`, with `none` for -1.
unfoldable pub index_of : List ℕ → ℕ → Option ℕ
index_of [] c = none
index_of (x ∷ xs) c = let later = Option.map suc (index_of xs c) in if x == c then some 0 else later

-- `while (carry > 0)`: the carry shrinks, so that as many rounds as the carry are enough.
push_carry : ℕ → ℕ → Bytes
push_carry zero carry = []
push_carry (suc fuel) carry =
    let rest = push_carry fuel (carry / 256) in if carry == 0 then [] else (carry % 256) ∷ rest

-- The two inner loops for one character: every byte times 58 plus the carry, then what is left.
times58 : ℕ → Bytes → Bytes
times58 carry [] = push_carry carry carry
times58 carry (b ∷ bs) = ((b * 58 + carry) % 256) ∷ times58 ((b * 58 + carry) / 256) bs

digits_loop : Bytes → List ℕ → Option Bytes
digits_loop little [] = some little
digits_loop little (c ∷ cs) = index_of base58 c >>= λ digit. digits_loop (times58 digit little) cs

-- `while (leadingZeroes < value.length - 1 && value[leadingZeroes] === "1")`
leading_zeroes : List ℕ → Bytes
leading_zeroes [] = []
leading_zeroes (c ∷ []) = []
leading_zeroes (c ∷ d ∷ cs) =
    let rest = leading_zeroes (d ∷ cs) in if c == b'1' then 0 ∷ rest else []

-- `none` is the thrown "invalid base58".
pub decode_base58 : List ℕ → Option Bytes
decode_base58 [] = some []
decode_base58 (c ∷ cs) = do
  little ← digits_loop (0 ∷ []) (c ∷ cs)
  some (leading_zeroes (c ∷ cs) ++ reverse little)

-- What a test unfolds.
unfoldable pub decoding : Unit {0}
unfolding decode_base58 digits_loop times58 push_carry leading_zeroes index_of
decoding = tt
