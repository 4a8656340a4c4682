-- ===== src/Indexer.antt =====
-- The indexer of app/community-indexer.ts: what it reads from a burn instruction.
pub mod RoundTrip
pub mod Sound
pub mod Burns
pub mod Logs
use onchainburner.Base.{
  ℕ, zero, suc, ◌+◌, ◌-◌, Bool, true, false, not, ◌||◌, Option, none, some, Bytes, List, [], ◌∷◌,
  ◌++◌, map, length, take, drop, sum, any, list_eq, ltb, ◌==◌, if◌then◌else◌, read_le,
}
use onchainburner.Base.Maybe.{◌>>=◌, ◌>>◌, fail_if}
use onchainburner.Base58.{decode_base58}
use onchainburner.Wire.{split_discriminator}

-- `a | (b << 8)` is the number that the bytes spell; the thrown "truncated" is `none`.
pub read_u16 : Bytes → ℕ → Option ℕ
read_u16 bytes offset = read_le 2 bytes offset

pub read_u32 : Bytes → ℕ → Option ℕ
read_u32 bytes offset = read_le 4 bytes offset

pub read_u64 : Bytes → ℕ → Option ℕ
read_u64 bytes offset = read_le 8 bytes offset

-- The loop over the legs, from the leg count that is left.
pub legs_loop : ℕ → Bytes → ℕ → List ℕ → Option (List ℕ × ℕ)
legs_loop zero bytes cursor weights = some (weights, cursor)
legs_loop (suc legs) bytes cursor weights = do
  bps ← read_u16 bytes cursor
  route_length ← read_u32 bytes (cursor + 11)
  fail_if (ltb (length bytes - (cursor + 15)) route_length)
  legs_loop legs bytes (cursor + 15 + route_length) (weights ++ bps ∷ [])

pub record SplitCall : Type 0 where
  pub total : ℕ
  pub weights : List ℕ

-- `decodeSplit` behind the text.
pub decode_split_bytes : Bytes → Option SplitCall
decode_split_bytes bytes = do
  fail_if (ltb (length bytes) 20 || not (list_eq (take 8 bytes) split_discriminator))
  total ← read_u64 bytes 8
  leg_count ← read_u32 bytes 16
  fail_if (ltb leg_count 1 || ltb 4 leg_count || total == 0)
  (weights, cursor) ← legs_loop leg_count bytes 20 []
  fail_if (not (cursor == length bytes))
  fail_if (any (λ w. w == 0) weights || not (sum weights == 10_000))
  some (record { total = total; weights = weights })

pub decode_split : List ℕ → Option SplitCall
decode_split text = decode_base58 text >>= decode_split_bytes

-- What a test unfolds.
unfoldable pub reading : Unit {0}
unfolding decode_split decode_split_bytes legs_loop read_u16 read_u32 read_u64 read_le
reading = tt
