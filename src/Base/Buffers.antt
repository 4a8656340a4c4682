-- ===== src/Base/Buffers.antt =====
-- Buffers as lists of bytes, and little-endian integers in them.
use Prim.Native.Nat.{ℕ, zero, suc, ◌+◌, ◌*◌, ◌/◌, ◌%◌, ◌^◌, ◌≤◌, ◌<◌}
use native.Mathlib.Nat.{pow-suc}
use mathlib.Core.Path.{◌≡◌, refl, ap, ◌∙◌}
use mathlib.Core.Option.{Option, none, some}
use mathlib.Core.List.{List, [], ◌∷◌, ◌++◌}
use Prim.Native.Char.{code}
use Prim.Native.String.{String}
use native.Mathlib.Omega.{arith}
use onchainburner.Base.Checks.{if◌then◌else◌, ltb, le→ltb_false, lt→ltb}
use onchainburner.Base.Lists.{length, take, drop, All, length-append, drop-append, take-append}
use onchainburner.Base.Errors.{Result, ok, err, range_error}

abbrev pub Bytes : Type 0
Bytes = List ℕ

-- The character codes of a text, which are its bytes where it is ASCII.
abbrev pub codes : String → List ℕ
codes String.[] = []
codes (String.◌∷◌ c s) = code c ∷ codes s

abbrev pub IsByte : ℕ → Type 0
IsByte b = b < 256

-- The number that bytes spell, the lowest first.
unfoldable pub le_value : Bytes → ℕ
le_value [] = 0
le_value (b ∷ bs) = b + 256 * le_value bs

-- The lowest `w` bytes of a number, the lowest first.
unfoldable pub le_bytes : ℕ → ℕ → Bytes
le_bytes zero n = []
le_bytes (suc w) n = (n % 256) ∷ le_bytes w (n / 256)

-- The number in the `w` bytes at `offset`; none where they pass the end.
unfoldable pub read_le : ℕ → Bytes → ℕ → Option ℕ
read_le w bytes offset =
    if ltb (length bytes) (offset + w) then none else some (le_value (take w (drop offset bytes)))

-- `buffer.writeUIntLE` throws where the value does not fit.
unfoldable pub write_le : ℕ → ℕ → Result Bytes
write_le w n = if ltb n (256 ^ w) then ok (le_bytes w n) else err range_error

pub length-le_bytes : (w n : ℕ) → length (le_bytes w n) ≡ w
unfolding le_bytes
length-le_bytes zero n = refl
length-le_bytes (suc w) n = omega (arith, length-le_bytes w (n / 256))

pub le_bytes-IsByte : (w n : ℕ) → All IsByte (le_bytes w n)
unfolding le_bytes
le_bytes-IsByte zero n = tt
le_bytes-IsByte (suc w) n = (omega arith, le_bytes-IsByte w (n / 256))

pub le_value-le_bytes : (w n : ℕ) → n < 256 ^ w → le_value (le_bytes w n) ≡ n
unfolding le_value le_bytes
le_value-le_bytes zero n h = omega arith
le_value-le_bytes (suc w) n h = omega (arith, le_value-le_bytes w (n / 256) (omega arith))

pub le_value-lt : (bs : Bytes) → All IsByte bs → le_value bs < 256 ^ length bs
unfolding le_value
le_value-lt [] h = omega arith
le_value-lt (b ∷ bs) h = omega (arith, le_value-lt bs h.1, h.0, pow-suc 256 (length bs))

-- What was written behind `front` is read back there.
pub read_le-le_bytes :
    (w n : ℕ) (front rest : Bytes)
    → n < 256 ^ w
    → read_le w (front ++ (le_bytes w n ++ rest)) (length front) ≡ some n
unfolding read_le
read_le-le_bytes w n front rest h =
    rw
      (
        le→ltb_false (length (front ++ (le_bytes w n ++ rest))) (length front + w) fits,
        drop-append front (le_bytes w n ++ rest),
      )
      (ap some (ap le_value taken ∙ le_value-le_bytes w n h))
  where
    fits : length front + w ≤ length (front ++ (le_bytes w n ++ rest))
    fits = omega (
      arith,
      length-append front (le_bytes w n ++ rest),
      length-append (le_bytes w n) rest,
      length-le_bytes w n,
    )

    taken : take w (le_bytes w n ++ rest) ≡ le_bytes w n
    taken = rw (length-le_bytes w n) at (take-append (le_bytes w n) rest)

pub write_le-eq-ok :
    (w n : ℕ) {bs : Bytes} → write_le w n ≡ ok bs → (n < 256 ^ w) × (bs ≡ le_bytes w n)
unfolding write_le
write_le-eq-ok w n h = ground arith

pub write_le-fits : (w n : ℕ) → n < 256 ^ w → write_le w n ≡ ok (le_bytes w n)
unfolding write_le
write_le-fits w n h = rw (lt→ltb n (256 ^ w) h)

-- `read_le-le_bytes` for an offset and a buffer that are known by equations.
pub read_le-at :
    (w n offset : ℕ) (bytes front rest : Bytes)
    → bytes ≡ front ++ (le_bytes w n ++ rest)
    → offset ≡ length front
    → n < 256 ^ w
    → read_le w bytes offset ≡ some n
read_le-at w n offset bytes front rest e f h = rw (e, f) (read_le-le_bytes w n front rest h)
