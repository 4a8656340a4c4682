-- ===== src/Reference/Rounds.antt =====
-- The loop of `dlmmPriceQ64`: how many rounds it takes, and the power that it computes.
use native.Mathlib.Nat.{
  mul_comm, mul-mul-mul_comm, mul-le-mul, mul-le-mul_left, mul-le-mul_right, one-le-pow,
  le_of_mul-le-mul_right, div-mul-le_self, pow-le-pow_left, pow-suc, mul-div_cancel, pow-zero,
}
use onchainburner.Base.{
  ℕ, zero, suc, ◌+◌, ◌*◌, ◌/◌, ◌%◌, ◌^◌, ◌≤◌, ◌≡◌, refl, sym, ap, ◌∙◌, Bool, true, false, ltb, ◌==◌,
  if◌then◌else◌, arith,
}
use onchainburner.Reference.{price_loop, power_q64, one_q64}

square-pow : (b k : ℕ) → (b * b) ^ k ≡ b ^ (k + k)
square-pow b zero = pow-zero (b * b) ∙ sym (pow-zero b)
square-pow b (suc k) =
    let e : suc k + suc k ≡ suc (suc (k + k)) = omega arith in
    let one_more : b ^ suc (suc (k + k)) ≡ b ^ (k + k) * b * b =
      pow-suc b (suc (k + k)) ∙ ap (λ x. x * b) (pow-suc b (k + k)) in
    let left : (b * b) ^ suc k ≡ b ^ (k + k) * (b * b) =
      pow-suc (b * b) k ∙ ap (λ x. x * (b * b)) (square-pow b k) in
    let right : b ^ (suc k + suc k) ≡ b ^ (k + k) * b * b = ap (λ x. b ^ x) e ∙ one_more in
    omega (arith, left, right)

times-whole : (r b : ℕ) → r * one_q64 * (b * one_q64) / one_q64 ≡ r * b * one_q64
times-whole r b =
    let e : r * one_q64 * (b * one_q64) ≡ r * b * one_q64 * one_q64 = omega arith in
    ap (λ x. x / one_q64) e ∙ mul-div_cancel (r * b * one_q64) (omega arith)

odd-pow : (b n : ℕ) → n % 2 ≡ 1 → b ^ n ≡ b * (b * b) ^ (n / 2)
odd-pow b n e =
    let whole : n ≡ suc (n / 2 + n / 2) = omega (arith, e) in
    let split : b ^ n ≡ b ^ (n / 2 + n / 2) * b =
      ap (λ x. b ^ x) whole ∙ pow-suc b (n / 2 + n / 2) in
    split ∙ (ap (λ x. x * b) (sym (square-pow b (n / 2))) ∙ mul_comm ((b * b) ^ (n / 2)) b)

even-pow : (b n : ℕ) → n % 2 ≡ 0 → b ^ n ≡ (b * b) ^ (n / 2)
even-pow b n e =
    let whole : n ≡ n / 2 + n / 2 = omega (arith, e) in
    ap (λ x. b ^ x) whole ∙ sym (square-pow b (n / 2))

-- The power from half the exponent on.
half-pow :
    (b r n k : ℕ) (odd more : Bool)
    → n / 2 ≡ k
    → (n % 2 == 1) ≡ odd
    → ltb 0 k ≡ more
    → (if odd then r * b else r) * (if more then b * b else b) ^ k ≡ r * b ^ n
half-pow b r n k true true h o m =
    let e = odd-pow b n (ground (arith, o)) in
    let half : (b * b) ^ (n / 2) ≡ (b * b) ^ k = ap (λ x. (b * b) ^ x) h in
    let all : b ^ n ≡ b * (b * b) ^ k = e ∙ ap (λ x. b * x) half in rw all (omega arith)
half-pow b r n k false true h o m =
    let e = even-pow b n (ground (arith, o)) in
    let half : (b * b) ^ (n / 2) ≡ (b * b) ^ k = ap (λ x. (b * b) ^ x) h in
    ap (λ x. r * x) (sym (e ∙ half))
half-pow b r n k true false h o m =
    let nothing : k ≡ 0 = ground (arith, m) in
    let e = odd-pow b n (ground (arith, o)) in
    let half : (b * b) ^ (n / 2) ≡ 1 = ap (λ x. (b * b) ^ x) (h ∙ nothing) ∙ pow-zero (b * b) in
    let all : b ^ n ≡ b * 1 = e ∙ ap (λ x. b * x) half in
    let none : b ^ k ≡ 1 = ap (λ x. b ^ x) nothing ∙ pow-zero b in rw (none, all) (omega arith)
half-pow b r n k false false h o m =
    let nothing : k ≡ 0 = ground (arith, m) in
    let e = even-pow b n (ground (arith, o)) in
    let half : (b * b) ^ (n / 2) ≡ 1 = ap (λ x. (b * b) ^ x) (h ∙ nothing) ∙ pow-zero (b * b) in
    let none : b ^ k ≡ 1 = ap (λ x. b ^ x) nothing ∙ pow-zero b in
    ap (λ x. r * x) (none ∙ sym (e ∙ half))

-- For a whole base and a whole result, as Q64.64 numbers, the loop multiplies the result by the
-- power of the base, exactly, in as many rounds as the exponent or more.
price_loop-pow :
    (fuel exponent base result : ℕ)
    → exponent ≤ fuel
    → price_loop fuel (base * one_q64) exponent (result * one_q64)
      ≡ result * base ^ exponent * one_q64
unfolding price_loop
price_loop-pow zero n b r h =
    let e : n ≡ 0 = omega (arith, h) in
    let unit : b ^ n ≡ 1 = ap (λ x. b ^ x) e ∙ pow-zero b in rw unit (omega arith)
price_loop-pow (suc fuel) n b r h =
    by_tests (n == 0) (n % 2 == 1) (ltb 0 (n / 2)) refl refl refl
      (λ c s. price_loop-pow fuel (n / 2) c s (omega (arith, h)))
  where
    by_tests :
        (done odd more : Bool)
        → (n == 0) ≡ done
        → (n % 2 == 1) ≡ odd
        → ltb 0 (n / 2) ≡ more
        → ((c s : ℕ)
            → price_loop fuel (c * one_q64) (n / 2) (s * one_q64) ≡ s * c ^ (n / 2) * one_q64)
        → (if done
            then r * one_q64
            else price_loop fuel
                (if more then b * one_q64 * (b * one_q64) / one_q64 else b * one_q64)
                (n / 2)
                (if odd then r * one_q64 * (b * one_q64) / one_q64 else r * one_q64))
          ≡ r * b ^ n * one_q64
    by_tests true odd more d o m go =
        let e : n ≡ 0 = ground (arith, d) in
        let unit : b ^ n ≡ 1 = ap (λ x. b ^ x) e ∙ pow-zero b in rw unit (omega arith)
    by_tests false true true d o m go =
        rw (times-whole b b, times-whole r b)
          (go (b * b) (r * b) ∙ ap (λ x. x * one_q64) (half-pow b r n (n / 2) true true refl o m))
    by_tests false true false d o m go =
        rw (times-whole r b)
          (go b (r * b) ∙ ap (λ x. x * one_q64) (half-pow b r n (n / 2) true false refl o m))
    by_tests false false true d o m go =
        rw (times-whole b b)
          (go (b * b) r ∙ ap (λ x. x * one_q64) (half-pow b r n (n / 2) false true refl o m))
    by_tests false false false d o m go =
        go b r ∙ ap (λ x. x * one_q64) (half-pow b r n (n / 2) false false refl o m)

pow-times : (a b k : ℕ) → (a * b) ^ k ≡ a ^ k * b ^ k
pow-times a b zero = pow-zero (a * b) ∙ sym (product_one (pow-zero a) (pow-zero b))
  where
    product_one : {x y : ℕ} → x ≡ 1 → y ≡ 1 → x * y ≡ 1
    product_one e f = rw (e, f) (omega arith)
pow-times a b (suc k) =
    rw (pow-suc (a * b) k, pow-suc a k, pow-suc b k, pow-times a b k)
      (mul-mul-mul_comm (a ^ k) (b ^ k) a b)

-- What the square of a unit is worth, from half the exponent on.
odd_unit : (one n k : ℕ) → n / 2 ≡ k → n % 2 ≡ 1 → one ^ n ≡ one * (one ^ k * one ^ k)
odd_unit one n k h o =
    odd-pow one n o ∙ ap (λ x. one * x) (ap (λ x. (one * one) ^ x) h ∙ pow-times one one k)

even_unit : (one n k : ℕ) → n / 2 ≡ k → n % 2 ≡ 0 → one ^ n ≡ one ^ k * one ^ k
even_unit one n k h o = even-pow one n o ∙ (ap (λ x. (one * one) ^ x) h ∙ pow-times one one k)

-- A round that multiplies, in numbers, and one that does not.
odd-le :
    (b r n k one p c s : ℕ)
    → n / 2 ≡ k
    → n % 2 ≡ 1
    → c ^ k * one ^ k ≤ (b * b) ^ k
    → s * one ≤ r * b
    → p * one ^ k ≤ s * c ^ k
    → p * one ^ n ≤ r * b ^ n
odd-le b r n k one p c s h o base result later =
    let unit = odd_unit one n k h o in
    let power : b ^ n ≡ b * (b * b) ^ k = odd-pow b n o ∙ ap (λ x. b * (b * b) ^ x) h in
    let one_more : p * one ^ k * (one ^ k * one) ≤ s * c ^ k * (one ^ k * one) =
      mul-le-mul_right (one ^ k * one) later in
    let both : s * one * (c ^ k * one ^ k) ≤ r * b * (b * b) ^ k = mul-le-mul result base in
    rw (unit, power) (omega (arith, one_more, both))

even-le :
    (b r n k one p c s : ℕ)
    → n / 2 ≡ k
    → n % 2 ≡ 0
    → c ^ k * one ^ k ≤ (b * b) ^ k
    → s ≤ r
    → p * one ^ k ≤ s * c ^ k
    → p * one ^ n ≤ r * b ^ n
even-le b r n k one p c s h o base result later =
    let unit = even_unit one n k h o in
    let power : b ^ n ≡ (b * b) ^ k = even-pow b n o ∙ ap (λ x. (b * b) ^ x) h in
    let one_more : p * one ^ k * one ^ k ≤ s * c ^ k * one ^ k = mul-le-mul_right (one ^ k) later in
    let both : s * (c ^ k * one ^ k) ≤ r * (b * b) ^ k = mul-le-mul result base in
    rw (unit, power) (omega (arith, one_more, both))

-- The next base, at the power that is left.
base-le :
    (b k : ℕ) (more : Bool)
    → ltb 0 k ≡ more
    → (if more then b * b / one_q64 else b) ^ k * one_q64 ^ k ≤ (b * b) ^ k
base-le b k true m =
    let less : b * b / one_q64 * one_q64 ≤ b * b = div-mul-le_self (b * b) one_q64 in
    let powers = pow-le-pow_left less k in
    let split = pow-times (b * b / one_q64) one_q64 k in omega (arith, powers, split)
base-le b k false m =
    let nothing : k ≡ 0 = ground (arith, m) in
    let all : (c : ℕ) → c ^ k ≡ 1 = λ c. ap (λ x. c ^ x) nothing ∙ pow-zero c in
    rw (all b, all one_q64, all (b * b)) (omega arith)

-- At any base the loop's result is at most what the exact power makes of it.
price_loop-le :
    (fuel exponent base result : ℕ)
    → exponent ≤ fuel
    → price_loop fuel base exponent result * one_q64 ^ exponent ≤ result * base ^ exponent
unfolding price_loop
price_loop-le zero n b r h =
    let e : n ≡ 0 = omega (arith, h) in
    let all : (c : ℕ) → c ^ n ≡ 1 = λ c. ap (λ x. c ^ x) e ∙ pow-zero c in
    rw (all b, all one_q64) (omega arith)
price_loop-le (suc fuel) n b r h =
    by_tests (n == 0) (n % 2 == 1) (ltb 0 (n / 2)) refl refl refl
      (λ c s. price_loop-le fuel (n / 2) c s (omega (arith, h)))
  where
    by_tests :
        (done odd more : Bool)
        → (n == 0) ≡ done
        → (n % 2 == 1) ≡ odd
        → ltb 0 (n / 2) ≡ more
        → ((c s : ℕ) → price_loop fuel c (n / 2) s * one_q64 ^ (n / 2) ≤ s * c ^ (n / 2))
        → (if done
              then r
              else price_loop fuel
                  (if more then b * b / one_q64 else b)
                  (n / 2)
                  (if odd then r * b / one_q64 else r))
            * one_q64 ^ n
          ≤ r * b ^ n
    by_tests true odd more d o m go =
        let e : n ≡ 0 = ground (arith, d) in
        let all : (c : ℕ) → c ^ n ≡ 1 = λ c. ap (λ x. c ^ x) e ∙ pow-zero c in
        rw (all b, all one_q64) (omega arith)
    by_tests false true more d o m go =
        odd-le b r n (n / 2) one_q64 _ (if more then b * b / one_q64 else b) (r * b / one_q64) refl
          (ground (arith, o)) (base-le b (n / 2) more m) (div-mul-le_self (r * b) one_q64)
          (go (if more then b * b / one_q64 else b) (r * b / one_q64))
    by_tests false false more d o m go =
        even-le b r n (n / 2) one_q64 _ (if more then b * b / one_q64 else b) r refl
          (ground (arith, o)) (base-le b (n / 2) more m) (omega arith)
          (go (if more then b * b / one_q64 else b) r)

-- The loop has ended.
price_loop_enough :
    (fuel more base exponent result : ℕ)
    → exponent ≤ fuel
    → fuel ≤ more
    → price_loop more base exponent result ≡ price_loop fuel base exponent result
unfolding price_loop
price_loop_enough zero zero base exponent result h k = refl
price_loop_enough zero (suc more) base exponent result h k =
    let e : exponent ≡ 0 = omega arith in rw e refl
price_loop_enough (suc fuel) zero base exponent result h k = absurd (omega arith)
price_loop_enough (suc fuel) (suc more) base exponent result h k =
    let next_result = if exponent % 2 == 1 then result * base / one_q64 else result in
    let next_base = if ltb 0 (exponent / 2) then base * base / one_q64 else base in
    ap (λ (rest : ℕ). if exponent == 0 then result else rest)
      (price_loop_enough fuel more next_base (exponent / 2) next_result (omega arith) (omega arith))

-- The step's power is at most the exact one.
power_q64-le : (step n : ℕ) → power_q64 step n * 10_000 ^ n ≤ one_q64 * (10_000 + step) ^ n
unfolding power_q64
power_q64-le step n =
    let factor = 10_000 + step in
    let base = one_q64 * factor / 10_000 in
    let rounded : base * 10_000 ≤ one_q64 * factor = div-mul-le_self (one_q64 * factor) 10_000 in
    let powers = pow-le-pow_left rounded n in
    let left = pow-times base 10_000 n in
    let right = pow-times one_q64 factor n in
    let bound : base ^ n * 10_000 ^ n ≤ one_q64 ^ n * factor ^ n =
      omega (arith, powers, left, right) in
    let scaled : one_q64 * (base ^ n * 10_000 ^ n) ≤ one_q64 * (one_q64 ^ n * factor ^ n) =
      mul-le-mul_left one_q64 bound in
    let looped : price_loop n base n one_q64 * one_q64 ^ n * 10_000 ^ n
        ≤ one_q64 * base ^ n * 10_000 ^ n =
      mul-le-mul_right (10_000 ^ n) (price_loop-le n n base one_q64 (omega arith)) in
    cancel (price_loop n base n one_q64 * 10_000 ^ n) (one_q64 * factor ^ n) (one_q64 ^ n)
      (one-le-pow n one_q64 (omega arith)) (omega (arith, looped, scaled))
  where
    cancel : (x y k : ℕ) → 1 ≤ k → x * k ≤ y * k → x ≤ y
    cancel x y k h e = le_of_mul-le-mul_right e h

-- Once there are as many rounds as the exponent, more rounds change nothing: the loop has ended. It
-- multiplies the result by the power of the base, in Q64.64: exactly where both are whole numbers,
-- and at most by the exact power always. So the factor of a bin is at most the exact power of one
-- and the step in ten-thousandths.
pub price_loop_power :
    (fuel exponent base result : ℕ)
    → exponent ≤ fuel
    → (price_loop fuel (base * one_q64) exponent (result * one_q64)
        ≡ result * base ^ exponent * one_q64)
      × ((b r : ℕ) → price_loop fuel b exponent r * one_q64 ^ exponent ≤ r * b ^ exponent)
      × ((b r : ℕ) → price_loop fuel b exponent r ≡ price_loop exponent b exponent r)
      × ((step : ℕ)
          → power_q64 step exponent * 10_000 ^ exponent ≤ one_q64 * (10_000 + step) ^ exponent)
price_loop_power fuel exponent base result h = (
  price_loop-pow fuel exponent base result h,
  λ b r. price_loop-le fuel exponent b r h,
  λ b r. price_loop_enough exponent fuel b exponent r (omega arith) h,
  λ step. power_q64-le step exponent,
)
