-- ===== src/Prelude/Bits.antt =====
-- `&` and `|` of C at variables: masks and single bits as remainders, disjoint fields as sums.
use Prim.Native.Nat.{ℕ, zero, suc, ◌+◌, ◌*◌, ◌/◌, ◌%◌, ◌^◌, ◌≤◌, ◌<◌, ◌-◌, min, max}
use Prim.Native.Nat.{bit_and, bit_or, digits, bit_and-bitwise, bit_or-bitwise}
use Prim.Native.Nat.{bit_xor, differ, bit_xor-bitwise}
use mathlib.Core.Path.{◌≡◌, refl, ap, ◌∙◌}
use native.Mathlib.Nat.{pow-suc, one-le-pow}
use native.Mathlib.Omega.{arith}

-- A count of digits that is large enough does not matter.
module _ (z : ℕ → ℕ) (f : ℕ → ℕ → ℕ) where
  count_irrelevant : (a b : ℕ) (n m : ℕ) → a ≤ n → a ≤ m → digits z f n a b ≡ digits z f m a b
  count_irrelevant zero b zero zero p q = refl
  count_irrelevant zero b zero (suc m) p q = refl
  count_irrelevant zero b (suc n) zero p q = refl
  count_irrelevant zero b (suc n) (suc m) p q = refl
  count_irrelevant (suc a) b zero m p q = absurd (omega arith)
  count_irrelevant (suc a) b (suc n) zero p q = absurd (omega arith)
  count_irrelevant (suc a) b (suc n) (suc m) p q =
      let low : ℕ = f (suc a % 2) (b % 2) in
      ap (λ t. t * 2 + low) (count_irrelevant (suc a / 2) (b / 2) n m (omega arith) (omega arith))

  digits-suc :
      (a b : ℕ)
      → digits z f (suc a) (suc a) b
        ≡ digits z f (suc a / 2) (suc a / 2) (b / 2) * 2 + f (suc a % 2) (b % 2)
  digits-suc a b =
      let low : ℕ = f (suc a % 2) (b % 2) in
      ap (λ t. t * 2 + low)
        (count_irrelevant (suc a / 2) (b / 2) a (suc a / 2) (omega arith) (omega arith))

-- The lowest digit of each operation.
pub and_low : (a b : ℕ) → bit_and a b ≡ bit_and (a / 2) (b / 2) * 2 + min (a % 2) (b % 2)
and_low zero b = rw (bit_and-bitwise 0 b, bit_and-bitwise 0 (b / 2)) (omega arith)
and_low (suc a) b =
    rw (bit_and-bitwise (suc a) b, bit_and-bitwise (suc a / 2) (b / 2))
      (digits-suc (λ y. 0) min a b)

pub or_low : (a b : ℕ) → bit_or a b ≡ bit_or (a / 2) (b / 2) * 2 + max (a % 2) (b % 2)
or_low zero b = rw (bit_or-bitwise 0 b, bit_or-bitwise 0 (b / 2)) (omega arith)
or_low (suc a) b =
    rw (bit_or-bitwise (suc a) b, bit_or-bitwise (suc a / 2) (b / 2)) (digits-suc (λ y. y) max a b)

-- Both with nothing, over any number that bounds the first argument.
and_none : (n a : ℕ) → a ≤ n → bit_and a 0 ≡ 0
and_none n zero h = refl
and_none zero (suc a) h = absurd (omega arith)
and_none (suc n) (suc a) h = omega (arith, and_low (suc a) 0, and_none n (suc a / 2) (omega arith))

or_none : (n a : ℕ) → a ≤ n → bit_or a 0 ≡ a
or_none n zero h = refl
or_none zero (suc a) h = absurd (omega arith)
or_none (suc n) (suc a) h = omega (arith, or_low (suc a) 0, or_none n (suc a / 2) (omega arith))

pub bit_and-zero : (a : ℕ) → bit_and a 0 ≡ 0
bit_and-zero a = and_none a a (omega arith)

pub bit_or-zero : (a : ℕ) → bit_or a 0 ≡ a
bit_or-zero a = or_none a a (omega arith)

-- `h << k | l`, where `l` fits in `k` bits.
pub bit_or_shifted : (k h l : ℕ) → l < 2 ^ k → bit_or (h * 2 ^ k) l ≡ h * 2 ^ k + l
bit_or_shifted zero h zero p = rw (bit_or-zero (h * 2 ^ 0)) (omega arith)
bit_or_shifted zero h (suc l) p = absurd (omega arith)
bit_or_shifted (suc k) h l p =
    let double : h * 2 ^ suc k ≡ 2 * (h * 2 ^ k) =
      omega (arith, ap (λ (t : ℕ). h * t) (pow-suc 2 k)) in
    let half : h * 2 ^ suc k / 2 ≡ h * 2 ^ k = omega arith in
    let rest : bit_or (h * 2 ^ k) (l / 2) ≡ h * 2 ^ k + l / 2 =
      bit_or_shifted k h (l / 2) (omega (arith, pow-suc 2 k)) in
    or_low (h * 2 ^ suc k) l ∙ rw half (rw rest (omega arith))

-- `a & m` with a mask `m` of `k` ones, by the quotient and the remainder of `a`.
and_mask : (k m q r : ℕ) → m + 1 ≡ 2 ^ k → r < 2 ^ k → bit_and (q * 2 ^ k + r) m ≡ r
and_mask zero m q r e h =
    let nothing : m ≡ 0 = omega arith in rw nothing (bit_and-zero (q * 2 ^ 0 + r) ∙ omega arith)
and_mask (suc k) m q r e h =
    let double : q * 2 ^ suc k ≡ 2 * (q * 2 ^ k) =
      omega (arith, ap (λ (t : ℕ). q * t) (pow-suc 2 k)) in
    let half : (q * 2 ^ suc k + r) / 2 ≡ q * 2 ^ k + r / 2 = omega arith in
    let rest : bit_and (q * 2 ^ k + r / 2) (m / 2) ≡ r / 2 =
      and_mask k (m / 2) q (r / 2) (omega (arith, pow-suc 2 k, one-le-pow k 2))
        (omega (arith, pow-suc 2 k)) in
    and_low (q * 2 ^ suc k + r) m ∙ rw half (rw rest (omega (arith, pow-suc 2 k, one-le-pow k 2)))

-- `a & (2^k - 1)`.
pub bit_and_mask : (k a : ℕ) → bit_and a (2 ^ k - 1) ≡ a % 2 ^ k
bit_and_mask k a = ground (arith, and_mask k (2 ^ k - 1) (a / 2 ^ k) (a % 2 ^ k), one-le-pow k 2)

pub xor_low : (a b : ℕ) → bit_xor a b ≡ bit_xor (a / 2) (b / 2) * 2 + differ (a % 2) (b % 2)
xor_low zero b = rw (bit_xor-bitwise 0 b, bit_xor-bitwise 0 (b / 2)) (zero_digit b)
  where
    zero_digit : (c : ℕ) → c ≡ c / 2 * 2 + differ 0 (c % 2)
    zero_digit c = ground arith
xor_low (suc a) b =
    rw (bit_xor-bitwise (suc a) b, bit_xor-bitwise (suc a / 2) (b / 2))
      (digits-suc (λ y. y) differ a b)

differ_twice : (p q : ℕ) → p < 2 → q < 2 → (differ p q < 2) × (differ (differ p q) q ≡ p)
differ_twice zero zero h k = (omega arith, refl)
differ_twice zero (suc zero) h k = (omega arith, refl)
differ_twice (suc zero) zero h k = (omega arith, refl)
differ_twice (suc zero) (suc zero) h k = (omega arith, refl)
differ_twice (suc (suc p)) q h k = absurd (omega arith)
differ_twice p (suc (suc q)) h k = absurd (omega arith)

xor_twice : (n a b : ℕ) → a ≤ n → b ≤ n → bit_xor (bit_xor a b) b ≡ a
xor_twice zero a b h k =
    let first : a ≡ 0 = omega arith in let second : b ≡ 0 = omega arith in rw (first, second) refl
xor_twice (suc n) a b h k =
    let (small, back) = differ_twice (a % 2) (b % 2) (omega arith) (omega arith) in
    let ih = xor_twice n (a / 2) (b / 2) (omega arith) (omega arith) in
    let x = bit_xor a b in
    let half : x / 2 ≡ bit_xor (a / 2) (b / 2) = omega (arith, xor_low a b) in
    let digit : x % 2 ≡ differ (a % 2) (b % 2) = omega (arith, xor_low a b) in
    xor_low x b ∙ rw (half, digit, ih, back) (omega arith)

-- `(a ^ b) ^ b`.
pub bit_xor_twice : (a b : ℕ) → bit_xor (bit_xor a b) b ≡ a
bit_xor_twice a b = xor_twice (a + b) a b (omega arith) (omega arith)
