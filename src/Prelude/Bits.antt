-- ===== src/Prelude/Bits.antt =====
-- The binary digits of words, and what `&`, `|` and `~` do to each digit.
use Prim.Native.Nat.{min, max, digits, bit_and, bit_or, bit_and-bitwise, bit_or-bitwise}
use Prim.Native.Nat.{ℕ, zero, suc, ◌+◌, ◌-◌, ◌*◌, ◌/◌, ◌%◌, ◌^◌, ◌≤◌, ◌<◌}
use mathlib.Core.Path.{◌≡◌, refl, ◌∙◌}
use mathlib.Core.Bool.{not}
use native.Mathlib.Omega.{arith}
use native.Mathlib.Nat.{pow-suc, one-le-pow}
use cs111fall.Prelude.Tests.{◌==◌, if◌then◌else◌}

-- The `k`th binary digit of `a`.
unfoldable pub digit : ℕ → ℕ → ℕ
digit zero a = a % 2
digit (suc k) a = digit k (a / 2)

pub digit-le : (k a : ℕ) → digit k a ≤ 1
unfolding digit
digit-le zero a = omega arith
digit-le (suc k) a = digit-le k (a / 2)

pub digit-zero : (k : ℕ) → digit k 0 ≡ 0
unfolding digit
digit-zero zero = refl
digit-zero (suc k) = digit-zero k

module _ (z : ℕ → ℕ) (f : ℕ → ℕ → ℕ) (small : (x y : ℕ) → x ≤ 1 → y ≤ 1 → f x y ≤ 1)
    (rest : (k b : ℕ) → digit k (z b) ≡ f 0 (digit k b)) where
  digit-digits : (n a b k : ℕ) → a ≤ n → digit k (digits z f n a b) ≡ f (digit k a) (digit k b)
  unfolding digit
  digit-digits zero zero b k h = rw (digit-zero k) (rest k b)
  digit-digits zero (suc a) b k h = absurd (omega arith)
  digit-digits (suc n) zero b k h = rw (digit-zero k) (rest k b)
  digit-digits (suc n) (suc a) b zero h =
      omega (arith, small (suc a % 2) (b % 2) (omega arith) (omega arith))
  digit-digits (suc n) (suc a) b (suc k) h =
      let half : (digits z f n (suc a / 2) (b / 2) * 2 + f (suc a % 2) (b % 2)) / 2
          ≡ digits z f n (suc a / 2) (b / 2) =
        omega (arith, small (suc a % 2) (b % 2) (omega arith) (omega arith)) in
      rw half (digit-digits n (suc a / 2) (b / 2) k (omega arith))

pub digit-bit_or : (k a b : ℕ) → digit k (bit_or a b) ≡ max (digit k a) (digit k b)
digit-bit_or k a b =
    rw (bit_or-bitwise a b) (
      digit-digits (λ y. y) max (λ x y p q. omega arith) (λ j y. omega arith) a a b k (omega arith))

pub digit-bit_and : (k a b : ℕ) → digit k (bit_and a b) ≡ min (digit k a) (digit k b)
digit-bit_and k a b = rw (bit_and-bitwise a b) (
    digit-digits (λ y. 0) min (λ x y p q. omega arith) (λ j y. digit-zero j ∙ omega arith) a a b k
      (omega arith))

-- Every number is told by its digits; here for zero.
eq_zero_of_digits : (n a : ℕ) → a ≤ n → ((k : ℕ) → digit k a ≡ 0) → a ≡ 0
unfolding digit
eq_zero_of_digits n zero h d = refl
eq_zero_of_digits zero (suc a) h d = absurd (omega arith)
eq_zero_of_digits (suc n) (suc a) h d =
    omega (arith, d 0, eq_zero_of_digits n (suc a / 2) (omega arith) (λ k. d (suc k)))

pow_half : (k : ℕ) → (2 ^ suc k / 2 ≡ 2 ^ k) × (2 ^ suc k % 2 ≡ 0)
pow_half k = omega (arith, pow-suc 2 k)

pub digit-pow : (j k : ℕ) → digit j (2 ^ k) ≡ (if j == k then 1 else 0)
unfolding digit
digit-pow zero zero = refl
digit-pow zero (suc k) = ground (arith, pow_half k)
digit-pow (suc j) zero = digit-zero j ∙ ground arith
digit-pow (suc j) (suc k) = rw (pow_half k).0 (ground (arith, digit-pow j k))

mask-zero : (w k : ℕ) → digit k w ≡ 0 → bit_and w (2 ^ k) ≡ 0
mask-zero w k h =
    eq_zero_of_digits (bit_and w (2 ^ k)) (bit_and w (2 ^ k)) (omega arith)
      λ j. ground (arith, digit-bit_and j w (2 ^ k), digit-pow j k)

mask-ne-zero : (w k : ℕ) → digit k w ≡ 1 → bit_and w (2 ^ k) ≡ 0 → ⊥
mask-ne-zero w k h e =
    let low : digit k (bit_and w (2 ^ k)) ≡ 0 = rw e (digit-zero k) in
    ground (arith, digit-bit_and k w (2 ^ k), digit-pow k k)

-- `w & (1 << k)` is zero exactly when the digit is.
pub mask-digit : (w k : ℕ) → not (bit_and w (2 ^ k) == 0) ≡ (digit k w == 1)
mask-digit w k = ground (arith, mask-zero w k, mask-ne-zero w k, digit-le k w)

-- `~a` on an unsigned word of `n` digits.
abbrev pub complement : ℕ → ℕ → ℕ
complement n a = 2 ^ n - 1 - a

pub digit-complement : (j n a : ℕ) → j < n → a < 2 ^ n → digit j (complement n a) ≡ 1 - digit j a
unfolding digit
digit-complement j zero a h b = absurd (omega arith)
digit-complement zero (suc n) a h b = omega (arith, pow-suc 2 n)
digit-complement (suc j) (suc n) a h b =
    let half : complement (suc n) a / 2 ≡ complement n (a / 2) = omega (arith, pow-suc 2 n) in
    rw half (digit-complement j n (a / 2) (omega arith) (omega (arith, pow-suc 2 n)))

digits-le : (n a b : ℕ) → a ≤ n → digits (λ y. 0) min n a b ≤ a
digits-le zero zero b h = omega arith
digits-le zero (suc a) b h = absurd (omega arith)
digits-le (suc n) zero b h = omega arith
digits-le (suc n) (suc a) b h = omega (arith, digits-le n (suc a / 2) (b / 2) (omega arith))

-- A mask takes digits away.
pub bit_and-le : (a b : ℕ) → bit_and a b ≤ a
bit_and-le a b = rw (bit_and-bitwise a b) (digits-le a a b (omega arith))

-- All digits of the word of `n` ones are 1.
pub digit_ones : (j n : ℕ) → j < n → digit j (2 ^ n - 1) ≡ 1
digit_ones j n h =
    let e : complement n 0 ≡ 2 ^ n - 1 = omega arith in
    rw (← e) (omega (arith, digit-complement j n 0 h (one-le-pow n 2 (omega arith)), digit-zero j))
