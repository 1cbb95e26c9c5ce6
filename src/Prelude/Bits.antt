-- ===== src/Prelude/Bits.antt =====
-- Bit operations on machine words. A mask of low bits and the test of one bit are written as
-- arithmetic; `|` of disjoint parts is a sum, at every position.
use Prim.Native.Nat.{max, digits, bit_or-bitwise, bit_or}
use Prim.Native.Nat.{ℕ, zero, suc, ◌+◌, ◌*◌, ◌/◌, ◌%◌, ◌^◌, ◌≤◌, ◌<◌}
use mathlib.Core.Path.{◌≡◌, refl, ap}
use mathlib.Core.Bool.{Bool}
use native.Mathlib.Nat.{pow-suc}
use native.Mathlib.Omega.{arith}
use libunwind.Prelude.Tests.{◌==◌}

-- `unw_word_t` and `uint64_t` arithmetic is modulo this.
abbrev pub word_mod : ℕ
word_mod = 2 ^ 64

-- x & (2^k - 1)
abbrev pub low_bits : ℕ → ℕ → ℕ
low_bits x k = x % 2 ^ k

-- (x & (1 << k)) != 0
abbrev pub test_bit : ℕ → ℕ → Bool
test_bit x k = x / 2 ^ k % 2 == 1

abbrev or_digits : ℕ → ℕ → ℕ → ℕ
or_digits = digits (λ b. b) max

-- The count of digits to go does not matter once it is large enough.
or_digits_enough : (n m a b : ℕ) → a ≤ n → a ≤ m → or_digits n a b ≡ or_digits m a b
or_digits_enough zero zero a b p q = refl
or_digits_enough zero (suc m) zero b p q = refl
or_digits_enough zero (suc m) (suc a) b p q = absurd (omega arith)
or_digits_enough (suc n) zero zero b p q = refl
or_digits_enough (suc n) zero (suc a) b p q = absurd (omega arith)
or_digits_enough (suc n) (suc m) zero b p q = refl
or_digits_enough (suc n) (suc m) (suc a) b p q =
    rw (or_digits_enough n m (suc a / 2) (b / 2) (omega arith) (omega arith))

-- The lowest digit of `|`, and the rest.
bit_or-halve : (a b : ℕ) → bit_or a b ≡ bit_or (a / 2) (b / 2) * 2 + max (a % 2) (b % 2)
bit_or-halve zero b = simp bit_or-bitwise (omega arith)
bit_or-halve (suc a) b =
    simp bit_or-bitwise (
      omega (arith, or_digits_enough a (suc a / 2) (suc a / 2) (b / 2) (omega arith) (omega arith)))

zero-bit_or : (b : ℕ) → bit_or 0 b ≡ b
zero-bit_or b = bit_or-bitwise 0 b

pub pow-suc_two : (q k : ℕ) → q * 2 ^ suc k ≡ 2 * (q * 2 ^ k)
pow-suc_two q k = omega (arith, ap (λ (t : ℕ). q * t) (pow-suc 2 k))

-- Below bit `k` the one part, from bit `k` on the other: `|` is a sum.
pub bit_or-disjoint : (k r q : ℕ) → r < 2 ^ k → bit_or r (q * 2 ^ k) ≡ r + q * 2 ^ k
bit_or-disjoint zero r q h =
    let e : r ≡ 0 = omega arith in rw e (omega (arith, zero-bit_or (q * 2 ^ 0)))
bit_or-disjoint (suc k) r q h = ground (
  arith,
  bit_or-halve r (q * 2 ^ suc k),
  pow-suc_two q k,
  bit_or-disjoint k (r / 2) q (omega arith),
)

bit_or_comm_below : (n a b : ℕ) → a ≤ n → b ≤ n → bit_or a b ≡ bit_or b a
bit_or_comm_below zero a b p q =
    let e : a ≡ 0 = omega arith in let f : b ≡ 0 = omega arith in rw (e, f)
bit_or_comm_below (suc n) a b p q = ground (
  arith,
  bit_or-halve a b,
  bit_or-halve b a,
  bit_or_comm_below n (a / 2) (b / 2) (omega arith) (omega arith),
)

pub bit_or_comm : (a b : ℕ) → bit_or a b ≡ bit_or b a
bit_or_comm a b = bit_or_comm_below (a + b) a b (omega arith) (omega arith)
