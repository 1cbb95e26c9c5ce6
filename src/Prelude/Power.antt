-- ===== src/Prelude/Power.antt =====
-- Powers of two: shifts cut off at a word's width.
use Prim.Native.Nat.{bit_or, ◌-◌, ◌≤◌, ℕ, zero, suc, ◌+◌, ◌*◌, ◌%◌, ◌^◌, ◌<◌}
use mathlib.Core.Path.{◌≡◌, sym, ap, ◌∙◌}
use native.Mathlib.Nat.{
  one-le-pow, mul-one, pow-suc, zero-add, suc-add, mul-le-mul, mod-lt, le_refl,
}
use native.Mathlib.Numerals.{towards_suc}
use native.Mathlib.Omega.{arith}
use libunwind.Prelude.Bits.{pow-suc_two, word_mod, bit_or-disjoint}

pub pow_pos : (k : ℕ) → 0 < 2 ^ k
pow_pos k = omega (arith, one-le-pow k 2 (omega arith))

double_mod : (x m : ℕ) → 0 < m → 2 * x % (2 * m) ≡ 2 * (x % m)
double_mod x m h = grind arith

-- A number shifted left by `s` and cut off at `s + k` bits is its low `k` bits, shifted.
pub shl_cut : (s k q : ℕ) → q * 2 ^ s % (2 ^ k * 2 ^ s) ≡ q % 2 ^ k * 2 ^ s
shl_cut zero k q = simp mul-one
shl_cut (suc s) k q =
    rw (pow-suc_two q s, pow-suc_two (2 ^ k) s, pow-suc_two (q % 2 ^ k) s)
      (double_mod (q * 2 ^ s) (2 ^ k * 2 ^ s) (grind (arith, pow_pos k, pow_pos s))
        ∙ ap (λ (t : ℕ). 2 * t) (shl_cut s k q))

pub pow-split : (s k : ℕ) → 2 ^ (s + k) ≡ 2 ^ k * 2 ^ s
pow-split zero k = omega (arith, ap (λ (t : ℕ). 2 ^ t) (zero-add k))
pow-split (suc s) k =
    ap (λ (t : ℕ). 2 ^ t) (suc-add s k)
    ∙ omega (arith, pow-suc 2 (s + k), pow-split s k, pow-suc_two (2 ^ k) s)

pub shift_seven : (s : ℕ) → 2 ^ (s + 7) ≡ 128 * 2 ^ s
shift_seven s = simp towards_suc (omega arith)

word-split : (s : ℕ) → s ≤ 64 → 2 ^ (64 - s) * 2 ^ s ≡ word_mod
word-split s h =
    let e : s + (64 - s) ≡ 64 = omega arith in sym (pow-split s (64 - s)) ∙ ap (λ (t : ℕ). 2 ^ t) e

-- `val |= q << s` in 64 bits, where `val` lies below bit `s`, is a sum modulo 2^64.
pub bit_or-shl :
    (s val q : ℕ)
    → s ≤ 64
    → val < 2 ^ s
    → bit_or val (q * 2 ^ s % word_mod) ≡ (val + q * 2 ^ s) % word_mod
bit_or-shl s val q hs hv =
    let k : ℕ = 64 - s in
    let cut : q * 2 ^ s % word_mod ≡ q % 2 ^ k * 2 ^ s =
      ap (λ (t : ℕ). q * 2 ^ s % t) (sym (word-split s hs)) ∙ shl_cut s k q in
    let fits : (q % 2 ^ k + 1) * 2 ^ s ≤ 2 ^ k * 2 ^ s =
      mul-le-mul (omega (arith, mod-lt q (pow_pos k))) (le_refl (2 ^ s)) in
    rw (cut, bit_or-disjoint s val (q % 2 ^ k) hv) (omega (arith, cut, fits, word-split s hs, hv))
