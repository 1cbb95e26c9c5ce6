-- ===== src/Arm/Decode/Instruction/Masks.antt =====
-- Which registers a mask selects.
use libunwind.Prelude.{
  ℕ, zero, suc, ◌+◌, ◌*◌, ◌/◌, ◌%◌, ◌^◌, ◌≤◌, ◌<◌, ◌≡◌, refl, ap, ◌∙◌, arith, Bool, true, false,
  ◌==◌, if◌then◌else◌, [], ◌∷◌, ◌++◌,
}
use native.Mathlib.Nat.{pow-suc}
use libunwind.Prelude.Bits.{test_bit}
use libunwind.Arm.Apply.{reg_lr}
use libunwind.Arm.Decode.{reg_range}
use libunwind.Arm.Decode.Instruction.{masked, from_to}

masked-even : (n r m : ℕ) → masked (suc n) r (m * 2) ≡ masked n (suc r) m
unfolding masked
masked-even n r m =
    let clear : (m * 2 % 2 == 1) ≡ false = ground arith in
    let half : m * 2 / 2 ≡ m = omega arith in rw (clear, half)

-- A mask shifted up by four bits selects none of the first four registers.
pub masked-shift : (m : ℕ) → masked 16 0 (m * 16) ≡ masked 12 4 m
masked-shift m =
    let halves : m * 16 ≡ m * 2 * 2 * 2 * 2 = omega arith in
    ap (λ (x : ℕ). masked 16 0 x) halves
    ∙ masked-even 15 0 (m * 2 * 2 * 2)
    ∙ masked-even 14 1 (m * 2 * 2)
    ∙ masked-even 13 2 (m * 2)
    ∙ masked-even 12 3 m

masked-zero : (n r : ℕ) → masked n r 0 ≡ []
unfolding masked
masked-zero zero r = refl
masked-zero (suc n) r = masked-zero n (suc r)

masked-below : (k n r m : ℕ) → k ≤ n → m < 2 ^ k → masked n r m ≡ masked k r m
unfolding masked
masked-below zero n r m h small =
    let none : m ≡ 0 = omega arith in ap (λ (x : ℕ). masked n r x) none ∙ masked-zero n r
masked-below (suc k) zero r m h small = absurd (omega arith)
masked-below (suc k) (suc n) r m h small =
    let half : m / 2 < 2 ^ k = omega (arith, pow-suc 2 k) in
    rw (masked-below k n (suc r) (m / 2) (omega arith) half)

pub masked-low : (m : ℕ) → m < 16 → masked 16 0 m ≡ masked 4 0 m
masked-low m h = masked-below 4 16 0 m (omega arith) h

-- The registers from 4 on, and the one of the return address.
pub masked-range :
    (n : ℕ) (lr : Bool)
    → n < 8
    → masked 16 0 (reg_range (if lr then 0xa8 + n else 0xa0 + n))
      ≡ from_to (suc n) 4 ++ (if lr then reg_lr ∷ [] else [])
unfolding masked from_to
masked-range zero true h = refl
masked-range zero false h = refl
masked-range (suc zero) true h = refl
masked-range (suc zero) false h = refl
masked-range (suc (suc zero)) true h = refl
masked-range (suc (suc zero)) false h = refl
masked-range (suc (suc (suc zero))) true h = refl
masked-range (suc (suc (suc zero))) false h = refl
masked-range (suc (suc (suc (suc zero)))) true h = refl
masked-range (suc (suc (suc (suc zero)))) false h = refl
masked-range (suc (suc (suc (suc (suc zero))))) true h = refl
masked-range (suc (suc (suc (suc (suc zero))))) false h = refl
masked-range (suc (suc (suc (suc (suc (suc zero)))))) true h = refl
masked-range (suc (suc (suc (suc (suc (suc zero)))))) false h = refl
masked-range (suc (suc (suc (suc (suc (suc (suc zero))))))) true h = refl
masked-range (suc (suc (suc (suc (suc (suc (suc zero))))))) false h = refl
masked-range (suc (suc (suc (suc (suc (suc (suc (suc n)))))))) lr h = absurd (omega arith)

-- The stack pointer is none of them.
pub range_bit :
    (n : ℕ) (lr : Bool)
    → n < 8
    → test_bit (reg_range (if lr then 0xa8 + n else 0xa0 + n)) 13 ≡ false
range_bit zero true h = refl
range_bit zero false h = refl
range_bit (suc zero) true h = refl
range_bit (suc zero) false h = refl
range_bit (suc (suc zero)) true h = refl
range_bit (suc (suc zero)) false h = refl
range_bit (suc (suc (suc zero))) true h = refl
range_bit (suc (suc (suc zero))) false h = refl
range_bit (suc (suc (suc (suc zero)))) true h = refl
range_bit (suc (suc (suc (suc zero)))) false h = refl
range_bit (suc (suc (suc (suc (suc zero))))) true h = refl
range_bit (suc (suc (suc (suc (suc zero))))) false h = refl
range_bit (suc (suc (suc (suc (suc (suc zero)))))) true h = refl
range_bit (suc (suc (suc (suc (suc (suc zero)))))) false h = refl
range_bit (suc (suc (suc (suc (suc (suc (suc zero))))))) true h = refl
range_bit (suc (suc (suc (suc (suc (suc (suc zero))))))) false h = refl
range_bit (suc (suc (suc (suc (suc (suc (suc (suc n)))))))) lr h = absurd (omega arith)
