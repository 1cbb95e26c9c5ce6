-- ===== src/Dwarf/Search/Bisect.antt =====
-- The loop of the lookups finds the first entry behind the address.
use libunwind.Prelude.{
  ℕ, zero, suc, ◌+◌, ◌-◌, ◌*◌, ◌/◌, ◌^◌, ◌≤◌, ◌<◌, ◌≡◌, arith, Bool, true, false, Bool-cases, inl,
  inr, ltb, ltb→lt,
}
use libunwind.Prelude.Bits.{word_mod, pow-suc_two}
use libunwind.Result.{Result, ok}
use libunwind.Dwarf.Search.{bisect, halvings}

-- Among `n` entries, `r` is the first for which the test holds: it fails below and holds from there.
abbrev pub Splits : (above : ℕ → Bool) (n r : ℕ) → Type 0
Splits above n r =
    (r ≤ n) × ((k : ℕ) → k < r → above k ≡ false) × ((k : ℕ) → r ≤ k → k < n → above k ≡ true)

module _ (test : ℕ → Result Bool) (above : ℕ → Bool) (n : ℕ)
    (answers : (k : ℕ) → k < n → test k ≡ ok (above k))
    (sorted : (j k : ℕ) → j ≤ k → k < n → above j ≡ true → above k ≡ true) where
  below_mid : (mid : ℕ) → mid < n → above mid ≡ false → (k : ℕ) → k < mid + 1 → above k ≡ false
  below_mid mid h e k less = elim (Bool-cases (above k)) [
    | inl holds ↦ absurd (ground (arith, sorted k mid (omega arith) h holds))
    | inr fails ↦ fails
  ]

  pub bisect-Splits :
      (fuel lo hi : ℕ)
      → lo ≤ hi
      → hi ≤ n
      → hi - lo < 2 ^ fuel
      → ((k : ℕ) → k < lo → above k ≡ false)
      → ((k : ℕ) → hi ≤ k → k < n → above k ≡ true)
      → (r : ℕ) × (bisect test fuel lo hi ≡ ok r) × Splits above n r
  unfolding bisect
  bisect-Splits zero lo hi h hn small below from =
      let done : ltb lo hi ≡ false = ground arith in
      (hi, rw done, (hn, (λ k less. below k (omega arith)), from))
  bisect-Splits (suc fuel) lo hi h hn small below from = elim (Bool-cases (ltb lo hi)) [
    | inr done ↦
        let met : hi ≤ lo = ground arith in
        (hi, rw done, (hn, (λ k less. below k (omega arith)), from))
    | inl more ↦
        let mid : ℕ = (lo + hi) / 2 in
        let less : lo < hi = ltb→lt lo hi more in
        let in_range : mid < n = omega arith in
        let half : 2 ^ suc fuel ≡ 2 * 2 ^ fuel = omega (arith, pow-suc_two 1 fuel) in
        elim (Bool-cases (above mid)) [
          | inl holds ↦
              let (r, e, s) =
                bisect-Splits fuel lo mid (omega arith) (omega arith) (omega arith) below
                  (λ k ge lt. sorted mid k ge lt holds) in
              (r, rw (more, answers mid in_range, holds) e, s)
          | inr fails ↦
              let (r, e, s) =
                bisect-Splits fuel (mid + 1) hi (omega arith) hn (omega arith)
                  (below_mid mid in_range fails) from in
              (r, rw (more, answers mid in_range, fails) e, s)
        ]
  ]

  -- The whole table, of fewer than 2^64 entries.
  pub bisect_all : n < word_mod → (r : ℕ) × (bisect test halvings 0 n ≡ ok r) × Splits above n r
  bisect_all small =
      bisect-Splits halvings 0 n (omega arith) (omega arith) (omega arith)
        (λ k h. absurd (omega arith)) (λ k h less. absurd (omega arith))
