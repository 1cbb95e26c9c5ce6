-- ===== src/Arm/Search/Loop.antt =====
-- The loop of the search closes in on one entry.
use libunwind.Prelude.{
  ℕ, zero, suc, ◌+◌, ◌-◌, ◌*◌, ◌/◌, ◌%◌, ◌^◌, ◌≤◌, ◌<◌, ◌≡◌, ◌∙◌, arith, true, false, Bool-cases,
  inl, inr, ltb, ltb→lt,
}
use mathlib.Core.Path.{subst}
use libunwind.Prelude.Bits.{pow-suc_two}
use libunwind.Result.{ok}
use libunwind.Arm.{ArmSpace, word32_mod, prel31_to_addr}
use libunwind.Arm.Search.{middle, search_loop}

-- Entries 0 to `m` stand at `base`, eight bytes each, below 2^32; entry `k` is for the function at `v k`.
abbrev pub HoldsIndex : ArmSpace → (base m : ℕ) → (v : ℕ → ℕ) → Type 0
HoldsIndex space base m v =
    (base + 8 * m + 8 ≤ word32_mod)
    × ((k : ℕ) → k ≤ m → prel31_to_addr space (base + 8 * k) ≡ ok (v k))

middle-eq :
    (base lo hi : ℕ)
    → lo < hi
    → base + 8 * hi + 8 ≤ word32_mod
    → middle (base + 8 * lo) (base + 8 * hi) ≡ base + 8 * (lo + (hi - lo + 1) / 2)
unfolding middle
middle-eq base lo hi less h = omega arith

-- `first < last - 8` is whether there is an entry between the two.
continues :
    (base lo hi : ℕ)
    → lo < hi
    → base + 8 * hi + 8 ≤ word32_mod
    → ltb (base + 8 * lo) ((base + 8 * hi + word32_mod - 8) % word32_mod) ≡ ltb (lo + 1) hi
continues base lo hi less h = ground arith

-- A round of the loop, on the two sides of the middle entry.
module _ (space : ArmSpace) (ip fuel first last entry val : ℕ)
    (more : ltb first ((last + word32_mod - 8) % word32_mod) ≡ true)
    (at : middle first last ≡ entry) (read : prel31_to_addr space entry ≡ ok val) where
  search_loop-left :
      ltb ip val ≡ true
      → search_loop space ip (suc fuel) first last ≡ search_loop space ip fuel first entry
  unfolding search_loop
  search_loop-left behind = rw (more, at, read, behind)

  search_loop-right :
      ltb ip val ≡ false
      → search_loop space ip (suc fuel) first last ≡ search_loop space ip fuel entry last
  unfolding search_loop
  search_loop-right before = rw (more, at, read, before)

module _ (space : ArmSpace) (ip base m : ℕ) (v : ℕ → ℕ) (holds : HoldsIndex space base m v) where
  -- Between an entry that starts at or before the address and one behind it, the loop finds two
  -- neighbours of this kind.
  pub search_loop-neighbours :
      (fuel lo hi : ℕ)
      → lo < hi
      → hi - lo ≤ 2 ^ fuel
      → hi ≤ m
      → v lo ≤ ip
      → ip < v hi
      → (k : ℕ) × (search_loop space ip fuel (base + 8 * lo) (base + 8 * hi) ≡ ok (base + 8 * k))
        × (k + 1 ≤ m)
        × (v k ≤ ip)
        × (ip < v (k + 1))
  unfolding search_loop
  search_loop-neighbours zero lo hi less small within below above =
      let next : hi ≡ lo + 1 = omega arith in
      let room : base + 8 * hi + 8 ≤ word32_mod = omega (arith, holds.0) in
      let stays : ltb (lo + 1) hi ≡ false = ground arith in
      (
        lo,
        rw (continues base lo hi less room, stays),
        omega arith,
        below,
        subst (λ (h : ℕ). ip < v h) next above,
      )
  search_loop-neighbours (suc fuel) lo hi less small within below above =
      let room : base + 8 * hi + 8 ≤ word32_mod = omega (arith, holds.0) in
      let mid : ℕ = lo + (hi - lo + 1) / 2 in
      let at_mid : middle (base + 8 * lo) (base + 8 * hi) ≡ base + 8 * mid =
        middle-eq base lo hi less room in
      let half : 2 ^ suc fuel ≡ 2 * 2 ^ fuel = omega (arith, pow-suc_two 1 fuel) in
      elim (Bool-cases (ltb (lo + 1) hi)) [
        | inr one ↦
            let next : hi ≡ lo + 1 = ground arith in
            (
              lo,
              rw (continues base lo hi less room, one),
              omega arith,
              below,
              subst (λ (h : ℕ). ip < v h) next above,
            )
        | inl more ↦
            let goes_on : ltb (base + 8 * lo) ((base + 8 * hi + word32_mod - 8) % word32_mod)
                ≡ true =
              continues base lo hi less room ∙ more in
            let apart : lo + 1 < hi = ltb→lt (lo + 1) hi more in
            let read : prel31_to_addr space (base + 8 * mid) ≡ ok (v mid) =
              holds.1 mid (omega arith) in
            elim (Bool-cases (ltb ip (v mid))) [
              | inl behind ↦
                  let (k, found, inside, start, end) =
                    search_loop-neighbours fuel lo mid (omega arith) (omega arith) (omega arith)
                      below (ltb→lt ip (v mid) behind) in
                  (
                    k,
                    search_loop-left space ip fuel (base + 8 * lo) (base + 8 * hi) (base + 8 * mid)
                          (v mid) goes_on at_mid read behind
                        ∙ found,
                    inside,
                    start,
                    end,
                  )
              | inr before ↦
                  let (k, found, inside, start, end) =
                    search_loop-neighbours fuel mid hi (omega arith) (omega arith) within
                      (ground arith) above in
                  (
                    k,
                    search_loop-right space ip fuel (base + 8 * lo) (base + 8 * hi) (base + 8 * mid)
                          (v mid) goes_on at_mid read before
                        ∙ found,
                    inside,
                    start,
                    end,
                  )
            ]
      ]
