-- ===== src/Dwarf/Cache/Kept.antt =====
-- The invariant of the cache: every chain ends. `rs_new` keeps it, and with it a lookup ends.
use libunwind.Prelude.{
  ℕ, ◌+◌, ◌-◌, ◌*◌, ◌/◌, ◌%◌, ◌^◌, ◌≤◌, ◌<◌, ◌≡◌, ap, sym, ◌∙◌, arith, false, List, length,
}
use native.Mathlib.Nat.{div-lt_iff_lt-mul, mod-lt, mod-le}
use libunwind.Prelude.Bits.{word_mod}
use libunwind.Prelude.Power.{pow_pos, pow-split}
use libunwind.Result.{ok}
use libunwind.Dwarf.Frame.{at_index}
use libunwind.Dwarf.Cache.{RsCache, cache_size, hash_index}
use libunwind.Dwarf.Cache.Chains.{has, Chain}
use libunwind.Dwarf.Cache.Removed.{Removed}

-- The arrays have the sizes that `log_size` says, and the next entry to be replaced is one of them.
pub record IsSized (c : RsCache) : Type 0 where
  pub log_bound : c.log_size ≤ 15
  pub links_length : length c.links ≡ cache_size c.log_size
  pub hash_length : length c.hash ≡ 2 ^ (c.log_size + 1)
  pub head_inside : c.rr_head < cache_size c.log_size

-- Every slot leads to a chain that ends and does not visit `head`.
abbrev Avoids : (head : ℕ) → RsCache → Type 0
Avoids head c =
    (slot first : ℕ)
    → at_index c.hash slot ≡ ok first
    → (xs : List ℕ) × Chain c.links c.log_size slot first xs × (has head xs ≡ false)

abbrev pub AllEnd : RsCache → Type 0
AllEnd c =
    (slot first : ℕ)
    → at_index c.hash slot ≡ ok first
    → (xs : List ℕ) × Chain c.links c.log_size slot first xs

abbrev pub IsWf : RsCache → Type 0
IsWf c = IsSized c × AllEnd c

pub hash_index-lt : (ip n : ℕ) → n ≤ 15 → hash_index ip n < 2 ^ (n + 1)
unfolding hash_index
hash_index-lt ip n h =
    let k : ℕ = 64 - (n + 1) in
    let e : k + (n + 1) ≡ 64 = omega arith in
    let split : 2 ^ (n + 1) * 2 ^ k ≡ word_mod =
      sym (pow-split k (n + 1)) ∙ ap (λ (t : ℕ). 2 ^ t) e in
    let below : ip * 0x9e3779b97f4a7c16 % word_mod < 2 ^ (n + 1) * 2 ^ k =
      rw split (mod-lt (ip * 0x9e3779b97f4a7c16) (omega arith)) in
    let part : ip * 0x9e3779b97f4a7c16 % word_mod / 2 ^ k < 2 ^ (n + 1) =
      (div-lt_iff_lt-mul (pow_pos k)).1 below in
    omega (arith, part, mod-le (ip * 0x9e3779b97f4a7c16 % word_mod / 2 ^ k) 256)
