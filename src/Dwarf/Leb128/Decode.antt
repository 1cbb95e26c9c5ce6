-- ===== src/Dwarf/Leb128/Decode.antt =====
-- What the LEB128 readers return.
use libunwind.Prelude.{
  ℕ, zero, suc, ◌+◌, ◌*◌, ◌%◌, ◌^◌, ◌≤◌, ◌<◌, ◌≡◌, ap, arith, List, [], ◌∷◌, length,
}
use libunwind.Prelude.Bits.{word_mod}
use native.Mathlib.Nat.{mul-le-mul, le_refl, mod-le}
use libunwind.Prelude.Power.{bit_or-shl, shift_seven}
use libunwind.Result.{ok}
use libunwind.Dwarf.Read.{AddrSpace}
use libunwind.Dwarf.Read.Bytes.{after, Holds}
use libunwind.Dwarf.Leb128.{read_leb128_loop, rounds, dwarf_read_uleb128}

-- A number in LEB128: only the last byte has its top bit clear.
abbrev pub IsLeb128 : List ℕ → Type 0
IsLeb128 [] = ⊥
IsLeb128 (b ∷ []) = b < 128
IsLeb128 (b ∷ c ∷ bs) = (128 ≤ b) × IsLeb128 (c ∷ bs)

-- The number that the groups make.
abbrev pub groups : List ℕ → ℕ
groups [] = 0
groups (b ∷ bs) = b % 128 + 128 * groups bs

-- The last byte.
abbrev pub last : List ℕ → ℕ
last [] = 0
last (b ∷ []) = b
last (b ∷ c ∷ bs) = last (c ∷ bs)

-- A value below bit `s` and a group at bit `s` stay below bit `s + 7`.
next_fits : (s val b : ℕ) → val < 2 ^ s → (val + b % 128 * 2 ^ s) % word_mod < 2 ^ (s + 7)
next_fits s val b h =
    let group : b % 128 * 2 ^ s ≤ 127 * 2 ^ s = mul-le-mul (omega arith) (le_refl (2 ^ s)) in
    omega (arith, group, shift_seven s, mod-le (val + b % 128 * 2 ^ s) word_mod)

-- The first group and the rest, seven bits further up.
groups_split :
    (s b : ℕ) (bs : List ℕ) → groups (b ∷ bs) * 2 ^ s ≡ b % 128 * 2 ^ s + groups bs * 2 ^ (s + 7)
groups_split s b bs = omega (arith, ap (λ (t : ℕ). groups bs * t) (shift_seven s))

module _ (space : AddrSpace) where
  pub read_leb128_loop-groups :
      (bs : List ℕ) (fuel addr val shift : ℕ)
      → IsLeb128 bs
      → length bs ≤ fuel
      → shift + 7 * length bs ≤ 70
      → val < 2 ^ shift
      → Holds space addr bs
      → read_leb128_loop space fuel addr val shift
        ≡ ok (record {
          val = (val + groups bs * 2 ^ shift) % word_mod;
          shift = shift + 7 * length bs;
          byte = last bs;
          addr = after addr (length bs);
        })
  unfolding read_leb128_loop
  read_leb128_loop-groups [] fuel addr val shift wf hf hs hv holds = absurd wf
  read_leb128_loop-groups (b ∷ bs) zero addr val shift wf hf hs hv holds = absurd (omega arith)
  read_leb128_loop-groups (b ∷ []) (suc fuel) addr val shift wf hf hs hv (hb, e, _) =
      rw (e, bit_or-shl shift val (b % 128) (omega arith) hv) (ground arith)
  read_leb128_loop-groups (b ∷ c ∷ bs) (suc fuel) addr val shift wf hf hs hv (hb, e, h) =
      rw (e, bit_or-shl shift val (b % 128) (omega arith) hv)
        (ground (
          arith,
          shift_seven shift,
          read_leb128_loop-groups (c ∷ bs) fuel (after addr 1)
              ((val + b % 128 * 2 ^ shift) % word_mod) (shift + 7) wf.1 (omega arith) (omega arith)
              (next_fits shift val b hv) h,
          groups_split shift b (c ∷ bs),
        ))

  -- The whole loop, from the start.
  pub read_leb128_loop-start :
      (addr : ℕ) (bs : List ℕ)
      → IsLeb128 bs
      → length bs ≤ 10
      → Holds space addr bs
      → read_leb128_loop space rounds addr 0 0
        ≡ ok (record {
          val = groups bs % word_mod;
          shift = 7 * length bs;
          byte = last bs;
          addr = after addr (length bs);
        })
  read_leb128_loop-start addr bs wf h holds =
      rw
        (read_leb128_loop-groups bs rounds addr 0 0 wf (omega arith) (omega arith) (omega arith)
          holds)
        (ground arith)

  -- `dwarf_read_uleb128` reads any LEB128 number of at most ten bytes: it returns the number that
  -- the groups of seven bits make, modulo 2^64, and the address behind the last byte.
  pub read_uleb128-groups :
      (addr : ℕ) (bs : List ℕ)
      → IsLeb128 bs
      → length bs ≤ 10
      → Holds space addr bs
      → dwarf_read_uleb128 space addr ≡ ok (groups bs % word_mod, after addr (length bs))
  unfolding dwarf_read_uleb128
  read_uleb128-groups addr bs wf h holds = rw (read_leb128_loop-start addr bs wf h holds)
