-- ===== src/Dwarf/Read/Byte.antt =====
-- `dwarf_readu8` picks the right byte out of the word that `access_mem` returns.
use libunwind.Prelude.{
  ℕ, zero, suc, ◌+◌, ◌-◌, ◌/◌, ◌%◌, ◌^◌, ◌<◌, ◌≡◌, Bool, true, false, arith, List, [], ◌∷◌, get_or,
}
use libunwind.Prelude.Bits.{word_mod}
use libunwind.Result.{ok}
use libunwind.Dwarf.Read.{AddrSpace, aligned, byte_shift, dwarf_readu8}
use libunwind.Dwarf.Read.Bytes.{number}

-- The eight bytes of a word, in the order of their addresses.
pub record Word : Type 0 where
  pub b0 : ℕ
  pub b1 : ℕ
  pub b2 : ℕ
  pub b3 : ℕ
  pub b4 : ℕ
  pub b5 : ℕ
  pub b6 : ℕ
  pub b7 : ℕ

abbrev pub bytes : Word → List ℕ
bytes w = w.b0 ∷ w.b1 ∷ w.b2 ∷ w.b3 ∷ w.b4 ∷ w.b5 ∷ w.b6 ∷ w.b7 ∷ []

abbrev pub AreBytes : Word → Type 0
AreBytes w =
    (w.b0 < 256)
    × (w.b1 < 256)
    × (w.b2 < 256)
    × (w.b3 < 256)
    × (w.b4 < 256)
    × (w.b5 < 256)
    × (w.b6 < 256)
    × (w.b7 < 256)

abbrev digit : Bool → Word → ℕ → ℕ
digit big w off = number big (bytes w) / 2 ^ byte_shift big off % 256

little_digit :
    (w : Word) (off : ℕ) → AreBytes w → off < 8 → digit false w off ≡ get_or (bytes w) off 0
little_digit w zero h p = omega arith
little_digit w (suc zero) h p = omega arith
little_digit w (suc (suc zero)) h p = omega arith
little_digit w (suc (suc (suc zero))) h p = omega arith
little_digit w (suc (suc (suc (suc zero)))) h p = omega arith
little_digit w (suc (suc (suc (suc (suc zero))))) h p = omega arith
little_digit w (suc (suc (suc (suc (suc (suc zero)))))) h p = omega arith
little_digit w (suc (suc (suc (suc (suc (suc (suc zero))))))) h p = omega arith
little_digit w (suc (suc (suc (suc (suc (suc (suc (suc n)))))))) h p = absurd (omega arith)

big_digit : (w : Word) (off : ℕ) → AreBytes w → off < 8 → digit true w off ≡ get_or (bytes w) off 0
big_digit w zero h p = omega arith
big_digit w (suc zero) h p = omega arith
big_digit w (suc (suc zero)) h p = omega arith
big_digit w (suc (suc (suc zero))) h p = omega arith
big_digit w (suc (suc (suc (suc zero)))) h p = omega arith
big_digit w (suc (suc (suc (suc (suc zero))))) h p = omega arith
big_digit w (suc (suc (suc (suc (suc (suc zero)))))) h p = omega arith
big_digit w (suc (suc (suc (suc (suc (suc (suc zero))))))) h p = omega arith
big_digit w (suc (suc (suc (suc (suc (suc (suc (suc n)))))))) h p = absurd (omega arith)

any_digit :
    (big : Bool) (w : Word) (off : ℕ)
    → AreBytes w
    → off < 8
    → digit big w off ≡ get_or (bytes w) off 0
any_digit true w off h p = big_digit w off h p
any_digit false w off h p = little_digit w off h p

-- Where the aligned word around an address can be read, on a host of either byte order,
-- `dwarf_readu8` returns the byte at that address, and the next address.
pub readu8-byte :
    (space : AddrSpace) (addr : ℕ) (w : Word)
    → AreBytes w
    → space.access_mem (aligned addr) ≡ ok (number space.host_big_endian (bytes w))
    → dwarf_readu8 space addr ≡ ok (get_or (bytes w) (addr % 8) 0, (addr + 1) % word_mod)
unfolding dwarf_readu8
readu8-byte space addr w h e =
    let off : addr - aligned addr ≡ addr % 8 = omega arith in
    rw (e, off, any_digit space.host_big_endian w (addr % 8) h (omega arith))
