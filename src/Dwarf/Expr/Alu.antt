-- ===== src/Dwarf/Expr/Alu.antt =====
-- src/dwarf/Gexpr.c: the arithmetic of the opcodes, on 64-bit words.
use libunwind.Prelude.{
  ℕ, ◌+◌, ◌-◌, ◌*◌, ◌/◌, ◌%◌, ◌^◌, Bool, true, false, not, leb, ◌==◌, ◌||◌, if◌then◌else◌, bit_and,
  bit_or, bit_xor, ◌&&◌,
}
use libunwind.Prelude.Bits.{word_mod, test_bit}
use libunwind.Prelude.Int.{ℤ, pos_part, neg_part, ltb_ℤ, leb_ℤ, quot, shift_right, signed, to_word}
use libunwind.Result.{Result, ok, stop, undefined, aborted, ◌>>=◌}

-- A word's value as a signed number of the address space's width.
unfoldable pub sword : ℕ → ℕ → Result ℤ
sword size val =
    if size == 1
    then ok (signed 8 val)
    else if size == 2
    then ok (signed 16 val)
    else if size == 4
    then ok (signed 32 val)
    else if size == 8
    then ok (signed 64 val)
    else stop aborted

abbrev pub from_bool : Bool → ℕ
from_bool true = 1
from_bool false = 0

-- ~a + 1
abbrev pub negate : ℕ → ℕ
negate a = (word_mod - a) % word_mod

-- ~a
abbrev pub complement : ℕ → ℕ
complement a = word_mod - 1 - a

pub data Unary : Type 0 where
  abs neg bit_not : Unary

-- The opcodes that pop `tmp1` and then `tmp2`.
pub data Binary : Type 0 where
  conj div minus mod_ mul disj plus shl shr shra xor le ge eq lt gt ne : Binary

unfoldable pub unary : ℕ → Unary → ℕ → ℕ
unary size abs tmp1 = if test_bit tmp1 (8 * size - 1) then negate tmp1 else tmp1
unary size neg tmp1 = negate tmp1
unary size bit_not tmp1 = complement tmp1

-- Signed division traps on a zero divisor and where the quotient does not fit.
abbrev pub divide : ℤ → ℤ → Result ℕ
divide a b =
    if leb (pos_part b + neg_part b) 0 || leb (2 ^ 63) (pos_part (quot a b))
    then stop undefined
    else ok (to_word (quot a b))

-- A shift by the width of a word has no value in C.
abbrev pub shift_by : ℕ → ℕ → Result ℕ
shift_by k v = if leb 64 k then stop undefined else ok v

abbrev pub compare_with : ℕ → (ℤ → ℤ → Bool) → ℕ → ℕ → Result ℕ
compare_with size test tmp1 tmp2 = do
  b ← sword size tmp2
  a ← sword size tmp1
  ok (from_bool (test b a))

unfoldable pub binary : ℕ → Binary → (tmp1 tmp2 : ℕ) → Result ℕ
unfolding sword
binary size conj tmp1 tmp2 = ok (bit_and tmp1 tmp2)
binary size div tmp1 tmp2 =
    if tmp1 == 0 then ok tmp1 else (do b ← sword size tmp2; a ← sword size tmp1; divide b a)
binary size minus tmp1 tmp2 = ok ((tmp2 + word_mod - tmp1) % word_mod)
binary size mod_ tmp1 tmp2 = if tmp1 == 0 then ok tmp1 else ok (tmp2 % tmp1)
binary size mul tmp1 tmp2 = if tmp1 == 0 then ok tmp1 else ok (tmp2 * tmp1 % word_mod)
binary size disj tmp1 tmp2 = ok (bit_or tmp1 tmp2)
binary size plus tmp1 tmp2 = ok ((tmp1 + tmp2) % word_mod)
binary size shl tmp1 tmp2 = shift_by tmp1 (tmp2 * 2 ^ tmp1 % word_mod)
binary size shr tmp1 tmp2 = shift_by tmp1 (tmp2 / 2 ^ tmp1)
binary size shra tmp1 tmp2 = do b ← sword size tmp2; shift_by tmp1 (to_word (shift_right b tmp1))
binary size xor tmp1 tmp2 = ok (bit_xor tmp1 tmp2)
binary size le tmp1 tmp2 = compare_with size leb_ℤ tmp1 tmp2
binary size ge tmp1 tmp2 = compare_with size (λ b a. leb_ℤ a b) tmp1 tmp2
binary size eq tmp1 tmp2 = compare_with size (λ b a. leb_ℤ a b && leb_ℤ b a) tmp1 tmp2
binary size lt tmp1 tmp2 = compare_with size ltb_ℤ tmp1 tmp2
binary size gt tmp1 tmp2 = compare_with size (λ b a. ltb_ℤ a b) tmp1 tmp2
binary size ne tmp1 tmp2 = compare_with size (λ b a. not (leb_ℤ a b && leb_ℤ b a)) tmp1 tmp2
