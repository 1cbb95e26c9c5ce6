-- ===== src/Tests/Leb128.antt =====
-- Reading bytes and LEB128 numbers.
use libunwind.Prelude.{ℕ, ◌-◌, ◌≡◌, refl, arith, List, [], ◌∷◌}
use libunwind.Prelude.Bits.{word_mod}
use libunwind.Result.{ok}
use libunwind.Dwarf.Read.{dwarf_readu8}
use libunwind.Dwarf.Read.Bytes.{Holds}
use libunwind.Dwarf.Read.Byte.{Word}
use libunwind.Dwarf.Leb128.{dwarf_read_uleb128, dwarf_read_sleb128}
use libunwind.Dwarf.Leb128.Decode.{read_uleb128-groups}
use libunwind.Dwarf.Leb128.Signed.{read_sleb128-signed}
use libunwind.Dwarf.Leb128.RoundTrip.{uleb128, read_uleb128-uleb128}
use libunwind.Tests.Memory.{memory}

abbrev eight : List ℕ
eight = 1 ∷ 2 ∷ 3 ∷ 4 ∷ 5 ∷ 6 ∷ 7 ∷ 8 ∷ []

abbrev eight_word : Word
eight_word = record { b0 = 1; b1 = 2; b2 = 3; b3 = 4; b4 = 5; b5 = 6; b6 = 7; b7 = 8 }

-- 624485 and -127.
abbrev three : List ℕ
three = 0xe5 ∷ 0x8e ∷ 0x26 ∷ []

abbrev minus : List ℕ
minus = 0x81 ∷ 0x7f ∷ []

eight-Holds : Holds (memory eight) 0 eight
unfolding dwarf_readu8
eight-Holds = (
  omega arith,
  refl,
  (
    omega arith,
    refl,
    (
      omega arith,
      refl,
      (
        omega arith,
        refl,
        (omega arith, refl, (omega arith, refl, (omega arith, refl, (omega arith, refl, tt)))),
      ),
    ),
  ),
)

three-Holds : Holds (memory three) 0 three
unfolding dwarf_readu8
three-Holds = (omega arith, refl, (omega arith, refl, (omega arith, refl, tt)))

minus-Holds : Holds (memory minus) 0 minus
unfolding dwarf_readu8
minus-Holds = (omega arith, refl, (omega arith, refl, tt))

encoded-Holds : Holds (memory (uleb128 9 624485)) 0 (uleb128 9 624485)
unfolding dwarf_readu8 uleb128
encoded-Holds = (omega arith, refl, (omega arith, refl, (omega arith, refl, tt)))

read_uleb128-groups_example : dwarf_read_uleb128 (memory three) 0 ≡ ok (624485, 3)
read_uleb128-groups_example =
    read_uleb128-groups (memory three) 0 three (omega arith) (omega arith) three-Holds

read_sleb128-signed_example : dwarf_read_sleb128 (memory minus) 0 ≡ ok (word_mod - 127, 2)
read_sleb128-signed_example =
    read_sleb128-signed (memory minus) 0 minus (omega arith) (omega arith) minus-Holds

read_uleb128-uleb128_example : dwarf_read_uleb128 (memory (uleb128 9 624485)) 0 ≡ ok (624485, 3)
unfolding uleb128
read_uleb128-uleb128_example =
    read_uleb128-uleb128 (memory (uleb128 9 624485)) 0 624485 (omega arith) encoded-Holds
