-- ===== src/Tests/Pointer.antt =====
-- Reading encoded pointers.
use libunwind.Prelude.{ℕ, ◌≡◌, ◌≢◌, refl, arith, List, [], ◌∷◌}
use libunwind.Result.{ok}
use libunwind.Dwarf.Read.{dwarf_readu8}
use libunwind.Dwarf.Read.Bytes.{Holds}
use libunwind.Dwarf.Leb128.{dwarf_read_sleb128}
use libunwind.Dwarf.Pointer.{dwarf_read_encoded_pointer}
use libunwind.Dwarf.Pointer.Relative.{read_encoded_pointer-pcrel_sdata4}
use libunwind.Dwarf.Pointer.Signed.{read_encoded_pointer-sleb128_negative}
use libunwind.Tests.Memory.{memory, no_info}

-- At 8, the distance -6.
abbrev back : List ℕ
back = 0 ∷ 0 ∷ 0 ∷ 0 ∷ 0 ∷ 0 ∷ 0 ∷ 0 ∷ 0xfa ∷ 0xff ∷ 0xff ∷ 0xff ∷ []

abbrev minus : List ℕ
minus = 0x81 ∷ 0x7f ∷ []

back-Holds : Holds (memory back) 8 (0xfa ∷ 0xff ∷ 0xff ∷ 0xff ∷ [])
unfolding dwarf_readu8
back-Holds = (omega arith, refl, (omega arith, refl, (omega arith, refl, (omega arith, refl, tt))))

minus-Holds : Holds (memory minus) 0 minus
unfolding dwarf_readu8
minus-Holds = (omega arith, refl, (omega arith, refl, tt))

read_encoded_pointer-pcrel_sdata4_example :
    dwarf_read_encoded_pointer (memory back) 0x1b no_info 8 ≡ ok (2, 12)
read_encoded_pointer-pcrel_sdata4_example =
    read_encoded_pointer-pcrel_sdata4 (memory back) no_info 8 2 0xfa 0xff 0xff 0xff refl
      (omega arith) (omega arith) (omega arith) (omega arith) (omega arith) back-Holds refl

read_encoded_pointer-sleb128_negative_example :
    (dwarf_read_encoded_pointer (memory minus) 0x09 no_info 0 ≡ ok (16257, 2))
    × (dwarf_read_encoded_pointer (memory minus) 0x09 no_info 0
        ≢ dwarf_read_sleb128 (memory minus) 0)
read_encoded_pointer-sleb128_negative_example =
    read_encoded_pointer-sleb128_negative (memory minus) no_info 0 minus refl (omega arith)
      (omega arith) minus-Holds (omega arith)
