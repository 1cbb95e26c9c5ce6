-- ===== src/Arm/Decode/Instruction.antt =====
-- The unwind instructions at 0x00 to 0xb3, 0xb8 to 0xbf, 0xc9 and 0xd0 to 0xd7 as the ABI's table gives
-- them: their encoding and their meaning.
pub mod Masks
pub mod Commands
pub mod Run
use libunwind.Prelude.{
  ℕ, zero, suc, ◌+◌, ◌-◌, ◌*◌, ◌/◌, ◌%◌, ◌^◌, ◌≤◌, ◌<◌, ◌≡◌, ◌≢◌, Bool, true, false, ◌==◌,
  if◌then◌else◌, List, [], ◌∷◌, ◌++◌, length,
}
use libunwind.Prelude.Bits.{test_bit}
use libunwind.Result.{Result, ok, ◌>>=◌}
use libunwind.Dwarf.Leb128.Decode.{IsLeb128, groups}
use libunwind.Arm.{
  ArmSpace, ArmCursor, Loc, word32_mod, mem_loc, update, is_null_loc, dwarf_get, unchecked,
}
use libunwind.Arm.Apply.{reg_sp, reg_lr, reg_pc, reg_s0, add_cfa}

-- Left out are 0xc0 to 0xc7, for registers that the unwinder does not follow, 0xc8, which it decodes as
-- if it were 0xc9, and what the table refuses, reserves or calls spare.
pub data Instr : Type 0 where
  add_vsp : ℕ → Instr
  sub_vsp : ℕ → Instr
  pop_masked : ℕ → Instr
  set_vsp : ℕ → Instr
  pop_range : (n : ℕ) → (lr : Bool) → Instr
  pop_low : ℕ → Instr
  add_vsp_far : List ℕ → Instr
  pop_fstmx : (first count : ℕ) → Instr
  pop_fstmx8 : ℕ → Instr
  pop_double : (first count : ℕ) → Instr
  pop_double8 : ℕ → Instr

-- What an instruction's fields may be; the number behind 0xb2 has at most four bytes.
abbrev pub IsValid : Instr → Type 0
IsValid (add_vsp n) = n < 64
IsValid (sub_vsp n) = n < 64
IsValid (pop_masked m) = (m < 4096) × (m ≢ 0)
IsValid (set_vsp r) = (r < 16) × (r ≢ 13) × (r ≢ 15)
IsValid (pop_range n lr) = n < 8
IsValid (pop_low m) = (m < 16) × (m ≢ 0)
IsValid (add_vsp_far bs) = IsLeb128 bs × (length bs ≤ 4)
IsValid (pop_fstmx first count) = (first < 16) × (count < 16)
IsValid (pop_fstmx8 n) = n < 8
IsValid (pop_double first count) = (first < 16) × (count < 16)
IsValid (pop_double8 n) = n < 8

-- The first byte, and the others.
abbrev pub head : Instr → ℕ
head (add_vsp n) = n
head (sub_vsp n) = 0x40 + n
head (pop_masked m) = 0x80 + m / 256
head (set_vsp r) = 0x90 + r
head (pop_range n lr) = if lr then 0xa8 + n else 0xa0 + n
head (pop_low m) = 0xb1
head (add_vsp_far bs) = 0xb2
head (pop_fstmx first count) = 0xb3
head (pop_fstmx8 n) = 0xb8 + n
head (pop_double first count) = 0xc9
head (pop_double8 n) = 0xd0 + n

abbrev pub tail : Instr → List ℕ
tail (add_vsp n) = []
tail (sub_vsp n) = []
tail (pop_masked m) = m % 256 ∷ []
tail (set_vsp r) = []
tail (pop_range n lr) = []
tail (pop_low m) = m ∷ []
tail (add_vsp_far bs) = bs
tail (pop_fstmx first count) = (first * 16 + count) ∷ []
tail (pop_fstmx8 n) = []
tail (pop_double first count) = (first * 16 + count) ∷ []
tail (pop_double8 n) = []

-- The registers that a mask selects, its lowest bit for register `r`.
unfoldable pub masked : (n r mask : ℕ) → List ℕ
masked zero r mask = []
masked (suc n) r mask =
    if mask % 2 == 1 then r ∷ masked n (suc r) (mask / 2) else masked n (suc r) (mask / 2)

unfoldable pub from_to : (n r : ℕ) → List ℕ
from_to zero r = []
from_to (suc n) r = r ∷ from_to n (suc r)

-- Registers stand one after the other from `vsp` on.
unfoldable pub save : (size : ℕ) → List ℕ → ArmCursor → ArmCursor
save size [] c = c
save size (r ∷ rs) c =
    save size rs (add_cfa (record c { loc = update c.loc r (mem_loc c.cfa) }) size)

-- `vsp` is the word at a location, where that can be read.
abbrev pub read_vsp : ArmSpace → Loc → ArmCursor → Result ArmCursor
read_vsp space l c = do cfa ← unchecked c.cfa (dwarf_get space l); ok (record c { cfa = cfa })

-- A popped stack pointer is the new `vsp`.
abbrev pub pop_core : ArmSpace → List ℕ → (pops_sp : Bool) → ArmCursor → Result ArmCursor
pop_core space rs pops_sp c =
    if pops_sp then read_vsp space ((save 4 rs c).loc reg_sp) (save 4 rs c) else ok (save 4 rs c)

abbrev pub pop_doubles : (first count : ℕ) → ArmCursor → ArmCursor
pop_doubles first count c = save 8 (from_to (suc count) (reg_s0 + first)) c

abbrev pub run : ArmSpace → Instr → ArmCursor → Result ArmCursor
run space (add_vsp n) c = ok (add_cfa c (4 * n + 4))
run space (sub_vsp n) c = ok (record c { cfa = (c.cfa + word32_mod - (4 * n + 4)) % word32_mod })
run space (pop_masked m) c = pop_core space (masked 12 4 m) (test_bit m 9) c
run space (set_vsp r) c =
    read_vsp space (c.loc r) (record c { loc = update c.loc reg_sp (c.loc r) })
run space (pop_range n lr) c = ok (save 4 (from_to (suc n) 4 ++ (if lr then reg_lr ∷ [] else [])) c)
run space (pop_low m) c = ok (save 4 (masked 4 0 m) c)
run space (add_vsp_far bs) c = ok (add_cfa c ((0x204 + 4 * groups bs) % word32_mod))
run space (pop_fstmx first count) c = ok (add_cfa (pop_doubles first count c) 4)
run space (pop_fstmx8 n) c = ok (add_cfa (pop_doubles 8 n c) 4)
run space (pop_double first count) c = ok (pop_doubles first count c)
run space (pop_double8 n) c = ok (pop_doubles 8 n c)

-- At the end the return address is the caller's program counter, unless that was popped.
abbrev pub return_to : ArmSpace → Loc → ArmCursor → Result ArmCursor
return_to space l c = do ip ← unchecked c.ip (dwarf_get space l); ok (record c { ip = ip })

abbrev pub leave : ArmSpace → ArmCursor → Result ArmCursor
leave space c =
    if is_null_loc (c.loc reg_pc)
    then return_to space (c.loc reg_lr) (record c { loc = update c.loc reg_pc (c.loc reg_lr) })
    else return_to space (c.loc reg_pc) c

-- A sequence of instructions, ended by 0xb0.
abbrev pub encode : List Instr → List ℕ
encode [] = 0xb0 ∷ []
encode (i ∷ is) = head i ∷ (tail i ++ encode is)

abbrev pub run_all : ArmSpace → List Instr → ArmCursor → Result ArmCursor
run_all space [] c = leave space c
run_all space (i ∷ is) c = do c ← run space i c; run_all space is c

abbrev pub AreValid : List Instr → Type 0
AreValid [] = Unit
AreValid (i ∷ is) = IsValid i × AreValid is
