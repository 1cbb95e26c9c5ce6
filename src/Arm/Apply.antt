-- ===== src/Arm/Apply.antt =====
-- src/arm/Gex_tables.c, arm_exidx_apply_cmd: a command of the unwind instructions, on the cursor.
use libunwind.Prelude.{ℕ, zero, suc, ◌+◌, ◌-◌, ◌/◌, ◌%◌, ltb, not, if◌then◌else◌}
use libunwind.Prelude.Bits.{test_bit}
use libunwind.Result.{Result, ok, err, stop, unspec, aborted, ◌>>=◌}
use libunwind.Arm.{
  ArmSpace, ArmCursor, word32_mod, mem_loc, is_null_loc, dwarf_get, unchecked, get_loc, set_loc,
}

-- `arm_exbuf_cmd_t` and `struct arm_exbuf_data`, whose `data` is `value` here.
pub data Cmd : Type 0 where
  finish data_push data_pop reg_pop reg_to_sp vfp_pop wreg_pop wcgr_pop reserved refused : Cmd

pub record ExbufData : Type 0 where
  pub cmd : Cmd
  pub value : ℕ

-- UNW_ARM_R13, the stack pointer, UNW_ARM_R14, the return address, UNW_ARM_R15, the program counter.
abbrev pub reg_sp : ℕ
reg_sp = 13

abbrev pub reg_lr : ℕ
reg_lr = 14

abbrev pub reg_pc : ℕ
reg_pc = 15

-- UNW_ARM_S0
abbrev pub reg_s0 : ℕ
reg_s0 = 64

-- ARM_EXBUF_START and ARM_EXBUF_COUNT.
abbrev pub exbuf_start : ℕ → ℕ
exbuf_start x = x / 16 % 16

abbrev pub exbuf_count : ℕ → ℕ
exbuf_count x = x % 16

abbrev pub add_cfa : ArmCursor → ℕ → ArmCursor
add_cfa c n = record c { cfa = (c.cfa + n) % word32_mod }

-- The loop over the 16 registers, for `n` rounds from register `i`.
unfoldable pub pop_regs : (mask n i : ℕ) → ArmCursor → Result ArmCursor
pop_regs mask zero i c = ok c
pop_regs mask (suc n) i c =
    let rest = pop_regs mask n (suc i) in
    if test_bit mask i then (do c ← set_loc c i (mem_loc c.cfa); rest (add_cfa c 4)) else rest c

-- The loop over the registers of a coprocessor, from `i` on.
unfoldable pub pop_vfp : (n i : ℕ) → ArmCursor → Result ArmCursor
pop_vfp zero i c = ok c
pop_vfp (suc n) i c = do c ← set_loc c (reg_s0 + i) (mem_loc c.cfa); pop_vfp n (suc i) (add_cfa c 8)

abbrev pub pop_words : ℕ → ℕ → ArmCursor → ArmCursor
pop_words size zero c = c
pop_words size (suc n) c = pop_words size n (add_cfa c size)

-- The control registers of WMMX: four bits, four bytes each.
abbrev pub pop_wcgr : (mask n i : ℕ) → ArmCursor → ArmCursor
pop_wcgr mask zero i c = c
pop_wcgr mask (suc n) i c = pop_wcgr mask n (suc i) (if test_bit mask i then add_cfa c 4 else c)

-- `dwarf_get (c, c->loc[i], &c->cfa)`
unfoldable pub load_cfa : ArmSpace → ArmCursor → ℕ → Result ArmCursor
load_cfa space c i = do
  l ← get_loc c i
  cfa ← unchecked c.cfa (dwarf_get space l)
  ok (record c { cfa = cfa })

unfoldable pub apply_finish : ArmSpace → ArmCursor → Result ArmCursor
apply_finish space c = do
  pc ← get_loc c reg_pc
  lr ← get_loc c reg_lr
  c ← (if is_null_loc pc then set_loc c reg_pc lr else ok c)
  pc ← get_loc c reg_pc
  ip ← unchecked c.ip (dwarf_get space pc)
  ok (record c { ip = ip })

unfoldable pub apply_reg_pop : ArmSpace → ℕ → ArmCursor → Result ArmCursor
apply_reg_pop space mask c = do
  c ← pop_regs mask 16 0 c
  if test_bit mask reg_sp then load_cfa space c reg_sp else ok c

unfoldable pub apply_reg_to_sp : ArmSpace → ℕ → ArmCursor → Result ArmCursor
apply_reg_to_sp space n c =
    if ltb n 16
    then (do l ← get_loc c n; c ← set_loc c reg_sp l; load_cfa space c reg_sp)
    else stop aborted

-- ARM_EXIDX_VFP_DOUBLE is bit 17.
unfoldable pub apply_vfp_pop : ℕ → ArmCursor → Result ArmCursor
apply_vfp_pop x c = do
  c ← pop_vfp (suc (exbuf_count x)) (exbuf_start x) c
  ok (if not (test_bit x 17) then add_cfa c 4 else c)

unfoldable pub arm_exidx_apply_cmd : ArmSpace → ExbufData → ArmCursor → Result ArmCursor
arm_exidx_apply_cmd space edata c = elim edata.cmd [
  | finish ↦ apply_finish space c
  | data_push ↦ ok (record c { cfa = (c.cfa + word32_mod - edata.value) % word32_mod })
  | data_pop ↦ ok (add_cfa c edata.value)
  | reg_pop ↦ apply_reg_pop space edata.value c
  | reg_to_sp ↦ apply_reg_to_sp space edata.value c
  | vfp_pop ↦ apply_vfp_pop edata.value c
  | wreg_pop ↦ ok (pop_words 8 (suc (exbuf_count edata.value)) c)
  | wcgr_pop ↦ ok (pop_wcgr edata.value 4 0 c)
  | reserved ↦ err unspec
  | refused ↦ err unspec
]
