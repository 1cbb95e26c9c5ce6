-- ===== src/Arm.antt =====
-- src/arm/Gex_tables.c, include/tdep-arm/ex_tables.h and include/tdep-arm/libunwind_i.h: the parts
-- that the modules of the ARM exception tables share. A word of an ARM target has 32 bits.
pub mod Apply
pub mod Decode
pub mod Extract
pub mod Search
pub mod Step
use libunwind.Prelude.{
  ℕ, zero, suc, ◌+◌, ◌-◌, ◌*◌, ◌/◌, ◌%◌, ◌^◌, Bool, true, false, ltb, ◌==◌, ◌&&◌, if◌then◌else◌,
  Option, none, some,
}
use libunwind.Prelude.Bits.{test_bit}
use libunwind.Prelude.Int.{ℤ, pos, negsuc, signed, shift_right}
use libunwind.Result.{Result, ok, err, stop, inval, unspec, badreg, aborted, out_of_bounds, ◌>>=◌}
use libunwind.Dwarf.Types.{Format}

abbrev pub word32_mod : ℕ
word32_mod = 2 ^ 32

-- The 32-bit pattern of a signed number.
abbrev pub to_word32 : ℤ → ℕ
to_word32 (pos n) = n % word32_mod
to_word32 (negsuc n) = word32_mod - 1 - n % word32_mod

-- The callbacks of `unw_accessors_t` for a read; `none` is a negative return value.
pub record ArmSpace : Type 0 where
  pub access_mem : ℕ → Option ℕ
  pub access_reg : ℕ → Option ℕ

-- `dwarf_loc_t`, as built for remote unwinding.
pub record Loc : Type 0 where
  pub val : ℕ
  pub type : ℕ

abbrev pub null_loc : Loc
null_loc = record { val = 0; type = 0 }

abbrev pub mem_loc : ℕ → Loc
mem_loc addr = record { val = addr; type = 0 }

abbrev pub is_null_loc : Loc → Bool
is_null_loc l = (l.val == 0) && (l.type == 0)

-- A failed access, and the value of one.
abbrev pub accessed : Option ℕ → Result ℕ
accessed none = err unspec
accessed (some v) = ok v

unfoldable pub dwarf_get : ArmSpace → Loc → Result ℕ
dwarf_get space l =
    if is_null_loc l
    then err badreg
    else if test_bit l.type 0
    then stop aborted
    else if test_bit l.type 1
    then accessed (space.access_reg l.val)
    else accessed (space.access_mem l.val)

-- A caller that looks at no return value: what the call would store, or what was there.
abbrev pub unchecked : ℕ → Result ℕ → Result ℕ
unchecked old (ok v) = ok v
unchecked old (err e) = ok old
unchecked old (stop s) = stop s

-- The fields of `struct dwarf_cursor` that unwinding by these tables uses. `loc` is the array of
-- DWARF_NUM_PRESERVED_REGS = 128 locations.
pub record ArmCursor : Type 0 where
  pub ip : ℕ
  pub cfa : ℕ
  pub loc : ℕ → Loc

abbrev pub preserved_regs : ℕ
preserved_regs = 128

unfoldable pub get_loc : ArmCursor → ℕ → Result Loc
get_loc c i = if ltb i preserved_regs then ok (c.loc i) else stop out_of_bounds

-- `c->loc[i] = l`
abbrev pub update : (ℕ → Loc) → ℕ → Loc → ℕ → Loc
update loc i l j = if j == i then l else loc j

unfoldable pub set_loc : ArmCursor → ℕ → Loc → Result ArmCursor
set_loc c i l =
    if ltb i preserved_regs then ok (record c { loc = update c.loc i l }) else stop out_of_bounds

-- The fields of `unw_proc_info_t` for such a table; `unwind_info` is the address of the entry.
pub record ArmProcInfo : Type 0 where
  pub start_ip : ℕ
  pub end_ip : ℕ
  pub lsda : ℕ
  pub handler : ℕ
  pub format : Format
  pub unwind_info_size : ℕ
  pub unwind_info : ℕ

-- `access_mem`, where a failure becomes -UNW_EINVAL.
abbrev pub word_or_inval : Option ℕ → Result ℕ
word_or_inval none = err inval
word_or_inval (some v) = ok v

-- `(int32_t) (offset << 1) >> 1`
abbrev pub prel31 : ℕ → ℕ
prel31 offset = to_word32 (shift_right (signed 32 (offset * 2 % word32_mod)) 1)

unfoldable pub prel31_to_addr : ArmSpace → (addr : ℕ) → Result ℕ
prel31_to_addr space addr = do
  offset ← word_or_inval (space.access_mem addr)
  ok ((addr + prel31 offset) % word32_mod)
