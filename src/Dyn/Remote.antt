-- ===== src/Dyn/Remote.antt =====
-- src/mi/Gdyn-remote.c and include/remote.h: reading what another process has registered, as built for
-- 64-bit words.
pub mod Search
pub mod Found
pub mod Interned
use libunwind.Prelude.{
  ℕ, zero, suc, ◌+◌, ◌-◌, ◌*◌, ◌/◌, ◌%◌, ◌^◌, Bool, true, false, not, ltb, leb, ◌==◌, ◌&&◌,
  if◌then◌else◌, List, [], ◌∷◌, Option, none, some,
}
use libunwind.Prelude.Bits.{word_mod}
use libunwind.Result.{Result, ok, err, stop, Error, inval, nomem, noinfo, out_of_fuel, ◌>>=◌}
use libunwind.Dwarf.Types.{
  Format, dynamic, table, remote_table, arm_exidx, ip_offset, remote_table_64,
}
use libunwind.Dwarf.Read.{AddrSpace, Reader, aligned}
use libunwind.Dyn.{DynProc, DynFound, covers, extract_dynamic_proc_info}

-- `*addr += n` on `unw_word_t`.
abbrev pub advance : ℕ → ℕ → ℕ
advance addr n = (addr + n) % word_mod

-- The part of a word of `size` bytes at offset `off`.
abbrev pub part : Bool → (size off val : ℕ) → ℕ
part big size off val =
    (if big then val / 2 ^ (8 * (8 - size - off)) else val / 2 ^ (8 * off)) % 2 ^ (8 * size)

unfoldable pub fetch_part : AddrSpace → (size : ℕ) → Reader
fetch_part space size addr = do
  val ← space.access_mem (aligned addr)
  ok (part space.host_big_endian size (addr - aligned addr) val, advance addr size)

unfoldable pub fetch8 : AddrSpace → Reader
fetch8 space addr = fetch_part space 1 addr

unfoldable pub fetch16 : AddrSpace → Reader
fetch16 space addr = if addr % 2 == 0 then fetch_part space 2 addr else err inval

unfoldable pub fetch32 : AddrSpace → Reader
fetch32 space addr = if addr % 4 == 0 then fetch_part space 4 addr else err inval

unfoldable pub fetchw : AddrSpace → Reader
fetchw space addr = do val ← space.access_mem addr; ok (val, advance addr 8)

-- `unw_dyn_op_t`.
pub record DynOp : Type 0 where
  pub tag : ℕ
  pub qp : ℕ
  pub reg : ℕ
  pub when : ℕ
  pub val : ℕ

-- `unw_dyn_region_info_t`, of which a list is made.
pub record Region : Type 0 where
  pub insn_count : ℕ
  pub ops : List DynOp

unfoldable pub intern_op : AddrSpace → ℕ → Result (DynOp × ℕ)
intern_op space addr = do
  (tag, a1) ← fetch8 space addr
  (qp, a2) ← fetch8 space a1
  (reg, a3) ← fetch16 space a2
  (when, a4) ← fetch32 space a3
  (val, a5) ← fetchw space a4
  ok (record { tag = tag; qp = qp; reg = reg; when = when; val = val }, a5)

unfoldable pub intern_ops : AddrSpace → (count addr : ℕ) → Result (List DynOp)
intern_ops space zero addr = ok []
intern_ops space (suc count) addr = do
  (op, rest) ← intern_op space addr
  ops ← intern_ops space count rest
  ok (op ∷ ops)

-- `alloc` tells whether `calloc` gives memory for this many operations. The recursion goes along the
-- list in the other process's memory.
unfoldable pub intern_regions :
    AddrSpace → (alloc : ℕ → Bool) → (fuel addr : ℕ) → Result (List Region)
intern_regions space alloc zero addr = stop out_of_fuel
intern_regions space alloc (suc fuel) addr = if addr == 0 then ok [] else (do
  (next_addr, a1) ← fetchw space addr
  (insn_count, a2) ← fetch32 space a1
  (op_count, a3) ← fetch32 space a2
  if alloc op_count
      then (do
        ops ← intern_ops space op_count a3
        rest ← intern_regions space alloc fuel next_addr
        ok (record { insn_count = insn_count; ops = ops } ∷ rest))
      else err nomem)

-- The words of an array; `none` where one cannot be read.
unfoldable pub read_words : AddrSpace → (count addr : ℕ) → Result (Option (List ℕ))
read_words space zero addr = ok (some [])
read_words space (suc count) addr = elim (fetchw space addr) [
  | stop s ↦ stop s
  | err e ↦ ok none
  | ok (w, next) ↦ do
    rest ← read_words space count next
    ok (elim rest [ none ↦ none | some ws ↦ some (w ∷ ws) ])
]

-- A value means that the function returns 0; with `none` it has freed the array, and not set
-- `*table_data`.
unfoldable pub intern_array :
    AddrSpace → (alloc : ℕ → Bool) → (table_len addr : ℕ) → Result (Option (List ℕ))
intern_array space alloc table_len addr =
    if alloc table_len then read_words space table_len addr else err nomem

-- The union of `unw_dyn_info_t`: `blank` is what `calloc` makes it, and a `table_data` that is not set
-- is `none`.
pub data Info : Type 0 where
  blank : Info
  proc_info : (name_ptr handler flags : ℕ) → List Region → Info
  table_info : (name_ptr segbase table_len : ℕ) → (table_data : Option (List ℕ)) → Info
  remote_table_info : (name_ptr segbase table_len table_data : ℕ) → Info

pub record RemoteInfo : Type 0 where
  pub start_ip : ℕ
  pub end_ip : ℕ
  pub gp : ℕ
  pub format : ℕ
  pub info : Info

-- The value of the enumeration; `none` is none of its constants.
unfoldable pub format_of_number : ℕ → Option Format
format_of_number zero = some dynamic
format_of_number (suc zero) = some table
format_of_number (suc (suc zero)) = some remote_table
format_of_number (suc (suc (suc zero))) = some arm_exidx
format_of_number (suc (suc (suc (suc zero)))) = some ip_offset
format_of_number (suc (suc (suc (suc (suc zero))))) = some remote_table_64
format_of_number n = none

abbrev pub fetch_table_head : AddrSpace → ℕ → Result (ℕ × ℕ × ℕ × ℕ)
fetch_table_head space addr = do
  (name_ptr, a1) ← fetchw space addr
  (segbase, a2) ← fetchw space a1
  (table_len, a3) ← fetchw space a2
  ok (name_ptr, segbase, table_len, a3)

unfoldable pub intern_dyn_info :
    AddrSpace → (alloc : ℕ → Bool) → (fuel : ℕ) → Option Format → (addr : ℕ) → Result Info
intern_dyn_info space alloc fuel (some dynamic) addr = do
  (name_ptr, a1) ← fetchw space addr
  (handler, a2) ← fetchw space a1
  (flags, a3) ← fetch32 space a2
  (first_region, a4) ← fetchw space (advance a3 4)
  regions ← intern_regions space alloc fuel first_region
  ok (proc_info name_ptr handler flags regions)
intern_dyn_info space alloc fuel (some table) addr = do
  (name_ptr, segbase, table_len, a3) ← fetch_table_head space addr
  words ← intern_array space alloc table_len a3
  ok (table_info name_ptr segbase table_len words)
intern_dyn_info space alloc fuel (some remote_table) addr = do
  (name_ptr, segbase, table_len, a3) ← fetch_table_head space addr
  (table_data, a4) ← fetchw space a3
  ok (remote_table_info name_ptr segbase table_len table_data)
intern_dyn_info space alloc fuel format addr = err noinfo
