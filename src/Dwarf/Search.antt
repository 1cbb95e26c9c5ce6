-- ===== src/Dwarf/Search.antt =====
-- src/dwarf/Gfind_proc_info_i.h and src/dwarf/Gfind_proc_info-lsb.c: the binary search of unwind tables.
-- The search of a table is that of a build for remote unwinding alone, whose tables are read through
-- `access_mem`.
pub mod Bisect
pub mod Lookup
pub mod Remote
pub mod Find
use libunwind.Prelude.{
  ℕ, zero, suc, ◌+◌, ◌-◌, ◌*◌, ◌/◌, ◌%◌, Bool, true, false, ltb, leb, ◌==◌, ◌&&◌, ◌||◌, not,
  if◌then◌else◌, List, [], ◌∷◌, length, get_elem?, Option, none, some,
}
use libunwind.Prelude.Bits.{word_mod}
use libunwind.Prelude.Int.{ℤ, ltb_ℤ, signed}
use libunwind.Result.{Result, ok, err, stop, noinfo, aborted, out_of_bounds, out_of_fuel, ◌>>=◌}
use libunwind.Dwarf.Read.{AddrSpace, Reader, dwarf_reads32, dwarf_reads64}
use libunwind.Dwarf.Types.{
  ProcInfo, Format, dynamic, table, remote_table, arm_exidx, ip_offset, remote_table_64,
}
use libunwind.Dwarf.Fde.{dwarf_extract_proc_info_from_fde}

-- The loop of the lookups: `above k` is whether entry `k` starts behind the address. It returns `hi`.
unfoldable pub bisect : (above : ℕ → Result Bool) → (fuel lo hi : ℕ) → Result ℕ
bisect above zero lo hi = if ltb lo hi then stop out_of_fuel else ok hi
bisect above (suc fuel) lo hi =
    let mid = (lo + hi) / 2 in
    if ltb lo hi
    then (do b ← above mid; bisect above fuel (if b then lo else mid + 1) (if b then mid else hi))
    else ok hi

-- A table has fewer than 2^64 entries, so the range is empty after 64 halvings.
abbrev pub halvings : ℕ
halvings = 64

-- `struct table_entry` and `struct table_entry64`.
pub record TableEntry : Type 0 where
  pub start_ip_offset : ℤ
  pub fde_offset : ℤ

-- `rel_ip < e->start_ip_offset`
abbrev pub starts_above : List TableEntry → ℤ → ℕ → Result Bool
starts_above entries rel_ip k = elim (get_elem? entries k) [
  | none ↦ stop out_of_bounds
  | some e ↦ ok (ltb_ℤ rel_ip e.start_ip_offset)
]

-- `lookup` and `lookup64`, which differ in the width of an entry. `if (hi <= 0) return NULL;`
unfoldable pub lookup : List TableEntry → (rel_ip : ℤ) → Result (Option TableEntry)
unfolding bisect
lookup entries rel_ip = do
  hi ← bisect (starts_above entries rel_ip) halvings 0 (length entries)
  if hi == 0 then ok none else ok (get_elem? entries (hi - 1))

unfoldable pub remote_read_entry : AddrSpace → (is_64bit : Bool) → Reader
remote_read_entry space is_64bit addr =
    if is_64bit then dwarf_reads64 space addr else dwarf_reads32 space addr

abbrev pub entry_size : Bool → ℕ
entry_size is_64bit = if is_64bit then 16 else 8

-- What `remote_lookup` stores through its pointers.
pub record Found : Type 0 where
  pub start_ip_offset : ℕ
  pub fde_offset : ℕ
  pub last_ip_offset : ℕ

abbrev pub entry_address : (base : ℕ) → Bool → (k : ℕ) → ℕ
entry_address base is_64bit k = (base + k * entry_size is_64bit) % word_mod

-- `rel_ip < start`, with both as signed numbers of 64 bits.
unfoldable pub remote_above : AddrSpace → (base rel_ip : ℕ) → Bool → ℕ → Result Bool
remote_above space base rel_ip is_64bit k = do
  (start, _) ← remote_read_entry space is_64bit (entry_address base is_64bit k)
  ok (ltb_ℤ (signed 64 rel_ip) (signed 64 start))

-- The reads behind the loop; `*last_ip_offset` is read where there is a next entry.
unfoldable pub read_found : AddrSpace → (base table_len last hi : ℕ) → Bool → Result Found
read_found space base table_len last hi is_64bit = do
  (start, addr) ← remote_read_entry space is_64bit (entry_address base is_64bit (hi - 1))
  (fde, addr) ← remote_read_entry space is_64bit addr
  if ltb hi table_len
      then (do
        (next, _) ← remote_read_entry space is_64bit addr
        ok (record { start_ip_offset = start; fde_offset = fde; last_ip_offset = next }))
      else ok (record { start_ip_offset = start; fde_offset = fde; last_ip_offset = last })

unfoldable pub remote_lookup :
    AddrSpace → (base table_size rel_ip last : ℕ) → (is_64bit : Bool) → Result (Option Found)
unfolding bisect
remote_lookup space base table_size rel_ip last is_64bit = do
  let table_len = table_size / entry_size is_64bit
  hi ← bisect (remote_above space base rel_ip is_64bit) halvings 0 table_len
  if hi == 0
      then ok none
      else (do f ← read_found space base table_len last hi is_64bit; ok (some f))

-- The fields of `unw_dyn_info_t` for a table.
pub record DynInfo : Type 0 where
  pub start_ip : ℕ
  pub end_ip : ℕ
  pub gp : ℕ
  pub format : Format
  pub segbase : ℕ
  pub table_len : ℕ
  pub table_data : ℕ

abbrev pub is_remote_table : Format → Bool
is_remote_table remote_table = true
is_remote_table remote_table_64 = true
is_remote_table ip_offset = true
is_remote_table dynamic = false
is_remote_table table = false
is_remote_table arm_exidx = false

abbrev pub is_table64 : Format → Bool
is_table64 remote_table_64 = true
is_table64 remote_table = false
is_table64 ip_offset = false
is_table64 dynamic = false
is_table64 table = false
is_table64 arm_exidx = false

abbrev pub ip_base : DynInfo → Format → ℕ
ip_base di ip_offset = di.start_ip
ip_base di remote_table = di.segbase
ip_base di remote_table_64 = di.segbase
ip_base di dynamic = di.segbase
ip_base di table = di.segbase
ip_base di arm_exidx = di.segbase

-- The entry's FDE, and whether the address lies in its function.
unfoldable pub extract_found :
    AddrSpace
    → (fuel ip segbase : ℕ) → ProcInfo
    → (need alloc : Bool) (size : ℕ) → Option Found
    → Result ProcInfo
extract_found space fuel ip segbase pi need alloc size none = err noinfo
extract_found space fuel ip segbase pi need alloc size (some f) = do
  (pi, _) ←
      dwarf_extract_proc_info_from_fde space fuel ((f.fde_offset + segbase) % word_mod) pi segbase
        need alloc false size
  if ltb ip pi.start_ip || leb pi.end_ip ip then err noinfo else ok pi

unfoldable pub dwarf_search_unwind_table :
    AddrSpace
    → (fuel ip : ℕ) → DynInfo
    → ProcInfo
    → (need alloc : Bool) (size : ℕ) → Result ProcInfo
dwarf_search_unwind_table space fuel ip di pi need alloc size =
    if is_remote_table di.format && (leb di.start_ip ip && ltb ip di.end_ip)
    then (do
      f ←
          remote_lookup space di.table_data (di.table_len * 8 % word_mod)
            ((ip + word_mod - ip_base di di.format) % word_mod)
            ((di.end_ip + word_mod - ip_base di di.format) % word_mod) (is_table64 di.format)
      extract_found space fuel ip di.segbase pi need alloc size f)
    else stop aborted
