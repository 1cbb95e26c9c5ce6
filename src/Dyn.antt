-- ===== src/Dyn.antt =====
-- src/mi/dyn-register.c, dyn-cancel.c, dyn-info-list.c, Gfind_dynamic_proc_info.c and Gdyn-extract.c:
-- the list of procedures that a program registers at run time.
pub mod Linked
pub mod Unlinked
pub mod Runs
pub mod Remote
use libunwind.Prelude.{
  ℕ, zero, suc, ◌+◌, ◌%◌, ◌^◌, Bool, true, false, ltb, leb, ◌==◌, ◌&&◌, if◌then◌else◌,
}
use libunwind.Result.{Result, ok, err, stop, inval, noinfo, out_of_fuel, ◌>>=◌}
use libunwind.Dwarf.Types.{
  Format, dynamic, table, remote_table, arm_exidx, ip_offset, remote_table_64,
}

-- `unw_dyn_info_t` without its links. Of the union, what `unw_dyn_proc_info_t` holds.
pub record DynProc : Type 0 where
  pub start_ip : ℕ
  pub end_ip : ℕ
  pub gp : ℕ
  pub format : Format
  pub handler : ℕ
  pub flags : ℕ

-- A pointer is an address, and 0 is NULL.
pub record Node : Type 0 where
  pub next : ℕ
  pub prev : ℕ
  pub proc : DynProc

-- `_U_dyn_info_list`, with the memory in which the program keeps the structures it registers.
pub record DynList : Type 0 where
  pub nodes : ℕ → Node
  pub generation : ℕ
  pub first : ℕ

unfoldable pub update : (ℕ → Node) → ℕ → Node → ℕ → Node
update nodes p n q = if p == q then n else nodes q

unfoldable pub set_next : ℕ → ℕ → (ℕ → Node) → ℕ → Node
unfolding update
set_next p v nodes = update nodes p (record (nodes p) { next = v })

unfoldable pub set_prev : ℕ → ℕ → (ℕ → Node) → ℕ → Node
unfolding update
set_prev p v nodes = update nodes p (record (nodes p) { prev = v })

-- A write through a pointer that may be NULL, under its test.
unfoldable pub set_prev_if : ℕ → ℕ → (ℕ → Node) → ℕ → Node
unfolding set_prev
set_prev_if p v nodes = if p == 0 then nodes else set_prev p v nodes

abbrev pub bumped : ℕ → ℕ
bumped generation = (generation + 1) % 2 ^ 32

unfoldable pub dyn_register : ℕ → DynList → DynList
dyn_register di l =
    let linked : (ℕ → Node) = set_prev di 0 (set_next di l.first l.nodes) in
    record { nodes = set_prev_if l.first di linked; generation = bumped l.generation; first = di }

unfoldable pub dyn_cancel : ℕ → DynList → DynList
dyn_cancel di l =
    let next : ℕ = (l.nodes di).next in
    let prev : ℕ = (l.nodes di).prev in
    let skipped : (ℕ → Node) = if prev == 0 then l.nodes else set_next prev next l.nodes in
    let unlinked : (ℕ → Node) = set_prev_if next prev skipped in
    record {
      nodes = set_next di 0 (set_prev di 0 unlinked);
      generation = bumped l.generation;
      first = if prev == 0 then next else l.first;
    }

-- `unw_proc_info_t` as the dynamic search fills it; `unwind_info` is a pointer.
pub record DynFound : Type 0 where
  pub start_ip : ℕ
  pub end_ip : ℕ
  pub gp : ℕ
  pub format : Format
  pub handler : ℕ
  pub lsda : ℕ
  pub flags : ℕ
  pub unwind_info_size : ℕ
  pub unwind_info : ℕ

abbrev pub covers : DynProc → ℕ → Bool
covers p ip = leb p.start_ip ip && ltb ip p.end_ip

-- UNW_INFO_FORMAT_DYNAMIC.
unfoldable pub extract_dynamic : (di : ℕ) → DynProc → (need_unwind_info : Bool) → DynFound
extract_dynamic di p need_unwind_info = record {
  start_ip = p.start_ip;
  end_ip = p.end_ip;
  gp = p.gp;
  format = p.format;
  handler = p.handler;
  lsda = 0;
  flags = p.flags;
  unwind_info_size = 0;
  unwind_info = if need_unwind_info then di else 0;
}

-- `search` stands for `tdep_search_unwind_table`, with what it writes to `*pi`.
module _
    (search : (di : ℕ) → DynProc → (ip : ℕ) → (need_unwind_info : Bool) → Result DynFound) where
  unfoldable pub extract_by_format :
      Format → (ip di : ℕ) → DynProc → (need_unwind_info : Bool) → Result DynFound
  extract_by_format dynamic ip di p need = ok (extract_dynamic di p need)
  extract_by_format table ip di p need = search di p ip need
  extract_by_format remote_table ip di p need = search di p ip need
  extract_by_format arm_exidx ip di p need = search di p ip need
  extract_by_format ip_offset ip di p need = search di p ip need
  extract_by_format remote_table_64 ip di p need = err inval

  unfoldable pub extract_dynamic_proc_info :
      (ip di : ℕ) → DynProc → (need_unwind_info : Bool) → Result DynFound
  extract_dynamic_proc_info ip di p need = extract_by_format p.format ip di p need

  -- The loop of `local_find_proc_info`.
  unfoldable pub find_from :
      (ℕ → Node) → (ip : ℕ) → (need_unwind_info : Bool) → (fuel di : ℕ) → Result DynFound
  find_from nodes ip need zero di = stop out_of_fuel
  find_from nodes ip need (suc fuel) di =
      let rest = find_from nodes ip need fuel (nodes di).next in
      if di == 0
      then err noinfo
      else if covers (nodes di).proc ip
      then extract_dynamic_proc_info ip di (nodes di).proc need
      else rest

  unfoldable pub local_find_proc_info :
      DynList → (ip : ℕ) → (need_unwind_info : Bool) → (fuel : ℕ) → Result DynFound
  local_find_proc_info l ip need fuel = find_from l.nodes ip need fuel l.first
