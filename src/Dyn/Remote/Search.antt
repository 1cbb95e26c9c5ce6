-- ===== src/Dyn/Remote/Search.antt =====
-- src/mi/Gdyn-remote.c: the search of the list of registered procedures of another process.
use libunwind.Prelude.{
  ℕ, zero, suc, ◌+◌, ◌%◌, ◌^◌, Bool, true, false, ltb, leb, ◌==◌, ◌&&◌, if◌then◌else◌, Option, none,
  some,
}
use libunwind.Result.{Result, ok, err, stop, inval, noinfo, out_of_fuel, ◌>>=◌}
use libunwind.Dwarf.Types.{Format}
use libunwind.Dwarf.Read.{AddrSpace}
use libunwind.Dyn.{DynFound, extract_dynamic_proc_info}
use libunwind.Dyn.Remote.{
  advance, fetch32, fetchw, Info, RemoteInfo, format_of_number, intern_dyn_info, blank, proc_info,
}

-- The union read as `unw_dyn_proc_info_t`.
abbrev pub handler_of : Info → ℕ
handler_of (proc_info name_ptr handler flags regions) = handler
handler_of u = 0

abbrev pub flags_of : Info → ℕ
flags_of (proc_info name_ptr handler flags regions) = flags
flags_of u = 0

-- `goto recheck`: an error ends the walk with nothing found.
unfoldable pub attempt {ℓ} : {A : Type ℓ} → Result A → Result (Option A)
attempt (ok a) = ok (some a)
attempt (err e) = ok none
attempt (stop s) = stop s

pub record Entry : Type 0 where
  pub next_addr : ℕ
  pub start_ip : ℕ
  pub end_ip : ℕ
  pub rest : ℕ

unfoldable pub read_entry : AddrSpace → ℕ → Result Entry
read_entry space addr = do
  (next_addr, a1) ← fetchw space addr
  (start_ip, a2) ← fetchw space (advance a1 8)
  (end_ip, a3) ← fetchw space a2
  ok (record { next_addr = next_addr; start_ip = start_ip; end_ip = end_ip; rest = a3 })

-- The generation and the first structure of the list.
unfoldable pub read_head : AddrSpace → ℕ → Result (ℕ × ℕ)
read_head space list_addr = do
  (gen, a1) ← fetchw space list_addr
  (first, a2) ← fetchw space a1
  ok (gen, first)

-- The fields of an address space that the search reads and writes; `caching` is false for
-- UNW_CACHE_NONE.
pub record RemoteSpace : Type 0 where
  pub dyn_info_list_addr : ℕ
  pub caching : Bool
  pub dyn_generation : ℕ
  pub cache_generation : ℕ

-- `search` stands for `tdep_search_unwind_table`, `di` is the address of the copy.
module _ (search : RemoteInfo → (ip : ℕ) → (need_unwind_info : Bool) → Result DynFound)
    (alloc : ℕ → Bool) (di ip : ℕ) (need_unwind_info : Bool) (fuel : ℕ) where
  unfoldable pub extract_remote : RemoteInfo → Option Format → Result DynFound
  extract_remote r none = err inval
  extract_remote r (some format) =
      extract_dynamic_proc_info (λ q proc at need. search r at need) ip di
        (record {
          start_ip = r.start_ip;
          end_ip = r.end_ip;
          gp = r.gp;
          format = format;
          handler = handler_of r.info;
          flags = flags_of r.info;
        })
        need_unwind_info

  unfoldable pub read_match : AddrSpace → Entry → Result DynFound
  read_match space e = do
    (gp, a1) ← fetchw space e.rest
    (format, a2) ← fetch32 space a1
    info ←
        (if need_unwind_info
          then intern_dyn_info space alloc fuel (format_of_number format) (advance a2 4)
          else ok blank)
    extract_remote
        (record { start_ip = e.start_ip; end_ip = e.end_ip; gp = gp; format = format; info = info })
        (format_of_number format)

  abbrev pub is_in : Entry → Bool
  is_in e = leb e.start_ip ip && ltb ip e.end_ip

  -- The `for` loop over the list.
  unfoldable pub walk_list : AddrSpace → (rounds addr : ℕ) → Result (Option DynFound)
  walk_list space zero addr = stop out_of_fuel
  walk_list space (suc rounds) addr = if addr == 0 then ok none else (do
    entry ← attempt (read_entry space addr)
    elim entry [
      | none ↦ ok none
      | some e ↦ elim (is_in e) [
        | true ↦ attempt (read_match space e)
        | false ↦ walk_list space rounds e.next_addr
      ]
    ])

  abbrev pub outcome : Option DynFound → Result DynFound
  outcome none = err noinfo
  outcome (some f) = ok f

  -- The loop that starts again where the list has changed: its round `k` reads the memory `at k`, and
  -- checks the generation in the memory `at (k + 1)`.
  unfoldable pub search_again :
      (at : ℕ → AddrSpace) → (list_addr rounds : ℕ) → (tries k : ℕ) → Result DynFound
  search_again at list_addr rounds zero k = stop out_of_fuel
  search_again at list_addr rounds (suc tries) k =
      let again = search_again at list_addr rounds tries (k + 1) in
      (do
        head ← attempt (read_head (at k) list_addr)
        elim head [
          | none ↦ err noinfo
          | some (gen1, first) ↦ do
            found ← walk_list (at k) rounds first
            check ← attempt (fetchw (at (k + 1)) list_addr)
            elim check [
              | none ↦ outcome found
              | some (gen2, a3) ↦ if gen1 == gen2 then outcome found else again
            ]
        ])

  -- `get_dyn_info_list_addr` is the callback of `unw_accessors_t`.
  unfoldable pub dyn_remote_find_proc_info :
      (get_dyn_info_list_addr : Result ℕ)
      → (at : ℕ → AddrSpace) → (rounds tries : ℕ) → RemoteSpace
      → RemoteSpace × Result DynFound
  dyn_remote_find_proc_info get_dyn_info_list_addr at rounds tries space =
      if space.dyn_info_list_addr == 0
      then elim get_dyn_info_list_addr [
        | stop s ↦ (space, stop s)
        | err e ↦ (space, err noinfo)
        | ok list_addr ↦ (
          (if space.caching then record space { dyn_info_list_addr = list_addr } else space),
          search_again at list_addr rounds tries 0,
        )
      ]
      else (space, search_again at space.dyn_info_list_addr rounds tries 0)

-- `unw_flush_cache` (src/mi/flush_cache.c), but for the list of .debug_frame sections that it frees.
unfoldable pub flush_cache : RemoteSpace → RemoteSpace
flush_cache space = record space {
  dyn_info_list_addr = 0;
  cache_generation = (space.cache_generation + 1) % 2 ^ 32;
}

-- What `unwi_dyn_validate_cache` returns: 0, 1 and -1.
pub data Validity : Type 0 where
  nothing up_to_date flushed : Validity

unfoldable pub dyn_validate_cache : AddrSpace → RemoteSpace → Result (RemoteSpace × Validity)
dyn_validate_cache memory space = if space.dyn_info_list_addr == 0 then ok (space, nothing) else (do
  read ← attempt (fetchw memory space.dyn_info_list_addr)
  elim read [
    | none ↦ ok (space, up_to_date)
    | some (gen, a) ↦
        if gen == space.dyn_generation
        then ok (space, up_to_date)
        else ok (record (flush_cache space) { dyn_generation = gen }, flushed)
  ])
