-- ===== src/Tests/Dyn.antt =====
-- Two procedures that are registered in this process, and one in another process's memory.
use libunwind.Prelude.{
  ℕ, ◌+◌, ◌*◌, ◌≡◌, refl, arith, Bool, true, false, ◌==◌, if◌then◌else◌, List, [], ◌∷◌, none, some,
}
use libunwind.Result.{Result, ok, err, inval, noinfo}
use libunwind.Dwarf.Types.{dynamic, table}
use libunwind.Dwarf.Read.{AddrSpace}
use libunwind.Dyn.{
  DynProc, DynList, DynFound, update, set_next, set_prev, set_prev_if, dyn_register, dyn_cancel,
  extract_dynamic, extract_by_format, extract_dynamic_proc_info, find_from, local_find_proc_info,
}
use libunwind.Dyn.Linked.{Registered}
use libunwind.Dyn.Runs.{Op, register, cancel, run, run_list, find_in, run-finds}
use libunwind.Dyn.Remote.{
  fetch_part, fetch8, fetch16, fetch32, fetchw, intern_op, intern_ops, intern_regions, table_info,
  intern_dyn_info, RemoteInfo,
}
use libunwind.Dyn.Remote.Search.{search_again, dyn_validate_cache, flush_cache, flushed, attempt}
use libunwind.Dyn.Remote.Found.{Proc, IsAt, first_covering, described, search_again-first_covering}
use libunwind.Dyn.Remote.Interned.{intern_dyn_info-unreadable}

abbrev proc : ℕ → DynProc
proc n = record {
  start_ip = 0x1000 * n;
  end_ip = 0x1000 * n + 0x10;
  gp = 0;
  format = dynamic;
  handler = n;
  flags = 0;
}

-- The structure at address `n` is for the addresses from 0x1000 * n on.
abbrev none_registered : DynList
none_registered = record {
  nodes = λ n. record { next = 0; prev = 0; proc = proc n };
  generation = 0;
  first = 0;
}

abbrev search : ℕ → DynProc → ℕ → Bool → Result DynFound
search di p ip need = err noinfo

abbrev ops : List Op
ops = register 1 ∷ register 2 ∷ register 3 ∷ cancel 2 ∷ []

found :
    local_find_proc_info search (run ops none_registered) 0x1008 true 4
    ≡ ok (extract_dynamic 1 (proc 1) true)
unfolding run local_find_proc_info find_from dyn_register dyn_cancel update set_next set_prev
    set_prev_if extract_dynamic_proc_info extract_by_format
found = refl

cancelled : local_find_proc_info search (run ops none_registered) 0x2008 true 4 ≡ err noinfo
unfolding run local_find_proc_info find_from dyn_register dyn_cancel update set_next set_prev
    set_prev_if extract_dynamic_proc_info extract_by_format
cancelled = refl

run-finds_example :
    Registered (run ops none_registered) (3 ∷ 1 ∷ [])
    × (local_find_proc_info search (run ops none_registered) 0x1008 true 3
        ≡ find_in search proc 0x1008 true (3 ∷ 1 ∷ []))
unfolding run_list
run-finds_example =
    run-finds search ops none_registered [] 0x1008 3 true refl
      (ground arith, refl, (ground arith, refl, (ground arith, refl, (refl, tt)))) (omega arith)

abbrev word_at : List (ℕ × ℕ) → ℕ → Result ℕ
word_at [] a = err inval
word_at ((b, w) ∷ ws) a = if a == b then ok w else word_at ws a

-- The list's head at 0x100, and a structure at 0x200.
abbrev words : List (ℕ × ℕ)
words =
    (0x100, 7)
    ∷ (0x108, 0x200)
    ∷ (0x200, 0)
    ∷ (0x210, 0x5000)
    ∷ (0x218, 0x5010)
    ∷ (0x220, 9)
    ∷ (0x228, 0)
    ∷ (0x230, 0)
    ∷ (0x238, 0x77)
    ∷ (0x240, 3)
    ∷ (0x248, 0)
    ∷ []

abbrev other : AddrSpace
other = record {
  access_mem = word_at words;
  host_big_endian = false;
  big_endian = false;
  addr_size = 8;
}

abbrev remote : Proc
remote = record {
  addr = 0x200;
  prev = 0;
  start_ip = 0x5000;
  end_ip = 0x5010;
  gp = 9;
  format_word = 0;
  name_ptr = 0;
  handler = 0x77;
  flags_word = 3;
}

remote-IsAt : IsAt other remote 0
remote-IsAt = record {
  little_endian = refl;
  valid = ground arith;
  at_word = refl;
  fits = omega arith;
  next_word = refl;
  start_word = refl;
  end_word = refl;
  gp_word = refl;
  format_here = refl;
  format_is = refl;
  name_word = refl;
  handler_word = refl;
  flags_here = refl;
  region_word = refl;
}

abbrev remote_search : RemoteInfo → ℕ → Bool → Result DynFound
remote_search r ip need = err noinfo

search_again-first_covering_example :
    search_again remote_search (λ n. true) 0x900 0x5008 true 1 (λ k. other) 0x100 2 1 0
    ≡ ok (described 0x900 true remote)
unfolding first_covering
search_again-first_covering_example =
    search_again-first_covering remote_search (λ n. true) 0x900 0x5008 true 0 other 0x100 7 0x200 2
      0 (remote ∷ []) refl refl (omega arith) (refl, (0, remote-IsAt, refl)) (omega arith)

-- A table of two words at 0x28, of which the second cannot be read.
abbrev table_words : List (ℕ × ℕ)
table_words = (0x10, 0) ∷ (0x18, 0x4000) ∷ (0x20, 2) ∷ (0x28, 0xabc) ∷ []

intern_dyn_info-unreadable_example :
    intern_dyn_info
      (record other { access_mem = word_at table_words })
      (λ n. true)
      1
      (some table)
      0x10
    ≡ ok (table_info 0 0x4000 2 none)
intern_dyn_info-unreadable_example =
    intern_dyn_info-unreadable (record other { access_mem = word_at table_words }) (λ n. true) 1
      0x10 0 0x4000 2 (0xabc ∷ []) inval (omega arith) refl
      (refl, omega arith, (refl, omega arith, (refl, omega arith, (refl, omega arith, tt)))) refl

-- A region of one operation: tag 1, predicate 2, register 0x300, at 4, with the value 5.
abbrev region_words : List (ℕ × ℕ)
region_words = (0x10, 0) ∷ (0x18, 0x100000008) ∷ (0x20, 0x403000201) ∷ (0x28, 5) ∷ []

regions :
    intern_regions (record other { access_mem = word_at region_words }) (λ n. true) 2 0x10
    ≡ ok (
        record {
          insn_count = 8;
          ops = record { tag = 1; qp = 2; reg = 0x300; when = 4; val = 5 } ∷ [];
        }
        ∷ [])
unfolding intern_regions intern_ops intern_op fetch8 fetch16 fetch32 fetch_part fetchw
regions = refl

-- The generation has changed: the cache is flushed, and the list's address forgotten.
stale :
    dyn_validate_cache other (record {
      dyn_info_list_addr = 0x100;
      caching = true;
      dyn_generation = 6;
      cache_generation = 4;
    })
    ≡ ok (
      record { dyn_info_list_addr = 0; caching = true; dyn_generation = 7; cache_generation = 5 },
      flushed,
    )
unfolding dyn_validate_cache attempt fetchw flush_cache
stale = refl
