-- ===== src/Tests/Search.antt =====
-- Searching the table of the two functions, and a table in hand.
use libunwind.Prelude.{
  ℕ, zero, suc, ◌+◌, ◌*◌, ◌^◌, ◌-◌, ◌%◌, ◌≤◌, ◌<◌, ◌≡◌, refl, arith, true, List, [], ◌∷◌, Option,
}
use libunwind.Prelude.Bits.{word_mod}
use libunwind.Prelude.Int.{pos}
use libunwind.Result.{ok}
use libunwind.Dwarf.Read.{dwarf_readu8, dwarf_readu32, dwarf_readu16, dwarf_reads32}
use libunwind.Dwarf.Types.{Format}
use libunwind.Dwarf.Search.{
  TableEntry, lookup, DynInfo, is_table64, ip_base, remote_read_entry, dwarf_search_unwind_table,
}
use libunwind.Dwarf.Search.Lookup.{IsSortedTable, Finds, lookup-Finds}
use libunwind.Dwarf.Search.Remote.{HoldsTable}
use libunwind.Dwarf.Search.Find.{Answers, search-Answers}
use libunwind.Tests.Memory.{memory, no_info}
use libunwind.Tests.Fde.{section_bytes, functions, fde_addresses, extracted}

abbrev first : TableEntry
first = record { start_ip_offset = pos 16; fde_offset = pos 1 }

abbrev second : TableEntry
second = record { start_ip_offset = pos 48; fde_offset = pos 2 }

abbrev entries : List TableEntry
entries = first ∷ second ∷ []

entries-IsSortedTable : IsSortedTable entries
entries-IsSortedTable zero zero a b h p q =
    let is_first : a ≡ first = cc in let same : b ≡ first = cc in rw (is_first, same)
entries-IsSortedTable zero (suc zero) a b h p q =
    let is_first : a ≡ first = cc in let is_second : b ≡ second = cc in rw (is_first, is_second)
entries-IsSortedTable (suc zero) (suc zero) a b h p q =
    let is_second : a ≡ second = cc in let same : b ≡ second = cc in rw (is_second, same)
entries-IsSortedTable (suc zero) zero a b h p q = absurd (omega arith)
entries-IsSortedTable (suc (suc j)) k a b h p q = cc
entries-IsSortedTable j (suc (suc k)) a b h p q = cc

lookup-Finds_example :
    (o : Option TableEntry) × (lookup entries (pos 20) ≡ ok o) × Finds entries (pos 20) o
lookup-Finds_example = lookup-Finds entries (pos 20) entries-IsSortedTable (omega arith)

abbrev di : DynInfo
di = record {
  start_ip = 0x400;
  end_ip = 0x440;
  gp = 0;
  format = Format.remote_table;
  segbase = 0;
  table_len = 2;
  table_data = 64;
}

di-HoldsTable :
    HoldsTable
      (memory section_bytes)
      di.table_data
      (is_table64 di.format)
      2
      (λ k. ((functions k).start_ip + word_mod - ip_base di di.format) % word_mod)
      fde_addresses
unfolding remote_read_entry dwarf_reads32 dwarf_readu32 dwarf_readu16 dwarf_readu8
di-HoldsTable zero h = (68, refl, refl)
di-HoldsTable (suc zero) h = (76, refl, refl)
di-HoldsTable (suc (suc k)) h = absurd (omega arith)

functions-bounds :
    (k : ℕ)
    → k < 2
    → ((functions k).start_ip ≤ (functions k).end_ip) × ((functions k).end_ip < 2 ^ 63)
functions-bounds zero h = (omega arith, omega arith)
functions-bounds (suc k) h = (omega arith, omega arith)

functions-order : (j k : ℕ) → j < k → k < 2 → (functions j).end_ip ≤ (functions k).start_ip
functions-order zero (suc k) h less = omega arith
functions-order j zero h less = absurd (omega arith)
functions-order (suc j) (suc k) h less = absurd (omega arith)

search-Answers_example :
    Answers 0x424 2 functions
      (dwarf_search_unwind_table (memory section_bytes) 3 0x424 di no_info true true 96)
search-Answers_example =
    search-Answers (memory section_bytes) 3 0x424 di no_info true true 96 2 fde_addresses
      (λ k. 40 + 20 * k) functions extracted functions-bounds functions-order refl refl
      (omega arith) (omega arith) (omega arith) di-HoldsTable
