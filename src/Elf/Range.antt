-- ===== src/Elf/Range.antt =====
-- elfxx.c: the range of the function that contains an address.
use libunwind.Prelude.{ℕ, ◌+◌, ◌-◌, ◌%◌, ltb, leb, ◌&&◌, ◌||◌, if◌then◌else◌, List, [], ◌∷◌, Option}
use libunwind.Prelude.Bits.{word_mod}
use libunwind.Result.{Result, ok, err, noinfo, nomem, ◌>>=◌}
use libunwind.Elf.{Phdr, Sym, Image, is_load, Answer, missing, found, truncated}
use libunwind.Elf.Symbols.{lookup_symbol_closeness}

-- `*min_dist`, and what `struct ip_range_callback_data` points to.
pub record IpRange : Type 0 where
  pub min_dist : ℕ
  pub start_ip : ℕ
  pub end_ip : ℕ

unfoldable pub lookup_ip_range_callback :
    (ip strtab : ℕ) → Sym → (start_ip : ℕ) → IpRange → IpRange × Answer
lookup_ip_range_callback ip strtab sym start_ip s =
    let end_ip : ℕ = (start_ip + sym.st_size) % word_mod in
    if ltb ip start_ip || leb end_ip ip
    then (s, missing)
    else if ltb (ip - start_ip) s.min_dist
    then (record { min_dist = ip - start_ip; start_ip = start_ip; end_ip = end_ip }, found)
    else (s, missing)

unfoldable pub lookup_ip_range :
    Image
    → (load_offset : ℕ) → (func_addr : ℕ → Option ℕ) → (ip fuel : ℕ) → IpRange
    → Result (IpRange × Answer)
lookup_ip_range ei load_offset func_addr ip fuel s =
    lookup_symbol_closeness ei load_offset func_addr (lookup_ip_range_callback ip) fuel s

unfoldable pub get_load_offset : (unw_page_size segbase : ℕ) → List Phdr → ℕ
get_load_offset unw_page_size segbase [] = 0
get_load_offset unw_page_size segbase (p ∷ ps) =
    if is_load p.p_type && p.is_executable
    then (segbase + word_mod - p.p_vaddr + p.p_offset % unw_page_size) % word_mod
    else get_load_offset unw_page_size segbase ps

abbrev pub answered : IpRange → Answer → Result (ℕ × ℕ)
answered s missing = err noinfo
answered s found = ok (s.start_ip, s.end_ip)
answered s truncated = err nomem

-- As built without LZMA, so that no MiniDebugInfo is looked at.
unfoldable pub get_proc_ip_range_in_image :
    (unw_page_size : ℕ)
    → Image
    → (segbase : ℕ) → (func_addr : ℕ → Option ℕ) → (ip fuel : ℕ) → Result (ℕ × ℕ)
get_proc_ip_range_in_image unw_page_size ei segbase func_addr ip fuel = do
  (s, answer) ←
      lookup_ip_range ei (get_load_offset unw_page_size segbase ei.phdrs) func_addr ip fuel
        (record { min_dist = word_mod - 1; start_ip = 0; end_ip = 0 })
  if leb ei.size s.min_dist then err noinfo else answered s answer
