-- ===== src/Tests/Elf.antt =====
-- An image with a symbol table of two functions, and one with dynamic symbols alone.
use libunwind.Prelude.{
  ℕ, zero, suc, ◌+◌, ◌-◌, ◌*◌, ◌≤◌, ◌<◌, ◌≡◌, refl, arith, true, false, ◌==◌, if◌then◌else◌, [],
  ◌∷◌, get_or, Option, some,
}
use libunwind.Prelude.Bits.{word_mod}
use libunwind.Result.{ok, err, noinfo, Gives}
use libunwind.Elf.{
  symtab, other_section, load, dynamic, tag_null, tag_symtab, tag_strtab, tag_hash, DynTag,
  in_section, Shdr, Phdr, Sym, Image, section_table, int_product, valid_object, string_table,
  dynamic_symtab_count, Answer, is_missing,
}
use libunwind.Elf.Symbols.{
  try_symbol, search_symbols, search_section, section_by_type, search_sections, search_dynamic,
  dynamic_segment, note_tag, read_tags, search_tables, lookup_symbol_from_dynamic,
  lookup_symbol_closeness,
}
use libunwind.Elf.Range.{
  lookup_ip_range_callback, lookup_ip_range, get_load_offset, get_proc_ip_range_in_image, IpRange,
}
use libunwind.Elf.Covering.{IsFunction, get_proc_ip_range-Covers}
use libunwind.Elf.Missed.{IsReadable, SectionMisses, search_sections-SectionMisses}

abbrev function : (value size : ℕ) → Sym
function value size = record {
  is_func = true;
  st_shndx = in_section;
  st_value = value;
  st_size = size;
  st_name = 0;
}

-- Symbols at 0x200 and 0x218; the first is at 0x1000, the second at 0x1040.
abbrev symbol : ℕ → Sym
symbol off = if off == 0x200 then function 0x1000 0x40 else function 0x1040 0x20

abbrev section : ℕ → Shdr
section off =
    if off == 0x400
    then record {
      sh_type = other_section;
      sh_offset = 0x300;
      sh_size = 0x10;
      sh_entsize = 0;
      sh_link = 0;
    }
    else record { sh_type = symtab; sh_offset = 0x200; sh_size = 48; sh_entsize = 24; sh_link = 0 }

abbrev text : Phdr
text = record {
  p_type = load;
  is_executable = true;
  p_vaddr = 0x1000;
  p_offset = 0x1000;
  p_filesz = 0x100;
}

-- Two section headers at 0x400: the strings and the symbols.
abbrev image : Image
image = record {
  size = 0x2000;
  byte_at = λ off. get_or (0x7f ∷ b'E' ∷ b'L' ∷ b'F' ∷ 2 ∷ 1 ∷ 1 ∷ []) off 0;
  e_shoff = 0x400;
  e_shnum = 2;
  e_shentsize = 64;
  phdrs = text ∷ [];
  shdr_at = section;
  sym_at = symbol;
  dyn_at = λ off. (tag_null, 0);
  word_at = λ off. 0;
}

abbrev func_addr : ℕ → Option ℕ
func_addr val = some val

-- The image's code is loaded at 0x7000.
second : get_proc_ip_range_in_image 4096 image 0x7000 func_addr 0x7050 3 ≡ ok (0x7040, 0x7060)
unfolding get_proc_ip_range_in_image get_load_offset lookup_ip_range lookup_symbol_closeness
    valid_object section_table int_product search_sections section_by_type search_section
    string_table search_symbols try_symbol lookup_ip_range_callback
second = refl

outside : get_proc_ip_range_in_image 4096 image 0x7000 func_addr 0x7060 3 ≡ err noinfo
unfolding get_proc_ip_range_in_image get_load_offset lookup_ip_range lookup_symbol_closeness
    valid_object section_table int_product search_sections section_by_type search_section
    string_table search_symbols try_symbol lookup_ip_range_callback lookup_symbol_from_dynamic
    dynamic_segment
outside = refl

-- With no sections, two tables named by the dynamic section at 0x600, and a hash table at 0x700.
abbrev tag : ℕ → DynTag × ℕ
tag off =
    if off == 0x600
    then (tag_symtab, 0x200)
    else if off == 0x610
    then (tag_strtab, 0x300)
    else if off == 0x620
    then (tag_hash, 0x700)
    else (tag_null, 0)

abbrev stripped : Image
stripped = record image {
  e_shnum = 0;
  phdrs =
      text
      ∷ record {
        p_type = dynamic;
        is_executable = false;
        p_vaddr = 0x600;
        p_offset = 0x600;
        p_filesz = 0x40;
      }
      ∷ [];
  dyn_at = tag;
  word_at = λ off. if off == 0x704 then 2 else 0;
}

by_dynamic :
    get_proc_ip_range_in_image 4096 stripped 0x7000 func_addr 0x7010 5 ≡ ok (0x7000, 0x7040)
unfolding get_proc_ip_range_in_image get_load_offset lookup_ip_range lookup_symbol_closeness
    valid_object section_table int_product search_sections lookup_symbol_from_dynamic
    dynamic_segment read_tags note_tag search_tables dynamic_symtab_count search_dynamic try_symbol
    lookup_ip_range_callback
by_dynamic = refl

get_proc_ip_range-Covers_example :
    Gives
      (λ (r : ℕ × ℕ).
        (r.0 ≤ 0x7050)
        × (0x7050 < r.1)
        × (0x7050 - r.0 < 0x2000)
        × ((off : ℕ) × IsFunction image
              (get_load_offset 4096 0x7000 (text ∷ []))
              func_addr
              off
              r.0
              r.1))
      (get_proc_ip_range_in_image 4096 image 0x7000 func_addr 0x7050 3)
get_proc_ip_range-Covers_example = get_proc_ip_range-Covers 4096 image 0x7000 func_addr 0x7050 3

abbrev unset : IpRange
unset = record { min_dist = word_mod - 1; start_ip = 0; end_ip = 0 }

strings : string_table image 0 ≡ ok (some 0x300)
unfolding string_table int_product
strings = refl

sections-IsReadable :
    (i : ℕ)
    → i < 2
    → (0x400 + i * 64 + 64 ≤ 0x2000) × IsReadable image 49 (section (0x400 + i * 64))
sections-IsReadable zero below = (omega arith, λ symbols. cc)
sections-IsReadable (suc zero) below = (
  omega arith,
  λ symbols. (omega arith, omega arith, λ k inside. omega arith, (some 0x300, strings)),
)
sections-IsReadable (suc (suc i)) below = absurd (omega arith)

search_sections-SectionMisses_example :
    (r : IpRange × Answer) × (search_sections image 0x7000 func_addr
        (lookup_ip_range_callback 0x50)
        49
        2
        0x400
        unset
      ≡ ok r)
    × (is_missing r.1 ≡ true
        → (r.0 ≡ unset)
          × ((i : ℕ)
              → i < 2
              → SectionMisses image 0x7000 func_addr 0x50 (section (0x400 + i * 64))))
search_sections-SectionMisses_example =
    search_sections-SectionMisses image 0x7000 func_addr 0x50 unset 48 2 0x400 refl
      sections-IsReadable
