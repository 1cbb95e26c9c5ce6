-- ===== src/Elf/Symbols.antt =====
-- elfxx.c: the search of the symbols of an ELF image, in its sections and in its dynamic section.
use libunwind.Prelude.{
  ℕ, zero, suc, ◌+◌, ◌-◌, ◌%◌, not, ltb, ◌==◌, ◌&&◌, ◌||◌, if◌then◌else◌, List, [], ◌∷◌, Option,
  none, some,
}
use libunwind.Prelude.Bits.{word_mod}
use libunwind.Result.{Result, ok, err, stop, out_of_fuel, ◌>>=◌}
use libunwind.Elf.{
  SectionType, DynTag, Shdr, Phdr, Sym, Image, sym_size, dyn_size, valid_object, section_table,
  within, shdr_size, string_table, dynamic_va_to_file_offset, dynamic_symtab_count, Answer,
  is_missing, is_defined, loaded, DynTables, no_tables, is_end, symtab, dynsym, other_section, load,
  dynamic, program_headers, other_segment, tag_null, tag_symtab, tag_strtab, tag_hash, tag_gnu_hash,
  other_tag, missing,
}

module _ (ei : Image) where
  -- The dynamic section of the image, and how far addresses in it lie behind offsets.
  unfoldable pub dynamic_segment : (file_offset : ℕ) → List Phdr → ℕ × Option ℕ
  dynamic_segment file_offset [] = (file_offset, none)
  dynamic_segment file_offset (p ∷ ps) = elim p.p_type [
    | program_headers ↦ dynamic_segment ((p.p_vaddr + word_mod - p.p_offset) % word_mod) ps
    | dynamic ↦
        (file_offset, if (p.p_filesz == 0) || ltb ei.size p.p_offset then none else some p.p_offset)
    | load ↦ dynamic_segment file_offset ps
    | other_segment ↦ dynamic_segment file_offset ps
  ]

  unfoldable pub note_tag : (file_offset : ℕ) → DynTag → (ptr : ℕ) → DynTables → DynTables
  note_tag file_offset tag_symtab ptr t = record t {
    sym_table = some ((ptr + word_mod - file_offset) % word_mod);
  }
  note_tag file_offset tag_strtab ptr t = record t {
    str_table = some ((ptr + word_mod - file_offset) % word_mod);
  }
  note_tag file_offset tag_hash ptr t = record t {
    hash = some ((ptr + word_mod - file_offset) % word_mod);
  }
  note_tag file_offset tag_gnu_hash ptr t = record t {
    gnu_hash = some (dynamic_va_to_file_offset ptr ei.phdrs);
  }
  note_tag file_offset tag_null ptr t = t
  note_tag file_offset other_tag ptr t = t

  unfoldable pub read_tags : (file_offset fuel dyn : ℕ) → DynTables → Result DynTables
  read_tags file_offset zero dyn t = stop out_of_fuel
  read_tags file_offset (suc fuel) dyn t =
      let d = ei.dyn_at dyn in
      let rest = read_tags file_offset fuel (dyn + dyn_size) (note_tag file_offset d.0 d.1 t) in
      within ei dyn dyn_size (if is_end d.0 then ok t else rest)

-- `func_addr` stands for `tdep_get_func_addr`, `callback` is the function that is tried on each function
-- symbol, with its start and the offset of the string table, over a state that it changes.
module _ {S : Type 0} (ei : Image) (load_offset : ℕ) (func_addr : ℕ → Option ℕ)
    (callback : (strtab : ℕ) → Sym → (start_ip : ℕ) → S → S × Answer) where
  unfoldable pub try_symbol : (strtab : ℕ) → Sym → S → S × Answer
  try_symbol strtab sym s =
      if sym.is_func && is_defined sym.st_shndx
      then elim (func_addr (loaded sym.st_shndx sym.st_value load_offset)) [
        | none ↦ (s, missing)
        | some val ↦ callback strtab sym val s
      ]
      else (s, missing)

  -- The loop over the symbols of a section.
  unfoldable pub search_symbols :
      (strtab syment_size symtab_end : ℕ) → (fuel sym : ℕ) → S → Result (S × Answer)
  search_symbols strtab syment_size symtab_end zero sym s = stop out_of_fuel
  search_symbols strtab syment_size symtab_end (suc fuel) sym s =
      if ltb sym symtab_end
      then (let r = try_symbol strtab (ei.sym_at sym) s in
          let rest = search_symbols strtab syment_size symtab_end fuel (sym + syment_size) r.0 in
          within ei sym sym_size (if is_missing r.1 then rest else ok r))
      else ok (s, missing)

  unfoldable pub search_section : (fuel : ℕ) → Shdr → S → Result (S × Answer)
  search_section fuel shdr s = do
    table ← string_table ei shdr.sh_link
    elim table [
      | none ↦ ok (s, missing)
      | some strtab ↦
          search_symbols strtab shdr.sh_entsize (shdr.sh_offset + shdr.sh_size) fuel shdr.sh_offset
            s
    ]

  unfoldable pub section_by_type : SectionType → (fuel : ℕ) → Shdr → S → Result (S × Answer)
  section_by_type symtab fuel shdr s = search_section fuel shdr s
  section_by_type dynsym fuel shdr s = search_section fuel shdr s
  section_by_type other_section fuel shdr s = ok (s, missing)

  unfoldable pub search_sections : (fuel count offset : ℕ) → S → Result (S × Answer)
  search_sections fuel zero offset s = ok (s, missing)
  search_sections fuel (suc count) offset s = within ei offset shdr_size (do
    r ← section_by_type (ei.shdr_at offset).sh_type fuel (ei.shdr_at offset) s
    if is_missing r.1 then search_sections fuel count (offset + ei.e_shentsize) r.0 else ok r)

  -- The loop over the dynamic symbols.
  unfoldable pub search_dynamic : (strtab : ℕ) → (count sym : ℕ) → S → Result (S × Answer)
  search_dynamic strtab zero sym s = ok (s, missing)
  search_dynamic strtab (suc count) sym s =
      let r = try_symbol strtab (ei.sym_at sym) s in
      let rest = search_dynamic strtab count (sym + sym_size) r.0 in
      within ei sym sym_size (if is_missing r.1 then rest else ok r)

  -- Where a table is missing or the symbols cannot be counted: -UNW_ENOINFO.
  unfoldable pub search_tables : (fuel : ℕ) → DynTables → S → Result (S × Answer)
  search_tables fuel t s = elim t.sym_table [
    | none ↦ ok (s, missing)
    | some sym ↦ elim t.str_table [
      | none ↦ ok (s, missing)
      | some strtab ↦ elim (dynamic_symtab_count ei fuel t.hash t.gnu_hash) [
        | ok sym_num ↦ search_dynamic strtab sym_num sym s
        | err e ↦ ok (s, missing)
        | stop q ↦ stop q
      ]
    ]
  ]

  unfoldable pub lookup_symbol_from_dynamic : (fuel : ℕ) → S → Result (S × Answer)
  lookup_symbol_from_dynamic fuel s =
      let (file_offset, segment) = dynamic_segment ei 0 ei.phdrs in
      elim segment [
        | none ↦ ok (s, missing)
        | some dyn ↦ do t ← read_tags ei file_offset fuel dyn no_tables; search_tables fuel t s
      ]

  unfoldable pub lookup_symbol_closeness : (fuel : ℕ) → S → Result (S × Answer)
  lookup_symbol_closeness fuel s = if not (valid_object ei) then ok (s, missing) else (do
    table ← section_table ei
    elim table [
      | none ↦ ok (s, missing)
      | some soff ↦ do
        r ← search_sections fuel ei.e_shnum soff s
        if is_missing r.1 then lookup_symbol_from_dynamic fuel r.0 else ok r
    ])
