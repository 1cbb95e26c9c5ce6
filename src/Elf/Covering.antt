-- ===== src/Elf/Covering.antt =====
-- The range that the search answers with.
use libunwind.Prelude.{
  ℕ, zero, suc, ◌+◌, ◌-◌, ◌%◌, ◌≤◌, ◌<◌, ◌≡◌, refl, arith, true, false, not, ltb, leb, ◌&&◌, ◌||◌,
  Bool-cases, inl, inr, if◌then◌else◌, Option, none, some,
}
use libunwind.Prelude.Bits.{word_mod}
use libunwind.Result.{Result, ok, err, stop, ◌>>=◌, Gives, Gives-bind, Gives-bind_any, Gives-if}
use libunwind.Elf.{
  Image, Sym, Shdr, SectionType, symtab, dynsym, other_section, Answer, missing, found, truncated,
  is_missing, is_defined, sym_size, shdr_size, loaded, section_table, valid_object, string_table,
  DynTables, dynamic_symtab_count, no_tables,
}
use libunwind.Elf.Symbols.{
  try_symbol, search_symbols, search_section, section_by_type, search_sections, search_dynamic,
  dynamic_segment, read_tags, search_tables, lookup_symbol_from_dynamic, lookup_symbol_closeness,
}
use libunwind.Elf.Range.{
  IpRange, lookup_ip_range_callback, lookup_ip_range, get_load_offset, answered,
  get_proc_ip_range_in_image,
}

Gives-option {ℓ κ μ} :
    {A : Type ℓ} {B : Type κ} (Q : B → Type μ) (o : Option A) (m : Result B) (k : A → Result B)
    → Gives Q m
    → ((a : A) → Gives Q (k a))
    → Gives Q (elim o [ none ↦ m | some a ↦ k a ])
Gives-option Q none m k h f = h
Gives-option Q (some a) m k h f = f a

-- What holds of every symbol that is tried, and where nothing is found, holds of the whole search.
module _ {S : Type 0} (ei : Image) (load_offset : ℕ) (func_addr : ℕ → Option ℕ)
    (callback : (strtab : ℕ) → Sym → (start_ip : ℕ) → S → S × Answer) (Q : (S × Answer) → Type 0)
    (at_missing : (s : S) → Q (s, missing))
    (at_symbol : (strtab off : ℕ) (s : S)
      → Q (try_symbol ei load_offset func_addr callback strtab (ei.sym_at off) s)) where
  search_symbols-all :
      (strtab size end fuel off : ℕ) (s : S)
      → Gives Q (search_symbols ei load_offset func_addr callback strtab size end fuel off s)
  unfolding search_symbols
  search_symbols-all strtab size end zero off s = tt
  search_symbols-all strtab size end (suc fuel) off s =
      Gives-if Q (ltb off end) _ _
        (λ _.
          Gives-if Q (ltb ei.size (off + sym_size)) _ _ (λ _. tt)
            (λ _.
              Gives-if Q
                (is_missing
                  (try_symbol ei load_offset func_addr callback strtab (ei.sym_at off) s).1)
                _ _ (λ _. search_symbols-all strtab size end fuel (off + size) _)
                (λ _. at_symbol strtab off s)))
        (λ _. at_missing s)

  search_section-all :
      (fuel : ℕ) (shdr : Shdr) (s : S)
      → Gives Q (search_section ei load_offset func_addr callback fuel shdr s)
  unfolding search_section
  search_section-all fuel shdr s = Gives-bind_any Q (string_table ei shdr.sh_link) _ (λ table.
      Gives-option Q table (ok (s, missing))
        (λ strtab.
          search_symbols ei load_offset func_addr callback strtab shdr.sh_entsize
            (shdr.sh_offset + shdr.sh_size) fuel shdr.sh_offset s)
        (at_missing s) (λ strtab. search_symbols-all strtab _ _ fuel shdr.sh_offset s))

  section_by_type-all :
      (t : SectionType) (fuel : ℕ) (shdr : Shdr) (s : S)
      → Gives Q (section_by_type ei load_offset func_addr callback t fuel shdr s)
  unfolding section_by_type
  section_by_type-all symtab fuel shdr s = search_section-all fuel shdr s
  section_by_type-all dynsym fuel shdr s = search_section-all fuel shdr s
  section_by_type-all other_section fuel shdr s = at_missing s

  search_sections-all :
      (fuel count offset : ℕ) (s : S)
      → Gives Q (search_sections ei load_offset func_addr callback fuel count offset s)
  unfolding search_sections
  search_sections-all fuel zero offset s = at_missing s
  search_sections-all fuel (suc count) offset s =
      Gives-if Q (ltb ei.size (offset + shdr_size)) _ _ (λ _. tt)
        (λ _.
          Gives-bind Q Q
            (section_by_type ei load_offset func_addr callback (ei.shdr_at offset).sh_type fuel
              (ei.shdr_at offset) s)
            _ (section_by_type-all (ei.shdr_at offset).sh_type fuel (ei.shdr_at offset) s)
            (λ r q.
              Gives-if Q (is_missing r.1) _ _
                (λ _. search_sections-all fuel count (offset + ei.e_shentsize) r.0) (λ _. q)))

  search_dynamic-all :
      (strtab count off : ℕ) (s : S)
      → Gives Q (search_dynamic ei load_offset func_addr callback strtab count off s)
  unfolding search_dynamic
  search_dynamic-all strtab zero off s = at_missing s
  search_dynamic-all strtab (suc count) off s =
      let r = try_symbol ei load_offset func_addr callback strtab (ei.sym_at off) s in
      Gives-if Q (ltb ei.size (off + sym_size)) _ _ (λ _. tt)
        (λ _.
          Gives-if Q (is_missing r.1) _ _
            (λ _. search_dynamic-all strtab count (off + sym_size) r.0)
            (λ _. at_symbol strtab off s))

  search_tables-all :
      (fuel : ℕ) (t : DynTables) (s : S)
      → Gives Q (search_tables ei load_offset func_addr callback fuel t s)
  unfolding search_tables
  search_tables-all fuel t s =
      Gives-option Q t.sym_table (ok (s, missing))
        (λ off. elim t.str_table [
          | none ↦ ok (s, missing)
          | some strtab ↦ elim (dynamic_symtab_count ei fuel t.hash t.gnu_hash) [
            | ok n ↦ search_dynamic ei load_offset func_addr callback strtab n off s
            | err e ↦ ok (s, missing)
            | stop q ↦ stop q
          ]
        ])
        (at_missing s)
        (λ off.
          Gives-option Q t.str_table (ok (s, missing))
            (λ strtab. elim (dynamic_symtab_count ei fuel t.hash t.gnu_hash) [
              | ok n ↦ search_dynamic ei load_offset func_addr callback strtab n off s
              | err e ↦ ok (s, missing)
              | stop q ↦ stop q
            ])
            (at_missing s)
            (λ strtab. by_count strtab off (dynamic_symtab_count ei fuel t.hash t.gnu_hash)))
    where
      by_count :
          (strtab off : ℕ) (m : Result ℕ)
          → Gives Q (elim m [
            | ok n ↦ search_dynamic ei load_offset func_addr callback strtab n off s
            | err e ↦ ok (s, missing)
            | stop q ↦ stop q
          ])
      by_count strtab off (ok n) = search_dynamic-all strtab n off s
      by_count strtab off (err e) = at_missing s
      by_count strtab off (stop q) = tt

  from_dynamic-all :
      (fuel : ℕ) (s : S)
      → Gives Q (lookup_symbol_from_dynamic ei load_offset func_addr callback fuel s)
  unfolding lookup_symbol_from_dynamic
  from_dynamic-all fuel s =
      let d = dynamic_segment ei 0 ei.phdrs in
      Gives-option Q d.1 (ok (s, missing))
        (λ dyn.
          read_tags ei d.0 fuel dyn no_tables
          >>= (λ t. search_tables ei load_offset func_addr callback fuel t s))
        (at_missing s)
        (λ dyn.
          Gives-bind_any Q (read_tags ei d.0 fuel dyn no_tables) _
            (λ t. search_tables-all fuel t s))

  closeness-all :
      (fuel : ℕ) (s : S)
      → Gives Q (lookup_symbol_closeness ei load_offset func_addr callback fuel s)
  unfolding lookup_symbol_closeness
  closeness-all fuel s =
      Gives-if Q (not (valid_object ei)) _ _ (λ _. at_missing s)
        (λ _. Gives-bind_any Q (section_table ei) _ (λ table.
          Gives-option Q table (ok (s, missing))
            (λ soff.
              search_sections ei load_offset func_addr callback fuel ei.e_shnum soff s >>= (λ r.
                if is_missing r.1
                then lookup_symbol_from_dynamic ei load_offset func_addr callback fuel r.0
                else ok r))
            (at_missing s)
            (λ soff.
              Gives-bind Q Q
                (search_sections ei load_offset func_addr callback fuel ei.e_shnum soff s) _
                (search_sections-all fuel ei.e_shnum soff s)
                (λ r q.
                  Gives-if Q (is_missing r.1) _ _ (λ _. from_dynamic-all fuel r.0) (λ _. q)))))

-- The symbol at this offset of the image is that of a defined function from `start` to `end`.
abbrev pub IsFunction : Image → (load_offset : ℕ) → (ℕ → Option ℕ) → (off start end : ℕ) → Type 0
IsFunction ei load_offset func_addr off start end =
    let sym : Sym = ei.sym_at off in
    (sym.is_func ≡ true)
    × (is_defined sym.st_shndx ≡ true)
    × (func_addr (loaded sym.st_shndx sym.st_value load_offset) ≡ some start)
    × (end ≡ (start + sym.st_size) % word_mod)

-- Where a range is found, it is that of a defined function symbol of the image, it contains the address,
-- and the distance is that to its start; where none is found, nothing is written.
abbrev pub Covers :
    Image → (load_offset : ℕ) → (ℕ → Option ℕ) → (ip : ℕ) → (IpRange × Answer) → Type 0
Covers ei load_offset func_addr ip (s, missing) = Unit
Covers ei load_offset func_addr ip (s, truncated) = ⊥
Covers ei load_offset func_addr ip (s, found) =
    (s.start_ip ≤ ip)
    × (ip < s.end_ip)
    × (s.min_dist ≡ ip - s.start_ip)
    × ((off : ℕ) × IsFunction ei load_offset func_addr off s.start_ip s.end_ip)

callback-Covers :
    (ei : Image) (load_offset : ℕ) (func_addr : ℕ → Option ℕ) (ip strtab off val : ℕ) (s : IpRange)
    → IsFunction ei load_offset func_addr off val ((val + (ei.sym_at off).st_size) % word_mod)
    → Covers ei load_offset func_addr ip (lookup_ip_range_callback ip strtab (ei.sym_at off) val s)
unfolding lookup_ip_range_callback
callback-Covers ei load_offset func_addr ip strtab off val s function =
    let end : ℕ = (val + (ei.sym_at off).st_size) % word_mod in
    elim (Bool-cases (ltb ip val || leb end ip)) [
      | inl outside ↦ rw outside tt
      | inr inside ↦ elim (Bool-cases (ltb (ip - val) s.min_dist)) [
        | inl closer ↦ rw (inside, closer) (ground arith, ground arith, refl, (off, function))
        | inr further ↦ rw (inside, further) tt
      ]
    ]

module _ (ei : Image) (load_offset : ℕ) (func_addr : ℕ → Option ℕ) (ip : ℕ) where
  try_symbol-Covers :
      (strtab off : ℕ) (s : IpRange)
      → Covers ei load_offset func_addr ip (
          try_symbol ei load_offset func_addr
            (lookup_ip_range_callback ip)
            strtab
            (ei.sym_at off)
            s)
  unfolding try_symbol
  try_symbol-Covers strtab off s =
      let sym : Sym = ei.sym_at off in
      elim (Bool-cases (sym.is_func && is_defined sym.st_shndx)) [
        | inl fits ↦ rw fits (
            by_address (func_addr (loaded sym.st_shndx sym.st_value load_offset)) refl
              (ground arith) (ground arith))
        | inr other ↦ rw other tt
      ]
    where
      by_address :
          (o : Option ℕ)
          → func_addr (loaded (ei.sym_at off).st_shndx (ei.sym_at off).st_value load_offset) ≡ o
          → (ei.sym_at off).is_func ≡ true
          → is_defined (ei.sym_at off).st_shndx ≡ true
          → Covers ei load_offset func_addr ip (elim o [
            | none ↦ (s, missing)
            | some val ↦ lookup_ip_range_callback ip strtab (ei.sym_at off) val s
          ])
      by_address none e func defined = tt
      by_address (some val) e func defined =
          callback-Covers ei load_offset func_addr ip strtab off val s (func, defined, e, refl)

  lookup_ip_range-Covers :
      (fuel : ℕ) (s : IpRange)
      → Gives
          (Covers ei load_offset func_addr ip)
          (lookup_ip_range ei load_offset func_addr ip fuel s)
  unfolding lookup_ip_range
  lookup_ip_range-Covers fuel s =
      closeness-all ei load_offset func_addr (lookup_ip_range_callback ip)
        (Covers ei load_offset func_addr ip) (λ s. tt)
        (λ strtab off s. try_symbol-Covers strtab off s) fuel s

-- A range that `get_proc_ip_range_in_image` answers with contains the address, it is that of a symbol of
-- the image which is a defined function, under the load offset that the segments give, and its start
-- is nearer to the address than the image is long.
pub get_proc_ip_range-Covers :
    (page_size : ℕ) (ei : Image) (segbase : ℕ) (func_addr : ℕ → Option ℕ) (ip fuel : ℕ)
    → Gives
        (λ (r : ℕ × ℕ).
          (r.0 ≤ ip)
          × (ip < r.1)
          × (ip - r.0 < ei.size)
          × ((off : ℕ) × IsFunction ei
                (get_load_offset page_size segbase ei.phdrs)
                func_addr
                off
                r.0
                r.1))
        (get_proc_ip_range_in_image page_size ei segbase func_addr ip fuel)
unfolding get_proc_ip_range_in_image
get_proc_ip_range-Covers page_size ei segbase func_addr ip fuel =
    let load_offset : ℕ = get_load_offset page_size segbase ei.phdrs in
    Gives-bind (Covers ei load_offset func_addr ip) _
      (lookup_ip_range ei load_offset func_addr ip fuel
        (record { min_dist = word_mod - 1; start_ip = 0; end_ip = 0 }))
      _
      (lookup_ip_range-Covers ei load_offset func_addr ip fuel
        (record { min_dist = word_mod - 1; start_ip = 0; end_ip = 0 }))
      (λ (s, answer) covers.
        Gives-if _ (leb ei.size s.min_dist) _ _ (λ _. tt) (λ near. by_answer s answer covers near))
  where
    by_answer :
        (s : IpRange) (answer : Answer)
        → Covers ei (get_load_offset page_size segbase ei.phdrs) func_addr ip (s, answer)
        → leb ei.size s.min_dist ≡ false
        → Gives
            (λ (r : ℕ × ℕ).
              (r.0 ≤ ip)
              × (ip < r.1)
              × (ip - r.0 < ei.size)
              × ((off : ℕ) × IsFunction ei
                    (get_load_offset page_size segbase ei.phdrs)
                    func_addr
                    off
                    r.0
                    r.1))
            (answered s answer)
    by_answer s missing covers near = tt
    by_answer s truncated covers near = tt
    by_answer s found (from, to, dist, function) near = (from, to, ground arith, function)
