-- ===== src/Elf/Missed.antt =====
-- The search of the symbol tables ends, and misses no function.
use libunwind.Prelude.{
  ℕ, zero, suc, ◌+◌, ◌-◌, ◌*◌, ◌%◌, ◌≤◌, ◌<◌, ◌≡◌, refl, sym, ap, arith, Bool, true, false, ltb,
  leb, ◌&&◌, ◌||◌, Bool-cases, inl, inr, Option, none, some,
}
use mathlib.Core.Path.{subst}
use libunwind.Prelude.Bits.{word_mod}
use native.Mathlib.Nat.{suc-mul, mod-lt}
use libunwind.Result.{ok}
use libunwind.Elf.{
  Image, Sym, Shdr, SectionType, symtab, dynsym, other_section, Answer, missing, is_missing,
  is_defined, loaded, sym_size, shdr_size, string_table,
}
use libunwind.Elf.Symbols.{
  try_symbol, search_symbols, search_section, section_by_type, search_sections,
}
use libunwind.Elf.Range.{IpRange, lookup_ip_range_callback}
use libunwind.Elf.Covering.{IsFunction}

abbrev pub is_symbols : SectionType → Bool
is_symbols symtab = true
is_symbols dynsym = true
is_symbols other_section = false

-- The symbols at multiples of a size from an offset on lie in the image.
abbrev pub AreIn : Image → (size end off : ℕ) → Type 0
AreIn ei size end off = (k : ℕ) → off + k * size < end → off + k * size + sym_size ≤ ei.size

-- The entries of a symbol table have a size and lie in the image, there is a round for each, and the
-- header of the table's strings can be looked at.
abbrev pub IsReadable : Image → (fuel : ℕ) → Shdr → Type 0
IsReadable ei fuel shdr =
    is_symbols shdr.sh_type ≡ true
    → (0 < shdr.sh_entsize)
      × (shdr.sh_size < fuel)
      × AreIn ei shdr.sh_entsize (shdr.sh_offset + shdr.sh_size) shdr.sh_offset
      × ((table : Option ℕ) × (string_table ei shdr.sh_link ≡ ok table))

module _ (ei : Image) (load_offset : ℕ) (func_addr : ℕ → Option ℕ) (ip : ℕ) where
  -- No function symbol at this offset contains the address.
  abbrev pub MissesAt : (off : ℕ) → Type 0
  MissesAt off =
      (start end : ℕ)
      → IsFunction ei load_offset func_addr off start end
      → start ≤ ip
      → ip < end
      → ⊥

  abbrev pub SectionMisses : Shdr → Type 0
  SectionMisses shdr =
      is_symbols shdr.sh_type ≡ true
      → (strtab : ℕ) → string_table ei shdr.sh_link ≡ ok (some strtab)
      → (k : ℕ) → shdr.sh_offset + k * shdr.sh_entsize < shdr.sh_offset + shdr.sh_size
      → MissesAt (shdr.sh_offset + k * shdr.sh_entsize)

  module _ (s : IpRange) (unset : s.min_dist ≡ word_mod - 1) where
    callback-missing :
        (strtab : ℕ) (symbol : Sym) (val : ℕ)
        → is_missing (lookup_ip_range_callback ip strtab symbol val s).1 ≡ true
        → ((lookup_ip_range_callback ip strtab symbol val s).0 ≡ s)
          × (val ≤ ip → ip < (val + symbol.st_size) % word_mod → ⊥)
    unfolding lookup_ip_range_callback
    callback-missing strtab symbol val none_found =
        let end : ℕ = (val + symbol.st_size) % word_mod in
        let bound : end < word_mod = mod-lt (val + symbol.st_size) (omega arith) in
        elim (Bool-cases (ltb ip val || leb end ip)) [
          | inl outside ↦ (rw outside, ground arith)
          | inr inside ↦ elim (Bool-cases (ltb (ip - val) s.min_dist)) [
            | inl closer ↦ ground arith
            | inr further ↦ (rw (inside, further), ground arith)
          ]
        ]

    try_symbol-missing :
        (strtab off : ℕ)
        → is_missing
            (try_symbol ei load_offset func_addr
              (lookup_ip_range_callback ip)
              strtab
              (ei.sym_at off)
              s).1
          ≡ true
        → ((try_symbol ei load_offset func_addr
              (lookup_ip_range_callback ip)
              strtab
              (ei.sym_at off)
              s).0
            ≡ s)
          × MissesAt off
    unfolding try_symbol
    try_symbol-missing strtab off none_found =
        let symbol : Sym = ei.sym_at off in
        elim (Bool-cases (symbol.is_func && is_defined symbol.st_shndx)) [
          | inl fits ↦ rw fits (
              by_address (func_addr (loaded symbol.st_shndx symbol.st_value load_offset)) refl
                (rw fits at none_found))
          | inr other ↦ (rw other, λ start end (func, defined, at, end_is) from to. ground arith)
        ]
      where
        by_address :
            (o : Option ℕ)
            → func_addr (loaded (ei.sym_at off).st_shndx (ei.sym_at off).st_value load_offset) ≡ o
            → is_missing
                (elim o as (λ o. IpRange × Answer) [
                  | none ↦ (s, missing)
                  | some val ↦ lookup_ip_range_callback ip strtab (ei.sym_at off) val s
                ]).1
              ≡ true
            → ((elim o as (λ o. IpRange × Answer) [
              | none ↦ (s, missing)
              | some val ↦ lookup_ip_range_callback ip strtab (ei.sym_at off) val s
            ]).0
                ≡ s)
              × MissesAt off
        by_address none e none_found = (refl, λ start end (func, defined, at, end_is) from to. cc)
        by_address (some val) e none_found =
            let (same, out) = callback-missing strtab (ei.sym_at off) val none_found in
            (
              same,
              λ start end (func, defined, at, end_is) from to.
                  let start_is : val ≡ start = cc in
                  out (rw start_is from) (rw (start_is, ← end_is) to),
            )

    search_symbols-missing :
        (strtab size end fuel off : ℕ)
        → 0 < size
        → end ≤ off + fuel
        → AreIn ei size end off
        → (r : IpRange × Answer) × (search_symbols ei load_offset func_addr
              (lookup_ip_range_callback ip)
              strtab
              size
              end
              (suc fuel)
              off
              s
            ≡ ok r)
          × (is_missing r.1 ≡ true
              → (r.0 ≡ s) × ((k : ℕ) → off + k * size < end → MissesAt (off + k * size)))
    unfolding search_symbols
    search_symbols-missing strtab size end zero off pos enough lie =
        let outside : ltb off end ≡ false = ground arith in
        ((s, missing), rw outside, λ none_found. (refl, λ k below. absurd (omega arith)))
    search_symbols-missing strtab size end (suc fuel) off pos enough lie =
        elim (Bool-cases (ltb off end)) [
          | inl inside ↦
              let in_image : ltb ei.size (off + sym_size) ≡ false =
                let first : off + 0 * size ≡ off = grind arith in
                ground (arith, lie 0 (ground arith)) in
              let t =
                try_symbol ei load_offset func_addr (lookup_ip_range_callback ip) strtab
                  (ei.sym_at off) s in
              elim (Bool-cases (is_missing t.1)) [
                | inl on ↦
                    let (same, here) = try_symbol-missing strtab off on in
                    let (r, ends, misses) =
                      search_symbols-missing strtab size end fuel (off + size) pos (omega arith)
                        (λ k below.
                          let e : off + suc k * size ≡ off + size + k * size =
                            grind (arith, suc-mul) in
                          omega (arith, e, lie (suc k) (omega (arith, e)))) in
                    (
                      r,
                      rw (inside, in_image, on, same) ends,
                      λ none_found.
                          let (kept, later) = misses none_found in (kept, every here later),
                    )
                | inr done ↦ (t, rw (inside, in_image, done), λ none_found. cc)
              ]
          | inr outside ↦
              ((s, missing), rw outside, λ none_found. (refl, λ k below. absurd (ground arith)))
        ]
      where
        every :
            MissesAt off
            → ((k : ℕ) → off + size + k * size < end → MissesAt (off + size + k * size))
            → (k : ℕ) → off + k * size < end
            → MissesAt (off + k * size)
        every here later zero below = let e : off + 0 * size ≡ off = grind arith in rw e here
        every here later (suc k) below =
            let e : off + suc k * size ≡ off + size + k * size = grind (arith, suc-mul) in
            rw e (later k (omega (arith, e)))

    -- A section of symbols is searched to its end, or to a symbol that answers.
    search_section-missing :
        (fuel : ℕ) (shdr : Shdr) (o : Option ℕ)
        → string_table ei shdr.sh_link ≡ ok o
        → 0 < shdr.sh_entsize
        → shdr.sh_size < suc fuel
        → AreIn ei shdr.sh_entsize (shdr.sh_offset + shdr.sh_size) shdr.sh_offset
        → (r : IpRange × Answer) × (search_section ei load_offset func_addr
              (lookup_ip_range_callback ip)
              (suc fuel)
              shdr
              s
            ≡ ok r)
          × (is_missing r.1 ≡ true → (r.0 ≡ s) × SectionMisses shdr)
    unfolding search_section
    search_section-missing fuel shdr none e pos fits lie =
        ((s, missing), rw (e, search_section), λ _. (refl, λ _ strtab is k below. cc))
    search_section-missing fuel shdr (some table) e pos fits lie =
        let (r, ends, misses) =
          search_symbols-missing table shdr.sh_entsize (shdr.sh_offset + shdr.sh_size) fuel
            shdr.sh_offset pos (omega arith) lie in
        (
          r,
          rw (e, search_section) ends,
          λ none_found.
              let (same, all) = misses none_found in (same, λ _ strtab is k below. all k below),
        )

    section-missing :
        (fuel : ℕ) (shdr : Shdr) (t : SectionType)
        → shdr.sh_type ≡ t
        → IsReadable ei (suc fuel) shdr
        → (r : IpRange × Answer) × (section_by_type ei load_offset func_addr
              (lookup_ip_range_callback ip)
              t
              (suc fuel)
              shdr
              s
            ≡ ok r)
          × (is_missing r.1 ≡ true → (r.0 ≡ s) × SectionMisses shdr)
    unfolding section_by_type
    section-missing fuel shdr symtab e sized =
        let (pos, fits, lie, (table, is)) = sized (ap is_symbols e) in
        search_section-missing fuel shdr table is pos fits lie
    section-missing fuel shdr dynsym e sized =
        let (pos, fits, lie, (table, is)) = sized (ap is_symbols e) in
        search_section-missing fuel shdr table is pos fits lie
    section-missing fuel shdr other_section e sized = (
      (s, missing),
      refl,
      λ _. (
        refl,
        λ symbols strtab is k below.
            let no : is_symbols shdr.sh_type ≡ false = ap is_symbols e in cc,
      ),
    )

    search_sections-missing :
        (fuel count offset : ℕ)
        → ((i : ℕ)
            → i < count
            → (offset + i * ei.e_shentsize + shdr_size ≤ ei.size)
              × IsReadable ei (suc fuel) (ei.shdr_at (offset + i * ei.e_shentsize)))
        → (r : IpRange × Answer) × (search_sections ei load_offset func_addr
              (lookup_ip_range_callback ip)
              (suc fuel)
              count
              offset
              s
            ≡ ok r)
          × (is_missing r.1 ≡ true
              → (r.0 ≡ s)
                × ((i : ℕ) → i < count → SectionMisses (ei.shdr_at (offset + i * ei.e_shentsize))))
    unfolding search_sections
    search_sections-missing fuel zero offset sized =
        ((s, missing), refl, λ _. (refl, λ i below. absurd (omega arith)))
    search_sections-missing fuel (suc count) offset sized =
        let first : offset + 0 * ei.e_shentsize ≡ offset = grind arith in
        let shdr : Shdr = ei.shdr_at offset in
        let (r, ends, misses) = section-missing fuel shdr shdr.sh_type refl (
          subst (λ (o : ℕ). IsReadable ei (suc fuel) (ei.shdr_at o)) first
            (sized 0 (omega arith)).1) in
        let in_image : ltb ei.size (offset + shdr_size) ≡ false =
          ground (arith, first, (sized 0 (omega arith)).0) in
        elim (Bool-cases (is_missing r.1)) [
          | inl on ↦
              let (same, here) = misses on in
              let (r', ends', misses') =
                search_sections-missing fuel count (offset + ei.e_shentsize) (λ i below.
                  subst
                    (λ (o : ℕ). (o + shdr_size ≤ ei.size) × IsReadable ei (suc fuel) (ei.shdr_at o))
                    (shift i) (sized (suc i) (omega arith))) in
              (
                r',
                rw (in_image, ends, on, same) ends',
                λ none_found.
                    let (same', later) = misses' none_found in
                    (same', λ i below. every here later i below),
              )
          | inr done ↦ (r, rw (in_image, ends, done), λ none_found. cc)
        ]
      where
        shift :
            (i : ℕ) → offset + suc i * ei.e_shentsize ≡ offset + ei.e_shentsize + i * ei.e_shentsize
        shift i = grind (arith, suc-mul)

        every :
            SectionMisses (ei.shdr_at offset)
            → ((i : ℕ)
                → i < count
                → SectionMisses (ei.shdr_at (offset + ei.e_shentsize + i * ei.e_shentsize)))
            → (i : ℕ) → i < suc count
            → SectionMisses (ei.shdr_at (offset + i * ei.e_shentsize))
        every here later zero below =
            let e : offset + 0 * ei.e_shentsize ≡ offset = grind arith in
            subst (λ (o : ℕ). SectionMisses (ei.shdr_at o)) (sym e) here
        every here later (suc i) below =
            subst (λ (o : ℕ). SectionMisses (ei.shdr_at o)) (sym (shift i)) (later i (omega arith))

-- Where the headers of the sections lie in the image, the entries of each symbol table have a size and
-- lie in it too, there is a round for each of them, and the offset of the header of the table's strings
-- is computed and read without what C leaves undefined: the search of the sections ends, from an unset distance, and if it finds nothing it has written nothing and no
-- symbol of a table that has its strings is that of a defined function which contains the address.
pub search_sections-SectionMisses :
    (ei : Image) (load_offset : ℕ) (func_addr : ℕ → Option ℕ) (ip : ℕ) (s : IpRange)
    (fuel count offset : ℕ)
    → s.min_dist ≡ word_mod - 1
    → ((i : ℕ)
        → i < count
        → (offset + i * ei.e_shentsize + shdr_size ≤ ei.size)
          × IsReadable ei (suc fuel) (ei.shdr_at (offset + i * ei.e_shentsize)))
    → (r : IpRange × Answer) × (search_sections ei load_offset func_addr
          (lookup_ip_range_callback ip)
          (suc fuel)
          count
          offset
          s
        ≡ ok r)
      × (is_missing r.1 ≡ true
          → (r.0 ≡ s)
            × ((i : ℕ)
                → i < count
                → SectionMisses ei load_offset func_addr ip
                    (ei.shdr_at (offset + i * ei.e_shentsize))))
search_sections-SectionMisses ei load_offset func_addr ip s fuel count offset unset sized =
    search_sections-missing ei load_offset func_addr ip s unset fuel count offset sized
