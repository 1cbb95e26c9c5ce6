-- ===== src/Elf.antt =====
-- elfxx.c, elfxx.h and elfxx_i.h: the tables of an ELF image, and how many symbols they hold.
pub mod Symbols
pub mod Range
pub mod Covering
pub mod Missed
use libunwind.Prelude.{
  ◌^◌, ℕ, zero, suc, ◌+◌, ◌-◌, ◌*◌, ◌/◌, ◌%◌, ◌<◌, Bool, true, false, not, ltb, leb, ◌==◌, ◌&&◌,
  ◌||◌, if◌then◌else◌, List, [], ◌∷◌, length, Option, none, some,
}
use libunwind.Prelude.Bits.{word_mod}
use libunwind.Prelude.Int.{ℤ, pos, negsuc, neg_ℕ, signed, to_word}
use libunwind.Result.{undefined, Result, ok, err, stop, noinfo, nomem, out_of_fuel, ◌>>=◌}

-- What the constants of <elf.h> tell apart.
pub data SectionType : Type 0 where
  symtab dynsym other_section : SectionType

pub data SegmentType : Type 0 where
  load dynamic program_headers other_segment : SegmentType

pub data DynTag : Type 0 where
  tag_null tag_symtab tag_strtab tag_hash tag_gnu_hash other_tag : DynTag

-- The index of a symbol's section: SHN_UNDEF, SHN_ABS or another.
pub data SymbolSection : Type 0 where
  undefined_symbol absolute in_section : SymbolSection

pub record Shdr : Type 0 where
  pub sh_type : SectionType
  pub sh_offset : ℕ
  pub sh_size : ℕ
  pub sh_entsize : ℕ
  pub sh_link : ℕ

pub record Phdr : Type 0 where
  pub p_type : SegmentType
  pub is_executable : Bool
  pub p_vaddr : ℕ
  pub p_offset : ℕ
  pub p_filesz : ℕ

pub record Sym : Type 0 where
  pub is_func : Bool
  pub st_shndx : SymbolSection
  pub st_value : ℕ
  pub st_size : ℕ
  pub st_name : ℕ

-- `struct elf_image`: the structures of <elf.h> and the words that stand at an offset into the image,
-- and its ELF header.
pub record Image : Type 0 where
  pub size : ℕ
  pub byte_at : ℕ → ℕ
  pub e_shoff : ℕ
  pub e_shnum : ℕ
  pub e_shentsize : ℕ
  pub phdrs : List Phdr
  pub shdr_at : ℕ → Shdr
  pub sym_at : ℕ → Sym
  pub dyn_at : ℕ → DynTag × ℕ
  pub word_at : ℕ → ℕ

-- The sizes of the structures, in an image of 64 bits.
abbrev pub sym_size : ℕ
sym_size = 24

abbrev pub dyn_size : ℕ
dyn_size = 16

abbrev pub shdr_size : ℕ
shdr_size = 64

abbrev pub addr_size : ℕ
addr_size = 8

-- A read of `n` bytes at an offset, and what follows it: behind the image there is nothing to read.
abbrev pub within {ℓ} : {A : Type ℓ} → Image → (off n : ℕ) → Result A → Result A
within ei off n m = if ltb ei.size (off + n) then stop undefined else m

-- A product of two values of type int, as a word: overflow is not defined.
unfoldable pub int_product : ℤ → ℕ → Result ℕ
int_product (pos m) n = if ltb (m * n) (2 ^ 31) then ok (m * n) else stop undefined
int_product (negsuc m) n =
    if leb (suc m * n) (2 ^ 31) then ok (to_word (neg_ℕ (suc m * n))) else stop undefined

-- The magic number, the class of 64 bits and the version 1, which is the current one.
unfoldable pub valid_object : Image → Bool
valid_object ei =
    ltb 6 ei.size
    && ((ei.byte_at 0 == 0x7f)
        && (ei.byte_at 1 == b'E')
        && (ei.byte_at 2 == b'L')
        && (ei.byte_at 3 == b'F'))
    && (ei.byte_at 4 == 2)
    && (not (ei.byte_at 6 == 0) && leb (ei.byte_at 6) 1)

-- An offset to the table, which `NULL` is not.
unfoldable pub section_table : Image → Result (Option ℕ)
section_table ei = do
  length ← int_product (pos ei.e_shnum) ei.e_shentsize
  ok (if ltb ei.size ((ei.e_shoff + length) % word_mod) then none else some ei.e_shoff)

-- The number of the section is the 32 bits of `sh_link` taken for an int.
unfoldable pub string_table : Image → (section : ℕ) → Result (Option ℕ)
string_table ei section = do
  distance ← int_product (signed 32 section) ei.e_shentsize
  let str_soff : ℕ = (ei.e_shoff + distance) % word_mod
  let str_shdr : Shdr = ei.shdr_at str_soff
  if ltb ei.size ((str_soff + ei.e_shentsize) % word_mod)
      then ok none
      else within ei str_soff shdr_size (
          ok (
            if ltb ei.size ((str_shdr.sh_offset + str_shdr.sh_size) % word_mod)
            then none
            else some str_shdr.sh_offset))

abbrev pub is_load : SegmentType → Bool
is_load load = true
is_load dynamic = false
is_load program_headers = false
is_load other_segment = false

unfoldable pub dynamic_va_to_file_offset : (va : ℕ) → List Phdr → ℕ
dynamic_va_to_file_offset va [] = 0
dynamic_va_to_file_offset va (p ∷ ps) =
    if is_load p.p_type
      && (leb p.p_vaddr va
          && ltb ((va + addr_size) % word_mod) ((p.p_vaddr + p.p_filesz) % word_mod))
    then (p.p_offset + (va - p.p_vaddr)) % word_mod
    else dynamic_va_to_file_offset va ps

-- The largest bucket, where the buckets do not decrease.
unfoldable pub last_bucket : Image → (offset nbuckets count : ℕ) → Result ℕ
last_bucket ei offset zero count = ok count
last_bucket ei offset (suc n) count =
    let bucket : ℕ = ei.word_at offset in
    let rest = last_bucket ei (offset + 4) n (if bucket == 0 then count else bucket) in
    within ei offset 4 (if not (bucket == 0) && ltb bucket count then err noinfo else rest)

-- The symbols of the last bucket: their chain ends with an odd hash value. The count has 32 bits.
unfoldable pub count_chain : Image → (fuel offset count : ℕ) → Result ℕ
count_chain ei zero offset count = stop out_of_fuel
count_chain ei (suc fuel) offset count =
    let rest = count_chain ei fuel (offset + 4) ((count + 1) % 2 ^ 32) in
    within ei offset 4 (if ei.word_at offset % 2 == 1 then ok ((count + 1) % 2 ^ 32) else rest)

unfoldable pub gnu_count : Image → (fuel gnu_hash : ℕ) → Result ℕ
gnu_count ei fuel gnu_hash =
    let nbuckets : ℕ = ei.word_at gnu_hash in
    let symoffset : ℕ = ei.word_at (gnu_hash + 4) in
    let bloom_size : ℕ = ei.word_at (gnu_hash + 8) in
    let buckets : ℕ = gnu_hash + 16 + bloom_size * addr_size in
    within ei gnu_hash 12 (do
      count ← last_bucket ei buckets nbuckets 0
      if count == 0
          then ok 0
          else if ltb count symoffset
          then err noinfo
          else count_chain ei fuel (buckets + nbuckets * 4 + (count - symoffset) * 4) count)

-- The first of the two hash tables says how many symbols there are, where it is present.
unfoldable pub dynamic_symtab_count : Image → (fuel : ℕ) → (hash gnu_hash : Option ℕ) → Result ℕ
dynamic_symtab_count ei fuel (some hash) gnu_hash =
    within ei (hash + 4) 4 (ok (ei.word_at (hash + 4)))
dynamic_symtab_count ei fuel none (some gnu_hash) = gnu_count ei fuel gnu_hash
dynamic_symtab_count ei fuel none none = err noinfo

-- What a callback answers: -UNW_ENOINFO, UNW_ESUCCESS or -UNW_ENOMEM.
pub data Answer : Type 0 where
  missing found truncated : Answer

abbrev pub is_missing : Answer → Bool
is_missing missing = true
is_missing found = false
is_missing truncated = false

abbrev pub is_defined : SymbolSection → Bool
is_defined undefined_symbol = false
is_defined absolute = true
is_defined in_section = true

abbrev pub loaded : SymbolSection → (value load_offset : ℕ) → ℕ
loaded absolute value load_offset = value
loaded undefined_symbol value load_offset = (value + load_offset) % word_mod
loaded in_section value load_offset = (value + load_offset) % word_mod

-- What the loop over the dynamic section finds.
pub record DynTables : Type 0 where
  pub sym_table : Option ℕ
  pub str_table : Option ℕ
  pub hash : Option ℕ
  pub gnu_hash : Option ℕ

abbrev pub no_tables : DynTables
no_tables = record { sym_table = none; str_table = none; hash = none; gnu_hash = none }

abbrev pub is_end : DynTag → Bool
is_end tag_null = true
is_end tag_symtab = false
is_end tag_strtab = false
is_end tag_hash = false
is_end tag_gnu_hash = false
is_end other_tag = false
