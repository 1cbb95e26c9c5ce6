-- ===== src/Dyn/Remote/Found.antt =====
-- What the search finds in a list that the other process keeps in its memory.
use libunwind.Prelude.{
  ℕ, zero, suc, ◌+◌, ◌-◌, ◌/◌, ◌%◌, ◌^◌, ◌<◌, ◌≡◌, ◌≢◌, refl, ap, ◌∙◌, arith, Bool, true, false,
  leb, ltb, ◌==◌, ◌&&◌, Bool-cases, inl, inr, if◌then◌else◌, List, [], ◌∷◌, length, Option, none,
  some,
}
use libunwind.Prelude.Bits.{word_mod}
use libunwind.Result.{Result, ok}
use libunwind.Dwarf.Types.{dynamic}
use libunwind.Dwarf.Read.{AddrSpace, aligned}
use libunwind.Dyn.{DynFound, extract_dynamic, extract_by_format, extract_dynamic_proc_info}
use libunwind.Dyn.Remote.{
  advance, fetch_part, fetch32, fetchw, intern_regions, format_of_number, intern_dyn_info,
  RemoteInfo,
}
use libunwind.Dyn.Remote.Search.{
  attempt, Entry, read_entry, read_head, extract_remote, read_match, walk_list, outcome,
  search_again,
}

-- A procedure that the other process has registered: the structure's address, and what it holds.
pub record Proc : Type 0 where
  pub addr : ℕ
  pub prev : ℕ
  pub start_ip : ℕ
  pub end_ip : ℕ
  pub gp : ℕ
  pub format_word : ℕ
  pub name_ptr : ℕ
  pub handler : ℕ
  pub flags_word : ℕ

-- The words of a structure of the format UNW_INFO_FORMAT_DYNAMIC without regions, on a little-endian
-- host: behind the links and the bounds the global pointer, the format 0 with its padding, and the
-- union.
pub record IsAt (space : AddrSpace) (p : Proc) (next : ℕ) : Type 0 where
  pub little_endian : space.host_big_endian ≡ false
  pub valid : p.addr ≢ 0
  pub at_word : p.addr % 8 ≡ 0
  pub fits : p.addr + 80 < word_mod
  pub next_word : space.access_mem p.addr ≡ ok next
  pub start_word : space.access_mem (p.addr + 16) ≡ ok p.start_ip
  pub end_word : space.access_mem (p.addr + 24) ≡ ok p.end_ip
  pub gp_word : space.access_mem (p.addr + 32) ≡ ok p.gp
  pub format_here : space.access_mem (p.addr + 40) ≡ ok p.format_word
  pub format_is : p.format_word % 2 ^ 32 ≡ 0
  pub name_word : space.access_mem (p.addr + 48) ≡ ok p.name_ptr
  pub handler_word : space.access_mem (p.addr + 56) ≡ ok p.handler
  pub flags_here : space.access_mem (p.addr + 64) ≡ ok p.flags_word
  pub region_word : space.access_mem (p.addr + 72) ≡ ok 0

abbrev pub HoldsList : AddrSpace → (addr : ℕ) → List Proc → Type 0
HoldsList space addr [] = addr ≡ 0
HoldsList space addr (p ∷ ps) =
    (addr ≡ p.addr) × ((next : ℕ) × IsAt space p next × HoldsList space next ps)

abbrev pub covered : Proc → ℕ → Bool
covered p ip = leb p.start_ip ip && ltb ip p.end_ip

-- What the search says of a procedure: the handler and the flags only where unwind information is
-- asked for.
abbrev pub described : (di : ℕ) → (need_unwind_info : Bool) → Proc → DynFound
described di need p = record {
  start_ip = p.start_ip;
  end_ip = p.end_ip;
  gp = p.gp;
  format = dynamic;
  handler = if need then p.handler else 0;
  lsda = 0;
  flags = if need then p.flags_word % 2 ^ 32 else 0;
  unwind_info_size = 0;
  unwind_info = if need then di else 0;
}

unfoldable pub first_covering :
    (di ip : ℕ) → (need_unwind_info : Bool) → List Proc → Option DynFound
first_covering di ip need [] = none
first_covering di ip need (p ∷ ps) =
    if covered p ip then some (described di need p) else first_covering di ip need ps

abbrev value : ℕ → ℕ → Result (ℕ × ℕ)
value v addr = ok (v, addr)

pub fetchw-word :
    (space : AddrSpace) (a v : ℕ)
    → space.access_mem a ≡ ok v
    → a + 8 < word_mod
    → fetchw space a ≡ ok (v, a + 8)
unfolding fetchw
fetchw-word space a v at fits = let e : advance a 8 ≡ a + 8 = omega arith in rw (at, e)

fetch32-low :
    (space : AddrSpace) (a v : ℕ)
    → space.host_big_endian ≡ false
    → space.access_mem a ≡ ok v
    → a % 8 ≡ 0
    → a + 8 < word_mod
    → fetch32 space a ≡ ok (v % 2 ^ 32, a + 4)
unfolding fetch32 fetch_part
fetch32-low space a v little at even fits =
    let four : (a % 4 == 0) ≡ true = ground arith in
    let low : aligned a ≡ a = omega arith in
    let off : a - a ≡ 0 = omega arith in
    let e : advance a 4 ≡ a + 4 = omega arith in
    let whole : v / 1 ≡ v = omega arith in
    rw (four, low, at, little, off, e) (ap (λ (t : ℕ). value (t % 2 ^ 32) (a + 4)) whole)

module _ (space : AddrSpace) (p : Proc) (next : ℕ) (h : IsAt space p next) where
  entry : Entry
  entry = record { next_addr = next; start_ip = p.start_ip; end_ip = p.end_ip; rest = p.addr + 32 }

  field :
      (k v : ℕ)
      → space.access_mem (p.addr + k) ≡ ok v
      → k < 73
      → fetchw space (p.addr + k) ≡ ok (v, p.addr + (k + 8))
  field k v at low =
      fetchw-word space (p.addr + k) v at (omega (arith, h.fits))
      ∙ ap (λ (t : ℕ). value v t) (omega arith)

  half :
      (k v : ℕ)
      → space.access_mem (p.addr + k) ≡ ok v
      → k < 73
      → k % 8 ≡ 0
      → fetch32 space (p.addr + k) ≡ ok (v % 2 ^ 32, p.addr + (k + 4))
  half k v at low even =
      fetch32-low space (p.addr + k) v h.little_endian at (omega (arith, h.at_word))
        (omega (arith, h.fits))
      ∙ ap (λ (t : ℕ). value (v % 2 ^ 32) t) (omega arith)

  read_entry-IsAt : read_entry space p.addr ≡ ok entry
  unfolding read_entry entry
  read_entry-IsAt =
      let first : fetchw space p.addr ≡ ok (next, p.addr + 8) =
        fetchw-word space p.addr next h.next_word (omega (arith, h.fits)) in
      let prev : advance (p.addr + 8) 8 ≡ p.addr + 16 = omega (arith, h.fits) in
      rw (
        first,
        prev,
        field 16 p.start_ip h.start_word (omega arith),
        field 24 p.end_ip h.end_word (omega arith),
      )

  module _ (search : RemoteInfo → (ip : ℕ) → (need_unwind_info : Bool) → Result DynFound)
      (alloc : ℕ → Bool) (di ip fuel : ℕ) where
    read_match-IsAt :
        (need : Bool)
        → read_match search alloc di ip need (suc fuel) space entry ≡ ok (described di need p)
    unfolding read_match entry extract_remote extract_dynamic_proc_info extract_by_format
        extract_dynamic intern_dyn_info intern_regions format_of_number
    read_match-IsAt false =
        let pad : advance (p.addr + 44) 4 ≡ p.addr + 48 = omega (arith, h.fits) in
        rw (
          field 32 p.gp h.gp_word (omega arith),
          half 40 p.format_word h.format_here (omega arith) refl,
          h.format_is,
        )
    read_match-IsAt true =
        let pad : advance (p.addr + 44) 4 ≡ p.addr + 48 = omega (arith, h.fits) in
        let pad' : advance (p.addr + 68) 4 ≡ p.addr + 72 = omega (arith, h.fits) in
        rw (
          field 32 p.gp h.gp_word (omega arith),
          half 40 p.format_word h.format_here (omega arith) refl,
          h.format_is,
          pad,
          field 48 p.name_ptr h.name_word (omega arith),
          field 56 p.handler h.handler_word (omega arith),
          half 64 p.flags_word h.flags_here (omega arith) refl,
          pad',
          field 72 0 h.region_word (omega arith),
        )

module _ (search : RemoteInfo → (ip : ℕ) → (need_unwind_info : Bool) → Result DynFound)
    (alloc : ℕ → Bool) (di ip : ℕ) (need : Bool) (fuel : ℕ) where
  walk_list-first_covering :
      (space : AddrSpace) (rounds addr : ℕ) (ps : List Proc)
      → HoldsList space addr ps
      → length ps < rounds
      → walk_list search alloc di ip need (suc fuel) space rounds addr
        ≡ ok (first_covering di ip need ps)
  unfolding walk_list first_covering attempt entry
  walk_list-first_covering space zero addr ps holds enough = absurd (omega arith)
  walk_list-first_covering space (suc rounds) addr [] holds enough =
      let null : (addr == 0) ≡ true = ground arith in rw null
  walk_list-first_covering space (suc rounds) addr (p ∷ ps) (at, (next, h, rest)) enough =
      let some : (p.addr == 0) ≡ false = ground (arith, h.valid) in
      rw (at, some, read_entry-IsAt space p next h)
        (elim (Bool-cases (covered p ip)) [
          | inl here ↦ ground (arith, read_match-IsAt space p next h search alloc di ip fuel need)
          | inr further ↦
              ground (arith, walk_list-first_covering space rounds next ps rest (omega arith))
        ])

  -- Where the memory of the other process does not change and holds the list of its registered
  -- procedures, of UNW_INFO_FORMAT_DYNAMIC and without regions, with the head of the list at the
  -- list's address, and there is a round for each of them: the search answers at once, with the first
  -- procedure of the list that covers the address, or with `noinfo` where none does. Where no unwind
  -- information is asked for, the handler and the flags of the answer are 0.
  pub search_again-first_covering :
      (space : AddrSpace) (list_addr gen first rounds tries : ℕ) (ps : List Proc)
      → space.access_mem list_addr ≡ ok gen
      → space.access_mem (list_addr + 8) ≡ ok first
      → list_addr + 16 < word_mod
      → HoldsList space first ps
      → length ps < rounds
      → search_again search alloc di ip need (suc fuel) (λ k. space) list_addr rounds (suc tries) 0
        ≡ outcome search alloc di ip need (suc fuel) (first_covering di ip need ps)
  unfolding search_again read_head attempt
  search_again-first_covering space list_addr gen first rounds tries ps at_gen at_first fits holds
        enough =
      let same : (gen == gen) ≡ true = ground arith in
      rw (
        fetchw-word space list_addr gen at_gen (omega arith),
        fetchw-word space (list_addr + 8) first at_first (omega arith),
        walk_list-first_covering space rounds first ps holds enough,
        fetchw-word space list_addr gen at_gen (omega arith),
        same,
      )
