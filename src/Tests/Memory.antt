-- ===== src/Tests/Memory.antt =====
-- The memory of the examples: a little-endian 64-bit address space that starts with given bytes.
use libunwind.Prelude.{
  Bool, true, ◌<◌, ◌≡◌, refl, arith, ltb, ◌==◌, ◌&&◌, ℕ, ◌+◌, false, List, [], ◌∷◌, get_or,
}
use libunwind.Result.{Result, ok, err, stop}
use libunwind.Dwarf.Read.{AddrSpace, dwarf_readu8}
use libunwind.Dwarf.Read.Bytes.{little, after, Holds}
use libunwind.Dwarf.Types.{ProcInfo, Format}
use libunwind.Prelude.{Option}

abbrev pub word_at : List ℕ → ℕ → List ℕ
word_at bs a =
    get_or bs a 0
    ∷ get_or bs (a + 1) 0
    ∷ get_or bs (a + 2) 0
    ∷ get_or bs (a + 3) 0
    ∷ get_or bs (a + 4) 0
    ∷ get_or bs (a + 5) 0
    ∷ get_or bs (a + 6) 0
    ∷ get_or bs (a + 7) 0
    ∷ []

abbrev pub access : List ℕ → ℕ → Result ℕ
access bs a = ok (little (word_at bs a))

abbrev pub memory : List ℕ → AddrSpace
memory bs = record {
  access_mem = access bs;
  host_big_endian = false;
  big_endian = false;
  addr_size = 8;
}

abbrev pub no_info : ProcInfo
no_info = record {
  start_ip = 0x400;
  end_ip = 0x500;
  lsda = 0;
  handler = 0;
  gp = 0;
  flags = 0;
  format = Format.table;
  unwind_info_size = 0;
  unwind_info = Option.none;
}

-- Whether a byte can be read at an address, and whether bytes can.
abbrev is_at : Result (ℕ × ℕ) → (b next : ℕ) → Bool
is_at (ok r) b next = (ltb b 256 && r.0 == b) && r.1 == next
is_at (err e) b next = false
is_at (stop s) b next = false

unfoldable pub stand : AddrSpace → ℕ → List ℕ → Bool
stand space addr [] = true
stand space addr (b ∷ bs) =
    is_at (dwarf_readu8 space addr) b (after addr 1) && stand space (after addr 1) bs

pub &&-both : (a b : Bool) → (a && b) ≡ true → (a ≡ true) × (b ≡ true)
&&-both true b h = (refl, h)
&&-both false b h = cc

is_at-read :
    (r : Result (ℕ × ℕ)) (b next : ℕ) → is_at r b next ≡ true → (b < 256) × (r ≡ ok (b, next))
is_at-read (ok (v, a)) b next h =
    let value : v ≡ b = ground arith in
    let address : a ≡ next = ground arith in (ground arith, rw (value, address))
is_at-read (err e) b next h = cc
is_at-read (stop s) b next h = cc

pub stand-Holds :
    (space : AddrSpace) (addr : ℕ) (bs : List ℕ) → stand space addr bs ≡ true → Holds space addr bs
unfolding stand
stand-Holds space addr [] h = tt
stand-Holds space addr (b ∷ bs) h =
    let (here, rest) =
      &&-both (is_at (dwarf_readu8 space addr) b (after addr 1)) (stand space (after addr 1) bs)
        h in
    let (small, read) = is_at-read (dwarf_readu8 space addr) b (after addr 1) here in
    (small, read, stand-Holds space (after addr 1) bs rest)
