-- ===== src/Dwarf/Read/Bytes.antt =====
-- What the readers return: the number that the bytes at the address make.
use libunwind.Prelude.{
  ℕ, zero, suc, ◌+◌, ◌*◌, ◌%◌, ◌^◌, ◌<◌, ◌≡◌, Bool, true, false, arith, List, [], ◌∷◌, ◌++◌, length,
  if◌then◌else◌,
}
use libunwind.Prelude.Bits.{word_mod, bit_or-disjoint}
use libunwind.Result.{ok}
use libunwind.Dwarf.Read.{
  AddrSpace, join, dwarf_readu8, dwarf_readu16, dwarf_readu32, dwarf_readu64,
}

-- The address after `n` bytes.
abbrev pub after : ℕ → ℕ → ℕ
after addr zero = addr
after addr (suc n) = after ((addr + 1) % word_mod) n

pub after-eq : (addr n : ℕ) → addr < word_mod → after addr n ≡ (addr + n) % word_mod
after-eq addr zero h = omega arith
after-eq addr (suc n) h = omega (arith, after-eq ((addr + 1) % word_mod) n (omega arith))

-- From `addr` on, memory can be read and holds these bytes.
abbrev pub Holds : AddrSpace → ℕ → List ℕ → Type 0
Holds space addr [] = Unit
Holds space addr (b ∷ bs) =
    (b < 256) × (dwarf_readu8 space addr ≡ ok (b, after addr 1)) × Holds space (after addr 1) bs

pub Holds-front :
    (space : AddrSpace) (addr : ℕ) (xs ys : List ℕ)
    → Holds space addr (xs ++ ys)
    → Holds space addr xs
Holds-front space addr [] ys h = tt
Holds-front space addr (x ∷ xs) ys (b, e, h) = (b, e, Holds-front space (after addr 1) xs ys h)

pub Holds-back :
    (space : AddrSpace) (addr : ℕ) (xs ys : List ℕ)
    → Holds space addr (xs ++ ys)
    → Holds space (after addr (length xs)) ys
Holds-back space addr [] ys h = h
Holds-back space addr (x ∷ xs) ys (b, e, h) = Holds-back space (after addr 1) xs ys h

-- The number that bytes stand for, the lowest or the highest first.
abbrev pub little : List ℕ → ℕ
little [] = 0
little (b ∷ bs) = b + 256 * little bs

abbrev pub big_from : ℕ → List ℕ → ℕ
big_from n [] = n
big_from n (b ∷ bs) = big_from (256 * n + b) bs

abbrev pub number : Bool → List ℕ → ℕ
number big bs = if big then big_from 0 bs else little bs

-- Two parts that fit are joined to the number of both.
join_sum :
    (k : ℕ) (big : Bool) (v0 v1 : ℕ)
    → v0 < 2 ^ k
    → v1 < 2 ^ k
    → join k big v0 v1 ≡ (if big then v1 + v0 * 2 ^ k else v0 + v1 * 2 ^ k)
join_sum k true v0 v1 h0 h1 = bit_or-disjoint k v1 v0 h1
join_sum k false v0 v1 h0 h1 = bit_or-disjoint k v0 v1 h0

module _ (space : AddrSpace) where
  pub readu16-number :
      (addr a b : ℕ)
      → Holds space addr (a ∷ b ∷ [])
      → dwarf_readu16 space addr ≡ ok (number space.big_endian (a ∷ b ∷ []), after addr 2)
  unfolding dwarf_readu16
  readu16-number addr a b (ha, ea, (hb, eb, _)) =
      rw (ea, eb, join_sum 8 space.big_endian a b ha hb) (ground arith)

  pub readu32-number :
      (addr a b c d : ℕ)
      → Holds space addr (a ∷ b ∷ c ∷ d ∷ [])
      → dwarf_readu32 space addr ≡ ok (number space.big_endian (a ∷ b ∷ c ∷ d ∷ []), after addr 4)
  unfolding dwarf_readu32
  readu32-number addr a b c d (ha, ea, (hb, eb, (hc, ec, (hd, ed, _)))) = ground (
    arith,
    readu16-number addr a b (ha, ea, (hb, eb, tt)),
    readu16-number (after addr 2) c d (hc, ec, (hd, ed, tt)),
    join_sum 16 space.big_endian (number space.big_endian (a ∷ b ∷ []))
        (number space.big_endian (c ∷ d ∷ [])),
  )

  -- Where memory holds eight bytes at the address, a 64-bit read returns the number that they make
  -- in the byte order of the address space, and the address behind them.
  pub readu64-number :
      (addr a b c d e f g h : ℕ)
      → Holds space addr (a ∷ b ∷ c ∷ d ∷ e ∷ f ∷ g ∷ h ∷ [])
      → dwarf_readu64 space addr
        ≡ ok (number space.big_endian (a ∷ b ∷ c ∷ d ∷ e ∷ f ∷ g ∷ h ∷ []), after addr 8)
  unfolding dwarf_readu64
  readu64-number addr a b c d e f g h holds = ground (
    arith,
    readu32-number addr a b c d
        (Holds-front space addr (a ∷ b ∷ c ∷ d ∷ []) (e ∷ f ∷ g ∷ h ∷ []) holds),
    readu32-number (after addr 4) e f g h
        (Holds-back space addr (a ∷ b ∷ c ∷ d ∷ []) (e ∷ f ∷ g ∷ h ∷ []) holds),
    join_sum 32 space.big_endian (number space.big_endian (a ∷ b ∷ c ∷ d ∷ []))
        (number space.big_endian (e ∷ f ∷ g ∷ h ∷ [])),
  )
