-- ===== src/Dwarf/Fde/Cie.antt =====
-- Parsing a CIE of an .eh_frame section, in the form that compilers write.
use libunwind.Prelude.{
  ℕ, zero, suc, ◌+◌, ◌*◌, ◌%◌, ◌≤◌, ◌<◌, ◌≡◌, ◌≢◌, Bool, refl, arith, ◌==◌, List, [], ◌∷◌, ◌++◌,
  length, true, false,
}
use libunwind.Prelude.Bits.{word_mod}
use native.Mathlib.Nat.{mod-lt}
use libunwind.Prelude.Int.{signed, to_word}
use libunwind.Result.{ok, ◌>>=◌}
use libunwind.Dwarf.Read.{AddrSpace}
use libunwind.Dwarf.Read.Bytes.{
  after, after-eq, Holds, Holds-front, Holds-back, number, readu32-number,
}
use libunwind.Dwarf.Leb128.{dwarf_read_uleb128}
use libunwind.Dwarf.Leb128.Decode.{IsLeb128, groups, read_uleb128-groups}
use libunwind.Dwarf.Leb128.Signed.{read_sleb128-signed}
use libunwind.Dwarf.Types.{ProcInfo, CieInfo}
use libunwind.Dwarf.Fde.{
  no_cie, cie_header, read_augmentation, parse_augmentation, sized_augmentation,
  read_ret_addr_column, skip_sizes, Parsed, parse_cie, default_encoding,
}

-- Two parts at an address, and what stands behind the first.
pub Holds-split :
    (space : AddrSpace) (addr : ℕ) (xs ys : List ℕ)
    → Holds space addr (xs ++ ys)
    → Holds space addr xs × Holds space (after addr (length xs)) ys
Holds-split space addr xs ys h = (Holds-front space addr xs ys h, Holds-back space addr xs ys h)

-- Four bytes that hold the number 0.
abbrev pub four_zeros : List ℕ
four_zeros = 0 ∷ 0 ∷ 0 ∷ 0 ∷ []

number_zeros : (big : Bool) → number big four_zeros ≡ 0
number_zeros true = refl
number_zeros false = refl

-- The identifier 0 and a length that is no escape.
pub cie_header-eh_frame :
    (space : AddrSpace) (addr l0 l1 l2 l3 : ℕ)
    → number space.big_endian (l0 ∷ l1 ∷ l2 ∷ l3 ∷ []) ≢ 0xffffffff
    → Holds space addr (l0 ∷ l1 ∷ l2 ∷ l3 ∷ [])
    → Holds space (after addr 4) four_zeros
    → cie_header space false addr
      ≡ ok (
        (after addr 4 + number space.big_endian (l0 ∷ l1 ∷ l2 ∷ l3 ∷ [])) % word_mod,
        after addr 8,
      )
unfolding cie_header
cie_header-eh_frame space addr l0 l1 l2 l3 short holds zeros =
    let len : ℕ = number space.big_endian (l0 ∷ l1 ∷ l2 ∷ l3 ∷ []) in
    let no_escape : (len == 0xffffffff) ≡ Bool.false = ground arith in
    rw (
      readu32-number space addr l0 l1 l2 l3 holds,
      no_escape,
      readu32-number space (after addr 4) 0 0 0 0 zeros,
      number_zeros space.big_endian,
    )

-- The part behind the header: version 1, an augmentation of `z` and one more character, the factors,
-- the column of the return address, the size of the augmentation's data, and what follows it.
abbrev pub cie_body : (c : ℕ) (code factor : List ℕ) (column : ℕ) (size block : List ℕ) → List ℕ
cie_body c code factor column size block =
    1 ∷ b'z' ∷ c ∷ 0 ∷ (code ++ (factor ++ (column ∷ (size ++ block))))

-- An unknown character behind a `z` ends the loop with the address behind the size.
parse_augmentation-unknown :
    (space : AddrSpace) (pi : ProcInfo) (c : ℕ) (cs : List ℕ) (p : Parsed) (aug_size next : ℕ)
    → c ≢ b'L'
    → c ≢ b'R'
    → c ≢ b'P'
    → c ≢ b'S'
    → dwarf_read_uleb128 space p.addr ≡ ok (aug_size, next)
    → sized_augmentation space pi (b'z' ∷ c ∷ cs) p
      ≡ ok (record p { dci = record p.dci { sized_augmentation = true }; addr = next })
unfolding sized_augmentation parse_augmentation
parse_augmentation-unknown space pi c cs p aug_size next nl nr np ns e = rw e (ground arith)

wraps : (d n : ℕ) → d < word_mod → 0 < n → n < word_mod → d ≢ (d + n) % word_mod
wraps d n below some_size small same = absurd (omega arith)

module _ (space : AddrSpace) (pi : ProcInfo) (code factor : List ℕ) (column : ℕ) (size : List ℕ)
    (code_ok : IsLeb128 code) (code_short : length code ≤ 10) (factor_ok : IsLeb128 factor)
    (factor_short : length factor ≤ 9) (size_ok : IsLeb128 size)
    (size_short : length size ≤ 10) where
  -- Where the augmentation's data starts, for a body at `a`, and the size in front of it.
  abbrev pub size_at : ℕ → ℕ
  size_at a = after (after (after (after a 4) (length code)) (length factor)) 1

  abbrev pub data_at : ℕ → ℕ
  data_at a = after (size_at a) (length size)

  data_at-below : (a : ℕ) → data_at a < word_mod
  data_at-below a =
      let start : ℕ = after (after (after a 4) (length code)) (length factor) in
      let at : after (size_at a) (length size) ≡ (size_at a + length size) % word_mod =
        after-eq (size_at a) (length size) (mod-lt (start + 1) (omega arith)) in
      rw at (mod-lt (size_at a + length size) (omega arith))

  -- What is known in front of the augmentation.
  abbrev pub plain_cie : (end : ℕ) → CieInfo
  plain_cie end = record no_cie {
    cie_instr_end = end;
    code_align = groups code % word_mod;
    data_align = to_word (signed (7 * length factor) (groups factor));
    ret_addr_column = column;
  }

  abbrev before_data : (end a : ℕ) → Parsed
  before_data end a = record {
    dci = plain_cie end;
    fde_encoding = default_encoding space;
    addr = size_at a;
  }

  body-front :
      (c : ℕ) (block : List ℕ) (fuel addr a end : ℕ)
      → c ≢ 0
      → 3 ≤ fuel
      → cie_header space false addr ≡ ok (end, a)
      → Holds space a (cie_body c code factor column size block)
      → (parse_cie space fuel addr pi false ≡ (
          sized_augmentation space pi (b'z' ∷ c ∷ []) (before_data end a)
          >>= (λ p. ok (record p.dci { fde_encoding = p.fde_encoding; cie_instr_start = p.addr }))))
        × (dwarf_read_uleb128 space (size_at a) ≡ ok (groups size % word_mod, data_at a))
        × Holds space (data_at a) block
  unfolding parse_cie read_augmentation read_ret_addr_column skip_sizes
  body-front c block zero addr a end nonzero h head holds = absurd (omega arith)
  body-front c block (suc zero) addr a end nonzero h head holds = absurd (omega arith)
  body-front c block (suc (suc zero)) addr a end nonzero h head holds = absurd (omega arith)
  body-front c block (suc (suc (suc fuel))) addr a end nonzero h head
        (_, version, (_, z, (_, r, (_, nul, rest)))) =
      let a1 : ℕ = after a 4 in
      let a2 : ℕ = after a1 (length code) in
      let a3 : ℕ = after a2 (length factor) in
      let more : (c == 0) ≡ Bool.false = ground arith in
      let (h_code, rest1) = Holds-split space a1 code (factor ++ (column ∷ (size ++ block))) rest in
      let (h_data, rest2) = Holds-split space a2 factor (column ∷ (size ++ block)) rest1 in
      let (_, e_column, rest3) = rest2 in
      let (h_size, rest4) = Holds-split space (after a3 1) size block rest3 in
      (
        rw (
          head,
          version,
          z,
          r,
          more,
          nul,
          read_uleb128-groups space a1 code code_ok code_short h_code,
          read_sleb128-signed space a2 factor factor_ok factor_short h_data,
          e_column,
        ),
        read_uleb128-groups space (after a3 1) size size_ok size_short h_size,
        rest4,
      )

  -- Where an .eh_frame CIE starts, with a 32-bit length that is no escape.
  module _ (fuel addr l0 l1 l2 l3 : ℕ) (enough : 3 ≤ fuel)
      (short : number space.big_endian (l0 ∷ l1 ∷ l2 ∷ l3 ∷ []) ≢ 0xffffffff) where
    abbrev pub end_at : ℕ
    end_at = (after addr 4 + number space.big_endian (l0 ∷ l1 ∷ l2 ∷ l3 ∷ [])) % word_mod

    cie-front :
        (c : ℕ) (block : List ℕ)
        → c ≢ 0
        → Holds space addr
            (l0 ∷ l1 ∷ l2 ∷ l3 ∷ (four_zeros ++ cie_body c code factor column size block))
        → (parse_cie space fuel addr pi false ≡ (
            sized_augmentation space pi (b'z' ∷ c ∷ []) (before_data end_at (after addr 8))
            >>= (λ p.
                ok (record p.dci { fde_encoding = p.fde_encoding; cie_instr_start = p.addr }))))
          × (dwarf_read_uleb128 space (size_at (after addr 8))
              ≡ ok (groups size % word_mod, data_at (after addr 8)))
          × Holds space (data_at (after addr 8)) block
    cie-front c block nonzero holds =
        let len : List ℕ = l0 ∷ l1 ∷ l2 ∷ l3 ∷ [] in
        let body : List ℕ = cie_body c code factor column size block in
        let (h_len, rest) = Holds-split space addr len (four_zeros ++ body) holds in
        let (h_zeros, h_body) = Holds-split space (after addr 4) four_zeros body rest in
        body-front c block fuel addr (after addr 8) end_at nonzero enough
          (cie_header-eh_frame space addr l0 l1 l2 l3 short h_len h_zeros) h_body

    -- Where memory holds an .eh_frame CIE of version 1 with the augmentation "zR", a 32-bit length,
    -- factors of at most ten and nine bytes, and augmentation data of the size 1, the encoding of the
    -- pointers in the FDEs: `parse_cie` returns its
    -- factors, its column, its encoding, and where its program stands: from behind the augmentation's
    -- data to the end that the length gives.
    pub parse_cie-eh_frame :
        (encoding : ℕ)
        → groups size ≡ 1
        → Holds space addr (
            l0
            ∷ l1
            ∷ l2
            ∷ l3
            ∷ (four_zeros ++ cie_body b'R' code factor column size (encoding ∷ [])))
        → parse_cie space fuel addr pi false
          ≡ ok (record (plain_cie end_at) {
            cie_instr_start = (data_at (after addr 8) + groups size) % word_mod;
            fde_encoding = encoding;
            sized_augmentation = true;
          })
    unfolding sized_augmentation parse_augmentation
    parse_cie-eh_frame encoding one holds =
        let (front, e_size, (_, e_data, _)) = cie-front b'R' (encoding ∷ []) (omega arith) holds in
        rw (front, e_size, e_data, one)

    -- Where memory holds an .eh_frame CIE of version 1 with a 32-bit length, whose augmentation is a `z`
    -- and a character that is none of `L`, `R`, `P` and `S`, with its factors of at most ten and nine
    -- bytes and augmentation data of any size: `parse_cie` succeeds, and has its program start at
    -- the augmentation's data. That is not behind the data, where they are not empty and shorter than
    -- the address space.
    pub parse_cie-unknown :
        (c : ℕ) (block : List ℕ)
        → c ≢ 0
        → c ≢ b'L'
        → c ≢ b'R'
        → c ≢ b'P'
        → c ≢ b'S'
        → Holds space addr
            (l0 ∷ l1 ∷ l2 ∷ l3 ∷ (four_zeros ++ cie_body c code factor column size block))
        → (parse_cie space fuel addr pi false
            ≡ ok (record (plain_cie end_at) {
              cie_instr_start = data_at (after addr 8);
              fde_encoding = default_encoding space;
              sized_augmentation = true;
            }))
          × (0 < groups size
              → groups size < word_mod
              → data_at (after addr 8) ≢ (data_at (after addr 8) + groups size) % word_mod)
    parse_cie-unknown c block nonzero nl nr np ns holds =
        let (front, e_size, _) = cie-front c block nonzero holds in
        (
          rw (
            front,
            parse_augmentation-unknown space pi c [] (before_data end_at (after addr 8))
                (groups size % word_mod) (data_at (after addr 8)) nl nr np ns e_size,
          ),
          λ some_size small.
              let below : data_at (after addr 8) < word_mod = data_at-below (after addr 8) in
              wraps (data_at (after addr 8)) (groups size) below some_size small,
        )
