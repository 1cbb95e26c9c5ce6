-- ===== src/Dwarf/Expr/Sized.antt =====
-- DW_OP_deref_size: reading one to eight bytes.
use libunwind.Prelude.{
  ℕ, zero, suc, ◌*◌, ◌%◌, ◌^◌, ◌≤◌, ◌<◌, ◌≡◌, ◌≢◌, ◌⊎◌, refl, sym, ap, ◌∙◌, arith, Bool, true,
  false, List, [], ◌∷◌, length,
}
use native.Mathlib.Nat.{mod-eq_of_lt}
use libunwind.Result.{ok}
use libunwind.Dwarf.Read.{AddrSpace, dwarf_readu32, dwarf_readu64}
use libunwind.Dwarf.Read.Bytes.{
  after, Holds, Holds-front, little, number, readu16-number, readu32-number, readu64-number,
}
use libunwind.Dwarf.Read.Byte.{Word, bytes, AreBytes}
use libunwind.Dwarf.Expr.Machine.{goto, keep_from, read_size, exec_deref_size}

-- The first bytes of a word.
abbrev pub first : ℕ → List ℕ → List ℕ
first zero bs = []
first (suc n) [] = []
first (suc n) (b ∷ bs) = b ∷ first n bs

-- The sizes that are read right: each one on a big-endian space, and on a little-endian one those
-- with a branch of their own.
abbrev pub Supported : Bool → ℕ → Type 0
Supported true size = (1 ≤ size) × (size ≤ 8)
Supported false size = ((1 ≤ size) × (size ≤ 4)) ⊎ (size ≡ 8)

module _ (space : AddrSpace) (addr : ℕ) (w : Word) (holds : Holds space addr (bytes w)) where
  half : Holds space addr (w.b0 ∷ w.b1 ∷ w.b2 ∷ w.b3 ∷ [])
  half =
      Holds-front space addr (w.b0 ∷ w.b1 ∷ w.b2 ∷ w.b3 ∷ []) (w.b4 ∷ w.b5 ∷ w.b6 ∷ w.b7 ∷ []) holds

  quarter : Holds space addr (w.b0 ∷ w.b1 ∷ [])
  quarter = Holds-front space addr (w.b0 ∷ w.b1 ∷ []) (w.b2 ∷ w.b3 ∷ []) half

  whole_word : dwarf_readu64 space addr ≡ ok (number space.big_endian (bytes w), after addr 8)
  whole_word = readu64-number space addr w.b0 w.b1 w.b2 w.b3 w.b4 w.b5 w.b6 w.b7 holds

  half_word :
      dwarf_readu32 space addr
      ≡ ok (number space.big_endian (w.b0 ∷ w.b1 ∷ w.b2 ∷ w.b3 ∷ []), after addr 4)
  half_word = readu32-number space addr w.b0 w.b1 w.b2 w.b3 half

  bytes-AreBytes : AreBytes w
  bytes-AreBytes =
      let (h0, _, (h1, _, (h2, _, (h3, _, (h4, _, (h5, _, (h6, _, (h7, _, _)))))))) = holds in
      (h0, h1, h2, h3, h4, h5, h6, h7)

  read_size-number :
      (big : Bool) (size : ℕ)
      → space.big_endian ≡ big
      → Supported big size
      → read_size space size addr ≡ ok (number big (first size (bytes w)))
  unfolding read_size
  read_size-number true zero e h = absurd (omega arith)
  read_size-number true (suc zero) e h = ground (arith, holds.1)
  read_size-number true (suc (suc zero)) e h =
      ground (arith, e, readu16-number space addr w.b0 w.b1 quarter)
  read_size-number true (suc (suc (suc zero))) e h = ground (arith, e, half_word, bytes-AreBytes)
  read_size-number true (suc (suc (suc (suc zero)))) e h = ground (arith, e, half_word)
  read_size-number true (suc (suc (suc (suc (suc zero))))) e h =
      ground (arith, e, whole_word, bytes-AreBytes)
  read_size-number true (suc (suc (suc (suc (suc (suc zero)))))) e h =
      ground (arith, e, whole_word, bytes-AreBytes)
  read_size-number true (suc (suc (suc (suc (suc (suc (suc zero))))))) e h =
      ground (arith, e, whole_word, bytes-AreBytes)
  read_size-number true (suc (suc (suc (suc (suc (suc (suc (suc zero)))))))) e h =
      ground (arith, e, whole_word)
  read_size-number true (suc (suc (suc (suc (suc (suc (suc (suc (suc size))))))))) e h =
      absurd (omega arith)
  read_size-number false zero e h = absurd (omega arith)
  read_size-number false (suc zero) e h = ground (arith, holds.1)
  read_size-number false (suc (suc zero)) e h =
      ground (arith, e, readu16-number space addr w.b0 w.b1 quarter)
  read_size-number false (suc (suc (suc zero))) e h = ground (arith, e, half_word, bytes-AreBytes)
  read_size-number false (suc (suc (suc (suc zero)))) e h = ground (arith, e, half_word)
  read_size-number false (suc (suc (suc (suc (suc zero))))) e h = absurd (omega arith)
  read_size-number false (suc (suc (suc (suc (suc (suc zero)))))) e h = absurd (omega arith)
  read_size-number false (suc (suc (suc (suc (suc (suc (suc zero))))))) e h = absurd (omega arith)
  read_size-number false (suc (suc (suc (suc (suc (suc (suc (suc zero)))))))) e h =
      ground (arith, e, whole_word)
  read_size-number false (suc (suc (suc (suc (suc (suc (suc (suc (suc size))))))))) e h =
      absurd (omega arith)

  -- Where memory holds the eight bytes of `w`, the size is supported and the stack is not full,
  -- DW_OP_deref_size replaces the address on the stack by the number that the first `size` bytes
  -- make.
  pub deref_size-number :
      (size next_addr : ℕ) (stack : List ℕ)
      → Supported space.big_endian size
      → length stack < 64
      → exec_deref_size space size next_addr (addr ∷ stack)
        ≡ goto next_addr (number space.big_endian (first size (bytes w)) ∷ stack)
  unfolding exec_deref_size
  deref_size-number size next_addr stack supported room =
      rw (read_size-number space.big_endian size refl supported) (ground arith)

  -- What the mask leaves of the eight bytes.
  read_size-keep_from :
      (size : ℕ)
      → space.big_endian ≡ false
      → 5 ≤ size
      → size ≤ 7
      → (v : ℕ) × (read_size space size addr ≡ ok v)
        × (v % 2 ^ (8 * size) ≡ 0)
        × (little (first size (bytes w)) < 2 ^ (8 * size))
  unfolding read_size
  read_size-keep_from zero e low high = absurd (omega arith)
  read_size-keep_from (suc zero) e low high = absurd (omega arith)
  read_size-keep_from (suc (suc zero)) e low high = absurd (omega arith)
  read_size-keep_from (suc (suc (suc zero))) e low high = absurd (omega arith)
  read_size-keep_from (suc (suc (suc (suc zero)))) e low high = absurd (omega arith)
  read_size-keep_from (suc (suc (suc (suc (suc zero))))) e low high = (
    keep_from (8 * 5) (little (bytes w)),
    ground (arith, e, whole_word),
    omega arith,
    omega (arith, bytes-AreBytes),
  )
  read_size-keep_from (suc (suc (suc (suc (suc (suc zero)))))) e low high = (
    keep_from (8 * 6) (little (bytes w)),
    ground (arith, e, whole_word),
    omega arith,
    omega (arith, bytes-AreBytes),
  )
  read_size-keep_from (suc (suc (suc (suc (suc (suc (suc zero))))))) e low high = (
    keep_from (8 * 7) (little (bytes w)),
    ground (arith, e, whole_word),
    omega arith,
    omega (arith, bytes-AreBytes),
  )
  read_size-keep_from (suc (suc (suc (suc (suc (suc (suc (suc size)))))))) e low high =
      absurd (omega arith)

  -- Where memory of a little-endian space holds the eight bytes of `w` and the stack is not full,
  -- DW_OP_deref_size of five to seven bytes, not all zero, replaces the address on the stack by a
  -- word whose `size` low bytes are zero, which is not the number that those bytes make.
  pub deref_size-little_endian :
      (size next_addr : ℕ) (stack : List ℕ)
      → space.big_endian ≡ false
      → 5 ≤ size
      → size ≤ 7
      → length stack < 64
      → little (first size (bytes w)) ≢ 0
      → (v : ℕ) × (exec_deref_size space size next_addr (addr ∷ stack) ≡ goto next_addr (v ∷ stack))
        × (v % 2 ^ (8 * size) ≡ 0)
        × (v ≢ little (first size (bytes w)))
  unfolding exec_deref_size
  deref_size-little_endian size next_addr stack little_endian low high room nonzero =
      let (v, read, zeros, fits) = read_size-keep_from size little_endian low high in
      (
        v,
        rw read (ground arith),
        zeros,
        λ same.
            nonzero
              (sym (mod-eq_of_lt fits) ∙ ap (λ (t : ℕ). t % 2 ^ (8 * size)) (sym same) ∙ zeros),
      )
