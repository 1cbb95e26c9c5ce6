-- ===== src/Dwarf/Lands.antt =====
-- Where a reader leaves the address: behind where it began, and not far.
use libunwind.Prelude.{
  ℕ, zero, suc, ◌+◌, ◌≤◌, ◌<◌, arith, Bool, true, false, leb, ◌==◌, if◌then◌else◌,
}
use libunwind.Prelude.Bits.{word_mod, test_bit}
use libunwind.Result.{Result, ok, err, stop, ◌>>=◌}
use libunwind.Dwarf.Read.{
  AddrSpace, Reader, dwarf_readu8, dwarf_readu16, dwarf_readu32, dwarf_readu64, dwarf_reads16,
  dwarf_reads32, dwarf_reads64, dwarf_readw,
}
use libunwind.Dwarf.Leb128.{
  Leb, add_group, read_leb128_loop, rounds, dwarf_read_uleb128, dwarf_read_sleb128,
}

-- A result, if there is one, has its address within the bounds.
abbrev pub Lands {ℓ} : {A : Type ℓ} → (A → ℕ) → (lo hi : ℕ) → Result A → Type 0
Lands pos lo hi (ok a) = (lo ≤ pos a) × (pos a ≤ hi)
Lands pos lo hi (err e) = Unit
Lands pos lo hi (stop x) = Unit

abbrev pub next_of : ℕ × ℕ → ℕ
next_of (v, addr) = addr

pub Lands-bind {ℓ κ} :
    {A : Type ℓ} {B : Type κ} (pos : A → ℕ) (pos' : B → ℕ) (lo hi lo' hi' : ℕ) (m : Result A)
    (f : A → Result B)
    → Lands pos lo hi m
    → ((a : A) → lo ≤ pos a → pos a ≤ hi → Lands pos' lo' hi' (f a))
    → Lands pos' lo' hi' (m >>= f)
Lands-bind pos pos' lo hi lo' hi' (ok a) f h k = k a h.0 h.1
Lands-bind pos pos' lo hi lo' hi' (err e) f h k = tt
Lands-bind pos pos' lo hi lo' hi' (stop x) f h k = tt

pub Lands-if {ℓ} :
    {A : Type ℓ} (pos : A → ℕ) (lo hi : ℕ) (b : Bool) (m n : Result A)
    → Lands pos lo hi m
    → Lands pos lo hi n
    → Lands pos lo hi (if b then m else n)
Lands-if pos lo hi true m n h k = h
Lands-if pos lo hi false m n h k = k

-- A reader moves the address on by at most `k` bytes, short of the end of the address space.
abbrev pub Moves : ℕ → Reader → Type 0
Moves k reader = (addr : ℕ) → addr + k < word_mod → Lands next_of addr (addr + k) (reader addr)

-- Two reads, one after the other.
Moves-twice :
    (j k : ℕ) (reader : Reader) (f : ℕ → ℕ → ℕ)
    → j + j ≤ k
    → Moves j reader
    → Moves k (λ addr. reader addr >>= λ r. reader r.1 >>= λ q. ok (f r.0 q.0, q.1))
Moves-twice j k reader f h m addr room =
    Lands-bind next_of next_of addr (addr + j) addr (addr + k) (reader addr) _
      (m addr (omega arith))
      (λ r lo hi.
        Lands-bind next_of next_of r.1 (r.1 + j) addr (addr + k) (reader r.1) _
          (m r.1 (omega arith)) (λ q lo' hi'. omega arith))

Moves-map :
    (k : ℕ) (reader : Reader) (f : ℕ → ℕ)
    → Moves k reader
    → Moves k (λ addr. reader addr >>= λ r. ok (f r.0, r.1))
Moves-map k reader f m addr room =
    Lands-bind next_of next_of addr (addr + k) addr (addr + k) (reader addr) _ (m addr room)
      (λ r lo hi. omega arith)

module _ (space : AddrSpace) where
  -- A byte's address moves on by exactly one.
  pub readu8-Lands :
      (addr : ℕ)
      → addr + 1 < word_mod
      → Lands next_of (addr + 1) (addr + 1) (dwarf_readu8 space addr)
  unfolding dwarf_readu8
  readu8-Lands addr h = ground arith

  pub readu8-Moves : Moves 1 (dwarf_readu8 space)
  unfolding dwarf_readu8
  readu8-Moves addr h = ground arith

  pub readu16-Moves : Moves 2 (dwarf_readu16 space)
  unfolding dwarf_readu16
  readu16-Moves = Moves-twice 1 2 (dwarf_readu8 space) _ (omega arith) readu8-Moves

  pub readu32-Moves : Moves 4 (dwarf_readu32 space)
  unfolding dwarf_readu32
  readu32-Moves = Moves-twice 2 4 (dwarf_readu16 space) _ (omega arith) readu16-Moves

  pub readu64-Moves : Moves 8 (dwarf_readu64 space)
  unfolding dwarf_readu64
  readu64-Moves = Moves-twice 4 8 (dwarf_readu32 space) _ (omega arith) readu32-Moves

  pub reads16-Moves : Moves 2 (dwarf_reads16 space)
  unfolding dwarf_reads16
  reads16-Moves = Moves-map 2 (dwarf_readu16 space) _ readu16-Moves

  pub reads32-Moves : Moves 4 (dwarf_reads32 space)
  unfolding dwarf_reads32
  reads32-Moves = Moves-map 4 (dwarf_readu32 space) _ readu32-Moves

  pub reads64-Moves : Moves 8 (dwarf_reads64 space)
  unfolding dwarf_reads64
  reads64-Moves = Moves-map 8 (dwarf_readu64 space) _ readu64-Moves

  pub Moves-le : (j k : ℕ) (reader : Reader) → j ≤ k → Moves j reader → Moves k reader
  Moves-le j k reader h m addr room = widen (reader addr) (m addr (omega arith))
    where
      widen :
          (r : Result (ℕ × ℕ)) → Lands next_of addr (addr + j) r → Lands next_of addr (addr + k) r
      widen (ok (v, a)) p = omega arith
      widen (err e) p = tt
      widen (stop x) p = tt

  pub readw-Moves : Moves 8 (dwarf_readw space)
  unfolding dwarf_readw
  readw-Moves addr h =
      Lands-if next_of addr (addr + 8) (space.addr_size == 4) _ _
        (Moves-le 4 8 (dwarf_readu32 space) (omega arith) readu32-Moves addr h)
        (Lands-if next_of addr (addr + 8) (space.addr_size == 8) _ _ (readu64-Moves addr h) tt)

  -- The loop reads a byte a round.
  read_leb128_loop-Lands :
      (fuel addr val shift : ℕ)
      → addr + fuel < word_mod
      → Lands (λ r. r.addr) addr (addr + fuel) (read_leb128_loop space fuel addr val shift)
  unfolding read_leb128_loop
  read_leb128_loop-Lands zero addr val shift h = tt
  read_leb128_loop-Lands (suc fuel) addr val shift h =
      Lands-bind next_of (λ r. r.addr) (addr + 1) (addr + 1) addr (addr + suc fuel)
        (dwarf_readu8 space addr) _ (readu8-Lands addr (omega arith))
        (λ r lo hi.
          Lands-if (λ l. l.addr) addr (addr + suc fuel) (leb 64 shift) _ _ tt
            (Lands-if (λ l. l.addr) addr (addr + suc fuel) (test_bit r.0 7) _ _
              (widen r.1 lo hi
                (read_leb128_loop space fuel r.1 (add_group val r.0 shift) (shift + 7))
                (read_leb128_loop-Lands fuel r.1 (add_group val r.0 shift) (shift + 7)
                  (omega arith)))
              (omega arith)))
    where
      widen :
          (a : ℕ)
          → addr + 1 ≤ a
          → a ≤ addr + 1
          → (m : Result Leb) → Lands (λ l. l.addr) a (a + fuel) m
          → Lands (λ l. l.addr) addr (addr + suc fuel) m
      widen a lo hi (ok l) p = omega arith
      widen a lo hi (err e) p = tt
      widen a lo hi (stop x) p = tt

  pub uleb128-Moves : Moves 11 (dwarf_read_uleb128 space)
  unfolding dwarf_read_uleb128
  uleb128-Moves addr h =
      Lands-bind (λ l. l.addr) next_of addr (addr + 11) addr (addr + 11)
        (read_leb128_loop space rounds addr 0 0) _ (read_leb128_loop-Lands rounds addr 0 0 h)
        (λ r lo hi. omega arith)

  pub sleb128-Moves : Moves 11 (dwarf_read_sleb128 space)
  unfolding dwarf_read_sleb128
  sleb128-Moves addr h =
      Lands-bind (λ l. l.addr) next_of addr (addr + 11) addr (addr + 11)
        (read_leb128_loop space rounds addr 0 0) _ (read_leb128_loop-Lands rounds addr 0 0 h)
        (λ r lo hi. omega arith)
