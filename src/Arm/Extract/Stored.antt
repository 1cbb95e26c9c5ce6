-- ===== src/Arm/Extract/Stored.antt =====
-- How the ABI stores unwind instructions, and what the unwinder makes of them.
use libunwind.Prelude.{
  ℕ, ◌+◌, ◌/◌, ◌%◌, ◌^◌, ◌≤◌, ◌≡◌, ◌≢◌, refl, ap, arith, true, false, Bool-cases, inl, inr, leb,
  ◌==◌, ◌||◌, List, [], ◌∷◌, ◌++◌, length, some,
}
use libunwind.Result.{ok, ◌>>=◌}
use libunwind.Arm.{ArmSpace, ArmCursor, word32_mod, prel31, prel31_to_addr}
use libunwind.Arm.Extract.{
  byte_of, is_compact, three_bytes, four_bytes, table_words, with_words, extract_compact,
  extract_generic, extract_table, with_finish, arm_exidx_extract,
}
use libunwind.Arm.Decode.{arm_exidx_decode}
use libunwind.Arm.Decode.Instruction.{Instr, encode, run_all, AreValid}
use libunwind.Arm.Decode.Instruction.Run.{decode-run}

-- The words that memory holds from an address on, and the bytes that they make.
abbrev pub HoldsWords : ArmSpace → ℕ → List ℕ → Type 0
HoldsWords space addr [] = Unit
HoldsWords space addr (w ∷ ws) =
    (space.access_mem addr ≡ some w) × HoldsWords space ((addr + 4) % word32_mod) ws

abbrev pub bytes_of : List ℕ → List ℕ
bytes_of [] = []
bytes_of (w ∷ ws) = four_bytes w ++ bytes_of ws

-- A word that holds the address `to`, relative to its own.
abbrev pub PointsTo : ArmSpace → (from to : ℕ) → Type 0
PointsTo space from to =
    (offset : ℕ) × (space.access_mem from ≡ some offset)
    × ((from + prel31 offset) % word32_mod ≡ to)

-- The forms of an entry: in the entry itself; in a table of the compact model 0, or 1 and 2 with a
-- count of further words; and behind the address of a personality routine.
pub data Stored (space : ArmSpace) (entry : ℕ) : List ℕ → Type 0 where
  inline :
      (func word : ℕ)
      → PointsTo space entry func
      → space.access_mem ((entry + 4) % word32_mod) ≡ some word
      → is_compact word ≡ true
      → Stored space entry (three_bytes word)
  short :
      (func word addr first : ℕ)
      → PointsTo space entry func
      → space.access_mem ((entry + 4) % word32_mod) ≡ some word
      → word ≢ 1
      → is_compact word ≡ false
      → PointsTo space ((entry + 4) % word32_mod) addr
      → space.access_mem addr ≡ some first
      → is_compact first ≡ true
      → first / 2 ^ 24 % 16 ≡ 0
      → Stored space entry (three_bytes first)
  long :
      (func word addr first : ℕ) (ws : List ℕ)
      → PointsTo space entry func
      → space.access_mem ((entry + 4) % word32_mod) ≡ some word
      → word ≢ 1
      → is_compact word ≡ false
      → PointsTo space ((entry + 4) % word32_mod) addr
      → space.access_mem addr ≡ some first
      → is_compact first ≡ true
      → ((first / 2 ^ 24 % 16 == 1) || (first / 2 ^ 24 % 16 == 2)) ≡ true
      → byte_of first 2 ≡ length ws
      → length ws ≤ 5
      → HoldsWords space ((addr + 4) % word32_mod) ws
      → Stored space entry ((byte_of first 1 ∷ byte_of first 0 ∷ []) ++ bytes_of ws)
  generic :
      (func word addr routine first second : ℕ) (ws : List ℕ)
      → PointsTo space entry func
      → space.access_mem ((entry + 4) % word32_mod) ≡ some word
      → word ≢ 1
      → is_compact word ≡ false
      → PointsTo space ((entry + 4) % word32_mod) addr
      → space.access_mem addr ≡ some first
      → is_compact first ≡ false
      → PointsTo space addr routine
      → space.access_mem ((addr + 4) % word32_mod) ≡ some second
      → byte_of second 3 ≡ length ws
      → length ws ≤ 5
      → HoldsWords space ((addr + 8) % word32_mod) ws
      → Stored space entry (three_bytes second ++ bytes_of ws)

-- A closing 0xb0 goes behind what is there.
with_finish-pad : (bs pad : List ℕ) → (pad' : List ℕ) × (with_finish (bs ++ pad) ≡ bs ++ pad')
unfolding with_finish
with_finish-pad [] pad = (with_finish pad, refl)
with_finish-pad (b ∷ []) [] = elim (Bool-cases (b == 0xb0)) [
  | inl ends ↦ ([], rw ends)
  | inr other ↦ (0xb0 ∷ [], rw other)
]
with_finish-pad (b ∷ []) (p ∷ pad) = (with_finish (p ∷ pad), refl)
with_finish-pad (b ∷ c ∷ bs) pad =
    let (pad', same) = with_finish-pad (c ∷ bs) pad in (pad', ap (λ (xs : List ℕ). b ∷ xs) same)

module _ (space : ArmSpace) where
  prel31_to_addr-PointsTo :
      (from to : ℕ) → PointsTo space from to → prel31_to_addr space from ≡ ok to
  unfolding prel31_to_addr
  prel31_to_addr-PointsTo from to (offset, read, at) = rw (read, at)

  table_words-bytes_of :
      (ws : List ℕ) (addr : ℕ)
      → HoldsWords space addr ws
      → table_words space (length ws) addr ≡ ok (bytes_of ws)
  unfolding table_words
  table_words-bytes_of [] addr h = refl
  table_words-bytes_of (w ∷ ws) addr (read, h) =
      rw (read, table_words-bytes_of ws ((addr + 4) % word32_mod) h)

  with_words-bytes_of :
      (first ws : List ℕ) (n addr : ℕ)
      → n ≡ length ws
      → length ws ≤ 5
      → HoldsWords space addr ws
      → with_words space first n addr ≡ ok (first ++ bytes_of ws)
  unfolding with_words
  with_words-bytes_of first ws n addr count few h =
      let fits : leb (length ws) 5 ≡ true = ground arith in
      rw (count, fits, table_words-bytes_of ws addr h)

  -- An entry that points to a table.
  extract-table :
      (entry func word : ℕ) (bytes : List ℕ)
      → PointsTo space entry func
      → space.access_mem ((entry + 4) % word32_mod) ≡ some word
      → word ≢ 1
      → is_compact word ≡ false
      → extract_table space entry ≡ ok bytes
      → arm_exidx_extract space entry ≡ ok (with_finish bytes)
  unfolding arm_exidx_extract
  extract-table entry func word bytes at read nonone pointer table =
      let differ : (word == 1) ≡ false = ground arith in
      rw (prel31_to_addr-PointsTo entry func at, read, differ, pointer, table)

  -- The instructions that an entry stores, in any of the forms, are what is extracted, with 0xb0 behind
  -- them where they do not end so.
  extract-Stored :
      (entry : ℕ) (bytes : List ℕ)
      → Stored space entry bytes
      → arm_exidx_extract space entry ≡ ok (with_finish bytes)
  unfolding arm_exidx_extract extract_table extract_compact extract_generic
  extract-Stored entry bytes (inline func word at read compact) =
      let differ : (word == 1) ≡ false = ground arith in
      rw (prel31_to_addr-PointsTo entry func at, read, differ, compact)
  extract-Stored entry bytes
        (short func word addr first at read nonone pointer at_table read_first compact model) =
      let three : with_words space (three_bytes first) 0 addr ≡ ok (three_bytes first) =
        with_words-bytes_of (three_bytes first) [] 0 addr refl (omega arith) tt in
      extract-table entry func word bytes at read nonone pointer (
        rw
          (
            prel31_to_addr-PointsTo ((entry + 4) % word32_mod) addr at_table,
            read_first,
            compact,
            model,
          )
          three)
  extract-Stored entry bytes
        (long func word addr first ws at read nonone pointer at_table read_first compact model count
          few held) =
      extract-table entry func word bytes at read nonone pointer (
        rw
          (
            prel31_to_addr-PointsTo ((entry + 4) % word32_mod) addr at_table,
            read_first,
            compact,
            model,
          )
          (with_words-bytes_of (byte_of first 1 ∷ byte_of first 0 ∷ []) ws (byte_of first 2)
            ((addr + 4) % word32_mod) count few held))
  extract-Stored entry bytes
        (generic func word addr routine first second ws at read nonone pointer at_table read_first
          model at_routine read_second count few held) =
      extract-table entry func word bytes at read nonone pointer (
        rw
          (
            prel31_to_addr-PointsTo ((entry + 4) % word32_mod) addr at_table,
            read_first,
            model,
            prel31_to_addr-PointsTo addr routine at_routine,
            read_second,
          )
          (with_words-bytes_of (three_bytes second) ws (byte_of second 3) ((addr + 8) % word32_mod)
            count few held))

  -- Where an entry stores a sequence of `Instr` (the ABI's unwind instructions at 0x00 to 0xb3, 0xb8 to
  -- 0xbf, 0xc9 and 0xd0 to 0xd7, but for the refused and reserved ones, with a number of at most four
  -- bytes at 0xb2; 0xc0 to 0xc8 are left out), ended by 0xb0 and filled up with any bytes: extracting and decoding it changes the cursor as the instructions
  -- say, one after the other, and then takes the return address.
  pub extract-decode :
      (entry : ℕ) (is : List Instr) (pad : List ℕ) (c : ArmCursor)
      → AreValid is
      → Stored space entry (encode is ++ pad)
      → (arm_exidx_extract space entry >>= (λ buf. arm_exidx_decode space buf c))
        ≡ run_all space is c
  extract-decode entry is pad c valid stored =
      let (pad', same) = with_finish-pad (encode is) pad in
      rw (extract-Stored entry (encode is ++ pad) stored, same) (decode-run space pad' is c valid)
