-- ===== src/Arm/Extract.antt =====
-- src/arm/Gex_tables.c, arm_exidx_extract: the unwind instructions of an entry. The result is what the
-- function leaves in `buf`; a failed `assert` is `aborted`.
pub mod Bounds
pub mod Stored
use libunwind.Prelude.{
  ℕ, zero, suc, ◌+◌, ◌-◌, ◌*◌, ◌/◌, ◌%◌, ◌^◌, Bool, true, false, leb, ◌==◌, ◌||◌, not,
  if◌then◌else◌, List, [], ◌∷◌, ◌++◌,
}
use libunwind.Prelude.Bits.{test_bit}
use libunwind.Result.{Result, ok, err, stop, stopunwind, aborted, ◌>>=◌}
use libunwind.Arm.{ArmSpace, word32_mod, word_or_inval, prel31_to_addr}

-- `(uint8_t) (data >> (8 * k))`
abbrev pub byte_of : ℕ → ℕ → ℕ
byte_of word k = word / 2 ^ (8 * k) % 256

-- `data & ARM_EXIDX_COMPACT`
abbrev pub is_compact : ℕ → Bool
is_compact word = test_bit word 31

abbrev pub three_bytes : ℕ → List ℕ
three_bytes word = byte_of word 2 ∷ byte_of word 1 ∷ byte_of word 0 ∷ []

abbrev pub four_bytes : ℕ → List ℕ
four_bytes word = byte_of word 3 ∷ three_bytes word

-- The loop over the words of the table.
unfoldable pub table_words : ArmSpace → (n addr : ℕ) → Result (List ℕ)
table_words space zero addr = ok []
table_words space (suc n) addr = do
  word ← word_or_inval (space.access_mem addr)
  rest ← table_words space n ((addr + 4) % word32_mod)
  ok (four_bytes word ++ rest)

-- `assert (n_table_words <= 5)`, and the loop behind the first bytes.
unfoldable pub with_words : ArmSpace → (first : List ℕ) (n addr : ℕ) → Result (List ℕ)
with_words space first n addr =
    if leb n 5 then (do rest ← table_words space n addr; ok (first ++ rest)) else stop aborted

-- The compact models 1 and 2 count their words; the others have three bytes.
unfoldable pub extract_compact : ArmSpace → (word addr : ℕ) → Result (List ℕ)
extract_compact space word addr =
    let pers = word / 2 ^ 24 % 16 in
    if (pers == 1) || (pers == 2)
    then with_words space (byte_of word 1 ∷ byte_of word 0 ∷ []) (byte_of word 2)
        ((addr + 4) % word32_mod)
    else with_words space (three_bytes word) 0 addr

-- The generic model: the address of a personality routine, then the words.
unfoldable pub extract_generic : ArmSpace → (addr : ℕ) → Result (List ℕ)
extract_generic space addr = do
  _ ← prel31_to_addr space addr
  word ← word_or_inval (space.access_mem ((addr + 4) % word32_mod))
  with_words space (three_bytes word) (byte_of word 3) ((addr + 8) % word32_mod)

-- The entry's second word points to the table.
unfoldable pub extract_table : ArmSpace → (entry : ℕ) → Result (List ℕ)
extract_table space entry = do
  addr ← prel31_to_addr space ((entry + 4) % word32_mod)
  word ← word_or_inval (space.access_mem addr)
  if is_compact word then extract_compact space word addr else extract_generic space addr

-- `buf[nbuf - 1] != ARM_EXTBL_OP_FINISH`, where there is a byte.
unfoldable pub with_finish : List ℕ → List ℕ
with_finish [] = []
with_finish (b ∷ []) = if b == 0xb0 then b ∷ [] else b ∷ 0xb0 ∷ []
with_finish (b ∷ c ∷ bs) = b ∷ with_finish (c ∷ bs)

unfoldable pub arm_exidx_extract : ArmSpace → (entry : ℕ) → Result (List ℕ)
arm_exidx_extract space entry = do
  _ ← prel31_to_addr space entry
  word ← word_or_inval (space.access_mem ((entry + 4) % word32_mod))
  if word == 1 then err stopunwind else (do
    buf ← (if is_compact word then ok (three_bytes word) else extract_table space entry)
    ok (with_finish buf))
