-- ===== src/Arm/Extract/Bounds.antt =====
-- What `arm_exidx_extract` writes fits the buffer of its caller, `uint8_t buf[32]`.
use libunwind.Prelude.{
  ℕ, zero, suc, ◌+◌, ◌-◌, ◌*◌, ◌/◌, ◌%◌, ◌^◌, ◌≤◌, ◌<◌, ◌≡◌, refl, arith, Bool-cases, inl, inr, leb,
  leb→le, ◌==◌, ◌||◌, if◌then◌else◌, List, [], ◌∷◌, ◌++◌, length, length-append,
}
use libunwind.Result.{ok, Gives, Gives-bind, Gives-bind_any, Gives-if}
use libunwind.Arm.{ArmSpace, word32_mod, word_or_inval, prel31_to_addr}
use libunwind.Arm.Extract.{
  byte_of, is_compact, three_bytes, table_words, with_words, extract_compact, extract_generic,
  extract_table, with_finish, arm_exidx_extract,
}

abbrev pub AreBytes : List ℕ → Type 0
AreBytes [] = Unit
AreBytes (b ∷ bs) = (b < 256) × AreBytes bs

-- The last byte ends the instructions.
abbrev pub EndsFinish : List ℕ → Type 0
EndsFinish [] = ⊥
EndsFinish (b ∷ []) = b ≡ 0xb0
EndsFinish (b ∷ c ∷ bs) = EndsFinish (c ∷ bs)

AreBytes-append : (xs ys : List ℕ) → AreBytes xs → AreBytes ys → AreBytes (xs ++ ys)
AreBytes-append [] ys hx hy = hy
AreBytes-append (x ∷ xs) ys (b, hx) hy = (b, AreBytes-append xs ys hx hy)

-- Some bytes, `n` at most.
abbrev Filled : ℕ → List ℕ → Type 0
Filled n buf = (1 ≤ length buf) × (length buf ≤ n) × AreBytes buf

abbrev Words : ℕ → List ℕ → Type 0
Words n buf = (length buf ≡ 4 * n) × AreBytes buf

table_words-Gives : (space : ArmSpace) (n addr : ℕ) → Gives (Words n) (table_words space n addr)
unfolding table_words
table_words-Gives space zero addr = (refl, tt)
table_words-Gives space (suc n) addr =
    Gives-bind_any (Words (suc n)) (word_or_inval (space.access_mem addr)) _ (λ word.
      Gives-bind (Words n) (Words (suc n)) (table_words space n ((addr + 4) % word32_mod)) _
        (table_words-Gives space n ((addr + 4) % word32_mod))
        (λ rest (len, bytes).
          (omega (arith, len), (omega arith, (omega arith, (omega arith, (omega arith, bytes)))))))

with_words-Gives :
    (space : ArmSpace) (first : List ℕ) (n addr : ℕ)
    → Filled 3 first
    → Gives (Filled 23) (with_words space first n addr)
unfolding with_words
with_words-Gives space first n addr (some_byte, few, bytes) =
    Gives-if (Filled 23) (leb n 5) _ _
      (λ fits.
        Gives-bind (Words n) (Filled 23) (table_words space n addr) _
          (table_words-Gives space n addr)
          (λ rest (len, words). (
            omega (arith, length-append first rest),
            omega (arith, length-append first rest, leb→le n 5 fits),
            AreBytes-append first rest bytes words,
          )))
      (λ _. tt)

three_bytes-Filled : (word : ℕ) → Filled 3 (three_bytes word)
three_bytes-Filled word =
    (omega arith, omega arith, (omega arith, (omega arith, (omega arith, tt))))

extract_compact-Gives :
    (space : ArmSpace) (word addr : ℕ) → Gives (Filled 23) (extract_compact space word addr)
unfolding extract_compact
extract_compact-Gives space word addr =
    Gives-if (Filled 23) ((word / 2 ^ 24 % 16 == 1) || (word / 2 ^ 24 % 16 == 2)) _ _
      (λ _.
        with_words-Gives space (byte_of word 1 ∷ byte_of word 0 ∷ []) (byte_of word 2)
          ((addr + 4) % word32_mod) (omega arith, omega arith, (omega arith, (omega arith, tt))))
      (λ _. with_words-Gives space (three_bytes word) 0 addr (three_bytes-Filled word))

extract_generic-Gives :
    (space : ArmSpace) (addr : ℕ) → Gives (Filled 23) (extract_generic space addr)
unfolding extract_generic
extract_generic-Gives space addr = Gives-bind_any (Filled 23) (prel31_to_addr space addr) _ (λ _.
    Gives-bind_any (Filled 23) (word_or_inval (space.access_mem ((addr + 4) % word32_mod))) _
      (λ word.
        with_words-Gives space (three_bytes word) (byte_of word 3) ((addr + 8) % word32_mod)
          (three_bytes-Filled word)))

extract_table-Gives : (space : ArmSpace) (entry : ℕ) → Gives (Filled 23) (extract_table space entry)
unfolding extract_table
extract_table-Gives space entry =
    Gives-bind_any (Filled 23) (prel31_to_addr space ((entry + 4) % word32_mod)) _ (λ addr.
      Gives-bind_any (Filled 23) (word_or_inval (space.access_mem addr)) _ (λ word.
        Gives-if (Filled 23) (is_compact word) _ _ (λ _. extract_compact-Gives space word addr)
          (λ _. extract_generic-Gives space addr)))

-- Instructions that a buffer of `n` bytes holds.
abbrev pub Fits : ℕ → List ℕ → Type 0
Fits n buf = (length buf ≤ n) × AreBytes buf × EndsFinish buf

EndsFinish-cons : (b : ℕ) (bs : List ℕ) → EndsFinish bs → EndsFinish (b ∷ bs)
EndsFinish-cons b [] h = absurd h
EndsFinish-cons b (c ∷ bs) h = h

with_finish-Fits : (n : ℕ) (buf : List ℕ) → Filled n buf → Fits (suc n) (with_finish buf)
unfolding with_finish
with_finish-Fits n [] h = absurd (omega arith)
with_finish-Fits n (b ∷ []) (some_byte, few, (byte, bytes)) = elim (Bool-cases (b == 0xb0)) [
  | inl ends ↦ rw ends (omega arith, (byte, tt), ground arith)
  | inr other ↦ rw other (omega arith, (byte, (omega arith, tt)), refl)
]
with_finish-Fits n (b ∷ c ∷ bs) (some_byte, few, (byte, bytes)) =
    let (len, rest, ends) = with_finish-Fits (n - 1) (c ∷ bs) (omega arith, omega arith, bytes) in
    (omega (arith, len), (byte, rest), EndsFinish-cons b (with_finish (c ∷ bs)) ends)

-- Whatever memory holds, where `arm_exidx_extract` returns instructions they are 24 bytes at most, of
-- the 32 of the caller's buffer, and the last one is 0xb0, which ends them.
pub extract-Fits : (space : ArmSpace) (entry : ℕ) → Gives (Fits 24) (arm_exidx_extract space entry)
unfolding arm_exidx_extract
extract-Fits space entry = Gives-bind_any (Fits 24) (prel31_to_addr space entry) _ (λ _.
    Gives-bind_any (Fits 24) (word_or_inval (space.access_mem ((entry + 4) % word32_mod))) _
      (λ word.
        Gives-if (Fits 24) (word == 1) _ _ (λ _. tt)
          (λ _.
            Gives-bind (Filled 23) (Fits 24)
              (if is_compact word then ok (three_bytes word) else extract_table space entry) _
              (Gives-if (Filled 23) (is_compact word) _ _
                (λ _. (omega arith, omega arith, (omega arith, (omega arith, (omega arith, tt)))))
                (λ _. extract_table-Gives space entry))
              (with_finish-Fits 23))))
