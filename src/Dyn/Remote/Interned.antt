-- ===== src/Dyn/Remote/Interned.antt =====
-- Copying a table's words from the other process, and what comes of a word that cannot be read.
use libunwind.Prelude.{
  ℕ, zero, suc, ◌+◌, ◌*◌, ◌<◌, ◌≡◌, sym, ap, ◌∙◌, arith, Bool, true, List, [], ◌∷◌, length, none,
  some,
}
use libunwind.Prelude.Bits.{word_mod}
use libunwind.Result.{ok, err, Error}
use libunwind.Dwarf.Types.{table}
use libunwind.Dwarf.Read.{AddrSpace}
use libunwind.Dyn.Remote.{fetchw, read_words, intern_array, table_info, intern_dyn_info}
use libunwind.Dyn.Remote.Found.{fetchw-word}

-- From `addr` on the memory has these words.
abbrev pub HoldsWords : AddrSpace → (addr : ℕ) → List ℕ → Type 0
HoldsWords space addr [] = Unit
HoldsWords space addr (w ∷ ws) =
    (space.access_mem addr ≡ ok w) × (addr + 8 < word_mod) × HoldsWords space (addr + 8) ws

fetchw-fails :
    (space : AddrSpace) (addr : ℕ) (e : Error)
    → space.access_mem addr ≡ err e
    → fetchw space addr ≡ err e
unfolding fetchw
fetchw-fails space addr e h = rw h

read_words-cut :
    (space : AddrSpace) (n addr : ℕ) (ws : List ℕ) (e : Error)
    → length ws < n
    → HoldsWords space addr ws
    → space.access_mem (addr + 8 * length ws) ≡ err e
    → read_words space n addr ≡ ok none
unfolding read_words
read_words-cut space zero addr ws e short h fails = absurd (omega arith)
read_words-cut space (suc n) addr [] e short h fails =
    let here : addr + 8 * 0 ≡ addr = omega arith in
    rw (
      fetchw-fails space addr e (ap (λ (t : ℕ). space.access_mem t) (sym here) ∙ fails),
      read_words,
    )
read_words-cut space (suc n) addr (w ∷ ws) e short (at, fits, rest) fails =
    let further : addr + 8 * suc (length ws) ≡ addr + 8 + 8 * length ws = omega arith in
    rw (fetchw-word space addr w at fits, read_words)
      (rw (
        read_words-cut space n (addr + 8) ws e (omega arith) rest
          (ap (λ (t : ℕ). space.access_mem t) (sym further) ∙ fails)))

-- Where a table of more words than `ws` stands at the address, memory is given for its copy, and the
-- word behind `ws` cannot be read, `intern_dyn_info` takes the table as copied: it returns 0 with no
-- array, which `intern_array` has freed, and the length that the table had.
pub intern_dyn_info-unreadable :
    (space : AddrSpace) (alloc : ℕ → Bool) (fuel addr name_ptr segbase table_len : ℕ) (ws : List ℕ)
    (e : Error)
    → length ws < table_len
    → alloc table_len ≡ true
    → HoldsWords space addr (name_ptr ∷ segbase ∷ table_len ∷ ws)
    → space.access_mem (addr + 24 + 8 * length ws) ≡ err e
    → intern_dyn_info space alloc fuel (some table) addr
      ≡ ok (table_info name_ptr segbase table_len none)
unfolding intern_dyn_info intern_array
intern_dyn_info-unreadable space alloc fuel addr name_ptr segbase table_len ws e short gives
      (at_name, fits_name, (at_base, fits_base, (at_len, fits_len, words))) fails =
    let behind : addr + 24 + 8 * length ws ≡ addr + 8 + 8 + 8 + 8 * length ws = omega arith in
    rw (
      fetchw-word space addr name_ptr at_name fits_name,
      fetchw-word space (addr + 8) segbase at_base fits_base,
      fetchw-word space (addr + 8 + 8) table_len at_len fits_len,
      gives,
      read_words-cut space table_len (addr + 8 + 8 + 8) ws e short words
          (ap (λ (t : ℕ). space.access_mem t) (sym behind) ∙ fails),
    )
