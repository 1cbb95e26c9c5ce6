-- ===== src/Dwarf/Fde/Augmentation.antt =====
-- The augmentation string of a CIE.
use libunwind.Prelude.{
  ℕ, zero, suc, ◌<◌, ◌≡◌, ◌≢◌, Bool, arith, ltb, ◌==◌, if◌then◌else◌, List, [], ◌∷◌, ◌++◌, length,
}
use libunwind.Result.{ok}
use libunwind.Dwarf.Read.{AddrSpace}
use libunwind.Dwarf.Read.Bytes.{after, Holds}
use libunwind.Dwarf.Fde.{read_augmentation}

-- Characters that are not the zero byte.
abbrev pub IsText : List ℕ → Type 0
IsText [] = Unit
IsText (c ∷ cs) = (c ≢ 0) × IsText cs

-- `kept` and what fits of the rest, up to four characters.
abbrev pub keep_four : List ℕ → List ℕ → List ℕ
keep_four kept [] = kept
keep_four kept (c ∷ cs) = keep_four (if ltb (length kept) 4 then kept ++ (c ∷ []) else kept) cs

-- Where memory holds a string and its zero byte, the loop keeps the first four characters and goes
-- on behind the zero byte, whatever the string's length.
pub read_augmentation-keep_four :
    (space : AddrSpace) (cs : List ℕ) (fuel : ℕ) (kept : List ℕ) (addr : ℕ)
    → IsText cs
    → length cs < fuel
    → Holds space addr (cs ++ (0 ∷ []))
    → read_augmentation space fuel kept addr ≡ ok (keep_four kept cs, after addr (suc (length cs)))
unfolding read_augmentation
read_augmentation-keep_four space cs zero kept addr text h holds = absurd (omega arith)
read_augmentation-keep_four space [] (suc fuel) kept addr text h (b, e, _) = rw e
read_augmentation-keep_four space (c ∷ cs) (suc fuel) kept addr (nonzero, text) h (b, e, holds) =
    let more : (c == 0) ≡ Bool.false = ground arith in
    rw (e, more)
      (read_augmentation-keep_four space cs fuel
        (if ltb (length kept) 4 then kept ++ (c ∷ []) else kept) (after addr 1) text (omega arith)
        holds)
