-- ===== src/Dwarf/Leb128/RoundTrip.antt =====
-- An unsigned LEB128 encoder, and what the reader makes of its bytes.
use libunwind.Prelude.{
  ℕ, zero, suc, ◌+◌, ◌/◌, ◌%◌, ◌^◌, ◌≤◌, ◌<◌, ◌≡◌, arith, List, [], ◌∷◌, length, if◌then◌else◌, ltb,
}
use libunwind.Prelude.Bits.{word_mod}
use libunwind.Result.{ok}
use libunwind.Dwarf.Read.{AddrSpace}
use libunwind.Dwarf.Read.Bytes.{after, Holds}
use libunwind.Dwarf.Leb128.{dwarf_read_uleb128}
use libunwind.Dwarf.Leb128.Decode.{IsLeb128, groups, read_uleb128-groups}

-- The shortest encoding of `v`, for `v` below 128 ^ (k + 1).
unfoldable pub uleb128 : ℕ → ℕ → List ℕ
uleb128 zero v = v ∷ []
uleb128 (suc k) v =
    let rest = uleb128 k (v / 128) in if ltb v 128 then v ∷ [] else (128 + v % 128) ∷ rest

uleb128-shape :
    (k v : ℕ)
    → v < 128 ^ suc k
    → IsLeb128 (uleb128 k v) × (groups (uleb128 k v) ≡ v) × (length (uleb128 k v) ≤ suc k)
unfolding uleb128
uleb128-shape zero v h = omega arith
uleb128-shape (suc zero) v h = ground (arith, uleb128-shape zero (v / 128) (omega arith))
uleb128-shape (suc (suc k)) v h = ground (arith, uleb128-shape (suc k) (v / 128) (omega arith))

-- Where memory holds the shortest encoding of a 64-bit number, `dwarf_read_uleb128` returns the
-- number, and the address behind the encoding.
pub read_uleb128-uleb128 :
    (space : AddrSpace) (addr v : ℕ)
    → v < word_mod
    → Holds space addr (uleb128 9 v)
    → dwarf_read_uleb128 space addr ≡ ok (v, after addr (length (uleb128 9 v)))
read_uleb128-uleb128 space addr v h holds =
    let (wf, sum, len) = uleb128-shape 9 v (omega arith) in
    rw (read_uleb128-groups space addr (uleb128 9 v) wf len holds, sum) (ground arith)
